-- ===== src/GuestDiag/Ows.antt =====
-- `trim_ows` of guest_diag.rs: spaces and tabs are cut off at both ends.
use x07_wasm_backend.Common.{
  ℕ, ◌≡◌, refl, ap, ◌∙◌, Bool, true, false, ◌&&◌, ◌||◌, List, [], ◌∷◌, ◌++◌, ◌==◌, if◌then◌else◌,
  All, Bool-cases, inl, inr,
}

unfoldable pub is_ows : ℕ → Bool
is_ows b = (b == b' ') || (b == 9)

pub trim_start : List ℕ → List ℕ
trim_start [] = []
trim_start (b ∷ bs) = if is_ows b then trim_start bs else b ∷ bs

abbrev is_nil : List ℕ → Bool
is_nil [] = true
is_nil (_ ∷ _) = false

-- The loop from the end: a byte goes where it is white and nothing stays after it.
pub trim_end : List ℕ → List ℕ
trim_end [] = []
trim_end (b ∷ bs) = let rest = trim_end bs in if is_ows b && is_nil rest then [] else b ∷ rest

unfoldable pub trim_ows : List ℕ → List ℕ
unfolding trim_start trim_end is_ows
trim_ows bytes = trim_end (trim_start bytes)

-- White bytes only.
abbrev pub IsOws : List ℕ → Type 0
IsOws bs = All (λ b. is_ows b ≡ true) bs

abbrev pub StartsSolid : List ℕ → Type 0
StartsSolid [] = Unit
StartsSolid (b ∷ _) = is_ows b ≡ false

abbrev pub EndsSolid : List ℕ → Type 0
EndsSolid [] = Unit
EndsSolid (b ∷ []) = is_ows b ≡ false
EndsSolid (b ∷ c ∷ bs) = EndsSolid (c ∷ bs)

trim_start_split :
    (bs : List ℕ)
    → (ws : List ℕ) × IsOws ws × (bs ≡ ws ++ trim_start bs) × StartsSolid (trim_start bs)
unfolding trim_start
trim_start_split [] = ([], tt, refl, tt)
trim_start_split (b ∷ bs) = elim (Bool-cases (is_ows b)) [
  | inl white ↦
      let (ws, h, e, s) = trim_start_split bs in rw white (b ∷ ws, (white, h), ap (λ t. b ∷ t) e, s)
  | inr solid ↦ rw solid ([], tt, refl, solid)
]

trim_end_split :
    (bs : List ℕ)
    → (ws : List ℕ) × IsOws ws
      × (bs ≡ trim_end bs ++ ws)
      × EndsSolid (trim_end bs)
      × (StartsSolid bs → StartsSolid (trim_end bs))
unfolding trim_end
trim_end_split [] = ([], tt, refl, tt, λ h. h)
trim_end_split (b ∷ bs) = extend b bs (trim_end bs) (trim_end_split bs)
  where
    extend :
        (b : ℕ) (bs rest : List ℕ)
        → (ws : List ℕ) × IsOws ws
          × (bs ≡ rest ++ ws)
          × EndsSolid rest
          × (StartsSolid bs → StartsSolid rest)
        → (ws : List ℕ) × IsOws ws
          × (b ∷ bs ≡ (if is_ows b && is_nil rest then [] else b ∷ rest) ++ ws)
          × EndsSolid (if is_ows b && is_nil rest then [] else b ∷ rest)
          × (is_ows b ≡ false → StartsSolid (if is_ows b && is_nil rest then [] else b ∷ rest))
    extend b bs [] (ws, h, e, s, k) = elim (Bool-cases (is_ows b)) [
      | inl white ↦ rw white (b ∷ ws, (white, h), ap (λ t. b ∷ t) e, tt, λ q. tt)
      | inr solid ↦ rw solid (ws, h, ap (λ t. b ∷ t) e, solid, λ q. solid)
    ]
    extend b bs (c ∷ rest) (ws, h, e, s, k) = elim (Bool-cases (is_ows b)) [
      | inl white ↦ rw white (ws, h, ap (λ t. b ∷ t) e, s, λ q. cc)
      | inr solid ↦ rw solid (ws, h, ap (λ t. b ∷ t) e, s, λ q. solid)
    ]

-- What is cut off are spaces and tabs alone, and the rest neither starts nor ends with one.
pub trim_ows_split :
    (bytes : List ℕ)
    → (before after : List ℕ) × IsOws before
      × IsOws after
      × (bytes ≡ before ++ (trim_ows bytes ++ after))
      × StartsSolid (trim_ows bytes)
      × EndsSolid (trim_ows bytes)
unfolding trim_ows
trim_ows_split bytes =
    let (before, hb, eb, sb) = trim_start_split bytes in
    let (after, ha, ea, sa, keep) = trim_end_split (trim_start bytes) in
    (before, after, hb, ha, eb ∙ ap (λ t. before ++ t) ea, keep sb, sa)

-- Bytes none of which is white stay.
pub trim_ows_solid : (bs : List ℕ) → All (λ b. is_ows b ≡ false) bs → trim_ows bs ≡ bs
unfolding trim_ows
trim_ows_solid bs h = ap trim_end (starts bs h) ∙ ends bs h
  where
    starts : (bs : List ℕ) → All (λ b. is_ows b ≡ false) bs → trim_start bs ≡ bs
    starts [] h = refl
    starts (b ∷ bs) h = rw h.0

    ends : (bs : List ℕ) → All (λ b. is_ows b ≡ false) bs → trim_end bs ≡ bs
    ends [] h = refl
    ends (b ∷ bs) h = rw h.0 (ap (λ t. b ∷ t) (ends bs h.1))
