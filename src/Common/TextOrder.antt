-- ===== src/Common/TextOrder.antt =====
-- The order of texts, byte by byte, as `cmp` of the standard library has it.
use x07_wasm_backend.Common.{
  ℕ, ◌≡◌, refl, inl, inr, ◌⊎◌, Bool, true, false, List, [], ◌∷◌, ◌&&◌, ◌||◌, arith, ltb, ◌==◌,
  Bool-cases,
}

-- `a <= b` on texts, byte by byte.
abbrev pub leb_text : List ℕ → List ℕ → Bool
leb_text [] ys = true
leb_text (x ∷ xs) [] = false
leb_text (x ∷ xs) (y ∷ ys) = ltb x y || ((x == y) && leb_text xs ys)

pub leb_text_total : (a b : List ℕ) → (leb_text a b ≡ true) ⊎ (leb_text b a ≡ true)
leb_text_total [] ys = inl refl
leb_text_total (x ∷ xs) [] = inr refl
leb_text_total (x ∷ xs) (y ∷ ys) = elim (leb_text_total xs ys) [
  | inl h ↦ grind arith
  | inr h ↦ grind arith
]

pub leb_text_antisym : (a b : List ℕ) → leb_text a b ≡ true → leb_text b a ≡ true → a ≡ b
leb_text_antisym [] [] h g = refl
leb_text_antisym [] (y ∷ ys) h g = absurd (grind arith)
leb_text_antisym (x ∷ xs) [] h g = absurd (grind arith)
leb_text_antisym (x ∷ xs) (y ∷ ys) h g =
    let same : x ≡ y = ground arith in
    let tails : xs ≡ ys = leb_text_antisym xs ys (ground arith) (ground arith) in
    rw (same, tails) refl

pub leb_text_trans :
    (a b c : List ℕ) → leb_text a b ≡ true → leb_text b c ≡ true → leb_text a c ≡ true
leb_text_trans [] b c h g = refl
leb_text_trans (x ∷ xs) [] c h g = absurd (grind arith)
leb_text_trans (x ∷ xs) (y ∷ ys) [] h g = absurd (grind arith)
leb_text_trans (x ∷ xs) (y ∷ ys) (z ∷ zs) h g =
    elim (Bool-cases (leb_text xs ys && leb_text ys zs)) [
      | inl e ↦
          let t : leb_text xs zs ≡ true = leb_text_trans xs ys zs (ground arith) (ground arith) in
          ground arith
      | inr e ↦ ground arith
    ]
