-- ===== src/Adapter/HeaderOrder.antt =====
-- The order in which the adapters put the headers of a request.
use x07_wasm_backend.Common.{
  ℕ, ◌≡◌, refl, inl, inr, ◌⊎◌, Bool, true, List, not, ◌&&◌, ◌||◌, arith, Bool-cases,
}
use x07_wasm_backend.Common.TextOrder.{leb_text, leb_text_total, leb_text_antisym, leb_text_trans}
use x07_wasm_backend.Common.Sort.{IsOrder}

-- `a.0.cmp(&b.0).then(a.1.cmp(&b.1))` is not greater: the second texts decide between equal first ones.
abbrev pub leb_header : List ℕ × List ℕ → List ℕ × List ℕ → Bool
leb_header (k, v) (k', v') = leb_text k k' && (not (leb_text k' k) || leb_text v v')

leb_header_total : (a b : List ℕ × List ℕ) → (leb_header a b ≡ true) ⊎ (leb_header b a ≡ true)
leb_header_total (k, v) (k', v') = elim (leb_text_total k k') [
  | inl h ↦ elim (leb_text_total v v') [ inl g ↦ ground arith | inr g ↦ ground arith ]
  | inr h ↦ elim (leb_text_total v v') [ inl g ↦ ground arith | inr g ↦ ground arith ]
]

leb_header_antisym : (a b : List ℕ × List ℕ) → leb_header a b ≡ true → leb_header b a ≡ true → a ≡ b
leb_header_antisym (k, v) (k', v') h g =
    rw
      (
        leb_text_antisym k k' (ground arith) (ground arith),
        leb_text_antisym v v' (ground arith) (ground arith),
      )
      refl

leb_header_trans :
    (a b c : List ℕ × List ℕ)
    → leb_header a b ≡ true
    → leb_header b c ≡ true
    → leb_header a c ≡ true
leb_header_trans (k, v) (k', v') (k'', v'') h g =
    let up : leb_text k k'' ≡ true = leb_text_trans k k' k'' (ground arith) (ground arith) in
    elim (Bool-cases (leb_text k'' k)) [
      | inl e ↦
          let d₁ : leb_text k' k ≡ true = leb_text_trans k' k'' k (ground arith) e in
          let d₂ : leb_text k'' k' ≡ true = leb_text_trans k'' k k' e (ground arith) in
          let t : leb_text v v'' ≡ true = leb_text_trans v v' v'' (ground arith) (ground arith) in
          ground arith
      | inr e ↦ ground arith
    ]

pub leb_header-IsOrder : IsOrder leb_header
leb_header-IsOrder = record {
  total = leb_header_total;
  antisym = leb_header_antisym;
  trans = leb_header_trans;
}
