-- ===== src/Server/RequestId.antt =====
-- What a normalized request identifier is.
use mathlib.Core.List.{reverse, reverse-cons, reverse-reverse}
use x07_wasm_backend.Common.{
  ℕ, ◌≤◌, ◌≡◌, refl, sym, ap, ◌∙◌, inl, inr, Bool, true, false, ◌&&◌, ◌||◌, some, List, [], ◌∷◌,
  ◌++◌, map, all, ltb, length, trim, trim_start_ws, is_whitespace, to_lower, ◌==◌, Bool-cases,
  arith, some-injective,
}
use x07_wasm_backend.Server.{is_id_char, is_request_id, lowered_id, normalize_request_id}

-- Characters of identifiers are no white space, and have no upper case.
not_whitespace : (c : ℕ) → is_id_char c ≡ true → is_whitespace c ≡ false
not_whitespace c h = ground arith

to_lower_same : (c : ℕ) → is_id_char c ≡ true → to_lower c ≡ c
to_lower_same c h = ground arith

trim_start_same : (s : List ℕ) → all is_id_char s ≡ true → trim_start_ws s ≡ s
trim_start_same [] h = refl
trim_start_same (c ∷ cs) h =
    let solid : is_whitespace c ≡ false = not_whitespace c (ground arith) in rw solid refl

all-append : (p : ℕ → Bool) (xs ys : List ℕ) → all p (xs ++ ys) ≡ (all p xs && all p ys)
all-append p [] ys = refl
all-append p (x ∷ xs) ys =
    rw (all-append p xs ys) (elim (Bool-cases (p x)) [ inl e ↦ rw e refl | inr e ↦ rw e refl ])

all-reverse : (p : ℕ → Bool) (xs : List ℕ) → all p xs ≡ true → all p (reverse xs) ≡ true
all-reverse p [] h = refl
all-reverse p (x ∷ xs) h =
    let rest : all p (reverse xs) ≡ true = all-reverse p xs (ground arith) in
    let first : p x ≡ true = ground arith in
    rw (reverse-cons x xs) (rw (all-append p (reverse xs) (x ∷ [])) (rw (rest, first) refl))

trim_same : (s : List ℕ) → all is_id_char s ≡ true → trim s ≡ s
trim_same s h =
    rw (trim_start_same s h)
      (rw (trim_start_same (reverse s) (all-reverse is_id_char s h)) (reverse-reverse s))

map-to_lower_same : (s : List ℕ) → all is_id_char s ≡ true → map to_lower s ≡ s
map-to_lower_same [] h = refl
map-to_lower_same (c ∷ cs) h =
    rw (to_lower_same c (ground arith)) (rw (map-to_lower_same cs (ground arith)) refl)

length-map_lower : (s : List ℕ) → length (map to_lower s) ≡ length s
length-map_lower [] = refl
length-map_lower (c ∷ cs) = omega (arith, length-map_lower cs)

all_of_id : (s : List ℕ) → is_request_id s ≡ true → all is_id_char s ≡ true
all_of_id [] h = refl
all_of_id (c ∷ cs) h = ground arith

of_lowered : (s id : List ℕ) → lowered_id s ≡ some id → (s ≡ id) × (is_request_id s ≡ true)
of_lowered s id h = elim (Bool-cases (is_request_id s)) [
  | inl e ↦ (some-injective (rw e at h), e)
  | inr e ↦ cc (rw e at h)
]

abbrev has_bad_length : List ℕ → Bool
has_bad_length s = (length s == 0) || ltb 64 (length s)

normalized_same :
    (id : List ℕ)
    → is_request_id id ≡ true
    → has_bad_length id ≡ false
    → normalize_request_id id ≡ some id
unfolding normalize_request_id
normalized_same id h l =
    let chars = all_of_id id h in
    rw (trim_same id chars) (rw l (rw (map-to_lower_same id chars) (rw h refl)))

-- A normalized identifier has at most 64 characters, which are lower case letters, digits, dots, underscores
-- and dashes, with a letter or a digit in front; and it is its own normal form.
pub normalize_request_id_cases :
    (raw id : List ℕ)
    → normalize_request_id raw ≡ some id
    → (is_request_id id ≡ true) × (length id ≤ 64) × (normalize_request_id id ≡ some id)
unfolding normalize_request_id
normalize_request_id_cases raw id h = elim (Bool-cases (has_bad_length (trim raw))) [
  | inl e ↦ cc (rw e at h)
  | inr e ↦
      let (same, good) = of_lowered (map to_lower (trim raw)) id (rw e at h) in
      let lengths = length-map_lower (trim raw) in
      let valid : is_request_id id ≡ true = rw same at good in
      let l : length id ≡ length (trim raw) = ap length (sym same) ∙ lengths in
      (valid, ground arith, normalized_same id valid (rw l e))
]
