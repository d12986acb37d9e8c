-- ===== src/Adapter/Numbers.antt =====
-- The reader and the writers of numbers.
use mathlib.Core.List.{append_assoc, append-nil}
use native.Mathlib.Nat.{pow-suc}
use x07_wasm_backend.Common.{
  ℕ, zero, suc, ◌+◌, ◌-◌, ◌*◌, ◌/◌, ◌%◌, ◌^◌, ◌≤◌, ◌<◌, ◌≡◌, refl, sym, ◌∙◌, inl, inr, true, false,
  some, List, [], ◌∷◌, ◌++◌, arith, ltb, ◌==◌, Bool-cases, some-injective,
}
use x07_wasm_backend.Common.Decimal.{
  to_decimal, value_of, value_of-to_decimal, first_digit, digits_of,
}
use x07_wasm_backend.Adapter.Write.{dec_loop, u64_dec}
use x07_wasm_backend.Adapter.Cursor.{digits_from, starts_digit, parse_u32, parse_u16, u32_max}

-- What is left does not go on with a digit.
abbrev pub EndsNumber : List ℕ → Type 0
EndsNumber rest = starts_digit rest ≡ false

digits_from-end : (n : ℕ) (rest : List ℕ) → EndsNumber rest → digits_from n rest ≡ some (n, rest)
unfolding digits_from
digits_from-end n [] h = refl
digits_from-end n (b ∷ rest) h = ground arith

digits_from-value_of :
    (acc v : ℕ) (xs rest : List ℕ)
    → EndsNumber rest
    → value_of u32_max acc xs ≡ some v
    → digits_from acc (xs ++ rest) ≡ some (v, rest)
unfolding digits_from value_of
digits_from-value_of acc v [] rest e h = rw (sym (some-injective h)) (digits_from-end acc rest e)
digits_from-value_of acc v (x ∷ xs) rest e h =
    ground (arith, digits_from-value_of (acc * 10 + (x - b'0')) v xs rest e)

pub starts_digit-to_decimal : (n : ℕ) (rest : List ℕ) → starts_digit (to_decimal n ++ rest) ≡ true
starts_digit-to_decimal n rest = let (c, cs, form, digit) = first_digit n in rw form digit

-- A number of 32 bits is read back from its decimal text, where no digit follows.
pub parse_u32-to_decimal :
    (n : ℕ) (rest : List ℕ)
    → n ≤ u32_max
    → EndsNumber rest
    → parse_u32 (to_decimal n ++ rest) ≡ some (n, rest)
unfolding parse_u32
parse_u32-to_decimal n rest h e =
    rw (starts_digit-to_decimal n rest)
      (digits_from-value_of 0 n (to_decimal n) rest e (value_of-to_decimal u32_max n h))

pub parse_u16-to_decimal :
    (n : ℕ) (rest : List ℕ)
    → n < 2 ^ 16
    → EndsNumber rest
    → parse_u16 (to_decimal n ++ rest) ≡ some (n, rest)
unfolding parse_u16
parse_u16-to_decimal n rest h e = rw (parse_u32-to_decimal n rest (omega arith) e) (ground arith)

dec_loop-zero : (left : ℕ) (written : List ℕ) → dec_loop left 0 written ≡ written
unfolding dec_loop
dec_loop-zero zero written = refl
dec_loop-zero (suc left) written = refl

dec_loop-step :
    (left n : ℕ) (written : List ℕ)
    → 0 < n
    → dec_loop (suc left) n written ≡ dec_loop left (n / 10) ((b'0' + n % 10) ∷ written)
unfolding dec_loop
dec_loop-step left n written h = ground arith

div_below : (left n : ℕ) → n < 10 ^ suc left → n / 10 < 10 ^ left
div_below left n h = omega (arith, pow-suc 10 left)

-- The loop that fills the buffer from the end writes the digits in front of what is written.
dec_loop-digits_of :
    (fuel left n : ℕ) (written : List ℕ)
    → 0 < n
    → n < fuel
    → n < 10 ^ left
    → dec_loop left n written ≡ digits_of fuel n ++ written
unfolding digits_of
dec_loop-digits_of zero left n written p h l = absurd (omega arith)
dec_loop-digits_of (suc fuel) zero n written p h l = absurd (omega arith)
dec_loop-digits_of (suc fuel) (suc left) n written p h l = elim (Bool-cases (ltb n 10)) [
  | inl small ↦
      let none_left : n / 10 ≡ 0 = ground arith in
      let digit : n % 10 ≡ n = ground arith in
      rw small (
        dec_loop-step left n written p
        ∙ rw (none_left, digit) (dec_loop-zero left ((b'0' + n) ∷ written)))
  | inr large ↦ rw large (
      dec_loop-step left n written p
      ∙ dec_loop-digits_of fuel left (n / 10) ((b'0' + n % 10) ∷ written) (ground arith)
          (ground arith) (div_below left n l)
      ∙ sym (append_assoc (digits_of fuel (n / 10)) ((b'0' + n % 10) ∷ []) written))
]

-- A number of 64 bits is written with the digits of its decimal text: the buffer of 20 bytes is enough.
pub u64_dec-to_decimal : (n : ℕ) → n < 2 ^ 64 → u64_dec n ≡ to_decimal n
unfolding u64_dec to_decimal
u64_dec-to_decimal zero h = unfold digits_of in refl
u64_dec-to_decimal (suc n) h =
    let whole : (suc n == 0) ≡ false = ground arith in
    rw whole (
      dec_loop-digits_of (suc (suc n)) 20 (suc n) [] (omega arith) (omega arith) (omega arith)
      ∙ append-nil (digits_of (suc (suc n)) (suc n)))
