-- ===== src/Common/Decimal.antt =====
-- Decimal texts of Rust's integers: `to_string` and `parse`, over bytes.
use x07_wasm_backend.Common.Tests.{ltb, leb, ◌==◌, if◌then◌else◌, Bool-cases}
use x07_wasm_backend.Common.Text.{is_digit}
use Prim.Native.Nat.{ℕ, zero, suc, ◌+◌, ◌-◌, ◌*◌, ◌/◌, ◌%◌, ◌≤◌, ◌<◌}
use mathlib.Core.Path.{◌≡◌, refl, ◌∙◌, ap}
use mathlib.Core.Logic.{inl, inr}
use mathlib.Core.Bool.{true, ◌&&◌}
use mathlib.Core.Option.{Option, none, some}
use mathlib.Core.List.{List, [], ◌∷◌, ◌++◌}
use native.Mathlib.Omega.{arith}

-- The digits of `n`, most significant first; more fuel than `n` is enough.
unfoldable pub digits_of : ℕ → ℕ → List ℕ
digits_of zero n = []
digits_of (suc fuel) n =
    let longer = digits_of fuel (n / 10) ++ (b'0' + n % 10) ∷ [] in
    if ltb n 10 then (b'0' + n) ∷ [] else longer

-- `n.to_string()`
unfoldable pub to_decimal : ℕ → List ℕ
unfolding digits_of
to_decimal n = digits_of (suc n) n

-- The value of digits behind `acc`, where no prefix passes `limit`.
unfoldable pub value_of : ℕ → ℕ → List ℕ → Option ℕ
value_of limit acc [] = some acc
value_of limit acc (c ∷ cs) =
    let rest = value_of limit (acc * 10 + (c - b'0')) cs in
    if is_digit c && leb (acc * 10 + (c - b'0')) limit then rest else none

abbrev strip_plus : List ℕ → List ℕ
strip_plus [] = []
strip_plus (c ∷ cs) = if c == b'+' then cs else c ∷ cs

abbrev value_of_nonempty : ℕ → List ℕ → Option ℕ
value_of_nonempty limit [] = none
value_of_nonempty limit (c ∷ cs) = value_of limit 0 (c ∷ cs)

-- `s.parse()` into an unsigned integer of at most `limit`: a sign `+`, and at least one digit.
unfoldable pub parse_decimal : ℕ → List ℕ → Option ℕ
unfolding value_of
parse_decimal limit s = value_of_nonempty limit (strip_plus s)

value_of-concat :
    (limit acc v : ℕ) (xs : List ℕ) (c : ℕ)
    → value_of limit acc xs ≡ some v
    → is_digit c ≡ true
    → v * 10 + (c - b'0') ≤ limit
    → value_of limit acc (xs ++ c ∷ []) ≡ some (v * 10 + (c - b'0'))
unfolding value_of
value_of-concat limit acc v [] c h d l = ground arith
value_of-concat limit acc v (x ∷ xs) c h d l =
    ground (arith, value_of-concat limit (acc * 10 + (x - b'0')) v xs c)

value_of-digits_of :
    (fuel n limit : ℕ) → n < fuel → n ≤ limit → value_of limit 0 (digits_of fuel n) ≡ some n
unfolding digits_of
value_of-digits_of zero n limit h l = elim h [ ]
value_of-digits_of (suc fuel) n limit h l = elim (Bool-cases (ltb n 10)) [
  | inl small ↦ rw small (unfold value_of in ground arith)
  | inr large ↦
      let above = value_of-digits_of fuel (n / 10) limit (ground arith) (omega arith) in
      let last =
        value_of-concat limit 0 (n / 10) (digits_of fuel (n / 10)) (b'0' + n % 10) above
          (ground arith) (omega arith) in
      let whole : n / 10 * 10 + (b'0' + n % 10 - b'0') ≡ n = omega arith in
      rw large (last ∙ ap some whole)
]

-- The first character is a digit, so no sign is stripped.
data StartsWithDigit : List ℕ → Type 0 where
  digit_first : (c : ℕ) (cs : List ℕ) → is_digit c ≡ true → StartsWithDigit (c ∷ cs)

StartsWithDigit-append : (xs ys : List ℕ) → StartsWithDigit xs → StartsWithDigit (xs ++ ys)
StartsWithDigit-append [] ys d = elim d [ ]
StartsWithDigit-append (c ∷ cs) ys (digit_first _ _ d) = digit_first c (cs ++ ys) d

StartsWithDigit-digits_of : (fuel n : ℕ) → n < fuel → StartsWithDigit (digits_of fuel n)
unfolding digits_of
StartsWithDigit-digits_of zero n h = elim h [ ]
StartsWithDigit-digits_of (suc fuel) n h = elim (Bool-cases (ltb n 10)) [
  | inl small ↦ rw small (digit_first (b'0' + n) [] (ground arith))
  | inr large ↦ rw large (
      StartsWithDigit-append (digits_of fuel (n / 10)) _
        (StartsWithDigit-digits_of fuel (n / 10) (ground arith)))
]

parse_of_StartsWithDigit :
    (limit : ℕ) (s : List ℕ) → StartsWithDigit s → parse_decimal limit s ≡ value_of limit 0 s
unfolding parse_decimal
parse_of_StartsWithDigit limit [] d = elim d [ ]
parse_of_StartsWithDigit limit (c ∷ cs) (digit_first _ _ d) = ground arith

-- Parsing what was printed gives the number back, where the type holds it.
pub parse_decimal-to_decimal :
    (limit n : ℕ) → n ≤ limit → parse_decimal limit (to_decimal n) ≡ some n
unfolding to_decimal
parse_decimal-to_decimal limit n h =
    parse_of_StartsWithDigit limit (digits_of (suc n) n)
      (StartsWithDigit-digits_of (suc n) n (omega arith))
    ∙ value_of-digits_of (suc n) n limit (omega arith) h

-- The digits of a number are read back from the first to the last.
pub value_of-to_decimal : (limit n : ℕ) → n ≤ limit → value_of limit 0 (to_decimal n) ≡ some n
unfolding to_decimal
value_of-to_decimal limit n h = value_of-digits_of (suc n) n limit (omega arith) h

-- A number is written with a first digit.
pub first_digit : (n : ℕ) → (c : ℕ) × (cs : List ℕ) × (to_decimal n ≡ c ∷ cs) × (is_digit c ≡ true)
unfolding to_decimal
first_digit n = first_of (digits_of (suc n) n) (StartsWithDigit-digits_of (suc n) n (omega arith))
  where
    first_of :
        (xs : List ℕ)
        → StartsWithDigit xs
        → (c : ℕ) × (cs : List ℕ) × (xs ≡ c ∷ cs) × (is_digit c ≡ true)
    first_of [] d = elim d [ ]
    first_of (c ∷ cs) (digit_first _ _ d) = (c, cs, refl, d)

print_test :
    to_decimal 340282366920938463463374607431768211455
    ≡ b'3' ∷ b'4' ∷ b'0' ∷ b'2' ∷ b'8' ∷ b'2' ∷ b'3' ∷ b'6' ∷ b'6' ∷ b'9' ∷ b'2' ∷ b'0' ∷ b'9'
      ∷ b'3' ∷ b'8' ∷ b'4' ∷ b'6' ∷ b'3' ∷ b'4' ∷ b'6' ∷ b'3' ∷ b'3' ∷ b'7' ∷ b'4' ∷ b'6' ∷ b'0'
      ∷ b'7' ∷ b'4' ∷ b'3' ∷ b'1' ∷ b'7' ∷ b'6' ∷ b'8' ∷ b'2' ∷ b'1' ∷ b'1' ∷ b'4' ∷ b'5' ∷ b'5'
      ∷ []
unfolding to_decimal
print_test = refl
