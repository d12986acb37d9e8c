-- ===== src/Adapter/Numerals.antt =====
-- `skip_number` on numerals.
use x07_wasm_backend.Common.{
  ℕ, ◌+◌, ◌-◌, ◌*◌, ◌≡◌, refl, Bool, true, false, some, List, [], ◌∷◌, ◌++◌, arith,
}
use x07_wasm_backend.Common.Decimal.{to_decimal, first_digit, value_of, value_of-to_decimal}
use x07_wasm_backend.Adapter.Cursor.{peeks, starts_digit}
use x07_wasm_backend.Adapter.Numbers.{starts_digit-to_decimal}
use x07_wasm_backend.Adapter.Envelope.{
  skip_digits, some_digits, skip_fraction, skip_exponent, skip_number,
}
use x07_wasm_backend.Adapter.Document.{
  Sign, unsigned, plus, minus, sign_onto, Exponent, no_exponent, small_e, large_e, exponent_onto,
  fraction_onto, minus_onto, AreDigits, IsExponent, Numeral, numeral_onto, IsNumeral, delimits,
}

-- Digits are skipped up to what is none.
skip_digits-append :
    (ds rest : List ℕ) → AreDigits ds → starts_digit rest ≡ false → skip_digits (ds ++ rest) ≡ rest
unfolding skip_digits
skip_digits-append [] [] h e = refl
skip_digits-append [] (b ∷ rest) h e = rw e refl
skip_digits-append (d ∷ ds) rest (digit, h) e = rw digit (skip_digits-append ds rest h e)

some_digits-append :
    (ds rest : List ℕ)
    → starts_digit ds ≡ true
    → AreDigits ds
    → starts_digit rest ≡ false
    → some_digits (ds ++ rest) ≡ some rest
unfolding some_digits
some_digits-append [] rest first h e = cc
some_digits-append (d ∷ ds) rest first h e = rw first (rw (skip_digits-append ds rest h.1 e) refl)

skip_digits-value_of :
    (limit acc v : ℕ) (xs rest : List ℕ)
    → value_of limit acc xs ≡ some v
    → starts_digit rest ≡ false
    → skip_digits (xs ++ rest) ≡ rest
unfolding skip_digits value_of
skip_digits-value_of limit acc v [] [] h d = refl
skip_digits-value_of limit acc v [] (b ∷ rest) h d = rw d refl
skip_digits-value_of limit acc v (x ∷ xs) rest h d =
    ground (arith, skip_digits-value_of limit (acc * 10 + (x - b'0')) v xs rest)

some_digits-to_decimal :
    (n : ℕ) (rest : List ℕ)
    → starts_digit rest ≡ false
    → some_digits (to_decimal n ++ rest) ≡ some rest
unfolding some_digits
some_digits-to_decimal n rest e = rw (starts_digit-to_decimal n rest) (
    rw (skip_digits-value_of n 0 n (to_decimal n) rest (value_of-to_decimal n n (omega arith)) e)
      refl)

-- Where a value may end, no part of a numeral starts.
no_part :
    (rest : List ℕ)
    → delimits rest ≡ true
    → (starts_digit rest ≡ false)
      × (peeks b'.' rest ≡ false)
      × (peeks b'e' rest ≡ false)
      × (peeks b'E' rest ≡ false)
no_part [] d = (refl, refl, refl, refl)
no_part (b ∷ rest) d = (ground arith, ground arith, ground arith, ground arith)

no_sign_before :
    (ds rest : List ℕ)
    → starts_digit ds ≡ true
    → (peeks b'+' (ds ++ rest) ≡ false) × (peeks b'-' (ds ++ rest) ≡ false)
no_sign_before [] rest h = cc
no_sign_before (d ∷ ds) rest h = (ground arith, ground arith)

skip_small_e :
    (s : Sign) (ds rest : List ℕ)
    → starts_digit ds ≡ true
    → AreDigits ds
    → starts_digit rest ≡ false
    → skip_exponent (b'e' ∷ sign_onto s (ds ++ rest)) ≡ some rest
unfolding skip_exponent
skip_small_e unsigned ds rest first h e =
    let (no_plus, no_minus) = no_sign_before ds rest first in
    rw no_plus (rw no_minus (some_digits-append ds rest first h e))
skip_small_e plus ds rest first h e = some_digits-append ds rest first h e
skip_small_e minus ds rest first h e = some_digits-append ds rest first h e

skip_large_e :
    (s : Sign) (ds rest : List ℕ)
    → starts_digit ds ≡ true
    → AreDigits ds
    → starts_digit rest ≡ false
    → skip_exponent (b'E' ∷ sign_onto s (ds ++ rest)) ≡ some rest
unfolding skip_exponent
skip_large_e unsigned ds rest first h e =
    let (no_plus, no_minus) = no_sign_before ds rest first in
    rw no_plus (rw no_minus (some_digits-append ds rest first h e))
skip_large_e plus ds rest first h e = some_digits-append ds rest first h e
skip_large_e minus ds rest first h e = some_digits-append ds rest first h e

skip_exponent-onto :
    (e : Exponent) (rest : List ℕ)
    → IsExponent e
    → delimits rest ≡ true
    → skip_exponent (exponent_onto e rest) ≡ some rest
skip_exponent-onto no_exponent rest h d =
    let (_, _, small, large) = no_part rest d in unfold skip_exponent in rw small (rw large refl)
skip_exponent-onto (small_e s ds) rest (first, h) d =
    skip_small_e s ds rest first h (no_part rest d).0
skip_exponent-onto (large_e s ds) rest (first, h) d =
    skip_large_e s ds rest first h (no_part rest d).0

exponent_start :
    (e : Exponent) (rest : List ℕ)
    → delimits rest ≡ true
    → (starts_digit (exponent_onto e rest) ≡ false) × (peeks b'.' (exponent_onto e rest) ≡ false)
exponent_start no_exponent rest d = let (digit, point, _, _) = no_part rest d in (digit, point)
exponent_start (small_e s ds) rest d = (refl, refl)
exponent_start (large_e s ds) rest d = (refl, refl)

skip_fraction-onto :
    (ds t : List ℕ)
    → AreDigits ds
    → starts_digit t ≡ false
    → peeks b'.' t ≡ false
    → skip_fraction (fraction_onto ds t) ≡ some t
unfolding skip_fraction
skip_fraction-onto [] t h digit point = rw point refl
skip_fraction-onto (d ∷ ds) t (first, h) digit point =
    some_digits-append (d ∷ ds) t first (first, h) digit

fraction_start :
    (ds t : List ℕ) → starts_digit t ≡ false → starts_digit (fraction_onto ds t) ≡ false
fraction_start [] t h = h
fraction_start (d ∷ ds) t h = refl

no_minus : (n : ℕ) (rest : List ℕ) → peeks b'-' (to_decimal n ++ rest) ≡ false
no_minus n rest = let (c, cs, form, digit) = first_digit n in rw form (ground (arith, digit))

skip_minus-onto :
    (negative : Bool) (whole : ℕ) (fraction : List ℕ) (e : Exponent) (rest : List ℕ)
    → AreDigits fraction
    → IsExponent e
    → delimits rest ≡ true
    → skip_number
        (minus_onto negative (to_decimal whole ++ fraction_onto fraction (exponent_onto e rest)))
      ≡ some rest
unfolding skip_number
skip_minus-onto true whole fraction e rest h g d =
    let (digit, point) = exponent_start e rest d in
    let t = exponent_onto e rest in
    rw (some_digits-to_decimal whole (fraction_onto fraction t) (fraction_start fraction t digit))
      (rw (skip_fraction-onto fraction t h digit point) (skip_exponent-onto e rest g d))
skip_minus-onto false whole fraction e rest h g d =
    let (digit, point) = exponent_start e rest d in
    let t = exponent_onto e rest in
    rw (no_minus whole (fraction_onto fraction t)) (
      rw (some_digits-to_decimal whole (fraction_onto fraction t) (fraction_start fraction t digit))
        (rw (skip_fraction-onto fraction t h digit point) (skip_exponent-onto e rest g d)))

-- A numeral is passed, and nothing behind it.
pub skip_number-numeral_onto :
    (n : Numeral) (rest : List ℕ)
    → IsNumeral n
    → delimits rest ≡ true
    → skip_number (numeral_onto n rest) ≡ some rest
skip_number-numeral_onto n rest (h, g) d =
    skip_minus-onto n.negative n.whole n.fraction n.exponent rest h g d

pub skip_number-to_decimal :
    (n : ℕ) (rest : List ℕ) → delimits rest ≡ true → skip_number (to_decimal n ++ rest) ≡ some rest
skip_number-to_decimal n rest d = skip_minus-onto false n [] Exponent.no_exponent rest tt tt d
