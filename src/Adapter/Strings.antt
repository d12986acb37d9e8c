-- ===== src/Adapter/Strings.antt =====
-- The reader and the writer of texts.
use mathlib.Core.List.{append_assoc}
use x07_wasm_backend.Common.{
  ℕ, zero, suc, ◌/◌, ◌%◌, ◌≤◌, ◌<◌, ◌≡◌, refl, ap, inl, inr, Bool, true, false, some, List, [], ◌∷◌,
  ◌++◌, arith, ltb, ◌==◌, length, length-append, Bool-cases,
}
use x07_wasm_backend.Adapter.Write.{hex_digit, escape_byte, escape, json_string}
use x07_wasm_backend.Adapter.Cursor.{
  expect_byte, hex_value, hex_digits, parse_hex4, from_u32, in_range, u_escape_from, parse_u_escape,
  encode_utf8, bytes, next_escape, next_piece, string_body, parse_string,
}

hex_value-hex_digit : (n : ℕ) → n < 16 → hex_value (hex_digit n) ≡ some n
hex_value-hex_digit n h = ground arith

-- The escape of a control character.
parse_hex4-control :
    (b : ℕ) (t : List ℕ)
    → b < 0x20
    → parse_hex4 (b'0' ∷ b'0' ∷ hex_digit (b / 16) ∷ hex_digit (b % 16) ∷ t) ≡ some (b, t)
unfolding parse_hex4 hex_digits
parse_hex4-control b t h =
    rw (hex_value-hex_digit (b / 16) (omega arith))
      (rw (hex_value-hex_digit (b % 16) (omega arith)) (ap (λ n. some (n, t)) (omega arith)))

parse_u_escape-control :
    (b : ℕ) (t : List ℕ)
    → b < 0x20
    → parse_u_escape (b'0' ∷ b'0' ∷ hex_digit (b / 16) ∷ hex_digit (b % 16) ∷ t) ≡ some (b, t)
unfolding parse_u_escape u_escape_from
parse_u_escape-control b t h =
    let low : in_range 0xd800 0xdbff b ≡ false = ground arith in
    let scalar : from_u32 b ≡ some b = ground arith in
    rw (parse_hex4-control b t h) (rw low (rw scalar refl))

next_piece-escape_byte :
    (b : ℕ) (t : List ℕ) → next_piece (escape_byte b ++ t) ≡ some (bytes (b ∷ []), t)
unfolding next_piece next_escape
next_piece-escape_byte b t = elim (Bool-cases (b == 34)) [
  | inl e ↦ let same : b ≡ 34 = ground arith in rw same refl
  | inr e ↦ elim (Bool-cases (b == 92)) [
    | inl f ↦ let same : b ≡ 92 = ground arith in rw same refl
    | inr f ↦ elim (Bool-cases (ltb b 0x20)) [
      | inl g ↦
          rw (e, f, g)
            (rw (parse_u_escape-control b t (ground arith)) (rw (one_byte b (ground arith)) refl))
      | inr g ↦ rw (e, f, g) (rw (e, f, g) refl)
    ]
  ]
]
  where
    one_byte : (c : ℕ) → c < 0x20 → encode_utf8 c ≡ c ∷ []
    one_byte c h = unfold encode_utf8 in ground arith

string_body-escape :
    (fuel : ℕ) (s rest : List ℕ)
    → length s < fuel
    → string_body fuel (escape s ++ 34 ∷ rest) ≡ some (s, rest)
unfolding string_body
string_body-escape zero s rest h = absurd (omega arith)
string_body-escape (suc fuel) [] rest h = unfold next_piece in refl
string_body-escape (suc fuel) (b ∷ s) rest h =
    rw (append_assoc (escape_byte b) (escape s) (34 ∷ rest)) (
      rw (next_piece-escape_byte b (escape s ++ 34 ∷ rest))
        (rw (string_body-escape fuel s rest (omega arith)) refl))

length-escape : (s : List ℕ) → length s ≤ length (escape s)
length-escape [] = omega arith
length-escape (b ∷ s) =
    omega (arith, length-escape s, length-append (escape_byte b) (escape s), some_bytes b)
  where
    some_bytes : (b : ℕ) → 1 ≤ length (escape_byte b)
    some_bytes b = ground arith

string_body-json :
    (s rest : List ℕ)
    → string_body (suc (length (escape s ++ 34 ∷ rest))) (escape s ++ 34 ∷ rest) ≡ some (s, rest)
string_body-json s rest =
    string_body-escape _ s rest
      (omega (arith, length-escape s, length-append (escape s) (34 ∷ rest)))

pub quoted-json_string : (s rest : List ℕ) → json_string s ++ rest ≡ 34 ∷ (escape s ++ 34 ∷ rest)
unfolding json_string
quoted-json_string s rest = ap (λ t. 34 ∷ t) (append_assoc (escape s) (34 ∷ []) rest)

-- A text of UTF-8 is read back from what was written, whatever follows it.
pub parse_string-json_string :
    (is_utf8 : List ℕ → Bool) (s rest : List ℕ)
    → is_utf8 s ≡ true
    → parse_string is_utf8 (json_string s ++ rest) ≡ some (s, rest)
unfolding parse_string expect_byte
parse_string-json_string is_utf8 s rest h =
    rw (quoted-json_string s rest) (rw (string_body-json s rest) (rw h refl))
