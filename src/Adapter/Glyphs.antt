-- ===== src/Adapter/Glyphs.antt =====
-- Texts of JSON with any escapes, glyph by glyph, and `parse_string` on them.
use x07_wasm_backend.Common.{
  ℕ, zero, suc, ◌+◌, ◌*◌, ◌-◌, ◌^◌, ◌≤◌, ◌<◌, ◌≡◌, refl, ap, ◌⊎◌, Bool, true, false, some, List, [],
  ◌∷◌, ◌++◌, arith, ltb, ◌==◌, length, All, if◌then◌else◌,
}
use x07_wasm_backend.Adapter.Cursor.{
  expect_byte, hex_value, hex_digits, parse_hex4, from_u32, in_range, u_escape_from, parse_u_escape,
  encode_utf8, bytes, next_escape, next_piece, string_body, parse_string,
}

-- A hexadecimal digit of the value, with a capital or a small letter.
pub record Hex : Type 0 where
  pub capital : Bool
  pub value : ℕ

abbrev pub hex_char : Hex → ℕ
hex_char h =
    if ltb h.value 10
    then b'0' + h.value
    else if h.capital
    then b'A' + (h.value - 10)
    else b'a' + (h.value - 10)

-- The four digits of a code unit.
pub record CodeUnit : Type 0 where
  pub first : Hex
  pub second : Hex
  pub third : Hex
  pub fourth : Hex

abbrev pub unit_onto : CodeUnit → List ℕ → List ℕ
unit_onto u t = hex_char u.first ∷ hex_char u.second ∷ hex_char u.third ∷ hex_char u.fourth ∷ t

abbrev pub unit_value : CodeUnit → ℕ
unit_value u = ((u.first.value * 16 + u.second.value) * 16 + u.third.value) * 16 + u.fourth.value

-- The escapes of one letter.
pub data Letter : Type 0 where
  quote backslash slash backspace form_feed line_feed carriage_return tabulator : Letter

abbrev pub letter_byte : Letter → ℕ
letter_byte quote = 34
letter_byte backslash = 92
letter_byte slash = b'/'
letter_byte backspace = b'b'
letter_byte form_feed = b'f'
letter_byte line_feed = b'n'
letter_byte carriage_return = b'r'
letter_byte tabulator = b't'

abbrev pub letter_value : Letter → ℕ
letter_value quote = 34
letter_value backslash = 92
letter_value slash = b'/'
letter_value backspace = 8
letter_value form_feed = 12
letter_value line_feed = 10
letter_value carriage_return = 13
letter_value tabulator = 9

-- A byte as it is, or an escape: of one letter, of a code unit, or of a pair of surrogates.
pub data Glyph : Type 0 where
  plain : ℕ → Glyph
  short : Letter → Glyph
  unicode : CodeUnit → Glyph
  pair : CodeUnit → CodeUnit → Glyph

abbrev pub glyph_onto : Glyph → List ℕ → List ℕ
glyph_onto (plain b) t = b ∷ t
glyph_onto (short l) t = 92 ∷ letter_byte l ∷ t
glyph_onto (unicode u) t = 92 ∷ b'u' ∷ unit_onto u t
glyph_onto (pair u v) t = 92 ∷ b'u' ∷ unit_onto u (92 ∷ b'u' ∷ unit_onto v t)

-- What a glyph stands for.
abbrev pub glyph_bytes : Glyph → List ℕ
glyph_bytes (plain b) = b ∷ []
glyph_bytes (short l) = letter_value l ∷ []
glyph_bytes (unicode u) = encode_utf8 (unit_value u)
glyph_bytes (pair u v) =
    encode_utf8 (0x10000 + (unit_value u - 0xd800) * 2 ^ 10 + (unit_value v - 0xdc00))

pub record IsUnit (u : CodeUnit) : Type 0 where
  pub first_small : u.first.value < 16
  pub second_small : u.second.value < 16
  pub third_small : u.third.value < 16
  pub fourth_small : u.fourth.value < 16

abbrev pub IsGlyph : Glyph → Type 0
IsGlyph (plain b) = (0x20 ≤ b) × ((b == 34) ≡ false) × ((b == 92) ≡ false)
IsGlyph (short l) = Unit
IsGlyph (unicode u) = IsUnit u × ((unit_value u < 0xd800) ⊎ (0xdfff < unit_value u))
IsGlyph (pair u v) =
    IsUnit u
    × IsUnit v
    × (0xd800 ≤ unit_value u)
    × (unit_value u ≤ 0xdbff)
    × (0xdc00 ≤ unit_value v)
    × (unit_value v ≤ 0xdfff)

abbrev pub glyphs_onto : List Glyph → List ℕ → List ℕ
glyphs_onto [] t = 34 ∷ t
glyphs_onto (g ∷ gs) t = glyph_onto g (glyphs_onto gs t)

abbrev pub glyphs_bytes : List Glyph → List ℕ
glyphs_bytes [] = []
glyphs_bytes (g ∷ gs) = glyph_bytes g ++ glyphs_bytes gs

hex_value-hex_char : (h : Hex) → h.value < 16 → hex_value (hex_char h) ≡ some h.value
hex_value-hex_char h small = ground arith

parse_hex4-unit_onto :
    (u : CodeUnit) (t : List ℕ) → IsUnit u → parse_hex4 (unit_onto u t) ≡ some (unit_value u, t)
unfolding parse_hex4 hex_digits
parse_hex4-unit_onto u t k = rw (hex_value-hex_char u.first k.first_small) (
    rw (hex_value-hex_char u.second k.second_small) (
      rw (hex_value-hex_char u.third k.third_small) (
        rw (hex_value-hex_char u.fourth k.fourth_small) (
          ap (λ n. some (n, t))
            (omega (arith, k.first_small, k.second_small, k.third_small, k.fourth_small))))))

unit_value-bound : (u : CodeUnit) → IsUnit u → unit_value u < 0x10000
unit_value-bound u k = omega (arith, k.first_small, k.second_small, k.third_small, k.fourth_small)

next_piece-glyph_onto :
    (g : Glyph) (t : List ℕ)
    → IsGlyph g
    → next_piece (glyph_onto g t) ≡ some (bytes (glyph_bytes g), t)
unfolding next_piece next_escape parse_u_escape u_escape_from expect_byte
next_piece-glyph_onto (plain b) t (low, no_quote, no_slash) = ground arith
next_piece-glyph_onto (short quote) t h = refl
next_piece-glyph_onto (short backslash) t h = refl
next_piece-glyph_onto (short slash) t h = refl
next_piece-glyph_onto (short backspace) t h = refl
next_piece-glyph_onto (short form_feed) t h = refl
next_piece-glyph_onto (short line_feed) t h = refl
next_piece-glyph_onto (short carriage_return) t h = refl
next_piece-glyph_onto (short tabulator) t h = refl
next_piece-glyph_onto (unicode u) t (k, apart) =
    let n = unit_value u in
    let bound = unit_value-bound u k in
    let low : in_range 0xd800 0xdbff (unit_value u) ≡ false = scalar_low (unit_value u) apart in
    let scalar = from_u32-apart (unit_value u) apart bound in
    rw (parse_hex4-unit_onto u t k) (rw low (rw scalar refl))
  where
    scalar_low : (n : ℕ) → (n < 0xd800) ⊎ (0xdfff < n) → in_range 0xd800 0xdbff n ≡ false
    scalar_low n apart = ground arith

    from_u32-apart : (n : ℕ) → (n < 0xd800) ⊎ (0xdfff < n) → n < 0x10000 → from_u32 n ≡ some n
    from_u32-apart n apart bound = ground arith
next_piece-glyph_onto (pair u v) t (k, k', lo, hi, lo', hi') =
    rw (parse_hex4-unit_onto u (92 ∷ b'u' ∷ unit_onto v t) k) (
      rw (within 0xd800 0xdbff (unit_value u) lo hi) (
        rw (parse_hex4-unit_onto v t k') (
          rw (within 0xdc00 0xdfff (unit_value v) lo' hi')
            (rw (from_u32-pair (unit_value u) (unit_value v) lo hi lo' hi') refl))))
  where
    within : (a b n : ℕ) → a ≤ n → n ≤ b → in_range a b n ≡ true
    within a b n h g = ground arith

    from_u32-pair :
        (a b : ℕ)
        → 0xd800 ≤ a
        → a ≤ 0xdbff
        → 0xdc00 ≤ b
        → b ≤ 0xdfff
        → from_u32 (0x10000 + (a - 0xd800) * 2 ^ 10 + (b - 0xdc00))
          ≡ some (0x10000 + (a - 0xd800) * 2 ^ 10 + (b - 0xdc00))
    from_u32-pair a b h g h' g' = ground arith

string_body-glyphs_onto :
    (fuel : ℕ) (gs : List Glyph) (rest : List ℕ)
    → length gs < fuel
    → All IsGlyph gs
    → string_body fuel (glyphs_onto gs rest) ≡ some (glyphs_bytes gs, rest)
unfolding string_body
string_body-glyphs_onto zero gs rest h k = absurd (omega arith)
string_body-glyphs_onto (suc fuel) [] rest h k = unfold next_piece in refl
string_body-glyphs_onto (suc fuel) (g ∷ gs) rest h (k, ks) =
    rw (next_piece-glyph_onto g (glyphs_onto gs rest) k)
      (rw (string_body-glyphs_onto fuel gs rest (omega arith) ks) refl)

pub length-glyph_onto : (g : Glyph) (t : List ℕ) → length t < length (glyph_onto g t)
length-glyph_onto (plain b) t = omega arith
length-glyph_onto (short l) t = omega arith
length-glyph_onto (unicode u) t = omega arith
length-glyph_onto (pair u v) t = omega arith

pub length-glyphs_onto :
    (gs : List Glyph) (t : List ℕ) → length gs + length t < length (glyphs_onto gs t)
length-glyphs_onto [] t = omega arith
length-glyphs_onto (g ∷ gs) t =
    omega (arith, length-glyph_onto g (glyphs_onto gs t), length-glyphs_onto gs t)

-- A text is read as what its glyphs stand for, whatever follows it.
pub parse_string-glyphs_onto :
    (is_utf8 : List ℕ → Bool) (gs : List Glyph) (rest : List ℕ)
    → All IsGlyph gs
    → is_utf8 (glyphs_bytes gs) ≡ true
    → parse_string is_utf8 (34 ∷ glyphs_onto gs rest) ≡ some (glyphs_bytes gs, rest)
unfolding parse_string expect_byte
parse_string-glyphs_onto is_utf8 gs rest k h =
    rw
      (string_body-glyphs_onto (suc (length (glyphs_onto gs rest))) gs rest
        (omega (arith, length-glyphs_onto gs rest)) k)
      (rw h refl)
