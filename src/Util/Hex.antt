-- ===== src/Util/Hex.antt =====
-- Reading hexadecimal texts.
use x07_wasm_backend.Common.{
  ℕ, ◌+◌, ◌*◌, ◌-◌, ◌/◌, ◌%◌, ◌<◌, ◌≡◌, refl, ◌&&◌, Option, none, some, List, [], ◌∷◌, All, arith,
  leb, is_digit, if◌then◌else◌,
}
use x07_wasm_backend.Common.Chain.{◌>>=◌}
use x07_wasm_backend.Util.{nibble_to_hex, hex_lower}

-- The value of a lower case digit.
abbrev pub lower_hex_value : ℕ → Option ℕ
lower_hex_value c =
    if is_digit c
    then some (c - b'0')
    else if leb b'a' c && leb c b'f'
    then some (10 + (c - b'a'))
    else none

-- The bytes that pairs of digits stand for.
abbrev pub unhex : List ℕ → Option (List ℕ)
unhex [] = some []
unhex (h ∷ []) = none
unhex (h ∷ l ∷ cs) = lower_hex_value h >>= λ a.
    lower_hex_value l >>= λ b. unhex cs >>= λ bs. some ((a * 16 + b) ∷ bs)

lower_hex_value-nibble_to_hex : (n : ℕ) → n < 16 → lower_hex_value (nibble_to_hex n) ≡ some n
unfolding nibble_to_hex
lower_hex_value-nibble_to_hex n h = ground arith

-- A digest in hexadecimal determines its bytes: it is read back.
pub unhex-hex_lower :
    (bytes : List ℕ) → All (λ b. b < 256) bytes → unhex (hex_lower bytes) ≡ some bytes
unfolding hex_lower
unhex-hex_lower [] small = refl
unhex-hex_lower (b ∷ bs) (h, small) =
    let same : b / 16 % 16 * 16 + b % 16 ≡ b = omega arith in
    rw (lower_hex_value-nibble_to_hex (b / 16 % 16) (omega arith)) (
      rw (lower_hex_value-nibble_to_hex (b % 16) (omega arith))
        (rw (unhex-hex_lower bs small) (rw same refl)))
