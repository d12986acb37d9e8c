-- ===== src/Util.antt =====
-- crates/x07-wasm/src/util.rs: hexadecimal digests. Files, hashes and the canonical
-- order of JSON, which the sorted Map of serde_json gives, are not modelled.
use x07_wasm_backend.Common.{
  ℕ, String, ◌+◌, ◌-◌, ◌/◌, ◌%◌, Bool, true, false, List, [], ◌∷◌, ◌++◌, codes, ltb, if◌then◌else◌,
}
pub mod Hex
mod Tests

unfoldable pub nibble_to_hex : ℕ → ℕ
nibble_to_hex n = if ltb n 10 then b'0' + n else if ltb n 16 then b'a' + (n - 10) else b'?'

-- `hex_lower`, as the bytes of the text.
unfoldable pub hex_lower : List ℕ → List ℕ
unfolding nibble_to_hex
hex_lower [] = []
hex_lower (b ∷ bs) = nibble_to_hex (b / 16 % 16) ∷ nibble_to_hex (b % 16) ∷ hex_lower bs
