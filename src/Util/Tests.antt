-- ===== src/Util/Tests.antt =====
-- A digest at a concrete input.
use x07_wasm_backend.Common.{ℕ, ◌≡◌, refl, some, List, [], ◌∷◌, codes, arith}
use x07_wasm_backend.Util.{hex_lower}
use x07_wasm_backend.Util.Hex.{unhex, unhex-hex_lower}

abbrev digest : List ℕ
digest = 0 ∷ 255 ∷ 171 ∷ []

unhex-hex_lower_example : unhex (hex_lower digest) ≡ some digest
unhex-hex_lower_example = unhex-hex_lower digest (omega arith, (omega arith, (omega arith, tt)))

hex_test : hex_lower digest ≡ codes "00ffab"
unfolding hex_lower
hex_test = refl
