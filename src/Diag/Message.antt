-- ===== src/Diag/Message.antt =====
-- The bound on a diagnostic's message.
use Prim.Native.Char.{Char}
use x07_wasm_backend.Common.{String, List, [], ◌∷◌}

-- The characters of a text.
abbrev pub chars : String → List Char
chars String.[] = []
chars (String.◌∷◌ c s) = c ∷ chars s
