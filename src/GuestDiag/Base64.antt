-- ===== src/GuestDiag/Base64.antt =====
-- `strict_base64_decode` of guest_diag.rs. A text is the list of its bytes.
pub mod RoundTrip
use Prim.Native.Nat.{bit_and, bit_or}
use x07_wasm_backend.Common.{
  ℕ, ◌+◌, ◌-◌, ◌*◌, ◌/◌, ◌%◌, ◌^◌, String, Bool, true, false, not, ◌&&◌, ◌||◌, Option, none, some,
  List, [], ◌∷◌, ◌++◌, ltb, leb, ◌==◌, is_digit, is_upper, is_lower, length, if◌then◌else◌,
}
use x07_wasm_backend.Common.Result.{Result, ok, err, ◌>>=◌, ◌>>◌, bail_if, or_error}
use x07_wasm_backend.GuestDiag.Error.{HostDiagError}

abbrev pub max_data_b64_bytes : ℕ
max_data_b64_bytes = 8192

abbrev pub max_data_decoded_bytes : ℕ
max_data_decoded_bytes = 4096

pub b64_val : ℕ → Option ℕ
b64_val b =
    if is_upper b
    then some (b - b'A')
    else if is_lower b
    then some (26 + (b - b'a'))
    else if is_digit b
    then some (52 + (b - b'0'))
    else if b == b'+'
    then some 62
    else if b == b'/'
    then some 63
    else none

-- u32 shifts
abbrev pub shl : ℕ → ℕ → ℕ
shl x k = x * 2 ^ k % 2 ^ 32

abbrev pub shr : ℕ → ℕ → ℕ
shr x k = x / 2 ^ k

-- `(v0 << 18) | (v1 << 12) | (v2 << 6) | v3`
pub join : ℕ → ℕ → ℕ → ℕ → ℕ
join v0 v1 v2 v3 = bit_or (bit_or (bit_or (shl v0 18) (shl v1 12)) (shl v2 6)) v3

-- The bytes of a block, without those that are padding.
pub block_bytes : ℕ → Bool → Bool → List ℕ
block_bytes v pad2 pad3 =
    bit_and (shr v 16) 0xff
    ∷ ((if pad2 then [] else bit_and (shr v 8) 0xff ∷ [])
        ++ (if pad3 then [] else bit_and v 0xff ∷ []))

abbrev pub is_empty : List ℕ → Bool
is_empty [] = true
is_empty (_ ∷ _) = false

module _ (invalid_code : String) where
  abbrev pub invalid : String → HostDiagError
  invalid message = record { code = invalid_code; message = message }

  abbrev pub value_or_pad : Bool → ℕ → Result HostDiagError ℕ
  value_or_pad pad c =
      if pad then ok 0 else or_error (invalid "diag data base64 invalid char") (b64_val c)

  -- One round of the loop: the four characters of a block, and whether it is the last.
  pub decode_block : ℕ → ℕ → ℕ → ℕ → Bool → Result HostDiagError (List ℕ)
  decode_block c0 c1 c2 c3 is_last = do
    v0 ← or_error (invalid "diag data base64 invalid char") (b64_val c0)
    v1 ← or_error (invalid "diag data base64 invalid char") (b64_val c1)
    let pad2 = c2 == b'='
    let pad3 = c3 == b'='
    bail_if ((pad2 || pad3) && not is_last)
        (invalid "diag data base64 has padding before final block")
    v2 ← value_or_pad pad2 c2
    v3 ← value_or_pad pad3 c3
    bail_if (pad2 && not pad3) (invalid "diag data base64 invalid padding")
    ok (block_bytes (join v0 v1 v2 v3) pad2 pad3)

  -- The loop over the blocks of four; a rest of fewer characters is no block.
  pub decode_blocks : List ℕ → Result HostDiagError (List ℕ)
  decode_blocks (c0 ∷ c1 ∷ c2 ∷ c3 ∷ rest) = do
    first ← decode_block c0 c1 c2 c3 (is_empty rest)
    others ← decode_blocks rest
    ok (first ++ others)
  decode_blocks _ = ok []

  unfoldable pub strict_base64_decode : List ℕ → Result HostDiagError (List ℕ)
  unfolding decode_blocks decode_block b64_val join block_bytes
  strict_base64_decode trimmed = do
    bail_if (ltb max_data_b64_bytes (length trimmed)) (invalid "diag data base64 too long")
    bail_if (not (length trimmed % 4 == 0)) (invalid "diag data base64 length not multiple of 4")
    out ← decode_blocks trimmed
    bail_if (ltb max_data_decoded_bytes (length out)) (invalid "diag data decoded too long")
    ok out
