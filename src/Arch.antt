-- ===== src/Arch.antt =====
-- crates/x07-wasm/src/arch/mod.rs: what a profile must be, beyond its schema, and the identifiers of
-- profiles. Reading profiles and their index is I/O.
use x07_wasm_backend.Common.{
  ℕ, String, Bool, false, not, ◌||◌, Option, none, some, List, [], ◌∷◌, all, ltb, length, codes,
  codes_eq, trim, is_alphanumeric, ◌==◌, if◌then◌else◌,
}
use x07_wasm_backend.Common.Result.{Result, ◌>>◌, bail_if}

-- The fields that the contract reads.
pub record ProfileContract : Type 0 where
  pub wasm_c_abi : String
  pub entry_export : String
  pub freestanding : Bool
  pub emit_c_header : Bool

pub data ProfileError : Type 0 where
  unsupported_wasm_c_abi unsupported_entry_export : String → ProfileError
  not_freestanding without_c_header : ProfileError

-- `s.trim() == expected`
abbrev trimmed_is : String → String → Bool
trimmed_is s expected = codes_eq (trim (codes s)) (codes expected)

unfoldable pub validate_profile_contract : ProfileContract → Result ProfileError (Unit {0})
validate_profile_contract doc = do
  bail_if (not (trimmed_is doc.wasm_c_abi "basic_c_abi@1")) (unsupported_wasm_c_abi doc.wasm_c_abi)
  bail_if (not (trimmed_is doc.entry_export "x07_solve_v2"))
      (unsupported_entry_export doc.entry_export)
  bail_if (not doc.freestanding) not_freestanding
  bail_if (not doc.emit_c_header) without_c_header

abbrev profile_id_char : ℕ → Bool
profile_id_char ch = is_alphanumeric ch || (ch == b'.') || (ch == b'_') || (ch == b'-')

abbrev valid_start : List ℕ → Bool
valid_start [] = false
valid_start (c ∷ cs) = is_alphanumeric c

-- A text with characters beyond ASCII is not valid, so that its length counts for ASCII alone.
unfoldable pub is_valid_profile_id : String → Bool
is_valid_profile_id s =
    if ltb 128 (length (codes s))
    then false
    else if not (valid_start (codes s))
    then false
    else all profile_id_char (codes s)

unfoldable pub sanitize_profile_id : Option String → Option String → String
unfolding is_valid_profile_id
sanitize_profile_id (some index_id) raw_id = index_id
sanitize_profile_id none (some id) = if is_valid_profile_id id then id else "unknown"
sanitize_profile_id none none = "unknown"
