-- ===== src/Diag.antt =====
-- crates/x07-wasm/src/diag.rs: diagnostics and the bound on their messages.
pub mod ExitCode
pub mod Message
use Prim.Native.String
use x07_wasm_backend.Common.{
  ℕ, zero, suc, String, Bool, true, false, Option, none, List, [], if◌then◌else◌,
}
use x07_wasm_backend.Json.{Value}

pub data Severity : Type 0 where
  error warning info hint : Severity

pub data Stage : Type 0 where
  parse lint rewrite type lower codegen link run : Stage

-- `data` is a keyword: the field of that name is `entries` here.
pub record Diagnostic : Type 0 where
  pub code : String
  pub severity : Severity
  pub stage : Stage
  pub message : String
  pub loc : Option Value
  pub notes : List String
  pub related : List Value
  pub entries : List (String × Value)
  pub quickfix : Option Value

abbrev pub diagnostic_message_max_chars : ℕ
diagnostic_message_max_chars = 4096

-- `s.chars().nth(n).is_some()`
pub has_char : ℕ → String → Bool
has_char n String.[] = false
has_char zero (String.◌∷◌ c s) = true
has_char (suc n) (String.◌∷◌ c s) = has_char n s

-- `s.chars().take(n).collect()`
pub take_chars : ℕ → String → String
take_chars zero s = String.[]
take_chars (suc n) String.[] = String.[]
take_chars (suc n) (String.◌∷◌ c s) = String.◌∷◌ c (take_chars n s)

unfoldable pub new : String → Severity → Stage → String → Diagnostic
new code severity stage message = record {
  code = code;
  severity = severity;
  stage = stage;
  message =
      if has_char diagnostic_message_max_chars message
      then take_chars diagnostic_message_max_chars message
      else message;
  loc = none;
  notes = [];
  related = [];
  entries = [];
  quickfix = none;
}

abbrev pub is_error : Severity → Bool
is_error error = true
is_error _ = false

abbrev pub is_parse : Stage → Bool
is_parse parse = true
is_parse _ = false
