-- ===== src/Diag/ExitCode.antt =====
-- crates/x07-wasm/src/report/exit_code.rs: the exit code of a command from its diagnostics.
pub mod Classes
mod Tests
use x07_wasm_backend.Common.{
  ℕ, String, Bool, true, false, not, ◌&&◌, ◌||◌, List, codes, has_prefix, has_suffix, any, all,
  if◌then◌else◌,
}
use x07_wasm_backend.Diag.{Diagnostic, is_error, is_parse}

pub ends_with : String → String → Bool
ends_with s suffix = has_suffix (codes suffix) (codes s)

pub starts_with : String → String → Bool
starts_with s prefix = has_prefix (codes prefix) (codes s)

pub is_tool_failure : Diagnostic → Bool
is_tool_failure d =
    if not (is_error d.severity)
    then false
    else if ends_with d.code "_SPAWN_FAILED"
    then true
    else if ends_with d.code "_WRITE_FAILED"
    then true
    else if ends_with d.code "_IO_FAILED"
    then true
    else starts_with d.code "X07WASM_INTERNAL_"

pub is_invalid_input : Diagnostic → Bool
is_invalid_input d = is_error d.severity && is_parse d.stage

pub is_budget_exceeded : Diagnostic → Bool
is_budget_exceeded d = is_error d.severity && starts_with d.code "X07WASM_BUDGET_EXCEEDED_"

unfoldable pub exit_code_for_diagnostics : List Diagnostic → ℕ
exit_code_for_diagnostics diagnostics =
    if all (λ d. not (is_error d.severity)) diagnostics
    then 0
    else if any is_tool_failure diagnostics
    then 2
    else if any is_invalid_input diagnostics
    then 3
    else if any is_budget_exceeded diagnostics
    then 4
    else 1
