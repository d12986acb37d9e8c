-- ===== src/Diag/ExitCode/Tests.antt =====
-- Exit codes and messages at concrete diagnostics.
use x07_wasm_backend.Common.{◌≡◌, ◌↔◌, List, [], ◌∷◌}
use x07_wasm_backend.Common.{Any}
use x07_wasm_backend.Diag
use x07_wasm_backend.Diag.{Diagnostic, error, warning, parse, run}
use x07_wasm_backend.Diag.ExitCode.{exit_code_for_diagnostics}
use x07_wasm_backend.Diag.ExitCode.Classes.{
  IsError, IsToolFailure, IsInvalidInput, IsBudgetExceeded, exit_code_iff,
}

abbrev failed : List Diagnostic
failed =
    Diag.new "X07WASM_NOTE" warning run "slow"
    ∷ Diag.new "X07WASM_CLI_ARGS_INVALID" error parse "bad"
    ∷ Diag.new "X07WASM_OUT_WRITE_FAILED" error run "disk"
    ∷ []

exit_code_iff_example :
    ((exit_code_for_diagnostics failed ≡ 0) ↔ (¬ Any IsError failed))
    × ((exit_code_for_diagnostics failed ≡ 2) ↔ Any IsToolFailure failed)
    × ((exit_code_for_diagnostics failed ≡ 3)
        ↔ ((¬ Any IsToolFailure failed) × Any IsInvalidInput failed))
    × ((exit_code_for_diagnostics failed ≡ 4) ↔ (
        (¬ Any IsToolFailure failed) × (¬ Any IsInvalidInput failed) × Any IsBudgetExceeded failed))
    × ((exit_code_for_diagnostics failed ≡ 1) ↔ (
        Any IsError failed
        × (¬ Any IsToolFailure failed)
        × (¬ Any IsInvalidInput failed)
        × (¬ Any IsBudgetExceeded failed)))
exit_code_iff_example = exit_code_iff failed
