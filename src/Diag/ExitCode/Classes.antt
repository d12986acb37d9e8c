-- ===== src/Diag/ExitCode/Classes.antt =====
-- Which diagnostics lead to which exit code.
use x07_wasm_backend.Common.{
  ℕ, ◌≡◌, refl, ◌↔◌, ◌⊎◌, Bool, true, false, not, List, any, Any, any_iff, Any-map, all-not, arith,
  sym, if◌then◌else◌, iff_trans,
}
use mathlib.Core.Bool.{false≢true}
use x07_wasm_backend.Diag.{Diagnostic, Severity, error, parse, is_error}
use x07_wasm_backend.Diag.ExitCode.{
  ends_with, starts_with, is_tool_failure, is_invalid_input, is_budget_exceeded,
  exit_code_for_diagnostics,
}

abbrev pub IsError : Diagnostic → Type 0
IsError d = d.severity ≡ error

-- An error of the tool itself: a process, a write or other input and output failed, or a bug.
abbrev pub IsToolFailure : Diagnostic → Type 0
IsToolFailure d =
    IsError d
    × ((ends_with d.code "_SPAWN_FAILED" ≡ true)
        ⊎ (ends_with d.code "_WRITE_FAILED" ≡ true)
        ⊎ (ends_with d.code "_IO_FAILED" ≡ true)
        ⊎ (starts_with d.code "X07WASM_INTERNAL_" ≡ true))

abbrev pub IsInvalidInput : Diagnostic → Type 0
IsInvalidInput d = IsError d × (d.stage ≡ parse)

abbrev pub IsBudgetExceeded : Diagnostic → Type 0
IsBudgetExceeded d = IsError d × (starts_with d.code "X07WASM_BUDGET_EXCEEDED_" ≡ true)

is_error_iff : (s : Severity) → (is_error s ≡ true) ↔ (s ≡ error)
is_error_iff s = ground arith

is_tool_failure_iff : (d : Diagnostic) → (is_tool_failure d ≡ true) ↔ IsToolFailure d
unfolding is_tool_failure
is_tool_failure_iff d = ground arith

is_invalid_input_iff : (d : Diagnostic) → (is_invalid_input d ≡ true) ↔ IsInvalidInput d
unfolding is_invalid_input
is_invalid_input_iff d = ground arith

is_budget_exceeded_iff : (d : Diagnostic) → (is_budget_exceeded d ≡ true) ↔ IsBudgetExceeded d
unfolding is_budget_exceeded
is_budget_exceeded_iff d = ground arith

-- The ladder of tests over its four answers.
ladder : Bool → Bool → Bool → Bool → ℕ
ladder has_error tool input budget =
    if not has_error then 0 else if tool then 2 else if input then 3 else if budget then 4 else 1

ladder_cases :
    (e t i b : Bool)
    → (t ≡ true → e ≡ true)
    → (i ≡ true → e ≡ true)
    → (b ≡ true → e ≡ true)
    → ((ladder e t i b ≡ 0) ↔ (e ≡ false))
      × ((ladder e t i b ≡ 2) ↔ (t ≡ true))
      × ((ladder e t i b ≡ 3) ↔ ((t ≡ false) × (i ≡ true)))
      × ((ladder e t i b ≡ 4) ↔ ((t ≡ false) × (i ≡ false) × (b ≡ true)))
      × ((ladder e t i b ≡ 1) ↔ ((e ≡ true) × (t ≡ false) × (i ≡ false) × (b ≡ false)))
unfolding ladder
ladder_cases e t i b ht hi hb = ground arith

not_of_iff : {P : Type 0} (b : Bool) → (b ≡ true) ↔ P → (b ≡ false) ↔ (¬ P)
not_of_iff true e = (λ h. absurd (false≢true (sym h)), λ n. absurd (n (e.0 refl)))
not_of_iff false e = (λ h p. false≢true (e.1 p), λ n. refl)

module _ (ds : List Diagnostic) where
  errors : (any (λ d. is_error d.severity) ds ≡ true) ↔ Any IsError ds
  errors = any_iff (λ d. is_error d.severity) IsError (λ d. is_error_iff d.severity) ds

  tools : (any is_tool_failure ds ≡ true) ↔ Any IsToolFailure ds
  tools = any_iff is_tool_failure IsToolFailure is_tool_failure_iff ds

  inputs : (any is_invalid_input ds ≡ true) ↔ Any IsInvalidInput ds
  inputs = any_iff is_invalid_input IsInvalidInput is_invalid_input_iff ds

  budgets : (any is_budget_exceeded ds ≡ true) ↔ Any IsBudgetExceeded ds
  budgets = any_iff is_budget_exceeded IsBudgetExceeded is_budget_exceeded_iff ds

  exit_code-eq-ladder :
      exit_code_for_diagnostics ds
      ≡ ladder
          (any (λ d. is_error d.severity) ds)
          (any is_tool_failure ds)
          (any is_invalid_input ds)
          (any is_budget_exceeded ds)
  unfolding exit_code_for_diagnostics ladder
  exit_code-eq-ladder = rw (all-not (λ d. is_error d.severity) ds)

  -- The exit code says which classes of errors the diagnostics hold, the first in the order tool
  -- failure, invalid input, exceeded budget: 0 exactly where there is no error, 2 exactly with a tool
  -- failure, 3 exactly with an invalid input and no tool failure, 4 exactly with an exceeded budget
  -- and neither, 1 exactly with errors of no such class.
  pub exit_code_iff :
      ((exit_code_for_diagnostics ds ≡ 0) ↔ (¬ Any IsError ds))
      × ((exit_code_for_diagnostics ds ≡ 2) ↔ Any IsToolFailure ds)
      × ((exit_code_for_diagnostics ds ≡ 3) ↔ ((¬ Any IsToolFailure ds) × Any IsInvalidInput ds))
      × ((exit_code_for_diagnostics ds ≡ 4)
          ↔ ((¬ Any IsToolFailure ds) × (¬ Any IsInvalidInput ds) × Any IsBudgetExceeded ds))
      × ((exit_code_for_diagnostics ds ≡ 1) ↔ (
          Any IsError ds
          × (¬ Any IsToolFailure ds)
          × (¬ Any IsInvalidInput ds)
          × (¬ Any IsBudgetExceeded ds)))
  exit_code_iff =
      let up = λ (Q : Diagnostic → Type 0) (f : (d : Diagnostic) → Q d → IsError d) (m : Any Q ds).
        errors.1 (Any-map Q IsError ds f m) in
      let (zero', two', three', four', one') =
        ladder_cases (any (λ d. is_error d.severity) ds) (any is_tool_failure ds)
          (any is_invalid_input ds) (any is_budget_exceeded ds)
          (λ h. up IsToolFailure (λ d q. q.0) (tools.0 h))
          (λ h. up IsInvalidInput (λ d q. q.0) (inputs.0 h))
          (λ h. up IsBudgetExceeded (λ d q. q.0) (budgets.0 h)) in
      let ne = not_of_iff (any (λ d. is_error d.severity) ds) errors in
      let nt = not_of_iff (any is_tool_failure ds) tools in
      let ni = not_of_iff (any is_invalid_input ds) inputs in
      let nb = not_of_iff (any is_budget_exceeded ds) budgets in
      rw exit_code-eq-ladder (
        iff_trans zero' ne,
        iff_trans two' tools,
        (
          λ h. let (t, i) = three'.0 h in (nt.0 t, inputs.0 i),
          λ p. three'.1 (nt.1 p.0, inputs.1 p.1),
        ),
        (
          λ h. let (t, i, b) = four'.0 h in (nt.0 t, ni.0 i, budgets.0 b),
          λ p. four'.1 (nt.1 p.0, ni.1 p.1, budgets.1 p.2),
        ),
        (
          λ h. let (e, t, i, b) = one'.0 h in (errors.0 e, nt.0 t, ni.0 i, nb.0 b),
          λ p. one'.1 (errors.1 p.0, nt.1 p.1, ni.1 p.2, nb.1 p.3),
        ),
      )
