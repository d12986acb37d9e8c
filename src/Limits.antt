-- ===== src/Limits.antt =====
-- crates/x07-wasm/src/wasmtime_limits.rs: the limiter of a Wasmtime store, and the class of an error that
-- stopped a guest. An `anyhow` error is the chain of its causes. `usize` has 64 bits.
pub mod Classify
pub mod Config
mod Tests
use x07_wasm_backend.Common.{
  ℕ, zero, suc, ◌^◌, String, Option, none, some, List, [], ◌∷◌, ltb, if◌then◌else◌,
}
use x07_wasm_backend.Common.Result.{Result, ok, err}

pub data BudgetExceededKind : Type 0 where
  cpu_fuel wasm_stack memory table : BudgetExceededKind

-- A link of an error's chain: a trap of Wasmtime, an error of the limiter, or any other.
pub data Cause : Type 0 where
  out_of_fuel stack_overflow : Cause
  other_trap other_cause : String → Cause
  memory_limit_exceeded table_limit_exceeded : ℕ → ℕ → Cause

pub record WasmResourceLimiter : Type 0 where
  pub max_memory_bytes : Option ℕ
  pub max_table_elements : Option ℕ

-- `.filter(|v| *v > 0)`
abbrev pub positive : Option ℕ → Option ℕ
positive none = none
positive (some zero) = none
positive (some (suc n)) = some (suc n)

unfoldable pub new : Option ℕ → Option ℕ → WasmResourceLimiter
new max_memory_bytes max_table_elements = record {
  max_memory_bytes = positive max_memory_bytes;
  max_table_elements = positive max_table_elements;
}

abbrev pub within : Option ℕ → ℕ → (ℕ → ℕ → Cause) → Result (List Cause) (Unit {0})
within none desired e = ok tt
within (some max) desired e = if ltb max desired then err (e desired max ∷ []) else ok tt

unfoldable pub memory_growing : WasmResourceLimiter → ℕ → Result (List Cause) (Unit {0})
memory_growing l desired = within l.max_memory_bytes desired memory_limit_exceeded

unfoldable pub table_growing : WasmResourceLimiter → ℕ → Result (List Cause) (Unit {0})
table_growing l desired = within l.max_table_elements desired table_limit_exceeded

unfoldable pub classify_budget_exceeded : List Cause → Option BudgetExceededKind
classify_budget_exceeded [] = none
classify_budget_exceeded (out_of_fuel ∷ _) = some cpu_fuel
classify_budget_exceeded (stack_overflow ∷ _) = some wasm_stack
classify_budget_exceeded (memory_limit_exceeded _ _ ∷ _) = some memory
classify_budget_exceeded (table_limit_exceeded _ _ ∷ _) = some table
classify_budget_exceeded (other_trap _ ∷ rest) = classify_budget_exceeded rest
classify_budget_exceeded (other_cause _ ∷ rest) = classify_budget_exceeded rest
