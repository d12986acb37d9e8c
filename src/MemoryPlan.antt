-- ===== src/MemoryPlan.antt =====
-- crates/x07-wasm/src/wasm/memory_plan.rs: the plan of a module's memory, from the linker's flags and from
-- the module. Flags are the lists of their code points.
use x07_wasm_backend.Common.{
  ℕ, ◌-◌, ◌^◌, Bool, true, false, Option, none, some, List, [], ◌∷◌, any, codes, codes_eq,
  has_prefix, drop, length, if◌then◌else◌,
}
use x07_wasm_backend.Common.Decimal.{parse_decimal}

pub record MemoryPlan : Type 0 where
  pub stack_first : Bool
  pub stack_size_bytes : ℕ
  pub initial_memory_bytes : ℕ
  pub max_memory_bytes : ℕ
  pub growable_memory : Bool

pub record MemoryPlanExpectations : Type 0 where
  pub initial_memory_bytes : Option ℕ
  pub max_memory_bytes : Option ℕ
  pub no_growable_memory : Bool

-- `s.strip_prefix(prefix)`
abbrev pub strip_prefix : List ℕ → List ℕ → Option (List ℕ)
strip_prefix start s = if has_prefix start s then some (drop (length start) s) else none

-- `v.parse::<u64>()`
abbrev pub parse_u64 : List ℕ → Option ℕ
parse_u64 s = parse_decimal (2 ^ 64 - 1) s

abbrev or_zero_bytes : Option ℕ → ℕ
or_zero_bytes none = 0
or_zero_bytes (some n) = n

-- A flag that may be a size: the size before it stays, unless it is one.
abbrev pub size_after : ℕ → Option (List ℕ) → ℕ
size_after size none = size
size_after size (some v) = or_zero_bytes (parse_u64 v)

abbrev pub stack_size_of : List ℕ → Option (List ℕ)
stack_size_of w = strip_prefix (codes "stack-size=") w

abbrev next_flag : List (List ℕ) → Option (List ℕ)
next_flag [] = none
next_flag (w ∷ ws) = stack_size_of w

-- The loop over the flags: the last stack size counts.
abbrev pub stack_size_from : ℕ → List (List ℕ) → ℕ
stack_size_from size [] = size
stack_size_from size (w ∷ ws) =
    stack_size_from
      (size_after size (if codes_eq w (codes "-z") then next_flag ws else stack_size_of w)) ws

unfoldable pub memory_plan_from_ldflags_and_wasm : List (List ℕ) → ℕ → ℕ → Bool → MemoryPlan
memory_plan_from_ldflags_and_wasm ldflags wasm_initial_bytes wasm_max_bytes wasm_growable = record {
  stack_first = any (λ w. codes_eq w (codes "--stack-first")) ldflags;
  stack_size_bytes = stack_size_from 0 ldflags;
  initial_memory_bytes = wasm_initial_bytes;
  max_memory_bytes = wasm_max_bytes;
  growable_memory = wasm_growable;
}

abbrev expect_flag :
    MemoryPlanExpectations → Bool → Option (List ℕ) → Option (List ℕ) → MemoryPlanExpectations
expect_flag exp no_growable (some v) maximal = record exp { initial_memory_bytes = parse_u64 v }
expect_flag exp no_growable none (some v) = record exp { max_memory_bytes = parse_u64 v }
expect_flag exp true none none = record exp { no_growable_memory = true }
expect_flag exp false none none = exp

abbrev pub expectations_from : MemoryPlanExpectations → List (List ℕ) → MemoryPlanExpectations
expectations_from exp [] = exp
expectations_from exp (w ∷ ws) =
    expectations_from
      (expect_flag exp (codes_eq w (codes "--no-growable-memory"))
        (strip_prefix (codes "--initial-memory=") w) (strip_prefix (codes "--max-memory=") w))
      ws

unfoldable pub memory_expectations_from_ldflags : List (List ℕ) → MemoryPlanExpectations
memory_expectations_from_ldflags ldflags =
    expectations_from
      (record { initial_memory_bytes = none; max_memory_bytes = none; no_growable_memory = false })
      ldflags
