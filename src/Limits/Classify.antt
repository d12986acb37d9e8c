-- ===== src/Limits/Classify.antt =====
-- A growth that the limiter refuses is reported as an exceeded budget, under any context.
use x07_wasm_backend.Common.{
  ℕ, suc, ◌<◌, ◌≤◌, ◌≡◌, refl, String, Option, some, List, [], ◌∷◌, ◌++◌, ◌⊎◌, inl, inr, arith, map,
  Bool-cases, ltb, ltb→lt,
}
use x07_wasm_backend.Common.Result.{ok, err}
use x07_wasm_backend.Limits.{
  Cause, other_cause, memory_limit_exceeded, memory, new, memory_growing, classify_budget_exceeded,
}

-- What `with_context` puts around an error.
abbrev pub with_contexts : List String → List Cause → List Cause
with_contexts contexts e = map other_cause contexts ++ e

classify-contexts :
    (contexts : List String) (e : List Cause)
    → classify_budget_exceeded (with_contexts contexts e) ≡ classify_budget_exceeded e
unfolding classify_budget_exceeded
classify-contexts [] e = refl
classify-contexts (c ∷ cs) e = classify-contexts cs e

-- A limiter made for a positive number of bytes refuses exactly the growths beyond it, and the error is
-- classified as an exceeded memory budget whatever contexts are put around it.
pub memory_growing_cases :
    (max : ℕ) (max_table_elements : Option ℕ) (desired : ℕ) (contexts : List String)
    → ((desired ≤ suc max)
        × (memory_growing (new (some (suc max)) max_table_elements) desired ≡ ok tt))
      ⊎ ((suc max < desired)
          × (e : List Cause) × (memory_growing (new (some (suc max)) max_table_elements) desired
              ≡ err e)
          × (classify_budget_exceeded (with_contexts contexts e) ≡ some memory))
unfolding memory_growing new classify_budget_exceeded
memory_growing_cases max elements desired contexts = elim (Bool-cases (ltb (suc max) desired)) [
  | inl e ↦ inr (
    ltb→lt _ _ e,
    memory_limit_exceeded desired (suc max) ∷ [],
    rw e,
    classify-contexts contexts _,
  )
  | inr e ↦ inl (ground arith, rw e)
]
