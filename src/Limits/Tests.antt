-- ===== src/Limits/Tests.antt =====
-- The limiter at a concrete bound.
use x07_wasm_backend.Common.{suc, ◌≤◌, ◌<◌, ◌≡◌, ◌⊎◌, some, none, List, [], ◌∷◌}
use x07_wasm_backend.Common.Result.{ok, err}
use x07_wasm_backend.Limits.{Cause, memory, new, memory_growing, classify_budget_exceeded}
use x07_wasm_backend.Limits.Classify.{with_contexts, memory_growing_cases}

memory_growing_cases_example :
    ((131072 ≤ suc 65535) × (memory_growing (new (some (suc 65535)) none) 131072 ≡ ok tt))
    ⊎ ((suc 65535 < 131072)
        × (e : List Cause) × (memory_growing (new (some (suc 65535)) none) 131072 ≡ err e)
        × (classify_budget_exceeded (with_contexts ("call reducer" ∷ []) e) ≡ some memory))
memory_growing_cases_example = memory_growing_cases 65535 none 131072 ("call reducer" ∷ [])
