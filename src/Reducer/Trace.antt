-- ===== src/Reducer/Trace.antt =====
-- The loop as a relation on its steps, and what a run leaves.
use x07_wasm_backend.Common.{
  ℕ, zero, suc, ◌+◌, ◌≤◌, ◌≡◌, refl, ◌⊎◌, inl, inr, Option, none, some, List, [], ◌∷◌, ◌++◌, arith,
  true, length, length-append,
}
use x07_wasm_backend.Common.Result.{Result, ok, err}
use x07_wasm_backend.Json.{Value, null, get, unwrap_or}
use x07_wasm_backend.Diag.{Diagnostic}
use x07_wasm_backend.Limits.{Cause}
use x07_wasm_backend.Reducer.Host.{Host}
use x07_wasm_backend.Reducer.State.{HttpEffectLoopBudgets, Io}
use x07_wasm_backend.Reducer.Loop.{
  Step, LoopState, Exit, returned, failed_with, has_errors, dispatch_of, response_of, effects_of,
  continue_with, loop_step, and_so, run_steps, run_http_reducer_loop,
}
use x07_wasm_backend.Reducer.Rules.{
  Fails, Post, Post-bind, HoldsAfter, IsKept, AreResults, payload_from, exchange_rule,
  run_effects_rule, at_exhaustion,
}

-- The step of the loop that sends a state and results.
abbrev pub step_of : Value → Value → List Value → Value → Step
step_of request state results frame = record {
  env = dispatch_of state request results;
  frame = frame;
}

-- A trace that may go on, with the state and the results that the next dispatch sends: it starts with
-- null and no results, and a frame without a response hands its state on, with one result for each of
-- its effects, which hold no more bytes than the budget.
pub data Trace (request : Value) (max_bytes : ℕ) : List Step → Value → List Value → Type 0 where
  start : Trace request max_bytes [] null []
  follow :
      {steps : List Step} {state : Value} {results : List Value}
      → Trace request max_bytes steps state results
      → (frame : Value) → response_of frame ≡ none
      → (next : List Value) → length next ≡ length (effects_of frame)
      → payload_from 0 next ≤ max_bytes
      → Trace request max_bytes
          (steps ++ step_of request state results frame ∷ [])
          (unwrap_or (get "state" frame) null)
          next

-- How a run may end: with the response of the last frame of its trace, or with an error among the
-- diagnostics, between two steps or among the effects of the last frame.
pub data Ended (request : Value) (max_bytes : ℕ)
    : Option Value → List Step → List Diagnostic → Type 0 where
  answered :
      {steps : List Step} {state : Value} {results : List Value} {diags : List Diagnostic}
      → Trace request max_bytes steps state results
      → (frame response : Value) → response_of frame ≡ some response
      → Ended request max_bytes
          (some response)
          (steps ++ step_of request state results frame ∷ [])
          diags
  stopped :
      {steps : List Step} {state : Value} {results : List Value} {diags : List Diagnostic}
      → Trace request max_bytes steps state results
      → has_errors diags ≡ true
      → Ended request max_bytes none steps diags
  over_budget :
      {steps : List Step} {state : Value} {results : List Value} {diags : List Diagnostic}
      → Trace request max_bytes steps state results
      → (frame : Value) → response_of frame ≡ none
      → has_errors diags ≡ true
      → Ended request max_bytes none (steps ++ step_of request state results frame ∷ []) diags

module _ {W IpNet : Type 0} (host : Host W IpNet) (budgets : HttpEffectLoopBudgets)
    (K : Io W IpNet → Type 0) (kept : IsKept host K) (request : Value) where
  -- What a run that has ended leaves, with the predicate on what the effects change.
  abbrev pub Outcome : Exit W IpNet → Type 0
  Outcome (failed_with e io) = Fails host e × K io
  Outcome (returned response steps io) =
      Ended request budgets.max_effect_results_bytes response steps io.diagnostics
      × (length steps ≤ budgets.max_effect_steps)
      × K io

  -- The invariant of the loop, with the steps that are left.
  abbrev pub Going : ℕ → LoopState W IpNet → Type 0
  Going left ls =
      Trace request budgets.max_effect_results_bytes ls.steps ls.state ls.effect_results
      × (length ls.steps + left ≡ budgets.max_effect_steps)
      × K ls.io

  continue_with_rule :
      (left : ℕ) (ls : LoopState W IpNet)
      → Going (suc left) ls
      → (frame : Value) (io : Io W IpNet) → K io
      → (response : Option Value) → response_of frame ≡ response
      → Post (Going left) Outcome (
          continue_with host budgets response frame
            (ls.steps ++ step_of request ls.state ls.effect_results frame ∷ [])
            io)
  unfolding continue_with
  continue_with_rule left ls (trace, count, _) frame io k (some response) e =
      let longer = length-append ls.steps (step_of request ls.state ls.effect_results frame ∷ []) in
      (answered trace frame response e, omega (arith, longer, count), k)
  continue_with_rule left ls (trace, count, _) frame io k none e =
      let steps = ls.steps ++ step_of request ls.state ls.effect_results frame ∷ [] in
      let longer = length-append ls.steps (step_of request ls.state ls.effect_results frame ∷ []) in
      Post-bind (AreResults K budgets (effects_of frame) 0) (Going left) Outcome _ _
        (run_effects_rule host budgets K kept Outcome steps
          (λ io' k' bad. (over_budget trace frame e bad, omega (arith, longer, count), k'))
          (λ _ io' f k'. (f, k')) (effects_of frame) 0 io (omega arith) k)
        λ r p. (follow trace frame e r.0 p.0 p.1, omega (arith, longer, count), p.2)

  loop_step_rule :
      (left : ℕ) (ls : LoopState W IpNet)
      → Going (suc left) ls
      → Post (Going left) Outcome (loop_step host budgets request ls)
  unfolding loop_step
  loop_step_rule left ls g =
      Post-bind (HoldsAfter K) (Going left) Outcome _ _
        (exchange_rule host budgets K kept Outcome ls.steps
          (λ io k bad. (stopped g.0 bad, omega (arith, g.1), k)) (λ _ io f k. (f, k))
          (dispatch_of ls.state request ls.effect_results) ls.io g.2)
        λ r k. continue_with_rule left ls g r.0 r.1 k (response_of r.0) refl

  and_so_rule :
      (left : ℕ) (r : Result (Exit W IpNet) (LoopState W IpNet))
      (next : LoopState W IpNet → Exit W IpNet)
      → Post (Going left) Outcome r
      → ((ls : LoopState W IpNet) → Going left ls → Outcome (next ls))
      → Outcome (and_so host budgets r next)
  and_so_rule left (err exit) next h k = h
  and_so_rule left (ok ls) next h k = k ls h

  run_steps_rule :
      (left : ℕ) (ls : LoopState W IpNet)
      → Going left ls
      → Outcome (run_steps host budgets left request ls)
  unfolding run_steps
  run_steps_rule zero ls (trace, count, k) =
      let (bad, k') = at_exhaustion host budgets K kept ls.io k in
      (stopped trace bad, omega (arith, count), k')
  run_steps_rule (suc left) ls g =
      and_so_rule left (loop_step host budgets request ls) (run_steps host budgets left request)
        (loop_step_rule left ls g) (λ ls' g'. run_steps_rule left ls' g')

  pub run_rule : (io : Io W IpNet) → K io → Outcome (run_http_reducer_loop host budgets request io)
  unfolding run_http_reducer_loop
  run_rule io k =
      run_steps_rule budgets.max_effect_steps
        (record { steps = []; state = null; effect_results = []; io = io }) (start, omega arith, k)

module _ {W IpNet : Type 0} (host : Host W IpNet) (budgets : HttpEffectLoopBudgets)
    (request : Value) where
  everything-IsKept : IsKept host (λ _. Unit {0})
  everything-IsKept = record {
    by_diagnostics = λ _ _ _. tt;
    by_call = λ _ _ _. tt;
    by_effect = λ _ _ _. tt;
  }

  -- How every run ends, whatever the guest answers. It returns, unless the schema store or canonical JSON
  -- fails with an error, which is then the run's. A run that returns has made no more steps than the
  -- budget, and its steps are a trace: each dispatch holds the request, the state of the frame before and
  -- one result for each effect of it, within the budget of bytes. The response that it returns is that of
  -- the last frame, the only one that has any; without a response there is an error among the
  -- diagnostics.
  pub run_http_reducer_loop-Ended :
      (io : Io W IpNet)
      → ((response : Option Value) × (steps : List Step) × (io' : Io W IpNet)
          × (run_http_reducer_loop host budgets request io ≡ returned response steps io')
          × Ended request budgets.max_effect_results_bytes response steps io'.diagnostics
          × (length steps ≤ budgets.max_effect_steps))
        ⊎ ((e : List Cause) × (io' : Io W IpNet) × (run_http_reducer_loop host budgets request io
              ≡ failed_with e io')
            × Fails host e)
  run_http_reducer_loop-Ended io =
      ends (run_http_reducer_loop host budgets request io) refl
        (run_rule host budgets (λ _. Unit {0}) everything-IsKept request io tt)
    where
      ends :
          (exit : Exit W IpNet)
          → run_http_reducer_loop host budgets request io ≡ exit
          → Outcome host budgets (λ _. Unit {0}) everything-IsKept request exit
          → ((response : Option Value) × (steps : List Step) × (io' : Io W IpNet)
              × (run_http_reducer_loop host budgets request io ≡ returned response steps io')
              × Ended request budgets.max_effect_results_bytes response steps io'.diagnostics
              × (length steps ≤ budgets.max_effect_steps))
            ⊎ ((e : List Cause) × (io' : Io W IpNet) × (run_http_reducer_loop host budgets request
                    io
                  ≡ failed_with e io')
                × Fails host e)
      ends (returned response steps io') e (ended, short, _) =
          inl (response, steps, io', e, ended, short)
      ends (failed_with causes io') e (fails, _) = inr (causes, io', e, fails)
