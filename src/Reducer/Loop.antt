-- ===== src/Reducer/Loop.antt =====
-- `run_http_reducer_loop`. The for loop over the steps is a recursion on the steps that are left. A
-- step that leaves the loop gives an `Exit` as its error.
use Prim.Native.Nat.{min}
use Prim.Native.String.{◌++◌ as str_append}
use x07_wasm_backend.Common.{
  ℕ, zero, suc, ◌+◌, ◌-◌, ◌^◌, String, Bool, Option, none, some, List, [], ◌∷◌, ◌++◌, any, ltb,
  if◌then◌else◌,
}
use x07_wasm_backend.Common.Result.{Result, ok, err, ◌>>=◌}
use x07_wasm_backend.Json.{
  Value, null, number, string, object, array, pos_int, no_fields, of_entries, of_list, get,
  as_array, is_null, unwrap_or, and_then,
}
use x07_wasm_backend.Diag.{Diagnostic, Stage, run, parse, is_error}
use x07_wasm_backend.Limits.{
  Cause, BudgetExceededKind, cpu_fuel, wasm_stack, memory, table, classify_budget_exceeded,
}
use x07_wasm_backend.Reducer.Host.{Host}
use x07_wasm_backend.Reducer.State.{HttpEffectLoopBudgets, Io, push}
use x07_wasm_backend.Reducer.Effects.{execute_effect, effect_result_payload_bytes}

-- One entry of the trace: the dispatch that was sent, and the frame that came back.
pub record Step : Type 0 where
  pub env : Value
  pub frame : Value

abbrev pub step_value : Step → Value
step_value s = object (of_entries (("env", s.env) ∷ ("frame", s.frame) ∷ []))

abbrev step_values : List Step → List Value
step_values [] = []
step_values (s ∷ ss) = step_value s ∷ step_values ss

unfoldable pub trace_doc : List Step → Value
trace_doc steps = object (
    of_entries (
      ("v", number (pos_int 1))
      ∷ ("kind", string "x07.http.trace")
      ∷ ("steps", array (of_list (step_values steps)))
      ∷ ("meta", object no_fields)
      ∷ []))

-- What the loop keeps from one step to the next.
pub record LoopState (W IpNet : Type 0) : Type 0 where
  pub steps : List Step
  pub state : Value
  pub effect_results : List Value
  pub io : Io W IpNet

-- The end of the loop: it returns, with a response or without, or an internal error stops it.
pub data Exit (W IpNet : Type 0) : Type 0 where
  returned : Option Value → List Step → Io W IpNet → Exit W IpNet
  failed_with : List Cause → Io W IpNet → Exit W IpNet

unfoldable pub dispatch_of : Value → Value → List Value → Value
dispatch_of state request_envelope effect_results = object (
    of_entries (
      ("v", number (pos_int 1))
      ∷ ("kind", string "x07.http.dispatch")
      ∷ ("state", state)
      ∷ ("request", request_envelope)
      ∷ ("effect_results", array (of_list effect_results))
      ∷ []))

abbrev pub u64_max : ℕ
u64_max = 2 ^ 64 - 1

-- `a.saturating_add(b)`
abbrev pub saturating_add : ℕ → ℕ → ℕ
saturating_add a b = min (a + b) u64_max

abbrev pub budget_code : BudgetExceededKind → String
budget_code cpu_fuel = "X07WASM_BUDGET_EXCEEDED_CPU_FUEL"
budget_code wasm_stack = "X07WASM_BUDGET_EXCEEDED_WASM_STACK"
budget_code memory = "X07WASM_BUDGET_EXCEEDED_MEMORY"
budget_code table = "X07WASM_BUDGET_EXCEEDED_TABLE"

abbrev pub budget_message : BudgetExceededKind → String
budget_message cpu_fuel = "execution exceeded Wasmtime fuel budget"
budget_message wasm_stack = "execution exceeded Wasmtime wasm stack budget"
budget_message memory = "execution exceeded Wasmtime memory budget"
budget_message table = "execution exceeded Wasmtime table budget"

abbrev pub has_errors : List Diagnostic → Bool
has_errors diags = any (λ d. is_error d.severity) diags

-- `frame.get("response")`, unless it is null.
abbrev pub non_null : Option Value → Option Value
non_null none = none
non_null (some v) = if is_null v then none else some v

unfoldable pub response_of : Value → Option Value
response_of frame = non_null (get "response" frame)

abbrev pub effects_of : Value → List Value
effects_of frame = unwrap_or (and_then (get "effects" frame) as_array) []

module _ {W IpNet : Type 0} (host : Host W IpNet) (budgets : HttpEffectLoopBudgets) where
  -- Returns with no response and a diagnostic, with others behind it.
  abbrev pub stop :
      {A : Type 0}
      → String
      → Stage
      → String
      → List Diagnostic
      → List Step
      → Io W IpNet
      → Result (Exit W IpNet) A
  stop code stage message more steps io =
      let io' = push code stage message io in
      err (returned none steps (record io' { diagnostics = io'.diagnostics ++ more }))

  -- The check of a document against its schema, from the schema store's answer.
  abbrev pub schema_checked :
      Result (List Cause) (List Diagnostic)
      → String
      → String
      → List Step
      → Io W IpNet
      → Result (Exit W IpNet) (Unit {0})
  schema_checked (err e) code message steps io = err (failed_with e io)
  schema_checked (ok diags) code message steps io =
      if has_errors diags then stop code parse message diags steps io else ok tt

  unfoldable pub check_schema :
      String → Value → String → String → List Step → Io W IpNet → Result (Exit W IpNet) (Unit {0})
  check_schema schema doc code message steps io =
      schema_checked (host.validate schema doc) code message steps io

  -- What a guest that failed is reported as.
  abbrev pub call_failed :
      List Cause
      → Option BudgetExceededKind
      → List Step
      → Io W IpNet
      → Result (Exit W IpNet) (List ℕ × Io W IpNet)
  call_failed e (some kind) steps io = stop (budget_code kind) run (budget_message kind) [] steps io
  call_failed e none steps io =
      stop "X07WASM_HTTP_REDUCER_CALL_FAILED" run (host.show_causes e) [] steps io

  abbrev pub call_answered :
      Result (List Cause) (List ℕ)
      → List Step
      → Io W IpNet
      → Result (Exit W IpNet) (List ℕ × Io W IpNet)
  call_answered (ok bytes) steps io = ok (bytes, io)
  call_answered (err e) steps io = call_failed e (classify_budget_exceeded e) steps io

  abbrev pub call_with :
      Result (List Cause) (List ℕ)
      → List Step
      → Io W IpNet
      → Result (Exit W IpNet) (List ℕ × Io W IpNet)
  call_with (err e) steps io = err (failed_with e io)
  call_with (ok input) steps io =
      let (out, world) = host.call input io.world in
      call_answered out steps (record io { world = world })

  unfoldable pub call_core :
      Value → List Step → Io W IpNet → Result (Exit W IpNet) (List ℕ × Io W IpNet)
  call_core dispatch steps io = call_with (host.canonical_json_bytes dispatch) steps io

  abbrev pub frame_parsed :
      Result String Value → List Step → Io W IpNet → Result (Exit W IpNet) Value
  frame_parsed (ok frame) steps io = ok frame
  frame_parsed (err e) steps io =
      stop "X07WASM_HTTP_FRAME_SCHEMA_INVALID" parse (str_append "frame is not JSON: " e) [] steps
        io

  unfoldable pub parse_frame : List ℕ → List Step → Io W IpNet → Result (Exit W IpNet) Value
  parse_frame bytes steps io = frame_parsed (host.from_slice bytes) steps io

  -- One exchange with the guest: the frame that it answers to a dispatch.
  unfoldable pub exchange :
      Value → List Step → Io W IpNet → Result (Exit W IpNet) (Value × Io W IpNet)
  unfolding check_schema call_core parse_frame
  exchange dispatch steps io = do
    _ ←
        check_schema "https://x07.io/spec/x07-http.dispatch.schema.json" dispatch
          "X07WASM_HTTP_DISPATCH_SCHEMA_INVALID" "dispatch schema invalid" steps io
    (bytes, io') ← call_core dispatch steps io
    frame ← parse_frame bytes steps io'
    _ ←
        check_schema "https://x07.io/spec/x07-http.frame.schema.json" frame
          "X07WASM_HTTP_FRAME_SCHEMA_INVALID" "frame schema invalid" steps io'
    ok (frame, io')

  abbrev pub results_exceeded : ℕ → String
  results_exceeded bytes = str_append "effect results exceeded budget: bytes=" (
      str_append (host.to_string bytes)
        (str_append " max_effect_results_bytes=" (host.to_string budgets.max_effect_results_bytes)))

  -- The effects of a frame in their order, from the bytes that their results hold so far.
  unfoldable pub run_effects :
      List Value → ℕ → List Step → Io W IpNet → Result (Exit W IpNet) (List Value × Io W IpNet)
  run_effects [] bytes steps io = ok ([], io)
  run_effects (eff ∷ effs) bytes steps io =
      let (res, io') = execute_effect host eff io in
      let bytes' = saturating_add bytes (effect_result_payload_bytes res) in
      let rest = run_effects effs bytes' steps io' in
      if ltb budgets.max_effect_results_bytes bytes'
      then stop "X07WASM_BUDGET_EXCEEDED_HTTP_EFFECT_RESULT_BYTES" run (results_exceeded bytes') []
          steps io'
      else (rest >>= λ done. ok (res ∷ done.0, done.1))

  -- What follows an answer: the end, with the response, or the effects and the next state.
  unfoldable pub continue_with :
      Option Value → Value → List Step → Io W IpNet → Result (Exit W IpNet) (LoopState W IpNet)
  unfolding run_effects
  continue_with (some response) frame steps io = err (returned (some response) steps io)
  continue_with none frame steps io = do
    (results, io') ← run_effects (effects_of frame) 0 steps io
    ok (record {
      steps = steps;
      state = unwrap_or (get "state" frame) null;
      effect_results = results;
      io = io';
    })

  -- The body of the loop.
  unfoldable pub loop_step : Value → LoopState W IpNet → Result (Exit W IpNet) (LoopState W IpNet)
  unfolding exchange continue_with dispatch_of response_of
  loop_step request_envelope ls = do
    let dispatch = dispatch_of ls.state request_envelope ls.effect_results
    (frame, io) ← exchange dispatch ls.steps ls.io
    continue_with (response_of frame) frame
        (ls.steps ++ record { env = dispatch; frame = frame } ∷ []) io

  abbrev pub loops_exceeded : String
  loops_exceeded =
      str_append "effect loop exceeded budget: max_effect_steps="
        (host.to_string budgets.max_effect_steps)

  abbrev pub and_so :
      Result (Exit W IpNet) (LoopState W IpNet) → (LoopState W IpNet → Exit W IpNet) → Exit W IpNet
  and_so (err exit) next = exit
  and_so (ok ls) next = next ls

  unfoldable pub run_steps : ℕ → Value → LoopState W IpNet → Exit W IpNet
  unfolding loop_step
  run_steps zero request_envelope ls =
      returned none ls.steps
        (push "X07WASM_BUDGET_EXCEEDED_HTTP_EFFECTS_LOOPS" run loops_exceeded ls.io)
  run_steps (suc left) request_envelope ls =
      and_so (loop_step request_envelope ls) (run_steps left request_envelope)

  unfoldable pub run_http_reducer_loop : Value → Io W IpNet → Exit W IpNet
  unfolding run_steps
  run_http_reducer_loop request_envelope io =
      run_steps budgets.max_effect_steps request_envelope
        (record { steps = []; state = null; effect_results = []; io = io })
