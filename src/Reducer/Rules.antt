-- ===== src/Reducer/Rules.antt =====
-- Rules for the parts of the loop, for any predicate `K` on what the effects change that the guest's
-- call, an effect and new diagnostics keep.
use x07_wasm_backend.Common.{
  ℕ, suc, ◌≤◌, String, ◌≡◌, refl, ap, Bool, true, Option, none, some, List, [], ◌∷◌, ◌++◌, arith,
  inl, inr, any, length, ltb, Bool-cases,
}
use x07_wasm_backend.Common.Result.{Result, ok, err, ◌>>=◌}
use x07_wasm_backend.Json.{Value}
use x07_wasm_backend.Diag
use x07_wasm_backend.Diag.{Diagnostic, Stage, error, is_error}
use x07_wasm_backend.Limits.{Cause, BudgetExceededKind, classify_budget_exceeded}
use x07_wasm_backend.Reducer.Host.{Host}
use x07_wasm_backend.Reducer.State.{HttpEffectLoopBudgets, Io, push}
use x07_wasm_backend.Reducer.Effects.{execute_effect, effect_result_payload_bytes}
use x07_wasm_backend.Reducer.Loop.{
  Step, Exit, returned, failed_with, has_errors, saturating_add, stop, schema_checked, check_schema,
  call_failed, call_answered, call_with, call_core, frame_parsed, parse_frame, exchange,
  run_effects, loops_exceeded,
}

-- What holds of a result, and what of an error.
abbrev pub Post : {A E : Type 0} → (A → Type 0) → (E → Type 0) → Result E A → Type 0
Post P Q (ok a) = P a
Post P Q (err e) = Q e

pub Post-bind :
    {A B E : Type 0} (P : A → Type 0) (R : B → Type 0) (Q : E → Type 0) (m : Result E A)
    (f : A → Result E B)
    → Post P Q m
    → ((a : A) → P a → Post R Q (f a))
    → Post R Q (m >>= f)
Post-bind P R Q (ok a) f h k = k a h
Post-bind P R Q (err e) f h k = h

any-pushed :
    (p : Diagnostic → Bool) (ds more : List Diagnostic) (d : Diagnostic)
    → p d ≡ true
    → any p ((ds ++ d ∷ []) ++ more) ≡ true
any-pushed p [] more d h = rw h
any-pushed p (x ∷ ds) more d h = ground (arith, any-pushed p ds more d h)

any-last :
    (p : Diagnostic → Bool) (ds : List Diagnostic) (d : Diagnostic)
    → p d ≡ true
    → any p (ds ++ d ∷ []) ≡ true
any-last p [] d h = rw h
any-last p (x ∷ ds) d h = ground (arith, any-last p ds d h)

new-IsError :
    (code : String) (stage : Stage) (message : String)
    → is_error (Diag.new code error stage message).severity ≡ true
unfolding Diag.new
new-IsError code stage message = refl

-- What a predicate needs to hold all through the loop.
pub record IsKept {W IpNet : Type 0} (host : Host W IpNet) (K : Io W IpNet → Type 0) : Type 0 where
  pub by_diagnostics :
      (io : Io W IpNet) (ds : List Diagnostic) → K io → K (record io { diagnostics = ds })
  pub by_call :
      (io : Io W IpNet) (input : List ℕ)
      → K io
      → K (record io { world = (host.call input io.world).1 })
  pub by_effect : (io : Io W IpNet) (eff : Value) → K io → K (execute_effect host eff io).1

-- The schema store or canonical JSON fails with the error, at some document.
pub data Fails {W IpNet : Type 0} (host : Host W IpNet) (e : List Cause) : Type 0 where
  at_schema : (schema : String) (doc : Value) → host.validate schema doc ≡ err e → Fails host e
  at_canonical : (doc : Value) → host.canonical_json_bytes doc ≡ err e → Fails host e

-- The bytes that results hold, as the budget counts them.
abbrev pub payload_from : ℕ → List Value → ℕ
payload_from bytes [] = bytes
payload_from bytes (r ∷ rs) = payload_from (saturating_add bytes (effect_result_payload_bytes r)) rs

module _ {W IpNet : Type 0} (K : Io W IpNet → Type 0) where
  -- The predicate on what comes with a result.
  abbrev pub HoldsAfter : {A : Type 0} → (A × Io W IpNet) → Type 0
  HoldsAfter r = K r.1

  -- Results of effects: one for each, within the budget.
  abbrev pub AreResults :
      HttpEffectLoopBudgets → List Value → ℕ → (List Value × Io W IpNet) → Type 0
  AreResults budgets effs bytes r =
      (length r.0 ≡ length effs)
      × (payload_from bytes r.0 ≤ budgets.max_effect_results_bytes)
      × K r.1

module _ {W IpNet : Type 0} (host : Host W IpNet) (budgets : HttpEffectLoopBudgets)
    (K : Io W IpNet → Type 0) (kept : IsKept host K) (Q : Exit W IpNet → Type 0) (steps : List Step)
    (at_stop : (io : Io W IpNet)
      → K io
      → has_errors io.diagnostics ≡ true
      → Q (returned none steps io))
    (at_failure : (e : List Cause) (io : Io W IpNet)
      → Fails host e
      → K io
      → Q (failed_with e io)) where
  stop_rule :
      {A : Type 0} (P : A → Type 0) (code : String) (stage : Stage) (message : String)
      (more : List Diagnostic) (io : Io W IpNet)
      → K io
      → Post P Q (stop host budgets code stage message more steps io)
  stop_rule P code stage message more io k =
      at_stop _ (kept.by_diagnostics io _ k) (
        any-pushed (λ d. is_error d.severity) io.diagnostics more _
          (new-IsError code stage message))

  schema_checked_rule :
      (schema : String) (doc : Value) (r : Result (List Cause) (List Diagnostic))
      (code message : String) (io : Io W IpNet)
      → host.validate schema doc ≡ r
      → K io
      → Post (λ _. Unit {0}) Q (schema_checked host budgets r code message steps io)
  schema_checked_rule schema doc (err e) code message io h k =
      at_failure e io (at_schema schema doc h) k
  schema_checked_rule schema doc (ok diags) code message io h k =
      elim (Bool-cases (has_errors diags)) [
        | inl e ↦
            rw e (stop_rule {A = Unit {0}} (λ _. Unit {0}) code Stage.parse message diags io k)
        | inr e ↦ rw e tt
      ]

  check_schema_rule :
      (schema : String) (doc : Value) (code message : String) (io : Io W IpNet)
      → K io
      → Post (λ _. Unit {0}) Q (check_schema host budgets schema doc code message steps io)
  unfolding check_schema
  check_schema_rule schema doc code message io k =
      schema_checked_rule schema doc (host.validate schema doc) code message io refl k

  call_failed_rule :
      (e : List Cause) (kind : Option BudgetExceededKind) (io : Io W IpNet)
      → K io
      → Post (HoldsAfter K) Q (call_failed host budgets e kind steps io)
  call_failed_rule e none io k = stop_rule {A = List ℕ × Io W IpNet} (HoldsAfter K) _ _ _ [] io k
  call_failed_rule e (some kind) io k =
      stop_rule {A = List ℕ × Io W IpNet} (HoldsAfter K) _ _ _ [] io k

  call_answered_rule :
      (out : Result (List Cause) (List ℕ)) (io : Io W IpNet)
      → K io
      → Post (HoldsAfter K) Q (call_answered host budgets out steps io)
  call_answered_rule (ok bytes) io k = k
  call_answered_rule (err e) io k = call_failed_rule e (classify_budget_exceeded e) io k

  call_core_rule :
      (dispatch : Value) (io : Io W IpNet)
      → K io
      → Post (HoldsAfter K) Q (call_core host budgets dispatch steps io)
  unfolding call_core
  call_core_rule dispatch io k = sent (host.canonical_json_bytes dispatch) refl
    where
      sent :
          (input : Result (List Cause) (List ℕ))
          → host.canonical_json_bytes dispatch ≡ input
          → Post (HoldsAfter K) Q (call_with host budgets input steps io)
      sent (err e) h = at_failure e io (at_canonical dispatch h) k
      sent (ok input) _ =
          call_answered_rule (host.call input io.world).0 _ (kept.by_call io input k)

  parse_frame_rule :
      (bytes : List ℕ) (io : Io W IpNet)
      → K io
      → Post (λ _. Unit {0}) Q (parse_frame host budgets bytes steps io)
  unfolding parse_frame
  parse_frame_rule bytes io k = parsed (host.from_slice bytes)
    where
      parsed :
          (r : Result String Value) → Post (λ _. Unit {0}) Q (frame_parsed host budgets r steps io)
      parsed (ok frame) = tt
      parsed (err e) = stop_rule {A = Value} (λ _. Unit {0}) _ _ _ [] io k

  -- The rule of an exchange.
  pub exchange_rule :
      (dispatch : Value) (io : Io W IpNet)
      → K io
      → Post (HoldsAfter K) Q (exchange host budgets dispatch steps io)
  unfolding exchange
  exchange_rule dispatch io k =
      Post-bind (λ _. Unit {0}) (HoldsAfter K) Q _ _ (check_schema_rule _ dispatch _ _ io k)
        λ _ _.
          Post-bind (HoldsAfter K) (HoldsAfter K) Q _ _ (call_core_rule dispatch io k) λ out k'.
            Post-bind (λ _. Unit {0}) (HoldsAfter K) Q _ _ (parse_frame_rule out.0 out.1 k')
              λ frame _.
                Post-bind (λ _. Unit {0}) (HoldsAfter K) Q _ _
                  (check_schema_rule _ frame _ _ out.1 k') λ _ _. k'

  -- The rule of a frame's effects.
  pub run_effects_rule :
      (effs : List Value) (bytes : ℕ) (io : Io W IpNet)
      → bytes ≤ budgets.max_effect_results_bytes
      → K io
      → Post (AreResults K budgets effs bytes) Q (run_effects host budgets effs bytes steps io)
  unfolding run_effects
  run_effects_rule [] bytes io h k = (refl, h, k)
  run_effects_rule (eff ∷ effs) bytes io h k =
      let (res, io') = execute_effect host eff io in
      let k' : K io' = kept.by_effect io eff k in
      let bytes' = saturating_add bytes (effect_result_payload_bytes res) in
      elim (Bool-cases (ltb budgets.max_effect_results_bytes bytes')) [
        | inl e ↦ rw e (
            stop_rule {A = List Value × Io W IpNet} (AreResults K budgets (eff ∷ effs) bytes) _ _ _
              [] io' k')
        | inr e ↦ rw e (
            Post-bind (AreResults K budgets effs bytes') (AreResults K budgets (eff ∷ effs) bytes) Q
              _ _ (run_effects_rule effs bytes' io' (ground arith) k')
              λ r p. (ap suc p.0, p.1, p.2))
      ]

module _ {W IpNet : Type 0} (host : Host W IpNet) (budgets : HttpEffectLoopBudgets)
    (K : Io W IpNet → Type 0) (kept : IsKept host K) where
  -- The end of a loop that has no steps left.
  pub at_exhaustion :
      (io : Io W IpNet)
      → K io
      → (has_errors
            (push "X07WASM_BUDGET_EXCEEDED_HTTP_EFFECTS_LOOPS" Stage.run
              (loops_exceeded host budgets)
              io).diagnostics
          ≡ true)
        × K (
            push "X07WASM_BUDGET_EXCEEDED_HTTP_EFFECTS_LOOPS" Stage.run
              (loops_exceeded host budgets)
              io)
  at_exhaustion io k = (
    any-last (λ d. is_error d.severity) io.diagnostics _ (new-IsError _ _ _),
    kept.by_diagnostics io _ k,
  )
