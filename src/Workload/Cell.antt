-- ===== src/Workload/Cell.antt =====
-- The validation of a cell's runtime.
use x07_wasm_backend.Common.{
  ℕ, String, Bool, true, false, not, ◌&&◌, ◌||◌, Option, none, some, List, [], ◌∷◌, str_eq, ltb,
  ◌==◌, any, all, codes, has_prefix, has_suffix, is_digit, trim, is_blank, take, length, ◌-◌,
  if◌then◌else◌,
}
use x07_wasm_backend.Common.Result.{Result, ok, err, ◌>>=◌, ◌>>◌, bail_if, or_error}
use x07_wasm_backend.Workload.Manifest.{
  ServiceCell, ServiceCellEventRuntime, ServiceCellScheduleRuntime, ServiceCellProbe,
  ServiceCellProbeSet, ServiceCellRollout, ServiceCellAutoscaling, WorkloadError, says,
  contains_str, validate_cell_value,
}

-- `s.trim().is_empty()`
abbrev pub blank : String → Bool
blank s = is_blank s

-- The names of the bindings with their kinds.
abbrev pub BindingNames : Type 0
BindingNames = List (String × String)

abbrev pub kind_of : BindingNames → String → Option String
kind_of [] name = none
kind_of ((n, kind) ∷ rest) name = if str_eq n name then some kind else kind_of rest name

abbrev pub is_empty {ℓ} : {A : Type ℓ} → List A → Bool
is_empty [] = true
is_empty (_ ∷ _) = false

-- An optional value and its check.
abbrev pub when_some {ℓ} :
    {A : Type ℓ}
    → Option A
    → (A → Result WorkloadError (Unit {0}))
    → Result WorkloadError (Unit {0})
when_some none check = ok tt
when_some (some a) check = check a

abbrev pub is_some {ℓ} : {A : Type ℓ} → Option A → Bool
is_some none = false
is_some (some _) = true

module _ (cell : ServiceCell) where
  abbrev pub about_cell : String → WorkloadError
  about_cell message = says message (cell.cell_key ∷ [])

  unfoldable pub check_event_kind : Option String → Result WorkloadError (Unit {0})
  check_event_kind (some kind) =
      bail_if (not (str_eq kind "amqp" || str_eq kind "kafka"))
        (says "runtime.event.binding_ref must reference amqp or kafka" (cell.cell_key ∷ kind ∷ []))
  check_event_kind none = err (about_cell "runtime.event.binding_ref references an unknown binding")

  unfoldable pub validate_event_runtime :
      ServiceCellEventRuntime → BindingNames → Result WorkloadError (Unit {0})
  unfolding check_event_kind validate_cell_value
  validate_event_runtime event binding_names = do
    bail_if (blank event.binding_ref) (about_cell "runtime.event.binding_ref must not be empty")
    bail_if (not (contains_str cell.binding_refs event.binding_ref))
        (about_cell "runtime.event.binding_ref must appear in binding_refs")
    check_event_kind (kind_of binding_names event.binding_ref)
    bail_if (blank event.topic) (about_cell "runtime.event.topic must not be empty")
    bail_if (blank event.consumer_group)
        (about_cell "runtime.event.consumer_group must not be empty")
    when_some event.ack_mode (λ mode. validate_cell_value "ack_mode" mode ("auto" ∷ "manual" ∷ []))

  unfoldable pub validate_schedule_runtime :
      ServiceCellScheduleRuntime → Result WorkloadError (Unit {0})
  unfolding validate_cell_value
  validate_schedule_runtime schedule = do
    bail_if (blank schedule.cron) (about_cell "runtime.schedule.cron must not be empty")
    when_some schedule.timezone (λ timezone.
        bail_if (blank timezone)
          (about_cell "runtime.schedule.timezone must not be empty when provided"))
    when_some schedule.concurrency_policy (λ policy.
        validate_cell_value "concurrency_policy" policy ("allow" ∷ "forbid" ∷ "replace" ∷ []))

  abbrev pub about_probe : String → String → WorkloadError
  about_probe label message = says message (cell.cell_key ∷ label ∷ [])

  unfoldable pub check_http_probe : String → ServiceCellProbe → Result WorkloadError (Unit {0})
  check_http_probe label probe = do
    path ← or_error (about_probe label "requires path for http probes") probe.path
    bail_if (blank path || not (has_prefix (b'/' ∷ []) (codes path)))
        (about_probe label "path must start with '/'")
    bail_if (not (is_empty probe.command))
        (about_probe label "must not set command for http probes")

  unfoldable pub check_exec_probe : String → ServiceCellProbe → Result WorkloadError (Unit {0})
  check_exec_probe label probe = do
    bail_if (is_empty probe.command || any blank probe.command)
        (about_probe label "command must contain non-empty entries")
    bail_if (is_some probe.path || is_some probe.port)
        (about_probe label "must not set path or port for exec probes")

  -- The check of the kind leaves two: the branch that the source marks unreachable is the second one here.
  unfoldable pub validate_probe : String → ServiceCellProbe → Result WorkloadError (Unit {0})
  unfolding check_http_probe check_exec_probe validate_cell_value
  validate_probe label probe = do
    validate_cell_value "probe_kind" probe.probe_kind ("http" ∷ "exec" ∷ [])
    if str_eq probe.probe_kind "http"
        then check_http_probe label probe
        else check_exec_probe label probe

  -- `!percent.is_empty()` for what is before a percent sign, and digits alone in both cases.
  unfoldable pub step_value_valid : List ℕ → Bool
  step_value_valid trimmed =
      if has_suffix (b'%' ∷ []) trimmed
      then not (is_empty (take (length trimmed - 1) trimmed))
        && all is_digit (take (length trimmed - 1) trimmed)
      else all is_digit trimmed

  unfoldable pub validate_rollout_step_value : String → String → Result WorkloadError (Unit {0})
  unfolding step_value_valid
  validate_rollout_step_value label value = do
    bail_if (blank value) (says "must not be empty" (cell.cell_key ∷ label ∷ []))
    bail_if (not (step_value_valid (trim (codes value))))
        (says "must be a decimal count or percentage string" (cell.cell_key ∷ label ∷ []))

  -- `matches!(cell.ingress_kind.as_str(), "http" | "event")`
  abbrev pub http_or_event : Bool
  http_or_event = str_eq cell.ingress_kind "http" || str_eq cell.ingress_kind "event"

  unfoldable pub validate_rollout : ServiceCellRollout → Result WorkloadError (Unit {0})
  unfolding validate_rollout_step_value validate_cell_value
  validate_rollout rollout = do
    validate_cell_value "rollout strategy" rollout.strategy
        ("rolling" ∷ "canary-lite" ∷ "recreate" ∷ [])
    bail_if (str_eq rollout.strategy "canary-lite" && not http_or_event)
        (about_cell "only supports canary-lite rollout for http or event ingress")
    when_some rollout.max_unavailable (λ value. validate_rollout_step_value "max_unavailable" value)
    when_some rollout.max_surge (λ value. validate_rollout_step_value "max_surge" value)
    when_some rollout.canary_percent (λ percent.
        bail_if ((percent == 0) || ltb 100 percent)
          (about_cell "runtime.rollout.canary_percent must be between 1 and 100"))

  unfoldable pub validate_autoscaling : ServiceCellAutoscaling → Result WorkloadError (Unit {0})
  validate_autoscaling autoscaling = do
    bail_if (not http_or_event)
        (about_cell "only supports autoscaling hints for http or event ingress")
    bail_if (ltb autoscaling.max_replicas autoscaling.min_replicas)
        (about_cell "runtime.autoscaling min_replicas must be <= max_replicas")
    bail_if
        (not (is_some autoscaling.target_cpu_utilization)
          && not (is_some autoscaling.target_inflight))
        (about_cell "runtime.autoscaling must define target_cpu_utilization or target_inflight")
    when_some autoscaling.target_cpu_utilization (λ target.
        bail_if ((target == 0) || ltb 100 target)
          (about_cell "runtime.autoscaling target_cpu_utilization must be between 1 and 100"))

  unfoldable pub check_event : Bool → BindingNames → Result WorkloadError (Unit {0})
  unfolding validate_event_runtime
  check_event true binding_names =
      or_error (about_cell "requires runtime.event for event ingress") cell.runtime.event
      >>= λ event. validate_event_runtime event binding_names
  check_event false binding_names =
      bail_if (is_some cell.runtime.event)
        (about_cell "must not declare runtime.event unless ingress_kind is event")

  unfoldable pub check_schedule : Bool → Result WorkloadError (Unit {0})
  unfolding validate_schedule_runtime
  check_schedule true =
      or_error (about_cell "requires runtime.schedule for schedule ingress") cell.runtime.schedule
      >>= validate_schedule_runtime
  check_schedule false =
      bail_if (is_some cell.runtime.schedule)
        (about_cell "must not declare runtime.schedule unless ingress_kind is schedule")

  unfoldable pub check_probes : ServiceCellProbeSet → Result WorkloadError (Unit {0})
  unfolding validate_probe
  check_probes probes = do
    when_some probes.startup (validate_probe "startup")
    when_some probes.readiness (validate_probe "readiness")
    when_some probes.liveness (validate_probe "liveness")

  unfoldable pub validate_cell_runtime : BindingNames → Result WorkloadError (Unit {0})
  unfolding check_event check_schedule check_probes validate_rollout validate_autoscaling
  validate_cell_runtime binding_names = do
    check_event (str_eq cell.ingress_kind "event") binding_names
    check_schedule (str_eq cell.ingress_kind "schedule")
    when_some cell.runtime.probes check_probes
    when_some cell.runtime.rollout validate_rollout
    when_some cell.runtime.autoscaling validate_autoscaling
