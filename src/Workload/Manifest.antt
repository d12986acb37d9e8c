-- ===== src/Workload/Manifest.antt =====
-- The documents of a workload, in the order of the source, and the errors of their validation.
use x07_wasm_backend.Common.{ℕ, String, Bool, Option, List, [], ◌∷◌, str_eq, any, not}
use x07_wasm_backend.Common.Result.{Result, bail_if}

pub record ProjectManifest : Type 0 where
  pub schema_version : String
  pub entry : String
  pub module_roots : List String

pub record DomainPackRef : Type 0 where
  pub id : String
  pub display_name : String

pub record ServiceCellEventRuntime : Type 0 where
  pub binding_ref : String
  pub topic : String
  pub consumer_group : String
  pub ack_mode : Option String
  pub max_in_flight : Option ℕ
  pub drain_timeout_seconds : Option ℕ

pub record ServiceCellScheduleRuntime : Type 0 where
  pub cron : String
  pub timezone : Option String
  pub concurrency_policy : Option String
  pub retry_limit : Option ℕ
  pub start_deadline_seconds : Option ℕ
  pub suspend : Option Bool

pub record ServiceCellProbe : Type 0 where
  pub probe_kind : String
  pub path : Option String
  pub port : Option ℕ
  pub command : List String
  pub initial_delay_seconds : Option ℕ
  pub period_seconds : Option ℕ
  pub timeout_seconds : Option ℕ
  pub success_threshold : Option ℕ
  pub failure_threshold : Option ℕ

pub record ServiceCellProbeSet : Type 0 where
  pub startup : Option ServiceCellProbe
  pub readiness : Option ServiceCellProbe
  pub liveness : Option ServiceCellProbe

pub record ServiceCellRollout : Type 0 where
  pub strategy : String
  pub max_unavailable : Option String
  pub max_surge : Option String
  pub canary_percent : Option ℕ

pub record ServiceCellAutoscaling : Type 0 where
  pub min_replicas : ℕ
  pub max_replicas : ℕ
  pub target_cpu_utilization : Option ℕ
  pub target_inflight : Option ℕ

pub record ServiceCellRuntime : Type 0 where
  pub event : Option ServiceCellEventRuntime
  pub schedule : Option ServiceCellScheduleRuntime
  pub probes : Option ServiceCellProbeSet
  pub rollout : Option ServiceCellRollout
  pub autoscaling : Option ServiceCellAutoscaling

pub record ServiceCell : Type 0 where
  pub cell_key : String
  pub cell_kind : String
  pub entry_symbol : String
  pub ingress_kind : String
  pub runtime_class : String
  pub scale_class : String
  pub binding_refs : List String
  pub topology_group : String
  pub runtime : ServiceCellRuntime

pub record ServiceTopologyProfile : Type 0 where
  pub id : String
  pub target_kind : Option String
  pub placement : String

pub record ServiceBinding : Type 0 where
  pub name : String
  pub kind : String
  pub required : Bool
  pub notes : Option String

pub record ServiceManifest : Type 0 where
  pub schema_version : String
  pub service_id : String
  pub display_name : String
  pub domain_pack : DomainPackRef
  pub cells : List ServiceCell
  pub topology_profiles : List ServiceTopologyProfile
  pub resource_bindings : List ServiceBinding
  pub default_trust_profile : Option String

-- A message of `bail!`, with what it shows.
pub record WorkloadError : Type 0 where
  pub message : String
  pub shown : List String

abbrev pub says : String → List String → WorkloadError
says message shown = record { message = message; shown = shown }

-- `names.contains(&name)`
abbrev pub contains_str : List String → String → Bool
contains_str names name = any (λ n. str_eq n name) names

unfoldable pub validate_cell_value : String → String → List String → Result WorkloadError (Unit {0})
validate_cell_value label value allowed =
    bail_if (not (contains_str allowed value)) (says "has unsupported value" (label ∷ value ∷ []))
