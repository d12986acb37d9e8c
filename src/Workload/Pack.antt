-- ===== src/Workload/Pack.antt =====
-- workload/surface.rs: the cells of a runtime pack.
-- A document's entries are in the order of the source.
use x07_wasm_backend.Common.{
  ℕ, String, Bool, Option, none, some, List, [], ◌∷◌, ◌++◌, map, str_eq, if◌then◌else◌,
}
use x07_wasm_backend.Json.{Value, null, bool, string, array, object, of_list, of_entries, unwrap_or}
use x07_wasm_backend.Workload.Manifest.{
  ServiceCell, ServiceBinding, ServiceCellEventRuntime, ServiceCellScheduleRuntime,
  ServiceCellProbe, ServiceCellProbeSet, ServiceCellRollout, ServiceCellAutoscaling, contains_str,
}
use x07_wasm_backend.Workload.Cell.{blank}
use x07_wasm_backend.Workload.Topology.{WorkloadSource, strings, opt_string, nat}

abbrev opt_nat : Option ℕ → Value
opt_nat none = null
opt_nat (some n) = nat n

abbrev opt_bool : Option Bool → Value
opt_bool none = null
opt_bool (some b) = bool b

-- `a.or(b)`
abbrev pub or_else {ℓ} : {A : Type ℓ} → Option A → Option A → Option A
or_else none b = b
or_else (some a) b = some a

-- `binding_kinds`, a map in which a later binding replaces one of its name.
unfoldable pub binding_kind_of : List ServiceBinding → String → Option String
binding_kind_of [] name = none
binding_kind_of (b ∷ bs) name =
    or_else (binding_kind_of bs name) (if str_eq b.name name then some b.kind else none)

-- `binding_kinds.get(binding_ref).unwrap_or("unknown")`
unfoldable pub hint_kind : List ServiceBinding → String → String
unfolding binding_kind_of
hint_kind bindings binding_ref = unwrap_or (binding_kind_of bindings binding_ref) "unknown"

unfoldable pub probe_port : Option ℕ → ServiceCellProbe → Option ℕ
probe_port override probe =
    if str_eq probe.probe_kind "http" then or_else override probe.port else probe.port

unfoldable pub runtime_probe_doc : Option ServiceCellProbe → Option ℕ → Value
unfolding probe_port
runtime_probe_doc none override = null
runtime_probe_doc (some probe) override = object (
    of_entries (
      ("probe_kind", string probe.probe_kind)
      ∷ ("path", opt_string probe.path)
      ∷ ("port", opt_nat (probe_port override probe))
      ∷ ("command", strings probe.command)
      ∷ ("initial_delay_seconds", opt_nat probe.initial_delay_seconds)
      ∷ ("period_seconds", opt_nat probe.period_seconds)
      ∷ ("timeout_seconds", opt_nat probe.timeout_seconds)
      ∷ ("success_threshold", opt_nat probe.success_threshold)
      ∷ ("failure_threshold", opt_nat probe.failure_threshold)
      ∷ []))

abbrev event_entry : Option ServiceCellEventRuntime → List (String × Value)
event_entry none = []
event_entry (some e) =
    (
      "event",
      object (
          of_entries (
            ("binding_ref", string e.binding_ref)
            ∷ ("topic", string e.topic)
            ∷ ("consumer_group", string e.consumer_group)
            ∷ ("ack_mode", opt_string e.ack_mode)
            ∷ ("max_in_flight", opt_nat e.max_in_flight)
            ∷ ("drain_timeout_seconds", opt_nat e.drain_timeout_seconds)
            ∷ [])),
    )
    ∷ []

abbrev schedule_entry : Option ServiceCellScheduleRuntime → List (String × Value)
schedule_entry none = []
schedule_entry (some s) =
    (
      "schedule",
      object (
          of_entries (
            ("cron", string s.cron)
            ∷ ("timezone", opt_string s.timezone)
            ∷ ("concurrency_policy", opt_string s.concurrency_policy)
            ∷ ("retry_limit", opt_nat s.retry_limit)
            ∷ ("start_deadline_seconds", opt_nat s.start_deadline_seconds)
            ∷ ("suspend", opt_bool s.suspend)
            ∷ [])),
    )
    ∷ []

abbrev probes_entry : Option ℕ → Option ServiceCellProbeSet → List (String × Value)
probes_entry override none = []
probes_entry override (some p) =
    (
      "probes",
      object (
          of_entries (
            ("startup", runtime_probe_doc p.startup override)
            ∷ ("readiness", runtime_probe_doc p.readiness override)
            ∷ ("liveness", runtime_probe_doc p.liveness override)
            ∷ [])),
    )
    ∷ []

abbrev rollout_entry : Option ServiceCellRollout → List (String × Value)
rollout_entry none = []
rollout_entry (some r) =
    (
      "rollout",
      object (
          of_entries (
            ("strategy", string r.strategy)
            ∷ ("max_unavailable", opt_string r.max_unavailable)
            ∷ ("max_surge", opt_string r.max_surge)
            ∷ ("canary_percent", opt_nat r.canary_percent)
            ∷ [])),
    )
    ∷ []

abbrev autoscaling_entry : Option ServiceCellAutoscaling → List (String × Value)
autoscaling_entry none = []
autoscaling_entry (some a) =
    (
      "autoscaling",
      object (
          of_entries (
            ("min_replicas", nat a.min_replicas)
            ∷ ("max_replicas", nat a.max_replicas)
            ∷ ("target_cpu_utilization", opt_nat a.target_cpu_utilization)
            ∷ ("target_inflight", opt_nat a.target_inflight)
            ∷ [])),
    )
    ∷ []

-- `runtime_image.filter(|value| !value.trim().is_empty())`
abbrev pub usable_image : Option String → Option String
usable_image none = none
usable_image (some image) = if blank image then none else some image

abbrev enters_by_http : ServiceCell → Bool
enters_by_http cell = str_eq cell.ingress_kind "http"

-- The port that the probes of a cell are sent to: that of the container, where an image runs.
unfoldable pub http_probe_port_override : Option String → ℕ → ServiceCell → Option ℕ
http_probe_port_override none container_port cell = none
http_probe_port_override (some image) container_port cell =
    if enters_by_http cell then some container_port else none

abbrev image_entries : Option String → ℕ → ServiceCell → List (String × Value)
image_entries none container_port cell = []
image_entries (some image) container_port cell =
    ("execution_kind", string "oci_image")
    ∷ (
      "executable",
      object (
          of_entries (
            ("kind", string "oci_image")
            ∷ ("image", string image)
            ∷ ("container_port", if enters_by_http cell then nat container_port else null)
            ∷ [])),
    )
    ∷ []

unfoldable pub execution_entries : Option String → ℕ → ServiceCell → List (String × Value)
execution_entries image container_port cell =
    if contains_str ("native-http" ∷ "native-worker" ∷ []) cell.runtime_class
    then image_entries image container_port cell
    else if str_eq cell.runtime_class "embedded-kernel"
    then ("execution_kind", string "embedded") ∷ []
    else []

unfoldable pub binding_probe_hints : List ServiceBinding → ServiceCell → List (String × String)
unfolding hint_kind
binding_probe_hints bindings cell = map (λ r. (r, hint_kind bindings r)) cell.binding_refs

abbrev hint_doc : String × String → Value
hint_doc (binding_ref, binding_kind) =
    object (
      of_entries (("binding_ref", string binding_ref) ∷ ("binding_kind", string binding_kind) ∷ []))

unfoldable pub runtime_cell_doc : List ServiceBinding → Option String → ℕ → ServiceCell → Value
unfolding runtime_probe_doc http_probe_port_override execution_entries binding_probe_hints
runtime_cell_doc bindings image container_port cell = object (
    of_entries (
      (("cell_key", string cell.cell_key)
        ∷ ("cell_kind", string cell.cell_kind)
        ∷ ("runtime_class", string cell.runtime_class)
        ∷ ("ingress_kind", string cell.ingress_kind)
        ∷ ("scale_class", string cell.scale_class)
        ∷ ("topology_group", string cell.topology_group)
        ∷ ("binding_refs", strings cell.binding_refs)
        ∷ (
          "binding_probe_hints",
          array (of_list (map hint_doc (binding_probe_hints bindings cell))),
        )
        ∷ [])
      ++ (event_entry cell.runtime.event
          ++ (schedule_entry cell.runtime.schedule
              ++ (probes_entry (http_probe_port_override image container_port cell)
                    cell.runtime.probes
                  ++ (rollout_entry cell.runtime.rollout
                      ++ (autoscaling_entry cell.runtime.autoscaling
                          ++ execution_entries image container_port cell)))))))

unfoldable pub runtime_pack_cells : WorkloadSource → Option String → ℕ → List Value
unfolding runtime_cell_doc
runtime_pack_cells source runtime_image container_port =
    map
      (runtime_cell_doc source.manifest.resource_bindings (usable_image runtime_image)
        container_port)
      source.manifest.cells
