-- ===== src/Workload/Tests.antt =====
-- The validation at a concrete manifest: a service with one cell that events enter.
use x07_wasm_backend.Common.Sort.{sort}
use x07_wasm_backend.Workload.Groups.{before, push, values_of}
use x07_wasm_backend.Workload.Grouping.{IsAscending}
use x07_wasm_backend.Workload.Topology.{cell_groups, collapse_or_first, leb_str, required_by_cells}
use x07_wasm_backend.Workload.Preview.{
  cells_with, cell_groups-alone, users_of, required_by_cells-users, collapse_or_first_cases,
}
use x07_wasm_backend.Workload.Pack.{binding_probe_hints}
use x07_wasm_backend.Workload.Hints.{binding_probe_hints-Declares}
use x07_wasm_backend.Common.{
  String, ◌≡◌, refl, true, none, some, List, [], ◌∷◌, map, all, length, str_eq, All, if◌then◌else◌,
}
use x07_wasm_backend.Common.Result.{ok, err}
use x07_wasm_backend.Workload.Manifest.{
  ProjectManifest, ServiceManifest, ServiceCell, says, validate_cell_value,
}
use x07_wasm_backend.Workload.Validate.{validate_source_docs}
use x07_wasm_backend.Workload.Accepted.{
  AreDistinct, Declares, IsDeployable, validate_source_docs-IsDeployable,
}

abbrev project : ProjectManifest
project = record { schema_version = "x07.project@0.4.0"; entry = "main"; module_roots = "src" ∷ [] }

abbrev consumer : ServiceCell
consumer = record {
  cell_key = "orders";
  cell_kind = "event-consumer";
  entry_symbol = "orders.main";
  ingress_kind = "event";
  runtime_class = "native-worker";
  scale_class = "partitioned-consumer";
  binding_refs = "bus" ∷ [];
  topology_group = "core";
  runtime = record {
    event = some (record {
      binding_ref = "bus";
      topic = "orders";
      consumer_group = "g1";
      ack_mode = some "manual";
      max_in_flight = none;
      drain_timeout_seconds = none;
    });
    schedule = none;
    probes = none;
    rollout = none;
    autoscaling = none;
  };
}

abbrev manifest : String → ServiceManifest
manifest broker = record {
  schema_version = "x07.service.manifest@0.1.0";
  service_id = "shop-1";
  display_name = "Shop";
  domain_pack = record { id = "d"; display_name = "D" };
  cells = consumer ∷ [];
  topology_profiles = [];
  resource_bindings = record { name = "bus"; kind = broker; required = true; notes = none } ∷ [];
  default_trust_profile = none;
}

accepted : validate_source_docs project (manifest "kafka") ≡ ok tt
unfolding validate_source_docs validate_cell_value
accepted = refl

refused :
    validate_source_docs project (manifest "redis")
    ≡ err (says "runtime.event.binding_ref must reference amqp or kafka" ("orders" ∷ "redis" ∷ []))
unfolding validate_source_docs validate_cell_value
refused = refl

validate_source_docs-IsDeployable_example :
    AreDistinct ("orders" ∷ [])
    × All (IsDeployable (manifest "kafka").resource_bindings) (consumer ∷ [])
validate_source_docs-IsDeployable_example =
    validate_source_docs-IsDeployable project (manifest "kafka") accepted

-- A second cell of the same group, entered by HTTP.
abbrev front : ServiceCell
front = record consumer {
  cell_key = "front";
  cell_kind = "api-cell";
  ingress_kind = "http";
  runtime_class = "native-http";
  runtime = record consumer.runtime { event = none };
}

abbrev two_cells : List ServiceCell
two_cells = front ∷ consumer ∷ []

abbrev two_manifest : ServiceManifest
two_manifest = record (manifest "kafka") { cells = two_cells }

two_accepted : validate_source_docs project two_manifest ≡ ok tt
unfolding validate_source_docs validate_cell_value
two_accepted = refl

cell_groups-alone_example :
    All (λ c. values_of c.cell_key (cell_groups "split-by-cell" two_cells) ≡ c ∷ []) two_cells
    × (values_of "core" (cell_groups "co-located" two_cells)
        ≡ cells_with (λ c. c.topology_group) "core" two_cells)
    × IsAscending (cell_groups "co-located" two_cells)
cell_groups-alone_example =
    cell_groups-alone project two_manifest "co-located" "core" two_accepted refl

-- Each cell alone, in the order of the keys, or both in one group.
split : map (λ g. g.0) (cell_groups "split-by-cell" two_cells) ≡ "front" ∷ "orders" ∷ []
unfolding cell_groups push before
split = refl

together : map (λ g. length g.1) (cell_groups "co-located" two_cells) ≡ 2 ∷ []
unfolding cell_groups push before
together = refl

required_by_cells-users_example :
    required_by_cells two_cells
      (record { name = "bus"; kind = "kafka"; required = true; notes = none })
    ≡ sort leb_str (users_of "bus" two_cells)
required_by_cells-users_example =
    required_by_cells-users two_cells
      (record { name = "bus"; kind = "kafka"; required = true; notes = none })

collapse_or_first_cases_example : collapse_or_first ("native-http" ∷ "embedded-kernel" ∷ []) ≡ (
    if all (λ w. str_eq "native-http" w) ("embedded-kernel" ∷ []) then "native-http" else "mixed")
collapse_or_first_cases_example = collapse_or_first_cases "native-http" ("embedded-kernel" ∷ [])

binding_probe_hints-Declares_example :
    All
      (λ c.
        All {A = String × String}
          (λ h. Declares (manifest "kafka").resource_bindings h.0 h.1)
          (binding_probe_hints (manifest "kafka").resource_bindings c))
      (consumer ∷ [])
binding_probe_hints-Declares_example =
    binding_probe_hints-Declares project (manifest "kafka") accepted
