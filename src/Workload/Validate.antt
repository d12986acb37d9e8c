-- ===== src/Workload/Validate.antt =====
-- `validate_source_docs`. The maps and sets of names that its loops fill are lists, passed along; the map
-- of the bindings has no name twice, since the second one is refused.
use x07_wasm_backend.Common.{
  ℕ, String, Bool, false, not, ◌&&◌, ◌||◌, List, [], ◌∷◌, str_eq, ◌==◌, all, codes, is_alphanumeric,
}
use x07_wasm_backend.Common.Result.{Result, ok, ◌>>=◌, ◌>>◌, bail_if}
use x07_wasm_backend.Workload.Manifest.{
  ProjectManifest, ServiceManifest, ServiceCell, ServiceBinding, ServiceTopologyProfile,
  WorkloadError, says, contains_str, validate_cell_value,
}
use x07_wasm_backend.Workload.Cell.{
  BindingNames, kind_of, is_some, is_empty, blank, when_some, validate_cell_runtime,
}

unfoldable pub validate_binding_kind : String → Result WorkloadError (Unit {0})
unfolding validate_cell_value
validate_binding_kind kind =
    validate_cell_value "binding kind" kind
      ("postgres" ∷ "mysql" ∷ "sqlite" ∷ "redis" ∷ "kafka" ∷ "amqp" ∷ "s3" ∷ "secret" ∷ "otlp" ∷ [])

abbrev pub id_byte : ℕ → Bool
id_byte c = is_alphanumeric c || (c == b'.') || (c == b'_') || (c == b'-')

abbrev pub id_codes_valid : List ℕ → Bool
id_codes_valid [] = false
id_codes_valid (c ∷ cs) = is_alphanumeric c && all id_byte cs

unfoldable pub workload_id_valid : String → Bool
workload_id_valid value = id_codes_valid (codes value)

-- The loop over the bindings, which collects their names and kinds.
unfoldable pub check_bindings :
    List ServiceBinding → BindingNames → Result WorkloadError BindingNames
unfolding validate_binding_kind
check_bindings [] names = ok names
check_bindings (b ∷ bs) names = do
  bail_if (blank b.name) (says "binding name must not be empty" [])
  bail_if (is_some (kind_of names b.name)) (says "duplicate binding name" (b.name ∷ []))
  validate_binding_kind b.kind
  check_bindings bs ((b.name, b.kind) ∷ names)

-- The references of a cell to bindings.
unfoldable pub check_refs : String → BindingNames → List String → Result WorkloadError (Unit {0})
check_refs cell_key names [] = ok tt
check_refs cell_key names (r ∷ rs) = do
  bail_if (not (is_some (kind_of names r))) (says "references unknown binding" (cell_key ∷ r ∷ []))
  check_refs cell_key names rs

-- The words of a cell.
unfoldable pub check_words : ServiceCell → Result WorkloadError (Unit {0})
unfolding validate_cell_value
check_words cell = do
  bail_if (blank cell.entry_symbol) (says "entry_symbol must not be empty" [])
  bail_if (blank cell.topology_group) (says "topology_group must not be empty" [])
  validate_cell_value "cell_kind" cell.cell_kind (
      "api-cell" ∷ "event-consumer" ∷ "scheduled-job" ∷ "policy-service" ∷ "workflow-service"
      ∷ "mcp-tool" ∷ [])
  validate_cell_value "ingress_kind" cell.ingress_kind
      ("http" ∷ "event" ∷ "schedule" ∷ "workflow" ∷ "mcp" ∷ [])
  validate_cell_value "runtime_class" cell.runtime_class
      ("wasm-component" ∷ "native-http" ∷ "native-worker" ∷ "embedded-kernel" ∷ [])
  validate_cell_value "scale_class" cell.scale_class (
      "replicated-http" ∷ "partitioned-consumer" ∷ "singleton-orchestrator" ∷ "leased-worker"
      ∷ "burst-batch" ∷ "embedded-kernel" ∷ [])

unfoldable pub check_key : String → List String → Result WorkloadError (Unit {0})
check_key key seen = do
  bail_if (blank key) (says "cell_key must not be empty" [])
  bail_if (contains_str seen key) (says "duplicate cell_key" (key ∷ []))

-- The loop over the cells, with the keys that it has seen.
unfoldable pub check_cells :
    BindingNames → List ServiceCell → List String → Result WorkloadError (Unit {0})
unfolding check_key check_words check_refs validate_cell_runtime
check_cells names [] seen = ok tt
check_cells names (cell ∷ cells) seen = do
  check_key cell.cell_key seen
  check_words cell
  check_refs cell.cell_key names cell.binding_refs
  validate_cell_runtime cell names
  check_cells names cells (cell.cell_key ∷ seen)

-- The loop over the topology profiles, with the ids that it has seen.
unfoldable pub check_profiles :
    List ServiceTopologyProfile → List String → Result WorkloadError (Unit {0})
unfolding validate_cell_value
check_profiles [] seen = ok tt
check_profiles (p ∷ ps) seen = do
  bail_if (blank p.id) (says "topology profile id must not be empty" [])
  bail_if (contains_str seen p.id) (says "duplicate topology profile id" (p.id ∷ []))
  validate_cell_value "placement" p.placement
      ("co-located" ∷ "split-by-cell" ∷ "embedded-kernel" ∷ [])
  when_some p.target_kind
      (λ kind. validate_cell_value "target_kind" kind ("hosted" ∷ "k8s" ∷ "wasmcloud" ∷ []))
  check_profiles ps (p.id ∷ seen)

-- What comes before the loops.
unfoldable pub check_heads : ProjectManifest → ServiceManifest → Result WorkloadError (Unit {0})
unfolding workload_id_valid
check_heads project manifest = do
  bail_if (blank project.schema_version) (says "project schema_version must not be empty" [])
  bail_if (blank project.entry) (says "project entry must not be empty" [])
  bail_if (is_empty project.module_roots) (says "project module_roots must not be empty" [])
  bail_if (not (str_eq manifest.schema_version "x07.service.manifest@0.1.0"))
      (says "unsupported service manifest schema_version" (manifest.schema_version ∷ []))
  bail_if (not (workload_id_valid manifest.service_id))
      (says "invalid workload_id/service_id" (manifest.service_id ∷ []))
  bail_if (blank manifest.display_name) (says "service display_name must not be empty" [])
  bail_if (blank manifest.domain_pack.id || blank manifest.domain_pack.display_name)
      (says "domain_pack id/display_name must not be empty" [])
  bail_if (is_empty manifest.cells) (says "service manifest must define at least one cell" [])

unfoldable pub validate_source_docs :
    ProjectManifest → ServiceManifest → Result WorkloadError (Unit {0})
unfolding check_heads check_bindings check_cells check_profiles
validate_source_docs project manifest = do
  check_heads project manifest
  names ← check_bindings manifest.resource_bindings []
  check_cells names manifest.cells []
  check_profiles manifest.topology_profiles []
