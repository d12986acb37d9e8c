-- ===== src/Workload/Describe.antt =====
-- workload/surface.rs: the starters of embedded kernels and the description of a workload. A document's
-- entries are in the order of the source.
use Prim.Native.String.{◌++◌ as append}
use x07_wasm_backend.Common.{String, not, List, [], ◌∷◌, map, str_eq, if◌then◌else◌}
use x07_wasm_backend.Common.Result.{Result, ok, err}
use x07_wasm_backend.Json.{Value, null, string, array, object, of_list, of_entries}
use x07_wasm_backend.Workload.Manifest.{ServiceCell, WorkloadError, says, contains_str}
use x07_wasm_backend.Workload.Topology.{
  WorkloadSource, strings, opt_string, nat, default_target_kind,
}

abbrev starter_doc : WorkloadSource → ServiceCell → String × Value
starter_doc source cell = (
  cell.cell_key,
  object (
      of_entries (
        ("schema_version", string "x07.embedded.kernel.starter@0.1.0")
        ∷ ("service_id", string source.manifest.service_id)
        ∷ ("cell_key", string cell.cell_key)
        ∷ ("cell_kind", string cell.cell_kind)
        ∷ ("entry_symbol", string cell.entry_symbol)
        ∷ ("ingress_kind", string cell.ingress_kind)
        ∷ ("runtime_class", string cell.runtime_class)
        ∷ ("scale_class", string cell.scale_class)
        ∷ ("topology_group", string cell.topology_group)
        ∷ (
          "project",
          object (
              of_entries (
                ("entry", string source.project.entry)
                ∷ ("module_roots", strings source.project.module_roots)
                ∷ [])),
        )
        ∷ [])),
)

-- The loop over the cells, which keeps those that are embedded kernels.
unfoldable pub starter_docs : WorkloadSource → List ServiceCell → List (String × Value)
starter_docs source [] = []
starter_docs source (cell ∷ cells) =
    if str_eq cell.runtime_class "embedded-kernel"
    then starter_doc source cell ∷ starter_docs source cells
    else starter_docs source cells

unfoldable pub embedded_kernel_starter_docs : WorkloadSource → List (String × Value)
unfolding starter_docs
embedded_kernel_starter_docs source = starter_docs source source.manifest.cells

-- `format!("{}.{}", service_id, cell_key)`
abbrev cell_id : String → String → String
cell_id service_id cell_key = append service_id (append "." cell_key)

abbrev pub manifest_cell : WorkloadSource → ServiceCell → Value
manifest_cell source cell = object (
    of_entries (
      ("cell_id", string (cell_id source.manifest.service_id cell.cell_key))
      ∷ ("cell_key", string cell.cell_key)
      ∷ ("cell_kind", string cell.cell_kind)
      ∷ ("ingress_kind", string cell.ingress_kind)
      ∷ ("runtime_class", string cell.runtime_class)
      ∷ ("scale_class", string cell.scale_class)
      ∷ ("topology_group", string cell.topology_group)
      ∷ ("binding_refs", strings cell.binding_refs)
      ∷ []))

abbrev pub manifest_cells : WorkloadSource → List Value
manifest_cells source = map (manifest_cell source) source.manifest.cells

unfoldable pub workload_describe_doc : WorkloadSource → String → Result WorkloadError Value
unfolding default_target_kind
workload_describe_doc source view =
    if not (contains_str ("summary" ∷ "full" ∷ []) view)
    then err (says "unsupported inspect view" (view ∷ []))
    else ok (
        object (
          of_entries (
            ("schema_version", string "lp.workload.describe.result@0.1.0")
            ∷ ("view", string view)
            ∷ ("workload_id", string source.manifest.service_id)
            ∷ ("display_name", string source.manifest.display_name)
            ∷ (
              "scope",
              object (
                  of_entries (
                    ("org_id", string "local")
                    ∷ ("project_id", string source.manifest.domain_pack.id)
                    ∷ ("environment_id", null)
                    ∷ [])),
            )
            ∷ ("default_target_kind", string (default_target_kind source))
            ∷ ("default_trust_profile", opt_string source.manifest.default_trust_profile)
            ∷ ("cells", array (of_list (manifest_cells source)))
            ∷ ("generated_unix_ms", nat 0)
            ∷ [])))
