-- ===== src/Workload/Topology.antt =====
-- workload/surface.rs: the topology of a service, the bindings that its cells require, and the helpers that
-- the documents share.
use x07_wasm_backend.Common.{
  ℕ, String, Bool, true, false, ◌||◌, Option, none, some, List, [], ◌∷◌, ◌++◌, map, any, ltb,
  length, ◌==◌, codes, str_eq, if◌then◌else◌,
}
use x07_wasm_backend.Common.Result.{Result, ok, err}
use x07_wasm_backend.Common.Sort.{sort}
use x07_wasm_backend.Common.TextOrder.{leb_text}
use x07_wasm_backend.Json.{
  Value, null, bool, number, pos_int, string, array, object, of_list, of_entries, unwrap_or,
}
use x07_wasm_backend.Workload.Manifest.{
  ProjectManifest, ServiceManifest, ServiceCell, ServiceBinding, ServiceTopologyProfile,
  WorkloadError, says, contains_str,
}
use x07_wasm_backend.Workload.Groups.{Groups, values_of, push_all}

-- A source whose files are read.
pub record WorkloadSource : Type 0 where
  pub project : ProjectManifest
  pub manifest : ServiceManifest

-- `cells.sort()` on keys.
abbrev pub leb_str : String → String → Bool
leb_str a b = leb_text (codes a) (codes b)

abbrev pub strings : List String → Value
strings ss = array (of_list (map (λ s. string s) ss))

-- `Option<String>` and numbers in `json!`
abbrev pub opt_string : Option String → Value
opt_string none = null
opt_string (some s) = string s

abbrev pub nat : ℕ → Value
nat n = number (pos_int n)

abbrev pub find_target_kind : List ServiceTopologyProfile → Option String
find_target_kind [] = none
find_target_kind (p ∷ ps) = elim p.target_kind [
  | some kind ↦ some kind
  | none ↦ find_target_kind ps
]

unfoldable pub default_target_kind : WorkloadSource → String
default_target_kind source = unwrap_or (find_target_kind source.manifest.topology_profiles) "hosted"

-- The loop of `collapse_or_first` over the values, with the set of those seen and the first one.
unfoldable pub collapse_loop : List String → String → List String → String
collapse_loop seen first [] = if length seen == 1 then first else "mixed"
collapse_loop [] first (v ∷ vs) = collapse_loop (v ∷ []) v vs
collapse_loop (s ∷ ss) first (v ∷ vs) = elim (contains_str (s ∷ ss) v) [
  | true ↦ collapse_loop (s ∷ ss) first vs
  | false ↦ collapse_loop (v ∷ s ∷ ss) first vs
]

unfoldable pub collapse_or_first : List String → String
unfolding collapse_loop
collapse_or_first vs = collapse_loop [] "mixed" vs

abbrev pub group_key : String → ServiceCell → String
group_key placement cell =
    if str_eq placement "split-by-cell" then cell.cell_key else cell.topology_group

-- The groups of `topology_preview_doc`.
unfoldable pub cell_groups : String → List ServiceCell → Groups ServiceCell
cell_groups placement cells = push_all (map (λ c. (group_key placement c, c)) cells) []

abbrev pub enters_by : String → List ServiceCell → Bool
enters_by kind cells = any (λ c. str_eq c.ingress_kind kind) cells

abbrev note_if : Bool → String → List String
note_if b note = if b then note ∷ [] else []

unfoldable pub notes_of : List ServiceCell → List String
notes_of cells =
    note_if (enters_by "http" cells) "ingress required"
    ++ (note_if (enters_by "event" cells) "queue-driven"
        ++ (note_if (enters_by "schedule" cells) "scheduler required"
            ++ note_if (ltb 1 (length cells)) "co-located by topology group"))

unfoldable pub group_doc : String × List ServiceCell → Value
unfolding collapse_or_first notes_of
group_doc (key, cells) = object (
    of_entries (
      ("group_key", string key)
      ∷ ("cell_keys", strings (sort leb_str (map (λ c. c.cell_key) cells)))
      ∷ ("runtime_class", string (collapse_or_first (map (λ c. c.runtime_class) cells)))
      ∷ ("scale_class", string (collapse_or_first (map (λ c. c.scale_class) cells)))
      ∷ (
        "exposure",
        string (
            if any (λ c. str_eq c.ingress_kind "http" || str_eq c.ingress_kind "mcp") cells
            then "public"
            else "none"),
      )
      ∷ ("notes", strings (notes_of cells))
      ∷ []))

unfoldable pub topology_preview_doc : WorkloadSource → String → Option String → String → Value
unfolding cell_groups group_doc
topology_preview_doc source profile_id target_kind placement = object (
    of_entries (
      ("schema_version", string "lp.topology.preview.result@0.1.0")
      ∷ ("workload_id", string source.manifest.service_id)
      ∷ ("profile_id", string profile_id)
      ∷ ("target_kind", string (unwrap_or target_kind "hosted"))
      ∷ ("groups", array (of_list (map group_doc (cell_groups placement source.manifest.cells))))
      ∷ ("generated_unix_ms", nat 0)
      ∷ []))

abbrev pub profile_doc : WorkloadSource → ServiceTopologyProfile → String × Value
profile_doc source p = (p.id, topology_preview_doc source p.id p.target_kind p.placement)

abbrev pub find_profile : String → List ServiceTopologyProfile → Option ServiceTopologyProfile
find_profile id [] = none
find_profile id (p ∷ ps) = if str_eq p.id id then some p else find_profile id ps

abbrev docs_of_profile :
    WorkloadSource
    → String
    → Option ServiceTopologyProfile
    → Result WorkloadError (List (String × Value))
docs_of_profile source id none = err (says "unknown topology profile" (id ∷ []))
docs_of_profile source id (some p) = ok (profile_doc source p ∷ [])

abbrev docs_of_profiles :
    WorkloadSource
    → List ServiceTopologyProfile
    → Option String
    → Result WorkloadError (List (String × Value))
docs_of_profiles source [] preferred =
    ok (("default", topology_preview_doc source "default" (some "hosted") "co-located") ∷ [])
docs_of_profiles source (p ∷ ps) (some id) = docs_of_profile source id (find_profile id (p ∷ ps))
docs_of_profiles source (p ∷ ps) none = ok (map (profile_doc source) (p ∷ ps))

unfoldable pub topology_docs :
    WorkloadSource → Option String → Result WorkloadError (List (String × Value))
unfolding topology_preview_doc
topology_docs source preferred_profile =
    docs_of_profiles source source.manifest.topology_profiles preferred_profile

-- The references of the cells to bindings, in order, each with the key of its cell.
abbrev pub references : List ServiceCell → List (String × String)
references [] = []
references (c ∷ cs) = map (λ r. (r, c.cell_key)) c.binding_refs ++ references cs

unfoldable pub required_by : List ServiceCell → Groups String
required_by cells = push_all (references cells) []

abbrev pub notes_entry : Option String → List (String × Value)
notes_entry none = []
notes_entry (some notes) = ("notes", string notes) ∷ []

-- The cells that a binding document lists.
unfoldable pub required_by_cells : List ServiceCell → ServiceBinding → List String
unfolding required_by
required_by_cells cells binding = sort leb_str (values_of binding.name (required_by cells))

unfoldable pub binding_doc : List ServiceCell → ServiceBinding → Value
unfolding required_by_cells
binding_doc cells b = object (
    of_entries (
      ("name", string b.name)
      ∷ ("kind", string b.kind)
      ∷ ("required_by_cells", strings (required_by_cells cells b))
      ∷ ("required", bool b.required)
      ∷ notes_entry b.notes))

unfoldable pub binding_requirements_doc : WorkloadSource → Value
unfolding binding_doc
binding_requirements_doc source = object (
    of_entries (
      ("schema_version", string "lp.binding.requirements.result@0.1.0")
      ∷ ("workload_id", string source.manifest.service_id)
      ∷ (
        "bindings",
        array (of_list (map (binding_doc source.manifest.cells) source.manifest.resource_bindings)),
      )
      ∷ ("generated_unix_ms", nat 0)
      ∷ []))
