-- ===== src/Workload/Hints.antt =====
-- The hints of a runtime pack, and the bindings of the manifest.
use x07_wasm_backend.Common.{
  String, ◌≡◌, refl, ◌∙◌, inl, inr, some, List, [], ◌∷◌, map, str_eq, eq_iff, All, here, there,
  All-map, some-injective, Bool-cases, Option-cases,
}
use x07_wasm_backend.Common.Result.{ok}
use x07_wasm_backend.Workload.Manifest.{ProjectManifest, ServiceManifest, ServiceBinding}
use x07_wasm_backend.Workload.Validate.{validate_source_docs}
use x07_wasm_backend.Workload.Accepted.{Declares, IsDeployable, validate_source_docs-IsDeployable}
use x07_wasm_backend.Workload.Pack.{binding_kind_of, hint_kind, binding_probe_hints}

-- A kind that is found is declared.
binding_kind_of-Declares :
    (bindings : List ServiceBinding) (name kind : String)
    → binding_kind_of bindings name ≡ some kind
    → Declares bindings name kind
unfolding binding_kind_of
binding_kind_of-Declares [] name kind h = cc
binding_kind_of-Declares (b ∷ bs) name kind h = elim (Option-cases (binding_kind_of bs name)) [
  | inl e ↦ elim (Bool-cases (str_eq b.name name)) [
    | inl f ↦ here ((eq_iff b.name name).0 f, some-injective (rw (e, f) at h))
    | inr f ↦ cc (rw (e, f) at h)
  ]
  | inr (k, e) ↦ there (binding_kind_of-Declares bs name kind (e ∙ rw e at h))
]

-- A name that is declared is found.
binding_kind_of-found :
    (bindings : List ServiceBinding) (name kind : String)
    → Declares bindings name kind
    → (k : String) × (binding_kind_of bindings name ≡ some k)
unfolding binding_kind_of
binding_kind_of-found [] name kind d = elim d [ ]
binding_kind_of-found (b ∷ bs) name kind (here (same, _)) =
    elim (Option-cases (binding_kind_of bs name)) [
      | inl e ↦ (b.kind, rw e (rw ((eq_iff b.name name).1 same) refl))
      | inr (k, e) ↦ (k, rw e refl)
    ]
binding_kind_of-found (b ∷ bs) name kind (there d) =
    let (k, e) = binding_kind_of-found bs name kind d in (k, rw e refl)

hint_kind-Declares :
    (bindings : List ServiceBinding) (name : String)
    → ((kind : String) × Declares bindings name kind)
    → Declares bindings name (hint_kind bindings name)
unfolding hint_kind
hint_kind-Declares bindings name (kind, d) =
    let (k, e) = binding_kind_of-found bindings name kind d in
    rw e (binding_kind_of-Declares bindings name k e)

hints_of_refs :
    (bindings : List ServiceBinding) (refs : List String)
    → All (λ r. (kind : String) × Declares bindings r kind) refs
    → All {A = String × String}
        (λ h. Declares bindings h.0 h.1)
        (map (λ r. (r, hint_kind bindings r)) refs)
hints_of_refs bindings [] h = tt
hints_of_refs bindings (r ∷ rs) (d, ds) =
    (hint_kind-Declares bindings r d, hints_of_refs bindings rs ds)

-- In the runtime pack of an accepted manifest, each hint of a cell has a binding and the kind that the
-- manifest declares for it: the kind is never "unknown" of a missing binding.
pub binding_probe_hints-Declares :
    (project : ProjectManifest) (manifest : ServiceManifest)
    → validate_source_docs project manifest ≡ ok tt
    → All
        (λ c.
          All {A = String × String}
            (λ h. Declares manifest.resource_bindings h.0 h.1)
            (binding_probe_hints manifest.resource_bindings c))
        manifest.cells
unfolding binding_probe_hints
binding_probe_hints-Declares project manifest h =
    let (_, deployable) = validate_source_docs-IsDeployable project manifest h in
    All-map (IsDeployable manifest.resource_bindings) _ manifest.cells
      (λ c d. hints_of_refs manifest.resource_bindings c.binding_refs d.resolved) deployable
