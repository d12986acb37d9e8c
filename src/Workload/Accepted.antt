-- ===== src/Workload/Accepted.antt =====
-- What an accepted manifest promises to the code that deploys it.
use x07_wasm_backend.Common.{
  String, ◌≡◌, ◌≢◌, refl, sym, ◌⊎◌, inl, inr, true, false, not, Option, none, some, List, [], ◌∷◌,
  map, str_eq, eq_iff, All, Any, any_iff, here, there, All-map, some-injective, Bool-cases, arith,
}
use x07_wasm_backend.Common.Result.{
  ok, bail_if, bind-eq-ok, bail_if-eq-ok, or_error-eq-ok, ok-injective, then-eq-ok,
}
use x07_wasm_backend.Workload.Manifest.{
  ProjectManifest, ServiceManifest, ServiceCell, ServiceBinding, ServiceCellEventRuntime,
  contains_str,
}
use x07_wasm_backend.Workload.Cell.{
  BindingNames, kind_of, is_some, blank, check_event, check_event_kind, validate_event_runtime,
  validate_cell_runtime,
}
use x07_wasm_backend.Workload.Validate.{
  check_bindings, check_refs, check_key, check_cells, validate_source_docs, validate_binding_kind,
}

-- The names are pairwise different.
pub data AreDistinct : List String → Type 0 where
  empty : AreDistinct []
  extend :
      {name : String} {names : List String}
      → All (λ n. n ≢ name) names
      → AreDistinct names
      → AreDistinct (name ∷ names)

-- A binding of the manifest has the name and the kind.
abbrev pub Declares : List ServiceBinding → String → String → Type 0
Declares bindings name kind = Any (λ b. (b.name ≡ name) × (b.kind ≡ kind)) bindings

-- A cell that events enter names a broker among its own bindings, which the manifest declares as one.
pub record HasBroker (bindings : List ServiceBinding) (cell : ServiceCell) : Type 0 where
  pub event : ServiceCellEventRuntime
  pub present : cell.runtime.event ≡ some event
  pub listed : Any (λ r. r ≡ event.binding_ref) cell.binding_refs
  pub kind : String
  pub declared : Declares bindings event.binding_ref kind
  pub broker : (kind ≡ "amqp") ⊎ (kind ≡ "kafka")

pub record IsDeployable (bindings : List ServiceBinding) (cell : ServiceCell) : Type 0 where
  pub resolved : All (λ r. (kind : String) × Declares bindings r kind) cell.binding_refs
  pub fed : (cell.ingress_kind ≢ "event") ⊎ HasBroker bindings cell

-- The names that the loop collects are declared.
abbrev AreDeclared : List ServiceBinding → BindingNames → Type 0
AreDeclared bindings names = All (λ n. Declares bindings n.0 n.1) names

found :
    (bindings : List ServiceBinding) (names : BindingNames) (name kind : String)
    → AreDeclared bindings names
    → kind_of names name ≡ some kind
    → Declares bindings name kind
found bindings [] name kind d h = cc
found bindings ((n, k) ∷ rest) name kind d h = elim (Bool-cases (str_eq n name)) [
  | inl e ↦
      let same_name : n ≡ name = (eq_iff n name).0 e in
      let same_kind : k ≡ kind = some-injective (rw e at h) in
      rw (sym same_name) (rw (sym same_kind) d.0)
  | inr e ↦ found bindings rest name kind d.1 (rw e at h)
]

-- The bindings declare themselves.
self_declared :
    (bindings : List ServiceBinding) → All (λ b. Declares bindings b.name b.kind) bindings
self_declared [] = tt
self_declared (b ∷ bs) = (
  here (refl, refl),
  All-map (λ c. Declares bs c.name c.kind) (λ c. Declares (b ∷ bs) c.name c.kind) bs
      (λ c d. there d) (self_declared bs),
)

AreDeclared-of_bindings :
    (all_bindings bs : List ServiceBinding) (names out : BindingNames)
    → All (λ b. Declares all_bindings b.name b.kind) bs
    → AreDeclared all_bindings names
    → check_bindings bs names ≡ ok out
    → AreDeclared all_bindings out
unfolding check_bindings
AreDeclared-of_bindings all_bindings [] names out _ d h = rw (sym (ok-injective h)) d
AreDeclared-of_bindings all_bindings (b ∷ bs) names out self d h =
    let (_, h₁) = then-eq-ok (bail_if (blank b.name) _) _ h in
    let (_, h₂) = then-eq-ok (bail_if (is_some (kind_of names b.name)) _) _ h₁ in
    let (_, h₃) = then-eq-ok (validate_binding_kind b.kind) _ h₂ in
    AreDeclared-of_bindings all_bindings bs ((b.name, b.kind) ∷ names) out self.1 (self.0, d) h₃

is_some-exists : (o : Option String) → not (is_some o) ≡ false → (kind : String) × (o ≡ some kind)
is_some-exists none h = cc
is_some-exists (some kind) h = (kind, refl)

resolved_refs :
    (bindings : List ServiceBinding) (names : BindingNames) (key : String) (refs : List String)
    → AreDeclared bindings names
    → check_refs key names refs ≡ ok tt
    → All (λ r. (kind : String) × Declares bindings r kind) refs
unfolding check_refs
resolved_refs bindings names key [] d h = tt
resolved_refs bindings names key (r ∷ rs) d h =
    let (known, rest) = then-eq-ok _ _ h in
    let (kind, e) = is_some-exists (kind_of names r) (bail_if-eq-ok _ _ known) in
    ((kind, found bindings names r kind d e), resolved_refs bindings names key rs d rest)

broker_kind :
    (cell : ServiceCell) (o : Option String)
    → check_event_kind cell o ≡ ok tt
    → (kind : String) × (o ≡ some kind) × ((kind ≡ "amqp") ⊎ (kind ≡ "kafka"))
unfolding check_event_kind
broker_kind cell none h = cc
broker_kind cell (some kind) h = (
  kind,
  refl,
  elim (Bool-cases (str_eq kind "amqp")) [
    | inl e ↦ inl ((eq_iff kind "amqp").0 e)
    | inr e ↦ elim (Bool-cases (str_eq kind "kafka")) [
      | inl f ↦ inr ((eq_iff kind "kafka").0 f)
      | inr f ↦ cc (rw (e, f) at h)
    ]
  ],
)

HasBroker-of_event :
    (bindings : List ServiceBinding) (names : BindingNames) (cell : ServiceCell)
    → AreDeclared bindings names
    → check_event cell true names ≡ ok tt
    → HasBroker bindings cell
unfolding check_event validate_event_runtime
HasBroker-of_event bindings names cell d h =
    let (event, present, h₁) = bind-eq-ok _ _ h in
    let (_, h₂) = then-eq-ok _ _ h₁ in
    let (listed, h₃) = then-eq-ok _ _ h₂ in
    let (brokered, _) = then-eq-ok _ _ h₃ in
    let (kind, e, broker) = broker_kind cell (kind_of names event.binding_ref) brokered in
    record {
      event = event;
      present = or_error-eq-ok _ _ present;
      listed = listed_of event (bail_if-eq-ok _ _ listed);
      kind = kind;
      declared = found bindings names event.binding_ref kind d e;
      broker = broker;
    }
  where
    listed_of :
        (event : ServiceCellEventRuntime)
        → not (contains_str cell.binding_refs event.binding_ref) ≡ false
        → Any (λ r. r ≡ event.binding_ref) cell.binding_refs
    listed_of event h =
        (any_iff (λ r. str_eq r event.binding_ref) (λ r. r ≡ event.binding_ref)
            (λ r. eq_iff r event.binding_ref) cell.binding_refs).0
          (ground arith)

fed_of_runtime :
    (bindings : List ServiceBinding) (names : BindingNames) (cell : ServiceCell)
    → AreDeclared bindings names
    → validate_cell_runtime cell names ≡ ok tt
    → (cell.ingress_kind ≢ "event") ⊎ HasBroker bindings cell
unfolding validate_cell_runtime
fed_of_runtime bindings names cell d h =
    let (checked, _) = then-eq-ok (check_event cell (str_eq cell.ingress_kind "event") names) _ h in
    elim (Bool-cases (str_eq cell.ingress_kind "event")) [
      | inl e ↦ inr (HasBroker-of_event bindings names cell d (rw e at checked))
      | inr e ↦ inl (λ same. let yes = (eq_iff cell.ingress_kind "event").1 same in cc)
    ]

apart :
    (key : String) (seen others : List String)
    → All (λ k. contains_str (key ∷ seen) k ≡ false) others
    → All (λ k. k ≢ key) others × All (λ k. contains_str seen k ≡ false) others
apart key seen [] h = (tt, tt)
apart key seen (k ∷ ks) h =
    let (differ, unseen) = apart key seen ks h.1 in ((not_key, differ), (ground arith, unseen))
  where
    not_key : k ≢ key
    not_key same = let yes = (eq_iff key k).1 (sym same) in ground arith

cells_rule :
    (bindings : List ServiceBinding) (names : BindingNames) (cells : List ServiceCell)
    (seen : List String)
    → AreDeclared bindings names
    → check_cells names cells seen ≡ ok tt
    → All (λ k. contains_str seen k ≡ false) (map (λ c. c.cell_key) cells)
      × AreDistinct (map (λ c. c.cell_key) cells)
      × All (IsDeployable bindings) cells
unfolding check_cells check_key
cells_rule bindings names [] seen d h = (tt, empty, tt)
cells_rule bindings names (cell ∷ cells) seen d h =
    let (key, h₁) = then-eq-ok _ _ h in
    let (_, h₂) = then-eq-ok _ _ h₁ in
    let (refs, h₃) = then-eq-ok _ _ h₂ in
    let (runtime, h₄) = then-eq-ok _ _ h₃ in
    let (_, unseen) = then-eq-ok _ _ key in
    let (later, distinct, deployable) =
      cells_rule bindings names cells (cell.cell_key ∷ seen) d h₄ in
    let (differ, fresh) = apart cell.cell_key seen (map (λ c. c.cell_key) cells) later in
    (
      (bail_if-eq-ok _ _ unseen, fresh),
      extend differ distinct,
      (
        record {
          resolved = resolved_refs bindings names cell.cell_key cell.binding_refs d refs;
          fed = fed_of_runtime bindings names cell d runtime;
        },
        deployable,
      ),
    )

-- A manifest that is accepted has cells with pairwise different keys, and each of them can be wired up:
-- every binding that it refers to is declared, and where events enter it, its event runtime names one of
-- its own bindings, which is declared as an amqp or kafka broker.
pub validate_source_docs-IsDeployable :
    (project : ProjectManifest) (manifest : ServiceManifest)
    → validate_source_docs project manifest ≡ ok tt
    → AreDistinct (map (λ c. c.cell_key) manifest.cells)
      × All (IsDeployable manifest.resource_bindings) manifest.cells
unfolding validate_source_docs
validate_source_docs-IsDeployable project manifest h =
    let (_, h₁) = then-eq-ok _ _ h in
    let (names, collected, h₂) = bind-eq-ok _ _ h₁ in
    let (cells, _) = then-eq-ok _ _ h₂ in
    let declared =
      AreDeclared-of_bindings manifest.resource_bindings manifest.resource_bindings [] names
        (self_declared manifest.resource_bindings) tt collected in
    let (_, distinct, deployable) =
      cells_rule manifest.resource_bindings names manifest.cells [] declared cells in
    (distinct, deployable)
