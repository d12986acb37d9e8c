-- ===== src/Workload/Preview.antt =====
-- What the topology and the binding requirements say of a manifest.
use x07_wasm_backend.Common.{
  suc, ◌==◌, String, ◌≡◌, ◌≢◌, refl, sym, ap, All, All-map, eq_iff, ◌∙◌, inl, inr, false, List, [],
  ◌∷◌, ◌++◌, map, all, length, str_eq, Bool-cases, arith, if◌then◌else◌,
}
use x07_wasm_backend.Common.Sort.{sort}
use x07_wasm_backend.Common.Result.{ok}
use x07_wasm_backend.Workload.Manifest.{
  ProjectManifest, ServiceManifest, ServiceCell, ServiceBinding, contains_str,
}
use x07_wasm_backend.Workload.Validate.{validate_source_docs}
use x07_wasm_backend.Workload.Accepted.{AreDistinct, validate_source_docs-IsDeployable}
use x07_wasm_backend.Workload.Groups.{values_of}
use x07_wasm_backend.Workload.Grouping.{IsAscending, with_key, groups-IsGrouped}
use x07_wasm_backend.Workload.Topology.{
  group_key, cell_groups, collapse_loop, collapse_or_first, leb_str, references, required_by,
  required_by_cells,
}

-- The cells whose field has the text `k`, in the order of the manifest.
abbrev pub cells_with : (ServiceCell → String) → String → List ServiceCell → List ServiceCell
cells_with field k [] = []
cells_with field k (c ∷ cs) =
    if str_eq (field c) k then c ∷ cells_with field k cs else cells_with field k cs

with_key-cells :
    (field : ServiceCell → String) (k : String) (cells : List ServiceCell)
    → with_key k (map (λ c. (field c, c)) cells) ≡ cells_with field k cells
with_key-cells field k [] = refl
with_key-cells field k (c ∷ cs) = rw (with_key-cells field k cs) refl

-- Only under "split-by-cell" the key of a cell names its group.
group_keys-split :
    (cells : List ServiceCell)
    → map {B = String × ServiceCell} (λ c. (group_key "split-by-cell" c, c)) cells
      ≡ map {B = String × ServiceCell} (λ c. (c.cell_key, c)) cells
group_keys-split [] = refl
group_keys-split (c ∷ cs) = ap (λ t. (c.cell_key, c) ∷ t) (group_keys-split cs)

group_keys-joined :
    (placement : String) (cells : List ServiceCell)
    → str_eq placement "split-by-cell" ≡ false
    → map {B = String × ServiceCell} (λ c. (group_key placement c, c)) cells
      ≡ map {B = String × ServiceCell} (λ c. (c.topology_group, c)) cells
group_keys-joined placement [] h = refl
group_keys-joined placement (c ∷ cs) h =
    rw h (ap (λ t. (c.topology_group, c) ∷ t) (group_keys-joined placement cs h))

no_cells_with :
    (k : String) (cells : List ServiceCell)
    → All (λ n. n ≢ k) (map (λ c. c.cell_key) cells)
    → cells_with (λ c. c.cell_key) k cells ≡ []
no_cells_with k [] h = refl
no_cells_with k (c ∷ cs) (differ, h) = elim (Bool-cases (str_eq c.cell_key k)) [
  | inl e ↦ absurd (differ ((eq_iff c.cell_key k).0 e))
  | inr e ↦ rw e (no_cells_with k cs h)
]

-- A cell in front does not change who is found by the other keys.
AreAlone-cons :
    (c : ServiceCell) (all_cells cells : List ServiceCell)
    → All (λ n. n ≢ c.cell_key) (map (λ d. d.cell_key) cells)
    → All (λ d. cells_with (λ b. b.cell_key) d.cell_key all_cells ≡ d ∷ []) cells
    → All (λ d. cells_with (λ b. b.cell_key) d.cell_key (c ∷ all_cells) ≡ d ∷ []) cells
AreAlone-cons c all_cells [] h g = tt
AreAlone-cons c all_cells (d ∷ ds) (differ, h) (alone, g) = (
  elim (Bool-cases (str_eq c.cell_key d.cell_key)) [
    | inl e ↦ absurd (differ (sym ((eq_iff c.cell_key d.cell_key).0 e)))
    | inr e ↦ rw e alone
  ],
  AreAlone-cons c all_cells ds h g,
)

AreDistinct-alone :
    (cells : List ServiceCell)
    → AreDistinct (map (λ c. c.cell_key) cells)
    → All (λ c. cells_with (λ b. b.cell_key) c.cell_key cells ≡ c ∷ []) cells
AreDistinct-alone [] d = tt
AreDistinct-alone (c ∷ cs) (AreDistinct.extend differ distinct) = (
  rw ((eq_iff c.cell_key c.cell_key).1 refl) (ap (λ t. c ∷ t) (no_cells_with c.cell_key cs differ)),
  AreAlone-cons c cs cs differ (AreDistinct-alone cs distinct),
)

-- The topology preview of an accepted manifest under the placement "split-by-cell" has every cell alone in
-- the group of its own key. Under any other placement the cells with one topology group stand together, in
-- the order of the manifest, and no key of a group comes twice.
pub cell_groups-alone :
    (project : ProjectManifest) (manifest : ServiceManifest) (placement k : String)
    → validate_source_docs project manifest ≡ ok tt
    → str_eq placement "split-by-cell" ≡ false
    → All
        (λ c. values_of c.cell_key (cell_groups "split-by-cell" manifest.cells) ≡ c ∷ [])
        manifest.cells
      × (values_of k (cell_groups placement manifest.cells)
          ≡ cells_with (λ c. c.topology_group) k manifest.cells)
      × IsAscending (cell_groups placement manifest.cells)
unfolding cell_groups
cell_groups-alone project manifest placement k accepted other =
    let cells = manifest.cells in
    let (distinct, _) = validate_source_docs-IsDeployable project manifest accepted in
    let (up, grouped) = groups-IsGrouped (map (λ c. (group_key placement c, c)) cells) in
    (
      All-map _ _ cells
          (λ c alone.
            (groups-IsGrouped (map (λ d. (group_key "split-by-cell" d, d)) cells)).1 c.cell_key
            ∙ (ap (with_key c.cell_key) (group_keys-split cells)
                ∙ (with_key-cells (λ b. b.cell_key) c.cell_key cells ∙ alone)))
          (AreDistinct-alone cells distinct),
      grouped k
          ∙ (ap (with_key k) (group_keys-joined placement cells other)
              ∙ with_key-cells (λ b. b.topology_group) k cells),
      up,
    )

-- The keys of the cells that refer to a binding, once for each reference.
abbrev pub uses_of : String → ServiceCell → List String → List String
uses_of name c [] = []
uses_of name c (r ∷ rs) =
    if str_eq r name then c.cell_key ∷ uses_of name c rs else uses_of name c rs

abbrev pub users_of : String → List ServiceCell → List String
users_of name [] = []
users_of name (c ∷ cs) = uses_of name c c.binding_refs ++ users_of name cs

with_key-append :
    (k : String) (xs ys : List (String × String))
    → with_key k (xs ++ ys) ≡ with_key k xs ++ with_key k ys
with_key-append k [] ys = refl
with_key-append k ((key, v) ∷ xs) ys = elim (Bool-cases (str_eq key k)) [
  | inl e ↦ rw e (ap (λ t. v ∷ t) (with_key-append k xs ys))
  | inr e ↦ rw e (with_key-append k xs ys)
]

with_key-uses :
    (name : String) (c : ServiceCell) (refs : List String)
    → with_key name (map (λ r. (r, c.cell_key)) refs) ≡ uses_of name c refs
with_key-uses name c [] = refl
with_key-uses name c (r ∷ rs) = rw (with_key-uses name c rs) refl

with_key-references :
    (name : String) (cells : List ServiceCell)
    → with_key name (references cells) ≡ users_of name cells
with_key-references name [] = refl
with_key-references name (c ∷ cs) =
    with_key-append name (map (λ r. (r, c.cell_key)) c.binding_refs) (references cs)
    ∙ rw (with_key-uses name c c.binding_refs) (rw (with_key-references name cs) refl)

-- The document of a binding lists, in order, the keys of the cells that refer to it, once for each reference.
pub required_by_cells-users :
    (cells : List ServiceCell) (binding : ServiceBinding)
    → required_by_cells cells binding ≡ sort leb_str (users_of binding.name cells)
unfolding required_by_cells required_by
required_by_cells-users cells binding =
    ap (sort leb_str) (
      (groups-IsGrouped (references cells)).1 binding.name ∙ with_key-references binding.name cells)

-- Two values that were seen are not one.
collapse_mixed :
    (a b first : String) (seen vs : List String) → collapse_loop (a ∷ b ∷ seen) first vs ≡ "mixed"
unfolding collapse_loop
collapse_mixed a b first seen [] =
    let e : (suc (suc (length seen)) == 1) ≡ false = ground arith in rw e refl
collapse_mixed a b first seen (v ∷ vs) = elim (Bool-cases (contains_str (a ∷ b ∷ seen) v)) [
  | inl e ↦ rw (collapse_loop, e) (collapse_mixed a b first seen vs)
  | inr e ↦ rw (collapse_loop, e) (collapse_mixed v a first (b ∷ seen) vs)
]

collapse_same :
    (s : String) (vs : List String)
    → collapse_loop (s ∷ []) s vs ≡ (if all (λ v. str_eq s v) vs then s else "mixed")
unfolding collapse_loop
collapse_same s [] = refl
collapse_same s (v ∷ vs) = elim (Bool-cases (str_eq s v)) [
  | inl e ↦ rw (collapse_loop, e) (collapse_same s vs)
  | inr e ↦ rw (collapse_loop, e) (collapse_mixed v s s [] vs)
]

-- The class of a group is that of its cells where they all have one, and otherwise "mixed".
pub collapse_or_first_cases :
    (v : String) (vs : List String)
    → collapse_or_first (v ∷ vs) ≡ (if all (λ w. str_eq v w) vs then v else "mixed")
unfolding collapse_or_first collapse_loop
collapse_or_first_cases v vs = collapse_same v vs
