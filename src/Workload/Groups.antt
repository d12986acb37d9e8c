-- ===== src/Workload/Groups.antt =====
-- `groups.entry(key).or_default().push(value)` on a `BTreeMap<String, Vec<_>>`: a list of entries in the
-- order of their keys.
use x07_wasm_backend.Common.{String, Bool, true, false, not, List, [], ◌∷◌, ◌++◌, codes, str_eq}
use x07_wasm_backend.Common.TextOrder.{leb_text}

-- `a < b`
unfoldable pub before : String → String → Bool
before a b = not (leb_text (codes b) (codes a))

abbrev pub Groups : Type 0 → Type 0
Groups A = List (String × List A)

module _ {A : Type 0} where
  unfoldable pub push : String → A → Groups A → Groups A
  push key value [] = (key, value ∷ []) ∷ []
  push key value ((k, values) ∷ rest) = elim (str_eq k key) [
    | true ↦ (k, values ++ value ∷ []) ∷ rest
    | false ↦ elim (before key k) [
      | true ↦ (key, value ∷ []) ∷ (k, values) ∷ rest
      | false ↦ (k, values) ∷ push key value rest
    ]
  ]

  -- The values behind a key, and none where there is no entry.
  unfoldable pub values_of : String → Groups A → List A
  values_of key [] = []
  values_of key ((k, values) ∷ rest) = elim (str_eq k key) [
    | true ↦ values
    | false ↦ values_of key rest
  ]

  -- The loop over the entries to push.
  abbrev pub push_all : List (String × A) → Groups A → Groups A
  push_all [] groups = groups
  push_all ((key, value) ∷ rest) groups = push_all rest (push key value groups)
