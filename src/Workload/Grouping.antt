-- ===== src/Workload/Grouping.antt =====
-- The map that groups values by a key, and the values pushed with each key.

use mathlib.Core.List.{append-nil, append_assoc}
use text.Mathlib.TextEquality.{Char-path}
use x07_wasm_backend.Common.{
  String, ◌≡◌, refl, sym, ap, ◌∙◌, ◌⊎◌, inl, inr, true, false, List, [], ◌∷◌, ◌++◌, codes, str_eq,
  eq_iff, All, Bool-cases, arith, if◌then◌else◌,
}
use x07_wasm_backend.Common.TextOrder.{leb_text, leb_text_total, leb_text_antisym, leb_text_trans}
use x07_wasm_backend.Workload.Groups.{before, Groups, push, values_of, push_all}

codes-injective : (s t : String) → codes s ≡ codes t → s ≡ t
codes-injective String.[] String.[] h = refl
codes-injective String.[] (String.◌∷◌ d t) h = cc
codes-injective (String.◌∷◌ c s) String.[] h = cc
codes-injective (String.◌∷◌ c s) (String.◌∷◌ d t) h =
    let first : c ≡ d = Char-path c d cc in
    let others : s ≡ t = codes-injective s t cc in rw (first, others) refl

before_trans : (a b c : String) → before a b ≡ true → before b c ≡ true → before a c ≡ true
unfolding before
before_trans a b c h g = elim (Bool-cases (leb_text (codes c) (codes a))) [
  | inl e ↦ elim (leb_text_total (codes a) (codes b)) [
    | inl f ↦ let t = leb_text_trans (codes c) (codes a) (codes b) e f in ground arith
    | inr f ↦ ground arith
  ]
  | inr e ↦ ground arith
]

before_other : (a b : String) → before a b ≡ true → str_eq b a ≡ false
unfolding before
before_other a b h = elim (Bool-cases (str_eq b a)) [
  | inl e ↦
      let same : b ≡ a = (eq_iff b a).0 e in
      let both : (leb_text (codes a) (codes a) ≡ true) ⊎ (leb_text (codes a) (codes a) ≡ true) =
        leb_text_total (codes a) (codes a) in
      elim both [
        | inl f ↦ absurd (ground (arith, rw same at h))
        | inr f ↦ absurd (ground (arith, rw same at h))
      ]
  | inr e ↦ e
]

before_cases : (a b : String) → str_eq b a ≡ false → before a b ≡ false → before b a ≡ true
unfolding before
before_cases a b h g = elim (Bool-cases (leb_text (codes a) (codes b))) [
  | inl e ↦
      let same : b ≡ a =
        codes-injective b a (leb_text_antisym (codes b) (codes a) (ground arith) e) in
      let t : str_eq b a ≡ true = (eq_iff b a).1 same in absurd (ground arith)
  | inr e ↦ ground arith
]

module _ {A : Type 0} where
  -- The keys ascend, so that none is there twice.
  abbrev pub IsAscending : Groups A → Type 0
  IsAscending [] = Unit
  IsAscending (g ∷ rest) = All (λ g'. before g.0 g'.0 ≡ true) rest × IsAscending rest

  after_trans :
      (a b : String) (groups : Groups A)
      → before a b ≡ true
      → All (λ g. before b g.0 ≡ true) groups
      → All (λ g. before a g.0 ≡ true) groups
  after_trans a b [] h all = tt
  after_trans a b (g ∷ rest) h (first, all) =
      (before_trans a b g.0 h first, after_trans a b rest h all)

  values_of-absent :
      (key : String) (groups : Groups A)
      → All (λ g. before key g.0 ≡ true) groups
      → values_of key groups ≡ []
  unfolding values_of
  values_of-absent key [] all = refl
  values_of-absent key (g ∷ rest) (first, all) =
      rw (values_of, before_other key g.0 first) (values_of-absent key rest all)

  after_push :
      (a key : String) (value : A) (groups : Groups A)
      → before a key ≡ true
      → All (λ g. before a g.0 ≡ true) groups
      → All (λ g. before a g.0 ≡ true) (push key value groups)
  unfolding push
  after_push a key value [] h all = (h, tt)
  after_push a key value (g ∷ rest) h (first, all) = elim (Bool-cases (str_eq g.0 key)) [
    | inl e ↦ rw (push, e) (first, all)
    | inr e ↦ elim (Bool-cases (before key g.0)) [
      | inl f ↦ rw (push, e) (rw f (h, (first, all)))
      | inr f ↦ rw (push, e) (rw f (first, after_push a key value rest h all))
    ]
  ]

  push-IsAscending :
      (key : String) (value : A) (groups : Groups A)
      → IsAscending groups
      → IsAscending (push key value groups)
  unfolding push
  push-IsAscending key value [] up = (tt, tt)
  push-IsAscending key value (g ∷ rest) (first, up) = elim (Bool-cases (str_eq g.0 key)) [
    | inl e ↦ rw (push, e) (first, up)
    | inr e ↦ elim (Bool-cases (before key g.0)) [
      | inl f ↦ rw (push, e) (rw f ((f, after_trans key g.0 rest f first), (first, up)))
      | inr f ↦
          rw (push, e)
            (rw f (
              after_push g.0 key value rest (before_cases key g.0 e f) first,
              push-IsAscending key value rest up,
            ))
    ]
  ]

  hit :
      (k : String) (g : String × List A) (rest : Groups A)
      → str_eq g.0 k ≡ true
      → values_of k (g ∷ rest) ≡ g.1
  unfolding values_of
  hit k g rest h = rw (values_of, h) refl

  miss :
      (k : String) (g : String × List A) (rest : Groups A)
      → str_eq g.0 k ≡ false
      → values_of k (g ∷ rest) ≡ values_of k rest
  unfolding values_of
  miss k g rest h = rw (values_of, h) refl

  -- The value goes to its key alone.
  values_of-push :
      (key : String) (value : A) (groups : Groups A)
      → IsAscending groups
      → values_of key (push key value groups) ≡ values_of key groups ++ value ∷ []
  unfolding push values_of
  values_of-push key value [] up = hit key (key, value ∷ []) [] ((eq_iff key key).1 refl)
  values_of-push key value (g ∷ rest) (first, up) = elim (Bool-cases (str_eq g.0 key)) [
    | inl e ↦ rw (push, e) (rw (hit key g rest e) (hit key (g.0, g.1 ++ value ∷ []) rest e))
    | inr e ↦ elim (Bool-cases (before key g.0)) [
      | inl f ↦
          rw (push, e)
            (rw f (
              rw (values_of-absent key (g ∷ rest) (f, after_trans key g.0 rest f first))
                (hit key (key, value ∷ []) (g ∷ rest) ((eq_iff key key).1 refl))))
      | inr f ↦
          rw (push, e)
            (rw f (
              rw (miss key g (push key value rest) e)
                (rw (miss key g rest e) (values_of-push key value rest up))))
    ]
  ]

  values_of-push_other :
      (k key : String) (value : A) (groups : Groups A)
      → str_eq key k ≡ false
      → values_of k (push key value groups) ≡ values_of k groups
  unfolding push
  values_of-push_other k key value [] h = miss k (key, value ∷ []) [] h
  values_of-push_other k key value (g ∷ rest) h = elim (Bool-cases (str_eq g.0 key)) [
    | inl e ↦
        let same : g.0 ≡ key = (eq_iff g.0 key).0 e in
        let other : str_eq g.0 k ≡ false = rw same h in
        rw (push, e) (rw (miss k g rest other) (miss k (g.0, g.1 ++ value ∷ []) rest other))
    | inr e ↦ elim (Bool-cases (before key g.0)) [
      | inl f ↦ rw (push, e) (rw f (miss k (key, value ∷ []) (g ∷ rest) h))
      | inr f ↦
          rw (push, e)
            (rw f (elim (Bool-cases (str_eq g.0 k)) [
              | inl d ↦ rw (hit k g rest d) (hit k g (push key value rest) d)
              | inr d ↦
                  rw (miss k g rest d) (
                    rw (miss k g (push key value rest) d) (values_of-push_other k key value rest h))
            ]))
    ]
  ]

  -- The values that are pushed with a key, in their order.
  abbrev pub with_key : String → List (String × A) → List A
  with_key k [] = []
  with_key k ((key, value) ∷ rest) =
      if str_eq key k then value ∷ with_key k rest else with_key k rest

  push_all-IsAscending :
      (entries : List (String × A)) (groups : Groups A)
      → IsAscending groups
      → IsAscending (push_all entries groups)
  push_all-IsAscending [] groups up = up
  push_all-IsAscending ((key, value) ∷ rest) groups up =
      push_all-IsAscending rest (push key value groups) (push-IsAscending key value groups up)

  values_of-push_all :
      (k : String) (entries : List (String × A)) (groups : Groups A)
      → IsAscending groups
      → values_of k (push_all entries groups) ≡ values_of k groups ++ with_key k entries
  values_of-push_all k [] groups up = sym (append-nil (values_of k groups))
  values_of-push_all k ((key, value) ∷ rest) groups up =
      values_of-push_all k rest (push key value groups) (push-IsAscending key value groups up)
      ∙ elim (Bool-cases (str_eq key k)) [
        | inl e ↦
            let same : key ≡ k = (eq_iff key k).0 e in
            rw same (
              rw (values_of-push k value groups up) (
                append_assoc (values_of k groups) (value ∷ []) (with_key k rest)
                ∙ ap (λ t. values_of k groups ++ t) (rw (rw same at e) refl)))
        | inr e ↦ rw (values_of-push_other k key value groups e) (rw e refl)
      ]

  -- Grouping: the keys ascend, and each has what was pushed with it.
  pub groups-IsGrouped :
      (entries : List (String × A))
      → IsAscending (push_all entries [])
        × ((k : String) → values_of k (push_all entries []) ≡ with_key k entries)
  unfolding values_of
  groups-IsGrouped entries =
      (push_all-IsAscending entries [] tt, λ k. values_of-push_all k entries [] tt)
