-- ===== src/Common/Sort.antt =====
-- Sorting by a Boolean order, as `sort_by` of the standard library does it.
use mathlib.Core.List.{Permᴰ}
use x07_wasm_backend.Common.{
  ◌≡◌, refl, sym, ap, ◌∙◌, inl, inr, ◌⊎◌, Bool, true, false, List, [], ◌∷◌, if◌then◌else◌,
  Bool-cases,
}

module _ {A : Type 0} (le : A → A → Bool) where
  abbrev pub insert : A → List A → List A
  insert a [] = a ∷ []
  insert a (x ∷ xs) = if le a x then a ∷ x ∷ xs else x ∷ insert a xs

  abbrev pub sort : List A → List A
  sort [] = []
  sort (x ∷ xs) = insert x (sort xs)

  pub record IsOrder : Type 0 where
    pub total : (a b : A) → (le a b ≡ true) ⊎ (le b a ≡ true)
    pub antisym : (a b : A) → le a b ≡ true → le b a ≡ true → a ≡ b
    pub trans : (a b c : A) → le a b ≡ true → le b c ≡ true → le a c ≡ true

  module _ (order : IsOrder) where
    -- A first one that is strictly before the other.
    insert_comm_of_lt :
        (a b : A) (xs : List A)
        → le a b ≡ true
        → le b a ≡ false
        → insert a (insert b xs) ≡ insert b (insert a xs)
    insert_comm_of_lt a b [] h g = rw h (rw g refl)
    insert_comm_of_lt a b (x ∷ xs) h g = elim (Bool-cases (le b x)) [
      | inl e ↦ rw e (rw h (rw (order.trans a b x h e) (rw g (rw e refl))))
      | inr e ↦ elim (Bool-cases (le a x)) [
        | inl f ↦ rw e (rw f (rw g (rw e refl)))
        | inr f ↦ rw e (rw f (rw e (ap (λ t. x ∷ t) (insert_comm_of_lt a b xs h g))))
      ]
    ]

    insert_comm_of_le :
        (a b : A) (xs : List A) → le a b ≡ true → insert a (insert b xs) ≡ insert b (insert a xs)
    insert_comm_of_le a b xs h = elim (Bool-cases (le b a)) [
      | inl e ↦ let same : a ≡ b = order.antisym a b h e in rw same refl
      | inr e ↦ insert_comm_of_lt a b xs h e
    ]

    insert_comm : (a b : A) (xs : List A) → insert a (insert b xs) ≡ insert b (insert a xs)
    insert_comm a b xs = elim (order.total a b) [
      | inl h ↦ insert_comm_of_le a b xs h
      | inr h ↦ sym (insert_comm_of_le b a xs h)
    ]

    -- Lists that differ by their order alone are sorted alike.
    pub sort_perm : {xs ys : List A} → Permᴰ xs ys → sort xs ≡ sort ys
    sort_perm Permᴰ.nil = refl
    sort_perm (Permᴰ.cons e p) = rw e (ap (insert _) (sort_perm p))
    sort_perm (Permᴰ.swap {a = a} {b = b} {l = l} e f) = insert_comm a b (sort l) ∙ rw (e, f) refl
    sort_perm (Permᴰ.trans p q) = sort_perm p ∙ sort_perm q
