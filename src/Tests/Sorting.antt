-- ===== src/Tests/Sorting.antt =====
-- Insertion sort, for the ordered queries of the database in lists.
use mathlib.Core.List.Perm
use ride_flow.Prelude.{
  Bool, true, false, if◌then◌else◌, List, [], ◌∷◌, Perm, All, ◌≡◌, inl, inr, Bool-cases,
}
use ride_flow.Sql.{IsOrdered}

module _ {A : Type 0} (le : A → A → Bool) where
  abbrev insert : A → List A → List A
  insert x [] = x ∷ []
  insert x (y ∷ ys) = if le x y then x ∷ y ∷ ys else y ∷ insert x ys

  abbrev pub sort : List A → List A
  sort [] = []
  sort (x ∷ xs) = insert x (sort xs)

  insert-Perm : (x : A) (ys : List A) → Perm (insert x ys) (x ∷ ys)
  insert-Perm x [] = Perm.refl (x ∷ [])
  insert-Perm x (y ∷ ys) = elim (Bool-cases (le x y)) [
    | inl first ↦ rw first (Perm.refl (x ∷ y ∷ ys))
    | inr later ↦ rw later (Perm.trans (Perm.cons y (insert-Perm x ys)) (Perm.swap x y ys))
  ]

  pub sort-Perm : (xs : List A) → Perm (sort xs) xs
  sort-Perm [] = Perm.refl []
  sort-Perm (x ∷ xs) = Perm.trans (insert-Perm x (sort xs)) (Perm.cons x (sort-Perm xs))

  insert-All : (P : A → Type 0) (x : A) (ys : List A) → P x → All P ys → All P (insert x ys)
  insert-All P x [] p ps = (p, tt)
  insert-All P x (y ∷ ys) p ps = elim (Bool-cases (le x y)) [
    | inl first ↦ rw first (p, ps)
    | inr later ↦ rw later (ps.0, insert-All P x ys p ps.1)
  ]

  module _ (total : (x y : A) → le x y ≡ false → le y x ≡ true)
      (trans : (x y z : A) → le x y ≡ true → le y z ≡ true → le x z ≡ true) where
    below :
        (x y : A) (zs : List A)
        → le x y ≡ true
        → All (λ z. le y z ≡ true) zs
        → All (λ z. le x z ≡ true) zs
    below x y [] h all = tt
    below x y (z ∷ zs) h all = (trans x y z h all.0, below x y zs h all.1)

    insert-IsOrdered : (x : A) (ys : List A) → IsOrdered le ys → IsOrdered le (insert x ys)
    insert-IsOrdered x [] o = (tt, tt)
    insert-IsOrdered x (y ∷ ys) o = elim (Bool-cases (le x y)) [
      | inl first ↦ rw first ((first, below x y ys first o.0), o)
      | inr later ↦
          rw later
            (insert-All (λ z. le y z ≡ true) x ys (total x y later) o.0, insert-IsOrdered x ys o.1)
    ]

    pub sort-IsOrdered : (xs : List A) → IsOrdered le (sort xs)
    sort-IsOrdered [] = tt
    sort-IsOrdered (x ∷ xs) = insert-IsOrdered x (sort xs) (sort-IsOrdered xs)
