-- ===== src/Sort.antt =====
-- `sort_by` of the standard library, as the stable insertion sort. The order is a Boolean test `le`:
-- the comparison is not `Greater`.
pub mod Unique
use mathlib.Core.List.{Perm}
use mathlib.Core.List.Perm
use polyglotmesh.Prelude.{
  ◌≡◌, refl, ap, ◌∙◌, any, ◌||◌, ◌⊎◌, inl, inr, Bool, true, false, List, [], ◌∷◌, All, arith,
  if◌then◌else◌, Bool-cases,
}

module _ {A : Type 0} (le : A → A → Bool) where
  unfoldable pub insert_by : A → List A → List A
  insert_by x [] = x ∷ []
  insert_by x (y ∷ ys) = if le x y then x ∷ y ∷ ys else y ∷ insert_by x ys

  unfoldable pub sort_by : List A → List A
  unfolding insert_by
  sort_by [] = []
  sort_by (x ∷ xs) = insert_by x (sort_by xs)

  abbrev pub IsSorted : List A → Type 0
  IsSorted [] = Unit
  IsSorted (x ∷ xs) = All (λ y. le x y ≡ true) xs × IsSorted xs

  pub insert_by-perm : (x : A) (ys : List A) → Perm (insert_by x ys) (x ∷ ys)
  unfolding insert_by
  insert_by-perm x [] = Perm.refl _
  insert_by-perm x (y ∷ ys) = elim (Bool-cases (le x y)) [
    | inl e ↦ rw e (Perm.refl _)
    | inr e ↦ rw e (Perm.trans (Perm.cons y (insert_by-perm x ys)) (Perm.swap x y ys))
  ]

  -- The sorted list holds the same items.
  pub sort_by-perm : (xs : List A) → Perm (sort_by xs) xs
  unfolding sort_by
  sort_by-perm [] = Perm.refl []
  sort_by-perm (x ∷ xs) = Perm.trans (insert_by-perm x (sort_by xs)) (Perm.cons x (sort_by-perm xs))

  All-insert : (P : A → Type 0) (x : A) (ys : List A) → P x → All P ys → All P (insert_by x ys)
  unfolding insert_by
  All-insert P x [] h a = (h, tt)
  All-insert P x (y ∷ ys) h a = ground (arith, All-insert P x ys h a.1)

  pub All-sort_by : (P : A → Type 0) (xs : List A) → All P xs → All P (sort_by xs)
  unfolding sort_by
  All-sort_by P [] a = tt
  All-sort_by P (x ∷ xs) a = All-insert P x (sort_by xs) a.0 (All-sort_by P xs a.1)

  any-insert_by : (p : A → Bool) (x : A) (ys : List A) → any p (insert_by x ys) ≡ (p x || any p ys)
  unfolding insert_by
  any-insert_by p x [] = refl
  any-insert_by p x (y ∷ ys) = ground (arith, any-insert_by p x ys)

  pub any-sort_by : (p : A → Bool) (xs : List A) → any p (sort_by xs) ≡ any p xs
  unfolding sort_by
  any-sort_by p [] = refl
  any-sort_by p (x ∷ xs) = any-insert_by p x (sort_by xs) ∙ ap (λ b. p x || b) (any-sort_by p xs)

-- A total, transitive order.
pub record IsOrder {A : Type 0} (le : A → A → Bool) : Type 0 where
  pub total : (a b : A) → (le a b ≡ true) ⊎ (le b a ≡ true)
  pub trans : (a b c : A) → le a b ≡ true → le b c ≡ true → le a c ≡ true

module _ {A : Type 0} (le : A → A → Bool) (o : IsOrder le) where
  All-le :
      (x y : A) (ys : List A)
      → le x y ≡ true
      → All (λ z. le y z ≡ true) ys
      → All (λ z. le x z ≡ true) ys
  All-le x y [] h a = tt
  All-le x y (z ∷ zs) h a = (o.trans x y z h a.0, All-le x y zs h a.1)

  All-insert_by :
      (w x : A) (ys : List A)
      → le w x ≡ true
      → All (λ z. le w z ≡ true) ys
      → All (λ z. le w z ≡ true) (insert_by le x ys)
  unfolding insert_by
  All-insert_by w x [] h a = (h, tt)
  All-insert_by w x (y ∷ ys) h a = ground (arith, All-insert_by w x ys h a.1)

  insert_by-IsSorted : (x : A) (ys : List A) → IsSorted le ys → IsSorted le (insert_by le x ys)
  unfolding insert_by
  insert_by-IsSorted x [] s = (tt, tt)
  insert_by-IsSorted x (y ∷ ys) s =
      ground (arith, o.total x y, All-le x y ys, All-insert_by y x ys, insert_by-IsSorted x ys s.1)

  -- The result is sorted.
  pub sort_by-IsSorted : (xs : List A) → IsSorted le (sort_by le xs)
  unfolding sort_by
  sort_by-IsSorted [] = tt
  sort_by-IsSorted (x ∷ xs) = insert_by-IsSorted x (sort_by le xs) (sort_by-IsSorted xs)

  -- No tie between two items.
  abbrev pub Apart : A → A → Type 0
  Apart x y = le x y ≡ true → le y x ≡ true → ⊥

  pub insert_by_comm :
      (x y : A) (zs : List A)
      → Apart x y
      → insert_by le x (insert_by le y zs) ≡ insert_by le y (insert_by le x zs)
  unfolding insert_by
  insert_by_comm x y [] a = ground (arith, o.total x y, a)
  insert_by_comm x y (z ∷ zs) a = ground (
    arith,
    o.total x y,
    o.total y z,
    o.total x z,
    o.trans x y z,
    o.trans y x z,
    a,
    insert_by_comm x y zs a,
  )
