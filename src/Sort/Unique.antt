-- ===== src/Sort/Unique.antt =====
-- Where no two items tie, the sorted list does not depend on the order of the items.
use mathlib.Core.List.{Perm, Permᴰ}
use mathlib.Core.Logic.{∥∥₁_elim}
use polyglotmesh.Prelude.{◌≡◌, refl, ◌∙◌, subst, Bool, List, [], ◌∷◌, All}
use polyglotmesh.Sort.{sort_by, IsOrder, Apart, insert_by_comm}

module _ {A : Type 0} (le : A → A → Bool) (o : IsOrder le) where
  abbrev pub AllApart : List A → Type 0
  AllApart [] = Unit
  AllApart (x ∷ xs) = All (Apart le o x) xs × AllApart xs

  All-perm : (P : A → Type 0) {xs ys : List A} → Permᴰ xs ys → All P xs → All P ys
  All-perm P Permᴰ.nil h = h
  All-perm P (Permᴰ.cons e p) h = (subst P e h.0, All-perm P p h.1)
  All-perm P (Permᴰ.swap e f) h = (subst P f h.1.0, (subst P e h.0, h.1.1))
  All-perm P (Permᴰ.trans p q) h = All-perm P q (All-perm P p h)

  AllApart-perm : {xs ys : List A} → Permᴰ xs ys → AllApart xs → AllApart ys
  AllApart-perm Permᴰ.nil h = h
  AllApart-perm (Permᴰ.cons {a} {b} {l₁} {l₂} e p) h =
      (subst (λ x. All (Apart le o x) l₂) e (All-perm (Apart le o a) p h.0), AllApart-perm p h.1)
  AllApart-perm (Permᴰ.swap {a} {b} {a'} {b'} {l} e f) h =
      subst (λ x. AllApart (a' ∷ x ∷ l)) e
        (subst (λ x. AllApart (x ∷ a ∷ l)) f (((λ p q. h.0.0 q p), h.1.0), (h.0.1, h.1.1)))
  AllApart-perm (Permᴰ.trans p q) h = AllApart-perm q (AllApart-perm p h)

  sort_by-Permᴰ : {xs ys : List A} → Permᴰ xs ys → AllApart xs → sort_by le xs ≡ sort_by le ys
  unfolding sort_by
  sort_by-Permᴰ Permᴰ.nil h = refl
  sort_by-Permᴰ (Permᴰ.cons {a} {b} {l₁} {l₂} e p) h = cc (e, sort_by-Permᴰ p h.1)
  sort_by-Permᴰ (Permᴰ.swap {a} {b} {a'} {b'} {l} e f) h =
      cc (e, f, insert_by_comm le o a b (sort_by le l) h.0.0)
  sort_by-Permᴰ (Permᴰ.trans p q) h = sort_by-Permᴰ p h ∙ sort_by-Permᴰ q (AllApart-perm p h)

  -- Two lists with the same items, none of which tie, are sorted into the same list.
  pub sort_by_unique :
      IsSet A → {xs ys : List A} → Perm xs ys → AllApart xs → sort_by le xs ≡ sort_by le ys
  sort_by_unique set p h = ∥∥₁_elim p (hlevel set) (λ d. sort_by-Permᴰ d h)
