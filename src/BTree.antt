-- ===== src/BTree.antt =====
-- `BTreeMap` of the standard library: an association list in the order of its keys.
use polyglotmesh.Prelude.{
  ◌≡◌, refl, ◌≢◌, Option, none, some, List, [], ◌∷◌, All, arith, Ordering, cmp_text, cmp_text_refl,
  eq_of_cmp_text,
}

-- A comparison that is `Equal` on equal keys only.
pub record IsCmp {K : Type 0} (cmp : K → K → Ordering) : Type 0 where
  pub same : (a b : K) → cmp a b ≡ Ordering.eq → a ≡ b
  pub self : (a : K) → cmp a a ≡ Ordering.eq

pub text_cmp : IsCmp cmp_text
text_cmp = record { same = eq_of_cmp_text; self = cmp_text_refl }

module _ {K V : Type 0} (cmp : K → K → Ordering) where
  -- `get`
  unfoldable pub get : K → List (K × V) → Option V
  get k [] = none
  get k ((j, v) ∷ m) = elim (cmp k j) [ Ordering.eq ↦ some v | _ ↦ get k m ]

  -- `insert`
  unfoldable pub insert : K → V → List (K × V) → List (K × V)
  insert k v [] = (k, v) ∷ []
  insert k v ((j, w) ∷ m) = elim (cmp k j) [
    | Ordering.lt ↦ (k, v) ∷ (j, w) ∷ m
    | Ordering.eq ↦ (j, v) ∷ m
    | Ordering.gt ↦ (j, w) ∷ insert k v m
  ]

  -- `remove`, the map that is left
  unfoldable pub remove : K → List (K × V) → List (K × V)
  remove k [] = []
  remove k ((j, w) ∷ m) = elim (cmp k j) [ Ordering.eq ↦ m | _ ↦ (j, w) ∷ remove k m ]

  -- `for (k, v) in entries { m.insert(k, v) }`
  unfoldable pub insert_all : List (K × V) → List (K × V) → List (K × V)
  unfolding insert
  insert_all [] m = m
  insert_all ((k, v) ∷ es) m = insert_all es (insert k v m)

module _ {K V : Type 0} (cmp : K → K → Ordering) (c : IsCmp cmp) where
  -- A lookup after an insert.
  pub get-insert :
      (k j : K) (v : V) (m : List (K × V))
      → get cmp j (insert cmp k v m) ≡ (elim (cmp j k) [ Ordering.eq ↦ some v | _ ↦ get cmp j m ])
  unfolding get insert
  get-insert k j v [] = ground arith
  get-insert k j v ((i, w) ∷ m) =
      ground (arith, c.same k i, c.same j i, c.same j k, c.self j, c.self k, get-insert k j v m)

  -- No key stands twice, as in a map.
  abbrev pub IsMap : List (K × V) → Type 0
  IsMap [] = Unit
  IsMap (e ∷ m) = All (λ d. d.0 ≢ e.0) m × IsMap m

  get-absent : (k : K) (m : List (K × V)) → All (λ d. d.0 ≢ k) m → get cmp k m ≡ none
  unfolding get
  get-absent k [] a = refl
  get-absent k (e ∷ m) a = ground (arith, c.same k e.0, a.0, get-absent k m a.1)

  -- Of two entries of one key, the inserted one wins.
  pub get-insert_all :
      (j : K) (es m : List (K × V))
      → IsMap es
      → get cmp j (insert_all cmp es m)
        ≡ (elim (get cmp j es) [ none ↦ get cmp j m | some v ↦ some v ])
  unfolding insert_all get
  get-insert_all j [] m u = refl
  get-insert_all j ((k, v) ∷ es) m u = ground (
    arith,
    c.same j k,
    get-absent k es u.0,
    get-insert k j v m,
    get-insert_all j es (insert cmp k v m) u.1,
  )
