-- ===== src/Metrics/Series.antt =====
-- src/metrics.rs: `Counter` and `Gauge`, a map from label tuples to numbers. Both wrap.
use polyglotmesh.Prelude.{
  ℕ, ◌+◌, ◌%◌, ◌<◌, ◌≡◌, refl, List, [], ◌∷◌, map, none, some, Text, cmp_text, cmp_text_refl,
  eq_of_cmp_text, Ordering, then_with, add64, sub64, u64_mod, arith,
}
use polyglotmesh.BTree
use polyglotmesh.BTree.{IsCmp, get-insert}

abbrev pub Labels : Type 0
Labels = List (Text × Text)

-- `Ord::cmp` on the label tuples: entry by entry, name first.
unfoldable pub cmp_labels : Labels → Labels → Ordering
cmp_labels [] [] = Ordering.eq
cmp_labels [] (b ∷ t) = Ordering.lt
cmp_labels (a ∷ s) [] = Ordering.gt
cmp_labels (a ∷ s) (b ∷ t) =
    then_with (then_with (cmp_text a.0 b.0) (cmp_text a.1 b.1)) (cmp_labels s t)

abbrev pub Series : Type 0
Series = List (Labels × ℕ)

-- The value of a label tuple, 0 where there is none yet.
unfoldable pub value : Labels → Series → ℕ
value k s = elim (BTree.get cmp_labels k s) [ none ↦ 0 | some v ↦ v ]

-- `Counter::inc`, and `Gauge::inc` with 1
unfoldable pub inc : Labels → ℕ → Series → Series
inc k by s = BTree.insert cmp_labels k (add64 (value k s) by) s

-- `Gauge::dec`
unfoldable pub dec : Labels → Series → Series
dec k s = BTree.insert cmp_labels k (sub64 (value k s) 1) s

-- `Gauge::set`
unfoldable pub set : Labels → ℕ → Series → Series
set k v s = BTree.insert cmp_labels k v s

-- `Counter::reset` and `Gauge::reset`
unfoldable pub reset : Series → Series
reset s = map (λ e. (e.0, 0)) s

cmp_labels_refl : (s : Labels) → cmp_labels s s ≡ Ordering.eq
unfolding cmp_labels
cmp_labels_refl [] = refl
cmp_labels_refl (a ∷ s) = ground (arith, cmp_text_refl a.0, cmp_text_refl a.1, cmp_labels_refl s)

eq_of_cmp_labels : (s t : Labels) → cmp_labels s t ≡ Ordering.eq → s ≡ t
unfolding cmp_labels
eq_of_cmp_labels [] [] h = refl
eq_of_cmp_labels [] (b ∷ t) h = cc
eq_of_cmp_labels (a ∷ s) [] h = cc
eq_of_cmp_labels (a ∷ s) (b ∷ t) h =
    ground (arith, eq_of_cmp_text a.0 b.0, eq_of_cmp_text a.1 b.1, eq_of_cmp_labels s t)

pub labels_cmp : IsCmp cmp_labels
labels_cmp = record { same = eq_of_cmp_labels; self = cmp_labels_refl }

-- `inc` of each event, the last of the list first.
unfoldable pub inc_all : List (Labels × ℕ) → Series → Series
unfolding inc
inc_all [] s = s
inc_all ((k, by) ∷ events) s = inc k by (inc_all events s)

-- What the events add under one label tuple.
abbrev pub total : Labels → List (Labels × ℕ) → ℕ
total j [] = 0
total j ((k, by) ∷ events) = (elim (cmp_labels j k) [ Ordering.eq ↦ by | _ ↦ 0 ]) + total j events

value_nil : (j : Labels) → value j [] ≡ 0
unfolding value BTree.get
value_nil j = refl

pub value-inc :
    (j k : Labels) (by : ℕ) (s : Series)
    → value j (inc k by s)
      ≡ (elim (cmp_labels j k) [ Ordering.eq ↦ add64 (value k s) by | _ ↦ value j s ])
unfolding value inc
value-inc j k by s = ground (arith, get-insert cmp_labels labels_cmp k j (add64 (value k s) by) s)

-- After events on a fresh counter, the value under each label tuple is the sum of the events that
-- have that tuple, modulo 2^64, and events under another tuple do not change it.
pub value-inc_all :
    (j : Labels) (events : List (Labels × ℕ))
    → value j (inc_all events []) ≡ total j events % u64_mod
unfolding inc_all
value-inc_all j [] = value_nil j
value-inc_all j ((k, by) ∷ events) =
    ground
      (arith, value-inc j k by (inc_all events []), value-inc_all j events, eq_of_cmp_labels j k)

pub value-dec :
    (j k : Labels) (s : Series)
    → value j (dec k s)
      ≡ (elim (cmp_labels j k) [ Ordering.eq ↦ sub64 (value k s) 1 | _ ↦ value j s ])
unfolding value dec
value-dec j k s = ground (arith, get-insert cmp_labels labels_cmp k j (sub64 (value k s) 1) s)

-- On a gauge a decrement takes back an increment, also where the number wraps, and neither touches
-- another label tuple.
pub value-dec-inc :
    (j k : Labels) (s : Series) → value k s < u64_mod → value j (dec k (inc k 1 s)) ≡ value j s
value-dec-inc j k s small = ground (
  arith,
  value-dec j k (inc k 1 s),
  value-inc j k 1 s,
  value-inc k k 1 s,
  cmp_labels_refl k,
  eq_of_cmp_labels j k,
)
