-- ===== src/Registry/Tests.antt =====
-- Runs of the registry of src/upstream/mod.rs.
use mathlib.Core.List.{Perm, reverse}
use mathlib.Core.List.Perm
use polyglotmesh.Prelude.{
  pos, Heap, ℕ, zero, suc, ◌≡◌, refl, some, List, [], ◌∷◌, Text, codes, arith, text_eq,
}
use polyglotmesh.Float.Fixed.{fixed}
use polyglotmesh.Config.{UpstreamConfig}
use polyglotmesh.Upstream.{Upstream, from_config}
use polyglotmesh.Upstream.Tests.{small}
use polyglotmesh.Sort.{sort_by}
use polyglotmesh.Registry.{Registry, all, get, upsert, rebuild, rebuild_by_provider, insert, key_le}
use polyglotmesh.Registry.Order.{IsFiled, rebuild_by_provider-iter, rebuild_by_provider-IsSorted}
use polyglotmesh.Registry.Lookup.{get-upsert}

-- The map iterated in the order of its list, and backwards.
abbrev as_listed : List (Text × ℕ) → List (Text × ℕ)
as_listed m = m

abbrev high : UpstreamConfig ℕ
high = record small { id = codes "b"; priority = pos 9 }

abbrev blank : Heap (Upstream ℕ)
unfolding from_config
blank = record { at = λ _. from_config fixed 0 small; next = 0 }

abbrev heap : Heap (Upstream ℕ)
unfolding from_config
heap = record {
  at = λ p. elim p [ zero ↦ from_config fixed 0 small | suc _ ↦ from_config fixed 0 high ];
  next = 2;
}

abbrev two : Registry
two = record { upstreams = (codes "a", 0) ∷ (codes "b", 1) ∷ []; by_provider = 1 ∷ 0 ∷ [] }

-- The registry built from two configurations lists the one of higher priority first.
two_built : (rebuild fixed as_listed 0 (small ∷ high ∷ []) blank).1 ≡ two
unfolding rebuild upsert insert text_eq rebuild_by_provider sort_by key_le from_config
two_built = refl

two-IsFiled : IsFiled heap two.upstreams
unfolding from_config
two-IsFiled = (omega arith, refl, ((λ e. ground (arith, e)), tt), (omega arith, refl, tt, tt))

rebuild_by_provider-iter_example :
    rebuild_by_provider as_listed heap two ≡ rebuild_by_provider reverse heap two
unfolding from_config
rebuild_by_provider-iter_example =
    rebuild_by_provider-iter as_listed reverse heap two (Perm.refl _) (Perm.swap _ _ []) two-IsFiled

get-upsert_example : get (codes "a") (upsert fixed as_listed 7 small heap two).1 ≡ some 2
unfolding from_config text_eq
get-upsert_example = (get-upsert fixed as_listed 7 small (codes "a") heap two two-IsFiled).0

rebuild_by_provider-IsSorted_example :
    Perm (rebuild_by_provider reverse heap two).by_provider (all reverse two)
unfolding from_config
rebuild_by_provider-IsSorted_example = (rebuild_by_provider-IsSorted reverse heap two).1
