-- ===== src/Registry.antt =====
-- src/upstream/mod.rs: `UpstreamRegistry`. An `Arc<Upstream>` is an address in a heap, so that a
-- request which still holds a replaced upstream keeps changing the old one. `upstreams` is a hash
-- map: an association list whose iteration order is the parameter `iter`.
pub mod Order
pub mod Lookup
mod Tests
use polyglotmesh.Prelude.{
  ℤ, ℕ, ◌+◌, ◌≡◌, Bool, true, false, Option, none, some, List, [], ◌∷◌, map, filter, Text, text_eq,
  ◌==◌, if◌then◌else◌, Ordering, then_with, is_le, cmp_text, Heap, alloc, write,
}
use polyglotmesh.Float.{Float}
use polyglotmesh.Config.{ProviderKind, kind_eq, cmp_ℤ, UpstreamConfig}
use polyglotmesh.Upstream.{Upstream, from_config}
use polyglotmesh.Sort.{sort_by}

-- The map's `insert`, `remove` and `get`. A new key goes to an end of the list; what order an
-- iteration follows is not decided here.
module _ {V : Type 0} where
  unfoldable pub lookup : Text → List (Text × V) → Option V
  lookup k [] = none
  lookup k ((j, v) ∷ m) = if text_eq j k then some v else lookup k m

  unfoldable pub insert : Text → V → List (Text × V) → List (Text × V)
  insert k v [] = (k, v) ∷ []
  insert k v ((j, w) ∷ m) = if text_eq j k then (j, v) ∷ m else (j, w) ∷ insert k v m

  unfoldable pub remove_key : Text → List (Text × V) → List (Text × V)
  remove_key k [] = []
  remove_key k ((j, w) ∷ m) = if text_eq j k then m else (j, w) ∷ remove_key k m

pub record Registry : Type 0 where
  pub upstreams : List (Text × ℕ)
  pub by_provider : List ℕ

-- `UpstreamRegistry::new`
abbrev pub empty : Registry
empty = record { upstreams = []; by_provider = [] }

-- `UpstreamRegistry::get`
unfoldable pub get : Text → Registry → Option ℕ
unfolding lookup
get k r = lookup k r.upstreams

-- `UpstreamRegistry::all`
unfoldable pub all : (List (Text × ℕ) → List (Text × ℕ)) → Registry → List ℕ
all iter r = map (λ e. e.1) (iter r.upstreams)

-- A sort key: the priority, the id and the address of the upstream that it stands for.
abbrev pub Key : Type 0
Key = ℤ × Text × ℕ

-- `b.priority().cmp(&a.priority()).then_with(|| a.id().cmp(&b.id()))`
unfoldable pub cmp_key : Key → Key → Ordering
cmp_key (p, i, _) (q, j, _) = then_with (cmp_ℤ q p) (cmp_text i j)

unfoldable pub key_le : Key → Key → Bool
unfolding cmp_key
key_le a b = is_le (cmp_key a b)

module _ {F : Type 0} where
  -- What `sort_by` reads of the upstream at an address.
  abbrev pub key_at : Heap (Upstream F) → ℕ → Key
  key_at h p = ((h.at p).cfg.priority, (h.at p).cfg.id, p)

  -- The addresses in the order of the map's iteration, sorted.
  unfoldable pub sorted_keys :
      (List (Text × ℕ) → List (Text × ℕ)) → Heap (Upstream F) → List (Text × ℕ) → List Key
  unfolding key_le sort_by
  sorted_keys iter h m = sort_by key_le (map (λ e. key_at h e.1) (iter m))

  -- `rebuild_by_provider`
  unfoldable pub rebuild_by_provider :
      (List (Text × ℕ) → List (Text × ℕ)) → Heap (Upstream F) → Registry → Registry
  unfolding sorted_keys
  rebuild_by_provider iter h r = record r {
    by_provider = map (λ k. k.2) (sorted_keys iter h r.upstreams);
  }

  -- `UpstreamRegistry::remove`
  unfoldable pub remove :
      (List (Text × ℕ) → List (Text × ℕ)) → Text → Heap (Upstream F) → Registry → Bool × Registry
  unfolding lookup remove_key
  remove iter k h r = elim (lookup k r.upstreams) [
    | none ↦ (false, r)
    | some _ ↦
        (true, rebuild_by_provider iter h (record r { upstreams = remove_key k r.upstreams }))
  ]

  -- `UpstreamRegistry::by_provider`
  unfoldable pub for_provider : ProviderKind → Heap (Upstream F) → Registry → List ℕ
  for_provider kind h r = filter (λ p. kind_eq (h.at p).cfg.kind kind) r.by_provider

module _ (fl : Float) where
  open fl use {F}

  -- `UpstreamRegistry::upsert`
  unfoldable pub upsert :
      (List (Text × ℕ) → List (Text × ℕ))
      → ℕ
      → UpstreamConfig F
      → Heap (Upstream F)
      → Registry
      → Heap (Upstream F) × Registry
  unfolding from_config insert rebuild_by_provider
  upsert iter now cfg h r =
      let (p, h') = alloc h (from_config fl now cfg) in
      (h', rebuild_by_provider iter h' (record r { upstreams = insert cfg.id p r.upstreams }))

  unfoldable pub upsert_all :
      (List (Text × ℕ) → List (Text × ℕ))
      → ℕ
      → List (UpstreamConfig F)
      → Heap (Upstream F)
      → Registry
      → Heap (Upstream F) × Registry
  unfolding upsert
  upsert_all iter now [] h r = (h, r)
  upsert_all iter now (c ∷ cs) h r =
      let (h', r') = upsert iter now c h r in upsert_all iter now cs h' r'

  -- `UpstreamRegistry::rebuild`
  unfoldable pub rebuild :
      (List (Text × ℕ) → List (Text × ℕ))
      → ℕ
      → List (UpstreamConfig F)
      → Heap (Upstream F)
      → Heap (Upstream F) × Registry
  unfolding upsert_all
  rebuild iter now cs h = upsert_all iter now cs h empty
