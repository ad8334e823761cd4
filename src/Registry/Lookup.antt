-- ===== src/Registry/Lookup.antt =====
-- src/upstream/mod.rs: what `get` finds after `upsert` and `remove`, and that both keep every
-- upstream filed under its own id.
use polyglotmesh.Prelude.{
  Heap, alloc, ℕ, ◌<◌, ◌≡◌, refl, ◌≢◌, true, false, none, some, List, [], ◌∷◌, All, Text, text_eq,
  text_eq_iff, arith, if◌then◌else◌, Option-cases, inl, inr,
}
use polyglotmesh.Float.{Float}
use polyglotmesh.Config.{UpstreamConfig}
use polyglotmesh.Upstream.{Upstream, from_config}
use polyglotmesh.Registry.{
  Registry, lookup, insert, remove_key, get, remove, upsert, rebuild_by_provider,
}
use polyglotmesh.Registry.Order.{IsFiled}

module _ {V : Type 0} where
  pub lookup-insert :
      (k j : Text) (v : V) (m : List (Text × V))
      → lookup j (insert k v m) ≡ (if text_eq k j then some v else lookup j m)
  unfolding lookup insert
  lookup-insert k j v [] = refl
  lookup-insert k j v ((i, w) ∷ m) =
      ground (arith, text_eq_iff k j, text_eq_iff i k, text_eq_iff i j, lookup-insert k j v m)

  -- No entry is filed under `k`.
  abbrev Absent : Text → List (Text × V) → Type 0
  Absent k m = All (λ d. d.0 ≢ k) m

  lookup-Absent : (k : Text) (m : List (Text × V)) → Absent k m → lookup k m ≡ none
  unfolding lookup
  lookup-Absent k [] a = refl
  lookup-Absent k (e ∷ m) a = ground (arith, text_eq_iff e.0 k, a.0, lookup-Absent k m a.1)

  remove_key-Absent : (k j : Text) (m : List (Text × V)) → Absent j m → Absent j (remove_key k m)
  unfolding remove_key
  remove_key-Absent k j [] a = tt
  remove_key-Absent k j (e ∷ m) a = ground (arith, remove_key-Absent k j m a.1)

  insert-Absent :
      (k j : Text) (v : V) (m : List (Text × V)) → k ≢ j → Absent j m → Absent j (insert k v m)
  unfolding insert
  insert-Absent k j v [] ne a = (ne, tt)
  insert-Absent k j v (e ∷ m) ne a =
      ground (arith, text_eq_iff e.0 k, a.0, insert-Absent k j v m ne a.1)

module _ {F : Type 0} where
  lookup-remove_key :
      (h : Heap (Upstream F)) (k j : Text) (m : List (Text × ℕ))
      → IsFiled h m
      → lookup j (remove_key k m) ≡ (if text_eq k j then none else lookup j m)
  unfolding lookup remove_key
  lookup-remove_key h k j [] v = ground arith
  lookup-remove_key h k j (e ∷ m) v = ground (
    arith,
    text_eq_iff e.0 k,
    text_eq_iff e.0 j,
    text_eq_iff k j,
    lookup-Absent e.0 m v.2,
    lookup-remove_key h k j m v.3,
  )

  remove_key-IsFiled :
      (h : Heap (Upstream F)) (k : Text) (m : List (Text × ℕ))
      → IsFiled h m
      → IsFiled h (remove_key k m)
  unfolding remove_key
  remove_key-IsFiled h k [] v = tt
  remove_key-IsFiled h k (e ∷ m) v =
      ground (arith, remove_key-IsFiled h k m v.3, remove_key-Absent k e.0 m v.2)

  -- `remove` answers whether the id was registered; afterwards `get` finds no such id and every
  -- other as before, and all stay filed under their ids.
  pub get-remove :
      (iter : List (Text × ℕ) → List (Text × ℕ)) (k j : Text) (h : Heap (Upstream F)) (r : Registry)
      → IsFiled h r.upstreams
      → let (found, r') = remove iter k h r in
        (found ≡ (elim (get k r) [ none ↦ false | some _ ↦ true ]))
        × (get j r' ≡ (if text_eq k j then none else get j r))
        × IsFiled h r'.upstreams
  unfolding remove get rebuild_by_provider
  get-remove iter k j h r v = elim (Option-cases (lookup k r.upstreams)) [
    | inl e ↦ rw (e, remove) (refl, ground (arith, text_eq_iff k j), v)
    | inr (p, e) ↦
        rw (e, remove)
          (refl, lookup-remove_key h k j r.upstreams v, remove_key-IsFiled h k r.upstreams v)
  ]

  grow-IsFiled :
      (h : Heap (Upstream F)) (u : Upstream F) (m : List (Text × ℕ))
      → IsFiled h m
      → IsFiled (alloc h u).1 m
  grow-IsFiled h u [] v = tt
  grow-IsFiled h u (e ∷ m) v = (omega arith, ground (arith, v.1), v.2, grow-IsFiled h u m v.3)

  insert-IsFiled :
      (h : Heap (Upstream F)) (k : Text) (p : ℕ) (m : List (Text × ℕ))
      → p < h.next
      → (h.at p).cfg.id ≡ k
      → IsFiled h m
      → IsFiled h (insert k p m)
  unfolding insert
  insert-IsFiled h k p [] fits own v = (fits, own, tt, tt)
  insert-IsFiled h k p (e ∷ m) fits own v =
      ground
        (arith, text_eq_iff e.0 k, insert-Absent k e.0 p m, insert-IsFiled h k p m fits own v.3)

module _ (fl : Float) where
  open fl use {F}

  -- `upsert` files a fresh upstream under its id. It stands at a new address, so every upstream that
  -- was there before is unchanged, also one that it replaces and that a request still holds. `get`
  -- finds the new address under this id and what it found before under every other.
  pub get-upsert :
      (iter : List (Text × ℕ) → List (Text × ℕ)) (now : ℕ) (cfg : UpstreamConfig F) (j : Text)
      (h : Heap (Upstream F)) (r : Registry)
      → IsFiled h r.upstreams
      → let (h', r') = upsert fl iter now cfg h r in
        (get j r' ≡ (if text_eq cfg.id j then some h.next else get j r))
        × (h'.at h.next ≡ from_config fl now cfg)
        × ((p : ℕ) → p < h.next → h'.at p ≡ h.at p)
        × IsFiled h' r'.upstreams
  unfolding upsert get rebuild_by_provider from_config
  get-upsert iter now cfg j h r v = (
    lookup-insert cfg.id j h.next r.upstreams,
    ground arith,
    (λ p fits. ground arith),
    insert-IsFiled (alloc h (from_config fl now cfg)).1 cfg.id h.next r.upstreams (omega arith)
        (ground arith) (grow-IsFiled h (from_config fl now cfg) r.upstreams v),
  )
