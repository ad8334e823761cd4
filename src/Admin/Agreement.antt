-- ===== src/Admin/Agreement.antt =====
-- src/admin/mod.rs: the configuration of each upstream as the registry holds it, and what a change of
-- either side does to it.
use polyglotmesh.Prelude.{
  ℕ, ◌<◌, ◌≡◌, refl, ap, Option, none, some, List, [], ◌∷◌, ◌++◌, Text, text_eq, text_eq_iff, arith,
  if◌then◌else◌, Heap, write, inl, inr, Option-cases, Bool-cases,
}
use polyglotmesh.Float.{Float}
use polyglotmesh.Config.{UpstreamConfig}
use polyglotmesh.Upstream.{Upstream, from_config}
use polyglotmesh.Registry.{Registry, get, lookup, upsert, remove}
use polyglotmesh.Registry.Order.{IsFiled}
use polyglotmesh.Registry.Lookup.{get-upsert, get-remove}
use polyglotmesh.Admin.Upstreams.{retain_others, change_first, find_config}

module _ {F : Type 0} where
  -- The configuration of the upstream at an address that may be there.
  abbrev pub config_at : Heap (Upstream F) → Option ℕ → Option (UpstreamConfig F)
  config_at h none = none
  config_at h (some p) = some (h.at p).cfg

  -- The configuration of the registered upstream of this id.
  abbrev pub registered : Heap (Upstream F) → Registry → Text → Option (UpstreamConfig F)
  registered h r id = config_at h (get id r)

  lookup-IsFiled :
      (h : Heap (Upstream F)) (j : Text) (p : ℕ) (m : List (Text × ℕ))
      → IsFiled h m
      → lookup j m ≡ some p
      → (p < h.next) × ((h.at p).cfg.id ≡ j)
  unfolding lookup
  lookup-IsFiled h j p [] v e = ground arith
  lookup-IsFiled h j p (d ∷ m) v e =
      ground (arith, e, v.0, v.1, text_eq_iff d.0 j, lookup-IsFiled h j p m v.3)

  pub get-IsFiled :
      (h : Heap (Upstream F)) (r : Registry) (j : Text) (p : ℕ)
      → IsFiled h r.upstreams
      → get j r ≡ some p
      → (p < h.next) × ((h.at p).cfg.id ≡ j)
  unfolding get
  get-IsFiled h r j p v e = lookup-IsFiled h j p r.upstreams v e

  pub find-retain :
      (id j : Text) (cs : List (UpstreamConfig F)) (c : UpstreamConfig F)
      → c.id ≡ id
      → find_config j (retain_others id cs ++ (c ∷ []))
        ≡ (if text_eq id j then some c else find_config j cs)
  unfolding retain_others
  find-retain id j [] c own = ground (arith, own)
  find-retain id j (d ∷ cs) c own = ground (
    arith,
    own,
    text_eq_iff d.id id,
    text_eq_iff d.id j,
    text_eq_iff id j,
    find-retain id j cs c own,
  )

  pub find-retain_gone :
      (id j : Text) (cs : List (UpstreamConfig F))
      → find_config j (retain_others id cs) ≡ (if text_eq id j then none else find_config j cs)
  unfolding retain_others
  find-retain_gone id j [] = ground arith
  find-retain_gone id j (d ∷ cs) =
      ground
        (arith, text_eq_iff d.id id, text_eq_iff d.id j, text_eq_iff id j, find-retain_gone id j cs)

  abbrev pub map_config :
      (UpstreamConfig F → UpstreamConfig F) → Option (UpstreamConfig F) → Option (UpstreamConfig F)
  map_config f none = none
  map_config f (some c) = some (f c)

  pub find-change :
      (id j : Text) (f : UpstreamConfig F → UpstreamConfig F) (cs : List (UpstreamConfig F))
      → ((c : UpstreamConfig F) → (f c).id ≡ c.id)
      → find_config j (change_first id f cs)
        ≡ (if text_eq id j then map_config f (find_config j cs) else find_config j cs)
  unfolding change_first
  find-change id j f [] keeps = ground arith
  find-change id j f (d ∷ cs) keeps = ground (
    arith,
    keeps d,
    text_eq_iff d.id id,
    text_eq_iff d.id j,
    text_eq_iff id j,
    find-change id j f cs keeps,
  )

module _ {F : Type 0} where
  -- Heaps whose objects in use have the same configurations.
  config_at-same :
      (h h' : Heap (Upstream F)) (r : Registry) (j : Text)
      → IsFiled h r.upstreams
      → ((p : ℕ) → p < h.next → h'.at p ≡ h.at p)
      → config_at h' (get j r) ≡ registered h r j
  config_at-same h h' r j v same = elim (Option-cases (get j r)) [
    | inl e ↦ rw e refl
    | inr (p, e) ↦ rw e (ap (λ (u : Upstream F). some u.cfg) (same p (get-IsFiled h r j p v e).0))
  ]

module _ (fl : Float) where
  open fl use {F}

  pub registered-upsert :
      (iter : List (Text × ℕ) → List (Text × ℕ)) (now : ℕ) (cfg : UpstreamConfig F) (j : Text)
      (h : Heap (Upstream F)) (r : Registry)
      → IsFiled h r.upstreams
      → let (h', r') = upsert fl iter now cfg h r in
        (registered h' r' j ≡ (if text_eq cfg.id j then some cfg else registered h r j))
        × IsFiled h' r'.upstreams
  unfolding from_config
  registered-upsert iter now cfg j h r v =
      let (found, made, same, filed) = get-upsert fl iter now cfg j h r v in
      let h' = (upsert fl iter now cfg h r).0 in
      (
        elim (Bool-cases (text_eq cfg.id j)) [
          | inl e ↦ rw (found, e) (ap (λ (u : Upstream F). some u.cfg) made)
          | inr e ↦ rw (found, e) (config_at-same h h' r j v same)
        ],
        filed,
      )

module _ {F : Type 0} where
  pub registered-remove :
      (iter : List (Text × ℕ) → List (Text × ℕ)) (id j : Text) (h : Heap (Upstream F))
      (r : Registry)
      → IsFiled h r.upstreams
      → let r' = (remove iter id h r).1 in
        (registered h r' j ≡ (if text_eq id j then none else registered h r j))
        × IsFiled h r'.upstreams
  registered-remove iter id j h r v =
      let (_, found, filed) = get-remove iter id j h r v in
      (
        elim (Bool-cases (text_eq id j)) [
          | inl e ↦ rw (found, e) refl
          | inr e ↦ rw (found, e) refl
        ],
        filed,
      )

  -- A write of an upstream under its id.
  write-IsFiled :
      (h : Heap (Upstream F)) (p : ℕ) (u : Upstream F) (m : List (Text × ℕ))
      → u.cfg.id ≡ (h.at p).cfg.id
      → IsFiled h m
      → IsFiled (write h p u) m
  write-IsFiled h p u [] own v = tt
  write-IsFiled h p u (e ∷ m) own v =
      (v.0, ground (arith, v.1, own), v.2, write-IsFiled h p u m own v.3)

  pub registered-write :
      (h : Heap (Upstream F)) (r : Registry) (id j : Text) (p : ℕ) (u : Upstream F)
      → IsFiled h r.upstreams
      → get id r ≡ some p
      → u.cfg.id ≡ (h.at p).cfg.id
      → (registered (write h p u) r j ≡ (if text_eq id j then some u.cfg else registered h r j))
        × IsFiled (write h p u) r.upstreams
  registered-write h r id j p u v e own =
      let own_id = get-IsFiled h r id p v e in
      (
        elim (Option-cases (get j r)) [
          | inl f ↦ rw f (ground (arith, e, f, text_eq_iff id j))
          | inr (q, f) ↦
              rw f (ground (arith, e, f, text_eq_iff id j, own_id, get-IsFiled h r j q v f))
        ],
        write-IsFiled h p u r.upstreams own v,
      )

  -- The configuration and the registry hold the same upstreams.
  pub record Agrees (h : Heap (Upstream F)) (r : Registry) (cs : List (UpstreamConfig F))
      : Type 0 where
    pub filed : IsFiled h r.upstreams
    pub same : (j : Text) → registered h r j ≡ find_config j cs
