-- ===== src/Auth/Store.antt =====
-- src/auth/mod.rs: what the store finds after keys are added and removed.
use polyglotmesh.Prelude.{
  ℕ, ◌<◌, ◌≡◌, refl, true, false, not, none, some, [], ◌∷◌, ◌++◌, Text, text_eq, text_eq_iff,
  filter, length, length-filter-le, All, arith, if◌then◌else◌, ◌==◌, Heap, alloc,
}
use polyglotmesh.Config.{ApiKeyConfig}
use polyglotmesh.Auth.{IpNet, KeyRecord, AuthStore, lookup, remove_by_raw, add, from_config}
use polyglotmesh.Auth.Durations.{Chrono, done}

module _ {F Net : Type 0} where
  lookup-remove :
      (raw other : Text) (h : Heap (KeyRecord F Net)) (ks : AuthStore)
      → lookup other h (filter (λ p. not (text_eq (h.at p).raw raw)) ks)
        ≡ (if text_eq raw other then none else lookup other h ks)
  unfolding lookup
  lookup-remove raw other h [] = ground arith
  lookup-remove raw other h (p ∷ ks) = ground (
    arith,
    text_eq_iff (h.at p).raw raw,
    text_eq_iff (h.at p).raw other,
    text_eq_iff raw other,
    lookup-remove raw other h ks,
  )

  -- Whether a key is removed is whether one is found.
  found-remove :
      (raw : Text) (h : Heap (KeyRecord F Net)) (ks : AuthStore)
      → not (length ks == length (filter (λ p. not (text_eq (h.at p).raw raw)) ks))
        ≡ (elim (lookup raw h ks) [ none ↦ false | some p ↦ true ])
  unfolding lookup
  found-remove raw h [] = refl
  found-remove raw h (p ∷ ks) =
      ground
        (arith, found-remove raw h ks, length-filter-le (λ p. not (text_eq (h.at p).raw raw)) ks)

  -- `remove_by_raw` answers whether there was a key of that text; afterwards `lookup` finds none of
  -- that text, and every other as before.
  pub lookup-remove_by_raw :
      (raw other : Text) (h : Heap (KeyRecord F Net)) (ks : AuthStore)
      → let (removed, ks') = remove_by_raw raw h ks in
        (removed ≡ (elim (lookup raw h ks) [ none ↦ false | some p ↦ true ]))
        × (lookup other h ks' ≡ (if text_eq raw other then none else lookup other h ks))
  unfolding remove_by_raw
  lookup-remove_by_raw raw other h ks = (found-remove raw h ks, lookup-remove raw other h ks)

  -- Every key stands in the heap.
  unfoldable pub IsStored : Heap (KeyRecord F Net) → AuthStore → Type 0
  IsStored h ks = All (λ p. p < h.next) ks

  pub lookup-alloc :
      (raw : Text) (h : Heap (KeyRecord F Net)) (r : KeyRecord F Net) (ks : AuthStore)
      → IsStored h ks
      → lookup raw (alloc h r).1 (ks ++ (h.next ∷ [])) ≡ (elim (lookup raw h ks) [
        | some p ↦ some p
        | none ↦ if text_eq r.raw raw then some h.next else none
      ])
  unfolding lookup IsStored
  lookup-alloc raw h r [] v = ground arith
  lookup-alloc raw h r (p ∷ ks) v = ground (arith, v.0, lookup-alloc raw h r ks v.1)

  IsStored-alloc :
      (h : Heap (KeyRecord F Net)) (r : KeyRecord F Net) (ks : AuthStore)
      → IsStored h ks
      → IsStored (alloc h r).1 (ks ++ (h.next ∷ []))
  unfolding IsStored
  IsStored-alloc h r [] v = (omega arith, tt)
  IsStored-alloc h r (p ∷ ks) v = (omega (arith, v.0), IsStored-alloc h r ks v.1)

module _ {F : Type 0} (ch : Chrono) (net : IpNet) where
  open net use {Net}

  -- `add` with a configuration that makes a record: the older keys come first, so a text that was
  -- there is still found where it was, and the new key is found by its own text if no older key has
  -- it. The records that were there are unchanged.
  pub lookup-add :
      (now : ℕ) (cfg : ApiKeyConfig F) (rec : KeyRecord F Net) (raw : Text)
      (h : Heap (KeyRecord F Net)) (ks : AuthStore)
      → from_config ch net now cfg ≡ done (some rec)
      → IsStored h ks
      → (h' : Heap (KeyRecord F Net)) × (ks' : AuthStore) × (add ch net now cfg h ks
          ≡ done (h', ks'))
        × (lookup raw h' ks' ≡ (elim (lookup raw h ks) [
          | some p ↦ some p
          | none ↦ if text_eq rec.raw raw then some h.next else none
        ]))
        × (h'.at h.next ≡ rec)
        × ((p : ℕ) → p < h.next → h'.at p ≡ h.at p)
        × IsStored h' ks'
  unfolding add
  lookup-add now cfg rec raw h ks e v = (
    (alloc h rec).1,
    ks ++ (h.next ∷ []),
    rw (e, add) refl,
    lookup-alloc raw h rec ks v,
    ground arith,
    (λ p fits. ground arith),
    IsStored-alloc h rec ks v,
  )
