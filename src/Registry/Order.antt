-- ===== src/Registry/Order.antt =====
-- src/upstream/mod.rs: the priority order that `rebuild_by_provider` gives the upstreams.
use mathlib.Core.List.{Perm}
use mathlib.Core.List.Perm
use native.Mathlib.Nat.{ℕ_set}
use polyglotmesh.Prelude.{
  ℤ, pos_part, neg_part, ◌+◌, cmp_text, then_with, is_le, Heap, ℕ, ◌<◌, ◌≡◌, refl, sym, ap, ◌∙◌,
  subst, ◌≢◌, ◌⊎◌, true, List, [], ◌∷◌, map, All, Text, arith, Ordering, cmp_text_refl,
  eq_of_cmp_text, cmp_text-flip, cmp_text-flip_lt, cmp_text_trans,
}
use polyglotmesh.Config.{cmp_ℤ}
use polyglotmesh.Upstream.{Upstream}
use polyglotmesh.Sort.{
  IsSorted, IsOrder, sort_by, sort_by-perm, sort_by-IsSorted, All-sort_by, Apart,
}
use polyglotmesh.Sort.Unique.{AllApart, sort_by_unique}
use polyglotmesh.Registry.{
  Registry, Key, cmp_key, key_le, key_at, sorted_keys, rebuild_by_provider, all,
}

cmp_ℤ-total : (a b : ℤ) → cmp_ℤ a b ≡ Ordering.gt → cmp_ℤ b a ≡ Ordering.lt
cmp_ℤ-total a b h = ground arith

key_total : (a b : Key) → (key_le a b ≡ true) ⊎ (key_le b a ≡ true)
unfolding key_le cmp_key
key_total a b = ground (arith, cmp_text-flip a.1 b.1, cmp_text-flip_lt a.1 b.1)

key_trans : (a b c : Key) → key_le a b ≡ true → key_le b c ≡ true → key_le a c ≡ true
unfolding key_le cmp_key
key_trans a b c h k = ground (arith, cmp_text_trans a.1 b.1 c.1)

pub key_order : IsOrder key_le
key_order = record { total = key_total; trans = key_trans }

-- Keys with different ids do not tie.
key-Apart : (a b : Key) → a.1 ≢ b.1 → Apart key_le key_order a b
unfolding key_le cmp_key
key-Apart a b ne h k = ground (
  arith,
  eq_of_cmp_text a.1 b.1,
  cmp_text-flip a.1 b.1,
  cmp_text-flip_lt a.1 b.1,
  cmp_text_refl a.1,
  ne,
)

infix 40 ◌>ℤ◌
abbrev pub ◌>ℤ◌ : ℤ → ℤ → Type 0
a >ℤ b = pos_part b + neg_part a < pos_part a + neg_part b

le_cases :
    (p q : ℤ) (o : Ordering)
    → is_le (then_with (cmp_ℤ q p) o) ≡ true
    → (p >ℤ q) ⊎ (p ≡ q) × (o ≢ Ordering.gt)
le_cases p q o e = ground arith

module _ {F : Type 0} where
  -- What the registry keeps true: an upstream stands at an address in use, under its own id, and no
  -- id stands twice.
  abbrev pub IsFiled : Heap (Upstream F) → List (Text × ℕ) → Type 0
  IsFiled h [] = Unit
  IsFiled h (e ∷ m) =
      (e.1 < h.next) × ((h.at e.1).cfg.id ≡ e.0) × All (λ d. d.0 ≢ e.0) m × IsFiled h m

  keys_apart :
      (h : Heap (Upstream F)) (m : List (Text × ℕ))
      → IsFiled h m
      → AllApart key_le key_order (map (λ e. key_at h e.1) m)
  keys_apart h [] v = tt
  keys_apart h (e ∷ m) v = (others m v.2 v.3, keys_apart h m v.3)
    where
      others :
          (l : List (Text × ℕ))
          → All (λ d. d.0 ≢ e.0) l
          → IsFiled h l
          → All (Apart key_le key_order (key_at h e.1)) (map (λ d. key_at h d.1) l)
      others [] ne w = tt
      others (d ∷ l) ne w = (
        key-Apart (key_at h e.1) (key_at h d.1) (λ q. ne.0 (sym w.1 ∙ sym q ∙ v.1)),
        others l ne.1 w.3,
      )

  -- The order of the upstreams does not depend on the order in which the hash map is iterated.
  pub rebuild_by_provider-iter :
      (iter iter' : List (Text × ℕ) → List (Text × ℕ)) (h : Heap (Upstream F)) (r : Registry)
      → Perm (iter r.upstreams) r.upstreams
      → Perm (iter' r.upstreams) r.upstreams
      → IsFiled h r.upstreams
      → rebuild_by_provider iter h r ≡ rebuild_by_provider iter' h r
  unfolding rebuild_by_provider sorted_keys
  rebuild_by_provider-iter iter iter' h r p p' v =
      let apart = keys_apart h r.upstreams v in
      let e =
        sort_by_unique key_le key_order (hlevel ℕ_set) (Perm.map (λ d. key_at h d.1) (Perm.symm p))
          apart in
      let e' =
        sort_by_unique key_le key_order (hlevel ℕ_set) (Perm.map (λ d. key_at h d.1) (Perm.symm p'))
          apart in
      ap (λ ks. record r { by_provider = map (λ k. k.2) ks }) (sym e ∙ e')

  -- Reading the keys of the sorted addresses gives the sorted keys back.
  keys_back :
      (h : Heap (Upstream F)) (ks : List Key)
      → All (λ k. key_at h k.2 ≡ k) ks
      → map (key_at h) (map (λ k. k.2) ks) ≡ ks
  keys_back h [] a = refl
  keys_back h (k ∷ ks) a = cc (a.0, keys_back h ks a.1)

  keys_are_keys :
      (h : Heap (Upstream F)) (m : List (Text × ℕ))
      → All (λ k. key_at h k.2 ≡ k) (map (λ e. key_at h e.1) m)
  keys_are_keys h [] = tt
  keys_are_keys h (e ∷ m) = (refl, keys_are_keys h m)

  addresses :
      (h : Heap (Upstream F)) (m : List (Text × ℕ))
      → map (λ k. k.2) (map (λ e. key_at h e.1) m) ≡ map (λ e. e.1) m
  addresses h [] = refl
  addresses h (e ∷ m) = ap (λ l. e.1 ∷ l) (addresses h m)

  -- The first upstream has the higher priority, or the same one and an id that is not greater.
  abbrev pub Precedes : Upstream F → Upstream F → Type 0
  Precedes u v =
      (u.cfg.priority >ℤ v.cfg.priority)
      ⊎ (u.cfg.priority ≡ v.cfg.priority) × (cmp_text u.cfg.id v.cfg.id ≢ Ordering.gt)

  -- Each upstream precedes all that stand after it.
  abbrev pub InOrder : Heap (Upstream F) → List ℕ → Type 0
  InOrder h [] = Unit
  InOrder h (p ∷ ps) = All (λ q. Precedes (h.at p) (h.at q)) ps × InOrder h ps

  key_le-Precedes :
      (h : Heap (Upstream F)) (p q : ℕ)
      → key_le (key_at h p) (key_at h q) ≡ true
      → Precedes (h.at p) (h.at q)
  unfolding key_le cmp_key
  key_le-Precedes h p q e = le_cases (h.at p).cfg.priority (h.at q).cfg.priority _ e

  IsSorted-InOrder :
      (h : Heap (Upstream F)) (ps : List ℕ) → IsSorted key_le (map (key_at h) ps) → InOrder h ps
  IsSorted-InOrder h [] s = tt
  IsSorted-InOrder h (p ∷ ps) s = (each ps s.0, IsSorted-InOrder h ps s.1)
    where
      each :
          (qs : List ℕ)
          → All (λ k. key_le (key_at h p) k ≡ true) (map (key_at h) qs)
          → All (λ q. Precedes (h.at p) (h.at q)) qs
      each [] a = tt
      each (q ∷ qs) a = (key_le-Precedes h p q a.0, each qs a.1)

  -- After `rebuild_by_provider` the list holds every registered upstream once, by falling priority
  -- and, at equal priority, by rising id.
  pub rebuild_by_provider-IsSorted :
      (iter : List (Text × ℕ) → List (Text × ℕ)) (h : Heap (Upstream F)) (r : Registry)
      → let r' = rebuild_by_provider iter h r in
        InOrder h r'.by_provider × Perm r'.by_provider (all iter r)
  unfolding rebuild_by_provider sorted_keys all
  rebuild_by_provider-IsSorted iter h r =
      let ks = map (λ e. key_at h e.1) (iter r.upstreams) in
      (
        IsSorted-InOrder h (map (λ k. k.2) (sort_by key_le ks)) (
            subst (IsSorted key_le)
              (sym (
                keys_back h (sort_by key_le ks)
                  (All-sort_by key_le _ ks (keys_are_keys h (iter r.upstreams)))))
              (sort_by-IsSorted key_le key_order ks)),
        subst (λ l. Perm (map (λ k. k.2) (sort_by key_le ks)) l) (addresses h (iter r.upstreams))
            (Perm.map (λ k. k.2) (sort_by-perm key_le ks)),
      )
