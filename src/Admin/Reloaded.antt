-- ===== src/Admin/Reloaded.antt =====
-- src/state.rs: after a reload the registry holds the upstreams of the file.
use mathlib.Core.List.{Mem, Perm, mem-cons, not-mem-nil}
use mathlib.Core.Logic.Or
use mathlib.Core.Bool.{Bool-set}
use mathlib.Core.List.Perm
use polyglotmesh.Prelude.{
  ℕ, ◌≡◌, refl, sym, ap, ◌∙◌, ◌≢◌, Bool, true, false, ◌||◌, Option, none, some, List, [], ◌∷◌, Text,
  text_eq, text_eq_iff, any, map, All, arith, if◌then◌else◌, Heap, inl, inr, Option-cases,
  Bool-cases,
}
use polyglotmesh.Config.{Config, UpstreamConfig}
use polyglotmesh.Upstream.{Upstream}
use polyglotmesh.Storage.Tally.{some_injective}
use polyglotmesh.Registry
use polyglotmesh.Registry.{Registry, get, lookup, upsert_all, upsert, all}
use polyglotmesh.Registry.Order.{IsFiled}
use polyglotmesh.AppState.{Host, Clock, App, remove_all, replace_upstreams}
use polyglotmesh.Admin.Upstreams.{find_config}
use polyglotmesh.Admin.Agreement.{
  Agrees, registered, get-IsFiled, registered-upsert, registered-remove,
}

any-mem :
    {A : Type 0} (p : A → Bool) (a : A) (xs : List A) → Mem a xs → p a ≡ true → any p xs ≡ true
any-mem p a [] m e = absurd (not-mem-nil m)
any-mem p a (x ∷ xs) m e =
    Or.elim (Bool-set _ _) (mem-cons.0 m) (λ q. ground (arith, e, ap p q))
      (λ n. ground (arith, any-mem p a xs n e))

module _ {F : Type 0} where
  -- The ids of the upstreams at these addresses.
  abbrev ids_of : Heap (Upstream F) → List ℕ → List Text
  ids_of h ps = map (λ p. (h.at p).cfg.id) ps

  listed :
      (h : Heap (Upstream F)) (j : Text) (p : ℕ) (m : List (Text × ℕ))
      → lookup j m ≡ some p
      → Mem p (map (λ (e : Text × ℕ). e.1) m)
  unfolding lookup
  listed h j p [] e = absurd (none_there e)
    where
      none_there : ◌≡◌ {A = Option ℕ} none (some p) → ⊥
      none_there q = cc
  listed h j p (d ∷ m) e = elim (Bool-cases (text_eq d.0 j)) [
    | inl own ↦ mem-cons.1 (Or.inl (sym (some_injective (rw own at e))))
    | inr other ↦ mem-cons.1 (Or.inr (listed h j p m (rw other at e)))
  ]

  any-ids :
      (h : Heap (Upstream F)) (j : Text) (ps : List ℕ)
      → any (λ i. text_eq i j) (ids_of h ps) ≡ any (λ p. text_eq (h.at p).cfg.id j) ps
  any-ids h j [] = refl
  any-ids h j (p ∷ ps) = ap (λ b. text_eq (h.at p).cfg.id j || b) (any-ids h j ps)

  -- Every registered id is among those that are taken out.
  any-all :
      (iter : List (Text × ℕ) → List (Text × ℕ)) (h : Heap (Upstream F)) (r : Registry) (j : Text)
      (p : ℕ)
      → Perm (iter r.upstreams) r.upstreams
      → IsFiled h r.upstreams
      → get j r ≡ some p
      → any (λ i. text_eq i j) (ids_of h (all iter r)) ≡ true
  unfolding all get
  any-all iter h r j p perm v e =
      any-ids h j (all iter r)
      ∙ any-mem (λ q. text_eq (h.at q).cfg.id j) p (all iter r)
          ((Perm.mem_iff (Perm.map (λ (d : Text × ℕ). d.1) perm)).1 (listed h j p r.upstreams e))
          ((text_eq_iff (h.at p).cfg.id j).1 (get-IsFiled h r j p v e).1)

module _ (host : Host) where
  open host use {fl, iter}
  open fl use {F}

  registered-remove_all :
      (ids : List Text) (j : Text) (h : Heap (Upstream F)) (r : Registry)
      → IsFiled h r.upstreams
      → let r' = remove_all host ids h r in
        (registered h r' j ≡ (if any (λ i. text_eq i j) ids then none else registered h r j))
        × IsFiled h r'.upstreams
  unfolding remove_all
  registered-remove_all [] j h r v = (refl, v)
  registered-remove_all (i ∷ ids) j h r v =
      let (now, filed) = registered-remove iter i j h r v in
      let (later, filed') = registered-remove_all ids j h (Registry.remove iter i h r).1 filed in
      (ground (arith, now, later), filed')

  -- No id stands twice.
  abbrev pub AreApart : List (UpstreamConfig F) → Type 0
  AreApart [] = Unit
  AreApart (c ∷ cs) = All (λ (d : UpstreamConfig F). d.id ≢ c.id) cs × AreApart cs

  find-apart :
      (c : UpstreamConfig F) (cs : List (UpstreamConfig F))
      → All (λ (d : UpstreamConfig F). d.id ≢ c.id) cs
      → find_config c.id cs ≡ none
  find-apart c [] a = refl
  find-apart c (d ∷ cs) a = ground (arith, a.0, text_eq_iff d.id c.id, find-apart c cs a.1)

  abbrev or_before :
      Option (UpstreamConfig F) → Option (UpstreamConfig F) → Option (UpstreamConfig F)
  or_before (some c) o = some c
  or_before none o = o

  registered-upsert_all :
      (now : ℕ) (cs : List (UpstreamConfig F)) (j : Text) (h : Heap (Upstream F)) (r : Registry)
      → AreApart cs
      → IsFiled h r.upstreams
      → let (h', r') = upsert_all fl iter now cs h r in
        (registered h' r' j ≡ or_before (find_config j cs) (registered h r j))
        × IsFiled h' r'.upstreams
  unfolding upsert_all
  registered-upsert_all now [] j h r a v = (refl, v)
  registered-upsert_all now (c ∷ cs) j h r a v =
      let (here, filed) = registered-upsert fl iter now c j h r v in
      let next = upsert fl iter now c h r in
      let (there, filed') = registered-upsert_all now cs j next.0 next.1 a.1 filed in
      (ground (arith, here, there, text_eq_iff c.id j, find-apart c cs a.0), filed')

  or_before_nothing : (o : Option (UpstreamConfig F)) → or_before o none ≡ o
  or_before_nothing none = refl
  or_before_nothing (some c) = refl

  emptied :
      (j : Text) (h : Heap (Upstream F)) (r : Registry)
      → Perm (iter r.upstreams) r.upstreams
      → IsFiled h r.upstreams
      → registered h (remove_all host (ids_of h (all iter r)) h r) j ≡ none
  emptied j h r perm v = elim (Option-cases (get j r)) [
    | inl e ↦
        (registered-remove_all (ids_of h (all iter r)) j h r v).0
        ∙ rw e (unless (any (λ i. text_eq i j) (ids_of h (all iter r))))
    | inr (p, e) ↦
        (registered-remove_all (ids_of h (all iter r)) j h r v).0
        ∙ rw (any-all iter h r j p perm v e) refl
  ]
    where
      unless : (b : Bool) → ◌≡◌ {A = Option (UpstreamConfig F)} (if b then none else none) none
      unless true = refl
      unless false = refl

  -- The registry that is rebuilt in place holds the upstreams of the configuration.
  pub replace_upstreams-Agrees :
      (t : Clock) (cfg : Config F) (s : App host)
      → Perm (iter s.registry.upstreams) s.registry.upstreams
      → IsFiled s.upstreams s.registry.upstreams
      → AreApart cfg.upstreams
      → let s' = replace_upstreams host t cfg s in Agrees s'.upstreams s'.registry cfg.upstreams
  unfolding replace_upstreams
  replace_upstreams-Agrees t cfg s perm v apart =
      let ids = ids_of s.upstreams (all iter s.registry) in
      let r = remove_all host ids s.upstreams s.registry in
      let filed = (registered-remove_all ids [] s.upstreams s.registry v).1 in
      record {
        filed = (registered-upsert_all t.now cfg.upstreams [] s.upstreams r apart filed).1;
        same = λ j.
            (registered-upsert_all t.now cfg.upstreams j s.upstreams r apart filed).0
            ∙ (ap (or_before (find_config j cfg.upstreams))
                  (emptied j s.upstreams s.registry perm v)
                ∙ or_before_nothing (find_config j cfg.upstreams));
      }
