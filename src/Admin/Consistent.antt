-- ===== src/Admin/Consistent.antt =====
-- src/admin/mod.rs: every handler of an upstream leaves the configuration and the registry with the
-- same upstreams.
use polyglotmesh.Prelude.{
  ℕ, ◌≡◌, refl, sym, ap, subst, ◌∙◌, Option, none, some, List, [], ◌∷◌, ◌++◌, Text, text_eq,
  text_eq_iff, is_empty, trim, arith, if◌then◌else◌, Heap, write, inl, inr, Option-cases,
  Bool-cases,
}
use polyglotmesh.Float.{Float}
use polyglotmesh.Config.{UpstreamConfig}
use polyglotmesh.Upstream.{Upstream}
use polyglotmesh.Registry.{Registry, get, upsert, remove}
use polyglotmesh.AppState.{Host, Clock, App, save_to_disk}
use polyglotmesh.Admin.Upstreams.{
  UpstreamInput, config_of, retain_others, change_first, find_config, act, create_upstream,
  update_upstream, delete_upstream, control_upstream, control_at,
}
use polyglotmesh.Admin.Agreement.{
  Agrees, registered, find-retain, find-retain_gone, find-change, map_config, registered-upsert,
  registered-remove, registered-write,
}

module _ (fl : Float) (iter : List (Text × ℕ) → List (Text × ℕ)) where
  open fl use {F}

  upsert-Agrees :
      (now : ℕ) (cfg : UpstreamConfig F) (h : Heap (Upstream F)) (r : Registry)
      (cs : List (UpstreamConfig F))
      → Agrees h r cs
      → let (h', r') = upsert fl iter now cfg h r in
        Agrees h' r' (retain_others cfg.id cs ++ (cfg ∷ []))
  upsert-Agrees now cfg h r cs a = record {
    filed = (registered-upsert fl iter now cfg [] h r a.filed).1;
    same = λ j.
        (registered-upsert fl iter now cfg j h r a.filed).0
        ∙ (ap (λ o. if text_eq cfg.id j then some cfg else o) (a.same j)
            ∙ sym (find-retain cfg.id j cs cfg refl));
  }

  remove-Agrees :
      (id : Text) (h : Heap (Upstream F)) (r : Registry) (cs : List (UpstreamConfig F))
      → Agrees h r cs
      → Agrees h (remove iter id h r).1 (retain_others id cs)
  remove-Agrees id h r cs a = record {
    filed = (registered-remove iter id [] h r a.filed).1;
    same = λ j.
        (registered-remove iter id j h r a.filed).0
        ∙ (ap (λ (o : Option (UpstreamConfig F)). if text_eq id j then none else o) (a.same j)
            ∙ sym (find-retain_gone id j cs));
  }

  -- Taking out an id twice is taking it out once.
  retain_twice :
      (id : Text) (cs : List (UpstreamConfig F))
      → retain_others id (retain_others id cs) ≡ retain_others id cs
  unfolding retain_others
  retain_twice id [] = refl
  retain_twice id (c ∷ cs) = ground (arith, retain_twice id cs)

module _ {F : Type 0} where
  change-same :
      (id j : Text) (p : ℕ) (u : Upstream F) (f : UpstreamConfig F → UpstreamConfig F)
      (h : Heap (Upstream F)) (r : Registry) (cs : List (UpstreamConfig F))
      → get id r ≡ some p
      → u.cfg ≡ f (h.at p).cfg
      → Agrees h r cs
      → (if text_eq id j then some u.cfg else registered h r j)
        ≡ (if text_eq id j then map_config f (find_config j cs) else find_config j cs)
  change-same id j p u f h r cs e changed a = elim (Bool-cases (text_eq id j)) [
    | inr other ↦ rw other (a.same j)
    | inl this ↦
        let here : registered h r j ≡ some (h.at p).cfg =
          rw (← (text_eq_iff id j).0 this, e) refl in
        rw (this, ← a.same j, here) (ap some changed)
  ]

  -- The same change on both sides.
  pub change-Agrees :
      (id : Text) (p : ℕ) (u : Upstream F) (f : UpstreamConfig F → UpstreamConfig F)
      (h : Heap (Upstream F)) (r : Registry) (cs : List (UpstreamConfig F))
      → get id r ≡ some p
      → u.cfg ≡ f (h.at p).cfg
      → ((c : UpstreamConfig F) → (f c).id ≡ c.id)
      → Agrees h r cs
      → Agrees (write h p u) r (change_first id f cs)
  change-Agrees id p u f h r cs e changed keeps a =
      let own = ap (λ (c : UpstreamConfig F). c.id) changed ∙ keeps (h.at p).cfg in
      record {
        filed = (registered-write h r id [] p u a.filed e own).1;
        same = λ j.
            (registered-write h r id j p u a.filed e own).0
            ∙ (change-same id j p u f h r cs e changed a ∙ sym (find-change id j f cs keeps));
      }

module _ (host : Host) where
  open host use {fl, iter}
  open fl use {F}

  -- The registry serves the upstreams of the configuration.
  abbrev pub IsConsistent : App host → Type 0
  IsConsistent s = Agrees s.upstreams s.registry s.config.upstreams

  pub create_upstream-IsConsistent :
      (t : Clock) (input : UpstreamInput F) (s : App host)
      → IsConsistent s
      → IsConsistent (create_upstream host t input s).1
  unfolding create_upstream save_to_disk
  create_upstream-IsConsistent t input s a = elim (Bool-cases (is_empty (trim input.id))) [
    | inl e ↦ rw (e, create_upstream) a
    | inr e ↦ elim (Bool-cases (is_empty (trim input.base_url))) [
      | inl f ↦ rw (e, f, create_upstream) a
      | inr f ↦ elim (Bool-cases (is_empty (trim input.api_key))) [
        | inl g ↦ rw (e, f, g, create_upstream) a
        | inr g ↦
            rw (e, f, g, create_upstream)
              (upsert-Agrees fl iter t.now (config_of input) s.upstreams s.registry
                s.config.upstreams a)
      ]
    ]
  ]

  pub update_upstream-IsConsistent :
      (t : Clock) (id : Text) (input : UpstreamInput F) (s : App host)
      → IsConsistent s
      → IsConsistent (update_upstream host t id input s).1
  unfolding update_upstream save_to_disk
  update_upstream-IsConsistent t id input s a = elim (Bool-cases (text_eq input.id id)) [
    | inr e ↦ rw (e, update_upstream) a
    | inl e ↦
        let removed = remove-Agrees fl iter id s.upstreams s.registry s.config.upstreams a in
        let added =
          upsert-Agrees fl iter t.now (config_of input) s.upstreams
            (remove iter id s.upstreams s.registry).1 (retain_others id s.config.upstreams)
            removed in
        let made =
          upsert fl iter t.now (config_of input) s.upstreams
            (remove iter id s.upstreams s.registry).1 in
        rw (e, update_upstream)
          (subst (λ cs. Agrees made.0 made.1 (cs ++ (config_of input ∷ [])))
            (ap (λ k. retain_others k (retain_others id s.config.upstreams))
                ((text_eq_iff input.id id).0 e)
              ∙ retain_twice fl iter id s.config.upstreams)
            added)
  ]

  pub delete_upstream-IsConsistent :
      (id : Text) (s : App host) → IsConsistent s → IsConsistent (delete_upstream host id s).1
  unfolding delete_upstream save_to_disk
  delete_upstream-IsConsistent id s a =
      remove-Agrees fl iter id s.upstreams s.registry s.config.upstreams a

  act-enabled :
      (action : Text) (u v : Upstream F)
      → act action u ≡ some v
      → v.cfg ≡ record (u.cfg) { enabled = v.cfg.enabled }
  unfolding act
  act-enabled action u v e = ground (arith, e)

  control_at-IsConsistent :
      (id action : Text) (p : ℕ) (s : App host)
      → get id s.registry ≡ some p
      → IsConsistent s
      → IsConsistent (control_at host id action p s (act action (s.upstreams.at p))).1
  unfolding save_to_disk
  control_at-IsConsistent id action p s e a = elim (Option-cases (act action (s.upstreams.at p))) [
    | inl f ↦ rw f a
    | inr (u, f) ↦ rw f (
        change-Agrees id p u (λ c. record c { enabled = u.cfg.enabled }) s.upstreams s.registry
          s.config.upstreams e (act-enabled action (s.upstreams.at p) u f) (λ c. refl) a)
  ]

  pub control_upstream-IsConsistent :
      (id action : Text) (s : App host)
      → IsConsistent s
      → IsConsistent (control_upstream host id action s).1
  unfolding control_upstream
  control_upstream-IsConsistent id action s a = elim (Option-cases (get id s.registry)) [
    | inl e ↦ rw (e, control_upstream) a
    | inr (p, e) ↦ rw (e, control_upstream) (control_at-IsConsistent id action p s e a)
  ]
