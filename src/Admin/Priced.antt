-- ===== src/Admin/Priced.antt =====
-- src/admin/mod.rs and src/state.rs: the prices of an upstream, and a reload of the configuration,
-- leave the registry with the upstreams of the configuration.
use polyglotmesh.Prelude.{
  ℕ, ◌≤◌, ◌<◌, ◌≡◌, refl, sym, ap, ◌∙◌, true, Option, none, some, List, [], ◌∷◌, Text, text_eq, any,
  arith, Heap, inl, inr, Option-cases,
}
use polyglotmesh.Config.{UpstreamConfig}
use polyglotmesh.Upstream.{Upstream}
use polyglotmesh.Pricing.{set_model_info}
use polyglotmesh.Registry.{Registry, get}
use polyglotmesh.Registry.Order.{IsFiled}
use polyglotmesh.AppState.{Host, Clock, App, save_to_disk}
use polyglotmesh.Admin.Upstreams.{change_first, find_config}
use polyglotmesh.Admin.Prices.{
  PricesBody, price_config, price_entry, store_upstream, set_upstream_prices,
}
use polyglotmesh.Admin.Agreement.{Agrees, registered, get-IsFiled}
use polyglotmesh.Admin.Consistent.{change-Agrees, IsConsistent}
use polyglotmesh.Admin.Untouched.{Untouched}

module _ {F : Type 0} where
  find-any :
      (id : Text) (cs : List (UpstreamConfig F)) (c : UpstreamConfig F)
      → find_config id cs ≡ some c
      → any (λ (d : UpstreamConfig F). text_eq d.id id) cs ≡ true
  find-any id [] c e = cc
  find-any id (d ∷ cs) c e = ground (arith, e, find-any id cs c)

  live-IsFiled :
      (h h' : Heap (Upstream F)) (m : List (Text × ℕ))
      → h.next ≤ h'.next
      → ((p : ℕ) → p < h.next → (h'.at p).cfg ≡ (h.at p).cfg)
      → IsFiled h m
      → IsFiled h' m
  live-IsFiled h h' [] grown live v = tt
  live-IsFiled h h' (e ∷ m) grown live v = (
    omega (arith, v.0),
    ap (λ (c : UpstreamConfig F). c.id) (live e.1 v.0) ∙ v.1,
    v.2,
    live-IsFiled h h' m grown live v.3,
  )

  live-registered :
      (h h' : Heap (Upstream F)) (r : Registry) (j : Text)
      → ((p : ℕ) → p < h.next → (h'.at p).cfg ≡ (h.at p).cfg)
      → IsFiled h r.upstreams
      → registered h' r j ≡ registered h r j
  live-registered h h' r j live v = elim (Option-cases (get j r)) [
    | inl e ↦ rw e refl
    | inr (p, e) ↦ rw e (ap some (live p (get-IsFiled h r j p v e).0))
  ]

module _ (host : Host) where
  open host use {fl, iter}
  open fl use {F}

  pub Untouched-IsConsistent :
      (s s' : App host) → Untouched host s s' → IsConsistent host s → IsConsistent host s'
  Untouched-IsConsistent s s' u a =
      rw (u.registry, u.configured)
        (record {
          filed = live-IsFiled s.upstreams s'.upstreams s.registry.upstreams u.grown u.live a.filed;
          same =
              λ j. live-registered s.upstreams s'.upstreams s.registry j u.live a.filed ∙ a.same j;
        })

  store_upstream-IsConsistent :
      (t : Clock) (c : Option (UpstreamConfig F)) (s : App host)
      → IsConsistent host s
      → IsConsistent host (store_upstream host t c s)
  store_upstream-IsConsistent t none s a = a
  store_upstream-IsConsistent t (some c) s a = a

  price_entry-IsConsistent :
      (t : Clock) (id : Text) (body : PricesBody F) (n : ℕ) (s : App host)
      → any (λ (c : UpstreamConfig F). text_eq c.id id) s.config.upstreams ≡ true
      → Agrees s.upstreams s.registry (change_first id (price_config body) s.config.upstreams)
      → IsConsistent host (price_entry host t id body n s).1
  unfolding save_to_disk
  price_entry-IsConsistent t id body n s there a =
      rw (there, price_entry) (store_upstream-IsConsistent t _ _ a)

  pub set_upstream_prices-IsConsistent :
      (t : Clock) (id : Text) (body : PricesBody F) (s : App host)
      → IsConsistent host s
      → IsConsistent host (set_upstream_prices host t id body s).1
  unfolding set_upstream_prices set_model_info
  set_upstream_prices-IsConsistent t id body s a = elim (Option-cases (get id s.registry)) [
    | inl e ↦ rw (e, set_upstream_prices) a
    | inr (p, e) ↦
        rw (e, set_upstream_prices)
          (price_entry-IsConsistent t id body _ _
            (find-any id s.config.upstreams (s.upstreams.at p).cfg (sym (a.same id) ∙ rw e refl))
            (change-Agrees id p (set_model_info body.prices body.merge (s.upstreams.at p))
              (price_config body) s.upstreams s.registry s.config.upstreams e refl (λ c. refl) a))
  ]
