-- ===== src/Proxy/KeySlots.antt =====
-- src/proxy/mod.rs: which requests give the slot of their key back.
use polyglotmesh.Prelude.{
  ℕ, ◌≡◌, refl, ap, subst, Bool, true, false, Option, none, some, Text, if◌then◌else◌, Heap, ◌==◌,
  sub32, ltb, arith, Bool-cases, inl, inr,
}
use polyglotmesh.Float.{Float}
use polyglotmesh.Config.{ProviderKind}
use polyglotmesh.Error.{RouterResult, ok, err}
use polyglotmesh.Auth.{KeyRecord, IpNet}
use polyglotmesh.Auth.Durations.{Chrono}
use polyglotmesh.Auth.Gate.{release, record_usage, count_tokens}
use polyglotmesh.Storage.{Storage}
use polyglotmesh.Accounts.{record_key_usage, release_key}
use polyglotmesh.Proxy.{Json, check_key_authorization, read_model}
use polyglotmesh.Proxy.Forward.{Headers, Response, Router}
use polyglotmesh.Proxy.Dispatch.{Setup}
use polyglotmesh.Proxy.Handler.{
  BodyRead, body_read, body_failed, Server, record_answer, settle_key, after_dispatch, handle,
}

module _ (fl : Float) (ch : Chrono) (net : IpNet) (js : Json (Float.F fl))
    (st : Setup (Float.F fl)) where
  open fl use {F}
  open net use {Net}

  -- Whether the handler gets as far as the dispatch.
  abbrev pub dispatches : ProviderKind → BodyRead → ℕ → Heap (KeyRecord F Net) → Bool
  dispatches kind (body_failed text) p keys = false
  dispatches kind (body_read body) p keys = check_key_authorization (keys.at p) none kind

  -- What a release leaves of a counter.
  abbrev pub given_back : KeyRecord F Net → ℕ
  given_back r =
      if ltb 0 r.max_parallel_requests then sub32 r.usage.in_flight 1 else r.usage.in_flight

  record_usage-slot :
      (now i o : ℕ) (cost : F) (r : KeyRecord F Net)
      → (release (record_usage fl ch net now i o cost r)).usage.in_flight ≡ given_back r
  unfolding release record_usage count_tokens
  record_usage-slot now i o cost r = ground arith

  release-slot : (r : KeyRecord F Net) → (release r).usage.in_flight ≡ given_back r
  unfolding release
  release-slot r = ground arith

  record_answer-slot :
      (model : Option Text) (resp : RouterResult (Response × Option (ℕ × ℕ × F))) (now : ℕ)
      (r : KeyRecord F Net) (db : Storage F)
      → (release (record_answer fl ch net js st model resp now r db).0).usage.in_flight
        ≡ given_back r
  unfolding record_answer record_key_usage
  record_answer-slot model (ok (resp, some (i, o, cost))) now r db =
      record_usage-slot now i o cost r
  record_answer-slot model (ok (resp, none)) now r db = release-slot r
  record_answer-slot model (err e) now r db = release-slot r

  -- The counter of the key at `p` afterwards, and the other keys.
  abbrev pub Leaves : ℕ → ℕ → Server F Net → Server F Net → Type 0
  Leaves p n s s' =
      ((s'.keys.at p).usage.in_flight ≡ n)
      × ((q : ℕ) → (q == p) ≡ false → s'.keys.at q ≡ s.keys.at q)

  some_injective : {A : Type 0} {a b : A} → some a ≡ some b → a ≡ b
  some_injective e = cc

  settle-Leaves :
      (model : Option Text) (resp : RouterResult (Response × Option (ℕ × ℕ × F))) (p : ℕ)
      (s : Server F Net)
      → Leaves p (given_back (s.keys.at p)) s (settle_key fl ch net js st model resp (some p) s)
  unfolding settle_key release_key
  settle-Leaves model resp p s =
      let self : (p == p) ≡ true = ground arith in
      (
        rw self (record_answer-slot model resp (st.utc s.router.world.now) (s.keys.at p) s.db),
        λ q other. rw other refl,
      )

  after_dispatch-Leaves :
      (model : Option Text) (p : ℕ) (s : Server F Net)
      (d : Option (RouterResult (Response × Option (ℕ × ℕ × F)) × Router F))
      (a : RouterResult Response) (s' : Server F Net)
      → after_dispatch fl ch net js st model (some p) s d ≡ some (a, s')
      → Leaves p (given_back (s.keys.at p)) s s'
  after_dispatch-Leaves model p s none a s' e = cc
  after_dispatch-Leaves model p s (some (resp, router)) a s' e =
      subst (Leaves p (given_back (s.keys.at p)) s) (ap (λ x. x.1) (some_injective e))
        (settle-Leaves model resp p (record s { router = router }))

  -- A handler that ends gives one slot of a capped key back exactly if the body was read and the key
  -- may use the provider; otherwise, and for any other key, the counter stays.
  pub handle-Leaves :
      (kind : ProviderKind) (accepts : Bool) (hs : Headers) (body : BodyRead) (p : ℕ)
      (s : Server F Net) (a : RouterResult Response) (s' : Server F Net)
      → handle fl ch net js st kind accepts hs body (some p) s ≡ some (a, s')
      → Leaves p
          (if dispatches kind body p s.keys
            then given_back (s.keys.at p)
            else (s.keys.at p).usage.in_flight)
          s
          s'
  unfolding handle
  handle-Leaves kind accepts hs (body_failed text) p s a s' e =
      subst (Leaves p (s.keys.at p).usage.in_flight s) (ap (λ x. x.1) (some_injective e))
        (refl, λ q other. refl)
  handle-Leaves kind accepts hs (body_read body) p s a s' e =
      elim (Bool-cases (check_key_authorization (s.keys.at p) none kind)) [
        | inl allowed ↦
            rw allowed (after_dispatch-Leaves (read_model js body) p s _ a s' (rw allowed at e))
        | inr refused ↦ rw refused (
            subst (Leaves p (s.keys.at p).usage.in_flight s)
              (ap (λ x. x.1) (some_injective (rw refused at e))) (refl, λ q other. refl))
      ]
