-- ===== src/Upstream/Slots.antt =====
-- src/upstream/mod.rs: the concurrency slots of `try_acquire` and `release`, each taken as one
-- atomic call.
use polyglotmesh.Prelude.{
  ℕ, ◌+◌, ◌≤◌, ◌<◌, ◌≡◌, refl, ap, ◌⊎◌, inl, inr, true, some, arith, ltb, if◌then◌else◌, u32_mod,
  Bool-cases, Option-cases,
}
use polyglotmesh.Float.{Float}
use polyglotmesh.Upstream.{
  Upstream, is_usable, reserve, release, take_token, pass_bucket, try_acquire,
}

module _ {F : Type 0} where
  -- The counter and the limit are u32 values, and the counter is within the limit, if there is one.
  pub record IsBounded (u : Upstream F) : Type 0 where
    pub limit_fits : u.cfg.max_concurrency < u32_mod
    pub within : (u.cfg.max_concurrency ≡ 0) ⊎ (u.in_flight ≤ u.cfg.max_concurrency)

  -- What one slot more or less means: nothing for an upstream with no limit.
  abbrev pub slots : Upstream F → ℕ → ℕ
  slots u n = if ltb 0 u.cfg.max_concurrency then n else 0

  reserve-some :
      (u v : Upstream F)
      → IsBounded u
      → reserve u ≡ some v
      → (v.in_flight ≡ u.in_flight + slots u 1) × IsBounded v × (v.cfg ≡ u.cfg)
  unfolding reserve
  reserve-some u v b e = ground arith

  release_reserved :
      (u v : Upstream F)
      → IsBounded v
      → (v.cfg ≡ u.cfg)
      → v.in_flight ≡ u.in_flight + slots u 1
      → (release v).in_flight ≡ u.in_flight
  unfolding release
  release_reserved u v b c e = ground (arith, ap (λ d. d.max_concurrency) c)

module _ (fl : Float) where
  open fl use {F}

  pub pass_bucket_cases :
      (now : ℕ) (u : Upstream F)
      → let (taken, v) = pass_bucket fl now u in
        (v.cfg ≡ u.cfg) × (v.in_flight ≡ (if taken then u else release u).in_flight)
  unfolding pass_bucket take_token release
  pass_bucket_cases now u = ground arith

  bucket_after_reserve :
      (now : ℕ) (u v : Upstream F)
      → IsBounded u
      → (v.in_flight ≡ u.in_flight + slots u 1) × IsBounded v × (v.cfg ≡ u.cfg)
      → let (taken, w) = pass_bucket fl now v in
        (w.in_flight ≡ u.in_flight + (if taken then slots u 1 else 0))
        × IsBounded w
        × (w.cfg ≡ u.cfg)
  bucket_after_reserve now u v b (more, vb, c) = ground (
    arith,
    pass_bucket_cases now v,
    release_reserved u v vb c more,
    Bool-cases (pass_bucket fl now v).0,
    ap (λ d. d.max_concurrency) c,
    ap (λ d. d.max_concurrency) (pass_bucket_cases now v).0,
  )

  -- One call takes a slot exactly if it succeeds and there is a limit; a refused call leaves the
  -- counter as it was, also where the rate limit refused after the slot was taken. The counter stays
  -- within the limit.
  pub try_acquire-in_flight :
      (now : ℕ) (u : Upstream F)
      → IsBounded u
      → let (taken, v) = try_acquire fl now u in
        (v.in_flight ≡ u.in_flight + (if taken then slots u 1 else 0))
        × IsBounded v
        × (v.cfg ≡ u.cfg)
  unfolding try_acquire
  try_acquire-in_flight now u b = elim (Bool-cases (is_usable now u)) [
    | inr e ↦ rw (e, try_acquire) (omega arith, b, refl)
    | inl e ↦ elim (Option-cases (reserve u)) [
      | inl full ↦ rw (e, full, try_acquire) (omega arith, b, refl)
      | inr (v, got) ↦
          rw (e, got, try_acquire) (bucket_after_reserve now u v b (reserve-some u v b got))
    ]
  ]

  -- A slot that a successful call took is given back by `release`.
  pub release-try_acquire :
      (now : ℕ) (u : Upstream F)
      → IsBounded u
      → (try_acquire fl now u).0 ≡ true
      → (release (try_acquire fl now u).1).in_flight ≡ u.in_flight
  release-try_acquire now u b h =
      let (more, vb, c) = try_acquire-in_flight now u b in release_reserved u _ vb c (rw h at more)
