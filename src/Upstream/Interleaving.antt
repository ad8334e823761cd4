-- ===== src/Upstream/Interleaving.antt =====
-- src/upstream/mod.rs: the slots of an upstream under every interleaving of the atomic steps of the
-- requests that share it.
use polyglotmesh.Prelude.{ℕ, ◌+◌, ◌-◌, ◌≤◌, ◌<◌, ◌≡◌, ◌⊎◌, Bool, true, false, some, arith, u32_mod}
use polyglotmesh.Float.{Float}
use polyglotmesh.Upstream.{Upstream, reserve, release, pass_bucket, record_success, record_failure}
use polyglotmesh.Upstream.Slots.{pass_bucket_cases}

-- One upstream under concurrent requests. `try_acquire` is two atomic steps: the slot is reserved,
-- then the rate limit lets the request go on or sends it back. Failures, successes, health checks
-- and the clock come in between as they like.
pub record System (F : Type 0) : Type 0 where
  pub up : Upstream F
  pub reserving : ℕ
  pub holding : ℕ

module _ (fl : Float) where
  open fl use {F}

  pub data Step (s : System F) : System F → Type 0 where
    reserves :
        (v : Upstream F)
        → reserve s.up ≡ some v
        → Step s (record s { up = v; reserving = s.reserving + 1 })
    passes :
        (now : ℕ) (v : Upstream F)
        → 0 < s.reserving
        → pass_bucket fl now s.up ≡ (true, v)
        → Step s (record s { up = v; reserving = s.reserving - 1; holding = s.holding + 1 })
    sent_back :
        (now : ℕ) (v : Upstream F)
        → 0 < s.reserving
        → pass_bucket fl now s.up ≡ (false, v)
        → Step s (record s { up = v; reserving = s.reserving - 1 })
    releases : 0 < s.holding → Step s (record s { up = release s.up; holding = s.holding - 1 })
    succeeds : (now : ℕ) → Step s (record s { up = record_success now s.up })
    fails : (now : ℕ) → Step s (record s { up = record_failure now s.up })
    pauses : (p : Bool) → Step s (record s { up = record s.up { paused = p } })

  pub data Reach (s : System F) : System F → Type 0 where
    here : Reach s s
    next : {t u : System F} → Reach s t → Step t u → Reach s u

  -- With a limit, the counter is the number of requests that have a slot, and is within the limit.
  pub record IsCounted (s : System F) : Type 0 where
    pub fits : s.up.cfg.max_concurrency < u32_mod
    pub counted :
        (s.up.cfg.max_concurrency ≡ 0)
        ⊎ ((s.up.in_flight ≡ s.reserving + s.holding) × (s.up.in_flight ≤ s.up.cfg.max_concurrency))

  Step-IsCounted : {s t : System F} → Step s t → IsCounted s → IsCounted t
  unfolding reserve release record_success record_failure
  Step-IsCounted {s} (reserves v e) c = ground arith
  Step-IsCounted {s} (passes now v h e) c = ground (arith, pass_bucket_cases fl now s.up)
  Step-IsCounted {s} (sent_back now v h e) c = ground (arith, pass_bucket_cases fl now s.up)
  Step-IsCounted {s} (releases h) c = ground arith
  Step-IsCounted {s} (succeeds now) c = ground arith
  Step-IsCounted {s} (fails now) c = ground arith
  Step-IsCounted {s} (pauses p) c = ground arith

  -- Whatever the order of the steps, from a system that is counted every system reached is: the
  -- counter of an upstream with a limit is the number of requests that hold or have reserved a slot,
  -- and never exceeds the limit.
  pub Reach-IsCounted : {s t : System F} → IsCounted s → Reach s t → IsCounted t
  Reach-IsCounted c here = c
  Reach-IsCounted c (next r st) = Step-IsCounted st (Reach-IsCounted c r)
