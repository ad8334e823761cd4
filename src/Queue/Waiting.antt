-- ===== src/Queue/Waiting.antt =====
-- src/queue/mod.rs: the wait for an upstream ends, in time, and gives its slot in the queue back.
use polyglotmesh.Prelude.{
  ℕ, zero, suc, ◌+◌, ◌-◌, ◌*◌, ◌≤◌, ◌<◌, ◌≡◌, refl, ap, sym, subst, ◌⊎◌, inl, inr, false, none,
  some, List, [], ◌∷◌, arith, leb, leb→le, if◌then◌else◌, Bool-cases, Option-cases,
}
use polyglotmesh.Float.{Float}
use polyglotmesh.Config.{ProviderKind, kind_eq, as_str, QueueConfig, openai, anthropic}
use polyglotmesh.Error.{RouterResult, ok, err, no_healthy_upstream}
use polyglotmesh.Queue.{
  World, pending_for, reserve_wait, leave_wait, next_backoff, try_dispatch, wait_loop, wait_turn,
  acquire, count_waited, count_rejected, full_error, timeout_error,
}

leb_false→lt : (a b : ℕ) → leb a b ≡ false → b < a
leb_false→lt a b h = ground arith

module _ {F : Type 0} where
  -- A wait slot is refused exactly if there is a bound and that many wait already; it counts one
  -- more for its provider and none for the other.
  pub reserve_wait_lem :
      (cfg : QueueConfig) (kind j : ProviderKind) (w w' : World F)
      → reserve_wait cfg kind w ≡ some w'
      → (pending_for j w' ≡ pending_for j w + (if kind_eq j kind then 1 else 0))
        × ((cfg.max_queue_per_provider ≡ 0) ⊎ (pending_for kind w' ≤ cfg.max_queue_per_provider))
  unfolding reserve_wait pending_for
  reserve_wait_lem cfg openai openai w w' e = ground arith
  reserve_wait_lem cfg openai anthropic w w' e = ground arith
  reserve_wait_lem cfg anthropic openai w w' e = ground arith
  reserve_wait_lem cfg anthropic anthropic w w' e = ground arith

  pub leave_wait_lem :
      (kind j : ProviderKind) (w : World F)
      → pending_for j (leave_wait kind w) ≡ pending_for j w - (if kind_eq j kind then 1 else 0)
  unfolding leave_wait pending_for
  leave_wait_lem openai openai w = ground arith
  leave_wait_lem openai anthropic w = ground arith
  leave_wait_lem anthropic openai w = ground arith
  leave_wait_lem anthropic anthropic w = ground arith

module _ (fl : Float) where
  open fl use {F}

  pub try_dispatch-now :
      (ps : List ℕ) (w : World F)
      → ((try_dispatch fl ps w).1.now ≡ w.now)
        × ((try_dispatch fl ps w).1.pending_waits ≡ w.pending_waits)
  unfolding try_dispatch
  try_dispatch-now ps w = ground arith

  -- What a finished wait answers: an upstream, or the timeout, and that only once the deadline has
  -- passed.
  abbrev pub IsAnswer : ProviderKind → ℕ → RouterResult ℕ × World F → Type 0
  IsAnswer kind deadline (ok p, w) = Unit
  IsAnswer kind deadline (err e, w) = (e ≡ timeout_error kind) × (deadline ≤ w.now)

  -- The deadline of a request that starts to wait in this world.
  abbrev pub deadline_of : QueueConfig → World F → ℕ
  deadline_of cfg w = w.now + cfg.queue_wait_timeout_ms * 1_000_000

  -- How `acquire` can end: an upstream was found, there was none to try, the queue was full, or the
  -- time to wait is over.
  pub data Ends (cfg : QueueConfig) (ps : List ℕ) (kind : ProviderKind) (w : World F)
      : RouterResult ℕ × World F → Type 0 where
    dispatched : {p : ℕ} {w' : World F} → Ends cfg ps kind w (ok p, w')
    no_upstream :
        {w' : World F} → ps ≡ [] → Ends cfg ps kind w (err (no_healthy_upstream (as_str kind)), w')
    queue_full :
        {w' : World F}
        → 0 < cfg.max_queue_per_provider
        → cfg.max_queue_per_provider ≤ pending_for kind w
        → Ends cfg ps kind w (err (full_error kind (pending_for kind w)), w')
    timed_out :
        {w' : World F}
        → deadline_of cfg w ≤ w'.now
        → Ends cfg ps kind w (err (timeout_error kind), w')

  Ends-of_answer :
      (cfg : QueueConfig) (ps : List ℕ) (kind : ProviderKind) (w : World F)
      (r : RouterResult ℕ × World F)
      → IsAnswer kind (deadline_of cfg w) r
      → Ends cfg ps kind w r
  Ends-of_answer cfg ps kind w (ok p, w') a = dispatched
  Ends-of_answer cfg ps kind w (err e, w') a =
      subst (λ x. Ends cfg ps kind w (err x, w')) (sym a.0) (timed_out a.1)

  left-IsAnswer :
      (kind : ProviderKind) (deadline : ℕ) (r : RouterResult ℕ × World F)
      → IsAnswer kind deadline r
      → IsAnswer kind deadline (r.0, leave_wait kind r.1)
  unfolding leave_wait
  left-IsAnswer kind deadline (ok p, w') a = tt
  left-IsAnswer kind deadline (err e, w') a = a

  pub pending-try_dispatch :
      (ps : List ℕ) (j : ProviderKind) (w : World F)
      → pending_for j (try_dispatch fl ps w).1 ≡ pending_for j w
  unfolding pending_for
  pending-try_dispatch ps j w = ground (arith, ap (λ f. f j) (try_dispatch-now ps w).1)

  full_of :
      (cfg : QueueConfig) (kind : ProviderKind) (w : World F)
      → reserve_wait cfg kind w ≡ none
      → (0 < cfg.max_queue_per_provider) × (cfg.max_queue_per_provider ≤ pending_for kind w)
  unfolding reserve_wait
  full_of cfg kind w e = ground arith

  reserved_now :
      (cfg : QueueConfig) (kind : ProviderKind) (w w' : World F)
      → reserve_wait cfg kind w ≡ some w'
      → w'.now ≡ w.now
  unfolding reserve_wait
  reserved_now cfg kind w w' e = ground arith

  module _ (sleep : ℕ → World F → World F)
      (passes : (b : ℕ) (w : World F) → w.now < (sleep b w).now) where
    wait_loop_total :
        (ps : List ℕ) (kind : ProviderKind) (deadline fuel backoff : ℕ) (w : World F)
        → deadline - w.now < fuel
        → (r : RouterResult ℕ × World F) × (wait_loop fl sleep ps kind deadline fuel backoff w
            ≡ some r)
          × IsAnswer kind deadline r
    unfolding wait_loop
    wait_loop_total ps kind deadline zero backoff w enough = elim enough [ ]
    wait_loop_total ps kind deadline (suc fuel) backoff w enough =
        elim (Option-cases (try_dispatch fl ps w).0) [
          | inr (p, e) ↦ ((ok p, (try_dispatch fl ps w).1), rw (e, wait_loop), tt)
          | inl e ↦ elim (Bool-cases (leb deadline (try_dispatch fl ps w).1.now)) [
            | inl late ↦ (
              (err (timeout_error kind), count_rejected (try_dispatch fl ps w).1),
              rw (e, late, wait_loop),
              (refl, leb→le deadline _ late),
            )
            | inr early ↦
                rw (e, early, wait_loop)
                  (wait_loop_total ps kind deadline fuel (next_backoff backoff)
                    (sleep backoff (try_dispatch fl ps w).1)
                    (omega (
                      arith,
                      (try_dispatch-now ps w).0,
                      passes backoff (try_dispatch fl ps w).1,
                      leb_false→lt deadline (try_dispatch fl ps w).1.now early,
                    )))
          ]
        ]

    wait_turn_total :
        (cfg : QueueConfig) (ps : List ℕ) (kind : ProviderKind) (fuel : ℕ) (w : World F)
        → cfg.queue_wait_timeout_ms * 1_000_000 < fuel
        → (r : RouterResult ℕ × World F) × (wait_turn fl cfg sleep fuel ps kind w ≡ some r)
          × IsAnswer kind (deadline_of cfg w) r
    unfolding wait_turn
    wait_turn_total cfg ps kind fuel w enough =
        let (r, e, a) = wait_loop_total ps kind (deadline_of cfg w) fuel 5 w (omega arith) in
        ((r.0, leave_wait kind r.1), rw (e, wait_turn), left-IsAnswer kind _ r a)

    -- `acquire` ends if each sleep takes time, with fuel for as many rounds as there are nanoseconds
    -- to wait; and it refuses only for one of the three reasons.
    pub acquire_total :
        (cfg : QueueConfig) (ps : List ℕ) (kind : ProviderKind) (fuel : ℕ) (w : World F)
        → cfg.queue_wait_timeout_ms * 1_000_000 < fuel
        → (r : RouterResult ℕ × World F) × (acquire fl cfg sleep fuel ps kind w ≡ some r)
          × Ends cfg ps kind w r
    unfolding acquire
    acquire_total cfg [] kind fuel w enough = (_, refl, no_upstream refl)
    acquire_total cfg (p ∷ ps) kind fuel w enough =
        elim (Option-cases (try_dispatch fl (p ∷ ps) w).0) [
          | inr (q, e) ↦ ((ok q, (try_dispatch fl (p ∷ ps) w).1), rw (e, acquire), dispatched)
          | inl e ↦ elim (Option-cases (reserve_wait cfg kind (try_dispatch fl (p ∷ ps) w).1)) [
            | inl full ↦ (
              (
                err (full_error kind (pending_for kind (try_dispatch fl (p ∷ ps) w).1)),
                count_rejected (try_dispatch fl (p ∷ ps) w).1,
              ),
              rw (e, full, acquire),
              rw (pending-try_dispatch (p ∷ ps) kind w) (
                  let (bound, many) = full_of cfg kind _ full in
                  queue_full bound (rw (pending-try_dispatch (p ∷ ps) kind w) at many)),
            )
            | inr (w', reserved) ↦
                let (r, found, a) =
                  wait_turn_total cfg (p ∷ ps) kind fuel (count_waited w') enough in
                (
                  r,
                  rw (e, reserved, acquire) found,
                  Ends-of_answer cfg (p ∷ ps) kind w r (
                      subst (λ (d : ℕ). IsAnswer kind d r)
                        (omega (
                          arith,
                          reserved_now cfg kind _ w' reserved,
                          (try_dispatch-now (p ∷ ps) w).0,
                        ))
                        a),
                )
          ]
        ]
