-- ===== src/Queue/Pending.antt =====
-- src/queue/mod.rs: the count of waiting requests, over one call and over many at once.
use polyglotmesh.Prelude.{
  ℕ, zero, suc, ◌-◌, ◌≡◌, refl, inl, inr, some, List, [], ◌∷◌, arith, if◌then◌else◌, Option-cases,
}
use polyglotmesh.Float.{Float}
use polyglotmesh.Config.{ProviderKind, kind_eq, QueueConfig}
use polyglotmesh.Error.{RouterResult}
use polyglotmesh.Queue.{
  World, pending_for, reserve_wait, next_backoff, try_dispatch, wait_loop, wait_turn, acquire,
  count_waited, count_rejected, count_no_upstream,
}
use polyglotmesh.Queue.Waiting.{deadline_of, pending-try_dispatch, reserve_wait_lem, leave_wait_lem}

-- The statistics are no part of the count.
pending_rejected :
    {F : Type 0} (j : ProviderKind) (w : World F)
    → pending_for j (count_rejected w) ≡ pending_for j w
unfolding pending_for
pending_rejected j w = refl

pending_waited :
    {F : Type 0} (j : ProviderKind) (w : World F) → pending_for j (count_waited w) ≡ pending_for j w
unfolding pending_for
pending_waited j w = refl

pending_unserved :
    {F : Type 0} (j : ProviderKind) (w : World F)
    → pending_for j (count_no_upstream w) ≡ pending_for j w
unfolding pending_for
pending_unserved j w = refl

module _ (fl : Float) (sleep : ℕ → World fl.F → World fl.F)
    (keeps : (b : ℕ) (j : ProviderKind) (w : World fl.F)
      → pending_for j (sleep b w) ≡ pending_for j w) where
  open fl use {F}

  pending-wait_loop :
      (ps : List ℕ) (kind j : ProviderKind) (deadline fuel backoff : ℕ) (w : World F)
      (r : RouterResult ℕ × World F)
      → wait_loop fl sleep ps kind deadline fuel backoff w ≡ some r
      → pending_for j r.1 ≡ pending_for j w
  unfolding wait_loop
  pending-wait_loop ps kind j deadline zero backoff w r e = cc
  pending-wait_loop ps kind j deadline (suc fuel) backoff w r e = ground (
    arith,
    pending-try_dispatch fl ps j w,
    keeps backoff j (try_dispatch fl ps w).1,
    pending-wait_loop ps kind j deadline fuel (next_backoff backoff)
        (sleep backoff (try_dispatch fl ps w).1) r,
    pending_rejected j (try_dispatch fl ps w).1,
  )

  pending-wait_turn :
      (cfg : QueueConfig) (ps : List ℕ) (kind j : ProviderKind) (fuel : ℕ) (w : World F)
      (r : RouterResult ℕ × World F)
      → wait_turn fl cfg sleep fuel ps kind w ≡ some r
      → pending_for j r.1 ≡ pending_for j w - (if kind_eq j kind then 1 else 0)
  unfolding wait_turn
  pending-wait_turn cfg ps kind j fuel w r e =
      elim (Option-cases (wait_loop fl sleep ps kind (deadline_of fl cfg w) fuel 5 w)) [
        | inl out ↦ ground (arith, out)
        | inr ((a, w'), found) ↦ ground (
          arith,
          found,
          pending-wait_loop ps kind j (deadline_of fl cfg w) fuel 5 w (a, w') found,
          leave_wait_lem kind j w',
        )
      ]

  -- Each path through `acquire` leaves the count of waiting requests as it found it, for every
  -- provider, if the other requests leave it alone while this one sleeps.
  pub pending-acquire :
      (cfg : QueueConfig) (ps : List ℕ) (kind j : ProviderKind) (fuel : ℕ) (w : World F)
      (r : RouterResult ℕ × World F)
      → acquire fl cfg sleep fuel ps kind w ≡ some r
      → pending_for j r.1 ≡ pending_for j w
  unfolding acquire
  pending-acquire cfg [] kind j fuel w r e = ground (arith, pending_unserved j w)
  pending-acquire cfg (p ∷ ps) kind j fuel w r e =
      elim (Option-cases (reserve_wait cfg kind (try_dispatch fl (p ∷ ps) w).1)) [
        | inl full ↦ ground (
          arith,
          full,
          pending-try_dispatch fl (p ∷ ps) j w,
          pending_rejected j (try_dispatch fl (p ∷ ps) w).1,
        )
        | inr (w', reserved) ↦ ground (
          arith,
          reserved,
          pending-try_dispatch fl (p ∷ ps) j w,
          (reserve_wait_lem cfg kind j _ w' reserved).0,
          pending_waited j w',
          pending-wait_turn cfg (p ∷ ps) kind j fuel (count_waited w') r,
        )
      ]
