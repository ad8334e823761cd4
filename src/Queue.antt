-- ===== src/Queue.antt =====
-- src/queue/mod.rs: the wait queue in front of the upstreams. What happens while a request sleeps
-- (the clock, the other requests, the wake-up) is the parameter `sleep`: it takes the time the
-- request means to sleep, in milliseconds, and the world.
pub mod Dispatch
pub mod Waiting
pub mod Pending
mod Tests
use polyglotmesh.Prelude.{
  Heap, write, ℕ, zero, suc, ◌+◌, ◌-◌, ◌*◌, Bool, true, false, ◌&&◌, Option, none, some, List, [],
  ◌∷◌, ◌++◌, is_empty, Text, codes, ltb, leb, ◌==◌, if◌then◌else◌, add64, min,
}
use polyglotmesh.Float.{Float}
use polyglotmesh.Config.{ProviderKind, kind_eq, as_str, QueueConfig}
use polyglotmesh.Error.{RouterError, RouterResult, ok, err, no_healthy_upstream, decimal}
use polyglotmesh.Upstream.{Upstream, try_acquire}

pub record QueueStats : Type 0 where
  pub total_waited : ℕ
  pub total_rejected : ℕ
  pub total_no_upstream : ℕ
  pub total_dispatched : ℕ

-- The shared objects that a request sees: the clock in nanoseconds, the upstreams, the statistics
-- and the number of waiting requests of each provider, absent until the first one waits.
pub record World (F : Type 0) : Type 0 where
  pub now : ℕ
  pub heap : Heap (Upstream F)
  pub stats : QueueStats
  pub pending_waits : ProviderKind → Option ℕ

module _ {F : Type 0} where
  -- `pending_for`, and the `get(..).unwrap_or(&0)` of the other methods.
  pub pending_for : ProviderKind → World F → ℕ
  pending_for k w = elim (w.pending_waits k) [ none ↦ 0 | some n ↦ n ]

  abbrev pub set_pending : ProviderKind → ℕ → World F → World F
  set_pending k n w = record w {
    pending_waits = λ j. if kind_eq j k then some n else w.pending_waits j;
  }

  abbrev pub count_waited : World F → World F
  count_waited w = record w {
    stats = record w.stats { total_waited = add64 w.stats.total_waited 1 };
  }

  abbrev pub count_rejected : World F → World F
  count_rejected w = record w {
    stats = record w.stats { total_rejected = add64 w.stats.total_rejected 1 };
  }

  abbrev pub count_no_upstream : World F → World F
  count_no_upstream w = record w {
    stats = record w.stats { total_no_upstream = add64 w.stats.total_no_upstream 1 };
  }

  abbrev pub count_dispatched : World F → World F
  count_dispatched w = record w {
    stats = record w.stats { total_dispatched = add64 w.stats.total_dispatched 1 };
  }

  -- `acquire`, the block that reserves a wait slot: the new world, or the number that wait already.
  pub reserve_wait : QueueConfig → ProviderKind → World F → Option (World F)
  unfolding pending_for
  reserve_wait cfg kind w =
      let cur = pending_for kind w in
      if ltb 0 cfg.max_queue_per_provider && leb cfg.max_queue_per_provider cur
      then none
      else some (set_pending kind (cur + 1) w)

  -- The end of `acquire`: the slot is given back, with a saturating subtraction.
  pub leave_wait : ProviderKind → World F → World F
  unfolding pending_for
  leave_wait kind w = set_pending kind (pending_for kind w - 1) w

-- The two refusals after the first try.
abbrev pub full_error : ProviderKind → ℕ → RouterError
full_error kind cur =
    no_healthy_upstream
      (as_str kind ++ (codes " (queue full: " ++ (decimal cur ++ codes " waiting)")))

abbrev pub timeout_error : ProviderKind → RouterError
timeout_error kind = no_healthy_upstream (as_str kind ++ codes " (queue wait timeout)")

-- `backoff = (backoff * 2).min(max_backoff)`, in milliseconds.
abbrev pub next_backoff : ℕ → ℕ
next_backoff b = min (b * 2) 200

module _ (fl : Float) where
  open fl use {F}

  -- `QueueManager::try_acquire`: the first upstream that admits the request, in the order given.
  pub try_first : List ℕ → ℕ → Heap (Upstream F) → Option ℕ × Heap (Upstream F)
  try_first [] now h = (none, h)
  try_first (p ∷ ps) now h =
      let (taken, u) = try_acquire fl now (h.at p) in
      let rest = try_first ps now (write h p u) in if taken then (some p, write h p u) else rest

  -- `QueueManager::try_acquire` on the world, with the count of a dispatched request.
  pub try_dispatch : List ℕ → World F → Option ℕ × World F
  unfolding try_first
  try_dispatch ps w =
      let (got, h) = try_first ps w.now w.heap in
      elim got [
        | none ↦ (none, record w { heap = h })
        | some p ↦ (some p, count_dispatched (record w { heap = h }))
      ]

  -- `wait_loop`, with fuel for its rounds: `none` means that the fuel ran out.
  pub wait_loop :
      (ℕ → World F → World F)
      → List ℕ
      → ProviderKind
      → ℕ
      → ℕ
      → ℕ
      → World F
      → Option (RouterResult ℕ × World F)
  wait_loop sleep ps kind deadline zero backoff w = none
  wait_loop sleep ps kind deadline (suc fuel) backoff w =
      let (got, w') = try_dispatch ps w in
      let rest = wait_loop sleep ps kind deadline fuel (next_backoff backoff) (sleep backoff w') in
      elim got [
        | some p ↦ some (ok p, w')
        | none ↦
            if leb deadline w'.now then some (err (timeout_error kind), count_rejected w') else rest
      ]

  -- `wait_loop` as `acquire` calls it, after the slot is reserved, and the slot given back.
  pub wait_turn :
      QueueConfig
      → (ℕ → World F → World F)
      → ℕ
      → List ℕ
      → ProviderKind
      → World F
      → Option (RouterResult ℕ × World F)
  unfolding wait_loop leave_wait
  wait_turn cfg sleep fuel ps kind w =
      let deadline = w.now + cfg.queue_wait_timeout_ms * 1_000_000 in
      elim (wait_loop sleep ps kind deadline fuel 5 w) [
        | none ↦ none
        | some (r, w') ↦ some (r, leave_wait kind w')
      ]

  -- `QueueManager::acquire`
  pub acquire :
      QueueConfig
      → (ℕ → World F → World F)
      → ℕ
      → List ℕ
      → ProviderKind
      → World F
      → Option (RouterResult ℕ × World F)
  acquire cfg sleep fuel ps kind w =
      if is_empty ps
      then some (err (no_healthy_upstream (as_str kind)), count_no_upstream w)
      else (let (got, w') = try_dispatch ps w in
          elim got [
            | some p ↦ some (ok p, w')
            | none ↦ elim (reserve_wait cfg kind w') [
              | none ↦ some (err (full_error kind (pending_for kind w')), count_rejected w')
              | some w'' ↦ wait_turn cfg sleep fuel ps kind (count_waited w'')
            ]
          ])
