-- ===== src/Queue/Tests.antt =====
-- Runs of the queue of src/queue/mod.rs.
use polyglotmesh.Prelude.{
  Heap, ℕ, ◌+◌, ◌*◌, ◌≡◌, refl, Option, none, some, [], ◌∷◌, arith, ◌==◌, if◌then◌else◌,
}
use polyglotmesh.Float.Fixed.{fixed}
use polyglotmesh.Config.{ProviderKind, openai, QueueConfig}
use polyglotmesh.Error.{RouterResult, ok}
use polyglotmesh.Upstream.{
  Upstream, from_config, try_acquire, is_usable, reserve, pass_bucket, take_token, refill, release,
}
use polyglotmesh.Upstream.Slots.{IsBounded}
use polyglotmesh.Upstream.Tests.{idle}
use polyglotmesh.Queue.{
  World, pending_for, reserve_wait, acquire, wait_turn, try_first, try_dispatch,
}
use polyglotmesh.Queue.Dispatch.{Gains, Chosen, try_first-Gains, try_first-Chosen}
use polyglotmesh.Queue.Waiting.{Ends, acquire_total}
use polyglotmesh.Queue.Pending.{pending-acquire}

abbrev full : Upstream ℕ
unfolding from_config
full = record idle { in_flight = 2 }

-- The first upstream has no free slot, the second one has two.
abbrev heap : Heap (Upstream ℕ)
unfolding from_config
heap = record { at = λ p. if p == 0 then full else idle; next = 2 }

abbrev world : World ℕ
unfolding from_config
world = record {
  now = 1_000;
  heap = heap;
  stats = record {
    total_waited = 0;
    total_rejected = 0;
    total_no_upstream = 0;
    total_dispatched = 0;
  };
  pending_waits = λ _. none;
}

abbrev nap : ℕ → World ℕ → World ℕ
nap b w = record w { now = w.now + (b * 1_000_000 + 1) }

heap-IsBounded : (q : ℕ) → IsBounded (heap.at q)
unfolding from_config
heap-IsBounded q = ground arith

try_first-Gains_example :
    Gains fixed heap
      (try_first fixed (0 ∷ 1 ∷ []) 1_000 heap).1
      (try_first fixed (0 ∷ 1 ∷ []) 1_000 heap).0
      1
unfolding from_config
try_first-Gains_example = try_first-Gains fixed (0 ∷ 1 ∷ []) 1_000 heap heap-IsBounded 1

try_first-Chosen_example :
    Chosen fixed
      (0 ∷ 1 ∷ [])
      1_000
      heap
      (try_first fixed (0 ∷ 1 ∷ []) 1_000 heap).0
      (try_first fixed (0 ∷ 1 ∷ []) 1_000 heap).1
unfolding from_config
try_first-Chosen_example =
    try_first-Chosen fixed (0 ∷ 1 ∷ []) 1_000 heap ((ground arith, tt), (tt, tt))

abbrev hurried : QueueConfig
hurried = record {
  max_queue_per_provider = 1;
  queue_wait_timeout_ms = 50;
  healthcheck_interval_ms = 0;
  healthcheck_timeout_ms = 0;
  healthcheck_failure_threshold = 3;
}

-- Only the full upstream is a candidate, so the request waits and its time runs out.
acquire_total_example :
    (r : RouterResult ℕ × World ℕ) × (acquire fixed hurried nap 60_000_000 (0 ∷ []) openai world
      ≡ some r)
    × Ends fixed hurried (0 ∷ []) openai world r
unfolding from_config
acquire_total_example =
    acquire_total fixed nap (λ b w. omega arith) hurried (0 ∷ []) openai 60_000_000 world
      (omega arith)

-- A slot comes free while the request sleeps: it waits for one round.
abbrev freeing : ℕ → World ℕ → World ℕ
unfolding from_config
freeing b w = record w {
  now = w.now + (b * 1_000_000 + 1);
  heap = record { at = λ _. idle; next = 2 };
}

abbrev freed : Option (RouterResult ℕ × World ℕ)
unfolding from_config
freed = acquire fixed hurried freeing 9 (0 ∷ []) openai world

abbrev outcome : RouterResult ℕ × World ℕ
unfolding from_config
outcome = elim freed [ some r ↦ r | none ↦ (ok 9, world) ]

outcome_lem : freed ≡ some outcome
unfolding from_config acquire wait_turn try_first try_dispatch try_acquire is_usable reserve
    pass_bucket take_token refill release reserve_wait
outcome_lem = refl

freeing_keeps :
    (b : ℕ) (j : ProviderKind) (w : World ℕ) → pending_for j (freeing b w) ≡ pending_for j w
unfolding pending_for from_config
freeing_keeps b j w = refl

pending-acquire_example : pending_for openai outcome.1 ≡ 0
unfolding pending_for from_config
pending-acquire_example =
    pending-acquire fixed freeing freeing_keeps hurried (0 ∷ []) openai openai 9 world outcome
      outcome_lem
