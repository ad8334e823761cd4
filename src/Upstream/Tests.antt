-- ===== src/Upstream/Tests.antt =====
-- Runs of the model of src/upstream/mod.rs on concrete upstreams.
use polyglotmesh.Prelude.{pos, ℕ, ◌≡◌, refl, true, false, none, [], ◌∷◌, codes, arith, inr}
use polyglotmesh.Float.Fixed.{fixed}
use polyglotmesh.Config.{UpstreamConfig, openai}
use polyglotmesh.Upstream.{
  Upstream, from_config, record_success, is_usable, reserve, release, try_acquire, pass_bucket,
  take_token, refill,
}
use polyglotmesh.Upstream.Slots.{IsBounded, try_acquire-in_flight, release-try_acquire}
use polyglotmesh.Upstream.Interleaving.{
  System, Reach, here, next, reserves, IsCounted, Reach-IsCounted,
}
use polyglotmesh.Upstream.Breaker.{fail_all, is_usable-fail_all}

-- Two slots and a limit of 60 requests a minute, that is a burst of six.
abbrev pub small : UpstreamConfig ℕ
small = record {
  id = codes "a";
  name = none;
  kind = openai;
  base_url = codes "https://example.com";
  api_key = codes "k";
  priority = pos 5;
  models = [];
  weight = 1;
  timeout_ms = 60_000;
  max_concurrency = 2;
  rate_limit_rpm = 60;
  rate_limit_tpm = 0;
  enabled = true;
  max_budget = none;
  budget_duration = none;
  model_info = [];
  region = none;
  tags = [];
  critical = false;
  circuit_breaker = none;
}

abbrev pub idle : Upstream ℕ
unfolding from_config
idle = from_config fixed 0 small

pub idle-IsBounded : IsBounded idle
unfolding from_config
idle-IsBounded = record { limit_fits = omega arith; within = inr (omega arith) }

runs : (try_acquire fixed 1_000 idle).0 ≡ true
unfolding try_acquire is_usable reserve pass_bucket take_token refill from_config release
runs = refl

try_acquire-in_flight_example : IsBounded (try_acquire fixed 1_000 idle).1
unfolding from_config
try_acquire-in_flight_example = (try_acquire-in_flight fixed 1_000 idle idle-IsBounded).1

release-try_acquire_example : (release (try_acquire fixed 1_000 idle).1).in_flight ≡ 0
unfolding from_config
release-try_acquire_example = release-try_acquire fixed 1_000 idle idle-IsBounded runs

-- After a failure the upstream is still usable; three failures close it for good.
is_usable-fail_all_example :
    is_usable 99_000_000_000 (fail_all (10 ∷ 20 ∷ 30 ∷ []) (record_success 5 idle)) ≡ false
unfolding from_config
is_usable-fail_all_example =
    is_usable-fail_all idle 5 (10 ∷ 20 ∷ 30 ∷ []) 99_000_000_000 (omega arith)

abbrev start : System ℕ
unfolding from_config
start = record { up = idle; reserving = 0; holding = 0 }

abbrev one_reserved : System ℕ
unfolding from_config
one_reserved = record { up = record idle { in_flight = 1 }; reserving = 1; holding = 0 }

two_steps : Reach fixed start one_reserved
unfolding reserve from_config
two_steps = next here (reserves (record idle { in_flight = 1 }) refl)

start-IsCounted : IsCounted fixed start
unfolding from_config
start-IsCounted = record { fits = omega arith; counted = inr (omega arith) }

Reach-IsCounted_example : IsCounted fixed one_reserved
unfolding from_config
Reach-IsCounted_example = Reach-IsCounted fixed start-IsCounted two_steps
