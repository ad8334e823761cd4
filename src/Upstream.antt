-- ===== src/Upstream.antt =====
-- src/upstream/mod.rs: the live state of one upstream, its admission, its health and its breaker.
-- An instant is a count of nanoseconds, and one call reads the clock once: `now` is an argument.
-- The atomics wrap: `add32`, `sub32`, `add64`. The clock never runs past what an `Instant` holds.
pub mod Slots
pub mod Interleaving
pub mod Breaker
pub mod Tests
use polyglotmesh.Prelude.{
  ℕ, ◌+◌, ◌-◌, ◌*◌, ◌/◌, Bool, true, false, not, ◌&&◌, Option, none, some, List, Text, ltb, leb,
  ◌==◌, if◌then◌else◌, add32, sub32, add64,
}
use polyglotmesh.Float.{Float}
use polyglotmesh.Config.{UpstreamConfig, CircuitBreakerConfig}

pub data Health : Type 0 where
  healthy degraded unhealthy : Health

-- `Health::allows_traffic`
abbrev pub allows_traffic : Health → Bool
allows_traffic unhealthy = false
allows_traffic healthy = true
allows_traffic degraded = true

pub record RateBucket (F : Type 0) : Type 0 where
  pub capacity : F
  pub refill_per_sec : F
  pub tokens : F
  pub last_refill : ℕ

pub record Upstream (F : Type 0) : Type 0 where
  pub cfg : UpstreamConfig F
  pub health : Health
  pub in_flight : ℕ
  pub consecutive_failures : ℕ
  pub rate_tokens : RateBucket F
  pub last_success : Option ℕ
  pub last_error : Option Text
  pub success_count : ℕ
  pub failure_count : ℕ
  pub models : List Text
  pub paused : Bool
  pub breaker_open_until : Option ℕ

-- `from_secs` in nanoseconds.
abbrev pub from_secs : ℕ → ℕ
from_secs s = s * 1_000_000_000

-- `if let Some(until) = open { if now < until { return false } }`
abbrev pub breaker_blocks : ℕ → Option ℕ → Bool
breaker_blocks now none = false
breaker_blocks now (some until) = ltb now until

-- `cfg.max_concurrency > 0 && in_flight >= cfg.max_concurrency`
abbrev pub is_full : ℕ → ℕ → Bool
is_full max_concurrency in_flight = ltb 0 max_concurrency && leb max_concurrency in_flight

-- The threshold and the open time: those configured, or 3 and 30 s.
abbrev pub breaker_settings : Option CircuitBreakerConfig → ℕ × ℕ
breaker_settings (some cb) = (cb.failure_threshold, cb.open_duration_s)
breaker_settings none = (3, 30)

module _ {F : Type 0} where
  -- `Upstream::is_usable`
  unfoldable pub is_usable : ℕ → Upstream F → Bool
  is_usable now u =
      if not u.cfg.enabled
      then false
      else if u.paused
      then false
      else if not (allows_traffic u.health)
      then false
      else if breaker_blocks now u.breaker_open_until
      then false
      else if is_full u.cfg.max_concurrency u.in_flight
      then false
      else true

  -- The guarded `fetch_update` on `in_flight`: `none` is its error.
  unfoldable pub reserve : Upstream F → Option (Upstream F)
  reserve u =
      if ltb 0 u.cfg.max_concurrency
      then (if ltb u.in_flight u.cfg.max_concurrency
          then some (record u { in_flight = add32 u.in_flight 1 })
          else none)
      else some u

  -- `Upstream::release`
  unfoldable pub release : Upstream F → Upstream F
  release u =
      if ltb 0 u.cfg.max_concurrency then record u { in_flight = sub32 u.in_flight 1 } else u

  -- `Upstream::record_success`
  unfoldable pub record_success : ℕ → Upstream F → Upstream F
  record_success now u = record u {
    success_count = add64 u.success_count 1;
    consecutive_failures = 0;
    last_success = some now;
    breaker_open_until = none;
    health = healthy;
  }

  abbrev pub threshold : Upstream F → ℕ
  threshold u = (breaker_settings u.cfg.circuit_breaker).0

  abbrev pub open_s : Upstream F → ℕ
  open_s u = (breaker_settings u.cfg.circuit_breaker).1

  -- `Upstream::record_failure`. The sum `fetch_add(1) + 1` wraps, as it does in a release build.
  unfoldable pub record_failure : ℕ → Upstream F → Upstream F
  record_failure now u =
      let f = add32 u.consecutive_failures 1 in
      let counted = record u {
        failure_count = add64 u.failure_count 1;
        consecutive_failures = f;
      } in
      if leb (threshold u) f
      then record counted {
        health = unhealthy;
        breaker_open_until = some (now + from_secs (open_s u));
      }
      else if leb (threshold u / 2 + 1) f
      then record counted { health = degraded }
      else counted

module _ (fl : Float) where
  open fl use {F, lit, infinity, add, sub, mul, div, minimum, le, of_nat, as_secs}

  -- The capacity is a tenth of the limit, and the refill its sixtieth; no limit is infinite.
  unfoldable pub bucket_of : ℕ → ℕ → RateBucket F
  bucket_of now rpm =
      let unlimited = rpm == 0 in
      let capacity = if unlimited then infinity else mul (div (of_nat rpm) (lit 60 0)) (lit 6 0) in
      record {
        capacity = capacity;
        refill_per_sec = if unlimited then infinity else div (of_nat rpm) (lit 60 0);
        tokens = capacity;
        last_refill = now;
      }

  -- `Upstream::from_config`
  unfoldable pub from_config : ℕ → UpstreamConfig F → Upstream F
  unfolding bucket_of
  from_config now c = record {
    cfg = c;
    health = healthy;
    in_flight = 0;
    consecutive_failures = 0;
    rate_tokens = bucket_of now c.rate_limit_rpm;
    last_success = none;
    last_error = none;
    success_count = 0;
    failure_count = 0;
    models = c.models;
    paused = false;
    breaker_open_until = none;
  }

  -- The tokens at `now`, before one is taken. `duration_since` stops at zero.
  unfoldable pub refill : ℕ → RateBucket F → RateBucket F
  refill now b = record b {
    tokens =
        minimum (add b.tokens (mul (as_secs (now - b.last_refill)) b.refill_per_sec)) b.capacity;
    last_refill = now;
  }

  -- Take a token: the outcome and the bucket, which is refilled in either case.
  unfoldable pub take_token : ℕ → RateBucket F → Bool × RateBucket F
  unfolding refill
  take_token now b =
      let full = refill now b in
      if le (lit 1 0) full.tokens
      then (true, record full { tokens = sub full.tokens (lit 1 0) })
      else (false, full)

  -- The rate limit of an upstream whose slot is reserved. On refusal the slot is given back.
  unfoldable pub pass_bucket : ℕ → Upstream F → Bool × Upstream F
  pass_bucket now u =
      if ltb 0 u.cfg.rate_limit_rpm
      then (let (taken, b) = take_token now u.rate_tokens in
          let v = record u { rate_tokens = b } in if taken then (true, v) else (false, release v))
      else (true, u)

  -- `Upstream::try_acquire`
  unfoldable pub try_acquire : ℕ → Upstream F → Bool × Upstream F
  try_acquire now u =
      if is_usable now u
      then (elim (reserve u) [ none ↦ (false, u) | some v ↦ pass_bucket now v ])
      else (false, u)
