-- ===== src/Upstream/Breaker.antt =====
-- src/upstream/mod.rs: consecutive failures, the health they lead to, and the circuit breaker.
use polyglotmesh.Prelude.{
  ℕ, zero, suc, ◌+◌, ◌/◌, ◌≤◌, ◌<◌, ◌≡◌, refl, subst, length, ◌&&◌, ◌||◌, not, ◌==◌, ◌≢◌, ◌↔◌, ◌⊎◌,
  true, false, Option, none, some, List, [], ◌∷◌, arith, ltb, leb, if◌then◌else◌, u32_mod, add32,
}
use polyglotmesh.Upstream.{
  Health, healthy, degraded, unhealthy, Upstream, breaker_blocks, is_full, is_usable,
  record_success, record_failure, threshold,
}

-- What `is_usable` demands, as a specification.
pub record IsUsable {F : Type 0} (now : ℕ) (u : Upstream F) : Type 0 where
  pub is_enabled : u.cfg.enabled ≡ true
  pub is_running : u.paused ≡ false
  pub has_health : u.health ≢ unhealthy
  pub is_closed : (until : ℕ) → u.breaker_open_until ≡ some until → until ≤ now
  pub has_room : (u.cfg.max_concurrency ≡ 0) ⊎ (u.in_flight < u.cfg.max_concurrency)

closed_of :
    (now : ℕ) (o : Option ℕ)
    → breaker_blocks now o ≡ false
    → (until : ℕ) → o ≡ some until
    → until ≤ now
closed_of now none h until e = cc
closed_of now (some t) h until e = ground arith

open_of :
    (now : ℕ) (o : Option ℕ)
    → ((until : ℕ) → o ≡ some until → until ≤ now)
    → breaker_blocks now o ≡ false
open_of now none h = refl
open_of now (some t) h = ground (arith, h t refl)

module _ {F : Type 0} where
  -- The test and its specification agree.
  pub is_usable_iff : (now : ℕ) (u : Upstream F) → (is_usable now u ≡ true) ↔ IsUsable now u
  unfolding is_usable
  is_usable_iff now u = (there, back)
    where
      there : is_usable now u ≡ true → IsUsable now u
      there h = record {
        is_enabled = ground arith;
        is_running = ground arith;
        has_health = λ e. ground arith;
        is_closed = closed_of now u.breaker_open_until (ground arith);
        has_room = ground arith;
      }

      back : IsUsable now u → is_usable now u ≡ true
      back h = ground (arith, open_of now u.breaker_open_until h.is_closed)

  -- A run of failures at the given instants, oldest first.
  unfoldable pub fail_all : List ℕ → Upstream F → Upstream F
  fail_all [] u = u
  fail_all (t ∷ ts) u = fail_all ts (record_failure t u)

-- The health that n failures in a row lead to, for a threshold th.
unfoldable pub level : ℕ → ℕ → Health
level th zero = healthy
level th (suc n) =
    if leb th (suc n) then unhealthy else if leb (th / 2 + 1) (suc n) then degraded else healthy

level-pred : (th n : ℕ) → suc n < th → suc n < th / 2 + 1 → level th n ≡ healthy
unfolding level
level-pred th zero h k = refl
level-pred th (suc n) h k = ground arith

level-low : (th n : ℕ) → (n ≡ 0) ⊎ (n < th) → level th n ≢ unhealthy
unfolding level
level-low th zero h e = cc
level-low th (suc n) h e = ground arith

level-high : (th n : ℕ) → n ≢ 0 → th ≤ n → level th n ≡ unhealthy
unfolding level
level-high th zero h k = absurd (h refl)
level-high th (suc n) h k = ground arith

module _ {F : Type 0} where
  record Counted (u₀ : Upstream F) (n : ℕ) (u : Upstream F) : Type 0 where
    same_cfg : u.cfg ≡ u₀.cfg
    same_pause : u.paused ≡ u₀.paused
    same_load : u.in_flight ≡ u₀.in_flight
    counts : u.consecutive_failures ≡ n
    has_level : u.health ≡ level (threshold u₀) n
    still_closed : (n ≡ 0) ⊎ (n < threshold u₀) → u.breaker_open_until ≡ none

  threshold-cfg : (u v : Upstream F) → u.cfg ≡ v.cfg → threshold u ≡ threshold v
  threshold-cfg u v e = rw e

  record_failure-Counted :
      (u₀ : Upstream F) (t n : ℕ) (u : Upstream F)
      → n + 1 < u32_mod
      → Counted u₀ n u
      → Counted u₀ (suc n) (record_failure t u)
  unfolding record_failure level
  record_failure-Counted u₀ t n u small c =
      let e : add32 u.consecutive_failures 1 ≡ suc n = omega (arith, c.counts) in
      let th = threshold-cfg u u₀ c.same_cfg in
      record {
        same_cfg = ground (arith, c.same_cfg);
        same_pause = ground (arith, c.same_pause);
        same_load = ground (arith, c.same_load);
        counts = ground (arith, c.counts);
        has_level = ground (arith, e, th, c.has_level, level-pred (threshold u₀) n);
        still_closed = λ h. ground (arith, e, th, c.still_closed);
      }

  fail_all-Counted :
      (u₀ : Upstream F) (n : ℕ) (ts : List ℕ) (u : Upstream F)
      → n + length ts < u32_mod
      → Counted u₀ n u
      → Counted u₀ (n + length ts) (fail_all ts u)
  unfolding fail_all
  fail_all-Counted u₀ n [] u small c = subst (λ k. Counted u₀ k u) (omega arith) c
  fail_all-Counted u₀ n (t ∷ ts) u small c =
      subst (λ k. Counted u₀ k (fail_all ts (record_failure t u))) (omega arith)
        (fail_all-Counted u₀ (suc n) ts (record_failure t u) (omega arith)
          (record_failure-Counted u₀ t n u (omega arith) c))

  record_success-Counted : (t : ℕ) (u : Upstream F) → Counted u 0 (record_success t u)
  unfolding record_success level
  record_success-Counted t u = record {
    same_cfg = refl;
    same_pause = refl;
    same_load = refl;
    counts = refl;
    has_level = refl;
    still_closed = λ h. refl;
  }

  usable_of_Counted :
      (now n : ℕ) (u₀ u : Upstream F)
      → Counted u₀ n u
      → is_usable now u ≡ (
          u₀.cfg.enabled
          && not u₀.paused
          && not (is_full u₀.cfg.max_concurrency u₀.in_flight)
          && (n == 0 || ltb n (threshold u₀)))
  unfolding is_usable
  usable_of_Counted now n u₀ u c = ground (
    arith,
    c.same_cfg,
    c.same_pause,
    c.same_load,
    c.has_level,
    c.still_closed,
    level-low (threshold u₀) n,
    level-high (threshold u₀) n,
  )

  after_success :
      (u : Upstream F) (t : ℕ) (ts : List ℕ)
      → length ts < u32_mod
      → Counted u (length ts) (fail_all ts (record_success t u))
  after_success u t ts small =
      subst (λ k. Counted u k (fail_all ts (record_success t u))) (omega arith)
        (fail_all-Counted u 0 ts (record_success t u) (omega arith) (record_success-Counted t u))

  -- After a success and then n < 2^32 failures, at whatever instants, the upstream is usable at an
  -- instant exactly if it is enabled, not paused, has room, and n is 0 or below the threshold. The
  -- instant does not matter: the open time of the breaker never makes it usable again.
  pub is_usable-fail_all :
      (u : Upstream F) (t : ℕ) (ts : List ℕ) (now : ℕ)
      → length ts < u32_mod
      → is_usable now (fail_all ts (record_success t u)) ≡ (
          u.cfg.enabled
          && not u.paused
          && not (is_full u.cfg.max_concurrency u.in_flight)
          && (length ts == 0 || ltb (length ts) (threshold u)))
  is_usable-fail_all u t ts now small =
      usable_of_Counted now (length ts) u (fail_all ts (record_success t u))
        (after_success u t ts small)

  -- The health after a success and then n < 2^32 failures depends on n and the threshold alone:
  -- healthy below half of it (rounded down) plus one, unhealthy from the threshold on (but healthy
  -- if there was no failure), and degraded between.
  pub health-fail_all :
      (u : Upstream F) (t : ℕ) (ts : List ℕ)
      → length ts < u32_mod
      → (fail_all ts (record_success t u)).health ≡ level (threshold u) (length ts)
  health-fail_all u t ts small = (after_success u t ts small).has_level
