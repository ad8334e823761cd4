-- ===== src/Metrics/Rates.antt =====
-- src/metrics.rs: `RateRing`, a ring of one-second buckets, and the rings of `Rates`. The window is
-- positive.
use polyglotmesh.Prelude.{
  ℕ, zero, suc, ◌+◌, ◌-◌, ◌%◌, min, List, map, replicate, get_or, set, ltb, if◌then◌else◌,
  saturating_add,
}
use polyglotmesh.Float.{Float}

pub record RateRing : Type 0 where
  pub buckets : List ℕ
  pub head : ℕ
  pub window_s : ℕ

-- `RateRing::new`
abbrev pub new_ring : ℕ → RateRing
new_ring window_s = record { buckets = replicate window_s 0; head = 0; window_s = window_s }

-- `for i in 0..shift { g[(first + i) % window] = 0 }`
unfoldable pub clear_from : ℕ → ℕ → ℕ → List ℕ → List ℕ
clear_from window first zero g = g
clear_from window first (suc shift) g =
    clear_from window (first + 1) shift (set g (first % window) 0)

-- The ring with its head at `now_s`, for a time that is not before the head.
unfoldable pub advance : ℕ → RateRing → RateRing
unfolding clear_from
advance now_s r =
    if ltb r.head now_s
    then record r {
      buckets = clear_from r.window_s (r.head + 1) (min (now_s - r.head) r.window_s) r.buckets;
      head = now_s;
    }
    else r

-- Count `n` in the bucket of a second.
unfoldable pub count_at : ℕ → ℕ → RateRing → RateRing
count_at n now_s r =
    let idx = now_s % r.window_s in
    record r { buckets = set r.buckets idx (saturating_add (get_or r.buckets idx 0) n) }

-- `RateRing::add`
unfoldable pub add : ℕ → ℕ → RateRing → RateRing
unfolding advance count_at
add n now_s r = if ltb now_s r.head then r else count_at n now_s (advance now_s r)

-- The buckets of the `i` seconds up to `now_s`. `saturating_sub` stops at 0.
unfoldable pub sum_back : ℕ → ℕ → ℕ → List ℕ → ℕ
sum_back window now_s zero g = 0
sum_back window now_s (suc i) g =
    saturating_add (sum_back window now_s i g) (get_or g ((now_s - i) % window) 0)

-- `RateRing::sum`
unfoldable pub sum_ring : ℕ → RateRing → ℕ
unfolding sum_back
sum_ring now_s r =
    if ltb (r.head + r.window_s + 5) now_s
    then 0
    else sum_back r.window_s now_s r.window_s r.buckets

-- `RateRing::reset`
abbrev pub reset_ring : RateRing → RateRing
reset_ring r = record r { buckets = map (λ v. 0) r.buckets; head = 0 }

pub record Rates : Type 0 where
  pub rps_1m : RateRing
  pub rps_5m : RateRing
  pub rps_1h : RateRing
  pub tpm_1m : RateRing
  pub tpm_5m : RateRing
  pub tpm_1h : RateRing
  pub cost_1m : RateRing
  pub cost_1h : RateRing

-- `Rates::new`
abbrev pub new_rates : Rates
new_rates = record {
  rps_1m = new_ring 60;
  rps_5m = new_ring 300;
  rps_1h = new_ring 3600;
  tpm_1m = new_ring 60;
  tpm_5m = new_ring 300;
  tpm_1h = new_ring 3600;
  cost_1m = new_ring 60;
  cost_1h = new_ring 3600;
}

-- The resets of `Metrics::reset` on the rings.
abbrev pub reset_rates : Rates → Rates
reset_rates r = record {
  rps_1m = reset_ring r.rps_1m;
  rps_5m = reset_ring r.rps_5m;
  rps_1h = reset_ring r.rps_1h;
  tpm_1m = reset_ring r.tpm_1m;
  tpm_5m = reset_ring r.tpm_5m;
  tpm_1h = reset_ring r.tpm_1h;
  cost_1m = reset_ring r.cost_1m;
  cost_1h = reset_ring r.cost_1h;
}

-- `Metrics::record_request`: `now` in seconds, and the cost in millionths of a USD.
unfoldable pub record_request : (fl : Float) → ℕ → ℕ → Float.F fl → Rates → Rates
unfolding add
record_request fl now total_tokens cost_usd r =
    let micros = Float.to_u64 fl (Float.mul fl cost_usd (Float.lit fl 1_000_000 0)) in
    record {
      rps_1m = add 1 now r.rps_1m;
      rps_5m = add 1 now r.rps_5m;
      rps_1h = add 1 now r.rps_1h;
      tpm_1m = add total_tokens now r.tpm_1m;
      tpm_5m = add total_tokens now r.tpm_5m;
      tpm_1h = add total_tokens now r.tpm_1h;
      cost_1m = add micros now r.cost_1m;
      cost_1h = add micros now r.cost_1h;
    }
