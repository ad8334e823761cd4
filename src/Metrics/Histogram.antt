-- ===== src/Metrics/Histogram.antt =====
-- src/metrics.rs: `Histogram`, a latency histogram of fixed buckets, and the quantiles of a sample.
use polyglotmesh.Prelude.{
  ℕ, suc, ◌-◌, Option, none, some, List, [], ◌∷◌, map, length, get_or, set, replicate, find, leb,
  ◌==◌, if◌then◌else◌, add64, saturating_add, u64_mod,
}
use polyglotmesh.Float.{Float}

pub record Histogram : Type 0 where
  -- upper bounds in microseconds, rising
  pub buckets_us : List ℕ
  pub counts : List ℕ
  pub sum_us : ℕ
  pub count : ℕ

pub record HistogramBucket : Type 0 where
  pub le_us : ℕ
  pub count : ℕ

pub record HistogramSample : Type 0 where
  pub buckets : List HistogramBucket
  pub sum_us : ℕ
  pub count : ℕ

-- `Histogram::with_buckets`
unfoldable pub with_buckets : List ℕ → Histogram
with_buckets bounds = record {
  buckets_us = bounds;
  counts = replicate (length bounds) 0;
  sum_us = 0;
  count = 0;
}

-- `iter().position(|&b| us <= b)`
abbrev pub position : ℕ → List ℕ → Option ℕ
position us [] = none
position us (b ∷ bs) =
    let rest = position us bs in
    if leb us b then some 0 else elim rest [ none ↦ none | some i ↦ some (suc i) ]

-- The bucket of an observation: the first that takes it, or the last.
abbrev pub bucket_index : ℕ → List ℕ → ℕ
bucket_index us bs = elim (position us bs) [ some i ↦ i | none ↦ length bs - 1 ]

-- `counts[idx].fetch_add(1)`
abbrev pub bump : ℕ → List ℕ → List ℕ
bump i cs = set cs i (add64 (get_or cs i 0) 1)

-- `observe_us`; there is a bucket.
unfoldable pub observe_us : ℕ → Histogram → Histogram
observe_us us h = record h {
  counts = bump (bucket_index us h.buckets_us) h.counts;
  sum_us = add64 h.sum_us us;
  count = add64 h.count 1;
}

-- The running counts, from the bound and the count of each bucket.
unfoldable pub cumulate : ℕ → List ℕ → List ℕ → List HistogramBucket
cumulate running [] cs = []
cumulate running (b ∷ bs) [] = []
cumulate running (b ∷ bs) (c ∷ cs) =
    let total = saturating_add running c in
    record { le_us = b; count = total } ∷ cumulate total bs cs

-- `snapshot`
unfoldable pub snapshot : Histogram → HistogramSample
unfolding cumulate
snapshot h = record {
  buckets = cumulate 0 h.buckets_us h.counts;
  sum_us = h.sum_us;
  count = h.count;
}

-- `reset`
unfoldable pub reset : Histogram → Histogram
reset h = record h { counts = map (λ c. 0) h.counts; sum_us = 0; count = 0 }

module _ (fl : Float) where
  open fl use {F, mul, of_nat, to_u64}

  -- `quantiles_from_sample`. `ceil` is a parameter. The total is zero only if the count is.
  unfoldable pub quantiles_from_sample : (F → F) → HistogramSample → List F → List (F × ℕ)
  quantiles_from_sample ceil snap qs =
      if snap.count == 0
      then map (λ q. (q, 0)) qs
      else map
          (λ q.
            let target = to_u64 (ceil (mul (of_nat snap.count) q)) in
            (
              q,
              elim (find (λ b. leb target (HistogramBucket.count b)) snap.buckets) [
                | some b ↦ HistogramBucket.le_us b
                | none ↦ u64_mod - 1
              ],
            ))
          qs

  -- `quantiles_us`
  unfoldable pub quantiles_us : (F → F) → Histogram → List F → List (F × ℕ)
  unfolding snapshot quantiles_from_sample
  quantiles_us ceil h qs = quantiles_from_sample ceil (snapshot h) qs
