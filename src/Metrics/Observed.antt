-- ===== src/Metrics/Observed.antt =====
-- src/metrics.rs: the snapshot of a histogram is that of its observations.
use polyglotmesh.Prelude.{
  ℕ, zero, suc, ◌+◌, ◌≤◌, ◌<◌, ◌≡◌, refl, ◌∙◌, ap, sym, List, [], ◌∷◌, length, sum, replicate,
  length-set, length-replicate, u64_mod, arith,
}
use polyglotmesh.Metrics.Histogram.{
  Histogram, with_buckets, bucket_index, bump, observe_us, cumulate, snapshot,
}
use polyglotmesh.Metrics.Cumulative.{
  IsRising, expected, observe_all, raise, raise-expected, cumulate-bump,
}

sum-bump : (i : ℕ) (cs : List ℕ) → sum cs + 1 < u64_mod → sum (bump i cs) ≤ sum cs + 1
sum-bump i [] fits = omega arith
sum-bump zero (c ∷ cs) fits = ground (arith, fits)
sum-bump (suc i) (c ∷ cs) fits = omega (arith, sum-bump i cs (omega (arith, fits)))

sum-replicate : (n : ℕ) → sum (replicate n 0) ≡ 0
sum-replicate zero = refl
sum-replicate (suc n) = omega (arith, sum-replicate n)

-- What a histogram with these bounds holds of these observations.
IsTally : List ℕ → List ℕ → Histogram → Type 0
IsTally xs bs h =
    (h.buckets_us ≡ bs)
    × (length bs ≡ length h.counts)
    × (sum h.counts ≤ length xs)
    × (cumulate 0 bs h.counts ≡ expected xs bs)
    × (h.sum_us ≡ sum xs)
    × (h.count ≡ length xs)

fresh : (bs : List ℕ) → cumulate 0 bs (replicate (length bs) 0) ≡ expected [] bs
unfolding cumulate expected
fresh [] = refl
fresh (b ∷ []) = refl
fresh (b ∷ c ∷ bs) = ap (λ t. record { le_us = b; count = 0 } ∷ t) (fresh (c ∷ bs))

observe_all-IsTally :
    (xs bs : List ℕ)
    → IsRising bs
    → length xs + sum xs + 1 < u64_mod
    → IsTally xs bs (observe_all xs (with_buckets bs))
unfolding IsTally observe_all with_buckets observe_us
observe_all-IsTally [] bs rise fits = (
  refl,
  sym (length-replicate (length bs) 0),
  omega (arith, sum-replicate (length bs)),
  fresh bs,
  refl,
  refl,
)
observe_all-IsTally (x ∷ xs) bs rise fits =
    let h = observe_all xs (with_buckets bs) in
    let (same, len, total, cum, sum_eq, count_eq) =
      observe_all-IsTally xs bs rise (omega (arith, fits)) in
    let moved : bump (bucket_index x h.buckets_us) h.counts ≡ bump (bucket_index x bs) h.counts =
      ap (λ b. bump (bucket_index x b) h.counts) same in
    (
      same,
      len ∙ sym (length-set h.counts (bucket_index x h.buckets_us) _),
      omega (
        arith,
        fits,
        total,
        sum-bump (bucket_index x h.buckets_us) h.counts (omega (arith, fits, total)),
      ),
      ap (cumulate 0 bs) moved
          ∙ (cumulate-bump x 0 bs h.counts rise len (omega (arith, fits, total))
              ∙ (ap (raise x) cum ∙ raise-expected x xs bs)),
      ground (arith, fits, sum_eq),
      ground (arith, fits, count_eq),
    )

-- The snapshot of a histogram after some observations, fewer and of a smaller sum than 2^64: each
-- bucket but the last counts those that are at most its bound, the last counts all, and the sum and
-- the count are theirs.
pub snapshot-observe_all :
    (xs bs : List ℕ)
    → IsRising bs
    → length xs + sum xs + 1 < u64_mod
    → snapshot (observe_all xs (with_buckets bs))
      ≡ record { buckets = expected xs bs; sum_us = sum xs; count = length xs }
unfolding snapshot IsTally
snapshot-observe_all xs bs rise fits =
    let (same, len, total, cum, sum_eq, count_eq) = observe_all-IsTally xs bs rise fits in
    rw (same, cum, sum_eq, count_eq) refl
