-- ===== src/Metrics/Cumulative.antt =====
-- src/metrics.rs: the cumulative counts of a histogram are those of its observations.
use polyglotmesh.Prelude.{
  ℕ, suc, ◌+◌, ◌≤◌, ◌<◌, ◌≡◌, refl, ◌∙◌, ap, sym, List, [], ◌∷◌, All, length, sum, leb,
  if◌then◌else◌, add64, saturating_add, u64_mod, arith, Bool-cases, leb→le, inl, inr,
}
use polyglotmesh.Metrics.Histogram.{
  Histogram, HistogramBucket, bucket_index, bump, observe_us, cumulate,
}

-- The bounds rise.
unfoldable pub IsRising : List ℕ → Type 0
IsRising [] = Unit
IsRising (b ∷ bs) = All (λ c. b ≤ c) bs × IsRising bs

-- How many observations are at most `b`.
abbrev pub count_le : ℕ → List ℕ → ℕ
count_le b [] = 0
count_le b (x ∷ xs) = if leb x b then suc (count_le b xs) else count_le b xs

-- The counts that the bounds call for: those up to the bound, and all of them in the last bucket.
unfoldable pub expected : List ℕ → List ℕ → List HistogramBucket
expected xs [] = []
expected xs (b ∷ []) = record { le_us = b; count = length xs } ∷ []
expected xs (b ∷ c ∷ bs) = record { le_us = b; count = count_le b xs } ∷ expected xs (c ∷ bs)

-- The counts after one more observation.
pub raise : ℕ → List HistogramBucket → List HistogramBucket
raise us [] = []
raise us (b ∷ []) = record b { count = b.count + 1 } ∷ []
raise us (b ∷ c ∷ bs) =
    record b { count = if leb us b.le_us then b.count + 1 else b.count } ∷ raise us (c ∷ bs)

-- Observe the values, the last of the list first.
unfoldable pub observe_all : List ℕ → Histogram → Histogram
unfolding observe_us
observe_all [] h = h
observe_all (us ∷ xs) h = observe_us us (observe_all xs h)

pub raise-expected : (us : ℕ) (xs bs : List ℕ) → raise us (expected xs bs) ≡ expected (us ∷ xs) bs
unfolding raise expected
raise-expected us xs [] = refl
raise-expected us xs (b ∷ []) = ground arith
raise-expected us xs (b ∷ c ∷ []) = ground arith
raise-expected us xs (b ∷ c ∷ d ∷ bs) = ground (arith, raise-expected us xs (c ∷ d ∷ bs))

bucket_index-cons :
    (us b c : ℕ) (bs : List ℕ)
    → bucket_index us (b ∷ c ∷ bs) ≡ (if leb us b then 0 else suc (bucket_index us (c ∷ bs)))
bucket_index-cons us b c bs = ground arith

-- The sum of the counts stays below 2^64.
abbrev Fits : ℕ → List ℕ → Type 0
Fits r cs = r + sum cs + 1 < u64_mod

-- An observation that every bound takes raises every count.
shift :
    (us r : ℕ) (bs cs : List ℕ)
    → All (λ b. us ≤ b) bs
    → Fits r cs
    → cumulate (r + 1) bs cs ≡ raise us (cumulate r bs cs)
unfolding cumulate raise
shift us r [] cs small fits = refl
shift us r (b ∷ bs) [] small fits = refl
shift us r (b ∷ []) (c ∷ cs) small fits = ground (arith, fits)
shift us r (b ∷ d ∷ bs) (c ∷ []) small fits = ground (arith, fits)
shift us r (b ∷ d ∷ bs) (c ∷ e ∷ cs) small fits =
    let rest = shift us (r + c) (d ∷ bs) (e ∷ cs) small.1 (omega (arith, fits)) in
    ground (arith, fits, small.0, rest)

small_of_le : (us b : ℕ) (bs : List ℕ) → us ≤ b → All (λ c. b ≤ c) bs → All (λ c. us ≤ c) bs
small_of_le us b [] le all = tt
small_of_le us b (c ∷ bs) le all = (omega (arith, le, all.0), small_of_le us b bs le all.1)

cumulate-cons :
    (r b c : ℕ) (bs cs : List ℕ)
    → r + c < u64_mod
    → cumulate r (b ∷ bs) (c ∷ cs) ≡ record { le_us = b; count = r + c } ∷ cumulate (r + c) bs cs
unfolding cumulate
cumulate-cons r b c bs cs fits =
    let exact : saturating_add r c ≡ r + c = ground (arith, fits) in rw exact refl

raise-cumulate :
    (us b n q d e : ℕ) (bs cs : List ℕ)
    → raise us (record { le_us = b; count = n } ∷ cumulate q (d ∷ bs) (e ∷ cs))
      ≡ record { le_us = b; count = if leb us b then n + 1 else n }
        ∷ raise us (cumulate q (d ∷ bs) (e ∷ cs))
unfolding cumulate raise
raise-cumulate us b n q d e bs cs = refl

-- The step at a bound that is not the last, from the counts after it.
bump_step :
    (us r b d n c e : ℕ) (bs cs after : List ℕ)
    → r + c + 1 < u64_mod
    → r + n ≡ (if leb us b then r + c + 1 else r + c)
    → cumulate (r + n) (d ∷ bs) after ≡ raise us (cumulate (r + c) (d ∷ bs) (e ∷ cs))
    → cumulate r (b ∷ d ∷ bs) (n ∷ after) ≡ raise us (cumulate r (b ∷ d ∷ bs) (c ∷ e ∷ cs))
bump_step us r b d n c e bs cs after fits count rest =
    cumulate-cons r b n (d ∷ bs) after (ground (arith, fits, count))
    ∙ (ap (λ m. record { le_us = b; count = m } ∷ cumulate (r + n) (d ∷ bs) after) count
        ∙ (ap (λ t. record { le_us = b; count = if leb us b then r + c + 1 else r + c } ∷ t) rest
            ∙ (sym (raise-cumulate us b (r + c) (r + c) d e bs cs)
                ∙ ap (raise us)
                    (sym (cumulate-cons r b c (d ∷ bs) (e ∷ cs) (omega (arith, fits)))))))

bump_last :
    (us r b c : ℕ) (cs : List ℕ)
    → r + c + 1 < u64_mod
    → cumulate r (b ∷ []) (bump (bucket_index us (b ∷ [])) (c ∷ cs))
      ≡ raise us (cumulate r (b ∷ []) (c ∷ cs))
unfolding cumulate raise
bump_last us r b c cs fits = ground (arith, fits)

nothing_raised :
    (us r i : ℕ) (cs : List ℕ) → cumulate r [] (bump i cs) ≡ raise us (cumulate r [] cs)
unfolding cumulate raise
nothing_raised us r i cs = refl

-- One observation raises the counts of the bounds that take it, and the last.
pub cumulate-bump :
    (us r : ℕ) (bs cs : List ℕ)
    → IsRising bs
    → length bs ≡ length cs
    → Fits r cs
    → cumulate r bs (bump (bucket_index us bs) cs) ≡ raise us (cumulate r bs cs)
unfolding IsRising
cumulate-bump us r [] cs rise len fits = nothing_raised us r _ cs
cumulate-bump us r (b ∷ []) (c ∷ cs) rise len fits = bump_last us r b c cs (omega (arith, fits))
cumulate-bump us r (b ∷ d ∷ bs) (c ∷ e ∷ cs) rise len fits = elim (Bool-cases (leb us b)) [
  | inl le ↦
      let first : bucket_index us (b ∷ d ∷ bs) ≡ 0 = bucket_index-cons us b d bs ∙ rw le refl in
      let added : add64 c 1 ≡ c + 1 = ground (arith, fits) in
      let rest =
        shift us (r + c) (d ∷ bs) (e ∷ cs) (small_of_le us b (d ∷ bs) (leb→le us b le) rise.0)
          (omega (arith, fits)) in
      let moved : r + (c + 1) ≡ r + c + 1 = omega arith in
      ap (λ i. cumulate r (b ∷ d ∷ bs) (bump i (c ∷ e ∷ cs))) first
      ∙ (ap (λ n. cumulate r (b ∷ d ∷ bs) (n ∷ e ∷ cs)) added
          ∙ bump_step us r b d (c + 1) c e bs cs (e ∷ cs) (omega (arith, fits)) (rw le moved)
              (ap (λ q. cumulate q (d ∷ bs) (e ∷ cs)) moved ∙ rest))
  | inr gt ↦
      let later : bucket_index us (b ∷ d ∷ bs) ≡ suc (bucket_index us (d ∷ bs)) =
        bucket_index-cons us b d bs ∙ rw gt refl in
      let rest =
        cumulate-bump us (r + c) (d ∷ bs) (e ∷ cs) rise.1 (omega (arith, len))
          (omega (arith, fits)) in
      ap (λ i. cumulate r (b ∷ d ∷ bs) (bump i (c ∷ e ∷ cs))) later
      ∙ bump_step us r b d c c e bs cs (bump (bucket_index us (d ∷ bs)) (e ∷ cs))
          (omega (arith, fits)) (rw gt refl) rest
]
cumulate-bump us r (b ∷ []) [] rise len fits = ground (arith, len)
cumulate-bump us r (b ∷ d ∷ bs) [] rise len fits = ground (arith, len)
cumulate-bump us r (b ∷ d ∷ bs) (c ∷ []) rise len fits = ground (arith, len)
