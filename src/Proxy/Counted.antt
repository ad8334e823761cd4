-- ===== src/Proxy/Counted.antt =====
-- src/proxy/mod.rs: what `RequestTimer::finalize` counts.
use polyglotmesh.Prelude.{
  ℕ, ◌≡◌, refl, true, false, some, ◌||◌, Text, if◌then◌else◌, add64, Bool-cases, inl, inr, ltb,
  Ordering, ap, sym, subst, ◌∙◌,
}
use polyglotmesh.Float.{Float}
use polyglotmesh.Metrics.Series.{Labels, Series, cmp_labels, value, inc, value-inc}
use polyglotmesh.Metrics.Central.{Metrics}
use polyglotmesh.Proxy.Timer.{
  RequestTimer, Outcome, by_method, by_upstream, by_reason, upstream_of, observe_times,
  observe_labeled, span_of, count_request, count_usage, count_success, count_error, count_rates,
  count_outcome, finalize,
}
use polyglotmesh.Proxy.Views.{core_of, pair_of, times-view, labeled-view, request-view, trace-view}

-- A counter after `by` more under the labels `k`: every label tuple has what it had, but `k` has `by`
-- more, modulo 2^64.
unfoldable pub Gained : Labels → ℕ → Series → Series → Type 0
Gained k by s s' =
    (j : Labels)
    → value j s' ≡ (elim (cmp_labels j k) [ Ordering.eq ↦ add64 (value k s) by | _ ↦ value j s ])

pub inc-Gained : (k : Labels) (by : ℕ) (s : Series) → Gained k by s (inc k by s)
unfolding Gained
inc-Gained k by s j = value-inc j k by s

-- What a success counts: the success, its tokens if there are any, and no error.
abbrev pub IsSuccess : {F : Type 0} → RequestTimer → Outcome F → Metrics → Metrics → Type 0
IsSuccess t o m m' =
    let k = by_upstream (upstream_of o) t in
    Gained k 1 m.success_total m'.success_total
    × (m'.error_total ≡ m.error_total)
    × (ltb 0 o.in_t || ltb 0 o.out_t ≡ true
        → Gained k o.in_t m.input_tokens_total m'.input_tokens_total
          × Gained k o.out_t m.output_tokens_total m'.output_tokens_total)

-- What an error counts: the error under its reason, and no success, tokens, cost or rate.
abbrev pub IsError : {F : Type 0} → RequestTimer → Outcome F → Metrics → Metrics → Type 0
IsError t o m m' =
    Gained (by_reason t o) 1 m.error_total m'.error_total
    × (m'.success_total ≡ m.success_total)
    × (m'.input_tokens_total ≡ m.input_tokens_total)
    × (m'.output_tokens_total ≡ m.output_tokens_total)
    × (m'.cost_micros_total ≡ m.cost_micros_total)
    × (m'.rates ≡ m.rates)

-- What every request counts, and the gauges of the requests that run, which it leaves alone.
unfoldable pub IsCounted : {F : Type 0} → RequestTimer → Outcome F → Metrics → Metrics → Type 0
IsCounted t o m m' =
    Gained (by_method t) 1 m.requests_total m'.requests_total
    × (m'.active_requests ≡ m.active_requests)
    × (m'.active_streams ≡ m.active_streams)
    × (if o.ok then IsSuccess t o m m' else IsError t o m m')

module _ (fl : Float) where
  open fl use {F}

  -- The tokens of a success leave the rest of the counters alone.
  success-IsCounted :
      (t : RequestTimer) (o : Outcome F) (m c : Metrics)
      → c.requests_total ≡ inc (by_method t) 1 m.requests_total
      → core_of c ≡ core_of m
      → o.ok ≡ true
      → IsCounted t o m (count_success fl t o c)
  unfolding count_success count_usage IsCounted
  success-IsCounted t o m c r e good =
      let k = by_upstream (upstream_of o) t in
      let first =
        subst (Gained (by_method t) 1 m.requests_total) (sym r)
          (inc-Gained (by_method t) 1 m.requests_total) in
      let gained = λ (by : ℕ) (a b : Series) (same : b ≡ a).
        subst (λ s. Gained k by s (inc k by b)) same (inc-Gained k by b) in
      let success = gained 1 m.success_total c.success_total (ap (λ x. x.2) e) in
      elim (Bool-cases (ltb 0 o.in_t || ltb 0 o.out_t)) [
        | inl has ↦
            rw (good, has)
              (
                first,
                ap (λ x. x.0) e,
                ap (λ x. x.1) e,
                (
                  success,
                  ap (λ x. x.3) e,
                  λ _. (
                    gained o.in_t m.input_tokens_total c.input_tokens_total (ap (λ x. x.4) e),
                    gained o.out_t m.output_tokens_total c.output_tokens_total (ap (λ x. x.5) e),
                  ),
                ),
              )
        | inr has ↦
            rw (good, has)
              (first, ap (λ x. x.0) e, ap (λ x. x.1) e, (success, ap (λ x. x.3) e, λ h. cc))
      ]

  error-IsCounted :
      (t : RequestTimer) (o : Outcome F) (m c : Metrics)
      → c.requests_total ≡ inc (by_method t) 1 m.requests_total
      → core_of c ≡ core_of m
      → c.rates ≡ m.rates
      → o.ok ≡ false
      → IsCounted t o m (count_error t o c)
  unfolding count_error IsCounted
  error-IsCounted t o m c r e rates bad =
      let k = by_reason t o in
      rw bad (
        subst (Gained (by_method t) 1 m.requests_total) (sym r)
            (inc-Gained (by_method t) 1 m.requests_total),
        ap (λ x. x.0) e,
        ap (λ x. x.1) e,
        (
          subst (λ s. Gained k 1 s (inc k 1 c.error_total)) (ap (λ x. x.3) e)
              (inc-Gained k 1 c.error_total),
          ap (λ x. x.2) e,
          ap (λ x. x.4) e,
          ap (λ x. x.5) e,
          ap (λ x. x.6) e,
          rates,
        ),
      )

  rates-core :
      (utc : ℕ) (o : Outcome F) (m : Metrics) → pair_of (count_rates fl utc o m) ≡ pair_of m
  unfolding count_rates
  rates-core utc o m = elim (Bool-cases o.ok) [ inl e ↦ rw e refl | inr e ↦ rw e refl ]

  rates-error :
      (utc : ℕ) (o : Outcome F) (m : Metrics)
      → o.ok ≡ false
      → (count_rates fl utc o m).rates ≡ m.rates
  unfolding count_rates
  rates-error utc o m e = rw e refl

module _ (fl : Float) (show_cost : Float.F fl → Text) (hex : Text → ℕ) where
  open fl use {F}

  -- `finalize` never panics; it counts the request once under its method and model, and once more as a
  -- success or as an error under its reason; a success with tokens adds them to its upstream and
  -- model, an error changes no count of successes, tokens or cost and no rate; the gauges of running
  -- requests and streams stay.
  pub finalize-IsCounted :
      (utc now : ℕ) (t : RequestTimer) (o : Outcome F) (m : Metrics)
      → (m' : Metrics) × (finalize fl show_cost hex utc now t o m ≡ some m') × IsCounted t o m m'
  unfolding finalize count_outcome
  finalize-IsCounted utc now t o m =
      let timed = observe_times now t m in
      let (traced, e, v) =
        trace-view fl hex (span_of fl show_cost utc now t o) (count_rates fl utc o timed) in
      let labeled = observe_labeled now t o.upstream_id traced in
      let c = count_request t o.upstream_id labeled in
      let seen = request-view t o.upstream_id labeled in
      let start = times-view now t m in
      let before = labeled-view now t o.upstream_id traced ∙ v in
      let core =
        ap (λ x. (x.0, x.1)) before ∙ (rates-core fl utc o timed ∙ ap (λ x. (x.0, x.1)) start) in
      let requests = ap (λ x. x.0) seen ∙ ap (λ s. inc (by_method t) 1 s) (ap (λ x. x.0) core) in
      let kept = ap (λ x. x.1) seen ∙ ap (λ x. x.1) core in
      elim (Bool-cases o.ok) [
        | inl good ↦ (
          count_success fl t o c,
          ap (count_outcome fl now t o) e ∙ rw good refl,
          success-IsCounted fl t o m c requests kept good,
        )
        | inr bad ↦
            let rates =
              ap (λ x. x.2) seen
              ∙ (ap (λ x. x.2) before ∙ (rates-error fl utc o timed bad ∙ ap (λ x. x.2) start)) in
            (
              count_error t o c,
              ap (count_outcome fl now t o) e ∙ rw bad refl,
              error-IsCounted fl t o m c requests kept rates bad,
            )
      ]
