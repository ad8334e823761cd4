-- ===== src/Proxy/Views.antt =====
-- src/proxy/mod.rs: what the steps of `RequestTimer::finalize` leave alone.
use polyglotmesh.Prelude.{
  ℕ, ◌≡◌, refl, Option, none, some, List, [], ◌∷◌, Text, Bool-cases, inl, inr, length, leb, ◌++◌,
  ◌∙◌,
}
use polyglotmesh.Float.{Float}
use polyglotmesh.Metrics.Series.{Series, inc}
use polyglotmesh.Metrics.Rates.{Rates}
use polyglotmesh.Metrics.Traces.{TraceSpan, push}
use polyglotmesh.Metrics.Central.{Metrics, record_trace, trace_capacity, is_sampled}
use polyglotmesh.Proxy.Timer.{
  RequestTimer, by_method, by_upstream, observe_first, observe_upstream, observe_times,
  observe_upstream_by, observe_labeled, count_request,
}

-- The counters of outcomes and tokens, and the gauges.
abbrev pub Core : Type 0
Core = Series × Series × Series × Series × Series × Series × Series

abbrev pub core_of : Metrics → Core
core_of m = (
  m.active_requests, m.active_streams, m.success_total, m.error_total, m.input_tokens_total,
  m.output_tokens_total, m.cost_micros_total,
)

abbrev pub view : Metrics → Series × Core × Rates
view m = (m.requests_total, core_of m, m.rates)

abbrev pub pair_of : Metrics → Series × Core
pair_of m = (m.requests_total, core_of m)

pub upstream-view :
    (now : ℕ) (u : Option ℕ) (m : Metrics) → view (observe_upstream now u m) ≡ view m
upstream-view now none m = refl
upstream-view now (some since) m = refl

pub first-view :
    (t : RequestTimer) (b : Option ℕ) (m : Metrics) → view (observe_first t b m) ≡ view m
first-view t none m = refl
first-view t (some fb) m = elim (Bool-cases t.stream) [ inl e ↦ rw e refl | inr e ↦ rw e refl ]

pub times-view : (now : ℕ) (t : RequestTimer) (m : Metrics) → view (observe_times now t m) ≡ view m
unfolding observe_times
times-view now t m = first-view t t.first_byte _ ∙ upstream-view now t.upstream_start _

pub labeled-view :
    (now : ℕ) (t : RequestTimer) (uid : Option Text) (m : Metrics)
    → view (observe_labeled now t uid m) ≡ view m
unfolding observe_labeled
labeled-view now t none m = refl
labeled-view now t (some uid) m = go t.upstream_start _
  where
    go :
        (u : Option ℕ) (n : Metrics)
        → view (observe_upstream_by now u (by_upstream uid t) n) ≡ view n
    go none n = refl
    go (some since) n = refl

pub request-view :
    (t : RequestTimer) (uid : Option Text) (m : Metrics)
    → view (count_request t uid m) ≡ (inc (by_method t) 1 m.requests_total, core_of m, m.rates)
unfolding count_request
request-view t none m = refl
request-view t (some uid) m = refl

pub push_total :
    (span : TraceSpan) (g : List TraceSpan)
    → (g' : List TraceSpan) × (push trace_capacity span g ≡ some g')
unfolding push
push_total span [] = (span ∷ [], refl)
push_total span (x ∷ g) = elim (Bool-cases (leb trace_capacity (length (x ∷ g)))) [
  | inl e ↦ (g ++ (span ∷ []), rw e refl)
  | inr e ↦ (x ∷ g ++ (span ∷ []), rw e refl)
]

module _ (fl : Float) (hex : Text → ℕ) where
  pub trace-view :
      (span : TraceSpan) (m : Metrics)
      → (m' : Metrics) × (record_trace fl hex span m ≡ some m') × (view m' ≡ view m)
  unfolding record_trace
  trace-view span m =
      let (g, e) = push_total span m.traces in
      elim (Bool-cases (is_sampled fl hex m.trace_sample_ratio span)) [
        | inl kept ↦ (record m { traces = g }, rw (kept, e) refl, refl)
        | inr dropped ↦ (m, rw dropped refl, refl)
      ]
