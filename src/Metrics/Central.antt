-- ===== src/Metrics/Central.antt =====
-- src/metrics.rs: the `Metrics` record, its sampling of traces and its operational reset.
use polyglotmesh.Prelude.{
  ℕ, ◌%◌, Bool, true, false, Option, none, some, List, [], ◌∷◌, Text, if◌then◌else◌,
}
use polyglotmesh.Float.{Float}
use polyglotmesh.Metrics.Series.{Series, Labels}
use polyglotmesh.Metrics.Series
use polyglotmesh.Metrics.Histogram.{Histogram, with_buckets}
use polyglotmesh.Metrics.Histogram
use polyglotmesh.Metrics.Labeled.{LabeledHistogram, reset_all}
use polyglotmesh.Metrics.Rates.{Rates, new_rates, reset_rates}
use polyglotmesh.Metrics.Traces.{TraceSpan, push}

abbrev pub default_buckets_us : List ℕ
default_buckets_us =
    1_000 ∷ 2_000 ∷ 5_000 ∷ 10_000 ∷ 20_000 ∷ 50_000 ∷ 100_000 ∷ 200_000 ∷ 500_000 ∷ 1_000_000
    ∷ 2_000_000 ∷ 5_000_000 ∷ 10_000_000 ∷ 30_000_000 ∷ []

pub record Metrics : Type 0 where
  pub requests_total : Series
  pub upstream_requests_total : Series
  pub success_total : Series
  pub error_total : Series
  pub input_tokens_total : Series
  pub output_tokens_total : Series
  pub cost_micros_total : Series
  pub cache_read_input_tokens_total : Series
  pub cache_write_input_tokens_total : Series
  pub request_duration : Histogram
  pub upstream_duration : Histogram
  pub ttft : Histogram
  pub inter_token : Histogram
  pub request_duration_by_upstream : LabeledHistogram
  pub upstream_duration_by_upstream : LabeledHistogram
  pub active_requests : Series
  pub active_streams : Series
  pub upstream_up : Series
  pub rates : Rates
  pub traces : List TraceSpan
  -- the ratio in millionths
  pub trace_sample_ratio : ℕ

-- The capacity of the trace ring.
abbrev pub trace_capacity : ℕ
trace_capacity = 1000

abbrev pub new_labeled : LabeledHistogram
new_labeled = record { buckets_us = default_buckets_us; series = [] }

-- `Metrics::new`
unfoldable pub new_metrics : Metrics
unfolding with_buckets
new_metrics = record {
  requests_total = [];
  upstream_requests_total = [];
  success_total = [];
  error_total = [];
  input_tokens_total = [];
  output_tokens_total = [];
  cost_micros_total = [];
  cache_read_input_tokens_total = [];
  cache_write_input_tokens_total = [];
  request_duration = with_buckets default_buckets_us;
  upstream_duration = with_buckets default_buckets_us;
  ttft = with_buckets default_buckets_us;
  inter_token =
      with_buckets
        (10_000 ∷ 25_000 ∷ 50_000 ∷ 100_000 ∷ 250_000 ∷ 500_000 ∷ 1_000_000 ∷ 2_000_000 ∷ []);
  request_duration_by_upstream = new_labeled;
  upstream_duration_by_upstream = new_labeled;
  active_requests = [];
  active_streams = [];
  upstream_up = [];
  rates = new_rates;
  traces = [];
  trace_sample_ratio = 1_000_000;
}

-- `Metrics::reset`
unfoldable pub reset_metrics : Metrics → Metrics
unfolding Series.reset Histogram.reset reset_all
reset_metrics m = record {
  requests_total = Series.reset m.requests_total;
  upstream_requests_total = Series.reset m.upstream_requests_total;
  success_total = Series.reset m.success_total;
  error_total = Series.reset m.error_total;
  input_tokens_total = Series.reset m.input_tokens_total;
  output_tokens_total = Series.reset m.output_tokens_total;
  cost_micros_total = Series.reset m.cost_micros_total;
  cache_read_input_tokens_total = Series.reset m.cache_read_input_tokens_total;
  cache_write_input_tokens_total = Series.reset m.cache_write_input_tokens_total;
  request_duration = Histogram.reset m.request_duration;
  upstream_duration = Histogram.reset m.upstream_duration;
  ttft = Histogram.reset m.ttft;
  inter_token = Histogram.reset m.inter_token;
  request_duration_by_upstream = reset_all m.request_duration_by_upstream;
  upstream_duration_by_upstream = reset_all m.upstream_duration_by_upstream;
  active_requests = Series.reset m.active_requests;
  active_streams = Series.reset m.active_streams;
  upstream_up = Series.reset m.upstream_up;
  rates = reset_rates m.rates;
  traces = [];
  trace_sample_ratio = m.trace_sample_ratio;
}

-- The number of a span id: `from_str_radix(trimmed, 16).unwrap_or(0)` is the parameter `hex`.
module _ (fl : Float) (hex : Text → ℕ) where
  open fl use {F, lit, mul, div, le, of_nat}

  -- Whether a span is kept at this ratio in millionths.
  unfoldable pub is_sampled : ℕ → TraceSpan → Bool
  is_sampled millionths span =
      let ratio = div (of_nat millionths) (lit 1_000_000 0) in
      if le (lit 1 0) ratio
      then true
      else if le ratio (lit 0 0)
      then false
      else le (of_nat (hex span.span_id % 1_000_000)) (mul ratio (lit 1_000_000 0))

  -- `Metrics::record_trace`: `none` is the panic of a ring without capacity.
  unfoldable pub record_trace : TraceSpan → Metrics → Option Metrics
  unfolding is_sampled push
  record_trace span m =
      if is_sampled m.trace_sample_ratio span
      then (elim (push trace_capacity span m.traces) [
        | none ↦ none
        | some g ↦ some (record m { traces = g })
      ])
      else some m
