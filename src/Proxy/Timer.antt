-- ===== src/Proxy/Timer.antt =====
-- src/proxy/mod.rs: `RequestTimer`, which counts a finished request. The live events that it
-- publishes to the dashboard are not modelled.
use polyglotmesh.Prelude.{
  ℕ, zero, suc, ◌+◌, ◌-◌, ◌*◌, ◌/◌, ◌%◌, Bool, ◌||◌, Option, none, some, [], ◌∷◌, ◌++◌, Text, codes,
  text_eq, ltb, ◌==◌, if◌then◌else◌, add64, u64_mod,
}
use Prim.Native.Nat.{◌^◌}
use polyglotmesh.Float.{Float}
use polyglotmesh.Error.{decimal}
use polyglotmesh.Proxy.{unwrap_or}
use polyglotmesh.Metrics.Series.{Labels, inc}
use polyglotmesh.Metrics.Series
use polyglotmesh.Metrics.Histogram.{observe_us}
use polyglotmesh.Metrics.Labeled.{observe}
use polyglotmesh.Metrics.Rates.{record_request}
use polyglotmesh.Metrics.Traces.{TraceSpan}
use polyglotmesh.Metrics.Central.{Metrics, record_trace}

pub record RequestTimer : Type 0 where
  pub start : ℕ
  pub upstream_start : Option ℕ
  pub first_byte : Option ℕ
  pub method : Text
  pub model : Option Text
  pub stream : Bool

-- `RequestTimer::new`
abbrev pub new_timer : ℕ → Text → Option Text → Bool → RequestTimer
new_timer now method model stream = record {
  start = now;
  upstream_start = none;
  first_byte = none;
  method = method;
  model = model;
  stream = stream;
}

-- The microseconds between two instants, as u64.
abbrev pub micros_between : ℕ → ℕ → ℕ
micros_between since now = (now - since) / 1_000 % u64_mod

-- What a finished request is reported with.
pub record Outcome (F : Type 0) : Type 0 where
  pub upstream_id : Option Text
  pub ok : Bool
  pub status_label : Text
  pub in_t : ℕ
  pub out_t : ℕ
  pub cost_usd : F

abbrev pub model_of : RequestTimer → Text
model_of t = unwrap_or t.model []

abbrev pub upstream_of : {F : Type 0} → Outcome F → Text
upstream_of o = unwrap_or o.upstream_id []

abbrev pub by_method : RequestTimer → Labels
by_method t = (codes "method", t.method) ∷ (codes "model", model_of t) ∷ []

abbrev pub by_upstream : Text → RequestTimer → Labels
by_upstream uid t = (codes "upstream_id", uid) ∷ (codes "model", model_of t) ∷ []

-- The durations of all requests.
abbrev pub observe_upstream : ℕ → Option ℕ → Metrics → Metrics
observe_upstream now none m = m
observe_upstream now (some since) m = record m {
  upstream_duration = observe_us (micros_between since now) m.upstream_duration;
}

abbrev pub observe_first : RequestTimer → Option ℕ → Metrics → Metrics
observe_first t none m = m
observe_first t (some fb) m =
    if t.stream then record m { ttft = observe_us (micros_between t.start fb) m.ttft } else m

unfoldable pub observe_times : ℕ → RequestTimer → Metrics → Metrics
observe_times now t m = observe_first t t.first_byte (
    observe_upstream now t.upstream_start
      (record m { request_duration = observe_us (micros_between t.start now) m.request_duration }))

-- The durations by upstream and model.
abbrev pub observe_upstream_by : ℕ → Option ℕ → Labels → Metrics → Metrics
observe_upstream_by now none k m = m
observe_upstream_by now (some since) k m = record m {
  upstream_duration_by_upstream =
      observe k (micros_between since now) m.upstream_duration_by_upstream;
}

unfoldable pub observe_labeled : ℕ → RequestTimer → Option Text → Metrics → Metrics
observe_labeled now t none m = m
observe_labeled now t (some uid) m =
    observe_upstream_by now t.upstream_start (by_upstream uid t) (record m {
      request_duration_by_upstream =
          observe (by_upstream uid t) (micros_between t.start now) m.request_duration_by_upstream;
    })

-- `format!("{:02x}", b)` of a byte
abbrev pub hex_digit : ℕ → ℕ
hex_digit d = if ltb d 10 then 48 + d else 87 + d

abbrev pub hex_byte : ℕ → Text
hex_byte b = hex_digit (b / 16) ∷ hex_digit (b % 16) ∷ []

-- `^` on the low bits, as many as the fuel.
abbrev pub xor_bits : ℕ → ℕ → ℕ → ℕ
xor_bits zero a b = 0
xor_bits (suc n) a b = (if a % 2 == b % 2 then 0 else 1) + 2 * xor_bits n (a / 2) (b / 2)

-- The 16 bytes of a trace id and the 8 of a span id, those of a time from the index `j` on.
unfoldable pub trace_id_from : ℕ → ℕ → ℕ → Text
trace_id_from end_ns j zero = []
trace_id_from end_ns j (suc n) =
    hex_byte (end_ns % u64_mod / 256 ^ (j % 8) % 256) ++ trace_id_from end_ns (j + 1) n

unfoldable pub span_id_from : ℕ → ℕ → ℕ → Text
span_id_from end_ns j zero = []
span_id_from end_ns j (suc n) =
    hex_byte (xor_bits 8 (end_ns % 256) (j * 3_735_928_559 % 256)) ++ span_id_from end_ns (j + 1) n

-- `chrono::Utc::now().timestamp_nanos_opt().unwrap_or(0)`: the nanoseconds must fit an i64.
abbrev pub unix_nanos : ℕ → ℕ
unix_nanos utc = if ltb utc (2 ^ 63) then utc else 0

abbrev pub flag : Bool → Text
flag b = if b then codes "true" else codes "false"

-- The counters of all requests.
unfoldable pub count_request : RequestTimer → Option Text → Metrics → Metrics
count_request t none m = record m { requests_total = inc (by_method t) 1 m.requests_total }
count_request t (some uid) m = record m {
  requests_total = inc (by_method t) 1 m.requests_total;
  upstream_requests_total = inc (by_upstream uid t) 1 m.upstream_requests_total;
}

module _ {F : Type 0} where
  abbrev pub by_reason : RequestTimer → Outcome F → Labels
  by_reason t o = by_upstream (upstream_of o) t ++ ((codes "reason", o.status_label) ∷ [])

  -- The counters of an error.
  unfoldable pub count_error : RequestTimer → Outcome F → Metrics → Metrics
  count_error t o m = record m {
    error_total = inc (by_reason t o) 1 m.error_total;
    upstream_up = Series.set ((codes "upstream_id", upstream_of o) ∷ []) 0 m.upstream_up;
  }

module _ (fl : Float) where
  open fl use {F}

  -- The tokens and the cost of a success.
  unfoldable pub count_usage : RequestTimer → Outcome F → Metrics → Metrics
  count_usage t o m =
      let k = by_upstream (upstream_of o) t in
      if ltb 0 o.in_t || ltb 0 o.out_t
      then record m {
        input_tokens_total = inc k o.in_t m.input_tokens_total;
        output_tokens_total = inc k o.out_t m.output_tokens_total;
        cost_micros_total =
            inc k (Float.to_u64 fl (Float.mul fl o.cost_usd (Float.lit fl 1_000_000 0)))
              m.cost_micros_total;
      }
      else m

  -- The counters of a success.
  unfoldable pub count_success : RequestTimer → Outcome F → Metrics → Metrics
  unfolding count_usage
  count_success t o m = count_usage t o (record m {
    success_total = inc (by_upstream (upstream_of o) t) 1 m.success_total;
    upstream_up = Series.set ((codes "upstream_id", upstream_of o) ∷ []) 1 m.upstream_up;
  })

  -- The rate rings of a success.
  unfoldable pub count_rates : ℕ → Outcome F → Metrics → Metrics
  count_rates utc o m =
      if o.ok
      then record m {
        rates = record_request fl (utc / 1_000_000_000) (add64 o.in_t o.out_t) o.cost_usd m.rates;
      }
      else m

  -- What follows the trace span: the labelled durations and the counters.
  unfoldable pub count_outcome : ℕ → RequestTimer → Outcome F → Option Metrics → Option Metrics
  unfolding observe_labeled count_request count_success count_error
  count_outcome now t o none = none
  count_outcome now t o (some traced) =
      let counted = count_request t o.upstream_id (observe_labeled now t o.upstream_id traced) in
      some (if o.ok then count_success t o counted else count_error t o counted)

module _ (fl : Float) (show_cost : Float.F fl → Text) where
  open fl use {F}

  -- The span of a finished request; the cost is printed with nine places by `show_cost`.
  unfoldable pub span_of : ℕ → ℕ → RequestTimer → Outcome F → TraceSpan
  unfolding trace_id_from span_id_from
  span_of utc now t o =
      let total_us = micros_between t.start now in
      let end_ns = unix_nanos utc in
      record {
        name =
            (if t.stream then codes "stream" else codes "request")
            ++ (codes " " ++ (t.method ++ (codes " " ++ model_of t)));
        trace_id = trace_id_from end_ns 0 16;
        span_id = span_id_from end_ns 0 8;
        parent_span_id = none;
        kind = codes "client";
        start_unix_nano = end_ns - total_us * 1_000;
        end_unix_nano = end_ns;
        status_code = if o.ok then codes "ok" else codes "error";
        attributes =
            (codes "http.method", codes "POST")
            ∷ (
              codes "http.route",
              if text_eq t.method (codes "anthropic")
                  then codes "/v1/messages"
                  else codes "/v1/chat/completions",
            )
            ∷ (codes "model", model_of t)
            ∷ (codes "upstream_id", upstream_of o)
            ∷ (codes "request.duration_us", decimal total_us)
            ∷ (codes "input.tokens", decimal o.in_t)
            ∷ (codes "output.tokens", decimal o.out_t)
            ∷ (codes "cost.usd", show_cost o.cost_usd)
            ∷ (codes "stream", flag t.stream)
            ∷ (codes "status_label", o.status_label)
            ∷ [];
      }

  module _ (hex : Text → ℕ) where
    -- `RequestTimer::finalize`, at an instant and the UTC time of that instant in nanoseconds. `none`
    -- is the panic of a trace ring without capacity.
    unfoldable pub finalize : ℕ → ℕ → RequestTimer → Outcome F → Metrics → Option Metrics
    unfolding count_outcome observe_times count_rates span_of
    finalize utc now t o m =
        count_outcome fl now t o
          (record_trace fl hex (span_of utc now t o) (count_rates fl utc o (observe_times now t m)))
