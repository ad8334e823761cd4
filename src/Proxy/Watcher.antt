-- ===== src/Proxy/Watcher.antt =====
-- src/proxy/mod.rs: what happens to a stream after its response is returned: `upstream_stream_body`
-- passes the chunks on, and `spawn_stream_usage_watcher` waits for the counts that they report.
use polyglotmesh.Prelude.{
  ℕ, zero, suc, ◌*◌, ◌/◌, ◌++◌, ◌&&◌, Option, none, some, List, [], ◌∷◌, Text, codes, ltb, ◌==◌,
  if◌then◌else◌, add64, write,
}
use polyglotmesh.Float.{Float}
use polyglotmesh.Pricing.{cost_for}
use polyglotmesh.Auth.{IpNet}
use polyglotmesh.Auth.Durations.{Chrono}
use polyglotmesh.Metrics.Series.{Labels, inc}
use polyglotmesh.Metrics.Histogram.{observe_us}
use polyglotmesh.Metrics.Rates.{record_request}
use polyglotmesh.Metrics.Central.{Metrics}
use polyglotmesh.Accounts.{record_key_usage}
use polyglotmesh.Proxy.{Bytes, Json, unwrap_or, or_else}
use polyglotmesh.Proxy.Sse.{extract_usage_from_sse}
use polyglotmesh.Proxy.Timer.{micros_between}
use polyglotmesh.Proxy.Handler.{Server}

-- What the task of a stream keeps, with the shared accumulator and metrics.
pub record Tee : Type 0 where
  pub buf : Bytes
  pub first_chunk_at : Option ℕ
  pub last_chunk_at : Option ℕ
  pub accum : Option (ℕ × ℕ)
  pub metrics : Metrics

-- A chunk and the instant of its arrival, or an error of the connection.
pub data Arrival : Type 0 where
  chunk : ℕ → Bytes → Arrival
  broken : Arrival

-- The time to the first chunk, and the gaps between the later ones.
abbrev pub observe_gap : ℕ → ℕ → Option ℕ → Option ℕ → Metrics → Metrics
observe_gap stream_start now none last m = record m {
  ttft = observe_us (micros_between stream_start now) m.ttft;
}
observe_gap stream_start now (some first) none m = m
observe_gap stream_start now (some first) (some prev) m = record m {
  inter_token = observe_us (micros_between prev now) m.inter_token;
}

module _ {F : Type 0} (js : Json F) (stream_start : ℕ) where
  unfoldable pub pass_chunk : ℕ → Bytes → Tee → Tee
  unfolding extract_usage_from_sse
  pass_chunk now bytes t = record {
    buf = t.buf ++ bytes;
    first_chunk_at = or_else t.first_chunk_at (some now);
    last_chunk_at = some now;
    accum = extract_usage_from_sse js bytes t.accum;
    metrics = observe_gap stream_start now t.first_chunk_at t.last_chunk_at t.metrics;
  }

  -- `upstream_stream_body`: at the end the whole body is read once more; an error ends it at once.
  unfoldable pub upstream_stream_body : List Arrival → Tee → Tee
  unfolding pass_chunk
  upstream_stream_body [] t = record t { accum = extract_usage_from_sse js t.buf t.accum }
  upstream_stream_body (broken ∷ rest) t = t
  upstream_stream_body (chunk now bytes ∷ rest) t =
      upstream_stream_body rest (pass_chunk now bytes t)

-- The loop of the watcher: the accumulator at an instant is `poll`, and a sleep of 150 ms ends at
-- `wake`. `none` is the end without counts, or the end of the fuel.
unfoldable pub watch : (ℕ → Option (ℕ × ℕ)) → (ℕ → ℕ) → ℕ → ℕ → ℕ → Option (ℕ × ℕ × ℕ)
watch poll wake deadline zero now = none
watch poll wake deadline (suc fuel) now =
    let rest = watch poll wake deadline fuel (wake now) in
    elim (poll now) [
      | some (i, o) ↦ some (now, i, o)
      | none ↦ if ltb deadline now then none else rest
    ]

-- 600 s in nanoseconds.
abbrev pub watch_limit : ℕ
watch_limit = 600 * 1_000_000_000

module _ (fl : Float) (ch : Chrono) (net : IpNet) (utc : ℕ → ℕ) where
  open fl use {F}
  open net use {Net}

  -- The counters of a stream's usage.
  abbrev pub mirror : ℕ → Labels → ℕ → ℕ → F → Metrics → Metrics
  mirror unix k i o cost m = record m {
    input_tokens_total = inc k i m.input_tokens_total;
    output_tokens_total = inc k o m.output_tokens_total;
    cost_micros_total =
        inc k (Float.to_u64 fl (Float.mul fl cost (Float.lit fl 1_000_000 0))) m.cost_micros_total;
    success_total = inc k 1 m.success_total;
    upstream_requests_total = inc k 1 m.upstream_requests_total;
    rates = record_request fl unix (add64 i o) cost m.rates;
  }

  -- What the watcher does with the counts that it saw, for the key at `p` and the upstream at `q`.
  unfoldable pub record_stream : ℕ → ℕ → Option Text → ℕ → ℕ → ℕ → Server F Net → Server F Net
  unfolding record_key_usage
  record_stream p q model now i o s =
      if (i == 0) && (o == 0)
      then s
      else (let u = s.router.world.heap.at q in
          let cost = (cost_for fl u model i o).0 in
          let unix = utc now / 1_000_000_000 in
          let (r, db) =
            record_key_usage fl ch net (utc now) unix (s.keys.at p) i o cost (some u.cfg.id) model
              200 s.db in
          let k = (codes "upstream_id", u.cfg.id) ∷ (codes "model", unwrap_or model []) ∷ [] in
          record {
            router = record (s.router) { metrics = mirror unix k i o cost s.router.metrics };
            keys = write s.keys p r;
            db = db;
          })
