-- ===== src/State/Samples.antt =====
-- src/state.rs: `metrics_restore`, which reads the stored rows back. JSON of label tuples is the
-- parameter `from_json`.
use polyglotmesh.Prelude.{
  ℕ, to_word, u64_mod, ◌||◌, Option, none, some, List, [], ◌∷◌, Text, codes, text_eq, is_empty,
  if◌then◌else◌,
}
use polyglotmesh.Metrics.Series.{Labels}
use polyglotmesh.Metrics.Series
use polyglotmesh.Metrics.Central.{Metrics}
use polyglotmesh.Metrics.Persist.{MetricSampleRow}
use polyglotmesh.State.{restore_histogram}

abbrev pub Setter : Type 0
Setter = Labels → ℕ → Metrics → Metrics

-- The arms of the match on the name of a row.
unfoldable pub counter_setters : List (Text × Setter)
counter_setters =
    (codes "requests_total", λ k v m. record m { requests_total = Series.set k v m.requests_total })
    ∷ (
      codes "upstream_requests_total",
      λ k v m. record m { upstream_requests_total = Series.set k v m.upstream_requests_total },
    )
    ∷ (codes "success_total", λ k v m. record m { success_total = Series.set k v m.success_total })
    ∷ (codes "error_total", λ k v m. record m { error_total = Series.set k v m.error_total })
    ∷ (
      codes "input_tokens_total",
      λ k v m. record m { input_tokens_total = Series.set k v m.input_tokens_total },
    )
    ∷ (
      codes "output_tokens_total",
      λ k v m. record m { output_tokens_total = Series.set k v m.output_tokens_total },
    )
    ∷ (
      codes "cost_micros_total",
      λ k v m. record m { cost_micros_total = Series.set k v m.cost_micros_total },
    )
    ∷ (
      codes "cache_read_input_tokens_total",
      λ k v m. record m {
        cache_read_input_tokens_total = Series.set k v m.cache_read_input_tokens_total;
      },
    )
    ∷ (
      codes "cache_write_input_tokens_total",
      λ k v m. record m {
        cache_write_input_tokens_total = Series.set k v m.cache_write_input_tokens_total;
      },
    )
    ∷ []

unfoldable pub histogram_setters : List (Text × Setter)
histogram_setters =
    (
      codes "request_duration_seconds_bucket",
      λ k v m. record m { request_duration = restore_histogram m.request_duration k v },
    )
    ∷ (
      codes "upstream_duration_seconds_bucket",
      λ k v m. record m { upstream_duration = restore_histogram m.upstream_duration k v },
    )
    ∷ (
      codes "time_to_first_token_seconds_bucket",
      λ k v m. record m { ttft = restore_histogram m.ttft k v },
    )
    ∷ (
      codes "stream_inter_token_seconds_bucket",
      λ k v m. record m { inter_token = restore_histogram m.inter_token k v },
    )
    ∷ (
      codes "_hist_sum::request_duration_seconds",
      λ k v m. record m { request_duration = record (m.request_duration) { sum_us = v } },
    )
    ∷ (
      codes "_hist_count::request_duration_seconds",
      λ k v m. record m { request_duration = record (m.request_duration) { count = v } },
    )
    ∷ (
      codes "_hist_sum::upstream_duration_seconds",
      λ k v m. record m { upstream_duration = record (m.upstream_duration) { sum_us = v } },
    )
    ∷ (
      codes "_hist_count::upstream_duration_seconds",
      λ k v m. record m { upstream_duration = record (m.upstream_duration) { count = v } },
    )
    ∷ (
      codes "_hist_sum::time_to_first_token_seconds",
      λ k v m. record m { ttft = record (m.ttft) { sum_us = v } },
    )
    ∷ (
      codes "_hist_count::time_to_first_token_seconds",
      λ k v m. record m { ttft = record (m.ttft) { count = v } },
    )
    ∷ (
      codes "_hist_sum::stream_inter_token_seconds",
      λ k v m. record m { inter_token = record (m.inter_token) { sum_us = v } },
    )
    ∷ (
      codes "_hist_count::stream_inter_token_seconds",
      λ k v m. record m { inter_token = record (m.inter_token) { count = v } },
    )
    ∷ []

-- The first arm of the name; a row of another name changes nothing.
unfoldable pub set_by : List (Text × Setter) → Text → Setter
set_by [] name k v m = m
set_by ((n, setter) ∷ rest) name k v m =
    if text_eq n name then setter k v m else set_by rest name k v m

module _ (from_json : Text → Option Labels) where
  -- The label tuple of a row; text that is not JSON of one is read as none.
  abbrev pub labels_of : Text → Labels
  labels_of json =
      if is_empty json || text_eq json (codes "[]")
      then []
      else (elim (from_json json) [ some k ↦ k | none ↦ [] ])

  unfoldable pub restore_row : MetricSampleRow → Metrics → Metrics
  unfolding set_by counter_setters histogram_setters
  restore_row r m =
      let k = labels_of r.labels_json in
      let v = to_word u64_mod r.value in
      set_by histogram_setters r.name k v (set_by counter_setters r.name k v m)

  -- `metrics_restore`
  unfoldable pub metrics_restore : List MetricSampleRow → Metrics → Metrics
  unfolding restore_row
  metrics_restore [] m = m
  metrics_restore (r ∷ rows) m = metrics_restore rows (restore_row r m)
