-- ===== src/Metrics/Persist.antt =====
-- src/metrics.rs: the rows that are stored of the counters and histograms. JSON of label tuples is the
-- parameter `to_json`.
use polyglotmesh.Prelude.{
  ℕ, suc, ℤ, as_i64, List, [], ◌∷◌, ◌++◌, map, Text, codes, get_or, saturating_add,
}
use polyglotmesh.Error.{decimal}
use polyglotmesh.Metrics.Series.{Labels, Series}
use polyglotmesh.Metrics.Histogram.{Histogram}
use polyglotmesh.Metrics.Central.{Metrics}

pub record MetricSampleRow : Type 0 where
  pub name : Text
  pub labels_json : Text
  pub value : ℤ

module _ (to_json : Labels → Text) where
  abbrev pub counter_rows : Text → Series → List MetricSampleRow
  counter_rows name s =
      map (λ e. record { name = name; labels_json = to_json e.0; value = as_i64 e.1 }) s

  -- The rows of all counters.
  unfoldable pub counter_samples : Metrics → List MetricSampleRow
  counter_samples m =
      counter_rows (codes "requests_total") m.requests_total
      ++ (counter_rows (codes "upstream_requests_total") m.upstream_requests_total
          ++ (counter_rows (codes "success_total") m.success_total
              ++ (counter_rows (codes "error_total") m.error_total
                  ++ (counter_rows (codes "input_tokens_total") m.input_tokens_total
                      ++ (counter_rows (codes "output_tokens_total") m.output_tokens_total
                          ++ (counter_rows (codes "cost_micros_total") m.cost_micros_total
                              ++ (counter_rows (codes "cache_read_input_tokens_total")
                                    m.cache_read_input_tokens_total
                                  ++ counter_rows (codes "cache_write_input_tokens_total")
                                      m.cache_write_input_tokens_total)))))))

  -- The rows of the counts from the index `i` on, each with all counts up to it.
  unfoldable pub bucket_rows : Text → List ℕ → ℕ → ℕ → List ℕ → List MetricSampleRow
  bucket_rows path buckets_us i running [] = []
  bucket_rows path buckets_us i running (c ∷ counts) =
      let total = saturating_add running c in
      record {
        name = path ++ codes "_bucket";
        labels_json =
            to_json ((codes "le_us", decimal (get_or buckets_us i 0)) ∷ (codes "path", path) ∷ []);
        value = as_i64 total;
      }
      ∷ bucket_rows path buckets_us (suc i) total counts

  abbrev pub path_json : Text → Text
  path_json path = to_json ((codes "path", path) ∷ [])

  -- The rows of the sum and the count of a histogram.
  abbrev pub total_rows : Text → Histogram → List MetricSampleRow
  total_rows path h =
      record {
        name = codes "_hist_sum::" ++ path;
        labels_json = path_json path;
        value = as_i64 h.sum_us;
      }
      ∷ record {
        name = codes "_hist_count::" ++ path;
        labels_json = path_json path;
        value = as_i64 h.count;
      }
      ∷ []

  -- The rows of one histogram.
  unfoldable pub histogram_rows : Text → Histogram → List MetricSampleRow
  unfolding bucket_rows
  histogram_rows path h = bucket_rows path h.buckets_us 0 0 h.counts ++ total_rows path h

  -- `snapshot_for_persist`
  unfoldable pub snapshot_for_persist : Metrics → List MetricSampleRow
  unfolding counter_samples histogram_rows
  snapshot_for_persist m =
      counter_samples m
      ++ (histogram_rows (codes "request_duration_seconds") m.request_duration
          ++ (histogram_rows (codes "upstream_duration_seconds") m.upstream_duration
              ++ (histogram_rows (codes "time_to_first_token_seconds") m.ttft
                  ++ histogram_rows (codes "stream_inter_token_seconds") m.inter_token)))

  -- `snapshot_for_persist_counters_only`
  unfoldable pub snapshot_for_persist_counters_only : Metrics → List MetricSampleRow
  unfolding counter_samples
  snapshot_for_persist_counters_only m =
      counter_samples m
      ++ (total_rows (codes "request_duration_seconds") m.request_duration
          ++ (total_rows (codes "upstream_duration_seconds") m.upstream_duration
              ++ (total_rows (codes "time_to_first_token_seconds") m.ttft
                  ++ total_rows (codes "stream_inter_token_seconds") m.inter_token)))
