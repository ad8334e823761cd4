-- ===== src/Metrics/Tests.antt =====
-- Runs of src/metrics.rs.
use polyglotmesh.Prelude.{◌≡◌, refl, [], ◌∷◌, none, some, Text, codes, arith}
use polyglotmesh.Metrics.Histogram.{with_buckets, snapshot}
use polyglotmesh.Metrics.Cumulative.{IsRising, expected, observe_all}
use polyglotmesh.Metrics.Observed.{snapshot-observe_all}
use polyglotmesh.Metrics.Series.{Labels}
use polyglotmesh.Metrics.Labeled.{LabeledHistogram}
use polyglotmesh.Metrics.Rates.{new_ring, add, sum_ring, sum_back, advance, count_at, clear_from}
use polyglotmesh.Metrics.Window.{ring_of, log_of, log_sum, sum_ring-log_sum}
use polyglotmesh.Metrics.Traces.{TraceSpan, push_all, recent, push_all-recent}

rising : IsRising (10 ∷ 20 ∷ [])
unfolding IsRising
rising = ((omega arith, tt), (tt, tt))

-- An observation above the last bound is counted in the last bucket.
snapshot-observe_all_example :
    snapshot (observe_all (5 ∷ 15 ∷ 99 ∷ []) (with_buckets (10 ∷ 20 ∷ []))) ≡ record {
      buckets = record { le_us = 10; count = 1 } ∷ record { le_us = 20; count = 3 } ∷ [];
      sum_us = 119;
      count = 3;
    }
unfolding expected
snapshot-observe_all_example =
    snapshot-observe_all (5 ∷ 15 ∷ 99 ∷ []) (10 ∷ 20 ∷ []) rising (omega arith)

abbrev by_status : Text → Labels
by_status s = (codes "status", s) ∷ []

abbrev no_series : LabeledHistogram
no_series = record { buckets_us = 10 ∷ 20 ∷ []; series = [] }

abbrev span : Text → TraceSpan
span id = record {
  name = [];
  trace_id = [];
  span_id = id;
  parent_span_id = none;
  kind = codes "client";
  start_unix_nano = 0;
  end_unix_nano = 1;
  status_code = codes "ok";
  attributes = [];
}

push_all-recent_example :
    push_all 2 (span (codes "1") ∷ span (codes "2") ∷ span (codes "3") ∷ []) []
    ≡ some (span (codes "2") ∷ span (codes "3") ∷ [])
unfolding recent
push_all-recent_example =
    push_all-recent 2 (span (codes "1") ∷ span (codes "2") ∷ span (codes "3") ∷ []) (omega arith)

-- Two seconds after the last event the ring still counts one that is a window and a second old.
stale : sum_ring 12 (add 1 10 (add 5 8 (new_ring 3))) ≡ 6
unfolding sum_ring sum_back add advance count_at clear_from
stale = refl

-- The second 6 is no longer in the window of 10.
sum_ring-log_sum_example : sum_ring 10 (ring_of 3 ((1, 10) ∷ (5, 8) ∷ (9, 6) ∷ [])) ≡ 6
unfolding log_of log_sum
sum_ring-log_sum_example =
    sum_ring-log_sum 3 ((1, 10) ∷ (5, 8) ∷ (9, 6) ∷ []) (omega arith) (omega arith)
