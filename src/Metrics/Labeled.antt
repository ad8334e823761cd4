-- ===== src/Metrics/Labeled.antt =====
-- src/metrics.rs: `LabeledHistogram`, one histogram per label tuple.
use polyglotmesh.Prelude.{ℕ, List, map, none, some, ◌≡◌, arith, Ordering}
use polyglotmesh.BTree
use polyglotmesh.BTree.{get-insert}
use polyglotmesh.Metrics.Series.{Labels, cmp_labels, labels_cmp}
use polyglotmesh.Metrics.Histogram.{
  Histogram, HistogramSample, with_buckets, observe_us, snapshot, reset,
}

pub record LabeledHistogram : Type 0 where
  pub buckets_us : List ℕ
  pub series : List (Labels × Histogram)

-- `entry(labels).or_insert_with(..)`
unfoldable pub entry : Labels → LabeledHistogram → Histogram
unfolding with_buckets
entry k l = elim (BTree.get cmp_labels k l.series) [ some h ↦ h | none ↦ with_buckets l.buckets_us ]

-- `LabeledHistogram::observe`
unfoldable pub observe : Labels → ℕ → LabeledHistogram → LabeledHistogram
unfolding entry observe_us
observe k us l = record l {
  series = BTree.insert cmp_labels k (observe_us us (entry k l)) l.series;
}

-- `LabeledHistogram::snapshot`
pub snapshot_all : LabeledHistogram → List (Labels × HistogramSample)
unfolding snapshot
snapshot_all l = map (λ e. (e.0, snapshot e.1)) l.series

-- `LabeledHistogram::reset`
unfoldable pub reset_all : LabeledHistogram → LabeledHistogram
unfolding reset
reset_all l = record l { series = map (λ e. (e.0, reset e.1)) l.series }

-- An observation goes to the histogram of its label tuple, which is fresh if there was none, and to
-- no other.
pub entry-observe :
    (j k : Labels) (us : ℕ) (l : LabeledHistogram)
    → entry j (observe k us l)
      ≡ (elim (cmp_labels j k) [ Ordering.eq ↦ observe_us us (entry k l) | _ ↦ entry j l ])
unfolding observe entry
entry-observe j k us l =
    ground (arith, get-insert cmp_labels labels_cmp k j (observe_us us (entry k l)) l.series)
