-- ===== src/Admin/Tasks.antt =====
-- src/admin/mod.rs: one round of each background task: the reset of the budgets, the persisting of the
-- metrics, the rollups, the retention and the watched configuration.
use polyglotmesh.Prelude.{
  ℕ, as_i64, ◌-◌, ◌*◌, ◌/◌, Bool, true, false, none, some, List, [], ◌∷◌, Text, codes, cmp_text,
  text_eq, if◌then◌else◌, Heap, write,
}
use polyglotmesh.BTree
use polyglotmesh.Auth.{IpNet, KeyRecord}
use polyglotmesh.Auth.Durations.{Run, panicked, done, Chrono, parse_duration_to_chrono}
use polyglotmesh.Auth.Gate.{restart_budget}
use polyglotmesh.Metrics.Series.{Labels}
use polyglotmesh.Metrics.Persist.{snapshot_for_persist, snapshot_for_persist_counters_only}
use polyglotmesh.Storage.{Storage, reset_spend}
use polyglotmesh.Storage.History.{record_rollup}
use polyglotmesh.Storage.Samples.{save_metric_samples}
use polyglotmesh.AppState.{Host, Clock, unix, App}

module _ {F : Type 0} (ch : Chrono) (net : IpNet) where
  open net use {Net}

  -- Whether the budget window of a key has run out: `panicked` where its duration panics.
  unfoldable pub has_run_out : ℕ → KeyRecord F Net → Run Bool
  unfolding parse_duration_to_chrono
  has_run_out now r = elim r.max_budget [
    | none ↦ done false
    | some limit ↦ elim (parse_duration_to_chrono ch r.budget_duration) [
      | panicked ↦ panicked
      | done none ↦ done false
      | done (some d) ↦ done (Chrono.elapsed ch now r.budget_window_start d)
    ]
  ]

  abbrev pub reset_if :
      Bool → ℕ → ℕ → Heap (KeyRecord F Net) → Storage F → Heap (KeyRecord F Net) × Storage F
  reset_if false now p h db = (h, db)
  reset_if true now p h db =
      (write h p (restart_budget now true (h.at p)), reset_spend (h.at p).alias db)

  -- The loop of one round of `spawn_budget_reset_task`: whether it ends, and what it leaves. A panic
  -- ends the task.
  unfoldable pub reset_budgets :
      ℕ → List ℕ → Heap (KeyRecord F Net) → Storage F → Bool × Heap (KeyRecord F Net) × Storage F
  unfolding has_run_out reset_spend
  reset_budgets now [] h db = (true, h, db)
  reset_budgets now (p ∷ ks) h db = elim (has_run_out now (h.at p)) [
    | panicked ↦ (false, h, db)
    | done b ↦ let (h', db') = reset_if b now p h db in reset_budgets now ks h' db'
  ]

abbrev pub last_of : Text → List (Text × ℕ) → ℕ
last_of name last = elim (BTree.get cmp_text name last) [ none ↦ 0 | some v ↦ v ]

module _ {F : Type 0} where
  -- The loop of one round of `spawn_rollup_task`. `current` is the number that
  -- `snap.get(name)` finds in the JSON snapshot, or 0.
  unfoldable pub roll_up :
      ℕ → (Text → ℕ) → List Text → List (Text × ℕ) → Storage F → List (Text × ℕ) × Storage F
  unfolding record_rollup
  roll_up start current [] last db = (last, db)
  roll_up start current (name ∷ names) last db =
      roll_up start current names (BTree.insert cmp_text name (current name) last) (
        record_rollup (codes "1m") start name (codes "{}")
          (as_i64 (current name - last_of name last)) db)

-- A field of the JSON snapshot of the metrics, as far as `as_u64` tells: a number or not.
pub data SnapshotField : Type 0 where
  object : SnapshotField
  number : ℕ → SnapshotField

-- The fields of `snapshot_json`, which holds the counters in an object of theirs.
abbrev pub snapshot_json : List (Text × SnapshotField)
snapshot_json =
    (codes "counters", object) ∷ (codes "histograms", object) ∷ (codes "gauges", object) ∷ []

-- `snap.get(name).and_then(|v| v.as_u64()).unwrap_or(0)`
unfoldable pub current_value : List (Text × SnapshotField) → Text → ℕ
current_value [] name = 0
current_value ((field, object) ∷ fields) name =
    if text_eq field name then 0 else current_value fields name
current_value ((field, number n) ∷ fields) name =
    if text_eq field name then n else current_value fields name

abbrev pub counter_names : List Text
counter_names =
    codes "requests_total"
    ∷ codes "upstream_requests_total"
    ∷ codes "success_total"
    ∷ codes "error_total"
    ∷ codes "input_tokens_total"
    ∷ codes "output_tokens_total"
    ∷ codes "cost_micros_total"
    ∷ []

module _ (host : Host) where
  open host use {fl, ch, net}
  open fl use {F}

  -- One round of `spawn_budget_reset_task`.
  unfoldable pub budget_reset_tick : ℕ → App host → Bool × App host
  unfolding reset_budgets
  budget_reset_tick now s =
      let (ended, h, db) = reset_budgets ch net now s.auth s.keys s.storage in
      (ended, record s { keys = h; storage = db })

  -- One round of `spawn_rollup_task`.
  unfoldable pub rollup_tick : Clock → List (Text × ℕ) → App host → List (Text × ℕ) × App host
  unfolding roll_up current_value
  rollup_tick t last s =
      let (last', db) =
        roll_up (unix t / 60 * 60) (current_value snapshot_json) counter_names last s.storage in
      (last', record s { storage = db })

  -- One round of `spawn_metrics_persister`: the first one leaves the buckets out.
  unfoldable pub persist_tick : Clock → (Labels → Text) → Bool → App host → App host
  unfolding snapshot_for_persist snapshot_for_persist_counters_only save_metric_samples
  persist_tick t to_json first s =
      let samples =
        if first
        then snapshot_for_persist_counters_only to_json s.metrics
        else snapshot_for_persist to_json s.metrics in
      record s { storage = save_metric_samples (unix t) samples s.storage }
