-- ===== src/Storage/Samples.antt =====
-- src/storage.rs: the stored metric samples, one row for each name and label tuple.
use polyglotmesh.Prelude.{ℕ, Bool, ◌&&◌, ◌++◌, List, [], ◌∷◌, map, Text, text_eq}
use polyglotmesh.Metrics.Persist.{MetricSampleRow}
use polyglotmesh.Storage.{Storage, SampleRow, delete_where}

abbrev pub is_sample : Text → Text → MetricSampleRow → Bool
is_sample name labels_json r = text_eq r.name name && text_eq r.labels_json labels_json

-- `INSERT OR REPLACE`: the row with the same primary key goes, and the new one is added.
abbrev pub replace_row : ℕ → MetricSampleRow → List SampleRow → List SampleRow
replace_row now s rows =
    delete_where (λ (r : SampleRow). is_sample s.name s.labels_json r.sample) rows
    ++ (record { sample = s; updated_at = now } ∷ [])

unfoldable pub replace_rows : ℕ → List MetricSampleRow → List SampleRow → List SampleRow
replace_rows now [] rows = rows
replace_rows now (s ∷ samples) rows = replace_rows now samples (replace_row now s rows)

module _ {F : Type 0} where
  -- `save_metric_samples`
  unfoldable pub save_metric_samples : ℕ → List MetricSampleRow → Storage F → Storage F
  unfolding replace_rows
  save_metric_samples now samples db = record db {
    metric_samples = replace_rows now samples db.metric_samples;
  }

  -- `load_metric_samples`
  unfoldable pub load_metric_samples : Storage F → List MetricSampleRow
  load_metric_samples db = map (λ (r : SampleRow). r.sample) db.metric_samples
