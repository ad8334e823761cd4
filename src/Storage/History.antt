-- ===== src/Storage/History.antt =====
-- src/storage.rs: the hourly spend history of a key and the downsampled metrics.
use polyglotmesh.Prelude.{
  ℕ, ℤ, ◌+◌, ◌*◌, ◌/◌, Bool, ◌&&◌, Option, none, some, List, [], ◌∷◌, if◌then◌else◌, filter, take_n,
  Text, text_eq, ltb, leb, ◌==◌, to_word, u64_mod,
}
use polyglotmesh.Float.{Float}
use polyglotmesh.Sort.{sort_by}
use polyglotmesh.Storage.{Storage, SpendRow, RollupRow, upsert_where}
use polyglotmesh.Auth.Durations.{Run, panicked, done}
use polyglotmesh.Storage.Cells.{int, as_int, add_cell}
use polyglotmesh.Storage.Usage.{micros_of}

-- A row of `spend_history` as it is read.
pub record KeySpendHistoryRow (F : Type 0) : Type 0 where
  pub window_start : ℕ
  pub window_end : ℕ
  pub requests : ℕ
  pub input_tokens : ℕ
  pub output_tokens : ℕ
  pub spend_usd : F

-- The start of the window of a time: `(at / window_seconds) * window_seconds`.
abbrev pub window_of : ℕ → ℕ → ℕ
window_of at window_seconds = at / window_seconds * window_seconds

-- The bucket of an alias and a window.
abbrev pub is_spend_of : {F : Type 0} → Text → ℕ → SpendRow F → Bool
is_spend_of alias start r = text_eq r.alias alias && (r.window_start == start)

module _ (fl : Float) where
  open fl use {F, lit, div, of_int}

  -- The statement of `record_spend_history`, for the window from a start to an end.
  unfoldable pub upsert_spend : Text → ℕ → ℕ → ℤ → ℤ → F → ℤ → Storage F → Storage F
  upsert_spend alias start end input output usd requests db = record db {
    key_spend_history =
        upsert_where (is_spend_of alias start)
          (λ r. record r {
            requests = add_cell fl (SpendRow.requests r) requests;
            input_tokens = add_cell fl (SpendRow.input_tokens r) input;
            output_tokens = add_cell fl (SpendRow.output_tokens r) output;
            spend_micros = add_cell fl (SpendRow.spend_micros r) (micros_of fl usd);
          })
          (record {
            alias = alias;
            window_start = start;
            window_end = end;
            requests = int requests;
            input_tokens = int input;
            output_tokens = int output;
            spend_micros = int (micros_of fl usd);
          })
          db.key_spend_history;
  }

  -- `record_spend_history`: the division panics where the window is 0.
  unfoldable pub record_spend_history : Text → ℕ → ℕ → ℤ → ℤ → F → ℤ → Storage F → Run (Storage F)
  unfolding upsert_spend
  record_spend_history alias at window_seconds input output usd requests db =
      if window_seconds == 0
      then panicked
      else (let start = window_of at window_seconds in
          done (upsert_spend alias start (start + window_seconds) input output usd requests db))

  -- A row as `spend_history` reads it, from its four columns: `none` is the error of a column that is
  -- not an integer.
  abbrev pub read_spend :
      Option ℤ → Option ℤ → Option ℤ → Option ℤ → SpendRow F → Option (KeySpendHistoryRow F)
  read_spend (some q) (some i) (some o) (some micros) r = some (record {
    window_start = r.window_start;
    window_end = r.window_end;
    requests = to_word u64_mod q;
    input_tokens = to_word u64_mod i;
    output_tokens = to_word u64_mod o;
    spend_usd = div (of_int micros) (lit 1_000_000 0);
  })
  read_spend (some q) (some i) (some o) none r = none
  read_spend (some q) (some i) none micros r = none
  read_spend (some q) none o micros r = none
  read_spend none i o micros r = none

  -- The rows, if each of them can be read.
  abbrev pub read_rows : List (SpendRow F) → Option (List (KeySpendHistoryRow F))
  read_rows [] = some []
  read_rows (r ∷ rows) =
      elim (read_spend (as_int r.requests) (as_int r.input_tokens) (as_int r.output_tokens)
        (as_int r.spend_micros) r) [
          | none ↦ none
          | some a ↦ elim (read_rows rows) [ none ↦ none | some rest ↦ some (a ∷ rest) ]
        ]

  -- `spend_history`: the rows of an alias, the latest window first.
  unfoldable pub spend_history : Text → ℕ → Storage F → Option (List (KeySpendHistoryRow F))
  unfolding sort_by
  spend_history alias limit db = read_rows (
      take_n limit (
        sort_by (λ a b. leb (SpendRow.window_start b) (SpendRow.window_start a))
          (filter (λ r. text_eq (SpendRow.alias r) alias) db.key_spend_history)))

module _ {F : Type 0} where
  -- `record_rollup`
  unfoldable pub record_rollup : Text → ℕ → Text → Text → ℤ → Storage F → Storage F
  record_rollup bucket start name labels value db = record db {
    metric_rollups =
        upsert_where
          (λ r.
            text_eq (RollupRow.bucket r) bucket
            && (RollupRow.window_start r == start)
            && text_eq (RollupRow.name r) name
            && text_eq (RollupRow.labels_json r) labels)
          (λ r. record r { value = value })
          (record {
            bucket = bucket;
            window_start = start;
            name = name;
            labels_json = labels;
            value = value;
          })
          db.metric_rollups;
  }

  -- `rollups_in_range`: a half-open range of window starts, the earliest first.
  unfoldable pub rollups_in_range : Text → ℕ → ℕ → ℕ → Storage F → List RollupRow
  unfolding sort_by
  rollups_in_range bucket since until limit db = take_n limit (
      sort_by (λ a b. leb (RollupRow.window_start a) (RollupRow.window_start b))
        (filter
          (λ r.
            text_eq (RollupRow.bucket r) bucket
            && leb since (RollupRow.window_start r)
            && ltb (RollupRow.window_start r) until)
          db.metric_rollups))
