-- ===== src/Storage.antt =====
-- src/storage.rs: the tables of the SQLite database and the statements on them, each as its SQL says.
-- A table is the list of its rows in the order of their insertion. The columns that SQL adds to are
-- `Cell`s, which leave the integers when a sum leaves the range of i64; columns of times are counts of seconds since 1970. A statement fails where a
-- foreign key has no row, which is `none`; other failures of SQLite (a full disk, a locked file) are
-- not modelled.
pub mod Cells
pub mod Keys
pub mod Usage
pub mod Tally
pub mod Totals
pub mod Spend
pub mod Windows
pub mod History
pub mod Audit
pub mod Samples
pub mod Summary
pub mod Grouped
pub mod Tests
use polyglotmesh.Prelude.{
  ℕ, ℤ, pos, ◌+◌, ◌+ℤ◌, to_word, u64_mod, u32_mod, Bool, true, false, not, ◌&&◌, Option, none, some,
  List, [], ◌∷◌, ◌++◌, map, filter, any, find, length, reverse, take_n, Text, codes, text_eq, ltb,
  leb, ◌==◌, if◌then◌else◌,
}
use polyglotmesh.Float.{Float}
use polyglotmesh.Config.{ApiKeyConfig, UpstreamConfig}
use polyglotmesh.Error.{RouterError, RouterResult, ok, err, internal, json}
use polyglotmesh.Auth.{short_alias, bare_config}
use polyglotmesh.State.{KeyUsageRow}
use polyglotmesh.Metrics.Persist.{MetricSampleRow}
use polyglotmesh.Storage.Cells.{Cell, int, real}

-- `api_keys`
pub record ApiKeyRow : Type 0 where
  pub alias : Text
  pub raw_hash : Text
  pub role : Text
  pub config_json : Text
  pub created_at : ℕ

-- `upstreams`
pub record UpstreamRow : Type 0 where
  pub id : Text
  pub config_json : Text
  pub created_at : ℕ

-- `key_usage`
pub record UsageRow (F : Type 0) : Type 0 where
  pub alias : Text
  pub total_requests : Cell F
  pub total_input_tokens : Cell F
  pub total_output_tokens : Cell F
  pub total_spend_micros : Cell F
  pub in_flight : ℤ
  pub rpm_window_start : ℕ
  pub rpm_window_count : ℤ
  pub tpm_window_start : ℕ
  pub tpm_window_tokens : ℤ

-- `UsageEvent`
pub record UsageEvent (F : Type 0) : Type 0 where
  pub alias : Text
  pub upstream_id : Option Text
  pub model : Option Text
  pub input_tokens : ℕ
  pub output_tokens : ℕ
  pub cost_usd : F
  pub status : ℕ

-- A row of `usage_events`, its id being its place.
pub record EventRow (F : Type 0) : Type 0 where
  pub event : UsageEvent F
  pub at : ℕ

-- `key_spend_history`
pub record SpendRow (F : Type 0) : Type 0 where
  pub alias : Text
  pub window_start : ℕ
  pub window_end : ℕ
  pub requests : Cell F
  pub input_tokens : Cell F
  pub output_tokens : Cell F
  pub spend_micros : Cell F

-- `metric_rollups`
pub record RollupRow : Type 0 where
  pub bucket : Text
  pub window_start : ℕ
  pub name : Text
  pub labels_json : Text
  pub value : ℤ

-- A row of `metric_samples`.
pub record SampleRow : Type 0 where
  pub sample : MetricSampleRow
  pub updated_at : ℕ

-- `AuditEvent`, a row of `audit_events`.
pub record AuditEvent : Type 0 where
  pub id : ℕ
  pub action : Text
  pub actor : Text
  pub detail : Text
  pub at : ℕ

pub record Storage (F : Type 0) : Type 0 where
  pub api_keys : List ApiKeyRow
  pub upstreams : List UpstreamRow
  pub key_usage : List (UsageRow F)
  pub usage_events : List (EventRow F)
  pub key_spend_history : List (SpendRow F)
  pub metric_rollups : List RollupRow
  pub metric_samples : List SampleRow
  pub audit_events : List AuditEvent

-- The tables after `open` on a new file.
abbrev pub new_storage : {F : Type 0} → Storage F
new_storage = record {
  api_keys = [];
  upstreams = [];
  key_usage = [];
  usage_events = [];
  key_spend_history = [];
  metric_rollups = [];
  metric_samples = [];
  audit_events = [];
}

-- `UPDATE .. WHERE`
abbrev pub update_where : {R : Type 0} → (R → Bool) → (R → R) → List R → List R
update_where p f [] = []
update_where p f (r ∷ rows) = (if p r then f r else r) ∷ update_where p f rows

-- `DELETE .. WHERE`
abbrev pub delete_where : {R : Type 0} → (R → Bool) → List R → List R
delete_where p rows = filter (λ r. not (p r)) rows

-- `INSERT .. ON CONFLICT DO UPDATE`: the rows in conflict are updated, or the new row is added.
abbrev pub upsert_where : {R : Type 0} → (R → Bool) → (R → R) → R → List R → List R
upsert_where p f r rows = if any p rows then update_where p f rows else rows ++ (r ∷ [])

-- The row that `INSERT INTO key_usage (alias)` makes.
abbrev pub default_usage : {F : Type 0} → Text → UsageRow F
default_usage alias = record {
  alias = alias;
  total_requests = int (pos 0);
  total_input_tokens = int (pos 0);
  total_output_tokens = int (pos 0);
  total_spend_micros = int (pos 0);
  in_flight = pos 0;
  rpm_window_start = 0;
  rpm_window_count = pos 0;
  tpm_window_start = 0;
  tpm_window_tokens = pos 0;
}

abbrev pub is_usage_of : {F : Type 0} → Text → UsageRow F → Bool
is_usage_of alias r = text_eq r.alias alias

abbrev pub is_key : Text → ApiKeyRow → Bool
is_key alias r = text_eq r.alias alias

module _ {F : Type 0} where
  -- Insert a `key_usage` row if there is none of its alias; `none` is the violated reference to
  -- `api_keys`, which `OR IGNORE` and `ON CONFLICT` do not cover.
  unfoldable pub ensure_usage : UsageRow F → Storage F → Option (Storage F)
  ensure_usage row db =
      if any (is_usage_of row.alias) db.key_usage
      then some db
      else if any (is_key row.alias) db.api_keys
      then some (record db { key_usage = db.key_usage ++ (row ∷ []) })
      else none

  -- `DELETE FROM api_keys`, with the cascade: the rows of `key_usage` that refer to a deleted row.
  unfoldable pub delete_keys : (ApiKeyRow → Bool) → Storage F → Storage F
  delete_keys p db =
      let deleted = filter p db.api_keys in
      record db {
        api_keys = delete_where p db.api_keys;
        key_usage = delete_where (λ (u : UsageRow F). any (is_key u.alias) deleted) db.key_usage;
      }

  -- `delete_api_key_by_alias`
  unfoldable pub delete_api_key_by_alias : Text → Storage F → Bool × Storage F
  unfolding delete_keys
  delete_api_key_by_alias alias db = (any (is_key alias) db.api_keys, delete_keys (is_key alias) db)

  -- `delete_api_key_by_raw`, with the hash of the key's text
  unfoldable pub delete_api_key_by_raw : (Text → Text) → Text → Storage F → Bool × Storage F
  unfolding delete_keys
  delete_api_key_by_raw hash raw db =
      let p = λ (r : ApiKeyRow). text_eq r.raw_hash (hash raw) in
      (any p db.api_keys, delete_keys p db)

  -- `delete_upstream`
  unfoldable pub delete_upstream : Text → Storage F → Bool × Storage F
  delete_upstream id db =
      let p = λ (r : UpstreamRow). text_eq r.id id in
      (any p db.upstreams, record db { upstreams = delete_where p db.upstreams })

  -- `set_in_flight`; the conflict updates the row before the reference is looked at.
  unfoldable pub set_in_flight : Text → ℤ → Storage F → Option (Storage F)
  unfolding ensure_usage
  set_in_flight alias n db = elim (ensure_usage (default_usage alias) db) [
    | none ↦ none
    | some d ↦ some (record d {
      key_usage = update_where (is_usage_of alias) (λ r. record r { in_flight = n }) d.key_usage;
    })
  ]

  -- `get_budget_window`: `none` is the error of a column that is not an integer.
  unfoldable pub get_budget_window : Text → Storage F → Option (Option ℤ)
  get_budget_window alias db = elim (find (is_usage_of alias) db.key_usage) [
    | none ↦ some none
    | some r ↦ elim r.total_spend_micros [ int n ↦ some (some n) | real x ↦ none ]
  ]

  -- `reset_spend`
  unfoldable pub reset_spend : Text → Storage F → Storage F
  reset_spend alias db = record db {
    key_usage =
        update_where (is_usage_of alias) (λ r. record r { total_spend_micros = int (pos 0) })
          db.key_usage;
  }

  -- `delete_events_older_than`: how many rows are gone, and the tables.
  unfoldable pub delete_events_older_than : ℕ → Storage F → ℕ × Storage F
  delete_events_older_than cutoff db =
      let p = λ (r : EventRow F). ltb (EventRow.at r) cutoff in
      (
        length (filter p db.usage_events),
        record db { usage_events = delete_where p db.usage_events },
      )

  -- `count_events`
  unfoldable pub count_events : Storage F → ℕ
  count_events db = length db.usage_events

  -- `last_events`: the newest first.
  unfoldable pub last_events : ℕ → Storage F → List (EventRow F)
  last_events limit db = take_n limit (reverse db.usage_events)
