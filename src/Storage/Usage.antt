-- ===== src/Storage/Usage.antt =====
-- src/storage.rs: the counters of a key, `apply_counter_delta` and `get_key_usage`.
use polyglotmesh.Prelude.{
  ℕ, ℤ, pos, to_word, u64_mod, u32_mod, Option, none, some, List, [], ◌∷◌, ◌++◌, find, Text,
}
use polyglotmesh.Float.{Float}
use polyglotmesh.State.{KeyUsageRow}
use polyglotmesh.Storage.Cells.{as_int, add_cell}
use polyglotmesh.Storage.{
  Storage, UsageRow, UsageEvent, EventRow, ensure_usage, default_usage, is_usage_of, update_where,
}

module _ (fl : Float) where
  open fl use {F, lit, mul, div, of_int, to_i64}

  -- `(delta_spend_usd * 1_000_000.0) as i64`
  abbrev pub micros_of : F → ℤ
  micros_of usd = to_i64 (mul usd (lit 1_000_000 0))

  -- The update of `apply_counter_delta`, column by column.
  abbrev pub add_delta : ℤ → ℤ → ℤ → F → UsageRow F → UsageRow F
  add_delta requests input output usd r = record r {
    total_requests = add_cell fl r.total_requests requests;
    total_input_tokens = add_cell fl r.total_input_tokens input;
    total_output_tokens = add_cell fl r.total_output_tokens output;
    total_spend_micros = add_cell fl r.total_spend_micros (micros_of usd);
  }

  abbrev pub log_event : ℕ → Option (UsageEvent F) → List (EventRow F) → List (EventRow F)
  log_event now none events = events
  log_event now (some e) events = events ++ (record { event = e; at = now } ∷ [])

  -- The update of the totals and the row of the event.
  abbrev pub apply_delta : ℕ → Text → ℤ → ℤ → F → ℤ → Option (UsageEvent F) → Storage F → Storage F
  apply_delta now alias input output usd requests event db = record db {
    key_usage = update_where (is_usage_of alias) (add_delta requests input output usd) db.key_usage;
    usage_events = log_event now event db.usage_events;
  }

  -- `apply_counter_delta`: one transaction, `none` if it is rolled back.
  unfoldable pub apply_counter_delta :
      ℕ → Text → ℤ → ℤ → F → ℤ → Option (UsageEvent F) → Storage F → Option (Storage F)
  apply_counter_delta now alias input output usd requests event db =
      elim (ensure_usage (default_usage alias) db) [
        | none ↦ none
        | some d ↦ some (apply_delta now alias input output usd requests event d)
      ]

  -- The row as `get_key_usage` reads it, from its four counters: `none` is the error of a column
  -- that is not an integer.
  abbrev pub read_counters :
      Option ℤ → Option ℤ → Option ℤ → Option ℤ → UsageRow F → Option (KeyUsageRow F)
  read_counters (some q) (some i) (some o) (some micros) r = some (record {
    total_requests = to_word u64_mod q;
    total_input_tokens = to_word u64_mod i;
    total_output_tokens = to_word u64_mod o;
    total_spend_usd = div (of_int micros) (lit 1_000_000 0);
    in_flight = to_word u32_mod r.in_flight;
    rpm_window_start = pos r.rpm_window_start;
    rpm_window_count = to_word u32_mod r.rpm_window_count;
    tpm_window_start = pos r.tpm_window_start;
    tpm_window_tokens = to_word u32_mod r.tpm_window_tokens;
  })
  read_counters (some q) (some i) (some o) none r = none
  read_counters (some q) (some i) none micros r = none
  read_counters (some q) none o micros r = none
  read_counters none i o micros r = none

  abbrev pub read_usage : UsageRow F → Option (KeyUsageRow F)
  read_usage r =
      read_counters (as_int r.total_requests) (as_int r.total_input_tokens)
        (as_int r.total_output_tokens) (as_int r.total_spend_micros) r

  -- `KeyUsageRow::default`
  abbrev pub default_row : KeyUsageRow F
  default_row = record {
    total_requests = 0;
    total_input_tokens = 0;
    total_output_tokens = 0;
    total_spend_usd = lit 0 0;
    in_flight = 0;
    rpm_window_start = pos 0;
    rpm_window_count = 0;
    tpm_window_start = pos 0;
    tpm_window_tokens = 0;
  }

  -- `get_key_usage`
  unfoldable pub get_key_usage : Text → Storage F → Option (KeyUsageRow F)
  get_key_usage alias db = elim (find (is_usage_of alias) db.key_usage) [
    | none ↦ some default_row
    | some r ↦ read_usage r
  ]
