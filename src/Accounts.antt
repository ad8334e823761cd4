-- ===== src/Accounts.antt =====
-- src/state.rs: the operations on a key that also write to the database. An error of the database is
-- logged and dropped. `now` is the time of the key's windows and `unix` the seconds since 1970.
pub mod Persisted
mod Tests
use polyglotmesh.Prelude.{
  as_i64, ℕ, ℤ, pos, negsuc, ◌+◌, ◌-◌, ◌%◌, Bool, true, false, Option, none, some, Text, ltb,
  if◌then◌else◌, add64, u64_mod, u32_mod, Heap,
}
use polyglotmesh.Float.{Float}
use polyglotmesh.Auth.{KeyRecord, AuthStore, IpNet}
use polyglotmesh.Auth.Durations.{Chrono, panicked, done}
use polyglotmesh.Auth.Gate.{Verdict, granted, crashed, refused, authorize, record_usage, release}
use polyglotmesh.Storage.{Storage, UsageEvent, set_in_flight}
use polyglotmesh.Storage.Usage.{apply_counter_delta}
use polyglotmesh.Storage.Windows.{update_rpm_window, update_tpm_window}
use polyglotmesh.Storage.History.{record_spend_history}

-- The tables after a statement that may fail.
abbrev pub commit : {A : Type 0} → Option A → A → A
commit none db = db
commit (some d) db = d

abbrev pub tables_of : {A B : Type 0} → Option (A × B) → Option B
tables_of none = none
tables_of (some (a, b)) = some b

module _ {F Net : Type 0} where
  -- The event that a request logs.
  abbrev pub usage_event :
      KeyRecord F Net → ℕ → ℕ → F → Option Text → Option Text → ℕ → UsageEvent F
  usage_event r input output cost upstream_id model status = record {
    alias = r.alias;
    upstream_id = upstream_id;
    model = model;
    input_tokens = input;
    output_tokens = output;
    cost_usd = cost;
    status = status;
  }

  -- The window of the tokens, for a key with a limit.
  unfoldable pub persist_tokens : ℕ → KeyRecord F Net → ℕ → ℕ → Storage F → Storage F
  unfolding update_tpm_window
  persist_tokens unix r input output db =
      if ltb 0 r.tpm_limit
      then commit (tables_of (update_tpm_window unix r.alias (add64 input output % u32_mod) 60 db))
          db
      else db

  -- `AppState::release_key`
  unfoldable pub release_key : KeyRecord F Net → Storage F → KeyRecord F Net × Storage F
  unfolding set_in_flight
  release_key r db =
      let r' = release r in (r', commit (set_in_flight r.alias (pos r'.usage.in_flight) db) db)

  -- The part of `AppState::authorize` that writes the window of the requests.
  unfoldable pub persist_requests : ℕ → KeyRecord F Net → Storage F → Storage F
  unfolding update_rpm_window
  persist_requests unix r db =
      if ltb 0 r.rpm_limit then commit (tables_of (update_rpm_window unix r.alias 60 db)) db else db

module _ (fl : Float) {Net : Type 0} where
  open fl use {F}

  -- The writes of `record_key_usage`. The window of an hour does not panic.
  unfoldable pub persist_usage : ℕ → KeyRecord F Net → UsageEvent F → Storage F → Storage F
  unfolding apply_counter_delta record_spend_history persist_tokens
  persist_usage unix r e db =
      let i = as_i64 e.input_tokens in
      let o = as_i64 e.output_tokens in
      let counted =
        commit (apply_counter_delta fl unix r.alias i o e.cost_usd (pos 1) (some e) db) db in
      persist_tokens unix r e.input_tokens e.output_tokens
        (elim (record_spend_history fl r.alias unix 3_600 i o e.cost_usd (pos 1) counted) [
          | panicked ↦ counted
          | done d ↦ d
        ])

module _ (fl : Float) (ch : Chrono) (net : IpNet) where
  open fl use {F}
  open net use {Net, IpAddr}

  -- `AppState::record_key_usage`
  unfoldable pub record_key_usage :
      ℕ
      → ℕ
      → KeyRecord F Net
      → ℕ
      → ℕ
      → F
      → Option Text
      → Option Text
      → ℕ
      → Storage F
      → KeyRecord F Net × Storage F
  unfolding record_usage persist_usage
  record_key_usage now unix r input output cost upstream_id model status db = (
    record_usage fl ch net now input output cost r,
    persist_usage fl unix r (usage_event r input output cost upstream_id model status) db,
  )

  abbrev pub persist_granted :
      ℕ → Verdict → Option ℕ → Heap (KeyRecord F Net) → Storage F → Storage F
  persist_granted unix granted (some p) h db = persist_requests unix (h.at p) db
  persist_granted unix granted none h db = db
  persist_granted unix crashed k h db = db
  persist_granted unix (refused e) k h db = db

  -- `AppState::authorize`
  unfoldable pub authorize_key :
      ℕ
      → ℕ
      → Option Text
      → Option IpAddr
      → Heap (KeyRecord F Net)
      → AuthStore
      → Storage F
      → Verdict × Option ℕ × Heap (KeyRecord F Net) × Storage F
  unfolding persist_requests authorize
  authorize_key unix now header ip h ks db =
      let (v, k, h') = authorize fl ch net now header ip h ks in
      (v, k, h', persist_granted unix v k h' db)
