-- ===== src/Storage/Tests.antt =====
-- Runs of the model of src/storage.rs on tables with one key.
use polyglotmesh.Prelude.{
  ℕ, pos, ◌+ℤ◌, ◌≡◌, refl, false, Option, none, some, [], ◌∷◌, codes, text_eq, Text, any, map,
  length, List, ◌≤◌, arith,
}
use polyglotmesh.Float.Fixed.{fixed}
use polyglotmesh.Storage.{
  SpendRow, Storage, UsageEvent, AuditEvent, ensure_usage, new_storage, delete_api_key_by_alias,
  is_key,
}
use polyglotmesh.Auth.Durations.{panicked, done}
use polyglotmesh.Storage.Cells.{int, as_int, add_cell}
use polyglotmesh.Storage.Usage.{apply_counter_delta}
use polyglotmesh.Storage.Totals.{apply_counter_delta-IsTallied}
use polyglotmesh.Storage.Tally.{tally, IsTallied}
use polyglotmesh.Storage.Keys.{References, delete_api_key_by_alias-References}
use polyglotmesh.Storage.History.{record_spend_history}
use polyglotmesh.Storage.Audit.{said, append_all, recent_audit, recent_audit-append_all}
use polyglotmesh.Storage.Summary.{UsageBucket, admin_usage}
use polyglotmesh.Storage.Grouped.{admin_usage-total}
use polyglotmesh.Error.{ok}
use polyglotmesh.Storage.Spend.{IsKeyed, column, record_spend_history-column}

abbrev pub one_key : Storage ℕ
one_key = record new_storage {
  api_keys =
      record {
        alias = codes "team";
        raw_hash = [];
        role = codes "api";
        config_json = [];
        created_at = 0;
      }
      ∷ [];
}

abbrev event : UsageEvent ℕ
event = record {
  alias = codes "team";
  upstream_id = none;
  model = none;
  input_tokens = 30;
  output_tokens = 12;
  cost_usd = 0;
  status = 200;
}

abbrev committed : Option (Storage ℕ)
committed =
    apply_counter_delta fixed 7 (codes "team") (pos 30) (pos 12) 0 (pos 1) (some event) one_key

abbrev used : Storage ℕ
used = elim committed [ some d ↦ d | none ↦ one_key ]

committed_lem : committed ≡ some used
unfolding apply_counter_delta ensure_usage text_eq
committed_lem = refl

one_key-IsTallied : IsTallied one_key
unfolding IsTallied
one_key-IsTallied = (tt, tt)

apply_counter_delta-IsTallied_example : IsTallied used
unfolding tally
apply_counter_delta-IsTallied_example =
    apply_counter_delta-IsTallied fixed 7 0 event one_key used committed_lem (omega arith)
      one_key-IsTallied

used-References : References used
unfolding apply_counter_delta ensure_usage text_eq
used-References = (refl, tt)

-- The key goes, and its row of usage with it.
delete_api_key_by_alias-References_example :
    let db = (delete_api_key_by_alias (codes "team") used).1 in
    (any (is_key (codes "team")) db.api_keys ≡ false)
    × ((other : Text)
        → text_eq other (codes "team") ≡ false
        → any (is_key other) db.api_keys ≡ any (is_key other) used.api_keys)
    × (db.key_usage ≡ [])
    × References db
unfolding apply_counter_delta ensure_usage text_eq
delete_api_key_by_alias-References_example =
    delete_api_key_by_alias-References (codes "team") used used-References

-- Two requests of one hour stand in one row, whose columns add up.
abbrev early : Storage ℕ
early =
    elim (record_spend_history fixed (codes "team") 3_700 3_600 (pos 30) (pos 12) 0 (pos 1)
      one_key) [ panicked ↦ one_key | done d ↦ d ]

early-IsKeyed : IsKeyed early.key_spend_history
unfolding IsKeyed record_spend_history
early-IsKeyed = (refl, tt)

record_spend_history-column_example :
    (db : Storage ℕ) × (record_spend_history fixed
        (codes "team")
        3_800
        3_600
        (pos 5)
        (pos 1)
        0
        (pos 1)
        early
      ≡ done db)
    × IsKeyed db.key_spend_history
    × (column SpendRow.requests (codes "team") db.key_spend_history ≡ pos 2)
    × (column SpendRow.input_tokens (codes "team") db.key_spend_history ≡ pos 35)
    × (column SpendRow.output_tokens (codes "team") db.key_spend_history ≡ pos 13)
    × (column SpendRow.spend_micros (codes "team") db.key_spend_history ≡ pos 0)
unfolding column record_spend_history ◌+ℤ◌ text_eq
record_spend_history-column_example =
    record_spend_history-column fixed (codes "team") 3_800 3_600 (pos 5) (pos 1) 0 (pos 1) early
      (codes "team") (omega arith) early-IsKeyed ((λ e. (pos 1, refl, refl)), tt)
      ((λ e. (pos 30, refl, refl)), tt) ((λ e. (pos 12, refl, refl)), tt)
      ((λ e. (pos 0, refl, refl)), tt)

-- A sum that leaves the range of i64 is no integer any more.
overflown : as_int (add_cell fixed (int (pos 9_223_372_036_854_775_807)) (pos 1)) ≡ none
unfolding add_cell ◌+ℤ◌
overflown = refl

-- Two calls are noted, and the last one is read.
recent_audit-append_all_example :
    let two =
      append_all ((codes "a", codes "x", [], 1) ∷ (codes "b", codes "y", [], 2) ∷ []) one_key in
    let recent = recent_audit 1 two in
    (length recent ≤ 1)
    × (map said recent ≡ (codes "b", codes "y", [], 2) ∷ [])
    × (map (λ (e : AuditEvent). e.id) recent ≡ 2 ∷ [])
unfolding append_all
recent_audit-append_all_example =
    recent_audit-append_all ((codes "a", codes "x", [], 1) ∷ (codes "b", codes "y", [], 2) ∷ []) 1
      one_key refl

-- The events of one key in one group.
admin_usage-total_example :
    (t : UsageBucket ℕ) × (shown : List (UsageBucket ℕ)) × (admin_usage fixed
        (λ xs. 0)
        (λ xs. 0)
        (λ x. x)
        (some (codes "alias"))
        none
        none
        (some 10)
        used
      ≡ ok (t, shown))
    × (t.requests ≡ 1)
    × (t.input_tokens ≡ 30)
    × (t.output_tokens ≡ 12)
    × (length shown ≤ 10)
unfolding text_eq apply_counter_delta ensure_usage
admin_usage-total_example =
    admin_usage-total fixed (λ xs. 0) (λ xs. 0) (λ x. x) (codes "alias")
      (λ (e : UsageEvent ℕ). some e.alias) none none 10 used refl (omega arith) (omega arith)
