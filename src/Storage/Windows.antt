-- ===== src/Storage/Windows.antt =====
-- src/storage.rs: the rolling windows of requests and tokens as they are stored.
use polyglotmesh.Prelude.{
  ℕ, ℤ, pos, ◌+◌, ◌+ℤ◌, Option, none, some, Text, find, leb, if◌then◌else◌, as_i64, to_word,
  u32_mod, u64_mod,
}
use polyglotmesh.Storage.{Storage, UsageRow, ensure_usage, default_usage, is_usage_of, update_where}

-- The window after one more count, from its start and its count: it starts again after
-- `window_seconds`. The sum is one of i64, which wraps in a release build.
abbrev pub roll : ℕ → ℕ → ℤ → ℕ → ℤ → ℕ × ℤ
roll now window_seconds delta start count =
    if leb (start + window_seconds) now
    then (now, delta)
    else (start, as_i64 (to_word u64_mod (count +ℤ delta)))

abbrev pub roll_rpm : {F : Type 0} → ℕ → ℕ → UsageRow F → UsageRow F
roll_rpm now window_seconds r =
    let (start, count) = roll now window_seconds (pos 1) r.rpm_window_start r.rpm_window_count in
    record r { rpm_window_start = start; rpm_window_count = count }

abbrev pub roll_tpm : {F : Type 0} → ℕ → ℕ → ℕ → UsageRow F → UsageRow F
roll_tpm now window_seconds tokens r =
    let (start, count) =
      roll now window_seconds (pos tokens) r.tpm_window_start r.tpm_window_tokens in
    record r { tpm_window_start = start; tpm_window_tokens = count }

module _ {F : Type 0} where
  -- The row of an alias after its change, which a statement wrote to all rows of the alias.
  abbrev pub row_of : Text → Storage F → UsageRow F
  row_of alias db = elim (find (is_usage_of alias) db.key_usage) [
    | some r ↦ r
    | none ↦ default_usage alias
  ]

  -- `update_rpm_window`: the start and the count of the window, as it answers, and the tables.
  unfoldable pub update_rpm_window : ℕ → Text → ℕ → Storage F → Option ((ℕ × ℕ) × Storage F)
  unfolding ensure_usage
  update_rpm_window now alias window_seconds db = elim (ensure_usage (default_usage alias) db) [
    | none ↦ none
    | some d ↦
        let r = roll_rpm now window_seconds (row_of alias d) in
        some (
          (r.rpm_window_start, to_word u32_mod r.rpm_window_count),
          record d {
            key_usage =
                update_where (is_usage_of alias)
                  (λ q. record q {
                    rpm_window_start = r.rpm_window_start;
                    rpm_window_count = r.rpm_window_count;
                  })
                  d.key_usage;
          },
        )
  ]

  -- `update_tpm_window`
  unfoldable pub update_tpm_window : ℕ → Text → ℕ → ℕ → Storage F → Option ((ℕ × ℕ) × Storage F)
  unfolding ensure_usage
  update_tpm_window now alias tokens window_seconds db =
      elim (ensure_usage (default_usage alias) db) [
        | none ↦ none
        | some d ↦
            let r = roll_tpm now window_seconds tokens (row_of alias d) in
            some (
              (r.tpm_window_start, to_word u32_mod r.tpm_window_tokens),
              record d {
                key_usage =
                    update_where (is_usage_of alias)
                      (λ q. record q {
                        tpm_window_start = r.tpm_window_start;
                        tpm_window_tokens = r.tpm_window_tokens;
                      })
                      d.key_usage;
              },
            )
      ]
