-- ===== src/State.antt =====
-- src/state.rs: the resolution of model aliases, and what a restart restores of a key's usage and of
-- a histogram.
pub mod Aliases
pub mod Restore
pub mod Samples
mod Tests
use polyglotmesh.Prelude.{
  ℤ, ℕ, ◌+◌, ◌-◌, ◌*◌, Bool, true, false, ◌&&◌, Option, none, some, List, [], ◌∷◌, Text, text_eq,
  cmp_text, ltb, ◌==◌, if◌then◌else◌, Heap, length, set, take_n, sum, u64_mod, ◌%◌,
}
use polyglotmesh.BTree
use polyglotmesh.Float.{Float}
use polyglotmesh.Config.{ProviderKind, kind_eq, ModelListEntry, ModelAliasEntry}
use polyglotmesh.Upstream.{Upstream, is_usable}
use polyglotmesh.Registry
use polyglotmesh.Registry.{Registry}
use polyglotmesh.Auth.{KeyRecord, KeyUsage}
use polyglotmesh.Auth.Durations.{parse_below}
use polyglotmesh.Metrics.Histogram.{Histogram}

-- The entries of the alias map under this name.
abbrev pub entries_of : Text → List (Text × List ModelAliasEntry) → List ModelAliasEntry
entries_of model aliases = elim (BTree.get cmp_text model aliases) [ none ↦ [] | some es ↦ es ]

module _ {F : Type 0} where
  -- The upstream of this id is registered, of the kind, and usable.
  unfoldable pub serves : ℕ → ProviderKind → Heap (Upstream F) → Registry → Text → Bool
  unfolding is_usable
  serves now kind h r id = elim (Registry.get id r) [
    | none ↦ false
    | some p ↦ kind_eq (h.at p).cfg.kind kind && is_usable now (h.at p)
  ]

  -- The loop over the model list.
  unfoldable pub resolve_listed :
      ℕ → Text → ProviderKind → Heap (Upstream F) → Registry → List ModelListEntry → Option Text
  resolve_listed now model kind h r [] = none
  resolve_listed now model kind h r (e ∷ es) =
      let rest = resolve_listed now model kind h r es in
      if text_eq e.model_name model && serves now kind h r e.upstream_id
      then some (elim e.upstream_model [ some m ↦ m | none ↦ model ])
      else rest

  -- The loop over the entries of one alias.
  unfoldable pub resolve_entries :
      ℕ → ProviderKind → Heap (Upstream F) → Registry → List ModelAliasEntry → Option Text
  resolve_entries now kind h r [] = none
  resolve_entries now kind h r (e ∷ es) =
      let rest = resolve_entries now kind h r es in
      if serves now kind h r e.upstream_id then some e.upstream_model else rest

  -- `AppState::resolve_alias`
  unfoldable pub resolve_alias :
      ℕ
      → Text
      → ProviderKind
      → Heap (Upstream F)
      → Registry
      → List ModelListEntry
      → List (Text × List ModelAliasEntry)
      → Option Text
  resolve_alias now model kind h r model_list aliases =
      elim (resolve_listed now model kind h r model_list) [
        | some m ↦ some m
        | none ↦ resolve_entries now kind h r (entries_of model aliases)
      ]

-- A stored row of a key's usage. The starts of the windows are i64.
pub record KeyUsageRow (F : Type 0) : Type 0 where
  pub total_requests : ℕ
  pub total_input_tokens : ℕ
  pub total_output_tokens : ℕ
  pub total_spend_usd : F
  pub in_flight : ℕ
  pub rpm_window_start : ℤ
  pub rpm_window_count : ℕ
  pub tpm_window_start : ℤ
  pub tpm_window_tokens : ℕ

-- `restore_usage`. `from_timestamp` of the chrono library is the parameter `date`; it fails out of
-- the calendar's range.
unfoldable pub restore_usage :
    (fl : Float) {Net : Type 0}
    → (ℤ → Option ℕ)
    → ℕ
    → KeyUsageRow (Float.F fl)
    → KeyRecord (Float.F fl) Net
    → KeyRecord (Float.F fl) Net
restore_usage fl date now row r = record r {
  usage = record {
    total_requests = row.total_requests;
    total_input_tokens = row.total_input_tokens;
    total_output_tokens = row.total_output_tokens;
    total_spend_usd = Float.to_u64 fl (Float.mul fl row.total_spend_usd (Float.lit fl 1_000_000 0));
    rpm_window_start = elim (date row.rpm_window_start) [ some t ↦ t | none ↦ now ];
    rpm_window_count = row.rpm_window_count;
    tpm_window_start = elim (date row.tpm_window_start) [ some t ↦ t | none ↦ now ];
    tpm_window_tokens = row.tpm_window_tokens;
    in_flight = row.in_flight;
  };
}

-- `str::parse::<usize>`: an optional plus sign and digits.
unfoldable pub parse_usize : Text → Option ℕ
parse_usize [] = none
parse_usize (c ∷ s) = if c == 43 then parse_below u64_mod s else parse_below u64_mod (c ∷ s)

-- The write of one restored bucket, at an index within the counts.
abbrev pub restore_bucket : ℕ → ℕ → Histogram → Histogram
restore_bucket le cumulative_v h = record h {
  counts = set h.counts le (cumulative_v - sum (take_n le h.counts) % u64_mod);
}

-- `restore_histogram`
unfoldable pub restore_histogram : Histogram → List (Text × Text) → ℕ → Histogram
restore_histogram h [] v = h
restore_histogram h ((name, le_str) ∷ labels) v = elim (parse_usize le_str) [
  | none ↦ h
  | some le ↦ if ltb le (length h.counts) then restore_bucket le v h else h
]
