-- ===== src/Accounts/Persisted.antt =====
-- src/state.rs: what of a key's usage reaches the database.
use polyglotmesh.Prelude.{
  ℕ, ℤ, pos, ◌+ℤ◌, ◌≡◌, refl, ◌∙◌, ap, sym, Bool, true, false, ◌||◌, Option, none, some, List, [],
  ◌∷◌, ◌++◌, Text, any, All, ltb, leb, arith, if◌then◌else◌, Bool-cases, Option-cases, inl, inr,
  ◌⊎◌, add64, to_word, ◌%◌, u32_mod,
}
use polyglotmesh.Float.{Float}
use polyglotmesh.Auth.{KeyRecord, IpNet}
use polyglotmesh.Auth.Durations.{Chrono}
use polyglotmesh.Storage.{
  Storage, UsageRow, UsageEvent, EventRow, ensure_usage, default_usage, is_usage_of, is_key,
  update_where,
}
use polyglotmesh.Storage.Usage.{apply_delta, apply_counter_delta}
use polyglotmesh.Storage.Windows.{roll_tpm, row_of, update_tpm_window}
use polyglotmesh.Storage.History.{record_spend_history}
use polyglotmesh.Storage.Totals.{apply_counter_delta-IsTallied}
use polyglotmesh.Storage.Tally.{
  HasRoom, IsTallied, Totals, ensure_usage-cases, ensure_usage-IsTallied,
}
use polyglotmesh.Accounts.{
  commit, tables_of, usage_event, persist_tokens, persist_usage, record_key_usage,
}

-- A change of rows that keeps the alias and the totals.
abbrev Keeps : {F : Type 0} → (UsageRow F → UsageRow F) → Type 0
Keeps {F = F} g =
    (r : UsageRow F)
    → ((g r).alias ≡ r.alias)
      × ((g r).total_requests ≡ r.total_requests)
      × ((g r).total_input_tokens ≡ r.total_input_tokens)
      × ((g r).total_output_tokens ≡ r.total_output_tokens)

any-kept :
    {F : Type 0} (p : UsageRow F → Bool) (g : UsageRow F → UsageRow F) (alias : Text)
    (rows : List (UsageRow F))
    → Keeps g
    → any (is_usage_of alias) (update_where p g rows) ≡ any (is_usage_of alias) rows
any-kept p g alias [] keeps = refl
any-kept p g alias (r ∷ rows) keeps = elim (Bool-cases (p r)) [
  | inl e ↦ rw (e, (keeps r).0, any-kept p g alias rows keeps) refl
  | inr e ↦ rw (e, any-kept p g alias rows keeps) refl
]

module _ {F : Type 0} where
  -- The alias has a row of usage, or a key that one can refer to.
  abbrev pub known : Text → Storage F → Bool
  known alias db = any (is_usage_of alias) db.key_usage || any (is_key alias) db.api_keys

  ensure_usage-known :
      (alias : Text) (db : Storage F)
      → ensure_usage (default_usage alias) db ≡ none
      → known alias db ≡ false
  unfolding ensure_usage
  ensure_usage-known alias db e = ground (arith, e)

  ensured-known :
      (alias : Text) (db d : Storage F)
      → ensure_usage (default_usage alias) db ≡ some d
      → (known alias db ≡ true) × (d.usage_events ≡ db.usage_events)
  ensured-known alias db d e = elim (ensure_usage-cases alias db d e) [
    | inl (old, same) ↦ (ground (arith, old), ap (λ x. x.usage_events) (sym same))
    | inr (new, key, same) ↦ (ground (arith, key), ap (λ x. x.usage_events) (sym same))
  ]

  kept_rows :
      (p : UsageRow F → Bool) (g : UsageRow F → UsageRow F) (es : List (EventRow F))
      (rows : List (UsageRow F))
      → Keeps g
      → All (Totals es) rows
      → All (Totals es) (update_where p g rows)
  kept_rows p g es [] keeps all = tt
  kept_rows p g es (r ∷ rows) keeps all =
      (one (Bool-cases (p r)), kept_rows p g es rows keeps all.1)
    where
      one : (p r ≡ true) ⊎ (p r ≡ false) → Totals es (if p r then g r else r)
      one (inl e) = let (a, q, i, o) = keeps r in rw e (rw (a, q, i, o) all.0)
      one (inr e) = rw e all.0

  owned_kept :
      (p : UsageRow F → Bool) (g : UsageRow F → UsageRow F) (rows : List (UsageRow F))
      (es : List (EventRow F))
      → Keeps g
      → All (λ e. any (is_usage_of e.event.alias) rows ≡ true) es
      → All (λ e. any (is_usage_of e.event.alias) (update_where p g rows) ≡ true) es
  owned_kept p g rows [] keeps all = tt
  owned_kept p g rows (e ∷ es) keeps all =
      (any-kept p g e.event.alias rows keeps ∙ all.0, owned_kept p g rows es keeps all.1)

  update-IsTallied :
      (p : UsageRow F → Bool) (g : UsageRow F → UsageRow F) (db : Storage F)
      → Keeps g
      → IsTallied db
      → IsTallied (record db { key_usage = update_where p g db.key_usage })
  unfolding IsTallied
  update-IsTallied p g db keeps v = (
    kept_rows p g db.usage_events db.key_usage keeps v.0,
    owned_kept p g db.key_usage db.usage_events keeps v.1,
  )

  -- What `update_tpm_window` does if it does not fail.
  tpm_row :
      (unix : ℕ) (alias : Text) (n : ℕ) (db d : Storage F)
      → ensure_usage (default_usage alias) db ≡ some d
      → (a : ℕ × ℕ) × (s : ℕ) × (c : ℤ) × (update_tpm_window unix alias n 60 db
          ≡ some (
            a,
            record d {
              key_usage =
                  update_where
                    (is_usage_of alias)
                    (λ q. record q { tpm_window_start = s; tpm_window_tokens = c })
                    d.key_usage;
            },
          ))
  unfolding update_tpm_window ◌+ℤ◌
  tpm_row unix alias n db d e =
      let r = roll_tpm unix 60 n (row_of alias d) in
      (
        (r.tpm_window_start, to_word u32_mod r.tpm_window_tokens),
        r.tpm_window_start,
        r.tpm_window_tokens,
        rw (e, update_tpm_window) refl,
      )

  window-IsTallied :
      (unix : ℕ) (alias : Text) (n : ℕ) (db : Storage F)
      → IsTallied db
      → IsTallied (commit (tables_of (update_tpm_window unix alias n 60 db)) db)
        × ((commit (tables_of (update_tpm_window unix alias n 60 db)) db).usage_events
            ≡ db.usage_events)
  unfolding update_tpm_window
  window-IsTallied unix alias n db v = elim (Option-cases (ensure_usage (default_usage alias) db)) [
    | inl refused ↦
        let failed : update_tpm_window unix alias n 60 db ≡ none =
          rw (refused, update_tpm_window) refl in
        rw failed (v, refl)
    | inr (d, ensured) ↦
        let (a, s, c, made) = tpm_row unix alias n db d ensured in
        rw made (
          update-IsTallied (is_usage_of alias)
              (λ q. record q { tpm_window_start = s; tpm_window_tokens = c }) d
              (λ r. (refl, refl, refl, refl)) (ensure_usage-IsTallied alias db d ensured v).0,
          (ensured-known alias db d ensured).1,
        )
  ]

  tokens-IsTallied :
      {Net : Type 0} (unix : ℕ) (r : KeyRecord F Net) (i o : ℕ) (db : Storage F)
      → IsTallied db
      → IsTallied (persist_tokens unix r i o db)
        × ((persist_tokens unix r i o db).usage_events ≡ db.usage_events)
  unfolding persist_tokens
  tokens-IsTallied unix r i o db v = elim (Bool-cases (ltb 0 r.tpm_limit)) [
    | inl limit ↦ rw limit (window-IsTallied unix r.alias (add64 i o % u32_mod) db v)
    | inr free ↦ rw free (v, refl)
  ]

module _ (fl : Float) where
  open fl use {F}

  -- The events after one more event at a time, if its alias is known.
  abbrev pub logged : ℕ → UsageEvent F → Storage F → List (EventRow F)
  logged unix e db =
      if known e.alias db
      then db.usage_events ++ (record { event = e; at = unix } ∷ [])
      else db.usage_events

  delta-IsTallied :
      (unix : ℕ) (e : UsageEvent F) (db : Storage F)
      → HasRoom e.alias e db.usage_events
      → IsTallied db
      → let db' =
          commit
            (apply_counter_delta fl unix e.alias
              (pos e.input_tokens)
              (pos e.output_tokens)
              e.cost_usd
              (pos 1)
              (some e)
              db)
            db in
        IsTallied db' × (db'.usage_events ≡ logged unix e db)
  unfolding apply_counter_delta
  delta-IsTallied unix e db room v = elim (Option-cases (ensure_usage (default_usage e.alias) db)) [
    | inl refused ↦
        let failed : apply_counter_delta fl unix e.alias (pos e.input_tokens) (pos e.output_tokens)
              e.cost_usd (pos 1) (some e) db
            ≡ none =
          rw (refused, apply_counter_delta) refl in
        rw (failed, ensure_usage-known e.alias db refused) (v, refl)
    | inr (d, ensured) ↦
        let made : apply_counter_delta fl unix e.alias (pos e.input_tokens) (pos e.output_tokens)
              e.cost_usd (pos 1) (some e) db
            ≡ some (
                apply_delta fl unix e.alias (pos e.input_tokens) (pos e.output_tokens) e.cost_usd
                  (pos 1) (some e) d) =
          rw (ensured, apply_counter_delta) refl in
        let (has, same) = ensured-known e.alias db d ensured in
        rw (made, has)
          (
            apply_counter_delta-IsTallied fl unix e.cost_usd e db _ made room v,
            ap (λ es. es ++ (record { event = e; at = unix } ∷ [])) same,
          )
  ]

module _ (fl : Float) (ch : Chrono) (net : IpNet) where
  open fl use {F}
  open net use {Net}

  -- Where one more event keeps the number and the tokens of the key's events below 2^63,
  -- `record_key_usage` keeps the totals of the stored keys in step with the
  -- logged events; it logs the request if the key's alias has a row of usage or of a key, and otherwise
  -- logs nothing.
  pub record_key_usage-IsTallied :
      (now unix : ℕ) (r : KeyRecord F Net) (input output : ℕ) (cost : F) (uid model : Option Text)
      (status : ℕ) (db : Storage F)
      → HasRoom r.alias (usage_event r input output cost uid model status) db.usage_events
      → IsTallied db
      → let db' = (record_key_usage fl ch net now unix r input output cost uid model status db).1 in
        IsTallied db'
        × (db'.usage_events ≡ logged fl unix (usage_event r input output cost uid model status) db)
  unfolding record_key_usage persist_usage record_spend_history IsTallied
  record_key_usage-IsTallied now unix r input output cost uid model status db room v =
      let e = usage_event r input output cost uid model status in
      let fits_in : leb 9_223_372_036_854_775_808 input ≡ false = ground (arith, room.1) in
      let fits_out : leb 9_223_372_036_854_775_808 output ≡ false = ground (arith, room.2) in
      let (tallied, same) = delta-IsTallied fl unix e db room v in
      rw (fits_in, fits_out)
        (let (after, events) = tokens-IsTallied unix r input output _ tallied in
          (after, events ∙ same))
