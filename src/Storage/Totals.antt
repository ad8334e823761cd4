-- ===== src/Storage/Totals.antt =====
-- src/storage.rs: the totals of a key and the log of its events.
use polyglotmesh.Prelude.{
  ℕ, ℤ, pos, ◌+◌, Option-cases, ◌≡◌, refl, ◌∙◌, sym, Bool, true, false, some, List, [], ◌∷◌, ◌++◌,
  Text, text_eq, text_eq_iff, any, All, arith, if◌then◌else◌, Bool-cases, inl, inr, subst,
}
use polyglotmesh.Float.{Float}
use polyglotmesh.Storage.{
  Storage, UsageRow, UsageEvent, EventRow, ensure_usage, default_usage, is_usage_of, update_where,
}
use polyglotmesh.Storage.Cells.{Cell, int, add_cell-pos}
use polyglotmesh.Storage.Usage.{add_delta, apply_counter_delta}
use polyglotmesh.Storage.Tally.{
  some_injective, HasRoom, ensured-events, one_request, Totals, IsTallied, tally-snoc,
  ensure_usage-IsTallied,
}

module _ (fl : Float) where
  open fl use {F}

  -- A row of the event's alias after the delta, and a row of another.
  delta_same :
      (now i o : ℕ) (usd : F) (e : UsageEvent F) (es : List (EventRow F)) (r : UsageRow F)
      → e.alias ≡ r.alias
      → e.input_tokens ≡ i
      → e.output_tokens ≡ o
      → HasRoom r.alias e es
      → Totals es r
      → Totals
          (es ++ (record { event = e; at = now } ∷ []))
          (add_delta fl (pos 1) (pos i) (pos o) usd r)
  delta_same now i o usd e es r a b c room t =
      let ev : EventRow F = record { event = e; at = now } in
      let same = (text_eq_iff e.alias r.alias).1 a in
      let plus = λ (f : UsageEvent F → ℕ). tally-snoc r.alias f es ev in
      (
        add_cell-pos fl _ _ 1 _ t.0 (plus one_request ∙ rw same refl)
            (ground (arith, plus one_request, same, room.0)),
        add_cell-pos fl _ _ i _ t.1 (plus UsageEvent.input_tokens ∙ rw (same, b) refl)
            (ground (arith, plus UsageEvent.input_tokens, same, room.1)),
        add_cell-pos fl _ _ o _ t.2 (plus UsageEvent.output_tokens ∙ rw (same, c) refl)
            (ground (arith, plus UsageEvent.output_tokens, same, room.2)),
      )

  unchanged :
      (t t' n : ℕ) (b : Bool)
      → t' ≡ t + (if b then n else 0)
      → b ≡ false
      → ◌≡◌ {A = Cell F} (int (pos t)) (int (pos t'))
  unchanged t t' n b e f = ground (arith, e, f)

  delta_other :
      (now : ℕ) (e : UsageEvent F) (es : List (EventRow F)) (r : UsageRow F)
      → text_eq e.alias r.alias ≡ false
      → Totals es r
      → Totals (es ++ (record { event = e; at = now } ∷ [])) r
  delta_other now e es r other t =
      let ev : EventRow F = record { event = e; at = now } in
      let stays = λ (f : UsageEvent F → ℕ). unchanged _ _ _ _ (tally-snoc r.alias f es ev) other in
      (
        t.0 ∙ stays one_request,
        t.1 ∙ stays UsageEvent.input_tokens,
        t.2 ∙ stays UsageEvent.output_tokens,
      )

  delta_rows :
      (now i o : ℕ) (usd : F) (e : UsageEvent F) (es : List (EventRow F)) (rows : List (UsageRow F))
      → e.input_tokens ≡ i
      → e.output_tokens ≡ o
      → HasRoom e.alias e es
      → All (Totals es) rows
      → All
          (Totals (es ++ (record { event = e; at = now } ∷ [])))
          (update_where (is_usage_of e.alias) (add_delta fl (pos 1) (pos i) (pos o) usd) rows)
  delta_rows now i o usd e es [] b c room all = tt
  delta_rows now i o usd e es (r ∷ rows) b c room all = (
    elim (Bool-cases (text_eq r.alias e.alias)) [
      | inl same ↦ rw same (
          let own = sym ((text_eq_iff r.alias e.alias).0 same) in
          delta_same now i o usd e es r own b c (subst (λ a. HasRoom a e es) own room) all.0)
      | inr other ↦ rw other (
          delta_other now e es r
            (ground (arith, text_eq_iff r.alias e.alias, text_eq_iff e.alias r.alias)) all.0)
    ],
    delta_rows now i o usd e es rows b c room all.1,
  )

  -- The update keeps the aliases of the rows.
  any-update :
      (alias other : Text) (q i o : ℤ) (usd : F) (rows : List (UsageRow F))
      → any (is_usage_of other) (update_where (is_usage_of alias) (add_delta fl q i o usd) rows)
        ≡ any (is_usage_of other) rows
  any-update alias other q i o usd [] = refl
  any-update alias other q i o usd (r ∷ rows) =
      ground (arith, any-update alias other q i o usd rows)

  owned_rows :
      (alias : Text) (now : ℕ) (q i o : ℤ) (usd : F) (e : UsageEvent F) (rows : List (UsageRow F))
      (es : List (EventRow F))
      → any (is_usage_of e.alias) rows ≡ true
      → All (λ x. any (is_usage_of x.event.alias) rows ≡ true) es
      → All
          (λ x.
            any
              (is_usage_of x.event.alias)
              (update_where (is_usage_of alias) (add_delta fl q i o usd) rows)
            ≡ true)
          (es ++ (record { event = e; at = now } ∷ []))
  owned_rows alias now q i o usd e rows [] has all =
      (any-update alias e.alias q i o usd rows ∙ has, tt)
  owned_rows alias now q i o usd e rows (x ∷ es) has all = (
    any-update alias x.event.alias q i o usd rows ∙ all.0,
    owned_rows alias now q i o usd e rows es has all.1,
  )

  -- A committed `apply_counter_delta` with the event that `record_key_usage` logs beside it, which
  -- keeps the number and the tokens of its alias's events below 2^63, keeps the tables in step: every row's totals are the numbers and the sums of its alias's events.
  pub apply_counter_delta-IsTallied :
      (now : ℕ) (usd : F) (e : UsageEvent F) (db db' : Storage F)
      → apply_counter_delta fl now e.alias
          (pos e.input_tokens)
          (pos e.output_tokens)
          usd
          (pos 1)
          (some e)
          db
        ≡ some db'
      → HasRoom e.alias e db.usage_events
      → IsTallied db
      → IsTallied db'
  unfolding IsTallied apply_counter_delta
  apply_counter_delta-IsTallied now usd e db db' made room v =
      elim (Option-cases (ensure_usage (default_usage e.alias) db)) [
        | inl refused ↦ cc (rw (refused, apply_counter_delta) at made)
        | inr (d, ensured) ↦
            let (tallied, has) = ensure_usage-IsTallied e.alias db d ensured v in
            subst IsTallied (some_injective (rw (ensured, apply_counter_delta) at made)) (
              delta_rows now e.input_tokens e.output_tokens usd e d.usage_events d.key_usage refl
                  refl (subst (HasRoom e.alias e) (ensured-events e.alias db d ensured) room)
                  tallied.0,
              owned_rows e.alias now (pos 1) (pos e.input_tokens) (pos e.output_tokens) usd e
                  d.key_usage d.usage_events has tallied.1,
            )
      ]
