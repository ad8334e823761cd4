-- ===== src/Storage/Tally.antt =====
-- src/storage.rs: the totals of a key against the log of its events, and a new row.
use polyglotmesh.Prelude.{
  ℕ, ◌<◌, pos, ◌+◌, ◌≡◌, refl, ap, sym, true, false, ◌||◌, some, List, [], ◌∷◌, ◌++◌, Text, text_eq,
  text_eq_iff, any, All, arith, if◌then◌else◌, Bool-cases, inl, inr, ◌⊎◌, subst,
}
use polyglotmesh.Storage.Cells.{Cell, int}
use polyglotmesh.Storage.{
  Storage, UsageRow, UsageEvent, EventRow, ensure_usage, default_usage, is_usage_of, is_key,
}

pub any-snoc :
    {F : Type 0} (alias : Text) (rows : List (UsageRow F)) (r : UsageRow F)
    → any (is_usage_of alias) (rows ++ (r ∷ []))
      ≡ (any (is_usage_of alias) rows || text_eq r.alias alias)
any-snoc alias [] r = ground arith
any-snoc alias (x ∷ rows) r = ground (arith, any-snoc alias rows r)

pub some_injective : {A : Type 0} {a b : A} → some a ≡ some b → a ≡ b
some_injective e = cc

pub grown :
    {F : Type 0} (alias : Text) (rows : List (UsageRow F))
    → any (is_usage_of alias) (rows ++ (default_usage alias ∷ [])) ≡ true
grown alias rows =
    ground (arith, any-snoc alias rows (default_usage alias), text_eq_iff alias alias)

pub All-snoc :
    {F : Type 0} (P : UsageRow F → Type 0) (rows : List (UsageRow F)) (r : UsageRow F)
    → All P rows
    → P r
    → All P (rows ++ (r ∷ []))
All-snoc P [] r all p = (p, tt)
All-snoc P (x ∷ rows) r all p = (all.0, All-snoc P rows r all.1 p)

module _ {F : Type 0} where
  -- A measure summed over the events of an alias.
  unfoldable pub tally : Text → (UsageEvent F → ℕ) → List (EventRow F) → ℕ
  tally alias f [] = 0
  tally alias f (e ∷ es) = (if text_eq e.event.alias alias then f e.event else 0) + tally alias f es

  abbrev pub one_request : UsageEvent F → ℕ
  one_request e = 1

  -- The row's totals are those of the events.
  abbrev pub Totals : List (EventRow F) → UsageRow F → Type 0
  Totals es r =
      (r.total_requests ≡ int (pos (tally r.alias one_request es)))
      × (r.total_input_tokens ≡ int (pos (tally r.alias UsageEvent.input_tokens es)))
      × (r.total_output_tokens ≡ int (pos (tally r.alias UsageEvent.output_tokens es)))

  -- One more event of this alias keeps its number and its tokens below 2^63.
  abbrev pub HasRoom : Text → UsageEvent F → List (EventRow F) → Type 0
  HasRoom alias e es =
      (tally alias one_request es + 1 < 9_223_372_036_854_775_808)
      × (tally alias UsageEvent.input_tokens es + e.input_tokens < 9_223_372_036_854_775_808)
      × (tally alias UsageEvent.output_tokens es + e.output_tokens < 9_223_372_036_854_775_808)

  -- Each row of `key_usage` has the totals of its alias's events, and each event's alias has a row.
  unfoldable pub IsTallied : Storage F → Type 0
  IsTallied db =
      All (Totals db.usage_events) db.key_usage
      × All (λ e. any (is_usage_of e.event.alias) db.key_usage ≡ true) db.usage_events

  pub tally-snoc :
      (alias : Text) (f : UsageEvent F → ℕ) (es : List (EventRow F)) (e : EventRow F)
      → tally alias f (es ++ (e ∷ []))
        ≡ tally alias f es + (if text_eq e.event.alias alias then f e.event else 0)
  unfolding tally
  tally-snoc alias f [] e = ground arith
  tally-snoc alias f (x ∷ es) e = ground (arith, tally-snoc alias f es e)

  tally-absent :
      (alias : Text) (f : UsageEvent F → ℕ) (es : List (EventRow F)) (rows : List (UsageRow F))
      → All (λ e. any (is_usage_of e.event.alias) rows ≡ true) es
      → any (is_usage_of alias) rows ≡ false
      → tally alias f es ≡ 0
  unfolding tally
  tally-absent alias f [] rows owned none_of = refl
  tally-absent alias f (e ∷ es) rows owned none_of =
      elim (Bool-cases (text_eq e.event.alias alias)) [
        | inl same ↦ cc (
          owned.0,
          none_of,
          ap (λ a. any (is_usage_of a) rows) ((text_eq_iff e.event.alias alias).0 same),
        )
        | inr other ↦ rw other (omega (arith, tally-absent alias f es rows owned.1 none_of))
      ]

  owned-snoc :
      (rows : List (UsageRow F)) (r : UsageRow F) (es : List (EventRow F))
      → All (λ e. any (is_usage_of e.event.alias) rows ≡ true) es
      → All (λ e. any (is_usage_of e.event.alias) (rows ++ (r ∷ [])) ≡ true) es
  owned-snoc rows r [] owned = tt
  owned-snoc rows r (e ∷ es) owned =
      (ground (arith, owned.0, any-snoc e.event.alias rows r), owned-snoc rows r es owned.1)

  pub ensure_usage-cases :
      (alias : Text) (db d : Storage F)
      → ensure_usage (default_usage alias) db ≡ some d
      → ((any (is_usage_of alias) db.key_usage ≡ true) × (db ≡ d))
        ⊎ (any (is_usage_of alias) db.key_usage ≡ false)
          × (any (is_key alias) db.api_keys ≡ true)
          × (record db { key_usage = db.key_usage ++ (default_usage alias ∷ []) } ≡ d)
  unfolding ensure_usage
  ensure_usage-cases alias db d e = ground (arith, e)

  pub ensured-events :
      (alias : Text) (db d : Storage F)
      → ensure_usage (default_usage alias) db ≡ some d
      → db.usage_events ≡ d.usage_events
  ensured-events alias db d e = elim (ensure_usage-cases alias db d e) [
    | inl (old, same) ↦ ap (λ x. x.usage_events) same
    | inr (new, key, same) ↦ ap (λ x. x.usage_events) same
  ]

  -- A new row starts at nothing, as its alias has no events.
  add_row :
      (alias : Text) (db : Storage F)
      → IsTallied db
      → any (is_usage_of alias) db.key_usage ≡ false
      → IsTallied (record db { key_usage = db.key_usage ++ (default_usage alias ∷ []) })
  unfolding IsTallied
  add_row alias db v new =
      let zero_of = λ (f : UsageEvent F → ℕ).
        ap {B = Cell F} (λ n. int (pos n))
          (sym (tally-absent alias f db.usage_events db.key_usage v.1 new)) in
      (
        All-snoc (Totals db.usage_events) db.key_usage (default_usage alias) v.0 (
          zero_of one_request,
          zero_of UsageEvent.input_tokens,
          zero_of UsageEvent.output_tokens,
        ),
        owned-snoc db.key_usage (default_usage alias) db.usage_events v.1,
      )

  pub ensure_usage-IsTallied :
      (alias : Text) (db d : Storage F)
      → ensure_usage (default_usage alias) db ≡ some d
      → IsTallied db
      → IsTallied d × (any (is_usage_of alias) d.key_usage ≡ true)
  ensure_usage-IsTallied alias db d e v = elim (ensure_usage-cases alias db d e) [
    | inl (old, same) ↦
        subst (λ x. IsTallied x × (any (is_usage_of alias) x.key_usage ≡ true)) same (v, old)
    | inr (new, key, same) ↦
        subst (λ x. IsTallied x × (any (is_usage_of alias) x.key_usage ≡ true)) same
          (add_row alias db v new, grown alias db.key_usage)
  ]
