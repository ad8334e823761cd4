-- ===== src/Storage/Summary.antt =====
-- src/storage.rs: `usage_aggregation` and `usage_summary`, with the totals that `admin_usage` of
-- src/admin/mod.rs makes of them. SQL's `SUM` of a real column and `f64::round` are parameters; two
-- buckets of the same cost and count may come in either order.
use polyglotmesh.Prelude.{
  ℕ, ℤ, pos, negsuc, ◌+ℤ◌, as_i64, is_i64, to_word, u64_mod, min, Bool, true, false, ◌&&◌, Option,
  none, some, List, [], ◌∷◌, ◌++◌, map, filter, length, take_n, Text, codes, text_eq, ltb, leb,
  if◌then◌else◌, add64,
}
use polyglotmesh.Float.{Float}
use polyglotmesh.Error.{RouterResult, ok, err, bad_request, internal}
use polyglotmesh.Sort.{sort_by}
use polyglotmesh.Storage.{Storage, UsageEvent, EventRow}

pub record UsageBucket (F : Type 0) : Type 0 where
  pub key : Text
  pub requests : ℕ
  pub input_tokens : ℕ
  pub output_tokens : ℕ
  pub cost_usd : F

-- The column to group by: none is an invalid name.
abbrev pub column_of : {F : Type 0} → Text → Option (UsageEvent F → Option Text)
column_of group_by =
    if text_eq group_by (codes "alias")
    then some (λ e. some e.alias)
    else if text_eq group_by (codes "upstream")
    then some (λ e. e.upstream_id)
    else if text_eq group_by (codes "model")
    then some (λ e. e.model)
    else if text_eq group_by (codes "all")
    then some (λ e. none)
    else none

-- The time bounds, the lower one included.
abbrev pub is_since : Option ℤ → ℕ → Bool
is_since none at = true
is_since (some (pos s)) at = leb s at
is_since (some (negsuc s)) at = true

abbrev pub is_until : Option ℤ → ℕ → Bool
is_until none at = true
is_until (some (pos u)) at = ltb at u
is_until (some (negsuc u)) at = false

abbrev pub in_range : {F : Type 0} → Option ℤ → Option ℤ → EventRow F → Bool
in_range since until r = is_since since r.at && is_until until r.at

abbrev pub same_key : Option Text → Option Text → Bool
same_key none none = true
same_key none (some b) = false
same_key (some a) none = false
same_key (some a) (some b) = text_eq a b

-- A sum of i64, which SQLite gives up when it leaves their range.
unfoldable pub sum_i64 : ℤ → List ℤ → Option ℤ
sum_i64 acc [] = some acc
sum_i64 acc (z ∷ zs) = let rest = sum_i64 (acc +ℤ z) zs in if is_i64 (acc +ℤ z) then rest else none

-- The events of a key.
abbrev pub Group : Type 0 → Type 0
Group F = Option Text × List (UsageEvent F)

module _ {F : Type 0} where
  -- `GROUP BY`: the events of each key, in their order.
  unfoldable pub add_to_group : Option Text → UsageEvent F → List (Group F) → List (Group F)
  add_to_group k e [] = (k, e ∷ []) ∷ []
  add_to_group k e ((j, es) ∷ gs) =
      if same_key j k then (j, es ++ (e ∷ [])) ∷ gs else (j, es) ∷ add_to_group k e gs

  unfoldable pub group_all :
      (UsageEvent F → Option Text) → List (EventRow F) → List (Group F) → List (Group F)
  unfolding add_to_group
  group_all key [] gs = gs
  group_all key (r ∷ rows) gs = group_all key rows (add_to_group (key r.event) r.event gs)

module _ (fl : Float) (sum_real : List (Float.F fl) → Float.F fl) where
  open fl use {F, le}

  -- The row of one group; `none` is an overflow of a sum.
  unfoldable pub bucket_of : Group F → Option (UsageBucket F)
  unfolding sum_i64
  bucket_of (k, es) =
      elim (sum_i64 (pos 0) (map (λ (e : UsageEvent F). as_i64 e.input_tokens) es)) [
        | none ↦ none
        | some i ↦ elim (sum_i64 (pos 0) (map (λ (e : UsageEvent F). as_i64 e.output_tokens) es)) [
          | none ↦ none
          | some o ↦ some (record {
            key = elim k [ some text ↦ text | none ↦ codes "(all)" ];
            requests = length es;
            input_tokens = to_word u64_mod i;
            output_tokens = to_word u64_mod o;
            cost_usd = sum_real (map (λ (e : UsageEvent F). e.cost_usd) es);
          })
        ]
      ]

  unfoldable pub buckets_of : List (Group F) → Option (List (UsageBucket F))
  unfolding bucket_of
  buckets_of [] = some []
  buckets_of (g ∷ gs) = elim (bucket_of g) [
    | none ↦ none
    | some b ↦ elim (buckets_of gs) [ none ↦ none | some bs ↦ some (b ∷ bs) ]
  ]

  -- `ORDER BY SUM(cost_usd) DESC, requests DESC`
  abbrev pub bucket_le : UsageBucket F → UsageBucket F → Bool
  bucket_le a b =
      if le b.cost_usd a.cost_usd
      then (if le a.cost_usd b.cost_usd then leb b.requests a.requests else true)
      else false

  abbrev pub sorted_buckets : Option (List (UsageBucket F)) → RouterResult (List (UsageBucket F))
  sorted_buckets none = err (internal (codes "sqlite: integer overflow"))
  sorted_buckets (some bs) = ok (sort_by bucket_le bs)

  -- `usage_summary`, which is `usage_aggregation` on the connection.
  unfoldable pub usage_summary :
      Text → Option ℤ → Option ℤ → Storage F → RouterResult (List (UsageBucket F))
  unfolding group_all buckets_of
  usage_summary group_by since until db = elim (column_of group_by) [
    | none ↦ err (bad_request (codes "invalid group_by '" ++ group_by ++ codes "'"))
    | some key ↦
        sorted_buckets
          (buckets_of (group_all key (filter (in_range since until) db.usage_events) []))
  ]

module _ {F : Type 0} where
  -- `iter().sum::<u64>()`
  unfoldable pub sum_u64 : (UsageBucket F → ℕ) → ℕ → List (UsageBucket F) → ℕ
  sum_u64 f acc [] = acc
  sum_u64 f acc (b ∷ bs) = sum_u64 f (add64 acc (f b)) bs

module _ (fl : Float) (sum_real : List (Float.F fl) → Float.F fl)
    (sum_f64 : List (Float.F fl) → Float.F fl) (round : Float.F fl → Float.F fl) where
  open fl use {F, lit, mul, div}

  -- The totals that `admin_usage` makes of the buckets; `sum_f64` is `iter().sum::<f64>()`.
  unfoldable pub totals_of : List (UsageBucket F) → UsageBucket F
  unfolding sum_u64
  totals_of bs = record {
    key = codes "_total";
    requests = sum_u64 (λ b. b.requests) 0 bs;
    input_tokens = sum_u64 (λ b. b.input_tokens) 0 bs;
    output_tokens = sum_u64 (λ b. b.output_tokens) 0 bs;
    cost_usd =
        div (round (mul (sum_f64 (map (λ (b : UsageBucket F). b.cost_usd) bs)) (lit 1_000_000 0)))
          (lit 1_000_000 0);
  }

  abbrev pub with_totals :
      ℕ → RouterResult (List (UsageBucket F)) → RouterResult (UsageBucket F × List (UsageBucket F))
  with_totals limit (err e) = err e
  with_totals limit (ok bs) = ok (totals_of bs, take_n limit bs)

  -- `admin_usage`: the totals and the buckets that it shows.
  unfoldable pub admin_usage :
      Option Text
      → Option ℤ
      → Option ℤ
      → Option ℕ
      → Storage F
      → RouterResult (UsageBucket F × List (UsageBucket F))
  unfolding usage_summary totals_of
  admin_usage group_by since until limit db =
      with_totals (min (elim limit [ some n ↦ n | none ↦ 50 ]) 500) (
        usage_summary fl sum_real (elim group_by [ some g ↦ g | none ↦ codes "all" ]) since until
          db)
