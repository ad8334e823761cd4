-- ===== src/Storage/Grouped.antt =====
-- src/storage.rs and src/admin/mod.rs: the totals of `admin_usage` are those of the events, however
-- they are grouped.
use polyglotmesh.Prelude.{
  ℕ, ℤ, pos, ◌+◌, ◌%◌, ◌≤◌, ◌<◌, ◌≡◌, refl, ◌∙◌, ◌+ℤ◌, as_i64, u64_mod, min, Option, none, some,
  List, [], ◌∷◌, sym, codes, ◌++◌, map, filter, length, take_n, Text, arith, add64,
}
use polyglotmesh.Float.{Float}
use polyglotmesh.Error.{ok}
use polyglotmesh.Sort.{insert_by, sort_by}
use polyglotmesh.Storage.{Storage, UsageEvent, EventRow}
use polyglotmesh.Storage.Audit.{length-take_n-le}
use polyglotmesh.Storage.Summary.{
  UsageBucket, Group, column_of, in_range, sum_i64, add_to_group, group_all, bucket_of, buckets_of,
  bucket_le, usage_summary, sum_u64, totals_of, admin_usage,
}

abbrev pub i64_max : ℕ
i64_max = 9_223_372_036_854_775_807

-- The sum of a number over a list.
abbrev pub total : {A : Type 0} → (A → ℕ) → List A → ℕ
total f [] = 0
total f (a ∷ rest) = f a + total f rest

module _ {F : Type 0} (f : UsageEvent F → ℕ) where
  abbrev group_total : List (Group F) → ℕ
  group_total [] = 0
  group_total ((k, es) ∷ gs) = total f es + group_total gs

  total-append :
      (es : List (UsageEvent F)) (e : UsageEvent F) → total f (es ++ (e ∷ [])) ≡ total f es + f e
  total-append [] e = omega arith
  total-append (d ∷ es) e = omega (arith, total-append es e)

  group_total-add :
      (k : Option Text) (e : UsageEvent F) (gs : List (Group F))
      → group_total (add_to_group k e gs) ≡ group_total gs + f e
  unfolding add_to_group
  group_total-add k e [] = omega arith
  group_total-add k e ((j, es) ∷ gs) = ground (arith, total-append es e, group_total-add k e gs)

  group_all-total :
      (key : UsageEvent F → Option Text) (rows : List (EventRow F)) (gs : List (Group F))
      → group_total (group_all key rows gs) ≡ group_total gs + total (λ r. f r.event) rows
  unfolding group_all
  group_all-total key [] gs = omega arith
  group_all-total key (r ∷ rows) gs = omega (
    arith,
    group_all-total key rows (add_to_group (key r.event) r.event gs),
    group_total-add (key r.event) r.event gs,
  )

  sum_i64-total :
      (a : ℕ) (es : List (UsageEvent F))
      → a + total f es ≤ i64_max
      → sum_i64 (pos a) (map (λ e. as_i64 (f e)) es) ≡ some (pos (a + total f es))
  unfolding sum_i64 ◌+ℤ◌
  sum_i64-total a [] fits = ground arith
  sum_i64-total a (e ∷ es) fits = ground (arith, sum_i64-total (a + f e) es)

module _ {F : Type 0} where
  -- The numbers of an event that a bucket sums.
  abbrev pub inputs : UsageEvent F → ℕ
  inputs e = e.input_tokens

  abbrev pub outputs : UsageEvent F → ℕ
  outputs e = e.output_tokens

  abbrev pub ones : UsageEvent F → ℕ
  ones e = 1

  total-ones : (es : List (UsageEvent F)) → total ones es ≡ length es
  total-ones [] = refl
  total-ones (e ∷ es) = omega (arith, total-ones es)

module _ (fl : Float) (sum_real : List (Float.F fl) → Float.F fl) where
  open fl use {F}

  bucket_of-total :
      (k : Option Text) (es : List (UsageEvent F))
      → total inputs es ≤ i64_max
      → total outputs es ≤ i64_max
      → (b : UsageBucket F) × (bucket_of fl sum_real (k, es) ≡ some b)
        × (b.requests ≡ total ones es)
        × (b.input_tokens ≡ total inputs es)
        × (b.output_tokens ≡ total outputs es)
  unfolding bucket_of
  bucket_of-total k es fits fits' = (
    record {
      key = elim k [ some text ↦ text | none ↦ codes "(all)" ];
      requests = length es;
      input_tokens = total inputs es;
      output_tokens = total outputs es;
      cost_usd = sum_real (map (λ (e : UsageEvent F). e.cost_usd) es);
    },
    rw
        (
          sum_i64-total inputs 0 es (omega arith),
          sum_i64-total outputs 0 es (omega arith),
          bucket_of,
        )
        (ground arith),
    sym (total-ones es),
    refl,
    refl,
  )

  buckets_of-total :
      (gs : List (Group F))
      → group_total inputs gs ≤ i64_max
      → group_total outputs gs ≤ i64_max
      → (bs : List (UsageBucket F)) × (buckets_of fl sum_real gs ≡ some bs)
        × (total (λ b. b.requests) bs ≡ group_total ones gs)
        × (total (λ b. b.input_tokens) bs ≡ group_total inputs gs)
        × (total (λ b. b.output_tokens) bs ≡ group_total outputs gs)
  unfolding buckets_of
  buckets_of-total [] fits fits' = ([], refl, refl, refl, refl)
  buckets_of-total ((k, es) ∷ gs) fits fits' =
      let (b, made, n, i, o) = bucket_of-total k es (omega arith) (omega arith) in
      let (bs, mades, ns, ins, os) = buckets_of-total gs (omega arith) (omega arith) in
      (
        b ∷ bs,
        rw (made, buckets_of) (rw mades refl),
        omega (arith, n, ns),
        omega (arith, i, ins),
        omega (arith, o, os),
      )

  total-insert_by :
      (f : UsageBucket F → ℕ) (b : UsageBucket F) (bs : List (UsageBucket F))
      → total f (insert_by (bucket_le fl sum_real) b bs) ≡ f b + total f bs
  unfolding insert_by
  total-insert_by f b [] = refl
  total-insert_by f b (c ∷ bs) = ground (arith, total-insert_by f b bs)

  total-sort_by :
      (f : UsageBucket F → ℕ) (bs : List (UsageBucket F))
      → total f (sort_by (bucket_le fl sum_real) bs) ≡ total f bs
  unfolding sort_by
  total-sort_by f [] = refl
  total-sort_by f (b ∷ bs) =
      omega (arith, total-insert_by f b (sort_by (bucket_le fl sum_real) bs), total-sort_by f bs)

sum_u64-total :
    {F : Type 0} (f : UsageBucket F → ℕ) (acc : ℕ) (bs : List (UsageBucket F))
    → acc < u64_mod
    → sum_u64 f acc bs ≡ (acc + total f bs) % u64_mod
unfolding sum_u64
sum_u64-total f acc [] small = omega arith
sum_u64-total f acc (b ∷ bs) small =
    omega (arith, sum_u64-total f (add64 acc (f b)) bs (omega arith))

total-rows : {F : Type 0} (rows : List (EventRow F)) → total (λ r. ones r.event) rows ≡ length rows
total-rows [] = refl
total-rows (r ∷ rows) = omega (arith, total-rows rows)

sum_u64-sorted :
    (fl : Float) (sum_real : List (Float.F fl) → Float.F fl) (f : UsageBucket (Float.F fl) → ℕ)
    (bs : List (UsageBucket (Float.F fl))) (n : ℕ)
    → total f bs ≡ n
    → sum_u64 f 0 (sort_by (bucket_le fl sum_real) bs) ≡ n % u64_mod
sum_u64-sorted fl sum_real f bs n e = omega (
  arith,
  e,
  sum_u64-total f 0 (sort_by (bucket_le fl sum_real) bs) (omega arith),
  total-sort_by fl sum_real f bs,
)

module _ (fl : Float) (sum_real : List (Float.F fl) → Float.F fl)
    (sum_f64 : List (Float.F fl) → Float.F fl) (round : Float.F fl → Float.F fl) where
  open fl use {F}

  -- The events that a query asks for.
  abbrev pub selected : Option ℤ → Option ℤ → Storage F → List (EventRow F)
  selected since until db = filter (in_range since until) db.usage_events

  -- Whatever valid column `admin_usage` groups by and however few buckets it shows, where the input
  -- and the output tokens of the events in the time range add up to less than 2^63 each: it answers,
  -- its totals are the number of those events modulo 2^64 and the two sums, and it shows at most 500
  -- buckets, and at most as many as the query asks for.
  pub admin_usage-total :
      (group_by : Text) (key : UsageEvent F → Option Text) (since until : Option ℤ) (limit : ℕ)
      (db : Storage F)
      → column_of group_by ≡ some key
      → total (λ r. inputs r.event) (selected since until db) ≤ i64_max
      → total (λ r. outputs r.event) (selected since until db) ≤ i64_max
      → (t : UsageBucket F) × (shown : List (UsageBucket F)) × (admin_usage fl sum_real sum_f64
            round
            (some group_by)
            since
            until
            (some limit)
            db
          ≡ ok (t, shown))
        × (t.requests ≡ length (selected since until db) % u64_mod)
        × (t.input_tokens ≡ total (λ r. inputs r.event) (selected since until db))
        × (t.output_tokens ≡ total (λ r. outputs r.event) (selected since until db))
        × (length shown ≤ min limit 500)
  unfolding admin_usage usage_summary totals_of
  admin_usage-total group_by key since until limit db valid fits fits' =
      let rows = selected since until db in
      let e = λ (f : UsageEvent F → ℕ). group_all-total f key rows [] in
      let (bs, made, n, i, o) =
        buckets_of-total fl sum_real (group_all key rows []) (omega (arith, e inputs))
          (omega (arith, e outputs)) in
      let sorted = sort_by (bucket_le fl sum_real) bs in
      (
        totals_of fl sum_real sum_f64 round sorted,
        take_n (min limit 500) sorted,
        rw (valid, usage_summary) (rw (made, admin_usage) refl),
        sum_u64-sorted fl sum_real (λ b. b.requests) bs (length rows)
            (omega (arith, n, e ones, total-rows rows)),
        sum_u64-sorted fl sum_real (λ b. b.input_tokens) bs (total (λ r. inputs r.event) rows)
              (omega (arith, i, e inputs))
            ∙ omega arith,
        sum_u64-sorted fl sum_real (λ b. b.output_tokens) bs (total (λ r. outputs r.event) rows)
              (omega (arith, o, e outputs))
            ∙ omega arith,
        length-take_n-le (min limit 500) sorted,
      )
