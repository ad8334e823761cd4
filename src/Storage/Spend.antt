-- ===== src/Storage/Spend.antt =====
-- src/storage.rs: what the hourly buckets of a key's spend history add up to.
use polyglotmesh.Prelude.{
  All, subst, is_i64, ◌<◌, ◌*◌, ◌/◌, ◌+◌, ◌==◌, ℕ, ℤ, pos, ◌+ℤ◌, +ℤ_comm, +ℤ_assoc, +ℤ-zero, ◌≡◌,
  refl, ◌∙◌, ap, sym, Bool, true, false, ◌||◌, List, [], ◌∷◌, ◌++◌, Text, text_eq, text_eq_iff, any,
  arith, if◌then◌else◌, Bool-cases, inl, inr, ◌⊎◌,
}
use polyglotmesh.Float.{Float}
use polyglotmesh.Storage.{Storage, SpendRow, update_where}
use polyglotmesh.Auth.Durations.{done}
use polyglotmesh.Storage.Cells.{Cell, int, real, add_cell, add_cell-int}
use polyglotmesh.Storage.Usage.{micros_of}
use polyglotmesh.Storage.History.{window_of, is_spend_of, upsert_spend, record_spend_history}

-- No alias has two rows of one window, as the primary key asks.
unfoldable pub IsKeyed : {F : Type 0} → List (SpendRow F) → Type 0
IsKeyed [] = Unit
IsKeyed (r ∷ rows) = (any (is_spend_of r.alias r.window_start) rows ≡ false) × IsKeyed rows

-- The number in a column; a REAL counts as nothing.
abbrev pub value : {F : Type 0} → Cell F → ℤ
value (int n) = n
value (real x) = pos 0

-- A column summed over the rows of an alias.
unfoldable pub column : {F : Type 0} → (SpendRow F → Cell F) → Text → List (SpendRow F) → ℤ
column f alias [] = pos 0
column f alias (r ∷ rows) =
    (if text_eq r.alias alias then value (f r) else pos 0) +ℤ column f alias rows

-- What a change for one alias adds to the column of another.
abbrev pub share : Text → Text → ℤ → ℤ
share alias other n = if text_eq alias other then n else pos 0

swap : (a b c : ℤ) → a +ℤ b +ℤ c ≡ a +ℤ c +ℤ b
swap a b c = +ℤ_assoc a b c ∙ (ap (λ x. a +ℤ x) (+ℤ_comm b c) ∙ sym (+ℤ_assoc a c b))

-- A summand that only counts under a test.
under :
    (b : Bool) (x n c : ℤ)
    → (if b then x +ℤ n else pos 0) +ℤ c ≡ (if b then x else pos 0) +ℤ c +ℤ (if b then n else pos 0)
under true x n c = swap x n c
under false x n c = sym (+ℤ-zero _)

-- A row is of a window exactly if its key is the window's.
is_spend_iff :
    {F : Type 0} (alias : Text) (start : ℕ) (r : SpendRow F)
    → is_spend_of alias start r ≡ true
    → (r.alias ≡ alias) × (r.window_start ≡ start)
is_spend_iff alias start r e = ground (arith, e, text_eq_iff r.alias alias)

update_where-absent :
    {F : Type 0} (p : SpendRow F → Bool) (g : SpendRow F → SpendRow F) (rows : List (SpendRow F))
    → any p rows ≡ false
    → update_where p g rows ≡ rows
update_where-absent p g [] e = refl
update_where-absent p g (r ∷ rows) e = ground (arith, e, update_where-absent p g rows)

column-snoc :
    {F : Type 0} (f : SpendRow F → Cell F) (other : Text) (rows : List (SpendRow F))
    (r : SpendRow F)
    → column f other (rows ++ (r ∷ [])) ≡ column f other rows +ℤ share r.alias other (value (f r))
unfolding column
column-snoc f other [] r = +ℤ_comm _ _
column-snoc f other (x ∷ rows) r =
    ap (λ c. (if text_eq x.alias other then value (f x) else pos 0) +ℤ c)
      (column-snoc f other rows r)
    ∙ sym (+ℤ_assoc _ _ _)

any-snoc :
    {F : Type 0} (p : SpendRow F → Bool) (rows : List (SpendRow F)) (r : SpendRow F)
    → any p (rows ++ (r ∷ [])) ≡ (any p rows || p r)
any-snoc p [] r = ground arith
any-snoc p (x ∷ rows) r = ground (arith, any-snoc p rows r)

is_spend-sym :
    {F : Type 0} (q r : SpendRow F)
    → is_spend_of q.alias q.window_start r ≡ is_spend_of r.alias r.window_start q
is_spend-sym q r = ground (arith, text_eq_iff q.alias r.alias, text_eq_iff r.alias q.alias)

IsKeyed-snoc :
    {F : Type 0} (rows : List (SpendRow F)) (r : SpendRow F)
    → IsKeyed rows
    → any (is_spend_of r.alias r.window_start) rows ≡ false
    → IsKeyed (rows ++ (r ∷ []))
unfolding IsKeyed
IsKeyed-snoc [] r k e = (refl, tt)
IsKeyed-snoc (x ∷ rows) r k e = (
  any-snoc (is_spend_of x.alias x.window_start) rows r ∙ ground (arith, e, k.0, is_spend-sym x r),
  IsKeyed-snoc rows r k.1 (ground (arith, e)),
)

module _ {F : Type 0} (g : SpendRow F → SpendRow F) where
  -- A change of rows that keeps the key.
  abbrev Keeps : Type 0
  Keeps = (r : SpendRow F) → ((g r).alias ≡ r.alias) × ((g r).window_start ≡ r.window_start)

  any-update :
      (p : SpendRow F → Bool) (alias : Text) (start : ℕ) (rows : List (SpendRow F))
      → Keeps
      → any (is_spend_of alias start) (update_where p g rows) ≡ any (is_spend_of alias start) rows
  any-update p alias start [] keeps = refl
  any-update p alias start (r ∷ rows) keeps = elim (Bool-cases (p r)) [
    | inl e ↦ rw (e, (keeps r).0, (keeps r).1, any-update p alias start rows keeps) refl
    | inr e ↦ rw (e, any-update p alias start rows keeps) refl
  ]

  IsKeyed-update :
      (p : SpendRow F → Bool) (rows : List (SpendRow F))
      → Keeps
      → IsKeyed rows
      → IsKeyed (update_where p g rows)
  unfolding IsKeyed
  IsKeyed-update p [] keeps k = tt
  IsKeyed-update p (r ∷ rows) keeps k =
      (any-update p _ _ rows keeps ∙ kept (Bool-cases (p r)), IsKeyed-update p rows keeps k.1)
    where
      kept :
          (p r ≡ true) ⊎ (p r ≡ false)
          → any
              (is_spend_of (if p r then g r else r).alias (if p r then g r else r).window_start)
              rows
            ≡ false
      kept (inl e) = rw (e, (keeps r).0, (keeps r).1) k.0
      kept (inr e) = rw e k.0

  gained :
      (f : SpendRow F → Cell F) (n : ℤ) (other : Text) (r : SpendRow F) (rows : List (SpendRow F))
      → Keeps
      → value (f (g r)) ≡ value (f r) +ℤ n
      → column f other (g r ∷ rows) ≡ column f other (r ∷ rows) +ℤ share r.alias other n
  unfolding column
  gained f n other r rows keeps adds =
      ap (λ a. (if text_eq a other then value (f (g r)) else pos 0) +ℤ column f other rows)
        (keeps r).0
      ∙ (ap (λ x. (if text_eq r.alias other then x else pos 0) +ℤ column f other rows) adds
          ∙ under (text_eq r.alias other) (value (f r)) n (column f other rows))

  -- The one row of a window is changed, so its alias gains what the change adds.
  column-update :
      (f : SpendRow F → Cell F) (n : ℤ) (alias other : Text) (start : ℕ) (rows : List (SpendRow F))
      → Keeps
      → All (λ r. is_spend_of alias start r ≡ true → value (f (g r)) ≡ value (f r) +ℤ n) rows
      → IsKeyed rows
      → any (is_spend_of alias start) rows ≡ true
      → column f other (update_where (is_spend_of alias start) g rows)
        ≡ column f other rows +ℤ share alias other n
  unfolding IsKeyed column
  column-update f n alias other start [] keeps adds k e = cc
  column-update f n alias other start (r ∷ rows) keeps adds k e =
      elim (Bool-cases (is_spend_of alias start r)) [
        | inl here ↦
            let (same, at) = is_spend_iff alias start r here in
            let rest =
              update_where-absent (is_spend_of alias start) g rows (rw (same, at) at k.0) in
            rw (here, rest)
              (gained f n other r rows keeps (adds.0 here)
                ∙ ap (λ a. column f other (r ∷ rows) +ℤ share a other n) same)
        | inr away ↦ rw away (
            ap (λ c. (if text_eq r.alias other then value (f r) else pos 0) +ℤ c)
              (column-update f n alias other start rows keeps adds.1 k.1 (rw away at e))
            ∙ sym (+ℤ_assoc _ _ _))
      ]

module _ (fl : Float) where
  open fl use {F}

  -- The column holds an integer, and stays one within i64 with the number added.
  abbrev pub Adds : Cell F → ℤ → Type 0
  Adds c n = (z : ℤ) × (c ≡ int z) × (is_i64 (z +ℤ n) ≡ true)

  value-add : (c : Cell F) (n : ℤ) → Adds c n → value (add_cell fl c n) ≡ value c +ℤ n
  value-add c n (z, e, fits) =
      subst (λ x. value (add_cell fl x n) ≡ value x +ℤ n) (sym e)
        (ap value (add_cell-int fl z n fits))

  All-value :
      (p : SpendRow F → Bool) (f : SpendRow F → Cell F) (n : ℤ) (rows : List (SpendRow F))
      → All (λ r. p r ≡ true → Adds (f r) n) rows
      → All (λ r. p r ≡ true → value (add_cell fl (f r) n) ≡ value (f r) +ℤ n) rows
  All-value p f n [] a = tt
  All-value p f n (r ∷ rows) a = (λ e. value-add (f r) n (a.0 e), All-value p f n rows a.1)

  -- In each row of the window the column has room for the number.
  abbrev pub HasRoom : Text → ℕ → (SpendRow F → Cell F) → ℤ → Storage F → Type 0
  HasRoom alias start f n db =
      All (λ r. is_spend_of alias start r ≡ true → Adds (f r) n) db.key_spend_history

  -- The statement itself, on the table of a recording.
  upsert_spend-column :
      (alias : Text) (start end : ℕ) (input output : ℤ) (usd : F) (requests : ℤ) (db : Storage F)
      (other : Text)
      → IsKeyed db.key_spend_history
      → HasRoom alias start SpendRow.requests requests db
      → HasRoom alias start SpendRow.input_tokens input db
      → HasRoom alias start SpendRow.output_tokens output db
      → HasRoom alias start SpendRow.spend_micros (micros_of fl usd) db
      → let rows = db.key_spend_history in
        let db' = upsert_spend fl alias start end input output usd requests db in
        IsKeyed db'.key_spend_history
        × (column SpendRow.requests other db'.key_spend_history
            ≡ column SpendRow.requests other rows +ℤ share alias other requests)
        × (column SpendRow.input_tokens other db'.key_spend_history
            ≡ column SpendRow.input_tokens other rows +ℤ share alias other input)
        × (column SpendRow.output_tokens other db'.key_spend_history
            ≡ column SpendRow.output_tokens other rows +ℤ share alias other output)
        × (column SpendRow.spend_micros other db'.key_spend_history
            ≡ column SpendRow.spend_micros other rows +ℤ share alias other (micros_of fl usd))
  unfolding upsert_spend
  upsert_spend-column alias start end input output usd requests db other k q i o m =
      let p = is_spend_of {F = F} alias start in
      elim (Bool-cases (any p db.key_spend_history)) [
        | inl old ↦ rw old (
          IsKeyed-update _ _ _ (λ r. (refl, refl)) k,
          column-update _ SpendRow.requests requests alias other start _ (λ r. (refl, refl))
              (All-value p _ _ _ q) k old,
          column-update _ SpendRow.input_tokens input alias other start _ (λ r. (refl, refl))
              (All-value p _ _ _ i) k old,
          column-update _ SpendRow.output_tokens output alias other start _ (λ r. (refl, refl))
              (All-value p _ _ _ o) k old,
          column-update _ SpendRow.spend_micros (micros_of fl usd) alias other start _
              (λ r. (refl, refl)) (All-value p _ _ _ m) k old,
        )
        | inr new ↦ rw new (
          IsKeyed-snoc _ _ k new,
          column-snoc _ other _ _,
          column-snoc _ other _ _,
          column-snoc _ other _ _,
          column-snoc _ other _ _,
        )
      ]

  -- For a window that is not 0, where no two rows share an alias and a window, and the columns of the
  -- alias's row of that window, if there is one, hold integers that stay within i64: the recording is
  -- done, no two rows share an alias and a window, and each column, summed over the rows of an alias,
  -- gains what was recorded if it was recorded for that alias, and stays otherwise.
  pub record_spend_history-column :
      (alias : Text) (at window : ℕ) (input output : ℤ) (usd : F) (requests : ℤ) (db : Storage F)
      (other : Text)
      → 0 < window
      → IsKeyed db.key_spend_history
      → HasRoom alias (at / window * window) SpendRow.requests requests db
      → HasRoom alias (at / window * window) SpendRow.input_tokens input db
      → HasRoom alias (at / window * window) SpendRow.output_tokens output db
      → HasRoom alias (at / window * window) SpendRow.spend_micros (micros_of fl usd) db
      → let rows = db.key_spend_history in
        (db' : Storage F) × (record_spend_history fl alias at window input output usd requests db
          ≡ done db')
        × IsKeyed db'.key_spend_history
        × (column SpendRow.requests other db'.key_spend_history
            ≡ column SpendRow.requests other rows +ℤ share alias other requests)
        × (column SpendRow.input_tokens other db'.key_spend_history
            ≡ column SpendRow.input_tokens other rows +ℤ share alias other input)
        × (column SpendRow.output_tokens other db'.key_spend_history
            ≡ column SpendRow.output_tokens other rows +ℤ share alias other output)
        × (column SpendRow.spend_micros other db'.key_spend_history
            ≡ column SpendRow.spend_micros other rows +ℤ share alias other (micros_of fl usd))
  unfolding record_spend_history
  record_spend_history-column alias at window input output usd requests db other some_time k q i o
        m =
      let start = window_of at window in
      let runs : (window == 0) ≡ false = ground (arith, some_time) in
      let (keyed, a, b, c, d) =
        upsert_spend-column alias start (start + window) input output usd requests db other k q i o
          m in
      (
        upsert_spend fl alias start (start + window) input output usd requests db,
        rw runs refl,
        keyed,
        a,
        b,
        c,
        d,
      )
