-- ===== src/Auth/Durations.antt =====
-- src/auth/mod.rs: `parse_duration_to_chrono` and `parse_expiry`. Durations and RFC 3339 dates are
-- those of the chrono library, a parameter; i64 is a sign and a number, and its product wraps.
use polyglotmesh.Prelude.{
  ℤ, pos, negsuc, ℕ, zero, suc, ◌+◌, ◌-◌, ◌*◌, ◌%◌, Bool, ◌&&◌, Option, none, some, [], ◌∷◌, Text,
  ltb, leb, ◌==◌, if◌then◌else◌, u64_mod,
}

-- What a call that may panic ends with.
pub data Run (A : Type 0) : Type 0 where
  panicked : Run A
  done : A → Run A

-- The chrono library. Its constructors of durations panic out of their range (`none`), and so does
-- a date plus a duration. A date is a count of nanoseconds.
pub record Chrono : Type 1 where
  pub Duration : Type 0
  pub seconds : ℤ → Option Duration
  pub minutes : ℤ → Option Duration
  pub hours : ℤ → Option Duration
  pub days : ℤ → Option Duration
  pub weeks : ℤ → Option Duration
  -- `now - start > d`
  pub elapsed : ℕ → ℕ → Duration → Bool
  -- `now + d`
  pub after : ℕ → Duration → Option ℕ
  -- `DateTime::parse_from_rfc3339`
  pub parse_from_rfc3339 : Text → Option ℕ

abbrev pub i64_limit : ℕ
i64_limit = 9223372036854775808

-- The value of a run of decimal digits, after `acc`.
unfoldable pub parse_digits : ℕ → Text → Option ℕ
parse_digits acc [] = some acc
parse_digits acc (c ∷ s) =
    let rest = parse_digits (acc * 10 + (c - 48)) s in if leb 48 c && leb c 57 then rest else none

-- A nonempty run of digits below the limit.
unfoldable pub parse_below : ℕ → Text → Option ℕ
unfolding parse_digits
parse_below limit [] = none
parse_below limit (c ∷ s) = elim (parse_digits 0 (c ∷ s)) [
  | none ↦ none
  | some n ↦ if ltb n limit then some n else none
]

abbrev pub negate : ℕ → ℤ
negate zero = pos 0
negate (suc n) = negsuc n

-- `str::parse::<i64>`: an optional sign and digits, within the range.
unfoldable pub parse_i64 : Text → Option ℤ
unfolding parse_below
parse_i64 [] = none
parse_i64 (c ∷ s) =
    if c == 45
    then (elim (parse_below (i64_limit + 1) s) [ none ↦ none | some n ↦ some (negate n) ])
    else if c == 43
    then (elim (parse_below i64_limit s) [ none ↦ none | some n ↦ some (pos n) ])
    else (elim (parse_below i64_limit (c ∷ s)) [ none ↦ none | some n ↦ some (pos n) ])

-- `n * 30` on i64, which wraps in a release build. `negsuc a` is -(a + 1).
abbrev pub times_30 : ℤ → ℤ
times_30 (pos a) =
    let m = (a * 30) % u64_mod in if ltb m i64_limit then pos m else negsuc (u64_mod - 1 - m)
times_30 (negsuc a) =
    let m = (a * 30 + 29) % u64_mod in if ltb m i64_limit then negsuc m else pos (u64_mod - 1 - m)

-- `split_at(len - 1)` of a nonempty text: what stands before its last character, and that.
abbrev pub split_last : ℕ → Text → Text × ℕ
split_last c [] = ([], c)
split_last c (d ∷ s) = let (num, last) = split_last d s in (c ∷ num, last)

abbrev pub range_checked : {A : Type 0} → Option A → Run (Option A)
range_checked none = panicked
range_checked (some a) = done (some a)

module _ (ch : Chrono) where
  open ch use {Duration, seconds, minutes, hours, days, weeks, after, parse_from_rfc3339}

  -- The match on the unit.
  unfoldable pub of_unit : ℕ → ℤ → Run (Option Duration)
  of_unit unit n =
      if unit == 115
      then range_checked (seconds n)
      else if unit == 109
      then range_checked (minutes n)
      else if unit == 104
      then range_checked (hours n)
      else if unit == 100
      then range_checked (days n)
      else if unit == 119
      then range_checked (weeks n)
      else if unit == 77
      then range_checked (days (times_30 n))
      else if unit == 111
      then range_checked (days (times_30 n))
      else done none

  -- The number and the unit that the text is split into.
  unfoldable pub of_split : Text × ℕ → Run (Option Duration)
  unfolding parse_i64 of_unit
  of_split (num, unit) =
      if leb 128 unit
      then panicked
      else elim (parse_i64 num) [ none ↦ done none | some n ↦ of_unit unit n ]

  -- `parse_duration_to_chrono`. `split_at` counts bytes: it panics where the last character takes
  -- more than one, which is when it is not ASCII.
  unfoldable pub parse_duration_to_chrono : Option Text → Run (Option Duration)
  unfolding of_split
  parse_duration_to_chrono none = done none
  parse_duration_to_chrono (some []) = done none
  parse_duration_to_chrono (some (c ∷ s)) = of_split (split_last c s)

  -- `parse_expiry`
  unfoldable pub parse_expiry : ℕ → Text → Run (Option ℕ)
  unfolding parse_duration_to_chrono
  parse_expiry now s = elim (parse_from_rfc3339 s) [
    | some dt ↦ done (some dt)
    | none ↦ elim (parse_duration_to_chrono (some s)) [
      | panicked ↦ panicked
      | done none ↦ done none
      | done (some d) ↦ range_checked (after now d)
    ]
  ]
