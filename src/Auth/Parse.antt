-- ===== src/Auth/Parse.antt =====
-- src/auth/mod.rs: `parse_duration_to_chrono` reads back what is printed as a number and a unit.
use polyglotmesh.Prelude.{
  ℤ, Option, none, List, ◌==◌, pos, ℕ, zero, suc, ◌+◌, ◌-◌, ◌*◌, ◌/◌, ◌%◌, ◌<◌, ◌≡◌, refl, ◌∙◌,
  some, [], ◌∷◌, ◌++◌, Text, arith, ltb, leb, if◌then◌else◌, Bool-cases, inl, inr, sym, ap,
}
use polyglotmesh.Error.{digits_from, decimal}
use polyglotmesh.Auth.Durations.{
  Run, done, times_30, panicked, Chrono, i64_limit, parse_digits, parse_below, parse_i64,
  split_last, of_unit, of_split, parse_duration_to_chrono,
}

abbrev pow10 : ℕ → ℕ
pow10 zero = 1
pow10 (suc f) = 10 * pow10 f

-- The last digit of a number, read after the others.
parse_digit :
    (n : ℕ) (rest : Text) → parse_digits (n / 10) ((48 + n % 10) ∷ rest) ≡ parse_digits n rest
unfolding parse_digits
parse_digit n rest =
    let back : n / 10 * 10 + (48 + n % 10 - 48) ≡ n = omega arith in
    let small : n % 10 < 10 = omega arith in rw back (ground (arith, small))

pub parse_digits-digits_from :
    (f n : ℕ) (rest : Text)
    → n < pow10 (suc f)
    → parse_digits 0 (digits_from (suc f) n rest) ≡ parse_digits n rest
unfolding parse_digits digits_from
parse_digits-digits_from zero n rest fits = ground arith
parse_digits-digits_from (suc f) n rest fits = elim (Bool-cases (ltb n 10)) [
  | inl e ↦ rw e (ground (arith, e))
  | inr e ↦ rw e (
      parse_digits-digits_from f (n / 10) ((48 + n % 10) ∷ rest) (omega (arith, fits))
      ∙ parse_digit n rest)
]

pub digit_read : (c n : ℕ) (s : Text) → parse_digits 0 (c ∷ s) ≡ some n → (48 < c + 1) × (c < 58)
unfolding parse_digits
digit_read c n s e = ground (arith, e)

parse_i64-digits :
    (c : ℕ) (s : Text) (n : ℕ)
    → parse_digits 0 (c ∷ s) ≡ some n
    → n < i64_limit
    → parse_i64 (c ∷ s) ≡ some (pos n)
unfolding parse_i64 parse_below
parse_i64-digits c s n e fits =
    let (low, high) = digit_read c n s e in
    rw (parse_i64, parse_below, e) (ground (arith, low, high, fits))

digits_from-longer :
    (f n d : ℕ) (rest : Text) → (c : ℕ) × (s : Text) × (digits_from f n (d ∷ rest) ≡ c ∷ s)
unfolding digits_from
digits_from-longer zero n d rest = (d, rest, refl)
digits_from-longer (suc f) n d rest = elim (Bool-cases (ltb n 10)) [
  | inl e ↦ (48 + n, d ∷ rest, rw e refl)
  | inr e ↦ rw e (digits_from-longer f (n / 10) (48 + n % 10) (d ∷ rest))
]

pub digits_from-cons :
    (f n : ℕ) (rest : Text) → (c : ℕ) × (s : Text) × (digits_from (suc f) n rest ≡ c ∷ s)
unfolding digits_from
digits_from-cons f n rest = elim (Bool-cases (ltb n 10)) [
  | inl e ↦ (48 + n, rest, rw e refl)
  | inr e ↦ rw e (digits_from-longer f (n / 10) (48 + n % 10) rest)
]

split_last-snoc : (c : ℕ) (s : Text) (u : ℕ) → split_last c (s ++ (u ∷ [])) ≡ (c ∷ s, u)
split_last-snoc c [] u = refl
split_last-snoc c (d ∷ s) u = rw (split_last-snoc d s u) refl

module _ (ch : Chrono) where
  open ch use {Duration, seconds, minutes, hours, days, weeks}

  of_split_lem :
      (c : ℕ) (s : Text) (unit n : ℕ)
      → parse_i64 (c ∷ s) ≡ some (pos n)
      → of_split ch (c ∷ s, unit) ≡ (if leb 128 unit then panicked else of_unit ch unit (pos n))
  unfolding of_split
  of_split_lem c s unit n e = rw e refl

  -- The units: what a character stands for.
  abbrev pub units : List (ℕ × (ℤ → Option Duration))
  units =
      (b's', seconds)
      ∷ (b'm', minutes)
      ∷ (b'h', hours)
      ∷ (b'd', days)
      ∷ (b'w', weeks)
      ∷ (b'M', λ n. days (times_30 n))
      ∷ (b'o', λ n. days (times_30 n))
      ∷ []

  -- A count of the unit that a table gives the character, which panics out of range; nothing if the
  -- table has no such unit.
  abbrev pub in_units : List (ℕ × (ℤ → Option Duration)) → ℕ → ℕ → Run (Option Duration)
  in_units [] unit n = done none
  in_units ((c, make) ∷ table) unit n =
      if unit == c
      then (elim (make (pos n)) [ none ↦ panicked | some d ↦ done (some d) ])
      else in_units table unit n

  of_unit-units : (unit n : ℕ) → of_unit ch unit (pos n) ≡ in_units units unit n
  unfolding of_unit
  of_unit-units unit n = ground arith

  -- A number below 2^63 in decimal, followed by one character, is read as that many seconds for s,
  -- minutes for m, hours for h, days for d, weeks for w, and thirty times as many days, modulo 2^64,
  -- for M and o; it panics if the duration is out of range or the character is not ASCII, and any
  -- other character gives nothing.
  pub parse_duration-decimal :
      (n unit : ℕ)
      → n < i64_limit
      → parse_duration_to_chrono ch (some (decimal n ++ (unit ∷ [])))
        ≡ (if leb 128 unit then panicked else in_units units unit n)
  unfolding parse_duration_to_chrono decimal
  parse_duration-decimal n unit fits =
      let (c, s, e) = digits_from-cons 19 n [] in
      let read =
        sym (ap (parse_digits 0) e) ∙ parse_digits-digits_from 19 n [] (omega (arith, fits)) in
      rw (decimal, e)
        (ap (of_split ch) (split_last-snoc c s unit)
          ∙ (of_split_lem c s unit n (parse_i64-digits c s n read fits)
              ∙ ap (λ d. if leb 128 unit then panicked else d) (of_unit-units unit n)))
