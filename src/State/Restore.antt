-- ===== src/State/Restore.antt =====
-- src/state.rs: what a restart restores of a histogram.
use polyglotmesh.Prelude.{
  ℕ, ◌≤◌, ◌<◌, ◌≡◌, ◌∙◌, sym, ap, some, List, [], ◌∷◌, Text, codes, length, arith, u64_mod,
}
use polyglotmesh.Error.{decimal}
use polyglotmesh.Auth.Durations.{parse_digits, parse_below}
use polyglotmesh.Auth.Parse.{digit_read, digits_from-cons, parse_digits-digits_from}
use polyglotmesh.Metrics.Histogram.{Histogram}
use polyglotmesh.State.{parse_usize, restore_histogram}

parse_usize-digits :
    (c : ℕ) (s : Text) (n : ℕ)
    → parse_digits 0 (c ∷ s) ≡ some n
    → n < u64_mod
    → parse_usize (c ∷ s) ≡ some n
unfolding parse_usize parse_below
parse_usize-digits c s n e fits =
    let (low, high) = digit_read c n s e in
    rw (parse_usize, parse_below, e) (ground (arith, low, high, fits))

-- `parse::<usize>` reads back a u64 in decimal.
parse_usize-decimal : (n : ℕ) → n < u64_mod → parse_usize (decimal n) ≡ some n
unfolding decimal parse_digits
parse_usize-decimal n fits =
    let (c, s, e) = digits_from-cons 19 n [] in
    let read =
      sym (ap (parse_digits 0) e) ∙ parse_digits-digits_from 19 n [] (omega (arith, fits)) in
    rw e (parse_usize-digits c s n read fits)

-- A row that names its bucket by a bound that is no smaller than the number of buckets
-- restores nothing.
pub restore_histogram-bound :
    (h : Histogram) (le v : ℕ) (labels : List (Text × Text))
    → length h.counts ≤ le
    → le < u64_mod
    → restore_histogram h ((codes "le_us", decimal le) ∷ labels) v ≡ h
unfolding restore_histogram
restore_histogram-bound h le v labels far fits =
    rw (restore_histogram, parse_usize-decimal le fits) (ground (arith, far))
