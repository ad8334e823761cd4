-- ===== src/Storage/Cells.antt =====
-- src/storage.rs: the columns that are declared INTEGER and that a statement adds to. SQLite adds two
-- integers as i64 and, where the sum leaves that range, adds them as REAL; the column keeps a REAL
-- that is no integer strictly between the bounds of i64, and turns any other into that integer.
use polyglotmesh.Prelude.{
  ℕ, ℤ, pos, negsuc, ◌+◌, ◌+ℤ◌, ◌<◌, ◌≡◌, refl, Bool, true, ◌&&◌, Option, none, some, ltb, is_i64,
  arith, if◌then◌else◌,
}
use polyglotmesh.Float.{Float}

-- What a column of a row holds.
pub data Cell (F : Type 0) : Type 0 where
  int : ℤ → Cell F
  real : F → Cell F

-- The column as a query reads an i64: `none` is rusqlite's error for a REAL.
abbrev pub as_int : {F : Type 0} → Cell F → Option ℤ
as_int (int n) = some n
as_int (real x) = none

-- Strictly between the least and the greatest i64.
abbrev pub is_inner : ℤ → Bool
is_inner (pos n) = ltb n 9_223_372_036_854_775_807
is_inner (negsuc n) = ltb n 9_223_372_036_854_775_807

module _ (fl : Float) where
  open fl use {F, add, le, of_int, to_i64}

  -- A REAL that is stored in a column declared INTEGER.
  unfoldable pub store_real : F → Cell F
  store_real x =
      let n = to_i64 x in if le x (of_int n) && le (of_int n) x && is_inner n then int n else real x

  -- `column = column + ?`, with an i64.
  unfoldable pub add_cell : Cell F → ℤ → Cell F
  unfolding store_real
  add_cell (int a) b =
      if is_i64 (a +ℤ b) then int (a +ℤ b) else store_real (add (of_int a) (of_int b))
  add_cell (real x) b = store_real (add x (of_int b))

  pub add_cell-int : (a b : ℤ) → is_i64 (a +ℤ b) ≡ true → add_cell (int a) b ≡ int (a +ℤ b)
  unfolding add_cell
  add_cell-int a b e = rw e refl

  -- A count that stays below 2^63.
  pub add_cell-pos :
      (c : Cell F) (t n m : ℕ)
      → c ≡ int (pos t)
      → m ≡ t + n
      → m < 9_223_372_036_854_775_808
      → add_cell c (pos n) ≡ int (pos m)
  unfolding add_cell ◌+ℤ◌
  add_cell-pos c t n m e f fits = rw (e, f) (ground (arith, f, fits))
