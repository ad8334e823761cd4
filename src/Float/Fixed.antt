-- ===== src/Float/Fixed.antt =====
-- Decimal fixed point in place of f64, for runs of the model on concrete inputs: a number counts
-- units of 10^-12, and a subtraction stops at zero.
use polyglotmesh.Prelude.{ℕ, pos, pos_part, ◌+◌, ◌-◌, ◌*◌, ◌/◌, leb, min}
use Prim.Native.Nat.{◌^◌}
use polyglotmesh.Float.{Float}

abbrev pub unit : ℕ
unit = 1_000_000_000_000

abbrev pub fixed : Float
fixed = record {
  F = ℕ;
  lit = λ m e. m * unit / 10 ^ e;
  infinity = 1_000_000 * unit;
  add = λ a b. a + b;
  sub = λ a b. a - b;
  mul = λ a b. a * b / unit;
  div = λ a b. a * unit / b;
  minimum = λ a b. min a b;
  le = leb;
  of_nat = λ n. n * unit;
  to_u64 = λ a. a / unit;
  of_int = λ z. pos_part z * unit;
  to_i64 = λ a. pos (a / unit);
  as_secs = λ ns. ns * 1000;
}
