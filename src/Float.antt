-- ===== src/Float.antt =====
-- The arithmetic on f64 that the router uses. The numbers are abstract: a statement that needs a
-- law of IEEE 754 names it as a hypothesis.
pub mod Fixed
use polyglotmesh.Prelude.{ℕ, ℤ, Bool}

pub record Float : Type 1 where
  -- f64
  pub F : Type 0
  -- the literal m * 10^-e
  pub lit : ℕ → ℕ → F
  pub infinity : F
  pub add : F → F → F
  pub sub : F → F → F
  pub mul : F → F → F
  pub div : F → F → F
  -- `f64::min`
  pub minimum : F → F → F
  -- `a <= b`, false on NaN
  pub le : F → F → Bool
  -- `n as f64`
  pub of_nat : ℕ → F
  -- `x as u64`
  pub to_u64 : F → ℕ
  -- `n as f64` and `x as i64`
  pub of_int : ℤ → F
  pub to_i64 : F → ℤ
  -- `Duration::as_secs_f64` of a count of nanoseconds
  pub as_secs : ℕ → F
