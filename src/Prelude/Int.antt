-- ===== src/Prelude/Int.antt =====
-- Signed machine integers (i32, i64) as integers: `pos n` is n and `negsuc n` is -(n + 1). Sums go
-- through the two parts of an integer, which are numbers.
use Prim.Native.Nat.{ℕ, suc, ◌+◌, ◌-◌, ◌%◌}
use mathlib.Core.Path.{◌≡◌}
use native.Mathlib.Omega.{arith}
use mathlib.Core.Bool.{Bool}
use polyglotmesh.Prelude.Tests.{leb, ltb, if◌then◌else◌}

pub data ℤ : Type 0 where
  pos : ℕ → ℤ
  negsuc : ℕ → ℤ

abbrev pub pos_part : ℤ → ℕ
pos_part (pos n) = n
pos_part (negsuc n) = 0

abbrev pub neg_part : ℤ → ℕ
neg_part (pos n) = 0
neg_part (negsuc n) = suc n

-- a - b, as an integer.
abbrev pub sub_ℕ : ℕ → ℕ → ℤ
sub_ℕ a b = if leb b a then pos (a - b) else negsuc (b - a - 1)

infixl 65 ◌+ℤ◌
unfoldable pub ◌+ℤ◌ : ℤ → ℤ → ℤ
a +ℤ b = sub_ℕ (pos_part a + pos_part b) (neg_part a + neg_part b)

pub +ℤ_comm : (a b : ℤ) → a +ℤ b ≡ b +ℤ a
unfolding ◌+ℤ◌
+ℤ_comm a b = ground arith

pub +ℤ_assoc : (a b c : ℤ) → a +ℤ b +ℤ c ≡ a +ℤ (b +ℤ c)
unfolding ◌+ℤ◌
+ℤ_assoc a b c = ground arith

-- `as u64` and `as u32` of an i64.
abbrev pub to_word : ℕ → ℤ → ℕ
to_word m (pos n) = n % m
to_word m (negsuc n) = m - 1 - n % m

-- `as i64` of a u64.
abbrev pub as_i64 : ℕ → ℤ
as_i64 n =
    if leb 9_223_372_036_854_775_808 n then negsuc (18_446_744_073_709_551_616 - n - 1) else pos n

-- Within the range of i64.
abbrev pub is_i64 : ℤ → Bool
is_i64 (pos n) = ltb n 9_223_372_036_854_775_808
is_i64 (negsuc n) = ltb n 9_223_372_036_854_775_808

-- A sum of two numbers, from what they and their sum are.
pub +ℤ-pos : (z : ℤ) (t n m : ℕ) → z ≡ pos t → m ≡ t + n → z +ℤ pos n ≡ pos m
unfolding ◌+ℤ◌
+ℤ-pos z t n m e f = ground (arith, e, f)

pub +ℤ-zero : (a : ℤ) → a +ℤ pos 0 ≡ a
unfolding ◌+ℤ◌
+ℤ-zero (pos n) = ground arith
+ℤ-zero (negsuc n) = ground arith
