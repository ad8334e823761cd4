-- ===== src/Prelude/Words.antt =====
-- The moduli of the machine words, and the atomics' arithmetic: `fetch_add` and `fetch_sub` wrap.
use Prim.Native.Nat.{ℕ, ◌+◌, ◌-◌, ◌%◌}
use polyglotmesh.Prelude.Tests.{leb, if◌then◌else◌}

abbrev pub u32_mod : ℕ
u32_mod = 4294967296

abbrev pub u64_mod : ℕ
u64_mod = 18446744073709551616

abbrev pub add32 : ℕ → ℕ → ℕ
add32 a b = (a + b) % u32_mod

abbrev pub sub32 : ℕ → ℕ → ℕ
sub32 a b = (a + u32_mod - b) % u32_mod

abbrev pub add64 : ℕ → ℕ → ℕ
add64 a b = (a + b) % u64_mod

abbrev pub sub64 : ℕ → ℕ → ℕ
sub64 a b = (a + u64_mod - b) % u64_mod

-- `saturating_add` on u64.
abbrev pub saturating_add : ℕ → ℕ → ℕ
saturating_add a b = if leb u64_mod (a + b) then u64_mod - 1 else a + b
