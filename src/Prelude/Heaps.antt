-- ===== src/Prelude/Heaps.antt =====
-- Shared objects (`Arc`): an address in a heap.
use Prim.Native.Nat.{ℕ, ◌+◌}
use polyglotmesh.Prelude.Tests.{◌==◌, if◌then◌else◌}

-- The heap of shared objects, at the addresses below `next`.
pub record Heap (A : Type 0) : Type 0 where
  pub at : ℕ → A
  pub next : ℕ

module _ {A : Type 0} where
  abbrev pub write : Heap A → ℕ → A → Heap A
  write h p a = record h { at = λ q. if q == p then a else h.at q }

  -- `Arc::new`: the address and the heap that holds the new object.
  abbrev pub alloc : Heap A → A → ℕ × Heap A
  alloc h a = (h.next, record h { at = λ q. if q == h.next then a else h.at q; next = h.next + 1 })
