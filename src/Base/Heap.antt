-- ===== src/Base/Heap.antt =====
-- `heap_malloc` and `heap_free` (src/common/heap.c), which pass on to the C library's allocator.
-- The allocator is not part of the program: its answers are an input, a list in the order of the
-- calls, in which `false` is a null pointer; when the list is used up, every call succeeds.
-- An address is a number that no earlier allocation returned.
use Prim.Native.Nat.{ℕ, suc, ◌<◌}
use mathlib.Core.Path.{◌≡◌, refl}
use mathlib.Core.Bool.{Bool, true, false}
use mathlib.Core.Option.{Option, none, some}
use mathlib.Core.List.{List, [], ◌∷◌}

-- `fill` is the byte that fresh memory happens to hold.
pub record Heap : Type 0 where
  pub next : ℕ
  pub answers : List Bool
  pub fill : ℕ

answer : List Bool → Heap → Option ℕ × Heap
answer [] h = (some h.next, record h { next = suc h.next; answers = [] })
answer (true ∷ r) h = (some h.next, record h { next = suc h.next; answers = r })
answer (false ∷ r) h = (none, record h { answers = r })

unfoldable pub heap_malloc : Heap → Option ℕ × Heap
unfolding answer
heap_malloc h = answer h.answers h

-- While no allocation fails, the next address is returned.
pub heap_malloc-ok :
    (h : Heap)
    → h.answers ≡ []
    → heap_malloc h ≡ (some h.next, record { next = suc h.next; answers = []; fill = h.fill })
unfolding heap_malloc answer
heap_malloc-ok h e = rw e refl

-- Allocations that give the next address, and after which none fails still.
abbrev pub Allocated : Heap → Heap → Type 0
Allocated heap heap' = (heap'.answers ≡ []) × (heap.next < heap'.next)
