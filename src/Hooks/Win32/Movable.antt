-- ===== src/Hooks/Win32/Movable.antt =====
-- The movable allocations get blocks of the real heap.
use ts3vasmanager.Hooks.Win32.{suppressed}
use ts3vasmanager.Prelude.{true, false, arith, ◌≡◌, if◌then◌else◌, refl, ap, Bool}
use ts3vasmanager.Hooks.Heap.{Heaps, HeapAlloc, heap_bypassed, hooked_rtl_allocate_heap}
use ts3vasmanager.Hooks.Moves.{Move, plain, hooked_rtl_reallocate_heap}

-- What the wrapper makes of the mark, when the real function leaves it set.
marks :
    (b : Bool) (h : Heaps)
    → (if b then record h { in_hook = true } else record h { in_hook = false })
      ≡ record h { in_hook = b }
marks true h = refl
marks false h = refl

-- A real function that a marked thread runs without an effect.
suppressed-plain {ℓ} :
    {A : Type ℓ} (real : Heaps → A × Heaps) (x : A) (h : Heaps)
    → ((g : Heaps) → g.in_hook ≡ true → real g ≡ (x, g))
    → suppressed real h ≡ (x, h)
unfolding suppressed
suppressed-plain real x h e =
    rw (e (record h { in_hook = true }) refl) (ap (λ g. (x, g)) (marks h.in_hook h))

allocate-bypassed :
    (c : HeapAlloc) (h : Heaps) → h.in_hook ≡ true → hooked_rtl_allocate_heap c h ≡ (c.real, h)
unfolding hooked_rtl_allocate_heap heap_bypassed
allocate-bypassed c h e = ground arith

move-bypassed :
    (c : Move) (h : Heaps)
    → h.in_hook ≡ true
    → hooked_rtl_reallocate_heap c h ≡ (plain c.real_realloc, h)
unfolding hooked_rtl_reallocate_heap heap_bypassed
move-bypassed c h e = ground arith

-- In every state, a movable allocation whose real function calls the hook of `RtlAllocateHeap`, and
-- a movable reallocation whose real function calls the hook of `RtlReAllocateHeap`, get the answer
-- of the real heap, never a block of the arena or of a shard, and leave the state as it was, the
-- thread's mark included.
pub suppressed-real :
    (c : HeapAlloc) (d : Move) (h : Heaps)
    → (suppressed (hooked_rtl_allocate_heap c) h ≡ (c.real, h))
      × (suppressed (hooked_rtl_reallocate_heap d) h ≡ (plain d.real_realloc, h))
suppressed-real c d h = (
  suppressed-plain (hooked_rtl_allocate_heap c) c.real h (allocate-bypassed c),
  suppressed-plain (hooked_rtl_reallocate_heap d) (plain d.real_realloc) h (move-bypassed d),
)
