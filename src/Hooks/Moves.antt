-- ===== src/Hooks/Moves.antt =====
-- WorkingHooks.cpp: `Hooked_RtlReAllocateHeap` and `Hooked_HeapReAlloc`, and `Hooked_RtlCreateHeap`.
-- A copy is the address that it reads from and its bytes.
pub mod Frees
use ts3vasmanager.ProxyAllocator.Arena.{is_proxy_address}
use ts3vasmanager.MemoryManager.Proxy.{
  AllocRecord, Manager, Call, create_proxy_allocation, free_proxy_allocation,
  find_record_by_address,
}
use ts3vasmanager.Hooks.Switches.{Surroundings, heap_capture_threshold}
use ts3vasmanager.Hooks.Heap.{
  Heaps, count_heap, capture_gate, read_force_heap, heap_bypassed, heap_enter, heap_leave,
  realloc_handled, realloc_large,
}
use ts3vasmanager.Hooks.Shards.{proxy_heap_shard_of, proxy_heap_route, note_exec_heap}
use ts3vasmanager.ContainmentLane.{contained_a}
use ts3vasmanager.Prelude.{
  ℕ, min, Bool, true, false, not, Option, none, some, ltb, leb, ◌&&◌, ◌||◌, ◌==◌, if◌then◌else◌,
}

-- One reallocation: its arguments; what `CreateProxyAllocation` meets; the answers of the real
-- allocation and reallocation; the pages and the reallocations of the shards; the size of the block
-- in its real heap, if that is known.
pub record Move : Type 0 where
  pub block : ℕ
  pub size : ℕ
  pub bootstrapping : Bool
  pub surroundings : Surroundings
  pub create : Call
  pub real_alloc : Option ℕ
  pub real_realloc : Option ℕ
  pub committed : ℕ → Bool
  pub shard_realloc : ℕ → Option ℕ
  pub old_size : Option ℕ

-- What a reallocation answers: the new block, the copy, and whether the block in its real heap was
-- freed.
pub record Moved : Type 0 where
  pub new_block : Option ℕ
  pub copied : Option (ℕ × ℕ)
  pub real_freed : Bool

abbrev pub plain : Option ℕ → Moved
plain p = record { new_block = p; copied = none; real_freed = false }

abbrev pub move_call : Move → Call
move_call c = record c.create { size = c.size; protect = 4; lane = contained_a }

unfoldable pub either_block : Option ℕ → Option ℕ → Option ℕ
either_block none q = q
either_block (some p) q = some p

-- The copy out of the slot that holds the block.
unfoldable pub copy_of : ℕ → Option AllocRecord → Option (ℕ × ℕ)
copy_of size none = none
copy_of size (some r) =
    if not (r.proxy_base == 0) && (ltb 0 r.proxy_size && ltb 0 size)
    then some (r.proxy_base, min r.proxy_size size)
    else none

-- The slot of the block is freed, whether there is a new block or not.
unfoldable pub finish_move : Bool → Move → Option ℕ → Heaps → Moved × Heaps
finish_move counted c none h =
    (plain none, record h { manager = (free_proxy_allocation c.block h.manager).1 })
finish_move counted c (some p) h =
    let freed = record h { manager = (free_proxy_allocation c.block h.manager).1 } in
    (
      record {
        new_block = some p;
        copied = copy_of c.size (find_record_by_address c.block h.manager);
        real_freed = false;
      },
      if counted then count_heap realloc_handled freed else freed,
    )

-- A new slot for the block, if the gate lets it.
unfoldable pub new_slot : Move → Heaps → Option ℕ × Heaps
new_slot c h =
    let gate = capture_gate c.surroundings c.size h in
    let r = create_proxy_allocation (move_call c) gate.1.manager in
    if gate.0 && (gate.1.switches.proxy_active && not gate.1.switches.shutting_down)
    then (r.0, record gate.1 { manager = r.1 })
    else (none, gate.1)

unfoldable pub move_slot : Bool → Move → Heaps → Moved × Heaps
move_slot counted c h =
    let r = new_slot c h in finish_move counted c (either_block r.0 c.real_alloc) r.1

-- The block in a shard.
unfoldable pub move_in_shard : Move → Option ℕ → Moved
move_in_shard c none = plain none
move_in_shard c (some handle) = plain (c.shard_realloc handle)

-- The real path of `Hooked_RtlReAllocateHeap`.
unfoldable pub count_large : Move → Heaps → Heaps
count_large c h = elim c.real_realloc [
  | none ↦ h
  | some p ↦ if leb heap_capture_threshold c.size then count_heap realloc_large h else h
]

unfoldable pub rtl_move : Move → Heaps → Moved × Heaps
rtl_move c h = elim (proxy_heap_shard_of c.block h.shards) [
  | some i ↦ (move_in_shard c (proxy_heap_route c.committed c.block h.shards), h)
  | none ↦
      if not (c.block == 0) && is_proxy_address h.manager.proxy c.block
      then move_slot true c h
      else (plain c.real_realloc, heap_leave (count_large c (heap_enter h)))
]

-- `Hooked_RtlReAllocateHeap`
unfoldable pub hooked_rtl_reallocate_heap : Move → Heaps → Moved × Heaps
hooked_rtl_reallocate_heap c h =
    if heap_bypassed c.bootstrapping h then (plain c.real_realloc, h) else rtl_move c h

-- The thread's flags around a Win32 call.
unfoldable pub flag_in : Heaps → Heaps
flag_in h = record h { tl_hook_active = true; in_hook = true }

unfoldable pub flag_out : Heaps → Heaps
flag_out h = record h { tl_hook_active = false; in_hook = false }

-- A new slot for a block of a real heap, whose content is copied before that block is freed.
unfoldable pub settle_capture_move : Move → Option ℕ × Manager → Heaps → Moved × Heaps
settle_capture_move c (none, m) h = (plain c.real_realloc, record h { manager = m })
settle_capture_move c (some p, m) h = (
  record {
    new_block = some p;
    copied =
        if c.block == 0
        then none
        else elim c.old_size [ none ↦ none | some old ↦ some (c.block, min old c.size) ];
    real_freed = not (c.block == 0);
  },
  record h { manager = m },
)

-- The gate of the forced capture in the Win32 hooks.
unfoldable pub forced : Surroundings → ℕ → Heaps → Bool × Heaps
forced env size h =
    if leb h.heap_proxy_min size && h.switches.proxy_active
    then read_force_heap env h
    else (false, h)

unfoldable pub capture_move : Move → Heaps → Moved × Heaps
capture_move c h =
    let gate = forced c.surroundings c.size h in
    if gate.0
    then settle_capture_move c (create_proxy_allocation (move_call c) gate.1.manager) gate.1
    else (plain c.real_realloc, gate.1)

unfoldable pub win32_move : Move → Heaps → Moved × Heaps
win32_move c h =
    let r = capture_move c (flag_in h) in
    if heap_bypassed c.bootstrapping h then (plain c.real_realloc, h) else (r.0, flag_out r.1)

-- `Hooked_HeapReAlloc`
unfoldable pub hooked_heap_re_alloc : Move → Heaps → Moved × Heaps
hooked_heap_re_alloc c h = elim (proxy_heap_shard_of c.block h.shards) [
  | some i ↦ (move_in_shard c (proxy_heap_route c.committed c.block h.shards), h)
  | none ↦
      if not (c.block == 0) && is_proxy_address h.manager.proxy c.block
      then move_slot false c h
      else win32_move c h
]

-- `Hooked_RtlCreateHeap`: the heap that was created, and its flag for executable memory.
unfoldable pub hooked_rtl_create_heap : Bool → Option ℕ → Bool → Heaps → Option ℕ × Heaps
hooked_rtl_create_heap bootstrapping none executable h = (none, h)
hooked_rtl_create_heap bootstrapping (some heap) executable h =
    if heap_bypassed bootstrapping h || not executable
    then (some heap, h)
    else (some heap, record h { exec_heaps = note_exec_heap heap h.exec_heaps })
