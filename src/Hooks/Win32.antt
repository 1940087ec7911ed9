-- ===== src/Hooks/Win32.antt =====
-- WorkingHooks.cpp: `Hooked_HeapAlloc` and `Hooked_HeapFree`, and the wrappers of the movable
-- allocations, `Hooked_GlobalAlloc`, `Hooked_GlobalReAlloc`, `Hooked_LocalAlloc` and
-- `Hooked_LocalReAlloc`. The real functions are there. A caller of `HeapFree` gives the block and
-- what the real function answers; `s_heapFreeOkCount` is an event.
pub mod Movable
pub mod Releases
use ts3vasmanager.Prelude.{
  ℕ, Bool, true, false, not, Option, none, some, ltb, ◌*◌, ◌&&◌, ◌==◌, if◌then◌else◌,
}
use ts3vasmanager.ProxyAllocator.Arena.{is_proxy_address}
use ts3vasmanager.MemoryManager.Proxy.{Manager, create_proxy_allocation, free_proxy_allocation}
use ts3vasmanager.Hooks.Heap.{
  Heaps, HeapAlloc, count_heap, heap_bypassed, shard_free, heap_free_proxy, heap_free_ok,
  corral_call, settle_shard, or_next,
}
use ts3vasmanager.Hooks.Shards.{
  Shards, ShardAlloc, got, all_full, out_of_bounds, proxy_heap_alloc, proxy_heap_route,
  is_exec_heap,
}
use ts3vasmanager.Hooks.HeapUse.{record_heap_use, heap_is_sardine_excluded}
use ts3vasmanager.Hooks.Moves.{flag_in, flag_out, forced}

-- The gate of the shards: unlike that of `Hooked_RtlAllocateHeap` it has no test for audio modules.
unfoldable pub win32_gate : HeapAlloc → Heaps → Bool
win32_gate c h =
    h.shards.enabled
    && (ltb 0 c.size
        && (ltb c.size (64 * 1024)
            && (not (is_exec_heap c.heap h.exec_heaps)
                && (not (heap_is_sardine_excluded c.heap h.uses) && not c.caller_is_graphics))))

unfoldable pub settle_win32 : HeapAlloc → ShardAlloc × Shards → Heaps → Option ℕ × Heaps
settle_win32 c (got p, s) h = settle_shard c (got p, s) h
settle_win32 c (all_full, s) h = (none, record h { shards = s })
settle_win32 c (out_of_bounds, s) h = (none, record h { shards = s })

unfoldable pub shards_win32 : HeapAlloc → Heaps → Option ℕ × Heaps
shards_win32 c h =
    if win32_gate c h
    then settle_win32 c (proxy_heap_alloc c.committed c.block h.shards) h
    else (none, h)

-- The forced capture, with the lane that `CreateProxyAllocation` has by default.
unfoldable pub settle_forced : Option ℕ × Manager → Heaps → Option ℕ × Heaps
settle_forced (p, m) h = (p, record h { manager = m })

unfoldable pub forced_capture : HeapAlloc → Heaps → Option ℕ × Heaps
forced_capture c h =
    let gate = forced c.surroundings c.size h in
    if gate.0
    then settle_forced (create_proxy_allocation (corral_call c) gate.1.manager) gate.1
    else (none, gate.1)

unfoldable pub serve_win32 : HeapAlloc → Heaps → Option ℕ × Heaps
serve_win32 c h =
    let seen = record h { uses = (record_heap_use c.heap c.size c.heap_module h.uses).1 } in
    or_next (λ g. (c.real, g)) (or_next (forced_capture c) (shards_win32 c seen))

-- `Hooked_HeapAlloc`
unfoldable pub hooked_heap_alloc : HeapAlloc → Heaps → Option ℕ × Heaps
hooked_heap_alloc c h =
    let r = serve_win32 c (flag_in h) in
    if heap_bypassed c.bootstrapping h then (c.real, h) else (r.0, flag_out r.1)

unfoldable pub free_win32 : ℕ → Bool → Bool → Heaps → Bool × Heaps
free_win32 p bootstrapping real h =
    let counted = if real then count_heap heap_free_ok (flag_in h) else flag_in h in
    if not (p == 0) && is_proxy_address h.manager.proxy p
    then (
      true,
      count_heap heap_free_proxy (record h { manager = (free_proxy_allocation p h.manager).1 }),
    )
    else (real, if heap_bypassed bootstrapping h then h else flag_out counted)

-- `Hooked_HeapFree`. The shards are asked before any test of the thread's flags.
unfoldable pub hooked_heap_free : (ℕ → Bool) → ℕ → Bool → Bool → Heaps → Bool × Heaps
hooked_heap_free committed p bootstrapping real h = elim (proxy_heap_route committed p h.shards) [
  | some handle ↦ (true, count_heap shard_free h)
  | none ↦ free_win32 p bootstrapping real h
]

-- The four wrappers run the real function with the thread marked as in a hook, and restore the mark.
-- The real function is an argument: it calls the heap's functions, which are hooked.
unfoldable pub suppressed {ℓ} : {A : Type ℓ} → (Heaps → A × Heaps) → Heaps → A × Heaps
suppressed real h =
    let r = real (record h { in_hook = true }) in
    (r.0, if h.in_hook then r.1 else record r.1 { in_hook = false })
