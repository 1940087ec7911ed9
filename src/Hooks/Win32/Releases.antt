-- ===== src/Hooks/Win32/Releases.antt =====
-- What `HeapFree` leaves of the records and of the arena.
use ts3vasmanager.Hooks.Moves.{flag_in, flag_out}
use ts3vasmanager.ProxyAllocator.Arena.{is_proxy_address}
use ts3vasmanager.Prelude.{
  ℕ, Bool, none, ◌<◌, ◌≡◌, inl, inr, not, Bool-cases, ◌&&◌, ◌==◌, refl, false, arith, if◌then◌else◌,
}
use ts3vasmanager.MemoryManager.Proxy.Records.{IsManaged}
use ts3vasmanager.Hooks.Moves.Frees.{Gone, outside-none, free-Gone}
use ts3vasmanager.Hooks.Win32.{free_win32, hooked_heap_free}
use ts3vasmanager.Hooks.Heap.{Heaps, count_heap, heap_bypassed, heap_free_ok}
use ts3vasmanager.Hooks.Shards.{proxy_heap_route}

-- What a release leaves.
abbrev Left : ℕ → Heaps → Heaps → Type 0
Left p h h' = Gone p h'.manager × (h'.tl_hook_active ≡ h.tl_hook_active) × (h'.in_hook ≡ h.in_hook)

-- A call that is not bypassed was entered with the flags clear.
entered :
    (b : Bool) (h : Heaps)
    → heap_bypassed b h ≡ false
    → (false ≡ h.tl_hook_active) × (false ≡ h.in_hook)
unfolding heap_bypassed
entered b h e = (ground arith, ground arith)

real-Left :
    (p : ℕ) (b real : Bool) (h : Heaps)
    → Gone p h.manager
    → Left p h (
        if heap_bypassed b h
        then h
        else flag_out (if real then count_heap heap_free_ok (flag_in h) else flag_in h))
unfolding flag_in flag_out count_heap
real-Left p b real h g = elim (Bool-cases (heap_bypassed b h)) [
  | inl past ↦ rw past (g, refl, refl)
  | inr through ↦ elim (Bool-cases real) [
    | inl freed ↦ rw (through, freed) (g, (entered b h through).0, (entered b h through).1)
    | inr refused ↦ rw (through, refused) (g, (entered b h through).0, (entered b h through).1)
  ]
]

free_win32-Left :
    (p : ℕ) (b real : Bool) (h : Heaps)
    → IsManaged h.manager
    → 0 < p
    → Left p h (free_win32 p b real h).1
unfolding free_win32 count_heap
free_win32-Left p b real h k pos =
    elim (Bool-cases (not (p == 0) && is_proxy_address h.manager.proxy p)) [
      | inl inside ↦ rw inside (free-Gone p h.manager k, refl, refl)
      | inr outside ↦
          let out : is_proxy_address h.manager.proxy p ≡ false = ground arith in
          rw outside (real-Left p b real h (k, outside-none p h.manager k out))
    ]

-- `HeapFree` of a block that is in no shard keeps the records exactly the live slots of the arena,
-- leaves none at the address of the block, and leaves the thread's flags as they were, on every
-- branch.
pub hooked_heap_free-Gone :
    (committed : ℕ → Bool) (p : ℕ) (bootstrapping real : Bool) (h : Heaps)
    → IsManaged h.manager
    → 0 < p
    → proxy_heap_route committed p h.shards ≡ none
    → let h' = (hooked_heap_free committed p bootstrapping real h).1 in
      Gone p h'.manager × (h'.tl_hook_active ≡ h.tl_hook_active) × (h'.in_hook ≡ h.in_hook)
unfolding hooked_heap_free
hooked_heap_free-Gone committed p b real h k pos out =
    rw (out, hooked_heap_free) (free_win32-Left p b real h k pos)
