-- ===== src/Examples/Hooks.antt =====
-- The hooks of the virtual memory at concrete inputs.

use ts3vasmanager.ProxyAllocator.Arena.Granularity.{allocate-granularity}
use ts3vasmanager.ProxyAllocator.Arena.Ledger.{Allocated, allocate-Allocated}
use ts3vasmanager.ProxyAllocator.SizeClasses.{pop_size_class}
use ts3vasmanager.ProxyAllocator.Arena.Valid.{IsRequest, IsLedger}
use ts3vasmanager.ProxyAllocator.Init.Fresh.{IsReservation, new_arena-IsNew, initialize-IsLedger}
use ts3vasmanager.ProxyAllocator.Init.{
  choose_granularity, new_arena, init_node_pool, adopt, first_block, after_pool,
}
use ts3vasmanager.ProxyAllocator.Align.{align_up}
use ts3vasmanager.ProxyAllocator.FreeList.{
  insert_free_sorted_and_coalesce, insert_after, insert_sorted, coalesce_from, coalesce,
  carve_start, take_first, take_free_fit,
}
use ts3vasmanager.ProxyAllocator.Arena.{
  allocate, Arena, is_proxy_address, grant, carve, take_fit, finish_carve, allocate_fresh,
}
use ts3vasmanager.MemoryManager.Corral.{Corral}
use ts3vasmanager.Hooks.Switches.{Surroundings, new_switches}
use ts3vasmanager.Hooks.VatTable.Abstract.{
  track, untrack, empty_spec, run, spec_run, no_slots, spec_track, update,
}
use ts3vasmanager.Hooks.VatTable.Refine.{run-spec, new_vat-Refines}
use ts3vasmanager.Hooks.VatTable.{new_vat, vat_track}
use ts3vasmanager.Hooks.Virtual.Ledger.{Shared, slot_at, grant-IsShared}
use ts3vasmanager.Hooks.Virtual.Serve.{Served, hooked_virtual_alloc-Served}
use ts3vasmanager.Hooks.Virtual.Free.{Released, hooked_virtual_free-Released}
use ts3vasmanager.Hooks.Virtual.{
  Hooks, Alloc, Release, hooked_virtual_alloc, hooked_virtual_free, bypassed,
}
use ts3vasmanager.Hooks.Native.Flag.{nt_allocate-deaf}
use ts3vasmanager.Hooks.Native.Served.{NtServed, nt_allocate-NtServed}
use ts3vasmanager.Hooks.Native.{NtAlloc, hooked_nt_allocate}
use ts3vasmanager.Hooks.Modules.{game_exe}
use ts3vasmanager.ProxyAllocator.Init.{initialize}
use ts3vasmanager.Prelude.{ℕ, refl, true, false, none, [], arith, ◌≡◌, ◌∷◌, subst, Option, some}

fresh_first : no_slots 0x10000 ≡ none
unfolding no_slots
fresh_first = refl

fresh_second : (spec_track 0x10000 0x2000 empty_spec).live 0x30000 ≡ none
unfolding spec_track update no_slots
fresh_second = refl

-- Two slots are tracked, one is released twice.
run-spec_example :
    run
      (track 0x10000 0x2000 ∷ track 0x30000 0x4000 ∷ untrack 0x10000 ∷ untrack 0x10000 ∷ [])
      new_vat
    ≡ spec_run
        (track 0x10000 0x2000 ∷ track 0x30000 0x4000 ∷ untrack 0x10000 ∷ untrack 0x10000 ∷ [])
        empty_spec
run-spec_example =
    run-spec (track 0x10000 0x2000 ∷ track 0x30000 0x4000 ∷ untrack 0x10000 ∷ untrack 0x10000 ∷ [])
      (fresh_first, (fresh_second, tt))

abbrev plain_surroundings : Surroundings
plain_surroundings = record {
  passive_env = none;
  passive_file = false;
  force_env = none;
  force_heap_env = none;
}

abbrev no_corral : Corral
no_corral = record {
  segments = [];
  start_bytes = 0;
  grow_floor = 0;
  max_reserved = 0;
  total_reserved = 0;
  sizes = [];
  peak_bytes = 0;
  ready = false;
}

abbrev hooks : Hooks
hooks = record {
  arena = (initialize 0x2000000 0x10000000 0x100000 (new_arena 4096 none none)).1;
  proxy_max_bytes = 0;
  corral = no_corral;
  vat = new_vat;
  diagnostics = record { records = []; count = 0 };
  switches = new_switches;
  tl_hook_active = false;
  in_hook = false;
  active_hook_calls = 0;
  events = [];
}

-- A reserve of 128 KB, committed.
abbrev alloc : Alloc
alloc = record {
  address = 0;
  size = 0x20000;
  type = 0x3000;
  protect = 4;
  bootstrapping = false;
  surroundings = plain_surroundings;
  caller = game_exe;
  commits = true;
  real = 0;
  zone = record { reserved = 0; fresh = none; pool_mem = 0 };
  corral_commits = false;
  tick = 5;
  ret_addr = 0x401000;
  module_name = [];
}

reserved : IsReservation (new_arena 4096 none none).alloc_granularity 0x10000000 0x100000
unfolding new_arena choose_granularity align_up
reserved = record {
  placed = omega arith;
  aligned = refl;
  not_empty = omega arith;
  unwrapped = omega arith;
  low = omega arith;
}

hooks-Shared : Shared hooks empty_spec []
unfolding no_slots
hooks-Shared = record {
  ledger =
      (initialize-IsLedger 0x10000000 0x100000 0x2000000 (new_arena 4096 none none)
        (new_arena-IsNew none none) (omega arith) reserved).3;
  tracked = new_vat-Refines;
  backed = λ p s e. cc;
}

alloc-IsRequest : IsRequest hooks.arena alloc.size
unfolding initialize after_pool init_node_pool adopt first_block new_arena choose_granularity
    insert_free_sorted_and_coalesce
alloc-IsRequest = (omega arith, omega arith)

hooked_virtual_alloc-Served_example :
    Served hooks.arena 0x20000 empty_spec [] (hooked_virtual_alloc alloc hooks)
hooked_virtual_alloc-Served_example =
    hooked_virtual_alloc-Served alloc hooks empty_spec [] hooks-Shared alloc-IsRequest

abbrev release : Release
release = record { address = 0x10000000; type = 0x8000; bootstrapping = false; real = false }

-- The state after the slot at 256 MB was handed out and tracked.
abbrev busy : Hooks
busy = record hooks {
  arena = (allocate 0x20000 false hooks.arena).1;
  vat = vat_track 0x10000000 0x20000 new_vat;
}

granted :
    ((allocate 0x20000 false hooks.arena).0 ≡ some 0x10000000)
    × (align_up 0x20000 hooks.arena.alloc_granularity ≡ 0x20000)
unfolding is_proxy_address initialize after_pool init_node_pool adopt first_block new_arena
    choose_granularity insert_free_sorted_and_coalesce insert_sorted coalesce coalesce_from
    insert_after align_up allocate allocate_fresh finish_carve grant take_fit carve take_free_fit
    take_first carve_start pop_size_class
granted = (refl, refl)

busy-Shared :
    Shared busy
      (spec_track 0x10000000 0x20000 empty_spec)
      (slot_at hooks.arena 0x10000000 0x20000 ∷ [])
unfolding no_slots
busy-Shared =
    grant-IsShared hooks.arena busy.arena new_vat empty_spec [] 0x10000000 0x20000 hooks-Shared
      (allocate-granularity 0x20000 false hooks.arena)
      (taken (allocate 0x20000 false hooks.arena) granted.0
        (allocate-Allocated 0x20000 [] false hooks.arena alloc-IsRequest hooks-Shared.ledger))
  where
    taken :
        (r : Option ℕ × Arena)
        → r.0 ≡ some 0x10000000
        → Allocated [] (align_up 0x20000 hooks.arena.alloc_granularity) r
        → IsLedger r.1 (slot_at hooks.arena 0x10000000 0x20000 ∷ [])
    taken (none, a) e h = cc
    taken (some p, a) e h =
        let at : p ≡ 0x10000000 = cc in
        subst (λ x. IsLedger a (slot_at hooks.arena x 0x20000 ∷ [])) at h

hooked_virtual_free-Released_example :
    Released release busy
      (spec_track 0x10000000 0x20000 empty_spec)
      (slot_at hooks.arena 0x10000000 0x20000 ∷ [])
      (hooked_virtual_free release busy)
hooked_virtual_free-Released_example =
    hooked_virtual_free-Released release busy (spec_track 0x10000000 0x20000 empty_spec)
      (slot_at hooks.arena 0x10000000 0x20000 ∷ []) busy-Shared

abbrev nt_alloc : NtAlloc
nt_alloc = record {
  current_process = true;
  base = 0;
  region_size = 0x20000;
  type = 0x3000;
  protect = 4;
  bootstrapping = false;
  surroundings = plain_surroundings;
  commits = true;
  real = none;
}

not_bypassed : bypassed false hooks ≡ false
unfolding bypassed
not_bypassed = refl

nt_allocate-deaf_example :
    let h' = (hooked_nt_allocate nt_alloc hooks).1 in
    (h'.active_hook_calls ≡ 0) × (h'.in_hook ≡ true) × (hooked_virtual_alloc alloc h' ≡ (0, h'))
nt_allocate-deaf_example = nt_allocate-deaf nt_alloc hooks alloc not_bypassed (omega arith)

nt_allocate-NtServed_example :
    NtServed hooks.arena 0x20000 empty_spec [] (hooked_nt_allocate nt_alloc hooks)
nt_allocate-NtServed_example =
    nt_allocate-NtServed nt_alloc hooks empty_spec [] hooks-Shared alloc-IsRequest
