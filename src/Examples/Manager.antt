-- ===== src/Examples/Manager.antt =====
-- The manager: its records and its script arena.

use ts3vasmanager.ProxyAllocator.SizeClasses.{pop_size_class}
use ts3vasmanager.ProxyAllocator.Arena.{
  is_proxy_address, prefers_top_down, grant, carve, take_fit, finish_carve, allocate_fresh,
  allocate,
}
use ts3vasmanager.ContainmentLane.{contained_a}
use ts3vasmanager.ProxyAllocator.Arena.Valid.{IsRequest}
use ts3vasmanager.ProxyAllocator.Init.Fresh.{IsReservation, new_arena-IsNew, initialize-IsLedger}
use ts3vasmanager.ProxyAllocator.Init.{
  choose_granularity, new_arena, init_node_pool, adopt, first_block, after_pool, initialize,
  choose_top_down,
}
use ts3vasmanager.ProxyAllocator.Align.{align_up}
use ts3vasmanager.ProxyAllocator.FreeList.{
  insert_free_sorted_and_coalesce, insert_after, insert_sorted, coalesce_from, coalesce,
  carve_start, take_first, take_free_fit,
}
use ts3vasmanager.MemoryManager.Proxy.Records.{IsManaged}
use ts3vasmanager.MemoryManager.Proxy.Managed.{
  Created, create_proxy_allocation-Created, Freed, free_proxy_allocation-Freed,
}
use ts3vasmanager.MemoryManager.Corral.Cap.{IsCapped, corral_reserve-IsCapped}
use ts3vasmanager.MemoryManager.Corral.{Corral, Zone, grow_size, corral_reserve}
use ts3vasmanager.MemoryManager.Proxy.{
  Manager, Call, create_proxy_allocation, free_proxy_allocation, erase_record, set_record, bump,
  mark_skip, signal_below, signal_low_vas, publish, settle_slot, settle, redirect,
}
use ts3vasmanager.Prelude.{
  ℕ, refl, inr, true, false, Option, none, some, [], arith, ◌+◌, ◌^◌, ◌<◌, ◌≡◌,
}

abbrev pub manager : Manager
manager = record {
  proxy = (initialize 0x2000000 0x10000000 0x100000 (new_arena 4096 none none)).1;
  allocations = [];
  page_size = 4096;
  proxy_max_bytes = 0;
  req_total = 0;
  ok_total = 0;
  fail_total = 0;
  bytes_total = 0;
  alloc_fail_streak = 0;
  last_create_self_skip = false;
  events = [];
}

abbrev pub call : Call
call = record {
  size = 5000;
  protect = 4;
  lane = contained_a;
  caller_is_self = false;
  tls_ok = true;
  commits = true;
  tick = 77;
  low_vas_floor = 0;
  available_vas = none;
}

reserved : IsReservation (new_arena 4096 none none).alloc_granularity 0x10000000 0x100000
unfolding new_arena choose_granularity align_up
reserved = record {
  placed = omega arith;
  aligned = refl;
  not_empty = omega arith;
  unwrapped = omega arith;
  low = omega arith;
}

pub manager-IsManaged : IsManaged manager
manager-IsManaged =
    (initialize-IsLedger 0x10000000 0x100000 0x2000000 (new_arena 4096 none none)
      (new_arena-IsNew none none) (omega arith) reserved).3

pub call-IsRequest : IsRequest manager.proxy call.size
unfolding initialize after_pool init_node_pool adopt first_block new_arena choose_granularity
    insert_free_sorted_and_coalesce
call-IsRequest = (omega arith, omega arith)

create_proxy_allocation-Created_example :
    Created call manager (create_proxy_allocation call manager)
create_proxy_allocation-Created_example =
    create_proxy_allocation-Created call manager manager-IsManaged call-IsRequest

abbrev pub filled : Manager
filled = (create_proxy_allocation call manager).1

created : (create_proxy_allocation call manager).0 ≡ some 0x10000000
unfolding create_proxy_allocation redirect settle settle_slot publish mark_skip bump signal_low_vas
    signal_below set_record erase_record prefers_top_down choose_top_down is_proxy_address
    initialize after_pool init_node_pool adopt first_block new_arena choose_granularity
    insert_free_sorted_and_coalesce insert_sorted coalesce coalesce_from insert_after align_up
    allocate allocate_fresh finish_carve grant take_fit carve take_free_fit take_first carve_start
    pop_size_class
created = refl

pub filled-IsManaged : IsManaged filled
filled-IsManaged =
    managed (create_proxy_allocation call manager) create_proxy_allocation-Created_example
  where
    managed : (r : Option ℕ × Manager) → Created call manager r → IsManaged r.1
    managed (none, m) h = h.0
    managed (some p, m) h = h.0

free_proxy_allocation-Freed_example :
    Freed 0x10000000 filled (free_proxy_allocation 0x10000000 filled)
free_proxy_allocation-Freed_example = free_proxy_allocation-Freed 0x10000000 filled filled-IsManaged

abbrev corral : Corral
corral = record {
  segments = [];
  start_bytes = 0x7E00000;
  grow_floor = 0x2000000;
  max_reserved = 0x20000000;
  total_reserved = 0;
  sizes = [];
  peak_bytes = 0;
  ready = true;
}

abbrev zone : Zone
zone = record {
  reserved = 0x20000000;
  fresh = some (new_arena 4096 none none);
  pool_mem = 0x3000000;
}

corral-IsCapped : IsCapped corral
corral-IsCapped = record { few = omega arith; summed = refl; capped = inr (omega arith) }

grown : corral.total_reserved + grow_size 0x10000 corral < 2 ^ 32
unfolding grow_size
grown = omega arith

corral_reserve-IsCapped_example : IsCapped (corral_reserve zone 0x10000 true true corral).1
corral_reserve-IsCapped_example =
    corral_reserve-IsCapped zone 0x10000 true true corral (inr grown) corral-IsCapped
