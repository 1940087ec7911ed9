-- ===== src/ProxyAllocator/Init.antt =====
-- ProxyAllocator.cpp: the constructor's fields, `InitNodePool`, `DestroyNodePool`, `Initialize`,
-- `InitFromShared`, `Shutdown`. What `VirtualAlloc` and the environment answer are arguments.
pub mod Fresh
pub mod Faults
use ts3vasmanager.Prelude.{
  ℕ, Bool, true, false, Option, none, some, [], ltb, replicate, ◌*◌, ◌/◌, ◌%◌, ◌^◌, ◌||◌, ◌==◌,
  if◌then◌else◌,
}
use ts3vasmanager.ProxyAllocator.Align.{align_up}
use ts3vasmanager.ProxyAllocator.FreeList.{insert_free_sorted_and_coalesce}
use ts3vasmanager.ProxyAllocator.Arena.{Arena, free}

-- `kNodePoolBytes`, and `sizeof(Block)` in a 32-bit build: two words and a pointer.
abbrev pub node_pool_bytes : ℕ
node_pool_bytes = 1024 * 1024

abbrev pub sizeof_block : ℕ
sizeof_block = 12

-- The granularity: the page size, or the override if it is one of the five values.
unfoldable pub choose_granularity : ℕ → Option ℕ → ℕ
choose_granularity page_size none = (if page_size == 0 then 4096 else page_size) / 1024 * 1024
choose_granularity page_size (some k) =
    if k == 4 || k == 8 || k == 16 || k == 32 || k == 64
    then k * 1024
    else (if page_size == 0 then 4096 else page_size) / 1024 * 1024

-- `TS3VAS_PROXY_TOPDOWN_KB`: a value that is not positive leaves the default.
unfoldable pub choose_top_down : Option ℕ → ℕ
choose_top_down none = 256 * 1024
choose_top_down (some kb) = if ltb 0 kb then (kb * 1024) % 2 ^ 32 else 256 * 1024

-- The constructor. `gran_kb` and `top_down_kb` are the parsed overrides, if they are set and fit.
unfoldable pub new_arena : ℕ → Option ℕ → Option ℕ → Arena
unfolding choose_granularity choose_top_down
new_arena page_size gran_kb top_down_kb = record {
  arena_base = 0;
  arena_size = 0;
  alloc_granularity = choose_granularity page_size gran_kb;
  top_down_bytes = choose_top_down top_down_kb;
  owns_arena = false;
  node_pool_mem = 0;
  node_pool_size = 0;
  free = record { nodes = 0; blocks = [] };
  used_bytes = 0;
  live_requested_bytes = 0;
  active_allocations = 0;
  total_allocation_requests = 0;
  total_allocation_failures = 0;
  total_granted_bytes = 0;
  total_freed_bytes = 0;
  total_reused_bytes = 0;
  has_main_arena_free = false;
  size_classes = [];
  class_cached_bytes = 0;
  band_req_bytes = replicate 8 0;
  band_slot_bytes = replicate 8 0;
}

-- `InitNodePool`; `mem` is what `VirtualAlloc` returns for the pool. The loop links every node.
unfoldable pub init_node_pool : ℕ → Arena → Bool × Arena
init_node_pool mem a =
    if a.node_pool_mem == 0
    then (if mem == 0 then (false, record a { node_pool_size = node_pool_bytes }) else (
      true,
      record a {
        node_pool_size = node_pool_bytes;
        node_pool_mem = mem;
        free = record a.free { nodes = node_pool_bytes / sizeof_block };
      },
    ))
    else (true, a)

unfoldable pub destroy_node_pool : Arena → Arena
destroy_node_pool a =
    let b = record a { free = record a.free { nodes = 0 } } in
    if a.node_pool_mem == 0 then b else record b { node_pool_mem = 0; node_pool_size = 0 }

-- The whole arena becomes one free block.
unfoldable pub adopt : ℕ → ℕ → Bool → Arena → Arena
adopt base size owns a = record a {
  arena_base = base;
  arena_size = size;
  owns_arena = owns;
  free = record a.free { blocks = [] };
}

unfoldable pub first_block : Arena → Bool × Arena
first_block a =
    let r =
      insert_free_sorted_and_coalesce (record { address = a.arena_base; size = a.arena_size })
        a.free in
    (
      r.0,
      if r.0
          then record a { free = r.1 }
          else record a { arena_base = 0; arena_size = 0; owns_arena = false; free = r.1 },
    )

-- The part of both initialisations behind `InitNodePool`; only `Initialize` can be left without a
-- reservation.
unfoldable pub after_pool : ℕ → ℕ → Bool × Arena → Bool × Arena
unfolding adopt first_block
after_pool reserved size (false, a) = (false, a)
after_pool reserved size (true, a) =
    if reserved == 0
    then (false, a)
    else first_block (adopt reserved (align_up size a.alloc_granularity) true a)

unfoldable pub attach_shared : ℕ → ℕ → Bool × Arena → Bool × Arena
unfolding adopt first_block
attach_shared base size (false, a) = (false, a)
attach_shared base size (true, a) =
    first_block (adopt base (align_up size a.alloc_granularity) false a)

-- `Initialize`; `reserved` is what `ReserveArenaContiguous` returns.
unfoldable pub initialize : ℕ → ℕ → ℕ → Arena → Bool × Arena
unfolding after_pool init_node_pool
initialize pool_mem reserved arena_size a =
    if a.arena_base == 0
    then after_pool reserved arena_size (init_node_pool pool_mem a)
    else (true, a)

-- `InitFromShared`: the caller's mapping, which this object does not own.
unfoldable pub init_from_shared : ℕ → ℕ → ℕ → Arena → Bool × Arena
unfolding attach_shared init_node_pool
init_from_shared pool_mem base size a =
    if a.arena_base == 0 then attach_shared base size (init_node_pool pool_mem a) else (true, a)

-- `Shutdown`. The release of the reservation is outside the state.
unfoldable pub shutdown : Arena → Arena
unfolding destroy_node_pool
shutdown a = destroy_node_pool (record a {
  arena_base = 0;
  arena_size = 0;
  owns_arena = false;
  free = record a.free { blocks = [] };
  used_bytes = 0;
  active_allocations = 0;
  has_main_arena_free = false;
})
