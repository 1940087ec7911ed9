-- ===== src/ProxyAllocator/Tests.antt =====
-- The theorems on the allocator at concrete inputs.
use ts3vasmanager.ProxyAllocator.FreeList.Order.{end, Apart, IsGapped}
use ts3vasmanager.ProxyAllocator.FreeList.Sizes.{total}
use ts3vasmanager.ProxyAllocator.SizeClasses.Keeps.{held}
use ts3vasmanager.ProxyAllocator.Arena.Valid.{IsLedger, IsRequest}
use ts3vasmanager.ProxyAllocator.Arena.Reuse.{allocate-free}
use ts3vasmanager.ProxyAllocator.Arena.Steps.{
  Traced, Reach, live-Apart, Reach-used, Reach-IsGapped, next, start, allocates,
}
use ts3vasmanager.ProxyAllocator.Arena.Outcome.{allocate-none}
use ts3vasmanager.ProxyAllocator.Arena.Ledger.{
  Allocated, allocate-Allocated, Picked, free-IsLedger, here,
}
use ts3vasmanager.ProxyAllocator.Arena.Conserve.{
  IsConserved, ledger_after, allocate-IsConserved, free-IsConserved,
}
use ts3vasmanager.ProxyAllocator.Init.Fresh.{
  IsReservation, new_arena-IsNew, placed_block, initialize-IsLedger,
}
use ts3vasmanager.ProxyAllocator.SizeClasses.{pop_size_class, push_into, push_at, push_size_class}
use ts3vasmanager.ProxyAllocator.Init.{
  choose_granularity, choose_top_down, new_arena, init_node_pool, adopt, first_block, after_pool,
  initialize,
}
use ts3vasmanager.ProxyAllocator.FreeList.{
  Block, insert_after, insert_sorted, coalesce_from, coalesce, insert_free_sorted_and_coalesce,
  carve_start, carve_end, take_first, take_last, take_free_fit,
}
use ts3vasmanager.ProxyAllocator.Arena.{
  Arena, is_proxy_address, proxy_arena_band, grant, count_failure, reuse_cached, carve, take_fit,
  finish_carve, allocate_fresh, allocate, give_back, cache_block, uncached_block, keep_freed, free,
}
use ts3vasmanager.Prelude.{refl, true, false, none, some, [], arith, All, ◌+◌, ◌≤◌, ◌<◌, ◌≡◌, ◌∷◌}
use ts3vasmanager.ProxyAllocator.Align.{align_up}

-- An arena of 1 MB at 256 MB, on 4 KB pages.
abbrev fresh : Arena
fresh = new_arena 4096 none none

abbrev placed : Arena
placed = (initialize 0x2000000 0x10000000 0x100000 fresh).1

granularity-fresh : fresh.alloc_granularity ≡ 4096
unfolding initialize after_pool init_node_pool adopt first_block new_arena choose_granularity
    choose_top_down insert_free_sorted_and_coalesce insert_sorted coalesce coalesce_from
    insert_after align_up allocate allocate_fresh finish_carve grant take_fit reuse_cached
    count_failure carve take_free_fit take_first take_last carve_start carve_end pop_size_class
    proxy_arena_band free give_back keep_freed is_proxy_address push_size_class push_at push_into
    cache_block uncached_block
granularity-fresh = refl

reservation : IsReservation fresh.alloc_granularity 0x10000000 0x100000
unfolding initialize after_pool init_node_pool adopt first_block new_arena choose_granularity
    choose_top_down insert_free_sorted_and_coalesce insert_sorted coalesce coalesce_from
    insert_after align_up allocate allocate_fresh finish_carve grant take_fit reuse_cached
    count_failure carve take_free_fit take_first take_last carve_start carve_end pop_size_class
    proxy_arena_band free give_back keep_freed is_proxy_address push_size_class push_at push_into
    cache_block uncached_block
reservation = record {
  placed = omega arith;
  aligned = refl;
  not_empty = omega arith;
  unwrapped = omega arith;
  low = omega arith;
}

initialize-IsLedger_example :
    ((initialize 0x2000000 0x10000000 0x100000 fresh).0 ≡ true)
    × (placed.free.blocks ≡ placed_block 0x10000000 0x100000 fresh ∷ [])
    × (placed.arena_base ≡ 0x10000000)
    × IsLedger placed []
initialize-IsLedger_example =
    initialize-IsLedger 0x10000000 0x100000 0x2000000 fresh (new_arena-IsNew none none)
      (omega arith) reservation

placed-IsLedger : IsLedger placed []
placed-IsLedger = initialize-IsLedger_example.3

request : IsRequest placed 5000
unfolding initialize after_pool init_node_pool adopt first_block new_arena choose_granularity
    choose_top_down insert_free_sorted_and_coalesce insert_sorted coalesce coalesce_from
    insert_after align_up allocate allocate_fresh finish_carve grant take_fit reuse_cached
    count_failure carve take_free_fit take_first take_last carve_start carve_end pop_size_class
    proxy_arena_band free give_back keep_freed is_proxy_address push_size_class push_at push_into
    cache_block uncached_block
request = (omega arith, omega arith)

-- The arena after a request of 5000 bytes, and its one slot.
abbrev used : Arena
used = (allocate 5000 false placed).1

abbrev slot : Block
slot = record { address = 0x10000000; size = 8192 }

granted : (allocate 5000 false placed).0 ≡ some 0x10000000
unfolding initialize after_pool init_node_pool adopt first_block new_arena choose_granularity
    choose_top_down insert_free_sorted_and_coalesce insert_sorted coalesce coalesce_from
    insert_after align_up allocate allocate_fresh finish_carve grant take_fit reuse_cached
    count_failure carve take_free_fit take_first take_last carve_start carve_end pop_size_class
    proxy_arena_band free give_back keep_freed is_proxy_address push_size_class push_at push_into
    cache_block uncached_block
granted = refl

rounded : align_up 5000 placed.alloc_granularity ≡ 8192
unfolding initialize after_pool init_node_pool adopt first_block new_arena choose_granularity
    choose_top_down insert_free_sorted_and_coalesce insert_sorted coalesce coalesce_from
    insert_after align_up allocate allocate_fresh finish_carve grant take_fit reuse_cached
    count_failure carve take_free_fit take_first take_last carve_start carve_end pop_size_class
    proxy_arena_band free give_back keep_freed is_proxy_address push_size_class push_at push_into
    cache_block uncached_block
rounded = refl

rounded_used : align_up 5000 used.alloc_granularity ≡ 8192
unfolding initialize after_pool init_node_pool adopt first_block new_arena choose_granularity
    choose_top_down insert_free_sorted_and_coalesce insert_sorted coalesce coalesce_from
    insert_after align_up allocate allocate_fresh finish_carve grant take_fit reuse_cached
    count_failure carve take_free_fit take_first take_last carve_start carve_end pop_size_class
    proxy_arena_band free give_back keep_freed is_proxy_address push_size_class push_at push_into
    cache_block uncached_block
rounded_used = refl

allocate-Allocated_example :
    Allocated [] (align_up 5000 placed.alloc_granularity) (allocate 5000 false placed)
allocate-Allocated_example = allocate-Allocated 5000 [] false placed request placed-IsLedger

used-IsLedger : IsLedger used (slot ∷ [])
unfolding initialize after_pool init_node_pool adopt first_block new_arena choose_granularity
    choose_top_down insert_free_sorted_and_coalesce insert_sorted coalesce coalesce_from
    insert_after align_up allocate allocate_fresh finish_carve grant take_fit reuse_cached
    count_failure carve take_free_fit take_first take_last carve_start carve_end pop_size_class
    proxy_arena_band free give_back keep_freed is_proxy_address push_size_class push_at push_into
    cache_block uncached_block
used-IsLedger = allocate-Allocated_example

free-IsLedger_example : IsLedger (free 0x10000000 5000 used) []
free-IsLedger_example = free-IsLedger used slot (slot ∷ []) [] 5000 used-IsLedger here rounded_used

has_node : 0 < placed.free.nodes
unfolding initialize after_pool init_node_pool adopt first_block new_arena choose_granularity
    choose_top_down insert_free_sorted_and_coalesce insert_sorted coalesce coalesce_from
    insert_after align_up allocate allocate_fresh finish_carve grant take_fit reuse_cached
    count_failure carve take_free_fit take_first take_last carve_start carve_end pop_size_class
    proxy_arena_band free give_back keep_freed is_proxy_address push_size_class push_at push_into
    cache_block uncached_block
has_node = omega arith

has_node_used : 0 < used.free.nodes
unfolding initialize after_pool init_node_pool adopt first_block new_arena choose_granularity
    choose_top_down insert_free_sorted_and_coalesce insert_sorted coalesce coalesce_from
    insert_after align_up allocate allocate_fresh finish_carve grant take_fit reuse_cached
    count_failure carve take_free_fit take_first take_last carve_start carve_end pop_size_class
    proxy_arena_band free give_back keep_freed is_proxy_address push_size_class push_at push_into
    cache_block uncached_block
has_node_used = omega arith

allocate-IsConserved_example :
    IsConserved placed [] used
      (ledger_after [] (align_up 5000 placed.alloc_granularity) (allocate 5000 false placed).0)
allocate-IsConserved_example =
    allocate-IsConserved 5000 [] false placed request placed-IsLedger has_node

free-IsConserved_example : IsConserved used (slot ∷ []) (free 0x10000000 5000 used) []
free-IsConserved_example =
    free-IsConserved used slot (slot ∷ []) [] 5000 used-IsLedger here rounded_used has_node_used

-- A second request, and the ledger after it.
IsRequest-used : IsRequest used 100
unfolding initialize after_pool init_node_pool adopt first_block new_arena choose_granularity
    choose_top_down insert_free_sorted_and_coalesce insert_sorted coalesce coalesce_from
    insert_after align_up allocate allocate_fresh finish_carve grant take_fit reuse_cached
    count_failure carve take_free_fit take_first take_last carve_start carve_end pop_size_class
    proxy_arena_band free give_back keep_freed is_proxy_address push_size_class push_at push_into
    cache_block uncached_block
IsRequest-used = (omega arith, omega arith)

abbrev start_state : Traced
start_state = record { arena = used; live = slot ∷ [] }

abbrev next_state : Traced
next_state = record {
  arena = (allocate 100 false used).1;
  live = ledger_after (slot ∷ []) (align_up 100 used.alloc_granularity) (allocate 100 false used).0;
}

history : Reach start_state next_state
history = next start (allocates 100 false IsRequest-used)

abbrev second_slot : Block
second_slot = record { address = 0x10002000; size = 4096 }

picked : Picked second_slot next_state.live (slot ∷ [])
unfolding initialize after_pool init_node_pool adopt first_block new_arena choose_granularity
    choose_top_down insert_free_sorted_and_coalesce insert_sorted coalesce coalesce_from
    insert_after align_up allocate allocate_fresh finish_carve grant take_fit reuse_cached
    count_failure carve take_free_fit take_first take_last carve_start carve_end pop_size_class
    proxy_arena_band free give_back keep_freed is_proxy_address push_size_class push_at push_into
    cache_block uncached_block
picked = here

live-Apart_example :
    Apart second_slot slot
    × (next_state.arena.arena_base ≤ second_slot.address)
    × (end second_slot ≤ next_state.arena.arena_base + next_state.arena.arena_size)
live-Apart_example = live-Apart second_slot slot used-IsLedger history picked here

Reach-used_example :
    (next_state.arena.used_bytes ≡ total next_state.live)
    × (next_state.arena.class_cached_bytes ≡ held (λ b. b.size) next_state.arena.size_classes)
    × (next_state.arena.used_bytes
          + next_state.arena.class_cached_bytes
          + total next_state.arena.free.blocks
        ≤ next_state.arena.arena_size)
Reach-used_example = Reach-used used-IsLedger history

Reach-IsGapped_example : IsGapped next_state.arena.free.blocks
Reach-IsGapped_example = Reach-IsGapped used-IsLedger history

too_big : (allocate 0x200000 true used).0 ≡ none
unfolding initialize after_pool init_node_pool adopt first_block new_arena choose_granularity
    choose_top_down insert_free_sorted_and_coalesce insert_sorted coalesce coalesce_from
    insert_after align_up allocate allocate_fresh finish_carve grant take_fit reuse_cached
    count_failure carve take_free_fit take_first take_last carve_start carve_end pop_size_class
    proxy_arena_band free give_back keep_freed is_proxy_address push_size_class push_at push_into
    cache_block uncached_block
too_big = refl

allocate-none_example :
    All
      (λ b. b.size < align_up 0x200000 used.alloc_granularity)
      (allocate 0x200000 true used).1.free.blocks
    × (held (λ b. b.size) (allocate 0x200000 true used).1.size_classes ≡ 0)
allocate-none_example = allocate-none 0x200000 true used (slot ∷ []) used-IsLedger too_big

rounded_again : align_up 8000 used.alloc_granularity ≡ 8192
unfolding initialize after_pool init_node_pool adopt first_block new_arena choose_granularity
    choose_top_down insert_free_sorted_and_coalesce insert_sorted coalesce coalesce_from
    insert_after align_up allocate allocate_fresh finish_carve grant take_fit reuse_cached
    count_failure carve take_free_fit take_first take_last carve_start carve_end pop_size_class
    proxy_arena_band free give_back keep_freed is_proxy_address push_size_class push_at push_into
    cache_block uncached_block
rounded_again = refl

cached : (push_size_class slot used.free.nodes used.size_classes).pushed ≡ true
unfolding initialize after_pool init_node_pool adopt first_block new_arena choose_granularity
    choose_top_down insert_free_sorted_and_coalesce insert_sorted coalesce coalesce_from
    insert_after align_up allocate allocate_fresh finish_carve grant take_fit reuse_cached
    count_failure carve take_free_fit take_first take_last carve_start carve_end pop_size_class
    proxy_arena_band free give_back keep_freed is_proxy_address push_size_class push_at push_into
    cache_block uncached_block
cached = refl

allocate-free_example : (allocate 8000 true (free 0x10000000 5000 used)).0 ≡ some 0x10000000
allocate-free_example =
    allocate-free used slot (slot ∷ []) [] 5000 8000 true used-IsLedger here rounded_used
      rounded_again cached
