-- ===== src/ProxyAllocator/EdgeTests.antt =====
-- The theorems on blocks, lists and the edge cases at concrete inputs.
use ts3vasmanager.ProxyAllocator.Init.Faults.{allocate_nothing-aliases}
use ts3vasmanager.ProxyAllocator.SizeClasses.{pop_size_class, push_into, push_at, push_size_class}
use ts3vasmanager.ProxyAllocator.Init.{
  choose_granularity, choose_top_down, new_arena, init_node_pool, adopt, first_block, after_pool,
  initialize,
}
use ts3vasmanager.ProxyAllocator.Reserve.{
  AddressSpace, walk, walk-ne-none, reserve_arena_contiguous, reserve_arena-anywhere,
}
use ts3vasmanager.ProxyAllocator.FreeList.{
  Block, insert_after, insert_sorted, coalesce_from, coalesce, insert_free_sorted_and_coalesce,
  carve_start, carve_end, take_first, take_last, take_free_fit,
}
use ts3vasmanager.ProxyAllocator.Arena.{
  Arena, is_proxy_address, proxy_arena_band, grant, count_failure, reuse_cached, carve, take_fit,
  finish_carve, allocate_fresh, allocate, give_back, cache_block, uncached_block, keep_freed, free,
}
use ts3vasmanager.Prelude.{
  ℕ, refl, true, false, none, some, [], arith, ◌≤◌, ◌≡◌, ◌≢◌, ◌∷◌, ◌==◌, if◌then◌else◌,
}
use ts3vasmanager.ProxyAllocator.Align.{align_up}

abbrev spare : Arena
spare = (initialize 0x2000000 0x10000000 0x100000 (new_arena 4096 none none)).1

abbrev whole : Block
whole = record { address = 0x10000000; size = 0x100000 }

nothing : align_up 0 spare.alloc_granularity ≡ 0
unfolding initialize after_pool init_node_pool adopt first_block new_arena choose_granularity
    choose_top_down insert_free_sorted_and_coalesce insert_sorted coalesce coalesce_from
    insert_after align_up allocate allocate_fresh finish_carve grant take_fit reuse_cached
    count_failure carve take_free_fit take_first take_last carve_start carve_end pop_size_class
    proxy_arena_band free give_back keep_freed is_proxy_address push_size_class push_at push_into
    cache_block uncached_block
nothing = refl

uncached : (n : ℕ) → pop_size_class n spare.size_classes ≡ none
unfolding initialize after_pool init_node_pool adopt first_block new_arena choose_granularity
    choose_top_down insert_free_sorted_and_coalesce insert_sorted coalesce coalesce_from
    insert_after align_up allocate allocate_fresh finish_carve grant take_fit reuse_cached
    count_failure carve take_free_fit take_first take_last carve_start carve_end pop_size_class
    proxy_arena_band free give_back keep_freed is_proxy_address push_size_class push_at push_into
    cache_block uncached_block
uncached n = refl

one_block : spare.free.blocks ≡ whole ∷ []
unfolding initialize after_pool init_node_pool adopt first_block new_arena choose_granularity
    choose_top_down insert_free_sorted_and_coalesce insert_sorted coalesce coalesce_from
    insert_after align_up allocate allocate_fresh finish_carve grant take_fit reuse_cached
    count_failure carve take_free_fit take_first take_last carve_start carve_end pop_size_class
    proxy_arena_band free give_back keep_freed is_proxy_address push_size_class push_at push_into
    cache_block uncached_block
one_block = refl

based : spare.arena_base ≢ 0
unfolding initialize after_pool init_node_pool adopt first_block new_arena choose_granularity
    choose_top_down insert_free_sorted_and_coalesce insert_sorted coalesce coalesce_from
    insert_after align_up allocate allocate_fresh finish_carve grant take_fit reuse_cached
    count_failure carve take_free_fit take_first take_last carve_start carve_end pop_size_class
    proxy_arena_band free give_back keep_freed is_proxy_address push_size_class push_at push_into
    cache_block uncached_block
based e = omega (arith, e)

roomy : spare.alloc_granularity ≤ 0x100000
unfolding initialize after_pool init_node_pool adopt first_block new_arena choose_granularity
    choose_top_down insert_free_sorted_and_coalesce insert_sorted coalesce coalesce_from
    insert_after align_up allocate allocate_fresh finish_carve grant take_fit reuse_cached
    count_failure carve take_free_fit take_first take_last carve_start carve_end pop_size_class
    proxy_arena_band free give_back keep_freed is_proxy_address push_size_class push_at push_into
    cache_block uncached_block
roomy = omega arith

fits_whole : align_up 5000 spare.alloc_granularity ≤ 0x100000
unfolding initialize after_pool init_node_pool adopt first_block new_arena choose_granularity
    choose_top_down insert_free_sorted_and_coalesce insert_sorted coalesce coalesce_from
    insert_after align_up allocate allocate_fresh finish_carve grant take_fit reuse_cached
    count_failure carve take_free_fit take_first take_last carve_start carve_end pop_size_class
    proxy_arena_band free give_back keep_freed is_proxy_address push_size_class push_at push_into
    cache_block uncached_block
fits_whole = omega arith

allocate_nothing-aliases_example :
    ((allocate 5000 false (allocate 0 false spare).1).0 ≡ some 0x10000000)
    × ((allocate 0 false spare).0 ≡ some 0x10000000)
allocate_nothing-aliases_example =
    allocate_nothing-aliases spare 0 5000 whole [] based nothing (uncached 0)
      (uncached (align_up 5000 spare.alloc_granularity)) one_block (omega arith) roomy fits_whole

-- A space that is free everywhere, in which the system itself would choose 2 GB.
abbrev space : AddressSpace
space = record {
  minimum_address = 0x10000;
  maximum_address = 0xFFFEFFFF;
  query = λ p. some (record { base_address = p; region_size = 0x40000000; is_free = true });
  reserve = λ cand want. if cand == 0 then 0x80000000 else cand;
}

walk-ne-none_example : walk space 4096 0x1000 16 0xC0000000 0xBFFFFFF8 ≢ none
walk-ne-none_example = walk-ne-none space 4096 0x1000 16 0xC0000000 0xBFFFFFF8 (omega arith)

reserve_arena-anywhere_example :
    reserve_arena_contiguous space 4096 0x40000000 ≡ space.reserve 0 (align_up 0x40000000 4096)
reserve_arena-anywhere_example = reserve_arena-anywhere space 4096 0x40000000
