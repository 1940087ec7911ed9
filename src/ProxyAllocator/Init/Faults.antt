-- ===== src/ProxyAllocator/Init/Faults.antt =====
-- Two behaviours at the edge: requests that round to nothing, and what a shutdown leaves behind.
use ts3vasmanager.ProxyAllocator.Arena.Reuse.{allocate-hit}
use ts3vasmanager.ProxyAllocator.Init.Fresh.{started, initialize-started}
use ts3vasmanager.ProxyAllocator.Init.{initialize, shutdown, destroy_node_pool}
use ts3vasmanager.Prelude.{
  ℕ, false, none, some, List, ◌^◌, ◌≤◌, ◌<◌, ◌≡◌, ◌≢◌, ◌∷◌, refl, Bool, true, arith, add64, ◌==◌,
  ap, ◌∙◌,
}
use ts3vasmanager.ProxyAllocator.SizeClasses.{pop_size_class, SizeClass}
use ts3vasmanager.ProxyAllocator.Align.{align_up}
use ts3vasmanager.ProxyAllocator.FreeList.{Block, carve_start, take_first, take_free_fit, Fit}
use ts3vasmanager.ProxyAllocator.Arena.{
  Arena, grant, carve, take_fit, finish_carve, allocate_fresh, allocate,
}

carve_nothing :
    (a : Arena) (size : ℕ) (b : Block) (bs : List Block)
    → align_up size a.alloc_granularity ≡ 0
    → a.free.blocks ≡ b ∷ bs
    → b.address < 2 ^ 32
    → a.alloc_granularity ≤ b.size
    → carve size false a
      ≡ some (
        record { granted = record { address = b.address; size = 0 }; removed = false },
        a.free.blocks,
      )
unfolding carve take_free_fit take_first carve_start
carve_nothing a size b bs nothing e low roomy = rw (nothing, e) (ground arith)

-- A request that rounds to 0 bytes, such as 0 or one in the last granule of the 32-bit range,
-- succeeds whenever the arena has a free block and no cached block of size 0: it returns the address
-- of the lowest free block and leaves the free list, the caches and the
-- reservation as they were.
pub allocate_nothing :
    (a : Arena) (size : ℕ) (b : Block) (bs : List Block)
    → a.arena_base ≢ 0
    → align_up size a.alloc_granularity ≡ 0
    → pop_size_class 0 a.size_classes ≡ none
    → a.free.blocks ≡ b ∷ bs
    → b.address < 2 ^ 32
    → a.alloc_granularity ≤ b.size
    → ((allocate size false a).0 ≡ some b.address)
      × ((allocate size false a).1.free.blocks ≡ a.free.blocks)
      × ((allocate size false a).1.size_classes ≡ a.size_classes)
      × ((allocate size false a).1.arena_base ≡ a.arena_base)
      × ((allocate size false a).1.alloc_granularity ≡ a.alloc_granularity)
unfolding allocate allocate_fresh finish_carve grant take_fit
allocate_nothing a size b bs placed nothing miss e low roomy =
    let c = record a { total_allocation_requests = add64 a.total_allocation_requests 1 } in
    let based : (a.arena_base == 0) ≡ false = ground arith in
    let miss' : pop_size_class (align_up size a.alloc_granularity) a.size_classes ≡ none =
      rw nothing miss in
    let cut = carve_nothing c size b bs nothing e low roomy in
    rw (based, miss', allocate, cut, allocate_fresh) (refl, refl, refl, refl, refl)

carve_head :
    (a : Arena) (size : ℕ) (b : Block) (bs : List Block)
    → a.free.blocks ≡ b ∷ bs
    → align_up size a.alloc_granularity ≤ b.size
    → (r : Fit × List Block) × (carve size false a ≡ some r) × (r.0.granted.address ≡ b.address)
unfolding carve take_free_fit take_first carve_start
carve_head a size b bs e fits = (
  carve_start a.alloc_granularity (align_up size a.alloc_granularity) b bs,
  rw e (ground arith),
  ground arith,
)

allocate_head :
    (a : Arena) (size : ℕ) (b : Block) (bs : List Block)
    → a.arena_base ≢ 0
    → pop_size_class (align_up size a.alloc_granularity) a.size_classes ≡ none
    → a.free.blocks ≡ b ∷ bs
    → align_up size a.alloc_granularity ≤ b.size
    → (allocate size false a).0 ≡ some b.address
unfolding allocate allocate_fresh finish_carve
allocate_head a size b bs placed miss e fits =
    let c = record a { total_allocation_requests = add64 a.total_allocation_requests 1 } in
    let based : (a.arena_base == 0) ≡ false = ground arith in
    let (r, cut, same) = carve_head c size b bs e fits in
    rw (based, miss, allocate, cut, allocate_fresh) (ap some same)

-- In an arena whose first free block ends its search at the low end, with nothing cached for either
-- size, a request that rounds to 0 bytes followed by one that fits that block are given the same
-- address.
pub allocate_nothing-aliases :
    (a : Arena) (size size' : ℕ) (b : Block) (bs : List Block)
    → a.arena_base ≢ 0
    → align_up size a.alloc_granularity ≡ 0
    → pop_size_class 0 a.size_classes ≡ none
    → pop_size_class (align_up size' a.alloc_granularity) a.size_classes ≡ none
    → a.free.blocks ≡ b ∷ bs
    → b.address < 2 ^ 32
    → a.alloc_granularity ≤ b.size
    → align_up size' a.alloc_granularity ≤ b.size
    → let first = allocate size false a in
      ((allocate size' false first.1).0 ≡ some b.address) × (first.0 ≡ some b.address)
allocate_nothing-aliases a size size' b bs placed nothing miss miss' e low roomy fits =
    let (first, free_eq, classes_eq, base_eq, gran_eq) =
      allocate_nothing a size b bs placed nothing miss e low roomy in
    (
      allocate_head (allocate size false a).1 size' b bs (rw base_eq placed)
          (rw (gran_eq, classes_eq) miss') (free_eq ∙ e) (rw gran_eq fits),
      first,
    )

shutdown-keeps :
    (a : Arena)
    → ((shutdown a).node_pool_mem ≡ 0)
      × ((shutdown a).arena_base ≡ 0)
      × ((shutdown a).size_classes ≡ a.size_classes)
      × ((shutdown a).alloc_granularity ≡ a.alloc_granularity)
unfolding shutdown destroy_node_pool
shutdown-keeps a = ground arith

-- If an arena has a cached block for a request, then after `Shutdown` and an `Initialize` that is
-- given a pool and a reservation anywhere, that request is still granted the address of the cached
-- block of the old arena.
pub shutdown-cached :
    (a : Arena) (r : Block × List SizeClass) (pool_mem base size n : ℕ) (from_top : Bool)
    → 0 < pool_mem
    → 0 < base
    → pop_size_class (align_up n a.alloc_granularity) a.size_classes ≡ some r
    → let b = initialize pool_mem base size (shutdown a) in
      (b.0 ≡ true) × ((allocate n from_top b.1).0 ≡ some r.0.address)
shutdown-cached a r pool_mem base size n from_top pos placed hit =
    let (pool_less, unplaced, classes_eq, gran_eq) = shutdown-keeps a in
    rw (initialize-started base size pool_mem (shutdown a) unplaced pool_less pos placed) (
      refl,
      allocate-hit n from_top (started base size pool_mem (shutdown a)) r (ground arith)
          (rw (gran_eq, classes_eq) hit),
    )
