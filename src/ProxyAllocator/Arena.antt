-- ===== src/ProxyAllocator/Arena.antt =====
-- ProxyAllocator.h: the fields of the class, and ProxyAllocator.cpp: `Allocate`, `Free`,
-- `IsProxyAddress`, `GetStats`. Each runs under `m_cs` from its first read to its last write, so
-- each is one step on the state. The trace marks and the per-thread depth that they carry are not
-- part of this state.
pub mod Valid
pub mod Ledger
pub mod Conserve
pub mod Steps
pub mod Outcome
pub mod Reuse
pub mod Granularity
use ts3vasmanager.Prelude.{
  ℕ, Bool, true, false, Option, none, some, List, [], ltb, leb, get_or, set, add32, add64, ◌+◌, ◌-◌,
  ◌*◌, ◌&&◌, ◌∷◌, ◌==◌, if◌then◌else◌,
}
use mathlib.Core.Option
use ts3vasmanager.ProxyAllocator.Align.{align_up}
use ts3vasmanager.ProxyAllocator.FreeList.{
  Block, FreeList, Fit, take_free_fit, insert_free_sorted_and_coalesce,
}
use ts3vasmanager.ProxyAllocator.SizeClasses.{
  SizeClass, Push, Reclaim, pop_size_class, push_size_class, reclaim_classes, emptied,
}

-- A null pointer is 0.
pub record Arena : Type 0 where
  pub arena_base : ℕ
  pub arena_size : ℕ
  pub alloc_granularity : ℕ
  pub top_down_bytes : ℕ
  pub owns_arena : Bool
  pub node_pool_mem : ℕ
  pub node_pool_size : ℕ
  pub free : FreeList
  pub used_bytes : ℕ
  pub live_requested_bytes : ℕ
  pub active_allocations : ℕ
  pub total_allocation_requests : ℕ
  pub total_allocation_failures : ℕ
  pub total_granted_bytes : ℕ
  pub total_freed_bytes : ℕ
  pub total_reused_bytes : ℕ
  pub has_main_arena_free : Bool
  pub size_classes : List SizeClass
  pub class_cached_bytes : ℕ
  pub band_req_bytes : List ℕ
  pub band_slot_bytes : List ℕ

unfoldable pub is_proxy_address : Arena → ℕ → Bool
is_proxy_address a p =
    if a.arena_base == 0
    then false
    else leb a.arena_base p && ltb p (add32 a.arena_base a.arena_size)

unfoldable pub prefers_top_down : Arena → ℕ → Bool
prefers_top_down a size = leb a.top_down_bytes size

-- `ProxyArenaBand`
unfoldable pub proxy_arena_band : ℕ → ℕ
proxy_arena_band size =
    if ltb size (4 * 1024)
    then 0
    else if ltb size (64 * 1024)
    then 1
    else if ltb size (256 * 1024)
    then 2
    else if ltb size (512 * 1024)
    then 3
    else if ltb size (1024 * 1024)
    then 4
    else if ltb size (4 * 1024 * 1024)
    then 5
    else if ltb size (16 * 1024 * 1024)
    then 6
    else 7

abbrev pub add_at : List ℕ → ℕ → ℕ → List ℕ
add_at xs i v = set xs i (add64 (get_or xs i 0) v)

-- The accounting at the end of a successful `Allocate`.
unfoldable pub grant : ℕ → Block → Arena → Arena
grant size b a =
    let band = proxy_arena_band size in
    record a {
      used_bytes = add32 a.used_bytes b.size;
      live_requested_bytes = add32 a.live_requested_bytes size;
      band_req_bytes = add_at a.band_req_bytes band size;
      band_slot_bytes = add_at a.band_slot_bytes band b.size;
      active_allocations = add64 a.active_allocations 1;
      total_granted_bytes = add64 a.total_granted_bytes b.size;
    }

unfoldable pub count_failure : Arena → Arena
count_failure a = record a { total_allocation_failures = add64 a.total_allocation_failures 1 }

-- A hit in a size class: its cache node goes back to the pool.
unfoldable pub reuse_cached : Block → List SizeClass → Arena → Arena
reuse_cached b classes a = record a {
  size_classes = classes;
  free = record a.free { nodes = a.free.nodes + 1 };
  class_cached_bytes =
      if leb b.size a.class_cached_bytes
      then a.class_cached_bytes - b.size
      else a.class_cached_bytes;
  total_reused_bytes = add64 a.total_reused_bytes b.size;
}

unfoldable pub carve : ℕ → Bool → Arena → Option (Fit × List Block)
carve size from_top a =
    take_free_fit a.alloc_granularity (align_up size a.alloc_granularity) from_top a.free.blocks

-- The list after a fit; `if (removed) FreeNode(removed)`.
unfoldable pub take_fit : Fit × List Block → Arena → Arena
take_fit r a = record a {
  free = record { nodes = if r.0.removed then a.free.nodes + 1 else a.free.nodes; blocks = r.1 };
}

unfoldable pub reclaim_cache : Arena → Arena
reclaim_cache a =
    let r = reclaim_classes a.size_classes (record {
      free = a.free;
      cached_bytes = a.class_cached_bytes;
      has_main_arena_free = a.has_main_arena_free;
    }) in
    record a {
      free = r.free;
      class_cached_bytes = r.cached_bytes;
      has_main_arena_free = r.has_main_arena_free;
      size_classes = emptied a.size_classes;
    }

unfoldable pub finish_carve : ℕ → Arena → Option (Fit × List Block) → Option ℕ × Arena
finish_carve size a none = (none, count_failure a)
finish_carve size a (some r) = (some r.0.granted.address, grant size r.0.granted (take_fit r a))

-- The miss branch: carve, and if nothing fits while the caches hold bytes, drain them and retry.
unfoldable pub allocate_fresh : ℕ → Bool → Arena → Option ℕ × Arena
allocate_fresh size from_top a = elim (carve size from_top a) [
  | some r ↦ finish_carve size a (some r)
  | none ↦
      if ltb 0 a.class_cached_bytes
      then (let b = reclaim_cache a in finish_carve size b (carve size from_top b))
      else finish_carve size a none
]

-- `Allocate`; `none` is the null pointer.
unfoldable pub allocate : ℕ → Bool → Arena → Option ℕ × Arena
allocate size from_top a₀ =
    let a = record a₀ { total_allocation_requests = add64 a₀.total_allocation_requests 1 } in
    if a.arena_base == 0
    then (none, count_failure a)
    else elim (pop_size_class (align_up size a.alloc_granularity) a.size_classes) [
      | some (b, classes) ↦ (some b.address, grant size b (reuse_cached b classes a))
      | none ↦ allocate_fresh size from_top a
    ]

-- The accounting at the end of `Free`: `sz` is the rounded size.
unfoldable pub give_back : ℕ → ℕ → Arena → Arena
give_back size sz a = record a {
  used_bytes = if leb sz a.used_bytes then a.used_bytes - sz else 0;
  live_requested_bytes =
      if leb size a.live_requested_bytes then a.live_requested_bytes - size else 0;
  active_allocations = if ltb 0 a.active_allocations then a.active_allocations - 1 else 0;
  total_freed_bytes = add64 a.total_freed_bytes sz;
}

unfoldable pub cache_block : Push → ℕ → Arena → Arena
cache_block r sz a = record a {
  free = record a.free { nodes = r.nodes };
  size_classes = r.classes;
  class_cached_bytes = add64 a.class_cached_bytes sz;
}

unfoldable pub uncached_block : Push → Block → Arena → Arena
uncached_block r b a = record a {
  free = (insert_free_sorted_and_coalesce b (record a.free { nodes = r.nodes })).1;
  size_classes = r.classes;
  has_main_arena_free = true;
}

unfoldable pub keep_freed : Block → Arena → Arena
keep_freed b a =
    let r = push_size_class b a.free.nodes a.size_classes in
    if r.pushed then cache_block r b.size a else uncached_block r b a

-- `Free(ptr, size)`
unfoldable pub free : ℕ → ℕ → Arena → Arena
free p size a =
    let sz = align_up size a.alloc_granularity in
    if p == 0
    then a
    else if is_proxy_address a p
    then give_back size sz (keep_freed (record { address = p; size = sz }) a)
    else a

-- `Free(ptr)`
unfoldable pub free_granule : ℕ → Arena → Arena
free_granule p a = free p a.alloc_granularity a

pub record Stats : Type 0 where
  pub arena_size : ℕ
  pub used_bytes : ℕ
  pub free_bytes : ℕ
  pub largest_free_span : ℕ
  pub active_allocations : ℕ
  pub total_allocation_requests : ℕ
  pub total_allocation_failures : ℕ
  pub total_granted_bytes : ℕ
  pub total_freed_bytes : ℕ
  pub total_reused_bytes : ℕ
  pub class_cached_bytes : ℕ
  pub live_requested_bytes : ℕ
  pub band_req_bytes : List ℕ
  pub band_slot_bytes : List ℕ

-- The walk over the free list: the sum of the sizes, and the largest.
unfoldable pub free_spans : ℕ → ℕ → List Block → ℕ × ℕ
free_spans bytes largest [] = (bytes, largest)
free_spans bytes largest (c ∷ cs) =
    free_spans (add32 bytes c.size) (if ltb largest c.size then c.size else largest) cs

unfoldable pub get_stats : Arena → Stats
unfolding free_spans
get_stats a = record {
  arena_size = a.arena_size;
  used_bytes = a.used_bytes;
  free_bytes = (free_spans 0 0 a.free.blocks).0;
  largest_free_span = (free_spans 0 0 a.free.blocks).1;
  active_allocations = a.active_allocations;
  total_allocation_requests = a.total_allocation_requests;
  total_allocation_failures = a.total_allocation_failures;
  total_granted_bytes = a.total_granted_bytes;
  total_freed_bytes = a.total_freed_bytes;
  total_reused_bytes = a.total_reused_bytes;
  class_cached_bytes = a.class_cached_bytes;
  live_requested_bytes = a.live_requested_bytes;
  band_req_bytes = a.band_req_bytes;
  band_slot_bytes = a.band_slot_bytes;
}
