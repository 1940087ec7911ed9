-- ===== src/ProxyAllocator/Arena/Granularity.antt =====
-- No call of `Allocate` or `Free` changes the granularity of the arena.
use ts3vasmanager.ProxyAllocator.SizeClasses.{pop_size_class}
use ts3vasmanager.ProxyAllocator.Align.{align_up}
use ts3vasmanager.ProxyAllocator.FreeList.{Block, Fit}
use ts3vasmanager.ProxyAllocator.Arena.{
  Arena, grant, count_failure, reuse_cached, carve, take_fit, reclaim_cache, finish_carve,
  allocate_fresh, allocate, give_back, cache_block, uncached_block, keep_freed, free,
}
use ts3vasmanager.Prelude.{
  ℕ, refl, inl, inr, Bool, Option, none, some, List, arith, ltb, Bool-cases, Option-cases, ◌≡◌, ◌∙◌,
  ◌==◌,
}

module _ (a : Arena) where
  pub free-granularity : (p size : ℕ) → (free p size a).alloc_granularity ≡ a.alloc_granularity
  unfolding free give_back keep_freed cache_block uncached_block
  free-granularity p size = ground arith

  finish_carve-granularity :
      (size : ℕ) (o : Option (Fit × List Block))
      → (finish_carve size a o).1.alloc_granularity ≡ a.alloc_granularity
  unfolding finish_carve grant take_fit count_failure
  finish_carve-granularity size none = refl
  finish_carve-granularity size (some r) = refl

reclaim_cache-granularity : (a : Arena) → (reclaim_cache a).alloc_granularity ≡ a.alloc_granularity
unfolding reclaim_cache
reclaim_cache-granularity a = refl

allocate_fresh-granularity :
    (size : ℕ) (from_top : Bool) (a : Arena)
    → (allocate_fresh size from_top a).1.alloc_granularity ≡ a.alloc_granularity
unfolding allocate_fresh
allocate_fresh-granularity size from_top a = elim (Option-cases (carve size from_top a)) [
  | inr (r, e) ↦ rw (e, allocate_fresh) (finish_carve-granularity a size (some r))
  | inl e ↦ elim (Bool-cases (ltb 0 a.class_cached_bytes)) [
    | inl full ↦
        rw (e, allocate_fresh, full)
          (finish_carve-granularity (reclaim_cache a) size (carve size from_top (reclaim_cache a))
            ∙ reclaim_cache-granularity a)
    | inr empty ↦ rw (e, allocate_fresh, empty) (finish_carve-granularity a size none)
  ]
]

pub allocate-granularity :
    (size : ℕ) (from_top : Bool) (a : Arena)
    → (allocate size from_top a).1.alloc_granularity ≡ a.alloc_granularity
unfolding allocate grant reuse_cached count_failure
allocate-granularity size from_top a = elim (Bool-cases (a.arena_base == 0)) [
  | inl null ↦ simp null
  | inr based ↦
      elim (Option-cases (pop_size_class (align_up size a.alloc_granularity) a.size_classes)) [
        | inl miss ↦ rw (based, miss, allocate) (allocate_fresh-granularity size from_top _)
        | inr (r, hit) ↦ rw (based, hit, allocate) refl
      ]
]
