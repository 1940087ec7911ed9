-- ===== src/ProxyAllocator/Arena/Outcome.antt =====
-- When an allocation fails, and what the statistics then say.
use ts3vasmanager.Prelude.{
  ltb_false→le, ℕ, max, refl, inl, inr, Bool, Option, none, some, List, [], arith, ltb, Bool-cases,
  Option-cases, All, add32, add64, ==_iff, ◌+◌, ◌^◌, ◌≤◌, ◌<◌, ◌≡◌, ◌∷◌, ◌==◌, if◌then◌else◌,
}
use ts3vasmanager.ProxyAllocator.FreeList.Sizes.{total, TooSmall, take_free_fit-eq-none}
use ts3vasmanager.ProxyAllocator.SizeClasses.Keeps.{held, held-emptied}
use ts3vasmanager.ProxyAllocator.Arena.Valid.{IsLedger}
use ts3vasmanager.ProxyAllocator.SizeClasses.{pop_size_class}
use ts3vasmanager.ProxyAllocator.Align.{align_up}
use ts3vasmanager.ProxyAllocator.FreeList.{Block, Fit}
use ts3vasmanager.ProxyAllocator.Arena.{
  Arena, count_failure, carve, reclaim_cache, finish_carve, allocate_fresh, allocate, free_spans,
  get_stats,
}

-- The largest size on a list, as a recursion.
abbrev pub largest : List Block → ℕ
largest [] = 0
largest (b ∷ bs) = max b.size (largest bs)

free_spans-eq :
    (n m : ℕ) (bs : List Block)
    → n + total bs < 2 ^ 32
    → (free_spans n m bs).0 ≡ n + total bs × ((free_spans n m bs).1 ≡ max m (largest bs))
unfolding free_spans
free_spans-eq n m [] h = (omega arith, omega arith)
free_spans-eq n m (c ∷ cs) h =
    ground (arith, free_spans-eq (add32 n c.size) (if ltb m c.size then c.size else m) cs)

-- For an arena that keeps its ledger, the statistics report the total of the free list as the free
-- bytes and its largest block as the largest free span, and free, used and cached bytes together
-- are at most the arena's size.
pub get_stats-free :
    (a : Arena) (live : List Block)
    → IsLedger a live
    → ((get_stats a).free_bytes ≡ total a.free.blocks)
      × ((get_stats a).largest_free_span ≡ largest a.free.blocks)
      × ((get_stats a).free_bytes + (get_stats a).used_bytes + (get_stats a).class_cached_bytes
          ≤ (get_stats a).arena_size)
unfolding get_stats
get_stats-free a live l =
    let h = l.holds in
    let (sum, big) = free_spans-eq 0 0 a.free.blocks (omega (arith, h.fits, h.low)) in
    (omega (arith, sum), omega (arith, big), omega (arith, sum, h.fits, h.cached, l.used))

largest-lt : (need : ℕ) (bs : List Block) → 0 < need → All (TooSmall 0 need) bs → largest bs < need
largest-lt need [] pos h = pos
largest-lt need (b ∷ bs) pos h = omega (arith, h.0, largest-lt need bs pos h.1)

-- What is left after a failure: nothing that fits, and empty caches.
abbrev Exhausted : ℕ → Option ℕ × Arena → Type 0
Exhausted need (none, a) =
    All (TooSmall 0 need) a.free.blocks × (held (λ b. b.size) a.size_classes ≡ 0)
Exhausted need (some p, a) = Unit

module _ (size : ℕ) (from_top : Bool) where
  finish-Exhausted :
      (a : Arena) (o : Option (Fit × List Block))
      → carve size from_top a ≡ o
      → held (λ b. b.size) a.size_classes ≡ 0
      → Exhausted (align_up size a.alloc_granularity) (finish_carve size a o)
  unfolding finish_carve count_failure carve
  finish-Exhausted a none e z = (
    (take_free_fit-eq-none a.alloc_granularity (align_up size a.alloc_granularity) from_top
          a.free.blocks).0
        e,
    z,
  )
  finish-Exhausted a (some r) e z = tt

  fresh-Exhausted :
      (a : Arena)
      → held (λ b. b.size) a.size_classes ≡ a.class_cached_bytes
      → Exhausted (align_up size a.alloc_granularity) (allocate_fresh size from_top a)
  unfolding allocate_fresh reclaim_cache finish_carve
  fresh-Exhausted a cached = elim (Option-cases (carve size from_top a)) [
    | inr (r, e) ↦ rw (e, allocate_fresh) tt
    | inl e ↦ elim (Bool-cases (ltb 0 a.class_cached_bytes)) [
      | inl some_cached ↦
          rw (e, allocate_fresh, some_cached)
            (finish-Exhausted (reclaim_cache a) _ refl (held-emptied (λ b. b.size) a.size_classes))
      | inr none_cached ↦
          rw (e, allocate_fresh, none_cached)
            (finish-Exhausted a none e (omega (arith, cached, ltb_false→le _ _ none_cached)))
    ]
  ]

  allocate-Exhausted :
      (a : Arena) (live : List Block)
      → IsLedger a live
      → Exhausted (align_up size a.alloc_granularity) (allocate size from_top a)
  unfolding allocate
  allocate-Exhausted a live l =
      let c = record a { total_allocation_requests = add64 a.total_allocation_requests 1 } in
      elim (Bool-cases (a.arena_base == 0)) [
        | inl z ↦ absurd (omega (arith, l.holds.based, (==_iff _ _).0 z))
        | inr based ↦
            elim (Option-cases
              (pop_size_class (align_up size a.alloc_granularity) a.size_classes)) [
                | inl miss ↦ rw (based, miss, allocate) (fresh-Exhausted c l.holds.cached)
                | inr (r, hit) ↦ rw (based, hit, allocate) tt
              ]
      ]

  -- From an arena that keeps its ledger, an allocation fails only when the arena is exhausted:
  -- afterwards the caches hold nothing, and every free block is smaller than the rounded request.
  pub allocate-none :
      (a : Arena) (live : List Block)
      → IsLedger a live
      → (allocate size from_top a).0 ≡ none
      → All
          (λ b. b.size < align_up size a.alloc_granularity)
          (allocate size from_top a).1.free.blocks
        × (held (λ b. b.size) (allocate size from_top a).1.size_classes ≡ 0)
  allocate-none a live l e = go (allocate size from_top a) e (allocate-Exhausted a live l)
    where
      go :
          (r : Option ℕ × Arena)
          → r.0 ≡ none
          → Exhausted (align_up size a.alloc_granularity) r
          → All (λ b. b.size < align_up size a.alloc_granularity) r.1.free.blocks
            × (held (λ b. b.size) r.1.size_classes ≡ 0)
      go (none, b) e x = x
      go (some p, b) e x = cc
