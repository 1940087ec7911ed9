-- ===== src/ProxyAllocator/Arena/Valid.antt =====
-- The arena with its ledger: `live` lists the slots that are handed out and not yet freed. It is
-- not kept by the code; a caller that frees what it was granted keeps it.
use ts3vasmanager.ProxyAllocator.SizeClasses.Drain.{IsReady, IsDrained-reclaim_classes}
use ts3vasmanager.ProxyAllocator.SizeClasses.{SizeClass, pop_size_class, Push, push_size_class}
use ts3vasmanager.Prelude.{
  ℕ, List, length, All, ◌+◌, ◌^◌, ◌≤◌, ◌<◌, ◌≡◌, arith, ◌∷◌, Bool, some, refl, inl, inr, true,
  false, Bool-cases,
}
use ts3vasmanager.ProxyAllocator.FreeList.Bounds.{
  IsSlot, IsCut-take_free_fit, Slot-EndsLow, Slot-insert_free, Slot-Positive,
}
use ts3vasmanager.ProxyAllocator.FreeList.Order.{
  IsGapped, IsGapped-take_free_fit, IsGapped-insert_free, all-Apart_of_cover,
}
use ts3vasmanager.ProxyAllocator.FreeList.Sizes.{total, Takes-take_free_fit, insert_free-Inserts}
use ts3vasmanager.ProxyAllocator.FreeList.Cover.{
  in_block, cover, cover-take_free_fit, EndsLow, cover-insert_free-le,
}
use ts3vasmanager.ProxyAllocator.SizeClasses.Keeps.{
  held, IsTable, held-pop_size_class, table-pop_size_class, table-emptied, held-emptied,
  held-push_size_class, table-push_size_class,
}
use ts3vasmanager.ProxyAllocator.Align.{Granule, align_up, align_up_bounds}
use ts3vasmanager.ProxyAllocator.FreeList.{Block, Fit}
use ts3vasmanager.ProxyAllocator.Arena.{
  Arena, grant, count_failure, reuse_cached, carve, take_fit, reclaim_cache, give_back, cache_block,
  uncached_block, keep_freed,
}

-- The number of nodes of the pool, wherever they stand.
abbrev pub all_nodes : Arena → ℕ
all_nodes a = a.free.nodes + length a.free.blocks + held (λ b. 1) a.size_classes

-- Every address is in at most one of: a free block, a cached block, a live slot.
abbrev pub claims : Arena → List Block → ℕ → ℕ
claims a live p = cover p a.free.blocks + held (in_block p) a.size_classes + cover p live

abbrev pub claimed_bytes : Arena → List Block → ℕ
claimed_bytes a live = total a.free.blocks + held (λ b. b.size) a.size_classes + total live

abbrev pub ArenaSlot : Arena → Block → Type 0
ArenaSlot a = IsSlot a.arena_base (a.arena_base + a.arena_size) a.alloc_granularity

-- The memory side of the ledger; the counters are in `IsLedger`.
pub record IsHeld (a : Arena) (live : List Block) : Type 0 where
  pub granule : Granule a.alloc_granularity
  pub based : 0 < a.arena_base
  pub low : a.arena_base + a.arena_size < 2 ^ 32
  pub free_slots : All (ArenaSlot a) a.free.blocks
  pub gapped : IsGapped a.free.blocks
  pub table : IsTable a.arena_base (a.arena_base + a.arena_size) a.alloc_granularity a.size_classes
  pub live_slots : All (ArenaSlot a) live
  pub apart : (p : ℕ) → claims a live p ≤ 1
  pub fits : claimed_bytes a live ≤ a.arena_size
  pub cached : held (λ b. b.size) a.size_classes ≡ a.class_cached_bytes

pub record IsLedger (a : Arena) (live : List Block) : Type 0 where
  pub holds : IsHeld a live
  pub used : total live ≡ a.used_bytes

-- A request that is not zero, and not so large that rounding it up wraps.
abbrev pub IsRequest : Arena → ℕ → Type 0
IsRequest a size = (0 < size) × (size + a.alloc_granularity ≤ 2 ^ 32)

module _ {a : Arena} {live : List Block} (h : IsHeld a live) where
  pub count_failure-IsHeld : IsHeld (count_failure a) live
  unfolding count_failure
  count_failure-IsHeld = record {
    granule = h.granule;
    based = h.based;
    low = h.low;
    free_slots = h.free_slots;
    gapped = h.gapped;
    table = h.table;
    live_slots = h.live_slots;
    apart = h.apart;
    fits = h.fits;
    cached = h.cached;
  }

  pub grant-IsHeld : (size : ℕ) (b : Block) → IsHeld (grant size b a) live
  unfolding grant
  grant-IsHeld size b = record {
    granule = h.granule;
    based = h.based;
    low = h.low;
    free_slots = h.free_slots;
    gapped = h.gapped;
    table = h.table;
    live_slots = h.live_slots;
    apart = h.apart;
    fits = h.fits;
    cached = h.cached;
  }

  pub give_back-IsHeld : (size sz : ℕ) → IsHeld (give_back size sz a) live
  unfolding give_back
  give_back-IsHeld size sz = record {
    granule = h.granule;
    based = h.based;
    low = h.low;
    free_slots = h.free_slots;
    gapped = h.gapped;
    table = h.table;
    live_slots = h.live_slots;
    apart = h.apart;
    fits = h.fits;
    cached = h.cached;
  }

  pub reuse_cached-IsHeld :
      (size : ℕ) (r : Block × List SizeClass)
      → pop_size_class size a.size_classes ≡ some r
      → IsHeld (reuse_cached r.0 r.1 a) (r.0 ∷ live)
  unfolding reuse_cached
  reuse_cached-IsHeld size r e =
      let (slot, sized, table) =
        table-pop_size_class a.arena_base (a.arena_base + a.arena_size) a.alloc_granularity size
          a.size_classes r e h.table in
      let bytes = held-pop_size_class (λ b. b.size) size a.size_classes r e in
      record {
        granule = h.granule;
        based = h.based;
        low = h.low;
        free_slots = h.free_slots;
        gapped = h.gapped;
        table = table;
        live_slots = (slot, h.live_slots);
        apart =
            λ p. omega (arith, h.apart p, held-pop_size_class (in_block p) size a.size_classes r e);
        fits = omega (arith, h.fits, bytes);
        cached = ground (arith, h.cached, bytes);
      }

  pub take_fit-IsHeld :
      (size : ℕ) (from_top : Bool) (r : Fit × List Block)
      → IsRequest a size
      → carve size from_top a ≡ some r
      → IsHeld (take_fit r a) (r.0.granted ∷ live)
        × (r.0.granted.size ≡ align_up size a.alloc_granularity)
  unfolding take_fit carve
  take_fit-IsHeld size from_top r q e =
      let need = align_up size a.alloc_granularity in
      let (ge, lt, whole) = align_up_bounds h.granule size q.1 in
      let lows = Slot-EndsLow a.arena_base _ a.alloc_granularity h.low h.granule _ h.free_slots in
      let cut =
        IsCut-take_free_fit a.arena_base (a.arena_base + a.arena_size) a.alloc_granularity h.low
          h.granule need whole (omega arith) from_top a.free.blocks r h.free_slots e in
      let sums = Takes-take_free_fit a.alloc_granularity need from_top a.free.blocks r e in
      (
        record {
          granule = h.granule;
          based = h.based;
          low = h.low;
          free_slots = cut.rest;
          gapped = IsGapped-take_free_fit a.alloc_granularity need from_top _ r lows e h.gapped;
          table = h.table;
          live_slots = (cut.granted, h.live_slots);
          apart = λ p. omega (
            arith,
            h.apart p,
            cover-take_free_fit p a.alloc_granularity need from_top a.free.blocks r lows e,
          );
          fits = omega (arith, h.fits, sums.0);
          cached = h.cached;
        },
        cut.exact,
      )

  pub ready :
      IsReady a.arena_base
        (a.arena_base + a.arena_size)
        a.alloc_granularity
        h.low
        h.granule
        (λ p. held (in_block p) a.size_classes)
        (held (λ b. b.size) a.size_classes)
        (record {
          free = a.free;
          cached_bytes = a.class_cached_bytes;
          has_main_arena_free = a.has_main_arena_free;
        })
  ready = record {
    slots = h.free_slots;
    gapped = h.gapped;
    apart = λ p. omega (arith, h.apart p);
    fits = omega (arith, h.fits, h.low);
    cached = omega (arith, h.cached);
  }

  pub reclaim_cache-IsHeld : IsHeld (reclaim_cache a) live
  unfolding reclaim_cache
  reclaim_cache-IsHeld =
      let d =
        IsDrained-reclaim_classes a.arena_base (a.arena_base + a.arena_size) a.alloc_granularity
          h.low h.granule a.size_classes _ h.table ready in
      record {
        granule = h.granule;
        based = h.based;
        low = h.low;
        free_slots = d.slots;
        gapped = d.gapped;
        table = table-emptied a.arena_base _ a.alloc_granularity a.size_classes h.table;
        live_slots = h.live_slots;
        apart =
            λ p. omega (arith, h.apart p, d.cover_le p, held-emptied (in_block p) a.size_classes);
        fits = omega (arith, h.fits, d.total_le, held-emptied (λ b. b.size) a.size_classes);
        cached = omega (arith, h.cached, d.cached, held-emptied (λ b. b.size) a.size_classes);
      }

module _ {a : Arena} {live : List Block} (b : Block) (h : IsHeld a (b ∷ live)) where
  pushed-IsHeld :
      (r : Push)
      → r ≡ push_size_class b a.free.nodes a.size_classes
      → r.pushed ≡ true
      → IsHeld (cache_block r b.size a) live
  unfolding cache_block
  pushed-IsHeld r e yes_pushed =
      let moved = λ (w : Block → ℕ). held-push_size_class w b a.free.nodes a.size_classes in
      record {
        granule = h.granule;
        based = h.based;
        low = h.low;
        free_slots = h.free_slots;
        gapped = h.gapped;
        table = rw e (
            table-push_size_class a.arena_base _ a.alloc_granularity b a.free.nodes a.size_classes
              h.live_slots.0 h.table);
        live_slots = h.live_slots.1;
        apart = λ p. ground (arith, h.apart p, moved (in_block p));
        fits = ground (arith, h.fits, moved (λ c. c.size));
        cached = ground (arith, h.cached, h.fits, h.low, moved (λ c. c.size));
      }

  uncached-IsHeld :
      (r : Push)
      → r ≡ push_size_class b a.free.nodes a.size_classes
      → r.pushed ≡ false
      → IsHeld (uncached_block r b a) live
  unfolding uncached_block
  uncached-IsHeld r e not_pushed =
      let moved = λ (w : Block → ℕ). held-push_size_class w b a.free.nodes a.size_classes in
      let slot = h.live_slots.0 in
      let blow : EndsLow b = omega (arith, slot.below, h.low) in
      let f = record a.free { nodes = r.nodes } in
      let lows = Slot-EndsLow a.arena_base _ a.alloc_granularity h.low h.granule _ h.free_slots in
      let positives =
        Slot-Positive a.arena_base _ a.alloc_granularity h.low h.granule _ h.free_slots in
      let sums = insert_free-Inserts b f (omega (arith, h.fits, h.low)) in
      record {
        granule = h.granule;
        based = h.based;
        low = h.low;
        free_slots =
            Slot-insert_free a.arena_base _ a.alloc_granularity h.low h.granule b f slot
              h.free_slots;
        gapped =
            IsGapped-insert_free b f slot.positive blow lows positives
              (all-Apart_of_cover b _ slot.positive positives (λ p. omega (arith, h.apart p)))
              h.gapped;
        table = rw e (
            table-push_size_class a.arena_base _ a.alloc_granularity b a.free.nodes a.size_classes
              slot h.table);
        live_slots = h.live_slots.1;
        apart = λ p.
            ground (arith, h.apart p, moved (in_block p), cover-insert_free-le p b f blow lows);
        fits = ground (arith, h.fits, moved (λ c. c.size), sums.bytes_le);
        cached = ground (arith, h.cached, moved (λ c. c.size));
      }

  -- A freed slot moves from the ledger to a cache or to the free list, or is dropped.
  pub keep_freed-IsHeld : IsHeld (keep_freed b a) live
  unfolding keep_freed
  keep_freed-IsHeld =
      let r = push_size_class b a.free.nodes a.size_classes in
      elim (Bool-cases r.pushed) [
        | inl p ↦ simp p (pushed-IsHeld r refl p)
        | inr n ↦ simp n (uncached-IsHeld r refl n)
      ]
