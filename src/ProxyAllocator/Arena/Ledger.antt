-- ===== src/ProxyAllocator/Arena/Ledger.antt =====
-- `Allocate` and `Free` keep the ledger of live slots.
use ts3vasmanager.ProxyAllocator.FreeList.Cover.{in_block}
use ts3vasmanager.ProxyAllocator.SizeClasses.Keeps.{table-pop_size_class}
use ts3vasmanager.ProxyAllocator.SizeClasses.{SizeClass, pop_size_class}
use ts3vasmanager.ProxyAllocator.Align.{align_up}
use ts3vasmanager.Prelude.{
  ℕ, Option, none, some, List, arith, ◌≡◌, ◌∷◌, refl, inl, inr, Bool, ltb, Bool-cases, Option-cases,
  All, add64, ==_iff, ◌+◌, ◌==◌, true, false,
}
use ts3vasmanager.ProxyAllocator.FreeList.Sizes.{total}
use ts3vasmanager.ProxyAllocator.Arena.Valid.{
  IsHeld, IsLedger, grant-IsHeld, ArenaSlot, IsRequest, count_failure-IsHeld, reuse_cached-IsHeld,
  take_fit-IsHeld, reclaim_cache-IsHeld, give_back-IsHeld, keep_freed-IsHeld,
}
use ts3vasmanager.ProxyAllocator.FreeList.{Block, weigh, Fit}
use ts3vasmanager.ProxyAllocator.Arena.{
  Arena, grant, is_proxy_address, count_failure, reuse_cached, carve, take_fit, reclaim_cache,
  finish_carve, allocate_fresh, allocate, give_back, cache_block, uncached_block, keep_freed, free,
}

-- What an allocation leaves: on success the slot stands in the ledger, on failure nothing does.
abbrev pub Allocated : List Block → ℕ → Option ℕ × Arena → Type 0
Allocated live need (none, a) = IsLedger a live
Allocated live need (some p, a) = IsLedger a (record { address = p; size = need } ∷ live)

module _ (size : ℕ) (live : List Block) where
  grant_allocates :
      (b : Block) (need : ℕ) (c : Arena)
      → b.size ≡ need
      → total live ≡ c.used_bytes
      → IsHeld c (b ∷ live)
      → Allocated live need (some b.address, grant size b c)
  unfolding grant
  grant_allocates b need c e used h =
      rw (← e) (record { holds = grant-IsHeld h size b; used = omega (arith, used, h.fits, h.low) })

  fail_allocates :
      (need : ℕ) (c : Arena) → IsLedger c live → Allocated live need (none, count_failure c)
  unfolding count_failure
  fail_allocates need c l = record { holds = count_failure-IsHeld l.holds; used = l.used }

  finish_carve-Allocated :
      (from_top : Bool) (c : Arena) (o : Option (Fit × List Block))
      → IsRequest c size
      → carve size from_top c ≡ o
      → IsLedger c live
      → Allocated live (align_up size c.alloc_granularity) (finish_carve size c o)
  unfolding finish_carve take_fit
  finish_carve-Allocated from_top c none q e l =
      fail_allocates (align_up size c.alloc_granularity) c l
  finish_carve-Allocated from_top c (some r) q e l =
      let (h, exact) = take_fit-IsHeld l.holds size from_top r q e in
      grant_allocates r.0.granted _ (take_fit r c) exact l.used h

  reclaim_cache-IsLedger : {c : Arena} → IsLedger c live → IsLedger (reclaim_cache c) live
  unfolding reclaim_cache
  reclaim_cache-IsLedger l = record { holds = reclaim_cache-IsHeld l.holds; used = l.used }

  allocate_fresh-Allocated :
      (from_top : Bool) (c : Arena)
      → IsRequest c size
      → IsLedger c live
      → Allocated live (align_up size c.alloc_granularity) (allocate_fresh size from_top c)
  unfolding allocate_fresh reclaim_cache
  allocate_fresh-Allocated from_top c q l = elim (Option-cases (carve size from_top c)) [
    | inr (r, e) ↦ rw (e, allocate_fresh) (finish_carve-Allocated from_top c (some r) q e l)
    | inl e ↦ elim (Bool-cases (ltb 0 c.class_cached_bytes)) [
      | inl some_cached ↦
          rw (e, allocate_fresh, some_cached)
            (finish_carve-Allocated from_top (reclaim_cache c) _ q refl (reclaim_cache-IsLedger l))
      | inr none_cached ↦
          rw (e, allocate_fresh, none_cached) (finish_carve-Allocated from_top c none q e l)
    ]
  ]

  hit-Allocated :
      (c : Arena) (r : Block × List SizeClass)
      → pop_size_class (align_up size c.alloc_granularity) c.size_classes ≡ some r
      → IsLedger c live
      → Allocated live
          (align_up size c.alloc_granularity)
          (some r.0.address, grant size r.0 (reuse_cached r.0 r.1 c))
  unfolding reuse_cached
  hit-Allocated c r e l =
      let m = l.holds in
      let (slot, sized, rest) =
        table-pop_size_class c.arena_base (c.arena_base + c.arena_size) c.alloc_granularity _
          c.size_classes r e m.table in
      grant_allocates r.0 _ (reuse_cached r.0 r.1 c) sized l.used (reuse_cached-IsHeld m _ r e)

  -- From an arena whose ledger lists exactly the live slots, and for a request that is not zero and
  -- does not wrap when it is rounded, `Allocate` keeps the ledger: a success adds the slot at the
  -- returned address, of the request rounded up to the granularity, and a failure adds none.
  pub allocate-Allocated :
      (from_top : Bool) (a : Arena)
      → IsRequest a size
      → IsLedger a live
      → Allocated live (align_up size a.alloc_granularity) (allocate size from_top a)
  unfolding allocate
  allocate-Allocated from_top a q l =
      let c = record a { total_allocation_requests = add64 a.total_allocation_requests 1 } in
      let h = l.holds in
      let m : IsLedger c live = record {
        holds = record {
          granule = h.granule;
          based = h.based;
          low = h.low;
          free_slots = h.free_slots;
          gapped = h.gapped;
          table = h.table;
          live_slots = h.live_slots;
          apart = h.apart;
          fits = h.fits;
          cached = h.cached;
        };
        used = l.used;
      } in
      elim (Bool-cases (a.arena_base == 0)) [
        | inl z ↦ absurd (omega (arith, h.based, (==_iff _ _).0 z))
        | inr based ↦
            elim (Option-cases
              (pop_size_class (align_up size a.alloc_granularity) a.size_classes)) [
                | inl miss ↦ rw (based, miss, allocate) (allocate_fresh-Allocated from_top c q m)
                | inr (r, hit) ↦ rw (based, hit, allocate) (hit-Allocated c r hit m)
              ]
      ]

-- One slot taken out of the ledger, from any place.
pub data Picked (b : Block) : List Block → List Block → Type 0 where
  here : {bs : List Block} → Picked b (b ∷ bs) bs
  there : {c : Block} {bs cs : List Block} → Picked b bs cs → Picked b (c ∷ bs) (c ∷ cs)

pub weigh-Picked :
    {b : Block} {bs cs : List Block} (w : Block → ℕ)
    → Picked b bs cs
    → weigh w bs ≡ w b + weigh w cs
weigh-Picked w here = refl
weigh-Picked w (there k) = omega (arith, weigh-Picked w k)

pub All-Picked :
    {b : Block} {bs cs : List Block} (P : Block → Type 0)
    → Picked b bs cs
    → All P bs
    → P b × All P cs
All-Picked P here h = h
All-Picked P (there k) h = let (x, xs) = All-Picked P k h.1 in (x, (h.0, xs))

pub front :
    {a : Arena} {b : Block} {live rest : List Block}
    → Picked b live rest
    → IsHeld a live
    → IsHeld a (b ∷ rest)
front {a} k h = record {
  granule = h.granule;
  based = h.based;
  low = h.low;
  free_slots = h.free_slots;
  gapped = h.gapped;
  table = h.table;
  live_slots = All-Picked (ArenaSlot a) k h.live_slots;
  apart = λ p. omega (arith, h.apart p, weigh-Picked (in_block p) k);
  fits = omega (arith, h.fits, weigh-Picked (λ b. b.size) k);
  cached = h.cached;
}

give_back-IsLedger :
    (size : ℕ) (b : Block) (rest : List Block) (c : Arena)
    → IsHeld c rest
    → total (b ∷ rest) ≡ c.used_bytes
    → IsLedger (give_back size b.size c) rest
unfolding give_back
give_back-IsLedger size b rest c h used = record {
  holds = give_back-IsHeld h size b.size;
  used = ground (arith, used);
}

-- `Free` keeps the counter that `give_back` reads.
keep_freed-used : (b : Block) (a : Arena) → (keep_freed b a).used_bytes ≡ a.used_bytes
unfolding keep_freed cache_block uncached_block
keep_freed-used b a = ground arith

pub is_proxy-slot :
    {a : Arena} {live : List Block} (b : Block)
    → IsHeld a live
    → ArenaSlot a b
    → (is_proxy_address a b.address ≡ true) × (b.address == 0 ≡ false)
unfolding is_proxy_address
is_proxy-slot b h s = ground (arith, h.based, h.low, s.above, s.below, s.positive)

-- From an arena that keeps its ledger, freeing a live slot with a size that rounds to the slot's
-- takes it out of the ledger, and so out of `m_usedBytes`.
pub free-IsLedger :
    (a : Arena) (b : Block) (live rest : List Block) (size : ℕ)
    → IsLedger a live
    → Picked b live rest
    → align_up size a.alloc_granularity ≡ b.size
    → IsLedger (free b.address size a) rest
unfolding free
free-IsLedger a b live rest size l k e =
    let h = front k l.holds in
    let (proxied, nonnull) = is_proxy-slot b h h.live_slots.0 in
    rw (nonnull, proxied, e)
      (give_back-IsLedger size b rest (keep_freed b a) (keep_freed-IsHeld b h)
        (rw keep_freed-used (omega (arith, l.used, weigh-Picked (λ c. c.size) k))))
