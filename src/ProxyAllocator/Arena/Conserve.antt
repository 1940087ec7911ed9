-- ===== src/ProxyAllocator/Arena/Conserve.antt =====
-- Where the node pool is not exhausted nothing is lost: every address and every byte that was free,
-- cached or live before an operation is so after it.
use ts3vasmanager.ProxyAllocator.Arena.Ledger.{Picked, weigh-Picked, front, is_proxy-slot}
use ts3vasmanager.Prelude.{
  ℕ, Bool, some, List, arith, ◌+◌, ◌<◌, ◌≡◌, ◌∷◌, refl, inl, inr, Option, none, ltb, Bool-cases,
  Option-cases, add64, ==_iff, ◌∙◌, ◌==◌,
}
use ts3vasmanager.ProxyAllocator.FreeList.Bounds.{Slot-EndsLow}
use ts3vasmanager.ProxyAllocator.FreeList.Sizes.{insert_free-Inserts, Takes-take_free_fit}
use ts3vasmanager.ProxyAllocator.FreeList.Cover.{
  in_block, EndsLow, cover-insert_free, cover-take_free_fit,
}
use ts3vasmanager.ProxyAllocator.SizeClasses.Keeps.{
  held-pop_size_class, held-push_size_class, held-emptied, table-pop_size_class,
}
use ts3vasmanager.ProxyAllocator.SizeClasses.Drain.{IsDrained-reclaim_classes}
use ts3vasmanager.ProxyAllocator.Arena.Valid.{
  all_nodes, claims, claimed_bytes, IsHeld, ready, IsLedger, IsRequest, take_fit-IsHeld,
  reclaim_cache-IsHeld,
}
use ts3vasmanager.ProxyAllocator.SizeClasses.{SizeClass, pop_size_class, push_size_class}
use ts3vasmanager.ProxyAllocator.Align.{align_up}
use ts3vasmanager.ProxyAllocator.FreeList.{Block, Fit}
use ts3vasmanager.ProxyAllocator.Arena.{
  Arena, reuse_cached, carve, take_fit, reclaim_cache, cache_block, uncached_block, keep_freed,
  grant, count_failure, finish_carve, allocate_fresh, allocate, give_back, free,
}

-- The claims on every address, and their sum in bytes, are as before.
pub record IsConserved (a : Arena) (live : List Block) (b : Arena) (live' : List Block)
    : Type 0 where
  pub claims_eq : (p : ℕ) → claims b live' p ≡ claims a live p
  pub bytes_eq : claimed_bytes b live' ≡ claimed_bytes a live
  pub nodes_eq : all_nodes b ≡ all_nodes a

module _ {a : Arena} {live : List Block} (h : IsHeld a live) where
  reuse_cached-IsConserved :
      (size : ℕ) (r : Block × List SizeClass)
      → pop_size_class size a.size_classes ≡ some r
      → IsConserved a live (reuse_cached r.0 r.1 a) (r.0 ∷ live)
  unfolding reuse_cached
  reuse_cached-IsConserved size r e =
      let moved = λ (w : Block → ℕ). held-pop_size_class w size a.size_classes r e in
      record {
        claims_eq = λ p. omega (arith, moved (in_block p));
        bytes_eq = omega (arith, moved (λ b. b.size));
        nodes_eq = omega (arith, moved (λ b. 1));
      }

  take_fit-IsConserved :
      (size : ℕ) (from_top : Bool) (r : Fit × List Block)
      → carve size from_top a ≡ some r
      → IsConserved a live (take_fit r a) (r.0.granted ∷ live)
  unfolding take_fit carve
  take_fit-IsConserved size from_top r e =
      let need = align_up size a.alloc_granularity in
      let lows = Slot-EndsLow a.arena_base _ a.alloc_granularity h.low h.granule _ h.free_slots in
      let sums = Takes-take_free_fit a.alloc_granularity need from_top a.free.blocks r e in
      record {
        claims_eq = λ p.
            omega (
              arith,
              cover-take_free_fit p a.alloc_granularity need from_top a.free.blocks r lows e,
            );
        bytes_eq = omega (arith, sums.0);
        nodes_eq = ground (arith, sums.1);
      }

  reclaim_cache-IsConserved : 0 < a.free.nodes → IsConserved a live (reclaim_cache a) live
  unfolding reclaim_cache
  reclaim_cache-IsConserved pos =
      let d =
        IsDrained-reclaim_classes a.arena_base (a.arena_base + a.arena_size) a.alloc_granularity
          h.low h.granule a.size_classes _ h.table (ready h) in
      record {
        claims_eq = λ p. omega (arith, d.exact pos p, held-emptied (in_block p) a.size_classes);
        bytes_eq = omega (arith, d.total_exact pos, held-emptied (λ b. b.size) a.size_classes);
        nodes_eq = omega (arith, d.nodes, held-emptied (λ b. 1) a.size_classes);
      }

module _ {a : Arena} {live : List Block} (b : Block) (h : IsHeld a (b ∷ live)) where
  -- A freed slot takes at most one node of the pool, and is lost only if there is none.
  keep_freed-IsConserved : 0 < a.free.nodes → IsConserved a (b ∷ live) (keep_freed b a) live
  unfolding keep_freed cache_block uncached_block
  keep_freed-IsConserved pos =
      let r = push_size_class b a.free.nodes a.size_classes in
      let moved = λ (w : Block → ℕ). held-push_size_class w b a.free.nodes a.size_classes in
      let blow : EndsLow b = omega (arith, h.live_slots.0.below, h.low) in
      let f = record a.free { nodes = r.nodes } in
      let lows = Slot-EndsLow a.arena_base _ a.alloc_granularity h.low h.granule _ h.free_slots in
      let sums = insert_free-Inserts b f (omega (arith, h.fits, h.low)) in
      record {
        claims_eq = λ p. ground (arith, moved (in_block p), cover-insert_free p b f blow lows);
        bytes_eq = ground (arith, moved (λ c. c.size), sums.bytes);
        nodes_eq = ground (arith, moved (λ c. 1), sums.nodes);
      }

-- The ledger after an allocation: a success adds the granted slot.
abbrev pub ledger_after : List Block → ℕ → Option ℕ → List Block
ledger_after live need none = live
ledger_after live need (some p) = record { address = p; size = need } ∷ live

abbrev Kept : Arena → List Block → ℕ → Option ℕ × Arena → Type 0
Kept a live need r = IsConserved a live r.1 (ledger_after live need r.0)

module _ (size : ℕ) (live : List Block) where
  grant_conserves :
      (b : Block) (need : ℕ) (a c : Arena)
      → b.size ≡ need
      → IsConserved a live c (b ∷ live)
      → Kept a live need (some b.address, grant size b c)
  unfolding grant
  grant_conserves b need a c e k =
      rw (← e) (record { claims_eq = k.claims_eq; bytes_eq = k.bytes_eq; nodes_eq = k.nodes_eq })

  finish_carve-IsConserved :
      (from_top : Bool) (c : Arena) (o : Option (Fit × List Block))
      → IsRequest c size
      → carve size from_top c ≡ o
      → IsHeld c live
      → Kept c live (align_up size c.alloc_granularity) (finish_carve size c o)
  unfolding finish_carve count_failure
  finish_carve-IsConserved from_top c none q e h = record {
    claims_eq = λ p. refl;
    bytes_eq = refl;
    nodes_eq = refl;
  }
  finish_carve-IsConserved from_top c (some r) q e h =
      grant_conserves r.0.granted _ c (take_fit r c) (take_fit-IsHeld h size from_top r q e).1
        (take_fit-IsConserved h size from_top r e)

  IsConserved-trans :
      {a b c : Arena} {l m n : List Block}
      → IsConserved a l b m
      → IsConserved b m c n
      → IsConserved a l c n
  IsConserved-trans k j = record {
    claims_eq = λ p. j.claims_eq p ∙ k.claims_eq p;
    bytes_eq = j.bytes_eq ∙ k.bytes_eq;
    nodes_eq = j.nodes_eq ∙ k.nodes_eq;
  }

  allocate_fresh-IsConserved :
      (from_top : Bool) (c : Arena)
      → IsRequest c size
      → IsHeld c live
      → 0 < c.free.nodes
      → Kept c live (align_up size c.alloc_granularity) (allocate_fresh size from_top c)
  unfolding allocate_fresh reclaim_cache
  allocate_fresh-IsConserved from_top c q h pos = elim (Option-cases (carve size from_top c)) [
    | inr (r, e) ↦ rw (e, allocate_fresh) (finish_carve-IsConserved from_top c (some r) q e h)
    | inl e ↦ elim (Bool-cases (ltb 0 c.class_cached_bytes)) [
      | inl some_cached ↦
          rw (e, allocate_fresh, some_cached)
            (IsConserved-trans (reclaim_cache-IsConserved h pos) (
              finish_carve-IsConserved from_top (reclaim_cache c) _ q refl
                (reclaim_cache-IsHeld h)))
      | inr none_cached ↦
          rw (e, allocate_fresh, none_cached) (finish_carve-IsConserved from_top c none q e h)
    ]
  ]

  -- The request counter claims nothing.
  counted :
      (a : Arena) (n need : ℕ) (r : Option ℕ × Arena)
      → Kept (record a { total_allocation_requests = n }) live need r
      → Kept a live need r
  counted a n need r k = record {
    claims_eq = k.claims_eq;
    bytes_eq = k.bytes_eq;
    nodes_eq = k.nodes_eq;
  }

  -- From an arena that keeps its ledger and has a node in its pool, for a request that is not zero
  -- and does not wrap when it is rounded, an allocation moves claims and loses none: every address
  -- is claimed by as many of the free blocks, cached blocks and live slots as before, and the bytes
  -- and the nodes that these hold are the same.
  pub allocate-IsConserved :
      (from_top : Bool) (a : Arena)
      → IsRequest a size
      → IsLedger a live
      → 0 < a.free.nodes
      → let r = allocate size from_top a in
        IsConserved a live r.1 (ledger_after live (align_up size a.alloc_granularity) r.0)
  unfolding allocate count_failure
  allocate-IsConserved from_top a q l pos =
      let c = record a { total_allocation_requests = add64 a.total_allocation_requests 1 } in
      let h = l.holds in
      let m : IsHeld c live = record {
        granule = h.granule;
        based = h.based;
        low = h.low;
        free_slots = h.free_slots;
        gapped = h.gapped;
        table = h.table;
        live_slots = h.live_slots;
        apart = h.apart;
        fits = h.fits;
        cached = h.cached;
      } in
      elim (Bool-cases (a.arena_base == 0)) [
        | inl z ↦ absurd (omega (arith, h.based, (==_iff _ _).0 z))
        | inr based ↦
            elim (Option-cases
              (pop_size_class (align_up size a.alloc_granularity) a.size_classes)) [
                | inl miss ↦
                    rw (based, miss, allocate)
                      (counted a _ _ _ (allocate_fresh-IsConserved from_top c q m pos))
                | inr (r, hit) ↦
                    let (slot, sized, rest) =
                      table-pop_size_class a.arena_base (a.arena_base + a.arena_size)
                        a.alloc_granularity _ a.size_classes r hit h.table in
                    rw (based, hit, allocate)
                      (counted a _ (align_up size a.alloc_granularity)
                        (some r.0.address, grant size r.0 (reuse_cached r.0 r.1 c))
                        (grant_conserves r.0 _ c (reuse_cached r.0 r.1 c) sized
                          (reuse_cached-IsConserved m _ r hit)))
              ]
      ]

-- From an arena that keeps its ledger and has a node in its pool, freeing a live slot with a size
-- that rounds to the slot's loses nothing: every address stays claimed as often as before by free
-- blocks, cached blocks and live slots, and their bytes and nodes are the same.
pub free-IsConserved :
    (a : Arena) (b : Block) (live rest : List Block) (size : ℕ)
    → IsLedger a live
    → Picked b live rest
    → align_up size a.alloc_granularity ≡ b.size
    → 0 < a.free.nodes
    → IsConserved a live (free b.address size a) rest
unfolding free give_back
free-IsConserved a b live rest size l k e pos =
    let h = front k l.holds in
    let (proxied, nonnull) = is_proxy-slot b h h.live_slots.0 in
    let moved = keep_freed-IsConserved b h pos in
    rw (nonnull, proxied, e)
      (record {
        claims_eq = λ p. omega (arith, moved.claims_eq p, weigh-Picked (in_block p) k);
        bytes_eq = omega (arith, moved.bytes_eq, weigh-Picked (λ c. c.size) k);
        nodes_eq = moved.nodes_eq;
      })
