-- ===== src/ProxyAllocator/Arena/Steps.antt =====
-- Histories of an arena: calls of `Allocate` and `Free` in any order, with the ledger beside them.
use ts3vasmanager.Prelude.{ℕ, sym, Bool, Option, none, some, List, arith, ◌+◌, ◌≤◌, ◌≡◌}
use ts3vasmanager.ProxyAllocator.FreeList.Order.{end, Apart, IsGapped, Apart-of_cover}
use ts3vasmanager.ProxyAllocator.FreeList.Sizes.{total}
use ts3vasmanager.ProxyAllocator.FreeList.Cover.{in_block}
use ts3vasmanager.ProxyAllocator.SizeClasses.Keeps.{held}
use ts3vasmanager.ProxyAllocator.Arena.Valid.{ArenaSlot, IsLedger, IsRequest}
use ts3vasmanager.ProxyAllocator.Arena.Ledger.{
  Allocated, allocate-Allocated, Picked, weigh-Picked, All-Picked, free-IsLedger,
}
use ts3vasmanager.ProxyAllocator.Arena.Conserve.{ledger_after}
use ts3vasmanager.ProxyAllocator.Align.{align_up}
use ts3vasmanager.ProxyAllocator.FreeList.{Block}
use ts3vasmanager.ProxyAllocator.Arena.{Arena, allocate, free}

pub record Traced : Type 0 where
  pub arena : Arena
  pub live : List Block

-- A caller frees only slots of the ledger, each with a size that rounds to what was granted.
pub data Step (s : Traced) : Traced → Type 0 where
  allocates :
      (size : ℕ) (from_top : Bool)
      → IsRequest s.arena size
      → Step s (record {
        arena = (allocate size from_top s.arena).1;
        live =
            ledger_after s.live
              (align_up size s.arena.alloc_granularity)
              (allocate size from_top s.arena).0;
      })
  frees :
      (size : ℕ) (b : Block) (rest : List Block)
      → Picked b s.live rest
      → align_up size s.arena.alloc_granularity ≡ b.size
      → Step s (record { arena = free b.address size s.arena; live = rest })

pub data Reach (s : Traced) : Traced → Type 0 where
  start : Reach s s
  next : {t u : Traced} → Reach s t → Step t u → Reach s u

Allocated-IsLedger :
    (live : List Block) (need : ℕ) (r : Option ℕ × Arena)
    → Allocated live need r
    → IsLedger r.1 (ledger_after live need r.0)
Allocated-IsLedger live need (none, a) h = h
Allocated-IsLedger live need (some p, a) h = h

Step-IsLedger : {s t : Traced} → Step s t → IsLedger s.arena s.live → IsLedger t.arena t.live
Step-IsLedger {s} (allocates size from_top q) l =
    Allocated-IsLedger s.live _ (allocate size from_top s.arena)
      (allocate-Allocated size s.live from_top s.arena q l)
Step-IsLedger {s} (frees size b rest k e) l = free-IsLedger s.arena b s.live rest size l k e

pub Reach-IsLedger : {s t : Traced} → IsLedger s.arena s.live → Reach s t → IsLedger t.arena t.live
Reach-IsLedger l start = l
Reach-IsLedger l (next r st) = Step-IsLedger st (Reach-IsLedger l r)

-- From a state that keeps its ledger, after any history of allocations whose sizes are not zero and
-- do not wrap when they are rounded, and of frees of slots that are handed out, each with a size
-- that rounds to the slot's size, two slots that are both
-- handed out do not overlap, and each lies inside the arena.
pub live-Apart :
    {s t : Traced} (b c : Block) {rest rest' : List Block}
    → IsLedger s.arena s.live
    → Reach s t
    → Picked b t.live rest
    → Picked c rest rest'
    → Apart b c
      × (t.arena.arena_base ≤ b.address)
      × (end b ≤ t.arena.arena_base + t.arena.arena_size)
live-Apart {t = t} b c l r k j =
    let h = (Reach-IsLedger l r).holds in
    let (sb, others) = All-Picked (ArenaSlot t.arena) k h.live_slots in
    let (sc, _) = All-Picked (ArenaSlot t.arena) j others in
    (
      Apart-of_cover b c sb.positive sc.positive
          (λ p. omega (arith, h.apart p, weigh-Picked (in_block p) k, weigh-Picked (in_block p) j)),
      sb.above,
      sb.below,
    )

-- From a state that keeps its ledger, after any history of allocations whose sizes are not zero and
-- do not wrap when they are rounded, and of frees of slots that are handed out, each with a size
-- that rounds to the slot's size, `m_usedBytes` is the sum of
-- the live slots, the cached bytes are those in the caches, and used, cached and free
-- bytes together fit in the arena.
pub Reach-used :
    {s t : Traced}
    → IsLedger s.arena s.live
    → Reach s t
    → (t.arena.used_bytes ≡ total t.live)
      × (t.arena.class_cached_bytes ≡ held (λ b. b.size) t.arena.size_classes)
      × (t.arena.used_bytes + t.arena.class_cached_bytes + total t.arena.free.blocks
          ≤ t.arena.arena_size)
Reach-used l r =
    let m = Reach-IsLedger l r in
    (sym m.used, sym m.holds.cached, omega (arith, m.used, m.holds.cached, m.holds.fits))

-- From a state that keeps its ledger, after any history of allocations whose sizes are not zero and
-- do not wrap when they are rounded, and of frees of slots that are handed out, each with a size
-- that rounds to the slot's size, the free list is coalesced: in
-- address order, and no two free blocks touch.
pub Reach-IsGapped :
    {s t : Traced} → IsLedger s.arena s.live → Reach s t → IsGapped t.arena.free.blocks
Reach-IsGapped l r = (Reach-IsLedger l r).holds.gapped
