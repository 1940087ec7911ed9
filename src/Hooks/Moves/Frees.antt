-- ===== src/Hooks/Moves/Frees.antt =====
-- What a reallocation leaves of the records and of the arena.
use ts3vasmanager.ProxyAllocator.Arena.Valid.{ArenaSlot}
use ts3vasmanager.ProxyAllocator.Arena.{is_proxy_address}
use ts3vasmanager.MemoryManager.Proxy.{AllocRecord, Manager, find_record, free_proxy_allocation}
use ts3vasmanager.MemoryManager.Proxy.Managed.{Freed, free_proxy_allocation-Freed}
use ts3vasmanager.MemoryManager.Proxy.Records.{IsManaged, find_record-Found, FoundRecord, slot_of}
use ts3vasmanager.ProxyAllocator.Arena.Ledger.{All-Picked, is_proxy-slot}
use ts3vasmanager.Prelude.{ℕ, subst, refl, inl, inr, Bool, true, false, Option, none, some, ◌≡◌}

-- Every record's slot is in the arena, so an address outside has none.
pub outside-none :
    (p : ℕ) (m : Manager)
    → IsManaged m
    → is_proxy_address m.proxy p ≡ false
    → find_record p m.allocations ≡ none
outside-none p m h out =
    go (find_record p m.allocations) refl
      (find_record-Found m.proxy.alloc_granularity p m.allocations)
  where
    go :
        (o : Option AllocRecord)
        → find_record p m.allocations ≡ o
        → FoundRecord m.proxy.alloc_granularity p m.allocations o
        → find_record p m.allocations ≡ none
    go none e f = e
    go (some r) e f =
        let inside =
          is_proxy-slot (slot_of m.proxy.alloc_granularity r) h.holds
            (All-Picked (ArenaSlot m.proxy) f.1 h.holds.live_slots).0 in
        let at : is_proxy_address m.proxy p ≡ true =
          subst (λ x. is_proxy_address m.proxy x ≡ true) f.0 inside.0 in
        cc

-- The records are the live slots, and this address has none.
abbrev pub Gone : ℕ → Manager → Type 0
Gone p m = IsManaged m × (find_record p m.allocations ≡ none)

pub free-Gone : (p : ℕ) (m : Manager) → IsManaged m → Gone p (free_proxy_allocation p m).1
free-Gone p m h = go (free_proxy_allocation p m) (free_proxy_allocation-Freed p m h)
  where
    go : (r : Bool × Manager) → Freed p m r → Gone p r.1
    go (true, m') f = (f.0, f.2)
    go (false, m') (same, inr gone) = rw same (h, gone)
    go (false, m') (same, inl out) = rw same (h, outside-none p m h out)
