-- ===== src/MemoryManager/Proxy/Records.antt =====
-- The records of the manager are the ledger of its arena.
use ts3vasmanager.ProxyAllocator.FreeList.Order.{Positive, Apart, all-Apart_of_cover}
use ts3vasmanager.ProxyAllocator.Arena.Valid.{ArenaSlot, IsHeld, IsLedger}
use ts3vasmanager.ProxyAllocator.Arena.Ledger.{Picked, here, there}
use ts3vasmanager.ProxyAllocator.Align.{align_up}
use ts3vasmanager.ProxyAllocator.FreeList.{Block}
use ts3vasmanager.ProxyAllocator.Arena.{Arena}
use ts3vasmanager.MemoryManager.Proxy.{AllocRecord, Manager, erase_record, find_record}
use ts3vasmanager.Prelude.{
  ℕ, refl, inl, inr, Bool, true, false, Option, none, some, List, [], arith, All, ==_iff, ◌≡◌, ◌≢◌,
  ◌∷◌, ◌==◌, if◌then◌else◌,
}

-- The slot that a record stands for: its size is what the allocator rounds the request to.
abbrev pub slot_of : ℕ → AllocRecord → Block
slot_of g r = record { address = r.proxy_base; size = align_up r.proxy_size g }

abbrev pub slots : ℕ → List AllocRecord → List Block
slots g [] = []
slots g (r ∷ rs) = slot_of g r ∷ slots g rs

abbrev pub NotBase : ℕ → List AllocRecord → Type 0
NotBase p [] = Unit
NotBase p (r ∷ rs) = (r.proxy_base ≢ p) × NotBase p rs

abbrev pub IsManaged : Manager → Type 0
IsManaged m = IsLedger m.proxy (slots m.proxy.alloc_granularity m.allocations)

pub erase-NotBase : (p : ℕ) (rs : List AllocRecord) → NotBase p rs → erase_record p rs ≡ rs
unfolding erase_record
erase-NotBase p [] n = refl
erase-NotBase p (r ∷ rs) n = ground (arith, n.0, erase-NotBase p rs n.1)

pub find-NotBase : (p : ℕ) (rs : List AllocRecord) → NotBase p rs → find_record p rs ≡ none
unfolding find_record
find-NotBase p [] n = refl
find-NotBase p (r ∷ rs) n = ground (arith, n.0, find-NotBase p rs n.1)

Apart-NotBase :
    (g : ℕ) (b : Block) (rs : List AllocRecord)
    → Positive b
    → All Positive (slots g rs)
    → All (Apart b) (slots g rs)
    → NotBase b.address rs
Apart-NotBase g b [] pos ps qs = tt
Apart-NotBase g b (r ∷ rs) pos ps qs = (
  elim qs.0 [
    | inl before ↦ λ e. omega (arith, before, pos, e)
    | inr after ↦ λ e. omega (arith, after, ps.0, e)
  ],
  Apart-NotBase g b rs pos ps.1 qs.1,
)

slots-Positive : (a : Arena) (bs : List Block) → All (ArenaSlot a) bs → All Positive bs
slots-Positive a [] h = tt
slots-Positive a (b ∷ bs) h = (h.0.positive, slots-Positive a bs h.1)

-- A slot of the ledger shares its address with no record of the rest.
pub head-NotBase :
    (g : ℕ) (a : Arena) (b : Block) (rs : List AllocRecord)
    → IsHeld a (b ∷ slots g rs)
    → NotBase b.address rs
head-NotBase g a b rs h =
    let ps = slots-Positive a (slots g rs) h.live_slots.1 in
    Apart-NotBase g b rs h.live_slots.0.positive ps
      (all-Apart_of_cover b (slots g rs) h.live_slots.0.positive ps (λ p. omega (arith, h.apart p)))

abbrev pub FoundRecord : ℕ → ℕ → List AllocRecord → Option AllocRecord → Type 0
FoundRecord g p rs none = Unit
FoundRecord g p rs (some r) =
    (r.proxy_base ≡ p) × Picked (slot_of g r) (slots g rs) (slots g (erase_record p rs))

module _ (g p : ℕ) where
  found-step :
      (r : AllocRecord) (rs : List AllocRecord) (b : Bool) (o : Option AllocRecord)
      → (r.proxy_base == p) ≡ b
      → FoundRecord g p rs o
      → FoundRecord g p (r ∷ rs) (if b then some r else o)
  unfolding erase_record
  found-step r rs true o e h = rw e ((==_iff r.proxy_base p).0 e, here)
  found-step r rs false none e h = tt
  found-step r rs false (some s) e h = rw e (h.0, there h.1)

  pub find_record-Found : (rs : List AllocRecord) → FoundRecord g p rs (find_record p rs)
  unfolding find_record
  find_record-Found [] = tt
  find_record-Found (r ∷ rs) =
      found-step r rs (r.proxy_base == p) (find_record p rs) refl (find_record-Found rs)
