-- ===== src/Hooks/Virtual/Ledger.antt =====
-- The hooks of `VirtualAlloc` and `VirtualFree`, the arena's ledger and the table of redirected slots.
use ts3vasmanager.Hooks.VatTable.Lookups.{spec_track-live, spec_untrack-live}
use ts3vasmanager.ProxyAllocator.Arena.{Arena, free}
use ts3vasmanager.Hooks.Virtual.{Hooks}
use ts3vasmanager.Hooks.VatTable.Abstract.{Spec, Refines, spec_track, spec_untrack}
use ts3vasmanager.Hooks.VatTable.Refine.{track-Refines, untrack-Refines}
use ts3vasmanager.Hooks.VatTable.{Vat, vat_track, vat_untrack}
use ts3vasmanager.ProxyAllocator.Arena.Valid.{IsLedger, IsHeld, ArenaSlot}
use ts3vasmanager.ProxyAllocator.Arena.Ledger.{
  Picked, here, there, weigh-Picked, free-IsLedger, All-Picked,
}
use ts3vasmanager.ProxyAllocator.Arena.Granularity.{free-granularity}
use ts3vasmanager.ProxyAllocator.FreeList.{Block}
use ts3vasmanager.ProxyAllocator.FreeList.Cover.{in_block}
use ts3vasmanager.ProxyAllocator.Align.{align_up}
use ts3vasmanager.Prelude.{
  ℕ, refl, inl, inr, none, some, List, arith, Option-cases, ◌≡◌, ◌≢◌, ◌∷◌, sym,
}

-- The slot that a request of this size takes.
abbrev pub slot_at : Arena → ℕ → ℕ → Block
slot_at a p size = record { address = p; size = align_up size a.alloc_granularity }

-- The live slots of the arena are a ledger, and the table refines a map whose addresses are slots of
-- this ledger with their sizes.
pub record IsShared (a : Arena) (t : Vat) (m : Spec) (live : List Block) : Type 0 where
  pub ledger : IsLedger a live
  pub tracked : Refines t m
  pub backed :
      (p s : ℕ) → m.live p ≡ some s → (rest : List Block) × Picked (slot_at a p s) live rest

abbrev pub Shared : Hooks → Spec → List Block → Type 0
Shared h m live = IsShared h.arena h.vat m live

-- Two slots that share their address do not both stand in a ledger.
fresh-slot :
    (a : Arena) (b : Block) (c : Block) (live rest : List Block)
    → IsHeld a (b ∷ live)
    → Picked c live rest
    → c.address ≢ b.address
fresh-slot a b c live rest h k e =
    let pos_b = h.live_slots.0.positive in
    let pos_c = (All-Picked (ArenaSlot a) k h.live_slots.1).0.positive in
    let one : in_block b.address b ≡ 1 = ground arith in
    let two : in_block b.address c ≡ 1 = ground arith in
    let no : ⊥ = omega (arith, h.apart b.address, weigh-Picked (in_block b.address) k, one, two) in
    elim no [ ]

-- A slot that was not taken out is still there.
still-Picked :
    {b c : Block} {live rest others : List Block}
    → Picked b live rest
    → Picked c live others
    → c.address ≢ b.address
    → (left : List Block) × Picked c rest left
still-Picked here here ne = elim (ne refl) [ ]
still-Picked here (there k) ne = (_, k)
still-Picked (there j) here ne = (_, here)
still-Picked (there j) (there k) ne = let (left, r) = still-Picked j k ne in (_, there r)

-- A slot is granted and tracked.
pub grant-IsShared :
    (a a' : Arena) (t : Vat) (m : Spec) (live : List Block) (p s : ℕ)
    → IsShared a t m live
    → a'.alloc_granularity ≡ a.alloc_granularity
    → IsLedger a' (slot_at a p s ∷ live)
    → IsShared a' (vat_track p s t) (spec_track p s m) (slot_at a p s ∷ live)
unfolding spec_track
grant-IsShared a a' t m live p s h same l = record {
  ledger = l;
  tracked = track-Refines p s t m h.tracked gone;
  backed = λ q z e. elim (spec_track-live p s q z m e) [
    | inl (at, size) ↦ rw (at, sym size, same) (live, here)
    | inr old ↦ rw same (let (rest, k) = h.backed q z old in (_, there k))
  ];
}
  where
    gone : m.live p ≡ none
    gone = elim (Option-cases (m.live p)) [
      | inl none_yet ↦ none_yet
      | inr (z, e) ↦
          let (rest, k) = h.backed p z e in
          elim (fresh-slot a' (slot_at a p s) (slot_at a p z) live rest l.holds k refl) [ ]
    ]

-- The arena after a slot is given back, or after a refusal.
pub keep-IsShared :
    (a a' : Arena) (t : Vat) (m : Spec) (live : List Block)
    → IsShared a t m live
    → a'.alloc_granularity ≡ a.alloc_granularity
    → IsLedger a' live
    → IsShared a' t m live
keep-IsShared a a' t m live h same l = record {
  ledger = l;
  tracked = h.tracked;
  backed = λ p s e. rw same (h.backed p s e);
}

pub release-IsShared :
    (a : Arena) (t : Vat) (m : Spec) (live : List Block) (p s : ℕ)
    → IsShared a t m live
    → m.live p ≡ some s
    → (rest : List Block) × Picked (slot_at a p s) live rest
      × IsShared (free p s a) (vat_untrack p t).1 (spec_untrack p m).1 rest
unfolding spec_untrack
release-IsShared a t m live p s h e =
    let (rest, k) = h.backed p s e in
    let same = free-granularity a p s in
    (
      rest,
      k,
      record {
        ledger = free-IsLedger a (slot_at a p s) live rest s h.ledger k refl;
        tracked = (untrack-Refines p t m h.tracked).1;
        backed = λ q z f.
            let (ne, old) = spec_untrack-live p s q z m e f in
            let (others, j) = h.backed q z old in rw same (still-Picked k j ne);
      },
    )
