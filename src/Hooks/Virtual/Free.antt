-- ===== src/Hooks/Virtual/Free.antt =====
-- What `VirtualFree` leaves of the arena's ledger and of the table.
use ts3vasmanager.ProxyAllocator.Arena.Ledger.{Picked}
use ts3vasmanager.ProxyAllocator.FreeList.{Block}
use ts3vasmanager.ProxyAllocator.Arena.{free}
use ts3vasmanager.MemoryManager.Corral.{is_corral_address}
use ts3vasmanager.Hooks.VatTable.Abstract.{Spec, spec_untrack}
use ts3vasmanager.Hooks.VatTable.Refine.{untrack-Refines}
use ts3vasmanager.Hooks.Virtual.Ledger.{slot_at, Shared, release-IsShared}
use ts3vasmanager.Hooks.VatTable.{vat_untrack, Vat}
use ts3vasmanager.Hooks.Switches.{mem_release, has}
use ts3vasmanager.Hooks.Virtual.{
  Hooks, note, Release, untrack_released, release_tracked, release_own, redirected_freed, bypassed,
  enter, leave, retire_diagnostic, hooked_virtual_free,
}
use ts3vasmanager.Prelude.{
  ℕ, refl, inl, inr, Bool, true, false, not, Option, none, some, List, arith, Bool-cases,
  Option-cases, ◌≡◌, ◌⊎◌, ◌&&◌, ◌==◌, ◌∙◌, if◌then◌else◌, subst, sym, ap,
}

-- The calls that give a tracked slot back: a release, of an address that is not in the script arena.
abbrev pub gives_back : Release → Hooks → Bool
gives_back c h =
    has c.type mem_release && not (not (c.address == 0) && is_corral_address c.address h.corral)

-- What a release leaves: the arena and the table of before, for an address that is not tracked or a
-- call that gives no slot back; or, for a call that gives one back and an address that is tracked,
-- both without its slot, and the answer is that it succeeded.
abbrev pub Released : Release → Hooks → Spec → List Block → Bool × Hooks → Type 0
Released c h m live (ok, h') =
    (Shared h' m live
      × (h'.arena ≡ h.arena)
      × (h'.vat ≡ h.vat)
      × ((m.live c.address ≡ none) ⊎ (gives_back c h ≡ false)))
    ⊎ (s : ℕ) × (rest : List Block) × (m.live c.address ≡ some s)
      × (gives_back c h ≡ true)
      × Picked (slot_at h.arena c.address s) live rest
      × Shared h' (spec_untrack c.address m).1 rest
      × (ok ≡ true)

-- The answer of the part that serves the release itself.
abbrev Owned : Release → Hooks → Spec → List Block → Option Hooks → Type 0
Owned c h m live none = (m.live c.address ≡ none) ⊎ (gives_back c h ≡ false)
Owned c h m live (some h') = Released c h m live (true, h')

module _ (c : Release) (m : Spec) (live : List Block) where
  freed_slot-IsShared :
      (h : Hooks) (s : ℕ)
      → Shared h m live
      → m.live c.address ≡ some s
      → gives_back c h ≡ true
      → Released c h m live (
        true,
        note true redirected_freed
            (record h { arena = free c.address s h.arena; vat = (vat_untrack c.address h.vat).1 }),
      )
  unfolding note
  freed_slot-IsShared h s k e back =
      let (rest, picked, after) = release-IsShared h.arena h.vat m live c.address s k e in
      inr (
        s,
        rest,
        e,
        back,
        picked,
        record { ledger = after.ledger; tracked = after.tracked; backed = after.backed },
        refl,
      )

  tracked_none : (h : Hooks) (r : Option ℕ × Vat) → r.0 ≡ none → release_tracked c r h ≡ none
  unfolding release_tracked
  tracked_none h (none, v) e = refl
  tracked_none h (some s, v) e = cc

  tracked_some :
      (h : Hooks) (s : ℕ) (r : Option ℕ × Vat)
      → r.0 ≡ some s
      → release_tracked c r h
        ≡ some
            (note true redirected_freed (record h { arena = free c.address s h.arena; vat = r.1 }))
  unfolding release_tracked
  tracked_some h s (none, v) e = cc
  tracked_some h s (some z, v) e = let same : z ≡ s = cc in rw same refl

  -- Behind the test of the script arena.
  release_tracked-Owned :
      (h : Hooks)
      → Shared h m live
      → has c.type mem_release && (not (c.address == 0) && is_corral_address c.address h.corral)
        ≡ false
      → Owned c h m live (release_tracked c (untrack_released c h) h)
  unfolding untrack_released spec_untrack release_tracked
  release_tracked-Owned h k outside = elim (Bool-cases (has c.type mem_release)) [
    | inr other ↦ let keeps : gives_back c h ≡ false = ground arith in rw other (inr keeps)
    | inl releases ↦
        let back : gives_back c h ≡ true = ground arith in
        let (same, after) = untrack-Refines c.address h.vat m k.tracked in
        elim (Option-cases (m.live c.address)) [
          | inl gone ↦
              rw
                (
                  releases,
                  tracked_none h (vat_untrack c.address h.vat)
                      (same ∙ rw (gone, spec_untrack) refl),
                )
                (inl gone)
          | inr (s, e) ↦
              rw
                (
                  releases,
                  tracked_some h s (vat_untrack c.address h.vat) (same ∙ rw (e, spec_untrack) refl),
                )
                (freed_slot-IsShared h s k e back)
        ]
  ]

  release_own-Owned : (h : Hooks) → Shared h m live → Owned c h m live (release_own c h)
  unfolding release_own note
  release_own-Owned h k =
      elim (Bool-cases (
        has c.type mem_release && (not (c.address == 0) && is_corral_address c.address h.corral))) [
          | inr other ↦ rw other (release_tracked-Owned h k other)
          | inl corral ↦
              let keeps : gives_back c h ≡ false = ground arith in
              rw corral (
                inl (
                  record { ledger = k.ledger; tracked = k.tracked; backed = k.backed },
                  refl,
                  refl,
                  inr keeps,
                ))
        ]

  retire-Shared : (h : Hooks) → Shared h m live → Shared (retire_diagnostic c h) m live
  unfolding retire_diagnostic
  retire-Shared h k = elim (Bool-cases (has c.type mem_release && not (c.address == 0))) [
    | inl both ↦ rw both (record { ledger = k.ledger; tracked = k.tracked; backed = k.backed })
    | inr other ↦ rw other k
  ]

  real-Released :
      (h : Hooks)
      → Shared h m live
      → Owned c h m live none
      → Released c h m live (c.real, if bypassed c.bootstrapping h then h else leave (enter h))
  unfolding leave enter
  real-Released h k why = elim (Bool-cases (bypassed c.bootstrapping h)) [
    | inl past ↦ rw past (inl (k, refl, refl, why))
    | inr through ↦ rw through (
        inl (record { ledger = k.ledger; tracked = k.tracked; backed = k.backed }, refl, refl, why))
  ]

  settled :
      (h : Hooks) (o : Option Hooks)
      → release_own c h ≡ o
      → Shared h m live
      → Owned c h m live o
      → Released c h m live (elim (release_own c h) [
        | some done ↦ (true, done)
        | none ↦ (c.real, if bypassed c.bootstrapping h then h else leave (enter h))
      ])
  settled h none e k why = rw e (real-Released h k why)
  settled h (some done) e k r = rw e r

retired-same :
    (c : Release) (h : Hooks)
    → ((retire_diagnostic c h).arena ≡ h.arena)
      × ((retire_diagnostic c h).corral ≡ h.corral)
      × ((retire_diagnostic c h).vat ≡ h.vat)
unfolding retire_diagnostic
retired-same c h = elim (Bool-cases (has c.type mem_release && not (c.address == 0))) [
  | inl both ↦ rw both (refl, refl, refl)
  | inr other ↦ rw other (refl, refl, refl)
]

backs : (c : Release) (g h : Hooks) → g.corral ≡ h.corral → gives_back c h ≡ gives_back c g
backs c g h e =
    ap (λ x. has c.type mem_release && not (not (c.address == 0) && is_corral_address c.address x))
      (sym e)

moved :
    (c : Release) (g h : Hooks) (m : Spec) (live : List Block) (r : Bool × Hooks)
    → g.arena ≡ h.arena
    → g.corral ≡ h.corral
    → g.vat ≡ h.vat
    → Released c g m live r
    → Released c h m live r
moved c g h m live r arena corral vat (inl (k, a, t, why)) = inl (
  k,
  a ∙ arena,
  t ∙ vat,
  elim why [ inl gone ↦ inl gone | inr keeps ↦ inr (backs c g h corral ∙ keeps) ],
)
moved c g h m live r arena corral vat (inr (s, rest, e, back, picked, k, ok)) = inr (
  s,
  rest,
  e,
  backs c g h corral ∙ back,
  subst (λ a. Picked (slot_at a c.address s) live rest) arena picked,
  k,
  ok,
)

-- In a state in which the arena keeps its ledger and the tracked slots are live slots of it,
-- `VirtualFree` leaves such a state. If the call is a release, its address is not in the script
-- arena and is tracked, then it succeeds, and the slot that was granted there is taken out of the
-- ledger and out of the table; otherwise, that is if the address is not tracked, if the call is no
-- release, or if the address is in the script arena, the arena and the table are unchanged.
pub hooked_virtual_free-Released :
    (c : Release) (h : Hooks) (m : Spec) (live : List Block)
    → Shared h m live
    → Released c h m live (hooked_virtual_free c h)
unfolding hooked_virtual_free
hooked_virtual_free-Released c h m live k =
    let (arena, corral, vat) = retired-same c h in
    let after = retire-Shared c m live h k in
    let g = retire_diagnostic c h in
    moved c g h m live (hooked_virtual_free c h) arena corral vat
      (settled c m live g (release_own c g) refl after (release_own-Owned c m live g after))
