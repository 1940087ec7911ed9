-- ===== src/Hooks/Native/Served.antt =====
-- `NtAllocateVirtualMemory` and `NtAllocateVirtualMemoryEx` keep the arena's ledger and the table in
-- step.
use ts3vasmanager.Prelude.{
  subst, ℕ, refl, sym, inl, inr, Bool, true, false, not, Option, none, some, List, Bool-cases, ◌≡◌,
  ◌∙◌, ◌⊎◌, ◌&&◌, ◌∷◌, ◌==◌, if◌then◌else◌,
}
use ts3vasmanager.ProxyAllocator.Arena.Valid.{IsRequest}
use ts3vasmanager.ProxyAllocator.FreeList.{Block}
use ts3vasmanager.ProxyAllocator.Arena.{Arena}
use ts3vasmanager.Hooks.Native.Extended.{
  NtAllocEx, nt_ex_real, nt_ex_finish, nt_ex_serve, nt_ex_prepare, hooked_nt_allocate_ex,
}
use ts3vasmanager.Hooks.VatTable.Abstract.{Spec, spec_track}
use ts3vasmanager.Hooks.Virtual.Ledger.{slot_at, Shared}
use ts3vasmanager.Hooks.Virtual.Serve.{Redirected, noted, redirect_slot-Redirected, note-arena}
use ts3vasmanager.Hooks.Virtual.{Hooks, bypassed, redirects, redirect_slot}
use ts3vasmanager.Hooks.Native.{
  NtAlloc, count_nt_reasons, region_after, nt_serve_real, nt_finish, nt_prepare, nt_serve, nt_enter,
  nt_leave, hooked_nt_allocate,
}

-- What a call leaves: the ledger and the table of before, or the slot at the base that it returns,
-- of the size that was asked for, added to both.
abbrev pub NtServed : Arena → ℕ → Spec → List Block → Option (ℕ × ℕ) × Hooks → Type 0
NtServed a s m live (o, h) =
    Shared h m live
    ⊎ (p : ℕ) × (o ≡ some (p, s)) × Shared h (spec_track p s m) (slot_at a p s ∷ live)

branch :
    (m : Spec) (live : List Block) (b : Bool) (x y : Hooks)
    → Shared x m live
    → Shared y m live
    → Shared (if b then x else y) m live
branch m live true x y p q = p
branch m live false x y p q = q

module _ (m : Spec) (live : List Block) where
  reasons-Shared :
      (c : NtAlloc) (base size : ℕ) (h : Hooks)
      → Shared h m live
      → Shared (count_nt_reasons c base size h) m live
  unfolding count_nt_reasons
  reasons-Shared c base size h s = noted m live _ _ _ (
      noted m live _ _ _ (
        noted m live _ _ _
          (noted m live _ _ _ (noted m live _ _ _ (noted m live _ _ _ (noted m live _ _ _ s))))))

  ex_real-Shared :
      (eligible : Bool) (c : NtAlloc) (h : Hooks)
      → Shared h m live
      → Shared (nt_ex_real eligible c h) m live
  unfolding nt_ex_real
  ex_real-Shared eligible c h s =
      branch m live (not eligible && (c.current_process && not ((region_after c).1 == 0))) _ _
        (reasons-Shared c (region_after c).0 (region_after c).1 h s) s

  real-Shared :
      (eligible : Bool) (c : NtAlloc) (h : Hooks)
      → Shared h m live
      → Shared (nt_serve_real eligible c h) m live
  unfolding nt_serve_real
  real-Shared eligible c h s = noted m live _ _ _ (
      noted m live _ _ _ (
        noted m live _ _ _ (
          branch m live (not eligible && (c.current_process && not ((region_after c).1 == 0))) _ _
            (reasons-Shared c (region_after c).0 (region_after c).1 h s) s)))

  finish-NtServed :
      (eligible : Bool) (c : NtAlloc) (a : Arena) (r : Option ℕ × Hooks)
      → Redirected a c.region_size m live r
      → NtServed a c.region_size m live (nt_finish eligible c r)
  unfolding nt_finish
  finish-NtServed eligible c a (none, h) s =
      inl (real-Shared eligible c _ (noted m live eligible _ _ s))
  finish-NtServed eligible c a (some p, h) s =
      let one = spec_track p c.region_size m in
      let more = slot_at a p c.region_size ∷ live in
      inr (p, refl, noted one more true _ _ (noted one more true _ _ (noted one more true _ _ s)))

  ex_finish-NtServed :
      (eligible : Bool) (c : NtAlloc) (a : Arena) (r : Option ℕ × Hooks)
      → Redirected a c.region_size m live r
      → NtServed a c.region_size m live (nt_ex_finish eligible c r)
  unfolding nt_ex_finish
  ex_finish-NtServed eligible c a (none, h) s = inl (ex_real-Shared eligible c h s)
  ex_finish-NtServed eligible c a (some p, h) s = inr (p, refl, s)

  -- The redirect, if it is tried.
  tried-Redirected :
      (b commits : Bool) (size : ℕ) (h : Hooks)
      → Shared h m live
      → IsRequest h.arena size
      → Redirected h.arena size m live (if b then redirect_slot commits size h else (none, h))
  tried-Redirected true commits size h s q = redirect_slot-Redirected m live commits size h s q
  tried-Redirected false commits size h s q = s

  entered-Shared :
      (c : NtAlloc) (h : Hooks) → Shared h m live → Shared (nt_prepare c (nt_enter h)) m live
  unfolding nt_prepare nt_enter
  entered-Shared c h s = noted m live _ _ _ (branch m live c.current_process _ _ s s)

  ex_entered-Shared :
      (c : NtAlloc) (h : Hooks) → Shared h m live → Shared (nt_ex_prepare c (nt_enter h)) m live
  unfolding nt_ex_prepare nt_enter
  ex_entered-Shared c h s = noted m live _ _ _ s

  leave-NtServed :
      (a : Arena) (z : ℕ) (r : Option (ℕ × ℕ) × Hooks)
      → NtServed a z m live r
      → NtServed a z m live (r.0, nt_leave r.1)
  unfolding nt_leave
  leave-NtServed a z r s = s

branch-arena :
    (b : Bool) (x y : Hooks) (a : Arena)
    → x.arena ≡ a
    → y.arena ≡ a
    → (if b then x else y).arena ≡ a
branch-arena true x y a p q = p
branch-arena false x y a p q = q

prepare-arena : (c : NtAlloc) (h : Hooks) → (nt_prepare c (nt_enter h)).arena ≡ h.arena
unfolding nt_prepare nt_enter
prepare-arena c h = note-arena _ _ _ ∙ branch-arena c.current_process _ _ h.arena refl refl

ex_prepare-arena : (c : NtAlloc) (h : Hooks) → (nt_ex_prepare c (nt_enter h)).arena ≡ h.arena
unfolding nt_ex_prepare nt_enter
ex_prepare-arena c h = note-arena _ _ _

-- Whatever its arguments are and whatever the system answers, `NtAllocateVirtualMemory` for a size
-- that is not zero and does not wrap when it is rounded, in a state in which the arena keeps its
-- ledger and the tracked slots are live slots of it, leaves such a state: no slot was taken, or the
-- call returns the base of a slot with the size that was asked for, and the slot at this base is
-- live, of the rounded size, and tracked (unless the table is full).
pub nt_allocate-NtServed :
    (c : NtAlloc) (h : Hooks) (m : Spec) (live : List Block)
    → Shared h m live
    → IsRequest h.arena c.region_size
    → NtServed h.arena c.region_size m live (hooked_nt_allocate c h)
unfolding hooked_nt_allocate nt_serve
nt_allocate-NtServed c h m live s q =
    let g = nt_prepare c (nt_enter h) in
    let same = prepare-arena c h in
    let size = c.region_size in
    let t =
      tried-Redirected m live
        (c.current_process && redirects c.base c.region_size c.type c.protect g) c.commits
        c.region_size g (entered-Shared m live c h s)
        (subst (λ a. IsRequest a c.region_size) (sym same) q) in
    let f = finish-NtServed m live _ c g.arena _ t in
    elim (Bool-cases (bypassed c.bootstrapping h)) [
      | inl past ↦ rw past (inl s)
      | inr through ↦ rw through (
          leave-NtServed m live h.arena c.region_size _
            (subst (λ a. NtServed a c.region_size m live (nt_serve c g)) same f))
    ]

-- `NtAllocateVirtualMemoryEx`, with extended parameters or without, leaves the arena and the table as
-- the theorem before says of `NtAllocateVirtualMemory`, under the same conditions.
pub nt_allocate_ex-NtServed :
    (x : NtAllocEx) (h : Hooks) (m : Spec) (live : List Block)
    → Shared h m live
    → IsRequest h.arena x.call.region_size
    → NtServed h.arena x.call.region_size m live (hooked_nt_allocate_ex x h)
unfolding hooked_nt_allocate_ex nt_ex_serve
nt_allocate_ex-NtServed x h m live s q =
    let c = x.call in
    let g = nt_ex_prepare x.call (nt_enter h) in
    let same = ex_prepare-arena x.call h in
    let t =
      tried-Redirected m live
        (c.current_process && (redirects c.base c.region_size c.type c.protect g && not x.extended))
        c.commits c.region_size g (ex_entered-Shared m live x.call h s)
        (subst (λ a. IsRequest a x.call.region_size) (sym same) q) in
    let f = ex_finish-NtServed m live _ x.call g.arena _ t in
    elim (Bool-cases (bypassed x.call.bootstrapping h)) [
      | inl past ↦ rw past (inl s)
      | inr through ↦ rw through (
          leave-NtServed m live h.arena x.call.region_size _
            (subst (λ a. NtServed a x.call.region_size m live (nt_ex_serve x g)) same f))
    ]
