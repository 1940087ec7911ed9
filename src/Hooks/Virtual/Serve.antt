-- ===== src/Hooks/Virtual/Serve.antt =====
-- `VirtualAlloc` and `VirtualFree` keep the arena's ledger and the table in step.
use ts3vasmanager.MapViewTypeTracker.Types.{no_slot}
use ts3vasmanager.Hooks.Switches.{mem_reserve, force_virtual_alloc_min_size, has}
use ts3vasmanager.ProxyAllocator.Arena.Granularity.{free-granularity, allocate-granularity}
use ts3vasmanager.ProxyAllocator.Arena.Ledger.{Allocated, allocate-Allocated, free-IsLedger, here}
use ts3vasmanager.ProxyAllocator.Align.{align_up}
use ts3vasmanager.ProxyAllocator.Arena.{Arena, prefers_top_down, free}
use ts3vasmanager.MemoryManager.Corral.{Corral}
use ts3vasmanager.Hooks.Virtual.Ledger.{Shared, slot_at, grant-IsShared, keep-IsShared}
use ts3vasmanager.Hooks.Virtual.{
  Hooks, Alloc, HookEvent, note, commit_slot, redirect_slot, count_reasons, place_local,
  serve_local, report_local, finish, prepare, serve, enter, leave, bypassed, hooked_virtual_alloc,
  redirects, redirected_bytes, local_vas_reserve, va_mix, redirected,
}
use ts3vasmanager.Hooks.VatTable.Abstract.{Spec, spec_track}
use ts3vasmanager.ProxyAllocator.Arena.Valid.{IsRequest}
use ts3vasmanager.ProxyAllocator.FreeList.{Block}
use ts3vasmanager.Prelude.{
  ℕ, ap, inl, inr, Bool, true, false, Option, none, some, List, Bool-cases, ◌≡◌, ◌∙◌, ◌⊎◌, ◌∷◌,
  ◌==◌, subst, refl, sym, not, leb, ◌*◌, ◌&&◌, ◌||◌, if◌then◌else◌,
}

-- What a call leaves: the ledger and the table of before, or the slot at the returned address added
-- to both.
abbrev pub Served : Arena → ℕ → Spec → List Block → ℕ × Hooks → Type 0
Served a s m live (p, h) = Shared h m live ⊎ Shared h (spec_track p s m) (slot_at a p s ∷ live)

abbrev pub Redirected : Arena → ℕ → Spec → List Block → Option ℕ × Hooks → Type 0
Redirected a s m live (none, h) = Shared h m live
Redirected a s m live (some p, h) = Shared h (spec_track p s m) (slot_at a p s ∷ live)

module _ (m : Spec) (live : List Block) where
  pub noted : (b : Bool) (e : HookEvent) (h : Hooks) → Shared h m live → Shared (note b e h) m live
  unfolding note
  noted true e h s = record { ledger = s.ledger; tracked = s.tracked; backed = s.backed }
  noted false e h s = s

  noted_grant :
      (a : Arena) (z p : ℕ) (h : Hooks)
      → Shared h (spec_track p z m) (slot_at a p z ∷ live)
      → Shared
          (note true (redirected_bytes z) (note true redirected h))
          (spec_track p z m)
          (slot_at a p z ∷ live)
  unfolding note
  noted_grant a z p h s = record { ledger = s.ledger; tracked = s.tracked; backed = s.backed }

  branch :
      (b : Bool) (x y : ℕ × Hooks)
      → Shared x.1 m live
      → Shared y.1 m live
      → Shared (if b then x else y).1 m live
  branch true x y p q = p
  branch false x y p q = q

  commit_slot-Redirected :
      (commits : Bool) (s : ℕ) (h : Hooks) (r : Option ℕ × Arena)
      → Shared h m live
      → r.1.alloc_granularity ≡ h.arena.alloc_granularity
      → Allocated live (align_up s h.arena.alloc_granularity) r
      → Redirected h.arena s m live (commit_slot commits s h r)
  unfolding commit_slot
  commit_slot-Redirected commits s h (none, a) k same l =
      keep-IsShared h.arena a h.vat m live k same l
  commit_slot-Redirected true s h (some p, a) k same l =
      grant-IsShared h.arena a h.vat m live p s k same l
  commit_slot-Redirected false s h (some p, a) k same l =
      keep-IsShared h.arena (free p s a) h.vat m live k (free-granularity a p s ∙ same)
        (free-IsLedger a (slot_at h.arena p s) _ live s l here (ap (align_up s) same))

  pub redirect_slot-Redirected :
      (commits : Bool) (s : ℕ) (h : Hooks)
      → Shared h m live
      → IsRequest h.arena s
      → Redirected h.arena s m live (redirect_slot commits s h)
  unfolding redirect_slot
  redirect_slot-Redirected commits s h k rq =
      commit_slot-Redirected commits s h _ k
        (allocate-granularity s (prefers_top_down h.arena s) h.arena)
        (allocate-Allocated s live (prefers_top_down h.arena s) h.arena rq k.ledger)

  count_reasons-Shared :
      (c : Alloc) (h : Hooks) → Shared h m live → Shared (count_reasons c h) m live
  unfolding count_reasons
  count_reasons-Shared c h s = noted _ _ _ (
      noted _ _ _ (
        noted _ _ _ (
          noted _ _ _
            (noted _ _ _ (noted _ _ _ (noted _ _ _ (noted _ _ _ (noted _ _ _ (noted _ _ _ s)))))))))

  place_local-Shared :
      (c : Alloc) (b : Bool) (r : Option ℕ × Corral) (h : Hooks)
      → Shared h m live
      → Shared (place_local c b r h).2 m live
  unfolding place_local
  place_local-Shared c b (some p, k) h s = noted true _ _ s
  place_local-Shared c b (none, k) h s = noted b _ _ s

  serve_local-Shared :
      (eligible : Bool) (c : Alloc) (h : Hooks)
      → Shared h m live
      → Shared (serve_local eligible c h).2 m live
  unfolding serve_local
  serve_local-Shared true c h s = place_local-Shared c _ _ _ (noted true _ _ s)
  serve_local-Shared false c h s = elim (Bool-cases (c.size == 0)) [
    | inl empty ↦ rw empty (place_local-Shared c _ _ _ s)
    | inr some_bytes ↦ rw some_bytes (place_local-Shared c _ _ _ (count_reasons-Shared c h s))
  ]

  report_local-Shared :
      (c : Alloc) (r : ℕ × Bool × Hooks) → Shared r.2 m live → Shared (report_local c r).1 m live
  unfolding report_local
  report_local-Shared c (p, placed, h) s =
      let counted =
        noted
          (has c.type mem_reserve
            && (leb force_virtual_alloc_min_size c.size && (p == 0 || not placed)))
          (local_vas_reserve c.size (p == 0)) h s in
      branch (not (p == 0) && (has c.type mem_reserve && leb (1024 * 1024) c.size)) _ _
        (record { ledger = counted.ledger; tracked = counted.tracked; backed = counted.backed })
        counted

  finish-Served :
      (eligible : Bool) (c : Alloc) (a : Arena) (r : Option ℕ × Hooks)
      → Redirected a c.size m live r
      → Served a c.size m live (finish eligible c r)
  unfolding finish
  finish-Served eligible c a (none, h) s =
      inl (report_local-Shared c (serve_local eligible c h) (serve_local-Shared eligible c h s))
  finish-Served eligible c a (some p, h) s = inr (noted_grant a c.size p h s)

  serve-Served :
      (c : Alloc) (h : Hooks)
      → Shared h m live
      → IsRequest h.arena c.size
      → Served h.arena c.size m live (serve c h)
  unfolding serve
  serve-Served c h s rq = elim (Bool-cases (redirects c.address c.size c.type c.protect h)) [
    | inl yes_slot ↦
        rw yes_slot
          (finish-Served true c h.arena _ (redirect_slot-Redirected c.commits c.size h s rq))
    | inr no_slot ↦ rw no_slot (finish-Served false c h.arena (none, h) s)
  ]

  prepare-Shared : (c : Alloc) (h : Hooks) → Shared h m live → Shared (prepare c (enter h)) m live
  unfolding prepare enter
  prepare-Shared c h s =
      let mixed =
        noted (not (c.size == 0)) (va_mix c.size c.type c.protect) (enter h)
          (record { ledger = s.ledger; tracked = s.tracked; backed = s.backed }) in
      noted _ _ _ (record { ledger = mixed.ledger; tracked = mixed.tracked; backed = mixed.backed })

  leave-Served :
      (a : Arena) (z : ℕ) (r : ℕ × Hooks) → Served a z m live r → Served a z m live (r.0, leave r.1)
  unfolding leave
  leave-Served a z r (inl s) =
      inl (record { ledger = s.ledger; tracked = s.tracked; backed = s.backed })
  leave-Served a z r (inr s) =
      inr (record { ledger = s.ledger; tracked = s.tracked; backed = s.backed })

pub note-arena : (b : Bool) (e : HookEvent) (h : Hooks) → (note b e h).arena ≡ h.arena
unfolding note
note-arena true e h = refl
note-arena false e h = refl

prepare-arena : (c : Alloc) (h : Hooks) → (prepare c (enter h)).arena ≡ h.arena
unfolding prepare enter
prepare-arena c h = note-arena _ _ _ ∙ note-arena _ _ _

-- Whatever its arguments are and whatever the system answers, `VirtualAlloc` of a size that is not
-- zero and does not wrap when it is rounded, in a state in which the arena keeps its ledger and the
-- tracked slots are live slots of it, leaves such a state: either no slot was taken, or the slot at
-- the returned address is live, of the rounded size, and tracked (unless the table is full).
pub hooked_virtual_alloc-Served :
    (c : Alloc) (h : Hooks) (m : Spec) (live : List Block)
    → Shared h m live
    → IsRequest h.arena c.size
    → Served h.arena c.size m live (hooked_virtual_alloc c h)
unfolding hooked_virtual_alloc
hooked_virtual_alloc-Served c h m live s rq =
    let same = prepare-arena c h in
    let served : Served h.arena c.size m live (serve c (prepare c (enter h))) =
      subst (λ a. Served a c.size m live (serve c (prepare c (enter h)))) same
        (serve-Served m live c (prepare c (enter h)) (prepare-Shared m live c h s)
          (subst (λ a. IsRequest a c.size) (sym same) rq)) in
    elim (Bool-cases (bypassed c.bootstrapping h)) [
      | inl past ↦ rw past (inl s)
      | inr through ↦ rw through (leave-Served m live h.arena c.size _ served)
    ]
