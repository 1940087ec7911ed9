-- ===== src/Hooks/Native/Flag.antt =====
-- The flag that the native hooks leave set.
use ts3vasmanager.MapViewTypeTracker.Types.{no_slot}
use ts3vasmanager.ProxyAllocator.Arena.{Arena}
use ts3vasmanager.Hooks.Native.{
  NtAlloc, count_nt_reasons, region_after, nt_serve_real, nt_finish, nt_prepare, nt_serve, nt_enter,
  nt_leave, hooked_nt_allocate,
}
use ts3vasmanager.Hooks.Virtual.{
  Hooks, HookEvent, note, commit_slot, redirect_slot, Alloc, bypassed, redirects,
  hooked_virtual_alloc,
}
use ts3vasmanager.Prelude.{
  ℕ, refl, inl, inr, Bool, true, false, not, Option, none, some, arith, Bool-cases, add32, ◌^◌, ◌<◌,
  ◌≡◌, ◌&&◌, ◌==◌, if◌then◌else◌,
}

-- The thread is marked as in a hook, with this many calls in flight.
abbrev Flagged : ℕ → Hooks → Type 0
Flagged n h = (h.in_hook ≡ true) × (h.active_hook_calls ≡ n)

module _ (n : ℕ) where
  noted : (b : Bool) (e : HookEvent) (h : Hooks) → Flagged n h → Flagged n (note b e h)
  unfolding note
  noted true e h f = f
  noted false e h f = f

  commit_slot-Flagged :
      (commits : Bool) (s : ℕ) (h : Hooks) (r : Option ℕ × Arena)
      → Flagged n h
      → Flagged n (commit_slot commits s h r).1
  unfolding commit_slot
  commit_slot-Flagged commits s h (none, a) f = f
  commit_slot-Flagged true s h (some p, a) f = f
  commit_slot-Flagged false s h (some p, a) f = f

  count_reasons-Flagged :
      (c : NtAlloc) (base size : ℕ) (h : Hooks)
      → Flagged n h
      → Flagged n (count_nt_reasons c base size h)
  unfolding count_nt_reasons
  count_reasons-Flagged c base size h f =
      noted _ _ _
        (noted _ _ _ (noted _ _ _ (noted _ _ _ (noted _ _ _ (noted _ _ _ (noted _ _ _ f))))))

  branch : (b : Bool) (x y : Hooks) → Flagged n x → Flagged n y → Flagged n (if b then x else y)
  branch true x y p q = p
  branch false x y p q = q

  serve_real-Flagged :
      (eligible : Bool) (c : NtAlloc) (h : Hooks)
      → Flagged n h
      → Flagged n (nt_serve_real eligible c h)
  unfolding nt_serve_real
  serve_real-Flagged eligible c h f = noted _ _ _ (
      noted _ _ _ (
        noted _ _ _ (
          branch (not eligible && (c.current_process && not ((region_after c).1 == 0))) _ _
            (count_reasons-Flagged c (region_after c).0 (region_after c).1 h f) f)))

  finish-Flagged :
      (eligible : Bool) (c : NtAlloc) (r : Option ℕ × Hooks)
      → Flagged n r.1
      → Flagged n (nt_finish eligible c r).1
  unfolding nt_finish
  finish-Flagged eligible c (some p, h) f = noted true _ _ (noted true _ _ (noted true _ _ f))
  finish-Flagged eligible c (none, h) f = serve_real-Flagged eligible c _ (noted eligible _ _ f)

  serve-Flagged : (c : NtAlloc) (h : Hooks) → Flagged n h → Flagged n (nt_serve c h).1
  unfolding nt_serve redirect_slot
  serve-Flagged c h f =
      elim (Bool-cases (c.current_process && redirects c.base c.region_size c.type c.protect h)) [
        | inl yes_slot ↦
            rw yes_slot
              (finish-Flagged true c _ (commit_slot-Flagged c.commits c.region_size h _ f))
        | inr no_slot ↦ rw no_slot (finish-Flagged false c (none, h) f)
      ]

  prepare-Flagged : (c : NtAlloc) (h : Hooks) → Flagged n h → Flagged n (nt_prepare c h)
  unfolding nt_prepare
  prepare-Flagged c h f = noted _ _ _ (branch c.current_process _ _ f f)

-- A thread that a hook has marked bypasses the hook of `VirtualAlloc`.
marked : (c : Alloc) (h : Hooks) → h.in_hook ≡ true → hooked_virtual_alloc c h ≡ (c.real, h)
unfolding hooked_virtual_alloc bypassed
marked c h e = ground arith

-- A call of `NtAllocateVirtualMemory` that is not bypassed leaves the number of the calls in flight
-- as it was, a number below 2 ^ 32, but its thread stays marked as in a hook: every later call of
-- `VirtualAlloc` on it, whatever its arguments are, is passed to the real function, and changes
-- neither the arena nor any table.
pub nt_allocate-deaf :
    (c : NtAlloc) (h : Hooks) (d : Alloc)
    → bypassed c.bootstrapping h ≡ false
    → h.active_hook_calls < 2 ^ 32
    → let h' = (hooked_nt_allocate c h).1 in
      (h'.active_hook_calls ≡ h.active_hook_calls)
      × (h'.in_hook ≡ true)
      × (hooked_virtual_alloc d h' ≡ (d.real, h'))
unfolding hooked_nt_allocate nt_leave nt_enter
nt_allocate-deaf c h d through small =
    let n = add32 h.active_hook_calls 1 in
    let (mark, calls) =
      serve-Flagged n c (nt_prepare c (nt_enter h))
        (prepare-Flagged n c (nt_enter h) (refl, refl)) in
    rw through (omega (arith, calls), mark, marked d _ mark)
