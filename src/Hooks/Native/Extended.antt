-- ===== src/Hooks/Native/Extended.antt =====
-- WorkingHooks.cpp: `Hooked_NtAllocateVirtualMemoryEx`, with pointers to the base and to the size that
-- are not null, and with the real function there.
use ts3vasmanager.Prelude.{ℕ, Bool, not, Option, none, some, ◌&&◌, ◌==◌, if◌then◌else◌}
use ts3vasmanager.Hooks.Virtual.{Hooks, note, bypassed, redirects, redirect_slot}
use ts3vasmanager.Hooks.Native.{NtAlloc, count_nt_reasons, region_after, nt_enter, nt_leave, va_mix}

-- The call, and whether it has extended parameters.
pub record NtAllocEx : Type 0 where
  pub call : NtAlloc
  pub extended : Bool

unfoldable pub nt_ex_real : Bool → NtAlloc → Hooks → Hooks
nt_ex_real eligible c h =
    let (base, size) = region_after c in
    if not eligible && (c.current_process && not (size == 0))
    then count_nt_reasons c base size h
    else h

-- Unlike `Hooked_NtAllocateVirtualMemory` it counts neither what it redirects nor what it fails to.
unfoldable pub nt_ex_finish : Bool → NtAlloc → Option ℕ × Hooks → Option (ℕ × ℕ) × Hooks
nt_ex_finish eligible c (some p, h) = (some (p, c.region_size), h)
nt_ex_finish eligible c (none, h) = (c.real, nt_ex_real eligible c h)

unfoldable pub nt_ex_serve : NtAllocEx → Hooks → Option (ℕ × ℕ) × Hooks
nt_ex_serve x h =
    let c = x.call in
    let eligible =
      c.current_process && (redirects c.base c.region_size c.type c.protect h && not x.extended) in
    nt_ex_finish eligible c
      (if eligible then redirect_slot c.commits c.region_size h else (none, h))

-- It does not activate the proxy.
unfoldable pub nt_ex_prepare : NtAlloc → Hooks → Hooks
nt_ex_prepare c h =
    note (c.current_process && not (c.region_size == 0)) (va_mix c.region_size c.type c.protect) h

-- `Hooked_NtAllocateVirtualMemoryEx`: the base and the size on success.
unfoldable pub hooked_nt_allocate_ex : NtAllocEx → Hooks → Option (ℕ × ℕ) × Hooks
hooked_nt_allocate_ex x h =
    let r = nt_ex_serve x (nt_ex_prepare x.call (nt_enter h)) in
    if bypassed x.call.bootstrapping h then (x.call.real, h) else (r.0, nt_leave r.1)
