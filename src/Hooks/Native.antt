-- ===== src/Hooks/Native.antt =====
-- WorkingHooks.cpp: `Hooked_NtAllocateVirtualMemory` and `Hooked_NtFreeVirtualMemory`, with pointers
-- to the base and to the size that are not null. What they share with the Win32 hooks is in Virtual.
pub mod Extended
pub mod Flag
pub mod Served
use ts3vasmanager.Hooks.Switches.{
  Surroundings, mem_commit, mem_reserve, mem_write_watch, force_virtual_alloc_min_size,
  heap_capture_threshold, has, is_exec_protect, ensure_proxy_active,
}
use ts3vasmanager.Hooks.Virtual.{
  Hooks, Release, note, bypassed, redirects, redirect_slot, redirected, redirected_bytes,
  redirect_failed, size_band, sub_1mb, mb1_to_16, mb16_to_256, SizeBand, retire_diagnostic,
  release_own, because, local_vas_reserve, va_mix, write_watch_exec, reserved, exec_protect,
  write_watch, commit_only, no_reserve, non_null_base, not_redirected,
}
use ts3vasmanager.Prelude.{
  ℕ, Bool, true, false, not, Option, none, some, ltb, leb, add32, sub32, ◌*◌, ◌&&◌, ◌==◌,
  if◌then◌else◌,
}

-- One call of the allocation: whether the handle is the own process; the base and the size that are
-- passed in; the base and the size that the real function sets, if it succeeds; and the rest as in
-- `Alloc`.
pub record NtAlloc : Type 0 where
  pub current_process : Bool
  pub base : ℕ
  pub region_size : ℕ
  pub type : ℕ
  pub protect : ℕ
  pub bootstrapping : Bool
  pub surroundings : Surroundings
  pub commits : Bool
  pub real : Option (ℕ × ℕ)

unfoldable pub band_of : ℕ → SizeBand
band_of size =
    if ltb size (1024 * 1024)
    then sub_1mb
    else if ltb size (16 * 1024 * 1024)
    then mb1_to_16
    else mb16_to_256

-- The counters of a call that is not redirected, at the base and size that the real function left.
unfoldable pub count_nt_reasons : NtAlloc → ℕ → ℕ → Hooks → Hooks
count_nt_reasons c base size h =
    let ww = has c.type mem_write_watch in
    let exec = is_exec_protect c.protect in
    note (ww && exec) (because write_watch_exec size) (
      note exec (because exec_protect size) (
        note ww (because write_watch size) (
          note (has c.type mem_commit && not (has c.type mem_reserve)) (because commit_only size) (
            note (not (has c.type mem_reserve)) (because no_reserve size) (
              note (not (base == 0)) (because non_null_base size)
                (note true (not_redirected size) h))))))

-- The base and size after the real function: those that it set, or those that were passed in.
unfoldable pub region_after : NtAlloc → ℕ × ℕ
region_after c = elim c.real [ none ↦ (c.base, c.region_size) | some r ↦ r ]

unfoldable pub nt_serve_real : Bool → NtAlloc → Hooks → Hooks
nt_serve_real eligible c h =
    let (base, size) = region_after c in
    let counted =
      if not eligible && (c.current_process && not (size == 0))
      then count_nt_reasons c base size h
      else h in
    let reserve = c.current_process && has c.type mem_reserve in
    let failed : Bool = elim c.real [ none ↦ true | some r ↦ false ] in
    let reported =
      note (reserve && leb force_virtual_alloc_min_size size) (local_vas_reserve size failed)
        counted in
    let large = not failed && (reserve && leb heap_capture_threshold size) in
    note large (size_band (band_of size)) (note large (reserved size) reported)

unfoldable pub nt_finish : Bool → NtAlloc → Option ℕ × Hooks → Option (ℕ × ℕ) × Hooks
nt_finish eligible c (some p, h) = (
  some (p, c.region_size),
  note true (size_band (band_of c.region_size))
      (note true (redirected_bytes c.region_size) (note true redirected h)),
)
nt_finish eligible c (none, h) =
    (c.real, nt_serve_real eligible c (note eligible redirect_failed h))

unfoldable pub nt_prepare : NtAlloc → Hooks → Hooks
nt_prepare c h =
    let ensured =
      if c.current_process
      then record h {
        switches = ensure_proxy_active c.surroundings c.region_size c.type c.protect h.switches;
      }
      else h in
    note (c.current_process && not (c.region_size == 0)) (va_mix c.region_size c.type c.protect)
      ensured

unfoldable pub nt_serve : NtAlloc → Hooks → Option (ℕ × ℕ) × Hooks
nt_serve c h =
    let eligible = c.current_process && redirects c.base c.region_size c.type c.protect h in
    nt_finish eligible c (if eligible then redirect_slot c.commits c.region_size h else (none, h))

-- The flags and the number of the calls in flight, set at the entry; at the exit the scope clears the
-- one flag and the number goes down, but `SetInHook(false)` is not called.
unfoldable pub nt_enter : Hooks → Hooks
nt_enter h = record h {
  tl_hook_active = true;
  in_hook = true;
  active_hook_calls = add32 h.active_hook_calls 1;
}

unfoldable pub nt_leave : Hooks → Hooks
nt_leave h = record h { tl_hook_active = false; active_hook_calls = sub32 h.active_hook_calls 1 }

-- `Hooked_NtAllocateVirtualMemory`: the base and the size on success.
unfoldable pub hooked_nt_allocate : NtAlloc → Hooks → Option (ℕ × ℕ) × Hooks
hooked_nt_allocate c h =
    let r = nt_serve c (nt_prepare c (nt_enter h)) in
    if bypassed c.bootstrapping h then (c.real, h) else (r.0, nt_leave r.1)

-- The part of `Hooked_NtFreeVirtualMemory` behind the entry; the arguments are a `Release`.
unfoldable pub nt_release : Release → Hooks → Bool × Hooks
nt_release c h = elim (release_own c h) [ none ↦ (c.real, h) | some done ↦ (true, done) ]

unfoldable pub hooked_nt_free : Release → Hooks → Bool × Hooks
hooked_nt_free c h =
    let r = nt_release c (retire_diagnostic c (nt_enter h)) in
    if bypassed c.bootstrapping h then (c.real, h) else (r.0, nt_leave r.1)
