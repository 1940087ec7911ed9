-- ===== src/Hooks/Virtual.antt =====
-- WorkingHooks.cpp: `Hooked_VirtualAlloc` and `Hooked_VirtualFree`, on the state that the hooks of a
-- thread share. The memory manager and the trampolines are there. What the operating system and the
-- environment answer is in the call. The counters that a call adds to are its events, newest first;
-- logs and the event-tracing provider are not part of this state.
pub mod Activates
pub mod Ledger
pub mod Serve
pub mod Free
use ts3vasmanager.Hooks.Diagnostics.{
  DiagnosticAlloc, Diagnostics, register_diagnostic_alloc, remove_diagnostic_alloc,
}
use ts3vasmanager.Hooks.VatTable.{Vat, vat_track, vat_untrack}
use ts3vasmanager.Hooks.Switches.{
  Surroundings, Switches, ensure_proxy_active, has, is_exec_protect, mem_commit, mem_reserve,
  mem_release, mem_write_watch, mem_special, heap_capture_threshold, force_virtual_alloc_min_size,
}
use ts3vasmanager.Hooks.Modules.{AllocCallerKind, kind_code}
use ts3vasmanager.MemoryManager.Corral.{
  Corral, Zone, corral_reserve, corral_free, is_corral_address,
}
use ts3vasmanager.ProxyAllocator.Arena.{Arena, allocate, free, prefers_top_down}
use ts3vasmanager.Prelude.{
  ℕ, Bool, true, false, not, Option, none, some, List, ltb, leb, ◌*◌, ◌&&◌, ◌||◌, ◌∷◌, ◌==◌,
  if◌then◌else◌,
}

-- The sizes of the counters `VirtualAlloc_sub1MB` and so on.
pub data SizeBand : Type 0 where
  sub_1mb mb1_to_16 mb16_to_256 : SizeBand

pub data LocalReason : Type 0 where
  non_null_base no_reserve commit_only write_watch exec_protect write_watch_exec : LocalReason
  physical_or_large_pages size_too_small proxy_inactive : LocalReason

-- What is counted, with the bytes where these are counted too.
pub data HookEvent : Type 0 where
  va_mix : ℕ → ℕ → ℕ → HookEvent
  write_watch_reserve : Bool → ℕ → HookEvent
  redirected redirected_freed redirect_failed redirect_fallback_local : HookEvent
  redirected_bytes : ℕ → HookEvent
  size_band : SizeBand → HookEvent
  not_redirected : ℕ → HookEvent
  because : LocalReason → ℕ → HookEvent
  script_arena_placed script_arena_fallback script_arena_freed : HookEvent
  local_vas_reserve : ℕ → Bool → HookEvent
  reserved : ℕ → HookEvent

-- The arena, the corral, the tables and switches; the flags of the thread; the calls in flight.
pub record Hooks : Type 0 where
  pub arena : Arena
  pub proxy_max_bytes : ℕ
  pub corral : Corral
  pub vat : Vat
  pub diagnostics : Diagnostics
  pub switches : Switches
  pub tl_hook_active : Bool
  pub in_hook : Bool
  pub active_hook_calls : ℕ
  pub events : List HookEvent

-- One call of an allocation: its arguments; whether the thread is bootstrapping; the class of its
-- caller; whether the commit of a slot succeeds; the answer of the real function, 0 for a failure;
-- what the corral's growth and commit meet; and what a diagnostic record holds beside.
pub record Alloc : Type 0 where
  pub address : ℕ
  pub size : ℕ
  pub type : ℕ
  pub protect : ℕ
  pub bootstrapping : Bool
  pub surroundings : Surroundings
  pub caller : AllocCallerKind
  pub commits : Bool
  pub real : ℕ
  pub zone : Zone
  pub corral_commits : Bool
  pub tick : ℕ
  pub ret_addr : ℕ
  pub module_name : List ℕ

unfoldable pub note : Bool → HookEvent → Hooks → Hooks
note true e h = record h { events = e ∷ h.events }
note false e h = h

-- The common entry test of the hooks.
unfoldable pub bypassed : Bool → Hooks → Bool
bypassed bootstrapping h =
    bootstrapping || (h.tl_hook_active || (h.in_hook || h.switches.shutting_down))

-- The condition under which a reserve is served from the arena.
unfoldable pub redirects : ℕ → ℕ → ℕ → ℕ → Hooks → Bool
redirects address size type protect h =
    (address == 0)
    && (has type mem_reserve
        && (not (has type mem_write_watch || has type mem_special)
            && (not (is_exec_protect protect)
                && ((leb heap_capture_threshold size || leb force_virtual_alloc_min_size size)
                    && ((h.proxy_max_bytes == 0 || ltb size h.proxy_max_bytes)
                        && h.switches.proxy_active)))))

-- A slot of the arena: committed and tracked, or given back.
unfoldable pub commit_slot : Bool → ℕ → Hooks → Option ℕ × Arena → Option ℕ × Hooks
commit_slot commits size h (none, a) = (none, record h { arena = a })
commit_slot true size h (some p, a) = (some p, record h { arena = a; vat = vat_track p size h.vat })
commit_slot false size h (some p, a) = (none, record h { arena = free p size a })

unfoldable pub redirect_slot : Bool → ℕ → Hooks → Option ℕ × Hooks
redirect_slot commits size h =
    commit_slot commits size h (allocate size (prefers_top_down h.arena size) h.arena)

-- The counters of a call that is not redirected.
unfoldable pub count_reasons : Alloc → Hooks → Hooks
count_reasons c h =
    let ww = has c.type mem_write_watch in
    let exec = is_exec_protect c.protect in
    note (not h.switches.proxy_active) (because proxy_inactive c.size) (
      note (ltb c.size force_virtual_alloc_min_size) (because size_too_small c.size) (
        note (has c.type mem_special) (because physical_or_large_pages c.size) (
          note (ww && exec) (because write_watch_exec c.size) (
            note exec (because exec_protect c.size) (
              note ww (because write_watch c.size) (
                note (has c.type mem_commit && not (has c.type mem_reserve))
                  (because commit_only c.size)
                  (note (not (has c.type mem_reserve)) (because no_reserve c.size) (
                    note (not (c.address == 0)) (because non_null_base c.size)
                      (note true (not_redirected c.size) h)))))))))

-- A write-watch reserve with no base, whose place is the corral.
unfoldable pub is_candidate : Alloc → Bool
is_candidate c = has c.type mem_write_watch && (has c.type mem_reserve && (c.address == 0))

-- The result of the real path: the address, whether it lies in the corral, and the state.
unfoldable pub place_local : Alloc → Bool → Option ℕ × Corral → Hooks → ℕ × Bool × Hooks
place_local c candidate (some p, k) h =
    (p, true, note true script_arena_placed (record h { corral = k }))
place_local c candidate (none, k) h =
    (c.real, false, note candidate script_arena_fallback (record h { corral = k }))

unfoldable pub reserve_in_corral : Alloc → Hooks → Option ℕ × Corral
reserve_in_corral c h =
    if is_candidate c
    then corral_reserve c.zone c.size (has c.type mem_commit) c.corral_commits h.corral
    else (none, h.corral)

-- The local path: the counters, then the corral or the real function.
unfoldable pub serve_local : Bool → Alloc → Hooks → ℕ × Bool × Hooks
serve_local eligible c h =
    let counted =
      if eligible
      then note true redirect_fallback_local h
      else (if c.size == 0 then h else count_reasons c h) in
    place_local c (is_candidate c) (reserve_in_corral c counted) counted

-- The statistics of a reserve that the local path served, and its diagnostic record.
unfoldable pub report_local : Alloc → ℕ × Bool × Hooks → ℕ × Hooks
report_local c (p, placed, h) =
    let reserve = has c.type mem_reserve in
    let large = leb force_virtual_alloc_min_size c.size in
    let g =
      note (reserve && (large && (p == 0 || not placed))) (local_vas_reserve c.size (p == 0)) h in
    if not (p == 0) && (reserve && leb (1024 * 1024) c.size)
    then (
      p,
      record g {
        diagnostics =
            register_diagnostic_alloc
              (record {
                address = p;
                size = c.size;
                ret_addr = c.ret_addr;
                alloc_tick = c.tick;
                module_name = c.module_name;
              })
              g.diagnostics;
      },
    )
    else (p, g)

unfoldable pub finish : Bool → Alloc → Option ℕ × Hooks → ℕ × Hooks
finish eligible c (some p, h) = (p, note true (redirected_bytes c.size) (note true redirected h))
finish eligible c (none, h) = report_local c (serve_local eligible c h)

-- The state at the redirect: the mix counters, the activation, the class of a write-watch reserve.
unfoldable pub prepare : Alloc → Hooks → Hooks
prepare c h =
    let mixed = note (not (c.size == 0)) (va_mix c.size c.type c.protect) h in
    note (is_candidate c) (write_watch_reserve (kind_code c.caller == 1) c.size) (record mixed {
      switches = ensure_proxy_active c.surroundings c.size c.type c.protect mixed.switches;
    })

unfoldable pub serve : Alloc → Hooks → ℕ × Hooks
serve c h =
    let eligible = redirects c.address c.size c.type c.protect h in
    finish eligible c (if eligible then redirect_slot c.commits c.size h else (none, h))

unfoldable pub enter : Hooks → Hooks
enter h = record h { tl_hook_active = true; in_hook = true }

unfoldable pub leave : Hooks → Hooks
leave h = record h { tl_hook_active = false; in_hook = false }

-- `Hooked_VirtualAlloc`: the address, 0 for a failure.
unfoldable pub hooked_virtual_alloc : Alloc → Hooks → ℕ × Hooks
hooked_virtual_alloc c h =
    let r = serve c (prepare c (enter h)) in
    if bypassed c.bootstrapping h then (c.real, h) else (r.0, leave r.1)

-- One call of a release: its arguments, and whether the real function succeeds.
pub record Release : Type 0 where
  pub address : ℕ
  pub type : ℕ
  pub bootstrapping : Bool
  pub real : Bool

unfoldable pub retire_diagnostic : Release → Hooks → Hooks
retire_diagnostic c h =
    if has c.type mem_release && not (c.address == 0)
    then record h { diagnostics = (remove_diagnostic_alloc c.address h.diagnostics).1 }
    else h

unfoldable pub untrack_released : Release → Hooks → Option ℕ × Vat
untrack_released c h = if has c.type mem_release then vat_untrack c.address h.vat else (none, h.vat)

-- A slot that was tracked goes back to the arena; `none` is left to the real function.
unfoldable pub release_tracked : Release → Option ℕ × Vat → Hooks → Option Hooks
release_tracked c (some size, v) h =
    some (note true redirected_freed (record h { arena = free c.address size h.arena; vat = v }))
release_tracked c (none, v) h = none

unfoldable pub release_own : Release → Hooks → Option Hooks
release_own c h =
    if has c.type mem_release && (not (c.address == 0) && is_corral_address c.address h.corral)
    then some
        (note true script_arena_freed (record h { corral = (corral_free c.address h.corral).1 }))
    else release_tracked c (untrack_released c h) h

-- `Hooked_VirtualFree`. The flags of the thread are as before on every branch.
unfoldable pub hooked_virtual_free : Release → Hooks → Bool × Hooks
hooked_virtual_free c h =
    let retired = retire_diagnostic c h in
    elim (release_own c retired) [
      | some done ↦ (true, done)
      | none ↦ (c.real, if bypassed c.bootstrapping retired then retired else leave (enter retired))
    ]
