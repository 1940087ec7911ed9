-- ===== src/Hooks/Switches.antt =====
-- WorkingHooks.cpp: the modes that are read from the environment, and the switches of the hooks:
-- `IsPassiveMode`, `ActivateProxy`, `IsProxyActive`, `BeginShutdown`, `IsShuttingDown`,
-- `EnsureProxyActiveForVirtualPath` and the policy modes. An environment variable is its first
-- character, `none` when it is not set or empty.
pub mod Passive
use ts3vasmanager.Prelude.{
  ℕ, bit_and, Bool, true, false, not, Option, none, some, ltb, ◌*◌, ◌||◌, ◌==◌, if◌then◌else◌,
}

-- 0, f, F, n, N; and 1, y, Y, t, T.
unfoldable pub says_off : ℕ → Bool
says_off c = c == 48 || (c == 102 || (c == 70 || (c == 110 || c == 78)))

unfoldable pub says_on : ℕ → Bool
says_on c = c == 49 || (c == 121 || (c == 89 || (c == 116 || c == 84)))

-- A mode that is read from the environment once.
pub record Mode : Type 0 where
  pub init : Bool
  pub on : Bool

abbrev pub unread : Bool → Mode
unread default = record { init = false; on = default }

unfoldable pub env_mode : Bool → Option ℕ → Bool
env_mode default none = default
env_mode default (some c) = not (says_off c)

unfoldable pub read_mode : Bool → Option ℕ → Mode → Bool × Mode
read_mode default env m =
    if m.init
    then (m.on, m)
    else (env_mode default env, record { init = true; on = env_mode default env })

-- `IsStrictRenderLocalOnlyMode`, `IsForceProxyActiveMode`, `IsForceHeapProxyMode`
abbrev pub is_strict_render_local_only_mode : Option ℕ → Mode → Bool × Mode
is_strict_render_local_only_mode = read_mode false

abbrev pub is_force_proxy_active_mode : Option ℕ → Mode → Bool × Mode
is_force_proxy_active_mode = read_mode true

abbrev pub is_force_heap_proxy_mode : Option ℕ → Mode → Bool × Mode
is_force_heap_proxy_mode = read_mode true

-- What the process was started with: the variables, and whether the sentinel file is there.
pub record Surroundings : Type 0 where
  pub passive_env : Option ℕ
  pub passive_file : Bool
  pub force_env : Option ℕ
  pub force_heap_env : Option ℕ

unfoldable pub passive_on : Surroundings → Bool
passive_on env = elim env.passive_env [
  | none ↦ env.passive_file
  | some c ↦ says_on c || env.passive_file
]

pub record Switches : Type 0 where
  pub passive : Mode
  pub force_active : Mode
  pub force_heap : Mode
  pub proxy_active : Bool
  pub shutting_down : Bool

abbrev pub new_switches : Switches
new_switches = record {
  passive = unread false;
  force_active = unread true;
  force_heap = unread true;
  proxy_active = false;
  shutting_down = false;
}

unfoldable pub is_passive_mode : Surroundings → Switches → Bool × Switches
is_passive_mode env s =
    if s.passive.init
    then (s.passive.on, s)
    else (passive_on env, record s { passive = record { init = true; on = passive_on env } })

unfoldable pub activate_proxy : Surroundings → Switches → Switches
activate_proxy env s =
    let r = is_passive_mode env s in if r.0 then r.1 else record r.1 { proxy_active = true }

unfoldable pub begin_shutdown : Switches → Switches
begin_shutdown s = record s { shutting_down = true }

abbrev pub mem_commit : ℕ
mem_commit = 0x1000

abbrev pub mem_reserve : ℕ
mem_reserve = 0x2000

abbrev pub mem_release : ℕ
mem_release = 0x8000

abbrev pub mem_write_watch : ℕ
mem_write_watch = 0x200000

-- MEM_PHYSICAL and MEM_LARGE_PAGES.
abbrev pub mem_special : ℕ
mem_special = 0x20400000

-- PAGE_EXECUTE, PAGE_EXECUTE_READ, PAGE_EXECUTE_READWRITE, PAGE_EXECUTE_WRITECOPY.
abbrev pub page_exec : ℕ
page_exec = 0xF0

abbrev pub force_virtual_alloc_min_size : ℕ
force_virtual_alloc_min_size = 4 * 1024

abbrev pub heap_capture_threshold : ℕ
heap_capture_threshold = 64 * 1024

abbrev pub has : ℕ → ℕ → Bool
has flags mask = not (bit_and flags mask == 0)

unfoldable pub is_exec_protect : ℕ → Bool
is_exec_protect protect = has protect page_exec

unfoldable pub read_force_active : Surroundings → Switches → Bool × Switches
read_force_active env s =
    let r = is_force_proxy_active_mode env.force_env s.force_active in
    (r.0, record s { force_active = r.1 })

-- `EnsureProxyActiveForVirtualPath`
unfoldable pub ensure_proxy_active : Surroundings → ℕ → ℕ → ℕ → Switches → Switches
ensure_proxy_active env size type protect s =
    let r = read_force_active env s in
    if s.proxy_active
    then s
    else if not r.0
    then r.1
    else if not (has type mem_reserve)
    then r.1
    else if ltb size force_virtual_alloc_min_size
    then r.1
    else if has type mem_special
    then r.1
    else if is_exec_protect protect
    then r.1
    else activate_proxy env r.1
