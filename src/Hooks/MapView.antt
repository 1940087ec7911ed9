-- ===== src/Hooks/MapView.antt =====
-- WorkingHooks.cpp: `Hooked_NtMapViewOfSection` and `Hooked_NtUnmapViewOfSection` with
-- `IsPackageExtension`. The tracker, the memory manager and analytics are there. What the system
-- answers about a view is in the call; a read of the view that faults is `none`, since the scan has
-- no guard here. The logs and the telemetry of the build with `TS3VAS_TELEMETRY` are left out.
pub mod Counted
use ts3vasmanager.MapViewTypeTracker.Files.{truncate}
use ts3vasmanager.MapViewTypeTracker.Types.{DbpfTypeStats, TypeSlot, record_dbpf_types}
use ts3vasmanager.ProxyAllocator.Arena.{is_proxy_address}
use ts3vasmanager.MemoryManager.Proxy.{Manager, free_proxy_allocation}
use ts3vasmanager.Hooks.Dbpf.{scan_dbpf_index, Scripts, probe_script_assembly}
use ts3vasmanager.MapViewTypeTracker.Views.{
  anonymous, image_section, file_mapped_other, file_mapped_no_name, file_mapped_package,
  file_mapped_dbpf, ViewKind, Tracker, record_view,
}
use ts3vasmanager.Prelude.{
  ℕ, Bool, true, false, not, Option, none, some, List, [], add32, sub32, ◌∷◌, ◌==◌, ◌&&◌, ◌||◌,
  if◌then◌else◌,
}

pub data ViewEvent : Type 0 where
  map_view_total map_view_image map_view_anonymous map_view_file_mapped : ViewEvent
  map_view_no_name map_view_package map_view_other : ViewEvent
  map_view_no_name_bytes map_view_package_bytes : ℕ → ViewEvent
  unmap_proxy_freed unmap_total : ViewEvent

-- The types of memory that `VirtualQuery` answers.
pub data ViewType : Type 0 where
  mem_private mem_mapped mem_image : ViewType

-- One call, of which the real function has set the base and the size: whether both are there and
-- the call succeeded; whether the handle is the own process; the memory's type, if the query
-- succeeds; the view's size; its device path, empty if there is none, and its path with a drive
-- letter; the bytes that can be read; the time; and what another thread stores in the dedup table.
pub record Mapping : Type 0 where
  pub bootstrapping : Bool
  pub succeeds : Bool
  pub own_process : Bool
  pub region : Option ViewType
  pub view_size : ℕ
  pub dev_path : List ℕ
  pub full_path : List ℕ
  pub bytes : List ℕ
  pub tick : ℕ
  pub race : ℕ → ℕ

pub record Views : Type 0 where
  pub tracker : Tracker
  pub types : List TypeSlot
  pub manager : Manager
  pub dedup : ℕ → ℕ
  pub reports : List Scripts
  pub last_dbpf_map_tick : ℕ
  pub shutting_down : Bool
  pub tl_hook_active : Bool
  pub in_hook : Bool
  pub active_hook_calls : ℕ
  pub events : List ViewEvent

unfoldable pub count_view : ViewEvent → Views → Views
count_view e h = record h { events = e ∷ h.events }

-- `strrchr`: the name from the last such character on.
unfoldable pub last_from : ℕ → List ℕ → Option (List ℕ)
last_from c [] = none
last_from c (x ∷ xs) = elim (last_from c xs) [
  | some s ↦ some s
  | none ↦ if x == c then some (x ∷ xs) else none
]

unfoldable pub behind_first : List ℕ → List ℕ
behind_first [] = []
behind_first (x ∷ xs) = xs

-- The part of a path behind its last backslash.
unfoldable pub base_name : List ℕ → List ℕ
base_name path = elim (last_from 92 path) [ none ↦ path | some s ↦ behind_first s ]

-- ".package", ".world" and ".sims3".
abbrev pub package_dot : List ℕ
package_dot = 46 ∷ 112 ∷ 97 ∷ 99 ∷ 107 ∷ 97 ∷ 103 ∷ 101 ∷ []

abbrev pub world_dot : List ℕ
world_dot = 46 ∷ 119 ∷ 111 ∷ 114 ∷ 108 ∷ 100 ∷ []

abbrev pub sims3_dot : List ℕ
sims3_dot = 46 ∷ 115 ∷ 105 ∷ 109 ∷ 115 ∷ 51 ∷ []

unfoldable pub view_enter : Views → Views
view_enter h = record h {
  tl_hook_active = true;
  in_hook = true;
  active_hook_calls = add32 h.active_hook_calls 1;
}

-- As in the other native hooks, `SetInHook(false)` is not called.
unfoldable pub view_leave : Views → Views
view_leave h = record h { tl_hook_active = false; active_hook_calls = sub32 h.active_hook_calls 1 }

unfoldable pub view_bypassed : Bool → Views → Bool
view_bypassed bootstrapping h =
    bootstrapping || (h.tl_hook_active || (h.in_hook || h.shutting_down))

unfoldable pub leave_some : Option Views → Option Views
leave_some none = none
leave_some (some h) = some (view_leave h)

unfoldable pub is_empty : List ℕ → Bool
is_empty [] = true
is_empty (x ∷ xs) = false

-- The two functions are `_stricmp` for equality and `tolower` of the C runtime.
module _ (same_name : List ℕ → List ℕ → Bool) (tolower : ℕ → ℕ) where
  unfoldable pub is_package_extension : List ℕ → Bool
  is_package_extension name = elim (last_from 46 name) [
    | none ↦ false
    | some dot ↦ same_name dot package_dot || (same_name dot world_dot || same_name dot sims3_dot)
  ]

  unfoldable pub record_in : ViewKind → List ℕ → ℕ → Views → Views
  record_in kind base size h = record h {
    tracker = record_view same_name kind base size false h.tracker;
  }

  -- A view that has no file, or that is an executable image.
  unfoldable pub map_other : ViewKind → ViewEvent → Mapping → Views → Views
  map_other kind e c h = count_view e (count_view map_view_total (record_in kind [] c.view_size h))

  unfoldable pub probe_package : Mapping → List DbpfTypeStats → Views → Views
  probe_package c stats h =
      let r = probe_script_assembly tolower c.race (some (base_name c.dev_path)) stats h.dedup in
      record h {
        dedup = r.1;
        reports = elim r.0 [ none ↦ h.reports | some report ↦ report ∷ h.reports ];
      }

  -- A package, by what its index holds.
  unfoldable pub package_done : Mapping → List ℕ → List DbpfTypeStats → Views → Views
  package_done c base [] h =
      count_view (map_view_package_bytes c.view_size)
        (record_in file_mapped_package base c.view_size h)
  package_done c base (x ∷ xs) h =
      let probed = probe_package c (x ∷ xs) (record h { last_dbpf_map_tick = c.tick }) in
      let seen = record_in file_mapped_dbpf base c.view_size probed in
      count_view (map_view_package_bytes c.view_size)
        (record seen { types = record_dbpf_types (x ∷ xs) seen.types })

  unfoldable pub map_package : Mapping → List ℕ → Views → Option Views
  map_package c base h = elim (scan_dbpf_index c.bytes c.view_size 128) [
    | none ↦ none
    | some stats ↦ some (package_done c base stats h)
  ]

  -- A view of a file, by its name and its extension.
  unfoldable pub map_file : Mapping → Views → Option Views
  map_file c h =
      let base = truncate 259 (base_name c.dev_path) in
      let by_name = is_package_extension base || is_package_extension c.full_path in
      let g = count_view map_view_file_mapped (count_view map_view_total h) in
      let nameless =
        count_view (map_view_no_name_bytes c.view_size)
          (record_in file_mapped_no_name [] c.view_size (count_view map_view_no_name g)) in
      let other = record_in file_mapped_other base c.view_size (count_view map_view_other g) in
      if is_empty c.dev_path
      then some nameless
      else if by_name
      then map_package c base (count_view map_view_package g)
      else some other

  unfoldable pub map_region : Mapping → Option ViewType → Views → Option Views
  map_region c none h = some h
  map_region c (some mem_image) h = some (map_other image_section map_view_image c h)
  map_region c (some mem_private) h = some (map_other anonymous map_view_anonymous c h)
  map_region c (some mem_mapped) h = map_file c h

  -- `Hooked_NtMapViewOfSection`, whose answer is always that of the real function: the state after
  -- it.
  unfoldable pub hooked_nt_map_view : Mapping → Views → Option Views
  hooked_nt_map_view c h =
      let entered = view_enter h in
      let served =
        if c.succeeds && c.own_process then map_region c c.region entered else some entered in
      if view_bypassed c.bootstrapping h then some h else leave_some served

-- `Hooked_NtUnmapViewOfSection`: whether it succeeds, of the answer of the real function.
unfoldable pub hooked_nt_unmap_view : Bool → ℕ → Bool → Views → Bool × Views
hooked_nt_unmap_view bootstrapping p real h =
    let freed = record h { manager = (free_proxy_allocation p h.manager).1 } in
    if view_bypassed bootstrapping h
    then (real, h)
    else if is_proxy_address h.manager.proxy p
    then (true, count_view unmap_proxy_freed freed)
    else (real, count_view unmap_total h)
