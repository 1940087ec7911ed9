-- ===== src/Hooks/MapFile.antt =====
-- WorkingHooks.cpp: `Hooked_MapViewOfFile` and `Hooked_MapViewOfFileEx`, which differ in what they
-- pass on. The real function is an argument: it calls `NtMapViewOfSection`, which is hooked.
pub mod Uncounted
use ts3vasmanager.Prelude.{
  ℕ, Bool, true, false, not, Option, none, some, List, ◌&&◌, ◌∷◌, ◌==◌, if◌then◌else◌,
}
use ts3vasmanager.MemoryManager.Proxy.Records.{slots}
use ts3vasmanager.Hooks.MapView.{Views, base_name, view_bypassed, is_empty}
use ts3vasmanager.Hooks.Dbpf.{safe_scan_dbpf_index, Scripts, probe_script_assembly}

-- One call: whether it maps a view; how many bytes it asks for, 0 for the whole file; the size of the
-- region, 0 if the query fails; and the view as in `Mapping`.
pub record FileMapping : Type 0 where
  pub bootstrapping : Bool
  pub mapped : Bool
  pub bytes_to_map : ℕ
  pub region_size : ℕ
  pub dev_path : List ℕ
  pub bytes : List ℕ
  pub race : ℕ → ℕ

unfoldable pub file_enter : Views → Views
file_enter h = record h { tl_hook_active = true; in_hook = true }

unfoldable pub file_leave : Views → Views
file_leave h = record h { tl_hook_active = false; in_hook = false }

-- The name that the probe resolves.
unfoldable pub probed_name : List ℕ → Option (List ℕ)
probed_name path = if is_empty path then none else some (base_name path)

unfoldable pub keep_report : Option Scripts × (ℕ → ℕ) → Views → Views
keep_report (none, slots) h = record h { dedup = slots }
keep_report (some report, slots) h = record h { dedup = slots; reports = report ∷ h.reports }

-- The probe of a view of a whole file, under the guard of the scan.
unfoldable pub probe_file : (ℕ → ℕ) → FileMapping → Views → Views
probe_file tolower c h =
    let stats = safe_scan_dbpf_index c.bytes c.region_size 128 in
    if c.mapped && (c.bytes_to_map == 0 && not (c.region_size == 0))
    then keep_report (probe_script_assembly tolower c.race (probed_name c.dev_path) stats h.dedup) h
    else h

unfoldable pub file_mapped : (ℕ → ℕ) → FileMapping → Option Views → Option Views
file_mapped tolower c none = none
file_mapped tolower c (some h) = some (file_leave (probe_file tolower c h))

-- `Hooked_MapViewOfFile`
unfoldable pub hooked_map_view_of_file :
    (ℕ → ℕ) → (Views → Option Views) → FileMapping → Views → Option Views
hooked_map_view_of_file tolower real c h =
    if view_bypassed c.bootstrapping h then real h else file_mapped tolower c (real (file_enter h))
