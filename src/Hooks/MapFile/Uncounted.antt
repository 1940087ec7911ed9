-- ===== src/Hooks/MapFile/Uncounted.antt =====
-- The views that are mapped through `MapViewOfFile` do not reach the tracker.
use ts3vasmanager.Prelude.{
  ℕ, refl, Bool, true, false, Option, none, some, List, arith, ◌≡◌, if◌then◌else◌,
}
use ts3vasmanager.MemoryManager.Proxy.Records.{slots}
use ts3vasmanager.Hooks.MapView.{Mapping, Views, view_bypassed, hooked_nt_map_view}
use ts3vasmanager.Hooks.MapFile.{
  FileMapping, file_enter, file_leave, keep_report, probe_file, file_mapped,
  hooked_map_view_of_file,
}
use ts3vasmanager.Hooks.Dbpf.{Scripts}

-- The state of the tracker, the clock of the last package and the counters.
abbrev pub Untouched : Views → Views → Type 0
Untouched h h' =
    (h'.tracker ≡ h.tracker)
    × (h'.types ≡ h.types)
    × (h'.last_dbpf_map_tick ≡ h.last_dbpf_map_tick)
    × (h'.events ≡ h.events)

keep_report-Untouched : (r : Option Scripts × (ℕ → ℕ)) (h : Views) → Untouched h (keep_report r h)
unfolding keep_report
keep_report-Untouched (none, slots) h = (refl, refl, refl, refl)
keep_report-Untouched (some report, slots) h = (refl, refl, refl, refl)

probe_file-Untouched :
    (tolower : ℕ → ℕ) (c : FileMapping) (h : Views) → Untouched h (probe_file tolower c h)
unfolding probe_file
probe_file-Untouched tolower c h = go _ _ (keep_report-Untouched _ h)
  where
    go : (b : Bool) (x : Views) → Untouched h x → Untouched h (if b then x else h)
    go true x u = u
    go false x u = (refl, refl, refl, refl)

nested-bypassed :
    (same_name : List ℕ → List ℕ → Bool) (tolower : ℕ → ℕ) (m : Mapping) (h : Views)
    → hooked_nt_map_view same_name tolower m (file_enter h) ≡ some (file_enter h)
unfolding hooked_nt_map_view view_bypassed file_enter
nested-bypassed same_name tolower m h = ground arith

-- A call of `MapViewOfFile` that is not bypassed, whose real function calls the hook of
-- `NtMapViewOfSection`, leaves the tracker's totals and types, the time of the last package and the
-- counters of views as they were, whatever the view is, a package included: the thread is marked
-- while the inner hook runs. The mark is cleared at the end.
pub map_view_of_file-Untouched :
    (same_name : List ℕ → List ℕ → Bool) (tolower : ℕ → ℕ) (m : Mapping) (c : FileMapping)
    (h : Views)
    → view_bypassed c.bootstrapping h ≡ false
    → (h' : Views) × (hooked_map_view_of_file tolower (hooked_nt_map_view same_name tolower m) c h
        ≡ some h')
      × Untouched h h'
      × (h'.in_hook ≡ false)
unfolding hooked_map_view_of_file file_mapped file_enter file_leave
map_view_of_file-Untouched same_name tolower m c h through =
    rw (through, hooked_map_view_of_file, nested-bypassed same_name tolower m h)
      (
        file_leave (probe_file tolower c (file_enter h)),
        refl,
        probe_file-Untouched tolower c (file_enter h),
        refl,
      )
