-- ===== src/Hooks/MapView/Counted.antt =====
-- What a mapping leaves of the totals of the tracker's report.
use ts3vasmanager.Hooks.MapView.{
  mem_private, mem_image, mem_mapped, view_bypassed, hooked_nt_map_view, map_view_other,
}
use ts3vasmanager.MapViewTypeTracker.Views.{
  file_mapped_other, file_mapped_no_name, file_mapped_package, file_mapped_dbpf, image_section,
  anonymous,
}
use ts3vasmanager.Prelude.{
  ℕ, refl, Bool, true, false, Option, none, some, List, [], length, add64, ◌^◌, ◌≤◌, ◌<◌, ◌≡◌, ◌&&◌,
  ◌||◌, ◌∷◌, if◌then◌else◌, inl, inr, arith, Bool-cases,
}
use ts3vasmanager.MapViewTypeTracker.Views.Sums.{record_view-totals}
use ts3vasmanager.MapViewTypeTracker.Files.{truncate}
use ts3vasmanager.MapViewTypeTracker.Types.{DbpfTypeStats}
use ts3vasmanager.MapViewTypeTracker.Views.{ViewKind, total_views, total_bytes_seen}
use ts3vasmanager.Hooks.Dbpf.Index.{scan_dbpf_index-some}
use ts3vasmanager.Hooks.MapView.{
  ViewEvent, ViewType, Mapping, Views, count_view, base_name, view_enter, view_leave, leave_some,
  is_empty, is_package_extension, record_in, map_other, probe_package, package_done, map_package,
  map_file, map_region, file_mapped_package, map_view_file_mapped, image_section, file_mapped_dbpf,
  map_view_total, map_view_image, file_mapped_no_name, anonymous, map_view_no_name,
  map_view_anonymous, map_view_package, file_mapped_other,
}

-- The views that the hook looks at: mapped into the own process, and known to the query.
unfoldable pub is_inspected : Mapping → Bool
is_inspected c = c.succeeds && (c.own_process && elim c.region [ none ↦ false | some t ↦ true ])

-- One view more with its bytes, the flag that is left and the number of the calls in flight.
abbrev pub OneMore : ℕ → Views → Views → Type 0
OneMore size h h' =
    (total_views h'.tracker ≡ add64 (total_views h.tracker) 1)
    × (total_bytes_seen h'.tracker ≡ add64 (total_bytes_seen h.tracker) size)
    × (h'.in_hook ≡ h.in_hook)
    × (h'.active_hook_calls ≡ h.active_hook_calls)

module _ (same_name : List ℕ → List ℕ → Bool) (tolower : ℕ → ℕ) where
  record_in-OneMore :
      (kind : ViewKind) (base : List ℕ) (size : ℕ) (h : Views)
      → OneMore size h (record_in same_name tolower kind base size h)
  unfolding record_in
  record_in-OneMore kind base size h =
      let (views, bytes) = record_view-totals same_name kind base size false h.tracker in
      (views, bytes, refl, refl)

  map_other-OneMore :
      (kind : ViewKind) (e : ViewEvent) (c : Mapping) (h : Views)
      → OneMore c.view_size h (map_other same_name tolower kind e c h)
  unfolding map_other count_view
  map_other-OneMore kind e c h = record_in-OneMore kind [] c.view_size h

  package_done-OneMore :
      (c : Mapping) (base : List ℕ) (stats : List DbpfTypeStats) (h : Views)
      → OneMore c.view_size h (package_done same_name tolower c base stats h)
  unfolding package_done count_view probe_package record_in
  package_done-OneMore c base [] h = record_in-OneMore file_mapped_package base c.view_size h
  package_done-OneMore c base (x ∷ xs) h =
      record_in-OneMore file_mapped_dbpf base c.view_size
        (probe_package same_name tolower c (x ∷ xs) (record h { last_dbpf_map_tick = c.tick }))

  -- A stage that does not fault.
  abbrev Served : ℕ → Views → Option Views → Type 0
  Served size h o = (h' : Views) × (o ≡ some h') × OneMore size h h'

  map_package-Served :
      (c : Mapping) (base : List ℕ) (h : Views)
      → c.view_size ≤ length c.bytes
      → Served c.view_size h (map_package same_name tolower c base h)
  unfolding map_package
  map_package-Served c base h le =
      let (stats, e) = scan_dbpf_index-some c.bytes c.view_size 128 le in
      rw (e, map_package)
        (package_done same_name tolower c base stats h, refl, package_done-OneMore c base stats h)

  branch :
      (b : Bool) (size : ℕ) (h : Views) (x y : Option Views)
      → Served size h x
      → Served size h y
      → Served size h (if b then x else y)
  branch true size h x y p q = p
  branch false size h x y p q = q

  map_file-Served :
      (c : Mapping) (h : Views)
      → c.view_size ≤ length c.bytes
      → Served c.view_size h (map_file same_name tolower c h)
  unfolding map_file count_view
  map_file-Served c h le =
      let base = truncate 259 (base_name c.dev_path) in
      let g = count_view map_view_file_mapped (count_view map_view_total h) in
      branch (is_empty c.dev_path) c.view_size h _ _
        (
          _,
          refl,
          record_in-OneMore file_mapped_no_name [] c.view_size (count_view map_view_no_name g),
        )
        (branch
          (is_package_extension same_name tolower base
            || is_package_extension same_name tolower c.full_path)
          c.view_size h _ _ (map_package-Served c base (count_view map_view_package g) le)
          (
            _,
            refl,
            record_in-OneMore file_mapped_other base c.view_size (count_view map_view_other g),
          ))

  map_region-Served :
      (c : Mapping) (t : ViewType) (h : Views)
      → c.view_size ≤ length c.bytes
      → Served c.view_size h (map_region same_name tolower c (some t) h)
  unfolding map_region
  map_region-Served c mem_image h le = (_, refl, map_other-OneMore image_section map_view_image c h)
  map_region-Served c mem_private h le =
      (_, refl, map_other-OneMore anonymous map_view_anonymous c h)
  map_region-Served c mem_mapped h le = map_file-Served c h le

  -- What the hook leaves of a call that is not bypassed.
  abbrev pub Mapped : Mapping → Views → Views → Type 0
  Mapped c h h' =
      (total_views h'.tracker
        ≡ (if is_inspected c then add64 (total_views h.tracker) 1 else total_views h.tracker))
      × (total_bytes_seen h'.tracker ≡ (
          if is_inspected c
          then add64 (total_bytes_seen h.tracker) c.view_size
          else total_bytes_seen h.tracker))
      × (h'.in_hook ≡ true)
      × (h'.active_hook_calls ≡ h.active_hook_calls)

  abbrev Ended : Mapping → Views → Option Views → Type 0
  Ended c h o = (h' : Views) × (o ≡ some h') × Mapped c h h'

  -- The call in flight is counted out again.
  inspected-Ended :
      (c : Mapping) (h : Views) (o : Option Views)
      → h.active_hook_calls < 2 ^ 32
      → is_inspected c ≡ true
      → Served c.view_size (view_enter h) o
      → Ended c h (leave_some o)
  unfolding view_enter view_leave leave_some
  inspected-Ended c h o small i (g, e, (views, bytes, mark, calls)) =
      rw e (view_leave g, refl, (rw i views, rw i bytes, mark, omega (arith, calls)))

  passed-Ended :
      (c : Mapping) (h : Views)
      → h.active_hook_calls < 2 ^ 32
      → is_inspected c ≡ false
      → Ended c h (leave_some (some (view_enter h)))
  unfolding view_enter view_leave leave_some
  passed-Ended c h small i = (_, refl, (rw i refl, rw i refl, refl, omega arith))

  region-Ended :
      (c : Mapping) (h : Views) (r : Option ViewType)
      → c.view_size ≤ length c.bytes
      → h.active_hook_calls < 2 ^ 32
      → c.succeeds ≡ true
      → c.own_process ≡ true
      → c.region ≡ r
      → Ended c h (leave_some (map_region same_name tolower c r (view_enter h)))
  unfolding is_inspected map_region
  region-Ended c h none le small ok own e =
      passed-Ended c h small (rw (is_inspected, ok, own, e) refl)
  region-Ended c h (some t) le small ok own e =
      inspected-Ended c h _ small (rw (is_inspected, ok, own, e) refl)
        (map_region-Served c t (view_enter h) le)

  not_own : (c : Mapping) → c.succeeds && c.own_process ≡ false → is_inspected c ≡ false
  unfolding is_inspected
  not_own c e = ground arith

  served-Ended :
      (c : Mapping) (h : Views)
      → c.view_size ≤ length c.bytes
      → h.active_hook_calls < 2 ^ 32
      → Ended c h (
          leave_some (
            if c.succeeds && c.own_process
            then map_region same_name tolower c c.region (view_enter h)
            else some (view_enter h)))
  served-Ended c h le small = elim (Bool-cases (c.succeeds && c.own_process)) [
    | inr other ↦ rw other (passed-Ended c h small (not_own c other))
    | inl own ↦ rw own (region-Ended c h c.region le small (ground arith) (ground arith) refl)
  ]

-- A call of `NtMapViewOfSection` that is not bypassed, whose view can be read to its end, does not
-- fault. If the mapping succeeded, in the own process, and the query knows its memory, the total of
-- views that the tracker reports grows by one and the total of bytes by the view's size, as 64-bit
-- counters, whatever the view is: each is counted in exactly one category. Otherwise both totals
-- stay. The number of calls in flight, below 2 ^ 32, is as before, and the thread stays marked as
-- in a hook.
pub nt_map_view-Mapped :
    (same_name : List ℕ → List ℕ → Bool) (tolower : ℕ → ℕ) (c : Mapping) (h : Views)
    → c.view_size ≤ length c.bytes
    → h.active_hook_calls < 2 ^ 32
    → view_bypassed c.bootstrapping h ≡ false
    → (h' : Views) × (hooked_nt_map_view same_name tolower c h ≡ some h')
      × Mapped same_name tolower c h h'
unfolding hooked_nt_map_view
nt_map_view-Mapped same_name tolower c h le small through =
    rw (through, hooked_nt_map_view) (served-Ended same_name tolower c h le small)
