-- ===== src/Examples/Maps.antt =====
-- The hooks of mapped views at concrete inputs.
use ts3vasmanager.Prelude.{refl, true, false, some, [], arith, length, replicate, ◌≡◌, ◌∷◌, ◌==◌}
use ts3vasmanager.Hooks.MapView.{
  mem_mapped, package_dot, Mapping, Views, hooked_nt_map_view, view_bypassed,
}
use ts3vasmanager.Hooks.MapView.Counted.{Mapped, nt_map_view-Mapped}
use ts3vasmanager.Hooks.MapFile.{FileMapping, hooked_map_view_of_file}
use ts3vasmanager.Hooks.MapFile.Uncounted.{Untouched, map_view_of_file-Untouched}
use ts3vasmanager.MapViewTypeTracker.Views.{new_tracker}
use ts3vasmanager.MapViewTypeTracker.Types.{new_type_table}
use ts3vasmanager.Examples.Manager.{filled}

-- The view of a package that holds no index, "m\a.package".
abbrev mapping : Mapping
mapping = record {
  bootstrapping = false;
  succeeds = true;
  own_process = true;
  region = some mem_mapped;
  view_size = 96;
  dev_path = 109 ∷ 92 ∷ 97 ∷ package_dot;
  full_path = [];
  bytes = replicate 96 1;
  tick = 7;
  race = λ i. 0;
}

abbrev views : Views
views = record {
  tracker = new_tracker;
  types = new_type_table;
  manager = filled;
  dedup = λ i. 0;
  reports = [];
  last_dbpf_map_tick = 0;
  shutting_down = false;
  tl_hook_active = false;
  in_hook = false;
  active_hook_calls = 0;
  events = [];
}

views_open : view_bypassed false views ≡ false
unfolding view_bypassed
views_open = refl

nt_map_view-Mapped_example :
    (h' : Views) × (hooked_nt_map_view (λ x y. length x == length y) (λ c. c) mapping views
      ≡ some h')
    × Mapped (λ x y. length x == length y) (λ c. c) mapping views h'
nt_map_view-Mapped_example =
    nt_map_view-Mapped (λ x y. length x == length y) (λ c. c) mapping views (omega arith)
      (omega arith) views_open

-- The same view, of the whole file.
abbrev file_mapping : FileMapping
file_mapping = record {
  bootstrapping = false;
  mapped = true;
  bytes_to_map = 0;
  region_size = 96;
  dev_path = 109 ∷ 92 ∷ 97 ∷ package_dot;
  bytes = replicate 96 1;
  race = λ i. 0;
}

map_view_of_file-Untouched_example :
    (h' : Views) × (hooked_map_view_of_file
        (λ c. c)
        (hooked_nt_map_view (λ x y. length x == length y) (λ c. c) mapping)
        file_mapping
        views
      ≡ some h')
    × Untouched views h'
    × (h'.in_hook ≡ false)
map_view_of_file-Untouched_example =
    map_view_of_file-Untouched (λ x y. length x == length y) (λ c. c) mapping file_mapping views
      views_open
