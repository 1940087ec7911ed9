-- ===== src/Examples/Tracker.antt =====
-- The tracker of mapped views.
use ts3vasmanager.MapViewTypeTracker.Types.Totals.{Accumulates, record_dbpf_types-Accumulates}
use ts3vasmanager.MemoryManager.Proxy.{settle}
use ts3vasmanager.MapViewTypeTracker.Files.Names.{Recorded, record_file_name-Recorded}
use ts3vasmanager.MapViewTypeTracker.Files.{FileSlot, truncate, record_file_name}
use ts3vasmanager.MapViewTypeTracker.Types.{
  DbpfTypeStats, TypeSlot, new_type_table, home, probe_slot, probe_from, probe, find_or_insert_type,
  add_stats, record_settled, record_type, record_dbpf_types, hit,
}
use ts3vasmanager.Prelude.{
  ℕ, refl, Bool, true, false, List, [], arith, length, ◌≡◌, ◌&&◌, ◌∷◌, ◌==◌,
}

-- A comparison of names that is exact, in place of the one without case.
abbrev same : List ℕ → List ℕ → Bool
same [] [] = true
same [] (d ∷ ds) = false
same (c ∷ cs) [] = false
same (c ∷ cs) (d ∷ ds) = (c == d) && same cs ds

abbrev stats : DbpfTypeStats
stats = record { type_id = 5; entry_count = 2; total_mem_bytes = 300 }

abbrev files : List FileSlot
files = record { name = 97 ∷ []; view_count = 4; total_bytes = 4096 } ∷ []

short_name : same (truncate 79 (97 ∷ [])) (97 ∷ []) ≡ true
unfolding truncate
short_name = refl

record_file_name-Recorded_example :
    Recorded same (97 ∷ []) 100 files (record_file_name same (97 ∷ []) 100 files)
record_file_name-Recorded_example =
    record_file_name-Recorded same 97 [] 100 files short_name (omega arith)

abbrev filled : List TypeSlot
filled = record_type stats new_type_table

in_table : probe filled 5 ≡ hit 5
unfolding probe probe_from home probe_slot new_type_table record_type record_settled
    find_or_insert_type settle add_stats
in_table = refl

filled-length : length filled ≡ 256
unfolding probe probe_from home probe_slot new_type_table record_type record_settled
    find_or_insert_type settle add_stats
filled-length = refl

record_dbpf_types-Accumulates_example :
    Accumulates 5 5 (stats ∷ stats ∷ []) filled (record_dbpf_types (stats ∷ stats ∷ []) filled)
record_dbpf_types-Accumulates_example =
    record_dbpf_types-Accumulates 5 5 (omega arith) (stats ∷ stats ∷ []) filled filled-length
      in_table
