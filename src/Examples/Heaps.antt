-- ===== src/Examples/Heaps.antt =====
-- The hooks of the heaps, their tables, and the scan of packages at concrete inputs.
use ts3vasmanager.Hooks.Win32.{suppressed}
use ts3vasmanager.Hooks.Win32.Movable.{suppressed-real}
use ts3vasmanager.MapViewTypeTracker.Types.{DbpfTypeStats}
use ts3vasmanager.Hooks.Modules.Contains.{Occurs, string_contains_i-Occurs}
use ts3vasmanager.Hooks.Modules.Originator.{
  candidates, first_game, head, or_else, resolve-originator,
}
use ts3vasmanager.Hooks.Modules.{
  Frame, in_module, unresolved, string_contains_i, resolve_originator_frame,
}
use ts3vasmanager.Hooks.Dbpf.Index.{scan_dbpf_index-some}
use ts3vasmanager.Hooks.Dbpf.Tally.{scan-Counted, Counted, entries, occurrences, bytes_of, stats_of}
use ts3vasmanager.Hooks.Dbpf.{scan_dbpf_index, scan_entries}
use ts3vasmanager.Hooks.Switches.Passive.{next}
use ts3vasmanager.Hooks.Switches.{Surroundings, new_switches}
use ts3vasmanager.Hooks.Shards.Spill.{Spilled, proxy_heap_alloc-Spilled}
use ts3vasmanager.Hooks.Shards.{Shards, proxy_heap_alloc}
use ts3vasmanager.Hooks.HeapUse.Counts.{IsUsed, record_heap_use-IsUsed}
use ts3vasmanager.Hooks.HeapUse.{no_use, record_heap_use}
use ts3vasmanager.Hooks.Heap.Bands.{IsReconciled, hooked_rtl_allocate_heap-IsReconciled}
use ts3vasmanager.Hooks.Heap.{Heaps, HeapAlloc, hooked_rtl_allocate_heap}
use ts3vasmanager.Hooks.Moves.{Move, hooked_rtl_reallocate_heap, plain}
use ts3vasmanager.ProxyAllocatorTrace.Ring.{emits, emits-last, rec_of}
use ts3vasmanager.ProxyAllocatorTrace.{
  Trace, Mark, no_mark, initialize_trace, trace_capacity, TraceRec, empty_rec,
}
use ts3vasmanager.Examples.Manager.{call, filled}
use ts3vasmanager.Hooks.Modules.{game_exe}
use ts3vasmanager.Prelude.{
  ℕ, refl, inr, true, false, Option, none, some, List, [], arith, length, get_or, replicate, ◌+◌,
  ◌%◌, ◌≤◌, ◌<◌, ◌≡◌, ◌↔◌, ◌∷◌, ◌==◌, if◌then◌else◌,
}

-- "NVD3DUM" holds "d3d".
string_contains_i-Occurs_example :
    (string_contains_i (78 ∷ 86 ∷ 68 ∷ 51 ∷ 68 ∷ 85 ∷ 77 ∷ []) (100 ∷ 51 ∷ 100 ∷ []) ≡ true)
    ↔ Occurs (78 ∷ 86 ∷ 68 ∷ 51 ∷ 68 ∷ 85 ∷ 77 ∷ []) (100 ∷ 51 ∷ 100 ∷ [])
string_contains_i-Occurs_example =
    string_contains_i-Occurs (78 ∷ 86 ∷ 68 ∷ 51 ∷ 68 ∷ 85 ∷ 77 ∷ []) (100 ∷ 51 ∷ 100 ∷ [])

-- "msvcr80.dll", "mod.asi" and "TS3W.exe".
abbrev stack : List Frame
stack =
    in_module (109 ∷ 115 ∷ 118 ∷ 99 ∷ 114 ∷ 56 ∷ 48 ∷ []) 0x78000010 0x10
    ∷ unresolved
    ∷ in_module (109 ∷ 111 ∷ 100 ∷ 46 ∷ 97 ∷ 115 ∷ 105 ∷ []) 0x10001000 0x1000
    ∷ in_module (84 ∷ 83 ∷ 51 ∷ 87 ∷ 46 ∷ 101 ∷ 120 ∷ 101 ∷ []) 0x401000 0x1000
    ∷ []

resolve-originator_example :
    resolve_originator_frame stack
    ≡ or_else (first_game (candidates stack)) (head (candidates stack))
resolve-originator_example = resolve-originator stack

scan_dbpf_index-some_example :
    (out : List DbpfTypeStats) × (scan_dbpf_index (replicate 96 1) 96 8 ≡ some out)
scan_dbpf_index-some_example = scan_dbpf_index-some (replicate 96 1) 96 8 (omega arith)

-- Two entries of one type.
scan-Counted_example :
    (out : List DbpfTypeStats) × (scan_entries (replicate 64 1) 0 8 2 0 [] ≡ some out)
    × (length out ≤ 8)
    × ((u : ℕ)
        → Counted
            (occurrences u (entries (replicate 64 1) 0 2 0))
            (bytes_of u (entries (replicate 64 1) 0 2 0))
            8
            (length out)
            (stats_of u out))
scan-Counted_example = scan-Counted (replicate 64 1) 0 8 2 (omega arith)

-- TS3VAS_PASSIVE=1.
abbrev passive_start : Surroundings
passive_start = record {
  passive_env = some 49;
  passive_file = false;
  force_env = none;
  force_heap_env = none;
}

abbrev plain_start : Surroundings
plain_start = record {
  passive_env = none;
  passive_file = false;
  force_env = none;
  force_heap_env = none;
}

-- Three shards of 54 MB.
abbrev shard_table : ℕ → Shards
shard_table picked = record {
  shards =
      record { handle = 0x30000000; lo = 0x30000000; hi = 0x33600000 }
      ∷ record { handle = 0x33600000; lo = 0x33600000; hi = 0x36C00000 }
      ∷ record { handle = 0x36C00000; lo = 0x36C00000; hi = 0x3A200000 }
      ∷ [];
  enabled = true;
  next = picked;
}

-- The first two shards are full.
abbrev last_has_room : ℕ → Option ℕ
last_has_room handle = if handle == 0x36C00000 then some 0x36C01000 else none

proxy_heap_alloc-Spilled_example :
    Spilled
      (λ h. true)
      last_has_room
      (shard_table 0).shards
      (proxy_heap_alloc (λ h. true) last_has_room (shard_table 0)).0
proxy_heap_alloc-Spilled_example =
    proxy_heap_alloc-Spilled (λ h. true) last_has_room (shard_table 0) (omega arith)

record_heap_use-IsUsed_example : IsUsed 0x150000 64 no_use (record_heap_use 0x150000 64 [] no_use).1
record_heap_use-IsUsed_example =
    record_heap_use-IsUsed 0x150000 64 [] no_use (omega arith) (λ i e. cc) (inr (omega arith))

abbrev trace : Trace
trace = record { buf = none; cap = 0; write_idx = 0; trace_seq = 0; span_id_gen = 1 }

abbrev numbered : ℕ → ℕ × Mark
numbered j = (j, no_mark j)

emits-last_example :
    (rs : List TraceRec) × ((emits numbered 3 (initialize_trace true 7 trace)).buf ≡ some rs)
    × (length rs ≡ trace_capacity)
    × ((j : ℕ)
        → j < 3
        → 3 ≤ j + trace_capacity
        → get_or rs (j % trace_capacity) (empty_rec 0) ≡ rec_of numbered j)
emits-last_example = emits-last numbered 7 3 trace refl (omega arith)

abbrev heaps : Heaps
heaps = record {
  manager = filled;
  switches = new_switches;
  shards = shard_table 0;
  exec_heaps = [];
  uses = no_use;
  loss_probe = true;
  losses = (replicate 8 0, replicate 8 0);
  heap_proxy_min = 4096;
  captured = 0;
  capture_failed = 0;
  observed_before_active = 0;
  tl_hook_active = false;
  in_hook = false;
  active_hook_calls = 0;
  events = [];
}

-- 128 KB for the game.
abbrev heap_alloc : HeapAlloc
heap_alloc = record {
  heap = 0x150000;
  size = 0x20000;
  bootstrapping = false;
  surroundings = plain_start;
  heap_module = [];
  caller = game_exe;
  module_name = [];
  thread_id = 6;
  caller_is_graphics = false;
  caller_is_audio = false;
  create = call;
  committed = λ h. true;
  block = last_has_room;
  actual = λ h. 64;
  real = none;
}

hooked_rtl_allocate_heap-IsReconciled_example :
    IsReconciled 2 (hooked_rtl_allocate_heap heap_alloc heaps).1
hooked_rtl_allocate_heap-IsReconciled_example =
    hooked_rtl_allocate_heap-IsReconciled 2 heap_alloc heaps (omega arith) refl

-- Neither the manager nor the real heap has a new block.
abbrev move : Move
move = record {
  block = 0x10000000;
  size = 0x20000;
  bootstrapping = false;
  surroundings = plain_start;
  create = record call { caller_is_self = true };
  real_alloc = none;
  real_realloc = none;
  committed = λ h. true;
  shard_realloc = λ h. none;
  old_size = none;
}

suppressed-real_example :
    (suppressed (hooked_rtl_allocate_heap heap_alloc) heaps ≡ (none, heaps))
    × (suppressed (hooked_rtl_reallocate_heap move) heaps ≡ (plain none, heaps))
suppressed-real_example = suppressed-real heap_alloc move heaps
