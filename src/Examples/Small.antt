-- ===== src/Examples/Small.antt =====
-- The pressure monitor, the lanes, the collection cadence, the hitch detector and the dedup table.
use ts3vasmanager.Analytics.Sums.{increment_counter-reads}
use ts3vasmanager.Analytics.{
  ThreadCache, Counters, lookup_entries, lookup_thread_local_id, increment_counter,
  get_counter_value,
}
use ts3vasmanager.VasPressureMonitor.Levels.{updates-levels}
use ts3vasmanager.ProxyGc.Cadence.{Rising, answers, due, answers-are_due}
use ts3vasmanager.HitchDetector.{Hitch}
use ts3vasmanager.VasPressureMonitor.{
  warning_threshold, critical_threshold, new_monitor, should_throttle, should_pause, updates,
  IsSynced,
}
use ts3vasmanager.ProxyGc.{Gc}
use ts3vasmanager.Prelude.{
  ℕ, refl, true, none, [], arith, ltb, ◌*◌, ◌≡◌, ◌∷◌, ◌==◌, if◌then◌else◌, replicate, add64, List,
}

updates-levels_example :
    let m' = updates (0x8000000 ∷ 0x5000000 ∷ []) new_monitor in
    (m'.available_vas ≡ 0x5000000)
    × IsSynced m'
    × (should_throttle m' ≡ ltb 0x5000000 warning_threshold)
    × (should_pause m' ≡ ltb 0x5000000 critical_threshold)
updates-levels_example = updates-levels (0x8000000 ∷ []) 0x5000000 new_monitor

abbrev gc : Gc
gc = record {
  has_event = true;
  last_gc_req_ms = 0;
  pressure_bytes = 1024 * 1024 * 1024;
  proactive_interval_ms = 60000;
  pressure_interval_ms = 15000;
}

-- A first call, two under pressure, and one whose span is not known.
abbrev calls : List (ℕ × ℕ)
calls = (1000, 2000000000) ∷ (17000, 500000000) ∷ (20000, 500000000) ∷ (90000, 0) ∷ []

calls-Rising : Rising 1 calls
calls-Rising = (
  omega arith,
  omega arith,
  (omega arith, omega arith, (omega arith, omega arith, (omega arith, omega arith, tt))),
)

answers-are_due_example : answers calls gc ≡ due gc none calls
answers-are_due_example = answers-are_due gc calls refl (omega arith, omega arith) calls-Rising

abbrev hitch : Hitch
hitch = record {
  read_file_count = 7;
  alloc_count = 8;
  free_count = 9;
  last_check_time = 5;
  last_read_file_count = 0;
  last_alloc_count = 0;
  last_free_count = 0;
}

-- The key's home slot is taken by another key.
abbrev table : ℕ → ℕ
table i = if i == 5 then 77 else 0

abbrev cache : ThreadCache
cache = record { has_tls = true; entries = []; cursor = 0 }

abbrev counters : Counters
counters = record { names = (97 ∷ []) ∷ []; values = replicate 512 7 }

increment_counter-reads_example :
    get_counter_value (98 ∷ []) (increment_counter (98 ∷ []) 5 cache counters).1
    ≡ add64 (get_counter_value (98 ∷ []) counters) 5
unfolding lookup_thread_local_id lookup_entries
increment_counter-reads_example =
    increment_counter-reads 98 [] 5 cache counters (omega arith, refl) (λ i e. cc) (omega arith)
      (omega arith)
