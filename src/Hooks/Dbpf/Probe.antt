-- ===== src/Hooks/Dbpf/Probe.antt =====
-- A package reports its scripts once.
use ts3vasmanager.ProxyAllocator.Arena.{free}
use ts3vasmanager.MemoryManager.Proxy.Records.{slots}
use ts3vasmanager.Hooks.Dbpf.{type_stats_have_script, probe_script_assembly}
use ts3vasmanager.MapViewTypeTracker.Types.{DbpfTypeStats}
use ts3vasmanager.ScriptScanDedup.Once.{no_race, effective, mark_once-again}
use ts3vasmanager.ScriptScanDedup.{key_from_base_name_a, mark_once, slot_index}
use ts3vasmanager.Prelude.{ℕ, refl, inl, inr, true, none, some, List, Bool-cases, ◌<◌, ◌≡◌}

-- If no other thread interferes and one of the 64 slots that the dedup table probes for a package
-- is empty, then after a view of the package with a script resource was probed, every further probe
-- of a view of that package, whatever its statistics are, reports nothing.
pub probe_script_assembly-once :
    (tolower : ℕ → ℕ) (base : List ℕ) (slots : ℕ → ℕ) (j : ℕ) (stats again : List DbpfTypeStats)
    → type_stats_have_script stats ≡ true
    → j < 64
    → slots (slot_index (effective (key_from_base_name_a tolower base)) j) ≡ 0
    → let slots' = (probe_script_assembly tolower no_race (some base) stats slots).1 in
      (probe_script_assembly tolower no_race (some base) again slots').0 ≡ none
unfolding probe_script_assembly
probe_script_assembly-once tolower base slots j stats again has lt free =
    let key = key_from_base_name_a tolower base in
    let seen = (mark_once-again key j slots lt free).0 in
    let after : (mark_once no_race key (mark_once no_race key slots).1).0 ≡ true = seen in
    elim (Bool-cases (type_stats_have_script again)) [
      | inr no_script ↦ rw (no_script) refl
      | inl script ↦ elim (Bool-cases (mark_once no_race key slots).0) [
        | inl old ↦ rw (has, script, old, after) refl
        | inr new ↦ rw (has, script, new, after) refl
      ]
    ]
