-- ===== src/HitchDetector/Baseline.antt =====
-- Each check measures from the one before.
use ts3vasmanager.HitchDetector.{
  Limits, Hitch, exceeds, warnings, rebase, check_api_frequency, count_calls,
}
use ts3vasmanager.Prelude.{ℕ, some, ltb, sub32, add64, ◌^◌, ◌≤◌, ◌<◌, ◌≡◌, refl, false, arith, ◌==◌}

exceeds-added :
    (n d threshold : ℕ)
    → n < 2 ^ 64
    → d < 2 ^ 63
    → exceeds (add64 n d) n threshold ≡ ltb threshold d
unfolding exceeds
exceeds-added n d threshold h k = ground arith

-- The counters are 64-bit words.
abbrev pub IsCounting : Hitch → Type 0
IsCounting h = (h.read_file_count < 2 ^ 64) × (h.alloc_count < 2 ^ 64) × (h.free_count < 2 ^ 64)

-- After a check that measured at a tick that is not zero, whatever the counters were, the next check
-- after the interval warns of each call exactly when more than its threshold of such calls came
-- between the two, and again takes the new counts as its base.
pub check-measures :
    (l : Limits) (now later reads allocs frees : ℕ) (h : Hitch)
    → IsCounting h
    → 0 < now
    → reads < 2 ^ 63
    → allocs < 2 ^ 63
    → frees < 2 ^ 63
    → l.interval_ms ≤ sub32 later now
    → let h' = count_calls reads allocs frees (rebase now h) in
      check_api_frequency l later h' ≡ (
        some (record {
          reads = ltb l.read_file_threshold reads;
          allocs = ltb l.alloc_threshold allocs;
          frees = ltb l.free_threshold frees;
        }),
        rebase later h',
      )
unfolding check_api_frequency rebase count_calls warnings
check-measures l now later reads allocs frees h c pos r a f gap =
    let set : (now == 0) ≡ false = ground arith in
    let due : ltb (sub32 later now) l.interval_ms ≡ false = ground arith in
    rw
      (
        set,
        due,
        exceeds-added h.read_file_count reads l.read_file_threshold c.0 r,
        exceeds-added h.alloc_count allocs l.alloc_threshold c.1 a,
        exceeds-added h.free_count frees l.free_threshold c.2 f,
      )
      refl
