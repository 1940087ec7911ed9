-- ===== src/VasPressureMonitor/Levels.antt =====
-- What the level says after any run of updates.
use ts3vasmanager.VasPressureMonitor.{normal, warning, critical}
use ts3vasmanager.VasPressureMonitor.{
  Monitor, warning_threshold, critical_threshold, level_of, rank, update, should_throttle,
  should_pause, updates, IsSynced, VasPressureLevel,
}
use ts3vasmanager.Prelude.{
  ℕ, refl, true, List, [], arith, ltb, leb, ◌≡◌, ◌≢◌, ◌↔◌, ◌∷◌, ◌++◌, ◌==◌, not,
}

throttle-level_of : (v : ℕ) → leb 1 (rank (level_of v)) ≡ ltb v warning_threshold
unfolding level_of rank
throttle-level_of v = ground arith

pause-level_of : (v : ℕ) → (rank (level_of v) == 2) ≡ ltb v critical_threshold
unfolding level_of rank
pause-level_of v = ground arith

-- After any sequence of updates that ends with the span v, whatever the monitor was before, it
-- holds v with the level of v, it throttles exactly when v is below 128 MB, and it pauses exactly
-- when v is below 64 MB.
pub updates-levels :
    (vs : List ℕ) (v : ℕ) (m : Monitor)
    → let m' = updates (vs ++ (v ∷ [])) m in
      (m'.available_vas ≡ v)
      × IsSynced m'
      × (should_throttle m' ≡ ltb v warning_threshold)
      × (should_pause m' ≡ ltb v critical_threshold)
unfolding updates update should_throttle should_pause
updates-levels [] v m = (refl, refl, throttle-level_of v, pause-level_of v)
updates-levels (u ∷ us) v m = updates-levels us v (update u m).1

differ : (a b : VasPressureLevel) → (not (rank a == rank b) ≡ true) ↔ (a ≢ b)
unfolding rank
differ normal normal = (λ e. cc, λ n. elim (n refl) [ ])
differ normal warning = (λ e. λ q. cc, λ n. refl)
differ normal critical = (λ e. λ q. cc, λ n. refl)
differ warning normal = (λ e. λ q. cc, λ n. refl)
differ warning warning = (λ e. cc, λ n. elim (n refl) [ ])
differ warning critical = (λ e. λ q. cc, λ n. refl)
differ critical normal = (λ e. λ q. cc, λ n. refl)
differ critical warning = (λ e. λ q. cc, λ n. refl)
differ critical critical = (λ e. cc, λ n. elim (n refl) [ ])

-- An update reports a change exactly when the level that it sets differs from the one before.
pub update-logged :
    (v : ℕ) (m : Monitor)
    → ((update v m).0 ≡ true) ↔ (m.pressure_level ≢ (update v m).1.pressure_level)
unfolding update
update-logged v m = differ m.pressure_level (level_of v)
