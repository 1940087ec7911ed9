-- ===== src/VasPressureMonitor.antt =====
-- VASPressureMonitor.h and VASPressureMonitor.cpp: the level that the largest free span gives.
pub mod Levels
use ts3vasmanager.Prelude.{ℕ, Bool, not, List, [], ltb, leb, ◌*◌, ◌≡◌, ◌∷◌, ◌==◌, if◌then◌else◌}

pub data VasPressureLevel : Type 0 where
  normal warning critical : VasPressureLevel

pub record Monitor : Type 0 where
  pub available_vas : ℕ
  pub pressure_level : VasPressureLevel

abbrev pub warning_threshold : ℕ
warning_threshold = 128 * 1024 * 1024

abbrev pub critical_threshold : ℕ
critical_threshold = 64 * 1024 * 1024

abbrev pub new_monitor : Monitor
new_monitor = record { available_vas = 2000 * 1024 * 1024; pressure_level = normal }

unfoldable pub level_of : ℕ → VasPressureLevel
level_of vas =
    if ltb vas critical_threshold
    then critical
    else (if ltb vas warning_threshold then warning else normal)

-- The value of the enumeration.
unfoldable pub rank : VasPressureLevel → ℕ
rank normal = 0
rank warning = 1
rank critical = 2

-- `Update`: the new state, and whether the change of level is logged.
unfoldable pub update : ℕ → Monitor → Bool × Monitor
update vas m =
    let new_level = level_of vas in
    (
      not (rank m.pressure_level == rank new_level),
      record m { available_vas = vas; pressure_level = new_level },
    )

unfoldable pub should_throttle : Monitor → Bool
unfolding rank
should_throttle m = leb 1 (rank m.pressure_level)

unfoldable pub should_pause : Monitor → Bool
unfolding rank
should_pause m = rank m.pressure_level == 2

unfoldable pub updates : List ℕ → Monitor → Monitor
updates [] m = m
updates (v ∷ vs) m = updates vs (update v m).1

abbrev pub IsSynced : Monitor → Type 0
IsSynced m = m.pressure_level ≡ level_of m.available_vas
