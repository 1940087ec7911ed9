-- ===== src/ContainmentLane/Kinds.antt =====
-- The lane and the kind of the caller.
use ts3vasmanager.ContainmentLane.{lane_from_caller_kind, is_excluded}
use ts3vasmanager.Prelude.{ℕ, arith, ◌≡◌, ◌==◌}

-- On every thread the lane is an excluded one exactly when the caller is the graphics driver.
pub lane-is_excluded : (tid kind : ℕ) → is_excluded (lane_from_caller_kind tid kind) ≡ (kind == 1)
unfolding is_excluded lane_from_caller_kind
lane-is_excluded tid kind = ground arith
