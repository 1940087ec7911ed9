-- ===== src/ContainmentLane.antt =====
-- ContainmentLane.h and ContainmentLane.cpp: the lane of an allocation, from the kind of its caller
-- and the thread id. `is_excluded` is the test of `CreateProxyAllocation` (MemoryManager.cpp).
pub mod Kinds
use ts3vasmanager.Prelude.{ℕ, bit_and, Bool, true, false, ◌==◌, if◌then◌else◌}

pub data Lane : Type 0 where
  contained_a contained_b contained_c contained_d : Lane
  excluded_a excluded_b excluded_c excluded_d : Lane

-- `LaneShard4`.
unfoldable pub lane_shard4 : ℕ → ℕ
lane_shard4 tid = bit_and tid 3

unfoldable pub lane_from_caller_kind : ℕ → ℕ → Lane
lane_from_caller_kind tid caller_kind =
    let shard = lane_shard4 tid in
    if caller_kind == 1
    then (if shard == 0
        then excluded_a
        else (if shard == 1 then excluded_b else (if shard == 2 then excluded_c else excluded_d)))
    else (if shard == 0
        then contained_a
        else (if shard == 1
            then contained_b
            else (if shard == 2 then contained_c else contained_d)))

unfoldable pub is_excluded : Lane → Bool
is_excluded contained_a = false
is_excluded contained_b = false
is_excluded contained_c = false
is_excluded contained_d = false
is_excluded excluded_a = true
is_excluded excluded_b = true
is_excluded excluded_c = true
is_excluded excluded_d = true
