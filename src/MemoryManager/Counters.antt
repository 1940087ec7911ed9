-- ===== src/MemoryManager/Counters.antt =====
-- The counters that the manager bumps, as a list of events, and the classifiers that name them:
-- `ProxyBucket`, `RecordProxyBandPair`, `LaneFailTag`. Bytes are given with the event.
use ts3vasmanager.Prelude.{ℕ, Bool, List, ltb, ◌*◌, ◌∷◌, if◌then◌else◌}

pub data FailReason : Type 0 where
  proxy_exhausted non_proxy_slot misaligned_proxy eager_commit_fail : FailReason

-- A `Bool` is the lane's tag: true for `Excluded`.
pub data Event : Type 0 where
  skipped_self_alloc skipped_too_big low_vas_pressure_signal : Event
  request succeeded failed : ℕ → Event
  failed_proxy failed_non_proxy_slot failed_misaligned_proxy failed_eager_commit : Event
  failed_bytes : ℕ → Event
  lane_fail : Bool → Event
  lane_fail_reason : Bool → FailReason → Event
  lane_count : Bool → Event
  lane_bytes : Bool → ℕ → Event
  local_count : Event
  local_bytes : ℕ → Event
  proxy_size free_size : ℕ → Event
  proxy_bytes free_bytes : ℕ → ℕ → Event

-- The bucket of `ProxyBucket`.
unfoldable pub proxy_bucket : ℕ → ℕ
proxy_bucket size =
    if ltb size (256 * 1024)
    then 0
    else if ltb size (512 * 1024)
    then 1
    else if ltb size (1024 * 1024)
    then 2
    else if ltb size (4 * 1024 * 1024)
    then 3
    else if ltb size (16 * 1024 * 1024)
    then 4
    else 5

-- The band of `RecordProxyBandPair`.
unfoldable pub size_band : ℕ → ℕ
size_band size =
    if ltb size (4 * 1024)
    then 0
    else if ltb size (64 * 1024)
    then 1
    else if ltb size (256 * 1024)
    then 2
    else if ltb size (512 * 1024)
    then 3
    else if ltb size (1024 * 1024)
    then 4
    else if ltb size (4 * 1024 * 1024)
    then 5
    else if ltb size (16 * 1024 * 1024)
    then 6
    else 7

unfoldable pub record_proxy_size : ℕ → List Event → List Event
record_proxy_size size es = proxy_bytes (size_band size) size ∷ proxy_size (size_band size) ∷ es

unfoldable pub record_free_size : ℕ → List Event → List Event
record_free_size size es = free_bytes (size_band size) size ∷ free_size (size_band size) ∷ es

-- The counter of a failure that follows the allocation of a slot.
unfoldable pub reject_event : FailReason → Event
reject_event proxy_exhausted = failed_proxy
reject_event non_proxy_slot = failed_non_proxy_slot
reject_event misaligned_proxy = failed_misaligned_proxy
reject_event eager_commit_fail = failed_eager_commit
