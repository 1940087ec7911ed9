-- ===== src/MemoryManager/Proxy.antt =====
-- `CreateProxyAllocation`, `FreeProxyAllocation` and `FindRecordByAddress`. The map of records is
-- an association list. What the operating system, the environment and the thread give is in a
-- `Call`; the counters assume that analytics are on. Logs and traces are not part of this state.
pub mod Records
pub mod Managed
use ts3vasmanager.ProxyAllocator.Arena.{Arena, is_proxy_address, prefers_top_down, allocate, free}
use ts3vasmanager.MemoryManager.Counters.{
  FailReason, Event, proxy_bucket, record_proxy_size, record_free_size, reject_event,
  low_vas_pressure_signal, lane_fail_reason, failed_bytes, failed, succeeded, eager_commit_fail,
  request, skipped_self_alloc, lane_fail, failed_proxy, local_bytes, misaligned_proxy,
  skipped_too_big, proxy_exhausted, local_count, non_proxy_slot, lane_bytes, lane_count,
}
use ts3vasmanager.ContainmentLane.{Lane, is_excluded}
use ts3vasmanager.Prelude.{
  ℕ, bit_and, Bool, true, false, Option, none, some, List, [], ltb, leb, add32, add64, ◌-◌, ◌&&◌,
  ◌∷◌, ◌==◌, if◌then◌else◌,
}

pub record AllocRecord : Type 0 where
  pub proxy_base : ℕ
  pub proxy_size : ℕ
  pub protection : ℕ
  pub lane : Lane
  pub alloc_tick : ℕ

pub record Manager : Type 0 where
  pub proxy : Arena
  pub allocations : List AllocRecord
  pub page_size : ℕ
  pub proxy_max_bytes : ℕ
  pub req_total : ℕ
  pub ok_total : ℕ
  pub fail_total : ℕ
  pub bytes_total : ℕ
  pub alloc_fail_streak : ℕ
  pub last_create_self_skip : Bool
  pub events : List Event

-- One call of `CreateProxyAllocation`: its arguments; whether `CallerIsSelf`; whether the thread
-- has thread-local storage; whether the commit succeeds; the tick; the low-VAS floor, and the span
-- that the pressure monitor reports, if there is one.
pub record Call : Type 0 where
  pub size : ℕ
  pub protect : ℕ
  pub lane : Lane
  pub caller_is_self : Bool
  pub tls_ok : Bool
  pub commits : Bool
  pub tick : ℕ
  pub low_vas_floor : ℕ
  pub available_vas : Option ℕ

unfoldable pub erase_record : ℕ → List AllocRecord → List AllocRecord
erase_record p [] = []
erase_record p (r ∷ rs) = let rest = erase_record p rs in if r.proxy_base == p then rs else r ∷ rest

unfoldable pub find_record : ℕ → List AllocRecord → Option AllocRecord
find_record p [] = none
find_record p (r ∷ rs) = if r.proxy_base == p then some r else find_record p rs

-- `m_allocations[base] = record`
unfoldable pub set_record : AllocRecord → List AllocRecord → List AllocRecord
set_record r rs = r ∷ erase_record r.proxy_base rs

unfoldable pub bump : Event → Manager → Manager
bump e m = record m { events = e ∷ m.events }

-- `t_lastCreateSelfSkip`, on a thread that has it.
unfoldable pub mark_skip : Call → Bool → Manager → Manager
mark_skip c b m = record m {
  last_create_self_skip = if c.tls_ok then b else m.last_create_self_skip;
}

-- The low-VAS signal, from the floor and the monitor's span.
unfoldable pub signal_below : ℕ → Option ℕ → Manager → Manager
signal_below floor none m = m
signal_below floor (some vas) m =
    if ltb 0 floor && ltb vas floor then bump low_vas_pressure_signal m else m

unfoldable pub signal_low_vas : Call → Manager → Manager
signal_low_vas c m = signal_below c.low_vas_floor c.available_vas m

abbrev pub record_of : Call → ℕ → AllocRecord
record_of c p = record {
  proxy_base = p;
  proxy_size = c.size;
  protection = c.protect;
  lane = c.lane;
  alloc_tick = c.tick;
}

-- The request, byte and failure totals, and `RecordAllocFailForLane`.
unfoldable pub record_alloc_fail : Call → FailReason → Manager → Manager
record_alloc_fail c reason m = record m {
  req_total = add64 m.req_total 1;
  bytes_total = add64 m.bytes_total c.size;
  fail_total = add64 m.fail_total 1;
  alloc_fail_streak = add32 m.alloc_fail_streak 1;
  events = lane_fail_reason (is_excluded c.lane) reason ∷ lane_fail (is_excluded c.lane) ∷ m.events;
}

unfoldable pub fail_exhausted : Call → Manager → Manager
fail_exhausted c m = bump (failed_bytes c.size) (
    bump failed_proxy (bump (failed (proxy_bucket c.size)) (record_alloc_fail c proxy_exhausted m)))

-- A slot that is not usable goes back to the arena.
unfoldable pub reject : Call → FailReason → ℕ → Manager → Manager
reject c reason p m = bump (failed (proxy_bucket c.size)) (
    bump (reject_event reason)
      (record_alloc_fail c reason (record m { proxy = free p c.size m.proxy })))

-- The record and the counters of a success.
unfoldable pub publish : Call → ℕ → Manager → Manager
publish c p m = record m {
  allocations = set_record (record_of c p) m.allocations;
  events =
      succeeded (proxy_bucket c.size)
      ∷ record_proxy_size c.size (
          local_bytes c.size
          ∷ local_count
          ∷ lane_bytes (is_excluded c.lane) c.size
          ∷ lane_count (is_excluded c.lane)
          ∷ m.events);
  req_total = add64 m.req_total 1;
  bytes_total = add64 m.bytes_total c.size;
  ok_total = add64 m.ok_total 1;
  alloc_fail_streak = 0;
}

unfoldable pub settle_slot : Call → ℕ → Manager → Option ℕ × Manager
settle_slot c p m =
    if is_proxy_address m.proxy p
    then (if bit_and p (m.page_size - 1) == 0
        then (if c.commits then (some p, publish c p m) else (none, reject c eager_commit_fail p m))
        else (none, reject c misaligned_proxy p m))
    else (none, reject c non_proxy_slot p m)

unfoldable pub settle : Call → Manager → Option ℕ × Arena → Option ℕ × Manager
settle c m (none, a) = (none, fail_exhausted c (record m { proxy = a }))
settle c m (some p, a) = settle_slot c p (record m { proxy = a })

unfoldable pub redirect : Call → Manager → Option ℕ × Manager
redirect c m =
    settle c (signal_low_vas c (bump (request (proxy_bucket c.size)) m))
      (allocate c.size (prefers_top_down m.proxy c.size) m.proxy)

unfoldable pub create_proxy_allocation : Call → Manager → Option ℕ × Manager
create_proxy_allocation c m₀ =
    let m = mark_skip c false m₀ in
    if c.caller_is_self
    then (none, bump skipped_self_alloc (mark_skip c true m))
    else (if ltb 0 m.proxy_max_bytes && leb m.proxy_max_bytes c.size
        then (none, bump skipped_too_big (mark_skip c true m))
        else redirect c m)

unfoldable pub release : ℕ → Manager → Option AllocRecord → Bool × Manager
release p m none = (false, m)
release p m (some r) = (
  true,
  record m {
    allocations = erase_record p m.allocations;
    proxy = free p r.proxy_size m.proxy;
    events = record_free_size r.proxy_size m.events;
  },
)

unfoldable pub free_proxy_allocation : ℕ → Manager → Bool × Manager
free_proxy_allocation p m =
    if is_proxy_address m.proxy p then release p m (find_record p m.allocations) else (false, m)

-- `FindRecordByAddress`
unfoldable pub record_containing : ℕ → List AllocRecord → Option AllocRecord
record_containing p [] = none
record_containing p (r ∷ rs) =
    if leb r.proxy_base p && ltb p (add32 r.proxy_base r.proxy_size)
    then some r
    else record_containing p rs

unfoldable pub find_record_by_address : ℕ → Manager → Option AllocRecord
find_record_by_address p m = record_containing p m.allocations
