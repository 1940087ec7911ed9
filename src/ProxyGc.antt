-- ===== src/ProxyGc.antt =====
-- ProxyGc.cpp: `EnvU64`, `Init` and `MaybeRequestMonoCollect`. `SetEvent` and the counter that goes
-- with it are the reason that a call returns; the shared block of the heap size is not modelled.
pub mod Cadence
use ts3vasmanager.Prelude.{
  ℕ, Bool, not, Option, none, some, ltb, sub64, ◌-◌, ◌*◌, ◌%◌, ◌^◌, ◌&&◌, ◌==◌, if◌then◌else◌,
}

pub record Gc : Type 0 where
  pub has_event : Bool
  pub last_gc_req_ms : ℕ
  pub pressure_bytes : ℕ
  pub proactive_interval_ms : ℕ
  pub pressure_interval_ms : ℕ

pub data Reason : Type 0 where
  pressure_reason proactive_reason : Reason

-- `EnvU64`; `parsed` is the variable's number, 0 when it is not set or does not fit the buffer.
unfoldable pub env_u64 : ℕ → ℕ → ℕ
env_u64 parsed default_value = if parsed == 0 then default_value else parsed

-- `Init`; `created` is whether `CreateEventW` succeeds.
unfoldable pub init : ℕ → ℕ → ℕ → Bool → Gc → Gc
unfolding env_u64
init pressure_mb interval_sec pressure_sec created g = record g {
  has_event = created;
  pressure_bytes = (env_u64 pressure_mb 1024 * 1024 * 1024) % 2 ^ 64;
  proactive_interval_ms = (env_u64 interval_sec 60 * 1000) % 2 ^ 64;
  pressure_interval_ms = (env_u64 pressure_sec 15 * 1000) % 2 ^ 64;
}

unfoldable pub since_last : ℕ → Gc → ℕ
since_last now g = if g.last_gc_req_ms == 0 then 2 ^ 64 - 1 else sub64 now g.last_gc_req_ms

unfoldable pub is_pressure : ℕ → Gc → Bool
is_pressure largest_free g = ltb 0 largest_free && ltb largest_free g.pressure_bytes

unfoldable pub interval : ℕ → Gc → ℕ
interval largest_free g =
    if is_pressure largest_free g then g.pressure_interval_ms else g.proactive_interval_ms

-- `MaybeRequestMonoCollect` at the tick `now`: the reason, if a collection is requested.
unfoldable pub maybe_request_mono_collect : ℕ → ℕ → Gc → Option Reason × Gc
maybe_request_mono_collect now largest_free g =
    if not g.has_event
    then (none, g)
    else (if ltb (since_last now g) (interval largest_free g) then (none, g) else (
      some (if is_pressure largest_free g then pressure_reason else proactive_reason),
      record g { last_gc_req_ms = now },
    ))
