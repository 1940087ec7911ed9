-- ===== src/HitchDetector.antt =====
-- HitchDetector.cpp: `CheckApiFrequency`. The counters are 64-bit words; the function's statics are
-- fields of the state. The thresholds come from the environment; the stack capture is not modelled.
pub mod Baseline
use ts3vasmanager.ProxyGc.{interval}
use ts3vasmanager.Prelude.{
  ℕ, Bool, Option, none, some, ltb, sub32, add64, sub64, ◌^◌, ◌&&◌, ◌==◌, if◌then◌else◌,
}

pub record Limits : Type 0 where
  pub interval_ms : ℕ
  pub read_file_threshold : ℕ
  pub alloc_threshold : ℕ
  pub free_threshold : ℕ

pub record Hitch : Type 0 where
  pub read_file_count : ℕ
  pub alloc_count : ℕ
  pub free_count : ℕ
  pub last_check_time : ℕ
  pub last_read_file_count : ℕ
  pub last_alloc_count : ℕ
  pub last_free_count : ℕ

-- The three warnings.
pub record Warnings : Type 0 where
  pub reads : Bool
  pub allocs : Bool
  pub frees : Bool

-- `GetEnvIntOrDefault`; `parsed` is what `atoi` gives, 0 for what is not positive or not set.
unfoldable pub env_int_or_default : ℕ → ℕ → ℕ
env_int_or_default parsed default_value = if ltb 0 parsed then parsed else default_value

unfoldable pub new_limits : ℕ → ℕ → ℕ → ℕ → Limits
unfolding env_int_or_default
new_limits interval reads allocs frees = record {
  interval_ms = env_int_or_default interval 250;
  read_file_threshold = env_int_or_default reads 2000;
  alloc_threshold = env_int_or_default allocs 20000;
  free_threshold = env_int_or_default frees 20000;
}

-- `delta > threshold` for a signed 64-bit difference.
unfoldable pub exceeds : ℕ → ℕ → ℕ → Bool
exceeds current last threshold =
    ltb threshold (sub64 current last) && ltb (sub64 current last) (2 ^ 63)

unfoldable pub warnings : Limits → Hitch → Warnings
warnings l h = record {
  reads = exceeds h.read_file_count h.last_read_file_count l.read_file_threshold;
  allocs = exceeds h.alloc_count h.last_alloc_count l.alloc_threshold;
  frees = exceeds h.free_count h.last_free_count l.free_threshold;
}

unfoldable pub rebase : ℕ → Hitch → Hitch
rebase now h = record h {
  last_read_file_count = h.read_file_count;
  last_alloc_count = h.alloc_count;
  last_free_count = h.free_count;
  last_check_time = now;
}

-- `CheckApiFrequency` at the tick `now`: the warnings, if the interval has passed.
unfoldable pub check_api_frequency : Limits → ℕ → Hitch → Option Warnings × Hitch
check_api_frequency l now h =
    if h.last_check_time == 0
    then (none, record h { last_check_time = now })
    else (if ltb (sub32 now h.last_check_time) l.interval_ms
        then (none, h)
        else (some (warnings l h), rebase now h))

-- The counts that the hooks add between two checks.
unfoldable pub count_calls : ℕ → ℕ → ℕ → Hitch → Hitch
count_calls reads allocs frees h = record h {
  read_file_count = add64 h.read_file_count reads;
  alloc_count = add64 h.alloc_count allocs;
  free_count = add64 h.free_count frees;
}
