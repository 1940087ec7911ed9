-- ===== src/MemoryManager/Corral.antt =====
-- The script arena: `EnvMb`, `AddCorralSegment`, `InitScriptArena`, `CorralReserve`, `CorralFree`,
-- `IsCorralAddress`, `GetCorralUsedBytes`. Each holds `m_corralCS` while it changes the state. What
-- `VirtualAlloc` and `new` answer is in a `Zone`; logs are not part of this state.
pub mod Cap
use ts3vasmanager.ProxyAllocator.Init.{init_from_shared}
use ts3vasmanager.ProxyAllocator.Arena.{Arena, allocate, free}
use ts3vasmanager.Prelude.{
  ℕ, zero, suc, max, Bool, true, false, not, Option, none, some, List, [], ltb, leb, length, add32,
  ◌+◌, ◌*◌, ◌%◌, ◌^◌, ◌&&◌, ◌||◌, ◌∷◌, ◌++◌, ◌==◌, if◌then◌else◌,
}

pub record Segment : Type 0 where
  pub base : ℕ
  pub size : ℕ
  pub alloc : Arena

pub record Corral : Type 0 where
  pub segments : List Segment
  pub start_bytes : ℕ
  pub grow_floor : ℕ
  pub max_reserved : ℕ
  pub total_reserved : ℕ
  pub sizes : List (ℕ × ℕ)
  pub peak_bytes : ℕ
  pub ready : Bool

-- The answers to one growth: the reservation (0 when refused), the allocator that `new` constructs,
-- if it does, and the reservation of its node pool.
pub record Zone : Type 0 where
  pub reserved : ℕ
  pub fresh : Option Arena
  pub pool_mem : ℕ

abbrev pub max_corral_segs : ℕ
max_corral_segs = 64

-- `EnvMb`; `parsed` is the variable's number, 0 when it is not set or does not fit the buffer.
unfoldable pub env_mb : ℕ → ℕ → ℕ
env_mb parsed default_mb = ((if parsed == 0 then default_mb else parsed) * 1024 * 1024) % 2 ^ 32

-- The branches of `AddCorralSegment` behind the reservation.
unfoldable pub publish_segment : ℕ → ℕ → Bool × Arena → Corral → Bool × Corral
publish_segment base size (false, a) c = (false, c)
publish_segment base size (true, a) c = (
  true,
  record c {
    segments = c.segments ++ (record { base = base; size = size; alloc = a } ∷ []);
    total_reserved = add32 c.total_reserved size;
  },
)

unfoldable pub attach_zone : Option Arena → ℕ → ℕ → ℕ → Corral → Bool × Corral
attach_zone none pool_mem base size c = (false, c)
attach_zone (some a) pool_mem base size c =
    publish_segment base size (init_from_shared pool_mem base size a) c

unfoldable pub add_corral_segment : Zone → ℕ → Corral → Bool × Corral
add_corral_segment z size c =
    if leb max_corral_segs (length c.segments)
    then (false, c)
    else (if not (c.max_reserved == 0) && ltb c.max_reserved (add32 c.total_reserved size)
        then (false, c)
        else (if z.reserved == 0
            then (false, c)
            else attach_zone z.fresh z.pool_mem z.reserved size c))

unfoldable pub init_script_arena : Zone → ℕ → ℕ → ℕ → Corral → Bool × Corral
init_script_arena z start_mb grow_mb max_mb c =
    let start = env_mb start_mb 126 in
    let r = add_corral_segment z start (record c {
      start_bytes = start;
      grow_floor = env_mb grow_mb 32;
      max_reserved = env_mb max_mb 512;
    }) in
    (r.0, record r.1 { ready = r.0 })

-- The loop over the segments: the first that grants the request, and its index.
unfoldable pub first_grant : ℕ → ℕ → List Segment → Option (ℕ × ℕ) × List Segment
first_grant size i [] = (none, [])
first_grant size i (s ∷ ss) =
    let r = allocate size false s.alloc in
    let rest = first_grant size (i + 1) ss in
    elim r.0 [
      | some p ↦ (some (p, i), record s { alloc = r.1 } ∷ ss)
      | none ↦ (rest.0, record s { alloc = r.1 } ∷ rest.1)
    ]

unfoldable pub grow_size : ℕ → Corral → ℕ
grow_size size c =
    let doubled = (size * 2) % 2 ^ 32 in if ltb doubled c.grow_floor then c.grow_floor else doubled

-- The request in the segment that was just added, the last one.
unfoldable pub last_grant : ℕ → List Segment → Option (ℕ × ℕ) × List Segment
last_grant size [] = (none, [])
last_grant size (s ∷ []) =
    let r = allocate size false s.alloc in
    (elim r.0 [ none ↦ none | some p ↦ some (p, 0) ], record s { alloc = r.1 } ∷ [])
last_grant size (s ∷ t ∷ ss) =
    let r = last_grant size (t ∷ ss) in
    (elim r.0 [ none ↦ none | some (p, i) ↦ some (p, i + 1) ], s ∷ r.1)

unfoldable pub grant_grown : ℕ → Bool × Corral → Option (ℕ × ℕ) × Corral
grant_grown size (false, c) = (none, c)
grant_grown size (true, c) =
    let r = last_grant size c.segments in (r.0, record c { segments = r.1 })

unfoldable pub grant_or_grow :
    Zone → ℕ → Option (ℕ × ℕ) × List Segment → Corral → Option (ℕ × ℕ) × Corral
grant_or_grow z size (some s, ss) c = (some s, record c { segments = ss })
grant_or_grow z size (none, ss) c =
    let b = record c { segments = ss } in
    grant_grown size (add_corral_segment z (grow_size size b) b)

unfoldable pub free_in : ℕ → ℕ → ℕ → List Segment → List Segment
free_in p size i [] = []
free_in p size zero (s ∷ ss) = record s { alloc = free p size s.alloc } ∷ ss
free_in p size (suc i) (s ∷ ss) = s ∷ free_in p size i ss

unfoldable pub erase_size : ℕ → List (ℕ × ℕ) → List (ℕ × ℕ)
erase_size p [] = []
erase_size p ((q, n) ∷ ms) = let rest = erase_size p ms in if q == p then ms else (q, n) ∷ rest

unfoldable pub find_size : ℕ → List (ℕ × ℕ) → Option ℕ
find_size p [] = none
find_size p ((q, n) ∷ ms) = if q == p then some n else find_size p ms

unfoldable pub used_total : List Segment → ℕ
used_total [] = 0
used_total (s ∷ ss) = add32 s.alloc.used_bytes (used_total ss)

-- The slot's size in the map, and the peak.
unfoldable pub note_slot : ℕ → ℕ → Corral → Corral
note_slot p size c = record c {
  sizes = (p, size) ∷ erase_size p c.sizes;
  peak_bytes = max c.peak_bytes (used_total c.segments);
}

-- `commit` is whether MEM_COMMIT is asked for, `commits` whether it succeeds.
unfoldable pub settle_corral : ℕ → Bool → Bool → Option (ℕ × ℕ) × Corral → Option ℕ × Corral
settle_corral size commit commits (none, c) = (none, c)
settle_corral size commit commits (some (p, i), c) =
    if commit && not commits
    then (none, record c { segments = free_in p size i c.segments })
    else (some p, note_slot p size c)

unfoldable pub corral_reserve : Zone → ℕ → Bool → Bool → Corral → Option ℕ × Corral
corral_reserve z size commit commits c =
    if not c.ready || (size == 0)
    then (none, c)
    else settle_corral size commit commits (grant_or_grow z size (first_grant size 0 c.segments) c)

unfoldable pub in_segment : ℕ → Segment → Bool
in_segment p s = leb s.base p && ltb p (add32 s.base s.size)

-- The first segment that holds the address.
unfoldable pub owner : ℕ → List Segment → Option ℕ
owner p [] = none
owner p (s ∷ ss) =
    let rest = owner p ss in
    if in_segment p s then some 0 else elim rest [ none ↦ none | some i ↦ some (i + 1) ]

unfoldable pub recycle : ℕ → ℕ → Option ℕ → Corral → Bool × Corral
recycle p size none c = (false, c)
recycle p size (some i) c =
    if size == 0 then (false, c) else (true, record c { segments = free_in p size i c.segments })

unfoldable pub free_known : ℕ → Option ℕ → Corral → Bool × Corral
free_known p none c = (false, c)
free_known p (some size) c =
    recycle p size (owner p c.segments) (record c { sizes = erase_size p c.sizes })

unfoldable pub corral_free : ℕ → Corral → Bool × Corral
corral_free p c =
    if not c.ready || (p == 0) then (false, c) else free_known p (find_size p c.sizes) c

unfoldable pub any_segment : ℕ → List Segment → Bool
any_segment p [] = false
any_segment p (s ∷ ss) = in_segment p s || any_segment p ss

unfoldable pub is_corral_address : ℕ → Corral → Bool
is_corral_address p c = if not c.ready || (p == 0) then false else any_segment p c.segments

unfoldable pub get_corral_used_bytes : Corral → ℕ
get_corral_used_bytes c = if c.ready then used_total c.segments else 0
