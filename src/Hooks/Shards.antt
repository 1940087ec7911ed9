-- ===== src/Hooks/Shards.antt =====
-- WorkingHooks.cpp: the private heaps for small allocations: `ProxyHeapShardOf`, `ShardHandleLive`,
-- `ProxyHeapAlloc`, `ProxyHeapFree`, `ProxyHeapReAlloc`, `ProxyHeapSize`, `ProxyHeapNoteExecHeap`,
-- `ProxyHeapIsExecHeap`, `RecordSardineLoss`. What the system's heap functions answer for a handle,
-- and whether the page of a handle is there, are arguments.
pub mod Spill
use ts3vasmanager.Prelude.{
  ℕ, zero, suc, Bool, false, not, Option, none, some, List, [], ltb, leb, length, get_or, set,
  add32, add64, ◌+◌, ◌-◌, ◌*◌, ◌%◌, ◌^◌, ◌&&◌, ◌||◌, ◌∷◌, ◌++◌, ◌==◌, if◌then◌else◌,
}

pub record Shard : Type 0 where
  pub handle : ℕ
  pub lo : ℕ
  pub hi : ℕ

-- The shards that were published, and the bits of the counter that picks one.
pub record Shards : Type 0 where
  pub shards : List Shard
  pub enabled : Bool
  pub next : ℕ

abbrev pub no_shard : Shard
no_shard = record { handle = 0; lo = 0; hi = 0 }

unfoldable pub shard_of : ℕ → List Shard → Option ℕ
shard_of p [] = none
shard_of p (s ∷ ss) =
    let rest = shard_of p ss in
    if leb s.lo p && ltb p s.hi then some 0 else elim rest [ none ↦ none | some i ↦ some (i + 1) ]

-- `ProxyHeapShardOf`
unfoldable pub proxy_heap_shard_of : ℕ → Shards → Option ℕ
proxy_heap_shard_of p s = if p == 0 then none else shard_of p s.shards

-- `ShardHandleLive`, of the test of the page.
unfoldable pub shard_handle_live : (ℕ → Bool) → ℕ → Bool
shard_handle_live committed h = not (h == 0) && committed h

-- The index `(start + k) % n` of signed 32-bit numbers: a negative remainder is in front of the
-- array.
unfoldable pub pick_index : ℕ → ℕ → ℕ → Option ℕ
pick_index start k n =
    let v = add32 start k in
    if ltb v (2 ^ 31) then some (v % n) else (if (2 ^ 32 - v) % n == 0 then some 0 else none)

-- A block; no shard that has one; or a read in front of the array.
pub data ShardAlloc : Type 0 where
  got : ℕ → ShardAlloc
  all_full out_of_bounds : ShardAlloc

unfoldable pub try_shard : (ℕ → Bool) → (ℕ → Option ℕ) → List Shard → ℕ → Option ℕ
try_shard committed alloc ss i =
    let h = (get_or ss i no_shard).handle in if shard_handle_live committed h then alloc h else none

-- The rounds that are left, from round k on.
unfoldable pub try_from : (ℕ → Bool) → (ℕ → Option ℕ) → List Shard → ℕ → ℕ → ℕ → ShardAlloc
try_from committed alloc ss start zero k = all_full
try_from committed alloc ss start (suc left) k =
    let rest = try_from committed alloc ss start left (k + 1) in
    elim (pick_index start k (length ss)) [
      | none ↦ out_of_bounds
      | some i ↦ elim (try_shard committed alloc ss i) [ none ↦ rest | some p ↦ got p ]
    ]

-- `ProxyHeapAlloc`
unfoldable pub proxy_heap_alloc : (ℕ → Bool) → (ℕ → Option ℕ) → Shards → ShardAlloc × Shards
proxy_heap_alloc committed alloc s =
    let start = add32 s.next 1 in
    if length s.shards == 0
    then (all_full, s)
    else (try_from committed alloc s.shards start (length s.shards) 0, record s { next = start })

-- What is called: the handle that a block is freed on, or nothing.
unfoldable pub free_shard : (ℕ → Bool) → Option ℕ → Shards → Option ℕ
free_shard committed none s = none
free_shard committed (some i) s =
    let h = (get_or s.shards i no_shard).handle in
    if shard_handle_live committed h then some h else none

-- `ProxyHeapFree`, `ProxyHeapReAlloc`: the handle of the shard that serves the call, if one does.
unfoldable pub proxy_heap_route : (ℕ → Bool) → ℕ → Shards → Option ℕ
proxy_heap_route committed p s = free_shard committed (proxy_heap_shard_of p s) s

-- `ProxyHeapSize`: the size, or the error value.
unfoldable pub size_in : (ℕ → ℕ) → Option ℕ → Shards → ℕ
size_in size none s = 2 ^ 32 - 1
size_in size (some i) s = size (get_or s.shards i no_shard).handle

unfoldable pub proxy_heap_size : (ℕ → ℕ) → ℕ → Shards → ℕ
proxy_heap_size size p s = size_in size (proxy_heap_shard_of p s) s

abbrev pub max_exec_heaps : ℕ
max_exec_heaps = 16

unfoldable pub note_exec_heap : ℕ → List ℕ → List ℕ
note_exec_heap h heaps =
    if h == 0 then heaps else if leb max_exec_heaps (length heaps) then heaps else heaps ++ (h ∷ [])

unfoldable pub is_exec_heap : ℕ → List ℕ → Bool
is_exec_heap h [] = false
is_exec_heap h (x ∷ xs) = x == h || is_exec_heap h xs

-- The band of a size in the table of losses.
unfoldable pub sardine_band : ℕ → ℕ
sardine_band req =
    if ltb req 512
    then 0
    else if ltb req 1024
    then 1
    else if ltb req (2 * 1024)
    then 2
    else if ltb req (4 * 1024)
    then 3
    else if ltb req (8 * 1024)
    then 4
    else if ltb req (16 * 1024)
    then 5
    else if ltb req (32 * 1024)
    then 6
    else 7

-- `RecordSardineLoss`, on the requested and the actual bytes of the bands.
unfoldable pub record_sardine_loss : ℕ → ℕ → List ℕ × List ℕ → List ℕ × List ℕ
record_sardine_loss req act (reqs, acts) =
    let b = sardine_band req in
    (set reqs b (add64 (get_or reqs b 0) req), set acts b (add64 (get_or acts b 0) act))
