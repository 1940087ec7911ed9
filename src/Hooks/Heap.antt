-- ===== src/Hooks/Heap.antt =====
-- WorkingHooks.cpp: `Hooked_RtlAllocateHeap` and `Hooked_RtlFreeHeap`, with `RecordAllocSizeBucket`
-- and `RecordHeapBandBucket`. The memory manager is there, and
-- analytics are on. What the system and the environment answer is in the call. Logs are not part of
-- this state; the counters that a call adds to are its events, newest first.
pub mod Bands
use ts3vasmanager.Hooks.HeapUse.{HeapUse, record_heap_use, heap_is_sardine_excluded}
use ts3vasmanager.Hooks.Shards.{
  Shards, ShardAlloc, got, all_full, out_of_bounds, proxy_heap_alloc, proxy_heap_shard_of,
  proxy_heap_route, proxy_heap_size, is_exec_heap, record_sardine_loss,
}
use ts3vasmanager.Hooks.Switches.{
  Surroundings, Switches, activate_proxy, read_force_active, is_force_heap_proxy_mode,
  heap_capture_threshold,
}
use ts3vasmanager.Hooks.Modules.{AllocCallerKind, kind_code, is_audio_module}
use ts3vasmanager.MemoryManager.Proxy.{
  Manager, Call, AllocRecord, create_proxy_allocation, free_proxy_allocation,
  find_record_by_address,
}
use ts3vasmanager.ProxyAllocator.Arena.{is_proxy_address}
use ts3vasmanager.ContainmentLane.{lane_from_caller_kind, contained_a}
use ts3vasmanager.Prelude.{
  ℕ, Bool, true, false, not, Option, none, some, List, ltb, leb, add32, sub32, add64, ◌-◌, ◌*◌, ◌^◌,
  ◌&&◌, ◌||◌, ◌∷◌, ◌==◌, if◌then◌else◌,
}

-- What is counted. A band is the index of the name in its table.
pub data HeapEvent : Type 0 where
  alloc_size : ℕ → HeapEvent
  alloc_bytes : ℕ → ℕ → HeapEvent
  band_captured band_missed band_self : ℕ → HeapEvent
  corral_redirected capture_count observed_count : HeapEvent
  corral_bytes captured_bytes observed_bytes : ℕ → HeapEvent
  shard_alloc shard_free shard_fallback : HeapEvent
  shard_bytes : ℕ → HeapEvent
  caller_bucket : AllocCallerKind → ℕ → HeapEvent
  hitch_alloc hitch_free free_proxy realloc_handled realloc_large : HeapEvent
  heap_free_proxy heap_free_ok : HeapEvent

pub record Heaps : Type 0 where
  pub manager : Manager
  pub switches : Switches
  pub shards : Shards
  pub exec_heaps : List ℕ
  pub uses : HeapUse
  pub loss_probe : Bool
  pub losses : List ℕ × List ℕ
  pub heap_proxy_min : ℕ
  pub captured : ℕ
  pub capture_failed : ℕ
  pub observed_before_active : ℕ
  pub tl_hook_active : Bool
  pub in_hook : Bool
  pub active_hook_calls : ℕ
  pub events : List HeapEvent

-- One allocation: its arguments; whether the thread is bootstrapping; the process; the first caller's
-- module of the heap and the kind and module of this caller, and whether its module is a graphics
-- or an audio one; what `CreateProxyAllocation` meets; the pages, blocks and sizes of the shards;
-- and the answer of the real function.
pub record HeapAlloc : Type 0 where
  pub heap : ℕ
  pub size : ℕ
  pub bootstrapping : Bool
  pub surroundings : Surroundings
  pub heap_module : List ℕ
  pub caller : AllocCallerKind
  pub module_name : List ℕ
  pub thread_id : ℕ
  pub caller_is_graphics : Bool
  pub caller_is_audio : Bool
  pub create : Call
  pub committed : ℕ → Bool
  pub block : ℕ → Option ℕ
  pub actual : ℕ → ℕ
  pub real : Option ℕ

unfoldable pub count_heap : HeapEvent → Heaps → Heaps
count_heap e h = record h { events = e ∷ h.events }

-- The band of `RecordAllocSizeBucket`.
unfoldable pub alloc_band : ℕ → ℕ
alloc_band size =
    if ltb size (4 * 1024)
    then 0
    else if ltb size (64 * 1024)
    then 1
    else if ltb size (256 * 1024)
    then 2
    else if ltb size (512 * 1024)
    then 3
    else if ltb size (1024 * 1024)
    then 4
    else if ltb size (4 * 1024 * 1024)
    then 5
    else if ltb size (16 * 1024 * 1024)
    then 6
    else 7

unfoldable pub record_alloc_size : ℕ → Heaps → Heaps
record_alloc_size size h =
    count_heap (alloc_bytes (alloc_band size) size) (count_heap (alloc_size (alloc_band size)) h)

-- The band of `RecordHeapBandBucket`, which counts no allocation below 64 KB.
unfoldable pub heap_band : ℕ → ℕ
heap_band size =
    if ltb size (256 * 1024)
    then 2
    else if ltb size (512 * 1024)
    then 3
    else if ltb size (1024 * 1024)
    then 4
    else if ltb size (4 * 1024 * 1024)
    then 5
    else if ltb size (16 * 1024 * 1024)
    then 6
    else 7

unfoldable pub record_heap_band : ℕ → (ℕ → HeapEvent) → Heaps → Heaps
record_heap_band size prefix h =
    if ltb size heap_capture_threshold then h else count_heap (prefix (heap_band size)) h

unfoldable pub heap_bypassed : Bool → Heaps → Bool
heap_bypassed bootstrapping h =
    bootstrapping || (h.tl_hook_active || (h.in_hook || h.switches.shutting_down))

unfoldable pub activate : Surroundings → Heaps → Heaps
activate env h =
    if h.switches.proxy_active then h else record h { switches = activate_proxy env h.switches }

-- PAGE_READWRITE is 4.
abbrev pub call_of : HeapAlloc → Call
call_of c = record c.create {
  size = c.size;
  protect = 4;
  lane = lane_from_caller_kind c.thread_id (kind_code c.caller);
}

abbrev pub corral_call : HeapAlloc → Call
corral_call c = record c.create { size = c.size; protect = 4; lane = contained_a }

-- The heap that is a corral target.
unfoldable pub settle_corral_heap : HeapAlloc → Option ℕ × Manager → Heaps → Option ℕ × Heaps
settle_corral_heap c (none, m) h = (none, record h { manager = m })
settle_corral_heap c (some p, m) h = (
  some p,
  count_heap (corral_bytes c.size) (
      count_heap corral_redirected
        (record_heap_band c.size band_captured (record h { manager = m }))),
)

unfoldable pub try_corral : Bool → HeapAlloc → Heaps → Option ℕ × Heaps
try_corral target c h =
    let g = activate c.surroundings h in
    if target && ltb 0 c.size
    then (if g.switches.proxy_active
        then settle_corral_heap c (create_proxy_allocation (corral_call c) g.manager) g
        else (none, g))
    else (none, h)

-- The shards, for less than 64 KB.
unfoldable pub probe_loss : HeapAlloc → ℕ → Heaps → Heaps
probe_loss c p h =
    let act = proxy_heap_size c.actual p h.shards in
    if h.loss_probe && not (act == 2 ^ 32 - 1)
    then record h { losses = record_sardine_loss c.size act h.losses }
    else h

-- What follows a read in front of the array is not known: it is taken for no block.
unfoldable pub settle_shard : HeapAlloc → ShardAlloc × Shards → Heaps → Option ℕ × Heaps
settle_shard c (got p, s) h = (
  some p,
  probe_loss c p
      (count_heap (shard_bytes c.size) (count_heap shard_alloc (record h { shards = s }))),
)
settle_shard c (all_full, s) h = (none, count_heap shard_fallback (record h { shards = s }))
settle_shard c (out_of_bounds, s) h = (none, count_heap shard_fallback (record h { shards = s }))

unfoldable pub sardine_gate : HeapAlloc → Heaps → Bool
sardine_gate c h =
    h.shards.enabled
    && (ltb 0 c.size
        && (ltb c.size (64 * 1024)
            && (not (is_exec_heap c.heap h.exec_heaps)
                && (not (heap_is_sardine_excluded c.heap h.uses)
                    && (not c.caller_is_graphics && not c.caller_is_audio)))))

unfoldable pub try_shards : HeapAlloc → Heaps → Option ℕ × Heaps
try_shards c h =
    if sardine_gate c h
    then settle_shard c (proxy_heap_alloc c.committed c.block h.shards) h
    else (none, h)

-- The gate of the capture, and the mode that it may read.
unfoldable pub read_force_heap : Surroundings → Heaps → Bool × Heaps
read_force_heap env h =
    let r = is_force_heap_proxy_mode env.force_heap_env h.switches.force_heap in
    (r.0, record h { switches = record h.switches { force_heap = r.1 } })

unfoldable pub capture_gate : Surroundings → ℕ → Heaps → Bool × Heaps
capture_gate env size h =
    if leb heap_capture_threshold size
    then (true, h)
    else (if leb h.heap_proxy_min size then read_force_heap env h else (false, h))

-- The branches behind the attempt.
unfoldable pub capture_done : HeapAlloc → Heaps → Heaps
capture_done c h =
    let g =
      count_heap capture_count
        (count_heap (captured_bytes c.size) (record_heap_band c.size band_captured h)) in
    record g { captured = add64 g.captured 1 }

unfoldable pub capture_missed : HeapAlloc → Bool → Heaps → Heaps
capture_missed c attempted h =
    if attempted && h.manager.last_create_self_skip
    then record_heap_band c.size band_self h
    else record_heap_band c.size band_missed
        (record h { capture_failed = add64 h.capture_failed 1 })

unfoldable pub settle_capture : HeapAlloc → Option ℕ × Manager → Heaps → Option ℕ × Heaps
settle_capture c (some p, m) h = (some p, capture_done c (record h { manager = m }))
settle_capture c (none, m) h = (none, capture_missed c true (record h { manager = m }))

unfoldable pub capture_inactive : HeapAlloc → Heaps → Heaps
capture_inactive c h =
    let g = count_heap observed_count (count_heap (observed_bytes c.size) h) in
    record_heap_band c.size band_missed
      (record g { observed_before_active = add64 g.observed_before_active 1 })

unfoldable pub attempt_capture : HeapAlloc → Heaps → Option ℕ × Heaps
attempt_capture c h =
    if h.switches.proxy_active
    then (if ltb 0 c.size && not (is_audio_module c.module_name)
        then settle_capture c (create_proxy_allocation (call_of c) h.manager) h
        else (none, capture_missed c false h))
    else (none, capture_inactive c h)

unfoldable pub try_capture : HeapAlloc → Heaps → Option ℕ × Heaps
try_capture c h =
    let gate = capture_gate c.surroundings c.size h in
    let g = count_heap (caller_bucket c.caller c.size) gate.1 in
    let read = record g { switches = (read_force_active c.surroundings g.switches).1 } in
    if gate.0 then attempt_capture c (activate c.surroundings read) else (none, gate.1)

unfoldable pub or_next : (Heaps → Option ℕ × Heaps) → Option ℕ × Heaps → Option ℕ × Heaps
or_next next (some p, h) = (some p, h)
or_next next (none, h) = next h

unfoldable pub serve_heap : HeapAlloc → Heaps → Option ℕ × Heaps
serve_heap c h =
    let used = record_heap_use c.heap c.size c.heap_module h.uses in
    let seen = record_alloc_size c.size (record (count_heap hitch_alloc h) { uses = used.1 }) in
    or_next (λ g. (c.real, g))
      (or_next (try_capture c) (or_next (try_shards c) (try_corral used.0 c seen)))

-- The flags and the calls in flight, at the entry and at every exit.
unfoldable pub heap_enter : Heaps → Heaps
heap_enter h = record h {
  tl_hook_active = true;
  in_hook = true;
  active_hook_calls = add32 h.active_hook_calls 1;
}

unfoldable pub heap_leave : Heaps → Heaps
heap_leave h = record h {
  tl_hook_active = false;
  in_hook = false;
  active_hook_calls = sub32 h.active_hook_calls 1;
}

-- `Hooked_RtlAllocateHeap`
unfoldable pub hooked_rtl_allocate_heap : HeapAlloc → Heaps → Option ℕ × Heaps
hooked_rtl_allocate_heap c h =
    let r = serve_heap c (heap_enter h) in
    if heap_bypassed c.bootstrapping h then (c.real, h) else (r.0, heap_leave r.1)

-- `Hooked_RtlFreeHeap`, with the answer of the real function; what is counted on the real path is the
-- event for the hitch detector.
unfoldable pub free_elsewhere : ℕ → Bool → Bool → Heaps → Bool × Heaps
free_elsewhere p bootstrapping real h =
    if is_proxy_address h.manager.proxy p
    then (
      true,
      count_heap free_proxy (record h { manager = (free_proxy_allocation p h.manager).1 }),
    )
    else (
      real,
      if bootstrapping || (h.tl_hook_active || h.in_hook)
          then h
          else heap_leave (count_heap hitch_free (heap_enter h)),
    )

unfoldable pub hooked_rtl_free_heap : (ℕ → Bool) → ℕ → Bool → Bool → Heaps → Bool × Heaps
hooked_rtl_free_heap committed p bootstrapping real h =
    if p == 0 then (true, h) else elim (proxy_heap_route committed p h.shards) [
      | some handle ↦ (true, count_heap shard_free h)
      | none ↦ free_elsewhere p bootstrapping real h
    ]
