-- ===== src/Hooks/Heap/Bands.antt =====
-- The counters of the bands of sizes reconcile.
use ts3vasmanager.Hooks.HeapUse.{record_heap_use}
use ts3vasmanager.MemoryManager.Proxy.{Manager, create_proxy_allocation}
use ts3vasmanager.Hooks.Modules.{is_audio_module}
use ts3vasmanager.Hooks.Shards.{Shards, ShardAlloc, proxy_heap_size}
use ts3vasmanager.Hooks.Switches.{heap_capture_threshold, Surroundings}
use ts3vasmanager.Hooks.Shards.{got, all_full, out_of_bounds}
use ts3vasmanager.Hooks.Heap.{
  Heaps, HeapAlloc, HeapEvent, count_heap, alloc_band, record_alloc_size, heap_band,
  record_heap_band, alloc_size, band_captured, band_missed, band_self, activate, settle_corral_heap,
  try_corral, probe_loss, settle_shard, sardine_gate, try_shards, capture_done, capture_missed,
  settle_capture, capture_inactive, attempt_capture, got, heap_bypassed, call_of, read_force_heap,
  capture_gate, try_capture, or_next, serve_heap, heap_enter, heap_leave, hooked_rtl_allocate_heap,
  hitch_alloc,
}
use ts3vasmanager.Prelude.{
  ℕ, inl, inr, List, [], arith, ltb, Bool-cases, ◌+◌, ◌≤◌, ◌≡◌, ◌∷◌, ◌==◌, if◌then◌else◌, refl,
  Bool, true, false, not, Option, none, some, add64, ◌-◌, ◌*◌, ◌^◌, ◌<◌, ◌&&◌, subst, sym, leb, ◌∙◌,
}

-- How many of the events are the size of the band, and how many its disposition.
abbrev pub sizes_in : ℕ → List HeapEvent → ℕ
sizes_in b [] = 0
sizes_in b (alloc_size k ∷ es) = (if k == b then 1 else 0) + sizes_in b es
sizes_in b (_ ∷ es) = sizes_in b es

abbrev pub disposed_in : ℕ → List HeapEvent → ℕ
disposed_in b [] = 0
disposed_in b (band_captured k ∷ es) = (if k == b then 1 else 0) + disposed_in b es
disposed_in b (band_missed k ∷ es) = (if k == b then 1 else 0) + disposed_in b es
disposed_in b (band_self k ∷ es) = (if k == b then 1 else 0) + disposed_in b es
disposed_in b (_ ∷ es) = disposed_in b es

-- Every allocation of the band has one disposition.
abbrev pub IsReconciled : ℕ → Heaps → Type 0
IsReconciled b h = disposed_in b h.events ≡ sizes_in b h.events

-- What is still to be disposed of for a call of this size.
abbrev due : ℕ → ℕ → ℕ
due b size = if ltb size heap_capture_threshold then 0 else (if heap_band size == b then 1 else 0)

abbrev IsDue : ℕ → ℕ → Heaps → Type 0
IsDue b size h = disposed_in b h.events + due b size ≡ sizes_in b h.events

-- The two classifiers agree from 64 KB on.
band_agrees : (b size : ℕ) → 2 ≤ b → (if alloc_band size == b then 1 else 0) ≡ due b size
unfolding alloc_band heap_band
band_agrees b size h = ground arith

module _ (b : ℕ) (c : HeapAlloc) where
  recorded-IsDue :
      (h : Heaps) → 2 ≤ b → IsReconciled b h → IsDue b c.size (record_alloc_size c.size h)
  unfolding record_alloc_size count_heap
  recorded-IsDue h big r = omega (arith, r, band_agrees b c.size big)

  disposed :
      (h : Heaps) (prefix : ℕ → HeapEvent)
      → ((k : ℕ) (es : List HeapEvent)
          → disposed_in b (prefix k ∷ es) ≡ (if k == b then 1 else 0) + disposed_in b es)
      → ((k : ℕ) (es : List HeapEvent) → sizes_in b (prefix k ∷ es) ≡ sizes_in b es)
      → IsDue b c.size h
      → IsReconciled b (record_heap_band c.size prefix h)
  unfolding record_heap_band count_heap
  disposed h prefix d s r = elim (Bool-cases (ltb c.size heap_capture_threshold)) [
    | inl below ↦ let z : due b c.size ≡ 0 = rw below refl in rw below (omega (arith, r, z))
    | inr above ↦
        let z : due b c.size ≡ (if heap_band c.size == b then 1 else 0) = rw above refl in
        rw above (omega (arith, r, z, d (heap_band c.size) h.events, s (heap_band c.size) h.events))
  ]

  small-IsReconciled : (h : Heaps) → c.size < 64 * 1024 → IsDue b c.size h → IsReconciled b h
  small-IsReconciled h lt r = let z : due b c.size ≡ 0 = ground arith in omega (arith, r, z)

  activate-IsDue :
      (env : Surroundings) (h : Heaps) → IsDue b c.size h → IsDue b c.size (activate env h)
  unfolding activate
  activate-IsDue env h r = elim (Bool-cases h.switches.proxy_active) [
    | inl on ↦ rw on r
    | inr off ↦ rw off r
  ]

  -- What a stage leaves: a block, with the call disposed of, or the call to the next stage.
  abbrev Passed : Option ℕ × Heaps → Type 0
  Passed (none, h) = IsDue b c.size h
  Passed (some p, h) = IsReconciled b h

  settle_corral-Passed :
      (r : Option ℕ × Manager) (h : Heaps) → IsDue b c.size h → Passed (settle_corral_heap c r h)
  unfolding settle_corral_heap count_heap
  settle_corral-Passed (none, m) h r = r
  settle_corral-Passed (some p, m) h r =
      disposed (record h { manager = m }) band_captured (λ k es. refl) (λ k es. refl) r

  branch :
      (t : Bool) (x y : Option ℕ × Heaps)
      → IsReconciled b x.1
      → IsReconciled b y.1
      → IsReconciled b (if t then x else y).1
  branch true x y p q = p
  branch false x y p q = q

  try_corral-Passed :
      (target : Bool) (h : Heaps) → IsDue b c.size h → Passed (try_corral target c h)
  unfolding try_corral
  try_corral-Passed target h r = elim (Bool-cases (target && ltb 0 c.size)) [
    | inr other ↦ rw other r
    | inl corral ↦ elim (Bool-cases (activate c.surroundings h).switches.proxy_active) [
      | inr off ↦ rw (corral, off) (activate-IsDue c.surroundings h r)
      | inl on ↦ rw (corral, on) (settle_corral-Passed _ _ (activate-IsDue c.surroundings h r))
    ]
  ]

  probe_loss-IsReconciled :
      (p : ℕ) (h : Heaps) → IsReconciled b h → IsReconciled b (probe_loss c p h)
  unfolding probe_loss
  probe_loss-IsReconciled p h r =
      elim (Bool-cases (h.loss_probe && not (proxy_heap_size c.actual p h.shards == 2 ^ 32 - 1))) [
        | inl probed ↦ rw probed r
        | inr plain ↦ rw plain r
      ]

  settle_shard-Passed :
      (r : ShardAlloc × Shards) (h : Heaps)
      → c.size < 64 * 1024
      → IsDue b c.size h
      → Passed (settle_shard c r h)
  unfolding settle_shard count_heap
  settle_shard-Passed (got p, s) h lt r = probe_loss-IsReconciled p _ (small-IsReconciled h lt r)
  settle_shard-Passed (all_full, s) h lt r = r
  settle_shard-Passed (out_of_bounds, s) h lt r = r

  gate_small : (h : Heaps) → sardine_gate c h ≡ true → c.size < 64 * 1024
  unfolding sardine_gate
  gate_small h e = ground arith

  try_shards-Passed : (h : Heaps) → IsDue b c.size h → Passed (try_shards c h)
  unfolding try_shards
  try_shards-Passed h r = elim (Bool-cases (sardine_gate c h)) [
    | inr shut ↦ rw shut r
    | inl gate ↦ rw gate (settle_shard-Passed _ h (gate_small h gate) r)
  ]

  capture_missed-Done :
      (attempted : Bool) (h : Heaps)
      → IsDue b c.size h
      → IsReconciled b (capture_missed c attempted h)
  unfolding capture_missed
  capture_missed-Done attempted h r =
      elim (Bool-cases (attempted && h.manager.last_create_self_skip)) [
        | inl self ↦ rw self (disposed h band_self (λ k es. refl) (λ k es. refl) r)
        | inr missed ↦ rw missed (
            disposed (record h { capture_failed = add64 h.capture_failed 1 }) band_missed
              (λ k es. refl) (λ k es. refl) r)
      ]

  settle_capture-Done :
      (r : Option ℕ × Manager) (h : Heaps)
      → IsDue b c.size h
      → IsReconciled b (settle_capture c r h).1
  unfolding settle_capture capture_done count_heap
  settle_capture-Done (some p, m) h r =
      disposed (record h { manager = m }) band_captured (λ k es. refl) (λ k es. refl) r
  settle_capture-Done (none, m) h r = capture_missed-Done true (record h { manager = m }) r

  attempt_capture-Done : (h : Heaps) → IsDue b c.size h → IsReconciled b (attempt_capture c h).1
  unfolding attempt_capture capture_inactive count_heap
  attempt_capture-Done h r =
      branch h.switches.proxy_active _ _
        (branch (ltb 0 c.size && not (is_audio_module c.module_name)) _ _
          (settle_capture-Done (create_proxy_allocation (call_of c) h.manager) h r)
          (capture_missed-Done false h r))
        (disposed _ band_missed (λ k es. refl) (λ k es. refl) r)

  gate-events : (env : Surroundings) (h : Heaps) → (capture_gate env c.size h).1.events ≡ h.events
  unfolding capture_gate read_force_heap
  gate-events env h = elim (Bool-cases (leb heap_capture_threshold c.size)) [
    | inl large ↦ rw large refl
    | inr small ↦ elim (Bool-cases (leb h.heap_proxy_min c.size)) [
      | inl above ↦ rw (small, above) refl
      | inr below ↦ rw (small, below) refl
    ]
  ]

  gate-small :
      (env : Surroundings) (h : Heaps) → (capture_gate env c.size h).0 ≡ false → c.size < 64 * 1024
  unfolding capture_gate
  gate-small env h e = elim (Bool-cases (leb heap_capture_threshold c.size)) [
    | inl large ↦ let clash : true ≡ false = sym (rw large refl) ∙ e in cc
    | inr small ↦ ground arith
  ]

  try_capture-Done : (h : Heaps) → IsDue b c.size h → IsReconciled b (try_capture c h).1
  unfolding try_capture count_heap
  try_capture-Done h r =
      let same = gate-events c.surroundings h in
      let passed : IsDue b c.size (capture_gate c.surroundings c.size h).1 =
        subst (λ es. disposed_in b es + due b c.size ≡ sizes_in b es) (sym same) r in
      elim (Bool-cases (capture_gate c.surroundings c.size h).0) [
        | inl gate ↦ rw gate (attempt_capture-Done _ (activate-IsDue c.surroundings _ passed))
        | inr shut ↦ rw shut (
            small-IsReconciled (capture_gate c.surroundings c.size h).1
              (gate-small c.surroundings h shut) passed)
      ]

  next-Done : (r : Option ℕ × Heaps) → Passed r → IsReconciled b (or_next (try_capture c) r).1
  unfolding or_next
  next-Done (none, h) p = try_capture-Done h p
  next-Done (some q, h) p = p

  next-Passed : (r : Option ℕ × Heaps) → Passed r → Passed (or_next (try_shards c) r)
  unfolding or_next
  next-Passed (none, h) p = try_shards-Passed h p
  next-Passed (some q, h) p = p

  last-Done :
      (o : Option ℕ) (r : Option ℕ × Heaps)
      → IsReconciled b r.1
      → IsReconciled b (or_next (λ g. (o, g)) r).1
  unfolding or_next
  last-Done o (none, h) p = p
  last-Done o (some q, h) p = p

serve_heap-IsReconciled :
    (b : ℕ) (c : HeapAlloc) (h : Heaps)
    → 2 ≤ b
    → IsReconciled b h
    → IsReconciled b (serve_heap c h).1
unfolding serve_heap count_heap
serve_heap-IsReconciled b c h big r =
    let used = record_heap_use c.heap c.size c.heap_module h.uses in
    let seen = record_alloc_size c.size (record (count_heap hitch_alloc h) { uses = used.1 }) in
    let first = try_corral used.0 c seen in
    last-Done b c c.real (or_next (try_capture c) (or_next (try_shards c) first)) (
      next-Done b c (or_next (try_shards c) first) (
        next-Passed b c first (
          try_corral-Passed b c used.0 seen
            (recorded-IsDue b c (record (count_heap hitch_alloc h) { uses = used.1 }) big r))))

-- In every band of sizes from 64 KB on, the number of the `RtlAllocateHeap` calls that were counted as
-- captured, as missed or as the DLL's own is the number that was counted by size: whatever the call
-- and whatever the manager, the shards and the system answer, the hook keeps this equality.
pub hooked_rtl_allocate_heap-IsReconciled :
    (b : ℕ) (c : HeapAlloc) (h : Heaps)
    → 2 ≤ b
    → IsReconciled b h
    → IsReconciled b (hooked_rtl_allocate_heap c h).1
unfolding hooked_rtl_allocate_heap heap_enter heap_leave
hooked_rtl_allocate_heap-IsReconciled b c h big r =
    elim (Bool-cases (heap_bypassed c.bootstrapping h)) [
      | inl past ↦ rw past r
      | inr through ↦ rw through (serve_heap-IsReconciled b c (heap_enter h) big r)
    ]
