-- ===== src/MemoryManager/Proxy/Managed.antt =====
-- `CreateProxyAllocation` and `FreeProxyAllocation` keep the records and the arena in step.
use ts3vasmanager.ProxyAllocator.Arena.Granularity.{free-granularity, allocate-granularity}
use ts3vasmanager.ProxyAllocator.Arena.Valid.{IsLedger, IsRequest}
use ts3vasmanager.ProxyAllocator.Arena.Ledger.{
  free-IsLedger, here, Allocated, allocate-Allocated, front,
}
use ts3vasmanager.ProxyAllocator.Align.{align_up}
use ts3vasmanager.ProxyAllocator.Arena.{is_proxy_address, Arena, free, prefers_top_down, allocate}
use ts3vasmanager.MemoryManager.Proxy.Records.{
  slots, NotBase, IsManaged, erase-NotBase, head-NotBase, slot_of, find-NotBase, FoundRecord,
  find_record-Found,
}
use ts3vasmanager.MemoryManager.Proxy.{
  Manager, Call, erase_record, set_record, bump, record_alloc_fail, reject, publish, settle_slot,
  fail_exhausted, settle, AllocRecord, find_record, mark_skip, signal_low_vas, redirect,
  create_proxy_allocation, release, free_proxy_allocation, signal_below, record_of,
}
use ts3vasmanager.MemoryManager.Counters.{
  FailReason, non_proxy_slot, misaligned_proxy, eager_commit_fail, proxy_bucket, request,
}
use ts3vasmanager.Prelude.{
  ℕ, bit_and, refl, inl, inr, true, Option, none, some, Bool-cases, ==_iff, ◌-◌, ◌≡◌, ◌∷◌, ◌==◌,
  subst, sym, ap, ◌∙◌, Bool, false, ltb, leb, ◌⊎◌, ◌&&◌,
}

-- What a call of `CreateProxyAllocation` leaves: with the null pointer, the records that were there;
-- with a slot, a record of this call in front of them, under an address of the arena that is a
-- multiple of the page size and that no record had.
abbrev pub Created : Call → Manager → Option ℕ × Manager → Type 0
Created c m (none, m') = IsManaged m' × (m'.allocations ≡ m.allocations)
Created c m (some p, m') =
    IsManaged m'
    × NotBase p m.allocations
    × (is_proxy_address m'.proxy p ≡ true)
    × (bit_and p (m.page_size - 1) ≡ 0)
    × (m'.allocations ≡ record_of c p ∷ m.allocations)

module _ (c : Call) (m : Manager) where
  -- The state in which an allocated slot stands beside the records.
  abbrev Pending : ℕ → Type 0
  Pending p = IsLedger m.proxy (
      record { address = p; size = align_up c.size m.proxy.alloc_granularity }
      ∷ slots m.proxy.alloc_granularity m.allocations)

  reject-Created :
      (reason : FailReason) (p : ℕ) → Pending p → Created c m (none, reject c reason p m)
  unfolding reject bump record_alloc_fail
  reject-Created reason p h = (
    subst (λ g. IsLedger (free p c.size m.proxy) (slots g m.allocations))
        (sym (free-granularity m.proxy p c.size))
        (free-IsLedger m.proxy
          (record { address = p; size = align_up c.size m.proxy.alloc_granularity }) _
          (slots m.proxy.alloc_granularity m.allocations) c.size h here refl),
    refl,
  )

  publish-Created :
      (p : ℕ)
      → Pending p
      → is_proxy_address m.proxy p ≡ true
      → (bit_and p (m.page_size - 1) == 0) ≡ true
      → Created c m (some p, publish c p m)
  unfolding publish set_record
  publish-Created p h proxied aligned =
      let fresh =
        head-NotBase m.proxy.alloc_granularity m.proxy
          (record { address = p; size = align_up c.size m.proxy.alloc_granularity }) m.allocations
          h.holds in
      let same : erase_record p m.allocations ≡ m.allocations =
        erase-NotBase p m.allocations fresh in
      rw same (h, fresh, proxied, (==_iff _ _).0 aligned, refl)

  settle_slot-Created : (p : ℕ) → Pending p → Created c m (settle_slot c p m)
  unfolding settle_slot
  settle_slot-Created p h = elim (Bool-cases (is_proxy_address m.proxy p)) [
    | inr outside ↦ rw outside (reject-Created non_proxy_slot p h)
    | inl inside ↦ elim (Bool-cases (bit_and p (m.page_size - 1) == 0)) [
      | inr odd ↦ rw (inside, odd) (reject-Created misaligned_proxy p h)
      | inl even ↦ elim (Bool-cases c.commits) [
        | inr refused ↦ simp (inside, even, refused) (reject-Created eager_commit_fail p h)
        | inl committed ↦ simp (inside, even, committed) (publish-Created p h inside even)
      ]
    ]
  ]

-- `Created` reads only the records and the page size of the state before.
moved :
    (c : Call) (m n : Manager) (r : Option ℕ × Manager)
    → n.allocations ≡ m.allocations
    → n.page_size ≡ m.page_size
    → Created c n r
    → Created c m r
moved c m n (none, m') same page h = (h.0, h.1 ∙ same)
moved c m n (some p, m') same page h = (
  h.0,
  subst (NotBase p) same h.1,
  h.2,
  subst (λ g. bit_and p (g - 1) ≡ 0) page h.3,
  h.4 ∙ ap (λ rs. record_of c p ∷ rs) same,
)

settle-Created :
    (c : Call) (m n : Manager) (r : Option ℕ × Arena)
    → n.allocations ≡ m.allocations
    → n.page_size ≡ m.page_size
    → r.1.alloc_granularity ≡ m.proxy.alloc_granularity
    → Allocated
        (slots m.proxy.alloc_granularity m.allocations)
        (align_up c.size m.proxy.alloc_granularity)
        r
    → Created c m (settle c n r)
unfolding settle fail_exhausted bump record_alloc_fail
settle-Created c m n (none, a) same page gran h = (
  subst (λ g. IsLedger a (slots g n.allocations)) (sym gran)
      (subst (λ rs. IsLedger a (slots m.proxy.alloc_granularity rs)) (sym same) h),
  same,
)
settle-Created c m n (some p, a) same page gran h =
    let n' : Manager = record n { proxy = a } in
    let pending : Pending c n' p =
      subst
        (λ g. IsLedger a (record { address = p; size = align_up c.size g } ∷ slots g n.allocations))
        (sym gran)
        (subst
          (λ rs. IsLedger a (
            record { address = p; size = align_up c.size m.proxy.alloc_granularity }
            ∷ slots m.proxy.alloc_granularity rs))
          (sym same) h) in
    moved c m n' (settle_slot c p n') same page (settle_slot-Created c n' p pending)

-- The records, the arena and the page size.
abbrev Kept : Manager → Manager → Type 0
Kept m n = (n.proxy ≡ m.proxy) × (n.allocations ≡ m.allocations) × (n.page_size ≡ m.page_size)

signal_below-Kept : (floor : ℕ) (o : Option ℕ) (m : Manager) → Kept m (signal_below floor o m)
unfolding signal_below bump
signal_below-Kept floor none m = (refl, refl, refl)
signal_below-Kept floor (some vas) m = elim (Bool-cases (ltb 0 floor && ltb vas floor)) [
  | inl low ↦ simp low (refl, refl, refl)
  | inr high ↦ simp high (refl, refl, refl)
]

signal_low_vas-Kept : (c : Call) (m : Manager) → Kept m (signal_low_vas c m)
unfolding signal_low_vas
signal_low_vas-Kept c m = signal_below-Kept c.low_vas_floor c.available_vas m

redirect-Created :
    (c : Call) (m : Manager) → IsManaged m → IsRequest m.proxy c.size → Created c m (redirect c m)
unfolding redirect bump
redirect-Created c m h q =
    let n : Manager = bump (request (proxy_bucket c.size)) m in
    let s = signal_low_vas-Kept c n in
    settle-Created c m (signal_low_vas c n)
      (allocate c.size (prefers_top_down m.proxy c.size) m.proxy) s.1 s.2
      (allocate-granularity c.size (prefers_top_down m.proxy c.size) m.proxy)
      (allocate-Allocated c.size (slots m.proxy.alloc_granularity m.allocations)
        (prefers_top_down m.proxy c.size) m.proxy q h)

-- From a state in which the records are exactly the live slots of the arena, a call of
-- `CreateProxyAllocation` with a size that is not zero and does not wrap when it is rounded leaves
-- such a state on every branch: with the null pointer (the caller is the DLL itself, the size is
-- over the cap, the arena is exhausted, or the slot is outside the arena, misaligned or not
-- committed, and then goes back) the records are those before; with a slot, it is a page-aligned
-- address of the arena that no record had, and its record is added.
pub create_proxy_allocation-Created :
    (c : Call) (m : Manager)
    → IsManaged m
    → IsRequest m.proxy c.size
    → Created c m (create_proxy_allocation c m)
unfolding create_proxy_allocation mark_skip bump
create_proxy_allocation-Created c m h q = elim (Bool-cases c.caller_is_self) [
  | inl self ↦ simp self (h, refl)
  | inr other ↦ elim (Bool-cases (ltb 0 m.proxy_max_bytes && leb m.proxy_max_bytes c.size)) [
    | inl big ↦ simp (other, big) (h, refl)
    | inr small ↦
        simp (other, small)
          (moved c m (mark_skip c false m) (redirect c (mark_skip c false m)) refl refl
            (redirect-Created c (mark_skip c false m) h q))
  ]
]

-- What a call of `FreeProxyAllocation` leaves.
abbrev pub Freed : ℕ → Manager → Bool × Manager → Type 0
Freed p m (false, m') =
    (m' ≡ m) × ((is_proxy_address m.proxy p ≡ false) ⊎ (find_record p m.allocations ≡ none))
Freed p m (true, m') =
    IsManaged m'
    × (m'.allocations ≡ erase_record p m.allocations)
    × (find_record p m'.allocations ≡ none)

release-Freed :
    (p : ℕ) (m : Manager) (o : Option AllocRecord)
    → IsManaged m
    → find_record p m.allocations ≡ o
    → FoundRecord m.proxy.alloc_granularity p m.allocations o
    → Freed p m (release p m o)
unfolding release
release-Freed p m none h e f = (refl, inr e)
release-Freed p m (some r) h e f =
    let g = m.proxy.alloc_granularity in
    let gone : NotBase p (erase_record p m.allocations) =
      subst (λ x. NotBase x (erase_record p m.allocations)) f.0
        (head-NotBase g m.proxy (slot_of g r) (erase_record p m.allocations) (front f.1 h.holds)) in
    (
      subst (λ x. IsLedger (free p r.proxy_size m.proxy) (slots x (erase_record p m.allocations)))
          (sym (free-granularity m.proxy p r.proxy_size))
          (subst
            (λ x. IsLedger (free x r.proxy_size m.proxy) (slots g (erase_record p m.allocations)))
            f.0
            (free-IsLedger m.proxy (slot_of g r) (slots g m.allocations)
              (slots g (erase_record p m.allocations)) r.proxy_size h f.1 refl)),
      refl,
      find-NotBase p (erase_record p m.allocations) gone,
    )

-- From a state in which the records are exactly the live slots of the arena,
-- `FreeProxyAllocation(p)` either returns false, changes nothing, and p is outside the arena or has
-- no record; or it returns true, the slot leaves the arena's ledger with its record, and p has no
-- record afterwards, so that a second free of p finds nothing.
pub free_proxy_allocation-Freed :
    (p : ℕ) (m : Manager) → IsManaged m → Freed p m (free_proxy_allocation p m)
unfolding free_proxy_allocation
free_proxy_allocation-Freed p m h = elim (Bool-cases (is_proxy_address m.proxy p)) [
  | inr outside ↦ rw outside (refl, inl outside)
  | inl inside ↦ rw inside (
      release-Freed p m (find_record p m.allocations) h refl
        (find_record-Found m.proxy.alloc_granularity p m.allocations))
]
