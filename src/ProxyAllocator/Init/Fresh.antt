-- ===== src/ProxyAllocator/Init/Fresh.antt =====
-- A fresh arena: the invariant holds from the start, and on from there by every step.
use ts3vasmanager.ProxyAllocator.FreeList.Bounds.{IsSlot}
use ts3vasmanager.ProxyAllocator.Arena.Valid.{IsLedger, IsHeld}
use ts3vasmanager.Prelude.{
  ℕ, inl, inr, some, [], Bool-cases, ◌+◌, ◌%◌, ◌^◌, ◌≤◌, ◌<◌, ◌≡◌, ◌==◌, subst, refl, sym, true,
  Option, none, arith, ==_iff, ◌∷◌,
}
use ts3vasmanager.ProxyAllocator.Init.{
  choose_granularity, new_arena, init_node_pool, adopt, first_block, after_pool, initialize,
  node_pool_bytes,
}
use ts3vasmanager.ProxyAllocator.Align.{align_up, Granule, align_up_bounds}
use ts3vasmanager.ProxyAllocator.FreeList.{Block, insert_free_sorted_and_coalesce}
use ts3vasmanager.ProxyAllocator.Arena.{Arena}

-- What the constructor leaves, as far as the initialisation reads it.
pub record IsNew (a : Arena) : Type 0 where
  pub granule : Granule a.alloc_granularity
  pub unplaced : a.arena_base ≡ 0
  pub pool_less : a.node_pool_mem ≡ 0
  pub no_classes : a.size_classes ≡ []
  pub no_cached : a.class_cached_bytes ≡ 0
  pub unused : a.used_bytes ≡ 0

-- The system reserves whole granules below the end of the 32-bit address space.
pub record IsReservation (gran base size : ℕ) : Type 0 where
  pub placed : 0 < base
  pub aligned : base % gran ≡ 0
  pub not_empty : 0 < size
  pub unwrapped : size + gran ≤ 2 ^ 32
  pub low : base + align_up size gran < 2 ^ 32

-- On 4 KB pages the constructor chooses one of the five granularities, whatever is overridden.
pub Granule-choose_granularity : (k : Option ℕ) → Granule (choose_granularity 4096 k)
unfolding choose_granularity
Granule-choose_granularity none = Granule.kb4
Granule-choose_granularity (some k) = elim (Bool-cases (k == 4)) [
  | inl e ↦ at 4 k e Granule.kb4
  | inr n4 ↦ elim (Bool-cases (k == 8)) [
    | inl e ↦ at 8 k e Granule.kb8
    | inr n8 ↦ elim (Bool-cases (k == 16)) [
      | inl e ↦ at 16 k e Granule.kb16
      | inr n16 ↦ elim (Bool-cases (k == 32)) [
        | inl e ↦ at 32 k e Granule.kb32
        | inr n32 ↦ elim (Bool-cases (k == 64)) [
          | inl e ↦ at 64 k e Granule.kb64
          | inr n64 ↦ rw (n4, n8, n16, n32, n64) Granule.kb4
        ]
      ]
    ]
  ]
]
  where
    at :
        (j i : ℕ)
        → (i == j) ≡ true
        → Granule (choose_granularity 4096 (some j))
        → Granule (choose_granularity 4096 (some i))
    at j i e g = subst (λ m. Granule (choose_granularity 4096 (some m))) (sym ((==_iff i j).0 e)) g

-- The constructor's state is a new arena.
pub new_arena-IsNew : (gran_kb top_down_kb : Option ℕ) → IsNew (new_arena 4096 gran_kb top_down_kb)
unfolding new_arena
new_arena-IsNew gran_kb top_down_kb = record {
  granule = Granule-choose_granularity gran_kb;
  unplaced = refl;
  pool_less = refl;
  no_classes = refl;
  no_cached = refl;
  unused = refl;
}

module _ (base size : ℕ) where
  abbrev pub placed_block : Arena → Block
  placed_block a = record { address = base; size = align_up size a.alloc_granularity }

  slot_placed :
      (a : Arena)
      → Granule a.alloc_granularity
      → IsReservation a.alloc_granularity base size
      → IsSlot base (base + align_up size a.alloc_granularity) a.alloc_granularity (placed_block a)
  slot_placed a g r =
      let (ge, lt, whole) = align_up_bounds g size r.unwrapped in
      record {
        above = omega arith;
        below = omega arith;
        whole = whole;
        aligned = r.aligned;
        positive = omega (arith, r.not_empty);
      }

  -- The state after a successful initialisation, written out.
  abbrev pub started : ℕ → Arena → Arena
  started pool_mem a = record a {
    arena_base = base;
    arena_size = align_up size a.alloc_granularity;
    owns_arena = true;
    node_pool_mem = pool_mem;
    node_pool_size = node_pool_bytes;
    free = record { nodes = 87380; blocks = placed_block a ∷ [] };
  }

  pub initialize-started :
      (pool_mem : ℕ) (a : Arena)
      → a.arena_base ≡ 0
      → a.node_pool_mem ≡ 0
      → 0 < pool_mem
      → 0 < base
      → initialize pool_mem base size a ≡ (true, started pool_mem a)
  unfolding initialize init_node_pool after_pool first_block adopt insert_free_sorted_and_coalesce
  initialize-started pool_mem a unplaced pool_less pos placed = ground arith

  started-IsHeld :
      (pool_mem : ℕ) (a : Arena)
      → IsNew a
      → IsReservation a.alloc_granularity base size
      → IsHeld (started pool_mem a) []
  started-IsHeld pool_mem a n r = record {
    granule = n.granule;
    based = r.placed;
    low = r.low;
    free_slots = (slot_placed a n.granule r, tt);
    gapped = (tt, tt);
    table = rw n.no_classes tt;
    live_slots = tt;
    apart = λ p. rw n.no_classes (ground arith);
    fits = rw n.no_classes (omega arith);
    cached = rw n.no_classes (sym n.no_cached);
  }

  -- `Initialize` on a new arena succeeds when the system gives it the pool and the reservation, and
  -- the whole reservation is then free: one block, and an empty ledger.
  pub initialize-IsLedger :
      (pool_mem : ℕ) (a : Arena)
      → IsNew a
      → 0 < pool_mem
      → IsReservation a.alloc_granularity base size
      → let r = initialize pool_mem base size a in
        (r.0 ≡ true)
        × (r.1.free.blocks ≡ placed_block a ∷ [])
        × (r.1.arena_base ≡ base)
        × IsLedger r.1 []
  initialize-IsLedger pool_mem a n pos r =
      rw (initialize-started pool_mem a n.unplaced n.pool_less pos r.placed)
        (refl, refl, refl, record { holds = started-IsHeld pool_mem a n r; used = sym n.unused })
