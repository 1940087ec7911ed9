-- ===== src/ProxyAllocator/Arena/Reuse.antt =====
-- A freed slot that its size class takes is the next one handed out for that size.
use ts3vasmanager.ProxyAllocator.Arena.Valid.{IsLedger, IsHeld}
use ts3vasmanager.ProxyAllocator.Arena.Ledger.{Picked, front, is_proxy-slot}
use ts3vasmanager.ProxyAllocator.Align.{align_up}
use mathlib.Core.Option
use ts3vasmanager.Prelude.{
  ℕ, zero, suc, inl, inr, true, some, List, [], arith, leb, Bool-cases, ◌≡◌, ◌∷◌, ◌==◌, refl, ap,
  Bool, false, length, ◌+◌, ◌-◌, ◌∙◌, ◌++◌, if◌then◌else◌,
}
use ts3vasmanager.ProxyAllocator.SizeClasses.{
  SizeClass, max_cached_per_class, pop_size_class, Push, push_into, max_size_classes, keep,
  has_class, push_at, new_class, push_size_class,
}
use ts3vasmanager.ProxyAllocator.FreeList.{Block}
use ts3vasmanager.ProxyAllocator.Arena.{Arena, allocate, give_back, cache_block, keep_freed, free}

-- A successful push into a table is popped again.
abbrev Pops : Block → Push → Type 0
Pops b r =
    r.pushed ≡ true → (cs : List SizeClass) × (pop_size_class b.size r.classes ≡ some (b, cs))

Pops-push_into :
    (b : Block) (nodes : ℕ) (c : SizeClass) (cs : List SizeClass)
    → (c.class_size == b.size) ≡ true
    → Pops b (push_into b nodes c cs)
unfolding push_into pop_size_class
Pops-push_into b zero c cs same p = ground arith
Pops-push_into b (suc k) c cs same p = elim (Bool-cases (leb max_cached_per_class c.count)) [
  | inl full ↦ ground arith
  | inr room ↦ (record c { count = c.count + 1 - 1 } ∷ cs, rw (room, same) refl)
]

pop_skip :
    (size : ℕ) (c : SizeClass) (cs : List SizeClass)
    → (c.class_size == size) ≡ false
    → pop_size_class size (c ∷ cs) ≡ Option.map (keep c) (pop_size_class size cs)
unfolding pop_size_class
pop_skip size c cs other = go c.head
  where
    go :
        (h : List Block)
        → (elim h [
          | [] ↦ Option.map (keep c) (pop_size_class size cs)
          | b ∷ bs ↦
              if c.class_size == size
              then some (b, record c { head = bs; count = c.count - 1 } ∷ cs)
              else Option.map (keep c) (pop_size_class size cs)
        ])
          ≡ Option.map (keep c) (pop_size_class size cs)
    go [] = refl
    go (b ∷ bs) = rw other refl

Pops-push_at : (b : Block) (nodes : ℕ) (cs : List SizeClass) → Pops b (push_at b nodes cs)
unfolding push_at
Pops-push_at b nodes [] p = cc
Pops-push_at b nodes (c ∷ cs) p = elim (Bool-cases (c.class_size == b.size)) [
  | inl same ↦ simp same (Pops-push_into b nodes c cs same (ground arith))
  | inr other ↦
      let (rest, e) = Pops-push_at b nodes cs (ground arith) in
      (c ∷ rest, simp other (pop_skip b.size c _ other ∙ ap (Option.map (keep c)) e))
]

Pops-push_size_class :
    (b : Block) (nodes : ℕ) (cs : List SizeClass) → Pops b (push_size_class b nodes cs)
unfolding push_size_class
Pops-push_size_class b nodes cs p = elim (Bool-cases (has_class b.size cs)) [
  | inl known ↦ simp known (Pops-push_at b nodes cs (ground arith))
  | inr fresh ↦ elim (Bool-cases (leb max_size_classes (length cs))) [
    | inl full ↦ ground arith
    | inr room ↦
        simp (fresh, room) (Pops-push_at b nodes (cs ++ new_class b.size ∷ []) (ground arith))
  ]
]

pub allocate-hit :
    (size : ℕ) (from_top : Bool) (c : Arena) (r : Block × List SizeClass)
    → (c.arena_base == 0) ≡ false
    → pop_size_class (align_up size c.alloc_granularity) c.size_classes ≡ some r
    → (allocate size from_top c).0 ≡ some r.0.address
unfolding allocate
allocate-hit size from_top c r based hit = rw (based, hit, allocate) refl

keep_freed-cached :
    (a : Arena) (b : Block)
    → (push_size_class b a.free.nodes a.size_classes).pushed ≡ true
    → keep_freed b a ≡ cache_block (push_size_class b a.free.nodes a.size_classes) b.size a
unfolding keep_freed
keep_freed-cached a b p = simp p refl

free-cached :
    (a : Arena) (b : Block) (live : List Block) (size : ℕ)
    → IsHeld a (b ∷ live)
    → align_up size a.alloc_granularity ≡ b.size
    → (push_size_class b a.free.nodes a.size_classes).pushed ≡ true
    → free b.address size a
      ≡ give_back size b.size (cache_block (push_size_class b a.free.nodes a.size_classes) b.size a)
unfolding free
free-cached a b live size h e p =
    let (proxied, nonnull) = is_proxy-slot b h h.live_slots.0 in
    rw (nonnull, proxied, e) (ap (give_back size b.size) (keep_freed-cached a b p))

-- From an arena that keeps its ledger, a live slot that `Free` could cache is returned by the next
-- `Allocate` of any request that rounds to the same size, from either end.
pub allocate-free :
    (a : Arena) (b : Block) (live rest : List Block) (size size' : ℕ) (from_top : Bool)
    → IsLedger a live
    → Picked b live rest
    → align_up size a.alloc_granularity ≡ b.size
    → align_up size' a.alloc_granularity ≡ b.size
    → (push_size_class b a.free.nodes a.size_classes).pushed ≡ true
    → (allocate size' from_top (free b.address size a)).0 ≡ some b.address
unfolding give_back cache_block
allocate-free a b live rest size size' from_top l k e e' p =
    let h = front k l.holds in
    let (cs, popped) = Pops-push_size_class b a.free.nodes a.size_classes p in
    rw (free-cached a b rest size h e p)
      (allocate-hit size' from_top _ (b, cs) (ground (arith, h.based)) (rw e' popped))
