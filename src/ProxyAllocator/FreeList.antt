-- ===== src/ProxyAllocator/FreeList.antt =====
-- ProxyAllocator.cpp: the address-ordered free list and its pool of nodes. `nodes` is the length
-- of `m_nodeFreeList`; a `Block` that stands in a list owns one node of the pool.
pub mod Cover
pub mod Bounds
pub mod Sizes
pub mod Order
use ts3vasmanager.Prelude.{
  ℕ, zero, suc, ◌+◌, ◌-◌, Bool, true, false, Option, none, some, List, [], ◌∷◌, ltb, leb, ◌==◌,
  if◌then◌else◌, add32, sub32,
}
use mathlib.Core.Option

pub record Block : Type 0 where
  pub address : ℕ
  pub size : ℕ

pub record FreeList : Type 0 where
  pub nodes : ℕ
  pub blocks : List Block

-- The sum of a weight over the blocks of a list.
abbrev pub weigh : (Block → ℕ) → List Block → ℕ
weigh w [] = 0
weigh w (b ∷ bs) = w b + weigh w bs

-- The loop that follows `next` pointers while they are below the new address.
unfoldable pub insert_after : Block → List Block → List Block
insert_after n [] = n ∷ []
insert_after n (c ∷ cs) = if ltb c.address n.address then c ∷ insert_after n cs else n ∷ c ∷ cs

unfoldable pub insert_sorted : Block → List Block → List Block
unfolding insert_after
insert_sorted n [] = n ∷ []
insert_sorted n (c ∷ cs) = if ltb n.address c.address then n ∷ c ∷ cs else c ∷ insert_after n cs

-- The merging walk. `cur` is the node it stands on; a merged neighbour's node goes back to the pool.
unfoldable pub coalesce_from : ℕ → Block → List Block → FreeList
coalesce_from k cur [] = record { nodes = k; blocks = cur ∷ [] }
coalesce_from k cur (nxt ∷ rest) = elim (add32 cur.address cur.size == nxt.address) [
  | true ↦ coalesce_from (suc k) (record cur { size = add32 cur.size nxt.size }) rest
  | false ↦ let tail = coalesce_from k nxt rest in record tail { blocks = cur ∷ tail.blocks }
]

unfoldable pub coalesce : ℕ → List Block → FreeList
unfolding coalesce_from
coalesce k [] = record { nodes = k; blocks = [] }
coalesce k (cur ∷ rest) = coalesce_from k cur rest

-- `InsertFreeSortedAndCoalesce`; without a node nothing is inserted.
unfoldable pub insert_free_sorted_and_coalesce : Block → FreeList → Bool × FreeList
unfolding insert_sorted coalesce
insert_free_sorted_and_coalesce b f = elim f.nodes [
  | zero ↦ (false, f)
  | suc k ↦ (true, coalesce k (insert_sorted b f.blocks))
]

-- What `TakeFreeFit` hands out: `grantedAddr`, `grantedSize`, and whether it unlinked a node, which
-- its caller gives back to the pool.
pub record Fit : Type 0 where
  pub granted : Block
  pub removed : Bool

-- A block that fits is carved at its start (bottom-up) or at its end (top-down); a remainder below
-- the granularity is granted with it.
unfoldable pub carve_start : ℕ → ℕ → Block → List Block → Fit × List Block
carve_start gran need cur rest =
    let remain = cur.size - need in
    if leb gran remain
    then (
      record { granted = record { address = cur.address; size = need }; removed = false },
      record { address = add32 cur.address need; size = remain } ∷ rest,
    )
    else (record { granted = cur; removed = true }, rest)

unfoldable pub carve_end : ℕ → ℕ → Block → List Block → Fit × List Block
carve_end gran need best rest =
    let remain = best.size - need in
    if leb gran remain
    then (
      record {
        granted = record { address = add32 best.address remain; size = need };
        removed = false;
      },
      record best { size = remain } ∷ rest,
    )
    else (record { granted = best; removed = true }, rest)

abbrev pub skip {ℓ} : {A : Type ℓ} → Block → A × List Block → A × List Block
skip c r = (r.0, c ∷ r.1)

-- First fit from the lowest address.
unfoldable pub take_first : ℕ → ℕ → List Block → Option (Fit × List Block)
unfolding carve_start
take_first gran need [] = none
take_first gran need (cur ∷ rest) =
    if leb need cur.size
    then some (carve_start gran need cur rest)
    else Option.map (skip cur) (take_first gran need rest)

-- Last fit: the block of highest address among those that fit.
unfoldable pub take_last : ℕ → ℕ → List Block → Option (Fit × List Block)
unfolding carve_end
take_last gran need [] = none
take_last gran need (cur ∷ rest) = elim (take_last gran need rest) [
  | some r ↦ some (skip cur r)
  | none ↦ if leb need cur.size then some (carve_end gran need cur rest) else none
]

unfoldable pub take_free_fit : ℕ → ℕ → Bool → List Block → Option (Fit × List Block)
unfolding take_first take_last
take_free_fit gran need from_top blocks =
    if from_top then take_last gran need blocks else take_first gran need blocks
