-- ===== src/ProxyAllocator/FreeList/Sizes.antt =====
-- Bytes and nodes: what the free list's operations add and take, and when a request fits.
use ts3vasmanager.Prelude.{
  ℕ, suc, refl, inl, inr, Bool, true, false, none, some, List, [], arith, leb, Bool-cases,
  Option-cases, length, All, add32, ◌+◌, ◌-◌, ◌^◌, ◌≤◌, ◌<◌, ◌≡◌, ◌↔◌, ◌∷◌,
}
use ts3vasmanager.ProxyAllocator.FreeList.{
  weigh, Block, FreeList, Fit, insert_after, insert_sorted, coalesce_from, coalesce,
  insert_free_sorted_and_coalesce, carve_start, carve_end, take_first, take_last, take_free_fit,
}

abbrev pub total : List Block → ℕ
total = weigh (λ b. b.size)

total-insert_after : (b : Block) (bs : List Block) → total (insert_after b bs) ≡ b.size + total bs
unfolding insert_after
total-insert_after b [] = refl
total-insert_after b (c ∷ cs) = ground (arith, total-insert_after b cs)

total-insert_sorted : (b : Block) (bs : List Block) → total (insert_sorted b bs) ≡ b.size + total bs
unfolding insert_sorted
total-insert_sorted b [] = refl
total-insert_sorted b (c ∷ cs) = ground (arith, total-insert_after b cs)

length-insert_after : (b : Block) (bs : List Block) → length (insert_after b bs) ≡ 1 + length bs
unfolding insert_after
length-insert_after b [] = refl
length-insert_after b (c ∷ cs) = ground (arith, length-insert_after b cs)

length-insert_sorted : (b : Block) (bs : List Block) → length (insert_sorted b bs) ≡ 1 + length bs
unfolding insert_sorted
length-insert_sorted b [] = refl
length-insert_sorted b (c ∷ cs) = ground (arith, length-insert_after b cs)

-- Merging keeps the bytes, if they fit the word, and gives each merged block's node back.
coalesce_from-sums :
    (k : ℕ) (c : Block) (rest : List Block)
    → c.size + total rest < 2 ^ 32
    → (total (coalesce_from k c rest).blocks ≡ c.size + total rest)
      × ((coalesce_from k c rest).nodes + length (coalesce_from k c rest).blocks
          ≡ k + 1 + length rest)
      × (k ≤ (coalesce_from k c rest).nodes)
unfolding coalesce_from
coalesce_from-sums k c [] h = (refl, omega arith, omega arith)
coalesce_from-sums k c (n ∷ rest) h = ground (
  arith,
  coalesce_from-sums k n rest,
  coalesce_from-sums (suc k) (record c { size = add32 c.size n.size }) rest,
)

coalesce-sums :
    (k : ℕ) (bs : List Block)
    → total bs < 2 ^ 32
    → (total (coalesce k bs).blocks ≡ total bs)
      × ((coalesce k bs).nodes + length (coalesce k bs).blocks ≡ k + length bs)
      × (k ≤ (coalesce k bs).nodes)
unfolding coalesce
coalesce-sums k [] h = (refl, omega arith, omega arith)
coalesce-sums k (b ∷ bs) h = omega (arith, coalesce_from-sums k b bs h)

-- Every node of the pool stands in the pool or in the free list, before and after; the bytes grow
-- by those of the block if a node was at hand, else nothing changes.
pub record Inserts (b : Block) (f g : FreeList) : Type 0 where
  pub nodes : g.nodes + length g.blocks ≡ f.nodes + length f.blocks
  pub kept : f.nodes ≤ g.nodes + 1
  pub bytes : 0 < f.nodes → total g.blocks ≡ b.size + total f.blocks
  pub bytes_le : total g.blocks ≤ b.size + total f.blocks

pub insert_free-Inserts :
    (b : Block) (f : FreeList)
    → b.size + total f.blocks < 2 ^ 32
    → Inserts b f (insert_free_sorted_and_coalesce b f).1
unfolding insert_free_sorted_and_coalesce
insert_free-Inserts b f h = ground (
  arith,
  coalesce-sums (f.nodes - 1) (insert_sorted b f.blocks),
  total-insert_sorted b f.blocks,
  length-insert_sorted b f.blocks,
)

abbrev pub to_nat : Bool → ℕ
to_nat true = 1
to_nat false = 0

module _ (gran need : ℕ) where
  -- A fit takes its bytes out of the list, and the node that it unlinks.
  abbrev Takes : List Block → Fit × List Block → Type 0
  Takes bs r =
      (r.0.granted.size + total r.1 ≡ total bs) × (to_nat r.0.removed + length r.1 ≡ length bs)

  Takes-take_first :
      (bs : List Block) (r : Fit × List Block) → take_first gran need bs ≡ some r → Takes bs r
  unfolding take_first carve_start
  Takes-take_first [] r e = cc
  Takes-take_first (c ∷ cs) r e = elim (Bool-cases (leb need c.size)) [
    | inl fits ↦ ground arith
    | inr small ↦ elim (Option-cases (take_first gran need cs)) [
      | inl n ↦ ground arith
      | inr (q, s) ↦ ground (arith, Takes-take_first cs q)
    ]
  ]

  Takes-take_last :
      (bs : List Block) (r : Fit × List Block) → take_last gran need bs ≡ some r → Takes bs r
  unfolding take_last carve_end
  Takes-take_last [] r e = cc
  Takes-take_last (c ∷ cs) r e = elim (Option-cases (take_last gran need cs)) [
    | inl n ↦ ground arith
    | inr (q, s) ↦ ground (arith, Takes-take_last cs q)
  ]

  pub Takes-take_free_fit :
      (from_top : Bool) (bs : List Block) (r : Fit × List Block)
      → take_free_fit gran need from_top bs ≡ some r
      → Takes bs r
  unfolding take_free_fit
  Takes-take_free_fit true bs r e = Takes-take_last bs r e
  Takes-take_free_fit false bs r e = Takes-take_first bs r e

  abbrev pub TooSmall : Block → Type 0
  TooSmall b = b.size < need

  first-eq-none : (bs : List Block) → (take_first gran need bs ≡ none) ↔ All TooSmall bs
  unfolding take_first
  first-eq-none [] = (λ e. tt, λ h. refl)
  first-eq-none (c ∷ cs) = ground (arith, first-eq-none cs)

  last-eq-none : (bs : List Block) → (take_last gran need bs ≡ none) ↔ All TooSmall bs
  unfolding take_last
  last-eq-none [] = (λ e. tt, λ h. refl)
  last-eq-none (c ∷ cs) = ground (arith, last-eq-none cs)

  -- `TakeFreeFit` fails, from either end, exactly when every free block is too small for the
  -- request.
  pub take_free_fit-eq-none :
      (from_top : Bool) (bs : List Block)
      → (take_free_fit gran need from_top bs ≡ none) ↔ All TooSmall bs
  unfolding take_free_fit
  take_free_fit-eq-none true bs = last-eq-none bs
  take_free_fit-eq-none false bs = first-eq-none bs
