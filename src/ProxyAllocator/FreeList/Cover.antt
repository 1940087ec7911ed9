-- ===== src/ProxyAllocator/FreeList/Cover.antt =====
-- Which addresses a list of blocks covers, and how the free list's operations move them.
use ts3vasmanager.Prelude.{
  ℕ, suc, ◌+◌, ◌<◌, ◌^◌, ◌≡◌, refl, List, [], ◌∷◌, arith, ltb, leb, ◌&&◌, if◌then◌else◌, All, add32,
  ◌≤◌, Bool, some, Bool-cases, Option-cases, inl, inr, true, false, ◌-◌,
}
use ts3vasmanager.ProxyAllocator.FreeList.{
  weigh, Block, insert_after, insert_sorted, coalesce_from, coalesce,
  insert_free_sorted_and_coalesce, carve_start, carve_end, take_first, take_last, take_free_fit,
  FreeList, Fit,
}

-- 1 where the block holds the address, else 0.
abbrev pub in_block : ℕ → Block → ℕ
in_block p b = if leb b.address p && ltb p (b.address + b.size) then 1 else 0

-- How many blocks of the list hold the address.
abbrev pub cover : ℕ → List Block → ℕ
cover p = weigh (in_block p)

-- No block reaches the end of the 32-bit address space.
abbrev pub EndsLow : Block → Type 0
EndsLow b = b.address + b.size < 2 ^ 32

module _ (p : ℕ) where
  cover-insert_after :
      (b : Block) (bs : List Block) → cover p (insert_after b bs) ≡ in_block p b + cover p bs
  unfolding insert_after
  cover-insert_after b [] = refl
  cover-insert_after b (c ∷ cs) = ground (arith, cover-insert_after b cs)

  cover-insert_sorted :
      (b : Block) (bs : List Block) → cover p (insert_sorted b bs) ≡ in_block p b + cover p bs
  unfolding insert_sorted
  cover-insert_sorted b [] = refl
  cover-insert_sorted b (c ∷ cs) = ground (arith, cover-insert_after b cs)

  cover-coalesce_from :
      (k : ℕ) (cur : Block) (rest : List Block)
      → EndsLow cur
      → All EndsLow rest
      → cover p (coalesce_from k cur rest).blocks ≡ in_block p cur + cover p rest
  unfolding coalesce_from
  cover-coalesce_from k cur [] h hs = refl
  cover-coalesce_from k cur (n ∷ rest) h hs = ground (
    arith,
    cover-coalesce_from k n rest,
    cover-coalesce_from (suc k) (record cur { size = add32 cur.size n.size }) rest,
  )

  cover-coalesce :
      (k : ℕ) (bs : List Block) → All EndsLow bs → cover p (coalesce k bs).blocks ≡ cover p bs
  unfolding coalesce
  cover-coalesce k [] h = refl
  cover-coalesce k (b ∷ bs) h = cover-coalesce_from k b bs h.0 h.1

  All-insert_after :
      (b : Block) (bs : List Block) → EndsLow b → All EndsLow bs → All EndsLow (insert_after b bs)
  unfolding insert_after
  All-insert_after b [] h hs = (h, tt)
  All-insert_after b (c ∷ cs) h hs = ground (arith, All-insert_after b cs)

  All-insert_sorted :
      (b : Block) (bs : List Block) → EndsLow b → All EndsLow bs → All EndsLow (insert_sorted b bs)
  unfolding insert_sorted
  All-insert_sorted b [] h hs = (h, tt)
  All-insert_sorted b (c ∷ cs) h hs = ground (arith, All-insert_after b cs)

  -- With a node at hand an inserted block adds just its own addresses.
  pub cover-insert_free :
      (b : Block) (f : FreeList)
      → EndsLow b
      → All EndsLow f.blocks
      → 0 < f.nodes
      → cover p (insert_free_sorted_and_coalesce b f).1.blocks ≡ in_block p b + cover p f.blocks
  unfolding insert_free_sorted_and_coalesce
  cover-insert_free b f h hs pos = ground (
    arith,
    cover-coalesce (f.nodes - 1) (insert_sorted b f.blocks),
    All-insert_sorted b f.blocks,
    cover-insert_sorted b f.blocks,
  )

  pub cover-insert_free-le :
      (b : Block) (f : FreeList)
      → EndsLow b
      → All EndsLow f.blocks
      → cover p (insert_free_sorted_and_coalesce b f).1.blocks ≤ in_block p b + cover p f.blocks
  unfolding insert_free_sorted_and_coalesce
  cover-insert_free-le b f h hs = ground (
    arith,
    cover-coalesce (f.nodes - 1) (insert_sorted b f.blocks),
    All-insert_sorted b f.blocks,
    cover-insert_sorted b f.blocks,
  )

  module _ (gran need : ℕ) where
    cover-carve_start :
        (c : Block) (cs : List Block)
        → EndsLow c
        → need ≤ c.size
        → in_block p (carve_start gran need c cs).0.granted + cover p (carve_start gran need c cs).1
          ≡ in_block p c + cover p cs
    unfolding carve_start
    cover-carve_start c cs h fits = ground arith

    cover-carve_end :
        (c : Block) (cs : List Block)
        → EndsLow c
        → need ≤ c.size
        → in_block p (carve_end gran need c cs).0.granted + cover p (carve_end gran need c cs).1
          ≡ in_block p c + cover p cs
    unfolding carve_end
    cover-carve_end c cs h fits = ground arith

    cover-take_first :
        (bs : List Block) (r : Fit × List Block)
        → All EndsLow bs
        → take_first gran need bs ≡ some r
        → in_block p r.0.granted + cover p r.1 ≡ cover p bs
    unfolding take_first
    cover-take_first [] r h e = cc
    cover-take_first (c ∷ cs) r h e = elim (Bool-cases (leb need c.size)) [
      | inl fits ↦ ground (arith, cover-carve_start c cs)
      | inr small ↦ elim (Option-cases (take_first gran need cs)) [
        | inl n ↦ ground arith
        | inr (q, s) ↦ ground (arith, cover-take_first cs q)
      ]
    ]

    cover-take_last :
        (bs : List Block) (r : Fit × List Block)
        → All EndsLow bs
        → take_last gran need bs ≡ some r
        → in_block p r.0.granted + cover p r.1 ≡ cover p bs
    unfolding take_last
    cover-take_last [] r h e = cc
    cover-take_last (c ∷ cs) r h e = elim (Option-cases (take_last gran need cs)) [
      | inl n ↦ ground (arith, cover-carve_end c cs)
      | inr (q, s) ↦ ground (arith, cover-take_last cs q)
    ]

    -- When `TakeFreeFit` succeeds, from either end, on a list of blocks that end below 4 GB, every
    -- address is in as many of the granted block and the blocks that are left as it was in the
    -- blocks before.
    pub cover-take_free_fit :
        (from_top : Bool) (bs : List Block) (r : Fit × List Block)
        → All EndsLow bs
        → take_free_fit gran need from_top bs ≡ some r
        → in_block p r.0.granted + cover p r.1 ≡ cover p bs
    unfolding take_free_fit
    cover-take_free_fit true bs r h e = cover-take_last bs r h e
    cover-take_free_fit false bs r h e = cover-take_first bs r h e
