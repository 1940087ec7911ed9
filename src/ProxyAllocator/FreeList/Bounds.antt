-- ===== src/ProxyAllocator/FreeList/Bounds.antt =====
-- Every free block is a whole number of granules inside the arena.
use ts3vasmanager.Prelude.{
  ℕ, suc, List, [], arith, All, add32, ◌+◌, ◌-◌, ◌%◌, ◌^◌, ◌≤◌, ◌<◌, ◌≡◌, ◌∷◌, inl, inr, Bool, true,
  false, some, leb, Bool-cases, Option-cases,
}
use ts3vasmanager.ProxyAllocator.FreeList.Cover.{EndsLow}
use ts3vasmanager.ProxyAllocator.FreeList.Order.{Positive}
use ts3vasmanager.ProxyAllocator.Align.{
  Granule, Granule-bounds, multiple_sub, multiple_add, multiple_small,
}
use ts3vasmanager.ProxyAllocator.FreeList.{
  Block, FreeList, Fit, insert_after, insert_sorted, coalesce_from, coalesce,
  insert_free_sorted_and_coalesce, carve_start, carve_end, take_first, take_last, take_free_fit,
}

-- A slot lies between `base` and `top`, and starts and ends on a granule.
pub record IsSlot (base top gran : ℕ) (b : Block) : Type 0 where
  pub above : base ≤ b.address
  pub below : b.address + b.size ≤ top
  pub whole : b.size % gran ≡ 0
  pub aligned : b.address % gran ≡ 0
  pub positive : 0 < b.size

module _ (base top gran : ℕ) (low : top < 2 ^ 32) (g : Granule gran) where
  abbrev Slot : Block → Type 0
  Slot = IsSlot base top gran

  Slot-insert_after :
      (b : Block) (bs : List Block) → Slot b → All Slot bs → All Slot (insert_after b bs)
  unfolding insert_after
  Slot-insert_after b [] h hs = (h, tt)
  Slot-insert_after b (c ∷ cs) h hs = ground (arith, Slot-insert_after b cs)

  Slot-insert_sorted :
      (b : Block) (bs : List Block) → Slot b → All Slot bs → All Slot (insert_sorted b bs)
  unfolding insert_sorted
  Slot-insert_sorted b [] h hs = (h, tt)
  Slot-insert_sorted b (c ∷ cs) h hs = ground (arith, Slot-insert_after b cs)

  Slot_merge :
      (c n : Block)
      → Slot c
      → Slot n
      → add32 c.address c.size ≡ n.address
      → Slot (record c { size = add32 c.size n.size })
  Slot_merge c n h k e =
      let s : add32 c.size n.size ≡ c.size + n.size = omega (arith, h.below, k.below) in
      record {
        above = h.above;
        below = omega (arith, h.below, k.below);
        whole = rw s (multiple_add g c.size n.size h.whole k.whole);
        aligned = h.aligned;
        positive = rw s (omega (arith, h.positive));
      }

  Slot-coalesce_from :
      (k : ℕ) (c : Block) (rest : List Block)
      → Slot c
      → All Slot rest
      → All Slot (coalesce_from k c rest).blocks
  unfolding coalesce_from
  Slot-coalesce_from k c [] h hs = (h, tt)
  Slot-coalesce_from k c (n ∷ rest) h hs = ground (
    arith,
    Slot_merge c n,
    Slot-coalesce_from k n rest,
    Slot-coalesce_from (suc k) (record c { size = add32 c.size n.size }) rest,
  )

  Slot-coalesce : (k : ℕ) (bs : List Block) → All Slot bs → All Slot (coalesce k bs).blocks
  unfolding coalesce
  Slot-coalesce k [] h = tt
  Slot-coalesce k (b ∷ bs) h = Slot-coalesce_from k b bs h.0 h.1

  pub Slot-insert_free :
      (b : Block) (f : FreeList)
      → Slot b
      → All Slot f.blocks
      → All Slot (insert_free_sorted_and_coalesce b f).1.blocks
  unfolding insert_free_sorted_and_coalesce
  Slot-insert_free b f h hs =
      ground (
        arith,
        Slot-coalesce (f.nodes - 1) (insert_sorted b f.blocks),
        Slot-insert_sorted b f.blocks,
      )

  module _ (need : ℕ) (whole : need % gran ≡ 0) (pos : 0 < need) where
    -- What a fit leaves: a slot of exactly the rounded size, and slots.
    pub record IsCut (r : Fit × List Block) : Type 0 where
      pub exact : r.0.granted.size ≡ need
      pub granted : Slot r.0.granted
      pub rest : All Slot r.1

    IsCut-carve_start :
        (c : Block) (cs : List Block)
        → Slot c
        → All Slot cs
        → need ≤ c.size
        → IsCut (carve_start gran need c cs)
    unfolding carve_start
    IsCut-carve_start c cs h hs fits = ground (
      arith,
      Granule-bounds g,
      multiple_sub g c.size need,
      multiple_add g c.address need,
      multiple_small g (c.size - need),
    )

    IsCut-carve_end :
        (c : Block) (cs : List Block)
        → Slot c
        → All Slot cs
        → need ≤ c.size
        → IsCut (carve_end gran need c cs)
    unfolding carve_end
    IsCut-carve_end c cs h hs fits = ground (
      arith,
      Granule-bounds g,
      multiple_sub g c.size need,
      multiple_add g c.address (c.size - need),
      multiple_small g (c.size - need),
    )

    IsCut-take_first :
        (bs : List Block) (r : Fit × List Block)
        → All Slot bs
        → take_first gran need bs ≡ some r
        → IsCut r
    unfolding take_first
    IsCut-take_first [] r h e = cc
    IsCut-take_first (c ∷ cs) r h e = elim (Bool-cases (leb need c.size)) [
      | inl fits ↦ ground (arith, IsCut-carve_start c cs)
      | inr small ↦ elim (Option-cases (take_first gran need cs)) [
        | inl n ↦ ground arith
        | inr (q, s) ↦ ground (arith, IsCut-take_first cs q)
      ]
    ]

    IsCut-take_last :
        (bs : List Block) (r : Fit × List Block)
        → All Slot bs
        → take_last gran need bs ≡ some r
        → IsCut r
    unfolding take_last
    IsCut-take_last [] r h e = cc
    IsCut-take_last (c ∷ cs) r h e = elim (Option-cases (take_last gran need cs)) [
      | inl n ↦ ground (arith, IsCut-carve_end c cs)
      | inr (q, s) ↦ ground (arith, IsCut-take_last cs q)
    ]

    -- A grant has exactly the rounded size, and both it and what is left are slots of the arena.
    pub IsCut-take_free_fit :
        (from_top : Bool) (bs : List Block) (r : Fit × List Block)
        → All Slot bs
        → take_free_fit gran need from_top bs ≡ some r
        → IsCut r
    unfolding take_free_fit
    IsCut-take_free_fit true bs r h e = IsCut-take_last bs r h e
    IsCut-take_free_fit false bs r h e = IsCut-take_first bs r h e

  pub Slot-EndsLow : (bs : List Block) → All Slot bs → All EndsLow bs
  Slot-EndsLow [] h = tt
  Slot-EndsLow (b ∷ bs) h = (omega (arith, h.0.below), Slot-EndsLow bs h.1)

  pub Slot-Positive : (bs : List Block) → All Slot bs → All Positive bs
  Slot-Positive [] h = tt
  Slot-Positive (b ∷ bs) h = (h.0.positive, Slot-Positive bs h.1)
