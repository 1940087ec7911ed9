-- ===== src/ProxyAllocator/FreeList/Order.antt =====
-- The free list stays in address order with a gap between any two neighbours: fully coalesced.
use ts3vasmanager.Prelude.{
  ℕ, suc, refl, List, [], arith, All, add32, ◌+◌, ◌-◌, ◌≤◌, ◌<◌, ◌≡◌, ◌⊎◌, ◌∷◌, some, inl, inr,
  Bool, true, false, leb, Bool-cases, Option-cases, leb→le, subst,
}
use ts3vasmanager.ProxyAllocator.FreeList.{
  Block, FreeList, Fit, insert_after, insert_sorted, coalesce_from, coalesce,
  insert_free_sorted_and_coalesce, carve_start, carve_end, take_first, take_last, take_free_fit,
  skip,
}
use ts3vasmanager.ProxyAllocator.FreeList.Cover.{EndsLow, in_block, cover}

abbrev pub end : Block → ℕ
end b = b.address + b.size

abbrev pub Positive : Block → Type 0
Positive b = 0 < b.size

abbrev pub Apart : Block → Block → Type 0
Apart b c = (end b ≤ c.address) ⊎ (end c ≤ b.address)

-- In address order from `lo`, with no overlap.
abbrev Ordered : ℕ → List Block → Type 0
Ordered lo [] = Unit
Ordered lo (c ∷ cs) = (lo ≤ c.address) × Ordered (end c) cs

abbrev pub GapAfter : ℕ → List Block → Type 0
GapAfter e [] = Unit
GapAfter e (c ∷ cs) = e < c.address

-- In address order, and no two neighbours touch.
abbrev pub IsGapped : List Block → Type 0
IsGapped [] = Unit
IsGapped (c ∷ cs) = GapAfter (end c) cs × IsGapped cs

abbrev StartsAt : ℕ → List Block → Type 0
StartsAt a [] = ⊥
StartsAt a (c ∷ cs) = c.address ≡ a

Ordered-mono : (lo lo' : ℕ) (bs : List Block) → lo' ≤ lo → Ordered lo bs → Ordered lo' bs
Ordered-mono lo lo' [] h o = tt
Ordered-mono lo lo' (c ∷ cs) h o = (omega arith, o.1)

gapped-Ordered : (c : Block) (cs : List Block) → IsGapped (c ∷ cs) → Ordered (end c) cs
gapped-Ordered c [] g = tt
gapped-Ordered c (d ∷ ds) g = (omega (arith, g.0), gapped-Ordered d ds g.1)

GapAfter-start : (e a : ℕ) (bs : List Block) → e < a → StartsAt a bs → GapAfter e bs
GapAfter-start e a [] h s = tt
GapAfter-start e a (c ∷ cs) h s = omega arith

module _ (b : Block) (pos : Positive b) where
  Ordered-insert_after :
      (lo : ℕ) (bs : List Block)
      → lo ≤ b.address
      → Ordered lo bs
      → All Positive bs
      → All (Apart b) bs
      → Ordered lo (insert_after b bs)
  unfolding insert_after
  Ordered-insert_after lo [] h o ps qs = (h, tt)
  Ordered-insert_after lo (c ∷ cs) h o ps qs = ground (arith, Ordered-insert_after (end c) cs)

  Ordered-insert_sorted :
      (bs : List Block)
      → Ordered 0 bs
      → All Positive bs
      → All (Apart b) bs
      → Ordered 0 (insert_sorted b bs)
  unfolding insert_sorted
  Ordered-insert_sorted [] o ps qs = (omega arith, tt)
  Ordered-insert_sorted (c ∷ cs) o ps qs = ground (arith, Ordered-insert_after (end c) cs)

IsGapped-coalesce_from :
    (k : ℕ) (c : Block) (rest : List Block)
    → EndsLow c
    → All EndsLow rest
    → Ordered (end c) rest
    → IsGapped (coalesce_from k c rest).blocks × StartsAt c.address (coalesce_from k c rest).blocks
unfolding coalesce_from
IsGapped-coalesce_from k c [] l ls o = ((tt, tt), refl)
IsGapped-coalesce_from k c (n ∷ rest) l ls o = ground (
  arith,
  IsGapped-coalesce_from k n rest,
  IsGapped-coalesce_from (suc k) (record c { size = add32 c.size n.size }) rest,
  GapAfter-start (end c) n.address (coalesce_from k n rest).blocks,
)

IsGapped-coalesce :
    (k : ℕ) (bs : List Block) → All EndsLow bs → Ordered 0 bs → IsGapped (coalesce k bs).blocks
unfolding coalesce
IsGapped-coalesce k [] l o = tt
IsGapped-coalesce k (b ∷ bs) l o = (IsGapped-coalesce_from k b bs l.0 l.1 o.1).0

low-insert_after :
    (b : Block) (bs : List Block) → EndsLow b → All EndsLow bs → All EndsLow (insert_after b bs)
unfolding insert_after
low-insert_after b [] h hs = (h, tt)
low-insert_after b (c ∷ cs) h hs = ground (arith, low-insert_after b cs)

low-insert_sorted :
    (b : Block) (bs : List Block) → EndsLow b → All EndsLow bs → All EndsLow (insert_sorted b bs)
unfolding insert_sorted
low-insert_sorted b [] h hs = (h, tt)
low-insert_sorted b (c ∷ cs) h hs = ground (arith, low-insert_after b cs)

gapped-Ordered_zero : (bs : List Block) → IsGapped bs → Ordered 0 bs
gapped-Ordered_zero [] g = tt
gapped-Ordered_zero (c ∷ cs) g = (omega arith, gapped-Ordered c cs g)

-- Inserting a block that is not empty, ends below 4 GB and overlaps none of the blocks of a
-- coalesced list of such blocks leaves a coalesced list, whether or not the pool has a node.
pub IsGapped-insert_free :
    (b : Block) (f : FreeList)
    → Positive b
    → EndsLow b
    → All EndsLow f.blocks
    → All Positive f.blocks
    → All (Apart b) f.blocks
    → IsGapped f.blocks
    → IsGapped (insert_free_sorted_and_coalesce b f).1.blocks
unfolding insert_free_sorted_and_coalesce
IsGapped-insert_free b f pos l ls ps qs g = ground (
  arith,
  IsGapped-coalesce (f.nodes - 1) (insert_sorted b f.blocks),
  low-insert_sorted b f.blocks,
  Ordered-insert_sorted b pos f.blocks,
  gapped-Ordered_zero f.blocks,
)

GapAfter-mono : (lo hi : ℕ) (bs : List Block) → lo ≤ hi → GapAfter hi bs → GapAfter lo bs
GapAfter-mono lo hi [] h g = tt
GapAfter-mono lo hi (c ∷ cs) h g = omega arith

module _ (gran need : ℕ) where
  abbrev Keeps : List Block → Fit × List Block → Type 0
  Keeps bs r = ((lo : ℕ) → GapAfter lo bs → GapAfter lo r.1) × IsGapped r.1

  gapped-carve_start :
      (c : Block) (cs : List Block)
      → EndsLow c
      → need ≤ c.size
      → IsGapped (c ∷ cs)
      → Keeps (c ∷ cs) (carve_start gran need c cs)
  unfolding carve_start
  gapped-carve_start c cs l fits g =
      (λ lo h. ground (arith, GapAfter-mono lo (end c) cs), ground arith)

  gapped-carve_end :
      (c : Block) (cs : List Block)
      → EndsLow c
      → need ≤ c.size
      → IsGapped (c ∷ cs)
      → Keeps (c ∷ cs) (carve_end gran need c cs)
  unfolding carve_end
  gapped-carve_end c cs l fits g = (
    λ lo h. ground (arith, GapAfter-mono lo (end c) cs),
    ground (arith, GapAfter-mono (c.address + (c.size - need)) (end c) cs),
  )

  skip-Keeps :
      (c : Block) (cs : List Block) (q : Fit × List Block)
      → IsGapped (c ∷ cs)
      → Keeps cs q
      → Keeps (c ∷ cs) (skip c q)
  skip-Keeps c cs q g k = (λ lo h. h, (k.0 (end c) g.0, k.1))

  gapped-take_first :
      (bs : List Block) (r : Fit × List Block)
      → All EndsLow bs
      → take_first gran need bs ≡ some r
      → IsGapped bs
      → Keeps bs r
  unfolding take_first
  gapped-take_first [] r l e g = cc
  gapped-take_first (c ∷ cs) r l e g = elim (Bool-cases (leb need c.size)) [
    | inl fits ↦
        let same : carve_start gran need c cs ≡ r = ground arith in
        subst (Keeps (c ∷ cs)) same (gapped-carve_start c cs l.0 (leb→le _ _ fits) g)
    | inr small ↦ elim (Option-cases (take_first gran need cs)) [
      | inl n ↦ ground arith
      | inr (q, s) ↦
          let k = gapped-take_first cs q l.1 s g.1 in
          let same : skip c q ≡ r = ground arith in
          subst (Keeps (c ∷ cs)) same (skip-Keeps c cs q g k)
    ]
  ]

  gapped-take_last :
      (bs : List Block) (r : Fit × List Block)
      → All EndsLow bs
      → take_last gran need bs ≡ some r
      → IsGapped bs
      → Keeps bs r
  unfolding take_last
  gapped-take_last [] r l e g = cc
  gapped-take_last (c ∷ cs) r l e g = elim (Option-cases (take_last gran need cs)) [
    | inl n ↦ elim (Bool-cases (leb need c.size)) [
      | inl fits ↦
          let same : carve_end gran need c cs ≡ r = ground arith in
          subst (Keeps (c ∷ cs)) same (gapped-carve_end c cs l.0 (leb→le _ _ fits) g)
      | inr small ↦ ground arith
    ]
    | inr (q, s) ↦
        let k = gapped-take_last cs q l.1 s g.1 in
        let same : skip c q ≡ r = ground arith in
        subst (Keeps (c ∷ cs)) same (skip-Keeps c cs q g k)
  ]

  -- Cutting a grant out of a coalesced list leaves a coalesced list.
  pub IsGapped-take_free_fit :
      (from_top : Bool) (bs : List Block) (r : Fit × List Block)
      → All EndsLow bs
      → take_free_fit gran need from_top bs ≡ some r
      → IsGapped bs
      → IsGapped r.1
  unfolding take_free_fit
  IsGapped-take_free_fit true bs r l e g = (gapped-take_last bs r l e g).1
  IsGapped-take_free_fit false bs r l e g = (gapped-take_first bs r l e g).1

-- Blocks that share no address stand apart.
pub Apart-of_cover :
    (b c : Block)
    → Positive b
    → Positive c
    → ((p : ℕ) → in_block p b + in_block p c ≤ 1)
    → Apart b c
Apart-of_cover b c hb hc h = ground (arith, h b.address, h c.address)

pub all-Apart_of_cover :
    (b : Block) (bs : List Block)
    → Positive b
    → All Positive bs
    → ((p : ℕ) → in_block p b + cover p bs ≤ 1)
    → All (Apart b) bs
all-Apart_of_cover b [] hb hs h = tt
all-Apart_of_cover b (c ∷ cs) hb hs h = (
  Apart-of_cover b c hb hs.0 (λ p. omega (arith, h p)),
  all-Apart_of_cover b cs hb hs.1 (λ p. omega (arith, h p)),
)
