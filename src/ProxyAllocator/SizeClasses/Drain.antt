-- ===== src/ProxyAllocator/SizeClasses/Drain.antt =====
-- Draining the caches back into the free list.

use ts3vasmanager.ProxyAllocator.SizeClasses.Keeps.{held, IsTable}
use ts3vasmanager.Prelude.{ℕ, List, [], arith, length, All, ◌+◌, ◌^◌, ◌≤◌, ◌<◌, ◌≡◌, ◌∷◌}
use ts3vasmanager.ProxyAllocator.FreeList.Bounds.{
  IsSlot, Slot-insert_free, Slot-EndsLow, Slot-Positive,
}
use ts3vasmanager.ProxyAllocator.FreeList.Order.{IsGapped, IsGapped-insert_free, all-Apart_of_cover}
use ts3vasmanager.ProxyAllocator.FreeList.Sizes.{total, insert_free-Inserts}
use ts3vasmanager.ProxyAllocator.FreeList.Cover.{
  in_block, cover, EndsLow, cover-insert_free, cover-insert_free-le,
}
use ts3vasmanager.ProxyAllocator.Align.{Granule}
use ts3vasmanager.ProxyAllocator.FreeList.{Block, weigh}
use ts3vasmanager.ProxyAllocator.SizeClasses.{
  SizeClass, Reclaim, reclaim_block, reclaim_blocks, reclaim_classes,
}

module _ (base top gran : ℕ) (low : top < 2 ^ 32) (g : Granule gran) where
  abbrev Slots : List Block → Type 0
  Slots = All (IsSlot base top gran)

  -- What a drained free list satisfies before each step, `pending` being what is yet to come.
  pub record IsReady (cover_pending : ℕ → ℕ) (bytes_pending : ℕ) (r : Reclaim) : Type 0 where
    pub slots : Slots r.free.blocks
    pub gapped : IsGapped r.free.blocks
    pub apart : (p : ℕ) → cover_pending p + cover p r.free.blocks ≤ 1
    pub fits : bytes_pending + total r.free.blocks < 2 ^ 32
    pub cached : bytes_pending ≤ r.cached_bytes

  -- What a drain of such blocks leaves. Nothing is lost if the pool had a node to begin with.
  pub record IsDrained (covers : ℕ → ℕ) (bytes blocks : ℕ) (r s : Reclaim) : Type 0 where
    pub slots : Slots s.free.blocks
    pub gapped : IsGapped s.free.blocks
    pub cover_le : (p : ℕ) → cover p s.free.blocks ≤ covers p + cover p r.free.blocks
    pub exact :
        0 < r.free.nodes → (p : ℕ) → cover p s.free.blocks ≡ covers p + cover p r.free.blocks
    pub total_le : total s.free.blocks ≤ bytes + total r.free.blocks
    pub total_exact : 0 < r.free.nodes → total s.free.blocks ≡ bytes + total r.free.blocks
    pub nodes : s.free.nodes + length s.free.blocks ≡ r.free.nodes + length r.free.blocks + blocks
    pub kept : r.free.nodes ≤ s.free.nodes
    pub cached : s.cached_bytes + bytes ≡ r.cached_bytes

  IsDrained-reclaim_block :
      (b : Block) (r : Reclaim)
      → IsSlot base top gran b
      → IsReady (λ p. in_block p b) b.size r
      → IsDrained (λ p. in_block p b) b.size 1 r (reclaim_block b r)
  unfolding reclaim_block
  IsDrained-reclaim_block b r h k =
      let lows = Slot-EndsLow base top gran low g r.free.blocks k.slots in
      let positives = Slot-Positive base top gran low g r.free.blocks k.slots in
      let blow : EndsLow b = omega (arith, h.below) in
      let sums = insert_free-Inserts b r.free k.fits in
      record {
        slots = Slot-insert_free base top gran low g b r.free h k.slots;
        gapped =
            IsGapped-insert_free b r.free h.positive blow lows positives
              (all-Apart_of_cover b r.free.blocks h.positive positives k.apart) k.gapped;
        cover_le = λ p. cover-insert_free-le p b r.free blow lows;
        exact = λ pos p. cover-insert_free p b r.free blow lows pos;
        total_le = sums.bytes_le;
        total_exact = sums.bytes;
        nodes = omega (arith, sums.nodes);
        kept = omega (arith, sums.kept);
        cached = ground (arith, k.cached);
      }

  IsDrained-empty :
      (r : Reclaim) → Slots r.free.blocks → IsGapped r.free.blocks → IsDrained (λ p. 0) 0 0 r r
  IsDrained-empty r slots gapped = record {
    slots = slots;
    gapped = gapped;
    cover_le = λ p. omega arith;
    exact = λ pos p. omega arith;
    total_le = omega arith;
    total_exact = λ pos. omega arith;
    nodes = omega arith;
    kept = omega arith;
    cached = omega arith;
  }

  IsDrained-trans :
      {f f' : ℕ → ℕ} {m m' n n' : ℕ} {r s t : Reclaim}
      → IsDrained f m n r s
      → IsDrained f' m' n' s t
      → IsDrained (λ p. f p + f' p) (m + m') (n + n') r t
  IsDrained-trans d e = record {
    slots = e.slots;
    gapped = e.gapped;
    cover_le = λ p. omega (arith, d.cover_le p, e.cover_le p);
    exact = λ pos p. omega (arith, d.exact pos p, e.exact (omega (arith, d.kept)) p);
    total_le = omega (arith, d.total_le, e.total_le);
    total_exact = λ pos. omega (arith, d.total_exact pos, e.total_exact (omega (arith, d.kept)));
    nodes = omega (arith, d.nodes, e.nodes);
    kept = omega (arith, d.kept, e.kept);
    cached = omega (arith, d.cached, e.cached);
  }

  -- After a part is drained the rest is still ready.
  IsReady-next :
      {f : ℕ → ℕ} {m n : ℕ} {r s : Reclaim} (f' : ℕ → ℕ) (m' : ℕ)
      → IsReady (λ p. f p + f' p) (m + m') r
      → IsDrained f m n r s
      → IsReady f' m' s
  IsReady-next f' m' k d = record {
    slots = d.slots;
    gapped = d.gapped;
    apart = λ p. omega (arith, k.apart p, d.cover_le p);
    fits = omega (arith, k.fits, d.total_le);
    cached = omega (arith, k.cached, d.cached);
  }

  IsReady-head :
      {f : ℕ → ℕ} {m : ℕ} {r : Reclaim} (f' : ℕ → ℕ) (m' : ℕ)
      → IsReady (λ p. f p + f' p) (m + m') r
      → IsReady f m r
  IsReady-head f' m' k = record {
    slots = k.slots;
    gapped = k.gapped;
    apart = λ p. omega (arith, k.apart p);
    fits = omega (arith, k.fits);
    cached = omega (arith, k.cached);
  }

  IsDrained-reclaim_blocks :
      (bs : List Block) (r : Reclaim)
      → Slots bs
      → IsReady (λ p. cover p bs) (total bs) r
      → IsDrained (λ p. cover p bs) (total bs) (weigh (λ b. 1) bs) r (reclaim_blocks bs r)
  unfolding reclaim_blocks
  IsDrained-reclaim_blocks [] r h k = IsDrained-empty r k.slots k.gapped
  IsDrained-reclaim_blocks (b ∷ bs) r h k =
      let d = IsDrained-reclaim_block b r h.0 (IsReady-head (λ p. cover p bs) (total bs) k) in
      let e =
        IsDrained-reclaim_blocks bs (reclaim_block b r) h.1
          (IsReady-next (λ p. cover p bs) (total bs) k d) in
      IsDrained-trans d e

  -- Draining the caches loses no address and no byte if the pool had a node, never makes one up,
  -- and leaves the free list coalesced.
  pub IsDrained-reclaim_classes :
      (cs : List SizeClass) (r : Reclaim)
      → IsTable base top gran cs
      → IsReady (λ p. held (in_block p) cs) (held (λ b. b.size) cs) r
      → IsDrained
          (λ p. held (in_block p) cs)
          (held (λ b. b.size) cs)
          (held (λ b. 1) cs)
          r
          (reclaim_classes cs r)
  unfolding reclaim_classes
  IsDrained-reclaim_classes [] r t k = IsDrained-empty r k.slots k.gapped
  IsDrained-reclaim_classes (c ∷ cs) r t k =
      let d =
        IsDrained-reclaim_blocks c.head r t.0.slots
          (IsReady-head (λ p. held (in_block p) cs) (held (λ b. b.size) cs) k) in
      IsDrained-trans d (
        IsDrained-reclaim_classes cs (reclaim_blocks c.head r) t.1
          (IsReady-next (λ p. held (in_block p) cs) (held (λ b. b.size) cs) k d))
