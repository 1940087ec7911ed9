-- ===== src/MemoryManager/Corral/Cap.antt =====
-- The cap on what the segments reserve.

use ts3vasmanager.ProxyAllocator.SizeClasses.{keep}
use ts3vasmanager.ProxyAllocator.Init.{init_from_shared}
use ts3vasmanager.ProxyAllocator.Arena.{Arena, allocate}
use ts3vasmanager.MemoryManager.Corral.{
  Segment, Corral, Zone, max_corral_segs, publish_segment, attach_zone, add_corral_segment,
  first_grant, grow_size, last_grant, grant_grown, grant_or_grow, free_in, used_total, note_slot,
  settle_corral, corral_reserve,
}
use ts3vasmanager.Prelude.{
  ℕ, inl, inr, Bool, true, false, Option, none, some, List, [], arith, length, length-append, ◌+◌,
  ◌^◌, ◌≤◌, ◌<◌, ◌≡◌, ◌⊎◌, ◌∷◌, ◌++◌, leb_false→lt, zero, suc, max, refl, not, ltb, leb, Bool-cases,
  Option-cases, add32, ==_iff, ◌&&◌, ◌||◌, ◌==◌,
}

abbrev pub reserved_bytes : List Segment → ℕ
reserved_bytes [] = 0
reserved_bytes (s ∷ ss) = s.size + reserved_bytes ss

-- At most 64 segments; the total is the sum of their sizes; a cap that is set is kept.
pub record IsCapped (c : Corral) : Type 0 where
  pub few : length c.segments ≤ max_corral_segs
  pub summed : reserved_bytes c.segments ≡ c.total_reserved
  pub capped : (c.max_reserved ≡ 0) ⊎ (c.total_reserved ≤ c.max_reserved)

reserved-append :
    (s : Segment) (ss : List Segment) → reserved_bytes (ss ++ (s ∷ [])) ≡ reserved_bytes ss + s.size
reserved-append s [] = omega arith
reserved-append s (t ∷ ts) = omega (arith, reserved-append s ts)

publish-IsCapped :
    (base size : ℕ) (r : Bool × Arena) (c : Corral)
    → c.total_reserved + size < 2 ^ 32
    → length c.segments < max_corral_segs
    → (c.max_reserved ≡ 0) ⊎ (c.total_reserved + size ≤ c.max_reserved)
    → IsCapped c
    → IsCapped (publish_segment base size r c).1
unfolding publish_segment
publish-IsCapped base size (false, a) c fits room cap h = h
publish-IsCapped base size (true, a) c fits room cap h =
    let s : Segment = record { base = base; size = size; alloc = a } in
    record {
      few = omega (arith, length-append c.segments (s ∷ []));
      summed = omega (arith, reserved-append s c.segments, h.summed);
      capped = elim cap [ inl off ↦ inl off | inr on ↦ inr (omega arith) ];
    }

attach-IsCapped :
    (o : Option Arena) (pool base size : ℕ) (c : Corral)
    → c.total_reserved + size < 2 ^ 32
    → length c.segments < max_corral_segs
    → (c.max_reserved ≡ 0) ⊎ (c.total_reserved + size ≤ c.max_reserved)
    → IsCapped c
    → IsCapped (attach_zone o pool base size c).1
unfolding attach_zone
attach-IsCapped none pool base size c fits room cap h = h
attach-IsCapped (some a) pool base size c fits room cap h =
    publish-IsCapped base size (init_from_shared pool base size a) c fits room cap h

within_cap :
    (m t n : ℕ)
    → t + n < 2 ^ 32
    → (not (m == 0) && ltb m (add32 t n)) ≡ false
    → (m ≡ 0) ⊎ (t + n ≤ m)
within_cap m t n fits e = elim (Bool-cases (m == 0)) [
  | inl off ↦ inl ((==_iff m 0).0 off)
  | inr on ↦ inr (ground (arith, on, e, fits))
]

-- `AddCorralSegment` keeps the number of segments within 64, the total the sum of the segments'
-- sizes, and the total within the cap where a cap is set, given that a reservation that the
-- operating system grants leaves the total below 4 GB.
pub add_corral_segment-IsCapped :
    (z : Zone) (size : ℕ) (c : Corral)
    → ((z.reserved ≡ 0) ⊎ (c.total_reserved + size < 2 ^ 32))
    → IsCapped c
    → IsCapped (add_corral_segment z size c).1
unfolding add_corral_segment
add_corral_segment-IsCapped z size c fits h =
    elim (Bool-cases (leb max_corral_segs (length c.segments))) [
      | inl full ↦ rw full h
      | inr room ↦
          elim (Bool-cases
            (not (c.max_reserved == 0) && ltb c.max_reserved (add32 c.total_reserved size))) [
              | inl over ↦ rw (room, over) h
              | inr under ↦ elim (Bool-cases (z.reserved == 0)) [
                | inl refused ↦ simp (room, under, refused) h
                | inr given ↦
                    let low : c.total_reserved + size < 2 ^ 32 = elim fits [
                      | inl zero_base ↦ ground arith
                      | inr low ↦ low
                    ] in
                    simp (room, under, given)
                      (attach-IsCapped z.fresh z.pool_mem z.reserved size c low
                        (leb_false→lt max_corral_segs (length c.segments) room)
                        (within_cap c.max_reserved c.total_reserved size low under) h)
              ]
            ]
    ]

-- Two lists of segments with the same zones.
abbrev SameZones : List Segment → List Segment → Type 0
SameZones ss ts = (length ts ≡ length ss) × (reserved_bytes ts ≡ reserved_bytes ss)

same-IsCapped :
    (c : Corral) (ss : List Segment) (ms : List (ℕ × ℕ)) (peak : ℕ)
    → SameZones c.segments ss
    → IsCapped c
    → IsCapped (record c { segments = ss; sizes = ms; peak_bytes = peak })
same-IsCapped c ss ms peak same h = record {
  few = omega (arith, same.0, h.few);
  summed = omega (arith, same.1, h.summed);
  capped = h.capped;
}

first_grant-SameZones : (size i : ℕ) (ss : List Segment) → SameZones ss (first_grant size i ss).1
unfolding first_grant
first_grant-SameZones size i [] = (refl, refl)
first_grant-SameZones size i (s ∷ ss) = elim (Option-cases (allocate size false s.alloc).0) [
  | inr (p, e) ↦ rw (e, first_grant) (refl, refl)
  | inl e ↦
      let h = first_grant-SameZones size (i + 1) ss in
      rw (e, first_grant) (omega (arith, h.0), omega (arith, h.1))
]

last_grant-SameZones : (size : ℕ) (ss : List Segment) → SameZones ss (last_grant size ss).1
unfolding last_grant
last_grant-SameZones size [] = (refl, refl)
last_grant-SameZones size (s ∷ []) = (refl, refl)
last_grant-SameZones size (s ∷ t ∷ ss) =
    let h = last_grant-SameZones size (t ∷ ss) in (omega (arith, h.0), omega (arith, h.1))

free_in-SameZones : (p size i : ℕ) (ss : List Segment) → SameZones ss (free_in p size i ss)
unfolding free_in
free_in-SameZones p size i [] = (refl, refl)
free_in-SameZones p size zero (s ∷ ss) = (refl, refl)
free_in-SameZones p size (suc i) (s ∷ ss) =
    let h = free_in-SameZones p size i ss in (omega (arith, h.0), omega (arith, h.1))

grant_grown-IsCapped :
    (size : ℕ) (r : Bool × Corral) → IsCapped r.1 → IsCapped (grant_grown size r).1
unfolding grant_grown
grant_grown-IsCapped size (false, c) h = h
grant_grown-IsCapped size (true, c) h =
    same-IsCapped c (last_grant size c.segments).1 c.sizes c.peak_bytes
      (last_grant-SameZones size c.segments) h

grant_or_grow-IsCapped :
    (z : Zone) (size : ℕ) (r : Option (ℕ × ℕ) × List Segment) (c : Corral)
    → ((z.reserved ≡ 0) ⊎ (c.total_reserved + grow_size size c < 2 ^ 32))
    → SameZones c.segments r.1
    → IsCapped c
    → IsCapped (grant_or_grow z size r c).1
unfolding grant_or_grow grow_size
grant_or_grow-IsCapped z size (some s, ss) c fits same h =
    same-IsCapped c ss c.sizes c.peak_bytes same h
grant_or_grow-IsCapped z size (none, ss) c fits same h =
    let b : Corral = record c { segments = ss } in
    grant_grown-IsCapped size (add_corral_segment z (grow_size size b) b) (
      add_corral_segment-IsCapped z (grow_size size b) b fits
        (same-IsCapped c ss c.sizes c.peak_bytes same h))

settle_corral-IsCapped :
    (size : ℕ) (commit commits : Bool) (r : Option (ℕ × ℕ) × Corral)
    → IsCapped r.1
    → IsCapped (settle_corral size commit commits r).1
unfolding settle_corral note_slot
settle_corral-IsCapped size commit commits (none, c) h = h
settle_corral-IsCapped size commit commits (some (p, i), c) h =
    elim (Bool-cases (commit && not commits)) [
      | inl undo ↦ rw undo (
          same-IsCapped c (free_in p size i c.segments) c.sizes c.peak_bytes
            (free_in-SameZones p size i c.segments) h)
      | inr keep ↦
          rw keep
            (same-IsCapped c c.segments _ (max c.peak_bytes (used_total c.segments)) (refl, refl) h)
    ]

-- `CorralReserve` keeps the number of segments within 64, the total the sum of the segments' sizes,
-- and the total within the cap where a cap is set, on every branch: served by a segment, served by
-- a new segment, refused, or undone after a failed commit. The condition is that a reservation for
-- a new segment, if the operating system grants it, leaves the total below 4 GB.
pub corral_reserve-IsCapped :
    (z : Zone) (size : ℕ) (commit commits : Bool) (c : Corral)
    → ((z.reserved ≡ 0) ⊎ (c.total_reserved + grow_size size c < 2 ^ 32))
    → IsCapped c
    → IsCapped (corral_reserve z size commit commits c).1
unfolding corral_reserve
corral_reserve-IsCapped z size commit commits c fits h =
    elim (Bool-cases (not c.ready || (size == 0))) [
      | inl idle ↦ rw idle h
      | inr busy ↦ rw busy (
          settle_corral-IsCapped size commit commits
            (grant_or_grow z size (first_grant size 0 c.segments) c)
            (grant_or_grow-IsCapped z size (first_grant size 0 c.segments) c fits
              (first_grant-SameZones size 0 c.segments) h))
    ]
