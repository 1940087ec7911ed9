-- ===== src/ProxyAllocator/Reserve.antt =====
-- ProxyAllocator.cpp: `ReserveArenaContiguous`, the walk over the address space for a free region.
-- `VirtualQuery` and `VirtualAlloc` are parameters: a query gives the region that holds an address,
-- or nothing on failure, and a reservation gives an address, 0 on failure.
use ts3vasmanager.Prelude.{
  ℕ, zero, suc, Bool, Option, none, some, ltb, leb, add32, ◌*◌, ◌&&◌, ◌==◌, if◌then◌else◌, ◌-◌, ◌<◌,
  ◌≢◌, refl, inl, inr, true, arith, Bool-cases, Option-cases, ltb→lt, ◌≡◌, false,
}
use ts3vasmanager.ProxyAllocator.Align.{align_up}

pub record Region : Type 0 where
  pub base_address : ℕ
  pub region_size : ℕ
  pub is_free : Bool

pub record AddressSpace : Type 0 where
  pub minimum_address : ℕ
  pub maximum_address : ℕ
  pub query : ℕ → Option Region
  pub reserve : ℕ → ℕ → ℕ

abbrev pub arena_base32 : ℕ
arena_base32 = 0xC0000000

-- `prefEnd` in 32-bit arithmetic: 0xC0000000 + 0x40000000 wraps to 0.
abbrev pub preferred_end : ℕ
preferred_end = add32 arena_base32 (1024 * 1024 * 1024)

-- What one round does: reserve and return, stop, or go on at the next region.
pub data Round : Type 0 where
  found : ℕ → Round
  stop : Round
  next : ℕ → Round

module _ (os : AddressSpace) (gran want : ℕ) where
  unfoldable pub next_region : ℕ → Region → Round
  next_region p r = let n = add32 r.base_address r.region_size in if leb n p then stop else next n

  unfoldable pub try_region : ℕ → Region → Round
  unfolding next_region
  try_region p r =
      let cand = align_up r.base_address gran in
      let reserved = os.reserve cand want in
      if r.is_free && leb (add32 cand want) (add32 r.base_address r.region_size)
      then (if reserved == 0 then next_region p r else found reserved)
      else next_region p r

  unfoldable pub round : ℕ → Round
  unfolding try_region
  round p = elim (os.query p) [ none ↦ stop | some r ↦ try_region p r ]

  -- `while (p < prefEnd)` with fuel; `none` means that the fuel ran out, `some 0` that the walk found
  -- nothing.
  unfoldable pub walk : ℕ → ℕ → ℕ → Option ℕ
  walk zero pref_end p = none
  walk (suc fuel) pref_end p =
      if ltb p pref_end
      then elim (round p) [ found a ↦ some a | stop ↦ some 0 | next n ↦ walk fuel pref_end n ]
      else some 0

  -- A round that goes on goes on at a higher address.
  round_rises : (p n : ℕ) → round p ≡ next n → p < n
  unfolding round
  round_rises p n e = elim (Option-cases (os.query p)) [
    | inl failed ↦ ground arith
    | inr (r, answered) ↦ ground arith
  ]

  continue : ℕ → ℕ → Round → Option ℕ
  continue fuel pref_end (found a) = some a
  continue fuel pref_end stop = some 0
  continue fuel pref_end (next n) = walk fuel pref_end n

  walk_step :
      (fuel pref_end p : ℕ)
      → ltb p pref_end ≡ true
      → walk (suc fuel) pref_end p ≡ continue fuel pref_end (round p)
  unfolding walk continue
  walk_step fuel pref_end p h = rw h (same (round p))
    where
      same :
          (r : Round)
          → (elim r [ found a ↦ some a | stop ↦ some 0 | next n ↦ walk fuel pref_end n ])
            ≡ continue fuel pref_end r
      same (found a) = refl
      same stop = refl
      same (next n) = refl

  walk_done : (fuel pref_end p : ℕ) → ltb p pref_end ≡ false → walk (suc fuel) pref_end p ≢ none
  unfolding walk
  walk_done fuel pref_end p h = rw h (λ e. cc)

  -- Whatever the system answers, the walk over the regions ends: a step of fuel for each address up
  -- to the end of the range is enough.
  pub walk-ne-none : (fuel pref_end p : ℕ) → pref_end - p < fuel → walk fuel pref_end p ≢ none
  walk-ne-none zero pref_end p h = elim h [ ]
  walk-ne-none (suc fuel) pref_end p h = elim (Bool-cases (ltb p pref_end)) [
    | inr done ↦ walk_done fuel pref_end p done
    | inl more ↦
        rw (walk_step fuel pref_end p more)
          (go more (round p) refl (λ n. walk-ne-none fuel pref_end n))
  ]
    where
      go :
          ltb p pref_end ≡ true
          → (r : Round) → round p ≡ r
          → ((n : ℕ) → pref_end - n < fuel → walk fuel pref_end n ≢ none)
          → continue fuel pref_end r ≢ none
      go more (found a) e ih = unfold continue in (λ x. cc)
      go more stop e ih = unfold continue in (λ x. cc)
      go more (next n) e ih =
          unfold continue in ih n (omega (arith, round_rises p n e, ltb→lt p pref_end more))

-- The bounds of the walk, clamped to the addresses that the system hands out.
abbrev pub pref_start : AddressSpace → ℕ
pref_start os = if ltb arena_base32 os.minimum_address then os.minimum_address else arena_base32

abbrev pub pref_stop : AddressSpace → ℕ
pref_stop os = if ltb os.maximum_address preferred_end then os.maximum_address else preferred_end

-- `ReserveArenaContiguous`: a first fit in the preferred range, else wherever the system likes.
unfoldable pub reserve_arena_contiguous : AddressSpace → ℕ → ℕ → ℕ
unfolding walk
reserve_arena_contiguous os gran size =
    let want = align_up size gran in
    elim (walk os gran want (suc (pref_stop os - pref_start os)) (pref_stop os) (pref_start os)) [
      | none ↦ 0
      | some zero ↦ os.reserve 0 want
      | some (suc a) ↦ suc a
    ]

-- Whatever the address space holds, `ReserveArenaContiguous` reserves where the system chooses: the
-- end of the preferred range wraps to 0 in 32 bits, so no region of it is ever looked at.
pub reserve_arena-anywhere :
    (os : AddressSpace) (gran size : ℕ)
    → reserve_arena_contiguous os gran size ≡ os.reserve 0 (align_up size gran)
unfolding reserve_arena_contiguous walk
reserve_arena-anywhere os gran size = ground arith
