-- ===== src/MapViewTypeTracker/Types/Totals.antt =====
-- What the table's counters add up to.
use ts3vasmanager.Prelude.{
  ==_false, ℕ, zero, suc, inl, inr, List, arith, Bool-cases, length, set, length-set, ==_iff, ◌+◌,
  ◌<◌, ◌≡◌, ◌≢◌, ◌==◌, get_or-set_self, get_or-set_ne, ap, add64, ◌∙◌, if◌then◌else◌, refl, sym,
  true, false, [], ◌∷◌, set-set, ◌%◌, ◌^◌, subst,
}
use ts3vasmanager.Prelude.Bits.{bit_and-low, low_bits-lt}
use ts3vasmanager.MapViewTypeTracker.Types.{
  TypeSlot, no_slot, slot_at, probe_slot, probe_from, hit, vacant, DbpfTypeStats, probe, settle,
  find_or_insert_type, add_stats, record_settled, record_type, home, Probe, full, record_dbpf_types,
}

abbrev type_at : List TypeSlot → ℕ → ℕ
type_at table i = (slot_at table i).type_id

-- No slot that is in use changes its type.
abbrev TypesKept : List TypeSlot → List TypeSlot → Type 0
TypesKept table table' =
    (length table' ≡ length table)
    × ((i : ℕ) → type_at table i ≢ 0 → type_at table' i ≡ type_at table i)

probe_slot-lt : (idx k : ℕ) → probe_slot idx k < 256
unfolding probe_slot
probe_slot-lt idx k = omega (arith, bit_and-low 8 (idx + k), low_bits-lt 8 (idx + k))

module _ (table : List TypeSlot) (id : ℕ) (idx : ℕ) where
  hit-type : (n k s : ℕ) → probe_from table id idx n k ≡ hit s → type_at table s ≡ id
  unfolding probe_from
  hit-type zero k s e = cc
  hit-type (suc n) k s e = ground (arith, hit-type n (k + 1) s)

  vacant-type :
      (n k s : ℕ) → probe_from table id idx n k ≡ vacant s → (type_at table s ≡ 0) × (s < 256)
  unfolding probe_from
  vacant-type zero k s e = cc
  vacant-type (suc n) k s e = ground (arith, vacant-type n (k + 1) s, probe_slot-lt idx k)

  hit-lt : (n k s : ℕ) → probe_from table id idx n k ≡ hit s → s < 256
  unfolding probe_from
  hit-lt zero k s e = cc
  hit-lt (suc n) k s e = ground (arith, hit-lt n (k + 1) s, probe_slot-lt idx k)

  -- An entry that is found stays found where it is.
  hit-kept :
      (table' : List TypeSlot) (n k s : ℕ)
      → id ≢ 0
      → TypesKept table table'
      → probe_from table id idx n k ≡ hit s
      → probe_from table' id idx n k ≡ hit s
  unfolding probe_from
  hit-kept table' zero k s nz kept e = cc
  hit-kept table' (suc n) k s nz kept e =
      ground (arith, kept.1 (probe_slot idx k), hit-kept table' n (k + 1) s)

  -- An entry that is put where its probe ended is found there.
  vacant-hit :
      (table' : List TypeSlot) (n k s : ℕ)
      → id ≢ 0
      → TypesKept table table'
      → type_at table' s ≡ id
      → probe_from table id idx n k ≡ vacant s
      → probe_from table' id idx n k ≡ hit s
  unfolding probe_from
  vacant-hit table' zero k s nz kept t e = cc
  vacant-hit table' (suc n) k s nz kept t e =
      ground (arith, kept.1 (probe_slot idx k), vacant-hit table' n (k + 1) s)

set-TypesKept :
    (table : List TypeSlot) (s : ℕ) (slot : TypeSlot)
    → (type_at table s ≢ 0 → slot.type_id ≡ type_at table s)
    → s < length table
    → TypesKept table (set table s slot)
set-TypesKept table s slot same h = (
  length-set table s slot,
  λ i nz. elim (Bool-cases (s == i)) [
    | inl e ↦
        let e' : s ≡ i = (==_iff s i).0 e in
        rw (← e') (
          ap (λ (x : TypeSlot). x.type_id) (get_or-set_self table s slot no_slot h)
          ∙ same (rw e' nz))
    | inr n ↦
        ap (λ (x : TypeSlot). x.type_id) (get_or-set_ne table s i slot no_slot (==_false s i n))
  ],
)

-- One recorded statistic: where it goes, and what the slot then holds.
pub record IsRecorded (st : DbpfTypeStats) (table table' : List TypeSlot) (s : ℕ) : Type 0 where
  pub found : probe table' st.type_id ≡ hit s
  pub kept : TypesKept table table'
  pub others : (i : ℕ) → i ≢ s → slot_at table' i ≡ slot_at table i
  pub entries :
      (slot_at table' s).entry_count
      ≡ add64 (if type_at table s == 0 then 0 else (slot_at table s).entry_count) st.entry_count
  pub bytes :
      (slot_at table' s).total_bytes
      ≡ add64 (if type_at table s == 0 then 0 else (slot_at table s).total_bytes) st.total_mem_bytes
  pub views :
      (slot_at table' s).view_count
      ≡ add64 (if type_at table s == 0 then 0 else (slot_at table s).view_count) 1

module _ (st : DbpfTypeStats) (table : List TypeSlot) (nz : st.type_id ≢ 0) where
  abbrev fresh_slot : TypeSlot
  fresh_slot = record { type_id = st.type_id; entry_count = 0; total_bytes = 0; view_count = 0 }

  record_type-hit :
      (s : ℕ)
      → probe table st.type_id ≡ hit s
      → record_type st table ≡ set table s (add_stats st (slot_at table s))
  unfolding record_type find_or_insert_type settle record_settled
  record_type-hit s e =
      let used : (st.type_id == 0) ≡ false = ground arith in rw (used, e, record_type) refl

  record_type-vacant :
      (s : ℕ)
      → s < length table
      → probe table st.type_id ≡ vacant s
      → record_type st table ≡ set table s (add_stats st fresh_slot)
  unfolding record_type find_or_insert_type settle record_settled
  record_type-vacant s h e =
      let used : (st.type_id == 0) ≡ false = ground arith in
      rw (used, e, record_type)
        (ap (λ x. set (set table s fresh_slot) s (add_stats st x))
            (get_or-set_self table s fresh_slot no_slot h)
          ∙ set-set table s fresh_slot (add_stats st fresh_slot))

  slot_written : (s : ℕ) (slot : TypeSlot) → s < length table → slot_at (set table s slot) s ≡ slot
  slot_written s slot h = get_or-set_self table s slot no_slot h

  module _ (len : length table ≡ 256) where
    IsRecorded-hit :
        (s : ℕ) → probe table st.type_id ≡ hit s → IsRecorded st table (record_type st table) s
    unfolding probe add_stats
    IsRecorded-hit s e =
        let t = hit-type table st.type_id (home st.type_id) 256 0 s e in
        let h : s < length table =
          omega (arith, hit-lt table st.type_id (home st.type_id) 256 0 s e) in
        let slot = add_stats st (slot_at table s) in
        let kept = set-TypesKept table s slot (λ _. refl) h in
        let used : (type_at table s == 0) ≡ false = ground arith in
        rw (record_type-hit s e) (record {
          found = hit-kept table st.type_id (home st.type_id) _ 256 0 s nz kept e;
          kept = kept;
          others = λ i n. get_or-set_ne table s i slot no_slot (λ q. n (sym q));
          entries = rw used (ap (λ (x : TypeSlot). x.entry_count) (slot_written s slot h));
          bytes = rw used (ap (λ (x : TypeSlot). x.total_bytes) (slot_written s slot h));
          views = rw used (ap (λ (x : TypeSlot). x.view_count) (slot_written s slot h));
        })

    IsRecorded-vacant :
        (s : ℕ) → probe table st.type_id ≡ vacant s → IsRecorded st table (record_type st table) s
    unfolding probe add_stats
    IsRecorded-vacant s e =
        let (t, lt) = vacant-type table st.type_id (home st.type_id) 256 0 s e in
        let h : s < length table = omega arith in
        let slot = add_stats st fresh_slot in
        let kept = set-TypesKept table s slot (λ used. absurd (used t)) h in
        let empty : (type_at table s == 0) ≡ true = ground arith in
        rw (record_type-vacant s h e) (record {
          found =
              vacant-hit table st.type_id (home st.type_id) _ 256 0 s nz kept
                (ap (λ (x : TypeSlot). x.type_id) (slot_written s slot h)) e;
          kept = kept;
          others = λ i n. get_or-set_ne table s i slot no_slot (λ q. n (sym q));
          entries = rw empty (ap (λ (x : TypeSlot). x.entry_count) (slot_written s slot h));
          bytes = rw empty (ap (λ (x : TypeSlot). x.total_bytes) (slot_written s slot h));
          views = rw empty (ap (λ (x : TypeSlot). x.view_count) (slot_written s slot h));
        })

    -- In a table of 256 slots that is not full for a type other than 0, recording a statistic of
    -- the type puts it in one slot: the type is found there from then on, the slot's three counters
    -- grow by the statistic's entries and bytes and by one view, from zero if the slot was empty,
    -- no other slot changes, and no slot in use changes its type.
    pub record_type-IsRecorded :
        probe table st.type_id ≢ full → (s : ℕ) × IsRecorded st table (record_type st table) s
    record_type-IsRecorded room = go (probe table st.type_id) refl
      where
        go :
            (r : Probe)
            → probe table st.type_id ≡ r
            → (s : ℕ) × IsRecorded st table (record_type st table) s
        go (hit s) e = (s, IsRecorded-hit s e)
        go (vacant s) e = (s, IsRecorded-vacant s e)
        go full e = absurd (room e)

-- The bytes that a list of statistics gives for one type.
abbrev pub bytes_of : ℕ → List DbpfTypeStats → ℕ
bytes_of id [] = 0
bytes_of id (st ∷ sts) = (if st.type_id == id then st.total_mem_bytes else 0) + bytes_of id sts

abbrev pub count_of : ℕ → List DbpfTypeStats → ℕ
count_of id [] = 0
count_of id (st ∷ sts) = (if st.type_id == id then 1 else 0) + count_of id sts

found-type : (table : List TypeSlot) (id s : ℕ) → probe table id ≡ hit s → type_at table s ≡ id
unfolding probe
found-type table id s e = hit-type table id (home id) 256 0 s e

found-kept :
    (table table' : List TypeSlot) (id s : ℕ)
    → id ≢ 0
    → TypesKept table table'
    → probe table id ≡ hit s
    → probe table' id ≡ hit s
unfolding probe
found-kept table table' id s nz kept e = hit-kept table id (home id) table' 256 0 s nz kept e

record_type-unused :
    (st : DbpfTypeStats) (table : List TypeSlot)
    → (st.type_id == 0) ≡ true
    → record_type st table ≡ table
unfolding record_type find_or_insert_type record_settled
record_type-unused st table e = rw (e, record_type) refl

record_type-full :
    (st : DbpfTypeStats) (table : List TypeSlot)
    → (st.type_id == 0) ≡ false
    → probe table st.type_id ≡ full
    → record_type st table ≡ table
unfolding record_type find_or_insert_type record_settled settle
record_type-full st table u e = rw (u, e, record_type) refl

-- What a list of statistics does to the slot of a type that is already in the table.
pub record Accumulates (id s : ℕ) (sts : List DbpfTypeStats) (table table' : List TypeSlot)
    : Type 0 where
  pub found : probe table' id ≡ hit s
  pub width : length table' ≡ 256
  pub bytes :
      (slot_at table' s).total_bytes % 2 ^ 64
      ≡ ((slot_at table s).total_bytes + bytes_of id sts) % 2 ^ 64
  pub views :
      (slot_at table' s).view_count % 2 ^ 64
      ≡ ((slot_at table s).view_count + count_of id sts) % 2 ^ 64

module _ (id s : ℕ) (nz : id ≢ 0) where
  unchanged :
      (st : DbpfTypeStats) (table table' : List TypeSlot)
      → st.type_id ≢ id
      → length table' ≡ 256
      → probe table' id ≡ hit s
      → slot_at table' s ≡ slot_at table s
      → Accumulates id s (st ∷ []) table table'
  unchanged st table table' ne len found same = record {
    found = found;
    width = len;
    bytes = let e = ap (λ (x : TypeSlot). x.total_bytes) same in ground arith;
    views = let e = ap (λ (x : TypeSlot). x.view_count) same in ground arith;
  }

  record_type-Accumulates :
      (st : DbpfTypeStats) (table : List TypeSlot)
      → length table ≡ 256
      → probe table id ≡ hit s
      → Accumulates id s (st ∷ []) table (record_type st table)
  record_type-Accumulates st table len e = elim (Bool-cases (st.type_id == 0)) [
    | inl unused ↦
        rw (record_type-unused st table unused)
          (unchanged st table table (λ q. nz (sym q ∙ (==_iff _ _).0 unused)) len e refl)
    | inr used ↦ go (probe table st.type_id) refl (==_false _ _ used)
  ]
    where
      settled :
          (k : ℕ)
          → IsRecorded st table (record_type st table) k
          → Accumulates id s (st ∷ []) table (record_type st table)
      settled k r =
          let len' : length (record_type st table) ≡ 256 = r.kept.0 ∙ len in
          let found : probe (record_type st table) id ≡ hit s =
            found-kept table _ id s nz r.kept e in
          let clash : s ≡ k → st.type_id ≡ id = λ q.
            sym (found-type _ st.type_id k r.found)
            ∙ ap (type_at (record_type st table)) (sym q)
            ∙ found-type _ id s found in
          let t : type_at table s ≡ id = found-type table id s e in
          elim (Bool-cases (st.type_id == id)) [
            | inl same ↦
                let same' : st.type_id ≡ id = (==_iff _ _).0 same in
                let at_s : hit k ≡ hit s =
                  sym r.found ∙ ap (probe (record_type st table)) same' ∙ found in
                let k' : k ≡ s = cc in
                let r' : IsRecorded st table (record_type st table) s =
                  subst (λ j. IsRecorded st table (record_type st table) j) k' r in
                record {
                  found = found;
                  width = len';
                  bytes = let b = r'.bytes in ground (arith, nz);
                  views = let v = r'.views in ground (arith, nz);
                }
            | inr other ↦
                let ne : st.type_id ≢ id = ==_false _ _ other in
                let apart : s ≢ k = λ q. ne (clash q) in
                unchanged st table (record_type st table) ne len' found (r.others s apart)
          ]

      go :
          (p : Probe)
          → probe table st.type_id ≡ p
          → st.type_id ≢ 0
          → Accumulates id s (st ∷ []) table (record_type st table)
      go full q u =
          let ne : st.type_id ≢ id =
            λ same. let clash : full ≡ hit s = sym q ∙ ap (probe table) same ∙ e in cc in
          let idle = record_type-full st table (ground arith) q in
          rw idle (unchanged st table table ne len e refl)
      go (hit k) q u = settled k (IsRecorded-hit st table u len k q)
      go (vacant k) q u = settled k (IsRecorded-vacant st table u len k q)

  -- In a table of 256 slots, over any list of statistics, the slot of a type other than 0 that is
  -- in the table stays where it is, and its byte and view counters grow, as 64-bit counters, by
  -- exactly what the list gives for that type.
  pub record_dbpf_types-Accumulates :
      (sts : List DbpfTypeStats) (table : List TypeSlot)
      → length table ≡ 256
      → probe table id ≡ hit s
      → Accumulates id s sts table (record_dbpf_types sts table)
  unfolding record_dbpf_types
  record_dbpf_types-Accumulates [] table len e = record {
    found = e;
    width = len;
    bytes = omega arith;
    views = omega arith;
  }
  record_dbpf_types-Accumulates (st ∷ sts) table len e =
      let a = record_type-Accumulates st table len e in
      let b = record_dbpf_types-Accumulates sts (record_type st table) a.width a.found in
      record {
        found = b.found;
        width = b.width;
        bytes = omega (arith, a.bytes, b.bytes);
        views = omega (arith, a.views, b.views);
      }
