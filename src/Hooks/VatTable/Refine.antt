-- ===== src/Hooks/VatTable/Refine.antt =====
-- The table against a bounded map from addresses to sizes.

use ts3vasmanager.ProxyAllocator.FreeList.Order.{end}
use ts3vasmanager.Hooks.VatTable.{
  Vat, vat_max, new_vat, vat_track, find_slot, move_last, untrack_found, vat_untrack,
}
use ts3vasmanager.Hooks.VatTable.Abstract.{
  VatOp, track, untrack, Spec, update, no_slots, spec_track, spec_untrack, run, spec_run, Fresh,
  Refines, empty_spec,
}
use ts3vasmanager.Prelude.{
  ℕ, zero, suc, Option, none, some, List, [], arith, ltb, length, get_or, ◌+◌, ◌-◌, ◌≤◌, ◌<◌, ◌≡◌,
  ◌≢◌, ◌∷◌, ◌==◌, if◌then◌else◌, ==_false, subst, sym, ap, inl, inr, Bool-cases, set, length-set,
  ==_iff, ◌∙◌, get_or-set_ne, get_or-set_self, refl, Option-cases, ltb→lt, length-replicate,
}

find_slot-some :
    (a : ℕ) (xs : List ℕ) (n i j : ℕ)
    → find_slot a xs n i ≡ some j
    → (i ≤ j) × (j < i + n) × (get_or xs j 0 ≡ a)
unfolding find_slot
find_slot-some a xs zero i j e = cc
find_slot-some a xs (suc n) i j e = ground (arith, find_slot-some a xs n (i + 1) j)

find_slot-none :
    (a : ℕ) (xs : List ℕ) (n i j : ℕ)
    → find_slot a xs n i ≡ none
    → i ≤ j
    → j < i + n
    → get_or xs j 0 ≢ a
unfolding find_slot
find_slot-none a xs zero i j e lo hi = let no : ⊥ = omega arith in elim no [ ]
find_slot-none a xs (suc n) i j e lo hi = elim (Bool-cases (get_or xs i 0 == a)) [
  | inl here ↦ ground arith
  | inr ne ↦ elim (Bool-cases (j == i)) [
    | inl same ↦ subst (λ k. get_or xs k 0 ≢ a) (sym ((==_iff j i).0 same)) (==_false _ a ne)
    | inr other ↦
        find_slot-none a xs n (i + 1) j (ground arith) (omega (arith, ==_false j i other))
          (omega arith)
  ]
]

update-same : (a : ℕ) (v : Option ℕ) (m : ℕ → Option ℕ) → update a v m a ≡ v
unfolding update
update-same a v m = ground arith

update-other : (a b : ℕ) (v : Option ℕ) (m : ℕ → Option ℕ) → b ≢ a → update a v m b ≡ m b
unfolding update
update-other a b v m ne = ground arith

-- The slot whose content stands at index j after the move.
abbrev source : ℕ → ℕ → ℕ → ℕ
source i last j = if j == i then last else j

source-inj : (i last j k : ℕ) → j < last → k < last → source i last j ≡ source i last k → j ≡ k
source-inj i last j k hj hk e = ground arith

move_last-at :
    (i last j : ℕ) (xs : List ℕ)
    → i ≤ last
    → last < length xs
    → j < last
    → get_or (move_last i last xs) j 0 ≡ get_or xs (source i last j) 0
unfolding move_last
move_last-at i last j xs le lt below = elim (Bool-cases (i == last)) [
  | inl end ↦ rw end (
      get_or-set_ne xs last j 0 0 (omega arith)
      ∙ ap (λ k. get_or xs k 0) (ground (arith, (==_iff i last).0 end)))
  | inr mid ↦ rw mid (
      get_or-set_ne (set xs i (get_or xs last 0)) last j 0 0 (omega arith)
      ∙ elim (Bool-cases (j == i)) [
        | inl same ↦
            rw (same, (==_iff j i).0 same) (get_or-set_self xs i (get_or xs last 0) 0 (omega arith))
        | inr other ↦
            rw other (get_or-set_ne xs i j (get_or xs last 0) 0 (λ e. ==_false j i other (sym e)))
      ])
]

length-move_last : (i last : ℕ) (xs : List ℕ) → length (move_last i last xs) ≡ length xs
unfolding move_last
length-move_last i last xs = elim (Bool-cases (i == last)) [
  | inl end ↦ rw end (length-set xs last 0)
  | inr mid ↦
      rw mid (length-set (set xs i (get_or xs last 0)) last 0 ∙ length-set xs i (get_or xs last 0))
]

scanned :
    (t : Vat) → t.count ≤ vat_max → (if ltb t.count vat_max then t.count else vat_max) ≡ t.count
scanned t h = ground arith

-- A slot that is live is not the new address.
not_live :
    {t : Vat} {m : Spec} (a i : ℕ)
    → Refines t m
    → m.live a ≡ none
    → i < t.count
    → get_or t.addrs i 0 ≢ a
not_live {t} {m} a i r gone h e =
    let held = r.held i h in
    let both : m.live a ≡ some (get_or t.sizes i 0) =
      subst (λ x. m.live x ≡ some (get_or t.sizes i 0)) e held in
    cc

added :
    (a s : ℕ) (t : Vat) (m : Spec)
    → Refines t m
    → m.live a ≡ none
    → t.count < vat_max
    → Refines
        (record {
          addrs = set t.addrs t.count a;
          sizes = set t.sizes t.count s;
          count = t.count + 1;
        })
        (record { live = update a (some s) m.live; used = m.used + 1 })
added a s t m r gone room = record {
  counted = ap (λ n. n + 1) r.counted;
  few = omega arith;
  addrs_len = length-set t.addrs t.count a ∙ r.addrs_len;
  sizes_len = length-set t.sizes t.count s ∙ r.sizes_len;
  held = λ i lt. elim (Bool-cases (i == t.count)) [
    | inl end ↦ rw ((==_iff i t.count).0 end, addr_new, size_new) (update-same a (some s) m.live)
    | inr old ↦
        let ne = ==_false i t.count old in
        rw (addr_old i ne, get_or-set_ne t.sizes t.count i s 0 (λ e. ne (sym e)))
          (update-other a (get_or t.addrs i 0) (some s) m.live
              (not_live a i r gone (omega (arith, ne)))
            ∙ r.held i (omega (arith, ne)))
  ];
  found = λ b z e. elim (Bool-cases (b == a)) [
    | inl here ↦ (t.count, omega arith, addr_new ∙ sym ((==_iff b a).0 here))
    | inr other ↦
        let (i, lt, at) =
          r.found b z (sym (update-other a b (some s) m.live (==_false b a other)) ∙ e) in
        (i, omega arith, addr_old i (omega arith) ∙ at)
  ];
  once = λ i j hi hj e. elim (Bool-cases (i == t.count)) [
    | inl ei ↦ elim (Bool-cases (j == t.count)) [
      | inl ej ↦ (==_iff i t.count).0 ei ∙ sym ((==_iff j t.count).0 ej)
      | inr oj ↦
          let nj = ==_false j t.count oj in
          elim (not_live a j r gone (omega (arith, nj)) (
            sym (addr_old j nj)
            ∙ sym e
            ∙ ap (λ k. get_or (set t.addrs t.count a) k 0) ((==_iff i t.count).0 ei)
            ∙ addr_new)) [ ]
    ]
    | inr oi ↦
        let ni = ==_false i t.count oi in
        elim (Bool-cases (j == t.count)) [
          | inl ej ↦
              elim (not_live a i r gone (omega (arith, ni)) (
                sym (addr_old i ni)
                ∙ e
                ∙ ap (λ k. get_or (set t.addrs t.count a) k 0) ((==_iff j t.count).0 ej)
                ∙ addr_new)) [ ]
          | inr oj ↦
              let nj = ==_false j t.count oj in
              r.once i j (omega (arith, ni)) (omega (arith, nj))
                (sym (addr_old i ni) ∙ e ∙ addr_old j nj)
        ]
  ];
}
  where
    addr_new : get_or (set t.addrs t.count a) t.count 0 ≡ a
    addr_new = get_or-set_self t.addrs t.count a 0 (omega (arith, r.addrs_len))

    size_new : get_or (set t.sizes t.count s) t.count 0 ≡ s
    size_new = get_or-set_self t.sizes t.count s 0 (omega (arith, r.sizes_len))

    addr_old : (i : ℕ) → i ≢ t.count → get_or (set t.addrs t.count a) i 0 ≡ get_or t.addrs i 0
    addr_old i ne = get_or-set_ne t.addrs t.count i a 0 (λ e. ne (sym e))

removed :
    (a i : ℕ) (t : Vat) (m : Spec)
    → Refines t m
    → i < t.count
    → get_or t.addrs i 0 ≡ a
    → Refines
        (record {
          addrs = move_last i (t.count - 1) t.addrs;
          sizes = move_last i (t.count - 1) t.sizes;
          count = t.count - 1;
        })
        (record { live = update a none m.live; used = m.used - 1 })
removed a i t m r lt at = record {
  counted = ap (λ n. n - 1) r.counted;
  few = omega arith;
  addrs_len = length-move_last i last t.addrs ∙ r.addrs_len;
  sizes_len = length-move_last i last t.sizes ∙ r.sizes_len;
  held = λ j hj.
      rw (addr_at j hj, size_at j hj)
        (update-other a (get_or t.addrs (source i last j) 0) none m.live (other j hj)
          ∙ r.held (source i last j) (source_lt j hj));
  found = λ b z e.
      let ne = live_other b z e in
      let (k, hk, ek) = r.found b z (sym (update-other a b none m.live ne) ∙ e) in
      let far : k ≢ i = λ q. ne (sym ek ∙ ap (λ x. get_or t.addrs x 0) q ∙ at) in
      elim (Bool-cases (k == last)) [
        | inl end ↦
            let q = (==_iff k last).0 end in
            let hi : i < last = omega (arith, far, q) in
            (i, hi, addr_at i hi ∙ ap (λ x. get_or t.addrs x 0) (ground (arith, q)) ∙ ek)
        | inr mid ↦
            let hk' : k < last = omega (arith, ==_false k last mid) in
            (k, hk', addr_at k hk' ∙ ap (λ x. get_or t.addrs x 0) (ground (arith, far)) ∙ ek)
      ];
  once = λ j k hj hk e. source-inj i last j k hj hk (
      r.once (source i last j) (source i last k) (source_lt j hj) (source_lt k hk)
        (sym (addr_at j hj) ∙ e ∙ addr_at k hk));
}
  where
    last : ℕ
    last = t.count - 1

    addr_at :
        (j : ℕ)
        → j < t.count - 1
        → get_or (move_last i (t.count - 1) t.addrs) j 0
          ≡ get_or t.addrs (source i (t.count - 1) j) 0
    addr_at j hj =
        move_last-at i (t.count - 1) j t.addrs (omega arith) (omega (arith, r.addrs_len, r.few)) hj

    size_at :
        (j : ℕ)
        → j < t.count - 1
        → get_or (move_last i (t.count - 1) t.sizes) j 0
          ≡ get_or t.sizes (source i (t.count - 1) j) 0
    size_at j hj =
        move_last-at i (t.count - 1) j t.sizes (omega arith) (omega (arith, r.sizes_len, r.few)) hj

    source_lt : (j : ℕ) → j < t.count - 1 → source i (t.count - 1) j < t.count
    source_lt j hj = ground arith

    source_ne : (j : ℕ) → j < t.count - 1 → source i (t.count - 1) j ≢ i
    source_ne j hj = ground arith

    other : (j : ℕ) → j < t.count - 1 → get_or t.addrs (source i (t.count - 1) j) 0 ≢ a
    other j hj e =
        source_ne j hj (r.once (source i (t.count - 1) j) i (source_lt j hj) lt (e ∙ sym at))

    live_other : (b z : ℕ) → update a none m.live b ≡ some z → b ≢ a
    live_other b z e q =
        let same : update a none m.live b ≡ none =
          subst (λ x. update a none m.live x ≡ none) (sym q) (update-same a none m.live) in
        cc

pub track-Refines :
    (a s : ℕ) (t : Vat) (m : Spec)
    → Refines t m
    → m.live a ≡ none
    → Refines (vat_track a s t) (spec_track a s m)
unfolding vat_track spec_track
track-Refines a s t m r gone =
    let same = ap (λ n. ltb n vat_max) r.counted in
    elim (Bool-cases (ltb t.count vat_max)) [
      | inr full ↦ rw (full, sym same ∙ full) r
      | inl room ↦ rw (room, sym same ∙ room) (added a s t m r gone (ltb→lt t.count vat_max room))
    ]

pub untrack-Refines :
    (a : ℕ) (t : Vat) (m : Spec)
    → Refines t m
    → ((vat_untrack a t).0 ≡ (spec_untrack a m).0)
      × Refines (vat_untrack a t).1 (spec_untrack a m).1
unfolding vat_untrack untrack_found spec_untrack
untrack-Refines a t m r =
    rw (scanned t r.few) (elim (Option-cases (find_slot a t.addrs t.count 0)) [
      | inl miss ↦ elim (Option-cases (m.live a)) [
        | inl gone ↦ rw (miss, gone, spec_untrack) (refl, r)
        | inr (s, live) ↦
            let (i, lt, at) = r.found a s live in
            elim (find_slot-none a t.addrs t.count 0 i miss (omega arith) (omega arith) at) [ ]
      ]
      | inr (i, hit) ↦
          let (lo, lt, at) = find_slot-some a t.addrs t.count 0 i hit in
          let live : m.live a ≡ some (get_or t.sizes i 0) =
            subst (λ x. m.live x ≡ some (get_or t.sizes i 0)) at (r.held i (omega arith)) in
          rw (hit, live, spec_untrack) (refl, removed a i t m r (omega arith) at)
    ])

run-spec_run :
    (ops : List VatOp) (t : Vat) (m : Spec) → Refines t m → Fresh ops m → run ops t ≡ spec_run ops m
unfolding run spec_run
run-spec_run [] t m r f = refl
run-spec_run (track a s ∷ ops) t m r (gone, f) =
    run-spec_run ops (vat_track a s t) (spec_track a s m) (track-Refines a s t m r gone) f
run-spec_run (untrack a ∷ ops) t m r f =
    let (same, r') = untrack-Refines a t m r in
    rw same (
      ap (◌∷◌ (spec_untrack a m).0)
        (run-spec_run ops (vat_untrack a t).1 (spec_untrack a m).1 r' f))

pub new_vat-Refines : Refines new_vat empty_spec
unfolding new_vat no_slots
new_vat-Refines = record {
  counted = refl;
  few = omega arith;
  addrs_len = length-replicate {A = ℕ} vat_max 0;
  sizes_len = length-replicate {A = ℕ} vat_max 0;
  held = λ i h. let no : ⊥ = omega arith in elim no [ ];
  found = λ a s e. cc;
  once = λ i j h k e. let no : ⊥ = omega arith in elim no [ ];
}

-- The table of redirected slots refines a map from addresses to sizes that takes at most 8192 of
-- them: after any sequence of calls of `VatTrack` and `VatUntrack` on the empty table in which no
-- address is tracked while it is live, every `VatUntrack` has answered what the map answers, the
-- size of the address if it is live and false otherwise.
pub run-spec : (ops : List VatOp) → Fresh ops empty_spec → run ops new_vat ≡ spec_run ops empty_spec
run-spec ops f = run-spec_run ops new_vat empty_spec new_vat-Refines f
