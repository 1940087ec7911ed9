-- ===== src/Hooks/HeapUse/Counts.antt =====
-- What the table of heaps counts.
use ts3vasmanager.Hooks.HeapUse.{
  HeapUseRec, HeapUse, no_heap, find_heap, bump_heap, use_slot, new_heap, insert_heap, scan_heaps,
  cached_slot, record_cached, record_heap_use, heap_use_max,
}
use ts3vasmanager.Prelude.{
  ℕ, zero, suc, refl, inl, inr, none, some, List, [], arith, Bool-cases, length, get_or, set, ◌<◌,
  ◌≡◌, ◌≢◌, ◌∷◌, ◌++◌, ◌==◌, subst, sym, ap, Bool, true, false, Option, Option-cases, ==_iff, ◌+◌,
  ◌%◌, ◌^◌, ◌∙◌, if◌then◌else◌, get_or-set_self, lt→ltb, ◌⊎◌, get_or-set_ne,
}

abbrev at : List HeapUseRec → ℕ → HeapUseRec
at t i = get_or t i no_heap

abbrev Hit : ℕ → List HeapUseRec → Option ℕ → Type 0
Hit h t none = Unit
Hit h t (some i) = (i < length t) × ((at t i).handle ≡ h)

-- A step of the scan, on what the rest of it answers.
first-Hit :
    (h : ℕ) (x : HeapUseRec) (xs : List HeapUseRec) (b : Bool) (o : Option ℕ)
    → (x.handle == h) ≡ b
    → Hit h xs o
    → Hit h (x ∷ xs) (if b then some 0 else elim o [ none ↦ none | some i ↦ some (i + 1) ])
first-Hit h x xs true o e k = (omega arith, (==_iff x.handle h).0 e)
first-Hit h x xs false none e k = tt
first-Hit h x xs false (some i) e k =
    let next : suc i ≡ i + 1 = omega arith in
    subst (λ j. (j < suc (length xs)) × ((at (x ∷ xs) j).handle ≡ h)) next (omega (arith, k.0), k.1)

found : (h : ℕ) (t : List HeapUseRec) → Hit h t (find_heap h t)
unfolding find_heap
found h [] = tt
found h (x ∷ xs) = first-Hit h x xs (x.handle == h) (find_heap h xs) refl (found h xs)

find-set :
    (g : ℕ) (t : List HeapUseRec) (i : ℕ) (r : HeapUseRec)
    → r.handle ≡ (at t i).handle
    → find_heap g (set t i r) ≡ find_heap g t
unfolding find_heap
find-set g [] i r e = refl
find-set g (x ∷ xs) zero r e = rw e refl
find-set g (x ∷ xs) (suc i) r e = rw (find-set g xs i r e) refl

find-append :
    (h : ℕ) (t : List HeapUseRec) (r : HeapUseRec)
    → r.handle ≡ h
    → find_heap h t ≡ none
    → find_heap h (t ++ (r ∷ [])) ≡ some (length t)
unfolding find_heap
find-append h [] r same e = ground (arith, same)
find-append h (x ∷ xs) r same e = elim (Bool-cases (x.handle == h)) [
  | inl here ↦
      let clash : ◌≡◌ {A = Option ℕ} (some 0) none =
        subst
          (λ b.
            (if b then some 0 else elim (find_heap h xs) [ none ↦ none | some i ↦ some (i + 1) ])
            ≡ none)
          here e in
      cc
  | inr there ↦ elim (Option-cases (find_heap h xs)) [
    | inl miss ↦ rw (there, find-append h xs r same miss) (ap (λ k. some k) (omega arith))
    | inr (i, hit) ↦
        let clash : ◌≡◌ {A = Option ℕ} (some (i + 1)) none =
          subst (λ o. (elim o [ none ↦ none | some j ↦ some (j + 1) ]) ≡ none) hit
            (subst
              (λ b.
                (if b
                  then some 0
                  else elim (find_heap h xs) [ none ↦ none | some j ↦ some (j + 1) ])
                ≡ none)
              there e) in
        cc
  ]
]

find-append_other :
    (g : ℕ) (t : List HeapUseRec) (r : HeapUseRec)
    → r.handle ≢ g
    → find_heap g (t ++ (r ∷ [])) ≡ find_heap g t
unfolding find_heap
find-append_other g [] r ne = ground (arith, ne)
find-append_other g (x ∷ xs) r ne = rw (find-append_other g xs r ne) refl

get-append_old :
    (t : List HeapUseRec) (r : HeapUseRec) (i : ℕ) → i < length t → at (t ++ (r ∷ [])) i ≡ at t i
get-append_old [] r i h = elim h [ ]
get-append_old (x ∷ xs) r zero h = refl
get-append_old (x ∷ xs) r (suc i) h = get-append_old xs r i (omega arith)

get-append_new : (t : List HeapUseRec) (r : HeapUseRec) → at (t ++ (r ∷ [])) (length t) ≡ r
get-append_new [] r = refl
get-append_new (x ∷ xs) r = get-append_new xs r

-- The slot that the thread remembers is the one that the scan of the table finds.
abbrev pub IsCoherent : HeapUse → Type 0
IsCoherent u = (i : ℕ) → u.last_slot ≡ some i → find_heap u.last_handle u.table ≡ some i

-- The allocations and bytes that the table has for a heap.
abbrev pub count_at : Option ℕ → List HeapUseRec → ℕ
count_at none t = 0
count_at (some i) t = (at t i).count

abbrev pub bytes_at : Option ℕ → List HeapUseRec → ℕ
bytes_at none t = 0
bytes_at (some i) t = (at t i).bytes

abbrev pub count_of : ℕ → HeapUse → ℕ
count_of h u = count_at (find_heap h u.table) u.table

abbrev pub bytes_of : ℕ → HeapUse → ℕ
bytes_of h u = bytes_at (find_heap h u.table) u.table

-- What a recorded allocation leaves: a coherent cache, the heap's counters grown, the others as they
-- were.
pub record IsUsed (h size : ℕ) (u u' : HeapUse) : Type 0 where
  pub coherent : IsCoherent u'
  pub counted : count_of h u' ≡ (count_of h u + 1) % 2 ^ 64
  pub weighed : bytes_of h u' ≡ (bytes_of h u + size) % 2 ^ 64
  pub others : (g : ℕ) → g ≢ h → (count_of g u' ≡ count_of g u) × (bytes_of g u' ≡ bytes_of g u)

use_slot-IsUsed :
    (h size i : ℕ) (u : HeapUse)
    → find_heap h u.table ≡ some i
    → IsUsed h size u (use_slot h size i u).1
unfolding use_slot bump_heap
use_slot-IsUsed h size i u e =
    let hit : Hit h u.table (some i) = subst (Hit h u.table) e (found h u.table) in
    let r = bump_heap size (at u.table i) in
    let here : find_heap h (set u.table i (bump_heap size (at u.table i))) ≡ some i =
      find-set h u.table i (bump_heap size (at u.table i)) refl ∙ e in
    let now = get_or-set_self u.table i (bump_heap size (at u.table i)) no_heap hit.0 in
    record {
      coherent = λ j f. let same : i ≡ j = cc in rw (sym same) here;
      counted =
          ap (λ o. count_at o (set u.table i (bump_heap size (at u.table i)))) here
          ∙ ap (λ (r : HeapUseRec). r.count) now
          ∙ sym (ap (λ o. (count_at o u.table + 1) % 2 ^ 64) e);
      weighed =
          ap (λ o. bytes_at o (set u.table i (bump_heap size (at u.table i)))) here
          ∙ ap (λ (r : HeapUseRec). r.bytes) now
          ∙ sym (ap (λ o. (bytes_at o u.table + size) % 2 ^ 64) e);
      others = λ g ne.
          rw (find-set g u.table i (bump_heap size (at u.table i)) refl)
            (other g ne (find_heap g u.table) (found g u.table));
    }
  where
    other :
        (g : ℕ)
        → g ≢ h
        → (o : Option ℕ) → Hit g u.table o
        → (count_at o (set u.table i (bump_heap size (at u.table i))) ≡ count_at o u.table)
          × (bytes_at o (set u.table i (bump_heap size (at u.table i))) ≡ bytes_at o u.table)
    other g ne none k = (refl, refl)
    other g ne (some j) k =
        let hit : Hit h u.table (some i) = subst (Hit h u.table) e (found h u.table) in
        let apart : i ≢ j = λ q. ne (sym k.1 ∙ ap (λ x. (at u.table x).handle) (sym q) ∙ hit.1) in
        let same = get_or-set_ne u.table i j (bump_heap size (at u.table i)) no_heap apart in
        (ap (λ (r : HeapUseRec). r.count) same, ap (λ (r : HeapUseRec). r.bytes) same)

new_heap-handle : (h : ℕ) (caller : List ℕ) → (new_heap h caller).handle ≡ h
unfolding new_heap
new_heap-handle h [] = refl
new_heap-handle h (c ∷ cs) = refl

new_heap-zero :
    (h : ℕ) (caller : List ℕ) → ((new_heap h caller).count ≡ 0) × ((new_heap h caller).bytes ≡ 0)
unfolding new_heap
new_heap-zero h [] = (refl, refl)
new_heap-zero h (c ∷ cs) = (refl, refl)

insert_heap-IsUsed :
    (h size : ℕ) (caller : List ℕ) (u : HeapUse)
    → find_heap h u.table ≡ none
    → length u.table < heap_use_max
    → IsUsed h size u (insert_heap h size caller u).1
unfolding insert_heap
insert_heap-IsUsed h size caller u miss room =
    rw (lt→ltb (length u.table) heap_use_max room) (record {
      coherent = used.coherent;
      counted = used.counted ∙ ap (λ k. (k + 1) % 2 ^ 64) fresh.0;
      weighed = used.weighed ∙ ap (λ k. (k + size) % 2 ^ 64) fresh.1;
      others = λ g ne. ((used.others g ne).0 ∙ (old g ne).0, (used.others g ne).1 ∙ (old g ne).1);
    })
  where
    grown : HeapUse
    grown = record u { table = u.table ++ (new_heap h caller ∷ []) }

    fresh : (count_of h grown ≡ count_of h u) × (bytes_of h grown ≡ bytes_of h u)
    fresh =
        let hit = find-append h u.table (new_heap h caller) (new_heap-handle h caller) miss in
        let z = new_heap-zero h caller in
        rw (hit, count_at, bytes_at, get-append_new u.table (new_heap h caller), miss) z

    kept :
        (o : Option ℕ)
        → (g : ℕ) → Hit g u.table o
        → (count_at o grown.table ≡ count_at o u.table)
          × (bytes_at o grown.table ≡ bytes_at o u.table)
    kept none g k = (refl, refl)
    kept (some i) g k =
        let same = get-append_old u.table (new_heap h caller) i k.0 in
        (ap (λ (r : HeapUseRec). r.count) same, ap (λ (r : HeapUseRec). r.bytes) same)

    old : (g : ℕ) → g ≢ h → (count_of g grown ≡ count_of g u) × (bytes_of g grown ≡ bytes_of g u)
    old g ne =
        rw
          (find-append_other g u.table (new_heap h caller)
            (λ e. ne (sym e ∙ new_heap-handle h caller)))
          (kept (find_heap g u.table) g (found g u.table))

    used : IsUsed h size grown (use_slot h size (length u.table) grown).1
    used =
        use_slot-IsUsed h size (length u.table) grown
          (find-append h u.table (new_heap h caller) (new_heap-handle h caller) miss)

-- For a heap that is not null, and that is in the table or finds a free slot in it, `RecordHeapUse`
-- adds 1 to the heap's allocations and the size to its bytes, as 64-bit counters, whichever of the
-- thread's slot, the scan and the insertion serves it; it changes the counters of no other heap, and
-- keeps the slot that the thread remembers the one that a scan would find.
pub record_heap_use-IsUsed :
    (h size : ℕ) (caller : List ℕ) (u : HeapUse)
    → h ≢ 0
    → IsCoherent u
    → (find_heap h u.table ≢ none) ⊎ (length u.table < heap_use_max)
    → IsUsed h size u (record_heap_use h size caller u).1
unfolding record_heap_use record_cached scan_heaps cached_slot
record_heap_use-IsUsed h size caller u nz k room =
    let null : (h == 0) ≡ false = ground (arith, nz) in rw null (go (cached_slot h u) refl)
  where
    go : (o : Option ℕ) → cached_slot h u ≡ o → IsUsed h size u (record_cached h size caller u o).1
    go (some i) e = elim (Bool-cases (h == u.last_handle)) [
      | inl same ↦
          let last : u.last_slot ≡ some i =
            subst (λ b. (if b then u.last_slot else none) ≡ some i) same e in
          use_slot-IsUsed h size i u (rw ((==_iff h u.last_handle).0 same) (k i last))
      | inr other ↦
          let clash : ◌≡◌ {A = Option ℕ} none (some i) =
            subst (λ b. (if b then u.last_slot else none) ≡ some i) other e in
          cc
    ]
    go none e = elim (Option-cases (find_heap h u.table)) [
      | inr (i, hit) ↦ rw (hit, scan_heaps) (use_slot-IsUsed h size i u hit)
      | inl miss ↦
          rw (miss, scan_heaps)
            (elim room [
              | inl in_table ↦ elim (in_table miss) [ ]
              | inr free_slot ↦ insert_heap-IsUsed h size caller u miss free_slot
            ])
    ]
