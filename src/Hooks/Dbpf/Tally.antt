-- ===== src/Hooks/Dbpf/Tally.antt =====
-- What the statistics of an index count.
use ts3vasmanager.ProxyAllocator.FreeList.Order.{end}
use ts3vasmanager.ProxyAllocator.Arena.{free}
use ts3vasmanager.Hooks.Dbpf.Index.{read32-some}
use ts3vasmanager.Hooks.Dbpf.{add_entry, entry_size, read32, scan_entries}
use ts3vasmanager.MapViewTypeTracker.Types.{DbpfTypeStats}
use ts3vasmanager.Prelude.{
  ℕ, inl, inr, Option, none, some, List, [], arith, Bool-cases, length, ◌+◌, ◌-◌, ◌%◌, ◌^◌, ◌≤◌,
  ◌<◌, ◌≡◌, ◌≢◌, ◌∷◌, ◌==◌, if◌then◌else◌, ltb_false→le, ==_false, subst, zero, suc, refl, sym, ltb,
  Option-cases, add32, add64, ltb→lt, ==_iff, ◌*◌, ◌⊎◌, ap, ◌∙◌,
}

-- The statistics of a type, if it has a slot.
abbrev pub stats_of : ℕ → List DbpfTypeStats → Option DbpfTypeStats
stats_of u [] = none
stats_of u (x ∷ xs) = let rest = stats_of u xs in if x.type_id == u then some x else rest

-- The statistics of a list of entries (type and size) that are added in turn.
abbrev pub tally : ℕ → List (ℕ × ℕ) → List DbpfTypeStats → List DbpfTypeStats
tally room [] xs = xs
tally room (e ∷ es) xs = tally room es (add_entry e.0 e.1 room xs)

-- How many of the entries have the type, and their bytes.
abbrev pub occurrences : ℕ → List (ℕ × ℕ) → ℕ
occurrences u [] = 0
occurrences u (e ∷ es) = (if e.0 == u then 1 else 0) + occurrences u es

abbrev pub bytes_of : ℕ → List (ℕ × ℕ) → ℕ
bytes_of u [] = 0
bytes_of u (e ∷ es) = (if e.0 == u then e.1 else 0) + bytes_of u es

add_entry-other :
    (t s left u : ℕ) (xs : List DbpfTypeStats)
    → t ≢ u
    → stats_of u (add_entry t s left xs) ≡ stats_of u xs
unfolding add_entry
add_entry-other t s left u [] ne = ground arith
add_entry-other t s left u (x ∷ xs) ne = ground (arith, add_entry-other t s (left - 1) u xs ne)

length-add_entry :
    (t s left : ℕ) (xs : List DbpfTypeStats)
    → length xs ≤ left
    → (length xs ≤ length (add_entry t s left xs)) × (length (add_entry t s left xs) ≤ left)
unfolding add_entry
length-add_entry t s left [] h = ground arith
length-add_entry t s left (x ∷ xs) h = ground (arith, length-add_entry t s (left - 1) xs)

-- The statistics of a type after one entry of it.
abbrev bumped : ℕ → DbpfTypeStats → DbpfTypeStats
bumped s x = record x {
  entry_count = add32 x.entry_count 1;
  total_mem_bytes = add64 x.total_mem_bytes s;
}

add_entry-same :
    (t s left : ℕ) (xs : List DbpfTypeStats) (x : DbpfTypeStats)
    → stats_of t xs ≡ some x
    → stats_of t (add_entry t s left xs) ≡ some (bumped s x)
unfolding add_entry
add_entry-same t s left [] x e = cc
add_entry-same t s left (z ∷ xs) x e = ground (arith, add_entry-same t s (left - 1) xs x)

add_entry-new :
    (t s left : ℕ) (xs : List DbpfTypeStats)
    → stats_of t xs ≡ none
    → length xs < left
    → stats_of t (add_entry t s left xs)
      ≡ some (record { type_id = t; entry_count = add32 0 1; total_mem_bytes = add64 0 s })
unfolding add_entry
add_entry-new t s left [] e h = ground arith
add_entry-new t s left (x ∷ xs) e h = ground (arith, add_entry-new t s (left - 1) xs)

add_entry-full :
    (t s left : ℕ) (xs : List DbpfTypeStats)
    → stats_of t xs ≡ none
    → left ≤ length xs
    → add_entry t s left xs ≡ xs
unfolding add_entry
add_entry-full t s left [] e h = ground arith
add_entry-full t s left (x ∷ xs) e h = ground (arith, add_entry-full t s (left - 1) xs)

-- The statistics agree with n entries of b bytes; a type without a slot had no entry, unless all
-- the slots are taken.
abbrev pub Counted : ℕ → ℕ → ℕ → ℕ → Option DbpfTypeStats → Type 0
Counted n b room used none = ((n ≡ 0) × (b ≡ 0)) ⊎ (used ≡ room)
Counted n b room used (some x) = (x.entry_count ≡ n % 2 ^ 32) × (x.total_mem_bytes ≡ b % 2 ^ 64)

Counted-same :
    (u s n b room : ℕ) (xs : List DbpfTypeStats)
    → length xs ≤ room
    → Counted n b room (length xs) (stats_of u xs)
    → Counted
        (n + 1)
        (b + s)
        room
        (length (add_entry u s room xs))
        (stats_of u (add_entry u s room xs))
Counted-same u s n b room xs le c = elim (Option-cases (stats_of u xs)) [
  | inr (x, e) ↦
      let was : (x.entry_count ≡ n % 2 ^ 32) × (x.total_mem_bytes ≡ b % 2 ^ 64) =
        subst (Counted n b room (length xs)) e c in
      rw (add_entry-same u s room xs x e) (omega (arith, was.0), omega (arith, was.1))
  | inl e ↦
      let was : ((n ≡ 0) × (b ≡ 0)) ⊎ (length xs ≡ room) =
        subst (Counted n b room (length xs)) e c in
      elim (Bool-cases (ltb (length xs) room)) [
        | inr full ↦
            rw (add_entry-full u s room xs e (ltb_false→le _ _ full), e)
              (inr (omega (arith, ltb_false→le _ _ full)))
        | inl free ↦ rw (add_entry-new u s room xs e (ltb→lt _ _ free)) (elim was [
          | inl (zn, zb) ↦ (omega arith, omega arith)
          | inr end ↦ let no : ⊥ = omega (arith, ltb→lt _ _ free) in elim no [ ]
        ])
      ]
]

Counted-other :
    (t u s n b room : ℕ) (xs : List DbpfTypeStats)
    → t ≢ u
    → length xs ≤ room
    → Counted n b room (length xs) (stats_of u xs)
    → Counted n b room (length (add_entry t s room xs)) (stats_of u (add_entry t s room xs))
Counted-other t u s n b room xs ne le c =
    rw (add_entry-other t s room u xs ne) (go (stats_of u xs) c)
  where
    go :
        (o : Option DbpfTypeStats)
        → Counted n b room (length xs) o
        → Counted n b room (length (add_entry t s room xs)) o
    go (some x) k = k
    go none (inl z) = inl z
    go none (inr full) = inr (omega (arith, full, length-add_entry t s room xs le))

Counted-step :
    (t s u n b room : ℕ) (xs : List DbpfTypeStats)
    → length xs ≤ room
    → Counted n b room (length xs) (stats_of u xs)
    → Counted
        (n + (if t == u then 1 else 0))
        (b + (if t == u then s else 0))
        room
        (length (add_entry t s room xs))
        (stats_of u (add_entry t s room xs))
Counted-step t s u n b room xs le c = elim (Bool-cases (t == u)) [
  | inl same ↦
      let e = (==_iff t u).0 same in
      rw same (
        subst
          (λ w.
            Counted (n + 1) (b + s) room (length (add_entry w s room xs))
              (stats_of u (add_entry w s room xs)))
          (sym e) (Counted-same u s n b room xs le c))
  | inr other ↦
      let n' : n + 0 ≡ n = omega arith in
      let b' : b + 0 ≡ b = omega arith in
      rw (other, n', b') (Counted-other t u s n b room xs (==_false t u other) le c)
]

Counted-tally :
    (es : List (ℕ × ℕ)) (u n b room : ℕ) (xs : List DbpfTypeStats)
    → length xs ≤ room
    → Counted n b room (length xs) (stats_of u xs)
    → (length (tally room es xs) ≤ room)
      × Counted
          (n + occurrences u es)
          (b + bytes_of u es)
          room
          (length (tally room es xs))
          (stats_of u (tally room es xs))
Counted-tally [] u n b room xs le c =
    let n' : n + 0 ≡ n = omega arith in let b' : b + 0 ≡ b = omega arith in rw (n', b') (le, c)
Counted-tally ((t, s) ∷ es) u n b room xs le c =
    let next =
      Counted-tally es u (n + (if t == u then 1 else 0)) (b + (if t == u then s else 0)) room
        (add_entry t s room xs) (length-add_entry t s room xs le).1
        (Counted-step t s u n b room xs le c) in
    let en : n + ((if t == u then 1 else 0) + occurrences u es)
        ≡ n + (if t == u then 1 else 0) + occurrences u es =
      omega arith in
    let eb : b + ((if t == u then s else 0) + bytes_of u es)
        ≡ b + (if t == u then s else 0) + bytes_of u es =
      omega arith in
    rw (en, eb) next

-- The entries of an index, from entry i on.
abbrev pub word_at : List ℕ → ℕ → ℕ
word_at bytes i = elim (read32 bytes i) [ none ↦ 0 | some w ↦ w ]

abbrev pub entries : List ℕ → ℕ → ℕ → ℕ → List (ℕ × ℕ)
entries bytes offset zero i = []
entries bytes offset (suc n) i =
    (word_at bytes (offset + i * entry_size), word_at bytes (offset + i * entry_size + 24))
    ∷ entries bytes offset n (i + 1)

scan-step :
    (bytes : List ℕ) (offset room n i t s : ℕ) (xs : List DbpfTypeStats)
    → read32 bytes (offset + i * entry_size) ≡ some t
    → read32 bytes (offset + i * entry_size + 24) ≡ some s
    → scan_entries bytes offset room (suc n) i xs
      ≡ scan_entries bytes offset room n (i + 1) (add_entry t s room xs)
unfolding scan_entries
scan-step bytes offset room n i t s xs et es = rw (et, es, scan_entries) refl

word : (bytes : List ℕ) (i w : ℕ) → read32 bytes i ≡ some w → w ≡ word_at bytes i
word bytes i w e = rw (e, word_at) refl

scan-tally :
    (bytes : List ℕ) (offset room n i : ℕ) (xs : List DbpfTypeStats)
    → offset + (i + n) * entry_size ≤ length bytes
    → scan_entries bytes offset room n i xs ≡ some (tally room (entries bytes offset n i) xs)
unfolding scan_entries
scan-tally bytes offset room zero i xs h = refl
scan-tally bytes offset room (suc n) i xs h =
    let (t, et) = read32-some bytes (offset + i * entry_size) (omega arith) in
    let (s, es) = read32-some bytes (offset + i * entry_size + 24) (omega arith) in
    let pair : (t, s)
        ≡ (word_at bytes (offset + i * entry_size), word_at bytes (offset + i * entry_size + 24)) =
      rw (sym (word _ _ t et), sym (word _ _ s es)) refl in
    scan-step bytes offset room n i t s xs et es
    ∙ scan-tally bytes offset room n (i + 1) (add_entry t s room xs) (omega arith)
    ∙ ap
        (λ (p : ℕ × ℕ).
          some (tally room (entries bytes offset n (i + 1)) (add_entry p.0 p.1 room xs)))
        pair

-- If the n entries of an index lie in the view, the scan of them succeeds with at most `room` types,
-- and for every type the counters are, as 32-bit and 64-bit numbers, the number of the index's
-- entries of that type and the sum of their sizes. Only when all `room` slots are taken can a type
-- of the index be without counters.
pub scan-Counted :
    (bytes : List ℕ) (offset room n : ℕ)
    → offset + n * entry_size ≤ length bytes
    → (out : List DbpfTypeStats) × (scan_entries bytes offset room n 0 [] ≡ some out)
      × (length out ≤ room)
      × ((u : ℕ)
          → Counted
              (occurrences u (entries bytes offset n 0))
              (bytes_of u (entries bytes offset n 0))
              room
              (length out)
              (stats_of u out))
scan-Counted bytes offset room n h =
    (out, scan-tally bytes offset room n 0 [] (omega arith), (from_empty 0).0, λ u. counts u)
  where
    es : List (ℕ × ℕ)
    es = entries bytes offset n 0

    out : List DbpfTypeStats
    out = tally room (entries bytes offset n 0) []

    from_empty :
        (u : ℕ)
        → (length out ≤ room)
          × Counted (0 + occurrences u es) (0 + bytes_of u es) room (length out) (stats_of u out)
    from_empty u = Counted-tally es u 0 0 room [] (omega arith) (inl (refl, refl))

    counts : (u : ℕ) → Counted (occurrences u es) (bytes_of u es) room (length out) (stats_of u out)
    counts u =
        let n₀ : 0 + occurrences u es ≡ occurrences u es = omega arith in
        let b₀ : 0 + bytes_of u es ≡ bytes_of u es = omega arith in
        subst (λ k. Counted k (bytes_of u es) room (length out) (stats_of u out)) n₀
          (subst (λ k. Counted (0 + occurrences u es) k room (length out) (stats_of u out)) b₀
            (from_empty u).1)
