-- ===== src/Hooks/Shards/Spill.antt =====
-- When `ProxyHeapAlloc` answers that every shard is full.
use native.Mathlib.Nat.{mod-add-mod, mod-eq_of_lt, add-mod_left, mod-lt}
use ts3vasmanager.Hooks.Shards.{
  no_shard, shard_handle_live, Shard, Shards, ShardAlloc, got, all_full, out_of_bounds, pick_index,
  try_shard, try_from, proxy_heap_alloc,
}
use ts3vasmanager.Prelude.{
  ℕ, ltb_false→le, ==_false, subst, zero, suc, refl, sym, ap, inl, inr, Bool, Option, none, some,
  List, arith, ltb, Bool-cases, Option-cases, length, add32, ltb→lt, lt→ltb, ==_iff, ◌+◌, ◌-◌, ◌%◌,
  ◌^◌, ◌≤◌, ◌<◌, ◌≡◌, ◌∙◌, ◌==◌, not, get_or, ◌&&◌, if◌then◌else◌,
}

pick_index-small :
    (start k n : ℕ) → start + k < 2 ^ 31 → pick_index start k n ≡ some ((start + k) % n)
unfolding pick_index
pick_index-small start k n h =
    let same : (start + k) % 2 ^ 32 ≡ start + k = omega arith in
    rw (same, lt→ltb (start + k) (2 ^ 31) h) refl

module _ (committed : ℕ → Bool) (alloc : ℕ → Option ℕ) (ss : List Shard) where
  -- What the rounds from k on mean.
  abbrev Tried : ℕ → ℕ → ℕ → ShardAlloc → Type 0
  Tried start left k (got p) = (i : ℕ) × (i < length ss) × (try_shard committed alloc ss i ≡ some p)
  Tried start left k all_full =
      (j : ℕ) → k ≤ j → j < k + left → try_shard committed alloc ss ((start + j) % length ss) ≡ none
  Tried start left k out_of_bounds = ⊥

  weaken :
      (start left k : ℕ) (r : ShardAlloc)
      → try_shard committed alloc ss ((start + k) % length ss) ≡ none
      → Tried start left (k + 1) r
      → Tried start (suc left) k r
  weaken start left k (got p) e t = t
  weaken start left k out_of_bounds e t = t
  weaken start left k all_full e t = λ j lo hi. elim (Bool-cases (j == k)) [
    | inl same ↦ rw ((==_iff j k).0 same) e
    | inr other ↦ t j (omega (arith, ==_false j k other)) (omega arith)
  ]

  try_from-Tried :
      (start left k : ℕ)
      → 0 < length ss
      → start + (k + left) ≤ 2 ^ 31
      → Tried start left k (try_from committed alloc ss start left k)
  unfolding try_from
  try_from-Tried start zero k pos h = λ j lo hi. let no : ⊥ = omega arith in elim no [ ]
  try_from-Tried start (suc left) k pos h =
      let i = (start + k) % length ss in
      let next = try_from-Tried start left (k + 1) pos (omega arith) in
      let at = pick_index-small start k (length ss) (omega arith) in
      elim (Option-cases (try_shard committed alloc ss ((start + k) % length ss))) [
        | inl full ↦ rw (at, full, try_from) (weaken start left k _ full next)
        | inr (p, e) ↦ rw (at, e, try_from) ((start + k) % length ss, mod-lt (start + k) pos, e)
      ]

  -- Every index is the index of a round.
  round : (start i : ℕ) → i < length ss → (j : ℕ) × (j < length ss) × ((start + j) % length ss ≡ i)
  round start i lt =
      let r = start % length ss in
      let small : start % length ss < length ss = mod-lt start (omega arith) in
      elim (Bool-cases (ltb i (start % length ss))) [
        | inr after ↦
            let le = ltb_false→le i (start % length ss) after in
            let back : start % length ss + (i - start % length ss) ≡ i = omega (arith, le) in
            (
              i - start % length ss,
              omega arith,
              sym (mod-add-mod start (length ss) (i - start % length ss))
                  ∙ ap (λ x. x % length ss) back
                  ∙ mod-eq_of_lt lt,
            )
        | inl before ↦
            let lt' = ltb→lt i (start % length ss) before in
            let back : start % length ss + (length ss - start % length ss + i) ≡ length ss + i =
              omega (arith, small) in
            (
              length ss - start % length ss + i,
              omega (arith, lt', small),
              sym (mod-add-mod start (length ss) (length ss - start % length ss + i))
                  ∙ ap (λ x. x % length ss) back
                  ∙ add-mod_left (length ss) i
                  ∙ mod-eq_of_lt lt,
            )
      ]

  -- What the shard at an index gives: nothing if it has no handle or its page is gone.
  abbrev pub given : ℕ → Option ℕ
  given i =
      let h = (get_or ss i no_shard).handle in if not (h == 0) && committed h then alloc h else none

  given-try_shard : (i : ℕ) → given i ≡ try_shard committed alloc ss i
  unfolding try_shard shard_handle_live
  given-try_shard i = refl

  -- The answer of an allocation, in terms of the shards alone.
  abbrev pub Spilled : ShardAlloc → Type 0
  Spilled (got p) = (i : ℕ) × (i < length ss) × (given i ≡ some p)
  Spilled all_full = (i : ℕ) → i < length ss → given i ≡ none
  Spilled out_of_bounds = ⊥

  Tried-Spilled : (start : ℕ) (r : ShardAlloc) → Tried start (length ss) 0 r → Spilled r
  Tried-Spilled start (got p) (i, lt, e) = (i, lt, given-try_shard i ∙ e)
  Tried-Spilled start out_of_bounds t = t
  Tried-Spilled start all_full t = λ i lt.
      let (j, hj, at) = round start i lt in
      given-try_shard i
      ∙ subst (λ x. try_shard committed alloc ss x ≡ none) at (t j (omega arith) (omega arith))

-- While the counter that picks the first shard has not reached 2 ^ 31 less the number of the shards,
-- `ProxyHeapAlloc` reads no handle outside the array; a block that it returns comes from a shard
-- whose page is there; and it returns null only if every shard is dead or gives no block, so that a
-- full shard spills to every other.
pub proxy_heap_alloc-Spilled :
    (committed : ℕ → Bool) (alloc : ℕ → Option ℕ) (s : Shards)
    → s.next + 1 + length s.shards ≤ 2 ^ 31
    → Spilled committed alloc s.shards (proxy_heap_alloc committed alloc s).0
unfolding proxy_heap_alloc
proxy_heap_alloc-Spilled committed alloc s h = elim (Bool-cases (length s.shards == 0)) [
  | inl none_there ↦
      rw none_there (λ i lt. let no : ⊥ = omega (arith, (==_iff _ _).0 none_there) in elim no [ ])
  | inr some_there ↦
      let start : add32 s.next 1 ≡ s.next + 1 = omega arith in
      rw (some_there, start)
        (Tried-Spilled committed alloc s.shards (s.next + 1) _ (
          try_from-Tried committed alloc s.shards (s.next + 1) (length s.shards) 0
            (omega (arith, ==_false _ _ some_there)) (omega arith)))
]

-- With three shards, the default, the call after 2 ^ 31 - 1 earlier ones reads a handle in front of
-- the array, whatever the state of the shards is: the counter has become negative.
pub proxy_heap_alloc-wraps :
    (committed : ℕ → Bool) (alloc : ℕ → Option ℕ) (s : Shards)
    → length s.shards ≡ 3
    → s.next ≡ 2 ^ 31 - 1
    → (proxy_heap_alloc committed alloc s).0 ≡ out_of_bounds
unfolding proxy_heap_alloc try_from pick_index
proxy_heap_alloc-wraps committed alloc s three at = rw (three, at, try_from, three) refl
