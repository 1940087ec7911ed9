-- ===== src/Analytics/Sums.antt =====
-- What a counter reads after an increment.
use ts3vasmanager.Analytics.{
  same_chars, find_counter_id, ThreadCache, Counters, Interned, max_analytics_items, add_value,
  value_at, get_counter_value, known, lookup_thread_local_id, add_name, intern_locked, intern,
  get_counter_id, increment_counter, remember,
}
use mathlib.Core.Option
use ts3vasmanager.Prelude.{
  ℕ, refl, Bool, true, false, Option, none, some, List, [], arith, length, ◌+◌, ◌<◌, ◌≡◌, ◌∷◌, ◌++◌,
  if◌then◌else◌, subst, suc, ap, get_or, set, length-set, add64, ◌≤◌, ◌∙◌, get_or-set_self, inl,
  inr, leb, Option-cases,
}

same_chars_self : (cs : List ℕ) → same_chars cs cs ≡ true
unfolding same_chars
same_chars_self [] = refl
same_chars_self (c ∷ cs) = ground (arith, same_chars_self cs)

abbrev BoundedBy : ℕ → Option ℕ → Type 0
BoundedBy n none = Unit
BoundedBy n (some i) = i < n

module _ (name : List ℕ) where
  bounded-step :
      (b : Bool) (n : ℕ) (o : Option ℕ)
      → BoundedBy n o
      → BoundedBy (suc n) (if b then some 0 else Option.map (λ i. i + 1) o)
  bounded-step true n o h = omega arith
  bounded-step false n none h = tt
  bounded-step false n (some i) h = omega arith

  find-BoundedBy : (ns : List (List ℕ)) → BoundedBy (length ns) (find_counter_id name ns)
  unfolding find_counter_id
  find-BoundedBy [] = tt
  find-BoundedBy (n ∷ ns) =
      bounded-step (same_chars n name) (length ns) (find_counter_id name ns) (find-BoundedBy ns)

  append-step :
      (b : Bool) (o o' : Option ℕ) (n : ℕ)
      → (if b then some 0 else Option.map (λ i. i + 1) o) ≡ none
      → (o ≡ none → o' ≡ some n)
      → (if b then some 0 else Option.map (λ i. i + 1) o') ≡ some (suc n)
  append-step true o o' n e ih = cc
  append-step false (some i) o' n e ih = cc
  append-step false none o' n e ih =
      let next : n + 1 ≡ suc n = omega arith in
      ap (Option.map (λ i. i + 1)) (ih refl) ∙ ap some next

  find-append :
      (ns : List (List ℕ))
      → find_counter_id name ns ≡ none
      → find_counter_id name (ns ++ (name ∷ [])) ≡ some (length ns)
  unfolding find_counter_id
  find-append [] e = rw (same_chars_self name) refl
  find-append (n ∷ ns) e =
      append-step (same_chars n name) (find_counter_id name ns)
        (find_counter_id name (ns ++ (name ∷ []))) (length ns) e (find-append ns)

-- The ids of the table are indices of the array of counters.
abbrev pub IsTable : Counters → Type 0
IsTable c = (length c.names ≤ max_analytics_items) × (length c.values ≡ max_analytics_items)

-- A value that is added at an id reads back with it.
known-reads :
    (name : List ℕ) (v i : ℕ) (c : Counters)
    → find_counter_id name c.names ≡ some i
    → i < length c.values
    → get_counter_value name (add_value v (known i) c) ≡ add64 (get_or c.values i 0) v
unfolding get_counter_value value_at add_value
known-reads name v i c e h = rw e (get_or-set_self c.values i (add64 (get_or c.values i 0) v) 0 h)

module _ (b : ℕ) (bs : List ℕ) (v : ℕ) (t : ThreadCache) (c : Counters) (ok : IsTable c) where
  abbrev Reads : Interned × ThreadCache × Counters → Type 0
  Reads r =
      get_counter_value (b ∷ bs) (add_value v r.0 r.2) ≡ add64 (get_counter_value (b ∷ bs) c) v

  hit-Reads :
      (i : ℕ) (u : ThreadCache) → find_counter_id (b ∷ bs) c.names ≡ some i → Reads (known i, u, c)
  unfolding get_counter_value value_at
  hit-Reads i u e =
      let low : i < length c.names =
        subst (BoundedBy (length c.names)) e (find-BoundedBy (b ∷ bs) c.names) in
      known-reads (b ∷ bs) v i c e (omega (arith, low, ok.0, ok.1)) ∙ rw e refl

  new-Reads :
      (u : ThreadCache)
      → find_counter_id (b ∷ bs) c.names ≡ none
      → length c.names < max_analytics_items
      → Reads (
        known (length c.names),
        u,
        record c { names = c.names ++ ((b ∷ bs) ∷ []); values = set c.values (length c.names) 0 },
      )
  unfolding get_counter_value value_at
  new-Reads u e room =
      let n = length c.names in
      let inside : n < length c.values = omega (arith, room, ok.1) in
      let wide = length-set c.values n 0 in
      known-reads (b ∷ bs) v n
        (record c { names = c.names ++ ((b ∷ bs) ∷ []); values = set c.values n 0 })
        (find-append (b ∷ bs) c.names e) (omega (arith, inside, wide))
      ∙ rw (get_or-set_self c.values n 0 0 inside, e) refl

  intern-known :
      (i : ℕ) → find_counter_id (b ∷ bs) c.names ≡ some i → intern (b ∷ bs) c ≡ (known i, c)
  unfolding intern
  intern-known i e = ap (λ o. elim o [ none ↦ intern_locked (b ∷ bs) c | some j ↦ (known j, c) ]) e

  intern-new :
      find_counter_id (b ∷ bs) c.names ≡ none
      → length c.names < max_analytics_items
      → length (b ∷ bs) < 64
      → intern (b ∷ bs) c ≡ (
        known (length c.names),
        record c { names = c.names ++ ((b ∷ bs) ∷ []); values = set c.values (length c.names) 0 },
      )
  unfolding intern intern_locked add_name
  intern-new e room short =
      let full : leb max_analytics_items (length c.names) ≡ false = ground arith in
      let long : leb 64 (length (b ∷ bs)) ≡ false = ground arith in
      let locked : intern_locked (b ∷ bs) c ≡ add_name (b ∷ bs) c =
        ap (λ o. elim o [ none ↦ add_name (b ∷ bs) c | some j ↦ (known j, c) ]) e in
      ap (λ o. elim o [ none ↦ intern_locked (b ∷ bs) c | some j ↦ (known j, c) ]) e
      ∙ locked
      ∙ rw (full, long) refl

  get_counter_id-Reads :
      ((i : ℕ)
        → lookup_thread_local_id (b ∷ bs) t ≡ some i
        → find_counter_id (b ∷ bs) c.names ≡ some i)
      → length (b ∷ bs) < 64
      → length c.names < max_analytics_items
      → Reads (get_counter_id (b ∷ bs) t c)
  unfolding get_counter_id
  get_counter_id-Reads coherent short room =
      elim (Option-cases (lookup_thread_local_id (b ∷ bs) t)) [
        | inr (i, e) ↦ rw (e, get_counter_id) (hit-Reads i t (coherent i e))
        | inl miss ↦ elim (Option-cases (find_counter_id (b ∷ bs) c.names)) [
          | inr (i, e) ↦
              rw (miss, get_counter_id, intern-known i e)
                (hit-Reads i (remember (b ∷ bs) (known i) t) e)
          | inl e ↦
              rw (miss, get_counter_id, intern-new e room short)
                (new-Reads (remember (b ∷ bs) (known (length c.names)) t) e room)
        ]
      ]

  -- While the table of names has room, for a name of 1 to 63 bytes, on a thread with or without a
  -- cache whose answer for the name, if it has one, is the table's: after `IncrementCounter` the
  -- counter of the name reads the value added to what it read before, as a 64-bit word, and 0 counts
  -- as the value of a name that was not in the table.
  pub increment_counter-reads :
      ((i : ℕ)
        → lookup_thread_local_id (b ∷ bs) t ≡ some i
        → find_counter_id (b ∷ bs) c.names ≡ some i)
      → length (b ∷ bs) < 64
      → length c.names < max_analytics_items
      → get_counter_value (b ∷ bs) (increment_counter (b ∷ bs) v t c).1
        ≡ add64 (get_counter_value (b ∷ bs) c) v
  unfolding increment_counter
  increment_counter-reads = get_counter_id-Reads
