-- ===== src/MapViewTypeTracker/Files/Names.antt =====
-- What the file table holds after a view was recorded.
use mathlib.Core.Option
use ts3vasmanager.MapViewTypeTracker.Files.{
  FileSlot, max_files, bump_file, new_file, hit_file, truncate, insert_file, record_file_locked,
  record_file_name,
}
use ts3vasmanager.Prelude.{
  ℕ, refl, Bool, false, Option, none, some, List, [], length, ◌≤◌, ◌≡◌, ◌∷◌, if◌then◌else◌, suc, ap,
  true, ◌<◌, ◌++◌, arith, length-append, lt→ltb, ◌+◌, ◌∙◌, add64,
}

module _ (same_name : List ℕ → List ℕ → Bool) where
  -- No slot matches the name.
  abbrev pub Unmatched : List ℕ → List FileSlot → Type 0
  Unmatched base [] = Unit
  Unmatched base (f ∷ fs) = (same_name f.name base ≡ false) × Unmatched base fs

  -- The views and bytes that the table holds for a name.
  abbrev pub lookup_file : List ℕ → List FileSlot → Option FileSlot
  lookup_file base [] = none
  lookup_file base (f ∷ fs) = if same_name f.name base then some f else lookup_file base fs

  abbrev pub IsFileTable : List FileSlot → Type 0
  IsFileTable fs = length fs ≤ max_files

  -- The views and the bytes of a name after one view more, from what was found for it before.
  abbrev pub views_after : Option FileSlot → ℕ
  views_after none = 1
  views_after (some f) = add64 f.view_count 1

  abbrev pub bytes_after : ℕ → Option FileSlot → ℕ
  bytes_after bytes none = bytes
  bytes_after bytes (some f) = add64 f.total_bytes bytes

  -- The slot that is found for a name afterwards, by its counts.
  abbrev pub IsCounted : List ℕ → ℕ → List FileSlot → List FileSlot → Type 0
  IsCounted base bytes fs gs =
      (g : FileSlot) × (lookup_file base gs ≡ some g)
      × (g.view_count ≡ views_after (lookup_file base fs))
      × (g.total_bytes ≡ bytes_after bytes (lookup_file base fs))

  abbrev Found : List ℕ → ℕ → List FileSlot → Option (List FileSlot) → Type 0
  Found base bytes fs none = Unmatched base fs × (lookup_file base fs ≡ none)
  Found base bytes fs (some gs) = IsCounted base bytes fs gs × (length gs ≡ length fs)

  module _ (base : List ℕ) (bytes : ℕ) (f : FileSlot) (fs : List FileSlot) where
    Found-step :
        (b : Bool) (r : Option (List FileSlot))
        → same_name f.name base ≡ b
        → Found base bytes fs r
        → Found base bytes
            (f ∷ fs)
            (if b then some (bump_file bytes f ∷ fs) else Option.map (λ gs. f ∷ gs) r)
    unfolding bump_file
    Found-step true r q h = ((bump_file bytes f, simp q, simp q, simp q), refl)
    Found-step false none q h = ((q, h.0), rw q (h.1))
    Found-step false (some gs) q ((g, at, views, sum), len) =
        ((g, simp (q, at), simp (q, views), simp (q, sum)), ap suc len)

  hit_file-Found :
      (base : List ℕ) (bytes : ℕ) (fs : List FileSlot)
      → Found base bytes fs (hit_file same_name base bytes fs)
  unfolding hit_file
  hit_file-Found base bytes [] = (tt, refl)
  hit_file-Found base bytes (f ∷ fs) =
      Found-step base bytes f fs (same_name f.name base) (hit_file same_name base bytes fs) refl
        (hit_file-Found base bytes fs)

  lookup-append :
      (base : List ℕ) (g : FileSlot) (fs : List FileSlot)
      → Unmatched base fs
      → same_name g.name base ≡ true
      → lookup_file base (fs ++ (g ∷ [])) ≡ some g
  lookup-append base g [] u q = simp q
  lookup-append base g (f ∷ fs) u q = rw (u.0) (lookup-append base g fs u.1 q)

  -- What a lookup gives after the view was recorded, from what it gave before.
  abbrev pub Recorded : List ℕ → ℕ → List FileSlot → List FileSlot → Type 0
  Recorded base bytes fs gs = IsCounted base bytes fs gs × (length gs ≤ max_files)

  locked-go :
      (base : List ℕ) (bytes : ℕ) (fs : List FileSlot) (r : Option (List FileSlot))
      → same_name (truncate 79 base) base ≡ true
      → length fs < max_files
      → Found base bytes fs r
      → Recorded base bytes fs
          (elim r [ none ↦ insert_file same_name base bytes fs | some gs ↦ gs ])
  unfolding insert_file new_file
  locked-go base bytes fs none q room h =
      rw (lt→ltb (length fs) max_files room, h.1)
        (
          (new_file base bytes, lookup-append base (new_file base bytes) fs h.0 q, refl, refl),
          omega (arith, length-append fs (new_file base bytes ∷ [])),
        )
  locked-go base bytes fs (some gs) q room h = (h.0, omega (arith, h.1))

  locked-Recorded :
      (base : List ℕ) (bytes : ℕ) (fs : List FileSlot)
      → same_name (truncate 79 base) base ≡ true
      → length fs < max_files
      → Recorded base bytes fs (record_file_locked same_name base bytes fs)
  unfolding record_file_locked
  locked-Recorded base bytes fs q room =
      locked-go base bytes fs (hit_file same_name base bytes fs) q room
        (hit_file-Found base bytes fs)

  searched-go :
      (base : List ℕ) (bytes : ℕ) (fs : List FileSlot) (r : Option (List FileSlot))
      → same_name (truncate 79 base) base ≡ true
      → length fs < max_files
      → Found base bytes fs r
      → Recorded base bytes fs
          (elim r [ none ↦ record_file_locked same_name base bytes fs | some gs ↦ gs ])
  searched-go base bytes fs none q room h = locked-Recorded base bytes fs q room
  searched-go base bytes fs (some gs) q room h = (h.0, omega (arith, h.1))

  -- While the table has room, and for a base name that `_stricmp` finds equal to its stored copy
  -- of at most 79 bytes, `RecordFileName` leaves a table of at most 64 files in which the name is
  -- found: with one view more and the bytes added, as 64-bit counters, where it was found before,
  -- and with one view and these bytes where it was not.
  pub record_file_name-Recorded :
      (c : ℕ) (cs : List ℕ) (bytes : ℕ) (fs : List FileSlot)
      → same_name (truncate 79 (c ∷ cs)) (c ∷ cs) ≡ true
      → length fs < max_files
      → Recorded (c ∷ cs) bytes fs (record_file_name same_name (c ∷ cs) bytes fs)
  unfolding record_file_name
  record_file_name-Recorded c cs bytes fs q room =
      searched-go (c ∷ cs) bytes fs (hit_file same_name (c ∷ cs) bytes fs) q room
        (hit_file-Found (c ∷ cs) bytes fs)

  Unmatched-hit :
      (base : List ℕ) (bytes : ℕ) (fs : List FileSlot)
      → Unmatched base fs
      → hit_file same_name base bytes fs ≡ none
  unfolding hit_file
  Unmatched-hit base bytes [] u = refl
  Unmatched-hit base bytes (f ∷ fs) u = rw (u.0, Unmatched-hit base bytes fs u.1) refl

  Unmatched-append :
      (base : List ℕ) (g : FileSlot) (fs : List FileSlot)
      → Unmatched base fs
      → same_name g.name base ≡ false
      → Unmatched base (fs ++ (g ∷ []))
  Unmatched-append base g [] u q = (q, tt)
  Unmatched-append base g (f ∷ fs) u q = (u.0, Unmatched-append base g fs u.1 q)

  record_file_name-miss :
      (c : ℕ) (cs : List ℕ) (bytes : ℕ) (fs : List FileSlot)
      → hit_file same_name (c ∷ cs) bytes fs ≡ none
      → record_file_name same_name (c ∷ cs) bytes fs ≡ insert_file same_name (c ∷ cs) bytes fs
  unfolding record_file_name record_file_locked
  record_file_name-miss c cs bytes fs m =
      let locked : record_file_locked same_name (c ∷ cs) bytes fs
          ≡ insert_file same_name (c ∷ cs) bytes fs =
        ap (λ r. elim r [ none ↦ insert_file same_name (c ∷ cs) bytes fs | some gs ↦ gs ]) m in
      ap (λ r. elim r [ none ↦ record_file_locked same_name (c ∷ cs) bytes fs | some gs ↦ gs ]) m
      ∙ locked

  -- A base name that `_stricmp` tells from its stored copy of at most 79 bytes is never found
  -- again: while the table has room each view of that file takes one more slot, and the name is
  -- still unmatched afterwards.
  pub record_file_name-long :
      (c : ℕ) (cs : List ℕ) (bytes : ℕ) (fs : List FileSlot)
      → same_name (truncate 79 (c ∷ cs)) (c ∷ cs) ≡ false
      → length fs < max_files
      → Unmatched (c ∷ cs) fs
      → (length (record_file_name same_name (c ∷ cs) bytes fs) ≡ length fs + 1)
        × Unmatched (c ∷ cs) (record_file_name same_name (c ∷ cs) bytes fs)
  unfolding new_file insert_file
  record_file_name-long c cs bytes fs q room u =
      rw
        (
          record_file_name-miss c cs bytes fs (Unmatched-hit (c ∷ cs) bytes fs u),
          lt→ltb (length fs) max_files room,
        )
        (
          omega (arith, length-append fs (new_file (c ∷ cs) bytes ∷ [])),
          Unmatched-append (c ∷ cs) (new_file (c ∷ cs) bytes) fs u q,
        )
