-- ===== src/MapViewTypeTracker/Files.antt =====
-- The per-filename table: `RecordFileName`. Names are lists of bytes without the terminator;
-- `_stricmp(a, b) == 0` of the C runtime is the parameter `same_name`.
pub mod Names
use mathlib.Core.Option
use ts3vasmanager.Prelude.{
  ℕ, zero, suc, Bool, Option, none, some, List, [], ltb, length, add64, ◌∷◌, ◌++◌, if◌then◌else◌,
}

pub record FileSlot : Type 0 where
  pub name : List ℕ
  pub view_count : ℕ
  pub total_bytes : ℕ

abbrev pub max_files : ℕ
max_files = 64

-- `strncpy_s(name, baseName, _TRUNCATE)` into 80 bytes, the last one the terminator.
unfoldable pub truncate : ℕ → List ℕ → List ℕ
truncate zero name = []
truncate (suc n) [] = []
truncate (suc n) (c ∷ cs) = c ∷ truncate n cs

unfoldable pub bump_file : ℕ → FileSlot → FileSlot
bump_file bytes f = record f {
  view_count = add64 f.view_count 1;
  total_bytes = add64 f.total_bytes bytes;
}

unfoldable pub new_file : List ℕ → ℕ → FileSlot
new_file base bytes = record { name = truncate 79 base; view_count = 1; total_bytes = bytes }

module _ (same_name : List ℕ → List ℕ → Bool) where
  -- The search loop: the table with the first match updated.
  unfoldable pub hit_file : List ℕ → ℕ → List FileSlot → Option (List FileSlot)
  hit_file base bytes [] = none
  hit_file base bytes (f ∷ fs) =
      let rest = Option.map (λ gs. f ∷ gs) (hit_file base bytes fs) in
      if same_name f.name base then some (bump_file bytes f ∷ fs) else rest

  unfoldable pub insert_file : List ℕ → ℕ → List FileSlot → List FileSlot
  insert_file base bytes fs =
      if ltb (length fs) max_files then fs ++ (new_file base bytes ∷ []) else fs

  -- The part that runs under `m_cs`.
  unfoldable pub record_file_locked : List ℕ → ℕ → List FileSlot → List FileSlot
  record_file_locked base bytes fs = elim (hit_file base bytes fs) [
    | none ↦ insert_file base bytes fs
    | some gs ↦ gs
  ]

  -- `RecordFileName`: the search without the lock, then the part under it.
  unfoldable pub record_file_name : List ℕ → ℕ → List FileSlot → List FileSlot
  record_file_name [] bytes fs = fs
  record_file_name (c ∷ cs) bytes fs = elim (hit_file (c ∷ cs) bytes fs) [
    | none ↦ record_file_locked (c ∷ cs) bytes fs
    | some gs ↦ gs
  ]
