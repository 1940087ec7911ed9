-- ===== src/ProxyAllocator/SizeClasses.antt =====
-- ProxyAllocator.cpp: the size-class reuse caches. A cache is a stack of freed blocks of one size;
-- `m_sizeClassCount` is the length of the list of classes, and a class is appended at its end.
pub mod Keeps
pub mod Drain
use ts3vasmanager.Prelude.{
  ℕ, zero, suc, Bool, true, false, Option, none, some, List, [], map, leb, length, ◌+◌, ◌-◌, ◌||◌,
  ◌∷◌, ◌++◌, ◌==◌, if◌then◌else◌,
}
use mathlib.Core.Option
use ts3vasmanager.ProxyAllocator.FreeList.{Block, FreeList, insert_free_sorted_and_coalesce}

pub record SizeClass : Type 0 where
  pub class_size : ℕ
  pub head : List Block
  pub count : ℕ

abbrev pub max_size_classes : ℕ
max_size_classes = 256

abbrev pub max_cached_per_class : ℕ
max_cached_per_class = 16

abbrev pub keep {ℓ} : {A : Type ℓ} → SizeClass → A × List SizeClass → A × List SizeClass
keep c r = (r.0, c ∷ r.1)

-- `PopSizeClass`: the first class of this size that is not empty gives its newest block.
unfoldable pub pop_size_class : ℕ → List SizeClass → Option (Block × List SizeClass)
pop_size_class size [] = none
pop_size_class size (c ∷ cs) =
    let rest = Option.map (keep c) (pop_size_class size cs) in
    elim c.head [
      | [] ↦ rest
      | b ∷ bs ↦
          if c.class_size == size
          then some (b, record c { head = bs; count = c.count - 1 } ∷ cs)
          else rest
    ]

unfoldable pub has_class : ℕ → List SizeClass → Bool
has_class size [] = false
has_class size (c ∷ cs) = c.class_size == size || has_class size cs

-- The part of `PushSizeClass` behind the search: the cap, the node, the push.
pub record Push : Type 0 where
  pub pushed : Bool
  pub nodes : ℕ
  pub classes : List SizeClass

unfoldable pub push_into : Block → ℕ → SizeClass → List SizeClass → Push
push_into b nodes c cs =
    if leb max_cached_per_class c.count
    then record { pushed = false; nodes = nodes; classes = c ∷ cs }
    else elim nodes [
      | zero ↦ record { pushed = false; nodes = 0; classes = c ∷ cs }
      | suc k ↦ record {
        pushed = true;
        nodes = k;
        classes = record c { head = b ∷ c.head; count = c.count + 1 } ∷ cs;
      }
    ]

unfoldable pub push_at : Block → ℕ → List SizeClass → Push
unfolding push_into
push_at b nodes [] = record { pushed = false; nodes = nodes; classes = [] }
push_at b nodes (c ∷ cs) =
    if c.class_size == b.size
    then push_into b nodes c cs
    else (let rest = push_at b nodes cs in record rest { classes = c ∷ rest.classes })

abbrev pub new_class : ℕ → SizeClass
new_class size = record { class_size = size; head = []; count = 0 }

-- `PushSizeClass`: an unknown size opens a class at the end of the table, while there is room.
unfoldable pub push_size_class : Block → ℕ → List SizeClass → Push
unfolding has_class push_at
push_size_class b nodes cs =
    if has_class b.size cs
    then push_at b nodes cs
    else (if leb max_size_classes (length cs)
        then record { pushed = false; nodes = nodes; classes = cs }
        else push_at b nodes (cs ++ new_class b.size ∷ []))

-- `ReclaimCache` moves each cached block to the free list and gives its cache node back. A block for
-- which the pool has no node at that moment is dropped.
pub record Reclaim : Type 0 where
  pub free : FreeList
  pub cached_bytes : ℕ
  pub has_main_arena_free : Bool

unfoldable pub reclaim_block : Block → Reclaim → Reclaim
reclaim_block b r =
    let inserted = (insert_free_sorted_and_coalesce b r.free).1 in
    record {
      free = record inserted { nodes = inserted.nodes + 1 };
      cached_bytes = if leb b.size r.cached_bytes then r.cached_bytes - b.size else r.cached_bytes;
      has_main_arena_free = true;
    }

unfoldable pub reclaim_blocks : List Block → Reclaim → Reclaim
unfolding reclaim_block
reclaim_blocks [] r = r
reclaim_blocks (b ∷ bs) r = reclaim_blocks bs (reclaim_block b r)

unfoldable pub reclaim_classes : List SizeClass → Reclaim → Reclaim
unfolding reclaim_blocks
reclaim_classes [] r = r
reclaim_classes (c ∷ cs) r = reclaim_classes cs (reclaim_blocks c.head r)

unfoldable pub emptied : List SizeClass → List SizeClass
emptied [] = []
emptied (c ∷ cs) = record c { head = []; count = 0 } ∷ emptied cs
