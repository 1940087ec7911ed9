-- ===== src/Hooks/HeapUse.antt =====
-- WorkingHooks.cpp: the table of the heaps that the game allocates from: `RecordHeapUse` and
-- `HeapIsSardineExcluded`, with the last slot that the thread used. The table is ready, and its
-- lookup is the same outside and inside the lock. The module of the first caller of a heap is a
-- list of at most 39 characters, empty when it is not known.
pub mod Counts
use ts3vasmanager.Hooks.Modules.{is_corral_module, is_graphics_module, is_audio_module}
use ts3vasmanager.Prelude.{
  ℕ, Bool, false, Option, none, some, List, [], ltb, length, get_or, set, add64, ◌+◌, ◌||◌, ◌∷◌,
  ◌++◌, ◌==◌, if◌then◌else◌,
}

pub record HeapUseRec : Type 0 where
  pub handle : ℕ
  pub count : ℕ
  pub bytes : ℕ
  pub caller : List ℕ
  pub corral_target : Bool
  pub sardine_exclude : Bool

-- The table, and the thread's last heap with its slot.
pub record HeapUse : Type 0 where
  pub table : List HeapUseRec
  pub last_handle : ℕ
  pub last_slot : Option ℕ

abbrev pub heap_use_max : ℕ
heap_use_max = 128

abbrev pub no_heap : HeapUseRec
no_heap = record {
  handle = 0;
  count = 0;
  bytes = 0;
  caller = [];
  corral_target = false;
  sardine_exclude = false;
}

abbrev pub no_use : HeapUse
no_use = record { table = []; last_handle = 0; last_slot = none }

unfoldable pub find_heap : ℕ → List HeapUseRec → Option ℕ
find_heap h [] = none
find_heap h (r ∷ rs) =
    let rest = find_heap h rs in
    if r.handle == h then some 0 else elim rest [ none ↦ none | some i ↦ some (i + 1) ]

-- The two interlocked updates of a slot.
unfoldable pub bump_heap : ℕ → HeapUseRec → HeapUseRec
bump_heap size r = record r { count = add64 r.count 1; bytes = add64 r.bytes size }

unfoldable pub use_slot : ℕ → ℕ → ℕ → HeapUse → Bool × HeapUse
use_slot h size i u = (
  (get_or u.table i no_heap).corral_target,
  record {
    table = set u.table i (bump_heap size (get_or u.table i no_heap));
    last_handle = h;
    last_slot = some i;
  },
)

-- The record of a heap that is seen first.
unfoldable pub new_heap : ℕ → List ℕ → HeapUseRec
new_heap h [] = record {
  handle = h;
  count = 0;
  bytes = 0;
  caller = 60 ∷ 63 ∷ 62 ∷ [];
  corral_target = is_corral_module (60 ∷ 63 ∷ 62 ∷ []);
  sardine_exclude = is_graphics_module (60 ∷ 63 ∷ 62 ∷ []) || is_audio_module (60 ∷ 63 ∷ 62 ∷ []);
}
new_heap h (c ∷ cs) = record {
  handle = h;
  count = 0;
  bytes = 0;
  caller = c ∷ cs;
  corral_target = is_corral_module (c ∷ cs);
  sardine_exclude = is_graphics_module (c ∷ cs) || is_audio_module (c ∷ cs);
}

unfoldable pub insert_heap : ℕ → ℕ → List ℕ → HeapUse → Bool × HeapUse
insert_heap h size caller u =
    if ltb (length u.table) heap_use_max
    then use_slot h size (length u.table) (record u { table = u.table ++ (new_heap h caller ∷ []) })
    else (false, u)

unfoldable pub scan_heaps : ℕ → ℕ → List ℕ → HeapUse → Option ℕ → Bool × HeapUse
scan_heaps h size caller u none = insert_heap h size caller u
scan_heaps h size caller u (some i) = use_slot h size i u

-- The thread's slot, if it is the one of this heap.
unfoldable pub cached_slot : ℕ → HeapUse → Option ℕ
cached_slot h u = if h == u.last_handle then u.last_slot else none

unfoldable pub record_cached : ℕ → ℕ → List ℕ → HeapUse → Option ℕ → Bool × HeapUse
record_cached h size caller u none = scan_heaps h size caller u (find_heap h u.table)
record_cached h size caller u (some i) = use_slot h size i u

-- `RecordHeapUse`: whether the heap is a corral target.
unfoldable pub record_heap_use : ℕ → ℕ → List ℕ → HeapUse → Bool × HeapUse
record_heap_use h size caller u =
    if h == 0 then (false, u) else record_cached h size caller u (cached_slot h u)

unfoldable pub excluded_at : Option ℕ → HeapUse → Bool
excluded_at none u = false
excluded_at (some i) u = (get_or u.table i no_heap).sardine_exclude

unfoldable pub either_slot : Option ℕ → Option ℕ → Option ℕ
either_slot none o = o
either_slot (some i) o = some i

-- `HeapIsSardineExcluded`
unfoldable pub heap_is_sardine_excluded : ℕ → HeapUse → Bool
heap_is_sardine_excluded h u =
    if h == 0 then false else excluded_at (either_slot (cached_slot h u) (find_heap h u.table)) u
