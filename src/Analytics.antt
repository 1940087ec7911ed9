-- ===== src/Analytics.antt =====
-- Analytics.h and Analytics.cpp: the counters, their table of names and the per-thread cache of ids.
-- The timings have a table of names of the same shape; the clock and the reports are not modelled.
pub mod Sums
use mathlib.Core.Option
use ts3vasmanager.Prelude.{
  ℕ, zero, suc, bit_xor, Bool, true, false, Option, none, some, List, [], map, leb, length, get_or,
  set, add64, ◌+◌, ◌*◌, ◌%◌, ◌^◌, ◌&&◌, ◌∷◌, ◌++◌, ◌==◌, if◌then◌else◌,
}

pub record CacheEntry : Type 0 where
  pub name : List ℕ
  pub hash : ℕ
  pub id : ℕ
  pub valid : Bool

-- What one thread has: whether it has thread-local storage, and its cache of counter ids.
pub record ThreadCache : Type 0 where
  pub has_tls : Bool
  pub entries : List CacheEntry
  pub cursor : ℕ

pub record Counters : Type 0 where
  pub names : List (List ℕ)
  pub values : List ℕ

-- An id; -1; or the invalid-parameter handler of `strcpy_s`, for a name of 64 bytes or more.
pub data Interned : Type 0 where
  known : ℕ → Interned
  refused invalid_parameter : Interned

abbrev pub name_id_cache_slots : ℕ
name_id_cache_slots = 64

abbrev pub max_name_len : ℕ
max_name_len = 63

abbrev pub max_analytics_items : ℕ
max_analytics_items = 512

abbrev pub no_entry : CacheEntry
no_entry = record { name = []; hash = 0; id = 0; valid = false }

-- `strcmp(a, b) == 0`
unfoldable pub same_chars : List ℕ → List ℕ → Bool
same_chars [] [] = true
same_chars [] (d ∷ ds) = false
same_chars (c ∷ cs) [] = false
same_chars (c ∷ cs) (d ∷ ds) = (c == d) && same_chars cs ds

unfoldable pub hash_upto : ℕ → ℕ → List ℕ → ℕ
hash_upto zero h cs = h
hash_upto (suc n) h [] = h
hash_upto (suc n) h (c ∷ cs) = hash_upto n ((bit_xor h c * 16777619) % 2 ^ 32) cs

unfoldable pub fast_name_hash : List ℕ → ℕ
fast_name_hash name = hash_upto max_name_len 2166136261 name

unfoldable pub first_chars : ℕ → List ℕ → List ℕ
first_chars zero cs = []
first_chars (suc n) [] = []
first_chars (suc n) (c ∷ cs) = c ∷ first_chars n cs

unfoldable pub lookup_entries : List ℕ → ℕ → List CacheEntry → Option ℕ
lookup_entries name hash [] = none
lookup_entries name hash (e ∷ es) =
    if e.valid && (e.hash == hash) && same_chars e.name name
    then some e.id
    else lookup_entries name hash es

-- `LookupThreadLocalId`, on a thread that has the cache.
unfoldable pub lookup_thread_local_id : List ℕ → ThreadCache → Option ℕ
lookup_thread_local_id name t =
    if t.has_tls then lookup_entries name (fast_name_hash name) t.entries else none

-- `StoreThreadLocalId`
unfoldable pub store_thread_local_id : List ℕ → ℕ → ThreadCache → ThreadCache
store_thread_local_id name id t =
    let kept = first_chars max_name_len name in
    if t.has_tls
    then record t {
      entries =
          set t.entries t.cursor
            (record { name = kept; hash = fast_name_hash kept; id = id; valid = true });
      cursor = (t.cursor + 1) % name_id_cache_slots;
    }
    else t

-- `FindCounterIdNoLock`
unfoldable pub find_counter_id : List ℕ → List (List ℕ) → Option ℕ
find_counter_id name [] = none
find_counter_id name (n ∷ ns) =
    let rest = Option.map (λ i. i + 1) (find_counter_id name ns) in
    if same_chars n name then some 0 else rest

-- The new name at the end of the table, with its counter at 0.
unfoldable pub add_name : List ℕ → Counters → Interned × Counters
add_name name c =
    if leb max_analytics_items (length c.names)
    then (refused, c)
    else (if leb 64 (length name) then (invalid_parameter, c) else (
      known (length c.names),
      record c { names = c.names ++ (name ∷ []); values = set c.values (length c.names) 0 },
    ))

-- The part under `m_cs`, which searches again.
unfoldable pub intern_locked : List ℕ → Counters → Interned × Counters
intern_locked name c = elim (find_counter_id name c.names) [
  | none ↦ add_name name c
  | some i ↦ (known i, c)
]

unfoldable pub intern : List ℕ → Counters → Interned × Counters
intern name c = elim (find_counter_id name c.names) [
  | none ↦ intern_locked name c
  | some i ↦ (known i, c)
]

-- The cache after an id was found in the table.
unfoldable pub remember : List ℕ → Interned → ThreadCache → ThreadCache
remember name (known i) t = store_thread_local_id name i t
remember name refused t = t
remember name invalid_parameter t = t

-- `GetCounterId`
unfoldable pub get_counter_id : List ℕ → ThreadCache → Counters → Interned × ThreadCache × Counters
get_counter_id [] t c = (refused, t, c)
get_counter_id (b ∷ bs) t c = elim (lookup_thread_local_id (b ∷ bs) t) [
  | some i ↦ (known i, t, c)
  | none ↦ let r = intern (b ∷ bs) c in (r.0, remember (b ∷ bs) r.0 t, r.1)
]

unfoldable pub add_value : ℕ → Interned → Counters → Counters
add_value v (known i) c = record c { values = set c.values i (add64 (get_or c.values i 0) v) }
add_value v refused c = c
add_value v invalid_parameter c = c

-- `IncrementCounter`
unfoldable pub increment_counter : List ℕ → ℕ → ThreadCache → Counters → ThreadCache × Counters
increment_counter name v t c = let r = get_counter_id name t c in (r.1, add_value v r.0 r.2)

unfoldable pub value_at : Option ℕ → Counters → ℕ
value_at none c = 0
value_at (some i) c = get_or c.values i 0

-- `GetCounterValue`
unfoldable pub get_counter_value : List ℕ → Counters → ℕ
get_counter_value name c = value_at (find_counter_id name c.names) c
