-- ===== src/ScriptScanDedup.antt =====
-- ScriptScanDedup.cpp: the keys of package names and the set of keys that were seen. The C
-- runtime's `tolower` and `towlower` are parameters. The table is a function from its indices; what
-- another thread stores in a slot between the two interlocked operations of a probe is `race`.
pub mod Keys
pub mod Once
use ts3vasmanager.MapViewTypeTracker.Types.{probe}
use ts3vasmanager.MemoryManager.Proxy.Records.{slots}
use ts3vasmanager.Prelude.{
  ℕ, zero, suc, bit_and, bit_xor, Bool, true, false, List, [], ◌+◌, ◌*◌, ◌%◌, ◌^◌, ◌∷◌, ◌==◌,
  if◌then◌else◌,
}

unfoldable pub fnv1a64_byte : ℕ → ℕ → ℕ
fnv1a64_byte h c = (bit_xor h c * 1099511628211) % 2 ^ 64

abbrev pub fnv_basis : ℕ
fnv_basis = 14695981039346656037

-- The loops over a name, a list of its bytes or of its code units.
unfoldable pub hash_a : (ℕ → ℕ) → ℕ → List ℕ → ℕ
hash_a tolower h [] = h
hash_a tolower h (c ∷ cs) = hash_a tolower (fnv1a64_byte h (tolower c % 2 ^ 8)) cs

unfoldable pub hash_w : (ℕ → ℕ) → ℕ → List ℕ → ℕ
hash_w towlower h [] = h
hash_w towlower h (c ∷ cs) = hash_w towlower (fnv1a64_byte h (bit_and (towlower c % 2 ^ 16) 255)) cs

unfoldable pub key_from_base_name_a : (ℕ → ℕ) → List ℕ → ℕ
key_from_base_name_a tolower [] = 0
key_from_base_name_a tolower (c ∷ cs) = hash_a tolower fnv_basis (c ∷ cs)

unfoldable pub key_from_base_name_w : (ℕ → ℕ) → List ℕ → ℕ
key_from_base_name_w towlower [] = 0
key_from_base_name_w towlower (c ∷ cs) = hash_w towlower fnv_basis (c ∷ cs)

abbrev pub slot_count : ℕ
slot_count = 16384

unfoldable pub store : ℕ → ℕ → (ℕ → ℕ) → ℕ → ℕ
store i v slots j = if j == i then v else slots j

unfoldable pub slot_index : ℕ → ℕ → ℕ
slot_index key probe = (key % slot_count + probe) % slot_count

-- The probes that are left, and the number of the next one. The interlocked exchange gives the value
-- that it finds, `race probe`, and stores the key over 0.
unfoldable pub mark_from : ℕ → (ℕ → ℕ) → ℕ → ℕ → (ℕ → ℕ) → Bool × (ℕ → ℕ)
mark_from key race zero probe slots = (false, slots)
mark_from key race (suc left) probe slots =
    let idx = slot_index key probe in
    let passed = mark_from key race left (probe + 1) slots in
    let lost = mark_from key race left (probe + 1) (store idx (race probe) slots) in
    if slots idx == key
    then (true, slots)
    else (if slots idx == 0
        then (if race probe == 0
            then (false, store idx key slots)
            else (if race probe == key then (true, store idx (race probe) slots) else lost))
        else passed)

-- `MarkOnce`
unfoldable pub mark_once : (ℕ → ℕ) → ℕ → (ℕ → ℕ) → Bool × (ℕ → ℕ)
mark_once race key slots =
    if key == 0 then mark_from 1 race 64 0 slots else mark_from key race 64 0 slots
