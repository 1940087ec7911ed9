-- ===== src/MapViewTypeTracker/Types.antt =====
-- The per-type table: `FindOrInsertType` and `RecordDbpfTypes`. The table is 256 slots, type 0 being
-- empty. `RecordDbpfTypes` runs under `m_cs`.
pub mod Totals
use ts3vasmanager.Prelude.{
  bit_xor, ℕ, zero, suc, bit_and, Option, none, some, List, [], get_or, set, replicate, add64, ◌+◌,
  ◌-◌, ◌/◌, ◌^◌, ◌∷◌, ◌==◌, if◌then◌else◌,
}

pub record DbpfTypeStats : Type 0 where
  pub type_id : ℕ
  pub entry_count : ℕ
  pub total_mem_bytes : ℕ

pub record TypeSlot : Type 0 where
  pub type_id : ℕ
  pub entry_count : ℕ
  pub total_bytes : ℕ
  pub view_count : ℕ

abbrev pub type_table_cap : ℕ
type_table_cap = 256

abbrev pub no_slot : TypeSlot
no_slot = record { type_id = 0; entry_count = 0; total_bytes = 0; view_count = 0 }

abbrev pub slot_at : List TypeSlot → ℕ → TypeSlot
slot_at table i = get_or table i no_slot

unfoldable pub new_type_table : List TypeSlot
new_type_table = replicate type_table_cap no_slot

-- `(typeId ^ (typeId >> 16)) & (kTypeTableCap - 1)`
unfoldable pub home : ℕ → ℕ
home id = bit_and (bit_xor id (id / 2 ^ 16)) (type_table_cap - 1)

unfoldable pub probe_slot : ℕ → ℕ → ℕ
probe_slot idx k = bit_and (idx + k) (type_table_cap - 1)

-- Where the linear probe ends.
pub data Probe : Type 0 where
  hit vacant : ℕ → Probe
  full : Probe

unfoldable pub probe_from : List TypeSlot → ℕ → ℕ → ℕ → ℕ → Probe
probe_from table id idx zero k = full
probe_from table id idx (suc left) k =
    let s = probe_slot idx k in
    let rest = probe_from table id idx left (k + 1) in
    if (slot_at table s).type_id == id
    then hit s
    else (if (slot_at table s).type_id == 0 then vacant s else rest)

unfoldable pub probe : List TypeSlot → ℕ → Probe
unfolding probe_from
probe table id = probe_from table id (home id) type_table_cap 0

-- `FindOrInsertType`: the index of the slot, and the table with the new entry in it.
unfoldable pub settle : List TypeSlot → ℕ → Probe → Option ℕ × List TypeSlot
settle table id (hit s) = (some s, table)
settle table id (vacant s) = (
  some s,
  set table s (record { type_id = id; entry_count = 0; total_bytes = 0; view_count = 0 }),
)
settle table id full = (none, table)

unfoldable pub find_or_insert_type : ℕ → List TypeSlot → Option ℕ × List TypeSlot
unfolding settle
find_or_insert_type id table = if id == 0 then (none, table) else settle table id (probe table id)

-- The three interlocked updates of one slot.
unfoldable pub add_stats : DbpfTypeStats → TypeSlot → TypeSlot
add_stats st slot = record slot {
  entry_count = add64 slot.entry_count st.entry_count;
  total_bytes = add64 slot.total_bytes st.total_mem_bytes;
  view_count = add64 slot.view_count 1;
}

unfoldable pub record_settled : DbpfTypeStats → Option ℕ × List TypeSlot → List TypeSlot
unfolding add_stats
record_settled st (none, table) = table
record_settled st (some s, table) = set table s (add_stats st (slot_at table s))

unfoldable pub record_type : DbpfTypeStats → List TypeSlot → List TypeSlot
unfolding record_settled find_or_insert_type
record_type st table = record_settled st (find_or_insert_type st.type_id table)

-- `RecordDbpfTypes`; no statistics leave the table as it is.
unfoldable pub record_dbpf_types : List DbpfTypeStats → List TypeSlot → List TypeSlot
unfolding record_type
record_dbpf_types [] table = table
record_dbpf_types (st ∷ sts) table = record_dbpf_types sts (record_type st table)
