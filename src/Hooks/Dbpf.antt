-- ===== src/Hooks/Dbpf.antt =====
-- WorkingHooks.cpp: `ScanDbpfIndex` over a mapped package, with its SEH guard, and
-- `ProbeScriptAssembly`. A view is the list of the bytes that can be read from its base on: a read
-- behind them raises, which is `none`. What the C runtime answers is an argument, as in
-- ScriptScanDedup.
pub mod Index
pub mod Tally
pub mod Probe
use ts3vasmanager.MemoryManager.Proxy.Records.{slots}
use ts3vasmanager.MapViewTypeTracker.Types.{DbpfTypeStats}
use ts3vasmanager.ScriptScanDedup.{key_from_base_name_a, mark_once}
use ts3vasmanager.Prelude.{
  ℕ, zero, suc, Bool, false, not, Option, none, some, List, [], ltb, leb, add32, add64, ◌+◌, ◌-◌,
  ◌*◌, ◌/◌, ◌^◌, ◌||◌, ◌∷◌, ◌==◌, if◌then◌else◌,
}

unfoldable pub read8 : List ℕ → ℕ → Option ℕ
read8 [] i = none
read8 (b ∷ bs) zero = some b
read8 (b ∷ bs) (suc i) = read8 bs i

-- A little-endian `uint32_t`.
unfoldable pub read32 : List ℕ → ℕ → Option ℕ
read32 bytes i = elim (read8 bytes i) [
  | none ↦ none
  | some b₀ ↦ elim (read8 bytes (i + 1)) [
    | none ↦ none
    | some b₁ ↦ elim (read8 bytes (i + 2)) [
      | none ↦ none
      | some b₂ ↦ elim (read8 bytes (i + 3)) [
        | none ↦ none
        | some b₃ ↦ some (b₀ + b₁ * 2 ^ 8 + b₂ * 2 ^ 16 + b₃ * 2 ^ 24)
      ]
    ]
  ]
]

-- The sizes of the two packed structures, and the offsets of the fields that are read.
abbrev pub header_size : ℕ
header_size = 64

abbrev pub entry_size : ℕ
entry_size = 32

abbrev pub dbpf_magic : ℕ
dbpf_magic = 0x46504244

-- The statistics of one entry: in the slot of its type, in a new one, or nowhere when all `left`
-- slots are taken.
unfoldable pub add_entry : ℕ → ℕ → ℕ → List DbpfTypeStats → List DbpfTypeStats
add_entry t s left [] =
    if left == 0
    then []
    else record { type_id = t; entry_count = add32 0 1; total_mem_bytes = add64 0 s } ∷ []
add_entry t s left (x ∷ xs) =
    let rest = add_entry t s (left - 1) xs in
    if x.type_id == t
    then record x {
      entry_count = add32 x.entry_count 1;
      total_mem_bytes = add64 x.total_mem_bytes s;
    }
      ∷ xs
    else x ∷ rest

-- The loop over the entries that are left, from entry i on.
unfoldable pub scan_entries :
    List ℕ → ℕ → ℕ → ℕ → ℕ → List DbpfTypeStats → Option (List DbpfTypeStats)
scan_entries bytes offset cap zero i stats = some stats
scan_entries bytes offset cap (suc left) i stats = elim (read32 bytes (offset + i * entry_size)) [
  | none ↦ none
  | some t ↦ elim (read32 bytes (offset + i * entry_size + 24)) [
    | none ↦ none
    | some s ↦ scan_entries bytes offset cap left (i + 1) (add_entry t s cap stats)
  ]
]

-- The part behind the header's checks.
unfoldable pub scan_index : List ℕ → ℕ → ℕ → ℕ → ℕ → Option (List DbpfTypeStats)
scan_index bytes size cap offset count =
    let most = (size - offset) / entry_size in
    if offset == 0 || count == 0 || leb size offset
    then some []
    else scan_entries bytes offset cap (if ltb most count then most else count) 0 []

-- `ScanDbpfIndex` on a view and an output that are not null: the statistics of the types.
unfoldable pub scan_dbpf_index : List ℕ → ℕ → ℕ → Option (List DbpfTypeStats)
scan_dbpf_index bytes size cap =
    if cap == 0 || ltb size header_size then some [] else elim (read32 bytes 0) [
      | none ↦ none
      | some magic ↦ elim (read32 bytes 4) [
        | none ↦ none
        | some major ↦
            if not (magic == dbpf_magic) || not (major == 2)
            then some []
            else elim (read32 bytes 60) [
              | none ↦ none
              | some offset ↦ elim (read32 bytes 36) [
                | none ↦ none
                | some count ↦ scan_index bytes size cap offset count
              ]
            ]
      ]
    ]

-- `SafeScanDbpfIndex`: a fault counts as no types.
unfoldable pub safe_scan_dbpf_index : List ℕ → ℕ → ℕ → List DbpfTypeStats
safe_scan_dbpf_index bytes size cap = elim (scan_dbpf_index bytes size cap) [
  | none ↦ []
  | some stats ↦ stats
]

abbrev pub type_script : ℕ
type_script = 0x0175e5cd

abbrev pub type_script_sym : ℕ
type_script_sym = 0x0175e5d9

abbrev pub type_s3sa_mod : ℕ
type_s3sa_mod = 0x073faa07

abbrev pub type_xml : ℕ
type_xml = 0x0333406c

unfoldable pub type_stats_have_script : List DbpfTypeStats → Bool
type_stats_have_script [] = false
type_stats_have_script (x ∷ xs) =
    x.type_id == type_script
    || (x.type_id == type_script_sym || (x.type_id == type_s3sa_mod || type_stats_have_script xs))

-- The tallies of one package.
pub record Scripts : Type 0 where
  pub scr_count : ℕ
  pub sym_count : ℕ
  pub mod_count : ℕ
  pub xml_count : ℕ
  pub scr_bytes : ℕ
  pub xml_bytes : ℕ

unfoldable pub add_scripts : DbpfTypeStats → Scripts → Scripts
add_scripts x r =
    if x.type_id == type_script
    then record r {
      scr_count = add32 r.scr_count x.entry_count;
      scr_bytes = add64 r.scr_bytes x.total_mem_bytes;
    }
    else if x.type_id == type_script_sym
    then record r { sym_count = add32 r.sym_count x.entry_count }
    else if x.type_id == type_s3sa_mod
    then record r {
      mod_count = add32 r.mod_count x.entry_count;
      scr_bytes = add64 r.scr_bytes x.total_mem_bytes;
    }
    else if x.type_id == type_xml
    then record r {
      xml_count = add32 r.xml_count x.entry_count;
      xml_bytes = add64 r.xml_bytes x.total_mem_bytes;
    }
    else r

unfoldable pub tally_scripts : List DbpfTypeStats → Scripts → Scripts
tally_scripts [] r = r
tally_scripts (x ∷ xs) r = tally_scripts xs (add_scripts x r)

abbrev pub no_scripts : Scripts
no_scripts = record {
  scr_count = 0;
  sym_count = 0;
  mod_count = 0;
  xml_count = 0;
  scr_bytes = 0;
  xml_bytes = 0;
}

-- `ProbeScriptAssembly`: what it reports, if it does, and the table of packages that were seen. The
-- package's base name is `none` when the view has no name. `race` is as in `mark_once`.
unfoldable pub probe_script_assembly :
    (ℕ → ℕ) → (ℕ → ℕ) → Option (List ℕ) → List DbpfTypeStats → (ℕ → ℕ) → Option Scripts × (ℕ → ℕ)
probe_script_assembly tolower race none stats slots =
    if type_stats_have_script stats
    then (some (tally_scripts stats no_scripts), slots)
    else (none, slots)
probe_script_assembly tolower race (some base) stats slots =
    let seen = mark_once race (key_from_base_name_a tolower base) slots in
    if type_stats_have_script stats
    then (if seen.0 then (none, seen.1) else (some (tally_scripts stats no_scripts), seen.1))
    else (none, slots)
