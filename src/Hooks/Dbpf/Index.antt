-- ===== src/Hooks/Dbpf/Index.antt =====
-- Where the scan of an index reads.
use ts3vasmanager.Hooks.Dbpf.{
  read8, read32, entry_size, header_size, add_entry, scan_entries, scan_index, scan_dbpf_index,
}
use ts3vasmanager.MapViewTypeTracker.Types.{DbpfTypeStats}
use ts3vasmanager.Prelude.{
  ℕ, zero, suc, refl, inl, inr, not, some, List, [], arith, ltb, leb, Bool-cases, length, ◌+◌, ◌-◌,
  ◌*◌, ◌/◌, ◌≤◌, ◌<◌, ◌≡◌, ◌||◌, ◌∷◌, ◌==◌, if◌then◌else◌,
}

-- A byte of the view can be read.
read8-some : (bytes : List ℕ) (i : ℕ) → i < length bytes → (b : ℕ) × (read8 bytes i ≡ some b)
unfolding read8
read8-some [] i h = let no : ⊥ = omega arith in elim no [ ]
read8-some (b ∷ bs) zero h = (b, refl)
read8-some (b ∷ bs) (suc i) h = read8-some bs i (omega arith)

pub read32-some :
    (bytes : List ℕ) (i : ℕ) → i + 4 ≤ length bytes → (w : ℕ) × (read32 bytes i ≡ some w)
unfolding read32
read32-some bytes i h =
    let (b₀, e₀) = read8-some bytes i (omega arith) in
    let (b₁, e₁) = read8-some bytes (i + 1) (omega arith) in
    let (b₂, e₂) = read8-some bytes (i + 2) (omega arith) in
    let (b₃, e₃) = read8-some bytes (i + 3) (omega arith) in rw (e₀, e₁, e₂, e₃, read32) (_, refl)

scan_entries-some :
    (bytes : List ℕ) (offset room n i : ℕ) (stats : List DbpfTypeStats)
    → offset + (i + n) * entry_size ≤ length bytes
    → (out : List DbpfTypeStats) × (scan_entries bytes offset room n i stats ≡ some out)
unfolding scan_entries
scan_entries-some bytes offset room zero i stats h = (stats, refl)
scan_entries-some bytes offset room (suc n) i stats h =
    let (t, et) = read32-some bytes (offset + i * entry_size) (omega arith) in
    let (s, es) = read32-some bytes (offset + i * entry_size + 24) (omega arith) in
    rw (et, es, scan_entries)
      (scan_entries-some bytes offset room n (i + 1) (add_entry t s room stats) (omega arith))

scan_index-some :
    (bytes : List ℕ) (size room offset count : ℕ)
    → size ≤ length bytes
    → (out : List DbpfTypeStats) × (scan_index bytes size room offset count ≡ some out)
unfolding scan_index
scan_index-some bytes size room offset count h =
    elim (Bool-cases (offset == 0 || count == 0 || leb size offset)) [
      | inl stop ↦ rw stop ([], refl)
      | inr go ↦ rw go (
          scan_entries-some bytes offset room
            (if ltb ((size - offset) / entry_size) count
              then (size - offset) / entry_size
              else count)
            0 [] (ground arith))
    ]

-- Whatever the header and the index of a package say, `ScanDbpfIndex` of a view whose bytes can all
-- be read reads no byte behind the view, so that it does not fault.
pub scan_dbpf_index-some :
    (bytes : List ℕ) (size room : ℕ)
    → size ≤ length bytes
    → (out : List DbpfTypeStats) × (scan_dbpf_index bytes size room ≡ some out)
unfolding scan_dbpf_index
scan_dbpf_index-some bytes size room h = elim (Bool-cases (room == 0 || ltb size header_size)) [
  | inl stop ↦ rw stop ([], refl)
  | inr go ↦
      let big : 64 ≤ size = ground arith in
      let (magic, em) = read32-some bytes 0 (omega arith) in
      let (major, ej) = read32-some bytes 4 (omega arith) in
      elim (Bool-cases (not (magic == 0x46504244) || not (major == 2))) [
        | inl other ↦ rw (go, em, ej, other) ([], refl)
        | inr dbpf ↦
            let (offset, eo) = read32-some bytes 60 (omega arith) in
            let (count, ec) = read32-some bytes 36 (omega arith) in
            rw (go, em, ej, dbpf, eo, ec) (scan_index-some bytes size room offset count h)
      ]
]
