-- ===== src/Hooks/VatTable.antt =====
-- WorkingHooks.cpp: `VatTrack` and `VatUntrack`, the table of the slots that the hooks of
-- `VirtualAlloc` and `NtAllocateVirtualMemory` handed out. Each runs under `s_vatCS`.
pub mod Abstract
pub mod Refine
pub mod Lookups
use ts3vasmanager.Prelude.{
  ℕ, zero, suc, Option, none, some, List, [], ltb, get_or, set, replicate, ◌+◌, ◌-◌, ◌==◌,
  if◌then◌else◌,
}

abbrev pub vat_max : ℕ
vat_max = 8192

-- `s_vatAddr`, `s_vatSize` and `s_vatCount`.
pub record Vat : Type 0 where
  pub addrs : List ℕ
  pub sizes : List ℕ
  pub count : ℕ

unfoldable pub new_vat : Vat
new_vat = record { addrs = replicate vat_max 0; sizes = replicate vat_max 0; count = 0 }

-- A full table is left as it is.
unfoldable pub vat_track : ℕ → ℕ → Vat → Vat
vat_track addr size t =
    if ltb t.count vat_max
    then record {
      addrs = set t.addrs t.count addr;
      sizes = set t.sizes t.count size;
      count = t.count + 1;
    }
    else t

-- The scan from slot i over the slots that are left.
unfoldable pub find_slot : ℕ → List ℕ → ℕ → ℕ → Option ℕ
find_slot addr addrs zero i = none
find_slot addr addrs (suc left) i =
    let rest = find_slot addr addrs left (i + 1) in
    if get_or addrs i 0 == addr then some i else rest

-- The last slot moves into slot i, and is cleared.
unfoldable pub move_last : ℕ → ℕ → List ℕ → List ℕ
move_last i last xs = set (if i == last then xs else set xs i (get_or xs last 0)) last 0

unfoldable pub untrack_found : ℕ → Vat → Option ℕ → Option ℕ × Vat
untrack_found n t none = (none, t)
untrack_found n t (some i) = (
  some (get_or t.sizes i 0),
  record {
    addrs = move_last i (n - 1) t.addrs;
    sizes = move_last i (n - 1) t.sizes;
    count = t.count - 1;
  },
)

-- `VatUntrack`: the size of the slot, if it was tracked.
unfoldable pub vat_untrack : ℕ → Vat → Option ℕ × Vat
vat_untrack addr t =
    let n = if ltb t.count vat_max then t.count else vat_max in
    untrack_found n t (find_slot addr t.addrs n 0)
