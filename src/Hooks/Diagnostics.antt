-- ===== src/Hooks/Diagnostics.antt =====
-- WorkingHooks.cpp: the table of the large local reserves that are outstanding:
-- `RegisterDiagnosticAlloc` and `RemoveDiagnosticAlloc`, each under `s_diagCS`. The log of a release
-- is not part of this state.

use ts3vasmanager.Prelude.{
  ℕ, zero, suc, Option, none, some, List, [], ltb, get_or, set, ◌+◌, ◌-◌, ◌||◌, ◌==◌, if◌then◌else◌,
}

pub record DiagnosticAlloc : Type 0 where
  pub address : ℕ
  pub size : ℕ
  pub ret_addr : ℕ
  pub alloc_tick : ℕ
  pub module_name : List ℕ

abbrev pub no_diagnostic : DiagnosticAlloc
no_diagnostic = record { address = 0; size = 0; ret_addr = 0; alloc_tick = 0; module_name = [] }

abbrev pub diag_max : ℕ
diag_max = 8192

pub record Diagnostics : Type 0 where
  pub records : List DiagnosticAlloc
  pub count : ℕ

-- `RegisterDiagnosticAlloc`, of a record whose module is resolved.
unfoldable pub register_diagnostic_alloc : DiagnosticAlloc → Diagnostics → Diagnostics
register_diagnostic_alloc r d =
    if r.address == 0 || r.size == 0
    then d
    else if ltb d.count diag_max
    then record { records = set d.records d.count r; count = d.count + 1 }
    else d

unfoldable pub find_diagnostic : ℕ → List DiagnosticAlloc → ℕ → ℕ → Option ℕ
find_diagnostic key records zero i = none
find_diagnostic key records (suc left) i =
    let rest = find_diagnostic key records left (i + 1) in
    if (get_or records i no_diagnostic).address == key then some i else rest

-- The last record moves into slot i; its old slot loses its address.
unfoldable pub retire : ℕ → ℕ → List DiagnosticAlloc → List DiagnosticAlloc
retire i last rs =
    let moved = if i == last then rs else set rs i (get_or rs last no_diagnostic) in
    set moved last (record (get_or moved last no_diagnostic) { address = 0 })

unfoldable pub remove_found : Diagnostics → Option ℕ → Option DiagnosticAlloc × Diagnostics
remove_found d none = (none, d)
remove_found d (some i) = (
  some (get_or d.records i no_diagnostic),
  record { records = retire i (d.count - 1) d.records; count = d.count - 1 },
)

-- `RemoveDiagnosticAlloc`: the record that is logged, if there is one.
unfoldable pub remove_diagnostic_alloc : ℕ → Diagnostics → Option DiagnosticAlloc × Diagnostics
remove_diagnostic_alloc p d =
    if p == 0 then (none, d) else remove_found d (find_diagnostic p d.records d.count 0)
