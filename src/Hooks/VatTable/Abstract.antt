-- ===== src/Hooks/VatTable/Abstract.antt =====
-- The abstract table of redirected slots, a bounded map from addresses to sizes, and how the table
-- stands to it.
use ts3vasmanager.Prelude.{
  ℕ, Option, none, some, List, [], ltb, length, get_or, ◌+◌, ◌-◌, ◌≤◌, ◌<◌, ◌≡◌, ◌∷◌, ◌==◌,
  if◌then◌else◌,
}
use ts3vasmanager.Hooks.VatTable.{vat_max, Vat, vat_track, vat_untrack}

-- What a client asks of the table.
pub data VatOp : Type 0 where
  track : ℕ → ℕ → VatOp
  untrack : ℕ → VatOp

-- The abstract table: the size of every address that is tracked, and how many these are.
pub record Spec : Type 0 where
  pub live : ℕ → Option ℕ
  pub used : ℕ

unfoldable pub update : ℕ → Option ℕ → (ℕ → Option ℕ) → ℕ → Option ℕ
update a v m b = if b == a then v else m b

unfoldable pub no_slots : ℕ → Option ℕ
no_slots a = none

unfoldable pub spec_track : ℕ → ℕ → Spec → Spec
spec_track a s m =
    if ltb m.used vat_max then record { live = update a (some s) m.live; used = m.used + 1 } else m

unfoldable pub spec_untrack : ℕ → Spec → Option ℕ × Spec
spec_untrack a m = elim (m.live a) [
  | none ↦ (none, m)
  | some s ↦ (some s, record { live = update a none m.live; used = m.used - 1 })
]

-- The answers of the untracks, in order.
unfoldable pub run : List VatOp → Vat → List (Option ℕ)
run [] t = []
run (track a s ∷ ops) t = run ops (vat_track a s t)
run (untrack a ∷ ops) t = let r = vat_untrack a t in r.0 ∷ run ops r.1

unfoldable pub spec_run : List VatOp → Spec → List (Option ℕ)
spec_run [] m = []
spec_run (track a s ∷ ops) m = spec_run ops (spec_track a s m)
spec_run (untrack a ∷ ops) m = let r = spec_untrack a m in r.0 ∷ spec_run ops r.1

-- No address is tracked while it is live.
abbrev pub Fresh : List VatOp → Spec → Type 0
Fresh [] m = Unit
Fresh (track a s ∷ ops) m = (m.live a ≡ none) × Fresh ops (spec_track a s m)
Fresh (untrack a ∷ ops) m = Fresh ops (spec_untrack a m).1

-- The slots below the count hold the live addresses, each once.
pub record Refines (t : Vat) (m : Spec) : Type 0 where
  pub counted : t.count ≡ m.used
  pub few : t.count ≤ vat_max
  pub addrs_len : length t.addrs ≡ vat_max
  pub sizes_len : length t.sizes ≡ vat_max
  pub held : (i : ℕ) → i < t.count → m.live (get_or t.addrs i 0) ≡ some (get_or t.sizes i 0)
  pub found : (a s : ℕ) → m.live a ≡ some s → (i : ℕ) × (i < t.count) × (get_or t.addrs i 0 ≡ a)
  pub once : (i j : ℕ) → i < t.count → j < t.count → get_or t.addrs i 0 ≡ get_or t.addrs j 0 → i ≡ j

abbrev pub empty_spec : Spec
empty_spec = record { live = no_slots; used = 0 }
