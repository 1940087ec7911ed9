-- ===== src/Hooks/VatTable/Lookups.antt =====
-- What the bounded map holds after an operation.
use ts3vasmanager.Hooks.VatTable.{vat_max}
use ts3vasmanager.Hooks.VatTable.Abstract.{Spec, update, spec_track, spec_untrack}
use ts3vasmanager.Prelude.{
  ℕ, ==_false, subst, inl, inr, Option, none, some, ltb, Bool-cases, ==_iff, ◌+◌, ◌≡◌, ◌≢◌, ◌⊎◌,
  ◌==◌, if◌then◌else◌, refl, ◌-◌,
}

update-cases :
    (a q z : ℕ) (v : Option ℕ) (m : ℕ → Option ℕ)
    → update a v m q ≡ some z
    → ((q ≡ a) × (v ≡ some z)) ⊎ ((q ≢ a) × (m q ≡ some z))
unfolding update
update-cases a q z v m e = elim (Bool-cases (q == a)) [
  | inl same ↦ inl ((==_iff q a).0 same, subst (λ b. (if b then v else m q) ≡ some z) same e)
  | inr other ↦ inr (==_false q a other, subst (λ b. (if b then v else m q) ≡ some z) other e)
]

pub spec_track-live :
    (p s q z : ℕ) (m : Spec)
    → (spec_track p s m).live q ≡ some z
    → ((q ≡ p) × (s ≡ z)) ⊎ (m.live q ≡ some z)
unfolding spec_track
spec_track-live p s q z m e = elim (Bool-cases (ltb m.used vat_max)) [
  | inr full ↦ inr (
      subst
        (λ b.
          (if b then record { live = update p (some s) m.live; used = m.used + 1 } else m).live q
          ≡ some z)
        full e)
  | inl room ↦
      elim (update-cases p q z (some s) m.live (
        subst
          (λ b.
            (if b then record { live = update p (some s) m.live; used = m.used + 1 } else m).live q
            ≡ some z)
          room e)) [ inl (same, size) ↦ inl (same, cc) | inr (other, old) ↦ inr old ]
]

pub spec_untrack-live :
    (p s q z : ℕ) (m : Spec)
    → m.live p ≡ some s
    → (spec_untrack p m).1.live q ≡ some z
    → (q ≢ p) × (m.live q ≡ some z)
unfolding spec_untrack
spec_untrack-live p s q z m live e =
    let removed : (spec_untrack p m).1 ≡ record { live = update p none m.live; used = m.used - 1 } =
      rw (live, spec_untrack) refl in
    elim (update-cases p q z none m.live (subst (λ n. n.live q ≡ some z) removed e)) [
      | inl (same, clash) ↦ cc
      | inr both ↦ both
    ]
