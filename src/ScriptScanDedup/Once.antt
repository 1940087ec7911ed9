-- ===== src/ScriptScanDedup/Once.antt =====
-- A key that was marked is found.
use ts3vasmanager.ScriptScanDedup.{store, slot_index, mark_from, mark_once}
use ts3vasmanager.Prelude.{
  ℕ, subst, zero, suc, refl, sym, inl, inr, arith, Bool-cases, ==_iff, ◌+◌, ◌≡◌, ◌∙◌, ◌≢◌, ◌==◌,
  ==_false, ap, Bool, true, false, ◌≤◌, ◌<◌, if◌then◌else◌,
}

abbrev pub no_race : ℕ → ℕ
no_race probe = 0

store-same : (i v : ℕ) (slots : ℕ → ℕ) → store i v slots i ≡ v
unfolding store
store-same i v slots = ground arith

store-kept : (i v j : ℕ) (slots : ℕ → ℕ) → slots i ≡ 0 → slots j ≢ 0 → store i v slots j ≡ slots j
unfolding store
store-kept i v j slots z nz = elim (Bool-cases (j == i)) [
  | inl same ↦ elim (nz (subst (λ x. slots x ≡ 0) (sym ((==_iff j i).0 same)) z)) [ ]
  | inr other ↦ rw other refl
]

module _ (key : ℕ) where
  -- No probe overwrites a slot that is in use.
  mark_from-kept :
      (race : ℕ → ℕ) (n k : ℕ) (slots : ℕ → ℕ) (j : ℕ)
      → slots j ≢ 0
      → (mark_from key race n k slots).1 j ≡ slots j
  unfolding mark_from
  mark_from-kept race zero k slots j nz = refl
  mark_from-kept race (suc n) k slots j nz = elim (Bool-cases (slots (slot_index key k) == key)) [
    | inl found ↦ rw found refl
    | inr ne ↦ elim (Bool-cases (slots (slot_index key k) == 0)) [
      | inr used ↦ rw (ne, used) (mark_from-kept race n (k + 1) slots j nz)
      | inl empty ↦
          let z = (==_iff (slots (slot_index key k)) 0).0 empty in
          elim (Bool-cases (race k == 0)) [
            | inl won ↦ rw (ne, empty, won) (store-kept (slot_index key k) key j slots z nz)
            | inr lost ↦
                let kept = store-kept (slot_index key k) (race k) j slots z nz in
                elim (Bool-cases (race k == key)) [
                  | inl same ↦ rw (ne, empty, lost, same) kept
                  | inr other ↦
                      rw (ne, empty, lost, other)
                        (mark_from-kept race n (k + 1) (store (slot_index key k) (race k) slots) j
                            (λ e. nz (sym kept ∙ e))
                          ∙ kept)
                ]
          ]
    ]
  ]

  step-hit :
      (n k : ℕ) (slots : ℕ → ℕ)
      → (slots (slot_index key k) == key) ≡ true
      → mark_from key no_race (suc n) k slots ≡ (true, slots)
  unfolding mark_from
  step-hit n k slots e = rw e refl

  step-new :
      (n k : ℕ) (slots : ℕ → ℕ)
      → (slots (slot_index key k) == key) ≡ false
      → (slots (slot_index key k) == 0) ≡ true
      → mark_from key no_race (suc n) k slots ≡ (false, store (slot_index key k) key slots)
  unfolding mark_from
  step-new n k slots e z = rw (e, z) refl

  step-pass :
      (n k : ℕ) (slots : ℕ → ℕ)
      → (slots (slot_index key k) == key) ≡ false
      → (slots (slot_index key k) == 0) ≡ false
      → mark_from key no_race (suc n) k slots ≡ mark_from key no_race n (k + 1) slots
  unfolding mark_from
  step-pass n k slots e z = rw (e, z) refl

  abbrev Seen : ℕ → ℕ → (ℕ → ℕ) → Type 0
  Seen n k slots = (mark_from key no_race n k slots).0 ≡ true

  again :
      (n k j : ℕ) (slots : ℕ → ℕ)
      → k ≤ j
      → j < k + n
      → slots (slot_index key j) ≡ 0
      → Seen n k (mark_from key no_race n k slots).1
  again zero k j slots lo hi z = let no : ⊥ = omega arith in elim no [ ]
  again (suc n) k j slots lo hi z =
      let idx = slot_index key k in
      elim (Bool-cases (slots idx == key)) [
        | inl found ↦
            rw (step-hit n k slots found)
              (ap (λ (x : Bool × (ℕ → ℕ)). x.0) (step-hit n k slots found))
        | inr ne ↦ elim (Bool-cases (slots idx == 0)) [
          | inl empty ↦ rw (step-new n k slots ne empty) (
              ap (λ (x : Bool × (ℕ → ℕ)). x.0)
                (step-hit n k (store idx key slots) ((==_iff _ _).1 (store-same idx key slots))))
          | inr used ↦
              let after = (mark_from key no_race n (k + 1) slots).1 in
              let nz = ==_false (slots idx) 0 used in
              let kept : after idx ≡ slots idx = mark_from-kept no_race n (k + 1) slots idx nz in
              let next : k ≢ j = λ e. nz (subst (λ x. slots (slot_index key x) ≡ 0) (sym e) z) in
              rw (step-pass n k slots ne used) (
                ap (λ (x : Bool × (ℕ → ℕ)). x.0) (step-pass n k after (rw kept ne) (rw kept used))
                ∙ again n (k + 1) j slots (omega (arith, next, lo)) (omega (arith, hi)) z)
        ]
      ]

-- 0 marks an empty slot, so the key 0 is taken for 1.
abbrev pub effective : ℕ → ℕ
effective key = if key == 0 then 1 else key

-- If one of the 64 slots that are probed for a key is empty and no other thread interferes, then
-- after `MarkOnce` of the key a second `MarkOnce` reports it as already recorded, and no slot in use
-- was changed.
pub mark_once-again :
    (key j : ℕ) (slots : ℕ → ℕ)
    → j < 64
    → slots (slot_index (effective key) j) ≡ 0
    → let slots' = (mark_once no_race key slots).1 in
      ((mark_once no_race key slots').0 ≡ true) × ((i : ℕ) → slots i ≢ 0 → slots' i ≡ slots i)
unfolding mark_once
mark_once-again key j slots hi z = elim (Bool-cases (key == 0)) [
  | inl null ↦
      let z' : slots (slot_index 1 j) ≡ 0 =
        subst (λ b. slots (slot_index (if b then 1 else key) j) ≡ 0) null z in
      rw null (again 1 64 0 j slots (omega arith) hi z', mark_from-kept 1 no_race 64 0 slots)
  | inr set_key ↦
      let z' : slots (slot_index key j) ≡ 0 =
        subst (λ b. slots (slot_index (if b then 1 else key) j) ≡ 0) set_key z in
      rw set_key (again key 64 0 j slots (omega arith) hi z', mark_from-kept key no_race 64 0 slots)
]
