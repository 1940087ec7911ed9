-- ===== src/MapViewTypeTracker/TypeNames/Hex.antt =====
-- The hexadecimal name of an unknown type gives its id back.
use ts3vasmanager.MapViewTypeTracker.TypeNames.{
  known_types, find_known, hex_digit, hex_digits, dbpf_type_name,
}
use ts3vasmanager.Prelude.{
  ℕ, zero, suc, refl, ap, none, some, List, [], arith, ltb, ◌+◌, ◌-◌, ◌*◌, ◌/◌, ◌%◌, ◌^◌, ◌<◌, ◌≡◌,
  ◌∷◌, ◌++◌, if◌then◌else◌,
}

-- The value of an upper-case hexadecimal digit, and of a text of them.
abbrev pub digit_value : ℕ → ℕ
digit_value c = if ltb c 58 then c - 48 else c - 55

abbrev pub hex_value : ℕ → List ℕ → ℕ
hex_value v [] = v
hex_value v (c ∷ cs) = hex_value (v * 16 + digit_value c) cs

hex_value-append :
    (v c : ℕ) (cs : List ℕ) → hex_value v (cs ++ (c ∷ [])) ≡ hex_value v cs * 16 + digit_value c
hex_value-append v c [] = refl
hex_value-append v c (d ∷ ds) = hex_value-append (v * 16 + digit_value d) c ds

digit_value-hex_digit : (d : ℕ) → d < 16 → digit_value (hex_digit d) ≡ d
unfolding hex_digit
digit_value-hex_digit d h = ground arith

-- How far the digits reach.
abbrev reach : ℕ → ℕ
reach zero = 1
reach (suc n) = reach n * 16

hex_value-hex_digits : (n id : ℕ) → id < reach n → hex_value 0 (hex_digits n id) ≡ id
unfolding hex_digits
hex_value-hex_digits zero id h = omega arith
hex_value-hex_digits (suc n) id h = omega (
  arith,
  hex_value-append 0 (hex_digit (id % 16)) (hex_digits n (id / 16)),
  hex_value-hex_digits n (id / 16) (omega arith),
  digit_value-hex_digit (id % 16) (omega arith),
)

-- The name of a 32-bit type id that the table does not have is "0x" and digits whose value is the
-- id, so that no two unknown types share a name.
pub dbpf_type_name-unknown :
    (id : ℕ)
    → id < 2 ^ 32
    → find_known id known_types ≡ none
    → (digits : List ℕ) × (dbpf_type_name id ≡ 48 ∷ 120 ∷ digits) × (hex_value 0 digits ≡ id)
unfolding dbpf_type_name
dbpf_type_name-unknown id low e = (
  hex_digits 8 id,
  ap (λ o. elim o [ some name ↦ name | none ↦ 48 ∷ 120 ∷ hex_digits 8 id ]) e,
  hex_value-hex_digits 8 id low,
)
