-- ===== src/MapViewTypeTracker/TypeNames.antt =====
-- The names of resource types: `k_knownTypes` and `DbpfTypeName`. Characters are their codes.
pub mod Hex
use ts3vasmanager.Prelude.{
  ℕ, zero, suc, Option, none, some, List, [], ltb, ◌+◌, ◌/◌, ◌%◌, ◌∷◌, ◌++◌, ◌==◌, if◌then◌else◌,
}

pub record KnownType : Type 0 where
  pub known_id : ℕ
  pub known_name : List ℕ

abbrev pub known_types : List KnownType
known_types =
    record { known_id = 0x015A1849; known_name = 103 ∷ 101 ∷ 111 ∷ 109 ∷ [] }
    ∷ record { known_id = 0x01D0E75D; known_name = 109 ∷ 108 ∷ 111 ∷ 100 ∷ [] }
    ∷ record { known_id = 0x01661233; known_name = 109 ∷ 111 ∷ 100 ∷ 108 ∷ [] }
    ∷ record {
      known_id = 0x3453CF95;
      known_name = 115 ∷ 104 ∷ 97 ∷ 100 ∷ 101 ∷ 114 ∷ 100 ∷ 97 ∷ 116 ∷ 97 ∷ [];
    }
    ∷ record {
      known_id = 0x1C4A276C;
      known_name = 115 ∷ 104 ∷ 97 ∷ 100 ∷ 101 ∷ 114 ∷ 99 ∷ 97 ∷ 99 ∷ 104 ∷ 101 ∷ [];
    }
    ∷ record {
      known_id = 0x0418FE2A;
      known_name = 98 ∷ 111 ∷ 110 ∷ 101 ∷ 119 ∷ 101 ∷ 105 ∷ 103 ∷ 104 ∷ 116 ∷ [];
    }
    ∷ record { known_id = 0x0175e5cd; known_name = 115 ∷ 99 ∷ 114 ∷ 105 ∷ 112 ∷ 116 ∷ [] }
    ∷ record {
      known_id = 0x0175e5d9;
      known_name = 115 ∷ 99 ∷ 114 ∷ 105 ∷ 112 ∷ 116 ∷ 115 ∷ 121 ∷ 109 ∷ [];
    }
    ∷ record { known_id = 0x073faa07; known_name = 115 ∷ 51 ∷ 115 ∷ 97 ∷ 95 ∷ 109 ∷ 111 ∷ 100 ∷ [] }
    ∷ record { known_id = 0x0333406c; known_name = 120 ∷ 109 ∷ 108 ∷ [] }
    ∷ record { known_id = 0x03b33ddf; known_name = 116 ∷ 117 ∷ 110 ∷ [] }
    ∷ record { known_id = 0x00b2d882; known_name = 100 ∷ 100 ∷ 115 ∷ [] }
    ∷ record { known_id = 0x2f7d0006; known_name = 116 ∷ 103 ∷ 97 ∷ [] }
    ∷ record { known_id = 0x2f7d0004; known_name = 112 ∷ 110 ∷ 103 ∷ [] }
    ∷ record { known_id = 0x2f7d0002; known_name = 106 ∷ 112 ∷ 103 ∷ [] }
    ∷ record { known_id = 0x00b552ea; known_name = 115 ∷ 112 ∷ 116 ∷ [] }
    ∷ record { known_id = 0x021d7e8c; known_name = 115 ∷ 112 ∷ 116 ∷ 50 ∷ [] }
    ∷ record {
      known_id = 0x03b4c61d;
      known_name = 108 ∷ 105 ∷ 103 ∷ 104 ∷ 116 ∷ 105 ∷ 110 ∷ 103 ∷ 100 ∷ 97 ∷ 116 ∷ 97 ∷ [];
    }
    ∷ record {
      known_id = 0xd55f7caf;
      known_name = 108 ∷ 105 ∷ 103 ∷ 104 ∷ 116 ∷ 114 ∷ 105 ∷ 103 ∷ 115 ∷ [];
    }
    ∷ record { known_id = 0xea5118b0; known_name = 115 ∷ 119 ∷ 98 ∷ [] }
    ∷ record { known_id = 0x8eaf13de; known_name = 114 ∷ 105 ∷ 103 ∷ [] }
    ∷ record { known_id = 0x6b20c4f3; known_name = 99 ∷ 108 ∷ 105 ∷ 112 ∷ [] }
    ∷ record {
      known_id = 0x025ed6f4;
      known_name = 115 ∷ 105 ∷ 109 ∷ 111 ∷ 117 ∷ 116 ∷ 102 ∷ 105 ∷ 116 ∷ [];
    }
    ∷ record {
      known_id = 0xf0ff5598;
      known_name = 116 ∷ 114 ∷ 105 ∷ 103 ∷ 103 ∷ 101 ∷ 114 ∷ 115 ∷ [];
    }
    ∷ record {
      known_id = 0x11c258c0;
      known_name = 99 ∷ 116 ∷ 114 ∷ 105 ∷ 103 ∷ 103 ∷ 101 ∷ 114 ∷ 115 ∷ [];
    }
    ∷ record { known_id = 0xd3044521; known_name = 115 ∷ 108 ∷ 111 ∷ 116 ∷ [] }
    ∷ record { known_id = 0x1f886ead; known_name = 105 ∷ 110 ∷ 105 ∷ [] }
    ∷ record { known_id = 0x025c95b6; known_name = 108 ∷ 97 ∷ 121 ∷ 111 ∷ 117 ∷ 116 ∷ [] }
    ∷ record { known_id = 0x025c90a6; known_name = 99 ∷ 115 ∷ 115 ∷ [] }
    ∷ record { known_id = 0x220557da; known_name = 115 ∷ 116 ∷ 98 ∷ 108 ∷ [] }
    ∷ record { known_id = 0x02b9f662; known_name = 112 ∷ 114 ∷ 111 ∷ 112 ∷ [] }
    ∷ record { known_id = 0x010077c4; known_name = 119 ∷ 97 ∷ 118 ∷ [] }
    ∷ record { known_id = 0x010077bb; known_name = 109 ∷ 112 ∷ 51 ∷ [] }
    ∷ record { known_id = 0x010077ca; known_name = 120 ∷ 97 ∷ [] }
    ∷ record { known_id = 0x01a527db; known_name = 115 ∷ 110 ∷ 114 ∷ [] }
    ∷ record { known_id = 0x01eef63a; known_name = 115 ∷ 110 ∷ 115 ∷ [] }
    ∷ record { known_id = 0x0181b0d2; known_name = 97 ∷ 98 ∷ 107 ∷ [] }
    ∷ record { known_id = 0x02c9eff2; known_name = 115 ∷ 117 ∷ 98 ∷ 109 ∷ 105 ∷ 120 ∷ [] }
    ∷ record { known_id = 0x029e333b; known_name = 118 ∷ 111 ∷ 105 ∷ 99 ∷ 101 ∷ [] }
    ∷ []

-- The loop up to the sentinel.
unfoldable pub find_known : ℕ → List KnownType → Option (List ℕ)
find_known id [] = none
find_known id (k ∷ ks) = if k.known_id == id then some k.known_name else find_known id ks

-- An upper-case hexadecimal digit.
unfoldable pub hex_digit : ℕ → ℕ
hex_digit d = if ltb d 10 then 48 + d else 55 + d

-- `%08X`: the given number of digits, the highest first.
unfoldable pub hex_digits : ℕ → ℕ → List ℕ
hex_digits zero id = []
hex_digits (suc n) id = hex_digits n (id / 16) ++ (hex_digit (id % 16) ∷ [])

unfoldable pub dbpf_type_name : ℕ → List ℕ
dbpf_type_name id = elim (find_known id known_types) [
  | some name ↦ name
  | none ↦ 48 ∷ 120 ∷ hex_digits 8 id
]
