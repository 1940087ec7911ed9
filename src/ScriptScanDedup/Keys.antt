-- ===== src/ScriptScanDedup/Keys.antt =====
-- The two spellings of a package name have one key.
use ts3vasmanager.Prelude.Bits.{bit_and-ones}
use ts3vasmanager.ScriptScanDedup.{
  fnv1a64_byte, fnv_basis, hash_a, hash_w, key_from_base_name_a, key_from_base_name_w,
}
use ts3vasmanager.Prelude.{ℕ, bit_and, refl, List, [], arith, All, ◌%◌, ◌^◌, ◌<◌, ◌≡◌, ◌∙◌, ◌∷◌}

-- Where the two case mappings agree, on characters that stay in one byte.
abbrev pub Agrees : (ℕ → ℕ) → (ℕ → ℕ) → ℕ → Type 0
Agrees tolower towlower c = (towlower c ≡ tolower c) × (tolower c < 2 ^ 8)

module _ (tolower towlower : ℕ → ℕ) where
  hash-eq :
      (h : ℕ) (cs : List ℕ)
      → All (Agrees tolower towlower) cs
      → hash_w towlower h cs ≡ hash_a tolower h cs
  unfolding hash_a hash_w
  hash-eq h [] ok = refl
  hash-eq h (c ∷ cs) ok =
      let byte : bit_and (towlower c % 2 ^ 16) 255 ≡ tolower c % 2 ^ 8 =
        bit_and-ones 8 (towlower c % 2 ^ 16) (omega (arith, ok.0.0, ok.0.1))
        ∙ omega (arith, ok.0.0, ok.0.1) in
      rw byte (hash-eq (fnv1a64_byte h (tolower c % 2 ^ 8)) cs ok.1)

  -- A name of characters on which the two case mappings agree, within one byte, has the same key
  -- from its bytes and from its UTF-16 code units.
  pub keys-eq :
      (name : List ℕ)
      → All (Agrees tolower towlower) name
      → key_from_base_name_w towlower name ≡ key_from_base_name_a tolower name
  unfolding key_from_base_name_a key_from_base_name_w
  keys-eq [] ok = refl
  keys-eq (c ∷ cs) ok = hash-eq fnv_basis (c ∷ cs) ok
