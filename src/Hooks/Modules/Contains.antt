-- ===== src/Hooks/Modules/Contains.antt =====
-- What `StringContainsI` finds.
use ts3vasmanager.Hooks.Modules.{lower_ascii, matches_here, contains_from, string_contains_i}
use ts3vasmanager.Prelude.{
  ℕ, subst, refl, ap, inl, inr, true, List, [], map, Bool-cases, ◌≡◌, ◌&&◌, ◌∷◌, ◌++◌, ◌==◌, false,
  sym, Bool, ==_iff, ◌↔◌, ◌||◌, leb, ◌+◌, if◌then◌else◌,
}

-- A capital of ASCII as the small letter.
abbrev pub small_letter : ℕ → ℕ
small_letter c = if leb 65 c && leb c 90 then c + 32 else c

-- The needle stands in the haystack, when the case of ASCII letters is forgotten.
abbrev pub Occurs : List ℕ → List ℕ → Type 0
Occurs haystack needle =
    (before : List ℕ) × (here : List ℕ) × (after : List ℕ) × (haystack ≡ before ++ (here ++ after))
    × (map small_letter here ≡ map small_letter needle)

and_true : (a b : Bool) → (a && b) ≡ true → (a ≡ true) × (b ≡ true)
and_true true b e = (refl, e)
and_true false b e = cc

or_true : (a b : Bool) → b ≡ true → (a || b) ≡ true
or_true true b e = refl
or_true false b e = e

matches-prefix :
    (hs ns : List ℕ)
    → matches_here hs ns ≡ true
    → (here : List ℕ) × (after : List ℕ) × (hs ≡ here ++ after)
      × (map lower_ascii here ≡ map lower_ascii ns)
unfolding matches_here
matches-prefix hs [] e = ([], hs, refl, refl)
matches-prefix [] (n ∷ ns) e = cc
matches-prefix (h ∷ hs) (n ∷ ns) e =
    let (same, rest) = and_true (lower_ascii h == lower_ascii n) (matches_here hs ns) e in
    let (here, after, split, eq) = matches-prefix hs ns rest in
    (
      h ∷ here,
      after,
      ap (◌∷◌ h) split,
      rw ((==_iff (lower_ascii h) (lower_ascii n)).0 same, eq) refl,
    )

prefix-matches :
    (here after ns : List ℕ)
    → map lower_ascii here ≡ map lower_ascii ns
    → matches_here (here ++ after) ns ≡ true
unfolding matches_here
prefix-matches here after [] e = refl
prefix-matches [] after (n ∷ ns) e = cc
prefix-matches (h ∷ here) after (n ∷ ns) e =
    let same : lower_ascii h ≡ lower_ascii n = cc in
    let rest : map lower_ascii here ≡ map lower_ascii ns = cc in
    rw ((==_iff (lower_ascii h) (lower_ascii n)).1 same) (prefix-matches here after ns rest)

found-Occurs : (needle hs : List ℕ) → contains_from needle hs ≡ true → Occurs hs needle
unfolding contains_from
found-Occurs needle [] e = cc
found-Occurs needle (h ∷ hs) e = elim (Bool-cases (matches_here (h ∷ hs) needle)) [
  | inl at ↦
      let (here, after, split, eq) = matches-prefix (h ∷ hs) needle at in
      ([], here, after, split, eq)
  | inr not_at ↦
      let (before, here, after, split, eq) =
        found-Occurs needle hs (subst (λ b. (b || contains_from needle hs) ≡ true) not_at e) in
      (h ∷ before, here, after, ap (◌∷◌ h) split, eq)
]

Occurs-found :
    (n : ℕ) (ns before here after : List ℕ)
    → map lower_ascii here ≡ map lower_ascii (n ∷ ns)
    → contains_from (n ∷ ns) (before ++ (here ++ after)) ≡ true
unfolding contains_from
Occurs-found n ns [] [] after e = cc
Occurs-found n ns [] (h ∷ here) after e = rw (prefix-matches (h ∷ here) after (n ∷ ns) e) refl
Occurs-found n ns (b ∷ before) here after e =
    or_true (matches_here (b ∷ (before ++ (here ++ after))) (n ∷ ns)) _
      (Occurs-found n ns before here after e)

-- `StringContainsI(haystack, needle)` is true exactly when the haystack is some text before, a text
-- that equals the needle when the ASCII capitals of both are lowered, and some text after.
pub string_contains_i-Occurs :
    (haystack needle : List ℕ) → (string_contains_i haystack needle ≡ true) ↔ Occurs haystack needle
unfolding string_contains_i
string_contains_i-Occurs haystack [] = (λ e. ([], [], haystack, refl, refl), λ o. refl)
string_contains_i-Occurs haystack (n ∷ ns) = (
  λ e. found-Occurs (n ∷ ns) haystack e,
  λ o. subst (λ hs. contains_from (n ∷ ns) hs ≡ true) (sym o.3) (Occurs-found n ns o.0 o.1 o.2 o.4),
)
