-- ===== src/Hooks/Modules/Originator.antt =====
-- Which frame `ResolveOriginatorFrame` answers.
use ts3vasmanager.Hooks.Modules.{
  no_frame, unresolved, in_module, Frame, string_contains_i, contains_any, game_names,
  runtime_names, own_name, originator_from, resolve_originator_frame, in_module,
}
use ts3vasmanager.Prelude.{
  ℕ, refl, ap, inl, inr, Option, none, some, List, [], Bool-cases, ◌≡◌, ◌∙◌, ◌||◌, ◌∷◌,
  if◌then◌else◌,
}

-- The frames up to the first null that are in a module that is neither this one nor the C runtime.
abbrev pub candidates : List Frame → List (ℕ × List ℕ × ℕ)
candidates [] = []
candidates (no_frame ∷ fs) = []
candidates (unresolved ∷ fs) = candidates fs
candidates (in_module base at offset ∷ fs) =
    let rest = candidates fs in
    if string_contains_i base own_name || contains_any base runtime_names
    then rest
    else (at, base, offset) ∷ rest

abbrev pub first_game : List (ℕ × List ℕ × ℕ) → Option (ℕ × List ℕ × ℕ)
first_game [] = none
first_game (c ∷ cs) =
    let rest = first_game cs in if contains_any c.1 game_names then some c else rest

abbrev pub head : List (ℕ × List ℕ × ℕ) → Option (ℕ × List ℕ × ℕ)
head [] = none
head (c ∷ cs) = some c

abbrev pub or_else : Option (ℕ × List ℕ × ℕ) → Option (ℕ × List ℕ × ℕ) → Option (ℕ × List ℕ × ℕ)
or_else none b = b
or_else (some a) b = some a

or_else-head :
    (f : Option (ℕ × List ℕ × ℕ)) (at : ℕ) (base : List ℕ) (offset : ℕ) (cs : List (ℕ × List ℕ × ℕ))
    → or_else (elim f [ none ↦ some (at, base, offset) | some g ↦ some g ]) (head cs)
      ≡ or_else f (head ((at, base, offset) ∷ cs))
or_else-head none at base offset cs = refl
or_else-head (some g) at base offset cs = refl

originator-choice :
    (fs : List Frame) (f : Option (ℕ × List ℕ × ℕ))
    → originator_from fs f ≡ or_else (first_game (candidates fs)) (or_else f (head (candidates fs)))
unfolding originator_from
originator-choice [] none = refl
originator-choice [] (some g) = refl
originator-choice (no_frame ∷ fs) none = refl
originator-choice (no_frame ∷ fs) (some g) = refl
originator-choice (unresolved ∷ fs) f = originator-choice fs f
originator-choice (in_module base at offset ∷ fs) f =
    elim (Bool-cases (string_contains_i base own_name)) [
      | inl own ↦ rw own (originator-choice fs f)
      | inr other ↦ elim (Bool-cases (contains_any base runtime_names)) [
        | inl crt ↦ rw (other, crt) (originator-choice fs f)
        | inr far ↦ elim (Bool-cases (contains_any base game_names)) [
          | inl game ↦ rw (other, far, game) refl
          | inr plain ↦
              rw (other, far, plain)
                (originator-choice fs (elim f [ none ↦ some (at, base, offset) | some g ↦ some g ])
                  ∙ ap (or_else (first_game (candidates fs)))
                      (or_else-head f at base offset (candidates fs)))
        ]
      ]
    ]

-- `ResolveOriginatorFrame` answers the first frame of the game among the frames that come before a
-- null and stand in a known module that is neither this DLL nor the C runtime; if none of these is
-- the game's, it answers the first of them, and nothing if there is none.
pub resolve-originator :
    (fs : List Frame)
    → resolve_originator_frame fs ≡ or_else (first_game (candidates fs)) (head (candidates fs))
unfolding resolve_originator_frame
resolve-originator fs = originator-choice fs none
