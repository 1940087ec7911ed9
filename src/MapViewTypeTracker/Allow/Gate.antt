-- ===== src/MapViewTypeTracker/Allow/Gate.antt =====
-- The allow-list stays a set of at most 64 ids, and the gate tests membership in it.
use ts3vasmanager.MapViewTypeTracker.Types.{DbpfTypeStats}
use ts3vasmanager.MapViewTypeTracker.Allow.{
  max_allow_ids, is_allowed, add_redirect_type_id, any_allowed, should_redirect,
}
use ts3vasmanager.Prelude.{
  ℕ, refl, Bool, false, List, [], arith, length, ◌≤◌, ◌<◌, ◌≡◌, ◌||◌, ◌∷◌, ◌++◌, ◌==◌, inl, inr,
  true, ltb, Bool-cases, length-append, ltb→lt, lt→ltb, ◌∙◌, ◌≢◌, if◌then◌else◌,
}

abbrev pub NoDup : List ℕ → Type 0
NoDup [] = Unit
NoDup (a ∷ ids) = (is_allowed a ids ≡ false) × NoDup ids

abbrev pub IsAllowList : List ℕ → Type 0
IsAllowList allow = (length allow ≤ max_allow_ids) × NoDup allow

is_allowed-append :
    (x id : ℕ) (ids : List ℕ) → is_allowed x (ids ++ (id ∷ [])) ≡ (is_allowed x ids || (id == x))
unfolding is_allowed
is_allowed-append x id [] = ground arith
is_allowed-append x id (a ∷ ids) = ground (arith, is_allowed-append x id ids)

NoDup-append :
    (id : ℕ) (ids : List ℕ) → is_allowed id ids ≡ false → NoDup ids → NoDup (ids ++ (id ∷ []))
unfolding is_allowed
NoDup-append id [] h n = (refl, tt)
NoDup-append id (a ∷ ids) h n =
    (ground (arith, is_allowed-append a id ids, n.0), NoDup-append id ids (ground arith) n.1)

add_redirect-room :
    (id : ℕ) (allow : List ℕ)
    → length allow < max_allow_ids
    → add_redirect_type_id id allow ≡ (if is_allowed id allow then allow else allow ++ (id ∷ []))
unfolding add_redirect_type_id
add_redirect-room id allow h = rw (lt→ltb (length allow) max_allow_ids h) refl

add_redirect-full :
    (id : ℕ) (allow : List ℕ)
    → ltb (length allow) max_allow_ids ≡ false
    → add_redirect_type_id id allow ≡ allow
unfolding add_redirect_type_id
add_redirect-full id allow h = rw h refl

is_allowed-same :
    (id x : ℕ) (ids : List ℕ)
    → is_allowed id ids ≡ true
    → is_allowed x ids ≡ (is_allowed x ids || (id == x))
unfolding is_allowed
is_allowed-same id x [] h = cc
is_allowed-same id x (a ∷ ids) h = ground (arith, is_allowed-same id x ids)

-- `AddRedirectTypeId` keeps the list within its 64 entries and free of duplicates.
pub add_redirect_type_id-IsAllowList :
    (id : ℕ) (allow : List ℕ) → IsAllowList allow → IsAllowList (add_redirect_type_id id allow)
unfolding add_redirect_type_id
add_redirect_type_id-IsAllowList id allow h = elim (Bool-cases (ltb (length allow) max_allow_ids)) [
  | inr full ↦ rw (add_redirect-full id allow full) h
  | inl room ↦
      let lt = ltb→lt (length allow) max_allow_ids room in
      elim (Bool-cases (is_allowed id allow)) [
        | inl known ↦ rw (add_redirect-room id allow lt, known) h
        | inr fresh ↦
            rw (add_redirect-room id allow lt, fresh)
              (omega (arith, length-append allow (id ∷ [])), NoDup-append id allow fresh h.1)
      ]
]

-- With room in the list, the ids that are allowed after `AddRedirectTypeId(id)` are id and those
-- that were allowed before.
is_allowed-add :
    (id x : ℕ) (allow : List ℕ)
    → length allow < max_allow_ids
    → is_allowed x (add_redirect_type_id id allow) ≡ (is_allowed x allow || (id == x))
unfolding add_redirect_type_id
is_allowed-add id x allow h = elim (Bool-cases (is_allowed id allow)) [
  | inl known ↦ rw (add_redirect-room id allow h, known) (is_allowed-same id x allow known)
  | inr fresh ↦ rw (add_redirect-room id allow h, fresh) (is_allowed-append x id allow)
]

abbrev pub has_type : ℕ → List DbpfTypeStats → Bool
has_type id [] = false
has_type id (st ∷ sts) = (id == st.type_id) || has_type id sts

any_allowed-add :
    (id : ℕ) (allow : List ℕ) (sts : List DbpfTypeStats)
    → length allow < max_allow_ids
    → any_allowed sts (add_redirect_type_id id allow) ≡ (any_allowed sts allow || has_type id sts)
unfolding any_allowed
any_allowed-add id allow [] h = refl
any_allowed-add id allow (st ∷ sts) h =
    ground (arith, any_allowed-add id allow sts h, is_allowed-add id st.type_id allow h)

should_redirect-ne :
    (sts : List DbpfTypeStats) (allow : List ℕ)
    → allow ≢ []
    → should_redirect sts allow ≡ any_allowed sts allow
unfolding should_redirect
should_redirect-ne sts [] h = elim (h refl) [ ]
should_redirect-ne sts (a ∷ allow) h = refl

appended-ne :
    (id a : ℕ) (allow : List ℕ) (b c : Bool)
    → (if b then (if c then a ∷ allow else (a ∷ allow) ++ (id ∷ [])) else a ∷ allow) ≢ []
appended-ne id a allow true true e = cc
appended-ne id a allow true false e = cc
appended-ne id a allow false c e = cc

add_redirect-ne : (id : ℕ) (allow : List ℕ) → add_redirect_type_id id allow ≢ []
unfolding add_redirect_type_id is_allowed
add_redirect-ne id [] e = cc
add_redirect-ne id (a ∷ allow) e =
    appended-ne id a allow (ltb (length (a ∷ allow)) max_allow_ids) (is_allowed id (a ∷ allow)) e

-- While the list has room, a view passes the gate after `AddRedirectTypeId(id)` exactly when it
-- holds the type id or a type that was in the list before; so the first id ends the default of
-- redirecting every view.
pub should_redirect-add :
    (id : ℕ) (allow : List ℕ) (sts : List DbpfTypeStats)
    → length allow < max_allow_ids
    → should_redirect sts (add_redirect_type_id id allow)
      ≡ (any_allowed sts allow || has_type id sts)
should_redirect-add id allow sts h =
    should_redirect-ne sts (add_redirect_type_id id allow) (add_redirect-ne id allow)
    ∙ any_allowed-add id allow sts h
