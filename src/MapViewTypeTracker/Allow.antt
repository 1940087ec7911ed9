-- ===== src/MapViewTypeTracker/Allow.antt =====
-- The redirect allow-list: `AddRedirectTypeId`, `ClearRedirectTypeIds`, `ShouldRedirect`. The list
-- holds the first `m_allowCount` entries of `m_allowIds`, in order.
pub mod Gate
use ts3vasmanager.MapViewTypeTracker.Types.{DbpfTypeStats}
use ts3vasmanager.Prelude.{
  ℕ, Bool, true, false, List, [], ltb, length, ◌||◌, ◌∷◌, ◌++◌, ◌==◌, if◌then◌else◌,
}

abbrev pub max_allow_ids : ℕ
max_allow_ids = 64

unfoldable pub is_allowed : ℕ → List ℕ → Bool
is_allowed id [] = false
is_allowed id (a ∷ allow) = (a == id) || is_allowed id allow

unfoldable pub add_redirect_type_id : ℕ → List ℕ → List ℕ
add_redirect_type_id id allow =
    if ltb (length allow) max_allow_ids
    then (if is_allowed id allow then allow else allow ++ (id ∷ []))
    else allow

unfoldable pub clear_redirect_type_ids : List ℕ → List ℕ
clear_redirect_type_ids allow = []

unfoldable pub any_allowed : List DbpfTypeStats → List ℕ → Bool
any_allowed [] allow = false
any_allowed (st ∷ sts) allow = is_allowed st.type_id allow || any_allowed sts allow

unfoldable pub should_redirect : List DbpfTypeStats → List ℕ → Bool
should_redirect sts [] = true
should_redirect sts (a ∷ allow) = any_allowed sts (a ∷ allow)
