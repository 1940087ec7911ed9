-- ===== src/Hooks/Modules.antt =====
-- WorkingHooks.cpp: which module an allocation comes from. `StringContainsI`, `IsGraphicsModule`,
-- `IsAudioModule`, `ClassifyCallerModule`, `ResolveOriginatorFrame` and the tests on caller kinds.
-- A string is the list of its character codes. The frames of a stack are what
-- `RtlCaptureStackBackTrace`, `GetModuleHandleEx` and `GetModuleFileName` give for them.
pub mod Contains
pub mod Originator
use ts3vasmanager.ProxyAllocator.FreeList.{skip}
use ts3vasmanager.Prelude.{
  ℕ, Bool, true, false, Option, none, some, List, [], leb, ◌+◌, ◌&&◌, ◌||◌, ◌∷◌, ◌==◌,
  if◌then◌else◌,
}

abbrev pub lower_ascii : ℕ → ℕ
lower_ascii c = if leb 65 c && leb c 90 then c + 32 else c

-- The inner loop: whether the needle stands at this place. The end of the haystack ends it.
unfoldable pub matches_here : List ℕ → List ℕ → Bool
matches_here hs [] = true
matches_here [] (n ∷ ns) = false
matches_here (h ∷ hs) (n ∷ ns) = (lower_ascii h == lower_ascii n) && matches_here hs ns

unfoldable pub contains_from : List ℕ → List ℕ → Bool
contains_from needle [] = false
contains_from needle (h ∷ hs) = matches_here (h ∷ hs) needle || contains_from needle hs

-- `StringContainsI`, on strings that are not null.
unfoldable pub string_contains_i : List ℕ → List ℕ → Bool
string_contains_i haystack [] = true
string_contains_i haystack (n ∷ ns) = contains_from (n ∷ ns) haystack

unfoldable pub contains_any : List ℕ → List (List ℕ) → Bool
contains_any m [] = false
contains_any m (n ∷ ns) = string_contains_i m n || contains_any m ns

abbrev pub graphics_names : List (List ℕ)
graphics_names =
    (100 ∷ 51 ∷ 100 ∷ 57 ∷ 46 ∷ 100 ∷ 108 ∷ 108 ∷ [])
    ∷ (100 ∷ 120 ∷ 103 ∷ 105 ∷ 46 ∷ 100 ∷ 108 ∷ 108 ∷ [])
    ∷ (111 ∷ 112 ∷ 101 ∷ 110 ∷ 103 ∷ 108 ∷ 51 ∷ 50 ∷ 46 ∷ 100 ∷ 108 ∷ 108 ∷ [])
    ∷ (118 ∷ 117 ∷ 108 ∷ 107 ∷ 97 ∷ 110 ∷ 45 ∷ 49 ∷ 46 ∷ 100 ∷ 108 ∷ 108 ∷ [])
    ∷ (110 ∷ 118 ∷ 100 ∷ 51 ∷ 100 ∷ 117 ∷ 109 ∷ [])
    ∷ (110 ∷ 118 ∷ 119 ∷ 103 ∷ 102 ∷ 50 ∷ 117 ∷ 109 ∷ [])
    ∷ (110 ∷ 118 ∷ 111 ∷ 103 ∷ 108 ∷ 118 ∷ [])
    ∷ (110 ∷ 118 ∷ 108 ∷ 100 ∷ 117 ∷ 109 ∷ 100 ∷ [])
    ∷ (110 ∷ 118 ∷ 117 ∷ 109 ∷ 100 ∷ 115 ∷ 104 ∷ 105 ∷ 109 ∷ [])
    ∷ (97 ∷ 116 ∷ 105 ∷ 100 ∷ 120 ∷ 120 ∷ [])
    ∷ (97 ∷ 116 ∷ 105 ∷ 100 ∷ 120 ∷ 57 ∷ [])
    ∷ (65 ∷ 77 ∷ 68 ∷ 88 ∷ 78 ∷ 51 ∷ 50 ∷ [])
    ∷ (97 ∷ 109 ∷ 100 ∷ 120 ∷ 99 ∷ 51 ∷ 50 ∷ [])
    ∷ (97 ∷ 109 ∷ 100 ∷ 105 ∷ 104 ∷ 107 ∷ [])
    ∷ (105 ∷ 103 ∷ 100 ∷ 49 ∷ 48 ∷ [])
    ∷ (105 ∷ 103 ∷ 100 ∷ 117 ∷ 109 ∷ 100 ∷ [])
    ∷ []

unfoldable pub is_graphics_module : List ℕ → Bool
is_graphics_module [] = false
is_graphics_module (c ∷ cs) = contains_any (c ∷ cs) graphics_names

abbrev pub audio_names : List (List ℕ)
audio_names =
    (100 ∷ 115 ∷ 111 ∷ 117 ∷ 110 ∷ 100 ∷ [])
    ∷ (97 ∷ 117 ∷ 100 ∷ 105 ∷ 111 ∷ 115 ∷ 101 ∷ 115 ∷ [])
    ∷ (109 ∷ 109 ∷ 100 ∷ 101 ∷ 118 ∷ 97 ∷ 112 ∷ 105 ∷ [])
    ∷ (119 ∷ 100 ∷ 109 ∷ 97 ∷ 117 ∷ 100 ∷ [])
    ∷ (119 ∷ 105 ∷ 110 ∷ 109 ∷ 109 ∷ [])
    ∷ (109 ∷ 115 ∷ 97 ∷ 99 ∷ 109 ∷ [])
    ∷ (109 ∷ 105 ∷ 100 ∷ 105 ∷ 109 ∷ 97 ∷ 112 ∷ [])
    ∷ (97 ∷ 118 ∷ 114 ∷ 116 ∷ [])
    ∷ (109 ∷ 115 ∷ 100 ∷ 109 ∷ 111 ∷ [])
    ∷ (114 ∷ 101 ∷ 115 ∷ 97 ∷ 109 ∷ 112 ∷ 108 ∷ 101 ∷ 100 ∷ 109 ∷ 111 ∷ [])
    ∷ (97 ∷ 117 ∷ 100 ∷ 105 ∷ 111 ∷ 101 ∷ 110 ∷ 103 ∷ [])
    ∷ []

unfoldable pub is_audio_module : List ℕ → Bool
is_audio_module [] = false
is_audio_module (c ∷ cs) = contains_any (c ∷ cs) audio_names

-- No heap is a corral target.
unfoldable pub is_corral_module : List ℕ → Bool
is_corral_module m = false

pub data AllocCallerKind : Type 0 where
  game_exe graphics runtime_dll system_dll mod_dll unknown : AllocCallerKind

abbrev pub game_names : List (List ℕ)
game_names =
    (84 ∷ 83 ∷ 51 ∷ 87 ∷ 46 ∷ 101 ∷ 120 ∷ 101 ∷ [])
    ∷ (84 ∷ 83 ∷ 51 ∷ 46 ∷ 101 ∷ 120 ∷ 101 ∷ [])
    ∷ (71 ∷ 97 ∷ 109 ∷ 101 ∷ 95 ∷ 87 ∷ 105 ∷ 110 ∷ 51 ∷ 50 ∷ 46 ∷ 101 ∷ 120 ∷ 101 ∷ [])
    ∷ []

abbrev pub runtime_names : List (List ℕ)
runtime_names =
    (109 ∷ 115 ∷ 118 ∷ 99 ∷ 114 ∷ [])
    ∷ (109 ∷ 115 ∷ 118 ∷ 99 ∷ 112 ∷ [])
    ∷ (118 ∷ 99 ∷ 114 ∷ 117 ∷ 110 ∷ 116 ∷ 105 ∷ 109 ∷ 101 ∷ [])
    ∷ (117 ∷ 99 ∷ 114 ∷ 116 ∷ 98 ∷ 97 ∷ 115 ∷ 101 ∷ [])
    ∷ []

abbrev pub own_name : List ℕ
own_name = 84 ∷ 83 ∷ 51 ∷ 86 ∷ 65 ∷ 83 ∷ 77 ∷ 97 ∷ 110 ∷ 97 ∷ 103 ∷ 101 ∷ 114 ∷ []

abbrev pub asi_name : List ℕ
asi_name = 46 ∷ 97 ∷ 115 ∷ 105 ∷ []

-- What one captured frame is: the null pointer, an address in no module or in one whose path is not
-- known, or the base name of its module with the frame's address and its offset in the module.
pub data Frame : Type 0 where
  no_frame unresolved : Frame
  in_module : List ℕ → ℕ → ℕ → Frame

-- The tests on one base name; `none` goes on to the next frame.
unfoldable pub classify_name : List ℕ → Option AllocCallerKind
classify_name base =
    if contains_any base game_names
    then some game_exe
    else if contains_any base runtime_names
    then some runtime_dll
    else if string_contains_i base own_name
    then none
    else if string_contains_i base asi_name
    then some mod_dll
    else if is_graphics_module base
    then some graphics
    else none

-- The loop over the frames: the kind, and the base name that is stored last.
unfoldable pub classify_frames : List Frame → List ℕ → AllocCallerKind × List ℕ
classify_frames [] name = (system_dll, name)
classify_frames (no_frame ∷ fs) name = (system_dll, name)
classify_frames (unresolved ∷ fs) name = classify_frames fs name
classify_frames (in_module base at offset ∷ fs) name =
    let rest = classify_frames fs base in
    elim (classify_name base) [ none ↦ rest | some kind ↦ (kind, base) ]

-- `ClassifyCallerModule`
unfoldable pub classify_caller_module : ℕ → List Frame → AllocCallerKind × List ℕ
classify_caller_module return_address frames =
    if return_address == 0 then (unknown, []) else classify_frames frames []

-- The loop of `ResolveOriginatorFrame`, with the fallback so far: address, base name and offset.
unfoldable pub originator_from : List Frame → Option (ℕ × List ℕ × ℕ) → Option (ℕ × List ℕ × ℕ)
originator_from [] fallback = fallback
originator_from (no_frame ∷ fs) fallback = fallback
originator_from (unresolved ∷ fs) fallback = originator_from fs fallback
originator_from (in_module base at offset ∷ fs) fallback =
    let skip = originator_from fs fallback in
    let next =
      originator_from fs (elim fallback [ none ↦ some (at, base, offset) | some f ↦ some f ]) in
    if string_contains_i base own_name
    then skip
    else if contains_any base runtime_names
    then skip
    else if contains_any base game_names
    then some (at, base, offset)
    else next

-- `ResolveOriginatorFrame`
unfoldable pub resolve_originator_frame : List Frame → Option (ℕ × List ℕ × ℕ)
resolve_originator_frame frames = originator_from frames none

-- The kind as a number, the order of the enumeration.
abbrev pub kind_code : AllocCallerKind → ℕ
kind_code game_exe = 0
kind_code graphics = 1
kind_code runtime_dll = 2
kind_code system_dll = 3
kind_code mod_dll = 4
kind_code unknown = 5

unfoldable pub is_proxy_candidate : AllocCallerKind → Bool
is_proxy_candidate game_exe = true
is_proxy_candidate graphics = true
is_proxy_candidate runtime_dll = true
is_proxy_candidate system_dll = true
is_proxy_candidate mod_dll = true
is_proxy_candidate unknown = false
