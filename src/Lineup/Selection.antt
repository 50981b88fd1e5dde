-- ===== src/Lineup/Selection.antt =====
-- The viewer's selection of channel profiles: `normalizeProfileSelection` to
-- `channelMatchesProfileSelection` of internal/plugin/ui/core.js with the two caches in `state`,
-- and `applyProfileSelection` of internal/plugin/ui/app.js up to the drawing.
pub mod Cached
use silo_plugin_xtream_libra.Prelude.{
  Bool, true, false, not, ◌&&◌, ◌||◌, Option, none, some, List, [], ◌∷◌, map, if◌then◌else◌,
  filter_by, any, is_some, or_else,
}
use silo_plugin_xtream_libra.Text.{Text, codes, is_empty, text_eq, contains}
use silo_plugin_xtream_libra.Text.Chars.{trim, non_empty}
use silo_plugin_xtream_libra.Json.{
  Json, str, obj, object, Fields, end, get, put, items, to_text, text_array, json_eq,
}
use silo_plugin_xtream_libra.Ids.{unique_ids}
use silo_plugin_xtream_libra.Prefs.Defaults.{member, or_value}
use silo_plugin_xtream_libra.Lineup.Names.{Channel, Profile}

-- A cache: not computed (null), nothing to filter by (false), or a map by its keys
pub data Cache : Type 0 where
  unknown nothing : Cache
  known : List Text → Cache

-- The parts of `state` that the selection reads, with `profileSelectionIDMap` and
-- `profileChannelFilterMap`
pub record Selection : Type 0 where
  pub preferences : Fields
  pub profiles : List Profile
  pub channels : List Channel
  pub id_map : Cache
  pub channel_map : Cache

-- `availableChannelProfiles`, whose order does not matter here
unfoldable pub available_profiles : List Profile → List Profile
available_profiles = filter_by (λ p. not (is_empty p.id) && not (is_empty p.name))

is_selected_mode : Option Json → Bool
is_selected_mode none = false
is_selected_mode (some mode) = json_eq mode (str (codes "selected"))

given_ids : Json → List Text
given_ids value =
    unique_ids
      (non_empty (map (λ id. trim (to_text id)) (items (member (codes "profileIds") value))))

-- The profiles that the selection names, as far as they exist; every one if none is known
unfoldable pub selected_ids : List Profile → Json → List Text
unfolding given_ids
selected_ids profiles value = elim (available_profiles profiles) [
  | [] ↦ given_ids value
  | p ∷ ps ↦ filter_by (λ id. contains id (map (λ q. q.id) (p ∷ ps))) (given_ids value)
]

-- `normalizeProfileSelection`: the profiles that are selected, or none for all
unfoldable pub normalize_profile_selection : List Profile → Option Json → Option (List Text)
unfolding is_selected_mode selected_ids
normalize_profile_selection profiles given =
    let value = or_value given (obj end) in
    let chosen = selected_ids profiles value in
    elim chosen [
      | [] ↦ none
      | id ∷ ids ↦ if is_selected_mode (member (codes "mode") value) then some (id ∷ ids) else none
    ]

-- `profileSelection`
unfoldable pub profile_selection : Selection → Option (List Text)
unfolding normalize_profile_selection
profile_selection s =
    normalize_profile_selection s.profiles (get (codes "profileSelection") s.preferences)

unfoldable pub to_cache : Option (List Text) → Cache
to_cache none = nothing
to_cache (some ids) = known ids

-- `state.map || null` for a map that is not null, or what is computed, which is stored
unfoldable pub recall : Cache → Option (List Text) → Option (List Text)
recall unknown computed = computed
recall nothing computed = none
recall (known ids) computed = some ids

unfoldable pub keep : Cache → Option (List Text) → Cache
unfolding to_cache
keep unknown computed = to_cache computed
keep nothing computed = nothing
keep (known ids) computed = known ids

-- `selectedProfileMap`
unfoldable pub selected_profile_map : Selection → Option (List Text) × Selection
unfolding recall keep profile_selection
selected_profile_map s = (
  recall s.id_map (profile_selection s),
  record s { id_map = keep s.id_map (profile_selection s) },
)

-- `profileSelectionIsAll`
unfoldable pub profile_selection_is_all : Selection → Bool
unfolding selected_profile_map
profile_selection_is_all s = not (is_some (selected_profile_map s).0)

unfoldable pub in_profiles : List Text → Channel → Bool
in_profiles selected c = any (λ id. contains id selected) c.profile_ids

-- The identifiers of the channels in the selected profiles
unfoldable pub profile_channels : List Channel → Option (List Text) → Option (List Text)
profile_channels channels none = none
profile_channels channels (some ids) = some (map (λ c. c.id) (filter_by (in_profiles ids) channels))

-- What is stored: nothing if the cache had an answer
unfoldable pub store_map : Cache → Option (List Text) → Selection → Selection → Selection
unfolding to_cache
store_map unknown computed asked s = record asked { channel_map = to_cache computed }
store_map nothing computed asked s = s
store_map (known ids) computed asked s = s

-- `selectedProfileChannelMap`
unfoldable pub selected_profile_channel_map : Selection → Option (List Text) × Selection
unfolding selected_profile_map profile_channels in_profiles recall store_map
selected_profile_channel_map s =
    let (selected, asked) = selected_profile_map s in
    let computed = profile_channels s.channels selected in
    (recall s.channel_map computed, store_map s.channel_map computed asked s)

matches_selected : Option (List Text) → Channel → Bool
unfolding in_profiles
matches_selected none c = false
matches_selected (some ids) c = in_profiles ids c

-- What follows in `channelMatchesProfileSelection` on the answer of `selectedProfileChannelMap` and
-- the state that it leaves: the second call of `selectedProfileMap` stores its answer too.
matches_allowed : Option (List Text) → Channel → Selection → Bool × Selection
unfolding matches_selected
matches_allowed none c asked = (true, asked)
matches_allowed (some ids) c asked =
    if not (is_empty c.id) && contains c.id ids then (true, asked) else (
      is_empty c.id && matches_selected (selected_profile_map asked).0 c,
      (selected_profile_map asked).1,
    )

-- `channelMatchesProfileSelection`, for a channel that there is
unfoldable pub channel_matches_profile_selection : Selection → Channel → Bool × Selection
unfolding matches_allowed selected_profile_channel_map
channel_matches_profile_selection s c =
    let (allowed, asked) = selected_profile_channel_map s in matches_allowed allowed c asked

-- `invalidateProfileSelectionCache`
unfoldable pub invalidate_profile_selection_cache : Selection → Selection
invalidate_profile_selection_cache s = record s { id_map = unknown; channel_map = unknown }

-- The stored form of a selection
stored_selection : Option (List Text) → Json
stored_selection none =
    obj (object ((codes "mode", str (codes "all")) ∷ (codes "profileIds", text_array []) ∷ []))
stored_selection (some ids) =
    obj
      (object ((codes "mode", str (codes "selected")) ∷ (codes "profileIds", text_array ids) ∷ []))

-- `applyProfileSelection`
unfoldable pub apply_profile_selection : Option Json → Selection → Selection
unfolding invalidate_profile_selection_cache stored_selection
apply_profile_selection given s = invalidate_profile_selection_cache (record s {
  preferences =
      put (codes "profileSelection")
        (stored_selection (normalize_profile_selection s.profiles given)) s.preferences;
})
