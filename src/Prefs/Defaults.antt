-- ===== src/Prefs/Defaults.antt =====
-- The shape of the preferences: `defaultPrefs`, `mergePrefs`, `normalizeKeywordPasses` and
-- `normalizePreferences` of internal/plugin/ui/core.js. `toLowerCase` and the clock are arguments.
pub mod Normal
use mathlib.Core.List.{foldl}
use silo_plugin_xtream_libra.Prelude.{
  ℕ, zero, suc, ◌+◌, min, Bool, true, false, not, ◌&&◌, ◌||◌, Option, none, some, List, [], ◌∷◌,
  ◌++◌, map, ltb, ◌==◌, if◌then◌else◌, or_else, take, filter_by,
}
use silo_plugin_xtream_libra.Text.{Text, codes, is_empty, contains}
use silo_plugin_xtream_libra.Text.Chars.{trim, strip, replace_runs, is_slug_char, non_empty}
use silo_plugin_xtream_libra.Json.{
  Json, null, bool, num, str, arr, obj, object, Items, nil, Fields, end, field, get, put, keys,
  assign, own_fields, plain_object, items, truthy, to_text, to_string, join_items, json_items,
  text_array, id_texts, decimal_value,
}
use silo_plugin_xtream_libra.Ids.{unique_ids}
use silo_plugin_xtream_libra.Prefs.Keys.{favorites, favorite_order, hidden_categories, stats_delay}

-- `value || fallback`
abbrev pub or_value : Option Json → Json → Json
or_value value fallback = if truthy value then or_else value fallback else fallback

-- `Number(value) || 0`, for whole numbers
unfoldable pub number_or_zero : Option Json → ℕ
number_or_zero none = 0
number_or_zero (some null) = 0
number_or_zero (some (bool b)) = if b then 1 else 0
number_or_zero (some (num n)) = n
number_or_zero (some (str s)) = or_else (decimal_value 0 (trim s)) 0
number_or_zero (some (arr xs)) = or_else (decimal_value 0 (trim (join_items xs))) 0
number_or_zero (some (obj fs)) = 0

abbrev pub category_browse_defaults : Fields
category_browse_defaults = object (
    (codes "sort", str (codes "provider"))
    ∷ (codes "layout", str (codes "grid"))
    ∷ (codes "logoStyle", str (codes "color"))
    ∷ (codes "cleanNames", bool false)
    ∷ [])

abbrev pub playback_defaults : Fields
playback_defaults = object (
    (codes "backendProxySupported", bool false)
    ∷ (codes "streamMode", str (codes "redirect"))
    ∷ (codes "outputFormat", str (codes "ts"))
    ∷ [])

unfoldable pub default_prefs : Fields
default_prefs = object (
    (stats_delay, num 0)
    ∷ (favorites, obj end)
    ∷ (codes "autoFavorites", obj end)
    ∷ (favorite_order, arr nil)
    ∷ (hidden_categories, obj end)
    ∷ (codes "sportsFavoriteTeams", obj end)
    ∷ (codes "keywordPasses", arr nil)
    ∷ (codes "groupCategoriesByPipe", bool false)
    ∷ (codes "recentSearches", arr nil)
    ∷ (codes "recentChannels", arr nil)
    ∷ (codes "continueWatching", obj end)
    ∷ (codes "playback", obj playback_defaults)
    ∷ (codes "categoryBrowse", obj category_browse_defaults)
    ∷ (codes "customGroups", arr nil)
    ∷ (codes "customGroupMemberships", obj end)
    ∷ [])

-- `value.key` where the value may be no object
abbrev pub member : Text → Json → Option Json
member key (obj fs) = get key fs
member key _ = none

-- A record of a keyword that is followed, or none if the row is dropped.
unfoldable pub keyword_pass : (Text → Text) → ℕ → List Text → Json → Option (Text × Json)
keyword_pass lower now seen pass =
    let keyword = trim (
      to_text (
        or_value (member (codes "keyword") pass)
          (or_value (member (codes "name") pass) (str [])))) in
    let fallback =
      codes "keyword:" ++ replace_runs is_slug_char (codes "-") false (lower keyword) in
    let id =
      strip (λ c. c == b'-') (to_string (or_value (member (codes "id") pass) (str fallback))) in
    let created = number_or_zero (some (or_value (member (codes "createdAt") pass) (num now))) in
    if is_empty keyword || is_empty id || contains (lower keyword) seen
    then none
    else some (
      lower keyword,
      obj (
          object (
            (codes "id", str id)
            ∷ (codes "keyword", str keyword)
            ∷ (codes "createdAt", num created)
            ∷ [])),
    )

keyword_passes : (Text → Text) → ℕ → List Text → List Json → List Json
keyword_passes lower now seen [] = []
keyword_passes lower now seen (pass ∷ rest) = elim (keyword_pass lower now seen pass) [
  | none ↦ keyword_passes lower now seen rest
  | some (key, row) ↦ row ∷ keyword_passes lower now (key ∷ seen) rest
]

unfoldable pub normalize_keyword_passes : (Text → Text) → ℕ → Option Json → List Json
unfolding keyword_passes keyword_pass
normalize_keyword_passes lower now value = take 24 (keyword_passes lower now [] (items value))

-- The searches that are kept: trimmed, each once, the first twelve.
unfoldable pub recent_searches : Option Json → List Text
recent_searches value = take 12 (unique_ids (non_empty (map (λ v. trim (to_text v)) (items value))))

-- `Object.assign({}, value)`
abbrev copied : Option Json → Json
copied value = obj (assign end (own_fields value))

-- `value === true`
unfoldable pub is_true : Option Json → Bool
is_true (some (bool b)) = b
is_true _ = false

-- The properties that `mergePrefs` normalizes, of preferences that have every default.
unfoldable pub normalized_fields : (Text → Text) → ℕ → Fields → Fields
normalized_fields lower now r = object (
    (favorites, copied (get favorites r))
    ∷ (codes "autoFavorites", copied (get (codes "autoFavorites") r))
    ∷ (favorite_order, text_array (unique_ids (id_texts (get favorite_order r))))
    ∷ (hidden_categories, copied (get hidden_categories r))
    ∷ (codes "sportsFavoriteTeams", copied (get (codes "sportsFavoriteTeams") r))
    ∷ (stats_delay, num (min 300 (number_or_zero (get stats_delay r))))
    ∷ (
      codes "keywordPasses",
      arr (json_items (normalize_keyword_passes lower now (get (codes "keywordPasses") r))),
    )
    ∷ (codes "groupCategoriesByPipe", bool (is_true (get (codes "groupCategoriesByPipe") r)))
    ∷ (codes "recentSearches", text_array (recent_searches (get (codes "recentSearches") r)))
    ∷ (
      codes "recentChannels",
      text_array (take 24 (unique_ids (id_texts (get (codes "recentChannels") r)))),
    )
    ∷ (codes "continueWatching", copied (get (codes "continueWatching") r))
    ∷ (codes "playback", copied (get (codes "playback") r))
    ∷ (
      codes "categoryBrowse",
      obj (assign category_browse_defaults (own_fields (get (codes "categoryBrowse") r))),
    )
    ∷ (codes "customGroups", arr (json_items (items (get (codes "customGroups") r))))
    ∷ (codes "customGroupMemberships", copied (get (codes "customGroupMemberships") r))
    ∷ [])

unfoldable pub merge_prefs : (Text → Text) → ℕ → Option Fields → Fields
merge_prefs lower now remote =
    let filled = assign default_prefs (or_else remote end) in
    assign (assign end filled) (normalized_fields lower now filled)

-- `Number((continueWatching[id] || {}).playedAt || 0)`
unfoldable pub played_at : Fields → Text → ℕ
played_at watching id =
    number_or_zero
      (some (or_value (member (codes "playedAt") (or_value (get id watching) null)) (num 0)))

-- The stable sort of the watched channels, the latest first.
unfoldable pub insert_watched : Fields → Text → List Text → List Text
insert_watched watching id [] = id ∷ []
insert_watched watching id (other ∷ rest) =
    let later = other ∷ insert_watched watching id rest in
    if ltb (played_at watching id) (played_at watching other) then later else id ∷ other ∷ rest

unfoldable pub sort_watched : Fields → List Text → List Text
unfolding insert_watched
sort_watched watching [] = []
sort_watched watching (id ∷ ids) = insert_watched watching id (sort_watched watching ids)

-- The order of the favorites: what is stored, then every favorite that is not in it, all of them
-- channels that there are.
unfoldable pub is_valid_favorite : List Text → Fields → Text → Bool
is_valid_favorite valid p id = truthy (get id (own_fields (get favorites p))) && contains id valid

unfoldable pub normal_favorite_order : List Text → Fields → List Text
normal_favorite_order valid p = unique_ids (
    map to_text
      (filter_by (λ v. is_valid_favorite valid p (to_string v)) (items (get favorite_order p)))
    ++ filter_by (is_valid_favorite valid p) (keys (own_fields (get favorites p))))

unfoldable pub normal_recent_channels : List Text → Fields → List Text
unfolding sort_watched
normal_recent_channels valid p = take 24 (
    unique_ids (
      unique_ids (
        map to_text
          (filter_by (λ v. contains (to_string v) valid) (items (get (codes "recentChannels") p))))
      ++ filter_by (λ id. contains id valid) (sort_watched watching (keys watching))))
  where
    watching : Fields
    watching = own_fields (get (codes "continueWatching") p)

-- Every group's members, each once, as far as they are channels that there are.
unfoldable pub normal_memberships : List Text → Fields → Fields
normal_memberships valid groups =
    foldl
      (λ r id.
        put id
          (text_array (
            unique_ids
              (map to_text (filter_by (λ v. contains (to_string v) valid) (items (get id r))))))
          r)
      groups (keys groups)

-- `preferences[key] = value`, where the value is read from the preferences
unfoldable pub update_field : Text → (Fields → Json) → Fields → Fields
update_field key value p = put key (value p) p

-- `preferences[key] = preferences[key] || {}`
abbrev default_map : Text → Fields → Fields
default_map key = update_field key (λ p. or_value (get key p) (obj end))

-- The assignments of `normalizePreferences` up to the order of the favorites.
unfoldable pub normalize_shapes : Fields → Fields
normalize_shapes p =
    update_field (codes "categoryBrowse")
      (λ q. obj (assign category_browse_defaults (own_fields (get (codes "categoryBrowse") q))))
      (default_map (codes "customGroupMemberships") (
        update_field (codes "customGroups")
          (λ q. arr (json_items (items (get (codes "customGroups") q))))
          (update_field (codes "recentSearches")
            (λ q. text_array (recent_searches (get (codes "recentSearches") q)))
            (default_map (codes "sportsPreferredNetworks") (
              default_map (codes "sportsPreferredChannels")
                (default_map (codes "sportsFavoriteLeagues") (assign default_prefs p)))))))

-- The assignments that look at the channels that there are.
unfoldable pub normalize_channels : List Text → Fields → Fields
normalize_channels valid p =
    update_field (codes "customGroupMemberships")
      (λ q. obj (normal_memberships valid (own_fields (get (codes "customGroupMemberships") q))))
      (update_field (codes "recentChannels") (λ q. text_array (normal_recent_channels valid q))
        (update_field favorite_order (λ q. text_array (normal_favorite_order valid q)) p))

unfoldable pub normalize_preferences : List Text → Fields → Fields
normalize_preferences valid p = normalize_channels valid (normalize_shapes p)
