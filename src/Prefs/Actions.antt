-- ===== src/Prefs/Actions.antt =====
-- The actions of the viewer that change the preferences of a tab: the favorites of
-- internal/plugin/ui/app.js, and the watch history and the searches of
-- internal/plugin/ui/core.js. The maps of the preferences are objects, as `mergePrefs` leaves
-- them; drawing the page is left out. The clock is an argument.
pub mod Shapes
pub mod Favorites
pub mod Watching
pub mod Searching
use silo_plugin_xtream_libra.Prelude.{
  ℕ, ◌+◌, Bool, true, false, not, ◌&&◌, Option, List, [], ◌∷◌, ◌++◌, map, leb, if◌then◌else◌,
  filter_by, take, some, none,
}
use silo_plugin_xtream_libra.Text.{Text, codes, is_empty}
use silo_plugin_xtream_libra.Text.Chars.{trim, non_empty}
use silo_plugin_xtream_libra.Json.{
  Json, bool, num, str, arr, obj, object, Fields, end, get, put, del, own_fields, items, truthy,
  id_texts, text_array, json_items, json_eq,
}
use silo_plugin_xtream_libra.Ids.{unique_ids}
use silo_plugin_xtream_libra.Prefs.Keys.{favorites, favorite_order}
use silo_plugin_xtream_libra.Prefs.Defaults.{
  member, or_value, number_or_zero, recent_searches, normalize_keyword_passes,
}
use silo_plugin_xtream_libra.Prefs.Sync.{Tab, normalize, save_prefs}

abbrev pub auto_favorites : Text
auto_favorites = codes "autoFavorites"

abbrev pub continue_watching : Text
continue_watching = codes "continueWatching"

abbrev pub recent_channels : Text
recent_channels = codes "recentChannels"

-- `preferences[key]` as the object that it is
abbrev pub map_at : Text → Fields → Fields
map_at key p = own_fields (get key p)

-- `preferences[key][id] = value`
unfoldable pub put_in : Text → Text → Json → Fields → Fields
put_in key id value p = put key (obj (put id value (map_at key p))) p

-- `delete preferences[key][id]`
unfoldable pub del_in : Text → Text → Fields → Fields
del_in key id p = put key (obj (del id (map_at key p))) p

-- `!!favoriteMap()[id]`
unfoldable pub is_favorite : Text → Fields → Bool
is_favorite id p = truthy (get id (map_at favorites p))

-- The assignments of `setChannelFavorite`
unfoldable pub edit_favorite : Text → Bool → Fields → Fields
edit_favorite id true p =
    let marked = put_in favorites id (bool true) p in
    put favorite_order (text_array (unique_ids (id_texts (get favorite_order marked) ++ (id ∷ []))))
      marked
edit_favorite id false p =
    let cleared = del_in auto_favorites id (del_in favorites id p) in
    put favorite_order
      (arr (
        json_items
          (filter_by (λ v. not (json_eq v (str id))) (items (get favorite_order cleared)))))
      cleared

-- `setChannelFavorite`, with its result
unfoldable pub set_channel_favorite : Text → Bool → Tab → Tab × Bool
set_channel_favorite id enabled t =
    let edited = record t { preferences = edit_favorite id enabled t.preferences } in
    let stored = save_prefs false (normalize edited) in
    if is_empty id then (t, false) else (stored, is_favorite id stored.preferences)

-- `existing.plays + 1`
unfoldable pub next_plays : Text → Fields → ℕ
next_plays id p =
    number_or_zero (
      some (
        or_value (member (codes "plays") (or_value (get id (map_at continue_watching p)) (obj end)))
          (num 0)))
    + 1

-- The entry of the watch history
unfoldable pub watch_entry : ℕ → Text → Text → ℕ → Json
watch_entry now id name plays = obj (
    object (
      (codes "itemKind", str (codes "channel"))
      ∷ (codes "itemId", str id)
      ∷ (codes "itemName", str (if is_empty name then id else name))
      ∷ (codes "playedAt", num now)
      ∷ (codes "plays", num plays)
      ∷ []))

-- The assignments of `recordWatchPreference` that it always makes
unfoldable pub put_watch : ℕ → Text → Text → Fields → Fields
put_watch now id name p = put_in continue_watching id (watch_entry now id name (next_plays id p)) (
    put recent_channels (text_array (take 24 (unique_ids (id ∷ id_texts (get recent_channels p)))))
      p)

-- The automatic favorite after the third play
unfoldable pub mark_watched : Text → ℕ → Fields → Fields
mark_watched id plays p =
    if leb 3 plays && not (is_favorite id p) then put_in auto_favorites id (bool true) p else p

unfoldable pub edit_watch : ℕ → Text → Text → Fields → Fields
edit_watch now id name p = mark_watched id (next_plays id p) (put_watch now id name p)

-- `recordWatchPreference`, for the identifier and the name of a channel
unfoldable pub record_watch_preference : ℕ → Text → Text → Tab → Tab
record_watch_preference now id name t =
    if is_empty id
    then t
    else save_prefs false
        (normalize (record t { preferences = edit_watch now id name t.preferences }))

-- The preferences with `state.recentSearches`
pub record Searches : Type 0 where
  pub tab : Tab
  pub recent : List Text

-- `readRecentSearches`
unfoldable pub read_recent_searches : Fields → List Text
read_recent_searches p = recent_searches (get (codes "recentSearches") p)

-- `writeRecentSearches`
unfoldable pub write_recent_searches : List Text → Searches → Searches
write_recent_searches searches s =
    let kept = take 12 (unique_ids (non_empty (map trim searches))) in
    record {
      recent = kept;
      tab = save_prefs true (record s.tab {
        preferences = put (codes "recentSearches") (text_array kept) s.tab.preferences;
      });
    }

-- `rememberSearch`
unfoldable pub remember_search : Text → Searches → Searches
remember_search value s =
    if is_empty (trim value) then s else write_recent_searches (trim value ∷ s.recent) s

-- `clearRecentSearches`
unfoldable pub clear_recent_searches : Searches → Searches
clear_recent_searches s = write_recent_searches [] s

-- `keywordPasses`
unfoldable pub keyword_passes : (Text → Text) → ℕ → Fields → List Json
keyword_passes lower now p = normalize_keyword_passes lower now (get (codes "keywordPasses") p)

abbrev keep_passes : List Json → Tab → Tab
keep_passes passes t =
    save_prefs false (record t {
      preferences = put (codes "keywordPasses") (arr (json_items passes)) t.preferences;
    })

-- `addKeywordPass`
unfoldable pub add_keyword_pass : (Text → Text) → ℕ → Text → Tab → Tab
add_keyword_pass lower now keyword t =
    let row =
      obj (object ((codes "keyword", str (trim keyword)) ∷ (codes "createdAt", num now) ∷ [])) in
    let rows = keyword_passes lower now t.preferences ++ (row ∷ []) in
    if is_empty (trim keyword)
    then t
    else keep_passes (normalize_keyword_passes lower now (some (arr (json_items rows)))) t

-- `removeKeywordPass`
unfoldable pub remove_keyword_pass : (Text → Text) → ℕ → Text → Tab → Tab
remove_keyword_pass lower now id t =
    keep_passes
      (filter_by (λ pass. not (is_same_id (member (codes "id") pass)))
        (keyword_passes lower now t.preferences))
      t
  where
    is_same_id : Option Json → Bool
    is_same_id none = false
    is_same_id (some v) = json_eq v (str id)
