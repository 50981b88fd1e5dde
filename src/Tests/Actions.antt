-- ===== src/Tests/Actions.antt =====
-- The viewer's actions at concrete preferences.
use silo_plugin_xtream_libra.Prelude.{
  ◌≡◌, ◌≤◌, refl, Bool, true, false, none, some, [], ◌∷◌, is_some, length,
}
use silo_plugin_xtream_libra.Text.{Text, codes, text_eq, contains}
use silo_plugin_xtream_libra.Text.Chars.{
  ascii_lower, trim, strip, is_space, drop_while, replace_runs, is_slug_char,
}
use silo_plugin_xtream_libra.Json.{
  bool, num, str, arr, nil, obj, object, get, has, put, own_fields, id_texts, text_array, json_eq,
  decimal, to_text, to_string, json_items,
}
use silo_plugin_xtream_libra.Json.Laws.{HasDistinctKeys}
use silo_plugin_xtream_libra.Ids.{IsDistinct, unique_ids}
use silo_plugin_xtream_libra.Prefs.Keys.{favorites, favorite_order}
use silo_plugin_xtream_libra.Prefs.Sync.{Tab, saved, saving, save_prefs, schedule_flush}
use silo_plugin_xtream_libra.Prefs.Defaults.{number_or_zero}
use silo_plugin_xtream_libra.Prefs.Actions.{
  is_favorite, set_channel_favorite, Searches, remember_search, write_recent_searches, put_in,
  del_in,
}
use silo_plugin_xtream_libra.Prefs.Actions.Favorites.{set_channel_favorite-favorites}
use silo_plugin_xtream_libra.Prefs.Actions.Watching.{first}
use silo_plugin_xtream_libra.Prefs.Actions.Searching.{remember_search-first}
use silo_plugin_xtream_libra.Prefs.Groups.{
  Groups, create_custom_group, delete_selected_group, selected_group, custom_groups, is_taken,
  custom_memberships, slug, free_id, add_group, has_id, is_group, sort_groups, group_row,
  ensure_selected,
}
use silo_plugin_xtream_libra.Prefs.Groups.Changes.{
  IsCreated, create_custom_group-ends, create_custom_group-IsCreated,
}
use silo_plugin_xtream_libra.Prefs.Groups.Deletion.{delete_selected_group-others}

abbrev a : Text
a = codes "a"

abbrev b : Text
b = codes "b"

-- Two channels, the first of them a favorite.
abbrev tab : Tab
tab = record {
  preferences = object ((favorites, obj (object ((a, bool true) ∷ []))) ∷ []);
  channels = a ∷ b ∷ [];
  teams = none;
  viewer = codes "p";
  installed = true;
  loaded = true;
  profile_id = codes "p";
  baseline = none;
  dirty = false;
  quiet = false;
  timer = false;
  retry_timer = false;
  last_remote_check = 0;
  status = saved;
}

tab-HasDistinctKeys : HasDistinctKeys tab.preferences
unfolding has
tab-HasDistinctKeys = (refl, tt)

set_channel_favorite-favorites_example :
    ((set_channel_favorite b true tab).1 ≡ true)
    × (is_favorite a (set_channel_favorite b true tab).0.preferences ≡ true)
    × (contains a (id_texts (get favorite_order (set_channel_favorite b true tab).0.preferences))
        ≡ true)
unfolding is_favorite text_eq contains get own_fields
set_channel_favorite-favorites_example =
    set_channel_favorite-favorites b true tab tab-HasDistinctKeys refl a

abbrev searches : Searches
searches = record { tab = tab; recent = codes "news" ∷ codes "film" ∷ [] }

-- A search that was made before comes to the front.
remember_test :
    (remember_search (codes " film ") searches).recent ≡ codes "film" ∷ codes "news" ∷ []
unfolding remember_search write_recent_searches trim strip is_space drop_while unique_ids contains
    text_eq
remember_test = refl

remember_search-first_example :
    (first (remember_search (codes " film ") searches).recent ≡ some (codes "film"))
    × (length (remember_search (codes " film ") searches).recent ≤ 12)
    × IsDistinct (remember_search (codes " film ") searches).recent
    × (get (codes "recentSearches") (remember_search (codes " film ") searches).tab.preferences
        ≡ some (text_array (remember_search (codes " film ") searches).recent))
unfolding trim strip is_space drop_while
remember_search-first_example = remember_search-first (codes " film ") searches refl

-- One group with the identifier that the next one would have.
abbrev grouped : Groups
grouped = record {
  tab = record tab {
    preferences = object (
        (
          codes "customGroups",
          arr (
              json_items (
                obj (
                  object (
                    (codes "id", str (codes "group:my-tv"))
                    ∷ (codes "name", str (codes "My TV"))
                    ∷ (codes "order", num 1)
                    ∷ []))
                ∷ [])),
        )
        ∷ []);
  };
  selected = str (codes "group:my-tv");
  category = [];
}

abbrev collates : Text → Text → Bool
collates s t = false

computes : Bool
unfolding create_custom_group slug trim strip is_space drop_while replace_runs is_slug_char
    ascii_lower free_id custom_groups sort_groups is_group has_id get text_eq json_eq to_text
    to_string add_group put put_in own_fields decimal custom_memberships unique_ids contains
    selected_group ensure_selected delete_selected_group del_in group_row save_prefs schedule_flush
    number_or_zero
computes = true

abbrev created : Groups
created = record {
  tab = record grouped.tab {
    preferences = object (
        (
          codes "customGroups",
          arr (
              json_items (
                obj (
                  object (
                    (codes "id", str (codes "group:my-tv"))
                    ∷ (codes "name", str (codes "My TV"))
                    ∷ (codes "order", num 1)
                    ∷ []))
                ∷ obj (
                    object (
                      (codes "id", str (codes "group:my-tv-2"))
                      ∷ (codes "name", str (codes "my TV!"))
                      ∷ (codes "order", num 2)
                      ∷ []))
                ∷ [])),
        )
        ∷ (codes "customGroupMemberships", obj (object ((codes "group:my-tv-2", arr nil) ∷ [])))
        ∷ []);
    dirty = true;
    timer = true;
    status = saving;
  };
  selected = str (codes "group:my-tv-2");
  category = [];
}

create_test : create_custom_group collates ascii_lower (codes "my TV! ") grouped ≡ some created
unfolding computes
create_test = refl

create_custom_group-ends_example :
    is_some (create_custom_group collates ascii_lower (codes "my TV! ") grouped) ≡ true
create_custom_group-ends_example =
    create_custom_group-ends collates ascii_lower (codes "my TV! ") grouped

create_custom_group-IsCreated_example :
    (id : Text) × IsCreated collates grouped created id (codes "group:my-tv")
unfolding trim strip is_space drop_while
create_custom_group-IsCreated_example =
    create_custom_group-IsCreated collates ascii_lower (codes "my TV! ") grouped created refl
      create_test (codes "group:my-tv")

delete_selected_group-others_example :
    is_taken
      (codes "group:my-tv")
      (custom_groups collates (delete_selected_group collates created).tab.preferences)
    ≡ true
unfolding computes
delete_selected_group-others_example =
    delete_selected_group-others collates created refl (codes "group:my-tv")
