-- ===== src/Tests/Sync.antt =====
-- Profiles, normalization and the sync of one tab at concrete preferences.
use silo_plugin_xtream_libra.Prelude.{
  ◌≡◌, refl, sym, ◌∙◌, Bool, true, false, none, some, [], ◌∷◌, or_else, ◌&&◌,
}
use silo_plugin_xtream_libra.Text.{codes, is_empty, text_eq, text_eq_refl, contains}
use silo_plugin_xtream_libra.Text.Chars.{ascii_lower, trim}
use silo_plugin_xtream_libra.Json.{
  bool, num, str, obj, object, Fields, end, get, put, assign, own_fields, truthy, id_texts, del,
  to_text, to_string, keys, json_eq,
}
use silo_plugin_xtream_libra.Ids.{unique_ids}
use silo_plugin_xtream_libra.Prefs.Keys.{
  favorites, favorite_order, profile_scoped_keys, prefs_map_keys,
}
use silo_plugin_xtream_libra.Prefs.Diff.{
  value_equal, list_limit, apply_prefs_diff, write_value, prune_favorite_order, merge_key,
  merge_other_key, merge_map, merge_sub_key, favorites_in_order,
}
use silo_plugin_xtream_libra.Prefs.Lists.{merge_unlimited, reordered}
use silo_plugin_xtream_libra.Prefs.Lists.Members.{contains-merge_unlimited}
use silo_plugin_xtream_libra.Prefs.Profiles.{
  profile_view, merge_profile_view, profile_section, view_key,
}
use silo_plugin_xtream_libra.Prefs.Profiles.Views.{
  profile_view-merge_profile_view, profile_view-other,
}
use silo_plugin_xtream_libra.Prefs.Defaults.{
  normalize_preferences, merge_prefs, default_prefs, normalized_fields, normalize_shapes,
  normalize_channels, update_field, recent_searches, normal_favorite_order, is_valid_favorite,
  normal_recent_channels, normal_memberships, normalize_keyword_passes, number_or_zero, is_true,
}
use silo_plugin_xtream_libra.Prefs.Phantoms.{drop_known_phantoms}
use silo_plugin_xtream_libra.Prefs.Sync.Saves.Races.{reloaded, after, finish_save-finish_reload}
use silo_plugin_xtream_libra.Prefs.Defaults.Normal.{normalize_preferences-favorite_order}
use silo_plugin_xtream_libra.Prefs.Sync.{
  Tab, saving, prefs_key, profile_switched, discard_pending_edits, normalize, adopt_loaded_prefs,
  adopt_baseline, drop_known, drop_phantoms, read_prefs_value, schedule_flush,
}
use silo_plugin_xtream_libra.Prefs.Sync.Saves.{
  Save, started, remote_prefs, begin_save, merge_save, finish_save, fail_save, finish_reload,
}
use silo_plugin_xtream_libra.Prefs.Sync.Saves.Isolation.{merge_save-profiles, merge_save-written}
use silo_plugin_xtream_libra.Prefs.Sync.Saves.Edits.{
  finish_save-unedited, finish_save-edited, fail_save-begin_save,
}

abbrev stored : Fields
stored = object (
    (favorites, obj (object ((codes "a", bool true) ∷ [])))
    ∷ (codes "sort", str (codes "name"))
    ∷ [])

abbrev edited : Fields
edited = object (
    (favorites, obj (object ((codes "b", bool true) ∷ [])))
    ∷ (codes "sort", str (codes "number"))
    ∷ [])

contains-merge_unlimited_example :
    contains (codes "b") (merge_unlimited favorite_order (codes "a" ∷ []) [] (codes "b" ∷ []))
    ≡ true
unfolding contains text_eq reordered json_eq
contains-merge_unlimited_example =
    contains-merge_unlimited favorite_order (codes "b") (codes "a" ∷ []) [] (codes "b" ∷ [])

profile_view-merge_profile_view_example :
    get favorites (profile_view (merge_profile_view (some stored) edited (codes "p")) (codes "p"))
    ≡ some (obj (object ((codes "b", bool true) ∷ [])))
unfolding get text_eq
profile_view-merge_profile_view_example =
    profile_view-merge_profile_view (some stored) edited (codes "p") favorites refl refl

profile_view-other_example :
    get favorites (profile_view (merge_profile_view (some stored) edited (codes "p")) (codes "q"))
    ≡ get favorites (profile_view stored (codes "q"))
unfolding text_eq contains profile_scoped_keys
profile_view-other_example =
    profile_view-other stored edited (codes "p") (codes "q") favorites refl refl refl

normalize_preferences-favorite_order_example :
    contains
      (codes "b")
      (id_texts (get favorite_order (normalize_preferences (codes "b" ∷ []) edited)))
    ≡ (truthy (
          get
            (codes "b")
            (own_fields (get favorites (normalize_preferences (codes "b" ∷ []) edited))))
        && true)
unfolding contains text_eq
normalize_preferences-favorite_order_example =
    normalize_preferences-favorite_order (codes "b" ∷ []) edited (codes "b")

abbrev tab : Tab
tab = record {
  preferences = edited;
  channels = codes "b" ∷ [];
  teams = none;
  viewer = codes "p";
  installed = true;
  loaded = true;
  profile_id = codes "p";
  baseline = some stored;
  dirty = true;
  quiet = true;
  timer = false;
  retry_timer = false;
  last_remote_check = 0;
  status = saving;
}

abbrev save : Save
save = record { was_quiet = true; local = edited; before = some stored; owner = codes "p" }

fail_save-begin_save_example :
    let failed = fail_save (begin_save tab).0 in
    (failed.dirty ≡ true) × (failed.retry_timer ≡ true) × ((begin_save failed).1 ≡ started save)
unfolding begin_save profile_switched text_eq
fail_save-begin_save_example = fail_save-begin_save tab save refl

abbrev server : Fields
server = object ((prefs_key, obj stored) ∷ (codes "other", num 7) ∷ [])

abbrev merged : Fields
merged =
    apply_prefs_diff (profile_view (remote_prefs ascii_lower 9 server) (codes "p")) (some stored)
      (some edited)

abbrev saved : Fields
saved =
    put prefs_key
      (obj (merge_profile_view (some (remote_prefs ascii_lower 9 server)) merged (codes "p")))
      server

-- The sort was edited, and is written for its owner only.
merge_save-written_example :
    (merge_save ascii_lower 9 (codes "q") save server ≡ none)
    × ((m : Fields) × (v : Fields) × (p : Fields) × (merge_save ascii_lower 9
            (codes "p")
            save
            server
          ≡ some (m, v))
        × (get prefs_key v ≡ some (obj p))
        × (get (codes "sort") (profile_view p (codes "p")) ≡ some (str (codes "number")))
        × (get (codes "other") v ≡ some (num 7)))
unfolding text_eq contains prefs_map_keys list_limit value_equal json_eq get
merge_save-written_example =
    merge_save-written ascii_lower 9 save server (codes "q") (codes "sort") (codes "other") refl
      refl refl refl refl refl refl refl

merge_save-profiles_example :
    get favorites (
      profile_view
        (merge_profile_view (some (remote_prefs ascii_lower 9 server)) merged (codes "p"))
        (codes "q"))
    ≡ get favorites (profile_view (remote_prefs ascii_lower 9 server) (codes "q"))
unfolding merge_save text_eq contains profile_scoped_keys
merge_save-profiles_example =
    (merge_save-profiles ascii_lower 9 (codes "p") save server {merged = merged} {saved = saved}
        refl refl).2
      (codes "q") favorites refl refl refl

-- The tab when its viewer went back to the stored sort while the save was in flight.
abbrev returned : Tab
returned = record tab { preferences = stored; dirty = false }

finish_save-edited_example :
    get (codes "sort") (finish_save 9 save edited returned).preferences ≡ some (str (codes "name"))
unfolding value_equal json_eq get text_eq contains prefs_map_keys list_limit
finish_save-edited_example =
    finish_save-edited 9 save edited returned (codes "sort") refl refl refl refl refl

finish_save-unedited_example :
    get (codes "sort") (finish_save 9 save edited tab).preferences
    ≡ get (codes "sort") (or_else (finish_save 9 save edited tab).baseline end)
unfolding value_equal json_eq get text_eq
finish_save-unedited_example = finish_save-unedited 9 save edited tab (codes "sort") refl refl refl

-- A declaration that unfolds this one can compute a reload.
computes : Bool
unfolding get text_eq contains value_equal json_eq prefs_map_keys list_limit begin_save
    finish_reload profile_switched discard_pending_edits normalize adopt_loaded_prefs adopt_baseline
    drop_known drop_phantoms drop_known_phantoms remote_prefs merge_prefs default_prefs
    normalized_fields assign put read_prefs_value profile_view profile_section view_key write_value
    del profile_scoped_keys normalize_preferences normalize_shapes normalize_channels update_field
    schedule_flush own_fields recent_searches normal_favorite_order is_valid_favorite
    normal_recent_channels normal_memberships unique_ids to_text to_string normalize_keyword_passes
    number_or_zero is_true keys trim
computes = true

reloaded_sort :
    get (codes "sort") (reloaded ascii_lower 9 server server tab save merged saved).preferences
    ≡ some (str (codes "name"))
unfolding computes
reloaded_sort = refl

-- The tab after the save, and the save that follows.
abbrev tab_after : Tab
tab_after = after ascii_lower 9 server server tab save merged saved

abbrev next_save : Save
next_save = record {
  was_quiet = tab_after.quiet;
  local = tab_after.preferences;
  before = tab_after.baseline;
  owner = tab_after.profile_id;
}

merged_sort : get (codes "sort") merged ≡ some (str (codes "number"))
unfolding computes apply_prefs_diff prune_favorite_order merge_key merge_other_key merge_map
    merge_sub_key favorites_in_order
merged_sort = refl

reloaded_channels :
    (reloaded ascii_lower 9 server server tab save merged saved).channels ≡ codes "b" ∷ []
unfolding finish_reload begin_save profile_switched computes
reloaded_channels = refl

normalized_sort :
    get (codes "sort") (normalize_preferences (codes "b" ∷ []) merged) ≡ some (str (codes "number"))
unfolding computes apply_prefs_diff prune_favorite_order merge_key merge_other_key merge_map
    merge_sub_key favorites_in_order
normalized_sort = refl

kept_sort :
    get (codes "sort") (
      normalize_preferences
        (reloaded ascii_lower 9 server server tab save merged saved).channels
        merged)
    ≡ get (codes "sort") merged
kept_sort = rw reloaded_channels (normalized_sort ∙ sym merged_sort)

saved_now : merge_save ascii_lower 9 (codes "p") save server ≡ some (merged, saved)
unfolding merge_save text_eq
saved_now = refl

reloaded_clean : (reloaded ascii_lower 9 server server tab save merged saved).dirty ≡ false
unfolding computes
reloaded_clean = refl

save_begun : (begin_save tab).1 ≡ started save
unfolding begin_save profile_switched text_eq
save_begun = refl

sort_edited : value_equal (get (codes "sort") edited) (get (codes "sort") stored) ≡ false
unfolding value_equal json_eq get text_eq
sort_edited = refl

sort_older :
    value_equal
      (get (codes "sort") (reloaded ascii_lower 9 server server tab save merged saved).preferences)
      (get (codes "sort") edited)
    ≡ false
unfolding value_equal json_eq get text_eq
sort_older = rw reloaded_sort refl

sort_single : contains (codes "sort") prefs_map_keys ≡ false
unfolding contains prefs_map_keys text_eq
sort_single = refl

sort_plain : list_limit (codes "sort") (get (codes "sort") edited) ≡ none
unfolding list_limit get text_eq
sort_plain = refl

sort_plain_older :
    list_limit
      (codes "sort")
      (get (codes "sort") (reloaded ascii_lower 9 server server tab save merged saved).preferences)
    ≡ none
unfolding list_limit text_eq
sort_plain_older = rw reloaded_sort refl

-- The tab after the save still shows its loaded profile.
after_loaded : tab_after.loaded ≡ true
unfolding computes finish_save
after_loaded = refl

after_owner : tab_after.profile_id ≡ codes "p"
unfolding computes finish_save
after_owner = refl

after_viewer : tab_after.viewer ≡ codes "p"
unfolding computes finish_save
after_viewer = refl

starts_loaded :
    (t : Tab)
    → t.loaded ≡ true
    → t.dirty ≡ true
    → text_eq t.profile_id t.viewer ≡ true
    → (begin_save t).1
      ≡ started (record {
        was_quiet = t.quiet;
        local = t.preferences;
        before = t.baseline;
        owner = t.profile_id;
      })
unfolding begin_save profile_switched
starts_loaded t loaded dirty same = rw (loaded, dirty, same) refl

next_starts : (begin_save (record tab_after { dirty = true })).1 ≡ started next_save
next_starts =
    starts_loaded (record tab_after { dirty = true }) after_loaded refl
      (rw (after_owner, after_viewer) (text_eq_refl (codes "p")))

next_owned : is_empty next_save.owner ≡ false
next_owned = rw after_owner refl

finish_save-finish_reload_example :
    (get (codes "sort") merged ≡ get (codes "sort") edited)
    × (get (codes "sort") tab_after.preferences
        ≡ get
            (codes "sort")
            (reloaded ascii_lower 9 server server tab save merged saved).preferences)
    × (tab_after.dirty ≡ false)
    × ((m : Fields) × (v : Fields) × (p : Fields) × (merge_save ascii_lower 10 next_save.owner
            next_save server
          ≡ some (m, v))
        × (get prefs_key v ≡ some (obj p))
        × (get (codes "sort") (profile_view p next_save.owner)
            ≡ get
                (codes "sort")
                (reloaded ascii_lower 9 server server tab save merged saved).preferences))
unfolding text_eq
finish_save-finish_reload_example =
    finish_save-finish_reload ascii_lower 9 server server tab save merged saved (codes "sort") refl
      refl save_begun saved_now sort_edited kept_sort reloaded_clean sort_older sort_single
      sort_plain sort_plain_older refl tab_after.preferences server 10 next_save refl next_starts
      next_owned
