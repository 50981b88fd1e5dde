-- ===== src/Tests/Prefs.antt =====
-- The preference merge at concrete preferences.
use silo_plugin_xtream_libra.Prelude.{◌≡◌, refl, inr, Bool, true, some, [], ◌∷◌, All}
use silo_plugin_xtream_libra.Text.{Text, codes, text_eq, contains}
use silo_plugin_xtream_libra.Json.{
  bool, str, obj, object, Fields, get, put, json_eq, items, truthy, to_string, own_fields,
  text_array, keys, to_text,
}
use silo_plugin_xtream_libra.Ids.{unique_ids}
use silo_plugin_xtream_libra.Prefs.Keys.{favorites, favorite_order, prefs_map_keys}
use silo_plugin_xtream_libra.Prefs.Lists.{merge_prefs_list, reordered}
use silo_plugin_xtream_libra.Prefs.Diff.{
  value_equal, merge_map, apply_prefs_diff, merge_key, merge_other_key, merge_sub_key, write_value,
  prune_favorite_order, favorites_in_order, list_limit,
}
use silo_plugin_xtream_libra.Prefs.Diff.Tabs.{
  apply_prefs_diff-unedited, apply_prefs_diff-map, apply_prefs_diff-commute,
  apply_prefs_diff-favorite_order,
}

-- A favorite in the stored preferences, another one added by this tab.
abbrev a : Text
a = codes "a"

abbrev b : Text
b = codes "b"

abbrev stored_prefs : Fields
stored_prefs = object (
    (favorites, obj (object ((a, bool true) ∷ [])))
    ∷ (favorite_order, text_array (a ∷ []))
    ∷ (codes "sort", str (codes "name"))
    ∷ [])

abbrev edited_prefs : Fields
edited_prefs = object (
    (favorites, obj (object ((a, bool true) ∷ (b, bool true) ∷ [])))
    ∷ (favorite_order, text_array (a ∷ b ∷ []))
    ∷ (codes "sort", str (codes "name"))
    ∷ [])

abbrev other_prefs : Fields
other_prefs = object (
    (favorites, obj (object ((a, bool true) ∷ [])))
    ∷ (favorite_order, text_array (a ∷ []))
    ∷ (codes "sort", str (codes "number"))
    ∷ [])

-- A declaration that unfolds this one can compute the merge.
computes : Bool
unfolding apply_prefs_diff merge_key value_equal json_eq get text_eq unique_ids keys contains
    prefs_map_keys merge_map merge_sub_key write_value put merge_other_key list_limit
    merge_prefs_list reordered prune_favorite_order favorites_in_order to_text to_string own_fields
computes = true

apply_test :
    apply_prefs_diff other_prefs (some stored_prefs) (some edited_prefs)
    ≡ object (
        (favorites, obj (object ((a, bool true) ∷ (b, bool true) ∷ [])))
        ∷ (favorite_order, text_array (a ∷ b ∷ []))
        ∷ (codes "sort", str (codes "number"))
        ∷ [])
unfolding computes
apply_test = refl

apply_prefs_diff-unedited_example :
    get (codes "sort") (apply_prefs_diff other_prefs (some stored_prefs) (some edited_prefs))
    ≡ some (str (codes "number"))
unfolding computes
apply_prefs_diff-unedited_example =
    apply_prefs_diff-unedited other_prefs (some stored_prefs) (some edited_prefs) (codes "sort")
      refl refl refl

apply_prefs_diff-map_example :
    (merged : Fields) × (get favorites
        (apply_prefs_diff other_prefs (some stored_prefs) (some edited_prefs))
      ≡ some (obj merged))
    × (get b merged ≡ some (bool true))
unfolding computes
apply_prefs_diff-map_example =
    apply_prefs_diff-map other_prefs (some stored_prefs) (some edited_prefs) favorites refl refl
      (object ((a, bool true) ∷ (b, bool true) ∷ [])) b refl refl refl refl

apply_prefs_diff-commute_example :
    get favorites (
      apply_prefs_diff
        (apply_prefs_diff stored_prefs (some stored_prefs) (some edited_prefs))
        (some stored_prefs)
        (some other_prefs))
    ≡ get favorites (
        apply_prefs_diff
          (apply_prefs_diff stored_prefs (some stored_prefs) (some other_prefs))
          (some stored_prefs)
          (some edited_prefs))
unfolding computes
apply_prefs_diff-commute_example =
    apply_prefs_diff-commute stored_prefs stored_prefs edited_prefs other_prefs favorites refl refl
      (inr refl)

apply_prefs_diff-favorite_order_example :
    All
      (λ id.
        truthy (
          get (to_string id) (
            own_fields (
              get favorites
                (apply_prefs_diff other_prefs (some stored_prefs) (some edited_prefs)))))
        ≡ true)
      (items
        (get favorite_order (apply_prefs_diff other_prefs (some stored_prefs) (some edited_prefs))))
unfolding computes
apply_prefs_diff-favorite_order_example =
    apply_prefs_diff-favorite_order other_prefs (some stored_prefs) (some edited_prefs) refl
