-- ===== src/Prefs/Diff.antt =====
-- `applyPrefsDiff`: the edits of this tab, applied to what the server holds.
pub mod Sweep
pub mod Edits
pub mod Tabs
use mathlib.Core.List.{foldl}
use silo_plugin_xtream_libra.Prelude.{
  ℕ, Bool, true, false, not, ◌&&◌, ◌||◌, Option, none, some, List, [], ◌∷◌, ◌++◌, map,
  if◌then◌else◌, filter_by, or_else,
}
use silo_plugin_xtream_libra.Text.{Text, contains}
use silo_plugin_xtream_libra.Json.{
  Json, obj, arr, Fields, end, json_eq, or_null, get, put, del, keys, plain_object, is_array, items,
  own_fields, truthy, to_string, json_items, text_array, id_texts,
}
use silo_plugin_xtream_libra.Ids.{unique_ids}
use silo_plugin_xtream_libra.Prefs.Keys.{favorites, favorite_order, prefs_map_keys, union_limit}
use silo_plugin_xtream_libra.Prefs.Lists.{merge_prefs_list}

-- `prefsValueEqual`
unfoldable pub value_equal : Option Json → Option Json → Bool
value_equal left right = json_eq (or_null left) (or_null right)

-- `object[key] = value`, or `delete object[key]` where there is no value.
unfoldable pub write_value : Text → Option Json → Fields → Fields
write_value key none target = del key target
write_value key (some v) target = put key v target

-- One round of the loop over the sub-keys of a map.
unfoldable pub merge_sub_key : Fields → Fields → Fields → Text → Fields
merge_sub_key before local target key =
    if value_equal (get key local) (get key before)
    then target
    else write_value key (get key local) target

unfoldable pub merge_map : Fields → Fields → Fields → Fields
merge_map before local target =
    foldl (merge_sub_key before local) target (unique_ids (keys before ++ keys local))

-- The limit of a list that is merged, if the key names one and the tab holds an array.
unfoldable pub list_limit : Text → Option Json → Option ℕ
unfolding union_limit
list_limit key value = if is_array value then union_limit key else none

-- The last two branches of the loop over the keys: lists, and all other values.
unfoldable pub merge_other_key : Fields → Fields → Fields → Text → Fields
merge_other_key baseline local result key = elim (list_limit key (get key local)) [
  | some limit ↦
      put key
        (text_array (
          merge_prefs_list limit key (id_texts (get key result)) (id_texts (get key baseline))
            (id_texts (get key local))))
        result
  | none ↦ write_value key (get key local) result
]

-- One round of the loop over the keys.
unfoldable pub merge_key : Fields → Fields → Fields → Text → Fields
merge_key baseline local result key =
    if value_equal (get key local) (get key baseline)
    then result
    else (if contains key prefs_map_keys
        then (elim (plain_object (get key local)) [
          | some edited ↦
              put key
                (obj (
                  merge_map (or_else (plain_object (get key baseline)) end) edited
                    (or_else (plain_object (get key result)) end)))
                result
          | none ↦ merge_other_key baseline local result key
        ])
        else merge_other_key baseline local result key)

-- The order's entries that are favorites.
unfoldable pub favorites_in_order : Fields → List Json
favorites_in_order result =
    filter_by (λ id. truthy (get (to_string id) (own_fields (get favorites result))))
      (items (get favorite_order result))

-- The last step: the order lists favorites only.
unfoldable pub prune_favorite_order : Fields → Fields
prune_favorite_order result =
    if truthy (get favorites result) && is_array (get favorite_order result)
    then put favorite_order (arr (json_items (favorites_in_order result))) result
    else result

unfoldable pub apply_prefs_diff : Fields → Option Fields → Option Fields → Fields
apply_prefs_diff remote baseline local =
    let before = or_else baseline end in
    let edited = or_else local end in
    prune_favorite_order
      (foldl (merge_key before edited) remote (unique_ids (keys before ++ keys edited)))
