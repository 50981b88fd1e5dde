-- ===== src/Prefs/Diff/Edits.antt =====
-- What `applyPrefsDiff` makes of each property.
use mathlib.Core.List.{foldl}
use silo_plugin_xtream_libra.Prelude.{
  ◌≡◌, refl, ◌∙◌, true, false, ◌&&◌, Option, none, some, List, ◌++◌, arith, if◌then◌else◌, or_else,
  Option-cases, Bool-cases, inl, inr,
}
use silo_plugin_xtream_libra.Text.{Text, text_eq, text_eq_iff, is_empty, contains}
use silo_plugin_xtream_libra.Json.{
  Json, obj, Fields, end, or_null, get, keys, plain_object, is_array, truthy, text_array, id_texts,
}
use silo_plugin_xtream_libra.Json.Laws.{get-put, get-del, has-get, contains-keys, json_eq_refl}
use silo_plugin_xtream_libra.Ids.{unique_ids}
use silo_plugin_xtream_libra.Ids.Laws.{contains-unique_ids, contains-append, unique_ids-IsDistinct}
use silo_plugin_xtream_libra.Prefs.Keys.{favorites, favorite_order, prefs_map_keys}
use silo_plugin_xtream_libra.Prefs.Lists.{merge_prefs_list}
use silo_plugin_xtream_libra.Prefs.Diff.{
  value_equal, write_value, merge_sub_key, merge_map, list_limit, merge_other_key, merge_key,
  prune_favorite_order, apply_prefs_diff,
}
use silo_plugin_xtream_libra.Prefs.Diff.Sweep.{sweep}

pub get-write_value :
    (j k : Text) (v : Option Json) (r : Fields)
    → get j (write_value k v r) ≡ (if text_eq k j then v else get j r)
unfolding write_value
get-write_value j k none r = get-del j k r
get-write_value j k (some v) r = get-put j k v r

pub value_equal_refl : (v : Option Json) → value_equal v v ≡ true
unfolding value_equal
value_equal_refl v = json_eq_refl (or_null v)

-- A value that this tab edited is the tab's, any other one is the server's.
abbrev pub edited_value : Option Json → Option Json → Option Json → Option Json
edited_value before local old = if value_equal local before then old else local

get-merge_sub_key :
    (before local r : Fields) (k j : Text)
    → get j (merge_sub_key before local r k)
      ≡ (if text_eq k j then edited_value (get k before) (get k local) (get k r) else get j r)
unfolding merge_sub_key
get-merge_sub_key before local r k j =
    ground (arith, get-write_value j k (get k local) r, text_eq_iff k j)

-- A name that neither object has is not edited.
absent_equal :
    (j : Text) (before local : Fields)
    → is_empty j ≡ false
    → contains j (unique_ids (keys before ++ keys local)) ≡ false
    → value_equal (get j local) (get j before) ≡ true
absent_equal j before local e h = ground (
  arith,
  contains-unique_ids j (keys before ++ keys local),
  contains-append j (keys before) (keys local),
  contains-keys j before,
  contains-keys j local,
  has-get j before,
  has-get j local,
  value_equal_refl none,
)

-- In a merged map each name has the tab's value where the tab changed it, and the server's
-- value elsewhere.
pub get-merge_map :
    (before local target : Fields) (j : Text)
    → is_empty j ≡ false
    → get j (merge_map before local target)
      ≡ edited_value (get j before) (get j local) (get j target)
unfolding merge_map
get-merge_map before local target j e = ground (
  arith,
  sweep (merge_sub_key before local) (λ k. edited_value (get k before) (get k local))
      (get-merge_sub_key before local) target names j (unique_ids-IsDistinct _),
  absent_equal j before local e,
)
  where
    names : List Text
    names = unique_ids (keys before ++ keys local)

-- The same for lists and other values.
unfoldable pub other_value : Text → Option Json → Option Json → Option Json → Option Json
other_value key remote before local = elim (list_limit key local) [
  | some limit ↦
      some (
        text_array
          (merge_prefs_list limit key (id_texts remote) (id_texts before) (id_texts local)))
  | none ↦ local
]

-- What the loop makes of one property, from the server's, the old and the tab's value.
unfoldable pub merged_value : Text → Option Json → Option Json → Option Json → Option Json
merged_value key remote before local =
    if value_equal local before
    then remote
    else (if contains key prefs_map_keys
        then (elim (plain_object local) [
          | some edited ↦ some (
              obj (
                merge_map (or_else (plain_object before) end) edited
                  (or_else (plain_object remote) end)))
          | none ↦ other_value key remote before local
        ])
        else other_value key remote before local)

-- A single value is the tab's where the tab edited it, and the server's elsewhere.
pub merged_value-single :
    (key : Text) (remote before local : Option Json)
    → contains key prefs_map_keys ≡ false
    → list_limit key local ≡ none
    → merged_value key remote before local ≡ (if value_equal local before then remote else local)
unfolding merged_value other_value
merged_value-single key remote before local single plain = rw single (rw (plain, other_value) refl)

get-merge_other_key :
    (b l r : Fields) (k j : Text)
    → get j (merge_other_key b l r k)
      ≡ (if text_eq k j then other_value k (get k r) (get k b) (get k l) else get j r)
unfolding merge_other_key other_value
get-merge_other_key b l r k j = elim (Option-cases (list_limit k (get k l))) [
  | inl e ↦ rw (e, merge_other_key, other_value) (get-write_value j k (get k l) r)
  | inr (limit, e) ↦ rw (e, merge_other_key, other_value) (get-put j k _ r)
]

get-merge_key :
    (b l r : Fields) (k j : Text)
    → get j (merge_key b l r k)
      ≡ (if text_eq k j then merged_value k (get k r) (get k b) (get k l) else get j r)
unfolding merge_key merged_value
get-merge_key b l r k j = elim (Option-cases (plain_object (get k l))) [
  | inl e ↦
      rw (e, merge_key, merged_value)
        (ground (arith, get-merge_other_key b l r k j, text_eq_iff k j))
  | inr (edited, e) ↦
      rw (e, merge_key, merged_value)
        (ground (
          arith,
          get-merge_other_key b l r k j,
          text_eq_iff k j,
          get-put j k
              (obj (
                merge_map (or_else (plain_object (get k b)) end) edited
                  (or_else (plain_object (get k r)) end)))
              r,
        ))
]

-- The value that the merge gives an absent name is the server's.
pub get-merged :
    (b l r : Fields) (j : Text)
    → is_empty j ≡ false
    → get j (foldl (merge_key b l) r (unique_ids (keys b ++ keys l)))
      ≡ merged_value j (get j r) (get j b) (get j l)
unfolding merged_value
get-merged b l r j e = ground (
  arith,
  sweep (merge_key b l) (λ k old. merged_value k old (get k b) (get k l)) (get-merge_key b l) r
      names j (unique_ids-IsDistinct _),
  absent_equal j b l e,
)
  where
    names : List Text
    names = unique_ids (keys b ++ keys l)

pub get-prune_favorite_order :
    (r : Fields) (j : Text)
    → text_eq favorite_order j ≡ false
    → get j (prune_favorite_order r) ≡ get j r
unfolding prune_favorite_order
get-prune_favorite_order r j h =
    elim (Bool-cases (truthy (get favorites r) && is_array (get favorite_order r))) [
      | inl e ↦ rw e (rw (get-put, h) refl)
      | inr e ↦ rw e
    ]

-- Every property but the order of the favorites is merged by its own three values.
pub get-apply_prefs_diff :
    (remote : Fields) (baseline local : Option Fields) (key : Text)
    → is_empty key ≡ false
    → text_eq favorite_order key ≡ false
    → get key (apply_prefs_diff remote baseline local)
      ≡ merged_value key
          (get key remote)
          (get key (or_else baseline end))
          (get key (or_else local end))
unfolding apply_prefs_diff
get-apply_prefs_diff remote baseline local key e n =
    get-prune_favorite_order _ key n
    ∙ get-merged (or_else baseline end) (or_else local end) remote key e
