-- ===== src/Prefs/Diff/Tabs.antt =====
-- Tabs and devices that save at the same time.
use silo_plugin_xtream_libra.Prelude.{
  ◌≡◌, refl, ◌∙◌, ◌⊎◌, inl, inr, ◌&&◌, Bool-cases, true, false, Option, none, some, [], arith,
  or_else, All, filter_by-All,
}
use silo_plugin_xtream_libra.Text.{Text, text_eq, text_eq_refl, is_empty, contains}
use silo_plugin_xtream_libra.Json.{
  Json, null, bool, num, str, obj, arr, Fields, end, get, plain_object, items, truthy, to_string,
  own_fields, is_array,
}
use silo_plugin_xtream_libra.Json.Laws.{get-put, items-json_items}
use silo_plugin_xtream_libra.Prefs.Keys.{favorites, favorite_order, prefs_map_keys}
use silo_plugin_xtream_libra.Prefs.Diff.{
  value_equal, merge_map, favorites_in_order, prune_favorite_order, apply_prefs_diff,
}
use silo_plugin_xtream_libra.Prefs.Diff.Edits.{
  edited_value, merged_value, get-merge_map, get-apply_prefs_diff,
}

items_empty : (v : Option Json) → is_array v ≡ false → items v ≡ []
items_empty none h = refl
items_empty (some null) h = refl
items_empty (some (bool b)) h = refl
items_empty (some (num n)) h = refl
items_empty (some (str s)) h = refl
items_empty (some (arr xs)) h = cc
items_empty (some (obj fs)) h = refl

apart : text_eq favorite_order favorites ≡ false
unfolding text_eq
apart = refl

prune_favorite_order-All :
    (r : Fields)
    → truthy (get favorites (prune_favorite_order r)) ≡ true
    → All
        (λ id.
          truthy (get (to_string id) (own_fields (get favorites (prune_favorite_order r)))) ≡ true)
        (items (get favorite_order (prune_favorite_order r)))
unfolding prune_favorite_order favorites_in_order
prune_favorite_order-All r h =
    elim (Bool-cases (truthy (get favorites r) && is_array (get favorite_order r))) [
      | inl e ↦ rw e (
          rw (get-put, apart)
            (rw get-put (
              rw (text_eq_refl, items-json_items)
                (filter_by-All (λ id. truthy (get (to_string id) (own_fields (get favorites r))))
                  (items (get favorite_order r))))))
      | inr e ↦ rw e (rw (items_empty (get favorite_order r) (ground arith)) tt)
    ]

module _ (remote : Fields) (baseline local : Option Fields) (key : Text)
    (named : is_empty key ≡ false) (other : text_eq favorite_order key ≡ false) where
  -- A property other than the order of the favorites that this tab did not edit keeps the value that
  -- the server has. The order of the favorites is pruned to the favorites even if it was not edited.
  pub apply_prefs_diff-unedited :
      value_equal (get key (or_else local end)) (get key (or_else baseline end)) ≡ true
      → get key (apply_prefs_diff remote baseline local) ≡ get key remote
  unfolding merged_value
  apply_prefs_diff-unedited same =
      ground (arith, get-apply_prefs_diff remote baseline local key named other)

  -- In a map that this tab edited each entry has the tab's value where the tab changed the entry,
  -- and the server's value elsewhere.
  pub apply_prefs_diff-map :
      (edited : Fields) (entry : Text)
      → contains key prefs_map_keys ≡ true
      → get key (or_else local end) ≡ some (obj edited)
      → value_equal (some (obj edited)) (get key (or_else baseline end)) ≡ false
      → is_empty entry ≡ false
      → (merged : Fields) × (get key (apply_prefs_diff remote baseline local) ≡ some (obj merged))
        × (get entry merged
            ≡ edited_value
                (get entry (or_else (plain_object (get key (or_else baseline end))) end))
                (get entry edited)
                (get entry (or_else (plain_object (get key remote)) end)))
  unfolding merged_value
  apply_prefs_diff-map edited entry map_key local_value changed named_entry = (
    merge_map before edited current,
    get-apply_prefs_diff remote baseline local key named other
        ∙ rw (local_value, changed, map_key) refl,
    get-merge_map before edited current entry named_entry,
  )
    where
      before : Fields
      before = or_else (plain_object (get key (or_else baseline end))) end

      current : Fields
      current = or_else (plain_object (get key remote)) end

module _ (remote baseline first second : Fields) (key : Text) (named : is_empty key ≡ false)
    (other : text_eq favorite_order key ≡ false) where
  -- Where two tabs start from one baseline and at most one of them edited a property other than the
  -- order of the favorites, the property ends with the same value whichever saves first. For the
  -- order of the favorites this is not claimed: each merge prunes it to the favorites of the time.
  pub apply_prefs_diff-commute :
      (value_equal (get key first) (get key baseline) ≡ true)
        ⊎ (value_equal (get key second) (get key baseline) ≡ true)
      → get key (
          apply_prefs_diff
            (apply_prefs_diff remote (some baseline) (some first))
            (some baseline)
            (some second))
        ≡ get key (
            apply_prefs_diff
              (apply_prefs_diff remote (some baseline) (some second))
              (some baseline)
              (some first))
  unfolding merged_value
  apply_prefs_diff-commute apart = ground (
    arith,
    get-apply_prefs_diff remote (some baseline) (some first) key named other,
    get-apply_prefs_diff remote (some baseline) (some second) key named other,
    get-apply_prefs_diff (apply_prefs_diff remote (some baseline) (some first)) (some baseline)
        (some second) key named other,
    get-apply_prefs_diff (apply_prefs_diff remote (some baseline) (some second)) (some baseline)
        (some first) key named other,
  )

-- After a merge that holds favorites, every entry of the order of the favorites is one of them.
pub apply_prefs_diff-favorite_order :
    (remote : Fields) (baseline local : Option Fields)
    → let merged = apply_prefs_diff remote baseline local in
      truthy (get favorites merged) ≡ true
      → All
          (λ id. truthy (get (to_string id) (own_fields (get favorites merged))) ≡ true)
          (items (get favorite_order merged))
unfolding apply_prefs_diff
apply_prefs_diff-favorite_order remote baseline local = prune_favorite_order-All _
