-- ===== src/Prefs/Groups.antt =====
-- The viewer's own groups of channels, of internal/plugin/ui/app.js: `customGroups` and the
-- handlers that create, fill and delete a group. `toLowerCase` and the order of `localeCompare`
-- are arguments; the orders of the groups are numbers, the identifiers texts, and drawing the page
-- is left out.
pub mod Loop
pub mod Changes
pub mod Deletion
use silo_plugin_xtream_libra.Prelude.{
  ℕ, zero, suc, ◌+◌, Bool, true, false, not, ◌&&◌, ◌||◌, Option, none, some, List, [], ◌∷◌, ◌++◌,
  ltb, ◌==◌, if◌then◌else◌, filter_by, any, find, take, length, or_else,
}
use silo_plugin_xtream_libra.Text.{Text, codes, is_empty, text_eq}
use silo_plugin_xtream_libra.Text.Chars.{trim, strip, replace_runs, is_slug_char}
use silo_plugin_xtream_libra.Json.{
  Json, num, str, arr, obj, object, nil, Fields, get, put, del, items, truthy, to_text, to_string,
  text_array, id_texts, json_items, json_eq, decimal,
}
use silo_plugin_xtream_libra.Ids.{unique_ids}
use silo_plugin_xtream_libra.Prefs.Defaults.{member, or_value, number_or_zero}
use silo_plugin_xtream_libra.Prefs.Sync.{Tab, save_prefs}
use silo_plugin_xtream_libra.Prefs.Actions.{map_at, put_in, del_in}

abbrev pub custom_groups_key : Text
custom_groups_key = codes "customGroups"

abbrev pub memberships_key : Text
memberships_key = codes "customGroupMemberships"

-- `group.id === value`
unfoldable pub has_id : Json → Json → Bool
has_id value group = elim (member (codes "id") group) [ none ↦ false | some v ↦ json_eq v value ]

-- `group && group.id && group.name`
unfoldable pub is_group : Json → Bool
is_group group =
    truthy (some group)
    && truthy (member (codes "id") group)
    && truthy (member (codes "name") group)

group_order : Json → ℕ
group_order group = number_or_zero (some (or_value (member (codes "order") group) (num 0)))

group_name : Json → Text
group_name group = to_text (or_value (member (codes "name") group) (str []))

module _ (collates : Text → Text → Bool) where
  -- The comparison of the sort gives a negative number.
  sorts_before : Json → Json → Bool
  unfolding group_order group_name
  sorts_before left right =
      ltb (group_order left) (group_order right)
      || (group_order left == group_order right && collates (group_name left) (group_name right))

  -- The stable sort
  unfoldable pub insert_group : Json → List Json → List Json
  unfolding sorts_before
  insert_group g [] = g ∷ []
  insert_group g (h ∷ rest) =
      let later = h ∷ insert_group g rest in if sorts_before h g then later else g ∷ h ∷ rest

  unfoldable pub sort_groups : List Json → List Json
  unfolding insert_group
  sort_groups [] = []
  sort_groups (g ∷ gs) = insert_group g (sort_groups gs)

  -- `customGroups`
  unfoldable pub custom_groups : Fields → List Json
  unfolding sort_groups
  custom_groups p = sort_groups (filter_by is_group (items (get custom_groups_key p)))

-- `customMemberships`
unfoldable pub custom_memberships : Json → Fields → List Text
custom_memberships id p = unique_ids (id_texts (get (to_string id) (map_at memberships_key p)))

-- `customCategoryID`
unfoldable pub custom_category_id : Json → Text
custom_category_id id = codes "custom:" ++ to_text id

-- A tab with `state.selectedCustomGroup` and `state.category`
pub record Groups : Type 0 where
  pub tab : Tab
  pub selected : Json
  pub category : Text

-- `slug`
unfoldable pub slug : (Text → Text) → Text → Text
slug lower value =
    let short =
      take 48
        (strip (λ c. c == b'-') (replace_runs is_slug_char (codes "-") false (lower value))) in
    if is_empty short then codes "group" else short

-- `base + "-" + index`
unfoldable pub numbered : Text → ℕ → Text
numbered base index = base ++ codes "-" ++ decimal index

-- `customGroups().some(function(group) { return group.id === id; })`
abbrev pub is_taken : Text → List Json → Bool
is_taken id groups = any (has_id (str id)) groups

-- The stored row of a group
unfoldable pub group_row : Text → Text → ℕ → Json
group_row id name order =
    obj (object ((codes "id", str id) ∷ (codes "name", str name) ∷ (codes "order", num order) ∷ []))

-- The loop of `createCustomGroup`, which starts with the identifier `id` and goes on with the
-- number `index`; none if the fuel runs out.
unfoldable pub free_id : ℕ → Text → List Json → Text → ℕ → Option Text
unfolding numbered has_id
free_id zero base groups id index = none
free_id (suc fuel) base groups id index =
    let next = free_id fuel base groups (numbered base index) (index + 1) in
    if is_taken id groups then next else some id

module _ (collates : Text → Text → Bool) where
  -- `ensureSelectedCustomGroup`
  unfoldable pub ensure_selected : Groups → Groups
  ensure_selected s =
      let groups = custom_groups collates s.tab.preferences in
      if any (has_id s.selected) groups then s else record s { selected = first_id groups }
    where
      first_id : List Json → Json
      first_id [] = str []
      first_id (g ∷ gs) = or_else (member (codes "id") g) (str [])

  -- `selectedCustomGroup`, with the state that it leaves
  unfoldable pub selected_group : Groups → Groups × Option Json
  selected_group s =
      let ready = ensure_selected s in
      (ready, find (has_id ready.selected) (custom_groups collates ready.tab.preferences))

  -- The rest of `createCustomGroup`, for the identifier that the loop found
  unfoldable pub add_group : Text → Text → Groups → Groups
  add_group name id s =
      let p = s.tab.preferences in
      let row = group_row id name (length (custom_groups collates p) + 1) in
      let pushed =
        put custom_groups_key (arr (json_items (items (get custom_groups_key p) ++ (row ∷ []))))
          p in
      record s {
        tab =
            save_prefs false
              (record s.tab { preferences = put_in memberships_key id (arr nil) pushed });
        selected = str id;
      }

  -- `createCustomGroup`; none if the loop runs out of fuel
  unfoldable pub create_custom_group : (Text → Text) → Text → Groups → Option Groups
  create_custom_group lower value s =
      let name = trim value in
      let groups = custom_groups collates s.tab.preferences in
      let base = codes "group:" ++ slug lower name in
      if is_empty name then some s else (elim (free_id (length groups + 2) base groups base 2) [
        | none ↦ none
        | some id ↦ some (add_group name id s)
      ])

  -- `deleteSelectedCustomGroup`
  unfoldable pub delete_selected_group : Groups → Groups
  delete_selected_group s =
      let (ready, found) = selected_group s in
      let p = ready.tab.preferences in
      let kept = filter_by (λ g. not (has_id ready.selected g)) (custom_groups collates p) in
      let left =
        del_in memberships_key (to_string ready.selected)
          (put custom_groups_key (arr (json_items kept)) p) in
      elim found [
        | none ↦ ready
        | some group ↦ record {
          tab = save_prefs false (record ready.tab { preferences = left });
          selected = str [];
          category =
              (if text_eq ready.category (custom_category_id ready.selected)
                then []
                else ready.category);
        }
      ]

  set_members : List Text → Groups → Groups
  set_members ids s = record s {
    tab = save_prefs false (record s.tab {
      preferences =
          put_in memberships_key (to_string s.selected) (text_array ids) s.tab.preferences;
    });
  }

  -- `addChannelToSelectedGroup`
  unfoldable pub add_channel : Text → Groups → Groups
  unfolding set_members
  add_channel id s =
      let (ready, found) = selected_group s in
      elim found [
        | none ↦ ready
        | some group ↦
            if is_empty id
            then ready
            else set_members
                (unique_ids (custom_memberships ready.selected ready.tab.preferences ++ (id ∷ [])))
                ready
      ]

  -- `removeChannelFromSelectedGroup`
  unfoldable pub remove_channel : Text → Groups → Groups
  unfolding set_members
  remove_channel id s =
      let (ready, found) = selected_group s in
      elim found [
        | none ↦ ready
        | some group ↦
            if is_empty id
            then ready
            else set_members
                (filter_by (λ i. not (text_eq i id))
                  (custom_memberships ready.selected ready.tab.preferences))
                ready
      ]
