-- ===== src/Prefs/Groups/Deletion.antt =====
-- `deleteSelectedCustomGroup` of internal/plugin/ui/app.js.
use silo_plugin_xtream_libra.Prelude.{
  ◌≡◌, refl, inl, inr, Bool, true, false, not, ◌&&◌, Option, none, some, List, [], ◌∷◌, arith,
  is_some, any, filter_by, Option-cases,
}
use silo_plugin_xtream_libra.Text.{Text, codes, text_eq}
use silo_plugin_xtream_libra.Json.{Json, str, get, items, json_eq}
use silo_plugin_xtream_libra.Json.Laws.{json_eq_iff, get-put, items-json_items}
use silo_plugin_xtream_libra.Prefs.Defaults.{member}
use silo_plugin_xtream_libra.Prefs.Actions.{del_in}
use silo_plugin_xtream_libra.Prefs.Actions.Favorites.{save_prefs-preferences}
use silo_plugin_xtream_libra.Prefs.Groups.{
  Groups, has_id, is_group, is_taken, custom_groups, ensure_selected, selected_group,
  delete_selected_group, custom_groups_key,
}
use silo_plugin_xtream_libra.Prefs.Groups.Changes.{any-filter_by, any-custom_groups}

-- A row has at most one identifier.
has_id-other : (v w g : Json) → has_id v g ≡ true → has_id w g ≡ json_eq v w
unfolding has_id
has_id-other v w g h = has_id-other_value (member (codes "id") g) h
  where
    has_id-other_value :
        (o : Option Json)
        → (elim o [ none ↦ false | some u ↦ json_eq u v ]) ≡ true
        → (elim o [ none ↦ false | some u ↦ json_eq u w ]) ≡ json_eq v w
    has_id-other_value none h = cc
    has_id-other_value (some u) h = cc ((json_eq_iff u v).0 h)

any-left :
    (v w : Json) (gs : List Json)
    → any (λ g. is_group g && (not (has_id w g) && (is_group g && has_id v g))) gs
      ≡ (not (json_eq v w) && any (λ g. is_group g && has_id v g) gs)
any-left v w [] = ground arith
any-left v w (g ∷ gs) = ground (arith, any-left v w gs, has_id-other v w g)

module _ (collates : Text → Text → Bool) (s : Groups) where
  abbrev chosen : Json
  chosen = (selected_group collates s).0.selected

  ensure_selected-tab : (ensure_selected collates s).tab ≡ s.tab
  unfolding ensure_selected
  ensure_selected-tab = ground arith

  selected_group-tab : (selected_group collates s).0.tab ≡ s.tab
  unfolding selected_group
  selected_group-tab = ensure_selected-tab

  kept : List Json
  kept = filter_by (λ g. not (has_id chosen g)) (custom_groups collates s.tab.preferences)

  kept_rows :
      is_some (selected_group collates s).1 ≡ true
      → items (get custom_groups_key (delete_selected_group collates s).tab.preferences) ≡ kept
  unfolding delete_selected_group del_in text_eq kept
  kept_rows h = elim (Option-cases (selected_group collates s).1) [
    | inl e ↦ absurd (cc (h, e))
    | inr (g, e) ↦
        rw
          (
            e, delete_selected_group, save_prefs-preferences, get-put, get-put, items-json_items,
            selected_group-tab,
          )
          refl
  ]

  -- When a group is selected, its deletion leaves exactly the other groups.
  pub delete_selected_group-others :
      is_some (selected_group collates s).1 ≡ true
      → (x : Text)
      → is_taken x (custom_groups collates (delete_selected_group collates s).tab.preferences) ≡ (
          not (json_eq (str x) (selected_group collates s).0.selected)
          && is_taken x (custom_groups collates s.tab.preferences))
  unfolding kept
  delete_selected_group-others h x =
      rw
        (
          any-custom_groups collates (has_id (str x))
              (delete_selected_group collates s).tab.preferences,
          kept_rows h,
          any-filter_by,
          any-custom_groups collates
              (λ g. not (has_id chosen g) && (is_group g && has_id (str x) g)) s.tab.preferences,
          any-custom_groups collates (has_id (str x)) s.tab.preferences,
        )
        (any-left (str x) chosen (items (get custom_groups_key s.tab.preferences)))
