-- ===== src/Prefs/Order.antt =====
-- The order of the favorites and the saved lists of channels: `orderedFavoriteChannels`,
-- `moveFavorite` and `normalizeSavedLineups` of internal/plugin/ui/app.js. Channels stand by their
-- identifiers, which are distinct; drawing the page is left out.
pub mod Moves
pub mod Saved
use silo_plugin_xtream_libra.Prelude.{
  ℕ, zero, suc, ◌+◌, ◌-◌, Bool, true, false, not, ◌&&◌, ◌||◌, Option, none, some, List, [], ◌∷◌,
  ◌++◌, ltb, leb, ◌==◌, if◌then◌else◌, filter_by, take, length, or_else, find,
}
use silo_plugin_xtream_libra.Text.{Text, codes, is_empty, text_eq, contains}
use silo_plugin_xtream_libra.Text.Chars.{trim}
use silo_plugin_xtream_libra.Json.{
  Json, Fields, get, put, items, truthy, to_text, text_array, id_texts, decimal,
}
use silo_plugin_xtream_libra.Ids.{unique_ids}
use silo_plugin_xtream_libra.Prefs.Keys.{favorite_order}
use silo_plugin_xtream_libra.Prefs.Defaults.{member, is_true}
use silo_plugin_xtream_libra.Prefs.Sync.{Tab, save_prefs}
use silo_plugin_xtream_libra.Prefs.Actions.{auto_favorites, map_at, is_favorite}

-- `autoFavoriteMap()[id]`
unfoldable pub is_auto_favorite : Text → Fields → Bool
is_auto_favorite id p = truthy (get id (map_at auto_favorites p))

-- `orderedFavoriteChannels`
unfoldable pub ordered_favorites : List Text → Fields → List Text
unfolding is_auto_favorite
ordered_favorites channels p =
    let ordered =
      filter_by (λ id. contains id channels) (unique_ids (id_texts (get favorite_order p))) in
    ordered
    ++ filter_by (λ id. (is_favorite id p || is_auto_favorite id p) && not (contains id ordered))
        channels

-- `order.indexOf(id)`
unfoldable pub index_of : Text → List Text → Option ℕ
index_of id [] = none
index_of id (t ∷ ts) =
    if text_eq t id then some 0 else (elim (index_of id ts) [ none ↦ none | some n ↦ some (n + 1) ])

-- The exchange of a place with the next one
unfoldable pub swap_next : ℕ → List Text → List Text
swap_next zero (a ∷ b ∷ ts) = b ∷ a ∷ ts
swap_next zero ts = ts
swap_next (suc n) [] = []
swap_next (suc n) (a ∷ ts) = a ∷ swap_next n ts

-- The order after the move of one place up or down; none if there is no such place
unfoldable pub moved_at : Option ℕ → List Text → Bool → Option (List Text)
unfolding swap_next
moved_at none order up = none
moved_at (some index) order true = if index == 0 then none else some (swap_next (index - 1) order)
moved_at (some index) order false =
    if leb (length order) (index + 1) then none else some (swap_next index order)

unfoldable pub moved : List Text → Text → Bool → Option (List Text)
unfolding moved_at index_of
moved order id up = moved_at (index_of id order) order up

-- `moveFavorite`, for the channels that are visible
unfoldable pub move_favorite : List Text → Text → Bool → Tab → Tab
unfolding moved ordered_favorites
move_favorite visible id up t =
    let order =
      filter_by (λ c. is_favorite c t.preferences) (ordered_favorites visible t.preferences) in
    elim (moved order id up) [
      | none ↦ t
      | some new ↦
          save_prefs false
            (record t { preferences = put favorite_order (text_array new) t.preferences })
    ]

-- A saved list of channels
pub record SavedLineup : Type 0 where
  pub id : Text
  pub name : Text
  pub category_id : Text
  pub hide_final_groups : Bool

-- `String(lineup[key] || "").trim()`
unfoldable pub text_at : Text → Json → Text
text_at key lineup = elim (member key lineup) [ none ↦ [] | some v ↦ trim (to_text v) ]

-- The identifier of a row that is kept, from the number of the row and the identifiers seen
unfoldable pub lineup_id : ℕ → List Text → Text → Text
lineup_id number seen given =
    let id = (if is_empty given then codes "lineup-" ++ decimal number else given) in
    if contains id seen then id ++ codes "-" ++ decimal number else id

-- The loop of `normalizeSavedLineups`, with the number of the row and what was seen
unfoldable pub saved_from : ℕ → List Text → List Text → List Json → List SavedLineup
unfolding text_at lineup_id
saved_from number ids categories [] = []
saved_from number ids categories (row ∷ rows) =
    let category = text_at (codes "categoryId") row in
    let name = text_at (codes "name") row in
    let id = lineup_id number ids (text_at (codes "id") row) in
    let saved : SavedLineup = record {
      id = id;
      name = name;
      category_id = category;
      hide_final_groups = is_true (member (codes "hideFinalGroups") row);
    } in
    let kept = saved ∷ saved_from (number + 1) (id ∷ ids) (category ∷ categories) rows in
    let skipped = saved_from (number + 1) ids categories rows in
    if is_empty category || is_empty name || contains category categories then skipped else kept

-- `normalizeSavedLineups`
unfoldable pub normalize_saved_lineups : Option Json → List SavedLineup
unfolding saved_from
normalize_saved_lineups value = take 24 (saved_from 1 [] [] (items value))

-- `savedLineupForCategory`
unfoldable pub saved_lineup_for_category : Text → Fields → Option SavedLineup
unfolding normalize_saved_lineups
saved_lineup_for_category category p =
    find (λ l. text_eq l.category_id category)
      (normalize_saved_lineups (get (codes "savedLineups") p))
