-- ===== src/Tests/Order.antt =====
-- The saved lists of channels and a move at concrete values.
use silo_plugin_xtream_libra.Prelude.{◌≡◌, refl, true, some, [], ◌∷◌, map}
use silo_plugin_xtream_libra.Text.{Text, codes, text_eq, contains}
use silo_plugin_xtream_libra.Text.Chars.{trim, strip, is_space, drop_while}
use silo_plugin_xtream_libra.Json.{
  Json, str, arr, obj, object, json_items, get, to_text, to_string, decimal,
}
use silo_plugin_xtream_libra.Prefs.Defaults.{is_true}
use silo_plugin_xtream_libra.Prefs.Order.{
  moved, moved_at, index_of, swap_next, text_at, lineup_id, saved_from, normalize_saved_lineups,
}

abbrev row : Text → Text → Json
row id category = obj (
    object (
      (codes "id", str id)
      ∷ (codes "name", str (codes "List"))
      ∷ (codes "categoryId", str category)
      ∷ []))

-- The number that is added to a repeated identifier can make it the identifier of another list.
repeated_test :
    map
      (λ l. l.id)
      (normalize_saved_lineups (
        some (
          arr (
            json_items (
              row (codes "a-3") (codes "x")
              ∷ row (codes "a") (codes "y")
              ∷ row (codes "a") (codes "z")
              ∷ [])))))
    ≡ codes "a-3" ∷ codes "a" ∷ codes "a-3" ∷ []
unfolding normalize_saved_lineups saved_from lineup_id text_at trim strip is_space drop_while get
    to_text to_string decimal contains text_eq is_true
repeated_test = refl

moved_test :
    moved (codes "a" ∷ codes "b" ∷ codes "c" ∷ []) (codes "c") true
    ≡ some (codes "a" ∷ codes "c" ∷ codes "b" ∷ [])
unfolding moved moved_at index_of swap_next text_eq
moved_test = refl
