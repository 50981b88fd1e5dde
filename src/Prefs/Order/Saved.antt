-- ===== src/Prefs/Order/Saved.antt =====
-- `normalizeSavedLineups` of internal/plugin/ui/app.js.
use silo_plugin_xtream_libra.Prelude.{
  ℕ, ◌+◌, ◌≡◌, refl, ap, true, false, Option, List, [], ◌∷◌, map, arith, take, zero, suc,
}
use silo_plugin_xtream_libra.Text.{Text, codes, text_eq_iff, contains}
use silo_plugin_xtream_libra.Json.{Json, items}
use silo_plugin_xtream_libra.Ids.{IsDistinct}
use silo_plugin_xtream_libra.Ids.Laws.{IsDistinct-take}
use silo_plugin_xtream_libra.Prefs.Order.{
  SavedLineup, text_at, lineup_id, saved_from, normalize_saved_lineups,
}

abbrev pub categories_of : List SavedLineup → List Text
categories_of ls = map (λ l. l.category_id) ls

abbrev category_of : Json → Text
category_of row = text_at (codes "categoryId") row

abbrev id_of : ℕ → List Text → Json → Text
id_of n ids row = lineup_id n ids (text_at (codes "id") row)

contains-saved_from :
    (x : Text) (n : ℕ) (ids seen : List Text) (rows : List Json)
    → contains x seen ≡ true
    → contains x (categories_of (saved_from n ids seen rows)) ≡ false
unfolding saved_from contains
contains-saved_from x n ids seen [] h = refl
contains-saved_from x n ids seen (row ∷ rows) h = ground (
  arith,
  contains-saved_from x (n + 1) ids seen rows,
  contains-saved_from x (n + 1) (id_of n ids row ∷ ids) (category_of row ∷ seen) rows,
  text_eq_iff (category_of row) x,
)

saved_from-IsDistinct :
    (n : ℕ) (ids seen : List Text) (rows : List Json)
    → IsDistinct (categories_of (saved_from n ids seen rows))
unfolding saved_from contains
saved_from-IsDistinct n ids seen [] = tt
saved_from-IsDistinct n ids seen (row ∷ rows) = ground (
  arith,
  saved_from-IsDistinct (n + 1) ids seen rows,
  saved_from-IsDistinct (n + 1) (id_of n ids row ∷ ids) (category_of row ∷ seen) rows,
  contains-saved_from (category_of row) (n + 1) (id_of n ids row ∷ ids) (category_of row ∷ seen)
      rows,
  text_eq_iff (category_of row) (category_of row),
)

take-categories :
    (n : ℕ) (ls : List SavedLineup) → categories_of (take n ls) ≡ take n (categories_of ls)
take-categories zero ls = refl
take-categories (suc n) [] = refl
take-categories (suc n) (l ∷ ls) = ap (l.category_id ∷◌) (take-categories n ls)

-- No category has two saved lists.
pub normalize_saved_lineups-IsDistinct :
    (value : Option Json) → IsDistinct (categories_of (normalize_saved_lineups value))
unfolding normalize_saved_lineups
normalize_saved_lineups-IsDistinct value =
    rw (take-categories 24 (saved_from 1 [] [] (items value)))
      (IsDistinct-take 24 _ (saved_from-IsDistinct 1 [] [] (items value)))
