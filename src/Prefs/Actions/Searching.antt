-- ===== src/Prefs/Actions/Searching.antt =====
-- `rememberSearch` of internal/plugin/ui/core.js.
use silo_plugin_xtream_libra.Prelude.{
  ◌≡◌, refl, ◌≤◌, false, some, List, ◌∷◌, map, arith, take, length, length-take,
}
use silo_plugin_xtream_libra.Text.{Text, codes, is_empty, text_eq, contains}
use silo_plugin_xtream_libra.Text.Chars.{trim, non_empty}
use silo_plugin_xtream_libra.Text.Trim.{trim-trim}
use silo_plugin_xtream_libra.Json.{get, text_array}
use silo_plugin_xtream_libra.Json.Laws.{get-put}
use silo_plugin_xtream_libra.Ids.{collect_unique, unique_ids, IsDistinct}
use silo_plugin_xtream_libra.Ids.Laws.{unique_ids-IsDistinct, IsDistinct-take}
use silo_plugin_xtream_libra.Prefs.Actions.{Searches, write_recent_searches, remember_search}
use silo_plugin_xtream_libra.Prefs.Actions.Favorites.{save_prefs-preferences}
use silo_plugin_xtream_libra.Prefs.Actions.Watching.{first}

first-kept :
    (t : Text) (ts : List Text)
    → is_empty t ≡ false
    → trim t ≡ t
    → first (take 12 (unique_ids (non_empty (map trim (t ∷ ts))))) ≡ some t
unfolding unique_ids collect_unique contains
first-kept t ts h e = rw (e, h, h) refl

stored_searches :
    (searches : List Text) (s : Searches)
    → get (codes "recentSearches") (write_recent_searches searches s).tab.preferences
      ≡ some (text_array (write_recent_searches searches s).recent)
unfolding text_eq
stored_searches searches s =
    unfold write_recent_searches in rw (save_prefs-preferences, get-put) refl

length_written :
    (searches : List Text) (s : Searches) → length (write_recent_searches searches s).recent ≤ 12
unfolding write_recent_searches
length_written searches s =
    omega (arith, length-take 12 (unique_ids (non_empty (map trim searches))))

written-IsDistinct :
    (searches : List Text) (s : Searches) → IsDistinct (write_recent_searches searches s).recent
unfolding write_recent_searches
written-IsDistinct searches s = IsDistinct-take 12 _ (unique_ids-IsDistinct _)

module _ (value : Text) (s : Searches) where
  abbrev after : Searches
  after = remember_search value s

  remembered :
      is_empty (trim value) ≡ false → after ≡ write_recent_searches (trim value ∷ s.recent) s
  unfolding remember_search
  remembered h = rw h refl

  first_written :
      is_empty (trim value) ≡ false
      → first (write_recent_searches (trim value ∷ s.recent) s).recent ≡ some (trim value)
  unfolding write_recent_searches
  first_written h = first-kept (trim value) s.recent h (trim-trim value)

  -- A search that is not blank is remembered, trimmed, as the first of at most twelve, all
  -- different; and the preferences of the tab hold the same list.
  pub remember_search-first :
      is_empty (trim value) ≡ false
      → (first after.recent ≡ some (trim value))
        × (length after.recent ≤ 12)
        × IsDistinct after.recent
        × (get (codes "recentSearches") after.tab.preferences ≡ some (text_array after.recent))
  remember_search-first h = rw (remembered h) (
    first_written h,
    length_written (trim value ∷ s.recent) s,
    written-IsDistinct (trim value ∷ s.recent) s,
    stored_searches (trim value ∷ s.recent) s,
  )
