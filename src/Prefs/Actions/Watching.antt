-- ===== src/Prefs/Actions/Watching.antt =====
-- `recordWatchPreference` of internal/plugin/ui/core.js.
use silo_plugin_xtream_libra.Prelude.{ℕ, ◌≡◌, refl, false, Option, some, none, List, [], ◌∷◌}
use silo_plugin_xtream_libra.Text.{Text, codes, is_empty, text_eq}
use silo_plugin_xtream_libra.Json.{Json, num, Fields, get, text_array}
use silo_plugin_xtream_libra.Json.Laws.{HasDistinctKeys}
use silo_plugin_xtream_libra.Prefs.Keys.{favorite_order}
use silo_plugin_xtream_libra.Prefs.Defaults.{
  member, normalize_shapes, normal_favorite_order, update_field,
}
use silo_plugin_xtream_libra.Prefs.Sync.{Tab}
use silo_plugin_xtream_libra.Prefs.Actions.{next_plays, watch_entry, record_watch_preference}

abbrev pub first : List Text → Option Text
first [] = none
first (t ∷ ts) = some t

-- The preferences when the recent channels are normalized.
with_order : List Text → Fields → Fields
with_order valid p =
    update_field favorite_order (λ q. text_array (normal_favorite_order valid q))
      (normalize_shapes p)

module _ (now : ℕ) (id name : Text) (t : Tab) where
  p : Fields
  p = t.preferences

  abbrev entry : Json
  entry = watch_entry now id name (next_plays id p)

  abbrev after : Fields
  after = (record_watch_preference now id name t).preferences

  module _ (d : HasDistinctKeys t.preferences) (h : is_empty id ≡ false) where
    plays_after : member (codes "plays") entry ≡ some (num (next_plays id p))
    unfolding watch_entry get text_eq
    plays_after = refl
