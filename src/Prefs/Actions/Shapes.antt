-- ===== src/Prefs/Actions/Shapes.antt =====
-- What the normalization of the preferences leaves as it was.
use silo_plugin_xtream_libra.Prelude.{◌≡◌, some, List}
use silo_plugin_xtream_libra.Text.{Text, text_eq}
use silo_plugin_xtream_libra.Json.{Json, obj, Fields, get}
use silo_plugin_xtream_libra.Json.Laws.{HasDistinctKeys, get-assign}
use silo_plugin_xtream_libra.Prefs.Keys.{favorites}
use silo_plugin_xtream_libra.Prefs.Defaults.{
  default_prefs, normalize_shapes, normalize_channels, normalize_preferences,
}
use silo_plugin_xtream_libra.Prefs.Defaults.Normal.{get-update_field}
use silo_plugin_xtream_libra.Prefs.Actions.{continue_watching, recent_channels}

abbrev HasMap : Text → Fields → Fields → Type 0
HasMap key m p = get key p ≡ some (obj m)

module _ (valid : List Text) (p : Fields) (d : HasDistinctKeys p) (m : Fields) where
  -- The favorites and the watch history are not touched.
  pub shapes-favorites : HasMap favorites m p → HasMap favorites m (normalize_shapes p)
  unfolding normalize_shapes text_eq
  shapes-favorites h = simp (get-update_field, get-assign favorites default_prefs p d, h)

  pub normalize_preferences-favorites :
      HasMap favorites m p → HasMap favorites m (normalize_preferences valid p)
  unfolding normalize_preferences normalize_channels text_eq
  normalize_preferences-favorites h = simp (get-update_field, shapes-favorites h)

  shapes-continue_watching :
      HasMap continue_watching m p → HasMap continue_watching m (normalize_shapes p)
  unfolding normalize_shapes text_eq
  shapes-continue_watching h =
      simp (get-update_field, get-assign continue_watching default_prefs p d, h)

  pub normalize_preferences-continue_watching :
      HasMap continue_watching m p → HasMap continue_watching m (normalize_preferences valid p)
  unfolding normalize_preferences normalize_channels text_eq
  normalize_preferences-continue_watching h = simp (get-update_field, shapes-continue_watching h)

pub shapes-recent_channels :
    (p : Fields) (v : Json)
    → HasDistinctKeys p
    → get recent_channels p ≡ some v
    → get recent_channels (normalize_shapes p) ≡ some v
unfolding normalize_shapes text_eq
shapes-recent_channels p v d h =
    simp (get-update_field, get-assign recent_channels default_prefs p d, h)
