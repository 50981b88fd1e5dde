-- ===== src/Tests/Selection.antt =====
-- A selection of one of two channel profiles.
use silo_plugin_xtream_libra.Prelude.{◌≡◌, refl, Bool, true, false, [], ◌∷◌}
use silo_plugin_xtream_libra.Text.{codes, text_eq, contains}
use silo_plugin_xtream_libra.Text.Chars.{trim, strip, is_space, drop_while}
use silo_plugin_xtream_libra.Json.{str, obj, object, text_array, get, json_eq, to_text, to_string}
use silo_plugin_xtream_libra.Ids.{unique_ids}
use silo_plugin_xtream_libra.Lineup.Names.{Channel}
use silo_plugin_xtream_libra.Lineup.Selection.{
  Selection, unknown, known, profile_selection, normalize_profile_selection, available_profiles,
  selected_ids, selected_profile_map, selected_profile_channel_map,
  channel_matches_profile_selection, in_profiles, profile_channels, recall, keep, store_map,
}
use silo_plugin_xtream_libra.Lineup.Selection.Cached.{
  IsCached, is_selected, channel_matches_profile_selection-is_selected,
}

abbrev kids_channel : Channel
kids_channel = record {
  id = codes "1";
  name = [];
  category_id = [];
  category_name = [];
  profile_ids = codes "kids" ∷ [];
}

abbrev news_channel : Channel
news_channel = record {
  id = codes "2";
  name = [];
  category_id = [];
  category_name = [];
  profile_ids = codes "news" ∷ [];
}

-- Only the first cache is filled.
abbrev selection : Selection
selection = record {
  preferences = object (
      (
        codes "profileSelection",
        obj (
            object (
              (codes "mode", str (codes "selected"))
              ∷ (codes "profileIds", text_array (codes "kids" ∷ codes "gone" ∷ []))
              ∷ [])),
      )
      ∷ []);
  profiles =
      record { id = codes "kids"; name = codes "Kids" }
      ∷ record { id = codes "news"; name = codes "News" }
      ∷ [];
  channels = kids_channel ∷ news_channel ∷ [];
  id_map = known (codes "kids" ∷ []);
  channel_map = unknown;
}

computes : Bool
unfolding profile_selection normalize_profile_selection available_profiles selected_ids
    selected_profile_map selected_profile_channel_map channel_matches_profile_selection in_profiles
    profile_channels recall keep store_map get text_eq contains json_eq to_text to_string unique_ids
    trim strip is_space drop_while is_selected
computes = true

selection-IsCached : IsCached selection
unfolding computes
selection-IsCached = (refl, tt)

channel_matches_profile_selection-is_selected_example :
    ((channel_matches_profile_selection selection news_channel).0 ≡ false)
    × IsCached (selected_profile_channel_map selection).1
    × IsCached (channel_matches_profile_selection selection news_channel).1
unfolding computes
channel_matches_profile_selection-is_selected_example =
    channel_matches_profile_selection-is_selected selection selection-IsCached news_channel
