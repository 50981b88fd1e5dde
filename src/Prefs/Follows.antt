-- ===== src/Prefs/Follows.antt =====
-- The sports preferences that the viewer sets in internal/plugin/ui/sports.js:
-- `toggleSportsLeagueFavorite`, `toggleSportsSpoilers` and `setSportsPreferredChannel`. The maps of
-- the preferences are objects; `network` gives `sportsBroadcastNetworkKey` of a channel by its
-- identifier; drawing the page is left out.
use silo_plugin_xtream_libra.Prelude.{
  ◌≡◌, refl, Bool, true, false, not, ◌&&◌, ◌||◌, none, some, [], arith, if◌then◌else◌, Bool-cases,
  inl, inr,
}
use silo_plugin_xtream_libra.Text.{Text, codes, is_empty, text_eq}
use silo_plugin_xtream_libra.Json.{bool, str, Fields, get, put, truthy, to_text}
use silo_plugin_xtream_libra.Json.Laws.{get-put}
use silo_plugin_xtream_libra.Prefs.Sync.{Tab, save_prefs}
use silo_plugin_xtream_libra.Prefs.Actions.{map_at, put_in, del_in}

abbrev pub favorite_leagues : Text
favorite_leagues = codes "sportsFavoriteLeagues"

abbrev pub preferred_channels : Text
preferred_channels = codes "sportsPreferredChannels"

abbrev pub preferred_networks : Text
preferred_networks = codes "sportsPreferredNetworks"

abbrev pub spoilers_hidden : Text
spoilers_hidden = codes "sportsSpoilersHidden"

abbrev pub player_spoilers_hidden : Text
player_spoilers_hidden = codes "sportsPlayerSpoilersHidden"

-- `toggleSportsLeagueFavorite`
unfoldable pub toggle_league_favorite : Text → Bool → Tab → Tab
toggle_league_favorite id enabled t =
    let edited =
      (if enabled
        then put_in favorite_leagues id (bool true) t.preferences
        else del_in favorite_leagues id t.preferences) in
    if is_empty id then t else save_prefs false (record t { preferences = edited })

-- The assignments of `toggleSportsSpoilers`, in the player or elsewhere
unfoldable pub toggle_spoilers_fields : Bool → Fields → Fields
toggle_spoilers_fields in_player p =
    let key = (if in_player then player_spoilers_hidden else spoilers_hidden) in
    if in_player && truthy (get spoilers_hidden p)
    then put player_spoilers_hidden (bool false) (put spoilers_hidden (bool false) p)
    else put key (bool (not (truthy (get key p)))) p

unfoldable pub toggle_spoilers : Bool → Tab → Tab
unfolding toggle_spoilers_fields
toggle_spoilers in_player t =
    save_prefs true (record t { preferences = toggle_spoilers_fields in_player t.preferences })

-- `String(preferences.sportsPreferredChannels[leagueID] || "")`
unfoldable pub preferred_channel : Text → Fields → Text
preferred_channel league p = elim (get league (map_at preferred_channels p)) [
  | none ↦ []
  | some v ↦ to_text v
]

-- The assignments of `setSportsPreferredChannel`
unfoldable pub prefer_channel : Text → Text → Text → Fields → Fields
unfolding preferred_channel
prefer_channel network league channel p =
    let chosen = put_in preferred_channels league (str channel) p in
    if text_eq (preferred_channel league p) channel
    then del_in preferred_networks league (del_in preferred_channels league p)
    else (if is_empty network
        then del_in preferred_networks league chosen
        else put_in preferred_networks league (str network) chosen)

unfoldable pub set_preferred_channel : (Text → Text) → Text → Text → Tab → Tab
unfolding prefer_channel
set_preferred_channel network league channel t =
    if is_empty league || is_empty channel
    then t
    else save_prefs true
        (record t { preferences = prefer_channel (network channel) league channel t.preferences })

-- `sportsScoresHidden`
unfoldable pub scores_hidden : Bool → Fields → Bool
scores_hidden player_only p =
    truthy (get spoilers_hidden p) || (player_only && truthy (get player_spoilers_hidden p))

-- The switch turns over whether the scores are hidden where it stands: in the player, also when
-- they are hidden everywhere, and elsewhere.
pub scores_hidden-toggle_spoilers_fields :
    (in_player : Bool) (p : Fields)
    → scores_hidden in_player (toggle_spoilers_fields in_player p) ≡ not (scores_hidden in_player p)
unfolding toggle_spoilers_fields scores_hidden text_eq
scores_hidden-toggle_spoilers_fields true p = elim (Bool-cases (truthy (get spoilers_hidden p))) [
  | inl e ↦ rw (e, get-put, get-put, get-put) refl
  | inr e ↦ rw (e, get-put, get-put) (ground (arith, e))
]
scores_hidden-toggle_spoilers_fields false p = rw get-put (ground arith)
