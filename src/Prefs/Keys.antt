-- ===== src/Prefs/Keys.antt =====
-- The property names that internal/plugin/ui/prefs.js treats apart.
use silo_plugin_xtream_libra.Prelude.{ℕ, Option, none, some, List, [], ◌∷◌, if◌then◌else◌}
use silo_plugin_xtream_libra.Text.{Text, codes, text_eq}

-- An abbreviation for each name.
abbrev pub favorites : Text
favorites = codes "favorites"

abbrev pub favorite_order : Text
favorite_order = codes "favoriteOrder"

abbrev pub hidden_categories : Text
hidden_categories = codes "hiddenCategories"

abbrev pub stats_delay : Text
stats_delay = codes "sportsStatsDelaySeconds"

abbrev pub profiles : Text
profiles = codes "profiles"

-- `prefsMapKeys`
unfoldable pub prefs_map_keys : List Text
prefs_map_keys =
    favorites
    ∷ codes "autoFavorites"
    ∷ hidden_categories
    ∷ codes "sportsFavoriteTeams"
    ∷ codes "sportsFavoriteTeamLabels"
    ∷ codes "sportsFavoriteLeagues"
    ∷ codes "sportsPreferredChannels"
    ∷ codes "sportsPreferredNetworks"
    ∷ codes "featuredEvents"
    ∷ codes "continueWatching"
    ∷ codes "customGroupMemberships"
    ∷ codes "playback"
    ∷ codes "categoryBrowse"
    ∷ []

-- `prefsUnionListKeys`, by name: 0 is no limit.
unfoldable pub union_limit : Text → Option ℕ
union_limit key =
    if text_eq key favorite_order
    then some 0
    else (if text_eq key (codes "recentSearches")
        then some 12
        else (if text_eq key (codes "recentChannels") then some 24 else none))

-- `profileScopedPrefKeys`
unfoldable pub profile_scoped_keys : List Text
profile_scoped_keys = favorites ∷ favorite_order ∷ hidden_categories ∷ stats_delay ∷ []
