-- ===== src/Lineup/Paths.antt =====
-- The virtual paths of a channel, which are the folders that it stands in: `channelNameFolderPathParts`
-- to `profileVirtualPathForName` of internal/plugin/ui/app.js.
use silo_plugin_xtream_libra.Prelude.{
  ℕ, Bool, true, false, not, ◌&&◌, ◌||◌, Option, none, some, List, [], ◌∷◌, ◌++◌, map, leb, ◌==◌,
  if◌then◌else◌, filter_by, any,
}
use silo_plugin_xtream_libra.Text.{Text, codes, is_empty, text_eq, contains}
use silo_plugin_xtream_libra.Text.Chars.{trim, non_empty, join}
use silo_plugin_xtream_libra.Text.Split.{split_by, width_of, slash, split_path, join_path}
use silo_plugin_xtream_libra.Ids.{unique_ids}
use silo_plugin_xtream_libra.Lineup.{
  normalized_name_token, name_tokens, channel_name_path_parts, append_virtual_path_parts,
}
use silo_plugin_xtream_libra.Lineup.Names.{
  Channel, Profile, Settings, category_display_name, source_category_label,
  source_category_raw_label, source_virtual_path, source_group_path, alias_virtual_paths,
  use_source_group_virtual_paths, use_channel_name_virtual_paths, use_profile_group_virtual_paths,
  virtual_group_source_mode,
}

-- `parts.slice(0, -1)`
unfoldable pub all_but_last : List Text → List Text
all_but_last [] = []
all_but_last (p ∷ []) = []
all_but_last (p ∷ q ∷ ps) = p ∷ all_but_last (q ∷ ps)

-- The names' parts are tokens already, so that the code's second pass over them is kept too.
unfoldable pub channel_name_folder_path_parts : Channel → List Text
unfolding name_tokens channel_name_path_parts all_but_last
channel_name_folder_path_parts channel =
    all_but_last (name_tokens (channel_name_path_parts channel.name))

abbrev pub state_codes : List Text
state_codes = map codes (
    "AL" ∷ "AK" ∷ "AZ" ∷ "AR" ∷ "CA" ∷ "CO" ∷ "CT" ∷ "DE" ∷ "FL" ∷ "GA" ∷ "HI" ∷ "ID" ∷ "IL" ∷ "IN"
    ∷ "IA" ∷ "KS" ∷ "KY" ∷ "LA" ∷ "ME" ∷ "MD" ∷ "MA" ∷ "MI" ∷ "MN" ∷ "MS" ∷ "MO" ∷ "MT" ∷ "NE"
    ∷ "NV" ∷ "NH" ∷ "NJ" ∷ "NM" ∷ "NY" ∷ "NC" ∷ "ND" ∷ "OH" ∷ "OK" ∷ "OR" ∷ "PA" ∷ "RI" ∷ "SC"
    ∷ "SD" ∷ "TN" ∷ "TX" ∷ "UT" ∷ "VT" ∷ "VA" ∷ "WA" ∷ "WV" ∷ "WI" ∷ "WY" ∷ "DC" ∷ [])

unfoldable pub looks_like_us_state_code : Settings → Text → Bool
unfolding normalized_name_token contains
looks_like_us_state_code s value = contains (s.upper (normalized_name_token value)) state_codes

-- `\w`
unfoldable pub is_word_char : ℕ → Bool
is_word_char c =
    (leb b'a' c && leb c b'z')
    || (leb b'A' c && leb c b'Z')
    || (leb b'0' c && leb c b'9')
    || c == b'_'

-- The word begins the text and ends there: `word\b`.
unfoldable pub starts_with_word : Text → Text → Bool
unfolding is_word_char
starts_with_word [] [] = true
starts_with_word [] (c ∷ s) = not (is_word_char c)
starts_with_word (w ∷ word) [] = false
starts_with_word (w ∷ word) (c ∷ s) = w == c && starts_with_word word s

-- `/\b(word|...)\b/.test(text)`; `inside` tells whether the character before is of a word.
unfoldable pub has_word : List Text → (inside : Bool) → Text → Bool
unfolding starts_with_word is_word_char
has_word words inside [] = false
has_word words inside (c ∷ s) =
    (not inside && any (λ w. starts_with_word w (c ∷ s)) words) || has_word words (is_word_char c) s

-- `fútbol` has a letter outside of ASCII, with the code 250.
abbrev pub sports_words : List Text
sports_words =
    (b'f' ∷ 250 ∷ codes "tbol")
    ∷ map codes (
        "sport" ∷ "sports" ∷ "team" ∷ "teams" ∷ "league" ∷ "football" ∷ "soccer" ∷ "futbol" ∷ "mlb"
        ∷ "nba" ∷ "nfl" ∷ "nhl" ∷ "mls" ∷ "f1" ∷ [])

unfoldable pub inferred_international_root : Settings → Channel → List Text → Text
unfolding has_word source_category_label join
inferred_international_root s channel parts =
    let text = s.lower (
      join (codes " ") parts
      ++ codes " "
      ++ source_category_label s channel
      ++ codes " "
      ++ channel.category_name) in
    if has_word sports_words false text
    then codes "International Sports"
    else (if has_word (codes "news" ∷ codes "noticias" ∷ codes "nouvelles" ∷ []) false text
        then codes "International News"
        else (if has_word (codes "kids" ∷ codes "children" ∷ codes "cartoon" ∷ codes "junior" ∷ [])
              false text
            then codes "International Kids"
            else codes "International TV"))

-- `inferredChannelNameGroupPaths`; a name's parts are not empty.
unfoldable pub inferred_channel_name_group_paths : Settings → Channel → List Text
unfolding use_channel_name_virtual_paths name_tokens channel_name_path_parts
    looks_like_us_state_code inferred_international_root unique_ids
inferred_channel_name_group_paths s channel =
    if not (use_channel_name_virtual_paths s)
    then []
    else (elim (name_tokens (channel_name_path_parts channel.name)) [
      | [] ↦ []
      | first ∷ others ↦ elim others [
        | [] ↦ []
        | second ∷ more ↦
            let root =
              (if looks_like_us_state_code s first
                then codes "US TV / Locals / " ++ s.upper first
                else inferred_international_root s channel (first ∷ second ∷ more)
                  ++ slash
                  ++ first) in
            unique_ids (root ∷ (root ++ slash ++ second) ∷ [])
      ]
    ])

-- The last text, or the empty one.
unfoldable pub last_text : List Text → Text
last_text [] = []
last_text (p ∷ []) = p
last_text (p ∷ q ∷ ps) = last_text (q ∷ ps)

-- `localMarketPathPartsForChannel`
unfoldable pub local_market_path_parts : Settings → Channel → List Text → List Text
unfolding normalized_name_token last_text name_tokens channel_name_path_parts
    looks_like_us_state_code text_eq
local_market_path_parts s channel source_parts =
    let tail = s.lower (normalized_name_token (last_text source_parts)) in
    if not (text_eq tail (codes "local")) && not (text_eq tail (codes "locals"))
    then []
    else (elim (name_tokens (channel_name_path_parts channel.name)) [
      | [] ↦ []
      | first ∷ others ↦ elim others [
        | [] ↦ []
        | second ∷ more ↦ (if looks_like_us_state_code s first then second else first) ∷ []
      ]
    ])

-- `profileVirtualPathForName`
unfoldable pub profile_virtual_path_for_name : Text → Text
unfolding split_by width_of trim join_path
profile_virtual_path_for_name name =
    join_path (non_empty (map trim (split_by (width_of (codes "|")) 0 name)))

-- `profileMapByID()[id]`: of two profiles with one id the later one is in the map.
unfoldable pub profile_by_id : Text → List Profile → Option Profile
unfolding text_eq
profile_by_id id [] = none
profile_by_id id (p ∷ ps) = elim (profile_by_id id ps) [
  | some q ↦ some q
  | none ↦ if text_eq p.id id && not (is_empty id) then some p else none
]

unfoldable pub profile_name : Settings → Text → Text
unfolding profile_by_id
profile_name s id = elim (profile_by_id id s.profiles) [
  | none ↦ id
  | some p ↦ if is_empty p.name then id else p.name
]

-- `profilePathsForChannel`
unfoldable pub listed_profiles : Settings → Channel → List Text
listed_profiles s channel = elim s.channel_profile [
  | none ↦ channel.profile_ids
  | some id ↦ id ∷ []
]

unfoldable pub chosen_profiles : Settings → List Text → List Text
unfolding contains
chosen_profiles s ids = elim s.selected_profiles [
  | none ↦ ids
  | some selected ↦ filter_by (λ id. contains id selected) ids
]

unfoldable pub profile_paths : Settings → Channel → List Text
unfolding profile_virtual_path_for_name profile_name listed_profiles chosen_profiles
profile_paths s channel = non_empty (
    map (λ id. profile_virtual_path_for_name (profile_name s id))
      (chosen_profiles s (listed_profiles s channel)))

-- The rounds over the groups below a profile.
unfoldable pub profile_group_paths : Settings → Text → List Text → List Text → List Text
unfolding name_tokens split_path append_virtual_path_parts
profile_group_paths s profile_path market_parts [] = []
profile_group_paths s profile_path market_parts (group_path ∷ groups) =
    let combined =
      append_virtual_path_parts s.lower profile_path (name_tokens (split_path group_path))
        s.collapse_duplicates in
    let base = (if is_empty combined then profile_path ++ slash ++ group_path else combined) in
    let market = append_virtual_path_parts s.lower base market_parts s.collapse_duplicates in
    non_empty (combined ∷ market ∷ []) ++ profile_group_paths s profile_path market_parts groups

unfoldable pub all_profile_group_paths : Settings → List Text → List Text → List Text → List Text
unfolding profile_group_paths
all_profile_group_paths s group_paths market_parts [] = []
all_profile_group_paths s group_paths market_parts (p ∷ ps) =
    p ∷ profile_group_paths s p market_parts group_paths
    ++ all_profile_group_paths s group_paths market_parts ps

-- `profileVirtualPathsForChannel`
unfoldable pub profile_virtual_paths : Settings → Channel → List Text
unfolding source_group_path name_tokens split_path alias_virtual_paths local_market_path_parts
    profile_paths all_profile_group_paths unique_ids
profile_virtual_paths s channel =
    let source_path = source_group_path s channel in
    if is_empty source_path
    then []
    else (let market_parts =
          local_market_path_parts s channel (name_tokens (split_path source_path)) in
        unique_ids (
          all_profile_group_paths s (source_path ∷ alias_virtual_paths s source_path) market_parts
            (profile_paths s channel)))

-- A path and the paths that aliases give it.
unfoldable pub with_aliases : Settings → Text → List Text
unfolding alias_virtual_paths
with_aliases s path = if is_empty path then [] else path ∷ alias_virtual_paths s path

-- `virtualPathsForChannel`
unfoldable pub virtual_paths : Settings → Channel → List Text
unfolding profile_virtual_paths source_virtual_path with_aliases append_virtual_path_parts
    channel_name_folder_path_parts inferred_channel_name_group_paths unique_ids text_eq
virtual_paths s channel =
    if use_profile_group_virtual_paths s
    then unique_ids (profile_virtual_paths s channel)
    else (let source_path = source_virtual_path s channel in
        let from_source =
          (if is_empty source_path || not (use_source_group_virtual_paths s)
            then []
            else with_aliases s source_path
              ++ (if text_eq (virtual_group_source_mode s) (codes "group_channel")
                  then with_aliases s (
                      append_virtual_path_parts s.lower source_path
                        (channel_name_folder_path_parts channel) s.collapse_duplicates)
                  else [])) in
        let from_name =
          (if use_channel_name_virtual_paths s
            then inferred_channel_name_group_paths s channel
            else []) in
        unique_ids (from_source ++ from_name))

-- `isWorldCupReplayGroup` of internal/plugin/ui/sports.js.
unfoldable pub is_world_cup_replay_group : Settings → Text → Bool
unfolding category_display_name text_eq
is_world_cup_replay_group s value =
    text_eq (s.lower (category_display_name value)) (codes "world cup replays")

unfoldable pub is_rewindable_channel : Settings → Channel → Bool
unfolding is_world_cup_replay_group source_category_label source_category_raw_label virtual_paths
    split_path
is_rewindable_channel s channel =
    is_world_cup_replay_group s (source_category_raw_label s channel)
    || is_world_cup_replay_group s (source_category_label s channel)
    || any
        (λ path.
          is_world_cup_replay_group s path || any (is_world_cup_replay_group s) (split_path path))
        (virtual_paths s channel)
