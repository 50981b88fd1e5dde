-- ===== src/Lineup.antt =====
-- The folders of the channel lineup: internal/plugin/ui/lineup.js here, and in the child modules the
-- category functions of internal/plugin/ui/app.js that call it.
pub mod Names
pub mod Paths
pub mod Folders
pub mod Selection
use silo_plugin_xtream_libra.Prelude.{
  Bool, true, false, not, ◌&&◌, ◌||◌, List, [], ◌∷◌, ◌++◌, map, if◌then◌else◌,
}
use silo_plugin_xtream_libra.Text.{Text, codes, is_empty, text_eq}
use silo_plugin_xtream_libra.Text.Chars.{is_space, trim, replace_runs, non_empty}
use silo_plugin_xtream_libra.Text.Split.{
  split_by, width_of, spaced_width, dash_width, split_path, join_path,
}

unfoldable pub normalized_name_token : Text → Text
unfolding replace_runs trim is_space
normalized_name_token value = replace_runs (λ c. not (is_space c)) (codes " ") false (trim value)

-- `parts.map(normalizedNameToken).filter(Boolean)`
unfoldable pub name_tokens : List Text → List Text
unfolding normalized_name_token
name_tokens parts = non_empty (map normalized_name_token parts)

-- `dash` tells whether the delimiter is a dash.
unfoldable pub parsed_delimited_path : (dash : Bool) → Text → List Text
unfolding name_tokens split_by dash_width spaced_width
parsed_delimited_path dash name =
    let token = normalized_name_token name in
    if is_empty token
    then []
    else name_tokens (split_by (if dash then dash_width else spaced_width b'|') 0 token)

-- A channel is given by its name.
unfoldable pub channel_name_path_parts : Text → List Text
unfolding name_tokens split_by width_of
channel_name_path_parts name = name_tokens (split_by (width_of (codes "|")) 0 name)

module _ (lower : Text → Text) where
  -- The loop that drops the additions that repeat the base's last part.
  unfoldable pub drop_repeated : List Text → List Text → List Text
  drop_repeated base [] = []
  drop_repeated [] (a ∷ additions) = a ∷ additions
  drop_repeated (b ∷ []) (a ∷ additions) =
      let rest = drop_repeated (b ∷ []) additions in
      if text_eq (lower b) (lower a) then rest else a ∷ additions
  drop_repeated (b ∷ c ∷ base) (a ∷ additions) = drop_repeated (c ∷ base) (a ∷ additions)

  unfoldable pub append_unduplicated_path_parts : Text → List Text → Text
  unfolding name_tokens split_path join_path
  append_unduplicated_path_parts base_path extra_parts =
      let base_parts = name_tokens (split_path base_path) in
      elim (drop_repeated base_parts (name_tokens extra_parts)) [
        | [] ↦ []
        | a ∷ additions ↦ join_path (base_parts ++ a ∷ additions)
      ]

  unfoldable pub append_virtual_path_parts : Text → List Text → (collapse : Bool) → Text
  unfolding name_tokens split_path join_path
  append_virtual_path_parts base_path extra_parts collapse =
      let base_parts = name_tokens (split_path base_path) in
      let additions = name_tokens extra_parts in
      elim base_parts [
        | [] ↦ []
        | b ∷ bs ↦ elim additions [
          | [] ↦ []
          | a ∷ others ↦
              if not collapse
              then join_path ((b ∷ bs) ++ a ∷ others)
              else append_unduplicated_path_parts base_path (a ∷ others)
        ]
      ]
