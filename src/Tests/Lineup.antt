-- ===== src/Tests/Lineup.antt =====
-- A small lineup.
use silo_plugin_xtream_libra.Prelude.{
  ◌≡◌, refl, Bool, true, false, none, List, [], ◌∷◌, map, All, length, filter_by, ◌&&◌,
}
use silo_plugin_xtream_libra.Text.{Text, codes, text_eq, contains}
use silo_plugin_xtream_libra.Text.Chars.{
  ascii_lower, is_space, drop_while, strip, trim, replace_runs, starts_with, join,
}
use silo_plugin_xtream_libra.Text.Split.{
  split_by, width_of, spaced_width, dash_width, split_path, join_path, has_slash,
}
use silo_plugin_xtream_libra.Ids.{unique_ids, collect_unique}
use silo_plugin_xtream_libra.Lineup.{
  normalized_name_token, name_tokens, parsed_delimited_path, channel_name_path_parts, drop_repeated,
  append_unduplicated_path_parts, append_virtual_path_parts,
}
use silo_plugin_xtream_libra.Lineup.Names.{
  Channel, Settings, category_starts_featured, category_display_name,
  normalize_virtual_group_source, seen_alias, collect_aliases, category_aliases, category_parsing,
  virtual_group_source_mode, use_source_group_virtual_paths, use_channel_name_virtual_paths,
  use_profile_group_virtual_paths, parsed_category_path, category_path_from_display_name,
  source_category_raw_name, source_category_raw_label, source_category_label, source_virtual_path,
  source_group_path, configured_category_path, remapped_path, remapped_paths, alias_virtual_paths,
}
use silo_plugin_xtream_libra.Lineup.Paths.{
  all_but_last, channel_name_folder_path_parts, looks_like_us_state_code, with_aliases,
  is_word_char, starts_with_word, has_word, inferred_international_root,
  inferred_channel_name_group_paths, virtual_paths,
}
use silo_plugin_xtream_libra.Lineup.Folders.{
  add_member, text_le, insert_group, sort_groups, part_at, has_parent, path_parts, add_levels,
  add_path, add_paths, add_channels, groups_from_channel_paths, categories_from_channel_paths,
  add_child_levels, add_child_path, child_categories_from_channel_paths, in_folder,
  channel_in_selected_category, virtual_category_id,
}
use silo_plugin_xtream_libra.Lineup.Folders.Agreement.{child_categories_from_channel_paths_same}
use silo_plugin_xtream_libra.Lineup.Folders.Counts.{
  HaveDistinctIds, categories_from_channel_paths-selected,
}
use silo_plugin_xtream_libra.Lineup.Folders.Levels.{IsPath}

computes : Bool
unfolding text_eq contains is_space drop_while strip trim replace_runs starts_with join split_by
    width_of spaced_width dash_width split_path join_path has_slash unique_ids collect_unique
    normalized_name_token name_tokens parsed_delimited_path channel_name_path_parts drop_repeated
    append_unduplicated_path_parts append_virtual_path_parts category_starts_featured
    category_display_name normalize_virtual_group_source seen_alias collect_aliases category_aliases
    category_parsing virtual_group_source_mode use_source_group_virtual_paths
    use_channel_name_virtual_paths use_profile_group_virtual_paths parsed_category_path
    category_path_from_display_name source_category_raw_name source_category_raw_label
    source_category_label source_virtual_path source_group_path configured_category_path
    remapped_path remapped_paths alias_virtual_paths all_but_last channel_name_folder_path_parts
    looks_like_us_state_code with_aliases is_word_char starts_with_word has_word
    inferred_international_root inferred_channel_name_group_paths virtual_paths add_member text_le
    insert_group sort_groups part_at has_parent path_parts add_levels add_path add_paths
    add_channels groups_from_channel_paths categories_from_channel_paths add_child_levels
    add_child_path child_categories_from_channel_paths in_folder channel_in_selected_category
    virtual_category_id ascii_lower
computes = true

abbrev settings : Settings
settings = record {
  lower = ascii_lower;
  upper = λ t. t;
  group_by_pipe = true;
  is_xtream = true;
  mode = codes "normal";
  delimiter = codes "pipe";
  virtual_group_source = codes "group_channel";
  infer_channel_name_groups = false;
  collapse_duplicates = true;
  aliases = record { source_path = codes "US | News"; alias_path = codes "World | News" } ∷ [];
  categories = [];
  profiles = [];
  channel_profile = none;
  selected_profiles = none;
}

abbrev channel : Text → Text → Text → Channel
channel id name category = record {
  id = id;
  name = name;
  category_id = codes "7";
  category_name = category;
  profile_ids = [];
}

delimited :
    parsed_delimited_path true (codes " US -  News-Now ") ≡ codes "US" ∷ codes "News-Now" ∷ []
unfolding computes
delimited = refl

appended :
    append_virtual_path_parts ascii_lower
      (codes "US / News")
      (codes "news" ∷ codes "Live" ∷ [])
      true
    ≡ codes "US / News / Live"
unfolding computes
appended = refl

paths_of_channel :
    virtual_paths settings (channel (codes "1") (codes "NY | One") (codes "US | News"))
    ≡ map codes (
        "US / News" ∷ "World / News" ∷ "US / News / NY" ∷ "World / News / NY"
        ∷ "US TV / Locals / NY" ∷ "US TV / Locals / NY / One" ∷ [])
unfolding computes
paths_of_channel = refl

abbrev channels : List Channel
channels =
    channel (codes "1") (codes "A") (codes "US / News")
    ∷ channel (codes "2") (codes "B") (codes "US / Sports")
    ∷ channel (codes "3") (codes "C") (codes "US / News / Local")
    ∷ []

-- Each channel stands in the folder of its category.
abbrev paths : Channel → List Text
paths c = c.category_name ∷ []

two_folders :
    categories_from_channel_paths
      (codes "US")
      (λ _. true)
      paths
      virtual_category_id
      (codes "virtual")
      false
      channels
    ≡ record {
      id = codes "virtual:US / News";
      name = codes "News";
      kind = codes "virtual";
      count = 2;
    }
      ∷ record {
        id = codes "virtual:US / Sports";
        name = codes "Sports";
        kind = codes "virtual";
        count = 1;
      }
      ∷ []
unfolding computes
two_folders = refl

plain_paths : All (λ c. All IsPath (paths c)) channels
unfolding computes
plain_paths = (
  ((codes "US", codes "News" ∷ [], (((refl, refl), ((refl, refl), tt)), refl)), tt),
  (
    ((codes "US", codes "Sports" ∷ [], (((refl, refl), ((refl, refl), tt)), refl)), tt),
    (
      (
        (
          codes "US",
          codes "News" ∷ codes "Local" ∷ [],
          (((refl, refl), ((refl, refl), ((refl, refl), tt))), refl),
        ),
        tt,
      ),
      tt,
    ),
  ),
)

distinct_channels : HaveDistinctIds channels
unfolding computes
distinct_channels = (refl, (refl, (refl, tt)))

categories_from_channel_paths-selected_example :
    All
      (λ f.
        f.count
        ≡ length (
            filter_by
              (λ c. true && channel_in_selected_category (λ _. []) paths paths c f.id)
              channels))
      (categories_from_channel_paths
        (codes "US")
        (λ _. true)
        paths
        virtual_category_id
        (codes "virtual")
        false
        channels)
categories_from_channel_paths-selected_example =
    categories_from_channel_paths-selected false (codes "US") (λ _. []) (λ _. true) paths paths
      channels distinct_channels plain_paths

child_categories_from_channel_paths_same_example :
    child_categories_from_channel_paths
      (codes "US")
      (λ _. true)
      paths
      virtual_category_id
      (codes "virtual")
      channels
    ≡ categories_from_channel_paths
        (codes "US")
        (λ _. true)
        paths
        virtual_category_id
        (codes "virtual")
        false
        channels
child_categories_from_channel_paths_same_example =
    child_categories_from_channel_paths_same (codes "US") (λ _. true) paths virtual_category_id
      (codes "virtual") channels
