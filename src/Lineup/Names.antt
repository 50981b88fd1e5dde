-- ===== src/Lineup/Names.antt =====
-- The channels, the settings that organize them, and the names and paths of categories:
-- `categoryDisplayName` to `aliasVirtualPathsForSourcePath` of internal/plugin/ui/app.js and
-- `normalizeVirtualGroupSource`, `normalizeCategoryAliases` of internal/plugin/ui/core.js.
use silo_plugin_xtream_libra.Prelude.{
  ◌+◌, Bool, false, not, ◌&&◌, ◌||◌, Option, none, some, List, [], ◌∷◌, ◌++◌, map, if◌then◌else◌,
  length, drop, find,
}
use silo_plugin_xtream_libra.Text.{Text, codes, is_empty, text_eq, contains}
use silo_plugin_xtream_libra.Text.Chars.{trim, starts_with, non_empty}
use silo_plugin_xtream_libra.Text.Split.{split_by, spaced_width, slash, join_path}
use silo_plugin_xtream_libra.Lineup.{parsed_delimited_path}

-- An absent text is the empty one.
pub record Channel : Type 0 where
  pub id : Text
  pub name : Text
  pub category_id : Text
  pub category_name : Text
  pub profile_ids : List Text

pub record Category : Type 0 where
  pub id : Text
  pub name : Text

pub record Alias : Type 0 where
  pub source_path : Text
  pub alias_path : Text

pub record Profile : Type 0 where
  pub id : Text
  pub name : Text

-- What the preferences, the source and the administrator's settings say of the lineup. `lower` and
-- `upper` change the case of a text.
pub record Settings : Type 0 where
  pub lower : Text → Text
  pub upper : Text → Text
  pub group_by_pipe : Bool
  pub is_xtream : Bool
  pub mode : Text
  pub delimiter : Text
  pub virtual_group_source : Text
  pub infer_channel_name_groups : Bool
  pub collapse_duplicates : Bool
  pub aliases : List Alias
  pub categories : List Category
  pub profiles : List Profile
  pub channel_profile : Option Text
  pub selected_profiles : Option (List Text)

unfoldable pub category_starts_featured : Text → Bool
unfolding trim starts_with
category_starts_featured name = starts_with (codes "*") (trim name)

unfoldable pub category_display_name : Text → Text
unfolding category_starts_featured
category_display_name name =
    if category_starts_featured (trim name) then trim (drop 1 (trim name)) else trim name

-- `normalizeVirtualGroupSource`
unfoldable pub normalize_virtual_group_source : Text → Bool → Text
unfolding trim contains
normalize_virtual_group_source value infer_legacy =
    let mode = trim value in
    if contains mode
      (codes "group" ∷ codes "group_channel" ∷ codes "channel" ∷ codes "profile_group" ∷ [])
    then mode
    else (if infer_legacy then codes "group_channel" else codes "group")

-- `normalizeCategoryAliases`: the pairs seen so far stand for the keys of `seen`.
unfoldable pub seen_alias : Alias → List Alias → Bool
unfolding text_eq
seen_alias a [] = false
seen_alias a (b ∷ bs) =
    (text_eq b.source_path a.source_path && text_eq b.alias_path a.alias_path) || seen_alias a bs

unfoldable pub collect_aliases : List Alias → List Alias → List Alias
unfolding trim seen_alias
collect_aliases seen [] = []
collect_aliases seen (x ∷ xs) =
    let a : Alias = record { source_path = trim x.source_path; alias_path = trim x.alias_path } in
    let skipped = collect_aliases seen xs in
    let kept = a ∷ collect_aliases (a ∷ seen) xs in
    if is_empty a.source_path || is_empty a.alias_path || seen_alias a seen then skipped else kept

unfoldable pub category_aliases : Settings → List Alias
unfolding collect_aliases
category_aliases s = collect_aliases [] s.aliases

-- `categoryParsing().enabled`; its mode is then always the delimiter, so that the branch of
-- `parsedCategoryPath` for a pattern is never taken.
unfoldable pub category_parsing : Settings → Bool
unfolding text_eq
category_parsing s = s.group_by_pipe || (not s.is_xtream && text_eq s.mode (codes "delimiter"))

unfoldable pub virtual_group_source_mode : Settings → Text
unfolding normalize_virtual_group_source
virtual_group_source_mode s =
    normalize_virtual_group_source s.virtual_group_source s.infer_channel_name_groups

unfoldable pub use_source_group_virtual_paths : Settings → Bool
unfolding virtual_group_source_mode text_eq
use_source_group_virtual_paths s = not (text_eq (virtual_group_source_mode s) (codes "channel"))

unfoldable pub use_channel_name_virtual_paths : Settings → Bool
unfolding virtual_group_source_mode text_eq
use_channel_name_virtual_paths s = not (text_eq (virtual_group_source_mode s) (codes "group"))

unfoldable pub use_profile_group_virtual_paths : Settings → Bool
unfolding virtual_group_source_mode text_eq
use_profile_group_virtual_paths s = text_eq (virtual_group_source_mode s) (codes "profile_group")

-- At least two parts, or none.
abbrev pub several : List Text → List Text
several [] = []
several (p ∷ []) = []
several (p ∷ q ∷ ps) = p ∷ q ∷ ps

unfoldable pub parsed_category_path : Settings → Text → List Text
unfolding category_parsing parsed_delimited_path trim text_eq
parsed_category_path s name =
    if not (category_parsing s) || is_empty (trim name)
    then []
    else several (
        non_empty
          (map trim (parsed_delimited_path (text_eq s.delimiter (codes "dash")) (trim name))))

unfoldable pub category_path_from_display_name : Settings → Text → Text
unfolding parsed_category_path category_display_name join_path
category_path_from_display_name s name =
    elim (parsed_category_path s (category_display_name name)) [
      | [] ↦ category_display_name name
      | p ∷ ps ↦ join_path (p ∷ ps)
    ]

-- `sourceCategoryRawName`
unfoldable pub source_category_raw_name : Settings → Text → Text
unfolding text_eq
source_category_raw_name s id = elim (find (λ c. text_eq c.id id) s.categories) [
  | none ↦ []
  | some c ↦ c.name
]

unfoldable pub source_category_raw_label : Settings → Channel → Text
unfolding source_category_raw_name
source_category_raw_label s channel =
    let name = source_category_raw_name s channel.category_id in
    if is_empty name then channel.category_name else name

unfoldable pub source_category_label : Settings → Channel → Text
unfolding category_display_name source_category_raw_label
source_category_label s channel = category_display_name (source_category_raw_label s channel)

-- `effectiveChannel`
unfoldable pub effective_channel : Settings → Channel → Channel
unfolding source_category_label
effective_channel s channel =
    let label = source_category_label s channel in
    if is_empty label then channel else record channel { category_name = label }

unfoldable pub source_virtual_path : Settings → Channel → Text
unfolding parsed_category_path source_category_label join_path
source_virtual_path s channel = join_path (parsed_category_path s (source_category_label s channel))

unfoldable pub source_group_path : Settings → Channel → Text
unfolding source_virtual_path
source_group_path s channel =
    let path = source_virtual_path s channel in
    if is_empty path then category_display_name (source_category_label s channel) else path

unfoldable pub featured_path_for_source_name : Settings → Text → Text
unfolding category_starts_featured category_path_from_display_name
featured_path_for_source_name s name =
    if category_starts_featured name
    then category_path_from_display_name s (category_display_name name)
    else []

unfoldable pub featured_paths : Settings → Channel → List Text
unfolding featured_path_for_source_name
featured_paths s channel =
    let path = featured_path_for_source_name s (source_category_raw_label s channel) in
    if is_empty path then [] else path ∷ []

unfoldable pub configured_category_path : Settings → Text → Text
unfolding parsed_category_path split_by spaced_width
configured_category_path s value =
    let display = category_display_name value in
    elim (parsed_category_path s display) [
      | p ∷ ps ↦ join_path (p ∷ ps)
      | [] ↦ join_path (several (non_empty (map trim (split_by (spaced_width b'/') 0 display))))
    ]

-- The path that an alias gives to a path, if it applies to it.
unfoldable pub remapped_path : Settings → Text → Alias → Option Text
unfolding configured_category_path text_eq starts_with
remapped_path s path alias =
    let from_path = configured_category_path s alias.source_path in
    let to_path = configured_category_path s alias.alias_path in
    if is_empty from_path || is_empty to_path
    then none
    else (if text_eq path from_path
        then some to_path
        else (if starts_with (from_path ++ slash) path
            then (let suffix = drop (length from_path + 3) path in
                some (if is_empty suffix then to_path else to_path ++ slash ++ suffix))
            else none))

unfoldable pub remapped_paths : Settings → Text → List Alias → List Text → List Text
unfolding remapped_path contains
remapped_paths s path [] seen = []
remapped_paths s path (alias ∷ rest) seen = elim (remapped_path s path alias) [
  | none ↦ remapped_paths s path rest seen
  | some p ↦
      let skipped = remapped_paths s path rest seen in
      let kept = p ∷ remapped_paths s path rest (p ∷ seen) in
      if contains p seen then skipped else kept
]

-- `aliasVirtualPathsForSourcePath`
unfoldable pub alias_virtual_paths : Settings → Text → List Text
unfolding remapped_paths category_aliases
alias_virtual_paths s source_path =
    let configured = configured_category_path s source_path in
    let normalized = (if is_empty configured then trim source_path else configured) in
    if is_empty normalized then [] else remapped_paths s normalized (category_aliases s) []
