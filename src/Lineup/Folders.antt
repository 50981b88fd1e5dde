-- ===== src/Lineup/Folders.antt =====
-- The folders that the channels' paths form: `categoriesFromChannelPaths`,
-- `childCategoriesFromChannelPaths` and `channelInSelectedCategory` of internal/plugin/ui/app.js.
pub mod Agreement
pub mod Members
pub mod Levels
pub mod Formed
pub mod Counts
use silo_plugin_xtream_libra.Prelude.{
  ℕ, zero, suc, ◌+◌, ◌-◌, Bool, true, false, not, ◌&&◌, ◌||◌, Option, none, some, List, [], ◌∷◌,
  ◌++◌, map, ltb, leb, ◌==◌, if◌then◌else◌, length, take, drop, filter_by, any,
}
use silo_plugin_xtream_libra.Text.{Text, codes, is_empty, text_eq, contains}
use silo_plugin_xtream_libra.Text.Chars.{starts_with, non_empty}
use silo_plugin_xtream_libra.Text.Split.{slash, split_path, join_path}
use silo_plugin_xtream_libra.Lineup.Names.{Channel}

-- A folder with the ids of the channels below it.
pub record Group : Type 0 where
  pub path : Text
  pub name : Text
  pub channel_ids : List Text

pub record Folder : Type 0 where
  pub id : Text
  pub name : Text
  pub kind : Text
  pub count : ℕ

-- `groups[path] = groups[path] || {...}; groups[path].channelIDs[id] = true`
unfoldable pub add_member : Text → Text → Text → List Group → List Group
unfolding text_eq contains
add_member path name id [] = record { path = path; name = name; channel_ids = id ∷ [] } ∷ []
add_member path name id (g ∷ gs) =
    let rest = add_member path name id gs in
    if text_eq g.path path
    then (if contains id g.channel_ids then g else record g { channel_ids = id ∷ g.channel_ids })
      ∷ gs
    else g ∷ rest

-- The order of two texts by their code units, which is `sort`'s.
unfoldable pub text_le : Text → Text → Bool
text_le [] t = true
text_le (a ∷ s) [] = false
text_le (a ∷ s) (b ∷ t) = ltb a b || (a == b && text_le s t)

unfoldable pub insert_group : Group → List Group → List Group
unfolding text_le
insert_group g [] = g ∷ []
insert_group g (h ∷ hs) =
    let rest = insert_group g hs in if text_le g.path h.path then g ∷ h ∷ hs else h ∷ rest

-- `Object.keys(groups).sort()`
unfoldable pub sort_groups : List Group → List Group
unfolding insert_group
sort_groups [] = []
sort_groups (g ∷ gs) = insert_group g (sort_groups gs)

-- `parts[index]`
unfoldable pub part_at : ℕ → List Text → Text
part_at n [] = []
part_at zero (p ∷ ps) = p
part_at (suc n) (p ∷ ps) = part_at n ps

-- The parent's parts begin the path's.
unfoldable pub has_parent : List Text → List Text → Bool
unfolding text_eq
has_parent [] parts = true
has_parent (q ∷ qs) [] = false
has_parent (q ∷ qs) (p ∷ ps) = text_eq p q && has_parent qs ps

-- `path.split(" / ").filter(Boolean)`
unfoldable pub path_parts : Text → List Text
unfolding split_path
path_parts path = non_empty (split_path path)

-- `for (index; index < limit; index++)`, with the rounds left; `full` tells whether the whole path is
-- the name.
unfoldable pub add_levels : (full : Bool) → List Text → Text → ℕ → ℕ → List Group → List Group
unfolding add_member part_at join_path
add_levels full parts id zero index groups = groups
add_levels full parts id (suc rounds) index groups =
    let path = join_path (take (suc index) parts) in
    add_levels full parts id rounds (suc index)
      (add_member path (if full then path else part_at index parts) id groups)

-- One path of one channel.
unfoldable pub add_path : (full : Bool) → List Text → Text → Text → List Group → List Group
unfolding add_levels has_parent path_parts
add_path full parent_parts id path groups =
    let parts = path_parts path in
    if leb (length parts) (length parent_parts)
    then groups
    else (if not (has_parent parent_parts parts)
        then groups
        else add_levels full parts id (if full then length parts - length parent_parts else 1)
            (length parent_parts) groups)

unfoldable pub add_paths : (Text → List Group → List Group) → List Text → List Group → List Group
add_paths add [] groups = groups
add_paths add (p ∷ ps) groups = add_paths add ps (add p groups)

unfoldable pub add_channels :
    (add : Text → Text → List Group → List Group)
    → (includes : Channel → Bool) → (paths : Channel → List Text) → List Channel
    → List Group
    → List Group
unfolding add_paths
add_channels add includes paths [] groups = groups
add_channels add includes paths (c ∷ cs) groups =
    add_channels add includes paths cs
      (if includes c then add_paths (add c.id) (paths c) groups else groups)

abbrev pub folder_of : (Text → Text) → Text → Group → Folder
folder_of id_for kind g = record {
  id = id_for g.path;
  name = g.name;
  kind = kind;
  count = length g.channel_ids;
}

abbrev pub parent_parts_of : Text → List Text
parent_parts_of parent = if is_empty parent then [] else path_parts parent

-- `categoriesFromChannelPaths` up to the folders' counts.
unfoldable pub groups_from_channel_paths :
    Text → (Channel → Bool) → (Channel → List Text) → (full : Bool) → List Channel → List Group
unfolding add_path add_channels path_parts
groups_from_channel_paths parent includes paths full channels =
    add_channels (add_path full (parent_parts_of parent)) includes paths channels []

unfoldable pub categories_from_channel_paths :
    Text
    → (Channel → Bool)
    → (Channel → List Text)
    → (Text → Text)
    → Text
    → (full : Bool) → List Channel
    → List Folder
unfolding groups_from_channel_paths sort_groups
categories_from_channel_paths parent includes paths id_for kind full channels =
    map (folder_of id_for kind)
      (sort_groups (groups_from_channel_paths parent includes paths full channels))

-- The loop of `childCategoriesFromChannelPaths` over the parts of a path.
unfoldable pub add_child_levels : List Text → List Text → Text → ℕ → ℕ → List Group → List Group
unfolding add_member part_at join_path has_parent
add_child_levels parent_parts parts id zero index groups = groups
add_child_levels parent_parts parts id (suc rounds) index groups =
    let path = join_path (take (suc index) parts) in
    let next = add_child_levels parent_parts parts id rounds (suc index) groups in
    let added =
      add_child_levels parent_parts parts id rounds (suc index)
        (add_member path (part_at (length parent_parts) parts) id groups) in
    if leb (length parts) (length parent_parts)
    then groups
    else (if not (has_parent parent_parts parts)
        then groups
        else (if index == length parent_parts then added else next))

unfoldable pub add_child_path : List Text → Text → Text → List Group → List Group
unfolding add_child_levels path_parts
add_child_path parent_parts id path groups =
    let parts = path_parts path in add_child_levels parent_parts parts id (length parts) 0 groups

unfoldable pub child_categories_from_channel_paths :
    Text
    → (Channel → Bool)
    → (Channel → List Text)
    → (Text → Text)
    → Text
    → List Channel
    → List Folder
unfolding add_child_path add_channels sort_groups path_parts
child_categories_from_channel_paths parent includes paths id_for kind channels =
    map (folder_of id_for kind) (
      sort_groups
        (add_channels (add_child_path (parent_parts_of parent)) includes paths channels []))

-- The channel stands in the folder or below it: `channelInSelectedCategory` of a featured or a
-- virtual category.
unfoldable pub in_folder : Text → List Text → Bool
unfolding text_eq starts_with
in_folder selected paths =
    any (λ path. text_eq path selected || starts_with (selected ++ slash) path) paths

-- `channelInSelectedCategory`, with the members of a custom group and the two kinds of paths as
-- functions.
unfoldable pub channel_in_selected_category :
    (members : Text → List Text) → (featured virtual : Channel → List Text) → Channel → Text → Bool
unfolding in_folder starts_with contains text_eq
channel_in_selected_category members featured virtual channel id =
    if is_empty id
    then true
    else (if starts_with (codes "source:") id
        then text_eq channel.category_id (drop 7 id)
        else (if starts_with (codes "custom:") id
            then contains channel.id (members (drop 7 id))
            else (if starts_with (codes "featured:") id
                then in_folder (drop 9 id) (featured channel)
                else (if starts_with (codes "virtual:") id
                    then in_folder (drop 8 id) (virtual channel)
                    else text_eq channel.category_id id))))

-- `virtualCategoryID`
unfoldable pub virtual_category_id : Text → Text
virtual_category_id path = codes "virtual:" ++ path
