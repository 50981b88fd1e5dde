-- ===== src/Lineup/Folders/Counts.antt =====
-- The number that is shown on a folder is the number of channels that selecting it shows.
use silo_plugin_xtream_libra.Prelude.{
  ◌≡◌, refl, sym, ◌∙◌, Bool, false, ◌&&◌, List, [], ◌∷◌, map, arith, if◌then◌else◌, length, any,
  All, Bool-cases, inl, inr, filter_by,
}
use silo_plugin_xtream_libra.Text.{Text, codes, text_eq, text_eq_iff, contains}
use silo_plugin_xtream_libra.Text.Chars.{starts_with}
use silo_plugin_xtream_libra.Ids.{IsDistinct}
use silo_plugin_xtream_libra.Ids.Sizes.{same_length}
use silo_plugin_xtream_libra.Lineup.Names.{Channel}
use silo_plugin_xtream_libra.Lineup.Folders.{
  Group, Folder, in_folder, insert_group, sort_groups, text_le, parent_parts_of,
  groups_from_channel_paths, categories_from_channel_paths, channel_in_selected_category,
  virtual_category_id,
}
use silo_plugin_xtream_libra.Lineup.Folders.Members.{
  has_member, has_group, AreGroups, path_hit, has_member-add_channels,
}
use silo_plugin_xtream_libra.Lineup.Folders.Formed.{AreLevels, AreLevels-add_channels}
use silo_plugin_xtream_libra.Lineup.Folders.Levels.{IsPath, IsLevel, path_hit-in_folder}

insert_group-All :
    (P : Group → Type 0) (g : Group) (gs : List Group) → P g → All P gs → All P (insert_group g gs)
unfolding insert_group
insert_group-All P g [] h a = (h, tt)
insert_group-All P g (x ∷ gs) h a = elim (Bool-cases (text_le g.path x.path)) [
  | inl here ↦ rw here (h, a)
  | inr later ↦ rw later (a.0, insert_group-All P g gs h a.1)
]

sort_groups-All : (P : Group → Type 0) (gs : List Group) → All P gs → All P (sort_groups gs)
unfolding sort_groups
sort_groups-All P [] a = tt
sort_groups-All P (g ∷ gs) a = insert_group-All P g (sort_groups gs) a.0 (sort_groups-All P gs a.1)

map_folders-All :
    (P : Folder → Type 0) (f : Group → Folder) (gs : List Group)
    → All (λ g. P (f g)) gs
    → All P (map f gs)
map_folders-All P f [] a = tt
map_folders-All P f (g ∷ gs) a = (a.0, map_folders-All P f gs a.1)

ids_of : (Channel → Bool) → List Channel → List Text
ids_of r [] = []
ids_of r (c ∷ cs) = if r c then c.id ∷ ids_of r cs else ids_of r cs

length-ids_of :
    (r : Channel → Bool) (cs : List Channel) → length (ids_of r cs) ≡ length (filter_by r cs)
unfolding ids_of
length-ids_of r [] = refl
length-ids_of r (c ∷ cs) = ground (arith, length-ids_of r cs)

contains-ids_of :
    (r : Channel → Bool) (i : Text) (cs : List Channel)
    → contains i (ids_of r cs) ≡ any (λ c. r c && text_eq c.id i) cs
unfolding ids_of contains
contains-ids_of r i [] = refl
contains-ids_of r i (c ∷ cs) = ground (arith, contains-ids_of r i cs)

-- No two channels have one id.
abbrev pub HaveDistinctIds : List Channel → Type 0
HaveDistinctIds [] = Unit {0}
HaveDistinctIds (c ∷ cs) = (any (λ d. text_eq d.id c.id) cs ≡ false) × HaveDistinctIds cs

any-weaken :
    (r : Channel → Bool) (i : Text) (cs : List Channel)
    → any (λ d. text_eq d.id i) cs ≡ false
    → any (λ c. r c && text_eq c.id i) cs ≡ false
any-weaken r i [] h = refl
any-weaken r i (c ∷ cs) h = ground (arith, any-weaken r i cs)

ids_of-IsDistinct :
    (r : Channel → Bool) (cs : List Channel) → HaveDistinctIds cs → IsDistinct (ids_of r cs)
unfolding ids_of
ids_of-IsDistinct r [] d = tt
ids_of-IsDistinct r (c ∷ cs) d =
    ground (arith, ids_of-IsDistinct r cs, contains-ids_of r c.id cs, any-weaken r c.id cs)

has_member-none :
    (i path : Text) (gs : List Group) → has_group path gs ≡ false → has_member i path gs ≡ false
unfolding has_member has_group
has_member-none i path [] h = refl
has_member-none i path (g ∷ gs) h = ground (arith, has_member-none i path gs)

-- A group has the members that the list has for its path.
abbrev HaveMembers : List Group → List Group → Type 0
HaveMembers all gs = All (λ g. (i : Text) → contains i g.channel_ids ≡ has_member i g.path all) gs

HaveMembers-cons :
    (g : Group) (all gs : List Group)
    → has_group g.path gs ≡ false
    → HaveMembers all gs
    → HaveMembers (g ∷ all) gs
unfolding has_group has_member
HaveMembers-cons g all [] h a = tt
HaveMembers-cons g all (x ∷ gs) h a = (
  (λ i. ground (arith, a.0 i, text_eq_iff g.path x.path, text_eq_iff x.path g.path)),
  HaveMembers-cons g all gs (ground arith) a.1,
)

AreGroups-HaveMembers : (gs : List Group) → AreGroups gs → HaveMembers gs gs
unfolding has_member
AreGroups-HaveMembers [] a = tt
AreGroups-HaveMembers (g ∷ gs) a = (
  (λ i. ground (arith, has_member-none i g.path gs a.0, text_eq_iff g.path g.path)),
  HaveMembers-cons g gs gs a.0 (AreGroups-HaveMembers gs a.2),
)

module _ (full : Bool) (parent : Text) (members : Text → List Text) (includes : Channel → Bool)
    (featured paths : Channel → List Text) where
  any-path_hit :
      (folder : Text) (ps : List Text)
      → IsLevel full (parent_parts_of parent) folder
      → All IsPath ps
      → any (path_hit full (parent_parts_of parent) folder) ps ≡ in_folder folder ps
  unfolding in_folder
  any-path_hit folder [] level a = refl
  any-path_hit folder (p ∷ ps) level a = ground (
    arith,
    path_hit-in_folder full (parent_parts_of parent) folder p level a.0,
    any-path_hit folder ps level a.1,
  )

  -- What selecting the folder shows of the included channels.
  abbrev selected : Text → Channel → Bool
  selected id c = includes c && channel_in_selected_category members featured paths c id

  any-selected :
      (folder i : Text) (cs : List Channel)
      → IsLevel full (parent_parts_of parent) folder
      → All (λ c. All IsPath (paths c)) cs
      → any
          (λ c.
            includes c
            && any (path_hit full (parent_parts_of parent) folder) (paths c)
            && text_eq c.id i)
          cs
        ≡ any (λ c. selected (virtual_category_id folder) c && text_eq c.id i) cs
  unfolding channel_in_selected_category virtual_category_id starts_with
  any-selected folder i [] level a = refl
  any-selected folder i (c ∷ cs) level a =
      ground (arith, any-path_hit folder (paths c) level a.0, any-selected folder i cs level a.1)

  -- The count of one group.
  count_group :
      (cs : List Channel) (g : Group)
      → HaveDistinctIds cs
      → All (λ c. All IsPath (paths c)) cs
      → IsDistinct g.channel_ids
      → IsLevel full (parent_parts_of parent) g.path
      → ((i : Text)
          → contains i g.channel_ids
            ≡ has_member i g.path (groups_from_channel_paths parent includes paths full cs))
      → length g.channel_ids ≡ length (filter_by (selected (virtual_category_id g.path)) cs)
  count_group cs g distinct plain once level has =
      same_length g.channel_ids (ids_of (selected (virtual_category_id g.path)) cs) once
        (ids_of-IsDistinct (selected (virtual_category_id g.path)) cs distinct) same
      ∙ length-ids_of (selected (virtual_category_id g.path)) cs
    where
      formed :
          (i : Text)
          → has_member i g.path (groups_from_channel_paths parent includes paths full cs)
            ≡ any
                (λ c.
                  includes c
                  && any (path_hit full (parent_parts_of parent) g.path) (paths c)
                  && text_eq c.id i)
                cs
      formed i =
          unfold groups_from_channel_paths has_member in
          has_member-add_channels full (parent_parts_of parent) i g.path includes paths cs []

      same :
          (i : Text)
          → contains i g.channel_ids
            ≡ contains i (ids_of (selected (virtual_category_id g.path)) cs)
      same i =
          has i
          ∙ formed i
          ∙ any-selected g.path i cs level plain
          ∙ sym (contains-ids_of (selected (virtual_category_id g.path)) i cs)

  count_groups :
      (cs : List Channel) (gs : List Group)
      → HaveDistinctIds cs
      → All (λ c. All IsPath (paths c)) cs
      → AreLevels full (parent_parts_of parent) gs
      → HaveMembers (groups_from_channel_paths parent includes paths full cs) gs
      → All
          (λ g.
            length g.channel_ids ≡ length (filter_by (selected (virtual_category_id g.path)) cs))
          gs
  count_groups cs [] distinct plain l h = tt
  count_groups cs (g ∷ gs) distinct plain l h = (
    count_group cs g distinct plain l.0.1 l.1.0 h.0,
    count_groups cs gs distinct plain (l.0.2, l.1.1) h.1,
  )

  -- Where the channels have distinct ids, and every path of a channel is a list of non-empty parts
  -- without slashes, the number shown on each folder is the number of included channels that
  -- selecting the folder shows, at each level and for each parent folder.
  pub categories_from_channel_paths-selected :
      (cs : List Channel)
      → HaveDistinctIds cs
      → All (λ c. All IsPath (paths c)) cs
      → All
          (λ f. f.count ≡ length (filter_by (selected f.id) cs))
          (categories_from_channel_paths parent includes paths virtual_category_id
            (codes "virtual")
            full
            cs)
  unfolding categories_from_channel_paths
  categories_from_channel_paths-selected cs distinct plain =
      map_folders-All _ _ (sort_groups groups) (
        sort_groups-All _ groups
          (count_groups cs groups distinct plain levels (AreGroups-HaveMembers groups levels.0)))
    where
      groups : List Group
      groups = groups_from_channel_paths parent includes paths full cs

      levels : AreLevels full (parent_parts_of parent) groups
      levels =
          unfold groups_from_channel_paths in
          AreLevels-add_channels full (parent_parts_of parent) includes paths cs [] plain (tt, tt)
