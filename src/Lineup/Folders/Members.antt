-- ===== src/Lineup/Folders/Members.antt =====
-- Which channels a folder collects.
use silo_plugin_xtream_libra.Prelude.{
  ℕ, zero, suc, ◌-◌, ◌≡◌, refl, Bool, false, not, ◌&&◌, ◌||◌, List, [], ◌∷◌, arith, leb,
  if◌then◌else◌, length, take, any,
}
use silo_plugin_xtream_libra.Text.{Text, text_eq, text_eq_iff, contains}
use silo_plugin_xtream_libra.Text.Split.{join_path}
use silo_plugin_xtream_libra.Ids.{IsDistinct}
use silo_plugin_xtream_libra.Lineup.Names.{Channel}
use silo_plugin_xtream_libra.Lineup.Folders.{
  Group, add_member, part_at, has_parent, path_parts, add_levels, add_path, add_paths, add_channels,
}

-- The channel is in the folder of the path.
unfoldable pub has_member : Text → Text → List Group → Bool
has_member id path [] = false
has_member id path (g ∷ gs) =
    (text_eq g.path path && contains id g.channel_ids) || has_member id path gs

-- There is a folder of the path.
unfoldable pub has_group : Text → List Group → Bool
has_group path [] = false
has_group path (g ∷ gs) = text_eq g.path path || has_group path gs

-- One folder for each path, with each channel once.
abbrev pub AreGroups : List Group → Type 0
AreGroups [] = Unit {0}
AreGroups (g ∷ gs) = (has_group g.path gs ≡ false) × IsDistinct g.channel_ids × AreGroups gs

has_group-add_member :
    (p path name id : Text) (gs : List Group)
    → has_group p (add_member path name id gs) ≡ (has_group p gs || text_eq path p)
unfolding has_group add_member
has_group-add_member p path name id [] = ground arith
has_group-add_member p path name id (g ∷ gs) =
    ground (arith, has_group-add_member p path name id gs, text_eq_iff g.path path)

pub has_member-add_member :
    (i p path name id : Text) (gs : List Group)
    → has_member i p (add_member path name id gs)
      ≡ (has_member i p gs || (text_eq path p && text_eq id i))
unfolding has_member add_member contains
has_member-add_member i p path name id [] = ground arith
has_member-add_member i p path name id (g ∷ gs) =
    ground
      (arith, has_member-add_member i p path name id gs, text_eq_iff g.path path, text_eq_iff id i)

pub add_member-AreGroups :
    (path name id : Text) (gs : List Group) → AreGroups gs → AreGroups (add_member path name id gs)
unfolding add_member has_group contains
add_member-AreGroups path name id [] a = (refl, (refl, tt), tt)
add_member-AreGroups path name id (g ∷ gs) a = ground (
  arith,
  add_member-AreGroups path name id gs,
  has_group-add_member g.path path name id gs,
  text_eq_iff g.path path,
  text_eq_iff path g.path,
)

-- Some round of the loop is at the path.
unfoldable pub level_hit : List Text → Text → ℕ → ℕ → Bool
level_hit parts p zero index = false
level_hit parts p (suc rounds) index =
    text_eq (join_path (take (suc index) parts)) p || level_hit parts p rounds (suc index)

-- The path has the folder as a level below the parent.
unfoldable pub path_hit : (full : Bool) → List Text → Text → Text → Bool
path_hit full parent_parts p path =
    not (leb (length (path_parts path)) (length parent_parts))
    && has_parent parent_parts (path_parts path)
    && level_hit (path_parts path) p
        (if full then length (path_parts path) - length parent_parts else 1) (length parent_parts)

has_member-add_levels :
    (full : Bool) (i p : Text) (parts : List Text) (id : Text) (rounds index : ℕ) (gs : List Group)
    → has_member i p (add_levels full parts id rounds index gs)
      ≡ (has_member i p gs || (level_hit parts p rounds index && text_eq id i))
unfolding add_levels level_hit
has_member-add_levels full i p parts id zero index gs = ground arith
has_member-add_levels full i p parts id (suc rounds) index gs = ground (
  arith,
  has_member-add_levels full i p parts id rounds (suc index) (
      add_member (join_path (take (suc index) parts))
        (if full then join_path (take (suc index) parts) else part_at index parts) id gs),
  has_member-add_member i p (join_path (take (suc index) parts))
      (if full then join_path (take (suc index) parts) else part_at index parts) id gs,
)

has_member-add_path :
    (full : Bool) (i p : Text) (parent_parts : List Text) (id path : Text) (gs : List Group)
    → has_member i p (add_path full parent_parts id path gs)
      ≡ (has_member i p gs || (path_hit full parent_parts p path && text_eq id i))
unfolding add_path path_hit
has_member-add_path full i p parent_parts id path gs = ground (
  arith,
  has_member-add_levels full i p (path_parts path) id
      (if full then length (path_parts path) - length parent_parts else 1) (length parent_parts) gs,
)

module _ (full : Bool) (parent_parts : List Text) (i p : Text) where
  has_member-add_paths :
      (id : Text) (ps : List Text) (gs : List Group)
      → has_member i p (add_paths (add_path full parent_parts id) ps gs)
        ≡ (has_member i p gs || (any (path_hit full parent_parts p) ps && text_eq id i))
  unfolding add_paths
  has_member-add_paths id [] gs = ground arith
  has_member-add_paths id (path ∷ ps) gs = ground (
    arith,
    has_member-add_paths id ps (add_path full parent_parts id path gs),
    has_member-add_path full i p parent_parts id path gs,
  )

  -- The channel is in the folder just if it is included and a path of it has the folder as a level.
  pub has_member-add_channels :
      (includes : Channel → Bool) (paths : Channel → List Text) (cs : List Channel)
      (gs : List Group)
      → has_member i p (add_channels (add_path full parent_parts) includes paths cs gs) ≡ (
          has_member i p gs
          || any
              (λ c. includes c && any (path_hit full parent_parts p) (paths c) && text_eq c.id i)
              cs)
  unfolding add_channels
  has_member-add_channels includes paths [] gs = ground arith
  has_member-add_channels includes paths (c ∷ cs) gs = ground (
    arith,
    has_member-add_channels includes paths cs
        (if includes c then add_paths (add_path full parent_parts c.id) (paths c) gs else gs),
    has_member-add_paths c.id (paths c) gs,
  )
