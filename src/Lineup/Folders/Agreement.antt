-- ===== src/Lineup/Folders/Agreement.antt =====
-- The two ways in which the code computes the folders one level below a folder agree.
use silo_plugin_xtream_libra.Prelude.{
  ℕ, zero, suc, ◌+◌, ◌≤◌, ◌<◌, ◌≡◌, refl, ap, ◌∙◌, Bool, true, false, List, [], ◌∷◌, map, arith,
  leb, ◌==◌, ==_iff, length, take, Bool-cases, inl, inr,
}
use silo_plugin_xtream_libra.Text.{Text}
use silo_plugin_xtream_libra.Text.Split.{join_path}
use silo_plugin_xtream_libra.Lineup.Names.{Channel}
use silo_plugin_xtream_libra.Lineup.Folders.{
  Group, add_member, part_at, has_parent, path_parts, add_path, add_paths, add_channels,
  parent_parts_of, groups_from_channel_paths, categories_from_channel_paths, add_child_levels,
  add_child_path, child_categories_from_channel_paths, sort_groups, folder_of,
}

module _ (parent_parts parts : List Text) (id : Text) where
  -- Past the level of interest the loop changes nothing.
  add_child_levels_past :
      (rounds index : ℕ) (groups : List Group)
      → length parent_parts < index
      → add_child_levels parent_parts parts id rounds index groups ≡ groups
  unfolding add_child_levels
  add_child_levels_past zero index groups h = refl
  add_child_levels_past (suc rounds) index groups h =
      ground (arith, add_child_levels_past rounds (suc index) groups)

  abbrev child_added : List Group → List Group
  child_added =
      add_member (join_path (take (suc (length parent_parts)) parts))
        (part_at (length parent_parts) parts) id

  add_child_levels_at :
      (rounds index : ℕ) (groups : List Group)
      → index ≤ length parent_parts
      → length parent_parts < index + rounds
      → leb (length parts) (length parent_parts) ≡ false
      → has_parent parent_parts parts ≡ true
      → add_child_levels parent_parts parts id rounds index groups ≡ child_added groups
  unfolding add_child_levels
  add_child_levels_at zero index groups h k e p = absurd (omega arith)
  add_child_levels_at (suc rounds) index groups h k e p =
      elim (Bool-cases (index == length parent_parts)) [
        | inl here ↦
            rw (e, p, here)
              (add_child_levels_past rounds (suc index) _ (ground arith)
                ∙ ap
                    (λ n.
                      add_member (join_path (take (suc n) parts))
                        (part_at (length parent_parts) parts) id groups)
                    ((==_iff index (length parent_parts)).0 here))
        | inr later ↦
            rw (e, p, later)
              (add_child_levels_at rounds (suc index) groups (ground arith) (omega arith) e p)
      ]

  add_child_levels_none :
      (rounds index : ℕ) (groups : List Group)
      → leb (length parts) (length parent_parts) ≡ true
      → add_child_levels parent_parts parts id rounds index groups ≡ groups
  unfolding add_child_levels
  add_child_levels_none zero index groups e = refl
  add_child_levels_none (suc rounds) index groups e = rw e refl

  add_child_levels_other :
      (rounds index : ℕ) (groups : List Group)
      → has_parent parent_parts parts ≡ false
      → add_child_levels parent_parts parts id rounds index groups ≡ groups
  unfolding add_child_levels
  add_child_levels_other zero index groups e = refl
  add_child_levels_other (suc rounds) index groups e = ground (arith, e)

add_child_path-add_path :
    (parent_parts : List Text) (id path : Text) (groups : List Group)
    → add_child_path parent_parts id path groups ≡ add_path false parent_parts id path groups
unfolding add_child_path add_path
add_child_path-add_path parent_parts id path groups =
    elim (Bool-cases (leb (length (path_parts path)) (length parent_parts))) [
      | inl short ↦ rw short (
          add_child_levels_none parent_parts (path_parts path) id (length (path_parts path)) 0
            groups short)
      | inr long ↦ elim (Bool-cases (has_parent parent_parts (path_parts path))) [
        | inr other ↦
            rw (long, other)
              (add_child_levels_other parent_parts (path_parts path) id (length (path_parts path)) 0
                groups other)
        | inl below ↦
            rw (long, below)
              (add_child_levels_at parent_parts (path_parts path) id (length (path_parts path)) 0
                groups (omega arith) (ground arith) long below)
      ]
    ]

add_paths-same :
    (f g : Text → List Group → List Group)
    → ((path : Text) (groups : List Group) → f path groups ≡ g path groups)
    → (ps : List Text) (groups : List Group) → add_paths f ps groups ≡ add_paths g ps groups
unfolding add_paths
add_paths-same f g h [] groups = refl
add_paths-same f g h (p ∷ ps) groups = rw (h p groups) (add_paths-same f g h ps (g p groups))

add_channels-same :
    (f g : Text → Text → List Group → List Group)
    → ((id path : Text) (groups : List Group) → f id path groups ≡ g id path groups)
    → (includes : Channel → Bool) (paths : Channel → List Text) (cs : List Channel)
      (groups : List Group)
    → add_channels f includes paths cs groups ≡ add_channels g includes paths cs groups
unfolding add_channels
add_channels-same f g h includes paths [] groups = refl
add_channels-same f g h includes paths (c ∷ cs) groups = elim (Bool-cases (includes c)) [
  | inl yes_it ↦
      rw (yes_it, add_paths-same (f c.id) (g c.id) (h c.id) (paths c) groups)
        (add_channels-same f g h includes paths cs (add_paths (g c.id) (paths c) groups))
  | inr skipped ↦ rw skipped (add_channels-same f g h includes paths cs groups)
]

-- The folders one level below a folder are the same whether they are computed as its children or
-- as the categories below it without all descendants: ids, names, counts and order.
pub child_categories_from_channel_paths_same :
    (parent : Text) (includes : Channel → Bool) (paths : Channel → List Text) (id_for : Text → Text)
    (kind : Text) (channels : List Channel)
    → child_categories_from_channel_paths parent includes paths id_for kind channels
      ≡ categories_from_channel_paths parent includes paths id_for kind false channels
unfolding child_categories_from_channel_paths categories_from_channel_paths
    groups_from_channel_paths
child_categories_from_channel_paths_same parent includes paths id_for kind channels =
    ap (λ gs. map (folder_of id_for kind) (sort_groups gs))
      (add_channels-same (add_child_path (parent_parts_of parent))
        (add_path false (parent_parts_of parent)) (add_child_path-add_path (parent_parts_of parent))
        includes paths channels [])
