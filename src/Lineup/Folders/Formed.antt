-- ===== src/Lineup/Folders/Formed.antt =====
-- The folders that are formed are distinct levels of the channels' paths.
use silo_plugin_xtream_libra.Prelude.{
  ℕ, zero, suc, ◌+◌, ◌-◌, ◌≤◌, ◌<◌, ◌≡◌, refl, Bool, true, false, not, List, [], ◌∷◌, arith, leb,
  if◌then◌else◌, length, take, length-take, All, All-take, Bool-cases, inl, inr,
}
use silo_plugin_xtream_libra.Text.{Text, text_eq, contains}
use silo_plugin_xtream_libra.Text.Paths.{IsPart}
use silo_plugin_xtream_libra.Text.Split.{join_path}
use silo_plugin_xtream_libra.Lineup.Names.{Channel}
use silo_plugin_xtream_libra.Lineup.Folders.{
  Group, add_member, has_parent, add_levels, add_path, add_paths, add_channels,
}
use silo_plugin_xtream_libra.Lineup.Folders.Members.{AreGroups, add_member-AreGroups}
use silo_plugin_xtream_libra.Lineup.Folders.Levels.{IsPath, IsLevel, path_parts-join_path}

-- What holds of every folder of a list holds after every step that adds a channel to a folder of
-- which it holds.
All-add_member :
    (P : Text → Type 0) (path name id : Text) (gs : List Group)
    → P path
    → All (λ g. P g.path) gs
    → All (λ g. P g.path) (add_member path name id gs)
unfolding add_member
All-add_member P path name id [] h a = (h, tt)
All-add_member P path name id (g ∷ gs) h a = elim (Bool-cases (text_eq g.path path)) [
  | inl same ↦ elim (Bool-cases (contains id g.channel_ids)) [
    | inl there ↦ rw (same, there) a
    | inr new ↦ rw (same, new) a
  ]
  | inr other ↦ rw other (a.0, All-add_member P path name id gs h a.1)
]

-- Groups that are distinct, each a level of some path.
abbrev pub AreLevels : Bool → List Text → List Group → Type 0
AreLevels full parent_parts gs = AreGroups gs × All (λ g. IsLevel full parent_parts g.path) gs

has_parent-take :
    (parent_parts parts : List Text) (n : ℕ)
    → length parent_parts ≤ n
    → has_parent parent_parts parts ≡ true
    → has_parent parent_parts (take n parts) ≡ true
unfolding has_parent
has_parent-take [] parts n h k = refl
has_parent-take (q ∷ qs) [] n h k = ground arith
has_parent-take (q ∷ qs) (p ∷ ps) zero h k = absurd (omega arith)
has_parent-take (q ∷ qs) (p ∷ ps) (suc n) h k =
    ground (arith, has_parent-take qs ps n (omega (arith, h)))

module _ (full : Bool) (parent_parts : List Text) where
  take-IsLevel :
      (q : Text) (qs : List Text) (index : ℕ)
      → All IsPart (q ∷ qs)
      → has_parent parent_parts (q ∷ qs) ≡ true
      → length parent_parts ≤ index
      → index < length (q ∷ qs)
      → (full ≡ false → index ≤ length parent_parts)
      → IsLevel full parent_parts (join_path (take (suc index) (q ∷ qs)))
  take-IsLevel q qs index a p low high one = (
    q,
    take index qs,
    (
      All-take IsPart (suc index) (q ∷ qs) a,
      has_parent-take parent_parts (q ∷ qs) (suc index) (omega arith) p,
      omega (arith, length-take index qs),
      (λ e. omega (arith, length-take index qs, one e)),
    ),
    refl,
  )

  AreLevels-add_levels :
      (q : Text) (qs : List Text) (id : Text) (rounds index : ℕ) (gs : List Group)
      → All IsPart (q ∷ qs)
      → has_parent parent_parts (q ∷ qs) ≡ true
      → length parent_parts ≤ index
      → index + rounds ≤ length (q ∷ qs)
      → (full ≡ false → index + rounds ≤ suc (length parent_parts))
      → AreLevels full parent_parts gs
      → AreLevels full parent_parts (add_levels full (q ∷ qs) id rounds index gs)
  unfolding add_levels
  AreLevels-add_levels q qs id zero index gs a p low high one l = l
  AreLevels-add_levels q qs id (suc rounds) index gs a p low high one l =
      AreLevels-add_levels q qs id rounds (suc index) _ a p (omega (arith, low))
        (omega (arith, high)) (λ e. omega (arith, one e))
        (
          add_member-AreGroups _ _ id gs l.0,
          All-add_member (IsLevel full parent_parts) _ _ id gs
              (take-IsLevel q qs index a p low (omega (arith, high)) (λ e. omega (arith, one e)))
              l.1,
        )

  AreLevels-add_path :
      (id path : Text) (gs : List Group)
      → IsPath path
      → AreLevels full parent_parts gs
      → AreLevels full parent_parts (add_path full parent_parts id path gs)
  unfolding add_path
  AreLevels-add_path id path gs (q, qs, path_of) l =
      rw (path_of.1) (rw (path_parts-join_path q qs path_of.0) split)
    where
      within :
          leb (length (q ∷ qs)) (length parent_parts) ≡ false
          → length parent_parts + (if full then length (q ∷ qs) - length parent_parts else 1)
            ≤ length (q ∷ qs)
      within long = elim (Bool-cases full) [
        | inl e ↦ rw e (ground arith)
        | inr e ↦ rw e (ground arith)
      ]

      split : AreLevels full parent_parts (
          if leb (length (q ∷ qs)) (length parent_parts)
          then gs
          else (if not (has_parent parent_parts (q ∷ qs))
              then gs
              else add_levels full
                  (q ∷ qs)
                  id
                  (if full then length (q ∷ qs) - length parent_parts else 1)
                  (length parent_parts)
                  gs))
      split = elim (Bool-cases (leb (length (q ∷ qs)) (length parent_parts))) [
        | inl short ↦ rw short l
        | inr long ↦ elim (Bool-cases (has_parent parent_parts (q ∷ qs))) [
          | inr other ↦ rw (long, other) l
          | inl below ↦
              rw (long, below)
                (AreLevels-add_levels q qs id
                  (if full then length (q ∷ qs) - length parent_parts else 1) (length parent_parts)
                  gs path_of.0 below (omega arith) (within long) (λ e. rw e (omega arith)) l)
        ]
      ]

  AreLevels-add_paths :
      (id : Text) (ps : List Text) (gs : List Group)
      → All IsPath ps
      → AreLevels full parent_parts gs
      → AreLevels full parent_parts (add_paths (add_path full parent_parts id) ps gs)
  unfolding add_paths
  AreLevels-add_paths id [] gs a l = l
  AreLevels-add_paths id (p ∷ ps) gs a l =
      AreLevels-add_paths id ps (add_path full parent_parts id p gs) a.1
        (AreLevels-add_path id p gs a.0 l)

  pub AreLevels-add_channels :
      (includes : Channel → Bool) (paths : Channel → List Text) (cs : List Channel)
      (gs : List Group)
      → All (λ c. All IsPath (paths c)) cs
      → AreLevels full parent_parts gs
      → AreLevels full parent_parts (add_channels (add_path full parent_parts) includes paths cs gs)
  unfolding add_channels
  AreLevels-add_channels includes paths [] gs a l = l
  AreLevels-add_channels includes paths (c ∷ cs) gs a l = elim (Bool-cases (includes c)) [
    | inl shown ↦ rw shown (
        AreLevels-add_channels includes paths cs _ a.1
          (AreLevels-add_paths c.id (paths c) gs a.0 l))
    | inr hidden ↦ rw hidden (AreLevels-add_channels includes paths cs gs a.1 l)
  ]
