-- ===== src/Lineup/Folders/Levels.antt =====
-- The folders that are formed are levels of the channels' paths.
use silo_plugin_xtream_libra.Prelude.{
  ℕ, zero, suc, ◌+◌, ◌-◌, ◌≤◌, ◌<◌, ◌≡◌, refl, sym, ap, ◌∙◌, Bool, true, false, not, ◌&&◌, ◌||◌,
  List, [], ◌∷◌, ◌++◌, arith, leb, ◌==◌, ==_iff, if◌then◌else◌, length, take, All, All-take,
  Bool-cases, inl, inr,
}
use silo_plugin_xtream_libra.Text.{Text, text_eq, text_eq_iff}
use silo_plugin_xtream_libra.Text.Chars.{non_empty, starts_with}
use silo_plugin_xtream_libra.Text.Split.{join_path, split_path, slash}
use silo_plugin_xtream_libra.Text.Paths.{IsPart, begins, split_path-parts, below-begins}
use silo_plugin_xtream_libra.Lineup.Folders.{has_parent, path_parts}
use silo_plugin_xtream_libra.Lineup.Folders.Members.{level_hit, path_hit}

-- The text is a path of parts that it can be split into again.
abbrev pub IsPathOf : Text → List Text → Text → Type 0
IsPathOf q qs path = All IsPart (q ∷ qs) × (path ≡ join_path (q ∷ qs))

abbrev pub IsPath : Text → Type 0
IsPath path = (q : Text) × (qs : List Text) × IsPathOf q qs path

non_empty-parts : (ps : List Text) → All IsPart ps → non_empty ps ≡ ps
non_empty-parts [] a = refl
non_empty-parts (p ∷ ps) a = rw (a.0.1) (ap (p ∷◌) (non_empty-parts ps a.1))

pub path_parts-join_path :
    (q : Text) (qs : List Text) → All IsPart (q ∷ qs) → path_parts (join_path (q ∷ qs)) ≡ q ∷ qs
unfolding path_parts
path_parts-join_path q qs a = ap non_empty (split_path-parts q qs a) ∙ non_empty-parts (q ∷ qs) a

-- A level of a path: a prefix of its parts that goes below the parent.
abbrev IsLevelOf : Bool → List Text → Text → List Text → Type 0
IsLevelOf full parent_parts q qs =
    All IsPart (q ∷ qs)
    × (has_parent parent_parts (q ∷ qs) ≡ true)
    × (length parent_parts < length (q ∷ qs))
    × (full ≡ false → length (q ∷ qs) ≡ suc (length parent_parts))

abbrev pub IsLevel : Bool → List Text → Text → Type 0
IsLevel full parent_parts path =
    (q : Text) × (qs : List Text) × IsLevelOf full parent_parts q qs × (path ≡ join_path (q ∷ qs))

has_parent-begins :
    (parent_parts ps qs : List Text)
    → has_parent parent_parts ps ≡ true
    → begins ps qs ≡ true
    → has_parent parent_parts qs ≡ true
unfolding has_parent begins
has_parent-begins [] ps qs h b = refl
has_parent-begins (r ∷ rs) [] qs h b = ground arith
has_parent-begins (r ∷ rs) (p ∷ ps) [] h b = ground arith
has_parent-begins (r ∷ rs) (p ∷ ps) (q ∷ qs) h b =
    ground (arith, has_parent-begins rs ps qs, text_eq_iff p q)

begins-length : (ps qs : List Text) → begins ps qs ≡ true → length ps ≤ length qs
unfolding begins
begins-length [] qs b = omega arith
begins-length (p ∷ ps) [] b = ground arith
begins-length (p ∷ ps) (q ∷ qs) b = ground (arith, begins-length ps qs)

-- The first parts of a path are a given path's parts just if these begin the path's.
take-begins : (ps qs : List Text) → begins ps qs ≡ true → take (length ps) qs ≡ ps
unfolding begins
take-begins [] qs b = refl
take-begins (p ∷ ps) [] b = ground arith
take-begins (p ∷ ps) (q ∷ qs) b = ground (arith, take-begins ps qs, text_eq_iff p q)

begins-take : (n : ℕ) (qs : List Text) → begins (take n qs) qs ≡ true
unfolding begins
begins-take zero qs = refl
begins-take (suc n) [] = refl
begins-take (suc n) (q ∷ qs) = ground (arith, begins-take n qs, text_eq_iff q q)

module _ (p : Text) (ps : List Text) (q : Text) (qs : List Text) (a : All IsPart (p ∷ ps))
    (b : All IsPart (q ∷ qs)) where
  join_path-take :
      (k : ℕ)
      → join_path (take (suc k) (q ∷ qs)) ≡ join_path (p ∷ ps)
      → take (suc k) (q ∷ qs) ≡ p ∷ ps
  join_path-take k e =
      sym (split_path-parts q (take k qs) (All-take IsPart (suc k) (q ∷ qs) b))
      ∙ ap split_path e
      ∙ split_path-parts p ps a

  round-begins :
      (k : ℕ)
      → text_eq (join_path (take (suc k) (q ∷ qs))) (join_path (p ∷ ps)) ≡ true
      → begins (p ∷ ps) (q ∷ qs) ≡ true
  round-begins k e =
      ap (λ t. begins t (q ∷ qs))
        (sym (
          join_path-take k
            ((text_eq_iff (join_path (take (suc k) (q ∷ qs))) (join_path (p ∷ ps))).0 e)))
      ∙ begins-take (suc k) (q ∷ qs)

  hit-begins :
      (rounds index : ℕ)
      → level_hit (q ∷ qs) (join_path (p ∷ ps)) rounds index ≡ true
      → begins (p ∷ ps) (q ∷ qs) ≡ true
  unfolding level_hit
  hit-begins zero index h = ground arith
  hit-begins (suc rounds) index h =
      ground (arith, round-begins index, hit-begins rounds (suc index))

  begins-hit :
      (rounds index : ℕ)
      → index ≤ length ps
      → length ps < index + rounds
      → begins (p ∷ ps) (q ∷ qs) ≡ true
      → level_hit (q ∷ qs) (join_path (p ∷ ps)) rounds index ≡ true
  unfolding level_hit
  begins-hit zero index h k b = absurd (omega arith)
  begins-hit (suc rounds) index h k b = elim (Bool-cases (index == length ps)) [
    | inl here ↦ ground (arith, found ((==_iff index (length ps)).0 here))
    | inr later ↦ ground (arith, begins-hit rounds (suc index) (ground arith) (omega arith) b)
  ]
    where
      found :
          index ≡ length ps
          → text_eq (join_path (take (suc index) (q ∷ qs))) (join_path (p ∷ ps)) ≡ true
      found e =
          (text_eq_iff (join_path (take (suc index) (q ∷ qs))) (join_path (p ∷ ps))).1
            (ap join_path (ap (λ n. take (suc n) (q ∷ qs)) e ∙ take-begins (p ∷ ps) (q ∷ qs) b))

module _ (full : Bool) (parent_parts : List Text) (p : Text) (ps : List Text) (q : Text)
    (qs : List Text) (level : IsLevelOf full parent_parts p ps) (b : All IsPart (q ∷ qs)) where
  rounds : ℕ
  rounds = if full then length (q ∷ qs) - length parent_parts else 1

  enough_rounds : length (p ∷ ps) ≤ length (q ∷ qs) → length ps < length parent_parts + rounds
  unfolding rounds
  enough_rounds h = elim (Bool-cases full) [
    | inl e ↦ rw e (omega (arith, h, level.2))
    | inr e ↦ rw e (omega (arith, level.3 e))
  ]

  begins-path_hit :
      begins (p ∷ ps) (q ∷ qs) ≡ true
      → path_hit full parent_parts (join_path (p ∷ ps)) (join_path (q ∷ qs)) ≡ true
  unfolding path_hit rounds
  begins-path_hit h = rw (path_parts-join_path q qs b) (
      ground (
        arith,
        begins-length (p ∷ ps) (q ∷ qs) h,
        level.2,
        has_parent-begins parent_parts (p ∷ ps) (q ∷ qs) level.1 h,
        begins-hit p ps q qs level.0 b rounds (length parent_parts) (omega (arith, level.2))
            (enough_rounds (begins-length (p ∷ ps) (q ∷ qs) h)) h,
      ))

  path_hit-begins :
      path_hit full parent_parts (join_path (p ∷ ps)) (join_path (q ∷ qs)) ≡ true
      → begins (p ∷ ps) (q ∷ qs) ≡ true
  unfolding path_hit
  path_hit-begins h =
      hit-begins p ps q qs level.0 b (if full then length (q ∷ qs) - length parent_parts else 1)
        (length parent_parts)
        (last_test (not (leb (length (q ∷ qs)) (length parent_parts)))
          (has_parent parent_parts (q ∷ qs)) _ whole)
    where
      whole :
          (not (leb (length (q ∷ qs)) (length parent_parts))
            && has_parent parent_parts (q ∷ qs)
            && level_hit
                (q ∷ qs)
                (join_path (p ∷ ps))
                (if full then length (q ∷ qs) - length parent_parts else 1)
                (length parent_parts))
          ≡ true
      whole =
          ap
            (λ t.
              not (leb (length t) (length parent_parts))
              && has_parent parent_parts t
              && level_hit t (join_path (p ∷ ps))
                  (if full then length t - length parent_parts else 1) (length parent_parts))
            (sym (path_parts-join_path q qs b))
          ∙ h

      last_test : (x y z : Bool) → (x && y && z) ≡ true → z ≡ true
      last_test x y z h = ground arith

  path_hit-level : path_hit full parent_parts (join_path (p ∷ ps)) (join_path (q ∷ qs)) ≡ (
      text_eq (join_path (q ∷ qs)) (join_path (p ∷ ps))
      || starts_with (join_path (p ∷ ps) ++ slash) (join_path (q ∷ qs)))
  path_hit-level =
      ground (arith, begins-path_hit, path_hit-begins) ∙ sym (below-begins p q ps qs level.0 b)

-- A path has a folder as a level just if selecting the folder selects the path.
pub path_hit-in_folder :
    (full : Bool) (parent_parts : List Text) (folder path : Text)
    → IsLevel full parent_parts folder
    → IsPath path
    → path_hit full parent_parts folder path
      ≡ (text_eq path folder || starts_with (folder ++ slash) path)
path_hit-in_folder full parent_parts folder path (p, ps, level, e) (q, qs, path_of) =
    rw (e, path_of.1) (path_hit-level full parent_parts p ps q qs level path_of.0)
