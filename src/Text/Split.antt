-- ===== src/Text/Split.antt =====
-- `text.split(separator)` for the separators of the source, and the splitting of a joined list.
use silo_plugin_xtream_libra.Prelude.{
  ℕ, zero, suc, ◌-◌, ◌≡◌, refl, ap, Bool, false, ◌||◌, List, [], ◌∷◌, ◌++◌, arith, ◌==◌,
  if◌then◌else◌, length, All,
}
use silo_plugin_xtream_libra.Text.{Text, codes}
use silo_plugin_xtream_libra.Text.Chars.{is_space, drop_while, starts_with, join}

abbrev pub cons_head : ℕ → List Text → List Text
cons_head c [] = (c ∷ []) ∷ []
cons_head c (p ∷ ps) = (c ∷ p) ∷ ps

-- `width` tells how long the separator is that a text begins with, 0 for none; `skip` is how much
-- of the separator is left.
unfoldable pub split_by : (Text → ℕ) → ℕ → Text → List Text
split_by width skip [] = [] ∷ []
split_by width (suc skip) (c ∷ s) = split_by width skip s
split_by width zero (c ∷ s) = elim (width (c ∷ s)) [
  | zero ↦ cons_head c (split_by width 0 s)
  | suc k ↦ [] ∷ split_by width k s
]

-- A separator that is a text.
unfoldable pub width_of : Text → Text → ℕ
width_of sep s = if starts_with sep s then length sep else 0

-- `\s*x\s*`
unfoldable pub spaced_width : ℕ → Text → ℕ
spaced_width x s = elim (drop_while is_space s) [
  | [] ↦ 0
  | c ∷ rest ↦ if c == x then length s - length (drop_while is_space rest) else 0
]

-- `\s+-\s*`
unfoldable pub dash_width : Text → ℕ
unfolding spaced_width
dash_width [] = 0
dash_width (c ∷ s) = if is_space c then spaced_width b'-' (c ∷ s) else 0

-- The separator of paths.
abbrev pub slash : Text
slash = codes " / "

-- `path.split(" / ")`
unfoldable pub split_path : Text → List Text
unfolding split_by width_of
split_path = split_by (width_of slash) 0

-- `parts.join(" / ")`
unfoldable pub join_path : List Text → Text
unfolding join
join_path = join slash

-- A text without a slash.
unfoldable pub has_slash : Text → Bool
has_slash [] = false
has_slash (c ∷ s) = c == b'/' || has_slash s

abbrev head_slash : Text → Bool
head_slash [] = false
head_slash (c ∷ s) = c == b'/'

head_slash-append :
    (p s : Text) → has_slash p ≡ false → head_slash s ≡ false → head_slash (p ++ s) ≡ false
unfolding has_slash
head_slash-append [] s h k = k
head_slash-append (c ∷ p) s h k = ground arith

-- No path separator begins where no slash is next.
split_path_step :
    (c : ℕ) (s : Text) → head_slash s ≡ false → split_path (c ∷ s) ≡ cons_head c (split_path s)
unfolding split_path split_by
split_path_step c s h = rw (narrow s h, split_by) refl
  where
    narrow : (s : Text) → head_slash s ≡ false → width_of slash (c ∷ s) ≡ 0
    narrow [] h = unfold width_of starts_with in ground arith
    narrow (d ∷ s) h = unfold width_of starts_with in ground arith

split_path_plain : (p : Text) → has_slash p ≡ false → split_path p ≡ p ∷ []
unfolding has_slash
split_path_plain [] h = unfold split_path in refl
split_path_plain (c ∷ p) h =
    rw
      (
        split_path_step c p (rw (← append_nothing p) (head_slash-append p [] rest refl)),
        split_path_plain p rest,
      )
      refl
  where
    rest : has_slash p ≡ false
    rest = ground arith

    append_nothing : (p : Text) → p ++ [] ≡ p
    append_nothing [] = refl
    append_nothing (c ∷ p) = ap (c ∷◌) (append_nothing p)

head_slash-between : (p rest : Text) → has_slash p ≡ false → head_slash (p ++ slash ++ rest) ≡ false
unfolding has_slash
head_slash-between [] rest h = refl
head_slash-between (c ∷ p) rest h = ground arith

pub split_path_next :
    (p rest : Text) → has_slash p ≡ false → split_path (p ++ slash ++ rest) ≡ p ∷ split_path rest
unfolding has_slash
split_path_next [] rest h = unfold split_path width_of starts_with in refl
split_path_next (c ∷ p) rest h =
    rw
      (
        split_path_step c (p ++ slash ++ rest) (head_slash-between p rest plain),
        split_path_next p rest plain,
      )
      refl
  where
    plain : has_slash p ≡ false
    plain = ground arith

-- A path splits into the parts that it was joined from, if no part has a slash.
pub split_path-join_path :
    (p : Text) (ps : List Text)
    → All (λ t. has_slash t ≡ false) (p ∷ ps)
    → split_path (join_path (p ∷ ps)) ≡ p ∷ ps
unfolding join_path
split_path-join_path p [] a = split_path_plain p a.0
split_path-join_path p (q ∷ qs) a =
    rw (split_path_next p (join_path (q ∷ qs)) a.0) (ap (p ∷◌) (split_path-join_path q qs a.1))
