-- ===== src/Guide/Windows/Merge.antt =====
-- What a merge of a window's programs holds: one program for each key, the fresh one if there is one.
use silo_plugin_xtream_libra.Prelude.{
  ℕ, ◌≡◌, refl, ap, Bool, true, Option, none, some, List, [], ◌∷◌, if◌then◌else◌, arith, filter_by,
  Bool-cases, Option-cases, inl, inr,
}
use silo_plugin_xtream_libra.Text.{Text, text_eq, text_eq_iff}
use silo_plugin_xtream_libra.Guide.Windows.{
  Program, guide_program_key, add_program, add_programs, is_retained, merge_guide_window_programs,
}

-- The first program with the key.
unfoldable pub find_program : Text → List Program → Option Program
find_program k [] = none
find_program k (p ∷ ps) = if text_eq (guide_program_key p) k then some p else find_program k ps

-- The first of two results that is one.
abbrev pub prefer : Option Program → Option Program → Option Program
prefer none b = b
prefer (some p) b = some p

-- The last program with the key.
unfoldable pub latest_program : Text → List Program → Option Program
latest_program k [] = none
latest_program k (p ∷ ps) =
    prefer (latest_program k ps) (if text_eq (guide_program_key p) k then some p else none)

-- No two programs have one key.
abbrev pub AreDistinct : List Program → Type 0
AreDistinct [] = Unit {0}
AreDistinct (p ∷ ps) = (find_program (guide_program_key p) ps ≡ none) × AreDistinct ps

find_program-add_program :
    (k : Text) (p : Program) (qs : List Program)
    → find_program k (add_program p qs)
      ≡ (if text_eq (guide_program_key p) k then some p else find_program k qs)
unfolding find_program add_program
find_program-add_program k p [] = refl
find_program-add_program k p (q ∷ qs) = ground (
  arith,
  find_program-add_program k p qs,
  text_eq_iff (guide_program_key q) (guide_program_key p),
  text_eq_iff (guide_program_key q) k,
  text_eq_iff (guide_program_key p) k,
)

pub add_program-AreDistinct :
    (p : Program) (qs : List Program) → AreDistinct qs → AreDistinct (add_program p qs)
unfolding add_program find_program
add_program-AreDistinct p [] d = (refl, tt)
add_program-AreDistinct p (q ∷ qs) d = ground (
  arith,
  add_program-AreDistinct p qs,
  find_program-add_program (guide_program_key q) p qs,
  text_eq_iff (guide_program_key q) (guide_program_key p),
  text_eq_iff (guide_program_key p) (guide_program_key q),
)

pub find_program-add_programs :
    (k : Text) (ps qs : List Program)
    → find_program k (add_programs ps qs) ≡ prefer (latest_program k ps) (find_program k qs)
unfolding add_programs latest_program
find_program-add_programs k [] qs = refl
find_program-add_programs k (p ∷ ps) qs = elim (Option-cases (latest_program k ps)) [
  | inl e ↦
      rw (find_program-add_programs k ps (add_program p qs), find_program-add_program k p qs, e)
        (ground arith)
  | inr (q, e) ↦
      rw (find_program-add_programs k ps (add_program p qs), find_program-add_program k p qs, e)
        refl
]

add_programs-AreDistinct :
    (ps qs : List Program) → AreDistinct qs → AreDistinct (add_programs ps qs)
unfolding add_programs
add_programs-AreDistinct [] qs d = d
add_programs-AreDistinct (p ∷ ps) qs d =
    add_programs-AreDistinct ps (add_program p qs) (add_program-AreDistinct p qs d)

-- A merge has no two programs of one key, whatever is merged.
pub merge_guide_window_programs-AreDistinct :
    (now start end : ℕ) (existing fresh : List Program)
    → AreDistinct (merge_guide_window_programs now existing fresh start end)
unfolding merge_guide_window_programs
merge_guide_window_programs-AreDistinct now start end existing fresh =
    add_programs-AreDistinct fresh _
      (add_programs-AreDistinct (filter_by (is_retained now start end) existing) [] tt)

-- Under each key a merge holds the last fresh program with that key, or else the last of the
-- existing programs with that key that are neither expired nor in the window, or else nothing.
pub find_program-merge_guide_window_programs :
    (now start end : ℕ) (existing fresh : List Program) (k : Text)
    → find_program k (merge_guide_window_programs now existing fresh start end)
      ≡ prefer
          (latest_program k fresh)
          (latest_program k (filter_by (is_retained now start end) existing))
unfolding merge_guide_window_programs find_program
find_program-merge_guide_window_programs now start end existing fresh k = ground (
  arith,
  find_program-add_programs k fresh
      (add_programs (filter_by (is_retained now start end) existing) []),
  find_program-add_programs k (filter_by (is_retained now start end) existing) [],
  Option-cases (latest_program k (filter_by (is_retained now start end) existing)),
  Option-cases (latest_program k fresh),
)

latest_program-filter_by-none :
    (k : Text) (f : Program → Bool) (ps : List Program)
    → latest_program k ps ≡ none
    → latest_program k (filter_by f ps) ≡ none
unfolding latest_program
latest_program-filter_by-none k f [] h = refl
latest_program-filter_by-none k f (q ∷ ps) h = elim (Option-cases (latest_program k ps)) [
  | inl none_later ↦ ground (arith, none_later, latest_program-filter_by-none k f ps none_later)
  | inr (r, later) ↦ ground (arith, later)
]

-- Every program that `f` keeps stays the last one of its key.
pub latest_program-filter_by :
    (k : Text) (f : Program → Bool) (ps : List Program) (p : Program)
    → latest_program k ps ≡ some p
    → f p ≡ true
    → latest_program k (filter_by f ps) ≡ some p
unfolding latest_program
latest_program-filter_by k f [] p h e = ground arith
latest_program-filter_by k f (q ∷ ps) p h e = elim (Option-cases (latest_program k ps)) [
  | inl none_later ↦ ground (
    arith,
    none_later,
    latest_program-filter_by-none k f ps none_later,
    text_eq_iff (guide_program_key q) k,
  )
  | inr (r, later) ↦ ground (arith, later, latest_program-filter_by k f ps r later)
]

latest_program-absent :
    (k : Text) (ps : List Program) → find_program k ps ≡ none → latest_program k ps ≡ none
unfolding find_program latest_program
latest_program-absent k [] h = refl
latest_program-absent k (p ∷ ps) h = ground (arith, latest_program-absent k ps)

pub find_program-latest_program :
    (k : Text) (ps : List Program) (p : Program)
    → AreDistinct ps
    → find_program k ps ≡ some p
    → latest_program k ps ≡ some p
unfolding find_program latest_program
find_program-latest_program k [] p d h = ground arith
find_program-latest_program k (q ∷ ps) p d h = elim (Bool-cases (text_eq (guide_program_key q) k)) [
  | inl same ↦ ground (
    arith,
    latest_program-absent (guide_program_key q) ps d.0,
    ap (λ t. latest_program t ps) ((text_eq_iff (guide_program_key q) k).0 same),
    same,
  )
  | inr other ↦ ground (arith, other, find_program-latest_program k ps p)
]
