-- ===== src/Text/Trim.antt =====
-- `trim` has nothing left to do the second time.
use mathlib.Core.List.{reverse, reverse-append, reverse-reverse, reverse-cons}
use silo_plugin_xtream_libra.Prelude.{
  ℕ, ◌≡◌, refl, ap, ◌∙◌, inl, inr, Bool, false, [], ◌∷◌, ◌++◌, arith, Bool-cases,
}
use silo_plugin_xtream_libra.Text.{Text}
use silo_plugin_xtream_libra.Text.Chars.{drop_while, strip, trim, is_space}

module _ (p : ℕ → Bool) where
  drop_while-drop_while : (s : Text) → drop_while p (drop_while p s) ≡ drop_while p s
  unfolding drop_while
  drop_while-drop_while [] = refl
  drop_while-drop_while (c ∷ s) = ground (arith, drop_while-drop_while s)

  -- A character that stays keeps everything before it from being empty.
  drop_while-snoc :
      (c : ℕ) (s : Text) → p c ≡ false → drop_while p (s ++ (c ∷ [])) ≡ drop_while p s ++ (c ∷ [])
  unfolding drop_while
  drop_while-snoc c [] h = rw h refl
  drop_while-snoc c (d ∷ s) h = ground (arith, drop_while-snoc c s)

  -- The text without its tail of such characters.
  drop_end : Text → Text
  drop_end s = reverse (drop_while p (reverse s))

  drop_end-cons : (c : ℕ) (s : Text) → p c ≡ false → drop_end (c ∷ s) ≡ c ∷ drop_end s
  unfolding drop_end
  drop_end-cons c s h = rw (reverse-cons c s, drop_while-snoc c (reverse s) h, reverse-append) refl

  drop_end-drop_end : (s : Text) → drop_end (drop_end s) ≡ drop_end s
  unfolding drop_end
  drop_end-drop_end s = rw (reverse-reverse, drop_while-drop_while) refl

  -- Either nothing is left, or what is left starts with a character that stays.
  drop_while-drop_end :
      (s : Text) → drop_while p (drop_end (drop_while p s)) ≡ drop_end (drop_while p s)
  unfolding drop_while
  drop_while-drop_end [] = unfold drop_end in refl
  drop_while-drop_end (c ∷ s) = elim (Bool-cases (p c)) [
    | inl h ↦ rw h (drop_while-drop_end s)
    | inr h ↦ rw (h, drop_end-cons c s h, h) refl
  ]

pub trim-trim : (s : Text) → trim (trim s) ≡ trim s
unfolding trim strip drop_end
trim-trim s =
    ap (drop_end is_space) (drop_while-drop_end is_space s)
    ∙ drop_end-drop_end is_space (drop_while is_space s)
