-- ===== src/Text/Paths.antt =====
-- Paths as texts: the path that begins another one, told from the texts and from the parts.
use silo_plugin_xtream_libra.Prelude.{
  ◌≡◌, refl, sym, ap, ◌∙◌, Bool, true, false, ◌&&◌, ◌||◌, List, [], ◌∷◌, ◌++◌, arith, length, All,
  drop,
}
use silo_plugin_xtream_libra.Text.{Text, is_empty, text_eq, text_eq_iff}
use silo_plugin_xtream_libra.Text.Chars.{starts_with}
use silo_plugin_xtream_libra.Text.Split.{
  slash, split_path, join_path, has_slash, split_path-join_path, split_path_next,
}

-- A part that a path can be split into again.
abbrev pub IsPart : Text → Type 0
IsPart p = (has_slash p ≡ false) × (is_empty p ≡ false)

-- The parts begin the other ones.
unfoldable pub begins : List Text → List Text → Bool
begins [] qs = true
begins (p ∷ ps) [] = false
begins (p ∷ ps) (q ∷ qs) = text_eq p q && begins ps qs

plain_parts : (ps : List Text) → All IsPart ps → All (λ t. has_slash t ≡ false) ps
plain_parts [] a = tt
plain_parts (p ∷ ps) a = (a.0.0, plain_parts ps a.1)

pub split_path-parts :
    (p : Text) (ps : List Text) → All IsPart (p ∷ ps) → split_path (join_path (p ∷ ps)) ≡ p ∷ ps
split_path-parts p ps a = split_path-join_path p ps (plain_parts (p ∷ ps) a)

append_assoc : (s t u : Text) → s ++ (t ++ u) ≡ (s ++ t) ++ u
append_assoc [] t u = refl
append_assoc (c ∷ s) t u = ap (c ∷◌) (append_assoc s t u)

split_path-below :
    (p : Text) (ps : List Text) (rest : Text)
    → All IsPart (p ∷ ps)
    → split_path (join_path (p ∷ ps) ++ slash ++ rest) ≡ (p ∷ ps) ++ split_path rest
unfolding join_path
split_path-below p [] rest a = split_path_next p rest a.0.0
split_path-below p (q ∷ qs) rest a =
    ap split_path shifted
    ∙ split_path_next p (join_path (q ∷ qs) ++ slash ++ rest) a.0.0
    ∙ ap (p ∷◌) (split_path-below q qs rest a.1)
  where
    shifted :
        p ++ slash ++ join_path (q ∷ qs) ++ slash ++ rest
        ≡ p ++ slash ++ (join_path (q ∷ qs) ++ slash ++ rest)
    shifted =
        ap (λ t. t ++ rest) (sym (append_assoc (p ++ slash) (join_path (q ∷ qs)) slash))
        ∙ sym (append_assoc (p ++ slash) (join_path (q ∷ qs) ++ slash) rest)

starts_with-drop : (p s : Text) → starts_with p s ≡ true → s ≡ p ++ drop (length p) s
unfolding starts_with
starts_with-drop [] s h = refl
starts_with-drop (c ∷ p) [] h = ground arith
starts_with-drop (c ∷ p) (d ∷ s) h = ground (arith, starts_with-drop p s)

starts_with-append : (p s : Text) → starts_with p (p ++ s) ≡ true
unfolding starts_with
starts_with-append [] s = refl
starts_with-append (c ∷ p) s = ground (arith, starts_with-append p s)

begins_self : (ps : List Text) → begins ps ps ≡ true
unfolding begins
begins_self [] = refl
begins_self (p ∷ ps) = ground (arith, begins_self ps, text_eq_iff p p)

begins-append : (ps qs : List Text) → begins ps (ps ++ qs) ≡ true
unfolding begins
begins-append [] qs = refl
begins-append (p ∷ ps) qs = ground (arith, begins-append ps qs, text_eq_iff p p)

begins-drop : (ps qs : List Text) → begins ps qs ≡ true → qs ≡ ps ++ drop (length ps) qs
unfolding begins
begins-drop [] qs h = refl
begins-drop (p ∷ ps) [] h = ground arith
begins-drop (p ∷ ps) (q ∷ qs) h = ground (arith, begins-drop ps qs, text_eq_iff p q)

join_path-append :
    (p : Text) (ps : List Text) (r : Text) (rs : List Text)
    → join_path ((p ∷ ps) ++ r ∷ rs) ≡ join_path (p ∷ ps) ++ slash ++ join_path (r ∷ rs)
unfolding join_path
join_path-append p [] r rs = refl
join_path-append p (q ∷ qs) r rs =
    ap (λ t. p ++ slash ++ t) (join_path-append q qs r rs)
    ∙ append_assoc (p ++ slash) (join_path (q ∷ qs) ++ slash) (join_path (r ∷ rs))
    ∙ ap (λ t. t ++ join_path (r ∷ rs)) (append_assoc (p ++ slash) (join_path (q ∷ qs)) slash)

append_nothing : (ps : List Text) → ps ++ [] ≡ ps
append_nothing [] = refl
append_nothing (p ∷ ps) = ap (p ∷◌) (append_nothing ps)

module _ (p q : Text) (ps qs : List Text) (a : All IsPart (p ∷ ps)) (b : All IsPart (q ∷ qs)) where
  equal-begins : join_path (q ∷ qs) ≡ join_path (p ∷ ps) → begins (p ∷ ps) (q ∷ qs) ≡ true
  equal-begins e = ap (begins (p ∷ ps)) same ∙ begins_self (p ∷ ps)
    where
      same : q ∷ qs ≡ p ∷ ps
      same = sym (split_path-parts q qs b) ∙ ap split_path e ∙ split_path-parts p ps a

  starts-begins :
      starts_with (join_path (p ∷ ps) ++ slash) (join_path (q ∷ qs)) ≡ true
      → begins (p ∷ ps) (q ∷ qs) ≡ true
  starts-begins h = ap (begins (p ∷ ps)) same ∙ begins-append (p ∷ ps) (split_path rest)
    where
      rest : Text
      rest = drop (length (join_path (p ∷ ps) ++ slash)) (join_path (q ∷ qs))

      same : q ∷ qs ≡ (p ∷ ps) ++ split_path rest
      same =
          sym (split_path-parts q qs b)
          ∙ ap split_path (starts_with-drop (join_path (p ∷ ps) ++ slash) (join_path (q ∷ qs)) h)
          ∙ split_path-below p ps rest a

  begins-below :
      (rs : List Text)
      → q ∷ qs ≡ (p ∷ ps) ++ rs
      → (text_eq (join_path (q ∷ qs)) (join_path (p ∷ ps))
          || starts_with (join_path (p ∷ ps) ++ slash) (join_path (q ∷ qs)))
        ≡ true
  begins-below [] e = ground (
    arith,
    ap join_path (e ∙ append_nothing (p ∷ ps)),
    text_eq_iff (join_path (q ∷ qs)) (join_path (p ∷ ps)),
  )
  begins-below (r ∷ rs) e = ground (
    arith,
    ap join_path e ∙ join_path-append p ps r rs,
    starts_with-append (join_path (p ∷ ps) ++ slash) (join_path (r ∷ rs)),
  )

  -- A path is another one or lies below it just if its parts begin with the other's.
  pub below-begins :
      (text_eq (join_path (q ∷ qs)) (join_path (p ∷ ps))
        || starts_with (join_path (p ∷ ps) ++ slash) (join_path (q ∷ qs)))
      ≡ begins (p ∷ ps) (q ∷ qs)
  below-begins = ground (arith, equal, starts-begins, back)
    where
      equal :
          text_eq (join_path (q ∷ qs)) (join_path (p ∷ ps)) ≡ true → begins (p ∷ ps) (q ∷ qs) ≡ true
      equal e = equal-begins ((text_eq_iff (join_path (q ∷ qs)) (join_path (p ∷ ps))).0 e)

      back :
          begins (p ∷ ps) (q ∷ qs) ≡ true
          → (text_eq (join_path (q ∷ qs)) (join_path (p ∷ ps))
              || starts_with (join_path (p ∷ ps) ++ slash) (join_path (q ∷ qs)))
            ≡ true
      back h = begins-below (drop (length (p ∷ ps)) (q ∷ qs)) (begins-drop (p ∷ ps) (q ∷ qs) h)
