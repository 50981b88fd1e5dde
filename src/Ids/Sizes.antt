-- ===== src/Ids/Sizes.antt =====
-- The length of a list of identifiers is told by its elements, if none stands twice.
use silo_plugin_xtream_libra.Prelude.{
  suc, ◌≡◌, refl, true, false, List, [], ◌∷◌, arith, if◌then◌else◌, length, ◌≤◌, All,
}
use silo_plugin_xtream_libra.Text.{Text, text_eq, text_eq_iff, contains}
use silo_plugin_xtream_libra.Ids.{IsDistinct}

-- Two lists without repetitions that have the same elements are of one length.
without : Text → List Text → List Text
without x [] = []
without x (y ∷ ys) = if text_eq y x then ys else y ∷ without x ys

contains-without :
    (i x : Text) (ys : List Text)
    → IsDistinct ys
    → contains i (without x ys) ≡ (if text_eq x i then false else contains i ys)
unfolding without contains
contains-without i x [] d = ground arith
contains-without i x (y ∷ ys) d =
    ground (arith, contains-without i x ys, text_eq_iff y x, text_eq_iff y i, text_eq_iff x i)

without-IsDistinct : (x : Text) (ys : List Text) → IsDistinct ys → IsDistinct (without x ys)
unfolding without contains
without-IsDistinct x [] d = tt
without-IsDistinct x (y ∷ ys) d = ground (arith, without-IsDistinct x ys, contains-without y x ys)

length-without :
    (x : Text) (ys : List Text) → contains x ys ≡ true → suc (length (without x ys)) ≡ length ys
unfolding without contains
length-without x [] h = ground arith
length-without x (y ∷ ys) h = ground (arith, length-without x ys)

pub same_length :
    (xs ys : List Text)
    → IsDistinct xs
    → IsDistinct ys
    → ((i : Text) → contains i xs ≡ contains i ys)
    → length xs ≡ length ys
unfolding contains
same_length [] [] d e h = refl
same_length [] (y ∷ ys) d e h = ground (arith, h y, text_eq_iff y y)
same_length (x ∷ xs) ys d e h = omega (
  arith,
  same_length xs (without x ys) d.1 (without-IsDistinct x ys e) same,
  length-without x ys there,
)
  where
    there : contains x ys ≡ true
    there = ground (arith, h x, text_eq_iff x x)

    same : (i : Text) → contains i xs ≡ contains i (without x ys)
    same i = ground (arith, h i, contains-without i x ys e, text_eq_iff x i, d.0)

-- A list without repetitions is no longer than a list that has all of its elements.
contains-without_other :
    (i x : Text) (ys : List Text)
    → text_eq x i ≡ false
    → contains i ys ≡ true
    → contains i (without x ys) ≡ true
unfolding without contains
contains-without_other i x [] h k = k
contains-without_other i x (y ∷ ys) h k =
    ground
      (arith, contains-without_other i x ys h, text_eq_iff y x, text_eq_iff x i, text_eq_iff y i)

subset-without :
    (x : Text) (xs ys : List Text)
    → contains x xs ≡ false
    → All (λ i. contains i ys ≡ true) xs
    → All (λ i. contains i (without x ys) ≡ true) xs
unfolding contains
subset-without x [] ys c h = tt
subset-without x (i ∷ xs) ys c h =
    ground (
      arith,
      subset-without x xs ys,
      contains-without_other i x ys,
      text_eq_iff i x,
      text_eq_iff x i,
    )

pub length-le_of_subset :
    (xs ys : List Text) → IsDistinct xs → All (λ x. contains x ys ≡ true) xs → length xs ≤ length ys
length-le_of_subset [] ys d h = omega arith
length-le_of_subset (x ∷ xs) ys d h = omega (
  arith,
  length-le_of_subset xs (without x ys) d.1 (subset-without x xs ys d.0 h.1),
  length-without x ys h.0,
)
