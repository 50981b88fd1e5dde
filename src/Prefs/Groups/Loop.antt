-- ===== src/Prefs/Groups/Loop.antt =====
-- The loop of `createCustomGroup` of internal/plugin/ui/app.js.
use mathlib.Core.Path.{subst}
use silo_plugin_xtream_libra.Prelude.{
  ℕ, zero, suc, ◌+◌, ◌≤◌, ◌<◌, ◌≡◌, refl, sym, ap, ◌∙◌, inl, inr, Bool, true, false, Option, none,
  some, List, [], ◌∷◌, ◌++◌, map, arith, length, All, is_some, Option-cases,
}
use silo_plugin_xtream_libra.Text.{Text, codes, text_eq_iff, contains}
use silo_plugin_xtream_libra.Json.{Json, str, json_eq, decimal}
use silo_plugin_xtream_libra.Json.Laws.{json_eq_iff}
use silo_plugin_xtream_libra.Json.Decimal.{decimal_value-decimal}
use silo_plugin_xtream_libra.Ids.{IsDistinct}
use silo_plugin_xtream_libra.Ids.Sizes.{length-le_of_subset}
use silo_plugin_xtream_libra.Prefs.Defaults.{member}
use silo_plugin_xtream_libra.Prefs.Groups.{has_id, is_taken, numbered, free_id}

append-cancel : (s t u : Text) → s ++ t ≡ s ++ u → t ≡ u
append-cancel [] t u h = h
append-cancel (c ∷ s) t u h = append-cancel s t u (cons_tail h)
  where
    cons_tail : {a b : Text} → c ∷ a ≡ c ∷ b → a ≡ b
    cons_tail e = cc

numbered-injective : (base : Text) (i j : ℕ) → numbered base i ≡ numbered base j → i ≡ j
unfolding numbered
numbered-injective base i j h = cc (
  decimal_value-decimal i,
  decimal_value-decimal j,
  append-cancel (base ++ codes "-") (decimal i) (decimal j) h,
)

-- The identifiers that the loop tries from a number on.
candidates : ℕ → Text → ℕ → List Text
candidates zero base index = []
candidates (suc n) base index = numbered base index ∷ candidates n base (index + 1)

candidates-later :
    (n : ℕ) (base : Text) (i j : ℕ)
    → i < j
    → contains (numbered base i) (candidates n base j) ≡ false
unfolding candidates contains
candidates-later zero base i j h = refl
candidates-later (suc n) base i j h = ground (
  arith,
  candidates-later n base i (j + 1),
  text_eq_iff (numbered base j) (numbered base i),
  numbered-injective base j i,
)

candidates-IsDistinct : (n : ℕ) (base : Text) (i : ℕ) → IsDistinct (candidates n base i)
unfolding candidates
candidates-IsDistinct zero base i = tt
candidates-IsDistinct (suc n) base i =
    (candidates-later n base i (i + 1) (omega arith), candidates-IsDistinct n base (i + 1))

length-candidates : (n : ℕ) (base : Text) (i : ℕ) → length (candidates n base i) ≡ n
unfolding candidates
length-candidates zero base i = refl
length-candidates (suc n) base i = omega (arith, length-candidates n base (i + 1))

-- A loop that runs out of fuel has found every candidate taken.
taken_of_none :
    (f : ℕ) (base : Text) (gs : List Json) (id : Text) (i : ℕ)
    → free_id (suc f) base gs id i ≡ none
    → is_taken id gs ≡ true
unfolding free_id
taken_of_none f base gs id i h = ground arith

next_of_none :
    (f : ℕ) (base : Text) (gs : List Json) (id : Text) (i : ℕ)
    → free_id (suc f) base gs id i ≡ none
    → free_id f base gs (numbered base i) (i + 1) ≡ none
unfolding free_id
next_of_none f base gs id i h = ground arith

candidates-taken :
    (f : ℕ) (base : Text) (gs : List Json) (id : Text) (i : ℕ)
    → free_id (suc f) base gs id i ≡ none
    → All (λ x. is_taken x gs ≡ true) (candidates f base i)
unfolding candidates
candidates-taken zero base gs id i h = tt
candidates-taken (suc f) base gs id i h = (
  taken_of_none f base gs (numbered base i) (i + 1) (next_of_none (suc f) base gs id i h),
  candidates-taken f base gs (numbered base i) (i + 1) (next_of_none (suc f) base gs id i h),
)

-- The identifiers of the groups that are texts.
text_of : Option Json → Text
text_of (some (str t)) = t
text_of _ = []

id_of : Json → Text
id_of g = text_of (member (codes "id") g)

-- `has_id` on the identifier
abbrev has_value : Json → Option Json → Bool
has_value value none = false
has_value value (some v) = json_eq v value

id_of-has_id : (x : Text) (g : Json) → has_id (str x) g ≡ true → id_of g ≡ x
unfolding has_id id_of text_of
id_of-has_id x g h = elim (Option-cases (member (codes "id") g)) [
  | inl e ↦ cc (h, ap (has_value (str x)) e)
  | inr (v, e) ↦ rw (e, (json_eq_iff v (str x)).0 (sym (ap (has_value (str x)) e) ∙ h)) refl
]

contains-taken :
    (x : Text) (gs : List Json) → is_taken x gs ≡ true → contains x (map id_of gs) ≡ true
unfolding contains
contains-taken x [] h = h
contains-taken x (g ∷ gs) h =
    ground (arith, contains-taken x gs, id_of-has_id x g, text_eq_iff (id_of g) x)

length-map : (gs : List Json) → length (map id_of gs) ≡ length gs
length-map [] = refl
length-map (g ∷ gs) = ap suc (length-map gs)

All-contains :
    (gs : List Json) (xs : List Text)
    → All (λ x. is_taken x gs ≡ true) xs
    → All (λ x. contains x (map id_of gs) ≡ true) xs
All-contains gs [] h = tt
All-contains gs (x ∷ xs) h = (contains-taken x gs h.0, All-contains gs xs h.1)

too_many :
    (n : ℕ) (base : Text) (gs : List Json) (id : Text) (i : ℕ)
    → length gs ≤ n
    → ¬ (free_id (n + 2) base gs id i ≡ none)
too_many n base gs id i k h = omega (
  arith,
  length-candidates (suc n) base i,
  length-map gs,
  length-le_of_subset (candidates (suc n) base i) (map id_of gs)
      (candidates-IsDistinct (suc n) base i)
      (All-contains gs (candidates (suc n) base i) (
        candidates-taken (suc n) base gs id i
          (subst (λ m. free_id m base gs id i ≡ none) (omega arith) h))),
)

-- With fuel for two more rounds than there are groups, the loop ends.
pub free_id-ends :
    (base : Text) (gs : List Json) (id : Text) (i : ℕ)
    → is_some (free_id (length gs + 2) base gs id i) ≡ true
free_id-ends base gs id i = elim (Option-cases (free_id (length gs + 2) base gs id i)) [
  | inl e ↦ absurd (too_many (length gs) base gs id i (omega arith) e)
  | inr (a, e) ↦ rw e refl
]

-- What it finds is not taken.
pub free_id-free :
    (f : ℕ) (base : Text) (gs : List Json) (id : Text) (i : ℕ) (found : Text)
    → free_id f base gs id i ≡ some found
    → is_taken found gs ≡ false
unfolding free_id
free_id-free zero base gs id i found h = cc
free_id-free (suc f) base gs id i found h =
    ground (arith, free_id-free f base gs (numbered base i) (i + 1) found)
