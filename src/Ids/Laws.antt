-- ===== src/Ids/Laws.antt =====
-- What `uniqueIDs` keeps, and the membership laws of the list operations around it.
use silo_plugin_xtream_libra.Prelude.{
  ℕ, suc, zero, ◌≡◌, refl, Bool, true, false, not, ◌&&◌, ◌||◌, List, [], ◌∷◌, ◌++◌, arith,
  filter_by, take,
}
use silo_plugin_xtream_libra.Text.{Text, is_empty, text_eq_iff, text_eq_refl, contains}
use silo_plugin_xtream_libra.Ids.{collect_unique, unique_ids, IsDistinct}

pub contains-append :
    (x : Text) (xs ys : List Text) → contains x (xs ++ ys) ≡ (contains x xs || contains x ys)
unfolding contains
contains-append x [] ys = refl
contains-append x (y ∷ xs) ys = ground (arith, contains-append x xs ys)

pub contains-filter_by :
    (p : Text → Bool) (x : Text) (xs : List Text)
    → contains x (filter_by p xs) ≡ (p x && contains x xs)
unfolding contains
contains-filter_by p x [] = ground arith
contains-filter_by p x (y ∷ xs) = ground (arith, contains-filter_by p x xs, text_eq_iff y x)

pub contains-collect_unique :
    (x : Text) (seen vs : List Text)
    → contains x (collect_unique seen vs)
      ≡ (contains x vs && not (is_empty x) && not (contains x seen))
unfolding contains collect_unique
contains-collect_unique x seen [] = refl
contains-collect_unique x seen (v ∷ vs) = ground (
  arith,
  text_eq_iff v x,
  contains-collect_unique x seen vs,
  contains-collect_unique x (v ∷ seen) vs,
)

pub contains-unique_ids :
    (x : Text) (vs : List Text) → contains x (unique_ids vs) ≡ (contains x vs && not (is_empty x))
unfolding unique_ids contains
contains-unique_ids x vs = ground (arith, contains-collect_unique x [] vs)

contains-cons_self : (x : Text) (xs : List Text) → contains x (x ∷ xs) ≡ true
unfolding contains
contains-cons_self x xs = rw (text_eq_refl x)

collect_unique-IsDistinct : (seen vs : List Text) → IsDistinct (collect_unique seen vs)
unfolding collect_unique
collect_unique-IsDistinct seen [] = tt
collect_unique-IsDistinct seen (v ∷ vs) = ground (
  arith,
  collect_unique-IsDistinct seen vs,
  collect_unique-IsDistinct (v ∷ seen) vs,
  contains-collect_unique v (v ∷ seen) vs,
  contains-cons_self v seen,
)

pub unique_ids-IsDistinct : (vs : List Text) → IsDistinct (unique_ids vs)
unfolding unique_ids
unique_ids-IsDistinct vs = collect_unique-IsDistinct [] vs

-- A loop over distinct, non-empty identifiers that were not seen keeps them all.
abbrev pub Fresh : List Text → List Text → Type 0
Fresh seen [] = Unit {0}
Fresh seen (x ∷ xs) =
    (is_empty x ≡ false) × (contains x seen ≡ false) × (contains x xs ≡ false) × Fresh seen xs

Fresh-cons :
    (y : Text) (seen xs : List Text) → Fresh seen xs → contains y xs ≡ false → Fresh (y ∷ seen) xs
unfolding contains
Fresh-cons y seen [] h k = tt
Fresh-cons y seen (x ∷ xs) h k =
    ground (arith, Fresh-cons y seen xs, text_eq_iff y x, text_eq_iff x y)

collect_unique-Fresh : (seen xs : List Text) → Fresh seen xs → collect_unique seen xs ≡ xs
unfolding collect_unique
collect_unique-Fresh seen [] h = refl
collect_unique-Fresh seen (x ∷ xs) h =
    ground (arith, collect_unique-Fresh (x ∷ seen) xs, Fresh-cons x seen xs)

Fresh-weaken : (y : Text) (seen xs : List Text) → Fresh (y ∷ seen) xs → Fresh seen xs
unfolding contains
Fresh-weaken y seen [] h = tt
Fresh-weaken y seen (x ∷ xs) h = ground (arith, Fresh-weaken y seen xs)

collect_unique-Fresh_lem : (seen vs : List Text) → Fresh seen (collect_unique seen vs)
unfolding collect_unique
collect_unique-Fresh_lem seen [] = tt
collect_unique-Fresh_lem seen (v ∷ vs) = ground (
  arith,
  collect_unique-Fresh_lem seen vs,
  Fresh-weaken v seen (collect_unique (v ∷ seen) vs),
  collect_unique-Fresh_lem (v ∷ seen) vs,
  contains-collect_unique v (v ∷ seen) vs,
  contains-cons_self v seen,
)

pub unique_ids-Fresh : (vs : List Text) → Fresh [] (unique_ids vs)
unfolding unique_ids
unique_ids-Fresh vs = collect_unique-Fresh_lem [] vs

-- `uniqueIDs` changes nothing the second time.
pub unique_ids-unique_ids : (vs : List Text) → unique_ids (unique_ids vs) ≡ unique_ids vs
unique_ids-unique_ids vs = unfold unique_ids in collect_unique-Fresh [] _ (unique_ids-Fresh vs)

pub contains-take :
    (x : Text) (n : ℕ) (xs : List Text) → contains x (take n xs) ≡ true → contains x xs ≡ true
unfolding contains
contains-take x zero xs h = cc
contains-take x (suc n) [] h = h
contains-take x (suc n) (y ∷ xs) h = ground (arith, contains-take x n xs)

pub IsDistinct-take : (n : ℕ) (xs : List Text) → IsDistinct xs → IsDistinct (take n xs)
IsDistinct-take zero xs h = tt
IsDistinct-take (suc n) [] h = tt
IsDistinct-take (suc n) (x ∷ xs) h = ground (arith, IsDistinct-take n xs, contains-take x n xs)

pub IsDistinct-filter_by :
    (p : Text → Bool) (xs : List Text) → IsDistinct xs → IsDistinct (filter_by p xs)
IsDistinct-filter_by p [] h = tt
IsDistinct-filter_by p (x ∷ xs) h =
    ground (arith, IsDistinct-filter_by p xs, contains-filter_by p x xs)
