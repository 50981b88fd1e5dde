-- ===== src/Json/Laws.antt =====
-- The laws of the objects' properties.
use mathlib.Core.Bool.{decide}
use silo_plugin_xtream_libra.Prelude.{
  ◌≡◌, refl, ap, ◌↔◌, true, false, none, some, List, [], ◌∷◌, arith, if◌then◌else◌, is_some,
}
use silo_plugin_xtream_libra.Text.{Text, text_eq, text_eq_iff, contains}
use silo_plugin_xtream_libra.Json.{
  Json, arr, items, json_items, Fields, end, field, Json-discrete, json_eq, get, has, put, del,
  keys, assign, replace_field, insert_field,
}

decide_iff {ℓ} : {P : Type ℓ} (d : Dec P) → (decide d ≡ true) ↔ P
unfolding decide
decide_iff (yes p) = (λ _. p, λ _. refl)
decide_iff (no np) = (λ e. cc, λ p. absurd (np p))

pub json_eq_iff : (a b : Json) → (json_eq a b ≡ true) ↔ (a ≡ b)
unfolding json_eq
json_eq_iff a b = decide_iff (Json-discrete a b)

pub json_eq_refl : (a : Json) → json_eq a a ≡ true
json_eq_refl a = (json_eq_iff a a).1 refl

pub has-get : (k : Text) (fs : Fields) → has k fs ≡ is_some (get k fs)
unfolding has get
has-get k end = refl
has-get k (field j v fs) = ground (arith, has-get k fs)

get-replace_field :
    (j k : Text) (v : Json) (fs : Fields)
    → has k fs ≡ true
    → get j (replace_field k v fs) ≡ (if text_eq k j then some v else get j fs)
unfolding get has replace_field
get-replace_field j k v end h = cc
get-replace_field j k v (field i w fs) h =
    ground (arith, get-replace_field j k v fs, text_eq_iff i k, text_eq_iff k j, text_eq_iff i j)

get-insert_field :
    (j k : Text) (v : Json) (fs : Fields)
    → has k fs ≡ false
    → get j (insert_field k v fs) ≡ (if text_eq k j then some v else get j fs)
unfolding get has insert_field
get-insert_field j k v end h = refl
get-insert_field j k v (field i w fs) h =
    ground (arith, get-insert_field j k v fs, text_eq_iff i k, text_eq_iff k j, text_eq_iff i j)

pub get-put :
    (j k : Text) (v : Json) (fs : Fields)
    → get j (put k v fs) ≡ (if text_eq k j then some v else get j fs)
unfolding put
get-put j k v fs = ground (arith, get-replace_field j k v fs, get-insert_field j k v fs)

pub get-del :
    (j k : Text) (fs : Fields) → get j (del k fs) ≡ (if text_eq k j then none else get j fs)
unfolding get del
get-del j k end = ground arith
get-del j k (field i v fs) =
    ground (arith, get-del j k fs, text_eq_iff i k, text_eq_iff k j, text_eq_iff i j)

pub contains-keys : (k : Text) (fs : Fields) → contains k (keys fs) ≡ has k fs
unfolding contains keys has
contains-keys k end = refl
contains-keys k (field j v fs) = ground (arith, contains-keys k fs)

-- A property of the source wins, the last one of its name; the others stay.
pub get-assign-none :
    (j : Text) (target source : Fields)
    → get j source ≡ none
    → get j (assign target source) ≡ get j target
unfolding get assign
get-assign-none j target end h = refl
get-assign-none j target (field k v fs) h =
    ground (arith, get-assign-none j (put k v target) fs, get-put j k v target)

-- The names of an object stand once each.
abbrev pub HasDistinctKeys : Fields → Type 0
HasDistinctKeys end = Unit {0}
HasDistinctKeys (field k v fs) = (has k fs ≡ false) × HasDistinctKeys fs

pub get-assign :
    (j : Text) (target source : Fields)
    → HasDistinctKeys source
    → get j (assign target source) ≡ (if is_some (get j source) then get j source else get j target)
unfolding get has assign
get-assign j target end h = refl
get-assign j target (field k v fs) h =
    ground
      (arith, get-assign j (put k v target) fs, get-put j k v target, has-get k fs, text_eq_iff k j)

pub items-json_items : (xs : List Json) → items (some (arr (json_items xs))) ≡ xs
items-json_items [] = refl
items-json_items (x ∷ xs) = ap (x ∷◌) (items-json_items xs)

pub ruleset fields = (get-put, get-del)
