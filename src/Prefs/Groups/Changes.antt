-- ===== src/Prefs/Groups/Changes.antt =====
-- What the creation and the deletion of a group change: `createCustomGroup` and
-- `deleteSelectedCustomGroup` of internal/plugin/ui/app.js.
use mathlib.Core.Path.{subst}
use silo_plugin_xtream_libra.Prelude.{
  ℕ, zero, suc, ◌+◌, ◌≡◌, refl, sym, ◌∙◌, inl, inr, Bool, true, false, ◌&&◌, ◌||◌, Option, none,
  some, List, [], ◌∷◌, ◌++◌, arith, length, is_some, any, filter_by, Option-cases,
}
use silo_plugin_xtream_libra.Text.{Text, codes, text_eq, text_eq_iff, text_eq_refl, is_empty}
use silo_plugin_xtream_libra.Text.Chars.{trim}
use silo_plugin_xtream_libra.Json.{Json, str, Fields, get, items, json_eq, to_string, own_fields}
use silo_plugin_xtream_libra.Json.Laws.{json_eq_iff, get-put, items-json_items}
use silo_plugin_xtream_libra.Ids.{unique_ids}
use silo_plugin_xtream_libra.Prefs.Actions.{put_in}
use silo_plugin_xtream_libra.Prefs.Actions.Favorites.{save_prefs-preferences}
use silo_plugin_xtream_libra.Prefs.Groups.{
  Groups, has_id, is_group, is_taken, insert_group, sort_groups, custom_groups, custom_memberships,
  free_id, numbered, slug, group_row, add_group, create_custom_group, custom_groups_key,
}
use silo_plugin_xtream_libra.Prefs.Groups.Loop.{free_id-ends, free_id-free}

any-append : (q : Json → Bool) (xs ys : List Json) → any q (xs ++ ys) ≡ (any q xs || any q ys)
any-append q [] ys = refl
any-append q (x ∷ xs) ys = ground (arith, any-append q xs ys)

pub any-filter_by :
    (q p : Json → Bool) (xs : List Json) → any q (filter_by p xs) ≡ any (λ g. p g && q g) xs
any-filter_by q p [] = refl
any-filter_by q p (x ∷ xs) = ground (arith, any-filter_by q p xs)

module _ (collates : Text → Text → Bool) where
  any-insert_group :
      (q : Json → Bool) (g : Json) (gs : List Json)
      → any q (insert_group collates g gs) ≡ (q g || any q gs)
  unfolding insert_group
  any-insert_group q g [] = refl
  any-insert_group q g (h ∷ gs) = ground (arith, any-insert_group q g gs)

  any-sort_groups : (q : Json → Bool) (gs : List Json) → any q (sort_groups collates gs) ≡ any q gs
  unfolding sort_groups
  any-sort_groups q [] = refl
  any-sort_groups q (g ∷ gs) =
      ground (arith, any-insert_group q g (sort_groups collates gs), any-sort_groups q gs)

  -- A test on the groups is one on the stored rows.
  pub any-custom_groups :
      (q : Json → Bool) (p : Fields)
      → any q (custom_groups collates p)
        ≡ any (λ g. is_group g && q g) (items (get custom_groups_key p))
  unfolding custom_groups
  any-custom_groups q p = any-sort_groups q _ ∙ any-filter_by q is_group _

  -- The loop always finds an identifier.
  pub create_custom_group-ends :
      (lower : Text → Text) (value : Text) (s : Groups)
      → is_some (create_custom_group collates lower value s) ≡ true
  unfolding create_custom_group
  create_custom_group-ends lower value s = ground (
    arith,
    free_id-ends (codes "group:" ++ slug lower (trim value))
        (custom_groups collates s.tab.preferences) (codes "group:" ++ slug lower (trim value)) 2,
  )

numbered-non_empty :
    (base : Text) (i : ℕ) → is_empty base ≡ false → is_empty (numbered base i) ≡ false
unfolding numbered
numbered-non_empty [] i h = cc
numbered-non_empty (c ∷ base) i h = refl

free_id-non_empty :
    (f : ℕ) (base : Text) (gs : List Json) (id : Text) (i : ℕ) (found : Text)
    → is_empty base ≡ false
    → is_empty id ≡ false
    → free_id f base gs id i ≡ some found
    → is_empty found ≡ false
unfolding free_id
free_id-non_empty zero base gs id i found b e h = cc
free_id-non_empty (suc f) base gs id i found b e h = ground (
  arith,
  free_id-non_empty f base gs (numbered base i) (i + 1) found b (numbered-non_empty base i b),
)

group_row-is_group :
    (id name : Text) (n : ℕ)
    → is_empty id ≡ false
    → is_empty name ≡ false
    → is_group (group_row id name n) ≡ true
unfolding group_row is_group get text_eq
group_row-is_group id name n h k = rw (h, k) refl

group_row-has_id :
    (id name : Text) (n : ℕ) (x : Text)
    → has_id (str x) (group_row id name n) ≡ json_eq (str id) (str x)
unfolding group_row has_id get text_eq
group_row-has_id id name n x = refl

str_eq : (a b : Text) → json_eq (str a) (str b) ≡ text_eq a b
str_eq a b = ground (arith, json_eq_iff (str a) (str b), text_eq_iff a b)

module _ (collates : Text → Text → Bool) (name id : Text) (s : Groups) where
  abbrev row : Json
  row = group_row id name (length (custom_groups collates s.tab.preferences) + 1)

  abbrev after : Fields
  after = (add_group collates name id s).tab.preferences

  stored_rows :
      items (get custom_groups_key after)
      ≡ items (get custom_groups_key s.tab.preferences) ++ (row ∷ [])
  unfolding add_group put_in text_eq
  stored_rows = rw (save_prefs-preferences, get-put, get-put) (items-json_items _)

  stored_members : custom_memberships (str id) after ≡ []
  unfolding add_group put_in text_eq custom_memberships unique_ids own_fields to_string
  stored_members = rw (save_prefs-preferences, get-put, get-put, text_eq_refl id) refl

  added_taken :
      is_empty id ≡ false
      → is_empty name ≡ false
      → (x : Text)
      → is_taken x (custom_groups collates after)
        ≡ (text_eq id x || is_taken x (custom_groups collates s.tab.preferences))
  added_taken h k x =
      rw (any-custom_groups collates (has_id (str x)), stored_rows, any-append)
        (ground (
          arith,
          any-custom_groups collates (has_id (str x)) s.tab.preferences,
          group_row-is_group id name (length (custom_groups collates s.tab.preferences) + 1) h k,
          group_row-has_id id name (length (custom_groups collates s.tab.preferences) + 1) x,
          str_eq id x,
        ))

-- What is promised of the state after the creation of a group.
abbrev pub IsCreated : (Text → Text → Bool) → Groups → Groups → Text → Text → Type 0
IsCreated collates before after id x =
    (after.selected ≡ str id)
    × (is_taken id (custom_groups collates before.tab.preferences) ≡ false)
    × (custom_memberships (str id) after.tab.preferences ≡ [])
    × (is_taken x (custom_groups collates after.tab.preferences)
        ≡ (text_eq id x || is_taken x (custom_groups collates before.tab.preferences)))

-- A group created with a name that is not blank is the selected one; its identifier was that of no
-- group; it has no members; and the other groups are those that there were.
pub create_custom_group-IsCreated :
    (collates : Text → Text → Bool) (lower : Text → Text) (value : Text) (s after : Groups)
    → is_empty (trim value) ≡ false
    → create_custom_group collates lower value s ≡ some after
    → (x : Text) → (id : Text) × IsCreated collates s after id x
create_custom_group-IsCreated collates lower value s after h e x = elim (Option-cases found) [
  | inl none_found ↦ absurd (cc (create_of_none none_found, e))
  | inr (id, some_found) ↦ (
    id,
    subst (λ t. IsCreated collates s t id x)
        (some_injective (sym (create_of_some id some_found) ∙ e))
        (
          unfold add_group in refl,
          free_id-free _ base groups base 2 id some_found,
          stored_members collates (trim value) id s,
          added_taken collates (trim value) id s
              (free_id-non_empty _ base groups base 2 id refl refl some_found) h x,
        ),
  )
]
  where
    base : Text
    base = codes "group:" ++ slug lower (trim value)

    groups : List Json
    groups = custom_groups collates s.tab.preferences

    found : Option Text
    found = free_id (length groups + 2) base groups base 2

    some_injective : {a b : Groups} → some a ≡ some b → a ≡ b
    some_injective e = cc

    create_of_none : found ≡ none → create_custom_group collates lower value s ≡ none
    create_of_none n = unfold create_custom_group in rw (h, n) refl

    create_of_some :
        (id : Text)
        → found ≡ some id
        → create_custom_group collates lower value s ≡ some (add_group collates (trim value) id s)
    create_of_some id n = unfold create_custom_group in rw (h, n) refl
