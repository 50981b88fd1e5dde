-- ===== src/Prefs/Profiles/Sections.antt =====
-- The loops over the scoped keys, and what a save writes into each profile's section.
use mathlib.Core.List.{foldl}
use silo_plugin_xtream_libra.Prelude.{
  ◌≡◌, refl, Option, none, some, List, [], ◌∷◌, false, if◌then◌else◌, Option-cases, inl, inr,
}
use silo_plugin_xtream_libra.Text.{Text, text_eq, contains, text_eq_refl}
use silo_plugin_xtream_libra.Json.{Json, Fields, get, del}
use silo_plugin_xtream_libra.Json.Laws.{get-put, get-del}
use silo_plugin_xtream_libra.Ids.{IsDistinct}
use silo_plugin_xtream_libra.Prefs.Keys.{profiles, profile_scoped_keys}
use silo_plugin_xtream_libra.Prefs.Diff.{write_value}
use silo_plugin_xtream_libra.Prefs.Diff.Edits.{get-write_value}
use silo_plugin_xtream_libra.Prefs.Diff.Sweep.{sweep}
use silo_plugin_xtream_libra.Prefs.Profiles.{
  property, profile_map, profile_section, view_key, profile_view, split_key, carry_profiles,
}

profile_scoped_keys-IsDistinct : IsDistinct profile_scoped_keys
unfolding profile_scoped_keys contains text_eq
profile_scoped_keys-IsDistinct = (refl, (refl, (refl, (refl, tt))))

-- The names of the profiles' map is not a scoped key.
pub profiles-not-scoped : contains profiles profile_scoped_keys ≡ false
unfolding profile_scoped_keys contains text_eq
profiles-not-scoped = refl

-- Writing each scoped key from a source gives the source's values there.
pub write_all : (Text → Option Json) → Fields → List Text → Fields
write_all source = foldl (λ r k. write_value k (source k) r)

pub get-write_all :
    (source : Text → Option Json) (r : Fields) (j : Text)
    → get j (write_all source r profile_scoped_keys)
      ≡ (if contains j profile_scoped_keys then source j else get j r)
unfolding write_all
get-write_all source r j =
    sweep (λ r k. write_value k (source k) r) (λ k _. source k)
      (λ r k j. get-write_value j k (source k) r) r profile_scoped_keys j
      profile_scoped_keys-IsDistinct

pub split_all :
    (remote : Option Fields) (merged r s : Fields) (ks : List Text)
    → foldl (split_key remote merged) (r, s) ks
      ≡ (write_all (λ k. property k remote) r ks, write_all (λ k. get k merged) s ks)
unfolding split_key write_all
split_all remote merged r s [] = refl
split_all remote merged r s (k ∷ ks) =
    split_all remote merged (write_value k (property k remote) r) (write_value k (get k merged) s)
      ks

view_all :
    (section view : Fields) (ks : List Text)
    → foldl (view_key section) view ks ≡ write_all (λ k. get k section) view ks
unfolding view_key write_all
view_all section view [] = refl
view_all section view (k ∷ ks) = view_all section (write_value k (get k section) view) ks

-- What a view holds, from the stored preferences and the section.
pub get-profile_view :
    (remote : Fields) (id key : Text)
    → get key (profile_view remote id) ≡ (elim (profile_section (some remote) id) [
      | none ↦ get key (del profiles remote)
      | some section ↦
          if contains key profile_scoped_keys
          then get key section
          else get key (del profiles remote)
    ])
unfolding profile_view
get-profile_view remote id key = elim (Option-cases (profile_section (some remote) id)) [
  | inl e ↦ rw (e, profile_view) refl
  | inr (section, e) ↦
      rw (e, profile_view)
        (rw view_all (get-write_all (λ k. get k section) (del profiles remote) key))
]

pub get-carry_profiles :
    (remote : Option Fields) (merged : Fields) (key : Text)
    → text_eq profiles key ≡ false
    → get key (carry_profiles remote merged) ≡ get key merged
unfolding carry_profiles
get-carry_profiles remote merged key n = elim (Option-cases (profile_map remote)) [
  | inl e ↦ rw (e, carry_profiles) (rw (get-del, n) refl)
  | inr (stored, e) ↦ rw (e, carry_profiles) (rw (get-put, n) (rw (get-del, n) refl))
]

pub profile_map-carry_profiles :
    (remote : Option Fields) (merged : Fields)
    → profile_map (some (carry_profiles remote merged)) ≡ profile_map remote
unfolding carry_profiles
profile_map-carry_profiles remote merged = elim (Option-cases (profile_map remote)) [
  | inl e ↦ rw (e, carry_profiles) (rw (get-del, text_eq_refl) refl)
  | inr (stored, e) ↦ rw (e, carry_profiles) (rw (get-put, text_eq_refl) refl)
]
