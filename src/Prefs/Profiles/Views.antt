-- ===== src/Prefs/Profiles/Views.antt =====
-- What each profile sees after a save of one of them.
use silo_plugin_xtream_libra.Prelude.{
  ◌≡◌, refl, Option, none, some, false, if◌then◌else◌, or_else, arith, Bool-cases, inl, inr,
}
use silo_plugin_xtream_libra.Text.{Text, is_empty, text_eq, contains, text_eq_refl}
use silo_plugin_xtream_libra.Json.{Json, obj, Fields, end, get, put, del, plain_object}
use silo_plugin_xtream_libra.Json.Laws.{get-put, get-del}
use silo_plugin_xtream_libra.Prefs.Keys.{profiles, profile_scoped_keys}
use silo_plugin_xtream_libra.Prefs.Profiles.{
  property, profile_map, profile_section, profile_view, carry_profiles, merge_profile_view,
}
use silo_plugin_xtream_libra.Prefs.Profiles.Sections.{
  profiles-not-scoped, write_all, get-write_all, split_all, get-profile_view, get-carry_profiles,
  profile_map-carry_profiles,
}

-- Reading a property of an empty object that stands for a missing one.
same_property :
    (key : Text) (m : Option Fields)
    → (if is_empty key then none else plain_object (get key (or_else m end)))
      ≡ (if is_empty key then none else plain_object (property key m))
unfolding get
same_property key none = refl
same_property key (some fs) = refl

module _ (remote : Option Fields) (merged : Fields) (id : Text) (named : is_empty id ≡ false) where
  -- The two results of the loop of `mergeProfileView`.
  result : Fields
  result = write_all (λ k. property k remote) (carry_profiles remote merged) profile_scoped_keys

  section : Fields
  section =
      write_all (λ k. get k merged) (or_else (profile_section remote id) end) profile_scoped_keys

  merge_profile_view_lem :
      merge_profile_view remote merged id
      ≡ put profiles (obj (put id (obj section) (or_else (profile_map (some result)) end))) result
  unfolding merge_profile_view result section
  merge_profile_view_lem =
      rw
        (
          split_all remote merged (carry_profiles remote merged)
              (or_else (profile_section remote id) end) profile_scoped_keys,
          named,
        )
        refl

  profile_map-result : profile_map (some result) ≡ profile_map remote
  unfolding result
  profile_map-result =
      rw (get-write_all, profiles-not-scoped) (profile_map-carry_profiles remote merged)

  -- The saved profile's section holds the scoped values of the view, and its other values.
  section_self : profile_section (some (merge_profile_view remote merged id)) id ≡ some section
  unfolding profile_section
  section_self =
      rw (merge_profile_view_lem, named)
        (rw (get-put, text_eq_refl) (rw (get-put, text_eq_refl) refl))

  -- A save for one profile leaves the section of every other profile as the server had it.
  pub merge_profile_view-other_section :
      (other : Text)
      → text_eq id other ≡ false
      → profile_section (some (merge_profile_view remote merged id)) other
        ≡ profile_section remote other
  unfolding profile_section
  merge_profile_view-other_section other apart = rw merge_profile_view_lem (
      rw (get-put, text_eq_refl)
        (rw (get-put, apart) (rw profile_map-result (same_property other (profile_map remote)))))

module _ (remote : Option Fields) (merged : Fields) (id key : Text) (named : is_empty id ≡ false)
    (other : text_eq profiles key ≡ false) where
  get-merge_profile_view :
      get key (merge_profile_view remote merged id)
      ≡ (if contains key profile_scoped_keys then property key remote else get key merged)
  unfolding result
  get-merge_profile_view = rw (merge_profile_view_lem remote merged id named) (
      rw (get-put, other) (rw get-write_all (rw (get-carry_profiles remote merged key other) refl)))

  -- The round trip: after a save for a profile, the view of that profile holds what was saved.
  pub profile_view-merge_profile_view :
      get key (profile_view (merge_profile_view remote merged id) id) ≡ get key merged
  profile_view-merge_profile_view = elim (Bool-cases (contains key profile_scoped_keys)) [
    | inl scoped ↦ rw get-profile_view (
        rw (section_self remote merged id named, scoped)
          (unfold section in rw (get-write_all, scoped) refl))
    | inr shared ↦ rw get-profile_view (
        rw (section_self remote merged id named, shared)
          (rw (get-del, other) (rw (get-merge_profile_view, shared) refl)))
  ]

module _ (stored merged : Fields) (id another key : Text) (named : is_empty id ≡ false)
    (apart : text_eq id another ≡ false) (other : text_eq profiles key ≡ false) where
  -- After a save for one profile, another profile that has a section sees its scoped values as
  -- before, and all other values as saved. A profile with no section sees the scoped values at the
  -- top level, which the save left as they were.
  pub profile_view-other :
      get key (profile_view (merge_profile_view (some stored) merged id) another) ≡ (
        if contains key profile_scoped_keys
        then get key (profile_view stored another)
        else get key merged)
  profile_view-other =
      rw
        (
          get-profile_view,
          get-profile_view,
          merge_profile_view-other_section (some stored) merged id named another apart,
        )
        (by_section (profile_section (some stored) another))
    where
      saved : Fields
      saved = merge_profile_view (some stored) merged id

      by_section :
          (s : Option Fields)
          → ◌≡◌ {A = Option Json}
              (elim s [
                | none ↦ get key (del profiles saved)
                | some section' ↦
                    if contains key profile_scoped_keys
                    then get key section'
                    else get key (del profiles saved)
              ])
              (if contains key profile_scoped_keys
                then (elim s [
                  | none ↦ get key (del profiles stored)
                  | some section' ↦
                      if contains key profile_scoped_keys
                      then get key section'
                      else get key (del profiles stored)
                ])
                else get key merged)
      by_section s = ground (
        arith,
        get-del key profiles saved,
        get-del key profiles stored,
        get-merge_profile_view (some stored) merged id key named other,
      )
