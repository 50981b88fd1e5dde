-- ===== src/Prefs/Profiles.antt =====
-- The profiles of a viewer: `prefsProfileSection`, `profileView` and `mergeProfileView`.
pub mod Sections
pub mod Views
use mathlib.Core.List.{foldl}
use silo_plugin_xtream_libra.Prelude.{
  Option, none, some, List, [], ◌∷◌, Bool, true, false, if◌then◌else◌, or_else,
}
use silo_plugin_xtream_libra.Text.{Text, is_empty}
use silo_plugin_xtream_libra.Json.{Json, obj, Fields, end, get, put, del, plain_object}
use silo_plugin_xtream_libra.Prefs.Keys.{profiles, profile_scoped_keys}
use silo_plugin_xtream_libra.Prefs.Diff.{write_value}

-- The properties of a value that may be missing.
abbrev pub property : Text → Option Fields → Option Json
property key none = none
property key (some fs) = get key fs

-- `remote.profiles`, if that is an object
abbrev pub profile_map : Option Fields → Option Fields
profile_map remote = plain_object (property profiles remote)

unfoldable pub profile_section : Option Fields → Text → Option Fields
profile_section remote id =
    if is_empty id then none else plain_object (property id (profile_map remote))

-- One round of the loop of `profileView`.
unfoldable pub view_key : Fields → Fields → Text → Fields
view_key section view key = write_value key (get key section) view

unfoldable pub profile_view : Fields → Text → Fields
profile_view remote id = elim (profile_section (some remote) id) [
  | none ↦ del profiles remote
  | some section ↦ foldl (view_key section) (del profiles remote) profile_scoped_keys
]

-- One round of the loop of `mergeProfileView`, on the result and the section.
unfoldable pub split_key : Option Fields → Fields → Fields × Fields → Text → Fields × Fields
split_key remote merged (result, section) key =
    (write_value key (property key remote) result, write_value key (get key merged) section)

-- `merged` without its profiles, with those of the stored preferences.
unfoldable pub carry_profiles : Option Fields → Fields → Fields
carry_profiles remote merged = elim (profile_map remote) [
  | none ↦ del profiles merged
  | some stored ↦ put profiles (obj stored) (del profiles merged)
]

unfoldable pub merge_profile_view : Option Fields → Fields → Text → Fields
merge_profile_view remote merged id =
    let start = carry_profiles remote merged in
    let (result, section) =
      foldl (split_key remote merged) (start, or_else (profile_section remote id) end)
        profile_scoped_keys in
    if is_empty id
    then start
    else put profiles (obj (put id (obj section) (or_else (profile_map (some result)) end))) result
