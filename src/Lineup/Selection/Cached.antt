-- ===== src/Lineup/Selection/Cached.antt =====
-- The caches of `selectedProfileMap` and `selectedProfileChannelMap` of internal/plugin/ui/core.js,
-- and what a new computation answers.
use mathlib.Core.Path.{subst}
use silo_plugin_xtream_libra.Prelude.{
  ◌≡◌, refl, sym, ap, Bool, true, ◌&&◌, Option, none, some, List, [], ◌∷◌, map, arith,
  if◌then◌else◌, filter_by, any, not, Bool-cases, inl, inr,
}
use silo_plugin_xtream_libra.Text.{Text, is_empty, text_eq, contains}
use silo_plugin_xtream_libra.Json.{Json}
use silo_plugin_xtream_libra.Lineup.Names.{Channel}
use silo_plugin_xtream_libra.Lineup.Selection.{
  Cache, unknown, nothing, known, Selection, profile_selection, to_cache, recall, keep,
  selected_profile_map, in_profiles, profile_channels, selected_profile_channel_map,
  matches_selected, matches_allowed, channel_matches_profile_selection, store_map,
  apply_profile_selection, invalidate_profile_selection_cache,
}

-- The cache is empty or holds what would be computed.
abbrev pub IsOf : Option (List Text) → Cache → Type 0
IsOf o unknown = Unit {0}
IsOf o nothing = o ≡ none
IsOf o (known ids) = o ≡ some ids

abbrev pub IsCached : Selection → Type 0
IsCached s =
    IsOf (profile_selection s) s.id_map
    × IsOf (profile_channels s.channels (profile_selection s)) s.channel_map

recall-IsOf : (c : Cache) (o : Option (List Text)) → IsOf o c → recall c o ≡ o
unfolding recall
recall-IsOf unknown o h = refl
recall-IsOf nothing o h = sym h
recall-IsOf (known ids) o h = sym h

to_cache-IsOf : (o : Option (List Text)) → IsOf o (to_cache o)
unfolding to_cache
to_cache-IsOf none = refl
to_cache-IsOf (some ids) = refl

keep-IsOf : (c : Cache) (o : Option (List Text)) → IsOf o c → IsOf o (keep c o)
unfolding keep
keep-IsOf unknown o h = to_cache-IsOf o
keep-IsOf nothing o h = h
keep-IsOf (known ids) o h = h

selected-IsCached :
    (s : Selection)
    → IsCached s
    → ((selected_profile_map s).0 ≡ profile_selection s) × IsCached (selected_profile_map s).1
selected-IsCached s h =
    unfold selected_profile_map profile_selection in
    (
      recall-IsOf s.id_map (profile_selection s) h.0,
      (keep-IsOf s.id_map (profile_selection s) h.0, h.1),
    )

store_map-IsCached :
    (c m : Cache) (s : Selection)
    → IsCached s
    → IsOf (profile_selection s) m
    → IsCached (
        store_map c (profile_channels s.channels (profile_selection s)) (record s { id_map = m }) s)
unfolding store_map profile_selection
store_map-IsCached unknown m s h i = (i, to_cache-IsOf _)
store_map-IsCached nothing m s h i = h
store_map-IsCached (known ids) m s h i = h

store_map-selection :
    (c : Cache) (o : Option (List Text)) (m : Cache) (s : Selection)
    → profile_selection (store_map c o (record s { id_map = m }) s) ≡ profile_selection s
unfolding store_map profile_selection
store_map-selection unknown o m s = refl
store_map-selection nothing o m s = refl
store_map-selection (known ids) o m s = refl

-- The answer for a channel, without caches: it is in a selected profile, itself or, if it has an
-- identifier, by a channel of the list with that identifier.
unfoldable pub is_selected : Option (List Text) → List Channel → Channel → Bool
is_selected none channels c = true
is_selected (some ids) channels c =
    if is_empty c.id
    then in_profiles ids c
    else any (λ d. text_eq d.id c.id && in_profiles ids d) channels

contains-profile_channels :
    (id : Text) (ids : List Text) (channels : List Channel)
    → contains id (map (λ c. c.id) (filter_by (in_profiles ids) channels))
      ≡ any (λ d. text_eq d.id id && in_profiles ids d) channels
unfolding contains
contains-profile_channels id ids [] = refl
contains-profile_channels id ids (c ∷ cs) = ground (arith, contains-profile_channels id ids cs)

matches_allowed-is_selected :
    (o : Option (List Text)) (channels : List Channel) (c : Channel) (t : Selection)
    → IsCached t
    → profile_selection t ≡ o
    → ((matches_allowed (profile_channels channels o) c t).0 ≡ is_selected o channels c)
      × IsCached (matches_allowed (profile_channels channels o) c t).1
unfolding matches_allowed matches_selected profile_channels is_selected
matches_allowed-is_selected none channels c t h chosen = (refl, h)
matches_allowed-is_selected (some ids) channels c t h chosen =
    elim (Bool-cases (not (is_empty c.id) && contains c.id in_selected)) [
      | inl allowed ↦ rw allowed (ground (arith, allowed, listed), h)
      | inr other ↦
          rw (other, (selected-IsCached t h).0, chosen)
            (ground (arith, other, listed), (selected-IsCached t h).1)
    ]
  where
    in_selected : List Text
    in_selected = map (λ d. d.id) (filter_by (in_profiles ids) channels)

    listed : contains c.id in_selected ≡ any (λ d. text_eq d.id c.id && in_profiles ids d) channels
    listed = contains-profile_channels c.id ids channels

module _ (s : Selection) (h : IsCached s) where
  answer-same :
      (selected_profile_channel_map s).0 ≡ profile_channels s.channels (profile_selection s)
  unfolding selected_profile_channel_map
  answer-same =
      rw ((selected-IsCached s h).0)
        (recall-IsOf s.channel_map (profile_channels s.channels (profile_selection s)) h.1)

  kept : Cache
  kept = keep s.id_map (profile_selection s)

  stored : Selection
  stored =
      store_map s.channel_map (profile_channels s.channels (profile_selection s))
        (record s { id_map = kept }) s

  stored-same : (selected_profile_channel_map s).1 ≡ stored
  unfolding selected_profile_channel_map selected_profile_map stored kept
  stored-same =
      ap
        (λ o.
          store_map s.channel_map (profile_channels s.channels o)
            (record s { id_map = keep s.id_map (profile_selection s) }) s)
        (recall-IsOf s.id_map (profile_selection s) h.0)

  stored-IsCached : IsCached stored
  unfolding stored kept
  stored-IsCached =
      store_map-IsCached s.channel_map kept s h (keep-IsOf s.id_map (profile_selection s) h.0)

  stored-selection : profile_selection stored ≡ profile_selection s
  unfolding stored
  stored-selection = store_map-selection s.channel_map _ kept s

  -- With caches that are empty or up to date, the answer for a channel is the one without caches,
  -- and the caches that it leaves are up to date again, after its first call and at its end.
  pub channel_matches_profile_selection-is_selected :
      (c : Channel)
      → ((channel_matches_profile_selection s c).0 ≡ is_selected (profile_selection s) s.channels c)
        × IsCached (selected_profile_channel_map s).1
        × IsCached (channel_matches_profile_selection s c).1
  unfolding channel_matches_profile_selection
  channel_matches_profile_selection-is_selected c =
      let found =
        matches_allowed-is_selected (profile_selection s) s.channels c stored stored-IsCached
          stored-selection in
      (
        rw (answer-same, stored-same) found.0,
        subst IsCached (sym stored-same) stored-IsCached,
        rw (answer-same, stored-same) found.1,
      )

-- A new selection leaves both caches empty.
apply_profile_selection-IsCached :
    (given : Option Json) (s : Selection) → IsCached (apply_profile_selection given s)
unfolding apply_profile_selection invalidate_profile_selection_cache
apply_profile_selection-IsCached given s = (tt, tt)
