-- ===== src/Prefs/Sync/Saves/Isolation.antt =====
-- What a save writes, and for whom.
use silo_plugin_xtream_libra.Prelude.{
  ℕ, Bool, true, false, ◌≡◌, refl, sym, ap, ◌∙◌, none, some, arith, if◌then◌else◌, or_else,
}
use silo_plugin_xtream_libra.Text.{Text, is_empty, text_eq, text_eq_iff, text_eq_refl, contains}
use silo_plugin_xtream_libra.Json.{obj, Fields, end, get, put}
use silo_plugin_xtream_libra.Json.Laws.{get-put}
use silo_plugin_xtream_libra.Prefs.Keys.{
  profiles, favorite_order, profile_scoped_keys, prefs_map_keys,
}
use silo_plugin_xtream_libra.Prefs.Diff.{value_equal, list_limit, apply_prefs_diff}
use silo_plugin_xtream_libra.Prefs.Diff.Edits.{merged_value-single, get-apply_prefs_diff}
use silo_plugin_xtream_libra.Prefs.Diff.Tabs.{apply_prefs_diff-unedited}
use silo_plugin_xtream_libra.Prefs.Profiles.{profile_view, merge_profile_view}
use silo_plugin_xtream_libra.Prefs.Profiles.Views.{
  profile_view-merge_profile_view, profile_view-other,
}
use silo_plugin_xtream_libra.Prefs.Sync.{Tab, prefs_key, profile_switched}
use silo_plugin_xtream_libra.Prefs.Sync.Saves.{remote_prefs, Save, started, begin_save, merge_save}

-- A save starts only for a tab that has loaded, has edits, and still shows the viewer's profile; it
-- takes the tab's edits and owner with it.
pub begin_save-started :
    (t : Tab) (s : Save)
    → (begin_save t).1 ≡ started s
    → (t.loaded ≡ true)
      × (t.dirty ≡ true)
      × (t.profile_id ≡ t.viewer)
      × (s.owner ≡ t.viewer)
      × (s.local ≡ t.preferences)
      × (s.before ≡ t.baseline)
      × ((begin_save t).0.dirty ≡ false)
unfolding begin_save profile_switched
begin_save-started t s h = ground (arith, text_eq_iff t.profile_id t.viewer)

if_some {ℓ} :
    {A : Type ℓ} (b : Bool) (x y : A) → (if b then some x else none) ≡ some y → (b ≡ true) × (x ≡ y)
if_some true x y h = (refl, cc)
if_some false x y h = cc

module _ (lower : Text → Text) (now : ℕ) (viewer : Text) (s : Save) (values : Fields)
    {merged saved : Fields}
    (written : merge_save lower now viewer s values ≡ some (merged, saved)) where
  -- The view that the owner's edits are merged into.
  abbrev seen : Fields
  seen = profile_view (remote_prefs lower now values) s.owner

  parts :
      (text_eq viewer s.owner ≡ true)
      × (merged ≡ apply_prefs_diff seen s.before (some s.local))
      × (saved
          ≡ put prefs_key
              (obj (
                merge_profile_view
                  (some (remote_prefs lower now values))
                  (apply_prefs_diff seen s.before (some s.local))
                  s.owner))
              values)
  unfolding merge_save
  parts = let (b, e) = if_some _ _ _ written in (b, sym (ap (λ p. p.0) e), sym (ap (λ p. p.1) e))

  -- What is stored for the preferences, and that every other value is kept.
  pub merge_save-stored :
      (get prefs_key saved
        ≡ some (obj (merge_profile_view (some (remote_prefs lower now values)) merged s.owner)))
      × ((key : Text) → text_eq prefs_key key ≡ false → get key saved ≡ get key values)
  merge_save-stored = (
    rw (parts.2, get-put, text_eq_refl) (rw (parts.1) refl),
    λ key other. rw (parts.2, get-put, other) refl,
  )

  module _ (key : Text) (named : is_empty key ≡ false)
      (ordinary : text_eq favorite_order key ≡ false) where
    -- What the tab did not edit, the save takes from the server.
    merged-unedited :
        value_equal (get key s.local) (get key (or_else s.before end)) ≡ true
        → get key merged ≡ get key seen
    merged-unedited same =
        rw (parts.1)
          (apply_prefs_diff-unedited seen s.before (some s.local) key named ordinary same)

    -- A single value that the tab edited is written.
    pub merged-edited :
        value_equal (get key s.local) (get key (or_else s.before end)) ≡ false
        → contains key prefs_map_keys ≡ false
        → list_limit key (get key s.local) ≡ none
        → get key merged ≡ get key s.local
    merged-edited edited single plain = rw (parts.1) (
        get-apply_prefs_diff seen s.before (some s.local) key named ordinary
        ∙ merged_value-single key (get key seen) (get key (or_else s.before end)) (get key s.local)
            single plain
        ∙ rw edited refl)

  -- After a write the owner's profile shows what was merged, and every other profile shows the
  -- favorites, their order, the hidden groups and the statistics delay that it showed before.
  pub merge_save-profiles :
      is_empty s.owner ≡ false
      → let stored = merge_profile_view (some (remote_prefs lower now values)) merged s.owner in
        (get prefs_key saved ≡ some (obj stored))
        × ((key : Text)
            → text_eq profiles key ≡ false
            → get key (profile_view stored s.owner) ≡ get key merged)
        × ((another key : Text)
            → text_eq s.owner another ≡ false
            → text_eq profiles key ≡ false
            → contains key profile_scoped_keys ≡ true
            → get key (profile_view stored another)
              ≡ get key (profile_view (remote_prefs lower now values) another))
  merge_save-profiles named = (
    merge_save-stored.0,
    (λ key other. profile_view-merge_profile_view (some remote) merged s.owner key named other),
    λ another key apart other scoped.
        rw (profile_view-other remote merged s.owner another key named apart other, scoped) refl,
  )
    where
      remote : Fields
      remote = remote_prefs lower now values

module _ (lower : Text → Text) (now : ℕ) (s : Save) (values : Fields) where
  -- What the server has for the owner of the edits.
  abbrev pub before_save : Fields
  before_save = profile_view (remote_prefs lower now values) s.owner

  -- The merged view, and the values with it.
  abbrev pub merged_view : Fields
  merged_view = apply_prefs_diff before_save s.before (some s.local)

  abbrev pub stored_prefs : Fields
  stored_prefs = merge_profile_view (some (remote_prefs lower now values)) merged_view s.owner

  pub saved_for_owner :
      merge_save lower now s.owner s values
      ≡ some (merged_view, put prefs_key (obj stored_prefs) values)
  unfolding merge_save
  saved_for_owner = rw (text_eq_refl s.owner) refl

  -- What the owner's view has of a single value.
  pub saved-single :
      (key : Text)
      → is_empty s.owner ≡ false
      → is_empty key ≡ false
      → text_eq favorite_order key ≡ false
      → text_eq profiles key ≡ false
      → contains key prefs_map_keys ≡ false
      → list_limit key (get key s.local) ≡ none
      → get key (profile_view stored_prefs s.owner) ≡ (
          if value_equal (get key s.local) (get key (or_else s.before end))
          then get key before_save
          else get key s.local)
  saved-single key owned named ordinary outer single plain =
      profile_view-merge_profile_view (some (remote_prefs lower now values)) merged_view s.owner key
        owned outer
      ∙ get-apply_prefs_diff before_save s.before (some s.local) key named ordinary
      ∙ merged_value-single key (get key before_save) (get key (or_else s.before end))
          (get key s.local) single plain

  -- For a viewer who is not the owner of the edits nothing is written. For an owner with a name
  -- the write succeeds; of the stored preferences the owner's view has, for a property that is a
  -- single value, the tab's value if the tab edited it and the server's value if not; and every
  -- other value of the plugin's settings is kept.
  pub merge_save-written :
      (another key other : Text)
      → text_eq another s.owner ≡ false
      → is_empty s.owner ≡ false
      → is_empty key ≡ false
      → text_eq favorite_order key ≡ false
      → text_eq profiles key ≡ false
      → contains key prefs_map_keys ≡ false
      → list_limit key (get key s.local) ≡ none
      → text_eq prefs_key other ≡ false
      → (merge_save lower now another s values ≡ none)
        × ((merged : Fields) × (saved : Fields) × (stored : Fields) × (merge_save lower now s.owner
                s values
              ≡ some (merged, saved))
            × (get prefs_key saved ≡ some (obj stored))
            × (get key (profile_view stored s.owner) ≡ (
                if value_equal (get key s.local) (get key (or_else s.before end))
                then get key (profile_view (remote_prefs lower now values) s.owner)
                else get key s.local))
            × (get other saved ≡ get other values))
  merge_save-written another key other foreign owned named ordinary outer single plain apart = (
    unfold merge_save in rw foreign refl,
    (
      merged_view,
      put prefs_key (obj stored_prefs) values,
      stored_prefs,
      saved_for_owner,
      rw (get-put, text_eq_refl prefs_key) refl,
      saved-single key owned named ordinary outer single plain,
      rw (get-put, apart) refl,
    ),
  )
