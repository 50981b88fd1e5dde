-- ===== src/Prefs/Sync/Saves/Races.antt =====
-- A reload that finishes while a save is in flight. `reloadPrefsFromRemote` waits only for edits
-- that are not being saved yet: `prefsSync.dirty` is already false during the save.
use silo_plugin_xtream_libra.Prelude.{ℕ, true, false, ◌≡◌, refl, ap, ◌∙◌, none, some, or_else}
use silo_plugin_xtream_libra.Text.{Text, is_empty, text_eq, text_eq_refl, contains}
use silo_plugin_xtream_libra.Json.{obj, Fields, end, get, put}
use silo_plugin_xtream_libra.Json.Laws.{get-put}
use silo_plugin_xtream_libra.Prefs.Keys.{profiles, favorite_order, prefs_map_keys}
use silo_plugin_xtream_libra.Prefs.Diff.{value_equal, list_limit}
use silo_plugin_xtream_libra.Prefs.Defaults.{normalize_preferences}
use silo_plugin_xtream_libra.Prefs.Profiles.{profile_view}
use silo_plugin_xtream_libra.Prefs.Sync.{Tab, normalize, prefs_key}
use silo_plugin_xtream_libra.Prefs.Sync.Saves.{
  Save, started, begin_save, merge_save, finish_save, finish_reload,
}
use silo_plugin_xtream_libra.Prefs.Sync.Saves.Edits.{finish_save-edited}
use silo_plugin_xtream_libra.Prefs.Sync.Saves.Isolation.{
  begin_save-started, merged-edited, merged_view, stored_prefs, saved_for_owner, saved-single,
}

module _ (lower : Text → Text) (now : ℕ) (values server : Fields) (t : Tab) (s : Save)
    (merged saved : Fields) where
  -- The tab when the reload has finished between the start of a save and its end.
  abbrev pub reloaded : Tab
  reloaded = finish_reload lower now values (begin_save t).0

  -- The tab when the save has ended after that.
  abbrev pub after : Tab
  after = finish_save now s merged reloaded

  -- The tab when the viewer has edited something after that.
  abbrev pub edited_later : Fields → Tab
  edited_later later = record after { preferences = later; dirty = true }

  module _ (key : Text) (named : is_empty key ≡ false)
      (ordinary : text_eq favorite_order key ≡ false) (begun : (begin_save t).1 ≡ started s)
      (written : merge_save lower now s.owner s server ≡ some (merged, saved))
      (edited : value_equal (get key s.local) (get key (or_else s.before end)) ≡ false)
      (kept : get key (normalize_preferences reloaded.channels merged) ≡ get key merged)
      (clean : reloaded.dirty ≡ false)
      (older : value_equal (get key reloaded.preferences) (get key s.local) ≡ false)
      (single : contains key prefs_map_keys ≡ false)
      (plain : list_limit key (get key s.local) ≡ none)
      (plain_older : list_limit key (get key reloaded.preferences) ≡ none) where
    stored : get key merged ≡ get key s.local
    stored = merged-edited lower now s.owner s server written key named ordinary edited single plain

    clean_after : after.dirty ≡ false
    clean_after = unfold finish_save normalize in clean

    shown : get key after.preferences ≡ get key reloaded.preferences
    shown = finish_save-edited now s merged reloaded key named ordinary older single plain_older

    held : get key (or_else after.baseline end) ≡ get key s.local
    held = unfold finish_save normalize in kept ∙ stored

    -- A save stores an edit of a single value, which the normalization keeps. If a reload that
    -- finishes meanwhile brings another single value there and marks nothing as edited, the tab shows
    -- that value after the save and is not marked as edited; and when anything else is edited later,
    -- the next save stores the value of the reload for the owner, whatever the server has by then: it
    -- undoes the edit just saved.
    pub finish_save-finish_reload :
        text_eq profiles key ≡ false
        → (later current : Fields) (time : ℕ) (next : Save)
        → get key later ≡ get key after.preferences
        → (begin_save (edited_later later)).1 ≡ started next
        → is_empty next.owner ≡ false
        → (get key merged ≡ get key s.local)
          × (get key after.preferences ≡ get key reloaded.preferences)
          × (after.dirty ≡ false)
          × ((again : Fields) × (written_again : Fields) × (kept_again : Fields) × (merge_save lower
                  time next.owner next current
                ≡ some (again, written_again))
              × (get prefs_key written_again ≡ some (obj kept_again))
              × (get key (profile_view kept_again next.owner) ≡ get key reloaded.preferences))
    finish_save-finish_reload outer later current time next same starts owned = (
      stored,
      shown,
      clean_after,
      (
        merged_view lower time next current,
        put prefs_key (obj (stored_prefs lower time next current)) current,
        stored_prefs lower time next current,
        saved_for_owner lower time next current,
        rw (get-put, text_eq_refl prefs_key) refl,
        saved-single lower time next current key owned named ordinary outer single
              (rw local plain_older)
            ∙ rw undone local,
      ),
    )
      where
        parts : (next.local ≡ later) × (next.before ≡ after.baseline)
        parts = let b = begin_save-started (edited_later later) next starts in (b.4, b.5)

        local : get key next.local ≡ get key reloaded.preferences
        local = ap (get key) parts.0 ∙ same ∙ shown

        undone : value_equal (get key next.local) (get key (or_else next.before end)) ≡ false
        undone = rw (local, parts.1, held) older
