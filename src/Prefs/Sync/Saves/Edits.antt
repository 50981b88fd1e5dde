-- ===== src/Prefs/Sync/Saves/Edits.antt =====
-- No edit is lost: edits while a save is in flight, and saves that fail.
use silo_plugin_xtream_libra.Prelude.{ℕ, true, false, ◌≡◌, refl, ◌∙◌, none, some, arith, or_else}
use silo_plugin_xtream_libra.Text.{Text, is_empty, text_eq, contains}
use silo_plugin_xtream_libra.Json.{Fields, end, get}
use silo_plugin_xtream_libra.Prefs.Keys.{favorite_order, prefs_map_keys}
use silo_plugin_xtream_libra.Prefs.Diff.{value_equal, list_limit}
use silo_plugin_xtream_libra.Prefs.Diff.Edits.{merged_value, other_value, get-apply_prefs_diff}
use silo_plugin_xtream_libra.Prefs.Diff.Tabs.{apply_prefs_diff-unedited}
use silo_plugin_xtream_libra.Prefs.Sync.{Tab, profile_switched}
use silo_plugin_xtream_libra.Prefs.Sync.Saves.{Save, started, begin_save, finish_save, fail_save}

module _ (now : ℕ) (s : Save) (merged : Fields) (t : Tab) (key : Text)
    (named : is_empty key ≡ false) (ordinary : text_eq favorite_order key ≡ false) where
  -- What the tab has as its stored preferences after the save.
  abbrev stored : Fields
  stored = or_else (finish_save now s merged t).baseline end

  -- A property that nobody edited while the save was in flight ends as it was stored, and is no
  -- edit any more.
  pub finish_save-unedited :
      value_equal (get key t.preferences) (get key s.local) ≡ true
      → get key (finish_save now s merged t).preferences ≡ get key stored
  unfolding finish_save
  finish_save-unedited same =
      apply_prefs_diff-unedited _ (some s.local) (some t.preferences) key named ordinary same

  -- A single value that was edited while the save was in flight keeps the edit.
  pub finish_save-edited :
      value_equal (get key t.preferences) (get key s.local) ≡ false
      → contains key prefs_map_keys ≡ false
      → list_limit key (get key t.preferences) ≡ none
      → get key (finish_save now s merged t).preferences ≡ get key t.preferences
  unfolding finish_save merged_value other_value
  finish_save-edited edited single plain =
      get-apply_prefs_diff _ (some s.local) (some t.preferences) key named ordinary
      ∙ rw (edited, single) (rw (plain, other_value) refl)

-- A save that fails leaves every edit to be saved again: the same preferences are held against the
-- same baseline, the tab is marked as edited, and a retry is set.
pub fail_save-begin_save :
    (t : Tab) (s : Save)
    → (begin_save t).1 ≡ started s
    → let failed = fail_save (begin_save t).0 in
      (failed.dirty ≡ true)
      × (failed.retry_timer ≡ true)
      × ((begin_save failed).1 ≡ started (record s { was_quiet = true }))
unfolding begin_save fail_save profile_switched
fail_save-begin_save t s h = ground arith
