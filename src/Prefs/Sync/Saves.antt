-- ===== src/Prefs/Sync/Saves.antt =====
-- The save and the reload of one tab: `runPrefsSave`, `writePluginSettingsValues` and
-- `reloadPrefsFromRemote` of internal/plugin/ui/prefs.js, cut where they wait for the server.
pub mod Isolation
pub mod Edits
pub mod Races
use silo_plugin_xtream_libra.Prelude.{
  ℕ, Bool, true, false, not, ◌&&◌, ◌||◌, Option, none, some, if◌then◌else◌, or_else,
}
use silo_plugin_xtream_libra.Text.{Text, text_eq}
use silo_plugin_xtream_libra.Json.{Json, obj, Fields, get, put}
use silo_plugin_xtream_libra.Prefs.Defaults.{default_prefs, merge_prefs}
use silo_plugin_xtream_libra.Prefs.Diff.{apply_prefs_diff}
use silo_plugin_xtream_libra.Prefs.Profiles.{profile_view, merge_profile_view}
use silo_plugin_xtream_libra.Prefs.Sync.{
  SaveStatus, saving, saved, failed, Tab, prefs_key, read_prefs_value, profile_switched,
  discard_pending_edits, normalize, adopt_loaded_prefs,
}

-- `remotePrefsFromValues`
unfoldable pub remote_prefs : (Text → Text) → ℕ → Fields → Fields
remote_prefs lower now values =
    merge_prefs lower now (some (or_else (read_prefs_value (get prefs_key values)) default_prefs))

-- What a save remembers while it waits.
pub record Save : Type 0 where
  pub was_quiet : Bool
  pub local : Fields
  pub before : Option Fields
  pub owner : Text

pub data Start : Type 0 where
  skipped dropped : Start
  started : Save → Start

-- `runPrefsSave` up to the read. `dropped` asks for a reload.
unfoldable pub begin_save : Tab → Tab × Start
begin_save t =
    if not t.dirty || not t.loaded
    then (t, skipped)
    else (if profile_switched t then (discard_pending_edits t, dropped) else (
      record t { dirty = false; quiet = true },
      started (record {
        was_quiet = t.quiet;
        local = t.preferences;
        before = t.baseline;
        owner = t.profile_id;
      }),
    ))

-- The update inside `writePluginSettingsValues`: the merged view and the values that are written,
-- or none if the viewer is not the owner any more. The values of other features are kept.
unfoldable pub merge_save : (Text → Text) → ℕ → Text → Save → Fields → Option (Fields × Fields)
merge_save lower now viewer s values =
    let remote = remote_prefs lower now values in
    let merged = apply_prefs_diff (profile_view remote s.owner) s.before (some s.local) in
    if text_eq viewer s.owner
    then some (merged, put prefs_key (obj (merge_profile_view (some remote) merged s.owner)) values)
    else none

-- After the write: edits made while it was in flight are applied to what was saved.
unfoldable pub finish_save : ℕ → Save → Fields → Tab → Tab
finish_save now s merged t =
    let stored = normalize (record t { preferences = merged }) in
    record stored {
      baseline = some stored.preferences;
      last_remote_check = now;
      preferences = apply_prefs_diff stored.preferences (some s.local) (some t.preferences);
      status = if t.dirty then saving else saved;
    }

-- A failed read or write.
unfoldable pub fail_save : Tab → Tab
fail_save t = record t { dirty = true; status = failed; retry_timer = true }

-- `reloadPrefsFromRemote` from the arrival of the values on.
unfoldable pub finish_reload : (Text → Text) → ℕ → Fields → Tab → Tab
finish_reload lower now values t =
    let switched = profile_switched t in
    let ready = (if switched then discard_pending_edits t else t) in
    let shown =
      normalize
        (record ready { preferences = profile_view (remote_prefs lower now values) t.viewer }) in
    if not switched && t.loaded && t.dirty
    then record t { last_remote_check = now }
    else adopt_loaded_prefs (if switched then none else some t.preferences) t.viewer now shown
