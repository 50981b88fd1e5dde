-- ===== src/Prefs/Sync.antt =====
-- One tab's preference sync: the state `prefsSync` and the handlers of
-- internal/plugin/ui/prefs.js that change it. Timers are flags, and the functions that wait for
-- the server are cut where they wait. The clock is an argument.
pub mod Saves
use silo_plugin_xtream_libra.Prelude.{
  ℕ, Bool, true, false, not, ◌&&◌, ◌||◌, Option, none, some, List, if◌then◌else◌, or_else, is_some,
}
use silo_plugin_xtream_libra.Text.{Text, codes, text_eq}
use silo_plugin_xtream_libra.Json.{Json, obj, Fields, get, put, assign}
use silo_plugin_xtream_libra.Prefs.Defaults.{default_prefs, merge_prefs, normalize_preferences}
use silo_plugin_xtream_libra.Prefs.Diff.{apply_prefs_diff}
use silo_plugin_xtream_libra.Prefs.Profiles.{profile_view, merge_profile_view}
use silo_plugin_xtream_libra.Prefs.Phantoms.{Team, drop_known_phantoms, drop_phantom_follows}

pub data SaveStatus : Type 0 where
  idle saving saved failed : SaveStatus

-- `prefsSync`, with the parts of `state` that the sync reads and writes. `viewer` is what
-- `activeViewerProfileID` reads; `channels` are the identifiers of `state.app.channels`; `teams`
-- are those of the sports data, if `state.sports` is there.
pub record Tab : Type 0 where
  pub preferences : Fields
  pub channels : List Text
  pub teams : Option (List Team)
  pub viewer : Text
  pub installed : Bool
  pub loaded : Bool
  pub profile_id : Text
  pub baseline : Option Fields
  pub dirty : Bool
  pub quiet : Bool
  pub timer : Bool
  pub retry_timer : Bool
  pub last_remote_check : ℕ
  pub status : SaveStatus

abbrev pub prefs_key : Text
prefs_key = codes "preferences"

-- `readSiloPrefsValue`. The stored text stands for the object that it is the JSON of.
unfoldable pub read_prefs_value : Option Json → Option Fields
read_prefs_value (some (obj fs)) = some (assign default_prefs fs)
read_prefs_value _ = none

-- `prefsProfileSwitched`
unfoldable pub profile_switched : Tab → Bool
profile_switched t = t.loaded && not (text_eq t.profile_id t.viewer)

unfoldable pub discard_pending_edits : Tab → Tab
discard_pending_edits t = record t { timer = false; dirty = false; quiet = true }

unfoldable pub schedule_flush : Tab → Tab
schedule_flush t = record t { dirty = true; timer = true }

-- `schedulePrefsLoadRetry`
unfoldable pub schedule_load_retry : Tab → Tab
schedule_load_retry t =
    if (t.loaded && not (profile_switched t)) || t.retry_timer || not t.installed
    then t
    else record t { retry_timer = true }

-- `savePrefs`
unfoldable pub save_prefs : Bool → Tab → Tab
save_prefs keep_quiet t =
    let t1 = record t { quiet = t.quiet && keep_quiet; status = saving } in
    if not t.installed
    then record t { status = failed }
    else (if t.loaded then schedule_flush t1 else schedule_load_retry (record t1 { dirty = true }))

-- `dropPhantomSportsFollows`, with the save that it asks for.
unfoldable pub drop_phantoms : Tab → Tab
drop_phantoms t = elim t.teams [
  | none ↦ t
  | some teams ↦
      let (p, dropped) = drop_phantom_follows teams t.preferences in
      if t.loaded && dropped then save_prefs true (record t { preferences = p }) else t
]

-- `dropKnownPhantomSportsFollows`, with whether it dropped one.
unfoldable pub drop_known : Tab → Tab × Bool
drop_known t =
    let (p, dropped) = drop_known_phantoms t.preferences in (record t { preferences = p }, dropped)

-- `normalizePreferences`
unfoldable pub normalize : Tab → Tab
normalize t = record t { preferences = normalize_preferences t.channels t.preferences }

-- `adoptLoadedPrefs` up to the loaded baseline, for the profile that the view was built for.
unfoldable pub adopt_baseline : Text → ℕ → Tab → Tab
adopt_baseline id now t =
    let kept = (if t.loaded && not (text_eq t.profile_id id) then discard_pending_edits t else t) in
    record kept {
      loaded = true;
      profile_id = id;
      baseline = some t.preferences;
      last_remote_check = now;
      retry_timer = false;
    }

unfoldable pub adopt_loaded_prefs : Option Fields → Text → ℕ → Tab → Tab
adopt_loaded_prefs previous_local id now t =
    let switched = t.loaded && not (text_eq t.profile_id id) in
    let pending = t.dirty && not switched && is_some t.baseline && is_some previous_local in
    let (known, dropped_known) = drop_known (adopt_baseline id now t) in
    let cleaned = drop_phantoms known in
    let merged = normalize (record cleaned {
      preferences = apply_prefs_diff cleaned.preferences t.baseline previous_local;
    }) in
    if pending
    then schedule_flush (drop_known merged).0
    else (if dropped_known then schedule_flush cleaned else cleaned)
