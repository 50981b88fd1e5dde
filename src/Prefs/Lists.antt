-- ===== src/Prefs/Lists.antt =====
-- `mergePrefsList`: the ordered lists of identifiers in a save.
pub mod Members
use silo_plugin_xtream_libra.Prelude.{
  ℕ, zero, Bool, true, false, not, ◌&&◌, ◌||◌, List, [], ◌∷◌, ◌++◌, ◌==◌, if◌then◌else◌, filter_by,
  take,
}
use silo_plugin_xtream_libra.Text.{Text, text_eq, contains}
use silo_plugin_xtream_libra.Json.{text_array, json_eq}
use silo_plugin_xtream_libra.Ids.{unique_ids}
use silo_plugin_xtream_libra.Prefs.Keys.{favorite_order, union_limit}

-- The lists that the body of `mergePrefsList` names, from distinct lists.
abbrev pub added : List Text → List Text → List Text
added baseline local = filter_by (λ v. not (contains v baseline)) local

abbrev pub kept : List Text → List Text → List Text → List Text
kept remote baseline local = filter_by (λ v. not (contains v baseline) || contains v local) remote

abbrev pub shared_local : List Text → List Text → List Text
shared_local baseline local = filter_by (λ v. contains v baseline) local

abbrev pub shared_baseline : List Text → List Text → List Text
shared_baseline baseline local = filter_by (λ v. contains v local) baseline

-- `!prefsValueEqual(sharedLocal, sharedBaseline)`: this tab changed the order.
unfoldable pub reordered : List Text → List Text → Bool
reordered baseline local = not (
    json_eq (text_array (shared_local baseline local))
      (text_array (shared_baseline baseline local)))

-- The merged list before the limit.
unfoldable pub merge_unlimited : Text → List Text → List Text → List Text → List Text
merge_unlimited key remote baseline local =
    if not (text_eq key favorite_order)
    then unique_ids
        (added baseline local ++ (shared_local baseline local ++ kept remote baseline local))
    else (if reordered baseline local
        then unique_ids (local ++ kept remote baseline local)
        else unique_ids (kept remote baseline local ++ added baseline local))

-- `limit ? merged.slice(0, limit) : merged`
unfoldable pub limited : ℕ → List Text → List Text
limited limit merged = if limit == 0 then merged else take limit merged

unfoldable pub merge_prefs_list : ℕ → Text → List Text → List Text → List Text → List Text
unfolding merge_unlimited limited
merge_prefs_list limit key remote baseline local =
    limited limit (merge_unlimited key (unique_ids remote) (unique_ids baseline) (unique_ids local))
