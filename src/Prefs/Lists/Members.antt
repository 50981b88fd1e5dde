-- ===== src/Prefs/Lists/Members.antt =====
-- Which identifiers a merged list holds.
use silo_plugin_xtream_libra.Prelude.{◌≡◌, not, ◌&&◌, ◌||◌, List, ◌++◌, arith}
use silo_plugin_xtream_libra.Text.{Text, text_eq, is_empty, contains}
use silo_plugin_xtream_libra.Ids.Laws.{contains-append, contains-filter_by, contains-unique_ids}
use silo_plugin_xtream_libra.Prefs.Keys.{favorite_order}
use silo_plugin_xtream_libra.Prefs.Lists.{merge_unlimited, reordered, added, kept, shared_local}

-- The identifiers of a merged list before its limit: those that this tab added, those that the
-- server has and this tab did not remove and, unless the list is an order of favorites that this
-- tab left in its order, those that this tab kept.
pub contains-merge_unlimited :
    (key x : Text) (r b l : List Text)
    → contains x (merge_unlimited key r b l) ≡ (
        not (is_empty x)
        && ((contains x l && not (contains x b))
            || (contains x r && (not (contains x b) || contains x l))
            || ((not (text_eq key favorite_order) || reordered b l)
                && contains x l
                && contains x b)))
unfolding merge_unlimited
contains-merge_unlimited key x r b l = ground (
  arith,
  contains-unique_ids x (added b l ++ (shared_local b l ++ kept r b l)),
  contains-unique_ids x (l ++ kept r b l),
  contains-unique_ids x (kept r b l ++ added b l),
  contains-append x (added b l) (shared_local b l ++ kept r b l),
  contains-append x (shared_local b l) (kept r b l),
  contains-append x l (kept r b l),
  contains-append x (kept r b l) (added b l),
  contains-filter_by (λ v. not (contains v b)) x l,
  contains-filter_by (λ v. contains v b) x l,
  contains-filter_by (λ v. not (contains v b) || contains v l) x r,
)
