-- ===== src/Tests/Multiview.antt =====
-- Runs of a multiview.
use silo_plugin_xtream_libra.Prelude.{
  ◌≡◌, refl, Bool, true, some, List, [], ◌∷◌, length, ◌||◌, arith,
}
use silo_plugin_xtream_libra.Text.{codes, text_eq}
use silo_plugin_xtream_libra.Multiview.{
  no_tiles, update_tile, find_ref, tile_by_id, destroy_media, reset_media, start_watch,
  clear_pending, give_back, is_waiting, answered, watch_started, watch_failed, stop_requests,
  stop_all_requests, stop_all, shown_tiles, settled_active, render_page, connection_limit, fast,
  tile_by_channel, shows, new_tile, add_channel, focus_tile, remove_tile, Event, adds, removes,
  attaches, answers, step,
}
use silo_plugin_xtream_libra.Multiview.Invariant.{IsValid, has_id}
use silo_plugin_xtream_libra.Multiview.Leases.{held, given_back}
use silo_plugin_xtream_libra.Multiview.Steps.{step-IsValid}
use silo_plugin_xtream_libra.Multiview.Runs.{
  AreFresh, run, delivers, delivered, run-kept, run-stop_all,
}

no_tiles-IsValid : IsValid no_tiles
no_tiles-IsValid = record { each = tt; distinct = tt; few = omega arith }

-- A tile is removed while its watch request is in flight; another one gets its session.
abbrev events : List Event
events =
    adds fast (codes "mv-1") (codes "c1")
    ∷ attaches 0
    ∷ removes (codes "mv-1")
    ∷ adds fast (codes "mv-2") (codes "c2")
    ∷ attaches 1
    ∷ answers 1 1 (some (codes "s2"))
    ∷ answers 0 1 (some (codes "s1"))
    ∷ []

computes : Bool
unfolding update_tile find_ref tile_by_id destroy_media reset_media start_watch clear_pending
    give_back is_waiting answered watch_started watch_failed stop_requests stop_all_requests
    stop_all shown_tiles settled_active render_page connection_limit tile_by_channel shows new_tile
    add_channel focus_tile remove_tile step held given_back run delivers delivered has_id text_eq
computes = true

events-AreFresh : AreFresh no_tiles events
unfolding computes
events-AreFresh = ((refl, refl), (tt, (tt, ((refl, refl), (tt, (tt, (tt, tt)))))))

two_tiles : length (run no_tiles events).tiles ≡ 1
unfolding computes
two_tiles = refl

step-IsValid_example : IsValid (step no_tiles (adds fast (codes "mv-1") (codes "c1")))
unfolding computes
step-IsValid_example =
    step-IsValid no_tiles (adds fast (codes "mv-1") (codes "c1")) (refl, refl) no_tiles-IsValid

run-kept_example :
    (held (codes "s1") (run no_tiles events).tiles
      || given_back (codes "s1") (run no_tiles events).sent)
    ≡ true
unfolding computes
run-kept_example = run-kept (codes "s1") no_tiles events events-AreFresh no_tiles-IsValid refl

run-stop_all_example :
    (given_back (codes "s2") (stop_all (run no_tiles events)).sent ≡ true)
    × ((stop_all (run no_tiles events)).tiles ≡ [])
unfolding computes
run-stop_all_example =
    run-stop_all (codes "s2") no_tiles events events-AreFresh no_tiles-IsValid refl
