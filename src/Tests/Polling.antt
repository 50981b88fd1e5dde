-- ===== src/Tests/Polling.antt =====
-- A game that the viewer leaves while its statistics are fetched.
use silo_plugin_xtream_libra.Prelude.{
  ℕ, ◌≡◌, refl, Bool, true, false, none, some, List, [], ◌∷◌, arith, inr,
}
use silo_plugin_xtream_libra.Text.{Text, codes, text_eq}
use silo_plugin_xtream_libra.Companion.{empty_buffer, is_recent, push}
use silo_plugin_xtream_libra.Companion.Polling.{
  Fetch, Companion, is_aborted, abort_current, stop_companion, follow_event, fetch_stats, tick,
  start_companion, finish_fetch, fetched, fetch_failed, fetched_lately, Event, starts, ticks,
  answers, waits_for, settle, step, run,
}
use silo_plugin_xtream_libra.Companion.Polling.Origin.{IsOf, run-IsOf}
use silo_plugin_xtream_libra.Companion.Polling.Progress.{awaits, HasAsked, run-asks}

abbrev no_companion : Companion Fetch
no_companion = record {
  buffer = empty_buffer;
  timer = none;
  abort = none;
  generation = 0;
  event = [];
  last_fetch = none;
  pending = false;
  stale = false;
  aborted = [];
  next_abort = 0;
  waiting = [];
}

abbrev request : ℕ → Text → Fetch
request n id = record { generation = 1; id = id; abort = n }

-- The statistics are the request they answer.
abbrev events : List (Event Fetch)
events =
    starts true 1000 true false (codes "g1")
    ∷ ticks 2000 true false (codes "g2")
    ∷ answers (request 0 (codes "g1")) 3000 (some (request 0 (codes "g1")))
    ∷ answers (request 1 (codes "g2")) 4000 (some (request 1 (codes "g2")))
    ∷ []

computes : Bool
unfolding is_recent push is_aborted abort_current stop_companion follow_event fetch_stats tick
    start_companion finish_fetch fetched fetch_failed fetched_lately waits_for settle step run
    awaits text_eq
computes = true

one_shown :
    (run no_companion events).buffer.snapshots
    ≡ record { data_of = request 1 (codes "g2"); at = 4000 } ∷ []
unfolding computes
one_shown = refl

no_companion-IsOf : IsOf (λ d. d) no_companion
unfolding waits_for
no_companion-IsOf = record { shown = tt; numbered = λ n h. ground arith }

run-IsOf_example : IsOf (λ d. d) (run no_companion events)
run-IsOf_example =
    run-IsOf (λ d. d) no_companion events (tt, (tt, (refl, (refl, tt)))) no_companion-IsOf

run-asks_example :
    HasAsked 1
      (codes "g2")
      (run no_companion events)
      (step (run no_companion events) (ticks 40000 true false (codes "g2")))
unfolding computes
run-asks_example =
    run-asks no_companion events 1 40000 (codes "g2") (λ h. ground arith) refl refl
      (inr (refl, refl))
