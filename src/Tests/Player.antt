-- ===== src/Tests/Player.antt =====
-- Runs of the player.
use silo_plugin_xtream_libra.Prelude.{◌≡◌, refl, Bool, true, none, some, List, [], ◌∷◌, ◌||◌, arith}
use silo_plugin_xtream_libra.Text.{codes, text_eq}
use silo_plugin_xtream_libra.Player.Watch.{
  no_watch, stop_current_watch, start_watch, stop_request, watch_started, is_waiting, answered,
  step, run, Event, opens, answers,
}
use silo_plugin_xtream_libra.Player.Watch.Runs.{
  IsValid, holds, given_back, delivers, delivered, run-holds, step-IsValid,
}
use silo_plugin_xtream_libra.Player.Watch.Departures.{run-stop_current_watch}

no_watch-IsValid : IsValid no_watch
no_watch-IsValid = record { past = tt; settled = refl; beating = λ h. ground arith }

-- The viewer switches before the first answer, which arrives last.
abbrev events : List Event
events =
    opens (codes "c1")
    ∷ opens (codes "c2")
    ∷ answers 2 (some (codes "s2"))
    ∷ answers 1 (some (codes "s1"))
    ∷ []

computes : Bool
unfolding stop_current_watch start_watch stop_request watch_started is_waiting answered step run
    given_back delivers delivered text_eq
computes = true

run_end : (run no_watch events).session ≡ some (codes "s2")
unfolding computes
run_end = refl

run-holds_example :
    (holds (codes "s1") (run no_watch events).session
      || given_back (codes "s1") (run no_watch events).sent)
    ≡ true
unfolding computes
run-holds_example = run-holds (codes "s1") no_watch events no_watch-IsValid refl

run-stop_current_watch_example :
    (run
      (stop_current_watch (step no_watch (opens (codes "c1"))))
      (answers 1 (some (codes "s1")) ∷ [])).session
    ≡ none
unfolding computes
run-stop_current_watch_example =
    run-stop_current_watch (step no_watch (opens (codes "c1"))) (answers 1 (some (codes "s1")) ∷ [])
      (step-IsValid no_watch (opens (codes "c1")) no_watch-IsValid) refl
