-- ===== src/Player/Watch.antt =====
-- The player's watch session, which reserves a provider connection: `stopCurrentWatch` and
-- `startWatch` of internal/plugin/ui/player.js. The answer of the server to a request for a session is a
-- handler of its own.
pub mod Runs
pub mod Departures
use silo_plugin_xtream_libra.Prelude.{
  ℕ, suc, Bool, true, false, ◌||◌, Option, none, some, List, [], ◌∷◌, ◌==◌, if◌then◌else◌,
}
use silo_plugin_xtream_libra.Text.{Text}

-- What is asked of the server.
pub data Request : Type 0 where
  watch_start : (attempt : ℕ) (channel : Text) → Request
  watch_stop : (session : Text) → Request

-- `watchAttempt`, `currentSession`, `heartbeat` of the state, the requests sent and the attempts whose
-- request is unanswered.
pub record Watch : Type 0 where
  pub attempt : ℕ
  pub session : Option Text
  pub heartbeat : Bool
  pub sent : List Request
  pub waiting : List ℕ

abbrev pub no_watch : Watch
no_watch = record { attempt = 0; session = none; heartbeat = false; sent = []; waiting = [] }

unfoldable pub stop_request : Option Text → List Request → List Request
stop_request none rs = rs
stop_request (some id) rs = watch_stop id ∷ rs

-- `stopCurrentWatch`
unfoldable pub stop_current_watch : Watch → Watch
stop_current_watch w = elim w.session [
  | none ↦ record w { attempt = suc w.attempt }
  | some id ↦ record w {
    attempt = suc w.attempt;
    session = none;
    heartbeat = false;
    sent = watch_stop id ∷ w.sent;
  }
]

-- `startWatch` up to its request.
unfoldable pub start_watch : Text → Watch → Watch
start_watch channel w = record w {
  attempt = suc w.attempt;
  session = none;
  sent = watch_start (suc w.attempt) channel ∷ stop_request w.session w.sent;
  waiting = suc w.attempt ∷ w.waiting;
}

unfoldable pub is_waiting : ℕ → List ℕ → Bool
is_waiting attempt [] = false
is_waiting attempt (a ∷ others) = a == attempt || is_waiting attempt others

unfoldable pub answered : ℕ → List ℕ → List ℕ
answered attempt [] = []
answered attempt (a ∷ others) =
    let rest = answered attempt others in if a == attempt then rest else a ∷ rest

-- The answer to the request of an attempt: `startWatch` from its answer on.
unfoldable pub watch_started : ℕ → Option Text → Watch → Watch
watch_started attempt session w =
    if attempt == w.attempt
    then record w { session = session; heartbeat = true }
    else record w { sent = stop_request session w.sent }

-- What happens to the session: the viewer opens a channel or leaves, the network answers or fails.
pub data Event : Type 0 where
  opens : (channel : Text) → Event
  leaves : Event
  answers : ℕ → Option Text → Event
  fails : ℕ → Event

unfoldable pub step : Watch → Event → Watch
step w (opens channel) = start_watch channel w
step w leaves = stop_current_watch w
step w (answers attempt session) =
    if is_waiting attempt w.waiting
    then watch_started attempt session (record w { waiting = answered attempt w.waiting })
    else w
step w (fails attempt) = record w { waiting = answered attempt w.waiting }

unfoldable pub run : Watch → List Event → Watch
run w [] = w
run w (e ∷ es) = run (step w e) es
