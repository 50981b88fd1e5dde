-- ===== src/Session.antt =====
-- The requests to the server with their access token: `coreRequestOptions`, `refreshCoreSession`
-- and `coreFetch` of internal/plugin/ui/app.js. Each call of `coreFetch` is cut where it waits: for
-- the shared refresh, or for the answer to its request. What the server answers is given by events.
pub mod Calls
use silo_plugin_xtream_libra.Prelude.{
  ℕ, Bool, true, false, not, ◌&&◌, ◌||◌, Option, none, some, List, [], ◌∷◌, ◌++◌, map, ◌==◌,
  if◌then◌else◌, any, is_some,
}
use silo_plugin_xtream_libra.Text.{Text, codes, is_empty}
use silo_plugin_xtream_libra.Json.{str, Fields, put}

-- How a call ended: with the status of a response, or with an exception
pub data End : Type 0 where
  status : ℕ → End
  thrown : End

-- Where a call is: before its first request, after it, before the second one, after it, or over
pub data Phase : Type 0 where
  awaits_token first_sent awaits_retry second_sent : Phase
  over : End → Phase

-- A call with its own headers, and the headers of the requests it made
pub record Call : Type 0 where
  pub id : ℕ
  pub headers : Fields
  pub phase : Phase
  pub sent : List Fields

-- `coreAccessToken`, the stored values, `coreRefreshPromise` with the token that its request has
-- (none is sent for the empty one), and the calls
pub record Session : Type 0 where
  pub token : Text
  pub refresh_token : Text
  pub profile_id : Text
  pub profile_token : Text
  pub refreshing : Option Text
  pub calls : List Call

put_given : Text → Text → Text → Fields → Fields
put_given name before value headers =
    if is_empty value then headers else put name (str (before ++ value)) headers

-- The headers of `coreRequestOptions`
unfoldable pub request_headers : Session → Fields → Fields
unfolding put_given
request_headers s headers = put_given (codes "X-Profile-Token") [] s.profile_token (
    put_given (codes "X-Profile-Id") [] s.profile_id
      (put_given (codes "Authorization") (codes "Bearer ") s.token headers))

-- A request in the name of a call
unfoldable pub send : Session → Phase → Call → Call
send s next c = record c { phase = next; sent = c.sent ++ (request_headers s c.headers ∷ []) }

-- `if (!coreRefreshPromise) coreRefreshPromise = refreshCoreSession()`
unfoldable pub share_refresh : Session → Session
share_refresh s = if is_some s.refreshing then s else record s { refreshing = some s.refresh_token }

-- `coreFetch` up to its first wait
unfoldable pub core_fetch : ℕ → Fields → Session → Session
core_fetch id headers s =
    let new : Call = record { id = id; headers = headers; phase = awaits_token; sent = [] } in
    let waiting = share_refresh s in
    if is_empty s.token && not (is_empty s.refresh_token)
    then record waiting { calls = new ∷ waiting.calls }
    else record s { calls = send s first_sent new ∷ s.calls }

-- A response to the request of a call
unfoldable pub answered : ℕ → Phase → Phase
answered n first_sent = if n == 401 then awaits_retry else over (status n)
answered n second_sent = over (status n)
answered n awaits_token = awaits_token
answered n awaits_retry = awaits_retry
answered n (over e) = over e

unfoldable pub is_first_sent : Phase → Bool
is_first_sent first_sent = true
is_first_sent _ = false

unfoldable pub answer_call : ℕ → ℕ → Call → Call
unfolding answered
answer_call id n c = if c.id == id then record c { phase = answered n c.phase } else c

-- The call waits for a refresh from now on.
unfoldable pub retries : ℕ → ℕ → Call → Bool
unfolding is_first_sent
retries id n c = c.id == id && (n == 401 && is_first_sent c.phase)

unfoldable pub answer_request : ℕ → ℕ → Session → Session
unfolding answer_call retries share_refresh
answer_request id n s =
    let ready = (if any (retries id n) s.calls then share_refresh s else s) in
    record ready { calls = map (answer_call id n) s.calls }

-- A request that failed
unfoldable pub broken_phase : Phase → Phase
broken_phase first_sent = over thrown
broken_phase second_sent = over thrown
broken_phase awaits_token = awaits_token
broken_phase awaits_retry = awaits_retry
broken_phase (over e) = over e

unfoldable pub break_call : ℕ → Call → Call
unfolding broken_phase
break_call id c = if c.id == id then record c { phase = broken_phase c.phase } else c

unfoldable pub break_request : ℕ → Session → Session
unfolding break_call
break_request id s = record s { calls = map (break_call id) s.calls }

-- What the refresh comes to: tokens, of which each may be empty, no success, or an exception
pub data Refreshed : Type 0 where
  tokens : Text → Text → Refreshed
  refused broken : Refreshed

-- The tokens after a refresh for a request with a refresh token, or none if it gives `false`.
unfoldable pub refresh_core_session : Text → Refreshed → Session → Option Session
refresh_core_session used (tokens access next) s =
    if is_empty used || is_empty access
    then none
    else some (record s {
      token = access;
      refresh_token = (if is_empty next then s.refresh_token else next);
    })
refresh_core_session used refused s = none
refresh_core_session used broken s = none

-- The waiting calls go on after a refresh that succeeded,
unfoldable pub go_on : Session → Phase → Call → Call
unfolding send
go_on s awaits_token c = send s first_sent c
go_on s awaits_retry c = send s second_sent c
go_on s _ c = c

-- after one that did not,
unfoldable pub give_up : Session → Phase → Call → Call
unfolding send
give_up s awaits_token c = send s first_sent c
give_up s awaits_retry c = record c { phase = over (status 401) }
give_up s _ c = c

-- and after an exception.
unfoldable pub throw : Phase → Call → Call
throw awaits_token c = record c { phase = over thrown }
throw awaits_retry c = record c { phase = over thrown }
throw _ c = c

is_broken : Text → Refreshed → Bool
is_broken used broken = not (is_empty used)
is_broken used _ = false

-- The end of the refresh: `coreRefreshPromise = null`, and the calls that waited for it go on.
unfoldable pub end_refresh : Text → Refreshed → Session → Session
unfolding go_on give_up throw is_broken refresh_core_session
end_refresh used result s =
    let free = record s { refreshing = none } in
    if is_broken used result
    then record free { calls = map (λ c. throw c.phase c) s.calls }
    else (elim (refresh_core_session used result free) [
      | none ↦ record free { calls = map (λ c. give_up free c.phase c) s.calls }
      | some next ↦ record next { calls = map (λ c. go_on next c.phase c) s.calls }
    ])

-- The refresh that is under way ends, if there is one.
unfoldable pub end_current : Option Text → Refreshed → Session → Session
unfolding end_refresh
end_current none result s = s
end_current (some used) result s = end_refresh used result s

pub data Event : Type 0 where
  fetches : ℕ → Fields → Event
  answers : ℕ → ℕ → Event
  breaks : ℕ → Event
  refreshes : Refreshed → Event

unfoldable pub step : Event → Session → Session
unfolding core_fetch answer_request break_request end_current
step (fetches id headers) s = core_fetch id headers s
step (answers id n) s = answer_request id n s
step (breaks id) s = break_request id s
step (refreshes result) s = end_current s.refreshing result s

unfoldable pub run : List Event → Session → Session
unfolding step
run [] s = s
run (e ∷ es) s = run es (step e s)
