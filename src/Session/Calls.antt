-- ===== src/Session/Calls.antt =====
-- No call of `coreFetch` of internal/plugin/ui/app.js sends more than two requests, and none waits
-- for a refresh that is not under way.
use silo_plugin_xtream_libra.Prelude.{
  ℕ, ◌≡◌, ◌≤◌, refl, ap, Bool, true, false, not, ◌&&◌, ◌||◌, ◌⊎◌, Option, none, some, List, [], ◌∷◌,
  map, arith, ◌==◌, if◌then◌else◌, any, is_some, All, length, length-append, Bool-cases,
  Option-cases, inl, inr,
}
use silo_plugin_xtream_libra.Text.{Text, is_empty}
use silo_plugin_xtream_libra.Json.{Fields}
use silo_plugin_xtream_libra.Session.{
  request_headers, Phase, awaits_token, first_sent, awaits_retry, second_sent, over, Call, Session,
  send, share_refresh, core_fetch, answered, is_first_sent, answer_call, retries, answer_request,
  broken_phase, break_call, Refreshed, refresh_core_session, go_on, give_up, throw, is_broken,
  end_refresh, end_current, Event, fetches, answers, breaks, refreshes, tokens, refused, broken,
  step, run,
}

-- The requests of a call in its phase, while a refresh is under way or not
abbrev pub IsInPhase : Bool → ℕ → Phase → Type 0
IsInPhase pending n awaits_token = (n ≡ 0) × (pending ≡ true)
IsInPhase pending n first_sent = n ≡ 1
IsInPhase pending n awaits_retry = (n ≡ 1) × (pending ≡ true)
IsInPhase pending n second_sent = n ≡ 2
IsInPhase pending n (over e) = n ≤ 2

abbrev pub IsCall : Bool → Call → Type 0
IsCall pending c = IsInPhase pending (length c.sent) c.phase

abbrev pub IsValid : Session → Type 0
IsValid s = All (IsCall (is_some s.refreshing)) s.calls

pending-IsInPhase :
    (pending : Bool) (n : ℕ) (p : Phase) → IsInPhase pending n p → IsInPhase true n p
pending-IsInPhase pending n awaits_token h = (h.0, refl)
pending-IsInPhase pending n first_sent h = h
pending-IsInPhase pending n awaits_retry h = (h.0, refl)
pending-IsInPhase pending n second_sent h = h
pending-IsInPhase pending n (over e) h = h

pending-All : (pending : Bool) (cs : List Call) → All (IsCall pending) cs → All (IsCall true) cs
pending-All pending [] h = tt
pending-All pending (c ∷ cs) h =
    (pending-IsInPhase pending (length c.sent) c.phase h.0, pending-All pending cs h.1)

share_refresh-pending : (s : Session) → is_some (share_refresh s).refreshing ≡ true
share_refresh-pending s = unfold share_refresh in ground arith

share_refresh-calls : (s : Session) → (share_refresh s).calls ≡ s.calls
share_refresh-calls s = unfold share_refresh in ground arith

IsValid-if :
    (b : Bool) (s t : Session)
    → (b ≡ true → IsValid s)
    → (b ≡ false → IsValid t)
    → IsValid (if b then s else t)
IsValid-if true s t h k = h refl
IsValid-if false s t h k = k refl

shared-IsValid :
    (s : Session) → IsValid s → All (IsCall (is_some (share_refresh s).refreshing)) s.calls
shared-IsValid s h = rw (share_refresh-pending s) (pending-All (is_some s.refreshing) s.calls h)

core_fetch-IsValid :
    (id : ℕ) (headers : Fields) (s : Session) → IsValid s → IsValid (core_fetch id headers s)
unfolding core_fetch send
core_fetch-IsValid id headers s h =
    IsValid-if (is_empty s.token && not (is_empty s.refresh_token)) _ _
      (λ e. ((refl, share_refresh-pending s), rw (share_refresh-calls s) (shared-IsValid s h)))
      (λ e. (refl, h))

answered-IsInPhase :
    (pending : Bool) (m n : ℕ) (p : Phase)
    → IsInPhase pending m p
    → ((n == 401) && is_first_sent p ≡ false) ⊎ (pending ≡ true)
    → IsInPhase pending m (answered n p)
unfolding answered is_first_sent
answered-IsInPhase pending m n awaits_token h k = h
answered-IsInPhase pending m n awaits_retry h k = h
answered-IsInPhase pending m n (over e) h k = h
answered-IsInPhase pending m n second_sent h k = omega (arith, h)
answered-IsInPhase pending m n first_sent h k = elim (Bool-cases (n == 401)) [
  | inl e ↦ rw e (h, ground (arith, k, e))
  | inr e ↦ rw e (omega (arith, h))
]

-- A response leaves a call in order, if a refresh that it waits for is under way.
answer_call-IsCall :
    (pending : Bool) (id n : ℕ) (c : Call)
    → IsCall pending c
    → (retries id n c ≡ false) ⊎ (pending ≡ true)
    → IsCall pending (answer_call id n c)
unfolding answer_call retries
answer_call-IsCall pending id n c h k = elim (Bool-cases (c.id == id)) [
  | inr e ↦ rw e h
  | inl e ↦ rw e (answered-IsInPhase pending (length c.sent) n c.phase h (ground (arith, k, e)))
]

answered-All :
    (pending : Bool) (id n : ℕ) (cs : List Call)
    → All (IsCall pending) cs
    → (any (retries id n) cs ≡ false) ⊎ (pending ≡ true)
    → All (IsCall pending) (map (answer_call id n) cs)
answered-All pending id n [] h k = tt
answered-All pending id n (c ∷ cs) h k = (
  answer_call-IsCall pending id n c h.0 (ground (arith, k)),
  answered-All pending id n cs h.1 (ground (arith, k)),
)

answer_request-IsValid : (id n : ℕ) (s : Session) → IsValid s → IsValid (answer_request id n s)
unfolding answer_request
answer_request-IsValid id n s h = elim (Bool-cases (any (retries id n) s.calls)) [
  | inl e ↦ rw e (
      answered-All (is_some (share_refresh s).refreshing) id n s.calls (shared-IsValid s h)
        (inr (share_refresh-pending s)))
  | inr e ↦ rw e (answered-All (is_some s.refreshing) id n s.calls h (inl e))
]

broken-IsInPhase :
    (pending : Bool) (m : ℕ) (p : Phase)
    → IsInPhase pending m p
    → IsInPhase pending m (broken_phase p)
unfolding broken_phase
broken-IsInPhase pending m awaits_token h = h
broken-IsInPhase pending m awaits_retry h = h
broken-IsInPhase pending m (over e) h = h
broken-IsInPhase pending m first_sent h = omega (arith, h)
broken-IsInPhase pending m second_sent h = omega (arith, h)

broken-All :
    (pending : Bool) (id : ℕ) (cs : List Call)
    → All (IsCall pending) cs
    → All (IsCall pending) (map (break_call id) cs)
unfolding break_call
broken-All pending id [] h = tt
broken-All pending id (c ∷ cs) h = elim (Bool-cases (c.id == id)) [
  | inl e ↦
      rw e (broken-IsInPhase pending (length c.sent) c.phase h.0, broken-All pending id cs h.1)
  | inr e ↦ rw e (h.0, broken-All pending id cs h.1)
]

map-All :
    (pending : Bool) (f : Call → Call) (cs : List Call)
    → ((c : Call) → IsCall pending c → IsCall false (f c))
    → All (IsCall pending) cs
    → All (IsCall false) (map f cs)
map-All pending f [] g h = tt
map-All pending f (c ∷ cs) g h = (g c h.0, map-All pending f cs g h.1)

-- The end of a refresh leaves no call that waits for one.
module _ (pending : Bool) (s : Session) where
  call_of : ℕ → Fields → List Fields → Phase → Call
  call_of id headers sent p = record { id = id; headers = headers; phase = p; sent = sent }

  go_on-fields :
      (id : ℕ) (headers : Fields) (sent : List Fields) (p : Phase)
      → IsInPhase pending (length sent) p
      → IsCall false (go_on s p (call_of id headers sent p))
  unfolding go_on send call_of
  go_on-fields id headers sent awaits_token h =
      omega (arith, h.0, length-append sent (request_headers s headers ∷ []))
  go_on-fields id headers sent first_sent h = h
  go_on-fields id headers sent awaits_retry h =
      omega (arith, h.0, length-append sent (request_headers s headers ∷ []))
  go_on-fields id headers sent second_sent h = h
  go_on-fields id headers sent (over e) h = h

  go_on-IsCall : (c : Call) → IsCall pending c → IsCall false (go_on s c.phase c)
  unfolding call_of
  go_on-IsCall c h = go_on-fields c.id c.headers c.sent c.phase h

  give_up-fields :
      (id : ℕ) (headers : Fields) (sent : List Fields) (p : Phase)
      → IsInPhase pending (length sent) p
      → IsCall false (give_up s p (call_of id headers sent p))
  unfolding give_up send call_of
  give_up-fields id headers sent awaits_token h =
      omega (arith, h.0, length-append sent (request_headers s headers ∷ []))
  give_up-fields id headers sent first_sent h = h
  give_up-fields id headers sent awaits_retry h = omega (arith, h.0)
  give_up-fields id headers sent second_sent h = h
  give_up-fields id headers sent (over e) h = h

  give_up-IsCall : (c : Call) → IsCall pending c → IsCall false (give_up s c.phase c)
  unfolding call_of
  give_up-IsCall c h = give_up-fields c.id c.headers c.sent c.phase h

  throw-fields :
      (id : ℕ) (headers : Fields) (sent : List Fields) (p : Phase)
      → IsInPhase pending (length sent) p
      → IsCall false (throw p (call_of id headers sent p))
  unfolding throw send call_of
  throw-fields id headers sent awaits_token h = omega (arith, h.0)
  throw-fields id headers sent first_sent h = h
  throw-fields id headers sent awaits_retry h = omega (arith, h.0)
  throw-fields id headers sent second_sent h = h
  throw-fields id headers sent (over e) h = h

  throw-IsCall : (c : Call) → IsCall pending c → IsCall false (throw c.phase c)
  unfolding call_of
  throw-IsCall c h = throw-fields c.id c.headers c.sent c.phase h

refresh_core_session-refreshing :
    (used : Text) (result : Refreshed) (s next : Session)
    → refresh_core_session used result s ≡ some next
    → next.refreshing ≡ s.refreshing
unfolding refresh_core_session
refresh_core_session-refreshing used (tokens access fresh) s next h =
    elim (Bool-cases (is_empty used || is_empty access)) [
      | inl e ↦ absurd (cc (h, ap (λ b. if b then none else some kept) e))
      | inr e ↦ cc (h, ap (λ b. if b then none else some kept) e)
    ]
  where
    kept : Session
    kept = record s {
      token = access;
      refresh_token = (if is_empty fresh then s.refresh_token else fresh);
    }
refresh_core_session-refreshing used refused s next h = cc
refresh_core_session-refreshing used broken s next h = cc

end_refresh-IsValid :
    (used : Text) (result : Refreshed) (s : Session)
    → IsValid s
    → IsValid (end_refresh used result s)
unfolding end_refresh request_headers
end_refresh-IsValid used result s h = elim (Bool-cases (is_broken used result)) [
  | inl e ↦ rw e (map-All pending _ s.calls (throw-IsCall pending s) h)
  | inr e ↦ elim (Option-cases (refresh_core_session used result free)) [
    | inl n ↦ rw (e, n) (map-All pending _ s.calls (give_up-IsCall pending free) h)
    | inr (next, n) ↦
        rw (e, n, refresh_core_session-refreshing used result free next n)
          (map-All pending _ s.calls (go_on-IsCall pending next) h)
  ]
]
  where
    pending : Bool
    pending = is_some s.refreshing

    free : Session
    free = record s { refreshing = none }

end_current-IsValid :
    (current : Option Text) (result : Refreshed) (s : Session)
    → IsValid s
    → IsValid (end_current current result s)
unfolding end_current
end_current-IsValid none result s h = h
end_current-IsValid (some used) result s h = end_refresh-IsValid used result s h

step-IsValid : (e : Event) (s : Session) → IsValid s → IsValid (step e s)
unfolding step
step-IsValid (fetches id headers) s h = core_fetch-IsValid id headers s h
step-IsValid (answers id n) s h = answer_request-IsValid id n s h
step-IsValid (breaks id) s h = broken-All (is_some s.refreshing) id s.calls h
step-IsValid (refreshes result) s h = end_current-IsValid s.refreshing result s h

-- Along every run from a session whose calls are in order, they stay in order: a call that waits
-- has sent no request, or one before a retry, and the shared refresh is under way; a call whose
-- request is out has sent one or two; and a call that is over has sent at most two.
pub run-IsValid : (es : List Event) (s : Session) → IsValid s → IsValid (run es s)
unfolding run
run-IsValid [] s h = h
run-IsValid (e ∷ es) s h = run-IsValid es (step e s) (step-IsValid e s h)
