-- ===== src/Player/Watch/Runs.antt =====
-- No order of channel switches, departures and late answers leaks the player's provider connection.
use silo_plugin_xtream_libra.Prelude.{
  ℕ, suc, ◌≤◌, ◌≡◌, refl, Bool, true, false, ◌||◌, ◌&&◌, Option, none, some, List, [], ◌∷◌, ◌==◌,
  ==_iff, if◌then◌else◌, arith, is_some, All, Bool-cases, Option-cases, inl, inr,
}
use silo_plugin_xtream_libra.Text.{Text, text_eq}
use silo_plugin_xtream_libra.Player.Watch.{
  Request, watch_start, watch_stop, Watch, stop_request, stop_current_watch, start_watch,
  is_waiting, answered, watch_started, Event, opens, leaves, answers, fails, step, run,
}

-- No request of a later attempt waits, the request of the session's attempt does not, and a
-- session has a heartbeat.
pub record IsValid (w : Watch) : Type 0 where
  pub past : All (λ a. a ≤ w.attempt) w.waiting
  pub settled : (is_some w.session && is_waiting w.attempt w.waiting) ≡ false
  pub beating : is_some w.session ≡ true → w.heartbeat ≡ true

abbrev pub holds : Text → Option Text → Bool
holds x none = false
holds x (some id) = text_eq id x

unfoldable pub given_back : Text → List Request → Bool
given_back x [] = false
given_back x (watch_start attempt channel ∷ rs) = given_back x rs
given_back x (watch_stop id ∷ rs) = text_eq id x || given_back x rs

abbrev kept : Text → Watch → Bool
kept x w = holds x w.session || given_back x w.sent

given_back-stop_request :
    (x : Text) (o : Option Text) (rs : List Request)
    → given_back x (stop_request o rs) ≡ (holds x o || given_back x rs)
unfolding stop_request given_back
given_back-stop_request x none rs = refl
given_back-stop_request x (some id) rs = refl

past-suc : (n : ℕ) (attempts : List ℕ) → All (λ a. a ≤ n) attempts → All (λ a. a ≤ suc n) attempts
past-suc n [] p = tt
past-suc n (a ∷ others) p = (omega (arith, p.0), past-suc n others p.1)

past-answered :
    (n attempt : ℕ) (attempts : List ℕ)
    → All (λ a. a ≤ n) attempts
    → All (λ a. a ≤ n) (answered attempt attempts)
unfolding answered
past-answered n attempt [] p = tt
past-answered n attempt (a ∷ others) p = ground (arith, past-answered n attempt others)

is_waiting-answered :
    (a attempt : ℕ) (attempts : List ℕ)
    → is_waiting a (answered attempt attempts)
      ≡ (if a == attempt then false else is_waiting a attempts)
unfolding is_waiting answered
is_waiting-answered a attempt [] = ground arith
is_waiting-answered a attempt (b ∷ others) = ground (arith, is_waiting-answered a attempt others)

answered-IsValid :
    (w : Watch) (attempt : ℕ)
    → IsValid w
    → IsValid (record w { waiting = answered attempt w.waiting })
answered-IsValid w attempt v = record {
  past = past-answered w.attempt attempt w.waiting v.past;
  settled = ground (arith, v.settled, is_waiting-answered w.attempt attempt w.waiting);
  beating = v.beating;
}

watch_started-IsValid :
    (w : Watch) (attempt : ℕ) (o : Option Text)
    → IsValid w
    → is_waiting attempt w.waiting ≡ false
    → IsValid (watch_started attempt o w)
unfolding watch_started
watch_started-IsValid w attempt o v done = elim (Bool-cases (attempt == w.attempt)) [
  | inl now ↦ rw now (record {
    past = v.past;
    settled = ground (arith, ==_iff attempt w.attempt);
    beating = λ _. refl;
  })
  | inr over ↦ rw over (record { past = v.past; settled = v.settled; beating = v.beating })
]

-- Every event keeps the player well formed: no request of a later attempt waits, a session's own
-- request is answered, and a session is kept alive by the heartbeat.
pub step-IsValid : (w : Watch) (e : Event) → IsValid w → IsValid (step w e)
unfolding step start_watch stop_current_watch
step-IsValid w (opens channel) v = record {
  past = (omega arith, past-suc w.attempt w.waiting v.past);
  settled = refl;
  beating = λ h. ground arith;
}
step-IsValid w leaves v = elim (Option-cases w.session) [
  | inl e ↦
      rw (e, stop_current_watch)
        (record {
          past = past-suc w.attempt w.waiting v.past;
          settled = ground arith;
          beating = λ h. ground arith;
        })
  | inr (id, e) ↦
      rw (e, stop_current_watch)
        (record {
          past = past-suc w.attempt w.waiting v.past;
          settled = refl;
          beating = λ h. ground arith;
        })
]
step-IsValid w (answers attempt o) v = elim (Bool-cases (is_waiting attempt w.waiting)) [
  | inl due ↦ rw due (
      watch_started-IsValid (record w { waiting = answered attempt w.waiting }) attempt o
        (answered-IsValid w attempt v)
        (ground (arith, is_waiting-answered attempt attempt w.waiting)))
  | inr other ↦ rw other v
]
step-IsValid w (fails attempt) v = answered-IsValid w attempt v

kept-step :
    (x : Text) (w : Watch) (e : Event) → IsValid w → kept x w ≡ true → kept x (step w e) ≡ true
unfolding step start_watch stop_current_watch given_back watch_started
kept-step x w (opens channel) v h = ground (arith, given_back-stop_request x w.session w.sent)
kept-step x w leaves v h = elim (Option-cases w.session) [
  | inl e ↦ rw (e, stop_current_watch) (ground arith)
  | inr (id, e) ↦ rw (e, stop_current_watch) (ground arith)
]
kept-step x w (answers attempt o) v h = elim (Bool-cases (is_waiting attempt w.waiting)) [
  | inl due ↦ rw due (elim (Bool-cases (attempt == w.attempt)) [
    | inl now ↦ rw now (elim (Option-cases w.session) [
      | inl e ↦ ground arith
      | inr (id, e) ↦ ground (arith, v.settled, ==_iff attempt w.attempt)
    ])
    | inr over ↦ rw over (ground (arith, given_back-stop_request x o w.sent))
  ])
  | inr other ↦ rw other h
]
kept-step x w (fails attempt) v h = h

-- The event answers an unanswered request with the session.
unfoldable pub delivers : Text → Watch → Event → Bool
delivers x w (answers attempt o) = is_waiting attempt w.waiting && holds x o
delivers x w _ = false

unfoldable pub delivered : Text → Watch → List Event → Bool
delivered x w [] = false
delivered x w (e ∷ es) = delivers x w e || delivered x (step w e) es

kept-delivers :
    (x : Text) (w : Watch) (e : Event) → delivers x w e ≡ true → kept x (step w e) ≡ true
unfolding step delivers watch_started
kept-delivers x w (answers attempt o) h = ground (arith, given_back-stop_request x o w.sent)
kept-delivers x w (opens channel) h = ground arith
kept-delivers x w leaves h = ground arith
kept-delivers x w (fails attempt) h = ground arith

kept-run :
    (x : Text) (w : Watch) (es : List Event)
    → IsValid w
    → kept x w ≡ true
    → kept x (run w es) ≡ true
unfolding run
kept-run x w [] v h = h
kept-run x w (e ∷ es) v h = kept-run x (step w e) es (step-IsValid w e v) (kept-step x w e v h)

-- Along every run of a well-formed player, every watch session that the server gave in answer to a
-- request is the player's session at the end or was given back.
pub run-holds :
    (x : Text) (w : Watch) (es : List Event)
    → IsValid w
    → delivered x w es ≡ true
    → (holds x (run w es).session || given_back x (run w es).sent) ≡ true
unfolding run delivered
run-holds x w [] v h = ground arith
run-holds x w (e ∷ es) v h = elim (Bool-cases (delivers x w e)) [
  | inl now ↦ kept-run x (step w e) es (step-IsValid w e v) (kept-delivers x w e now)
  | inr later ↦ run-holds x (step w e) es (step-IsValid w e v) (ground arith)
]
