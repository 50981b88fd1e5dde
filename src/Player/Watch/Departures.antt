-- ===== src/Player/Watch/Departures.antt =====
-- Once the viewer left, no late answer brings a session back.
use silo_plugin_xtream_libra.Prelude.{
  ℕ, suc, ◌≤◌, ◌≡◌, refl, Bool, true, false, Option, none, List, [], ◌∷◌, ◌==◌, ==_iff, arith, All,
  Bool-cases, Option-cases, inl, inr,
}
use silo_plugin_xtream_libra.Text.{Text}
use silo_plugin_xtream_libra.Player.Watch.{
  Watch, stop_current_watch, is_waiting, answered, watch_started, Event, opens, leaves, answers,
  fails, step, run,
}
use silo_plugin_xtream_libra.Player.Watch.Runs.{IsValid}

abbrev pub opens_none : List Event → Bool
opens_none [] = true
opens_none (opens channel ∷ es) = false
opens_none (_ ∷ es) = opens_none es

-- No session, and every unanswered request is of an earlier attempt.
abbrev IsIdle : Watch → Type 0
IsIdle w = (w.session ≡ none) × All (λ a. suc a ≤ w.attempt) w.waiting

before-suc :
    (n : ℕ) (attempts : List ℕ) → All (λ a. suc a ≤ n) attempts → All (λ a. suc a ≤ suc n) attempts
before-suc n [] p = tt
before-suc n (a ∷ others) p = (omega (arith, p.0), before-suc n others p.1)

past-before :
    (n : ℕ) (attempts : List ℕ) → All (λ a. a ≤ n) attempts → All (λ a. suc a ≤ suc n) attempts
past-before n [] p = tt
past-before n (a ∷ others) p = (omega (arith, p.0), past-before n others p.1)

before-answered :
    (n attempt : ℕ) (attempts : List ℕ)
    → All (λ a. suc a ≤ n) attempts
    → All (λ a. suc a ≤ n) (answered attempt attempts)
unfolding answered
before-answered n attempt [] p = tt
before-answered n attempt (a ∷ others) p = ground (arith, before-answered n attempt others)

is_waiting-before :
    (n : ℕ) (attempts : List ℕ) → All (λ a. suc a ≤ n) attempts → is_waiting n attempts ≡ false
unfolding is_waiting
is_waiting-before n [] p = refl
is_waiting-before n (a ∷ others) p = ground (arith, is_waiting-before n others p.1)

leave-IsIdle : (w : Watch) → IsIdle w → IsIdle (stop_current_watch w)
unfolding stop_current_watch
leave-IsIdle w i = rw (i.0, stop_current_watch) (i.0, before-suc w.attempt w.waiting i.1)

answer-IsIdle :
    (w : Watch) (attempt : ℕ) (o : Option Text) → IsIdle w → IsIdle (step w (answers attempt o))
unfolding step watch_started
answer-IsIdle w attempt o i = elim (Bool-cases (is_waiting attempt w.waiting)) [
  | inl due ↦ rw due (elim (Bool-cases (attempt == w.attempt)) [
    | inl now ↦
        absurd (ground (arith, ==_iff attempt w.attempt, is_waiting-before w.attempt w.waiting i.1))
    | inr over ↦ rw over (i.0, before-answered w.attempt attempt w.waiting i.1)
  ])
  | inr other ↦ rw other i
]

idle-run :
    (w : Watch) (es : List Event) → opens_none es ≡ true → IsIdle w → (run w es).session ≡ none
unfolding run step
idle-run w [] q i = i.0
idle-run w (opens channel ∷ es) q i = ground arith
idle-run w (leaves ∷ es) q i = idle-run (stop_current_watch w) es q (leave-IsIdle w i)
idle-run w (answers attempt o ∷ es) q i =
    idle-run (step w (answers attempt o)) es q (answer-IsIdle w attempt o i)
idle-run w (fails attempt ∷ es) q i =
    idle-run (step w (fails attempt)) es q (i.0, before-answered w.attempt attempt w.waiting i.1)

stop_current_watch-IsIdle : (w : Watch) → IsValid w → IsIdle (stop_current_watch w)
unfolding stop_current_watch
stop_current_watch-IsIdle w v = elim (Option-cases w.session) [
  | inl e ↦ rw (e, stop_current_watch) (e, past-before w.attempt w.waiting v.past)
  | inr (id, e) ↦ rw (e, stop_current_watch) (refl, past-before w.attempt w.waiting v.past)
]

-- Once the viewer left a well-formed player, no session becomes the player's until a channel is
-- opened again, whichever late answers arrive.
pub run-stop_current_watch :
    (w : Watch) (es : List Event)
    → IsValid w
    → opens_none es ≡ true
    → (run (stop_current_watch w) es).session ≡ none
run-stop_current_watch w es v q =
    idle-run (stop_current_watch w) es q (stop_current_watch-IsIdle w v)
