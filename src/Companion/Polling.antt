-- ===== src/Companion/Polling.antt =====
-- The polling of game statistics: `startSportsCompanion`, its `tick` and `stopSportsCompanion` of
-- internal/plugin/ui/sports_companion.js. The answer to a request for statistics is an event of its own.
pub mod Origin
pub mod Progress
use silo_plugin_xtream_libra.Prelude.{
  ℕ, suc, ◌+◌, Bool, true, false, not, ◌&&◌, ◌||◌, Option, none, some, List, [], ◌∷◌, ltb, ◌==◌,
  if◌then◌else◌,
}
use silo_plugin_xtream_libra.Text.{Text, is_empty, text_eq}
use silo_plugin_xtream_libra.Companion.{Buffer, empty_buffer, push}

-- A request for the statistics of a game, with the generation and the number of the abort
-- controller that it was made with.
pub record Fetch : Type 0 where
  pub generation : ℕ
  pub id : Text
  pub abort : ℕ

-- `sportsCompanion`. `event` is the id of the event, empty for none; `timer` is the generation whose
-- tick the interval calls; `last_fetch` is none for minus infinity; `aborted` lists the abort
-- controllers that were aborted and `next_abort` numbers the next one.
pub record Companion {ℓ} (A : Type ℓ) : Type ℓ where
  pub buffer : Buffer A
  pub timer : Option ℕ
  pub abort : Option ℕ
  pub generation : ℕ
  pub event : Text
  pub last_fetch : Option ℕ
  pub pending : Bool
  pub stale : Bool
  pub aborted : List ℕ
  pub next_abort : ℕ
  pub waiting : List Fetch

unfoldable pub is_aborted : ℕ → List ℕ → Bool
is_aborted n [] = false
is_aborted n (a ∷ others) = a == n || is_aborted n others

unfoldable pub abort_current : Option ℕ → List ℕ → List ℕ
abort_current none aborted = aborted
abort_current (some n) aborted = n ∷ aborted

unfoldable pub fetched_lately : ℕ → Option ℕ → Bool
fetched_lately now none = false
fetched_lately now (some last) = ltb now (last + 30000)

abbrev pub is_current : ℕ → Option ℕ → Bool
is_current n none = false
is_current n (some m) = m == n

module _ {ℓ} {A : Type ℓ} where
  -- `stopSportsCompanion`
  unfoldable pub stop_companion : Companion A → Companion A
  stop_companion s = record s {
    generation = suc s.generation;
    aborted = abort_current s.abort s.aborted;
    timer = none;
    abort = none;
    pending = false;
    stale = false;
    event = [];
    buffer = empty_buffer;
  }

  -- A tick that sees another event forgets what was loaded.
  unfoldable pub follow_event : Text → Companion A → Companion A
  follow_event id s = if text_eq id s.event then s else record s {
    aborted = abort_current s.abort s.aborted;
    event = id;
    buffer = empty_buffer;
    last_fetch = none;
    pending = false;
    stale = false;
  }

  unfoldable pub fetch_stats : ℕ → ℕ → Text → Companion A → Companion A
  fetch_stats generation now id s =
      if is_empty id || s.pending || fetched_lately now s.last_fetch then s else record s {
        pending = true;
        last_fetch = some now;
        abort = some s.next_abort;
        next_abort = suc s.next_abort;
        waiting = record { generation = generation; id = id; abort = s.next_abort } ∷ s.waiting;
      }

  -- `tick` of a generation. `playing` tells whether the player and its drawer are shown, and `id` is
  -- the current event's.
  unfoldable pub tick : ℕ → ℕ → (playing hidden : Bool) → Text → Companion A → Companion A
  tick generation now playing hidden id s =
      if not playing
      then stop_companion s
      else (if hidden then s else fetch_stats generation now id (follow_event id s))

  -- `startSportsCompanion`; `first` tells whether the sports player is active.
  unfoldable pub start_companion :
      (first : Bool) → ℕ → (playing hidden : Bool) → Text → Companion A → Companion A
  start_companion first now playing hidden id s =
      let stopped = stop_companion s in
      if not first
      then stopped
      else record (tick stopped.generation now playing hidden id stopped) {
        timer = some stopped.generation;
      }

  -- `.finally(...)` of a request.
  unfoldable pub finish_fetch : Fetch → Companion A → Companion A
  finish_fetch f s =
      if is_current f.abort s.abort then record s { pending = false; abort = none } else s

  -- The answer to a request; no data where the game's statistics are not available.
  unfoldable pub fetched : Fetch → ℕ → Option A → Companion A → Companion A
  fetched f now data_of s = finish_fetch f (
      if not (f.generation == s.generation)
        || not (text_eq f.id s.event)
        || is_aborted f.abort s.aborted
      then s
      else (elim data_of [
        | none ↦ record s { stale = true }
        | some d ↦ record s { buffer = push f.id d now s.buffer; stale = false }
      ]))

  unfoldable pub fetch_failed : Fetch → Companion A → Companion A
  fetch_failed f s = finish_fetch f (
      if f.generation == s.generation && is_current f.abort s.abort && text_eq f.id s.event
      then record s { stale = true }
      else s)

-- What happens to the companion; a request that takes 12 seconds is aborted. The network answers only
-- requests that are unanswered, which are told apart by the numbers of their abort controllers, and
-- the interval ticks only while it is set. The program gives each answer the generation and the
-- identifier with which the request was made.
pub data Event {ℓ} (A : Type ℓ) : Type ℓ where
  starts : (first : Bool) → ℕ → (playing hidden : Bool) → Text → Event A
  ticks : ℕ → (playing hidden : Bool) → Text → Event A
  answers : Fetch → ℕ → Option A → Event A
  fails times_out : Fetch → Event A
  stops : Event A

unfoldable pub waits_for : ℕ → List Fetch → Bool
waits_for n [] = false
waits_for n (f ∷ fs) = f.abort == n || waits_for n fs

unfoldable pub settle : ℕ → List Fetch → List Fetch
settle n [] = []
settle n (f ∷ fs) = let rest = settle n fs in if f.abort == n then rest else f ∷ rest

module _ {ℓ} {A : Type ℓ} where
  abbrev pub answered : Fetch → Companion A → Companion A
  answered f s = record s { waiting = settle f.abort s.waiting }

  unfoldable pub step : Companion A → Event A → Companion A
  step s (starts first now playing hidden id) = start_companion first now playing hidden id s
  step s (ticks now playing hidden id) = elim s.timer [
    | none ↦ s
    | some generation ↦ tick generation now playing hidden id s
  ]
  step s (answers f now data_of) =
      if waits_for f.abort s.waiting then fetched f now data_of (answered f s) else s
  step s (fails f) = if waits_for f.abort s.waiting then fetch_failed f (answered f s) else s
  step s (times_out f) =
      if waits_for f.abort s.waiting then record s { aborted = f.abort ∷ s.aborted } else s
  step s stops = stop_companion s

  unfoldable pub run : Companion A → List (Event A) → Companion A
  run s [] = s
  run s (e ∷ es) = run (step s e) es
