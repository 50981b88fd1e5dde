-- ===== src/Companion/Polling/Progress.antt =====
-- When the companion asks for statistics, and the request that it waits for
-- (internal/plugin/ui/sports_companion.js).
use silo_plugin_xtream_libra.Prelude.{
  ℕ, ◌≡◌, refl, sym, ◌⊎◌, Bool, true, false, not, ◌&&◌, ◌||◌, Option, none, some, List, [], ◌∷◌,
  ◌==◌, if◌then◌else◌, arith, Bool-cases, Option-cases, inl, inr,
}
use silo_plugin_xtream_libra.Text.{Text, is_empty, text_eq, text_eq_iff}
use silo_plugin_xtream_libra.Companion.{push}
use silo_plugin_xtream_libra.Companion.Polling.{
  Fetch, Companion, is_aborted, is_current, stop_companion, follow_event, fetch_stats, tick,
  start_companion, finish_fetch, fetched, fetch_failed, fetched_lately, Event, starts, ticks,
  answers, fails, times_out, stops, waits_for, settle, answered, step, run,
}

-- The request of the abort controller, if there is one, is unanswered.
unfoldable pub awaits : Option ℕ → List Fetch → Bool
awaits none fs = false
awaits (some n) fs = waits_for n fs

pub waits_for-settle :
    (n m : ℕ) (fs : List Fetch)
    → waits_for n (settle m fs) ≡ (if n == m then false else waits_for n fs)
unfolding waits_for settle
waits_for-settle n m [] = ground arith
waits_for-settle n m (f ∷ fs) = ground (arith, waits_for-settle n m fs)

module _ {ℓ} {A : Type ℓ} where
  abbrev pub IsLive : Companion A → Type 0
  IsLive s = s.pending ≡ true → awaits s.abort s.waiting ≡ true

  follow_event-IsLive : (id : Text) (s : Companion A) → IsLive s → IsLive (follow_event id s)
  unfolding follow_event
  follow_event-IsLive id s l = elim (Bool-cases (text_eq id s.event)) [
    | inl same ↦ rw same l
    | inr other ↦ rw other (λ h. ground arith)
  ]

  fetch_stats-IsLive :
      (generation now : ℕ) (id : Text) (s : Companion A)
      → IsLive s
      → IsLive (fetch_stats generation now id s)
  unfolding fetch_stats awaits waits_for
  fetch_stats-IsLive generation now id s l =
      elim (Bool-cases (is_empty id || s.pending || fetched_lately now s.last_fetch)) [
        | inl idle ↦ rw idle l
        | inr due ↦ rw due (λ _. ground arith)
      ]

  tick-IsLive :
      (generation now : ℕ) (playing hidden : Bool) (id : Text) (s : Companion A)
      → IsLive s
      → IsLive (tick generation now playing hidden id s)
  unfolding tick stop_companion
  tick-IsLive generation now false hidden id s l = λ h. ground arith
  tick-IsLive generation now true true id s l = l
  tick-IsLive generation now true false id s l =
      fetch_stats-IsLive generation now id (follow_event id s) (follow_event-IsLive id s l)

  -- A companion that waits only for requests under way, but for the one that is just settled.
  abbrev IsLiveBut : Fetch → Companion A → Type 0
  IsLiveBut f s = s.pending ≡ true → (awaits s.abort s.waiting || is_current f.abort s.abort) ≡ true

  answered-IsLiveBut : (f : Fetch) (s : Companion A) → IsLive s → IsLiveBut f (answered f s)
  unfolding awaits
  answered-IsLiveBut f s l pending = elim (Option-cases s.abort) [
    | inl e ↦ ground (arith, e, l pending)
    | inr (n, e) ↦ ground (arith, e, l pending, waits_for-settle n f.abort s.waiting)
  ]

  finish_fetch-IsLive : (f : Fetch) (s : Companion A) → IsLiveBut f s → IsLive (finish_fetch f s)
  unfolding finish_fetch
  finish_fetch-IsLive f s l = elim (Bool-cases (is_current f.abort s.abort)) [
    | inl mine ↦ rw mine (λ h. ground arith)
    | inr other ↦ rw other (λ h. ground (arith, l h))
  ]

  fetched-IsLive :
      (f : Fetch) (now : ℕ) (d : Option A) (s : Companion A)
      → IsLiveBut f s
      → IsLive (fetched f now d s)
  unfolding fetched
  fetched-IsLive f now d s l =
      finish_fetch-IsLive f _
        (elim (Bool-cases over) [ inl late ↦ rw late l | inr current ↦ rw current (accepted d) ])
    where
      over : Bool
      over =
          not (f.generation == s.generation)
          || not (text_eq f.id s.event)
          || is_aborted f.abort s.aborted

      accepted :
          (d : Option A)
          → IsLiveBut f (elim d [
            | none ↦ record s { stale = true }
            | some e ↦ record s { buffer = push f.id e now s.buffer; stale = false }
          ])
      accepted none = l
      accepted (some e) = l

  fetch_failed-IsLive : (f : Fetch) (s : Companion A) → IsLiveBut f s → IsLive (fetch_failed f s)
  unfolding fetch_failed
  fetch_failed-IsLive f s l =
      finish_fetch-IsLive f _
        (elim (Bool-cases mine) [ inl current ↦ rw current l | inr other ↦ rw other l ])
    where
      mine : Bool
      mine = f.generation == s.generation && is_current f.abort s.abort && text_eq f.id s.event

  start_companion-IsLive :
      (first : Bool) (now : ℕ) (playing hidden : Bool) (id : Text) (s : Companion A)
      → IsLive (start_companion first now playing hidden id s)
  unfolding start_companion stop_companion
  start_companion-IsLive false now playing hidden id s = λ h. ground arith
  start_companion-IsLive true now playing hidden id s =
      tick-IsLive (stop_companion s).generation now playing hidden id (stop_companion s)
        (λ h. ground arith)

  step-IsLive : (s : Companion A) (e : Event A) → IsLive s → IsLive (step s e)
  unfolding step stop_companion
  step-IsLive s (starts first now playing hidden id) l =
      start_companion-IsLive first now playing hidden id s
  step-IsLive s (ticks now playing hidden id) l = elim (Option-cases s.timer) [
    | inl e ↦ rw (e, step) l
    | inr (generation, e) ↦ rw (e, step) (tick-IsLive generation now playing hidden id s l)
  ]
  step-IsLive s (answers f now d) l = elim (Bool-cases (waits_for f.abort s.waiting)) [
    | inl due ↦ rw due (fetched-IsLive f now d (answered f s) (answered-IsLiveBut f s l))
    | inr other ↦ rw other l
  ]
  step-IsLive s (fails f) l = elim (Bool-cases (waits_for f.abort s.waiting)) [
    | inl due ↦ rw due (fetch_failed-IsLive f (answered f s) (answered-IsLiveBut f s l))
    | inr other ↦ rw other l
  ]
  step-IsLive s (times_out f) l = elim (Bool-cases (waits_for f.abort s.waiting)) [
    | inl due ↦ rw due l
    | inr other ↦ rw other l
  ]
  step-IsLive s stops l = λ h. ground arith

  -- Along every run, a companion that is pending only while its current request is unanswered stays
  -- so.
  run-IsLive : (s : Companion A) (es : List (Event A)) → IsLive s → IsLive (run s es)
  unfolding run
  run-IsLive s [] l = l
  run-IsLive s (e ∷ es) l = run-IsLive (step s e) es (step-IsLive s e l)

  abbrev request_of : ℕ → Text → Companion A → Fetch
  request_of generation id s = record { generation = generation; id = id; abort = s.next_abort }

  -- The companion follows the event and has asked for its statistics.
  abbrev pub HasAsked : ℕ → Text → (before after : Companion A) → Type 0
  HasAsked generation id before after =
      (after.event ≡ id)
      × (after.pending ≡ true)
      × (after.waiting ≡ request_of generation id before ∷ before.waiting)

  fetch_stats-asks :
      (generation now : ℕ) (id : Text) (s : Companion A)
      → is_empty id ≡ false
      → s.event ≡ id
      → s.pending ≡ false
      → fetched_lately now s.last_fetch ≡ false
      → HasAsked generation id s (fetch_stats generation now id s)
  unfolding fetch_stats
  fetch_stats-asks generation now id s named same free due =
      rw (named, free, due) (same, refl, refl)

  -- The event is another one, or no request is under way for it and the last one is not recent.
  abbrev pub MayAsk : ℕ → Text → Companion A → Type 0
  MayAsk now id s =
      (text_eq id s.event ≡ false)
      ⊎ ((awaits s.abort s.waiting ≡ false) × (fetched_lately now s.last_fetch ≡ false))

  tick-asks :
      (generation now : ℕ) (id : Text) (s : Companion A)
      → IsLive s
      → is_empty id ≡ false
      → MayAsk now id s
      → HasAsked generation id s (tick generation now true false id s)
  unfolding tick follow_event fetched_lately
  tick-asks generation now id s l named may = elim (Bool-cases (text_eq id s.event)) [
    | inr other ↦ rw other (fetch_stats-asks generation now id _ named refl refl refl)
    | inl same ↦ rw same (elim may [
      | inl other ↦ ground (arith, same, other)
      | inr due ↦
          fetch_stats-asks generation now id s named (sym ((text_eq_iff id s.event).0 same))
            (free due.0) due.1
    ])
  ]
    where
      free : awaits s.abort s.waiting ≡ false → s.pending ≡ false
      free over = elim (Bool-cases s.pending) [
        | inr idle ↦ idle
        | inl busy ↦ ground (arith, over, l busy)
      ]

  -- After every run from a companion that is pending only while its current request is unanswered,
  -- a tick while the player is shown and the page is not hidden asks for the statistics of the event it sees, if that is
  -- another event than before, or if the current request is no longer unanswered and the last one
  -- was made at least 30 seconds ago: no request that was answered, failed or was for an earlier
  -- event keeps the companion from asking.
  pub run-asks :
      (s : Companion A) (es : List (Event A)) (generation now : ℕ) (id : Text)
      → IsLive s
      → (run s es).timer ≡ some generation
      → is_empty id ≡ false
      → MayAsk now id (run s es)
      → HasAsked generation id (run s es) (step (run s es) (ticks now true false id))
  unfolding step
  run-asks s es generation now id l timed named may =
      rw (timed, step) (tick-asks generation now id (run s es) (run-IsLive s es l) named may)
