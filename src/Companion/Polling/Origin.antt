-- ===== src/Companion/Polling/Origin.antt =====
-- Which requests the statistics that the companion shows are the answers to
-- (internal/plugin/ui/sports_companion.js).
use silo_plugin_xtream_libra.Prelude.{
  ℕ, ◌≡◌, ◌<◌, Bool, true, false, not, ◌&&◌, ◌||◌, Option, none, some, List, [], ◌∷◌, ◌==◌,
  if◌then◌else◌, arith, All, All-append, All-filter_by, All-drop, Bool-cases, Option-cases, inl,
  inr,
}
use silo_plugin_xtream_libra.Text.{Text, is_empty, text_eq, text_eq_iff}
use silo_plugin_xtream_libra.Companion.{Snapshot, Buffer, push, is_recent}
use silo_plugin_xtream_libra.Companion.Polling.{
  Fetch, Companion, is_aborted, is_current, stop_companion, follow_event, fetch_stats, tick,
  start_companion, finish_fetch, fetched, fetch_failed, fetched_lately, Event, starts, ticks,
  answers, fails, times_out, stops, waits_for, answered, step, run,
}
use silo_plugin_xtream_libra.Companion.Polling.Progress.{waits_for-settle}

-- The request is of the event and the start of the companion, and was neither aborted nor is it
-- still unanswered.
pub record IsCurrent (event : Text) (generation : ℕ) (aborted : List ℕ) (waiting : List Fetch)
    (next : ℕ) (f : Fetch) : Type 0 where
  pub same_event : f.id ≡ event
  pub same_start : f.generation ≡ generation
  pub kept : is_aborted f.abort aborted ≡ false
  pub settled : waits_for f.abort waiting ≡ false
  pub taken : f.abort < next

All-map {ℓ κ μ} :
    {A : Type ℓ} (P : A → Type κ) (Q : A → Type μ) (xs : List A)
    → ((x : A) → P x → Q x)
    → All P xs
    → All Q xs
All-map P Q [] h a = tt
All-map P Q (x ∷ xs) h a = (h x a.0, All-map P Q xs h a.1)

-- `origin` tells which request statistics are the answer to.
module _ {ℓ} {A : Type ℓ} (origin : A → Fetch) where
  -- All snapshots answer requests of the current event and start, none of them aborted, and the
  -- numbers of the unanswered requests are taken.
  pub record IsOf (s : Companion A) : Type ℓ where
    pub shown :
        All
          (λ x. IsCurrent s.event s.generation s.aborted s.waiting s.next_abort (origin x.data_of))
          s.buffer.snapshots
    pub numbered : (n : ℕ) → waits_for n s.waiting ≡ true → n < s.next_abort

  -- The statistics in an answer are the answer to its request.
  abbrev pub AnswersItsRequest : Event A → Type 0
  AnswersItsRequest (answers f now (some d)) = origin d ≡ f
  AnswersItsRequest _ = Unit {0}

  stop_companion-IsOf : (s : Companion A) → IsOf s → IsOf (stop_companion s)
  unfolding stop_companion
  stop_companion-IsOf s o = record { shown = tt; numbered = o.numbered }

  follow_event-IsOf : (id : Text) (s : Companion A) → IsOf s → IsOf (follow_event id s)
  unfolding follow_event
  follow_event-IsOf id s o = elim (Bool-cases (text_eq id s.event)) [
    | inl same ↦ rw same o
    | inr other ↦ rw other (record { shown = tt; numbered = o.numbered })
  ]

  fetch_stats-IsOf :
      (generation now : ℕ) (id : Text) (s : Companion A)
      → IsOf s
      → IsOf (fetch_stats generation now id s)
  unfolding fetch_stats waits_for
  fetch_stats-IsOf generation now id s o =
      elim (Bool-cases (is_empty id || s.pending || fetched_lately now s.last_fetch)) [
        | inl idle ↦ rw idle o
        | inr due ↦ rw due (record {
          shown =
              All-map _ _ s.buffer.snapshots
                (λ x c. record {
                  same_event = c.same_event;
                  same_start = c.same_start;
                  kept = c.kept;
                  settled = ground (arith, c.settled, c.taken);
                  taken = omega (arith, c.taken);
                })
                o.shown;
          numbered = λ n h. elim (Bool-cases (waits_for n s.waiting)) [
            | inl old ↦ omega (arith, o.numbered n old)
            | inr new ↦ ground (arith, h, new)
          ];
        })
      ]

  tick-IsOf :
      (generation now : ℕ) (playing hidden : Bool) (id : Text) (s : Companion A)
      → IsOf s
      → IsOf (tick generation now playing hidden id s)
  unfolding tick
  tick-IsOf generation now false hidden id s o = stop_companion-IsOf s o
  tick-IsOf generation now true true id s o = o
  tick-IsOf generation now true false id s o =
      fetch_stats-IsOf generation now id (follow_event id s) (follow_event-IsOf id s o)

  push-All {κ} :
      (P : Snapshot A → Type κ) (game : Text) (d : A) (now : ℕ) (b : Buffer A)
      → P (record { data_of = d; at = now })
      → All P b.snapshots
      → All P (push game d now b).snapshots
  unfolding push
  push-All P game d now b o a =
      All-drop P _ _ (All-filter_by P (is_recent now) _ (All-append P _ _ held (o, tt)))
    where
      held : All P (if text_eq game b.game then b.snapshots else [])
      held = elim (Bool-cases (text_eq game b.game)) [
        | inl same ↦ rw same a
        | inr other ↦ rw other tt
      ]

  finish_fetch-IsOf : (f : Fetch) (s : Companion A) → IsOf s → IsOf (finish_fetch f s)
  unfolding finish_fetch
  finish_fetch-IsOf f s o = elim (Bool-cases (is_current f.abort s.abort)) [
    | inl mine ↦ rw mine (record { shown = o.shown; numbered = o.numbered })
    | inr other ↦ rw other o
  ]

  answered-IsOf : (f : Fetch) (s : Companion A) → IsOf s → IsOf (answered f s)
  answered-IsOf f s o = record {
    shown =
        All-map _ _ s.buffer.snapshots
          (λ x c. record {
            same_event = c.same_event;
            same_start = c.same_start;
            kept = c.kept;
            settled =
                ground
                  (arith, c.settled, waits_for-settle (origin x.data_of).abort f.abort s.waiting);
            taken = c.taken;
          })
          o.shown;
    numbered = λ n h. o.numbered n (ground (arith, h, waits_for-settle n f.abort s.waiting));
  }

  -- The companion with an answer that its guards let through.
  abbrev accept : Fetch → ℕ → Option A → Companion A → Companion A
  accept f now none s = record s { stale = true }
  accept f now (some d) s = record s { buffer = push f.id d now s.buffer; stale = false }

  accept-IsOf :
      (f : Fetch) (now : ℕ) (d : Option A) (s : Companion A)
      → AnswersItsRequest (answers f now d)
      → IsCurrent s.event s.generation s.aborted s.waiting s.next_abort f
      → IsOf s
      → IsOf (accept f now d s)
  accept-IsOf f now none s told c o = record { shown = o.shown; numbered = o.numbered }
  accept-IsOf f now (some d) s told c o = record {
    shown =
        push-All
          (λ x. IsCurrent s.event s.generation s.aborted s.waiting s.next_abort (origin x.data_of))
          f.id d now s.buffer (rw told c) o.shown;
    numbered = o.numbered;
  }

  fetched-IsOf :
      (f : Fetch) (now : ℕ) (d : Option A) (s : Companion A)
      → AnswersItsRequest (answers f now d)
      → (waits_for f.abort s.waiting ≡ false) × (f.abort < s.next_abort)
      → IsOf s
      → IsOf (fetched f now d s)
  unfolding fetched
  fetched-IsOf f now d s told settled o = finish_fetch-IsOf f _ (guarded d told)
    where
      over : Bool
      over =
          not (f.generation == s.generation)
          || not (text_eq f.id s.event)
          || is_aborted f.abort s.aborted

      current : over ≡ false → IsCurrent s.event s.generation s.aborted s.waiting s.next_abort f
      current passes = record {
        same_event = (text_eq_iff f.id s.event).0 (ground (arith, passes));
        same_start = ground (arith, passes);
        kept = ground (arith, passes);
        settled = settled.0;
        taken = settled.1;
      }

      guarded :
          (d : Option A)
          → AnswersItsRequest (answers f now d)
          → IsOf (
              if over then s else (elim d [
                | none ↦ record s { stale = true }
                | some e ↦ record s { buffer = push f.id e now s.buffer; stale = false }
              ]))
      guarded none told = elim (Bool-cases over) [
        | inl late ↦ rw late o
        | inr passes ↦ rw passes (accept-IsOf f now none s told (current passes) o)
      ]
      guarded (some e) told = elim (Bool-cases over) [
        | inl late ↦ rw late o
        | inr passes ↦ rw passes (accept-IsOf f now (some e) s told (current passes) o)
      ]

  fetch_failed-IsOf : (f : Fetch) (s : Companion A) → IsOf s → IsOf (fetch_failed f s)
  unfolding fetch_failed
  fetch_failed-IsOf f s o = finish_fetch-IsOf f _ (elim (Bool-cases mine) [
    | inl failed ↦ rw failed (record { shown = o.shown; numbered = o.numbered })
    | inr other ↦ rw other o
  ])
    where
      mine : Bool
      mine = f.generation == s.generation && is_current f.abort s.abort && text_eq f.id s.event

  start_companion-IsOf :
      (first : Bool) (now : ℕ) (playing hidden : Bool) (id : Text) (s : Companion A)
      → IsOf s
      → IsOf (start_companion first now playing hidden id s)
  unfolding start_companion
  start_companion-IsOf false now playing hidden id s o = stop_companion-IsOf s o
  start_companion-IsOf true now playing hidden id s o =
      let t =
        tick-IsOf (stop_companion s).generation now playing hidden id (stop_companion s)
          (stop_companion-IsOf s o) in
      record { shown = t.shown; numbered = t.numbered }

  times_out-IsOf :
      (n : ℕ) (s : Companion A)
      → waits_for n s.waiting ≡ true
      → IsOf s
      → IsOf (record s { aborted = n ∷ s.aborted })
  unfolding is_aborted
  times_out-IsOf n s due o = record {
    shown =
        All-map _ _ s.buffer.snapshots
          (λ x c. record {
            same_event = c.same_event;
            same_start = c.same_start;
            kept = not_aborted x c;
            settled = c.settled;
            taken = c.taken;
          })
          o.shown;
    numbered = o.numbered;
  }
    where
      not_aborted :
          (x : Snapshot A)
          → IsCurrent s.event s.generation s.aborted s.waiting s.next_abort (origin x.data_of)
          → is_aborted (origin x.data_of).abort (n ∷ s.aborted) ≡ false
      not_aborted x c = elim (Bool-cases (n == (origin x.data_of).abort)) [
        | inl same ↦ ground (arith, same, due, c.settled)
        | inr other ↦ ground (arith, other, c.kept)
      ]

  answered-settled :
      (f : Fetch) (s : Companion A)
      → waits_for f.abort s.waiting ≡ true
      → IsOf s
      → (waits_for f.abort (answered f s).waiting ≡ false) × (f.abort < s.next_abort)
  answered-settled f s due o =
      (ground (arith, waits_for-settle f.abort f.abort s.waiting), o.numbered f.abort due)

  step-IsOf : (s : Companion A) (e : Event A) → AnswersItsRequest e → IsOf s → IsOf (step s e)
  unfolding step
  step-IsOf s (starts first now playing hidden id) told o =
      start_companion-IsOf first now playing hidden id s o
  step-IsOf s (ticks now playing hidden id) told o = elim (Option-cases s.timer) [
    | inl e ↦ rw (e, step) o
    | inr (generation, e) ↦ rw (e, step) (tick-IsOf generation now playing hidden id s o)
  ]
  step-IsOf s (answers f now d) told o = elim (Bool-cases (waits_for f.abort s.waiting)) [
    | inl due ↦ rw due (
        fetched-IsOf f now d (answered f s) told (answered-settled f s due o) (answered-IsOf f s o))
    | inr other ↦ rw other o
  ]
  step-IsOf s (fails f) told o = elim (Bool-cases (waits_for f.abort s.waiting)) [
    | inl due ↦ rw due (fetch_failed-IsOf f (answered f s) (answered-IsOf f s o))
    | inr other ↦ rw other o
  ]
  step-IsOf s (times_out f) told o = elim (Bool-cases (waits_for f.abort s.waiting)) [
    | inl due ↦ rw due (times_out-IsOf f.abort s due o)
    | inr other ↦ rw other o
  ]
  step-IsOf s stops told o = stop_companion-IsOf s o

  -- Where the statistics in every answer are the answer to its request, along every run from a
  -- companion that keeps this, all snapshots answer requests of the current event and of the
  -- current start that were not aborted, and the numbers of the unanswered requests are taken: no
  -- late answer for an earlier event or an earlier start, and none that came after its request was
  -- aborted, is shown.
  pub run-IsOf :
      (s : Companion A) (es : List (Event A)) → All AnswersItsRequest es → IsOf s → IsOf (run s es)
  unfolding run
  run-IsOf s [] told o = o
  run-IsOf s (e ∷ es) told o = run-IsOf (step s e) es told.1 (step-IsOf s e told.0 o)
