-- ===== src/Multiview/Steps.antt =====
-- Every step of a multiview keeps it well formed.
use silo_plugin_xtream_libra.Prelude.{
  ℕ, ◌≡◌, refl, Option, none, some, arith, ◌==◌, ==_iff, is_some, All, Bool-cases, Option-cases,
  inl, inr,
}
use silo_plugin_xtream_libra.Text.{Text}
use silo_plugin_xtream_libra.Multiview.{
  Tile, Multiview, update_tile, find_ref, tile_by_id, clear_pending, give_back, is_waiting,
  answered, watch_started, watch_failed, stop_all, focus_tile, Event, adds, focuses, removes,
  attaches, answers, fails, renders, clears, step,
}
use silo_plugin_xtream_libra.Multiview.Invariant.{
  TileIsValid, IsValid, IsFresh, All-weaken, All-update_tile, AreDistinct-update_tile,
  length-update_tile, is_waiting-answered, Found, All-Found, start_watch-IsValid, find_ref-ref,
}
use silo_plugin_xtream_libra.Multiview.Pages.{
  render_page-IsValid, remove_tile-IsValid, add_channel-IsValid,
}

pub clear_pending-same :
    (attempt : ℕ) (t : Tile)
    → ((clear_pending attempt t).ref ≡ t.ref)
      × ((clear_pending attempt t).id ≡ t.id)
      × ((clear_pending attempt t).channel ≡ t.channel)
      × ((clear_pending attempt t).session ≡ t.session)
      × ((clear_pending attempt t).attempt ≡ t.attempt)
unfolding clear_pending
clear_pending-same attempt t = elim (Option-cases t.pending) [
  | inl e ↦ rw (e, clear_pending) (refl, refl, refl, refl, refl)
  | inr (pending, e) ↦ elim (Bool-cases (pending == attempt)) [
    | inl same ↦ rw (e, clear_pending) (rw same (refl, refl, refl, refl, refl))
    | inr other ↦ rw (e, clear_pending) (rw other (refl, refl, refl, refl, refl))
  ]
]

module _ (s : Multiview) (ref attempt : ℕ) (v : IsValid s) where
  abbrev pub settled_request : Multiview
  settled_request = record s { waiting = answered ref attempt s.waiting }

  pub answered-IsValid : IsValid settled_request
  answered-IsValid = record {
    each =
        All-weaken s.tiles
          (λ t p. (
            p.0,
            p.1,
            ground (arith, p.2, is_waiting-answered t.ref t.attempt ref attempt s.waiting),
          ))
          v.each;
    distinct = v.distinct;
    few = v.few;
  }

  started-each :
      (session : Option Text) (t : Tile)
      → find_ref ref s.tiles ≡ some t
      → t.attempt ≡ attempt
      → All
          (TileIsValid s.next_ref (answered ref attempt s.waiting))
          (update_tile ref (λ u. clear_pending attempt (record u { session = session })) s.tiles)
  started-each session t found now =
      All-update_tile {P = Found settled_request ref t} ref _ s.tiles
        (λ u e p.
          let same = clear_pending-same attempt (record u { session = session }) in
          (
            rw (same.0) p.0.0,
            rw (same.2) p.0.1,
            ground (
              arith,
              same,
              p.1 e,
              is_waiting-answered ref attempt ref attempt s.waiting,
              find_ref-ref ref t s.tiles found,
            ),
          ))
        (λ u ne p. p.0) (All-Found settled_request ref t found answered-IsValid)

  cleared-IsValid :
      IsValid (record settled_request { tiles = update_tile ref (clear_pending attempt) s.tiles })
  cleared-IsValid = record {
    each =
        All-update_tile ref _ s.tiles
          (λ u e p.
            let same = clear_pending-same attempt u in
            (rw (same.0) p.0, rw (same.2) p.1, rw (same.0, same.3, same.4) p.2))
          (λ u ne p. p) answered-IsValid.each;
    distinct =
        AreDistinct-update_tile ref _ s.tiles (λ t. (clear_pending-same attempt t).0)
          (λ t. (clear_pending-same attempt t).1) v.distinct;
    few = rw length-update_tile v.few;
  }

  give_back-IsValid : (session : Option Text) → IsValid (give_back session settled_request)
  unfolding give_back
  give_back-IsValid none = answered-IsValid
  give_back-IsValid (some id) = record {
    each = answered-IsValid.each;
    distinct = v.distinct;
    few = v.few;
  }

  cleared_given-IsValid :
      (session : Option Text)
      → IsValid (record (give_back session settled_request) {
        tiles = update_tile ref (clear_pending attempt) s.tiles;
      })
  unfolding give_back
  cleared_given-IsValid none = cleared-IsValid
  cleared_given-IsValid (some id) = record {
    each = cleared-IsValid.each;
    distinct = cleared-IsValid.distinct;
    few = cleared-IsValid.few;
  }

  watch_started-IsValid :
      (session : Option Text) → IsValid (watch_started ref attempt session settled_request)
  unfolding watch_started
  watch_started-IsValid session = elim (Option-cases (find_ref ref s.tiles)) [
    | inl e ↦ rw (e, watch_started) (give_back-IsValid session)
    | inr (t, e) ↦ elim (Bool-cases (t.attempt == attempt)) [
      | inl now ↦
          rw (e, watch_started)
            (rw now (record {
              each = started-each session t e ((==_iff t.attempt attempt).0 now);
              distinct =
                  AreDistinct-update_tile ref _ s.tiles
                    (λ u. (clear_pending-same attempt (record u { session = session })).0)
                    (λ u. (clear_pending-same attempt (record u { session = session })).1)
                    v.distinct;
              few = rw length-update_tile v.few;
            }))
      | inr over ↦ rw (e, watch_started) (rw over (cleared_given-IsValid session))
    ]
  ]

focus_tile-IsValid : (s : Multiview) (id : Text) → IsValid s → IsValid (focus_tile id s)
unfolding focus_tile
focus_tile-IsValid s id v = elim (Bool-cases (is_some (tile_by_id id s.tiles))) [
  | inl known ↦ rw known (record { each = v.each; distinct = v.distinct; few = v.few })
  | inr other ↦ rw other v
]

attach-IsValid : (s : Multiview) (ref : ℕ) → IsValid s → IsValid (step s (attaches ref))
unfolding step
attach-IsValid s ref v = elim (Option-cases (find_ref ref s.tiles)) [
  | inl e ↦ rw (e, step) v
  | inr (t, e) ↦ rw (e, step) (start_watch-IsValid s ref t e v)
]

answer-IsValid :
    (s : Multiview) (ref attempt : ℕ) (session : Option Text)
    → IsValid s
    → IsValid (step s (answers ref attempt session))
unfolding step
answer-IsValid s ref attempt session v = elim (Bool-cases (is_waiting ref attempt s.waiting)) [
  | inl w ↦ rw w (watch_started-IsValid s ref attempt v session)
  | inr w ↦ rw w v
]

fail-IsValid : (s : Multiview) (ref attempt : ℕ) → IsValid s → IsValid (step s (fails ref attempt))
unfolding step watch_failed
fail-IsValid s ref attempt v = elim (Bool-cases (is_waiting ref attempt s.waiting)) [
  | inl w ↦ rw w (cleared-IsValid s ref attempt v)
  | inr w ↦ rw w v
]

-- From a well-formed multiview every event leads to a well-formed one: its tiles have distinct
-- numbers and names, all have a channel, there are at most four, and a tile that has a session
-- does not wait for one.
pub step-IsValid : (s : Multiview) (e : Event) → IsFresh s e → IsValid s → IsValid (step s e)
unfolding step stop_all
step-IsValid s (adds c name channel) fresh v = add_channel-IsValid s c name channel fresh.0 v
step-IsValid s (focuses id) fresh v = focus_tile-IsValid s id v
step-IsValid s (removes id) fresh v = remove_tile-IsValid s id v
step-IsValid s (attaches ref) fresh v = attach-IsValid s ref v
step-IsValid s (answers ref attempt session) fresh v = answer-IsValid s ref attempt session v
step-IsValid s (fails ref attempt) fresh v = fail-IsValid s ref attempt v
step-IsValid s renders fresh v = render_page-IsValid s v
step-IsValid s clears fresh v = record { each = tt; distinct = tt; few = omega arith }
