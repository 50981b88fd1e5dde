-- ===== src/Multiview/Kept.antt =====
-- A watch session that is held or was given back stays so, whatever the handlers do.
use silo_plugin_xtream_libra.Prelude.{
  ℕ, ◌≡◌, refl, Bool, true, false, ◌||◌, Option, none, some, List, [], ◌∷◌, arith, leb, ◌==◌,
  ==_iff, is_some, length, All, Bool-cases, Option-cases, inl, inr,
}
use silo_plugin_xtream_libra.Text.{Text, text_eq_iff}
use silo_plugin_xtream_libra.Multiview.{
  Tile, Multiview, update_tile, find_ref, tile_by_id, start_watch, clear_pending, give_back,
  is_waiting, answered, watch_started, watch_failed, stop_requests, render_page, Connection,
  connection_limit, tile_by_channel, new_tile, add_channel, remove_tile, attaches, answers, fails,
  step,
}
use silo_plugin_xtream_libra.Multiview.Invariant.{has_id, IsValid, All-weaken, Found, All-Found}
use silo_plugin_xtream_libra.Multiview.Steps.{clear_pending-same}
use silo_plugin_xtream_libra.Multiview.Leases.{
  holds, held, given_back, held-map_destroy, held-append, given_back-append,
  given_back-stop_requests, held-update_tile, held-found, held-removed,
}
use silo_plugin_xtream_libra.Multiview.Pages.{
  shown_tiles-reset_media, without_tile, without_tile-IsValid, with_tile, with_tile-IsValid,
}

-- The session is held by a tile or was given back.
abbrev pub kept : Text → Multiview → Bool
kept x s = held x s.tiles || given_back x s.sent

pub kept-render_page : (x : Text) (s : Multiview) → IsValid s → kept x (render_page s) ≡ kept x s
unfolding render_page
kept-render_page x s v = rw (shown_tiles-reset_media s v) (rw held-map_destroy refl)

pub kept-give_back :
    (x : Text) (o : Option Text) (s : Multiview) → kept x s ≡ true → kept x (give_back o s) ≡ true
unfolding give_back given_back
kept-give_back x none s h = h
kept-give_back x (some id) s h = ground arith

kept-given : (x : Text) (s : Multiview) → kept x (give_back (some x) s) ≡ true
unfolding give_back given_back
kept-given x s = ground (arith, text_eq_iff x x)

pub kept-remove_tile :
    (x id : Text) (s : Multiview) → IsValid s → kept x s ≡ true → kept x (remove_tile id s) ≡ true
unfolding remove_tile
kept-remove_tile x id s v h = elim (Option-cases (tile_by_id id s.tiles)) [
  | inl e ↦ rw (e, remove_tile) h
  | inr (t, e) ↦
      rw (e, remove_tile)
        (rw (kept-render_page x (without_tile id t s) (without_tile-IsValid s id t v)) (
          ground (
            arith,
            held-removed x id t s.tiles v.distinct e,
            given_back-append x (stop_requests t) s.sent,
            given_back-stop_requests x t,
          )))
]

pub kept-add_channel :
    (x : Text) (c : Connection) (name channel : Text) (s : Multiview)
    → has_id name s.tiles ≡ false
    → IsValid s
    → kept x s ≡ true
    → kept x (add_channel c name channel s) ≡ true
unfolding add_channel
kept-add_channel x c name channel s fresh v h =
    elim (Option-cases (tile_by_channel channel s.tiles)) [
      | inr (t, e) ↦
          rw (e, add_channel)
            (rw
              (kept-render_page x (record s { active = t.id })
                (record { each = v.each; distinct = v.distinct; few = v.few }))
              h)
      | inl e ↦ elim (Bool-cases (leb (connection_limit c) (length s.tiles))) [
        | inl full ↦ rw (e, add_channel) (rw (full, kept-render_page x s v) h)
        | inr room ↦
            rw (e, add_channel)
              (rw room (
                rw
                  (kept-render_page x (with_tile name channel s)
                    (with_tile-IsValid s c name channel fresh room v))
                  (ground (arith, held-append x s.tiles (new_tile s.next_ref name channel ∷ [])))))
      ]
    ]

held-start_watch :
    (x : Text) (t : Tile) (s : Multiview)
    → held x s.tiles ≡ true
    → held x (start_watch t s).tiles ≡ true
unfolding start_watch
held-start_watch x t s h = elim (Option-cases t.channel) [
  | inl e ↦ rw (e, start_watch) h
  | inr (channel, e) ↦ elim (Bool-cases (is_some t.session || is_some t.pending)) [
    | inl busy ↦ rw (e, start_watch) (rw busy h)
    | inr idle ↦ rw (e, start_watch) (rw idle (held-update_tile x t.ref _ s.tiles (same s.tiles) h))
  ]
]
  where
    same :
        (ts : List Tile)
        → All (λ u. u.ref ≡ t.ref → holds x u.session ≡ true → holds x u.session ≡ true) ts
    same [] = tt
    same (u ∷ ts) = ((λ _ q. q), same ts)

given_back-start_watch :
    (x : Text) (t : Tile) (s : Multiview)
    → given_back x (start_watch t s).sent ≡ given_back x s.sent
unfolding start_watch given_back
given_back-start_watch x t s = elim (Option-cases t.channel) [
  | inl e ↦ rw (e, start_watch) refl
  | inr (channel, e) ↦ elim (Bool-cases (is_some t.session || is_some t.pending)) [
    | inl busy ↦ rw (e, start_watch) (rw busy refl)
    | inr idle ↦ rw (e, start_watch) (rw idle refl)
  ]
]

pub kept-attach :
    (x : Text) (ref : ℕ) (s : Multiview) → kept x s ≡ true → kept x (step s (attaches ref)) ≡ true
unfolding step
kept-attach x ref s h = elim (Option-cases (find_ref ref s.tiles)) [
  | inl e ↦ rw (e, step) h
  | inr (t, e) ↦ rw (e, step) (ground (arith, held-start_watch x t s, given_back-start_watch x t s))
]

clear_pending-keeps :
    (x : Text) (ref attempt : ℕ) (ts : List Tile)
    → All
        (λ t.
          t.ref ≡ ref → holds x t.session ≡ true → holds x (clear_pending attempt t).session ≡ true)
        ts
clear_pending-keeps x ref attempt [] = tt
clear_pending-keeps x ref attempt (t ∷ ts) =
    ((λ _ q. rw ((clear_pending-same attempt t).3) q), clear_pending-keeps x ref attempt ts)

pub kept-fail :
    (x : Text) (ref attempt : ℕ) (s : Multiview)
    → kept x s ≡ true
    → kept x (step s (fails ref attempt)) ≡ true
unfolding step watch_failed
kept-fail x ref attempt s h = elim (Bool-cases (is_waiting ref attempt s.waiting)) [
  | inl w ↦ rw w (
      ground (
        arith,
        held-update_tile x ref (clear_pending attempt) s.tiles
            (clear_pending-keeps x ref attempt s.tiles),
      ))
  | inr w ↦ rw w h
]

-- The tile of an unanswered request has no session that the answer would replace.
held-started :
    (x : Text) (ref attempt : ℕ) (o : Option Text) (t : Tile) (s : Multiview)
    → IsValid s
    → is_waiting ref attempt s.waiting ≡ true
    → find_ref ref s.tiles ≡ some t
    → t.attempt ≡ attempt
    → held x s.tiles ≡ true
    → held x (update_tile ref (λ u. clear_pending attempt (record u { session = o })) s.tiles)
      ≡ true
held-started x ref attempt o t s v w e now h =
    held-update_tile x ref _ s.tiles
      (All-weaken s.tiles (λ u p same q. absurd (no_session u p same q)) (All-Found s ref t e v)) h
  where
    no_session : (u : Tile) → Found s ref t u → u.ref ≡ ref → holds x u.session ≡ true → ⊥
    no_session u p same q = elim (Option-cases u.session) [
      | inl none_held ↦ ground (arith, none_held)
      | inr (id, some_held) ↦ ground (arith, some_held, p.0.2, p.1 same)
    ]

given_back-give_back :
    (x : Text) (o : Option Text) (s : Multiview)
    → given_back x s.sent ≡ true
    → given_back x (give_back o s).sent ≡ true
unfolding give_back given_back
given_back-give_back x none s h = h
given_back-give_back x (some id) s h = ground arith

-- The state that an answer finds: the request is settled.
abbrev pub asked : ℕ → ℕ → Multiview → Multiview
asked ref attempt s = record s { waiting = answered ref attempt s.waiting }

kept-watch_started :
    (x : Text) (ref attempt : ℕ) (o : Option Text) (s : Multiview)
    → IsValid s
    → is_waiting ref attempt s.waiting ≡ true
    → kept x s ≡ true
    → kept x (watch_started ref attempt o (asked ref attempt s)) ≡ true
unfolding watch_started
kept-watch_started x ref attempt o s v w h = elim (Option-cases (find_ref ref s.tiles)) [
  | inl e ↦ rw (e, watch_started) (kept-give_back x o (asked ref attempt s) h)
  | inr (t, e) ↦ elim (Bool-cases (t.attempt == attempt)) [
    | inl now ↦
        rw (e, watch_started)
          (rw now (
            ground
              (arith, held-started x ref attempt o t s v w e ((==_iff t.attempt attempt).0 now))))
    | inr over ↦
        rw (e, watch_started)
          (rw over (
            ground (
              arith,
              held-update_tile x ref (clear_pending attempt) s.tiles
                  (clear_pending-keeps x ref attempt s.tiles),
              given_back-give_back x o (asked ref attempt s),
            )))
  ]
]

-- The answer's session itself is kept.
pub kept-delivered :
    (x : Text) (ref attempt : ℕ) (s : Multiview)
    → kept x (watch_started ref attempt (some x) s) ≡ true
unfolding watch_started give_back given_back
kept-delivered x ref attempt s = elim (Option-cases (find_ref ref s.tiles)) [
  | inl e ↦ rw (e, watch_started) (ground (arith, text_eq_iff x x))
  | inr (t, e) ↦ elim (Bool-cases (t.attempt == attempt)) [
    | inl now ↦
        rw (e, watch_started)
          (rw now (
            ground (
              arith,
              held-found x ref (λ u. clear_pending attempt (record u { session = some x })) t
                  s.tiles e,
              (clear_pending-same attempt (record t { session = some x })).3,
              text_eq_iff x x,
            )))
    | inr over ↦ rw (e, watch_started) (rw over (ground (arith, text_eq_iff x x)))
  ]
]

pub kept-answer :
    (x : Text) (ref attempt : ℕ) (o : Option Text) (s : Multiview)
    → IsValid s
    → kept x s ≡ true
    → kept x (step s (answers ref attempt o)) ≡ true
unfolding step
kept-answer x ref attempt o s v h = elim (Bool-cases (is_waiting ref attempt s.waiting)) [
  | inl w ↦ rw w (kept-watch_started x ref attempt o s v w h)
  | inr w ↦ rw w h
]
