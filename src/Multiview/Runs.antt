-- ===== src/Multiview/Runs.antt =====
-- Runs of a multiview: the watch sessions that the server gives are never lost.
use silo_plugin_xtream_libra.Prelude.{
  ◌≡◌, refl, Bool, true, false, ◌&&◌, ◌||◌, none, some, List, [], ◌∷◌, arith, is_some, Bool-cases,
  inl, inr,
}
use silo_plugin_xtream_libra.Text.{Text, text_eq_iff}
use silo_plugin_xtream_libra.Multiview.{
  Multiview, tile_by_id, is_waiting, stop_all_requests, stop_all, focus_tile, Event, adds, focuses,
  removes, attaches, answers, fails, renders, clears, step,
}
use silo_plugin_xtream_libra.Multiview.Invariant.{IsValid, IsFresh}
use silo_plugin_xtream_libra.Multiview.Steps.{step-IsValid}
use silo_plugin_xtream_libra.Multiview.Leases.{
  holds, held, given_back, given_back-append, given_back-stop_all_requests,
}
use silo_plugin_xtream_libra.Multiview.Kept.{
  kept, asked, kept-render_page, kept-remove_tile, kept-add_channel, kept-attach, kept-fail,
  kept-delivered, kept-answer,
}

-- The event answers an unanswered request with the session.
unfoldable pub delivers : Text → Multiview → Event → Bool
delivers x s (answers ref attempt o) = is_waiting ref attempt s.waiting && holds x o
delivers x s _ = false

kept-step :
    (x : Text) (s : Multiview) (e : Event)
    → IsFresh s e
    → IsValid s
    → kept x s ≡ true
    → kept x (step s e) ≡ true
unfolding step stop_all focus_tile held
kept-step x s (adds c name channel) fresh v h = kept-add_channel x c name channel s fresh.0 v h
kept-step x s (focuses id) fresh v h = elim (Bool-cases (is_some (tile_by_id id s.tiles))) [
  | inl known ↦ rw known h
  | inr other ↦ rw other h
]
kept-step x s (removes id) fresh v h = kept-remove_tile x id s v h
kept-step x s (attaches ref) fresh v h = kept-attach x ref s h
kept-step x s (answers ref attempt o) fresh v h = kept-answer x ref attempt o s v h
kept-step x s (fails ref attempt) fresh v h = kept-fail x ref attempt s h
kept-step x s renders fresh v h = rw (kept-render_page x s v) h
kept-step x s clears fresh v h = ground (
  arith,
  given_back-append x (stop_all_requests s.tiles) s.sent,
  given_back-stop_all_requests x s.tiles,
)

kept-delivers :
    (x : Text) (s : Multiview) (e : Event) → delivers x s e ≡ true → kept x (step s e) ≡ true
unfolding step delivers
kept-delivers x s (answers ref attempt none) h = ground arith
kept-delivers x s (answers ref attempt (some y)) h =
    rw (w, yx) (kept-delivered x ref attempt (asked ref attempt s))
  where
    w : is_waiting ref attempt s.waiting ≡ true
    w = ground arith

    yx : y ≡ x
    yx = (text_eq_iff y x).0 (ground arith)
kept-delivers x s (adds c name channel) h = ground arith
kept-delivers x s (focuses id) h = ground arith
kept-delivers x s (removes id) h = ground arith
kept-delivers x s (attaches ref) h = ground arith
kept-delivers x s (fails ref attempt) h = ground arith
kept-delivers x s renders h = ground arith
kept-delivers x s clears h = ground arith

unfoldable pub run : Multiview → List Event → Multiview
run s [] = s
run s (e ∷ es) = run (step s e) es

-- Each new tile of the run gets a name that no tile has.
abbrev pub AreFresh : Multiview → List Event → Type 0
AreFresh s [] = Unit {0}
AreFresh s (e ∷ es) = IsFresh s e × AreFresh (step s e) es

-- Some event of the run answers an unanswered request with the session.
unfoldable pub delivered : Text → Multiview → List Event → Bool
delivered x s [] = false
delivered x s (e ∷ es) = delivers x s e || delivered x (step s e) es

kept-run :
    (x : Text) (s : Multiview) (es : List Event)
    → AreFresh s es
    → IsValid s
    → kept x s ≡ true
    → kept x (run s es) ≡ true
unfolding run
kept-run x s [] fresh v h = h
kept-run x s (e ∷ es) fresh v h =
    kept-run x (step s e) es fresh.1 (step-IsValid s e fresh.0 v) (kept-step x s e fresh.0 v h)

-- Along every run of a well-formed multiview whose new tiles have new names, every watch session
-- that the server gave in answer to a request is held by a tile at the end or was given back. No
-- order of removals, new tiles, failures and late answers leaks a provider connection.
pub run-kept :
    (x : Text) (s : Multiview) (es : List Event)
    → AreFresh s es
    → IsValid s
    → delivered x s es ≡ true
    → (held x (run s es).tiles || given_back x (run s es).sent) ≡ true
unfolding run delivered
run-kept x s [] fresh v h = ground arith
run-kept x s (e ∷ es) fresh v h = elim (Bool-cases (delivers x s e)) [
  | inl now ↦
      kept-run x (step s e) es fresh.1 (step-IsValid s e fresh.0 v) (kept-delivers x s e now)
  | inr later ↦ run-kept x (step s e) es fresh.1 (step-IsValid s e fresh.0 v) (ground arith)
]

-- After any run, closing the multiview gives back every session that the server gave in answer to
-- a request, and leaves no tile.
pub run-stop_all :
    (x : Text) (s : Multiview) (es : List Event)
    → AreFresh s es
    → IsValid s
    → delivered x s es ≡ true
    → (given_back x (stop_all (run s es)).sent ≡ true) × ((stop_all (run s es)).tiles ≡ [])
unfolding stop_all
run-stop_all x s es fresh v h = (
  ground (
    arith,
    run-kept x s es fresh v h,
    given_back-append x (stop_all_requests (run s es).tiles) (run s es).sent,
    given_back-stop_all_requests x (run s es).tiles,
  ),
  refl,
)
