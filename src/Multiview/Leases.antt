-- ===== src/Multiview/Leases.antt =====
-- Which tile holds a watch session, and whether it was given back.
use silo_plugin_xtream_libra.Prelude.{
  ℕ, ◌≡◌, refl, Bool, true, false, not, ◌||◌, Option, none, some, List, [], ◌∷◌, ◌++◌, map, arith,
  ==_iff, filter_by, All, Bool-cases, Option-cases, inl, inr,
}
use silo_plugin_xtream_libra.Text.{Text, text_eq, text_eq_iff}
use silo_plugin_xtream_libra.Multiview.{
  Tile, Request, watch_start, watch_stop, update_tile, find_ref, tile_by_id, destroy_media,
  stop_requests, stop_all_requests,
}
use silo_plugin_xtream_libra.Multiview.Invariant.{AreDistinct, has_id}

abbrev pub holds : Text → Option Text → Bool
holds x none = false
holds x (some id) = text_eq id x

-- Some tile holds the session.
unfoldable pub held : Text → List Tile → Bool
held x [] = false
held x (t ∷ ts) = holds x t.session || held x ts

-- The session was given back.
unfoldable pub given_back : Text → List Request → Bool
given_back x [] = false
given_back x (watch_start ref attempt channel ∷ rs) = given_back x rs
given_back x (watch_stop id ∷ rs) = text_eq id x || given_back x rs

pub held-map_destroy : (x : Text) (ts : List Tile) → held x (map destroy_media ts) ≡ held x ts
unfolding held destroy_media
held-map_destroy x [] = refl
held-map_destroy x (t ∷ ts) = ground (arith, held-map_destroy x ts)

pub held-append : (x : Text) (ts us : List Tile) → held x (ts ++ us) ≡ (held x ts || held x us)
unfolding held
held-append x [] us = ground arith
held-append x (t ∷ ts) us = ground (arith, held-append x ts us)

pub given_back-append :
    (x : Text) (rs qs : List Request)
    → given_back x (rs ++ qs) ≡ (given_back x rs || given_back x qs)
unfolding given_back
given_back-append x [] qs = ground arith
given_back-append x (watch_start ref attempt channel ∷ rs) qs = given_back-append x rs qs
given_back-append x (watch_stop id ∷ rs) qs = ground (arith, given_back-append x rs qs)

pub given_back-stop_requests :
    (x : Text) (t : Tile) → given_back x (stop_requests t) ≡ holds x t.session
unfolding given_back stop_requests
given_back-stop_requests x t = elim (Option-cases t.session) [
  | inl e ↦ rw (e, stop_requests) refl
  | inr (id, e) ↦ rw (e, stop_requests) (ground arith)
]

-- Stopping every tile gives back what the tiles hold.
pub given_back-stop_all_requests :
    (x : Text) (ts : List Tile) → given_back x (stop_all_requests ts) ≡ held x ts
unfolding stop_all_requests held given_back
given_back-stop_all_requests x [] = refl
given_back-stop_all_requests x (t ∷ ts) = ground (
  arith,
  given_back-append x (stop_requests t) (stop_all_requests ts),
  given_back-stop_requests x t,
  given_back-stop_all_requests x ts,
)

pub held-update_tile :
    (x : Text) (ref : ℕ) (f : Tile → Tile) (ts : List Tile)
    → All (λ t. t.ref ≡ ref → holds x t.session ≡ true → holds x (f t).session ≡ true) ts
    → held x ts ≡ true
    → held x (update_tile ref f ts) ≡ true
unfolding held update_tile
held-update_tile x ref f [] a h = h
held-update_tile x ref f (t ∷ ts) a h =
    ground (arith, held-update_tile x ref f ts a.1, a.0, ==_iff t.ref ref)

-- A tile that is found is held by the list after its change.
pub held-found :
    (x : Text) (ref : ℕ) (f : Tile → Tile) (t : Tile) (ts : List Tile)
    → find_ref ref ts ≡ some t
    → holds x (f t).session ≡ true
    → held x (update_tile ref f ts) ≡ true
unfolding held update_tile find_ref
held-found x ref f t [] e h = cc
held-found x ref f t (u ∷ ts) e h = ground (arith, held-found x ref f t ts)

filter_by-absent :
    (id : Text) (ts : List Tile)
    → has_id id ts ≡ false
    → filter_by (λ u. not (text_eq u.id id)) ts ≡ ts
unfolding has_id
filter_by-absent id [] h = refl
filter_by-absent id (t ∷ ts) h = ground (arith, filter_by-absent id ts)

-- Removing a tile by its name loses the session of that tile only.
pub held-removed :
    (x id : Text) (t : Tile) (ts : List Tile)
    → AreDistinct ts
    → tile_by_id id ts ≡ some t
    → held x ts ≡ (holds x t.session || held x (filter_by (λ u. not (text_eq u.id id)) ts))
unfolding held tile_by_id
held-removed x id t [] d e = cc
held-removed x id t (u ∷ ts) d e = elim (Bool-cases (text_eq u.id id)) [
  | inl same ↦ ground (arith, filter_by-absent id ts, text_eq_iff u.id id)
  | inr other ↦ ground (arith, held-removed x id t ts)
]
