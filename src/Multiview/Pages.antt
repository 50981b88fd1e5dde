-- ===== src/Multiview/Pages.antt =====
-- The operations that change the list of tiles keep it well formed.
use silo_plugin_xtream_libra.Prelude.{
  ℕ, zero, suc, ◌≤◌, ◌<◌, ◌≡◌, refl, ap, Bool, false, not, ◌||◌, List, [], ◌∷◌, ◌++◌, map, arith,
  ltb, leb, ◌==◌, if◌then◌else◌, is_some, length, take, filter_by, All, length-append, Bool-cases,
  Option-cases, inl, inr, length-filter_by-le, All-filter_by, All-append,
}
use silo_plugin_xtream_libra.Text.{Text, text_eq, text_eq_iff}
use silo_plugin_xtream_libra.Multiview.{
  Tile, Multiview, tile_by_id, destroy_media, reset_media, stop_requests, first_id, shown_tiles,
  settled_active, render_page, Connection, unknown, save_data, slow_2g, medium_3g, fast,
  connection_limit, tile_by_channel, new_tile, add_channel, remove_tile,
}
use silo_plugin_xtream_libra.Multiview.Invariant.{
  TileIsValid, has_ref, has_id, AreDistinct, IsValid, All-weaken,
}

All-map_destroy :
    (n : ℕ) (ws : List (ℕ × ℕ)) (ts : List Tile)
    → All (TileIsValid n ws) ts
    → All (TileIsValid n ws) (map destroy_media ts)
unfolding destroy_media
All-map_destroy n ws [] a = tt
All-map_destroy n ws (t ∷ ts) a = (a.0, All-map_destroy n ws ts a.1)

take-all : (n : ℕ) (ts : List Tile) → length ts ≤ n → take n ts ≡ ts
take-all zero [] h = refl
take-all zero (t ∷ ts) h = absurd (omega arith)
take-all (suc n) [] h = refl
take-all (suc n) (t ∷ ts) h = ap (t ∷◌) (take-all n ts (omega arith))

filter_by_shown :
    (n : ℕ) (ws : List (ℕ × ℕ)) (ts : List Tile)
    → All (TileIsValid n ws) ts
    → filter_by (λ t. is_some t.channel) ts ≡ ts
filter_by_shown n ws [] a = refl
filter_by_shown n ws (t ∷ ts) a = rw (a.0.1) (ap (t ∷◌) (filter_by_shown n ws ts a.1))

length-map_destroy : (ts : List Tile) → length (map destroy_media ts) ≡ length ts
length-map_destroy [] = refl
length-map_destroy (t ∷ ts) = ap suc (length-map_destroy ts)

has_ref-map_destroy : (r : ℕ) (ts : List Tile) → has_ref r (map destroy_media ts) ≡ has_ref r ts
unfolding has_ref destroy_media
has_ref-map_destroy r [] = refl
has_ref-map_destroy r (t ∷ ts) = ground (arith, has_ref-map_destroy r ts)

has_id-map_destroy : (id : Text) (ts : List Tile) → has_id id (map destroy_media ts) ≡ has_id id ts
unfolding has_id destroy_media
has_id-map_destroy id [] = refl
has_id-map_destroy id (t ∷ ts) = ground (arith, has_id-map_destroy id ts)

AreDistinct-map_destroy : (ts : List Tile) → AreDistinct ts → AreDistinct (map destroy_media ts)
unfolding destroy_media
AreDistinct-map_destroy [] d = tt
AreDistinct-map_destroy (t ∷ ts) d =
    (rw has_ref-map_destroy d.0, rw has_id-map_destroy d.1, AreDistinct-map_destroy ts d.2)

-- A page shows every tile: none is cut off without giving its session back.
pub shown_tiles-reset_media :
    (s : Multiview) → IsValid s → shown_tiles (reset_media s).tiles ≡ map destroy_media s.tiles
unfolding shown_tiles reset_media
shown_tiles-reset_media s v =
    rw
      (filter_by_shown s.next_ref s.waiting (map destroy_media s.tiles)
        (All-map_destroy s.next_ref s.waiting s.tiles v.each))
      (take-all 4 (map destroy_media s.tiles) (rw length-map_destroy v.few))

pub render_page-IsValid : (s : Multiview) → IsValid s → IsValid (render_page s)
unfolding render_page
render_page-IsValid s v = record {
  each = rw (shown_tiles-reset_media s v) (All-map_destroy s.next_ref s.waiting s.tiles v.each);
  distinct = rw (shown_tiles-reset_media s v) (AreDistinct-map_destroy s.tiles v.distinct);
  few = rw (shown_tiles-reset_media s v) (rw length-map_destroy v.few);
}

has_ref-filter_by :
    (r : ℕ) (p : Tile → Bool) (ts : List Tile)
    → has_ref r ts ≡ false
    → has_ref r (filter_by p ts) ≡ false
unfolding has_ref
has_ref-filter_by r p [] h = refl
has_ref-filter_by r p (t ∷ ts) h = ground (arith, has_ref-filter_by r p ts)

has_id-filter_by :
    (id : Text) (p : Tile → Bool) (ts : List Tile)
    → has_id id ts ≡ false
    → has_id id (filter_by p ts) ≡ false
unfolding has_id
has_id-filter_by id p [] h = refl
has_id-filter_by id p (t ∷ ts) h = ground (arith, has_id-filter_by id p ts)

AreDistinct-filter_by :
    (p : Tile → Bool) (ts : List Tile) → AreDistinct ts → AreDistinct (filter_by p ts)
AreDistinct-filter_by p [] d = tt
AreDistinct-filter_by p (t ∷ ts) d =
    ground
      (arith, AreDistinct-filter_by p ts, has_ref-filter_by t.ref p ts, has_id-filter_by t.id p ts)

-- The multiview without a tile, before its page is rendered.
abbrev pub without_tile : Text → Tile → Multiview → Multiview
without_tile id t s =
    let rest = filter_by (λ u. not (text_eq u.id id)) s.tiles in
    record s {
      tiles = rest;
      active = if text_eq s.active id then first_id rest else s.active;
      sent = stop_requests t ++ s.sent;
    }

pub without_tile-IsValid :
    (s : Multiview) (id : Text) (t : Tile) → IsValid s → IsValid (without_tile id t s)
without_tile-IsValid s id t v = record {
  each = All-filter_by (TileIsValid s.next_ref s.waiting) _ s.tiles v.each;
  distinct = AreDistinct-filter_by _ s.tiles v.distinct;
  few = omega (arith, v.few, length-filter_by-le (λ u. not (text_eq u.id id)) s.tiles);
}

pub remove_tile-IsValid : (s : Multiview) (id : Text) → IsValid s → IsValid (remove_tile id s)
unfolding remove_tile
remove_tile-IsValid s id v = elim (Option-cases (tile_by_id id s.tiles)) [
  | inl e ↦ rw (e, remove_tile) v
  | inr (t, e) ↦ rw (e, remove_tile) (render_page-IsValid _ (without_tile-IsValid s id t v))
]

has_ref-above :
    (n : ℕ) (ws : List (ℕ × ℕ)) (ts : List Tile) → All (TileIsValid n ws) ts → has_ref n ts ≡ false
unfolding has_ref
has_ref-above n ws [] a = refl
has_ref-above n ws (t ∷ ts) a = ground (arith, has_ref-above n ws ts a.1)

has_ref-append :
    (r : ℕ) (ts : List Tile) (u : Tile) → has_ref r (ts ++ u ∷ []) ≡ (has_ref r ts || u.ref == r)
unfolding has_ref
has_ref-append r [] u = ground arith
has_ref-append r (t ∷ ts) u = ground (arith, has_ref-append r ts u)

has_id-append :
    (id : Text) (ts : List Tile) (u : Tile)
    → has_id id (ts ++ u ∷ []) ≡ (has_id id ts || text_eq u.id id)
unfolding has_id
has_id-append id [] u = ground arith
has_id-append id (t ∷ ts) u = ground (arith, has_id-append id ts u)

AreDistinct-append :
    (ts : List Tile) (u : Tile)
    → AreDistinct ts
    → has_ref u.ref ts ≡ false
    → has_id u.id ts ≡ false
    → AreDistinct (ts ++ u ∷ [])
unfolding has_ref has_id
AreDistinct-append [] u d r i = (refl, refl, tt)
AreDistinct-append (t ∷ ts) u d r i = ground (
  arith,
  AreDistinct-append ts u,
  has_ref-append t.ref ts u,
  has_id-append t.id ts u,
  text_eq_iff t.id u.id,
  text_eq_iff u.id t.id,
)

connection_limit-le : (c : Connection) → connection_limit c ≤ 4
unfolding connection_limit
connection_limit-le unknown = omega arith
connection_limit-le save_data = omega arith
connection_limit-le slow_2g = omega arith
connection_limit-le medium_3g = omega arith
connection_limit-le fast = omega arith

-- The multiview with a new tile, before its page is rendered.
abbrev pub with_tile : Text → Text → Multiview → Multiview
with_tile name channel s = record s {
  tiles = s.tiles ++ new_tile s.next_ref name channel ∷ [];
  active = name;
  next_ref = suc s.next_ref;
}

pub with_tile-IsValid :
    (s : Multiview) (c : Connection) (name channel : Text)
    → has_id name s.tiles ≡ false
    → leb (connection_limit c) (length s.tiles) ≡ false
    → IsValid s
    → IsValid (with_tile name channel s)
unfolding new_tile
with_tile-IsValid s c name channel fresh room v = record {
  each =
      All-append (TileIsValid (suc s.next_ref) s.waiting) s.tiles _
        (All-weaken s.tiles (λ t p. (omega arith, p.1, p.2)) v.each)
        ((omega arith, refl, refl), tt);
  distinct =
      AreDistinct-append s.tiles (new_tile s.next_ref name channel) v.distinct
        (has_ref-above s.next_ref s.waiting s.tiles v.each) fresh;
  few = omega (
    arith,
    length-append s.tiles (new_tile s.next_ref name channel ∷ []),
    connection_limit-le c,
    below room,
  );
}
  where
    below : leb (connection_limit c) (length s.tiles) ≡ false → length s.tiles < connection_limit c
    below h = ground arith

pub add_channel-IsValid :
    (s : Multiview) (c : Connection) (name channel : Text)
    → has_id name s.tiles ≡ false
    → IsValid s
    → IsValid (add_channel c name channel s)
unfolding add_channel
add_channel-IsValid s c name channel fresh v =
    elim (Option-cases (tile_by_channel channel s.tiles)) [
      | inr (t, e) ↦
          rw (e, add_channel)
            (render_page-IsValid _ (record { each = v.each; distinct = v.distinct; few = v.few }))
      | inl e ↦ elim (Bool-cases (leb (connection_limit c) (length s.tiles))) [
        | inl full ↦ rw (e, add_channel) (rw full (render_page-IsValid s v))
        | inr room ↦
            rw (e, add_channel)
              (rw room (render_page-IsValid _ (with_tile-IsValid s c name channel fresh room v)))
      ]
    ]

settled_active-found :
    (active : Text) (ts : List Tile)
    → is_some (tile_by_id (settled_active active ts) ts) ≡ ltb 0 (length ts)
unfolding settled_active tile_by_id
settled_active-found active [] = refl
settled_active-found active (t ∷ ts) =
    ground (arith, text_eq_iff t.id t.id, text_eq_iff t.id active)

-- After a page is rendered the audio is on one of its tiles, unless it has none.
pub render_page-active :
    (s : Multiview)
    → is_some (tile_by_id (render_page s).active (render_page s).tiles)
      ≡ ltb 0 (length (render_page s).tiles)
unfolding render_page
render_page-active s = settled_active-found s.active (shown_tiles (reset_media s).tiles)
