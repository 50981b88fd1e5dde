-- ===== src/Multiview.antt =====
-- Tiled live channels: internal/plugin/ui/multiview.js. The requests to the server are what the
-- handlers send, and their answers are handlers of their own. A tile object is known by its
-- number `ref`, since a request in flight may outlive the tile's place in the list.
pub mod Invariant
pub mod Pages
pub mod Steps
pub mod Leases
pub mod Kept
pub mod Runs
use silo_plugin_xtream_libra.Prelude.{
  ℕ, suc, ◌+◌, ◌<◌, Bool, true, false, not, ◌&&◌, ◌||◌, Option, none, some, List, [], ◌∷◌, ◌++◌,
  map, ltb, leb, ◌==◌, if◌then◌else◌, or_else, is_some, length, take, filter_by, any, find,
}
use silo_plugin_xtream_libra.Text.{Text, codes, is_empty, text_eq}

-- `channel` is none where the tile's channel is not known. `pending` is the attempt whose
-- `sessionPromise` the tile holds, and `playing` tells whether it has a player of media.
pub record Tile : Type 0 where
  pub ref : ℕ
  pub id : Text
  pub channel : Option Text
  pub session : Option Text
  pub pending : Option ℕ
  pub attempt : ℕ
  pub attached : Bool
  pub attaching : Bool
  pub playing : Bool

-- What is asked of the server: a watch session for a tile's attempt, or the end of a session.
pub data Request : Type 0 where
  watch_start : (ref attempt : ℕ) (channel : Text) → Request
  watch_stop : (session : Text) → Request

-- `waiting` lists the tiles and attempts of the requests for a session that are unanswered.
pub record Multiview : Type 0 where
  pub tiles : List Tile
  pub active : Text
  pub heartbeat : Bool
  pub next_ref : ℕ
  pub sent : List Request
  pub waiting : List (ℕ × ℕ)

abbrev pub no_tiles : Multiview
no_tiles = record {
  tiles = [];
  active = [];
  heartbeat = false;
  next_ref = 0;
  sent = [];
  waiting = [];
}

unfoldable pub update_tile : ℕ → (Tile → Tile) → List Tile → List Tile
update_tile ref f [] = []
update_tile ref f (t ∷ ts) =
    if t.ref == ref then f t ∷ update_tile ref f ts else t ∷ update_tile ref f ts

unfoldable pub find_ref : ℕ → List Tile → Option Tile
find_ref ref [] = none
find_ref ref (t ∷ ts) = if t.ref == ref then some t else find_ref ref ts

-- `multiviewTileByID`
unfoldable pub tile_by_id : Text → List Tile → Option Tile
tile_by_id id [] = none
tile_by_id id (t ∷ ts) = if text_eq t.id id then some t else tile_by_id id ts

-- `destroyMultiviewMedia`
unfoldable pub destroy_media : Tile → Tile
destroy_media t = record t { attached = false; attaching = false; playing = false }

unfoldable pub reset_media : Multiview → Multiview
reset_media s = record s { tiles = map destroy_media s.tiles }

-- `startMultiviewWatch` up to its request.
unfoldable pub start_watch : Tile → Multiview → Multiview
start_watch t s = elim t.channel [
  | none ↦ s
  | some channel ↦ if is_some t.session || is_some t.pending then s else record s {
    tiles =
        update_tile t.ref
          (λ u. record u { attempt = suc t.attempt; pending = some (suc t.attempt) }) s.tiles;
    sent = watch_start t.ref (suc t.attempt) channel ∷ s.sent;
    waiting = (t.ref, suc t.attempt) ∷ s.waiting;
  }
]

-- `if (tile.sessionPromise === pending) tile.sessionPromise = null`
unfoldable pub clear_pending : ℕ → Tile → Tile
clear_pending attempt t = elim t.pending [
  | none ↦ t
  | some pending ↦ if pending == attempt then record t { pending = none } else t
]

unfoldable pub give_back : Option Text → Multiview → Multiview
give_back none s = s
give_back (some id) s = record s { sent = watch_stop id ∷ s.sent }

unfoldable pub is_waiting : ℕ → ℕ → List (ℕ × ℕ) → Bool
is_waiting ref attempt [] = false
is_waiting ref attempt ((r, a) ∷ ws) = (r == ref && a == attempt) || is_waiting ref attempt ws

-- The request is answered.
unfoldable pub answered : ℕ → ℕ → List (ℕ × ℕ) → List (ℕ × ℕ)
answered ref attempt [] = []
answered ref attempt ((r, a) ∷ ws) =
    let rest = answered ref attempt ws in if r == ref && a == attempt then rest else (r, a) ∷ rest

-- The answer to a request for a session: a tile that was removed, or whose attempt is over,
-- gives the session back.
unfoldable pub watch_started : ℕ → ℕ → Option Text → Multiview → Multiview
watch_started ref attempt session s = elim (find_ref ref s.tiles) [
  | none ↦ give_back session s
  | some t ↦
      if t.attempt == attempt
      then record s {
        tiles =
            update_tile ref (λ u. clear_pending attempt (record u { session = session })) s.tiles;
        heartbeat = true;
      }
      else record (give_back session s) { tiles = update_tile ref (clear_pending attempt) s.tiles }
]

-- The request for a session failed.
unfoldable pub watch_failed : ℕ → ℕ → Multiview → Multiview
watch_failed ref attempt s = record s { tiles = update_tile ref (clear_pending attempt) s.tiles }

-- What `stopMultiviewWatch` gives back.
unfoldable pub stop_requests : Tile → List Request
stop_requests t = elim t.session [ none ↦ [] | some id ↦ watch_stop id ∷ [] ]

unfoldable pub stop_all_requests : List Tile → List Request
stop_all_requests [] = []
stop_all_requests (t ∷ ts) = stop_requests t ++ stop_all_requests ts

-- `stopAllMultiview`
unfoldable pub stop_all : Multiview → Multiview
stop_all s = record s {
  tiles = [];
  active = [];
  heartbeat = false;
  sent = stop_all_requests s.tiles ++ s.sent;
}

-- The first tile's name, or no name.
abbrev pub first_id : List Tile → Text
first_id [] = []
first_id (t ∷ ts) = t.id

-- The state that `renderMultiviewPage` leaves: at most four tiles with a channel, and audio on one
-- of them.
unfoldable pub shown_tiles : List Tile → List Tile
shown_tiles ts = take 4 (filter_by (λ t. is_some t.channel) ts)

unfoldable pub settled_active : Text → List Tile → Text
settled_active active ts =
    let named = (if is_empty active then first_id ts else active) in
    if not (is_empty named) && not (is_some (tile_by_id named ts)) then first_id ts else named

unfoldable pub render_page : Multiview → Multiview
render_page s =
    let tiles = shown_tiles (reset_media s).tiles in
    record s { tiles = tiles; active = settled_active s.active tiles }

-- The connection that the browser reports: `multiviewConnectionLimit`.
pub data Connection : Type 0 where
  unknown save_data slow_2g medium_3g fast : Connection

unfoldable pub connection_limit : Connection → ℕ
connection_limit unknown = 4
connection_limit save_data = 1
connection_limit slow_2g = 1
connection_limit medium_3g = 2
connection_limit fast = 4

unfoldable pub shows : Text → Option Text → Bool
shows channel none = false
shows channel (some c) = text_eq c channel

-- The tile of a channel, if it has one.
unfoldable pub tile_by_channel : Text → List Tile → Option Tile
unfolding shows
tile_by_channel channel [] = none
tile_by_channel channel (t ∷ ts) =
    if shows channel t.channel then some t else tile_by_channel channel ts

unfoldable pub new_tile : ℕ → Text → Text → Tile
new_tile ref name channel = record {
  ref = ref;
  id = name;
  channel = some channel;
  session = none;
  pending = none;
  attempt = 0;
  attached = false;
  attaching = false;
  playing = false;
}

-- `addChannelToMultiview`, with the page that it renders: an existing tile gets the audio, a full
-- grid refuses. `name` is the new tile's random name.
unfoldable pub add_channel : Connection → Text → Text → Multiview → Multiview
add_channel connection name channel s = elim (tile_by_channel channel s.tiles) [
  | some t ↦ render_page (record s { active = t.id })
  | none ↦
      if leb (connection_limit connection) (length s.tiles)
      then render_page s
      else render_page (record s {
        tiles = s.tiles ++ new_tile s.next_ref name channel ∷ [];
        active = name;
        next_ref = suc s.next_ref;
      })
]

-- `focusMultiviewTile`
unfoldable pub focus_tile : Text → Multiview → Multiview
focus_tile id s = if is_some (tile_by_id id s.tiles) then record s { active = id } else s

-- `removeMultiviewTile`
unfoldable pub remove_tile : Text → Multiview → Multiview
remove_tile id s = elim (tile_by_id id s.tiles) [
  | none ↦ s
  | some t ↦
      let rest = filter_by (λ u. not (text_eq u.id id)) s.tiles in
      render_page (record s {
        tiles = rest;
        active = if text_eq s.active id then first_id rest else s.active;
        sent = stop_requests t ++ s.sent;
      })
]

-- What happens to a multiview. The network answers only requests that are unanswered.
pub data Event : Type 0 where
  adds : Connection → (name channel : Text) → Event
  focuses removes : Text → Event
  attaches : ℕ → Event
  answers : (ref attempt : ℕ) → Option Text → Event
  fails : (ref attempt : ℕ) → Event
  renders clears : Event

unfoldable pub step : Multiview → Event → Multiview
step s (adds connection name channel) = add_channel connection name channel s
step s (focuses id) = focus_tile id s
step s (removes id) = remove_tile id s
step s (attaches ref) = elim (find_ref ref s.tiles) [ none ↦ s | some t ↦ start_watch t s ]
step s (answers ref attempt session) =
    if is_waiting ref attempt s.waiting
    then watch_started ref attempt session (record s { waiting = answered ref attempt s.waiting })
    else s
step s (fails ref attempt) =
    if is_waiting ref attempt s.waiting
    then watch_failed ref attempt (record s { waiting = answered ref attempt s.waiting })
    else s
step s renders = render_page s
step s clears = stop_all s
