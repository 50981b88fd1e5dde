-- ===== src/Guide/Rows.antt =====
-- The rows of the guide's grid: `programsFor`, `guideWindow`, `renderEPGCells` and
-- `guideVisibleRange` of internal/plugin/ui/guide.js. A cell stands for its markup. Whether a
-- program matches the query and whether recordings can be scheduled are arguments; times are whole seconds, lengths whole pixels.
pub mod Tiles
pub mod Gaps
pub mod Range
use silo_plugin_xtream_libra.Prelude.{
  ℕ, zero, suc, ◌+◌, ◌-◌, ◌*◌, ◌/◌, Bool, true, false, not, ◌&&◌, ◌||◌, Option, none, some, List,
  [], ◌∷◌, ◌++◌, map, ltb, leb, ◌==◌, if◌then◌else◌, min, max, filter_by, any,
}
use silo_plugin_xtream_libra.Text.{Text, is_empty, text_eq, contains}
use silo_plugin_xtream_libra.Guide.Windows.{Program}

-- `selectedProfileChannelMap` with the programs of the application
pub record Listing : Type 0 where
  pub allowed : Option (List Text)
  pub by_channel : Text → List Program
  pub sorted : List Program

unfoldable pub is_allowed : Option (List Text) → Text → Bool
is_allowed none id = true
is_allowed (some ids) id = contains id ids

-- A program of the channel, or of any if there is none given, that has not ended an hour ago.
unfoldable pub is_listed : Listing → ℕ → Text → Program → Bool
is_listed l now id p =
    is_allowed l.allowed p.channel
    && (is_empty id || text_eq p.channel id)
    && (p.end_unix == 0 || leb (now - 3600) p.end_unix)

-- `programsFor`
unfoldable pub programs_for : Listing → ℕ → Text → List Program
programs_for l now id =
    let source = (if is_empty id then l.sorted else l.by_channel id) in
    if not (is_empty id) && not (is_allowed l.allowed id)
    then []
    else filter_by (is_listed l now id) source

unfoldable pub guide_slot_start : ℕ → ℕ
guide_slot_start now = now / 1800 * 1800

-- The window of the guide: its start and its end.
unfoldable pub guide_window : ℕ → ℕ × ℕ
guide_window now = (guide_slot_start now, guide_slot_start now + 25 * 3600)

slots_from : ℕ → ℕ → List ℕ
slots_from zero start = []
slots_from (suc n) start = start ∷ slots_from n (start + 1800)

unfoldable pub guide_slots : ℕ → List ℕ
unfolding slots_from
guide_slots now = slots_from 50 (guide_slot_start now)

-- `channelHasCurrentGuide` and `channelHasNearGuide`, for a channel that there is
unfoldable pub airs_within : ℕ → ℕ → Program → Bool
airs_within from until p =
    leb p.start_unix until && leb from (if p.end_unix == 0 then p.start_unix + 1800 else p.end_unix)

unfoldable pub channel_has_current_guide : Listing → ℕ → Text → Bool
channel_has_current_guide l now id = any (airs_within now (now + 600)) (programs_for l now id)

unfoldable pub channel_has_near_guide : Listing → ℕ → Text → Bool
channel_has_near_guide l now id = any (airs_within (now - 300) (now + 1800)) (programs_for l now id)

-- A program with the part of it that the window shows
pub record Entry : Type 0 where
  pub program : Program
  pub start : ℕ
  pub end : ℕ

-- A gap with its start and end, or a program with those of its cell, whether it is live and whether
-- it can be recorded
pub data Cell : Type 0 where
  gap : ℕ → ℕ → Cell
  shown : Program → ℕ → ℕ → Bool → Bool → Cell

unfoldable pub raw_start : ℕ → Program → ℕ
raw_start from p = if p.start_unix == 0 then from else p.start_unix

unfoldable pub raw_end : ℕ → Program → ℕ
unfolding raw_start
raw_end from p = if p.end_unix == 0 then raw_start from p + 1800 else p.end_unix

unfoldable pub clamp : ℕ → ℕ → Program → Entry
clamp from until p = record {
  program = p;
  start = max (raw_start from p) from;
  end = min (raw_end from p) until;
}

unfoldable pub is_in_window : (Program → Bool) → ℕ → ℕ → Entry → Bool
is_in_window matches from until e = matches e.program && ltb from e.end && ltb e.start until

-- `a.start - b.start || a.end - b.end`
unfoldable pub entry_before : Entry → Entry → Bool
entry_before a b = ltb a.start b.start || (a.start == b.start && ltb a.end b.end)

unfoldable pub insert_entry : Entry → List Entry → List Entry
insert_entry e [] = e ∷ []
insert_entry e (f ∷ rest) =
    let later = f ∷ insert_entry e rest in if entry_before f e then later else e ∷ f ∷ rest

unfoldable pub sort_entries : List Entry → List Entry
unfolding insert_entry
sort_entries [] = []
sort_entries (e ∷ es) = insert_entry e (sort_entries es)

unfoldable pub window_entries : (Program → Bool) → ℕ → ℕ → List Program → List Entry
unfolding clamp is_in_window sort_entries
window_entries matches from until ps =
    sort_entries (filter_by (is_in_window matches from until) (map (clamp from until) ps))

-- `renderEPGGapCell`
unfoldable pub gap_cell : ℕ → ℕ → List Cell
gap_cell start end = if leb end start then [] else gap start end ∷ []

-- The loop over the entries from a cursor on, and the gap after it
unfoldable pub cells_from : Bool → ℕ → ℕ → ℕ → List Entry → List Cell
unfolding gap_cell
cells_from scheduling now until cursor [] = if ltb cursor until then gap_cell cursor until else []
cells_from scheduling now until cursor (e ∷ es) =
    let start = max e.start cursor in
    let skipped = cells_from scheduling now until cursor es in
    let before = (if ltb cursor start then gap_cell cursor start else []) in
    let cell =
      shown e.program start e.end (leb start now && ltb now e.end)
        (scheduling && ltb now e.program.end_unix) in
    let drawn = before ++ (cell ∷ cells_from scheduling now until e.end es) in
    if leb e.end start then skipped else drawn

-- The cells of a row whose programs are sorted
unfoldable pub row_cells : Bool → ℕ → ℕ → ℕ → List Entry → List Cell
unfolding cells_from gap_cell
row_cells scheduling now until from [] = gap_cell from until
row_cells scheduling now until from (e ∷ es) = cells_from scheduling now until from (e ∷ es)

-- `renderEPGCells`
unfoldable pub render_epg_cells : Bool → (Program → Bool) → Listing → ℕ → Text → List Cell
unfolding window_entries row_cells
render_epg_cells scheduling matches l now id =
    let (from, until) = guide_window now in
    row_cells scheduling now until from (window_entries matches from until (programs_for l now id))

abbrev pub guide_window_overscan : ℕ
guide_window_overscan = 8

-- `guideVisibleRange`: the rows from the first to before the second
unfoldable pub visible_rows : ℕ → ℕ → ℕ
visible_rows viewport row = max 1 ((viewport + (row - 1)) / row)

unfoldable pub guide_visible_range : ℕ → ℕ → ℕ → ℕ → ℕ → ℕ × ℕ
guide_visible_range total scroll viewport row header =
    let visible = visible_rows viewport row in
    let start = min (total - visible) ((scroll - header) / row - guide_window_overscan) in
    if total == 0
    then (0, 0)
    else (start, min total (start + min 40 (visible + guide_window_overscan * 2)))
