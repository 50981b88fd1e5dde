-- ===== src/Tests/Rows.antt =====
-- The rows of a guide with two programs, its refresh and its search.
use silo_plugin_xtream_libra.Prelude.{
  ℕ, ◌≡◌, ◌≤◌, ◌<◌, refl, arith, Bool, true, false, Option, none, some, List, [], ◌∷◌, any, length,
  ltb, if◌then◌else◌, ◌+◌,
}
use silo_plugin_xtream_libra.Text.{Text, codes, text_eq}
use silo_plugin_xtream_libra.Text.Chars.{ascii_lower}
use silo_plugin_xtream_libra.Guide.Windows.{Program}
use silo_plugin_xtream_libra.Guide.Rows.{
  Listing, gap, shown, programs_for, is_listed, is_allowed, guide_window, guide_slot_start,
  row_cells, cells_from, gap_cell, window_entries, clamp, is_in_window, sort_entries, insert_entry,
  entry_before, raw_start, raw_end, render_epg_cells, visible_rows, guide_visible_range,
}
use silo_plugin_xtream_libra.Guide.Rows.Tiles.{Tiles, render_epg_cells-Tiles}
use silo_plugin_xtream_libra.Guide.Rows.Gaps.{is_gap, is_on, render_epg_cells-is_gap}
use silo_plugin_xtream_libra.Guide.Rows.Range.{
  guide_visible_range-bounds, guide_visible_range-visible,
}
use silo_plugin_xtream_libra.Guide.Refresh.{
  Feed, finished, poll_guide_refresh, guide_needs_followup, guide_refresh_advanced, is_state,
  is_epg, is_failed_refresh, end_poll, poll_rounds,
}
use silo_plugin_xtream_libra.Guide.Refresh.Polling.{IsReason, poll_guide_refresh-IsReason}
use silo_plugin_xtream_libra.Guide.Search.{
  search_limit, search_channels, no_result, guide_search_programs, channel_cell, timed_cell,
  cell_gap, nearest_from, guide_cell_index_at_time,
}
use silo_plugin_xtream_libra.Guide.Search.Limit.{all, cut, guide_search_programs-cut}

abbrev news : Program
news = record {
  id = codes "1";
  channel = codes "c";
  start_unix = 1800;
  end_unix = 9000;
  title = [];
}

-- A program that starts before the first one ends
abbrev film : Program
film = record {
  id = codes "2";
  channel = codes "c";
  start_unix = 7200;
  end_unix = 14400;
  title = [];
}

abbrev of_channel : Text → List Program
of_channel id = film ∷ news ∷ []

abbrev listing : Listing
listing = record { allowed = none; by_channel = of_channel; sorted = [] }

abbrev matches : Program → Bool
matches p = true

computes : Bool
unfolding programs_for is_listed is_allowed guide_window guide_slot_start row_cells cells_from
    gap_cell window_entries clamp is_in_window sort_entries insert_entry entry_before raw_start
    raw_end render_epg_cells text_eq is_on visible_rows guide_visible_range
computes = true

render_test :
    render_epg_cells false matches listing 4000 (codes "c")
    ≡ shown news 3600 9000 true false ∷ shown film 9000 14400 false false ∷ gap 14400 93600 ∷ []
unfolding computes
render_test = refl

render_epg_cells-Tiles_example :
    Tiles
      (guide_window 4000).0
      (guide_window 4000).1
      (render_epg_cells false matches listing 4000 (codes "c"))
render_epg_cells-Tiles_example = render_epg_cells-Tiles false matches listing 4000 (codes "c")

render_epg_cells-is_gap_example :
    any (is_gap 20000) (render_epg_cells false matches listing 4000 (codes "c")) ≡ true
unfolding computes
render_epg_cells-is_gap_example =
    render_epg_cells-is_gap false matches listing 4000 (codes "c") 20000 (omega arith) (omega arith)

guide_visible_range-bounds_example :
    ((guide_visible_range 500 7000 600 70 40).0 ≤ (guide_visible_range 500 7000 600 70 40).1)
    × ((guide_visible_range 500 7000 600 70 40).1 ≤ 500)
    × ((guide_visible_range 500 7000 600 70 40).1 ≤ (guide_visible_range 500 7000 600 70 40).0 + 40)
guide_visible_range-bounds_example = guide_visible_range-bounds 500 7000 600 70 40

guide_visible_range-visible_example :
    ((guide_visible_range 500 7000 600 70 40).0 ≤ 100)
    × (100 < (guide_visible_range 500 7000 600 70 40).1)
unfolding computes
guide_visible_range-visible_example =
    guide_visible_range-visible 500 7000 600 70 40 (omega arith) 100 (omega arith) (omega arith)
      (omega arith)

-- The refresh runs for two requests.
abbrev running : Feed
running = record {
  epg_status = codes "loading";
  refresh_state = codes "running";
  refresh_error = [];
  last_success = 5;
  has_programs = true;
}

abbrev feeds : ℕ → Option Feed
feeds n =
    if ltb n 2 then some running else some (record running { refresh_state = codes "Succeeded" })

refresh_test : (poll_guide_refresh ascii_lower feeds 5 running).outcome ≡ finished
unfolding poll_guide_refresh poll_rounds guide_needs_followup guide_refresh_advanced is_state is_epg
    is_failed_refresh end_poll ascii_lower text_eq
refresh_test = refl

poll_guide_refresh-IsReason_example :
    ((poll_guide_refresh ascii_lower feeds 5 running).requests ≤ 300)
    × IsReason ascii_lower feeds 5
        (poll_guide_refresh ascii_lower feeds 5 running).outcome
        (poll_guide_refresh ascii_lower feeds 5 running).requests
        (poll_guide_refresh ascii_lower feeds 5 running).feed
poll_guide_refresh-IsReason_example = poll_guide_refresh-IsReason ascii_lower feeds 5 running

guide_search_programs-cut_example :
    (guide_search_programs matches (codes "ne") of_channel (codes "c" ∷ []) (3600, 93600) 1
      ≡ cut
          (search_limit 1)
          (search_channels all matches 3600 93600 of_channel 0 (codes "c" ∷ []) no_result))
    × ((search_channels all matches 3600 93600 of_channel 0 (codes "c" ∷ []) no_result).total
        ≡ length
            (search_channels all matches 3600 93600 of_channel 0
              (codes "c" ∷ [])
              no_result).entries)
guide_search_programs-cut_example =
    guide_search_programs-cut matches (codes "ne") of_channel (codes "c" ∷ []) 3600 93600 1
      (omega arith)

cell_test :
    guide_cell_index_at_time (channel_cell ∷ timed_cell 1800 3600 ∷ timed_cell 5400 7200 ∷ []) 5000
    ≡ 2
unfolding guide_cell_index_at_time nearest_from cell_gap
cell_test = refl
