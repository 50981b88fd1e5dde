-- ===== src/Tests/Guide.antt =====
-- A guide of two programs.
use silo_plugin_xtream_libra.Prelude.{◌≡◌, refl, Bool, true, false, some, [], ◌∷◌}
use silo_plugin_xtream_libra.Text.{codes, text_eq}
use silo_plugin_xtream_libra.Json.{decimal}
use silo_plugin_xtream_libra.Guide.Windows.{
  Program, program_end, program_overlaps_window, guide_program_key, add_program, add_programs,
  is_expired, is_retained, merge_guide_window_programs, is_outside, guide_window_ignored, Guide,
  ensure_guide_coverage, store_window, fetch_guide_window, finish_coverage,
}
use silo_plugin_xtream_libra.Guide.Windows.Merge.{
  find_program, latest_program, AreDistinct, merge_guide_window_programs-AreDistinct,
  find_program-merge_guide_window_programs,
}
use silo_plugin_xtream_libra.Guide.Windows.Coverage.{is_served}

abbrev news : Program
news = record {
  id = codes "1";
  channel = codes "c";
  start_unix = 1800;
  end_unix = 3600;
  title = [];
}

abbrev film : Program
film = record {
  id = codes "2";
  channel = codes "c";
  start_unix = 3600;
  end_unix = 7200;
  title = [];
}

abbrev guide : Guide
guide = record {
  has_app = true;
  programs = news ∷ [];
  start = 1800;
  end = 3600;
  full = false;
  pending = false;
}

computes : Bool
unfolding program_end program_overlaps_window guide_program_key add_program add_programs is_expired
    is_retained merge_guide_window_programs is_outside guide_window_ignored ensure_guide_coverage
    store_window is_served fetch_guide_window finish_coverage find_program latest_program text_eq
    decimal
computes = true

-- A program without an end, for which the backend has no fresh copy, is dropped.
abbrev bulletin : Program
bulletin = record {
  id = codes "3";
  channel = codes "c";
  start_unix = 3000;
  end_unix = 0;
  title = [];
}

bulletin_dropped :
    (is_served 3600 7200 bulletin ≡ false)
    × (merge_guide_window_programs 4000 (bulletin ∷ []) [] 3600 7200 ≡ [])
unfolding computes
bulletin_dropped = (refl, refl)

find_program-merge_guide_window_programs_example :
    find_program (codes "id:1") (merge_guide_window_programs 5000 (news ∷ []) (film ∷ []) 3600 7200)
    ≡ some news
unfolding computes
find_program-merge_guide_window_programs_example =
    find_program-merge_guide_window_programs 5000 3600 7200 (news ∷ []) (film ∷ []) (codes "id:1")

merge_guide_window_programs-AreDistinct_example :
    AreDistinct (merge_guide_window_programs 5000 (news ∷ film ∷ []) (film ∷ []) 3600 7200)
unfolding computes
merge_guide_window_programs-AreDistinct_example =
    merge_guide_window_programs-AreDistinct 5000 3600 7200 (news ∷ film ∷ []) (film ∷ [])
