-- ===== src/Guide/Search.antt =====
-- The search of the guide and the cell at a time: `guideSearchPrograms` and `guideCellIndexAtTime`
-- of internal/plugin/ui/guide.js. Whether a program mentions the query, and is no placeholder, is
-- an argument.
pub mod Limit
use silo_plugin_xtream_libra.Prelude.{
  ℕ, zero, suc, ◌+◌, ◌-◌, Bool, true, false, not, ◌&&◌, ◌||◌, Option, none, some, List, [], ◌∷◌,
  ltb, leb, ◌==◌, if◌then◌else◌, min, max, any, length,
}
use silo_plugin_xtream_libra.Text.{Text, text_eq}
use silo_plugin_xtream_libra.Guide.Windows.{Program}

-- An entry of the result, with the number of its channel
pub record Found : Type 0 where
  pub channel : Text
  pub program : Program
  pub start : ℕ
  pub channel_index : ℕ

-- The parts of the key of an entry
pub record Key : Type 0 where
  pub channel : Text
  pub id : Text
  pub start : ℕ
  pub end : ℕ

-- `result` and `seen`
pub record Result : Type 0 where
  pub entries : List Found
  pub total : ℕ
  pub seen : List Key

unfoldable pub key_eq : Key → Key → Bool
key_eq a b =
    text_eq a.channel b.channel && text_eq a.id b.id && a.start == b.start && a.end == b.end

-- The stable sort after an entry is pushed to sorted ones
unfoldable pub found_before : ℕ → Found → Found → Bool
found_before from a b =
    ltb (max a.start from) (max b.start from)
    || (max a.start from == max b.start from && ltb a.channel_index b.channel_index)

unfoldable pub insert_found : ℕ → Found → List Found → List Found
unfolding found_before
insert_found from e [] = e ∷ []
insert_found from e (f ∷ fs) =
    let later = f ∷ insert_found from e fs in if found_before from e f then e ∷ f ∷ fs else later

-- `entries.pop()`
unfoldable pub drop_last : List Found → List Found
drop_last [] = []
drop_last (e ∷ []) = []
drop_last (e ∷ f ∷ fs) = e ∷ drop_last (f ∷ fs)

unfoldable pub pop_over : ℕ → List Found → List Found
unfolding drop_last
pop_over maximum es = if ltb maximum (length es) then drop_last es else es

-- The body of the loops, for what is done with too many entries
module _ (keep : List Found → List Found) (mentions : Program → Bool) (from until : ℕ) where
  unfoldable pub add_found : Text → ℕ → Program → Result → Result
  unfolding key_eq insert_found
  add_found channel index p r =
      let start = (if p.start_unix == 0 then from else p.start_unix) in
      let end = (if p.end_unix == 0 then start + 1800 else p.end_unix) in
      let key : Key = record { channel = channel; id = p.id; start = start; end = end } in
      let e : Found = record {
        channel = channel;
        program = p;
        start = start;
        channel_index = index;
      } in
      if leb end from || leb until start || not (mentions p) || any (key_eq key) r.seen
      then r
      else record {
        entries = keep (insert_found from e r.entries);
        total = r.total + 1;
        seen = key ∷ r.seen;
      }

  unfoldable pub search_programs : Text → ℕ → List Program → Result → Result
  unfolding add_found
  search_programs channel index [] r = r
  search_programs channel index (p ∷ ps) r =
      search_programs channel index ps (add_found channel index p r)

  unfoldable pub search_channels : (Text → List Program) → ℕ → List Text → Result → Result
  unfolding search_programs
  search_channels programs index [] r = r
  search_channels programs index (c ∷ cs) r =
      search_channels programs (index + 1) cs (search_programs c index (programs c) r)

abbrev pub no_result : Result
no_result = record { entries = []; total = 0; seen = [] }

-- The greatest number of entries, for the limit that is asked for
unfoldable pub search_limit : ℕ → ℕ
search_limit limit = max 1 (min 20 (if limit == 0 then 20 else limit))

-- `guideSearchPrograms`, for a trimmed query
unfoldable pub guide_search_programs :
    (Program → Bool) → Text → (Text → List Program) → List Text → ℕ × ℕ → ℕ → Result
unfolding pop_over search_limit search_channels
guide_search_programs mentions needle programs channels (from, until) limit =
    if ltb (length needle) 2
    then no_result
    else search_channels (pop_over (search_limit limit)) mentions from until programs 0 channels
        no_result

-- A cell of a row: the channel's own, or one with its times
pub data FocusCell : Type 0 where
  channel_cell : FocusCell
  timed_cell : ℕ → ℕ → FocusCell

-- How far a time is from a cell; none for the channel's cell
unfoldable pub cell_gap : ℕ → FocusCell → Option ℕ
cell_gap time channel_cell = none
cell_gap time (timed_cell start given_end) =
    let end = (if given_end == 0 then start + 1800 else given_end) in
    some (if ltb time start then start - time else (if leb end time then time - end + 1 else 0))

-- The loop, with the number of the best cell so far and its distance
unfoldable pub nearest_from : ℕ → List FocusCell → ℕ → Option (ℕ × ℕ) → Option (ℕ × ℕ)
unfolding cell_gap
nearest_from time [] index best = best
nearest_from time (c ∷ cs) index best =
    nearest_from time cs (index + 1)
      (elim (cell_gap time c) [ none ↦ best | some gap ↦ closer gap index best ])
  where
    closer : ℕ → ℕ → Option (ℕ × ℕ) → Option (ℕ × ℕ)
    closer gap index none = some (index, gap)
    closer gap index (some (i, distance)) =
        if ltb gap distance then some (index, gap) else some (i, distance)

-- `guideCellIndexAtTime`
unfoldable pub guide_cell_index_at_time : List FocusCell → ℕ → ℕ
unfolding nearest_from
guide_cell_index_at_time cells time = elim (nearest_from time cells 0 none) [
  | none ↦ 0
  | some (index, distance) ↦ index
]
