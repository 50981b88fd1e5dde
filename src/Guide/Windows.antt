-- ===== src/Guide/Windows.antt =====
-- The windows of time in which the guide is loaded: `programOverlapsWindow` of
-- internal/plugin/ui/app.js, `mergeGuideWindowPrograms`, `fetchGuideWindow` and `ensureGuideCoverage` of
-- internal/plugin/ui/guide.js. `now` is the clock in whole seconds.
pub mod Merge
pub mod Coverage
use silo_plugin_xtream_libra.Prelude.{
  ℕ, suc, ◌+◌, ◌-◌, ◌*◌, Bool, true, false, not, ◌&&◌, ◌||◌, Option, none, some, List, [], ◌∷◌,
  ◌++◌, ltb, leb, ◌==◌, if◌then◌else◌, min, max, filter_by, any,
}
use silo_plugin_xtream_libra.Text.{Text, codes, is_empty, text_eq}
use silo_plugin_xtream_libra.Json.{decimal}

-- A program of the guide; an absent id or title is the empty text, an absent time is 0.
pub record Program : Type 0 where
  pub id : Text
  pub channel : Text
  pub start_unix : ℕ
  pub end_unix : ℕ
  pub title : Text

abbrev pub guide_lookbehind_seconds : ℕ
guide_lookbehind_seconds = 10800

unfoldable pub program_end : Program → ℕ
program_end p = if p.end_unix == 0 then p.start_unix + 1800 else p.end_unix

unfoldable pub program_overlaps_window : ℕ → ℕ → Program → Bool
unfolding program_end
program_overlaps_window start end p = ltb start (program_end p) && ltb p.start_unix end

-- `guideProgramKey`
unfoldable pub guide_program_key : Program → Text
guide_program_key p =
    if not (is_empty p.id)
    then codes "id:" ++ p.id
    else p.channel ++ codes "@" ++ decimal p.start_unix ++ codes "@" ++ p.title

-- `add` of `mergeGuideWindowPrograms`: `order` and `merged` together, a program for each key in the
-- order of the keys' first programs.
unfoldable pub add_program : Program → List Program → List Program
add_program p [] = p ∷ []
add_program p (q ∷ qs) =
    if text_eq (guide_program_key q) (guide_program_key p) then p ∷ qs else q ∷ add_program p qs

unfoldable pub add_programs : List Program → List Program → List Program
add_programs [] merged = merged
add_programs (p ∷ ps) merged = add_programs ps (add_program p merged)

-- The program ended too long ago.
unfoldable pub is_expired : ℕ → Program → Bool
is_expired now p = not (p.end_unix == 0) && ltb p.end_unix (now - guide_lookbehind_seconds - 3600)

unfoldable pub is_retained : ℕ → ℕ → ℕ → Program → Bool
is_retained now start end p = not (is_expired now p) && not (program_overlaps_window start end p)

unfoldable pub merge_guide_window_programs : ℕ → List Program → List Program → ℕ → ℕ → List Program
merge_guide_window_programs now existing fresh start end =
    add_programs fresh (add_programs (filter_by (is_retained now start end) existing) [])

unfoldable pub is_outside : ℕ → ℕ → Program → Bool
is_outside start end p = leb end p.start_unix || (not (p.end_unix == 0) && leb p.end_unix start)

-- `guideWindowIgnoredByBackend`
unfoldable pub guide_window_ignored : List Program → ℕ → ℕ → Bool
guide_window_ignored programs start end = any (is_outside start end) programs

-- `state.app` with its programs, and `guideCoverage`; `has_app` tells whether there is an app, and
-- `pending` whether a request for a window is in flight.
pub record Guide : Type 0 where
  pub has_app : Bool
  pub programs : List Program
  pub start : ℕ
  pub end : ℕ
  pub full : Bool
  pub pending : Bool

-- `ensureGuideCoverage` up to its request for a window, and the state that waits for it.
unfoldable pub ensure_guide_coverage : ℕ → Guide → Option ((ℕ × ℕ) × Guide)
ensure_guide_coverage until g =
    if not g.has_app || g.full || g.end == 0
    then none
    else (if leb until g.end
        then none
        else (if g.pending then none else some ((g.end, until), record g { pending = true })))

-- The programs of an answer for a window, stored
unfoldable pub store_window : ℕ → ℕ → ℕ → List Program → Guide → Guide
store_window now start end programs g =
    if g.full || guide_window_ignored programs start end
    then record g { full = true; programs = programs }
    else record g {
      programs = merge_guide_window_programs now g.programs programs start end;
      start = if g.start == 0 then start else min g.start start;
      end = max g.end end;
    }

-- `fetchGuideWindow` of a window in whole seconds, with its result. `had_app` tells whether there was
-- an app at the call; the state is that of the answer, whose payload may be missing.
unfoldable pub fetch_guide_window :
    ℕ → (start end : ℕ) → (had_app : Bool) → Option (List Program) → Guide → Bool × Guide
fetch_guide_window now start end had_app payload g =
    if not had_app || leb end start then (false, g) else (elim payload [
      | none ↦ (false, g)
      | some programs ↦
          if not g.has_app then (false, g) else (true, store_window now start end programs g)
    ])

-- What the promise of `ensureGuideCoverage`, which asks with an app, resolves to and leaves: the
-- request for the window failed, or was answered.
unfoldable pub finish_coverage :
    ℕ → (start end : ℕ) → Option (Option (List Program)) → Guide → Bool × Guide
finish_coverage now start end none g = (false, record g { pending = false })
finish_coverage now start end (some payload) g =
    let (loaded, after) = fetch_guide_window now start end true payload g in
    (loaded, record after { pending = false })
