-- ===== src/Guide/Refresh.antt =====
-- The wait for a refresh of the guide: `guideRefreshAdvanced`, `guideNeedsFollowupRefresh` and
-- `pollGuideRefresh` of internal/plugin/ui/guide.js. `toLowerCase` is an argument; `feeds` gives
-- what `refreshStatusData` leaves after each request, or none where the request is rejected, which
-- ends the poll.
pub mod Polling
use silo_plugin_xtream_libra.Prelude.{
  ℕ, zero, suc, ◌+◌, Bool, true, false, not, ◌&&◌, ◌||◌, Option, is_some, or_else, ltb, ◌==◌,
  if◌then◌else◌,
}
use silo_plugin_xtream_libra.Text.{Text, codes, is_empty, text_eq}

-- `state.app.status` and whether `state.app` has programs; what is absent is empty or 0.
pub record Feed : Type 0 where
  pub epg_status : Text
  pub refresh_state : Text
  pub refresh_error : Text
  pub last_success : ℕ
  pub has_programs : Bool

pub data Outcome : Type 0 where
  finished timed_out broken : Outcome
  failed : Text → Outcome

-- What the poll ended with (`broken` by a rejected request for the status), the number of its requests and the last feed
pub record Ended : Type 0 where
  pub outcome : Outcome
  pub requests : ℕ
  pub feed : Feed

unfoldable pub guide_refresh_advanced : ℕ → Feed → Bool
guide_refresh_advanced previous f =
    ltb previous f.last_success || ((previous == 0) && f.has_programs)

module _ (lower : Text → Text) where
  unfoldable pub is_state : Text → Feed → Bool
  is_state name f = text_eq (lower f.refresh_state) name

  unfoldable pub is_epg : Text → Feed → Bool
  is_epg name f = text_eq (lower f.epg_status) name

  unfoldable pub guide_needs_followup : ℕ → Feed → Bool
  guide_needs_followup previous f =
      is_state (codes "queued") f
      || is_state (codes "running") f
      || is_epg (codes "loading") f
      || not (guide_refresh_advanced previous f)

  unfoldable pub is_failed_refresh : Feed → Bool
  is_failed_refresh f = is_state (codes "failed") f || is_state (codes "canceled") f

  -- After the loop
  unfoldable pub end_poll : ℕ → ℕ → Feed → Ended
  end_poll previous requests f = record {
    outcome = (if guide_needs_followup previous f then timed_out else finished);
    requests = requests;
    feed = f;
  }

  -- The loop with the rounds that are left
  unfoldable pub poll_rounds : (ℕ → Option Feed) → ℕ → ℕ → ℕ → Feed → Ended
  poll_rounds feeds previous zero attempt f = end_poll previous attempt f
  poll_rounds feeds previous (suc left) attempt f =
      let next = or_else (feeds attempt) f in
      let rest = poll_rounds feeds previous left (attempt + 1) next in
      let message =
        (if is_empty next.refresh_error
          then codes "guide refresh did not complete"
          else next.refresh_error) in
      if not (guide_needs_followup previous f)
      then end_poll previous attempt f
      else (if not (is_some (feeds attempt))
          then record { outcome = broken; requests = attempt + 1; feed = f }
          else (if is_failed_refresh next
              then record { outcome = failed message; requests = attempt + 1; feed = next }
              else (if is_state (codes "succeeded") next
                  then record { outcome = finished; requests = attempt + 1; feed = next }
                  else (if is_epg (codes "failed") next
                      then end_poll previous (attempt + 1) next
                      else rest))))

  -- `pollGuideRefresh`
  unfoldable pub poll_guide_refresh : (ℕ → Option Feed) → ℕ → Feed → Ended
  unfolding poll_rounds
  poll_guide_refresh feeds previous f = poll_rounds feeds previous 300 0 f
