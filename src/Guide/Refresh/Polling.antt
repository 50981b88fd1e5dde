-- ===== src/Guide/Refresh/Polling.antt =====
-- How `pollGuideRefresh` of internal/plugin/ui/guide.js ends.
use mathlib.Core.Path.{subst}
use silo_plugin_xtream_libra.Prelude.{
  ℕ, zero, suc, ◌+◌, ◌≡◌, ◌≤◌, ◌<◌, ◌-◌, Option, none, Option-cases, true, if◌then◌else◌, not, ◌||◌,
  arith, Bool-cases, inl, inr,
}
use silo_plugin_xtream_libra.Text.{Text, codes}
use silo_plugin_xtream_libra.Guide.Refresh.{
  Feed, Outcome, finished, timed_out, broken, failed, Ended, is_state, is_epg, guide_needs_followup,
  is_failed_refresh, end_poll, poll_rounds, poll_guide_refresh,
}

module _ (lower : Text → Text) (feeds : ℕ → Option Feed) (previous : ℕ) where
  -- The last feed, or the rejection of the last request, gives the reason for the end.
  abbrev pub IsReason : Outcome → ℕ → Feed → Type 0
  IsReason finished requests f =
      (is_state lower (codes "succeeded") f || not (guide_needs_followup lower previous f)) ≡ true
  IsReason timed_out requests f = guide_needs_followup lower previous f ≡ true
  IsReason broken requests f = (0 < requests) × (feeds (requests - 1) ≡ none)
  IsReason (failed message) requests f = is_failed_refresh lower f ≡ true

  abbrev IsEnd : ℕ → Ended → Type 0
  IsEnd most e = (e.requests ≤ most) × IsReason e.outcome e.requests e.feed

  end_poll-IsEnd :
      (most requests : ℕ) (f : Feed)
      → requests ≤ most
      → IsEnd most (end_poll lower previous requests f)
  unfolding end_poll
  end_poll-IsEnd most requests f h = elim (Bool-cases (guide_needs_followup lower previous f)) [
    | inl e ↦ rw e (h, e)
    | inr e ↦ rw e (h, ground (arith, e))
  ]

  before : (attempt : ℕ) → attempt + 1 - 1 ≡ attempt
  before attempt = omega arith

  -- The rest of a round after an answer that is neither a failure nor a success
  answered-IsEnd :
      (left attempt : ℕ) (next : Feed)
      → IsEnd (attempt + 1 + left) (poll_rounds lower feeds previous left (attempt + 1) next)
      → IsEnd (attempt + suc left) (
          if is_epg lower (codes "failed") next
          then end_poll lower previous (attempt + 1) next
          else poll_rounds lower feeds previous left (attempt + 1) next)
  answered-IsEnd left attempt next rest = elim (Bool-cases (is_epg lower (codes "failed") next)) [
    | inl d ↦ rw d (end_poll-IsEnd (attempt + suc left) (attempt + 1) next (omega arith))
    | inr d ↦ rw d (
        subst (λ m. IsEnd m (poll_rounds lower feeds previous left (attempt + 1) next))
          (omega arith) rest)
  ]

  poll_rounds-IsEnd :
      (left attempt : ℕ) (f : Feed)
      → IsEnd (attempt + left) (poll_rounds lower feeds previous left attempt f)
  unfolding poll_rounds
  poll_rounds-IsEnd zero attempt f = end_poll-IsEnd (attempt + 0) attempt f (omega arith)
  poll_rounds-IsEnd (suc left) attempt f =
      elim (Bool-cases (guide_needs_followup lower previous f)) [
        | inr n ↦ rw n (end_poll-IsEnd (attempt + suc left) attempt f (omega arith))
        | inl n ↦ elim (Option-cases (feeds attempt)) [
          | inl gone ↦ rw (n, gone) (omega arith, (omega arith, rw (before attempt) gone))
          | inr (next, came) ↦ elim (Bool-cases (is_failed_refresh lower next)) [
            | inl e ↦ rw (n, came, e) (omega arith, e)
            | inr e ↦ elim (Bool-cases (is_state lower (codes "succeeded") next)) [
              | inl s ↦ rw (n, came, e, s) (omega arith, ground (arith, s))
              | inr s ↦
                  rw (n, came, e, s)
                    (answered-IsEnd left attempt next (poll_rounds-IsEnd left (attempt + 1) next))
            ]
          ]
        ]
      ]

  -- The poll ends after at most 300 requests. If it finished, the refresh succeeded or no follow-up
  -- is needed by the last feed; if it timed out, one is; if it failed, the refresh failed or was
  -- canceled by the last feed; if it was broken, the last request for the status was rejected.
  pub poll_guide_refresh-IsReason :
      (f : Feed)
      → ((poll_guide_refresh lower feeds previous f).requests ≤ 300)
        × IsReason
            (poll_guide_refresh lower feeds previous f).outcome
            (poll_guide_refresh lower feeds previous f).requests
            (poll_guide_refresh lower feeds previous f).feed
  unfolding poll_guide_refresh
  poll_guide_refresh-IsReason f = poll_rounds-IsEnd 300 0 f
