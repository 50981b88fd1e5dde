-- ===== src/Guide/Rows/Range.antt =====
-- `guideVisibleRange` of internal/plugin/ui/guide.js.
use silo_plugin_xtream_libra.Prelude.{
  ℕ, ◌+◌, ◌-◌, ◌/◌, ◌≤◌, ◌<◌, arith, Bool-cases, inl, inr, ◌==◌, ==_iff,
}
use silo_plugin_xtream_libra.Guide.Rows.{visible_rows, guide_visible_range}

module _ (total scroll viewport row header : ℕ) where
  abbrev range : ℕ × ℕ
  range = guide_visible_range total scroll viewport row header

  -- The drawn rows are rows of the guide, never more than forty.
  pub guide_visible_range-bounds :
      (range.0 ≤ range.1) × (range.1 ≤ total) × (range.1 ≤ range.0 + 40)
  unfolding guide_visible_range
  guide_visible_range-bounds = elim (Bool-cases (total == 0)) [
    | inl e ↦ rw e (omega arith)
    | inr e ↦ rw e (omega arith)
  ]

  -- If the visible rows and the eight before and after them are at most forty, every row of the
  -- guide from the one at the scroll position on that the viewport has room for is drawn.
  pub guide_visible_range-visible :
      visible_rows viewport row + 16 ≤ 40
      → (k : ℕ) → k < total
      → (scroll - header) / row ≤ k
      → k < (scroll - header) / row + visible_rows viewport row
      → (range.0 ≤ k) × (k < range.1)
  unfolding guide_visible_range
  guide_visible_range-visible room k inside from until = elim (Bool-cases (total == 0)) [
    | inl e ↦ absurd (omega (arith, (==_iff total 0).0 e))
    | inr e ↦ rw e (omega arith)
  ]
