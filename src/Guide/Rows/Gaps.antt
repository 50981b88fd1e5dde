-- ===== src/Guide/Rows/Gaps.antt =====
-- A row shows a gap exactly where no program airs: `renderEPGCells` of
-- internal/plugin/ui/guide.js.
use silo_plugin_xtream_libra.Prelude.{
  ℕ, ◌≡◌, ◌≤◌, ◌<◌, refl, Bool, false, not, ◌&&◌, ◌||◌, List, [], ◌∷◌, ◌++◌, map, arith, ltb, leb,
  if◌then◌else◌, max, filter_by, All, any, Bool-cases, inl, inr,
}
use silo_plugin_xtream_libra.Text.{Text}
use silo_plugin_xtream_libra.Guide.Windows.{Program}
use silo_plugin_xtream_libra.Guide.Rows.{
  Listing, Entry, Cell, gap, shown, clamp, is_in_window, entry_before, insert_entry, sort_entries,
  window_entries, gap_cell, cells_from, guide_window, render_epg_cells, programs_for, raw_start,
  raw_end,
}
use silo_plugin_xtream_libra.Guide.Rows.Tiles.{
  EndsBy, All-insert_entry, window_entries-EndsBy, row_cells-cells_from, guide_window-lt,
}

-- The row has a gap at this time.
abbrev pub is_gap : ℕ → Cell → Bool
is_gap t (gap a b) = leb a t && ltb t b
is_gap t (shown p a b live record_it) = false

abbrev covers : ℕ → Entry → Bool
covers t e = leb e.start t && ltb t e.end

-- The entries start in their order.
abbrev StartsAfter : ℕ → Entry → Type 0
StartsAfter a e = a ≤ e.start

abbrev AreSorted : List Entry → Type 0
AreSorted [] = Unit {0}
AreSorted (e ∷ es) = All (StartsAfter e.start) es × AreSorted es

StartsAfter-trans :
    (a b : ℕ) (es : List Entry) → a ≤ b → All (StartsAfter b) es → All (StartsAfter a) es
StartsAfter-trans a b [] h k = tt
StartsAfter-trans a b (e ∷ es) h k = (omega (arith, h, k.0), StartsAfter-trans a b es h k.1)

insert_entry-AreSorted :
    (e : Entry) (es : List Entry) → AreSorted es → AreSorted (insert_entry e es)
unfolding insert_entry entry_before
insert_entry-AreSorted e [] h = (tt, tt)
insert_entry-AreSorted e (f ∷ es) h = elim (Bool-cases (entry_before f e)) [
  | inl c ↦ rw c (
    All-insert_entry (StartsAfter f.start) e es (ground (arith, c)) h.0,
    insert_entry-AreSorted e es h.1,
  )
  | inr c ↦
      rw c ((ground (arith, c), StartsAfter-trans e.start f.start es (ground (arith, c)) h.0), h)
]

sort_entries-AreSorted : (es : List Entry) → AreSorted (sort_entries es)
unfolding sort_entries
sort_entries-AreSorted [] = tt
sort_entries-AreSorted (e ∷ es) =
    insert_entry-AreSorted e (sort_entries es) (sort_entries-AreSorted es)

covers-before :
    (t a : ℕ) (es : List Entry) → All (StartsAfter a) es → t < a → any (covers t) es ≡ false
covers-before t a [] h k = refl
covers-before t a (e ∷ es) h k = ground (arith, covers-before t a es h.1 k, h.0, k)

any-cells : (q : Cell → Bool) (xs ys : List Cell) → any q (xs ++ ys) ≡ (any q xs || any q ys)
any-cells q [] ys = refl
any-cells q (x ∷ xs) ys = ground (arith, any-cells q xs ys)

gap_before-is_gap :
    (t a b : ℕ) → any (is_gap t) (if ltb a b then gap_cell a b else []) ≡ (leb a t && ltb t b)
unfolding gap_cell
gap_before-is_gap t a b = ground arith

cells_from-is_gap :
    (scheduling : Bool) (now until t cursor : ℕ) (es : List Entry)
    → All (EndsBy until) es
    → AreSorted es
    → any (is_gap t) (cells_from scheduling now until cursor es)
      ≡ (leb cursor t && ltb t until && not (any (covers t) es))
unfolding cells_from
cells_from-is_gap scheduling now until t cursor [] h k =
    ground (arith, gap_before-is_gap t cursor until)
cells_from-is_gap scheduling now until t cursor (e ∷ es) h k =
    elim (Bool-cases (leb e.end (max e.start cursor))) [
      | inl c ↦
          rw (c, cells_from-is_gap scheduling now until t cursor es h.1 k.1) (ground (arith, c))
      | inr c ↦
          rw
            (
              c,
              any-cells,
              gap_before-is_gap t cursor (max e.start cursor),
              cells_from-is_gap scheduling now until t e.end es h.1 k.1,
            )
            (ground (arith, c, h.0, covers-before t e.start es k.0))
    ]

any-insert_entry :
    (q : Entry → Bool) (e : Entry) (es : List Entry) → any q (insert_entry e es) ≡ (q e || any q es)
unfolding insert_entry
any-insert_entry q e [] = refl
any-insert_entry q e (f ∷ es) = ground (arith, any-insert_entry q e es)

any-sort_entries : (q : Entry → Bool) (es : List Entry) → any q (sort_entries es) ≡ any q es
unfolding sort_entries
any-sort_entries q [] = refl
any-sort_entries q (e ∷ es) =
    ground (arith, any-insert_entry q e (sort_entries es), any-sort_entries q es)

window_entries-AreSorted :
    (matches : Program → Bool) (from until : ℕ) (ps : List Program)
    → AreSorted (window_entries matches from until ps)
unfolding window_entries
window_entries-AreSorted matches from until ps =
    sort_entries-AreSorted (filter_by (is_in_window matches from until) (map (clamp from until) ps))

-- The program matches the query and airs at this time.
unfoldable pub is_on : (Program → Bool) → ℕ → ℕ → Program → Bool
is_on matches from t p = matches p && leb (raw_start from p) t && ltb t (raw_end from p)

any-clamped :
    (matches : Program → Bool) (from until t : ℕ) (ps : List Program)
    → from ≤ t
    → t < until
    → any (covers t) (filter_by (is_in_window matches from until) (map (clamp from until) ps))
      ≡ any (is_on matches from t) ps
unfolding clamp is_in_window is_on
any-clamped matches from until t [] h k = refl
any-clamped matches from until t (p ∷ ps) h k =
    ground (arith, any-clamped matches from until t ps h k, h, k)

-- A row of the guide shows a gap at a time of the window exactly if no program of the channel that
-- matches the query airs at that time.
pub render_epg_cells-is_gap :
    (scheduling : Bool) (matches : Program → Bool) (l : Listing) (now : ℕ) (id : Text) (t : ℕ)
    → (guide_window now).0 ≤ t
    → t < (guide_window now).1
    → any (is_gap t) (render_epg_cells scheduling matches l now id)
      ≡ not (any (is_on matches (guide_window now).0 t) (programs_for l now id))
unfolding render_epg_cells window_entries
render_epg_cells-is_gap scheduling matches l now id t h k =
    rw
      (
        row_cells-cells_from scheduling now _ _ (window_entries matches _ _ (programs_for l now id))
            (guide_window-lt now),
        cells_from-is_gap scheduling now _ t _ (window_entries matches _ _ (programs_for l now id))
            (window_entries-EndsBy matches _ _ (programs_for l now id))
            (window_entries-AreSorted matches _ _ (programs_for l now id)),
        any-sort_entries,
        any-clamped matches (guide_window now).0 (guide_window now).1 t (programs_for l now id) h k,
      )
      (ground (arith, h, k))
