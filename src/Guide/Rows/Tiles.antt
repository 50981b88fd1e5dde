-- ===== src/Guide/Rows/Tiles.antt =====
-- The cells of a row follow each other from the start of the window to its end: `renderEPGCells`
-- of internal/plugin/ui/guide.js.
use mathlib.Core.Path.{subst}
use silo_plugin_xtream_libra.Prelude.{
  ℕ, ◌≡◌, ◌≤◌, ◌<◌, refl, sym, Bool, false, List, [], ◌∷◌, ◌++◌, map, arith, ltb, leb,
  if◌then◌else◌, max, All, All-filter_by, ◌⊎◌, Bool-cases, inl, inr, ltb→lt, lt→ltb,
}
use silo_plugin_xtream_libra.Text.{Text}
use silo_plugin_xtream_libra.Guide.Windows.{Program}
use silo_plugin_xtream_libra.Guide.Rows.{
  Listing, Entry, Cell, gap, shown, clamp, insert_entry, sort_entries, window_entries, gap_cell,
  cells_from, row_cells, guide_window, render_epg_cells, programs_for,
}

abbrev pub cell_start : Cell → ℕ
cell_start (gap a b) = a
cell_start (shown p a b live record_it) = a

abbrev pub cell_end : Cell → ℕ
cell_end (gap a b) = b
cell_end (shown p a b live record_it) = b

-- Cells that are not empty and follow each other from one time to another.
abbrev pub Tiles : ℕ → ℕ → List Cell → Type 0
Tiles from until [] = from ≡ until
Tiles from until (c ∷ cs) =
    (cell_start c ≡ from) × (from < cell_end c) × Tiles (cell_end c) until cs

abbrev pub EndsBy : ℕ → Entry → Type 0
EndsBy until e = e.end ≤ until

pub All-insert_entry {κ} :
    (P : Entry → Type κ) (e : Entry) (es : List Entry) → P e → All P es → All P (insert_entry e es)
unfolding insert_entry
All-insert_entry P e [] h k = (h, tt)
All-insert_entry P e (f ∷ es) h k = ground (arith, All-insert_entry P e es h k.1)

pub All-sort_entries {κ} :
    (P : Entry → Type κ) (es : List Entry) → All P es → All P (sort_entries es)
unfolding sort_entries
All-sort_entries P [] h = tt
All-sort_entries P (e ∷ es) h =
    All-insert_entry P e (sort_entries es) h.0 (All-sort_entries P es h.1)

clamped-EndsBy :
    (from until : ℕ) (ps : List Program) → All (EndsBy until) (map (clamp from until) ps)
unfolding clamp
clamped-EndsBy from until [] = tt
clamped-EndsBy from until (p ∷ ps) = (omega arith, clamped-EndsBy from until ps)

pub window_entries-EndsBy :
    (matches : Program → Bool) (from until : ℕ) (ps : List Program)
    → All (EndsBy until) (window_entries matches from until ps)
unfolding window_entries
window_entries-EndsBy matches from until ps =
    All-sort_entries (EndsBy until) _
      (All-filter_by (EndsBy until) _ _ (clamped-EndsBy from until ps))

-- The gap before a cell, if there is room for one.
abbrev pub gap_before : ℕ → ℕ → List Cell
gap_before a b = if ltb a b then gap_cell a b else []

lt-leb : (a b : ℕ) → a < b → leb b a ≡ false
lt-leb a b h = ground (arith, h)

gap_before-cases :
    (a b : ℕ)
    → a ≤ b
    → ((a ≡ b) × (gap_before a b ≡ [])) ⊎ ((a < b) × (gap_before a b ≡ gap a b ∷ []))
unfolding gap_cell
gap_before-cases a b h = elim (Bool-cases (ltb a b)) [
  | inl e ↦ inr (ltb→lt a b e, rw (e, lt-leb a b (ltb→lt a b e)) refl)
  | inr e ↦ inl (ground (arith, h, e), rw e refl)
]

gap_before-Tiles :
    (a b until : ℕ) (cs : List Cell)
    → a ≤ b
    → Tiles b until cs
    → Tiles a until (gap_before a b ++ cs)
gap_before-Tiles a b until cs h k = elim (gap_before-cases a b h) [
  | inl (e, g) ↦ rw g (subst (λ t. Tiles t until cs) (sym e) k)
  | inr (l, g) ↦ rw g (refl, l, k)
]

cells_from-Tiles :
    (scheduling : Bool) (now until cursor : ℕ) (es : List Entry)
    → cursor ≤ until
    → All (EndsBy until) es
    → Tiles cursor until (cells_from scheduling now until cursor es)
unfolding cells_from
cells_from-Tiles scheduling now until cursor [] h k = elim (gap_before-cases cursor until h) [
  | inl (e, g) ↦ rw g e
  | inr (l, g) ↦ rw g (refl, l, refl)
]
cells_from-Tiles scheduling now until cursor (e ∷ es) h k =
    elim (Bool-cases (leb e.end (max e.start cursor))) [
      | inl c ↦ rw c (cells_from-Tiles scheduling now until cursor es h k.1)
      | inr c ↦ rw c (
          gap_before-Tiles cursor (max e.start cursor) until _ (omega arith)
            (refl, ground (arith, c), cells_from-Tiles scheduling now until e.end es k.0 k.1))
    ]

pub guide_window-lt : (now : ℕ) → (guide_window now).0 < (guide_window now).1
unfolding guide_window
guide_window-lt now = omega arith

pub row_cells-cells_from :
    (scheduling : Bool) (now until from : ℕ) (es : List Entry)
    → from < until
    → row_cells scheduling now until from es ≡ cells_from scheduling now until from es
unfolding row_cells cells_from gap_cell
row_cells-cells_from scheduling now until from [] h =
    rw (lt-leb from until h, lt→ltb from until h) refl
row_cells-cells_from scheduling now until from (e ∷ es) h = refl

-- The cells of a row fill the guide's window: they follow each other without a hole and without
-- an overlap from its start to its end, and none is empty.
pub render_epg_cells-Tiles :
    (scheduling : Bool) (matches : Program → Bool) (l : Listing) (now : ℕ) (id : Text)
    → Tiles (guide_window now).0 (guide_window now).1 (render_epg_cells scheduling matches l now id)
unfolding render_epg_cells
render_epg_cells-Tiles scheduling matches l now id =
    rw
      (row_cells-cells_from scheduling now _ _ (window_entries matches _ _ (programs_for l now id))
        (guide_window-lt now))
      (cells_from-Tiles scheduling now _ _ _ (omega (arith, guide_window-lt now))
        (window_entries-EndsBy matches _ _ (programs_for l now id)))
