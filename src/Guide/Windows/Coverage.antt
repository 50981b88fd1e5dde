-- ===== src/Guide/Windows/Coverage.antt =====
-- The covered window of the guide: `ensureGuideCoverage` and `fetchGuideWindow` of
-- internal/plugin/ui/guide.js with the answer of the backend, internal/plugin/guide_index.go.
use silo_plugin_xtream_libra.Prelude.{
  ℕ, ◌≡◌, ◌≤◌, ◌<◌, ◌∙◌, ◌⊎◌, ◌&&◌, ltb, if◌then◌else◌, refl, sym, ap, Bool, true, false, none,
  some, List, [], ◌∷◌, leb, arith, filter_by, All, Bool-cases, Option-cases, inl, inr, min, max,
}
use silo_plugin_xtream_libra.Text.{Text, text_eq, text_eq_iff}
use silo_plugin_xtream_libra.Guide.Windows.{
  Program, guide_program_key, program_end, is_retained, merge_guide_window_programs,
  program_overlaps_window, is_expired, Guide,
}
use silo_plugin_xtream_libra.Guide.Windows.Merge.{
  find_program, latest_program, AreDistinct, find_program-merge_guide_window_programs,
  latest_program-filter_by, find_program-latest_program,
}

-- `overlaps` of internal/plugin/guide_index.go, by which the backend answers a request for a window:
-- a program without an end after its start is an instant.
unfoldable pub is_served : ℕ → ℕ → Program → Bool
is_served start end p =
    if leb p.end_unix p.start_unix
    then leb start p.start_unix && ltb p.start_unix end
    else ltb p.start_unix end && ltb start p.end_unix

-- The listing of the backend has the program as the one of its key, and the program has no end or
-- one after its start.
abbrev pub IsListed : List Program → Program → Type 0
IsListed listing p =
    (latest_program (guide_program_key p) listing ≡ some p)
    × ((p.end_unix ≡ 0) ⊎ (p.start_unix < p.end_unix))

-- Every program of the listing that has an end, overlaps the window and has not expired is loaded.
abbrev pub IsLoaded : ℕ → List Program → List Program → ℕ → ℕ → Type 0
IsLoaded now listing programs start end =
    (p : Program)
    → IsListed listing p
    → p.start_unix < p.end_unix
    → program_overlaps_window start end p ≡ true
    → is_expired now p ≡ false
    → find_program (guide_program_key p) programs ≡ some p

-- A program that a filtered list has as the last of its key satisfies the filter and is in the
-- list.
latest_program-kept :
    (P : Program → Type 0) (k : Text) (f : Program → Bool) (ps : List Program) (p : Program)
    → All P ps
    → latest_program k (filter_by f ps) ≡ some p
    → (f p ≡ true) × P p × (guide_program_key p ≡ k)
unfolding latest_program
latest_program-kept P k f [] p a h = ground arith
latest_program-kept P k f (q ∷ ps) p a h = elim (Bool-cases (f q)) [
  | inr drops ↦ latest_program-kept P k f ps p a.1 (ground (arith, drops))
  | inl keeps ↦ elim (Option-cases (latest_program k (filter_by f ps))) [
    | inr (r, later) ↦ latest_program-kept P k f ps p a.1 (ground (arith, keeps, later))
    | inl none_later ↦ (
      ground (arith, is_it keeps none_later),
      rw (sym (is_it keeps none_later).0) a.0,
      ground (arith, is_it keeps none_later, text_eq_iff (guide_program_key q) k),
    )
  ]
]
  where
    is_it :
        f q ≡ true
        → latest_program k (filter_by f ps) ≡ none
        → (q ≡ p) × (text_eq (guide_program_key q) k ≡ true)
    is_it keeps none_later = (ground arith, ground arith)

-- The backend serves a program that has an end just where it overlaps the window.
is_served-overlaps :
    (start end : ℕ) (p : Program)
    → p.start_unix < p.end_unix
    → is_served start end p ≡ program_overlaps_window start end p
unfolding is_served program_overlaps_window program_end
is_served-overlaps start end p ends = ground arith

is_expired-later :
    (now later : ℕ) (p : Program)
    → now ≤ later
    → is_expired later p ≡ false
    → is_expired now p ≡ false
unfolding is_expired
is_expired-later now later p le h = ground arith

module _ (now later start middle end : ℕ) (listing existing : List Program)
    (listed : All (IsListed listing) listing) (distinct : AreDistinct existing) (time : now ≤ later)
    (order : start ≤ middle) (loaded : IsLoaded now listing existing start middle) where
  -- A program that the window's share lacks has no other program of its key in it.
  before-none :
      (p : Program)
      → IsListed listing p
      → is_served middle end p ≡ false
      → latest_program (guide_program_key p) (filter_by (is_served middle end) listing) ≡ none
  before-none p l out =
      elim (Option-cases
        (latest_program (guide_program_key p) (filter_by (is_served middle end) listing))) [
          | inl e ↦ e
          | inr (q, e) ↦ absurd (other q e)
        ]
    where
      other :
          (q : Program)
          → latest_program (guide_program_key p) (filter_by (is_served middle end) listing) ≡ some q
          → ⊥
      other q e =
          let k =
            latest_program-kept (IsListed listing) (guide_program_key p) _ listing q listed e in
          ground (arith, k.0, k.1, l, ap (λ t. latest_program t listing) k.2)

  before-overlaps :
      (p : Program)
      → p.start_unix < p.end_unix
      → program_overlaps_window start end p ≡ true
      → program_overlaps_window middle end p ≡ false
      → program_overlaps_window start middle p ≡ true
  unfolding program_overlaps_window program_end
  before-overlaps p o h out = ground arith

  -- A window next to the loaded one is merged: both are loaded.
  pub merge_guide_window_programs-IsLoaded :
      IsLoaded later listing
        (merge_guide_window_programs later existing
          (filter_by (is_served middle end) listing)
          middle
          end)
        start
        end
  unfolding is_retained
  merge_guide_window_programs-IsLoaded p l ends over fresh =
      elim (Bool-cases (program_overlaps_window middle end p)) [
        | inl inside ↦
            rw
              (
                find_program-merge_guide_window_programs later middle end existing
                    (filter_by (is_served middle end) listing) (guide_program_key p),
                latest_program-filter_by (guide_program_key p) (is_served middle end) listing p l.0
                    (is_served-overlaps middle end p ends ∙ inside),
              )
              refl
        | inr out ↦
            rw
              (
                find_program-merge_guide_window_programs later middle end existing
                    (filter_by (is_served middle end) listing) (guide_program_key p),
                before-none p l (is_served-overlaps middle end p ends ∙ out),
              )
              (latest_program-filter_by (guide_program_key p) (is_retained later middle end)
                existing p
                (find_program-latest_program (guide_program_key p) existing p distinct (
                  loaded p l ends (before-overlaps p ends over out)
                    (is_expired-later now later p time fresh)))
                (ground (arith, out, fresh)))
      ]

-- A guide that is loaded by windows, whose programs have distinct keys and that covers its window.
pub record IsCovered (now : ℕ) (listing : List Program) (g : Guide) : Type 0 where
  pub distinct : AreDistinct g.programs
  pub loaded : IsLoaded now listing g.programs g.start g.end
  pub order : (0 < g.start) × (g.start ≤ g.end)
  pub windowed : g.full ≡ false
  pub app : g.has_app ≡ true

abbrev loaded_next : ℕ → ℕ → List Program → Guide → Guide
loaded_next later until listing g = record g {
  programs =
      merge_guide_window_programs later g.programs (filter_by (is_served g.end until) listing) g.end
        until;
  start = min g.start g.end;
  end = max g.end until;
  pending = false;
}
