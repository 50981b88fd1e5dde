-- ===== src/Companion/Games.antt =====
-- What the buffer of internal/plugin/ui/sports_companion.js shows when the statistics of several games
-- come one after the other.
use mathlib.Core.Path.{subst}
use silo_plugin_xtream_libra.Prelude.{
  ℕ, ◌≡◌, ◌≤◌, ◌∙◌, ◌+◌, ◌*◌, sym, true, some, List, [], ◌∷◌, arith, filter_by, if◌then◌else◌, All,
  All-append, All-filter_by, All-drop, filter_by-All, Bool-cases, inl, inr,
}
use silo_plugin_xtream_libra.Text.{Text, text_eq, text_eq_iff}
use silo_plugin_xtream_libra.Companion.{
  Snapshot, Buffer, empty_buffer, is_recent, push, last_of, is_shown, read,
}
use silo_plugin_xtream_libra.Companion.History.{last_of-All}

-- Statistics that came for a game
pub record Arrival {ℓ} (A : Type ℓ) : Type ℓ where
  pub game : Text
  pub data_of : A
  pub at : ℕ

module _ {ℓ} {A : Type ℓ} where
  -- The buffer after statistics came; the newest are first.
  unfoldable pub arrived : List (Arrival A) → Buffer A
  arrived [] = empty_buffer
  arrived (x ∷ older) = push x.game x.data_of x.at (arrived older)

  last_of-All_of {κ} :
      (P : Snapshot A → Type κ) (xs : List (Snapshot A)) (z : Snapshot A)
      → All P xs
      → last_of xs ≡ some z
      → P z
  last_of-All_of P [] z a h = absurd (cc h)
  last_of-All_of P (x ∷ []) z a h = subst P (some_injective h) a.0
    where
      some_injective : {x y : Snapshot A} → some x ≡ some y → x ≡ y
      some_injective e = cc
  last_of-All_of P (x ∷ y ∷ ys) z a h = last_of-All_of P (y ∷ ys) z a.1 h

  -- `origin` tells which game statistics are of.
  module _ (origin : A → Text) where
    abbrev pub IsLabelled : Buffer A → Type 0
    IsLabelled b = All (λ x. origin x.data_of ≡ b.game) b.snapshots

    push-IsLabelled :
        (game : Text) (d : A) (now : ℕ) (b : Buffer A)
        → origin d ≡ game
        → IsLabelled b
        → IsLabelled (push game d now b)
    unfolding push
    push-IsLabelled game d now b o a =
        All-drop P _ _ (All-filter_by P (is_recent now) _ (All-append P _ _ held (o, tt)))
      where
        P : Snapshot A → Type 0
        P x = origin x.data_of ≡ game

        held : All P (if text_eq game b.game then b.snapshots else [])
        held = elim (Bool-cases (text_eq game b.game)) [
          | inl same ↦ rw same (
              subst (λ g. All (λ x. origin x.data_of ≡ g) b.snapshots)
                (sym ((text_eq_iff game b.game).0 same)) a)
          | inr other ↦ rw other tt
        ]

    arrived-IsLabelled :
        (xs : List (Arrival A)) → All (λ x. origin x.data_of ≡ x.game) xs → IsLabelled (arrived xs)
    unfolding arrived
    arrived-IsLabelled [] h = tt
    arrived-IsLabelled (x ∷ older) h =
        push-IsLabelled x.game x.data_of x.at (arrived older) h.0 (arrived-IsLabelled older h.1)

    -- When statistics of any games came in any order, each under the name of its game, what the
    -- buffer shows under a name is of that game, and the delay has passed since it came.
    pub read-arrived :
        (xs : List (Arrival A)) (game : Text) (seconds now : ℕ) (z : Snapshot A)
        → All (λ x. origin x.data_of ≡ x.game) xs
        → read game seconds now (arrived xs) ≡ some z
        → (origin z.data_of ≡ game) × (z.at + seconds * 1000 ≤ now)
    unfolding read
    read-arrived xs game seconds now z h shows =
        elim (Bool-cases (text_eq game (arrived xs).game)) [
          | inr other ↦ ground (arith, other)
          | inl same ↦ (
            last_of-All_of (λ x. origin x.data_of ≡ (arrived xs).game) _ z
                  (All-filter_by _ (is_shown seconds now) _ (arrived-IsLabelled xs h)) (shown same)
                ∙ sym ((text_eq_iff game (arrived xs).game).0 same),
            delayed same,
          )
        ]
      where
        shown :
            text_eq game (arrived xs).game ≡ true
            → last_of (filter_by (is_shown seconds now) (arrived xs).snapshots) ≡ some z
        shown same = ground (arith, same, shows)

        delayed : text_eq game (arrived xs).game ≡ true → z.at + seconds * 1000 ≤ now
        delayed same =
            unfold is_shown in
            ground (
              arith,
              last_of-All (is_shown seconds now)
                  (filter_by (is_shown seconds now) (arrived xs).snapshots) z
                  (filter_by-All (is_shown seconds now) (arrived xs).snapshots) (shown same),
            )
