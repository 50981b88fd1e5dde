-- ===== src/Prefs/Order/Moves.antt =====
-- `moveFavorite` of internal/plugin/ui/app.js.
use silo_plugin_xtream_libra.Prelude.{
  ℕ, zero, suc, ◌+◌, ◌-◌, ◌≡◌, refl, sym, ◌∙◌, ap, Bool, true, false, Option, none, some, List, [],
  ◌∷◌, ◌==◌, leb, arith, if◌then◌else◌, length,
}
use silo_plugin_xtream_libra.Text.{Text, contains}
use silo_plugin_xtream_libra.Prefs.Order.{index_of, swap_next, moved_at, moved}

contains-swap_next :
    (x : Text) (n : ℕ) (ts : List Text) → contains x (swap_next n ts) ≡ contains x ts
unfolding swap_next contains
contains-swap_next x zero [] = refl
contains-swap_next x zero (a ∷ []) = refl
contains-swap_next x zero (a ∷ b ∷ ts) = ground arith
contains-swap_next x (suc n) [] = refl
contains-swap_next x (suc n) (a ∷ ts) = ground (arith, contains-swap_next x n ts)

length-swap_next : (n : ℕ) (ts : List Text) → length (swap_next n ts) ≡ length ts
unfolding swap_next
length-swap_next zero [] = refl
length-swap_next zero (a ∷ []) = refl
length-swap_next zero (a ∷ b ∷ ts) = refl
length-swap_next (suc n) [] = refl
length-swap_next (suc n) (a ∷ ts) = ap suc (length-swap_next n ts)

some_or_none : (b : Bool) (ts new : List Text) → (if b then none else some ts) ≡ some new → ts ≡ new
some_or_none true ts new h = cc
some_or_none false ts new h = cc

moved_at-swap_next :
    (o : Option ℕ) (order : List Text) (up : Bool) (new : List Text)
    → moved_at o order up ≡ some new
    → (n : ℕ) × (swap_next n order ≡ new)
unfolding moved_at
moved_at-swap_next none order up new h = absurd (cc h)
moved_at-swap_next (some n) order true new h = (n - 1, some_or_none (n == 0) _ new h)
moved_at-swap_next (some n) order false new h =
    (n, some_or_none (leb (length order) (n + 1)) _ new h)

-- A move keeps the favorites, and their number.
pub moved-contains :
    (order : List Text) (id : Text) (up : Bool) (new : List Text)
    → moved order id up ≡ some new
    → (x : Text) → (contains x new ≡ contains x order) × (length new ≡ length order)
unfolding moved
moved-contains order id up new h x =
    let (n, e) = moved_at-swap_next (index_of id order) order up new h in
    (
      ap (contains x) (sym e) ∙ contains-swap_next x n order,
      ap length (sym e) ∙ length-swap_next n order,
    )
