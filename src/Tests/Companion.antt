-- ===== src/Tests/Companion.antt =====
-- Game statistics that arrive every half minute.
use silo_plugin_xtream_libra.Prelude.{
  ℕ, ◌≡◌, ◌≤◌, ◌+◌, ◌*◌, refl, Bool, true, some, List, [], ◌∷◌, arith,
}
use silo_plugin_xtream_libra.Text.{Text, codes, text_eq}
use silo_plugin_xtream_libra.Companion.{Snapshot, is_recent, push, is_shown, read}
use silo_plugin_xtream_libra.Companion.History.{pushed, read-pushed}
use silo_plugin_xtream_libra.Companion.Games.{Arrival, arrived, read-arrived}

abbrev at_time : ℕ → Snapshot ℕ
at_time t = record { data_of = t + 1; at = t }

computes : Bool
unfolding is_recent push is_shown read pushed arrived text_eq
computes = true

abbrev history : List (Snapshot ℕ)
history = at_time 30000 ∷ []

read-pushed_example :
    read (codes "g") 30 70000 (pushed (codes "g") (at_time 60000 ∷ history)) ≡ some (at_time 30000)
unfolding computes
read-pushed_example =
    read-pushed (codes "g") 30 70000 (at_time 60000) (at_time 30000) history (omega arith, tt) refl
      (omega arith)

abbrev arrival : Text → ℕ → Arrival Text
arrival game t = record { game = game; data_of = game; at = t }

-- The statistics are the name of their game.
read-arrived_example : (codes "g" ≡ codes "g") × (30000 + 30 * 1000 ≤ 70000)
unfolding computes
read-arrived_example =
    read-arrived (λ d. d)
      (arrival (codes "g") 60000 ∷ arrival (codes "g") 30000 ∷ arrival (codes "h") 10000 ∷ [])
      (codes "g") 30 70000 (record { data_of = codes "g"; at = 30000 }) (refl, (refl, (refl, tt)))
      refl
