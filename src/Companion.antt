-- ===== src/Companion.antt =====
-- The delayed game statistics of the player: `SportsCompanionBuffer` and `sportsCompanionDelay` of
-- internal/plugin/ui/sports_companion.js. Times are whole milliseconds of the page's clock.
pub mod History
pub mod Games
pub mod Polling
use silo_plugin_xtream_libra.Prelude.{
  ℕ, ◌+◌, ◌*◌, Bool, Option, none, some, List, [], ◌∷◌, ◌++◌, ltb, leb, if◌then◌else◌, filter_by,
  take_last, min,
}
use silo_plugin_xtream_libra.Text.{Text, text_eq}

pub record Snapshot {ℓ} (A : Type ℓ) : Type ℓ where
  pub data_of : A
  pub at : ℕ

pub record Buffer {ℓ} (A : Type ℓ) : Type ℓ where
  pub game : Text
  pub snapshots : List (Snapshot A)

module _ {ℓ} {A : Type ℓ} where
  abbrev pub empty_buffer : Buffer A
  empty_buffer = record { game = []; snapshots = [] }

  -- The snapshot is not too old to keep.
  unfoldable pub is_recent : ℕ → Snapshot A → Bool
  is_recent now x = leb now (x.at + 360000)

  unfoldable pub push : Text → A → ℕ → Buffer A → Buffer A
  push game data_of now b =
      let held = (if text_eq game b.game then b.snapshots else []) in
      record {
        game = game;
        snapshots =
            take_last 32
              (filter_by (is_recent now) (held ++ record { data_of = data_of; at = now } ∷ []));
      }

  -- The last of a list.
  abbrev pub last_of : List (Snapshot A) → Option (Snapshot A)
  last_of [] = none
  last_of (x ∷ []) = some x
  last_of (x ∷ y ∷ ys) = last_of (y ∷ ys)

  -- The snapshot was received at least the delay ago.
  unfoldable pub is_shown : ℕ → ℕ → Snapshot A → Bool
  is_shown seconds now x = leb (x.at + seconds * 1000) now

  unfoldable pub read : Text → ℕ → ℕ → Buffer A → Option (Snapshot A)
  read game seconds now b =
      if text_eq game b.game then last_of (filter_by (is_shown seconds now) b.snapshots) else none

-- `sportsCompanionDelay` of the stored number of seconds.
unfoldable pub sports_companion_delay : ℕ → ℕ
sports_companion_delay stored = min 300 stored
