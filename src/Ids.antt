-- ===== src/Ids.antt =====
-- Lists of identifiers: `uniqueIDs` of internal/plugin/ui/core.js.
pub mod Laws
pub mod Sizes
use silo_plugin_xtream_libra.Prelude.{◌≡◌, Bool, true, false, ◌||◌, List, [], ◌∷◌, if◌then◌else◌}
use silo_plugin_xtream_libra.Text.{Text, is_empty, contains}

-- The loop of `uniqueIDs`, with the identifiers that `seen` flags.
unfoldable pub collect_unique : List Text → List Text → List Text
collect_unique seen [] = []
collect_unique seen (v ∷ vs) =
    let skipped = collect_unique seen vs in
    let kept = v ∷ collect_unique (v ∷ seen) vs in
    if is_empty v || contains v seen then skipped else kept

unfoldable pub unique_ids : List Text → List Text
unfolding collect_unique
unique_ids values = collect_unique [] values

-- No identifier stands twice.
abbrev pub IsDistinct : List Text → Type 0
IsDistinct [] = Unit {0}
IsDistinct (x ∷ xs) = (contains x xs ≡ false) × IsDistinct xs
