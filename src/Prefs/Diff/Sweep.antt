-- ===== src/Prefs/Diff/Sweep.antt =====
-- A loop over distinct property names, each round of which touches the property that it names.
use mathlib.Core.List.{foldl}
use silo_plugin_xtream_libra.Prelude.{◌≡◌, refl, Option, List, [], ◌∷◌, arith, if◌then◌else◌}
use silo_plugin_xtream_libra.Text.{Text, text_eq, text_eq_iff, contains}
use silo_plugin_xtream_libra.Json.{Json, Fields, get}
use silo_plugin_xtream_libra.Ids.{IsDistinct}

module _ (step : Fields → Text → Fields) (value : Text → Option Json → Option Json)
    (touches : (r : Fields) (k j : Text)
      → get j (step r k) ≡ (if text_eq k j then value k (get k r) else get j r)) where
  -- After the loop a named property has its new value, from the value that it had before.
  pub sweep :
      (r : Fields) (ks : List Text) (j : Text)
      → IsDistinct ks
      → get j (foldl step r ks) ≡ (if contains j ks then value j (get j r) else get j r)
  unfolding contains
  sweep r [] j d = refl
  sweep r (k ∷ ks) j d = ground (arith, sweep (step r k) ks j d.1, touches r k j, text_eq_iff k j)
