-- ===== src/Prefs/Defaults/Normal.antt =====
-- What `normalizePreferences` leaves in the order of the favorites and the recent channels.
use silo_plugin_xtream_libra.Prelude.{
  ◌≡◌, refl, ap, Bool, true, false, not, ◌&&◌, Option, none, some, List, [], ◌∷◌, ◌++◌, map, arith,
  is_some, if◌then◌else◌, filter_by,
}
use silo_plugin_xtream_libra.Text.{Text, is_empty, text_eq, text_eq_iff, contains}
use silo_plugin_xtream_libra.Json.{
  Json, str, Fields, get, keys, own_fields, items, truthy, to_text, to_string, id_texts, text_array,
}
use silo_plugin_xtream_libra.Json.Laws.{get-put, contains-keys, has-get}
use silo_plugin_xtream_libra.Ids.{IsDistinct}
use silo_plugin_xtream_libra.Ids.Laws.{
  contains-unique_ids, contains-append, contains-filter_by, unique_ids-IsDistinct,
}
use silo_plugin_xtream_libra.Prefs.Keys.{favorites, favorite_order}
use silo_plugin_xtream_libra.Prefs.Defaults.{
  update_field, normalize_shapes, normalize_channels, normalize_preferences, is_valid_favorite,
  normal_favorite_order,
}

pub get-update_field :
    (j k : Text) (f : Fields → Json) (p : Fields)
    → get j (update_field k f p) ≡ (if text_eq k j then some (f p) else get j p)
unfolding update_field
get-update_field j k f p = get-put j k (f p) p

if_non_empty :
    (b : Bool) (t : Text) → is_empty (if b then t else []) ≡ false → t ≡ (if b then t else [])
if_non_empty true t h = refl
if_non_empty false t h = cc

pub to_string_of_to_text : (v : Json) → is_empty (to_text v) ≡ false → to_string v ≡ to_text v
unfolding to_text
to_string_of_to_text v = if_non_empty (truthy (some v)) (to_string v)

pub to_text-str : (t : Text) → to_text (str t) ≡ t
unfolding to_text to_string
to_text-str [] = refl
to_text-str (c ∷ t) = refl

pub id_texts-text_array : (ts : List Text) → id_texts (some (text_array ts)) ≡ ts
id_texts-text_array [] = refl
id_texts-text_array (t ∷ ts) = rw to_text-str (ap (t ∷◌) (id_texts-text_array ts))

-- A stored entry that the filter drops is not in the list.
contains-dropped :
    (ok : Text → Bool) (x : Text) (vs : List Json)
    → is_empty x ≡ false
    → ok x ≡ false
    → contains x (map to_text (filter_by (λ v. ok (to_string v)) vs)) ≡ false
unfolding contains
contains-dropped ok x [] e h = refl
contains-dropped ok x (v ∷ vs) e h =
    ground (arith, contains-dropped ok x vs e h, text_eq_iff (to_text v) x, to_string_of_to_text v)

truthy_some : (v : Option Json) → truthy v ≡ true → is_some v ≡ true
truthy_some none h = h
truthy_some (some v) h = refl

is_valid_favorite-keys :
    (valid : List Text) (p : Fields) (x : Text)
    → is_valid_favorite valid p x ≡ true
    → contains x (keys (own_fields (get favorites p))) ≡ true
unfolding is_valid_favorite
is_valid_favorite-keys valid p x h =
    rw (contains-keys, has-get) (ground (arith, truthy_some (get x (own_fields (get favorites p)))))

-- A channel stands in the normal order if and only if it is a favorite.
contains-normal_favorite_order :
    (valid : List Text) (p : Fields) (x : Text)
    → contains x (normal_favorite_order valid p) ≡ (not (is_empty x) && is_valid_favorite valid p x)
unfolding normal_favorite_order
contains-normal_favorite_order valid p x = ground (
  arith,
  contains-unique_ids x (listed ++ chosen),
  contains-append x listed chosen,
  contains-dropped (is_valid_favorite valid p) x (items (get favorite_order p)),
  contains-filter_by (is_valid_favorite valid p) x (keys (own_fields (get favorites p))),
  contains-keys x (own_fields (get favorites p)),
  is_valid_favorite-keys valid p x,
)
  where
    listed : List Text
    listed =
        map to_text
          (filter_by (λ v. is_valid_favorite valid p (to_string v)) (items (get favorite_order p)))

    chosen : List Text
    chosen = filter_by (is_valid_favorite valid p) (keys (own_fields (get favorites p)))

module _ (valid : List Text) (p : Fields) where
  shapes : Fields
  shapes = normalize_shapes p

  favorites_kept : get favorites (normalize_preferences valid p) ≡ get favorites shapes
  unfolding normalize_preferences normalize_channels text_eq shapes
  favorites_kept = simp get-update_field

  order_set :
      get favorite_order (normalize_preferences valid p)
      ≡ some (text_array (normal_favorite_order valid shapes))
  unfolding normalize_preferences normalize_channels text_eq shapes
  order_set = simp get-update_field

  -- After the normalization the order of the favorites holds exactly the channels that there are
  -- and that are favorites.
  pub normalize_preferences-favorite_order :
      (x : Text)
      → contains x (id_texts (get favorite_order (normalize_preferences valid p))) ≡ (
          not (is_empty x)
          && (truthy (get x (own_fields (get favorites (normalize_preferences valid p))))
              && contains x valid))
  unfolding is_valid_favorite
  normalize_preferences-favorite_order x =
      rw (order_set, favorites_kept, id_texts-text_array)
        (contains-normal_favorite_order valid shapes x)

  -- Each of them once.
  pub normalize_preferences-favorite_order-IsDistinct :
      IsDistinct (id_texts (get favorite_order (normalize_preferences valid p)))
  unfolding normal_favorite_order
  normalize_preferences-favorite_order-IsDistinct =
      rw (order_set, id_texts-text_array) (unique_ids-IsDistinct _)
