-- ===== src/Json/Keys.antt =====
-- An assignment keeps the names of an object apart.
use silo_plugin_xtream_libra.Prelude.{◌≡◌, refl, false, ◌||◌, arith}
use silo_plugin_xtream_libra.Text.{Text, text_eq, text_eq_iff}
use silo_plugin_xtream_libra.Json.{Json, Fields, end, field, has, put, replace_field, insert_field}
use silo_plugin_xtream_libra.Json.Laws.{HasDistinctKeys}

has-replace_field : (j k : Text) (v : Json) (fs : Fields) → has j (replace_field k v fs) ≡ has j fs
unfolding has replace_field
has-replace_field j k v end = refl
has-replace_field j k v (field i w fs) = ground (arith, has-replace_field j k v fs)

has-insert_field :
    (j k : Text) (v : Json) (fs : Fields) → has j (insert_field k v fs) ≡ (text_eq k j || has j fs)
unfolding has insert_field
has-insert_field j k v end = refl
has-insert_field j k v (field i w fs) = ground (arith, has-insert_field j k v fs)

replace_field-HasDistinctKeys :
    (k : Text) (v : Json) (fs : Fields)
    → HasDistinctKeys fs
    → HasDistinctKeys (replace_field k v fs)
unfolding has replace_field
replace_field-HasDistinctKeys k v end d = tt
replace_field-HasDistinctKeys k v (field j w fs) d =
    ground (arith, replace_field-HasDistinctKeys k v fs, has-replace_field j k v fs)

insert_field-HasDistinctKeys :
    (k : Text) (v : Json) (fs : Fields)
    → has k fs ≡ false
    → HasDistinctKeys fs
    → HasDistinctKeys (insert_field k v fs)
unfolding has insert_field
insert_field-HasDistinctKeys k v end h d = (refl, tt)
insert_field-HasDistinctKeys k v (field j w fs) h d = ground (
  arith,
  insert_field-HasDistinctKeys k v fs,
  has-insert_field j k v fs,
  text_eq_iff k j,
  text_eq_iff j k,
)

pub put-HasDistinctKeys :
    (k : Text) (v : Json) (fs : Fields) → HasDistinctKeys fs → HasDistinctKeys (put k v fs)
unfolding put
put-HasDistinctKeys k v fs d =
    ground (arith, replace_field-HasDistinctKeys k v fs, insert_field-HasDistinctKeys k v fs)
