-- ===== src/Json.antt =====
-- JSON values as the client reads and writes them: the objects of
-- internal/plugin/ui/prefs.js and core.js. Numbers are whole and not negative, as every number
-- that the preferences store is. A missing property (`undefined`) is `none`.
pub mod Laws
pub mod Keys
pub mod Decimal
use native.Mathlib.Decide.{ℕ_discrete}
use mathlib.Core.Bool.{decide}
use silo_plugin_xtream_libra.Prelude.{
  ℕ, zero, suc, ◌+◌, ◌-◌, ◌/◌, ◌%◌, ◌*◌, ◌≡◌, refl, Bool, true, false, not, ◌&&◌, ◌||◌, Option,
  none, some, List, [], ◌∷◌, ◌++◌, map, ltb, leb, ◌==◌, if◌then◌else◌, or_else,
}
use silo_plugin_xtream_libra.Text.{Text, codes, text_eq, is_empty}

-- An object lists its properties in the order in which `Object.keys` gives them.
mutual
  pub data Json : Type 0 where
    null : Json
    bool : Bool → Json
    num : ℕ → Json
    str : Text → Json
    arr : Items → Json
    obj : Fields → Json

  pub data Items : Type 0 where
    nil : Items
    cons : Json → Items → Items

  pub data Fields : Type 0 where
    end : Fields
    field : Text → Json → Fields → Fields

-- An object literal.
abbrev pub object : List (Text × Json) → Fields
object [] = end
object ((k, v) ∷ rest) = field k v (object rest)

pub Json-discrete : Discrete Json
Json-discrete = hlevel ℕ_discrete

-- `prefsValueEqual` on two values: the same JSON text.
unfoldable pub json_eq : Json → Json → Bool
unfolding Json-discrete decide ℕ_discrete
json_eq a b = decide (Json-discrete a b)

-- `value === undefined ? null : value`
abbrev pub or_null : Option Json → Json
or_null v = or_else v null

-- `object[key]` on the object's own properties
unfoldable pub get : Text → Fields → Option Json
get k end = none
get k (field j v fs) = if text_eq j k then some v else get k fs

-- `Object.prototype.hasOwnProperty.call(object, key)`
unfoldable pub has : Text → Fields → Bool
has k end = false
has k (field j v fs) = text_eq j k || has k fs

-- The digits of a text, read as a decimal number.
abbrev pub is_digit : ℕ → Bool
is_digit c = leb b'0' c && leb c b'9'

unfoldable pub decimal_value : ℕ → Text → Option ℕ
decimal_value acc [] = some acc
decimal_value acc (c ∷ cs) =
    let rest = decimal_value (acc * 10 + (c - b'0')) cs in if is_digit c then rest else none

-- The number that a property name stands for if it is an array index, as `"12"` and not `"012"`.
array_index : Text → Option ℕ
unfolding decimal_value
array_index [] = none
array_index (c ∷ cs) =
    if c == b'0' && not (is_empty cs) then none else (elim (decimal_value 0 (c ∷ cs)) [
      | none ↦ none
      | some n ↦ if ltb n 4294967295 then some n else none
    ])

-- Array indices come first in an object, by size; all other names in the order of their creation.
precedes : Option ℕ → Option ℕ → Bool
precedes none other = false
precedes (some n) none = true
precedes (some n) (some m) = ltb n m

replace_field : Text → Json → Fields → Fields
replace_field k v end = end
replace_field k v (field j w fs) =
    let rest = field j w (replace_field k v fs) in if text_eq j k then field j v fs else rest

insert_field : Text → Json → Fields → Fields
insert_field k v end = field k v end
insert_field k v (field j w fs) =
    let rest = field j w (insert_field k v fs) in
    if precedes (array_index k) (array_index j) then field k v (field j w fs) else rest

-- `object[key] = value`
unfoldable pub put : Text → Json → Fields → Fields
unfolding has replace_field insert_field array_index precedes
put k v fs = if has k fs then replace_field k v fs else insert_field k v fs

-- `delete object[key]`
unfoldable pub del : Text → Fields → Fields
del k end = end
del k (field j v fs) = let rest = del k fs in if text_eq j k then rest else field j v rest

-- `Object.keys(object)`
unfoldable pub keys : Fields → List Text
keys end = []
keys (field k v fs) = k ∷ keys fs

-- `Object.assign(target, source)`
unfoldable pub assign : Fields → Fields → Fields
unfolding put
assign target end = target
assign target (field k v fs) = assign (put k v target) fs

decimal_digits : ℕ → ℕ → Text → Text
decimal_digits zero n acc = acc
decimal_digits (suc f) n acc =
    let rest = decimal_digits f (n / 10) ((b'0' + n % 10) ∷ acc) in
    if ltb n 10 then (b'0' + n) ∷ acc else rest

-- `String(n)`
unfoldable pub decimal : ℕ → Text
unfolding decimal_digits
decimal n = decimal_digits (suc n) n []

element_fields : ℕ → Items → Fields
element_fields n nil = end
element_fields n (cons x xs) = field (decimal n) x (element_fields (n + 1) xs)

character_fields : ℕ → Text → Fields
character_fields n [] = end
character_fields n (c ∷ cs) = field (decimal n) (str (c ∷ [])) (character_fields (n + 1) cs)

-- `Object.assign` from a value that may be missing or no object: arrays and texts have their
-- elements as properties, other values have none.
unfoldable pub own_fields : Option Json → Fields
unfolding element_fields character_fields decimal
own_fields (some (obj fs)) = fs
own_fields (some (arr xs)) = element_fields 0 xs
own_fields (some (str s)) = character_fields 0 s
own_fields _ = end

-- `prefsPlainObject(value)`, with the object
abbrev pub plain_object : Option Json → Option Fields
plain_object (some (obj fs)) = some fs
plain_object _ = none

abbrev pub json_list : Items → List Json
json_list nil = []
json_list (cons x xs) = x ∷ json_list xs

abbrev pub json_items : List Json → Items
json_items [] = nil
json_items (x ∷ xs) = cons x (json_items xs)

-- `Array.isArray(value)`
abbrev pub is_array : Option Json → Bool
is_array (some (arr xs)) = true
is_array _ = false

-- `items(value)`
abbrev pub items : Option Json → List Json
items (some (arr xs)) = json_list xs
items _ = []

-- `!!value`
abbrev pub truthy : Option Json → Bool
truthy none = false
truthy (some null) = false
truthy (some (bool b)) = b
truthy (some (num n)) = not (n == 0)
truthy (some (str s)) = not (is_empty s)
truthy (some (arr xs)) = true
truthy (some (obj fs)) = true

-- `String(value)`: an array joins its elements with commas, leaving `null` out.
unfoldable mutual
  unfolding decimal

  pub to_string : Json → Text
  to_string null = codes "null"
  to_string (bool true) = codes "true"
  to_string (bool false) = codes "false"
  to_string (num n) = decimal n
  to_string (str s) = s
  to_string (arr xs) = join_items xs
  to_string (obj fs) = codes "[object Object]"

  pub join_items : Items → Text
  join_items nil = []
  join_items (cons x nil) = element_string x
  join_items (cons x (cons y ys)) = element_string x ++ codes "," ++ join_items (cons y ys)

  pub element_string : Json → Text
  element_string null = []
  element_string (bool true) = codes "true"
  element_string (bool false) = codes "false"
  element_string (num n) = decimal n
  element_string (str s) = s
  element_string (arr xs) = join_items xs
  element_string (obj fs) = codes "[object Object]"

-- `String(value || "")`
unfoldable pub to_text : Json → Text
unfolding to_string
to_text v = if truthy (some v) then to_string v else []

-- An array of texts.
abbrev pub text_array : List Text → Json
text_array ts = arr (json_items (map str ts))

-- The texts of an array, as `uniqueIDs` reads them.
abbrev pub id_texts : Option Json → List Text
id_texts v = map to_text (items v)
