-- ===== src/Prefs/Phantoms.antt =====
-- Follows of teams that do not exist: `dropKnownPhantomSportsFollows` of
-- internal/plugin/ui/prefs.js, and `dropPhantomSportsFollows` with its helpers of
-- internal/plugin/ui/sports.js. The teams that the sports data names are given as records.
use mathlib.Core.List.{foldl}
use silo_plugin_xtream_libra.Prelude.{
  Bool, true, false, not, ◌&&◌, ◌||◌, Option, none, some, List, [], ◌∷◌, ◌++◌, if◌then◌else◌,
  or_else, filter_by,
}
use silo_plugin_xtream_libra.Text.{Text, codes, is_empty, contains}
use silo_plugin_xtream_libra.Text.Chars.{trim, starts_with}
use silo_plugin_xtream_libra.Json.{
  Json, str, obj, Fields, get, has, put, del, keys, plain_object, own_fields, truthy, to_text,
}
use silo_plugin_xtream_libra.Ids.{unique_ids}
use silo_plugin_xtream_libra.Prefs.Defaults.{member}

-- A team of the sports data: its name or display name, and all its identifiers as texts.
pub record Team : Type 0 where
  pub name : Text
  pub identifiers : List Text

unfoldable pub team_has_name : Team → Bool
team_has_name team = not (is_empty (trim team.name))

unfoldable pub team_identity_ids : Team → List Text
team_identity_ids team = unique_ids (filter_by (λ id. not (is_empty (trim id))) team.identifiers)

abbrev pub known_phantom : Text
known_phantom = codes "sports-team:cbe5cfdf7c2118a9"

abbrev favorite_teams : Text
favorite_teams = codes "sportsFavoriteTeams"

abbrev team_labels : Text
team_labels = codes "sportsFavoriteTeamLabels"

-- One map without the known phantom, and whether it was there.
unfoldable pub drop_known_in : Text → Fields → Fields × Bool
drop_known_in key p = elim (plain_object (get key p)) [
  | none ↦ (p, false)
  | some m ↦
      if has known_phantom m then (put key (obj (del known_phantom m)) p, true) else (p, false)
]

unfoldable pub drop_known_phantoms : Fields → Fields × Bool
unfolding drop_known_in
drop_known_phantoms p =
    let (p1, first) = drop_known_in favorite_teams p in
    let (p2, second) = drop_known_in team_labels p1 in (p2, first || second)

-- The identifiers of the teams with a name, or of those without.
unfoldable pub identities : Bool → List Team → List Text
unfolding team_has_name team_identity_ids
identities named [] = []
identities named (team ∷ teams) =
    let rest = identities named teams in
    if same named (team_has_name team) then team_identity_ids team ++ rest else rest
  where
    same : Bool → Bool → Bool
    same true b = b
    same false b = not b

-- `String(label.name || "")`
unfoldable pub label_name : Option Json → Text
label_name none = []
label_name (some label) = to_text (or_else (member (codes "name") label) (str []))

unfoldable pub is_phantom_follow : List Team → Fields → Fields → Text → Bool
unfolding identities label_name
is_phantom_follow teams followed labels id =
    truthy (get id followed)
    && contains id (identities false teams)
    && not (contains id (identities true teams))
    && not (truthy (get id labels) && not (is_empty (trim (label_name (get id labels)))))
    && not (starts_with (codes "gamepass:") id)

-- The preferences without those follows, and whether any was dropped.
unfoldable pub drop_phantom_follows : List Team → Fields → Fields × Bool
unfolding is_phantom_follow
drop_phantom_follows teams p =
    let followed = own_fields (get favorite_teams p) in
    let labels = own_fields (get team_labels p) in
    let dropped = filter_by (is_phantom_follow teams followed labels) (keys followed) in
    let p1 = put favorite_teams (obj (foldl (λ m id. del id m) followed dropped)) p in
    let p2 =
      (if has team_labels p
        then put team_labels (obj (foldl (λ m id. del id m) labels dropped)) p1
        else p1) in
    elim dropped [ [] ↦ (p, false) | id ∷ ids ↦ (p2, true) ]
