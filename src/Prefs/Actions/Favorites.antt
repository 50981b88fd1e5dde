-- ===== src/Prefs/Actions/Favorites.antt =====
-- `setChannelFavorite` of internal/plugin/ui/app.js.
use silo_plugin_xtream_libra.Prelude.{
  ◌≡◌, refl, sym, ◌∙◌, Bool, true, false, not, ◌&&◌, some, arith, if◌then◌else◌,
}
use silo_plugin_xtream_libra.Text.{Text, is_empty, text_eq, text_eq_refl, contains}
use silo_plugin_xtream_libra.Json.{bool, obj, Fields, get, put, del, own_fields, truthy, id_texts}
use silo_plugin_xtream_libra.Json.Laws.{HasDistinctKeys, get-put, get-del}
use silo_plugin_xtream_libra.Json.Keys.{put-HasDistinctKeys}
use silo_plugin_xtream_libra.Prefs.Keys.{favorites, favorite_order}
use silo_plugin_xtream_libra.Prefs.Defaults.{normalize_preferences}
use silo_plugin_xtream_libra.Prefs.Defaults.Normal.{normalize_preferences-favorite_order}
use silo_plugin_xtream_libra.Prefs.Sync.{
  Tab, normalize, save_prefs, schedule_flush, schedule_load_retry, profile_switched,
}
use silo_plugin_xtream_libra.Prefs.Actions.{
  map_at, put_in, del_in, is_favorite, edit_favorite, set_channel_favorite,
}
use silo_plugin_xtream_libra.Prefs.Actions.Shapes.{normalize_preferences-favorites}

-- The favorites after the edit.
marked : Text → Bool → Fields → Fields
marked id enabled p =
    if enabled then put id (bool true) (map_at favorites p) else del id (map_at favorites p)

edit_favorite-favorites :
    (id : Text) (enabled : Bool) (p : Fields)
    → get favorites (edit_favorite id enabled p) ≡ some (obj (marked id enabled p))
unfolding edit_favorite marked put_in del_in text_eq
edit_favorite-favorites id true p = simp get-put
edit_favorite-favorites id false p = simp get-put

edit_favorite-HasDistinctKeys :
    (id : Text) (enabled : Bool) (p : Fields)
    → HasDistinctKeys p
    → HasDistinctKeys (edit_favorite id enabled p)
unfolding edit_favorite put_in del_in
edit_favorite-HasDistinctKeys id true p d = put-HasDistinctKeys _ _ _ (put-HasDistinctKeys _ _ _ d)
edit_favorite-HasDistinctKeys id false p d =
    put-HasDistinctKeys _ _ _ (put-HasDistinctKeys _ _ _ (put-HasDistinctKeys _ _ _ d))

pub save_prefs-preferences :
    (quiet : Bool) (t : Tab) → (save_prefs quiet t).preferences ≡ t.preferences
save_prefs-preferences quiet t =
    unfold save_prefs schedule_flush schedule_load_retry profile_switched in ground arith

get-marked :
    (x id : Text) (enabled : Bool) (p : Fields)
    → truthy (get x (marked id enabled p)) ≡ (if text_eq id x then enabled else is_favorite x p)
unfolding marked is_favorite
get-marked x id true p = ground (arith, get-put x id (bool true) (map_at favorites p))
get-marked x id false p = ground (arith, get-del x id (map_at favorites p))

module _ (id : Text) (enabled : Bool) (t : Tab) (d : HasDistinctKeys t.preferences) where
  p1 : Fields
  p1 = edit_favorite id enabled t.preferences

  -- The preferences that a call with an identifier leaves.
  set_channel_favorite-preferences :
      is_empty id ≡ false
      → (set_channel_favorite id enabled t).0.preferences ≡ normalize_preferences t.channels p1
  unfolding set_channel_favorite normalize p1
  set_channel_favorite-preferences h = rw (h, save_prefs-preferences)

  set_channel_favorite-flag :
      is_empty id ≡ false
      → (set_channel_favorite id enabled t).1 ≡ is_favorite id (normalize_preferences t.channels p1)
  unfolding set_channel_favorite normalize p1
  set_channel_favorite-flag h = rw (h, save_prefs-preferences)

  favorites_after :
      get favorites (normalize_preferences t.channels p1)
      ≡ some (obj (marked id enabled t.preferences))
  unfolding p1
  favorites_after =
      normalize_preferences-favorites t.channels p1
        (edit_favorite-HasDistinctKeys id enabled t.preferences d) (marked id enabled t.preferences)
        (edit_favorite-favorites id enabled t.preferences)

  is_favorite_after :
      (x : Text)
      → is_favorite x (normalize_preferences t.channels p1)
        ≡ (if text_eq id x then enabled else is_favorite x t.preferences)
  unfolding is_favorite own_fields
  is_favorite_after x = rw favorites_after (get-marked x id enabled t.preferences)

  abbrev after : Fields
  after = (set_channel_favorite id enabled t).0.preferences

  abbrev asked : Text → Bool
  asked x = if text_eq id x then enabled else is_favorite x t.preferences

  asked_self : asked id ≡ enabled
  asked_self = rw (text_eq_refl id)

  favorites_asked : is_empty id ≡ false → (x : Text) → is_favorite x after ≡ asked x
  favorites_asked h x = rw (set_channel_favorite-preferences h) (is_favorite_after x)

  order_asked :
      is_empty id ≡ false
      → (x : Text)
      → contains x (id_texts (get favorite_order after))
        ≡ (not (is_empty x) && (asked x && contains x t.channels))
  order_asked h x =
      rw
        (
          set_channel_favorite-preferences h,
          normalize_preferences-favorite_order t.channels p1 x,
          sym (is_favorite_after x),
        )
        (unfold is_favorite in refl)

  flag_asked : is_empty id ≡ false → (set_channel_favorite id enabled t).1 ≡ enabled
  flag_asked h = set_channel_favorite-flag h ∙ is_favorite_after id ∙ asked_self

  -- After a call with an identifier and preferences whose names stand once each, the result is what
  -- was asked for; the named channel is a favorite exactly if it was asked for, every other channel
  -- as before; and the order of the favorites holds exactly the favorites that are channels that
  -- there are.
  pub set_channel_favorite-favorites :
      is_empty id ≡ false
      → (x : Text)
      → ((set_channel_favorite id enabled t).1 ≡ enabled)
        × (is_favorite x after ≡ asked x)
        × (contains x (id_texts (get favorite_order after))
            ≡ (not (is_empty x) && (asked x && contains x t.channels)))
  set_channel_favorite-favorites h x = (flag_asked h, favorites_asked h x, order_asked h x)
