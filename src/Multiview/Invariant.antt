-- ===== src/Multiview/Invariant.antt =====
-- The well-formedness of a multiview: distinct tiles, at most four, each with a channel.
use silo_plugin_xtream_libra.Prelude.{
  ℕ, suc, ◌≤◌, ◌<◌, ◌≡◌, refl, ◌∙◌, Bool, true, false, ◌&&◌, ◌||◌, some, List, [], ◌∷◌, arith, ◌==◌,
  ==_iff, ◌≢◌, if◌then◌else◌, is_some, length, All, Bool-cases, Option-cases, inl, inr,
}
use silo_plugin_xtream_libra.Text.{Text, text_eq, is_empty}
use silo_plugin_xtream_libra.Multiview.{
  Tile, Multiview, update_tile, find_ref, start_watch, is_waiting, answered, Event, adds,
}

-- A tile's number was allotted, it has a channel, and if it has a session the request of its
-- attempt is answered.
abbrev pub TileIsValid : ℕ → List (ℕ × ℕ) → Tile → Type 0
TileIsValid n ws t =
    (t.ref < n)
    × (is_some t.channel ≡ true)
    × ((is_some t.session && is_waiting t.ref t.attempt ws) ≡ false)

unfoldable pub has_ref : ℕ → List Tile → Bool
has_ref ref [] = false
has_ref ref (t ∷ ts) = t.ref == ref || has_ref ref ts

unfoldable pub has_id : Text → List Tile → Bool
has_id id [] = false
has_id id (t ∷ ts) = text_eq t.id id || has_id id ts

-- No two tiles have one number or one name.
abbrev pub AreDistinct : List Tile → Type 0
AreDistinct [] = Unit {0}
AreDistinct (t ∷ ts) = (has_ref t.ref ts ≡ false) × (has_id t.id ts ≡ false) × AreDistinct ts

pub record IsValid (s : Multiview) : Type 0 where
  pub each : All (TileIsValid s.next_ref s.waiting) s.tiles
  pub distinct : AreDistinct s.tiles
  pub few : length s.tiles ≤ 4

-- A new tile's random name is no empty name and no other tile's.
abbrev pub IsFresh : Multiview → Event → Type 0
IsFresh s (adds connection name channel) = (has_id name s.tiles ≡ false) × (is_empty name ≡ false)
IsFresh s _ = Unit {0}

pub is_waiting-answered :
    (r a ref attempt : ℕ) (ws : List (ℕ × ℕ))
    → is_waiting r a (answered ref attempt ws)
      ≡ (if r == ref && a == attempt then false else is_waiting r a ws)
unfolding is_waiting answered
is_waiting-answered r a ref attempt [] = ground arith
is_waiting-answered r a ref attempt ((r', a') ∷ ws) =
    ground (arith, is_waiting-answered r a ref attempt ws)

pub update_tile-absent :
    (ref : ℕ) (f : Tile → Tile) (ts : List Tile)
    → has_ref ref ts ≡ false
    → update_tile ref f ts ≡ ts
unfolding update_tile has_ref
update_tile-absent ref f [] h = refl
update_tile-absent ref f (t ∷ ts) h = ground (arith, update_tile-absent ref f ts)

has_ref-update_tile :
    (r ref : ℕ) (f : Tile → Tile) (ts : List Tile)
    → ((t : Tile) → (f t).ref ≡ t.ref)
    → has_ref r (update_tile ref f ts) ≡ has_ref r ts
unfolding update_tile has_ref
has_ref-update_tile r ref f [] h = refl
has_ref-update_tile r ref f (t ∷ ts) h = ground (arith, has_ref-update_tile r ref f ts h, h t)

has_id-update_tile :
    (id : Text) (ref : ℕ) (f : Tile → Tile) (ts : List Tile)
    → ((t : Tile) → (f t).id ≡ t.id)
    → has_id id (update_tile ref f ts) ≡ has_id id ts
unfolding update_tile has_id
has_id-update_tile id ref f [] h = refl
has_id-update_tile id ref f (t ∷ ts) h = ground (arith, has_id-update_tile id ref f ts h, h t)

pub length-update_tile :
    (ref : ℕ) (f : Tile → Tile) (ts : List Tile) → length (update_tile ref f ts) ≡ length ts
unfolding update_tile
length-update_tile ref f [] = refl
length-update_tile ref f (t ∷ ts) = ground (arith, length-update_tile ref f ts)

pub AreDistinct-update_tile :
    (ref : ℕ) (f : Tile → Tile) (ts : List Tile)
    → ((t : Tile) → (f t).ref ≡ t.ref)
    → ((t : Tile) → (f t).id ≡ t.id)
    → AreDistinct ts
    → AreDistinct (update_tile ref f ts)
unfolding update_tile
AreDistinct-update_tile ref f [] h k d = tt
AreDistinct-update_tile ref f (t ∷ ts) h k d = ground (
  arith,
  AreDistinct-update_tile ref f ts h k,
  has_ref-update_tile t.ref ref f ts h,
  has_id-update_tile t.id ref f ts k,
  h t,
  k t,
)

-- The tiles stay valid if each one does, the changed ones after their change.
pub All-update_tile :
    {P Q : Tile → Type 0} (ref : ℕ) (f : Tile → Tile) (ts : List Tile)
    → ((t : Tile) → t.ref ≡ ref → P t → Q (f t))
    → ((t : Tile) → t.ref ≢ ref → P t → Q t)
    → All P ts
    → All Q (update_tile ref f ts)
unfolding update_tile
All-update_tile ref f [] h k a = tt
All-update_tile ref f (t ∷ ts) h k a = elim (Bool-cases (t.ref == ref)) [
  | inl e ↦ rw e (h t ((==_iff t.ref ref).0 e) a.0, All-update_tile ref f ts h k a.1)
  | inr e ↦ rw e (k t (λ q. ground arith) a.0, All-update_tile ref f ts h k a.1)
]

module _ (ref : ℕ) (t : Tile) where
  absent_unique : (ts : List Tile) → has_ref ref ts ≡ false → All (λ u. u.ref ≡ ref → u ≡ t) ts
  unfolding has_ref
  absent_unique [] h = tt
  absent_unique (u ∷ ts) h = ((λ e. ground arith), absent_unique ts (ground arith))

  -- The tile that is found is the only one of its number.
  pub find_ref_unique :
      (ts : List Tile)
      → AreDistinct ts
      → find_ref ref ts ≡ some t
      → All (λ u. u.ref ≡ ref → u ≡ t) ts
  unfolding find_ref
  find_ref_unique [] d h = tt
  find_ref_unique (u ∷ ts) d h = elim (Bool-cases (u.ref == ref)) [
    | inl e ↦ ((λ _. ground arith), absent_unique ts (ground arith))
    | inr e ↦ ((λ q. ground arith), find_ref_unique ts d.2 (ground arith))
  ]

  pub find_ref-ref : (ts : List Tile) → find_ref ref ts ≡ some t → t.ref ≡ ref
  unfolding find_ref
  find_ref-ref [] h = cc
  find_ref-ref (u ∷ ts) h = ground (arith, find_ref-ref ts)

All-both : (P Q : Tile → Type 0) (ts : List Tile) → All P ts → All Q ts → All (λ t. P t × Q t) ts
All-both P Q [] p q = tt
All-both P Q (t ∷ ts) p q = ((p.0, q.0), All-both P Q ts p.1 q.1)

pub All-weaken :
    {P Q : Tile → Type 0} (ts : List Tile) → ((t : Tile) → P t → Q t) → All P ts → All Q ts
All-weaken [] h p = tt
All-weaken (t ∷ ts) h p = (h t p.0, All-weaken ts h p.1)

-- The valid tiles, each known to be the one that was found if it has the number.
abbrev pub Found : Multiview → ℕ → Tile → Tile → Type 0
Found s ref t u = TileIsValid s.next_ref s.waiting u × (u.ref ≡ ref → u ≡ t)

pub All-Found :
    (s : Multiview) (ref : ℕ) (t : Tile)
    → find_ref ref s.tiles ≡ some t
    → IsValid s
    → All (Found s ref t) s.tiles
All-Found s ref t found v =
    All-both (TileIsValid s.next_ref s.waiting) (λ u. u.ref ≡ ref → u ≡ t) s.tiles v.each
      (find_ref_unique ref t s.tiles v.distinct found)

module _ (s : Multiview) (ref : ℕ) (t : Tile) (found : find_ref ref s.tiles ≡ some t)
    (v : IsValid s) where
  start_watch-each :
      (is_some t.session || is_some t.pending) ≡ false
      → All (TileIsValid s.next_ref ((t.ref, suc t.attempt) ∷ s.waiting)) (
          update_tile t.ref
            (λ u. record u { attempt = suc t.attempt; pending = some (suc t.attempt) })
            s.tiles)
  unfolding is_waiting
  start_watch-each idle =
      All-update_tile {P = Found s ref t} t.ref _ s.tiles
        (λ u e p.
          let same : u ≡ t = p.1 (e ∙ find_ref-ref ref t s.tiles found) in
          (p.0.0, p.0.1, ground arith))
        (λ u ne p. (p.0.0, p.0.1, ground arith)) (All-Found s ref t found v)

  pub start_watch-IsValid : IsValid (start_watch t s)
  unfolding start_watch
  start_watch-IsValid = elim (Option-cases t.channel) [
    | inl e ↦ rw (e, start_watch) v
    | inr (channel, e) ↦ elim (Bool-cases (is_some t.session || is_some t.pending)) [
      | inl busy ↦ rw (e, start_watch) (rw busy v)
      | inr idle ↦
          rw (e, start_watch)
            (rw idle (record {
              each = start_watch-each idle;
              distinct = AreDistinct-update_tile t.ref _ s.tiles (λ _. refl) (λ _. refl) v.distinct;
              few = rw length-update_tile v.few;
            }))
    ]
  ]
