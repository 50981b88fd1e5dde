-- ===== src/Companion/History.antt =====
-- What the buffer of internal/plugin/ui/sports_companion.js shows of the whole history of a game.
use silo_plugin_xtream_libra.Prelude.{
  ℕ, ◌≡◌, ◌≤◌, ◌+◌, ◌-◌, ◌*◌, refl, ap, Bool, true, false, some, List, [], ◌∷◌, ◌++◌, arith, leb,
  filter_by, take_last, length, All, filter_by-append, length-append, Bool-cases, inl, inr, ◌⊎◌,
}
use silo_plugin_xtream_libra.Text.{Text, text_eq_refl}
use silo_plugin_xtream_libra.Companion.{Snapshot, Buffer, is_recent, push, last_of, is_shown, read}

module _ {ℓ} {A : Type ℓ} where
  -- The buffer after a game's snapshots were pushed; the newest snapshot is first.
  unfoldable pub pushed : Text → List (Snapshot A) → Buffer A
  pushed game [] = record { game = game; snapshots = [] }
  pushed game (x ∷ older) = push game x.data_of x.at (pushed game older)

  -- The snapshots in the order in which they came.
  abbrev pub in_order : List (Snapshot A) → List (Snapshot A)
  in_order [] = []
  in_order (x ∷ older) = in_order older ++ x ∷ []

  -- Each snapshot came at least 18 seconds after the one before.
  abbrev pub IsSpaced : List (Snapshot A) → Type 0
  IsSpaced [] = Unit {0}
  IsSpaced (x ∷ []) = Unit {0}
  IsSpaced (x ∷ y ∷ ys) = (y.at + 18000 ≤ x.at) × IsSpaced (y ∷ ys)

  take_last_short : (n : ℕ) (xs : List (Snapshot A)) → length xs ≤ n → take_last n xs ≡ xs
  take_last_short n xs h = rw none_over refl
    where
      none_over : length xs - n ≡ 0
      none_over = omega (arith, h)

  length-filter_by-in_order :
      (p : Snapshot A → Bool) (xs : List (Snapshot A))
      → length (filter_by p (in_order xs)) ≡ length (filter_by p xs)
  length-filter_by-in_order p [] = refl
  length-filter_by-in_order p (x ∷ older) = ground (
    arith,
    filter_by-append p (in_order older) (x ∷ []),
    length-append (filter_by p (in_order older)) (filter_by p (x ∷ [])),
    length-filter_by-in_order p older,
  )

  -- Few spaced snapshots fit between a time and the newest one.
  few_recent :
      (now : ℕ) (x : Snapshot A) (older : List (Snapshot A))
      → IsSpaced (x ∷ older)
      → (length (filter_by (is_recent now) (x ∷ older)) ≡ 0)
        ⊎ (18000 * length (filter_by (is_recent now) (x ∷ older)) + now ≤ x.at + 378000)
  unfolding is_recent
  few_recent now x [] s = ground arith
  few_recent now x (y ∷ ys) s = elim (Bool-cases (leb now (x.at + 360000))) [
    | inr old ↦ rw old (elim (few_recent now y ys s.1) [
      | inl empty ↦ inl empty
      | inr few ↦ inr (omega (arith, few, s.0))
    ])
    | inl new ↦ rw new (elim (few_recent now y ys s.1) [
      | inl empty ↦ inr (omega (arith, empty, in_time new))
      | inr few ↦ inr (omega (arith, few, s.0))
    ])
  ]
    where
      in_time : leb now (x.at + 360000) ≡ true → now ≤ x.at + 360000
      in_time h = ground arith

  filter_by-filter_by :
      (p q : Snapshot A → Bool) (xs : List (Snapshot A))
      → ((x : Snapshot A) → q x ≡ true → p x ≡ true)
      → filter_by q (filter_by p xs) ≡ filter_by q xs
  filter_by-filter_by p q [] h = refl
  filter_by-filter_by p q (x ∷ xs) h = elim (Bool-cases (p x)) [
    | inl kept ↦ rw kept (ground (arith, filter_by-filter_by p q xs h))
    | inr gone ↦ rw (gone, dropped gone) (filter_by-filter_by p q xs h)
  ]
    where
      dropped : p x ≡ false → q x ≡ false
      dropped gone = elim (Bool-cases (q x)) [
        | inl kept ↦ ground (arith, gone, kept, h x kept)
        | inr k ↦ k
      ]

  is_recent-earlier :
      (earlier now : ℕ) (x : Snapshot A)
      → earlier ≤ now
      → is_recent now x ≡ true
      → is_recent earlier x ≡ true
  unfolding is_recent
  is_recent-earlier earlier now x le h = ground arith

  game-pushed : (game : Text) (hs : List (Snapshot A)) → (pushed game hs).game ≡ game
  unfolding pushed push
  game-pushed game [] = refl
  game-pushed game (x ∷ older) = refl

  few :
      (x : Snapshot A) (older : List (Snapshot A))
      → IsSpaced (x ∷ older)
      → length (filter_by (is_recent x.at) (in_order (x ∷ older))) ≤ 32
  few x older s = elim (few_recent x.at x older s) [
    | inl e ↦ omega (arith, e, length-filter_by-in_order (is_recent x.at) (x ∷ older))
    | inr le ↦ omega (arith, le, length-filter_by-in_order (is_recent x.at) (x ∷ older))
  ]

  push-snapshots :
      (game : Text) (earlier : ℕ) (x : Snapshot A) (b : Buffer A) (xs : List (Snapshot A))
      → b.game ≡ game
      → b.snapshots ≡ filter_by (is_recent earlier) xs
      → earlier ≤ x.at
      → length (filter_by (is_recent x.at) (xs ++ x ∷ [])) ≤ 32
      → (push game x.data_of x.at b).snapshots ≡ filter_by (is_recent x.at) (xs ++ x ∷ [])
  unfolding push
  push-snapshots game earlier x b xs named held le short =
      rw (named, text_eq_refl game) (rw held (rw merged (take_last_short 32 _ short)))
    where
      merged :
          filter_by (is_recent x.at) (filter_by (is_recent earlier) xs ++ x ∷ [])
          ≡ filter_by (is_recent x.at) (xs ++ x ∷ [])
      merged = ground (
        arith,
        filter_by-append (is_recent x.at) (filter_by (is_recent earlier) xs) (x ∷ []),
        filter_by-append (is_recent x.at) xs (x ∷ []),
        filter_by-filter_by (is_recent earlier) (is_recent x.at) xs
            (λ z. is_recent-earlier earlier x.at z le),
      )

  -- The buffer holds just the snapshots of the last six minutes: the bound on their number drops
  -- none.
  pub snapshots-pushed :
      (game : Text) (x : Snapshot A) (older : List (Snapshot A))
      → IsSpaced (x ∷ older)
      → (pushed game (x ∷ older)).snapshots ≡ filter_by (is_recent x.at) (in_order (x ∷ older))
  unfolding pushed
  snapshots-pushed game x [] s =
      push-snapshots game x.at x _ [] refl refl (omega arith) (few x [] s)
  snapshots-pushed game x (y ∷ ys) s =
      push-snapshots game y.at x (pushed game (y ∷ ys)) (in_order (y ∷ ys))
        (game-pushed game (y ∷ ys)) (snapshots-pushed game y ys s.1) (omega (arith, s.0))
        (few x (y ∷ ys) s)

  last_of-append : (xs : List (Snapshot A)) (x : Snapshot A) → last_of (xs ++ x ∷ []) ≡ some x
  last_of-append [] x = refl
  last_of-append (y ∷ []) x = refl
  last_of-append (y ∷ z ∷ zs) x = last_of-append (z ∷ zs) x

  append_none : (xs : List (Snapshot A)) → xs ++ [] ≡ xs
  append_none [] = refl
  append_none (x ∷ xs) = ap (x ∷◌) (append_none xs)

  last_of-filter_by :
      (p q : Snapshot A → Bool) (hs : List (Snapshot A)) (z : Snapshot A)
      → last_of (filter_by p (in_order hs)) ≡ some z
      → q z ≡ true
      → last_of (filter_by p (filter_by q (in_order hs))) ≡ some z
  last_of-filter_by p q [] z h k = ground arith
  last_of-filter_by p q (x ∷ older) z h k = elim (Bool-cases (p x)) [
    | inr gone ↦ ground (
      arith,
      gone,
      filter_by-append p (in_order older) (x ∷ []),
      filter_by-append q (in_order older) (x ∷ []),
      filter_by-append p (filter_by q (in_order older)) (x ∷ []),
      append_none (filter_by p (in_order older)),
      append_none (filter_by q (in_order older)),
      append_none (filter_by p (filter_by q (in_order older))),
      last_of-filter_by p q older z,
    )
    | inl shown ↦ ground (
      arith,
      shown,
      filter_by-append p (in_order older) (x ∷ []),
      filter_by-append q (in_order older) (x ∷ []),
      filter_by-append p (filter_by q (in_order older)) (x ∷ []),
      last_of-append (filter_by p (in_order older)) x,
      last_of-append (filter_by p (filter_by q (in_order older))) x,
    )
  ]

  pub last_of-All :
      (p : Snapshot A → Bool) (xs : List (Snapshot A)) (z : Snapshot A)
      → All (λ x. p x ≡ true) xs
      → last_of xs ≡ some z
      → p z ≡ true
  last_of-All p [] z a h = ground arith
  last_of-All p (x ∷ []) z a h = ground (arith, a.0)
  last_of-All p (x ∷ y ∷ ys) z a h = last_of-All p (y ∷ ys) z a.1 h

  -- The buffer shows of a game just what its whole history would show: after the game's snapshots
  -- arrived at least 18 seconds apart, the latest one that is as old as the delay asks is what the
  -- buffer shows, if it came at most six minutes before the newest.
  pub read-pushed :
      (game : Text) (seconds now : ℕ) (x z : Snapshot A) (older : List (Snapshot A))
      → IsSpaced (x ∷ older)
      → last_of (filter_by (is_shown seconds now) (in_order (x ∷ older))) ≡ some z
      → x.at ≤ z.at + 360000
      → read game seconds now (pushed game (x ∷ older)) ≡ some z
  unfolding read is_recent
  read-pushed game seconds now x z older s h near =
      rw (game-pushed game (x ∷ older), text_eq_refl game, snapshots-pushed game x older s)
        (last_of-filter_by (is_shown seconds now) (is_recent x.at) (x ∷ older) z h (ground arith))
