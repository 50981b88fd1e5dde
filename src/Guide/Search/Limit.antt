-- ===== src/Guide/Search/Limit.antt =====
-- The limit of `guideSearchPrograms` of internal/plugin/ui/guide.js.
use silo_plugin_xtream_libra.Prelude.{
  ℕ, zero, suc, ◌+◌, ◌≡◌, ◌≤◌, refl, sym, ap, ◌∙◌, Bool, false, not, ◌||◌, List, [], ◌∷◌, arith,
  ltb, leb, if◌then◌else◌, take, length, length-take, Bool-cases, inl, inr, any, ◌==◌,
}
use silo_plugin_xtream_libra.Text.{Text}
use silo_plugin_xtream_libra.Guide.Windows.{Program}
use silo_plugin_xtream_libra.Guide.Search.{
  Found, Key, Result, insert_found, drop_last, pop_over, add_found, search_programs,
  search_channels, no_result, search_limit, guide_search_programs, found_before, key_eq,
}

take-take-suc : (n : ℕ) (es : List Found) → take n (take (suc n) es) ≡ take n es
take-take-suc zero es = refl
take-take-suc (suc n) [] = refl
take-take-suc (suc n) (e ∷ es) = ap (e ∷◌) (take-take-suc n es)

take-cons_take : (n : ℕ) (f : Found) (es : List Found) → take n (f ∷ take n es) ≡ take n (f ∷ es)
take-cons_take zero f es = refl
take-cons_take (suc n) f es = ap (f ∷◌) (take-take-suc n es)

-- Of an inserted list, the first entries depend on the first ones only.
take-insert_found :
    (n from : ℕ) (e : Found) (es : List Found)
    → take n (insert_found from e (take n es)) ≡ take n (insert_found from e es)
unfolding insert_found
take-insert_found zero from e es = refl
take-insert_found (suc n) from e [] = refl
take-insert_found (suc n) from e (f ∷ es) = elim (Bool-cases (found_before from e f)) [
  | inl c ↦ rw c (ap (e ∷◌) (take-cons_take n f es))
  | inr c ↦ rw c (ap (f ∷◌) (take-insert_found n from e es))
]

length-insert_found :
    (from : ℕ) (e : Found) (es : List Found) → length (insert_found from e es) ≡ suc (length es)
unfolding insert_found
length-insert_found from e [] = refl
length-insert_found from e (f ∷ es) = ground (arith, length-insert_found from e es)

drop_last-take : (n : ℕ) (es : List Found) → length es ≡ suc n → drop_last es ≡ take n es
unfolding drop_last
drop_last-take n [] h = absurd (omega (arith, h))
drop_last-take zero (e ∷ []) h = refl
drop_last-take (suc n) (e ∷ []) h = absurd (omega (arith, h))
drop_last-take zero (e ∷ f ∷ es) h = absurd (omega (arith, h))
drop_last-take (suc n) (e ∷ f ∷ es) h = ap (e ∷◌) (drop_last-take n (f ∷ es) (omega (arith, h)))

take-all : (n : ℕ) (es : List Found) → length es ≤ n → take n es ≡ es
take-all zero [] h = refl
take-all zero (e ∷ es) h = absurd (omega (arith, h))
take-all (suc n) [] h = refl
take-all (suc n) (e ∷ es) h = ap (e ∷◌) (take-all n es (omega (arith, h)))

pop_over-take : (n : ℕ) (es : List Found) → length es ≤ suc n → pop_over n es ≡ take n es
unfolding pop_over
pop_over-take n es h = elim (Bool-cases (ltb n (length es))) [
  | inl c ↦ rw c (drop_last-take n es (ground (arith, c, h)))
  | inr c ↦ rw c (sym (take-all n es (ground (arith, c))))
]

-- A result whose entries are cut short
abbrev pub cut : ℕ → Result → Result
cut n r = record r { entries = take n r.entries }

-- A result that counts all its entries
abbrev Counts : Result → Type 0
Counts r = r.total ≡ length r.entries

-- What is done with the entries if there is no limit
abbrev pub all : List Found → List Found
all es = es

insert-cut :
    (n from : ℕ) (e : Found) (es : List Found)
    → pop_over n (insert_found from e (take n es)) ≡ take n (insert_found from e es)
insert-cut n from e es =
    pop_over-take n (insert_found from e (take n es))
      (omega (arith, length-insert_found from e (take n es), length-take n es))
    ∙ take-insert_found n from e es

lt_le : (a b : ℕ) → a ≤ b → ltb b a ≡ false
lt_le a b h = ground (arith, h)

module _ (n : ℕ) (mentions : Program → Bool) (from until : ℕ) where
  -- Whether the program is left out
  is_rejected : Text → Program → Result → Bool
  is_rejected c p r =
      let start = (if p.start_unix == 0 then from else p.start_unix) in
      let end = (if p.end_unix == 0 then start + 1800 else p.end_unix) in
      let key : Key = record { channel = c; id = p.id; start = start; end = end } in
      leb end from || leb until start || not (mentions p) || any (key_eq key) r.seen

  add_found-cut :
      (c : Text) (i : ℕ) (p : Program) (r : Result)
      → add_found (pop_over n) mentions from until c i p (cut n r)
        ≡ cut n (add_found all mentions from until c i p r)
  unfolding add_found is_rejected
  add_found-cut c i p r = elim (Bool-cases (is_rejected c p r)) [
    | inl e ↦ rw e refl
    | inr e ↦ rw e (rw (insert-cut n from _ r.entries) refl)
  ]

  add_found-Counts :
      (c : Text) (i : ℕ) (p : Program) (r : Result)
      → Counts r
      → Counts (add_found all mentions from until c i p r)
  unfolding add_found is_rejected
  add_found-Counts c i p r h = elim (Bool-cases (is_rejected c p r)) [
    | inl e ↦ rw e h
    | inr e ↦ rw e (omega (arith, h, length-insert_found from _ r.entries))
  ]

  search_programs-cut :
      (c : Text) (i : ℕ) (ps : List Program) (r : Result)
      → search_programs (pop_over n) mentions from until c i ps (cut n r)
        ≡ cut n (search_programs all mentions from until c i ps r)
  unfolding search_programs
  search_programs-cut c i [] r = refl
  search_programs-cut c i (p ∷ ps) r = rw (add_found-cut c i p r) (search_programs-cut c i ps _)

  search_programs-Counts :
      (c : Text) (i : ℕ) (ps : List Program) (r : Result)
      → Counts r
      → Counts (search_programs all mentions from until c i ps r)
  unfolding search_programs
  search_programs-Counts c i [] r h = h
  search_programs-Counts c i (p ∷ ps) r h =
      search_programs-Counts c i ps _ (add_found-Counts c i p r h)

  search_channels-cut :
      (programs : Text → List Program) (i : ℕ) (cs : List Text) (r : Result)
      → search_channels (pop_over n) mentions from until programs i cs (cut n r)
        ≡ cut n (search_channels all mentions from until programs i cs r)
  unfolding search_channels
  search_channels-cut programs i [] r = refl
  search_channels-cut programs i (c ∷ cs) r =
      rw (search_programs-cut c i (programs c) r) (search_channels-cut programs (i + 1) cs _)

  search_channels-Counts :
      (programs : Text → List Program) (i : ℕ) (cs : List Text) (r : Result)
      → Counts r
      → Counts (search_channels all mentions from until programs i cs r)
  unfolding search_channels
  search_channels-Counts programs i [] r h = h
  search_channels-Counts programs i (c ∷ cs) r h =
      search_channels-Counts programs (i + 1) cs _ (search_programs-Counts c i (programs c) r h)

cut-no_result : (n : ℕ) → cut n no_result ≡ no_result
cut-no_result zero = refl
cut-no_result (suc n) = refl

-- For a query of two letters or more, the search gives the first entries, as many as the limit
-- allows, of the search that drops none, and the number of all the entries of that search.
pub guide_search_programs-cut :
    (mentions : Program → Bool) (needle : Text) (programs : Text → List Program)
    (channels : List Text) (from until limit : ℕ)
    → 2 ≤ length needle
    → let found = search_channels all mentions from until programs 0 channels no_result in
      (guide_search_programs mentions needle programs channels (from, until) limit
        ≡ cut (search_limit limit) found)
      × (found.total ≡ length found.entries)
unfolding guide_search_programs
guide_search_programs-cut mentions needle programs channels from until limit h = (
  rw (lt_le 2 (length needle) h) (
      ap (search_channels (pop_over (search_limit limit)) mentions from until programs 0 channels)
        (sym (cut-no_result (search_limit limit)))
      ∙ search_channels-cut (search_limit limit) mentions from until programs 0 channels no_result),
  search_channels-Counts (search_limit limit) mentions from until programs 0 channels no_result
      refl,
)
