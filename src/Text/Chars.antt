-- ===== src/Text/Chars.antt =====
-- The text methods that the source uses: `trim`, `split`, `join` and the replacements by patterns.
use mathlib.Core.List.{reverse}
use silo_plugin_xtream_libra.Prelude.{
  ℕ, ◌+◌, Bool, true, false, not, ◌&&◌, ◌||◌, List, [], ◌∷◌, ◌++◌, leb, ◌==◌, if◌then◌else◌,
  filter_by,
}
use silo_plugin_xtream_libra.Text.{Text, is_empty}

-- `\s`, and what `trim` removes.
unfoldable pub is_space : ℕ → Bool
is_space c =
    (leb 9 c && leb c 13)
    || c == 32
    || c == 160
    || c == 5760
    || (leb 8192 c && leb c 8202)
    || c == 8232
    || c == 8233
    || c == 8239
    || c == 8287
    || c == 12288
    || c == 65279

unfoldable pub drop_while : (ℕ → Bool) → Text → Text
drop_while p [] = []
drop_while p (c ∷ s) = let rest = drop_while p s in if p c then rest else c ∷ s

-- Both ends without the characters that pass the test.
unfoldable pub strip : (ℕ → Bool) → Text → Text
unfolding drop_while
strip p s = reverse (drop_while p (reverse (drop_while p s)))

-- `text.trim()`
unfoldable pub trim : Text → Text
unfolding strip is_space
trim = strip is_space

-- `text.replace(/[^a-z0-9]+/g, "-")`: the second argument tells whether a run has begun.
unfoldable pub is_slug_char : ℕ → Bool
is_slug_char c = (leb b'a' c && leb c b'z') || (leb b'0' c && leb c b'9')

unfoldable pub replace_runs : (ℕ → Bool) → Text → Bool → Text → Text
replace_runs keep by inside [] = []
replace_runs keep by inside (c ∷ s) =
    let kept = c ∷ replace_runs keep by false s in
    let skipped = (if inside then [] else by) ++ replace_runs keep by true s in
    if keep c then kept else skipped

-- The parts of a text between the characters that pass the test.
unfoldable pub split_on : (ℕ → Bool) → Text → Text → List Text
split_on sep acc [] = reverse acc ∷ []
split_on sep acc (c ∷ s) =
    let ended = reverse acc ∷ split_on sep [] s in
    let longer = split_on sep (c ∷ acc) s in if sep c then ended else longer

-- `parts.join(separator)`
unfoldable pub join : Text → List Text → Text
join sep [] = []
join sep (t ∷ []) = t
join sep (t ∷ u ∷ ts) = t ++ sep ++ join sep (u ∷ ts)

-- `text.indexOf(prefix) === 0`
unfoldable pub starts_with : Text → Text → Bool
starts_with [] s = true
starts_with (c ∷ p) [] = false
starts_with (c ∷ p) (d ∷ s) = c == d && starts_with p s

-- `parts.filter(Boolean)` on texts
abbrev pub non_empty : List Text → List Text
non_empty = filter_by (λ t. not (is_empty t))

abbrev ascii_lower_code : ℕ → ℕ
ascii_lower_code c = if leb b'A' c && leb c b'Z' then c + 32 else c

-- `toLowerCase` on ASCII, for tests: elsewhere it is a parameter.
unfoldable pub ascii_lower : Text → Text
ascii_lower [] = []
ascii_lower (c ∷ s) = ascii_lower_code c ∷ ascii_lower s
