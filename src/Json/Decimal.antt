-- ===== src/Json/Decimal.antt =====
-- Different numbers have different texts.
use silo_plugin_xtream_libra.Prelude.{
  ℕ, zero, suc, ◌+◌, ◌*◌, ◌/◌, ◌%◌, ◌<◌, ◌≡◌, ap, ◌∙◌, true, false, some, [], ◌∷◌, arith, ltb,
  Bool-cases, ltb→lt, le→leb, ◌≤◌, inl, inr,
}
use silo_plugin_xtream_libra.Text.{Text}
use silo_plugin_xtream_libra.Json.{decimal, decimal_digits, decimal_value, is_digit}

digit-is_digit : (n : ℕ) → n < 10 → is_digit (b'0' + n) ≡ true
digit-is_digit n h =
    ground (arith, le→leb 48 (48 + n) (omega arith), le→leb (48 + n) 57 (omega arith))

ltb-false : (a b : ℕ) → ltb a b ≡ false → b ≤ a
ltb-false a b h = ground arith

decimal_value-digit :
    (a n : ℕ) (t : Text) → n < 10 → decimal_value a ((b'0' + n) ∷ t) ≡ decimal_value (a * 10 + n) t
unfolding decimal_value
decimal_value-digit a n t h =
    rw (digit-is_digit n h) (ap (λ m. decimal_value (a * 10 + m) t) (omega arith))

-- Reading the digits of a number gives it back.
decimal_value-decimal_digits :
    (f n : ℕ) (t : Text) → n < f → decimal_value 0 (decimal_digits f n t) ≡ decimal_value n t
unfolding decimal_digits
decimal_value-decimal_digits zero n t h = absurd (omega arith)
decimal_value-decimal_digits (suc f) n t h = elim (Bool-cases (ltb n 10)) [
  | inl e ↦
      rw e (decimal_value-digit 0 n t (ltb→lt n 10 e) ∙ ap (λ m. decimal_value m t) (omega arith))
  | inr e ↦ rw e (
      decimal_value-decimal_digits f (n / 10) ((b'0' + n % 10) ∷ t)
        (omega (arith, ltb-false n 10 e))
      ∙ decimal_value-digit (n / 10) (n % 10) t (omega arith)
      ∙ ap (λ m. decimal_value m t) (omega arith))
]

pub decimal_value-decimal : (n : ℕ) → decimal_value 0 (decimal n) ≡ some n
unfolding decimal decimal_value
decimal_value-decimal n = decimal_value-decimal_digits (suc n) n [] (omega arith)
