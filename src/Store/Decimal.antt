-- ===== src/Store/Decimal.antt =====
-- The decimal form of a number, which the store in memory writes its tokens in.
use atomdoc.Prelude.{
  ℕ, zero, suc, ◌+◌, ◌-◌, ◌*◌, ◌/◌, ◌%◌, ◌<◌, ◌≡◌, sym, ap, ◌∙◌, [], ◌∷◌, reverse, arith, ltb,
  if◌then◌else◌,
}
use mathlib.Core.List.{reverse-reverse}
use atomdoc.Prelude.Text.{Text}

-- the digits from the last one on
digits_from : ℕ → ℕ → Text
digits_from zero n = []
digits_from (suc fuel) n =
    let rest = digits_from fuel (n / 10) in if ltb n 10 then (48 + n) ∷ [] else (48 + n % 10) ∷ rest

-- `str(n)`
unfoldable pub decimal : ℕ → Text
unfolding digits_from
decimal n = reverse (digits_from (n + 1) n)

number_of : Text → ℕ
number_of [] = 0
number_of (c ∷ s) = (c - 48) + 10 * number_of s

number_of-digits_from : (fuel n : ℕ) → n < fuel → number_of (digits_from fuel n) ≡ n
unfolding number_of digits_from
number_of-digits_from zero n h = absurd (omega arith)
number_of-digits_from (suc fuel) n h = ground (arith, number_of-digits_from fuel (n / 10))

-- Two numbers with the same decimal form are the same.
pub decimal-injective : (m n : ℕ) → decimal m ≡ decimal n → m ≡ n
unfolding decimal
decimal-injective m n e =
    let same =
      sym (reverse-reverse (digits_from (m + 1) m))
      ∙ ap reverse e
      ∙ reverse-reverse (digits_from (n + 1) n) in
    sym (number_of-digits_from (m + 1) m (omega arith))
    ∙ ap number_of same
    ∙ number_of-digits_from (n + 1) n (omega arith)
