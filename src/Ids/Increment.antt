-- ===== src/Ids/Increment.antt =====
-- `increment_base64` adds one: the clock of a document session counts.
use atomdoc.Prelude.Text.{Text}
use mathlib.Core.List.{reverse-append, reverse-reverse, append_assoc, reverse-cons}
use atomdoc.Prelude.{
  ℕ, zero, suc, ◌+◌, ◌*◌, ◌≡◌, refl, true, false, some, [], ◌∷◌, ◌++◌, reverse, ◌==◌, replicate,
  All, All-append, arith, inl, inr, Bool-cases, Option-cases, ap, ◌∙◌,
}
use atomdoc.Ids.{char_of, first_char, index_of, increment_base64, carry}
use atomdoc.Ids.Digits.{
  digit, is_digit, value_le, value, digit-char_of, is_digit-char_of, index_of-lt,
}

abbrev pub AllDigits : Text → Type 0
AllDigits = All (λ c. is_digit c ≡ true)

-- `v` times 64 for each of `p` digits
shift : ℕ → ℕ → ℕ
shift zero v = v
shift (suc p) v = shift p (64 * v)

shift_mul : (p v : ℕ) → shift p (64 * v) ≡ 64 * shift p v
unfolding shift
shift_mul zero v = refl
shift_mul (suc p) v = shift_mul p (64 * v)

value_le-zeros : (p : ℕ) (s : Text) → value_le (replicate p first_char ++ s) ≡ shift p (value_le s)
unfolding shift value_le first_char
value_le-zeros zero s = refl
value_le-zeros (suc p) s =
    omega (arith, digit-char_of 0 (omega arith), value_le-zeros p s, shift_mul p (value_le s))

reverse-replicate : (p c : ℕ) → reverse (replicate p c) ≡ replicate p c
reverse-replicate zero c = refl
reverse-replicate (suc p) c = rw (reverse-cons c (replicate p c), reverse-replicate p c) (snoc p)
  where
    snoc : (p : ℕ) → replicate p c ++ c ∷ [] ≡ c ∷ replicate p c
    snoc zero = refl
    snoc (suc p) = ap (c ∷◌) (snoc p)

-- A written digit before zeros and behind `left`, read backwards.
reverse-written :
    (left : Text) (c p z : ℕ)
    → reverse (reverse left ++ c ∷ replicate p z) ≡ replicate p z ++ c ∷ left
reverse-written left c p z = simp (
  reverse-append,
  reverse-reverse,
  reverse-cons c (replicate p z),
  reverse-replicate,
  append_assoc,
)

AllDigits-replicate : (p : ℕ) → AllDigits (replicate p first_char)
unfolding first_char
AllDigits-replicate zero = tt
AllDigits-replicate (suc p) = (is_digit-char_of 0 (omega arith), AllDigits-replicate p)

pub AllDigits-reverse : (s : Text) → AllDigits s → AllDigits (reverse s)
AllDigits-reverse [] h = tt
AllDigits-reverse (c ∷ s) h =
    rw (reverse-cons c s) (All-append _ (reverse s) (c ∷ []) (AllDigits-reverse s h.1) (h.0, tt))

-- What `carry` returns at digits `left` with `p` maximal digits behind them.
Carried : Text → ℕ → Type 0
Carried left p =
    (t : Text) × (carry left p ≡ some t)
    × (value_le (reverse t) ≡ shift p (value_le left + 1))
    × AllDigits t

digit_of_index : (c idx : ℕ) → index_of c ≡ some idx → digit c ≡ idx
unfolding digit
digit_of_index c idx h = ground arith

is_digit_index : (c : ℕ) → is_digit c ≡ true → (idx : ℕ) × (index_of c ≡ some idx)
unfolding is_digit
is_digit_index c h = elim (Option-cases (index_of c)) [
  | inl missing ↦ absurd (ground arith)
  | inr found ↦ found
]

Carried-max :
    (c idx p : ℕ) (left : Text)
    → index_of c ≡ some idx
    → (idx == 63) ≡ true
    → Carried left (suc p)
    → Carried (c ∷ left) p
unfolding Carried carry value_le shift
Carried-max c idx p left found max (t, e, v, d) =
    (t, ground arith, v ∙ ap (shift p) (ground (arith, digit_of_index c idx found)), d)

Carried-less :
    (c idx p : ℕ) (left : Text)
    → index_of c ≡ some idx
    → (idx == 63) ≡ false
    → AllDigits left
    → Carried (c ∷ left) p
unfolding Carried carry value_le
Carried-less c idx p left found less h = (
  reverse left ++ char_of (idx + 1) ∷ replicate p first_char,
  ground arith,
  rw
      (
        reverse-written left (char_of (idx + 1)) p first_char,
        value_le-zeros p (char_of (idx + 1) ∷ left),
      )
      (ap (shift p)
        (ground (arith, digit-char_of (idx + 1), digit_of_index c idx, index_of-lt c idx))),
  All-append _ (reverse left) _ (AllDigits-reverse left h)
      (is_digit-char_of (idx + 1) (ground (arith, index_of-lt c idx found)), AllDigits-replicate p),
)

carried : (left : Text) (p : ℕ) → AllDigits left → Carried left p
unfolding Carried carry value_le
carried [] p h = (
  char_of 1 ∷ replicate p first_char,
  refl,
  rw (reverse-written [] (char_of 1) p first_char, value_le-zeros p (char_of 1 ∷ []))
      (ap (shift p) (omega (arith, digit-char_of 1 (omega arith)))),
  (is_digit-char_of 1 (omega arith), AllDigits-replicate p),
)
carried (c ∷ left) p h =
    let (idx, found) = is_digit_index c h.0 in
    elim (Bool-cases (idx == 63)) [
      | inl max ↦ Carried-max c idx p left found max (carried left (suc p) h.1)
      | inr less ↦ Carried-less c idx p left found less h.1
    ]

-- A text of digits has a successor, of digits again, whose value is greater by one.
pub increment_base64-value :
    (s : Text)
    → AllDigits s
    → (t : Text) × (increment_base64 s ≡ some t) × (value t ≡ value s + 1) × AllDigits t
unfolding increment_base64 value
increment_base64-value s h = unfold Carried shift in carried (reverse s) 0 (AllDigits-reverse s h)
