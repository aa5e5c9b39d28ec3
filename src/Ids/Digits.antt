-- ===== src/Ids/Digits.antt =====
-- Texts of base-64 digits as numbers: `number_to_base64` writes the number that `value` reads.
use atomdoc.Prelude.Text.{Text}
use mathlib.Core.List.{reverse-reverse}
use atomdoc.Prelude.{
  ℕ, zero, suc, ◌+◌, ◌*◌, ◌/◌, ◌%◌, ◌≤◌, ◌<◌, ◌≡◌, refl, Bool, true, false, ◌&&◌, none, some, [],
  ◌∷◌, reverse, ◌==◌, if◌then◌else◌, length, arith, inl, inr, Bool-cases, ==_iff,
}
use atomdoc.Ids.{
  char_of, first_char, index_of, number_to_base64, appended, dot, alphabet, index_from,
}

-- The index of a digit, and 0 for any other character.
unfoldable pub digit : ℕ → ℕ
digit c = elim (index_of c) [ none ↦ 0 | some i ↦ i ]

unfoldable pub is_digit : ℕ → Bool
is_digit c = elim (index_of c) [ none ↦ false | some _ ↦ true ]

-- The number that digits denote, last digit first.
unfoldable pub value_le : Text → ℕ
unfolding digit
value_le [] = 0
value_le (c ∷ s) = digit c + 64 * value_le s

unfoldable pub value : Text → ℕ
unfolding value_le
value s = value_le (reverse s)

-- a test of each digit's index, by evaluation
holds_upto : (ℕ → Bool) → ℕ → Bool
holds_upto test zero = true
holds_upto test (suc last) = holds_upto test last && test last

holds_upto-lt :
    (test : ℕ → Bool) (count i : ℕ) → i < count → holds_upto test count ≡ true → test i ≡ true
unfolding holds_upto
holds_upto-lt test zero i below all = absurd (omega arith)
holds_upto-lt test (suc last) i below all = ground (arith, holds_upto-lt test last i)

digit_table : holds_upto (λ i. digit (char_of i) == i && is_digit (char_of i)) 64 ≡ true
unfolding holds_upto digit is_digit index_of char_of
digit_table = refl

dot_table : holds_upto (λ i. if char_of i == dot then false else true) 64 ≡ true
unfolding holds_upto char_of
dot_table = refl

pub digit-char_of : (i : ℕ) → i < 64 → digit (char_of i) ≡ i
digit-char_of i h =
    let row : (digit (char_of i) == i && is_digit (char_of i)) ≡ true =
      holds_upto-lt _ 64 i h digit_table in
    ground arith

pub is_digit-char_of : (i : ℕ) → i < 64 → is_digit (char_of i) ≡ true
is_digit-char_of i h =
    let row : (digit (char_of i) == i && is_digit (char_of i)) ≡ true =
      holds_upto-lt _ 64 i h digit_table in
    ground arith

pub char_of-ne-dot : (i : ℕ) → i < 64 → (char_of i == dot) ≡ false
char_of-ne-dot i h =
    let row : (if char_of i == dot then false else true) ≡ true =
      holds_upto-lt _ 64 i h dot_table in
    ground arith

index_from-lt : (ds : Text) (i c k : ℕ) → index_from ds i c ≡ some k → k < i + length ds
unfolding index_from
index_from-lt [] i c k h = cc
index_from-lt (d ∷ ds) i c k h = ground (arith, index_from-lt ds (i + 1) c k)

pub index_of-lt : (c k : ℕ) → index_of c ≡ some k → k < 64
unfolding index_of alphabet
index_of-lt c k h = index_from-lt alphabet 0 c k h

value_le-appended : (fuel n : ℕ) → n ≤ fuel → value_le (appended fuel n) ≡ n
unfolding appended value_le
value_le-appended zero n h = omega arith
value_le-appended (suc fuel) n h =
    ground (arith, digit-char_of (n % 64), value_le-appended fuel (n / 64))

-- Every number is written: the digits that the loop appends, with fuel for each, denote it.
pub value-number_to_base64 : (n : ℕ) → value (number_to_base64 n) ≡ n
unfolding value number_to_base64
value-number_to_base64 n = elim (Bool-cases (n == 0)) [
  | inl z ↦
      rw z
        (unfold digit first_char in omega (arith, digit-char_of 0 (omega arith), (==_iff n 0).0 z))
  | inr nz ↦ rw nz (rw (reverse-reverse (appended n n)) (value_le-appended n n (omega arith)))
]
