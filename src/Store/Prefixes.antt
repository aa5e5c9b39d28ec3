-- ===== src/Store/Prefixes.antt =====
-- _store.py: `check_key` against `check_prefix`.
use atomdoc.Prelude.{
  all, ℕ, zero, suc, ◌+◌, ◌≤◌, ◌≡◌, refl, inl, inr, Bool, true, ◌&&◌, ◌||◌, Option, none, some,
  List, [], ◌∷◌, arith, ◌==◌, Bool-cases, take,
}
use atomdoc.Prelude.Text.{Text}
use atomdoc.Store.Keys.{
  is_key_char, slash, utf8_width, utf8_size, into_first, split, is_segment, fits, is_key, is_prefix,
}

-- a character of a key, the slash included
abbrev is_path_char : ℕ → Bool
is_path_char c = is_key_char c || c == slash

all-into_first :
    (p : ℕ → Bool) (c : ℕ) (ss : List Text)
    → all (all p) (into_first c ss) ≡ (p c && all (all p) ss)
all-into_first p c [] = ground arith
all-into_first p c (s ∷ ss) = ground arith

all-split : (s : Text) → all (all is_key_char) (split s) ≡ true → all is_path_char s ≡ true
unfolding split
all-split [] h = refl
all-split (c ∷ s) h = elim (Bool-cases (c == slash)) [
  | inl is_slash ↦ ground (arith, is_slash, rw is_slash at h, all-split s)
  | inr other ↦
      ground
        (arith, other, rw (all-into_first is_key_char c (split s)) at (rw other at h), all-split s)
]

all-segments : (ss : List Text) → all is_segment ss ≡ true → all (all is_key_char) ss ≡ true
unfolding is_segment
all-segments [] h = refl
all-segments (s ∷ ss) h = ground (arith, h, all-segments ss)

all-take : (p : ℕ → Bool) (n : ℕ) (s : Text) → all p s ≡ true → all p (take n s) ≡ true
all-take p zero s h = refl
all-take p (suc n) [] h = refl
all-take p (suc n) (c ∷ s) h = ground (arith, h, all-take p n s)

abbrev add_width : Option ℕ → Option ℕ → Option ℕ
add_width none o = none
add_width (some w) none = none
add_width (some w) (some n) = some (w + n)

utf8_size-front : (c : ℕ) (s : Text) → utf8_size (c ∷ s) ≡ add_width (utf8_width c) (utf8_size s)
unfolding utf8_size
utf8_size-front c s = go (utf8_width c) (utf8_size s)
  where
    go :
        (w n : Option ℕ)
        → (elim w [ none ↦ none | some w ↦ elim n [ none ↦ none | some n ↦ some (w + n) ] ])
          ≡ add_width w n
    go none n = refl
    go (some w) none = refl
    go (some w) (some n) = refl

-- both sizes are there, and the first is at most the second; or the second is not there
Within : Option ℕ → Option ℕ → Type 0
Within o none = Unit
Within none (some n) = ⊥
Within (some m) (some n) = m ≤ n

Within-add : (w m n : Option ℕ) → Within m n → Within (add_width w m) (add_width w n)
unfolding Within
Within-add none m n h = tt
Within-add (some w) m none h = tt
Within-add (some w) none (some n) h = absurd h
Within-add (some w) (some m) (some n) h = omega (arith, h)

Within-zero : (o : Option ℕ) → Within (some 0) o
unfolding Within
Within-zero none = tt
Within-zero (some n) = omega arith

utf8_size-take : (n : ℕ) (s : Text) → Within (utf8_size (take n s)) (utf8_size s)
utf8_size-take zero s = unfold utf8_size in Within-zero (utf8_size s)
utf8_size-take (suc n) [] = unfold utf8_size in Within-zero (some 0)
utf8_size-take (suc n) (c ∷ s) =
    rw (utf8_size-front c (take n s), utf8_size-front c s)
      (Within-add (utf8_width c) (utf8_size (take n s)) (utf8_size s) (utf8_size-take n s))

fits-Within : (o p : Option ℕ) → Within o p → fits p ≡ true → fits o ≡ true
unfolding Within
fits-Within o none w h = absurd cc
fits-Within none (some n) w h = absurd w
fits-Within (some m) (some n) w h = ground (arith, w, h)

-- Every initial part of an accepted key, the whole included, is accepted as a prefix to list under.
pub take-is_prefix : (s : Text) (n : ℕ) → is_key s ≡ true → is_prefix (take n s) ≡ true
unfolding is_key is_prefix
take-is_prefix s n h =
    let size =
      fits-Within (utf8_size (take n s)) (utf8_size s) (utf8_size-take n s) (ground (arith, h)) in
    let chars =
      all-take is_path_char n s (all-split s (all-segments (split s) (ground (arith, h)))) in
    rw (size, chars) refl
