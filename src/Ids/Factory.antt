-- ===== src/Ids/Factory.antt =====
-- The IDs that one factory mints: all of its session, and all different.
use atomdoc.Prelude.Text.{Text}
use atomdoc.Prelude.{
  ℕ, zero, suc, ◌+◌, ◌≡◌, refl, ap, inl, inr, true, false, Option, none, some, [], ◌∷◌, ◌++◌,
  reverse, arith, ◌==◌, Bool-cases,
}
use atomdoc.Ids.{index_of, session_prefix, before_dot, has_dot, dot, CompactIdFactory, mint}
use atomdoc.Ids.Digits.{is_digit, value}
use atomdoc.Ids.Increment.{AllDigits, increment_base64-value, AllDigits-reverse}
use mathlib.Core.Bool.{false≢true}
use mathlib.Core.List.{
  append_cancel_left, reverse-append, reverse-reverse, append_assoc, reverse-cons,
}

-- The ID that the call after `n` earlier ones returns.
unfoldable pub nth_id : ℕ → CompactIdFactory → Option Text
unfolding mint
nth_id zero f = elim (mint f) [ none ↦ none | some (t, _) ↦ some t ]
nth_id (suc n) f = elim (mint f) [ none ↦ none | some (_, f') ↦ nth_id n f' ]

-- An ID of the session `s`, at the clock that reads `v`.
IsMinted : Text → ℕ → Text → Type 0
IsMinted s v t = (clock : Text) × (t ≡ s ++ dot ∷ clock) × (value clock ≡ v) × AllDigits clock

minted :
    (n : ℕ) (f : CompactIdFactory)
    → AllDigits f.clock
    → (t : Text) × (nth_id n f ≡ some t) × IsMinted f.session_id (value f.clock + n) t
unfolding nth_id mint IsMinted
minted zero f h =
    let (next, e, _, _) = increment_base64-value f.clock h in
    (f.session_id ++ dot ∷ f.clock, ground (arith, e), (f.clock, refl, omega arith, h))
minted (suc n) f h =
    let (next, e, v, d) = increment_base64-value f.clock h in
    let (t, e', (clock, a, w, c)) = minted n (record f { clock = next }) d in
    (t, ground (arith, e, e'), (clock, a, omega (arith, v, w), c))

not-digit-dot : (c : ℕ) → is_digit c ≡ true → (c == dot) ≡ false
unfolding is_digit index_of
not-digit-dot c h = elim (Bool-cases (c == dot)) [
  | inl same ↦ let e : c ≡ dot = ground arith in absurd (false≢true (rw e at h))
  | inr other ↦ other
]

has_dot-append : (s clock : Text) → has_dot (s ++ dot ∷ clock) ≡ true
unfolding has_dot
has_dot-append [] clock = refl
has_dot-append (c ∷ s) clock = ground (arith, has_dot-append s clock)

before_dot-append : (clock rest : Text) → AllDigits clock → before_dot (clock ++ dot ∷ rest) ≡ rest
unfolding before_dot
before_dot-append [] rest h = refl
before_dot-append (c ∷ clock) rest h = rw (not-digit-dot c h.0) (before_dot-append clock rest h.1)

-- The part before the last dot is the session, whatever dots the session has.
pub session_prefix-append :
    (s clock : Text) → AllDigits clock → session_prefix (s ++ dot ∷ clock) ≡ some s
unfolding session_prefix
session_prefix-append s clock h =
    rw
      (has_dot-append s clock, reverse-append s (dot ∷ clock), reverse-cons dot clock, append_assoc)
      (rw
        (
          before_dot-append (reverse clock) (reverse s) (AllDigits-reverse clock h),
          reverse-reverse s,
        )
        refl)

-- Every call of a factory returns an ID of the factory's session.
pub nth_id-session :
    (f : CompactIdFactory) (n : ℕ)
    → AllDigits f.clock
    → (t : Text) × (nth_id n f ≡ some t) × (session_prefix t ≡ some f.session_id)
unfolding IsMinted
nth_id-session f n h =
    let (t, e, (clock, a, _, d)) = minted n f h in
    (t, e, rw a (session_prefix-append f.session_id clock d))

-- Two calls of one factory never return the same ID.
pub nth_id-injective :
    (f : CompactIdFactory) (i j : ℕ) (t : Text)
    → AllDigits f.clock
    → nth_id i f ≡ some t
    → nth_id j f ≡ some t
    → i ≡ j
unfolding IsMinted
nth_id-injective f i j t h p q =
    let (t', e, (clock, a, v, _)) = minted i f h in
    let (u', e', (clock', a', v', _)) = minted j f h in
    let same : f.session_id ++ dot ∷ clock ≡ f.session_id ++ dot ∷ clock' = cc in
    let tails : dot ∷ clock ≡ dot ∷ clock' = append_cancel_left f.session_id _ _ same in
    let clocks : clock ≡ clock' = cc in omega (arith, v, v', ap value clocks)
