-- ===== src/Ids/Session.antt =====
-- `mint_session_id`: the session is new, and the loop always ends.
use atomdoc.Prelude.Text.{Text, text_eq, text_eq_iff, text_mem}
use atomdoc.Prelude.{
  length-append, ℕ, zero, suc, ◌+◌, ◌-◌, ◌≤◌, ◌<◌, ◌≡◌, refl, sym, ap, ◌∙◌, ◌≢◌, inl, inr, true,
  false, none, some, List, [], ◌∷◌, ◌++◌, arith, if◌then◌else◌, Bool-cases, Option-cases, length,
}
use mathlib.Core.Bool.{false≢true}
use atomdoc.Ids.{
  sessions, session_prefix, reseed_id_factory, CompactIdFactory, new_factory, first_char,
  number_to_base64, random_base64, candidate, tries, rounds, mint_session_id,
}
use atomdoc.Ids.Increment.{AllDigits}
use atomdoc.Ids.Factory.{nth_id, nth_id-session}
use atomdoc.Ids.Digits.{is_digit-char_of, value, value-number_to_base64}

-- `ts` without every `s`
without : Text → List Text → List Text
without s [] = []
without s (t ∷ ts) = let rest = without s ts in if text_eq t s then rest else t ∷ rest

text_mem-without : (s t : Text) (ts : List Text) → s ≢ t → text_mem t (without s ts) ≡ text_mem t ts
unfolding text_mem without
text_mem-without s t [] h = refl
text_mem-without s t (u ∷ ts) h =
    ground (arith, text_mem-without s t ts h, text_eq_iff u s, text_eq_iff u t)

length-without-le : (s : Text) (ts : List Text) → length (without s ts) ≤ length ts
unfolding without
length-without-le s [] = omega arith
length-without-le s (t ∷ ts) = ground (arith, length-without-le s ts)

length-without :
    (s : Text) (ts : List Text) → text_mem s ts ≡ true → length (without s ts) < length ts
unfolding without text_mem
length-without s [] h = absurd (false≢true h)
length-without s (t ∷ ts) h = ground (arith, length-without s ts, length-without-le s ts)

module _ (urandom : ℕ → ℕ → List ℕ) (urandom-length : (k n : ℕ) → length (urandom k n) ≡ n) where
  length-random_base64 : (raw : List ℕ) → length (random_base64 raw) ≡ length raw
  unfolding random_base64
  length-random_base64 [] = refl
  length-random_base64 (b ∷ raw) = ap suc (length-random_base64 raw)

  append_cancel_length : (a a' b b' : Text) → length a ≡ length a' → a ++ b ≡ a' ++ b' → a ≡ a'
  append_cancel_length [] [] b b' n e = refl
  append_cancel_length [] (x ∷ a') b b' n e = absurd (omega arith)
  append_cancel_length (x ∷ a) [] b b' n e = absurd (omega arith)
  append_cancel_length (x ∷ a) (y ∷ a') b b' n e =
      let tails : a ++ b ≡ a' ++ b' = cc in
      let heads : x ≡ y = cc in cc (heads, append_cancel_length a a' b b' (omega arith) tails)

  -- Candidates of different milliseconds differ: the five random characters stand at the end.
  candidate-injective :
      (k k' ms ms' : ℕ) → candidate urandom k ms ≡ candidate urandom k' ms' → ms ≡ ms'
  unfolding candidate
  candidate-injective k k' ms ms' e =
      let same : number_to_base64 ms ≡ number_to_base64 ms' =
        append_cancel_length _ _ (random_base64 (urandom k 5)) (random_base64 (urandom k' 5))
          (omega (
            arith,
            ap length e,
            length-append (number_to_base64 ms) (random_base64 (urandom k 5)),
            length-append (number_to_base64 ms') (random_base64 (urandom k' 5)),
            length-random_base64 (urandom k 5),
            length-random_base64 (urandom k' 5),
            urandom-length k 5,
            urandom-length k' 5,
          ))
          e in
      omega (arith, ap value same, value-number_to_base64 ms, value-number_to_base64 ms')

  -- Every taken candidate from the millisecond `ms` on stands in `left`.
  Covers : ℕ → List Text → List Text → Type 0
  Covers ms taken left =
      (k ms' : ℕ)
      → ms ≤ ms'
      → text_mem (candidate urandom k ms') taken ≡ true
      → text_mem (candidate urandom k ms') left ≡ true

  first_taken :
      (n k ms : ℕ) (taken : List Text)
      → tries urandom (suc n) k ms taken ≡ none
      → text_mem (candidate urandom k ms) taken ≡ true
  unfolding tries
  first_taken n k ms taken h = ground arith

  Covers-without :
      (k ms : ℕ) (taken left : List Text)
      → Covers ms taken left
      → Covers (ms + 1) taken (without (candidate urandom k ms) left)
  unfolding Covers
  Covers-without k ms taken left c k' ms' le m =
      rw
        (text_mem-without (candidate urandom k ms) (candidate urandom k' ms') left
          (λ e. absurd (omega (arith, candidate-injective k k' ms ms' e))))
        (c k' ms' (omega arith) m)

  rounds_end :
      (fuel k ms : ℕ) (taken left : List Text)
      → length left < fuel
      → Covers ms taken left
      → (s : Text) × (rounds urandom fuel k ms taken ≡ some s)
  unfolding rounds
  rounds_end zero k ms taken left h c = absurd (omega arith)
  rounds_end (suc fuel) k ms taken left h c = elim (Option-cases (tries urandom 16 k ms taken)) [
    | inr (s, e) ↦ (s, ground arith)
    | inl e ↦
        let t = candidate urandom k ms in
        let m : text_mem t left ≡ true =
          unfold Covers in c k ms (omega arith) (first_taken 15 k ms taken e) in
        let (s, r) =
          rounds_end fuel (k + 16) (ms + 1) taken (without t left)
            (omega (arith, length-without t left m)) (Covers-without k ms taken left c) in
        (s, ground arith)
  ]

  tries-new :
      (n k ms : ℕ) (taken : List Text) (s : Text)
      → tries urandom n k ms taken ≡ some s
      → text_mem s taken ≡ false
  unfolding tries
  tries-new zero k ms taken s h = cc
  tries-new (suc n) k ms taken s h = ground (arith, tries-new n (k + 1) ms taken s)

  rounds-new :
      (fuel k ms : ℕ) (taken : List Text) (s : Text)
      → rounds urandom fuel k ms taken ≡ some s
      → text_mem s taken ≡ false
  unfolding rounds
  rounds-new zero k ms taken s h = cc
  rounds-new (suc fuel) k ms taken s h =
      ground (arith, tries-new 16 k ms taken s, rounds-new fuel (k + 16) (ms + 1) taken s)

  -- Whatever bytes are drawn and whatever sessions exist, with one round more than there are
  -- sessions the loop returns a session, and it is none of them.
  pub mint_session_id-new :
      (fuel now created : ℕ) (existing : List Text)
      → length existing < fuel
      → (s : Text) × (mint_session_id urandom fuel now created existing ≡ some s)
        × (text_mem s existing ≡ false)
  unfolding mint_session_id
  mint_session_id-new fuel now created existing h =
      let (s, e) =
        rounds_end fuel 0 (now - created) existing existing h (unfold Covers in λ k ms' _ m. m) in
      (s, e, rounds-new fuel 0 (now - created) existing s e)

pub sessions-mem :
    (ids : List Text) (t s : Text)
    → text_mem t ids ≡ true
    → session_prefix t ≡ some s
    → text_mem s (sessions ids) ≡ true
unfolding text_mem sessions
sessions-mem [] t s m p = absurd (false≢true m)
sessions-mem (i ∷ ids) t s m p = elim (Bool-cases (text_eq i t)) [
  | inl same ↦
      let e : i ≡ t = (text_eq_iff i t).0 same in
      ground (arith, ap session_prefix e, text_eq_iff s s)
  | inr other ↦ ground (arith, sessions-mem ids t s)
]

module _ (urandom : ℕ → ℕ → List ℕ) (urandom-length : (k n : ℕ) → length (urandom k n) ≡ n) where
  -- What `reseed_id_factory` returns mints none of the IDs in the document.
  reseeded-session :
      (fuel now created : ℕ) (ids : List Text) (gen : CompactIdFactory)
      → length (sessions ids) < fuel
      → AllDigits gen.clock
      → (f : CompactIdFactory) × (reseed_id_factory urandom fuel now created ids gen ≡ some f)
        × AllDigits f.clock
        × (text_mem f.session_id (sessions ids) ≡ false)
  unfolding reseed_id_factory first_char
  reseeded-session fuel now created ids gen h d =
      let (s, e, new) =
        mint_session_id-new urandom urandom-length fuel now created (sessions ids) h in
      elim (Bool-cases (text_mem gen.session_id (sessions ids))) [
        | inl taken ↦
            (new_factory s, rw (taken, e) refl, (is_digit-char_of 0 (omega arith), tt), new)
        | inr free ↦ (gen, rw free refl, d, free)
      ]

  -- After `Doc._reseed_id_factory`, no call of the factory returns the ID of a node in the document.
  pub reseed_id_factory-fresh :
      (fuel now created : ℕ) (ids : List Text) (gen : CompactIdFactory)
      → length (sessions ids) < fuel
      → AllDigits gen.clock
      → (f : CompactIdFactory) × (reseed_id_factory urandom fuel now created ids gen ≡ some f)
        × ((n : ℕ) → (t : Text) × (nth_id n f ≡ some t) × (text_mem t ids ≡ false))
  reseed_id_factory-fresh fuel now created ids gen h d =
      let (f, e, d', new) = reseeded-session fuel now created ids gen h d in
      (f, e, λ n. let (t, m, p) = nth_id-session f n d' in (t, m, absent t f.session_id p new))
    where
      absent :
          (t s : Text)
          → session_prefix t ≡ some s
          → text_mem s (sessions ids) ≡ false
          → text_mem t ids ≡ false
      absent t s p new = elim (Bool-cases (text_mem t ids)) [
        | inl m ↦ absurd (false≢true (sym new ∙ sessions-mem ids t s m p))
        | inr out ↦ out
      ]
