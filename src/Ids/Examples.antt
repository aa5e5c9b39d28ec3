-- ===== src/Ids/Examples.antt =====
-- The theorems on IDs at concrete inputs, and runs of the code.
use atomdoc.Prelude.Text.{Text, codes, text_mem}
use atomdoc.Prelude.{
  length-replicate, ℕ, ◌+◌, ◌≡◌, refl, false, some, List, [], ◌∷◌, arith, length, replicate,
}
use atomdoc.Ids.{
  index_of, number_to_base64, increment_base64, session_prefix, CompactIdFactory, mint_session_id,
  reseed_id_factory, sessions,
}
use atomdoc.Ids.Digits.{value, value-number_to_base64, is_digit}
use atomdoc.Ids.Increment.{AllDigits, increment_base64-value}
use atomdoc.Ids.Factory.{nth_id, nth_id-injective}
use atomdoc.Ids.Session.{mint_session_id-new, reseed_id_factory-fresh}

number_4000 : number_to_base64 4000 ≡ codes "yV"
unfolding number_to_base64
number_4000 = refl

carry_runs : increment_base64 (codes "Azz") ≡ some (codes "B--")
unfolding increment_base64
carry_runs = refl

all_maxed : increment_base64 (codes "zz") ≡ some (codes "0--")
unfolding increment_base64
all_maxed = refl

prefix_runs : session_prefix (codes "a.b.c") ≡ some (codes "a.b")
unfolding session_prefix
prefix_runs = refl

abbrev zeros : ℕ → ℕ → List ℕ
zeros k n = replicate n 0

zeros-length : (k n : ℕ) → length (zeros k n) ≡ n
zeros-length k n = length-replicate n 0

abbrev factory : CompactIdFactory
factory = record { session_id = codes "s"; clock = codes "z" }

value-number_to_base64_example : value (number_to_base64 4000) ≡ 4000
value-number_to_base64_example = value-number_to_base64 4000

increment_base64-value_example :
    (t : Text) × (increment_base64 (codes "zz") ≡ some t)
    × (value t ≡ value (codes "zz") + 1)
    × AllDigits t
unfolding is_digit index_of
increment_base64-value_example = increment_base64-value (codes "zz") (refl, (refl, tt))

nth_id-injective_example : ◌≡◌ {A = ℕ} 1 1
unfolding is_digit index_of nth_id
nth_id-injective_example = nth_id-injective factory 1 1 (codes "s.0-") (refl, tt) refl refl

mint_session_id-new_example :
    (s : Text) × (mint_session_id zeros 2 5 3 (codes "1-----" ∷ []) ≡ some s)
    × (text_mem s (codes "1-----" ∷ []) ≡ false)
mint_session_id-new_example =
    mint_session_id-new zeros zeros-length 2 5 3 (codes "1-----" ∷ []) (omega arith)

reseed_id_factory-fresh_example :
    (f : CompactIdFactory) × (reseed_id_factory zeros 2 5 3 (codes "s.0" ∷ []) factory ≡ some f)
    × ((n : ℕ) → (t : Text) × (nth_id n f ≡ some t) × (text_mem t (codes "s.0" ∷ []) ≡ false))
unfolding is_digit index_of sessions
reseed_id_factory-fresh_example =
    reseed_id_factory-fresh zeros zeros-length 2 5 3 (codes "s.0" ∷ []) factory (omega arith)
      (refl, tt)
