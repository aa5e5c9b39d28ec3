-- ===== src/Ids.antt =====
-- python/src/atomdoc/_id.py: node IDs. A text is the list of its code points. The source of random
-- bytes (`os.urandom`) and the clock are parameters.
pub mod Digits
pub mod Increment
pub mod Factory
pub mod Session
mod Examples
use atomdoc.Prelude.Text.{Text, codes, text_eq, text_mem}
use Prim.Native.Char.{code}
use atomdoc.Prelude.{
  ℕ, zero, suc, ◌+◌, ◌-◌, ◌/◌, ◌%◌, String, ◌≡◌, refl, Bool, true, false, ◌&&◌, ◌||◌, Option, none,
  some, List, [], ◌∷◌, ◌++◌, map, reverse, ◌==◌, ltb, if◌then◌else◌, get_or, replicate,
}

unfoldable pub alphabet : Text
alphabet = codes "-0123456789ABCDEFGHIJKLMNOPQRSTUVWXYZ_abcdefghijklmnopqrstuvwxyz"

-- `BASE64_ALPHABET[i]`, for an index below 64
unfoldable pub char_of : ℕ → ℕ
unfolding alphabet
char_of i = get_or alphabet i 0

unfoldable pub first_char : ℕ
unfolding char_of
first_char = char_of 0

index_from : Text → ℕ → ℕ → Option ℕ
index_from [] i c = none
index_from (d ∷ ds) i c = if d == c then some i else index_from ds (i + 1) c

-- `_IDX.get(c)`; `none` is the `KeyError` of `_IDX[c]`
unfoldable pub index_of : ℕ → Option ℕ
unfolding index_from alphabet
index_of c = index_from alphabet 0 c

-- The loop of `number_to_base64`: the digits in the order in which they are appended.
appended : ℕ → ℕ → Text
appended zero num = []
appended (suc fuel) num = elim (ltb 0 num) [
  | true ↦ char_of (num % 64) ∷ appended fuel (num / 64)
  | false ↦ []
]

unfoldable pub number_to_base64 : ℕ → Text
unfolding appended char_of
number_to_base64 num = if num == 0 then first_char ∷ [] else reverse (appended num num)

-- `random_base64`, from the bytes that the system returned
unfoldable pub random_base64 : List ℕ → Text
unfolding char_of
random_base64 raw = map (λ b. char_of (b % 64)) raw

-- The loop of `increment_base64`, from the last character leftwards; `passed` characters are behind.
carry : Text → ℕ → Option Text
carry [] passed = some (char_of 1 ∷ replicate passed first_char)
carry (c ∷ left) passed =
    let rest = carry left (suc passed) in
    elim (index_of c) [
      | none ↦ none
      | some idx ↦
          if idx == 63
          then rest
          else some (reverse left ++ char_of (idx + 1) ∷ replicate passed first_char)
    ]

unfoldable pub increment_base64 : Text → Option Text
unfolding carry index_of char_of first_char
increment_base64 s = carry (reverse s) 0

abbrev pub dot : ℕ
dot = b'.'

unfoldable pub has_dot : Text → Bool
has_dot [] = false
has_dot (c ∷ s) = c == dot || has_dot s

-- what stands before the first dot of a text that is read backwards
before_dot : Text → Text
before_dot [] = []
before_dot (c ∷ s) = if c == dot then s else before_dot s

-- `node_id.rsplit(".", 1)[0]` if there is a dot
unfoldable pub session_prefix : Text → Option Text
unfolding has_dot before_dot
session_prefix s = if has_dot s then some (reverse (before_dot (reverse s))) else none

-- `{p for p in map(session_prefix, ids) if p is not None}`
unfoldable pub sessions : List Text → List Text
unfolding session_prefix text_mem
sessions [] = []
sessions (i ∷ ids) =
    let rest = sessions ids in
    elim (session_prefix i) [ none ↦ rest | some p ↦ if text_mem p rest then rest else p ∷ rest ]

pub record CompactIdFactory : Type 0 where
  pub session_id : Text
  pub clock : Text

abbrev pub new_factory : Text → CompactIdFactory
new_factory s = record { session_id = s; clock = first_char ∷ [] }

-- `CompactIdFactory.__call__`: the ID, and the factory with its clock moved on
unfoldable pub mint : CompactIdFactory → Option (Text × CompactIdFactory)
unfolding increment_base64
mint f = elim (increment_base64 f.clock) [
  | none ↦ none
  | some next ↦ some (f.session_id ++ dot ∷ f.clock, record f { clock = next })
]

module _ (urandom : ℕ → ℕ → List ℕ) where
  -- the `k`-th draw's candidate
  unfoldable pub candidate : ℕ → ℕ → Text
  unfolding number_to_base64 random_base64
  candidate k ms = number_to_base64 ms ++ random_base64 (urandom k 5)

  -- `for _ in range(16)`: `n` tries are left, and `k` draws were made
  tries : ℕ → ℕ → ℕ → List Text → Option Text
  tries zero k ms taken = none
  tries (suc n) k ms taken =
      let rest = tries n (k + 1) ms taken in
      if text_mem (candidate k ms) taken then rest else some (candidate k ms)

  -- `while True`, with fuel
  rounds : ℕ → ℕ → ℕ → List Text → Option Text
  rounds zero k ms taken = none
  rounds (suc fuel) k ms taken =
      let rest = rounds fuel (k + 16) (ms + 1) taken in
      elim (tries 16 k ms taken) [ none ↦ rest | some s ↦ some s ]

  -- `max(0, now - created)` is the truncated difference
  unfoldable pub mint_session_id : ℕ → ℕ → ℕ → List Text → Option Text
  unfolding rounds tries candidate text_mem text_eq
  mint_session_id fuel now created existing = rounds fuel 0 (now - created) existing

  -- `Doc._reseed_id_factory`, over the IDs in the document
  unfoldable pub reseed_id_factory :
      ℕ → ℕ → ℕ → List Text → CompactIdFactory → Option CompactIdFactory
  unfolding sessions mint_session_id text_mem session_prefix
  reseed_id_factory fuel now created ids gen =
      if text_mem gen.session_id (sessions ids)
      then (elim (mint_session_id fuel now created (sessions ids)) [
        | none ↦ none
        | some s ↦ some (new_factory s)
      ])
      else some gen
