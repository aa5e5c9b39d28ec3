-- ===== src/Store/Keys.antt =====
-- _store.py: `check_key` and `check_prefix`, over the code points of a key.
use atomdoc.Prelude.{
  all, ℕ, ◌+◌, String, Bool, false, ◌&&◌, ◌||◌, not, Option, none, some, List, [], ◌∷◌, ltb, leb,
  ◌==◌, if◌then◌else◌, length, is_empty,
}
use atomdoc.Prelude.Text.{Text, codes, text_eq}
use atomdoc.Prelude.Exec.{Result, ok, err, invalid_key}

abbrev pub max_key_bytes : ℕ
max_key_bytes = 512

abbrev in_range : ℕ → ℕ → ℕ → Bool
in_range low high c = leb low c && leb c high

-- the class `[A-Za-z0-9._~@+-]`
unfoldable pub is_key_char : ℕ → Bool
is_key_char c =
    in_range 65 90 c
    || in_range 97 122 c
    || in_range 48 57 c
    || c == 46
    || c == 95
    || c == 126
    || c == 64
    || c == 43
    || c == 45

abbrev pub slash : ℕ
slash = 47

-- the length of a code point's UTF-8 form; a lone surrogate has none
unfoldable pub utf8_width : ℕ → Option ℕ
utf8_width c =
    if ltb c 128
    then some 1
    else if ltb c 2048
    then some 2
    else if in_range 55296 57343 c
    then none
    else if ltb c 65536
    then some 3
    else some 4

-- `len(key.encode("utf-8"))`
unfoldable pub utf8_size : Text → Option ℕ
unfolding utf8_width
utf8_size [] = some 0
utf8_size (c ∷ s) =
    let rest = utf8_size s in
    elim (utf8_width c) [ none ↦ none | some w ↦ elim rest [ none ↦ none | some n ↦ some (w + n) ] ]

-- a character in front of the first segment
abbrev pub into_first : ℕ → List Text → List Text
into_first c [] = (c ∷ []) ∷ []
into_first c (s ∷ ss) = (c ∷ s) ∷ ss

-- `key.split("/")`
unfoldable pub split : Text → List Text
split [] = [] ∷ []
split (c ∷ s) = let rest = split s in if c == slash then [] ∷ rest else into_first c rest

-- a segment that `_SEGMENT` matches in full, other than `.` and `..`
unfoldable pub is_segment : Text → Bool
unfolding is_key_char text_eq
is_segment s =
    not (text_eq s (46 ∷ []) || text_eq s (46 ∷ 46 ∷ []))
    && ltb 0 (length s)
    && leb (length s) 128
    && all is_key_char s

abbrev pub fits : Option ℕ → Bool
fits none = false
fits (some n) = leb n max_key_bytes

unfoldable pub is_key : Text → Bool
unfolding utf8_size split is_segment
is_key s = fits (utf8_size s) && not (is_empty s) && all is_segment (split s)

unfoldable pub is_prefix : Text → Bool
unfolding utf8_size is_key_char
is_prefix s = fits (utf8_size s) && all (λ c. is_key_char c || c == slash) s

unfoldable pub check_key : String → Result String
unfolding is_key
check_key key = if is_key (codes key) then ok key else err invalid_key

unfoldable pub check_prefix : String → Result String
unfolding is_prefix
check_prefix prefix = if is_prefix (codes prefix) then ok prefix else err invalid_key
