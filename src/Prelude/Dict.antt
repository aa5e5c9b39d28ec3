-- ===== src/Prelude/Dict.antt =====
-- Python's `dict` and `set` with string keys: association lists in insertion order.
use Prim.Native.String.{String}
use mathlib.Core.Path.{◌≡◌, refl}
use mathlib.Core.Bool.{Bool, true, false, ◌||◌}
use mathlib.Core.Option.{Option, none, some}
use mathlib.Core.List.{List, [], ◌∷◌}
use native.Mathlib.Omega.{arith}
use text.Mathlib.Text.{◌==◌}
use text.Mathlib.TextEquality.{eq_iff}
use atomdoc.Prelude.{if◌then◌else◌}

abbrev pub Dict {ℓ} : Type ℓ → Type ℓ
Dict V = List (String × V)

module _ {ℓ} {V : Type ℓ} where
  -- `d.get(k)`
  unfoldable pub lookup : Dict V → String → Option V
  lookup [] k = none
  lookup ((j, v) ∷ d) k = if j == k then some v else lookup d k

  -- `d[k] = v`
  unfoldable pub insert : Dict V → String → V → Dict V
  insert [] k v = (k, v) ∷ []
  insert ((j, w) ∷ d) k v = if j == k then (j, v) ∷ d else (j, w) ∷ insert d k v

  -- `d.pop(k, None)`, as a statement
  unfoldable pub remove : Dict V → String → Dict V
  remove [] k = []
  remove ((j, w) ∷ d) k = let rest = remove d k in if j == k then rest else (j, w) ∷ rest

  -- `k in d`
  unfoldable pub contains : Dict V → String → Bool
  contains [] k = false
  contains ((j, w) ∷ d) k = j == k || contains d k

  unfoldable pub keys : Dict V → List String
  keys [] = []
  keys ((j, w) ∷ d) = j ∷ keys d

  unfoldable pub get_or : Dict V → String → V → V
  get_or d k v = elim (lookup d k) [ none ↦ v | some w ↦ w ]

  -- `a.update(b)`
  unfoldable pub update : Dict V → Dict V → Dict V
  update a [] = a
  update a ((k, v) ∷ b) = update (insert a k v) b

  pub lookup-insert :
      (d : Dict V) (k : String) (v : V) (j : String)
      → lookup (insert d k v) j ≡ (if k == j then some v else lookup d j)
  unfolding lookup insert
  lookup-insert [] k v j = refl
  lookup-insert ((i, w) ∷ d) k v j =
      ground (arith, eq_iff k j, eq_iff i k, eq_iff i j, lookup-insert d k v j)

  pub lookup-remove :
      (d : Dict V) (k j : String) → lookup (remove d k) j ≡ (if k == j then none else lookup d j)
  unfolding lookup remove
  lookup-remove [] k j = ground arith
  lookup-remove ((i, w) ∷ d) k j =
      ground (arith, lookup-remove d k j, eq_iff i k, eq_iff i j, eq_iff k j)

  pub contains-lookup :
      (d : Dict V) (k : String)
      → contains d k ≡ (elim (lookup d k) [ none ↦ false | some _ ↦ true ])
  unfolding contains lookup
  contains-lookup [] k = refl
  contains-lookup ((i, w) ∷ d) k = ground (arith, contains-lookup d k)

-- Sets of identifiers.
unfoldable pub mem : List String → String → Bool
mem [] k = false
mem (j ∷ s) k = j == k || mem s k

unfoldable pub add : List String → String → List String
add [] k = k ∷ []
add (j ∷ s) k = if j == k then j ∷ s else j ∷ add s k

unfoldable pub discard : List String → String → List String
discard [] k = []
discard (j ∷ s) k = let rest = discard s k in if j == k then rest else j ∷ rest

pub mem-add : (s : List String) (k j : String) → mem (add s k) j ≡ (k == j || mem s j)
unfolding mem add
mem-add [] k j = refl
mem-add (i ∷ s) k j = ground (arith, mem-add s k j, eq_iff i k, eq_iff i j, eq_iff k j)

pub mem-discard :
    (s : List String) (k j : String) → mem (discard s k) j ≡ (if k == j then false else mem s j)
unfolding mem discard
mem-discard [] k j = ground arith
mem-discard (i ∷ s) k j = ground (arith, mem-discard s k j, eq_iff i k, eq_iff i j, eq_iff k j)
