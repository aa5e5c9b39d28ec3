-- ===== src/Undo/Merge.antt =====
-- `merge_operations`: operations in order, and of two writes of one field the later.
use atomdoc.Prelude.{
  String, ◌≡◌, refl, ap, ◌∙◌, inl, inr, false, Option, none, some, [], ◌∷◌, ◌++◌, arith, eq_iff,
  str_eq, if◌then◌else◌, Bool-cases,
}
use atomdoc.Prelude.Dict.{
  Dict, lookup, insert, contains, get_or, update, lookup-insert, contains-lookup,
}
use atomdoc.Types.{Value, Operations, StatePatch}
use atomdoc.Undo.{merge_patches, merge_operations}

-- No key stands twice, as in every Python dictionary.
abbrev pub Distinct {ℓ} : {V : Type ℓ} → Dict V → Type 0
Distinct [] = Unit
Distinct ((k, v) ∷ d) = (contains d k ≡ false) × Distinct d

-- the first value, or else the second
abbrev pub or_else {ℓ} : {A : Type ℓ} → Option A → Option A → Option A
or_else none o = o
or_else (some a) o = some a

module _ {ℓ} {V : Type ℓ} where
  lookup-absent : (d : Dict V) (k : String) → contains d k ≡ false → lookup d k ≡ none
  lookup-absent d k h = ground (arith, contains-lookup d k)

  lookup-update :
      (a b : Dict V) (k : String)
      → Distinct b
      → lookup (update a b) k ≡ or_else (lookup b k) (lookup a k)
  unfolding update
  lookup-update a [] k h = unfold lookup in refl
  lookup-update a ((j, v) ∷ b) k h =
      lookup-update (insert a j v) b k h.1 ∙ elim (Bool-cases (str_eq j k)) [
        | inl same ↦
            let e : j ≡ k = (eq_iff j k).0 same in
            let gone : lookup b k ≡ none = rw (← e) (lookup-absent b j h.0) in
            unfold lookup in ground (arith, gone, lookup-insert a j v k)
        | inr other ↦ unfold lookup in ground (arith, lookup-insert a j v k)
      ]

-- what a set of patches writes to a field
unfoldable pub written : StatePatch → String → String → Option Value
written p i key = lookup (get_or p i []) key

abbrev pub DistinctPatches : StatePatch → Type 0
DistinctPatches [] = Unit
DistinctPatches ((i, patch) ∷ p) = (contains p i ≡ false) × Distinct patch × DistinctPatches p

written-insert :
    (p : StatePatch) (i : String) (patch : Dict Value) (j key : String)
    → written (insert p i patch) j key ≡ (if str_eq i j then lookup patch key else written p j key)
unfolding written get_or
written-insert p i patch j key = ground (arith, lookup-insert p i patch j)

written-absent : (p : StatePatch) (i key : String) → contains p i ≡ false → written p i key ≡ none
unfolding written get_or lookup
written-absent p i key h = ground (arith, contains-lookup p i)

written-merge :
    (a b : StatePatch) (i key : String)
    → DistinctPatches b
    → written (merge_patches a b) i key ≡ or_else (written b i key) (written a i key)
unfolding merge_patches
written-merge a [] i key h = unfold written get_or lookup in refl
written-merge a ((j, patch) ∷ b) i key h =
    written-merge (insert a j (update (get_or a j []) patch)) b i key h.2
    ∙ elim (Bool-cases (str_eq j i)) [
      | inl same ↦
          let e : j ≡ i = (eq_iff j i).0 same in
          let gone : written b i key ≡ none = rw (← e) (written-absent b j key h.0) in
          unfold written get_or lookup in
          ground (
            arith,
            gone,
            e,
            written-insert a j (update (get_or a j []) patch) i key,
            lookup-update (get_or a j []) patch key h.1,
          )
      | inr other ↦
          unfold written get_or lookup in
          ground (arith, written-insert a j (update (get_or a j []) patch) i key)
    ]

-- Merged, two operation sets are the operations of both in order, and of the fields that both write
-- the second one's value, with every other write kept.
pub merge_operations-two :
    (a b : Operations)
    → DistinctPatches a.patches
    → DistinctPatches b.patches
    → ((merge_operations (a ∷ b ∷ [])).ordered ≡ a.ordered ++ b.ordered)
      × ((i key : String)
          → written (merge_operations (a ∷ b ∷ [])).patches i key
            ≡ or_else (written b.patches i key) (written a.patches i key))
unfolding merge_operations
merge_operations-two a b ha hb = (
  refl,
  λ i key.
      written-merge (merge_patches [] a.patches) b.patches i key hb
      ∙ ap (or_else (written b.patches i key))
          (written-merge [] a.patches i key ha ∙ nothing_before (written a.patches i key) i key),
)
  where
    nothing_before : (o : Option Value) (i key : String) → or_else o (written [] i key) ≡ o
    nothing_before none i key = unfold written get_or lookup in refl
    nothing_before (some v) i key = refl
