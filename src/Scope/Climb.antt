-- ===== src/Scope/Climb.antt =====
-- _scope.py: the way up to the root in `_recompute_placed`, with and without what is remembered.
use atomdoc.Prelude.{
  ℕ, zero, suc, ◌<◌, String, ◌≡◌, refl, sym, ap, ◌∙◌, inl, inr, Bool, true, false, ◌&&◌, Option,
  none, some, List, [], ◌∷◌, arith, eq_iff, str_eq, Bool-cases, All,
}
use mathlib.Core.Path.{subst}
use atomdoc.Prelude.Dict.{Dict, lookup, insert, contains, lookup-insert}
use atomdoc.Links.{Ref}
use atomdoc.Doc.{Doc, id_of}
use atomdoc.Scope.{Kind}
use atomdoc.Scope.Placed.{climb, step_up, remember}

-- The node and all above it are held.
unfoldable pub is_held_up : ℕ → Doc → Dict Kind → Option Ref → Bool
is_held_up zero d held x = true
is_held_up (suc fuel) d held none = true
is_held_up (suc fuel) d held (some x) =
    contains held (id_of d x) && is_held_up fuel d held (d.links.parent x)

-- The node of that ID is in the document, and it and all above it are held.
abbrev pub is_node_held : Doc → Dict Kind → Option Ref → Bool
is_node_held d held none = false
is_node_held d held (some x) = is_held_up d.allocated d held (some x)

unfoldable pub is_in_tree : Doc → Dict Kind → String → Bool
is_in_tree d held i = is_node_held d held (lookup d.node_map i)

-- the object that the document knows under its ID
abbrev pub IsKnown : Doc → Ref → Type 0
IsKnown d x = lookup d.node_map (id_of d x) ≡ some x

-- The nodes of a document stand in a tree, and under their IDs in the map.
pub record IsTree (d : Doc) : Type 0 where
  pub depth : Ref → ℕ
  pub bounded : (x : Ref) → IsKnown d x → depth x < d.allocated
  pub deeper : (x p : Ref) → IsKnown d x → d.links.parent x ≡ some p → depth p < depth x
  pub parents : (x p : Ref) → IsKnown d x → d.links.parent x ≡ some p → IsKnown d p
  pub named : (i : String) (x : Ref) → lookup d.node_map i ≡ some x → id_of d x ≡ i

module _ (d : Doc) (held : Dict Kind) (t : IsTree d) where
  -- more fuel than the depth makes no difference
  is_held_up-stable :
      (f g : ℕ) (x : Ref)
      → IsKnown d x
      → t.depth x < f
      → t.depth x < g
      → is_held_up f d held (some x) ≡ is_held_up g d held (some x)
  unfolding is_held_up
  is_held_up-stable zero g x k h l = absurd (omega (arith, h))
  is_held_up-stable (suc f) zero x k h l = absurd (omega (arith, l))
  is_held_up-stable (suc f) (suc g) x k h l =
      ap (λ b. contains held (id_of d x) && b)
        (go (d.links.parent x) refl (λ p e.
          let less = t.deeper x p k e in
          is_held_up-stable f g p (t.parents x p k e) (omega (arith, less, h))
            (omega (arith, less, l))))
    where
      at_none : (f : ℕ) → is_held_up f d held none ≡ true
      at_none zero = refl
      at_none (suc f) = refl

      go :
          (o : Option Ref)
          → d.links.parent x ≡ o
          → ((p : Ref)
              → d.links.parent x ≡ some p
              → is_held_up f d held (some p) ≡ is_held_up g d held (some p))
          → is_held_up f d held o ≡ is_held_up g d held o
      go none e r = at_none f ∙ sym (at_none g)
      go (some p) e r = r p e

  -- What is remembered is right.
  unfoldable pub Remembers : Dict Bool → Type 0
  Remembers known =
      (x : Ref) (result : Bool)
      → IsKnown d x
      → lookup known (id_of d x) ≡ some result
      → is_held_up d.allocated d held (some x) ≡ result

  -- a result, right for the node of an ID
  unfoldable pub IsRight : Bool → String → Type 0
  IsRight result i =
      (x : Ref) → IsKnown d x → id_of d x ≡ i → is_held_up d.allocated d held (some x) ≡ result

  pub Remembers-remember :
      (known : Dict Bool) (chain : List String) (result : Bool)
      → Remembers known
      → All (IsRight result) chain
      → Remembers (remember known chain result)
  unfolding remember Remembers IsRight
  Remembers-remember known [] result r a = r
  Remembers-remember known (i ∷ chain) result r a =
      Remembers-remember (insert known i result) chain result
        (λ x b k e. elim (Bool-cases (str_eq i (id_of d x))) [
          | inl same ↦
              a.0 x k (sym ((eq_iff i (id_of d x)).0 same))
              ∙ some_injective (sym (lookup-insert known i result (id_of d x) ∙ rw same refl) ∙ e)
          | inr other ↦ r x b k (sym (lookup-insert known i result (id_of d x) ∙ rw other refl) ∙ e)
        ])
        a.1
    where
      some_injective : {a b : Bool} → some a ≡ some b → a ≡ b
      some_injective e = cc

  climb-none :
      (fuel : ℕ) (known : Dict Bool)
      → is_held_up fuel d held none ≡ (climb d held fuel known none).1
  unfolding is_held_up climb
  climb-none zero known = refl
  climb-none (suc fuel) known = refl

  -- one step up, if the rest of the way is right
  step_up-held :
      (fuel : ℕ) (known : Dict Bool) (x : Ref) (o : Option Bool) (is : Bool)
      (rest : List String × Bool)
      → ((result : Bool) → o ≡ some result → is_held_up (suc fuel) d held (some x) ≡ result)
      → contains held (id_of d x) ≡ is
      → is_held_up fuel d held (d.links.parent x) ≡ rest.1
      → is_held_up (suc fuel) d held (some x) ≡ (step_up o is (id_of d x) rest).1
  unfolding is_held_up
  step_up-held fuel known x (some result) is rest r e q = r result refl
  step_up-held fuel known x none true rest r e q = rw e q
  step_up-held fuel known x none false rest r e q = rw e refl

  pub climb-held :
      (fuel : ℕ) (known : Dict Bool) (x : Ref)
      → Remembers known
      → IsKnown d x
      → t.depth x < fuel
      → is_held_up fuel d held (some x) ≡ (climb d held fuel known (some x)).1
  unfolding climb Remembers
  climb-held zero known x r k h = absurd (omega (arith, h))
  climb-held (suc fuel) known x r k h =
      step_up-held fuel known x (lookup known (id_of d x)) (contains held (id_of d x))
        (climb d held fuel known (d.links.parent x))
        (λ result e.
          is_held_up-stable (suc fuel) d.allocated x k h (t.bounded x k) ∙ r x result k e)
        refl
        (up (d.links.parent x) refl (λ p e.
          let less = t.deeper x p k e in
          climb-held fuel known p r (t.parents x p k e) (omega (arith, less, h))))
    where
      up :
          (o : Option Ref)
          → d.links.parent x ≡ o
          → ((p : Ref)
              → d.links.parent x ≡ some p
              → is_held_up fuel d held (some p) ≡ (climb d held fuel known (some p)).1)
          → is_held_up fuel d held o ≡ (climb d held fuel known o).1
      up none e q = climb-none fuel known
      up (some p) e q = q p e

  -- two objects known under one ID are one
  known-same : (x y : Ref) → IsKnown d x → IsKnown d y → id_of d y ≡ id_of d x → y ≡ x
  known-same x y k l e = some_injective (sym l ∙ ap (lookup d.node_map) e ∙ k)
    where
      some_injective : {a b : Ref} → some a ≡ some b → a ≡ b
      some_injective e = cc

  chain-IsRight :
      (x : Ref) (o : Option Bool) (is : Bool) (rest : List String × Bool)
      → IsKnown d x
      → is_held_up d.allocated d held (some x) ≡ (step_up o is (id_of d x) rest).1
      → All (IsRight rest.1) rest.0
      → All (IsRight (step_up o is (id_of d x) rest).1) (step_up o is (id_of d x) rest).0
  unfolding IsRight
  chain-IsRight x (some result) is rest k h a = tt
  chain-IsRight x none false rest k h a = tt
  chain-IsRight x none true rest k h a = (
    λ y l e.
        subst (λ z. is_held_up d.allocated d held (some z) ≡ rest.1) (sym (known-same x y k l e)) h,
    a,
  )

  pub climb-IsRight :
      (fuel : ℕ) (known : Dict Bool) (x : Ref)
      → Remembers known
      → IsKnown d x
      → t.depth x < fuel
      → All (IsRight (climb d held fuel known (some x)).1) (climb d held fuel known (some x)).0
  unfolding climb
  climb-IsRight zero known x r k h = absurd (omega (arith, h))
  climb-IsRight (suc fuel) known x r k h =
      chain-IsRight x (lookup known (id_of d x)) (contains held (id_of d x))
        (climb d held fuel known (d.links.parent x)) k
        (is_held_up-stable d.allocated (suc fuel) x k (t.bounded x k) h
          ∙ climb-held (suc fuel) known x r k h)
        (up (d.links.parent x) refl (λ p e.
          let less = t.deeper x p k e in
          climb-IsRight fuel known p r (t.parents x p k e) (omega (arith, less, h))))
    where
      nothing : (f : ℕ) → All (IsRight (climb d held f known none).1) (climb d held f known none).0
      nothing zero = tt
      nothing (suc f) = tt

      up :
          (o : Option Ref)
          → d.links.parent x ≡ o
          → ((p : Ref)
              → d.links.parent x ≡ some p
              → All
                  (IsRight (climb d held fuel known (some p)).1)
                  (climb d held fuel known (some p)).0)
          → All (IsRight (climb d held fuel known o).1) (climb d held fuel known o).0
      up none e q = nothing fuel
      up (some p) e q = q p e
