-- ===== src/Scope/Placement.antt =====
-- _scope.py: which nodes `_recompute_placed` finds to stand in a client's tree.
use atomdoc.Prelude.{
  ℕ, zero, suc, ◌<◌, String, ◌≡◌, refl, sym, ap, ◌∙◌, Bool, true, false, ◌||◌, Option, none, some,
  List, [], ◌∷◌, arith, eq_iff, str_eq, if◌then◌else◌, if_elim,
}
use mathlib.Core.Path.{subst}
use atomdoc.Prelude.Dict.{Dict, lookup, contains, mem, discard, mem-add, mem-discard}
use atomdoc.Links.{Ref}
use atomdoc.Doc.{Doc, id_of}
use atomdoc.Scope.{Kind, ClientView}
use atomdoc.Scope.Placed.{climb, remember, place_node, place_one, place_all, recompute_placed}
use atomdoc.Scope.Climb.{
  is_held_up, is_node_held, is_in_tree, IsKnown, IsTree, Remembers, Remembers-remember, climb-held,
  climb-IsRight,
}

mem-place_node :
    (placed : List String) (i : String) (b : Bool) (j : String)
    → mem (place_node placed i b) j ≡ (if str_eq i j then b else mem placed j)
mem-place_node placed i true j = mem-add placed i j ∙ or_if (str_eq i j) (mem placed j)
  where
    or_if : (a b : Bool) → (a || b) ≡ (if a then true else b)
    or_if a b = ground arith
mem-place_node placed i false j = mem-discard placed i j

-- what is known and placed is right, after one round
record IsPlacedAt (d : Doc) (held : Dict Kind) (t : IsTree d) (i : String) (placed : List String)
    (s : Dict Bool × List String) : Type 0 where
  known : Remembers d held t s.0
  members : (j : String) → mem s.1 j ≡ (if str_eq i j then is_in_tree d held i else mem placed j)

module _ (d : Doc) (held : Dict Kind) (t : IsTree d) where
  not-held :
      (fuel n : ℕ) (x : Ref)
      → n < fuel
      → contains held (id_of d x) ≡ false
      → is_held_up fuel d held (some x) ≡ false
  unfolding is_held_up
  not-held zero n x h e = absurd (omega (arith, h))
  not-held (suc fuel) n x h e = rw e refl

  dropped-IsPlacedAt :
      (i : String) (known : Dict Bool) (placed : List String)
      → is_in_tree d held i ≡ false
      → Remembers d held t known
      → IsPlacedAt d held t i placed (known, discard placed i)
  dropped-IsPlacedAt i known placed e r = record {
    known = r;
    members = λ j. rw e (mem-place_node placed i false j);
  }

  place_one-IsPlacedAt :
      (i : String) (o : Option Ref) (known : Dict Bool) (placed : List String)
      → lookup d.node_map i ≡ o
      → Remembers d held t known
      → IsPlacedAt d held t i placed (place_one d held i o (known, placed))
  unfolding place_one is_in_tree
  place_one-IsPlacedAt i none known placed e r =
      dropped-IsPlacedAt i known placed (ap (is_node_held d held) e) r
  place_one-IsPlacedAt i (some x) known placed e r =
      let named : id_of d x ≡ i = t.named i x e in
      let is_known : IsKnown d x = subst (λ j. lookup d.node_map j ≡ some x) (sym named) e in
      let bound = t.bounded x is_known in
      let way = climb d held d.allocated known (some x) in
      let right : is_held_up d.allocated d held (some x) ≡ way.1 =
        climb-held d held t d.allocated known x r is_known bound in
      if_elim (IsPlacedAt d held t i placed) (contains held i)
        (remember known way.0 way.1, place_node placed i way.1) (known, discard placed i)
        (λ _. record {
          known =
              Remembers-remember d held t known way.0 way.1 r
                (climb-IsRight d held t d.allocated known x r is_known bound);
          members = λ j.
              mem-place_node placed i way.1 j
              ∙ ap (λ b. if str_eq i j then b else mem placed j) (sym right ∙ sym (in_tree x e));
        })
        (λ out.
          dropped-IsPlacedAt i known placed
            (in_tree x e
              ∙ not-held d.allocated (t.depth x) x bound (ap (contains held) named ∙ out))
            r)
    where
      in_tree :
          (x : Ref)
          → lookup d.node_map i ≡ some x
          → is_in_tree d held i ≡ is_held_up d.allocated d held (some x)
      in_tree x e = unfold is_in_tree in ap (is_node_held d held) e

  place_all-members :
      (is : List String) (known : Dict Bool) (placed : List String) (j : String)
      → Remembers d held t known
      → mem (place_all d held is (known, placed)).1 j
        ≡ (if mem is j then is_in_tree d held j else mem placed j)
  unfolding place_all mem
  place_all-members [] known placed j r = refl
  place_all-members (i ∷ is) known placed j r =
      let next = place_one d held i (lookup d.node_map i) (known, placed) in
      let h = place_one-IsPlacedAt i (lookup d.node_map i) known placed refl r in
      place_all-members is next.0 next.1 j h.known
      ∙ ap (λ b. if mem is j then is_in_tree d held j else b) (h.members j)
      ∙ go (str_eq i j) refl
    where
      go :
          (b : Bool)
          → str_eq i j ≡ b
          → (if mem is j
              then is_in_tree d held j
              else (if b then is_in_tree d held i else mem placed j))
            ≡ (if b || mem is j then is_in_tree d held j else mem placed j)
      go true e = rw (sym ((eq_iff i j).0 e)) (same (mem is i) (is_in_tree d held i))
        where
          same : (a c : Bool) → (if a then c else c) ≡ c
          same true c = refl
          same false c = refl
      go false e = refl

-- In a document whose nodes stand in a tree, the nodes that are looked at again are placed exactly if they
-- are in the document and they and all nodes above them are held, whatever was placed before; the
-- others stay as they were.
pub recompute_placed-in_tree :
    (d : Doc) (v : ClientView) (ids : List String) (i : String)
    → IsTree d
    → mem (recompute_placed d v ids).placed i
      ≡ (if mem ids i then is_in_tree d v.held i else mem v.placed i)
unfolding recompute_placed Remembers lookup
recompute_placed-in_tree d v ids i t =
    place_all-members d v.held t ids [] v.placed i (λ x result k e. absurd (none_some e))
  where
    none_some : {b : Bool} → none ≡ some b → ⊥
    none_some e = cc
