-- ===== src/Links/Detach.antt =====
-- `_detach_range` takes a range out of its slot's list, and leaves every other slot.
use atomdoc.Prelude.{[], String, ◌≡◌, refl, sym, ◌∙◌, none, some, List, ◌∷◌, ◌++◌}
use mathlib.Core.Path.{subst}
use atomdoc.Links.{Ref, Links, set_slot, link_next, detach_range}
use atomdoc.Links.Chain.{
  Chain-link_next, Chain-link_prev, head_or, end_or, Chain, Owned, Chain-append, Owned-append,
  Owned-join, next-last, NotIn-end, NotIn-head, end_or-append, Distinct-append, DistinctParts,
  In-append_left, In-append_right,
}
use atomdoc.Links.Join.{joined, Slot-joined, Owned-joined, OtherSlot-joined}
use atomdoc.Links.Slots.{
  Slot, Kids, Represents, OtherSlot, by_slot, set_slot_self, set_slot_ne, Slot-Front,
}

-- The range `start ∷ ys`, with last node `end`, between `xs` and `zs` in the slot `s` of `p`.
module _ (l : Links) (p : Ref) (s : String) (xs : List Ref) (start : Ref) (ys : List Ref)
    (end : Ref) (zs : List Ref) (slot : Slot l p s (xs ++ ((start ∷ ys) ++ zs)))
    (ends : end_or (some start) ys ≡ some end) where
  chains : Chain l none xs (some start) × Chain l (end_or none xs) ((start ∷ ys) ++ zs) none
  chains = Chain-append l none xs ((start ∷ ys) ++ zs) none slot.chain

  pub range-Chain :
      Chain l (end_or none xs) (start ∷ ys) (head_or zs none)
      × Chain l (end_or (end_or none xs) (start ∷ ys)) zs none
  range-Chain = Chain-append l (end_or none xs) (start ∷ ys) zs none chains.1

  Owned-parts : Owned l p s xs × Owned l p s ((start ∷ ys) ++ zs)
  Owned-parts = Owned-append l p s xs ((start ∷ ys) ++ zs) slot.owned

  pub range-Owned : Owned l p s (start ∷ ys) × Owned l p s zs
  range-Owned = Owned-append l p s (start ∷ ys) zs Owned-parts.1

  outer : DistinctParts xs ((start ∷ ys) ++ zs)
  outer = Distinct-append xs ((start ∷ ys) ++ zs) slot.distinct

  pub inner : DistinctParts (start ∷ ys) zs
  inner = Distinct-append (start ∷ ys) zs outer.back

  around : DistinctParts xs zs
  around = record {
    front = outer.front;
    back = inner.back;
    apart = λ x m n. outer.apart x m (In-append_right x (start ∷ ys) zs n);
  }

  -- the links that are left, with the neighbours written out
  abbrev unlinked : Links
  unlinked = joined l p s xs zs

  pub detach_range_lem : detach_range l start end ≡ unlinked
  unfolding detach_range
  detach_range_lem =
      rw (range-Owned.0.1, detach_range)
        (rw
          (
            range-Owned.0.0,
            range-Chain.0.0,
            next-last l start ys end (end_or none xs) (head_or zs none) ends range-Chain.0,
          )
          refl)

  Slot-detached : Slot unlinked p s (xs ++ zs)
  Slot-detached =
      Slot-joined l p s xs zs (some start) (end_or (end_or none xs) (start ∷ ys)) around
        (Slot-Front l p s xs ((start ∷ ys) ++ zs) slot)
        (record {
          last =
              slot.last
              ∙ end_or-append none xs ((start ∷ ys) ++ zs)
              ∙ end_or-append (end_or none xs) (start ∷ ys) zs;
          chain = range-Chain.1;
        })
        (Owned-join l p s xs zs Owned-parts.0 range-Owned.1)

  OtherSlot-detached :
      (q : Ref) (t : String) (us : List Ref)
      → OtherSlot p s q t
      → Slot l q t us
      → Slot unlinked q t us
  OtherSlot-detached =
      OtherSlot-joined l p s xs zs (Owned-join l p s xs zs Owned-parts.0 range-Owned.1)

  -- The range keeps its owner.
  pub Owned-detached :
      (l.parent start ≡ some p) × (l.slot_name start ≡ some s)
      → ((detach_range l start end).parent start ≡ some p)
        × ((detach_range l start end).slot_name start ≡ some s)
  Owned-detached h =
      subst (λ (z : Links). (z.parent start ≡ some p) × (z.slot_name start ≡ some s))
        (sym detach_range_lem)
        (let o = Owned-joined l p s xs zs p s (start ∷ []) (h.0, h.1, tt) in (o.0, o.1))

  -- The range is linked as it was, by its own pointers.
  pub range_detached :
      Chain (detach_range l start end) (end_or none xs) (start ∷ ys) (head_or zs none)
  range_detached =
      subst (λ z. Chain z (end_or none xs) (start ∷ ys) (head_or zs none)) (sym detach_range_lem)
        (Chain-link_prev l1 (head_or zs none) (some p) s (end_or none xs) (end_or none xs)
          (start ∷ ys) (head_or zs none) (NotIn-head zs (start ∷ ys) (λ x m n. inner.apart x n m))
          (Chain-link_next l (end_or none xs) (some p) s (head_or zs none) (end_or none xs)
            (start ∷ ys) (head_or zs none)
            (NotIn-end xs (start ∷ ys)
              (λ x m n. outer.apart x m (In-append_left x (start ∷ ys) zs n)))
            range-Chain.0))
    where
      l1 : Links
      l1 = link_next l (end_or none xs) (some p) s (head_or zs none)

-- Detaching a range of siblings takes it out of its slot's list, and out of nothing else.
pub detach_range-Represents :
    (l : Links) (kids : Kids) (p : Ref) (s : String) (xs : List Ref) (start : Ref) (ys : List Ref)
    (end : Ref) (zs : List Ref)
    → Represents l kids
    → kids p s ≡ xs ++ ((start ∷ ys) ++ zs)
    → end_or (some start) ys ≡ some end
    → Represents (detach_range l start end) (set_slot kids p s (xs ++ zs))
detach_range-Represents l kids p s xs start ys end zs r k ends =
    let slot = subst (λ us. Slot l p s us) k (r.slot p s) in
    rw (detach_range_lem l p s xs start ys end zs slot ends) (record {
      slot =
          by_slot (λ q t. Slot _ q t (set_slot kids p s (xs ++ zs) q t)) p s
            (rw (set_slot_self kids p s (xs ++ zs))
              (Slot-detached l p s xs start ys end zs slot ends))
            (λ q t other. rw (set_slot_ne kids p s (xs ++ zs) q t other) (
              OtherSlot-detached l p s xs start ys end zs slot ends q t (kids q t) other
                (r.slot q t)));
    })
