-- ===== src/Links/Again.antt =====
-- `NodeRange.delete` detaches its range twice: the second time changes no list.
use atomdoc.Prelude.{String, ◌≡◌, refl, sym, none, some, List, ◌∷◌, ◌++◌}
use mathlib.Core.Path.{subst}
use atomdoc.Links.{Ref, Links, set_slot, detach_range}
use atomdoc.Links.Chain.{head_or, end_or, Chain, Distinct-append, next-last}
use atomdoc.Links.Slots.{Slot, Kids, Represents, by_slot, set_slot_self, Slot-Front, Slot-Back}
use atomdoc.Links.Join.{joined, Slot-joined, OtherSlot-joined}
use atomdoc.Links.Detach.{detach_range-Represents, range_detached, range-Owned, Owned-detached}

-- A range that points at two neighbours, which stand next to each other already, is detached in vain.
module _ (l : Links) (kids : Kids) (p : Ref) (s : String) (us vs : List Ref) (start : Ref)
    (ys : List Ref) (end : Ref) (r : Represents l kids) (k : kids p s ≡ us ++ vs)
    (ends : end_or (some start) ys ≡ some end)
    (owner : (l.parent start ≡ some p) × (l.slot_name start ≡ some s))
    (range : Chain l (end_or none us) (start ∷ ys) (head_or vs none)) where
  again_lem : detach_range l start end ≡ joined l p s us vs
  unfolding detach_range
  again_lem =
      rw (owner.1, detach_range)
        (rw
          (owner.0, range.0, next-last l start ys end (end_or none us) (head_or vs none) ends range)
          refl)

  slot : Slot l p s (us ++ vs)
  slot = subst (λ ws. Slot l p s ws) k (r.slot p s)

  pub detach_again : Represents (detach_range l start end) kids
  detach_again = rw again_lem (record {
    slot =
        by_slot (λ q t. Slot (joined l p s us vs) q t (kids q t)) p s
          (subst (λ ws. Slot (joined l p s us vs) p s ws) (sym k)
            (Slot-joined l p s us vs (head_or vs none) (end_or none us)
              (Distinct-append us vs slot.distinct) (Slot-Front l p s us vs slot)
              (Slot-Back l p s us vs slot) slot.owned))
          (λ q t other. OtherSlot-joined l p s us vs slot.owned q t (kids q t) other (r.slot q t));
  })

-- Detached a second time, a range is out of its slot's list, and every list is as after the first.
pub detach_range-twice :
    (l : Links) (kids : Kids) (p : Ref) (s : String) (xs : List Ref) (start : Ref) (ys : List Ref)
    (end : Ref) (zs : List Ref)
    → Represents l kids
    → kids p s ≡ xs ++ ((start ∷ ys) ++ zs)
    → end_or (some start) ys ≡ some end
    → Represents (detach_range (detach_range l start end) start end) (set_slot kids p s (xs ++ zs))
detach_range-twice l kids p s xs start ys end zs r k ends =
    let slot = subst (λ ws. Slot l p s ws) k (r.slot p s) in
    let o = range-Owned l p s xs start ys end zs slot ends in
    detach_again (detach_range l start end) (set_slot kids p s (xs ++ zs)) p s xs zs start ys end
      (detach_range-Represents l kids p s xs start ys end zs r k ends)
      (set_slot_self kids p s (xs ++ zs)) ends
      (Owned-detached l p s xs start ys end zs slot ends (o.0.0, o.0.1))
      (range_detached l p s xs start ys end zs slot ends)
