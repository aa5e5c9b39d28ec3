-- ===== src/Links/Move.antt =====
-- A move takes a range of siblings from one place of the tree to another, in the same slot or not.
use atomdoc.Prelude.{String, ◌≡◌, sym, inl, inr, none, some, List, ◌∷◌, ◌++◌}
use mathlib.Core.Path.{subst}
use atomdoc.Links.{Ref, Links, set_slot, detach_range, move_links}
use atomdoc.Links.Chain.{
  In, head_or, end_or, In-append, In-append_left, In-append_right, Distinct-append,
}
use atomdoc.Links.Slots.{
  Slot, Kids, Represents, by_slot, set_slot_self, set_slot_ne, OtherSlot-NotIn,
}
use atomdoc.Links.Detach.{detach_range-Represents, range_detached}
use atomdoc.Links.Attach.{Slot-attached, other_attached, attach_range_lem}

-- Once a range is detached, no slot holds a node of it.
range_apart :
    (l : Links) (kids : Kids) (p : Ref) (s : String) (xs : List Ref) (start : Ref)
    (ys zs : List Ref)
    → Represents l kids
    → kids p s ≡ xs ++ ((start ∷ ys) ++ zs)
    → (q : Ref) (t : String) (x : Ref) → In x (start ∷ ys)
    → In x (set_slot kids p s (xs ++ zs) q t)
    → ⊥
range_apart l kids p s xs start ys zs r k =
    let slot = subst (λ us. Slot l p s us) k (r.slot p s) in
    let outer = Distinct-append xs ((start ∷ ys) ++ zs) slot.distinct in
    let inner = Distinct-append (start ∷ ys) zs outer.back in
    by_slot (λ q t. (x : Ref) → In x (start ∷ ys) → In x (set_slot kids p s (xs ++ zs) q t) → ⊥) p s
      (λ x m n.
        elim (In-append x xs zs (subst (λ ws. In x ws) (set_slot_self kids p s (xs ++ zs)) n)) [
          | inl a ↦ outer.apart x a (In-append_left x (start ∷ ys) zs m)
          | inr b ↦ inner.apart x m b
        ])
      (λ q t other x m n.
        OtherSlot-NotIn l p s q t _ (kids q t) x other slot.owned (r.slot q t).owned
          (In-append_right x xs ((start ∷ ys) ++ zs) (In-append_left x (start ∷ ys) zs m))
          (subst (λ ws. In x ws) (set_slot_ne kids p s (xs ++ zs) q t other) n))

-- The pointers of a move do to the slots' lists what the move means: the range leaves its list, and
-- stands between `us` and `vs` in the list of its new slot.
pub move_links-Represents :
    (l : Links) (kids : Kids) (p : Ref) (s : String) (xs : List Ref) (start : Ref) (ys : List Ref)
    (end : Ref) (zs : List Ref) (p' : Ref) (s' : String) (us vs : List Ref)
    → Represents l kids
    → kids p s ≡ xs ++ ((start ∷ ys) ++ zs)
    → end_or (some start) ys ≡ some end
    → set_slot kids p s (xs ++ zs) p' s' ≡ us ++ vs
    → Represents
        (move_links l start end (start ∷ ys) p' s' (end_or none us) (head_or vs none))
        (set_slot (set_slot kids p s (xs ++ zs)) p' s' (us ++ ((start ∷ ys) ++ vs)))
unfolding move_links
move_links-Represents l kids p s xs start ys end zs p' s' us vs r k ends k' =
    let slot = subst (λ ws. Slot l p s ws) k (r.slot p s) in
    let d = detach_range l start end in
    let kids1 = set_slot kids p s (xs ++ zs) in
    let r1 : Represents d kids1 = detach_range-Represents l kids p s xs start ys end zs r k ends in
    let slot1 : Slot d p' s' (us ++ vs) = subst (λ ws. Slot d p' s' ws) k' (r1.slot p' s') in
    let c = range_detached l p s xs start ys end zs slot ends in
    let outer = Distinct-append xs ((start ∷ ys) ++ zs) slot.distinct in
    let inner = Distinct-append (start ∷ ys) zs outer.back in
    let out = range_apart l kids p s xs start ys zs r k in
    let out1 = λ (x : Ref) (m : In x (start ∷ ys)) (n : In x (us ++ vs)).
      out p' s' x m (subst (λ ws. In x ws) (sym k') n) in
    let all = us ++ ((start ∷ ys) ++ vs) in
    rw (attach_range_lem d p' s' us vs start ys end _ _ slot1 ends c inner.front out1) (record {
      slot =
          by_slot (λ q t. Slot _ q t (set_slot kids1 p' s' all q t)) p' s'
            (rw (set_slot_self kids1 p' s' all)
              (Slot-attached d p' s' us vs start ys end _ _ slot1 ends c inner.front out1))
            (λ q t other. rw (set_slot_ne kids1 p' s' all q t other) (
              other_attached d p' s' us vs start ys end _ _ slot1 ends c inner.front out1 q t
                (kids1 q t) other (out q t) (r1.slot q t)));
    })
