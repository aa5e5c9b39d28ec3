-- ===== src/Links/Join.antt =====
-- Two parts of a list, each as long as the other is to stand next to it, are linked to one another.
use atomdoc.Prelude.{String, ◌∙◌, Option, none, some, List, ◌++◌}
use atomdoc.Links.{Ref, Links, link_next, link_prev}
use atomdoc.Links.Chain.{
  In, In-append_left, In-append_right, DistinctParts, Distinct-join, head_or, end_or, Owned,
  Owned-same, NotIn-end, NotIn-head,
}
use atomdoc.Links.Slots.{
  Slot, Front, Back, OtherSlot, Front-link_next, Back-link_prev, Back-link_next, Front-link_prev,
  Slot-link_next, Slot-link_prev, Slot-join, OtherSlot-NotIn, parent-link_next, slot_name-link_next,
  parent-link_prev, slot_name-link_prev,
}

module _ (l : Links) (p : Ref) (s : String) (us vs : List Ref) where
  abbrev half : Links
  half = link_next l (end_or none us) (some p) s (head_or vs none)

  -- the last of the first part and the head of the second one point at each other
  abbrev pub joined : Links
  joined = link_prev half (head_or vs none) (some p) s (end_or none us)

  pub Owned-joined : (q : Ref) (t : String) (ws : List Ref) → Owned l q t ws → Owned joined q t ws
  Owned-joined =
      Owned-same l joined
        (parent-link_prev half (head_or vs none) (some p) s (end_or none us)
          ∙ parent-link_next l (end_or none us) (some p) s (head_or vs none))
        (slot_name-link_prev half (head_or vs none) (some p) s (end_or none us)
          ∙ slot_name-link_next l (end_or none us) (some p) s (head_or vs none))

  pub Slot-joined :
      (a b : Option Ref)
      → DistinctParts us vs
      → Front l p s us a
      → Back l p s b vs
      → Owned l p s (us ++ vs)
      → Slot joined p s (us ++ vs)
  Slot-joined a b parts f k o =
      let f1 = Front-link_next l p s us a (head_or vs none) parts.front f in
      let k1 =
        Back-link_next l p s (end_or none us) (head_or vs none) b vs (NotIn-end us vs parts.apart)
          k in
      Slot-join joined p s us vs
        (Front-link_prev half p s (head_or vs none) (end_or none us) (head_or vs none) us
          (NotIn-head vs us (λ x m n. parts.apart x n m)) f1)
        (Back-link_prev half p s b (end_or none us) vs parts.back k1)
        (Owned-joined p s (us ++ vs) o) (Distinct-join us vs parts)

  pub OtherSlot-joined :
      Owned l p s (us ++ vs)
      → (q : Ref) (t : String) (ws : List Ref) → OtherSlot p s q t
      → Slot l q t ws
      → Slot joined q t ws
  OtherSlot-joined o q t ws other h =
      let far = λ (x : Ref) (m : In x (us ++ vs)) (n : In x ws).
        OtherSlot-NotIn l p s q t (us ++ vs) ws x other o h.owned m n in
      Slot-link_prev half p s q t other (head_or vs none) (end_or none us) ws
        (NotIn-head vs ws (λ x m n. far x (In-append_right x us vs m) n))
        (Slot-link_next l p s q t other (end_or none us) (head_or vs none) ws
          (NotIn-end us ws (λ x m n. far x (In-append_left x us vs m) n)) h)
