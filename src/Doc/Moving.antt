-- ===== src/Doc/Moving.antt =====
-- What the move of a range does to the lists of children that the links of a document represent.
use atomdoc.Prelude.{String, ◌≡◌, refl, sym, Option, none, some, List, [], ◌∷◌, ◌++◌, if_elim}
use mathlib.Core.Path.{subst}
use atomdoc.Prelude.Dict.{mem, add}
use atomdoc.Prelude.Exec.{ok}
use atomdoc.Links.{move_links, Ref, set_slot}
use atomdoc.Links.Chain.{end_or, head_or}
use atomdoc.Links.Slots.{Slot, Kids, Represents}
use atomdoc.Doc.{Doc, id_of}
use atomdoc.Doc.Record.{diff_of, set_diff}
use atomdoc.Doc.Deletes.{mark_moved, on_move_range}
use atomdoc.Doc.Range.{move_nodes, between}
use atomdoc.Links.Move.{move_links-Represents}
use atomdoc.Links.Detach.{range-Owned}

mark_moved-links : (d : Doc) (xs : List Ref) → (mark_moved d xs).links ≡ d.links
unfolding mark_moved
mark_moved-links d [] = refl
mark_moved-links d (x ∷ xs) =
    if_elim (λ (r : Doc). (mark_moved r xs).links ≡ d.links) (mem (diff_of d).inserted (id_of d x))
      _ _ (λ _. mark_moved-links d xs)
      (λ _.
        mark_moved-links
          (set_diff d (record (diff_of d) { moved = add (diff_of d).moved (id_of d x) })) xs)

-- Recording a move of a node that has a parent succeeds, and changes no pointer.
pub on_move_range-links :
    (d : Doc) (start end : Ref) (xs : List Ref) (p : Ref) (s : String) (prev next : Option Ref)
    (q : Ref)
    → d.links.parent start ≡ some q
    → (d1 : Doc) × (on_move_range d start end xs p s prev next ≡ some d1) × (d1.links ≡ d.links)
unfolding on_move_range
on_move_range-links d start end xs p s prev next q e =
    rw (e, on_move_range) (_, refl, mark_moved-links _ xs)

-- A move of a range of siblings between two neighbours, with what it records, succeeds and does to
-- the children of the document what it means.
pub move_nodes-Represents :
    (d : Doc) (kids : Kids) (p : Ref) (s : String) (xs : List Ref) (start : Ref) (ys : List Ref)
    (end : Ref) (zs : List Ref) (p' : Ref) (s' : String) (us vs : List Ref)
    → Represents d.links kids
    → kids p s ≡ xs ++ ((start ∷ ys) ++ zs)
    → end_or (some start) ys ≡ some end
    → set_slot kids p s (xs ++ zs) p' s' ≡ us ++ vs
    → (d' : Doc) × (move_nodes start end
          (start ∷ ys)
          p'
          s'
          (between (end_or none us) (head_or vs none))
          d
        ≡ (ok tt, d'))
      × Represents d'.links
          (set_slot (set_slot kids p s (xs ++ zs)) p' s' (us ++ ((start ∷ ys) ++ vs)))
unfolding move_nodes
move_nodes-Represents d kids p s xs start ys end zs p' s' us vs r k ends k' =
    let slot = subst (λ ws. Slot d.links p s ws) k (r.slot p s) in
    let (d1, e, same) =
      on_move_range-links d start end (start ∷ ys) p' s' (end_or none us) (head_or vs none) p
        (range-Owned d.links p s xs start ys end zs slot ends).0.0 in
    rw (e, move_nodes)
      (
        _,
        refl,
        subst
            (λ l.
              Represents
                (move_links l start end (start ∷ ys) p' s' (end_or none us) (head_or vs none))
                (set_slot (set_slot kids p s (xs ++ zs)) p' s' (us ++ ((start ∷ ys) ++ vs))))
            (sym same)
            (move_links-Represents d.links kids p s xs start ys end zs p' s' us vs r k ends k'),
      )
