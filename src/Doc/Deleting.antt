-- ===== src/Doc/Deleting.antt =====
-- What the deletion of a range does to the lists of children that the links of a document represent.
use atomdoc.Prelude.{String, ◌≡◌, refl, sym, ◌∙◌, Bool, some, List, [], ◌∷◌, ◌++◌, if_elim}
use mathlib.Core.Path.{subst}
use atomdoc.Prelude.Dict.{insert, remove, mem, discard}
use atomdoc.Prelude.Exec.{ok}
use atomdoc.Types.{OrderedOperation}
use atomdoc.Links.{Ref, set_slot, detach_range}
use atomdoc.Links.Chain.{end_or}
use atomdoc.Links.Slots.{Slot, Kids, Represents}
use atomdoc.Links.Detach.{range-Owned}
use atomdoc.Links.Again.{detach_range-twice}
use atomdoc.Doc.{Doc, id_of}
use atomdoc.Doc.Refs.{refs_remove}
use atomdoc.Doc.Traverse.{descendants_inclusive, slot_children, slot_names}
use atomdoc.Doc.Record.{diff_of, patches_of, set_diff, set_patches}
use atomdoc.Doc.Deletes.{
  copy_deleted_to_diff, copy_deleted, delete_children, delete_slots, delete_descendants,
  delete_nodes as record_deleted, on_delete_range,
}
use atomdoc.Doc.Range.{forget_all, forget_nodes, delete_nodes}

copy_deleted_to_diff-links : (d : Doc) (x : Ref) → (copy_deleted_to_diff d x).links ≡ d.links
unfolding copy_deleted_to_diff
copy_deleted_to_diff-links d x =
    if_elim (λ (r : Doc). r.links ≡ d.links) (mem (diff_of d).inserted (id_of d x)) _ _ (λ _. refl)
      (λ _. refl)

copy_deleted-links : (d : Doc) (xs : List Ref) → (copy_deleted d xs).links ≡ d.links
unfolding copy_deleted
copy_deleted-links d [] = refl
copy_deleted-links d (x ∷ xs) =
    copy_deleted-links (copy_deleted_to_diff d x) xs ∙ copy_deleted_to_diff-links d x

delete_children-links :
    (invert : Bool) (x : Ref) (s : String) (cs : List Ref) (acc : Doc × List OrderedOperation)
    → (delete_children invert x s cs acc).0.links ≡ acc.0.links
unfolding delete_children
delete_children-links invert x s [] acc = refl
delete_children-links invert x s (c ∷ cs) acc = copy_deleted-links acc.0 (c ∷ cs)

delete_slots-links :
    (invert : Bool) (x : Ref) (ss : List String) (acc : Doc × List OrderedOperation)
    → (delete_slots invert x ss acc).0.links ≡ acc.0.links
unfolding delete_slots
delete_slots-links invert x [] acc = refl
delete_slots-links invert x (s ∷ ss) acc =
    delete_slots-links invert x ss (delete_children invert x s (slot_children acc.0 x s) acc)
    ∙ delete_children-links invert x s (slot_children acc.0 x s) acc

abbrev unpatched : Doc → Ref → Doc
unpatched d x =
    set_diff (set_patches d (remove (patches_of d) (id_of d x)))
      (record (diff_of d) { updated = discard (diff_of d).updated (id_of d x) })

delete_descendants-links :
    (invert : Bool) (xs : List Ref) (acc : Doc × List OrderedOperation)
    → (delete_descendants invert xs acc).0.links ≡ acc.0.links
unfolding delete_descendants
delete_descendants-links invert [] acc = refl
delete_descendants-links invert (x ∷ xs) acc =
    delete_descendants-links invert xs
      (delete_slots invert x (slot_names acc.0 x) (unpatched acc.0 x, acc.1))
    ∙ delete_slots-links invert x (slot_names acc.0 x) (unpatched acc.0 x, acc.1)

record_deleted-links :
    (invert : Bool) (xs : List Ref) (acc : Doc × List OrderedOperation)
    → (record_deleted invert xs acc).0.links ≡ acc.0.links
unfolding record_deleted
record_deleted-links invert [] acc = refl
record_deleted-links invert (x ∷ xs) acc =
    record_deleted-links invert xs (delete_descendants invert (descendants_inclusive acc.0 x) acc)
    ∙ delete_descendants-links invert (descendants_inclusive acc.0 x) acc

-- Recording the deletion of a range succeeds, and detaches it.
pub on_delete_range-links :
    (d : Doc) (start end : Ref) (xs : List Ref) (p : Ref) (s : String)
    → (d.links.parent start ≡ some p) × (d.links.slot_name start ≡ some s)
    → (d1 : Doc) × (on_delete_range d start end xs ≡ some d1)
      × (d1.links ≡ detach_range d.links start end)
unfolding on_delete_range
on_delete_range-links d start end xs p s e =
    rw (e.0, e.1, on_delete_range) (_, refl, record_deleted-links _ xs _)

forget_all-links : (d : Doc) (xs : List Ref) → (forget_all d xs).links ≡ d.links
unfolding forget_all refs_remove
forget_all-links d [] = refl
forget_all-links d (x ∷ xs) =
    let i = id_of d x in
    forget_all-links
      (refs_remove (record d { node_map = remove d.node_map i; graveyard = insert d.graveyard i x })
        x)
      xs

forget_nodes-links : (d : Doc) (xs : List Ref) → (forget_nodes d xs).links ≡ d.links
unfolding forget_nodes
forget_nodes-links d [] = refl
forget_nodes-links d (x ∷ xs) =
    forget_nodes-links (forget_all d (descendants_inclusive d x)) xs
    ∙ forget_all-links d (descendants_inclusive d x)

-- The deletion of a range of siblings, with what it records, succeeds and takes the range out of its
-- slot's list of children, and leaves every other list.
pub delete_nodes-Represents :
    (d : Doc) (kids : Kids) (p : Ref) (s : String) (xs : List Ref) (start : Ref) (ys : List Ref)
    (end : Ref) (zs : List Ref)
    → Represents d.links kids
    → kids p s ≡ xs ++ ((start ∷ ys) ++ zs)
    → end_or (some start) ys ≡ some end
    → (d' : Doc) × (delete_nodes start end (start ∷ ys) d ≡ (ok tt, d'))
      × Represents d'.links (set_slot kids p s (xs ++ zs))
unfolding delete_nodes
delete_nodes-Represents d kids p s xs start ys end zs r k ends =
    let slot = subst (λ ws. Slot d.links p s ws) k (r.slot p s) in
    let o = range-Owned d.links p s xs start ys end zs slot ends in
    let (d1, e, same) = on_delete_range-links d start end (start ∷ ys) p s (o.0.0, o.0.1) in
    rw (e, delete_nodes)
      (
        _,
        refl,
        subst (λ l. Represents (detach_range l start end) (set_slot kids p s (xs ++ zs)))
            (sym (forget_nodes-links d1 (start ∷ ys) ∙ same))
            (detach_range-twice d.links kids p s xs start ys end zs r k ends),
      )
