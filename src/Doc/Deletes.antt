-- ===== src/Doc/Deletes.antt =====
-- _operations.py: what a deletion and a move record.
use atomdoc.Prelude.{
  String, Bool, not, Option, none, some, List, [], ◌∷◌, ◌++◌, reverse, ◌==◌, if◌then◌else◌,
}
use atomdoc.Prelude.Dict.{insert, remove, get_or, update, mem, add, discard}
use atomdoc.Types.{OrderedOperation}
use atomdoc.Links.{Ref, detach_range}
use atomdoc.Doc.{Doc, id_of, state_to_json}
use atomdoc.Doc.Traverse.{slot_children, slot_names, descendants_inclusive}
use atomdoc.Doc.Record.{
  diff_of, patches_of, inverse_patches_of, set_diff, set_patches, set_inverse_patches,
  push_operation, push_inverses, parent_id, id_of?, pairs,
}

-- a range's deletion; a range of one node has no end
abbrev pub delete_range_op : Doc → Ref → Ref → OrderedOperation
delete_range_op d x end =
    OrderedOperation.delete (id_of d x) (if x == end then none else some (id_of d end))

unfoldable pub copy_deleted_to_diff : Doc → Ref → Doc
copy_deleted_to_diff d x =
    let i = id_of d x in
    let df = diff_of d in
    if mem df.inserted i
    then set_diff d (record df { inserted = discard df.inserted i; moved = discard df.moved i })
    else set_diff
        (set_inverse_patches d (
          insert (inverse_patches_of d) i
            (update (state_to_json d x) (get_or (inverse_patches_of d) i []))))
        (record df { deleted = insert df.deleted i x })

unfoldable pub copy_deleted : Doc → List Ref → Doc
copy_deleted d [] = d
copy_deleted d (x ∷ xs) = copy_deleted (copy_deleted_to_diff d x) xs

-- the children of one slot of a deleted node, and the operation that brings them back
unfoldable pub delete_children :
    Bool → Ref → String → List Ref → Doc × List OrderedOperation → Doc × List OrderedOperation
unfolding copy_deleted
delete_children invert x s [] (d, ops) = (d, ops)
delete_children invert x s (c ∷ cs) (d, ops) = (
  copy_deleted d (c ∷ cs),
  if invert
      then ops ++ OrderedOperation.insert (pairs d (c ∷ cs)) (some (id_of d x)) s none none ∷ []
      else ops,
)

-- the children of one deleted node, slot by slot, with the inverse operations collected
unfoldable pub delete_slots :
    Bool → Ref → List String → Doc × List OrderedOperation → Doc × List OrderedOperation
unfolding delete_children
delete_slots invert x [] acc = acc
delete_slots invert x (s ∷ ss) acc =
    delete_slots invert x ss (delete_children invert x s (slot_children acc.0 x s) acc)

unfoldable pub delete_descendants :
    Bool → List Ref → Doc × List OrderedOperation → Doc × List OrderedOperation
unfolding delete_slots
delete_descendants invert [] acc = acc
delete_descendants invert (x ∷ xs) (d, ops) =
    let d1 = set_patches d (remove (patches_of d) (id_of d x)) in
    let d2 =
      set_diff d1 (record (diff_of d) { updated = discard (diff_of d).updated (id_of d x) }) in
    delete_descendants invert xs (delete_slots invert x (slot_names d x) (d2, ops))

unfoldable pub delete_nodes :
    Bool → List Ref → Doc × List OrderedOperation → Doc × List OrderedOperation
unfolding delete_descendants
delete_nodes invert [] acc = acc
delete_nodes invert (x ∷ xs) (d, ops) =
    delete_nodes invert xs (delete_descendants invert (descendants_inclusive d x) (d, ops))

-- `on_delete_range`, over the nodes `xs` of the range; `none` where its assertions fail
unfoldable pub on_delete_range : Doc → Ref → Ref → List Ref → Option Doc
unfolding delete_nodes copy_deleted pairs parent_id
on_delete_range d start end xs = elim (d.links.parent start) [
  | none ↦ none
  | some p ↦ elim (d.links.slot_name start) [
    | none ↦ none
    | some s ↦
        let l = d.links in
        let d1 = copy_deleted (push_operation d (delete_range_op d start end)) xs in
        let invert = not (mem (diff_of d1).inserted (id_of d p)) in
        let restore =
          OrderedOperation.insert (pairs d xs) (parent_id d p) s (id_of? d (l.prev_sibling start))
            (id_of? d (l.next_sibling end)) in
        let d2 = record d1 { links = detach_range l start end } in
        let acc = delete_nodes invert xs (d2, if invert then restore ∷ [] else []) in
        some (push_inverses acc.0 (reverse acc.1))
  ]
]

unfoldable pub mark_moved : Doc → List Ref → Doc
mark_moved d [] = d
mark_moved d (x ∷ xs) =
    let df = diff_of d in
    mark_moved
      (if mem df.inserted (id_of d x)
        then d
        else set_diff d (record df { moved = add df.moved (id_of d x) }))
      xs

-- `on_move_range`; `none` where its assertion fails
unfoldable pub on_move_range :
    Doc → Ref → Ref → List Ref → Ref → String → Option Ref → Option Ref → Option Doc
unfolding mark_moved parent_id
on_move_range d start end xs p s prev next =
    let l = d.links in
    let end_id : Option String = if start == end then none else some (id_of d end) in
    elim (l.parent start) [
      | none ↦ none
      | some current ↦
          let from : String = elim (l.slot_name start) [ none ↦ "" | some t ↦ t ] in
          let d1 = push_operation d (
            OrderedOperation.move (id_of d start) end_id (parent_id d p) s (id_of? d prev)
              (id_of? d next)) in
          let d2 = push_inverses d1 (
            OrderedOperation.move (id_of d start) end_id (parent_id d current) from
              (id_of? d (l.prev_sibling start)) (id_of? d (l.next_sibling end))
            ∷ []) in
          some (mark_moved d2 xs)
    ]
