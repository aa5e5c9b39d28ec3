-- ===== src/Doc/Inserts.antt =====
-- _operations.py: what an insertion records.
use atomdoc.Prelude.{String, Option, none, some, List, [], ◌∷◌, ◌==◌, if◌then◌else◌}
use atomdoc.Prelude.Dict.{Dict, insert, remove, contains, mem, add}
use atomdoc.Types.{Value, OrderedOperation, Diff}
use atomdoc.Links.{Ref}
use atomdoc.Doc.{Doc, id_of, state_to_json}
use atomdoc.Doc.Traverse.{slot_children, descendants}
use atomdoc.Doc.Record.{
  diff_of, patches_of, set_diff, set_patches, push_operation, push_inverses, parent_id, id_of?,
  pairs,
}

-- a state that is not empty becomes the node's patch
abbrev pub put_state : Doc → String → Dict Value → Doc
put_state d i [] = d
put_state d i (e ∷ es) = set_patches d (insert (patches_of d) i (e ∷ es))

unfoldable pub copy_inserted_to_diff : Doc → Ref → Doc
copy_inserted_to_diff d x =
    let i = id_of d x in
    let df = diff_of d in
    let df' : Diff =
      if contains df.deleted i
      then record df {
        deleted = remove df.deleted i;
        moved = add df.moved i;
        updated = add df.updated i;
      }
      else record df { inserted = add df.inserted i } in
    put_state (set_diff d df') i (state_to_json d x)

-- the last of `x ∷ xs`
abbrev pub last_of : Ref → List Ref → Ref
last_of x [] = x
last_of x (y ∷ ys) = last_of y ys

-- what the insertion of a subtree's node `x` adds, where `x` is the first child of its slot
unfoldable pub record_children : Doc → Ref → Ref → String → Doc
record_children d x p s =
    let children = slot_children d p s in
    let d1 =
      push_operation d
        (OrderedOperation.insert (pairs d children) (some (id_of d p)) s none none) in
    if mem (diff_of d).inserted (id_of d p)
    then d1
    else push_inverses d1 (
        OrderedOperation.delete (id_of d x) (elim (d.links.slot_last p s) [
          | none ↦ none
          | some last ↦ if last == x then none else some (id_of d last)
        ])
        ∷ [])

-- for a node with this parent, slot and previous sibling
unfoldable pub record_first : Doc → Ref → Option Ref → Option String → Option Ref → Doc
unfolding record_children
record_first d x none s prev = d
record_first d x (some p) none prev = d
record_first d x (some p) (some s) (some q) = d
record_first d x (some p) (some s) none = record_children d x p s

unfoldable pub record_descendant : Doc → Ref → Doc
unfolding record_first record_children
record_descendant d x =
    record_first (copy_inserted_to_diff d x) x (d.links.parent x) (d.links.slot_name x)
      (d.links.prev_sibling x)

unfoldable pub record_descendants : Doc → List Ref → Doc
record_descendants d [] = d
record_descendants d (x ∷ xs) = record_descendants (record_descendant d x) xs

-- the loop over the top nodes, the same in both functions that record an insertion
unfoldable pub record_nodes : Doc → List Ref → Doc
unfolding record_descendants
record_nodes d [] = d
record_nodes d (x ∷ xs) =
    record_nodes (record_descendants (copy_inserted_to_diff d x) (descendants d x)) xs

-- the insertion's own entries: the operation, and its inverse unless the parent is new too
unfoldable pub record_insert : Doc → Ref → String → List Ref → Option Ref → Option Ref → Doc
unfolding pairs
record_insert d p s [] prev next = d
record_insert d p s (x ∷ xs) prev next =
    let d1 = push_operation d (
      OrderedOperation.insert (pairs d (x ∷ xs)) (parent_id d p) s (id_of? d prev)
        (id_of? d next)) in
    if mem (diff_of d).inserted (id_of d p)
    then d1
    else push_inverses d1 (
        OrderedOperation.delete (id_of d x)
          (elim xs [ [] ↦ none | y ∷ ys ↦ some (id_of d (last_of y ys)) ])
        ∷ [])

-- `on_insert_range`, called for a position at the end of the slot
unfoldable pub on_insert_range : Doc → Ref → String → List Ref → Doc
on_insert_range d p s nodes =
    record_nodes (record_insert d p s nodes (d.links.slot_last p s) none) nodes

unfoldable pub on_insert_range_before : Doc → Ref → Ref → String → List Ref → Doc
on_insert_range_before d p target s nodes =
    record_nodes (record_insert d p s nodes (d.links.prev_sibling target) (some target)) nodes
