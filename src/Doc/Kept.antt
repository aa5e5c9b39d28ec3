-- ===== src/Doc/Kept.antt =====
-- What the recording of operations and the writes of a body leave alone: the stage, and what the listeners heard.
use atomdoc.Prelude.{
  ℕ, String, ◌≡◌, refl, ◌∙◌, Bool, Option, none, some, List, [], ◌∷◌, reverse, inl, inr,
  Option-cases, if_elim, if◌then◌else◌,
}
use atomdoc.Prelude.Dict.{Dict, insert, remove, contains, mem, add, discard}
use atomdoc.Types.{Value, OrderedOperation, Stage, ChangeEvent}
use atomdoc.Links.{Ref, attach_links, link_next, set_prev, set_next_of}
use atomdoc.Doc.{Doc, id_of, state_to_json}
use atomdoc.Doc.Refs.{refs_add, refs_remove}
use atomdoc.Doc.Traverse.{descendants, descendants_inclusive, slot_children, slot_names}
use atomdoc.Doc.Record.{diff_of, patches_of, set_diff, set_patches}
use atomdoc.Doc.Inserts.{
  put_state, copy_inserted_to_diff, record_children, record_first, record_descendant,
  record_descendants, record_nodes, record_insert, on_insert_range, on_insert_range_before,
}
use atomdoc.Doc.Insert.{
  register_all, attach_node, append_nodes, before_nodes, first_before, insert_append, insert_before,
  same_ref,
}
use atomdoc.Doc.Deletes.{
  copy_deleted_to_diff, copy_deleted, delete_children, delete_slots, delete_descendants,
  delete_nodes as record_deleted, on_delete_range, mark_moved, on_move_range,
}
use atomdoc.Doc.Range.{forget_all, forget_nodes}

-- the stage, and what the listeners heard
abbrev pub kept : Doc → Stage × List (ℕ × ChangeEvent)
kept d = (d.stage, d.heard)

put_state-kept : (d : Doc) (i : String) (s : Dict Value) → kept ((put_state d i s)) ≡ kept d
put_state-kept d i [] = refl
put_state-kept d i (e ∷ es) = refl

copy_inserted-kept : (d : Doc) (x : Ref) → kept ((copy_inserted_to_diff d x)) ≡ kept d
unfolding copy_inserted_to_diff
copy_inserted-kept d x = put_state-kept _ (id_of d x) (state_to_json d x)

record_children-kept :
    (d : Doc) (x p : Ref) (s : String) → kept ((record_children d x p s)) ≡ kept d
unfolding record_children
record_children-kept d x p s =
    if_elim (λ (r : Doc). kept r ≡ kept d) (mem (diff_of d).inserted (id_of d p)) _ _ (λ _. refl)
      (λ _. refl)

record_first-kept :
    (d : Doc) (x : Ref) (p : Option Ref) (s : Option String) (q : Option Ref)
    → kept ((record_first d x p s q)) ≡ kept d
unfolding record_first
record_first-kept d x none s q = refl
record_first-kept d x (some p) none q = refl
record_first-kept d x (some p) (some s) (some q) = refl
record_first-kept d x (some p) (some s) none = record_children-kept d x p s

record_descendants-kept : (d : Doc) (xs : List Ref) → kept ((record_descendants d xs)) ≡ kept d
unfolding record_descendants record_descendant
record_descendants-kept d [] = refl
record_descendants-kept d (x ∷ xs) =
    record_descendants-kept (record_descendant d x) xs
    ∙ record_first-kept (copy_inserted_to_diff d x) x (d.links.parent x) (d.links.slot_name x)
        (d.links.prev_sibling x)
    ∙ copy_inserted-kept d x

record_nodes-kept : (d : Doc) (xs : List Ref) → kept ((record_nodes d xs)) ≡ kept d
unfolding record_nodes
record_nodes-kept d [] = refl
record_nodes-kept d (x ∷ xs) =
    record_nodes-kept (record_descendants (copy_inserted_to_diff d x) (descendants d x)) xs
    ∙ record_descendants-kept (copy_inserted_to_diff d x) (descendants d x)
    ∙ copy_inserted-kept d x

record_insert-kept :
    (d : Doc) (p : Ref) (s : String) (xs : List Ref) (prev next : Option Ref)
    → kept ((record_insert d p s xs prev next)) ≡ kept d
unfolding record_insert
record_insert-kept d p s [] prev next = refl
record_insert-kept d p s (x ∷ xs) prev next =
    if_elim (λ (r : Doc). kept r ≡ kept d) (mem (diff_of d).inserted (id_of d p)) _ _ (λ _. refl)
      (λ _. refl)

register_all-kept : (d : Doc) (xs : List Ref) → kept ((register_all d xs)) ≡ kept d
unfolding register_all refs_add
register_all-kept d [] = refl
register_all-kept d (x ∷ xs) =
    register_all-kept (refs_add (record d { node_map = insert d.node_map (id_of d x) x }) x) xs

copy_deleted_to_diff-kept : (d : Doc) (x : Ref) → kept ((copy_deleted_to_diff d x)) ≡ kept d
unfolding copy_deleted_to_diff
copy_deleted_to_diff-kept d x =
    if_elim (λ (r : Doc). kept r ≡ kept d) (mem (diff_of d).inserted (id_of d x)) _ _ (λ _. refl)
      (λ _. refl)

copy_deleted-kept : (d : Doc) (xs : List Ref) → kept ((copy_deleted d xs)) ≡ kept d
unfolding copy_deleted
copy_deleted-kept d [] = refl
copy_deleted-kept d (x ∷ xs) =
    copy_deleted-kept (copy_deleted_to_diff d x) xs ∙ copy_deleted_to_diff-kept d x

delete_children-kept :
    (invert : Bool) (x : Ref) (s : String) (cs : List Ref) (acc : Doc × List OrderedOperation)
    → kept ((delete_children invert x s cs acc).0) ≡ kept (acc.0)
unfolding delete_children
delete_children-kept invert x s [] acc = refl
delete_children-kept invert x s (c ∷ cs) acc = copy_deleted-kept (acc.0) (c ∷ cs)

delete_slots-kept :
    (invert : Bool) (x : Ref) (ss : List String) (acc : Doc × List OrderedOperation)
    → kept ((delete_slots invert x ss acc).0) ≡ kept (acc.0)
unfolding delete_slots
delete_slots-kept invert x [] acc = refl
delete_slots-kept invert x (s ∷ ss) acc =
    delete_slots-kept invert x ss (delete_children invert x s (slot_children acc.0 x s) acc)
    ∙ delete_children-kept invert x s (slot_children acc.0 x s) acc

abbrev unpatched : Doc → Ref → Doc
unpatched d x =
    set_diff (set_patches d (remove (patches_of d) (id_of d x)))
      (record (diff_of d) { updated = discard (diff_of d).updated (id_of d x) })

delete_descendants-kept :
    (invert : Bool) (xs : List Ref) (acc : Doc × List OrderedOperation)
    → kept ((delete_descendants invert xs acc).0) ≡ kept (acc.0)
unfolding delete_descendants
delete_descendants-kept invert [] acc = refl
delete_descendants-kept invert (x ∷ xs) acc =
    delete_descendants-kept invert xs
      (delete_slots invert x (slot_names acc.0 x) (unpatched acc.0 x, acc.1))
    ∙ delete_slots-kept invert x (slot_names acc.0 x) (unpatched acc.0 x, acc.1)

record_deleted-kept :
    (invert : Bool) (xs : List Ref) (acc : Doc × List OrderedOperation)
    → kept ((record_deleted invert xs acc).0) ≡ kept (acc.0)
unfolding record_deleted
record_deleted-kept invert [] acc = refl
record_deleted-kept invert (x ∷ xs) acc =
    record_deleted-kept invert xs (delete_descendants invert (descendants_inclusive acc.0 x) acc)
    ∙ delete_descendants-kept invert (descendants_inclusive acc.0 x) acc

forget_all-kept : (d : Doc) (xs : List Ref) → kept ((forget_all d xs)) ≡ kept d
unfolding forget_all refs_remove
forget_all-kept d [] = refl
forget_all-kept d (x ∷ xs) =
    let i = id_of d x in
    forget_all-kept
      (refs_remove (record d { node_map = remove d.node_map i; graveyard = insert d.graveyard i x })
        x)
      xs

pub forget_nodes-kept : (d : Doc) (xs : List Ref) → kept ((forget_nodes d xs)) ≡ kept d
unfolding forget_nodes
forget_nodes-kept d [] = refl
forget_nodes-kept d (x ∷ xs) =
    forget_nodes-kept (forget_all d (descendants_inclusive d x)) xs
    ∙ forget_all-kept d (descendants_inclusive d x)

attach_node-kept :
    (d : Doc) (x p : Ref) (s : String) (prev next : Option Ref)
    → kept (attach_node d x p s prev next) ≡ kept d
unfolding attach_node
attach_node-kept d x p s prev next =
    if_elim (λ (r : Doc). kept r ≡ kept d) (contains d.node_map (id_of d p)) _ _
      (λ _.
        register_all-kept (record d { links = attach_links d.links x p s prev next })
          (descendants_inclusive (record d { links = attach_links d.links x p s prev next }) x))
      (λ _. refl)

append_nodes-kept :
    (d : Doc) (p : Ref) (s : String) (current : Option Ref) (xs : List Ref)
    → kept (append_nodes d p s current xs) ≡ kept d
unfolding append_nodes
append_nodes-kept d p s current [] = refl
append_nodes-kept d p s current (x ∷ xs) =
    let d1 = attach_node d x p s current none in
    append_nodes-kept (record d1 { links = link_next d1.links current (some p) s (some x) }) p s
      (some x) xs
    ∙ attach_node-kept d x p s current none

before_nodes-kept :
    (d : Doc) (p : Ref) (s : String) (target : Ref) (xs : List Ref)
    → kept (before_nodes d p s target xs) ≡ kept d
unfolding before_nodes
before_nodes-kept d p s target [] = refl
before_nodes-kept d p s target (x ∷ xs) =
    let q = d.links.prev_sibling target in
    let d1 = attach_node d x p s q (some target) in
    before_nodes-kept
      (record d1 { links = set_prev (set_next_of d1.links q (some x)) target (some x) }) p s x xs
    ∙ attach_node-kept d x p s q (some target)

first_before-kept :
    (d : Doc) (p : Ref) (s : String) (target : Ref) (xs : List Ref)
    → kept (first_before d p s target xs) ≡ kept d
unfolding first_before
first_before-kept d p s target [] = refl
first_before-kept d p s target (x ∷ xs) =
    if_elim (λ (r : Doc). kept r ≡ kept d) (same_ref (d.links.slot_first p s) (some target)) _ _
      (λ _. refl) (λ _. refl)

pub insert_append-kept :
    (p : Ref) (s : String) (nodes : List Ref) (d : Doc) → kept (insert_append p s nodes d) ≡ kept d
unfolding insert_append on_insert_range
insert_append-kept p s nodes d =
    append_nodes-kept _ p s _ nodes
    ∙ if_elim (λ (r : Doc). kept r ≡ kept d) (contains d.node_map (id_of d p)) _ _
        (λ _.
          record_nodes-kept (record_insert d p s nodes (d.links.slot_last p s) none) nodes
          ∙ record_insert-kept d p s nodes (d.links.slot_last p s) none)
        (λ _. refl)

pub insert_before-kept :
    (p : Ref) (s : String) (nodes : List Ref) (target : Ref) (d : Doc)
    → kept (insert_before p s nodes target d) ≡ kept d
unfolding insert_before on_insert_range_before
insert_before-kept p s nodes target d =
    first_before-kept _ p s target nodes
    ∙ before_nodes-kept _ p s target (reverse nodes)
    ∙ record_nodes-kept (record_insert d p s nodes (d.links.prev_sibling target) (some target))
        nodes
    ∙ record_insert-kept d p s nodes (d.links.prev_sibling target) (some target)

mark_moved-kept : (d : Doc) (xs : List Ref) → kept (mark_moved d xs) ≡ kept d
unfolding mark_moved
mark_moved-kept d [] = refl
mark_moved-kept d (x ∷ xs) =
    let df = diff_of d in
    mark_moved-kept
      (if mem df.inserted (id_of d x)
        then d
        else set_diff d (record df { moved = add df.moved (id_of d x) }))
      xs
    ∙ if_elim (λ (r : Doc). kept r ≡ kept d) (mem (diff_of d).inserted (id_of d x)) _ _ (λ _. refl)
        (λ _. refl)

-- the same, where there is a document
abbrev pub KeptIn : Doc → Option Doc → Type 0
KeptIn d none = Unit
KeptIn d (some d1) = kept d1 ≡ kept d

pub on_move_range-kept :
    (d : Doc) (start end : Ref) (xs : List Ref) (p : Ref) (s : String) (prev next : Option Ref)
    → KeptIn d (on_move_range d start end xs p s prev next)
unfolding on_move_range
on_move_range-kept d start end xs p s prev next = elim (Option-cases (d.links.parent start)) [
  | inl e ↦ rw (e, on_move_range) tt
  | inr (current, e) ↦ rw (e, on_move_range) (mark_moved-kept _ xs)
]

pub on_delete_range-kept :
    (d : Doc) (start end : Ref) (xs : List Ref) → KeptIn d (on_delete_range d start end xs)
unfolding on_delete_range
on_delete_range-kept d start end xs = elim (Option-cases (d.links.parent start)) [
  | inl e ↦ rw (e, on_delete_range) tt
  | inr (p, e) ↦ elim (Option-cases (d.links.slot_name start)) [
    | inl e' ↦ rw (e, e', on_delete_range) tt
    | inr (s, e') ↦
        rw (e, e', on_delete_range) (record_deleted-kept _ xs _ ∙ copy_deleted-kept _ xs)
  ]
]
