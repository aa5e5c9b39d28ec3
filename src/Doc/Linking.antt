-- ===== src/Doc/Linking.antt =====
-- What the operations of a document do to the lists of children that its links represent.
use atomdoc.Prelude.{
  ◌+◌, String, ◌≡◌, refl, sym, ap, ◌∙◌, Option, none, some, List, [], ◌∷◌, ◌++◌, if_elim,
}
use mathlib.Core.Path.{subst}
use atomdoc.Prelude.Dict.{Dict, insert, contains, mem}
use atomdoc.Types.{Value}
use atomdoc.Links.{Ref, Links, set_slot, attach_links, append_one, append_links, link_next}
use atomdoc.Links.Chain.{In, Distinct}
use atomdoc.Links.Slots.{Kids, Represents}
use atomdoc.Links.Append.{append_links-Represents}
use atomdoc.Doc.{Doc, id_of, state_to_json}
use atomdoc.Doc.Refs.{refs_add}
use atomdoc.Doc.Traverse.{descendants, descendants_inclusive}
use atomdoc.Doc.Record.{diff_of}
use atomdoc.Doc.Inserts.{
  put_state, copy_inserted_to_diff, record_children, record_first, record_descendant,
  record_descendants, record_nodes, record_insert, on_insert_range,
}
use atomdoc.Doc.Insert.{register_all, attach_node, append_nodes, insert_append}

put_state-links : (d : Doc) (i : String) (s : Dict Value) → (put_state d i s).links ≡ d.links
put_state-links d i [] = refl
put_state-links d i (e ∷ es) = refl

copy_inserted-links : (d : Doc) (x : Ref) → (copy_inserted_to_diff d x).links ≡ d.links
unfolding copy_inserted_to_diff
copy_inserted-links d x = put_state-links _ (id_of d x) (state_to_json d x)

record_children-links :
    (d : Doc) (x p : Ref) (s : String) → (record_children d x p s).links ≡ d.links
unfolding record_children
record_children-links d x p s =
    if_elim (λ (r : Doc). r.links ≡ d.links) (mem (diff_of d).inserted (id_of d p)) _ _ (λ _. refl)
      (λ _. refl)

record_first-links :
    (d : Doc) (x : Ref) (p : Option Ref) (s : Option String) (q : Option Ref)
    → (record_first d x p s q).links ≡ d.links
unfolding record_first
record_first-links d x none s q = refl
record_first-links d x (some p) none q = refl
record_first-links d x (some p) (some s) (some q) = refl
record_first-links d x (some p) (some s) none = record_children-links d x p s

record_descendants-links : (d : Doc) (xs : List Ref) → (record_descendants d xs).links ≡ d.links
unfolding record_descendants record_descendant
record_descendants-links d [] = refl
record_descendants-links d (x ∷ xs) =
    record_descendants-links (record_descendant d x) xs
    ∙ record_first-links (copy_inserted_to_diff d x) x (d.links.parent x) (d.links.slot_name x)
        (d.links.prev_sibling x)
    ∙ copy_inserted-links d x

pub record_nodes-links : (d : Doc) (xs : List Ref) → (record_nodes d xs).links ≡ d.links
unfolding record_nodes
record_nodes-links d [] = refl
record_nodes-links d (x ∷ xs) =
    record_nodes-links (record_descendants (copy_inserted_to_diff d x) (descendants d x)) xs
    ∙ record_descendants-links (copy_inserted_to_diff d x) (descendants d x)
    ∙ copy_inserted-links d x

pub record_insert-links :
    (d : Doc) (p : Ref) (s : String) (xs : List Ref) (prev next : Option Ref)
    → (record_insert d p s xs prev next).links ≡ d.links
unfolding record_insert
record_insert-links d p s [] prev next = refl
record_insert-links d p s (x ∷ xs) prev next =
    if_elim (λ (r : Doc). r.links ≡ d.links) (mem (diff_of d).inserted (id_of d p)) _ _ (λ _. refl)
      (λ _. refl)

-- Recording an insertion changes no pointer.
pub on_insert_range-links :
    (d : Doc) (p : Ref) (s : String) (xs : List Ref) → (on_insert_range d p s xs).links ≡ d.links
unfolding on_insert_range
on_insert_range-links d p s xs =
    record_nodes-links (record_insert d p s xs (d.links.slot_last p s) none) xs
    ∙ record_insert-links d p s xs (d.links.slot_last p s) none

register_all-links : (d : Doc) (xs : List Ref) → (register_all d xs).links ≡ d.links
unfolding register_all refs_add
register_all-links d [] = refl
register_all-links d (x ∷ xs) =
    register_all-links (refs_add (record d { node_map = insert d.node_map (id_of d x) x }) x) xs

pub attach_node-links :
    (d : Doc) (x p : Ref) (s : String) (prev next : Option Ref)
    → (attach_node d x p s prev next).links ≡ attach_links d.links x p s prev next
unfolding attach_node
attach_node-links d x p s prev next =
    if_elim (λ (r : Doc). r.links ≡ attach_links d.links x p s prev next)
      (contains d.node_map (id_of d p)) _ _
      (λ _.
        register_all-links (record d { links = attach_links d.links x p s prev next })
          (descendants_inclusive (record d { links = attach_links d.links x p s prev next }) x))
      (λ _. refl)

append_nodes-links :
    (d : Doc) (p : Ref) (s : String) (current : Option Ref) (xs : List Ref)
    → (append_nodes d p s current xs).links ≡ append_links d.links p s current xs
unfolding append_nodes append_links append_one
append_nodes-links d p s current [] = refl
append_nodes-links d p s current (x ∷ xs) =
    let d1 = attach_node d x p s current none in
    append_nodes-links (record d1 { links = link_next d1.links current (some p) s (some x) }) p s
      (some x) xs
    ∙ ap (λ (l : Links). append_links (link_next l current (some p) s (some x)) p s (some x) xs)
        (attach_node-links d x p s current none)

-- Appending new nodes to a slot of a document appends them to the slot's list of children, in order,
-- and leaves every other list, whether or not the parent is in the tree. New is a node that stands in
-- no slot, and no node is given twice.
pub insert_append-Represents :
    (d : Doc) (kids : Kids) (p : Ref) (s : String) (nodes : List Ref)
    → Represents d.links kids
    → Distinct nodes
    → ((q : Ref) (t : String) (x : Ref) → In x nodes → In x (kids q t) → ⊥)
    → Represents (insert_append p s nodes d).links (set_slot kids p s (kids p s ++ nodes))
unfolding insert_append
insert_append-Represents d kids p s nodes r n out =
    if_elim
      (λ (d1 : Doc).
        Represents
          (append_nodes (record d1 { tree_version = d1.tree_version + 1 }) p s
            (d1.links.slot_last p s) nodes).links
          (set_slot kids p s (kids p s ++ nodes)))
      (contains d.node_map (id_of d p)) (on_insert_range d p s nodes) d
      (λ _. linked (on_insert_range d p s nodes) (on_insert_range-links d p s nodes))
      (λ _. linked d refl)
  where
    linked :
        (d1 : Doc)
        → d1.links ≡ d.links
        → Represents
            (append_nodes
              (record d1 { tree_version = d1.tree_version + 1 })
              p
              s
              (d1.links.slot_last p s)
              nodes).links
            (set_slot kids p s (kids p s ++ nodes))
    linked d1 e =
        subst (λ l. Represents l (set_slot kids p s (kids p s ++ nodes)))
          (sym (
            append_nodes-links (record d1 { tree_version = d1.tree_version + 1 }) p s
              (d1.links.slot_last p s) nodes))
          (append_links-Represents d1.links kids p s nodes
            (subst (λ l. Represents l kids) (sym e) r) n out)
