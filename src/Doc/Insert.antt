-- ===== src/Doc/Insert.antt =====
-- _doc.py: `_insert_into_slot` and `_attach_node`.
use atomdoc.Prelude.{
  ◌+◌, String, Bool, true, false, ◌&&◌, ◌||◌, Option, none, some, List, [], ◌∷◌, reverse, ◌==◌,
  str_eq, if◌then◌else◌,
}
use atomdoc.Prelude.Exec.{
  Exec, Result, ok, err, value_error, runtime_error, type_error, ◌>>◌, require, lift, done, modify,
}
use atomdoc.Prelude.Dict.{lookup, insert, contains, mem}
use atomdoc.Types.{Position, append, prepend, before, after}
use atomdoc.Links.{Ref, link_next, attach_links, set_last, set_prev, set_first, set_next_of}
use atomdoc.Doc.{Doc, id_of, class_of, check_live}
use atomdoc.Doc.Refs.{refs_add}
use atomdoc.Doc.Traverse.{descendants_inclusive}
use atomdoc.Doc.Inserts.{on_insert_range, on_insert_range_before}

abbrev pub same_ref : Option Ref → Option Ref → Bool
same_ref none none = true
same_ref (some x) (some y) = x == y
same_ref _ _ = false

abbrev pub same_slot : Option String → String → Bool
same_slot none s = false
same_slot (some t) s = str_eq t s

-- `isinstance(node, member)` or the same type name, for some declared member; none accept any node
some_base : List String → List String → Bool
some_base members [] = false
some_base members (b ∷ bs) = mem members b || some_base members bs

unfoldable pub is_allowed : Doc → List String → Ref → Bool
unfolding some_base
is_allowed d [] x = true
is_allowed d (m ∷ ms) x = some_base (m ∷ ms) ((class_of d x).node_type ∷ (class_of d x).bases)

-- `_check_allowed`, for each node
unfoldable pub all_allowed : Doc → List String → List Ref → Bool
all_allowed d allowed [] = true
all_allowed d allowed (x ∷ xs) = is_allowed d allowed x && all_allowed d allowed xs

-- one top node's subtree: of this document, and with IDs that are new
new_ids : Doc → List Ref → List String → Option (List String)
new_ids d [] seen = some seen
new_ids d (x ∷ xs) seen =
    let rest = new_ids d xs (id_of d x ∷ seen) in
    if (d.objects x).doc_ref == d.self
    then (if contains d.node_map (id_of d x) || mem seen (id_of d x) then none else rest)
    else none

unfoldable pub all_new : Doc → List Ref → List String → Bool
unfolding new_ids
all_new d [] seen = true
all_new d (x ∷ xs) seen = elim (new_ids d (descendants_inclusive d x) seen) [
  | none ↦ false
  | some seen' ↦ all_new d xs seen'
]

unfoldable pub check_target : Ref → String → Option Ref → Doc → Result (Unit {0})
check_target p s none d = ok tt
check_target p s (some target) d = elim (check_live d target) [
  | err e ↦ err e
  | ok _ ↦
      if same_ref (d.links.parent target) (some p) && same_slot (d.links.slot_name target) s
      then ok tt
      else err value_error
]

-- the validation in front of every insertion
unfoldable pub check_insert : Ref → String → List Ref → Option Ref → Exec Doc (Unit {0})
unfolding check_target
check_insert p s nodes target d = elim (lookup (class_of d p).slots s) [
  | none ↦ (err value_error, d)
  | some allowed ↦
      (do
        lift (check_live d p)
        lift (check_target p s target d)
        require (all_allowed d allowed nodes) type_error
        require (all_new d nodes []) runtime_error)
        d
]

unfoldable pub register_all : Doc → List Ref → Doc
register_all d [] = d
register_all d (x ∷ xs) =
    register_all (refs_add (record d { node_map = insert d.node_map (id_of d x) x }) x) xs

-- `_attach_node`
unfoldable pub attach_node : Doc → Ref → Ref → String → Option Ref → Option Ref → Doc
unfolding register_all
attach_node d x p s prev next =
    let d1 = record d { links = attach_links d.links x p s prev next } in
    if contains d.node_map (id_of d p) then register_all d1 (descendants_inclusive d1 x) else d1

unfoldable pub append_nodes : Doc → Ref → String → Option Ref → List Ref → Doc
append_nodes d p s current [] = record d { links = set_last d.links p s current }
append_nodes d p s current (x ∷ xs) =
    let d1 = attach_node d x p s current none in
    append_nodes (record d1 { links = link_next d1.links current (some p) s (some x) }) p s (some x)
      xs

-- the loop from the last node to the first
unfoldable pub before_nodes : Doc → Ref → String → Ref → List Ref → Doc
before_nodes d p s target [] = d
before_nodes d p s target (x ∷ xs) =
    let q = d.links.prev_sibling target in
    let d1 = attach_node d x p s q (some target) in
    before_nodes (record d1 { links = set_prev (set_next_of d1.links q (some x)) target (some x) })
      p s x xs

abbrev bump_version : Doc → Doc
bump_version d = record d { tree_version = d.tree_version + 1 }

-- the insertion at the end of a slot
unfoldable pub insert_append : Ref → String → List Ref → Doc → Doc
unfolding append_nodes
insert_append p s nodes d =
    let d1 = if contains d.node_map (id_of d p) then on_insert_range d p s nodes else d in
    append_nodes (bump_version d1) p s (d1.links.slot_last p s) nodes

-- the slot's first child, if it was the target
unfoldable pub first_before : Doc → Ref → String → Ref → List Ref → Doc
first_before d p s target [] = d
first_before d p s target (x ∷ xs) =
    if same_ref (d.links.slot_first p s) (some target)
    then record d { links = set_first d.links p s (some x) }
    else d

-- the insertion in front of a target
unfoldable pub insert_before : Ref → String → List Ref → Ref → Doc → Doc
unfolding before_nodes first_before
insert_before p s nodes target d =
    let d1 = bump_version (on_insert_range_before d p target s nodes) in
    first_before (before_nodes d1 p s target (reverse nodes)) p s target nodes

-- `within` runs a body in a transaction. A position that needs a target and has none only bumps the
-- version.
unfoldable pub insert_at :
    (Exec Doc (Unit {0}) → Exec Doc (Unit {0}))
    → Ref
    → String
    → Position
    → List Ref
    → Option Ref
    → Exec Doc (Unit {0})
unfolding check_insert insert_append insert_before
insert_at within p s append nodes target =
    within (do check_insert p s nodes target; modify (insert_append p s nodes))
insert_at within p s before nodes (some t) =
    within (do check_insert p s nodes (some t); modify (insert_before p s nodes t))
insert_at within p s _ nodes target = within (do check_insert p s nodes target; modify bump_version)

-- the redirects of `prepend` and `after`
unfoldable pub redirect :
    (Exec Doc (Unit {0}) → Exec Doc (Unit {0}))
    → Ref
    → String
    → List Ref
    → Option Ref
    → Exec Doc (Unit {0})
redirect within p s nodes none = insert_at within p s append nodes none
redirect within p s nodes (some x) = insert_at within p s before nodes (some x)

-- `_insert_into_slot`
unfoldable pub insert_into_slot :
    (Exec Doc (Unit {0}) → Exec Doc (Unit {0}))
    → Ref
    → String
    → Position
    → List Ref
    → Option Ref
    → Exec Doc (Unit {0})
unfolding insert_at redirect check_insert
insert_into_slot within p s pos [] target = done
insert_into_slot within p s prepend (x ∷ xs) target = within (do
  check_insert p s (x ∷ xs) target
  (λ d. redirect within p s (x ∷ xs) (d.links.slot_first p s) d))
insert_into_slot within p s after (x ∷ xs) (some t) = within (do
  check_insert p s (x ∷ xs) (some t)
  (λ d. redirect within p s (x ∷ xs) (d.links.next_sibling t) d))
insert_into_slot within p s pos (x ∷ xs) target = insert_at within p s pos (x ∷ xs) target
