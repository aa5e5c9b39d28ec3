-- ===== src/Doc/Range.antt =====
-- _range.py: `NodeRange.delete` and `NodeRange.move`.
use atomdoc.Prelude.{
  ◌+◌, String, Bool, true, false, ◌||◌, not, Option, none, some, List, [], ◌∷◌, ◌==◌, if◌then◌else◌,
}
use atomdoc.Prelude.Exec.{
  Exec, Result, ok, err, value_error, runtime_error, type_error, assertion_error, ◌>>=◌, ◌>>◌,
  require, lift,
}
use atomdoc.Prelude.Dict.{lookup, insert, remove, contains}
use atomdoc.Types.{Position, append, prepend, before, after}
use atomdoc.Links.{Ref, detach_range, move_links}
use atomdoc.Doc.{Doc, id_of, class_of, check_live}
use atomdoc.Doc.Refs.{refs_remove}
use atomdoc.Doc.Traverse.{range_of, descendants_inclusive, ancestors}
use atomdoc.Doc.Deletes.{on_delete_range, on_move_range}
use atomdoc.Doc.Insert.{same_ref, all_allowed}

-- The object leaves the document: out of the node map, into the graveyard, out of the index.
unfoldable pub forget_all : Doc → List Ref → Doc
forget_all d [] = d
forget_all d (x ∷ xs) =
    let i = id_of d x in
    forget_all
      (refs_remove (record d { node_map = remove d.node_map i; graveyard = insert d.graveyard i x })
        x)
      xs

unfoldable pub forget_nodes : Doc → List Ref → Doc
unfolding forget_all
forget_nodes d [] = d
forget_nodes d (x ∷ xs) = forget_nodes (forget_all d (descendants_inclusive d x)) xs

-- what `delete` does to a range that it found to be valid
unfoldable pub delete_nodes : Ref → Ref → List Ref → Exec Doc (Unit {0})
unfolding forget_nodes
delete_nodes start end xs d = elim (on_delete_range d start end xs) [
  | none ↦ (err assertion_error, d)
  | some d1 ↦
      let d2 = forget_nodes d1 xs in
      (
        ok tt,
        record d2 { links = detach_range d2.links start end; tree_version = d2.tree_version + 1 },
      )
]

unfoldable pub delete_body : Ref → Ref → Exec Doc (Unit {0})
unfolding delete_nodes
delete_body start end d =
    if start == d.root
    then (err runtime_error, d)
    else (do
      lift (check_live d start)
      lift (check_live d end)
      xs ← lift (range_of d start end)
      delete_nodes start end xs)
        d

-- `NodeRange.delete`
unfoldable pub delete_range :
    (Exec Doc (Unit {0}) → Exec Doc (Unit {0})) → Ref → Ref → Exec Doc (Unit {0})
unfolding delete_body
delete_range within start end = within (delete_body start end)

pub mem_ref : List Ref → Ref → Bool
mem_ref [] x = false
mem_ref (y ∷ ys) x = y == x || mem_ref ys x

pub some_in : List Ref → List Ref → Bool
some_in [] xs = false
some_in (y ∷ ys) xs = mem_ref xs y || some_in ys xs

-- Where a move puts a range: between two neighbours, or nowhere if it is there already.
pub data Place : Type 0 where
  stay : Place
  between : Option Ref → Option Ref → Place

-- the branches on the position; the target of the last two may not stand in the range
unfoldable pub place : Doc → Ref → Ref → List Ref → Ref → Ref → String → Position → Result Place
unfolding mem_ref
place d start end xs target p s append =
    let last = d.links.slot_last p s in
    if same_ref last (some end) then ok stay else ok (between last none)
place d start end xs target p s prepend =
    let first = d.links.slot_first p s in
    if same_ref first (some start) then ok stay else ok (between none first)
place d start end xs target p s before =
    let prev = d.links.prev_sibling target in
    if mem_ref xs target
    then err value_error
    else if same_ref prev (some end)
    then ok stay
    else ok (between prev (some target))
place d start end xs target p s after =
    let next = d.links.next_sibling target in
    if mem_ref xs target
    then err value_error
    else if same_ref next (some start)
    then ok stay
    else ok (between (some target) next)

unfoldable pub move_nodes : Ref → Ref → List Ref → Ref → String → Place → Exec Doc (Unit {0})
unfolding move_links
move_nodes start end xs p s stay d = (ok tt, d)
move_nodes start end xs p s (between prev next) d =
    elim (on_move_range d start end xs p s prev next) [
      | none ↦ (err assertion_error, d)
      | some d1 ↦ (
        ok tt,
        record d1 {
          links = move_links d1.links start end xs p s prev next;
          tree_version = d1.tree_version + 1;
        },
      )
    ]

-- The new parent and the slot that a target, a slot argument and a position name.
unfoldable pub destination : Doc → Ref → Option String → Position → Result (Ref × String)
destination d target slot append = elim slot [ none ↦ err value_error | some s ↦ ok (target, s) ]
destination d target slot prepend = elim slot [ none ↦ err value_error | some s ↦ ok (target, s) ]
destination d target slot _ = elim (d.links.parent target) [
  | none ↦ err value_error
  | some p ↦ elim (d.links.slot_name target) [ none ↦ err value_error | some s ↦ ok (p, s) ]
]

abbrev pub is_beside : Position → Bool
is_beside append = false
is_beside prepend = false
is_beside before = true
is_beside after = true

-- `move` behind the choice of the new parent and slot
unfoldable pub move_to :
    Ref → Ref → Ref → Position → Ref → String → List String → Exec Doc (Unit {0})
unfolding some_in place mem_ref
move_to start end target pos p s allowed d =
    (do
      require (contains d.node_map (id_of d p)) value_error
      lift (check_live d start)
      lift (check_live d end)
      lift (check_live d p)
      lift (if is_beside pos then check_live d target else ok tt)
      xs ← lift (range_of d start end)
      require (all_allowed d allowed xs) type_error
      require (not (mem_ref xs p)) value_error
      require (not (some_in (ancestors d.allocated d.links (d.links.parent p)) xs)) value_error
      pl ← lift (place d start end xs target p s pos)
      move_nodes start end xs p s pl)
      d

unfoldable pub move_body : Ref → Ref → Ref → Option String → Position → Exec Doc (Unit {0})
unfolding move_to
move_body start end target slot pos d = elim (destination d target slot pos) [
  | err e ↦ (err e, d)
  | ok (p, s) ↦ elim (lookup (class_of d p).slots s) [
    | none ↦ (err value_error, d)
    | some allowed ↦ move_to start end target pos p s allowed d
  ]
]

-- `NodeRange.move`
unfoldable pub move_range :
    (Exec Doc (Unit {0}) → Exec Doc (Unit {0}))
    → Ref
    → Ref
    → Ref
    → Option String
    → Position
    → Exec Doc (Unit {0})
unfolding move_body
move_range within start end target slot pos = within (move_body start end target slot pos)
