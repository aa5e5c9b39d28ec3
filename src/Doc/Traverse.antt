-- ===== src/Doc/Traverse.antt =====
-- _range.py: walks over the links. A walk takes fuel, and one of `allocated` rounds is enough where
-- it meets each object once.
use atomdoc.Prelude.{
  ℕ, zero, suc, String, Option, none, some, List, [], ◌∷◌, reverse, ◌==◌, if◌then◌else◌,
}
use atomdoc.Prelude.Exec.{Result, ok, err, value_error}
use atomdoc.Prelude.Dict.{keys}
use atomdoc.Links.{Ref, Links}
use atomdoc.Doc.{Doc, class_of}

-- the nodes from `x` on, by `_next_sibling`
unfoldable pub walk_next : ℕ → Links → Option Ref → List Ref
walk_next zero l x = []
walk_next (suc fuel) l none = []
walk_next (suc fuel) l (some x) = x ∷ walk_next fuel l (l.next_sibling x)

unfoldable pub walk_prev : ℕ → Links → Option Ref → List Ref
walk_prev zero l x = []
walk_prev (suc fuel) l none = []
walk_prev (suc fuel) l (some x) = x ∷ walk_prev fuel l (l.prev_sibling x)

-- `_iter_range`: a walk that ends before it meets `end` raises
unfoldable pub iter_range : ℕ → Links → Option Ref → Ref → Option (List Ref)
iter_range zero l x end = none
iter_range (suc fuel) l none end = none
iter_range (suc fuel) l (some x) end =
    let rest = iter_range fuel l (l.next_sibling x) end in
    if x == end then some (x ∷ []) else (elim rest [ none ↦ none | some xs ↦ some (x ∷ xs) ])

unfoldable pub range_of : Doc → Ref → Ref → Result (List Ref)
unfolding iter_range
range_of d start end = elim (iter_range d.allocated d.links (some start) end) [
  | none ↦ err value_error
  | some xs ↦ ok xs
]

-- `_get_slot_children_list`
unfoldable pub slot_children : Doc → Ref → String → List Ref
unfolding walk_next
slot_children d x s = walk_next d.allocated d.links (d.links.slot_first x s)

abbrev pub slot_names : Doc → Ref → List String
slot_names d x = keys (class_of d x).slots

push : List Ref → List Ref → List Ref
push stack [] = stack
push stack (x ∷ xs) = push (x ∷ stack) xs

-- `_push_children`; the top of the stack is the head of the list
unfoldable pub push_slots : Doc → Ref → List String → List Ref → List Ref
unfolding push walk_prev
push_slots d x [] stack = stack
push_slots d x (s ∷ ss) stack =
    push_slots d x ss (push stack (walk_prev d.allocated d.links (d.links.slot_last x s)))

unfoldable pub push_children : Doc → Ref → List Ref → List Ref
unfolding push_slots
push_children d x stack = push_slots d x (reverse (slot_names d x)) stack

-- the loop of both traversals
unfoldable pub pop_all : ℕ → Doc → List Ref → List Ref
unfolding push_children
pop_all zero d stack = []
pop_all (suc fuel) d [] = []
pop_all (suc fuel) d (x ∷ stack) = x ∷ pop_all fuel d (push_children d x stack)

unfoldable pub descendants_inclusive : Doc → Ref → List Ref
unfolding pop_all
descendants_inclusive d x = pop_all d.allocated d (x ∷ [])

unfoldable pub descendants : Doc → Ref → List Ref
unfolding pop_all
descendants d x = pop_all d.allocated d (push_children d x [])

-- `Doc.ancestors`
unfoldable pub ancestors : ℕ → Links → Option Ref → List Ref
ancestors zero l x = []
ancestors (suc fuel) l none = []
ancestors (suc fuel) l (some x) = x ∷ ancestors fuel l (l.parent x)
