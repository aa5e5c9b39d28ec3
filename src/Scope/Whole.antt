-- ===== src/Scope/Whole.antt =====
-- _scope.py: the view as a whole, from the anchors. The walk below an anchor takes fuel, one round for each
-- object, as a node stands once below an anchor.
use atomdoc.Prelude.{
  true, false, Bool, ℕ, zero, suc, ◌+◌, String, ◌&&◌, not, Option, none, some, List, [], ◌∷◌, ◌++◌,
  if◌then◌else◌,
}
use atomdoc.Prelude.Dict.{Dict, lookup, insert, contains, keys, add}
use atomdoc.Links.{Ref}
use atomdoc.Doc.{Doc, id_of, class_of}
use atomdoc.Doc.Refs.{ref_ids, ref_names}
use atomdoc.Doc.Traverse.{slot_children, slot_names}
use atomdoc.Scope.{Kind, full, stub, Anchors, ClientView}
use atomdoc.Scope.Kinds.{reaches, anchor_ancestors}
use atomdoc.Scope.Placed.{recompute_placed}

-- `held.setdefault(id, "stub")`
abbrev pub hold_stub : Dict Kind → String → Dict Kind
hold_stub held i = if contains held i then held else insert held i stub

abbrev pub Stack : Type 0
Stack = List (Ref × ℕ)

push_nodes : ℕ → List Ref → Stack → Stack
push_nodes distance [] stack = stack
push_nodes distance (x ∷ xs) stack = push_nodes distance xs ((x, distance) ∷ stack)

push_slots : Doc → Ref → ℕ → List String → Stack → Stack
unfolding push_nodes slot_children
push_slots d x distance [] stack = stack
push_slots d x distance (s ∷ ss) stack =
    push_slots d x distance ss (push_nodes distance (slot_children d x s) stack)

-- the loop below an anchor; the top of the stack is the head of the list
unfoldable pub hold_below : ℕ → Doc → Option ℕ → Stack → Dict Kind → Dict Kind
unfolding push_slots
hold_below zero d depth stack held = held
hold_below (suc fuel) d depth [] held = held
hold_below (suc fuel) d depth ((x, distance) ∷ stack) held =
    let inside =
      hold_below fuel d depth (push_slots d x (distance + 1) (slot_names d x) stack)
        (insert held (id_of d x) full) in
    let outside = hold_below fuel d depth stack (hold_stub held (id_of d x)) in
    if reaches depth distance then inside else outside

unfoldable pub hold_anchors : Doc → Anchors → Dict Kind → Dict Kind
unfolding hold_below
hold_anchors d [] held = held
hold_anchors d ((i, depth) ∷ anchors) held = elim (lookup d.node_map i) [
  | none ↦ hold_anchors d anchors held
  | some x ↦ hold_anchors d anchors (hold_below d.allocated d depth ((x, 0) ∷ []) held)
]

unfoldable pub hold_stubs : Dict Kind → List String → Dict Kind
hold_stubs held [] = held
hold_stubs held (i ∷ is) = hold_stubs (hold_stub held i) is

-- the targets that are in the document and not held yet
hold_targets : Doc → Dict Kind → List String → Dict Kind
hold_targets d held [] = held
hold_targets d held (t ∷ ts) =
    hold_targets d
      (if not (contains held t) && contains d.node_map t then insert held t stub else held) ts

-- `_targets_of`
unfoldable pub targets_of : Doc → Ref → List String → List String
targets_of d x [] = []
targets_of d x (name ∷ names) = ref_ids d x name ++ targets_of d x names

hold_referenced : Doc → Dict Kind → Dict Kind → Dict Kind
unfolding hold_targets targets_of
hold_referenced d [] held = held
hold_referenced d ((i, stub) ∷ entries) held = hold_referenced d entries held
hold_referenced d ((i, full) ∷ entries) held = elim (lookup d.node_map i) [
  | none ↦ hold_referenced d entries held
  | some x ↦
      hold_referenced d entries
        (hold_targets d held (targets_of d x (ref_names (class_of d x).fields)))
]

-- `_compute_all`
unfoldable pub compute_all : Doc → Anchors → Dict Kind
unfolding hold_anchors hold_stubs hold_referenced
compute_all d anchors =
    let reached = hold_anchors d anchors [] in
    let above = hold_stub (hold_stubs reached (anchor_ancestors d anchors [])) (id_of d d.root) in
    hold_referenced d above above

abbrev pub is_stub : Option Kind → Bool
is_stub none = false
is_stub (some full) = false
is_stub (some stub) = true

-- the stubs among some of the held nodes
unfoldable pub stubs_of : Dict Kind → List String → List String
stubs_of held [] = []
stubs_of held (i ∷ is) =
    let rest = stubs_of held is in if is_stub (lookup held i) then add rest i else rest

unfoldable pub all_full : Dict Ref → Dict Kind
all_full [] = []
all_full ((i, x) ∷ nodes) = (i, full) ∷ all_full nodes

-- `reset`
unfoldable pub reset : Doc → ClientView → ClientView
unfolding compute_all stubs_of recompute_placed
reset d v =
    let held = compute_all d v.anchors in
    let whole = record v { held = held; stubs = stubs_of held (keys held); placed = [] } in
    recompute_placed d whole (keys held)

-- `hold_everything`
unfoldable pub hold_everything : Doc → ClientView → ClientView
unfolding all_full
hold_everything d v = record v {
  held = all_full d.node_map;
  stubs = [];
  placed = keys (all_full d.node_map);
}
