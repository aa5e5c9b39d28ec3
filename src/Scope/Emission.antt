-- ===== src/Scope/Emission.antt =====
-- _scope.py: `_emit`, the operations that a client applies for a commit or a change of its anchors. Here: what it
-- keeps, the kinds of nodes behind it, and the insertion of the children of a node that enters in full. A set
-- of IDs is the list in which it is run through. The walks take fuel, one round for each object.
use atomdoc.Prelude.{
  ℕ, zero, suc, String, Bool, true, false, ◌&&◌, ◌||◌, not, Option, none, some, List, [], ◌∷◌, ◌++◌,
  ◌==◌, if◌then◌else◌,
}
use atomdoc.Prelude.Dict.{Dict, lookup, insert, mem, add}
use atomdoc.Types.{Value}
use atomdoc.Links.{Ref}
use atomdoc.Doc.{Doc, id_of, class_of, state_to_json}
use atomdoc.Doc.Traverse.{slot_children, slot_names}
use atomdoc.Scope.{Kind, full, stub}
use atomdoc.Scope.Placed.{step_up, remember}
use atomdoc.Scope.Overlay.{Overlay, in_overlay, overlay_add}

-- a node as a patch inserts it: ID, type, and its kind
pub record Pair : Type 0 where
  pub id : String
  pub node_type : String
  pub kind : Kind

-- The operations of a projected patch. The root, and no neighbour, are none.
pub data ClientOperation : Type 0 where
  insert_nodes :
      List Pair → Option String → Option String → Option String → Option String → ClientOperation
  delete_node become_stub exit fill : String → ClientOperation
  move_node :
      String → Option String → Option String → Option String → Option String → ClientOperation
  detached : String → String → ClientOperation

pub record Emission : Type 0 where
  pub ordered : List ClientOperation
  pub present : Overlay
  pub placed : Overlay
  pub emitted : List String
  pub entered : Dict (Dict Value)
  pub pending : List String
  pub known : Dict Bool

-- `new_kinds`, and then the old ones
abbrev pub kind_or : Option (Option Kind) → Option Kind → Option Kind
kind_or none old = old
kind_or (some k) old = k

abbrev pub is_held : Option Kind → Bool
is_held none = false
is_held (some k) = true

abbrev pub emit : Emission → ClientOperation → Emission
emit st op = record st { ordered = st.ordered ++ (op ∷ []) }

-- the node is in the client's tree from here on
abbrev pub enter : Emission → String → Emission
enter st i = record st {
  present = overlay_add st.present i;
  placed = overlay_add st.placed i;
  emitted = add st.emitted i;
}

unfoldable pub enter_all : Emission → List Pair → Emission
enter_all st [] = st
enter_all st (m ∷ ms) = enter_all (enter st m.id) ms

module _ (d : Doc) (old : Dict Kind) (new_kinds : Dict (Option Kind)) where
  unfoldable pub kind_after : String → Option Kind
  kind_after i = kind_or (lookup new_kinds i) (lookup old i)

  -- the way up of `placed_after`
  unfoldable pub climb_after : ℕ → Dict Bool → Option Ref → List String × Bool
  unfolding kind_after
  climb_after zero known x = ([], true)
  climb_after (suc fuel) known none = ([], true)
  climb_after (suc fuel) known (some x) =
      step_up (lookup known (id_of d x)) (is_held (kind_after (id_of d x))) (id_of d x)
        (climb_after fuel known (d.links.parent x))

  unfoldable pub placed_after : Ref → Emission → Bool × Emission
  unfolding climb_after remember
  placed_after x st =
      let way = climb_after d.allocated st.known (some x) in
      (way.1, record st { known = remember st.known way.0 way.1 })

  -- `parent_ref`, of a node that has a parent
  abbrev pub parent_ref : Option Ref → Option String
  parent_ref none = none
  parent_ref (some p) = if p == d.root then none else some (id_of d p)

  unfoldable pub in_place : Emission → Ref → Bool
  in_place st x = in_overlay st.placed (id_of d x) && not (mem st.pending (id_of d x))

  unfoldable pub prev_in_place : ℕ → Emission → Option Ref → Option String
  unfolding in_place
  prev_in_place zero st x = none
  prev_in_place (suc fuel) st none = none
  prev_in_place (suc fuel) st (some x) =
      let rest = prev_in_place fuel st (d.links.prev_sibling x) in
      if in_place st x then some (id_of d x) else rest

  unfoldable pub next_in_place : ℕ → Emission → Option Ref → Option String
  unfolding in_place
  next_in_place zero st x = none
  next_in_place (suc fuel) st none = none
  next_in_place (suc fuel) st (some x) =
      let rest = next_in_place fuel st (d.links.next_sibling x) in
      if in_place st x then some (id_of d x) else rest

  -- `neighbors`
  unfoldable pub neighbors : Emission → Ref → Option String × Option String
  unfolding prev_in_place next_in_place
  neighbors st x = (
    prev_in_place d.allocated st (d.links.prev_sibling x),
    next_in_place d.allocated st (d.links.next_sibling x),
  )

  abbrev pub pair_of : Ref → Kind → Pair
  pair_of x k = record { id = id_of d x; node_type = (class_of d x).node_type; kind = k }

  -- `entered_state[node.id] = node._state_to_json_plain()`
  abbrev pub enter_state : Emission → Ref → Emission
  enter_state st x = record st { entered = insert st.entered (id_of d x) (state_to_json d x) }

-- a run of children that is to be inserted at one place, behind `prev`; and the full ones to go into
pub record Run : Type 0 where
  pub run : List Pair
  pub prev : Option String
  pub descend : List Ref
  pub st : Emission

-- `flush`, with the parent, the slot and the child behind the run
abbrev pub flush : Option String → String → Option String → Run → Run
flush parent s next r = elim r.run as (λ _. Run) [
  | [] ↦ r
  | m ∷ ms ↦ record r {
    run = [];
    st =
        enter_all (emit r.st (ClientOperation.insert_nodes (m ∷ ms) parent (some s) r.prev next))
          (m ∷ ms);
  }
]

module _ (d : Doc) (old : Dict Kind) (new_kinds : Dict (Option Kind)) where
  unfoldable pub add_child : Ref → Option Kind → Run → Run
  add_child x none r = r
  add_child x (some full) r = record r {
    run = r.run ++ (pair_of d old new_kinds x full ∷ []);
    descend = r.descend ++ (x ∷ []);
    st = enter_state d old new_kinds r.st x;
  }
  add_child x (some stub) r = record r { run = r.run ++ (pair_of d old new_kinds x stub ∷ []) }

  -- one child in the loop over a slot
  unfoldable pub run_child : Option String → String → Ref → Run → Run
  unfolding add_child kind_after
  run_child parent s x r =
      let k = kind_after d old new_kinds (id_of d x) in
      let flushed = flush parent s (some (id_of d x)) r in
      if not (is_held k) || mem r.st.pending (id_of d x)
      then r
      else if in_overlay r.st.placed (id_of d x)
      then record flushed { prev = some (id_of d x) }
      else add_child x k r

  unfoldable pub run_children : Option String → String → List Ref → Run → Run
  unfolding run_child
  run_children parent s [] r = flush parent s none r
  run_children parent s (x ∷ xs) r = run_children parent s xs (run_child parent s x r)

  unfoldable pub new_run : Emission → Run
  new_run st = record { run = []; prev = none; descend = []; st = st }

  unfoldable pub self_ref : Ref → Option String
  self_ref x = if x == d.root then none else some (id_of d x)

  unfoldable pub for_nodes : (Ref → Emission → Emission) → List Ref → Emission → Emission
  for_nodes f [] st = st
  for_nodes f (x ∷ xs) st = for_nodes f xs (f x st)

  unfoldable pub place_slots : (Ref → Emission → Emission) → Ref → List String → Emission → Emission
  unfolding run_children new_run self_ref for_nodes slot_children
  place_slots f x [] st = st
  place_slots f x (s ∷ ss) st =
      let r = run_children (self_ref x) s (slot_children d x s) (new_run st) in
      place_slots f x ss (for_nodes f r.descend r.st)

  -- `place_children`
  unfoldable pub place_children : ℕ → Ref → Emission → Emission
  unfolding place_slots
  place_children zero x st = st
  place_children (suc fuel) x st = place_slots (place_children fuel) x (slot_names d x) st
