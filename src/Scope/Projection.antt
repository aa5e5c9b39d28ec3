-- ===== src/Scope/Projection.antt =====
-- _scope.py: `_emit`, step by step.
use atomdoc.Prelude.{
  ℕ, zero, suc, String, Bool, true, false, ◌&&◌, ◌||◌, not, Option, none, some, List, [], ◌∷◌, ◌++◌,
  if◌then◌else◌,
}
use atomdoc.Prelude.Dict.{Dict, lookup, contains, keys, mem, add, discard}
use atomdoc.Links.{Ref}
use atomdoc.Doc.{Doc, id_of, class_of}
use atomdoc.Scope.{Kind, full, stub, ClientView}
use atomdoc.Scope.Overlay.{overlay, in_overlay, overlay_add, overlay_discard}
use atomdoc.Scope.Checks.{is_full_kind}
use atomdoc.Scope.Emission.{
  Emission, ClientOperation, is_held, emit, enter, kind_after, placed_after, parent_ref, neighbors,
  pair_of, enter_state, place_children,
}

abbrev pub start : ClientView → Emission
start v = record {
  ordered = [];
  present = overlay (keys v.held);
  placed = overlay v.placed;
  emitted = [];
  entered = [];
  pending = [];
  known = [];
}

abbrev pub mark_present : Emission → String → Emission
mark_present st i = record st { present = overlay_add st.present i; emitted = add st.emitted i }

abbrev pub forget : Emission → String → Emission
forget st i = record st {
  present = overlay_discard st.present i;
  placed = overlay_discard st.placed i;
}

module _ (d : Doc) (old : Dict Kind) (new_kinds : Dict (Option Kind)) where
  -- `placed_after`, asked for only where it counts
  unfoldable pub ask_placed : Bool → Ref → Emission → Bool × Emission
  unfolding placed_after
  ask_placed true x st = placed_after d old new_kinds x st
  ask_placed false x st = (false, st)

  -- the moved nodes that the client keeps in its tree
  unfoldable pub add_mover : Ref → Bool × Emission → List Ref → List Ref × Emission
  add_mover x (true, st) xs = (xs ++ (x ∷ []), record st { pending = add st.pending (id_of d x) })
  add_mover x (false, st) xs = (xs, st)

  unfoldable pub mover_at : String → Option Ref → List Ref × Emission → List Ref × Emission
  unfolding add_mover ask_placed kind_after
  mover_at i none s = s
  mover_at i (some x) s =
      let wanted = in_overlay s.1.placed i && is_held (kind_after d old new_kinds i) in
      add_mover x (ask_placed wanted x s.1) s.0

  unfoldable pub movers : List String → List Ref × Emission → List Ref × Emission
  unfolding mover_at
  movers [] s = s
  movers (i ∷ is) s = movers is (mover_at i (lookup d.node_map i) s)

  -- step 1: the deletions
  unfoldable pub is_covered : ℕ → Dict Ref → Emission → Option Ref → Bool
  is_covered zero deleted st x = false
  is_covered (suc fuel) deleted st none = false
  is_covered (suc fuel) deleted st (some x) =
      (contains deleted (id_of d x) && in_overlay st.placed (id_of d x))
      || is_covered fuel deleted st (d.links.parent x)

  unfoldable pub emit_deletes : Dict Ref → Dict Ref → Emission → Emission
  unfolding is_covered
  emit_deletes deleted [] st = st
  emit_deletes deleted ((i, x) ∷ entries) st =
      let covered =
        in_overlay st.placed i && is_covered d.allocated deleted st (d.links.parent x) in
      emit_deletes deleted entries (
        if in_overlay st.present i && not covered
        then emit st (ClientOperation.delete_node i)
        else st)

  unfoldable pub forget_deleted : Dict Ref → Emission → Emission
  forget_deleted [] st = st
  forget_deleted ((i, x) ∷ entries) st =
      forget_deleted entries (if in_overlay st.present i then forget st i else st)

  -- step 2: the nodes that arrive
  unfoldable pub is_new : Option Kind → Kind → Bool
  is_new none k = true
  is_new (some stub) full = true
  is_new (some stub) stub = false
  is_new (some full) k = false

  unfoldable pub add_arriving : Ref → Bool → Bool × Emission → List Ref → List Ref × Emission
  add_arriving x new (placed, st) xs = (if new || placed then xs ++ (x ∷ []) else xs, st)

  unfoldable pub arriving_at :
      String → Option Kind → Option Ref → List Ref × Emission → List Ref × Emission
  unfolding is_new add_arriving ask_placed
  arriving_at i none x s = s
  arriving_at i (some k) none s = s
  arriving_at i (some k) (some x) s =
      let new = is_new (lookup old i) k in
      add_arriving x new (ask_placed (not new && not (in_overlay s.1.placed i)) x s.1) s.0

  unfoldable pub arriving : Dict (Option Kind) → List Ref × Emission → List Ref × Emission
  unfolding arriving_at
  arriving [] s = s
  arriving ((i, k) ∷ kinds) s = arriving kinds (arriving_at i k (lookup d.node_map i) s)

  -- a node that is filled, or goes on in full, with its children
  unfoldable pub go_into : Ref → Option Kind → Emission → Emission
  unfolding place_children
  go_into x none st = st
  go_into x (some stub) st = st
  go_into x (some full) st =
      place_children d old new_kinds d.allocated x (enter_state d old new_kinds st x)

  unfoldable pub fill_in_place : Ref → Emission → Emission
  unfolding kind_after go_into
  fill_in_place x st =
      let i = id_of d x in
      let k = kind_after d old new_kinds i in
      if is_full_kind k && not (is_full_kind (lookup old i))
      then go_into x k (record (emit st (ClientOperation.fill i)) { emitted = add st.emitted i })
      else st

  unfoldable pub kind_or_stub : Option Kind → Kind
  kind_or_stub none = stub
  kind_or_stub (some k) = k

  unfoldable pub put_in_tree : Ref → Option Ref → Emission → Emission
  unfolding neighbors kind_after go_into kind_or_stub
  put_in_tree x none st = st
  put_in_tree x (some p) st =
      let i = id_of d x in
      let k = kind_after d old new_kinds i in
      let beside = neighbors d old new_kinds st x in
      let op =
        ClientOperation.insert_nodes (pair_of d old new_kinds x (kind_or_stub k) ∷ [])
          (parent_ref d old new_kinds (some p)) (d.links.slot_name x) beside.0 beside.1 in
      if in_overlay st.placed (id_of d p) then go_into x k (enter (emit st op) i) else st

  unfoldable pub appear : Ref → Emission → Emission
  appear x st =
      let i = id_of d x in
      if in_overlay st.present i
      then st
      else mark_present (emit st (ClientOperation.detached i (class_of d x).node_type)) i

  unfoldable pub settle : Ref → Bool × Emission → Emission
  unfolding appear fill_in_place put_in_tree
  settle x (false, st) = appear x st
  settle x (true, st) =
      if in_overlay st.placed (id_of d x)
      then fill_in_place x st
      else put_in_tree x (d.links.parent x) st

  unfoldable pub arrive : List Ref → Emission → Emission
  unfolding settle placed_after
  arrive [] st = st
  arrive (x ∷ xs) st =
      arrive xs
        (if mem st.emitted (id_of d x) then st else settle x (placed_after d old new_kinds x st))

  -- step 3: the moves
  unfoldable pub emit_moves : List Ref → Emission → Emission
  unfolding neighbors
  emit_moves [] st = st
  emit_moves (x ∷ xs) st =
      let i = id_of d x in
      let beside = neighbors d old new_kinds st x in
      let op =
        ClientOperation.move_node i (parent_ref d old new_kinds (d.links.parent x))
          (d.links.slot_name x) beside.0 beside.1 in
      emit_moves xs
        (record (emit st op) { pending = discard st.pending i; emitted = add st.emitted i })
