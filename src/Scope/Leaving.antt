-- ===== src/Scope/Leaving.antt =====
-- _scope.py: the end of `_emit`: the nodes that leave, the state that is sent, and the new view; and `change`.
use atomdoc.Prelude.{
  ℕ, zero, suc, String, Bool, true, false, ◌&&◌, ◌||◌, not, Option, none, some, List, [], ◌∷◌, ◌++◌,
  if◌then◌else◌, is_empty,
}
use atomdoc.Prelude.Dict.{Dict, lookup, insert, contains, keys, mem, add}
use atomdoc.Types.{Value, StatePatch}
use atomdoc.Links.{Ref}
use atomdoc.Doc.{Doc, id_of, class_of}
use atomdoc.Scope.{Kind, full, stub, Anchors, ClientView}
use atomdoc.Scope.Overlay.{in_overlay, overlay_discard}
use atomdoc.Scope.Checks.{is_full_kind}
use atomdoc.Scope.Order.{in_order}
use atomdoc.Scope.Update.{update_view}
use atomdoc.Scope.Whole.{compute_all}
use atomdoc.Scope.Emission.{Emission, ClientOperation, emit, kind_after, placed_after}
use atomdoc.Scope.Projection.{
  start, forget, movers, emit_deletes, forget_deleted, arriving, arrive, emit_moves,
}

-- a patch for a client: the operations, and the state
pub record ClientPatch : Type 0 where
  pub ordered : List ClientOperation
  pub state : StatePatch

module _ (d : Doc) (old : Dict Kind) (new_kinds : Dict (Option Kind)) where
  -- step 4: a node leaves the view, becomes a stub, or comes out of the tree
  unfoldable pub is_demoted : Kind → Option Kind → Bool
  is_demoted was none = true
  is_demoted full (some stub) = true
  is_demoted full (some full) = false
  is_demoted stub (some k) = false

  unfoldable pub add_leaving : Ref → Bool → Bool × Emission → List Ref → List Ref × Emission
  add_leaving x demoted (placed, st) xs = (if demoted || not placed then xs ++ (x ∷ []) else xs, st)

  unfoldable pub leaving_at :
      String → Option Kind → Option Kind → Option Ref → List Ref × Emission → List Ref × Emission
  unfolding is_demoted add_leaving placed_after
  leaving_at i k none x s = s
  leaving_at i k (some was) none s = s
  leaving_at i k (some was) (some x) s =
      let demoted = is_demoted was k in
      let asked = add_leaving x demoted (placed_after d old new_kinds x s.1) s.0 in
      let known = add_leaving x demoted (true, s.1) s.0 in
      if not demoted && in_overlay s.1.placed i then asked else known

  unfoldable pub leaving : Dict Ref → Dict (Option Kind) → List Ref × Emission → List Ref × Emission
  unfolding leaving_at
  leaving deleted [] s = s
  leaving deleted ((i, k) ∷ kinds) s =
      leaving deleted kinds
        (if contains deleted i then s else leaving_at i k (lookup old i) (lookup d.node_map i) s)

  unfoldable pub is_under : ℕ → List String → Option Ref → Bool
  is_under zero dropped x = false
  is_under (suc fuel) dropped none = false
  is_under (suc fuel) dropped (some x) =
      mem dropped (id_of d x) || is_under fuel dropped (d.links.parent x)

  -- out of the tree, or a stub in it
  unfoldable pub demote : Ref → Bool × Emission → List String → List String × Emission
  demote x (false, st) dropped =
      let i = id_of d x in
      let gone = emit st (ClientOperation.detached i (class_of d x).node_type) in
      (add dropped i, record gone { placed = overlay_discard st.placed i })
  demote x (true, st) dropped = (dropped, emit st (ClientOperation.become_stub (id_of d x)))

  unfoldable pub leave_as : Ref → Option Kind → List String × Emission → List String × Emission
  unfolding is_under demote placed_after
  leave_as x none (dropped, st) =
      let i = id_of d x in
      let under = in_overlay st.placed i && is_under d.allocated dropped (d.links.parent x) in
      (add dropped i, forget (if under then st else emit st (ClientOperation.exit i)) i)
  leave_as x (some k) (dropped, st) =
      let demoted = demote x (placed_after d old new_kinds x st) dropped in
      if in_overlay st.placed (id_of d x) then demoted else (dropped, st)

  unfoldable pub leave : List Ref → List String × Emission → List String × Emission
  unfolding leave_as kind_after
  leave [] s = s
  leave (x ∷ xs) s = leave xs (leave_as x (kind_after d old new_kinds (id_of d x)) s)

  -- step 5: whole for the nodes that entered, the commit's patch for those held in full before
  unfoldable pub entered_patches : StatePatch → StatePatch
  entered_patches [] = []
  entered_patches ((i, []) ∷ patches) = entered_patches patches
  entered_patches ((i, e ∷ es) ∷ patches) = (i, e ∷ es) ∷ entered_patches patches

  unfoldable pub add_patches : Dict (Dict Value) → StatePatch → StatePatch → StatePatch
  unfolding kind_after
  add_patches entered [] state = state
  add_patches entered ((i, patch) ∷ patches) state =
      let wanted =
        not (contains entered i)
        && is_full_kind (lookup old i)
        && is_full_kind (kind_after d old new_kinds i) in
      add_patches entered patches (if wanted then insert state i patch else state)

  -- the five steps
  unfoldable pub emission : ClientView → Dict Ref → List String → Emission
  unfolding movers emit_deletes forget_deleted arriving arrive emit_moves leaving leave
  emission v deleted moved =
      let moving = movers d old new_kinds moved ([], start v) in
      let kept =
        forget_deleted d old new_kinds deleted
          (emit_deletes d old new_kinds deleted deleted moving.1) in
      let coming = arriving d old new_kinds new_kinds ([], kept) in
      let arrived = arrive d old new_kinds (in_order d coming.0) coming.1 in
      let settled = emit_moves d old new_kinds (in_order d moving.0) arrived in
      let going = leaving deleted new_kinds ([], settled) in
      (leave (in_order d going.0) ([], going.1)).1

-- nothing, for a patch without content
abbrev pub or_nothing : ClientPatch → Option ClientPatch
or_nothing p = if is_empty p.ordered && is_empty p.state then none else some p

-- `_emit`, with the view that it leaves
unfoldable pub emit_patch :
    Doc
    → ClientView
    → Dict (Option Kind)
    → Dict Ref
    → List String
    → StatePatch
    → Option ClientPatch × ClientView
unfolding emission entered_patches add_patches update_view
emit_patch d v new_kinds deleted moved state_patch =
    let st = emission d v.held new_kinds v deleted moved in
    let state =
      add_patches d v.held new_kinds st.entered state_patch
        (entered_patches d v.held new_kinds st.entered) in
    (
      or_nothing (record { ordered = st.ordered; state = state }),
      update_view d v new_kinds (keys deleted),
    )

-- `dict.fromkeys(self.held)`, updated by the new kinds
dropped_kinds : Dict Kind → Dict (Option Kind)
dropped_kinds [] = []
dropped_kinds ((i, k) ∷ held) = (i, none) ∷ dropped_kinds held

update_kinds : Dict (Option Kind) → Dict Kind → Dict (Option Kind)
update_kinds kinds [] = kinds
update_kinds kinds ((i, k) ∷ held) = update_kinds (insert kinds i (some k)) held

abbrev or_empty : Option ClientPatch → ClientPatch
or_empty none = record { ordered = []; state = [] }
or_empty (some p) = p

-- `change`
unfoldable pub change : Doc → ClientView → Anchors → ClientPatch × ClientView
unfolding emit_patch compute_all dropped_kinds update_kinds
change d v anchors =
    let r =
      emit_patch d (record v { anchors = anchors })
        (update_kinds (dropped_kinds v.held) (compute_all d anchors)) [] [] [] in
    (or_empty r.0, r.1)
