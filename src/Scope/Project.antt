-- ===== src/Scope/Project.antt =====
-- _scope.py: `project`, from the event of a commit to the patch for a client and its new view. A set of IDs is a
-- list in the order in which they were added.
use atomdoc.Prelude.{
  String, Bool, false, ◌&&◌, ◌||◌, not, Option, none, some, List, [], ◌∷◌, if◌then◌else◌, is_empty,
}
use atomdoc.Prelude.Dict.{Dict, lookup, insert, contains, mem, add}
use atomdoc.Types.{Value, StatePatch, ChangeEvent}
use atomdoc.Links.{Ref}
use atomdoc.Doc.{Doc, id_of, class_of}
use atomdoc.Doc.Refs.{ref_names, ids_in}
use atomdoc.Doc.Traverse.{ancestors, descendants}
use atomdoc.Scope.{Kind, Anchors, ClientView}
use atomdoc.Scope.Kinds.{classify, anchor_ancestors}
use atomdoc.Scope.Whole.{targets_of}
use atomdoc.Scope.Leaving.{ClientPatch, emit_patch}

unfoldable pub add_ids : List String → List String → List String
add_ids s [] = s
add_ids s (i ∷ is) = add_ids (add s i) is

module _ (d : Doc) where
  unfoldable pub insert_nodes : Dict Ref → List Ref → Dict Ref
  insert_nodes deleted [] = deleted
  insert_nodes deleted (x ∷ xs) = insert_nodes (insert deleted (id_of d x) x) xs

  -- the nodes that were deleted, with all below them
  unfoldable pub all_deleted : Dict Ref → Dict Ref → Dict Ref
  unfolding insert_nodes
  all_deleted deleted [] = deleted
  all_deleted deleted ((i, x) ∷ entries) =
      all_deleted (insert_nodes (insert deleted i x) (descendants d x)) entries

  unfoldable pub add_nodes : List String → List Ref → List String
  add_nodes s [] = s
  add_nodes s (x ∷ xs) = add_nodes (add s (id_of d x)) xs

  unfoldable pub add_members : Anchors → List String → List Ref → List String
  unfolding add_nodes
  add_members anchors s [] = s
  add_members anchors s (x ∷ xs) =
      let with_x = add s (id_of d x) in
      let above = add_nodes with_x (ancestors d.allocated d.links (d.links.parent x)) in
      add_members anchors (if contains anchors (id_of d x) then above else with_x) xs

  -- the nodes that came or moved, with all below them, and what is above an anchor among them
  unfoldable pub add_moved : Anchors → List String → List String → List String
  unfolding add_members
  add_moved anchors s [] = s
  add_moved anchors s (i ∷ is) = elim (lookup d.node_map i) [
    | none ↦ add_moved anchors s is
    | some x ↦ add_moved anchors (add_members anchors s (x ∷ descendants d x)) is
  ]

  unfoldable pub node_targets : Ref → List String
  unfolding targets_of
  node_targets x = targets_of d x (ref_names (class_of d x).fields)

  -- the current targets of nodes
  unfoldable pub add_targets : List String → List String → List String
  unfolding node_targets add_ids
  add_targets s [] = s
  add_targets s (i ∷ is) = elim (lookup d.node_map i) [
    | none ↦ add_targets s is
    | some x ↦ add_targets (add_ids s (node_targets x)) is
  ]

  unfoldable pub add_deleted_targets : List String → Dict Ref → List String
  unfolding node_targets add_ids
  add_deleted_targets s [] = s
  add_deleted_targets s ((i, x) ∷ entries) =
      add_deleted_targets (add_ids s (node_targets x)) entries

  unfoldable pub former : List String → List String → Dict Value → List String
  unfolding add_ids
  former names s [] = s
  former names s ((name, value) ∷ patch) =
      former names (if mem names name then add_ids s (ids_in (some value)) else s) patch

  -- the former targets of nodes that were written
  unfoldable pub add_former : List String → StatePatch → List String
  unfolding former
  add_former s [] = s
  add_former s ((i, patch) ∷ patches) = elim (lookup d.node_map i) [
    | none ↦ add_former s patches
    | some x ↦ add_former (former (ref_names (class_of d x).fields) s patch) patches
  ]

  unfoldable pub without : Dict Ref → List String → List String
  without deleted [] = []
  without deleted (i ∷ is) =
      let rest = without deleted is in if contains deleted i then rest else i ∷ rest

  -- the nodes whose kind may have changed
  unfoldable pub candidates : ClientView → ChangeEvent → Dict Ref → List String
  unfolding add_moved add_ids add_targets add_deleted_targets add_former without
  candidates v event deleted =
      let moved = add_moved v.anchors [] (add_ids event.diff.inserted event.diff.moved) in
      let touched = add_ids moved event.diff.updated in
      let targets = add_deleted_targets (add_targets touched touched) deleted in
      without deleted (add_ids (add_former targets event.inverse_operations.patches) v.stubs)

  unfoldable pub classify_at : Anchors → List String → Option Ref → Option Kind
  unfolding classify
  classify_at anchors ancestor_ids none = none
  classify_at anchors ancestor_ids (some x) = classify d anchors ancestor_ids x

  unfoldable pub classify_all : Anchors → List String → List String → Dict (Option Kind)
  unfolding classify_at
  classify_all anchors ancestor_ids [] = []
  classify_all anchors ancestor_ids (i ∷ is) =
      (i, classify_at anchors ancestor_ids (lookup d.node_map i))
      ∷ classify_all anchors ancestor_ids is

  unfoldable pub kinds_of : ClientView → ChangeEvent → Dict (Option Kind)
  unfolding classify_all candidates anchor_ancestors all_deleted
  kinds_of v event =
      classify_all v.anchors (anchor_ancestors d v.anchors [])
        (candidates v event (all_deleted [] event.diff.deleted))

  unfoldable pub some_held : Dict Ref → Dict Kind → Bool
  some_held [] held = false
  some_held ((i, x) ∷ entries) held = contains held i || some_held entries held

  -- `project`
  unfoldable pub project : ClientView → ChangeEvent → Option ClientPatch × ClientView
  unfolding kinds_of all_deleted some_held emit_patch candidates
  project v event =
      let deleted = all_deleted [] event.diff.deleted in
      if is_empty (candidates v event deleted) && not (some_held deleted v.held)
      then (none, v)
      else emit_patch d v (kinds_of v event) deleted event.diff.moved event.operations.patches
