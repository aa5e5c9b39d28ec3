-- ===== src/Scope/Snapshot.antt =====
-- _scope.py: what a view reports of itself: its anchors that name a node, the entry of a node in its snapshot, and
-- its detached stubs. The nesting of the entries is left out.
use atomdoc.Prelude.{
  ℕ, String, ◌≡◌, refl, Bool, false, ◌||◌, Option, none, some, List, [], ◌∷◌, if◌then◌else◌,
  is_empty,
}
use atomdoc.Prelude.Dict.{Dict, lookup, contains, mem}
use atomdoc.Types.{Value}
use atomdoc.Links.{Ref}
use atomdoc.Doc.{Doc, id_of, class_of, state_to_json}
use atomdoc.Doc.Traverse.{slot_children, slot_names}
use atomdoc.Scope.{Kind, full, stub, Anchors, ClientView}
use atomdoc.Scope.Checks.{is_full_kind}
use atomdoc.Scope.Ranges.{IsFull}

-- `resolved_anchors`
unfoldable pub resolved_anchors : Doc → Anchors → List (String × Option ℕ)
resolved_anchors d [] = []
resolved_anchors d ((i, depth) ∷ anchors) =
    let rest = resolved_anchors d anchors in
    if contains d.node_map i then (i, depth) ∷ rest else rest

some_held_in : Doc → Dict Kind → List Ref → Bool
some_held_in d held [] = false
some_held_in d held (x ∷ xs) = contains held (id_of d x) || some_held_in d held xs

some_slot_held : Doc → Dict Kind → Ref → List String → Bool
unfolding some_held_in slot_children
some_slot_held d held x [] = false
some_slot_held d held x (s ∷ ss) =
    some_held_in d held (slot_children d x s) || some_slot_held d held x ss

-- `_has_held_child`
unfoldable pub has_held_child : Doc → Dict Kind → Ref → Bool
unfolding some_slot_held
has_held_child d held x = some_slot_held d held x (slot_names d x)

-- a node in a snapshot, with its state, and the names of its slots, if it carries these
pub record SnapshotEntry : Type 0 where
  pub id : String
  pub node_type : String
  pub state : Option (Dict Value)
  pub slots : Option (List String)

full_entry : Doc → Ref → SnapshotEntry
full_entry d x = record {
  id = id_of d x;
  node_type = (class_of d x).node_type;
  state = some (state_to_json d x);
  slots = if is_empty (slot_names d x) then none else some (slot_names d x);
}

stub_entry : Doc → Dict Kind → Ref → SnapshotEntry
unfolding has_held_child
stub_entry d held x = record {
  id = id_of d x;
  node_type = (class_of d x).node_type;
  state = none;
  slots = if has_held_child d held x then some (slot_names d x) else none;
}

-- `entry_for`
unfoldable pub entry_for : Doc → Dict Kind → Ref → SnapshotEntry
unfolding full_entry stub_entry
entry_for d held x =
    if is_full_kind (lookup held (id_of d x)) then full_entry d x else stub_entry d held x

-- the held nodes that do not stand in the client's tree, as ID and type
unfoldable pub detached_nodes : Doc → List String → Dict Kind → List (String × String)
detached_nodes d placed [] = []
detached_nodes d placed ((i, k) ∷ held) =
    let rest = detached_nodes d placed held in
    elim (if mem placed i then none else lookup d.node_map i) [
      | none ↦ rest
      | some x ↦ (i, (class_of d x).node_type) ∷ rest
    ]

-- The snapshot of a view gives the state of a node only where the client holds it in full.
pub entry_for-IsFull :
    (d : Doc) (v : ClientView) (x : Ref) (state : Dict Value)
    → (entry_for d v.held x).state ≡ some state
    → IsFull v (entry_for d v.held x).id
unfolding entry_for full_entry stub_entry
entry_for-IsFull d v x state h = go (lookup v.held (id_of d x)) refl
  where
    none_some : none ≡ some state → ⊥
    none_some e = cc

    go : (o : Option Kind) → lookup v.held (id_of d x) ≡ o → IsFull v (entry_for d v.held x).id
    go none e = absurd (none_some (rw e at h))
    go (some full) e = rw e e
    go (some stub) e = absurd (none_some (rw e at h))
