-- ===== src/Scope/Examples.antt =====
-- _scope.py: runs on a concrete document.
use atomdoc.Prelude.{
  Option, ℕ, ◌<◌, String, ◌≡◌, refl, ◌↔◌, ◌⊎◌, inl, inr, false, none, some, List, [], ◌∷◌, arith,
  eq_iff, ◌==◌, str_eq, if◌then◌else◌, Bool-cases, All,
}
use mathlib.Core.Path.{subst}
use atomdoc.Prelude.Exec.{err, out_of_scope}
use atomdoc.Prelude.Dict.{get_or, discard, Dict, lookup, contains, mem, insert, add, keys}
use atomdoc.Types.{OrderedOperation, Operations, Value}
use atomdoc.Links.{Ref, append_links}
use atomdoc.Doc.{id_of}
use atomdoc.Doc.Refs.{ref_names, ref_ids}
use atomdoc.Doc.Traverse.{ancestors}
use atomdoc.Scope.{
  Kind, full, stub, ClientView, Anchors, RawAnchor, RawDepth, parse_anchors, new_view,
}
use atomdoc.Scope.Anchors.{IsMostGenerous, parse_anchors-IsMostGenerous}
use atomdoc.Scope.Kinds.{classify, classify-full, IsNear, anchor_ancestors}
use atomdoc.Scope.Climb.{is_held_up, IsTree, IsKnown, is_in_tree}
use atomdoc.Scope.Placed.{recompute_placed}
use atomdoc.Scope.Placement.{recompute_placed-in_tree}
use atomdoc.Scope.Whole.{reset, hold_everything}
use atomdoc.Scope.Update.{update_view, IsConsistent, view-IsConsistent}
use atomdoc.Scope.Ranges.{IsFull}
use atomdoc.Scope.Order.{in_order}
use atomdoc.Scope.Overlay.{in_overlay, overlay_add}
use atomdoc.Scope.Project.{project}
use atomdoc.Scope.Told.{TellsOnly, MayKnow, project-TellsOnly}
use atomdoc.Scope.Leaving.{change}
use atomdoc.Types.{ChangeEvent, value_eq}
use atomdoc.Doc.{no_flags, state_to_json}
use atomdoc.Scope.Checks.{check_operations}
use atomdoc.Scope.Permission.{IsPermitted, IsFree, check_operations-IsPermitted}
use atomdoc.Samples.{three_notes}

abbrev requested : List RawAnchor
requested =
    record { id = some "a"; depth = RawDepth.natural 1 }
    ∷ record { id = some "b"; depth = RawDepth.no_depth }
    ∷ record { id = some "a"; depth = RawDepth.natural 0 }
    ∷ []

abbrev anchors : Anchors
anchors = ("a", some 1) ∷ ("b", none) ∷ []

parse_anchors-IsMostGenerous_example : IsMostGenerous [] requested anchors "a"
unfolding parse_anchors insert lookup
parse_anchors-IsMostGenerous_example = parse_anchors-IsMostGenerous requested anchors "a" refl

classify-full_example :
    (classify three_notes anchors ("p" ∷ []) 1 ≡ some full)
    ↔ IsNear three_notes anchors (ancestors 4 three_notes.links (some 1)) 0
classify-full_example = classify-full three_notes anchors ("p" ∷ []) 1

-- the client holds two notes, the page as a stub, and as a stub the note that one of them refers to
abbrev view : ClientView
view = record {
  anchors = anchors;
  held = ("a", full) ∷ ("b", full) ∷ ("p", stub) ∷ ("c", stub) ∷ [];
  stubs = "c" ∷ "p" ∷ [];
  placed = "a" ∷ "b" ∷ "p" ∷ "c" ∷ [];
}

resets : reset three_notes (new_view anchors) ≡ view
unfolding reset contains anchor_ancestors lookup ancestors append_links add keys insert ref_names
    ref_ids
resets = refl

-- the entries of a map
data IsNote (i : String) (x : Ref) : Type 0 where
  page : "p" ≡ i → 0 ≡ x → IsNote i x
  first : "a" ≡ i → 1 ≡ x → IsNote i x
  second : "b" ≡ i → 2 ≡ x → IsNote i x
  third : "c" ≡ i → 3 ≡ x → IsNote i x

find :
    (j i : String) (y x : Ref) (rest : Dict Ref)
    → lookup ((j, y) ∷ rest) i ≡ some x
    → ((j ≡ i) × (y ≡ x)) ⊎ (lookup rest i ≡ some x)
unfolding lookup
find j i y x rest h = elim (Bool-cases (str_eq j i)) [
  | inl same ↦ inl ((eq_iff j i).0 same, some_injective (rw same at h))
  | inr other ↦ inr (rw other at h)
]
  where
    some_injective : {a b : Ref} → some a ≡ some b → a ≡ b
    some_injective e = cc

note_of : (i : String) (x : Ref) → lookup three_notes.node_map i ≡ some x → IsNote i x
unfolding lookup
note_of i x h = elim (find "p" i 0 x (("a", 1) ∷ ("b", 2) ∷ ("c", 3) ∷ []) h) [
  | inl (e, f) ↦ IsNote.page e f
  | inr h ↦ elim (find "a" i 1 x (("b", 2) ∷ ("c", 3) ∷ []) h) [
    | inl (e, f) ↦ IsNote.first e f
    | inr h ↦ elim (find "b" i 2 x (("c", 3) ∷ []) h) [
      | inl (e, f) ↦ IsNote.second e f
      | inr h ↦ elim (find "c" i 3 x [] h) [
        | inl (e, f) ↦ IsNote.third e f
        | inr h ↦ absurd (nothing h)
      ]
    ]
  ]
]
  where
    nothing : none ≡ some x → ⊥
    nothing h = cc

by_note :
    (P : String → Ref → Type 0)
    → P "p" 0
    → P "a" 1
    → P "b" 2
    → P "c" 3
    → (i : String) (x : Ref) → lookup three_notes.node_map i ≡ some x
    → P i x
by_note P p a b c i x h = go (note_of i x h)
  where
    move : (j : String) (y : Ref) → j ≡ i → y ≡ x → P j y → P i x
    move j y e f q = subst (λ k. P k x) e (subst (P j) f q)

    go : IsNote i x → P i x
    go (IsNote.page e f) = move "p" 0 e f p
    go (IsNote.first e f) = move "a" 1 e f a
    go (IsNote.second e f) = move "b" 2 e f b
    go (IsNote.third e f) = move "c" 3 e f c

abbrev depth_of : Ref → ℕ
depth_of x = if x == 0 then 0 else 1

three_notes-IsTree : IsTree three_notes
unfolding append_links lookup
three_notes-IsTree = record {
  depth = depth_of;
  bounded = λ x k.
      by_note (λ i y. depth_of y < 4) (omega arith) (omega arith) (omega arith) (omega arith)
        (id_of three_notes x) x k;
  deeper = λ x p k e.
      by_note (λ i y. three_notes.links.parent y ≡ some p → depth_of p < depth_of y)
        (λ e. absurd (above_root e)) (λ e. below e) (λ e. below e) (λ e. below e)
        (id_of three_notes x) x k e;
  parents = λ x p k e.
      by_note (λ i y. three_notes.links.parent y ≡ some p → IsKnown three_notes p)
        (λ e. absurd (above_root e)) (λ e. root_known e) (λ e. root_known e) (λ e. root_known e)
        (id_of three_notes x) x k e;
  named = by_note (λ i y. id_of three_notes y ≡ i) refl refl refl refl;
}
  where
    some_injective : {p q : Ref} → some p ≡ some q → p ≡ q
    some_injective e = cc

    above_root : {p : Ref} → three_notes.links.parent 0 ≡ some p → ⊥
    above_root e = cc

    below : {p : Ref} → some 0 ≡ some p → depth_of p < 1
    below e = subst (λ q. depth_of q < 1) (some_injective e) (omega arith)

    root_known : {p : Ref} → some 0 ≡ some p → IsKnown three_notes p
    root_known e = subst (IsKnown three_notes) (some_injective e) refl

-- a node becomes a stub of a scope that no longer holds the page
abbrev detached : ClientView
detached = record view { held = ("a", full) ∷ [] }

recompute_placed-in_tree_example :
    mem (recompute_placed three_notes detached ("a" ∷ [])).placed "a" ≡ false
unfolding append_links lookup mem is_in_tree is_held_up contains
recompute_placed-in_tree_example =
    recompute_placed-in_tree three_notes detached ("a" ∷ []) "a" three_notes-IsTree

-- a client that holds the page in full writes a note and inserts and moves others
abbrev whole : ClientView
whole = record view { held = ("p", full) ∷ ("a", full) ∷ ("b", full) ∷ ("c", stub) ∷ [] }

abbrev request : Operations
request = record {
  ordered =
      OrderedOperation.insert (("d", "Note") ∷ []) none "notes" (some "b") none
      ∷ OrderedOperation.move "a" (some "b") none "notes" (some "c") none
      ∷ [];
  patches = ("a", ("see", Value.null) ∷ []) ∷ ("d", []) ∷ [];
}

check_operations-IsPermitted_example :
    All (IsPermitted three_notes whole) request.ordered
    × All
        (λ (p : String × Dict Value). IsFree three_notes whole p.0 ⊎ IsFull whole p.0)
        request.patches
unfolding check_operations append_links lookup contains mem add
check_operations-IsPermitted_example = check_operations-IsPermitted three_notes whole request refl

-- a range with a stub inside is refused
stub_inside :
    check_operations three_notes whole
      (record { ordered = OrderedOperation.delete "a" (some "c") ∷ []; patches = [] })
    ≡ err out_of_scope
unfolding check_operations append_links lookup contains mem add
stub_inside = refl

view-IsConsistent_example :
    IsConsistent (reset three_notes view)
    × IsConsistent (hold_everything three_notes view)
    × ((kinds : Dict (Option Kind)) (deleted : List String)
        → IsConsistent view
        → IsConsistent (update_view three_notes view kinds deleted))
view-IsConsistent_example = view-IsConsistent three_notes view

-- a commit that deletes one note and leaves another one as a stub
updated :
    (update_view three_notes view (("a", some stub) ∷ []) ("b" ∷ [])).stubs ≡ "c" ∷ "p" ∷ "a" ∷ []
unfolding update_view recompute_placed discard add
updated = refl

-- the commit of a write to a note that is held in full
abbrev written : ChangeEvent
written = record {
  operations = record { ordered = []; patches = ("a", ("see", Value.null) ∷ []) ∷ [] };
  inverse_operations = record { ordered = []; patches = ("a", ("see", Value.text "c") ∷ []) ∷ [] };
  diff = record { inserted = []; deleted = []; moved = []; updated = "a" ∷ [] };
  flags = no_flags;
}

project-TellsOnly_example :
    TellsOnly (MayKnow three_notes view written) (project three_notes view written).0
project-TellsOnly_example = project-TellsOnly three_notes view written

sent :
    (project three_notes view written).0
    ≡ some (record { ordered = []; state = ("a", ("see", Value.null) ∷ []) ∷ [] })
unfolding project add lookup mem ref_names ref_ids contains in_order append_links ancestors
    in_overlay get_or insert
sent = refl

-- a client that held only the page as a stub is told to insert the two notes
arrived :
    (change three_notes
      (record (new_view []) { held = ("p", stub) ∷ []; stubs = "p" ∷ []; placed = "p" ∷ [] })
      anchors).0.state
    ≡ ("a", ("see", Value.text "c") ∷ []) ∷ []
unfolding change in_order contains anchor_ancestors lookup ancestors append_links add keys insert
    ref_names ref_ids in_overlay mem overlay_add discard state_to_json value_eq
arrived = refl
