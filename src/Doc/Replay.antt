-- ===== src/Doc/Replay.antt =====
-- _operations.py, `on_apply_operations`: it tells no listener.
use atomdoc.Prelude.{
  ◌⊎◌, String, ◌≡◌, refl, ◌∙◌, inl, inr, Bool, not, true, false, Option, none, some, List, [], ◌∷◌,
  ◌&&◌, ◌||◌, if_elim, is_empty, if◌then◌else◌, Option-cases,
}
use atomdoc.Prelude.Exec.{
  Exec, Result, ok, err, Error, ◌>>◌, lift, require, modify, for_each, value_error, type_error,
}
use atomdoc.Prelude.Dict.{Dict, lookup, remove, contains, mem, get_or}
use atomdoc.Types.{Value, Position, append, before, after, Operations, OrderedOperation, StatePatch}
use atomdoc.Links.{Ref}
use atomdoc.Doc.{
  Doc, id_of, class_of, check_live, get_node_by_id, set_state, state_of, state_key_to_json,
}
use atomdoc.Doc.Traverse.{range_of, ancestors}
use atomdoc.Doc.Kept.{kept}
use atomdoc.Doc.Silence.{
  Quiet, Joins, then-Quiet, require-Quiet, for_each-Quiet, within-Quiet, insert_into_slot-Quiet,
  delete_body-Quiet, move_nodes-Quiet,
}
use atomdoc.Doc.Env.{Env}
use atomdoc.Doc.Record.{diff_of, patches_of, inverse_patches_of}
use atomdoc.Doc.Refs.{refs_update}
use atomdoc.Doc.Insert.{all_allowed, same_ref, same_slot}
use atomdoc.Doc.Range.{
  delete_range, move_to, move_body, move_range, destination, is_beside, mem_ref, some_in, place,
}
use atomdoc.Doc.Ordered.{
  create_bare, node_for_insert, nodes_for_insert, revivable, set_up, parent_named, node_named,
  missing, attempt, check_neighbor, insert_nodes, apply_insert, end_of, apply_delete, move_nodes_to,
  apply_move, apply_ordered,
}
use atomdoc.Doc.Patches.{
  parsed, keep_original, is_back, record_field, apply_field, apply_fields, tidy_patch, open_patch,
  apply_patch, apply_patches, put_field,
}
use atomdoc.Doc.Apply.{on_apply_operations}

lift-Quiet : {A : Type 0} (r : Doc → Result A) → Quiet (λ d. lift (r d) d)
lift-Quiet r d h = refl

move_to-Quiet :
    (start end target : Ref) (pos : Position) (p : Ref) (s : String) (allowed : List String)
    → Quiet (move_to start end target pos p s allowed)
unfolding move_to
move_to-Quiet start end target pos p s allowed d h =
    then-Quiet (require (contains d.node_map (id_of d p)) value_error) _ (require-Quiet _ _)
      (λ _.
        then-Quiet (lift (check_live d start)) _ (λ d' h'. refl)
          (λ _.
            then-Quiet (lift (check_live d end)) _ (λ d' h'. refl)
              (λ _.
                then-Quiet (lift (check_live d p)) _ (λ d' h'. refl)
                  (λ _.
                    then-Quiet (lift (if is_beside pos then check_live d target else ok tt)) _
                      (λ d' h'. refl)
                      (λ _.
                        then-Quiet (lift (range_of d start end)) _ (λ d' h'. refl)
                          (λ xs.
                            then-Quiet (require (all_allowed d allowed xs) type_error) _
                              (require-Quiet _ _)
                              (λ _.
                                then-Quiet (require (not (mem_ref xs p)) value_error) _
                                  (require-Quiet _ _)
                                  (λ _.
                                    then-Quiet
                                      (require
                                        (not (
                                          some_in (ancestors d.allocated d.links (d.links.parent p))
                                            xs))
                                        value_error)
                                      _ (require-Quiet _ _)
                                      (λ _.
                                        then-Quiet (lift (place d start end xs target p s pos)) _
                                          (λ d' h'. refl)
                                          (λ pl. move_nodes-Quiet start end xs p s pl))))))))))
      d h

Result-cases : {A : Type 0} (r : Result A) → ((a : A) × (r ≡ ok a)) ⊎ ((e : Error) × (r ≡ err e))
Result-cases (ok a) = inl (a, refl)
Result-cases (err e) = inr (e, refl)

move_body-Quiet :
    (start end target : Ref) (slot : Option String) (pos : Position)
    → Quiet (move_body start end target slot pos)
unfolding move_body
move_body-Quiet start end target slot pos d h =
    elim (Result-cases (destination d target slot pos)) [
      | inr (x, e) ↦ rw (e, move_body) refl
      | inl ((p, s), e) ↦ elim (Option-cases (lookup (class_of d p).slots s)) [
        | inl e' ↦ rw (e, e', move_body) refl
        | inr (allowed, e') ↦
            rw (e, e', move_body) (move_to-Quiet start end target pos p s allowed d h)
      ]
    ]

create_bare-Quiet : (i t : String) → Quiet (create_bare i t)
unfolding create_bare set_up
create_bare-Quiet i t d h = elim (Option-cases (lookup d.node_types t)) [
  | inl e ↦ rw (e, create_bare) refl
  | inr (c, e) ↦ rw (e, create_bare) refl
]

node_for_insert-Quiet : (env : Env) (i t : String) → Quiet (node_for_insert env i t)
unfolding node_for_insert set_up
node_for_insert-Quiet env i t d h = elim (Option-cases (revivable env d i t)) [
  | inl e ↦
      rw (e, node_for_insert)
        (create_bare-Quiet i t (record d { graveyard = remove d.graveyard i }) h)
  | inr (x, e) ↦ rw (e, node_for_insert) refl
]

nodes_for_insert-Quiet : (env : Env) (ps : List (String × String)) → Quiet (nodes_for_insert env ps)
unfolding nodes_for_insert
nodes_for_insert-Quiet env [] d h = refl
nodes_for_insert-Quiet env ((i, t) ∷ ps) d h =
    then-Quiet (node_for_insert env i t) _ (node_for_insert-Quiet env i t)
      (λ x.
        then-Quiet (nodes_for_insert env ps) _ (nodes_for_insert-Quiet env ps) (λ xs d' h'. refl))
      d h

attempt-Quiet : (strict : Bool) (m : Exec Doc (Unit {0})) → Quiet m → Quiet (attempt strict m)
attempt-Quiet true m q = q
attempt-Quiet false m q = q

check_neighbor-Quiet :
    (strict : Bool) (p : Ref) (s : String) (x : Ref) → Quiet (check_neighbor strict p s x)
unfolding check_neighbor
check_neighbor-Quiet strict p s x d h =
    if_elim (λ (r : Result (Unit {0}) × Doc). kept r.1 ≡ kept d)
      (strict && not (same_ref (d.links.parent x) (some p) && same_slot (d.links.slot_name x) s)) _
      _ (λ _. refl) (λ _. refl)

module _ (env : Env) (within : Exec Doc (Unit {0}) → Exec Doc (Unit {0})) (strict : Bool)
    (joins : Joins within) where
  insert_nodes-Quiet :
      (parent : Option String) (s : String) (prev next : Option String) (xs : List Ref)
      → Quiet (insert_nodes env within strict parent s prev next xs)
  unfolding insert_nodes
  insert_nodes-Quiet parent s prev next xs d h = elim (Option-cases (parent_named d parent)) [
    | inl e ↦ rw (e, insert_nodes) (require-Quiet (not strict) value_error d h)
    | inr (p, e) ↦ elim (Option-cases (node_named d prev)) [
      | inr (x, e') ↦
          rw (e, e', insert_nodes) (insert_into_slot-Quiet within joins p s after xs (some x) d h)
      | inl e' ↦ elim (Option-cases (node_named d next)) [
        | inr (x, e'') ↦
            rw (e, e', e'', insert_nodes)
              (insert_into_slot-Quiet within joins p s before xs (some x) d h)
        | inl e'' ↦
            rw (e, e', e'', insert_nodes)
              (insert_into_slot-Quiet within joins p s append xs none d h)
      ]
    ]
  ]

  move_range-Quiet :
      (x y target : Ref) (slot : Option String) (pos : Position)
      → Quiet (move_range within x y target slot pos)
  unfolding move_range
  move_range-Quiet x y target slot pos =
      within-Quiet within joins _ (move_body-Quiet x y target slot pos)

  move_nodes_to-Quiet :
      (x y p : Ref) (s : String) (prev next : Option String)
      → Quiet (move_nodes_to env within strict x y p s prev next)
  unfolding move_nodes_to
  move_nodes_to-Quiet x y p s prev next d h = elim (Option-cases (node_named d prev)) [
    | inr (q, e) ↦
        rw (e, move_nodes_to)
          (then-Quiet (check_neighbor strict p s q) _ (check_neighbor-Quiet strict p s q)
            (λ _. move_range-Quiet x y q none after) d h)
    | inl e ↦ elim (Option-cases (node_named d next)) [
      | inr (q, e') ↦
          rw (e, e', move_nodes_to)
            (then-Quiet (check_neighbor strict p s q) _ (check_neighbor-Quiet strict p s q)
              (λ _. move_range-Quiet x y q none before) d h)
      | inl e' ↦ rw (e, e', move_nodes_to) (move_range-Quiet x y p (some s) append d h)
    ]
  ]

  apply_delete-Quiet :
      (start : String) (end : Option String) → Quiet (apply_delete env within strict start end)
  unfolding apply_delete delete_range
  apply_delete-Quiet start end d h = elim (Option-cases (get_node_by_id d start)) [
    | inl e ↦ rw (e, apply_delete) (require-Quiet (not strict) value_error d h)
    | inr (x, e) ↦ elim (Option-cases (get_node_by_id d (end_of env within strict start end))) [
      | inl e' ↦ rw (e, e', apply_delete) (require-Quiet (not strict) value_error d h)
      | inr (y, e') ↦
          rw (e, e', apply_delete)
            (attempt-Quiet strict _ (within-Quiet within joins _ (delete_body-Quiet x y)) d h)
    ]
  ]

  move_named-Quiet :
      (x y : Ref) (s : String) (parent prev next : Option String)
      → Quiet {A = Unit {0}} (λ d. elim (parent_named d parent) [
        | none ↦ missing strict d
        | some p ↦ move_nodes_to env within strict x y p s prev next d
      ])
  move_named-Quiet x y s parent prev next d h = elim (Option-cases (parent_named d parent)) [
    | inl e ↦ rw e (require-Quiet (not strict) value_error d h)
    | inr (p, e) ↦ rw e (move_nodes_to-Quiet x y p s prev next d h)
  ]

  apply_move-Quiet :
      (start : String) (end parent : Option String) (s : String) (prev next : Option String)
      → Quiet (apply_move env within strict start end parent s prev next)
  unfolding apply_move
  apply_move-Quiet start end parent s prev next d h = elim (Option-cases (get_node_by_id d start)) [
    | inl e ↦ rw (e, apply_move) (require-Quiet (not strict) value_error d h)
    | inr (x, e) ↦ elim (Option-cases (get_node_by_id d (end_of env within strict start end))) [
      | inl e' ↦ rw (e, e', apply_move) (require-Quiet (not strict) value_error d h)
      | inr (y, e') ↦
          rw (e, e', apply_move)
            (attempt-Quiet strict _ (move_named-Quiet x y s parent prev next) d h)
    ]
  ]

  apply_ordered-Quiet : (op : OrderedOperation) → Quiet (apply_ordered env within strict op)
  unfolding apply_ordered apply_insert
  apply_ordered-Quiet (OrderedOperation.insert pairs parent s prev next) =
      then-Quiet (nodes_for_insert env pairs) _ (nodes_for_insert-Quiet env pairs)
        (λ xs. insert_nodes-Quiet parent s prev next xs)
  apply_ordered-Quiet (OrderedOperation.delete start end) = apply_delete-Quiet start end
  apply_ordered-Quiet (OrderedOperation.move start end parent s prev next) =
      apply_move-Quiet start end parent s prev next

keep_original-kept : (d : Doc) (x : Ref) (key : String) → kept (keep_original d x key) ≡ kept d
keep_original-kept d x key =
    if_elim (λ (r : Doc). kept r ≡ kept d)
      (mem (diff_of d).inserted (id_of d x)
        || contains (get_or (inverse_patches_of d) (id_of d x) []) key)
      _ _ (λ _. refl) (λ _. refl)

record_field-kept : (d : Doc) (x : Ref) (key : String) → kept (record_field d x key) ≡ kept d
record_field-kept d x key =
    if_elim (λ (r : Doc). kept r ≡ kept d) (is_back d (id_of d x) key (state_key_to_json d x key)) _
      _ (λ _. refl) (λ _. refl)

apply_field-Quiet : (x : Ref) (key : String) (json : Value) → Quiet (apply_field x key json)
unfolding apply_field set_state refs_update
apply_field-Quiet x key json d h = elim (Option-cases (lookup (class_of d x).fields key)) [
  | inl e ↦ rw (e, apply_field) refl
  | inr (f, e) ↦
      let d1 = keep_original d x key in
      elim (Result-cases (parsed d x key f json)) [
        | inr (z, e') ↦ rw (e, e', apply_field) (keep_original-kept d x key)
        | inl (new, e') ↦
            let d2 = set_state d1 x (put_field (state_of d1 x) key new) in
            elim (Option-cases f.ref_def) [
              | inl e'' ↦
                  rw (e, e', e'', apply_field)
                    (record_field-kept d2 x key ∙ keep_original-kept d x key)
              | inr (r, e'') ↦
                  rw (e, e', e'', apply_field)
                    (record_field-kept d2 x key ∙ keep_original-kept d x key)
            ]
      ]
]

apply_fields-Quiet : (x : Ref) (fields : Dict Value) → Quiet (apply_fields x fields)
unfolding apply_fields
apply_fields-Quiet x [] = λ d h. refl
apply_fields-Quiet x ((key, json) ∷ fields) =
    then-Quiet (apply_field x key json) _ (apply_field-Quiet x key json)
      (λ _. apply_fields-Quiet x fields)

tidy_patch-kept : (x : Ref) (d : Doc) → kept (tidy_patch x d) ≡ kept d
unfolding tidy_patch
tidy_patch-kept x d =
    if_elim (λ (r : Doc). kept r ≡ kept d)
      (is_empty (get_or (patches_of d) (id_of d x) [])
        && not (mem (diff_of d).inserted (id_of d x)))
      _ _
      (λ _.
        if_elim (λ (r : Doc). kept r ≡ kept d)
          (is_empty (get_or (inverse_patches_of d) (id_of d x) [])) _ _ (λ _. refl) (λ _. refl))
      (λ _. refl)

open_patch-kept : (x : Ref) (d : Doc) → kept (open_patch x d) ≡ kept d
unfolding open_patch
open_patch-kept x d =
    if_elim (λ (r : Doc). kept r ≡ kept d) (mem (diff_of d).inserted (id_of d x)) _ _ (λ _. refl)
      (λ _. refl)

apply_patch-Quiet :
    (strict : Bool) (i : String) (patch : Dict Value) → Quiet (apply_patch strict i patch)
unfolding apply_patch
apply_patch-Quiet strict i [] d h = refl
apply_patch-Quiet strict i (e ∷ es) d h = elim (Option-cases (get_node_by_id d i)) [
  | inl n ↦ rw (n, apply_patch) (require-Quiet (not strict) value_error d h)
  | inr (x, n) ↦
      rw (n, apply_patch)
        (then-Quiet (modify (open_patch x)) (λ _. apply_fields x (e ∷ es) >> modify (tidy_patch x))
          (λ d' h'. open_patch-kept x d')
          (λ _.
            then-Quiet (apply_fields x (e ∷ es)) (λ _. modify (tidy_patch x))
              (apply_fields-Quiet x (e ∷ es)) (λ _ d' h'. tidy_patch-kept x d'))
          d h)
]

apply_patches-Quiet : (strict : Bool) (ps : StatePatch) → Quiet (apply_patches strict ps)
unfolding apply_patches
apply_patches-Quiet strict [] = λ d h. refl
apply_patches-Quiet strict ((i, patch) ∷ ps) =
    then-Quiet (apply_patch strict i patch) _ (apply_patch-Quiet strict i patch)
      (λ _. apply_patches-Quiet strict ps)

-- Operations that are applied in an open transaction keep it open and tell no listener, whether they succeed or
-- fail.
pub on_apply_operations-Quiet :
    (env : Env) (within : Exec Doc (Unit {0}) → Exec Doc (Unit {0})) (ops : Operations)
    (strict : Bool)
    → Joins within
    → Quiet (on_apply_operations env within ops strict)
unfolding on_apply_operations
on_apply_operations-Quiet env within ops strict joins =
    then-Quiet (for_each ops.ordered (apply_ordered env within strict)) _
      (for_each-Quiet ops.ordered _ (apply_ordered-Quiet env within strict joins))
      (λ _. apply_patches-Quiet strict ops.patches)
