-- ===== src/Doc/Apply.antt =====
-- _operations.py: `on_apply_operations`; _doc.py: `_set_node_state`, `abort` and `apply_operations`.
use atomdoc.Prelude.{
  ℕ, String, Bool, true, false, ◌&&◌, not, Option, none, some, List, [], ◌∷◌, ◌++◌, reverse,
  if◌then◌else◌, is_empty, take, drop,
}
use atomdoc.Prelude.Exec.{Exec, ok, err, listener_error, ◌>>=◌, ◌>>◌, done, modify, for_each}
use atomdoc.Prelude.Dict.{lookup, insert}
use atomdoc.Types.{Value, value_eq, Operations, Stage}
use atomdoc.Links.{Ref}
use atomdoc.Doc.{
  Doc, id_of, class_of, state_of, default_of, set_state, close_transaction, stage_eq,
  get_node_by_id,
}
use atomdoc.Doc.Refs.{refs_update, rebuild_ref_index}
use atomdoc.Doc.Record.{on_set_state_inverse, on_set_state_forward}
use atomdoc.Doc.Env.{Env}
use atomdoc.Doc.Transaction.{with_transaction}
use atomdoc.Doc.Insert.{same_ref}
use atomdoc.Doc.Ordered.{apply_ordered}
use atomdoc.Doc.Patches.{apply_patches}

-- `on_apply_operations`
unfoldable pub on_apply_operations :
    Env → (Exec Doc (Unit {0}) → Exec Doc (Unit {0})) → Operations → Bool → Exec Doc (Unit {0})
unfolding apply_ordered apply_patches
on_apply_operations env within ops strict = do
  for_each ops.ordered (apply_ordered env within strict)
  apply_patches strict ops.patches

-- Inside `abort` the stage is not idle, so that every transaction joins and none rolls back.
unfoldable pub join : Env → Exec Doc (Unit {0}) → Exec Doc (Unit {0})
join env fn = with_transaction env done fn false false

-- the inverse operations of the open transaction, applied; a failure does not stop the rest of `abort`
unfoldable pub undo_recorded : Env → Exec Doc (Unit {0})
unfolding on_apply_operations join
undo_recorded env d =
    on_apply_operations env (join env)
      (record d.tx.inverse_operations { ordered = reverse d.tx.inverse_operations.ordered }) false d

-- `Doc.abort`: whatever happens, the transaction is closed and the index rebuilt
unfoldable pub abort : Env → Exec Doc (Unit {0})
unfolding undo_recorded close_transaction rebuild_ref_index
abort env d =
    if stage_eq d.stage Stage.idle
    then (ok tt, d)
    else (let r = undo_recorded env d in (r.0, rebuild_ref_index (close_transaction r.1)))

-- A transaction of the program.
unfoldable pub transact : Env → Bool → Bool → Exec Doc (Unit {0}) → Exec Doc (Unit {0})
unfolding abort
transact env is_apply_operations skip fn =
    with_transaction env (abort env) fn is_apply_operations skip

-- what a field reads as, where it is unset its default
unfoldable pub current_value : Doc → Ref → String → Option Value
unfolding default_of
current_value d x key = elim (lookup (state_of d x) key) [
  | none ↦ default_of d x key
  | some w ↦ some w
]

unfoldable pub is_ref_field : Doc → Ref → String → Bool
is_ref_field d x key = elim (lookup (class_of d x).fields key) [
  | none ↦ false
  | some f ↦ elim f.ref_def [ none ↦ false | some _ ↦ true ]
]

abbrev pub is_current : Option Value → Value → Bool
is_current none v = false
is_current (some w) v = value_eq w v

-- the write of a field of a node in the tree
unfoldable pub write_attached : Ref → String → Value → Doc → Doc
unfolding is_ref_field current_value
write_attached x key v d =
    let d1 = on_set_state_inverse d x key in
    let d2 = on_set_state_forward (set_state d1 x (insert (state_of d1 x) key v)) x key in
    if is_ref_field d x key then refs_update d2 x key (current_value d x key) (some v) else d2

-- the body of `_set_node_state`
unfoldable pub write_field : Ref → String → Value → Doc → Doc
unfolding write_attached current_value
write_field x key v d =
    if is_current (current_value d x key) v
    then d
    else if same_ref (get_node_by_id d (id_of d x)) (some x)
    then write_attached x key v d
    else set_state d x (insert (state_of d x) key v)

-- `_set_node_state`
unfoldable pub set_node_state : Env → Ref → String → Value → Exec Doc (Unit {0})
unfolding write_field transact
set_node_state env x key v = transact env false false (modify (write_field x key v))

unfoldable pub is_nothing : Operations → Bool
is_nothing ops = is_empty ops.ordered && is_empty ops.patches

-- `apply_operations` over the entries of a journal: the failures of listeners are collected
unfoldable pub apply_journal :
    Env → Bool → Bool → Bool → List Operations → List ℕ → Exec Doc (List ℕ)
unfolding is_nothing
apply_journal env skip strict raising [] errors d = (ok errors, d)
apply_journal env skip strict raising (ops ∷ rest) errors d =
    let r =
      transact env (not raising) skip
        (λ d'.
          if is_nothing ops
          then (ok tt, d')
          else on_apply_operations env (transact env false false) ops strict d')
        d in
    let next = apply_journal env skip strict raising rest errors r.1 in
    elim r.0 [
      | ok _ ↦ next
      | err (listener_error ns) ↦ apply_journal env skip strict raising rest (errors ++ ns) r.1
      | err e ↦ (err e, r.1)
    ]

-- `apply_operations`, with the part of the journal that a limit leaves
unfoldable pub apply_operations :
    Env → List Operations → Option ℕ → Bool → Bool → Bool → Exec Doc (List Operations)
unfolding apply_journal
apply_operations env journal limit skip strict raising = do
  errors ←
      apply_journal env skip strict raising
        (elim limit [ none ↦ journal | some n ↦ take n journal ]) []
  (λ d. elim errors [
    | [] ↦ (ok (elim limit [ none ↦ [] | some n ↦ drop n journal ]), d)
    | n ∷ ns ↦ (err (listener_error (n ∷ ns)), d)
  ])
