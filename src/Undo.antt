-- ===== src/Undo.antt =====
-- python/src/atomdoc/_undo.py, and `merge_operations` of _operations.py. A stack lists its newest
-- step first. Times are whole readings of the clock. The document is what `Host` says of it; Document
-- is the document of this library as one.
pub mod Merge
pub mod Bounds
pub mod Steps
pub mod History
pub mod Document
mod Examples
use atomdoc.Prelude.{
  ℕ, zero, suc, ◌+◌, ◌-◌, ◌*◌, ◌/◌, ◌%◌, ◌≤◌, ◌<◌, String, ◌≡◌, refl, sym, ap, ◌∙◌, ◌≢◌, ◌↔◌, ◌⊎◌,
  inl, inr, Bool, true, false, ◌&&◌, ◌||◌, not, Option, none, some, List, [], ◌∷◌, ◌++◌, map,
  reverse, arith, eq_iff, ltb, leb, ◌==◌, str_eq, if◌then◌else◌, ==_iff, str_eq_refl, Bool-cases,
  Option-cases, length, is_empty, take, drop, replicate, All, All-append,
}
use atomdoc.Prelude.Exec.{Result, ok, err, Error, listener_error, value_error, type_error}
use atomdoc.Prelude.Dict.{Dict, lookup, insert, get_or, update}
use atomdoc.Types.{Value, Operations, StatePatch, ChangeEvent}

-- the loop of `merge_operations` over the patches of one operation set
unfoldable pub merge_patches : StatePatch → StatePatch → StatePatch
merge_patches state [] = state
merge_patches state ((i, patch) ∷ more) =
    merge_patches (insert state i (update (get_or state i []) patch)) more

merge_into : Operations → List Operations → Operations
unfolding merge_patches
merge_into acc [] = acc
merge_into acc (ops ∷ rest) =
    merge_into
      (record {
        ordered = acc.ordered ++ ops.ordered;
        patches = merge_patches acc.patches ops.patches;
      })
      rest

unfoldable pub merge_operations : List Operations → Operations
unfolding merge_into
merge_operations = merge_into (record { ordered = []; patches = [] })

pub data TxType : Type 0 where
  undoing redoing updating : TxType

pub record UndoStackItem : Type 0 where
  pub operations : Operations
  pub meta : Dict Value

pub record UndoManager : Type 0 where
  pub max_steps : ℕ
  pub merge_interval : ℕ
  pub accept : ChangeEvent → Bool
  pub undo_stack : List UndoStackItem
  pub redo_stack : List UndoStackItem
  pub tx_type : TxType
  pub last_update : Option ℕ

abbrev pub new_manager : ℕ → ℕ → (ChangeEvent → Bool) → UndoManager
new_manager steps interval accept = record {
  max_steps = steps;
  merge_interval = interval;
  accept = accept;
  undo_stack = [];
  redo_stack = [];
  tx_type = updating;
  last_update = none;
}

abbrev pub item_of : ChangeEvent → UndoStackItem
item_of e = record { operations = e.inverse_operations; meta = [] }

-- `now - last < interval`, where the clock may have gone back
abbrev pub within_interval : UndoManager → ℕ → Bool
within_interval m now = elim m.last_update [
  | none ↦ false
  | some last ↦ ltb now (last + m.merge_interval)
]

-- `del stack[0]` where the stack is full, then the push
unfoldable pub push_bounded : ℕ → List UndoStackItem → UndoStackItem → List UndoStackItem
push_bounded max stack item =
    if leb max (length stack) then item ∷ take (length stack - 1) stack else item ∷ stack

abbrev pub merge_item : UndoStackItem → UndoStackItem → UndoStackItem
merge_item item last = record last {
  operations = merge_operations (item.operations ∷ last.operations ∷ []);
}

-- the undo stack behind an update
unfoldable pub record_update : UndoManager → ℕ → UndoStackItem → List UndoStackItem
unfolding push_bounded
record_update m now item = elim m.undo_stack [
  | [] ↦ push_bounded m.max_steps [] item
  | last ∷ rest ↦
      if within_interval m now
      then merge_item item last ∷ rest
      else push_bounded m.max_steps (last ∷ rest) item
]

abbrev pub by_type : TxType → UndoManager → ℕ → UndoStackItem → UndoManager
by_type updating m now item = record m {
  undo_stack = record_update m now item;
  redo_stack = [];
  last_update = some now;
}
by_type undoing m now item = record m { redo_stack = item ∷ m.redo_stack; tx_type = updating }
by_type redoing m now item = record m { undo_stack = item ∷ m.undo_stack; tx_type = updating }

abbrev pub is_declined : UndoManager → ChangeEvent → Bool
is_declined m e = elim m.tx_type [ updating ↦ not (m.accept e) | _ ↦ false ]

-- `_on_change`, at the clock reading `now`
unfoldable pub on_change : UndoManager → ℕ → ChangeEvent → UndoManager
unfolding record_update
on_change m now e =
    if e.flags.skip_undo
    then m
    else if is_declined m e
    then m
    else by_type m.tx_type m now (item_of e)

abbrev pub Heard : Type 0
Heard = List (ℕ × ChangeEvent)

unfoldable pub hear : UndoManager → Heard → UndoManager
unfolding on_change
hear m [] = m
hear m ((now, e) ∷ es) = hear (on_change m now e) es

-- The document as the manager calls it. Each call returns the events that it delivered, with the
-- times.
pub record Host : Type 1 where
  pub Document : Type 0
  pub force_commit : Document → Result (Unit {0}) × Document × Heard
  pub apply_operations : Operations → Document → Result (Unit {0}) × Document × Heard

module _ (host : Host) where
  open host use {Document, force_commit, apply_operations}

  -- the `finally` of `undo` and `redo`
  abbrev pub settle : UndoManager → UndoManager
  settle m = record m { tx_type = updating }

  -- what stands behind the application of an undo step, by its outcome
  abbrev pub undo_outcome : UndoStackItem → Result (Unit {0}) → UndoManager → UndoManager
  undo_outcome item (ok _) m = settle m
  undo_outcome item (err (listener_error _)) m = settle m
  undo_outcome item (err _) m = settle (record m { undo_stack = item ∷ m.undo_stack })

  abbrev pub redo_outcome : UndoStackItem → Result (Unit {0}) → UndoManager → UndoManager
  redo_outcome item (ok _) m = settle m
  redo_outcome item (err (listener_error _)) m = settle m
  redo_outcome item (err _) m = settle (record m { redo_stack = item ∷ m.redo_stack })

  unfoldable pub undo_step : UndoManager → Document → Result (Unit {0}) × UndoManager × Document
  unfolding hear
  undo_step m d = elim m.undo_stack [
    | [] ↦ (ok tt, m, d)
    | item ∷ rest ↦
        let m1 = record m { undo_stack = rest; tx_type = undoing; last_update = none } in
        let r = apply_operations item.operations d in
        (r.0, undo_outcome item r.0 (hear m1 r.2), r.1)
  ]

  unfoldable pub redo_step : UndoManager → Document → Result (Unit {0}) × UndoManager × Document
  unfolding hear
  redo_step m d = elim m.redo_stack [
    | [] ↦ (ok tt, m, d)
    | item ∷ rest ↦
        let m1 = record m { redo_stack = rest; tx_type = redoing; last_update = none } in
        let r = apply_operations item.operations d in
        (r.0, redo_outcome item r.0 (hear m1 r.2), r.1)
  ]

  -- `undo` and `redo` commit what is pending first; a failure there ends the call
  unfoldable pub undo : UndoManager → Document → Result (Unit {0}) × UndoManager × Document
  unfolding undo_step hear
  undo m d =
      let c = force_commit d in
      let m1 = hear m c.2 in elim c.0 [ err e ↦ (err e, m1, c.1) | ok _ ↦ undo_step m1 c.1 ]

  unfoldable pub redo : UndoManager → Document → Result (Unit {0}) × UndoManager × Document
  unfolding redo_step hear
  redo m d =
      let c = force_commit d in
      let m1 = hear m c.2 in elim c.0 [ err e ↦ (err e, m1, c.1) | ok _ ↦ redo_step m1 c.1 ]

abbrev pub can_undo : UndoManager → Bool
can_undo m = not (is_empty m.undo_stack)

abbrev pub can_redo : UndoManager → Bool
can_redo m = not (is_empty m.redo_stack)

unfoldable pub clear : UndoManager → UndoManager
clear m = record m { undo_stack = []; redo_stack = []; last_update = none }

-- The exported stacks list the oldest step first.
pub record UndoHistory : Type 0 where
  pub doc_id : String
  pub doc_type : String
  pub undo_stack : List UndoStackItem
  pub redo_stack : List UndoStackItem
  pub last_update : Option ℕ

-- `export_history`, behind its commit
unfoldable pub export_history : UndoManager → String → String → UndoHistory
export_history m doc_id doc_type = record {
  doc_id = doc_id;
  doc_type = doc_type;
  undo_stack = reverse m.undo_stack;
  redo_stack = reverse m.redo_stack;
  last_update = m.last_update;
}

-- `_import_stack`: the last `max_steps` items
unfoldable pub import_stack : List UndoStackItem → ℕ → List UndoStackItem
import_stack items max_steps = take max_steps (reverse items)

-- `import_history`, of a history that `_validate_history` let pass
unfoldable pub import_history : UndoManager → String → String → UndoHistory → Result UndoManager
unfolding import_stack
import_history m doc_id doc_type h =
    if str_eq h.doc_id doc_id && str_eq h.doc_type doc_type
    then ok (record m {
      undo_stack = import_stack h.undo_stack m.max_steps;
      redo_stack = import_stack h.redo_stack m.max_steps;
      last_update = h.last_update;
      tx_type = updating;
    })
    else err value_error
