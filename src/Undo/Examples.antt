-- ===== src/Undo/Examples.antt =====
-- The theorems on undo at concrete inputs: a document that has one field, set to a text.
use atomdoc.Prelude.{
  some, none, ◌==◌, if◌then◌else◌, ℕ, ◌+◌, String, ◌≡◌, refl, true, false, [], ◌∷◌, arith, length,
}
use atomdoc.Prelude.Exec.{for_each, Result, ok, err, value_error}
use atomdoc.Types.{Value, Operations, no_operations, ChangeEvent, no_changes}
use atomdoc.Undo.{
  UndoManager, UndoStackItem, Host, Heard, undo, redo, import_history, export_history, new_manager,
}
use atomdoc.Undo.Bounds.{IsBounded}
use atomdoc.Undo.Document.{
  document_host, undo_document-refused, undo_document, redo_document, undo_document-IsBounded,
  redo_document-IsBounded,
}
use atomdoc.Doc.{Doc, get_node_by_id}
use atomdoc.Doc.Env.{Env}
use atomdoc.Doc.Commit.{force_commit, has_changes}
use atomdoc.Doc.Apply.{apply_operations, transact}
use atomdoc.Doc.Transaction.{with_transaction}
use atomdoc.Doc.Patches.{apply_patch}
use atomdoc.Prelude.Dict.{lookup, mem}
use atomdoc.Samples.{three_notes}
use atomdoc.Undo.Steps.{redo-undo, with_stacks}
use atomdoc.Undo.History.{import-export, redo-exceeds}

abbrev write : String → Operations
write v = record { ordered = []; patches = ("n", ("title", Value.text v) ∷ []) ∷ [] }

abbrev event : String → ChangeEvent
event old = record {
  operations = no_operations;
  inverse_operations = write old;
  diff = no_changes;
  flags = record { skip_undo = false };
}

-- An operation set without patches is refused; the others commit.
abbrev answer : Operations → String → Result (Unit {0}) × String × Heard
answer ops d = elim ops.patches [
  | [] ↦ (err value_error, d, [])
  | _ ∷ _ ↦ (ok tt, "new", (7, event d) ∷ [])
]

abbrev host : Host
host = record { Document = String; force_commit = λ d. (ok tt, d, []); apply_operations = answer }

abbrev step : String → UndoStackItem
step v = record { operations = write v; meta = [] }

abbrev refused_step : UndoStackItem
refused_step = record { operations = no_operations; meta = [] }

abbrev manager : ℕ → UndoManager
manager n = new_manager n 0 (λ _. true)

abbrev one_step : UndoManager
one_step = record (manager 2) { undo_stack = step "a" ∷ [] }

-- a step to take back and two to redo, one of which the document refuses
abbrev three_steps : UndoManager
three_steps = record (manager 3) {
  undo_stack = step "a" ∷ [];
  redo_stack = step "c" ∷ refused_step ∷ [];
}

three_steps-IsBounded : IsBounded three_steps
three_steps-IsBounded = record { positive = omega arith; fits = omega arith }

abbrev quiet : Env
quiet = record {
  normalize = λ l diff d. (ok tt, d);
  listen = λ l e. if l == 1 then some 5 else none;
  held = λ x. true;
}

-- the document with the manager as a listener, and another listener that fails
abbrev observed : Doc
observed = record three_notes { change_listeners = 0 ∷ 1 ∷ [] }

undo_document-IsBounded_example : IsBounded (undo_document quiet 0 7 three_steps observed).1
undo_document-IsBounded_example =
    undo_document-IsBounded quiet 0 7 (λ l diff d. refl) three_steps observed three_steps-IsBounded

redo_document-IsBounded_example : IsBounded (redo_document quiet 0 7 three_steps observed).1
redo_document-IsBounded_example =
    redo_document-IsBounded quiet 0 7 (λ l diff d. refl) three_steps observed three_steps-IsBounded

-- a step that writes a field which the node's class does not have
abbrev unknown_field : UndoStackItem
unknown_field = record {
  operations = record { ordered = []; patches = ("a", ("nope", Value.null) ∷ []) ∷ [] };
  meta = [];
}

undo_document-refused_example :
    undo_document quiet 0 7 (record (manager 2) { undo_stack = unknown_field ∷ [] }) observed ≡ (
      err value_error,
      with_stacks (document_host quiet 0 7) (manager 2) (unknown_field ∷ []) [],
      (apply_operations quiet
          (unknown_field.operations ∷ [])
          none
          false
          false
          true
          (force_commit quiet false observed).1).1,
    )
unfolding force_commit apply_operations has_changes transact with_transaction for_each apply_patch
    get_node_by_id lookup mem
undo_document-refused_example =
    undo_document-refused quiet 0 7 (λ l diff d. refl) (manager 2) observed unknown_field []
      value_error refl refl refl (λ ns. cc)

redo-undo_example :
    (redo host (undo host one_step "b").1 (undo host one_step "b").2).1
    ≡ with_stacks host (manager 2) (step "new" ∷ []) []
redo-undo_example =
    redo-undo host (manager 2) "b" (step "a") [] 7 7 (event "b") (event "new")
      (record { outcome = refl; silent = refl })
      (record { outcome = refl; event = refl; kept = refl })
      (record { outcome = refl; silent = refl })
      (record { outcome = refl; event = refl; kept = refl })

import-export_example :
    import_history (manager 3) "d" "Page" (export_history one_step "d" "Page")
    ≡ ok (record (manager 3) { undo_stack = step "a" ∷ [] })
import-export_example = import-export one_step (manager 3) "d" "Page" (omega arith) (omega arith)

redo-exceeds_example :
    length
      (redo host
        (record (manager 1) { undo_stack = step "a" ∷ []; redo_stack = step "c" ∷ [] })
        "b").1.undo_stack
    ≡ (manager 1).max_steps + 1
redo-exceeds_example =
    redo-exceeds host (record (manager 1) { undo_stack = step "a" ∷ [] }) "b" (step "c") [] 7
      (event "b") refl (record { outcome = refl; silent = refl })
      (record { outcome = refl; event = refl; kept = refl })
