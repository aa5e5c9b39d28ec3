-- ===== src/Doc/Commit.antt =====
-- _operations.py: `maybe_trigger_listeners`; _doc.py: `_force_commit` and the checks of a commit.
use atomdoc.Prelude.{
  ℕ, String, Bool, true, ◌&&◌, ◌||◌, not, none, some, List, [], ◌∷◌, ◌++◌, reverse, if◌then◌else◌,
  is_empty,
}
use atomdoc.Prelude.Exec.{
  Exec, Result, ok, err, runtime_error, validation_error, listener_error, ◌>>◌, for_each, modify,
}
use atomdoc.Prelude.Dict.{Dict, lookup, get_or}
use atomdoc.Types.{Value, ChangeEvent, Stage}
use atomdoc.Schema.{FieldDef}
use atomdoc.Links.{Ref}
use atomdoc.Doc.{Doc, stage_eq, class_of, state_of, close_transaction}
use atomdoc.Doc.Refs.{check_ref_integrity}
use atomdoc.Doc.Env.{Env}

abbrev pub set_stage : Stage → Doc → Doc
set_stage s d = record d { stage = s }

unfoldable pub has_changes : Doc → Bool
has_changes d =
    not (is_empty d.tx.diff.inserted)
    || not (is_empty d.tx.diff.deleted)
    || not (is_empty d.tx.diff.moved)
    || not (is_empty d.tx.operations.patches)

-- The data that `_validate_node` builds for the class's models, without the empty slots.
model_data : Dict Value → Dict FieldDef → Dict Value
model_data state [] = []
model_data state ((name, f) ∷ fields) =
    let rest = model_data state fields in
    elim f.default [
      | some v ↦ (name, get_or state name v) ∷ rest
      | none ↦ elim (lookup state name) [ none ↦ rest | some v ↦ (name, v) ∷ rest ]
    ]

unfoldable pub node_is_valid : Doc → Ref → Bool
unfolding model_data
node_is_valid d x = (class_of d x).check_model (model_data (state_of d x) (class_of d x).fields)

unfoldable pub nodes_are_valid : Doc → List String → Bool
nodes_are_valid d [] = true
nodes_are_valid d (i ∷ is) =
    let rest = nodes_are_valid d is in
    elim (lookup d.node_map i) [ none ↦ rest | some x ↦ node_is_valid d x && rest ]

-- `_validate_changed_nodes`
unfoldable pub validate_changed_nodes : Doc → Result (Unit {0})
validate_changed_nodes d =
    if nodes_are_valid d (d.tx.diff.updated ++ d.tx.diff.inserted)
    then ok tt
    else err validation_error

abbrev pub event_of : Doc → ChangeEvent
event_of d = record {
  operations = d.tx.operations;
  inverse_operations = record d.tx.inverse_operations {
    ordered = reverse d.tx.inverse_operations.ordered;
  };
  diff = d.tx.diff;
  flags = d.tx.flags;
}

unfoldable pub failures : Env → ChangeEvent → List ℕ → List ℕ
failures env e [] = []
failures env e (l ∷ ls) =
    let rest = failures env e ls in elim (env.listen l e) [ none ↦ rest | some n ↦ n ∷ rest ]

unfoldable pub deliver : ChangeEvent → List ℕ → List (ℕ × ChangeEvent) → List (ℕ × ChangeEvent)
deliver e [] heard = heard
deliver e (l ∷ ls) heard = deliver e ls ((l, e) ∷ heard)

abbrev pub report : List ℕ → Result (Unit {0})
report [] = ok tt
report (n ∷ ns) = err (listener_error (n ∷ ns))

-- Every listener is called; the exceptions are raised together behind the loop.
unfoldable pub notify : Env → Exec Doc (Unit {0})
unfolding failures deliver
notify env d =
    let e = event_of d in
    (
      report (failures env e d.change_listeners),
      record d { heard = deliver e d.change_listeners d.heard },
    )

unfoldable pub run_normalizers : Env → Exec Doc (Unit {0})
run_normalizers env d = for_each d.normalize_listeners (λ l d'. env.normalize l d'.tx.diff d') d

-- the part of `maybe_trigger_listeners` behind the normalizers
unfoldable pub finish_commit : Env → Exec Doc (Unit {0})
unfolding notify
finish_commit env d =
    if has_changes d
    then (do
      modify (set_stage Stage.idle)
      (λ d'. (validate_changed_nodes d', d'))
      (λ d'. (check_ref_integrity d', d'))
      modify (set_stage Stage.change)
      notify env)
        d
    else (ok tt, d)

unfoldable pub second_pass : Env → Exec Doc (Unit {0})
second_pass env d =
    if d.strict_mode
    then (do modify (set_stage Stage.normalize2); run_normalizers env) d
    else (ok tt, d)

unfoldable pub maybe_trigger_listeners : Env → Bool → Exec Doc (Unit {0})
unfolding second_pass finish_commit
maybe_trigger_listeners env ignore_empty_diff d =
    if not (has_changes d) && not ignore_empty_diff
    then (ok tt, d)
    else (do
      modify (set_stage Stage.normalize)
      run_normalizers env
      second_pass env
      finish_commit env)
        d

-- how `_force_commit` leaves the document, by what the listeners' part did
abbrev pub close_commit : Result (Unit {0}) → Exec Doc (Unit {0})
close_commit (ok u) d = (ok u, close_transaction d)
close_commit (err (listener_error ns)) d = (err (listener_error ns), close_transaction d)
close_commit (err e) d = (err e, set_stage Stage.update d)

unfoldable pub force_commit : Env → Bool → Exec Doc (Unit {0})
unfolding maybe_trigger_listeners close_transaction
force_commit env ignore_empty_diff d =
    if stage_eq d.stage Stage.change
    then (err runtime_error, d)
    else let r = maybe_trigger_listeners env ignore_empty_diff (set_stage Stage.idle d) in
      close_commit r.0 r.1

-- `dispose`
unfoldable pub dispose : Exec Doc (Unit {0})
dispose d =
    if stage_eq d.stage Stage.idle
    then (
      ok tt,
      record d {
        change_listeners = [];
        normalize_listeners = [];
        ref_index = [];
        stage = Stage.disposed;
      },
    )
    else (err runtime_error, d)
