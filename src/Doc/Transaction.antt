-- ===== src/Doc/Transaction.antt =====
-- python/src/atomdoc/_transaction.py. The rollback `Doc.abort` is an argument here: it applies
-- operations, which are transactions in turn, and `Apply.abort` ties the knot.
use atomdoc.Prelude.{Bool, true, false, ◌&&◌, ◌||◌, if◌then◌else◌}
use atomdoc.Prelude.Exec.{Exec, Result, ok, err, Error, runtime_error, listener_error}
use atomdoc.Types.{Stage}
use atomdoc.Doc.{Doc, stage_eq}
use atomdoc.Doc.Env.{Env}
use atomdoc.Doc.Commit.{force_commit, set_stage}

unfoldable pub check_stage : Doc → Result (Unit {0})
check_stage d =
    if stage_eq d.stage Stage.change || stage_eq d.stage Stage.disposed
    then err runtime_error
    else if stage_eq d.stage Stage.normalize2
    then err runtime_error
    else ok tt

abbrev pub set_skip_undo : Doc → Doc
set_skip_undo d = record d { tx = record d.tx { flags = record { skip_undo = true } } }

-- `_begin` behind the commit of an open transaction
unfoldable pub open_transaction : Bool → Doc → Bool × Doc
open_transaction skip d =
    let is_new = stage_eq d.stage Stage.idle in
    let d1 = if is_new then set_stage Stage.update d else d in
    (is_new, if skip then set_skip_undo d1 else d1)

-- `_begin` from the outcome of the commit of an open transaction
reopen : Bool → Result (Unit {0}) → Exec Doc Bool
reopen skip (err e) d = (err e, d)
reopen skip (ok _) d = let o = open_transaction skip d in (ok o.0, o.1)

-- `_begin`; `skip` says that flags are given and that they skip undo
unfoldable pub begin : Env → Bool → Exec Doc Bool
unfolding open_transaction reopen
begin env skip d =
    if skip && stage_eq d.stage Stage.update
    then (let r = force_commit env false d in reopen skip r.0 r.1)
    else (let o = open_transaction skip d in (ok o.0, o.1))

-- Roll back; a failure of the rollback is swallowed, and `swallow` hides the cause too.
abbrev pub roll_back : Exec Doc (Unit {0}) → Bool → Error → Exec Doc (Unit {0})
roll_back abort swallow e d = (if swallow then ok tt else err e, (abort d).1)

-- the outcome of the closing commit
unfoldable pub after_commit : Exec Doc (Unit {0}) → Bool → Result (Unit {0}) → Exec Doc (Unit {0})
after_commit abort swallow (ok u) d = (ok u, d)
after_commit abort swallow (err (listener_error ns)) d = (err (listener_error ns), d)
after_commit abort swallow (err e) d = roll_back abort swallow e d

-- the outcome of `fn`, in a transaction that this call opened or joined
unfoldable pub after_body :
    Env → Exec Doc (Unit {0}) → Bool → Bool → Result (Unit {0}) → Exec Doc (Unit {0})
unfolding after_commit
after_body env abort swallow false (ok u) d = (ok u, d)
after_body env abort swallow false (err e) d = (err e, d)
after_body env abort swallow true (err e) d = roll_back abort swallow e d
after_body env abort swallow true (ok u) d =
    let c = force_commit env false d in after_commit abort swallow c.0 c.1

-- `with_transaction(doc, fn, is_apply_operations, flags)`
unfoldable pub with_transaction :
    Env → Exec Doc (Unit {0}) → Exec Doc (Unit {0}) → Bool → Bool → Exec Doc (Unit {0})
unfolding check_stage begin after_body
with_transaction env abort fn is_apply_operations skip d = elim (check_stage d) [
  | err e ↦ (err e, d)
  | ok _ ↦
      let b = begin env skip d in
      elim b.0 [
        | err e ↦ (err e, b.1)
        | ok is_new ↦ let r = fn b.1 in after_body env abort is_apply_operations is_new r.0 r.1
      ]
]

-- the outcome of the commit of a `with doc.transaction():` block; every failure rolls back
unfoldable pub close_block : Exec Doc (Unit {0}) → Result (Unit {0}) → Exec Doc (Unit {0})
close_block abort (ok u) d = (ok u, d)
close_block abort (err e) d = roll_back abort false e d

-- the end of a `with doc.transaction():` block, whose commit aborts after any failure
unfoldable pub after_block :
    Env → Exec Doc (Unit {0}) → Bool → Result (Unit {0}) → Exec Doc (Unit {0})
unfolding close_block
after_block env abort false r d = (r, d)
after_block env abort true (err e) d = roll_back abort false e d
after_block env abort true (ok u) d = let c = force_commit env false d in close_block abort c.0 c.1

-- `with doc.transaction(skip_undo): block`
unfoldable pub transaction_context :
    Env → Exec Doc (Unit {0}) → Exec Doc (Unit {0}) → Bool → Exec Doc (Unit {0})
unfolding check_stage begin after_block
transaction_context env abort block skip d = elim (check_stage d) [
  | err e ↦ (err e, d)
  | ok _ ↦
      let b = begin env skip d in
      elim b.0 [
        | err e ↦ (err e, b.1)
        | ok is_new ↦ let r = block b.1 in after_block env abort is_new r.0 r.1
      ]
]
