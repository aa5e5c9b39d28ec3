-- ===== src/Doc/Lifecycle.antt =====
-- How a transaction ends: on every path the document is idle, and nothing recorded is left.
use atomdoc.Prelude.{◌≡◌, refl, sym, ◌∙◌, Bool, true, false, if_elim}
use mathlib.Core.Path.{subst}
use atomdoc.Prelude.Exec.{Exec, Result, ok, err, listener_error}
use atomdoc.Types.{Stage}
use atomdoc.Doc.{Doc, empty_tx, stage_eq, close_transaction}
use atomdoc.Doc.Refs.{rebuild_ref_index, rebuild_ref_index-keeps}
use atomdoc.Doc.Env.{Env}
use atomdoc.Doc.Commit.{force_commit, close_commit, maybe_trigger_listeners, set_stage}
use atomdoc.Doc.Transaction.{
  with_transaction, transaction_context, after_commit, after_body, after_block, close_block, begin,
  check_stage, open_transaction,
}
use atomdoc.Doc.Apply.{abort, undo_recorded, transact}

pub record Closed (d : Doc) : Type 0 where
  pub stage : d.stage ≡ Stage.idle
  pub tx : d.tx ≡ empty_tx

-- An idle document has nothing recorded.
abbrev pub Settled : Doc → Type 0
Settled d = d.stage ≡ Stage.idle → d.tx ≡ empty_tx

-- The body leaves the transaction open, or it closed it.
abbrev pub Tame : Exec Doc (Unit {0}) → Type 0
Tame fn = (d : Doc) → d.stage ≡ Stage.update → Settled ((fn d).1)

stage_eq-idle : (s : Stage) → stage_eq s Stage.idle ≡ true → s ≡ Stage.idle
stage_eq-idle Stage.idle e = refl
stage_eq-idle Stage.init e = cc
stage_eq-idle Stage.update e = cc
stage_eq-idle Stage.normalize e = cc
stage_eq-idle Stage.normalize2 e = cc
stage_eq-idle Stage.change e = cc
stage_eq-idle Stage.disposed e = cc

stage_eq-change : (s : Stage) → stage_eq s Stage.change ≡ true → s ≡ Stage.change
stage_eq-change Stage.change e = refl
stage_eq-change Stage.init e = cc
stage_eq-change Stage.update e = cc
stage_eq-change Stage.normalize e = cc
stage_eq-change Stage.normalize2 e = cc
stage_eq-change Stage.idle e = cc
stage_eq-change Stage.disposed e = cc

module _ (env : Env) where
  closing : (d : Doc) → Closed (rebuild_ref_index (close_transaction d))
  unfolding close_transaction
  closing d = record {
    stage = (rebuild_ref_index-keeps (close_transaction d)).0;
    tx = (rebuild_ref_index-keeps (close_transaction d)).1;
  }

  abort-Closed : (d : Doc) → Settled d → Closed ((abort env d).1)
  unfolding abort
  abort-Closed d h =
      if_elim (λ (r : Result (Unit {0}) × Doc). Closed r.1) (stage_eq d.stage Stage.idle) (ok tt, d)
        _ (λ e. let i = stage_eq-idle d.stage e in record { stage = i; tx = h i })
        (λ _. closing ((undo_recorded env d).1))

  close_commit-Closed :
      (swallow : Bool) (r : Result (Unit {0})) (d : Doc)
      → Closed ((after_commit (abort env) swallow (close_commit r d).0 (close_commit r d).1).1)
  unfolding after_commit close_transaction
  close_commit-Closed swallow (ok u) d = record { stage = refl; tx = refl }
  close_commit-Closed swallow (err e) d =
      elim e
        as (λ k. Closed (
          (after_commit (abort env) swallow (close_commit (err k) d).0
            (close_commit (err k) d).1).1)) [
              | listener_error ns ↦ record { stage = refl; tx = refl }
              | _ ↦ abort-Closed (set_stage Stage.update d) (λ e'. cc)
            ]

  force_commit-Closed :
      (swallow : Bool) (d : Doc)
      → Closed (
          (after_commit
            (abort env)
            swallow
            (force_commit env false d).0
            (force_commit env false d).1).1)
  unfolding after_commit force_commit
  force_commit-Closed swallow d =
      if_elim
        (λ (c : Result (Unit {0}) × Doc). Closed ((after_commit (abort env) swallow c.0 c.1).1))
        (stage_eq d.stage Stage.change) _ _
        (λ e.
          let s = stage_eq-change d.stage e in
          abort-Closed d (λ i. absurd (change_idle (sym s ∙ i))))
        (λ _.
          let r = maybe_trigger_listeners env false (set_stage Stage.idle d) in
          close_commit-Closed swallow r.0 r.1)
    where
      change_idle : Stage.change ≡ Stage.idle → ⊥
      change_idle e = cc

  after_body-Closed :
      (swallow : Bool) (r : Result (Unit {0})) (d : Doc)
      → Settled d
      → Closed ((after_body env (abort env) swallow true r d).1)
  unfolding after_body
  after_body-Closed swallow (ok u) d h = force_commit-Closed swallow d
  after_body-Closed swallow (err e) d h = abort-Closed d h

  transact_idle :
      (fn : Exec Doc (Unit {0}))
      → Tame fn
      → (swallow skip : Bool) (d : Doc)
      → Closed ((transact env swallow skip fn (record d { stage = Stage.idle; tx = empty_tx })).1)
  unfolding transact with_transaction check_stage begin open_transaction
  transact_idle fn h swallow true d =
      let r = fn (open_transaction true (record d { stage = Stage.idle; tx = empty_tx })).1 in
      after_body-Closed swallow r.0 r.1 (h _ refl)
  transact_idle fn h swallow false d =
      let r = fn (open_transaction false (record d { stage = Stage.idle; tx = empty_tx })).1 in
      after_body-Closed swallow r.0 r.1 (h _ refl)

  -- what a commit leaves, by its outcome
  abbrev pub Ends : Result (Unit {0}) → Doc → Type 0
  Ends (ok u) d = Closed d
  Ends (err e) d = Settled d

  close_commit-Ends :
      (r : Result (Unit {0})) (d : Doc) → Ends (close_commit r d).0 (close_commit r d).1
  unfolding close_transaction
  close_commit-Ends (ok u) d = record { stage = refl; tx = refl }
  close_commit-Ends (err e) d =
      elim e as (λ k. Ends (close_commit (err k) d).0 (close_commit (err k) d).1) [
        | listener_error ns ↦ λ _. refl
        | _ ↦ λ e'. cc
      ]

  pub force_commit-Ends : (d : Doc) → Ends (force_commit env false d).0 (force_commit env false d).1
  unfolding force_commit
  force_commit-Ends d =
      if_elim (λ (c : Result (Unit {0}) × Doc). Ends c.0 c.1) (stage_eq d.stage Stage.change) _ _
        (λ e i. absurd (change_idle (sym (stage_eq-change d.stage e) ∙ i)))
        (λ _.
          let r = maybe_trigger_listeners env false (set_stage Stage.idle d) in
          close_commit-Ends r.0 r.1)
    where
      change_idle : Stage.change ≡ Stage.idle → ⊥
      change_idle e = cc

  close_block-Closed :
      (r : Result (Unit {0})) (d : Doc) → Ends r d → Closed ((close_block (abort env) r d).1)
  unfolding close_block
  close_block-Closed (ok u) d h = h
  close_block-Closed (err e) d h = abort-Closed d h

  after_block-Closed :
      (r : Result (Unit {0})) (d : Doc)
      → Settled d
      → Closed ((after_block env (abort env) true r d).1)
  unfolding after_block
  after_block-Closed (err e) d h = abort-Closed d h
  after_block-Closed (ok u) d h =
      let c = force_commit env false d in close_block-Closed c.0 c.1 (force_commit-Ends d)

  context_idle :
      (block : Exec Doc (Unit {0}))
      → Tame block
      → (skip : Bool) (d : Doc)
      → Closed (
          (transaction_context env
            (abort env)
            block
            skip
            (record d { stage = Stage.idle; tx = empty_tx })).1)
  unfolding transaction_context check_stage begin open_transaction
  context_idle block h true d =
      let r = block (open_transaction true (record d { stage = Stage.idle; tx = empty_tx })).1 in
      after_block-Closed r.0 r.1 (h _ refl)
  context_idle block h false d =
      let r = block (open_transaction false (record d { stage = Stage.idle; tx = empty_tx })).1 in
      after_block-Closed r.0 r.1 (h _ refl)

-- a statement on a document that is closed, from the statement on every document written out so
by_closed :
    (P : Doc → Type 0)
    → ((d : Doc) → P (record d { stage = Stage.idle; tx = empty_tx }))
    → (d : Doc) → Closed d
    → P d
by_closed P f d c =
    subst (λ s. P (record d { stage = s })) (sym c.stage)
      (subst (λ t. P (record d { stage = Stage.idle; tx = t })) (sym c.tx) (f d))

-- A transaction of a closed document leaves it closed, whatever its body, the normalizers, the checks
-- and the listeners do, if the body either leaves it open or has nothing left recorded.
pub transact-Closed :
    (env : Env) (swallow skip : Bool) (fn : Exec Doc (Unit {0})) (d : Doc)
    → Tame fn
    → Closed d
    → Closed ((transact env swallow skip fn d).1)
transact-Closed env swallow skip fn d h c =
    by_closed (λ d. Closed ((transact env swallow skip fn d).1))
      (transact_idle env fn h swallow skip) d c

-- A `with doc.transaction(): block` leaves a closed document closed, whatever the block, the
-- normalizers, the checks, the listeners and the rollback do, if the block either leaves the
-- transaction open or has nothing left recorded.
pub transaction_context-Closed :
    (env : Env) (skip : Bool) (block : Exec Doc (Unit {0})) (d : Doc)
    → Tame block
    → Closed d
    → Closed ((transaction_context env (abort env) block skip d).1)
transaction_context-Closed env skip block d h c =
    by_closed (λ d. Closed ((transaction_context env (abort env) block skip d).1))
      (context_idle env block h skip) d c
