-- ===== src/Undo/Steps.antt =====
-- What one undo or redo does to the stacks.
use atomdoc.Prelude.{ℕ, ◌≡◌, refl, sym, ap, ◌∙◌, ◌≢◌, false, none, List, [], ◌∷◌, if_elim}
use atomdoc.Prelude.Exec.{Result, ok, err, Error, listener_error}
use atomdoc.Types.{ChangeEvent, Operations}
use atomdoc.Undo.{
  UndoManager, UndoStackItem, undoing, redoing, updating, Host, on_change, hear, undo, redo,
  undo_step, redo_step, undo_outcome, item_of,
}
use mathlib.Core.Bool.{false≢true}

module _ (host : Host) where
  open host use {Document, force_commit, apply_operations}

  -- Nothing is pending: the commit in front of a step delivers nothing.
  pub record IsQuiet (d : Document) : Type 0 where
    pub outcome : (force_commit d).0 ≡ ok tt
    pub silent : (force_commit d).2 ≡ []

  -- The step applies, and its commit delivers the one event `e`.
  pub record Commits (ops : Operations) (d : Document) (now : ℕ) (e : ChangeEvent) : Type 0 where
    pub outcome : (apply_operations ops d).0 ≡ ok tt
    pub event : (apply_operations ops d).2 ≡ (now, e) ∷ []
    pub kept : e.flags.skip_undo ≡ false

  -- The step is refused before anything is delivered.
  pub record Refuses (ops : Operations) (d : Document) (e : Error) : Type 0 where
    pub outcome : (apply_operations ops d).0 ≡ err e
    pub silent : (apply_operations ops d).2 ≡ []
    pub no_listener : (ns : List ℕ) → e ≢ listener_error ns

  abbrev pub with_stacks : UndoManager → List UndoStackItem → List UndoStackItem → UndoManager
  with_stacks m us rs = record m {
    undo_stack = us;
    redo_stack = rs;
    tx_type = updating;
    last_update = none;
  }

  pub undo-quiet :
      (m : UndoManager) (d : Document)
      → IsQuiet d
      → undo host m d ≡ undo_step host m (force_commit d).1
  unfolding undo hear
  undo-quiet m d q = rw (q.outcome, undo) (rw q.silent)

  pub redo-quiet :
      (m : UndoManager) (d : Document)
      → IsQuiet d
      → redo host m d ≡ redo_step host m (force_commit d).1
  unfolding redo hear
  redo-quiet m d q = rw (q.outcome, redo) (rw q.silent)

  hear_undoing :
      (m : UndoManager) (now : ℕ) (e : ChangeEvent)
      → e.flags.skip_undo ≡ false
      → hear (record m { tx_type = undoing }) ((now, e) ∷ [])
        ≡ record m { redo_stack = item_of e ∷ m.redo_stack; tx_type = updating }
  unfolding hear on_change
  hear_undoing m now e k =
      if_elim (λ r. r ≡ record m { redo_stack = item_of e ∷ m.redo_stack; tx_type = updating })
        e.flags.skip_undo _ _ (λ t. absurd (false≢true (sym k ∙ t))) (λ _. refl)

  hear_redoing :
      (m : UndoManager) (now : ℕ) (e : ChangeEvent)
      → e.flags.skip_undo ≡ false
      → hear (record m { tx_type = redoing }) ((now, e) ∷ [])
        ≡ record m { undo_stack = item_of e ∷ m.undo_stack; tx_type = updating }
  unfolding hear on_change
  hear_redoing m now e k =
      if_elim (λ r. r ≡ record m { undo_stack = item_of e ∷ m.undo_stack; tx_type = updating })
        e.flags.skip_undo _ _ (λ t. absurd (false≢true (sym k ∙ t))) (λ _. refl)

  pub undo_step-Commits :
      (m : UndoManager) (d : Document) (item : UndoStackItem) (rest : List UndoStackItem) (now : ℕ)
      (e : ChangeEvent)
      → Commits item.operations d now e
      → undo_step host (record m { undo_stack = item ∷ rest }) d ≡ (
        ok tt,
        with_stacks m rest (item_of e ∷ m.redo_stack),
        (apply_operations item.operations d).1,
      )
  unfolding undo_step
  undo_step-Commits m d item rest now e c = rw (
    c.event,
    c.outcome,
    hear_undoing (record m { undo_stack = rest; last_update = none }) now e c.kept,
  )

  pub redo_step-Commits :
      (m : UndoManager) (d : Document) (item : UndoStackItem) (rest : List UndoStackItem) (now : ℕ)
      (e : ChangeEvent)
      → Commits item.operations d now e
      → redo_step host (record m { redo_stack = item ∷ rest }) d ≡ (
        ok tt,
        with_stacks m (item_of e ∷ m.undo_stack) rest,
        (apply_operations item.operations d).1,
      )
  unfolding redo_step
  redo_step-Commits m d item rest now e c = rw (
    c.event,
    c.outcome,
    hear_redoing (record m { redo_stack = rest; last_update = none }) now e c.kept,
  )

  -- Where nothing is pending, a step that the document refuses with an error that is not the listeners',
  -- before it tells anyone of a commit, stays: undo raises the error, and both stacks are as before.
  pub undo-refused :
      (m : UndoManager) (d : Document) (item : UndoStackItem) (rest : List UndoStackItem)
      (e : Error)
      → IsQuiet d
      → Refuses item.operations (force_commit d).1 e
      → undo host (record m { undo_stack = item ∷ rest }) d ≡ (
        err e,
        with_stacks m (item ∷ rest) m.redo_stack,
        (apply_operations item.operations (force_commit d).1).1,
      )
  unfolding undo_step
  undo-refused m d item rest e q r =
      undo-quiet (record m { undo_stack = item ∷ rest }) d q
      ∙ rw (r.silent, r.outcome) (unfold hear in outcome e r.no_listener)
    where
      outcome :
          (e : Error)
          → ((ns : List ℕ) → e ≢ listener_error ns)
          → ◌≡◌ {A = Result (Unit {0}) × UndoManager × Document}
              (
                err e,
                undo_outcome host item
                    (err e)
                    (record m { undo_stack = rest; tx_type = undoing; last_update = none }),
                (apply_operations item.operations (force_commit d).1).1,
              )
              (
                err e,
                with_stacks m (item ∷ rest) m.redo_stack,
                (apply_operations item.operations (force_commit d).1).1,
              )
      outcome (listener_error ns) n = absurd (n ns refl)
      outcome _ n = refl

  -- Undo and then redo, where nothing else is pending and each of the two commits and delivers one event:
  -- on the undo stack the step that was taken back is replaced by the inverse of what the redo
  -- committed, and the redo stack is as before.
  pub redo-undo :
      (m : UndoManager) (d : Document) (item : UndoStackItem) (rest : List UndoStackItem)
      (now now' : ℕ) (e e' : ChangeEvent)
      → IsQuiet d
      → Commits item.operations (force_commit d).1 now e
      → IsQuiet (apply_operations item.operations (force_commit d).1).1
      → Commits e.inverse_operations
          (force_commit (apply_operations item.operations (force_commit d).1).1).1
          now'
          e'
      → (redo host
          (undo host (record m { undo_stack = item ∷ rest }) d).1
          (undo host (record m { undo_stack = item ∷ rest }) d).2).1
        ≡ with_stacks m (item_of e' ∷ rest) m.redo_stack
  redo-undo m d item rest now now' e e' q c q' c' =
      let one =
        undo-quiet (record m { undo_stack = item ∷ rest }) d q
        ∙ undo_step-Commits m (force_commit d).1 item rest now e c in
      let d1 = (apply_operations item.operations (force_commit d).1).1 in
      let m1 = with_stacks m rest (item_of e ∷ m.redo_stack) in
      rw one (
        ap (λ (r : Result (Unit {0}) × UndoManager × Document). r.1)
          (redo-quiet m1 d1 q'
            ∙ redo_step-Commits m1 (force_commit d1).1 (item_of e) m.redo_stack now' e' c'))
