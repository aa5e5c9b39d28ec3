-- ===== src/Undo/Bounds.antt =====
-- The stacks stay within `max_steps`.
use atomdoc.Prelude.{
  ℕ, ◌+◌, ◌-◌, ◌≤◌, ◌<◌, ◌≡◌, refl, ◌≢◌, inl, inr, none, List, [], ◌∷◌, arith, Bool-cases, if_elim,
  length-take-le, length,
}
use atomdoc.Prelude.Exec.{Result, ok, err, Error, listener_error}
use atomdoc.Types.{ChangeEvent, Operations}
use atomdoc.Undo
use atomdoc.Undo.{
  UndoManager, UndoStackItem, TxType, undoing, redoing, updating, Host, Heard, push_bounded,
  record_update, on_change, hear, undo, redo, undo_step, redo_step, undo_outcome, redo_outcome,
  new_manager, item_of, by_type, within_interval, merge_item,
}

-- one while the commit of an undo or a redo is awaited
abbrev pub pending : TxType → ℕ
pending updating = 0
pending undoing = 1
pending redoing = 1

pub record IsBounded (m : UndoManager) : Type 0 where
  pub positive : 0 < m.max_steps
  pub fits : length m.undo_stack + length m.redo_stack + pending m.tx_type ≤ m.max_steps

length-push_bounded :
    (max : ℕ) (s : List UndoStackItem) (item : UndoStackItem)
    → 0 < max
    → length s ≤ max
    → length (push_bounded max s item) ≤ max
unfolding push_bounded
length-push_bounded max s item p h = ground (arith, length-take-le (length s - 1) s)

length-record_update :
    (m : UndoManager) (now : ℕ) (item : UndoStackItem)
    → 0 < m.max_steps
    → length m.undo_stack ≤ m.max_steps
    → length (record_update m now item) ≤ m.max_steps
unfolding record_update
length-record_update m now item p h = go m.undo_stack h
  where
    go :
        (s : List UndoStackItem)
        → length s ≤ m.max_steps
        → length (record_update (record m { undo_stack = s }) now item) ≤ m.max_steps
    go [] h = length-push_bounded m.max_steps [] item p h
    go (last ∷ rest) h = elim (Bool-cases (within_interval m now)) [
      | inl yes' ↦ rw yes' h
      | inr no' ↦ rw no' (length-push_bounded m.max_steps (last ∷ rest) item p h)
    ]

by_type-IsBounded :
    (m : UndoManager) (t : TxType) (now : ℕ) (item : UndoStackItem)
    → 0 < m.max_steps
    → length m.undo_stack + length m.redo_stack + pending t ≤ m.max_steps
    → t ≡ m.tx_type
    → IsBounded (by_type t m now item)
by_type-IsBounded m updating now item p h e =
    let l = length-record_update m now item p (omega arith) in
    record { positive = p; fits = ground (arith, e) }
by_type-IsBounded m undoing now item p h e = omega arith
by_type-IsBounded m redoing now item p h e = omega arith

pub on_change-IsBounded :
    {m : UndoManager} (now : ℕ) (e : ChangeEvent) → IsBounded m → IsBounded (on_change m now e)
unfolding on_change
on_change-IsBounded {m} now e b =
    if_elim IsBounded e.flags.skip_undo m _ (λ _. b)
      λ _.
        if_elim IsBounded (Undo.is_declined m e) m _ (λ _. b)
          λ _. by_type-IsBounded m m.tx_type now (item_of e) b.positive b.fits refl

pub hear-IsBounded : (es : Heard) {m : UndoManager} → IsBounded m → IsBounded (hear m es)
unfolding hear
hear-IsBounded [] b = b
hear-IsBounded ((now, e) ∷ es) b = hear-IsBounded es (on_change-IsBounded now e b)

settled : {m : UndoManager} → IsBounded m → IsBounded (record m { tx_type = updating })
settled b = record { positive = b.positive; fits = omega arith }

module _ (host : Host) where
  open host use {Document, force_commit, apply_operations}

  -- Where a step fails with an error that is not the listeners', it was not committed: it delivered nothing.
  abbrev pub FailsSilently : Operations → Document → Type 0
  FailsSilently ops d =
      (e : Error)
      → (apply_operations ops d).0 ≡ err e
      → ((ns : List ℕ) → e ≢ listener_error ns)
      → (apply_operations ops d).2 ≡ []

  undo_outcome-IsBounded :
      (item : UndoStackItem) (r : Result (Unit {0})) (es : Heard) (m : UndoManager)
      → ((e : Error) → r ≡ err e → ((ns : List ℕ) → e ≢ listener_error ns) → es ≡ [])
      → IsBounded (record m { tx_type = undoing })
      → IsBounded (undo_outcome host item r (hear (record m { tx_type = undoing }) es))
  undo_outcome-IsBounded item (ok u) es m silent b = settled (hear-IsBounded es b)
  undo_outcome-IsBounded item (err (listener_error ns)) es m silent b =
      settled (hear-IsBounded es b)
  undo_outcome-IsBounded item (err e) es m silent b =
      rw (silent e refl (λ ns. cc)) (unfold hear in omega arith)

  undo_step-IsBounded :
      (m : UndoManager) (d : Document)
      → ((ops : Operations) → FailsSilently ops d)
      → IsBounded m
      → IsBounded (undo_step host m d).1
  unfolding undo_step
  undo_step-IsBounded m d f b = go m.undo_stack b
    where
      go :
          (s : List UndoStackItem)
          → IsBounded (record m { undo_stack = s })
          → IsBounded (undo_step host (record m { undo_stack = s }) d).1
      go [] b = b
      go (item ∷ rest) b =
          undo_outcome-IsBounded item (apply_operations item.operations d).0
            (apply_operations item.operations d).2
            (record m { undo_stack = rest; last_update = none }) (f item.operations)
            (record { positive = b.positive; fits = ground (arith, b.fits) })

  redo_outcome-IsBounded :
      (item : UndoStackItem) (r : Result (Unit {0})) (es : Heard) (m : UndoManager)
      → ((e : Error) → r ≡ err e → ((ns : List ℕ) → e ≢ listener_error ns) → es ≡ [])
      → IsBounded (record m { tx_type = redoing })
      → IsBounded (redo_outcome host item r (hear (record m { tx_type = redoing }) es))
  redo_outcome-IsBounded item (ok u) es m silent b = settled (hear-IsBounded es b)
  redo_outcome-IsBounded item (err (listener_error ns)) es m silent b =
      settled (hear-IsBounded es b)
  redo_outcome-IsBounded item (err e) es m silent b =
      rw (silent e refl (λ ns. cc)) (unfold hear in omega arith)

  redo_step-IsBounded :
      (m : UndoManager) (d : Document)
      → ((ops : Operations) → FailsSilently ops d)
      → IsBounded m
      → IsBounded (redo_step host m d).1
  unfolding redo_step
  redo_step-IsBounded m d f b = go m.redo_stack b
    where
      go :
          (s : List UndoStackItem)
          → IsBounded (record m { redo_stack = s })
          → IsBounded (redo_step host (record m { redo_stack = s }) d).1
      go [] b = b
      go (item ∷ rest) b =
          redo_outcome-IsBounded item (apply_operations item.operations d).0
            (apply_operations item.operations d).2
            (record m { redo_stack = rest; last_update = none }) (f item.operations)
            (record { positive = b.positive; fits = ground (arith, b.fits) })

  -- Undo keeps both stacks together within `max_steps`, whatever the document commits, also where the commit
  -- of what is pending fails, the step is refused or listeners fail, if a step that fails otherwise than
  -- by its listeners has delivered nothing.
  pub undo-IsBounded :
      (m : UndoManager) (d : Document)
      → ((force_commit d).0 ≡ ok tt → (ops : Operations) → FailsSilently ops (force_commit d).1)
      → IsBounded m
      → IsBounded (undo host m d).1
  unfolding undo
  undo-IsBounded m d f b = go (force_commit d).0 refl
    where
      m1 : UndoManager
      m1 = hear m (force_commit d).2

      go :
          (r : Result (Unit {0}))
          → (force_commit d).0 ≡ r
          → IsBounded
              (elim r as (λ _. Result (Unit {0}) × UndoManager × Document) [
                | err e ↦ (err e, m1, (force_commit d).1)
                | ok _ ↦ undo_step host m1 (force_commit d).1
              ]).1
      go (ok u) e =
          undo_step-IsBounded m1 (force_commit d).1 (f e) (hear-IsBounded (force_commit d).2 b)
      go (err x) e = hear-IsBounded (force_commit d).2 b

  -- Redo keeps both stacks together within `max_steps`, whatever the document commits, also where the commit
  -- of what is pending fails, the step is refused or listeners fail, if a step that fails otherwise than
  -- by its listeners has delivered nothing.
  pub redo-IsBounded :
      (m : UndoManager) (d : Document)
      → ((force_commit d).0 ≡ ok tt → (ops : Operations) → FailsSilently ops (force_commit d).1)
      → IsBounded m
      → IsBounded (redo host m d).1
  unfolding redo
  redo-IsBounded m d f b = go (force_commit d).0 refl
    where
      m1 : UndoManager
      m1 = hear m (force_commit d).2

      go :
          (r : Result (Unit {0}))
          → (force_commit d).0 ≡ r
          → IsBounded
              (elim r as (λ _. Result (Unit {0}) × UndoManager × Document) [
                | err e ↦ (err e, m1, (force_commit d).1)
                | ok _ ↦ redo_step host m1 (force_commit d).1
              ]).1
      go (ok u) e =
          redo_step-IsBounded m1 (force_commit d).1 (f e) (hear-IsBounded (force_commit d).2 b)
      go (err x) e = hear-IsBounded (force_commit d).2 b
