-- ===== src/Undo/Document.antt =====
-- _undo.py: the undo manager that drives the document of this library.
use atomdoc.Prelude.{
  ℕ, ◌-◌, ◌==◌, ◌≡◌, ap, ◌≢◌, true, false, none, List, [], ◌∷◌, arith, take, length, if◌then◌else◌,
}
use mathlib.Core.Path.{subst}
use atomdoc.Prelude.Exec.{Result, ok, err, Error, listener_error}
use atomdoc.Types.{ChangeEvent, Operations}
use atomdoc.Doc.{Doc}
use atomdoc.Doc.Env.{Env}
use atomdoc.Doc.Commit.{force_commit}
use atomdoc.Doc.Apply.{apply_operations}
use atomdoc.Doc.Lifecycle.{Closed, Ends, force_commit-Ends}
use atomdoc.Doc.Refusal.{IsRefused, QuietNormalizers, apply_operations-RefusesSilently}
use atomdoc.Undo.{UndoManager, UndoStackItem, Host, Heard, undo, redo}
use atomdoc.Undo.Steps.{with_stacks, undo-refused}
use atomdoc.Undo.Bounds.{IsBounded, FailsSilently, undo-IsBounded, redo-IsBounded}

-- what the listener `l` heard, the newest event first, as events at the time `now`, the earliest first
heard_by : ℕ → ℕ → List (ℕ × ChangeEvent) → Heard → Heard
heard_by l now [] heard = heard
heard_by l now ((k, e) ∷ es) heard = heard_by l now es (if k == l then (now, e) ∷ heard else heard)

-- what it heard in a call that led from one document to the other
unfoldable pub heard_since : ℕ → ℕ → Doc → Doc → Heard
unfolding heard_by
heard_since l now d d1 = heard_by l now (take (length d1.heard - length d.heard) d1.heard) []

abbrev pub without_value {ℓ} : {A : Type ℓ} → Result A → Result (Unit {0})
without_value (ok _) = ok tt
without_value (err e) = err e

-- the document, with the manager as the listener `l`, in calls at the time `now`
abbrev pub document_host : Env → ℕ → ℕ → Host
document_host env l now = record {
  Document = Doc;
  force_commit = λ d. let r = force_commit env false d in (r.0, r.1, heard_since l now d r.1);
  apply_operations = λ ops d.
      let r = apply_operations env (ops ∷ []) none false false true d in
      (without_value r.0, r.1, heard_since l now d r.1);
}

abbrev pub undo_document : Env → ℕ → ℕ → UndoManager → Doc → Result (Unit {0}) × UndoManager × Doc
undo_document env l now = undo (document_host env l now)

abbrev pub redo_document : Env → ℕ → ℕ → UndoManager → Doc → Result (Unit {0}) × UndoManager × Doc
redo_document env l now = redo (document_host env l now)

heard_since-same : (l now : ℕ) (d d1 : Doc) → d1.heard ≡ d.heard → heard_since l now d d1 ≡ []
unfolding heard_since heard_by
heard_since-same l now d d1 e =
    rw e (ap (λ n. heard_by l now (take n d.heard) []) (zero_of (length d.heard)))
  where
    zero_of : (n : ℕ) → n - n ≡ 0
    zero_of n = omega arith

without_value-IsRefused :
    (r : Result (List Operations)) (e : Error)
    → without_value r ≡ err e
    → ((ns : List ℕ) → e ≢ listener_error ns)
    → IsRefused r
without_value-IsRefused (ok _) e h n = absurd cc
without_value-IsRefused (err (listener_error ns)) e h n = n ns cc
without_value-IsRefused (err x) e h n = tt

module _ (env : Env) (l now : ℕ) (quiet : QuietNormalizers env) where
  document-FailsSilently :
      (d : Doc)
      → (force_commit env false d).0 ≡ ok tt
      → (ops : Operations)
      → FailsSilently (document_host env l now) ops (force_commit env false d).1
  document-FailsSilently d committed ops e h n =
      let d1 = (force_commit env false d).1 in
      let closed : Closed d1 = subst (λ r. Ends env r d1) committed (force_commit-Ends env d) in
      heard_since-same l now d1 (apply_operations env (ops ∷ []) none false false true d1).1 (
        apply_operations-RefusesSilently env quiet ops d1 closed.stage
          (without_value-IsRefused _ e h n))

  -- An undo on a document, whose normalizers commit nothing, keeps the undo and redo stacks together within
  -- `max_steps`: whatever is pending and whether its commit fails, and whether the step commits, is
  -- refused and rolled back, or commits and listeners fail.
  pub undo_document-IsBounded :
      (m : UndoManager) (d : Doc) → IsBounded m → IsBounded (undo_document env l now m d).1
  undo_document-IsBounded m d =
      undo-IsBounded (document_host env l now) m d (document-FailsSilently d)

  -- A redo on a document, whose normalizers commit nothing, keeps the undo and redo stacks together within
  -- `max_steps`: whatever is pending and whether its commit fails, and whether the step commits, is
  -- refused and rolled back, or commits and listeners fail.
  pub redo_document-IsBounded :
      (m : UndoManager) (d : Doc) → IsBounded m → IsBounded (redo_document env l now m d).1
  redo_document-IsBounded m d =
      redo-IsBounded (document_host env l now) m d (document-FailsSilently d)

  -- Where nothing is pending on a document, whose normalizers commit nothing, a step that it refuses with an
  -- error that is not the listeners' stays: undo raises the error, both stacks are as before, and
  -- the manager awaits updates again.
  pub undo_document-refused :
      (m : UndoManager) (d : Doc) (item : UndoStackItem) (rest : List UndoStackItem) (e : Error)
      → (force_commit env false d).0 ≡ ok tt
      → (force_commit env false d).1.heard ≡ d.heard
      → let r =
          apply_operations env
            (item.operations ∷ [])
            none
            false
            false
            true
            (force_commit env false d).1 in
        r.0 ≡ err e
        → ((ns : List ℕ) → e ≢ listener_error ns)
        → undo_document env l now (record m { undo_stack = item ∷ rest }) d
          ≡ (err e, with_stacks (document_host env l now) m (item ∷ rest) m.redo_stack, r.1)
  undo_document-refused m d item rest e committed same refused n =
      undo-refused (document_host env l now) m d item rest e
        (record {
          outcome = committed;
          silent = heard_since-same l now d (force_commit env false d).1 same;
        })
        (record {
          outcome = ap without_value refused;
          silent =
              document-FailsSilently d committed item.operations e (ap without_value refused) n;
          no_listener = n;
        })
