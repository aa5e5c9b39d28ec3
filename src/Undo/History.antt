-- ===== src/Undo/History.antt =====
-- Export and import of the history, and two corners of the bounds.
use atomdoc.Prelude.{
  ℕ, ◌+◌, ◌≤◌, ◌<◌, String, ◌≡◌, refl, sym, ap, ◌∙◌, true, false, not, some, List, ◌∷◌, reverse,
  arith, ltb, str_eq_refl, if_elim, length, take-all,
}
use mathlib.Core.List.{reverse-reverse}
use mathlib.Core.Bool.{false≢true}
use atomdoc.Prelude.Exec.{ok}
use atomdoc.Types.{ChangeEvent}
use atomdoc.Undo.{
  UndoManager, UndoStackItem, updating, Host, record_update, on_change, redo, item_of, merge_item,
  import_stack, import_history, export_history,
}
use atomdoc.Undo.Steps.{IsQuiet, Commits, redo-quiet, redo_step-Commits}

import-reverse :
    (n : ℕ) (items : List UndoStackItem) → length items ≤ n → import_stack (reverse items) n ≡ items
unfolding import_stack
import-reverse n items h = rw (reverse-reverse items) (take-all n items h)

-- A history that one manager exported comes back whole in another that has room for it, at a
-- document of the same ID and type.
pub import-export :
    (m m' : UndoManager) (doc_id doc_type : String)
    → length m.undo_stack ≤ m'.max_steps
    → length m.redo_stack ≤ m'.max_steps
    → import_history m' doc_id doc_type (export_history m doc_id doc_type)
      ≡ ok (record m' {
        undo_stack = m.undo_stack;
        redo_stack = m.redo_stack;
        last_update = m.last_update;
        tx_type = updating;
      })
unfolding import_history export_history
import-export m m' i t hu hr =
    rw (str_eq_refl i, str_eq_refl t)
      (rw (import-reverse m'.max_steps m.undo_stack hu, import-reverse m'.max_steps m.redo_stack hr)
        refl)

-- Where the undo stack is full, a redo that commits makes it longer than `max_steps`.
pub redo-exceeds :
    (host : Host) (m : UndoManager) (d : host.Document) (item : UndoStackItem)
    (rest : List UndoStackItem) (now : ℕ) (e : ChangeEvent)
    → length m.undo_stack ≡ m.max_steps
    → IsQuiet host d
    → Commits host item.operations (host.force_commit d).1 now e
    → length (redo host (record m { redo_stack = item ∷ rest }) d).1.undo_stack ≡ m.max_steps + 1
redo-exceeds host m d item rest now e full q c =
    rw
      (redo-quiet host (record m { redo_stack = item ∷ rest }) d q
        ∙ redo_step-Commits host m (host.force_commit d).1 item rest now e c)
      (omega (arith, full))

abbrev pub idle_at : UndoManager → ℕ → UndoStackItem → List UndoStackItem → UndoManager
idle_at m last item rest = record m {
  merge_interval = 0;
  last_update = some last;
  tx_type = updating;
  undo_stack = item ∷ rest;
}

-- Where the clock has gone back, an update is merged into the step before it, though the merge
-- interval is 0.
pub on_change-merges_back :
    (m : UndoManager) (now last : ℕ) (e : ChangeEvent) (item : UndoStackItem)
    (rest : List UndoStackItem)
    → e.flags.skip_undo ≡ false
    → m.accept e ≡ true
    → now < last
    → (on_change (idle_at m last item rest) now e).undo_stack ≡ merge_item (item_of e) item ∷ rest
unfolding on_change record_update
on_change-merges_back m now last e item rest k a h =
    if_elim (λ (r : UndoManager). r.undo_stack ≡ merge_item (item_of e) item ∷ rest)
      e.flags.skip_undo _ _ (λ t. absurd (false≢true (sym k ∙ t)))
      λ _.
        if_elim (λ (r : UndoManager). r.undo_stack ≡ merge_item (item_of e) item ∷ rest)
          (not (m.accept e)) _ _ (λ t. absurd (false≢true (sym (ap not a) ∙ t)))
          λ _.
            if_elim (λ r. r ≡ merge_item (item_of e) item ∷ rest) (ltb now (last + 0)) _ _
              (λ _. refl) (λ t. absurd (ground arith))
