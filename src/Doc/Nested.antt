-- ===== src/Doc/Nested.antt =====
-- Nested transactions, and the write of a field as a transaction.
use atomdoc.Prelude.{String, ◌≡◌, refl, sym, ◌∙◌, Bool, false, Option, none, some, [], ◌∷◌, if_elim}
use mathlib.Core.Path.{subst}
use atomdoc.Prelude.Exec.{Exec, Result, ok, err, modify}
use atomdoc.Prelude.Dict.{Dict, lookup, insert, remove, get_or, contains, mem}
use atomdoc.Types.{Stage, Value, value_eq}
use atomdoc.Links.{Ref}
use atomdoc.Doc.{Doc, set_state, state_of, get_node_by_id, id_of}
use atomdoc.Doc.Refs.{refs_update}
use atomdoc.Doc.Record.{
  patches_of, prune_inverse, keep_patch, on_set_state_inverse, on_set_state_forward, forward_patch,
  keep_patch, prune_inverse, patches_of, write_patch, inverse_patches_of, diff_of,
}
use atomdoc.Doc.Env.{Env}
use atomdoc.Doc.Transaction.{with_transaction, after_body, begin, check_stage, open_transaction}
use atomdoc.Doc.Apply.{
  abort, transact, is_current, current_value, is_ref_field, write_attached, write_field,
  set_node_state,
}
use atomdoc.Doc.Insert.{same_ref}
use atomdoc.Doc.Lifecycle.{Closed, transact-Closed}

module _ (env : Env) where
  joined_body :
      (swallow : Bool) (r : Result (Unit {0})) (d : Doc)
      → after_body env (abort env) swallow false r d ≡ (r, d)
  unfolding after_body
  joined_body swallow (ok u) d = refl
  joined_body swallow (err e) d = refl

  joined_update :
      (swallow : Bool) (fn : Exec Doc (Unit {0})) (d : Doc)
      → transact env swallow false fn (record d { stage = Stage.update })
        ≡ fn (record d { stage = Stage.update })
  unfolding transact with_transaction check_stage begin open_transaction
  joined_update swallow fn d =
      let r = fn (record d { stage = Stage.update }) in joined_body swallow r.0 r.1

-- Within an open transaction, a transaction without flags is no more than its body: it commits nothing,
-- and a failure of the body rolls back nothing and is passed on, even where the call swallows
-- failures.
pub transact-joined :
    (env : Env) (swallow : Bool) (fn : Exec Doc (Unit {0})) (d : Doc)
    → d.stage ≡ Stage.update
    → transact env swallow false fn d ≡ fn d
transact-joined env swallow fn d h =
    subst
      (λ s. transact env swallow false fn (record d { stage = s }) ≡ fn (record d { stage = s }))
      (sym h) (joined_update env swallow fn d)

on_set_state_inverse-stage :
    (d : Doc) (x : Ref) (key : String) → (on_set_state_inverse d x key).stage ≡ d.stage
unfolding on_set_state_inverse
on_set_state_inverse-stage d x key =
    if_elim (λ (r : Doc). r.stage ≡ d.stage) (mem (diff_of d).inserted (id_of d x)) d _ (λ _. refl)
      (λ _.
        if_elim (λ (r : Doc). r.stage ≡ d.stage)
          (contains (get_or (inverse_patches_of d) (id_of d x) []) key) d _ (λ _. refl) (λ _. refl))

write_patch-stage : (d : Doc) (i key : String) (v : Value) → (write_patch d i key v).stage ≡ d.stage
write_patch-stage d i key v =
    if_elim (λ (r : Doc). r.stage ≡ d.stage) (mem (diff_of d).inserted i) _ _ (λ _. refl)
      (λ _. refl)

keep_patch-stage : (d : Doc) (i : String) (p : Dict Value) → (keep_patch d i p).stage ≡ d.stage
keep_patch-stage d i [] = refl
keep_patch-stage d i (e ∷ es) = refl

prune_inverse-stage :
    (d : Doc) (i key : String) (o : Option (Dict Value)) → (prune_inverse d i key o).stage ≡ d.stage
prune_inverse-stage d i key none = refl
prune_inverse-stage d i key (some p) = refl

forward_patch-stage :
    (d : Doc) (i key : String) (prev new : Value) (o : Option (Dict Value))
    → (forward_patch d i key prev new o).stage ≡ d.stage
forward_patch-stage d i key prev new none = write_patch-stage d i key new
forward_patch-stage d i key prev new (some p) =
    if_elim (λ (r : Doc). r.stage ≡ d.stage) (value_eq prev new) _ _
      (λ _.
        prune_inverse-stage (keep_patch d i (remove p key)) i key (lookup (inverse_patches_of d) i)
        ∙ keep_patch-stage d i (remove p key))
      (λ _. write_patch-stage d i key new)

on_set_state_forward-stage :
    (d : Doc) (x : Ref) (key : String) → (on_set_state_forward d x key).stage ≡ d.stage
unfolding on_set_state_forward
on_set_state_forward-stage d x key =
    forward_patch-stage d _ key _ _ (lookup (patches_of d) (id_of d x))

write_attached-stage :
    (x : Ref) (key : String) (v : Value) (d : Doc) → (write_attached x key v d).stage ≡ d.stage
unfolding write_attached refs_update set_state
write_attached-stage x key v d =
    let d1 = on_set_state_inverse d x key in
    let forward =
      on_set_state_forward-stage (set_state d1 x (insert (state_of d1 x) key v)) x key
      ∙ on_set_state_inverse-stage d x key in
    if_elim (λ (r : Doc). r.stage ≡ d.stage) (is_ref_field d x key) _ _ (λ _. forward)
      (λ _. forward)

pub write_field-stage :
    (x : Ref) (key : String) (v : Value) (d : Doc) → (write_field x key v d).stage ≡ d.stage
unfolding write_field set_state
write_field-stage x key v d =
    if_elim (λ (r : Doc). r.stage ≡ d.stage) (is_current (current_value d x key) v) d _ (λ _. refl)
      (λ _.
        if_elim (λ (r : Doc). r.stage ≡ d.stage) (same_ref (get_node_by_id d (id_of d x)) (some x))
          _ _ (λ _. write_attached-stage x key v d) (λ _. refl))

-- The write of a field of a closed document leaves the document closed, whatever the normalizers, the
-- checks of the commit and the listeners do.
pub set_node_state-Closed :
    (env : Env) (x : Ref) (key : String) (v : Value) (d : Doc)
    → Closed d
    → Closed ((set_node_state env x key v d).1)
unfolding set_node_state
set_node_state-Closed env x key v d c =
    transact-Closed env false false (modify (write_field x key v)) d
      (λ d' u i. absurd (update_idle (sym u ∙ sym (write_field-stage x key v d') ∙ i))) c
  where
    update_idle : Stage.update ≡ Stage.idle → ⊥
    update_idle e = cc
