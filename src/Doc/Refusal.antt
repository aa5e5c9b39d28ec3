-- ===== src/Doc/Refusal.antt =====
-- A transaction that fails otherwise than by its listeners has told none of them.
use atomdoc.Prelude.{
  ℕ, ◌≡◌, refl, sym, ap, ◌∙◌, ◌⊎◌, inl, inr, Bool, not, ◌&&◌, true, false, none, List, [], ◌∷◌,
  ◌++◌, if_elim, Bool-cases, if◌then◌else◌,
}
use mathlib.Core.Path.{subst}
use atomdoc.Prelude.Exec.{
  Exec, Result, ok, err, Error, listener_error, continue, ◌>>◌, modify, done, for_each,
}
use atomdoc.Types.{Stage, Diff, Operations}
use atomdoc.Doc.{Doc, stage_eq, close_transaction}
use atomdoc.Doc.Refs.{rebuild_ref_index-heard, check_ref_integrity}
use atomdoc.Doc.Env.{Env}
use atomdoc.Doc.Commit.{
  force_commit, close_commit, maybe_trigger_listeners, finish_commit, second_pass, run_normalizers,
  has_changes, validate_changed_nodes, set_stage, notify, report,
}
use atomdoc.Doc.Transaction.{
  with_transaction, after_commit, after_body, begin, check_stage, open_transaction,
}
use atomdoc.Doc.Apply.{
  apply_journal, is_nothing, abort, join, undo_recorded, transact, on_apply_operations,
  apply_operations,
}
use atomdoc.Doc.Kept.{kept}
use atomdoc.Doc.Silence.{Quiet, Joins, stays}
use atomdoc.Doc.Replay.{on_apply_operations-Quiet}
use atomdoc.Doc.Nested.{transact-joined}

-- an error that is not the listeners'
abbrev pub IsRefused {ℓ} : {A : Type ℓ} → Result A → Type 0
IsRefused (ok _) = ⊥
IsRefused (err (listener_error _)) = ⊥
IsRefused (err _) = Unit

-- A call tells no listener.
abbrev Unheard : Exec Doc (Unit {0}) → Type 0
Unheard m = (d : Doc) → (m d).1.heard ≡ d.heard

-- A call that is refused has told no listener.
abbrev RefusesSilently : Exec Doc (Unit {0}) → Type 0
RefusesSilently m = (d : Doc) → IsRefused (m d).0 → (m d).1.heard ≡ d.heard

-- The normalizers commit nothing.
abbrev pub QuietNormalizers : Env → Type 0
QuietNormalizers env = (l : ℕ) (diff : Diff) (d : Doc) → (env.normalize l diff d).1.heard ≡ d.heard

continue-RefusesSilently :
    (r : Result (Unit {0})) (k : Exec Doc (Unit {0})) (d d1 : Doc)
    → RefusesSilently k
    → d1.heard ≡ d.heard
    → IsRefused (continue r (λ _. k) d1).0
    → (continue r (λ _. k) d1).1.heard ≡ d.heard
continue-RefusesSilently (ok u) k d d1 q e h = q d1 h ∙ e
continue-RefusesSilently (err x) k d d1 q e h = e

then-RefusesSilently :
    (m k : Exec Doc (Unit {0})) → Unheard m → RefusesSilently k → RefusesSilently (m >> k)
then-RefusesSilently m k q g d h = continue-RefusesSilently (m d).0 k d (m d).1 g (q d) h

continue-Unheard :
    (r : Result (Unit {0})) (k : Exec Doc (Unit {0})) (d d1 : Doc)
    → Unheard k
    → d1.heard ≡ d.heard
    → (continue r (λ _. k) d1).1.heard ≡ d.heard
continue-Unheard (ok u) k d d1 q e = q d1 ∙ e
continue-Unheard (err x) k d d1 q e = e

for_each-Unheard :
    {A : Type 0} (xs : List A) (body : A → Exec Doc (Unit {0}))
    → ((a : A) → Unheard (body a))
    → Unheard (for_each xs body)
unfolding for_each
for_each-Unheard [] body q d = refl
for_each-Unheard (x ∷ xs) body q d =
    continue-Unheard (body x d).0 (for_each xs body) d (body x d).1 (for_each-Unheard xs body q)
      (q x d)

report-told : (ns : List ℕ) → IsRefused (report ns) → ⊥
report-told [] h = h
report-told (n ∷ ns) h = h

Result-cases : (r : Result (Unit {0})) → (r ≡ ok tt) ⊎ ((e : Error) × (r ≡ err e))
Result-cases (ok tt) = inl refl
Result-cases (err e) = inr (e, refl)

module _ (env : Env) (quiet : QuietNormalizers env) where
  run_normalizers-Unheard : Unheard (run_normalizers env)
  unfolding run_normalizers
  run_normalizers-Unheard d =
      for_each-Unheard d.normalize_listeners _ (λ l d'. quiet l d'.tx.diff d') d

  second_pass-Unheard : Unheard (second_pass env)
  unfolding second_pass
  second_pass-Unheard d =
      if_elim (λ (r : Result (Unit {0}) × Doc). r.1.heard ≡ d.heard) d.strict_mode _ _
        (λ _. run_normalizers-Unheard (set_stage Stage.normalize2 d)) (λ _. refl)

  finish_commit-RefusesSilently : RefusesSilently (finish_commit env)
  unfolding finish_commit notify
  finish_commit-RefusesSilently d h =
      let d1 = set_stage Stage.idle d in
      elim (Bool-cases (has_changes d)) [
        | inr e ↦ rw (e, finish_commit) refl
        | inl e ↦ elim (Result-cases (validate_changed_nodes d1)) [
          | inr (x, e1) ↦ rw (e, e1, finish_commit) refl
          | inl e1 ↦ elim (Result-cases (check_ref_integrity d1)) [
            | inr (x, e2) ↦ rw (e, e1, e2, finish_commit) refl
            | inl e2 ↦ absurd (report-told _ (rw (e, e1, e2, finish_commit) at h))
          ]
        ]
      ]

  maybe_trigger-RefusesSilently : RefusesSilently (maybe_trigger_listeners env false)
  unfolding maybe_trigger_listeners
  maybe_trigger-RefusesSilently d =
      if_elim (λ (r : Result (Unit {0}) × Doc). IsRefused r.0 → r.1.heard ≡ d.heard)
        (not (has_changes d) && not false) _ _ (λ _ h. refl)
        (λ _.
          then-RefusesSilently (modify (set_stage Stage.normalize))
            (do run_normalizers env; second_pass env; finish_commit env) (λ d'. refl)
            (then-RefusesSilently (run_normalizers env) (do second_pass env; finish_commit env)
              run_normalizers-Unheard
              (then-RefusesSilently (second_pass env) (finish_commit env) second_pass-Unheard
                finish_commit-RefusesSilently))
            d)

  join-Joins : Joins (join env)
  unfolding join with_transaction check_stage begin open_transaction
  join-Joins fn d h =
      subst (λ s. join env fn (record d { stage = s }) ≡ fn (record d { stage = s })) (sym h)
        (body (fn (record d { stage = Stage.update })).0 (fn (record d { stage = Stage.update })).1)
    where
      body : (r : Result (Unit {0})) (d1 : Doc) → after_body env done false false r d1 ≡ (r, d1)
      body (ok u) d1 = unfold after_body in refl
      body (err e) d1 = unfold after_body in refl

  abort-heard : (d : Doc) → d.stage ≡ Stage.update → (abort env d).1.heard ≡ d.heard
  unfolding abort undo_recorded close_transaction
  abort-heard d h =
      if_elim (λ (r : Result (Unit {0}) × Doc). r.1.heard ≡ d.heard) (stage_eq d.stage Stage.idle)
        (ok tt, d) _ (λ _. refl)
        (λ _.
          rebuild_ref_index-heard (close_transaction (undo_recorded env d).1)
          ∙ ap (λ k. k.1) (on_apply_operations-Quiet env (join env) _ false join-Joins d h))

  close_commit-heard :
      (r : Result (Unit {0})) (d d1 : Doc)
      → (IsRefused r → d1.heard ≡ d.heard)
      → IsRefused (after_commit (abort env) false (close_commit r d1).0 (close_commit r d1).1).0
      → (after_commit (abort env) false (close_commit r d1).0 (close_commit r d1).1).1.heard
        ≡ d.heard
  unfolding after_commit close_transaction
  close_commit-heard (ok u) d d1 q h = absurd h
  close_commit-heard (err (listener_error ns)) d d1 q h = absurd h
  close_commit-heard (err e) d d1 q h = abort-heard (set_stage Stage.update d1) refl ∙ q h

  after_body-heard :
      (r : Result (Unit {0})) (d : Doc)
      → d.stage ≡ Stage.update
      → IsRefused (after_body env (abort env) false true r d).0
      → (after_body env (abort env) false true r d).1.heard ≡ d.heard
  unfolding after_body after_commit force_commit
  after_body-heard (err e) d s = λ h. abort-heard d s
  after_body-heard (ok u) d s =
      if_elim
        (λ (c : Result (Unit {0}) × Doc).
          IsRefused (after_commit (abort env) false c.0 c.1).0
          → (after_commit (abort env) false c.0 c.1).1.heard ≡ d.heard)
        (stage_eq d.stage Stage.change) _ _ (λ _ h. abort-heard d s)
        (λ _ h.
          let r = maybe_trigger_listeners env false (set_stage Stage.idle d) in
          close_commit-heard r.0 d r.1 (maybe_trigger-RefusesSilently (set_stage Stage.idle d)) h)

  transact_idle-heard :
      (fn : Exec Doc (Unit {0})) (d : Doc)
      → Quiet fn
      → let i : Doc = record d { stage = Stage.idle } in
        IsRefused (transact env false false fn i).0
        → (transact env false false fn i).1.heard ≡ d.heard
  unfolding transact with_transaction check_stage begin open_transaction
  transact_idle-heard fn d q h =
      let u : Doc = record d { stage = Stage.update } in
      let same = q u refl in
      after_body-heard (fn u).0 (fn u).1 (stays u (fn u).1 same refl) h ∙ ap (λ k. k.1) same

  -- A transaction of an idle document whose body tells no listener has told none, where it fails
  -- otherwise than by its listeners: whether its body, the normalizers or the checks fail.
  pub transact-RefusesSilently :
      (fn : Exec Doc (Unit {0})) (d : Doc)
      → Quiet fn
      → d.stage ≡ Stage.idle
      → IsRefused (transact env false false fn d).0
      → (transact env false false fn d).1.heard ≡ d.heard
  transact-RefusesSilently fn d q s =
      subst
        (λ s.
          IsRefused (transact env false false fn (record d { stage = s })).0
          → (transact env false false fn (record d { stage = s })).1.heard ≡ d.heard)
        (sym s) (transact_idle-heard fn d q)

  body-Quiet :
      (b : Bool) (ops : Operations)
      → Quiet (λ d.
        if b then (ok tt, d) else on_apply_operations env (transact env false false) ops false d)
  body-Quiet b ops d h =
      if_elim (λ (r : Result (Unit {0}) × Doc). kept r.1 ≡ kept d) b _ _ (λ _. refl)
        (λ _.
          on_apply_operations-Quiet env (transact env false false) ops false
            (λ fn d' u. transact-joined env false fn d' u) d h)

  -- Operations that an idle document refuses, with an error that is not the listeners', tell no listener.
  pub apply_operations-RefusesSilently :
      (ops : Operations) (d : Doc)
      → d.stage ≡ Stage.idle
      → IsRefused (apply_operations env (ops ∷ []) none false false true d).0
      → (apply_operations env (ops ∷ []) none false false true d).1.heard ≡ d.heard
  unfolding apply_operations apply_journal
  apply_operations-RefusesSilently ops d s =
      go (transact env false false fn d).0 (transact env false false fn d).1
        (transact-RefusesSilently fn d (body-Quiet (is_nothing ops) ops) s)
    where
      fn : Exec Doc (Unit {0})
      fn d' =
          if is_nothing ops
          then (ok tt, d')
          else on_apply_operations env (transact env false false) ops false d'

      go :
          (r : Result (Unit {0})) (d1 : Doc)
          → (IsRefused r → d1.heard ≡ d.heard)
          → let e : Result (List ℕ) × Doc = elim r as (λ _. Result (List ℕ) × Doc) [
            | ok _ ↦ (ok [], d1)
            | err (listener_error ns) ↦ (ok ([] ++ ns), d1)
            | err x ↦ (err x, d1)
          ] in
            let all : Result (List Operations) × Doc =
              continue e.0
                (λ errors d'. elim errors as (λ _. Result (List Operations) × Doc) [
                  | [] ↦ (ok [], d')
                  | n ∷ ns ↦ (err (listener_error (n ∷ ns)), d')
                ])
                e.1 in
            IsRefused all.0 → all.1.heard ≡ d.heard
      go (ok u) d1 q h = absurd h
      go (err (listener_error [])) d1 q h = absurd h
      go (err (listener_error (n ∷ ns))) d1 q h = absurd h
      go (err e) d1 q h = q h
