-- ===== src/Doc/Notify.antt =====
-- Whom a commit tells of its changes.
use atomdoc.Prelude.{
  ℕ, ◌≡◌, refl, ◌∙◌, ◌⊎◌, inl, inr, none, List, [], ◌∷◌, ◌++◌, map, reverse, Bool-cases,
  Option-cases, All,
}
use mathlib.Core.List.{reverse_aux-eq, reverse_aux}
use atomdoc.Prelude.Exec.{Result, ok, err, Error}
use atomdoc.Types.{Stage, ChangeEvent}
use atomdoc.Doc.{Doc}
use atomdoc.Doc.Refs.{check_ref_integrity}
use atomdoc.Doc.Env.{Env}
use atomdoc.Doc.Commit.{
  report, notify, deliver, failures, event_of, finish_commit, has_changes, validate_changed_nodes,
  set_stage,
}

-- the calls that tell every listener of an event, in the order of the list, the last one first
abbrev pub told : List ℕ → ChangeEvent → List (ℕ × ChangeEvent)
told ls e = reverse (map (λ (l : ℕ). (l, e)) ls)

deliver-told :
    (e : ChangeEvent) (ls : List ℕ) (heard : List (ℕ × ChangeEvent))
    → deliver e ls heard ≡ told ls e ++ heard
unfolding deliver
deliver-told e ls heard = go ls heard ∙ reverse_aux-eq (map (λ (l : ℕ). (l, e)) ls) heard
  where
    go :
        (ls : List ℕ) (heard : List (ℕ × ChangeEvent))
        → deliver e ls heard ≡ reverse_aux (map (λ (l : ℕ). (l, e)) ls) heard
    go [] heard = refl
    go (l ∷ ls) heard = go ls ((l, e) ∷ heard)

failures-none :
    (env : Env) (e : ChangeEvent) (ls : List ℕ)
    → failures env e ls ≡ []
    → All (λ (l : ℕ). env.listen l e ≡ none) ls
unfolding failures
failures-none env e [] h = tt
failures-none env e (l ∷ ls) h = elim (Option-cases (env.listen l e)) [
  | inl none' ↦ (none', failures-none env e ls (rw (none', failures) at h))
  | inr (n, some') ↦ absurd (cons_nil (rw (some', failures) at h))
]
  where
    cons_nil : {n : ℕ} {ns : List ℕ} → n ∷ ns ≡ [] → ⊥
    cons_nil h = cc

report-ok : (ns : List ℕ) → report ns ≡ ok tt → ns ≡ []
report-ok [] h = refl
report-ok (n ∷ ns) h = cc

-- Every listener is told, in the order of the list, whether or not an earlier one fails; and the
-- commit ends without an error only if none fails.
pub notify-told :
    (env : Env) (d : Doc)
    → ((notify env d).1.heard ≡ told d.change_listeners (event_of d) ++ d.heard)
      × ((notify env d).0 ≡ ok tt
          → All (λ (l : ℕ). env.listen l (event_of d) ≡ none) d.change_listeners)
unfolding notify
notify-told env d = (
  deliver-told (event_of d) d.change_listeners d.heard,
  λ h. failures-none env (event_of d) d.change_listeners (report-ok _ h),
)

Result-cases : (r : Result (Unit {0})) → (r ≡ ok tt) ⊎ ((e : Error) × (r ≡ err e))
Result-cases (ok tt) = inl refl
Result-cases (err e) = inr (e, refl)

-- A commit tells its listeners of its changes only behind the checks: either both checks pass on the
-- document as the normalizers left it and every listener is told, or no listener is told.
pub finish_commit-told :
    (env : Env) (d : Doc)
    → ((finish_commit env d).1.heard ≡ d.heard)
      ⊎ ((validate_changed_nodes (set_stage Stage.idle d) ≡ ok tt)
          × (check_ref_integrity (set_stage Stage.idle d) ≡ ok tt)
          × ((finish_commit env d).1.heard ≡ told d.change_listeners (event_of d) ++ d.heard))
unfolding finish_commit
finish_commit-told env d =
    let d1 = set_stage Stage.idle d in
    elim (Bool-cases (has_changes d)) [
      | inr e ↦ inl (rw e refl)
      | inl e ↦ elim (Result-cases (validate_changed_nodes d1)) [
        | inr (x, e1) ↦ inl (rw (e, e1) refl)
        | inl e1 ↦ elim (Result-cases (check_ref_integrity d1)) [
          | inr (x, e2) ↦ inl (rw (e, e1, e2) refl)
          | inl e2 ↦ inr (e1, e2, rw (e, e1, e2) (notify-told env (set_stage Stage.change d1)).0)
        ]
      ]
    ]
