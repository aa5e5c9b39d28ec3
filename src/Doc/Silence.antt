-- ===== src/Doc/Silence.antt =====
-- A body that runs in an open transaction tells no listener, and neither does a transaction that is rolled back.
use atomdoc.Prelude.{
  ◌+◌, String, ◌≡◌, refl, ap, ◌∙◌, Bool, true, false, Option, none, some, List, [], ◌∷◌, ◌==◌,
  if_elim,
}
use atomdoc.Prelude.Exec.{
  Exec, Result, ok, err, Error, value_error, type_error, runtime_error, assertion_error, continue,
  ◌>>=◌, ◌>>◌, lift, require, for_each,
}
use atomdoc.Prelude.Dict.{lookup}
use atomdoc.Types.{Stage, Position, append, prepend, before, after}
use atomdoc.Links.{Ref, detach_range, move_links}
use atomdoc.Doc.{Doc, class_of, check_live}
use atomdoc.Doc.Traverse.{range_of}
use atomdoc.Doc.Kept.{
  kept, KeptIn, insert_append-kept, insert_before-kept, on_move_range-kept, on_delete_range-kept,
  forget_nodes-kept,
}
use atomdoc.Doc.Insert.{
  check_insert, check_target, all_allowed, all_new, insert_at, redirect, insert_into_slot,
}
use atomdoc.Doc.Deletes.{on_delete_range, on_move_range}
use atomdoc.Doc.Range.{forget_nodes, delete_nodes, delete_body, move_nodes, Place, stay, between}

-- A body keeps the stage and tells no listener, in an open transaction.
abbrev pub Quiet : {A : Type 0} → Exec Doc A → Type 0
Quiet m = (d : Doc) → d.stage ≡ Stage.update → kept (m d).1 ≡ kept d

-- what runs a body in a transaction, where one is open: the body itself
abbrev pub Joins : (Exec Doc (Unit {0}) → Exec Doc (Unit {0})) → Type 0
Joins within = (fn : Exec Doc (Unit {0})) (d : Doc) → d.stage ≡ Stage.update → within fn d ≡ fn d

pub stays : (d d1 : Doc) → kept d1 ≡ kept d → d.stage ≡ Stage.update → d1.stage ≡ Stage.update
stays d d1 e h = ap (λ k. k.0) e ∙ h

module _ {A B : Type 0} where
  continue-Quiet :
      (f : A → Exec Doc B) (r : Result A) (d d1 : Doc)
      → ((a : A) → Quiet (f a))
      → d.stage ≡ Stage.update
      → kept d1 ≡ kept d
      → kept (continue r f d1).1 ≡ kept d
  continue-Quiet f (ok a) d d1 q h e = q a d1 (stays d d1 e h) ∙ e
  continue-Quiet f (err x) d d1 q h e = e

  pub then-Quiet :
      (m : Exec Doc A) (f : A → Exec Doc B) → Quiet m → ((a : A) → Quiet (f a)) → Quiet (m >>= f)
  then-Quiet m f q g d h = continue-Quiet f (m d).0 d (m d).1 g h (q d h)

pub require-Quiet : (b : Bool) (e : Error) → Quiet (require b e)
require-Quiet true e d h = refl
require-Quiet false e d h = refl

pub for_each-Quiet :
    {A : Type 0} (xs : List A) (body : A → Exec Doc (Unit {0}))
    → ((a : A) → Quiet (body a))
    → Quiet (for_each xs body)
unfolding for_each
for_each-Quiet [] body q = λ d h. refl
for_each-Quiet (x ∷ xs) body q =
    then-Quiet (body x) (λ _. for_each xs body) (q x) (λ _. for_each-Quiet xs body q)

-- The checks of an insertion change nothing.
check_insert-Quiet :
    (p : Ref) (s : String) (nodes : List Ref) (target : Option Ref)
    → Quiet (check_insert p s nodes target)
unfolding check_insert
check_insert-Quiet p s nodes target d h = go (lookup (class_of d p).slots s)
  where
    go :
        (o : Option (List String))
        → kept
            (elim o as (λ _. Result (Unit {0}) × Doc) [
              | none ↦ (err value_error, d)
              | some allowed ↦
                  (do
                    lift (check_live d p)
                    lift (check_target p s target d)
                    require (all_allowed d allowed nodes) type_error
                    require (all_new d nodes []) runtime_error)
                    d
            ]).1
          ≡ kept d
    go none = refl
    go (some allowed) =
        then-Quiet (lift (check_live d p)) _ (λ d' h'. refl)
          (λ _.
            then-Quiet (lift (check_target p s target d)) _ (λ d' h'. refl)
              (λ _.
                then-Quiet (require (all_allowed d allowed nodes) type_error) _ (require-Quiet _ _)
                  (λ _. require-Quiet _ _)))
          d h

module _ (within : Exec Doc (Unit {0}) → Exec Doc (Unit {0})) (joins : Joins within) where
  pub within-Quiet : (fn : Exec Doc (Unit {0})) → Quiet fn → Quiet (within fn)
  within-Quiet fn q d h = ap (λ (r : Result (Unit {0}) × Doc). kept r.1) (joins fn d h) ∙ q d h

  checked-Quiet :
      (p : Ref) (s : String) (nodes : List Ref) (target : Option Ref) (m : Exec Doc (Unit {0}))
      → Quiet m
      → Quiet (within (check_insert p s nodes target >> m))
  checked-Quiet p s nodes target m q = within-Quiet _ (
      then-Quiet (check_insert p s nodes target) (λ _. m) (check_insert-Quiet p s nodes target)
        (λ _. q))

  insert_at-Quiet :
      (p : Ref) (s : String) (pos : Position) (nodes : List Ref) (target : Option Ref)
      → Quiet (insert_at within p s pos nodes target)
  unfolding insert_at
  insert_at-Quiet p s append nodes target =
      checked-Quiet p s nodes target _ (λ d h. insert_append-kept p s nodes d)
  insert_at-Quiet p s before nodes (some t) =
      checked-Quiet p s nodes (some t) _ (λ d h. insert_before-kept p s nodes t d)
  insert_at-Quiet p s before nodes none = checked-Quiet p s nodes none _ (λ d h. refl)
  insert_at-Quiet p s prepend nodes target = checked-Quiet p s nodes target _ (λ d h. refl)
  insert_at-Quiet p s after nodes target = checked-Quiet p s nodes target _ (λ d h. refl)

  redirect-Quiet :
      (p : Ref) (s : String) (nodes : List Ref) (o : Option Ref)
      → Quiet (redirect within p s nodes o)
  unfolding redirect
  redirect-Quiet p s nodes none = insert_at-Quiet p s append nodes none
  redirect-Quiet p s nodes (some x) = insert_at-Quiet p s before nodes (some x)

  pub insert_into_slot-Quiet :
      (p : Ref) (s : String) (pos : Position) (nodes : List Ref) (target : Option Ref)
      → Quiet (insert_into_slot within p s pos nodes target)
  unfolding insert_into_slot
  insert_into_slot-Quiet p s pos [] target = λ d h. refl
  insert_into_slot-Quiet p s prepend (x ∷ xs) target =
      checked-Quiet p s (x ∷ xs) target _
        (λ d h. redirect-Quiet p s (x ∷ xs) (d.links.slot_first p s) d h)
  insert_into_slot-Quiet p s after (x ∷ xs) (some t) =
      checked-Quiet p s (x ∷ xs) (some t) _
        (λ d h. redirect-Quiet p s (x ∷ xs) (d.links.next_sibling t) d h)
  insert_into_slot-Quiet p s after (x ∷ xs) none = insert_at-Quiet p s after (x ∷ xs) none
  insert_into_slot-Quiet p s append (x ∷ xs) target = insert_at-Quiet p s append (x ∷ xs) target
  insert_into_slot-Quiet p s before (x ∷ xs) target = insert_at-Quiet p s before (x ∷ xs) target

delete_nodes-Quiet : (start end : Ref) (xs : List Ref) → Quiet (delete_nodes start end xs)
unfolding delete_nodes
delete_nodes-Quiet start end xs d h =
    go (on_delete_range d start end xs) (on_delete_range-kept d start end xs)
  where
    go :
        (o : Option Doc)
        → KeptIn d o
        → kept
            (elim o as (λ _. Result (Unit {0}) × Doc) [
              | none ↦ (err assertion_error, d)
              | some d1 ↦
                  let d2 = forget_nodes d1 xs in
                  (
                    ok tt,
                    record d2 {
                      links = detach_range d2.links start end;
                      tree_version = d2.tree_version + 1;
                    },
                  )
            ]).1
          ≡ kept d
    go none e = refl
    go (some d1) e = forget_nodes-kept d1 xs ∙ e

pub delete_body-Quiet : (start end : Ref) → Quiet (delete_body start end)
unfolding delete_body
delete_body-Quiet start end d h =
    if_elim (λ (r : Result (Unit {0}) × Doc). kept r.1 ≡ kept d) (start == d.root) _ _ (λ _. refl)
      (λ _.
        then-Quiet (lift (check_live d start)) _ (λ d' h'. refl)
          (λ _.
            then-Quiet (lift (check_live d end)) _ (λ d' h'. refl)
              (λ _.
                then-Quiet (lift (range_of d start end)) _ (λ d' h'. refl)
                  (λ xs. delete_nodes-Quiet start end xs)))
          d h)

pub move_nodes-Quiet :
    (start end : Ref) (xs : List Ref) (p : Ref) (s : String) (pl : Place)
    → Quiet (move_nodes start end xs p s pl)
unfolding move_nodes
move_nodes-Quiet start end xs p s stay d h = refl
move_nodes-Quiet start end xs p s (between prev next) d h =
    go (on_move_range d start end xs p s prev next)
      (on_move_range-kept d start end xs p s prev next)
  where
    go :
        (o : Option Doc)
        → KeptIn d o
        → kept
            (elim o as (λ _. Result (Unit {0}) × Doc) [
              | none ↦ (err assertion_error, d)
              | some d1 ↦ (
                ok tt,
                record d1 {
                  links = move_links d1.links start end xs p s prev next;
                  tree_version = d1.tree_version + 1;
                },
              )
            ]).1
          ≡ kept d
    go none e = refl
    go (some d1) e = e
