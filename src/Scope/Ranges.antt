-- ===== src/Scope/Ranges.antt =====
-- _scope.py: `_require_range` against the ranges that a document finds.
use atomdoc.Prelude.{
  ℕ, zero, suc, ◌≤◌, String, ◌≡◌, refl, sym, ap, ◌∙◌, ◌≢◌, inl, inr, Bool, true, false, Option,
  none, some, List, [], ◌∷◌, arith, eq_iff, ◌==◌, str_eq, if◌then◌else◌, ==_iff, Bool-cases, All,
}
use mathlib.Core.Path.{subst}
use atomdoc.Prelude.Exec.{ok, err, value_error}
use atomdoc.Prelude.Dict.{lookup}
use atomdoc.Links.{Ref, Links}
use atomdoc.Doc.{Doc, id_of}
use atomdoc.Doc.Traverse.{iter_range, range_of}
use atomdoc.Scope.{Kind, full, stub, ClientView}
use atomdoc.Scope.Climb.{IsKnown}
use atomdoc.Scope.Checks.{
  is_full_kind, Check, demand, next_check, require_full, require_until, require_behind,
  require_range,
}

-- both checks passed
pub next_check-both : (a b : Check) → next_check a b ≡ ok tt → (a ≡ ok tt) × (b ≡ ok tt)
next_check-both (ok u) b h = (refl, h)
next_check-both (err e) b h = absurd cc

pub demand-true : (b : Bool) → demand b ≡ ok tt → b ≡ true
demand-true true h = refl
demand-true false h = absurd cc

-- the client holds the node in full
abbrev pub IsFull : ClientView → String → Type 0
IsFull v i = lookup v.held i ≡ some full

pub require_full-IsFull :
    (d : Doc) (v : ClientView) (i : String) → require_full d v (some i) ≡ ok tt → IsFull v i
unfolding require_full
require_full-IsFull d v i h = go (lookup v.held i) (demand-true (is_full_kind (lookup v.held i)) h)
  where
    go : (o : Option Kind) → is_full_kind o ≡ true → o ≡ some full
    go none h = absurd cc
    go (some full) h = refl
    go (some stub) h = absurd cc

-- a walk that ends: here, or further on
data Walked (fuel : ℕ) (l : Links) (x end : Ref) (xs : List Ref) : Type 0 where
  here : x ≡ end → xs ≡ x ∷ [] → Walked fuel l x end xs
  further :
      (ys : List Ref)
      → x ≢ end
      → iter_range fuel l (l.next_sibling x) end ≡ some ys
      → xs ≡ x ∷ ys
      → Walked fuel l x end xs

iter_range-Walked :
    (fuel : ℕ) (l : Links) (x end : Ref) (xs : List Ref)
    → iter_range (suc fuel) l (some x) end ≡ some xs
    → Walked fuel l x end xs
unfolding iter_range
iter_range-Walked fuel l x end xs h = elim (Bool-cases (x == end)) [
  | inl same ↦ Walked.here ((==_iff x end).0 same) (some_injective (sym (rw same at h)))
  | inr other ↦ go (iter_range fuel l (l.next_sibling x) end) refl other (rw other at h)
]
  where
    some_injective : {a b : List Ref} → some a ≡ some b → a ≡ b
    some_injective e = cc

    go :
        (o : Option (List Ref))
        → iter_range fuel l (l.next_sibling x) end ≡ o
        → (x == end) ≡ false
        → (elim o [ none ↦ none | some ys ↦ some (x ∷ ys) ]) ≡ some xs
        → Walked fuel l x end xs
    go none e other h = absurd cc
    go (some ys) e other h =
        Walked.further ys (λ same. true_false (sym ((==_iff x end).1 same) ∙ other)) e
          (some_injective (sym h))
      where
        true_false : true ≡ false → ⊥
        true_false e = cc

module _ (d : Doc) (v : ClientView) (end : Ref) (known : IsKnown d end) where
  AllFull : List Ref → Type 0
  AllFull xs = All (λ z. IsFull v (id_of d z)) xs

  -- a walk that is not yet at the end goes on
  not-at_end : (x : Ref) → IsKnown d x → x ≢ end → str_eq (id_of d x) (id_of d end) ≡ false
  not-at_end x k ne = elim (Bool-cases (str_eq (id_of d x) (id_of d end))) [
    | inr other ↦ other
    | inl same ↦ absurd (
        ne (
          some_injective
            (sym k ∙ ap (lookup d.node_map) ((eq_iff (id_of d x) (id_of d end)).0 same) ∙ known)))
  ]
    where
      some_injective : {a b : Ref} → some a ≡ some b → a ≡ b
      some_injective e = cc

  require_until-AllFull :
      (f g : ℕ) (o : Option Ref) (xs : List Ref)
      → f ≤ g
      → require_until d v g (id_of d end) o ≡ ok tt
      → iter_range f d.links o end ≡ some xs
      → All (IsKnown d) xs
      → AllFull xs
  unfolding require_until AllFull iter_range
  require_until-AllFull zero g o xs le h w a = absurd cc
  require_until-AllFull (suc f) g none xs le h w a = absurd cc
  require_until-AllFull (suc f) zero (some x) xs le h w a = absurd (omega (arith, le))
  require_until-AllFull (suc f) (suc g) (some x) xs le h w a =
      let parts =
        next_check-both (require_full d v (some (id_of d x)))
          (if str_eq (id_of d x) (id_of d end)
            then ok tt
            else require_until d v g (id_of d end) (d.links.next_sibling x))
          h in
      elim (iter_range-Walked f d.links x end xs w) [
        | Walked.here same e ↦
            subst AllFull (sym e) (require_full-IsFull d v (id_of d x) parts.0, tt)
        | Walked.further ys ne rest e ↦
            let ks : All (IsKnown d) (x ∷ ys) = subst (All (IsKnown d)) e a in
            subst AllFull (sym e) (
              require_full-IsFull d v (id_of d x) parts.0,
              require_until-AllFull f g (d.links.next_sibling x) ys (omega (arith, le))
                  (rw (not-at_end x ks.0 ne) at parts.1) rest ks.1,
            )
      ]

-- A range is held in full: its start is, and with an end all that a walk from the start to the end meets.
pub record IsRangeFull (d : Doc) (v : ClientView) (start : String) (end : Option String)
    : Type 0 where
  pub first : IsFull v start
  pub inside :
      (j : String) (x y : Ref) (xs : List Ref)
      → end ≡ some j
      → lookup d.node_map start ≡ some x
      → lookup d.node_map j ≡ some y
      → id_of d x ≡ start
      → id_of d y ≡ j
      → range_of d x y ≡ ok xs
      → All (IsKnown d) xs
      → All (λ z. IsFull v (id_of d z)) xs

range_of-walk :
    (d : Doc) (x y : Ref) (xs : List Ref)
    → range_of d x y ≡ ok xs
    → iter_range d.allocated d.links (some x) y ≡ some xs
unfolding range_of
range_of-walk d x y xs h = go (iter_range d.allocated d.links (some x) y) h
  where
    go :
        (o : Option (List Ref))
        → (elim o [ none ↦ err value_error | some ys ↦ ok ys ]) ≡ ok xs
        → o ≡ some xs
    go none e = absurd cc
    go (some ys) e = cc

module _ (d : Doc) (v : ClientView) where
  require_behind-AllFull :
      (f : ℕ) (x y : Ref) (xs : List Ref)
      → f ≤ d.allocated
      → IsKnown d y
      → IsFull v (id_of d x)
      → require_behind d v (id_of d y) (some x) ≡ ok tt
      → iter_range f d.links (some x) y ≡ some xs
      → All (IsKnown d) xs
      → All (λ z. IsFull v (id_of d z)) xs
  unfolding require_behind AllFull iter_range
  require_behind-AllFull zero x y xs le k first h w a = absurd cc
  require_behind-AllFull (suc f) x y xs le k first h w a =
      elim (iter_range-Walked f d.links x y xs w) [
        | Walked.here same e ↦ subst (All (λ z. IsFull v (id_of d z))) (sym e) (first, tt)
        | Walked.further ys ne rest e ↦
            let ks : All (IsKnown d) (x ∷ ys) = subst (All (IsKnown d)) e a in
            subst (All (λ z. IsFull v (id_of d z))) (sym e) (
              first,
              require_until-AllFull d v y k f d.allocated (d.links.next_sibling x) ys
                  (omega (arith, le)) (rw (not-at_end d v y k x ks.0 ne) at h) rest ks.1,
            )
      ]

  pub require_range-IsRangeFull :
      (start : String) (end : Option String)
      → require_range d v start end ≡ ok tt
      → IsRangeFull d v start end
  unfolding require_range
  require_range-IsRangeFull start none h = record {
    first = require_full-IsFull d v start h;
    inside = λ j x y xs e. absurd (none_some e);
  }
    where
      none_some : {j : String} → none ≡ some j → ⊥
      none_some e = cc
  require_range-IsRangeFull start (some end) h =
      let one = next_check-both (require_full d v (some start)) _ h in
      let two = next_check-both (require_full d v (some end)) _ one.1 in
      record {
        first = require_full-IsFull d v start one.0;
        inside = λ j x y xs e ex ey ix iy r a.
            let end_j : end ≡ id_of d y = some_injective e ∙ sym iy in
            let known_y : IsKnown d y = subst (λ i. lookup d.node_map i ≡ some y) (sym iy) ey in
            let behind : require_behind d v (id_of d y) (some x) ≡ ok tt =
              subst (λ o. require_behind d v (id_of d y) o ≡ ok tt) ex
                (subst (λ i. require_behind d v i (lookup d.node_map start) ≡ ok tt) end_j two.1) in
            require_behind-AllFull d.allocated x y xs (omega arith) known_y
              (subst (IsFull v) (sym ix) (require_full-IsFull d v start one.0)) behind
              (range_of-walk d x y xs r) a;
      }
    where
      some_injective : {a b : String} → some a ≡ some b → a ≡ b
      some_injective e = cc
