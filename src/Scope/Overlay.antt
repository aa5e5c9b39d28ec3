-- ===== src/Scope/Overlay.antt =====
-- _scope.py: `_Overlay`, a set read through what was added and removed.
use atomdoc.Prelude.{
  String, ◌≡◌, refl, inl, inr, Bool, true, false, ◌||◌, List, [], arith, eq_iff, str_eq,
  if◌then◌else◌, str_eq_refl, Bool-cases,
}
use mathlib.Core.Path.{subst}
use atomdoc.Prelude.Dict.{mem, add, discard, mem-add, mem-discard}

-- `_Overlay`
pub record Overlay : Type 0 where
  pub base : List String
  pub added : List String
  pub removed : List String

abbrev pub overlay : List String → Overlay
overlay base = record { base = base; added = []; removed = [] }

unfoldable pub in_overlay : Overlay → String → Bool
in_overlay o i = if mem o.added i then true else if mem o.removed i then false else mem o.base i

unfoldable pub overlay_add : Overlay → String → Overlay
overlay_add o i = record o {
  added = if mem o.base i then o.added else add o.added i;
  removed = discard o.removed i;
}

unfoldable pub overlay_discard : Overlay → String → Overlay
overlay_discard o i = record o {
  added = discard o.added i;
  removed = if mem o.base i then add o.removed i else o.removed;
}

pub mem-if :
    (b : Bool) (s t : List String) (i : String)
    → mem (if b then s else t) i ≡ (if b then mem s i else mem t i)
mem-if true s t i = refl
mem-if false s t i = refl

-- An overlay is its set with the additions and removals made to it.
pub in_overlay-add :
    (o : Overlay) (i j : String) → in_overlay (overlay_add o i) j ≡ (str_eq i j || in_overlay o j)
unfolding in_overlay overlay_add
in_overlay-add o i j =
    rw
      (
        mem-if (mem o.base i) o.added (add o.added i) j,
        mem-add o.added i j,
        mem-discard o.removed i j,
      )
      (elim (Bool-cases (str_eq i j)) [
        | inl same ↦
            subst
              (λ k.
                (if (if mem o.base i then mem o.added k else (str_eq i k || mem o.added k))
                  then true
                  else if (if str_eq i k then false else mem o.removed k)
                  then false
                  else mem o.base k)
                ≡ (str_eq i k
                    || (if mem o.added k
                        then true
                        else if mem o.removed k
                        then false
                        else mem o.base k)))
              ((eq_iff i j).0 same) (rw (str_eq_refl i) (here (mem o.base i) (mem o.added i)))
        | inr other ↦
            rw other (
              there (mem o.base i) (mem o.added j)
                (if mem o.removed j then false else mem o.base j))
      ])
  where
    here : (b a : Bool) → (if (if b then a else true) then true else b) ≡ true
    here b a = ground arith

    there : (b a c : Bool) → (if (if b then a else a) then true else c) ≡ (if a then true else c)
    there b a c = ground arith

pub in_overlay-discard :
    (o : Overlay) (i j : String)
    → in_overlay (overlay_discard o i) j ≡ (if str_eq i j then false else in_overlay o j)
unfolding in_overlay overlay_discard
in_overlay-discard o i j =
    rw
      (
        mem-if (mem o.base i) (add o.removed i) o.removed j,
        mem-add o.removed i j,
        mem-discard o.added i j,
      )
      (elim (Bool-cases (str_eq i j)) [
        | inl same ↦
            subst
              (λ k.
                (if (if str_eq i k then false else mem o.added k)
                  then true
                  else if (if mem o.base i
                      then (str_eq i k || mem o.removed k)
                      else mem o.removed k)
                  then false
                  else mem o.base k)
                ≡ (if str_eq i k
                    then false
                    else (if mem o.added k
                        then true
                        else if mem o.removed k
                        then false
                        else mem o.base k)))
              ((eq_iff i j).0 same) (rw (str_eq_refl i) (here (mem o.base i) (mem o.removed i)))
        | inr other ↦
            rw other (there (mem o.base i) (mem o.added j) (mem o.removed j) (mem o.base j))
      ])
  where
    here : (b r : Bool) → (if (if b then true else r) then false else b) ≡ false
    here b r = ground arith

    there :
        (b a r c : Bool)
        → (if a then true else if (if b then r else r) then false else c)
          ≡ (if a then true else if r then false else c)
    there b a r c = ground arith
