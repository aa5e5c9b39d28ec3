-- ===== src/Links/Slots.antt =====
-- The abstract view of the links: each slot of each node is a list of children.
use atomdoc.Prelude.{
  String, ◌≡◌, refl, sym, ◌∙◌, inl, inr, Option, none, some, List, [], ◌∷◌, ◌++◌, arith, eq_iff,
  ◌==◌, str_eq, ==_iff, str_eq_refl, Bool-cases, Option-cases, if_elim,
}
use mathlib.Core.Bool.{false≢true}
use mathlib.Core.Path.{subst}
use atomdoc.Links.{
  Ref, Links, set_slot, set_next, set_prev, set_first, set_last, link_next, link_prev,
}
use atomdoc.Links.Chain.{
  Chain-append, Chain-join, Owned-same, end_or-append, head_or-append, Chain-same, In, Distinct,
  head_or, end_or, Chain, Owned, NotIn, Chain-set_next_out, Chain-set_prev_out, Chain-set_next_last,
  Chain-set_prev_first, Owned-In,
}

-- The children of a node in a slot.
abbrev pub Kids : Type 0
Kids = Ref → String → List Ref

-- The slot `s` of `p` holds exactly `xs`, in order.
pub record Slot (l : Links) (p : Ref) (s : String) (xs : List Ref) : Type 0 where
  pub first : l.slot_first p s ≡ head_or xs none
  pub last : l.slot_last p s ≡ end_or none xs
  pub chain : Chain l none xs none
  pub owned : Owned l p s xs
  pub distinct : Distinct xs

-- The links represent `kids`.
pub record Represents (l : Links) (kids : Kids) : Type 0 where
  pub slot : (p : Ref) (s : String) → Slot l p s (kids p s)

-- The part of a slot's list from its front, with `a` behind it; and the part to its end.
pub record Front (l : Links) (p : Ref) (s : String) (xs : List Ref) (a : Option Ref) : Type 0 where
  pub first : l.slot_first p s ≡ head_or xs a
  pub chain : Chain l none xs a

pub record Back (l : Links) (p : Ref) (s : String) (b : Option Ref) (xs : List Ref) : Type 0 where
  pub last : l.slot_last p s ≡ end_or b xs
  pub chain : Chain l b xs none

pub set_slot_self {ℓ} :
    {A : Type ℓ} (f : Ref → String → A) (p : Ref) (s : String) (v : A) → set_slot f p s v p s ≡ v
set_slot_self f p s v = rw ((==_iff p p).1 refl, str_eq_refl s)

pub record OtherSlot (p : Ref) (s : String) (q : Ref) (t : String) : Type 0 where
  pub ne : p ≡ q → s ≡ t → ⊥

pub set_slot_ne {ℓ} :
    {A : Type ℓ} (f : Ref → String → A) (p : Ref) (s : String) (v : A) (q : Ref) (t : String)
    → OtherSlot p s q t
    → set_slot f p s v q t ≡ f q t
set_slot_ne f p s v q t o =
    if_elim (λ r. r ≡ f q t) (p == q) _ (f q t)
      (λ e.
        if_elim (λ r. r ≡ f q t) (str_eq s t) v (f q t)
          (λ e'. absurd (o.ne ((==_iff p q).0 e) ((eq_iff s t).0 e'))) (λ _. refl))
      (λ _. refl)

-- To prove something of each slot: of the one that was written, and of each other one.
pub by_slot {κ} :
    (P : Ref → String → Type κ) (p : Ref) (s : String)
    → P p s
    → ((q : Ref) (t : String) → OtherSlot p s q t → P q t)
    → (q : Ref) (t : String) → P q t
by_slot P p s here other q t = elim (Bool-cases (p == q)) [
  | inr no' ↦ other q t (record { ne = λ e _. absurd (false≢true (sym no' ∙ (==_iff p q).1 e)) })
  | inl yes' ↦ elim (Bool-cases (str_eq s t)) [
    | inr no' ↦ other q t (record { ne = λ _ e. absurd (false≢true (sym no' ∙ (eq_iff s t).1 e)) })
    | inl yes'' ↦
        subst (λ z. P z t) ((==_iff p q).0 yes') (subst (λ z. P p z) ((eq_iff s t).0 yes'') here)
  ]
]

module _ (l : Links) (p : Ref) (s : String) where
  -- The front part of a list, behind which another node is linked.
  pub Front-link_next :
      (xs : List Ref) (a v : Option Ref)
      → Distinct xs
      → Front l p s xs a
      → Front (link_next l (end_or none xs) (some p) s v) p s xs v
  Front-link_next [] a v n f = record { first = set_slot_self l.slot_first p s v; chain = tt }
  Front-link_next (x ∷ xs) a v n f = elim (Option-cases (end_or (some x) xs)) [
    | inl e ↦ absurd (some_end x xs e)
    | inr (q, e) ↦
        rw e (record { first = f.first; chain = Chain-set_next_last l x xs q v none a e n f.chain })
  ]
    where
      some_end : (x : Ref) (xs : List Ref) → end_or (some x) xs ≡ none → ⊥
      some_end x [] e = cc
      some_end x (y ∷ xs) e = some_end y xs e

  pub Back-link_prev :
      (b v : Option Ref) (xs : List Ref)
      → Distinct xs
      → Back l p s b xs
      → Back (link_prev l (head_or xs none) (some p) s v) p s v xs
  Back-link_prev b v [] n k = record { last = set_slot_self l.slot_last p s v; chain = tt }
  Back-link_prev b v (x ∷ xs) n k = record {
    last = k.last;
    chain = Chain-set_prev_first l x v b xs none n.0 k.chain;
  }

  -- Each write leaves the other part.
  pub Back-link_next :
      (o v b : Option Ref) (xs : List Ref)
      → NotIn o xs
      → Back l p s b xs
      → Back (link_next l o (some p) s v) p s b xs
  Back-link_next none v b xs n k = record { last = k.last; chain = chain_same xs b k.chain }
    where
      chain_same :
          (xs : List Ref) (b : Option Ref) → Chain l b xs none → Chain (set_first l p s v) b xs none
      chain_same [] b h = tt
      chain_same (x ∷ xs) b h = (h.0, h.1, chain_same xs (some x) h.2)
  Back-link_next (some q) v b xs n k = record {
    last = k.last;
    chain = Chain-set_next_out l q v b xs none n k.chain;
  }

  pub Front-link_prev :
      (o v a : Option Ref) (xs : List Ref)
      → NotIn o xs
      → Front l p s xs a
      → Front (link_prev l o (some p) s v) p s xs a
  Front-link_prev none v a xs n f = record { first = f.first; chain = chain_same xs none f.chain }
    where
      chain_same :
          (xs : List Ref) (b : Option Ref) → Chain l b xs a → Chain (set_last l p s v) b xs a
      chain_same [] b h = tt
      chain_same (x ∷ xs) b h = (h.0, h.1, chain_same xs (some x) h.2)
  Front-link_prev (some q) v a xs n f = record {
    first = f.first;
    chain = Chain-set_prev_out l q v none xs a n f.chain;
  }

module _ (l : Links) (o p : Option Ref) (s : String) (v : Option Ref) where
  pub parent-link_next : (link_next l o p s v).parent ≡ l.parent
  parent-link_next = ground arith

  pub slot_name-link_next : (link_next l o p s v).slot_name ≡ l.slot_name
  slot_name-link_next = ground arith

  pub parent-link_prev : (link_prev l o p s v).parent ≡ l.parent
  parent-link_prev = ground arith

  pub slot_name-link_prev : (link_prev l o p s v).slot_name ≡ l.slot_name
  slot_name-link_prev = ground arith

-- A node of one slot stands in no other.
pub OtherSlot-NotIn :
    (l : Links) (p : Ref) (s : String) (q : Ref) (t : String) (xs ys : List Ref) (x : Ref)
    → OtherSlot p s q t
    → Owned l p s xs
    → Owned l q t ys
    → In x xs
    → In x ys
    → ⊥
OtherSlot-NotIn l p s q t xs ys x o h k m n =
    let a = Owned-In l p s xs x h m in
    let b = Owned-In l q t ys x k n in o.ne (cc (a.0, b.0)) (cc (a.1, b.1))

module _ (l : Links) (p : Ref) (s : String) (q : Ref) (t : String) (other : OtherSlot p s q t) where
  -- The writes leave each other slot.
  pub Slot-link_next :
      (o v : Option Ref) (xs : List Ref)
      → NotIn o xs
      → Slot l q t xs
      → Slot (link_next l o (some p) s v) q t xs
  Slot-link_next none v xs n h = record {
    first = set_slot_ne l.slot_first p s v q t other ∙ h.first;
    last = h.last;
    chain = Chain-same l (set_first l p s v) refl refl none xs none h.chain;
    owned = Owned-same l (set_first l p s v) refl refl q t xs h.owned;
    distinct = h.distinct;
  }
  Slot-link_next (some y) v xs n h = record {
    first = h.first;
    last = h.last;
    chain = Chain-set_next_out l y v none xs none n h.chain;
    owned = Owned-same l (set_next l y v) refl refl q t xs h.owned;
    distinct = h.distinct;
  }

  pub Slot-link_prev :
      (o v : Option Ref) (xs : List Ref)
      → NotIn o xs
      → Slot l q t xs
      → Slot (link_prev l o (some p) s v) q t xs
  Slot-link_prev none v xs n h = record {
    first = h.first;
    last = set_slot_ne l.slot_last p s v q t other ∙ h.last;
    chain = Chain-same l (set_last l p s v) refl refl none xs none h.chain;
    owned = Owned-same l (set_last l p s v) refl refl q t xs h.owned;
    distinct = h.distinct;
  }
  Slot-link_prev (some y) v xs n h = record {
    first = h.first;
    last = h.last;
    chain = Chain-set_prev_out l y v none xs none n h.chain;
    owned = Owned-same l (set_prev l y v) refl refl q t xs h.owned;
    distinct = h.distinct;
  }

-- The two parts of a slot's list, linked to one another, are the slot's list.
pub Slot-join :
    (l : Links) (p : Ref) (s : String) (xs ys : List Ref)
    → Front l p s xs (head_or ys none)
    → Back l p s (end_or none xs) ys
    → Owned l p s (xs ++ ys)
    → Distinct (xs ++ ys)
    → Slot l p s (xs ++ ys)
Slot-join l p s xs ys f k o n = record {
  first = f.first ∙ sym (head_or-append xs ys none);
  last = k.last ∙ sym (end_or-append none xs ys);
  chain = Chain-join l none xs ys none f.chain k.chain;
  owned = o;
  distinct = n;
}

-- A slot's list, cut where a range stands.
pub Slot-Front :
    (l : Links) (p : Ref) (s : String) (xs ys : List Ref)
    → Slot l p s (xs ++ ys)
    → Front l p s xs (head_or ys none)
Slot-Front l p s xs ys h = record {
  first = h.first ∙ head_or-append xs ys none;
  chain = (Chain-append l none xs ys none h.chain).0;
}

pub Slot-Back :
    (l : Links) (p : Ref) (s : String) (xs ys : List Ref)
    → Slot l p s (xs ++ ys)
    → Back l p s (end_or none xs) ys
Slot-Back l p s xs ys h = record {
  last = h.last ∙ end_or-append none xs ys;
  chain = (Chain-append l none xs ys none h.chain).1;
}
