-- ===== src/Links/Append.antt =====
-- The loop of `_insert_into_slot` that links new nodes behind the last child of a slot.
use atomdoc.Prelude.{
  String, ◌≡◌, refl, sym, ap, ◌∙◌, inl, inr, Option, none, some, List, [], ◌∷◌, ◌++◌,
}
use mathlib.Core.Path.{subst}
use atomdoc.Links.{
  Ref, Links, set_slot, set_last, set_prev, set_next, append_one, append_links, link_next,
  adopt_all,
}
use atomdoc.Links.Chain.{
  In, Distinct, head_or, end_or, Chain, Owned, Owned-join, Owned-same, Distinct-join, Chain-join,
  Chain-same, Chain-set_prev_out, Chain-set_next_out, Chain-link_next, NotIn-end, end_or-append,
  head_or-append, In-append, set_at_self,
}
use atomdoc.Links.Slots.{
  Slot, Kids, Represents, Front, OtherSlot, by_slot, set_slot_self, set_slot_ne, OtherSlot-NotIn,
  Front-link_next, Slot-link_next, Slot-link_prev, parent-link_next, slot_name-link_next,
}
use atomdoc.Links.Attach.{
  Slot-adopt_out, Slot-set_prev_out, Slot-set_next_out, Owned-adopt_out, Owned-adopt_self,
  adopt_same,
}

-- A slot's list in the course of the loop, which writes the slot's last child only at its end.
record Opened (l : Links) (p : Ref) (s : String) (us : List Ref) : Type 0 where
  first : l.slot_first p s ≡ head_or us none
  chain : Chain l none us none
  owned : Owned l p s us
  distinct : Distinct us

one_out : (x : Ref) (ws : List Ref) → ¬ In x ws → (y : Ref) → In y (x ∷ []) → In y ws → ⊥
one_out x ws n y (inl e) m = n (subst (λ z. In z ws) e m)
one_out x ws n y (inr e) m = elim e [ ]

module _ (l : Links) (p : Ref) (s : String) (us : List Ref) (x : Ref) (o : Opened l p s us)
    (fresh : ¬ In x us) where
  abbrev current : Option Ref
  current = end_or none us

  abbrev l0 : Links
  l0 = adopt_all l (x ∷ []) p s

  abbrev l1 : Links
  l1 = set_next (set_prev l0 x current) x none

  abbrev l2 : Links
  l2 = link_next l1 current (some p) s (some x)

  append_one_lem : append_one l p s current x ≡ l2
  unfolding append_one adopt_all
  append_one_lem = refl

  same : Owned l0 p s us
  same = Owned-adopt_out p s (x ∷ []) l p s us (one_out x us fresh) o.owned

  front2 : Front l2 p s us (some x)
  front2 =
      let k = adopt_same p s (x ∷ []) l in
      Front-link_next l1 p s us none (some x) o.distinct (record {
        first = ap (λ (f : Ref → String → Option Ref). f p s) k.2 ∙ o.first;
        chain = Chain-set_next_out (set_prev l0 x current) x none none us none fresh (
            Chain-set_prev_out l0 x current none us none fresh
              (Chain-same l l0 k.0 k.1 none us none o.chain));
      })

  new2 : Chain l2 current (x ∷ []) none
  new2 =
      Chain-link_next l1 current (some p) s (some x) current (x ∷ []) none
        (NotIn-end us (x ∷ []) (λ y m n. one_out x us fresh y n m))
        (set_at_self l0.prev_sibling x current, set_at_self l0.next_sibling x none, tt)

  owned2 : Owned l2 p s (us ++ (x ∷ []))
  owned2 =
      Owned-same l0 l2 (parent-link_next l1 current (some p) s (some x))
        (slot_name-link_next l1 current (some p) s (some x)) p s (us ++ (x ∷ []))
        (Owned-join l0 p s us (x ∷ []) same (Owned-adopt_self p s (x ∷ []) l))

  append_one-Opened : Opened l2 p s (us ++ (x ∷ []))
  append_one-Opened = record {
    first = front2.first ∙ sym (head_or-append us (x ∷ []) none);
    chain = Chain-join l2 none us (x ∷ []) none front2.chain new2;
    owned = owned2;
    distinct = Distinct-join us (x ∷ []) (record {
      front = o.distinct;
      back = ((λ m. m), tt);
      apart = λ y m n. one_out x us fresh y n m;
    });
  }

  append_one-other :
      (q : Ref) (t : String) (ws : List Ref)
      → OtherSlot p s q t
      → ¬ In x ws
      → Slot l q t ws
      → Slot l2 q t ws
  append_one-other q t ws other n h =
      Slot-link_next l1 p s q t other current (some x) ws
        (NotIn-end us ws (λ y m k. OtherSlot-NotIn l p s q t us ws y other o.owned h.owned m k))
        (Slot-set_next_out (set_prev l0 x current) x none q t ws n (
          Slot-set_prev_out l0 x current q t ws n
            (Slot-adopt_out l p s (x ∷ []) q t ws (one_out x ws n) h)))

append-nil : (us : List Ref) → us ++ [] ≡ us
append-nil [] = refl
append-nil (u ∷ us) = ap (λ (ws : List Ref). u ∷ ws) (append-nil us)

append_assoc : (us : List Ref) (x : Ref) (xs : List Ref) → (us ++ (x ∷ [])) ++ xs ≡ us ++ (x ∷ xs)
append_assoc [] x xs = refl
append_assoc (u ∷ us) x xs = ap (λ (ws : List Ref). u ∷ ws) (append_assoc us x xs)

-- The nodes to come stand neither in the list so far nor twice.
rest_fresh :
    (us : List Ref) (x : Ref) (xs : List Ref)
    → Distinct (x ∷ xs)
    → ((y : Ref) → In y (x ∷ xs) → In y us → ⊥)
    → (y : Ref) → In y xs
    → In y (us ++ (x ∷ []))
    → ⊥
rest_fresh us x xs d f y m n = elim (In-append y us (x ∷ []) n) [
  | inl a ↦ f y (inr m) a
  | inr b ↦ one_out x xs d.0 y b m
]

module _ (p : Ref) (s : String) where
  append_links-Slot :
      (l : Links) (us xs : List Ref)
      → Opened l p s us
      → Distinct xs
      → ((y : Ref) → In y xs → In y us → ⊥)
      → Slot (append_links l p s (end_or none us) xs) p s (us ++ xs)
  unfolding append_links
  append_links-Slot l us [] o d f =
      subst (λ ws. Slot (set_last l p s (end_or none us)) p s ws) (sym (append-nil us))
        (record {
          first = o.first;
          last = set_slot_self l.slot_last p s (end_or none us);
          chain = Chain-same l (set_last l p s (end_or none us)) refl refl none us none o.chain;
          owned = Owned-same l (set_last l p s (end_or none us)) refl refl p s us o.owned;
          distinct = o.distinct;
        })
  append_links-Slot l us (x ∷ xs) o d f =
      let n = f x (inl refl) in
      let step =
        append_links-Slot (l2 l p s us x o n) (us ++ (x ∷ [])) xs (append_one-Opened l p s us x o n)
          d.1 (rest_fresh us x xs d f) in
      rw (append_one_lem l p s us x o n) (
        subst (λ ws. Slot (append_links (l2 l p s us x o n) p s (some x) xs) p s ws)
          (append_assoc us x xs)
          (subst
            (λ e. Slot (append_links (l2 l p s us x o n) p s e xs) p s ((us ++ (x ∷ [])) ++ xs))
            (end_or-append none us (x ∷ [])) step))

  append_links-other :
      (l : Links) (us xs : List Ref)
      → Opened l p s us
      → Distinct xs
      → ((y : Ref) → In y xs → In y us → ⊥)
      → (q : Ref) (t : String) (ws : List Ref) → OtherSlot p s q t
      → ((y : Ref) → In y xs → In y ws → ⊥)
      → Slot l q t ws
      → Slot (append_links l p s (end_or none us) xs) q t ws
  unfolding append_links
  append_links-other l us [] o d f q t ws other out h =
      Slot-link_prev l p s q t other none (end_or none us) ws tt h
  append_links-other l us (x ∷ xs) o d f q t ws other out h =
      let n = f x (inl refl) in
      let step =
        append_links-other (l2 l p s us x o n) (us ++ (x ∷ [])) xs
          (append_one-Opened l p s us x o n) d.1 (rest_fresh us x xs d f) q t ws other
          (λ y m. out y (inr m))
          (append_one-other l p s us x o n q t ws other (out x (inl refl)) h) in
      rw (append_one_lem l p s us x o n) (
        subst (λ e. Slot (append_links (l2 l p s us x o n) p s e xs) q t ws)
          (end_or-append none us (x ∷ [])) step)

-- The loop adds new nodes, each of which stands in no slot, to the end of the slot's list.
pub append_links-Represents :
    (l : Links) (kids : Kids) (p : Ref) (s : String) (xs : List Ref)
    → Represents l kids
    → Distinct xs
    → ((q : Ref) (t : String) (x : Ref) → In x xs → In x (kids q t) → ⊥)
    → Represents (append_links l p s (l.slot_last p s) xs) (set_slot kids p s (kids p s ++ xs))
append_links-Represents l kids p s xs r d out =
    let h = r.slot p s in
    let o : Opened l p s (kids p s) = record {
      first = h.first;
      chain = h.chain;
      owned = h.owned;
      distinct = h.distinct;
    } in
    rw (h.last) (record {
      slot =
          by_slot (λ q t. Slot _ q t (set_slot kids p s (kids p s ++ xs) q t)) p s
            (rw (set_slot_self kids p s (kids p s ++ xs))
              (append_links-Slot p s l (kids p s) xs o d (out p s)))
            (λ q t other. rw (set_slot_ne kids p s (kids p s ++ xs) q t other) (
              append_links-other p s l (kids p s) xs o d (out p s) q t (kids q t) other (out q t)
                (r.slot q t)));
    })
