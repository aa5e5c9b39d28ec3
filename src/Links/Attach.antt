-- ===== src/Links/Attach.antt =====
-- The links that a move writes: a range that stands in no slot is put between two neighbours.
use atomdoc.Prelude.{
  String, ◌≡◌, refl, sym, ap, ◌∙◌, inl, inr, Option, none, some, List, [], ◌∷◌, ◌++◌, ◌==◌, ==_iff,
  if_elim,
}
use mathlib.Core.Path.{subst}
use atomdoc.Links.{
  Ref, Links, set_at, set_prev, set_next, set_parent, set_slot_name, link_next, link_prev,
  attach_range, adopt_all,
}
use atomdoc.Links.Chain.{
  In, Distinct, head_or, end_or, Chain, Owned, Chain-join, Owned-append, Owned-join, NotIn-end,
  NotIn-head, end_or-append, Distinct-append, Distinct-join, DistinctParts, In-append,
  In-append_left, In-append_right, Owned-same, Chain-same, Chain-set_prev_out, Chain-set_next_out,
  Chain-set_prev_first, Chain-set_next_last, Chain-link_next, Chain-link_prev, last_In, set_at_ne,
}
use atomdoc.Links.Slots.{
  Slot, Front, Back, OtherSlot, OtherSlot-NotIn, Front-link_next, Back-link_prev, Back-link_next,
  Front-link_prev, Slot-link_next, Slot-link_prev, Slot-join, Slot-Front, Slot-Back,
  parent-link_next, slot_name-link_next, parent-link_prev, slot_name-link_prev,
}

-- What the loop that adopts the range leaves.
module _ (p : Ref) (s : String) where
  pub adopt_same :
      (xs : List Ref) (l : Links)
      → ((adopt_all l xs p s).prev_sibling ≡ l.prev_sibling)
        × ((adopt_all l xs p s).next_sibling ≡ l.next_sibling)
        × ((adopt_all l xs p s).slot_first ≡ l.slot_first)
        × ((adopt_all l xs p s).slot_last ≡ l.slot_last)
  unfolding adopt_all
  adopt_same [] l = (refl, refl, refl, refl)
  adopt_same (x ∷ xs) l = adopt_same xs (set_slot_name (set_parent l x (some p)) x (some s))

  set_at_keeps {ℓ} : {A : Type ℓ} (f : Ref → A) (x y : Ref) (v : A) → f y ≡ v → set_at f x v y ≡ v
  set_at_keeps f x y v e = if_elim (λ r. r ≡ v) (x == y) v (f y) (λ _. refl) (λ _. e)

  adopt_keeps :
      (xs : List Ref) (l : Links) (y : Ref)
      → l.parent y ≡ some p
      → l.slot_name y ≡ some s
      → ((adopt_all l xs p s).parent y ≡ some p) × ((adopt_all l xs p s).slot_name y ≡ some s)
  unfolding adopt_all
  adopt_keeps [] l y e e' = (e, e')
  adopt_keeps (x ∷ xs) l y e e' =
      adopt_keeps xs (set_slot_name (set_parent l x (some p)) x (some s)) y
        (set_at_keeps l.parent x y (some p) e) (set_at_keeps l.slot_name x y (some s) e')

  pub Owned-adopt_self : (xs : List Ref) (l : Links) → Owned (adopt_all l xs p s) p s xs
  unfolding adopt_all
  Owned-adopt_self [] l = tt
  Owned-adopt_self (x ∷ xs) l =
      let l1 = set_slot_name (set_parent l x (some p)) x (some s) in
      let k = adopt_keeps xs l1 x (rw ((==_iff x x).1 refl)) (rw ((==_iff x x).1 refl)) in
      (k.0, k.1, Owned-adopt_self xs l1)

  pub Owned-adopt_out :
      (xs : List Ref) (l : Links) (q : Ref) (t : String) (ys : List Ref)
      → ((x : Ref) → In x xs → In x ys → ⊥)
      → Owned l q t ys
      → Owned (adopt_all l xs p s) q t ys
  unfolding adopt_all
  Owned-adopt_out [] l q t ys n h = h
  Owned-adopt_out (x ∷ xs) l q t ys n h =
      Owned-adopt_out xs (set_slot_name (set_parent l x (some p)) x (some s)) q t ys
        (λ z m. n z (inr m)) (outside ys (n x (inl refl)) h)
    where
      outside :
          (ys : List Ref)
          → ¬ In x ys
          → Owned l q t ys
          → Owned (set_slot_name (set_parent l x (some p)) x (some s)) q t ys
      outside [] n h = tt
      outside (y ∷ ys) n h = (
        set_at_ne l.parent x y (some p) (λ e. n (inl e)) ∙ h.0,
        set_at_ne l.slot_name x y (some s) (λ e. n (inl e)) ∙ h.1,
        outside ys (λ m. n (inr m)) h.2,
      )

pub Slot-adopt_out :
    (l : Links) (p : Ref) (s : String) (xs : List Ref) (q : Ref) (t : String) (ws : List Ref)
    → ((x : Ref) → In x xs → In x ws → ⊥)
    → Slot l q t ws
    → Slot (adopt_all l xs p s) q t ws
Slot-adopt_out l p s xs q t ws out h =
    let same = adopt_same p s xs l in
    record {
      first = ap (λ (f : Ref → String → Option Ref). f q t) same.2 ∙ h.first;
      last = ap (λ (f : Ref → String → Option Ref). f q t) same.3 ∙ h.last;
      chain = Chain-same l (adopt_all l xs p s) same.0 same.1 none ws none h.chain;
      owned = Owned-adopt_out p s xs l q t ws out h.owned;
      distinct = h.distinct;
    }

pub Slot-set_prev_out :
    (l : Links) (x : Ref) (v : Option Ref) (q : Ref) (t : String) (ys : List Ref)
    → ¬ In x ys
    → Slot l q t ys
    → Slot (set_prev l x v) q t ys
Slot-set_prev_out l x v q t ys n h = record {
  first = h.first;
  last = h.last;
  chain = Chain-set_prev_out l x v none ys none n h.chain;
  owned = Owned-same l (set_prev l x v) refl refl q t ys h.owned;
  distinct = h.distinct;
}

pub Slot-set_next_out :
    (l : Links) (x : Ref) (v : Option Ref) (q : Ref) (t : String) (ys : List Ref)
    → ¬ In x ys
    → Slot l q t ys
    → Slot (set_next l x v) q t ys
Slot-set_next_out l x v q t ys n h = record {
  first = h.first;
  last = h.last;
  chain = Chain-set_next_out l x v none ys none n h.chain;
  owned = Owned-same l (set_next l x v) refl refl q t ys h.owned;
  distinct = h.distinct;
}

-- The range `start ∷ ys` is linked in itself and stands in no slot; the slot `s` of `p` holds
-- `us ++ vs`.
module _ (l : Links) (p : Ref) (s : String) (us vs : List Ref) (start : Ref) (ys : List Ref)
    (end : Ref) (b a : Option Ref) (slot : Slot l p s (us ++ vs))
    (ends : end_or (some start) ys ≡ some end) (range : Chain l b (start ∷ ys) a)
    (distinct : Distinct (start ∷ ys))
    (apart : (x : Ref) → In x (start ∷ ys) → In x (us ++ vs) → ⊥) where
  abbrev prev : Option Ref
  prev = end_or none us

  abbrev next : Option Ref
  next = head_or vs none

  abbrev l1 : Links
  l1 = set_prev l start prev

  abbrev l2 : Links
  l2 = link_next l1 prev (some p) s (some start)

  abbrev l3 : Links
  l3 = set_next l2 end next

  abbrev l4 : Links
  l4 = link_prev l3 next (some p) s (some end)

  end_In : In end (start ∷ ys)
  end_In = last_In start ys end ends

  parts : DistinctParts us vs
  parts = Distinct-append us vs slot.distinct

  apart_us : (x : Ref) → In x (start ∷ ys) → In x us → ⊥
  apart_us x m n = apart x m (In-append_left x us vs n)

  apart_vs : (x : Ref) → In x (start ∷ ys) → In x vs → ⊥
  apart_vs x m n = apart x m (In-append_right x us vs n)

  front4 : Front l4 p s us (some start)
  front4 =
      let f = Slot-Front l p s us vs slot in
      let f1 : Front l1 p s us next = record {
        first = f.first;
        chain = Chain-set_prev_out l start prev none us next (apart_us start (inl refl)) f.chain;
      } in
      let f2 = Front-link_next l1 p s us next (some start) parts.front f1 in
      let f3 : Front l3 p s us (some start) = record {
        first = f2.first;
        chain = Chain-set_next_out l2 end next none us (some start) (apart_us end end_In) f2.chain;
      } in
      Front-link_prev l3 p s next (some end) (some start) us
        (NotIn-head vs us (λ x m n. parts.apart x n m)) f3

  back4 : Back l4 p s (some end) vs
  back4 =
      let k = Slot-Back l p s us vs slot in
      let k1 : Back l1 p s prev vs = record {
        last = k.last;
        chain = Chain-set_prev_out l start prev prev vs none (apart_vs start (inl refl)) k.chain;
      } in
      let k2 = Back-link_next l1 p s prev (some start) prev vs (NotIn-end us vs parts.apart) k1 in
      let k3 : Back l3 p s prev vs = record {
        last = k2.last;
        chain = Chain-set_next_out l2 end next prev vs none (apart_vs end end_In) k2.chain;
      } in
      Back-link_prev l3 p s prev (some end) vs parts.back k3

  range4 : Chain l4 prev (start ∷ ys) next
  range4 =
      let c1 = Chain-set_prev_first l start prev b ys a distinct.0 range in
      let c2 =
        Chain-link_next l1 prev (some p) s (some start) prev (start ∷ ys) a
          (NotIn-end us (start ∷ ys) (λ x m n. apart_us x n m)) c1 in
      let c3 = Chain-set_next_last l2 start ys end next prev a ends distinct c2 in
      Chain-link_prev l3 next (some p) s (some end) prev (start ∷ ys) next
        (NotIn-head vs (start ∷ ys) (λ x m n. apart_vs x n m)) c3

  owned4 : (q : Ref) (t : String) (xs : List Ref) → Owned l q t xs → Owned l4 q t xs
  owned4 =
      Owned-same l l4
        (parent-link_prev l3 next (some p) s (some end)
          ∙ parent-link_next l1 prev (some p) s (some start))
        (slot_name-link_prev l3 next (some p) s (some end)
          ∙ slot_name-link_next l1 prev (some p) s (some start))

  Distinct-all : Distinct (us ++ ((start ∷ ys) ++ vs))
  Distinct-all = Distinct-join us ((start ∷ ys) ++ vs) (record {
    front = parts.front;
    back =
        Distinct-join (start ∷ ys) vs
          (record { front = distinct; back = parts.back; apart = apart_vs });
    apart = λ x m n. elim (In-append x (start ∷ ys) vs n) [
      | inl r ↦ apart_us x r m
      | inr v ↦ parts.apart x m v
    ];
  })

  adopted :
      ((adopt_all l4 (start ∷ ys) p s).prev_sibling ≡ l4.prev_sibling)
      × ((adopt_all l4 (start ∷ ys) p s).next_sibling ≡ l4.next_sibling)
      × ((adopt_all l4 (start ∷ ys) p s).slot_first ≡ l4.slot_first)
      × ((adopt_all l4 (start ∷ ys) p s).slot_last ≡ l4.slot_last)
  adopted = adopt_same p s (start ∷ ys) l4

  abbrev l5 : Links
  l5 = adopt_all l4 (start ∷ ys) p s

  chain5 : (c : Option Ref) (xs : List Ref) (d : Option Ref) → Chain l4 c xs d → Chain l5 c xs d
  chain5 = Chain-same l4 l5 adopted.0 adopted.1

  back5 : Back l5 p s prev ((start ∷ ys) ++ vs)
  back5 = record {
    last =
        ap (λ (f : Ref → String → Option Ref). f p s) adopted.3
        ∙ back4.last
        ∙ sym (ap (λ (o : Option Ref). end_or o vs) ends)
        ∙ sym (end_or-append prev (start ∷ ys) vs);
    chain = chain5 prev ((start ∷ ys) ++ vs) none (
        Chain-join l4 prev (start ∷ ys) vs none range4
          (subst (λ o. Chain l4 o vs none) (sym ends) back4.chain));
  }

  owned5 : Owned l5 p s (us ++ ((start ∷ ys) ++ vs))
  owned5 =
      let o = Owned-append l p s us vs slot.owned in
      Owned-join l5 p s us ((start ∷ ys) ++ vs)
        (Owned-adopt_out p s (start ∷ ys) l4 p s us apart_us (owned4 p s us o.0))
        (Owned-join l5 p s (start ∷ ys) vs (Owned-adopt_self p s (start ∷ ys) l4)
          (Owned-adopt_out p s (start ∷ ys) l4 p s vs apart_vs (owned4 p s vs o.1)))

  pub Slot-attached : Slot l5 p s (us ++ ((start ∷ ys) ++ vs))
  Slot-attached =
      Slot-join l5 p s us ((start ∷ ys) ++ vs)
        (record {
          first = ap (λ (f : Ref → String → Option Ref). f p s) adopted.2 ∙ front4.first;
          chain = chain5 none us (some start) front4.chain;
        })
        back5 owned5 Distinct-all

  pub other_attached :
      (q : Ref) (t : String) (ws : List Ref)
      → OtherSlot p s q t
      → ((x : Ref) → In x (start ∷ ys) → In x ws → ⊥)
      → Slot l q t ws
      → Slot l5 q t ws
  other_attached q t ws other out h =
      let far = λ (x : Ref) (m : In x (us ++ vs)) (n : In x ws).
        OtherSlot-NotIn l p s q t (us ++ vs) ws x other slot.owned h.owned m n in
      let h1 = Slot-set_prev_out l start prev q t ws (out start (inl refl)) h in
      let h2 =
        Slot-link_next l1 p s q t other prev (some start) ws
          (NotIn-end us ws (λ x m n. far x (In-append_left x us vs m) n)) h1 in
      let h3 = Slot-set_next_out l2 end next q t ws (out end end_In) h2 in
      let h4 =
        Slot-link_prev l3 p s q t other next (some end) ws
          (NotIn-head vs ws (λ x m n. far x (In-append_right x us vs m) n)) h3 in
      Slot-adopt_out l4 p s (start ∷ ys) q t ws out h4

  pub attach_range_lem : adopt_all (attach_range l start end p s prev next) (start ∷ ys) p s ≡ l5
  unfolding attach_range
  attach_range_lem = refl
