-- ===== src/Links/Before.antt =====
-- The loop of `_insert_into_slot` that links new nodes in front of a target, from the last one to the first. It
-- leaves the slot's first child to the write behind it.
use atomdoc.Prelude.{
  String, ◌≡◌, refl, sym, ap, ◌∙◌, inl, inr, Option, none, some, List, [], ◌∷◌, ◌++◌, Option-cases,
}
use mathlib.Core.Path.{subst}
use mathlib.Core.List.{reverse_aux}
use atomdoc.Links.{
  Ref, Links, set_prev, set_next, set_next_of, attach_links, before_one, before_links, adopt_all,
}
use atomdoc.Links.Chain.{
  In, Distinct, DistinctParts, Distinct-append, Distinct-join, end_or, NotIn, NotIn-end, Chain,
  Chain-append, Chain-join, Chain-same, Chain-set_prev_out, Chain-set_next_out,
  Chain-set_prev_first, Chain-set_next_last, Owned, Owned-append, Owned-join, Owned-same, In-append,
  In-append_left, In-append_right, set_at_self,
}
use atomdoc.Links.Slots.{Slot, OtherSlot, OtherSlot-NotIn}
use atomdoc.Links.Attach.{
  Slot-adopt_out, Slot-set_prev_out, Slot-set_next_out, Owned-adopt_out, Owned-adopt_self,
  adopt_same,
}

-- The slot's list in the course of the loop: `first` is still the slot's first child from before.
pub record Filling (l : Links) (p : Ref) (s : String) (us : List Ref) (y : Ref) (ws : List Ref)
    (first : Option Ref) : Type 0 where
  pub from : l.slot_first p s ≡ first
  pub last : l.slot_last p s ≡ end_or none (us ++ (y ∷ ws))
  pub chain : Chain l none (us ++ (y ∷ ws)) none
  pub owned : Owned l p s (us ++ (y ∷ ws))
  pub distinct : Distinct (us ++ (y ∷ ws))

some_end : (x : Ref) (xs : List Ref) → end_or (some x) xs ≡ none → ⊥
some_end x [] e = cc
some_end x (y ∷ xs) e = some_end y xs e

-- The last node of a list is pointed at another one.
Chain-set_end :
    (l : Links) (us : List Ref) (a v : Option Ref)
    → Distinct us
    → Chain l none us a
    → Chain (set_next_of l (end_or none us) v) none us v
Chain-set_end l [] a v n c = tt
Chain-set_end l (x ∷ xs) a v n c = elim (Option-cases (end_or (some x) xs)) [
  | inl e ↦ absurd (some_end x xs e)
  | inr (q, e) ↦
      subst (λ o. Chain (set_next_of l o v) none (x ∷ xs) v) (sym e)
        (Chain-set_next_last l x xs q v none a e n c)
]

Chain-set_next_of_out :
    (l : Links) (o v b : Option Ref) (xs : List Ref) (a : Option Ref)
    → NotIn o xs
    → Chain l b xs a
    → Chain (set_next_of l o v) b xs a
Chain-set_next_of_out l none v b xs a n c = c
Chain-set_next_of_out l (some q) v b xs a n c = Chain-set_next_out l q v b xs a n c

Slot-set_next_of_out :
    (l : Links) (o v : Option Ref) (q : Ref) (t : String) (xs : List Ref)
    → NotIn o xs
    → Slot l q t xs
    → Slot (set_next_of l o v) q t xs
Slot-set_next_of_out l none v q t xs n h = h
Slot-set_next_of_out l (some y) v q t xs n h = Slot-set_next_out l y v q t xs n h

-- what the write leaves of the rest
set_next_of_same :
    (l : Links) (o v : Option Ref)
    → ((set_next_of l o v).parent ≡ l.parent)
      × ((set_next_of l o v).slot_name ≡ l.slot_name)
      × ((set_next_of l o v).slot_first ≡ l.slot_first)
      × ((set_next_of l o v).slot_last ≡ l.slot_last)
set_next_of_same l none v = (refl, refl, refl, refl)
set_next_of_same l (some q) v = (refl, refl, refl, refl)

end_or-behind :
    (b : Option Ref) (us : List Ref) (x y : Ref) (ws : List Ref)
    → end_or b (us ++ (x ∷ y ∷ ws)) ≡ end_or b (us ++ (y ∷ ws))
end_or-behind b [] x y ws = refl
end_or-behind b (u ∷ us) x y ws = end_or-behind (some u) us x y ws

prev-at :
    (l : Links) (b : Option Ref) (us : List Ref) (y : Ref) (ws : List Ref)
    → Chain l b (us ++ (y ∷ ws)) none
    → l.prev_sibling y ≡ end_or b us
prev-at l b [] y ws c = c.0
prev-at l b (u ∷ us) y ws c = prev-at l (some u) us y ws c.2

-- one round: `x` in front of `y`
module _ (l : Links) (p : Ref) (s : String) (us : List Ref) (y : Ref) (ws : List Ref)
    (first : Option Ref) (x : Ref) (f : Filling l p s us y ws first)
    (fresh : ¬ In x (us ++ (y ∷ ws))) where
  abbrev before : Option Ref
  before = end_or none us

  abbrev l0 : Links
  l0 = adopt_all l (x ∷ []) p s

  abbrev l1 : Links
  l1 = set_next (set_prev l0 x before) x (some y)

  abbrev l2 : Links
  l2 = set_next_of l1 before (some x)

  abbrev l3 : Links
  l3 = set_prev l2 y (some x)

  before_one_lem : before_one l p s y x ≡ l3
  unfolding before_one adopt_all
  before_one_lem =
      ap (λ q. set_prev (set_next_of (attach_links l x p s q (some y)) q (some x)) y (some x))
        (prev-at l none us y ws f.chain)

  parts : DistinctParts us (y ∷ ws)
  parts = Distinct-append us (y ∷ ws) f.distinct

  x_us : ¬ In x us
  x_us m = fresh (In-append_left x us (y ∷ ws) m)

  x_ws : ¬ In x (y ∷ ws)
  x_ws m = fresh (In-append_right x us (y ∷ ws) m)

  -- a chain without `x` is as before after the writes to `x`
  chain1 :
      (b : Option Ref) (xs : List Ref) (a : Option Ref)
      → ¬ In x xs
      → Chain l b xs a
      → Chain l1 b xs a
  chain1 b xs a n c =
      let k = adopt_same p s (x ∷ []) l in
      Chain-set_next_out (set_prev l0 x before) x (some y) b xs a n
        (Chain-set_prev_out l0 x before b xs a n (Chain-same l l0 k.0 k.1 b xs a c))

  us_y : ¬ In y us
  us_y m = parts.apart y m (inl refl)

  front : Chain l3 none us (some x)
  front = Chain-set_prev_out l2 y (some x) none us (some x) us_y (
      Chain-set_end l1 us (some y) (some x) parts.front
        (chain1 none us (some y) x_us (Chain-append l none us (y ∷ ws) none f.chain).0))

  back : Chain l3 (some x) (y ∷ ws) none
  back = Chain-set_prev_first l2 y (some x) before ws none parts.back.0 (
      Chain-set_next_of_out l1 before (some x) before (y ∷ ws) none
        (NotIn-end us (y ∷ ws) parts.apart)
        (chain1 before (y ∷ ws) none x_ws (Chain-append l none us (y ∷ ws) none f.chain).1))

  alone : (z : Ref) → In z us → In z (x ∷ []) → ⊥
  alone z m (inl e) = x_us (subst (λ w. In w us) e m)
  alone z m (inr e) = elim e [ ]

  middle : Chain l3 before (x ∷ []) (some y)
  middle =
      Chain-set_prev_out l2 y (some x) before (x ∷ []) (some y)
        (λ m. elim m [ inl e ↦ x_ws (inl (sym e)) | inr e ↦ elim e [ ] ])
        (Chain-set_next_of_out l1 before (some x) before (x ∷ []) (some y)
          (NotIn-end us (x ∷ []) alone)
          (set_at_self l0.prev_sibling x before, set_at_self l0.next_sibling x (some y), tt))

  owned3 : (q : Ref) (t : String) (xs : List Ref) → Owned l0 q t xs → Owned l3 q t xs
  owned3 =
      Owned-same l0 l3 (set_next_of_same l1 before (some x)).0
        (set_next_of_same l1 before (some x)).1

  x_out : (xs : List Ref) → ¬ In x xs → (z : Ref) → In z (x ∷ []) → In z xs → ⊥
  x_out xs n z (inl e) m = n (subst (λ w. In w xs) e m)
  x_out xs n z (inr e) m = elim e [ ]

  before_one-Filling : Filling l3 p s us x (y ∷ ws) first
  before_one-Filling = record {
    from =
        ap (λ (g : Ref → String → Option Ref). g p s)
          ((set_next_of_same l1 before (some x)).2 ∙ (adopt_same p s (x ∷ []) l).2)
        ∙ f.from;
    last =
        ap (λ (g : Ref → String → Option Ref). g p s)
          ((set_next_of_same l1 before (some x)).3 ∙ (adopt_same p s (x ∷ []) l).3)
        ∙ f.last
        ∙ sym (end_or-behind none us x y ws);
    chain =
        Chain-join l3 none us (x ∷ y ∷ ws) none front
          (Chain-join l3 before (x ∷ []) (y ∷ ws) none middle back);
    owned =
        let o = Owned-append l p s us (y ∷ ws) f.owned in
        Owned-join l3 p s us (x ∷ y ∷ ws)
          (owned3 p s us (Owned-adopt_out p s (x ∷ []) l p s us (x_out us x_us) o.0))
          (Owned-join l3 p s (x ∷ []) (y ∷ ws)
            (owned3 p s (x ∷ []) (Owned-adopt_self p s (x ∷ []) l))
            (owned3 p s (y ∷ ws)
              (Owned-adopt_out p s (x ∷ []) l p s (y ∷ ws) (x_out (y ∷ ws) x_ws) o.1)));
    distinct = Distinct-join us (x ∷ y ∷ ws) (record {
      front = parts.front;
      back = (x_ws, parts.back);
      apart =
          λ z m n. elim n [ inl e ↦ x_us (subst (λ w. In w us) e m) | inr n ↦ parts.apart z m n ];
    });
  }

  before_one-other :
      (q : Ref) (t : String) (xs : List Ref)
      → OtherSlot p s q t
      → ¬ In x xs
      → Slot l q t xs
      → Slot l3 q t xs
  before_one-other q t xs other n h =
      let far = λ (z : Ref) (m : In z (us ++ (y ∷ ws))) (k : In z xs).
        OtherSlot-NotIn l p s q t (us ++ (y ∷ ws)) xs z other f.owned h.owned m k in
      Slot-set_prev_out l2 y (some x) q t xs
        (λ k. far y (In-append_right y us (y ∷ ws) (inl refl)) k)
        (Slot-set_next_of_out l1 before (some x) q t xs
          (NotIn-end us xs (λ z m k. far z (In-append_left z us (y ∷ ws) m) k))
          (Slot-set_next_out (set_prev l0 x before) x (some y) q t xs n (
            Slot-set_prev_out l0 x before q t xs n
              (Slot-adopt_out l p s (x ∷ []) q t xs (x_out xs n) h))))

-- The list, and its head, after the loop.
pub record Filled (l : Links) (p : Ref) (s : String) (zs : List Ref) (first : Option Ref)
    : Type 0 where
  pub from : l.slot_first p s ≡ first
  pub last : l.slot_last p s ≡ end_or none zs
  pub chain : Chain l none zs none
  pub owned : Owned l p s zs
  pub distinct : Distinct zs

fresh_rest :
    (us : List Ref) (y : Ref) (ws : List Ref) (x : Ref) (xs : List Ref)
    → Distinct (x ∷ xs)
    → ((z : Ref) → In z (x ∷ xs) → In z (us ++ (y ∷ ws)) → ⊥)
    → (z : Ref) → In z xs
    → In z (us ++ (x ∷ y ∷ ws))
    → ⊥
fresh_rest us y ws x xs d f z m n = elim (In-append z us (x ∷ y ∷ ws) n) [
  | inl a ↦ f z (inr m) (In-append_left z us (y ∷ ws) a)
  | inr b ↦ elim b [
    | inl e ↦ d.0 (subst (λ w. In w xs) e m)
    | inr k ↦ f z (inr m) (In-append_right z us (y ∷ ws) k)
  ]
]

module _ (p : Ref) (s : String) (us : List Ref) (first : Option Ref) where
  pub before_links-Filled :
      (l : Links) (y : Ref) (ws xs : List Ref)
      → Filling l p s us y ws first
      → Distinct xs
      → ((z : Ref) → In z xs → In z (us ++ (y ∷ ws)) → ⊥)
      → Filled (before_links l p s y xs) p s (us ++ reverse_aux xs (y ∷ ws)) first
  unfolding before_links
  before_links-Filled l y ws [] f d out = record {
    from = f.from;
    last = f.last;
    chain = f.chain;
    owned = f.owned;
    distinct = f.distinct;
  }
  before_links-Filled l y ws (x ∷ xs) f d out =
      let fresh = out x (inl refl) in
      rw (before_one_lem l p s us y ws first x f fresh) (
        before_links-Filled (l3 l p s us y ws first x f fresh) x (y ∷ ws) xs
          (before_one-Filling l p s us y ws first x f fresh) d.1 (fresh_rest us y ws x xs d out))

  pub before_links-other :
      (l : Links) (y : Ref) (ws xs : List Ref)
      → Filling l p s us y ws first
      → Distinct xs
      → ((z : Ref) → In z xs → In z (us ++ (y ∷ ws)) → ⊥)
      → (q : Ref) (t : String) (zs : List Ref) → OtherSlot p s q t
      → ((z : Ref) → In z xs → In z zs → ⊥)
      → Slot l q t zs
      → Slot (before_links l p s y xs) q t zs
  unfolding before_links
  before_links-other l y ws [] f d out q t zs other apart h = h
  before_links-other l y ws (x ∷ xs) f d out q t zs other apart h =
      let fresh = out x (inl refl) in
      rw (before_one_lem l p s us y ws first x f fresh) (
        before_links-other (l3 l p s us y ws first x f fresh) x (y ∷ ws) xs
          (before_one-Filling l p s us y ws first x f fresh) d.1 (fresh_rest us y ws x xs d out) q t
          zs other (λ z m. apart z (inr m))
          (before_one-other l p s us y ws first x f fresh q t zs other (apart x (inl refl)) h))
