-- ===== src/Doc/Before.antt =====
-- What an insertion in front of a node does to the lists of children that a document's links represent.
use atomdoc.Prelude.{
  ◌+◌, String, ◌≡◌, refl, sym, ap, ◌∙◌, ◌≢◌, ◌⊎◌, inl, inr, true, false, none, some, List, [], ◌∷◌,
  ◌++◌, reverse, ◌==◌, ==_iff, Bool-cases, if_elim,
}
use mathlib.Core.Path.{subst}
use mathlib.Core.List.{reverse_aux, reverse_aux-eq, reverse-reverse}
use atomdoc.Links.{Ref, Links, set_slot, set_first, set_prev, set_next_of, before_one, before_links}
use atomdoc.Links.Chain.{In, Distinct, head_or, Chain-same, Owned-same, In-append_right}
use atomdoc.Links.Slots.{
  Slot, Kids, Represents, OtherSlot, by_slot, set_slot_self, set_slot_ne, Slot-link_next,
}
use atomdoc.Links.Before.{Filling, Filled, before_links-Filled, before_links-other}
use atomdoc.Doc.{Doc}
use atomdoc.Doc.Inserts.{on_insert_range_before, record_insert}
use atomdoc.Doc.Insert.{attach_node, before_nodes, insert_before, first_before, same_ref}
use atomdoc.Doc.Linking.{attach_node-links, record_nodes-links, record_insert-links}

on_insert_range_before-links :
    (d : Doc) (p target : Ref) (s : String) (xs : List Ref)
    → (on_insert_range_before d p target s xs).links ≡ d.links
unfolding on_insert_range_before
on_insert_range_before-links d p target s xs =
    record_nodes-links (record_insert d p s xs (d.links.prev_sibling target) (some target)) xs
    ∙ record_insert-links d p s xs (d.links.prev_sibling target) (some target)

before_nodes-links :
    (d : Doc) (p : Ref) (s : String) (target : Ref) (xs : List Ref)
    → (before_nodes d p s target xs).links ≡ before_links d.links p s target xs
unfolding before_nodes before_links before_one
before_nodes-links d p s target [] = refl
before_nodes-links d p s target (x ∷ xs) =
    let q = d.links.prev_sibling target in
    let d1 = attach_node d x p s q (some target) in
    before_nodes-links
      (record d1 { links = set_prev (set_next_of d1.links q (some x)) target (some x) }) p s x xs
    ∙ ap
        (λ (l : Links). before_links (set_prev (set_next_of l q (some x)) target (some x)) p s x xs)
        (attach_node-links d x p s q (some target))

same_ref-false : (x y : Ref) → x ≢ y → same_ref (some x) (some y) ≡ false
same_ref-false x y h = elim (Bool-cases (x == y)) [
  | inl same ↦ absurd (h ((==_iff x y).0 same))
  | inr other ↦ other
]

module _ (p : Ref) (s : String) (us : List Ref) (target : Ref) (vs : List Ref) (x : Ref)
    (xs : List Ref) where
  -- The list of the slot where the first child is written, and where it need not be.
  first_before-Slot :
      (d : Doc) (us : List Ref)
      → Distinct (us ++ (target ∷ vs))
      → Filled d.links p s (us ++ (x ∷ (xs ++ (target ∷ vs)))) (head_or (us ++ (target ∷ vs)) none)
      → Slot (first_before d p s target (x ∷ xs)).links p s (us ++ (x ∷ (xs ++ (target ∷ vs))))
  unfolding first_before
  first_before-Slot d [] n f =
      let found : same_ref (d.links.slot_first p s) (some target) ≡ true =
        ap (λ o. same_ref o (some target)) f.from ∙ (==_iff target target).1 refl in
      let l1 = set_first d.links p s (some x) in
      let zs = x ∷ (xs ++ (target ∷ vs)) in
      rw found (record {
        first = set_slot_self d.links.slot_first p s (some x);
        last = f.last;
        chain = Chain-same d.links l1 refl refl none zs none f.chain;
        owned = Owned-same d.links l1 refl refl p s zs f.owned;
        distinct = f.distinct;
      })
  first_before-Slot d (u ∷ us) n f =
      let apart : u ≢ target = λ e. n.0 (In-append_right u us (target ∷ vs) (inl e)) in
      let found : same_ref (d.links.slot_first p s) (some target) ≡ false =
        ap (λ o. same_ref o (some target)) f.from ∙ same_ref-false u target apart in
      rw found (record {
        first = f.from;
        last = f.last;
        chain = f.chain;
        owned = f.owned;
        distinct = f.distinct;
      })

  first_before-other :
      (d : Doc) (q : Ref) (t : String) (zs : List Ref)
      → OtherSlot p s q t
      → Slot d.links q t zs
      → Slot (first_before d p s target (x ∷ xs)).links q t zs
  unfolding first_before
  first_before-other d q t zs other h =
      if_elim (λ (r : Doc). Slot r.links q t zs) (same_ref (d.links.slot_first p s) (some target)) _
        _ (λ _. Slot-link_next d.links p s q t other none (some x) zs tt h) (λ _. h)

reverse_aux-reverse : (nodes ws : List Ref) → reverse_aux (reverse nodes) ws ≡ nodes ++ ws
reverse_aux-reverse nodes ws =
    reverse_aux-eq (reverse nodes) ws ∙ ap (λ (zs : List Ref). zs ++ ws) (reverse-reverse nodes)

In-reverse_aux : (z : Ref) (xs ws : List Ref) → In z (reverse_aux xs ws) → In z xs ⊎ In z ws
In-reverse_aux z [] ws m = inr m
In-reverse_aux z (x ∷ xs) ws m = elim (In-reverse_aux z xs (x ∷ ws) m) [
  | inl a ↦ inl (inr a)
  | inr b ↦ elim b [ inl e ↦ inl (inl e) | inr k ↦ inr k ]
]

Distinct-reverse_aux :
    (xs ws : List Ref)
    → Distinct xs
    → Distinct ws
    → ((z : Ref) → In z xs → In z ws → ⊥)
    → Distinct (reverse_aux xs ws)
Distinct-reverse_aux [] ws d e f = e
Distinct-reverse_aux (x ∷ xs) ws d e f =
    Distinct-reverse_aux xs (x ∷ ws) d.1 (f x (inl refl), e)
      (λ z m n. elim n [ inl same ↦ d.0 (subst (λ w. In w xs) same m) | inr k ↦ f z (inr m) k ])

In-reverse : (z : Ref) (xs : List Ref) → In z (reverse xs) → In z xs
In-reverse z xs m = elim (In-reverse_aux z xs [] m) [ inl a ↦ a | inr b ↦ absurd b ]

-- Inserting new nodes in front of a child puts them there, in order, in the slot's list of children, and
-- leaves every other list. New is a node that stands in no slot, and no node is given twice.
pub insert_before-Represents :
    (d : Doc) (kids : Kids) (p : Ref) (s : String) (us : List Ref) (target : Ref) (vs : List Ref)
    (x : Ref) (xs : List Ref)
    → Represents d.links kids
    → kids p s ≡ us ++ (target ∷ vs)
    → Distinct (x ∷ xs)
    → ((q : Ref) (t : String) (z : Ref) → In z (x ∷ xs) → In z (kids q t) → ⊥)
    → Represents
        (insert_before p s (x ∷ xs) target d).links
        (set_slot kids p s (us ++ (x ∷ (xs ++ (target ∷ vs)))))
unfolding insert_before
insert_before-Represents d kids p s us target vs x xs r k n out =
    let d1 = on_insert_range_before d p target s (x ∷ xs) in
    let same = on_insert_range_before-links d p target s (x ∷ xs) in
    let bumped : Doc = record d1 { tree_version = d1.tree_version + 1 } in
    let r1 : Represents bumped.links kids = subst (λ l. Represents l kids) (sym same) r in
    let d2 = before_nodes bumped p s target (reverse (x ∷ xs)) in
    let links2 : d2.links ≡ before_links bumped.links p s target (reverse (x ∷ xs)) =
      before_nodes-links bumped p s target (reverse (x ∷ xs)) in
    let first = head_or (us ++ (target ∷ vs)) none in
    let slot = subst (λ zs. Slot bumped.links p s zs) k (r1.slot p s) in
    let filling : Filling bumped.links p s us target vs first = record {
      from = slot.first;
      last = slot.last;
      chain = slot.chain;
      owned = slot.owned;
      distinct = slot.distinct;
    } in
    let distinct = Distinct-reverse_aux (x ∷ xs) [] n tt (λ z m e. e) in
    let apart = λ (q : Ref) (t : String) (z : Ref) (m : In z (reverse (x ∷ xs))).
      out q t z (In-reverse z (x ∷ xs) m) in
    let apart_here = λ (z : Ref) (m : In z (reverse (x ∷ xs))) (e : In z (us ++ (target ∷ vs))).
      apart p s z m (subst (In z) (sym k) e) in
    let filled : Filled d2.links p s (us ++ (x ∷ (xs ++ (target ∷ vs)))) first =
      subst (λ l. Filled l p s (us ++ (x ∷ (xs ++ (target ∷ vs)))) first) (sym links2)
        (subst
          (λ zs.
            Filled (before_links bumped.links p s target (reverse (x ∷ xs))) p s (us ++ zs) first)
          (reverse_aux-reverse (x ∷ xs) (target ∷ vs))
          (before_links-Filled p s us first bumped.links target vs (reverse (x ∷ xs)) filling
            distinct apart_here)) in
    record {
      slot =
          by_slot (λ q t. Slot _ q t (set_slot kids p s (us ++ (x ∷ (xs ++ (target ∷ vs)))) q t)) p
            s
            (rw (set_slot_self kids p s (us ++ (x ∷ (xs ++ (target ∷ vs)))))
              (first_before-Slot p s us target vs x xs d2 us slot.distinct filled))
            (λ q t other. rw (set_slot_ne kids p s (us ++ (x ∷ (xs ++ (target ∷ vs)))) q t other) (
              first_before-other p s us target vs x xs d2 q t (kids q t) other (
                subst (λ l. Slot l q t (kids q t)) (sym links2)
                  (before_links-other p s us first bumped.links target vs (reverse (x ∷ xs)) filling
                    distinct apart_here q t (kids q t) other (apart q t) (r1.slot q t)))));
    }
