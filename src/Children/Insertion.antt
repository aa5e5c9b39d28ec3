-- ===== src/Children/Insertion.antt =====
-- _children.py: where `insert` puts a node, within an open transaction.
use atomdoc.Prelude.{
  ℕ, zero, suc, ◌+◌, ◌-◌, ◌≤◌, String, ◌≡◌, refl, sym, ap, ◌∙◌, inl, inr, Option, none, some, List,
  [], ◌∷◌, ◌++◌, arith, ltb, if◌then◌else◌, Bool-cases, length, take, drop, take-all,
}
use mathlib.Core.Path.{subst}
use mathlib.Core.List.{append-nil, append_assoc}
use atomdoc.Prelude.Exec.{Exec, Result, ok, err}
use atomdoc.Types.{append, prepend, after}
use atomdoc.Links.{Ref, set_slot}
use atomdoc.Links.Chain.{In, head_or, Chain, Chain-append, In-append_right}
use atomdoc.Links.Slots.{Kids, Represents}
use atomdoc.Doc.{Doc}
use atomdoc.Doc.Insert.{check_insert, insert_at, insert_append, insert_into_slot, redirect}
use atomdoc.Doc.Linking.{insert_append-Represents}
use atomdoc.Doc.Before.{insert_before-Represents}
use atomdoc.Children.{ChildrenView, Index, nth, nth_from_end}
use atomdoc.Children.Cursor.{IsCurrent, item_of}
use atomdoc.Children.Changes.{
  insert, or_append, put_beside, put_behind, previous_index, insert-Represents,
}

-- the insertion of a node at an index of a list: behind the last one where the index is too great, or counts
-- from the end to the first one or further
abbrev pub inserted : List Ref → Index → Ref → List Ref
inserted xs (Index.from_start i) x = take i xs ++ (x ∷ drop i xs)
inserted xs (Index.from_end k) x =
    if ltb (k + 1) (length xs)
    then take (length xs - (k + 1)) xs ++ (x ∷ drop (length xs - (k + 1)) xs)
    else xs ++ (x ∷ [])

-- The checks of an insertion accept a node, at no child and at each child.
pub record Accepts (d : Doc) (p : Ref) (s : String) (x : Ref) (xs : List Ref) : Type 0 where
  pub alone : check_insert p s (x ∷ []) none d ≡ (ok tt, d)
  pub beside : (t : Ref) → In t xs → check_insert p s (x ∷ []) (some t) d ≡ (ok tt, d)

nth-split :
    (xs : List Ref) (m : ℕ) (t : Ref)
    → nth xs m ≡ some t
    → (xs ≡ take m xs ++ (t ∷ drop (suc m) xs)) × (take m xs ++ (t ∷ []) ≡ take (suc m) xs)
unfolding nth
nth-split [] m t e = absurd cc
nth-split (x ∷ xs) zero t e = (cc, cc)
nth-split (x ∷ xs) (suc m) t e = let r = nth-split xs m t e in (ap (x ∷◌) r.0, ap (x ∷◌) r.1)

nth-beyond : (xs : List Ref) (m : ℕ) → nth xs m ≡ none → (length xs ≤ m) × (drop (suc m) xs ≡ [])
unfolding nth
nth-beyond [] m e = (omega arith, refl)
nth-beyond (x ∷ xs) zero e = absurd cc
nth-beyond (x ∷ xs) (suc m) e = let r = nth-beyond xs m e in (omega (arith, r.0), r.1)

module _ (within : Exec Doc (Unit {0}) → Exec Doc (Unit {0})) (d : Doc) (kids : Kids)
    (v : ChildrenView) (x : Ref) (joins : (body : Exec Doc (Unit {0})) → within body d ≡ body d)
    (r : Represents d.links kids) (accepts : Accepts d v.node v.slot x (kids v.node v.slot))
    (new : (q : Ref) (t : String) → In x (kids q t) → ⊥) where
  -- The call succeeds, and the slot's list is `us`, the node, and `vs`; the other lists are as before.
  record Puts (us vs : List Ref) (e : Result (Unit {0}) × Doc) : Type 0 where
    succeeds : e.0 ≡ ok tt
    links : Represents e.1.links (set_slot kids v.node v.slot (us ++ (x ∷ vs)))

  apart : (q : Ref) (t : String) (z : Ref) → In z (x ∷ []) → In z (kids q t) → ⊥
  apart q t z n m = elim n [ inl e ↦ new q t (subst (λ y. In y (kids q t)) e m) | inr b ↦ absurd b ]

  redirect-Puts :
      (us vs : List Ref)
      → kids v.node v.slot ≡ us ++ vs
      → Puts us vs (redirect within v.node v.slot (x ∷ []) (head_or vs none) d)
  unfolding redirect insert_at
  redirect-Puts us [] k =
      rw (joins _, accepts.alone)
        (record {
          succeeds = refl;
          links =
              subst
                (λ ws.
                  Represents (insert_append v.node v.slot (x ∷ []) d).links
                    (set_slot kids v.node v.slot (ws ++ (x ∷ []))))
                (k ∙ append-nil us)
                (insert_append-Represents d kids v.node v.slot (x ∷ []) r (λ m. m, tt) apart);
        })
  redirect-Puts us (t ∷ vs) k =
      rw
        (
          joins _,
          accepts.beside t (subst (In t) (sym k) (In-append_right t us (t ∷ vs) (inl refl))),
        )
        (record {
          succeeds = refl;
          links = insert_before-Represents d kids v.node v.slot us t vs x [] r k (λ m. m, tt) apart;
        })

  prepend-Puts :
      Puts [] (kids v.node v.slot) (insert_into_slot within v.node v.slot prepend (x ∷ []) none d)
  unfolding insert_into_slot
  prepend-Puts =
      let put = redirect-Puts [] (kids v.node v.slot) refl in
      rw (joins _, accepts.alone, (r.slot v.node v.slot).first)
        (record { succeeds = put.succeeds; links = put.links })

  append-Puts :
      Puts (kids v.node v.slot) [] (insert_into_slot within v.node v.slot append (x ∷ []) none d)
  unfolding insert_into_slot
  append-Puts =
      unfold redirect in
      redirect-Puts (kids v.node v.slot) [] (sym (append-nil (kids v.node v.slot)))

  next-head :
      (us : List Ref) (t : Ref) (vs : List Ref)
      → kids v.node v.slot ≡ us ++ (t ∷ vs)
      → d.links.next_sibling t ≡ head_or vs none
  next-head us t vs k =
      let chain = subst (λ ws. Chain d.links none ws none) k (r.slot v.node v.slot).chain in
      (Chain-append d.links none us (t ∷ vs) none chain).1.1

  after-Puts :
      (us : List Ref) (t : Ref) (vs : List Ref)
      → kids v.node v.slot ≡ us ++ (t ∷ vs)
      → Puts (us ++ (t ∷ [])) vs (insert_into_slot within v.node v.slot after (x ∷ []) (some t) d)
  unfolding insert_into_slot
  after-Puts us t vs k =
      let accepted =
        accepts.beside t (subst (In t) (sym k) (In-append_right t us (t ∷ vs) (inl refl))) in
      let put = redirect-Puts (us ++ (t ∷ [])) vs (k ∙ sym (append_assoc us (t ∷ []) vs)) in
      rw (joins _, accepted, next-head us t vs k)
        (record { succeeds = put.succeeds; links = put.links })

  or_append-ok : (e : Result (Unit {0}) × Doc) → e.0 ≡ ok tt → or_append within v x e ≡ e
  or_append-ok (ok u, d') h = refl
  or_append-ok (err k, d') h = absurd cc

  -- behind the item at an index, or at the end where there is none
  put_beside-Puts :
      (m : ℕ) (o : Option Ref)
      → nth (kids v.node v.slot) m ≡ o
      → Puts
          (take (suc m) (kids v.node v.slot))
          (drop (suc m) (kids v.node v.slot))
          (put_beside within v o x d)
  put_beside-Puts m none e =
      let beyond = nth-beyond (kids v.node v.slot) m e in
      subst (λ us. Puts us (drop (suc m) (kids v.node v.slot)) (put_beside within v none x d))
        (sym (take-all (suc m) (kids v.node v.slot) (omega (arith, beyond.0))))
        (subst (λ vs. Puts (kids v.node v.slot) vs (put_beside within v none x d)) (sym beyond.1)
          append-Puts)
  put_beside-Puts m (some t) e =
      let parts = nth-split (kids v.node v.slot) m t e in
      let put =
        after-Puts (take m (kids v.node v.slot)) t (drop (suc m) (kids v.node v.slot)) parts.0 in
      subst (λ us. Puts us (drop (suc m) (kids v.node v.slot)) (put_beside within v (some t) x d))
        parts.1
        (subst (Puts (take m (kids v.node v.slot) ++ (t ∷ [])) (drop (suc m) (kids v.node v.slot)))
          (sym (or_append-ok _ put.succeeds)) put)

  -- With a cursor that is current, and a node that stands in no slot and that the checks of the insertion
  -- accept, `insert` succeeds within an open transaction, and the slot's list is then the
  -- former one with the node at the index: for an index that is too great, or that counts from the end
  -- to the first item or further, behind all items. All other lists are as before.
  pub insert-inserts :
      (index : Index)
      → IsCurrent d (kids v.node v.slot) v.cursor
      → length (kids v.node v.slot) ≤ d.allocated
      → ((insert within v index x d).1.0 ≡ ok tt)
        × Represents
            (insert within v index x d).1.1.links
            (set_slot kids v.node v.slot (inserted (kids v.node v.slot) index x))
  unfolding previous_index item_of nth_from_end
  insert-inserts index c h =
      let same = insert-Represents within d kids v r index x c h in rw same (put index)
    where
      xs : List Ref
      xs = kids v.node v.slot

      behind : ℕ → Result (Unit {0}) × Doc
      behind m = put_beside within v (nth xs m) x d

      put :
          (index : Index)
          → let e = put_behind within v (previous_index within v index) xs x d in
            (e.0 ≡ ok tt) × Represents e.1.links (set_slot kids v.node v.slot (inserted xs index x))
      put (Index.from_start zero) = (prepend-Puts.succeeds, prepend-Puts.links)
      put (Index.from_start (suc m)) =
          let p = put_beside-Puts m (nth xs m) refl in (p.succeeds, p.links)
      put (Index.from_end k) = elim (Bool-cases (ltb (k + 1) (length xs))) [
        | inl inside ↦
            let m = length xs - (k + 1 + 1) in
            let last : suc m ≡ length xs - (k + 1) = ground (arith, inside) in
            let p =
              subst (λ i. Puts (take i xs) (drop i xs) (behind m)) last
                (put_beside-Puts m (nth xs m) refl) in
            rw inside (p.succeeds, p.links)
        | inr outside ↦ rw outside (append-Puts.succeeds, append-Puts.links)
      ]
