-- ===== src/Doc/Walks.antt =====
-- The walks along siblings give the lists that the links represent: the fuel is enough.
use atomdoc.Prelude.{
  ℕ, zero, suc, ◌≤◌, ◌<◌, String, ◌≡◌, ◌≢◌, ◌⊎◌, refl, sym, ap, ◌∙◌, true, false, if◌then◌else◌,
  if_elim, inl, inr, Option, none, some, List, [], ◌∷◌, ◌++◌, arith, ◌==◌, ==_iff, Bool-cases,
  length,
}
use mathlib.Core.Path.{subst}
use atomdoc.Prelude.Exec.{ok}
use atomdoc.Links.{Ref, Links}
use atomdoc.Links.Chain.{
  In, Distinct, head_or, end_or, Chain, Chain-append, Distinct-append, last_In, In-append_left,
  In-append_right,
}
use atomdoc.Links.Slots.{Slot, Kids, Represents}
use atomdoc.Doc.{Doc}
use atomdoc.Doc.Traverse.{walk_next, slot_children, iter_range, range_of}

walk_next-Chain :
    (fuel : ℕ) (l : Links) (b : Option Ref) (xs : List Ref)
    → Chain l b xs none
    → length xs ≤ fuel
    → walk_next fuel l (head_or xs none) ≡ xs
unfolding walk_next
walk_next-Chain zero l b [] c h = refl
walk_next-Chain zero l b (x ∷ xs) c h = absurd (omega arith)
walk_next-Chain (suc fuel) l b [] c h = refl
walk_next-Chain (suc fuel) l b (x ∷ xs) c h =
    rw (c.1) (ap (λ (ys : List Ref). x ∷ ys) (walk_next-Chain fuel l (some x) xs c.2 (omega arith)))

iter_range-Chain :
    (fuel : ℕ) (l : Links) (b : Option Ref) (x : Ref) (xs : List Ref) (a : Option Ref) (end : Ref)
    → Chain l b (x ∷ xs) a
    → Distinct (x ∷ xs)
    → end_or (some x) xs ≡ some end
    → length (x ∷ xs) ≤ fuel
    → iter_range fuel l (some x) end ≡ some (x ∷ xs)
unfolding iter_range
iter_range-Chain zero l b x xs a end c n e h = absurd (omega arith)
iter_range-Chain (suc fuel) l b x [] a end c n e h =
    let same : x ≡ end = cc in rw ((==_iff x end).1 same) refl
iter_range-Chain (suc fuel) l b x (y ∷ ys) a end c n e h =
    let rest = iter_range-Chain fuel l (some x) y ys a end c.2 n.1 e (omega arith) in
    elim (Bool-cases (x == end)) [
      | inl same ↦
          absurd
            (n.0 (subst (λ z. In z (y ∷ ys)) (sym ((==_iff x end).0 same)) (last_In y ys end e)))
      | inr other ↦ rw (other, c.1, rest) refl
    ]

-- The children of a slot are the slot's list, if that is no longer than the number of objects.
pub slot_children-Represents :
    (d : Doc) (kids : Kids) (p : Ref) (s : String)
    → Represents d.links kids
    → length (kids p s) ≤ d.allocated
    → slot_children d p s ≡ kids p s
unfolding slot_children
slot_children-Represents d kids p s r h =
    rw ((r.slot p s).first)
      (walk_next-Chain d.allocated d.links none (kids p s) (r.slot p s).chain h)

-- a list without one node
strip : ℕ → List Ref → List Ref
strip n [] = []
strip n (x ∷ xs) = let rest = strip n xs in if x == n then rest else x ∷ rest

In-strip : (n x : Ref) (xs : List Ref) → In x (strip n xs) → In x xs × (x ≢ n)
unfolding strip
In-strip n x [] m = absurd m
In-strip n x (y ∷ xs) m = elim (Bool-cases (y == n)) [
  | inl same ↦ let r = In-strip n x xs (rw same at m) in (inr r.0, r.1)
  | inr other ↦ elim (kept (rw other at m)) [
    | inl e ↦ (inl e, λ e'. true_false (sym ((==_iff y n).1 (sym e ∙ e')) ∙ other))
    | inr k ↦ let r = In-strip n x xs k in (inr r.0, r.1)
  ]
]
  where
    kept : In x (y ∷ strip n xs) → (x ≡ y) ⊎ In x (strip n xs)
    kept m = m

    true_false : true ≡ false → ⊥
    true_false e = cc

Distinct-strip : (n : Ref) (xs : List Ref) → Distinct xs → Distinct (strip n xs)
unfolding strip
Distinct-strip n [] h = tt
Distinct-strip n (x ∷ xs) h =
    if_elim Distinct (x == n) _ _ (λ _. Distinct-strip n xs h.1)
      (λ _. (λ m. h.0 (In-strip n x xs m).0, Distinct-strip n xs h.1))

length-strip_absent : (n : Ref) (xs : List Ref) → ¬ In n xs → length xs ≤ length (strip n xs)
unfolding strip
length-strip_absent n [] h = omega arith
length-strip_absent n (x ∷ xs) h =
    let rest = length-strip_absent n xs (λ m. h (inr m)) in
    if_elim (λ (ys : List Ref). suc (length xs) ≤ length ys) (x == n) _ _
      (λ e. absurd (h (inl (sym ((==_iff x n).0 e))))) (λ _. omega arith)

length-strip : (n : Ref) (xs : List Ref) → Distinct xs → length xs ≤ suc (length (strip n xs))
unfolding strip
length-strip n [] h = omega arith
length-strip n (x ∷ xs) h =
    let rest = length-strip n xs h.1 in
    if_elim (λ (ys : List Ref). suc (length xs) ≤ suc (length ys)) (x == n) _ _
      (λ e.
        let absent =
          length-strip_absent n xs (λ m. h.0 (subst (λ y. In y xs) (sym ((==_iff x n).0 e)) m)) in
        omega arith)
      (λ _. omega arith)

-- There are at most `n` distinct references below `n`.
length-Distinct :
    (n : ℕ) (xs : List Ref) → Distinct xs → ((x : Ref) → In x xs → x < n) → length xs ≤ n
length-Distinct zero [] h f = omega arith
length-Distinct zero (x ∷ xs) h f = absurd (omega (arith, f x (inl refl)))
length-Distinct (suc n) xs h f =
    let rest =
      length-Distinct n (strip n xs) (Distinct-strip n xs h)
        (λ x m. let r = In-strip n x xs m in omega (arith, f x r.0, r.1)) in
    omega (arith, length-strip n xs h)

-- In a document whose slots hold only nodes that were allocated, the walk from a node to a later sibling,
-- on as much fuel as there are objects, ends and gives the part of the slot's list between the two.
pub range_of-Represents :
    (d : Doc) (kids : Kids) (p : Ref) (s : String) (xs : List Ref) (start : Ref) (ys : List Ref)
    (end : Ref) (zs : List Ref)
    → Represents d.links kids
    → ((x : Ref) → In x (kids p s) → x < d.allocated)
    → kids p s ≡ xs ++ ((start ∷ ys) ++ zs)
    → end_or (some start) ys ≡ some end
    → range_of d start end ≡ ok (start ∷ ys)
unfolding range_of
range_of-Represents d kids p s xs start ys end zs r f k e =
    let slot = subst (λ ws. Slot d.links p s ws) k (r.slot p s) in
    let c = Chain-append d.links none xs ((start ∷ ys) ++ zs) none slot.chain in
    let c' = Chain-append d.links (end_or none xs) (start ∷ ys) zs none c.1 in
    let n = Distinct-append xs ((start ∷ ys) ++ zs) slot.distinct in
    let m = (Distinct-append (start ∷ ys) zs n.back).front in
    let h = length-Distinct d.allocated (start ∷ ys) m (λ x i. f x (
      subst (In x) (sym k)
        (In-append_right x xs ((start ∷ ys) ++ zs) (In-append_left x (start ∷ ys) zs i)))) in
    rw (iter_range-Chain d.allocated d.links (end_or none xs) start ys _ end c'.0 m e h, range_of)
      refl
