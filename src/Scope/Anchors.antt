-- ===== src/Scope/Anchors.antt =====
-- _scope.py: the anchors that `parse_anchors` reads.
use atomdoc.Prelude.{
  ℕ, ◌≤◌, String, ◌≡◌, refl, sym, ap, ◌∙◌, ◌⊎◌, inl, inr, Option, none, some, List, [], ◌∷◌, arith,
  eq_iff, ltb, str_eq, if◌then◌else◌, str_eq_refl, Bool-cases, if_elim,
}
use mathlib.Core.Path.{subst}
use atomdoc.Prelude.Exec.{ok}
use atomdoc.Prelude.Dict.{lookup, insert, lookup-insert}
use atomdoc.Scope.{
  Anchors, RawAnchor, entry_of, more_generous, merged, add_anchor, add_anchors, parse_anchors,
}

-- one depth is no more generous than another
abbrev pub IsWithin : Option ℕ → Option ℕ → Type 0
IsWithin d none = Unit
IsWithin none (some n) = ⊥
IsWithin (some m) (some n) = m ≤ n

-- an entry of the request with the ID and the depth, or an anchor that was there
abbrev pub IsNamed : Anchors → List RawAnchor → String → Option ℕ → Type 0
IsNamed anchors [] i d = lookup anchors i ≡ some d
IsNamed anchors (raw ∷ raws) i d = (entry_of raw ≡ some (i, d)) ⊎ IsNamed anchors raws i d

IsWithin-refl : (d : Option ℕ) → IsWithin d d
IsWithin-refl none = tt
IsWithin-refl (some n) = omega arith

IsWithin-trans : (a b c : Option ℕ) → IsWithin a b → IsWithin b c → IsWithin a c
IsWithin-trans a b none h k = tt
IsWithin-trans a none (some n) h k = absurd k
IsWithin-trans none (some m) (some n) h k = absurd h
IsWithin-trans (some l) (some m) (some n) h k = omega (arith, h, k)

more_generous-left : (c d : Option ℕ) → IsWithin c (more_generous c d)
more_generous-left none d = tt
more_generous-left (some c) none = tt
more_generous-left (some c) (some d) =
    if_elim (IsWithin (some c)) (ltb c d) (some d) (some c) (λ e. ground (arith, e))
      (λ _. omega arith)

more_generous-right : (c d : Option ℕ) → IsWithin d (more_generous c d)
more_generous-right none d = tt
more_generous-right (some c) none = tt
more_generous-right (some c) (some d) =
    if_elim (IsWithin (some d)) (ltb c d) (some d) (some c) (λ _. omega arith)
      (λ e. ground (arith, e))

more_generous-either : (c d : Option ℕ) → (more_generous c d ≡ c) ⊎ (more_generous c d ≡ d)
more_generous-either none d = inl refl
more_generous-either (some c) none = inr refl
more_generous-either (some c) (some d) =
    if_elim (λ o. (o ≡ some c) ⊎ (o ≡ some d)) (ltb c d) (some d) (some c) (λ _. inr refl)
      (λ _. inl refl)

-- the depth that is kept for an ID, of those that the request names
pub record IsMostGenerous (anchors : Anchors) (raws : List RawAnchor) (result : Anchors)
    (i : String) : Type 0 where
  -- it is named
  pub named : (d : Option ℕ) → lookup result i ≡ some d → IsNamed anchors raws i d
  -- and no depth that is named is more generous
  pub greatest :
      (d : Option ℕ)
      → IsNamed anchors raws i d
      → (k : Option ℕ) × (lookup result i ≡ some k) × IsWithin d k

merged-either : (o : Option (Option ℕ)) (d : Option ℕ) → (o ≡ some (merged o d)) ⊎ (merged o d ≡ d)
merged-either none d = inr refl
merged-either (some c) d = elim (more_generous-either c d) [
  | inl e ↦ inl (ap some (sym e))
  | inr e ↦ inr e
]

merged-new : (o : Option (Option ℕ)) (d : Option ℕ) → IsWithin d (merged o d)
merged-new none d = IsWithin-refl d
merged-new (some c) d = more_generous-right c d

merged-old : (o : Option (Option ℕ)) (c d : Option ℕ) → o ≡ some c → IsWithin c (merged o d)
merged-old none c d e = absurd cc
merged-old (some b) c d e =
    subst (λ x. IsWithin x (more_generous b d)) (some_injective e) (more_generous-left b d)
  where
    some_injective : {a b : Option ℕ} → some a ≡ some b → a ≡ b
    some_injective e = cc

-- what the names have from before is carried along
IsNamed-map {κ} :
    (X : Type κ) (a b : Anchors) (raws : List RawAnchor) (i : String) (d : Option ℕ)
    → (lookup b i ≡ some d → X ⊎ (lookup a i ≡ some d))
    → IsNamed b raws i d
    → X ⊎ IsNamed a raws i d
IsNamed-map X a b [] i d h n = h n
IsNamed-map X a b (raw ∷ raws) i d h (inl e) = inr (inl e)
IsNamed-map X a b (raw ∷ raws) i d h (inr n) = elim (IsNamed-map X a b raws i d h n) [
  | inl x ↦ inl x
  | inr m ↦ inr (inr m)
]

IsNamed-before :
    (a : Anchors) (raws : List RawAnchor) (i : String) (d : Option ℕ)
    → lookup a i ≡ some d
    → IsNamed a raws i d
IsNamed-before a [] i d h = h
IsNamed-before a (raw ∷ raws) i d h = inr (IsNamed-before a raws i d h)

IsNamed-raise :
    (a b : Anchors) (raws : List RawAnchor) (i : String) (d : Option ℕ)
    → (lookup a i ≡ some d → (e : Option ℕ) × (lookup b i ≡ some e) × IsWithin d e)
    → IsNamed a raws i d
    → (e : Option ℕ) × IsNamed b raws i e × IsWithin d e
IsNamed-raise a b [] i d h n = h n
IsNamed-raise a b (raw ∷ raws) i d h (inl e) = (d, inl e, IsWithin-refl d)
IsNamed-raise a b (raw ∷ raws) i d h (inr n) =
    let r = IsNamed-raise a b raws i d h n in (r.0, inr r.1, r.2)

some_injective {ℓ} : {A : Type ℓ} {a b : A} → some a ≡ some b → a ≡ b
some_injective e = cc

-- one entry, read
module _ (a : Anchors) (raw : RawAnchor) (j : String) (d : Option ℕ)
    (e : entry_of raw ≡ some (j, d)) where
  raised-at :
      (i : String)
      → lookup (insert a j (merged (lookup a j) d)) i
        ≡ (if str_eq j i then some (merged (lookup a j) d) else lookup a i)
  raised-at i = lookup-insert a j (merged (lookup a j) d) i

  named-before :
      (i : String) (k : Option ℕ)
      → lookup (insert a j (merged (lookup a j) d)) i ≡ some k
      → (entry_of raw ≡ some (i, k)) ⊎ (lookup a i ≡ some k)
  named-before i k h = elim (Bool-cases (str_eq j i)) [
    | inr other ↦ inr (sym (raised-at i ∙ rw other refl) ∙ h)
    | inl same ↦
        let i_j : j ≡ i = (eq_iff j i).0 same in
        let value : merged (lookup a j) d ≡ k =
          some_injective (sym (raised-at i ∙ rw same refl) ∙ h) in
        elim (merged-either (lookup a j) d) [
          | inl old ↦ inr (subst (λ x. lookup a x ≡ some k) i_j (old ∙ ap some value))
          | inr new ↦ inl (e ∙ ap (λ x. some (x, d)) i_j ∙ ap (λ x. some (i, x)) (sym new ∙ value))
        ]
  ]

  raised-before :
      (i : String) (c : Option ℕ)
      → lookup a i ≡ some c
      → (k : Option ℕ) × (lookup (insert a j (merged (lookup a j) d)) i ≡ some k) × IsWithin c k
  raised-before i c h = elim (Bool-cases (str_eq j i)) [
    | inr other ↦ (c, raised-at i ∙ rw other h, IsWithin-refl c)
    | inl same ↦
        let i_j : i ≡ j = sym ((eq_iff j i).0 same) in
        (
          merged (lookup a j) d,
          raised-at i ∙ rw same refl,
          merged-old (lookup a j) c d (subst (λ x. lookup a x ≡ some c) i_j h),
        )
  ]

  raised-new : lookup (insert a j (merged (lookup a j) d)) j ≡ some (merged (lookup a j) d)
  raised-new = raised-at j ∙ rw (str_eq_refl j) refl

  IsMostGenerous-raised :
      (raws : List RawAnchor) (result : Anchors) (i : String)
      → IsMostGenerous (insert a j (merged (lookup a j) d)) raws result i
      → IsMostGenerous a (raw ∷ raws) result i
  IsMostGenerous-raised raws result i g = record {
    named = λ k h.
        IsNamed-map (entry_of raw ≡ some (i, k)) a (insert a j (merged (lookup a j) d)) raws i k
          (named-before i k) (g.named k h);
    greatest = λ c n. elim n [
      | inl here ↦
          let same : (j, d) ≡ (i, c) = some_injective (sym e ∙ here) in
          let i_j : j ≡ i = ap (λ (p : String × Option ℕ). p.0) same in
          let d_c : d ≡ c = ap (λ (p : String × Option ℕ). p.1) same in
          let top = g.greatest (merged (lookup a j) d) (
            subst (λ x. IsNamed (insert a j (merged (lookup a j) d)) raws x (merged (lookup a j) d))
              i_j
              (IsNamed-before (insert a j (merged (lookup a j) d)) raws j (merged (lookup a j) d)
                raised-new)) in
          (
            top.0,
            top.1,
            IsWithin-trans c (merged (lookup a j) d) top.0
                (subst (λ x. IsWithin x (merged (lookup a j) d)) d_c (merged-new (lookup a j) d))
                top.2,
          )
      | inr later ↦
          let up =
            IsNamed-raise a (insert a j (merged (lookup a j) d)) raws i c (raised-before i c)
              later in
          let top = g.greatest up.0 up.1 in (top.0, top.1, IsWithin-trans c up.0 top.0 up.2 top.2)
    ];
  }

add_anchors-IsMostGenerous :
    (a : Anchors) (raws : List RawAnchor) (result : Anchors) (i : String)
    → add_anchors a raws ≡ ok result
    → IsMostGenerous a raws result i
unfolding add_anchors
add_anchors-IsMostGenerous a [] result i h =
    let same : a ≡ result = cc in
    subst (λ r. IsMostGenerous a [] r i) same
      (record { named = λ d e. e; greatest = λ d e. (d, e, IsWithin-refl d) })
add_anchors-IsMostGenerous a (raw ∷ raws) result i h =
    go (entry_of raw) refl h (λ b k. add_anchors-IsMostGenerous b raws result i k)
  where
    go :
        (o : Option (String × Option ℕ))
        → entry_of raw ≡ o
        → add_anchor o a (λ b. add_anchors b raws) ≡ ok result
        → ((b : Anchors) → add_anchors b raws ≡ ok result → IsMostGenerous b raws result i)
        → IsMostGenerous a (raw ∷ raws) result i
    go none e k rest = absurd cc
    go (some (j, d)) e k rest =
        IsMostGenerous-raised a raw j d e raws result i
          (rest (insert a j (merged (lookup a j) d)) k)

-- Where a request's anchors are accepted, an ID is an anchor exactly if an entry names it, and its depth
-- is that of an entry and the most generous of them.
pub parse_anchors-IsMostGenerous :
    (raws : List RawAnchor) (result : Anchors) (i : String)
    → parse_anchors (some raws) ≡ ok result
    → IsMostGenerous [] raws result i
unfolding parse_anchors
parse_anchors-IsMostGenerous raws result i h = add_anchors-IsMostGenerous [] raws result i h
