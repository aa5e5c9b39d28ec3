-- ===== src/Links/Chain.antt =====
-- Doubly linked chains: what the sibling pointers say of a list of nodes, and how a write changes it.
use atomdoc.Prelude.{
  String, ◌≡◌, refl, ap, ◌∙◌, ◌≢◌, ◌⊎◌, inl, inr, Option, none, some, List, [], ◌∷◌, ◌++◌, ◌==◌,
  ==_iff, if_elim,
}
use mathlib.Core.Path.{subst}
use atomdoc.Links.{
  set_first, set_last, Ref, Links, set_at, set_next, set_prev, link_next, link_prev,
}

abbrev pub In : Ref → List Ref → Type 0
In x [] = ⊥
In x (y ∷ ys) = (x ≡ y) ⊎ In x ys

-- No node stands twice.
abbrev pub Distinct : List Ref → Type 0
Distinct [] = Unit
Distinct (x ∷ xs) = (¬ In x xs) × Distinct xs

-- the head of the list, or what comes behind it
abbrev pub head_or : List Ref → Option Ref → Option Ref
head_or [] a = a
head_or (x ∷ xs) a = some x

-- the last of the list, or what comes before it
abbrev pub end_or : Option Ref → List Ref → Option Ref
end_or b [] = b
end_or b (x ∷ xs) = end_or (some x) xs

-- The nodes `xs` are linked to one another, with `b` in front and `a` behind.
abbrev pub Chain : Links → Option Ref → List Ref → Option Ref → Type 0
Chain l b [] a = Unit
Chain l b (x ∷ xs) a =
    (l.prev_sibling x ≡ b) × (l.next_sibling x ≡ head_or xs a) × Chain l (some x) xs a

-- The nodes `xs` have the parent `p` and the slot `s`.
abbrev pub Owned : Links → Ref → String → List Ref → Type 0
Owned l p s [] = Unit
Owned l p s (x ∷ xs) = (l.parent x ≡ some p) × (l.slot_name x ≡ some s) × Owned l p s xs

pub In-append_left : (x : Ref) (xs ys : List Ref) → In x xs → In x (xs ++ ys)
In-append_left x [] ys h = elim h [ ]
In-append_left x (y ∷ xs) ys (inl e) = inl e
In-append_left x (y ∷ xs) ys (inr h) = inr (In-append_left x xs ys h)

pub In-append_right : (x : Ref) (xs ys : List Ref) → In x ys → In x (xs ++ ys)
In-append_right x [] ys h = h
In-append_right x (y ∷ xs) ys h = inr (In-append_right x xs ys h)

pub In-append : (x : Ref) (xs ys : List Ref) → In x (xs ++ ys) → In x xs ⊎ In x ys
In-append x [] ys h = inr h
In-append x (y ∷ xs) ys (inl e) = inl (inl e)
In-append x (y ∷ xs) ys (inr h) = elim (In-append x xs ys h) [
  | inl h' ↦ inl (inr h')
  | inr h' ↦ inr h'
]

-- what a list of distinct nodes says of its parts
pub record DistinctParts (xs ys : List Ref) : Type 0 where
  pub front : Distinct xs
  pub back : Distinct ys
  pub apart : (x : Ref) → In x xs → In x ys → ⊥

pub Distinct-append : (xs ys : List Ref) → Distinct (xs ++ ys) → DistinctParts xs ys
Distinct-append [] ys h = record { front = tt; back = h; apart = λ x m _. m }
Distinct-append (x ∷ xs) ys h =
    let parts = Distinct-append xs ys h.1 in
    record {
      front = (λ m. h.0 (In-append_left x xs ys m), parts.front);
      back = parts.back;
      apart = λ z m n. elim m [
        | inl e ↦ h.0 (In-append_right x xs ys (rw e at n))
        | inr m' ↦ parts.apart z m' n
      ];
    }

pub Distinct-join : (xs ys : List Ref) → DistinctParts xs ys → Distinct (xs ++ ys)
Distinct-join [] ys h = h.back
Distinct-join (x ∷ xs) ys h = (
  λ m. elim (In-append x xs ys m) [ inl m' ↦ h.front.0 m' | inr m' ↦ h.apart x (inl refl) m' ],
  Distinct-join xs ys
      (record { front = h.front.1; back = h.back; apart = λ z m n. h.apart z (inr m) n }),
)

pub last_In : (x : Ref) (xs : List Ref) (q : Ref) → end_or (some x) xs ≡ some q → In q (x ∷ xs)
last_In x [] q e = inl (cc)
last_In x (y ∷ xs) q e = inr (last_In y xs q e)

-- one node's absence, for the node that an optional reference names
abbrev pub NotIn : Option Ref → List Ref → Type 0
NotIn none xs = Unit
NotIn (some q) xs = ¬ In q xs

pub set_at_self {ℓ} : {A : Type ℓ} (f : Ref → A) (x : Ref) (v : A) → set_at f x v x ≡ v
set_at_self f x v = rw ((==_iff x x).1 refl)

pub set_at_ne {ℓ} : {A : Type ℓ} (f : Ref → A) (x y : Ref) (v : A) → x ≢ y → set_at f x v y ≡ f y
set_at_ne f x y v h =
    if_elim (λ r. r ≡ f y) (x == y) v (f y) (λ e. absurd (h ((==_iff x y).0 e))) (λ _. refl)

module _ (l : Links) where
  pub Chain-append :
      (b : Option Ref) (xs ys : List Ref) (a : Option Ref)
      → Chain l b (xs ++ ys) a
      → Chain l b xs (head_or ys a) × Chain l (end_or b xs) ys a
  Chain-append b [] ys a h = (tt, h)
  Chain-append b (x ∷ []) ys a h = ((h.0, h.1, tt), h.2)
  Chain-append b (x ∷ y ∷ xs) ys a h =
      let (c, c') = Chain-append (some x) (y ∷ xs) ys a h.2 in ((h.0, h.1, c), c')

  pub Chain-join :
      (b : Option Ref) (xs ys : List Ref) (a : Option Ref)
      → Chain l b xs (head_or ys a)
      → Chain l (end_or b xs) ys a
      → Chain l b (xs ++ ys) a
  Chain-join b [] ys a h k = k
  Chain-join b (x ∷ []) ys a h k = (h.0, h.1, k)
  Chain-join b (x ∷ y ∷ xs) ys a h k = (h.0, h.1, Chain-join (some x) (y ∷ xs) ys a h.2 k)

  pub Owned-append :
      (p : Ref) (s : String) (xs ys : List Ref)
      → Owned l p s (xs ++ ys)
      → Owned l p s xs × Owned l p s ys
  Owned-append p s [] ys h = (tt, h)
  Owned-append p s (x ∷ xs) ys h = let (o, o') = Owned-append p s xs ys h.2 in ((h.0, h.1, o), o')

  pub Owned-join :
      (p : Ref) (s : String) (xs ys : List Ref)
      → Owned l p s xs
      → Owned l p s ys
      → Owned l p s (xs ++ ys)
  Owned-join p s [] ys h k = k
  Owned-join p s (x ∷ xs) ys h k = (h.0, h.1, Owned-join p s xs ys h.2 k)

  pub Owned-In :
      (p : Ref) (s : String) (xs : List Ref) (x : Ref)
      → Owned l p s xs
      → In x xs
      → (l.parent x ≡ some p) × (l.slot_name x ≡ some s)
  Owned-In p s [] x h m = elim m [ ]
  Owned-In p s (y ∷ xs) x h (inl e) = rw e (h.0, h.1)
  Owned-In p s (y ∷ xs) x h (inr m) = Owned-In p s xs x h.2 m

  -- A write outside the chain leaves it.
  pub Chain-set_next_out :
      (q : Ref) (v : Option Ref) (b : Option Ref) (xs : List Ref) (a : Option Ref)
      → ¬ In q xs
      → Chain l b xs a
      → Chain (set_next l q v) b xs a
  Chain-set_next_out q v b [] a n h = tt
  Chain-set_next_out q v b (x ∷ xs) a n h = (
    h.0,
    set_at_ne l.next_sibling q x v (λ e. n (inl e)) ∙ h.1,
    Chain-set_next_out q v (some x) xs a (λ m. n (inr m)) h.2,
  )

  pub Chain-set_prev_out :
      (q : Ref) (v : Option Ref) (b : Option Ref) (xs : List Ref) (a : Option Ref)
      → ¬ In q xs
      → Chain l b xs a
      → Chain (set_prev l q v) b xs a
  Chain-set_prev_out q v b [] a n h = tt
  Chain-set_prev_out q v b (x ∷ xs) a n h = (
    set_at_ne l.prev_sibling q x v (λ e. n (inl e)) ∙ h.0,
    h.1,
    Chain-set_prev_out q v (some x) xs a (λ m. n (inr m)) h.2,
  )

  -- A write of the first node's previous, or of the last node's next sibling.
  pub Chain-set_prev_first :
      (x : Ref) (v b : Option Ref) (xs : List Ref) (a : Option Ref)
      → ¬ In x xs
      → Chain l b (x ∷ xs) a
      → Chain (set_prev l x v) v (x ∷ xs) a
  Chain-set_prev_first x v b xs a n h =
      (set_at_self l.prev_sibling x v, h.1, Chain-set_prev_out x v (some x) xs a n h.2)

  pub Chain-set_next_last :
      (x : Ref) (xs : List Ref) (q : Ref) (v b a : Option Ref)
      → end_or (some x) xs ≡ some q
      → Distinct (x ∷ xs)
      → Chain l b (x ∷ xs) a
      → Chain (set_next l q v) b (x ∷ xs) v
  Chain-set_next_last x [] q v b a e n h =
      let same : x ≡ q = cc in (h.0, rw (← same) (set_at_self l.next_sibling x v), tt)
  Chain-set_next_last x (y ∷ xs) q v b a e n h = (
    h.0,
    set_at_ne l.next_sibling q x v (λ e'. n.0 (subst (λ z. In z (y ∷ xs)) e' (last_In y xs q e)))
        ∙ h.1,
    Chain-set_next_last y xs q v (some x) a e n.1 h.2,
  )

-- Only the pointers count.
module _ (l l' : Links) where
  pub Chain-same :
      l'.prev_sibling ≡ l.prev_sibling
      → l'.next_sibling ≡ l.next_sibling
      → (b : Option Ref) (xs : List Ref) (a : Option Ref) → Chain l b xs a
      → Chain l' b xs a
  Chain-same e e' b [] a h = tt
  Chain-same e e' b (x ∷ xs) a h = (
    ap (λ (f : Ref → Option Ref). f x) e ∙ h.0,
    ap (λ (f : Ref → Option Ref). f x) e' ∙ h.1,
    Chain-same e e' (some x) xs a h.2,
  )

  pub Owned-same :
      l'.parent ≡ l.parent
      → l'.slot_name ≡ l.slot_name
      → (p : Ref) (s : String) (xs : List Ref) → Owned l p s xs
      → Owned l' p s xs
  Owned-same e e' p s [] h = tt
  Owned-same e e' p s (x ∷ xs) h = (
    ap (λ (f : Ref → Option Ref). f x) e ∙ h.0,
    ap (λ (f : Ref → Option String). f x) e' ∙ h.1,
    Owned-same e e' p s xs h.2,
  )

pub head_or-append :
    (xs ys : List Ref) (a : Option Ref) → head_or (xs ++ ys) a ≡ head_or xs (head_or ys a)
head_or-append [] ys a = refl
head_or-append (x ∷ xs) ys a = refl

pub end_or-append :
    (b : Option Ref) (xs ys : List Ref) → end_or b (xs ++ ys) ≡ end_or (end_or b xs) ys
end_or-append b [] ys = refl
end_or-append b (x ∷ xs) ys = end_or-append (some x) xs ys

pub next-last :
    (l : Links) (x : Ref) (xs : List Ref) (q : Ref) (b a : Option Ref)
    → end_or (some x) xs ≡ some q
    → Chain l b (x ∷ xs) a
    → l.next_sibling q ≡ a
next-last l x [] q b a e h = let same : x ≡ q = cc in rw (← same) h.1
next-last l x (y ∷ xs) q b a e h = next-last l y xs q (some x) a e h.2

pub NotIn-end : (xs ys : List Ref) → ((x : Ref) → In x xs → In x ys → ⊥) → NotIn (end_or none xs) ys
NotIn-end [] ys h = tt
NotIn-end (x ∷ []) ys h = h x (inl refl)
NotIn-end (x ∷ y ∷ xs) ys h = NotIn-end (y ∷ xs) ys (λ z m. h z (inr m))

pub NotIn-head :
    (xs ys : List Ref) → ((x : Ref) → In x xs → In x ys → ⊥) → NotIn (head_or xs none) ys
NotIn-head [] ys h = tt
NotIn-head (x ∷ xs) ys h = h x (inl refl)

module _ (l : Links) (o p : Option Ref) (s : String) (v : Option Ref) where
  pub Chain-link_next :
      (b : Option Ref) (xs : List Ref) (a : Option Ref)
      → NotIn o xs
      → Chain l b xs a
      → Chain (link_next l o p s v) b xs a
  Chain-link_next b xs a n h = go o p n
    where
      go : (o p : Option Ref) → NotIn o xs → Chain (link_next l o p s v) b xs a
      go none none n = h
      go none (some q) n = Chain-same l (set_first l q s v) refl refl b xs a h
      go (some q) _ n = Chain-set_next_out l q v b xs a n h

  pub Chain-link_prev :
      (b : Option Ref) (xs : List Ref) (a : Option Ref)
      → NotIn o xs
      → Chain l b xs a
      → Chain (link_prev l o p s v) b xs a
  Chain-link_prev b xs a n h = go o p n
    where
      go : (o p : Option Ref) → NotIn o xs → Chain (link_prev l o p s v) b xs a
      go none none n = h
      go none (some q) n = Chain-same l (set_last l q s v) refl refl b xs a h
      go (some q) _ n = Chain-set_prev_out l q v b xs a n h
