-- ===== src/Scope/Kinds.antt =====
-- _scope.py: the kind of one node, by its distances from the anchors above it, and the nodes that refer to it.
-- Walks up take fuel, one round for each object.
use atomdoc.Prelude.{
  ℕ, zero, suc, ◌+◌, String, ◌≡◌, refl, ap, ◌∙◌, ◌↔◌, inl, inr, Bool, true, false, ◌||◌, Option,
  none, some, List, [], ◌∷◌, arith, leb, ◌==◌, if◌then◌else◌, Bool-cases,
}
use atomdoc.Prelude.Dict.{lookup, get_or, mem, add}
use atomdoc.Links.{Ref}
use atomdoc.Doc.{Doc, id_of}
use atomdoc.Doc.Refs.{Referrer}
use atomdoc.Doc.Traverse.{ancestors}
use atomdoc.Children.{nth}
use atomdoc.Scope.{Kind, full, stub, Anchors}

-- `depth is None or distance <= depth`
abbrev pub reaches : Option ℕ → ℕ → Bool
reaches none distance = true
reaches (some depth) distance = leb distance depth

-- an anchor that reaches as far as the distance
abbrev pub covers : Option (Option ℕ) → ℕ → Bool
covers none distance = false
covers (some depth) distance = reaches depth distance

-- an anchor whose bound ends one step before
abbrev pub ends_before : Option (Option ℕ) → ℕ → Bool
ends_before none distance = false
ends_before (some none) distance = false
ends_before (some (some depth)) distance = distance == depth + 1

module _ (d : Doc) (anchors : Anchors) where
  unfoldable pub is_full_from : ℕ → ℕ → Option Ref → Bool
  is_full_from zero distance x = false
  is_full_from (suc fuel) distance none = false
  is_full_from (suc fuel) distance (some x) =
      covers (lookup anchors (id_of d x)) distance
      || is_full_from fuel (distance + 1) (d.links.parent x)

  -- `_is_full`
  unfoldable pub is_full : Ref → Bool
  unfolding is_full_from
  is_full x = is_full_from d.allocated 0 (some x)

  -- the walk of `_classify`: none where it returns, else the flag `boundary` behind it
  unfoldable pub boundary_from : ℕ → ℕ → Bool → Option Ref → Option Bool
  boundary_from zero distance boundary x = some boundary
  boundary_from (suc fuel) distance boundary none = some boundary
  boundary_from (suc fuel) distance boundary (some x) =
      let anchor = lookup anchors (id_of d x) in
      let rest =
        boundary_from fuel (distance + 1) (boundary || ends_before anchor distance)
          (d.links.parent x) in
      if covers anchor distance then none else rest

  some_full : List Ref → Bool
  unfolding is_full
  some_full [] = false
  some_full (x ∷ xs) = is_full x || some_full xs

distinct_nodes : Doc → List String → List Referrer → List Ref
distinct_nodes d seen [] = []
distinct_nodes d seen ((i, name) ∷ rs) =
    let found = lookup d.node_map i in
    let rest = distinct_nodes d seen rs in
    let rest_seen = distinct_nodes d (i ∷ seen) rs in
    if mem seen i then rest else (elim found [ none ↦ rest | some x ↦ x ∷ rest_seen ])

-- `Doc.referrers`, of any field
unfoldable pub referrers : Doc → Ref → List Ref
unfolding distinct_nodes
referrers d x = distinct_nodes d [] (get_or d.ref_index (id_of d x) [])

module _ (d : Doc) (anchors : Anchors) (ancestor_ids : List String) (x : Ref) where
  kind_behind : Option Bool → Option Kind
  unfolding some_full referrers
  kind_behind none = some full
  kind_behind (some boundary) =
      if boundary || mem ancestor_ids (id_of d x) || x == d.root
      then some stub
      else if some_full d anchors (referrers d x)
      then some stub
      else none

  -- `_classify`
  unfoldable pub classify : Option Kind
  unfolding boundary_from kind_behind
  classify = kind_behind (boundary_from d anchors d.allocated 0 false (some x))

add_all : List String → Doc → List Ref → List String
add_all s d [] = s
add_all s d (x ∷ xs) = add_all (add s (id_of d x)) d xs

-- `_anchor_ancestors`, of the anchors' IDs
unfoldable pub anchor_ancestors : Doc → Anchors → List String → List String
unfolding add_all
anchor_ancestors d [] result = result
anchor_ancestors d ((i, depth) ∷ anchors) result = elim (lookup d.node_map i) [
  | none ↦ anchor_ancestors d anchors result
  | some x ↦
      anchor_ancestors d anchors
        (add_all result d (ancestors d.allocated d.links (d.links.parent x)))
]

-- An anchor stands above a node, or is the node, and its bound is not below the distance.
pub record IsNear (d : Doc) (anchors : Anchors) (path : List Ref) (distance : ℕ) : Type 0 where
  pub steps : ℕ
  pub anchor : Ref
  pub depth : Option ℕ
  pub above : nth path steps ≡ some anchor
  pub is_anchor : lookup anchors (id_of d anchor) ≡ some depth
  pub in_bound : reaches depth (distance + steps) ≡ true

module _ (d : Doc) (anchors : Anchors) where
  -- the two walks agree on the full nodes
  boundary_from-full :
      (fuel distance : ℕ) (boundary : Bool) (x : Option Ref)
      → (boundary_from d anchors fuel distance boundary x ≡ none)
        ↔ (is_full_from d anchors fuel distance x ≡ true)
  unfolding boundary_from is_full_from
  boundary_from-full zero distance boundary x = ground arith
  boundary_from-full (suc fuel) distance boundary none = ground arith
  boundary_from-full (suc fuel) distance boundary (some x) = ground (
    arith,
    boundary_from-full fuel (distance + 1)
        (boundary || ends_before (lookup anchors (id_of d x)) distance) (d.links.parent x),
  )

  IsNear-later :
      (path : List Ref) (x : Ref) (distance : ℕ)
      → IsNear d anchors path (distance + 1)
      → IsNear d anchors (x ∷ path) distance
  unfolding nth
  IsNear-later path x distance n = record {
    steps = suc n.steps;
    anchor = n.anchor;
    depth = n.depth;
    above = n.above;
    is_anchor = n.is_anchor;
    in_bound = ap (reaches n.depth) (omega arith) ∙ n.in_bound;
  }

  covers-IsNear :
      (x : Ref) (path : List Ref) (distance : ℕ) (o : Option (Option ℕ))
      → lookup anchors (id_of d x) ≡ o
      → covers o distance ≡ true
      → IsNear d anchors (x ∷ path) distance
  unfolding nth
  covers-IsNear x path distance none e h = absurd cc
  covers-IsNear x path distance (some depth) e h = record {
    steps = 0;
    anchor = x;
    depth = depth;
    above = refl;
    is_anchor = e;
    in_bound = ap (reaches depth) (omega arith) ∙ h;
  }

  is_full_from-IsNear :
      (fuel distance : ℕ) (x : Option Ref)
      → is_full_from d anchors fuel distance x ≡ true
      → IsNear d anchors (ancestors fuel d.links x) distance
  unfolding is_full_from ancestors
  is_full_from-IsNear zero distance x h = absurd cc
  is_full_from-IsNear (suc fuel) distance none h = absurd cc
  is_full_from-IsNear (suc fuel) distance (some x) h =
      elim (Bool-cases (covers (lookup anchors (id_of d x)) distance)) [
        | inl here ↦
            covers-IsNear x (ancestors fuel d.links (d.links.parent x)) distance
              (lookup anchors (id_of d x)) refl here
        | inr further ↦
            IsNear-later (ancestors fuel d.links (d.links.parent x)) x distance
              (is_full_from-IsNear fuel (distance + 1) (d.links.parent x) (rw further at h))
      ]

  IsNear-is_full_from :
      (fuel distance steps : ℕ) (x : Option Ref) (anchor : Ref) (depth : Option ℕ)
      → nth (ancestors fuel d.links x) steps ≡ some anchor
      → lookup anchors (id_of d anchor) ≡ some depth
      → reaches depth (distance + steps) ≡ true
      → is_full_from d anchors fuel distance x ≡ true
  unfolding is_full_from ancestors nth
  IsNear-is_full_from zero distance steps x anchor depth a e h = absurd cc
  IsNear-is_full_from (suc fuel) distance steps none anchor depth a e h = absurd cc
  IsNear-is_full_from (suc fuel) distance zero (some x) anchor depth a e h =
      let same : x ≡ anchor = cc in
      let here : covers (lookup anchors (id_of d x)) distance ≡ true =
        rw same (rw e (ap (reaches depth) (omega arith) ∙ h)) in
      rw here refl
  IsNear-is_full_from (suc fuel) distance (suc steps) (some x) anchor depth a e h =
      let later =
        IsNear-is_full_from fuel (distance + 1) steps (d.links.parent x) anchor depth a e
          (ap (reaches depth) (omega arith) ∙ h) in
      ground (arith, later)

module _ (d : Doc) (anchors : Anchors) (ancestor_ids : List String) (x : Ref) where
  kind_behind-full :
      (o : Option Bool) → (kind_behind d anchors ancestor_ids x o ≡ some full) ↔ (o ≡ none)
  unfolding kind_behind
  kind_behind-full none = (λ _. refl, λ _. refl)
  kind_behind-full (some b) = ground arith

  -- A node is held in full exactly if an anchor stands above it, or is the node itself, at a distance
  -- within the anchor's depth.
  pub classify-full :
      (classify d anchors ancestor_ids x ≡ some full)
      ↔ IsNear d anchors (ancestors d.allocated d.links (some x)) 0
  unfolding classify
  classify-full =
      let behind = kind_behind-full (boundary_from d anchors d.allocated 0 false (some x)) in
      let walks = boundary_from-full d anchors d.allocated 0 false (some x) in
      (
        λ h. is_full_from-IsNear d anchors d.allocated 0 (some x) (walks.0 (behind.0 h)),
        λ n. behind.1 (
            walks.1 (
              IsNear-is_full_from d anchors d.allocated 0 n.steps (some x) n.anchor n.depth n.above
                n.is_anchor n.in_bound)),
      )
