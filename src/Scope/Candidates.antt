-- ===== src/Scope/Candidates.antt =====
-- _scope.py: the nodes that `project` looks at again.
use atomdoc.Prelude.{
  String, ◌≡◌, refl, sym, ◌∙◌, inl, inr, true, false, Option, none, some, List, [], ◌∷◌, arith,
  eq_iff, str_eq, if_elim, if◌then◌else◌, Bool-cases,
}
use mathlib.Core.Path.{subst}
use atomdoc.Prelude.Dict.{Dict, lookup, contains, mem, add, mem-add}
use atomdoc.Types.{Value, StatePatch}
use atomdoc.Links.{Ref}
use atomdoc.Links.Chain.{In}
use atomdoc.Doc.{Doc, id_of, class_of}
use atomdoc.Doc.Refs.{ref_names, ids_in}
use atomdoc.Doc.Traverse.{ancestors, descendants}
use atomdoc.Scope.{Anchors}
use atomdoc.Scope.Project.{
  add_ids, add_nodes, add_members, add_moved, add_targets, add_deleted_targets, former, add_former,
  without, node_targets,
}

abbrev pub Sub : List String → List String → Type 0
Sub s t = (i : String) → mem s i ≡ true → mem t i ≡ true

Sub-add : (s : List String) (k : String) → Sub s (add s k)
Sub-add s k i h = ground (arith, mem-add s k i)

mem-add_self : (s : List String) (k : String) → mem (add s k) k ≡ true
mem-add_self s k = ground (arith, mem-add s k k, eq_iff k k)

pub Sub-add_ids : (s is : List String) → Sub s (add_ids s is)
unfolding add_ids
Sub-add_ids s [] i h = h
Sub-add_ids s (k ∷ is) i h = Sub-add_ids (add s k) is i (Sub-add s k i h)

pub mem-add_ids : (s is : List String) (i : String) → mem is i ≡ true → mem (add_ids s is) i ≡ true
unfolding add_ids mem
mem-add_ids s [] i h = absurd cc
mem-add_ids s (k ∷ is) i h = elim (Bool-cases (str_eq k i)) [
  | inl same ↦ Sub-add_ids (add s k) is i (mem-add s k i ∙ rw same refl)
  | inr other ↦ mem-add_ids (add s k) is i (rw other at h)
]

module _ (d : Doc) where
  Sub-add_nodes : (s : List String) (xs : List Ref) → Sub s (add_nodes d s xs)
  unfolding add_nodes
  Sub-add_nodes s [] i h = h
  Sub-add_nodes s (x ∷ xs) i h = Sub-add_nodes (add s (id_of d x)) xs i (Sub-add s (id_of d x) i h)

  -- one round of `add_members`
  abbrev round : Anchors → List String → Ref → List String
  round anchors s x =
      let with_x = add s (id_of d x) in
      if contains anchors (id_of d x)
      then add_nodes d with_x (ancestors d.allocated d.links (d.links.parent x))
      else with_x

  Sub-round :
      (anchors : Anchors) (s : List String) (x : Ref) → Sub (add s (id_of d x)) (round anchors s x)
  Sub-round anchors s x i h =
      if_elim (λ (r : List String). mem r i ≡ true) (contains anchors (id_of d x)) _ _
        (λ _.
          Sub-add_nodes (add s (id_of d x)) (ancestors d.allocated d.links (d.links.parent x)) i h)
        (λ _. h)

  Sub-add_members :
      (anchors : Anchors) (s : List String) (xs : List Ref) → Sub s (add_members d anchors s xs)
  unfolding add_members
  Sub-add_members anchors s [] i h = h
  Sub-add_members anchors s (x ∷ xs) i h =
      Sub-add_members anchors (round anchors s x) xs i
        (Sub-round anchors s x i (Sub-add s (id_of d x) i h))

  mem-add_members :
      (anchors : Anchors) (s : List String) (xs : List Ref) (x : Ref)
      → In x xs
      → mem (add_members d anchors s xs) (id_of d x) ≡ true
  unfolding add_members
  mem-add_members anchors s [] x m = absurd m
  mem-add_members anchors s (y ∷ ys) x (inl e) =
      subst (λ z. mem (add_members d anchors s (y ∷ ys)) (id_of d z) ≡ true) (sym e)
        (Sub-add_members anchors (round anchors s y) ys (id_of d y)
          (Sub-round anchors s y (id_of d y) (mem-add_self s (id_of d y))))
  mem-add_members anchors s (y ∷ ys) x (inr m) = mem-add_members anchors (round anchors s y) ys x m

  Sub-add_moved : (anchors : Anchors) (s is : List String) → Sub s (add_moved d anchors s is)
  unfolding add_moved
  Sub-add_moved anchors s [] i h = h
  Sub-add_moved anchors s (k ∷ is) i h =
      go (lookup d.node_map k) (λ s'. Sub-add_moved anchors s' is)
    where
      go :
          (o : Option Ref)
          → ((s' : List String) → Sub s' (add_moved d anchors s' is))
          → mem
              (elim o [
                | none ↦ add_moved d anchors s is
                | some x ↦ add_moved d anchors (add_members d anchors s (x ∷ descendants d x)) is
              ])
              i
            ≡ true
      go none sub = sub s i h
      go (some x) sub =
          sub (add_members d anchors s (x ∷ descendants d x)) i
            (Sub-add_members anchors s (x ∷ descendants d x) i h)

  pub mem-add_moved :
      (anchors : Anchors) (s is : List String) (k : String) (x y : Ref)
      → mem is k ≡ true
      → lookup d.node_map k ≡ some x
      → In y (x ∷ descendants d x)
      → mem (add_moved d anchors s is) (id_of d y) ≡ true
  unfolding add_moved mem
  mem-add_moved anchors s [] k x y m e n = absurd cc
  mem-add_moved anchors s (j ∷ is) k x y m e n = elim (Bool-cases (str_eq j k)) [
    | inl same ↦ here (subst (λ i. lookup d.node_map i ≡ some x) (sym ((eq_iff j k).0 same)) e)
    | inr other ↦
        go (lookup d.node_map j) (λ s. mem-add_moved anchors s is k x y (rw other at m) e n)
  ]
    where
      here : lookup d.node_map j ≡ some x → mem (add_moved d anchors s (j ∷ is)) (id_of d y) ≡ true
      here e =
          rw (add_moved, e)
            (Sub-add_moved anchors (add_members d anchors s (x ∷ descendants d x)) is (id_of d y)
              (mem-add_members anchors s (x ∷ descendants d x) y n))

      go :
          (o : Option Ref)
          → ((s : List String) → mem (add_moved d anchors s is) (id_of d y) ≡ true)
          → mem
              (elim o [
                | none ↦ add_moved d anchors s is
                | some x ↦ add_moved d anchors (add_members d anchors s (x ∷ descendants d x)) is
              ])
              (id_of d y)
            ≡ true
      go none rest = rest s
      go (some x) rest = rest (add_members d anchors s (x ∷ descendants d x))

  pub Sub-add_targets : (s is : List String) → Sub s (add_targets d s is)
  unfolding add_targets
  Sub-add_targets s [] i h = h
  Sub-add_targets s (k ∷ is) i h = go (lookup d.node_map k) (λ s'. Sub-add_targets s' is)
    where
      go :
          (o : Option Ref)
          → ((s' : List String) → Sub s' (add_targets d s' is))
          → mem
              (elim o [
                | none ↦ add_targets d s is
                | some x ↦ add_targets d (add_ids s (node_targets d x)) is
              ])
              i
            ≡ true
      go none sub = sub s i h
      go (some x) sub = sub (add_ids s (node_targets d x)) i (Sub-add_ids s (node_targets d x) i h)

  pub Sub-add_deleted_targets :
      (s : List String) (deleted : Dict Ref) → Sub s (add_deleted_targets d s deleted)
  unfolding add_deleted_targets
  Sub-add_deleted_targets s [] i h = h
  Sub-add_deleted_targets s ((k, x) ∷ entries) i h =
      Sub-add_deleted_targets (add_ids s (node_targets d x)) entries i
        (Sub-add_ids s (node_targets d x) i h)

  Sub-former : (names s : List String) (patch : Dict Value) → Sub s (former d names s patch)
  unfolding former
  Sub-former names s [] i h = h
  Sub-former names s ((name, value) ∷ patch) i h =
      Sub-former names (if mem names name then add_ids s (ids_in (some value)) else s) patch i (
        if_elim (λ (r : List String). mem r i ≡ true) (mem names name)
          (add_ids s (ids_in (some value))) s (λ _. Sub-add_ids s (ids_in (some value)) i h)
          (λ _. h))

  pub Sub-add_former : (s : List String) (patches : StatePatch) → Sub s (add_former d s patches)
  unfolding add_former
  Sub-add_former s [] i h = h
  Sub-add_former s ((k, patch) ∷ patches) i h =
      go (lookup d.node_map k) (λ s'. Sub-add_former s' patches)
    where
      go :
          (o : Option Ref)
          → ((s' : List String) → Sub s' (add_former d s' patches))
          → mem
              (elim o [
                | none ↦ add_former d s patches
                | some x ↦ add_former d (former d (ref_names (class_of d x).fields) s patch) patches
              ])
              i
            ≡ true
      go none sub = sub s i h
      go (some x) sub =
          sub (former d (ref_names (class_of d x).fields) s patch) i
            (Sub-former (ref_names (class_of d x).fields) s patch i h)

  pub mem-without :
      (deleted : Dict Ref) (is : List String) (i : String)
      → mem is i ≡ true
      → contains deleted i ≡ false
      → mem (without d deleted is) i ≡ true
  unfolding without mem
  mem-without deleted [] i m n = absurd cc
  mem-without deleted (k ∷ is) i m n = ground (arith, m, n, eq_iff k i, mem-without deleted is i)
