-- ===== src/Scope/Told.antt =====
-- _scope.py: which nodes' states the patch of a commit tells.
use atomdoc.Prelude.{
  String, ◌≡◌, refl, sym, ap, ◌∙◌, ◌⊎◌, inl, inr, Bool, true, false, ◌&&◌, ◌||◌, not, Option, none,
  some, List, [], ◌∷◌, arith, eq_iff, str_eq, if_elim, if◌then◌else◌, Bool-cases, is_empty, All,
}
use atomdoc.Prelude.Dict.{Dict, lookup, insert, contains, contains-lookup, lookup-insert, mem}
use atomdoc.Types.{Value, ChangeEvent}
use atomdoc.Links.{Ref}
use atomdoc.Links.Chain.{In}
use atomdoc.Doc.{Doc, id_of}
use atomdoc.Doc.Traverse.{ancestors, descendants}
use atomdoc.Scope.{full, Anchors, ClientView}
use atomdoc.Scope.Kinds.{IsNear, classify-full, anchor_ancestors}
use atomdoc.Scope.Emission.{ClientOperation, Pair, kind_after}
use atomdoc.Scope.Leaving.{ClientPatch, emit_patch}
use atomdoc.Scope.Sent.{SendsFull, emit_patch-SendsFull}
use atomdoc.Scope.Discretion.{IsSent, IsSafe}
use atomdoc.Scope.Project.{
  add_ids, insert_nodes, all_deleted, add_moved, candidates, classify_at, classify_all, kinds_of,
  some_held, project,
}
use atomdoc.Scope.Candidates.{
  Sub-add_ids, mem-add_ids, mem-add_moved, Sub-add_targets, Sub-add_deleted_targets, Sub-add_former,
  mem-without,
}

module _ (d : Doc) where
  contains-insert :
      (m : Dict Ref) (k : String) (x : Ref) (i : String)
      → contains (insert m k x) i ≡ (str_eq k i || contains m i)
  contains-insert m k x i =
      contains-lookup (insert m k x) i
      ∙ rw (lookup-insert m k x i, contains-lookup m i) (go (str_eq k i) (lookup m i))
    where
      go :
          (b : Bool) (o : Option Ref)
          → (elim (if b then some x else o) [ none ↦ false | some _ ↦ true ])
            ≡ (b || (elim o [ none ↦ false | some _ ↦ true ]))
      go true o = refl
      go false o = refl

  -- the node with an ID is among some
  abbrev pub IsAmong : List Ref → String → Type 0
  IsAmong xs i = (y : Ref) × In y xs × (id_of d y ≡ i)

  -- the node with an ID was deleted, or stood below one that was
  abbrev pub IsGone : Dict Ref → String → Type 0
  IsGone [] i = ⊥
  IsGone ((k, x) ∷ entries) i = (k ≡ i) ⊎ IsAmong (descendants d x) i ⊎ IsGone entries i

  insert_nodes-IsAmong :
      (m : Dict Ref) (xs : List Ref) (i : String)
      → contains (insert_nodes d m xs) i ≡ true
      → (contains m i ≡ true) ⊎ IsAmong xs i
  unfolding insert_nodes
  insert_nodes-IsAmong m [] i h = inl h
  insert_nodes-IsAmong m (x ∷ xs) i h =
      elim (insert_nodes-IsAmong (insert m (id_of d x) x) xs i h) [
        | inr (y, n, e) ↦ inr (y, inr n, e)
        | inl c ↦ elim (Bool-cases (str_eq (id_of d x) i)) [
          | inl same ↦ inr (x, inl refl, (eq_iff (id_of d x) i).0 same)
          | inr other ↦ inl (ground (arith, contains-insert m (id_of d x) x i, c, other))
        ]
      ]

  all_deleted-IsGone :
      (m entries : Dict Ref) (i : String)
      → contains (all_deleted d m entries) i ≡ true
      → (contains m i ≡ true) ⊎ IsGone entries i
  unfolding all_deleted
  all_deleted-IsGone m [] i h = inl h
  all_deleted-IsGone m ((k, x) ∷ entries) i h =
      elim (all_deleted-IsGone (insert_nodes d (insert m k x) (descendants d x)) entries i h) [
        | inr gone ↦ inr (inr (inr gone))
        | inl c ↦ elim (insert_nodes-IsAmong (insert m k x) (descendants d x) i c) [
          | inr below ↦ inr (inr (inl below))
          | inl c' ↦ elim (Bool-cases (str_eq k i)) [
            | inl same ↦ inr (inl ((eq_iff k i).0 same))
            | inr other ↦ inl (ground (arith, contains-insert m k x i, c', other))
          ]
        ]
      ]

  lookup-classify_all :
      (anchors : Anchors) (ancestor_ids is : List String) (i : String)
      → lookup (classify_all d anchors ancestor_ids is) i ≡ (
          if mem is i
          then some (classify_at d anchors ancestor_ids (lookup d.node_map i))
          else none)
  unfolding classify_all mem lookup
  lookup-classify_all anchors ancestor_ids [] i = refl
  lookup-classify_all anchors ancestor_ids (k ∷ is) i = elim (Bool-cases (str_eq k i)) [
    | inl same ↦ rw same (
        ap (λ j. some (classify_at d anchors ancestor_ids (lookup d.node_map j)))
          ((eq_iff k i).0 same))
    | inr other ↦ rw other (lookup-classify_all anchors ancestor_ids is i)
  ]

  -- the node with an ID was written by the commit, or it stands at or below a node that was inserted or
  -- moved
  pub data IsTouched (event : ChangeEvent) : String → Type 0 where
    written : {i : String} → mem event.diff.updated i ≡ true → IsTouched event i
    arrived :
        (k : String) (x : Ref) {y : Ref}
        → (mem event.diff.inserted k ≡ true) ⊎ (mem event.diff.moved k ≡ true)
        → lookup d.node_map k ≡ some x
        → In y (x ∷ descendants d x)
        → IsTouched event (id_of d y)

  add_moved-touched :
      (anchors : Anchors) (event : ChangeEvent) (i : String)
      → IsTouched event i
      → mem
          (add_ids
            (add_moved d anchors [] (add_ids event.diff.inserted event.diff.moved))
            event.diff.updated)
          i
        ≡ true
  add_moved-touched anchors event i (written u) = mem-add_ids _ event.diff.updated i u
  add_moved-touched anchors event i (arrived k x {y = y} came e n) =
      Sub-add_ids _ event.diff.updated (id_of d y) (
        mem-add_moved d anchors [] (add_ids event.diff.inserted event.diff.moved) k x y
          (listed came) e n)
    where
      listed :
          (mem event.diff.inserted k ≡ true) ⊎ (mem event.diff.moved k ≡ true)
          → mem (add_ids event.diff.inserted event.diff.moved) k ≡ true
      listed (inl h) = Sub-add_ids event.diff.inserted event.diff.moved k h
      listed (inr h) = mem-add_ids event.diff.inserted event.diff.moved k h

  candidates-touched :
      (v : ClientView) (event : ChangeEvent) (deleted : Dict Ref) (i : String)
      → IsTouched event i
      → contains deleted i ≡ false
      → mem (candidates d v event deleted) i ≡ true
  unfolding candidates
  candidates-touched v event deleted i h n =
      mem-without d deleted _ i
        (Sub-add_ids _ v.stubs i (
          Sub-add_former d _ event.inverse_operations.patches i (
            Sub-add_deleted_targets d _ deleted i
              (Sub-add_targets d _ _ i (add_moved-touched v.anchors event i h)))))
        n

  -- an anchor of the client covers the node with an ID, in the document as the commit leaves it
  abbrev pub IsCovered : ClientView → String → Type 0
  IsCovered v i =
      (x : Ref) × (lookup d.node_map i ≡ some x)
      × IsNear d v.anchors (ancestors d.allocated d.links (some x)) 0

  -- what allows a client to be told the state of a node: an anchor covers it, or the client held it in full and
  -- the commit neither wrote it nor brought it or a node above it to its place
  abbrev pub MayKnow : ClientView → ChangeEvent → String → Type 0
  MayKnow v event i =
      IsCovered v i
      ⊎ ((lookup v.held i ≡ some full) × (IsTouched event i → IsGone event.diff.deleted i))

  classify_at-IsCovered :
      (v : ClientView) (ancestor_ids : List String) (i : String) (o : Option Ref)
      → lookup d.node_map i ≡ o
      → classify_at d v.anchors ancestor_ids o ≡ some full
      → IsCovered v i
  unfolding classify_at
  classify_at-IsCovered v ancestor_ids i none e h = absurd cc
  classify_at-IsCovered v ancestor_ids i (some x) e h =
      (x, e, (classify-full d v.anchors ancestor_ids x).0 h)

  IsSent-MayKnow :
      (v : ClientView) (event : ChangeEvent) (i : String)
      → IsSent d v.held (kinds_of d v event) i
      → MayKnow v event i
  unfolding kind_after kinds_of
  IsSent-MayKnow v event i h =
      let deleted = all_deleted d [] event.diff.deleted in
      let is = candidates d v event deleted in
      let ancestor_ids = anchor_ancestors d v.anchors [] in
      let at = lookup-classify_all v.anchors ancestor_ids is i in
      elim (Bool-cases (mem is i)) [
        | inl here ↦
            inl (
              classify_at-IsCovered v ancestor_ids i (lookup d.node_map i) refl
                (rw (at, here) at h))
        | inr away ↦ inr (
          rw (at, away) at h,
          λ t. elim (Bool-cases (contains deleted i)) [
            | inl c ↦ gone (all_deleted-IsGone [] event.diff.deleted i c)
            | inr n ↦ absurd (true_false (sym (candidates-touched v event deleted i t n) ∙ away))
          ],
        )
      ]
    where
      gone :
          (contains {V = Ref} [] i ≡ true) ⊎ IsGone event.diff.deleted i
          → IsGone event.diff.deleted i
      gone (inl c) = unfold contains in absurd cc
      gone (inr g) = g

      true_false : true ≡ false → ⊥
      true_false e = cc

-- All nodes whose states an operation tells have a property: the full nodes that it inserts, and the one that
-- it fills.
abbrev pub TellsOf : (String → Type 0) → ClientOperation → Type 0
TellsOf P (ClientOperation.insert_nodes ms parent slot prev next) =
    All (λ (m : Pair). m.kind ≡ full → P m.id) ms
TellsOf P (ClientOperation.fill i) = P i
TellsOf P _ = Unit

-- All nodes whose states a patch tells, if there is one, have a property.
abbrev pub TellsOnly : (String → Type 0) → Option ClientPatch → Type 0
TellsOnly P none = Unit
TellsOnly P (some p) = All (TellsOf P) p.ordered × All (λ (e : String × Dict Value). P e.0) p.state

All-map :
    {A : Type 0} (P Q : A → Type 0) (xs : List A) → ((a : A) → P a → Q a) → All P xs → All Q xs
All-map P Q [] f h = tt
All-map P Q (x ∷ xs) f h = (f x h.0, All-map P Q xs f h.1)

module _ (d : Doc) (v : ClientView) (event : ChangeEvent) where
  IsSafe-TellsOf :
      (op : ClientOperation)
      → IsSafe d v.held (kinds_of d v event) op
      → TellsOf (MayKnow d v event) op
  IsSafe-TellsOf (ClientOperation.insert_nodes ms parent slot prev next) h =
      All-map _ (λ (m : Pair). m.kind ≡ full → MayKnow d v event m.id) ms
        (λ m s e. IsSent-MayKnow d v event m.id (s e)) h
  IsSafe-TellsOf (ClientOperation.fill i) h = IsSent-MayKnow d v event i h
  IsSafe-TellsOf _ h = tt

  SendsFull-TellsOnly :
      (o : Option ClientPatch)
      → SendsFull d v (kinds_of d v event) o
      → TellsOnly (MayKnow d v event) o
  SendsFull-TellsOnly none h = tt
  SendsFull-TellsOnly (some p) h = (
    All-map _ (TellsOf (MayKnow d v event)) p.ordered IsSafe-TellsOf h.0,
    All-map _ (λ (e : String × Dict Value). MayKnow d v event e.0) p.state
        (λ e s. IsSent-MayKnow d v event e.0 s) h.1,
  )

  -- The patch of a commit for a client tells the state of a node (of one whose state it gives, of a full
  -- one that it inserts, and of one that it fills) only if, in the document as the commit leaves it, an
  -- anchor of the client covers the node; or else if the client held it in full and the node is not one
  -- that the commit wrote, nor one at or below a node that the commit inserted or moved, unless it is
  -- one that the commit deleted.
  pub project-TellsOnly : TellsOnly (MayKnow d v event) (project d v event).0
  unfolding project
  project-TellsOnly = SendsFull-TellsOnly _ (
      let deleted = all_deleted d [] event.diff.deleted in
      if_elim (λ (r : Option ClientPatch × ClientView). SendsFull d v (kinds_of d v event) r.0)
        (is_empty (candidates d v event deleted) && not (some_held d deleted v.held)) (none, v)
        (emit_patch d v (kinds_of d v event) deleted event.diff.moved event.operations.patches)
        (λ _. tt)
        (λ _.
          emit_patch-SendsFull d v (kinds_of d v event) deleted event.diff.moved
            event.operations.patches))
