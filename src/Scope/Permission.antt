-- ===== src/Scope/Permission.antt =====
-- _scope.py: what a client may change.
use atomdoc.Prelude.{
  String, ◌≡◌, refl, sym, ◌∙◌, ◌⊎◌, inl, inr, true, false, Option, none, some, arith, List, [], ◌∷◌,
  eq_iff, str_eq, if◌then◌else◌, Bool-cases, All,
}
use mathlib.Core.Path.{subst}
use atomdoc.Prelude.Exec.{ok}
use atomdoc.Prelude.Dict.{Dict, lookup, contains, contains-lookup, mem, add, mem-add}
use atomdoc.Types.{OrderedOperation, Operations, StatePatch, Value}
use atomdoc.Doc.{Doc}
use atomdoc.Scope.{ClientView}
use atomdoc.Scope.Checks.{
  demand, require_full, parent_id, require_range, is_free, require_free, check_ordered, check_all,
  check_patches, add_created, created_by, check_operations,
}
use atomdoc.Scope.Ranges.{
  next_check-both, demand-true, require_full-IsFull, IsFull, IsRangeFull, require_range-IsRangeFull,
}

-- no node that the client holds, no node in the document and no removed one in the graveyard has the ID
pub record IsFree (d : Doc) (v : ClientView) (i : String) : Type 0 where
  pub not_held : lookup v.held i ≡ none
  pub not_there : lookup d.node_map i ≡ none
  pub not_removed : lookup d.graveyard i ≡ none

contains-none : {A : Type 0} (d : Dict A) (i : String) → contains d i ≡ false → lookup d i ≡ none
contains-none {A = A} d i h = go (lookup d i) (sym (contains-lookup d i) ∙ h)
  where
    go : (o : Option A) → (elim o [ none ↦ false | some _ ↦ true ]) ≡ false → o ≡ none
    go none h = refl
    go (some a) h = absurd cc

is_free-IsFree : (d : Doc) (v : ClientView) (i : String) → is_free d v i ≡ true → IsFree d v i
is_free-IsFree d v i h = record {
  not_held = contains-none v.held i (ground (arith, h));
  not_there = contains-none d.node_map i (ground (arith, h));
  not_removed = contains-none d.graveyard i (ground (arith, h));
}

-- what a client may ask for: under a parent that it holds in full, new nodes, and ranges held in full
pub data IsPermitted (d : Doc) (v : ClientView) : OrderedOperation → Type 0 where
  insert :
      {pairs : List (String × String)} {parent : Option String} {slot : String}
      {prev next : Option String}
      → IsFull v (parent_id d v parent)
      → All (λ (p : String × String). IsFree d v p.0) pairs
      → IsPermitted d v (OrderedOperation.insert pairs parent slot prev next)
  delete :
      {start : String} {end : Option String}
      → IsRangeFull d v start end
      → IsPermitted d v (OrderedOperation.delete start end)
  move :
      {start : String} {end parent : Option String} {slot : String} {prev next : Option String}
      → IsRangeFull d v start end
      → IsFull v (parent_id d v parent)
      → IsPermitted d v (OrderedOperation.move start end parent slot prev next)

module _ (d : Doc) (v : ClientView) where
  require_free-IsFree :
      (pairs : List (String × String))
      → require_free d v pairs ≡ ok tt
      → All (λ (p : String × String). IsFree d v p.0) pairs
  unfolding require_free
  require_free-IsFree [] h = tt
  require_free-IsFree ((i, type) ∷ pairs) h =
      let parts = next_check-both (demand (is_free d v i)) (require_free d v pairs) h in
      (
        is_free-IsFree d v i (demand-true (is_free d v i) parts.0),
        require_free-IsFree pairs parts.1,
      )

  check_ordered-IsPermitted :
      (op : OrderedOperation) → check_ordered d v op ≡ ok tt → IsPermitted d v op
  unfolding check_ordered
  check_ordered-IsPermitted (OrderedOperation.insert pairs parent slot prev next) h =
      let one = next_check-both (require_full d v (some (parent_id d v parent))) _ h in
      let two = next_check-both (require_free d v pairs) _ one.1 in
      IsPermitted.insert (require_full-IsFull d v (parent_id d v parent) one.0)
        (require_free-IsFree pairs two.0)
  check_ordered-IsPermitted (OrderedOperation.delete start end) h =
      IsPermitted.delete (require_range-IsRangeFull d v start end h)
  check_ordered-IsPermitted (OrderedOperation.move start end parent slot prev next) h =
      let one = next_check-both (require_range d v start end) _ h in
      let two = next_check-both (require_full d v (some (parent_id d v parent))) _ one.1 in
      IsPermitted.move (require_range-IsRangeFull d v start end one.0)
        (require_full-IsFull d v (parent_id d v parent) two.0)

  check_all-IsPermitted :
      (ops : List OrderedOperation) → check_all d v ops ≡ ok tt → All (IsPermitted d v) ops
  unfolding check_all
  check_all-IsPermitted [] h = tt
  check_all-IsPermitted (op ∷ ops) h =
      let parts = next_check-both (check_ordered d v op) (check_all d v ops) h in
      (check_ordered-IsPermitted op parts.0, check_all-IsPermitted ops parts.1)

  -- what is created was free
  add_created-IsFree :
      (created : List String) (pairs : List (String × String)) (i : String)
      → (mem created i ≡ true → IsFree d v i)
      → All (λ (p : String × String). IsFree d v p.0) pairs
      → mem (add_created d v created pairs) i ≡ true
      → IsFree d v i
  unfolding add_created
  add_created-IsFree created [] i h a m = h m
  add_created-IsFree created ((j, type) ∷ pairs) i h a m =
      add_created-IsFree (add created j) pairs i
        (λ n. elim (Bool-cases (str_eq j i)) [
          | inl same ↦ subst (IsFree d v) ((eq_iff j i).0 same) a.0
          | inr other ↦ h (sym (mem-add created j i ∙ rw other refl) ∙ n)
        ])
        a.1 m

  created_by-IsFree :
      (created : List String) (ops : List OrderedOperation) (i : String)
      → (mem created i ≡ true → IsFree d v i)
      → All (IsPermitted d v) ops
      → mem (created_by d v created ops) i ≡ true
      → IsFree d v i
  unfolding created_by
  created_by-IsFree created [] i h a m = h m
  created_by-IsFree created (OrderedOperation.insert pairs parent slot prev next ∷ ops) i h a m =
      created_by-IsFree (add_created d v created pairs) ops i
        (λ n. add_created-IsFree created pairs i h (pairs_free a.0) n) a.1 m
    where
      pairs_free :
          IsPermitted d v (OrderedOperation.insert pairs parent slot prev next)
          → All (λ (p : String × String). IsFree d v p.0) pairs
      pairs_free (IsPermitted.insert f frees) = frees
  created_by-IsFree created (OrderedOperation.delete start end ∷ ops) i h a m =
      created_by-IsFree created ops i h a.1 m
  created_by-IsFree created (OrderedOperation.move start end parent slot prev next ∷ ops) i h a m =
      created_by-IsFree created ops i h a.1 m

  check_patches-written :
      (created : List String) (patches : StatePatch)
      → ((i : String) → mem created i ≡ true → IsFree d v i)
      → check_patches d v created patches ≡ ok tt
      → All (λ (p : String × Dict Value). IsFree d v p.0 ⊎ IsFull v p.0) patches
  unfolding check_patches
  check_patches-written created [] free h = tt
  check_patches-written created ((i, patch) ∷ patches) free h =
      let parts =
        next_check-both (if mem created i then ok tt else require_full d v (some i))
          (check_patches d v created patches) h in
      (
        elim (Bool-cases (mem created i)) [
          | inl new ↦ inl (free i new)
          | inr old ↦ inr (require_full-IsFull d v i (rw old at parts.0))
        ],
        check_patches-written created patches free parts.1,
      )

  -- Judged by the document and the view as they are before the request: the operations of a request that
  -- is accepted insert only nodes whose IDs no node held, no node in the document and none in the
  -- graveyard has, delete and move only ranges that the client holds in full, all nodes between the
  -- ends included, and insert and move under parents that it holds in full; and its patches write
  -- only nodes that it holds in full or that are new in this sense. What an earlier operation of the
  -- request does to the range of a later one is not part of this.
  pub check_operations-IsPermitted :
      (ops : Operations)
      → check_operations d v ops ≡ ok tt
      → All (IsPermitted d v) ops.ordered
        × All (λ (p : String × Dict Value). IsFree d v p.0 ⊎ IsFull v p.0) ops.patches
  unfolding check_operations mem
  check_operations-IsPermitted ops h =
      let parts =
        next_check-both (check_all d v ops.ordered)
          (check_patches d v (created_by d v [] ops.ordered) ops.patches) h in
      let permitted = check_all-IsPermitted ops.ordered parts.0 in
      (
        permitted,
        check_patches-written (created_by d v [] ops.ordered) ops.patches
            (λ i m. created_by-IsFree [] ops.ordered i (λ n. absurd (false_true n)) permitted m)
            parts.1,
      )
    where
      false_true : false ≡ true → ⊥
      false_true e = cc
