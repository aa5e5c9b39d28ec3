-- ===== src/Scope/Update.antt =====
-- _scope.py: the last part of `_emit`, which leaves the new view, with the nodes that are gone.
use atomdoc.Prelude.{
  String, ◌≡◌, refl, sym, ap, ◌∙◌, Bool, true, false, ◌&&◌, ◌||◌, Option, none, some, List, [], ◌∷◌,
  ◌++◌, arith, eq_iff, str_eq, if◌then◌else◌,
}
use mathlib.Core.Path.{subst}
use atomdoc.Prelude.Dict.{
  Dict, lookup, insert, remove, contains, keys, mem, add, discard, mem-add, mem-discard,
  lookup-insert, lookup-remove, contains-lookup,
}
use atomdoc.Links.{Ref}
use atomdoc.Doc.{Doc}
use atomdoc.Scope.{Kind, full, stub, ClientView}
use atomdoc.Scope.Placed.{recompute_placed}
use atomdoc.Scope.Whole.{is_stub, stubs_of, all_full, reset, hold_everything, compute_all}
use atomdoc.Scope.Overlay.{mem-if}

-- A node of the view: dropped, or held as a kind.
abbrev pub update_node : ClientView → String → Option Kind → ClientView
update_node v i none = record v { held = remove v.held i; stubs = discard v.stubs i }
update_node v i (some stub) = record v { held = insert v.held i stub; stubs = add v.stubs i }
update_node v i (some full) = record v { held = insert v.held i full; stubs = discard v.stubs i }

unfoldable pub update_nodes : ClientView → Dict (Option Kind) → ClientView
update_nodes v [] = v
update_nodes v ((i, k) ∷ kinds) = update_nodes (update_node v i k) kinds

unfoldable pub drop_nodes : ClientView → List String → ClientView
drop_nodes v [] = v
drop_nodes v (i ∷ is) = drop_nodes (update_node v i none) is

-- the new view, of the new kinds and of the nodes that were deleted
unfoldable pub update_view : Doc → ClientView → Dict (Option Kind) → List String → ClientView
unfolding update_nodes drop_nodes
update_view d v kinds deleted =
    recompute_placed d (drop_nodes (update_nodes v kinds) deleted) (keys kinds ++ deleted)

-- The stubs of a view are the held nodes that are stubs.
pub IsConsistent : ClientView → Type 0
IsConsistent v = (i : String) → mem v.stubs i ≡ is_stub (lookup v.held i)

update_node-IsConsistent :
    (v : ClientView) (i : String) (k : Option Kind)
    → IsConsistent v
    → IsConsistent (update_node v i k)
unfolding IsConsistent
update_node-IsConsistent v i none h j =
    mem-discard v.stubs i j
    ∙ if_stub (str_eq i j) (h j)
    ∙ ap is_stub (sym (lookup-remove v.held i j))
  where
    if_stub :
        (b : Bool)
        → mem v.stubs j ≡ is_stub (lookup v.held j)
        → (if b then false else mem v.stubs j) ≡ is_stub (if b then none else lookup v.held j)
    if_stub true e = refl
    if_stub false e = e
update_node-IsConsistent v i (some full) h j =
    mem-discard v.stubs i j
    ∙ if_stub (str_eq i j) (h j)
    ∙ ap is_stub (sym (lookup-insert v.held i full j))
  where
    if_stub :
        (b : Bool)
        → mem v.stubs j ≡ is_stub (lookup v.held j)
        → (if b then false else mem v.stubs j) ≡ is_stub (if b then some full else lookup v.held j)
    if_stub true e = refl
    if_stub false e = e
update_node-IsConsistent v i (some stub) h j =
    mem-add v.stubs i j
    ∙ if_stub (str_eq i j) (h j)
    ∙ ap is_stub (sym (lookup-insert v.held i stub j))
  where
    if_stub :
        (b : Bool)
        → mem v.stubs j ≡ is_stub (lookup v.held j)
        → (b || mem v.stubs j) ≡ is_stub (if b then some stub else lookup v.held j)
    if_stub true e = refl
    if_stub false e = e

update_nodes-IsConsistent :
    (v : ClientView) (kinds : Dict (Option Kind))
    → IsConsistent v
    → IsConsistent (update_nodes v kinds)
unfolding update_nodes
update_nodes-IsConsistent v [] h = h
update_nodes-IsConsistent v ((i, k) ∷ kinds) h =
    update_nodes-IsConsistent (update_node v i k) kinds (update_node-IsConsistent v i k h)

drop_nodes-IsConsistent :
    (v : ClientView) (is : List String) → IsConsistent v → IsConsistent (drop_nodes v is)
unfolding drop_nodes
drop_nodes-IsConsistent v [] h = h
drop_nodes-IsConsistent v (i ∷ is) h =
    drop_nodes-IsConsistent (update_node v i none) is (update_node-IsConsistent v i none h)

mem-stubs_of :
    (held : Dict Kind) (is : List String) (i : String)
    → mem (stubs_of held is) i ≡ (mem is i && is_stub (lookup held i))
unfolding stubs_of mem
mem-stubs_of held [] i = refl
mem-stubs_of held (j ∷ is) i =
    mem-if (is_stub (lookup held j)) (add (stubs_of held is) j) (stubs_of held is) i
    ∙ ap (λ b. if is_stub (lookup held j) then b else mem (stubs_of held is) i)
        (mem-add (stubs_of held is) j i)
    ∙ go (str_eq j i) refl (mem-stubs_of held is i)
  where
    at_same : (a m : Bool) → (if a then true else (m && a)) ≡ a
    at_same a m = ground arith

    at_other : (a m c : Bool) → (if a then (m && c) else (m && c)) ≡ (m && c)
    at_other a m c = ground arith

    go :
        (b : Bool)
        → str_eq j i ≡ b
        → mem (stubs_of held is) i ≡ (mem is i && is_stub (lookup held i))
        → (if is_stub (lookup held j)
            then (b || mem (stubs_of held is) i)
            else mem (stubs_of held is) i)
          ≡ ((b || mem is i) && is_stub (lookup held i))
    go true e h =
        subst
          (λ k.
            (if is_stub (lookup held j) then true else mem (stubs_of held is) i)
            ≡ is_stub (lookup held k))
          ((eq_iff j i).0 e)
          (subst (λ b. (if is_stub (lookup held j) then true else b) ≡ is_stub (lookup held j))
            (sym h ∙ refl)
            (subst
              (λ k.
                (if is_stub (lookup held j) then true else (mem is i && is_stub (lookup held k)))
                ≡ is_stub (lookup held j))
              ((eq_iff j i).0 e) (at_same (is_stub (lookup held j)) (mem is i))))
    go false e h = rw h (at_other (is_stub (lookup held j)) (mem is i) (is_stub (lookup held i)))

mem-keys : {B : Type 0} (m : Dict B) (i : String) → mem (keys m) i ≡ contains m i
unfolding mem keys contains
mem-keys [] i = refl
mem-keys ((j, b) ∷ m) i = ap (λ c. str_eq j i || c) (mem-keys m i)

stubs_of-all :
    (held : Dict Kind) (i : String) → mem (stubs_of held (keys held)) i ≡ is_stub (lookup held i)
stubs_of-all held i =
    mem-stubs_of held (keys held) i
    ∙ ap (λ b. b && is_stub (lookup held i)) (mem-keys held i ∙ contains-lookup held i)
    ∙ go (lookup held i)
  where
    go : (o : Option Kind) → ((elim o [ none ↦ false | some _ ↦ true ]) && is_stub o) ≡ is_stub o
    go none = refl
    go (some k) = refl

no-stub : (nodes : Dict Ref) (i : String) → false ≡ is_stub (lookup (all_full nodes) i)
unfolding all_full lookup
no-stub [] i = refl
no-stub ((j, x) ∷ nodes) i = go (str_eq j i) (no-stub nodes i)
  where
    go :
        (b : Bool)
        → false ≡ is_stub (lookup (all_full nodes) i)
        → false ≡ is_stub (if b then some full else lookup (all_full nodes) i)
    go true h = refl
    go false h = h

-- After a reset, or when a client holds everything, the stubs of its view are the held nodes that are
-- stubs, and where they are, they are so after a commit and after a change of the anchors, whatever new
-- kinds these give and whatever nodes they delete.
pub view-IsConsistent :
    (d : Doc) (v : ClientView)
    → IsConsistent (reset d v)
      × IsConsistent (hold_everything d v)
      × ((kinds : Dict (Option Kind)) (deleted : List String)
          → IsConsistent v
          → IsConsistent (update_view d v kinds deleted))
unfolding IsConsistent update_view reset hold_everything recompute_placed mem
view-IsConsistent d v = (
  λ i. stubs_of-all (compute_all d v.anchors) i,
  λ i. no-stub d.node_map i,
  λ kinds deleted h.
      drop_nodes-IsConsistent (update_nodes v kinds) deleted (update_nodes-IsConsistent v kinds h),
)
