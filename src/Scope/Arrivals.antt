-- ===== src/Scope/Arrivals.antt =====
-- _scope.py: the states that `_emit` sends, in its steps up to the moves.
use atomdoc.Prelude.{
  String, ◌≡◌, refl, ap, Bool, true, false, ◌&&◌, not, Option, none, some, List, [], ◌∷◌, arith,
  if_elim,
}
use atomdoc.Prelude.Dict.{Dict, lookup, mem, add, discard}
use atomdoc.Links.{Ref}
use atomdoc.Doc.{Doc, id_of, class_of}
use atomdoc.Scope.{Kind, full, stub}
use atomdoc.Scope.Overlay.{in_overlay}
use atomdoc.Scope.Checks.{is_full_kind}
use atomdoc.Scope.Emission.{
  Emission, ClientOperation, is_held, emit, enter, kind_after, placed_after, parent_ref, neighbors,
  pair_of, enter_state,
}
use atomdoc.Scope.Projection.{
  mark_present, forget, ask_placed, add_mover, mover_at, movers, is_covered, emit_deletes,
  forget_deleted, is_new, add_arriving, arriving_at, arriving, go_into, fill_in_place, kind_or_stub,
  put_in_tree, appear, settle, arrive, emit_moves,
}
use atomdoc.Scope.Discretion.{
  IsDiscreet, IsDiscreet-emit, IsDiscreet-same, enter_state-IsDiscreet, place_children-IsDiscreet,
}

module _ (d : Doc) (old : Dict Kind) (new_kinds : Dict (Option Kind)) where
  abbrev Discreet : Emission → Type 0
  Discreet st = IsDiscreet d old new_kinds st

  same :
      (st u : Emission) → st.ordered ≡ u.ordered → st.entered ≡ u.entered → Discreet st → Discreet u
  same st u = IsDiscreet-same d old new_kinds st u

  pub placed_after-IsDiscreet :
      (x : Ref) (st : Emission) → Discreet st → Discreet (placed_after d old new_kinds x st).1
  unfolding placed_after
  placed_after-IsDiscreet x st h = same st (placed_after d old new_kinds x st).1 refl refl h

  ask_placed-IsDiscreet :
      (b : Bool) (x : Ref) (st : Emission)
      → Discreet st
      → Discreet (ask_placed d old new_kinds b x st).1
  unfolding ask_placed
  ask_placed-IsDiscreet true x st h = placed_after-IsDiscreet x st h
  ask_placed-IsDiscreet false x st h = h

  add_mover-IsDiscreet :
      (x : Ref) (b : Bool) (st : Emission) (xs : List Ref)
      → Discreet st
      → Discreet (add_mover d old new_kinds x (b, st) xs).1
  unfolding add_mover
  add_mover-IsDiscreet x true st xs h =
      same st (record st { pending = add st.pending (id_of d x) }) refl refl h
  add_mover-IsDiscreet x false st xs h = h

  pub movers-IsDiscreet :
      (is : List String) (s : List Ref × Emission)
      → Discreet s.1
      → Discreet (movers d old new_kinds is s).1
  unfolding movers mover_at
  movers-IsDiscreet [] s h = h
  movers-IsDiscreet (i ∷ is) s h =
      movers-IsDiscreet is (mover_at d old new_kinds i (lookup d.node_map i) s)
        (go (lookup d.node_map i))
    where
      go : (o : Option Ref) → Discreet (mover_at d old new_kinds i o s).1
      go none = h
      go (some x) =
          let asked =
            ask_placed d old new_kinds
              (in_overlay s.1.placed i && is_held (kind_after d old new_kinds i)) x s.1 in
          add_mover-IsDiscreet x asked.0 asked.1 s.0 (
            ask_placed-IsDiscreet
              (in_overlay s.1.placed i && is_held (kind_after d old new_kinds i)) x s.1 h)

  pub emit_deletes-IsDiscreet :
      (deleted entries : Dict Ref) (st : Emission)
      → Discreet st
      → Discreet (emit_deletes d old new_kinds deleted entries st)
  unfolding emit_deletes
  emit_deletes-IsDiscreet deleted [] st h = h
  emit_deletes-IsDiscreet deleted ((i, x) ∷ entries) st h =
      emit_deletes-IsDiscreet deleted entries _ (
        if_elim Discreet
          (in_overlay st.present i
            && not (
                in_overlay st.placed i
                && is_covered d old new_kinds d.allocated deleted st (d.links.parent x)))
          (emit st (ClientOperation.delete_node i)) st
          (λ _. IsDiscreet-emit d old new_kinds st (ClientOperation.delete_node i) tt h) (λ _. h))

  pub forget_deleted-IsDiscreet :
      (entries : Dict Ref) (st : Emission)
      → Discreet st
      → Discreet (forget_deleted d old new_kinds entries st)
  unfolding forget_deleted
  forget_deleted-IsDiscreet [] st h = h
  forget_deleted-IsDiscreet ((i, x) ∷ entries) st h = forget_deleted-IsDiscreet entries _ (
      if_elim Discreet (in_overlay st.present i) (forget st i) st
        (λ _. same st (forget st i) refl refl h) (λ _. h))

  arriving_at-IsDiscreet :
      (i : String) (k : Option Kind) (o : Option Ref) (s : List Ref × Emission)
      → Discreet s.1
      → Discreet (arriving_at d old new_kinds i k o s).1
  unfolding arriving_at add_arriving
  arriving_at-IsDiscreet i none o s h = h
  arriving_at-IsDiscreet i (some k) none s h = h
  arriving_at-IsDiscreet i (some k) (some x) s h =
      ask_placed-IsDiscreet
        (not (is_new d old new_kinds (lookup old i) k) && not (in_overlay s.1.placed i)) x s.1 h

  pub arriving-IsDiscreet :
      (kinds : Dict (Option Kind)) (s : List Ref × Emission)
      → Discreet s.1
      → Discreet (arriving d old new_kinds kinds s).1
  unfolding arriving
  arriving-IsDiscreet [] s h = h
  arriving-IsDiscreet ((i, k) ∷ kinds) s h =
      arriving-IsDiscreet kinds (arriving_at d old new_kinds i k (lookup d.node_map i) s)
        (arriving_at-IsDiscreet i k (lookup d.node_map i) s h)

  go_into-IsDiscreet :
      (x : Ref) (k : Option Kind) (st : Emission)
      → kind_after d old new_kinds (id_of d x) ≡ k
      → Discreet st
      → Discreet (go_into d old new_kinds x k st)
  unfolding go_into
  go_into-IsDiscreet x none st e h = h
  go_into-IsDiscreet x (some stub) st e h = h
  go_into-IsDiscreet x (some full) st e h =
      place_children-IsDiscreet d old new_kinds d.allocated x (enter_state d old new_kinds st x)
        (enter_state-IsDiscreet d old new_kinds x st e h)

  pub full-kind : (o : Option Kind) → is_full_kind o ≡ true → o ≡ some full
  full-kind none e = absurd cc
  full-kind (some full) e = refl
  full-kind (some stub) e = absurd cc

  and-left : (a b : Bool) → (a && b) ≡ true → a ≡ true
  and-left a b e = ground (arith, e)

  fill_in_place-IsDiscreet :
      (x : Ref) (st : Emission) → Discreet st → Discreet (fill_in_place d old new_kinds x st)
  unfolding fill_in_place
  fill_in_place-IsDiscreet x st h =
      let i = id_of d x in
      let k = kind_after d old new_kinds i in
      let filled = emit st (ClientOperation.fill i) in
      if_elim Discreet (is_full_kind k && not (is_full_kind (lookup old i))) _ st
        (λ e.
          go_into-IsDiscreet x k (record filled { emitted = add st.emitted i }) refl
            (same filled (record filled { emitted = add st.emitted i }) refl refl
              (IsDiscreet-emit d old new_kinds st (ClientOperation.fill i)
                (full-kind k (and-left (is_full_kind k) (not (is_full_kind (lookup old i))) e)) h)))
        (λ _. h)

  kind_or_stub-full : (k : Option Kind) → kind_or_stub d old new_kinds k ≡ full → k ≡ some full
  unfolding kind_or_stub
  kind_or_stub-full none e = absurd cc
  kind_or_stub-full (some k) e = ap some e

  put_in_tree-IsDiscreet :
      (x : Ref) (o : Option Ref) (st : Emission)
      → Discreet st
      → Discreet (put_in_tree d old new_kinds x o st)
  unfolding put_in_tree
  put_in_tree-IsDiscreet x none st h = h
  put_in_tree-IsDiscreet x (some p) st h =
      let i = id_of d x in
      let k = kind_after d old new_kinds i in
      let beside = neighbors d old new_kinds st x in
      let op =
        ClientOperation.insert_nodes
          (pair_of d old new_kinds x (kind_or_stub d old new_kinds k) ∷ [])
          (parent_ref d old new_kinds (some p)) (d.links.slot_name x) beside.0 beside.1 in
      if_elim Discreet (in_overlay st.placed (id_of d p)) _ st
        (λ _. go_into-IsDiscreet x k (enter (emit st op) i) refl (
          same (emit st op) (enter (emit st op) i) refl refl
            (IsDiscreet-emit d old new_kinds st op ((λ e. kind_or_stub-full k e), tt) h)))
        (λ _. h)

  settle-IsDiscreet :
      (x : Ref) (b : Bool) (st : Emission)
      → Discreet st
      → Discreet (settle d old new_kinds x (b, st))
  unfolding settle appear
  settle-IsDiscreet x false st h =
      let i = id_of d x in
      let op = ClientOperation.detached i (class_of d x).node_type in
      if_elim Discreet (in_overlay st.present i) st (mark_present (emit st op) i) (λ _. h)
        (λ _.
          same (emit st op) (mark_present (emit st op) i) refl refl
            (IsDiscreet-emit d old new_kinds st op tt h))
  settle-IsDiscreet x true st h =
      if_elim Discreet (in_overlay st.placed (id_of d x)) _ _ (λ _. fill_in_place-IsDiscreet x st h)
        (λ _. put_in_tree-IsDiscreet x (d.links.parent x) st h)

  pub arrive-IsDiscreet :
      (xs : List Ref) (st : Emission) → Discreet st → Discreet (arrive d old new_kinds xs st)
  unfolding arrive
  arrive-IsDiscreet [] st h = h
  arrive-IsDiscreet (x ∷ xs) st h =
      let asked = placed_after d old new_kinds x st in
      arrive-IsDiscreet xs _ (
        if_elim Discreet (mem st.emitted (id_of d x)) st (settle d old new_kinds x asked) (λ _. h)
          (λ _. settle-IsDiscreet x asked.0 asked.1 (placed_after-IsDiscreet x st h)))

  pub emit_moves-IsDiscreet :
      (xs : List Ref) (st : Emission) → Discreet st → Discreet (emit_moves d old new_kinds xs st)
  unfolding emit_moves
  emit_moves-IsDiscreet [] st h = h
  emit_moves-IsDiscreet (x ∷ xs) st h =
      let i = id_of d x in
      let beside = neighbors d old new_kinds st x in
      let op =
        ClientOperation.move_node i (parent_ref d old new_kinds (d.links.parent x))
          (d.links.slot_name x) beside.0 beside.1 in
      let next : Emission = record (emit st op) {
        pending = discard st.pending i;
        emitted = add st.emitted i;
      } in
      emit_moves-IsDiscreet xs next
        (same (emit st op) next refl refl (IsDiscreet-emit d old new_kinds st op tt h))
