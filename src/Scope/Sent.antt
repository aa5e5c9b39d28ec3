-- ===== src/Scope/Sent.antt =====
-- _scope.py: the states that `_emit` sends, in its last steps and as a whole.
use atomdoc.Prelude.{
  String, ◌≡◌, refl, Bool, true, false, ◌&&◌, not, Option, none, some, List, [], ◌∷◌, arith,
  if◌then◌else◌, if_elim, is_empty, All,
}
use atomdoc.Prelude.Dict.{Dict, lookup, insert, contains}
use atomdoc.Types.{Value, StatePatch}
use atomdoc.Links.{Ref}
use atomdoc.Doc.{Doc, id_of, class_of}
use atomdoc.Scope.{Kind, ClientView}
use atomdoc.Scope.Overlay.{in_overlay, overlay_discard}
use atomdoc.Scope.Checks.{is_full_kind}
use atomdoc.Scope.Order.{in_order}
use atomdoc.Scope.Emission.{Emission, ClientOperation, emit, kind_after, placed_after}
use atomdoc.Scope.Projection.{
  start, forget, movers, emit_deletes, forget_deleted, arriving, arrive, emit_moves,
}
use atomdoc.Scope.Leaving.{
  ClientPatch, is_demoted, add_leaving, leaving_at, leaving, is_under, demote, leave_as, leave,
  entered_patches, add_patches, emission, emit_patch,
}
use atomdoc.Scope.Discretion.{
  IsSafe, IsSafePatch, IsDiscreet, IsDiscreet-emit, IsDiscreet-same, insert-IsSafePatch,
}
use atomdoc.Scope.Arrivals.{
  movers-IsDiscreet, placed_after-IsDiscreet, emit_deletes-IsDiscreet, forget_deleted-IsDiscreet,
  arriving-IsDiscreet, arrive-IsDiscreet, emit_moves-IsDiscreet, full-kind,
}

module _ (d : Doc) (old : Dict Kind) (new_kinds : Dict (Option Kind)) where
  abbrev Discreet : Emission → Type 0
  Discreet st = IsDiscreet d old new_kinds st

  leaving_at-IsDiscreet :
      (i : String) (k was : Option Kind) (o : Option Ref) (s : List Ref × Emission)
      → Discreet s.1
      → Discreet (leaving_at d old new_kinds i k was o s).1
  unfolding leaving_at add_leaving
  leaving_at-IsDiscreet i k none o s h = h
  leaving_at-IsDiscreet i k (some was) none s h = h
  leaving_at-IsDiscreet i k (some was) (some x) s h =
      if_elim (λ (r : List Ref × Emission). Discreet r.1)
        (not (is_demoted d old new_kinds was k) && in_overlay s.1.placed i) _ _
        (λ _. placed_after-IsDiscreet d old new_kinds x s.1 h) (λ _. h)

  leaving-IsDiscreet :
      (deleted : Dict Ref) (kinds : Dict (Option Kind)) (s : List Ref × Emission)
      → Discreet s.1
      → Discreet (leaving d old new_kinds deleted kinds s).1
  unfolding leaving
  leaving-IsDiscreet deleted [] s h = h
  leaving-IsDiscreet deleted ((i, k) ∷ kinds) s h = leaving-IsDiscreet deleted kinds _ (
      if_elim (λ (r : List Ref × Emission). Discreet r.1) (contains deleted i) s
        (leaving_at d old new_kinds i k (lookup old i) (lookup d.node_map i) s) (λ _. h)
        (λ _. leaving_at-IsDiscreet i k (lookup old i) (lookup d.node_map i) s h))

  demote-IsDiscreet :
      (x : Ref) (b : Bool) (st : Emission) (dropped : List String)
      → Discreet st
      → Discreet (demote d old new_kinds x (b, st) dropped).1
  unfolding demote
  demote-IsDiscreet x false st dropped h =
      let i = id_of d x in
      let gone = emit st (ClientOperation.detached i (class_of d x).node_type) in
      IsDiscreet-same d old new_kinds gone (record gone { placed = overlay_discard st.placed i })
        refl refl
        (IsDiscreet-emit d old new_kinds st (ClientOperation.detached i (class_of d x).node_type) tt
          h)
  demote-IsDiscreet x true st dropped h =
      IsDiscreet-emit d old new_kinds st (ClientOperation.become_stub (id_of d x)) tt h

  leave_as-IsDiscreet :
      (x : Ref) (k : Option Kind) (s : List String × Emission)
      → Discreet s.1
      → Discreet (leave_as d old new_kinds x k s).1
  unfolding leave_as
  leave_as-IsDiscreet x none (dropped, st) h =
      let i = id_of d x in
      let under =
        in_overlay st.placed i && is_under d old new_kinds d.allocated dropped (d.links.parent x) in
      let left = if under then st else emit st (ClientOperation.exit i) in
      IsDiscreet-same d old new_kinds left (forget left i) refl refl (
        if_elim Discreet under st (emit st (ClientOperation.exit i)) (λ _. h)
          (λ _. IsDiscreet-emit d old new_kinds st (ClientOperation.exit i) tt h))
  leave_as-IsDiscreet x (some k) (dropped, st) h =
      let asked = placed_after d old new_kinds x st in
      if_elim (λ (r : List String × Emission). Discreet r.1) (in_overlay st.placed (id_of d x)) _
        (dropped, st)
        (λ _.
          demote-IsDiscreet x asked.0 asked.1 dropped
            (placed_after-IsDiscreet d old new_kinds x st h))
        (λ _. h)

  leave-IsDiscreet :
      (xs : List Ref) (s : List String × Emission)
      → Discreet s.1
      → Discreet (leave d old new_kinds xs s).1
  unfolding leave
  leave-IsDiscreet [] s h = h
  leave-IsDiscreet (x ∷ xs) s h =
      leave-IsDiscreet xs (leave_as d old new_kinds x (kind_after d old new_kinds (id_of d x)) s)
        (leave_as-IsDiscreet x (kind_after d old new_kinds (id_of d x)) s h)

  emission-IsDiscreet :
      (v : ClientView) (deleted : Dict Ref) (moved : List String)
      → Discreet (emission d old new_kinds v deleted moved)
  unfolding emission
  emission-IsDiscreet v deleted moved =
      let moving = movers d old new_kinds moved ([], start v) in
      let h0 =
        movers-IsDiscreet d old new_kinds moved ([], start v)
          (record { operations = tt; entered = tt }) in
      let h1 = emit_deletes-IsDiscreet d old new_kinds deleted deleted moving.1 h0 in
      let deletes = emit_deletes d old new_kinds deleted deleted moving.1 in
      let kept = forget_deleted d old new_kinds deleted deletes in
      let h2 = forget_deleted-IsDiscreet d old new_kinds deleted deletes h1 in
      let coming = arriving d old new_kinds new_kinds ([], kept) in
      let h3 = arriving-IsDiscreet d old new_kinds new_kinds ([], kept) h2 in
      let arrived = arrive d old new_kinds (in_order d coming.0) coming.1 in
      let h4 = arrive-IsDiscreet d old new_kinds (in_order d coming.0) coming.1 h3 in
      let settled = emit_moves d old new_kinds (in_order d moving.0) arrived in
      let h5 = emit_moves-IsDiscreet d old new_kinds (in_order d moving.0) arrived h4 in
      let going = leaving d old new_kinds deleted new_kinds ([], settled) in
      let h6 = leaving-IsDiscreet deleted new_kinds ([], settled) h5 in
      leave-IsDiscreet (in_order d going.0) ([], going.1) h6

  entered_patches-IsSafePatch :
      (patch : StatePatch)
      → IsSafePatch d old new_kinds patch
      → IsSafePatch d old new_kinds (entered_patches d old new_kinds patch)
  unfolding entered_patches
  entered_patches-IsSafePatch [] h = tt
  entered_patches-IsSafePatch ((i, []) ∷ patch) h = entered_patches-IsSafePatch patch h.1
  entered_patches-IsSafePatch ((i, e ∷ es) ∷ patch) h = (h.0, entered_patches-IsSafePatch patch h.1)

  and-right : (a b : Bool) → (a && b) ≡ true → b ≡ true
  and-right a b e = ground (arith, e)

  add_patches-IsSafePatch :
      (entered : Dict (Dict Value)) (patches state : StatePatch)
      → IsSafePatch d old new_kinds state
      → IsSafePatch d old new_kinds (add_patches d old new_kinds entered patches state)
  unfolding add_patches
  add_patches-IsSafePatch entered [] state h = h
  add_patches-IsSafePatch entered ((i, patch) ∷ patches) state h =
      let a = not (contains entered i) && is_full_kind (lookup old i) in
      let k = kind_after d old new_kinds i in
      add_patches-IsSafePatch entered patches _ (
        if_elim (IsSafePatch d old new_kinds)
          (not (contains entered i) && is_full_kind (lookup old i) && is_full_kind k)
          (insert state i patch) state
          (λ e.
            insert-IsSafePatch d old new_kinds state i patch
              (full-kind d old new_kinds k (ground (arith, e))) h)
          (λ _. h))

-- a patch, if there is one, of which all that tells a state is of nodes held in full
abbrev pub SendsFull : Doc → ClientView → Dict (Option Kind) → Option ClientPatch → Type 0
SendsFull d v new_kinds none = Unit
SendsFull d v new_kinds (some p) =
    All (IsSafe d v.held new_kinds) p.ordered × IsSafePatch d v.held new_kinds p.state

-- A patch for a client tells states only of nodes that the client holds in full behind it: the nodes whose
-- states it gives, the full nodes that it inserts and those that it fills.
pub emit_patch-SendsFull :
    (d : Doc) (v : ClientView) (new_kinds : Dict (Option Kind)) (deleted : Dict Ref)
    (moved : List String) (state_patch : StatePatch)
    → SendsFull d v new_kinds (emit_patch d v new_kinds deleted moved state_patch).0
unfolding emit_patch
emit_patch-SendsFull d v new_kinds deleted moved state_patch =
    let st = emission d v.held new_kinds v deleted moved in
    let h = emission-IsDiscreet d v.held new_kinds v deleted moved in
    let state =
      add_patches d v.held new_kinds st.entered state_patch
        (entered_patches d v.held new_kinds st.entered) in
    if_elim (SendsFull d v new_kinds) (is_empty st.ordered && is_empty state) none
      (some (record { ordered = st.ordered; state = state })) (λ _. tt)
      (λ _. (
        h.operations,
        add_patches-IsSafePatch d v.held new_kinds st.entered state_patch
            (entered_patches d v.held new_kinds st.entered)
            (entered_patches-IsSafePatch d v.held new_kinds st.entered h.entered),
      ))
