-- ===== src/Scope/Discretion.antt =====
-- _scope.py: what a projected patch tells a client of a node's state.
use atomdoc.Prelude.{
  ℕ, zero, suc, String, ◌≡◌, refl, ◌||◌, not, Option, none, some, List, [], ◌∷◌, str_eq, if_elim,
  All, All-append,
}
use mathlib.Core.Path.{subst}
use atomdoc.Prelude.Dict.{Dict, insert, mem}
use atomdoc.Types.{Value, StatePatch}
use atomdoc.Links.{Ref}
use atomdoc.Doc.{Doc, id_of, state_to_json}
use atomdoc.Doc.Traverse.{slot_children, slot_names}
use atomdoc.Scope.{Kind, full, stub}
use atomdoc.Scope.Overlay.{in_overlay}
use atomdoc.Scope.Emission.{
  Emission, ClientOperation, Pair, Run, is_held, emit, enter, enter_all, kind_after, pair_of,
  enter_state, flush, add_child, run_child, run_children, new_run, self_ref, for_nodes, place_slots,
  place_children,
}

module _ (d : Doc) (old : Dict Kind) (new_kinds : Dict (Option Kind)) where
  -- the client holds the node in full behind the patch
  abbrev pub IsSent : String → Type 0
  IsSent i = kind_after d old new_kinds i ≡ some full

  -- A pair with a state is of a node that is held in full.
  abbrev pub IsSafePair : Pair → Type 0
  IsSafePair m = m.kind ≡ full → IsSent m.id

  abbrev pub IsSafe : ClientOperation → Type 0
  IsSafe (ClientOperation.insert_nodes ms parent slot prev next) = All IsSafePair ms
  IsSafe (ClientOperation.fill i) = IsSent i
  IsSafe _ = Unit

  abbrev pub IsSafePatch : StatePatch → Type 0
  IsSafePatch patch = All (λ (e : String × Dict Value). IsSent e.0) patch

  pub record IsDiscreet (st : Emission) : Type 0 where
    pub operations : All IsSafe st.ordered
    pub entered : IsSafePatch st.entered

  pub IsDiscreet-emit :
      (st : Emission) (op : ClientOperation) → IsSafe op → IsDiscreet st → IsDiscreet (emit st op)
  IsDiscreet-emit st op s h = record {
    operations = All-append IsSafe st.ordered (op ∷ []) h.operations (s, tt);
    entered = h.entered;
  }

  -- what is not sent may change
  pub IsDiscreet-same :
      (st u : Emission)
      → st.ordered ≡ u.ordered
      → st.entered ≡ u.entered
      → IsDiscreet st
      → IsDiscreet u
  IsDiscreet-same st u e f h = record {
    operations = subst (All IsSafe) e h.operations;
    entered = subst IsSafePatch f h.entered;
  }

  pub enter_all-IsDiscreet :
      (ms : List Pair) (st : Emission) → IsDiscreet st → IsDiscreet (enter_all st ms)
  unfolding enter_all
  enter_all-IsDiscreet [] st h = h
  enter_all-IsDiscreet (m ∷ ms) st h =
      enter_all-IsDiscreet ms (enter st m.id) (IsDiscreet-same st (enter st m.id) refl refl h)

  pub insert-IsSafePatch :
      (patch : StatePatch) (i : String) (state : Dict Value)
      → IsSent i
      → IsSafePatch patch
      → IsSafePatch (insert patch i state)
  unfolding insert
  insert-IsSafePatch [] i state s h = (s, tt)
  insert-IsSafePatch ((j, w) ∷ patch) i state s h =
      if_elim IsSafePatch (str_eq j i) ((j, state) ∷ patch) ((j, w) ∷ insert patch i state) (λ _. h)
        (λ _. (h.0, insert-IsSafePatch patch i state s h.1))

  pub enter_state-IsDiscreet :
      (x : Ref) (st : Emission)
      → IsSent (id_of d x)
      → IsDiscreet st
      → IsDiscreet (enter_state d old new_kinds st x)
  enter_state-IsDiscreet x st s h = record {
    operations = h.operations;
    entered = insert-IsSafePatch st.entered (id_of d x) (state_to_json d x) s h.entered;
  }

  record IsDiscreetRun (r : Run) : Type 0 where
    sent : IsDiscreet r.st
    pairs : All IsSafePair r.run

  flush-IsDiscreetRun :
      (parent : Option String) (s : String) (next : Option String) (r : Run)
      → IsDiscreetRun r
      → IsDiscreetRun (flush parent s next r)
  flush-IsDiscreetRun parent s next r h = go r.run h.pairs
    where
      go :
          (ms : List Pair)
          → All IsSafePair ms
          → IsDiscreetRun (elim ms as (λ _. Run) [
            | [] ↦ r
            | m ∷ ms ↦ record r {
              run = [];
              st =
                  enter_all
                    (emit r.st (ClientOperation.insert_nodes (m ∷ ms) parent (some s) r.prev next))
                    (m ∷ ms);
            }
          ])
      go [] a = h
      go (m ∷ ms) a = record {
        sent =
            let op = ClientOperation.insert_nodes (m ∷ ms) parent (some s) r.prev next in
            enter_all-IsDiscreet (m ∷ ms) (emit r.st op) (IsDiscreet-emit r.st op a h.sent);
        pairs = tt;
      }

  add_child-IsDiscreetRun :
      (x : Ref) (k : Option Kind) (r : Run)
      → kind_after d old new_kinds (id_of d x) ≡ k
      → IsDiscreetRun r
      → IsDiscreetRun (add_child d old new_kinds x k r)
  unfolding add_child
  add_child-IsDiscreetRun x none r e h = h
  add_child-IsDiscreetRun x (some full) r e h = record {
    sent = enter_state-IsDiscreet x r.st e h.sent;
    pairs =
        All-append IsSafePair r.run (pair_of d old new_kinds x full ∷ []) h.pairs ((λ _. e), tt);
  }
  add_child-IsDiscreetRun x (some stub) r e h = record {
    sent = h.sent;
    pairs =
        All-append IsSafePair r.run (pair_of d old new_kinds x stub ∷ []) h.pairs
          ((λ f. absurd (stub_full f)), tt);
  }
    where
      stub_full : stub ≡ full → ⊥
      stub_full f = cc

  run_child-IsDiscreetRun :
      (parent : Option String) (s : String) (x : Ref) (r : Run)
      → IsDiscreetRun r
      → IsDiscreetRun (run_child d old new_kinds parent s x r)
  unfolding run_child
  run_child-IsDiscreetRun parent s x r h =
      let f = flush-IsDiscreetRun parent s (some (id_of d x)) r h in
      if_elim IsDiscreetRun
        (not (is_held (kind_after d old new_kinds (id_of d x))) || mem r.st.pending (id_of d x)) r _
        (λ _. h)
        (λ _.
          if_elim IsDiscreetRun (in_overlay r.st.placed (id_of d x)) _ _
            (λ _. record { sent = f.sent; pairs = f.pairs })
            (λ _. add_child-IsDiscreetRun x (kind_after d old new_kinds (id_of d x)) r refl h))

  run_children-IsDiscreetRun :
      (parent : Option String) (s : String) (xs : List Ref) (r : Run)
      → IsDiscreetRun r
      → IsDiscreetRun (run_children d old new_kinds parent s xs r)
  unfolding run_children
  run_children-IsDiscreetRun parent s [] r h = flush-IsDiscreetRun parent s none r h
  run_children-IsDiscreetRun parent s (x ∷ xs) r h =
      run_children-IsDiscreetRun parent s xs (run_child d old new_kinds parent s x r)
        (run_child-IsDiscreetRun parent s x r h)

  for_nodes-IsDiscreet :
      (f : Ref → Emission → Emission)
      → ((x : Ref) (st : Emission) → IsDiscreet st → IsDiscreet (f x st))
      → (xs : List Ref) (st : Emission) → IsDiscreet st
      → IsDiscreet (for_nodes d old new_kinds f xs st)
  unfolding for_nodes
  for_nodes-IsDiscreet f k [] st h = h
  for_nodes-IsDiscreet f k (x ∷ xs) st h = for_nodes-IsDiscreet f k xs (f x st) (k x st h)

  place_slots-IsDiscreet :
      (f : Ref → Emission → Emission)
      → ((x : Ref) (st : Emission) → IsDiscreet st → IsDiscreet (f x st))
      → (x : Ref) (ss : List String) (st : Emission) → IsDiscreet st
      → IsDiscreet (place_slots d old new_kinds f x ss st)
  unfolding place_slots new_run
  place_slots-IsDiscreet f k x [] st h = h
  place_slots-IsDiscreet f k x (s ∷ ss) st h =
      let r =
        run_children d old new_kinds (self_ref d old new_kinds x) s (slot_children d x s)
          (new_run d old new_kinds st) in
      let safe =
        run_children-IsDiscreetRun (self_ref d old new_kinds x) s (slot_children d x s)
          (new_run d old new_kinds st) (record { sent = h; pairs = tt }) in
      place_slots-IsDiscreet f k x ss (for_nodes d old new_kinds f r.descend r.st)
        (for_nodes-IsDiscreet f k r.descend r.st safe.sent)

  -- The children of a node that enters are sent with their states where they are held in full.
  pub place_children-IsDiscreet :
      (fuel : ℕ) (x : Ref) (st : Emission)
      → IsDiscreet st
      → IsDiscreet (place_children d old new_kinds fuel x st)
  unfolding place_children
  place_children-IsDiscreet zero x st h = h
  place_children-IsDiscreet (suc fuel) x st h =
      place_slots-IsDiscreet (place_children d old new_kinds fuel) (place_children-IsDiscreet fuel)
        x (slot_names d x) st h
