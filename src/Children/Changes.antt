-- ===== src/Children/Changes.antt =====
-- _children.py: the methods that change a slot. `within` runs a body in a transaction.
use atomdoc.Prelude.{
  ℕ, zero, suc, ◌+◌, ◌-◌, ◌≤◌, String, ◌≡◌, refl, ap, ◌∙◌, inl, inr, Bool, ◌&&◌, Option, none, some,
  List, [], ◌∷◌, ltb, if◌then◌else◌, Bool-cases, length,
}
use atomdoc.Prelude.Exec.{
  Exec, Result, ok, err, index_error, value_error, assertion_error, runtime_error, for_each,
}
use atomdoc.Types.{append, prepend, after}
use atomdoc.Links.{Ref}
use atomdoc.Links.Chain.{In, Owned-In}
use atomdoc.Links.Slots.{Kids, Represents}
use atomdoc.Doc.{Doc}
use atomdoc.Doc.Insert.{same_ref, same_slot, insert_into_slot}
use atomdoc.Doc.Range.{delete_range}
use atomdoc.Children.{ChildrenView, Index, get_item, nth, nth_from_end}
use atomdoc.Children.Cursor.{IsCurrent, item_of, get_item-Represents, or_index_error}

abbrev Within : Type 0
Within = Exec Doc (Unit {0}) → Exec Doc (Unit {0})

module _ (within : Exec Doc (Unit {0}) → Exec Doc (Unit {0})) where
  -- `AtomNode.insert_after`, with one node
  insert_beside : Option Ref → Option String → Ref → Ref → Exec Doc (Unit {0})
  insert_beside none o target x d = (err runtime_error, d)
  insert_beside (some p) none target x d = (err runtime_error, d)
  insert_beside (some p) (some s) target x d =
      insert_into_slot within p s after (x ∷ []) (some target) d

  insert_after : Ref → Ref → Exec Doc (Unit {0})
  unfolding insert_beside
  insert_after target x d =
      insert_beside (d.links.parent target) (d.links.slot_name target) target x d

  module _ (v : ChildrenView) where
    unfoldable pub append_to : List Ref → Exec Doc (Unit {0})
    append_to nodes = insert_into_slot within v.node v.slot append nodes none

    unfoldable pub prepend_to : List Ref → Exec Doc (Unit {0})
    prepend_to nodes = insert_into_slot within v.node v.slot prepend nodes none

    -- `except IndexError`, whoever raised it
    abbrev pub or_append : Ref → Result (Unit {0}) × Doc → Result (Unit {0}) × Doc
    or_append x (err index_error, d) = insert_into_slot within v.node v.slot append (x ∷ []) none d
    or_append x r = r

    -- behind the child that a lookup found, or at the end where it found none
    insert_behind : Result Ref → Ref → Exec Doc (Unit {0})
    unfolding insert_after
    insert_behind (err e) x d = or_append x (err e, d)
    insert_behind (ok target) x d = or_append x (insert_after target x d)

    unfoldable pub previous_index : Index → Option Index
    previous_index (Index.from_start zero) = none
    previous_index (Index.from_start (suc n)) = some (Index.from_start n)
    previous_index (Index.from_end k) = some (Index.from_end (k + 1))

    insert_at_index : Option Index → Ref → Doc → ChildrenView × (Result (Unit {0}) × Doc)
    unfolding prepend_to insert_behind get_item
    insert_at_index none x d = (v, prepend_to (x ∷ []) d)
    insert_at_index (some i) x d = let r = get_item d v i in (r.1, insert_behind r.0 x d)

    -- `insert`, with the view as the lookup leaves it
    unfoldable pub insert : Index → Ref → Doc → ChildrenView × (Result (Unit {0}) × Doc)
    unfolding insert_at_index previous_index
    insert index x d = insert_at_index (previous_index index) x d

    is_child : Doc → Ref → Bool
    is_child d x =
        same_ref (d.links.parent x) (some v.node) && same_slot (d.links.slot_name x) v.slot

    -- `remove`
    unfoldable pub remove : List Ref → Exec Doc (Unit {0})
    unfolding is_child
    remove nodes =
        for_each nodes
          (λ x d. if is_child d x then delete_range within x x d else (err value_error, d))

    delete_to : Ref → Option Ref → Exec Doc (Unit {0})
    delete_to first none d = (err assertion_error, d)
    delete_to first (some last) d = delete_range within first last d

    delete_between : Option Ref → Option Ref → Exec Doc (Unit {0})
    unfolding delete_to
    delete_between none last d = (ok tt, d)
    delete_between (some first) last d = delete_to first last d

    -- `clear`
    unfoldable pub clear : Exec Doc (Unit {0})
    unfolding delete_between
    clear d = delete_between (d.links.slot_first v.node v.slot) (d.links.slot_last v.node v.slot) d

    -- where an insertion at an index puts a node: in front, behind a child, or at the end
    abbrev pub put_beside : Option Ref → Ref → Exec Doc (Unit {0})
    put_beside none x d = insert_into_slot within v.node v.slot append (x ∷ []) none d
    put_beside (some t) x d =
        or_append x (insert_into_slot within v.node v.slot after (x ∷ []) (some t) d)

    abbrev pub put_behind : Option Index → List Ref → Ref → Exec Doc (Unit {0})
    put_behind none xs x = insert_into_slot within v.node v.slot prepend (x ∷ []) none
    put_behind (some i) xs x = put_beside (item_of xs i) x

nth-In : (xs : List Ref) (i : ℕ) (t : Ref) → nth xs i ≡ some t → In t xs
unfolding nth
nth-In [] i t e = absurd cc
nth-In (x ∷ xs) zero t e = inl cc
nth-In (x ∷ xs) (suc i) t e = inr (nth-In xs i t e)

item_of-In : (xs : List Ref) (i : Index) (t : Ref) → item_of xs i ≡ some t → In t xs
unfolding item_of nth_from_end
item_of-In xs (Index.from_start i) t e = nth-In xs i t e
item_of-In xs (Index.from_end k) t e = elim (Bool-cases (ltb k (length xs))) [
  | inl inside ↦ nth-In xs (length xs - (k + 1)) t (rw inside at e)
  | inr outside ↦ absurd (none_some (rw outside at e))
]
  where
    none_some : none ≡ some t → ⊥
    none_some e = cc

module _ (within : Exec Doc (Unit {0}) → Exec Doc (Unit {0})) (d : Doc) (kids : Kids)
    (v : ChildrenView) (r : Represents d.links kids) where
  insert_after-child :
      (t x : Ref)
      → In t (kids v.node v.slot)
      → insert_after within t x d ≡ insert_into_slot within v.node v.slot after (x ∷ []) (some t) d
  unfolding insert_after insert_beside
  insert_after-child t x m =
      let owned =
        Owned-In d.links v.node v.slot (kids v.node v.slot) t (r.slot v.node v.slot).owned m in
      ap (λ p. insert_beside within p (d.links.slot_name t) t x d) owned.0
      ∙ ap (λ s. insert_beside within (some v.node) s t x d) owned.1

  insert_behind-put :
      (i : Index) (o : Option Ref) (x : Ref)
      → item_of (kids v.node v.slot) i ≡ o
      → insert_behind within v (or_index_error o) x d ≡ put_beside within v o x d
  unfolding insert_behind
  insert_behind-put i none x e = refl
  insert_behind-put i (some t) x e =
      ap (or_append within v x) (insert_after-child t x (item_of-In (kids v.node v.slot) i t e))

  put-previous :
      (i : Option Index) (x : Ref)
      → IsCurrent d (kids v.node v.slot) v.cursor
      → length (kids v.node v.slot) ≤ d.allocated
      → (insert_at_index within v i x d).1 ≡ put_behind within v i (kids v.node v.slot) x d
  unfolding insert_at_index prepend_to
  put-previous none x k h = refl
  put-previous (some i) x k h =
      ap (λ (t : Result Ref). insert_behind within v t x d) (get_item-Represents d kids v r i k h).0
      ∙ insert_behind-put i (item_of (kids v.node v.slot) i) x refl

  -- With a cursor that is current an insertion at an index puts the node in front of the slot's list
  -- for index 0, else behind the item one before the index, and at the end where the list has
  -- none there.
  pub insert-Represents :
      (index : Index) (x : Ref)
      → IsCurrent d (kids v.node v.slot) v.cursor
      → length (kids v.node v.slot) ≤ d.allocated
      → (insert within v index x d).1
        ≡ put_behind within v (previous_index within v index) (kids v.node v.slot) x d
  unfolding insert
  insert-Represents index x k h = put-previous (previous_index within v index) x k h
