-- ===== src/Children/Cursor.antt =====
-- _children.py: lookups with the cursor of a view.
use atomdoc.Prelude.{
  length-drop, ℕ, zero, suc, ◌+◌, ◌-◌, ◌≤◌, ◌<◌, ◌≡◌, refl, sym, ap, ◌∙◌, false, ◌&&◌, Option, none,
  some, List, [], ◌∷◌, arith, leb, ◌==◌, ==_iff, if_elim, length, drop,
}
use mathlib.Core.Path.{subst}
use atomdoc.Prelude.Exec.{Result, ok, err, index_error}
use atomdoc.Links.{Ref, Links}
use atomdoc.Links.Chain.{head_or, Chain}
use atomdoc.Links.Slots.{Kids, Represents}
use atomdoc.Doc.{Doc}
use atomdoc.Doc.Walks.{slot_children-Represents}
use atomdoc.Children.{
  Cursor, ChildrenView, Index, nth, nth_from_end, count_from, seek, start_at, found_at, taken, len,
  items, get_item,
}

-- the item of a list at an index, as Python finds it
unfoldable pub item_of : List Ref → Index → Option Ref
unfolding nth nth_from_end
item_of xs (Index.from_start i) = nth xs i
item_of xs (Index.from_end k) = nth_from_end xs k

abbrev pub or_index_error : Option Ref → Result Ref
or_index_error none = err index_error
or_index_error (some x) = ok x

-- A cursor is not from a later tree than the document's, and where it is from this one it names the
-- child at its index.
unfoldable pub IsCurrent : Doc → List Ref → Option Cursor → Type 0
IsCurrent d xs none = Unit
IsCurrent d xs (some (i, x, version)) =
    (version ≤ d.tree_version) × (version ≡ d.tree_version → nth xs i ≡ some x)

head_or-drop : (xs : List Ref) (i : ℕ) → head_or (drop i xs) none ≡ nth xs i
unfolding nth
head_or-drop [] zero = refl
head_or-drop [] (suc i) = refl
head_or-drop (x ∷ xs) zero = refl
head_or-drop (x ∷ xs) (suc i) = head_or-drop xs i

nth-drop : (xs : List Ref) (i k : ℕ) → nth (drop i xs) k ≡ nth xs (i + k)
unfolding nth
nth-drop xs zero k = rw (zero_add k) refl
  where
    zero_add : (k : ℕ) → 0 + k ≡ k
    zero_add k = omega arith
nth-drop [] (suc i) k = go
  where
    go : nth [] k ≡ nth [] (suc i + k)
    go = refl
nth-drop (x ∷ xs) (suc i) k = nth-drop xs i k ∙ ap (nth (x ∷ xs)) (suc_add i k)
  where
    suc_add : (i k : ℕ) → suc (i + k) ≡ suc i + k
    suc_add i k = omega arith

Chain-drop :
    (l : Links) (b : Option Ref) (xs : List Ref) (i : ℕ)
    → Chain l b xs none
    → (c : Option Ref) × Chain l c (drop i xs) none
Chain-drop l b xs zero h = (b, h)
Chain-drop l b [] (suc i) h = (b, tt)
Chain-drop l b (x ∷ xs) (suc i) h = Chain-drop l (some x) xs i h.2

seek-Chain :
    (fuel : ℕ) (l : Links) (b : Option Ref) (ys : List Ref) (i k : ℕ)
    → Chain l b ys none
    → length ys ≤ fuel
    → seek fuel l i (i + k) (head_or ys none) ≡ nth ys k
unfolding seek nth
seek-Chain zero l b [] i k c h = refl
seek-Chain zero l b (y ∷ ys) i k c h = absurd (omega arith)
seek-Chain (suc fuel) l b [] i k c h = refl
seek-Chain (suc fuel) l b (y ∷ ys) i zero c h = rw ((==_iff i (i + 0)).1 (omega arith)) refl
seek-Chain (suc fuel) l b (y ∷ ys) i (suc k) c h =
    let other : (i == i + suc k) ≡ false = ground arith in
    let shift : i + suc k ≡ (i + 1) + k = omega arith in
    rw (other, c.1, shift) (seek-Chain fuel l (some y) ys (i + 1) k c.2 (omega arith))

count_from-Chain :
    (fuel : ℕ) (l : Links) (b : Option Ref) (xs : List Ref)
    → Chain l b xs none
    → length xs ≤ fuel
    → count_from fuel l (head_or xs none) ≡ length xs
unfolding count_from
count_from-Chain zero l b [] c h = refl
count_from-Chain zero l b (x ∷ xs) c h = absurd (omega arith)
count_from-Chain (suc fuel) l b [] c h = refl
count_from-Chain (suc fuel) l b (x ∷ xs) c h =
    rw (c.1) (ap suc (count_from-Chain fuel l (some x) xs c.2 (omega arith)))

module _ (d : Doc) (kids : Kids) (v : ChildrenView) (r : Represents d.links kids) where
  seek_from :
      (i index : ℕ)
      → i ≤ index
      → length (kids v.node v.slot) ≤ d.allocated
      → seek d.allocated d.links i index (nth (kids v.node v.slot) i)
        ≡ nth (kids v.node v.slot) index
  seek_from i index le h =
      let xs = kids v.node v.slot in
      let c = Chain-drop d.links none xs i (r.slot v.node v.slot).chain in
      let split : i + (index - i) ≡ index = omega (arith, le) in
      subst (λ n. seek d.allocated d.links i n (nth xs i) ≡ nth xs n) split
        (subst (λ x. seek d.allocated d.links i (i + (index - i)) x ≡ nth xs (i + (index - i)))
          (head_or-drop xs i)
          (seek-Chain d.allocated d.links c.0 (drop i xs) i (index - i) c.1
              (omega (arith, h, length-drop i xs))
            ∙ nth-drop xs i (index - i)))

  seek_from_start :
      (index : ℕ)
      → length (kids v.node v.slot) ≤ d.allocated
      → seek d.allocated d.links 0 index (d.links.slot_first v.node v.slot)
        ≡ nth (kids v.node v.slot) index
  seek_from_start index h =
      let xs = kids v.node v.slot in
      let first : d.links.slot_first v.node v.slot ≡ nth xs 0 =
        (r.slot v.node v.slot).first ∙ head_or-drop xs 0 in
      ap (seek d.allocated d.links 0 index) first ∙ seek_from 0 index (omega arith) h

  start_at-finds :
      (index : ℕ) (c : Option Cursor)
      → IsCurrent d (kids v.node v.slot) c
      → length (kids v.node v.slot) ≤ d.allocated
      → seek d.allocated d.links (start_at d v index c).0 index (start_at d v index c).1
        ≡ nth (kids v.node v.slot) index
  unfolding start_at IsCurrent
  start_at-finds index none k h = seek_from_start index h
  start_at-finds index (some (i, x, version)) k h =
      if_elim
        (λ (at : ℕ × Option Ref).
          seek d.allocated d.links at.0 index at.1 ≡ nth (kids v.node v.slot) index)
        (version == d.tree_version && leb i index) _ _
        (λ e.
          ap (seek d.allocated d.links i index) (sym (k.1 (ground (arith, e))))
          ∙ seek_from i index (ground (arith, e)) h)
        (λ _. seek_from_start index h)

  found_at-item :
      (index : ℕ) (o : Option Ref)
      → nth (kids v.node v.slot) index ≡ o
      → IsCurrent d (kids v.node v.slot) v.cursor
      → ((found_at d v index o).0 ≡ or_index_error o)
        × IsCurrent d (kids v.node v.slot) (found_at d v index o).1.cursor
  unfolding found_at IsCurrent
  found_at-item index none e k = (refl, k)
  found_at-item index (some x) e k = (refl, (omega arith, λ _. e))

  taken-item :
      (o : Option Ref)
      → IsCurrent d (kids v.node v.slot) v.cursor
      → ((taken d v o).0 ≡ or_index_error o)
        × IsCurrent d (kids v.node v.slot) (taken d v o).1.cursor
  unfolding taken
  taken-item none k = (refl, k)
  taken-item (some x) k = (refl, k)

  -- With a cursor that is current a lookup finds the item of the slot's list at the index, from
  -- either end, or raises where the list has none there; and the cursor that it leaves is current.
  pub get_item-Represents :
      (index : Index)
      → IsCurrent d (kids v.node v.slot) v.cursor
      → length (kids v.node v.slot) ≤ d.allocated
      → ((get_item d v index).0 ≡ or_index_error (item_of (kids v.node v.slot) index))
        × IsCurrent d (kids v.node v.slot) (get_item d v index).1.cursor
  unfolding get_item item_of items nth_from_end
  get_item-Represents (Index.from_start index) k h =
      let finds = start_at-finds index v.cursor k h in
      let o =
        seek d.allocated d.links (start_at d v index v.cursor).0 index
          (start_at d v index v.cursor).1 in
      let res = found_at-item index o (sym finds) k in (res.0 ∙ ap or_index_error finds, res.1)
  get_item-Represents (Index.from_end n) k h =
      let all_items : items d v ≡ kids v.node v.slot =
        slot_children-Represents d kids v.node v.slot r h in
      let res = taken-item (nth_from_end (items d v) n) k in
      (res.0 ∙ ap (λ xs. or_index_error (nth_from_end xs n)) all_items, res.1)

  -- The length is that of the slot's list.
  pub len-Represents :
      length (kids v.node v.slot) ≤ d.allocated → len d v ≡ length (kids v.node v.slot)
  unfolding len
  len-Represents h =
      let xs = kids v.node v.slot in
      rw ((r.slot v.node v.slot).first)
        (count_from-Chain d.allocated d.links none xs (r.slot v.node v.slot).chain h)

-- A change of the tree that counts the version up leaves every cursor current, whatever the lists
-- of children are then.
pub IsCurrent-bumped :
    (d d' : Doc) (xs ys : List Ref) (c : Option Cursor)
    → d.tree_version < d'.tree_version
    → IsCurrent d xs c
    → IsCurrent d' ys c
unfolding IsCurrent
IsCurrent-bumped d d' xs ys none h k = tt
IsCurrent-bumped d d' xs ys (some (i, x, version)) h k =
    (omega (arith, h, k.0), λ e. absurd (omega (arith, e, h, k.0)))
