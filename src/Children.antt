-- ===== src/Children.antt =====
-- python/src/atomdoc/_children.py: the view of a slot's children as a sequence, with the cursor of its last
-- lookup. Every node belongs to a document here. Slices, which are those of the list of children, are left
-- out.
pub mod Cursor
pub mod Changes
pub mod Insertion
mod Examples
use atomdoc.Prelude.{
  ℕ, zero, suc, ◌+◌, ◌-◌, ◌*◌, ◌/◌, ◌%◌, ◌≤◌, ◌<◌, String, ◌≡◌, refl, sym, ap, ◌∙◌, ◌≢◌, ◌↔◌, ◌⊎◌,
  inl, inr, Bool, true, false, ◌&&◌, ◌||◌, not, Option, none, some, List, [], ◌∷◌, ◌++◌, map,
  reverse, arith, eq_iff, ltb, leb, ◌==◌, str_eq, if◌then◌else◌, ==_iff, str_eq_refl, Bool-cases,
  Option-cases, if_elim, length, is_empty, take, drop, replicate, All, All-append,
}
use atomdoc.Prelude.Exec.{
  Exec, Result, ok, err, Error, index_error, value_error, assertion_error, runtime_error, done,
  ◌>>◌, ◌>>=◌, require,
}
use atomdoc.Types.{Position, append, prepend, after}
use atomdoc.Links.{Ref, Links}
use atomdoc.Doc.{Doc}
use atomdoc.Doc.Traverse.{walk_next, slot_children}
use atomdoc.Doc.Insert.{same_ref, same_slot, insert_into_slot}
use atomdoc.Doc.Range.{delete_range}

-- index, node and tree version of a lookup
abbrev pub Cursor : Type 0
Cursor = ℕ × Ref × ℕ

pub record ChildrenView : Type 0 where
  pub node : Ref
  pub slot : String
  pub cursor : Option Cursor

abbrev pub view_of : Ref → String → ChildrenView
view_of p s = record { node = p; slot = s; cursor = none }

-- an index, from the start or from the end: -1 is `from_end 0`
pub data Index : Type 0 where
  from_start from_end : ℕ → Index

-- `xs[i]`
unfoldable pub nth : List Ref → ℕ → Option Ref
nth [] i = none
nth (x ∷ xs) zero = some x
nth (x ∷ xs) (suc i) = nth xs i

unfoldable pub nth_from_end : List Ref → ℕ → Option Ref
unfolding nth
nth_from_end xs k = if ltb k (length xs) then nth xs (length xs - (k + 1)) else none

unfoldable pub count_from : ℕ → Links → Option Ref → ℕ
count_from zero l x = 0
count_from (suc fuel) l none = 0
count_from (suc fuel) l (some x) = suc (count_from fuel l (l.next_sibling x))

-- the loop of a lookup, at the `i`-th child
unfoldable pub seek : ℕ → Links → ℕ → ℕ → Option Ref → Option Ref
seek zero l i index x = none
seek (suc fuel) l i index none = none
seek (suc fuel) l i index (some x) =
    let rest = seek fuel l (i + 1) index (l.next_sibling x) in if i == index then some x else rest

module _ (d : Doc) (v : ChildrenView) where
  -- `__len__`
  unfoldable pub len : ℕ
  unfolding count_from
  len = count_from d.allocated d.links (d.links.slot_first v.node v.slot)

  -- `__iter__`
  unfoldable pub items : List Ref
  unfolding slot_children
  items = slot_children d v.node v.slot

  -- `__bool__`
  unfoldable pub is_filled : Bool
  is_filled = elim (d.links.slot_first v.node v.slot) [ none ↦ false | some x ↦ true ]

  -- where a lookup starts
  start_at : ℕ → Option Cursor → ℕ × Option Ref
  start_at index none = (0, d.links.slot_first v.node v.slot)
  start_at index (some (i, x, version)) =
      if version == d.tree_version && leb i index
      then (i, some x)
      else (0, d.links.slot_first v.node v.slot)

  found_at : ℕ → Option Ref → Result Ref × ChildrenView
  found_at index none = (err index_error, v)
  found_at index (some x) = (ok x, record v { cursor = some (index, x, d.tree_version) })

  taken : Option Ref → Result Ref × ChildrenView
  taken none = (err index_error, v)
  taken (some x) = (ok x, v)

  -- `__getitem__`
  unfoldable pub get_item : Index → Result Ref × ChildrenView
  unfolding start_at seek found_at taken items nth_from_end
  get_item (Index.from_start index) =
      let at = start_at index v.cursor in found_at index (seek d.allocated d.links at.0 index at.1)
  get_item (Index.from_end k) = taken (nth_from_end items k)

among : List Ref → Ref → Bool
among [] x = false
among (y ∷ ys) x = if y == x then true else among ys x

-- `__contains__`
unfoldable pub contains_child : Doc → ChildrenView → Ref → Bool
unfolding among items
contains_child d v x = among (items d v) x
