-- ===== src/Links.antt =====
-- The links of node objects: each slot of a node holds a doubly linked list of children. An object
-- is a reference, a number; a field of all objects is a function of the reference.
pub mod Chain
pub mod Slots
pub mod Join
pub mod Detach
pub mod Again
pub mod Attach
pub mod Move
pub mod Append
pub mod Before
mod Examples
use atomdoc.Prelude.{
  ℕ, zero, suc, ◌+◌, ◌-◌, ◌*◌, ◌/◌, ◌%◌, ◌≤◌, ◌<◌, String, ◌≡◌, refl, sym, ap, ◌∙◌, ◌≢◌, ◌↔◌, ◌⊎◌,
  inl, inr, Bool, true, false, ◌&&◌, ◌||◌, not, Option, none, some, List, [], ◌∷◌, ◌++◌, map,
  reverse, arith, eq_iff, ltb, leb, ◌==◌, str_eq, if◌then◌else◌, ==_iff, str_eq_refl, Bool-cases,
  Option-cases, length, replicate, All, All-append,
}

abbrev pub Ref : Type 0
Ref = ℕ

pub record Links : Type 0 where
  pub parent : Ref → Option Ref
  pub slot_name : Ref → Option String
  pub prev_sibling : Ref → Option Ref
  pub next_sibling : Ref → Option Ref
  pub slot_first : Ref → String → Option Ref
  pub slot_last : Ref → String → Option Ref

abbrev pub set_at {ℓ} : {A : Type ℓ} → (Ref → A) → Ref → A → Ref → A
set_at f x v y = if x == y then v else f y

abbrev pub set_slot {ℓ} : {A : Type ℓ} → (Ref → String → A) → Ref → String → A → Ref → String → A
set_slot f x s v y t = if x == y then (if str_eq s t then v else f y t) else f y t

module _ (l : Links) where
  abbrev pub set_parent : Ref → Option Ref → Links
  set_parent x v = record l { parent = set_at l.parent x v }

  abbrev pub set_slot_name : Ref → Option String → Links
  set_slot_name x v = record l { slot_name = set_at l.slot_name x v }

  abbrev pub set_prev : Ref → Option Ref → Links
  set_prev x v = record l { prev_sibling = set_at l.prev_sibling x v }

  abbrev pub set_next : Ref → Option Ref → Links
  set_next x v = record l { next_sibling = set_at l.next_sibling x v }

  abbrev pub set_first : Ref → String → Option Ref → Links
  set_first x s v = record l { slot_first = set_slot l.slot_first x s v }

  abbrev pub set_last : Ref → String → Option Ref → Links
  set_last x s v = record l { slot_last = set_slot l.slot_last x s v }

abbrev pub no_links : Links
no_links = record {
  parent = λ _. none;
  slot_name = λ _. none;
  prev_sibling = λ _. none;
  next_sibling = λ _. none;
  slot_first = λ _ _. none;
  slot_last = λ _ _. none;
}

-- The links of a node that `_init_internal` has just set up again.
unfoldable pub reset_links : Links → Ref → Links
reset_links l x = record {
  parent = set_at l.parent x none;
  slot_name = set_at l.slot_name x none;
  prev_sibling = set_at l.prev_sibling x none;
  next_sibling = set_at l.next_sibling x none;
  slot_first = λ y s. if x == y then none else l.slot_first y s;
  slot_last = λ y s. if x == y then none else l.slot_last y s;
}

-- `x.next = v` where `x` may be absent, and the slot's first child is set instead
abbrev pub link_next : Links → Option Ref → Option Ref → String → Option Ref → Links
link_next l (some q) p s v = set_next l q v
link_next l none (some p) s v = set_first l p s v
link_next l none none s v = l

abbrev pub link_prev : Links → Option Ref → Option Ref → String → Option Ref → Links
link_prev l (some q) p s v = set_prev l q v
link_prev l none (some p) s v = set_last l p s v
link_prev l none none s v = l

-- `_range._detach_range`; a node with a parent has a slot name
unfoldable pub detach_range : Links → Ref → Ref → Links
detach_range l start end =
    let old_prev = l.prev_sibling start in
    let old_next = l.next_sibling end in
    elim (l.slot_name start) [
      | none ↦ link_prev (link_next l old_prev none "" old_next) old_next none "" old_prev
      | some s ↦
          link_prev (link_next l old_prev (l.parent start) s old_next) old_next (l.parent start) s
            old_prev
    ]

-- The links that `NodeRange.move` writes before its last loop.
unfoldable pub attach_range : Links → Ref → Ref → Ref → String → Option Ref → Option Ref → Links
attach_range l start end p s new_prev new_next =
    let l1 = link_next (set_prev l start new_prev) new_prev (some p) s (some start) in
    link_prev (set_next l1 end new_next) new_next (some p) s (some end)

-- the last loop of `NodeRange.move`
unfoldable pub adopt_all : Links → List Ref → Ref → String → Links
adopt_all l [] p s = l
adopt_all l (x ∷ xs) p s = adopt_all (set_slot_name (set_parent l x (some p)) x (some s)) xs p s

-- The links of a range that moves: taken out of its slot, put between the new neighbours, adopted.
unfoldable pub move_links :
    Links → Ref → Ref → List Ref → Ref → String → Option Ref → Option Ref → Links
unfolding detach_range attach_range adopt_all
move_links l start end xs p s prev next =
    adopt_all (attach_range (detach_range l start end) start end p s prev next) xs p s

-- `Doc._attach_node`, as far as the links go
abbrev pub attach_links : Links → Ref → Ref → String → Option Ref → Option Ref → Links
attach_links l x p s prev next = record l {
  parent = set_at l.parent x (some p);
  slot_name = set_at l.slot_name x (some s);
  prev_sibling = set_at l.prev_sibling x prev;
  next_sibling = set_at l.next_sibling x next;
}

-- one round of the loop of `_insert_into_slot` that appends
unfoldable pub append_one : Links → Ref → String → Option Ref → Ref → Links
append_one l p s current x =
    link_next (attach_links l x p s current none) current (some p) s (some x)

-- that loop, and the write of the slot's last child behind it
unfoldable pub append_links : Links → Ref → String → Option Ref → List Ref → Links
unfolding append_one
append_links l p s current [] = set_last l p s current
append_links l p s current (x ∷ xs) = append_links (append_one l p s current x) p s (some x) xs

-- `x.next = v` if `x` is there
abbrev pub set_next_of : Links → Option Ref → Option Ref → Links
set_next_of l none v = l
set_next_of l (some q) v = set_next l q v

-- one round of the loop that inserts before a target, from the last node to the first
unfoldable pub before_one : Links → Ref → String → Ref → Ref → Links
before_one l p s target x =
    let q = l.prev_sibling target in
    let l1 = set_next_of (attach_links l x p s q (some target)) q (some x) in
    set_prev l1 target (some x)

-- that loop over the nodes from the last one on, and the write of the slot's first child behind it
unfoldable pub before_links : Links → Ref → String → Ref → List Ref → Links
unfolding before_one
before_links l p s target [] = l
before_links l p s target (x ∷ xs) = before_links (before_one l p s target x) p s x xs
