-- ===== src/Scope/Order.antt =====
-- _scope.py: `_order_key`, and sorting by it. The slots of a path are counted as the class orders them.
use atomdoc.Prelude.{
  ℕ, zero, suc, String, Bool, true, false, ◌&&◌, ◌||◌, Option, none, some, List, [], ◌∷◌, reverse,
  ltb, ◌==◌, str_eq, if◌then◌else◌, length,
}
use atomdoc.Links.{Ref, Links}
use atomdoc.Doc.{Doc}
use atomdoc.Doc.Traverse.{slot_names}

-- the steps from the root to a node, each a slot's and a child's index
abbrev pub NodePath : Type 0
NodePath = List (ℕ × ℕ)

index_in : List String → Option String → ℕ
index_in names none = 0
index_in [] (some s) = 0
index_in (n ∷ ns) (some s) = let rest = index_in ns (some s) in if str_eq n s then 0 else suc rest

siblings_before : ℕ → Links → Option Ref → ℕ
siblings_before zero l x = 0
siblings_before (suc fuel) l none = 0
siblings_before (suc fuel) l (some x) = suc (siblings_before fuel l (l.prev_sibling x))

module _ (d : Doc) where
  -- one step, if there is a parent; the steps come from the node to the root
  step_from : Option Ref → Ref → NodePath → NodePath
  unfolding index_in siblings_before
  step_from none x rest = []
  step_from (some p) x rest =
      (
        index_in (slot_names d p) (d.links.slot_name x),
        siblings_before d.allocated d.links (d.links.prev_sibling x),
      )
      ∷ rest

  path_up : ℕ → Option Ref → NodePath
  unfolding step_from
  path_up zero x = []
  path_up (suc fuel) none = []
  path_up (suc fuel) (some x) = step_from (d.links.parent x) x (path_up fuel (d.links.parent x))

  -- `_order_key`
  unfoldable pub order_key : Ref → ℕ × NodePath
  unfolding path_up
  order_key x = let path = reverse (path_up d.allocated (some x)) in (length path, path)

step_less : ℕ × ℕ → ℕ × ℕ → Bool
step_less (a, b) (m, n) = ltb a m || (a == m && ltb b n)

same_step : ℕ × ℕ → ℕ × ℕ → Bool
same_step (a, b) (m, n) = a == m && b == n

path_less : NodePath → NodePath → Bool
unfolding step_less same_step
path_less p [] = false
path_less [] (y ∷ q) = true
path_less (x ∷ p) (y ∷ q) = step_less x y || (same_step x y && path_less p q)

unfoldable pub key_less : ℕ × NodePath → ℕ × NodePath → Bool
unfolding path_less
key_less (a, p) (b, q) = ltb a b || (a == b && path_less p q)

module _ (d : Doc) where
  unfoldable pub put_in_order : Ref → List Ref → List Ref
  unfolding key_less order_key
  put_in_order x [] = x ∷ []
  put_in_order x (y ∷ ys) =
      let rest = put_in_order x ys in
      if key_less (order_key d x) (order_key d y) then x ∷ y ∷ ys else y ∷ rest

  -- behind those of the same key that came before
  unfoldable pub sort_onto : List Ref → List Ref → List Ref
  unfolding put_in_order
  sort_onto sorted [] = sorted
  sort_onto sorted (x ∷ xs) = sort_onto (put_in_order x sorted) xs

  -- `sort(key=_order_key)`
  unfoldable pub in_order : List Ref → List Ref
  unfolding sort_onto
  in_order xs = sort_onto [] xs
