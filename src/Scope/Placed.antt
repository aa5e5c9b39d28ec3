-- ===== src/Scope/Placed.antt =====
-- _scope.py: `_recompute_placed`. What is known of the nodes on the way up is kept for the next ones. The way
-- up takes fuel, one round for each object.
use atomdoc.Prelude.{
  ℕ, zero, suc, String, Bool, true, false, Option, none, some, List, [], ◌∷◌, if◌then◌else◌,
}
use atomdoc.Prelude.Dict.{Dict, lookup, insert, contains, add, discard}
use atomdoc.Links.{Ref}
use atomdoc.Doc.{Doc, id_of}
use atomdoc.Scope.{Kind, ClientView}

-- one step up: from a node that is known, or is held, or neither
abbrev pub step_held : Bool → String → List String × Bool → List String × Bool
step_held true i rest = (i ∷ rest.0, rest.1)
step_held false i rest = ([], false)

abbrev pub step_up : Option Bool → Bool → String → List String × Bool → List String × Bool
step_up (some result) is_held i rest = ([], result)
step_up none is_held i rest = step_held is_held i rest

unfoldable pub remember : Dict Bool → List String → Bool → Dict Bool
remember known [] result = known
remember known (i ∷ chain) result = remember (insert known i result) chain result

abbrev pub place_node : List String → String → Bool → List String
place_node placed i true = add placed i
place_node placed i false = discard placed i

module _ (d : Doc) (held : Dict Kind) where
  -- the chain up to a node that is known, or not held, or the root; and whether the node is placed
  unfoldable pub climb : ℕ → Dict Bool → Option Ref → List String × Bool
  climb zero known x = ([], true)
  climb (suc fuel) known none = ([], true)
  climb (suc fuel) known (some x) =
      step_up (lookup known (id_of d x)) (contains held (id_of d x)) (id_of d x)
        (climb fuel known (d.links.parent x))

  -- one round of the loop, at a node of the document or none
  unfoldable pub place_one : String → Option Ref → Dict Bool × List String → Dict Bool × List String
  unfolding climb remember
  place_one i none (known, placed) = (known, discard placed i)
  place_one i (some x) (known, placed) =
      let way = climb d.allocated known (some x) in
      if contains held i
      then (remember known way.0 way.1, place_node placed i way.1)
      else (known, discard placed i)

  unfoldable pub place_all : List String → Dict Bool × List String → Dict Bool × List String
  unfolding place_one
  place_all [] s = s
  place_all (i ∷ is) s = place_all is (place_one i (lookup d.node_map i) s)

-- `_recompute_placed`, of some nodes; without `ids` it is that of all held ones, with nothing placed
unfoldable pub recompute_placed : Doc → ClientView → List String → ClientView
unfolding place_all
recompute_placed d v ids = record v { placed = (place_all d v.held ids ([], v.placed)).1 }
