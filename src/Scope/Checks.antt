-- ===== src/Scope/Checks.antt =====
-- _scope.py: the checks of a client's requests against its view. IDs are strings or the null marker, and inserted
-- nodes are pairs, by their types; what the source says of other JSON values is left out.
use atomdoc.Prelude.{
  ℕ, zero, suc, String, Bool, true, false, ◌&&◌, not, Option, none, some, List, [], ◌∷◌, str_eq,
  if◌then◌else◌,
}
use atomdoc.Prelude.Exec.{Result, ok, err, out_of_scope}
use atomdoc.Prelude.Dict.{lookup, contains, mem, add}
use atomdoc.Types.{OrderedOperation, Operations, StatePatch, truthy}
use atomdoc.Links.{Ref}
use atomdoc.Doc.{Doc, id_of}
use atomdoc.Doc.Insert.{same_ref, same_slot}
use atomdoc.Scope.{Kind, full, stub, ClientView}

abbrev pub is_full_kind : Option Kind → Bool
is_full_kind none = false
is_full_kind (some full) = true
is_full_kind (some stub) = false

abbrev pub Check : Type 0
Check = Result (Unit {0})

abbrev pub demand : Bool → Check
demand true = ok tt
demand false = err out_of_scope

abbrev pub next_check : Check → Check → Check
next_check (ok u) c = c
next_check (err e) c = err e

module _ (d : Doc) (v : ClientView) where
  -- `_require_full`, also of a marker
  unfoldable pub require_full : Option String → Check
  require_full none = err out_of_scope
  require_full (some i) = demand (is_full_kind (lookup v.held i))

  -- `_parent_id`
  abbrev pub parent_id : Option String → String
  parent_id none = id_of d d.root
  parent_id (some i) = if str_eq i "" then id_of d d.root else i

  -- the loop of `_require_range`, at a node behind the start
  unfoldable pub require_until : ℕ → String → Option Ref → Check
  unfolding require_full
  require_until zero end x = ok tt
  require_until (suc fuel) end none = ok tt
  require_until (suc fuel) end (some x) =
      let rest = require_until fuel end (d.links.next_sibling x) in
      next_check (require_full (some (id_of d x))) (if str_eq (id_of d x) end then ok tt else rest)

  -- from the start, whose own check stands in front of the loop
  unfoldable pub require_behind : String → Option Ref → Check
  unfolding require_until
  require_behind end none = ok tt
  require_behind end (some x) =
      let rest = require_until d.allocated end (d.links.next_sibling x) in
      if str_eq (id_of d x) end then ok tt else rest

  -- `_require_range`
  unfoldable pub require_range : String → Option String → Check
  unfolding require_full require_behind
  require_range start none = require_full (some start)
  require_range start (some end) =
      next_check (require_full (some start))
        (next_check (require_full (some end)) (require_behind end (lookup d.node_map start)))

  is_beside : String → Option Ref → Option Ref → Bool
  is_beside slot none parent = true
  is_beside slot (some x) none = true
  is_beside slot (some x) (some p) =
      same_ref (d.links.parent x) (some p) && same_slot (d.links.slot_name x) slot

  require_truthy : String → String → Option String → Check
  unfolding is_beside
  require_truthy parent slot none = ok tt
  require_truthy parent slot (some i) =
      next_check (demand (contains v.held i))
        (demand (is_beside slot (lookup d.node_map i) (lookup d.node_map parent)))

  -- `_require_sibling`, with `_require_known`
  unfoldable pub require_sibling : String → String → Option String → Check
  unfolding require_truthy
  require_sibling parent slot sibling = require_truthy parent slot (truthy sibling)

  abbrev pub is_free : String → Bool
  is_free i = not (contains v.held i) && not (contains d.node_map i) && not (contains d.graveyard i)

  unfoldable pub require_free : List (String × String) → Check
  require_free [] = ok tt
  require_free ((i, type) ∷ pairs) = next_check (demand (is_free i)) (require_free pairs)

  abbrev pub require_siblings : String → String → Option String → Option String → Check
  require_siblings parent slot prev next =
      next_check (require_sibling parent slot prev) (require_sibling parent slot next)

  -- one ordered operation
  unfoldable pub check_ordered : OrderedOperation → Check
  unfolding require_free require_range require_full require_sibling
  check_ordered (OrderedOperation.insert pairs parent slot prev next) =
      next_check (require_full (some (parent_id parent)))
        (next_check (require_free pairs) (require_siblings (parent_id parent) slot prev next))
  check_ordered (OrderedOperation.delete start end) = require_range start end
  check_ordered (OrderedOperation.move start end parent slot prev next) =
      next_check (require_range start end) (
        next_check (require_full (some (parent_id parent)))
          (require_siblings (parent_id parent) slot prev next))

  unfoldable pub check_all : List OrderedOperation → Check
  unfolding check_ordered
  check_all [] = ok tt
  check_all (op ∷ ops) = next_check (check_ordered op) (check_all ops)

  unfoldable pub check_patches : List String → StatePatch → Check
  unfolding require_full
  check_patches created [] = ok tt
  check_patches created ((i, patch) ∷ patches) =
      next_check (if mem created i then ok tt else require_full (some i))
        (check_patches created patches)

  unfoldable pub add_created : List String → List (String × String) → List String
  add_created created [] = created
  add_created created ((i, type) ∷ pairs) = add_created (add created i) pairs

  -- the IDs that the operations insert
  unfoldable pub created_by : List String → List OrderedOperation → List String
  unfolding add_created
  created_by created [] = created
  created_by created (OrderedOperation.insert pairs parent slot prev next ∷ ops) =
      created_by (add_created created pairs) ops
  created_by created (OrderedOperation.delete start end ∷ ops) = created_by created ops
  created_by created (OrderedOperation.move start end parent slot prev next ∷ ops) =
      created_by created ops

  -- `check_operations`
  unfoldable pub check_operations : Operations → Check
  unfolding check_all check_patches created_by
  check_operations ops =
      next_check (check_all ops.ordered) (check_patches (created_by [] ops.ordered) ops.patches)

  -- `check_create`
  unfoldable pub check_create : Option String → String → Option String → Check
  unfolding require_full require_sibling
  check_create parent slot target =
      next_check (require_full (some (parent_id parent)))
        (require_sibling (parent_id parent) slot target)
