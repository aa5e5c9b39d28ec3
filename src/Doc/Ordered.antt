-- ===== src/Doc/Ordered.antt =====
-- _operations.py: the ordered operations of `on_apply_operations`; _doc.py: `_node_for_insert`.
use atomdoc.Prelude.{
  ◌+◌, String, Bool, true, false, ◌&&◌, not, Option, none, some, List, [], ◌∷◌, ◌==◌, str_eq,
  if◌then◌else◌,
}
use atomdoc.Prelude.Exec.{Exec, ok, err, value_error, ◌>>=◌, ◌>>◌, require}
use atomdoc.Prelude.Dict.{Dict, lookup, remove}
use atomdoc.Types.{Value, OrderedOperation, truthy, append, before, after}
use atomdoc.Schema.{NodeClass, FieldDef}
use atomdoc.Links.{Ref, reset_links}
use atomdoc.Doc.{Doc, Obj, class_of, get_node_by_id}
use atomdoc.Doc.Env.{Env}
use atomdoc.Doc.Insert.{insert_into_slot, same_ref, same_slot}
use atomdoc.Doc.Range.{delete_range, move_range}

-- The defaults of a class, as `_apply_defaults` writes them into an empty state.
unfoldable pub defaults : Dict FieldDef → Dict Value
defaults [] = []
defaults ((name, f) ∷ fields) =
    let rest = defaults fields in elim f.default [ none ↦ rest | some v ↦ (name, v) ∷ rest ]

abbrev pub fresh_object : Doc → String → NodeClass → Obj
fresh_object d i c = record { id = i; node_class = c; state = defaults c.fields; doc_ref = d.self }

-- An object at the reference `x` is set up anew.
unfoldable pub set_up : Doc → Ref → String → NodeClass → Doc
set_up d x i c = record d {
  objects = λ y. if x == y then fresh_object d i c else d.objects y;
  links = reset_links d.links x;
}

-- `_create_node_from_json` at an empty state, for the default IDs; an unknown type is refused
unfoldable pub create_bare : String → String → Exec Doc Ref
unfolding set_up
create_bare i t d = elim (lookup d.node_types t) [
  | none ↦ (err value_error, d)
  | some c ↦
      let d1 = set_up d d.allocated i c in
      (ok d.allocated, record d1 { allocated = d.allocated + 1 })
]

-- The buried object, if someone holds it still and it fits.
unfoldable pub revivable : Env → Doc → String → String → Option Ref
revivable env d i t = elim (lookup d.graveyard i) [
  | none ↦ none
  | some x ↦
      if env.held x && ((d.objects x).doc_ref == d.self && str_eq (class_of d x).node_type t)
      then some x
      else none
]

-- `_node_for_insert`
unfoldable pub node_for_insert : Env → String → String → Exec Doc Ref
unfolding revivable create_bare
node_for_insert env i t d =
    let d1 = record d { graveyard = remove d.graveyard i } in
    elim (revivable env d i t) [
      | none ↦ create_bare i t d1
      | some x ↦ (ok x, set_up d1 x i (class_of d x))
    ]

unfoldable pub nodes_for_insert : Env → List (String × String) → Exec Doc (List Ref)
nodes_for_insert env [] d = (ok [], d)
nodes_for_insert env ((i, t) ∷ ps) d =
    (do x ← node_for_insert env i t; xs ← nodes_for_insert env ps; (λ d'. (ok (x ∷ xs), d'))) d

-- the parent that an operation names: the root, where it names none
unfoldable pub parent_named : Doc → Option String → Option Ref
parent_named d i = elim (truthy i) [ none ↦ some d.root | some s ↦ get_node_by_id d s ]

-- the neighbour that an operation names, if the document has it
unfoldable pub node_named : Doc → Option String → Option Ref
node_named d i = elim (truthy i) [ none ↦ none | some s ↦ get_node_by_id d s ]

-- `missing(...)`
abbrev pub missing : Bool → Exec Doc (Unit {0})
missing strict = require (not strict) value_error

-- `try: ... except Exception: if strict: raise`
abbrev pub attempt : Bool → Exec Doc (Unit {0}) → Exec Doc (Unit {0})
attempt true m d = m d
attempt false m d = (ok tt, (m d).1)

-- A strict move wants its neighbour in the slot that it names.
unfoldable pub check_neighbor : Bool → Ref → String → Ref → Exec Doc (Unit {0})
check_neighbor strict p s x d =
    if strict && not (same_ref (d.links.parent x) (some p) && same_slot (d.links.slot_name x) s)
    then (err value_error, d)
    else (ok tt, d)

-- One ordered operation. `within` runs a body in a transaction.
module _ (env : Env) (within : Exec Doc (Unit {0}) → Exec Doc (Unit {0})) (strict : Bool) where
  -- the insertion, once its nodes were made
  unfoldable pub insert_nodes :
      Option String → String → Option String → Option String → List Ref → Exec Doc (Unit {0})
  insert_nodes parent s prev next xs d = elim (parent_named d parent) [
    | none ↦ missing strict d
    | some p ↦ elim (node_named d prev) [
      | some x ↦ insert_into_slot within p s after xs (some x) d
      | none ↦ elim (node_named d next) [
        | some x ↦ insert_into_slot within p s before xs (some x) d
        | none ↦ insert_into_slot within p s append xs none d
      ]
    ]
  ]

  unfoldable pub apply_insert :
      List (String × String)
      → Option String
      → String
      → Option String
      → Option String
      → Exec Doc (Unit {0})
  unfolding insert_nodes nodes_for_insert
  apply_insert pairs parent s prev next = do
    xs ← nodes_for_insert env pairs
    insert_nodes parent s prev next xs

  abbrev pub end_of : String → Option String → String
  end_of start end = elim (truthy end) [ none ↦ start | some e ↦ e ]

  unfoldable pub apply_delete : String → Option String → Exec Doc (Unit {0})
  apply_delete start end d = elim (get_node_by_id d start) [
    | none ↦ missing strict d
    | some x ↦ elim (get_node_by_id d (end_of start end)) [
      | none ↦ missing strict d
      | some y ↦ attempt strict (delete_range within x y) d
    ]
  ]

  -- the move of the range from `x` to `y` into the slot `s` of `p`
  unfoldable pub move_nodes_to :
      Ref → Ref → Ref → String → Option String → Option String → Exec Doc (Unit {0})
  move_nodes_to x y p s prev next d = elim (node_named d prev) [
    | some q ↦ (do check_neighbor strict p s q; move_range within x y q none after) d
    | none ↦ elim (node_named d next) [
      | some q ↦ (do check_neighbor strict p s q; move_range within x y q none before) d
      | none ↦ move_range within x y p (some s) append d
    ]
  ]

  unfoldable pub apply_move :
      String
      → Option String
      → Option String
      → String
      → Option String
      → Option String
      → Exec Doc (Unit {0})
  unfolding move_nodes_to
  apply_move start end parent s prev next d = elim (get_node_by_id d start) [
    | none ↦ missing strict d
    | some x ↦ elim (get_node_by_id d (end_of start end)) [
      | none ↦ missing strict d
      | some y ↦
          attempt strict
            (λ d'. elim (parent_named d' parent) [
              | none ↦ missing strict d'
              | some p ↦ move_nodes_to x y p s prev next d'
            ])
            d
    ]
  ]

  unfoldable pub apply_ordered : OrderedOperation → Exec Doc (Unit {0})
  unfolding apply_insert apply_delete apply_move
  apply_ordered (OrderedOperation.insert pairs parent s prev next) =
      apply_insert pairs parent s prev next
  apply_ordered (OrderedOperation.delete start end) = apply_delete start end
  apply_ordered (OrderedOperation.move start end parent s prev next) =
      apply_move start end parent s prev next
