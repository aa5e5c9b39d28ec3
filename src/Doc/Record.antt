-- ===== src/Doc/Record.antt =====
-- _operations.py: what a mutation records. Here: the write of a field, and the parts that the others
-- share.
use atomdoc.Prelude.{String, Option, none, some, List, [], ◌∷◌, ◌++◌, ◌==◌, if◌then◌else◌}
use atomdoc.Prelude.Dict.{Dict, lookup, insert, remove, contains, get_or, mem, add, discard}
use atomdoc.Types.{Value, value_eq, OrderedOperation, StatePatch, Diff}
use atomdoc.Links.{Ref}
use atomdoc.Doc.{Doc, id_of, class_of, state_key_to_json}

module _ (d : Doc) where
  abbrev pub diff_of : Diff
  diff_of = d.tx.diff

  abbrev pub patches_of : StatePatch
  patches_of = d.tx.operations.patches

  abbrev pub inverse_patches_of : StatePatch
  inverse_patches_of = d.tx.inverse_operations.patches

  abbrev pub set_diff : Diff → Doc
  set_diff df = record d { tx = record d.tx { diff = df } }

  abbrev pub set_patches : StatePatch → Doc
  set_patches p = record d {
    tx = record d.tx { operations = record d.tx.operations { patches = p } };
  }

  abbrev pub set_inverse_patches : StatePatch → Doc
  set_inverse_patches p = record d {
    tx = record d.tx { inverse_operations = record d.tx.inverse_operations { patches = p } };
  }

  abbrev pub push_operation : OrderedOperation → Doc
  push_operation op = record d {
    tx = record d.tx {
      operations = record d.tx.operations { ordered = d.tx.operations.ordered ++ op ∷ [] };
    };
  }

  abbrev pub push_inverses : List OrderedOperation → Doc
  push_inverses ops = record d {
    tx = record d.tx {
      inverse_operations = record d.tx.inverse_operations {
        ordered = d.tx.inverse_operations.ordered ++ ops;
      };
    };
  }

-- `patches.setdefault(id, {})[key] = value`
unfoldable pub set_patch : StatePatch → String → String → Value → StatePatch
set_patch p i key v = insert p i (insert (get_or p i []) key v)

-- `patches.get(id, {}).get(key)`, which is `None` where there is no entry
unfoldable pub patch_value : StatePatch → String → String → Value
patch_value p i key = get_or (get_or p i []) key Value.null

unfoldable pub on_set_state_inverse : Doc → Ref → String → Doc
unfolding set_patch
on_set_state_inverse d x key =
    let i = id_of d x in
    let inv = inverse_patches_of d in
    if mem (diff_of d).inserted i
    then d
    else if contains (get_or inv i []) key
    then d
    else set_inverse_patches d (set_patch inv i key (state_key_to_json d x key))

-- What is left of a node's patch, if anything; and its inverse patch, if it has one, less one field.
abbrev pub keep_patch : Doc → String → Dict Value → Doc
keep_patch d i [] =
    set_diff (set_patches d (remove (patches_of d) i))
      (record (diff_of d) { updated = discard (diff_of d).updated i })
keep_patch d i (e ∷ es) = set_patches d (insert (patches_of d) i (e ∷ es))

abbrev pub prune_inverse : Doc → String → String → Option (Dict Value) → Doc
prune_inverse d i key none = d
prune_inverse d i key (some inv_node) =
    set_inverse_patches d (insert (inverse_patches_of d) i (remove inv_node key))

-- the branch where the field is back at its value before the transaction
abbrev pub prune_patch : Doc → String → String → Dict Value → Doc
prune_patch d i key node_patch =
    prune_inverse (keep_patch d i (remove node_patch key)) i key (lookup (inverse_patches_of d) i)

abbrev pub write_patch : Doc → String → String → Value → Doc
write_patch d i key v =
    let d1 = set_patches d (insert (patches_of d) i (insert (get_or (patches_of d) i []) key v)) in
    if mem (diff_of d).inserted i
    then d1
    else set_diff d1 (record (diff_of d) { updated = add (diff_of d).updated i })

-- The new value goes into the node's patch, if any, unless it is the original one.
abbrev pub forward_patch : Doc → String → String → Value → Value → Option (Dict Value) → Doc
forward_patch d i key prev_value new_value none = write_patch d i key new_value
forward_patch d i key prev_value new_value (some node_patch) =
    if value_eq prev_value new_value
    then prune_patch d i key node_patch
    else write_patch d i key new_value

unfoldable pub on_set_state_forward : Doc → Ref → String → Doc
unfolding patch_value
on_set_state_forward d x key =
    let i = id_of d x in
    forward_patch d i key (patch_value (inverse_patches_of d) i key) (state_key_to_json d x key)
      (lookup (patches_of d) i)

-- `0 if parent is root else parent.id`
unfoldable pub parent_id : Doc → Ref → Option String
parent_id d p = if p == d.root then none else some (id_of d p)

abbrev pub id_of? : Doc → Option Ref → Option String
id_of? d none = none
id_of? d (some x) = some (id_of d x)

unfoldable pub pairs : Doc → List Ref → List (String × String)
pairs d [] = []
pairs d (x ∷ xs) = (id_of d x, (class_of d x).node_type) ∷ pairs d xs
