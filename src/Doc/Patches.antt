-- ===== src/Doc/Patches.antt =====
-- _operations.py: the state patches of `on_apply_operations`.
use atomdoc.Prelude.{
  String, Bool, false, ◌&&◌, ◌||◌, not, Option, none, some, [], ◌∷◌, if◌then◌else◌, is_empty,
}
use atomdoc.Prelude.Exec.{Exec, Result, ok, err, value_error, ◌>>◌, done, modify}
use atomdoc.Prelude.Dict.{Dict, lookup, insert, remove, contains, get_or, mem, add, discard}
use atomdoc.Types.{Value, value_eq, StatePatch}
use atomdoc.Schema.{FieldDef}
use atomdoc.Links.{Ref}
use atomdoc.Doc.{Doc, id_of, class_of, state_of, state_key_to_json, set_state, get_node_by_id}
use atomdoc.Doc.Refs.{refs_update}
use atomdoc.Doc.Record.{
  set_patch, set_patches, set_inverse_patches, set_diff, diff_of, patches_of, inverse_patches_of,
}
use atomdoc.Doc.Ordered.{missing}

-- The value that a patch stores: null unsets a field that has no default.
unfoldable pub parsed : Doc → Ref → String → FieldDef → Value → Result (Option Value)
parsed d x key f Value.null = elim f.default [
  | none ↦ ok none
  | some Value.null ↦ ok (some Value.null)
  | some _ ↦ elim (f.validate Value.null) [ err e ↦ err e | ok v ↦ ok (some v) ]
]
parsed d x key f json = elim (f.validate json) [ err e ↦ err e | ok v ↦ ok (some v) ]

abbrev pub put_field : Dict Value → String → Option Value → Dict Value
put_field state key none = remove state key
put_field state key (some v) = insert state key v

-- the original value, recorded once, unless the node is new in this transaction
abbrev pub keep_original : Doc → Ref → String → Doc
keep_original d x key =
    let i = id_of d x in
    if mem (diff_of d).inserted i || contains (get_or (inverse_patches_of d) i []) key
    then d
    else set_inverse_patches d (set_patch (inverse_patches_of d) i key (state_key_to_json d x key))

-- the field is back at the value that the transaction started from
abbrev pub is_back : Doc → String → String → Value → Bool
is_back d i key stored =
    not (mem (diff_of d).inserted i) && elim (lookup (get_or (inverse_patches_of d) i []) key) [
      | none ↦ false
      | some v ↦ value_eq v stored
    ]

-- the recorded patch of the node, and its inverse, behind the write of one field
abbrev pub record_field : Doc → Ref → String → Doc
record_field d x key =
    let i = id_of d x in
    let stored = state_key_to_json d x key in
    let node_patch = get_or (patches_of d) i [] in
    if is_back d i key stored
    then set_inverse_patches (set_patches d (insert (patches_of d) i (remove node_patch key)))
        (insert (inverse_patches_of d) i (remove (get_or (inverse_patches_of d) i []) key))
    else set_patches d (insert (patches_of d) i (insert node_patch key stored))

unfoldable pub apply_field : Ref → String → Value → Exec Doc (Unit {0})
unfolding parsed
apply_field x key json d = elim (lookup (class_of d x).fields key) [
  | none ↦ (err value_error, d)
  | some f ↦
      let d1 = keep_original d x key in
      elim (parsed d x key f json) [
        | err e ↦ (err e, d1)
        | ok new ↦
            let old = lookup (state_of d1 x) key in
            let d2 = record_field (set_state d1 x (put_field (state_of d1 x) key new)) x key in
            (ok tt, elim f.ref_def [ none ↦ d2 | some _ ↦ refs_update d2 x key old new ])
      ]
]

unfoldable pub apply_fields : Ref → Dict Value → Exec Doc (Unit {0})
unfolding apply_field
apply_fields x [] = done
apply_fields x ((key, json) ∷ fields) = do apply_field x key json; apply_fields x fields

-- A patch that came to nothing leaves no trace.
unfoldable pub tidy_patch : Ref → Doc → Doc
tidy_patch x d =
    let i = id_of d x in
    if is_empty (get_or (patches_of d) i []) && not (mem (diff_of d).inserted i)
    then (let d1 =
          set_diff (set_patches d (remove (patches_of d) i))
            (record (diff_of d) { updated = discard (diff_of d).updated i }) in
        if is_empty (get_or (inverse_patches_of d) i [])
        then set_inverse_patches d1 (remove (inverse_patches_of d) i)
        else d1)
    else d

-- the entries that stand in front of the fields of a node's patch
unfoldable pub open_patch : Ref → Doc → Doc
open_patch x d =
    let i = id_of d x in
    let d1 = set_patches d (insert (patches_of d) i (get_or (patches_of d) i [])) in
    if mem (diff_of d).inserted i
    then d1
    else set_diff d1 (record (diff_of d) { updated = add (diff_of d).updated i })

unfoldable pub apply_patch : Bool → String → Dict Value → Exec Doc (Unit {0})
unfolding apply_fields tidy_patch open_patch
apply_patch strict i [] d = (ok tt, d)
apply_patch strict i (e ∷ es) d = elim (get_node_by_id d i) [
  | none ↦ missing strict d
  | some x ↦ (do modify (open_patch x); apply_fields x (e ∷ es); modify (tidy_patch x)) d
]

unfoldable pub apply_patches : Bool → StatePatch → Exec Doc (Unit {0})
apply_patches strict [] = done
apply_patches strict ((i, patch) ∷ ps) = do apply_patch strict i patch; apply_patches strict ps
