-- ===== src/Doc/Examples.antt =====
-- The theorems on documents at concrete inputs: a root of type Page with one child of type Note.
use atomdoc.Prelude.{
  ℕ, String, ◌≡◌, refl, sym, ◌∙◌, ◌⊎◌, inl, inr, true, false, none, some, List, [], ◌∷◌, ◌++◌,
  arith, ◌==◌, str_eq, if◌then◌else◌, if_elim, All,
}
use atomdoc.Prelude.Dict.{keys, mem, get_or, lookup, contains}
use atomdoc.Prelude.Exec.{Exec, ok, modify}
use atomdoc.Types.{Value, value_eq, Stage, no_operations}
use atomdoc.Schema.{NodeClass, FieldDef}
use atomdoc.Links.{set_slot, Ref, no_links, append_links}
use atomdoc.Doc.{Doc, Obj, Tx, empty_tx, no_flags, state_key_to_json}
use atomdoc.Doc.Refs.{nodes_fit, none_referenced, check_ref_integrity}
use atomdoc.Doc.Record.{
  on_set_state_forward, on_set_state_inverse, patches_of, inverse_patches_of, patch_value,
}
use atomdoc.Doc.Env.{Env}
use atomdoc.Doc.Commit.{notify, finish_commit, event_of, validate_changed_nodes, set_stage}
use atomdoc.Doc.Transaction.{transaction_context}
use atomdoc.Doc.Apply.{abort, transact, write_field}
use atomdoc.Doc.Lifecycle.{Closed, Tame, transact-Closed, transaction_context-Closed}
use atomdoc.Doc.Nested.{transact-joined, write_field-stage}
use atomdoc.Doc.Fields.{entry, on_set_state_inverse-entry, on_set_state_forward-entry}
use atomdoc.Links.Slots.{Kids, Represents}
use atomdoc.Links.Append.{append_links-Represents}
use atomdoc.Doc.Traverse.{range_of}
use atomdoc.Doc.Walks.{range_of-Represents}
use atomdoc.Doc.Insert.{insert_append, insert_before}
use atomdoc.Links.Chain.{In}
use atomdoc.Doc.Range.{delete_nodes, move_nodes, between}
use atomdoc.Doc.Linking.{insert_append-Represents}
use atomdoc.Doc.Before.{insert_before-Represents}
use atomdoc.Doc.Integrity.{IsGone, check_ref_integrity-IsGone}
use atomdoc.Doc.Deleting.{delete_nodes-Represents}
use atomdoc.Doc.Moving.{move_nodes-Represents}
use atomdoc.Doc.Notify.{told, notify-told, finish_commit-told}

-- a text field with a default, and one whose value may be null
abbrev title : FieldDef
title = record { default = some (Value.text ""); validate = λ v. ok v; ref_def = none }

abbrev color : FieldDef
color = record { default = some (Value.text "red"); validate = λ v. ok v; ref_def = none }

abbrev page : NodeClass
page = record {
  node_type = "Page";
  bases = "Page" ∷ [];
  fields = ("title", title) ∷ [];
  slots = ("notes", "Note" ∷ []) ∷ [];
  check_model = λ _. true;
}

abbrev note : NodeClass
note = record {
  node_type = "Note";
  bases = "Note" ∷ [];
  fields = ("title", title) ∷ ("color", color) ∷ [];
  slots = [];
  check_model = λ _. true;
}

abbrev object : Ref → Obj
object x =
    if x == 0
    then record { id = "p"; node_class = page; state = ("title", Value.text "") ∷ []; doc_ref = 0 }
    else record {
      id = "n";
      node_class = note;
      state = ("title", Value.text "a") ∷ ("color", Value.null) ∷ [];
      doc_ref = 0;
    }

-- an idle document with two change listeners; the first one fails
abbrev document : Doc
document = record {
  self = 0;
  node_types = ("Page", page) ∷ ("Note", note) ∷ [];
  root = 0;
  objects = object;
  links = append_links no_links 0 "notes" none (1 ∷ []);
  allocated = 2;
  node_map = ("p", 0) ∷ ("n", 1) ∷ [];
  graveyard = [];
  tree_version = 1;
  ref_index = [];
  strict_mode = true;
  stage = Stage.idle;
  tx = empty_tx;
  change_listeners = 1 ∷ 2 ∷ [];
  normalize_listeners = [];
  heard = [];
}

abbrev env : Env
env = record {
  normalize = λ _ _ d. (ok tt, d);
  listen = λ l _. if l == 1 then some 5 else none;
  held = λ _. true;
}

document-Closed : Closed document
document-Closed = record { stage = refl; tx = refl }

abbrev rename : Exec Doc (Unit {0})
rename = modify (write_field 1 "title" (Value.text "b"))

rename-Tame : Tame rename
rename-Tame d u i =
    absurd (update_idle (sym u ∙ sym (write_field-stage 1 "title" (Value.text "b") d) ∙ i))
  where
    update_idle : Stage.update ≡ Stage.idle → ⊥
    update_idle e = cc

transact-Closed_example : Closed ((transact env true false rename document).1)
transact-Closed_example = transact-Closed env true false rename document rename-Tame document-Closed

transaction_context-Closed_example :
    Closed ((transaction_context env (abort env) rename true document).1)
transaction_context-Closed_example =
    transaction_context-Closed env true rename document rename-Tame document-Closed

abbrev opened : Doc
opened = record document { stage = Stage.update }

transact-joined_example : transact env true false rename opened ≡ rename opened
transact-joined_example = transact-joined env true rename opened refl

on_set_state_inverse-entry_example :
    entry (inverse_patches_of (on_set_state_inverse opened 1 "title")) "n" "title"
    ≡ some (Value.text "a")
unfolding mem get_or lookup state_key_to_json
on_set_state_inverse-entry_example = on_set_state_inverse-entry opened 1 "title" refl

-- the child is new in the transaction, and has a title in its patch
abbrev recorded : Tx
recorded = record {
  operations = record { ordered = []; patches = ("n", ("title", Value.text "a") ∷ []) ∷ [] };
  inverse_operations = no_operations;
  flags = no_flags;
  diff = record { inserted = "n" ∷ []; deleted = []; moved = []; updated = [] };
}

abbrev inserting : Doc
inserting = record opened { tx = recorded }

on_set_state_forward-entry_example :
    entry (patches_of (on_set_state_forward inserting 1 "title")) "n" "title"
    ≡ some (Value.text "a")
unfolding contains value_eq patch_value get_or lookup state_key_to_json
on_set_state_forward-entry_example = on_set_state_forward-entry inserting 1 "title"

notify-told_example :
    ((notify env inserting).1.heard ≡ told (1 ∷ 2 ∷ []) (event_of inserting) ++ [])
    × ((notify env inserting).0 ≡ ok tt
        → All (λ (l : ℕ). env.listen l (event_of inserting) ≡ none) (1 ∷ 2 ∷ []))
notify-told_example = notify-told env inserting

finish_commit-told_example :
    ((finish_commit env inserting).1.heard ≡ [])
    ⊎ ((validate_changed_nodes (set_stage Stage.idle inserting) ≡ ok tt)
        × (check_ref_integrity (set_stage Stage.idle inserting) ≡ ok tt)
        × ((finish_commit env inserting).1.heard ≡ told (1 ∷ 2 ∷ []) (event_of inserting) ++ []))
finish_commit-told_example = finish_commit-told env inserting

abbrev kids : Kids
kids = set_slot (λ _ _. []) 0 "notes" (1 ∷ [])

document-Represents : Represents document.links kids
document-Represents =
    append_links-Represents no_links (λ _ _. []) 0 "notes" (1 ∷ [])
      (record {
        slot = λ p s. record { first = refl; last = refl; chain = tt; owned = tt; distinct = tt };
      })
      ((λ m. m), tt) (λ q t x m n. n)

range_of-Represents_example : range_of document 1 1 ≡ ok (1 ∷ [])
range_of-Represents_example =
    range_of-Represents document kids 0 "notes" [] 1 [] 1 [] document-Represents
      (λ x m. elim m [ inl e ↦ omega (arith, e) | inr b ↦ absurd b ]) refl refl

only_child : (q : Ref) (t : String) (x : Ref) → In x (kids q t) → x ≡ 1
only_child q t x =
    if_elim (λ (ws : List Ref). In x ws → x ≡ 1) (0 == q) _ []
      (λ _.
        if_elim (λ (ws : List Ref). In x ws → x ≡ 1) (str_eq "notes" t) (1 ∷ []) []
          (λ _ m. elim m [ inl e ↦ e | inr b ↦ absurd b ]) (λ _ m. absurd m))
      (λ _ m. absurd m)

new_nodes : (q : Ref) (t : String) (x : Ref) → In x (2 ∷ 3 ∷ []) → In x (kids q t) → ⊥
new_nodes q t x m n = elim m [
  | inl e ↦ omega (arith, e, only_child q t x n)
  | inr m' ↦ elim m' [ inl e ↦ omega (arith, e, only_child q t x n) | inr b ↦ b ]
]

insert_append-Represents_example :
    Represents
      (insert_append 0 "notes" (2 ∷ 3 ∷ []) document).links
      (set_slot kids 0 "notes" (1 ∷ 2 ∷ 3 ∷ []))
insert_append-Represents_example =
    insert_append-Represents document kids 0 "notes" (2 ∷ 3 ∷ []) document-Represents
      ((λ m. elim m [ inl e ↦ omega arith | inr b ↦ b ]), (λ m. m, tt)) new_nodes

insert_before-Represents_example :
    Represents
      (insert_before 0 "notes" (2 ∷ 3 ∷ []) 1 document).links
      (set_slot kids 0 "notes" (2 ∷ 3 ∷ 1 ∷ []))
insert_before-Represents_example =
    insert_before-Represents document kids 0 "notes" [] 1 [] 2 (3 ∷ []) document-Represents refl
      ((λ m. elim m [ inl e ↦ omega arith | inr b ↦ b ]), (λ m. m, tt)) new_nodes

move_nodes-Represents_example :
    (d : Doc) × (move_nodes 1 1 (1 ∷ []) 0 "notes" (between none none) document ≡ (ok tt, d))
    × Represents d.links (set_slot (set_slot kids 0 "notes" []) 0 "notes" (1 ∷ []))
move_nodes-Represents_example =
    move_nodes-Represents document kids 0 "notes" [] 1 [] 1 [] 0 "notes" [] [] document-Represents
      refl refl refl

delete_nodes-Represents_example :
    (d : Doc) × (delete_nodes 1 1 (1 ∷ []) document ≡ (ok tt, d))
    × Represents d.links (set_slot kids 0 "notes" [])
delete_nodes-Represents_example =
    delete_nodes-Represents document kids 0 "notes" [] 1 [] 1 [] document-Represents refl refl

-- the child of the document is deleted, and nothing refers to it
abbrev deleting : Doc
deleting = record opened {
  tx = record recorded {
    diff = record { inserted = []; deleted = ("n", 1) ∷ []; moved = []; updated = [] };
  };
  ref_index = ("n", ("gone", "next") ∷ []) ∷ [];
}

check_ref_integrity-IsGone_example :
    All
      (λ (i : String). All (IsGone deleting) (get_or deleting.ref_index i []))
      (keys deleting.tx.diff.deleted)
unfolding check_ref_integrity nodes_fit none_referenced keys get_or lookup contains
check_ref_integrity-IsGone_example = check_ref_integrity-IsGone deleting refl
