-- ===== src/Samples.antt =====
-- A small document for the runs on concrete inputs: a page with three notes, the first of which refers to
-- the last.
use atomdoc.Prelude.{refl, inl, inr, true, false, none, some, [], ◌∷◌, arith, ◌==◌, if◌then◌else◌}
use atomdoc.Prelude.Exec.{ok}
use atomdoc.Types.{Value, Stage}
use atomdoc.Schema.{NodeClass, FieldDef}
use atomdoc.Links.{Ref, append_links, no_links, set_slot}
use atomdoc.Links.Slots.{Kids, Represents}
use atomdoc.Links.Append.{append_links-Represents}
use atomdoc.Doc.{Doc, Obj, empty_tx}

abbrev pub see : FieldDef
see = record {
  default = some Value.null;
  validate = λ v. ok v;
  ref_def = some (record { target = some "Note"; many = false; optional = true });
}

abbrev pub page : NodeClass
page = record {
  node_type = "Page";
  bases = "Page" ∷ [];
  fields = [];
  slots = ("notes", "Note" ∷ []) ∷ [];
  check_model = λ _. true;
}

abbrev pub note : NodeClass
note = record {
  node_type = "Note";
  bases = "Note" ∷ [];
  fields = ("see", see) ∷ [];
  slots = [];
  check_model = λ _. true;
}

abbrev pub note_object : Ref → Obj
note_object x =
    if x == 1
    then record { id = "a"; node_class = note; state = ("see", Value.text "c") ∷ []; doc_ref = 0 }
    else if x == 2
    then record { id = "b"; node_class = note; state = []; doc_ref = 0 }
    else record { id = "c"; node_class = note; state = []; doc_ref = 0 }

abbrev pub three_notes : Doc
three_notes = record {
  self = 0;
  node_types = ("Page", page) ∷ ("Note", note) ∷ [];
  root = 0;
  objects = λ x.
      if x == 0
      then record { id = "p"; node_class = page; state = []; doc_ref = 0 }
      else note_object x;
  links = append_links no_links 0 "notes" none (1 ∷ 2 ∷ 3 ∷ []);
  allocated = 4;
  node_map = ("p", 0) ∷ ("a", 1) ∷ ("b", 2) ∷ ("c", 3) ∷ [];
  graveyard = [];
  tree_version = 5;
  ref_index = ("c", ("a", "see") ∷ []) ∷ [];
  strict_mode = true;
  stage = Stage.idle;
  tx = empty_tx;
  change_listeners = [];
  normalize_listeners = [];
  heard = [];
}

abbrev pub notes : Kids
notes = set_slot (λ _ _. []) 0 "notes" (1 ∷ 2 ∷ 3 ∷ [])

pub three_notes-Represents : Represents three_notes.links notes
three_notes-Represents =
    append_links-Represents no_links (λ _ _. []) 0 "notes" (1 ∷ 2 ∷ 3 ∷ [])
      (record {
        slot = λ p s. record { first = refl; last = refl; chain = tt; owned = tt; distinct = tt };
      })
      (
        (λ m. elim m [
          | inl e ↦ omega (arith, e)
          | inr m ↦ elim m [ inl e ↦ omega (arith, e) | inr m ↦ m ]
        ]),
        ((λ m. elim m [ inl e ↦ omega (arith, e) | inr m ↦ m ]), ((λ m. m), tt)),
      )
      (λ q t x m n. n)
