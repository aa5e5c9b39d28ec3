-- ===== src/Children/Examples.antt =====
-- _children.py: runs on a concrete document.
use atomdoc.Prelude.{
  ℕ, String, ◌≤◌, ◌≡◌, refl, inl, inr, true, false, none, some, List, [], ◌∷◌, arith, ◌==◌, str_eq,
  if_elim, if◌then◌else◌,
}
use atomdoc.Prelude.Exec.{ok, err, index_error}
use atomdoc.Links.{append_links, set_slot}
use atomdoc.Children.{ChildrenView, Index, get_item, nth, view_of}
use atomdoc.Children.Cursor.{IsCurrent, item_of, get_item-Represents, or_index_error}
use atomdoc.Children.Changes.{insert}
use atomdoc.Children.Insertion.{Accepts, insert-inserts}
use atomdoc.Prelude.Dict.{lookup, contains, keys, mem}
use atomdoc.Types.{Stage}
use atomdoc.Links.Chain.{In}
use atomdoc.Links.Slots.{Represents}
use atomdoc.Doc.{Doc, check_live}
use atomdoc.Doc.Env.{Env}
use atomdoc.Doc.Traverse.{descendants_inclusive}
use atomdoc.Doc.Insert.{check_insert, all_allowed, is_allowed, all_new}
use atomdoc.Doc.Apply.{transact}
use atomdoc.Doc.Nested.{transact-joined}
use atomdoc.Samples.{note, three_notes, notes, three_notes-Represents}

abbrev at_second : ChildrenView
at_second = record (view_of 0 "notes") { cursor = some (1, 2, 5) }

get_item-Represents_example :
    ((get_item three_notes at_second (Index.from_start 2)).0
      ≡ or_index_error (item_of (1 ∷ 2 ∷ 3 ∷ []) (Index.from_start 2)))
    × IsCurrent three_notes
        (1 ∷ 2 ∷ 3 ∷ [])
        (get_item three_notes at_second (Index.from_start 2)).1.cursor
unfolding IsCurrent nth
get_item-Represents_example =
    get_item-Represents three_notes notes at_second three_notes-Represents (Index.from_start 2)
      (omega arith, λ _. refl) (omega arith)

abbrev quiet : Env
quiet = record { normalize = λ l diff d. (ok tt, d); listen = λ l e. none; held = λ x. true }

-- the three notes and a fourth one that stands in no slot, in an open transaction
abbrev with_new : Doc
with_new = record three_notes {
  objects = λ x.
      if x == 4
      then record { id = "d"; node_class = note; state = []; doc_ref = 0 }
      else three_notes.objects x;
  allocated = 5;
  stage = Stage.update;
}

In-notes : (q : ℕ) (s : String) (x : ℕ) → In x (notes q s) → x ≤ 3
In-notes q s x =
    if_elim (λ (ws : List ℕ). In x ws → x ≤ 3) (0 == q) _ []
      (λ _.
        if_elim (λ (ws : List ℕ). In x ws → x ≤ 3) (str_eq "notes" s) (1 ∷ 2 ∷ 3 ∷ []) []
          (λ _ m. elim m [
            | inl e ↦ omega (arith, e)
            | inr m ↦ elim m [
              | inl e ↦ omega (arith, e)
              | inr m ↦ elim m [ inl e ↦ omega (arith, e) | inr b ↦ absurd b ]
            ]
          ])
          (λ _ m. absurd m))
      (λ _ m. absurd m)

with_new-Accepts : Accepts with_new 0 "notes" 4 (1 ∷ 2 ∷ 3 ∷ [])
unfolding check_insert append_links lookup contains mem check_live all_allowed is_allowed all_new
    descendants_inclusive keys
with_new-Accepts = record {
  alone = refl;
  beside = λ t m. elim m [
    | inl e ↦ rw e refl
    | inr m ↦ elim m [ inl e ↦ rw e refl | inr m ↦ elim m [ inl e ↦ rw e refl | inr b ↦ absurd b ] ]
  ];
}

insert-inserts_example :
    ((insert (transact quiet false false) at_second (Index.from_end 0) 4 with_new).1.0 ≡ ok tt)
    × Represents
        (insert (transact quiet false false) at_second (Index.from_end 0) 4 with_new).1.1.links
        (set_slot notes 0 "notes" (1 ∷ 2 ∷ 4 ∷ 3 ∷ []))
unfolding IsCurrent nth
insert-inserts_example =
    insert-inserts (transact quiet false false) with_new notes at_second 4
      (λ body. transact-joined quiet false body with_new refl) three_notes-Represents
      with_new-Accepts (λ q s m. four (In-notes q s 4 m)) (Index.from_end 0)
      (omega arith, λ _. refl) (omega arith)
  where
    four : 4 ≤ 3 → ⊥
    four h = omega (arith, h)

last_note : (get_item three_notes (view_of 0 "notes") (Index.from_end 0)).0 ≡ ok 3
unfolding get_item append_links
last_note = refl

beyond : (get_item three_notes at_second (Index.from_start 3)).0 ≡ err index_error
unfolding get_item append_links
beyond = refl
