-- ===== src/Store/Examples.antt =====
-- _store.py: runs on concrete stores.
use atomdoc.Prelude.{
  ℕ, ◌+◌, String, ◌≡◌, refl, ◌≢◌, ◌⊎◌, true, false, none, some, List, [], ◌∷◌, arith,
}
use atomdoc.Prelude.Text.{codes, text_eq}
use atomdoc.Prelude.Dict.{lookup, insert, remove, keys}
use atomdoc.Prelude.Exec.{ok, err, stale_write}
use atomdoc.Store.{Entry, any, absent, token, Clock}
use atomdoc.Store.Keys.{is_key}
use atomdoc.Store.Decimal.{decimal}
use atomdoc.Store.Memory.{
  Item, Memory, no_items, memory_store, memory_capabilities, put_memory, touch_memory,
  delete_memory, list_memory, live, held_token, entry_of,
}
use atomdoc.Store.Base.{Store, read, put}
use atomdoc.Store.Tokens.{Call, after_all, token-spent, put-gives_new_token}
use atomdoc.Store.Views.{unexpired, seen, changed}
use atomdoc.Store.Refines.{
  put_memory-refines, delete_memory-refines, touch_memory-refines, Allows, SameView, Touched,
  shown_token, written_item,
}
use atomdoc.Store.Listing.{Lists, steady, list_memory-lists_shown}
use atomdoc.Store.Roundtrip.{put-read}

-- a clock that ticks at each reading
abbrev ticks_from : ℕ → Clock
ticks_from n i = n + i

abbrev lasting : Item
lasting = record { payload = 1 ∷ 2 ∷ []; tag = decimal 1; written = 3; expires = none }

abbrev brief : Item
brief = record { payload = 7 ∷ []; tag = decimal 2; written = 4; expires = some 9 }

abbrev two : Memory
two = record { items = ("docs/a", lasting) ∷ ("docs/b", brief) ∷ []; writes = 2 }

abbrev once : List Call
once = Call.put (ticks_from 1) "docs/a" (1 ∷ []) absent none ∷ []

abbrev others : List Call
others =
    Call.delete (ticks_from 20) "docs/a" any
    ∷ Call.put (ticks_from 30) "docs/a" (5 ∷ []) absent none
    ∷ []

token-spent_example :
    let m =
      after_all others
        (put_memory
          (ticks_from 10)
          "docs/a"
          (2 ∷ [])
          (token (decimal 1))
          none
          (after_all once no_items)).1 in
    put_memory (ticks_from 40) "docs/a" (3 ∷ []) (token (decimal 1)) none m
    ≡ (err (stale_write (held_token (live 40 "docs/a" m).0)), (live 40 "docs/a" m).1)
unfolding put_memory lookup after_all insert text_eq decimal
token-spent_example =
    token-spent once others (ticks_from 10) (ticks_from 40) "docs/a" (2 ∷ []) (3 ∷ []) (decimal 1)
      (decimal 2) none none refl

put-gives_new_token_example : decimal 3 ≢ decimal 5
unfolding put_memory lookup after_all remove insert
put-gives_new_token_example =
    put-gives_new_token two others (ticks_from 10) (ticks_from 40) "docs/c" "docs/a" [] [] absent
      any none none (decimal 3) (decimal 5) refl refl

put_memory-refines_example :
    let o = seen 10 two "docs/b" in
    let r = put_memory (ticks_from 10) "docs/b" [] absent (some 5) two in
    (Allows absent o
      × (r.0 ≡ ok (decimal 3))
      × SameView (seen 12 r.1) (
          changed "docs/b"
            (unexpired 12 (some (written_item (ticks_from 10) two [] (some 5))))
            (seen 12 two)))
    ⊎ ((Allows absent o → ⊥)
        × (r.0 ≡ err (stale_write (shown_token o)))
        × SameView (seen 12 r.1) (seen 12 two))
put_memory-refines_example =
    put_memory-refines (ticks_from 10) "docs/b" [] absent (some 5) two 12 (omega arith)

delete_memory-refines_example :
    let o = seen 8 two "docs/b" in
    let r = delete_memory (ticks_from 8) "docs/b" (token (decimal 2)) two in
    (Allows (token (decimal 2)) o
      × (((o ≡ none) × (r.0 ≡ ok false)) ⊎ ((it : Item) × (o ≡ some it) × (r.0 ≡ ok true)))
      × SameView (seen 8 r.1) (changed "docs/b" none (seen 8 two)))
    ⊎ ((Allows (token (decimal 2)) o → ⊥)
        × (r.0 ≡ err (stale_write (shown_token o)))
        × SameView (seen 8 r.1) (seen 8 two))
delete_memory-refines_example =
    delete_memory-refines (ticks_from 8) "docs/b" (token (decimal 2)) two 8 (omega arith)

touch_memory-refines_example :
    let r = touch_memory (ticks_from 5) "docs/b" (some 5) (some (decimal 2)) two in
    Touched "docs/b"
      (some 11)
      (some (decimal 2))
      r.0
      (seen 7 r.1)
      (λ it. changed "docs/b" (unexpired 7 (some it)) (seen 7 two))
      (seen 7 two)
      (seen 5 two "docs/b")
touch_memory-refines_example =
    touch_memory-refines (ticks_from 5) "docs/b" (some 5) (some (decimal 2)) two 7 (omega arith)

list_memory-lists_shown_example :
    ((es : List Entry) × ((list_memory (steady 9) "docs/" two).0 ≡ ok es)
      × Lists (codes "docs/") (seen 9 two) ("docs/a" ∷ "docs/b" ∷ []) es)
    × ((k : String) → seen 9 (list_memory (steady 9) "docs/" two).1 k ≡ seen 9 two k)
unfolding keys
list_memory-lists_shown_example = list_memory-lists_shown 9 "docs/" two

-- an item that expired is not listed, and is dropped
listed :
    (list_memory (steady 9) "docs/" two)
    ≡ (ok (entry_of "docs/a" lasting ∷ []), record two { items = ("docs/a", lasting) ∷ [] })
unfolding list_memory keys lookup remove
listed = refl

dotted : is_key (codes "docs/../a") ≡ false
unfolding is_key
dotted = refl

put-read_example :
    let s : Store Memory = record { closed = false; inner = two } in
    let written =
      put memory_store memory_capabilities (ticks_from 10) "docs/b" (8 ∷ []) any (some 5) s in
    (written.0 ≡ ok (decimal 3))
    × ((read memory_store memory_capabilities (steady 14) "docs/b" written.1).0
        ≡ ok (8 ∷ [], decimal 3))
unfolding is_key
put-read_example =
    put-read "docs/b" refl (ticks_from 10) (steady 14) (8 ∷ []) (some 5) two refl (omega arith) refl
