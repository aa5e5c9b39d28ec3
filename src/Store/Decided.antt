-- ===== src/Store/Decided.antt =====
-- _store.py: the calls of a store in memory, as decided by what the store shows when they begin.
use atomdoc.Prelude.{
  ℕ, ◌+◌, ◌≤◌, String, ◌≡◌, refl, sym, ap, ◌∙◌, inl, inr, Option, none, some, str_eq_refl,
  Bool-cases,
}
use mathlib.Core.Path.{subst}
use atomdoc.Prelude.Text.{Text}
use atomdoc.Prelude.Exec.{Result, ok, err, Error, document_not_found}
use atomdoc.Prelude.Dict.{lookup, lookup-remove}
use atomdoc.Store.{Bytes, IfMatch, Clock}
use atomdoc.Store.Decimal.{decimal}
use atomdoc.Store.Memory.{
  Item, Memory, expired, entry_of, found, mapped, live_item, live, new_item, store_item, unless,
  conflict, lease_conflict, renewed, renew_item, touch_found, put_memory, touch_memory,
  delete_memory, read_memory, drop_item, is_there,
}
use atomdoc.Store.Views.{
  unexpired, seen, changed, unless_refused, outcome, live_item-shows, live-shows, live-writes,
  live-seen, seen-insert, seen-remove, changed-same,
}

module _ (clock : Clock) (key : String) where
  new_item-writes :
      (m n : Memory) (payload : Bytes) (ttl : Option ℕ)
      → m.writes ≡ n.writes
      → new_item clock m payload ttl ≡ new_item clock n payload ttl
  new_item-writes m n payload ttl h = rw h refl

  store-refused :
      (o : Option Error) (payload : Bytes) (ttl : Option ℕ) (m n : Memory)
      → n.writes ≡ m.writes
      → (unless o (store_item clock key payload ttl) n).0 ≡ outcome o (decimal (m.writes + 1))
  store-refused none payload ttl m n h = ap (λ i. ok (decimal (i + 1))) h
  store-refused (some e) payload ttl m n h = refl

  store-seen :
      (o : Option Error) (payload : Bytes) (ttl : Option ℕ) (m n : Memory) (t : ℕ) (k : String)
      → n.writes ≡ m.writes
      → seen t n k ≡ seen t m k
      → seen t (unless o (store_item clock key payload ttl) n).1 k
        ≡ unless_refused o
            (changed key (unexpired t (some (new_item clock m payload ttl))) (seen t m))
            (seen t m)
            k
  store-seen none payload ttl m n t k h s =
      seen-insert t n key (new_item clock n payload ttl) (n.writes + 1) k
      ∙ ap (λ (it : Item). changed key (unexpired t (some it)) (seen t n) k)
          (new_item-writes n m payload ttl h)
      ∙ changed-same key (unexpired t (some (new_item clock m payload ttl))) (seen t n) (seen t m) k
          s
  store-seen (some e) payload ttl m n t k h s = s

  drop-refused :
      (o : Option Error) (p : Option Item) (n : Memory)
      → lookup n.items key ≡ p
      → (unless o (drop_item key) n).0 ≡ outcome o (is_there p)
  drop-refused none p n h = ap (λ (q : Option Item). ok (is_there q)) h
  drop-refused (some e) p n h = refl

  drop-seen :
      (o : Option Error) (m n : Memory) (t : ℕ) (k : String)
      → seen t n k ≡ seen t m k
      → seen t (unless o (drop_item key) n).1 k
        ≡ unless_refused o (changed key none (seen t m)) (seen t m) k
  drop-seen none m n t k s = seen-remove t n key k ∙ changed-same key none (seen t n) (seen t m) k s
  drop-seen (some e) m n t k s = s

  -- after a look the key holds what was found
  live_item-holds :
      (now : ℕ) (m : Memory) (o : Option Item)
      → lookup m.items key ≡ o
      → lookup (live_item now key m o).1.items key ≡ (live_item now key m o).0
  live_item-holds now m none h = h
  live_item-holds now m (some it) h = elim (Bool-cases (expired now it)) [
    | inl gone ↦ rw gone (lookup-remove m.items key key ∙ rw (str_eq_refl key) refl)
    | inr stays ↦ rw stays h
  ]

  live-holds : (now : ℕ) (m : Memory) → lookup (live now key m).1.items key ≡ seen now m key
  unfolding live
  live-holds now m =
      live_item-holds now m (lookup m.items key) refl
      ∙ unfold seen in live_item-shows now key m (lookup m.items key)

-- A write is decided by what the store shows when it begins: either its condition fails, and nothing
-- that is shown from then on changes, or it returns the next token and from then on the store shows
-- the item written at its key, until that expires, and at the other keys what it showed.
pub put_memory-decided :
    (clock : Clock) (key : String) (payload : Bytes) (c : IfMatch) (ttl : Option ℕ) (m : Memory)
    (t : ℕ)
    → clock 0 ≤ t
    → let o = conflict c (seen (clock 0) m key) in
      ((put_memory clock key payload c ttl m).0 ≡ outcome o (decimal (m.writes + 1)))
      × ((k : String)
          → seen t (put_memory clock key payload c ttl m).1 k
            ≡ unless_refused o
                (changed key (unexpired t (some (new_item clock m payload ttl))) (seen t m))
                (seen t m)
                k)
unfolding put_memory
put_memory-decided clock key payload c ttl m t h =
    let l = live (clock 0) key m in
    let shows = live-shows (clock 0) key m in
    let w = live-writes (clock 0) key m in
    (
      subst
          (λ p.
            (unless (conflict c p) (store_item clock key payload ttl) l.1).0
            ≡ outcome (conflict c (seen (clock 0) m key)) (decimal (m.writes + 1)))
          (sym shows)
          (store-refused clock key (conflict c (seen (clock 0) m key)) payload ttl m l.1 w),
      λ k.
          subst
            (λ p.
              seen t (unless (conflict c p) (store_item clock key payload ttl) l.1).1 k
              ≡ unless_refused (conflict c (seen (clock 0) m key))
                  (changed key (unexpired t (some (new_item clock m payload ttl))) (seen t m))
                  (seen t m) k)
            (sym shows)
            (store-seen clock key (conflict c (seen (clock 0) m key)) payload ttl m l.1 t k w
              (live-seen (clock 0) t key m k h)),
    )

-- A deletion is decided by what the store shows when it begins: either its condition fails, and
-- nothing that is shown from then on changes, or it reports whether the key showed an item, and from then
-- on the store shows nothing there and at the other keys what it showed.
pub delete_memory-decided :
    (clock : Clock) (key : String) (c : IfMatch) (m : Memory) (t : ℕ)
    → clock 0 ≤ t
    → let o = conflict c (seen (clock 0) m key) in
      ((delete_memory clock key c m).0 ≡ outcome o (is_there (seen (clock 0) m key)))
      × ((k : String)
          → seen t (delete_memory clock key c m).1 k
            ≡ unless_refused o (changed key none (seen t m)) (seen t m) k)
unfolding delete_memory
delete_memory-decided clock key c m t h =
    let l = live (clock 0) key m in
    let shows = live-shows (clock 0) key m in
    (
      subst
          (λ p.
            (unless (conflict c p) (drop_item key) l.1).0
            ≡ outcome (conflict c (seen (clock 0) m key)) (is_there (seen (clock 0) m key)))
          (sym shows)
          (drop-refused clock key (conflict c (seen (clock 0) m key)) (seen (clock 0) m key) l.1
            (live-holds clock key (clock 0) m)),
      λ k.
          subst
            (λ p.
              seen t (unless (conflict c p) (drop_item key) l.1).1 k
              ≡ unless_refused (conflict c (seen (clock 0) m key)) (changed key none (seen t m))
                  (seen t m) k)
            (sym shows)
            (drop-seen clock key (conflict c (seen (clock 0) m key)) m l.1 t k
              (live-seen (clock 0) t key m k h)),
    )

-- what `touch` makes of the item that the store shows
unfoldable pub lease_unless : Option Error → Item → Result Item
lease_unless none it = ok it
lease_unless (some e) it = err e

unfoldable pub lease : ℕ → Option ℕ → Option Text → Option Item → Result Item
unfolding lease_unless
lease now ttl if_match none = err document_not_found
lease now ttl if_match (some it) = lease_unless (lease_conflict if_match it) (renewed now ttl it)

abbrev pub after_lease : ℕ → String → Result Item → (String → Option Item) → String → Option Item
after_lease t key (ok it) view = changed key (unexpired t (some it)) view
after_lease t key (err e) view = view

module _ (clock : Clock) (key : String) (ttl : Option ℕ) where
  renew-outcome :
      (o : Option Error) (it : Item) (n : Memory)
      → (unless o (renew_item clock key ttl it) n).0
        ≡ mapped (entry_of key) (lease_unless o (renewed (clock 1) ttl it))
  unfolding lease_unless
  renew-outcome none it n = refl
  renew-outcome (some e) it n = refl

  touch_found-outcome :
      (if_match : Option Text) (p : Option Item) (n : Memory)
      → (touch_found clock key ttl if_match p n).0
        ≡ mapped (entry_of key) (lease (clock 1) ttl if_match p)
  unfolding lease
  touch_found-outcome if_match none n = refl
  touch_found-outcome if_match (some it) n = renew-outcome (lease_conflict if_match it) it n

  renew-seen :
      (o : Option Error) (it : Item) (m n : Memory) (t : ℕ) (k : String)
      → seen t n k ≡ seen t m k
      → seen t (unless o (renew_item clock key ttl it) n).1 k
        ≡ after_lease t key (lease_unless o (renewed (clock 1) ttl it)) (seen t m) k
  unfolding lease_unless
  renew-seen none it m n t k s =
      seen-insert t n key (renewed (clock 1) ttl it) n.writes k
      ∙ changed-same key (unexpired t (some (renewed (clock 1) ttl it))) (seen t n) (seen t m) k s
  renew-seen (some e) it m n t k s = s

  touch_found-seen :
      (if_match : Option Text) (p : Option Item) (m n : Memory) (t : ℕ) (k : String)
      → seen t n k ≡ seen t m k
      → seen t (touch_found clock key ttl if_match p n).1 k
        ≡ after_lease t key (lease (clock 1) ttl if_match p) (seen t m) k
  unfolding lease
  touch_found-seen if_match none m n t k s = s
  touch_found-seen if_match (some it) m n t k s =
      renew-seen (lease_conflict if_match it) it m n t k s

-- A `touch` is decided by what the store shows when it begins: where that is nothing, or not the item
-- that its token names, it raises and nothing that is shown from then on changes; else it
-- returns the entry of that item with another expiry, its content, token and time of writing kept, and
-- from then on the store shows this at its key and at the other keys what it showed.
pub touch_memory-decided :
    (clock : Clock) (key : String) (ttl : Option ℕ) (if_match : Option Text) (m : Memory) (t : ℕ)
    → clock 0 ≤ t
    → let r = lease (clock 1) ttl if_match (seen (clock 0) m key) in
      ((touch_memory clock key ttl if_match m).0 ≡ mapped (entry_of key) r)
      × ((k : String)
          → seen t (touch_memory clock key ttl if_match m).1 k ≡ after_lease t key r (seen t m) k)
unfolding touch_memory
touch_memory-decided clock key ttl if_match m t h =
    let l = live (clock 0) key m in
    let shows = live-shows (clock 0) key m in
    (
      touch_found-outcome clock key ttl if_match l.0 l.1
          ∙ ap (λ p. mapped (entry_of key) (lease (clock 1) ttl if_match p)) shows,
      λ k.
          touch_found-seen clock key ttl if_match l.0 m l.1 t k (live-seen (clock 0) t key m k h)
          ∙ ap (λ p. after_lease t key (lease (clock 1) ttl if_match p) (seen t m) k) shows,
    )

-- A read returns the content and token of what the store shows when it begins, and raises where that is
-- nothing; nothing that is shown from then on changes.
pub read_memory-decided :
    (clock : Clock) (key : String) (m : Memory) (t : ℕ)
    → clock 0 ≤ t
    → ((read_memory clock key m).0
        ≡ mapped (λ (it : Item). (it.payload, it.tag)) (found (seen (clock 0) m key)))
      × ((k : String) → seen t (read_memory clock key m).1 k ≡ seen t m k)
unfolding read_memory
read_memory-decided clock key m t h = (
  ap (λ o. mapped (λ (it : Item). (it.payload, it.tag)) (found o)) (live-shows (clock 0) key m),
  λ k. live-seen (clock 0) t key m k h,
)
