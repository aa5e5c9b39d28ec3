-- ===== src/Store/Memory.antt =====
-- _store.py: `MemoryStore`. An item that has expired is dropped when it is looked at. The lock makes each
-- call one step.
use atomdoc.Prelude.{
  ℕ, ◌+◌, String, Bool, true, false, ◌&&◌, Option, none, some, List, [], ◌∷◌, leb, ◌==◌,
  if◌then◌else◌, length,
}
use atomdoc.Prelude.Text.{Text, codes, text_eq}
use atomdoc.Prelude.Exec.{Exec, Result, ok, err, Error, document_not_found, stale_write}
use atomdoc.Prelude.Dict.{Dict, lookup, insert, remove, keys}
use atomdoc.Store.{Bytes, IfMatch, absent, any, token, Entry, Clock, Backend, StoreCapabilities}
use atomdoc.Store.Decimal.{decimal}

pub record Item : Type 0 where
  pub payload : Bytes
  pub tag : Text
  pub written : ℕ
  pub expires : Option ℕ

pub record Memory : Type 0 where
  pub items : Dict Item
  pub writes : ℕ

abbrev pub no_items : Memory
no_items = record { items = []; writes = 0 }

-- what the class claims
abbrev pub memory_capabilities : StoreCapabilities
memory_capabilities = record {
  atomic_put = true;
  durable = false;
  honors_ttl = true;
  compare_and_set = true;
  create_if_absent = true;
  token_is_write_unique = true;
  strong_list = true;
  max_value_bytes = none;
  expires_unasked_after = none;
}

abbrev pub expired : ℕ → Item → Bool
expired now it = elim it.expires [ none ↦ false | some e ↦ leb e now ]

abbrev pub live_item : ℕ → String → Memory → Option Item → Option Item × Memory
live_item now key m none = (none, m)
live_item now key m (some it) =
    if expired now it then (none, record m { items = remove m.items key }) else (some it, m)

-- `_live`
unfoldable pub live : ℕ → String → Memory → Option Item × Memory
live now key m = live_item now key m (lookup m.items key)

abbrev pub entry_of : String → Item → Entry
entry_of key it = record {
  key = key;
  token = it.tag;
  size = length it.payload;
  modified = some it.written;
  expires_at = it.expires;
}

abbrev pub found {ℓ} : {A : Type ℓ} → Option A → Result A
found none = err document_not_found
found (some a) = ok a

abbrev pub mapped {ℓ κ} : {A : Type ℓ} {B : Type κ} → (A → B) → Result A → Result B
mapped f (ok a) = ok (f a)
mapped f (err e) = err e

unfoldable pub read_memory : Clock → String → Exec Memory (Bytes × Text)
unfolding live
read_memory clock key m =
    let l = live (clock 0) key m in (mapped (λ (it : Item). (it.payload, it.tag)) (found l.0), l.1)

unfoldable pub head_memory : Clock → String → Exec Memory Entry
unfolding live
head_memory clock key m = let l = live (clock 0) key m in (mapped (entry_of key) (found l.0), l.1)

-- the token that a condition finds
abbrev pub held_token : Option Item → Option Text
held_token none = none
held_token (some it) = some it.tag

abbrev pub holds : Option Item → Text → Bool
holds none t = false
holds (some it) t = text_eq it.tag t

-- the refusal of a conditional write, if it is refused
unfoldable pub conflict : IfMatch → Option Item → Option Error
conflict any o = none
conflict absent none = none
conflict absent (some it) = some (stale_write (some it.tag))
conflict (token t) o = if holds o t then none else some (stale_write (held_token o))

abbrev pub deadline : ℕ → Option ℕ → Option ℕ
deadline now none = none
deadline now (some ttl) = some (now + ttl)

-- the item that a write stores; the clock is read a second time, and for a `ttl` a third one
abbrev pub new_item : Clock → Memory → Bytes → Option ℕ → Item
new_item clock m payload ttl = record {
  payload = payload;
  tag = decimal (m.writes + 1);
  written = clock 1;
  expires = deadline (clock 2) ttl;
}

abbrev pub store_item : Clock → String → Bytes → Option ℕ → Exec Memory Text
store_item clock key payload ttl m = (
  ok (decimal (m.writes + 1)),
  record { items = insert m.items key (new_item clock m payload ttl); writes = m.writes + 1 },
)

abbrev pub unless : {A : Type 0} → Option Error → Exec Memory A → Exec Memory A
unless none f m = f m
unless (some e) f m = (err e, m)

-- `_put`
unfoldable pub put_memory : Clock → String → Bytes → IfMatch → Option ℕ → Exec Memory Text
unfolding live conflict
put_memory clock key payload if_match ttl m =
    let l = live (clock 0) key m in
    unless (conflict if_match l.0) (store_item clock key payload ttl) l.1

-- the condition of `touch`, which a token may state
abbrev pub lease_conflict : Option Text → Item → Option Error
lease_conflict none it = none
lease_conflict (some t) it = if text_eq it.tag t then none else some (stale_write (some it.tag))

-- the same item with another expiry
abbrev pub renewed : ℕ → Option ℕ → Item → Item
renewed now ttl it = record it { expires = deadline now ttl }

abbrev pub renew_item : Clock → String → Option ℕ → Item → Exec Memory Entry
renew_item clock key ttl it m = (
  ok (entry_of key (renewed (clock 1) ttl it)),
  record m { items = insert m.items key (renewed (clock 1) ttl it) },
)

abbrev pub touch_found : Clock → String → Option ℕ → Option Text → Option Item → Exec Memory Entry
touch_found clock key ttl if_match none m = (err document_not_found, m)
touch_found clock key ttl if_match (some it) m =
    unless (lease_conflict if_match it) (renew_item clock key ttl it) m

-- `_touch`
unfoldable pub touch_memory : Clock → String → Option ℕ → Option Text → Exec Memory Entry
unfolding live
touch_memory clock key ttl if_match m =
    let l = live (clock 0) key m in touch_found clock key ttl if_match l.0 l.1

abbrev pub is_there {ℓ} : {A : Type ℓ} → Option A → Bool
is_there none = false
is_there (some a) = true

-- `_items.pop(key, None) is not None`
abbrev pub drop_item : String → Exec Memory Bool
drop_item key m = (ok (is_there (lookup m.items key)), record m { items = remove m.items key })

-- `_delete`
unfoldable pub delete_memory : Clock → String → IfMatch → Exec Memory Bool
unfolding live conflict
delete_memory clock key if_match m =
    let l = live (clock 0) key m in unless (conflict if_match l.0) (drop_item key) l.1

unfoldable pub starts_with : Text → Text → Bool
starts_with [] s = true
starts_with (c ∷ p) [] = false
starts_with (c ∷ p) (d ∷ s) = d == c && starts_with p s

abbrev pub put_in_front : String → Option Item → List String → List String
put_in_front k none ks = ks
put_in_front k (some it) ks = k ∷ ks

-- the keys under the prefix whose items are live; the clock is read at each
unfoldable pub live_names : Clock → Text → List String → Memory → List String × Memory
unfolding starts_with live
live_names clock prefix [] m = ([], m)
live_names clock prefix (k ∷ ks) m =
    let l = live (clock 0) k m in
    let r = live_names (λ i. clock (i + 1)) prefix ks l.1 in
    let rest = live_names (λ i. clock (i + 1)) prefix ks m in
    if starts_with prefix (codes k) then (put_in_front k l.0 r.0, r.1) else rest

abbrev pub add_entry : String → Option Item → List Entry → List Entry
add_entry k none es = es
add_entry k (some it) es = entry_of k it ∷ es

unfoldable pub entries_of : Memory → List String → List Entry
entries_of m [] = []
entries_of m (k ∷ ks) = add_entry k (lookup m.items k) (entries_of m ks)

-- `_list`
unfoldable pub list_memory : Clock → String → Exec Memory (List Entry)
unfolding live_names entries_of
list_memory clock prefix m =
    let r = live_names clock (codes prefix) (keys m.items) m in (ok (entries_of r.1 r.0), r.1)

-- the backend that `MemoryStore` is
abbrev pub memory_store : Backend Memory
memory_store = record {
  read_item = read_memory;
  head_item = head_memory;
  put_item = put_memory;
  touch_item = touch_memory;
  delete_item = delete_memory;
  list_items = list_memory;
}
