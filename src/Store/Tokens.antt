-- ===== src/Store/Tokens.antt =====
-- _store.py: tokens of a store in memory, over any sequence of calls.
use atomdoc.Prelude.{
  ℕ, ◌+◌, ◌≤◌, ◌<◌, String, ◌≡◌, refl, sym, ap, ◌∙◌, ◌≢◌, inl, inr, Option, none, some, List, [],
  ◌∷◌, arith, str_eq_refl, Bool-cases,
}
use mathlib.Core.Path.{subst}
use atomdoc.Prelude.Text.{Text, text_eq, text_eq_iff}
use atomdoc.Prelude.Exec.{Exec, ok, err, Error, stale_write}
use atomdoc.Prelude.Dict.{lookup, insert, lookup-insert}
use atomdoc.Store.{Bytes, IfMatch, token, Clock}
use atomdoc.Store.Decimal.{decimal, decimal-injective}
use atomdoc.Store.Memory.{
  Item, Memory, no_items, live, new_item, store_item, unless, conflict, held_token, put_memory,
  touch_memory, delete_memory, list_memory, read_memory, head_memory,
}
use atomdoc.Store.Evolution.{
  Origin, Evolves, Evolves-refl, Evolves-trans, live-Evolves, live_item-stored, read_memory-Evolves,
  head_memory-Evolves, put_memory-Evolves, touch_memory-Evolves, delete_memory-Evolves,
  list_memory-Evolves,
}

-- a call of a store, with the readings of the clock that it makes
pub data Call : Type 0 where
  read head list : Clock → String → Call
  put : Clock → String → Bytes → IfMatch → Option ℕ → Call
  touch : Clock → String → Option ℕ → Option Text → Call
  delete : Clock → String → IfMatch → Call

-- what a call leaves, whether it raises or not
unfoldable pub after : Call → Memory → Memory
unfolding read_memory head_memory put_memory touch_memory delete_memory list_memory
after (Call.read clock key) m = (read_memory clock key m).1
after (Call.head clock key) m = (head_memory clock key m).1
after (Call.list clock prefix) m = (list_memory clock prefix m).1
after (Call.put clock key payload if_match ttl) m = (put_memory clock key payload if_match ttl m).1
after (Call.touch clock key ttl if_match) m = (touch_memory clock key ttl if_match m).1
after (Call.delete clock key if_match) m = (delete_memory clock key if_match m).1

unfoldable pub after_all : List Call → Memory → Memory
unfolding after
after_all [] m = m
after_all (c ∷ cs) m = after_all cs (after c m)

after-Evolves : (c : Call) (m : Memory) → Evolves m (after c m)
unfolding after
after-Evolves (Call.read clock key) m = read_memory-Evolves clock key m
after-Evolves (Call.head clock key) m = head_memory-Evolves clock key m
after-Evolves (Call.list clock prefix) m = list_memory-Evolves clock prefix m
after-Evolves (Call.put clock key payload if_match ttl) m =
    put_memory-Evolves clock key m payload if_match ttl
after-Evolves (Call.touch clock key ttl if_match) m = touch_memory-Evolves clock key m ttl if_match
after-Evolves (Call.delete clock key if_match) m = delete_memory-Evolves clock key m if_match

pub after_all-Evolves : (cs : List Call) (m : Memory) → Evolves m (after_all cs m)
unfolding after_all
after_all-Evolves [] m = Evolves-refl m
after_all-Evolves (c ∷ cs) m =
    Evolves-trans m (after c m) _ (after-Evolves c m) (after_all-Evolves cs (after c m))

-- every token held was given by one of the writes so far
unfoldable pub IsIssued : Memory → Type 0
IsIssued m =
    (k : String) (it : Item)
    → lookup m.items k ≡ some it
    → (n : ℕ) × (it.tag ≡ decimal n) × (n ≤ m.writes)

pub IsIssued-Evolves : (m n : Memory) → Evolves m n → IsIssued m → IsIssued n
unfolding IsIssued
IsIssued-Evolves m n e h k it f = go it.tag (e.origin k it f)
  where
    go : (t : Text) → Origin m n k t → (i : ℕ) × (t ≡ decimal i) × (i ≤ n.writes)
    go t (Origin.kept old g s) =
        let o = h k old g in (o.0, sym s ∙ o.1, omega (arith, o.2, e.grows))
    go t (Origin.fresh i g low high) = (i, g, high)

-- a token that was given, and that the key no longer has
record IsSpent (m : Memory) (key : String) (t : Text) : Type 0 where
  number : ℕ
  written_as : t ≡ decimal number
  given : number ≤ m.writes
  gone : (it : Item) → lookup m.items key ≡ some it → it.tag ≢ t

IsSpent-Evolves :
    (m n : Memory) (key : String) (t : Text) → Evolves m n → IsSpent m key t → IsSpent n key t
IsSpent-Evolves m n key t e s = record {
  number = s.number;
  written_as = s.written_as;
  given = omega (arith, s.given, e.grows);
  gone = λ it f. go it.tag (e.origin key it f);
}
  where
    go : (u : Text) → Origin m n key u → u ≢ t
    go u (Origin.kept old g same) h = s.gone old g (same ∙ h)
    go u (Origin.fresh i g low high) h =
        let i_number : i ≡ s.number = decimal-injective i s.number (sym g ∙ h ∙ s.written_as) in
        omega (arith, i_number, low, s.given)

pub IsIssued-reached : (cs : List Call) → IsIssued (after_all cs no_items)
unfolding IsIssued lookup
IsIssued-reached cs =
    IsIssued-Evolves no_items (after_all cs no_items) (after_all-Evolves cs no_items)
      (λ k it f. absurd (none_some f))
  where
    none_some : {it : Item} → none ≡ some it → ⊥
    none_some e = cc

-- what is looked at is stored
stored :
    (now : ℕ) (key : String) (m : Memory) (it : Item)
    → (live now key m).0 ≡ some it
    → lookup (live now key m).1.items key ≡ some it
unfolding live
stored now key m it e = live_item-stored now key m (lookup m.items key) it refl e

conflict-spent :
    (o : Option Item) (t : Text)
    → ((it : Item) → o ≡ some it → it.tag ≢ t)
    → conflict (token t) o ≡ some (stale_write (held_token o))
unfolding conflict
conflict-spent none t h = refl
conflict-spent (some it) t h = elim (Bool-cases (text_eq it.tag t)) [
  | inl same ↦ absurd (h it refl ((text_eq_iff it.tag t).0 same))
  | inr other ↦ rw other refl
]

put-spent :
    (clock : Clock) (key : String) (payload : Bytes) (t : Text) (ttl : Option ℕ) (m : Memory)
    → IsSpent m key t
    → put_memory clock key payload (token t) ttl m
      ≡ (err (stale_write (held_token (live (clock 0) key m).0)), (live (clock 0) key m).1)
unfolding put_memory
put-spent clock key payload t ttl m s =
    let l = live (clock 0) key m in
    let later = IsSpent-Evolves m l.1 key t (live-Evolves (clock 0) key m) s in
    ap (λ (o : Option Error). unless o (store_item clock key payload ttl) l.1)
      (conflict-spent l.0 t (λ it e. later.gone it (stored (clock 0) key m it e)))

-- a write under a token that is not refused found an item with that token
held-accepted :
    (o : Option Item) (t : Text)
    → conflict (token t) o ≡ none
    → (it : Item) × (o ≡ some it) × (it.tag ≡ t)
unfolding conflict
held-accepted none t h = absurd cc
held-accepted (some it) t h = elim (Bool-cases (text_eq it.tag t)) [
  | inl same ↦ (it, refl, (text_eq_iff it.tag t).0 same)
  | inr other ↦ absurd (some_none (rw other at h))
]
  where
    some_none : some (stale_write (held_token (some it))) ≡ none → ⊥
    some_none e = cc

unless-accepted :
    (o : Option Error) (f : Exec Memory Text) (m : Memory) (t : Text)
    → (unless o f m).0 ≡ ok t
    → o ≡ none
unless-accepted none f m t h = refl
unless-accepted (some e) f m t h = absurd cc

module _ (clock : Clock) (key : String) (payload : Bytes) (ttl : Option ℕ) (m : Memory) where
  store_item-spends :
      (t : Text) (it : Item)
      → IsIssued m
      → lookup m.items key ≡ some it
      → it.tag ≡ t
      → IsSpent (store_item clock key payload ttl m).1 key t
  unfolding IsIssued
  store_item-spends t it issued e s =
      let old = issued key it e in
      record {
        number = old.0;
        written_as = sym s ∙ old.1;
        given = omega (arith, old.2);
        gone = λ new f h.
            let new_tag : new.tag ≡ decimal (m.writes + 1) =
              ap (λ (i : Item). i.tag)
                (sym (some_injective (sym (insert_same (new_item clock m payload ttl)) ∙ f))) in
            let i_number : m.writes + 1 ≡ old.0 =
              decimal-injective (m.writes + 1) old.0 (sym new_tag ∙ h ∙ sym s ∙ old.1) in
            omega (arith, i_number, old.2);
      }
    where
      some_injective : {a b : Item} → some a ≡ some b → a ≡ b
      some_injective e = cc

      insert_same : (a : Item) → lookup (insert m.items key a) key ≡ some a
      insert_same a = lookup-insert m.items key a key ∙ rw (str_eq_refl key) refl

put-spends :
    (clock : Clock) (key : String) (payload : Bytes) (ttl : Option ℕ) (m : Memory) (t u : Text)
    → IsIssued m
    → (put_memory clock key payload (token t) ttl m).0 ≡ ok u
    → IsSpent (put_memory clock key payload (token t) ttl m).1 key t
unfolding put_memory
put-spends clock key payload ttl m t u issued h =
    let l = live (clock 0) key m in
    let accepted =
      unless-accepted (conflict (token t) l.0) (store_item clock key payload ttl) l.1 u h in
    let had = held-accepted l.0 t accepted in
    let found = stored (clock 0) key m had.0 had.1 in
    subst (λ o. IsSpent (unless o (store_item clock key payload ttl) l.1).1 key t) (sym accepted)
      (store_item-spends clock key payload ttl l.1 t had.0
        (IsIssued-Evolves m l.1 (live-Evolves (clock 0) key m) issued) found had.2)

-- In a store in memory reached by any calls, a token under which a write was accepted at a key is spent:
-- after any further calls a write at that key under the same token raises `StaleWrite`, which
-- carries the token held then, and changes nothing but that an expired item is dropped.
pub token-spent :
    (before between : List Call) (clock later : Clock) (key : String) (first second : Bytes)
    (t u : Text) (ttl again : Option ℕ)
    → (put_memory clock key first (token t) ttl (after_all before no_items)).0 ≡ ok u
    → let m =
        after_all between
          (put_memory clock key first (token t) ttl (after_all before no_items)).1 in
      put_memory later key second (token t) again m
      ≡ (err (stale_write (held_token (live (later 0) key m).0)), (live (later 0) key m).1)
token-spent before between clock later key first second t u ttl again h =
    let start = after_all before no_items in
    let written = (put_memory clock key first (token t) ttl start).1 in
    put-spent later key second t again (after_all between written) (
      IsSpent-Evolves written (after_all between written) key t (after_all-Evolves between written)
        (put-spends clock key first ttl start t u (IsIssued-reached before) h))

unless-ok :
    (o : Option Error) (clock : Clock) (key : String) (payload : Bytes) (ttl : Option ℕ)
    (m : Memory) (t : Text)
    → (unless o (store_item clock key payload ttl) m).0 ≡ ok t
    → (t ≡ decimal (m.writes + 1))
      × ((unless o (store_item clock key payload ttl) m).1.writes ≡ m.writes + 1)
unless-ok none clock key payload ttl m t h = (sym (ok_injective h), refl)
  where
    ok_injective : {a b : Text} → ok a ≡ ok b → a ≡ b
    ok_injective e = cc
unless-ok (some e) clock key payload ttl m t h = absurd cc

put-issues :
    (clock : Clock) (key : String) (payload : Bytes) (c : IfMatch) (ttl : Option ℕ) (m : Memory)
    (t : Text)
    → (put_memory clock key payload c ttl m).0 ≡ ok t
    → (n : ℕ) × (t ≡ decimal n)
      × (m.writes < n)
      × (n ≡ (put_memory clock key payload c ttl m).1.writes)
unfolding put_memory
put-issues clock key payload c ttl m t h =
    let l = live (clock 0) key m in
    let g = (live-Evolves (clock 0) key m).grows in
    let r = unless-ok (conflict c l.0) clock key payload ttl l.1 t h in
    (l.1.writes + 1, r.0, omega (arith, g), sym r.1)

-- Two writes that a store in memory accepts never give the same token, whatever their keys, contents
-- and conditions and whatever calls stand between them.
pub put-gives_new_token :
    (m : Memory) (between : List Call) (clock later : Clock) (key other : String)
    (first second : Bytes) (c d : IfMatch) (ttl again : Option ℕ) (t u : Text)
    → (put_memory clock key first c ttl m).0 ≡ ok t
    → (put_memory later other second d again
        (after_all between (put_memory clock key first c ttl m).1)).0
      ≡ ok u
    → t ≢ u
put-gives_new_token m between clock later key other first second c d ttl again t u h k same =
    let written = (put_memory clock key first c ttl m).1 in
    let a = put-issues clock key first c ttl m t h in
    let b = put-issues later other second d again (after_all between written) u k in
    let grows = (after_all-Evolves between written).grows in
    let equal : a.0 ≡ b.0 = decimal-injective a.0 b.0 (sym a.1 ∙ same ∙ b.1) in
    omega (arith, equal, a.3, b.2, grows)
