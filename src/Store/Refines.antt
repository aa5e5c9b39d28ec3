-- ===== src/Store/Refines.antt =====
-- _store.py: the calls of a store in memory against what the store shows.
use atomdoc.Prelude.{
  ℕ, ◌+◌, ◌≤◌, String, ◌≡◌, refl, sym, ap, ◌∙◌, ◌⊎◌, inl, inr, true, false, Bool, Option, none,
  some, length, Bool-cases,
}
use mathlib.Core.Path.{subst}
use mathlib.Core.Bool.{false≢true}
use mathlib.Core.Option.{map as map_option}
use atomdoc.Prelude.Text.{Text, text_eq, text_eq_iff}
use atomdoc.Prelude.Exec.{Result, ok, err, document_not_found, stale_write}
use atomdoc.Store.{Bytes, IfMatch, absent, any, token, Entry, Clock}
use atomdoc.Store.Decimal.{decimal}
use atomdoc.Store.Memory.{
  Item, Memory, conflict, lease_conflict, deadline, holds, held_token, new_item, renewed,
  put_memory, touch_memory, delete_memory, is_there, mapped, entry_of,
}
use atomdoc.Store.Views.{unexpired, seen, changed, unless_refused, outcome}
use atomdoc.Store.Decided.{
  put_memory-decided, delete_memory-decided, touch_memory-decided, lease, lease_unless, after_lease,
}

-- what a condition asks of the item that the store shows
unfoldable pub Allows : IfMatch → Option Item → Type 0
Allows any o = Unit
Allows absent o = o ≡ none
Allows (token t) o = (it : Item) × (o ≡ some it) × (it.tag ≡ t)

-- the token of the item that the store shows
abbrev pub shown_token : Option Item → Option Text
shown_token = map_option (λ (it : Item). it.tag)

-- the end of a lease that starts at a time
abbrev pub lease_end : ℕ → Option ℕ → Option ℕ
lease_end now = map_option (λ s. now + s)

-- the same view at every key
abbrev pub SameView : (String → Option Item) → (String → Option Item) → Type 0
SameView view other = (k : String) → view k ≡ other k

holds-Allows :
    (t : Text) (o : Option Item)
    → ((Allows (token t) o) × (holds o t ≡ true)) ⊎ ((Allows (token t) o → ⊥) × (holds o t ≡ false))
unfolding Allows
holds-Allows t none = inr (λ a. none_some a.1, refl)
  where
    none_some : {it : Item} → none ≡ some it → ⊥
    none_some e = cc
holds-Allows t (some it) = elim (Bool-cases (text_eq it.tag t)) [
  | inl same ↦ inl ((it, refl, (text_eq_iff it.tag t).0 same), same)
  | inr other ↦ inr (
    λ a.
        false≢true
          (sym other ∙ (text_eq_iff it.tag t).1 (ap (λ (o : Option Item). tag_of o) a.1 ∙ a.2)),
    other,
  )
]
  where
    tag_of : Option Item → Text
    tag_of none = it.tag
    tag_of (some j) = j.tag

held-shown : (o : Option Item) → held_token o ≡ shown_token o
held-shown none = refl
held-shown (some it) = refl

conflict-Allows :
    (c : IfMatch) (o : Option Item)
    → (Allows c o × (conflict c o ≡ none))
      ⊎ ((Allows c o → ⊥) × (conflict c o ≡ some (stale_write (shown_token o))))
unfolding conflict
conflict-Allows any o = inl (unfold Allows in tt, refl)
conflict-Allows absent none = inl (unfold Allows in refl, refl)
conflict-Allows absent (some it) = inr (unfold Allows in (λ e. cc), refl)
conflict-Allows (token t) o = elim (holds-Allows t o) [
  | inl (a, h) ↦ inl (a, rw h refl)
  | inr (n, h) ↦ inr (n, rw h (ap (λ q. some (stale_write q)) (held-shown o)))
]

deadline-lease_end : (now : ℕ) (ttl : Option ℕ) → deadline now ttl ≡ lease_end now ttl
deadline-lease_end now none = refl
deadline-lease_end now (some s) = refl

-- the item that a write stores: the content, the next token, the time of the write, and its end
abbrev pub written_item : Clock → Memory → Bytes → Option ℕ → Item
written_item clock m payload ttl = record {
  payload = payload;
  tag = decimal (m.writes + 1);
  written = clock 1;
  expires = lease_end (clock 2) ttl;
}

-- A write is decided by what the store shows when it begins. If that meets the condition (for
-- `ABSENT` there is nothing, for a token an item with that token), the write returns the next token, and
-- from then on the store shows the item written at its key, with its content, token and time, until
-- the `ttl` has passed, and at the other keys what it showed. Else it raises StaleWrite with the token
-- shown, and nothing that is shown from then on changes.
pub put_memory-refines :
    (clock : Clock) (key : String) (payload : Bytes) (c : IfMatch) (ttl : Option ℕ) (m : Memory)
    (t : ℕ)
    → clock 0 ≤ t
    → let o = seen (clock 0) m key in
      let r = put_memory clock key payload c ttl m in
      (Allows c o
        × (r.0 ≡ ok (decimal (m.writes + 1)))
        × SameView
            (seen t r.1)
            (changed key (unexpired t (some (written_item clock m payload ttl))) (seen t m)))
      ⊎ ((Allows c o → ⊥)
          × (r.0 ≡ err (stale_write (shown_token o)))
          × SameView (seen t r.1) (seen t m))
put_memory-refines clock key payload c ttl m t h =
    let o = seen (clock 0) m key in
    let d = put_memory-decided clock key payload c ttl m t h in
    elim (conflict-Allows c o) [
      | inl (a, e) ↦ inl (
        a,
        d.0 ∙ ap (λ q. outcome q (decimal (m.writes + 1))) e,
        λ k.
            d.1 k
            ∙ ap
                (λ q.
                  unless_refused q
                    (changed key (unexpired t (some (new_item clock m payload ttl))) (seen t m))
                    (seen t m) k)
                e
            ∙ ap
                (λ x.
                  changed key
                    (unexpired t (some (record (written_item clock m payload ttl) { expires = x })))
                    (seen t m) k)
                (deadline-lease_end (clock 2) ttl),
      )
      | inr (n, e) ↦ inr (
        n,
        d.0 ∙ ap (λ q. outcome q (decimal (m.writes + 1))) e,
        λ k.
            d.1 k
            ∙ ap
                (λ q.
                  unless_refused q
                    (changed key (unexpired t (some (new_item clock m payload ttl))) (seen t m))
                    (seen t m) k)
                e,
      )
    ]

-- A deletion is decided by what the store shows when it begins. If that meets the condition (for
-- `ABSENT` there is nothing, for a token an item with that token), it reports whether the key showed an
-- item, and from then on the store shows nothing there and at the other keys what it showed. Else it
-- raises StaleWrite with the token shown, and nothing that is shown from then on changes.
pub delete_memory-refines :
    (clock : Clock) (key : String) (c : IfMatch) (m : Memory) (t : ℕ)
    → clock 0 ≤ t
    → let o = seen (clock 0) m key in
      let r = delete_memory clock key c m in
      (Allows c o
        × (((o ≡ none) × (r.0 ≡ ok false)) ⊎ ((it : Item) × (o ≡ some it) × (r.0 ≡ ok true)))
        × SameView (seen t r.1) (changed key none (seen t m)))
      ⊎ ((Allows c o → ⊥)
          × (r.0 ≡ err (stale_write (shown_token o)))
          × SameView (seen t r.1) (seen t m))
delete_memory-refines clock key c m t h =
    let o = seen (clock 0) m key in
    let d = delete_memory-decided clock key c m t h in
    elim (conflict-Allows c o) [
      | inl (a, e) ↦ inl (
        a,
        reports o (d.0 ∙ ap (λ q. outcome q (is_there o)) e),
        λ k. d.1 k ∙ ap (λ q. unless_refused q (changed key none (seen t m)) (seen t m) k) e,
      )
      | inr (n, e) ↦ inr (
        n,
        d.0 ∙ ap (λ q. outcome q (is_there o)) e,
        λ k. d.1 k ∙ ap (λ q. unless_refused q (changed key none (seen t m)) (seen t m) k) e,
      )
    ]
  where
    reports :
        (o : Option Item) {r : Result Bool}
        → r ≡ ok (is_there o)
        → ((o ≡ none) × (r ≡ ok false)) ⊎ ((it : Item) × (o ≡ some it) × (r ≡ ok true))
    reports none e = inl (refl, e)
    reports (some it) e = inr (it, refl, e)

-- the condition of a `touch`, on the item that the store shows
unfoldable pub AllowsLease : Option Text → Item → Type 0
AllowsLease none it = Unit
AllowsLease (some t) it = it.tag ≡ t

lease_conflict-AllowsLease :
    (if_match : Option Text) (it : Item)
    → (AllowsLease if_match it × (lease_conflict if_match it ≡ none))
      ⊎ ((AllowsLease if_match it → ⊥)
          × (lease_conflict if_match it ≡ some (stale_write (some it.tag))))
unfolding AllowsLease
lease_conflict-AllowsLease none it = inl (tt, refl)
lease_conflict-AllowsLease (some t) it = elim (Bool-cases (text_eq it.tag t)) [
  | inl same ↦ inl ((text_eq_iff it.tag t).0 same, rw same refl)
  | inr other ↦ inr (λ e. false≢true (sym other ∙ (text_eq_iff it.tag t).1 e), rw other refl)
]

-- what a `touch` makes of the item that the store shows: the entry of that item with another expiry, its
-- content, token and time of writing kept, where the condition lets it; or an error and the same view
abbrev pub Touched :
    String
    → Option ℕ
    → Option Text
    → Result Entry
    → (String → Option Item)
    → (Item → String → Option Item)
    → (String → Option Item)
    → Option Item
    → Type 0
Touched key end if_match r view with_item old o =
    ((it : Item) × (o ≡ some it)
      × AllowsLease if_match it
      × (r
          ≡ ok (record {
            key = key;
            token = it.tag;
            size = length it.payload;
            modified = some it.written;
            expires_at = end;
          }))
      × SameView view (with_item (record it { expires = end })))
    ⊎ ((o ≡ none) × (r ≡ err document_not_found) × SameView view old)
    ⊎ ((it : Item) × (o ≡ some it)
        × (AllowsLease if_match it → ⊥)
        × (r ≡ err (stale_write (some it.tag)))
        × SameView view old)

-- A `touch` is decided by what the store shows when it begins. Where that is an item, and its token the one
-- that the call names, if it names one, the call returns the entry of that item with another expiry,
-- its content, token and time of writing kept, and from then on the store shows this at its key and
-- at the other keys what it showed. Where the store shows nothing the call raises DocumentNotFound, and
-- where the token is another one StaleWrite with the token shown; then nothing that is shown from then
-- on changes.
pub touch_memory-refines :
    (clock : Clock) (key : String) (ttl : Option ℕ) (if_match : Option Text) (m : Memory) (t : ℕ)
    → clock 0 ≤ t
    → let r = touch_memory clock key ttl if_match m in
      Touched key
        (lease_end (clock 1) ttl)
        if_match
        r.0
        (seen t r.1)
        (λ it. changed key (unexpired t (some it)) (seen t m))
        (seen t m)
        (seen (clock 0) m key)
unfolding lease lease_unless
touch_memory-refines clock key ttl if_match m t h =
    go (seen (clock 0) m key) (touch_memory-decided clock key ttl if_match m t h)
  where
    r : Result Entry × Memory
    r = touch_memory clock key ttl if_match m

    Goal : Option Item → Type 0
    Goal =
        Touched key (lease_end (clock 1) ttl) if_match r.0 (seen t r.1)
          (λ it. changed key (unexpired t (some it)) (seen t m)) (seen t m)

    Decided : Result Item → Type 0
    Decided l =
        (r.0 ≡ mapped (entry_of key) l)
        × ((k : String) → seen t r.1 k ≡ after_lease t key l (seen t m) k)

    of_item :
        (it : Item)
        → (AllowsLease if_match it × (lease_conflict if_match it ≡ none))
          ⊎ ((AllowsLease if_match it → ⊥)
              × (lease_conflict if_match it ≡ some (stale_write (some it.tag))))
        → Decided (lease (clock 1) ttl if_match (some it))
        → Goal (some it)
    of_item it (inl (a, e)) d =
        let l =
          subst Decided
            (ap (λ q. lease_unless q (renewed (clock 1) ttl it)) e
              ∙ ap (λ x. ok (record it { expires = x })) (deadline-lease_end (clock 1) ttl))
            d in
        inl (it, refl, a, l.0, l.1)
    of_item it (inr (n, e)) d =
        let l = subst Decided (ap (λ q. lease_unless q (renewed (clock 1) ttl it)) e) d in
        inr (inr (it, refl, n, l.0, l.1))

    go : (o : Option Item) → Decided (lease (clock 1) ttl if_match o) → Goal o
    go none d = inr (inl (refl, d.0, d.1))
    go (some it) d = of_item it (lease_conflict-AllowsLease if_match it) d
