-- ===== src/Store/Views.antt =====
-- _store.py: what a store in memory shows at a time, and how each call changes it. What has expired is not
-- shown, whether or not it was dropped.
use atomdoc.Prelude.{
  ℕ, ◌≤◌, String, ◌≡◌, refl, sym, ap, ◌∙◌, inl, inr, Bool, true, false, Option, none, some, arith,
  eq_iff, ltb, leb, not, str_eq, if◌then◌else◌, Bool-cases, if_elim,
}
use mathlib.Core.Path.{subst}
use atomdoc.Prelude.Exec.{Result, ok, err, Error}
use atomdoc.Prelude.Dict.{lookup, insert, remove, lookup-insert, lookup-remove}
use atomdoc.Store.Memory.{Item, Memory, expired, live_item, live}

-- an item without expiry, or with one that is still to come
abbrev pub lives : ℕ → Item → Bool
lives now it = elim it.expires [ none ↦ true | some e ↦ ltb now e ]

-- an item, unless it has expired
abbrev pub unexpired : ℕ → Option Item → Option Item
unexpired now none = none
unexpired now (some it) = if lives now it then some it else none

pub lives-expired : (now : ℕ) (it : Item) (b : Bool) → expired now it ≡ b → lives now it ≡ not b
lives-expired now it b h = go it.expires h
  where
    go :
        (o : Option ℕ)
        → (elim o [ none ↦ false | some e ↦ leb e now ]) ≡ b
        → (elim o [ none ↦ true | some e ↦ ltb now e ]) ≡ not b
    go none h = ap not h
    go (some e) h = ground (arith, h)

-- what the store shows at a time
unfoldable pub seen : ℕ → Memory → String → Option Item
seen now m k = unexpired now (lookup m.items k)

-- a view after one key was given another value
abbrev pub changed : String → Option Item → (String → Option Item) → String → Option Item
changed key o view k = if str_eq key k then o else view k

-- a view after a call that was refused or not
abbrev pub unless_refused :
    Option Error → (String → Option Item) → (String → Option Item) → String → Option Item
unless_refused none new old = new
unless_refused (some e) new old = old

abbrev pub outcome {ℓ} : {A : Type ℓ} → Option Error → A → Result A
outcome none a = ok a
outcome (some e) a = err e

pub live_item-shows :
    (now : ℕ) (key : String) (m : Memory) (o : Option Item)
    → (live_item now key m o).0 ≡ unexpired now o
live_item-shows now key m none = refl
live_item-shows now key m (some it) = elim (Bool-cases (expired now it)) [
  | inl gone ↦ rw (gone, lives-expired now it true gone) refl
  | inr stays ↦ rw (stays, lives-expired now it false stays) refl
]

-- A look at a key finds what the store shows.
pub live-shows : (now : ℕ) (key : String) (m : Memory) → (live now key m).0 ≡ seen now m key
unfolding live seen
live-shows now key m = live_item-shows now key m (lookup m.items key)

live_item-writes :
    (now : ℕ) (key : String) (m : Memory) (o : Option Item)
    → (live_item now key m o).1.writes ≡ m.writes
live_item-writes now key m none = refl
live_item-writes now key m (some it) =
    if_elim (λ (r : Option Item × Memory). r.1.writes ≡ m.writes) (expired now it) _ _ (λ _. refl)
      (λ _. refl)

pub live-writes : (now : ℕ) (key : String) (m : Memory) → (live now key m).1.writes ≡ m.writes
unfolding live
live-writes now key m = live_item-writes now key m (lookup m.items key)

-- what has expired stays so
pub expired-later : (now t : ℕ) (it : Item) → now ≤ t → expired now it ≡ true → expired t it ≡ true
expired-later now t it h e = go it.expires e
  where
    go :
        (o : Option ℕ)
        → (elim o [ none ↦ false | some e ↦ leb e now ]) ≡ true
        → (elim o [ none ↦ false | some e ↦ leb e t ]) ≡ true
    go none g = g
    go (some e) g = ground (arith, g, h)

unexpired-if :
    (t : ℕ) (b : Bool) (o p : Option Item)
    → unexpired t (if b then o else p) ≡ (if b then unexpired t o else unexpired t p)
unexpired-if t true o p = refl
unexpired-if t false o p = refl

pub seen-insert :
    (t : ℕ) (m : Memory) (key : String) (it : Item) (n : ℕ) (k : String)
    → seen t (record { items = insert m.items key it; writes = n }) k
      ≡ changed key (unexpired t (some it)) (seen t m) k
unfolding seen
seen-insert t m key it n k =
    ap (unexpired t) (lookup-insert m.items key it k)
    ∙ unexpired-if t (str_eq key k) (some it) (lookup m.items k)

pub seen-remove :
    (t : ℕ) (m : Memory) (key : String) (k : String)
    → seen t (record m { items = remove m.items key }) k ≡ changed key none (seen t m) k
unfolding seen
seen-remove t m key k =
    ap (unexpired t) (lookup-remove m.items key k)
    ∙ unexpired-if t (str_eq key k) none (lookup m.items k)

-- a key that shows nothing shows nothing after a change to nothing
changed-none :
    (key : String) (view : String → Option Item) (k : String)
    → view key ≡ none
    → changed key none view k ≡ view k
changed-none key view k h = elim (Bool-cases (str_eq key k)) [
  | inl same ↦ rw same (sym (subst (λ j. view j ≡ none) ((eq_iff key k).0 same) h))
  | inr other ↦ rw other refl
]

pub changed-same :
    (key : String) (o : Option Item) (a b : String → Option Item) (k : String)
    → a k ≡ b k
    → changed key o a k ≡ changed key o b k
changed-same key o a b k h = ap (λ p. if str_eq key k then o else p) h

live_item-seen :
    (now t : ℕ) (key : String) (m : Memory) (o : Option Item) (k : String)
    → now ≤ t
    → lookup m.items key ≡ o
    → seen t (live_item now key m o).1 k ≡ seen t m k
live_item-seen now t key m none k h e = refl
live_item-seen now t key m (some it) k h e = elim (Bool-cases (expired now it)) [
  | inl gone ↦ rw gone (seen-remove t m key k ∙ changed-none key (seen t m) k (hidden gone))
  | inr stays ↦ rw stays refl
]
  where
    hidden : expired now it ≡ true → seen t m key ≡ none
    hidden gone =
        unfold seen in
        ap (unexpired t) e ∙ rw (lives-expired t it true (expired-later now t it h gone)) refl

-- Looking at a key changes nothing that is shown from then on.
pub live-seen :
    (now t : ℕ) (key : String) (m : Memory) (k : String)
    → now ≤ t
    → seen t (live now key m).1 k ≡ seen t m k
unfolding live
live-seen now t key m k h = live_item-seen now t key m (lookup m.items key) k h refl
