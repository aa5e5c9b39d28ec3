-- ===== src/Store/Evolution.antt =====
-- _store.py: how a call changes the items and tokens of a store in memory.
use atomdoc.Prelude.{
  ℕ, ◌+◌, ◌≤◌, ◌<◌, String, ◌≡◌, refl, sym, ap, ◌∙◌, inl, inr, Option, none, some, List, [], ◌∷◌,
  arith, eq_iff, str_eq, Bool-cases, if_elim,
}
use mathlib.Core.Path.{subst}
use atomdoc.Prelude.Text.{Text, codes}
use atomdoc.Prelude.Exec.{Exec, Error}
use atomdoc.Prelude.Dict.{lookup, insert, remove, keys, lookup-insert, lookup-remove}
use atomdoc.Store.{Bytes, IfMatch, Clock}
use atomdoc.Store.Decimal.{decimal}
use atomdoc.Store.Memory.{
  Item, Memory, expired, live_item, live, new_item, store_item, unless, conflict, put_memory,
  renewed, renew_item, touch_found, lease_conflict, touch_memory, drop_item, delete_memory,
  live_names, list_memory, read_memory, head_memory, starts_with,
}

-- where the token of an item comes from
pub data Origin (m m' : Memory) (k : String) (t : Text) : Type 0 where
  kept : (it : Item) → lookup m.items k ≡ some it → it.tag ≡ t → Origin m m' k t
  fresh : (n : ℕ) → t ≡ decimal n → m.writes < n → n ≤ m'.writes → Origin m m' k t

pub record Evolves (m m' : Memory) : Type 0 where
  pub grows : m.writes ≤ m'.writes
  pub origin : (k : String) (it : Item) → lookup m'.items k ≡ some it → Origin m m' k it.tag

pub Evolves-refl : (m : Memory) → Evolves m m
Evolves-refl m = record { grows = omega arith; origin = λ k it e. Origin.kept it e refl }

pub Evolves-trans : (l m n : Memory) → Evolves l m → Evolves m n → Evolves l n
Evolves-trans l m n a b = record {
  grows = omega (arith, a.grows, b.grows);
  origin = λ k it e. go k it.tag (b.origin k it e);
}
  where
    back : (k : String) (t : Text) → Origin l m k t → Origin l n k t
    back k t (Origin.kept it e s) = Origin.kept it e s
    back k t (Origin.fresh i e low high) = Origin.fresh i e low (omega (arith, high, b.grows))

    go : (k : String) (t : Text) → Origin m n k t → Origin l n k t
    go k t (Origin.kept it e s) = back k t (subst (λ u. Origin l m k u) s (a.origin k it e))
    go k t (Origin.fresh i e low high) = Origin.fresh i e (omega (arith, low, a.grows)) high

Evolves-remove : (m : Memory) (key : String) → Evolves m (record m { items = remove m.items key })
Evolves-remove m key = record {
  grows = omega arith;
  origin = λ k it e. elim (Bool-cases (str_eq key k)) [
    | inl same ↦ absurd (none_some (sym (lookup-remove m.items key k ∙ rw same refl) ∙ e))
    | inr other ↦ Origin.kept it (sym (lookup-remove m.items key k ∙ rw other refl) ∙ e) refl
  ];
}
  where
    none_some : {it : Item} → none ≡ some it → ⊥
    none_some e = cc

-- an item is stored that keeps the token of the one before
Evolves-insert :
    (m : Memory) (key : String) (old new : Item)
    → lookup m.items key ≡ some old
    → old.tag ≡ new.tag
    → Evolves m (record m { items = insert m.items key new })
Evolves-insert m key old new h s = record {
  grows = omega arith;
  origin = λ k it e. elim (Bool-cases (str_eq key k)) [
    | inl same ↦
        let found : some new ≡ some it = sym (lookup-insert m.items key new k ∙ rw same refl) ∙ e in
        let it_new : new ≡ it = cc in
        let k_key : key ≡ k = (eq_iff key k).0 same in
        Origin.kept old (subst (λ j. lookup m.items j ≡ some old) k_key h)
          (s ∙ ap (λ (i : Item). i.tag) it_new)
    | inr other ↦ Origin.kept it (sym (lookup-insert m.items key new k ∙ rw other refl) ∙ e) refl
  ];
}

Evolves-store :
    (clock : Clock) (key : String) (payload : Bytes) (ttl : Option ℕ) (m : Memory)
    → Evolves m ((store_item clock key payload ttl m).1)
Evolves-store clock key payload ttl m = record {
  grows = omega arith;
  origin = λ k it e. elim (Bool-cases (str_eq key k)) [
    | inl same ↦
        let new = new_item clock m payload ttl in
        let found : some new ≡ some it = sym (lookup-insert m.items key new k ∙ rw same refl) ∙ e in
        let it_new : new ≡ it = cc in
        Origin.fresh (m.writes + 1) (ap (λ (i : Item). i.tag) (sym it_new)) (omega arith)
          (omega arith)
    | inr other ↦
        Origin.kept it
          (sym (lookup-insert m.items key (new_item clock m payload ttl) k ∙ rw other refl) ∙ e)
          refl
  ];
}

live_item-Evolves :
    (now : ℕ) (key : String) (m : Memory) (o : Option Item) → Evolves m ((live_item now key m o).1)
live_item-Evolves now key m none = Evolves-refl m
live_item-Evolves now key m (some it) =
    if_elim (λ (r : Option Item × Memory). Evolves m r.1) (expired now it) _ _
      (λ _. Evolves-remove m key) (λ _. Evolves-refl m)

pub live-Evolves : (now : ℕ) (key : String) (m : Memory) → Evolves m ((live now key m).1)
unfolding live
live-Evolves now key m = live_item-Evolves now key m (lookup m.items key)

-- what is looked at is stored
pub live_item-stored :
    (now : ℕ) (key : String) (m : Memory) (o : Option Item) (it : Item)
    → o ≡ lookup m.items key
    → (live_item now key m o).0 ≡ some it
    → lookup (live_item now key m o).1.items key ≡ some it
live_item-stored now key m none it e h = cc
live_item-stored now key m (some old) it e h = elim (Bool-cases (expired now old)) [
  | inl gone ↦ absurd (none_some (rw gone at h))
  | inr stays ↦ rw stays (sym e ∙ rw stays at h)
]
  where
    none_some : none ≡ some it → ⊥
    none_some e = cc

unless-Evolves :
    {A : Type 0} (o : Option Error) (f : Exec Memory A) (m : Memory)
    → Evolves m (f m).1
    → Evolves m (unless o f m).1
unless-Evolves none f m h = h
unless-Evolves (some e) f m h = Evolves-refl m

module _ (clock : Clock) (key : String) (m : Memory) where
  abbrev looked : Option Item × Memory
  looked = live (clock 0) key m

  pub read_memory-Evolves : Evolves m (read_memory clock key m).1
  unfolding read_memory
  read_memory-Evolves = live-Evolves (clock 0) key m

  pub head_memory-Evolves : Evolves m (head_memory clock key m).1
  unfolding head_memory
  head_memory-Evolves = live-Evolves (clock 0) key m

  pub put_memory-Evolves :
      (payload : Bytes) (if_match : IfMatch) (ttl : Option ℕ)
      → Evolves m (put_memory clock key payload if_match ttl m).1
  unfolding put_memory
  put_memory-Evolves payload if_match ttl =
      Evolves-trans m looked.1 _ (live-Evolves (clock 0) key m) (
        unless-Evolves (conflict if_match looked.0) (store_item clock key payload ttl) looked.1
          (Evolves-store clock key payload ttl looked.1))

  pub delete_memory-Evolves :
      (if_match : IfMatch) → Evolves m (delete_memory clock key if_match m).1
  unfolding delete_memory
  delete_memory-Evolves if_match = Evolves-trans m looked.1 _ (live-Evolves (clock 0) key m) (
      unless-Evolves (conflict if_match looked.0) (drop_item key) looked.1
        (Evolves-remove looked.1 key))

  pub touch_memory-Evolves :
      (ttl : Option ℕ) (if_match : Option Text)
      → Evolves m (touch_memory clock key ttl if_match m).1
  unfolding touch_memory
  touch_memory-Evolves ttl if_match = Evolves-trans m looked.1 _ (live-Evolves (clock 0) key m) (
      go looked.0
        (λ it e. unfold live in live_item-stored (clock 0) key m (lookup m.items key) it refl e))
    where
      go :
          (o : Option Item)
          → ((it : Item) → o ≡ some it → lookup looked.1.items key ≡ some it)
          → Evolves looked.1 (touch_found clock key ttl if_match o looked.1).1
      go none h = Evolves-refl looked.1
      go (some it) h =
          unless-Evolves (lease_conflict if_match it) (renew_item clock key ttl it) looked.1
            (Evolves-insert looked.1 key it (renewed (clock 1) ttl it) (h it refl) refl)

live_names-Evolves :
    (clock : Clock) (prefix : Text) (ks : List String) (m : Memory)
    → Evolves m (live_names clock prefix ks m).1
unfolding live_names
live_names-Evolves clock prefix [] m = Evolves-refl m
live_names-Evolves clock prefix (k ∷ ks) m =
    if_elim (λ (r : List String × Memory). Evolves m r.1) (starts_with prefix (codes k)) _ _
      (λ _.
        Evolves-trans m (live (clock 0) k m).1 _ (live-Evolves (clock 0) k m)
          (live_names-Evolves (λ i. clock (i + 1)) prefix ks (live (clock 0) k m).1))
      (λ _. live_names-Evolves (λ i. clock (i + 1)) prefix ks m)

pub list_memory-Evolves :
    (clock : Clock) (prefix : String) (m : Memory) → Evolves m (list_memory clock prefix m).1
unfolding list_memory
list_memory-Evolves clock prefix m = live_names-Evolves clock (codes prefix) (keys m.items) m
