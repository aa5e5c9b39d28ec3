-- ===== src/Store/Listing.antt =====
-- _store.py: what `MemoryStore` lists.
use atomdoc.Prelude.{
  ℕ, String, ◌≡◌, refl, sym, ap, ◌∙◌, ◌++◌, ◌≢◌, true, false, ==_iff, length, inl, inr, Option,
  none, some, List, [], ◌∷◌, arith, if◌then◌else◌, Bool-cases, if_elim,
}
use atomdoc.Prelude.Text.{Text, codes}
use atomdoc.Prelude.Exec.{ok}
use atomdoc.Prelude.Dict.{lookup, keys}
use atomdoc.Store.{Entry, Clock}
use atomdoc.Store.Memory.{
  Item, Memory, live, live_names, list_memory, starts_with, put_in_front, add_entry, entries_of,
}
use atomdoc.Store.Views.{lives, unexpired, seen, live-shows, live-seen}

-- a clock whose reading does not change during a call
abbrev pub steady : ℕ → Clock
steady now i = now

-- the entries that are shown under a prefix, of some keys
unfoldable shown_entries : ℕ → Text → Memory → List String → List Entry
unfolding starts_with seen
shown_entries now prefix m [] = []
shown_entries now prefix m (k ∷ ks) =
    let rest = shown_entries now prefix m ks in
    if starts_with prefix (codes k) then add_entry k (seen now m k) rest else rest

shown_names : ℕ → Text → Memory → List String → List String
shown_names now prefix m [] = []
shown_names now prefix m (k ∷ ks) =
    let rest = shown_names now prefix m ks in
    if starts_with prefix (codes k) then put_in_front k (seen now m k) rest else rest

shown_names-same :
    (now : ℕ) (prefix : Text) (m n : Memory) (ks : List String)
    → ((k : String) → seen now n k ≡ seen now m k)
    → shown_names now prefix n ks ≡ shown_names now prefix m ks
unfolding shown_names
shown_names-same now prefix m n [] h = refl
shown_names-same now prefix m n (k ∷ ks) h = rw (h k, shown_names-same now prefix m n ks h) refl

live_names-seen :
    (now : ℕ) (prefix : Text) (ks : List String) (m : Memory) (k : String)
    → seen now (live_names (steady now) prefix ks m).1 k ≡ seen now m k
unfolding live_names
live_names-seen now prefix [] m k = refl
live_names-seen now prefix (j ∷ ks) m k =
    if_elim (λ (r : List String × Memory). seen now r.1 k ≡ seen now m k)
      (starts_with prefix (codes j)) _ _
      (λ _.
        live_names-seen now prefix ks (live now j m).1 k ∙ live-seen now now j m k (omega arith))
      (λ _. live_names-seen now prefix ks m k)

live_names-shown :
    (now : ℕ) (prefix : Text) (ks : List String) (m : Memory)
    → (live_names (steady now) prefix ks m).0 ≡ shown_names now prefix m ks
unfolding live_names shown_names
live_names-shown now prefix [] m = refl
live_names-shown now prefix (j ∷ ks) m = elim (Bool-cases (starts_with prefix (codes j))) [
  | inl under ↦ rw under (
      rw
        (
          live-shows now j m,
          live_names-shown now prefix ks (live now j m).1,
          shown_names-same now prefix m (live now j m).1 ks
              (λ k. live-seen now now j m k (omega arith)),
        )
        refl)
  | inr other ↦ rw other (live_names-shown now prefix ks m)
]

unexpired-found : (now : ℕ) (o : Option Item) (it : Item) → unexpired now o ≡ some it → o ≡ some it
unexpired-found now none it h = h
unexpired-found now (some old) it h = elim (Bool-cases (lives now old)) [
  | inl stays ↦ rw stays at h
  | inr gone ↦ absurd (none_some (rw gone at h))
]
  where
    none_some : none ≡ some it → ⊥
    none_some e = cc

entries_of-front :
    (now : ℕ) (m n : Memory) (k : String) (o : Option Item) (ks : List String) (es : List Entry)
    → seen now n k ≡ o
    → entries_of n ks ≡ es
    → entries_of n (put_in_front k o ks) ≡ add_entry k o es
unfolding entries_of seen
entries_of-front now m n k none ks es h r = r
entries_of-front now m n k (some it) ks es h r =
    rw (unexpired-found now (lookup n.items k) it h, r) refl

entries_of-shown :
    (now : ℕ) (prefix : Text) (m n : Memory) (ks : List String)
    → ((k : String) → seen now n k ≡ seen now m k)
    → entries_of n (shown_names now prefix m ks) ≡ shown_entries now prefix m ks
unfolding shown_names shown_entries entries_of
entries_of-shown now prefix m n [] h = refl
entries_of-shown now prefix m n (k ∷ ks) h = elim (Bool-cases (starts_with prefix (codes k))) [
  | inl under ↦ rw under (
      entries_of-front now m n k (seen now m k) (shown_names now prefix m ks)
        (shown_entries now prefix m ks) (h k) (entries_of-shown now prefix m n ks h))
  | inr other ↦ rw other (entries_of-shown now prefix m n ks h)
]

-- A listing of keys under a prefix: the entries of the items that a view shows at those keys that are the
-- prefix with something behind it, in the order of the keys.
pub data Lists (prefix : Text) (view : String → Option Item)
    : List String → List Entry → Type 0 where
  done : Lists prefix view [] []
  shown :
      {k : String} {ks : List String} {es : List Entry} (rest : Text) (it : Item)
      → codes k ≡ prefix ++ rest
      → view k ≡ some it
      → Lists prefix view ks es
      → Lists prefix view (k ∷ ks) (
          record {
            key = k;
            token = it.tag;
            size = length it.payload;
            modified = some it.written;
            expires_at = it.expires;
          }
          ∷ es)
  hidden :
      {k : String} {ks : List String} {es : List Entry}
      → view k ≡ none
      → Lists prefix view ks es
      → Lists prefix view (k ∷ ks) es
  outside :
      {k : String} {ks : List String} {es : List Entry}
      → ((rest : Text) → codes k ≢ prefix ++ rest)
      → Lists prefix view ks es
      → Lists prefix view (k ∷ ks) es

starts_with-append : (p s : Text) → starts_with p s ≡ true → (rest : Text) × (s ≡ p ++ rest)
unfolding starts_with
starts_with-append [] s h = (s, refl)
starts_with-append (c ∷ p) [] h = absurd cc
starts_with-append (c ∷ p) (d ∷ s) h =
    let rest = starts_with-append p s (ground (arith, h)) in
    let same = (==_iff d c).0 (ground (arith, h)) in
    (rest.0, ap (λ a. a ∷ s) same ∙ ap (◌∷◌ c) rest.1)

starts_with-prefix : (p rest : Text) → starts_with p (p ++ rest) ≡ true
unfolding starts_with
starts_with-prefix [] rest = refl
starts_with-prefix (c ∷ p) rest = rw (starts_with-prefix p rest, (==_iff c c).1 refl) refl

shown-Lists :
    (view : String → Option Item) (prefix : Text) (k : String) (ks : List String) (es : List Entry)
    (o : Option Item)
    → view k ≡ o
    → (rest : Text) × (codes k ≡ prefix ++ rest)
    → Lists prefix view ks es
    → Lists prefix view (k ∷ ks) (add_entry k o es)
shown-Lists view prefix k ks es none e r l = Lists.hidden e l
shown-Lists view prefix k ks es (some it) e r l = Lists.shown r.0 it r.1 e l

shown_entries-Lists :
    (now : ℕ) (prefix : Text) (m : Memory) (ks : List String)
    → Lists prefix (seen now m) ks (shown_entries now prefix m ks)
unfolding shown_entries
shown_entries-Lists now prefix m [] = Lists.done
shown_entries-Lists now prefix m (k ∷ ks) =
    let rest = shown_entries-Lists now prefix m ks in
    if_elim (λ es. Lists prefix (seen now m) (k ∷ ks) es) (starts_with prefix (codes k)) _ _
      (λ h.
        shown-Lists (seen now m) prefix k ks (shown_entries now prefix m ks) (seen now m k) refl
          (starts_with-append prefix (codes k) h) rest)
      (λ h. Lists.outside (not_under h) rest)
  where
    not_under : starts_with prefix (codes k) ≡ false → (rest : Text) → codes k ≢ prefix ++ rest
    not_under h rest e =
        true_false (sym (starts_with-prefix prefix rest) ∙ ap (starts_with prefix) (sym e) ∙ h)
      where
        true_false : true ≡ false → ⊥
        true_false e = cc

-- While the clock's reading stays the same, a listing yields, in the order of the store's keys, the
-- entries of the items that the store shows at the keys that are the prefix with something behind it,
-- and changes nothing that is shown.
pub list_memory-lists_shown :
    (now : ℕ) (prefix : String) (m : Memory)
    → ((es : List Entry) × ((list_memory (steady now) prefix m).0 ≡ ok es)
        × Lists (codes prefix) (seen now m) (keys m.items) es)
      × ((k : String) → seen now (list_memory (steady now) prefix m).1 k ≡ seen now m k)
unfolding list_memory
list_memory-lists_shown now prefix m =
    let after = live_names (steady now) (codes prefix) (keys m.items) m in
    let same = live_names-seen now (codes prefix) (keys m.items) m in
    (
      (
        shown_entries now (codes prefix) m (keys m.items),
        ap (λ ks. ok (entries_of after.1 ks)) (live_names-shown now (codes prefix) (keys m.items) m)
            ∙ ap ok (entries_of-shown now (codes prefix) m after.1 (keys m.items) same),
        shown_entries-Lists now (codes prefix) m (keys m.items),
      ),
      same,
    )
