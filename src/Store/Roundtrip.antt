-- ===== src/Store/Roundtrip.antt =====
-- _store.py: `StoreBase` over any backend, and over a store in memory.
use atomdoc.Prelude.{
  ℕ, ◌+◌, ◌≤◌, String, ◌≡◌, refl, ap, ◌∙◌, ◌≢◌, true, false, Option, none, some, [], arith,
  str_eq_refl,
}
use atomdoc.Prelude.Text.{codes}
use atomdoc.Prelude.Exec.{Exec, Result, ok, err, store_closed}
use atomdoc.Store.{Bytes, IfMatch, any, absent, token, Clock, Backend, StoreCapabilities, is_zero}
use atomdoc.Store.Keys.{is_key, check_key}
use atomdoc.Store.Decimal.{decimal}
use atomdoc.Store.Memory.{
  Item, Memory, memory_store, memory_capabilities, new_item, conflict, put_memory, read_memory,
  found, mapped, expired,
}
use atomdoc.Store.Base.{
  Store, guarded, check_claims, check_call, read, get, head, put, touch, delete, list_entries,
  list_keys,
}
use atomdoc.Store.Views.{lives-expired, seen}
use atomdoc.Store.Decided.{put_memory-decided, read_memory-decided}

-- A closed store refuses every call, on any backend and with any arguments, and the backend is not called.
pub closed-refuses :
    {S : Type 0} (b : Backend S) (c : StoreCapabilities) (clock : Clock) (key : String)
    (payload : Bytes) (if_match : IfMatch) (ttl : Option ℕ) (s : S)
    → let shut : Store S = record { closed = true; inner = s } in
      (read b c clock key shut ≡ (err store_closed, shut))
      × (get b c clock key shut ≡ (err store_closed, shut))
      × (head b c clock key shut ≡ (err store_closed, shut))
      × (put b c clock key payload if_match ttl shut ≡ (err store_closed, shut))
      × (if_match ≢ absent → touch b c clock key ttl if_match shut ≡ (err store_closed, shut))
      × (delete b c clock key if_match shut ≡ (err store_closed, shut))
      × (list_entries b c clock key shut ≡ (err store_closed, shut))
      × (list_keys b c clock key shut ≡ (err store_closed, shut))
unfolding read get head put touch delete list_entries list_keys check_call
closed-refuses b c clock key payload any ttl s =
    (refl, refl, refl, refl, λ h. refl, refl, refl, refl)
closed-refuses b c clock key payload (token t) ttl s =
    (refl, refl, refl, refl, λ h. refl, refl, refl, refl)
closed-refuses b c clock key payload absent ttl s =
    (refl, refl, refl, refl, λ h. absurd (h refl), refl, refl, refl)

guarded-ok :
    {S A : Type 0} (r : Result (Unit {0})) (f : Exec S A) (s : Store S)
    → r ≡ ok tt
    → guarded r f s ≡ ((f s.inner).0, record s { inner = (f s.inner).1 })
guarded-ok (ok u) f s h = refl
guarded-ok (err e) f s h = absurd cc

module _ (key : String) (accepted : is_key (codes key) ≡ true) where
  memory_claims :
      (ttl : Option ℕ) (payload : Bytes)
      → is_zero ttl ≡ false
      → check_claims memory_capabilities any ttl payload ≡ ok tt
  unfolding check_claims
  memory_claims none payload h = refl
  memory_claims (some n) payload h = rw h refl

  memory_call :
      (ttl : Option ℕ) (payload : Bytes)
      → is_zero ttl ≡ false
      → check_call memory_capabilities false key any ttl payload ≡ ok tt
  unfolding check_call check_key
  memory_call ttl payload h = rw (accepted, memory_claims ttl payload h) refl

  -- In an open store in memory a write without a condition succeeds, and until the item written expires a
  -- read of its key returns what was written, with the token that the write returned.
  pub put-read :
      (clock later : Clock) (payload : Bytes) (ttl : Option ℕ) (m : Memory)
      → is_zero ttl ≡ false
      → clock 0 ≤ later 0
      → expired (later 0) (new_item clock m payload ttl) ≡ false
      → let s : Store Memory = record { closed = false; inner = m } in
        let written = put memory_store memory_capabilities clock key payload any ttl s in
        (written.0 ≡ ok (decimal (m.writes + 1)))
        × ((read memory_store memory_capabilities later key written.1).0
            ≡ ok (payload, decimal (m.writes + 1)))
  unfolding put read conflict
  put-read clock later payload ttl m positive order fresh =
      let s : Store Memory = record { closed = false; inner = m } in
      let g =
        guarded-ok (check_call memory_capabilities false key any ttl payload)
          (put_memory clock key payload any ttl) s (memory_call ttl payload positive) in
      let p = put_memory-decided clock key payload any ttl m (later 0) order in
      let m1 = (put_memory clock key payload any ttl m).1 in
      let r =
        guarded-ok (check_call memory_capabilities false key any none []) (read_memory later key)
          (record { closed = false; inner = m1 }) (memory_call none [] refl) in
      let shown : seen (later 0) m1 key ≡ some (new_item clock m payload ttl) =
        p.1 key
        ∙ rw (str_eq_refl key, lives-expired (later 0) (new_item clock m payload ttl) false fresh)
            refl in
      (
        ap (λ w. w.0) g ∙ p.0,
        rw g (
            ap (λ w. w.0) r
            ∙ (read_memory-decided later key m1 (later 0) (omega arith)).0
            ∙ ap (λ o. mapped (λ (it : Item). (it.payload, it.tag)) (found o)) shown),
      )
