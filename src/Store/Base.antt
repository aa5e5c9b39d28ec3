-- ===== src/Store/Base.antt =====
-- _store.py: `StoreBase`, over any backend; and what it refuses before a backend is called.
use atomdoc.Prelude.{
  ℕ, String, Bool, true, false, ◌&&◌, not, Option, none, some, List, [], map, ltb, if◌then◌else◌,
  length,
}
use atomdoc.Prelude.Text.{Text}
use atomdoc.Prelude.Exec.{
  Exec, Result, ok, err, value_error, store_closed, capability_error, value_too_large, ◌>>=◌,
}
use atomdoc.Store.{
  Bytes, IfMatch, absent, any, token, Entry, StoreCapabilities, Clock, Backend, is_zero,
}
use atomdoc.Store.Keys.{check_key, check_prefix}

abbrev pub too_large : Option ℕ → Bytes → Bool
too_large none payload = false
too_large (some n) payload = ltb n (length payload)

abbrev pub some_given {ℓ} : {A : Type ℓ} → Option A → Bool
some_given none = false
some_given (some a) = true

-- the capability that a condition needs
abbrev pub unclaimed : StoreCapabilities → IfMatch → Bool
unclaimed c any = false
unclaimed c absent = not c.create_if_absent
unclaimed c (token t) = not c.compare_and_set

-- `_check`, behind `_check_open` and the check of the key
unfoldable pub check_claims : StoreCapabilities → IfMatch → Option ℕ → Bytes → Result (Unit {0})
check_claims c if_match ttl payload =
    if unclaimed c if_match
    then err capability_error
    else if some_given ttl && not c.honors_ttl
    then err capability_error
    else if is_zero ttl
    then err value_error
    else if too_large c.max_value_bytes payload
    then err value_too_large
    else ok tt

abbrev pub both : Result String → Result (Unit {0}) → Result (Unit {0})
both (err e) r = err e
both (ok k) r = r

-- `_check`; a call without data is one with none
unfoldable pub check_call :
    StoreCapabilities → Bool → String → IfMatch → Option ℕ → Bytes → Result (Unit {0})
unfolding check_key check_claims
check_call c closed key if_match ttl payload =
    if closed then err store_closed else both (check_key key) (check_claims c if_match ttl payload)

abbrev pub check_list : Bool → String → Result (Unit {0})
check_list closed prefix = if closed then err store_closed else both (check_prefix prefix) (ok tt)

-- A store that is open or closed, over the state of its backend.
pub record Store (S : Type 0) : Type 0 where
  pub closed : Bool
  pub inner : S

abbrev pub as_condition : Option Text → IfMatch
as_condition none = any
as_condition (some t) = token t

module _ {S : Type 0} where
  -- the backend's part of a call, if the checks passed
  abbrev pub guarded : {A : Type 0} → Result (Unit {0}) → Exec S A → Exec (Store S) A
  guarded (err e) f s = (err e, s)
  guarded (ok u) f s = let r = f s.inner in (r.0, record s { inner = r.1 })

  -- `aclose`, as far as the calls see it
  abbrev pub close : Store S → Store S
  close s = record s { closed = true }

  module _ (b : Backend S) (c : StoreCapabilities) (clock : Clock) where
    unfoldable pub read : String → Exec (Store S) (Bytes × Text)
    unfolding check_call
    read key s = guarded (check_call c s.closed key any none []) (b.read_item clock key) s

    unfoldable pub get : String → Exec (Store S) Bytes
    unfolding read
    get key = do r ← read key; (λ s. (ok r.0, s))

    unfoldable pub head : String → Exec (Store S) Entry
    unfolding check_call
    head key s = guarded (check_call c s.closed key any none []) (b.head_item clock key) s

    unfoldable pub put : String → Bytes → IfMatch → Option ℕ → Exec (Store S) Text
    unfolding check_call
    put key payload if_match ttl s =
        guarded (check_call c s.closed key if_match ttl payload)
          (b.put_item clock key payload if_match ttl) s

    abbrev both_claims : Result (Unit {0}) → Result (Unit {0})
    both_claims (err e) = err e
    both_claims (ok u) = if c.honors_ttl then ok u else err capability_error

    -- the part of `touch` behind the refusal of `ABSENT`
    touch_known : String → Option ℕ → Option Text → Exec (Store S) Entry
    unfolding check_call
    touch_known key ttl if_match s =
        guarded (both_claims (check_call c s.closed key (as_condition if_match) ttl []))
          (b.touch_item clock key ttl if_match) s

    unfoldable pub touch : String → Option ℕ → IfMatch → Exec (Store S) Entry
    unfolding touch_known
    touch key ttl absent s = (err value_error, s)
    touch key ttl any s = touch_known key ttl none s
    touch key ttl (token t) s = touch_known key ttl (some t) s

    unfoldable pub delete : String → IfMatch → Exec (Store S) Bool
    unfolding check_call
    delete key if_match s =
        guarded (check_call c s.closed key if_match none []) (b.delete_item clock key if_match) s

    unfoldable pub list_entries : String → Exec (Store S) (List Entry)
    unfolding check_prefix
    list_entries prefix s = guarded (check_list s.closed prefix) (b.list_items clock prefix) s

    unfoldable pub list_keys : String → Exec (Store S) (List String)
    unfolding list_entries
    list_keys prefix = do es ← list_entries prefix; (λ s. (ok (map (λ (e : Entry). e.key) es), s))
