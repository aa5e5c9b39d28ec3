-- ===== src/Store.antt =====
-- python/src/atomdoc/_store.py: what every store checks, over a backend; its children are the rules for
-- keys, and the store in memory. Bytes are numbers, times are whole seconds, and a `ttl` that is not
-- positive is written 0. An iteration over entries is the list of what it yields.
pub mod Keys
pub mod Prefixes
pub mod Roundtrip
pub mod Decimal
pub mod Memory
pub mod Base
pub mod Evolution
pub mod Tokens
pub mod Views
pub mod Decided
pub mod Refines
pub mod Listing
mod Examples
use atomdoc.Prelude.{
  ℕ, zero, suc, ◌+◌, ◌-◌, ◌*◌, ◌/◌, ◌%◌, ◌≤◌, ◌<◌, String, ◌≡◌, refl, sym, ap, ◌∙◌, ◌≢◌, ◌↔◌, ◌⊎◌,
  inl, inr, Bool, true, false, ◌&&◌, ◌||◌, not, Option, none, some, List, [], ◌∷◌, ◌++◌, map,
  reverse, arith, eq_iff, ltb, leb, ◌==◌, str_eq, if◌then◌else◌, ==_iff, str_eq_refl, Bool-cases,
  Option-cases, if_elim, length, is_empty, take, drop, replicate, All, All-append,
}
use atomdoc.Prelude.Text.{Text}
use atomdoc.Prelude.Exec.{Exec, Result, ok, err, Error, value_error}

abbrev pub Bytes : Type 0
Bytes = List ℕ

-- `if_match`: no condition, `ABSENT`, or a token
pub data IfMatch : Type 0 where
  any absent : IfMatch
  token : Text → IfMatch

pub record Entry : Type 0 where
  pub key : String
  pub token : Text
  pub size : ℕ
  pub modified : Option ℕ
  pub expires_at : Option ℕ

pub record StoreCapabilities : Type 0 where
  pub atomic_put : Bool
  pub durable : Bool
  pub honors_ttl : Bool
  pub compare_and_set : Bool
  pub create_if_absent : Bool
  pub token_is_write_unique : Bool
  pub strong_list : Bool
  pub max_value_bytes : Option ℕ
  pub expires_unasked_after : Option ℕ

abbrev pub is_zero : Option ℕ → Bool
is_zero none = false
is_zero (some n) = n == 0

-- `StoreCapabilities.__post_init__`: claims that cannot hang together are refused
unfoldable pub check_capabilities : StoreCapabilities → Result StoreCapabilities
check_capabilities c =
    if c.compare_and_set && not c.token_is_write_unique
    then err value_error
    else if is_zero c.max_value_bytes
    then err value_error
    else if is_zero c.expires_unasked_after
    then err value_error
    else ok c

-- The readings of the clock in one call, in order.
abbrev pub Clock : Type 0
Clock = ℕ → ℕ

-- What a backend implements, on its state.
pub record Backend (S : Type 0) : Type 0 where
  pub read_item : Clock → String → Exec S (Bytes × Text)
  pub head_item : Clock → String → Exec S Entry
  pub put_item : Clock → String → Bytes → IfMatch → Option ℕ → Exec S Text
  pub touch_item : Clock → String → Option ℕ → Option Text → Exec S Entry
  pub delete_item : Clock → String → IfMatch → Exec S Bool
  pub list_items : Clock → String → Exec S (List Entry)
