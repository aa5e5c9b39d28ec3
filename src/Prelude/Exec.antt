-- ===== src/Prelude/Exec.antt =====
-- Python methods on a document: each returns or raises, and beside its outcome stands the state as it
-- left it.
use Prim.Native.Nat.{ℕ}
use mathlib.Core.Bool.{Bool, true, false}
use mathlib.Core.Option.{Option}
use mathlib.Core.List.{List, [], ◌∷◌}

-- The exceptions of the package that its own code tells apart, and the built-in ones it raises.
-- `client_error` is one that application code raises, named by a number; a `listener_error` holds
-- the numbers of the failures that it reports.
pub data Error : Type 0 where
  value_error runtime_error type_error key_error assertion_error : Error
  ref_integrity_error validation_error out_of_scope lookup_error : Error
  client_error : ℕ → Error
  listener_error : List ℕ → Error
  index_error document_not_found capability_error invalid_key value_too_large store_closed : Error
  -- the token that the store holds, if any
  stale_write : Option (List ℕ) → Error

pub data Result {ℓ} (A : Type ℓ) : Type ℓ where
  ok : A → Result A
  err : Error → Result A

abbrev pub Exec {ℓ} : Type ℓ → Type ℓ → Type ℓ
Exec S A = S → Result A × S

module _ {ℓ} {S A B : Type ℓ} where
  abbrev pub continue : Result A → (A → Exec S B) → Exec S B
  continue (ok a) f s = f a s
  continue (err e) f s = (err e, s)

  infixl 5 ◌>>=◌
  abbrev pub ◌>>=◌ : Exec S A → (A → Exec S B) → Exec S B
  ◌>>=◌ m f s = let r = m s in continue r.0 f r.1

infixl 5 ◌>>◌
abbrev pub ◌>>◌ : {S B : Type 0} → Exec S (Unit {0}) → Exec S B → Exec S B
m >> k = m >>= λ _. k

module _ {S : Type 0} where
  abbrev pub pure : {A : Type 0} → A → Exec S A
  pure a s = (ok a, s)

  abbrev pub raise : {A : Type 0} → Error → Exec S A
  raise e s = (err e, s)

  abbrev pub done : Exec S (Unit {0})
  done s = (ok tt, s)

  abbrev pub gets : {A : Type 0} → (S → A) → Exec S A
  gets f s = (ok (f s), s)

  abbrev pub modify : (S → S) → Exec S (Unit {0})
  modify f s = (ok tt, f s)

  abbrev pub require : Bool → Error → Exec S (Unit {0})
  require true e s = (ok tt, s)
  require false e s = (err e, s)

  abbrev pub lift : {A : Type 0} → Result A → Exec S A
  lift r s = (r, s)

  -- `for x in xs: body(x)`
  unfoldable pub for_each : {A : Type 0} → List A → (A → Exec S (Unit {0})) → Exec S (Unit {0})
  for_each [] body = done
  for_each (x ∷ xs) body = body x >> for_each xs body
