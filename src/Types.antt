-- ===== src/Types.antt =====
-- python/src/atomdoc/_types.py: positions, operations, diffs and change events; and the JSON values
-- that they carry. An ID that may be the null marker `0` is an `Option`.
use atomdoc.Prelude.Dict.{Dict}
use atomdoc.Prelude.{
  ℕ, String, ◌≡◌, ◌↔◌, Bool, true, false, ◌&&◌, Option, none, some, List, [], ◌∷◌, arith, eq_iff,
  str_eq, if◌then◌else◌,
}

-- A JSON value, as far as the package looks into it: null, a string and a list of strings (the
-- stored forms of references), or any other value by its canonical serialization.
pub data Value : Type 0 where
  null : Value
  text : String → Value
  texts : List String → Value
  other : String → Value

texts_eq : List String → List String → Bool
texts_eq [] [] = true
texts_eq (a ∷ s) (b ∷ t) = str_eq a b && texts_eq s t
texts_eq _ _ = false

-- `a == b`
unfoldable pub value_eq : Value → Value → Bool
unfolding texts_eq
value_eq null null = true
value_eq (text s) (text t) = str_eq s t
value_eq (texts s) (texts t) = texts_eq s t
value_eq (other s) (other t) = str_eq s t
value_eq _ _ = false

texts_eq_iff : (s t : List String) → (texts_eq s t ≡ true) ↔ (s ≡ t)
unfolding texts_eq
texts_eq_iff [] [] = ground arith
texts_eq_iff [] (b ∷ t) = ground arith
texts_eq_iff (a ∷ s) [] = ground arith
texts_eq_iff (a ∷ s) (b ∷ t) = ground (arith, texts_eq_iff s t, eq_iff a b)

pub value_eq_iff : (a b : Value) → (value_eq a b ≡ true) ↔ (a ≡ b)
unfolding value_eq
value_eq_iff null b = ground arith
value_eq_iff (text s) (text t) = ground (arith, eq_iff s t)
value_eq_iff (texts s) (texts t) = ground (arith, texts_eq_iff s t)
value_eq_iff (other s) (other t) = ground (arith, eq_iff s t)
value_eq_iff (text s) b = ground arith
value_eq_iff (texts s) b = ground arith
value_eq_iff (other s) b = ground arith

pub data Stage : Type 0 where
  init idle update normalize normalize2 change disposed : Stage

pub data Position : Type 0 where
  append prepend before after : Position

pub data OrderedOperation : Type 0 where
  -- nodes as (id, type), parent, slot, previous and next sibling
  insert :
      List (String × String)
      → Option String
      → String
      → Option String
      → Option String
      → OrderedOperation
  -- first and last node of the range
  delete : String → Option String → OrderedOperation
  -- the range, the new parent, slot, previous and next sibling
  move :
      String
      → Option String
      → Option String
      → String
      → Option String
      → Option String
      → OrderedOperation

abbrev pub StatePatch : Type 0
StatePatch = Dict (Dict Value)

pub record Operations : Type 0 where
  pub ordered : List OrderedOperation
  pub patches : StatePatch

abbrev pub no_operations : Operations
no_operations = record { ordered = []; patches = [] }

pub record TransactionFlags : Type 0 where
  pub skip_undo : Bool

-- `deleted` maps an ID to the node object, a reference.
pub record Diff : Type 0 where
  pub inserted : List String
  pub deleted : Dict ℕ
  pub moved : List String
  pub updated : List String

abbrev pub no_changes : Diff
no_changes = record { inserted = []; deleted = []; moved = []; updated = [] }

pub record ChangeEvent : Type 0 where
  pub operations : Operations
  pub inverse_operations : Operations
  pub diff : Diff
  pub flags : TransactionFlags

-- A null marker, or an ID that is empty, is false in Python.
abbrev pub truthy : Option String → Option String
truthy none = none
truthy (some s) = if str_eq s "" then none else some s
