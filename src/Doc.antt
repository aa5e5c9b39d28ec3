-- ===== src/Doc.antt =====
-- python/src/atomdoc/_doc.py and the modules that work on a document. Here: the state of a document
-- with its node objects, and what is read off a node. A node object is a reference; an object that
-- was created is below `allocated`.
pub mod Refs
pub mod Traverse
pub mod Record
pub mod Inserts
pub mod Deletes
pub mod Env
pub mod Commit
pub mod Transaction
pub mod Insert
pub mod Range
pub mod Ordered
pub mod Patches
pub mod Apply
pub mod Lifecycle
pub mod Nested
pub mod Kept
pub mod Silence
pub mod Replay
pub mod Refusal
pub mod Fields
pub mod Notify
pub mod Walks
pub mod Integrity
pub mod Linking
pub mod Before
pub mod Moving
pub mod Deleting
mod Examples
use atomdoc.Prelude.Dict.{Dict, lookup}
use atomdoc.Prelude.{
  ℕ, zero, suc, ◌+◌, ◌-◌, ◌*◌, ◌/◌, ◌%◌, ◌≤◌, ◌<◌, String, ◌≡◌, refl, sym, ap, ◌∙◌, ◌≢◌, ◌↔◌, ◌⊎◌,
  inl, inr, Bool, true, false, ◌&&◌, ◌||◌, not, Option, none, some, List, [], ◌∷◌, ◌++◌, map,
  reverse, arith, eq_iff, ltb, leb, ◌==◌, str_eq, if◌then◌else◌, ==_iff, str_eq_refl, Bool-cases,
  Option-cases, length, replicate, All, All-append,
}
use atomdoc.Prelude.Exec.{Exec, Result, ok, err, Error, value_error, runtime_error, ◌>>=◌, ◌>>◌}
use atomdoc.Types.{
  value_eq, Value, Operations, no_operations, TransactionFlags, Diff, no_changes, ChangeEvent,
  Stage,
}
use atomdoc.Schema.{NodeClass, FieldDef, bare_class}
use atomdoc.Links.{Ref, Links, reset_links}

-- `AtomNode`, but for its links. `doc_ref` names the document that the object belongs to.
pub record Obj : Type 0 where
  pub id : String
  pub node_class : NodeClass
  pub state : Dict Value
  pub doc_ref : ℕ

-- What a transaction records.
pub record Tx : Type 0 where
  pub operations : Operations
  pub inverse_operations : Operations
  pub flags : TransactionFlags
  pub diff : Diff

abbrev pub no_flags : TransactionFlags
no_flags = record { skip_undo = false }

abbrev pub empty_tx : Tx
empty_tx = record {
  operations = no_operations;
  inverse_operations = no_operations;
  flags = no_flags;
  diff = no_changes;
}

-- Listeners are named by numbers. `heard` collects the events that were handed to change listeners,
-- the last one first: the calls that leave the document.
pub record Doc : Type 0 where
  pub self : ℕ
  pub node_types : Dict NodeClass
  pub root : Ref
  pub objects : Ref → Obj
  pub links : Links
  pub allocated : ℕ
  pub node_map : Dict Ref
  pub graveyard : Dict Ref
  pub tree_version : ℕ
  -- target ID to the referrers, as (id, field)
  pub ref_index : Dict (List (String × String))
  pub strict_mode : Bool
  pub stage : Stage
  pub tx : Tx
  pub change_listeners : List ℕ
  pub normalize_listeners : List ℕ
  pub heard : List (ℕ × ChangeEvent)

abbrev pub stage_eq : Stage → Stage → Bool
stage_eq Stage.init Stage.init = true
stage_eq Stage.idle Stage.idle = true
stage_eq Stage.update Stage.update = true
stage_eq Stage.normalize Stage.normalize = true
stage_eq Stage.normalize2 Stage.normalize2 = true
stage_eq Stage.change Stage.change = true
stage_eq Stage.disposed Stage.disposed = true
stage_eq _ _ = false

module _ (d : Doc) where
  abbrev pub id_of : Ref → String
  id_of x = (d.objects x).id

  abbrev pub class_of : Ref → NodeClass
  class_of x = (d.objects x).node_class

  abbrev pub state_of : Ref → Dict Value
  state_of x = (d.objects x).state

  -- `get_node_by_id`
  unfoldable pub get_node_by_id : String → Option Ref
  get_node_by_id i = lookup d.node_map i

  -- `_field_defaults.get(key, _MISSING)`
  unfoldable pub default_of : Ref → String → Option Value
  default_of x key = elim (lookup (class_of x).fields key) [ none ↦ none | some f ↦ f.default ]

  -- `_state_key_to_json`
  unfoldable pub state_key_to_json : Ref → String → Value
  unfolding default_of
  state_key_to_json x key = elim (lookup (state_of x) key) [
    | some v ↦ v
    | none ↦ elim (default_of x key) [ none ↦ Value.null | some v ↦ v ]
  ]

  -- `_state_to_json`: the fields that differ from their default
  changed_fields : Ref → Dict Value → Dict Value
  changed_fields x [] = []
  changed_fields x ((key, v) ∷ rest) =
      let more = changed_fields x rest in
      elim (default_of x key) [
        | none ↦ (key, v) ∷ more
        | some w ↦ if value_eq v w then more else (key, v) ∷ more
      ]

  unfoldable pub state_to_json : Ref → Dict Value
  unfolding changed_fields default_of
  state_to_json x = changed_fields x (state_of x)

  unfoldable pub set_state : Ref → Dict Value → Doc
  set_state x s = record d {
    objects = λ y. if x == y then record (d.objects x) { state = s } else d.objects y;
  }

  -- `_check_live`
  unfoldable pub check_live : Ref → Result (Unit {0})
  check_live x = elim (lookup d.node_map (id_of x)) [
    | none ↦ err runtime_error
    | some live ↦ if live == x then ok tt else err runtime_error
  ]

  unfoldable pub close_transaction : Doc
  close_transaction = record d { tx = empty_tx; stage = Stage.idle }
