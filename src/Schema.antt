-- ===== src/Schema.antt =====
-- Node classes as the document reads them: what `AtomNode.__init_subclass__` leaves on a class.
-- The validation of a value by a field's adapter (pydantic) is a function that the class carries.
use atomdoc.Prelude.Dict.{Dict}
use atomdoc.Prelude.{String, Bool, true, Option, List, [], ◌∷◌}
use atomdoc.Prelude.Exec.{Result}
use atomdoc.Types.{Value}

-- A reference field's declaration; `target` is the type name of its target, if any is declared.
pub record RefDef : Type 0 where
  pub target : Option String
  pub many : Bool
  pub optional : Bool

pub record FieldDef : Type 0 where
  -- `_field_defaults[name]`, with `none` for the sentinel `_MISSING`
  pub default : Option Value
  -- `_field_adapters[name].validate_python`
  pub validate : Value → Result Value
  -- `_ref_defs.get(name)`
  pub ref_def : Option RefDef

pub record NodeClass : Type 0 where
  pub node_type : String
  -- the node types of the classes that it is a subclass of, its own among them
  pub bases : List String
  pub fields : Dict FieldDef
  -- `_slot_defs`, in slot order: the node types that a slot's `allowed_type` names, or none for any
  pub slots : Dict (List String)
  -- `_validate_node`: the class's validator and constraint models, over the state
  pub check_model : Dict Value → Bool

-- A class that is not registered has no fields and no slots.
abbrev pub bare_class : String → NodeClass
bare_class name = record {
  node_type = name;
  bases = name ∷ [];
  fields = [];
  slots = [];
  check_model = λ _. true;
}
