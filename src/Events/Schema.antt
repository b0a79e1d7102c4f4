-- ===== src/Events/Schema.antt =====
-- `EventSchemaValidator` of app/application/services/event_schema_validator.py. `jsonschema` is not
-- code of the repository: the parameter `conforms` says whether `validate` returns.
use timeline.Base.{
  ℕ, String, Bool, not, ◌&&◌, Option, none, some, List, Dict, is_empty, contains, Outcome, raise,
  raise_if, not_found, schema_validation, ◌>>◌, false,
}

-- The fields of `EventSchemaResult` that the validator reads.
pub record EventSchema (S : Type 0) : Type 0 where
  pub definition : S
  pub is_active : Bool
  pub allowed_subject_types : Option (List String)

-- `subject_type is not None and allowed and subject_type not in allowed`
abbrev pub type_refused : Option (List String) → Option String → Bool
type_refused (some allowed) (some type) = not (is_empty allowed) && not (contains allowed type)
type_refused _ _ = false

module _ {V S : Type 0} (conforms : S → Dict V → Bool) where
  abbrev check_schema :
      String → Option String → Dict V → Option (EventSchema S) → Outcome (Unit {0})
  check_schema schema_id subject_type payload none = raise (not_found "event_schema" schema_id)
  check_schema schema_id subject_type payload (some schema) = do
    raise_if (not schema.is_active) (schema_validation schema_id)
    raise_if (type_refused schema.allowed_subject_types subject_type) (schema_validation schema_id)
    raise_if (not (conforms schema.definition payload)) (schema_validation schema_id)

  -- `get_by_version` reads the schema table: `schemas tenant event_type version`. The version's
  -- text in the schema id is left out.
  unfoldable pub validate_payload :
      (String → String → ℕ → Option (EventSchema S))
      → String
      → String
      → ℕ
      → Dict V
      → Option String
      → Outcome (Unit {0})
  validate_payload schemas tenant event_type version payload subject_type =
      check_schema event_type subject_type payload (schemas tenant event_type version)
