-- ===== src/Subjects/Service.antt =====
-- `SubjectService` of app/application/use_cases/subjects/subject_operations.py, with the look-up of
-- app/infrastructure/persistence/repositories/subject_type_repo.py and the validator of
-- app/application/services/subject_type_schema_validator.py.
--
-- `conforms` stands for jsonschema. The repositories are made for the tenant `scope`. Deleting a
-- subject is in the module Erasure.
use timeline.Base.{
  ℕ, String, Bool, true, false, not, ◌&&◌, Option, none, some, List, [], Dict, find, is_some,
  is_blank, strip, if◌then◌else◌, ◌==◌, Outcome, ok, raise, raise_if, ◌>>◌, ◌>>=◌, validation,
  not_found, schema_validation,
}
use timeline.Values.Slug
use timeline.Values.Slug.{codes}
use timeline.Subjects
use timeline.Subjects.{
  Subject, SubjectResult, option_or, or_none, get_by_id_and_tenant, get_by_external_ref,
  get_by_type, get_by_tenant,
}

-- The columns of a configured type that the service reads.
pub record SubjectTypeConfig (S : Type 0) : Type 0 where
  pub tenant_id : String
  pub type_name : String
  pub schema : Option S
  pub is_active : Bool

unfoldable pub get_by_tenant_and_type :
    {S : Type 0} → String → String → List (SubjectTypeConfig S) → Option (SubjectTypeConfig S)
get_by_tenant_and_type tenant type =
    find (λ c. c.tenant_id == tenant && c.type_name == type && c.is_active)

module _ {V S : Type 0} (conforms : S → Dict V → Bool) where
  abbrev pub check_config : String → Dict V → Option (SubjectTypeConfig S) → Outcome (Unit {0})
  check_config type attributes none = ok tt
  check_config type attributes (some c) = elim c.schema [
    | none ↦ ok tt
    | some schema ↦ raise_if (not (conforms schema attributes)) (schema_validation type)
  ]

  unfoldable pub validate_attributes :
      List (SubjectTypeConfig S) → String → String → Dict V → Outcome (Unit {0})
  validate_attributes types tenant type attributes =
      check_config type attributes (get_by_tenant_and_type tenant type types)

-- `_resolve_type`: a ValueError is raised again as a validation error.
abbrev pub typed : String → Outcome (List ℕ) → Outcome (String × Bool)
typed type (ok value) = ok (type, false)
typed type (raise e) = raise (validation "subject_type")

module _ {S : Type 0} where
  abbrev pub resolve_config : String → Option (SubjectTypeConfig S) → Outcome (String × Bool)
  resolve_config type (some c) = ok (c.type_name, true)
  resolve_config type none = typed type (Slug.subject_type (codes type))

  unfoldable pub resolve_type :
      List (SubjectTypeConfig S) → String → String → Outcome (String × Bool)
  resolve_type types tenant type = resolve_config type (get_by_tenant_and_type tenant type types)

-- `external_ref and external_ref.strip()`, stripped; and the reference that is stored.
unfoldable pub ref_of : Option String → Option String
ref_of none = none
ref_of (some ref) = or_none (strip ref)

module _ {V : Type 0} where
  abbrev pub check_ref : String → String → Option String → List (Subject V) → Outcome (Unit {0})
  check_ref scope tenant none rows = ok tt
  check_ref scope tenant (some ref) rows = do
    existing ← get_by_external_ref scope tenant ref rows
    raise_if (is_some existing) (validation "external_ref")

  abbrev pub found : String → Option (SubjectResult V) → Outcome (SubjectResult V)
  found subject_id none = raise (not_found "subject" subject_id)
  found subject_id (some s) = ok s

  unfoldable pub get_subject :
      String → String → String → List (Subject V) → Outcome (SubjectResult V)
  get_subject scope tenant subject_id rows =
      get_by_id_and_tenant scope subject_id tenant rows >>= found subject_id

  abbrev pub updated :
      String
      → List (Subject V) × Outcome (Option (SubjectResult V))
      → List (Subject V) × Outcome (SubjectResult V)
  updated subject_id (rows, answer) = (rows, answer >>= found subject_id)

module _ {V S : Type 0} where
  unfoldable pub list_subjects :
      List (SubjectTypeConfig S)
      → String
      → String
      → ℕ
      → ℕ
      → Option String
      → List (Subject V)
      → Outcome (List (SubjectResult V))
  list_subjects types scope tenant skip limit none rows = get_by_tenant scope tenant skip limit rows
  list_subjects types scope tenant skip limit (some type) rows =
      if is_blank type
      then get_by_tenant scope tenant skip limit rows
      else (resolve_type types tenant type >>= λ resolved.
          get_by_type scope tenant resolved.0 skip limit rows)

module _ {V S : Type 0} (conforms : S → Dict V → Bool) where
  -- The checks, and the type that is stored.
  unfoldable pub check_create :
      List (SubjectTypeConfig S)
      → Bool
      → String
      → String
      → String
      → Option String
      → Option (Dict V)
      → List (Subject V)
      → Outcome String
  check_create types has_validator scope tenant type ref attributes rows = do
    resolved ← resolve_type types tenant type
    (if resolved.1 && has_validator
        then validate_attributes conforms types tenant type (option_or attributes [])
        else ok tt)
    check_ref scope tenant (ref_of ref) rows
    ok resolved.0

  abbrev pub create_checked :
      String
      → ℕ
      → String
      → String
      → Outcome String
      → Option String
      → Option String
      → Option (Dict V)
      → List (Subject V)
      → List (Subject V) × Outcome (SubjectResult V)
  create_checked new_id now scope tenant (raise e) ref display_name attributes rows =
      (rows, raise e)
  create_checked new_id now scope tenant (ok type) ref display_name attributes rows =
      Subjects.create_subject new_id now scope tenant type (ref_of ref) display_name attributes rows

  unfoldable pub create_subject :
      List (SubjectTypeConfig S)
      → Bool
      → String
      → ℕ
      → String
      → String
      → String
      → Option String
      → Option String
      → Option (Dict V)
      → List (Subject V)
      → List (Subject V) × Outcome (SubjectResult V)
  create_subject types has_validator new_id now scope tenant type ref display_name attributes rows =
      create_checked new_id now scope tenant
        (check_create types has_validator scope tenant type ref attributes rows) ref display_name
        attributes rows

  abbrev pub check_subject :
      List (SubjectTypeConfig S) → String → Dict V → Option (SubjectResult V) → Outcome (Unit {0})
  check_subject types tenant attributes none = ok tt
  check_subject types tenant attributes (some s) =
      validate_attributes conforms types tenant s.subject_type attributes

  unfoldable pub check_update :
      List (SubjectTypeConfig S)
      → Bool
      → String
      → String
      → String
      → Option (Dict V)
      → List (Subject V)
      → Outcome (Unit {0})
  check_update types has_validator scope tenant subject_id none rows = ok tt
  check_update types has_validator scope tenant subject_id (some attributes) rows =
      if has_validator
      then (get_by_id_and_tenant scope subject_id tenant rows
          >>= check_subject types tenant attributes)
      else ok tt

  abbrev pub update_checked :
      String
      → String
      → String
      → Outcome (Unit {0})
      → Option String
      → Option String
      → Option (Dict V)
      → List (Subject V)
      → List (Subject V) × Outcome (SubjectResult V)
  update_checked scope tenant subject_id (raise e) ref display_name attributes rows =
      (rows, raise e)
  update_checked scope tenant subject_id (ok done) ref display_name attributes rows =
      updated subject_id
        (Subjects.update_subject scope tenant subject_id ref display_name attributes rows)

  unfoldable pub update_subject :
      List (SubjectTypeConfig S)
      → Bool
      → String
      → String
      → String
      → Option String
      → Option String
      → Option (Dict V)
      → List (Subject V)
      → List (Subject V) × Outcome (SubjectResult V)
  update_subject types has_validator scope tenant subject_id ref display_name attributes rows =
      update_checked scope tenant subject_id
        (check_update types has_validator scope tenant subject_id attributes rows) ref display_name
        attributes rows
