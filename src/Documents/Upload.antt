-- ===== src/Documents/Upload.antt =====
-- Uploading a document: `DocumentUploadService` of
-- app/application/use_cases/documents/document_operations.py.
--
-- A call takes the document table and gives the table after it with its result. Parameters: the
-- other repositories' answers, `digest` for hashlib's digest and the size of a file, `store` for the
-- storage service, and `str`. Between the reading of the parent and the conditional update another
-- session may commit: `between`. Rewinding the stream is left out.
pub mod Versions
pub mod Linear
pub mod Answers
use timeline.Base.{
  ℕ, ◌+◌, String, Bool, true, false, Option, none, some, List, is_some, Error, Outcome, ok, raise,
  raise_if, ◌>>◌, ◌>>=◌, not_found, validation, version_conflict, is_blank, if◌then◌else◌,
}
use timeline.Documents.{Document}
use timeline.Documents.Repository.{
  DocumentCreate, create_document, get_by_id_and_tenant, get_by_checksum,
  mark_parent_not_latest_if_current,
}
use timeline.Documents.Filename.{generate_storage_ref}

pub record Upload (F : Type 0) : Type 0 where
  -- `metadata_validator.validate_metadata`, if there is a validator
  pub metadata_validator : Option (String → String → String → Outcome (Unit {0}))
  -- the tenant's code
  pub tenant : String → Option String
  -- whether the subject is one of the tenant, if there is a subject repository
  pub subject : Option (String → String → Bool)
  pub digest : F → String × ℕ
  pub store : F → String → String → Outcome (Unit {0})
  pub str : ℕ → String

pub record Request (F : Type 0) : Type 0 where
  pub tenant_id : String
  pub subject_id : String
  pub file_data : F
  pub filename : String
  pub original_filename : String
  pub mime_type : String
  pub document_type : String
  pub event_id : Option String
  pub created_by : Option String
  pub parent_document_id : Option String
  pub metadata : Option String

-- `if parent_document_id:`
abbrev pub named : Option String → Option String
named none = none
named (some p) = if is_blank p then none else some p

abbrev pub claimed : String → ℕ → List Document × Bool → List Document × Outcome ℕ
claimed parent version (rows, true) = (rows, ok (version + 1))
claimed parent version (rows, false) = (rows, raise (version_conflict parent))

abbrev pub claim_found :
    (List Document → List Document)
    → String
    → Option Document
    → List Document
    → List Document × Outcome ℕ
claim_found between parent none rows = (rows, raise (not_found "document" parent))
claim_found between parent (some d) rows =
    claimed parent d.version (mark_parent_not_latest_if_current parent d.version (between rows))

abbrev pub claim_named :
    (List Document → List Document)
    → String
    → Option String
    → List Document
    → List Document × Outcome ℕ
claim_named between tenant none rows = (rows, ok 1)
claim_named between tenant (some parent) rows =
    claim_found between parent (get_by_id_and_tenant parent tenant rows) rows

module _ {F : Type 0} (svc : Upload F) where
  abbrev pub check_metadata : Request F → Outcome (Unit {0})
  check_metadata r = elim r.metadata [
    | none ↦ ok tt
    | some m ↦ elim svc.metadata_validator [
      | none ↦ ok tt
      | some validate ↦ validate r.tenant_id r.document_type m
    ]
  ]

  abbrev pub tenant_code : Request F → Outcome String
  tenant_code r = elim (svc.tenant r.tenant_id) [
    | none ↦ raise (not_found "tenant" r.tenant_id)
    | some code ↦ ok code
  ]

  abbrev pub check_subject : Request F → Outcome (Unit {0})
  check_subject r = elim svc.subject [
    | none ↦ ok tt
    | some exists ↦
        if exists r.subject_id r.tenant_id then ok tt else raise (not_found "subject" r.subject_id)
  ]

  -- The checks before the table is written, and the tenant's code.
  unfoldable pub check_request : Request F → List Document → Outcome String
  check_request r rows = do
    check_metadata r
    code ← tenant_code r
    check_subject r
    raise_if (is_some (get_by_checksum r.tenant_id (svc.digest r.file_data).0 rows))
        (validation "checksum")
    ok code

  -- The version of the new document; its parent stops being the latest.
  unfoldable pub claim_parent :
      (List Document → List Document) → Request F → List Document → List Document × Outcome ℕ
  claim_parent between r rows = claim_named between r.tenant_id (named r.parent_document_id) rows

  abbrev pub create_dto : String → Request F → ℕ → String → DocumentCreate
  create_dto new_id r version storage_ref = record {
    id = new_id;
    tenant_id = r.tenant_id;
    subject_id = r.subject_id;
    event_id = r.event_id;
    document_type = r.document_type;
    filename = r.filename;
    original_filename = r.original_filename;
    mime_type = r.mime_type;
    file_size = (svc.digest r.file_data).1;
    checksum = (svc.digest r.file_data).0;
    storage_ref = storage_ref;
    version = version;
    parent_document_id = r.parent_document_id;
    created_by = r.created_by;
    metadata = none;
  }

  -- The storage path of the file, once it is stored there.
  abbrev pub store_file : String → String → Request F → ℕ → Outcome String
  store_file code new_id r version = do
    storage_ref ← generate_storage_ref svc.str code new_id version r.filename
    svc.store r.file_data storage_ref (svc.digest r.file_data).0
    ok storage_ref

  abbrev pub create_stored :
      ℕ → String → Request F → ℕ → Outcome String → List Document → List Document × Outcome Document
  create_stored now new_id r version (raise e) rows = (rows, raise e)
  create_stored now new_id r version (ok storage_ref) rows =
      create_document now (create_dto new_id r version storage_ref) rows

  unfoldable pub upload_claimed :
      ℕ → String → Request F → String → List Document × Outcome ℕ → List Document × Outcome Document
  upload_claimed now new_id r code (rows, raise e) = (rows, raise e)
  upload_claimed now new_id r code (rows, ok version) =
      create_stored now new_id r version (store_file code new_id r version) rows

  abbrev pub upload_checked :
      ℕ
      → String
      → (List Document → List Document)
      → Request F
      → Outcome String
      → List Document
      → List Document × Outcome Document
  upload_checked now new_id between r (raise e) rows = (rows, raise e)
  upload_checked now new_id between r (ok code) rows =
      upload_claimed now new_id r code (claim_parent between r rows)

  unfoldable pub upload_document :
      ℕ
      → String
      → (List Document → List Document)
      → Request F
      → List Document
      → List Document × Outcome Document
  upload_document now new_id between r rows =
      upload_checked now new_id between r (check_request r rows) rows
