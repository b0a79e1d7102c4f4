-- ===== src/Documents/Query.antt =====
-- `DocumentQueryService` of app/application/use_cases/documents/document_operations.py. The storage
-- service's address of a file is the parameter `url`.
use timeline.Base.{
  ℕ, String, false, Option, none, some, List, map, is_blank, if◌then◌else◌, Outcome, ok, raise,
  ◌>>=◌, not_found,
}
use timeline.Documents.{Document}
use timeline.Documents.Repository.{get_by_id_and_tenant, get_by_subject, get_by_event, get_versions}

pub record DocumentMetadata : Type 0 where
  pub id : String
  pub tenant_id : String
  pub subject_id : String
  pub filename : String
  pub original_filename : String
  pub mime_type : String
  pub file_size : ℕ
  pub version : ℕ
  pub storage_ref : String

pub record DocumentListItem : Type 0 where
  pub id : String
  pub filename : String
  pub mime_type : String
  pub file_size : ℕ
  pub version : ℕ

abbrev pub list_item : Document → DocumentListItem
list_item d = record {
  id = d.id;
  filename = d.filename;
  mime_type = d.mime_type;
  file_size = d.file_size;
  version = d.version;
}

abbrev pub found : String → Option Document → Outcome Document
found document_id none = raise (not_found "document" document_id)
found document_id (some d) = ok d

unfoldable pub get_document_metadata : String → String → List Document → Outcome DocumentMetadata
get_document_metadata tenant document_id rows = do
  doc ← found document_id (get_by_id_and_tenant document_id tenant rows)
  ok (record {
    id = doc.id;
    tenant_id = doc.tenant_id;
    subject_id = doc.subject_id;
    filename = doc.filename;
    original_filename = doc.original_filename;
    mime_type = doc.mime_type;
    file_size = doc.file_size;
    version = doc.version;
    storage_ref = doc.storage_ref;
  })

unfoldable pub get_download_url :
    (String → Outcome String) → String → String → List Document → Outcome String
get_download_url url tenant document_id rows = do
  doc ← found document_id (get_by_id_and_tenant document_id tenant rows)
  (if is_blank doc.storage_ref
      then raise (not_found "document" document_id)
      else url doc.storage_ref)

unfoldable pub list_documents : String → String → List Document → List DocumentListItem
list_documents tenant subject_id rows = map list_item (get_by_subject subject_id tenant false rows)

unfoldable pub list_documents_by_event : String → String → List Document → List DocumentListItem
list_documents_by_event event tenant rows = map list_item (get_by_event event tenant rows)

unfoldable pub get_document_versions : String → String → List Document → Outcome (List Document)
get_document_versions document_id tenant rows = do
  doc ← found document_id (get_by_id_and_tenant document_id tenant rows)
  ok (get_versions document_id tenant rows)
