-- ===== src/Subjects/Erasure.antt =====
-- Deleting, exporting and erasing a subject: `SubjectRepository.delete_subject` and
-- `SubjectService.delete_subject`, and
-- app/application/use_cases/subjects/subject_export_erasure.py.
--
-- The rules of the foreign keys to a subject are those of the migrations (versions/6cb0887d08e6 and
-- ba0e2857597d): deleting the row of a subject removes its relationships with it, and is refused
-- while an event, a document or an e-mail account refers to the subject. The other tables that
-- cascade are left out. The event table is that of all subjects but the audit subjects, whose events
-- are the audit entries (Audit), and the subject of a call is no audit subject. Exported datetimes are instants.
pub mod Anonymize
pub mod Delete
use timeline.Base.{
  ℕ, String, Bool, true, false, not, ◌&&◌, ◌||◌, Option, none, some, List, [], ◌∷◌, ◌++◌, map, Dict,
  select, any, contains, is_none, opt_eq, if◌then◌else◌, ◌==◌, Error, Outcome, ok, raise, ◌>>=◌,
  not_found, integrity,
}
use timeline.Events.Row.{EventResult}
use timeline.Events.Store.{Table, get_by_subject}
use timeline.Documents.{Document, soft_delete}
use timeline.Documents.Repository
use timeline.Subjects.Audit.{Audit, audit, updated, deleted}
use timeline.Subjects.{
  Subject, SubjectResult, get_entity_by_id_and_tenant, get_by_id_and_tenant, update_subject,
}
use timeline.Subjects.Relations.{Relationship}

pub record Records (V : Type 0) : Type 0 where
  pub subjects : List (Subject V)
  pub documents : List Document
  pub links : List (Relationship V)
  pub events : Table V
  -- the subject of each e-mail account
  pub email_accounts : List String
  pub audits : List Audit

pub data ErasureStrategy : Type 0 where
  anonymize : ErasureStrategy
  delete : ErasureStrategy

pub record ExportedEvent (V : Type 0) : Type 0 where
  pub id : String
  pub subject_id : String
  pub event_type : String
  pub schema_version : ℕ
  pub event_time : ℕ
  pub payload : Dict V

pub record ExportedDocument : Type 0 where
  pub id : String
  pub subject_id : String
  pub event_id : Option String
  pub document_type : String
  pub filename : String
  pub original_filename : String
  pub mime_type : String
  pub file_size : ℕ
  pub version : ℕ

pub record SubjectExportResult (V : Type 0) : Type 0 where
  pub subject : SubjectResult V
  pub events : List (ExportedEvent V)
  pub documents : List ExportedDocument
  pub exported_at : ℕ

-- `_document_to_export_dict`
abbrev pub document_to_export_dict : Document → ExportedDocument
document_to_export_dict d = record {
  id = d.id;
  subject_id = d.subject_id;
  event_id = d.event_id;
  document_type = d.document_type;
  filename = d.filename;
  original_filename = d.original_filename;
  mime_type = d.mime_type;
  file_size = d.file_size;
  version = d.version;
}

abbrev pub of_subject : String → Document → Bool
of_subject subject_id d = d.subject_id == subject_id

-- `for doc in docs: if doc.deleted_at is None: soft_delete(doc.id, tenant_id)`
unfoldable pub erase_documents : String → ℕ → List Document → List Document → List Document
erase_documents tenant now [] rows = rows
erase_documents tenant now (d ∷ docs) rows =
    erase_documents tenant now docs
      (if is_none d.deleted_at then soft_delete d.id tenant now rows else rows)

-- The audit entries of the loop: `soft_delete` leaves the entry for the update out.
abbrev pub erased_audits : String → List Document → List Audit
erased_audits tenant docs =
    map (λ d. audit tenant "document" deleted)
      (select (λ (d : Document). is_none d.deleted_at) docs)

abbrev pub redacted : String
redacted = "[REDACTED]"

module _ {V : Type 0} where
  -- `_event_to_export_dict`
  abbrev pub event_to_export_dict : EventResult V → ExportedEvent V
  event_to_export_dict e = record {
    id = e.id;
    subject_id = e.subject_id;
    event_type = e.event_type;
    schema_version = e.schema_version;
    event_time = e.event_time;
    payload = e.payload;
  }

  -- What a subject's deletion leaves.
  abbrev pub without_subject : String → String → Records V → Records V
  without_subject tenant subject_id db = record {
    subjects = select (λ s. not (s.id == subject_id)) db.subjects;
    documents = db.documents;
    links =
        select (λ r. not (r.source_subject_id == subject_id || r.target_subject_id == subject_id))
          db.links;
    events = db.events;
    email_accounts = db.email_accounts;
    audits = db.audits ++ audit tenant "subject" deleted ∷ [];
  }

  -- A foreign key without a rule for deletion refuses it.
  unfoldable pub is_referenced : String → Records V → Bool
  is_referenced subject_id db =
      any (λ (e : EventResult V). e.subject_id == subject_id) db.events
      || contains db.email_accounts subject_id
      || any (of_subject subject_id) db.documents

  abbrev pub delete_found : String → Option (Subject V) → Records V → Records V × Outcome Bool
  delete_found subject_id none db = (db, ok false)
  delete_found subject_id (some s) db =
      if is_referenced subject_id db
      then (db, raise integrity)
      else (without_subject s.tenant_id subject_id db, ok true)

  -- `SubjectRepository.delete_subject`
  unfoldable pub delete_row : String → String → String → Records V → Records V × Outcome Bool
  delete_row scope tenant subject_id db =
      delete_found subject_id (get_entity_by_id_and_tenant scope subject_id tenant db.subjects) db

  abbrev pub deleted_or_missing : String → Records V × Outcome Bool → Records V × Outcome (Unit {0})
  deleted_or_missing subject_id (db, raise e) = (db, raise e)
  deleted_or_missing subject_id (db, ok true) = (db, ok tt)
  deleted_or_missing subject_id (db, ok false) = (db, raise (not_found "subject" subject_id))

  -- `SubjectService.delete_subject`
  unfoldable pub delete_subject :
      String → String → String → Records V → Records V × Outcome (Unit {0})
  delete_subject scope tenant subject_id db =
      deleted_or_missing subject_id (delete_row scope tenant subject_id db)

  -- `get_by_subject(include_deleted=True)`, then the loop.
  abbrev pub erase_all_documents : String → String → ℕ → Records V → Records V
  erase_all_documents tenant subject_id now db = record db {
    documents =
        erase_documents tenant now (Repository.get_by_subject subject_id tenant true db.documents)
          db.documents;
    audits =
        db.audits
        ++ erased_audits tenant (Repository.get_by_subject subject_id tenant true db.documents);
  }

  -- The repository's entry, if the subject was found.
  abbrev pub updated_audits : String → Option (SubjectResult V) → List Audit
  updated_audits tenant none = []
  updated_audits tenant (some s) = audit tenant "subject" updated ∷ []

  abbrev pub anonymized :
      String
      → String
      → ℕ
      → Records V
      → List (Subject V) × Outcome (Option (SubjectResult V))
      → Records V × Outcome (Unit {0})
  anonymized tenant subject_id now db (subjects, raise e) =
      (record db { subjects = subjects }, raise e)
  anonymized tenant subject_id now db (subjects, ok s) = (
    erase_all_documents tenant subject_id now
        (record db { subjects = subjects; audits = db.audits ++ updated_audits tenant s }),
    ok tt,
  )

  abbrev pub ignored : Records V × Outcome Bool → Records V × Outcome (Unit {0})
  ignored (db, raise e) = (db, raise e)
  ignored (db, ok found) = (db, ok tt)

  unfoldable pub erase_by :
      ErasureStrategy → String → String → String → ℕ → Records V → Records V × Outcome (Unit {0})
  erase_by anonymize scope tenant subject_id now db =
      anonymized tenant subject_id now db (
        update_subject scope tenant subject_id (some redacted) (some redacted) (some [])
          db.subjects)
  erase_by delete scope tenant subject_id now db =
      ignored (delete_row scope tenant subject_id (erase_all_documents tenant subject_id now db))

  abbrev pub erase_found :
      ErasureStrategy
      → String
      → String
      → String
      → ℕ
      → Outcome (Option (SubjectResult V))
      → Records V
      → Records V × Outcome (Unit {0})
  erase_found strategy scope tenant subject_id now (raise e) db = (db, raise e)
  erase_found strategy scope tenant subject_id now (ok none) db =
      (db, raise (not_found "subject" subject_id))
  erase_found strategy scope tenant subject_id now (ok (some s)) db =
      erase_by strategy scope tenant subject_id now db

  unfoldable pub erase_subject_data :
      ErasureStrategy → String → String → String → ℕ → Records V → Records V × Outcome (Unit {0})
  erase_subject_data strategy scope tenant subject_id now db =
      erase_found strategy scope tenant subject_id now
        (get_by_id_and_tenant scope subject_id tenant db.subjects) db

  abbrev pub exported :
      String → String → ℕ → Records V → Option (SubjectResult V) → Outcome (SubjectExportResult V)
  exported tenant subject_id now db none = raise (not_found "subject" subject_id)
  exported tenant subject_id now db (some s) = ok (record {
    subject = s;
    events = map event_to_export_dict (get_by_subject subject_id tenant 0 10000 db.events);
    documents =
        map document_to_export_dict
          (Repository.get_by_subject subject_id tenant false db.documents);
    exported_at = now;
  })

  unfoldable pub export_subject_data :
      String → String → String → ℕ → Records V → Outcome (SubjectExportResult V)
  export_subject_data scope tenant subject_id now db =
      get_by_id_and_tenant scope subject_id tenant db.subjects >>= exported tenant subject_id now db
