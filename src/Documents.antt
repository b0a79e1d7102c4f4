-- ===== src/Documents.antt =====
-- Document retention: app/application/use_cases/documents/run_retention.py, with the listing and
-- the soft deletion of app/infrastructure/persistence/repositories/document_repo.py.
--
-- Metadata is its JSON text. Times are in microseconds, and the cutoff stops at the epoch. The paging loop has fuel for two passes more than there are rows; every pass
-- but the last deletes a full page.
pub mod Deletion
pub mod Retention
pub mod Repository
pub mod Query
pub mod Filename
pub mod Upload
use timeline.Base.{
  ℕ, zero, suc, ◌+◌, ◌-◌, ◌*◌, String, Bool, true, false, not, ◌&&◌, ◌||◌, Option, none, some, List,
  [], ◌∷◌, map, Dict, insert, length, is_empty, is_none, select, sort_with, page, leb, ltb,
  if◌then◌else◌, ◌==◌,
}

pub record Document : Type 0 where
  pub id : String
  pub tenant_id : String
  pub subject_id : String
  pub event_id : Option String
  pub document_type : String
  pub filename : String
  pub original_filename : String
  pub mime_type : String
  pub file_size : ℕ
  pub checksum : String
  pub storage_ref : String
  pub version : ℕ
  pub parent_document_id : Option String
  pub is_latest_version : Bool
  pub created_by : Option String
  pub metadata : String
  pub created_at : ℕ
  pub deleted_at : Option ℕ

pub record DocumentCategory : Type 0 where
  pub category_name : String
  pub default_retention_days : Option ℕ

pub record RetentionRun : Type 0 where
  pub tenant_id : String
  pub soft_deleted_by_category : Dict ℕ

abbrev pub of_type : Option String → Document → Bool
of_type none d = true
of_type (some type) d = d.document_type == type

abbrev pub is_before : Option ℕ → Document → Bool
is_before none d = true
is_before (some cutoff) d = ltb d.created_at cutoff

-- Newest first.
unfoldable pub list_by_tenant :
    String → ℕ → ℕ → Option String → Bool → Option ℕ → List Document → List Document
list_by_tenant tenant skip limit type include_deleted created_before rows =
    page
      (sort_with (λ a b. leb b.created_at a.created_at)
        (select
          (λ d.
            d.tenant_id == tenant
            && (include_deleted || is_none d.deleted_at)
            && of_type type d
            && is_before created_before d)
          rows))
      skip limit

abbrev pub deleted : ℕ → Document → Document
deleted now d = record d { deleted_at = some now }

unfoldable pub soft_delete : String → String → ℕ → List Document → List Document
soft_delete document_id tenant now =
    map (λ d. if d.id == document_id && d.tenant_id == tenant then deleted now d else d)

abbrev pub retention_batch_size : ℕ
retention_batch_size = 500

abbrev pub day : ℕ
day = 86400000000

-- `for doc in docs: soft_delete(doc.id, tenant_id)`
unfoldable pub delete_all : String → ℕ → List Document → List Document → List Document
delete_all tenant now [] rows = rows
delete_all tenant now (d ∷ docs) rows =
    delete_all tenant now docs (soft_delete d.id tenant now rows)

-- `while True`, with the rows and the count.
unfoldable pub retire : ℕ → String → String → ℕ → ℕ → ℕ → ℕ → List Document → List Document × ℕ
retire zero tenant category cutoff now skip count rows = (rows, count)
retire (suc fuel) tenant category cutoff now skip count rows =
    let docs =
      list_by_tenant tenant skip retention_batch_size (some category) false (some cutoff) rows in
    let rows' = delete_all tenant now docs rows in
    let rest =
      retire fuel tenant category cutoff now (skip + length docs) (count + length docs) rows' in
    if is_empty docs
    then (rows, count)
    else (if ltb (length docs) retention_batch_size then (rows', count + length docs) else rest)

unfoldable pub retire_category : String → String → ℕ → ℕ → List Document → List Document × ℕ
retire_category tenant category cutoff now rows =
    retire (suc (suc (length rows))) tenant category cutoff now 0 0 rows

abbrev pub record_count : String → ℕ → Dict ℕ → Dict ℕ
record_count category zero counts = counts
record_count category (suc n) counts = insert category (suc n) counts

-- The loop over the categories.
unfoldable pub retire_categories :
    String → ℕ → List DocumentCategory → List Document → Dict ℕ → List Document × Dict ℕ
retire_categories tenant now [] rows counts = (rows, counts)
retire_categories tenant now (c ∷ categories) rows counts = elim c.default_retention_days [
  | none ↦ retire_categories tenant now categories rows counts
  | some zero ↦ retire_categories tenant now categories rows counts
  | some (suc days) ↦
      (let (rows', count) =
          retire_category tenant c.category_name (now - suc days * day) now rows in
        retire_categories tenant now categories rows' (record_count c.category_name count counts))
]

-- `categories` is the tenant's first page of 1000 categories.
unfoldable pub run :
    String → ℕ → List DocumentCategory → List Document → List Document × RetentionRun
run tenant now categories rows =
    let (rows', counts) = retire_categories tenant now categories rows [] in
    (rows', record { tenant_id = tenant; soft_deleted_by_category = counts })
