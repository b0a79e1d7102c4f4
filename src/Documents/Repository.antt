-- ===== src/Documents/Repository.antt =====
-- The document table: app/infrastructure/persistence/repositories/document_repo.py, with the listing
-- and the soft deletion of the parent module.
--
-- The unique indexes are those that the migrations create: the primary key, the checksum within a
-- tenant (deleted documents included), and the version below a parent; of the foreign keys, that to
-- the parent is checked, and those to other tables are taken to hold. The recursive query of
-- `get_versions` has one round for each row, since a chain without a loop is no longer.
use timeline.Base.{
  ℕ, zero, suc, String, Bool, true, false, not, ◌&&◌, ◌||◌, Option, none, some, List, [], ◌∷◌, ◌++◌,
  map, length, is_none, select, any, contains, find, sort_with, leb, eqb, opt_eq, if◌then◌else◌,
  ◌==◌, integrity, not_found, Outcome, ok, raise,
}
use timeline.Documents.{Document}

pub record DocumentCreate : Type 0 where
  pub id : String
  pub tenant_id : String
  pub subject_id : String
  pub event_id : Option String
  pub document_type : String
  pub filename : String
  pub original_filename : String
  pub mime_type : String
  pub file_size : ℕ
  pub checksum : String
  pub storage_ref : String
  pub version : ℕ
  pub parent_document_id : Option String
  pub created_by : Option String
  pub metadata : Option String

abbrev pub metadata_of : Option String → String
metadata_of none = "{}"
metadata_of (some m) = m

-- `_create_to_document`, with the column default of `created_at`.
unfoldable pub create_to_document : ℕ → DocumentCreate → Document
create_to_document now d = record {
  id = d.id;
  tenant_id = d.tenant_id;
  subject_id = d.subject_id;
  event_id = d.event_id;
  document_type = d.document_type;
  filename = d.filename;
  original_filename = d.original_filename;
  mime_type = d.mime_type;
  file_size = d.file_size;
  checksum = d.checksum;
  storage_ref = d.storage_ref;
  version = d.version;
  parent_document_id = d.parent_document_id;
  is_latest_version = true;
  created_by = d.created_by;
  metadata = metadata_of d.metadata;
  created_at = now;
  deleted_at = none;
}

unfoldable pub get_by_id_and_tenant : String → String → List Document → Option Document
get_by_id_and_tenant document_id tenant = find (λ d. d.id == document_id && d.tenant_id == tenant)

unfoldable pub count_by_tenant : String → List Document → ℕ
count_by_tenant tenant rows =
    length (select (λ d. d.tenant_id == tenant && is_none d.deleted_at) rows)

-- Both parents are there and equal: NULL is equal to nothing.
abbrev pub same_parent : Option String → Option String → Bool
same_parent (some a) (some b) = a == b
same_parent _ _ = false

-- Some unique index refuses the row.
unfoldable pub violates : List Document → Document → Bool
violates rows d =
    any
      (λ r.
        r.id == d.id
        || r.tenant_id == d.tenant_id && r.checksum == d.checksum
        || r.tenant_id == d.tenant_id
          && r.subject_id == d.subject_id
          && same_parent r.parent_document_id d.parent_document_id
          && eqb r.version d.version)
      rows

-- The foreign key to the parent: a document that is in the table.
unfoldable pub has_parent : List Document → Option String → Bool
has_parent rows none = true
has_parent rows (some p) = any (λ r. r.id == p) rows

unfoldable pub create_document :
    ℕ → DocumentCreate → List Document → List Document × Outcome Document
create_document now document rows =
    let d = create_to_document now document in
    if violates rows d || not (has_parent rows d.parent_document_id)
    then (rows, raise integrity)
    else (rows ++ d ∷ [], ok d)

-- The row is still the current one of its version.
abbrev pub is_current : String → ℕ → Document → Bool
is_current parent expected d = d.id == parent && d.is_latest_version && eqb d.version expected

unfoldable pub mark_parent_not_latest_if_current : String → ℕ → List Document → List Document × Bool
mark_parent_not_latest_if_current parent expected rows = (
  map (λ d. if is_current parent expected d then record d { is_latest_version = false } else d)
      rows,
  eqb (length (select (is_current parent expected) rows)) 1,
)

-- `update(document)`: three columns of the row with the document's id.
unfoldable pub update : Document → List Document → List Document × Outcome Document
update document rows =
    let change = λ (d : Document). record d {
      is_latest_version = document.is_latest_version;
      deleted_at = document.deleted_at;
      document_type = document.document_type;
    } in
    elim (find (λ d. d.id == document.id) rows) [
      | none ↦ (rows, raise (not_found "document" document.id))
      | some d ↦ (map (λ e. if e.id == document.id then change e else e) rows, ok (change d))
    ]

unfoldable pub count_by_subjects_and_document_type :
    String → List String → String → List Document → ℕ
count_by_subjects_and_document_type tenant subject_ids type rows = length (
    select
      (λ d.
        d.tenant_id == tenant
        && contains subject_ids d.subject_id
        && d.document_type == type
        && is_none d.deleted_at)
      rows)

-- `ORDER BY created_at DESC`
abbrev pub newest_first : Document → Document → Bool
newest_first a b = leb b.created_at a.created_at

unfoldable pub get_by_subject : String → String → Bool → List Document → List Document
get_by_subject subject tenant include_deleted rows = sort_with newest_first (
    select
      (λ d.
        d.subject_id == subject
        && d.tenant_id == tenant
        && (include_deleted || is_none d.deleted_at))
      rows)

unfoldable pub get_by_event : String → String → List Document → List Document
get_by_event event tenant rows = sort_with newest_first (
    select (λ d. opt_eq d.event_id (some event) && d.tenant_id == tenant && is_none d.deleted_at)
      rows)

unfoldable pub get_by_checksum : String → String → List Document → Option Document
get_by_checksum tenant checksum =
    find (λ d. d.tenant_id == tenant && d.checksum == checksum && is_none d.deleted_at)

abbrev pub has_parent_in : List String → Document → Bool
has_parent_in ids d = elim d.parent_document_id [ none ↦ false | some p ↦ contains ids p ]

-- The ids of a chain, one generation after the other.
unfoldable pub version_chain : ℕ → String → List String → List Document → List String
version_chain zero tenant ids rows = ids
version_chain (suc rounds) tenant ids rows =
    let next =
      map (λ (d : Document). d.id)
        (select (λ d. has_parent_in ids d && d.tenant_id == tenant) rows) in
    let rest = version_chain rounds tenant next rows in
    elim next [ [] ↦ ids | i ∷ is ↦ ids ++ rest ]

unfoldable pub get_versions : String → String → List Document → List Document
get_versions document_id tenant rows =
    let anchor =
      map (λ (d : Document). d.id)
        (select (λ d. d.id == document_id && d.tenant_id == tenant) rows) in
    let ids = version_chain (length rows) tenant anchor rows in
    let versions =
      sort_with (λ (a b : Document). leb a.version b.version)
        (select (λ d. contains ids d.id) rows) in
    if any (λ d. d.id == document_id) versions then versions else []
