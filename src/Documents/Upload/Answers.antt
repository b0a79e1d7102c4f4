-- ===== src/Documents/Upload/Answers.antt =====
-- When an upload returns, and what it finds in the table.
use timeline.Base.{
  All, is_none, count_of_any, count, ℕ, String, ◌≡◌, ◌≢◌, refl, sym, ap, ◌∙◌, Bool, true, false,
  not, ◌&&◌, ◌||◌, Option, none, some, List, [], ◌∷◌, ◌++◌, any, find-append, eqb, Bool-cases, ◌==◌,
  eq_refl, Outcome, ok, raise, inl, inr, arith, integrity,
}
use timeline.Documents.{Document}
use timeline.Documents.Repository.{
  DocumentCreate, create_to_document, create_document, violates, has_parent, is_current,
  mark_parent_not_latest_if_current, get_by_id_and_tenant, get_by_checksum,
}
use timeline.Documents.Upload.{
  check_metadata, tenant_code, check_subject, Upload, Request, upload_document, upload_claimed,
  upload_checked, claim_parent, claim_found, named, check_request, create_stored, create_dto,
  store_file,
}
use timeline.Documents.Upload.Versions.{IsLinear, has_id, is_child, count_head-marked}
use timeline.Documents.Upload.Linear.{new_id_of_violates}

any_and :
    (p q : Document → Bool) (rows : List Document)
    → any p rows ≡ false
    → any (λ d. p d && q d) rows ≡ false
any_and p q [] h = refl
any_and p q (d ∷ rows) h = ground (arith, any_and p q rows)

create_document-get :
    (now : ℕ) (dto : DocumentCreate) (rows rows' : List Document) (d : Document)
    → create_document now dto rows ≡ (rows', ok d)
    → get_by_id_and_tenant d.id dto.tenant_id rows' ≡ some d
unfolding create_document create_to_document get_by_id_and_tenant
create_document-get now dto rows rows' d h =
    let d' = create_to_document now dto in
    elim (Bool-cases (violates rows d' || not (has_parent rows d'.parent_document_id))) [
      | inl refused ↦ absurd (let stop = rw refused at h in cc)
      | inr accepted ↦
          let same = rw accepted at h in
          let table : rows ++ d' ∷ [] ≡ rows' = ap (λ x. x.0) same in
          let answer : d' ≡ d = cc in
          let new =
            any_and (has_id dto.id) (λ e. e.tenant_id == dto.tenant_id) rows
              (new_id_of_violates rows d' (ground arith)) in
          rw (sym table, sym answer)
            (find-append (λ e. e.id == dto.id && e.tenant_id == dto.tenant_id) rows (d' ∷ []) new
              ∙ rw (eq_refl dto.id, eq_refl dto.tenant_id) refl)
    ]

violates_of_checksum :
    (rows : List Document) (d : Document)
    → any (λ e. e.tenant_id == d.tenant_id && e.checksum == d.checksum) rows ≡ true
    → violates rows d ≡ true
unfolding violates
violates_of_checksum [] d h = cc
violates_of_checksum (r ∷ rows) d h = ground (arith, violates_of_checksum rows d)

-- Each document of the tenant with the checksum is deleted.
abbrev pub AllDeleted : String → String → List Document → Type 0
AllDeleted tenant checksum rows =
    All
      (λ d. (d.tenant_id == tenant && d.checksum == checksum) ≡ true → is_none d.deleted_at ≡ false)
      rows

get_by_checksum-AllDeleted :
    (tenant checksum : String) (rows : List Document)
    → AllDeleted tenant checksum rows
    → get_by_checksum tenant checksum rows ≡ none
unfolding get_by_checksum
get_by_checksum-AllDeleted tenant checksum [] h = refl
get_by_checksum-AllDeleted tenant checksum (d ∷ rows) h =
    elim (Bool-cases (d.tenant_id == tenant && d.checksum == checksum && is_none d.deleted_at)) [
      | inl live ↦ absurd (let gone = h.0 (ground arith) in ground arith)
      | inr other ↦ rw other (get_by_checksum-AllDeleted tenant checksum rows h.1)
    ]

module _ {F : Type 0} (svc : Upload F) (now : ℕ) (new_id : String) (r : Request F) where
  -- An upload without a parent of a file whose checksum a document of the tenant has, where each
  -- such document is deleted: if the metadata, tenant and subject are accepted and the storage takes
  -- the file, then the checks before the write pass, and the upload raises an integrity error.
  pub upload_document-deleted_duplicate :
      (between : List Document → List Document) (rows : List Document) {code storage_ref : String}
      → check_metadata svc r ≡ ok tt
      → tenant_code svc r ≡ ok code
      → check_subject svc r ≡ ok tt
      → named r.parent_document_id ≡ none
      → store_file svc code new_id r 1 ≡ ok storage_ref
      → AllDeleted r.tenant_id (svc.digest r.file_data).0 rows
      → any (λ d. d.tenant_id == r.tenant_id && d.checksum == (svc.digest r.file_data).0) rows
        ≡ true
      → (check_request svc r rows ≡ ok code)
        × (upload_document svc now new_id between r rows ≡ (rows, raise integrity))
  unfolding upload_document upload_claimed claim_parent create_document create_to_document
      check_request
  upload_document-deleted_duplicate between rows {storage_ref = storage_ref} metadata tenant subject
        rootless kept deleted there =
      let d = create_to_document now (create_dto svc new_id r 1 storage_ref) in
      let taken = violates_of_checksum rows d there in
      let unseen = get_by_checksum-AllDeleted r.tenant_id (svc.digest r.file_data).0 rows deleted in
      (
        rw (metadata, tenant, subject, unseen) refl,
        rw (metadata, tenant, subject, unseen, rootless, kept, taken) refl,
      )

  upload_claimed-get :
      (code : String) (claim : List Document × Outcome ℕ) (rows' : List Document) (d : Document)
      → upload_claimed svc now new_id r code claim ≡ (rows', ok d)
      → get_by_id_and_tenant d.id r.tenant_id rows' ≡ some d
  unfolding upload_claimed
  upload_claimed-get code (rows, raise e) rows' d h = absurd cc
  upload_claimed-get code (rows, ok version) rows' d h =
      stored (store_file svc code new_id r version) h
    where
      stored :
          (file : Outcome String)
          → create_stored svc now new_id r version file rows ≡ (rows', ok d)
          → get_by_id_and_tenant d.id r.tenant_id rows' ≡ some d
      stored (raise e) k = absurd cc
      stored (ok storage_ref) k =
          create_document-get now (create_dto svc new_id r version storage_ref) rows rows' d k

  upload_checked-get :
      (between : List Document → List Document) (checked : Outcome String)
      (rows rows' : List Document) (d : Document)
      → upload_checked svc now new_id between r checked rows ≡ (rows', ok d)
      → get_by_id_and_tenant d.id r.tenant_id rows' ≡ some d
  upload_checked-get between (raise e) rows rows' d h = absurd cc
  upload_checked-get between (ok code) rows rows' d h =
      upload_claimed-get code (claim_parent svc between r rows) rows' d h

  -- When an upload returns a document, the tenant's query for its id finds that document in the
  -- table after the call.
  pub upload_document-get :
      (between : List Document → List Document) (rows rows' : List Document) (d : Document)
      → upload_document svc now new_id between r rows ≡ (rows', ok d)
      → get_by_id_and_tenant d.id r.tenant_id rows' ≡ some d
  unfolding upload_document
  upload_document-get between rows rows' d h =
      upload_checked-get between (check_request svc r rows) rows rows' d h

  claim_found-superseded :
      (between : List Document → List Document) (parent : String) (found : Option Document)
      (rows : List Document)
      → IsLinear (between rows)
      → any (is_child parent) (between rows) ≡ true
      → (version : ℕ) → (claim_found between parent found rows).1 ≢ ok version
  unfolding mark_parent_not_latest_if_current
  claim_found-superseded between parent none rows h below version = λ e. cc
  claim_found-superseded between parent (some d) rows h below version =
      let lost : eqb (count (is_current parent d.version) (between rows)) 1 ≡ false = ground (
        arith,
        count_head-marked parent d.version (between rows),
        count_of_any (is_child parent) (between rows) below,
        h.linear parent,
      ) in
      rw lost (λ e. cc)

  upload_claimed-refused :
      (code : String) (claim : List Document × Outcome ℕ)
      → ((version : ℕ) → claim.1 ≢ ok version)
      → (d : Document) → (upload_claimed svc now new_id r code claim).1 ≢ ok d
  unfolding upload_claimed
  upload_claimed-refused code (rows, raise e) h d k = cc
  upload_claimed-refused code (rows, ok version) h d k = h version refl

  upload_checked-superseded :
      (between : List Document → List Document) (checked : Outcome String) (rows : List Document)
      (parent : String)
      → named r.parent_document_id ≡ some parent
      → IsLinear (between rows)
      → any (is_child parent) (between rows) ≡ true
      → (d : Document) → (upload_checked svc now new_id between r checked rows).1 ≢ ok d
  unfolding claim_parent
  upload_checked-superseded between (raise e) rows parent n h below d = λ k. cc
  upload_checked-superseded between (ok code) rows parent n h below d =
      upload_claimed-refused code (claim_parent svc between r rows)
        (rw n (
          claim_found-superseded between parent (get_by_id_and_tenant parent r.tenant_id rows) rows
            h below))
        d

  -- An upload that names a parent does not return a document, if that parent has a successor by the
  -- time it is claimed, in a table where ids are distinct, parents exist and chains are linear.
  pub upload_document-superseded :
      (between : List Document → List Document) (rows : List Document) (parent : String)
      → named r.parent_document_id ≡ some parent
      → IsLinear (between rows)
      → any (is_child parent) (between rows) ≡ true
      → (d : Document) → (upload_document svc now new_id between r rows).1 ≢ ok d
  unfolding upload_document
  upload_document-superseded between rows parent n h below d =
      upload_checked-superseded between (check_request svc r rows) rows parent n h below d
