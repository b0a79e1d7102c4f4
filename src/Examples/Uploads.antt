-- ===== src/Examples/Uploads.antt =====
-- Documents, file names and verification jobs at concrete inputs.
use timeline.Base.{
  count, sym, ◌+◌, inl, inr, Bool-cases, String, ℕ, ◌≤◌, ◌≡◌, refl, true, false, none, some, List,
  [], ◌∷◌, ok, raise, integrity, eq_iff, ◌==◌, arith, strip_start, strip_end,
}
use timeline.Documents.{Document}
use timeline.Documents.Repository.{
  create_to_document, create_document, violates, has_parent, get_by_id_and_tenant, get_by_checksum,
}
use timeline.Documents.Filename.{
  sanitize_filename, generate_storage_ref, basename, every, without_nul, is_reserved, IsPlain,
  sanitize_filename-IsPlain,
}
use timeline.Documents.Upload.{
  Upload, Request, upload_document, upload_claimed, claim_parent, check_request, create_dto,
}
use timeline.Documents.Upload.Versions.{IsLinear, is_child, is_head, has_id}
use timeline.Documents.Upload.Linear.{upload_document-IsLinear}
use timeline.Documents.Upload.Answers.{upload_document-get, upload_document-deleted_duplicate}
use timeline.Verify.Jobs.{Clocks, Call, sets, gets, updates, defaults, run}
use timeline.Verify.Jobs.Spec.{spec_run}
use timeline.Verify.Jobs.Refine.{run-spec_run}
use timeline.Examples.Data.{document}

abbrev calls : List (Clocks × Call ℕ)
calls =
    (record { now = 0; monotonic = 0 }, sets "j1" "t1")
    ∷ (record { now = 5; monotonic = 5 }, updates "j1" "completed" (some (some 3)) none)
    ∷ (record { now = 9; monotonic = 9 }, gets "j1")
    ∷ (record { now = 9000000000; monotonic = 9000000000 }, gets "j1")
    ∷ []

run-spec_run_example : run defaults calls [] ≡ spec_run defaults calls (λ j. none)
run-spec_run_example = run-spec_run defaults calls

up_dir : sanitize_filename "../a.pdf" ≡ ok "a.pdf"
unfolding sanitize_filename basename every without_nul strip_start strip_end is_reserved
up_dir = refl

sanitize_filename-IsPlain_example : IsPlain "a.pdf"
sanitize_filename-IsPlain_example = sanitize_filename-IsPlain "../a.pdf" up_dir

abbrev svc : Upload String
svc = record {
  metadata_validator = none;
  tenant = λ t. some "acme";
  subject = none;
  digest = λ f. (f, 10);
  store = λ f ref checksum. ok tt;
  str = λ n. "1";
}

abbrev request : Request String
request = record {
  tenant_id = "t1";
  subject_id = "p1";
  file_data = "d9";
  filename = "scan.pdf";
  original_filename = "scan.pdf";
  mime_type = "application/pdf";
  document_type = "scan";
  event_id = none;
  created_by = none;
  parent_document_id = none;
  metadata = none;
}

abbrev uploaded : Document
uploaded =
    create_to_document 70 (create_dto svc "d2" request 1 "tenants/acme/documents/d2/v1/scan.pdf")

upload-runs :
    upload_document svc 70 "d2" (λ rows. rows) request (document "d1" 5 ∷ [])
    ≡ (document "d1" 5 ∷ uploaded ∷ [], ok uploaded)
unfolding upload_document upload_claimed claim_parent check_request create_document
    create_to_document violates has_parent get_by_checksum generate_storage_ref sanitize_filename
    basename every without_nul strip_start strip_end is_reserved
upload-runs = refl

upload_document-get_example :
    get_by_id_and_tenant uploaded.id "t1" (document "d1" 5 ∷ uploaded ∷ []) ≡ some uploaded
upload_document-get_example =
    upload_document-get svc 70 "d2" request (λ rows. rows) (document "d1" 5 ∷ [])
      (document "d1" 5 ∷ uploaded ∷ []) uploaded upload-runs

abbrev binned : List Document
binned = record (document "d9" 5) { deleted_at = some 6 } ∷ []

scan-ref :
    generate_storage_ref svc.str "acme" "d2" 1 "scan.pdf"
    ≡ ok "tenants/acme/documents/d2/v1/scan.pdf"
unfolding generate_storage_ref sanitize_filename basename every without_nul strip_start strip_end
    is_reserved
scan-ref = refl

upload_document-deleted_duplicate_example :
    (check_request svc request binned ≡ ok "acme")
    × (upload_document svc 70 "d2" (λ rows. rows) request binned ≡ (binned, raise integrity))
upload_document-deleted_duplicate_example =
    upload_document-deleted_duplicate svc 70 "d2" request (λ rows. rows) binned {code = "acme"}
      {storage_ref = "tenants/acme/documents/d2/v1/scan.pdf"} refl refl refl refl (rw scan-ref refl)
      ((λ own. refl), tt) refl

-- A document and its second version.
abbrev versions : List Document
versions =
    record (document "d1" 5) { is_latest_version = false }
    ∷ record (document "d3" 9) { version = 2; parent_document_id = some "d1" }
    ∷ []

other_id : (p : String) → "d1" == p ≡ true → "d3" == p ≡ false
other_id p h = let e : "d1" ≡ p = (eq_iff "d1" p).0 h in rw (sym e) refl

versions-counts :
    (p : String)
    → (count (has_id p) versions ≤ 1)
      × (count (is_child p) versions ≤ count (has_id p) versions)
      × (count (is_child p) versions + count (is_head p) versions ≤ 1)
versions-counts p = elim (Bool-cases ("d1" == p)) [
  | inl first ↦ rw (first, other_id p first) (omega arith, omega arith, omega arith)
  | inr other ↦ elim (Bool-cases ("d3" == p)) [
    | inl second ↦ rw (other, second) (omega arith, omega arith, omega arith)
    | inr none_of ↦ rw (other, none_of) (omega arith, omega arith, omega arith)
  ]
]

versions-IsLinear : IsLinear versions
versions-IsLinear = record {
  ids = λ p. (versions-counts p).0;
  known = λ p. (versions-counts p).1;
  linear = λ p. (versions-counts p).2;
}

abbrev next_version : String → Request String
next_version parent = record request { parent_document_id = some parent }

upload_document-IsLinear_example :
    IsLinear (upload_document svc 70 "d4" (λ rows. rows) (next_version "d3") versions).0
upload_document-IsLinear_example =
    upload_document-IsLinear svc 70 "d4" (next_version "d3") (λ rows. rows) versions
      (λ e. ground (arith, eq_iff "d3" "")) versions-IsLinear versions-IsLinear
