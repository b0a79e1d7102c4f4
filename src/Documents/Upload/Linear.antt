-- ===== src/Documents/Upload/Linear.antt =====
-- What uploads keep and refuse.
use timeline.Base.{
  count, ℕ, ◌+◌, String, ◌≡◌, ◌≢◌, refl, sym, ap, true, false, not, ◌||◌, Option, none, some, List,
  [], ◌∷◌, any, is_blank, eqb, Bool-cases, Outcome, ok, raise, inl, inr, arith,
}
use timeline.Documents.{Document}
use timeline.Documents.Repository.{
  DocumentCreate, create_to_document, create_document, violates, has_parent, is_current,
  mark_parent_not_latest_if_current, get_by_id_and_tenant,
}
use timeline.Documents.Upload.{
  Upload, Request, upload_document, upload_claimed, upload_checked, claim_parent, claim_found,
  claim_named, named, check_request, create_stored, create_dto, store_file,
}
use timeline.Documents.Upload.Versions.{
  IsLinear, has_id, is_child, is_head, marked, marked-IsLinear, append-IsLinear, count_head-marked,
  count_child-marked,
}

-- No document stands above the parent.
abbrev Free : Option String → List Document → Type 0
Free parent rows =
    (p : String) → parent ≡ some p → count (is_child p) rows + count (is_head p) rows ≡ 0

pub new_id_of_violates :
    (rows : List Document) (d : Document) → violates rows d ≡ false → any (has_id d.id) rows ≡ false
unfolding violates
new_id_of_violates [] d h = refl
new_id_of_violates (r ∷ rows) d h = ground (arith, new_id_of_violates rows d)

create_document-IsLinear :
    (now : ℕ) (dto : DocumentCreate) (rows : List Document)
    → IsLinear rows
    → Free dto.parent_document_id rows
    → IsLinear (create_document now dto rows).0
unfolding create_document create_to_document
create_document-IsLinear now dto rows h free =
    let d = create_to_document now dto in
    elim (Bool-cases (violates rows d || not (has_parent rows d.parent_document_id))) [
      | inl refused ↦ rw refused h
      | inr accepted ↦
          rw accepted (
            append-IsLinear rows d h (new_id_of_violates rows d (ground arith)) (ground arith) free)
    ]

marked-free :
    (parent : String) (version : ℕ) (rows : List Document)
    → IsLinear rows
    → eqb (count (is_current parent version) rows) 1 ≡ true
    → count (is_child parent) (marked parent version rows)
        + count (is_head parent) (marked parent version rows)
      ≡ 0
marked-free parent version rows h once = ground (
  arith,
  count_head-marked parent version rows,
  count_child-marked parent version parent rows,
  h.linear parent,
)

-- After the parent is claimed.
abbrev Claimed : Option String → List Document × Outcome ℕ → Type 0
Claimed parent (rows, raise e) = IsLinear rows
Claimed parent (rows, ok version) = IsLinear rows × Free parent rows

claim_found-Claimed :
    (between : List Document → List Document) (parent : String) (found : Option Document)
    (rows : List Document)
    → IsLinear rows
    → IsLinear (between rows)
    → Claimed (some parent) (claim_found between parent found rows)
unfolding mark_parent_not_latest_if_current
claim_found-Claimed between parent none rows h h' = h
claim_found-Claimed between parent (some d) rows h h' =
    elim (Bool-cases (eqb (count (is_current parent d.version) (between rows)) 1)) [
      | inl won ↦ rw won (marked-IsLinear parent d.version (between rows) h', free won)
      | inr lost ↦ rw lost (marked-IsLinear parent d.version (between rows) h')
    ]
  where
    free :
        eqb (count (is_current parent d.version) (between rows)) 1 ≡ true
        → Free (some parent) (marked parent d.version (between rows))
    free won p same =
        let e : parent ≡ p = cc in rw (sym e) (marked-free parent d.version (between rows) h' won)

blank_empty : (s : String) → is_blank s ≡ true → s ≡ ""
blank_empty String.[] h = refl
blank_empty (String.◌∷◌ c s) h = cc

named_self : (parent : Option String) → parent ≢ some "" → named parent ≡ parent
named_self none h = refl
named_self (some p) h = elim (Bool-cases (is_blank p)) [
  | inl blank ↦ absurd (h (ap some (blank_empty p blank)))
  | inr named_one ↦ rw named_one refl
]

claim_named-Claimed :
    (between : List Document → List Document) (tenant : String) (parent : Option String)
    (rows : List Document)
    → IsLinear rows
    → IsLinear (between rows)
    → Claimed parent (claim_named between tenant parent rows)
claim_named-Claimed between tenant none rows h h' = (h, λ p e. absurd cc)
claim_named-Claimed between tenant (some parent) rows h h' =
    claim_found-Claimed between parent (get_by_id_and_tenant parent tenant rows) rows h h'

module _ {F : Type 0} (svc : Upload F) (now : ℕ) (new_id : String) (r : Request F) where
  upload_claimed-IsLinear :
      (code : String) (c : List Document × Outcome ℕ)
      → Claimed r.parent_document_id c
      → IsLinear (upload_claimed svc now new_id r code c).0
  unfolding upload_claimed
  upload_claimed-IsLinear code (rows, raise e) h = h
  upload_claimed-IsLinear code (rows, ok version) h = stored (store_file svc code new_id r version)
    where
      stored :
          (file : Outcome String) → IsLinear (create_stored svc now new_id r version file rows).0
      stored (raise e) = h.0
      stored (ok storage_ref) =
          create_document-IsLinear now (create_dto svc new_id r version storage_ref) rows h.0 h.1

  upload_checked-IsLinear :
      (between : List Document → List Document) (checked : Outcome String) (rows : List Document)
      → r.parent_document_id ≢ some ""
      → IsLinear rows
      → IsLinear (between rows)
      → IsLinear (upload_checked svc now new_id between r checked rows).0
  unfolding claim_parent
  upload_checked-IsLinear between (raise e) rows nonblank h h' = h
  upload_checked-IsLinear between (ok code) rows nonblank h h' =
      upload_claimed-IsLinear code (claim_parent svc between r rows) (
        rw (named_self r.parent_document_id nonblank)
          (claim_named-Claimed between r.tenant_id r.parent_document_id rows h h'))

  -- If document ids are distinct, parents exist and every document has at most one successor, and
  -- none while it is a latest version, then this is so after an upload, whether it returns or
  -- raises, and whatever another session commits before the parent is claimed, provided that this
  -- keeps it so. The parent's id is not the empty text.
  pub upload_document-IsLinear :
      (between : List Document → List Document) (rows : List Document)
      → r.parent_document_id ≢ some ""
      → IsLinear rows
      → IsLinear (between rows)
      → IsLinear (upload_document svc now new_id between r rows).0
  unfolding upload_document
  upload_document-IsLinear between rows nonblank h h' =
      upload_checked-IsLinear between (check_request svc r rows) rows nonblank h h'
