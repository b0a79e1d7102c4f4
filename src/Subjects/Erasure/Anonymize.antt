-- ===== src/Subjects/Erasure/Anonymize.antt =====
-- Erasing a subject by redaction.
use timeline.Base.{
  ◌≢◌, ◌++◌, Outcome-cases, ℕ, String, ◌≡◌, refl, sym, ap, Bool, true, false, not, ◌&&◌, ◌||◌,
  Option, none, some, List, [], ◌∷◌, select, any, All, find, find-test, sort_with, insert_with,
  is_none, ◌==◌, eq_refl, eq_iff, Bool-cases, Outcome, ok, raise, integrity, inl, inr, arith,
}
use timeline.Documents.{Document, soft_delete}
use timeline.Documents.Repository
use timeline.Documents.Repository.{newest_first}
use timeline.Subjects.Audit.{audit, updated}
use timeline.Subjects.{
  subject_to_result, Subject, SubjectResult, has_id, same_ref, ref_taken, changed, put,
  update_subject, optional_result, get_entity_by_id_and_tenant, get_by_id_and_tenant,
}
use timeline.Subjects.Erasure.{
  Records, erased_audits, anonymize, anonymized, erase_documents, erase_all_documents, redacted,
  erase_by, erase_found, erase_subject_data,
}
use timeline.Subjects.Erasure.Delete.{entity_of_result}

-- A listed document that was not deleted has the row's id.
abbrev names : Document → Document → Bool
names x d = is_none d.deleted_at && d.id == x.id

module _ (tenant subject_id : String) where
  -- What a listing of the subject's documents shows.
  abbrev pub is_live : Document → Bool
  is_live x = x.subject_id == subject_id && x.tenant_id == tenant && (false || is_none x.deleted_at)

  -- Each live row is still to be deleted by the loop.
  abbrev Covered : List Document → List Document → Type 0
  Covered docs rows = All (λ x. is_live x ≡ true → any (names x) docs ≡ true) rows

  Covered-step :
      (now : ℕ) (d : Document) (docs rows : List Document)
      → is_none d.deleted_at ≡ true
      → Covered (d ∷ docs) rows
      → Covered docs (soft_delete d.id tenant now rows)
  unfolding soft_delete
  Covered-step now d docs [] open_ h = tt
  Covered-step now d docs (x ∷ rows) open_ h =
      elim (Bool-cases (x.id == d.id && x.tenant_id == tenant)) [
        | inl hit ↦ rw hit ((λ live. absurd (ground arith)), Covered-step now d docs rows open_ h.1)
        | inr miss ↦ rw miss (
          (λ live. let named = h.0 live in ground (arith, eq_iff d.id x.id, eq_iff x.id d.id)),
          Covered-step now d docs rows open_ h.1,
        )
      ]

  Covered-skip :
      (d : Document) (docs rows : List Document)
      → is_none d.deleted_at ≡ false
      → Covered (d ∷ docs) rows
      → Covered docs rows
  Covered-skip d docs [] gone h = tt
  Covered-skip d docs (x ∷ rows) gone h =
      ((λ live. let named = h.0 live in ground arith), Covered-skip d docs rows gone h.1)

  Covered-nil : (rows : List Document) → Covered [] rows → All (λ x. is_live x ≡ false) rows
  Covered-nil [] h = tt
  Covered-nil (x ∷ rows) h = (
    elim (Bool-cases (is_live x)) [
      | inl live ↦ absurd (let named = h.0 live in cc)
      | inr dead ↦ dead
    ],
    Covered-nil rows h.1,
  )

  erase_documents-live :
      (now : ℕ) (docs rows : List Document)
      → Covered docs rows
      → All (λ x. is_live x ≡ false) (erase_documents tenant now docs rows)
  unfolding erase_documents
  erase_documents-live now [] rows h = Covered-nil rows h
  erase_documents-live now (d ∷ docs) rows h = elim (Bool-cases (is_none d.deleted_at)) [
    | inl live ↦ rw live (
        erase_documents-live now docs (soft_delete d.id tenant now rows)
          (Covered-step now d docs rows live h))
    | inr gone ↦ rw gone (erase_documents-live now docs rows (Covered-skip d docs rows gone h))
  ]

any-insert_with :
    (p : Document → Bool) (le : Document → Document → Bool) (d : Document) (ds : List Document)
    → any p (insert_with le d ds) ≡ p d || any p ds
any-insert_with p le d [] = refl
any-insert_with p le d (e ∷ ds) = ground (arith, any-insert_with p le d ds)

any-sort_with :
    (p : Document → Bool) (le : Document → Document → Bool) (ds : List Document)
    → any p (sort_with le ds) ≡ any p ds
any-sort_with p le [] = refl
any-sort_with p le (d ∷ ds) =
    ground (arith, any-insert_with p le d (sort_with le ds), any-sort_with p le ds)

any-select :
    (p q : Document → Bool) (ds : List Document) → any p (select q ds) ≡ any (λ d. q d && p d) ds
any-select p q [] = refl
any-select p q (d ∷ ds) = ground (arith, any-select p q ds)

module _ (tenant subject_id : String) where
  abbrev listed : Document → Bool
  listed d = d.subject_id == subject_id && d.tenant_id == tenant && (true || is_none d.deleted_at)

  Covered-listed :
      (rows big : List Document)
      → ((p : Document → Bool) → any p rows ≡ true → any p big ≡ true)
      → Covered tenant subject_id (sort_with newest_first (select listed big)) rows
  Covered-listed [] big within = tt
  Covered-listed (x ∷ rows) big within = (
    (λ live.
        let here = within (λ d. listed d && names x d) (ground (arith, eq_refl x.id)) in
        rw
          (
            any-sort_with (names x) newest_first (select listed big),
            any-select (names x) listed big,
          )
          here),
    Covered-listed rows big (λ p there. within p (ground arith)),
  )

  -- The loop over all documents of the subject leaves none of them live.
  pub erased_documents-live :
      (now : ℕ) (rows : List Document)
      → All
          (λ x. is_live tenant subject_id x ≡ false)
          (erase_documents tenant now (Repository.get_by_subject subject_id tenant true rows) rows)
  unfolding Repository.get_by_subject
  erased_documents-live now rows =
      erase_documents-live tenant subject_id now (sort_with newest_first (select listed rows)) rows
        (Covered-listed rows rows (λ p there. there))

module _ {V : Type 0} where
  abbrev redact : Subject V → Subject V
  redact = changed (some redacted) (some redacted) (some [])

  find-put :
      (subject_id tenant : String) (s : Subject V) (rows : List (Subject V))
      → has_id subject_id tenant s ≡ true
      → (t : Subject V) → find (has_id subject_id tenant) rows ≡ some t
      → find (has_id subject_id tenant) (put s rows) ≡ some s
  find-put subject_id tenant s [] own t h = absurd cc
  find-put subject_id tenant s (r ∷ rows) own t h = elim (Bool-cases (r.id == s.id)) [
    | inl same ↦ rw (same, own) refl
    | inr other ↦
        let apart : r.id == subject_id ≡ false =
          ground (arith, eq_iff r.id s.id, eq_iff s.id subject_id, eq_iff r.id subject_id) in
        rw (other, apart) (find-put subject_id tenant s rows own t (rw apart at h))
  ]

  -- In a tenant that has a redacted subject, no other subject can be anonymized: the call raises an
  -- integrity error and changes nothing.
  pub erase_subject_data-second_redaction :
      (tenant subject_id : String) (now : ℕ) (db : Records V) (s : Subject V) (r : SubjectResult V)
      → get_entity_by_id_and_tenant tenant subject_id tenant db.subjects ≡ some s
      → get_by_id_and_tenant tenant subject_id tenant db.subjects ≡ ok (some r)
      → any
          (λ (o : Subject V).
            not (o.id == s.id)
            && o.tenant_id == s.tenant_id
            && same_ref o.external_ref (some redacted))
          db.subjects
        ≡ true
      → erase_subject_data anonymize tenant tenant subject_id now db ≡ (db, raise integrity)
  unfolding erase_subject_data erase_by update_subject
  erase_subject_data-second_redaction tenant subject_id now db s r entity found taken =
      rw (found, entity, taken) refl

  -- What is left of an anonymized subject.
  pub record IsRedacted (tenant subject_id : String) (db db' : Records V) : Type 0 where
    pub keeps_events : db'.events ≡ db.events
    pub keeps_links : db'.links ≡ db.links
    pub audited :
        db'.audits
        ≡ (db.audits ++ audit tenant "subject" updated ∷ [])
          ++ erased_audits tenant (Repository.get_by_subject subject_id tenant true db.documents)
    pub no_document : All (λ d. is_live tenant subject_id d ≡ false) db'.documents
    pub row : Subject V
    pub found : get_entity_by_id_and_tenant tenant subject_id tenant db'.subjects ≡ some row
    pub ref : row.external_ref ≡ some redacted
    pub name : row.display_name ≡ some redacted
    pub attributes : row.attributes ≡ some []

  anonymized-ok :
      (tenant subject_id : String) (now : ℕ) (db db' : Records V) (subjects : List (Subject V))
      (answer : Outcome (Option (SubjectResult V)))
      → (answer ≢ ok none)
      → anonymized tenant subject_id now db (subjects, answer) ≡ (db', ok tt)
      → erase_all_documents tenant subject_id now (record db {
        subjects = subjects;
        audits = db.audits ++ audit tenant "subject" updated ∷ [];
      })
        ≡ db'
  anonymized-ok tenant subject_id now db db' subjects (raise e) found h = absurd cc
  anonymized-ok tenant subject_id now db db' subjects (ok none) found h = absurd (found refl)
  anonymized-ok tenant subject_id now db db' subjects (ok (some s)) found h = ap (λ x. x.0) h

  rows-IsRedacted :
      (tenant subject_id : String) (now : ℕ) (db : Records V) (s : Subject V)
      → get_entity_by_id_and_tenant tenant subject_id tenant db.subjects ≡ some s
      → IsRedacted tenant subject_id db (
          erase_all_documents tenant subject_id now (record db {
            subjects = put (redact s) db.subjects;
            audits = db.audits ++ audit tenant "subject" updated ∷ [];
          }))
  unfolding get_entity_by_id_and_tenant
  rows-IsRedacted tenant subject_id now db s entity =
      let there : find (has_id subject_id tenant) db.subjects ≡ some s =
        rw (eq_refl tenant) at entity in
      let own = find-test (has_id subject_id tenant) db.subjects there in
      record {
        keeps_events = refl;
        keeps_links = refl;
        audited = refl;
        no_document = erased_documents-live tenant subject_id now db.documents;
        row = redact s;
        found = rw (eq_refl tenant) (find-put subject_id tenant (redact s) db.subjects own s there);
        ref = refl;
        name = refl;
        attributes = refl;
      }

  result_is_some : (s : Subject V) → optional_result (some s) ≢ ok none
  result_is_some s e = elim (Outcome-cases (subject_to_result s)) [
    | inl (x, raised) ↦ absurd (let stop = rw raised at e in cc)
    | inr (r, made) ↦ absurd (let stop = rw made at e in cc)
  ]

  erase_by-IsRedacted :
      (tenant subject_id : String) (now : ℕ) (db db' : Records V) (s : Subject V)
      → get_entity_by_id_and_tenant tenant subject_id tenant db.subjects ≡ some s
      → erase_by anonymize tenant tenant subject_id now db ≡ (db', ok tt)
      → IsRedacted tenant subject_id db db'
  unfolding erase_by update_subject
  erase_by-IsRedacted tenant subject_id now db db' s entity h =
      elim (Bool-cases (ref_taken db.subjects (redact s))) [
        | inl taken ↦ absurd (let stop = rw (entity, taken) at h in cc)
        | inr free ↦
            let same =
              anonymized-ok tenant subject_id now db db' (put (redact s) db.subjects)
                (optional_result (some (redact s))) (result_is_some (redact s))
                (rw (entity, free) at h) in
            rw (sym same) (rows-IsRedacted tenant subject_id now db s entity)
      ]

  erase_found-IsRedacted :
      (tenant subject_id : String) (now : ℕ) (db db' : Records V)
      (read : Outcome (Option (SubjectResult V)))
      → get_by_id_and_tenant tenant subject_id tenant db.subjects ≡ read
      → erase_found anonymize tenant tenant subject_id now read db ≡ (db', ok tt)
      → IsRedacted tenant subject_id db db'
  erase_found-IsRedacted tenant subject_id now db db' (raise e) found h = absurd cc
  erase_found-IsRedacted tenant subject_id now db db' (ok none) found h = absurd cc
  erase_found-IsRedacted tenant subject_id now db db' (ok (some r)) found h =
      let (s, entity, made) = entity_of_result tenant subject_id db.subjects r found in
      erase_by-IsRedacted tenant subject_id now db db' s entity h

  -- When anonymizing a subject returns, its row has the redacted reference and name and no
  -- attributes, every document of the subject in the tenant is deleted, the relationships and the
  -- events of all subjects but the audit subjects are as before, and the audit entries are those of
  -- one updated subject and of each document that the call deletes.
  pub erase_subject_data-IsRedacted :
      (tenant subject_id : String) (now : ℕ) (db db' : Records V)
      → erase_subject_data anonymize tenant tenant subject_id now db ≡ (db', ok tt)
      → IsRedacted tenant subject_id db db'
  unfolding erase_subject_data
  erase_subject_data-IsRedacted tenant subject_id now db db' h =
      erase_found-IsRedacted tenant subject_id now db db'
        (get_by_id_and_tenant tenant subject_id tenant db.subjects) refl h
