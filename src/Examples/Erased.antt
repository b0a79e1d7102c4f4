-- ===== src/Examples/Erased.antt =====
-- Subjects, their relationships and their erasure at concrete inputs.
use timeline.Base.{
  String, ℕ, ◌≡◌, refl, true, none, some, List, [], ◌∷◌, ok, raise, integrity, All, Bool, Dict,
  strip_start, strip_end,
}
use timeline.Values.Slug
use timeline.Values.Slug.{codes, slug_match, is_alnum}
use timeline.Documents
use timeline.Documents.Repository
use timeline.Documents.{Document}
use timeline.Subjects
use timeline.Subjects.{
  Subject, SubjectResult, get_by_id, get_by_id_and_tenant, get_entity_by_id_and_tenant,
  subject_to_result, same_ref,
}
use timeline.Subjects.Audit.{audit, created, updated, deleted}
use timeline.Subjects.Service
use timeline.Subjects.Service.{
  SubjectTypeConfig, get_subject, check_create, resolve_type, get_by_tenant_and_type, ref_of,
}
use timeline.Subjects.Refs.{create_subject-type}
use timeline.Subjects.Relations
use timeline.Subjects.Relations.{
  Relationship, Linked, Timeline, add_relationship, remove_relationship, check_add, create,
  emit_both, ensure_subject_in_tenant,
}
use timeline.Subjects.Relations.Laws.{HasEnds, add_relationship-HasEnds, add_relationship-remove}
use timeline.Subjects.Erasure.{
  Records, anonymize, delete, erase_subject_data, erase_by, delete_row, erase_documents,
  is_referenced,
}
use timeline.Subjects.Erasure.Delete.{erase_subject_data-has_events}
use timeline.Subjects.Erasure.Anonymize.{
  IsRedacted, erase_subject_data-IsRedacted, erase_subject_data-second_redaction,
}
use timeline.Examples.Data.{document, chain, service, quiet, two_rows}

abbrev person : String → String → Subject ℕ
person id ref = record {
  id = id;
  tenant_id = "t1";
  subject_type = "patient";
  external_ref = some ref;
  display_name = some "Ann";
  attributes = some [];
  created_at = 3;
}

abbrev people : List (Subject ℕ)
people = person "p1" "r1" ∷ person "p2" "[REDACTED]" ∷ []

abbrev read : String → String → SubjectResult ℕ
read id ref = record {
  id = id;
  tenant_id = "t1";
  subject_type = "patient";
  external_ref = some ref;
  display_name = "Ann";
  attributes = [];
}

abbrev result : SubjectResult ℕ
result = record {
  id = "p3";
  tenant_id = "t1";
  subject_type = "patient";
  external_ref = some "r3";
  display_name = "r3";
  attributes = [];
}

abbrev conforms : ℕ → Dict ℕ → Bool
conforms schema attributes = true

abbrev stored : Subject ℕ
stored = record (person "p3" "r3") { display_name = some "r3"; created_at = 9 }

create-runs :
    Service.create_subject conforms [] true "p3" 9 "t1" "t1" "patient"
      (some " r3 ")
      none
      none
      (person "p1" "r1" ∷ [])
    ≡ (person "p1" "r1" ∷ stored ∷ [], ok result)
unfolding Service.create_subject Subjects.create_subject check_create resolve_type
    get_by_tenant_and_type ref_of Slug.subject_type slug_match is_alnum subject_to_result
    strip_start strip_end Subjects.get_by_external_ref Subjects.violates
create-runs = refl

create_subject-type_example : (value : List ℕ) × (Slug.subject_type (codes "patient") ≡ ok value)
create_subject-type_example =
    create_subject-type conforms [] true "p3" 9 "t1" "t1" "patient" (some " r3 ") none none
      (person "p1" "r1" ∷ []) (person "p1" "r1" ∷ stored ∷ []) result create-runs

abbrev link : Relationship ℕ
link = record {
  id = "l1";
  tenant_id = "t1";
  source_subject_id = "p1";
  target_subject_id = "p2";
  relationship_kind = "parent";
  payload = none;
  created_at = 4;
}

abbrev world : Linked ℕ
world = record { links = []; events = []; audits = [] }

abbrev linked : Linked ℕ
linked = record {
  links = link ∷ [];
  events = [];
  audits = audit "t1" "subject_relationship" created ∷ [];
}

add-runs :
    add_relationship none none "l1" 4 "t1" "t1" "p1" "p2" "parent" none people world
    ≡ (linked, ok link)
unfolding add_relationship check_add create emit_both ensure_subject_in_tenant get_by_id
    get_by_id_and_tenant Slug.subject_type slug_match is_alnum subject_to_result
    Relations.check_create Relations.violates Relations.validate_relationship_kind
add-runs = refl

add_relationship-remove_example : remove_relationship none "t1" "t1" "p1" "p2" "parent" linked ≡ (
  record world {
    audits =
        audit "t1" "subject_relationship" created ∷ audit "t1" "subject_relationship" deleted ∷ [];
  },
  ok true,
)
add_relationship-remove_example =
    add_relationship-remove none "l1" 4 "t1" "t1" "p1" "p2" "parent" none people world linked link
      add-runs

add_relationship-HasEnds_example :
    All
      (HasEnds people)
      ((add_relationship none none "l1" 4 "t1" "t1" "p1" "p2" "parent" none people world).0).links
add_relationship-HasEnds_example =
    add_relationship-HasEnds none none "l1" 4 "t1" "t1" "p1" "p2" "parent" none people world tt

abbrev timeline_of : Timeline ℕ
timeline_of = record {
  service = service;
  text = λ s. 0;
  first = record { new_id = "e3"; now = 100; races = λ k. quiet };
  second = record { new_id = "e4"; now = 100; races = λ k. quiet };
}

abbrev hospital : Linked ℕ
hospital = record { links = []; events = two_rows; audits = [] }

abbrev records : Records ℕ
records = record {
  subjects = people;
  documents = document "d1" 5 ∷ [];
  links = link ∷ [];
  events = chain "e1" "e2";
  email_accounts = [];
  audits = [];
}

entity : get_entity_by_id_and_tenant "t1" "p1" "t1" people ≡ some (person "p1" "r1")
unfolding get_entity_by_id_and_tenant
entity = refl

entity-read : get_by_id_and_tenant "t1" "p1" "t1" people ≡ ok (some (read "p1" "r1"))
unfolding get_by_id get_by_id_and_tenant Slug.subject_type slug_match is_alnum subject_to_result
entity-read = refl

erase_subject_data-has_events_example :
    ((erase_subject_data delete "t1" "t1" "p1" 60 records).1 ≡ raise integrity)
    × (((erase_subject_data delete "t1" "t1" "p1" 60 records).0).subjects ≡ people)
erase_subject_data-has_events_example =
    erase_subject_data-has_events "t1" "p1" 60 records (person "p1" "r1") (read "p1" "r1") entity
      entity-read refl

erase_subject_data-second_redaction_example :
    erase_subject_data anonymize "t1" "t1" "p1" 60 records ≡ (records, raise integrity)
erase_subject_data-second_redaction_example =
    erase_subject_data-second_redaction "t1" "p1" 60 records (person "p1" "r1") (read "p1" "r1")
      entity entity-read refl

abbrev single : Records ℕ
single = record {
  subjects = person "p1" "r1" ∷ [];
  documents = document "d1" 5 ∷ [];
  links = [];
  events = [];
  email_accounts = [];
  audits = [];
}

abbrev linked_pair : Records ℕ
linked_pair = record {
  subjects = people;
  documents = record (document "d1" 5) { subject_id = "p2" } ∷ [];
  links = link ∷ [];
  events = [];
  email_accounts = "p2" ∷ [];
  audits = [];
}

abbrev unlinked : Records ℕ
unlinked = record linked_pair {
  subjects = person "p2" "[REDACTED]" ∷ [];
  links = [];
  audits = audit "t1" "subject" deleted ∷ [];
}

-- A document of the subject refuses the deletion.
with_document : (erase_subject_data delete "t1" "t1" "p1" 60 single).1 ≡ raise integrity
unfolding erase_subject_data erase_by delete_row get_by_id get_by_id_and_tenant Slug.subject_type
    slug_match is_alnum subject_to_result get_entity_by_id_and_tenant is_referenced erase_documents
    Repository.get_by_subject Documents.soft_delete
with_document = refl

abbrev blanked : Records ℕ
blanked = record single {
  subjects = record (person "p1" "[REDACTED]") { display_name = some "[REDACTED]" } ∷ [];
  documents = record (document "d1" 5) { deleted_at = some 60 } ∷ [];
  audits = audit "t1" "subject" updated ∷ audit "t1" "document" deleted ∷ [];
}

single-blanked : erase_subject_data anonymize "t1" "t1" "p1" 60 single ≡ (blanked, ok tt)
unfolding erase_subject_data erase_by delete_row get_by_id get_by_id_and_tenant Slug.subject_type
    slug_match is_alnum subject_to_result get_entity_by_id_and_tenant is_referenced erase_documents
    Repository.get_by_subject Documents.soft_delete Subjects.update_subject
single-blanked = refl

erase_subject_data-IsRedacted_example : IsRedacted "t1" "p1" single blanked
erase_subject_data-IsRedacted_example =
    erase_subject_data-IsRedacted "t1" "p1" 60 single blanked single-blanked
