-- ===== src/Subjects/Erasure/Delete.antt =====
-- Erasing a subject by deletion.
use timeline.Base.{
  ℕ, String, ◌≡◌, refl, true, false, not, ◌||◌, Option, some, List, any, All, find, ◌==◌, eq_refl,
  Option-cases, ok, raise, integrity, inl, inr,
}
use timeline.Events.Row.{EventResult}
use timeline.Subjects.{
  Subject, SubjectResult, has_id, get_entity_by_id_and_tenant, get_by_id, get_by_id_and_tenant,
  optional_result,
}
use timeline.Subjects.Relations.{Relationship}
use timeline.Subjects.Erasure.{
  Records, delete, erase_all_documents, is_referenced, delete_found, delete_row, erase_by,
  erase_subject_data, of_subject,
}

module _ {V : Type 0} where
  -- A row in the table makes the deletion of its subject reach the foreign keys.
  referenced_by_event :
      (subject_id : String) (db : Records V)
      → any (λ (e : EventResult V). e.subject_id == subject_id) db.events ≡ true
      → is_referenced subject_id db ≡ true
  unfolding is_referenced
  referenced_by_event subject_id db h = rw h refl

  delete_found-refused :
      (subject_id : String) (found : Option (Subject V)) (db : Records V)
      → is_referenced subject_id db ≡ true
      → (s : Subject V) → found ≡ some s
      → delete_found subject_id found db ≡ (db, raise integrity)
  delete_found-refused subject_id found db h s e = rw (e, h) refl

  -- A subject that has an event cannot be erased by deletion: the call raises an integrity error,
  -- and the subject's row is still there.
  pub erase_subject_data-has_events :
      (tenant subject_id : String) (now : ℕ) (db : Records V) (s : Subject V) (r : SubjectResult V)
      → get_entity_by_id_and_tenant tenant subject_id tenant db.subjects ≡ some s
      → get_by_id_and_tenant tenant subject_id tenant db.subjects ≡ ok (some r)
      → any (λ (e : EventResult V). e.subject_id == subject_id) db.events ≡ true
      → ((erase_subject_data delete tenant tenant subject_id now db).1 ≡ raise integrity)
        × (((erase_subject_data delete tenant tenant subject_id now db).0).subjects ≡ db.subjects)
  unfolding erase_subject_data erase_by delete_row
  erase_subject_data-has_events tenant subject_id now db s r entity found h =
      let db' = erase_all_documents tenant subject_id now db in
      let refused = referenced_by_event subject_id db' h in rw (found, entity, refused) (refl, refl)

  -- No row of the tables refers to the subject.
  abbrev pub IsGone : String → Records V → Type 0
  IsGone subject_id db =
      All (λ (s : Subject V). not (s.id == subject_id) ≡ true) db.subjects
      × All (λ d. not (of_subject subject_id d) ≡ true) db.documents
      × All
          (λ (r : Relationship V).
            not (r.source_subject_id == subject_id || r.target_subject_id == subject_id) ≡ true)
          db.links
      × (any (λ (e : EventResult V). e.subject_id == subject_id) db.events ≡ false)

  -- The row that was read.
  pub entity_of_result :
      (tenant subject_id : String) (rows : List (Subject V)) (r : SubjectResult V)
      → get_by_id_and_tenant tenant subject_id tenant rows ≡ ok (some r)
      → (s : Subject V) × (get_entity_by_id_and_tenant tenant subject_id tenant rows ≡ some s)
        × (optional_result (some s) ≡ ok (some r))
  unfolding get_by_id_and_tenant get_by_id get_entity_by_id_and_tenant
  entity_of_result tenant subject_id rows r h =
      elim (Option-cases (find (has_id subject_id tenant) rows)) [
        | inl missing ↦ absurd (let stop = rw (eq_refl tenant, missing) at h in cc)
        | inr (s, there) ↦ (s, rw (eq_refl tenant, there) refl, rw (eq_refl tenant, there) at h)
      ]
