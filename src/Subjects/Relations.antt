-- ===== src/Subjects/Relations.antt =====
-- Relationships between subjects: `SubjectRelationshipService` of
-- app/application/use_cases/subjects/subject_relationship_operations.py, and
-- app/infrastructure/persistence/repositories/subject_relationship_repo.py.
--
-- A unique index allows one row for each tenant, source, target and kind. With an event service,
-- each call also stores an event on the timeline of both subjects, through `create_event` of Events
-- without workflows; `text` makes a JSON value of a text. A call gives the relationships, the events
-- and the audit entries after it, also when it raises. `create` and `delete` give the table; the audit
-- entries of the repository are added where the service calls them.
pub mod Laws
pub mod Timelines
use timeline.Base.{
  ℕ, String, Bool, true, false, not, ◌&&◌, ◌||◌, Option, none, some, List, [], ◌∷◌, ◌++◌, map,
  length, select, any, contains, find, sort_with, leb, is_none, is_empty, if◌then◌else◌, ◌==◌, Dict,
  Error, Outcome, ok, raise, raise_if, ◌>>◌, ◌>>=◌, validation, not_found, integrity,
}
use timeline.Events.Row.{EventCreate, EventResult}
use timeline.Events.Store.{Table}
use timeline.Events.Entity.{EventEntity}
use timeline.Events.Create
use timeline.Events.Create.{Service, Race}
use timeline.Subjects.Audit.{Audit, audit, created, deleted}
use timeline.Subjects.{Subject, SubjectResult, has_id, get_by_id_and_tenant}

module _ (V : Type 0) where
  pub record Relationship : Type 0 where
    pub id : String
    pub tenant_id : String
    pub source_subject_id : String
    pub target_subject_id : String
    pub relationship_kind : String
    pub payload : Option (Dict V)
    pub created_at : ℕ

module _ {V : Type 0} where
  abbrev pub is_link : String → String → String → String → Relationship V → Bool
  is_link scope source target kind r =
      r.tenant_id == scope
      && r.source_subject_id == source
      && r.target_subject_id == target
      && r.relationship_kind == kind

  abbrev pub check_exists : String → String → String → List (Subject V) → Outcome (Unit {0})
  check_exists scope label subject_id subjects =
      raise_if (is_none (find (has_id subject_id scope) subjects)) (validation label)

  unfoldable pub check_create :
      String → String → String → String → List (Subject V) → Outcome (Unit {0})
  check_create scope tenant source target subjects = do
    raise_if (not (tenant == scope)) (validation "tenant_id")
    check_exists scope "source_subject_id" source subjects
    check_exists scope "target_subject_id" target subjects
    raise_if (source == target) (validation "target_subject_id")

  abbrev pub new_link :
      String → ℕ → String → String → String → String → Option (Dict V) → Relationship V
  new_link new_id now scope source target kind payload = record {
    id = new_id;
    tenant_id = scope;
    source_subject_id = source;
    target_subject_id = target;
    relationship_kind = kind;
    payload = payload;
    created_at = now;
  }

  -- The primary key or the unique index refuses the row.
  unfoldable pub violates : List (Relationship V) → Relationship V → Bool
  violates links r =
      any
        (λ l.
          l.id == r.id
          || is_link r.tenant_id r.source_subject_id r.target_subject_id r.relationship_kind l)
        links

  abbrev pub insert_link :
      Outcome (Unit {0})
      → Relationship V
      → List (Relationship V)
      → List (Relationship V) × Outcome (Relationship V)
  insert_link (raise e) r links = (links, raise e)
  insert_link (ok done) r links =
      if violates links r then (links, raise integrity) else (links ++ r ∷ [], ok r)

  unfoldable pub create :
      String
      → ℕ
      → String
      → String
      → String
      → String
      → String
      → Option (Dict V)
      → List (Subject V)
      → List (Relationship V)
      → List (Relationship V) × Outcome (Relationship V)
  create new_id now scope tenant source target kind payload subjects links =
      insert_link (check_create scope tenant source target subjects)
        (new_link new_id now scope source target kind payload) links

  -- The unique index makes the row the only one.
  abbrev pub delete_found :
      Option (Relationship V) → List (Relationship V) → List (Relationship V) × Bool
  delete_found none links = (links, false)
  delete_found (some r) links = (select (λ l. not (l.id == r.id)) links, true)

  unfoldable pub delete :
      String
      → String
      → String
      → String
      → String
      → List (Relationship V)
      → List (Relationship V) × Bool
  delete scope tenant source target kind links =
      if not (tenant == scope)
      then (links, false)
      else delete_found (find (is_link scope source target kind) links) links

  abbrev pub touches : Bool → Bool → String → Relationship V → Bool
  touches as_source as_target subject_id r =
      as_source && r.source_subject_id == subject_id
      || as_target && r.target_subject_id == subject_id

  abbrev pub of_kind : Option String → Relationship V → Bool
  of_kind none r = true
  of_kind (some kind) r = r.relationship_kind == kind

  unfoldable pub list_for_subject :
      String
      → String
      → String
      → Bool
      → Bool
      → Option String
      → List (Relationship V)
      → List (Relationship V)
  list_for_subject scope tenant subject_id as_source as_target kind links =
      if not (tenant == scope)
      then []
      else sort_with (λ (a b : Relationship V). leb b.created_at a.created_at)
          (select
            (λ r.
              r.tenant_id == scope && touches as_source as_target subject_id r && of_kind kind r)
            links)

  -- `_ensure_subject_in_tenant`
  unfoldable pub ensure_subject_in_tenant :
      String → String → String → List (Subject V) → Outcome (Unit {0})
  ensure_subject_in_tenant scope tenant subject_id subjects = do
    subject ← get_by_id_and_tenant scope subject_id tenant subjects
    raise_if (is_none subject) (not_found "subject" subject_id)

-- `_validate_relationship_kind`: the kinds that the tenant has configured, if there is a
-- repository of them.
unfoldable pub validate_relationship_kind : Option (List String) → String → Outcome (Unit {0})
validate_relationship_kind none kind = ok tt
validate_relationship_kind (some kinds) kind =
    raise_if (not (is_empty kinds) && not (contains kinds kind)) (validation "relationship_kind")

-- What an event takes from its moment: its id, the clock, and the other sessions.
pub record Moment (V : Type 0) : Type 0 where
  pub new_id : String
  pub now : ℕ
  pub races : ℕ → Race V

-- The event service that a call may have, with the moments of its two events.
pub record Timeline (V : Type 0) : Type 0 where
  pub service : Service V
  pub text : String → V
  pub first : Moment V
  pub second : Moment V

module _ {V : Type 0} where
  abbrev pub relationship_event :
      Timeline V → Moment V → String → String → String → String → EventCreate V
  relationship_event t at subject type other kind = record {
    subject_id = subject;
    event_type = type;
    schema_version = 1;
    event_time = at.now;
    payload = ("related_subject_id", t.text other) ∷ ("relationship_kind", t.text kind) ∷ [];
    workflow_instance_id = none;
    correlation_id = none;
  }

  -- `_emit_relationship_event`
  unfoldable pub emit_relationship_event :
      Timeline V
      → Moment V
      → String
      → String
      → String
      → String
      → String
      → Table V
      → Table V × Outcome (EventEntity V)
  emit_relationship_event t at tenant subject type other kind events =
      Create.create_event t.service at.now at.new_id tenant
        (relationship_event t at subject type other kind) at.races events

  abbrev pub emit_second :
      Timeline V
      → String
      → String
      → String
      → String
      → String
      → Table V × Outcome (EventEntity V)
      → Table V × Outcome (Unit {0})
  emit_second t tenant source target kind type (events, raise e) = (events, raise e)
  emit_second t tenant source target kind type (events, ok first) =
      let (events', second) =
        emit_relationship_event t t.second tenant target type source kind events in
      (events', second >>= λ e. ok tt)

  -- The event on the source's timeline, then that on the target's.
  unfoldable pub emit_both :
      Option (Timeline V)
      → String
      → String
      → String
      → String
      → String
      → Table V
      → Table V × Outcome (Unit {0})
  emit_both none tenant source target kind type events = (events, ok tt)
  emit_both (some t) tenant source target kind type events =
      emit_second t tenant source target kind type
        (emit_relationship_event t t.first tenant source type target kind events)

-- The relationships, the events of all subjects but the audit subjects, and the audit entries.
pub record Linked (V : Type 0) : Type 0 where
  pub links : List (Relationship V)
  pub events : Table V
  pub audits : List Audit

module _ {V : Type 0} where
  abbrev pub answered {ℓ} :
      {A : Type ℓ}
      → List (Relationship V)
      → List Audit
      → A
      → Table V × Outcome (Unit {0})
      → Linked V × Outcome A
  answered links audits a (events, raise e) =
      (record { links = links; events = events; audits = audits }, raise e)
  answered links audits a (events, ok done) =
      (record { links = links; events = events; audits = audits }, ok a)

  unfoldable pub check_add :
      Option (List String)
      → String
      → String
      → String
      → String
      → String
      → List (Subject V)
      → Outcome (Unit {0})
  check_add kinds scope tenant source target kind subjects = do
    ensure_subject_in_tenant scope tenant source subjects
    ensure_subject_in_tenant scope tenant target subjects
    validate_relationship_kind kinds kind

  abbrev pub add_created :
      Option (Timeline V)
      → String
      → Linked V
      → List (Relationship V) × Outcome (Relationship V)
      → Linked V × Outcome (Relationship V)
  add_created timeline tenant world (links, raise e) = (record world { links = links }, raise e)
  add_created timeline tenant world (links, ok r) =
      answered links (world.audits ++ audit r.tenant_id "subject_relationship" created ∷ []) r (
        emit_both timeline tenant r.source_subject_id r.target_subject_id r.relationship_kind
          "relationship_added" world.events)

  abbrev pub add_checked :
      Outcome (Unit {0})
      → Option (Timeline V)
      → String
      → Linked V
      → List (Relationship V) × Outcome (Relationship V)
      → Linked V × Outcome (Relationship V)
  add_checked (raise e) timeline tenant world made = (world, raise e)
  add_checked (ok done) timeline tenant world made = add_created timeline tenant world made

  unfoldable pub add_relationship :
      Option (Timeline V)
      → Option (List String)
      → String
      → ℕ
      → String
      → String
      → String
      → String
      → String
      → Option (Dict V)
      → List (Subject V)
      → Linked V
      → Linked V × Outcome (Relationship V)
  add_relationship timeline kinds new_id now scope tenant source target kind payload subjects
        world =
      add_checked (check_add kinds scope tenant source target kind subjects) timeline tenant world
        (create new_id now scope tenant source target kind payload subjects world.links)

  abbrev pub remove_found :
      Option (Timeline V)
      → String
      → String
      → String
      → String
      → String
      → Linked V
      → List (Relationship V) × Bool
      → Linked V × Outcome Bool
  remove_found timeline scope tenant source target kind world (links, false) =
      (record world { links = links }, ok false)
  remove_found timeline scope tenant source target kind world (links, true) =
      answered links (world.audits ++ audit scope "subject_relationship" deleted ∷ []) true
        (emit_both timeline tenant source target kind "relationship_removed" world.events)

  unfoldable pub remove_relationship :
      Option (Timeline V)
      → String
      → String
      → String
      → String
      → String
      → Linked V
      → Linked V × Outcome Bool
  remove_relationship timeline scope tenant source target kind world =
      remove_found timeline scope tenant source target kind world
        (delete scope tenant source target kind world.links)

  unfoldable pub list_relationships :
      String
      → String
      → String
      → Bool
      → Bool
      → Option String
      → List (Subject V)
      → List (Relationship V)
      → Outcome (List (Relationship V))
  list_relationships scope tenant subject_id as_source as_target kind subjects links = do
    ensure_subject_in_tenant scope tenant subject_id subjects
    ok (list_for_subject scope tenant subject_id as_source as_target kind links)
