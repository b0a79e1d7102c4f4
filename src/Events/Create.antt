-- ===== src/Events/Create.antt =====
-- `EventService.create_event` of app/application/use_cases/events/create_event.py.
--
-- The service's collaborators are the fields of `Service`. What other sessions commit is explicit:
-- attempt k of the retry loop first sees the rows `before`, and the rows `during` arrive between
-- its read of the last event and its insert. (The row lock keeps other holders of the lock out;
-- `create_events_bulk` does not take it.) The session has no transaction yet when an attempt begins
-- one, where `begin` would raise, and one new id stands for the ids of all attempts. Workflows are triggered after the event is stored, and
-- are the subject of the module Workflow.
pub mod Attempt
pub mod Calls
pub mod Last
use timeline.Base.{
  ℕ, zero, suc, String, Bool, true, false, not, ◌&&◌, Option, none, some, List, ◌++◌, Dict,
  is_empty, contains, if◌then◌else◌, Error, Outcome, ok, raise, raise_if, not_found, validation,
  integrity, chain_fork, ◌>>=◌, ◌>>◌,
}
use timeline.Events.Row.{EventCreate, EventResult, HashContent, compute_hash}
use timeline.Events.Store.{Table, hash_of, get_last_event}
use timeline.Events.Store
use timeline.Events.Entity.{EventEntity, validate_event_time_after_previous, event_result_to_entity}

-- The constructor's arguments. `subject id tenant` gives the subject's type if it is found;
-- `type_config tenant type` the allowed event types of a configured subject type. An absent
-- optional collaborator is `none`.
pub record Service (V : Type 0) : Type 0 where
  pub subject : String → String → Option String
  pub type_config : Option (String → String → Option (Option (List String)))
  pub schema_validator : Option (String → String → ℕ → Dict V → Option String → Outcome (Unit {0}))
  pub transition_validator :
      Option (Table V → String → String → String → Option String → Outcome (Unit {0}))
  pub digest : HashContent V → String

-- What other sessions commit around one attempt, on the table that they find.
pub record Race (V : Type 0) : Type 0 where
  pub before : Table V → Table V
  pub during : Table V → Table V

abbrev pub max_retries : ℕ
max_retries = 3

-- `if allowed and event_type not in allowed: raise ValidationException`
abbrev pub check_allowed : Option (Option (List String)) → String → Outcome (Unit {0})
check_allowed (some (some allowed)) event_type =
    raise_if (not (is_empty allowed) && not (contains allowed event_type)) (validation "event_type")
check_allowed _ event_type = ok tt

module _ {V : Type 0} where
  abbrev pub check_type : Service V → String → String → String → Outcome (Unit {0})
  check_type svc tenant subject_type event_type = elim svc.type_config [
    | none ↦ ok tt
    | some repo ↦ check_allowed (repo tenant subject_type) event_type
  ]

  abbrev pub check_schema : Service V → String → EventCreate V → String → Outcome (Unit {0})
  check_schema svc tenant d subject_type = elim svc.schema_validator [
    | none ↦ ok tt
    | some validate ↦ validate tenant d.event_type d.schema_version d.payload (some subject_type)
  ]

  abbrev pub check_transition : Service V → Table V → String → EventCreate V → Outcome (Unit {0})
  check_transition svc rows tenant d = elim svc.transition_validator [
    | none ↦ ok tt
    | some validate ↦ validate rows tenant d.subject_id d.event_type d.workflow_instance_id
  ]

  abbrev pub find_subject : Service V → String → String → Outcome String
  find_subject svc subject tenant = elim (svc.subject subject tenant) [
    | none ↦ raise (not_found "subject" subject)
    | some t ↦ ok t
  ]

  -- What `create_event` checks before it opens a transaction.
  unfoldable pub check_event : Service V → Table V → String → EventCreate V → Outcome (Unit {0})
  check_event svc rows tenant d = do
    subject_type ← find_subject svc d.subject_id tenant
    check_type svc tenant subject_type d.event_type
    check_schema svc tenant d subject_type
    check_transition svc rows tenant d

  abbrev pub time_of : Option (EventResult V) → Option ℕ
  time_of none = none
  time_of (some e) = some e.event_time

  abbrev pub event_hash : Service V → EventCreate V → Option String → String
  event_hash svc d previous =
      compute_hash svc.digest d.subject_id d.event_type d.schema_version d.event_time d.payload
        previous

  -- The insert, once the time is checked: `seen` is the table at the read, `rows` at the insert.
  abbrev pub store_event :
      Service V
      → String
      → String
      → EventCreate V
      → Option (EventResult V)
      → Outcome (Unit {0})
      → Table V
      → Table V × Outcome (EventResult V)
  store_event svc new_id tenant d last (raise e) rows = (rows, raise e)
  store_event svc new_id tenant d last (ok _) rows =
      Store.create_event new_id tenant d (event_hash svc d (hash_of last)) (hash_of last) rows

  -- One pass of the loop: the transaction with the lock. What raises is rolled back.
  unfoldable pub attempt :
      Service V
      → String
      → String
      → EventCreate V
      → Race V
      → Table V
      → Table V × Outcome (EventResult V)
  attempt svc new_id tenant d race rows =
      let seen = rows ++ race.before rows in
      let last = get_last_event d.subject_id tenant seen in
      store_event svc new_id tenant d last
        (validate_event_time_after_previous d.event_time (time_of last)) (seen ++ race.during seen)

  abbrev pub is_integrity : Outcome (EventResult V) → Bool
  is_integrity (raise integrity) = true
  is_integrity _ = false

  -- `for attempt in range(MAX_RETRIES)`: an `IntegrityError` is tried again while passes are left.
  unfoldable pub append :
      ℕ
      → Service V
      → String
      → String
      → EventCreate V
      → (ℕ → Race V)
      → Table V
      → Table V × Outcome (EventResult V)
  unfolding attempt
  append zero svc new_id tenant d races rows = (rows, raise (chain_fork d.subject_id))
  append (suc n) svc new_id tenant d races rows =
      let (rows', result) = attempt svc new_id tenant d (races n) rows in
      let again = append n svc new_id tenant d races rows' in
      if is_integrity result then again else (rows', result)

  -- The rest of the call, once the checks have returned or raised.
  abbrev pub run_checked :
      Service V
      → ℕ
      → String
      → String
      → EventCreate V
      → (ℕ → Race V)
      → Table V
      → Outcome (Unit {0})
      → Table V × Outcome (EventEntity V)
  run_checked svc now new_id tenant d races rows (raise e) = (rows, raise e)
  run_checked svc now new_id tenant d races rows (ok _) =
      let (rows', created) = append max_retries svc new_id tenant d races rows in
      (rows', created >>= event_result_to_entity now)

  -- The call up to the point where workflows are triggered.
  unfoldable pub create_event :
      Service V
      → ℕ
      → String
      → String
      → EventCreate V
      → (ℕ → Race V)
      → Table V
      → Table V × Outcome (EventEntity V)
  create_event svc now new_id tenant d races rows =
      run_checked svc now new_id tenant d races rows (check_event svc rows tenant d)
