-- ===== src/Events/Bulk.antt =====
-- `EventService.create_events_bulk` of app/application/use_cases/events/create_event.py.
--
-- A Python set of texts is the list of its members without repeats; which missing subject is named
-- when several are missing is not determined by the source, and here it is the first.
pub mod Tips
pub mod Keeps
use timeline.Base.{
  ℕ, suc, ◌+◌, String, Bool, true, false, not, ◌&&◌, Option, none, some, List, [], ◌∷◌, ◌++◌, map,
  Dict, lookup, insert, contains, is_empty, all, if◌then◌else◌, ◌==◌, Error, Outcome, ok, raise,
  raise_if, not_found, other_error, integrity, ◌>>=◌, ◌>>◌,
}
use timeline.Events.Row.{EventCreate, EventResult, EventToPersist}
use timeline.Events.Store.{Table, violates, get_last_events_for_subjects}
use timeline.Events.Entity.{EventEntity, validate_event_time_after_previous, event_result_to_entity}
use timeline.Events.Create.{
  Service, find_subject, check_type, check_transition, check_schema, event_hash,
}

-- An entry `(prev_hash, prev_time)` of `chain_state`.
pub record Tip : Type 0 where
  pub hash : Option String
  pub time : Option ℕ

abbrev add_member : String → List String → List String
add_member s members = if contains members s then members else members ++ s ∷ []

-- `chain_state[sid]`
abbrev pub tip_at : String → Dict Tip → Outcome Tip
tip_at s state = elim (lookup s state) [ none ↦ raise other_error | some tip ↦ ok tip ]

module _ {V : Type 0} where
  abbrev pub subject_ids_from : List String → List (EventCreate V) → List String
  subject_ids_from members [] = members
  subject_ids_from members (d ∷ ds) = subject_ids_from (add_member d.subject_id members) ds

  -- The sets `subject_ids` and `subject_by_id`: every subject is found, or the call raises.
  abbrev pub find_subjects : Service V → String → List String → Outcome (Unit {0})
  find_subjects svc tenant [] = ok tt
  find_subjects svc tenant (s ∷ ids) = do
    t ← find_subject svc s tenant
    find_subjects svc tenant ids

  abbrev pub check_types : Service V → String → List (EventCreate V) → Outcome (Unit {0})
  check_types svc tenant [] = ok tt
  check_types svc tenant (d ∷ ds) = do
    subject_type ← find_subject svc d.subject_id tenant
    check_type svc tenant subject_type d.event_type
    check_types svc tenant ds

  abbrev pub tip_of : Option (EventResult V) → Tip
  tip_of none = record { hash = none; time = none }
  tip_of (some e) = record { hash = some e.hash; time = some e.event_time }

  -- `last_events.get(sid)`, where an absent key is None.
  abbrev flat : Option (Option (EventResult V)) → Option (EventResult V)
  flat (some last) = last
  flat none = none

  unfoldable pub chain_state : List String → Dict (Option (EventResult V)) → Dict Tip
  chain_state [] last_events = []
  chain_state (s ∷ ids) last_events =
      (s, tip_of (flat (lookup s last_events))) ∷ chain_state ids last_events

  abbrev pub check_batch_schema : Service V → Bool → String → EventCreate V → Outcome (Unit {0})
  check_batch_schema svc true tenant d = ok tt
  check_batch_schema svc false tenant d = do
    subject_type ← find_subject svc d.subject_id tenant
    check_schema svc tenant d subject_type

  abbrev pub to_persist : Service V → EventCreate V → Option String → EventToPersist V
  to_persist svc d previous = record {
    subject_id = d.subject_id;
    event_type = d.event_type;
    schema_version = d.schema_version;
    event_time = d.event_time;
    payload = d.payload;
    hash = event_hash svc d previous;
    previous_hash = previous;
    workflow_instance_id = d.workflow_instance_id;
    correlation_id = d.correlation_id;
  }

  -- The loop that builds `to_persist`. The transition validator reads the table `rows` as it was
  -- before the call.
  unfoldable pub plan :
      Service V
      → Bool
      → String
      → Table V
      → Dict Tip
      → List (EventCreate V)
      → Outcome (List (EventToPersist V))
  plan svc skip tenant rows state [] = ok []
  plan svc skip tenant rows state (d ∷ ds) = do
    tip ← tip_at d.subject_id state
    validate_event_time_after_previous d.event_time tip.time
    check_transition svc rows tenant d
    check_batch_schema svc skip tenant d
    let event = to_persist svc d tip.hash
    let next : Tip = record { hash = some event.hash; time = some d.event_time }
    rest ← plan svc skip tenant rows (insert d.subject_id next state) ds
    ok (event ∷ rest)

  abbrev pub persisted : String → String → EventToPersist V → EventResult V
  persisted new_id tenant e = record {
    id = new_id;
    tenant_id = tenant;
    subject_id = e.subject_id;
    event_type = e.event_type;
    schema_version = e.schema_version;
    event_time = e.event_time;
    payload = e.payload;
    previous_hash = e.previous_hash;
    hash = e.hash;
    workflow_instance_id = e.workflow_instance_id;
    correlation_id = e.correlation_id;
  }

  -- The objects of `EventRepository.create_events_bulk`, with their generated ids.
  abbrev pub persisted_from : (ℕ → String) → ℕ → String → List (EventToPersist V) → Table V
  persisted_from new_ids i tenant [] = []
  persisted_from new_ids i tenant (e ∷ es) =
      persisted (new_ids i) tenant e ∷ persisted_from new_ids (i + 1) tenant es

  -- One flush writes all the rows, or a unique index refuses one and none is written.
  unfoldable pub flush : Table V → Table V → Outcome (Table V)
  flush rows [] = ok rows
  flush rows (e ∷ es) =
      let rest = flush (rows ++ e ∷ []) es in if violates rows e then raise integrity else rest

  abbrev pub entities : ℕ → Table V → Outcome (List (EventEntity V))
  entities now [] = ok []
  entities now (e ∷ es) = do x ← event_result_to_entity now e; xs ← entities now es; ok (x ∷ xs)

  -- The rows to write: everything before the insert.
  unfoldable pub bulk_rows :
      Service V → Bool → (ℕ → String) → String → List (EventCreate V) → Table V → Outcome (Table V)
  bulk_rows svc skip new_ids tenant events rows = do
    let ids = subject_ids_from [] events
    find_subjects svc tenant ids
    check_types svc tenant events
    let state = chain_state ids (get_last_events_for_subjects tenant ids rows)
    planned ← plan svc skip tenant rows state events
    ok (persisted_from new_ids 0 tenant planned)

  abbrev pub write_rows :
      ℕ → Table V → Table V → Outcome (Table V) → Table V × Outcome (List (EventEntity V))
  write_rows now rows new (raise e) = (rows, raise e)
  write_rows now rows new (ok rows') = (rows', entities now new)

  abbrev pub insert_rows :
      ℕ → Table V → Outcome (Table V) → Table V × Outcome (List (EventEntity V))
  insert_rows now rows (raise e) = (rows, raise e)
  insert_rows now rows (ok new) = write_rows now rows new (flush rows new)

  unfoldable pub create_events_bulk :
      Service V
      → ℕ
      → Bool
      → (ℕ → String)
      → String
      → List (EventCreate V)
      → Table V
      → Table V × Outcome (List (EventEntity V))
  create_events_bulk svc now skip new_ids tenant [] rows = (rows, ok [])
  create_events_bulk svc now skip new_ids tenant (d ∷ ds) rows =
      insert_rows now rows (bulk_rows svc skip new_ids tenant (d ∷ ds) rows)
