-- ===== src/Examples/Chains.antt =====
-- Appending, one by one and in bulk, at concrete inputs.
use timeline.Base.{ℕ, zero, suc, String, true, [], ◌∷◌, Outcome, ok, raise, none, some, refl, ◌≡◌}
use timeline.Events.Store
use timeline.Events.Store.{get_last_event, violates}
use timeline.Events.Row.{EventResult}
use timeline.Values.Hashes.{make_hash, to_lower, is_hex, make_chain}
use timeline.Events.Entity.{
  EventEntity, event_result_to_entity, validate_event_time_after_previous, previous_hash_of,
  validate,
}
use timeline.Events.Create.Last.{create_event-get_last_event}
use timeline.Events.Chain.{IsIntact}
use timeline.Events.Create.{Service, create_event, append, attempt, check_event}
use timeline.Events.Create.Calls.{create_event-IsIntact}
use timeline.Events.Bulk.{create_events_bulk}
use timeline.Events.Bulk.Keeps.{create_events_bulk-IsIntact}
use timeline.Examples.Data.{
  service, request, quiet, quiet-IsFair, digest_of, one_row, two_rows, one_row-IsIntact,
  two_rows-IsIntact,
}

create_event-IsIntact_example :
    IsIntact digest_of
      (create_event service 100 "e3" "t1" (request "left" 30) (λ k. quiet) two_rows).0
create_event-IsIntact_example =
    create_event-IsIntact service 100 "e3" "t1" (request "left" 30) (λ k. quiet) two_rows
      (λ k. quiet-IsFair) two_rows-IsIntact

abbrev new_ids : ℕ → String
new_ids zero = "b0"
new_ids (suc n) = "b1"

create_events_bulk-IsIntact_example :
    IsIntact digest_of
      (create_events_bulk service 100 true new_ids "t1"
        (request "moved" 30 ∷ request "left" 40 ∷ [])
        one_row).0
create_events_bulk-IsIntact_example =
    create_events_bulk-IsIntact service 100 true new_ids "t1"
      (request "moved" 30 ∷ request "left" 40 ∷ []) one_row one_row-IsIntact

-- A service whose digest is a text of 64 hexadecimal digits.
abbrev hex_service : Service ℕ
hex_service = record {
  subject = λ subject tenant. some "patient";
  type_config = none;
  schema_validator = none;
  transition_validator = none;
  digest = λ c. "aaaaaaaaaaaaaaaaaaaaaaaaaaaaaaaaaaaaaaaaaaaaaaaaaaaaaaaaaaaaaaaa";
}

abbrev entity_or : EventEntity ℕ → Outcome (EventEntity ℕ) → EventEntity ℕ
entity_or other (ok e) = e
entity_or other (raise x) = other

abbrev no_entity : EventEntity ℕ
no_entity = record {
  id = "";
  tenant_id = "";
  subject_id = "";
  event_type = "";
  event_time = 0;
  payload = [];
  chain = record { current_hash = []; previous_hash = none };
  workflow_instance_id = none;
  correlation_id = none;
}

-- The entity that the call returns.
abbrev admitted : EventEntity ℕ
admitted =
    entity_or no_entity
      (create_event hex_service 100 "e1" "t1" (request "admitted" 10) (λ k. quiet) []).1

returns-admitted :
    (create_event hex_service 100 "e1" "t1" (request "admitted" 10) (λ k. quiet) []).1 ≡ ok admitted
unfolding create_event append attempt check_event get_last_event Store.create_event Store.create
    violates validate_event_time_after_previous event_result_to_entity make_hash to_lower is_hex
    previous_hash_of make_chain validate
returns-admitted = refl

create_event-get_last_event_example :
    (e : EventResult ℕ) × (get_last_event "p1" "t1"
        (create_event hex_service 100 "e1" "t1" (request "admitted" 10) (λ k. quiet) []).0
      ≡ some e)
    × (event_result_to_entity 100 e ≡ ok admitted)
create_event-get_last_event_example =
    create_event-get_last_event hex_service "e1" "t1" (request "admitted" 10) 100 (λ k. quiet) []
      admitted returns-admitted
