-- ===== src/Events/Entity.antt =====
-- `EventEntity` of app/domain/entities/event.py, and `_event_result_to_entity` of
-- app/application/use_cases/events/create_event.py, which builds one from a stored event.
use timeline.Base.{
  ℕ, String, Option, none, some, List, Dict, is_empty, leb, ltb, if◌then◌else◌, ◌==◌, Outcome, ok,
  validation, value_error, raise_if, ◌>>=◌, ◌>>◌,
}
use timeline.Values.Slug.{codes}
use timeline.Values.Hashes.{EventChain, make_hash, make_chain}
use timeline.Events.Row.{EventResult}

pub record EventEntity (V : Type 0) : Type 0 where
  pub id : String
  pub tenant_id : String
  pub subject_id : String
  pub event_type : String
  pub event_time : ℕ
  pub payload : Dict V
  pub chain : EventChain
  pub workflow_instance_id : Option String
  pub correlation_id : Option String

-- A new event's time must be after the previous event's.
unfoldable pub validate_event_time_after_previous : ℕ → Option ℕ → Outcome (Unit {0})
validate_event_time_after_previous new_time none = ok tt
validate_event_time_after_previous new_time (some previous_time) =
    raise_if (leb new_time previous_time) (validation "event_time")

-- `Hash(r.previous_hash) if r.previous_hash else None`
unfoldable pub previous_hash_of : Option String → Outcome (Option (List ℕ))
unfolding make_hash
previous_hash_of none = ok none
previous_hash_of (some h) = if h == "" then ok none else (do v ← make_hash (codes h); ok (some v))

module _ {V : Type 0} where
  -- `EventEntity.validate` at the time `now`.
  unfoldable pub validate : ℕ → EventEntity V → Outcome (Unit {0})
  validate now e = do
    raise_if (e.id == "") (validation "id")
    raise_if (e.tenant_id == "") (validation "tenant_id")
    raise_if (e.subject_id == "") (validation "subject_id")
    raise_if (ltb now e.event_time) (validation "event_time")
    raise_if (is_empty e.payload) (validation "payload")

  unfoldable pub event_result_to_entity : ℕ → EventResult V → Outcome (EventEntity V)
  unfolding make_hash previous_hash_of make_chain validate
  event_result_to_entity now r = do
    current ← make_hash (codes r.hash)
    previous ← previous_hash_of r.previous_hash
    chain ← make_chain current previous
    raise_if (r.event_type == "") value_error
    let entity : EventEntity V = record {
      id = r.id;
      tenant_id = r.tenant_id;
      subject_id = r.subject_id;
      event_type = r.event_type;
      event_time = r.event_time;
      payload = r.payload;
      chain = chain;
      workflow_instance_id = r.workflow_instance_id;
      correlation_id = r.correlation_id;
    }
    validate now entity
    ok entity
