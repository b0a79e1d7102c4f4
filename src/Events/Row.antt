-- ===== src/Events/Row.antt =====
-- The event records of app/application/dtos/event.py, and the hash of
-- app/application/services/hash_service.py.
--
-- A datetime is the instant that it names, in microseconds: `event_time` is made aware when the
-- request is read, so `ensure_utc` does not change the instant. A payload is a dict from texts to
-- JSON values of a type `V`. `json.dumps` and `hashlib` are not code of the repository: together
-- they are the parameter `digest`.
use timeline.Base.{ℕ, String, Option, Dict}

module _ (V : Type 0) where
  pub record EventCreate : Type 0 where
    pub subject_id : String
    pub event_type : String
    pub schema_version : ℕ
    pub event_time : ℕ
    pub payload : Dict V
    pub workflow_instance_id : Option String
    pub correlation_id : Option String

  pub record EventResult : Type 0 where
    pub id : String
    pub tenant_id : String
    pub subject_id : String
    pub event_type : String
    pub schema_version : ℕ
    pub event_time : ℕ
    pub payload : Dict V
    pub previous_hash : Option String
    pub hash : String
    pub workflow_instance_id : Option String
    pub correlation_id : Option String

  pub record EventToPersist : Type 0 where
    pub subject_id : String
    pub event_type : String
    pub schema_version : ℕ
    pub event_time : ℕ
    pub payload : Dict V
    pub hash : String
    pub previous_hash : Option String
    pub workflow_instance_id : Option String
    pub correlation_id : Option String

  -- The dict that `compute_hash` serialises.
  pub record HashContent : Type 0 where
    pub subject_id : String
    pub event_type : String
    pub schema_version : ℕ
    pub event_time : ℕ
    pub payload : Dict V
    pub previous_hash : Option String

module _ {V : Type 0} where
  abbrev pub compute_hash :
      (HashContent V → String) → String → String → ℕ → ℕ → Dict V → Option String → String
  compute_hash digest subject_id event_type schema_version event_time payload previous_hash =
      digest (record {
        subject_id = subject_id;
        event_type = event_type;
        schema_version = schema_version;
        event_time = event_time;
        payload = payload;
        previous_hash = previous_hash;
      })

  -- What the hash of a stored event is computed from.
  abbrev pub content : EventResult V → HashContent V
  content e = record {
    subject_id = e.subject_id;
    event_type = e.event_type;
    schema_version = e.schema_version;
    event_time = e.event_time;
    payload = e.payload;
    previous_hash = e.previous_hash;
  }
