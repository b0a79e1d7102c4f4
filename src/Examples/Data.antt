-- ===== src/Examples/Data.antt =====
-- Events of a hospital patient, and a service with no optional collaborator.
use timeline.Base.{true, ℕ, String, Option, none, some, [], ◌∷◌, append-nil}
use timeline.Documents.{Document}
use timeline.Events.Row.{EventCreate, EventResult, HashContent}
use timeline.Events.Store.{Table}
use timeline.Events.Chain.{IsIntact}
use timeline.Events.Create.{Service, Race, create_event}
use timeline.Events.Create.Calls.{IsFair, create_event-IsIntact}

abbrev pub digest_of : HashContent ℕ → String
digest_of c = c.event_type

abbrev pub service : Service ℕ
service = record {
  subject = λ subject tenant. some "patient";
  type_config = none;
  schema_validator = none;
  transition_validator = none;
  digest = digest_of;
}

abbrev pub request : String → ℕ → EventCreate ℕ
request event_type time = record {
  subject_id = "p1";
  event_type = event_type;
  schema_version = 1;
  event_time = time;
  payload = ("step", time) ∷ [];
  workflow_instance_id = none;
  correlation_id = none;
}

abbrev pub quiet : Race ℕ
quiet = record { before = λ rows. []; during = λ rows. [] }

pub quiet-IsFair : IsFair service quiet
quiet-IsFair = record {
  keeps_before = λ rows h. rw (append-nil rows) h;
  keeps_during = λ rows h. rw (append-nil rows) h;
}

pub no_rows-IsIntact : IsIntact digest_of []
no_rows-IsIntact = record { at_stream = λ subject tenant. tt }

-- The table after one call and after two.
abbrev pub one_row : Table ℕ
one_row = (create_event service 100 "e1" "t1" (request "admitted" 10) (λ k. quiet) []).0

abbrev pub two_rows : Table ℕ
two_rows = (create_event service 100 "e2" "t1" (request "moved" 20) (λ k. quiet) one_row).0

pub one_row-IsIntact : IsIntact digest_of one_row
one_row-IsIntact =
    create_event-IsIntact service 100 "e1" "t1" (request "admitted" 10) (λ k. quiet) []
      (λ k. quiet-IsFair) no_rows-IsIntact

pub two_rows-IsIntact : IsIntact digest_of two_rows
two_rows-IsIntact =
    create_event-IsIntact service 100 "e2" "t1" (request "moved" 20) (λ k. quiet) one_row
      (λ k. quiet-IsFair) one_row-IsIntact

-- The same chain written out, with ids of one's choice.
abbrev pub stored : String → String → ℕ → Option String → EventResult ℕ
stored id event_type time previous = record {
  id = id;
  tenant_id = "t1";
  subject_id = "p1";
  event_type = event_type;
  schema_version = 1;
  event_time = time;
  payload = ("step", time) ∷ [];
  previous_hash = previous;
  hash = event_type;
  workflow_instance_id = none;
  correlation_id = none;
}

abbrev pub chain : String → String → Table ℕ
chain a b = stored a "admitted" 10 none ∷ stored b "moved" 20 (some "admitted") ∷ []

-- A first version, with its id as its checksum.
abbrev pub document : String → ℕ → Document
document id time = record {
  id = id;
  tenant_id = "t1";
  subject_id = "p1";
  event_id = none;
  document_type = "scan";
  filename = "scan.pdf";
  original_filename = "scan.pdf";
  mime_type = "application/pdf";
  file_size = 10;
  checksum = id;
  storage_ref = "ref";
  version = 1;
  parent_document_id = none;
  is_latest_version = true;
  created_by = none;
  metadata = "{}";
  created_at = time;
  deleted_at = none;
}
