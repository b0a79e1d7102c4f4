-- ===== src/Lib.antt =====
-- Verification of timeline, an event store in which every subject of a tenant has a hash chain of
-- events, with verification, state derivation, anchoring and workflows on top of it.
--
-- The parts, and how they are connected:
--   * Base: shared types, list lemmas, sorting, paging, dicts, and `Outcome`, which holds what a
--     call that may raise gives (app/domain/exceptions.py).
--   * Values: the value objects of app/domain/value_objects/core.py (TenantCode, SubjectType,
--     EventType, Hash, EventChain).
--   * Events: the event table as the list of its rows in order of insertion (Store, of
--     app/infrastructure/persistence/repositories/event_repo.py), the query by time (Chronological),
--     the entity (Entity), the validators (Schema, Transition), the table of
--     event schemas (Schemas, of event_schema_repo.py beside event_repo.py) and `EventService` of
--     app/application/use_cases/events/create_event.py: `create_event` in Create and
--     `create_events_bulk` in Bulk. Chain says what a whole chain is.
--   * Verify: `VerificationService` (app/application/services/verification_service.py), which reads
--     the event table by pages, and the store of verification jobs (Jobs, of
--     app/core/verification_job_store.py).
--   * State: `GetSubjectStateUseCase`, `CreateSubjectSnapshotUseCase` and `RunSnapshotJobUseCase`
--     (app/application/use_cases/state).
--   * Anchoring: `AnchorChainTipsUseCase` and the anchor table.
--   * Tenancy: `TenantEntity` (Lifecycle), `AuthorizationService` (Permission), and the roles and
--     permissions with their assignment in a transaction and the resolver of a user's permissions
--     (Roles, of app/application/services and app/infrastructure).
--   * Documents: the document table (Repository, of
--     app/infrastructure/persistence/repositories/document_repo.py), the upload with its file name
--     and version chain (Upload, Filename) and the queries (Query) of
--     app/application/use_cases/documents/document_operations.py, and `RunDocumentRetentionUseCase`
--     of run_retention.py beside it (Retention).
--   * Subjects: the subject table (app/infrastructure/persistence/repositories/subject_repo.py) and,
--     of app/application/use_cases/subjects, `SubjectService` (Service), the relationships
--     (Relations), which store events through Events.Create, and export and erasure (Erasure), which
--     read and write subjects, documents, relationships and events together, with the audit entries
--     of app/infrastructure/persistence/repositories/auditable_repo.py (Audit).
--   * Flows: the naming templates (Naming, of
--     app/application/services/naming_template_validator.py) and the document compliance of a flow
--     (Compliance, of app/application/use_cases/flows), which counts documents by the query of
--     Documents.Repository; and the links of a flow with subjects (Links).
--   * Workflow: `WorkflowEngine`, which `create_event` calls after an event is stored.
--   * Examples: the theorems at concrete inputs.
--
-- State is passed explicitly: an operation that writes takes the table and gives the table after it
-- with its result. What other sessions commit between two steps of a call is an argument (`Race`
-- for `create_event`, `during` for anchoring, `between` for an upload, `races` for
-- an event schema).
--
-- Parameters stand for code outside the repository: `digest` for json.dumps and hashlib, `conforms`
-- for jsonschema, `value_eq` for Python's equality of decoded JSON, `iso` for the parser of
-- datetimes, `id_le` for the database's order of texts, `tsa` for the time stamping service, `store`
-- and `url` for the file storage, `str` for the rendering of a number, `is_word` and `is_identifier`
-- for the classes of Python's re.
--
-- Fuel: the paging loops of Verify have one round more than the table has rows, and the snapshot
-- job one more than its limit; theorems show that all pages are read. The retention loop has two
-- rounds more than there are documents, and each round but the last deletes a full page. The retry
-- loop of `create_event` has the source's three passes, and that of `create_schema` its five. The
-- versions of a document are collected in one round for each row. The scan of a naming template has
-- a round for each character; a theorem shows that it reads the whole template.
--
-- Not modelled: HTTP, websockets, e-mail, storage, OAuth, telemetry, configuration and migrations,
-- which are I/O and wiring; the other writes of flows, and the administration of users and of the
-- configuration tables.
-- Audit events are rows of the event table on the chain of the tenant's audit subject. In Subjects the
-- calls that emit them are kept in order as entries (Audit), and the event table there has the rows
-- of the other subjects; in the other writes they are left out.
pub mod Base
pub mod Values
pub mod Events
pub mod Verify
pub mod State
pub mod Anchoring
pub mod Tenancy
pub mod Workflow
pub mod Documents
pub mod Subjects
pub mod Flows
pub mod Examples
