-- ===== src/Subjects/Audit.antt =====
-- The audit events of the repositories: the hooks of
-- app/infrastructure/persistence/repositories/auditable_repo.py, for repositories that have an audit
-- service.
--
-- Each call of the hook hands one entry to the audit service, which adds an event on the chain of
-- the tenant's audit subject, in the same transaction, if that subject is there. The entries are
-- kept in order; the event tables beside them have the rows of all subjects but the audit subjects.
-- An entry's payload and entity id are left out.
use timeline.Base.{String}

pub data AuditAction : Type 0 where
  created : AuditAction
  updated : AuditAction
  deleted : AuditAction

pub record Audit : Type 0 where
  pub tenant_id : String
  pub entity_type : String
  pub action : AuditAction

-- `_emit_audit_event`
abbrev pub audit : String → String → AuditAction → Audit
audit tenant entity_type action = record {
  tenant_id = tenant;
  entity_type = entity_type;
  action = action;
}
