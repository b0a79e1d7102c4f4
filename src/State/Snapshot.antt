-- ===== src/State/Snapshot.antt =====
-- Taking a snapshot: app/application/use_cases/state/create_subject_snapshot.py and the write of
-- app/infrastructure/persistence/repositories/subject_snapshot_repo.py.
pub mod Keeps
pub mod Fresh
use timeline.Base.{
  ℕ, String, ◌&&◌, Option, none, some, List, [], ◌∷◌, if◌then◌else◌, ◌==◌, Outcome, ok, raise,
  validation,
}
use timeline.Events.Store.{Table}
use timeline.State.{StateResult, SubjectSnapshot, Reader, get_current_state}

module _ {V : Type 0} where
  -- The row of the subject is replaced, or a row is added.
  unfoldable pub put_snapshot :
      SubjectSnapshot V → List (SubjectSnapshot V) → List (SubjectSnapshot V)
  put_snapshot s [] = s ∷ []
  put_snapshot s (old ∷ snapshots) =
      if old.subject_id == s.subject_id && old.tenant_id == s.tenant_id
      then s ∷ snapshots
      else old ∷ put_snapshot s snapshots

  abbrev pub snapshot_of : String → String → String → StateResult V → SubjectSnapshot V
  snapshot_of tenant subject event_id r = record {
    subject_id = subject;
    tenant_id = tenant;
    snapshot_at_event_id = event_id;
    state_json = r.state;
    event_count_at_snapshot = r.event_count;
  }

  abbrev pub store_snapshot :
      String
      → String
      → StateResult V
      → Option String
      → List (SubjectSnapshot V)
      → List (SubjectSnapshot V) × Outcome (SubjectSnapshot V)
  store_snapshot tenant subject r none snapshots = (snapshots, raise (validation "snapshot"))
  store_snapshot tenant subject r (some event_id) snapshots =
      let s = snapshot_of tenant subject event_id r in (put_snapshot s snapshots, ok s)

  abbrev pub snapshot_from :
      String
      → String
      → Outcome (StateResult V)
      → List (SubjectSnapshot V)
      → List (SubjectSnapshot V) × Outcome (SubjectSnapshot V)
  snapshot_from tenant subject (raise e) snapshots = (snapshots, raise e)
  snapshot_from tenant subject (ok r) snapshots =
      store_snapshot tenant subject r r.last_event_id snapshots

  unfoldable pub create_snapshot :
      Reader
      → String
      → String
      → Table V
      → List (SubjectSnapshot V)
      → List (SubjectSnapshot V) × Outcome (SubjectSnapshot V)
  create_snapshot reader tenant subject rows snapshots =
      snapshot_from tenant subject
        (get_current_state reader tenant subject none none (some snapshots) rows) snapshots
