-- ===== src/State.antt =====
-- A subject's state, derived from its events: app/application/use_cases/state/get_subject_state.py,
-- and the snapshots of app/infrastructure/persistence/repositories/subject_snapshot_repo.py.
--
-- `iso text` stands for `datetime.fromisoformat(text.replace("Z", "+00:00"))`, where `none` is a
-- ValueError. One row for each subject is kept by `create_snapshot`, so the newest is the only one.
-- A row's own id and creation time are not modelled.
pub mod Tail
pub mod Replay
pub mod Snapshot
pub mod Job
use timeline.Base.{
  ℕ, ◌+◌, String, Bool, true, false, not, ◌&&◌, Option, none, some, List, [], ◌∷◌, Dict, insert,
  length, last?, ltb, is_none, is_some, if◌then◌else◌, ◌==◌, Outcome, ok, raise, not_found,
  validation, ◌>>=◌, ◌>>◌,
}
use timeline.Events.Row.{EventResult}
use timeline.Events.Store.{Table, get_by_id_and_tenant}
use timeline.Events.Chronological.{default_limit, get_events_chronological}

pub record StateResult (V : Type 0) : Type 0 where
  pub state : Dict V
  pub last_event_id : Option String
  pub event_count : ℕ

pub record SubjectSnapshot (V : Type 0) : Type 0 where
  pub subject_id : String
  pub tenant_id : String
  pub snapshot_at_event_id : String
  pub state_json : Dict V
  pub event_count_at_snapshot : ℕ

-- What the use case reads: the order of ids, the subjects, the parser of `as_of`.
pub record Reader : Type 0 where
  pub id_le : String → String → Bool
  pub subject : String → String → Bool
  pub iso : String → Option ℕ

abbrev pub parse_as_of : (String → Option ℕ) → Option String → Outcome (Option ℕ)
parse_as_of iso none = ok none
parse_as_of iso (some text) =
    if text == ""
    then ok none
    else elim (iso text) [ none ↦ raise (validation "as_of") | some t ↦ ok (some t) ]

module _ {V : Type 0} where
  abbrev pub merge : Dict V → Dict V → Dict V
  merge state [] = state
  merge state ((k, v) ∷ payload) = merge (insert k v state) payload

  unfoldable pub apply_event : Dict V → EventResult V → Dict V
  apply_event state e = merge state e.payload

  -- `for event in events: _apply_event(state, event)`
  unfoldable pub replay : Dict V → Table V → Dict V
  replay state [] = state
  replay state (e ∷ es) = replay (apply_event state e) es

  -- `last_event_id` after the loop.
  abbrev pub last_id : Option String → Table V → Option String
  last_id before [] = before
  last_id before (e ∷ es) = last_id (some e.id) es

  -- `tail[-1].id if tail else snapshot.snapshot_at_event_id`
  abbrev pub tail_id : String → Table V → String
  tail_id before tail = elim (last? tail) [ none ↦ before | some e ↦ e.id ]

  -- `snapshot_event.event_time > as_of_dt` with an `as_of`
  abbrev pub is_beyond : Option ℕ → EventResult V → Bool
  is_beyond none e = false
  is_beyond (some t) e = ltb t e.event_time

  unfoldable pub get_latest_by_subject :
      String → String → List (SubjectSnapshot V) → Option (SubjectSnapshot V)
  get_latest_by_subject subject tenant [] = none
  get_latest_by_subject subject tenant (s ∷ snapshots) =
      if s.subject_id == subject && s.tenant_id == tenant
      then some s
      else get_latest_by_subject subject tenant snapshots

  abbrev pub full_replay :
      Reader → String → String → Option ℕ → Option String → Table V → Outcome (StateResult V)
  full_replay reader tenant subject as_of workflow rows = do
    events ←
        get_events_chronological reader.id_le subject tenant as_of none workflow default_limit rows
    ok (record {
      state = replay [] events;
      last_event_id = last_id none events;
      event_count = length events;
    })

  abbrev pub replay_tail :
      Reader
      → String
      → String
      → Option ℕ
      → Option String
      → SubjectSnapshot V
      → Table V
      → Outcome (StateResult V)
  replay_tail reader tenant subject as_of workflow s rows = do
    tail ←
        get_events_chronological reader.id_le subject tenant as_of (some s.snapshot_at_event_id)
          workflow default_limit rows
    ok (record {
      state = replay s.state_json tail;
      last_event_id = some (tail_id s.snapshot_at_event_id tail);
      event_count = s.event_count_at_snapshot + length tail;
    })

  abbrev pub usable : Option ℕ → Option (EventResult V) → Bool
  usable as_of none = false
  usable as_of (some e) = not (is_beyond as_of e)

  unfoldable pub derive :
      Reader
      → String
      → String
      → Option ℕ
      → Option String
      → Option (SubjectSnapshot V)
      → Table V
      → Outcome (StateResult V)
  derive reader tenant subject as_of workflow none rows =
      full_replay reader tenant subject as_of workflow rows
  derive reader tenant subject as_of workflow (some s) rows =
      if usable as_of (get_by_id_and_tenant s.snapshot_at_event_id tenant rows)
      then replay_tail reader tenant subject as_of workflow s rows
      else full_replay reader tenant subject as_of workflow rows

  abbrev pub latest_of :
      String
      → String
      → Option String
      → Option (List (SubjectSnapshot V))
      → Option (SubjectSnapshot V)
  latest_of subject tenant workflow none = none
  latest_of subject tenant workflow (some found) =
      if is_none workflow then get_latest_by_subject subject tenant found else none

  -- The snapshots are absent when no repository for them is configured.
  unfoldable pub get_current_state :
      Reader
      → String
      → String
      → Option String
      → Option String
      → Option (List (SubjectSnapshot V))
      → Table V
      → Outcome (StateResult V)
  get_current_state reader tenant subject as_of workflow snapshots rows = do
    (if reader.subject subject tenant then ok tt else raise (not_found "subject" subject))
    as_of_dt ← parse_as_of reader.iso as_of
    derive reader tenant subject as_of_dt workflow (latest_of subject tenant workflow snapshots)
        rows
