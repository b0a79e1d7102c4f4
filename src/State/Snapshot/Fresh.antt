-- ===== src/State/Snapshot/Fresh.antt =====
-- A snapshot that is taken is a checkpoint of its subject's stream.
use timeline.Base.{
  ◌≤◌, String, ◌≡◌, refl, ◌∙◌, true, false, ◌&&◌, none, some, List, [], ◌∷◌, ◌++◌, length,
  select-All, and-true, All, All-append_right, Bool-cases, ◌==◌, inl, inr, ok, raise, not_found,
}
use timeline.Events.Row.{EventResult, HashContent}
use timeline.Events.Store.{Table, stream, get_by_id_and_tenant}
use timeline.Events.Chain.{IsIntact}
use timeline.Events.Chronological.{default_limit}
use timeline.State.{StateResult, SubjectSnapshot, Reader, replay, last_id, get_current_state}
use timeline.State.Replay.{IsCheckpoint, derive-stream}
use timeline.State.Tail.{last_id-append}
use timeline.State.Snapshot.{snapshot_of, snapshot_from, create_snapshot}
use timeline.State.Snapshot.Keeps.{Distinct, find_by_id, put_snapshot-All, last_view, derive-latest}

module _ {V : Type 0} where
  abbrev stream_state : Table V → StateResult V
  stream_state events = record {
    state = replay [] events;
    last_event_id = last_id none events;
    event_count = length events;
  }

  -- The snapshot of a stream's whole state is a checkpoint at the stream's last event.
  snapshot_of-IsCheckpoint :
      (subject tenant : String) (rows pre : Table V) (e : EventResult V)
      → Distinct rows
      → stream subject tenant rows ≡ pre ++ e ∷ []
      → IsCheckpoint rows (snapshot_of tenant subject e.id (stream_state (pre ++ e ∷ [])))
  unfolding get_by_id_and_tenant
  snapshot_of-IsCheckpoint subject tenant rows pre e distinct h =
      let mine = λ (e : EventResult V). e.subject_id == subject && e.tenant_id == tenant in
      let each = rw h at (select-All mine rows) in
      let own =
        and-true (e.subject_id == subject) (e.tenant_id == tenant)
          (All-append_right (λ e. mine e ≡ true) pre (e ∷ []) each).0 in
      record {
        pre = pre;
        event = e;
        post = [];
        at_event = h;
        is_found = find_by_id mine tenant rows pre [] e distinct own.1 h;
        has_id = refl;
        has_state = refl;
        has_count = refl;
      }

  module _ (digest : HashContent V → String) (reader : Reader) (rows : Table V)
      (snapshots : List (SubjectSnapshot V)) (reflexive : (id : String) → reader.id_le id id ≡ true)
      (whole : IsIntact digest rows) (distinct : Distinct rows)
      (small : (subject tenant : String) → length (stream subject tenant rows) ≤ default_limit)
      (checkpoints : All (IsCheckpoint rows) snapshots) where
    -- The state of a known subject is the replay of its stream.
    pub get_current_state-stream :
        (tenant subject : String)
        → reader.subject subject tenant ≡ true
        → get_current_state reader tenant subject none none (some snapshots) rows
          ≡ ok (stream_state (stream subject tenant rows))
    unfolding get_current_state
    get_current_state-stream tenant subject known = rw known (
        derive-latest digest reader rows snapshots reflexive whole small checkpoints subject tenant
          none none
        ∙ derive-stream digest reader rows whole subject tenant (small subject tenant))

    taken-IsCheckpoint :
        (tenant subject : String) (events : Table V)
        → stream subject tenant rows ≡ events
        → All
            (IsCheckpoint rows)
            (snapshot_from tenant subject (ok (stream_state events)) snapshots).0
    taken-IsCheckpoint tenant subject events h = elim (last_view events) [
      | inl nil ↦ rw nil checkpoints
      | inr (pre, e, split) ↦
          rw (split, last_id-append pre (e ∷ []) none)
            (put_snapshot-All rows _ snapshots
              (snapshot_of-IsCheckpoint subject tenant rows pre e distinct (h ∙ split)) checkpoints)
    ]

    unknown_subject :
        (tenant subject : String)
        → reader.subject subject tenant ≡ false
        → get_current_state reader tenant subject none none (some snapshots) rows
          ≡ raise (not_found "subject" subject)
    unfolding get_current_state
    unknown_subject tenant subject unknown = rw unknown refl

    -- On whole chains of at most 10000 events for each subject, with distinct event ids, taking a
    -- snapshot, whether it returns or raises, leaves every snapshot a checkpoint if all were
    -- before: the recorded state, count and event are those of the subject's stream up to that
    -- event. The order of ids is taken to be reflexive.
    pub create_snapshot-IsCheckpoint :
        (tenant subject : String)
        → All (IsCheckpoint rows) (create_snapshot reader tenant subject rows snapshots).0
    unfolding create_snapshot
    create_snapshot-IsCheckpoint tenant subject =
        elim (Bool-cases (reader.subject subject tenant)) [
          | inl known ↦
              rw (get_current_state-stream tenant subject known)
                (taken-IsCheckpoint tenant subject (stream subject tenant rows) refl)
          | inr unknown ↦ rw (unknown_subject tenant subject unknown) checkpoints
        ]
