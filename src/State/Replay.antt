-- ===== src/State/Replay.antt =====
-- What a snapshot saves: the state derived from it is the state that the whole stream gives.
use mathlib.Core.List.{append_assoc}
use timeline.Base.{
  ℕ, ◌+◌, ◌≤◌, String, ◌≡◌, refl, sym, true, ◌&&◌, Option, none, some, [], ◌∷◌, ◌++◌, Dict, length,
  length-append, and-true, select-All, select-eq_self, All, All-append_right, Ordered, select,
  Bool-cases, ◌==◌, inl, inr, Outcome, ok,
}
use timeline.Events.Row.{EventResult, HashContent}
use timeline.Events.Store.{Table, stream, get_by_id_and_tenant}
use timeline.Events.Chain.{IsIntact}
use timeline.Events.Chain.Order.{Earlier, Linked-Ordered}
use timeline.Events.Chronological.{default_limit, after, not_after, get_events_chronological}
use timeline.State.Tail.{
  replay-append, last_id-append, last_id-tail, query_in_order, select-behind, select-all_before,
}
use timeline.State.{
  StateResult, SubjectSnapshot, Reader, replay, last_id, tail_id, is_beyond, derive,
}

module _ {V : Type 0} where
  -- A snapshot that records its subject's state up to and with one event of the stream.
  pub record IsCheckpoint (rows : Table V) (s : SubjectSnapshot V) : Type 0 where
    pub pre : Table V
    pub event : EventResult V
    pub post : Table V
    pub at_event : stream s.subject_id s.tenant_id rows ≡ pre ++ event ∷ post
    pub is_found : get_by_id_and_tenant s.snapshot_at_event_id s.tenant_id rows ≡ some event
    pub has_id : event.id ≡ s.snapshot_at_event_id
    pub has_state : s.state_json ≡ replay [] (pre ++ event ∷ [])
    pub has_count : s.event_count_at_snapshot ≡ length (pre ++ event ∷ [])

  stream_member :
      (subject tenant : String) (rows pre post : Table V) (e : EventResult V)
      → stream subject tenant rows ≡ pre ++ e ∷ post
      → e.subject_id == subject ≡ true
  stream_member subject tenant rows pre post e h =
      let each =
        rw h at (select-All (λ e. e.subject_id == subject && e.tenant_id == tenant) rows) in
      (and-true (e.subject_id == subject) (e.tenant_id == tenant)
        (All-append_right (λ e. e.subject_id == subject && e.tenant_id == tenant ≡ true) pre
          (e ∷ post) each).0).0

  module _ (rows : Table V) (s : SubjectSnapshot V) (tail : Table V) (c : IsCheckpoint rows s) where
    regroup : c.pre ++ c.event ∷ tail ≡ (c.pre ++ c.event ∷ []) ++ tail
    regroup = sym (append_assoc c.pre (c.event ∷ []) tail)

    replay_of_checkpoint : replay s.state_json tail ≡ replay [] (c.pre ++ c.event ∷ tail)
    replay_of_checkpoint =
        rw (c.has_state, regroup) (sym (replay-append (c.pre ++ c.event ∷ []) tail []))

    id_of_checkpoint :
        some (tail_id s.snapshot_at_event_id tail) ≡ last_id none (c.pre ++ c.event ∷ tail)
    id_of_checkpoint =
        rw (sym c.has_id, last_id-append c.pre (c.event ∷ tail) none)
          (sym (last_id-tail tail (c.event).id))

    count_of_checkpoint : s.event_count_at_snapshot + length tail ≡ length (c.pre ++ c.event ∷ tail)
    count_of_checkpoint =
        rw (c.has_count, regroup) (sym (length-append (c.pre ++ c.event ∷ []) tail))

  same_result :
      (state state' : Dict V) (last last' : Option String) (count count' : ℕ)
      → state ≡ state'
      → last ≡ last'
      → count ≡ count'
      → Path
          (Outcome (StateResult V))
          (ok (record { state = state; last_event_id = last; event_count = count }))
          (ok (record { state = state'; last_event_id = last'; event_count = count' }))
  same_result state state' last last' count count' h k l = cc

  module _ (digest : HashContent V → String) (reader : Reader) (rows : Table V)
      (whole : IsIntact digest rows) where
    in_order : (subject tenant : String) → Ordered Earlier (stream subject tenant rows)
    in_order subject tenant =
        Linked-Ordered digest none (stream subject tenant rows) (whole.at_stream subject tenant)

    -- The state derived from a checkpoint and the events after it is the state that the replay of
    -- all events gives, at any time and with the same count and last event.
    pub derive-checkpoint :
        (s : SubjectSnapshot V) (as_of : Option ℕ)
        → ((id : String) → reader.id_le id id ≡ true)
        → length (stream s.subject_id s.tenant_id rows) ≤ default_limit
        → IsCheckpoint rows s
        → derive reader s.tenant_id s.subject_id as_of none (some s) rows
          ≡ derive reader s.tenant_id s.subject_id as_of none none rows
    unfolding derive get_events_chronological
    derive-checkpoint s as_of reflexive small c = elim (Bool-cases (is_beyond as_of c.event)) [
      | inl beyond ↦ rw (c.is_found, beyond)
      | inr within ↦
          let order = in_order s.subject_id s.tenant_id in
          let order' = rw c.at_event at order in
          let mine : (c.event).subject_id == s.subject_id ≡ true =
            stream_member s.subject_id s.tenant_id rows c.pre c.post c.event c.at_event in
          let tail = select (λ x. not_after reader.id_le as_of x && true) c.post in
          rw
            (
              c.is_found,
              within,
              mine,
              query_in_order reader.id_le s.subject_id s.tenant_id rows as_of none
                  (after reader.id_le c.event) order small,
              query_in_order reader.id_le s.subject_id s.tenant_id rows as_of none (λ x. true) order
                  small,
              c.at_event,
              select-behind reader.id_le as_of c.event c.pre c.post (reflexive (c.event).id) order',
              select-all_before reader.id_le as_of c.event c.pre c.post within order',
            )
            (same_result _ _ _ _ _ _ (replay_of_checkpoint rows s tail c)
              (id_of_checkpoint rows s tail c) (count_of_checkpoint rows s tail c))
    ]

    -- Without a snapshot the whole stream is replayed.
    pub derive-stream :
        (subject tenant : String)
        → length (stream subject tenant rows) ≤ default_limit
        → derive reader tenant subject none none none rows
          ≡ ok (record {
            state = replay [] (stream subject tenant rows);
            last_event_id = last_id none (stream subject tenant rows);
            event_count = length (stream subject tenant rows);
          })
    unfolding derive get_events_chronological
    derive-stream subject tenant small =
        let events = stream subject tenant rows in
        rw
          (
            query_in_order reader.id_le subject tenant rows none none (λ x. true)
                (in_order subject tenant) small,
            select-eq_self (λ (x : EventResult V). true) events (All-true events),
          )
          refl
      where
        All-true : (es : Table V) → All (λ x. true ≡ true) es
        All-true [] = tt
        All-true (e ∷ es) = (refl, All-true es)
