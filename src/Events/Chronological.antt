-- ===== src/Events/Chronological.antt =====
-- `EventRepository.get_events_chronological` (app/infrastructure/persistence/repositories/event_repo.py).
-- The order of ids is the database's: a parameter `id_le`.
use timeline.Base.{
  ℕ, String, Bool, true, not, ◌&&◌, ◌||◌, Option, none, some, [], ◌==◌, opt_eq, leb, ltb, eqb,
  if◌then◌else◌, take, select, sort_with, Outcome, ok, raise, value_error,
}
use timeline.Events.Row.{EventResult}
use timeline.Events.Store.{Table, stream, get_by_id_and_tenant}

-- The parameter's default.
abbrev pub default_limit : ℕ
default_limit = 10000

module _ {V : Type 0} (id_le : String → String → Bool) where
  -- `ORDER BY event_time ASC, id ASC`
  abbrev pub row_le : EventResult V → EventResult V → Bool
  row_le a b = ltb a.event_time b.event_time || eqb a.event_time b.event_time && id_le a.id b.id

  abbrev pub in_workflow : Option String → EventResult V → Bool
  in_workflow none e = true
  in_workflow (some w) e = opt_eq e.workflow_instance_id (some w)

  abbrev pub not_after : Option ℕ → EventResult V → Bool
  not_after none e = true
  not_after (some t) e = leb e.event_time t

  -- Later than the event `a`, or at its time with a greater id.
  abbrev pub after : EventResult V → EventResult V → Bool
  after a e =
      ltb a.event_time e.event_time || eqb e.event_time a.event_time && not (id_le e.id a.id)

  abbrev pub query :
      String → String → Option ℕ → Option String → (EventResult V → Bool) → ℕ → Table V → Table V
  query subject tenant as_of workflow keep limit rows = take limit (
      sort_with row_le (
        select (λ e. in_workflow workflow e && not_after as_of e && keep e)
          (stream subject tenant rows)))

  abbrev after_event :
      String
      → String
      → Option ℕ
      → Option String
      → ℕ
      → Table V
      → Option (EventResult V)
      → Outcome (Table V)
  after_event subject tenant as_of workflow limit rows none = ok []
  after_event subject tenant as_of workflow limit rows (some a) =
      if a.subject_id == subject
      then ok (query subject tenant as_of workflow (after a) limit rows)
      else raise value_error

  unfoldable pub get_events_chronological :
      String → String → Option ℕ → Option String → Option String → ℕ → Table V → Outcome (Table V)
  get_events_chronological subject tenant as_of none workflow limit rows =
      ok (query subject tenant as_of workflow (λ e. true) limit rows)
  get_events_chronological subject tenant as_of (some after_id) workflow limit rows =
      after_event subject tenant as_of workflow limit rows
        (get_by_id_and_tenant after_id tenant rows)
