-- ===== src/Events/Store.antt =====
-- The event table and its queries: app/infrastructure/persistence/repositories/event_repo.py.
--
-- A table is the list of its rows in the order of `event_seq`, the order of insertion. A row is
-- added at the end if no unique index refuses it: the primary key, the unique `hash`
-- (models/event.py), and one event for each subject and previous hash, where NULL counts as one
-- (migration j0k1l2m3n4o5). A payload is read back from its JSONB column as it was written. No operation updates or deletes a row.
pub mod First
use timeline.Base.{
  ℕ, String, Bool, true, false, ◌&&◌, ◌||◌, Option, none, some, List, [], ◌∷◌, ◌++◌, map, reverse,
  Dict, lookup, insert, length, last?, page, select, any, contains, opt_eq, if◌then◌else◌, ◌==◌,
  integrity, Outcome, ok, raise,
}
use timeline.Events.Row.{EventCreate, EventResult}

abbrev pub Table : Type 0 → Type 0
Table V = List (EventResult V)

module _ {V : Type 0} where
  -- `WHERE subject_id = … AND tenant_id = …`
  abbrev pub stream : String → String → Table V → Table V
  stream subject tenant = select (λ e. e.subject_id == subject && e.tenant_id == tenant)

  abbrev pub of_tenant : String → Table V → Table V
  of_tenant tenant = select (λ e. e.tenant_id == tenant)

  unfoldable pub get_last_event : String → String → Table V → Option (EventResult V)
  get_last_event subject tenant rows = last? (stream subject tenant rows)

  -- Newest first.
  unfoldable pub get_by_subject : String → String → ℕ → ℕ → Table V → Table V
  get_by_subject subject tenant skip limit rows =
      page (reverse (stream subject tenant rows)) skip limit

  unfoldable pub get_by_tenant : String → ℕ → ℕ → Table V → Table V
  get_by_tenant tenant skip limit rows = page (reverse (of_tenant tenant rows)) skip limit

  unfoldable pub count_by_tenant : String → Table V → ℕ
  count_by_tenant tenant rows = length (of_tenant tenant rows)

  unfoldable pub count_by_subject : String → String → Table V → ℕ
  count_by_subject subject tenant rows = length (stream subject tenant rows)

  abbrev pub hash_of : Option (EventResult V) → Option String
  hash_of none = none
  hash_of (some e) = some e.hash

  -- The hash of the tenant's newest event.
  unfoldable pub get_chain_tip_hash : String → Table V → Option String
  get_chain_tip_hash tenant rows = hash_of (last? (of_tenant tenant rows))

  abbrev pub first? : Table V → Option (EventResult V)
  first? [] = none
  first? (e ∷ es) = some e

  unfoldable pub get_by_id_and_tenant : String → String → Table V → Option (EventResult V)
  get_by_id_and_tenant event_id tenant rows =
      first? (select (λ e. e.id == event_id && e.tenant_id == tenant) rows)

  abbrev pub has_row : Option (Option (EventResult V)) → Bool
  has_row (some (some e)) = true
  has_row _ = false

  -- The body and the loop of `get_last_events_for_subjects`: the first row of a subject, newest
  -- first, stays.
  unfoldable pub keep_row :
      Dict (Option (EventResult V)) → EventResult V → Dict (Option (EventResult V))
  keep_row out e =
      if has_row (lookup e.subject_id out) then out else insert e.subject_id (some e) out

  abbrev pub keep_first : Dict (Option (EventResult V)) → Table V → Dict (Option (EventResult V))
  keep_first out [] = out
  keep_first out (e ∷ es) = keep_first (keep_row out e) es

  -- The query puts the rows of one subject together; the loop treats each subject by itself, so
  -- only their order within a subject matters.
  unfoldable pub get_last_events_for_subjects :
      String → List String → Table V → Dict (Option (EventResult V))
  get_last_events_for_subjects tenant subject_ids rows =
      keep_first (map (λ s. (s, none)) subject_ids)
        (reverse (select (λ e. e.tenant_id == tenant && contains subject_ids e.subject_id) rows))

  -- Some unique index refuses the row.
  unfoldable pub violates : Table V → EventResult V → Bool
  violates rows e =
      any
        (λ r.
          r.id == e.id
          || r.hash == e.hash
          || r.subject_id == e.subject_id && opt_eq r.previous_hash e.previous_hash)
        rows

  unfoldable pub create : EventResult V → Table V → Table V × Outcome (EventResult V)
  create e rows = if violates rows e then (rows, raise integrity) else (rows ++ e ∷ [], ok e)

  -- The row that `create_event` writes, with the id that `generate_cuid` gives it.
  abbrev pub row_of : String → String → EventCreate V → String → Option String → EventResult V
  row_of new_id tenant d event_hash previous_hash = record {
    id = new_id;
    tenant_id = tenant;
    subject_id = d.subject_id;
    event_type = d.event_type;
    schema_version = d.schema_version;
    event_time = d.event_time;
    payload = d.payload;
    previous_hash = previous_hash;
    hash = event_hash;
    workflow_instance_id = d.workflow_instance_id;
    correlation_id = d.correlation_id;
  }

  unfoldable pub create_event :
      String
      → String
      → EventCreate V
      → String
      → Option String
      → Table V
      → Table V × Outcome (EventResult V)
  unfolding create
  create_event new_id tenant d event_hash previous_hash rows =
      create (row_of new_id tenant d event_hash previous_hash) rows
