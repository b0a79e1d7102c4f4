-- ===== src/Events/Create/Last.antt =====
-- What a call of `create_event` that returns leaves in the table.
use timeline.Base.{
  ℕ, zero, suc, String, ◌≡◌, refl, sym, ap, true, ◌&&◌, Option, some, [], ◌∷◌, ◌++◌, last?-append,
  select-append, >>=-eq-ok, Bool-cases, ◌==◌, eq_refl, Outcome, ok, raise, inl, inr, arith,
}
use timeline.Events.Row.{EventCreate, EventResult}
use timeline.Events.Store
use timeline.Events.Store.{Table, stream, get_last_event, violates, row_of, hash_of}
use timeline.Events.Entity.{EventEntity, event_result_to_entity, validate_event_time_after_previous}
use timeline.Events.Create.{
  Service, Race, max_retries, time_of, event_hash, store_event, check_event, is_integrity, attempt,
  append, run_checked, create_event,
}

module _ {V : Type 0} where
  -- The table ends in the event, which is one of the subject's stream.
  pub record EndsIn (subject tenant : String) (rows : Table V) (e : EventResult V) : Type 0 where
    pub earlier : Table V
    pub is_last : rows ≡ earlier ++ e ∷ []
    pub of_subject : e.subject_id ≡ subject
    pub of_tenant : e.tenant_id ≡ tenant

  create-EndsIn :
      (row e : EventResult V) (rows : Table V)
      → (Store.create row rows).1 ≡ ok e
      → EndsIn row.subject_id row.tenant_id (Store.create row rows).0 e
  unfolding Store.create
  create-EndsIn row e rows h = elim (Bool-cases (violates rows row)) [
    | inl refused ↦ absurd (cc (rw refused at h))
    | inr fresh ↦
        let same : row ≡ e = ground (arith, rw fresh at h) in
        rw fresh (record {
          earlier = rows;
          is_last = rw same refl;
          of_subject = ap (λ (x : EventResult V). x.subject_id) (sym same);
          of_tenant = ap (λ (x : EventResult V). x.tenant_id) (sym same);
        })
  ]

  last-EndsIn :
      (subject tenant : String) (rows : Table V) (e : EventResult V)
      → EndsIn subject tenant rows e
      → get_last_event subject tenant rows ≡ some e
  unfolding get_last_event
  last-EndsIn subject tenant rows e h =
      let mine : e.subject_id == subject && e.tenant_id == tenant ≡ true =
        rw (h.of_subject, h.of_tenant, eq_refl subject, eq_refl tenant) refl in
      rw
        (
          h.is_last,
          select-append (λ r. r.subject_id == subject && r.tenant_id == tenant) h.earlier (e ∷ []),
          mine,
        )
        (last?-append (stream subject tenant h.earlier) e)

  module _ (svc : Service V) (new_id tenant : String) (d : EventCreate V) where
    store_event-EndsIn :
        (last : Option (EventResult V)) (checked : Outcome (Unit {0})) (rows : Table V)
        (e : EventResult V)
        → (store_event svc new_id tenant d last checked rows).1 ≡ ok e
        → EndsIn d.subject_id tenant (store_event svc new_id tenant d last checked rows).0 e
    unfolding Store.create_event
    store_event-EndsIn last (raise x) rows e h = absurd (cc)
    store_event-EndsIn last (ok u) rows e h =
        create-EndsIn (row_of new_id tenant d (event_hash svc d (hash_of last)) (hash_of last)) e
          rows h

    attempt-EndsIn :
        (race : Race V) (rows : Table V) (e : EventResult V)
        → (attempt svc new_id tenant d race rows).1 ≡ ok e
        → EndsIn d.subject_id tenant (attempt svc new_id tenant d race rows).0 e
    unfolding attempt
    attempt-EndsIn race rows e h =
        let seen = rows ++ race.before rows in
        let last = get_last_event d.subject_id tenant seen in
        store_event-EndsIn last (validate_event_time_after_previous d.event_time (time_of last))
          (seen ++ race.during seen) e h

    append-EndsIn :
        (n : ℕ) (races : ℕ → Race V) (rows : Table V) (e : EventResult V)
        → (append n svc new_id tenant d races rows).1 ≡ ok e
        → EndsIn d.subject_id tenant (append n svc new_id tenant d races rows).0 e
    unfolding append
    append-EndsIn zero races rows e h = absurd (cc)
    append-EndsIn (suc n) races rows e h =
        let pass = attempt svc new_id tenant d (races n) rows in
        elim (Bool-cases (is_integrity pass.1)) [
          | inl again ↦ rw again (append-EndsIn n races pass.0 e (rw again at h))
          | inr done ↦ rw done (attempt-EndsIn (races n) rows e (rw done at h))
        ]

    -- When `create_event` has stored an event, with no workflow triggered, which is how it returns
    -- with `trigger_workflows` false or without an engine: the subject's last event in the table is
    -- the stored one from which the returned event is made, whatever the other sessions committed
    -- before it.
    pub create_event-get_last_event :
        (now : ℕ) (races : ℕ → Race V) (rows : Table V) (entity : EventEntity V)
        → (create_event svc now new_id tenant d races rows).1 ≡ ok entity
        → (e : EventResult V) × (get_last_event d.subject_id tenant
              (create_event svc now new_id tenant d races rows).0
            ≡ some e)
          × (event_result_to_entity now e ≡ ok entity)
    unfolding create_event
    create_event-get_last_event now races rows entity =
        elim (check_event svc rows tenant d)
          as (λ checked.
            let r = run_checked svc now new_id tenant d races rows checked in
            r.1 ≡ ok entity
            → (e : EventResult V) × (get_last_event d.subject_id tenant r.0 ≡ some e)
              × (event_result_to_entity now e ≡ ok entity)) [
                | raise x ↦ λ h. absurd (cc)
                | ok u ↦ λ h.
                    let made = append max_retries svc new_id tenant d races rows in
                    let (e, appended, shown) = >>=-eq-ok made.1 (event_result_to_entity now) h in
                    (
                      e,
                      last-EndsIn d.subject_id tenant made.0 e
                          (append-EndsIn max_retries races rows e appended),
                      shown,
                    )
              ]
