-- ===== src/Events/Create/Attempt.antt =====
-- One pass of the retry loop of `create_event` keeps every chain, whatever other sessions commit.
use timeline.Base.{
  ℕ, String, ◌≡◌, refl, sym, true, false, ◌&&◌, Option, none, some, [], ◌∷◌, ◌++◌, last?,
  select-append, any-append_right, any_of_select, List-cases, append-nil, opt_eq_iff, eq_iff, ◌==◌,
  Bool-cases, and-true, Outcome, ok, raise, inl, inr, arith,
}
use timeline.Events.Row.{EventCreate, EventResult, content}
use timeline.Events.Store
use timeline.Events.Store.{Table, stream, hash_of, violates, row_of, get_last_event}
use timeline.Events.Entity.{validate_event_time_after_previous}
use timeline.Events.Chain.{
  Linked, Later, IsIntact, last_or-eq-last?, Linked-append, Linked-append_left, Linked-append_right,
}
use timeline.Events.Create.{Service, Race, time_of, event_hash, store_event, attempt}

module _ {V : Type 0} (svc : Service V) where
  abbrev IsWhole : Table V → Type 0
  IsWhole = IsIntact svc.digest

  -- A table whose chains are whole had whole chains before its newest rows came.
  pub IsIntact-before : (rows new : Table V) → IsWhole (rows ++ new) → IsWhole rows
  IsIntact-before rows new h = record {
    at_stream = λ s t. Linked-append_left svc.digest none (stream s t rows) (stream s t new) (
        rw (sym (select-append (λ e. e.subject_id == s && e.tenant_id == t) rows new))
          (h.at_stream s t));
  }

  -- The first row that came to the stream after `last` names the hash of `last`, as does a row
  -- that is computed from `last`: the unique index refuses the second.
  fork_refused :
      (s t : String) (seen during : Table V) (e : EventResult V) {d : EventResult V} {ds : Table V}
      → stream s t during ≡ d ∷ ds
      → d.previous_hash ≡ hash_of (last? (stream s t seen))
      → e.subject_id ≡ s
      → e.previous_hash ≡ hash_of (last? (stream s t seen))
      → violates (seen ++ during) e ≡ true
  unfolding violates
  fork_refused s t seen during e {d} came named mine same = any-append_right _ seen during (
      any_of_select _ (λ r. r.subject_id == s && r.tenant_id == t) during came
        (λ passes. ground (
          arith,
          eq_iff d.subject_id s,
          eq_iff d.subject_id e.subject_id,
          opt_eq_iff d.previous_hash e.previous_hash,
        )))

  -- A row that the index accepts finds the stream as it was when it was read.
  nothing_came :
      (s t : String) (seen during : Table V) (e : EventResult V)
      → IsWhole (seen ++ during)
      → e.subject_id ≡ s
      → e.previous_hash ≡ hash_of (last? (stream s t seen))
      → violates (seen ++ during) e ≡ false
      → stream s t during ≡ []
  nothing_came s t seen during e whole mine same accepted = elim (List-cases (stream s t during)) [
    | inl none_came ↦ none_came
    | inr (d, ds, came) ↦
        let linked = Linked-append_right svc.digest none (stream s t seen) (stream s t during) (
          rw (sym (select-append (λ e. e.subject_id == s && e.tenant_id == t) seen during))
            (whole.at_stream s t)) in
        let linked' = rw (came, last_or-eq-last? svc.digest (stream s t seen)) at linked in
        cc (accepted, fork_refused s t seen during e came linked'.1 mine same)
  ]

  link :
      (rows : Table V) (e : EventResult V)
      → IsWhole rows
      → e.hash ≡ svc.digest (content e)
      → e.previous_hash ≡ hash_of (last? (stream e.subject_id e.tenant_id rows))
      → Later (last? (stream e.subject_id e.tenant_id rows)) e.event_time
      → Linked svc.digest none (stream e.subject_id e.tenant_id rows ++ e ∷ [])
  link rows e whole hashed named later =
      let s = stream e.subject_id e.tenant_id rows in
      Linked-append svc.digest none s (e ∷ []) (whole.at_stream e.subject_id e.tenant_id)
        (rw (last_or-eq-last? svc.digest s) (hashed, named, later, tt))

  -- A row that is linked to the last row of its stream keeps every chain whole.
  pub IsIntact-append :
      (rows : Table V) (e : EventResult V)
      → IsWhole rows
      → e.hash ≡ svc.digest (content e)
      → e.previous_hash ≡ hash_of (last? (stream e.subject_id e.tenant_id rows))
      → Later (last? (stream e.subject_id e.tenant_id rows)) e.event_time
      → IsWhole (rows ++ e ∷ [])
  IsIntact-append rows e whole hashed named later = record {
    at_stream = λ s t.
        rw (select-append (λ r. r.subject_id == s && r.tenant_id == t) rows (e ∷ []))
          (elim (Bool-cases (e.subject_id == s && e.tenant_id == t)) [
            | inl mine ↦
                let (a, b) = and-true _ _ mine in
                rw (mine, sym ((eq_iff e.subject_id s).0 a), sym ((eq_iff e.tenant_id t).0 b))
                  (link rows e whole hashed named later)
            | inr other ↦ rw (other, append-nil) (whole.at_stream s t)
          ]);
  }

  pub time_of_check :
      (last : Option (EventResult V)) (t : ℕ)
      → validate_event_time_after_previous t (time_of last) ≡ ok tt
      → Later last t
  unfolding validate_event_time_after_previous
  time_of_check none t h = tt
  time_of_check (some e) t h = ground arith

  store-IsIntact :
      (new_id tenant : String) (d : EventCreate V) (seen during : Table V)
      → (check : Outcome (Unit {0})) → IsWhole (seen ++ during)
      → (check ≡ ok tt → Later (last? (stream d.subject_id tenant seen)) d.event_time)
      → IsWhole
          (store_event svc new_id tenant d
            (last? (stream d.subject_id tenant seen))
            check
            (seen ++ during)).0
  unfolding Store.create_event
  store-IsIntact new_id tenant d seen during (raise e) whole later = whole
  store-IsIntact new_id tenant d seen during (ok u) whole later =
      let s = d.subject_id in
      let last = last? (stream s tenant seen) in
      let row = row_of new_id tenant d (event_hash svc d (hash_of last)) (hash_of last) in
      elim (Bool-cases (violates (seen ++ during) row)) [
        | inl refused ↦ rw refused whole
        | inr accepted ↦
            let none_came = nothing_came s tenant seen during row whole refl refl accepted in
            let same : stream s tenant (seen ++ during) ≡ stream s tenant seen =
              rw
                (
                  select-append (λ e. e.subject_id == s && e.tenant_id == tenant) seen during,
                  none_came,
                )
                (append-nil _) in
            rw accepted
              (IsIntact-append (seen ++ during) row whole refl (rw same) (rw same (later refl)))
      ]

  -- One pass keeps every chain whole, if the rows that other sessions committed did.
  pub attempt-IsIntact :
      (new_id tenant : String) (d : EventCreate V) (race : Race V) (rows : Table V)
      → (let seen = rows ++ race.before rows in IsWhole (seen ++ race.during seen))
      → IsWhole (attempt svc new_id tenant d race rows).0
  unfolding attempt get_last_event
  attempt-IsIntact new_id tenant d race rows whole =
      let seen = rows ++ race.before rows in
      let last = last? (stream d.subject_id tenant seen) in
      store-IsIntact new_id tenant d seen (race.during seen)
        (validate_event_time_after_previous d.event_time (time_of last)) whole
        (time_of_check last d.event_time)
