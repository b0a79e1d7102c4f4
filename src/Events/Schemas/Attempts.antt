-- ===== src/Events/Schemas/Attempts.antt =====
-- When `create_schema` returns.
use timeline.Base.{
  ℕ, zero, suc, ◌≤◌, ◌<◌, String, ◌≡◌, refl, ◌⊎◌, Bool, true, false, ◌||◌, List, [], ◌∷◌, select,
  any, eqb, ltb, is_blank, if◌then◌else◌, ◌==◌, Bool-cases, Outcome, ok, raise, inl, inr, arith,
  integrity,
}
use timeline.Events.Schemas.{
  EventSchemaRow, Draft, References, has_references, refused, of_type, max_version, has_version,
  violates, new_schema, attempt, is_retried, attempts, create_schema, get_next_version,
}

module _ {S : Type 0} where
  abbrev pub IsFresh : String → List (EventSchemaRow S) → Type 0
  IsFresh id rows = any (λ (r : EventSchemaRow S). r.id == id) rows ≡ false

  version_above :
      (tenant event_type : String) (m : ℕ) (rows : List (EventSchemaRow S))
      → max_version (select (of_type tenant event_type) rows) ≤ m
      → any (has_version tenant event_type (suc m)) rows ≡ false
  version_above tenant event_type m [] h = refl
  version_above tenant event_type m (r ∷ rows) h = elim (Bool-cases (of_type tenant event_type r)) [
    | inl mine ↦
        let highest = max_version (select (of_type tenant event_type) rows) in
        let bounded = rw mine at h in
        elim (Bool-cases (ltb highest r.version)) [
          | inl above ↦
              let b = rw above at bounded in ground (arith, version_above tenant event_type m rows)
          | inr below ↦
              let b = rw below at bounded in ground (arith, version_above tenant event_type m rows)
        ]
    | inr apart ↦ let rest = version_above tenant event_type m rows (rw apart at h) in ground arith
  ]

  any_or :
      (p q : EventSchemaRow S → Bool) (rows : List (EventSchemaRow S))
      → any p rows ≡ false
      → any q rows ≡ false
      → any (λ r. p r || q r) rows ≡ false
  any_or p q [] h k = refl
  any_or p q (r ∷ rows) h k = ground (arith, any_or p q rows)

  -- The next version is free, if nobody takes it in between.
  next_is_free :
      (new_id : String) (d : Draft S) (rows : List (EventSchemaRow S))
      → IsFresh new_id rows
      → violates rows (new_schema new_id d (get_next_version d.tenant_id d.event_type rows)) ≡ false
  unfolding violates get_next_version
  next_is_free new_id d rows fresh =
      let m = max_version (select (of_type d.tenant_id d.event_type) rows) in
      any_or (λ r. r.id == new_id) (has_version d.tenant_id d.event_type (suc m)) rows fresh
        (version_above d.tenant_id d.event_type m rows (omega arith))

  -- The rows that the draft refers to are there.
  abbrev pub RefersTo : References → Draft S → Type 0
  RefersTo refs d = has_references refs (new_schema "" d 0) ≡ true

  module _ (refs : References) (d : Draft S) (named : is_blank d.event_type ≡ false)
      (there : RefersTo refs d) where
    -- What an attempt gives.
    abbrev Returns : List (EventSchemaRow S) × Outcome (EventSchemaRow S) → Type 0
    Returns result = (s : EventSchemaRow S) × (result.1 ≡ ok s)

    attempt-cases :
        (new_id : String) (race : List (EventSchemaRow S) → List (EventSchemaRow S))
        (rows : List (EventSchemaRow S))
        → Returns (attempt refs new_id d race rows)
          ⊎ (attempt refs new_id d race rows ≡ (race rows, raise integrity))
    unfolding attempt
    attempt-cases new_id race rows =
        let s = new_schema new_id d (get_next_version d.tenant_id d.event_type rows) in
        elim (Bool-cases (refused refs (race rows) s)) [
          | inl taken ↦ inr (rw taken refl)
          | inr free ↦ inl (s, rw (free, named) refl)
        ]

    accepted :
        (new_id : String) (rows : List (EventSchemaRow S))
        → IsFresh new_id rows
        → refused refs rows (new_schema new_id d (get_next_version d.tenant_id d.event_type rows))
          ≡ false
    unfolding refused
    accepted new_id rows fresh = ground (arith, next_is_free new_id d rows fresh, there)

    attempt-quiet :
        (new_id : String) (race : List (EventSchemaRow S) → List (EventSchemaRow S))
        (rows : List (EventSchemaRow S))
        → race rows ≡ rows
        → IsFresh new_id rows
        → Returns (attempt refs new_id d race rows)
    unfolding attempt
    attempt-quiet new_id race rows quiet fresh =
        let s = new_schema new_id d (get_next_version d.tenant_id d.event_type rows) in
        (s, rw (quiet, accepted new_id rows fresh, named) refl)

    is_retried-ok : (n : ℕ) (s : EventSchemaRow S) → is_retried n (ok s) ≡ false
    is_retried-ok zero s = refl
    is_retried-ok (suc n) s = refl

    step-Returns :
        (n : ℕ) (result next : List (EventSchemaRow S) × Outcome (EventSchemaRow S))
        → Returns result
        → Returns (if is_retried n result.1 then next else result)
    step-Returns n result next (s, e) = (s, rw (e, is_retried-ok n s) refl)

    is_retried-integrity : (n : ℕ) → 0 < n → is_retried {S = S} n (raise integrity) ≡ true
    is_retried-integrity zero h = absurd (omega arith)
    is_retried-integrity (suc n) h = refl

    attempts-Returns :
        (ids : ℕ → String) (races : ℕ → List (EventSchemaRow S) → List (EventSchemaRow S)) (k : ℕ)
        → ((now : List (EventSchemaRow S)) → races k now ≡ now)
        → ((j : ℕ) (now : List (EventSchemaRow S))
            → IsFresh (ids k) now
            → IsFresh (ids k) (races j now))
        → (n : ℕ) (rows : List (EventSchemaRow S)) → k < n
        → IsFresh (ids k) rows
        → Returns (attempts refs n ids d races rows)
    unfolding attempts
    attempts-Returns ids races k quiet stays zero rows within fresh = absurd (omega arith)
    attempts-Returns ids races k quiet stays (suc n) rows within fresh =
        let result = attempt refs (ids n) d (races n) rows in
        let next = attempts refs n ids d races result.0 in
        elim (attempt-cases (ids n) (races n) rows) [
          | inl done ↦ step-Returns n result next done
          | inr clash ↦ elim (Bool-cases (eqb k n)) [
            | inl last ↦
                let e : n ≡ k = ground arith in
                step-Returns n result next
                  (attempt-quiet (ids n) (races n) rows (rw e (quiet rows)) (rw e fresh))
            | inr earlier ↦
                let before : k < n = ground arith in
                let rest =
                  attempts-Returns ids races k quiet stays n (races n rows) before
                    (stays n rows fresh) in
                rw (clash, is_retried-integrity n (omega arith)) rest
          ]
        ]

    -- `create_schema` returns a schema, for an event type that is not empty, a tenant that is there and
    -- a creating user that is there or not given, if other sessions commit nothing during one of the five attempts and do not take the new id of that attempt; what they
    -- commit during the other attempts does not matter.
    pub create_schema-Returns :
        (ids : ℕ → String) (races : ℕ → List (EventSchemaRow S) → List (EventSchemaRow S)) (k : ℕ)
        (rows : List (EventSchemaRow S))
        → k < 5
        → ((now : List (EventSchemaRow S)) → races k now ≡ now)
        → ((j : ℕ) (now : List (EventSchemaRow S))
            → IsFresh (ids k) now
            → IsFresh (ids k) (races j now))
        → IsFresh (ids k) rows
        → (s : EventSchemaRow S) × ((create_schema refs ids d races rows).1 ≡ ok s)
    unfolding create_schema
    create_schema-Returns ids races k rows within quiet stays fresh =
        attempts-Returns ids races k quiet stays 5 rows within fresh
