-- ===== src/Events/Schemas/Active.antt =====
-- One active schema for each event type, and one schema for each version.
use timeline.Base.{
  ℕ, zero, suc, ◌≤◌, String, ◌≡◌, refl, sym, ap, Bool, true, false, ◌&&◌, List, [], ◌∷◌, ◌++◌, map,
  any, if◌then◌else◌, ◌==◌, eq_iff, eq_refl, Bool-cases, Outcome, ok, raise, inl, inr, arith, count,
  count_of_none, count-append, count-map, count-map_le, count-map_append,
}
use timeline.Events.Schemas.{
  EventSchemaRow, Draft, References, refused, of_type, has_version, violates, deactivated, is_other,
  deactivate_others, new_schema, kept, attempt, is_retried, inserted_if, attempts, create_schema,
  is_active_of, get_next_version, event_schema_to_result,
}

-- Ids are distinct, and an event type of a tenant has a version once and at most one active schema.
pub record IsVersioned {S : Type 0} (rows : List (EventSchemaRow S)) : Type 0 where
  pub ids : (id : String) → count (λ (s : EventSchemaRow S). s.id == id) rows ≤ 1
  pub versions :
      (tenant event_type : String) (version : ℕ)
      → count (has_version tenant event_type version) rows ≤ 1
  pub active : (tenant event_type : String) → count (is_active_of tenant event_type) rows ≤ 1

module _ {S : Type 0} where
  abbrev has_key : String → EventSchemaRow S → Bool
  has_key id s = s.id == id

  key_is_new :
      (rows : List (EventSchemaRow S)) (s : EventSchemaRow S)
      → violates rows s ≡ false
      → any (has_key s.id) rows ≡ false
  unfolding violates
  key_is_new [] s h = refl
  key_is_new (r ∷ rows) s h = ground (arith, key_is_new rows s)

  version_is_new :
      (rows : List (EventSchemaRow S)) (s : EventSchemaRow S)
      → violates rows s ≡ false
      → any (has_version s.tenant_id s.event_type s.version) rows ≡ false
  unfolding violates
  version_is_new [] s h = refl
  version_is_new (r ∷ rows) s h = ground (arith, version_is_new rows s)

  -- All active schemas of the type but the one with the id are deactivated.
  none_active :
      (tenant event_type id : String) (rows : List (EventSchemaRow S))
      → any (has_key id) rows ≡ false
      → count (is_active_of tenant event_type) (deactivate_others tenant event_type id rows) ≡ 0
  unfolding deactivate_others
  none_active tenant event_type id [] h = refl
  none_active tenant event_type id (r ∷ rows) h =
      elim (Bool-cases (is_other tenant event_type id r)) [
        | inl other ↦ rw other (ground (arith, none_active tenant event_type id rows))
        | inr stays ↦ rw stays (ground (arith, none_active tenant event_type id rows))
      ]

  count_id_add :
      (rows : List (EventSchemaRow S)) (s : EventSchemaRow S) (id : String)
      → violates rows s ≡ false
      → count (has_key id) rows ≤ 1
      → count (has_key id) (rows ++ s ∷ []) ≤ 1
  count_id_add rows s id free h = elim (Bool-cases (s.id == id)) [
    | inl same ↦
        let e : s.id ≡ id = (eq_iff s.id id).0 same in
        let fresh = count_of_none (has_key s.id) rows (key_is_new rows s free) in
        rw (sym e) (let total = count-append (has_key s.id) rows s in ground arith)
    | inr other ↦ ground (arith, count-append (has_key id) rows s)
  ]

  same_version :
      (s : EventSchemaRow S) (tenant event_type : String) (version : ℕ)
      → has_version tenant event_type version s ≡ true
      → (s.tenant_id ≡ tenant) × (s.event_type ≡ event_type) × (s.version ≡ version)
  same_version s tenant event_type version h =
      ground (arith, eq_iff s.tenant_id tenant, eq_iff s.event_type event_type)

  count_version_add :
      (rows : List (EventSchemaRow S)) (s : EventSchemaRow S) (tenant event_type : String)
      (version : ℕ)
      → violates rows s ≡ false
      → count (has_version tenant event_type version) rows ≤ 1
      → count (has_version tenant event_type version) (rows ++ s ∷ []) ≤ 1
  count_version_add rows s tenant event_type version free h =
      elim (Bool-cases (has_version tenant event_type version s)) [
        | inl same ↦
            let (t, e, v) = same_version s tenant event_type version same in
            let fresh =
              count_of_none (has_version s.tenant_id s.event_type s.version) rows
                (version_is_new rows s free) in
            rw (sym t, sym e, sym v)
              (let total = count-append (has_version s.tenant_id s.event_type s.version) rows s in
                ground arith)
        | inr other ↦ ground (arith, count-append (has_version tenant event_type version) rows s)
      ]

  abbrev quieten : String → String → String → EventSchemaRow S → EventSchemaRow S
  quieten tenant event_type id s = if is_other tenant event_type id s then deactivated s else s

  quieten-key :
      (tenant event_type id i : String) (s : EventSchemaRow S)
      → has_key i (quieten tenant event_type id s) ≡ has_key i s
  quieten-key tenant event_type id i s = elim (Bool-cases (is_other tenant event_type id s)) [
    | inl other ↦ rw other refl
    | inr stays ↦ rw stays refl
  ]

  quieten-version :
      (tenant event_type id t e : String) (v : ℕ) (s : EventSchemaRow S)
      → has_version t e v (quieten tenant event_type id s) ≡ has_version t e v s
  quieten-version tenant event_type id t e v s =
      elim (Bool-cases (is_other tenant event_type id s)) [
        | inl other ↦ rw other refl
        | inr stays ↦ rw stays refl
      ]

  quieten-active :
      (tenant event_type id t e : String) (s : EventSchemaRow S)
      → is_active_of t e (quieten tenant event_type id s) ≡ true
      → is_active_of t e s ≡ true
  quieten-active tenant event_type id t e s h =
      elim (Bool-cases (is_other tenant event_type id s)) [
        | inl other ↦ absurd (let still = rw other at h in ground arith)
        | inr stays ↦ rw stays at h
      ]

  quieten_self : (s : EventSchemaRow S) → quieten s.tenant_id s.event_type s.id s ≡ s
  quieten_self s =
      rw (eq_refl s.tenant_id, eq_refl s.event_type, eq_refl s.id, is_off s.is_active) refl
    where
      is_off : (b : Bool) → b && false ≡ false
      is_off true = refl
      is_off false = refl

  count_active_add :
      (rows : List (EventSchemaRow S)) (s : EventSchemaRow S) (tenant event_type : String)
      → violates rows s ≡ false
      → count (is_active_of tenant event_type) rows ≤ 1
      → count
          (is_active_of tenant event_type)
          (deactivate_others s.tenant_id s.event_type s.id (rows ++ s ∷ []))
        ≤ 1
  unfolding deactivate_others
  count_active_add rows s tenant event_type free h =
      let p = is_active_of tenant event_type in
      let f = quieten s.tenant_id s.event_type s.id in
      let last : p (f s) ≡ p s = ap p (quieten_self s) in
      let total = count-map_append p f rows s in
      elim (Bool-cases (of_type tenant event_type s)) [
        | inr apart ↦
            let fewer =
              count-map_le p f rows
                (quieten-active s.tenant_id s.event_type s.id tenant event_type) in
            ground arith
        | inl same ↦
            let t : s.tenant_id ≡ tenant = ground (arith, eq_iff s.tenant_id tenant) in
            let e : s.event_type ≡ event_type = ground (arith, eq_iff s.event_type event_type) in
            let quiet : count p (map f rows) ≡ 0 =
              rw (sym t, sym e)
                (none_active s.tenant_id s.event_type s.id rows (key_is_new rows s free)) in
            ground arith
      ]

  plain_active_add :
      (rows : List (EventSchemaRow S)) (s : EventSchemaRow S) (tenant event_type : String)
      → s.is_active ≡ false
      → count (is_active_of tenant event_type) rows ≤ 1
      → count (is_active_of tenant event_type) (rows ++ s ∷ []) ≤ 1
  plain_active_add rows s tenant event_type off h =
      ground (arith, count-append (is_active_of tenant event_type) rows s)

  inserted_if-IsVersioned :
      (rows : List (EventSchemaRow S)) (s : EventSchemaRow S) (on : Bool)
      → s.is_active ≡ on
      → violates rows s ≡ false
      → IsVersioned rows
      → IsVersioned (inserted_if on s rows)
  unfolding deactivate_others
  inserted_if-IsVersioned rows s false off free h = record {
    ids = λ id. count_id_add rows s id free (h.ids id);
    versions = λ t e v. count_version_add rows s t e v free (h.versions t e v);
    active = λ t e. plain_active_add rows s t e off (h.active t e);
  }
  inserted_if-IsVersioned rows s true on free h = record {
    ids = λ id.
        rw
          (count-map (has_key id) (quieten s.tenant_id s.event_type s.id) (rows ++ s ∷ [])
            (quieten-key s.tenant_id s.event_type s.id id))
          (count_id_add rows s id free (h.ids id));
    versions = λ t e v.
        rw
          (count-map (has_version t e v) (quieten s.tenant_id s.event_type s.id) (rows ++ s ∷ [])
            (quieten-version s.tenant_id s.event_type s.id t e v))
          (count_version_add rows s t e v free (h.versions t e v));
    active = λ t e. count_active_add rows s t e free (h.active t e);
  }

  accepted_key :
      (refs : References) (rows : List (EventSchemaRow S)) (s : EventSchemaRow S)
      → refused refs rows s ≡ false
      → violates rows s ≡ false
  unfolding refused
  accepted_key refs rows s h = ground arith

  attempt-IsVersioned :
      (refs : References) (new_id : String) (d : Draft S)
      (race : List (EventSchemaRow S) → List (EventSchemaRow S)) (rows : List (EventSchemaRow S))
      → IsVersioned (race rows)
      → IsVersioned (attempt refs new_id d race rows).0
  unfolding attempt
  attempt-IsVersioned refs new_id d race rows h =
      let s = new_schema new_id d (get_next_version d.tenant_id d.event_type rows) in
      elim (Bool-cases (refused refs (race rows) s)) [
        | inl taken ↦ rw taken h
        | inr free ↦
            rw free (go s (event_schema_to_result s) (accepted_key refs (race rows) s free))
      ]
    where
      go :
          (s : EventSchemaRow S) (checked : Outcome (EventSchemaRow S))
          → violates (race rows) s ≡ false
          → IsVersioned (kept (race rows) s checked).0
      go s (raise e) free = h
      go s (ok r) free = inserted_if-IsVersioned (race rows) s s.is_active refl free h

  attempts-IsVersioned :
      (refs : References) (n : ℕ) (ids : ℕ → String) (d : Draft S)
      (races : ℕ → List (EventSchemaRow S) → List (EventSchemaRow S))
      (rows : List (EventSchemaRow S))
      → ((k : ℕ) (now : List (EventSchemaRow S)) → IsVersioned now → IsVersioned (races k now))
      → IsVersioned rows
      → IsVersioned (attempts refs n ids d races rows).0
  unfolding attempts
  attempts-IsVersioned refs zero ids d races rows fair h = h
  attempts-IsVersioned refs (suc n) ids d races rows fair h =
      let result = attempt refs (ids n) d (races n) rows in
      let after = attempt-IsVersioned refs (ids n) d (races n) rows (fair n rows h) in
      let rest = attempts-IsVersioned refs n ids d races result.0 fair after in
      elim (Bool-cases (is_retried n result.1)) [
        | inl retried ↦ rw retried rest
        | inr done ↦ rw done after
      ]

  -- If ids are distinct, every event type of a tenant has each version once and at most one active
  -- schema, then this is so after `create_schema`, whether it returns or raises, and whatever other
  -- sessions commit between the reading of the version and the insert of each attempt, provided that
  -- this keeps it so; nothing is committed between an attempt's insert and its end.
  pub create_schema-IsVersioned :
      (refs : References) (ids : ℕ → String) (d : Draft S)
      (races : ℕ → List (EventSchemaRow S) → List (EventSchemaRow S))
      (rows : List (EventSchemaRow S))
      → ((k : ℕ) (now : List (EventSchemaRow S)) → IsVersioned now → IsVersioned (races k now))
      → IsVersioned rows
      → IsVersioned (create_schema refs ids d races rows).0
  unfolding create_schema
  create_schema-IsVersioned refs ids d races rows fair h =
      attempts-IsVersioned refs 5 ids d races rows fair h
