-- ===== src/Events/Schemas.antt =====
-- The table of event schemas: app/infrastructure/persistence/repositories/event_schema_repo.py.
--
-- A table refuses a row whose id is taken, or whose version another schema of the same tenant and
-- event type has, or whose tenant or creating user is not there (`References`). `create_schema` makes up to five attempts, each in a savepoint; what other
-- sessions commit between the reading of the version and the insert of attempt `k` is `races k`,
-- and its id is `ids k`. Nothing is committed between the query for the other active schemas, which
-- follows the insert, and the end of the attempt: a schema of the type that is activated then stays
-- active beside the new one. The cache of `get_active_schema` and audit events are left out.
pub mod Active
pub mod Attempts
use timeline.Base.{
  count, ℕ, zero, suc, ◌+◌, String, Bool, true, false, not, ◌&&◌, ◌||◌, Option, none, some, List,
  [], ◌∷◌, ◌++◌, map, select, any, find, first, sort_with, page, leb, ltb, eqb, is_blank,
  if◌then◌else◌, ◌==◌, Outcome, ok, raise, raise_if, ◌>>◌, ◌>>=◌, value_error, integrity,
  other_error,
}

pub record EventSchemaRow (S : Type 0) : Type 0 where
  pub id : String
  pub tenant_id : String
  pub event_type : String
  pub schema_definition : S
  pub version : ℕ
  pub is_active : Bool
  pub allowed_subject_types : Option (List String)
  pub created_by : Option String

-- The tenants and the users that are there.
pub record References : Type 0 where
  pub tenant : String → Bool
  pub user : String → Bool

abbrev pub is_user : References → Option String → Bool
is_user refs none = true
is_user refs (some u) = refs.user u

module _ {S : Type 0} where
  -- `_event_schema_to_result`: an `EventType` is not empty.
  abbrev pub event_schema_to_result : EventSchemaRow S → Outcome (EventSchemaRow S)
  event_schema_to_result s = do raise_if (is_blank s.event_type) value_error; ok s

  abbrev pub optional_result : Option (EventSchemaRow S) → Outcome (Option (EventSchemaRow S))
  optional_result none = ok none
  optional_result (some s) = do r ← event_schema_to_result s; ok (some r)

  abbrev pub of_type : String → String → EventSchemaRow S → Bool
  of_type tenant event_type s = s.tenant_id == tenant && s.event_type == event_type

  -- `func.max(version) or 0`
  abbrev pub max_version : List (EventSchemaRow S) → ℕ
  max_version [] = 0
  max_version (s ∷ rows) =
      let highest = max_version rows in if ltb highest s.version then s.version else highest

  unfoldable pub get_next_version : String → String → List (EventSchemaRow S) → ℕ
  get_next_version tenant event_type rows =
      suc (max_version (select (of_type tenant event_type) rows))

  abbrev pub has_version : String → String → ℕ → EventSchemaRow S → Bool
  has_version tenant event_type version s = of_type tenant event_type s && eqb s.version version

  -- The unique keys.
  unfoldable pub violates : List (EventSchemaRow S) → EventSchemaRow S → Bool
  violates rows s = any (λ r. r.id == s.id || has_version s.tenant_id s.event_type s.version r) rows

  -- The foreign keys, and then all keys.
  abbrev pub has_references : References → EventSchemaRow S → Bool
  has_references refs s = refs.tenant s.tenant_id && is_user refs s.created_by

  unfoldable pub refused : References → List (EventSchemaRow S) → EventSchemaRow S → Bool
  refused refs rows s = violates rows s || not (has_references refs s)

  abbrev pub deactivated : EventSchemaRow S → EventSchemaRow S
  deactivated s = record s { is_active = false }

  abbrev pub is_other : String → String → String → EventSchemaRow S → Bool
  is_other tenant event_type id s = of_type tenant event_type s && s.is_active && not (s.id == id)

  -- `for other_schema in other: other_schema.is_active = False`
  unfoldable pub deactivate_others :
      String → String → String → List (EventSchemaRow S) → List (EventSchemaRow S)
  deactivate_others tenant event_type id =
      map (λ s. if is_other tenant event_type id s then deactivated s else s)

-- An argument that was given, or the value as it is.
abbrev pub given : {A : Type 0} → Option A → A → A
given none old = old
given (some new) old = new

abbrev pub replaced : {A : Type 0} → Option A → Option A → Option A
replaced none old = old
replaced (some new) old = some new

-- The arguments of `create_schema`.
pub record Draft (S : Type 0) : Type 0 where
  pub tenant_id : String
  pub event_type : String
  pub schema_definition : S
  pub is_active : Bool
  pub allowed_subject_types : Option (List String)
  pub created_by : Option String

module _ {S : Type 0} where
  abbrev pub new_schema : String → Draft S → ℕ → EventSchemaRow S
  new_schema new_id d version = record {
    id = new_id;
    tenant_id = d.tenant_id;
    event_type = d.event_type;
    schema_definition = d.schema_definition;
    version = version;
    is_active = d.is_active;
    allowed_subject_types = d.allowed_subject_types;
    created_by = d.created_by;
  }

  -- The rows after the insert.
  abbrev pub inserted_if :
      Bool → EventSchemaRow S → List (EventSchemaRow S) → List (EventSchemaRow S)
  inserted_if true s rows = deactivate_others s.tenant_id s.event_type s.id (rows ++ s ∷ [])
  inserted_if false s rows = rows ++ s ∷ []

  abbrev pub inserted : EventSchemaRow S → List (EventSchemaRow S) → List (EventSchemaRow S)
  inserted s rows = inserted_if s.is_active s rows

  abbrev pub kept :
      List (EventSchemaRow S)
      → EventSchemaRow S
      → Outcome (EventSchemaRow S)
      → List (EventSchemaRow S) × Outcome (EventSchemaRow S)
  kept rows s (raise e) = (rows, raise e)
  kept rows s (ok r) = (inserted s rows, ok r)

  -- One attempt: what raises is rolled back to the savepoint.
  unfoldable pub attempt :
      References
      → String
      → Draft S
      → (List (EventSchemaRow S) → List (EventSchemaRow S))
      → List (EventSchemaRow S)
      → List (EventSchemaRow S) × Outcome (EventSchemaRow S)
  attempt refs new_id d race rows =
      let s = new_schema new_id d (get_next_version d.tenant_id d.event_type rows) in
      let rows' = race rows in
      if refused refs rows' s
      then (rows', raise integrity)
      else kept rows' s (event_schema_to_result s)

  -- `except IntegrityError`, with attempts left after this one.
  abbrev pub is_retried : ℕ → Outcome (EventSchemaRow S) → Bool
  is_retried (suc n) (raise integrity) = true
  is_retried n answer = false

  -- The loop, with `n` attempts left.
  unfoldable pub attempts :
      References
      → ℕ
      → (ℕ → String)
      → Draft S
      → (ℕ → List (EventSchemaRow S) → List (EventSchemaRow S))
      → List (EventSchemaRow S)
      → List (EventSchemaRow S) × Outcome (EventSchemaRow S)
  attempts refs zero ids d races rows = (rows, raise other_error)
  attempts refs (suc n) ids d races rows =
      let result = attempt refs (ids n) d (races n) rows in
      let next = attempts refs n ids d races result.0 in
      if is_retried n result.1 then next else result

  unfoldable pub create_schema :
      References
      → (ℕ → String)
      → Draft S
      → (ℕ → List (EventSchemaRow S) → List (EventSchemaRow S))
      → List (EventSchemaRow S)
      → List (EventSchemaRow S) × Outcome (EventSchemaRow S)
  create_schema refs = attempts refs 5

  abbrev pub has_id : String → String → EventSchemaRow S → Bool
  has_id schema_id tenant s = s.id == schema_id && s.tenant_id == tenant

  unfoldable pub get_by_id_and_tenant :
      String → String → List (EventSchemaRow S) → Outcome (Option (EventSchemaRow S))
  get_by_id_and_tenant schema_id tenant rows = optional_result (find (has_id schema_id tenant) rows)

  unfoldable pub get_by_version :
      String → String → ℕ → List (EventSchemaRow S) → Outcome (Option (EventSchemaRow S))
  get_by_version tenant event_type version rows =
      optional_result (find (has_version tenant event_type version) rows)

  abbrev pub newest_first : EventSchemaRow S → EventSchemaRow S → Bool
  newest_first a b = leb b.version a.version

  abbrev pub is_active_of : String → String → EventSchemaRow S → Bool
  is_active_of tenant event_type s = of_type tenant event_type s && s.is_active

  -- The query of `get_active_schema`.
  unfoldable pub get_active_schema :
      String → String → List (EventSchemaRow S) → Outcome (Option (EventSchemaRow S))
  get_active_schema tenant event_type rows =
      optional_result
        (first (sort_with newest_first (select (is_active_of tenant event_type) rows)))

  abbrev pub results : List (EventSchemaRow S) → Outcome (List (EventSchemaRow S))
  results [] = ok []
  results (s ∷ rows) = do r ← event_schema_to_result s; rest ← results rows; ok (r ∷ rest)

  unfoldable pub get_all_for_event_type :
      String → String → List (EventSchemaRow S) → Outcome (List (EventSchemaRow S))
  get_all_for_event_type tenant event_type rows =
      results (sort_with newest_first (select (of_type tenant event_type) rows))

  abbrev pub put : EventSchemaRow S → List (EventSchemaRow S) → List (EventSchemaRow S)
  put s = map (λ r. if r.id == s.id then s else r)

  abbrev pub updated :
      Option S → Option Bool → Option (List String) → EventSchemaRow S → EventSchemaRow S
  updated definition is_active allowed s = record s {
    schema_definition = given definition s.schema_definition;
    is_active = given is_active s.is_active;
    allowed_subject_types = replaced allowed s.allowed_subject_types;
  }

  abbrev pub update_found :
      Option S
      → Option Bool
      → Option (List String)
      → Option (EventSchemaRow S)
      → List (EventSchemaRow S)
      → List (EventSchemaRow S) × Outcome (Option (EventSchemaRow S))
  update_found definition is_active allowed none rows = (rows, ok none)
  update_found definition is_active allowed (some s) rows =
      let s' = updated definition is_active allowed s in (put s' rows, optional_result (some s'))

  unfoldable pub update_schema :
      String
      → String
      → Option S
      → Option Bool
      → Option (List String)
      → List (EventSchemaRow S)
      → List (EventSchemaRow S) × Outcome (Option (EventSchemaRow S))
  update_schema schema_id tenant definition is_active allowed rows =
      update_found definition is_active allowed (find (has_id schema_id tenant) rows) rows

  unfoldable pub delete_schema :
      String → String → List (EventSchemaRow S) → List (EventSchemaRow S) × Bool
  delete_schema schema_id tenant rows =
      (select (λ s. not (has_id schema_id tenant s)) rows, any (has_id schema_id tenant) rows)

  unfoldable pub deactivate_schema : String → List (EventSchemaRow S) → List (EventSchemaRow S)
  deactivate_schema schema_id = map (λ s. if s.id == schema_id then deactivated s else s)

  -- The other active schema is deactivated first; the query for it raises if there are several.
  abbrev pub activate_found :
      Option (EventSchemaRow S)
      → List (EventSchemaRow S)
      → List (EventSchemaRow S) × Outcome (Option (EventSchemaRow S))
  activate_found none rows = (rows, ok none)
  activate_found (some s) rows =
      let rows' =
        map (λ r. if r.id == s.id then record r { is_active = true } else r)
          (deactivate_others s.tenant_id s.event_type s.id rows) in
      if ltb 1 (count (is_other s.tenant_id s.event_type s.id) rows)
      then (rows, raise other_error)
      else (rows', ok (some (record s { is_active = true })))

  unfoldable pub activate_schema :
      String
      → List (EventSchemaRow S)
      → List (EventSchemaRow S) × Outcome (Option (EventSchemaRow S))
  activate_schema schema_id rows = activate_found (find (λ s. s.id == schema_id) rows) rows
