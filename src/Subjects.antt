-- ===== src/Subjects.antt =====
-- The subject table: app/infrastructure/persistence/repositories/subject_repo.py, with the tenant
-- scope of `TenantScopedRepository` (auditable_repo.py).
--
-- A repository is made for one tenant, the argument `scope`. A table refuses a row whose id is
-- taken, or whose external reference another row of the tenant has (models/subject.py; NULL counts
-- as no reference). Reading a row makes a `SubjectType` of its type, which may raise. Audit events
-- are left out. `subject_type` is a text that the column holds, and attributes are JSON values of a
-- type `V`.
pub mod Audit
pub mod Service
pub mod Refs
pub mod Relations
pub mod Erasure
use timeline.Base.{
  ℕ, String, Bool, true, false, not, ◌&&◌, ◌||◌, Option, none, some, List, [], ◌∷◌, ◌++◌, map,
  length, Dict, lookup, insert, select, any, contains, find, sort_with, page, leb, is_blank,
  is_empty, if◌then◌else◌, ◌==◌, Outcome, ok, raise, ◌>>=◌, validation, integrity,
}
use timeline.Values.Slug
use timeline.Values.Slug.{codes}

module _ (V : Type 0) where
  pub record Subject : Type 0 where
    pub id : String
    pub tenant_id : String
    pub subject_type : String
    pub external_ref : Option String
    pub display_name : Option String
    pub attributes : Option (Dict V)
    pub created_at : ℕ

  pub record SubjectResult : Type 0 where
    pub id : String
    pub tenant_id : String
    pub subject_type : String
    pub external_ref : Option String
    pub display_name : String
    pub attributes : Dict V

-- `a or b` of texts that may be None, the last one not.
abbrev pub text_or : Option String → String → String
text_or none b = b
text_or (some a) b = if is_blank a then b else a

-- `x if x is not None else y`
abbrev pub option_or {ℓ} : {A : Type ℓ} → Option A → A → A
option_or none b = b
option_or (some a) b = a

-- `s or None`
abbrev pub or_none : String → Option String
or_none s = if is_blank s then none else some s

-- `entity.f = x` if `x` is given.
abbrev pub replaced {ℓ} : {A : Type ℓ} → Option A → Option A → Option A
replaced none old = old
replaced (some new) old = some new

-- The unique index on tenant and reference: NULL is equal to nothing.
abbrev pub same_ref : Option String → Option String → Bool
same_ref (some a) (some b) = a == b
same_ref _ _ = false

module _ {V : Type 0} where
  unfoldable pub subject_to_result : Subject V → Outcome (SubjectResult V)
  subject_to_result s = do
    type ← Slug.subject_type (codes s.subject_type)
    ok (record {
      id = s.id;
      tenant_id = s.tenant_id;
      subject_type = s.subject_type;
      external_ref = s.external_ref;
      display_name = text_or s.display_name (text_or s.external_ref "");
      attributes = option_or s.attributes [];
    })

  abbrev pub results : List (Subject V) → Outcome (List (SubjectResult V))
  results [] = ok []
  results (s ∷ rows) = do r ← subject_to_result s; rest ← results rows; ok (r ∷ rest)

  abbrev pub optional_result : Option (Subject V) → Outcome (Option (SubjectResult V))
  optional_result none = ok none
  optional_result (some s) = do r ← subject_to_result s; ok (some r)

  abbrev pub has_id : String → String → Subject V → Bool
  has_id subject_id scope s = s.id == subject_id && s.tenant_id == scope

  unfoldable pub get_entity_by_id_and_tenant :
      String → String → String → List (Subject V) → Option (Subject V)
  get_entity_by_id_and_tenant scope subject_id tenant rows =
      if tenant == scope then find (has_id subject_id scope) rows else none

  unfoldable pub get_by_id : String → String → List (Subject V) → Outcome (Option (SubjectResult V))
  get_by_id scope subject_id rows = optional_result (find (has_id subject_id scope) rows)

  unfoldable pub get_by_id_and_tenant :
      String → String → String → List (Subject V) → Outcome (Option (SubjectResult V))
  unfolding get_by_id
  get_by_id_and_tenant scope subject_id tenant rows =
      if tenant == scope then get_by_id scope subject_id rows else ok none

  unfoldable pub count_by_tenant : String → String → List (Subject V) → ℕ
  count_by_tenant scope tenant rows =
      if tenant == scope then length (select (λ s. s.tenant_id == scope) rows) else 0

  abbrev pub newest_first : Subject V → Subject V → Bool
  newest_first a b = leb b.created_at a.created_at

  unfoldable pub get_by_tenant :
      String → String → ℕ → ℕ → List (Subject V) → Outcome (List (SubjectResult V))
  get_by_tenant scope tenant skip limit rows =
      if tenant == scope
      then results
          (page (sort_with newest_first (select (λ s. s.tenant_id == scope) rows)) skip limit)
      else ok []

  unfoldable pub get_by_type :
      String → String → String → ℕ → ℕ → List (Subject V) → Outcome (List (SubjectResult V))
  get_by_type scope tenant type skip limit rows =
      if tenant == scope
      then results (
          page
            (sort_with newest_first
              (select (λ s. s.tenant_id == scope && s.subject_type == type) rows))
            skip limit)
      else ok []

  abbrev pub has_ref : String → String → Subject V → Bool
  has_ref ref scope s = s.tenant_id == scope && same_ref s.external_ref (some ref)

  unfoldable pub get_by_external_ref :
      String → String → String → List (Subject V) → Outcome (Option (SubjectResult V))
  get_by_external_ref scope tenant ref rows =
      if tenant == scope then optional_result (find (has_ref ref scope) rows) else ok none

  unfoldable pub get_by_ids_and_tenant :
      String → String → List String → List (Subject V) → Outcome (List (SubjectResult V))
  get_by_ids_and_tenant scope tenant subject_ids rows =
      if not (tenant == scope) || is_empty subject_ids
      then ok []
      else results (select (λ s. s.tenant_id == scope && contains subject_ids s.id) rows)

  -- Some unique index refuses the row.
  unfoldable pub violates : List (Subject V) → Subject V → Bool
  violates rows s =
      any
        (λ r. r.id == s.id || r.tenant_id == s.tenant_id && same_ref r.external_ref s.external_ref)
        rows

  abbrev pub new_subject :
      String → ℕ → String → String → Option String → Option String → Option (Dict V) → Subject V
  new_subject new_id now scope type ref display_name attributes = record {
    id = new_id;
    tenant_id = scope;
    subject_type = type;
    external_ref = ref;
    display_name = or_none (option_or display_name (text_or ref ""));
    attributes = some (option_or attributes []);
    created_at = now;
  }

  unfoldable pub create_subject :
      String
      → ℕ
      → String
      → String
      → String
      → Option String
      → Option String
      → Option (Dict V)
      → List (Subject V)
      → List (Subject V) × Outcome (SubjectResult V)
  create_subject new_id now scope tenant type ref display_name attributes rows =
      let s = new_subject new_id now scope type ref display_name attributes in
      if not (tenant == scope)
      then (rows, raise (validation "tenant_id"))
      else (if violates rows s
          then (rows, raise integrity)
          else (rows ++ s ∷ [], subject_to_result s))

  abbrev pub changed : Option String → Option String → Option (Dict V) → Subject V → Subject V
  changed ref display_name attributes s = record s {
    external_ref = replaced ref s.external_ref;
    display_name = replaced display_name s.display_name;
    attributes = replaced attributes s.attributes;
  }

  -- Another row of the tenant has the reference.
  abbrev pub ref_taken : List (Subject V) → Subject V → Bool
  ref_taken rows s =
      any
        (λ r.
          not (r.id == s.id)
          && r.tenant_id == s.tenant_id
          && same_ref r.external_ref s.external_ref)
        rows

  abbrev pub put : Subject V → List (Subject V) → List (Subject V)
  put s = map (λ r. if r.id == s.id then s else r)

  abbrev pub update_found :
      Option String
      → Option String
      → Option (Dict V)
      → Option (Subject V)
      → List (Subject V)
      → List (Subject V) × Outcome (Option (SubjectResult V))
  update_found ref display_name attributes none rows = (rows, ok none)
  update_found ref display_name attributes (some s) rows =
      let s' = changed ref display_name attributes s in
      if ref_taken rows s'
      then (rows, raise integrity)
      else (put s' rows, optional_result (some s'))

  unfoldable pub update_subject :
      String
      → String
      → String
      → Option String
      → Option String
      → Option (Dict V)
      → List (Subject V)
      → List (Subject V) × Outcome (Option (SubjectResult V))
  update_subject scope tenant subject_id ref display_name attributes rows =
      update_found ref display_name attributes
        (get_entity_by_id_and_tenant scope subject_id tenant rows) rows
