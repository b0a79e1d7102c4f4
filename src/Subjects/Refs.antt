-- ===== src/Subjects/Refs.antt =====
-- Creating a subject and reading it.
use timeline.Base.{
  ℕ, String, ◌≡◌, refl, sym, ap, ◌∙◌, Bool, true, false, ◌&&◌, Option, some, List, [], ◌∷◌, ◌++◌,
  Dict, any, find, find-append, find-test, if◌then◌else◌, ◌==◌, eq_refl, eq_iff, Bool-cases,
  Option-cases, Outcome, Outcome-cases, ok, raise, >>=-eq-ok, inl, inr, arith,
}
use timeline.Values.Slug
use timeline.Values.Slug.{codes}
use timeline.Subjects
use timeline.Subjects.{
  Subject, SubjectResult, has_id, violates, new_subject, subject_to_result, get_by_id,
  get_by_id_and_tenant, get_by_external_ref, optional_result, option_or,
}
use timeline.Subjects.Service
use timeline.Subjects.Service.{
  SubjectTypeConfig, get_by_tenant_and_type, resolve_type, resolve_config, validate_attributes,
  ref_of, check_ref, check_create, create_checked, found, get_subject,
}

module _ {V : Type 0} where
  id_is_new :
      (rows : List (Subject V)) (s : Subject V)
      → violates rows s ≡ false
      → any (has_id s.id s.tenant_id) rows ≡ false
  unfolding violates
  id_is_new [] s h = refl
  id_is_new (r ∷ rows) s h = ground (arith, id_is_new rows s)

  result_id : (s : Subject V) (r : SubjectResult V) → subject_to_result s ≡ ok r → r.id ≡ s.id
  unfolding subject_to_result
  result_id s r h =
      let (type, valid, same) = >>=-eq-ok (Slug.subject_type (codes s.subject_type)) _ h in cc

  -- What the repository stores, if it returns.
  stored :
      (new_id : String) (now : ℕ) (scope tenant type : String) (ref display_name : Option String)
      (attributes : Option (Dict V)) (rows rows' : List (Subject V)) (r : SubjectResult V)
      → Subjects.create_subject new_id now scope tenant type ref display_name attributes rows
        ≡ (rows', ok r)
      → let s = new_subject new_id now scope type ref display_name attributes in
        (tenant == scope ≡ true)
        × (violates rows s ≡ false)
        × (rows ++ s ∷ [] ≡ rows')
        × (subject_to_result s ≡ ok r)
  unfolding Subjects.create_subject
  stored new_id now scope tenant type ref display_name attributes rows rows' r h =
      let s = new_subject new_id now scope type ref display_name attributes in
      elim (Bool-cases (tenant == scope)) [
        | inr other ↦ absurd (let stop = rw other at h in cc)
        | inl own ↦ elim (Bool-cases (violates rows s)) [
          | inl taken ↦ absurd (let stop = rw (own, taken) at h in cc)
          | inr free ↦
              let same = rw (own, free) at h in (own, free, ap (λ x. x.0) same, ap (λ x. x.1) same)
        ]
      ]

  stored-get :
      (new_id : String) (now : ℕ) (scope tenant type : String) (ref display_name : Option String)
      (attributes : Option (Dict V)) (rows rows' : List (Subject V)) (r : SubjectResult V)
      → Subjects.create_subject new_id now scope tenant type ref display_name attributes rows
        ≡ (rows', ok r)
      → get_subject scope tenant r.id rows' ≡ ok r
  unfolding get_subject get_by_id_and_tenant get_by_id
  stored-get new_id now scope tenant type ref display_name attributes rows rows' r h =
      let s = new_subject new_id now scope type ref display_name attributes in
      let (own, free, table, made) =
        stored new_id now scope tenant type ref display_name attributes rows rows' r h in
      let there : find (has_id new_id scope) (rows ++ s ∷ []) ≡ some s =
        find-append (has_id new_id scope) rows (s ∷ []) (id_is_new rows s free)
        ∙ rw (eq_refl new_id, eq_refl scope) refl in
      let got : get_subject scope tenant new_id rows' ≡ ok r =
        rw (sym table, own, there, made) refl in
      ap (λ i. get_subject scope tenant i rows') (result_id s r made) ∙ got

module _ {V S : Type 0} (conforms : S → Dict V → Bool) where
  create_checked-get :
      (new_id : String) (now : ℕ) (scope tenant : String) (checked : Outcome String)
      (ref display_name : Option String) (attributes : Option (Dict V))
      (rows rows' : List (Subject V)) (r : SubjectResult V)
      → create_checked conforms new_id now scope tenant checked ref display_name attributes rows
        ≡ (rows', ok r)
      → get_subject scope tenant r.id rows' ≡ ok r
  create_checked-get new_id now scope tenant (raise e) ref display_name attributes rows rows' r h =
      absurd cc
  create_checked-get new_id now scope tenant (ok type) ref display_name attributes rows rows' r h =
      stored-get new_id now scope tenant type (ref_of ref) display_name attributes rows rows' r h

  -- When creating a subject returns, reading the subject with its id returns the same.
  create_subject-get :
      (types : List (SubjectTypeConfig S)) (has_validator : Bool) (new_id : String) (now : ℕ)
      (scope tenant type : String) (ref display_name : Option String) (attributes : Option (Dict V))
      (rows rows' : List (Subject V)) (r : SubjectResult V)
      → Service.create_subject conforms types has_validator new_id now scope tenant type ref
          display_name attributes rows
        ≡ (rows', ok r)
      → get_subject scope tenant r.id rows' ≡ ok r
  unfolding Service.create_subject
  create_subject-get types has_validator new_id now scope tenant type ref display_name attributes
        rows rows' r h =
      create_checked-get new_id now scope tenant
        (check_create conforms types has_validator scope tenant type ref attributes rows) ref
        display_name attributes rows rows' r h

  config_type :
      (types : List (SubjectTypeConfig S)) (tenant type : String) (c : SubjectTypeConfig S)
      → get_by_tenant_and_type tenant type types ≡ some c
      → c.type_name ≡ type
  unfolding get_by_tenant_and_type
  config_type types tenant type c h =
      let own =
        find-test
          (λ (c : SubjectTypeConfig S). c.tenant_id == tenant && c.type_name == type && c.is_active)
          types h in
      ground (arith, eq_iff c.type_name type)

  resolved_type :
      (types : List (SubjectTypeConfig S)) (tenant type : String) (resolved : String × Bool)
      → resolve_type types tenant type ≡ ok resolved
      → resolved.0 ≡ type
  unfolding resolve_type
  resolved_type types tenant type resolved h =
      elim (Option-cases (get_by_tenant_and_type tenant type types)) [
        | inr (c, configured) ↦
            let same : (c.type_name, true) ≡ resolved = cc (rw configured at h) in
            sym (ap (λ x. x.0) same) ∙ config_type types tenant type c configured
        | inl missing ↦ elim (Outcome-cases (Slug.subject_type (codes type))) [
          | inl (e, refused) ↦ absurd (let stop = rw (missing, refused) at h in cc)
          | inr (value, valid) ↦
              let same : (type, false) ≡ resolved = cc (rw (missing, valid) at h) in
              sym (ap (λ x. x.0) same)
        ]
      ]

  checked_type :
      (types : List (SubjectTypeConfig S)) (has_validator : Bool) (scope tenant type : String)
      (ref : Option String) (attributes : Option (Dict V)) (rows : List (Subject V)) (kept : String)
      → check_create conforms types has_validator scope tenant type ref attributes rows ≡ ok kept
      → kept ≡ type
  unfolding check_create
  checked_type types has_validator scope tenant type ref attributes rows kept h =
      let (resolved, resolves, after_type) = >>=-eq-ok (resolve_type types tenant type) _ h in
      let (done, validates, after_schema) =
        >>=-eq-ok
          (if resolved.1 && has_validator
            then validate_attributes conforms types tenant type (option_or attributes [])
            else ok tt)
          _ after_type in
      let (fresh, unique, same) =
        >>=-eq-ok (check_ref scope tenant (ref_of ref) rows) _ after_schema in
      let e : resolved.0 ≡ kept = cc in sym e ∙ resolved_type types tenant type resolved resolves

  -- When creating a subject returns, the type that was asked for is a valid `SubjectType`, also
  -- where the tenant has configured it.
  pub create_subject-type :
      (types : List (SubjectTypeConfig S)) (has_validator : Bool) (new_id : String) (now : ℕ)
      (scope tenant type : String) (ref display_name : Option String) (attributes : Option (Dict V))
      (rows rows' : List (Subject V)) (r : SubjectResult V)
      → Service.create_subject conforms types has_validator new_id now scope tenant type ref
          display_name attributes rows
        ≡ (rows', ok r)
      → (value : List ℕ) × (Slug.subject_type (codes type) ≡ ok value)
  unfolding Service.create_subject subject_to_result
  create_subject-type types has_validator new_id now scope tenant type ref display_name attributes
        rows rows' r h =
      elim (Outcome-cases
        (check_create conforms types has_validator scope tenant type ref attributes rows)) [
          | inl (e, refused) ↦ absurd (let stop = rw refused at h in cc)
          | inr (kept, passed) ↦
              let (own, free, table, made) =
                stored new_id now scope tenant kept (ref_of ref) display_name attributes rows rows'
                  r (rw passed at h) in
              let (value, valid, same) = >>=-eq-ok (Slug.subject_type (codes kept)) _ made in
              let e =
                checked_type types has_validator scope tenant type ref attributes rows kept
                  passed in
              (value, rw (sym e) valid)
        ]
