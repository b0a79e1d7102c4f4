-- ===== src/Flows/Covered.antt =====
-- When a flow has the documents that its workflow requires: the result of `document_compliance`.
use mathlib.Core.Path.{subst}
use timeline.Documents.{Document}
use timeline.Base.{
  map, any, find, not, ◌||◌, ◌==◌, Option, inl, inr, first, Bool-cases, contains, is_none, is_blank,
  opt_eq, eq_iff, find-test, sym, ℕ, ◌+◌, suc, ◌&&◌, ap, ◌∙◌, String, ◌≡◌, refl, Bool, true, false,
  none, some, List, [], ◌∷◌, is_empty, all, select, length, leb, if◌then◌else◌, ok, arith,
}
use timeline.Documents.Repository.{count_by_subjects_and_document_type}
use timeline.Flows.Compliance.{
  Flow, FlowSubject, Category, category_of, is_step, Requirement, Store, Compliance, flow_by_id,
  subject_ids, named_category, requirements_of, item, check_requirements, document_compliance,
  compliance_of, with_reason, Reason,
}

-- Enough of the documents of the subjects have the name of the requirement's category.
abbrev pub is_covered : String → List String → Store → Requirement → Bool
is_covered tenant subjects st req = leb req.min_count (
    count_by_subjects_and_document_type tenant subjects (named_category tenant req st).0
      st.documents)

module _ (display : String) (why : ℕ × ℕ) (reasons : List Reason) where
  with_reason-is_empty :
      (b : Bool)
      → is_empty (with_reason display (if b then none else some why) reasons)
        ≡ b && is_empty reasons
  with_reason-is_empty true = refl
  with_reason-is_empty false = refl

  with_reason-length :
      (b : Bool) (req : Requirement) (covered : List Requirement) (total : ℕ)
      → length reasons + length covered ≡ total
      → length (with_reason display (if b then none else some why) reasons)
          + length (if b then req ∷ covered else covered)
        ≡ suc total
  with_reason-length true req covered total h = omega arith
  with_reason-length false req covered total h = omega arith

check_requirements-all :
    (tenant : String) (subjects : List String) (reqs : List Requirement) (st : Store)
    → is_empty (check_requirements tenant subjects reqs st).1
      ≡ all (is_covered tenant subjects st) reqs
unfolding check_requirements item
check_requirements-all tenant subjects [] st = refl
check_requirements-all tenant subjects (req ∷ reqs) st =
    let b = is_covered tenant subjects st req in
    with_reason-is_empty _ _ _ b ∙ ap (◌&&◌ b) (check_requirements-all tenant subjects reqs st)

check_requirements-length :
    (tenant : String) (subjects : List String) (reqs : List Requirement) (st : Store)
    → length (check_requirements tenant subjects reqs st).1
        + length (select (is_covered tenant subjects st) reqs)
      ≡ length reqs
unfolding check_requirements item
check_requirements-length tenant subjects [] st = refl
check_requirements-length tenant subjects (req ∷ reqs) st =
    with_reason-length _ _ _ (is_covered tenant subjects st req) req
      (select (is_covered tenant subjects st) reqs) (length reqs)
      (check_requirements-length tenant subjects reqs st)

abbrev name_of : Option Category → String
name_of none = "unknown"
name_of (some c) = c.category_name

-- What the report is about, in the terms of the tables.
module _ (tenant flow : String) (st : Store) (f : Flow) where
  -- A requirement of the flow's workflow that is for no single step.
  abbrev pub is_required : Requirement → Bool
  is_required r =
      r.tenant_id == tenant
      && not (is_blank r.workflow_id)
      && opt_eq f.workflow_id (some r.workflow_id)
      && is_none r.step_definition_id

  -- The category of a requirement, in the tenant.
  abbrev is_category : Requirement → Category → Bool
  is_category r c =
      c.id == r.document_category_id && c.tenant_id == st.category_scope && c.tenant_id == tenant

  abbrev pub category_name : Requirement → String
  category_name r = name_of (find (is_category r) st.categories)

  -- A document of the category that is not deleted and of a subject that is linked to the flow.
  abbrev pub is_counted : Requirement → Document → Bool
  is_counted r d =
      d.tenant_id == tenant
      && any (λ l. l.flow_id == flow && l.subject_id == d.subject_id) st.links
      && d.document_type == category_name r
      && is_none d.deleted_at

  abbrev pub is_met : Requirement → Bool
  is_met r = leb r.min_count (length (select (is_counted r) st.documents))

  abbrev pub Reports : Compliance → Type 0
  Reports c =
      (c.all_satisfied ≡ all (λ r. not (is_required r) || is_met r) st.requirements)
      × (length c.blocked_reasons + length (select (λ r. is_required r && is_met r) st.requirements)
          ≡ length (select is_required st.requirements))

select-ext :
    {A : Type 0} (p q : A → Bool) (xs : List A) → ((x : A) → p x ≡ q x) → select p xs ≡ select q xs
select-ext p q [] h = refl
select-ext p q (x ∷ xs) h = rw (h x, select-ext p q xs h) refl

select-nothing :
    {A : Type 0} (p : A → Bool) (xs : List A) → ((x : A) → p x ≡ false) → select p xs ≡ []
select-nothing p [] h = refl
select-nothing p (x ∷ xs) h = rw (h x) (select-nothing p xs h)

all-select-ext :
    {A : Type 0} (p q r : A → Bool) (xs : List A)
    → ((x : A) → q x ≡ r x)
    → all q (select p xs) ≡ all (λ x. not (p x) || r x) xs
all-select-ext p q r [] h = refl
all-select-ext p q r (x ∷ xs) h = ground (arith, h x, all-select-ext p q r xs h)

select-select-ext :
    {A : Type 0} (p q r : A → Bool) (xs : List A)
    → ((x : A) → q x ≡ r x)
    → select q (select p xs) ≡ select (λ x. p x && r x) xs
select-select-ext p q r [] h = refl
select-select-ext p q r (x ∷ xs) h = elim (Bool-cases (p x)) [
  | inl here ↦ elim (Bool-cases (r x)) [
    | inl kept ↦ rw (here, kept, h x, kept, select-select-ext p q r xs h) refl
    | inr dropped ↦ rw (here, dropped, h x, dropped) (select-select-ext p q r xs h)
  ]
  | inr gone ↦ rw gone (select-select-ext p q r xs h)
]

is_step-none : (step : Option String) → is_step none step ≡ is_none step
is_step-none none = refl
is_step-none (some s) = refl

contains-links :
    (flow subject : String) (links : List FlowSubject)
    → contains (map (λ l. l.subject_id) (select (λ l. l.flow_id == flow) links)) subject
      ≡ any (λ l. l.flow_id == flow && l.subject_id == subject) links
contains-links flow subject [] = refl
contains-links flow subject (l ∷ links) = ground (arith, contains-links flow subject links)

module _ (tenant flow : String) (st : Store) (f : Flow)
    (found : flow_by_id flow tenant st ≡ some f) where
  required-eq :
      requirements_of tenant f.workflow_id st
      ≡ select (is_required tenant flow st f) st.requirements
  required-eq = rows f.workflow_id
    where
      required_of : Option String → Requirement → Bool
      required_of w r =
          r.tenant_id == tenant
          && not (is_blank r.workflow_id)
          && opt_eq w (some r.workflow_id)
          && is_none r.step_definition_id

      rows :
          (w : Option String) → requirements_of tenant w st ≡ select (required_of w) st.requirements
      rows none = sym (select-nothing (required_of none) st.requirements (λ r. ground arith))
      rows (some w) = elim (Bool-cases (is_blank w)) [
        | inl blank ↦ rw blank (
            sym (
              select-nothing (required_of (some w)) st.requirements
                (λ r. ground (arith, blank, eq_iff w r.workflow_id))))
        | inr named ↦ rw named (
            select-ext _ (required_of (some w)) st.requirements (λ r. ground (
              arith,
              named,
              eq_iff w r.workflow_id,
              eq_iff r.workflow_id w,
              is_step-none r.step_definition_id,
            )))
      ]

  category_name-eq :
      (r : Requirement) → (named_category tenant r st).0 ≡ category_name tenant flow st f r
  category_name-eq r = elim (Bool-cases (st.category_scope == tenant)) [
    | inl own ↦
        let same = select-ext _ (is_category tenant flow st f r) st.categories (λ c. ground (
          arith,
          own,
          eq_iff st.category_scope tenant,
          eq_iff c.tenant_id tenant,
          eq_iff c.tenant_id st.category_scope,
        )) in
        named_as (find _ st.categories) (λ c e.
          let k = find-test _ st.categories e in
          ground (
            arith,
            own,
            eq_iff st.category_scope tenant,
            eq_iff c.tenant_id tenant,
            eq_iff c.tenant_id st.category_scope,
          ))
        ∙ ap (λ cs. name_of (first cs)) same
    | inr other ↦
        let none_here = select-nothing (is_category tenant flow st f r) st.categories (λ c. ground (
          arith,
          other,
          eq_iff st.category_scope tenant,
          eq_iff c.tenant_id tenant,
          eq_iff c.tenant_id st.category_scope,
        )) in
        unnamed_as (find _ st.categories) (λ c e.
          let k = find-test _ st.categories e in
          ground (
            arith,
            other,
            eq_iff st.category_scope tenant,
            eq_iff c.tenant_id tenant,
            eq_iff c.tenant_id st.category_scope,
          ))
        ∙ ap (λ cs. name_of (first cs)) (sym none_here)
  ]
    where
      named_as :
          (o : Option Category)
          → ((c : Category) → o ≡ some c → c.tenant_id == tenant ≡ true)
          → (category_of tenant o).0 ≡ name_of o
      named_as none h = refl
      named_as (some c) h = rw (h c refl) refl

      unnamed_as :
          (o : Option Category)
          → ((c : Category) → o ≡ some c → c.tenant_id == tenant ≡ false)
          → (category_of tenant o).0 ≡ "unknown"
      unnamed_as none h = refl
      unnamed_as (some c) h = rw (h c refl) refl

  covered-eq :
      (r : Requirement)
      → is_covered tenant (subject_ids flow tenant st) st r ≡ is_met tenant flow st f r
  unfolding count_by_subjects_and_document_type
  covered-eq r =
      let subjects : subject_ids flow tenant st
          ≡ map (λ (l : FlowSubject). l.subject_id)
              (select (λ (l : FlowSubject). l.flow_id == flow) st.links) =
        rw (found, subject_ids) refl in
      let same =
        select-ext _ (is_counted tenant flow st f r) st.documents (λ d.
          rw (subjects, category_name-eq r, contains-links flow d.subject_id st.links) refl) in
      ap (λ ds. leb r.min_count (length ds)) same

-- For a flow that exists, the use case returns a result, whose `all_satisfied` is true exactly when
-- each requirement of its workflow that has no step is met: the documents of its category that are
-- not deleted and belong to subjects linked to the flow, all in the tenant, are at least its count.
-- The result has one reason for each requirement that is not met.
pub document_compliance-Reports :
    (tenant flow : String) (st : Store) (f : Flow)
    → flow_by_id flow tenant st ≡ some f
    → (c : Compliance) × ((document_compliance tenant flow st ≡ ok c) × Reports tenant flow st f c)
unfolding document_compliance
document_compliance-Reports tenant flow st f h =
    let subjects = subject_ids flow tenant st in
    let reqs = requirements_of tenant f.workflow_id st in
    let rows = required-eq tenant flow st f h in
    (
      _,
      (
        ap (compliance_of tenant flow st) h,
        (
          check_requirements-all tenant subjects reqs st
              ∙ ap (all (is_covered tenant subjects st)) rows
              ∙ all-select-ext (is_required tenant flow st f) (is_covered tenant subjects st)
                  (is_met tenant flow st f) st.requirements (covered-eq tenant flow st f h),
          subst
              (λ rs.
                length (check_requirements tenant subjects reqs st).1 + length rs
                ≡ length (select (is_required tenant flow st f) st.requirements))
              (select-select-ext (is_required tenant flow st f) (is_covered tenant subjects st)
                (is_met tenant flow st f) st.requirements (covered-eq tenant flow st f h))
              (subst
                (λ rs.
                  length (check_requirements tenant subjects reqs st).1
                    + length (select (is_covered tenant subjects st) rs)
                  ≡ length rs)
                rows (check_requirements-length tenant subjects reqs st)),
        ),
      ),
    )
