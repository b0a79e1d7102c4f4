-- ===== src/Flows/Compliance.antt =====
-- The documents that a flow still needs:
-- app/application/use_cases/flows/get_flow_document_compliance.py, with the queries it makes of
-- flow_repo.py, document_requirement_repo.py and document_category_repo.py under
-- app/infrastructure/persistence/repositories.
--
-- A requirement's count is at least one by its schema, so that it is on ℕ. A reason is the pair of
-- numbers that its message prints, with the display name before it in the summary. Of a flow and of
-- a category, the times and the columns that the use case does not read are left out.
use timeline.Base.{
  ℕ, String, ◌==◌, Bool, true, false, ◌&&◌, Option, none, some, List, [], ◌∷◌, is_empty, is_blank,
  select, find, leb, if◌then◌else◌, Outcome, ok, raise, not_found, map,
}
use timeline.Documents.{Document}
use timeline.Documents.Repository.{count_by_subjects_and_document_type}

pub record Flow : Type 0 where
  pub id : String
  pub tenant_id : String
  pub name : String
  pub workflow_id : Option String

pub record FlowSubject : Type 0 where
  pub flow_id : String
  pub subject_id : String
  pub role : Option String

pub record Requirement : Type 0 where
  pub id : String
  pub tenant_id : String
  pub workflow_id : String
  pub step_definition_id : Option String
  pub document_category_id : String
  pub min_count : ℕ

pub record Category : Type 0 where
  pub id : String
  pub tenant_id : String
  pub category_name : String
  pub display_name : String

-- The rows that the four repositories read.
pub record Store : Type 0 where
  pub flows : List Flow
  pub links : List FlowSubject
  pub requirements : List Requirement
  pub categories : List Category
  pub documents : List Document
  -- The tenant that the category repository is made with.
  pub category_scope : String

-- `FlowRepository.get_by_id`
abbrev pub flow_by_id : String → String → Store → Option Flow
flow_by_id flow tenant st = find (λ f. f.id == flow && f.tenant_id == tenant) st.flows

-- `[s.subject_id for s in subject_links]` over `FlowRepository.list_subjects_for_flow`
abbrev pub subject_ids : String → String → Store → List String
subject_ids flow tenant st = elim (flow_by_id flow tenant st) [
  | none ↦ []
  | some f ↦ map (λ l. l.subject_id) (select (λ l. l.flow_id == flow) st.links)
]

abbrev pub is_step : Option String → Option String → Bool
is_step none none = true
is_step (some wanted) (some step) = step == wanted
is_step _ _ = false

abbrev pub get_by_workflow : String → String → Option String → Store → List Requirement
get_by_workflow tenant workflow step st =
    select
      (λ r. r.tenant_id == tenant && r.workflow_id == workflow && is_step step r.step_definition_id)
      st.requirements

-- `DocumentCategoryRepository.get_by_id`
abbrev pub category_by_id : String → Store → Option Category
category_by_id category st =
    find (λ c. c.id == category && c.tenant_id == st.category_scope) st.categories

-- The category's name and display name, as the loop takes them.
abbrev pub category_of : String → Option Category → String × String
category_of tenant none = ("unknown", "Unknown category")
category_of tenant (some c) =
    if c.tenant_id == tenant
    then (c.category_name, c.display_name)
    else ("unknown", "Unknown category")

abbrev pub named_category : String → Requirement → Store → String × String
named_category tenant req st = category_of tenant (category_by_id req.document_category_id st)

pub record Item : Type 0 where
  pub document_category_id : String
  pub category_name : String
  pub display_name : String
  pub required_count : ℕ
  pub present_count : ℕ
  pub satisfied : Bool
  pub blocked_reason : Option (ℕ × ℕ)

pub record Compliance : Type 0 where
  pub flow_id : String
  pub items : List Item
  pub all_satisfied : Bool
  pub blocked_reasons : List (String × (ℕ × ℕ))

unfoldable pub item : String → List String → Requirement → Store → Item
item tenant subjects req st =
    let (name, display) = named_category tenant req st in
    let present = count_by_subjects_and_document_type tenant subjects name st.documents in
    let satisfied = leb req.min_count present in
    record {
      document_category_id = req.document_category_id;
      category_name = name;
      display_name = display;
      required_count = req.min_count;
      present_count = present;
      satisfied = satisfied;
      blocked_reason = if satisfied then none else some (req.min_count, present);
    }

abbrev pub Reason : Type 0
Reason = String × (ℕ × ℕ)

abbrev pub with_reason : String → Option (ℕ × ℕ) → List Reason → List Reason
with_reason display none reasons = reasons
with_reason display (some why) reasons = (display, why) ∷ reasons

-- The loop over the requirements, with the items and the reasons so far in order.
unfoldable pub check_requirements :
    String → List String → List Requirement → Store → List Item × List Reason
check_requirements tenant subjects [] st = ([], [])
check_requirements tenant subjects (req ∷ reqs) st =
    let (items, reasons) = check_requirements tenant subjects reqs st in
    let i = item tenant subjects req st in
    (i ∷ items, with_reason i.display_name i.blocked_reason reasons)

abbrev pub requirements_of : String → Option String → Store → List Requirement
requirements_of tenant none st = []
requirements_of tenant (some workflow) st =
    let rows = get_by_workflow tenant workflow none st in if is_blank workflow then [] else rows

-- What follows the query for the flow.
abbrev pub compliance_of : String → String → Store → Option Flow → Outcome Compliance
compliance_of tenant flow st none = raise (not_found "flow" flow)
compliance_of tenant flow st (some f) =
    let subjects = subject_ids flow tenant st in
    let (items, reasons) =
      check_requirements tenant subjects (requirements_of tenant f.workflow_id st) st in
    ok record {
      flow_id = flow;
      items = items;
      all_satisfied = is_empty reasons;
      blocked_reasons = reasons;
    }

-- `GetFlowDocumentComplianceUseCase.execute`
unfoldable pub document_compliance : String → String → Store → Outcome Compliance
document_compliance tenant flow st = compliance_of tenant flow st (flow_by_id flow tenant st)
