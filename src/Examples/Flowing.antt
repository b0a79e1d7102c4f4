-- ===== src/Examples/Flowing.antt =====
-- A flow's name and its required documents at concrete inputs.
use Prim.Native.Nat.{ℕ}
use timeline.Base.{
  List, any, All, Option, ◌==◌, if◌then◌else◌, String, ◌≡◌, refl, Bool, true, ◌||◌, none, some, [],
  ◌∷◌, ok, raise, validation, eqb, strip, strip_start, strip_end, between,
}
use timeline.Values.Slug.{codes}
use timeline.Flows.Naming.{
  Part, literal, placeholder, keys, template_parts, validate_and_parse, parts, match_parts, grab,
  is_segment,
}
use timeline.Flows.Render.{IsRendered, validate_and_parse-IsRendered}
use timeline.Flows.Scan.{IsKey, print, template_parts-print}
use timeline.Flows.Compliance.{
  FlowSubject, Flow, Requirement, Store, Compliance, document_compliance,
}
use timeline.Flows.Covered.{Reports, document_compliance-Reports}
use timeline.Flows.Links.{
  OwnSubjects, is_link, adds_to, pending_links, flush, create_links, adds_to-OwnSubjects,
}
use timeline.Examples.Data.{document}

abbrev is_word : ℕ → Bool
is_word c = between 97 122 c || eqb c b'_'

abbrev template : String
template = "{year}-Q{quarter}"

parsed :
    validate_and_parse is_word (λ k. true) " 2026-Q1 " template
    ≡ ok ((codes "year", codes "2026") ∷ (codes "quarter", codes "1") ∷ [])
unfolding validate_and_parse strip_start strip_end template_parts parts match_parts grab is_segment
parsed = refl

-- The example of the docstring: a dash in the last value.
dashed :
    validate_and_parse is_word (λ k. true) "2026-03-Acme-Corp" "{year}-{month}-{client_name}"
    ≡ raise (validation "name")
unfolding validate_and_parse strip_start strip_end template_parts parts match_parts grab is_segment
dashed = refl

abbrev quarterly : List Part
quarterly =
    placeholder (codes "year") ∷ literal b'-' ∷ literal b'Q' ∷ placeholder (codes "quarter") ∷ []

template_parts-print_example :
    (template_parts is_word (print quarterly) ≡ quarterly)
    × (print (template_parts is_word (codes template)) ≡ codes template)
    × All (IsKey is_word) (keys (template_parts is_word (codes template)))
template_parts-print_example =
    template_parts-print is_word refl quarterly (codes template)
      ((refl, refl), (refl, (refl, ((refl, refl), tt))))

validate_and_parse-IsRendered_example :
    IsRendered
      (template_parts is_word (codes template))
      ((codes "year", codes "2026") ∷ (codes "quarter", codes "1") ∷ [])
      (codes (strip " 2026-Q1 "))
validate_and_parse-IsRendered_example =
    validate_and_parse-IsRendered is_word (λ k. true) " 2026-Q1 " template
      ((codes "year", codes "2026") ∷ (codes "quarter", codes "1") ∷ []) parsed

abbrev onboarding : Flow
onboarding = record { id = "f1"; tenant_id = "t1"; name = "2026-Q1"; workflow_id = some "w1" }

abbrev needs : String → ℕ → Requirement
needs category n = record {
  id = category;
  tenant_id = "t1";
  workflow_id = "w1";
  step_definition_id = none;
  document_category_id = category;
  min_count = n;
}

abbrev store : Store
store = record {
  flows = onboarding ∷ [];
  links = record { flow_id = "f1"; subject_id = "p1"; role = none } ∷ [];
  requirements = needs "c1" 1 ∷ needs "c2" 1 ∷ [];
  categories =
      record { id = "c1"; tenant_id = "t1"; category_name = "scan"; display_name = "Scan" } ∷ [];
  documents = document "d1" 5 ∷ [];
  category_scope = "t1";
}

document_compliance-Reports_example :
    (c : Compliance) × ((document_compliance "t1" "f1" store ≡ ok c)
      × Reports "t1" "f1" store onboarding c)
document_compliance-Reports_example = document_compliance-Reports "t1" "f1" store onboarding refl

abbrev tenant_of : String → Option String
tenant_of s = if s == "p1" || s == "p2" then some "t1" else some "t9"

abbrev no_roles : String → Option String
no_roles s = none

abbrev linked : String → FlowSubject
linked s = record { flow_id = "f1"; subject_id = s; role = none }

adds-run :
    adds_to tenant_of no_roles "f1" "t1" ("p1" ∷ "p2" ∷ []) (linked "p1" ∷ []) (some onboarding)
    ≡ ok (linked "p1" ∷ linked "p2" ∷ [])
unfolding pending_links flush
adds-run = refl

adds_to-OwnSubjects_example :
    OwnSubjects tenant_of no_roles "f1" "t1" (linked "p1" ∷ linked "p2" ∷ [])
    × All (λ s. any (is_link "f1" s) (linked "p1" ∷ linked "p2" ∷ []) ≡ true) ("p1" ∷ "p2" ∷ [])
adds_to-OwnSubjects_example =
    adds_to-OwnSubjects tenant_of no_roles "f1" "t1" ("p1" ∷ "p2" ∷ []) (linked "p1" ∷ [])
      (linked "p1" ∷ linked "p2" ∷ []) (some onboarding) ((λ e. refl), tt) adds-run

-- A new flow takes the subject of another tenant.
other_tenant : create_links tenant_of no_roles "f1" ("p9" ∷ []) [] ≡ ok (linked "p9" ∷ [])
unfolding flush
other_tenant = refl
