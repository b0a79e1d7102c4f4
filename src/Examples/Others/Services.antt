-- ===== src/Examples/Others/Services.antt =====
-- Anchors, tenants, permissions and workflows at concrete inputs.
use timeline.Base.{
  ℕ, suc, ◌≤◌, ◌≡◌, refl, true, false, not, none, some, List, [], ◌∷◌, ◌++◌, eqb, All, select,
  arith, ok, raise_if, authorization, Ordered, eq_iff, min, ◌-◌, length-select-le,
}
use timeline.Values.Slug.{newline, slug_re, slug_match, is_alnum, tenant_code}
use timeline.Values.Slug.Accepts.{tenant_code-newline}
use timeline.Documents.{Document, retire_category}
use timeline.Documents.Deletion.{Apart, is_due, remaining}
use timeline.Documents.Retention.{retire_category-counts}
use timeline.Anchoring.{
  ChainAnchor, Anchors, Anchoring, confirmed, get_by_tenant_and_tip, create_pending,
  update_confirmed, run_for_tenant,
}
use timeline.Anchoring.Final.{
  Follows, creates, confirms, here, next, Follows-refl, Reach-Follows, Step-IsConsistent,
  IsConsistent,
}
use timeline.Anchoring.Run.{run_for_tenant-Follows}
use timeline.Tenancy.Lifecycle.{
  TenantEntity, TenantStatus, active, suspended, suspend, code_is_stable,
}
use timeline.Tenancy.Lifecycle
use timeline.Tenancy.Permission.{
  require_permission, invalidate_user_cache, grants, require_permission-invalidated,
}
use timeline.Workflow.{Workflow, process_workflows, evaluate_conditions}
use timeline.Workflow.Limit.{ran_today, process_workflows-limit}
use timeline.Workflow.Runs.{Match, process_workflows-Match}
use timeline.Examples.Data.{stored, document}

abbrev one_pending : Anchors
one_pending = (create_pending "a1" 5 "t1" "h1" "url" (some 5) none []).0

abbrev one_confirmed : Anchors
one_confirmed = (update_confirmed "a1" "receipt" none one_pending).0

Reach-Follows_example : Follows [] one_confirmed
Reach-Follows_example = Reach-Follows (
    next (next here (creates "a1" 5 "t1" "h1" "url" (some 5) none []))
      (confirms "a1" "receipt" none one_pending))

Step-IsConsistent_example : All IsConsistent one_pending
Step-IsConsistent_example = Step-IsConsistent (creates "a1" 5 "t1" "h1" "url" (some 5) none []) tt

abbrev use_case : Anchoring
use_case = record { tsa = λ tip. ok ("receipt", none); tsa_url = "url"; message = λ e. "" }

abbrev anchor : ChainAnchor
anchor = record {
  id = "a1";
  tenant_id = "t1";
  subject_id = none;
  chain_tip_hash = "h1";
  anchored_at = some 5;
  tsa_url = "url";
  tsa_receipt = some "receipt";
  tsa_serial = none;
  status = confirmed;
  error_message = none;
  created_at = 5;
}

anchor-found : get_by_tenant_and_tip "t1" "h1" none (anchor ∷ []) ≡ some anchor
unfolding get_by_tenant_and_tip
anchor-found = refl

abbrev next_rows : Anchors
next_rows = (create_pending "a2" 9 "t1" "h2" "url" (some 9) none (anchor ∷ [])).0

run_for_tenant-Follows_example :
    Follows
      (anchor ∷ [])
      (run_for_tenant use_case 9 "a3" (λ rows. rows) "t1" (some "h2") (anchor ∷ [])).0
run_for_tenant-Follows_example =
    run_for_tenant-Follows use_case 9 "t1" (λ rows. rows) Follows-refl "a3" (some "h2")
      (anchor ∷ [])

abbrev tenant : TenantStatus → TenantEntity
tenant status = record { id = "t1"; code = "acme"; name = "Acme"; status = status }

tenant-suspended : suspend (tenant active) ≡ ok (tenant suspended)
unfolding suspend
tenant-suspended = refl

code_is_stable_example : (tenant suspended).code ≡ (tenant active).code
code_is_stable_example =
    code_is_stable (λ same. cc)
      (Lifecycle.suspends (tenant active) (tenant suspended) tenant-suspended)

require_permission-invalidated_example :
    (require_permission
      (λ user at. "event:read" ∷ [])
      "u1"
      "t1"
      "event"
      "read"
      (invalidate_user_cache "u1" "t1" (some (("permission:t1:u1", "*:*" ∷ []) ∷ [])))).1
    ≡ raise_if (not (grants ("event:read" ∷ []) "event" "read")) (authorization "event" "read")
require_permission-invalidated_example =
    require_permission-invalidated (λ user at. "event:read" ∷ []) "u1" "t1" "event" "read"
      (some (("permission:t1:u1", "*:*" ∷ []) ∷ []))

abbrev workflow : Workflow ℕ ℕ
workflow = record {
  id = "w1";
  tenant_id = "t1";
  is_active = true;
  is_deleted = false;
  trigger_event_type = "moved";
  trigger_conditions = ("payload.step", 20) ∷ [];
  actions = ("count", 1) ∷ [];
  max_executions_per_day = some 1;
  execution_order = 0;
}

process_workflows-limit_example :
    ran_today "w1" "t1" 7
      (process_workflows {A = ℕ} {W = ℕ}
        (λ type. some (λ a world. (suc world, ok (1, 0))))
        eqb
        (λ v. false)
        7
        8
        (stored "e2" "moved" 20 none)
        (workflow ∷ workflow ∷ [])
        0
        []).1
    ≤ 1
process_workflows-limit_example =
    process_workflows-limit (λ type. some (λ a world. (suc world, ok (1, 0)))) "w1" "t1" 1 7 eqb
      (λ v. false) 8 (stored "e2" "moved" 20 none) (workflow ∷ workflow ∷ []) 0 []
      ((λ i t. refl), ((λ i t. refl), tt)) (omega arith)

process_workflows-Match_example :
    let r =
      process_workflows {A = ℕ} {W = ℕ}
        (λ type. some (λ a world. (suc world, ok (1, 0))))
        eqb
        (λ v. false)
        7
        8
        (stored "e2" "moved" 20 none)
        (workflow ∷ [])
        0
        [] in
    Match
      (λ type. some (λ a world. (suc world, ok (1, 0))))
      eqb
      (λ v. false)
      7
      8
      (stored "e2" "moved" 20 none)
      (select
        (λ w. evaluate_conditions eqb (λ v. false) w (stored "e2" "moved" 20 none))
        (workflow ∷ []))
      r.2
    × (r.1 ≡ [] ++ r.2)
process_workflows-Match_example =
    process_workflows-Match (λ type. some (λ a world. (suc world, ok (1, 0)))) eqb (λ v. false) 7 8
      (stored "e2" "moved" 20 none) (workflow ∷ []) 0 []

abbrev acme : List ℕ
acme = b'a' ∷ b'c' ∷ b'm' ∷ b'e' ∷ []

acme-slug : slug_re acme ≡ true
unfolding slug_match is_alnum
acme-slug = refl

tenant_code-newline_example : tenant_code (acme ++ newline ∷ []) ≡ ok (acme ++ newline ∷ [])
tenant_code-newline_example = tenant_code-newline acme acme-slug refl (omega arith) (omega arith)

abbrev documents : List Document
documents = document "d1" 5 ∷ document "d2" 50 ∷ []

documents-Apart : Ordered Apart documents
documents-Apart = ((ground (arith, eq_iff "d1" "d2"), tt), (tt, tt))

retire_category-counts_example :
    let r = retire_category "t1" "scan" 20 60 documents in
    (r.1 ≡ min 500 (remaining "t1" "scan" 20 documents))
    × (remaining "t1" "scan" 20 r.0 ≡ remaining "t1" "scan" 20 documents - 500)
retire_category-counts_example =
    retire_category-counts "t1" "scan" 20 60 documents documents-Apart
      (omega (arith, length-select-le (is_due "t1" "scan" 20) documents))
