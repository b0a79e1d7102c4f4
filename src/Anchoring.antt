-- ===== src/Anchoring.antt =====
-- Anchoring a tenant's chain tip: app/application/use_cases/anchoring/anchor_chain_tips.py and
-- app/infrastructure/persistence/repositories/chain_anchor_repo.py.
--
-- The time stamping service is the parameter `tsa`: digest, time stamp and serial of a tip, or what
-- it raises. The column `status` holds one of the three texts of `AnchorStatus`. Times are in
-- microseconds. A unique index allows one anchor for each tenant, subject and tip.
pub mod Final
pub mod Run
use timeline.Base.{
  ℕ, ◌-◌, ◌*◌, String, Bool, true, false, not, ◌&&◌, ◌||◌, Option, none, some, List, [], ◌∷◌, ◌++◌,
  map, length, select, any, leb, ltb, eqb, opt_eq, if◌then◌else◌, ◌==◌, Error, Outcome, ok, raise,
  other_error,
}

pub data AnchorStatus : Type 0 where
  pending : AnchorStatus
  failed : AnchorStatus
  confirmed : AnchorStatus

pub record ChainAnchor : Type 0 where
  pub id : String
  pub tenant_id : String
  pub subject_id : Option String
  pub chain_tip_hash : String
  pub anchored_at : Option ℕ
  pub tsa_url : String
  pub tsa_receipt : Option String
  pub tsa_serial : Option String
  pub status : AnchorStatus
  pub error_message : Option String
  pub created_at : ℕ

abbrev pub Anchors : Type 0
Anchors = List ChainAnchor

abbrev pub is_confirmed : AnchorStatus → Bool
is_confirmed confirmed = true
is_confirmed _ = false

abbrev pub is_failed : AnchorStatus → Bool
is_failed failed = true
is_failed _ = false

abbrev pub is_pending : AnchorStatus → Bool
is_pending pending = true
is_pending _ = false

abbrev pub first_anchor : Anchors → Option ChainAnchor
first_anchor [] = none
first_anchor (a ∷ rows) = some a

abbrev pub at_tip : String → String → Option String → ChainAnchor → Bool
at_tip tenant tip subject a =
    a.tenant_id == tenant && a.chain_tip_hash == tip && opt_eq a.subject_id subject

unfoldable pub get_by_tenant_and_tip :
    String → String → Option String → Anchors → Option ChainAnchor
get_by_tenant_and_tip tenant tip subject rows =
    first_anchor (select (at_tip tenant tip subject) rows)

-- `UPDATE … WHERE id = … AND <allowed>`
abbrev pub update_row :
    String → (ChainAnchor → Bool) → (ChainAnchor → ChainAnchor) → Anchors → Anchors
update_row anchor_id allowed change =
    map (λ a. if a.id == anchor_id && allowed a then change a else a)

-- None unless one row was changed; then that row, read again.
abbrev pub row_after : String → (ChainAnchor → Bool) → Anchors → Anchors → Option ChainAnchor
row_after anchor_id allowed rows rows' =
    if eqb (length (select (λ a. a.id == anchor_id && allowed a) rows)) 1
    then first_anchor (select (λ a. a.id == anchor_id) rows')
    else none

abbrev pub update_anchor :
    String
    → (ChainAnchor → Bool)
    → (ChainAnchor → ChainAnchor)
    → Anchors
    → Anchors × Option ChainAnchor
update_anchor anchor_id allowed change rows =
    let rows' = update_row anchor_id allowed change rows in
    (rows', row_after anchor_id allowed rows rows')

abbrev pub with_status :
    AnchorStatus → Option String → Option String → Option String → ChainAnchor → ChainAnchor
with_status status receipt serial error a = record {
  id = a.id;
  tenant_id = a.tenant_id;
  subject_id = a.subject_id;
  chain_tip_hash = a.chain_tip_hash;
  anchored_at = a.anchored_at;
  tsa_url = a.tsa_url;
  tsa_receipt = receipt;
  tsa_serial = serial;
  status = status;
  error_message = error;
  created_at = a.created_at;
}

unfoldable pub update_confirmed :
    String → String → Option String → Anchors → Anchors × Option ChainAnchor
update_confirmed anchor_id receipt serial =
    update_anchor anchor_id (λ a. is_pending a.status || is_failed a.status)
      (λ a. with_status confirmed (some receipt) serial none a)

unfoldable pub update_failed : String → String → Anchors → Anchors × Option ChainAnchor
update_failed anchor_id error =
    update_anchor anchor_id (λ a. not (is_confirmed a.status))
      (λ a. with_status failed a.tsa_receipt a.tsa_serial (some error) a)

unfoldable pub update_to_pending : String → Anchors → Anchors × Option ChainAnchor
update_to_pending anchor_id =
    update_anchor anchor_id (λ a. is_failed a.status)
      (λ a. with_status pending a.tsa_receipt a.tsa_serial none a)

abbrev pub pending_anchor :
    String → ℕ → String → String → String → Option ℕ → Option String → ChainAnchor
pending_anchor new_id now tenant tip url anchored_at subject = record {
  id = new_id;
  tenant_id = tenant;
  subject_id = subject;
  chain_tip_hash = tip;
  anchored_at = anchored_at;
  tsa_url = url;
  tsa_receipt = none;
  tsa_serial = none;
  status = pending;
  error_message = none;
  created_at = now;
}

-- The primary key or the index on tenant, subject and tip refuses the row.
unfoldable pub is_taken : Anchors → ChainAnchor → Bool
is_taken rows a = any (λ b. b.id == a.id || at_tip a.tenant_id a.chain_tip_hash a.subject_id b) rows

-- `existing is not None`, or the conflict is raised.
abbrev pub loaded : Option ChainAnchor → Outcome ChainAnchor
loaded none = raise other_error
loaded (some a) = ok a

unfoldable pub create_pending :
    String
    → ℕ
    → String
    → String
    → String
    → Option ℕ
    → Option String
    → Anchors
    → Anchors × Outcome ChainAnchor
create_pending new_id now tenant tip url anchored_at subject rows =
    let a = pending_anchor new_id now tenant tip url anchored_at subject in
    if is_taken rows a
    then (rows, loaded (get_by_tenant_and_tip tenant tip subject rows))
    else (rows ++ a ∷ [], ok a)

-- 30 seconds, in microseconds.
abbrev pub pending_grace : ℕ
pending_grace = 30000000

abbrev pub is_recent : ℕ → ChainAnchor → Bool
is_recent now a = leb a.created_at now && ltb (now - a.created_at) pending_grace

pub record Anchoring : Type 0 where
  pub tsa : String → Outcome (String × Option String)
  pub tsa_url : String
  pub message : Error → String

-- After the pending row: the time stamp, and its result written.
abbrev pub submit :
    (Error → String)
    → Outcome (String × Option String)
    → String
    → Anchors
    → Anchors × Outcome (Option ChainAnchor)
submit message (ok (receipt, serial)) anchor_id rows =
    let (rows', updated) = update_confirmed anchor_id receipt serial rows in (rows', ok updated)
submit message (raise e) anchor_id rows =
    let (rows', updated) = update_failed anchor_id (message e) rows in (rows', raise e)

abbrev pub submit_created :
    Anchoring
    → (Anchors → Anchors)
    → String
    → Anchors × Outcome ChainAnchor
    → Anchors × Outcome (Option ChainAnchor)
submit_created use_case during tip (rows, raise e) = (rows, raise e)
submit_created use_case during tip (rows, ok a) =
    submit use_case.message (use_case.tsa tip) a.id (during rows)

-- The row exists: confirmed, in flight, or used again.
abbrev pub run_existing :
    Anchoring
    → ℕ
    → (Anchors → Anchors)
    → String
    → ChainAnchor
    → Anchors
    → Anchors × Outcome (Option ChainAnchor)
run_existing use_case now during tip a rows =
    if is_confirmed a.status
    then (rows, ok (some a))
    else (if is_pending a.status && is_recent now a
        then (rows, ok none)
        else submit use_case.message (use_case.tsa tip) a.id
            (during (update_to_pending a.id rows).0))

abbrev pub run_found :
    Anchoring
    → ℕ
    → String
    → (Anchors → Anchors)
    → String
    → String
    → Option ChainAnchor
    → Anchors
    → Anchors × Outcome (Option ChainAnchor)
run_found use_case now new_id during tenant tip (some a) rows =
    run_existing use_case now during tip a rows
run_found use_case now new_id during tenant tip none rows =
    submit_created use_case during tip
      (create_pending new_id now tenant tip use_case.tsa_url (some now) none rows)

-- `tip` is the tenant's `get_chain_tip_hash`; what other sessions do while the service is asked is `during`.
unfoldable pub run_for_tenant :
    Anchoring
    → ℕ
    → String
    → (Anchors → Anchors)
    → String
    → Option String
    → Anchors
    → Anchors × Outcome (Option ChainAnchor)
run_for_tenant use_case now new_id during tenant none rows = (rows, ok none)
run_for_tenant use_case now new_id during tenant (some tip) rows =
    run_found use_case now new_id during tenant tip (get_by_tenant_and_tip tenant tip none rows)
      rows
