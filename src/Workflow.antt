-- ===== src/Workflow.antt =====
-- The workflow engine, app/infrastructure/services/workflow_engine.py, with the two queries of
-- app/infrastructure/persistence/repositories/workflow_repo.py that it makes.
--
-- A handler of actions of a type `A` works on a state `W` of everything else; it gives how many
-- actions it executed and failed, or raises. No handler reads the executions, so the row is written
-- once, when it is complete; a last flush that a broken session makes fail is left out. The clock is
-- read once for all executions of a call. Of the log only the number of entries is kept. Times are in
-- microseconds since 1970, UTC.
pub mod Limit
pub mod Runs
use Prim.Native.Char.{code}
use timeline.Base.{
  ℕ, zero, suc, ◌+◌, ◌*◌, ◌/◌, String, Bool, true, false, not, ◌&&◌, Option, none, some, List, [],
  ◌∷◌, ◌++◌, Dict, lookup, length, select, all, leb, ltb, eqb, sort_with, if◌then◌else◌, ◌==◌,
  Error, Outcome, ok, raise,
}
use timeline.Events.Row.{EventResult}
use timeline.Events.Transition.{matches}

pub data ExecutionStatus : Type 0 where
  completed : ExecutionStatus
  failed : ExecutionStatus

-- Why an execution has an error message.
pub data Failure : Type 0 where
  rate_limit : Failure
  raised : Error → Failure

pub record Workflow (V A : Type 0) : Type 0 where
  pub id : String
  pub tenant_id : String
  pub is_active : Bool
  pub is_deleted : Bool
  pub trigger_event_type : String
  pub trigger_conditions : Dict V
  pub actions : List (String × A)
  pub max_executions_per_day : Option ℕ
  pub execution_order : ℕ

pub record WorkflowExecution : Type 0 where
  pub tenant_id : String
  pub workflow_id : String
  pub triggered_by_event_id : String
  pub triggered_by_subject_id : String
  pub status : ExecutionStatus
  pub started_at : ℕ
  pub completed_at : ℕ
  pub actions_executed : ℕ
  pub actions_failed : ℕ
  pub log_entries : ℕ
  pub error : Option Failure

-- What follows the prefix `p`, if the text starts with it.
abbrev pub after_prefix : String → String → Option String
after_prefix String.[] s = some s
after_prefix (String.◌∷◌ c p) String.[] = none
after_prefix (String.◌∷◌ c p) (String.◌∷◌ d s) =
    let rest = after_prefix p s in if eqb (code c) (code d) then rest else none

abbrev size : String → ℕ
size String.[] = 0
size (String.◌∷◌ c s) = suc (size s)

abbrev pub head_or : String → String → String
head_or String.[] rest = String.[]
head_or (String.◌∷◌ c s) rest = String.◌∷◌ c rest

abbrev pub rest_of : String → String
rest_of String.[] = String.[]
rest_of (String.◌∷◌ c s) = s

-- `s.replace(p, "")`, with fuel for every character of `s`.
abbrev pub remove_all : ℕ → String → String → String
remove_all zero p s = s
remove_all (suc n) p s =
    let kept = remove_all n p (rest_of s) in
    elim (after_prefix p s) [ some rest ↦ remove_all n p rest | none ↦ head_or s kept ]

-- `key.replace("payload.", "")` for a key that starts with it.
abbrev pub field_of : String → Option String
field_of key = elim (after_prefix "payload." key) [
  | none ↦ none
  | some rest ↦ some (remove_all (size key) "payload." key)
]

module _ {V : Type 0} where
  abbrev pub condition_holds :
      (V → V → Bool) → (V → Bool) → EventResult V → Option String → V → Bool
  condition_holds value_eq is_null event none expected = false
  condition_holds value_eq is_null event (some field) expected =
      matches value_eq is_null (lookup field event.payload) expected

module _ {V A : Type 0} where
  -- Active workflows for the type, in their order.
  unfoldable pub get_by_trigger : String → String → List (Workflow V A) → List (Workflow V A)
  get_by_trigger tenant event_type workflows =
      sort_with (λ a b. leb a.execution_order b.execution_order)
        (select
          (λ w.
            w.tenant_id == tenant
            && w.trigger_event_type == event_type
            && w.is_active
            && not w.is_deleted)
          workflows)

  -- `_evaluate_conditions`: an unknown key fails closed.
  unfoldable pub evaluate_conditions :
      (V → V → Bool) → (V → Bool) → Workflow V A → EventResult V → Bool
  evaluate_conditions value_eq is_null w event =
      all (λ kv. condition_holds value_eq is_null event (field_of kv.0) kv.1) w.trigger_conditions

abbrev pub day : ℕ
day = 86400000000

-- `WHERE workflow_id = … AND tenant_id = … AND day_start <= started_at < day_end`
abbrev pub is_today : String → String → ℕ → WorkflowExecution → Bool
is_today workflow_id tenant now e =
    e.workflow_id == workflow_id
    && e.tenant_id == tenant
    && leb ((now / day) * day) e.started_at
    && ltb e.started_at ((now / day) * day + day)

unfoldable pub count_executions_today : String → String → ℕ → List WorkflowExecution → ℕ
count_executions_today workflow_id tenant now executions =
    length (select (is_today workflow_id tenant now) executions)

-- The running counts of `_execute_workflow`.
pub record Progress : Type 0 where
  pub executed : ℕ
  pub failed_actions : ℕ
  pub entries : ℕ

abbrev pub Handler : Type 0 → Type 0 → Type 0
Handler W A = A → W → W × Outcome (ℕ × ℕ)

-- A handler writes one entry in the log, whatever it returns.
abbrev pub add : Progress → ℕ → ℕ → Progress
add p executed failed_actions = record {
  executed = p.executed + executed;
  failed_actions = p.failed_actions + failed_actions;
  entries = suc p.entries;
}

abbrev pub no_progress : Progress
no_progress = record { executed = 0; failed_actions = 0; entries = 0 }

module _ {V A : Type 0} where
  abbrev pub execution_of :
      Workflow V A
      → EventResult V
      → ℕ
      → ℕ
      → ExecutionStatus
      → Progress
      → Option Failure
      → WorkflowExecution
  execution_of w event now finished status p error = record {
    tenant_id = w.tenant_id;
    workflow_id = w.id;
    triggered_by_event_id = event.id;
    triggered_by_subject_id = event.subject_id;
    status = status;
    started_at = now;
    completed_at = finished;
    actions_executed = p.executed;
    actions_failed = p.failed_actions;
    log_entries = p.entries;
    error = error;
  }

  abbrev pub refused : Workflow V A → EventResult V → ℕ → WorkflowExecution
  refused w event now = execution_of w event now now failed no_progress (some rate_limit)

  -- `count >= workflow.max_executions_per_day`
  abbrev pub is_over : Workflow V A → ℕ → List WorkflowExecution → Bool
  is_over w now executions = elim w.max_executions_per_day [
    | none ↦ false
    | some limit ↦ leb limit (count_executions_today w.id w.tenant_id now executions)
  ]

module _ {V A W : Type 0} where
  abbrev pub finish :
      Workflow V A → EventResult V → ℕ → ℕ → W × Progress × Option Error → W × WorkflowExecution
  finish w event now finished (world, p, none) =
      (world, execution_of w event now finished completed p none)
  finish w event now finished (world, p, some e) =
      (world, execution_of w event now finished failed p (some (raised e)))

module _ {A W : Type 0} where
  abbrev pub handled : Option (Handler W A) → A → W → W × Outcome (ℕ × ℕ)
  handled none action world = (world, ok (0, 0))
  handled (some handler) action world = handler action world

module _ {A W : Type 0} (handlers : String → Option (Handler W A)) where
  -- The loop over the actions, until one raises.
  unfoldable pub run_actions : List (String × A) → W → Progress → W × Progress × Option Error
  run_actions [] world p = (world, p, none)
  run_actions ((type, action) ∷ actions) world p =
      let (world', result) = handled (handlers type) action world in
      elim result [
        | raise e ↦ (world', p, some e)
        | ok (executed, failed_actions) ↦ run_actions actions world' (add p executed failed_actions)
      ]

module _ {V A W : Type 0} (handlers : String → Option (Handler W A)) where
  -- `_execute_workflow`: the new row.
  unfoldable pub execute_workflow :
      ℕ → ℕ → Workflow V A → EventResult V → W → List WorkflowExecution → W × WorkflowExecution
  execute_workflow now finished w event world executions =
      let ran = finish w event now finished (run_actions handlers w.actions world no_progress) in
      if is_over w now executions then (world, refused w event now) else ran

  -- The loop of `process_event_triggers`, with the executions that it returns.
  unfoldable pub process_workflows :
      (V → V → Bool)
      → (V → Bool)
      → ℕ
      → ℕ
      → EventResult V
      → List (Workflow V A)
      → W
      → List WorkflowExecution
      → W × List WorkflowExecution × List WorkflowExecution
  process_workflows value_eq is_null now finished event [] world executions =
      (world, executions, [])
  process_workflows value_eq is_null now finished event (w ∷ workflows) world executions =
      let skipped =
        process_workflows value_eq is_null now finished event workflows world executions in
      let (world', e) = execute_workflow now finished w event world executions in
      let (world'', executions', made) =
        process_workflows value_eq is_null now finished event workflows world'
          (executions ++ e ∷ []) in
      if evaluate_conditions value_eq is_null w event
      then (world'', executions', e ∷ made)
      else skipped

  unfoldable pub process_event_triggers :
      (V → V → Bool)
      → (V → Bool)
      → ℕ
      → ℕ
      → EventResult V
      → String
      → List (Workflow V A)
      → W
      → List WorkflowExecution
      → W × List WorkflowExecution × List WorkflowExecution
  process_event_triggers value_eq is_null now finished event tenant workflows world executions =
      process_workflows value_eq is_null now finished event
        (get_by_trigger tenant event.event_type workflows) world executions
