-- ===== src/Workflow/Runs.antt =====
-- Which workflows an event runs, and the rows that they leave.
use mathlib.Core.List.{append_assoc}
use timeline.Base.{
  ℕ, String, ◌≡◌, refl, sym, ◌∙◌, Bool, Option, none, some, List, [], ◌∷◌, ◌++◌, append-nil, select,
  Bool-cases, inl, inr, Error,
}
use timeline.Events.Row.{EventResult}
use timeline.Workflow.{
  Workflow, WorkflowExecution, Progress, no_progress, Handler, run_actions, finish, is_over,
  execute_workflow, evaluate_conditions, process_workflows,
}

module _ {V A W : Type 0} (handlers : String → Option (Handler W A)) (value_eq : V → V → Bool)
    (is_null : V → Bool) (now finished : ℕ) (event : EventResult V) where
  -- The execution is the workflow's, for the event.
  pub record IsExecutionOf (w : Workflow V A) (e : WorkflowExecution) : Type 0 where
    pub of_workflow : e.workflow_id ≡ w.id
    pub of_tenant : e.tenant_id ≡ w.tenant_id
    pub of_event : e.triggered_by_event_id ≡ event.id
    pub of_subject : e.triggered_by_subject_id ≡ event.subject_id
    pub at_time : e.started_at ≡ now

  abbrev pub Match : List (Workflow V A) → List WorkflowExecution → Type 0
  Match [] made = made ≡ []
  Match (w ∷ workflows) [] = ⊥
  Match (w ∷ workflows) (e ∷ made) = IsExecutionOf w e × Match workflows made

  execute_workflow-of :
      (w : Workflow V A) (world : W) (executions : List WorkflowExecution)
      → IsExecutionOf w (execute_workflow handlers now finished w event world executions).1
  unfolding execute_workflow
  execute_workflow-of w world executions = elim (Bool-cases (is_over w now executions)) [
    | inl over ↦ rw over (record {
      of_workflow = refl;
      of_tenant = refl;
      of_event = refl;
      of_subject = refl;
      at_time = refl;
    })
    | inr room ↦ rw room (by_outcome (run_actions handlers w.actions world no_progress))
  ]
    where
      by_outcome :
          (o : W × Progress × Option Error) → IsExecutionOf w (finish w event now finished o).1
      by_outcome (world, p, none) = record {
        of_workflow = refl;
        of_tenant = refl;
        of_event = refl;
        of_subject = refl;
        at_time = refl;
      }
      by_outcome (world, p, some e) = record {
        of_workflow = refl;
        of_tenant = refl;
        of_event = refl;
        of_subject = refl;
        at_time = refl;
      }

  -- An event makes one execution for each workflow whose conditions hold, in the workflows' order
  -- and about that event, and adds these rows to the table and no others.
  pub process_workflows-Match :
      (workflows : List (Workflow V A)) (world : W) (executions : List WorkflowExecution)
      → let r =
          process_workflows handlers value_eq is_null now finished event workflows world
            executions in
        Match (select (λ w. evaluate_conditions value_eq is_null w event) workflows) r.2
        × (r.1 ≡ executions ++ r.2)
  unfolding process_workflows
  process_workflows-Match [] world executions = (refl, sym (append-nil executions))
  process_workflows-Match (w ∷ workflows) world executions =
      let (world', e) = execute_workflow handlers now finished w event world executions in
      let made = execute_workflow-of w world executions in
      elim (Bool-cases (evaluate_conditions value_eq is_null w event)) [
        | inl holds ↦
            let (rest, rows) = process_workflows-Match workflows world' (executions ++ e ∷ []) in
            rw holds ((made, rest), rows ∙ append_assoc executions (e ∷ []) _)
        | inr fails ↦ rw fails (process_workflows-Match workflows world executions)
      ]
