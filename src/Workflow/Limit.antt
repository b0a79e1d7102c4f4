-- ===== src/Workflow/Limit.antt =====
-- The daily limit: of the executions of a workflow on one day, no more than the maximum ran.
use timeline.Base.{
  ℕ, ◌+◌, ◌≤◌, ◌<◌, String, ◌≡◌, refl, Bool, true, false, ◌&&◌, Option, none, some, List, [], ◌∷◌,
  ◌++◌, length, length-append, select, select-append, All, ◌==◌, eq_iff, Bool-cases, arith, inl,
  inr, Error,
}
use timeline.Events.Row.{EventResult}
use timeline.Workflow.{
  rate_limit, raised, Workflow, WorkflowExecution, is_today, count_executions_today, Progress,
  no_progress, Handler, run_actions, finish, refused, is_over, execute_workflow,
  evaluate_conditions, process_workflows,
}

-- The execution was not refused.
abbrev pub ran : WorkflowExecution → Bool
ran e = elim e.error [ none ↦ true | some f ↦ elim f [ rate_limit ↦ false | raised x ↦ true ] ]

abbrev pub ran_today : String → String → ℕ → List WorkflowExecution → ℕ
ran_today workflow_id tenant now executions =
    length (select (λ e. is_today workflow_id tenant now e && ran e) executions)

ran_today-le :
    (id tenant : String) (now : ℕ) (executions : List WorkflowExecution)
    → ran_today id tenant now executions ≤ count_executions_today id tenant now executions
unfolding count_executions_today
ran_today-le id tenant now [] = omega arith
ran_today-le id tenant now (e ∷ es) = ground (arith, ran_today-le id tenant now es)

ran_today-append :
    (id tenant : String) (now : ℕ) (executions : List WorkflowExecution) (e : WorkflowExecution)
    → ran_today id tenant now (executions ++ e ∷ [])
      ≡ ran_today id tenant now executions + ran_today id tenant now (e ∷ [])
ran_today-append id tenant now executions e =
    rw (select-append (λ e. is_today id tenant now e && ran e) executions (e ∷ [])) (
      length-append (select (λ e. is_today id tenant now e && ran e) executions)
        (select (λ e. is_today id tenant now e && ran e) (e ∷ [])))

ran_today-one :
    (id tenant : String) (now : ℕ) (e : WorkflowExecution) → ran_today id tenant now (e ∷ []) ≤ 1
ran_today-one id tenant now e = ground arith

module _ {V A W : Type 0} (handlers : String → Option (Handler W A)) (id tenant : String)
    (limit now : ℕ) where
  -- Another workflow, or one with this limit.
  abbrev pub Respects : Workflow V A → Type 0
  Respects w = w.id ≡ id → w.tenant_id ≡ tenant → w.max_executions_per_day ≡ some limit

  finish-about :
      (w : Workflow V A) (event : EventResult V) (finished : ℕ)
      (outcome : W × Progress × Option Error)
      → let e = (finish w event now finished outcome).1 in
        (e.workflow_id ≡ w.id) × (e.tenant_id ≡ w.tenant_id)
  finish-about w event finished (world, p, none) = (refl, refl)
  finish-about w event finished (world, p, some e) = (refl, refl)

  other_workflow :
      (w : Workflow V A) (e : WorkflowExecution)
      → e.workflow_id ≡ w.id
      → e.tenant_id ≡ w.tenant_id
      → w.id == id && w.tenant_id == tenant ≡ false
      → ran_today id tenant now (e ∷ []) ≡ 0
  other_workflow w e same_id same_tenant other = rw (same_id, same_tenant) (ground arith)

  -- A workflow that is not over its limit has room for one more.
  has_room :
      (w : Workflow V A) (executions : List WorkflowExecution)
      → Respects w
      → w.id == id && w.tenant_id == tenant ≡ true
      → is_over w now executions ≡ false
      → ran_today id tenant now executions < limit
  has_room w executions respects own room =
      let same_id : w.id ≡ id = ground (arith, eq_iff w.id id) in
      let same_tenant : w.tenant_id ≡ tenant = ground (arith, eq_iff w.tenant_id tenant) in
      let under = rw (respects same_id same_tenant, same_id, same_tenant) at room in
      let few = ran_today-le id tenant now executions in
      let counted : count_executions_today id tenant now executions < limit = ground arith in
      omega arith

  execution-ran :
      (finished : ℕ) (w : Workflow V A) (event : EventResult V) (world : W)
      (executions : List WorkflowExecution)
      → Respects w
      → ran_today id tenant now executions ≤ limit
      → ran_today id tenant now
          (executions ++ (execute_workflow handlers now finished w event world executions).1 ∷ [])
        ≤ limit
  unfolding execute_workflow
  execution-ran finished w event world executions respects h =
      let done = finish w event now finished (run_actions handlers w.actions world no_progress) in
      let about =
        finish-about w event finished (run_actions handlers w.actions world no_progress) in
      elim (Bool-cases (is_over w now executions)) [
        | inl over ↦
            let none_ran : ran_today id tenant now (refused w event now ∷ []) ≡ 0 = ground arith in
            let total = ran_today-append id tenant now executions (refused w event now) in
            rw over (omega arith)
        | inr room ↦
            let total = ran_today-append id tenant now executions done.1 in
            rw room (elim (Bool-cases (w.id == id && w.tenant_id == tenant)) [
              | inl own ↦
                  let less = has_room w executions respects own room in
                  let one = ran_today-one id tenant now done.1 in omega arith
              | inr other ↦
                  let zero_more = other_workflow w done.1 about.0 about.1 other in omega arith
            ])
      ]

  -- For a workflow with a maximum for a day, of which no more executions of that day than the
  -- maximum were run and not refused, this is still so after an event's workflows are processed, if
  -- those with its id and tenant have its maximum.
  pub process_workflows-limit :
      (value_eq : V → V → Bool) (is_null : V → Bool) (finished : ℕ) (event : EventResult V)
      (workflows : List (Workflow V A)) (world : W) (executions : List WorkflowExecution)
      → All Respects workflows
      → ran_today id tenant now executions ≤ limit
      → ran_today id tenant now
          (process_workflows handlers value_eq is_null now finished event workflows world
            executions).1
        ≤ limit
  unfolding process_workflows
  process_workflows-limit value_eq is_null finished event [] world executions respect h = h
  process_workflows-limit value_eq is_null finished event (w ∷ workflows) world executions respect
        h =
      let (world', e) = execute_workflow handlers now finished w event world executions in
      let more = execution-ran finished w event world executions respect.0 h in
      elim (Bool-cases (evaluate_conditions value_eq is_null w event)) [
        | inl holds ↦ rw holds (
            process_workflows-limit value_eq is_null finished event workflows world'
              (executions ++ e ∷ []) respect.1 more)
        | inr fails ↦ rw fails (
            process_workflows-limit value_eq is_null finished event workflows world executions
              respect.1 h)
      ]
