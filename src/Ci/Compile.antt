-- ===== src/Ci/Compile.antt =====
-- internal/ci/compile.go: the steps, the inputs and the plan.
--
-- `lower` is `unicode.ToLower`, and `digits` the decimal text of a number (`%d`). The file's base name
-- and the root of the repository, which are only copied into the plan, are left out.
pub mod Steps
pub mod Plan
use kindling.Base.{
  ℕ, suc, ◌+◌, ◌==◌, Bool, true, false, ◌&&◌, Option, none, some, List, [], ◌∷◌, ◌++◌, map, Text,
  text_eq, codes, if◌then◌else◌, is_blank, is_empty, trim_space,
}
use kindling.Ci.{
  Error, Result, ok, err, ◌>>=◌, no_default_event, input_required, step_without_action,
  unsupported_action, Graph, has, lookup, Dict, WorkflowStep, WorkflowJob, StepKind, CompiledStep,
  CompiledJob, DispatchInput, Workflow, CompileRequest, ExecutionPlan, kind_text, before,
  first_non_empty, default_workflow_event, action_kind, resolve_job_order, job_not_found,
}

module _ (lower : ℕ → ℕ) (digits : ℕ → Text) where
  unfoldable pub normalize_uses : Text → Text
  normalize_uses uses = before b'@' (trim_space (map lower uses))

  -- `strings.ReplaceAll(kind, "-", "_")` finds nothing to replace in a kind.
  unfoldable pub step_id : Text → StepKind → ℕ → Text
  step_id id kind idx = if is_empty id then kind_text kind ++ codes "_" ++ digits (idx + 1) else id

  unfoldable pub compile_step : WorkflowJob → WorkflowStep → ℕ → Result CompiledStep
  compile_step job step idx =
      let cs : StepKind → CompiledStep = λ kind. record {
        id = step_id (trim_space step.id) kind idx;
        name = step.name;
        condition = trim_space step.condition;
        kind = kind;
        uses = trim_space step.uses;
        run = step.run;
        working_directory =
            first_non_empty
              (trim_space step.working_directory ∷ trim_space job.default_directory ∷ []);
        env = step.env;
        with = step.with;
      } in
      if is_blank step.run
      then if is_blank step.uses
        then err step_without_action
        else (elim (action_kind (normalize_uses step.uses)) [
          | none ↦ err (unsupported_action step.uses)
          | some kind ↦ ok (cs kind)
        ])
      else ok (cs StepKind.run)

  unfoldable pub compile_steps : WorkflowJob → List WorkflowStep → ℕ → Result (List CompiledStep)
  compile_steps job [] idx = ok []
  compile_steps job (step ∷ steps) idx = compile_step job step idx >>= λ cs.
      compile_steps job steps (idx + 1) >>= λ rest. ok (cs ∷ rest)

  unfoldable pub compile_job : WorkflowJob → Result CompiledJob
  unfolding compile_steps
  compile_job job = compile_steps job job.steps 0 >>= λ steps. ok (record {
    id = job.id;
    name = job.name;
    needs = job.needs;
    condition = trim_space job.condition;
    outputs = job.outputs;
    env = job.env;
    steps = steps;
  })

  -- The jobs in the order of the sort, which returns ids of the map alone.
  unfoldable pub compile_jobs : List (Text × WorkflowJob) → List Text → Result (List CompiledJob)
  compile_jobs jobs [] = ok []
  compile_jobs jobs (id ∷ order) = elim (lookup id jobs) [
    | none ↦ err (job_not_found id)
    | some job ↦ compile_job job >>= λ c. compile_jobs jobs order >>= λ rest. ok (c ∷ rest)
  ]

-- The inputs that have a default, and over them those of the request.
unfoldable pub default_inputs : List (Text × DispatchInput) → Dict
default_inputs [] = []
default_inputs ((name, spec) ∷ specs) =
    let rest = default_inputs specs in
    if is_empty spec.default then rest else (name, spec.default) ∷ rest

abbrev pub value_of : Option Text → Text
value_of none = []
value_of (some v) = v

-- `for name, spec := range …`: the specs in the order of the range.
unfoldable pub check_required : List (Text × DispatchInput) → Dict → Result (Unit {0})
check_required [] inputs = ok tt
check_required ((name, spec) ∷ specs) inputs =
    if spec.required && is_blank (value_of (lookup name inputs))
    then err (input_required name)
    else check_required specs inputs

unfoldable pub needs_of : List (Text × WorkflowJob) → Graph
needs_of [] = []
needs_of ((id, job) ∷ jobs) = (id, job.needs) ∷ needs_of jobs

unfoldable pub select_event : CompileRequest → Result Text
select_event req =
    if is_empty (trim_space req.event)
    then (if is_empty (default_workflow_event req.workflow.triggers)
        then err no_default_event
        else ok (default_workflow_event req.workflow.triggers))
    else ok (trim_space req.event)

unfoldable pub compile : (ℕ → ℕ) → (ℕ → Text) → CompileRequest → Result ExecutionPlan
unfolding select_event
compile lower digits req =
    let inputs = req.inputs ++ default_inputs req.workflow.dispatch_input in
    select_event req >>= λ event. check_required req.workflow.dispatch_input inputs >>= λ _.
    resolve_job_order (needs_of req.workflow.jobs) req.job_id >>= λ order.
    compile_jobs lower digits req.workflow.jobs order >>= λ jobs.
    ok (record { workflow_name = req.workflow.name; event = event; inputs = inputs; jobs = jobs })
