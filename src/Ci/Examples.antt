-- ===== src/Ci/Examples.antt =====
-- internal/ci/compile.go: two small workflows.
use kindling.Base.{
  ◌+◌, is_blank, trim_space, ◌&&◌, leb, if◌then◌else◌, false, ℕ, some, none, ◌≢◌, inl, inr,
  text_eq_iff, ◌≡◌, refl, List, [], ◌∷◌, Text, codes, true, arith,
}
use kindling.Ci.{
  before, first_non_empty, StepKind, kind_text, CompileRequest, action_kind, WorkflowStep,
  CompiledJob, CompiledStep, WorkflowJob, resolve_job_order, default_workflow_event, ExecutionPlan,
  Graph, ok, err, cycle_detected, topo_sort_jobs, visit, visit_each, enter, leave, sort_strings,
  insert_sorted, ids, has, lookup, delete,
}
use kindling.Ci.Topo.{direct, onward, Reaches, IsNeeded}
use kindling.Ci.Compile.{
  compile, select_event, default_inputs, check_required, needs_of, compile_jobs, compile_job,
  compile_steps, compile_step, step_id, normalize_uses,
}
use kindling.Ci.Compile.Steps.{Compiled, compile_step-Compiled}
use kindling.Ci.Compile.Plan.{IsCompiled, compile-IsCompiled}
use kindling.Ci.Topo.Order.{IsPlan, topo_sort_jobs-Planned}

abbrev pipeline : Graph
pipeline =
    (codes "deploy", codes "test" ∷ codes "build" ∷ [])
    ∷ (codes "build", [])
    ∷ (codes "test", codes "build" ∷ [])
    ∷ []

abbrev looped : Graph
looped = (codes "a", codes "b" ∷ []) ∷ (codes "b", codes "a" ∷ []) ∷ []

pipeline_runs : topo_sort_jobs pipeline [] ≡ ok (codes "build" ∷ codes "test" ∷ codes "deploy" ∷ [])
unfolding topo_sort_jobs visit visit_each enter leave sort_strings insert_sorted ids has lookup
    delete
pipeline_runs = refl

looped_fails : topo_sort_jobs looped [] ≡ err (cycle_detected (codes "a"))
unfolding topo_sort_jobs visit visit_each enter leave sort_strings insert_sorted ids has lookup
    delete
looped_fails = refl

topo_sort_jobs-Planned_example :
    IsPlan pipeline (codes "deploy" ∷ []) (codes "build" ∷ codes "test" ∷ codes "deploy" ∷ [])
unfolding topo_sort_jobs visit visit_each enter leave sort_strings insert_sorted ids has lookup
    delete
topo_sort_jobs-Planned_example = topo_sort_jobs-Planned pipeline (codes "deploy" ∷ [])

abbrev single : Graph
single = (codes "a", []) ∷ []

single-lookup :
    (x : Text) (needs : List Text) → lookup x single ≡ some needs → (needs ≡ []) × (codes "a" ≡ x)
unfolding lookup
single-lookup x needs e = ground (arith, text_eq_iff (codes "a") x)

single_apart : {x y : Text} → Reaches single x y → ⊥
unfolding has
single_apart (direct {x} {y} needs e m) = cc (rw (single-lookup x needs e).0 at m)
single_apart (onward p q) = single_apart p

single_has : has (codes "a") (codes "a" ∷ []) ≡ true
unfolding has
single_has = refl

single_present : (x : Text) → IsNeeded single (codes "a" ∷ []) x → lookup x single ≢ none
unfolding lookup has
single_present x (inl root) h = ground (arith, text_eq_iff (codes "a") x)
single_present x (inr (r, root, path)) h = absurd (single_apart path)

abbrev lower : ℕ → ℕ
lower c = if leb b'A' c && leb c b'Z' then c + 32 else c

abbrev digits : ℕ → Text
digits n = (b'0' + n) ∷ []

abbrev checkout_step : WorkflowStep
checkout_step = record {
  id = codes "";
  name = codes "source";
  condition = codes " always() ";
  uses = codes "Actions/Checkout@v4";
  run = codes "";
  working_directory = codes "";
  env = [];
  with = [];
}

abbrev job_of : Text → List Text → WorkflowJob
job_of id needs = record {
  id = id;
  name = id;
  needs = needs;
  condition = codes "";
  env = [];
  outputs = [];
  default_directory = codes "web";
  steps = checkout_step ∷ [];
}

abbrev checked_out : CompiledStep
checked_out = record {
  id = codes "checkout_1";
  name = codes "source";
  condition = codes "always()";
  kind = StepKind.checkout;
  uses = codes "Actions/Checkout@v4";
  run = codes "";
  working_directory = codes "web";
  env = [];
  with = [];
}

abbrev compiled_of : Text → List Text → CompiledJob
compiled_of id needs = record {
  id = id;
  name = id;
  needs = needs;
  condition = codes "";
  outputs = [];
  env = [];
  steps = checked_out ∷ [];
}

abbrev release : CompileRequest
release = record {
  workflow = record {
    name = codes "release";
    triggers = record { push = true; pull_request = false; workflow_dispatch = false };
    jobs =
        (codes "test", job_of (codes "test") (codes "build" ∷ []))
        ∷ (codes "build", job_of (codes "build") [])
        ∷ [];
    dispatch_input = (codes "region", record { default = codes "eu"; required = true }) ∷ [];
  };
  job_id = [];
  event = [];
  inputs = [];
}

abbrev release_plan : ExecutionPlan
release_plan = record {
  workflow_name = codes "release";
  event = codes "push";
  inputs = (codes "region", codes "eu") ∷ [];
  jobs = compiled_of (codes "build") [] ∷ compiled_of (codes "test") (codes "build" ∷ []) ∷ [];
}

compile-IsCompiled_example : IsCompiled lower digits release release_plan
unfolding compile select_event default_workflow_event default_inputs check_required needs_of
    resolve_job_order compile_jobs compile_job compile_steps compile_step step_id normalize_uses
    action_kind kind_text first_non_empty before topo_sort_jobs visit visit_each enter leave
    sort_strings insert_sorted ids has lookup delete is_blank trim_space
compile-IsCompiled_example = compile-IsCompiled lower digits release release_plan refl

compile_step-Compiled_example : Compiled lower digits checkout_step (ok checked_out)
unfolding compile_step step_id normalize_uses action_kind kind_text first_non_empty before is_blank
    trim_space
compile_step-Compiled_example =
    compile_step-Compiled lower digits (job_of (codes "build") []) checkout_step 0
