-- ===== src/Ci.antt =====
-- internal/ci/compile.go: a workflow is checked and lowered into an execution plan.
--
-- Texts are lists of code points. A Go map with string keys is an association list; a read takes the
-- first entry of a key.
pub mod Topo
pub mod Compile
mod Examples
use kindling.Base.{
  codes, ◌==◌, ℕ, zero, suc, ◌+◌, ◌≡◌, Bool, true, false, ◌||◌, ◌&&◌, Option, none, some, List, [],
  ◌∷◌, ◌++◌, Text, text_eq, text_leb, if◌then◌else◌, length, is_blank,
}

-- Membership in a set of texts.
pub has : Text → List Text → Bool
has x [] = false
has x (y ∷ ys) = text_eq y x || has x ys

pub lookup {ℓ} : {A : Type ℓ} → Text → List (Text × A) → Option A
lookup k [] = none
lookup k ((j, v) ∷ m) = if text_eq j k then some v else lookup k m

-- `delete(m, k)`.
pub delete : Text → List Text → List Text
delete k [] = []
delete k (j ∷ m) = let rest = delete k m in if text_eq j k then rest else j ∷ rest

-- `sort.Strings`.
pub insert_sorted : Text → List Text → List Text
insert_sorted x [] = x ∷ []
insert_sorted x (y ∷ ys) = if text_leb x y then x ∷ y ∷ ys else y ∷ insert_sorted x ys

pub sort_strings : List Text → List Text
sort_strings [] = []
sort_strings (x ∷ xs) = insert_sorted x (sort_strings xs)

pub data Error : Type 0 where
  no_default_event : Error
  input_required : Text → Error
  selected_not_found : Text → Error
  cycle_detected : Text → Error
  job_not_found : Text → Error
  step_without_action : Error
  unsupported_action : Text → Error
  out_of_fuel : Error

pub data Result {ℓ} (T : Type ℓ) : Type ℓ where
  err : Error → Result T
  ok : T → Result T

-- The jobs of a workflow, with what each `needs`.
abbrev pub Graph : Type 0
Graph = List (Text × List Text)

-- The variables that the closure `visit` shares.
pub record Search : Type 0 where
  pub visited : List Text
  pub temp : List Text
  pub out : List Text

-- What follows `if err != nil { return err }`.
infixl 5 ◌>>=◌
abbrev pub ◌>>=◌ {ℓ κ} : {T : Type ℓ} {U : Type κ} → Result T → (T → Result U) → Result U
err e >>= next = err e
ok t >>= next = next t

pub visit_each : (Text → Search → Result Search) → List Text → Search → Result Search
visit_each visit [] s = ok s
visit_each visit (id ∷ ids) s = visit id s >>= visit_each visit ids

-- After the dependencies: `delete(temp, id)`, `visited[id] = true`, `out = append(out, id)`.
pub leave : Text → Search → Search
leave id s = record { visited = id ∷ s.visited; temp = delete id s.temp; out = s.out ++ id ∷ [] }

pub enter : Text → Search → Search
enter id s = record s { temp = id ∷ s.temp }

-- `visit`, which calls itself to a depth of `fuel` at most.
pub visit : ℕ → Graph → Text → Search → Result Search
visit zero jobs id s = err out_of_fuel
visit (suc fuel) jobs id s =
    if has id s.visited
    then ok s
    else if has id s.temp
    then err (cycle_detected id)
    else (elim (lookup id jobs) [
      | none ↦ err (job_not_found id)
      | some needs ↦
          visit_each (visit fuel jobs) (sort_strings needs) (enter id s) >>= λ t. ok (leave id t)
    ])

abbrev pub start : Search
start = record { visited = []; temp = []; out = [] }

pub ids : Graph → List Text
ids [] = []
ids ((id, needs) ∷ jobs) = id ∷ ids jobs

-- Without roots all jobs are roots.
abbrev pub roots_or_all : Graph → List Text → List Text
roots_or_all jobs [] = sort_strings (ids jobs)
roots_or_all jobs (r ∷ rs) = r ∷ rs

-- Each call of `visit` enters another job, so its depth is at most one more than their number.
pub topo_sort_jobs : Graph → List Text → Result (List Text)
topo_sort_jobs jobs roots =
    visit_each (visit (suc (length jobs)) jobs) (roots_or_all jobs roots) start >>= λ s. ok s.out

-- `resolveJobOrder`.
pub resolve_job_order : Graph → Text → Result (List Text)
unfolding topo_sort_jobs
resolve_job_order jobs selected =
    if is_blank selected
    then topo_sort_jobs jobs (sort_strings (ids jobs))
    else (elim (lookup selected jobs) [
      | none ↦ err (selected_not_found selected)
      | some needs ↦ topo_sort_jobs jobs (selected ∷ [])
    ])

-- A map from names to texts.
abbrev pub Dict : Type 0
Dict = List (Text × Text)

pub record WorkflowStep : Type 0 where
  pub id : Text
  pub name : Text
  pub condition : Text
  pub uses : Text
  pub run : Text
  pub working_directory : Text
  pub env : Dict
  pub with : Dict

pub record WorkflowJob : Type 0 where
  pub id : Text
  pub name : Text
  pub needs : List Text
  pub condition : Text
  pub env : Dict
  pub outputs : Dict
  -- `Defaults.Run.WorkingDirectory`.
  pub default_directory : Text
  pub steps : List WorkflowStep

pub data StepKind : Type 0 where
  run checkout setup_go setup_node upload_artifact download_artifact cache paths_filter ssh_agent :
      StepKind

pub record CompiledStep : Type 0 where
  pub id : Text
  pub name : Text
  pub condition : Text
  pub kind : StepKind
  pub uses : Text
  pub run : Text
  pub working_directory : Text
  pub env : Dict
  pub with : Dict

pub record CompiledJob : Type 0 where
  pub id : Text
  pub name : Text
  pub needs : List Text
  pub condition : Text
  pub outputs : Dict
  pub env : Dict
  pub steps : List CompiledStep

pub record DispatchInput : Type 0 where
  pub default : Text
  pub required : Bool

pub record Triggers : Type 0 where
  pub push : Bool
  pub pull_request : Bool
  pub workflow_dispatch : Bool

pub record Workflow : Type 0 where
  pub name : Text
  pub triggers : Triggers
  pub jobs : List (Text × WorkflowJob)
  pub dispatch_input : List (Text × DispatchInput)

pub record CompileRequest : Type 0 where
  pub workflow : Workflow
  pub job_id : Text
  pub event : Text
  pub inputs : Dict

pub record ExecutionPlan : Type 0 where
  pub workflow_name : Text
  pub event : Text
  pub inputs : Dict
  pub jobs : List CompiledJob

-- `string(cs.Kind)`.
pub kind_text : StepKind → Text
kind_text run = codes "run"
kind_text checkout = codes "checkout"
kind_text setup_go = codes "setup_go"
kind_text setup_node = codes "setup_node"
kind_text upload_artifact = codes "upload_artifact"
kind_text download_artifact = codes "download_artifact"
kind_text cache = codes "cache"
kind_text paths_filter = codes "paths_filter"
kind_text ssh_agent = codes "ssh_agent"

-- The text up to the first occurrence of a character.
pub before : ℕ → Text → Text
before c [] = []
before c (d ∷ s) = if d == c then [] else d ∷ before c s

pub first_non_empty : List Text → Text
first_non_empty [] = []
first_non_empty (v ∷ vs) = if is_blank v then first_non_empty vs else v

pub default_workflow_event : Triggers → Text
default_workflow_event t =
    if t.workflow_dispatch
    then codes "workflow_dispatch"
    else if t.push
    then codes "push"
    else if t.pull_request
    then codes "pull_request"
    else []

-- The switch on the normalised action.
pub action_kind : Text → Option StepKind
action_kind base =
    if text_eq base (codes "actions/checkout")
    then some checkout
    else if text_eq base (codes "actions/setup-go")
    then some setup_go
    else if text_eq base (codes "actions/setup-node")
    then some setup_node
    else if text_eq base (codes "actions/upload-artifact")
    then some upload_artifact
    else if text_eq base (codes "actions/download-artifact")
    then some download_artifact
    else if text_eq base (codes "actions/cache")
    then some cache
    else if text_eq base (codes "dorny/paths-filter")
    then some paths_filter
    else if text_eq base (codes "webfactory/ssh-agent")
    then some ssh_agent
    else none
