-- ===== src/Preview/Cleanup.antt =====
-- internal/preview/cleanup.go: the end of preview environments that have expired.
--
-- A world is the deployments with the list of their identifiers, the environments with the time when each expires,
-- and what has been scheduled. What the calls answer is in `Calls`, by environment or deployment.
use kindling.Base.{
  ℕ, Bool, true, false, not, ◌&&◌, ◌||◌, ◌==◌, leb, List, [], ◌∷◌, ◌++◌, Option, none, some,
  if◌then◌else◌,
}

pub record Deployment : Type 0 where
  pub environment : Option ℕ
  -- Whether `deployment_kind` is `preview`.
  pub preview : Bool
  pub failed : Bool
  pub stopped : Bool
  pub deleted : Bool

pub record Environment : Type 0 where
  pub id : ℕ
  pub expires_at : Option ℕ

pub record World : Type 0 where
  pub deployments : ℕ → Option Deployment
  pub ids : List ℕ
  pub environments : List Environment
  pub scheduled : List ℕ

pub record Calls : Type 0 where
  pub connects : Bool
  -- `TrySessionAdvisoryLock` without an error.
  pub locks : Bool
  pub lists_due : Bool
  pub lists : ℕ → Bool
  pub marks : ℕ → Bool
  pub deletes : ℕ → Bool
  -- Whether there is a deployment reconciler.
  pub scheduler : Bool
  pub now : ℕ

abbrev pub has : ℕ → List ℕ → Bool
has n [] = false
has n (m ∷ ms) = n == m || has n ms

abbrev pub links : ℕ → Option ℕ → Bool
links env none = false
links env (some e) = e == env

abbrev pub is_of : ℕ → Deployment → Bool
is_of env d = links env d.environment

abbrev pub is_listed : ℕ → Option Deployment → Bool
is_listed env none = false
is_listed env (some d) = is_of env d && not d.deleted

-- `DeploymentsByPreviewEnvironmentID`, the identifiers.
abbrev pub deployments_of : ℕ → (ℕ → Option Deployment) → List ℕ → List ℕ
deployments_of env rows [] = []
deployments_of env rows (id ∷ ids) =
    let rest = deployments_of env rows ids in if is_listed env (rows id) then id ∷ rest else rest

-- `DeploymentsMarkStoppedByPreviewEnvironment`, one row.
abbrev pub is_stoppable : ℕ → Deployment → Bool
is_stoppable env d = is_of env d && d.preview && not d.deleted && not d.failed && not d.stopped

abbrev pub stop_row : ℕ → Deployment → Deployment
stop_row env d = if is_stoppable env d then record d { stopped = true } else d

abbrev pub on_rows : (Deployment → Deployment) → Option Deployment → Option Deployment
on_rows f none = none
on_rows f (some d) = some (f d)

unfoldable pub mark_stopped : ℕ → World → World
mark_stopped env w = record w { deployments = λ id. on_rows (stop_row env) (w.deployments id) }

unfoldable pub schedule_deployments : Calls → List ℕ → World → World
schedule_deployments c deps w =
    if c.scheduler then record w { scheduled = w.scheduled ++ deps } else w

-- The deployments, and whether there was no error.
unfoldable pub stop_environment_deployments : Calls → ℕ → World → (List ℕ × Bool) × World
unfolding mark_stopped schedule_deployments
stop_environment_deployments c env w =
    let deps = deployments_of env w.deployments w.ids in
    if not (c.lists env)
    then (([], false), w)
    else if not (c.marks env)
    then ((deps, false), w)
    else ((deps, true), schedule_deployments c deps (mark_stopped env w))

-- `ON DELETE SET NULL`.
abbrev pub unlink : ℕ → Deployment → Deployment
unlink env d = if is_of env d then record d { environment = none } else d

abbrev pub without : ℕ → List Environment → List Environment
without env [] = []
without env (e ∷ es) = let rest = without env es in if e.id == env then rest else e ∷ rest

-- `PreviewEnvironmentDelete`, whether there was no error.
unfoldable pub delete_environment : Calls → ℕ → World → Bool × World
delete_environment c env w =
    if c.deletes env
    then (
      true,
      record w {
        deployments = λ id. on_rows (unlink env) (w.deployments id);
        environments = without env w.environments;
      },
    )
    else (false, w)

unfoldable pub cleanup_environment_now : Calls → ℕ → World → Bool × World
unfolding stop_environment_deployments delete_environment
cleanup_environment_now c env w =
    let done = stop_environment_deployments c env w in
    if done.0.1 then delete_environment c env done.1 else (false, done.1)

-- `PreviewEnvironmentsDueForCleanup`.
abbrev pub is_due : ℕ → Environment → Bool
is_due now e = elim e.expires_at [ none ↦ false | some t ↦ leb t now ]

abbrev pub due_for_cleanup : ℕ → List Environment → List ℕ
due_for_cleanup now [] = []
due_for_cleanup now (e ∷ es) =
    let rest = due_for_cleanup now es in if is_due now e then e.id ∷ rest else rest

-- The loop of `RunCleanupOnce`, which goes on after an error.
unfoldable pub cleanup_all : Calls → List ℕ → World → World
cleanup_all c [] w = w
cleanup_all c (env ∷ envs) w = cleanup_all c envs (cleanup_environment_now c env w).1

unfoldable pub run_cleanup_once : Calls → World → World
unfolding cleanup_all
run_cleanup_once c w =
    if not c.connects || not c.locks || not c.lists_due
    then w
    else cleanup_all c (due_for_cleanup c.now w.environments) w
