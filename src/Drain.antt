-- ===== src/Drain.antt =====
-- internal/deploy/deploy_instance.go, `drainOldDeployments`, and internal/serverreconcile/reconcile.go:
-- deployments are stopped when another takes over, and servers are emptied.
--
-- The table of deployments is a function of the id. The query of the older deployments ranges over
-- `ids`, the ids of the table.
pub mod Older
pub mod Servers
mod Examples
use kindling.Base.{
  ℕ, ◌+◌, ◌==◌, Bool, true, false, not, ◌&&◌, ◌||◌, Option, none, some, List, [], ◌∷◌,
  if◌then◌else◌, put,
}
use kindling.Scheduler.{Scheduler, schedule_now}

pub record Deployment : Type 0 where
  pub project_id : ℕ
  pub service_id : Option ℕ
  pub is_production : Bool
  pub created_at : ℕ
  -- Whether `running_at`, `stopped_at`, `failed_at` and `deleted_at` are set.
  pub running : Bool
  pub stopped : Bool
  pub failed : Bool
  pub deleted : Bool

abbrev pub Table : Type 0
Table = ℕ → Option Deployment

-- The conditions of `DeploymentFindRunningAndOlder`.
pub is_running_other : ℕ → ℕ → ℕ → Deployment → Bool
is_running_other project current id o =
    (o.project_id == project)
    && o.is_production
    && o.running
    && not o.stopped
    && not o.failed
    && not o.deleted
    && not (id == current)

pub matches : ℕ → ℕ → ℕ → Option Deployment → Bool
matches project current id none = false
matches project current id (some o) = is_running_other project current id o

pub find_running_and_older : Table → ℕ → ℕ → List ℕ → List ℕ
find_running_and_older t project current [] = []
find_running_and_older t project current (id ∷ ids) =
    let rest = find_running_and_older t project current ids in
    if matches project current id (t id) then id ∷ rest else rest

pub set_stopped : Option Deployment → Option Deployment
set_stopped none = none
set_stopped (some o) = some (record o { stopped = true })

-- `DeploymentMarkStopped`.
abbrev pub mark_stopped : ℕ → Table → Table
mark_stopped id t = put id (set_stopped (t id)) t

pub stop_all : List ℕ → Table → Table
stop_all [] t = t
stop_all (id ∷ ids) t = stop_all ids (mark_stopped id t)

-- `drainOldDeployments`, its effect on the deployments, when the statements of the database succeed.
pub drain_old_deployments : ℕ → ℕ → List ℕ → Table → Table
drain_old_deployments project current ids t =
    stop_all (find_running_and_older t project current ids) t

pub data ServerStatus : Type 0 where
  active draining drained dead : ServerStatus

pub record ServerWorld : Type 0 where
  pub status : ServerStatus
  pub scheduler : Scheduler
  pub notified : ℕ

-- What the database answers; `none` is an error. The ids of deployments that are not valid are left
-- out of the list.
pub record ServerAnswers : Type 0 where
  pub found : Bool
  pub deployments : Option (List ℕ)
  pub instances : Option ℕ
  pub migrations : Option ℕ
  pub drained_written : Bool

pub schedule_all : ℕ → List ℕ → Scheduler → Scheduler
schedule_all now [] s = s
schedule_all now (id ∷ ids) s = schedule_all now ids (schedule_now now id s)

-- The handler has a `notifyRoute`.
abbrev pub notify : ServerWorld → ServerWorld × Bool
notify w = (record w { notified = w.notified + 1 }, true)

-- The counts, and the end of the draining.
pub finish_draining : ServerAnswers → ServerWorld → ServerWorld × Bool
finish_draining a w = elim a.instances [
  | none ↦ (w, false)
  | some n ↦ elim a.migrations [
    | none ↦ (w, false)
    | some m ↦
        if n == 0 && m == 0
        then (if a.drained_written then notify (record w { status = drained }) else (w, false))
        else notify w
  ]
]

pub drain_server : ℕ → ServerAnswers → ServerWorld → ServerWorld × Bool
drain_server now a w = elim a.deployments [
  | none ↦ (w, false)
  | some ids ↦ finish_draining a (record w { scheduler = schedule_all now ids w.scheduler })
]

-- `Reconcile`, with the status that it has read; `true` is the nil error.
pub reconcile_status : ℕ → ServerAnswers → ServerStatus → ServerWorld → ServerWorld × Bool
reconcile_status now a draining w = drain_server now a w
reconcile_status now a _ w = notify w

pub reconcile_server : ℕ → ServerAnswers → ServerWorld → ServerWorld × Bool
reconcile_server now a w = if a.found then reconcile_status now a w.status w else (w, false)
