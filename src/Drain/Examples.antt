-- ===== src/Drain/Examples.antt =====
-- internal/deploy/deploy_instance.go and internal/serverreconcile/reconcile.go: a project with two
-- services, and a server with one deployment.
use kindling.Base.{
  ℕ, ◌≢◌, ◌<◌, true, false, none, some, [], ◌∷◌, ==_iff, arith, count, pos, ◌==◌, if◌then◌else◌,
}
use kindling.Scheduler.{new}
use kindling.Drain.{Deployment, Table, drain_old_deployments, draining, ServerWorld, ServerAnswers}
use kindling.Drain.Older.{Drained, drain_old_deployments_lem}

abbrev deployed : ℕ → ℕ → Deployment
deployed service at = record {
  project_id = 1;
  service_id = some service;
  is_production = true;
  created_at = at;
  running = true;
  stopped = false;
  failed = false;
  deleted = false;
}

-- Deployment 10 of the service 5, and the newer deployment 11 of the service 6.
abbrev table : Table
table id =
    if id == 10 then some (deployed 5 100) else if id == 11 then some (deployed 6 200) else none

table_listed : (j : ℕ) → table j ≢ none → 0 < count j (10 ∷ 11 ∷ [])
table_listed j h = ground (arith, ==_iff j 10, ==_iff j 11)

-- The service 5 takes over, and the newer deployment of the service 6 is stopped.
drain_old_deployments_lem_example :
    Drained 1 10 11 (table 11) (drain_old_deployments 1 10 (10 ∷ 11 ∷ []) table 11)
drain_old_deployments_lem_example =
    drain_old_deployments_lem 1 10 (10 ∷ 11 ∷ []) table table_listed 11

abbrev server : ServerWorld
server = record {
  status = draining;
  scheduler = new (record { workers = pos 2; retry_after = pos 0; default_after = pos 0 });
  notified = 0;
}

abbrev emptied : ServerAnswers
emptied = record {
  found = true;
  deployments = some (7 ∷ []);
  instances = some 0;
  migrations = some 0;
  drained_written = true;
}
