-- ===== src/Deploy/Examples.antt =====
-- internal/deploy: a deployment with one instance, reconciled by the server 7.
use kindling.Base.{List, ◌&&◌, ℕ, ◌≡◌, ◌≢◌, refl, true, false, none, some, [], ◌∷◌, arith, put}
use kindling.Fleet.{active}
use kindling.Volumes.{Volume, attached, healthy, available}
use kindling.Scaling.{is_some}
use kindling.Deploy.{
  DeploymentRow, DeploymentKind, InstanceRow, InstanceStatus, VmRow, VmStatus, World, Env, launched,
  broken, ServerStatus,
}
use kindling.Deploy.Store.{volume_of, is_transitional}
use kindling.Deploy.Instance.{Pass, reconcile_one_instance, restart_budget_exceeded}
use kindling.Deploy.Assignment.{is_active_instance}
use kindling.Deploy.Start.{start_new_instance}
use kindling.Deploy.Placement.{ensure_project_volume_server}
use kindling.Deploy.Reconcile.{
  Part, is_preview, prepare_deployment, run_parts, prepared, instance_pass, finished,
}
use kindling.Deploy.Rules.{Ends}
use kindling.Deploy.Placed.{Owned}
use kindling.Deploy.Launched.{start_new_instance-Fallen}
use kindling.Deploy.Launching.{Here, Fallen}
use kindling.Deploy.Passes.{reconcile_one_instance-Owned}
use kindling.Deploy.Started.{Works, started_world, running_row}
use kindling.Deploy.Settled.{Checks, start_new_instance-settled}
use kindling.Deploy.Foreign.{reconcile_one_instance-taken, taken_row, retired}
use kindling.Deploy.Budget.{restart_budget_lem, broken as opened}
use kindling.Deploy.Terminal.{Ended, Reads, prepare_deployment-Ended}
use kindling.Deploy.Deleted.{Deletes}
use kindling.Deploy.Unavailable.{Answered, ensure_project_volume_server-Answered}
use kindling.Deploy.Halted.{Halted}
use kindling.Deploy.Breaker.{run_parts-Halted}

abbrev env : Env
env = record {
  self = 7;
  now = 1000;
  fails = λ s. false;
  server = λ s. some ServerStatus.active;
  least_loaded = some 7;
  fresh = 50;
  external = true;
  hypervisor = false;
  supports_clone = true;
  resume = launched;
  clone = launched;
  start = true;
  parses = true;
  becomes_healthy = true;
  host_check = true;
  healthy = true;
  build = λ b. none;
  fresh_build = 90;
  supports_hypervisor = λ s. true;
  volume_server = some 7;
  stops_old = some false;
}

abbrev dep : DeploymentRow
dep = record {
  kind = DeploymentKind.production;
  service_id = none;
  build_id = some 80;
  image_id = some 81;
  vm_id = none;
  wake_requested = false;
  running = false;
  stopped = false;
  failed = false;
  deleted = false;
  circuit_broken = false;
}

-- The instance 1, which has no machine yet.
abbrev row : InstanceRow
row = record {
  server_id = some 7;
  vm_id = none;
  role = active;
  created_at = 10;
  status = InstanceStatus.pending;
  restart_count = 0;
  last_restart_at = none;
  deleted = false;
}

abbrev volume : Volume
volume = record {
  server_id = some 7;
  attached_vm_id = none;
  status = available;
  health = healthy;
  backup_retention_count = 7;
  deleted = false;
}

abbrev world : World
world = record {
  deployment = dep;
  ids = 1 ∷ [];
  instances = put 1 (some row) (λ id. none);
  vms = λ vm. none;
  volume = some volume;
  volume_service_id = none;
  alive = λ id. false;
  retries = [];
}

abbrev pass : Pass
pass = record { dep = dep; template_ref = []; persistent = true }

abbrev single : Pass
single = record pass { persistent = false }

clone_launched : launched ≢ broken
clone_launched h = cc

env-Works : Works env
env-Works = record {
  statements = λ s. refl;
  starts = refl;
  clones = clone_launched;
  parses = refl;
  becomes_healthy = refl;
}

env-Checks : Checks env
env-Checks = record { statements = λ s. refl; stays = refl; healthy = refl; host_check = refl }

reconcile_one_instance-Owned_example : Owned env 1 (reconcile_one_instance env pass 1 row world).1
reconcile_one_instance-Owned_example = reconcile_one_instance-Owned env pass 1 row world refl refl

start_new_instance-Fallen_example :
    Ends (λ _ w. Here env 1 w) (Fallen env 1) (start_new_instance env dep 1 row [] true world)
start_new_instance-Fallen_example =
    start_new_instance-Fallen env dep 1 row [] true world (refl, refl)

own_volume : true ≡ true → volume_of dep world ≡ some volume
unfolding volume_of
own_volume h = refl

row_active : is_active_instance row ≡ true
unfolding is_active_instance
row_active = refl

start_new_instance-settled_example :
    let w' = started_world env 1 81 row true volume world in
    (start_new_instance env dep 1 row [] true world ≡ (some tt, w'))
    × (reconcile_one_instance env pass 1 (running_row env row) w' ≡ (some tt, w'))
start_new_instance-settled_example =
    start_new_instance-settled env env env-Works env-Checks pass 1 81 row volume world refl refl
      row_active refl refl refl refl own_volume

-- The server 8 is starting the instance, on the machine 40.
abbrev foreign : InstanceRow
foreign = record row { server_id = some 8; vm_id = some 40; status = InstanceStatus.starting }

abbrev machine : VmRow
machine = record { server_id = 8; image_id = 81; status = VmStatus.starting; deleted = false }

abbrev elsewhere : World
elsewhere = record world {
  instances = put 1 (some foreign) (λ id. none);
  vms = put 40 (some machine) (λ vm. none);
}

first_start : restart_budget_exceeded foreign false 1000 ≡ false
unfolding restart_budget_exceeded
first_start = refl

reconcile_one_instance-taken_example :
    let w' = (reconcile_one_instance env single 1 foreign elsewhere).1 in
    (w'.alive 1 ≡ true)
    × (w'.instances 1 ≡ some (running_row env (taken_row env foreign)))
    × (w'.vms 40 ≡ some (retired machine))
reconcile_one_instance-taken_example =
    reconcile_one_instance-taken env env-Works single 1 40 8 81 foreign machine elsewhere refl refl
      refl refl refl refl refl refl refl refl refl refl first_start refl refl

-- Its fourth failure.
abbrev worn : InstanceRow
worn = record foreign {
  status = InstanceStatus.failed;
  restart_count = 3;
  last_restart_at = some 900;
}

abbrev failing : World
failing = record elsewhere { instances = put 1 (some worn) (λ id. none) }

restart_budget_lem_example :
    (reconcile_one_instance env single 1 worn failing ≡ (some tt, opened failing))
    × (reconcile_one_instance env
          (record single { dep = (opened failing).deployment })
          1
          worn
          (opened failing)
        ≡ (some tt, opened failing))
restart_budget_lem_example =
    restart_budget_lem env single 1 40 8 900 worn machine failing env single 1 worn (λ s. refl) refl
      refl refl refl refl refl refl refl refl refl (omega arith) (omega arith) refl

-- The deployment is stopped, its project has no volume, and its instance runs on this server.
abbrev here : InstanceRow
here = record foreign { server_id = some env.self; status = InstanceStatus.running }

abbrev stopped : World
stopped = record elsewhere {
  deployment = record dep { stopped = true };
  instances = put 1 (some here) (λ id. none);
  alive = λ id. true;
  volume = none;
}

env-Deletes : (id : ℕ) → Deletes env
env-Deletes id = (refl, refl)

env-Reads : Reads env
env-Reads = record { deployment = refl; project = refl; service = refl; volume = refl; list = refl }

no_volume :
    (v : Volume) → volume_of stopped.deployment stopped ≡ some v → is_transitional v.status ≡ false
unfolding volume_of
no_volume v h = cc

prepare_deployment-Ended_example :
    Ended
      (is_some (volume_of stopped.deployment stopped) && is_preview DeploymentKind.production)
      1
      stopped
      (prepare_deployment env (λ id. env) stopped).1
prepare_deployment-Ended_example =
    prepare_deployment-Ended env (λ id. env) env-Deletes stopped 1 here env-Reads no_volume refl
      (omega arith) refl

-- The volume is on the server 7, where a machine has it, and the server drains.
abbrev draining : Env
draining = record env { server = λ s. some ServerStatus.draining }

abbrev used : Volume
used = record volume { attached_vm_id = some 40; status = attached }

abbrev using : World
using = record elsewhere { volume = some used }

ensure_project_volume_server-Answered_example :
    Answered draining used using (ensure_project_volume_server draining used using)
ensure_project_volume_server-Answered_example =
    ensure_project_volume_server-Answered draining used using refl

abbrev halted : World
halted = record failing { deployment = record dep { running = true; circuit_broken = true } }

abbrev parts : List Part
parts =
    prepared env (λ id. env)
    ∷ instance_pass env (record single { dep = halted.deployment }) 1 worn
    ∷ finished env halted.deployment 1 1
    ∷ []

run_parts-Halted_example : Halted 1 (run_parts parts halted)
run_parts-Halted_example =
    run_parts-Halted 1 parts halted (tt, (refl, (refl, tt))) (refl, refl, refl)
