-- ===== src/Deploy/Start.antt =====
-- internal/deploy/deploy_instance.go, `startNewInstance` and `launchInstance`, and
-- `persistInstanceVMMetadata` of internal/deploy/runtime_address.go.
use kindling.Base.{ℕ, Bool, false, not, ◌&&◌, Option, none, some, Text, put, if◌then◌else◌}
use kindling.Fleet.{LaunchMode, clone, cold, resume, select_launch_mode}
use kindling.Fleet as Fleet
use kindling.Deploy.{
  DeploymentRow, InstanceRow, InstanceStatus, VmStatus, VmRow, Site, Env, Launch, launched, missing,
  broken,
}
use kindling.Deploy.Store.{
  Action, pure, fail, ◌>>=◌, ◌>>◌, attempt, ignore, when, find_instance, update_instance,
  update_status, soft_delete_vm, update_vm_status, stop, started, attach_volume,
}
use kindling.Deploy.Assignment.{is_warm_pool_instance, is_stopped, is_running}
use kindling.Deploy.Resume.{wait_healthy}
use kindling.Scaling.{is_some}

-- The columns that the functions of lifecycle.go and deploy_scaling.go read.
abbrev pub view : ℕ → InstanceRow → Fleet.Instance
view id inst = record {
  id = id;
  role = inst.role;
  created_at = inst.created_at;
  has_vm = is_some inst.vm_id;
  server_id = inst.server_id;
  running = is_running inst.status;
}

-- The instance is marked as failed, and the call ends with an error.
unfoldable pub launch_failed : Env → ℕ → Action (Unit {0})
launch_failed e id = do ignore (update_status e Site.mark_failed id InstanceStatus.failed); fail

abbrev pub launch_ok : ℕ → Action (Unit {0})
launch_ok id w = (some tt, started id w)

-- `rt.Start`.
unfoldable pub start_cold : Env → ℕ → Action (Unit {0})
start_cold e id = if e.start then launch_ok id else launch_failed e id

-- `rt.StartClone`; where the state to clone is missing, a cold start.
unfoldable pub start_clone : Env → ℕ → Launch → Action (Unit {0})
start_clone e id launched = launch_ok id
start_clone e id missing = start_cold e id
start_clone e id broken = launch_failed e id

unfoldable pub launch_instance : Env → ℕ → LaunchMode → Action (Unit {0})
launch_instance e id mode = elim mode [
  | clone ↦ if e.supports_clone then start_clone e id e.clone else start_cold e id
  | cold ↦ start_cold e id
  | resume ↦ start_cold e id
]

abbrev pub new_vm : ℕ → ℕ → VmRow
new_vm server image = record {
  server_id = server;
  image_id = image;
  status = VmStatus.starting;
  deleted = false;
}

-- `VMCreate`.
unfoldable pub create_vm : Env → ℕ → ℕ → Action (Unit {0})
create_vm e server image w =
    if e.fails Site.create_vm
    then (none, w)
    else (some tt, record w { vms = put e.fresh (some (new_vm server image)) w.vms })

unfoldable pub new_vm_id : Env → Option InstanceRow → Action ℕ
new_vm_id e none = do ignore (soft_delete_vm e Site.delete_unattached_vm e.fresh); fail
new_vm_id e (some inst) = pure e.fresh

-- `DeploymentInstanceAttachVM`; where it fails, the new row is deleted again.
unfoldable pub attach_new_vm : Env → ℕ → Action ℕ
attach_new_vm e id = do
  attached ← attempt (
      update_instance e Site.attach_vm id
        (λ r. record r { vm_id = some e.fresh; status = InstanceStatus.starting }))
  new_vm_id e attached

unfoldable pub persist_new : Env → ℕ → Option ℕ → ℕ → Action ℕ
persist_new e id none server = fail
persist_new e id (some image) server =
    if not e.parses then fail else (do create_vm e server image; attach_new_vm e id)

unfoldable pub persist_row : Env → ℕ → Option ℕ → ℕ → Option ℕ → Action ℕ
persist_row e id image server none = persist_new e id image server
persist_row e id image server (some vm) = pure vm

-- The id of the machine.
unfoldable pub persist_instance_vm_metadata : Env → ℕ → Option ℕ → ℕ → Action ℕ
persist_instance_vm_metadata e id image server = do
  inst ← find_instance e Site.fetch_instance id
  persist_row e id image server inst.vm_id

unfoldable pub delete_failed : Env → Option ℕ → Action (Unit {0})
delete_failed e none = pure tt
delete_failed e (some vm) = ignore (soft_delete_vm e Site.delete_failed_vm vm)

-- What each error after the launch does.
unfoldable pub give_up : Env → ℕ → Option ℕ → Action (Unit {0})
give_up e id vm = do
  ignore (stop e Site.stop_failed id)
  delete_failed e vm
  ignore (update_status e Site.mark_failed id InstanceStatus.failed)
  fail

unfoldable pub give_up_unless : Env → ℕ → Option ℕ → Option (Unit {0}) → Action (Unit {0})
give_up_unless e id vm none = give_up e id vm
give_up_unless e id vm (some _) = pure tt

-- A step whose error gives the start up.
unfoldable pub or_give_up : Env → ℕ → Option ℕ → Action (Unit {0}) → Action (Unit {0})
or_give_up e id vm m = do done ← attempt m; give_up_unless e id vm done

unfoldable pub set_running : Env → ℕ → Action (Unit {0})
set_running e id = do _ ← update_status e Site.mark_running id InstanceStatus.running; pure tt

-- The launched machine gets its rows.
unfoldable pub record_started : Env → ℕ → Option ℕ → ℕ → Bool → Action (Unit {0})
record_started e id server vm persistent = do
  or_give_up e id (some vm) (wait_healthy e)
  or_give_up e id (some vm) (update_vm_status e Site.mark_vm_running vm VmStatus.running)
  or_give_up e id (some vm) (set_running e id)
  when persistent (or_give_up e id (some vm) (attach_volume e server vm))

unfoldable pub record_launched : Env → ℕ → Bool → Option ℕ → Action (Unit {0})
record_launched e id persistent none = give_up e id none
record_launched e id persistent (some vm) = record_started e id (some e.self) vm persistent

-- The instance is on this server.
unfoldable pub start_mode : Env → DeploymentRow → ℕ → LaunchMode → Bool → Action (Unit {0})
start_mode e dep id mode persistent = do
  _ ← update_status e Site.mark_starting id InstanceStatus.starting
  launch_instance e id mode
  vm ← attempt (persist_instance_vm_metadata e id dep.image_id e.self)
  record_launched e id persistent vm

-- An instance of the warm pool that is not to be launched.
unfoldable pub normalize : Env → ℕ → InstanceRow → Action (Unit {0})
normalize e id inst =
    if is_warm_pool_instance inst && not (is_stopped inst.status)
    then (do _ ← update_status e Site.mark_stopped id InstanceStatus.stopped; pure tt)
    else pure tt

unfoldable pub start_new_instance :
    Env → DeploymentRow → ℕ → InstanceRow → Text → Bool → Action (Unit {0})
start_new_instance e dep id inst template_ref persistent =
    elim (select_launch_mode (view id inst) false template_ref) [
      | some mode ↦ start_mode e dep id mode persistent
      | none ↦ normalize e id inst
    ]
