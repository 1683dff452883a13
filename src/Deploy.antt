-- ===== src/Deploy.antt =====
-- internal/deploy: the reconciliation of one deployment.
--
-- A world is one deployment with its instances, their virtual machines, the volume of its project, and
-- the instances that the runtime of this server runs. A call of the database or of the runtime may fail
-- at each `Site`; what is not in the world answers in an `Env`. Times are numbers of nanoseconds. The texts of
-- errors, and the columns that no function here reads, are left out.
pub mod Store
pub mod Assignment
pub mod Resume
pub mod Start
pub mod Instance
pub mod Rules
pub mod Placement
pub mod Reconcile
pub mod Owned
pub mod Launching
pub mod Launched
pub mod Placed
pub mod Resumed
pub mod Passes
pub mod Started
pub mod Settled
pub mod Unhealthy
pub mod Foreign
pub mod Budget
pub mod Deleted
pub mod Terminal
pub mod Unavailable
pub mod Halted
pub mod Volumed
pub mod Breaker
mod Examples
use kindling.Base.{ℕ, Bool, Option, List}
use kindling.Fleet.{Role}
use kindling.Volumes.{Volume}

pub data InstanceStatus : Type 0 where
  pending starting running failed stopped : InstanceStatus

pub data VmStatus : Type 0 where
  pending starting running stopped failed suspending suspended warming template : VmStatus

pub data DeploymentKind : Type 0 where
  production preview : DeploymentKind

pub data ServerStatus : Type 0 where
  active draining drained dead : ServerStatus

pub record InstanceRow : Type 0 where
  pub server_id : Option ℕ
  pub vm_id : Option ℕ
  pub role : Role
  pub created_at : ℕ
  pub status : InstanceStatus
  pub restart_count : ℕ
  pub last_restart_at : Option ℕ
  pub deleted : Bool

pub record VmRow : Type 0 where
  pub server_id : ℕ
  pub image_id : ℕ
  pub status : VmStatus
  pub deleted : Bool

pub record DeploymentRow : Type 0 where
  pub kind : DeploymentKind
  pub service_id : Option ℕ
  pub build_id : Option ℕ
  pub image_id : Option ℕ
  pub vm_id : Option ℕ
  -- Whether `wake_requested_at`, `running_at`, `stopped_at`, `failed_at` and `deleted_at` are set.
  pub wake_requested : Bool
  pub running : Bool
  pub stopped : Bool
  pub failed : Bool
  pub deleted : Bool
  pub circuit_broken : Bool

pub record World : Type 0 where
  pub deployment : DeploymentRow
  -- The instances of the deployment, oldest first.
  pub ids : List ℕ
  pub instances : ℕ → Option InstanceRow
  pub vms : ℕ → Option VmRow
  -- The volume of the project, and the service that it is of.
  pub volume : Option Volume
  pub volume_service_id : Option ℕ
  -- The instances that run on this server.
  pub alive : ℕ → Bool
  -- The delays that `scheduleRetry` was called with, the latest first.
  pub retries : List ℕ

-- The calls that may fail, in the order of the code.
pub data Site : Type 0 where
  load_volume reset_pinned refetch_pinned find_draining_vm reset_drained refetch_drained : Site
  stop_deleted detach_deleted delete_vm delete_instance : Site
  find_suspended_vm promote_pooled mark_resuming detach_lost delete_lost_vm prepare_lost : Site
  update_address mark_vm_resumed mark_resumed : Site
  find_running_vm break_circuit : Site
  stop_stale detach_stale delete_stale_vm prepare_stale refetch_stale : Site
  reload_volume assign_server : Site
  mark_stopped mark_starting fetch_instance create_vm attach_vm delete_unattached_vm : Site
  mark_vm_running mark_running attach_volume stop_failed delete_failed_vm mark_failed : Site
  find_deployment find_project find_service find_volume set_unavailable fail_preview : Site
  list_instances find_deployment_vm delete_deployment_vm create_build set_build find_build : Site
  fail_build find_unavailable write_unavailable set_available assign_volume_server : Site
  reread_build set_image find_image find_variables : Site
  clear_wake promote reset_circuit set_routes : Site

pub record BuildRow : Type 0 where
  pub failed : Bool
  pub image_id : Option ℕ

-- How `Resume` or `StartClone` ends; `missing` is the error `ErrInstanceNotRunning`.
pub data Launch : Type 0 where
  launched missing broken : Launch

pub record Env : Type 0 where
  -- The server of the deployer.
  pub self : ℕ
  pub now : ℕ
  pub fails : Site → Bool
  -- `ServerFindByID` and `ServerFindLeastLoaded`; `none` is an error.
  pub server : ℕ → Option ServerStatus
  pub least_loaded : Option ℕ
  -- The id that `uuid.New` draws.
  pub fresh : ℕ
  -- `Name` is not `apple-vz`, and it is `cloud-hypervisor`.
  pub external : Bool
  pub hypervisor : Bool
  pub supports_clone : Bool
  pub resume : Launch
  pub clone : Launch
  pub start : Bool
  -- `parseRuntimeAddress` of what the runtime has answered succeeds.
  pub parses : Bool
  -- `waitHealthCheckLocalForwarded`, `healthCheckVMFromHost` and `Healthy`.
  pub becomes_healthy : Bool
  pub host_check : Bool
  pub healthy : Bool
  -- The row of a build, and the id of a new one.
  pub build : ℕ → Option BuildRow
  pub fresh_build : ℕ
  -- `serverSupportsCloudHypervisor` and `findLeastLoadedCloudHypervisorServer`.
  pub supports_hypervisor : ℕ → Bool
  pub volume_server : Option ℕ
  -- `stopOldDeploymentsForVolume`: whether there were any, or an error.
  pub stops_old : Option Bool
