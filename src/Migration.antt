-- ===== src/Migration.antt =====
-- internal/migrationreconcile/reconcile.go: live migration of an instance between two servers.
--
-- A world is what the database holds of one migration: its row, its instance, and the virtual
-- machines, by id; a deleted machine keeps its row. `sending` tells that the source server waits for
-- `SendMigration`. What the code calls outside the repository answers in an `Answers`: the runtime,
-- the packages `net`, `netip`, `url` and `strconv`, and whether each statement of the database fails.
-- Columns that are only copied are left out, and so is a migration that has no row, which `Reconcile`
-- passes over.
pub mod Handler
pub mod Moves
pub mod States
pub mod Attached
pub mod Checks
pub mod Progress
mod Examples
use kindling.Base.{ℕ, ℤ, Bool, Option, List, Text}

pub data State : Type 0 where
  pending destination_prepared sending received completed failed aborted fallback_evacuating : State

pub data FailureCode : Type 0 where
  no_failure unsupported_runtime destination_inactive destination_internal_ip : FailureCode
  destination_prepare unsupported_volume shared_rootfs_missing source_metadata : FailureCode
  destination_runtime version_mismatch send_failed cutover_timeout : FailureCode
  destination_finalize destination_runtime_url : FailureCode

pub record Migration : Type 0 where
  pub state : State
  pub source_server : ℕ
  pub destination_server : ℕ
  pub source_vm : ℕ
  pub receive_addr : Text
  pub cutover_deadline_at : Option ℕ
  pub failure_code : FailureCode
  pub destination_runtime_url : Text

pub record Vm : Type 0 where
  pub server_id : ℕ
  pub shared_rootfs_ref : Text
  pub ip_address : Text
  pub port : ℤ
  pub deleted : Bool

pub record Instance : Type 0 where
  pub server_id : ℕ
  pub vm_id : ℕ

pub record World : Type 0 where
  pub migration : Migration
  pub instance_row : Instance
  pub vms : ℕ → Option Vm
  -- `SendMigration` is running on the source server.
  pub in_flight : Bool
  -- How often the deployment was scheduled for evacuation, the routes were notified, and the runtime
  -- was told to stop the instance.
  pub scheduled : ℕ
  pub notified : ℕ
  pub stopped : ℕ

-- The statements of the database.
pub data Statement : Type 0 where
  update_failed update_prepared update_aborted update_fallback_evacuating : Statement
  update_sending update_received update_completed : Statement
  find_instance find_deployment begin create_vm update_server attach_vm : Statement
  delete_vm commit : Statement

-- `ServerFindByID`.
pub record Server : Type 0 where
  pub status : Text
  pub internal_ip : Text

-- `ProjectVolumeFindByProjectID`: a row, `pgx.ErrNoRows`, or another error.
pub data Volume : Type 0 where
  found no_rows broken : Volume

-- The metadata of a worker, decoded from JSON and not trimmed.
pub record RawMetadata : Type 0 where
  pub runtime : Text
  pub live_migration_enabled : Bool
  pub cloud_hypervisor_version : Text
  pub shared_rootfs_dir : Text

pub record ComponentStatus : Type 0 where
  pub component : Text
  -- `json.Unmarshal` may fail.
  pub metadata : Option RawMetadata

pub record Answers : Type 0 where
  pub now : ℕ
  pub fails : Statement → Bool
  -- The handler has a runtime, and it supports live migration.
  pub supports : Bool
  pub destination : Option Server
  -- `PrepareMigrationTarget`: the receive address.
  pub prepared : Option Text
  pub volume : Volume
  -- `MigrationMetadata`: the version of the hypervisor.
  pub source_version : Option Text
  pub statuses : Option (List ComponentStatus)
  -- `FinalizeMigrationTarget`: the runtime URL and the reference of the root file system.
  pub finalized : Option (Text × Text)
  -- `uuid.New`.
  pub new_vm_id : ℕ
  pub split_host_port : Text → Option (Text × Text)
  pub join_host_port : Text → Text → Text
  pub has_scheme : Text → Bool
  -- `url.Parse`, its host.
  pub url_host : Text → Option Text
  pub parse_addr : Text → Option Text
  pub atoi : Text → Option ℤ
