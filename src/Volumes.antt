-- ===== src/Volumes.antt =====
-- internal/volumeops/handler.go and internal/rpc/project_volume_ops.go: operations on the persistent
-- volume of a project.
--
-- A world is one volume with its latest operation, its backups (newest first, as the database lists
-- them), the objects of the backup store, and the servers that have the file of the volume. Messages,
-- sizes and URLs are left out. What the code calls outside the repository answers in an `Answers`, and
-- `Uuids` is the package `uuid`, with the ids of the volume and of the operation.
pub mod Handler
pub mod Backups
pub mod Runs
pub mod Requests
pub mod Pinned
pub mod Placed
pub mod Calls
pub mod Retention
pub mod Moving
pub mod Moved
pub mod Attached
pub mod Accepted
pub mod Events
mod Examples
use kindling.Base.{codes, ◌++◌, ℕ, ℤ, Bool, Option, List, Text}

pub data VolumeStatus : Type 0 where
  detached available attached unavailable backing_up restoring repairing deleting : VolumeStatus

pub data Health : Type 0 where
  unknown healthy degraded missing corrupt : Health

pub data Status : Type 0 where
  pending running succeeded failed : Status

pub data Kind : Type 0 where
  backup restore move repair : Kind

-- `operationRequest`.
pub record Request : Type 0 where
  pub backup_id : Text
  pub target_server_id : Text
  pub source_server_id : Text
  pub stage : Text
  pub storage_key : Text
  pub delete_after : Bool

pub record Operation : Type 0 where
  pub server_id : Option ℕ
  pub kind : Kind
  pub status : Status
  -- `none` where `decodeOperationRequest` fails.
  pub request : Option Request
  pub started_at : Option ℕ

pub record Volume : Type 0 where
  pub server_id : Option ℕ
  pub attached_vm_id : Option ℕ
  pub status : VolumeStatus
  pub health : Health
  pub backup_retention_count : ℕ
  pub deleted : Bool

pub record Backup : Type 0 where
  pub id : ℕ
  pub status : Status
  pub storage_key : Text

pub record World : Type 0 where
  pub op : Operation
  pub vol : Volume
  pub backups : List Backup
  pub has_object : Text → Bool
  pub has_file : ℕ → Bool

-- The statements of the database that may fail.
pub data Statement : Type 0 where
  update_running update_operation update_volume find_backup update_backup_running : Statement
  update_backup_succeeded update_backup_failed list_backups delete_backup : Statement
  assign_server soft_delete create_operation find_current create_backup : Statement

-- A row of `ServerComponentStatusFindByServerID`; the metadata may be no JSON.
pub record ComponentRow : Type 0 where
  pub component : Text
  pub status : Text
  pub runtime : Option Text

pub record Answers : Type 0 where
  pub now : ℕ
  pub fails : Statement → Bool
  -- `ServerFindByID` of the operation's server: its status.
  pub server_status : Option Text
  pub components : Option (List ComponentRow)
  -- `backupStore` gives a store.
  pub store_ready : Bool
  pub uploads : Bool
  pub downloads : Bool
  pub deletes_object : Text → Bool
  -- `os.Stat` fails for a reason other than a missing file.
  pub stat_fails : Bool
  pub info_succeeds : Bool
  pub check_succeeds : Bool
  pub removes : Bool

pub record Uuids : Type 0 where
  -- `uuid.Parse`, and `String`.
  pub parse : Text → Option ℕ
  pub text : ℕ → Text
  -- The ids of the volume and of the operation.
  pub volume_id : ℕ
  pub operation_id : ℕ

-- `path.Join` puts slashes between these parts, of which none is empty or has one inside.
abbrev pub backup_object_key : Uuids → ℕ → Text
backup_object_key u id =
    codes "project-volumes/"
    ++ u.text u.volume_id
    ++ codes "/backups/"
    ++ u.text id
    ++ codes ".qcow2"

abbrev pub move_object_key : Uuids → Text
move_object_key u = codes "project-volumes/moves/" ++ u.text u.operation_id ++ codes ".qcow2"
