-- ===== src/Deploy/Store.antt =====
-- internal/deploy: actions on a world, and the statements of internal/database/queries.sql that the
-- reconciliation of an instance runs.
--
-- An action ends with a value or with an error, and what it has written stays written.
use kindling.Base.{ℕ, ◌+◌, ◌==◌, Bool, true, false, not, Option, none, some, put, if◌then◌else◌}
use kindling.Fleet.{active}
use kindling.Volumes.{
  Volume, VolumeStatus, healthy, attached, backing_up, restoring, repairing, deleting,
}
use kindling.Deploy.{InstanceRow, InstanceStatus, VmRow, VmStatus, DeploymentRow, World, Site, Env}

abbrev pub Action : Type 0 → Type 0
Action A = World → Option A × World

abbrev pub pure : {A : Type 0} → A → Action A
pure a w = (some a, w)

abbrev pub fail : {A : Type 0} → Action A
fail w = (none, w)

infixl 5 ◌>>=◌ ◌>>◌
abbrev pub ◌>>=◌ : {A B : Type 0} → Action A → (A → Action B) → Action B
◌>>=◌ m f w = let (r, w') = m w in elim r [ none ↦ (none, w') | some a ↦ f a w' ]

abbrev pub ◌>>◌ : {A B : Type 0} → Action A → Action B → Action B
m >> k = m >>= λ _. k

-- The error is handed to the caller as a value.
abbrev pub attempt : {A : Type 0} → Action A → Action (Option A)
attempt m w = let (r, w') = m w in (some r, w')

-- The result and the error are dropped.
abbrev pub ignore : {A : Type 0} → Action A → Action (Unit {0})
ignore m w = (some tt, (m w).1)

abbrev pub when : Bool → Action (Unit {0}) → Action (Unit {0})
when b m = if b then m else pure tt

abbrev pub gets : {A : Type 0} → (World → Option A) → Action A
gets f w = (f w, w)

-- `WHERE id = $1 AND deleted_at IS NULL`.
abbrev pub live : Option InstanceRow → Option InstanceRow
live none = none
live (some r) = if r.deleted then none else some r

-- `DeploymentInstanceFirstByID` also finds a deleted row.
unfoldable pub find_instance : Env → Site → ℕ → Action InstanceRow
find_instance e s id = gets (λ w. if e.fails s then none else w.instances id)

abbrev pub write_instance :
    ℕ → (InstanceRow → InstanceRow) → Option InstanceRow → Action InstanceRow
write_instance id f none w = (none, w)
write_instance id f (some r) w =
    (some (f r), record w { instances = put id (some (f r)) w.instances })

-- A statement that updates a row which is not deleted, and returns it.
unfoldable pub update_instance : Env → Site → ℕ → (InstanceRow → InstanceRow) → Action InstanceRow
update_instance e s id f w =
    if e.fails s then (none, w) else write_instance id f (live (w.instances id)) w

-- `DeploymentInstanceUpdateStatus`.
abbrev pub update_status : Env → Site → ℕ → InstanceStatus → Action InstanceRow
update_status e s id status = update_instance e s id (λ r. record r { status = status })

-- `DeploymentInstanceResetForRetry`.
abbrev pub reset_for_retry : InstanceRow → InstanceRow
reset_for_retry r = record r {
  server_id = none;
  vm_id = none;
  role = active;
  status = InstanceStatus.pending;
}

-- `DeploymentInstancePrepareRetry`.
abbrev pub prepare_retry : ℕ → InstanceRow → InstanceRow
prepare_retry now r = record (reset_for_retry r) {
  restart_count = r.restart_count + 1;
  last_restart_at = some now;
}

abbrev pub mark_deleted : Option InstanceRow → Option InstanceRow
mark_deleted none = none
mark_deleted (some r) = some (record r { deleted = true })

-- `DeploymentInstanceSoftDelete`.
unfoldable pub soft_delete_instance : Env → ℕ → Action (Unit {0})
soft_delete_instance e id w =
    if e.fails Site.delete_instance
    then (none, w)
    else (some tt, record w { instances = put id (mark_deleted (w.instances id)) w.instances })

unfoldable pub find_vm : Env → Site → ℕ → Action VmRow
find_vm e s vm = gets (λ w. if e.fails s then none else w.vms vm)

abbrev pub write_vm : ℕ → (VmRow → VmRow) → Option VmRow → World → World
write_vm vm f none w = w
write_vm vm f (some v) w = record w { vms = put vm (some (f v)) w.vms }

-- `VMSoftDelete`.
unfoldable pub soft_delete_vm : Env → Site → ℕ → Action (Unit {0})
soft_delete_vm e s vm w =
    if e.fails s
    then (none, w)
    else (some tt, write_vm vm (λ v. record v { deleted = true }) (w.vms vm) w)

-- `VMUpdateStatus`, and `VMUpdateLifecycleMetadata` with the references that the row has.
unfoldable pub update_vm_status : Env → Site → ℕ → VmStatus → Action (Unit {0})
update_vm_status e s vm status w = if e.fails s then (none, w) else elim (w.vms vm) [
  | none ↦ (none, w)
  | some v ↦ (some tt, write_vm vm (λ v. record v { status = status }) (w.vms vm) w)
]

-- `rt.Stop`.
unfoldable pub stop : Env → Site → ℕ → Action (Unit {0})
stop e s id w =
    if e.fails s then (none, w) else (some tt, record w { alive = put id false w.alive })

abbrev pub started : ℕ → World → World
started id w = record w { alive = put id true w.alive }

-- The volume that is not deleted.
abbrev pub kept : Option Volume → Option Volume
kept none = none
kept (some v) = if v.deleted then none else some v

abbrev pub is_held_by : Volume → ℕ → Bool
is_held_by v vm = elim v.attached_vm_id [ none ↦ false | some a ↦ a == vm ]

abbrev pub detach_vm : VolumeStatus → Volume → Volume
detach_vm status v = record v { attached_vm_id = none; status = status }

-- `detachProjectVolumeIfAttached`.
unfoldable pub detach_if_attached : Env → Site → ℕ → VolumeStatus → Action (Unit {0})
detach_if_attached e s vm status w = elim (kept w.volume) [
  | none ↦ (some tt, w)
  | some v ↦
      if not (is_held_by v vm)
      then (some tt, w)
      else if e.fails s
      then (none, w)
      else (some tt, record w { volume = some (detach_vm status v) })
]

-- `ProjectVolumeAttachVM`.
unfoldable pub attach_volume : Env → Option ℕ → ℕ → Action (Unit {0})
attach_volume e server vm w =
    if e.fails Site.attach_volume then (none, w) else elim (kept w.volume) [
      | none ↦ (none, w)
      | some v ↦ (
        some tt,
        record w {
          volume = some (record v {
            server_id = server;
            attached_vm_id = some vm;
            status = attached;
            health = healthy;
          });
        },
      )
    ]

abbrev pub same_service : Option ℕ → Option ℕ → Bool
same_service none b = true
same_service (some s) none = false
same_service (some s) (some t) = s == t

-- The volume of the service, or of the project where the deployment has no service.
unfoldable pub volume_of : DeploymentRow → World → Option Volume
volume_of dep w = if same_service dep.service_id w.volume_service_id then kept w.volume else none

-- `isProjectVolumeTransitionalStatus` of project_volumes.go.
unfoldable pub is_transitional : VolumeStatus → Bool
is_transitional status = elim status [
  | backing_up ↦ true
  | restoring ↦ true
  | repairing ↦ true
  | deleting ↦ true
  | _ ↦ false
]

-- `projectVolumeForDeployment`: an error where the volume is in a transitional status.
unfoldable pub project_volume_for_deployment : Env → Site → DeploymentRow → Action (Option Volume)
project_volume_for_deployment e s dep w = if e.fails s then (none, w) else elim (volume_of dep w) [
  | none ↦ (some none, w)
  | some v ↦ if is_transitional v.status then (none, w) else (some (some v), w)
]
