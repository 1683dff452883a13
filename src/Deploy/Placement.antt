-- ===== src/Deploy/Placement.antt =====
-- internal/deploy/project_volumes.go: the server of the volume.
use kindling.Base.{ℕ, Bool, true, false, not, ◌&&◌, Option, none, some, if◌then◌else◌}
use kindling.Scaling.{is_some}
use kindling.Volumes.{Volume, VolumeStatus, available, unavailable}
use kindling.Deploy.{ServerStatus, World, Site, Env}
use kindling.Deploy.Store.{kept, detach_vm}

-- `unreachable` is the error that says that the volume is unavailable.
pub data VolumeResult : Type 0 where
  ready : Volume → VolumeResult
  unreachable refused : VolumeResult

abbrev pub is_active_server : Option ServerStatus → Bool
is_active_server status = elim status [ some ServerStatus.active ↦ true | _ ↦ false ]

abbrev pub is_unavailable : VolumeStatus → Bool
is_unavailable status = elim status [ unavailable ↦ true | _ ↦ false ]

-- `ProjectVolumeUpdateStatus`.
abbrev pub with_status : VolumeStatus → Volume → Volume
with_status status v = record v { status = status }

-- `markProjectVolumeUnavailable`: the volume is also detached.
unfoldable pub mark_project_volume_unavailable : Env → World → VolumeResult × World
mark_project_volume_unavailable e w =
    if e.fails Site.find_unavailable then (refused, w) else elim (kept w.volume) [
      | none ↦ (refused, w)
      | some v ↦ if e.fails Site.write_unavailable then (refused, w) else (
        unreachable,
        record w {
          volume = some (
              if is_some v.attached_vm_id
              then detach_vm unavailable v
              else with_status unavailable v);
        },
      )
    ]

-- The volume is on a server that can run it.
unfoldable pub make_available : Env → Volume → World → VolumeResult × World
make_available e v w =
    if is_unavailable v.status && not (is_some v.attached_vm_id) && not (e.fails Site.set_available)
    then (ready (with_status available v), record w { volume = some (with_status available v) })
    else (ready v, w)

unfoldable pub check_pinned_server : Env → Volume → ℕ → World → VolumeResult × World
check_pinned_server e v s w =
    if not (is_active_server (e.server s))
    then mark_project_volume_unavailable e w
    else if not (e.supports_hypervisor s)
    then mark_project_volume_unavailable e w
    else make_available e v w

-- A volume that has no server yet gets one.
unfoldable pub assign_volume_server : Env → Volume → ℕ → World → VolumeResult × World
assign_volume_server e v s w =
    let placed = record v { server_id = some s } in
    if e.fails Site.assign_volume_server
    then (refused, w)
    else if e.fails Site.set_available
    then (refused, record w { volume = some placed })
    else (
      ready (with_status available placed),
      record w { volume = some (with_status available placed) },
    )

-- `ensureProjectVolumeServer`.
unfoldable pub ensure_project_volume_server : Env → Volume → World → VolumeResult × World
ensure_project_volume_server e v w = elim v.server_id [
  | some s ↦ check_pinned_server e v s w
  | none ↦ elim e.volume_server [
    | none ↦ mark_project_volume_unavailable e w
    | some s ↦ assign_volume_server e v s w
  ]
]
