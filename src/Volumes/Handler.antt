-- ===== src/Volumes/Handler.antt =====
-- internal/volumeops/handler.go: `Reconcile` and the four operations.
--
-- `true` with the world is the nil error. A call of `Reconcile` is one step; it ends after any of its
-- statements that fails.
use kindling.Base.{
  ℕ, suc, zero, ◌+◌, ◌==◌, ltb, Bool, true, false, not, ◌&&◌, ◌||◌, Option, none, some, List, [],
  ◌∷◌, Text, text_eq, codes, is_empty, trim_space, if◌then◌else◌,
}
use kindling.Volumes.{
  VolumeStatus, detached, available, attached, unavailable, backing_up, restoring, repairing,
  deleting, Health, unknown, healthy, degraded, missing, corrupt, Status, pending, running,
  succeeded, failed, Operation, Volume, Backup, World, update_operation, update_volume, find_backup,
  update_backup_failed, list_backups, delete_backup, ComponentRow, Answers,
}

-- 45 minutes, in nanoseconds.
abbrev pub default_stale_running_after : ℕ
default_stale_running_after = 2_700_000_000_000

pub find_row : ℕ → List Backup → Option Backup
find_row id [] = none
find_row id (b ∷ bs) = if b.id == id then some b else find_row id bs

-- `ProjectVolumeBackupUpdateState`, the status and the key.
pub set_backup : ℕ → Status → Text → List Backup → List Backup
set_backup id status key [] = []
set_backup id status key (b ∷ bs) =
    (if b.id == id then record b { status = status; storage_key = key } else b)
    ∷ set_backup id status key bs

abbrev pub set_object : Text → Bool → (Text → Bool) → Text → Bool
set_object key b objects k = if text_eq key k then b else objects k

abbrev pub with_op_status : Status → World → World
with_op_status s w = record w { op = record w.op { status = s } }

abbrev pub with_volume : VolumeStatus → Health → World → World
with_volume s h w = record w { vol = record w.vol { status = s; health = h } }

unfoldable pub complete_operation : Answers → World → World × Bool
complete_operation a w =
    if a.fails update_operation
    then (w, false)
    else let w' = with_op_status succeeded w in
      if a.fails update_volume then (w', false) else (with_volume detached healthy w', true)

-- The health after a failure: what the caller says, or else what stood.
pub next_health : Option Health → Health → Health
next_health (some h) old = elim h [
  | unknown ↦ degraded
  | healthy ↦ healthy
  | degraded ↦ degraded
  | missing ↦ missing
  | corrupt ↦ corrupt
]
next_health none old = elim old [
  | unknown ↦ degraded
  | healthy ↦ healthy
  | degraded ↦ degraded
  | missing ↦ missing
  | corrupt ↦ corrupt
]

unfoldable pub next_status : Health → VolumeStatus
next_status h = elim h [
  | unknown ↦ detached
  | healthy ↦ detached
  | degraded ↦ detached
  | missing ↦ unavailable
  | corrupt ↦ unavailable
]

-- The operation's failure, once the backup's row has been seen to.
unfoldable pub fail_rows : Answers → Option Health → World → World × Bool
unfolding next_health next_status
fail_rows a health w =
    if a.fails update_operation
    then (w, false)
    else let w' = with_op_status failed w in
      let h = next_health health w.vol.health in
      if a.fails update_volume then (w', false) else (with_volume (next_status h) h w', true)

-- `failOperation` with a backup's id.
unfoldable pub fail_backup : Answers → Option ℕ → World → World
fail_backup a none w = w
fail_backup a (some id) w = elim (find_row id w.backups) [
  | none ↦ w
  | some b ↦
      if a.fails find_backup || a.fails update_backup_failed
      then w
      else record w { backups = set_backup id failed b.storage_key w.backups }
]

unfoldable pub is_stale_running : Answers → Operation → Bool
is_stale_running a op = elim op.status [
  | pending ↦ false
  | succeeded ↦ false
  | failed ↦ false
  | running ↦ elim op.started_at [
    | none ↦ false
    | some t ↦ ltb (t + default_stale_running_after) a.now
  ]
]

-- `runtimeName, _ := meta["runtime"].(string)` of a healthy worker.
pub any_cloud_hypervisor : List ComponentRow → Bool
any_cloud_hypervisor [] = false
any_cloud_hypervisor (row ∷ rows) =
    (text_eq row.component (codes "worker")
      && text_eq row.status (codes "healthy")
      && (elim row.runtime [ none ↦ false | some r ↦ text_eq r (codes "cloud-hypervisor") ]))
    || any_cloud_hypervisor rows

pub server_supports_cloud_hypervisor : Answers → Bool
server_supports_cloud_hypervisor a = elim a.components [
  | none ↦ false
  | some rows ↦ any_cloud_hypervisor rows
]

pub operation_server_healthy : Answers → Bool
operation_server_healthy a = elim a.server_status [
  | none ↦ false
  | some status ↦ text_eq status (codes "active") && server_supports_cloud_hypervisor a
]

-- The health of the file, and whether it comes with a message.
unfoldable pub local_volume_health : Answers → Bool → Health × Bool
local_volume_health a has_file =
    if a.stat_fails
    then (degraded, true)
    else if not has_file
    then (missing, true)
    else if not a.info_succeeds
    then (corrupt, true)
    else (healthy, false)

abbrev pub is_attached : Volume → Bool
is_attached vol = (elim vol.attached_vm_id [ none ↦ false | some _ ↦ true ]) || (elim vol.status [
  | attached ↦ true
  | detached ↦ false
  | available ↦ false
  | unavailable ↦ false
  | backing_up ↦ false
  | restoring ↦ false
  | repairing ↦ false
  | deleting ↦ false
])

-- The loop of `trimBackups`: the rows and the objects that are left, and whether all went well.
unfoldable pub trim_rows :
    Answers → ℕ → List Backup → (Text → Bool) → List Backup × (Text → Bool) × Bool
trim_rows a keep [] objects = ([], objects, true)
trim_rows a keep (b ∷ bs) objects = elim b.status [
  | pending ↦ let (rest, objs, ok) = trim_rows a keep bs objects in (b ∷ rest, objs, ok)
  | running ↦ let (rest, objs, ok) = trim_rows a keep bs objects in (b ∷ rest, objs, ok)
  | failed ↦ let (rest, objs, ok) = trim_rows a keep bs objects in (b ∷ rest, objs, ok)
  | succeeded ↦ elim keep [
    | suc (left) ↦ let (rest, objs, ok) = trim_rows a left bs objects in (b ∷ rest, objs, ok)
    | zero ↦
        let key = trim_space b.storage_key in
        if not (is_empty key) && not (a.deletes_object key)
        then (b ∷ bs, objects, false)
        else let objs' = if is_empty key then objects else set_object key false objects in
          if a.fails delete_backup then (b ∷ bs, objs', false) else trim_rows a zero bs objs'
  ]
]

unfoldable pub trim_backups : Answers → World → World × Bool
trim_backups a w = elim w.vol.backup_retention_count [
  | zero ↦ (w, true)
  | suc n ↦
      if a.fails list_backups
      then (w, false)
      else let (rows, objs, ok) = trim_rows a (suc n) w.backups w.has_object in
        (record w { backups = rows; has_object = objs }, ok)
]
