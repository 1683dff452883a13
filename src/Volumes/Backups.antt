-- ===== src/Volumes/Backups.antt =====
-- internal/volumeops/handler.go: taking a backup.
use kindling.Base.{
  ℕ, Bool, true, false, not, ◌||◌, Option, none, some, trim_space, if◌then◌else◌, put,
}
use kindling.Volumes.{
  backup_object_key, detached, Health, unknown, degraded, running, succeeded, Request, Backup,
  World, update_operation, find_backup, update_backup_running, update_backup_succeeded, soft_delete,
  Answers, Uuids,
}
use kindling.Volumes.Handler.{
  find_row, set_backup, set_object, with_op_status, complete_operation, fail_rows, fail_backup,
  local_volume_health, is_attached, trim_backups,
}

-- `failOperation` without a backup, and with one.
abbrev pub fail_operation : Answers → Option Health → World → World × Bool
fail_operation a health w = fail_rows a health w

abbrev pub fail_with_backup : Answers → Option Health → Option ℕ → World → World × Bool
fail_with_backup a health id w = fail_rows a health (fail_backup a id w)

-- The file of the volume goes, the operation succeeds, and the volume is deleted.
pub delete_after_backup : ℕ → Answers → Option ℕ → World → World × Bool
delete_after_backup self a id w =
    if not a.removes
    then fail_with_backup a (some degraded) id w
    else let w1 = record w { has_file = put self false w.has_file } in
      if a.fails update_operation
      then (w1, false)
      else let w2 = with_op_status succeeded w1 in
        if a.fails soft_delete then (w2, false) else (
          record w2 {
            vol = record w2.vol {
              server_id = none;
              attached_vm_id = none;
              status = detached;
              health = unknown;
              deleted = true;
            };
          },
          true,
        )

-- From the upload of the object on.
unfoldable pub upload_backup : ℕ → Answers → Uuids → Request → ℕ → World → World × Bool
upload_backup self a u req id w =
    let raw = u.parse req.backup_id in
    let key = backup_object_key u id in
    if not a.uploads
    then fail_with_backup a (some degraded) raw w
    else let w1 = record w { has_object = set_object key true w.has_object } in
      if a.fails update_backup_succeeded
      then fail_with_backup a (some degraded) raw w1
      else let w2 = record w1 { backups = set_backup id succeeded key w1.backups } in
        let (w3, trimmed) = trim_backups a w2 in
        if not trimmed
        then fail_with_backup a (some degraded) raw w3
        else if req.delete_after
        then delete_after_backup self a raw w3
        else complete_operation a w3

-- With the backup's row.
unfoldable pub start_backup : ℕ → Answers → Uuids → Request → ℕ → Backup → World → World × Bool
start_backup self a u req id row w =
    if a.fails update_backup_running
    then fail_operation a none w
    else let w1 = record w { backups = set_backup id running row.storage_key w.backups } in
      let (health, bad) = local_volume_health a (w.has_file self) in
      if bad
      then fail_with_backup a (some health) (u.parse req.backup_id) w1
      else upload_backup self a u req id w1

-- The row of a backup by the id of the request.
pub find_backup_row : Answers → Uuids → Request → World → Option (ℕ × Backup)
find_backup_row a u req w = elim (u.parse (trim_space req.backup_id)) [
  | none ↦ none
  | some id ↦
      if not a.store_ready || a.fails find_backup
      then none
      else (elim (find_row id w.backups) [ none ↦ none | some row ↦ some (id, row) ])
]

unfoldable pub run_backup : ℕ → Answers → Uuids → Request → World → World × Bool
run_backup self a u req w =
    if is_attached w.vol then fail_operation a none w else (elim w.vol.server_id [
      | none ↦ fail_operation a none w
      | some pinned ↦ elim (find_backup_row a u req w) [
        | none ↦ fail_operation a none w
        | some (id, row) ↦ start_backup self a u req id row w
      ]
    ])
