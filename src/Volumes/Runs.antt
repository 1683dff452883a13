-- ===== src/Volumes/Runs.antt =====
-- internal/volumeops/handler.go: restoring, moving and repairing, and `Reconcile`.
use kindling.Base.{
  ℕ, ◌==◌, Bool, true, false, not, ◌&&◌, ◌||◌, Option, none, some, [], Text, text_eq, codes,
  is_blank, trim_space, if◌then◌else◌, put,
}
use kindling.Volumes.{
  move_object_key, degraded, missing, corrupt, Status, pending, running, succeeded, failed, Kind,
  backup, restore, move, repair, Request, Operation, Volume, World, update_running,
  update_operation, assign_server, Answers, Uuids,
}
use kindling.Volumes.Handler.{
  set_object, complete_operation, is_stale_running, operation_server_healthy, local_volume_health,
  is_attached,
}
use kindling.Volumes.Backups.{fail_operation, find_backup_row, run_backup}

-- The file has come to `self`; the volume is pinned to the target.
unfoldable pub pin_volume : Answers → ℕ → World → World × Bool
pin_volume a target w =
    if a.fails assign_server
    then fail_operation a (some degraded) w
    else complete_operation a (record w { vol = record w.vol { server_id = some target } })

-- `downloadToPath` and what follows it.
unfoldable pub restore_file : ℕ → Answers → Text → ℕ → World → World × Bool
restore_file self a key target w =
    if is_blank key || not a.downloads
    then fail_operation a (some degraded) w
    else pin_volume a target (record w { has_file = put self true w.has_file })

abbrev pub is_succeeded : Status → Bool
is_succeeded succeeded = true
is_succeeded pending = false
is_succeeded running = false
is_succeeded failed = false

unfoldable pub run_restore : ℕ → Answers → Uuids → Request → World → World × Bool
run_restore self a u req w =
    if is_attached w.vol
    then fail_operation a none w
    else (elim (u.parse (trim_space req.target_server_id)) [
      | none ↦ fail_operation a none w
      | some target ↦ elim (find_backup_row a u req w) [
        | none ↦ fail_operation a none w
        | some (id, row) ↦
            if not (is_succeeded row.status) || is_blank row.storage_key
            then fail_operation a none w
            else restore_file self a row.storage_key target w
      ]
    ])

-- The stage `upload`: the operation goes to the target server, pending again.
unfoldable pub move_upload : ℕ → Answers → Uuids → Request → ℕ → World → World × Bool
move_upload self a u req target w =
    let (health, bad) = local_volume_health a (w.has_file self) in
    if bad
    then fail_operation a (some health) w
    else let key =
        if is_blank req.storage_key then (move_object_key u) else trim_space req.storage_key in
      if not a.uploads
      then fail_operation a (some degraded) w
      else let w1 = record w { has_object = set_object key true w.has_object } in
        if a.fails update_operation then (w1, false) else (
          record w1 {
            op = record w1.op {
              server_id = some target;
              status = pending;
              request = some (record req {
                stage = codes "download";
                storage_key = if is_blank req.storage_key then key else req.storage_key;
              });
            };
          },
          true,
        )

-- The stage `download`.
unfoldable pub move_download : ℕ → Answers → Request → ℕ → World → World × Bool
move_download self a req target w =
    if is_blank req.storage_key || not a.downloads
    then fail_operation a (some degraded) w
    else let w1 = record w { has_file = put self true w.has_file } in
      if not (a.deletes_object req.storage_key)
      then fail_operation a (some degraded) w1
      else pin_volume a target
          (record w1 { has_object = set_object req.storage_key false w1.has_object })

-- The defaults of the request.
unfoldable pub move_defaults : Uuids → Volume → Request → Request
move_defaults u vol req = record req {
  source_server_id =
      if is_blank req.source_server_id
      then (elim vol.server_id [ none ↦ [] | some s ↦ u.text s ])
      else req.source_server_id;
  stage = if is_blank req.stage then codes "upload" else req.stage;
}

unfoldable pub move_stage : ℕ → Answers → Uuids → Request → ℕ → World → World × Bool
move_stage self a u req target w =
    if text_eq req.stage (codes "upload")
    then move_upload self a u req target w
    else if text_eq req.stage (codes "download")
    then move_download self a req target w
    else fail_operation a none w

unfoldable pub move_to : ℕ → Answers → Uuids → Request → World → World × Bool
move_to self a u req w = elim (u.parse (trim_space req.target_server_id)) [
  | none ↦ fail_operation a none w
  | some target ↦
      if text_eq (trim_space req.source_server_id) (u.text target) || not a.store_ready
      then fail_operation a none w
      else move_stage self a u req target w
]

unfoldable pub run_move : ℕ → Answers → Uuids → Request → World → World × Bool
run_move self a u req w =
    if is_attached w.vol
    then fail_operation a none w
    else move_to self a u (move_defaults u w.vol req) w

unfoldable pub run_repair : ℕ → Answers → World → World × Bool
run_repair self a w =
    if is_attached w.vol
    then fail_operation a none w
    else if not (w.has_file self) && not a.stat_fails
    then fail_operation a (some missing) w
    else if not a.check_succeeds
    then fail_operation a (some corrupt) w
    else complete_operation a w

-- The request is decoded by all kinds but `repair`.
unfoldable pub run_kind : ℕ → Answers → Uuids → Kind → Option Request → World → World × Bool
run_kind self a u repair request w = run_repair self a w
run_kind self a u backup none w = fail_operation a none w
run_kind self a u backup (some req) w = run_backup self a u req w
run_kind self a u restore none w = fail_operation a none w
run_kind self a u restore (some req) w = run_restore self a u req w
run_kind self a u move none w = fail_operation a none w
run_kind self a u move (some req) w = run_move self a u req w

-- The operation is this server's, or no server's.
unfoldable pub run_operation : ℕ → Answers → Uuids → Status → World → World × Bool
run_operation self a u pending w =
    if a.fails update_running
    then (w, false)
    else run_kind self a u w.op.kind w.op.request
        (record w { op = record w.op { status = running; started_at = some a.now } })
run_operation self a u other w = run_kind self a u w.op.kind w.op.request w

-- The operation is another server's.
unfoldable pub is_elsewhere : ℕ → Operation → Bool
is_elsewhere self op = elim op.server_id [ none ↦ false | some s ↦ not (s == self) ]

unfoldable pub is_terminal : Status → Bool
is_terminal pending = false
is_terminal running = false
is_terminal succeeded = true
is_terminal failed = true

unfoldable pub reconcile : ℕ → Answers → Uuids → World → World × Bool
reconcile self a u w =
    if is_terminal w.op.status || w.vol.deleted
    then (w, true)
    else if is_stale_running a w.op
    then fail_operation a none w
    else if is_elsewhere self w.op
    then (if operation_server_healthy a then (w, true) else fail_operation a none w)
    else run_operation self a u w.op.status w
