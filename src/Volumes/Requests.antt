-- ===== src/Volumes/Requests.antt =====
-- internal/rpc/project_volume_ops.go: the requests that start an operation on a volume.
--
-- The project has a row for a volume, deleted or not; the world's operation is the latest one, which
-- `ProjectVolumeOperationFindCurrentByVolumeID` finds unless it has ended. `none` with the world is the
-- answer 202.
use kindling.Base.{
  ℕ, ◌==◌, Bool, true, false, not, Option, none, some, List, [], ◌∷◌, Text, codes, is_empty,
  trim_space, if◌then◌else◌,
}
use kindling.Volumes.{
  VolumeStatus, detached, available, attached, unavailable, backing_up, restoring, repairing,
  deleting, pending, Kind, backup, restore, move, repair, Request, World, Statement, find_backup,
  find_current, create_operation, create_backup, update_volume, Uuids,
}
use kindling.Volumes.Handler.{find_row, is_attached, with_volume}
use kindling.Volumes.Runs.{is_terminal}

pub data Refusal : Type 0 where
  not_found volume_attached volume_busy volume_unavailable backup_store_unavailable : Refusal
  validation_error internal_error : Refusal

pub record Site : Type 0 where
  pub fails : Statement → Bool
  pub store_configured : Bool
  -- Whether a backup with the id is there, of another volume.
  pub other_volume_backup : ℕ → Bool
  -- `activeCloudHypervisorWorkers`, the least loaded first.
  pub workers : Option (List ℕ)
  -- `uuid.New` for a backup.
  pub new_backup : ℕ

-- `isProjectVolumeTransitionalStatus`.
unfoldable pub is_transitional : VolumeStatus → Bool
is_transitional status = elim status [
  | backing_up ↦ true
  | restoring ↦ true
  | repairing ↦ true
  | deleting ↦ true
  | detached ↦ false
  | available ↦ false
  | attached ↦ false
  | unavailable ↦ false
]

unfoldable pub ready_for_operation : Site → World → Option Refusal
ready_for_operation site w =
    if w.vol.deleted
    then some not_found
    else if is_attached w.vol
    then some volume_attached
    else if is_transitional w.vol.status
    then some volume_busy
    else if site.fails find_current
    then some internal_error
    else if not (is_terminal w.op.status)
    then some volume_busy
    else none

unfoldable pub enqueue_operation :
    Site → Option ℕ → Kind → Request → VolumeStatus → World → World × Option Refusal
enqueue_operation site server kind req status w =
    if site.fails create_operation
    then (w, some internal_error)
    else let w1 = record w {
      op = record {
        server_id = server;
        kind = kind;
        status = pending;
        request = some req;
        started_at = none;
      };
    } in
      if site.fails update_volume
      then (w1, some internal_error)
      else (with_volume status w.vol.health w1, none)

-- A request without its fields.
abbrev pub empty_request : Request
empty_request = record {
  backup_id = [];
  target_server_id = [];
  source_server_id = [];
  stage = [];
  storage_key = [];
  delete_after = false;
}

unfoldable pub post_backup : Site → Uuids → World → World × Option Refusal
post_backup site u w = elim (ready_for_operation site w) [
  | some refusal ↦ (w, some refusal)
  | none ↦ elim w.vol.server_id [
    | none ↦ (w, some volume_unavailable)
    | some server ↦
        if not site.store_configured
        then (w, some backup_store_unavailable)
        else if site.fails create_backup
        then (w, some internal_error)
        else enqueue_operation site (some server) backup
            (record empty_request { backup_id = u.text site.new_backup }) backing_up
            (record w {
              backups =
                  record { id = site.new_backup; status = pending; storage_key = [] } ∷ w.backups;
            })
  ]
]

pub find_server : ℕ → List ℕ → Option ℕ
find_server id [] = none
find_server id (s ∷ servers) = if s == id then some s else find_server id servers

-- The first worker, or the second if the first has the volume already.
abbrev pub pick_other : Option ℕ → List ℕ → Option ℕ
pick_other current [] = none
pick_other none (s ∷ servers) = some s
pick_other (some c) (s ∷ []) = some s
pick_other (some c) (s ∷ t ∷ servers) = if s == c then some t else some s

pub pick_current : Option ℕ → List ℕ → Option ℕ
pick_current current [] = none
pick_current none (s ∷ servers) = some s
pick_current (some c) (s ∷ servers) = elim (find_server c (s ∷ servers)) [
  | some server ↦ some server
  | none ↦ some s
]

-- `selectProjectVolumeTargetServer`.
unfoldable pub select_target_server : Site → Uuids → Text → Option ℕ → Bool → Option ℕ
select_target_server site u requested current prefer_current = elim site.workers [
  | none ↦ none
  | some [] ↦ none
  | some (s ∷ servers) ↦
      if not (is_empty requested)
      then (elim (u.parse requested) [
        | none ↦ none
        | some target ↦ find_server target (s ∷ servers)
      ])
      else if prefer_current
      then pick_current current (s ∷ servers)
      else pick_other current (s ∷ servers)
]

-- With the body decoded.
unfoldable pub restore_backup : Site → Uuids → Text → Text → World → World × Option Refusal
restore_backup site u backup_id target w = elim (u.parse (trim_space backup_id)) [
  | none ↦ (w, some validation_error)
  | some id ↦
      if site.fails find_backup then (w, some internal_error) else (elim (find_row id w.backups) [
        | none ↦ (w, some (if site.other_volume_backup id then validation_error else not_found))
        | some row ↦ elim (select_target_server site u (trim_space target) w.vol.server_id true) [
          | none ↦ (w, some volume_unavailable)
          | some server ↦
              enqueue_operation site (some server) restore
                (record empty_request { backup_id = u.text id; target_server_id = u.text server })
                restoring w
        ]
      ])
]

-- The body is `none` where it is no JSON.
unfoldable pub post_restore : Site → Uuids → Option (Text × Text) → World → World × Option Refusal
post_restore site u body w = elim (ready_for_operation site w) [
  | some refusal ↦ (w, some refusal)
  | none ↦ if not site.store_configured then (w, some backup_store_unavailable) else (elim body [
    | none ↦ (w, some validation_error)
    | some (backup_id, target) ↦ restore_backup site u backup_id target w
  ])
]

-- With the body decoded, and the server that has the volume.
unfoldable pub move_volume : Site → Uuids → Text → ℕ → World → World × Option Refusal
move_volume site u target source w =
    elim (select_target_server site u (trim_space target) (some source) false) [
      | none ↦ (w, some volume_unavailable)
      | some server ↦
          if server == source
          then (w, some validation_error)
          else enqueue_operation site (some source) move
              (record empty_request {
                target_server_id = u.text server;
                source_server_id = u.text source;
                stage = codes "upload";
              })
              restoring w
    ]

unfoldable pub post_move : Site → Uuids → Option Text → World → World × Option Refusal
post_move site u body w = elim (ready_for_operation site w) [
  | some refusal ↦ (w, some refusal)
  | none ↦ elim w.vol.server_id [
    | none ↦ (w, some volume_unavailable)
    | some source ↦
        if not site.store_configured then (w, some backup_store_unavailable) else (elim body [
          | none ↦ (w, some validation_error)
          | some target ↦ move_volume site u target source w
        ])
  ]
]

unfoldable pub post_repair : Site → Uuids → World → World × Option Refusal
post_repair site u w = elim (ready_for_operation site w) [
  | some refusal ↦ (w, some refusal)
  | none ↦ elim w.vol.server_id [
    | none ↦ (w, some volume_unavailable)
    | some server ↦ enqueue_operation site (some server) repair empty_request repairing w
  ]
]
