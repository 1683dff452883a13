-- ===== src/Migration/Handler.antt =====
-- internal/migrationreconcile/reconcile.go: the handler.
--
-- `true` with the world is the nil error. The source server leaves `sendFromSource` in two steps, since
-- `SendMigration` takes long and the other server works meanwhile: `send_from_source` up to the call,
-- and `send_returns` behind it.
use kindling.Base.{
  ℕ, ◌+◌, ◌==◌, ltb, Bool, true, false, not, ◌&&◌, ◌||◌, Option, none, some, List, [], ◌∷◌, ℤ, Text,
  text_eq, codes, is_blank, is_empty, trim_space, if◌then◌else◌, put,
}
use kindling.Migration.{
  State, pending, destination_prepared, sending, received, completed, failed, aborted,
  fallback_evacuating, FailureCode, unsupported_runtime, destination_inactive,
  destination_internal_ip, destination_prepare, unsupported_volume, shared_rootfs_missing,
  source_metadata, destination_runtime, version_mismatch, send_failed, cutover_timeout,
  destination_finalize, destination_runtime_url, Vm, World, update_failed, update_prepared,
  update_aborted, update_fallback_evacuating, update_sending, update_received, update_completed,
  find_instance, find_deployment, begin, create_vm, update_server, attach_vm, delete_vm, commit,
  Server, found, no_rows, broken, ComponentStatus, Answers,
}

-- Ten minutes, in nanoseconds.
abbrev pub migration_cutover_deadline : ℕ
migration_cutover_deadline = 600_000_000_000

abbrev pub set_state : State → World → World
set_state s w = record w { migration = record w.migration { state = s } }

abbrev pub set_failure : State → FailureCode → World → World
set_failure s code w = record w {
  migration = record w.migration { state = s; failure_code = code };
}

-- `InstanceMigrationUpdateFailed`.
unfoldable pub fail_with : Answers → FailureCode → World → World × Bool
fail_with a code w = if a.fails update_failed then (w, false) else (set_failure failed code w, true)

unfoldable pub is_usable_ip : Text → Bool
is_usable_ip raw =
    let ip = trim_space raw in
    not (is_empty ip || text_eq ip (codes "127.0.0.1") || text_eq ip (codes "0.0.0.0"))

-- `prepareDestination`, from the prepared receive address on.
unfoldable pub record_prepared : Answers → Server → Text → World → World × Bool
record_prepared a server address w = elim (a.split_host_port address) [
  | none ↦ fail_with a destination_prepare w
  | some (host, port) ↦ if a.fails update_prepared then (w, false) else (
    record w {
      migration = record w.migration {
        state = destination_prepared;
        receive_addr = a.join_host_port (trim_space server.internal_ip) port;
        cutover_deadline_at = some (a.now + migration_cutover_deadline);
      };
    },
    true,
  )
]

unfoldable pub prepare_destination : Answers → World → World × Bool
prepare_destination a w =
    if not a.supports then fail_with a unsupported_runtime w else (elim a.destination [
      | none ↦ (w, false)
      | some server ↦
          if not (text_eq server.status (codes "active"))
          then fail_with a destination_inactive w
          else if not (is_usable_ip server.internal_ip)
          then fail_with a destination_internal_ip w
          else (elim a.prepared [
            | none ↦ fail_with a destination_prepare w
            | some address ↦ record_prepared a server address w
          ])
    ])

unfoldable pub abort_migration_from_source : Answers → World → World × Bool
abort_migration_from_source a w =
    if a.fails update_aborted
    then (w, false)
    else if a.fails update_fallback_evacuating
    then (set_failure aborted cutover_timeout w, false)
    else (set_failure fallback_evacuating cutover_timeout w, true)

pub record WorkerMetadata : Type 0 where
  pub runtime : Text
  pub live_migration_enabled : Bool
  pub cloud_hypervisor_version : Text
  pub shared_rootfs_dir : Text

-- The first worker counts.
unfoldable pub live_migration_worker_metadata_from_statuses :
    List ComponentStatus → Option WorkerMetadata
live_migration_worker_metadata_from_statuses [] = none
live_migration_worker_metadata_from_statuses (status ∷ statuses) =
    let rest = live_migration_worker_metadata_from_statuses statuses in
    if not (text_eq status.component (codes "worker")) then rest else (elim status.metadata [
      | none ↦ none
      | some raw ↦ some (record {
        runtime = trim_space raw.runtime;
        live_migration_enabled = raw.live_migration_enabled;
        cloud_hypervisor_version = trim_space raw.cloud_hypervisor_version;
        shared_rootfs_dir = trim_space raw.shared_rootfs_dir;
      })
    ])

-- The checks of the destination's worker, and of the versions.
unfoldable pub refuses : Text → WorkerMetadata → Option FailureCode
refuses version meta =
    if not (text_eq meta.runtime (codes "cloud-hypervisor"))
    then some destination_runtime
    else if not meta.live_migration_enabled
    then some destination_runtime
    else if is_empty meta.shared_rootfs_dir
    then some destination_runtime
    else if not (is_empty version)
        && not (is_empty meta.cloud_hypervisor_version)
        && not (text_eq version meta.cloud_hypervisor_version)
    then some version_mismatch
    else none

-- `InstanceMigrationUpdateSending`, and the start of `SendMigration`.
unfoldable pub start_sending : Answers → World → World × Bool
start_sending a w =
    if a.fails update_sending
    then (w, false)
    else (record (set_state sending w) { in_flight = true }, true)

-- From the metadata of the source on.
unfoldable pub send_checked : Answers → World → World × Bool
send_checked a w = elim a.source_version [
  | none ↦ fail_with a source_metadata w
  | some version ↦ elim a.statuses [
    | none ↦ (w, false)
    | some statuses ↦ elim (live_migration_worker_metadata_from_statuses statuses) [
      | none ↦ fail_with a destination_runtime w
      | some meta ↦ elim (refuses version meta) [
        | some code ↦ fail_with a code w
        | none ↦ start_sending a w
      ]
    ]
  ]
]

unfoldable pub send_from_source : Answers → World → World × Bool
send_from_source a w =
    if not a.supports
    then (w, true)
    else if a.fails find_instance || a.fails find_deployment
    then (w, false)
    else (elim a.volume [
      | found ↦ fail_with a unsupported_volume w
      | broken ↦ (w, false)
      | no_rows ↦ elim (w.vms w.migration.source_vm) [
        | none ↦ (w, false)
        | some vm ↦
            if is_blank vm.shared_rootfs_ref
            then fail_with a shared_rootfs_missing w
            else send_checked a w
      ]
    ])

-- `SendMigration` has returned, with an error unless `sent`.
unfoldable pub send_returns : Answers → Bool → World → World × Bool
send_returns a sent w =
    if not w.in_flight
    then (w, true)
    else let w' = record w { in_flight = false } in
      if not sent
      then fail_with a send_failed w'
      else if a.fails update_received
      then (w', false)
      else (set_state received w', true)

pub choose_shared_rootfs_ref : Text → Text → Text
choose_shared_rootfs_ref primary fallback = if is_blank primary then fallback else primary

-- The host and the port of a runtime URL.
unfoldable pub host_port : Answers → Text → Option Text
host_port a raw =
    let s = trim_space raw in
    if is_empty s then none else if a.has_scheme s then a.url_host s else some s

unfoldable pub parse_runtime_address : Answers → Text → Option (Text × ℤ)
parse_runtime_address a raw = elim (host_port a raw) [
  | none ↦ none
  | some hp ↦ elim (a.split_host_port hp) [
    | none ↦ none
    | some (host, port_text) ↦ elim (a.parse_addr host) [
      | none ↦ none
      | some ip ↦ elim (a.atoi port_text) [ none ↦ none | some port ↦ some (ip, port) ]
    ]
  ]
]

-- `InstanceMigrationUpdateFallbackEvacuating`, whose error is dropped.
unfoldable pub fall_back : Answers → FailureCode → World → World × Bool
fall_back a code w = (
  (if a.fails update_fallback_evacuating then w else set_failure fallback_evacuating code w),
  true,
)

abbrev pub mark_deleted : Option Vm → Option Vm
mark_deleted none = none
mark_deleted (some vm) = some (record vm { deleted = true })

-- What the transaction writes: a machine on the destination, which the instance is attached to, the
-- source machine deleted, and the migration completed.
unfoldable pub swap_vm : Answers → Vm → Text → Text → Text → ℤ → World → World
swap_vm a source url ref ip port w =
    let fresh : Vm = record {
      server_id = w.migration.destination_server;
      shared_rootfs_ref = choose_shared_rootfs_ref ref source.shared_rootfs_ref;
      ip_address = ip;
      port = port;
      deleted = false;
    } in
    let created = put a.new_vm_id (some fresh) w.vms in
    let source_vm = w.migration.source_vm in
    record w {
      migration = record w.migration { state = completed; destination_runtime_url = url };
      instance_row = record { server_id = w.migration.destination_server; vm_id = a.new_vm_id };
      vms = put source_vm (mark_deleted (created source_vm)) created;
    }

-- One statement of the transaction has failed, before its commit.
unfoldable pub transaction_fails : Answers → Bool
transaction_fails a =
    a.fails begin
    || a.fails create_vm
    || a.fails update_server
    || a.fails attach_vm
    || a.fails delete_vm
    || a.fails update_completed

-- The transaction; when it fails, the deferred `Rollback` undoes its statements.
unfoldable pub commit_swap : Answers → Vm → Text → Text → Text → ℤ → World → World × Bool
commit_swap a source url ref ip port w =
    if transaction_fails a
    then (w, false)
    else if a.fails commit
    then (record w { stopped = w.stopped + 1 }, false)
    else (record (swap_vm a source url ref ip port w) { notified = w.notified + 1 }, true)

unfoldable pub commit_on_destination : Answers → World → World × Bool
commit_on_destination a w = elim a.finalized [
  | none ↦ fall_back a destination_finalize w
  | some (url, ref) ↦ elim (parse_runtime_address a url) [
    | none ↦ fall_back a destination_runtime_url w
    | some (ip, port) ↦
        if a.fails find_instance then (w, false) else (elim (w.vms w.migration.source_vm) [
          | none ↦ (w, false)
          | some source ↦ commit_swap a source url ref ip port w
        ])
  ]
]

-- The deadline is set, and it has passed.
abbrev pub is_overdue : ℕ → Option ℕ → Bool
is_overdue now none = false
is_overdue now (some deadline) = ltb deadline now

-- The states that are final; `fallback_evacuating` schedules the deployment of the instance.
unfoldable pub after_end : Answers → State → World → World × Bool
after_end a fallback_evacuating w =
    ((if a.fails find_instance then w else record w { scheduled = w.scheduled + 1 }), true)
after_end a _ w = (w, true)

-- `Reconcile` on the server `self`, with the state that it has read.
unfoldable pub reconcile_at : ℕ → Answers → State → World → World × Bool
reconcile_at self a pending w =
    if w.migration.destination_server == self then prepare_destination a w else (w, true)
reconcile_at self a destination_prepared w =
    if w.migration.source_server == self then send_from_source a w else (w, true)
reconcile_at self a sending w =
    if is_overdue a.now w.migration.cutover_deadline_at
    then abort_migration_from_source a w
    else (w, true)
reconcile_at self a received w =
    if w.migration.destination_server == self then commit_on_destination a w else (w, true)
reconcile_at self a other w = after_end a other w

unfoldable pub reconcile : ℕ → Answers → World → World × Bool
unfolding reconcile_at
reconcile self a w = reconcile_at self a w.migration.state w

-- What happens to a migration: a server reconciles it, or the call on the source server returns.
pub data Event : Type 0 where
  reconciles : ℕ → Answers → Event
  returns : Answers → Bool → Event

unfoldable pub step : World → Event → World
step w (reconciles self a) = (reconcile self a w).0
step w (returns a sent) = (send_returns a sent w).0

unfoldable pub run : World → List Event → World
run w [] = w
run w (e ∷ es) = run (step w e) es
