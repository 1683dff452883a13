-- ===== src/Migration/Examples.antt =====
-- internal/migrationreconcile/reconcile.go: an instance moves from server 1 to server 2.
use kindling.Base.{
  inr, is_blank, trim_space, ◌≡◌, refl, ◌==◌, true, false, none, some, [], ◌∷◌, codes, pos, inl,
  ◌↔◌, if◌then◌else◌,
}
use kindling.Migration.{
  pending, destination_prepared, sending, completed, no_failure, Vm, World, no_rows, Answers,
}
use kindling.Migration.Handler.{
  transaction_fails, host_port, refuses, parse_runtime_address, is_usable_ip,
  live_migration_worker_metadata_from_statuses, reconcile, reconciles, returns, run, set_state,
}
use kindling.Migration.Moves.{Change, reconcile-Change}
use kindling.Migration.Attached.{IsAttached, run-IsAttached}
use kindling.Migration.Progress.{
  IsSendable, IsPreparable, IsCommittable, reconcile-IsSendable, run-completes,
}

abbrev answers : Answers
answers = record {
  now = 1_000;
  fails = λ s. false;
  supports = true;
  destination = some (record { status = codes "active"; internal_ip = codes "10.0.0.2" });
  prepared = some (codes "0.0.0.0:4000");
  volume = no_rows;
  source_version = some (codes "v40");
  statuses = some (
      record {
        component = codes "worker";
        metadata = some (record {
          runtime = codes "cloud-hypervisor";
          live_migration_enabled = true;
          cloud_hypervisor_version = codes "v40";
          shared_rootfs_dir = codes "/srv";
        });
      }
      ∷ []);
  finalized = some (codes "10.0.0.2:80", codes "");
  new_vm_id = 9;
  split_host_port = λ s. some (codes "10.0.0.2", codes "80");
  join_host_port = λ host port. host;
  has_scheme = λ s. false;
  url_host = λ s. some s;
  parse_addr = λ s. some s;
  atoi = λ s. some (pos 80);
}

abbrev source_machine : Vm
source_machine = record {
  server_id = 1;
  shared_rootfs_ref = codes "/srv/a";
  ip_address = codes "10.0.0.1";
  port = pos 80;
  deleted = false;
}

abbrev world : World
world = record {
  migration = record {
    state = pending;
    source_server = 1;
    destination_server = 2;
    source_vm = 5;
    receive_addr = [];
    cutover_deadline_at = some 500;
    failure_code = no_failure;
    destination_runtime_url = [];
  };
  instance_row = record { server_id = 1; vm_id = 5 };
  vms = λ id. if id == 5 then some source_machine else none;
  in_flight = false;
  scheduled = 0;
  notified = 0;
  stopped = 0;
}

abbrev under_way : World
under_way = record (set_state sending world) { in_flight = true }

abbrev ready_to_send : World
ready_to_send = set_state destination_prepared world

reconcile-Change_example : Change 2 answers world (reconcile 2 answers world).0
reconcile-Change_example = reconcile-Change 2 answers world

world-IsAttached : IsAttached world
world-IsAttached = record {
  vm = source_machine;
  attached = refl;
  live = refl;
  placed = refl;
  home = inl refl;
  moved = λ e. cc;
}

run-IsAttached_example : IsAttached (run world (reconciles 2 answers ∷ returns answers true ∷ []))
run-IsAttached_example =
    run-IsAttached world (reconciles 2 answers ∷ returns answers true ∷ []) (refl, (tt, tt))
      world-IsAttached

answers-IsPreparable : IsPreparable answers
unfolding is_usable_ip trim_space
answers-IsPreparable = record {
  able = refl;
  server = _;
  server_found = refl;
  active = refl;
  usable = refl;
  address = _;
  prepared = refl;
  parts = _;
  split = refl;
  written = refl;
}

sendable : (w : World) → w.vms w.migration.source_vm ≡ some source_machine → IsSendable answers w
unfolding live_migration_worker_metadata_from_statuses refuses is_blank trim_space
sendable w e = record {
  able = refl;
  rows_found = refl;
  no_volume = refl;
  source = source_machine;
  source_found = e;
  shared = refl;
  version = codes "v40";
  version_known = refl;
  statuses = _;
  statuses_found = refl;
  worker = _;
  worker_found = refl;
  accepted = record { runtime = refl; live = refl; storage = λ e. cc; versions = inr (inr refl) };
  written = refl;
}

answers-IsCommittable : IsCommittable answers
unfolding parse_runtime_address host_port transaction_fails trim_space
answers-IsCommittable = record {
  runtime = _;
  finalized = refl;
  address = _;
  parsed = refl;
  row_found = refl;
  written = refl;
  committed = refl;
}

reconcile-IsSendable_example :
    ((reconcile 1 answers ready_to_send).0.migration.state ≡ sending)
    ↔ IsSendable answers ready_to_send
reconcile-IsSendable_example = reconcile-IsSendable answers ready_to_send refl

run-completes_example :
    let w' = run world (
      reconciles 2 answers
      ∷ reconciles 1 answers
      ∷ returns answers true
      ∷ reconciles 2 answers
      ∷ []) in
    (w'.migration.state ≡ completed) × (w'.instance_row.server_id ≡ 2) × (w'.instance_row.vm_id ≡ 9)
run-completes_example =
    run-completes answers answers answers answers world refl answers-IsPreparable
      (sendable world refl) refl answers-IsCommittable
