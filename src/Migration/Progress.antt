-- ===== src/Migration/Progress.antt =====
-- internal/migrationreconcile/reconcile.go: when a migration is sent, and how it is completed.
use kindling.Base.{
  ℕ, ◌≡◌, refl, ◌∙◌, ap, ==_refl, Bool, true, false, ◌||◌, none, some, List, [], ◌∷◌, ℤ, Text,
  text_eq, codes, is_blank, Bool-cases, Option-cases, inl, inr, ◌↔◌, arith,
}
use kindling.Migration.{
  FailureCode, pending, destination_prepared, sending, received, completed, Vm, World, Server,
  no_rows, Answers, ComponentStatus, update_prepared, update_sending, update_received,
  find_instance, find_deployment, commit,
}
use kindling.Migration.Handler.{
  WorkerMetadata, set_state, fail_with, is_usable_ip, record_prepared, prepare_destination,
  live_migration_worker_metadata_from_statuses, refuses, start_sending, send_checked,
  send_from_source, send_returns, parse_runtime_address, swap_vm, transaction_fails, commit_swap,
  commit_on_destination, reconcile_at, reconcile, reconciles, returns, step, run,
}
use kindling.Migration.Moves.{Volume-cases}
use kindling.Migration.Checks.{Accepts, Accepts-refuses, refuses-Accepts}

-- What the source has to find before it sends.
pub record IsSendable (b : Answers) (w : World) : Type 0 where
  pub able : b.supports ≡ true
  pub rows_found : b.fails find_instance || b.fails find_deployment ≡ false
  pub no_volume : b.volume ≡ no_rows
  pub source : Vm
  pub source_found : w.vms w.migration.source_vm ≡ some source
  pub shared : is_blank source.shared_rootfs_ref ≡ false
  pub version : Text
  pub version_known : b.source_version ≡ some version
  pub statuses : List ComponentStatus
  pub statuses_found : b.statuses ≡ some statuses
  pub worker : WorkerMetadata
  pub worker_found : live_migration_worker_metadata_from_statuses statuses ≡ some worker
  pub accepted : Accepts version worker
  pub written : b.fails update_sending ≡ false

-- What the destination has to find before it prepares.
pub record IsPreparable (a : Answers) : Type 0 where
  pub able : a.supports ≡ true
  pub server : Server
  pub server_found : a.destination ≡ some server
  pub active : text_eq server.status (codes "active") ≡ true
  pub usable : is_usable_ip server.internal_ip ≡ true
  pub address : Text
  pub prepared : a.prepared ≡ some address
  pub parts : Text × Text
  pub split : a.split_host_port address ≡ some parts
  pub written : a.fails update_prepared ≡ false

-- What the destination has to find before it commits.
pub record IsCommittable (d : Answers) : Type 0 where
  pub runtime : Text × Text
  pub finalized : d.finalized ≡ some runtime
  pub address : Text × ℤ
  pub parsed : parse_runtime_address d runtime.0 ≡ some address
  pub row_found : d.fails find_instance ≡ false
  pub written : transaction_fails d ≡ false
  pub committed : d.fails commit ≡ false

prepared :
    (a : Answers) (w : World)
    → w.migration.state ≡ pending
    → IsPreparable a
    → let w' = (reconcile w.migration.destination_server a w).0 in
      (w'.migration.state ≡ destination_prepared)
      × (w'.migration.source_server ≡ w.migration.source_server)
      × (w'.migration.destination_server ≡ w.migration.destination_server)
      × (w'.migration.source_vm ≡ w.migration.source_vm)
      × (w'.vms ≡ w.vms)
unfolding reconcile reconcile_at prepare_destination record_prepared
prepared a w s p =
    simp
      (
        s,
        ==_refl w.migration.destination_server,
        p.able,
        p.server_found,
        p.active,
        p.usable,
        p.prepared,
        p.split,
        p.written,
        reconcile,
        reconcile_at,
        prepare_destination,
        record_prepared,
      )
      (refl, refl, refl, refl, refl)

sent :
    (self : ℕ) (b : Answers) (w : World)
    → w.migration.source_server ≡ self
    → w.migration.state ≡ destination_prepared
    → IsSendable b w
    → (reconcile self b w).0 ≡ record (set_state sending w) { in_flight = true }
unfolding reconcile reconcile_at send_from_source send_checked start_sending
sent self b w e s p =
    simp
      (
        s,
        e,
        ==_refl self,
        p.able,
        p.rows_found,
        p.no_volume,
        p.source_found,
        p.shared,
        p.version_known,
        p.statuses_found,
        p.worker_found,
        Accepts-refuses p.version p.worker p.accepted,
        p.written,
        reconcile,
        reconcile_at,
        send_from_source,
        send_checked,
        start_sending,
      )
      refl

arrived :
    (c : Answers) (w : World)
    → w.in_flight ≡ true
    → c.fails update_received ≡ false
    → (send_returns c true w).0 ≡ record (set_state received w) { in_flight = false }
unfolding send_returns
arrived c w f h = simp (f, h, send_returns) refl

committed :
    (self : ℕ) (d : Answers) (w : World) (source : Vm)
    → w.migration.destination_server ≡ self
    → w.migration.state ≡ received
    → w.vms w.migration.source_vm ≡ some source
    → IsCommittable d
    → let w' = (reconcile self d w).0 in
      (w'.migration.state ≡ completed)
      × (w'.instance_row.server_id ≡ self)
      × (w'.instance_row.vm_id ≡ d.new_vm_id)
unfolding reconcile reconcile_at commit_on_destination commit_swap swap_vm
committed self d w source e s v p =
    simp
      (
        s,
        e,
        ==_refl self,
        p.finalized,
        p.parsed,
        p.row_found,
        v,
        p.written,
        p.committed,
        reconcile,
        reconcile_at,
        commit_on_destination,
        commit_swap,
        swap_vm,
      )
      (refl, refl, refl)

module _ (b : Answers) (w : World) (s : w.migration.state ≡ destination_prepared) where
  IsSent : World × Bool → Type 0
  IsSent r = r.0.migration.state ≡ sending

  not-IsSent : (r : World × Bool) → r.0 ≡ w → ¬ IsSent r
  unfolding IsSent
  not-IsSent r e h = cc (ap (λ x. x.migration.state) e)

  failed_not-IsSent : (code : FailureCode) → ¬ IsSent (fail_with b code w)
  unfolding IsSent fail_with
  failed_not-IsSent code h = ground arith

  start_sent : IsSent (start_sending b w) → b.fails update_sending ≡ false
  unfolding IsSent start_sending
  start_sent h = ground arith

  -- The checks that need no row of the database.
  IsChecked : Type 0
  IsChecked =
      (version : Text) × (statuses : List ComponentStatus) × (worker : WorkerMetadata)
      × (b.source_version ≡ some version)
      × (b.statuses ≡ some statuses)
      × (live_migration_worker_metadata_from_statuses statuses ≡ some worker)
      × (refuses version worker ≡ none)
      × (b.fails update_sending ≡ false)

  send_checked_lem : IsSent (send_checked b w) → IsChecked
  unfolding send_checked IsChecked
  send_checked_lem h = elim (Option-cases b.source_version) [
    | inl k ↦ absurd (failed_not-IsSent _ (simp (k, send_checked) at h))
    | inr (version, k) ↦ elim (Option-cases b.statuses) [
      | inl l ↦ absurd (not-IsSent _ refl (simp (k, l, send_checked) at h))
      | inr (statuses, l) ↦
          elim (Option-cases (live_migration_worker_metadata_from_statuses statuses)) [
            | inl m ↦ absurd (failed_not-IsSent _ (simp (k, l, m, send_checked) at h))
            | inr (worker, m) ↦ elim (Option-cases (refuses version worker)) [
              | inr (code, n) ↦ absurd (failed_not-IsSent _ (simp (k, l, m, n, send_checked) at h))
              | inl n ↦
                  let written = start_sent (simp (k, l, m, n, send_checked) at h) in
                  (version, statuses, worker, k, l, m, n, written)
            ]
          ]
    ]
  ]

  checked-IsSendable : IsSent (send_from_source b w) → IsSendable b w
  unfolding send_from_source IsChecked
  checked-IsSendable h = elim (Bool-cases b.supports) [
    | inr lacks ↦ absurd (not-IsSent _ refl (simp (lacks, send_from_source) at h))
    | inl able ↦ elim (Bool-cases (b.fails find_instance || b.fails find_deployment)) [
      | inl f ↦ absurd (not-IsSent _ refl (simp (able, f, send_from_source) at h))
      | inr f ↦ elim (Volume-cases b.volume) [
        | inl v ↦ absurd (failed_not-IsSent _ (simp (able, f, v, send_from_source) at h))
        | inr (inl v) ↦ absurd (not-IsSent _ refl (simp (able, f, v, send_from_source) at h))
        | inr (inr v) ↦ elim (Option-cases (w.vms w.migration.source_vm)) [
          | inl k ↦ absurd (not-IsSent _ refl (simp (able, f, v, k, send_from_source) at h))
          | inr (vm, k) ↦ elim (Bool-cases (is_blank vm.shared_rootfs_ref)) [
            | inl r ↦ absurd (failed_not-IsSent _ (simp (able, f, v, k, r, send_from_source) at h))
            | inr r ↦
                let (version, statuses, worker, c1, c2, c3, c4, c5) =
                  send_checked_lem (simp (able, f, v, k, r, send_from_source) at h) in
                record {
                  able = able;
                  rows_found = f;
                  no_volume = v;
                  source = vm;
                  source_found = k;
                  shared = r;
                  version = version;
                  version_known = c1;
                  statuses = statuses;
                  statuses_found = c2;
                  worker = worker;
                  worker_found = c3;
                  accepted = refuses-Accepts version worker c4;
                  written = c5;
                }
          ]
        ]
      ]
    ]
  ]

-- The source server sends a prepared migration exactly when all checks of `IsSendable` hold and the
-- statements succeed: the runtime can migrate, there is no persistent volume, the machine has a shared
-- root file system, the version of the source can be read, and the worker on the destination runs the
-- hypervisor, has live migration enabled and a directory for shared storage, and its version is unknown,
-- or the source's is, or both are the same.
pub reconcile-IsSendable :
    (b : Answers) (w : World)
    → w.migration.state ≡ destination_prepared
    → ((reconcile w.migration.source_server b w).0.migration.state ≡ sending) ↔ IsSendable b w
unfolding reconcile reconcile_at IsSent
reconcile-IsSendable b w s = (
  λ h.
      checked-IsSendable b w s
        (simp (s, ==_refl w.migration.source_server, reconcile, reconcile_at) at h),
  λ p. ap (λ x. x.migration.state) (sent w.migration.source_server b w refl s p),
)

carried :
    {b : Answers} {w w' : World}
    → w'.migration.source_vm ≡ w.migration.source_vm
    → w'.vms ≡ w.vms
    → IsSendable b w
    → IsSendable b w'
carried {w} e f q = record {
  able = q.able;
  rows_found = q.rows_found;
  no_volume = q.no_volume;
  source = q.source;
  source_found = simp e (ap (λ m. m w.migration.source_vm) f ∙ q.source_found);
  shared = q.shared;
  version = q.version;
  version_known = q.version_known;
  statuses = q.statuses;
  statuses_found = q.statuses_found;
  worker = q.worker;
  worker_found = q.worker_found;
  accepted = q.accepted;
  written = q.written;
}

-- If every check and every statement succeeds, the two servers take a pending migration to its end:
-- the destination prepares, the source sends, the call returns, the destination commits, and the
-- instance is on the destination with the new machine.
pub run-completes :
    (a b c d : Answers) (w : World)
    → w.migration.state ≡ pending
    → IsPreparable a
    → IsSendable b w
    → c.fails update_received ≡ false
    → IsCommittable d
    → let w' = run w (
        reconciles w.migration.destination_server a
        ∷ reconciles w.migration.source_server b
        ∷ returns c true
        ∷ reconciles w.migration.destination_server d
        ∷ []) in
      (w'.migration.state ≡ completed)
      × (w'.instance_row.server_id ≡ w.migration.destination_server)
      × (w'.instance_row.vm_id ≡ d.new_vm_id)
unfolding run step
run-completes a b c d w s p q h r =
    let w1 = (reconcile w.migration.destination_server a w).0 in
    let w2 = (reconcile w.migration.source_server b w1).0 in
    let w3 = (send_returns c true w2).0 in
    let (s1, src, dst, vm, vms) = prepared a w s p in
    let q1 : IsSendable b w1 = carried vm vms q in
    let e2 = sent w.migration.source_server b w1 src s1 q1 in
    let e3 = arrived c w2 (ap (λ x. x.in_flight) e2) h in
    committed w.migration.destination_server d w3 q1.source
      (ap (λ x. x.migration.destination_server) e3
        ∙ (ap (λ x. x.migration.destination_server) e2 ∙ dst))
      (ap (λ x. x.migration.state) e3)
      (ap (λ x. x.vms x.migration.source_vm) e3
        ∙ (ap (λ x. x.vms x.migration.source_vm) e2 ∙ q1.source_found))
      r
