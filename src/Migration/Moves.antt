-- ===== src/Migration/Moves.antt =====
-- internal/migrationreconcile/reconcile.go: what a call of `Reconcile` may change.
use kindling.Base.{
  is_blank, ◌||◌, codes, text_eq, ℕ, ◌+◌, ◌≡◌, refl, ◌==◌, Bool, true, some, ℤ, Text, ◌⊎◌, inl, inr,
  Bool-cases, Option-cases,
}
use kindling.Migration.{
  update_aborted, commit, find_deployment, find_instance, update_sending,
  update_fallback_evacuating, Volume, found, broken, no_rows, update_prepared, update_failed,
  Server, State, pending, destination_prepared, sending, received, completed, failed, aborted,
  fallback_evacuating, FailureCode, cutover_timeout, Vm, World, Answers,
}
use kindling.Migration.Handler.{
  transaction_fails, live_migration_worker_metadata_from_statuses, is_usable_ip,
  migration_cutover_deadline, set_state, set_failure, fail_with, record_prepared,
  prepare_destination, abort_migration_from_source, refuses, start_sending, send_checked,
  send_from_source, parse_runtime_address, fall_back, swap_vm, commit_swap, commit_on_destination,
  is_overdue, after_end, reconcile_at, reconcile,
}

-- The server whose turn it is: the destination prepares and commits, the source sends.
abbrev pub IsTurn : ℕ → World → Type 0
IsTurn self w =
    ((w.migration.state ≡ pending) × (w.migration.destination_server == self ≡ true))
    ⊎ ((w.migration.state ≡ destination_prepared) × (w.migration.source_server == self ≡ true))

-- What the server `self` may do to a world.
pub data Change (self : ℕ) (a : Answers) (w : World) : World → Type 0 where
  stays : Change self a w w
  fails : IsTurn self w → (code : FailureCode) → Change self a w (set_failure failed code w)
  prepares :
      w.migration.state ≡ pending
      → w.migration.destination_server == self ≡ true
      → (addr : Text)
      → Change self a w (record w {
        migration = record w.migration {
          state = destination_prepared;
          receive_addr = addr;
          cutover_deadline_at = some (a.now + migration_cutover_deadline);
        };
      })
  sends :
      w.migration.state ≡ destination_prepared
      → w.migration.source_server == self ≡ true
      → Change self a w (record (set_state sending w) { in_flight = true })
  times_out :
      w.migration.state ≡ sending
      → is_overdue a.now w.migration.cutover_deadline_at ≡ true
      → (s : State) → ((s ≡ aborted) ⊎ (s ≡ fallback_evacuating))
      → Change self a w (set_failure s cutover_timeout w)
  falls_back :
      w.migration.state ≡ received
      → w.migration.destination_server == self ≡ true
      → (code : FailureCode) → Change self a w (set_failure fallback_evacuating code w)
  stops :
      w.migration.state ≡ received
      → w.migration.destination_server == self ≡ true
      → Change self a w (record w { stopped = w.stopped + 1 })
  completes :
      w.migration.state ≡ received
      → w.migration.destination_server == self ≡ true
      → (source : Vm) → w.vms w.migration.source_vm ≡ some source
      → (url ref ip : Text) (port : ℤ)
      → Change self a w (record (swap_vm a source url ref ip port w) { notified = w.notified + 1 })
  evacuates :
      w.migration.state ≡ fallback_evacuating
      → Change self a w (record w { scheduled = w.scheduled + 1 })

pub Volume-cases : (v : Volume) → (v ≡ found) ⊎ ((v ≡ broken) ⊎ (v ≡ no_rows))
Volume-cases found = inl refl
Volume-cases broken = inr (inl refl)
Volume-cases no_rows = inr (inr refl)

module _ (self : ℕ) (a : Answers) (w : World) where
  abbrev Ends : World × Bool → Type 0
  Ends r = Change self a w r.0

  fail_with-Ends : (code : FailureCode) → IsTurn self w → Ends (fail_with a code w)
  unfolding fail_with
  fail_with-Ends code t = elim (Bool-cases (a.fails update_failed)) [
    | inl h ↦ simp h stays
    | inr h ↦ simp h (fails t code)
  ]

  module _ (s : w.migration.state ≡ pending)
      (d : w.migration.destination_server == self ≡ true) where
    record_prepared-Ends : (server : Server) (addr : Text) → Ends (record_prepared a server addr w)
    unfolding record_prepared
    record_prepared-Ends server addr = elim (Option-cases (a.split_host_port addr)) [
      | inl k ↦ simp (k, record_prepared) (fail_with-Ends _ (inl (s, d)))
      | inr (hp, k) ↦ elim (Bool-cases (a.fails update_prepared)) [
        | inl h ↦ simp (k, record_prepared, h) stays
        | inr h ↦ simp (k, record_prepared, h) (prepares s d _)
      ]
    ]

    prepare_destination-Ends : Ends (prepare_destination a w)
    unfolding prepare_destination
    prepare_destination-Ends = elim (Bool-cases a.supports) [
      | inr lacks ↦ simp (lacks, prepare_destination) (fail_with-Ends _ (inl (s, d)))
      | inl able ↦ elim (Option-cases a.destination) [
        | inl k ↦ simp (able, k, prepare_destination) stays
        | inr (server, k) ↦ elim (Bool-cases (text_eq server.status (codes "active"))) [
          | inr h ↦ simp (able, k, h, prepare_destination) (fail_with-Ends _ (inl (s, d)))
          | inl h ↦ elim (Bool-cases (is_usable_ip server.internal_ip)) [
            | inr u ↦ simp (able, k, h, u, prepare_destination) (fail_with-Ends _ (inl (s, d)))
            | inl u ↦ elim (Option-cases a.prepared) [
              | inl p ↦ simp (able, k, h, u, p, prepare_destination) (fail_with-Ends _ (inl (s, d)))
              | inr (addr, p) ↦
                  simp (able, k, h, u, p, prepare_destination) (record_prepared-Ends server addr)
            ]
          ]
        ]
      ]
    ]

  module _ (s : w.migration.state ≡ destination_prepared)
      (d : w.migration.source_server == self ≡ true) where
    start_sending-Ends : Ends (start_sending a w)
    unfolding start_sending
    start_sending-Ends = elim (Bool-cases (a.fails update_sending)) [
      | inl h ↦ simp (h, start_sending) stays
      | inr h ↦ simp (h, start_sending) (sends s d)
    ]

    send_checked-Ends : Ends (send_checked a w)
    unfolding send_checked
    send_checked-Ends = elim (Option-cases a.source_version) [
      | inl k ↦ simp (k, send_checked) (fail_with-Ends _ (inr (s, d)))
      | inr (version, k) ↦ elim (Option-cases a.statuses) [
        | inl l ↦ simp (k, l, send_checked) stays
        | inr (statuses, l) ↦
            elim (Option-cases (live_migration_worker_metadata_from_statuses statuses)) [
              | inl m ↦ simp (k, l, m, send_checked) (fail_with-Ends _ (inr (s, d)))
              | inr (meta, m) ↦ elim (Option-cases (refuses version meta)) [
                | inl n ↦ simp (k, l, m, n, send_checked) start_sending-Ends
                | inr (code, n) ↦ simp (k, l, m, n, send_checked) (fail_with-Ends _ (inr (s, d)))
              ]
            ]
      ]
    ]

    send_from_source-Ends : Ends (send_from_source a w)
    unfolding send_from_source
    send_from_source-Ends = elim (Bool-cases a.supports) [
      | inr lacks ↦ simp (lacks, send_from_source) stays
      | inl able ↦ elim (Bool-cases (a.fails find_instance || a.fails find_deployment)) [
        | inl h ↦ simp (able, h, send_from_source) stays
        | inr h ↦ elim (Volume-cases a.volume) [
          | inl v ↦ simp (able, h, v, send_from_source) (fail_with-Ends _ (inr (s, d)))
          | inr (inl v) ↦ simp (able, h, v, send_from_source) stays
          | inr (inr v) ↦ elim (Option-cases (w.vms w.migration.source_vm)) [
            | inl k ↦ simp (able, h, v, k, send_from_source) stays
            | inr (vm, k) ↦ elim (Bool-cases (is_blank vm.shared_rootfs_ref)) [
              | inl b ↦ simp (able, h, v, k, b, send_from_source) (fail_with-Ends _ (inr (s, d)))
              | inr b ↦ simp (able, h, v, k, b, send_from_source) send_checked-Ends
            ]
          ]
        ]
      ]
    ]

  module _ (s : w.migration.state ≡ received)
      (d : w.migration.destination_server == self ≡ true) where
    fall_back-Ends : (code : FailureCode) → Ends (fall_back a code w)
    unfolding fall_back
    fall_back-Ends code = elim (Bool-cases (a.fails update_fallback_evacuating)) [
      | inl h ↦ simp (h, fall_back) stays
      | inr h ↦ simp (h, fall_back) (falls_back s d code)
    ]

    commit_on_destination-Ends : Ends (commit_on_destination a w)
    unfolding commit_on_destination commit_swap
    commit_on_destination-Ends = elim (Option-cases a.finalized) [
      | inl k ↦ simp (k, commit_on_destination) (fall_back-Ends _)
      | inr (f, k) ↦ elim (Option-cases (parse_runtime_address a f.0)) [
        | inl p ↦ simp (k, p, commit_on_destination) (fall_back-Ends _)
        | inr (ip, p) ↦ elim (Bool-cases (a.fails find_instance)) [
          | inl h ↦ simp (k, p, h, commit_on_destination) stays
          | inr h ↦ elim (Option-cases (w.vms w.migration.source_vm)) [
            | inl v ↦ simp (k, p, h, v, commit_on_destination) stays
            | inr (source, v) ↦ elim (Bool-cases (transaction_fails a)) [
              | inl t ↦ simp (k, p, h, v, t, commit_on_destination, commit_swap) stays
              | inr t ↦ elim (Bool-cases (a.fails commit)) [
                | inl c ↦ simp (k, p, h, v, t, c, commit_on_destination, commit_swap) (stops s d)
                | inr c ↦
                    simp (k, p, h, v, t, c, commit_on_destination, commit_swap)
                      (completes s d source v _ _ _ _)
              ]
            ]
          ]
        ]
      ]
    ]

  abort-Ends :
      w.migration.state ≡ sending
      → is_overdue a.now w.migration.cutover_deadline_at ≡ true
      → Ends (abort_migration_from_source a w)
  unfolding abort_migration_from_source
  abort-Ends s o = elim (Bool-cases (a.fails update_aborted)) [
    | inl h ↦ simp (h, abort_migration_from_source) stays
    | inr h ↦ elim (Bool-cases (a.fails update_fallback_evacuating)) [
      | inl k ↦ simp (h, k, abort_migration_from_source) (times_out s o aborted (inl refl))
      | inr k ↦
          simp (h, k, abort_migration_from_source) (times_out s o fallback_evacuating (inr refl))
    ]
  ]

  after_end-Ends :
      w.migration.state ≡ fallback_evacuating → Ends (after_end a fallback_evacuating w)
  unfolding after_end
  after_end-Ends s = elim (Bool-cases (a.fails find_instance)) [
    | inl h ↦ simp (h, after_end) stays
    | inr h ↦ simp (h, after_end) (evacuates s)
  ]

  reconcile_at-Ends : (s : State) → w.migration.state ≡ s → Ends (reconcile_at self a s w)
  unfolding reconcile_at after_end
  reconcile_at-Ends pending s = elim (Bool-cases (w.migration.destination_server == self)) [
    | inl d ↦ simp (d, reconcile_at) (prepare_destination-Ends s d)
    | inr d ↦ simp (d, reconcile_at) stays
  ]
  reconcile_at-Ends destination_prepared s = elim (Bool-cases (w.migration.source_server == self)) [
    | inl d ↦ simp (d, reconcile_at) (send_from_source-Ends s d)
    | inr d ↦ simp (d, reconcile_at) stays
  ]
  reconcile_at-Ends sending s =
      elim (Bool-cases (is_overdue a.now w.migration.cutover_deadline_at)) [
        | inl d ↦ simp (d, reconcile_at) (abort-Ends s d)
        | inr d ↦ simp (d, reconcile_at) stays
      ]
  reconcile_at-Ends received s = elim (Bool-cases (w.migration.destination_server == self)) [
    | inl d ↦ simp (d, reconcile_at) (commit_on_destination-Ends s d)
    | inr d ↦ simp (d, reconcile_at) stays
  ]
  reconcile_at-Ends completed s = stays
  reconcile_at-Ends failed s = stays
  reconcile_at-Ends aborted s = stays
  reconcile_at-Ends fallback_evacuating s = after_end-Ends s

-- Whatever the runtime, the database and the servers answer, a call of `Reconcile` changes a world
-- in one of the ways that `Change` lists, each with the state, the server and the deadline that it
-- needs, or not at all.
pub reconcile-Change : (self : ℕ) (a : Answers) (w : World) → Change self a w (reconcile self a w).0
unfolding reconcile
reconcile-Change self a w = reconcile_at-Ends self a w w.migration.state refl
