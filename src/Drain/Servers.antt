-- ===== src/Drain/Servers.antt =====
-- internal/serverreconcile/reconcile.go.
use kindling.Base.{
  ℕ, ◌==◌, ==_iff, ◌≡◌, refl, true, some, List, [], ◌∷◌, ◌⊎◌, if◌then◌else◌, arith, count,
}
use kindling.Scheduler.{Scheduler, set_schedule}
use kindling.Drain.{
  draining, drained, ServerWorld, ServerAnswers, schedule_all, finish_draining, drain_server,
  reconcile_status, reconcile_server,
}

schedule_all_lem :
    (now j : ℕ) (ids : List ℕ) (s : Scheduler)
    → (schedule_all now ids s).schedule j ≡ (if count j ids == 0 then s.schedule j else now)
unfolding schedule_all set_schedule
schedule_all_lem now j [] s = refl
schedule_all_lem now j (id ∷ ids) s =
    ground (arith, ==_iff id j, schedule_all_lem now j ids (set_schedule id now s))

-- A server becomes drained only while it is draining, once the database has answered that no instance
-- and no active migration is left on it.
reconcile_server-drained :
    (now : ℕ) (a : ServerAnswers) (w : ServerWorld)
    → (reconcile_server now a w).0.status ≡ drained
    → (w.status ≡ drained)
      ⊎ ((w.status ≡ draining) × (a.instances ≡ some 0) × (a.migrations ≡ some 0))
unfolding reconcile_server reconcile_status drain_server finish_draining
reconcile_server-drained now a w h = ground arith

-- While a server is draining, each deployment with instances on it is scheduled at once and the
-- schedules of all others stand, whatever the later statements answer.
reconcile_server-schedule :
    (now : ℕ) (a : ServerAnswers) (w : ServerWorld) (ids : List ℕ) (j : ℕ)
    → a.found ≡ true
    → w.status ≡ draining
    → a.deployments ≡ some ids
    → (reconcile_server now a w).0.scheduler.schedule j
      ≡ (if count j ids == 0 then w.scheduler.schedule j else now)
unfolding reconcile_server reconcile_status drain_server finish_draining
reconcile_server-schedule now a w ids j f s d =
    ground (arith, schedule_all_lem now j ids w.scheduler)
