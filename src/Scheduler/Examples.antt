-- ===== src/Scheduler/Examples.antt =====
-- internal/reconciler/reconciler.go: runs of a scheduler, and the theorems at concrete inputs.
use kindling.Base.{◌≡◌, refl, true, List, [], ◌∷◌, ◌++◌, arith, pos, negsuc}
use kindling.Scheduler.{
  Scheduler, Config, new, set_schedule, take_work, dispatch_one, finish, dispatch_due, schedules,
  ticks, receives, finishes, step, run, Event,
}
use kindling.Scheduler.Mutex.{IsExclusive, run-new-IsExclusive}
use kindling.Scheduler.Tracked.{IsTracked, run_scheduled-IsTracked}

abbrev one_worker : Config
one_worker = record { workers = pos 1; retry_after = pos 0; default_after = negsuc 0 }

-- Two entities are due; one worker takes the first, which is re-scheduled and then fails.
abbrev busy_day : List Event
busy_day =
    schedules 7 100
    ∷ schedules 8 200
    ∷ ticks 300 (8 ∷ 7 ∷ [])
    ∷ receives
    ∷ receives
    ∷ schedules 8 400
    ∷ finishes 500 8 true
    ∷ []

busy_day_runs :
    ((run (new one_worker) busy_day).work ≡ 7 ∷ [])
    × ((run (new one_worker) busy_day).busy ≡ [])
    × ((run (new one_worker) busy_day).schedule 8 ≡ 5_000_000_500)
unfolding run step new set_schedule take_work dispatch_due dispatch_one finish
busy_day_runs = (refl, refl, refl)

run-new-IsExclusive_example : IsExclusive (run (new one_worker) busy_day)
run-new-IsExclusive_example = run-new-IsExclusive one_worker busy_day

run_scheduled-IsTracked_example :
    IsTracked 8 (run (new one_worker) ([] ++ schedules 8 200 ∷ ticks 300 (8 ∷ []) ∷ receives ∷ []))
run_scheduled-IsTracked_example =
    run_scheduled-IsTracked one_worker [] (ticks 300 (8 ∷ []) ∷ receives ∷ []) 8 200 (omega arith)
      (omega arith)

abbrev waiting : Scheduler
waiting = run (new one_worker) (schedules 7 100 ∷ schedules 8 900 ∷ [])

abbrev at_work : Scheduler
at_work = run (new one_worker) (schedules 7 100 ∷ ticks 300 (7 ∷ []) ∷ receives ∷ [])
