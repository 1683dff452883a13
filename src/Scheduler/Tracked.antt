-- ===== src/Scheduler/Tracked.antt =====
-- internal/reconciler/reconciler.go: no entity is forgotten.
use kindling.Base.{ℕ, ◌<◌, ◌≡◌, Bool, true, List, [], ◌∷◌, ◌++◌, arith, All, ◌⊎◌}
use kindling.Scheduler.{
  Scheduler, Config, new, set_schedule, dispatch_one, dispatch_due, take_work, finish, Event,
  schedules, ticks, receives, finishes, step, run,
}

-- The entity has a time in the schedule, or is in the channel or with a worker.
abbrev pub IsTracked : ℕ → Scheduler → Type 0
IsTracked id s = (0 < s.schedule id) ⊎ (s.running id ≡ true)

-- The delays are positive, as `New` makes them.
pub record IsConfigured (s : Scheduler) : Type 0 where
  pub retries : 0 < s.retry_after
  pub rechecks : 0 < s.default_after

-- `Schedule` is not called with Go's zero time.
abbrev pub IsTimed : Event → Type 0
IsTimed (schedules id at) = 0 < at
IsTimed _ = Unit {0}

new-IsConfigured : (cfg : Config) → IsConfigured (new cfg)
unfolding new
new-IsConfigured cfg = ground arith

dispatch_due-IsConfigured :
    (now : ℕ) (order : List ℕ) (s : Scheduler)
    → IsConfigured s
    → IsConfigured (dispatch_due now order s)
unfolding dispatch_due dispatch_one
dispatch_due-IsConfigured now [] s c = c
dispatch_due-IsConfigured now (id ∷ order) s c =
    dispatch_due-IsConfigured now order (dispatch_one now id s) (ground arith)

take_work-IsConfigured :
    (w : List ℕ) (s : Scheduler) → IsConfigured s → IsConfigured (take_work w s)
unfolding take_work
take_work-IsConfigured [] s c = c
take_work-IsConfigured (id ∷ rest) s c = ground arith

step-IsConfigured : (s : Scheduler) (e : Event) → IsConfigured s → IsConfigured (step s e)
unfolding step set_schedule finish
step-IsConfigured s (schedules id at) c = ground arith
step-IsConfigured s (ticks now order) c = dispatch_due-IsConfigured now order s c
step-IsConfigured s receives c = take_work-IsConfigured s.work s c
step-IsConfigured s (finishes now id failed) c = ground arith

dispatch_one-IsTracked :
    (now id j : ℕ) (s : Scheduler) → IsTracked j s → IsTracked j (dispatch_one now id s)
unfolding dispatch_one
dispatch_one-IsTracked now id j s t = ground arith

dispatch_due-IsTracked :
    (now : ℕ) (order : List ℕ) (j : ℕ) (s : Scheduler)
    → IsTracked j s
    → IsTracked j (dispatch_due now order s)
unfolding dispatch_due
dispatch_due-IsTracked now [] j s t = t
dispatch_due-IsTracked now (id ∷ order) j s t =
    dispatch_due-IsTracked now order j (dispatch_one now id s) (dispatch_one-IsTracked now id j s t)

take_work-IsTracked :
    (w : List ℕ) (j : ℕ) (s : Scheduler) → IsTracked j s → IsTracked j (take_work w s)
unfolding take_work
take_work-IsTracked [] j s t = t
take_work-IsTracked (id ∷ rest) j s t = ground arith

finish-IsTracked :
    (now id : ℕ) (failed : Bool) (j : ℕ) (s : Scheduler)
    → IsConfigured s
    → IsTracked j s
    → IsTracked j (finish now id failed s)
unfolding finish
finish-IsTracked now id failed j s c t = ground arith

step-IsTracked :
    (s : Scheduler) (e : Event) (j : ℕ)
    → IsConfigured s
    → IsTimed e
    → IsTracked j s
    → IsTracked j (step s e)
unfolding step set_schedule
step-IsTracked s (schedules id at) j c w t = ground arith
step-IsTracked s (ticks now order) j c w t = dispatch_due-IsTracked now order j s t
step-IsTracked s receives j c w t = take_work-IsTracked s.work j s t
step-IsTracked s (finishes now id failed) j c w t = finish-IsTracked now id failed j s c t

run-IsTracked :
    (s : Scheduler) (es : List Event) (j : ℕ)
    → IsConfigured s
    → All IsTimed es
    → IsTracked j s
    → IsTracked j (run s es)
unfolding run
run-IsTracked s [] j c w t = t
run-IsTracked s (e ∷ es) j c w t =
    run-IsTracked (step s e) es j (step-IsConfigured s e c) w.1 (step-IsTracked s e j c w.0 t)

run_scheduled :
    (s : Scheduler) (before after : List Event) (id at : ℕ)
    → IsConfigured s
    → 0 < at
    → All IsTimed after
    → IsTracked id (run s (before ++ schedules id at ∷ after))
unfolding run
run_scheduled s [] after id at c h w =
    run-IsTracked (step s (schedules id at)) after id (step-IsConfigured s (schedules id at) c) w
      (unfold step set_schedule in ground arith)
run_scheduled s (e ∷ before) after id at c h w =
    run_scheduled (step s e) before after id at (step-IsConfigured s e c) h w

-- An entity that was scheduled once, at a time that is not Go's zero time, stays scheduled at some
-- such time or in the hands of the scheduler, whatever happens before and after (failed
-- reconciliations and a full channel included), as long as no later call of `Schedule` gives the
-- zero time.
pub run_scheduled-IsTracked :
    (cfg : Config) (before after : List Event) (id at : ℕ)
    → 0 < at
    → All IsTimed after
    → IsTracked id (run (new cfg) (before ++ schedules id at ∷ after))
run_scheduled-IsTracked cfg before after id at h w =
    run_scheduled (new cfg) before after id at (new-IsConfigured cfg) h w
