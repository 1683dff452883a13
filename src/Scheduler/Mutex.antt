-- ===== src/Scheduler/Mutex.antt =====
-- internal/reconciler/reconciler.go: an entity is in the hands of one worker at most.
use kindling.Base.{
  ℕ, ◌+◌, ◌≤◌, ◌≡◌, refl, ap, Bool, List, [], ◌∷◌, arith, if◌then◌else◌, length, count, erase,
  count-append, count-erase, length-append,
}
use kindling.Scheduler.{
  Scheduler, Config, new, set_schedule, dispatch_one, dispatch_due, take_work, finish, Event,
  schedules, ticks, receives, finishes, step, run, work_capacity,
}

-- `running` is exactly the set of entities in the channel or with a worker, each of them once.
pub record IsExclusive (s : Scheduler) : Type 0 where
  pub once : (id : ℕ) → count id s.work + count id s.busy ≡ (if s.running id then 1 else 0)
  pub bounded : length s.work ≤ work_capacity
  pub staffed : length s.busy ≤ s.workers

new-IsExclusive : (cfg : Config) → IsExclusive (new cfg)
unfolding new
new-IsExclusive cfg = record { once = λ id. refl; bounded = omega arith; staffed = omega arith }

set_schedule-IsExclusive :
    (id at : ℕ) (s : Scheduler) → IsExclusive s → IsExclusive (set_schedule id at s)
unfolding set_schedule
set_schedule-IsExclusive id at s v = record {
  once = v.once;
  bounded = v.bounded;
  staffed = v.staffed;
}

dispatch_one-IsExclusive :
    (now id : ℕ) (s : Scheduler) → IsExclusive s → IsExclusive (dispatch_one now id s)
unfolding dispatch_one
dispatch_one-IsExclusive now id s v = record {
  once = λ j. ground (arith, v.once j, v.once id, count-append j s.work (id ∷ []));
  bounded = ground (arith, v.bounded, length-append s.work (id ∷ []));
  staffed = ground (arith, v.staffed);
}

dispatch_due-IsExclusive :
    (now : ℕ) (order : List ℕ) (s : Scheduler)
    → IsExclusive s
    → IsExclusive (dispatch_due now order s)
unfolding dispatch_due
dispatch_due-IsExclusive now [] s v = v
dispatch_due-IsExclusive now (id ∷ order) s v =
    dispatch_due-IsExclusive now order _ (dispatch_one-IsExclusive now id s v)

take_work-IsExclusive :
    (w : List ℕ) (s : Scheduler) → s.work ≡ w → IsExclusive s → IsExclusive (take_work w s)
unfolding take_work
take_work-IsExclusive [] s e v = v
take_work-IsExclusive (id ∷ rest) s e v = record {
  once = λ j. ground (arith, v.once j, ap (count j) e);
  bounded = ground (arith, v.bounded, ap length e);
  staffed = ground (arith, v.staffed);
}

length-erase : (a : ℕ) (xs : List ℕ) → length (erase a xs) ≤ length xs
length-erase a [] = omega arith
length-erase a (x ∷ xs) = ground (arith, length-erase a xs)

finish-IsExclusive :
    (now id : ℕ) (failed : Bool) (s : Scheduler)
    → IsExclusive s
    → IsExclusive (finish now id failed s)
unfolding finish
finish-IsExclusive now id failed s v = record {
  once = λ j. ground (arith, v.once j, count-erase j id s.busy);
  bounded = ground (arith, v.bounded);
  staffed = ground (arith, v.staffed, length-erase id s.busy);
}

step-IsExclusive : (s : Scheduler) (e : Event) → IsExclusive s → IsExclusive (step s e)
unfolding step
step-IsExclusive s (schedules id at) v = set_schedule-IsExclusive id at s v
step-IsExclusive s (ticks now order) v = dispatch_due-IsExclusive now order s v
step-IsExclusive s receives v = take_work-IsExclusive s.work s refl v
step-IsExclusive s (finishes now id failed) v = finish-IsExclusive now id failed s v

run-IsExclusive : (s : Scheduler) (es : List Event) → IsExclusive s → IsExclusive (run s es)
unfolding run
run-IsExclusive s [] v = v
run-IsExclusive s (e ∷ es) v = run-IsExclusive (step s e) es (step-IsExclusive s e v)

-- After any events a new scheduler has each entity at most once in its channel and with its
-- workers together, `running` is exactly the set of these entities, the channel holds at most its
-- capacity, and no more entities are with workers than there are workers.
pub run-new-IsExclusive : (cfg : Config) (es : List Event) → IsExclusive (run (new cfg) es)
run-new-IsExclusive cfg es = run-IsExclusive (new cfg) es (new-IsExclusive cfg)
