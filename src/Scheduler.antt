-- ===== src/Scheduler.antt =====
-- internal/reconciler/reconciler.go: the scheduler of declarative convergence loops.
--
-- `schedule` is the map `s.schedule`: a Go map read at a missing key gives the zero time, and every
-- read of the code treats the two alike, so the map is a function whose default is the zero time.
-- A time is a number of nanoseconds since Go's zero time, which is 0. `running` is the set
-- `s.running`, `work` the buffered channel, oldest first, and `busy` holds the entity of each worker
-- that is inside `s.reconcile`. Each step stands for one critical section under `s.mu`.
mod Examples
pub mod Mutex
pub mod Tracked
pub mod Dispatch
use kindling.Base.{
  ◌*◌, ℕ, zero, suc, ◌+◌, ◌-◌, ◌≤◌, ◌<◌, ◌≡◌, Bool, true, false, not, ◌||◌, ◌&&◌, List, [], ◌∷◌,
  ◌++◌, ltb, leb, ◌==◌, if◌then◌else◌, length, count, erase, put, ℤ, pos, negsuc, leb_ℤ,
}

pub record Scheduler : Type 0 where
  pub workers : ℕ
  pub schedule : ℕ → ℕ
  pub running : ℕ → Bool
  pub work : List ℕ
  pub busy : List ℕ
  pub retry_after : ℕ
  pub default_after : ℕ

-- A duration in nanoseconds.
abbrev pub second : ℕ
second = 1_000_000_000

abbrev pub default_retry_after : ℕ
default_retry_after = 5 * second

abbrev pub default_reconcile_after : ℕ
default_reconcile_after = 3600 * second

-- The capacity of the channel `work`.
abbrev pub work_capacity : ℕ
work_capacity = 100

pub record Config : Type 0 where
  pub workers : ℤ
  pub retry_after : ℤ
  pub default_after : ℤ

-- `if x <= 0 { x = d }`.
or_default : ℤ → ℕ → ℕ
or_default (pos zero) d = d
or_default (pos (suc n)) d = suc n
or_default (negsuc n) d = d

unfoldable pub new : Config → Scheduler
unfolding or_default
new cfg = record {
  workers = or_default cfg.workers 5;
  schedule = λ _. 0;
  running = λ _. false;
  work = [];
  busy = [];
  retry_after = or_default cfg.retry_after default_retry_after;
  default_after = or_default cfg.default_after default_reconcile_after;
}

-- `Schedule`; `ScheduleNow` is the call at the present time.
unfoldable pub set_schedule : ℕ → ℕ → Scheduler → Scheduler
set_schedule id at s = record s { schedule = put id at s.schedule }

abbrev pub schedule_now : ℕ → ℕ → Scheduler → Scheduler
schedule_now now id s = set_schedule id now s

-- One round of the loop of `dispatchDue`, with the send that the `select` tries.
pub dispatch_one : ℕ → ℕ → Scheduler → Scheduler
dispatch_one now id s =
    if s.schedule id == 0 || ltb now (s.schedule id) || s.running id
    then s
    else if ltb (length s.work) work_capacity
    then record s {
      running = put id true s.running;
      schedule = put id 0 s.schedule;
      work = s.work ++ id ∷ [];
    }
    else record s { running = put id false s.running; schedule = put id (now + second) s.schedule }

-- `dispatchDue`. Go ranges over a map in any order, which `order` gives.
pub dispatch_due : ℕ → List ℕ → Scheduler → Scheduler
dispatch_due now [] s = s
dispatch_due now (id ∷ order) s = dispatch_due now order (dispatch_one now id s)

-- A free worker takes the oldest entity off the channel.
pub take_work : List ℕ → Scheduler → Scheduler
take_work [] s = s
take_work (id ∷ rest) s =
    if ltb (length s.busy) s.workers then record s { work = rest; busy = id ∷ s.busy } else s

-- The critical section of `worker` after `s.reconcile` has returned, with an error if `failed`.
pub finish : ℕ → ℕ → Bool → Scheduler → Scheduler
finish now id failed s = if count id s.busy == 0 then s else record s {
  running = put id false s.running;
  busy = erase id s.busy;
  schedule =
      if failed
      then put id (now + s.retry_after) s.schedule
      else (if s.schedule id == 0 then put id (now + s.default_after) s.schedule else s.schedule);
}

-- What happens to a running scheduler, in the order in which the lock is taken.
pub data Event : Type 0 where
  schedules : ℕ → ℕ → Event
  ticks : ℕ → List ℕ → Event
  receives : Event
  finishes : ℕ → ℕ → Bool → Event

unfoldable pub step : Scheduler → Event → Scheduler
step s (schedules id at) = set_schedule id at s
step s (ticks now order) = dispatch_due now order s
step s receives = take_work s.work s
step s (finishes now id failed) = finish now id failed s

unfoldable pub run : Scheduler → List Event → Scheduler
run s [] = s
run s (e ∷ es) = run (step s e) es
