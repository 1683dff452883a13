-- ===== src/Scheduler/Dispatch.antt =====
-- internal/reconciler/reconciler.go: what one tick and the end of one reconciliation do.
use native.Mathlib.Decide.{ℕ_discrete}
use kindling.Base.{
  ℕ, ◌+◌, ◌≤◌, ◌<◌, ◌≡◌, ◌≢◌, refl, ◌∙◌, Bool, true, false, List, [], ◌∷◌, arith, ◌⊎◌, inl, inr,
  count, length, length-append, count-append, ◌==◌, ==_iff, if◌then◌else◌,
}
use kindling.Scheduler.{
  Scheduler, set_schedule, dispatch_one, dispatch_due, finish, second, work_capacity, schedules,
  finishes, step,
}

-- The entity is due and idle.
abbrev pub IsDue : ℕ → ℕ → Scheduler → Type 0
IsDue now id s = (0 < s.schedule id) × (s.schedule id ≤ now) × (s.running id ≡ false)

-- The entity was sent to the workers, and its schedule cleared.
abbrev pub IsSent : ℕ → Scheduler → Type 0
IsSent id s = (s.running id ≡ true) × (s.schedule id ≡ 0) × (0 < count id s.work)

-- The channel was full: the entity is due again a second later.
abbrev pub IsDeferred : ℕ → ℕ → Scheduler → Type 0
IsDeferred now id s =
    (s.running id ≡ false) × (s.schedule id ≡ now + second) × (work_capacity ≤ length s.work)

module _ (now j : ℕ) where
  dispatch_one-IsSent : (id : ℕ) (s : Scheduler) → IsSent j s → IsSent j (dispatch_one now id s)
  unfolding dispatch_one
  dispatch_one-IsSent id s h = ground (arith, count-append j s.work (id ∷ []))

  dispatch_one-IsDeferred :
      (id : ℕ) (s : Scheduler) → IsDeferred now j s → IsDeferred now j (dispatch_one now id s)
  unfolding dispatch_one
  dispatch_one-IsDeferred id s h = ground (arith, length-append s.work (id ∷ []))

  dispatch_one-IsDue :
      (id : ℕ) (s : Scheduler) → id ≢ j → IsDue now j s → IsDue now j (dispatch_one now id s)
  unfolding dispatch_one
  dispatch_one-IsDue id s h d = ground (arith, ==_iff id j)

  dispatch_one_due :
      (s : Scheduler)
      → IsDue now j s
      → IsSent j (dispatch_one now j s) ⊎ IsDeferred now j (dispatch_one now j s)
  unfolding dispatch_one
  dispatch_one_due s d = ground (arith, count-append j s.work (j ∷ []))

  dispatch_due-IsSent :
      (order : List ℕ) (s : Scheduler) → IsSent j s → IsSent j (dispatch_due now order s)
  unfolding dispatch_due
  dispatch_due-IsSent [] s h = h
  dispatch_due-IsSent (id ∷ order) s h =
      dispatch_due-IsSent order (dispatch_one now id s) (dispatch_one-IsSent id s h)

  dispatch_due-IsDeferred :
      (order : List ℕ) (s : Scheduler)
      → IsDeferred now j s
      → IsDeferred now j (dispatch_due now order s)
  unfolding dispatch_due
  dispatch_due-IsDeferred [] s h = h
  dispatch_due-IsDeferred (id ∷ order) s h =
      dispatch_due-IsDeferred order (dispatch_one now id s) (dispatch_one-IsDeferred id s h)

  -- A tick that meets a due, idle entity in the schedule sends it to the workers, or puts it off by
  -- one second and has filled the channel.
  dispatch_due-IsDue :
      (order : List ℕ) (s : Scheduler)
      → 0 < count j order
      → IsDue now j s
      → IsSent j (dispatch_due now order s) ⊎ IsDeferred now j (dispatch_due now order s)
  unfolding dispatch_due
  dispatch_due-IsDue [] s m d = absurd (omega arith)
  dispatch_due-IsDue (id ∷ order) s m d = elim (ℕ_discrete id j) [
    | yes e ↦ rw e (elim (dispatch_one_due s d) [
      | inl h ↦ inl (dispatch_due-IsSent order (dispatch_one now j s) h)
      | inr h ↦ inr (dispatch_due-IsDeferred order (dispatch_one now j s) h)
    ])
    | no n ↦
        dispatch_due-IsDue order (dispatch_one now id s) (ground (arith, ==_iff id j))
          (dispatch_one-IsDue id s n d)
  ]

dispatch_one_not_due :
    (now j id : ℕ) (s : Scheduler)
    → ¬ IsDue now j s
    → ((dispatch_one now id s).schedule j ≡ s.schedule j)
      × ((dispatch_one now id s).running j ≡ s.running j)
unfolding dispatch_one
dispatch_one_not_due now j id s d = ground (arith, ==_iff id j)

-- A tick leaves alone the schedule and the mark of an entity that is not due or not idle.
dispatch_due-not_due :
    (now j : ℕ) (order : List ℕ) (s : Scheduler)
    → ¬ IsDue now j s
    → ((dispatch_due now order s).schedule j ≡ s.schedule j)
      × ((dispatch_due now order s).running j ≡ s.running j)
unfolding dispatch_due
dispatch_due-not_due now j [] s d = (refl, refl)
dispatch_due-not_due now j (id ∷ order) s d =
    let (p, q) = dispatch_one_not_due now j id s d in
    let (p', q') = dispatch_due-not_due now j order (dispatch_one now id s) (rw (p, q) d) in
    (p' ∙ p, q' ∙ q)

-- When an entity is re-scheduled while a worker has it, the time that stands after the worker is
-- done: the given one if the reconciliation succeeded (the default delay if the given one is the
-- zero time), and the retry delay, whatever time was given, if it failed.
finish-set_schedule :
    (s : Scheduler) (id at now : ℕ) (failed : Bool)
    → 0 < count id s.busy
    → (step (step s (schedules id at)) (finishes now id failed)).schedule id
      ≡ (if failed then now + s.retry_after else (if at == 0 then now + s.default_after else at))
unfolding step set_schedule finish
finish-set_schedule s id at now failed h = ground (arith, ==_iff id id)
