-- ===== src/Migration/States.antt =====
-- internal/migrationreconcile/reconcile.go: the states of a migration.
use kindling.Base.{[], ◌∷◌, ◌⊎◌, if◌then◌else◌, ℕ, ◌≡◌, refl, Bool, true, false, inl, inr, arith}
use kindling.Migration.{
  update_received, update_fallback_evacuating, cutover_timeout, update_aborted, State, pending,
  destination_prepared, sending, received, completed, failed, aborted, fallback_evacuating, World,
  Answers,
}
use kindling.Migration.Handler.{
  returns, reconciles, set_failure, is_overdue, send_returns, run, abort_migration_from_source,
  reconcile_at, step, swap_vm, reconcile,
}
use kindling.Migration.Moves.{
  Change, stays, fails, prepares, sends, times_out, falls_back, stops, completes, evacuates,
  reconcile-Change,
}

-- The steps between the states.
pub is_allowed : State → State → Bool
is_allowed pending pending = true
is_allowed pending destination_prepared = true
is_allowed pending failed = true
is_allowed destination_prepared destination_prepared = true
is_allowed destination_prepared sending = true
is_allowed destination_prepared failed = true
is_allowed sending sending = true
is_allowed sending aborted = true
is_allowed sending fallback_evacuating = true
is_allowed received received = true
is_allowed received completed = true
is_allowed received fallback_evacuating = true
is_allowed completed completed = true
is_allowed failed failed = true
is_allowed aborted aborted = true
is_allowed fallback_evacuating fallback_evacuating = true
is_allowed _ _ = false

allowed_refl : (s : State) → is_allowed s s ≡ true
unfolding is_allowed
allowed_refl pending = refl
allowed_refl destination_prepared = refl
allowed_refl sending = refl
allowed_refl received = refl
allowed_refl completed = refl
allowed_refl failed = refl
allowed_refl aborted = refl
allowed_refl fallback_evacuating = refl

Change-allowed :
    (self : ℕ) (a : Answers) (w w' : World)
    → Change self a w w'
    → is_allowed w.migration.state w'.migration.state ≡ true
unfolding is_allowed swap_vm
Change-allowed self a w _ stays = allowed_refl w.migration.state
Change-allowed self a w _ (fails (inl (s, d)) code) = simp s refl
Change-allowed self a w _ (fails (inr (s, d)) code) = simp s refl
Change-allowed self a w _ (prepares s d addr) = simp s refl
Change-allowed self a w _ (sends s d) = simp s refl
Change-allowed self a w _ (times_out s o t (inl e)) = simp (s, e) refl
Change-allowed self a w _ (times_out s o t (inr e)) = simp (s, e) refl
Change-allowed self a w _ (falls_back s d code) = simp s refl
Change-allowed self a w _ (stops s d) = allowed_refl w.migration.state
Change-allowed self a w _ (completes s d source v url ref ip port) = simp s refl
Change-allowed self a w _ (evacuates s) = allowed_refl w.migration.state

-- A call of `Reconcile` on any server keeps the state or takes it along one of the steps of
-- `is_allowed`, none of which leaves `completed`, `failed`, `aborted` or `fallback_evacuating`.
reconcile_allowed :
    (self : ℕ) (a : Answers) (w : World)
    → is_allowed w.migration.state (reconcile self a w).0.migration.state ≡ true
reconcile_allowed self a w = Change-allowed self a w _ (reconcile-Change self a w)

-- A timed-out migration is not final while `SendMigration` runs: if the call succeeds after the
-- migration was given up for evacuation, the state is `received` again, and so it is whichever server
-- gave it up, as long as the statements of the database succeed.
received_after_timeout :
    (self : ℕ) (a b : Answers) (w : World)
    → w.migration.state ≡ sending
    → w.in_flight ≡ true
    → is_overdue a.now w.migration.cutover_deadline_at ≡ true
    → a.fails update_aborted ≡ false
    → a.fails update_fallback_evacuating ≡ false
    → b.fails update_received ≡ false
    → ((step w (reconciles self a)).migration.state ≡ fallback_evacuating)
      × ((run w (reconciles self a ∷ returns b true ∷ [])).migration.state ≡ received)
unfolding step run reconcile reconcile_at abort_migration_from_source send_returns
received_after_timeout self a b w s f o ha hf hr =
    simp
      (
        s, o, ha, hf, hr, f, step, run, reconcile, reconcile_at, abort_migration_from_source,
        send_returns,
      )
      (refl, refl)

-- A migration that is being sent waits: before its deadline no call of `Reconcile`, on any server,
-- changes it, and after the deadline a call on any server gives it up for evacuation, or has failed
-- to write that.
sending_lem :
    (self : ℕ) (a : Answers) (w : World)
    → w.migration.state ≡ sending
    → if is_overdue a.now w.migration.cutover_deadline_at
      then ((reconcile self a w).1 ≡ true
          → (reconcile self a w).0 ≡ set_failure fallback_evacuating cutover_timeout w)
        × ((reconcile self a w).1 ≡ false
            → (a.fails update_aborted ≡ true) ⊎ (a.fails update_fallback_evacuating ≡ true))
      else reconcile self a w ≡ (w, true)
unfolding reconcile reconcile_at abort_migration_from_source
sending_lem self a w s = simp s (ground arith)
