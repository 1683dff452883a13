-- ===== src/Preview/Expired.antt =====
-- internal/preview/cleanup.go: the environments that a clean-up deletes.
use kindling.Base.{
  false≢true, ℕ, Bool, true, false, not, ◌&&◌, ◌||◌, ◌==◌, List, [], ◌∷◌, arith, ◌≡◌, refl, inl,
  inr, Bool-cases, sym, ◌∙◌, ap,
}
use kindling.Preview.Cleanup.{
  Environment, World, Calls, has, without, mark_stopped, schedule_deployments,
  stop_environment_deployments, delete_environment, cleanup_environment_now, cleanup_all,
  run_cleanup_once, due_for_cleanup,
}
use kindling.Preview.Cleaned.{==-same, halted}

abbrev pub has_environment : ℕ → List Environment → Bool
has_environment env [] = false
has_environment env (e ∷ es) = e.id == env || has_environment env es

-- The calls for an environment have no error.
abbrev pub Succeeds : Calls → ℕ → Type 0
Succeeds c env = (c.lists env ≡ true) × (c.marks env ≡ true) × (c.deletes env ≡ true)

has-without :
    (env e : ℕ) (es : List Environment)
    → has_environment env (without e es) ≡ has_environment env es && not (env == e)
has-without env e [] = refl
has-without env e (x ∷ es) = elim (Bool-cases (x.id == e)) [
  | inl k ↦ rw k (has-without env e es ∙ grind arith)
  | inr k ↦ rw (k, has-without env e es) (grind arith)
]

halted-environments : (c : Calls) (e : ℕ) (w : World) → (halted c e w).environments ≡ w.environments
unfolding schedule_deployments mark_stopped
halted-environments c e w = elim (Bool-cases c.scheduler) [ inl s ↦ rw s refl | inr s ↦ rw s refl ]

module _ (c : Calls) (env : ℕ) (ok : Succeeds c env) where
  -- A call that fails is for another environment.
  other :
      (e : ℕ) (es : List Environment) {t : Bool}
      → (e ≡ env → t ≡ true)
      → t ≡ false
      → has_environment env es ≡ has_environment env es && not (env == e)
  other e es f t = elim (Bool-cases (env == e)) [
    | inl q ↦ absurd (false≢true (sym t ∙ f (sym (==-same env e q))))
    | inr q ↦ rw q (ground arith)
  ]

  delete-has :
      (e : ℕ) (w : World)
      → has_environment env (delete_environment c e w).1.environments
        ≡ has_environment env w.environments && not (env == e)
  unfolding delete_environment
  delete-has e w = elim (Bool-cases (c.deletes e)) [
    | inl t ↦ rw t (has-without env e w.environments)
    | inr t ↦ rw t (other e w.environments (λ q. ap c.deletes q ∙ ok.2) t)
  ]

  cleanup-has :
      (e : ℕ) (w : World)
      → has_environment env (cleanup_environment_now c e w).1.environments
        ≡ has_environment env w.environments && not (env == e)
  unfolding cleanup_environment_now stop_environment_deployments
  cleanup-has e w = elim (Bool-cases (c.lists e)) [
    | inr t ↦ rw t (other e w.environments (λ q. ap c.lists q ∙ ok.0) t)
    | inl t ↦ elim (Bool-cases (c.marks e)) [
      | inr m ↦ rw (t, m) (other e w.environments (λ q. ap c.marks q ∙ ok.1) m)
      | inl m ↦
          rw (t, m)
            (delete-has e (halted c e w)
              ∙ ap (λ es. has_environment env es && not (env == e)) (halted-environments c e w))
    ]
  ]

  all-has :
      (envs : List ℕ) (w : World)
      → has_environment env (cleanup_all c envs w).environments
        ≡ has_environment env w.environments && not (has env envs)
  unfolding cleanup_all
  all-has [] w = ground arith
  all-has (e ∷ envs) w =
      all-has envs (cleanup_environment_now c e w).1 ∙ rw (cleanup-has e w) (ground arith)

-- A clean-up that gets the lock and the list of what is due, where the calls for an environment have no
-- error: afterwards the environment is there if and only if it was there and is not due, whatever happens to the others.
pub run_cleanup_once-due :
    (c : Calls) (w : World) (env : ℕ)
    → Succeeds c env
    → (c.connects ≡ true) × (c.locks ≡ true) × (c.lists_due ≡ true)
    → has_environment env (run_cleanup_once c w).environments
      ≡ has_environment env w.environments && not (has env (due_for_cleanup c.now w.environments))
unfolding run_cleanup_once
run_cleanup_once-due c w env ok (a, b, d) =
    simp (a, b, d) (all-has c env ok (due_for_cleanup c.now w.environments) w)
