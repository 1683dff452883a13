-- ===== src/Autoscale/Sweep.antt =====
-- internal/autoscale/autoscale.go: what a whole sweep writes.
use kindling.Base.{
  sym, ap, ◌∙◌, if◌then◌else◌, ◌++◌, ◌||◌, ℕ, Bool, true, false, ◌≡◌, refl, Option, none, some,
  List, [], ◌∷◌, inl, inr, arith, ℤ, pos, ◌≤ℤ◌, ◌<ℤ◌, All, Option-cases, Bool-cases,
}
use kindling.Scaling.{Project, Service}
use kindling.Scaling.Bounds.{IsBounded}
use kindling.Autoscale.{
  DeploymentId, schedule_deployment_now, leb_ℤ, Float64, Store, Update, Progress,
  clamp_current_target, decide_target, figures, set_desired, sweep_service, sweep_services,
  sweep_projects, run_autoscale_sweep,
}
use kindling.Autoscale.Target.{compute_desired-bounds, decide_target-rises, decide_target-eq}

-- The projects that were read: none after an error.
abbrev pub listed {ℓ} : {A : Type ℓ} → Option (List A) → List A
listed none = []
listed (some xs) = xs

module _ (F : Float64) (q : Store F) (fast : Bool) (now : ℕ) (cap : ℤ) where
  -- A written count is at least one and at most `cap`; the fast sweep has raised it.
  abbrev pub IsSound : Update F → Type 0
  IsSound u = (pos 1 ≤ℤ u.to) × (u.to ≤ℤ cap) × (fast ≡ true → u.from <ℤ u.to)

  -- A project as the API stores it, with a maximum of at most `cap`.
  abbrev pub IsCapped : ℕ × Project → Type 0
  IsCapped p = IsBounded p.1 × (p.1.max_instance_count ≤ℤ cap)

  -- What may be scheduled: a deployment with a valid id, where there is a reconciler.
  abbrev pub scheduled_for : Option DeploymentId → List ℕ
  scheduled_for none = []
  scheduled_for (some none) = []
  scheduled_for (some (some id)) = if q.has_reconciler then id ∷ [] else []

  -- The latest running deployment of a service.
  abbrev pub deployment_of : ℕ → List ℕ
  deployment_of service = scheduled_for (q.deployment_latest_running_by_service_id service)

  abbrev pub deployments_of : List (Update F) → List ℕ
  deployments_of [] = []
  deployments_of (u ∷ us) = deployment_of u.service_id ++ deployments_of us

  -- The deployments of the services that were written have been scheduled, and no others.
  abbrev pub IsGood : Progress F → Type 0
  IsGood st = All IsSound st.updates × (st.scheduled ≡ deployments_of st.updates)

  if-append :
      (b : Bool) (id : ℕ) (ids : List ℕ)
      → (if b then id ∷ ids else ids) ≡ (if b then id ∷ [] else []) ++ ids
  if-append true id ids = refl
  if-append false id ids = refl

  schedule_now-append :
      (dep : DeploymentId) (scheduled : List ℕ)
      → schedule_deployment_now F q fast now dep scheduled ≡ scheduled_for (some dep) ++ scheduled
  unfolding schedule_deployment_now
  schedule_now-append none scheduled = refl
  schedule_now-append (some id) scheduled = if-append q.has_reconciler id scheduled

  set_desired-IsGood :
      (svc : Service) (current next : ℤ) (dep : DeploymentId) (st : Progress F)
      → q.deployment_latest_running_by_service_id svc.id ≡ some dep
      → pos 1 ≤ℤ next
      → next ≤ℤ cap
      → (fast ≡ true → current <ℤ next)
      → IsGood st
      → IsGood (set_desired F q fast now svc current next dep st)
  unfolding set_desired
  set_desired-IsGood svc current next dep st l a b c g =
      elim (Bool-cases (q.set_desired_succeeds svc.id)) [
        | inl e ↦ rw e (
          ((a, b, c), g.0),
          schedule_now-append dep st.scheduled
              ∙ ap (λ o. scheduled_for o ++ st.scheduled) (sym l)
              ∙ ap (λ xs. deployment_of svc.id ++ xs) g.1,
        )
        | inr e ↦ rw e g
      ]

  sweep_service-IsGood :
      (id : ℕ) (proj : Project) (svc : Service) (st : Progress F)
      → IsCapped (id, proj)
      → pos 0 <ℤ proj.max_instance_count
      → IsGood st
      → IsGood (sweep_service F q fast now proj svc st)
  unfolding sweep_service
  sweep_service-IsGood id proj svc st p m g =
      elim (Option-cases (q.deployment_latest_running_by_service_id svc.id)) [
        | inl e ↦ rw (e, sweep_service) g
        | inr (dep, e) ↦ elim (Option-cases (figures F q fast now dep)) [
          | inl k ↦ rw (e, sweep_service, k) g
          | inr ((rpm, cpu), k) ↦
              rw (e, sweep_service, k)
                (decided dep e rpm cpu (decide_target F fast now proj svc rpm cpu) refl)
        ]
      ]
    where
      decided :
          (dep : DeploymentId)
          → q.deployment_latest_running_by_service_id svc.id ≡ some dep
          → (rpm : F.Float) (cpu : Option F.Float) (d : Option ℤ)
          → decide_target F fast now proj svc rpm cpu ≡ d
          → IsGood (elim d [
            | none ↦ st
            | some next ↦ set_desired F q fast now svc (clamp_current_target proj svc) next dep st
          ])
      decided dep l rpm cpu none e = g
      decided dep l rpm cpu (some next) e =
          let in_bounds = compute_desired-bounds F proj svc rpm cpu p.0 m in
          let value = decide_target-eq F fast now proj svc rpm cpu e in
          set_desired-IsGood svc (clamp_current_target proj svc) next dep st l
            (rw value in_bounds.0) (rw value (omega (arith, in_bounds.2, p.1)))
            (λ f. decide_target-rises F fast now proj svc rpm cpu e (inl f)) g

  sweep_services-IsGood :
      (id : ℕ) (proj : Project) (svcs : List Service) (st : Progress F)
      → IsCapped (id, proj)
      → pos 0 <ℤ proj.max_instance_count
      → IsGood st
      → IsGood (sweep_services F q fast now proj svcs st)
  unfolding sweep_services
  sweep_services-IsGood id proj [] st p m g = g
  sweep_services-IsGood id proj (svc ∷ svcs) st p m g =
      sweep_services-IsGood id proj svcs (sweep_service F q fast now proj svc st) p m
        (sweep_service-IsGood id proj svc st p m g)

  sweep_projects-IsGood :
      (projs : List (ℕ × Project)) (st : Progress F)
      → All IsCapped projs
      → IsGood st
      → IsGood (sweep_projects F q fast now projs st)
  unfolding sweep_projects
  sweep_projects-IsGood [] st a g = g
  sweep_projects-IsGood ((id, proj) ∷ projs) st a g =
      sweep_projects-IsGood projs _ a.1
        (elim (Bool-cases (leb_ℤ proj.max_instance_count (pos 0) || proj.scaled_to_zero)) [
          | inl skip ↦ rw skip g
          | inr keep ↦ rw keep (elim (Option-cases (q.service_list_by_project_id id)) [
            | inl e ↦ rw e g
            | inr (svcs, e) ↦ rw e (sweep_services-IsGood id proj svcs st a.0 (ground arith) g)
          ])
        ])

  -- If the projects are within their bounds and no maximum is above `cap`, each count that a sweep
  -- writes is at least one and at most `cap`, and the fast sweep writes only counts above the current
  -- one; and the sweep schedules the latest running deployment of each service whose count it has
  -- written, in order, and nothing else, or nothing at all without a reconciler.
  pub run_sweep-IsGood :
      All IsCapped (listed q.project_find_all) → IsGood (run_autoscale_sweep F q fast now)
  unfolding run_autoscale_sweep
  run_sweep-IsGood bounded = answered q.project_find_all bounded
    where
      start : Progress F
      start = record { updates = []; scheduled = [] }

      answered :
          (o : Option (List (ℕ × Project)))
          → All IsCapped (listed o)
          → IsGood (elim o [ none ↦ start | some projs ↦ sweep_projects F q fast now projs start ])
      answered none a = (tt, refl)
      answered (some projs) a = sweep_projects-IsGood projs start a (tt, refl)
