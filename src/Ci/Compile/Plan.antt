-- ===== src/Ci/Compile/Plan.antt =====
-- internal/ci/compile.go, `Compile`: what holds of a plan.
use kindling.Base.{
  sym, ℕ, ◌≡◌, refl, subst, true, false, ◌&&◌, some, List, [], ◌∷◌, ◌++◌, arith, Text, inl, inr,
  is_blank, is_empty, Bool-cases, Option-cases, All, if◌then◌else◌,
}
use kindling.Ci.{
  Result, ok, err, ◌>>=◌, Graph, lookup, sort_strings, ids, Dict, WorkflowJob, CompiledJob,
  DispatchInput, CompileRequest, ExecutionPlan, resolve_job_order, roots_or_all,
}
use kindling.Ci.Compile.{
  compile_job, compile_jobs, default_inputs, value_of, check_required, needs_of, select_event,
  compile,
}
use kindling.Ci.Topo.Order.{IsPlan, Planned, topo_sort_jobs-Planned}

-- What a chain that has succeeded went through.
ok_of_bind {ℓ κ} :
    {T : Type ℓ} {U : Type κ} {u : U} (first : Result T) (next : T → Result U)
    → ok u ≡ (first >>= next)
    → (t : T) × (ok u ≡ next t) × (first ≡ ok t)
ok_of_bind (err e) next h = cc
ok_of_bind (ok t) next h = (t, h, refl)

ok_injective {ℓ} : {A : Type ℓ} {a b : A} → ok a ≡ ok b → a ≡ b
ok_injective h = cc

-- A required input has a value that is not blank.
abbrev pub IsGiven : Dict → Text × DispatchInput → Type 0
IsGiven inputs p = p.1.required ≡ true → is_blank (value_of (lookup p.0 inputs)) ≡ false

check_required-IsGiven :
    (specs : List (Text × DispatchInput)) (inputs : Dict) {u : Unit {0}}
    → check_required specs inputs ≡ ok u
    → All (IsGiven inputs) specs
unfolding check_required
check_required-IsGiven [] inputs h = tt
check_required-IsGiven ((name, spec) ∷ specs) inputs h =
    elim (Bool-cases (spec.required && is_blank (value_of (lookup name inputs)))) [
      | inl bad ↦ cc (rw bad at h)
      | inr good ↦ (λ r. ground arith, check_required-IsGiven specs inputs (rw good at h))
    ]

-- The compiled jobs are those of the order, one by one.
abbrev pub Compiles :
    (ℕ → ℕ) → (ℕ → Text) → List (Text × WorkflowJob) → List Text → List CompiledJob → Type 0
Compiles lower digits jobs [] [] = Unit {0}
Compiles lower digits jobs [] (c ∷ cs) = ⊥
Compiles lower digits jobs (id ∷ order) [] = ⊥
Compiles lower digits jobs (id ∷ order) (c ∷ cs) =
    ((job : WorkflowJob) × (lookup id jobs ≡ some job) × (compile_job lower digits job ≡ ok c))
    × Compiles lower digits jobs order cs

module _ (lower : ℕ → ℕ) (digits : ℕ → Text) where
  compile_jobs-Compiles :
      (jobs : List (Text × WorkflowJob)) (order : List Text) (out : List CompiledJob)
      → compile_jobs lower digits jobs order ≡ ok out
      → Compiles lower digits jobs order out
  unfolding compile_jobs
  compile_jobs-Compiles jobs [] [] h = tt
  compile_jobs-Compiles jobs [] (c ∷ out) h = cc
  compile_jobs-Compiles jobs (id ∷ order) out h = elim (Option-cases (lookup id jobs)) [
    | inl missing ↦ cc (rw (missing, compile_jobs) at h)
    | inr (job, e) ↦
        let opened : (compile_job lower digits job >>= λ c.
        compile_jobs lower digits jobs order >>= λ rest. ok (c ∷ rest))
            ≡ ok out =
          rw (e, compile_jobs) at h in
        let (c, more, of_job) = ok_of_bind (compile_job lower digits job) _ (sym opened) in
        let (rest, done, of_rest) = ok_of_bind (compile_jobs lower digits jobs order) _ more in
        subst (Compiles lower digits jobs (id ∷ order)) (ok_injective (sym done))
          ((job, e, of_job), compile_jobs-Compiles jobs order rest of_rest)
  ]

  pub record IsCompiled (req : CompileRequest) (plan : ExecutionPlan) : Type 0 where
    pub event_known : is_empty plan.event ≡ false
    pub inputs_given : All (IsGiven plan.inputs) req.workflow.dispatch_input
    pub order : List Text
    pub sorted : resolve_job_order (needs_of req.workflow.jobs) req.job_id ≡ ok order
    pub in_order : Compiles lower digits req.workflow.jobs order plan.jobs

  select_event_lem :
      (req : CompileRequest) (event : Text) → select_event req ≡ ok event → is_empty event ≡ false
  unfolding select_event
  select_event_lem req event h = ground arith

  -- A plan names an event, gives every required input a value that is not blank, and holds the
  -- compiled jobs in the order that was resolved.
  pub compile-IsCompiled :
      (req : CompileRequest) (plan : ExecutionPlan)
      → compile lower digits req ≡ ok plan
      → IsCompiled req plan
  unfolding compile
  compile-IsCompiled req plan h =
      let inputs = req.inputs ++ default_inputs req.workflow.dispatch_input in
      let (event, h1, of_event) = ok_of_bind (select_event req) _ (sym h) in
      let (u, h2, of_inputs) =
        ok_of_bind (check_required req.workflow.dispatch_input inputs) _ h1 in
      let (order, h3, of_order) =
        ok_of_bind (resolve_job_order (needs_of req.workflow.jobs) req.job_id) _ h2 in
      let (jobs, h4, of_jobs) =
        ok_of_bind (compile_jobs lower digits req.workflow.jobs order) _ h3 in
      subst (IsCompiled req) (ok_injective (sym h4)) (record {
        event_known = select_event_lem req event of_event;
        inputs_given = check_required-IsGiven req.workflow.dispatch_input inputs of_inputs;
        order = order;
        sorted = of_order;
        in_order = compile_jobs-Compiles req.workflow.jobs order jobs of_jobs;
      })

-- The order of the jobs: with no selected job every job stands in it, and with one only that job
-- and its direct and indirect needs; either way each job stands once, behind its needs.
pub resolve_job_order-IsPlan :
    (jobs : Graph) (selected : Text) (out : List Text)
    → resolve_job_order jobs selected ≡ ok out
    → IsPlan jobs
        (if is_blank selected then roots_or_all jobs (sort_strings (ids jobs)) else selected ∷ [])
        out
unfolding resolve_job_order
resolve_job_order-IsPlan jobs selected out h = elim (Bool-cases (is_blank selected)) [
  | inl blank ↦ simp blank (
      subst (Planned jobs (roots_or_all jobs (sort_strings (ids jobs)))) (simp blank at h)
        (topo_sort_jobs-Planned jobs (sort_strings (ids jobs))))
  | inr chosen ↦ elim (Option-cases (lookup selected jobs)) [
    | inl missing ↦ cc (rw (chosen, missing) at h)
    | inr (needs, e) ↦ simp chosen (
        subst (Planned jobs (selected ∷ [])) (rw (chosen, e) at h)
          (topo_sort_jobs-Planned jobs (selected ∷ [])))
  ]
]
