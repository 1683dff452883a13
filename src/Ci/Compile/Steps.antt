-- ===== src/Ci/Compile/Steps.antt =====
-- internal/ci/compile.go, `compileStep`: every outcome of a step.
use kindling.Base.{
  text_eq_iff, subst, ap, some-inj, ◌∙◌, text_eq, if◌then◌else◌, map, sym, List, codes, none≢some,
  ◌≢◌, All, Option, ℕ, ◌≡◌, refl, true, false, none, some, [], ◌∷◌, Text, ◌⊎◌, inl, inr, is_blank,
  is_empty, trim_space, Bool-cases, Option-cases,
}
use kindling.Ci.{
  before, Result, ok, err, unsupported_action, step_without_action, WorkflowJob, WorkflowStep,
  CompiledStep, StepKind, run, checkout, setup_go, setup_node, upload_artifact, download_artifact,
  cache, paths_filter, ssh_agent, action_kind, kind_text,
}
use kindling.Ci.Compile.{normalize_uses, step_id, compile_step}

-- The action of a kind.
abbrev pub action_name : StepKind → Text
action_name run = []
action_name checkout = codes "actions/checkout"
action_name setup_go = codes "actions/setup-go"
action_name setup_node = codes "actions/setup-node"
action_name upload_artifact = codes "actions/upload-artifact"
action_name download_artifact = codes "actions/download-artifact"
action_name cache = codes "actions/cache"
action_name paths_filter = codes "dorny/paths-filter"
action_name ssh_agent = codes "webfactory/ssh-agent"

abbrev pub IsAction : StepKind → Text → Type 0
IsAction kind base = (kind ≢ run) × (base ≡ action_name kind)

abbrev pub actions : List StepKind
actions =
    checkout ∷ setup_go ∷ setup_node ∷ upload_artifact ∷ download_artifact ∷ cache ∷ paths_filter
    ∷ ssh_agent ∷ []

-- One case of the switch.
choose :
    (base : Text) (k kind : StepKind) (o : Option StepKind)
    → k ≢ run
    → (o ≡ some kind → IsAction kind base)
    → (if text_eq base (action_name k) then some k else o) ≡ some kind
    → IsAction kind base
choose base k kind o differs other h = elim (Bool-cases (text_eq base (action_name k))) [
  | inl e ↦
      let same : k ≡ kind = some-inj (simp e at h) in
      subst (λ x. IsAction x base) same (differs, (text_eq_iff base (action_name k)).0 e)
  | inr e ↦ other (simp e at h)
]

action_kind-IsAction :
    (base : Text) (kind : StepKind) → action_kind base ≡ some kind → IsAction kind base
unfolding action_kind
action_kind-IsAction base kind h =
    choose base checkout kind _ (λ e. cc)
      (choose base setup_go kind _ (λ e. cc)
        (choose base setup_node kind _ (λ e. cc)
          (choose base upload_artifact kind _ (λ e. cc)
            (choose base download_artifact kind _ (λ e. cc)
              (choose base cache kind _ (λ e. cc)
                (choose base paths_filter kind _ (λ e. cc)
                  (choose base ssh_agent kind _ (λ e. cc) (λ e. absurd (none≢some e)))))))))
      h

action_kind-unknown :
    (base : Text) → action_kind base ≡ none → All (λ k. base ≢ action_name k) actions
unfolding action_kind
action_kind-unknown base h =
    let no =
      λ (k : StepKind) (known : action_kind (action_name k) ≡ some k) (e : base ≡ action_name k).
        none≢some (sym h ∙ (ap action_kind e ∙ known)) in
    (
      no checkout refl,
      (
        no setup_go refl,
        (
          no setup_node refl,
          (
            no upload_artifact refl,
            (
              no download_artifact refl,
              (no cache refl, (no paths_filter refl, (no ssh_agent refl, tt))),
            ),
          ),
        ),
      ),
    )

module _ (lower : ℕ → ℕ) (digits : ℕ → Text) where
  -- What a step uses, in lower case and without blanks at its ends, up to the version after `@`.
  abbrev pub base_of : WorkflowStep → Text
  base_of step = before b'@' (trim_space (map lower step.uses))

  -- A step with a command is a `run` step, whatever it uses; one without is of the kind of its action.
  -- It has an id either way. An error tells that there is no command, and that there is no action or
  -- none that is known.
  abbrev pub Compiled : WorkflowStep → Result CompiledStep → Type 0
  Compiled step (ok cs) =
      (is_empty cs.id ≡ false)
      × (((is_blank step.run ≡ false) × (cs.kind ≡ run))
          ⊎ ((is_blank step.run ≡ true)
              × (is_blank step.uses ≡ false)
              × IsAction cs.kind (base_of step)))
  Compiled step (err e) =
      (is_blank step.run ≡ true)
      × (((is_blank step.uses ≡ true) × (e ≡ step_without_action))
          ⊎ (All (λ k. base_of step ≢ action_name k) actions × (e ≡ unsupported_action step.uses)))

  step_id_present :
      (id : Text) (kind : StepKind) (idx : ℕ) → is_empty (step_id lower digits id kind idx) ≡ false
  unfolding step_id kind_text
  step_id_present [] run idx = refl
  step_id_present [] checkout idx = refl
  step_id_present [] setup_go idx = refl
  step_id_present [] setup_node idx = refl
  step_id_present [] upload_artifact idx = refl
  step_id_present [] download_artifact idx = refl
  step_id_present [] cache idx = refl
  step_id_present [] paths_filter idx = refl
  step_id_present [] ssh_agent idx = refl
  step_id_present (c ∷ s) kind idx = refl

  -- Compiling a step: it succeeds with an id, as a `run` step if it has a command and else as the kind
  -- whose action it uses, by the table `action_name`; it fails exactly when it has neither a command nor
  -- an action of the table, with the error that says which.
  pub compile_step-Compiled :
      (job : WorkflowJob) (step : WorkflowStep) (idx : ℕ)
      → Compiled step (compile_step lower digits job step idx)
  unfolding compile_step normalize_uses
  compile_step-Compiled job step idx = elim (Bool-cases (is_blank step.run)) [
    | inr command ↦ simp command (step_id_present (trim_space step.id) run idx, inl (refl, refl))
    | inl plain ↦ elim (Bool-cases (is_blank step.uses)) [
      | inl no_action ↦ simp (plain, no_action) (refl, inl (refl, refl))
      | inr action ↦ elim (Option-cases (action_kind (normalize_uses lower digits step.uses))) [
        | inl unknown ↦
            simp (plain, action, unknown) (refl, inr (action_kind-unknown _ unknown, refl))
        | inr (kind, known) ↦
            simp (plain, action, known)
              (
                step_id_present (trim_space step.id) kind idx,
                inr (refl, refl, action_kind-IsAction _ kind known),
              )
      ]
    ]
  ]
