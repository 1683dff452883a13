-- ===== src/Deploy/Reconcile.antt =====
-- internal/deploy/deploy.go, `ReconcileDeployment` up to the instances and from the count of the ready
-- ones on, and internal/deploy/deploy_build.go.
use kindling.Base.{
  ℕ, ◌*◌, ◌==◌, ltb, Bool, true, false, not, ◌&&◌, ◌||◌, Option, none, some, List, [], ◌∷◌,
  if◌then◌else◌,
}
use kindling.Scaling.{is_some}
use kindling.Volumes.{Volume, unavailable}
use kindling.Deploy.{World, Site, Env, DeploymentRow, DeploymentKind, BuildRow, InstanceRow, VmRow}
use kindling.Deploy.Store.{
  Action, pure, fail, ◌>>=◌, ◌>>◌, attempt, ignore, when, find_vm, soft_delete_vm, live, kept,
  project_volume_for_deployment,
}
use kindling.Deploy.Assignment.{on_vm, delete_instance_permanently}
use kindling.Deploy.Resume.{call}
use kindling.Deploy.Instance.{Pass, reconcile_one_instance}
use kindling.Deploy.Placement.{
  VolumeResult, ready, unreachable, refused, ensure_project_volume_server, with_status,
}

abbrev pub seconds : ℕ → ℕ
seconds n = n * 1000000000

-- `scheduleRetry`.
abbrev pub schedule_retry : ℕ → Action (Unit {0})
schedule_retry delay w = (some tt, record w { retries = delay ∷ w.retries })

abbrev pub is_preview : DeploymentKind → Bool
is_preview DeploymentKind.production = false
is_preview DeploymentKind.preview = true

-- A statement on the row of the deployment.
unfoldable pub update_deployment :
    Env → Site → (DeploymentRow → DeploymentRow) → Action DeploymentRow
update_deployment e s f w =
    if e.fails s
    then (none, w)
    else (some (f w.deployment), record w { deployment = f w.deployment })

-- `DeploymentInstanceFindByDeploymentID`.
unfoldable pub list_instances : (ℕ → Option InstanceRow) → List ℕ → List (ℕ × InstanceRow)
list_instances rows [] = []
list_instances rows (id ∷ ids) =
    let rest = list_instances rows ids in
    elim (live (rows id)) [ none ↦ rest | some inst ↦ (id, inst) ∷ rest ]

-- Each deletion has its own answers.
unfoldable pub delete_instances : (ℕ → Env) → List (ℕ × InstanceRow) → Action (Unit {0})
delete_instances es [] = pure tt
delete_instances es ((id, inst) ∷ rows) = do
  delete_instance_permanently (es id) id inst
  delete_instances es rows

unfoldable pub cleanup_deployment_all_instances : Env → (ℕ → Env) → Action (Unit {0})
cleanup_deployment_all_instances e es w =
    if e.fails Site.list_instances
    then (some tt, w)
    else delete_instances es (list_instances w.instances w.ids) w

abbrev pub vm_live : Option VmRow → Bool
vm_live none = false
vm_live (some vm) = not vm.deleted

-- The machine of an old deployment, which is its own.
unfoldable pub delete_deployment_vm : Env → ℕ → Action (Unit {0})
delete_deployment_vm e vm = do
  found ← attempt (find_vm e Site.find_deployment_vm vm)
  when (vm_live found) (ignore (soft_delete_vm e Site.delete_deployment_vm vm))

unfoldable pub reconcile_terminal_deployment : Env → (ℕ → Env) → DeploymentRow → Action (Unit {0})
reconcile_terminal_deployment e es dep = do
  cleanup_deployment_all_instances e es
  on_vm dep.vm_id (delete_deployment_vm e)

-- `ProjectVolumeUpdateStatus` with the status `unavailable`.
abbrev pub set_unavailable : Env → World → World
set_unavailable e w = if e.fails Site.set_unavailable then w else elim (kept w.volume) [
  | none ↦ w
  | some v ↦ record w { volume = some (with_status unavailable v) }
]

unfoldable pub fail_preview_volume_deployment : Env → DeploymentRow → Action (Unit {0})
fail_preview_volume_deployment e dep w =
    let w' = set_unavailable e w in
    if dep.failed
    then (some tt, w')
    else ignore (update_deployment e Site.fail_preview (λ d. record d { failed = true })) w'

-- Where it answers `none`, the caller returns.
unfoldable pub check_build : Env → DeploymentRow → Option BuildRow → Action (Option DeploymentRow)
check_build e dep none = fail
check_build e dep (some build) =
    if build.failed
    then (do _ ← update_deployment e Site.fail_build (λ d. record d { failed = true }); pure none)
    else if not (is_some build.image_id)
    then (do schedule_retry (seconds 10); pure none)
    else pure (some dep)

abbrev pub read_build : Env → Site → ℕ → Option BuildRow
read_build e s id = if e.fails s then none else e.build id

unfoldable pub ensure_build : Env → DeploymentRow → Action (Option DeploymentRow)
ensure_build e dep = elim dep.build_id [
  | none ↦ (do
    call e Site.create_build
    _ ← update_deployment e Site.set_build (λ d. record d { build_id = some e.fresh_build })
    pure none)
  | some id ↦ check_build e dep (read_build e Site.find_build id)
]

-- Where old deployments had to be stopped, the next pass goes on.
unfoldable pub after_stop : Option Bool → Action (Option Bool)
after_stop none = fail
after_stop (some true) = do schedule_retry (seconds 5); pure none
after_stop (some false) = pure (some true)

-- Old deployments are stopped before a production deployment takes the volume.
unfoldable pub release_volume : Env → DeploymentRow → Action (Option Bool)
release_volume e dep =
    if is_preview dep.kind || dep.running then pure (some true) else after_stop e.stops_old

unfoldable pub with_volume : Env → DeploymentRow → VolumeResult → Action (Option Bool)
with_volume e dep unreachable = do schedule_retry (seconds 30); pure none
with_volume e dep refused = do schedule_retry (seconds 5); pure none
with_volume e dep (ready v) = release_volume e dep

-- Whether the deployment has a volume; where it answers `none`, the caller returns.
unfoldable pub resolve_project_volume : Env → DeploymentRow → Option Volume → Action (Option Bool)
resolve_project_volume e dep none w = (some (some false), w)
resolve_project_volume e dep (some v) w =
    let (r, w') = ensure_project_volume_server e v w in with_volume e dep r w'

abbrev pub same_id : Option ℕ → Option ℕ → Bool
same_id none none = true
same_id none (some b) = false
same_id (some a) none = false
same_id (some a) (some b) = a == b

unfoldable pub use_image : Env → DeploymentRow → Option BuildRow → Action DeploymentRow
use_image e dep none = fail
use_image e dep (some build) =
    if same_id dep.image_id build.image_id
    then pure dep
    else update_deployment e Site.set_image (λ d. record d { image_id = build.image_id })

unfoldable pub sync_deployment_image : Env → DeploymentRow → Action DeploymentRow
sync_deployment_image e dep = elim dep.build_id [
  | none ↦ fail
  | some id ↦ use_image e dep (read_build e Site.reread_build id)
]

-- What is known when the instances are reconciled.
pub record Context : Type 0 where
  pub dep : DeploymentRow
  pub persistent : Bool

abbrev pub is_terminal : DeploymentRow → Bool
is_terminal dep = dep.deleted || dep.failed || dep.stopped

unfoldable pub prepare_image : Env → DeploymentRow → Option Bool → Action (Option Context)
prepare_image e dep none = pure none
prepare_image e dep (some persistent) = do
  synced ← sync_deployment_image e dep
  call e Site.find_image
  call e Site.find_variables
  pure (some (record { dep = synced; persistent = persistent }))

unfoldable pub prepare_volume : Env → Option Volume → Option DeploymentRow → Action (Option Context)
prepare_volume e volume none = pure none
prepare_volume e volume (some dep) = do
  persistent ← resolve_project_volume e dep volume
  prepare_image e dep persistent

unfoldable pub prepare : Env → (ℕ → Env) → DeploymentRow → Option Volume → Action (Option Context)
prepare e es dep volume =
    if is_some volume && is_preview dep.kind
    then (do fail_preview_volume_deployment e dep; pure none)
    else if is_terminal dep
    then (do reconcile_terminal_deployment e es dep; pure none)
    else (do built ← ensure_build e dep; prepare_volume e volume built)

-- `ReconcileDeployment` until it reconciles the instances; where it answers `none`, it returns.
unfoldable pub prepare_deployment : Env → (ℕ → Env) → Action (Option Context)
prepare_deployment e es w =
    (do
      call e Site.find_deployment
      call e Site.find_project
      when (is_some w.deployment.service_id) (call e Site.find_service)
      volume ← project_volume_for_deployment e Site.find_volume w.deployment
      prepare e es w.deployment volume)
      w

-- `promoteDeployment`; the draining of old deployments is `drain_old_deployments` of Drain.
unfoldable pub promote_deployment : Env → DeploymentRow → Action (Unit {0})
promote_deployment e dep = if dep.running then pure tt else (do
  _ ← update_deployment e Site.promote (λ d. record d { running = true })
  ignore (update_deployment e Site.reset_circuit (λ d. record d { circuit_broken = false }))
  call e Site.set_routes)

-- The end of `reconcileInstances`, with the instances that are ready.
unfoldable pub finish_instances : Env → DeploymentRow → ℕ → ℕ → Action (Unit {0})
finish_instances e dep desired up = if ltb up desired then schedule_retry (seconds 5) else (do
  when dep.wake_requested (do
    _ ← update_deployment e Site.clear_wake (λ d. record d { wake_requested = false })
    pure tt)
  promote_deployment e dep)

-- What reconciliations of the deployment do, in parts: its preparation, which reads the row of the
-- deployment, and what goes on with the row that was read then, which may be stale.
pub data Part : Type 0 where
  prepared : Env → (ℕ → Env) → Part
  instance_pass : Env → Pass → ℕ → InstanceRow → Part
  finished : Env → DeploymentRow → ℕ → ℕ → Part

unfoldable pub run_part : Part → World → World
run_part (prepared e es) w = (prepare_deployment e es w).1
run_part (instance_pass e p id inst) w = (reconcile_one_instance e p id inst w).1
run_part (finished e dep desired up) w = (finish_instances e dep desired up w).1

unfoldable pub run_parts : List Part → World → World
run_parts [] w = w
run_parts (part ∷ parts) w = run_parts parts (run_part part w)
