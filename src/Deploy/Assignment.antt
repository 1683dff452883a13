-- ===== src/Deploy/Assignment.antt =====
-- internal/deploy/deploy_instance.go: the server of an instance.
--
-- The functions return their copy of the row, which may be older than the row of the table.
use kindling.Base.{ℕ, ◌==◌, Bool, true, false, not, ◌&&◌, ◌||◌, Option, none, some, if◌then◌else◌}
use kindling.Fleet.{warm_pool, unset, active}
use kindling.Scaling.{is_some}
use kindling.Volumes.{Volume, available}
use kindling.Deploy.{
  InstanceRow, InstanceStatus, VmRow, VmStatus, ServerStatus, DeploymentRow, Site, Env,
}
use kindling.Deploy.Store.{
  Action, pure, fail, ◌>>=◌, ◌>>◌, attempt, ignore, when, find_instance, update_instance,
  reset_for_retry, prepare_retry, soft_delete_instance, find_vm, soft_delete_vm, stop,
  detach_if_attached, project_volume_for_deployment,
}

unfoldable pub is_warm_pool_instance : InstanceRow → Bool
is_warm_pool_instance inst = elim inst.role [ warm_pool ↦ true | _ ↦ false ]

unfoldable pub is_active_instance : InstanceRow → Bool
is_active_instance inst = elim inst.role [ unset ↦ true | active ↦ true | _ ↦ false ]

abbrev pub is_running : InstanceStatus → Bool
is_running status = elim status [ InstanceStatus.running ↦ true | _ ↦ false ]

abbrev pub is_failed : InstanceStatus → Bool
is_failed status = elim status [ InstanceStatus.failed ↦ true | _ ↦ false ]

abbrev pub is_stopped : InstanceStatus → Bool
is_stopped status = elim status [ InstanceStatus.stopped ↦ true | _ ↦ false ]

abbrev pub is_suspended : VmStatus → Bool
is_suspended status = elim status [ VmStatus.suspended ↦ true | _ ↦ false ]

abbrev pub is_draining : Option ServerStatus → Bool
is_draining status = elim status [ some ServerStatus.draining ↦ true | _ ↦ false ]

abbrev pub on_vm : Option ℕ → (ℕ → Action (Unit {0})) → Action (Unit {0})
on_vm none m = pure tt
on_vm (some vm) m = m vm

unfoldable pub delete_rows : Env → ℕ → Option ℕ → Action (Unit {0})
delete_rows e id vm_id = do
  on_vm vm_id (λ vm. (do
    ignore (detach_if_attached e Site.detach_deleted vm available)
    ignore (soft_delete_vm e Site.delete_vm vm)))
  ignore (soft_delete_instance e id)

-- `deleteInstancePermanently`, whose errors are ignored.
unfoldable pub delete_instance_permanently : Env → ℕ → InstanceRow → Action (Unit {0})
delete_instance_permanently e id inst = do
  ignore (stop e Site.stop_deleted id)
  delete_rows e id inst.vm_id

-- `DeploymentInstanceResetForRetry`, and the row as it is then.
unfoldable pub release : Env → Site → Site → ℕ → Action InstanceRow
release e s t id = do _ ← update_instance e s id reset_for_retry; find_instance e t id

-- Whether the volume is on another server than the instance.
abbrev pub is_elsewhere : Option Volume → ℕ → Bool
is_elsewhere none server = false
is_elsewhere (some v) server = elim v.server_id [ none ↦ false | some s ↦ not (s == server) ]

abbrev pub vm_suspended : Option VmRow → Bool
vm_suspended none = false
vm_suspended (some vm) = is_suspended vm.status

-- The instance stands on `server`: what becomes of it if that server is draining.
unfoldable pub leave_draining : Env → ℕ → InstanceRow → ℕ → Action InstanceRow
leave_draining e id inst server =
    if not (is_draining (e.server server))
    then pure inst
    else if is_warm_pool_instance inst
    then (do delete_instance_permanently e id inst; pure inst)
    else elim inst.vm_id [
      | none ↦ release e Site.reset_drained Site.refetch_drained id
      | some vm ↦ do
        found ← attempt (find_vm e Site.find_draining_vm vm)
        if vm_suspended found
            then (do delete_instance_permanently e id inst; pure inst)
            else if not (is_running inst.status)
            then release e Site.reset_drained Site.refetch_drained id
            else pure inst
    ]

-- An instance with a volume follows it to its server.
unfoldable pub check_pinned : Env → DeploymentRow → ℕ → InstanceRow → ℕ → Action InstanceRow
check_pinned e dep id inst server = do
  volume ← project_volume_for_deployment e Site.load_volume dep
  if is_elsewhere volume server
      then release e Site.reset_pinned Site.refetch_pinned id
      else leave_draining e id inst server

unfoldable pub reconcile_instance_server_assignment :
    Env → DeploymentRow → ℕ → InstanceRow → Bool → Action InstanceRow
reconcile_instance_server_assignment e dep id inst persistent = elim inst.server_id [
  | none ↦ pure inst
  | some server ↦
      if not persistent then leave_draining e id inst server else check_pinned e dep id inst server
]

unfoldable pub clear_stale : Env → Option ℕ → Bool → Action (Unit {0})
clear_stale e vm_id persistent = on_vm vm_id (λ vm. (do
  when persistent (ignore (detach_if_attached e Site.detach_stale vm available))
  ignore (soft_delete_vm e Site.delete_stale_vm vm)))

-- `resetStaleInstance`.
unfoldable pub reset_stale_instance : Env → ℕ → InstanceRow → Bool → Action InstanceRow
reset_stale_instance e id inst persistent =
    if (not (is_some inst.vm_id) || is_warm_pool_instance inst) && not (is_failed inst.status)
    then pure inst
    else (do
      ignore (stop e Site.stop_stale id)
      clear_stale e inst.vm_id persistent
      _ ← update_instance e Site.prepare_stale id (prepare_retry e.now)
      find_instance e Site.refetch_stale id)

-- The server of the volume.
unfoldable pub pinned_server : Env → Option Volume → Action ℕ
pinned_server e none = fail
pinned_server e (some v) = elim v.server_id [
  | none ↦ fail
  | some s ↦ if is_some (e.server s) then pure s else fail
]

-- The server that the instance is to be on.
unfoldable pub pick_server : Env → DeploymentRow → Bool → Action ℕ
pick_server e dep false w = (e.least_loaded, w)
pick_server e dep true w =
    (project_volume_for_deployment e Site.reload_volume dep >>= pinned_server e) w

unfoldable pub assign_server_if_needed :
    Env → DeploymentRow → ℕ → InstanceRow → Bool → Action InstanceRow
assign_server_if_needed e dep id inst persistent = if is_some inst.server_id then pure inst else (do
  server ← pick_server e dep persistent
  update_instance e Site.assign_server id (λ r. record r { server_id = some server }))
