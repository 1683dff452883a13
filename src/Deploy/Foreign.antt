-- ===== src/Deploy/Foreign.antt =====
-- internal/deploy/deploy_instance.go: a pass over an instance that another server is starting.
use kindling.Base.{
  ℕ, ◌≡◌, refl, sym, ◌∙◌, ap, true, false, none, some, put, ◌==◌, ==_refl, false≢true,
}
use kindling.Volumes.{Volume, detached, unknown}
use kindling.Fleet.{active}
use kindling.Deploy.{InstanceRow, VmRow, World, Env, Site}
use kindling.Deploy.Store.{
  ◌>>=◌, ◌>>◌, stop, soft_delete_vm, update_instance, find_instance, prepare_retry,
}
use kindling.Deploy.Assignment.{
  is_active_instance, is_warm_pool_instance, is_draining, is_running, is_suspended,
  reset_stale_instance, clear_stale, assign_server_if_needed, pick_server,
}
use kindling.Scaling.{is_some}
use kindling.Deploy.Instance.{
  Pass, reconcile_one_instance, repair_instance, restart_instance, launch_if_here,
  restart_budget_exceeded,
}
use kindling.Deploy.Started.{
  Works, start_mode-eq, started_world, started-row, started-alive, running_row, >>=-eq, set_row,
  set_vm, update_instance-eq, find_instance-eq,
}
use kindling.Deploy.Unhealthy.{unhealthy_pass}
use kindling.Deploy.Settled.{active_mode, launched-eq}

-- The row after the reset, and after it got this server.
abbrev pub reset_row : Env → InstanceRow → InstanceRow
reset_row e r = prepare_retry e.now r

abbrev pub taken_row : Env → InstanceRow → InstanceRow
taken_row e r = record (prepare_retry e.now r) { server_id = some e.self }

-- No volume is mounted.
abbrev no_volume : Volume
no_volume = record {
  server_id = none;
  attached_vm_id = none;
  status = detached;
  health = unknown;
  backup_retention_count = 0;
  deleted = false;
}

abbrev pub retired : VmRow → VmRow
retired v = record v { deleted = true }

module _ (e : Env) (works : Works e) (p : Pass) (id vm other image : ℕ) (r : InstanceRow)
    (v : VmRow) (w : World) (single : p.persistent ≡ false) (closed : p.dep.circuit_broken ≡ false)
    (built : p.dep.image_id ≡ some image) (row : w.instances id ≡ some r) (live : r.deleted ≡ false)
    (role : r.role ≡ active) (elsewhere : r.server_id ≡ some other)
    (steady : is_draining (e.server other) ≡ false) (has_vm : r.vm_id ≡ some vm)
    (not_up : is_running r.status ≡ false) (found : w.vms vm ≡ some v)
    (awake : is_suspended v.status ≡ false) (budget : restart_budget_exceeded r false e.now ≡ false)
    (chosen : e.least_loaded ≡ some e.self) (new : (e.fresh == vm) ≡ false) where
  open works use {statements}

  abbrev stopped_world : World
  stopped_world = record w { alive = put id false w.alive }

  abbrev cleared_world : World
  cleared_world = set_vm vm (retired v) stopped_world

  abbrev reset_world : World
  reset_world = set_row id (reset_row e r) cleared_world

  abbrev assigned_world : World
  assigned_world = set_row id (taken_row e r) reset_world

  clear-eq : clear_stale e r.vm_id p.persistent stopped_world ≡ (some tt, cleared_world)
  unfolding clear_stale soft_delete_vm
  clear-eq = simp (has_vm, single, statements Site.delete_stale_vm, found) refl

  not_pooled : is_warm_pool_instance r ≡ false
  unfolding is_warm_pool_instance
  not_pooled = simp (role, is_warm_pool_instance) refl

  has_machine : is_some r.vm_id ≡ true
  has_machine = simp has_vm refl

  stop-eq : (stop e Site.stop_stale id w).1 ≡ stopped_world
  unfolding stop
  stop-eq = simp (statements Site.stop_stale, stop) refl

  reset-eq : reset_stale_instance e id r p.persistent w ≡ (some (reset_row e r), reset_world)
  unfolding reset_stale_instance
  reset-eq =
      let prepare = update_instance e Site.prepare_stale id (prepare_retry e.now) in
      let find = find_instance e Site.refetch_stale id in
      let rest = clear_stale e r.vm_id p.persistent >> (prepare >>= λ _. find) in
      let prepared =
        update_instance-eq e Site.prepare_stale (statements Site.prepare_stale) id
          (prepare_retry e.now) r cleared_world row live in
      simp (has_machine, not_pooled, reset_stale_instance) (ap rest stop-eq)
      ∙ (>>=-eq (clear_stale e r.vm_id p.persistent) (λ _. (prepare >>= λ _. find)) stopped_world
            clear-eq
          ∙ (>>=-eq prepare (λ _. find) cleared_world prepared
              ∙ find_instance-eq e Site.refetch_stale (statements Site.refetch_stale) id
                  (reset_row e r) reset_world (simp (==_refl id) refl)))

  assign-eq :
      assign_server_if_needed e p.dep id (reset_row e r) p.persistent reset_world
      ≡ (some (taken_row e r), assigned_world)
  unfolding assign_server_if_needed pick_server
  assign-eq =
      simp (single, chosen)
        (update_instance-eq e Site.assign_server (statements Site.assign_server) id
          (λ r. record r { server_id = some e.self }) (reset_row e r) reset_world
          (simp (==_refl id) refl) live)

  start-eq :
      launch_if_here e p id (taken_row e r) assigned_world
      ≡ (some tt, started_world e id image (taken_row e r) p.persistent no_volume assigned_world)
  unfolding launch_if_here is_active_instance
  start-eq =
      let (mode, m) = active_mode id (taken_row e r) p.template_ref refl in
      simp (==_refl e.self) (
        launched-eq e p.dep id (taken_row e r) p.template_ref p.persistent assigned_world mode m
        ∙ start_mode-eq e works p.dep id image (taken_row e r) mode p.persistent no_volume
            assigned_world (simp (==_refl id) refl) refl live built
            (λ q. absurd (false≢true (sym single ∙ q))))

  restart-eq :
      restart_instance e p id r w
      ≡ (some tt, started_world e id image (taken_row e r) p.persistent no_volume assigned_world)
  unfolding restart_instance
  restart-eq =
      let assign = λ (x : InstanceRow). assign_server_if_needed e p.dep id x p.persistent in
      >>=-eq (reset_stale_instance e id r p.persistent) (λ x. (assign x >>= launch_if_here e p id))
        w reset-eq
      ∙ (>>=-eq (assign (reset_row e r)) (launch_if_here e p id) reset_world assign-eq ∙ start-eq)

  pass-eq :
      reconcile_one_instance e p id r w
      ≡ (some tt, started_world e id image (taken_row e r) p.persistent no_volume assigned_world)
  unfolding repair_instance
  pass-eq =
      unhealthy_pass e p id vm other r v w (statements Site.find_suspended_vm) single closed role
        elsewhere steady has_vm not_up found awake
      ∙ simp (budget, repair_instance) restart-eq

  old_vm :
      (started_world e id image (taken_row e r) p.persistent no_volume assigned_world).vms vm
      ≡ some (retired v)
  old_vm = simp (single, new, ==_refl vm) refl

  -- An active instance without a volume that another server, which does not drain, is to run: where the
  -- status of the instance is not `running` and its machine is not suspended, as while that server
  -- starts it, the circuit is closed, this server has the least load, the restart budget is not used
  -- up, the image is built and nothing fails, a pass on this server takes it. The row of its machine is
  -- deleted, and the instance runs on this server, on a new machine.
  pub reconcile_one_instance-taken :
      let w' = (reconcile_one_instance e p id r w).1 in
      (w'.alive id ≡ true)
      × (w'.instances id ≡ some (running_row e (taken_row e r)))
      × (w'.vms vm ≡ some (retired v))
  reconcile_one_instance-taken = (
    ap (λ o. o.1.alive id) pass-eq
        ∙ started-alive e id image (taken_row e r) no_volume assigned_world p.persistent,
    ap (λ o. o.1.instances id) pass-eq
        ∙ started-row e id image (taken_row e r) no_volume assigned_world p.persistent,
    ap (λ o. o.1.vms vm) pass-eq ∙ old_vm,
  )
