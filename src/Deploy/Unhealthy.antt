-- ===== src/Deploy/Unhealthy.antt =====
-- internal/deploy/deploy_instance.go: a pass over an instance that stays on its server and does not run.
use kindling.Base.{ℕ, ◌≡◌, refl, ◌∙◌, false, some}
use kindling.Fleet.{active}
use kindling.Deploy.{InstanceRow, VmRow, World, Env, Site}
use kindling.Deploy.Store.{find_vm}
use kindling.Deploy.Assignment.{
  is_draining, leave_draining, reconcile_instance_server_assignment, is_running, is_suspended,
}
use kindling.Deploy.Resume.{try_resume_from_suspended}
use kindling.Deploy.Instance.{
  Pass, reconcile_one_instance, converge_instance, check_and_repair, repair_instance, try_resume,
  check_running, is_template,
}
use kindling.Deploy.Started.{>>=-eq}

module _ (e : Env) (p : Pass) (id vm server : ℕ) (r : InstanceRow) (v : VmRow) (w : World)
    (reads : e.fails Site.find_suspended_vm ≡ false) (single : p.persistent ≡ false)
    (closed : p.dep.circuit_broken ≡ false) (role : r.role ≡ active)
    (placed : r.server_id ≡ some server) (steady : is_draining (e.server server) ≡ false)
    (has_vm : r.vm_id ≡ some vm) (not_up : is_running r.status ≡ false) (found : w.vms vm ≡ some v)
    (awake : is_suspended v.status ≡ false) where
  assignment-eq : reconcile_instance_server_assignment e p.dep id r p.persistent w ≡ (some r, w)
  unfolding reconcile_instance_server_assignment leave_draining
  assignment-eq =
      simp (placed, single, steady, reconcile_instance_server_assignment, leave_draining) refl

  resume-eq : try_resume e id r p.persistent r.vm_id w ≡ (some false, w)
  unfolding try_resume try_resume_from_suspended find_vm
  resume-eq = simp (has_vm, reads, found, awake) refl

  check-eq : check_running e r r.vm_id w ≡ (some false, w)
  unfolding check_running
  check-eq = simp (has_vm, not_up) refl

  no_template : is_template r ≡ false
  no_template = simp (role, is_template) refl

  -- The pass comes to the repair.
  pub unhealthy_pass : reconcile_one_instance e p id r w ≡ repair_instance e p id r false w
  unfolding reconcile_one_instance converge_instance check_and_repair
  unhealthy_pass =
      simp (no_template, closed, reconcile_one_instance)
        (>>=-eq (reconcile_instance_server_assignment e p.dep id r p.persistent)
            (converge_instance e p id) w assignment-eq
          ∙ (>>=-eq (try_resume e id r p.persistent r.vm_id) (check_and_repair e p id r) w resume-eq
              ∙ >>=-eq (check_running e r r.vm_id) (repair_instance e p id r) w check-eq))
