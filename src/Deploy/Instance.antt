-- ===== src/Deploy/Instance.antt =====
-- internal/deploy/deploy_instance.go, `reconcileOneInstance`, and internal/deploy/deploy_health.go.
use kindling.Base.{
  ℕ, ◌+◌, ◌*◌, ltb, Bool, true, false, not, ◌&&◌, ◌||◌, Option, none, some, Text, if◌then◌else◌,
}
use kindling.Fleet.{template}
use kindling.Fleet.Evacuation.{is_here}
use kindling.Deploy.{DeploymentRow, InstanceRow, VmRow, VmStatus, Site, Env}
use kindling.Deploy.Store.{Action, pure, ◌>>=◌, attempt, find_vm}
use kindling.Deploy.Assignment.{
  is_running, reconcile_instance_server_assignment, reset_stale_instance, assign_server_if_needed,
}
use kindling.Deploy.Resume.{try_resume_from_suspended}
use kindling.Deploy.Start.{start_new_instance}

abbrev pub max_restart_count : ℕ
max_restart_count = 3

-- Five minutes.
abbrev pub restart_budget : ℕ
restart_budget = 300 * 1000000000

unfoldable pub restart_budget_exceeded : InstanceRow → Bool → ℕ → Bool
restart_budget_exceeded inst healthy now = elim inst.last_restart_at [
  | none ↦ false
  | some last ↦
      not healthy
      && not (ltb inst.restart_count max_restart_count)
      && ltb now (last + restart_budget)
]

abbrev pub vm_running : VmStatus → Bool
vm_running status = elim status [ VmStatus.running ↦ true | _ ↦ false ]

unfoldable pub should_keep_running_vm : Env → VmRow → Bool → Bool
should_keep_running_vm e vm host_ok =
    if vm.deleted || not (vm_running vm.status)
    then false
    else if e.hypervisor
    then true
    else not (e.external && not host_ok)

unfoldable pub should_treat_running_instance_as_healthy :
    Env → InstanceRow → VmRow → Bool → Bool → Bool
unfolding should_keep_running_vm
should_treat_running_instance_as_healthy e inst vm host_ok local_ok =
    if is_here e.self inst.server_id && not local_ok
    then false
    else should_keep_running_vm e vm host_ok

unfoldable pub local_runtime_healthy : Env → InstanceRow → Bool
local_runtime_healthy e inst = if is_here e.self inst.server_id then e.healthy else true

abbrev pub host_health : Env → Bool
host_health e = if e.external then e.host_check else true

abbrev pub healthy_vm : Env → InstanceRow → Option VmRow → Bool
healthy_vm e inst none = false
healthy_vm e inst (some vm) =
    should_treat_running_instance_as_healthy e inst vm (host_health e)
      (local_runtime_healthy e inst)

unfoldable pub is_running_instance_healthy : Env → InstanceRow → ℕ → Action Bool
unfolding should_treat_running_instance_as_healthy local_runtime_healthy
is_running_instance_healthy e inst vm = do
  found ← attempt (find_vm e Site.find_running_vm vm)
  pure (healthy_vm e inst found)

-- `DeploymentCircuitBreak`, whose error is ignored.
unfoldable pub circuit_break : Env → Action (Unit {0})
circuit_break e w =
    if e.fails Site.break_circuit || w.deployment.circuit_broken || w.deployment.deleted
    then (some tt, w)
    else (some tt, record w { deployment = record w.deployment { circuit_broken = true } })

-- What the calls of one pass have in common.
pub record Pass : Type 0 where
  -- The deployment as it was read at the start of the pass.
  pub dep : DeploymentRow
  pub template_ref : Text
  pub persistent : Bool

unfoldable pub launch_if_here : Env → Pass → ℕ → InstanceRow → Action (Unit {0})
launch_if_here e p id placed =
    if not (is_here e.self placed.server_id)
    then pure tt
    else start_new_instance e p.dep id placed p.template_ref p.persistent

unfoldable pub restart_instance : Env → Pass → ℕ → InstanceRow → Action (Unit {0})
restart_instance e p id inst = do
  reset ← reset_stale_instance e id inst p.persistent
  placed ← assign_server_if_needed e p.dep id reset p.persistent
  launch_if_here e p id placed

-- Whether the instance has been resumed or is left to another server.
unfoldable pub try_resume : Env → ℕ → InstanceRow → Bool → Option ℕ → Action Bool
try_resume e id inst persistent none = pure false
try_resume e id inst persistent (some vm) = try_resume_from_suspended e id inst vm persistent

unfoldable pub check_running : Env → InstanceRow → Option ℕ → Action Bool
check_running e inst none = pure false
check_running e inst (some vm) =
    if is_running inst.status then is_running_instance_healthy e inst vm else pure false

unfoldable pub repair_instance : Env → Pass → ℕ → InstanceRow → Bool → Action (Unit {0})
repair_instance e p id inst healthy =
    if healthy
    then pure tt
    else if restart_budget_exceeded inst healthy e.now
    then circuit_break e
    else restart_instance e p id inst

unfoldable pub check_and_repair : Env → Pass → ℕ → InstanceRow → Bool → Action (Unit {0})
check_and_repair e p id inst true = pure tt
check_and_repair e p id inst false = do
  healthy ← check_running e inst inst.vm_id
  repair_instance e p id inst healthy

unfoldable pub converge_instance : Env → Pass → ℕ → InstanceRow → Action (Unit {0})
converge_instance e p id inst = do
  resumed ← try_resume e id inst p.persistent inst.vm_id
  check_and_repair e p id inst resumed

abbrev pub is_template : InstanceRow → Bool
is_template inst = elim inst.role [ template ↦ true | _ ↦ false ]

unfoldable pub reconcile_one_instance : Env → Pass → ℕ → InstanceRow → Action (Unit {0})
reconcile_one_instance e p id inst =
    if is_template inst || p.dep.circuit_broken then pure tt else (do
      inst' ← reconcile_instance_server_assignment e p.dep id inst p.persistent
      converge_instance e p id inst')
