-- ===== src/Deploy/Resume.antt =====
-- internal/deploy/deploy_instance.go, `tryResumeFromSuspended`.
use kindling.Base.{ℕ, Bool, true, false, not, ◌&&◌, ◌||◌, none, some, if◌then◌else◌}
use kindling.Fleet.{active}
use kindling.Fleet.Evacuation.{is_here}
use kindling.Volumes.{available}
use kindling.Deploy.{
  InstanceRow, InstanceStatus, VmStatus, Site, Env, Launch, launched, missing, broken,
}
use kindling.Deploy.Store.{
  Action, pure, fail, ◌>>=◌, ◌>>◌, attempt, ignore, when, update_instance, update_status,
  prepare_retry, find_vm, soft_delete_vm, update_vm_status, started, detach_if_attached,
}
use kindling.Deploy.Assignment.{is_warm_pool_instance, is_active_instance, vm_suspended}

-- A call that may fail and writes nothing that is modelled.
abbrev pub call : Env → Site → Action (Unit {0})
call e s w = if e.fails s then (none, w) else (some tt, w)

-- `requiresExternalHealthCheck`, and the wait.
abbrev pub wait_healthy : Env → Action (Unit {0})
wait_healthy e = if e.external && not e.becomes_healthy then fail else pure tt

unfoldable pub clear_lost : Env → ℕ → Bool → Action (Unit {0})
clear_lost e vm persistent = do
  when persistent (ignore (detach_if_attached e Site.detach_lost vm available))
  ignore (soft_delete_vm e Site.delete_lost_vm vm)

-- `rt.Resume` has found no state to resume.
unfoldable pub reset_lost : Env → ℕ → ℕ → Bool → Action Bool
reset_lost e id vm persistent = do
  clear_lost e vm persistent
  _ ← update_instance e Site.prepare_lost id (prepare_retry e.now)
  pure true

-- The instance runs again: its rows say so.
unfoldable pub record_resumed : Env → ℕ → ℕ → Action Bool
record_resumed e id vm = do
  when e.parses (call e Site.update_address)
  wait_healthy e
  update_vm_status e Site.mark_vm_resumed vm VmStatus.running
  _ ← update_status e Site.mark_resumed id InstanceStatus.running
  pure true

-- `rt.Resume`.
unfoldable pub resume_vm : Env → ℕ → ℕ → Bool → Launch → Action Bool
resume_vm e id vm persistent launched w = record_resumed e id vm (started id w)
resume_vm e id vm persistent missing w = reset_lost e id vm persistent w
resume_vm e id vm persistent broken w = (none, w)

unfoldable pub promote_pooled : Env → ℕ → Bool → Action (Unit {0})
promote_pooled e id true = do
  _ ← update_instance e Site.promote_pooled id (λ r. record r { role = active })
  pure tt
promote_pooled e id false = pure tt

unfoldable pub resume_here : Env → ℕ → InstanceRow → ℕ → Bool → Action Bool
resume_here e id inst vm persistent = do
  promote_pooled e id (is_warm_pool_instance inst)
  _ ← update_status e Site.mark_resuming id InstanceStatus.starting
  resume_vm e id vm persistent e.resume

-- Whether the instance has been handled.
unfoldable pub try_resume_from_suspended : Env → ℕ → InstanceRow → ℕ → Bool → Action Bool
try_resume_from_suspended e id inst vm persistent = do
  found ← attempt (find_vm e Site.find_suspended_vm vm)
  if not (vm_suspended found) || not (is_active_instance inst)
      then pure false
      else if not (is_here e.self inst.server_id)
      then pure true
      else resume_here e id inst vm persistent
