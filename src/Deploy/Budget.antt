-- ===== src/Deploy/Budget.antt =====
-- internal/deploy/deploy_instance.go: the restart budget and the circuit breaker.
use kindling.Base.{
  ℕ, ◌+◌, ◌<◌, ◌≤◌, ◌≡◌, refl, ◌∙◌, ap, Bool, true, false, Option, some, arith, Bool-cases, inl,
  inr,
}
use kindling.Fleet.{active}
use kindling.Deploy.{InstanceRow, VmRow, World, Env, Site}
use kindling.Deploy.Assignment.{is_draining, is_running, is_suspended}
use kindling.Deploy.Instance.{
  Pass, reconcile_one_instance, repair_instance, restart_budget_exceeded, circuit_break,
  restart_budget, is_template,
}
use kindling.Deploy.Unhealthy.{unhealthy_pass}

budget-exceeded :
    (r : InstanceRow) (now last : ℕ)
    → r.last_restart_at ≡ some last
    → 3 ≤ r.restart_count
    → now < last + restart_budget
    → restart_budget_exceeded r false now ≡ true
unfolding restart_budget_exceeded
budget-exceeded r now last h c t = ground arith

abbrev set_circuit : Bool → World → Option (Unit {0}) × World
set_circuit c w = (some tt, record w { deployment = record w.deployment { circuit_broken = c } })

-- The world with the circuit open.
abbrev pub broken : World → World
broken w = record w { deployment = record w.deployment { circuit_broken = true } }

break-eq :
    (e : Env) (w : World)
    → e.fails Site.break_circuit ≡ false
    → w.deployment.deleted ≡ false
    → circuit_break e w ≡ (some tt, broken w)
unfolding circuit_break
break-eq e w f d = elim (Bool-cases w.deployment.circuit_broken) [
  | inl b ↦
      let kept : circuit_break e w ≡ (some tt, w) = simp (f, d, b, circuit_break) refl in
      let same : set_circuit w.deployment.circuit_broken w ≡ set_circuit true w =
        ap (λ c. set_circuit c w) b in
      kept ∙ same
  | inr b ↦ simp (f, d, b) refl
]

-- With an open circuit a pass changes nothing.
pub open_circuit :
    (e : Env) (p : Pass) (id : ℕ) (inst : InstanceRow) (w : World)
    → p.dep.circuit_broken ≡ true
    → reconcile_one_instance e p id inst w ≡ (some tt, w)
unfolding reconcile_one_instance
open_circuit e p id inst w h = elim (Bool-cases (is_template inst)) [
  | inl t ↦ simp (t, reconcile_one_instance) refl
  | inr t ↦ simp (t, h, reconcile_one_instance) refl
]

-- An active instance without a volume whose status is not `running`, with a machine that is not
-- suspended, on a server that does not drain, where nothing fails and the circuit was closed: if it has
-- been restarted three times or more, however long ago, and last within five minutes, a pass
-- starts nothing and writes nothing but the open circuit, and passes over all instances that read the
-- deployment afterwards change nothing.
pub restart_budget_lem :
    (e : Env) (p : Pass) (id vm server last : ℕ) (r : InstanceRow) (v : VmRow) (w : World)
    → (next : Env) (later : Pass) (other : ℕ) (inst : InstanceRow)
    → ((s : Site) → e.fails s ≡ false)
    → p.persistent ≡ false
    → p.dep.circuit_broken ≡ false
    → r.role ≡ active
    → r.server_id ≡ some server
    → is_draining (e.server server) ≡ false
    → r.vm_id ≡ some vm
    → is_running r.status ≡ false
    → w.vms vm ≡ some v
    → is_suspended v.status ≡ false
    → r.last_restart_at ≡ some last
    → 3 ≤ r.restart_count
    → e.now < last + restart_budget
    → w.deployment.deleted ≡ false
    → (reconcile_one_instance e p id r w ≡ (some tt, broken w))
      × (reconcile_one_instance next
            (record later { dep = (broken w).deployment })
            other
            inst
            (broken w)
          ≡ (some tt, broken w))
unfolding repair_instance
restart_budget_lem e p id vm server last r v w next later other inst f s c a h d m n k b l g t z = (
  unhealthy_pass e p id vm server r v w (f Site.find_suspended_vm) s c a h d m n k b
      ∙ simp (budget-exceeded r e.now last l g t, repair_instance)
          (break-eq e w (f Site.break_circuit) z),
  open_circuit next (record later { dep = (broken w).deployment }) other inst (broken w) refl,
)
