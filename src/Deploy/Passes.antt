-- ===== src/Deploy/Passes.antt =====
-- internal/deploy/deploy_instance.go, `reconcileOneInstance`: an instance runs only on its server.
use kindling.Base.{
  ◌||◌, ℕ, ◌≡◌, refl, ◌∙◌, ap, Bool, true, false, Option, none, some, Bool-cases, inl, inr,
}
use kindling.Fleet.Evacuation.{is_here}
use kindling.Deploy.{InstanceRow, World, Env, Site}
use kindling.Deploy.Store.{◌>>=◌, find_vm}
use kindling.Deploy.Assignment.{
  reconcile_instance_server_assignment, is_running, reset_stale_instance, assign_server_if_needed,
}
use kindling.Deploy.Start.{start_new_instance}
use kindling.Deploy.Instance.{
  check_and_repair, repair_instance, launch_if_here, Pass, reconcile_one_instance,
  converge_instance, restart_instance, try_resume, check_running, circuit_break, is_template,
  restart_budget_exceeded, is_running_instance_healthy,
}
use kindling.Deploy.Rules.{Ends_world, Ends, Ends->>=, Ends-mono}
use kindling.Deploy.Owned.{server_of, Idle, Tracked, by_result, assignment-Tracked}
use kindling.Deploy.Launched.{start_new_instance-Fallen}
use kindling.Deploy.Launching.{Here, Fallen}
use kindling.Deploy.Placed.{Owned, Idle-Owned, is_here-some, reset-Tracked, assign-Tracked}
use kindling.Deploy.Resumed.{Resumed, try_resume-Resumed}

check-Tracked :
    (e : Env) (id : ℕ) (inst : InstanceRow) (vm : Option ℕ) (w : World)
    → Tracked id inst w
    → Ends (λ _ w'. Tracked id inst w') (Owned e id) (check_running e inst vm w)
unfolding check_running is_running_instance_healthy find_vm
check-Tracked e id inst none w t = t
check-Tracked e id inst (some vm) w t = elim (Bool-cases (is_running inst.status)) [
  | inl k ↦ simp (k, check_running) t
  | inr k ↦ simp (k, check_running) t
]

break-Tracked :
    (e : Env) (id : ℕ) (inst : InstanceRow) (w : World)
    → Tracked id inst w
    → Ends (λ _ w'. Owned e id w') (Owned e id) (circuit_break e w)
unfolding circuit_break
break-Tracked e id inst w t =
    elim (Bool-cases
      (e.fails Site.break_circuit || w.deployment.circuit_broken || w.deployment.deleted)) [
        | inl k ↦ simp (k, circuit_break) (Idle-Owned e id w t.0)
        | inr k ↦ simp (k, circuit_break) (Idle-Owned e id w t.0)
      ]

launch-Owned :
    (e : Env) (p : Pass) (id : ℕ) (placed : InstanceRow) (w : World)
    → Tracked id placed w
    → Ends (λ _ w'. Owned e id w') (Owned e id) (launch_if_here e p id placed w)
unfolding launch_if_here
launch-Owned e p id placed w t = elim (Bool-cases (is_here e.self placed.server_id)) [
  | inr k ↦
      by_result (λ _ w'. Owned e id w') (Owned e id) _ (some tt, w) (simp (k, launch_if_here) refl)
        (Idle-Owned e id w t.0)
  | inl k ↦
      by_result (λ _ w'. Owned e id w') (Owned e id) _
        (start_new_instance e p.dep id placed p.template_ref p.persistent w)
        (simp (k, launch_if_here) refl)
        (Ends-mono (λ _ w'. Here e id w') (λ _ w'. Owned e id w') (Fallen e id) (Owned e id)
          (start_new_instance e p.dep id placed p.template_ref p.persistent) w
          (start_new_instance-Fallen e p.dep id placed p.template_ref p.persistent w
            (t.1 ∙ is_here-some e.self placed.server_id k, t.0))
          (λ _ w' h _. h) (λ w' h _. h.0))
]

restart-Owned :
    (e : Env) (p : Pass) (id : ℕ) (inst : InstanceRow) (w : World)
    → Tracked id inst w
    → Ends (λ _ w'. Owned e id w') (Owned e id) (restart_instance e p id inst w)
unfolding restart_instance
restart-Owned e p id inst w t =
    let owned = λ (a : Unit {0}) (w' : World). Owned e id w' in
    let from_idle = λ (w' : World) (k : Idle id w'). Idle-Owned e id w' k in
    let assign = λ (r : InstanceRow). assign_server_if_needed e p.dep id r p.persistent in
    let go = launch_if_here e p id in
    Ends->>= {B = Unit {0}} (Tracked id) owned (Owned e id)
      (reset_stale_instance e id inst p.persistent) (λ r. (assign r >>= go)) w
      (Ends-mono (Tracked id) (Tracked id) (Idle id) (Owned e id)
        (reset_stale_instance e id inst p.persistent) w (reset-Tracked e id inst p.persistent w t)
        (λ r w' k. k) from_idle)
      (λ r w1 t1.
        Ends->>= {B = Unit {0}} (Tracked id) owned (Owned e id) (assign r) go w1
          (Ends-mono (Tracked id) (Tracked id) (Idle id) (Owned e id) (assign r) w1
            (assign-Tracked e p.dep id r p.persistent w1 t1) (λ r w' k. k) from_idle)
          (λ placed w2 t2. launch-Owned e p id placed w2 t2))

repair-Owned :
    (e : Env) (p : Pass) (id : ℕ) (inst : InstanceRow) (healthy : Bool) (w : World)
    → Tracked id inst w
    → Ends (λ _ w'. Owned e id w') (Owned e id) (repair_instance e p id inst healthy w)
unfolding repair_instance
repair-Owned e p id inst true w t = Idle-Owned e id w t.0
repair-Owned e p id inst false w t = elim (Bool-cases (restart_budget_exceeded inst false e.now)) [
  | inl k ↦ simp (k, repair_instance) (break-Tracked e id inst w t)
  | inr k ↦ simp (k, repair_instance) (restart-Owned e p id inst w t)
]

rest-Owned :
    (e : Env) (p : Pass) (id : ℕ) (inst : InstanceRow) (resumed : Bool) (w : World)
    → Resumed e id inst resumed w
    → Ends (λ _ w'. Owned e id w') (Owned e id) (check_and_repair e p id inst resumed w)
unfolding check_and_repair
rest-Owned e p id inst true w h = h
rest-Owned e p id inst false w h =
    Ends->>= {B = Unit {0}} (λ _ w'. Tracked id inst w') (λ _ w'. Owned e id w') (Owned e id)
      (check_running e inst inst.vm_id) (repair_instance e p id inst) w
      (check-Tracked e id inst inst.vm_id w h)
      (λ healthy w' k. repair-Owned e p id inst healthy w' k)

converge-Owned :
    (e : Env) (p : Pass) (id : ℕ) (inst : InstanceRow) (w : World)
    → Tracked id inst w
    → Ends (λ _ w'. Owned e id w') (Owned e id) (converge_instance e p id inst w)
unfolding converge_instance
converge-Owned e p id inst w t =
    Ends->>= {B = Unit {0}} (Resumed e id inst) (λ _ w'. Owned e id w') (Owned e id)
      (try_resume e id inst p.persistent inst.vm_id) (check_and_repair e p id inst) w
      (try_resume-Resumed e id inst p.persistent inst.vm_id w t)
      (λ resumed w' h. rest-Owned e p id inst resumed w' h)

-- An instance that does not run on this server runs on it after a pass only if its row then has this
-- server, whatever fails.
pub reconcile_one_instance-Owned :
    (e : Env) (p : Pass) (id : ℕ) (inst : InstanceRow) (w : World)
    → w.instances id ≡ some inst
    → w.alive id ≡ false
    → Owned e id (reconcile_one_instance e p id inst w).1
unfolding reconcile_one_instance
reconcile_one_instance-Owned e p id inst w k h =
    let t : Tracked id inst w = (h, ap server_of k) in
    elim (Bool-cases (is_template inst || p.dep.circuit_broken)) [
      | inl s ↦ simp (s, reconcile_one_instance) (Idle-Owned e id w h)
      | inr s ↦
          simp (s, reconcile_one_instance)
            (Ends_world (Owned e id)
              (reconcile_instance_server_assignment e p.dep id inst p.persistent
                >>= converge_instance e p id)
              w
              (Ends->>= {B = Unit {0}} (Tracked id) (λ _ w'. Owned e id w') (Owned e id)
                (reconcile_instance_server_assignment e p.dep id inst p.persistent)
                (converge_instance e p id) w
                (Ends-mono (Tracked id) (Tracked id) (Idle id) (Owned e id)
                  (reconcile_instance_server_assignment e p.dep id inst p.persistent) w
                  (assignment-Tracked e p.dep id inst p.persistent w t) (λ r w' q. q)
                  (λ w' q. Idle-Owned e id w' q))
                (λ r w' q. converge-Owned e p id r w' q)))
    ]
