-- ===== src/Deploy/Halted.antt =====
-- internal/deploy: what keeps the circuit of a promoted deployment open, and an instance halted.
use kindling.Base.{
  ℕ, ◌≡◌, ◌∙◌, ap, true, false, Option, none, some, List, [], ◌∷◌, arith, Bool-cases, Option-cases,
  inl, inr, if◌then◌else◌,
}
use kindling.Volumes.{available}
use kindling.Deploy.{DeploymentRow, InstanceRow, World, Env, Site}
use kindling.Deploy.Store.{
  Action, ◌>>=◌, kept, stop, soft_delete_instance, soft_delete_vm, detach_if_attached, find_vm,
}
use kindling.Deploy.Assignment.{delete_instance_permanently, delete_rows, on_vm}
use kindling.Deploy.Resume.{call}
use kindling.Deploy.Reconcile.{
  update_deployment, list_instances, delete_instances, cleanup_deployment_all_instances,
  delete_deployment_vm, reconcile_terminal_deployment, set_unavailable,
  fail_preview_volume_deployment, vm_live,
}
use kindling.Deploy.Rules.{Ends, Ends->>=, Ends-ignore, Same, drop_vm-Same, soft_delete_vm-Same}

-- A promoted deployment with an open circuit, and an instance that does not run.
abbrev pub Halted : ℕ → World → Type 0
Halted id w =
    (w.deployment.running ≡ true) × (w.deployment.circuit_broken ≡ true) × (w.alive id ≡ false)

-- An action that keeps this, whatever it ends with.
abbrev pub Safe : {A : Type 0} → ℕ → Option A × World → Type 0
Safe id o = Ends (λ _ w. Halted id w) (Halted id) o

pub Safe-bind :
    {A B : Type 0} (id : ℕ) (m : Action A) (f : A → Action B) (w : World)
    → Safe id (m w)
    → ((a : A) (w' : World) → Halted id w' → Safe id (f a w'))
    → Safe id ((m >>= f) w)
Safe-bind {A} {B} id m f w h k =
    Ends->>= {A = A} {B = B} (λ _ w'. Halted id w') (λ _ w'. Halted id w') (Halted id) m f w h k

Same-Halted : (id : ℕ) (w w' : World) → Same w w' → Halted id w → Halted id w'
Same-Halted id w w' (_, a, d, _) (r, c, h) =
    (ap (λ d. d.running) d ∙ r, ap (λ d. d.circuit_broken) d ∙ c, ap (λ f. f id) a ∙ h)

pub call-Safe : (e : Env) (s : Site) (id : ℕ) (w : World) → Halted id w → Safe id (call e s w)
call-Safe e s id w h = elim (Bool-cases (e.fails s)) [ inl f ↦ simp f h | inr f ↦ simp f h ]

pub update-Safe :
    (e : Env) (s : Site) (id : ℕ) (f : DeploymentRow → DeploymentRow) (w : World)
    → (f w.deployment).running ≡ true
    → (f w.deployment).circuit_broken ≡ true
    → Halted id w
    → Safe id (update_deployment e s f w)
unfolding update_deployment
update-Safe e s id f w r c h = elim (Bool-cases (e.fails s)) [
  | inl k ↦ simp (k, update_deployment) h
  | inr k ↦ simp (k, update_deployment) (r, c, h.2)
]

stop-Halted : (e : Env) (s : Site) (id j : ℕ) (w : World) → Halted id w → Halted id (stop e s j w).1
unfolding stop
stop-Halted e s id j w (r, c, h) = elim (Bool-cases (e.fails s)) [
  | inl f ↦ simp (f, stop) (r, c, h)
  | inr f ↦ simp (f, stop) (r, c, ground arith)
]

soft_delete-Halted :
    (e : Env) (id j : ℕ) (w : World) → Halted id w → Halted id (soft_delete_instance e j w).1
unfolding soft_delete_instance
soft_delete-Halted e id j w h = elim (Bool-cases (e.fails Site.delete_instance)) [
  | inl f ↦ simp (f, soft_delete_instance) h
  | inr f ↦ simp (f, soft_delete_instance) h
]

rows-Safe :
    (e : Env) (id j : ℕ) (vm : Option ℕ) (w : World) → Halted id w → Safe id (delete_rows e j vm w)
unfolding delete_rows
rows-Safe e id j none w h = soft_delete-Halted e id j w h
rows-Safe e id j (some vm) w h =
    let w' =
      (soft_delete_vm e Site.delete_vm vm
        (detach_if_attached e Site.detach_deleted vm available w).1).1 in
    soft_delete-Halted e id j w'
      (Same-Halted id w w' (drop_vm-Same e Site.detach_deleted Site.delete_vm vm available w) h)

delete-Safe :
    (e : Env) (id j : ℕ) (inst : InstanceRow) (w : World)
    → Halted id w
    → Safe id (delete_instance_permanently e j inst w)
unfolding delete_instance_permanently
delete-Safe e id j inst w h =
    rows-Safe e id j inst.vm_id (stop e Site.stop_deleted j w).1
      (stop-Halted e Site.stop_deleted id j w h)

delete_all-Safe :
    (es : ℕ → Env) (id : ℕ) (rows : List (ℕ × InstanceRow)) (w : World)
    → Halted id w
    → Safe id (delete_instances es rows w)
unfolding delete_instances
delete_all-Safe es id [] w h = h
delete_all-Safe es id ((j, inst) ∷ rows) w h =
    Safe-bind id (delete_instance_permanently (es j) j inst) (λ _. delete_instances es rows) w
      (delete-Safe (es j) id j inst w h) (λ _ w' k. delete_all-Safe es id rows w' k)

deployment_vm-Safe :
    (e : Env) (id : ℕ) (vm : Option ℕ) (w : World)
    → Halted id w
    → Safe id (on_vm vm (delete_deployment_vm e) w)
unfolding delete_deployment_vm find_vm
deployment_vm-Safe e id none w h = h
deployment_vm-Safe e id (some vm) w h =
    let found = if e.fails Site.find_deployment_vm then none else w.vms vm in
    elim (Bool-cases (vm_live found)) [
      | inr k ↦ simp (k, delete_deployment_vm) h
      | inl k ↦
          simp (k, delete_deployment_vm)
            (Same-Halted id w (soft_delete_vm e Site.delete_deployment_vm vm w).1
              (soft_delete_vm-Same e Site.delete_deployment_vm vm w) h)
    ]

cleanup-Safe :
    (e : Env) (es : ℕ → Env) (id : ℕ) (w : World)
    → Halted id w
    → Safe id (cleanup_deployment_all_instances e es w)
unfolding cleanup_deployment_all_instances
cleanup-Safe e es id w h = elim (Bool-cases (e.fails Site.list_instances)) [
  | inl f ↦ simp (f, cleanup_deployment_all_instances) h
  | inr f ↦
      simp (f, cleanup_deployment_all_instances)
        (delete_all-Safe es id (list_instances w.instances w.ids) w h)
]

pub terminal-Safe :
    (e : Env) (es : ℕ → Env) (id : ℕ) (dep : DeploymentRow) (w : World)
    → Halted id w
    → Safe id (reconcile_terminal_deployment e es dep w)
unfolding reconcile_terminal_deployment
terminal-Safe e es id dep w h =
    Safe-bind id (cleanup_deployment_all_instances e es)
      (λ _. on_vm dep.vm_id (delete_deployment_vm e)) w (cleanup-Safe e es id w h)
      (λ _ w' k. deployment_vm-Safe e id dep.vm_id w' k)

unavailable-Halted : (e : Env) (id : ℕ) (w : World) → Halted id w → Halted id (set_unavailable e w)
unavailable-Halted e id w h = elim (Bool-cases (e.fails Site.set_unavailable)) [
  | inl f ↦ simp f h
  | inr f ↦ elim (Option-cases (kept w.volume)) [
    | inl n ↦ simp (f, n) h
    | inr (v, n) ↦ simp (f, n) h
  ]
]

pub fail_preview-Safe :
    (e : Env) (id : ℕ) (dep : DeploymentRow) (w : World)
    → Halted id w
    → Safe id (fail_preview_volume_deployment e dep w)
unfolding fail_preview_volume_deployment
fail_preview-Safe e id dep w h =
    let w' = set_unavailable e w in
    let k = unavailable-Halted e id w h in
    elim (Bool-cases dep.failed) [
      | inl d ↦ simp (d, fail_preview_volume_deployment) k
      | inr d ↦
          simp (d, fail_preview_volume_deployment)
            (Ends-ignore (Halted id) (Halted id)
              (update_deployment e Site.fail_preview (λ d. record d { failed = true })) w'
              (update-Safe e Site.fail_preview id (λ d. record d { failed = true }) w' k.0 k.1 k))
    ]
