-- ===== src/Deploy/Breaker.antt =====
-- internal/deploy: the circuit breaker of a deployment that has been promoted.
use kindling.Base.{
  All, sym, subst, ltb, ◌≡◌, ◌∷◌, List, ℕ, Bool, true, false, ◌&&◌, Option, none, some, Bool-cases,
  Option-cases, inl, inr,
}
use kindling.Scaling.{is_some}
use kindling.Volumes.{Volume}
use kindling.Deploy.{DeploymentRow, BuildRow, World, Env, Site}
use kindling.Deploy.Store.{◌>>◌, project_volume_for_deployment, when, ◌>>=◌, pure}
use kindling.Deploy.Resume.{call}
use kindling.Deploy.Reconcile.{
  reconcile_terminal_deployment, is_terminal, same_id, fail_preview_volume_deployment,
  promote_deployment, Context, finish_instances, use_image, prepare_deployment, prepare,
  sync_deployment_image, prepare_image, prepare_volume, update_deployment, ensure_build,
  resolve_project_volume, is_preview, read_build,
}
use kindling.Deploy.Halted.{
  terminal-Safe, fail_preview-Safe, Halted, Safe, Safe-bind, call-Safe, update-Safe,
}
use kindling.Deploy.Rules.{project_volume_lem, Ends_world}
use kindling.Deploy.Reconcile.{Part, prepared, instance_pass, finished, run_part, run_parts}
use kindling.Deploy.Budget.{open_circuit}
use kindling.Deploy.{Env}
use kindling.Base.{[]}
use kindling.Deploy.Volumed.{ensure_build-Safe, resolve-Safe}

use_image-Safe :
    (e : Env) (id : ℕ) (dep : DeploymentRow) (build : Option BuildRow) (w : World)
    → Halted id w
    → Safe id (use_image e dep build w)
unfolding use_image
use_image-Safe e id dep none w h = h
use_image-Safe e id dep (some build) w h = elim (Bool-cases (same_id dep.image_id build.image_id)) [
  | inl k ↦ simp (k, use_image) h
  | inr k ↦
      simp (k, use_image)
        (update-Safe e Site.set_image id (λ d. record d { image_id = build.image_id }) w h.0 h.1 h)
]

sync-Safe :
    (e : Env) (id : ℕ) (dep : DeploymentRow) (w : World)
    → Halted id w
    → Safe id (sync_deployment_image e dep w)
unfolding sync_deployment_image
sync-Safe e id dep w h = elim (Option-cases dep.build_id) [
  | inl n ↦ simp (n, sync_deployment_image) h
  | inr (b, n) ↦
      simp (n, sync_deployment_image)
        (use_image-Safe e id dep (read_build e Site.reread_build b) w h)
]

prepare_image-Safe :
    (e : Env) (id : ℕ) (dep : DeploymentRow) (persistent : Option Bool) (w : World)
    → Halted id w
    → Safe id (prepare_image e dep persistent w)
unfolding prepare_image
prepare_image-Safe e id dep none w h = h
prepare_image-Safe e id dep (some b) w h =
    let image = call e Site.find_image in
    let answer = λ (d : DeploymentRow).
      pure {A = Option Context} (some (record { dep = d; persistent = b })) in
    let vars = λ (d : DeploymentRow). (call e Site.find_variables >> answer d) in
    Safe-bind id (sync_deployment_image e dep) (λ d. (image >> vars d)) w (sync-Safe e id dep w h)
      (λ d w1 h1.
        Safe-bind id image (λ _. vars d) w1 (call-Safe e Site.find_image id w1 h1)
          (λ _ w2 h2.
            Safe-bind id (call e Site.find_variables) (λ _. answer d) w2
              (call-Safe e Site.find_variables id w2 h2) (λ _ w3 h3. h3)))

prepare_volume-Safe :
    (e : Env) (id : ℕ) (volume : Option Volume) (built : Option DeploymentRow) (w : World)
    → Halted id w
    → Safe id (prepare_volume e volume built w)
unfolding prepare_volume
prepare_volume-Safe e id volume none w h = h
prepare_volume-Safe e id volume (some dep) w h =
    Safe-bind id (resolve_project_volume e dep volume) (prepare_image e dep) w
      (resolve-Safe e id dep volume w h) (λ b w1 h1. prepare_image-Safe e id dep b w1 h1)

prepare-Safe :
    (e : Env) (es : ℕ → Env) (id : ℕ) (dep : DeploymentRow) (volume : Option Volume) (w : World)
    → Halted id w
    → Safe id (prepare e es dep volume w)
unfolding prepare
prepare-Safe e es id dep volume w h = elim (Bool-cases (is_some volume && is_preview dep.kind)) [
  | inl k ↦
      simp (k, prepare)
        (Safe-bind id (fail_preview_volume_deployment e dep) (λ _. pure {A = Option Context} none) w
          (fail_preview-Safe e id dep w h) (λ _ w1 h1. h1))
  | inr k ↦ elim (Bool-cases (is_terminal dep)) [
    | inl t ↦
        simp (k, t, prepare)
          (Safe-bind id (reconcile_terminal_deployment e es dep)
            (λ _. pure {A = Option Context} none) w (terminal-Safe e es id dep w h) (λ _ w1 h1. h1))
    | inr t ↦
        simp (k, t, prepare)
          (Safe-bind id (ensure_build e dep) (prepare_volume e volume) w
            (ensure_build-Safe e id dep w h) (λ b w1 h1. prepare_volume-Safe e id volume b w1 h1))
  ]
]

service-Safe :
    (e : Env) (id : ℕ) (s : Option ℕ) (w : World)
    → Halted id w
    → Safe id (when (is_some s) (call e Site.find_service) w)
service-Safe e id none w h = h
service-Safe e id (some s) w h = call-Safe e Site.find_service id w h

prepare_deployment-Safe :
    (e : Env) (es : ℕ → Env) (id : ℕ) (w : World)
    → Halted id w
    → Safe id (prepare_deployment e es w)
unfolding prepare_deployment
prepare_deployment-Safe e es id w h =
    let go = prepare e es w.deployment in
    let volume = project_volume_for_deployment e Site.find_volume w.deployment in
    let service = when (is_some w.deployment.service_id) (call e Site.find_service) in
    Safe-bind id (call e Site.find_deployment)
      (λ _. (call e Site.find_project >> (service >> (volume >>= go)))) w
      (call-Safe e Site.find_deployment id w h)
      (λ _ w1 h1.
        Safe-bind id (call e Site.find_project) (λ _. (service >> (volume >>= go))) w1
          (call-Safe e Site.find_project id w1 h1)
          (λ _ w2 h2.
            Safe-bind id service (λ _. (volume >>= go)) w2
              (service-Safe e id w.deployment.service_id w2 h2)
              (λ _ w3 h3.
                Safe-bind id volume go w3
                  (project_volume_lem (Halted id) (Halted id) e Site.find_volume w.deployment w3 h3
                    h3)
                  (λ v w4 h4. prepare-Safe e es id w.deployment v w4 h4))))

finish-Safe :
    (e : Env) (id desired up : ℕ) (dep : DeploymentRow) (w : World)
    → dep.running ≡ true
    → Halted id w
    → Safe id (finish_instances e dep desired up w)
unfolding finish_instances promote_deployment
finish-Safe e id desired up dep w r h = elim (Bool-cases (ltb up desired)) [
  | inl k ↦ simp (k, finish_instances) h
  | inr k ↦
      let clear = update_deployment e Site.clear_wake (λ d. record d { wake_requested = false }) in
      simp (k, r, finish_instances, promote_deployment)
        (Safe-bind id (when dep.wake_requested (clear >>= λ _. pure tt)) (λ _. pure tt) w
          (elim (Bool-cases dep.wake_requested) [
            | inr n ↦ simp n h
            | inl n ↦ simp n (
                Safe-bind id clear (λ _. pure tt) w
                  (update-Safe e Site.clear_wake id (λ d. record d { wake_requested = false }) w h.0
                    h.1 h)
                  (λ _ w1 h1. h1))
          ])
          (λ _ w1 h1. h1))
]

-- The part has read a promoted deployment with an open circuit.
abbrev pub HasReadOpen : Part → Type 0
HasReadOpen (prepared e es) = Unit
HasReadOpen (instance_pass e p j inst) = p.dep.circuit_broken ≡ true
HasReadOpen (finished e dep desired up) = dep.running ≡ true

part-Halted :
    (id : ℕ) (part : Part) (w : World)
    → HasReadOpen part
    → Halted id w
    → Halted id (run_part part w)
unfolding run_part
part-Halted id (prepared e es) w r h =
    Ends_world (Halted id) (prepare_deployment e es) w (prepare_deployment-Safe e es id w h)
part-Halted id (instance_pass e p j inst) w r h =
    subst (λ o. Halted id o.1) (sym (open_circuit e p j inst w r)) h
part-Halted id (finished e dep desired up) w r h =
    Ends_world (Halted id) (finish_instances e dep desired up) w
      (finish-Safe e id desired up dep w r h)

-- Once the circuit of a promoted deployment is open, its preparations, the passes over instances that
-- have read the circuit as open, and the promotions that have read the deployment as promoted, in
-- whatever order and whatever fails, neither close the circuit nor start an instance of it.
pub run_parts-Halted :
    (id : ℕ) (parts : List Part) (w : World)
    → All HasReadOpen parts
    → Halted id w
    → Halted id (run_parts parts w)
unfolding run_parts
run_parts-Halted id [] w r h = h
run_parts-Halted id (part ∷ parts) w r h =
    run_parts-Halted id parts (run_part part w) r.1 (part-Halted id part w r.0 h)
