-- ===== src/Deploy/Terminal.antt =====
-- internal/deploy/deploy.go: what becomes of the instances of a deployment that has ended.
use kindling.Base.{
  ℕ, ◌≡◌, refl, sym, ◌∙◌, ap, subst, Bool, true, false, ◌&&◌, Option, none, some, List, [], ◌∷◌,
  Bool-cases, Option-cases, inl, inr, count, if◌then◌else◌, ◌<◌,
}
use kindling.Volumes.{Volume}
use kindling.Deploy.{DeploymentRow, InstanceRow, World, Env, Site}
use kindling.Deploy.Store.{
  volume_of, is_transitional, project_volume_for_deployment, kept, ◌>>=◌, ◌>>◌, when, pure, live,
  find_vm,
}
use kindling.Deploy.Assignment.{delete_instance_permanently, on_vm}
use kindling.Deploy.Reconcile.{
  prepare_deployment, set_unavailable, is_terminal, is_preview, prepare, Context, update_deployment,
  vm_live, fail_preview_volume_deployment, list_instances, delete_instances,
  cleanup_deployment_all_instances, reconcile_terminal_deployment, delete_deployment_vm,
}
use kindling.Scaling.{is_some}
use kindling.Deploy.Resume.{call}
use kindling.Deploy.Started.{>>=-eq}
use kindling.Deploy.Rules.{soft_delete_vm-Same}
use kindling.Deploy.Deleted.{cleanup-eq, all-IsGone, IsGone, Deletes, delete-eq, list-has_row}

vm_kept :
    (e : Env) (vm : Option ℕ) (id : ℕ) (w : World)
    → IsGone id w
    → IsGone id (on_vm vm (delete_deployment_vm e) w).1
unfolding delete_deployment_vm find_vm
vm_kept e none id w h = h
vm_kept e (some vm) id w (a, b) =
    let found = if e.fails Site.find_deployment_vm then none else w.vms vm in
    elim (Bool-cases (vm_live found)) [
      | inr k ↦ simp (k, delete_deployment_vm) (a, b)
      | inl k ↦
          let (i, l, _, _) = soft_delete_vm-Same e Site.delete_deployment_vm vm w in
          simp (k, delete_deployment_vm) (ap (λ f. f id) l ∙ a, ap (λ f. live (f id)) i ∙ b)
    ]

delete_all-eq :
    (es : ℕ → Env) (rows : List (ℕ × InstanceRow)) (w : World)
    → delete_instances es rows w ≡ (some tt, (delete_instances es rows w).1)
unfolding delete_instances
delete_all-eq es [] w = refl
delete_all-eq es ((j, inst) ∷ rows) w =
    let step =
      >>=-eq (delete_instance_permanently (es j) j inst) (λ _. delete_instances es rows) w
        (delete-eq (es j) j inst w) in
    step
    ∙ delete_all-eq es rows (delete_instance_permanently (es j) j inst w).1
    ∙ ap (λ o. (some tt, o.1)) (sym step)

terminal-IsGone :
    (e : Env) (es : ℕ → Env) (deletes : (id : ℕ) → Deletes (es id)) (dep : DeploymentRow)
    (w : World)
    → (id : ℕ) (inst : InstanceRow) → e.fails Site.list_instances ≡ false
    → 0 < count id w.ids
    → live (w.instances id) ≡ some inst
    → IsGone id (reconcile_terminal_deployment e es dep w).1
unfolding reconcile_terminal_deployment
terminal-IsGone e es deletes dep w id inst f c k =
    let rows = list_instances w.instances w.ids in
    let w' = (delete_instances es rows w).1 in
    let done = cleanup-eq es deletes e w f ∙ delete_all-eq es rows w in
    subst (λ o. IsGone id o.1)
      (sym (
        >>=-eq (cleanup_deployment_all_instances e es)
          (λ _. on_vm dep.vm_id (delete_deployment_vm e)) w done))
      (vm_kept e dep.vm_id id w'
        (all-IsGone es deletes rows id w (list-has_row w.instances w.ids id inst c k)))

-- What becomes of an instance, by whether the deployment is a preview of a project with a volume.
abbrev pub Ended : Bool → ℕ → World → World → Type 0
Ended true id w w' = (w'.instances ≡ w.instances) × (w'.alive ≡ w.alive)
Ended false id w w' = IsGone id w'

unavailable-same :
    (e : Env) (w : World)
    → ((set_unavailable e w).instances ≡ w.instances) × ((set_unavailable e w).alive ≡ w.alive)
unavailable-same e w = elim (Bool-cases (e.fails Site.set_unavailable)) [
  | inl f ↦ simp f (refl, refl)
  | inr f ↦ elim (Option-cases (kept w.volume)) [
    | inl n ↦ simp (f, n) (refl, refl)
    | inr (v, n) ↦ simp (f, n) (refl, refl)
  ]
]

fail_preview-same :
    (e : Env) (dep : DeploymentRow) (w : World)
    → let w' = (fail_preview_volume_deployment e dep w).1 in
      (w'.instances ≡ w.instances) × (w'.alive ≡ w.alive)
unfolding fail_preview_volume_deployment update_deployment
fail_preview-same e dep w = elim (Bool-cases dep.failed) [
  | inl d ↦ simp (d, fail_preview_volume_deployment) (unavailable-same e w)
  | inr d ↦ elim (Bool-cases (e.fails Site.fail_preview)) [
    | inl f ↦ simp (d, f, fail_preview_volume_deployment) (unavailable-same e w)
    | inr f ↦ simp (d, f, fail_preview_volume_deployment) (unavailable-same e w)
  ]
]

-- To return after an action is to leave the world that it leaves.
abbrev returned : {A B : Type 0} → B → Option A × World → Option B × World
returned b (r, w) = elim r [ none ↦ (none, w) | some a ↦ pure b w ]

return-world : {A B : Type 0} (b : B) (o : Option A × World) → (returned b o).1 ≡ o.1
return-world b (none, w) = refl
return-world b (some a, w) = refl

prepare-Ended :
    (e : Env) (es : ℕ → Env) (deletes : (id : ℕ) → Deletes (es id)) (dep : DeploymentRow)
    → (volume : Option Volume) (w : World) (id : ℕ) (inst : InstanceRow)
    → e.fails Site.list_instances ≡ false
    → is_terminal dep ≡ true
    → 0 < count id w.ids
    → live (w.instances id) ≡ some inst
    → Ended (is_some volume && is_preview dep.kind) id w (prepare e es dep volume w).1
unfolding prepare
prepare-Ended e es deletes dep volume w id inst f t c k =
    elim (Bool-cases (is_some volume && is_preview dep.kind)) [
      | inl b ↦
          let (i, a) = fail_preview-same e dep w in
          let back =
            return-world {B = Option Context} none (fail_preview_volume_deployment e dep w) in
          simp (b, prepare) (ap (λ v. v.instances) back ∙ i, ap (λ v. v.alive) back ∙ a)
      | inr b ↦
          let back =
            return-world {B = Option Context} none (reconcile_terminal_deployment e es dep w) in
          simp (b, t, prepare)
            (subst (IsGone id) (sym back) (terminal-IsGone e es deletes dep w id inst f c k))
    ]

-- The reads of a pass succeed.
pub record Reads (e : Env) : Type 0 where
  pub deployment : e.fails Site.find_deployment ≡ false
  pub project : e.fails Site.find_project ≡ false
  pub service : e.fails Site.find_service ≡ false
  pub volume : e.fails Site.find_volume ≡ false
  pub list : e.fails Site.list_instances ≡ false

call-eq : (e : Env) (s : Site) (w : World) → e.fails s ≡ false → call e s w ≡ (some tt, w)
call-eq e s w f = simp f refl

service-eq :
    (e : Env) (s : Option ℕ) (w : World)
    → e.fails Site.find_service ≡ false
    → when (is_some s) (call e Site.find_service) w ≡ (some tt, w)
service-eq e none w f = refl
service-eq e (some s) w f = simp f refl

volume-eq :
    (e : Env) (dep : DeploymentRow) (w : World)
    → e.fails Site.find_volume ≡ false
    → ((v : Volume) → volume_of dep w ≡ some v → is_transitional v.status ≡ false)
    → project_volume_for_deployment e Site.find_volume dep w ≡ (some (volume_of dep w), w)
unfolding project_volume_for_deployment
volume-eq e dep w f h = elim (Option-cases (volume_of dep w)) [
  | inl n ↦ simp (f, n) refl
  | inr (v, n) ↦ simp (f, n, h v n) refl
]

prepare_deployment-eq :
    (e : Env) (es : ℕ → Env) (w : World)
    → Reads e
    → ((v : Volume) → volume_of w.deployment w ≡ some v → is_transitional v.status ≡ false)
    → prepare_deployment e es w ≡ prepare e es w.deployment (volume_of w.deployment w) w
unfolding prepare_deployment
prepare_deployment-eq e es w reads h =
    let go = prepare e es w.deployment in
    let volume = project_volume_for_deployment e Site.find_volume w.deployment in
    let service = when (is_some w.deployment.service_id) (call e Site.find_service) in
    >>=-eq (call e Site.find_deployment)
      (λ _. (call e Site.find_project >> (service >> (volume >>= go)))) w
      (call-eq e Site.find_deployment w reads.deployment)
    ∙ (>>=-eq (call e Site.find_project) (λ _. (service >> (volume >>= go))) w
          (call-eq e Site.find_project w reads.project)
        ∙ (>>=-eq service (λ _. (volume >>= go)) w
              (service-eq e w.deployment.service_id w reads.service)
            ∙ >>=-eq volume go w (volume-eq e w.deployment w reads.volume h)))

-- A pass over a deployment that has ended, whose project has no volume in a transitional status, where the
-- reads and the deletions succeed: afterwards no instance of it runs on the server of the pass, and the
-- row of each is deleted, on whichever server it is; but if the deployment is a preview and has a volume,
-- the rows of all instances, and what runs on the server, stay as they are.
pub prepare_deployment-Ended :
    (e : Env) (es : ℕ → Env) (deletes : (id : ℕ) → Deletes (es id)) (w : World) (id : ℕ)
    (inst : InstanceRow)
    → Reads e
    → ((v : Volume) → volume_of w.deployment w ≡ some v → is_transitional v.status ≡ false)
    → is_terminal w.deployment ≡ true
    → 0 < count id w.ids
    → live (w.instances id) ≡ some inst
    → Ended
        (is_some (volume_of w.deployment w) && is_preview w.deployment.kind)
        id
        w
        (prepare_deployment e es w).1
prepare_deployment-Ended e es deletes w id inst reads h t c k =
    let v = volume_of w.deployment w in
    subst (λ o. Ended (is_some v && is_preview w.deployment.kind) id w o.1)
      (sym (prepare_deployment-eq e es w reads h))
      (prepare-Ended e es deletes w.deployment v w id inst reads.list t c k)
