-- ===== src/Deploy/Settled.antt =====
-- internal/deploy/deploy_instance.go: a pass over an instance that was started leaves it alone.
use kindling.Base.{
  ℕ, ◌≡◌, refl, sym, ◌∙◌, ap, Bool, true, false, ◌||◌, Option, none, some, Text, arith, Bool-cases,
  Option-cases, inl, inr, ==_refl, if◌then◌else◌, none≢some,
}
use kindling.Fleet.{LaunchMode, select_launch_mode}
use kindling.Volumes.{Volume}
use kindling.Deploy.{DeploymentRow, InstanceRow, InstanceStatus, VmRow, VmStatus, World, Env, Site}
use kindling.Deploy.Store.{
  kept, find_vm, volume_of, same_service, is_transitional, project_volume_for_deployment,
}
use kindling.Deploy.Assignment.{
  release, is_active_instance, is_draining, leave_draining, check_pinned,
  reconcile_instance_server_assignment, is_elsewhere,
}
use kindling.Deploy.Resume.{try_resume_from_suspended}
use kindling.Deploy.Start.{start_new_instance, start_mode, view}
use kindling.Deploy.Instance.{
  Pass, reconcile_one_instance, converge_instance, check_and_repair, repair_instance, try_resume,
  check_running, is_running_instance_healthy, should_treat_running_instance_as_healthy,
  should_keep_running_vm, local_runtime_healthy, is_template,
}
use kindling.Deploy.Started.{
  Works, start_mode-eq, started_world, started-vm, started-service, started-volume, running_row,
  running_vm, mounted, >>=-eq,
}

-- What the next pass finds: the calls succeed, the server does not drain, and the checks pass.
pub record Checks (e : Env) : Type 0 where
  pub statements : (s : Site) → e.fails s ≡ false
  pub stays : is_draining (e.server e.self) ≡ false
  pub healthy : e.healthy ≡ true
  pub host_check : e.host_check ≡ true

active-some :
    (id : ℕ) (r : InstanceRow) (template_ref : Text)
    → is_active_instance r ≡ true
    → ¬ (select_launch_mode (view id r) false template_ref ≡ none)
unfolding select_launch_mode is_active_instance
active-some id r template_ref h n = ground arith

pub active_mode :
    (id : ℕ) (r : InstanceRow) (template_ref : Text)
    → is_active_instance r ≡ true
    → (mode : LaunchMode) × (select_launch_mode (view id r) false template_ref ≡ some mode)
active_mode id r template_ref h =
    elim (Option-cases (select_launch_mode (view id r) false template_ref)) [
      | inr m ↦ m
      | inl n ↦ absurd (active-some id r template_ref h n)
    ]

kept-live : (o : Option Volume) (v : Volume) → kept o ≡ some v → v.deleted ≡ false
kept-live none v h = absurd (none≢some h)
kept-live (some u) v h = elim (Bool-cases u.deleted) [
  | inl d ↦ absurd (none≢some (sym (simp d refl) ∙ h))
  | inr d ↦ ground arith
]

module _ (e : Env) (checks : Checks e) (p : Pass) (id : ℕ) (inst : InstanceRow) (vm : ℕ) (v : VmRow)
    (w : World) (here : inst.server_id ≡ some e.self) (has_vm : inst.vm_id ≡ some vm)
    (up : inst.status ≡ InstanceStatus.running) (found : w.vms vm ≡ some v)
    (vm_up : v.status ≡ VmStatus.running) (vm_live : v.deleted ≡ false)
    (pinned : p.persistent ≡ true
      → (u : Volume) × (volume_of p.dep w ≡ some u)
        × (is_transitional u.status ≡ false)
        × (u.server_id ≡ some e.self)) where
  open checks use {statements, stays, healthy, host_check}

  stays-eq : leave_draining e id inst e.self w ≡ (some inst, w)
  unfolding leave_draining
  stays-eq = simp stays refl

  volume-eq :
      (u : Volume)
      → volume_of p.dep w ≡ some u
      → is_transitional u.status ≡ false
      → project_volume_for_deployment e Site.load_volume p.dep w ≡ (some (some u), w)
  unfolding project_volume_for_deployment
  volume-eq u a b = simp (statements Site.load_volume, a, b) refl

  pinned-eq : p.persistent ≡ true → check_pinned e p.dep id inst e.self w ≡ (some inst, w)
  unfolding check_pinned
  pinned-eq h =
      let (u, a, b, c) = pinned h in
      >>=-eq (project_volume_for_deployment e Site.load_volume p.dep)
        (λ volume.
          (if is_elsewhere volume e.self
            then release e Site.reset_pinned Site.refetch_pinned id
            else leave_draining e id inst e.self))
        w (volume-eq u a b)
      ∙ simp (c, ==_refl e.self) stays-eq

  assignment-eq :
      reconcile_instance_server_assignment e p.dep id inst p.persistent w ≡ (some inst, w)
  unfolding reconcile_instance_server_assignment
  assignment-eq = elim (Bool-cases p.persistent) [
    | inl h ↦ simp (here, h, reconcile_instance_server_assignment) (pinned-eq h)
    | inr h ↦ simp (here, h, reconcile_instance_server_assignment) stays-eq
  ]

  resume-eq : try_resume e id inst p.persistent inst.vm_id w ≡ (some false, w)
  unfolding try_resume try_resume_from_suspended find_vm
  resume-eq = simp (has_vm, statements Site.find_suspended_vm, found, vm_up) refl

  healthy-eq : check_running e inst inst.vm_id w ≡ (some true, w)
  unfolding check_running is_running_instance_healthy find_vm
      should_treat_running_instance_as_healthy should_keep_running_vm local_runtime_healthy
  healthy-eq = elim (Bool-cases e.hypervisor) [
    | inl k ↦
        simp
          (
            has_vm,
            up,
            statements Site.find_running_vm,
            found,
            here,
            ==_refl e.self,
            healthy,
            vm_live,
            vm_up,
            k,
          )
          refl
    | inr k ↦ elim (Bool-cases e.external) [
      | inl x ↦
          simp
            (
              has_vm,
              up,
              statements Site.find_running_vm,
              found,
              here,
              ==_refl e.self,
              healthy,
              vm_live,
              vm_up,
              k,
              x,
              host_check,
            )
            refl
      | inr x ↦
          simp
            (
              has_vm,
              up,
              statements Site.find_running_vm,
              found,
              here,
              ==_refl e.self,
              healthy,
              vm_live,
              vm_up,
              k,
              x,
            )
            refl
    ]
  ]

  -- A pass over a running instance that is healthy changes nothing.
  healthy_pass : reconcile_one_instance e p id inst w ≡ (some tt, w)
  unfolding reconcile_one_instance converge_instance check_and_repair repair_instance
  healthy_pass = elim (Bool-cases (is_template inst || p.dep.circuit_broken)) [
    | inl k ↦ simp k refl
    | inr k ↦ simp k (
        >>=-eq (reconcile_instance_server_assignment e p.dep id inst p.persistent)
          (converge_instance e p id) w assignment-eq
        ∙ (>>=-eq (try_resume e id inst p.persistent inst.vm_id) (check_and_repair e p id inst) w
              resume-eq
            ∙ >>=-eq (check_running e inst inst.vm_id) (repair_instance e p id inst) w healthy-eq))
  ]

volume_of-kept :
    (dep : DeploymentRow) (w : World) (v : Volume)
    → volume_of dep w ≡ some v
    → kept w.volume ≡ some v
unfolding volume_of
volume_of-kept dep w v h = elim (Bool-cases (same_service dep.service_id w.volume_service_id)) [
  | inl s ↦ sym (simp (s, volume_of) refl) ∙ h
  | inr s ↦ absurd (none≢some (sym (simp (s, volume_of) refl) ∙ h))
]

volume_of-own :
    (dep : DeploymentRow) (w : World) (v : Volume)
    → volume_of dep w ≡ some v
    → same_service dep.service_id w.volume_service_id ≡ true
unfolding volume_of
volume_of-own dep w v h = elim (Bool-cases (same_service dep.service_id w.volume_service_id)) [
  | inl s ↦ s
  | inr s ↦ absurd (none≢some (sym (simp (s, volume_of) refl) ∙ h))
]

mounted-eq :
    (e : Env) (dep : DeploymentRow) (w w' : World) (v : Volume)
    → volume_of dep w ≡ some v
    → w'.volume_service_id ≡ w.volume_service_id
    → w'.volume ≡ some (mounted e v)
    → volume_of dep w' ≡ some (mounted e v)
unfolding volume_of
mounted-eq e dep w w' v h s m =
    simp (m, s, volume_of-own dep w v h, kept-live w.volume v (volume_of-kept dep w v h), volume_of)
      refl

pub launched-eq :
    (e : Env) (dep : DeploymentRow) (id : ℕ) (inst : InstanceRow) (template_ref : Text)
    (persistent : Bool)
    → (w : World) (mode : LaunchMode)
    → select_launch_mode (view id inst) false template_ref ≡ some mode
    → start_new_instance e dep id inst template_ref persistent w
      ≡ start_mode e dep id mode persistent w
unfolding start_new_instance
launched-eq e dep id inst template_ref persistent w mode m = simp (m, start_new_instance) refl

-- Where nothing fails, a start leaves the instance running here with a new machine, and a next pass whose
-- checks succeed changes nothing.
pub start_new_instance-settled :
    (e next : Env) (works : Works e) (checks : Checks next) (p : Pass) (id image : ℕ)
    (r : InstanceRow)
    → (v : Volume) (w : World) → next.self ≡ e.self
    → w.instances id ≡ some r
    → is_active_instance r ≡ true
    → r.server_id ≡ some e.self
    → r.vm_id ≡ none
    → r.deleted ≡ false
    → p.dep.image_id ≡ some image
    → (p.persistent ≡ true → volume_of p.dep w ≡ some v)
    → let w' = started_world e id image r p.persistent v w in
      (start_new_instance e p.dep id r p.template_ref p.persistent w ≡ (some tt, w'))
      × (reconcile_one_instance next p id (running_row e r) w' ≡ (some tt, w'))
unfolding is_transitional
start_new_instance-settled e next works checks p id image r v w s k a h n d i u =
    let (mode, m) = active_mode id r p.template_ref a in
    let w' = started_world e id image r p.persistent v w in
    (
      launched-eq e p.dep id r p.template_ref p.persistent w mode m
          ∙ start_mode-eq e works p.dep id image r mode p.persistent v w k n d i
              (λ q. volume_of-kept p.dep w v (u q)),
      healthy_pass next checks p id (running_row e r) e.fresh (running_vm e image) w'
          (h ∙ ap some (sym s)) refl refl (started-vm e id image r v w p.persistent) refl refl
          (λ q. (
            mounted e v,
            mounted-eq e p.dep w w' v (u q) (started-service e id image r v w p.persistent)
                (started-volume e id image r v w p.persistent q),
            refl,
            ap some (sym s),
          )),
    )
