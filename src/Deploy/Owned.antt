-- ===== src/Deploy/Owned.antt =====
-- internal/deploy/deploy_instance.go: only the server of an instance runs it.
use kindling.Base.{
  ℕ, ◌≡◌, refl, sym, ◌∙◌, ap, subst, Bool, false, Option, none, some, arith, Bool-cases,
  Option-cases, inl, inr, ==_refl, if◌then◌else◌,
}
use kindling.Volumes.{available}
use kindling.Deploy.{InstanceRow, World, Env, Site, DeploymentRow}
use kindling.Deploy.Store.{
  ◌>>=◌, pure, update_instance, find_instance, stop, reset_for_retry, soft_delete_instance,
  soft_delete_vm, detach_if_attached, find_vm, project_volume_for_deployment,
}
use kindling.Deploy.Assignment.{
  check_pinned, delete_rows, delete_instance_permanently, release, leave_draining,
  reconcile_instance_server_assignment, is_elsewhere, is_draining, is_warm_pool_instance,
  is_running, vm_suspended,
}
use kindling.Deploy.Rules.{
  Ends, Ends->>=, Ends-mono, Same, drop_vm-Same, update_instance_lem, find_instance_lem, Updated,
  project_volume_lem,
}

abbrev pub server_of : Option InstanceRow → Option ℕ
server_of none = none
server_of (some r) = r.server_id

-- The instance does not run here.
abbrev pub Idle : ℕ → World → Type 0
Idle id w = w.alive id ≡ false

-- The copy of the row has the server of the row, and the instance does not run here.
abbrev pub Tracked : ℕ → InstanceRow → World → Type 0
Tracked id inst w = (w.alive id ≡ false) × (server_of (w.instances id) ≡ inst.server_id)

stop-Tracked :
    (e : Env) (s : Site) (id : ℕ) (inst : InstanceRow) (w : World)
    → Tracked id inst w
    → Tracked id inst (stop e s id w).1
unfolding stop
stop-Tracked e s id inst w (a, b) = elim (Bool-cases (e.fails s)) [
  | inl h ↦ simp h (a, b)
  | inr h ↦ simp (h, ==_refl id) (refl, b)
]

Same-Tracked :
    (id : ℕ) (inst : InstanceRow) (w w' : World)
    → Same w w'
    → Tracked id inst w
    → Tracked id inst w'
Same-Tracked id inst w w' (i, a, _, _) (h, k) =
    (ap (λ f. f id) a ∙ h, ap (λ f. server_of (f id)) i ∙ k)

soft_delete_instance-Tracked :
    (e : Env) (id : ℕ) (inst : InstanceRow) (w : World)
    → Tracked id inst w
    → Tracked id inst (soft_delete_instance e id w).1
unfolding soft_delete_instance
soft_delete_instance-Tracked e id inst w (a, b) = elim (Bool-cases (e.fails Site.delete_instance)) [
  | inl h ↦ simp h (a, b)
  | inr h ↦ elim (Option-cases (w.instances id)) [
    | inl n ↦ ground (arith, ==_refl id)
    | inr (r, n) ↦ ground (arith, ==_refl id)
  ]
]

delete_rows-Tracked :
    (e : Env) (id : ℕ) (inst : InstanceRow) (vm : Option ℕ) (w : World)
    → Tracked id inst w
    → Ends (λ _ w'. Tracked id inst w') (Idle id) (delete_rows e id vm w)
unfolding delete_rows
delete_rows-Tracked e id inst none w t = soft_delete_instance-Tracked e id inst w t
delete_rows-Tracked e id inst (some vm) w t =
    let w' =
      (soft_delete_vm e Site.delete_vm vm
        (detach_if_attached e Site.detach_deleted vm available w).1).1 in
    soft_delete_instance-Tracked e id inst w' (
      Same-Tracked id inst w w' (drop_vm-Same e Site.detach_deleted Site.delete_vm vm available w)
        t)

-- A deletion changes no server.
delete-Tracked :
    (e : Env) (id : ℕ) (inst row : InstanceRow) (w : World)
    → Tracked id inst w
    → Ends (λ _ w'. Tracked id inst w') (Idle id) (delete_instance_permanently e id row w)
unfolding delete_instance_permanently
delete-Tracked e id inst row w t =
    delete_rows-Tracked e id inst row.vm_id (stop e Site.stop_deleted id w).1
      (stop-Tracked e Site.stop_deleted id inst w t)

-- After a reset the copy is the row.
pub released :
    (e : Env) (s t : Site) (id : ℕ) (f : InstanceRow → InstanceRow) (w : World)
    → Idle id w
    → Ends (Tracked id) (Idle id) ((update_instance e s id f >>= λ _. find_instance e t id) w)
released e s t id f w h =
    Ends->>= (λ _ w'. Idle id w') (Tracked id) (Idle id) (update_instance e s id f)
      (λ _. find_instance e t id) w
      (Ends-mono (Updated id f w) (λ _ w'. Idle id w') (λ w'. w' ≡ w) (Idle id)
        (update_instance e s id f) w (update_instance_lem e s id f w)
        (λ r w' (old, a, b, c, d). ap (λ v. v.alive id) d ∙ h) (λ w' d. ap (λ v. v.alive id) d ∙ h))
      (λ r w' i.
        Ends-mono (λ r w''. (w'' ≡ w') × (w'.instances id ≡ some r)) (Tracked id) (λ w''. w'' ≡ w')
          (Idle id) (find_instance e t id) w' (find_instance_lem e t id w')
          (λ r w'' (d, k).
            (ap (λ v. v.alive id) d ∙ i, ap (λ v. server_of (v.instances id)) d ∙ ap server_of k))
          (λ w'' d. ap (λ v. v.alive id) d ∙ i))

leave_draining-Tracked :
    (e : Env) (id : ℕ) (inst : InstanceRow) (server : ℕ) (w : World)
    → Tracked id inst w
    → Ends (Tracked id) (Idle id) (leave_draining e id inst server w)
unfolding leave_draining find_vm release
leave_draining-Tracked e id inst server w t =
    let deleted =
      Ends->>= (λ _ w'. Tracked id inst w') (Tracked id) (Idle id)
        (delete_instance_permanently e id inst) (λ _. pure inst) w
        (delete-Tracked e id inst inst w t) (λ _ w' t'. t') in
    let out = released e Site.reset_drained Site.refetch_drained id reset_for_retry w t.0 in
    elim (Bool-cases (is_draining (e.server server))) [
      | inr d ↦ simp (d, leave_draining) t
      | inl d ↦ elim (Bool-cases (is_warm_pool_instance inst)) [
        | inl p ↦ simp (d, p, leave_draining) deleted
        | inr p ↦ elim (Option-cases inst.vm_id) [
          | inl n ↦ simp (d, p, n, leave_draining, release) out
          | inr (vm, n) ↦
              elim (Bool-cases
                (vm_suspended (if e.fails Site.find_draining_vm then none else w.vms vm))) [
                  | inl s ↦ simp (d, p, n, s, leave_draining) deleted
                  | inr s ↦ elim (Bool-cases (is_running inst.status)) [
                    | inl r ↦ simp (d, p, n, s, r, leave_draining) t
                    | inr r ↦ simp (d, p, n, s, r, leave_draining, release) out
                  ]
                ]
        ]
      ]
    ]

-- A result of an action, put for an equal one.
pub by_result :
    {A : Type 0} (Q : A → World → Type 0) (X : World → Type 0) (o r : Option A × World)
    → o ≡ r
    → Ends Q X r
    → Ends Q X o
by_result Q X o r e h = subst (λ o. Ends Q X o) (sym e) h

check_pinned-Tracked :
    (e : Env) (dep : DeploymentRow) (id : ℕ) (inst : InstanceRow) (server : ℕ) (w : World)
    → Tracked id inst w
    → Ends (Tracked id) (Idle id) (check_pinned e dep id inst server w)
unfolding check_pinned release
check_pinned-Tracked e dep id inst server w t =
    Ends->>= (λ _ w'. Tracked id inst w') (Tracked id) (Idle id)
      (project_volume_for_deployment e Site.load_volume dep)
      (λ volume.
        (if is_elsewhere volume server
          then release e Site.reset_pinned Site.refetch_pinned id
          else leave_draining e id inst server))
      w (project_volume_lem (Tracked id inst) (Idle id) e Site.load_volume dep w t t.0)
      (λ volume w' t'. elim (Bool-cases (is_elsewhere volume server)) [
        | inl m ↦
            simp (m, release)
              (released e Site.reset_pinned Site.refetch_pinned id reset_for_retry w' t'.0)
        | inr m ↦ simp m (leave_draining-Tracked e id inst server w' t')
      ])

pub assignment-Tracked :
    (e : Env) (dep : DeploymentRow) (id : ℕ) (inst : InstanceRow) (persistent : Bool) (w : World)
    → Tracked id inst w
    → Ends (Tracked id) (Idle id) (reconcile_instance_server_assignment e dep id inst persistent w)
unfolding reconcile_instance_server_assignment
assignment-Tracked e dep id inst persistent w t = elim (Option-cases inst.server_id) [
  | inl n ↦
      by_result (Tracked id) (Idle id) _ (some inst, w)
        (simp (n, reconcile_instance_server_assignment) refl) t
  | inr (server, n) ↦ elim (Bool-cases persistent) [
    | inr p ↦
        by_result (Tracked id) (Idle id) _ (leave_draining e id inst server w)
          (simp (n, p, reconcile_instance_server_assignment) refl)
          (leave_draining-Tracked e id inst server w t)
    | inl p ↦
        by_result (Tracked id) (Idle id) _ (check_pinned e dep id inst server w)
          (simp (n, p, reconcile_instance_server_assignment) refl)
          (check_pinned-Tracked e dep id inst server w t)
  ]
]
