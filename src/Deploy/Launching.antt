-- ===== src/Deploy/Launching.antt =====
-- internal/deploy/deploy_instance.go: the launch of an instance and its new rows keep its server.
use kindling.Base.{
  subst, ℕ, ◌≡◌, refl, sym, ◌∙◌, ap, false, Option, none, some, arith, Bool-cases, inl, inr,
  ==_refl,
}
use kindling.Fleet.{LaunchMode, clone, cold, resume}
use kindling.Deploy.{
  InstanceRow, InstanceStatus, World, Env, Site, Launch, launched, missing, broken,
}
use kindling.Deploy.Store.{
  attempt, ignore, fail, update_instance, update_status, find_instance, soft_delete_vm,
}
use kindling.Deploy.Start.{
  new_vm_id, start_clone, launch_failed, start_cold, launch_instance, create_vm, attach_new_vm,
  persist_new, persist_row, persist_instance_vm_metadata,
}
use kindling.Deploy.Rules.{
  Ends-always, Ends, Ends->>=, Ends-mono, Ends-attempt, Ends-ignore, Same, soft_delete_vm-Same,
  update_keeps, find_instance_lem,
}
use kindling.Deploy.Owned.{server_of}

-- The row of the instance has this server.
abbrev pub Here : Env → ℕ → World → Type 0
Here e id w = server_of (w.instances id) ≡ some e.self

-- The row is there, and nothing runs unless the runtime could not stop it.
abbrev pub Fallen : Env → ℕ → World → Type 0
Fallen e id w =
    (server_of (w.instances id) ≡ some e.self)
    × (e.fails Site.stop_failed ≡ false → w.alive id ≡ false)

abbrev pub Resting : Env → ℕ → World → Type 0
Resting e id w = (server_of (w.instances id) ≡ some e.self) × (w.alive id ≡ false)

pub Same-Here : (e : Env) (id : ℕ) (w w' : World) → Same w w' → Here e id w → Here e id w'
Same-Here e id w w' (i, _, _, _) h = ap (λ f. server_of (f id)) i ∙ h

pub status-Here :
    (e : Env) (s : Site) (id : ℕ) (status : InstanceStatus) (w : World)
    → Here e id w
    → Ends (λ _ w'. Here e id w') (Here e id) (update_status e s id status w)
status-Here e s id status w h =
    update_keeps (Here e id) e s id (λ r. record r { status = status }) w
      (λ r k. ground (arith, ==_refl id)) h

pub status-Resting :
    (e : Env) (s : Site) (id : ℕ) (status : InstanceStatus) (w : World)
    → Resting e id w
    → Ends (λ _ w'. Resting e id w') (Resting e id) (update_status e s id status w)
status-Resting e s id status w h =
    update_keeps (Resting e id) e s id (λ r. record r { status = status }) w
      (λ r k. (ground (arith, ==_refl id), h.1)) h

pub status-Fallen :
    (e : Env) (s : Site) (id : ℕ) (status : InstanceStatus) (w : World)
    → Fallen e id w
    → Ends (λ _ w'. Fallen e id w') (Fallen e id) (update_status e s id status w)
status-Fallen e s id status w h =
    update_keeps (Fallen e id) e s id (λ r. record r { status = status }) w
      (λ r k. (ground (arith, ==_refl id), h.1)) h

failed-Fallen :
    (e : Env) (id : ℕ) (w : World)
    → Resting e id w
    → Ends (λ _ w'. Here e id w') (Fallen e id) (launch_failed e id w)
unfolding launch_failed
failed-Fallen e id w (h, a) =
    Ends->>= {B = Unit {0}} (λ _ w'. Fallen e id w') (λ _ w'. Here e id w') (Fallen e id)
      (ignore (update_status e Site.mark_failed id InstanceStatus.failed)) (λ _. fail) w
      (Ends-ignore (Fallen e id) (Fallen e id)
        (update_status e Site.mark_failed id InstanceStatus.failed) w
        (status-Fallen e Site.mark_failed id InstanceStatus.failed w (h, λ _. a)))
      (λ _ w' k. k)

cold-Fallen :
    (e : Env) (id : ℕ) (w : World)
    → Resting e id w
    → Ends (λ _ w'. Here e id w') (Fallen e id) (start_cold e id w)
unfolding start_cold
cold-Fallen e id w h = elim (Bool-cases e.start) [
  | inl s ↦ simp (s, start_cold) h.0
  | inr s ↦ simp (s, start_cold) (failed-Fallen e id w h)
]

clone-Fallen :
    (e : Env) (id : ℕ) (l : Launch) (w : World)
    → Resting e id w
    → Ends (λ _ w'. Here e id w') (Fallen e id) (start_clone e id l w)
unfolding start_clone
clone-Fallen e id launched w h = h.0
clone-Fallen e id missing w h = cold-Fallen e id w h
clone-Fallen e id broken w h = failed-Fallen e id w h

pub launch-Fallen :
    (e : Env) (id : ℕ) (mode : LaunchMode) (w : World)
    → Resting e id w
    → Ends (λ _ w'. Here e id w') (Fallen e id) (launch_instance e id mode w)
unfolding launch_instance
launch-Fallen e id clone w h = elim (Bool-cases e.supports_clone) [
  | inl c ↦ simp (c, launch_instance) (clone-Fallen e id e.clone w h)
  | inr c ↦ simp (c, launch_instance) (cold-Fallen e id w h)
]
launch-Fallen e id cold w h = cold-Fallen e id w h
launch-Fallen e id resume w h = cold-Fallen e id w h

create_vm-Same : (e : Env) (server image : ℕ) (w : World) → Same w (create_vm e server image w).1
unfolding create_vm
create_vm-Same e server image w = elim (Bool-cases (e.fails Site.create_vm)) [
  | inl h ↦ simp (h, create_vm) (refl, refl, refl, refl)
  | inr h ↦ simp (h, create_vm) (refl, refl, refl, refl)
]

new_vm_id-Here :
    (e : Env) (id : ℕ) (attached : Option InstanceRow) (w : World)
    → Here e id w
    → Ends (λ _ w'. Here e id w') (Here e id) (new_vm_id e attached w)
unfolding new_vm_id
new_vm_id-Here e id none w h =
    Same-Here e id w (soft_delete_vm e Site.delete_unattached_vm e.fresh w).1
      (soft_delete_vm-Same e Site.delete_unattached_vm e.fresh w) h
new_vm_id-Here e id (some inst) w h = h

attach-Here :
    (e : Env) (id : ℕ) (w : World)
    → Here e id w
    → Ends (λ _ w'. Here e id w') (Here e id) (attach_new_vm e id w)
unfolding attach_new_vm
attach-Here e id w h =
    let step =
      λ (r : InstanceRow). record r { vm_id = some e.fresh; status = InstanceStatus.starting } in
    Ends->>= {B = ℕ} (λ _ w'. Here e id w') (λ _ w'. Here e id w') (Here e id)
      (attempt (update_instance e Site.attach_vm id step)) (new_vm_id e) w
      (Ends-attempt (Here e id) (Here e id) (update_instance e Site.attach_vm id step) w
        (update_keeps (Here e id) e Site.attach_vm id step w (λ r k. ground (arith, ==_refl id)) h))
      (λ r w' k. new_vm_id-Here e id r w' k)

persist_new-Here :
    (e : Env) (id : ℕ) (image : Option ℕ) (server : ℕ) (w : World)
    → Here e id w
    → Ends (λ _ w'. Here e id w') (Here e id) (persist_new e id image server w)
unfolding persist_new
persist_new-Here e id none server w h = h
persist_new-Here e id (some i) server w h = elim (Bool-cases e.parses) [
  | inr p ↦ simp (p, persist_new) h
  | inl p ↦
      simp (p, persist_new)
        (Ends->>= {B = ℕ} (λ _ w'. Here e id w') (λ _ w'. Here e id w') (Here e id)
          (create_vm e server i) (λ _. attach_new_vm e id) w
          (Ends-always (Here e id) (create_vm e server i) w
            (Same-Here e id w (create_vm e server i w).1 (create_vm-Same e server i w) h))
          (λ _ w' k. attach-Here e id w' k))
]

persist_row-Here :
    (e : Env) (id : ℕ) (image vm : Option ℕ) (server : ℕ) (w : World)
    → Here e id w
    → Ends (λ _ w'. Here e id w') (Here e id) (persist_row e id image server vm w)
unfolding persist_row
persist_row-Here e id image none server w h = persist_new-Here e id image server w h
persist_row-Here e id image (some vm) server w h = h

pub persist-Here :
    (e : Env) (id : ℕ) (image : Option ℕ) (server : ℕ) (w : World)
    → Here e id w
    → Ends (λ _ w'. Here e id w') (Here e id) (persist_instance_vm_metadata e id image server w)
unfolding persist_instance_vm_metadata
persist-Here e id image server w h =
    Ends->>= {B = ℕ} (λ _ w'. Here e id w') (λ _ w'. Here e id w') (Here e id)
      (find_instance e Site.fetch_instance id) (λ inst. persist_row e id image server inst.vm_id) w
      (Ends-mono (λ r w'. (w' ≡ w) × (w.instances id ≡ some r)) (λ _ w'. Here e id w')
        (λ w'. w' ≡ w) (Here e id) (find_instance e Site.fetch_instance id) w
        (find_instance_lem e Site.fetch_instance id w) (λ r w' (d, _). subst (Here e id) (sym d) h)
        (λ w' d. subst (Here e id) (sym d) h))
      (λ inst w' k. persist_row-Here e id image inst.vm_id server w' k)
