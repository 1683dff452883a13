-- ===== src/Deploy/Launched.antt =====
-- internal/deploy/deploy_instance.go, `startNewInstance`: an instance keeps its server, and a start that
-- fails leaves nothing running.
use kindling.Base.{
  ℕ, refl, sym, ◌∙◌, ap, Bool, true, false, not, ◌&&◌, Option, none, some, Text, Bool-cases,
  Option-cases, inl, inr, ==_refl, false≢true,
}
use kindling.Fleet.{LaunchMode, select_launch_mode}
use kindling.Deploy.{DeploymentRow, InstanceRow, InstanceStatus, VmStatus, World, Env, Site}
use kindling.Deploy.Store.{
  Action, ◌>>=◌, ◌>>◌, attempt, ignore, when, pure, fail, update_status, update_vm_status, stop,
  attach_volume,
}
use kindling.Deploy.Assignment.{is_warm_pool_instance, is_stopped}
use kindling.Deploy.Resume.{wait_healthy}
use kindling.Deploy.Start.{
  set_running, give_up_unless, normalize, record_launched, launch_instance,
  persist_instance_vm_metadata, delete_failed, give_up, or_give_up, record_started, start_mode,
  start_new_instance, view,
}
use kindling.Deploy.Rules.{
  update_vm_status-Same, attach_volume-Same, Ends-always, Ends, Ends->>=, Ends-mono, Ends-attempt,
  Ends-ignore, soft_delete_vm-Same,
}
use kindling.Deploy.Owned.{server_of}
use kindling.Deploy.Launching.{
  Here, Fallen, Resting, Same-Here, status-Here, status-Resting, status-Fallen, launch-Fallen,
  persist-Here,
}

stop-Fallen :
    (e : Env) (id : ℕ) (w : World) → Here e id w → Fallen e id (stop e Site.stop_failed id w).1
unfolding stop
stop-Fallen e id w h = elim (Bool-cases (e.fails Site.stop_failed)) [
  | inl f ↦ simp (f, stop) (h, λ k. absurd (false≢true (sym k)))
  | inr f ↦ simp (f, stop, ==_refl id) (h, λ k. refl)
]

delete_failed-Fallen :
    (e : Env) (id : ℕ) (vm : Option ℕ) (w : World)
    → Fallen e id w
    → Ends (λ _ w'. Fallen e id w') (Fallen e id) (delete_failed e vm w)
unfolding delete_failed
delete_failed-Fallen e id none w h = h
delete_failed-Fallen e id (some v) w (h, k) =
    let (i, a, _, _) = soft_delete_vm-Same e Site.delete_failed_vm v w in
    (ap (λ f. server_of (f id)) i ∙ h, λ s. ap (λ f. f id) a ∙ k s)

give_up-Fallen :
    (e : Env) (id : ℕ) (vm : Option ℕ) (w : World)
    → Here e id w
    → Ends (λ _ w'. Here e id w') (Fallen e id) (give_up e id vm w)
unfolding give_up
give_up-Fallen e id vm w h =
    let w1 = (stop e Site.stop_failed id w).1 in
    let fallen = λ (a : Unit {0}) (w' : World). Fallen e id w' in
    Ends->>= {B = Unit {0}} fallen (λ _ w'. Here e id w') (Fallen e id) (delete_failed e vm)
      (λ _. (do ignore (update_status e Site.mark_failed id InstanceStatus.failed); fail)) w1
      (delete_failed-Fallen e id vm w1 (stop-Fallen e id w h))
      (λ _ w' k.
        Ends->>= {B = Unit {0}} fallen (λ _ v. Here e id v) (Fallen e id)
          (ignore (update_status e Site.mark_failed id InstanceStatus.failed)) (λ _. fail) w'
          (Ends-ignore (Fallen e id) (Fallen e id)
            (update_status e Site.mark_failed id InstanceStatus.failed) w'
            (status-Fallen e Site.mark_failed id InstanceStatus.failed w' k))
          (λ _ v q. q))

unless-Fallen :
    (e : Env) (id : ℕ) (vm : Option ℕ) (done : Option (Unit {0})) (w : World)
    → Here e id w
    → Ends (λ _ w'. Here e id w') (Fallen e id) (give_up_unless e id vm done w)
unfolding give_up_unless
unless-Fallen e id vm none w h = give_up-Fallen e id vm w h
unless-Fallen e id vm (some _) w h = h

or_give_up-Fallen :
    (e : Env) (id : ℕ) (vm : Option ℕ) (m : Action (Unit {0})) (w : World)
    → Ends (λ _ w'. Here e id w') (Here e id) (m w)
    → Ends (λ _ w'. Here e id w') (Fallen e id) (or_give_up e id vm m w)
unfolding or_give_up
or_give_up-Fallen e id vm m w h =
    Ends->>= {B = Unit {0}} (λ _ w'. Here e id w') (λ _ w'. Here e id w') (Fallen e id) (attempt m)
      (give_up_unless e id vm) w (Ends-attempt (Here e id) (Fallen e id) m w h)
      (λ r w' k. unless-Fallen e id vm r w' k)

pub wait-Here :
    (e : Env) (id : ℕ) (w : World)
    → Here e id w
    → Ends (λ _ w'. Here e id w') (Here e id) (wait_healthy e w)
wait-Here e id w h = elim (Bool-cases (e.external && not e.becomes_healthy)) [
  | inl k ↦ simp k h
  | inr k ↦ simp k h
]

mark-Here :
    (e : Env) (id : ℕ) (w : World)
    → Here e id w
    → Ends (λ _ w'. Here e id w') (Here e id) (set_running e id w)
unfolding set_running
mark-Here e id w h =
    Ends->>= {B = Unit {0}} (λ _ w'. Here e id w') (λ _ w'. Here e id w') (Here e id)
      (update_status e Site.mark_running id InstanceStatus.running) (λ _. pure tt) w
      (status-Here e Site.mark_running id InstanceStatus.running w h) (λ _ w' k. k)

attach_volume-Fallen :
    (e : Env) (id vm : ℕ) (persistent : Bool) (w : World)
    → Here e id w
    → Ends
        (λ _ w'. Here e id w')
        (Fallen e id)
        (when persistent (or_give_up e id (some vm) (attach_volume e (some e.self) vm)) w)
attach_volume-Fallen e id vm false w h = h
attach_volume-Fallen e id vm true w h =
    or_give_up-Fallen e id (some vm) (attach_volume e (some e.self) vm) w (
      Ends-always (Here e id) (attach_volume e (some e.self) vm) w (
        Same-Here e id w (attach_volume e (some e.self) vm w).1
          (attach_volume-Same e (some e.self) vm w) h))

record-Fallen :
    (e : Env) (id vm : ℕ) (persistent : Bool) (w : World)
    → Here e id w
    → Ends (λ _ w'. Here e id w') (Fallen e id) (record_started e id (some e.self) vm persistent w)
unfolding record_started
record-Fallen e id vm persistent w h =
    let here = λ (a : Unit {0}) (w' : World). Here e id w' in
    let vm_up = update_vm_status e Site.mark_vm_running vm VmStatus.running in
    let attach = when persistent (or_give_up e id (some vm) (attach_volume e (some e.self) vm)) in
    let up = or_give_up e id (some vm) (set_running e id) in
    Ends->>= {B = Unit {0}} here here (Fallen e id) (or_give_up e id (some vm) (wait_healthy e))
      (λ _. (or_give_up e id (some vm) vm_up >> (up >> attach))) w
      (or_give_up-Fallen e id (some vm) (wait_healthy e) w (wait-Here e id w h))
      (λ _ w1 h1.
        Ends->>= {B = Unit {0}} here here (Fallen e id) (or_give_up e id (some vm) vm_up)
          (λ _. (up >> attach)) w1
          (or_give_up-Fallen e id (some vm) vm_up w1 (
            Ends-always (Here e id) vm_up w1 (
              Same-Here e id w1 (vm_up w1).1
                (update_vm_status-Same e Site.mark_vm_running vm VmStatus.running w1) h1)))
          (λ _ w2 h2.
            Ends->>= {B = Unit {0}} here here (Fallen e id) up (λ _. attach) w2
              (or_give_up-Fallen e id (some vm) (set_running e id) w2 (mark-Here e id w2 h2))
              (λ _ w3 h3. attach_volume-Fallen e id vm persistent w3 h3)))

launched-Fallen :
    (e : Env) (id : ℕ) (persistent : Bool) (vm : Option ℕ) (w : World)
    → Here e id w
    → Ends (λ _ w'. Here e id w') (Fallen e id) (record_launched e id persistent vm w)
unfolding record_launched
launched-Fallen e id persistent none w h = give_up-Fallen e id none w h
launched-Fallen e id persistent (some vm) w h = record-Fallen e id vm persistent w h

mode-Fallen :
    (e : Env) (dep : DeploymentRow) (id : ℕ) (mode : LaunchMode) (persistent : Bool) (w : World)
    → Resting e id w
    → Ends (λ _ w'. Here e id w') (Fallen e id) (start_mode e dep id mode persistent w)
unfolding start_mode
mode-Fallen e dep id mode persistent w h =
    let persist = attempt (persist_instance_vm_metadata e id dep.image_id e.self) in
    Ends->>= {B = Unit {0}} (λ _ w'. Resting e id w') (λ _ w'. Here e id w') (Fallen e id)
      (update_status e Site.mark_starting id InstanceStatus.starting)
      (λ _. (launch_instance e id mode >> (persist >>= record_launched e id persistent))) w
      (Ends-mono (λ _ w'. Resting e id w') (λ _ w'. Resting e id w') (Resting e id) (Fallen e id)
        (update_status e Site.mark_starting id InstanceStatus.starting) w
        (status-Resting e Site.mark_starting id InstanceStatus.starting w h) (λ _ w' k. k)
        (λ w' k. (k.0, λ _. k.1)))
      (λ _ w1 h1.
        Ends->>= {B = Unit {0}} (λ _ w'. Here e id w') (λ _ w'. Here e id w') (Fallen e id)
          (launch_instance e id mode) (λ _. (persist >>= record_launched e id persistent)) w1
          (launch-Fallen e id mode w1 h1)
          (λ _ w2 h2.
            Ends->>= {B = Unit {0}} (λ _ w'. Here e id w') (λ _ w'. Here e id w') (Fallen e id)
              persist (record_launched e id persistent) w2
              (Ends-attempt (Here e id) (Fallen e id)
                (persist_instance_vm_metadata e id dep.image_id e.self) w2
                (persist-Here e id dep.image_id e.self w2 h2))
              (λ vm w3 h3. launched-Fallen e id persistent vm w3 h3)))

normalize-Fallen :
    (e : Env) (id : ℕ) (inst : InstanceRow) (w : World)
    → Resting e id w
    → Ends (λ _ w'. Here e id w') (Fallen e id) (normalize e id inst w)
unfolding normalize
normalize-Fallen e id inst w h =
    elim (Bool-cases (is_warm_pool_instance inst && not (is_stopped inst.status))) [
      | inr k ↦ simp (k, normalize) h.0
      | inl k ↦
          simp (k, normalize)
            (Ends->>= {B = Unit {0}} (λ _ w'. Resting e id w') (λ _ w'. Here e id w') (Fallen e id)
              (update_status e Site.mark_stopped id InstanceStatus.stopped) (λ _. pure tt) w
              (Ends-mono (λ _ w'. Resting e id w') (λ _ w'. Resting e id w') (Resting e id)
                (Fallen e id) (update_status e Site.mark_stopped id InstanceStatus.stopped) w
                (status-Resting e Site.mark_stopped id InstanceStatus.stopped w h) (λ _ w' k. k)
                (λ w' k. (k.0, λ _. k.1)))
              (λ _ w' k. k.0))
    ]

-- An instance that is on this server, and does not run, stays on this server; and if the start ends with
-- an error, it does not run unless the runtime could not stop it.
pub start_new_instance-Fallen :
    (e : Env) (dep : DeploymentRow) (id : ℕ) (inst : InstanceRow) (template_ref : Text)
    → (persistent : Bool) (w : World) → Resting e id w
    → Ends
        (λ _ w'. Here e id w')
        (Fallen e id)
        (start_new_instance e dep id inst template_ref persistent w)
unfolding start_new_instance
start_new_instance-Fallen e dep id inst template_ref persistent w h =
    elim (Option-cases (select_launch_mode (view id inst) false template_ref)) [
      | inl n ↦ simp (n, start_new_instance) (normalize-Fallen e id inst w h)
      | inr (mode, n) ↦ simp (n, start_new_instance) (mode-Fallen e dep id mode persistent w h)
    ]
