-- ===== src/Deploy/Resumed.antt =====
-- internal/deploy/deploy_instance.go, `tryResumeFromSuspended`: an instance is resumed only on its server.
use kindling.Base.{
  ◌||◌, ℕ, ◌≡◌, refl, ◌∙◌, ap, Bool, true, false, not, Option, none, some, arith, Bool-cases, inl,
  inr, ==_refl, if◌then◌else◌, false≢true,
}
use kindling.Fleet.{active}
use kindling.Fleet.Evacuation.{is_here}
use kindling.Volumes.{available}
use kindling.Deploy.{
  InstanceRow, InstanceStatus, VmStatus, World, Env, Site, Launch, launched, missing, broken,
}
use kindling.Deploy.Store.{
  Action, ◌>>=◌, ◌>>◌, when, pure, update_instance, update_status, update_vm_status, started,
  prepare_retry, find_vm,
}
use kindling.Deploy.Assignment.{is_warm_pool_instance, is_active_instance, vm_suspended}
use kindling.Deploy.Resume.{
  wait_healthy, try_resume_from_suspended, resume_here, resume_vm, record_resumed, reset_lost,
  clear_lost, call, promote_pooled,
}
use kindling.Deploy.Instance.{try_resume}
use kindling.Deploy.Rules.{
  Ends, Ends->>=, Ends-mono, drop_vm-Same, soft_delete_vm-Same, update_keeps, Ends-always,
  update_vm_status-Same,
}
use kindling.Deploy.Owned.{Idle, Tracked, by_result}
use kindling.Deploy.Launched.{wait-Here}
use kindling.Deploy.Launching.{Here, Resting, Same-Here, status-Here, status-Resting}
use kindling.Deploy.Placed.{Owned, Idle-Owned, is_here-some}

-- After a resumption the instance is owned; without one nothing has changed.
abbrev pub Resumed : Env → ℕ → InstanceRow → Bool → World → Type 0
Resumed e id inst true w = Owned e id w
Resumed e id inst false w = Tracked id inst w

record_resumed-Here :
    (e : Env) (id vm : ℕ) (w : World)
    → Here e id w
    → Ends (λ b w'. (b ≡ true) × Here e id w') (Here e id) (record_resumed e id vm w)
unfolding record_resumed
record_resumed-Here e id vm w h =
    let here = λ (a : Unit {0}) (w' : World). Here e id w' in
    let set_vm = update_vm_status e Site.mark_vm_resumed vm VmStatus.running in
    let set_row = update_status e Site.mark_resumed id InstanceStatus.running in
    let rest : Action Bool = (set_row >>= λ _. pure true) in
    Ends->>= {B = Bool} here (λ b w'. (b ≡ true) × Here e id w') (Here e id)
      (when e.parses (call e Site.update_address)) (λ _. (wait_healthy e >> (set_vm >> rest))) w
      (elim (Bool-cases e.parses) [
        | inr k ↦ simp k h
        | inl k ↦ elim (Bool-cases (e.fails Site.update_address)) [
          | inl f ↦ simp (k, f) h
          | inr f ↦ simp (k, f) h
        ]
      ])
      (λ _ w1 h1.
        Ends->>= {B = Bool} here (λ b w'. (b ≡ true) × Here e id w') (Here e id) (wait_healthy e)
          (λ _. (set_vm >> rest)) w1 (wait-Here e id w1 h1)
          (λ _ w2 h2.
            Ends->>= {B = Bool} here (λ b w'. (b ≡ true) × Here e id w') (Here e id) set_vm
              (λ _. rest) w2
              (Ends-always (Here e id) set_vm w2 (
                Same-Here e id w2 (set_vm w2).1
                  (update_vm_status-Same e Site.mark_vm_resumed vm VmStatus.running w2) h2))
              (λ _ w3 h3.
                Ends->>= {B = Bool} (λ _ w'. Here e id w') (λ b w'. (b ≡ true) × Here e id w')
                  (Here e id) set_row (λ _. pure true) w3
                  (status-Here e Site.mark_resumed id InstanceStatus.running w3 h3)
                  (λ _ w4 h4. (refl, h4)))))

clear_lost-Idle :
    (e : Env) (id vm : ℕ) (persistent : Bool) (w : World)
    → Idle id w
    → Ends (λ _ w'. Idle id w') (Idle id) (clear_lost e vm persistent w)
unfolding clear_lost
clear_lost-Idle e id vm false w h =
    let (_, a, _, _) = soft_delete_vm-Same e Site.delete_lost_vm vm w in ap (λ f. f id) a ∙ h
clear_lost-Idle e id vm true w h =
    let (_, a, _, _) = drop_vm-Same e Site.detach_lost Site.delete_lost_vm vm available w in
    ap (λ f. f id) a ∙ h

reset_lost-Idle :
    (e : Env) (id vm : ℕ) (persistent : Bool) (w : World)
    → Idle id w
    → Ends (λ b w'. (b ≡ true) × Idle id w') (Idle id) (reset_lost e id vm persistent w)
unfolding reset_lost
reset_lost-Idle e id vm persistent w h =
    let idle = λ (a : Unit {0}) (w' : World). Idle id w' in
    let prepare = update_instance e Site.prepare_lost id (prepare_retry e.now) in
    Ends->>= {B = Bool} idle (λ b w'. (b ≡ true) × Idle id w') (Idle id)
      (clear_lost e vm persistent) (λ _. (prepare >>= λ _. pure true)) w
      (clear_lost-Idle e id vm persistent w h)
      (λ _ w1 h1.
        Ends->>= {B = Bool} (λ _ w'. Idle id w') (λ b w'. (b ≡ true) × Idle id w') (Idle id) prepare
          (λ _. pure true) w1
          (update_keeps (Idle id) e Site.prepare_lost id (prepare_retry e.now) w1 (λ r k. h1) h1)
          (λ _ w2 h2. (refl, h2)))

abbrev Handled : Env → ℕ → Bool → World → Type 0
Handled e id done w = (done ≡ true) × Owned e id w

resume_vm-Handled :
    (e : Env) (id vm : ℕ) (persistent : Bool) (l : Launch) (w : World)
    → Resting e id w
    → Ends (Handled e id) (Owned e id) (resume_vm e id vm persistent l w)
unfolding resume_vm
resume_vm-Handled e id vm persistent launched w h =
    Ends-mono (λ b w'. (b ≡ true) × Here e id w') (Handled e id) (Here e id) (Owned e id)
      (record_resumed e id vm) (started id w) (record_resumed-Here e id vm (started id w) h.0)
      (λ b w' k. (k.0, λ _. k.1)) (λ w' k _. k)
resume_vm-Handled e id vm persistent missing w h =
    Ends-mono (λ b w'. (b ≡ true) × Idle id w') (Handled e id) (Idle id) (Owned e id)
      (reset_lost e id vm persistent) w (reset_lost-Idle e id vm persistent w h.1)
      (λ b w' k. (k.0, Idle-Owned e id w' k.1)) (λ w' k. Idle-Owned e id w' k)
resume_vm-Handled e id vm persistent broken w h = Idle-Owned e id w h.1

promote-Resting :
    (e : Env) (id : ℕ) (pooled : Bool) (w : World)
    → Resting e id w
    → Ends (λ _ w'. Resting e id w') (Resting e id) (promote_pooled e id pooled w)
unfolding promote_pooled
promote-Resting e id false w h = h
promote-Resting e id true w h =
    let step = λ (r : InstanceRow). record r { role = active } in
    Ends->>= {B = Unit {0}} (λ _ w'. Resting e id w') (λ _ w'. Resting e id w') (Resting e id)
      (update_instance e Site.promote_pooled id step) (λ _. pure tt) w
      (update_keeps (Resting e id) e Site.promote_pooled id step w
        (λ r k. (ground (arith, ==_refl id), h.1)) h)
      (λ _ w' k. k)

resume_here-Handled :
    (e : Env) (id : ℕ) (inst : InstanceRow) (vm : ℕ) (persistent : Bool) (w : World)
    → Resting e id w
    → Ends (Handled e id) (Owned e id) (resume_here e id inst vm persistent w)
unfolding resume_here
resume_here-Handled e id inst vm persistent w h =
    let resting = λ (a : Unit {0}) (w' : World). Resting e id w' in
    let mark = update_status e Site.mark_resuming id InstanceStatus.starting in
    let go = resume_vm e id vm persistent e.resume in
    Ends->>= {B = Bool} resting (Handled e id) (Owned e id)
      (promote_pooled e id (is_warm_pool_instance inst)) (λ _. (mark >>= λ _. go)) w
      (Ends-mono resting resting (Resting e id) (Owned e id)
        (promote_pooled e id (is_warm_pool_instance inst)) w
        (promote-Resting e id (is_warm_pool_instance inst) w h) (λ _ w' k. k)
        (λ w' k. Idle-Owned e id w' k.1))
      (λ _ w1 h1.
        Ends->>= {B = Bool} (λ _ w'. Resting e id w') (Handled e id) (Owned e id) mark (λ _. go) w1
          (Ends-mono (λ _ w'. Resting e id w') (λ _ w'. Resting e id w') (Resting e id) (Owned e id)
            mark w1 (status-Resting e Site.mark_resuming id InstanceStatus.starting w1 h1)
            (λ _ w' k. k) (λ w' k. Idle-Owned e id w' k.1))
          (λ _ w2 h2. resume_vm-Handled e id vm persistent e.resume w2 h2))

Handled-Resumed :
    (e : Env) (id : ℕ) (inst : InstanceRow) (done : Bool) (w : World)
    → Handled e id done w
    → Resumed e id inst done w
Handled-Resumed e id inst true w (d, h) = h
Handled-Resumed e id inst false w (d, h) = absurd (false≢true d)

try_from_suspended :
    (e : Env) (id : ℕ) (inst : InstanceRow) (vm : ℕ) (persistent : Bool) (w : World)
    → Tracked id inst w
    → Ends (Resumed e id inst) (Owned e id) (try_resume_from_suspended e id inst vm persistent w)
unfolding try_resume_from_suspended find_vm
try_from_suspended e id inst vm persistent w t =
    let found = if e.fails Site.find_suspended_vm then none else w.vms vm in
    elim (Bool-cases (not (vm_suspended found) || not (is_active_instance inst))) [
      | inl k ↦ simp (k, try_resume_from_suspended) t
      | inr k ↦ elim (Bool-cases (is_here e.self inst.server_id)) [
        | inr n ↦
            by_result (Resumed e id inst) (Owned e id) _ (some true, w)
              (simp (k, n, try_resume_from_suspended) refl) (Idle-Owned e id w t.0)
        | inl n ↦
            by_result (Resumed e id inst) (Owned e id) _ (resume_here e id inst vm persistent w)
              (simp (k, n, try_resume_from_suspended) refl)
              (Ends-mono (Handled e id) (Resumed e id inst) (Owned e id) (Owned e id)
                (resume_here e id inst vm persistent) w
                (resume_here-Handled e id inst vm persistent w
                  (t.1 ∙ is_here-some e.self inst.server_id n, t.0))
                (λ b w' q. Handled-Resumed e id inst b w' q) (λ w' q. q))
      ]
    ]

pub try_resume-Resumed :
    (e : Env) (id : ℕ) (inst : InstanceRow) (persistent : Bool) (vm : Option ℕ) (w : World)
    → Tracked id inst w
    → Ends (Resumed e id inst) (Owned e id) (try_resume e id inst persistent vm w)
unfolding try_resume
try_resume-Resumed e id inst persistent none w t = t
try_resume-Resumed e id inst persistent (some vm) w t =
    try_from_suspended e id inst vm persistent w t
