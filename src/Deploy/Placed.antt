-- ===== src/Deploy/Placed.antt =====
-- internal/deploy/deploy_instance.go, `resetStaleInstance` and `assignServerIfNeeded`: the copy of the row
-- keeps the server of the row.
use kindling.Base.{
  ◌||◌, ℕ, ◌≡◌, refl, sym, ◌∙◌, ap, Bool, true, false, not, ◌&&◌, Option, none, some, Bool-cases,
  Option-cases, inl, inr, put, ==_refl, ==_iff, false≢true,
}
use kindling.Fleet.Evacuation.{is_here}
use kindling.Volumes.{available, Volume}
use kindling.Scaling.{is_some}
use kindling.Deploy.{DeploymentRow, InstanceRow, World, Env, Site}
use kindling.Deploy.Store.{
  ◌>>=◌, update_instance, find_instance, stop, prepare_retry, project_volume_for_deployment,
}
use kindling.Deploy.Assignment.{
  clear_stale, pinned_server, is_warm_pool_instance, is_failed, reset_stale_instance,
  assign_server_if_needed, pick_server,
}
use kindling.Deploy.Rules.{
  Ends, Ends->>=, Ends-mono, drop_vm-Same, soft_delete_vm-Same, Ends-always, project_volume_lem,
  Updated, update_instance_lem,
}
use kindling.Deploy.Owned.{server_of, Idle, Tracked, released, by_result}

-- An instance that runs here is on this server.
abbrev pub Owned : Env → ℕ → World → Type 0
Owned e id w = w.alive id ≡ true → server_of (w.instances id) ≡ some e.self

pub Idle-Owned : (e : Env) (id : ℕ) (w : World) → Idle id w → Owned e id w
Idle-Owned e id w h k = absurd (false≢true (sym h ∙ k))

pub is_here-some : (self : ℕ) (o : Option ℕ) → is_here self o ≡ true → o ≡ some self
is_here-some self none h = absurd (false≢true h)
is_here-some self (some s) h = ap some ((==_iff s self).0 h)

clear_stale-Idle :
    (e : Env) (id : ℕ) (vm_id : Option ℕ) (persistent : Bool) (w : World)
    → Idle id w
    → Ends (λ _ w'. Idle id w') (Idle id) (clear_stale e vm_id persistent w)
unfolding clear_stale
clear_stale-Idle e id none persistent w h = h
clear_stale-Idle e id (some vm) false w h =
    let (_, a, _, _) = soft_delete_vm-Same e Site.delete_stale_vm vm w in ap (λ f. f id) a ∙ h
clear_stale-Idle e id (some vm) true w h =
    let (_, a, _, _) = drop_vm-Same e Site.detach_stale Site.delete_stale_vm vm available w in
    ap (λ f. f id) a ∙ h

stop_stale-Idle :
    (e : Env) (id : ℕ) (w : World) → Idle id w → Idle id (stop e Site.stop_stale id w).1
unfolding stop
stop_stale-Idle e id w h = elim (Bool-cases (e.fails Site.stop_stale)) [
  | inl f ↦ simp (f, stop) h
  | inr f ↦ simp (f, stop, ==_refl id) refl
]

pub reset-Tracked :
    (e : Env) (id : ℕ) (inst : InstanceRow) (persistent : Bool) (w : World)
    → Tracked id inst w
    → Ends (Tracked id) (Idle id) (reset_stale_instance e id inst persistent w)
unfolding reset_stale_instance
reset-Tracked e id inst persistent w t =
    elim (Bool-cases
      ((not (is_some inst.vm_id) || is_warm_pool_instance inst) && not (is_failed inst.status))) [
        | inl k ↦ simp (k, reset_stale_instance) t
        | inr k ↦
            let w1 = (stop e Site.stop_stale id w).1 in
            simp (k, reset_stale_instance)
              (Ends->>= {B = InstanceRow} (λ _ w'. Idle id w') (Tracked id) (Idle id)
                (clear_stale e inst.vm_id persistent)
                (λ _. (do
                  _ ← update_instance e Site.prepare_stale id (prepare_retry e.now)
                  find_instance e Site.refetch_stale id))
                w1 (clear_stale-Idle e id inst.vm_id persistent w1 (stop_stale-Idle e id w t.0))
                (λ _ w2 h2.
                  released e Site.prepare_stale Site.refetch_stale id (prepare_retry e.now) w2 h2))
      ]

-- Picking a server changes nothing.
pick-Idle :
    (e : Env) (dep : DeploymentRow) (id : ℕ) (persistent : Bool) (w : World)
    → Idle id w
    → Ends (λ _ w'. Idle id w') (Idle id) (pick_server e dep persistent w)
unfolding pick_server pinned_server
pick-Idle e dep id false w h = Ends-always (Idle id) (λ w. (e.least_loaded, w)) w h
pick-Idle e dep id true w h =
    Ends->>= {B = ℕ} (λ _ w'. Idle id w') (λ _ w'. Idle id w') (Idle id)
      (project_volume_for_deployment e Site.reload_volume dep) (pinned_server e) w
      (project_volume_lem (Idle id) (Idle id) e Site.reload_volume dep w h h)
      (λ volume w' k.
        Ends-always (Idle id) (pinned_server e volume) w' (pinned_idle e id volume w' k))
  where
    pinned_idle :
        (e : Env) (id : ℕ) (volume : Option Volume) (w : World)
        → Idle id w
        → Idle id (pinned_server e volume w).1
    pinned_idle e id none w h = h
    pinned_idle e id (some v) w h = elim (Option-cases v.server_id) [
      | inl n ↦ simp n h
      | inr (s, n) ↦ elim (Bool-cases (is_some (e.server s))) [
        | inl k ↦ simp (n, k) h
        | inr k ↦ simp (n, k) h
      ]
    ]

Tracked-after :
    (id : ℕ) (f : InstanceRow → InstanceRow) (w w' : World) (r : InstanceRow)
    → Updated id f w r w'
    → Idle id w
    → Tracked id r w'
Tracked-after id f w w' r (old, a, b, c, d) h =
    let row = put id (some (f old)) w.instances in
    let here : row id ≡ some (f old) = simp (==_refl id) refl in
    (
      ap (λ v. v.alive id) d ∙ h,
      ap (λ v. server_of (v.instances id)) d ∙ ap server_of here ∙ sym (ap (λ r. r.server_id) c),
    )

pub assign-Tracked :
    (e : Env) (dep : DeploymentRow) (id : ℕ) (inst : InstanceRow) (persistent : Bool) (w : World)
    → Tracked id inst w
    → Ends (Tracked id) (Idle id) (assign_server_if_needed e dep id inst persistent w)
unfolding assign_server_if_needed
assign-Tracked e dep id inst persistent w t = elim (Bool-cases (is_some inst.server_id)) [
  | inl k ↦
      by_result (Tracked id) (Idle id) _ (some inst, w) (simp (k, assign_server_if_needed) refl) t
  | inr k ↦
      let assign =
        λ (s : ℕ). update_instance e Site.assign_server id (λ r. record r { server_id = some s }) in
      by_result (Tracked id) (Idle id) _ ((pick_server e dep persistent >>= assign) w)
        (simp (k, assign_server_if_needed) refl)
        (Ends->>= {B = InstanceRow} (λ _ w'. Idle id w') (Tracked id) (Idle id)
          (pick_server e dep persistent) assign w (pick-Idle e dep id persistent w t.0)
          (λ s w' h.
            Ends-mono (Updated id (λ r. record r { server_id = some s }) w') (Tracked id)
              (λ w''. w'' ≡ w') (Idle id) (assign s) w'
              (update_instance_lem e Site.assign_server id (λ r. record r { server_id = some s })
                w')
              (λ r w'' u. Tracked-after id (λ r. record r { server_id = some s }) w' w'' r u h)
              (λ w'' d. ap (λ v. v.alive id) d ∙ h)))
]
