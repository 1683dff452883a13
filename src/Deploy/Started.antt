-- ===== src/Deploy/Started.antt =====
-- internal/deploy/deploy_instance.go, `startNewInstance`: the world after a start where nothing fails.
use kindling.Base.{
  false≢true, ℕ, ◌≡◌, ◌≢◌, refl, ◌∙◌, ap, Bool, true, false, Option, none, some, Bool-cases, inl,
  inr, put, ==_refl, if◌then◌else◌,
}
use kindling.Fleet.{LaunchMode, clone, cold, resume}
use kindling.Volumes.{Volume, attached, healthy}
use kindling.Deploy.{
  DeploymentRow, InstanceRow, InstanceStatus, VmRow, VmStatus, World, Env, Site, Launch, launched,
  missing, broken,
}
use kindling.Deploy.Store.{
  Action, ◌>>=◌, ◌>>◌, attempt, when, pure, kept, update_instance, update_status, find_instance,
  update_vm_status, started, attach_volume,
}
use kindling.Deploy.Resume.{wait_healthy}
use kindling.Deploy.Start.{
  start_cold, start_clone, launch_instance, create_vm, new_vm_id, attach_new_vm, persist_new,
  persist_row, persist_instance_vm_metadata, give_up_unless, or_give_up, set_running,
  record_started, record_launched, start_mode, new_vm,
}

-- What the start calls succeeds: where a clone is not found, the cold start does.
pub record Works (e : Env) : Type 0 where
  pub statements : (s : Site) → e.fails s ≡ false
  pub starts : e.start ≡ true
  pub clones : e.clone ≢ broken
  pub parses : e.parses ≡ true
  pub becomes_healthy : e.becomes_healthy ≡ true

abbrev pub set_row : ℕ → InstanceRow → World → World
set_row id r w = record w { instances = put id (some r) w.instances }

abbrev pub set_vm : ℕ → VmRow → World → World
set_vm vm v w = record w { vms = put vm (some v) w.vms }

module _ (e : Env) (s : Site) (works : e.fails s ≡ false) where
  pub update_instance-eq :
      (id : ℕ) (f : InstanceRow → InstanceRow) (r : InstanceRow) (w : World)
      → w.instances id ≡ some r
      → r.deleted ≡ false
      → update_instance e s id f w ≡ (some (f r), set_row id (f r) w)
  unfolding update_instance
  update_instance-eq id f r w k d = simp (works, k, d) refl

  pub find_instance-eq :
      (id : ℕ) (r : InstanceRow) (w : World)
      → w.instances id ≡ some r
      → find_instance e s id w ≡ (some r, w)
  unfolding find_instance
  find_instance-eq id r w k = simp (works, k) refl

  update_vm_status-eq :
      (vm : ℕ) (status : VmStatus) (v : VmRow) (w : World)
      → w.vms vm ≡ some v
      → update_vm_status e s vm status w ≡ (some tt, set_vm vm (record v { status = status }) w)
  unfolding update_vm_status
  update_vm_status-eq vm status v w k = simp (works, k) refl

-- The first action is run.
pub >>=-eq :
    {A B : Type 0} (m : Action A) (f : A → Action B) (w : World) {a : A} {w' : World}
    → m w ≡ (some a, w')
    → (m >>= f) w ≡ f a w'
>>=-eq m f w h = ap (λ o. (let (r, w') = o in elim r [ none ↦ (none, w') | some a ↦ f a w' ])) h

put_self {ℓ} : {A : Type ℓ} (k : ℕ) (v : A) (m : ℕ → A) → put k v m k ≡ v
put_self k v m = simp (==_refl k) refl

-- The rows that a start writes, in their order.
abbrev starting_row : InstanceRow → InstanceRow
starting_row r = record r { status = InstanceStatus.starting }

abbrev attached_row : Env → InstanceRow → InstanceRow
attached_row e r = record r { vm_id = some e.fresh; status = InstanceStatus.starting }

abbrev pub running_row : Env → InstanceRow → InstanceRow
running_row e r = record r { vm_id = some e.fresh; status = InstanceStatus.running }

abbrev pub running_vm : Env → ℕ → VmRow
running_vm e image = record {
  server_id = e.self;
  image_id = image;
  status = VmStatus.running;
  deleted = false;
}

abbrev launched_world : ℕ → InstanceRow → World → World
launched_world id r w = started id (set_row id (starting_row r) w)

abbrev persisted_world : Env → ℕ → ℕ → InstanceRow → World → World
persisted_world e id image r w =
    set_row id (attached_row e r) (set_vm e.fresh (new_vm e.self image) w)

abbrev recorded_world : Env → ℕ → ℕ → InstanceRow → World → World
recorded_world e id image r w = set_row id (running_row e r) (set_vm e.fresh (running_vm e image) w)

abbrev pub mounted : Env → Volume → Volume
mounted e v = record v {
  server_id = some e.self;
  attached_vm_id = some e.fresh;
  status = attached;
  health = healthy;
}

abbrev mounted_world : Env → Bool → Volume → World → World
mounted_world e persistent v w = if persistent then record w { volume = some (mounted e v) } else w

abbrev pub started_world : Env → ℕ → ℕ → InstanceRow → Bool → Volume → World → World
started_world e id image r persistent v w =
    mounted_world e persistent v
      (recorded_world e id image r (persisted_world e id image r (launched_world id r w)))

module _ (e : Env) (works : Works e) where
  open works use {statements, starts, clones, parses, becomes_healthy}

  clone-eq :
      (id : ℕ) (l : Launch) (w : World)
      → l ≢ broken
      → start_clone e id l w ≡ (some tt, started id w)
  unfolding start_clone start_cold
  clone-eq id launched w h = refl
  clone-eq id missing w h = simp starts refl
  clone-eq id broken w h = absurd (h refl)

  launch-eq :
      (id : ℕ) (mode : LaunchMode) (w : World)
      → launch_instance e id mode w ≡ (some tt, started id w)
  unfolding launch_instance start_cold
  launch-eq id clone w = elim (Bool-cases e.supports_clone) [
    | inl k ↦ simp k (clone-eq id e.clone w clones)
    | inr k ↦ simp (k, starts) refl
  ]
  launch-eq id cold w = simp starts refl
  launch-eq id resume w = simp starts refl

  attach_new-eq :
      (id : ℕ) (r : InstanceRow) (w : World)
      → w.instances id ≡ some r
      → r.deleted ≡ false
      → attach_new_vm e id w ≡ (some e.fresh, set_row id (attached_row e r) w)
  unfolding attach_new_vm new_vm_id
  attach_new-eq id r w k d =
      simp
        (update_instance-eq e Site.attach_vm (statements Site.attach_vm) id (attached_row e) r w k
          d)
        refl

  create-eq :
      (server image : ℕ) (w : World)
      → create_vm e server image w ≡ (some tt, set_vm e.fresh (new_vm server image) w)
  unfolding create_vm
  create-eq server image w = simp (statements Site.create_vm) refl

  persist_new-eq :
      (id image : ℕ) (r : InstanceRow) (w : World)
      → w.instances id ≡ some r
      → r.deleted ≡ false
      → persist_new e id (some image) e.self w ≡ (some e.fresh, persisted_world e id image r w)
  unfolding persist_new
  persist_new-eq id image r w k d =
      simp (parses, persist_new)
        (>>=-eq (create_vm e e.self image) (λ _. attach_new_vm e id) w (create-eq e.self image w)
          ∙ attach_new-eq id r (set_vm e.fresh (new_vm e.self image) w) k d)

  persist-eq :
      (id image : ℕ) (r : InstanceRow) (w : World)
      → w.instances id ≡ some r
      → r.vm_id ≡ none
      → r.deleted ≡ false
      → persist_instance_vm_metadata e id (some image) e.self w
        ≡ (some e.fresh, persisted_world e id image r w)
  unfolding persist_instance_vm_metadata persist_row
  persist-eq id image r w k n d =
      >>=-eq (find_instance e Site.fetch_instance id)
        (λ inst. persist_row e id (some image) e.self inst.vm_id) w
        (find_instance-eq e Site.fetch_instance (statements Site.fetch_instance) id r w k)
      ∙ (simp n (persist_new-eq id image r w k d))

  done-eq :
      (id : ℕ) (vm : Option ℕ) (m : Action (Unit {0})) (w w' : World)
      → m w ≡ (some tt, w')
      → or_give_up e id vm m w ≡ (some tt, w')
  unfolding or_give_up give_up_unless
  done-eq id vm m w w' h = simp h refl

  running-eq :
      (id : ℕ) (r : InstanceRow) (w : World)
      → w.instances id ≡ some r
      → r.deleted ≡ false
      → set_running e id w ≡ (some tt, set_row id (record r { status = InstanceStatus.running }) w)
  unfolding set_running
  running-eq id r w k d =
      >>=-eq (update_status e Site.mark_running id InstanceStatus.running) (λ _. pure tt) w
        (update_instance-eq e Site.mark_running (statements Site.mark_running) id
          (λ r. record r { status = InstanceStatus.running }) r w k d)

  wait-eq : (w : World) → wait_healthy e w ≡ (some tt, w)
  wait-eq w = elim (Bool-cases e.external) [
    | inl k ↦ simp (k, becomes_healthy) refl
    | inr k ↦ simp k refl
  ]

  attach-eq :
      (id : ℕ) (persistent : Bool) (v : Volume) (w : World)
      → (persistent ≡ true → kept w.volume ≡ some v)
      → when persistent (or_give_up e id (some e.fresh) (attach_volume e (some e.self) e.fresh)) w
        ≡ (some tt, mounted_world e persistent v w)
  unfolding attach_volume
  attach-eq id false v w h = refl
  attach-eq id true v w h =
      done-eq id (some e.fresh) (attach_volume e (some e.self) e.fresh) w (mounted_world e true v w)
        (simp (statements Site.attach_volume, h refl) refl)

  record-eq :
      (id image : ℕ) (r : InstanceRow) (persistent : Bool) (v : Volume) (w : World)
      → w.instances id ≡ some (attached_row e r)
      → w.vms e.fresh ≡ some (new_vm e.self image)
      → r.deleted ≡ false
      → (persistent ≡ true → kept w.volume ≡ some v)
      → record_started e id (some e.self) e.fresh persistent w
        ≡ (some tt, mounted_world e persistent v (recorded_world e id image r w))
  unfolding record_started
  record-eq id image r persistent v w k m d h =
      let w1 = set_vm e.fresh (running_vm e image) w in
      let w2 = set_row id (running_row e r) w1 in
      let vm_up = update_vm_status e Site.mark_vm_running e.fresh VmStatus.running in
      let attach =
        when persistent (or_give_up e id (some e.fresh) (attach_volume e (some e.self) e.fresh)) in
      let up = or_give_up e id (some e.fresh) (set_running e id) in
      let checked = or_give_up e id (some e.fresh) vm_up in
      >>=-eq (or_give_up e id (some e.fresh) (wait_healthy e)) (λ _. (checked >> (up >> attach))) w
        (done-eq id (some e.fresh) (wait_healthy e) w w (wait-eq w))
      ∙ (>>=-eq checked (λ _. (up >> attach)) w
            (done-eq id (some e.fresh) vm_up w w1 (
              update_vm_status-eq e Site.mark_vm_running (statements Site.mark_vm_running) e.fresh
                VmStatus.running (new_vm e.self image) w m))
          ∙ (>>=-eq up (λ _. attach) w1
                (done-eq id (some e.fresh) (set_running e id) w1 w2
                  (running-eq id (attached_row e r) w1 k d))
              ∙ attach-eq id persistent v w2 h))

  -- Where nothing fails, a start leaves the instance running here with a new machine.
  pub start_mode-eq :
      (dep : DeploymentRow) (id image : ℕ) (r : InstanceRow) (mode : LaunchMode) (persistent : Bool)
      → (v : Volume) (w : World) → w.instances id ≡ some r
      → r.vm_id ≡ none
      → r.deleted ≡ false
      → dep.image_id ≡ some image
      → (persistent ≡ true → kept w.volume ≡ some v)
      → start_mode e dep id mode persistent w ≡ (some tt, started_world e id image r persistent v w)
  unfolding start_mode record_launched
  start_mode-eq dep id image r mode persistent v w k n d i h =
      let persist = attempt (persist_instance_vm_metadata e id dep.image_id e.self) in
      let w1 = set_row id (starting_row r) w in
      let w2 = launched_world id r w in
      let w3 = persisted_world e id image r w2 in
      let self1 : w1.instances id ≡ some (starting_row r) = put_self id _ w.instances in
      >>=-eq (update_status e Site.mark_starting id InstanceStatus.starting)
        (λ _. (launch_instance e id mode >> (persist >>= record_launched e id persistent))) w
        (update_instance-eq e Site.mark_starting (statements Site.mark_starting) id starting_row r w
          k d)
      ∙ (>>=-eq (launch_instance e id mode) (λ _. (persist >>= record_launched e id persistent)) w1
            (launch-eq id mode w1)
          ∙ (>>=-eq persist (record_launched e id persistent) w2 {a = some e.fresh} {w' = w3}
                (simp (i, persist-eq id image (starting_row r) w2 self1 n d) refl)
              ∙ record-eq id image r persistent v w3 (put_self id _ w2.instances)
                  (put_self e.fresh _ w2.vms) d h))

-- What the world is then.
module _ (e : Env) (id image : ℕ) (r : InstanceRow) (v : Volume) (w : World) where
  pub started-vm :
      (persistent : Bool)
      → (started_world e id image r persistent v w).vms e.fresh ≡ some (running_vm e image)
  started-vm true = simp (==_refl e.fresh) refl
  started-vm false = simp (==_refl e.fresh) refl

  pub started-service :
      (persistent : Bool)
      → (started_world e id image r persistent v w).volume_service_id ≡ w.volume_service_id
  started-service true = refl
  started-service false = refl

  pub started-volume :
      (persistent : Bool)
      → persistent ≡ true
      → (started_world e id image r persistent v w).volume ≡ some (mounted e v)
  started-volume true h = refl
  started-volume false h = absurd (false≢true h)

  pub started-row :
      (persistent : Bool)
      → (started_world e id image r persistent v w).instances id ≡ some (running_row e r)
  started-row true = simp (==_refl id) refl
  started-row false = simp (==_refl id) refl

  pub started-alive :
      (persistent : Bool) → (started_world e id image r persistent v w).alive id ≡ true
  started-alive true = simp (==_refl id) refl
  started-alive false = simp (==_refl id) refl
