-- ===== src/Deploy/Rules.antt =====
-- internal/deploy: what an action has done, by how it ended.
use kindling.Base.{
  sym, subst, ◌∙◌, ℕ, ◌≡◌, refl, true, false, Option, none, some, Bool-cases, Option-cases, inl,
  inr, put,
}
use kindling.Volumes.{VolumeStatus}
use kindling.Deploy.{DeploymentRow, InstanceRow, VmRow, VmStatus, World, Env, Site}
use kindling.Deploy.Store.{
  Action, ◌>>=◌, attempt, ignore, update_instance, find_instance, soft_delete_vm, write_vm,
  update_vm_status, detach_if_attached, attach_volume, project_volume_for_deployment, volume_of,
  is_transitional, kept, is_held_by,
}

-- `Q` of a value and the world, or `X` of the world after an error.
abbrev pub Ends : {A : Type 0} → (A → World → Type 0) → (World → Type 0) → Option A × World → Type 0
Ends Q X (none, w) = X w
Ends Q X (some a, w) = Q a w

abbrev bound : {A B : Type 0} → (A → Action B) → Option A × World → Option B × World
bound f (r, w) = elim r [ none ↦ (none, w) | some a ↦ f a w ]

Ends-bound :
    {A B : Type 0} (Q : A → World → Type 0) (R : B → World → Type 0) (X : World → Type 0)
    (f : A → Action B) (o : Option A × World)
    → Ends Q X o
    → ((a : A) (w : World) → Q a w → Ends R X (f a w))
    → Ends R X (bound f o)
Ends-bound Q R X f (none, w) h k = h
Ends-bound Q R X f (some a, w) h k = k a w h

-- The rule for bind.
pub Ends->>= :
    {A B : Type 0} (Q : A → World → Type 0) (R : B → World → Type 0) (X : World → Type 0)
    (m : Action A) (f : A → Action B) (w : World)
    → Ends Q X (m w)
    → ((a : A) (w' : World) → Q a w' → Ends R X (f a w'))
    → Ends R X ((m >>= f) w)
Ends->>= Q R X m f w h k = Ends-bound Q R X f (m w) h k

Ends-weaken :
    {A : Type 0} (Q R : A → World → Type 0) (X Y : World → Type 0) (o : Option A × World)
    → Ends Q X o
    → ((a : A) (w : World) → Q a w → R a w)
    → ((w : World) → X w → Y w)
    → Ends R Y o
Ends-weaken Q R X Y (none, w) h f g = g w h
Ends-weaken Q R X Y (some a, w) h f g = f a w h

pub Ends-mono :
    {A : Type 0} (Q R : A → World → Type 0) (X Y : World → Type 0) (m : Action A) (w : World)
    → Ends Q X (m w)
    → ((a : A) (w' : World) → Q a w' → R a w')
    → ((w' : World) → X w' → Y w')
    → Ends R Y (m w)
Ends-mono Q R X Y m w h f g = Ends-weaken Q R X Y (m w) h f g

-- What is left alone by the statements on machines and volumes.
abbrev pub Same : World → World → Type 0
Same w w' =
    (w'.instances ≡ w.instances)
    × (w'.alive ≡ w.alive)
    × (w'.deployment ≡ w.deployment)
    × (w'.ids ≡ w.ids)

write_vm-Same :
    (vm : ℕ) (f : VmRow → VmRow) (o : Option VmRow) (w : World) → Same w (write_vm vm f o w)
write_vm-Same vm f none w = (refl, refl, refl, refl)
write_vm-Same vm f (some v) w = (refl, refl, refl, refl)

pub soft_delete_vm-Same :
    (e : Env) (s : Site) (vm : ℕ) (w : World) → Same w (soft_delete_vm e s vm w).1
unfolding soft_delete_vm
soft_delete_vm-Same e s vm w = elim (Bool-cases (e.fails s)) [
  | inl h ↦ simp h (refl, refl, refl, refl)
  | inr h ↦ simp h (write_vm-Same vm (λ v. record v { deleted = true }) (w.vms vm) w)
]

detach_if_attached-Same :
    (e : Env) (s : Site) (vm : ℕ) (status : VolumeStatus) (w : World)
    → Same w (detach_if_attached e s vm status w).1
unfolding detach_if_attached
detach_if_attached-Same e s vm status w = elim (Option-cases (kept w.volume)) [
  | inl n ↦ simp (n, detach_if_attached) (refl, refl, refl, refl)
  | inr (v, n) ↦ elim (Bool-cases (is_held_by v vm)) [
    | inr h ↦ simp (n, h, detach_if_attached) (refl, refl, refl, refl)
    | inl h ↦ elim (Bool-cases (e.fails s)) [
      | inl k ↦ simp (n, h, k, detach_if_attached) (refl, refl, refl, refl)
      | inr k ↦ simp (n, h, k, detach_if_attached) (refl, refl, refl, refl)
    ]
  ]
]

-- The two statements that end the use of a machine.
pub drop_vm-Same :
    (e : Env) (s t : Site) (vm : ℕ) (status : VolumeStatus) (w : World)
    → Same w (soft_delete_vm e t vm (detach_if_attached e s vm status w).1).1
drop_vm-Same e s t vm status w =
    let (a, b, c, d) = detach_if_attached-Same e s vm status w in
    let (a', b', c', d') = soft_delete_vm-Same e t vm (detach_if_attached e s vm status w).1 in
    (a' ∙ a, b' ∙ b, c' ∙ c, d' ∙ d)

pub update_vm_status-Same :
    (e : Env) (s : Site) (vm : ℕ) (status : VmStatus) (w : World)
    → Same w (update_vm_status e s vm status w).1
unfolding update_vm_status
update_vm_status-Same e s vm status w = elim (Bool-cases (e.fails s)) [
  | inl h ↦ simp (h, update_vm_status) (refl, refl, refl, refl)
  | inr h ↦ elim (Option-cases (w.vms vm)) [
    | inl n ↦ simp (h, n, update_vm_status) (refl, refl, refl, refl)
    | inr (v, n) ↦ simp (h, n, update_vm_status) (refl, refl, refl, refl)
  ]
]

pub attach_volume-Same :
    (e : Env) (server : Option ℕ) (vm : ℕ) (w : World) → Same w (attach_volume e server vm w).1
unfolding attach_volume
attach_volume-Same e server vm w = elim (Bool-cases (e.fails Site.attach_volume)) [
  | inl h ↦ simp (h, attach_volume) (refl, refl, refl, refl)
  | inr h ↦ elim (Option-cases (kept w.volume)) [
    | inl n ↦ simp (h, n, attach_volume) (refl, refl, refl, refl)
    | inr (v, n) ↦ simp (h, n, attach_volume) (refl, refl, refl, refl)
  ]
]

-- What a statement that updates an instance has done.
abbrev pub Updated : ℕ → (InstanceRow → InstanceRow) → World → InstanceRow → World → Type 0
Updated id f w r w' =
    (old : InstanceRow) × (w.instances id ≡ some old)
    × (old.deleted ≡ false)
    × (r ≡ f old)
    × (w' ≡ record w { instances = put id (some (f old)) w.instances })

pub update_instance_lem :
    (e : Env) (s : Site) (id : ℕ) (f : InstanceRow → InstanceRow) (w : World)
    → Ends (Updated id f w) (λ w'. w' ≡ w) (update_instance e s id f w)
unfolding update_instance
update_instance_lem e s id f w = elim (Bool-cases (e.fails s)) [
  | inl h ↦ simp h refl
  | inr h ↦ elim (Option-cases (w.instances id)) [
    | inl n ↦ simp (h, n) refl
    | inr (r, n) ↦ elim (Bool-cases r.deleted) [
      | inl d ↦ simp (h, n, d) refl
      | inr d ↦ simp (h, n, d) (r, refl, d, refl, refl)
    ]
  ]
]

pub find_instance_lem :
    (e : Env) (s : Site) (id : ℕ) (w : World)
    → Ends (λ r w'. (w' ≡ w) × (w.instances id ≡ some r)) (λ w'. w' ≡ w) (find_instance e s id w)
unfolding find_instance
find_instance_lem e s id w = elim (Bool-cases (e.fails s)) [
  | inl h ↦ simp h refl
  | inr h ↦ elim (Option-cases (w.instances id)) [
    | inl n ↦ simp (h, n) refl
    | inr (r, n) ↦ simp (h, n) (refl, refl)
  ]
]

-- Reading the volume changes nothing.
pub project_volume_lem :
    (P X : World → Type 0) (e : Env) (s : Site) (dep : DeploymentRow) (w : World)
    → P w
    → X w
    → Ends (λ _ w'. P w') X (project_volume_for_deployment e s dep w)
unfolding project_volume_for_deployment
project_volume_lem P X e s dep w h x = elim (Bool-cases (e.fails s)) [
  | inl f ↦ simp f x
  | inr f ↦ elim (Option-cases (volume_of dep w)) [
    | inl n ↦ simp (f, n) h
    | inr (v, n) ↦ elim (Bool-cases (is_transitional v.status)) [
      | inl t ↦ simp (f, n, t) x
      | inr t ↦ simp (f, n, t) h
    ]
  ]
]

module _ {A : Type 0} (P X : World → Type 0) where
  ends_end : (o : Option A × World) → Ends (λ _ w. P w) P o → P o.1
  ends_end (none, w) h = h
  ends_end (some a, w) h = h

  -- An error that is handed over or dropped.
  pub Ends-attempt :
      (m : Action A) (w : World) → Ends (λ _ w'. P w') P (m w) → Ends (λ _ w'. P w') X (attempt m w)
  Ends-attempt m w h = ends_end (m w) h

  pub Ends-ignore :
      (m : Action A) (w : World) → Ends (λ _ w'. P w') P (m w) → Ends (λ _ w'. P w') X (ignore m w)
  Ends-ignore m w h = ends_end (m w) h

-- An update that keeps a property of the rows and of what runs.
pub update_keeps :
    (P : World → Type 0) (e : Env) (s : Site) (id : ℕ) (f : InstanceRow → InstanceRow) (w : World)
    → ((r : InstanceRow)
        → w.instances id ≡ some r
        → P (record w { instances = put id (some (f r)) w.instances }))
    → P w
    → Ends (λ _ w'. P w') P (update_instance e s id f w)
update_keeps P e s id f w k h =
    Ends-mono (Updated id f w) (λ _ w'. P w') (λ w'. w' ≡ w) P (update_instance e s id f) w
      (update_instance_lem e s id f w) (λ r w' (old, a, b, c, d). subst P (sym d) (k old a))
      (λ w' d. subst P (sym d) h)

-- A fact about the world after an action, whatever it ends with.
module _ {A : Type 0} (P : World → Type 0) where
  Ends-holds : (o : Option A × World) → P o.1 → Ends (λ _ w. P w) P o
  Ends-holds (none, w) h = h
  Ends-holds (some a, w) h = h

  pub Ends-always : (m : Action A) (w : World) → P (m w).1 → Ends (λ _ w'. P w') P (m w)
  Ends-always m w h = Ends-holds (m w) h

  pub Ends_world : (m : Action A) (w : World) → Ends (λ _ w'. P w') P (m w) → P (m w).1
  Ends_world m w h = ends_end P P (m w) h
