-- ===== src/Deploy/Deleted.antt =====
-- internal/deploy: deleting the instances of a deployment.
use kindling.Base.{
  ℕ, ◌≡◌, refl, sym, ◌∙◌, ap, subst, Bool, true, false, ◌||◌, Option, none, some, List, [], ◌∷◌,
  arith, Bool-cases, Option-cases, inl, inr, ◌==◌, ==_refl, ==_iff, count, ◌<◌, false≢true,
}
use kindling.Volumes.{available}
use kindling.Deploy.{InstanceRow, World, Env, Site}
use kindling.Deploy.Store.{
  live, stop, soft_delete_instance, mark_deleted, soft_delete_vm, detach_if_attached,
}
use kindling.Deploy.Assignment.{delete_instance_permanently, delete_rows}
use kindling.Deploy.Reconcile.{list_instances, delete_instances, cleanup_deployment_all_instances}
use kindling.Deploy.Started.{>>=-eq}
use kindling.Deploy.Rules.{drop_vm-Same}

-- The instance does not run here, and no row of it is left.
abbrev pub IsGone : ℕ → World → Type 0
IsGone id w = (w.alive id ≡ false) × (live (w.instances id) ≡ none)

stop-alive :
    (e : Env) (s : Site) (id j : ℕ) (w : World)
    → w.alive id ≡ false
    → (stop e s j w).1.alive id ≡ false
unfolding stop
stop-alive e s id j w h = elim (Bool-cases (e.fails s)) [
  | inl f ↦ simp (f, stop) h
  | inr f ↦ simp (f, stop) (ground arith)
]

stop_self :
    (e : Env) (s : Site) (id : ℕ) (w : World)
    → e.fails s ≡ false
    → (stop e s id w).1.alive id ≡ false
unfolding stop
stop_self e s id w f = simp (f, stop, ==_refl id) refl

stop-instances : (e : Env) (s : Site) (j : ℕ) (w : World) → (stop e s j w).1.instances ≡ w.instances
unfolding stop
stop-instances e s j w = elim (Bool-cases (e.fails s)) [
  | inl f ↦ simp (f, stop) refl
  | inr f ↦ simp (f, stop) refl
]

mark-live : (o : Option InstanceRow) → live (mark_deleted o) ≡ none
mark-live none = refl
mark-live (some r) = refl

soft_delete-live :
    (e : Env) (id j : ℕ) (w : World)
    → live (w.instances id) ≡ none
    → live ((soft_delete_instance e j w).1.instances id) ≡ none
unfolding soft_delete_instance
soft_delete-live e id j w h = elim (Bool-cases (e.fails Site.delete_instance)) [
  | inl f ↦ simp (f, soft_delete_instance) h
  | inr f ↦ elim (Bool-cases (j == id)) [
    | inl s ↦ simp (f, s, soft_delete_instance) (mark-live (w.instances j))
    | inr s ↦ simp (f, s, soft_delete_instance) h
  ]
]

soft_delete_self :
    (e : Env) (id : ℕ) (w : World)
    → e.fails Site.delete_instance ≡ false
    → live ((soft_delete_instance e id w).1.instances id) ≡ none
unfolding soft_delete_instance
soft_delete_self e id w f = simp (f, ==_refl id, soft_delete_instance) (mark-live (w.instances id))

soft_delete-alive : (e : Env) (j : ℕ) (w : World) → (soft_delete_instance e j w).1.alive ≡ w.alive
unfolding soft_delete_instance
soft_delete-alive e j w = elim (Bool-cases (e.fails Site.delete_instance)) [
  | inl f ↦ simp (f, soft_delete_instance) refl
  | inr f ↦ simp (f, soft_delete_instance) refl
]

-- The rows and the machine, after the instance is stopped.
rows-IsGone :
    (e : Env) (id j : ℕ) (vm : Option ℕ) (w : World)
    → IsGone id w
    → IsGone id (delete_rows e j vm w).1
unfolding delete_rows
rows-IsGone e id j none w (a, b) =
    (ap (λ f. f id) (soft_delete-alive e j w) ∙ a, soft_delete-live e id j w b)
rows-IsGone e id j (some vm) w (a, b) =
    let w' =
      (soft_delete_vm e Site.delete_vm vm
        (detach_if_attached e Site.detach_deleted vm available w).1).1 in
    let (i, l, _, _) = drop_vm-Same e Site.detach_deleted Site.delete_vm vm available w in
    (
      ap (λ f. f id) (soft_delete-alive e j w') ∙ ap (λ f. f id) l ∙ a,
      soft_delete-live e id j w' (ap (λ f. live (f id)) i ∙ b),
    )

rows_deleted :
    (e : Env) (id : ℕ) (vm : Option ℕ) (w : World)
    → e.fails Site.delete_instance ≡ false
    → w.alive id ≡ false
    → IsGone id (delete_rows e id vm w).1
unfolding delete_rows
rows_deleted e id none w f a =
    (ap (λ f. f id) (soft_delete-alive e id w) ∙ a, soft_delete_self e id w f)
rows_deleted e id (some vm) w f a =
    let w' =
      (soft_delete_vm e Site.delete_vm vm
        (detach_if_attached e Site.detach_deleted vm available w).1).1 in
    let (i, l, _, _) = drop_vm-Same e Site.detach_deleted Site.delete_vm vm available w in
    (ap (λ f. f id) (soft_delete-alive e id w') ∙ ap (λ f. f id) l ∙ a, soft_delete_self e id w' f)

delete-IsGone :
    (e : Env) (id j : ℕ) (inst : InstanceRow) (w : World)
    → IsGone id w
    → IsGone id (delete_instance_permanently e j inst w).1
unfolding delete_instance_permanently
delete-IsGone e id j inst w (a, b) =
    rows-IsGone e id j inst.vm_id (stop e Site.stop_deleted j w).1 (
      stop-alive e Site.stop_deleted id j w a,
      ap (λ f. live (f id)) (stop-instances e Site.stop_deleted j w) ∙ b,
    )

-- The calls that end an instance succeed.
abbrev pub Deletes : Env → Type 0
Deletes e = (e.fails Site.stop_deleted ≡ false) × (e.fails Site.delete_instance ≡ false)

deleted-IsGone :
    (e : Env) (id : ℕ) (inst : InstanceRow) (w : World)
    → Deletes e
    → IsGone id (delete_instance_permanently e id inst w).1
unfolding delete_instance_permanently
deleted-IsGone e id inst w (f, g) =
    rows_deleted e id inst.vm_id (stop e Site.stop_deleted id w).1 g
      (stop_self e Site.stop_deleted id w f)

rows-eq :
    (e : Env) (id : ℕ) (vm : Option ℕ) (w : World)
    → delete_rows e id vm w ≡ (some tt, (delete_rows e id vm w).1)
unfolding delete_rows
rows-eq e id none w = refl
rows-eq e id (some vm) w = refl

pub delete-eq :
    (e : Env) (id : ℕ) (inst : InstanceRow) (w : World)
    → delete_instance_permanently e id inst w
      ≡ (some tt, (delete_instance_permanently e id inst w).1)
unfolding delete_instance_permanently
delete-eq e id inst w = rows-eq e id inst.vm_id (stop e Site.stop_deleted id w).1

abbrev has_row : ℕ → List (ℕ × InstanceRow) → Bool
has_row id [] = false
has_row id ((j, inst) ∷ rows) = (j == id) || has_row id rows

pub list-has_row :
    (rows : ℕ → Option InstanceRow) (ids : List ℕ) (id : ℕ) (inst : InstanceRow)
    → 0 < count id ids
    → live (rows id) ≡ some inst
    → has_row id (list_instances rows ids) ≡ true
unfolding list_instances
list-has_row rows [] id inst h k = elim h [ ]
list-has_row rows (j ∷ ids) id inst h k = elim (Bool-cases (j == id)) [
  | inl s ↦
      let e : live (rows j) ≡ some inst = ap (λ x. live (rows x)) ((==_iff j id).0 s) ∙ k in
      simp (e, s, list_instances) refl
  | inr s ↦
      let less : 0 < count id ids = ground arith in
      let ih = list-has_row rows ids id inst less k in
      elim (Option-cases (live (rows j))) [
        | inl n ↦ simp (n, list_instances) ih
        | inr (r, n) ↦ simp (n, s, list_instances) ih
      ]
]

module _ (es : ℕ → Env) (deletes : (id : ℕ) → Deletes (es id)) where
  kept-IsGone :
      (rows : List (ℕ × InstanceRow)) (id : ℕ) (w : World)
      → IsGone id w
      → IsGone id (delete_instances es rows w).1
  unfolding delete_instances
  kept-IsGone [] id w h = h
  kept-IsGone ((j, inst) ∷ rows) id w h =
      let w' = (delete_instance_permanently (es j) j inst w).1 in
      subst (λ o. IsGone id o.1)
        (sym (
          >>=-eq (delete_instance_permanently (es j) j inst) (λ _. delete_instances es rows) w
            (delete-eq (es j) j inst w)))
        (kept-IsGone rows id w' (delete-IsGone (es j) id j inst w h))

  pub all-IsGone :
      (rows : List (ℕ × InstanceRow)) (id : ℕ) (w : World)
      → has_row id rows ≡ true
      → IsGone id (delete_instances es rows w).1
  unfolding delete_instances
  all-IsGone [] id w h = absurd (false≢true h)
  all-IsGone ((j, inst) ∷ rows) id w h =
      let w' = (delete_instance_permanently (es j) j inst w).1 in
      subst (λ o. IsGone id o.1)
        (sym (
          >>=-eq (delete_instance_permanently (es j) j inst) (λ _. delete_instances es rows) w
            (delete-eq (es j) j inst w)))
        (elim (Bool-cases (j == id)) [
          | inl s ↦ kept-IsGone rows id w' (
              subst (λ x. IsGone x w') ((==_iff j id).0 s)
                (deleted-IsGone (es j) j inst w (deletes j)))
          | inr s ↦ all-IsGone rows id w' (sym (simp s refl) ∙ h)
        ])

  pub cleanup-eq :
      (e : Env) (w : World)
      → e.fails Site.list_instances ≡ false
      → cleanup_deployment_all_instances e es w
        ≡ delete_instances es (list_instances w.instances w.ids) w
  unfolding cleanup_deployment_all_instances
  cleanup-eq e w f = simp (f, cleanup_deployment_all_instances) refl
