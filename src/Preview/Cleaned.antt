-- ===== src/Preview/Cleaned.antt =====
-- internal/preview/cleanup.go: what a clean-up leaves of the deployments.
use kindling.Base.{
  subst, false≢true, ℕ, Bool, true, false, not, ◌||◌, ◌==◌, List, [], ◌∷◌, ◌++◌, Option, none, some,
  arith, ◌≡◌, refl, ◌⊎◌, inl, inr, Bool-cases, sym, ◌∙◌, ap,
}
use kindling.Preview.Cleanup.{
  links, is_stoppable, Deployment, World, Calls, has, is_of, is_listed, deployments_of, stop_row,
  on_rows, mark_stopped, schedule_deployments, stop_environment_deployments, unlink,
  delete_environment, cleanup_environment_now, cleanup_all, run_cleanup_once, due_for_cleanup,
}

abbrev pub is_ended : Deployment → Bool
is_ended d = d.stopped || d.failed || not d.preview

-- A deployment of the environment.
abbrev pub Linked : ℕ → ℕ → World → Type 0
Linked env id w =
    (d : Deployment) × (w.deployments id ≡ some d) × (is_of env d ≡ true) × (d.deleted ≡ false)

-- A deployment that has ended and is scheduled.
abbrev pub Released : ℕ → World → Type 0
Released id w =
    (d : Deployment) × (w.deployments id ≡ some d)
    × (is_ended d ≡ true)
    × (has id w.scheduled ≡ true)

abbrev Kept : ℕ → ℕ → World → Type 0
Kept env id w = (has id w.ids ≡ true) × (Linked env id w ⊎ Released id w)

has-append : (id : ℕ) (xs ys : List ℕ) → has id xs ≡ true → has id (xs ++ ys) ≡ true
has-append id [] ys h = absurd (false≢true h)
has-append id (x ∷ xs) ys h = grind (arith, has-append id xs ys)

has-append_right : (id : ℕ) (xs ys : List ℕ) → has id ys ≡ true → has id (xs ++ ys) ≡ true
has-append_right id [] ys h = h
has-append_right id (x ∷ xs) ys h = grind (arith, has-append_right id xs ys h)

pub ==-same : (a b : ℕ) → (a == b) ≡ true → a ≡ b
==-same a b h = ground arith

has-deployments_of :
    (env : ℕ) (rows : ℕ → Option Deployment) (id : ℕ) (ids : List ℕ)
    → has id ids ≡ true
    → is_listed env (rows id) ≡ true
    → has id (deployments_of env rows ids) ≡ true
has-deployments_of env rows id [] h k = absurd (false≢true h)
has-deployments_of env rows id (j ∷ ids) h k = elim (Bool-cases (is_listed env (rows j))) [
  | inl l ↦ rw l (grind (arith, has-deployments_of env rows id ids))
  | inr l ↦ rw l (elim (Bool-cases (id == j)) [
    | inl e ↦
        absurd (false≢true (sym l ∙ ap (λ n. is_listed env (rows n)) (sym (==-same id j e)) ∙ k))
    | inr e ↦ has-deployments_of env rows id ids (grind arith) k
  ])
]

stop_row-cases :
    (e : ℕ) (d : Deployment)
    → (stop_row e d ≡ record d { stopped = true })
      ⊎ ((stop_row e d ≡ d) × (is_stoppable e d ≡ false))
stop_row-cases e d = elim (Bool-cases (is_stoppable e d)) [
  | inl s ↦ inl (rw s refl)
  | inr s ↦ inr (rw s refl, s)
]

-- What holds of a row and of the stopped row.
stop_row-keeps :
    (P : Deployment → Type 0) (e : ℕ) (d : Deployment)
    → P d
    → P (record d { stopped = true })
    → P (stop_row e d)
stop_row-keeps P e d h k = elim (stop_row-cases e d) [
  | inl s ↦ subst P (sym s) k
  | inr s ↦ subst P (sym s.0) h
]

stop_row-ends :
    (e : ℕ) (d : Deployment) → is_of e d ≡ true → d.deleted ≡ false → is_ended (stop_row e d) ≡ true
stop_row-ends e d h k = elim (stop_row-cases e d) [
  | inl s ↦ ap is_ended s
  | inr s ↦ ap is_ended s.0 ∙ ground arith
]

links-same : (e env : ℕ) (o : Option ℕ) → links e o ≡ true → links env o ≡ true → e ≡ env
links-same e env none h k = absurd (false≢true h)
links-same e env (some x) h k = sym (==-same x e h) ∙ ==-same x env k

unlink-cases : (e env : ℕ) (d : Deployment) → is_of env d ≡ true → (e ≡ env) ⊎ (unlink e d ≡ d)
unlink-cases e env d h = elim (Bool-cases (is_of e d)) [
  | inl k ↦ inl (links-same e env d.environment k h)
  | inr k ↦ inr (rw k refl)
]

unlink-is_ended : (e : ℕ) (d : Deployment) → is_ended (unlink e d) ≡ is_ended d
unlink-is_ended e d = elim (Bool-cases (is_of e d)) [ inl h ↦ rw h refl | inr h ↦ rw h refl ]

-- Where the deployments are stopped and scheduled.
abbrev pub halted : Calls → ℕ → World → World
halted c e w = schedule_deployments c (deployments_of e w.deployments w.ids) (mark_stopped e w)

module _ (c : Calls) (s : c.scheduler ≡ true) (env id : ℕ) where
  halted-Released : (e : ℕ) (w : World) → Released id w → Released id (halted c e w)
  unfolding schedule_deployments mark_stopped
  halted-Released e w (d, r, k, h) = rw s (
    stop_row e d,
    ap (on_rows (stop_row e)) r,
    stop_row-keeps (λ x. is_ended x ≡ true) e d k refl,
    has-append id w.scheduled _ h,
  )

  halted-Linked : (e : ℕ) (w : World) → Linked env id w → Linked env id (halted c e w)
  unfolding schedule_deployments mark_stopped
  halted-Linked e w (d, r, o, l) =
      let (o', l') =
        stop_row-keeps (λ x. (is_of env x ≡ true) × (x.deleted ≡ false)) e d (o, l) (o, l) in
      rw s (stop_row e d, ap (on_rows (stop_row e)) r, o', l')

  halted-ends : (w : World) → has id w.ids ≡ true → Linked env id w → Released id (halted c env w)
  unfolding schedule_deployments mark_stopped
  halted-ends w i (d, r, o, l) = rw s (
    stop_row env d,
    ap (on_rows (stop_row env)) r,
    stop_row-ends env d o l,
    has-append_right id w.scheduled _
        (has-deployments_of env w.deployments id w.ids i (rw (r, o, l) refl)),
  )

  halted-ids : (e : ℕ) (w : World) → (halted c e w).ids ≡ w.ids
  unfolding schedule_deployments mark_stopped
  halted-ids e w = rw s refl

  halted-Kept : (e : ℕ) (w : World) → Kept env id w → Kept env id (halted c e w)
  halted-Kept e w (i, inl k) = (ap (has id) (halted-ids e w) ∙ i, inl (halted-Linked e w k))
  halted-Kept e w (i, inr k) = (ap (has id) (halted-ids e w) ∙ i, inr (halted-Released e w k))

  delete-Released : (e : ℕ) (w : World) → Released id w → Released id (delete_environment c e w).1
  unfolding delete_environment
  delete-Released e w (d, r, k, h) = elim (Bool-cases (c.deletes e)) [
    | inl t ↦ rw t (unlink e d, ap (on_rows (unlink e)) r, unlink-is_ended e d ∙ k, h)
    | inr t ↦ rw t (d, r, k, h)
  ]

  delete-ids : (e : ℕ) (w : World) → (delete_environment c e w).1.ids ≡ w.ids
  unfolding delete_environment
  delete-ids e w = elim (Bool-cases (c.deletes e)) [ inl t ↦ rw t refl | inr t ↦ rw t refl ]

  delete-Linked :
      (e : ℕ) (w : World) → Linked env id w → (e ≡ env) ⊎ Linked env id (delete_environment c e w).1
  unfolding delete_environment
  delete-Linked e w (d, r, o, l) = elim (Bool-cases (c.deletes e)) [
    | inl t ↦ elim (unlink-cases e env d o) [
      | inl q ↦ inl q
      | inr q ↦ rw t (inr (d, ap (on_rows (unlink e)) r ∙ ap some q, o, l))
    ]
    | inr t ↦ rw t (inr (d, r, o, l))
  ]

  -- An environment is deleted after its deployments have ended.
  delete-Kept :
      (e : ℕ) (w : World)
      → (e ≡ env → Released id w)
      → Kept env id w
      → Kept env id (delete_environment c e w).1
  delete-Kept e w f (i, inr k) = (ap (has id) (delete-ids e w) ∙ i, inr (delete-Released e w k))
  delete-Kept e w f (i, inl k) = (
    ap (has id) (delete-ids e w) ∙ i,
    elim (delete-Linked e w k) [ inl q ↦ inr (delete-Released e w (f q)) | inr l ↦ inl l ],
  )

  halted-same : (e : ℕ) (w : World) → Kept env id w → e ≡ env → Released id (halted c e w)
  halted-same e w (i, inl k) q = subst (λ x. Released id (halted c x w)) (sym q) (halted-ends w i k)
  halted-same e w (i, inr k) q = halted-Released e w k

  cleanup-Kept : (e : ℕ) (w : World) → Kept env id w → Kept env id (cleanup_environment_now c e w).1
  unfolding cleanup_environment_now stop_environment_deployments
  cleanup-Kept e w k = elim (Bool-cases (c.lists e)) [
    | inr t ↦ rw t k
    | inl t ↦ elim (Bool-cases (c.marks e)) [
      | inr m ↦ rw (t, m) k
      | inl m ↦ rw (t, m) (delete-Kept e (halted c e w) (halted-same e w k) (halted-Kept e w k))
    ]
  ]

  all-Kept : (envs : List ℕ) (w : World) → Kept env id w → Kept env id (cleanup_all c envs w)
  unfolding cleanup_all
  all-Kept [] w k = k
  all-Kept (e ∷ envs) w k = all-Kept envs (cleanup_environment_now c e w).1 (cleanup-Kept e w k)

-- A deployment of an environment, listed and not deleted: after a clean-up with a scheduler, whichever calls of it
-- fail, the deployment is still of the environment and not deleted, or it is stopped, failed or no preview,
-- and it is scheduled.
pub run_cleanup_once-Released :
    (c : Calls) (w : World) (env id : ℕ)
    → c.scheduler ≡ true
    → has id w.ids ≡ true
    → Linked env id w
    → Linked env id (run_cleanup_once c w) ⊎ Released id (run_cleanup_once c w)
unfolding run_cleanup_once
run_cleanup_once-Released c w env id s i k =
    elim (Bool-cases (not c.connects || not c.locks || not c.lists_due)) [
      | inl t ↦ rw t (inl k)
      | inr t ↦ rw t ((all-Kept c s env id (due_for_cleanup c.now w.environments) w (i, inl k)).1)
    ]
