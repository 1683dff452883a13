-- ===== src/Drain/Older.antt =====
-- internal/deploy/deploy_instance.go, `drainOldDeployments`.
use kindling.Base.{
  sym, false≢true, ◌⊎◌, false, subst, ==_refl, Bool-cases, ◌∙◌, ℕ, ◌<◌, ◌==◌, ==_iff, ◌≡◌, ◌≢◌,
  refl, true, Option, none, some, List, [], ◌∷◌, ap, if◌then◌else◌, arith, count, Option-cases, inl,
  inr,
}
use kindling.Drain.{
  Deployment, Table, is_running_other, matches, find_running_and_older, set_stopped, mark_stopped,
  stop_all, drain_old_deployments,
}

set_stopped_twice : (o : Option Deployment) → set_stopped (set_stopped o) ≡ set_stopped o
unfolding set_stopped
set_stopped_twice none = refl
set_stopped_twice (some o) = refl

stop_all_lem :
    (ids : List ℕ) (t : Table) (j : ℕ)
    → stop_all ids t j ≡ (if count j ids == 0 then t j else set_stopped (t j))
unfolding stop_all
stop_all_lem [] t j = refl
stop_all_lem (id ∷ ids) t j = elim (Bool-cases (id == j)) [
  | inl same ↦
      let e = (==_iff id j).0 same in
      stop_all_lem ids (mark_stopped id t) j
      ∙ simp (e, ==_refl j, set_stopped_twice (t j)) (ground arith)
  | inr other ↦ stop_all_lem ids (mark_stopped id t) j ∙ simp other (ground arith)
]

count-find :
    (t : Table) (project current j : ℕ) (ids : List ℕ)
    → count j (find_running_and_older t project current ids)
      ≡ (if matches project current j (t j) then count j ids else 0)
unfolding find_running_and_older
count-find t project current j [] = ground arith
count-find t project current j (id ∷ ids) =
    ground (arith, ==_iff id j, count-find t project current j ids, ap t)

-- What becomes of a row.
abbrev drained_row : ℕ → ℕ → ℕ → Option Deployment → Option Deployment
drained_row project current id none = none
drained_row project current id (some o) =
    if is_running_other project current id o then some (record o { stopped = true }) else some o

drained :
    (project current : ℕ) (ids : List ℕ) (t : Table)
    → ((j : ℕ) → t j ≢ none → 0 < count j ids)
    → (j : ℕ) → drain_old_deployments project current ids t j ≡ drained_row project current j (t j)
unfolding drain_old_deployments matches set_stopped
drained project current ids t h j = elim (Option-cases (t j)) [
  | inl k ↦
      let c = count-find t project current j ids in
      stop_all_lem (find_running_and_older t project current ids) t j ∙ simp (c, k) (ground arith)
  | inr (o, k) ↦
      let c = count-find t project current j ids in
      let listed : 0 < count j ids = h j (λ e. cc) in
      stop_all_lem (find_running_and_older t project current ids) t j ∙ simp (c, k) (ground arith)
]

-- Another production deployment of the project that runs.
abbrev pub IsOther : ℕ → ℕ → ℕ → Deployment → Type 0
IsOther project current id o =
    (o.project_id ≡ project)
    × (o.is_production ≡ true)
    × (o.running ≡ true)
    × (o.stopped ≡ false)
    × (o.failed ≡ false)
    × (o.deleted ≡ false)
    × (id ≢ current)

-- A row before and after.
abbrev pub Drained : ℕ → ℕ → ℕ → Option Deployment → Option Deployment → Type 0
Drained project current id none after = after ≡ none
Drained project current id (some o) after =
    (IsOther project current id o × (after ≡ some (record o { stopped = true })))
    ⊎ ((¬ IsOther project current id o) × (after ≡ some o))

is_running_other-IsOther :
    (project current id : ℕ) (o : Deployment)
    → is_running_other project current id o ≡ true
    → IsOther project current id o
unfolding is_running_other
is_running_other-IsOther project current id o h =
    grind (arith, ==_iff o.project_id project, ==_iff id current)

IsOther-is_running_other :
    (project current id : ℕ) (o : Deployment)
    → IsOther project current id o
    → is_running_other project current id o ≡ true
unfolding is_running_other
IsOther-is_running_other project current id o (a, b, c, d, e, f, g) =
    grind (arith, ==_iff o.project_id project, ==_iff id current)

drained_row-Drained :
    (project current id : ℕ) (o : Option Deployment)
    → Drained project current id o (drained_row project current id o)
drained_row-Drained project current id none = refl
drained_row-Drained project current id (some o) =
    elim (Bool-cases (is_running_other project current id o)) [
      | inl k ↦ rw k (inl (is_running_other-IsOther project current id o k, refl))
      | inr k ↦
          rw k (
            inr ((λ q. false≢true (sym k ∙ IsOther-is_running_other project current id o q)), refl))
    ]

-- When a production deployment has taken over and every deployment is in the list, each other production deployment of its project that is
-- running, neither stopped nor failed nor deleted, is stopped, of whatever service it is and however new, and no other
-- row changes.
pub drain_old_deployments_lem :
    (project current : ℕ) (ids : List ℕ) (t : Table)
    → ((j : ℕ) → t j ≢ none → 0 < count j ids)
    → (j : ℕ) → Drained project current j (t j) (drain_old_deployments project current ids t j)
drain_old_deployments_lem project current ids t h j =
    subst (Drained project current j (t j)) (sym (drained project current ids t h j))
      (drained_row-Drained project current j (t j))
