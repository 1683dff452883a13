-- ===== src/Scaling/Bounds.antt =====
-- internal/rpc/project_crud.go and internal/deploy/deploy.go: every stored or computed count is
-- within the project's bounds.
use kindling.Base.{
  [], refl, ◌∷◌, Bool-cases, List, ◌⊎◌, not, ◌||◌, ◌&&◌, leb_ℤ, if◌then◌else◌, str_eq, inl, false,
  true, Option-cases, inr, Option, ◌≡◌, none, arith, ℤ, pos, ◌≤ℤ◌,
}
use kindling.Scaling.{
  BoundsError, service_desired_replica_count, is_some, create_max, patch_max, create_min, patch_min,
  patch_desired, Deployment, Service, ScalingRequest, create_project, patch_project,
  effective_replica_count, Project, validate_project_scaling_bounds, clamp_desired_replica_target,
  initial_desired_replica_target,
}

-- What the API keeps true of a stored project.
pub record IsBounded (p : Project) : Type 0 where
  pub min_nonneg : pos 0 ≤ℤ p.min_instance_count
  pub ordered : p.min_instance_count ≤ℤ p.max_instance_count
  pub above : p.min_instance_count ≤ℤ p.desired_instance_count
  pub below : p.desired_instance_count ≤ℤ p.max_instance_count

validate_lem :
    (min max : ℤ) → validate_project_scaling_bounds min max ≡ none → (pos 0 ≤ℤ min) × (min ≤ℤ max)
unfolding validate_project_scaling_bounds
validate_lem min max h = ground arith

initial_lem :
    (min max : ℤ)
    → pos 0 ≤ℤ min
    → min ≤ℤ max
    → (min ≤ℤ initial_desired_replica_target min max)
      × (initial_desired_replica_target min max ≤ℤ max)
unfolding initial_desired_replica_target
initial_lem min max h k = ground arith

clamp_lem :
    (d min max : ℤ)
    → pos 0 ≤ℤ min
    → min ≤ℤ max
    → (min ≤ℤ clamp_desired_replica_target d min max)
      × (clamp_desired_replica_target d min max ≤ℤ max)
unfolding clamp_desired_replica_target
clamp_lem d min max h k = ground arith

create_project-IsBounded :
    (r : ScalingRequest) (p : Project) → create_project r ≡ inr p → IsBounded p
unfolding create_project
create_project-IsBounded r p h =
    elim (Option-cases (validate_project_scaling_bounds (create_min r) (create_max r))) [
      | inr (e, bad) ↦ cc
      | inl fine ↦ ground (
        arith,
        validate_lem (create_min r) (create_max r) fine,
        initial_lem (create_min r) (create_max r),
      )
    ]

patch_project-IsBounded :
    (current : Project) (r : ScalingRequest) (p : Project)
    → patch_project current r ≡ inr p
    → IsBounded p
unfolding patch_project
patch_project-IsBounded current r p h =
    elim (Option-cases
      (validate_project_scaling_bounds (patch_min current r) (patch_max current r))) [
        | inr (e, bad) ↦ cc
        | inl fine ↦ ground (
          arith,
          validate_lem (patch_min current r) (patch_max current r) fine,
          clamp_lem (patch_desired current r) (patch_min current r) (patch_max current r),
        )
      ]

-- The project after a patch: a refused one leaves it as it is.
abbrev patched : (BoundsError ⊎ Project) → Project → Project
patched (inl e) p = p
patched (inr q) p = q

-- The patches of a project, one after another.
pub run_patches : List ScalingRequest → Project → Project
run_patches [] p = p
run_patches (r ∷ rs) p = run_patches rs (patched (patch_project p r) p)

patched-IsBounded :
    (p : Project) (r : ScalingRequest) (o : BoundsError ⊎ Project)
    → patch_project p r ≡ o
    → IsBounded p
    → IsBounded (patched o p)
patched-IsBounded p r (inl e) h b = b
patched-IsBounded p r (inr q) h b = patch_project-IsBounded p r q h

run_patches-IsBounded :
    (rs : List ScalingRequest) (p : Project) → IsBounded p → IsBounded (run_patches rs p)
unfolding run_patches
run_patches-IsBounded [] p b = b
run_patches-IsBounded (r ∷ rs) p b =
    run_patches-IsBounded rs (patched (patch_project p r) p)
      (patched-IsBounded p r (patch_project p r) refl b)

-- A project that `createProject` stores has 0 ≤ min ≤ desired target ≤ max, and so it has after any
-- number of patches.
pub project-IsBounded :
    (r : ScalingRequest) (rs : List ScalingRequest) (p : Project)
    → create_project r ≡ inr p
    → IsBounded (run_patches rs p)
project-IsBounded r rs p h = run_patches-IsBounded rs p (create_project-IsBounded r p h)

effective_replica_count-production :
    (proj : Project) (service : Option Service) (dep : Deployment)
    → IsBounded proj
    → str_eq dep.deployment_kind "preview" ≡ false
    → let n = effective_replica_count proj service dep in
      if leb_ℤ proj.max_instance_count (pos 0)
        || (proj.scaled_to_zero && not (is_some dep.wake_requested_at))
      then n ≡ pos 0
      else (pos 1 ≤ℤ n) × (proj.min_instance_count ≤ℤ n) × (n ≤ℤ proj.max_instance_count)
unfolding effective_replica_count
effective_replica_count-production proj service dep b k = ground arith

effective_replica_count-preview :
    (proj : Project) (service : Option Service) (dep : Deployment)
    → str_eq dep.deployment_kind "preview" ≡ true
    → let n = effective_replica_count proj service dep in
      if dep.preview_scaled_to_zero && not (is_some dep.wake_requested_at)
      then n ≡ pos 0
      else (pos 1 ≤ℤ n)
        × (service_desired_replica_count proj service ≤ℤ n)
        × ((n ≡ pos 1) ⊎ (n ≡ service_desired_replica_count proj service))
unfolding effective_replica_count
effective_replica_count-preview proj service dep k = ground arith

-- Of a project within its bounds, a preview deployment should have no instance exactly when it has been
-- scaled to zero and has no wake request, and otherwise the desired count, or one if that is less. A
-- production deployment should have no instance if the project allows none or has been scaled to zero
-- without a wake request, and otherwise at least one, at least the minimum and at most the maximum.
pub effective_replica_count_lem :
    (proj : Project) (service : Option Service) (dep : Deployment)
    → IsBounded proj
    → let n = effective_replica_count proj service dep in
      if str_eq dep.deployment_kind "preview"
      then (if dep.preview_scaled_to_zero && not (is_some dep.wake_requested_at)
          then n ≡ pos 0
          else (pos 1 ≤ℤ n)
            × (service_desired_replica_count proj service ≤ℤ n)
            × ((n ≡ pos 1) ⊎ (n ≡ service_desired_replica_count proj service)))
      else (if leb_ℤ proj.max_instance_count (pos 0)
            || (proj.scaled_to_zero && not (is_some dep.wake_requested_at))
          then n ≡ pos 0
          else (pos 1 ≤ℤ n) × (proj.min_instance_count ≤ℤ n) × (n ≤ℤ proj.max_instance_count))
effective_replica_count_lem proj service dep b =
    elim (Bool-cases (str_eq dep.deployment_kind "preview")) [
      | inl k ↦ simp k (effective_replica_count-preview proj service dep k)
      | inr k ↦ simp k (effective_replica_count-production proj service dep b k)
    ]
