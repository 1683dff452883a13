-- ===== src/Scaling.antt =====
-- internal/rpc/project_crud.go and internal/deploy/deploy.go: how many instances a project may have,
-- and how many a deployment should have.
--
-- An `int32` is an integer; no function below adds to one. A Go struct carries only the columns
-- that these functions read.
pub mod Bounds
mod Examples
use kindling.Base.{
  str_eq, inr, inl, ◌⊎◌, String, Bool, true, false, not, ◌&&◌, ◌||◌, Option, none, some,
  if◌then◌else◌, ℤ, pos, negsuc, ltb_ℤ, leb_ℤ, ℕ,
}

pub record Project : Type 0 where
  pub desired_instance_count : ℤ
  pub min_instance_count : ℤ
  pub max_instance_count : ℤ
  pub scaled_to_zero : Bool
  -- `LastRequestAt`, in nanoseconds, if it is valid.
  pub last_request_at : Option ℕ

pub record Service : Type 0 where
  pub id : ℕ
  pub desired_instance_count : ℤ

pub record Deployment : Type 0 where
  pub deployment_kind : String
  pub wake_requested_at : Option ℕ
  pub preview_scaled_to_zero : Bool

pub data BoundsError : Type 0 where
  min_negative max_negative min_above_max : BoundsError

-- project_crud.go, `validateProjectScalingBounds`; `none` is the nil error.
pub validate_project_scaling_bounds : ℤ → ℤ → Option BoundsError
validate_project_scaling_bounds min max =
    if ltb_ℤ min (pos 0)
    then some min_negative
    else if ltb_ℤ max (pos 0)
    then some max_negative
    else if ltb_ℤ max min
    then some min_above_max
    else none

pub non_zero_project_replica_floor : ℤ → ℤ → ℤ
non_zero_project_replica_floor min max =
    if leb_ℤ max (pos 0) then pos 0 else if ltb_ℤ (pos 1) min then min else pos 1

pub initial_desired_replica_target : ℤ → ℤ → ℤ
unfolding non_zero_project_replica_floor
initial_desired_replica_target min max =
    if leb_ℤ max (pos 0)
    then pos 0
    else let target = non_zero_project_replica_floor min max in
      if ltb_ℤ max target then max else target

pub clamp_desired_replica_target : ℤ → ℤ → ℤ → ℤ
unfolding non_zero_project_replica_floor
clamp_desired_replica_target desired min max =
    if leb_ℤ max (pos 0)
    then pos 0
    else let floor = non_zero_project_replica_floor min max in
      let raised = if ltb_ℤ desired floor then floor else desired in
      if ltb_ℤ max raised then max else raised

-- The optional counts of the two JSON requests.
pub record ScalingRequest : Type 0 where
  pub desired : Option ℤ
  pub min : Option ℤ
  pub max : Option ℤ
  -- `ScaleToZeroEnabled`, which only a patch reads here.
  pub scale_to_zero_enabled : Option Bool

-- `createProject`: the bounds that are validated.
pub create_min : ScalingRequest → ℤ
create_min r = elim r.min [ some m ↦ m | none ↦ elim r.desired [ some d ↦ d | none ↦ pos 0 ] ]

pub create_max : ScalingRequest → ℤ
unfolding create_min
create_max r = elim r.max [
  | some m ↦ m
  | none ↦ if ltb_ℤ (pos 3) (create_min r) then create_min r else pos 3
]

-- The counts that `createProject` stores, or the error that it answers.
pub create_project : ScalingRequest → BoundsError ⊎ Project
unfolding create_min create_max validate_project_scaling_bounds initial_desired_replica_target
create_project r = elim (validate_project_scaling_bounds (create_min r) (create_max r)) [
  | some e ↦ inl e
  | none ↦ inr (record {
    desired_instance_count = initial_desired_replica_target (create_min r) (create_max r);
    min_instance_count = create_min r;
    max_instance_count = create_max r;
    scaled_to_zero = false;
    last_request_at = none;
  })
]

pub patch_min : Project → ScalingRequest → ℤ
patch_min current r = elim r.min [
  | some m ↦ m
  | none ↦ elim r.desired [ some d ↦ d | none ↦ current.min_instance_count ]
]

pub patch_max : Project → ScalingRequest → ℤ
patch_max current r = elim r.max [
  | some m ↦ m
  | none ↦ elim r.desired [
    | some d ↦ if ltb_ℤ current.max_instance_count d then d else current.max_instance_count
    | none ↦ current.max_instance_count
  ]
]

pub patch_desired : Project → ScalingRequest → ℤ
patch_desired current r = elim r.desired [ some d ↦ d | none ↦ current.desired_instance_count ]

-- `patchProject`, its counts alone: `ensurePersistentVolumeScalingBounds` may refuse a request
-- before, which leaves the project as it is. `scaled_to_zero` is cleared when the target is positive and
-- when the request turns scaling to zero off; an error there, which the code ignores, is left out.
abbrev turned_off : ScalingRequest → Bool
turned_off r = elim r.scale_to_zero_enabled [ none ↦ false | some enabled ↦ not enabled ]

pub patch_project : Project → ScalingRequest → BoundsError ⊎ Project
unfolding patch_desired patch_min patch_max validate_project_scaling_bounds
    clamp_desired_replica_target
patch_project current r =
    elim (validate_project_scaling_bounds (patch_min current r) (patch_max current r)) [
      | some e ↦ inl e
      | none ↦
          let target =
            clamp_desired_replica_target (patch_desired current r) (patch_min current r)
              (patch_max current r) in
          inr (record current {
            desired_instance_count = target;
            min_instance_count = patch_min current r;
            max_instance_count = patch_max current r;
            scaled_to_zero =
                if ltb_ℤ (pos 0) target || turned_off r then false else current.scaled_to_zero;
          })
    ]

-- deploy.go.
unfoldable pub service_desired_replica_count : Project → Option Service → ℤ
service_desired_replica_count proj none = proj.desired_instance_count
service_desired_replica_count proj (some service) =
    if ltb_ℤ (pos 0) service.desired_instance_count
    then service.desired_instance_count
    else proj.desired_instance_count

pub non_zero_replica_floor : Project → ℤ
non_zero_replica_floor proj =
    if leb_ℤ proj.max_instance_count (pos 0)
    then pos 0
    else if ltb_ℤ (pos 1) proj.min_instance_count
    then proj.min_instance_count
    else pos 1

pub clamp_desired_replica_count : Project → ℤ → ℤ
unfolding non_zero_replica_floor
clamp_desired_replica_count proj desired =
    if leb_ℤ proj.max_instance_count (pos 0)
    then pos 0
    else let floor = non_zero_replica_floor proj in
      let raised = if ltb_ℤ desired floor then floor else desired in
      let capped =
        if ltb_ℤ proj.max_instance_count raised then proj.max_instance_count else raised in
      if ltb_ℤ capped (pos 0) then pos 0 else capped

abbrev pub is_some {ℓ} : {A : Type ℓ} → Option A → Bool
is_some (some a) = true
is_some none = false

at_least_one : ℤ → ℤ
at_least_one d = if ltb_ℤ d (pos 1) then pos 1 else d

pub effective_replica_count : Project → Option Service → Deployment → ℤ
unfolding service_desired_replica_count clamp_desired_replica_count at_least_one
effective_replica_count proj service dep =
    let service_desired = service_desired_replica_count proj service in
    if str_eq dep.deployment_kind "preview"
    then if is_some dep.wake_requested_at
      then at_least_one service_desired
      else if dep.preview_scaled_to_zero
      then pos 0
      else at_least_one service_desired
    else if is_some dep.wake_requested_at
    then clamp_desired_replica_count proj service_desired
    else if proj.scaled_to_zero
    then pos 0
    else clamp_desired_replica_count proj service_desired

-- `ReconcileDeployment`: a production deployment of a project with a persistent volume runs one
-- instance at most.
pub volume_replica_count : Bool → ℤ → ℤ
volume_replica_count has_volume desired =
    if has_volume && ltb_ℤ (pos 1) desired then pos 1 else desired
