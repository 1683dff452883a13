-- ===== src/Scaling/Examples.antt =====
-- internal/rpc/project_crud.go and internal/deploy/deploy.go: counts at concrete projects.
use kindling.Base.{[], ◌∷◌, refl, ◌≤ℤ◌, none, some, true, false, arith, pos}
use kindling.Scaling.{Project, Deployment, ScalingRequest, create_project, effective_replica_count}
use kindling.Scaling.Bounds.{IsBounded, run_patches, project-IsBounded, effective_replica_count_lem}

abbrev five : ScalingRequest
five = record { desired = some (pos 5); min = none; max = none; scale_to_zero_enabled = none }

abbrev blog : Project
blog = record {
  desired_instance_count = pos 5;
  min_instance_count = pos 5;
  max_instance_count = pos 5;
  scaled_to_zero = false;
  last_request_at = none;
}

abbrev asleep : Project
asleep = record blog { scaled_to_zero = true }

project-IsBounded_example : IsBounded (run_patches (five ∷ []) blog)
unfolding create_project
project-IsBounded_example = project-IsBounded five (five ∷ []) blog refl

abbrev production : Deployment
production = record {
  deployment_kind = "production";
  wake_requested_at = some 1;
  preview_scaled_to_zero = false;
}

abbrev preview : Deployment
preview = record production { deployment_kind = "preview"; wake_requested_at = none }

effective_replica_count_lem_example :
    (pos 1 ≤ℤ effective_replica_count asleep none production)
    × (pos 5 ≤ℤ effective_replica_count asleep none production)
    × (effective_replica_count asleep none production ≤ℤ pos 5)
effective_replica_count_lem_example =
    effective_replica_count_lem asleep none production (omega arith)
