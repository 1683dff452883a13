-- ===== src/Autoscale/Target.antt =====
-- internal/autoscale/autoscale.go: the target of one service.
use kindling.Base.{
  -ℤ_parts, ℕ, Bool, true, ◌≡◌, Option, some, ◌⊎◌, arith, ℤ, pos, ◌≤ℤ◌, ◌<ℤ◌, ◌-ℤ◌,
}
use kindling.Scaling.{Project, Service}
use kindling.Scaling.Bounds.{IsBounded}
use kindling.Autoscale.{
  Float64, non_zero_floor, clamp_current_target, target_from_metrics, should_step_down,
  should_hold_scale_down, compute_desired_instance_count, decide_target,
}

module _ (proj : Project) (b : IsBounded proj) (h : pos 0 <ℤ proj.max_instance_count) where
  floor_lem :
      (pos 1 ≤ℤ non_zero_floor proj)
      × (proj.min_instance_count ≤ℤ non_zero_floor proj)
      × (non_zero_floor proj ≤ℤ proj.max_instance_count)
  unfolding non_zero_floor
  floor_lem = ground arith

  clamp_current_lem :
      (svc : Service)
      → (non_zero_floor proj ≤ℤ clamp_current_target proj svc)
        × (clamp_current_target proj svc ≤ℤ proj.max_instance_count)
  unfolding clamp_current_target
  clamp_current_lem svc = ground (arith, floor_lem)

  module _ (F : Float64) where
    metrics_lem :
        (rpm : F.Float) (cpu : Option F.Float)
        → (non_zero_floor proj ≤ℤ target_from_metrics F proj rpm cpu)
          × (target_from_metrics F proj rpm cpu ≤ℤ proj.max_instance_count)
    unfolding target_from_metrics
    metrics_lem rpm cpu = ground (arith, floor_lem)

module _ (F : Float64) where
  open F use {Float}

  -- For a project within its bounds that allows an instance, the new target is at least one, at
  -- least the minimum and at most the maximum, whatever the traffic and the load are.
  pub compute_desired-bounds :
      (proj : Project) (svc : Service) (rpm : Float) (cpu : Option Float)
      → IsBounded proj
      → pos 0 <ℤ proj.max_instance_count
      → let n = compute_desired_instance_count F proj svc rpm cpu in
        (pos 1 ≤ℤ n) × (proj.min_instance_count ≤ℤ n) × (n ≤ℤ proj.max_instance_count)
  unfolding compute_desired_instance_count
  compute_desired-bounds proj svc rpm cpu b h = ground (
    arith,
    floor_lem proj b h,
    clamp_current_lem proj b h svc,
    metrics_lem proj b h F rpm cpu,
    -ℤ_parts (clamp_current_target proj svc) (pos 1),
  )

  -- For a project within its bounds that allows an instance, the target is what traffic and load ask
  -- for if that is above the current count; else it is the current count, or exactly one less where
  -- traffic and load allow it and the current count is above the minimum and above one.
  compute_desired-cases :
      (proj : Project) (svc : Service) (rpm : Float) (cpu : Option Float)
      → IsBounded proj
      → pos 0 <ℤ proj.max_instance_count
      → let current = clamp_current_target proj svc in
        let up = target_from_metrics F proj rpm cpu in
        let n = compute_desired_instance_count F proj svc rpm cpu in
        ((current <ℤ up) × (n ≡ up))
        ⊎ (((up ≤ℤ current) × (n ≡ current))
            ⊎ ((up ≤ℤ current)
                × (n ≡ current -ℤ pos 1)
                × (should_step_down F current rpm cpu ≡ true)
                × (non_zero_floor proj <ℤ current)))
  unfolding compute_desired_instance_count
  compute_desired-cases proj svc rpm cpu b h = ground (
    arith,
    floor_lem proj b h,
    clamp_current_lem proj b h svc,
    metrics_lem proj b h F rpm cpu,
    -ℤ_parts (clamp_current_target proj svc) (pos 1),
  )

  -- A count that the fast sweep sets is above the current one; so is one that the slow sweep sets
  -- while the last request is within the cooldown; neither sets the count that stands.
  pub decide_target-rises :
      (fast : Bool) (now : ℕ) (proj : Project) (svc : Service) (rpm : Float) (cpu : Option Float)
      {next : ℤ}
      → decide_target F fast now proj svc rpm cpu ≡ some next
      → ((fast ≡ true) ⊎ (should_hold_scale_down proj now ≡ true))
      → clamp_current_target proj svc <ℤ next
  unfolding decide_target
  decide_target-rises fast now proj svc rpm cpu h c = ground arith

  pub decide_target-eq :
      (fast : Bool) (now : ℕ) (proj : Project) (svc : Service) (rpm : Float) (cpu : Option Float)
      {next : ℤ}
      → decide_target F fast now proj svc rpm cpu ≡ some next
      → next ≡ compute_desired_instance_count F proj svc rpm cpu
  unfolding decide_target
  decide_target-eq fast now proj svc rpm cpu h = ground arith
