-- ===== src/Autoscale.antt =====
-- internal/autoscale/autoscale.go: replica targets from HTTP and CPU signals.
--
-- `float64` and `math` are not part of the repository: they are the parameter `Float64`. The database
-- is the parameter `Store`, whose answers may be errors.
pub mod Target
pub mod Sweep
mod Examples
use mathlib.Core.Option
use kindling.Base.{
  ℕ, Bool, true, false, not, ◌&&◌, ◌||◌, ◌≡◌, Option, none, some, if◌then◌else◌, ℤ, pos, negsuc,
  ltb_ℤ, leb_ℤ, eqb_ℤ, ◌-ℤ◌, ltb, ◌*◌, ◌-◌, ◌%◌, ◌+◌, List, [], ◌∷◌,
}
use kindling.Scaling.{Project, Service}

-- A `pgtype.UUID`: `none` is one that is not valid.
abbrev pub DeploymentId : Type 0
DeploymentId = Option ℕ

pub record Float64 : Type 1 where
  pub Float : Type 0
  -- `float64(n)` of an integer.
  pub of_int : ℤ → Float
  pub add : Float → Float → Float
  pub mul : Float → Float → Float
  pub div : Float → Float → Float
  pub lt : Float → Float → Bool
  pub eq : Float → Float → Bool
  -- `int32(math.Ceil(x))`.
  pub ceil : Float → ℤ
  -- `Duration.Minutes`, of a number of nanoseconds.
  pub minutes : ℕ → Float

pub non_zero_floor : Project → ℤ
non_zero_floor proj =
    if leb_ℤ proj.max_instance_count (pos 0)
    then pos 0
    else if ltb_ℤ (pos 1) proj.min_instance_count
    then proj.min_instance_count
    else pos 1

unfoldable pub service_desired_replica_count : Project → Service → ℤ
service_desired_replica_count proj service =
    if ltb_ℤ (pos 0) service.desired_instance_count
    then service.desired_instance_count
    else proj.desired_instance_count

pub clamp_current_target : Project → Service → ℤ
unfolding service_desired_replica_count
clamp_current_target proj service =
    if leb_ℤ proj.max_instance_count (pos 0)
    then pos 0
    else let target = service_desired_replica_count proj service in
      let floor = non_zero_floor proj in
      let raised = if ltb_ℤ target floor then floor else target in
      let capped =
        if ltb_ℤ proj.max_instance_count raised then proj.max_instance_count else raised in
      if ltb_ℤ capped (pos 0) then pos 0 else capped

-- A quarter of an hour and so on, in nanoseconds.
abbrev pub minute : ℕ
minute = 60_000_000_000

abbrev pub scale_down_cooldown : ℕ
scale_down_cooldown = 5 * minute

-- `now.Sub(last) < scaleDownCooldown`; the difference is negative where `last` is later.
pub should_hold_scale_down : Project → ℕ → Bool
should_hold_scale_down proj now = elim proj.last_request_at [
  | none ↦ false
  | some last ↦ ltb now (last + scale_down_cooldown)
]

module _ (F : Float64) where
  open F use {Float, of_int, add, mul, div, lt, eq, ceil, minutes}

  -- The CPU rows: no valid one, or the total of the valid ones.
  pub should_skip_autoscale : Service → Float → Option Float → Bool
  should_skip_autoscale service rpm cpu =
      eqb_ℤ service.desired_instance_count (pos 0)
      && eq rpm (of_int (pos 0))
      && (elim cpu [ none ↦ true | some _ ↦ false ])

  pub target_from_metrics : Project → Float → Option Float → ℤ
  target_from_metrics proj rpm cpu =
      if leb_ℤ proj.max_instance_count (pos 0)
      then pos 0
      else let http_target = ceil (div rpm (of_int (pos 60))) in
        let cpu_target : ℤ = elim cpu [ none ↦ pos 0 | some c ↦ ceil (div c (of_int (pos 65))) ] in
        let floor = non_zero_floor proj in
        let by_http = if ltb_ℤ floor http_target then http_target else floor in
        let by_cpu = if ltb_ℤ by_http cpu_target then cpu_target else by_http in
        if ltb_ℤ proj.max_instance_count by_cpu then proj.max_instance_count else by_cpu

  pub should_step_down : ℤ → Float → Option Float → Bool
  should_step_down current rpm cpu =
      if leb_ℤ current (pos 1)
      then false
      else lt rpm (mul (of_int (current -ℤ pos 1)) (of_int (pos 25))) && (elim cpu [
        | none ↦ true
        | some c ↦ lt c (mul (of_int (current -ℤ pos 1)) (of_int (pos 35)))
      ])

  pub compute_desired_instance_count : Project → Service → Float → Option Float → ℤ
  compute_desired_instance_count proj service rpm cpu =
      let current = clamp_current_target proj service in
      if leb_ℤ proj.max_instance_count (pos 0)
      then pos 0
      else let floor = non_zero_floor proj in
        let up_target = target_from_metrics proj rpm cpu in
        if ltb_ℤ current up_target
        then up_target
        else if ltb_ℤ current floor
        then floor
        else if ltb_ℤ floor current && should_step_down current rpm cpu
        then (let next = current -ℤ pos 1 in if ltb_ℤ next floor then floor else next)
        else current

  -- The database, as one sweep reads it, with the reconciler. `none` is an error.
  pub record Store : Type 0 where
    -- The projects with their ids.
    pub project_find_all : Option (List (ℕ × Project))
    pub service_list_by_project_id : ℕ → Option (List Service)
    pub deployment_latest_running_by_service_id : ℕ → Option DeploymentId
    -- The `RequestCount` of the rows of a deployment between two times.
    pub http_rows : DeploymentId → ℕ → ℕ → Option (List ℕ)
    -- The `CpuPercent` of the rows of a deployment since a time.
    pub cpu_rows : DeploymentId → ℕ → Option (List (Option Float))
    -- Whether `ServiceSetDesiredInstanceCount` succeeds.
    pub set_desired_succeeds : ℕ → Bool
    -- Whether there is a deployment reconciler.
    pub has_reconciler : Bool

  -- What a sweep has done: the counts that it set, and the deployments that it scheduled, each
  -- newest first.
  pub record Update : Type 0 where
    pub service_id : ℕ
    pub from : ℤ
    pub to : ℤ

  pub record Progress : Type 0 where
    pub updates : List Update
    pub scheduled : List ℕ

  unfoldable pub request_count : List ℕ → ℕ
  request_count [] = 0
  request_count (n ∷ rows) = n + request_count rows

  -- `totalCPU` and `hasCPU`, from the sum so far.
  pub total_cpu : Option Float → List (Option Float) → Option Float
  total_cpu acc [] = acc
  total_cpu acc (none ∷ rows) = total_cpu acc rows
  total_cpu none (some c ∷ rows) = total_cpu (some (add (of_int (pos 0)) c)) rows
  total_cpu (some t) (some c ∷ rows) = total_cpu (some (add t c)) rows

  -- The HTTP window and the average of the fast sweep (`scaleUpOnly`) and of the slow one.
  -- `now` is the number of nanoseconds since the Unix epoch, more than a few minutes of them.
  pub window_minutes : Bool → ℕ
  window_minutes true = 1
  window_minutes false = 3

  pub window_start : Bool → ℕ → ℕ
  window_start fast now = now - now % minute - window_minutes fast * minute

  pub window_end : Bool → ℕ → ℕ
  window_end true now = now - now % minute
  window_end false now = now - now % minute - 1

  pub average : Bool → ℕ → ℕ → Float
  average false now n = div (of_int (pos n)) (of_int (pos (window_minutes false)))
  average true now n =
      let elapsed = minutes (now - window_start true now) in
      let least = div (of_int (pos 1)) (of_int (pos 60)) in
      div (of_int (pos n)) (if lt elapsed least then least else elapsed)

  -- What the sweep does with a service once it has its figures: the new count, if it sets one.
  pub decide_target : Bool → ℕ → Project → Service → Float → Option Float → Option ℤ
  unfolding should_skip_autoscale
  decide_target fast now proj svc rpm cpu =
      let current = clamp_current_target proj svc in
      let next = compute_desired_instance_count proj svc rpm cpu in
      if should_skip_autoscale svc rpm cpu
      then none
      else if fast && leb_ℤ next current
      then none
      else if not fast && ltb_ℤ next current && should_hold_scale_down proj now
      then none
      else if eqb_ℤ next current
      then none
      else some next

  module _ (q : Store) (fast : Bool) (now : ℕ) where
    -- The figures of a deployment; the fast sweep reads no CPU.
    pub figures : DeploymentId → Option (Float × Option Float)
    unfolding average request_count total_cpu window_start window_end
    figures dep =
        Option.bind (q.http_rows dep (window_start fast now) (window_end fast now)) λ rows.
          if fast
          then some (average fast now (request_count rows), none)
          else Option.map (λ cpu. (average fast now (request_count rows), total_cpu none cpu))
              (q.cpu_rows dep (now - 2 * minute))

    pub schedule_deployment_now : DeploymentId → List ℕ → List ℕ
    schedule_deployment_now none scheduled = scheduled
    schedule_deployment_now (some id) scheduled =
        if q.has_reconciler then id ∷ scheduled else scheduled

    pub set_desired : Service → ℤ → ℤ → DeploymentId → Progress → Progress
    unfolding schedule_deployment_now
    set_desired svc current next dep st =
        if q.set_desired_succeeds svc.id
        then record st {
          updates = record { service_id = svc.id; from = current; to = next } ∷ st.updates;
          scheduled = schedule_deployment_now dep st.scheduled;
        }
        else st

    pub sweep_service : Project → Service → Progress → Progress
    unfolding decide_target figures set_desired
    sweep_service proj svc st = elim (q.deployment_latest_running_by_service_id svc.id) [
      | none ↦ st
      | some dep ↦ elim (figures dep) [
        | none ↦ st
        | some (rpm, cpu) ↦ elim (decide_target fast now proj svc rpm cpu) [
          | none ↦ st
          | some next ↦ set_desired svc (clamp_current_target proj svc) next dep st
        ]
      ]
    ]

    pub sweep_services : Project → List Service → Progress → Progress
    sweep_services proj [] st = st
    sweep_services proj (svc ∷ svcs) st = sweep_services proj svcs (sweep_service proj svc st)

    pub sweep_projects : List (ℕ × Project) → Progress → Progress
    unfolding sweep_services
    sweep_projects [] st = st
    sweep_projects ((id, proj) ∷ projs) st = sweep_projects projs (
        if leb_ℤ proj.max_instance_count (pos 0) || proj.scaled_to_zero
        then st
        else (elim (q.service_list_by_project_id id) [
          | none ↦ st
          | some svcs ↦ sweep_services proj svcs st
        ]))

    pub run_autoscale_sweep : Progress
    unfolding sweep_projects
    run_autoscale_sweep =
        let start : Progress = record { updates = []; scheduled = [] } in
        elim q.project_find_all [ none ↦ start | some projs ↦ sweep_projects projs start ]
