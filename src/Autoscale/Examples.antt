-- ===== src/Autoscale/Examples.antt =====
-- internal/autoscale/autoscale.go: whole numbers stand for floats, and a sweep over one project.
use kindling.Base.{
  ℕ, true, false, ◌≡◌, refl, none, some, [], ◌∷◌, arith, pos, ltb, ◌==◌, ◌+◌, ◌*◌, ◌/◌, pos_part,
  ◌-ℤ◌,
}
use kindling.Scaling.{Project, Service}
use kindling.Autoscale.{
  Float64, Store, minute, clamp_current_target, target_from_metrics, should_step_down,
  non_zero_floor, compute_desired_instance_count, run_autoscale_sweep,
}
use kindling.Autoscale.Sweep.{IsGood, run_sweep-IsGood}

-- Thousandths; the ceiling rounds up to whole units.
abbrev milli : Float64
milli = record {
  Float = ℕ;
  of_int = λ n. pos_part n * 1000;
  add = λ a b. a + b;
  mul = λ a b. a * b / 1000;
  div = λ a b. a * 1000 / b;
  lt = ltb;
  eq = λ a b. a == b;
  ceil = λ a. pos ((a + 999) / 1000);
  minutes = λ n. n * 1000 / minute;
}

abbrev shop : Project
shop = record {
  desired_instance_count = pos 1;
  min_instance_count = pos 0;
  max_instance_count = pos 4;
  scaled_to_zero = false;
  last_request_at = none;
}

abbrev web : Service
web = record { id = 9; desired_instance_count = pos 3 }

-- 150 requests a minute want three instances, 300 want five, and the project allows four.
target_at_300 : target_from_metrics milli shop 300000 none ≡ pos 4
unfolding target_from_metrics non_zero_floor
target_at_300 = refl

target_steps_down : compute_desired_instance_count milli shop web 10000 none ≡ pos 2
unfolding compute_desired_instance_count target_from_metrics non_zero_floor clamp_current_target
    should_step_down ◌-ℤ◌
target_steps_down = refl

abbrev one_shop : Store milli
one_shop = record {
  project_find_all = some ((1, shop) ∷ []);
  service_list_by_project_id = λ _. some (web ∷ []);
  deployment_latest_running_by_service_id = λ _. some (some 77);
  http_rows = λ _ _ _. some (500 ∷ 400 ∷ []);
  cpu_rows = λ _ _. some (none ∷ []);
  set_desired_succeeds = λ _. true;
  has_reconciler = true;
}

run_sweep-IsGood_example :
    IsGood milli one_shop false 0 (pos 4) (run_autoscale_sweep milli one_shop false (10 * minute))
run_sweep-IsGood_example = run_sweep-IsGood milli one_shop false (10 * minute) (pos 4) (omega arith)
