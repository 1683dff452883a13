-- ===== src/Fleet/Examples.antt =====
-- internal/deploy/deploy_scaling.go: a deployment with three instances.
use kindling.Base.{
  ◌==◌, suc, arith, ◌⊎◌, false, ◌||◌, some, ℕ, ◌≡◌, ◌≤◌, ◌+◌, refl, true, List, [], ◌∷◌,
}
use Prim.Native.Nat.{min}
use kindling.Fleet.Surge.{status_of, scale_down_excess_lem}
use kindling.Fleet.Retiring.{remove_instances_lem}
use kindling.Fleet.Evacuation.{
  StatusMap, Machine, CleanupAnswers, Rounds, Probe, cleanup_instance, scale_down_excess,
  server_status_by_ids, done, count_instances_on_draining_servers, count_ready_off_draining_servers,
  remove_instances_on_draining_servers, to_remove, delete_instances, clean_row,
}
use kindling.Fleet.{
  Instance, Role, active, warm_pool, active_instance_count, warm_pool_promotion_candidates,
  ensure_instance_count_up, scale_down_instances, sort_newest, is_warm_pool_instance,
  is_active_instance, insert_newest, pick, take_warm,
}
use kindling.Fleet.Counts.{Grown, ensure_instance_count_up-Grown}
use kindling.Fleet.Victims.{count_id, IsScaled, left_over, scale_down_instances-IsScaled}

abbrev row : ℕ → Role → ℕ → Instance
row id role at = record {
  id = id;
  role = role;
  created_at = at;
  has_vm = true;
  server_id = some 1;
  running = true;
}

abbrev rows : List Instance
rows = row 1 active 10 ∷ row 2 active 30 ∷ row 3 warm_pool 40 ∷ row 4 active 20 ∷ []

scaled : scale_down_instances rows 1 ≡ row 2 active 30 ∷ row 4 active 20 ∷ []
unfolding scale_down_instances active_instance_count is_active_instance sort_newest insert_newest
    pick
scaled = refl

promoted : warm_pool_promotion_candidates rows 5 ≡ 3 ∷ []
unfolding warm_pool_promotion_candidates take_warm active_instance_count is_active_instance
    is_warm_pool_instance
promoted = refl

scale_down_instances-IsScaled_example :
    IsScaled rows 1 (row 2 active 30 ∷ row 4 active 20 ∷ []) (left_over rows 1)
unfolding scale_down_instances active_instance_count is_active_instance sort_newest insert_newest
    pick
scale_down_instances-IsScaled_example = scale_down_instances-IsScaled rows 1

ensure_instance_count_up-Grown_example :
    Grown rows 6 (ensure_instance_count_up (λ n. row (n + 100) active 50) rows 6)
ensure_instance_count_up-Grown_example =
    ensure_instance_count_up-Grown (λ n. row (n + 100) active 50) (λ n. refl) 6 rows

-- Server 1 drains.
abbrev drains : StatusMap
drains s = s == 1

abbrev on_server : ℕ → ℕ → ℕ → Instance
on_server server id at = record (row id active at) { server_id = some server }

abbrev surged : List Instance
surged = on_server 1 1 10 ∷ on_server 2 2 30 ∷ on_server 2 4 20 ∷ []

abbrev vm_runs : Machine
vm_runs = record { deleted = false; running = true }

-- Each clean-up suspends the machine.
abbrev suspending : CleanupAnswers
suspending = record {
  supports_suspend = true;
  self = 2;
  machine = some vm_runs;
  sets_role = true;
  sets_status = true;
  sets_suspending = true;
  suspends = true;
  sets_suspended = true;
  deletes = true;
}

abbrev rounds : Rounds
rounds = record {
  find_server = λ k s. some (status_of drains s);
  cleanup = λ k v. suspending;
  lists = λ k. true;
}

suspending_cleans :
    (k : ℕ) (v : Instance)
    → (cleanup_instance (rounds.cleanup k v) v).gone
        || (cleanup_instance (rounds.cleanup k v) v).pooled
      ≡ true
unfolding cleanup_instance
suspending_cleans k v = ground arith

surged_once : (id : ℕ) → count_id id surged ≤ 1
unfolding count_id
surged_once id = ground arith

scale_down_excess_lem_example :
    (ys : List Instance) × (scale_down_excess
        (suc (active_instance_count surged))
        rounds
        0
        (server_status_by_ids (rounds.find_server 0) surged)
        surged
        2
      ≡ done ys)
    × (active_instance_count ys ≡ min (active_instance_count surged) 2)
    × (count_instances_on_draining_servers drains ys
        ≡ count_instances_on_draining_servers drains surged)
unfolding count_instances_on_draining_servers is_active_instance
scale_down_excess_lem_example =
    scale_down_excess_lem rounds drains 2 (λ k s. refl) suspending_cleans (λ k. refl) surged
      surged_once (omega arith)

abbrev probe : Probe
probe = record { machine = λ id. some vm_runs; external = false; healthy = λ id. true }

removed_test :
    remove_instances_on_draining_servers probe (λ id. true) drains surged 2
    ≡ on_server 2 2 30 ∷ on_server 2 4 20 ∷ []
unfolding remove_instances_on_draining_servers count_ready_off_draining_servers to_remove
    delete_instances clean_row is_active_instance
removed_test = refl

remove_instances_lem_example :
    (let ys = remove_instances_on_draining_servers probe (λ id. true) drains surged 2 in
      (count_ready_off_draining_servers probe drains ys
        ≡ count_ready_off_draining_servers probe drains surged)
      × ((ys ≡ surged) ⊎ (2 ≤ count_ready_off_draining_servers probe drains ys)))
remove_instances_lem_example = remove_instances_lem probe drains (λ id. true) surged 2 surged_once
