-- ===== src/Fleet/Evacuation.antt =====
-- internal/deploy/deploy_evacuation.go and `cleanupInstance` of internal/deploy/deploy_instance.go:
-- moving the instances of a deployment off servers that drain.
--
-- A status map says which servers are draining; the code asks it for active instances only.
use kindling.Base.{
  ℕ, suc, zero, ◌==◌, leb, ltb, Bool, true, false, not, ◌&&◌, ◌||◌, Option, none, some, List, [],
  ◌∷◌, Text, text_eq, codes, if◌then◌else◌,
}
use kindling.Fleet.{Instance, warm_pool, is_active_instance, active_instance_count, sort_newest}

abbrev pub StatusMap : Type 0
StatusMap = ℕ → Bool

-- `serverStatusByIDs` by the statuses that `ServerFindByID` answers; `none` where one of them is missing.
unfoldable pub server_status_by_ids : (ℕ → Option Text) → List Instance → Option StatusMap
server_status_by_ids find [] =
    some (λ s. (elim (find s) [ none ↦ false | some status ↦ text_eq status (codes "draining") ]))
server_status_by_ids find (inst ∷ insts) =
    let rest = server_status_by_ids find insts in
    if not (is_active_instance inst) then rest else (elim inst.server_id [
      | none ↦ rest
      | some s ↦ elim (find s) [ none ↦ none | some status ↦ rest ]
    ])

abbrev pub on_draining : StatusMap → Instance → Bool
on_draining map inst = elim inst.server_id [ none ↦ false | some s ↦ map s ]

abbrev pub count_if : (Instance → Bool) → List Instance → ℕ
count_if p [] = 0
count_if p (inst ∷ insts) = let n = count_if p insts in if p inst then suc n else n

unfoldable pub count_instances_on_draining_servers : StatusMap → List Instance → ℕ
count_instances_on_draining_servers map insts =
    count_if (λ inst. (is_active_instance inst && on_draining map inst)) insts

-- A row of a virtual machine, by the instance.
pub record Machine : Type 0 where
  pub deleted : Bool
  pub running : Bool

pub record Probe : Type 0 where
  pub machine : ℕ → Option Machine
  -- `requiresExternalHealthCheck`, and the check.
  pub external : Bool
  pub healthy : ℕ → Bool

abbrev pub machine_runs : Option Machine → Bool
machine_runs none = false
machine_runs (some vm) = not vm.deleted && vm.running

abbrev pub is_ready : Probe → Instance → Bool
is_ready probe inst =
    is_active_instance inst
    && inst.running
    && inst.has_vm
    && machine_runs (probe.machine inst.id)
    && (not probe.external || probe.healthy inst.id)

unfoldable pub count_ready_off_draining_servers : Probe → StatusMap → List Instance → ℕ
count_ready_off_draining_servers probe map insts =
    count_if (λ inst. (is_ready probe inst && not (on_draining map inst))) insts

-- What the environment answers to a call of `cleanupInstance`.
pub record CleanupAnswers : Type 0 where
  pub supports_suspend : Bool
  -- The server of the deployer.
  pub self : ℕ
  pub machine : Option Machine
  pub sets_role : Bool
  pub sets_status : Bool
  pub sets_suspending : Bool
  pub suspends : Bool
  pub sets_suspended : Bool
  pub deletes : Bool

-- What became of the row: it is gone, or it has the role of the warm pool, or neither.
pub record Cleaned : Type 0 where
  pub gone : Bool
  pub pooled : Bool

abbrev pub is_here : ℕ → Option ℕ → Bool
is_here self none = false
is_here self (some s) = s == self

unfoldable pub cleanup_instance : CleanupAnswers → Instance → Cleaned
cleanup_instance a inst =
    if inst.has_vm && a.supports_suspend && is_here a.self inst.server_id && machine_runs a.machine
    then (if not a.sets_role
        then record { gone = a.deletes; pooled = false }
        else if not a.sets_status || not a.sets_suspending
        then record { gone = a.deletes; pooled = true }
        else if a.suspends && a.sets_suspended
        then record { gone = false; pooled = true }
        else record { gone = a.deletes; pooled = true })
    else record { gone = a.deletes; pooled = false }

unfoldable pub clean_row : Cleaned → ℕ → List Instance → List Instance
clean_row c id [] = []
clean_row c id (inst ∷ insts) =
    let rest = clean_row c id insts in
    if not (inst.id == id)
    then inst ∷ rest
    else if c.gone
    then rest
    else if c.pooled
    then record inst { role = warm_pool } ∷ rest
    else inst ∷ rest

-- The first active instance that is not on a draining server.
unfoldable pub first_free : StatusMap → List Instance → Option Instance
first_free map [] = none
first_free map (inst ∷ insts) =
    if is_active_instance inst && not (on_draining map inst)
    then some inst
    else first_free map insts

abbrev pub head : List Instance → Option Instance
head [] = none
head (inst ∷ insts) = some inst

unfoldable pub find_victim : StatusMap → List Instance → Option Instance
find_victim map sorted = elim (first_free map sorted) [ none ↦ head sorted | some v ↦ some v ]

-- The answers to the rounds of the loop.
pub record Rounds : Type 0 where
  pub find_server : ℕ → ℕ → Option Text
  pub cleanup : ℕ → Instance → CleanupAnswers
  pub lists : ℕ → Bool

pub data Outcome : Type 0 where
  unfinished failed : Outcome
  done : List Instance → Outcome

-- The status map of a round: the given one, or else a new one.
abbrev pub round_map : (ℕ → Option Text) → Option StatusMap → List Instance → Option StatusMap
round_map find (some map) insts = some map
round_map find none insts = server_status_by_ids find insts

-- The loop of `scaleDownExcess`, on fuel.
unfoldable pub scale_down_excess : ℕ → Rounds → ℕ → Option StatusMap → List Instance → ℕ → Outcome
scale_down_excess zero rounds k map insts target = unfinished
scale_down_excess (suc fuel) rounds k map insts target =
    if leb (active_instance_count insts) target
    then done insts
    else (elim (round_map (rounds.find_server k) map insts) [
      | none ↦ failed
      | some m ↦ elim (find_victim m (sort_newest insts)) [
        | none ↦ done insts
        | some victim ↦
            let cleaned = cleanup_instance (rounds.cleanup k victim) victim in
            let rest =
              scale_down_excess fuel rounds (suc k) none (clean_row cleaned victim.id insts)
                target in
            if rounds.lists k then rest else failed
      ]
    ])

-- The active instances on draining servers.
unfoldable pub to_remove : StatusMap → List Instance → List Instance
to_remove map [] = []
to_remove map (inst ∷ insts) =
    let rest = to_remove map insts in
    if is_active_instance inst && on_draining map inst then inst ∷ rest else rest

-- `deleteInstancePermanently` of each, whose errors are ignored.
unfoldable pub delete_instances : (ℕ → Bool) → List Instance → List Instance → List Instance
delete_instances deletes [] insts = insts
delete_instances deletes (v ∷ vs) insts =
    delete_instances deletes vs
      (clean_row (record { gone = deletes v.id; pooled = false }) v.id insts)

-- The rows after `removeInstancesOnDrainingServers`, for a desired count that is not negative.
unfoldable pub remove_instances_on_draining_servers :
    Probe → (ℕ → Bool) → StatusMap → List Instance → ℕ → List Instance
remove_instances_on_draining_servers probe deletes map insts desired =
    if ltb (count_ready_off_draining_servers probe map insts) desired
    then insts
    else delete_instances deletes (to_remove map insts) insts
