-- ===== src/Fleet.antt =====
-- internal/deploy/deploy_scaling.go and internal/deploy/lifecycle.go: how many instances of a
-- deployment there are.
--
-- The rows of a deployment are those that are not deleted, oldest first, as the database lists them.
-- An instance carries the columns that the functions read. `slices.SortFunc` may put rows of the same
-- time in any order; here they keep theirs.
pub mod Counts
pub mod Victims
pub mod Pruning
pub mod Evacuation
pub mod Tally
pub mod Surge
pub mod Retiring
mod Examples
use kindling.Base.{
  ℕ, suc, zero, ◌+◌, ◌-◌, ◌==◌, ltb, leb, Bool, true, false, not, ◌&&◌, ◌||◌, Option, none, some,
  List, [], ◌∷◌, ◌++◌, length, if◌then◌else◌, is_blank, Text, arith,
}

-- The role `""` of an old row is `unset`.
pub data Role : Type 0 where
  unset active warm_pool template : Role

pub record Instance : Type 0 where
  pub id : ℕ
  pub role : Role
  pub created_at : ℕ
  -- `VmID.Valid`.
  pub has_vm : Bool
  pub server_id : Option ℕ
  -- The status is `running`.
  pub running : Bool

pub is_active_instance : Instance → Bool
is_active_instance inst = elim inst.role [
  | unset ↦ true
  | active ↦ true
  | warm_pool ↦ false
  | template ↦ false
]

pub is_warm_pool_instance : Instance → Bool
is_warm_pool_instance inst = elim inst.role [
  | unset ↦ false
  | active ↦ false
  | warm_pool ↦ true
  | template ↦ false
]

pub data LaunchMode : Type 0 where
  cold resume clone : LaunchMode

-- `none` is the second result `false`.
unfoldable pub select_launch_mode : Instance → Bool → Text → Option LaunchMode
select_launch_mode inst vm_suspended template_ref =
    let waking = inst.has_vm && vm_suspended in
    let fresh : Option LaunchMode = if is_blank template_ref then some cold else some clone in
    elim inst.role [
      | template ↦ none
      | warm_pool ↦ if waking then some resume else none
      | unset ↦ if waking then some resume else fresh
      | active ↦ if waking then some resume else fresh
    ]

pub active_instance_count : List Instance → ℕ
active_instance_count [] = 0
active_instance_count (inst ∷ insts) =
    (if is_active_instance inst then 1 else 0) + active_instance_count insts

pub count_provisionable_instances : List Instance → ℕ
count_provisionable_instances [] = 0
count_provisionable_instances (inst ∷ insts) =
    (if is_active_instance inst || is_warm_pool_instance inst then 1 else 0)
    + count_provisionable_instances insts

-- The loop of `warmPoolPromotionCandidates`, whose deficit is not negative.
pub take_warm : ℕ → List Instance → List ℕ
take_warm deficit [] = []
take_warm zero (inst ∷ insts) = []
take_warm (suc deficit) (inst ∷ insts) =
    let taken = inst.id ∷ take_warm deficit insts in
    let passed = take_warm (suc deficit) insts in
    if is_warm_pool_instance inst then taken else passed

pub warm_pool_promotion_candidates : List Instance → ℕ → List ℕ
warm_pool_promotion_candidates insts desired =
    take_warm (desired - active_instance_count insts) insts

pub has_id : ℕ → List ℕ → Bool
has_id x [] = false
has_id x (y ∷ ys) = x == y || has_id x ys

-- `DeploymentInstanceUpdateRole` of the candidates, when it succeeds.
pub promote : List ℕ → List Instance → List Instance
promote chosen [] = []
promote chosen (inst ∷ insts) =
    let rest = promote chosen insts in
    (if has_id inst.id chosen then record inst { role = active } else inst) ∷ rest

pub activate_warm_pool_instances : List Instance → ℕ → List Instance
activate_warm_pool_instances insts desired =
    promote (warm_pool_promotion_candidates insts desired) insts

-- The loop of `ensureInstanceCountUp` in its transaction, for a desired count that is not negative.
-- `new` gives the rows that the database creates, which are active. `none` is the loop without an end.
pub grow : ℕ → (ℕ → Instance) → List Instance → ℕ → Option (List Instance)
grow zero new rows desired = none
grow (suc fuel) new rows desired =
    let rest = grow fuel new (rows ++ new (length rows) ∷ []) desired in
    if ltb (count_provisionable_instances rows) desired then rest else some rows

-- Each round creates one instance that counts.
pub ensure_instance_count_up : (ℕ → Instance) → List Instance → ℕ → Option (List Instance)
ensure_instance_count_up new rows desired = grow (suc desired) new rows desired

-- Newest first.
pub insert_newest : Instance → List Instance → List Instance
insert_newest inst [] = inst ∷ []
insert_newest inst (next ∷ insts) =
    let later = insert_newest inst insts in
    if leb next.created_at inst.created_at then inst ∷ next ∷ insts else next ∷ later

pub sort_newest : List Instance → List Instance
sort_newest [] = []
sort_newest (inst ∷ insts) = insert_newest inst (sort_newest insts)

-- The loop of `scaleDownInstances`: the instances that it cleans up.
pub pick : ℕ → List Instance → List Instance
pick excess [] = []
pick zero (inst ∷ insts) = []
pick (suc excess) (inst ∷ insts) =
    let picked = inst ∷ pick excess insts in
    let passed = pick (suc excess) insts in if is_active_instance inst then picked else passed

pub scale_down_instances : List Instance → ℕ → List Instance
scale_down_instances insts desired =
    if leb (active_instance_count insts) desired
    then []
    else pick (active_instance_count (sort_newest insts) - desired) (sort_newest insts)

pub warm_pool_of : List Instance → List Instance
warm_pool_of [] = []
warm_pool_of (inst ∷ insts) =
    let rest = warm_pool_of insts in if is_warm_pool_instance inst then inst ∷ rest else rest

pub drop : ℕ → List Instance → List Instance
drop n [] = []
drop zero (inst ∷ insts) = inst ∷ insts
drop (suc n) (inst ∷ insts) = drop n insts

-- `pruneWarmPoolInstances`: the instances that it deletes.
pub prune_warm_pool_instances : List Instance → ℕ → List Instance
prune_warm_pool_instances insts keep =
    if leb (length (warm_pool_of insts)) keep
    then []
    else drop keep (sort_newest (warm_pool_of insts))
