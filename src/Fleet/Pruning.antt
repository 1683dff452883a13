-- ===== src/Fleet/Pruning.antt =====
-- internal/deploy/deploy_scaling.go and internal/deploy/lifecycle.go: the warm pool.
use kindling.Base.{
  ℕ, zero, suc, ◌-◌, ◌≡◌, ◌≤◌, refl, Bool, true, false, ◌&&◌, ◌⊎◌, inl, inr, ◌↔◌, none, some, List,
  [], ◌∷◌, length, All, Text, arith, Bool-cases, leb,
}
use kindling.Fleet.{
  Instance, warm_pool, template, LaunchMode, is_warm_pool_instance, insert_newest, sort_newest,
  warm_pool_of, drop, prune_warm_pool_instances, select_launch_mode,
}
use kindling.Fleet.Victims.{IsSorted, All-insert_newest, sort_newest-IsSorted}

pub keep_first : ℕ → List Instance → List Instance
keep_first n [] = []
keep_first zero (inst ∷ insts) = []
keep_first (suc n) (inst ∷ insts) = inst ∷ keep_first n insts

length-insert_newest :
    (x : Instance) (xs : List Instance) → length (insert_newest x xs) ≡ suc (length xs)
unfolding insert_newest
length-insert_newest x [] = omega arith
length-insert_newest x (y ∷ ys) = ground (arith, length-insert_newest x ys)

length-sort_newest : (xs : List Instance) → length (sort_newest xs) ≡ length xs
unfolding sort_newest
length-sort_newest [] = omega arith
length-sort_newest (x ∷ xs) =
    omega (arith, length-insert_newest x (sort_newest xs), length-sort_newest xs)

length-drop : (n : ℕ) (xs : List Instance) → length (drop n xs) ≡ length xs - n
unfolding drop
length-drop n [] = omega arith
length-drop zero (x ∷ xs) = omega arith
length-drop (suc n) (x ∷ xs) = omega (arith, length-drop n xs)

All-drop : (P : Instance → Type 0) (n : ℕ) (xs : List Instance) → All P xs → All P (drop n xs)
unfolding drop
All-drop P n [] a = tt
All-drop P zero (x ∷ xs) a = a
All-drop P (suc n) (x ∷ xs) a = All-drop P n xs a.1

All-sort_newest : (P : Instance → Type 0) (xs : List Instance) → All P xs → All P (sort_newest xs)
unfolding sort_newest
All-sort_newest P [] a = tt
All-sort_newest P (x ∷ xs) a = All-insert_newest P x (sort_newest xs) a.0 (All-sort_newest P xs a.1)

abbrev IsWarm : Instance → Type 0
IsWarm inst = is_warm_pool_instance inst ≡ true

warm_pool_of-IsWarm : (xs : List Instance) → All IsWarm (warm_pool_of xs)
unfolding warm_pool_of
warm_pool_of-IsWarm [] = tt
warm_pool_of-IsWarm (x ∷ xs) = elim (Bool-cases (is_warm_pool_instance x)) [
  | inl h ↦ simp (h, warm_pool_of) (refl, warm_pool_of-IsWarm xs)
  | inr h ↦ simp (h, warm_pool_of) (warm_pool_of-IsWarm xs)
]

-- A kept instance is no older than any that is deleted.
abbrev pub IsNewer : List Instance → Instance → Type 0
IsNewer gone y = All (λ x. x.created_at ≤ y.created_at) gone

keep_first-drop :
    (n : ℕ) (xs : List Instance) → IsSorted xs → All (IsNewer (drop n xs)) (keep_first n xs)
unfolding keep_first drop
keep_first-drop n [] s = tt
keep_first-drop zero (x ∷ xs) s = tt
keep_first-drop (suc n) (x ∷ xs) s = (All-drop _ n xs s.0, keep_first-drop n xs s.1)

-- Pruning deletes as many instances as the warm pool has beyond those to keep, warm ones alone, and
-- none that is newer than one of those that it keeps.
prune_lem :
    (insts : List Instance) (keep : ℕ)
    → let gone = prune_warm_pool_instances insts keep in
      (length gone ≡ length (warm_pool_of insts) - keep)
      × All (λ x. is_warm_pool_instance x ≡ true) gone
      × All (IsNewer gone) (keep_first keep (sort_newest (warm_pool_of insts)))
unfolding prune_warm_pool_instances
prune_lem insts keep =
    let pool = sort_newest (warm_pool_of insts) in
    elim (Bool-cases (leb (length (warm_pool_of insts)) keep)) [
      | inl h ↦
          simp (h, prune_warm_pool_instances) (ground arith, tt, all_newer (keep_first keep pool))
      | inr h ↦
          simp (h, prune_warm_pool_instances)
            (
              omega (arith, length-drop keep pool, length-sort_newest (warm_pool_of insts)),
              All-drop IsWarm keep pool
                  (All-sort_newest IsWarm (warm_pool_of insts) (warm_pool_of-IsWarm insts)),
              keep_first-drop keep pool (sort_newest-IsSorted (warm_pool_of insts)),
            )
    ]
  where
    all_newer : (xs : List Instance) → All (IsNewer []) xs
    all_newer [] = tt
    all_newer (x ∷ xs) = (tt, all_newer xs)

-- No launch mode is chosen exactly for a template, and for a warm instance whose machine is not
-- suspended; an instance with a suspended machine that is not a template is resumed.
select_launch_mode_lem :
    (inst : Instance) (suspended : Bool) (ref : Text)
    → ((select_launch_mode inst suspended ref ≡ none)
        ↔ ((inst.role ≡ template) ⊎ ((inst.role ≡ warm_pool) × (inst.has_vm && suspended ≡ false))))
      × (inst.has_vm && suspended ≡ true
          → (select_launch_mode inst suspended ref ≡ some LaunchMode.resume)
            ⊎ (inst.role ≡ template))
unfolding select_launch_mode
select_launch_mode_lem inst suspended ref = ground arith
