-- ===== src/Fleet/Victims.antt =====
-- internal/deploy/deploy_scaling.go: which instances are cleaned up when there are too many.
use kindling.Base.{
  ℕ, zero, suc, ◌+◌, ◌-◌, ◌≡◌, ◌≤◌, refl, true, ◌==◌, List, [], ◌∷◌, length, All, if◌then◌else◌,
  arith, Bool-cases, inl, inr, leb,
}
use Prim.Native.Nat.{min}
use kindling.Fleet.{
  Instance, is_active_instance, active_instance_count, insert_newest, sort_newest, pick,
  scale_down_instances,
}

abbrev pub IsSorted : List Instance → Type 0
IsSorted [] = Unit {0}
IsSorted (x ∷ xs) = All (λ y. y.created_at ≤ x.created_at) xs × IsSorted xs

pub All-insert_newest :
    (P : Instance → Type 0) (x : Instance) (xs : List Instance)
    → P x
    → All P xs
    → All P (insert_newest x xs)
unfolding insert_newest
All-insert_newest P x [] p a = (p, tt)
All-insert_newest P x (y ∷ ys) p a = elim (Bool-cases (leb y.created_at x.created_at)) [
  | inl h ↦ simp (h, insert_newest) (p, a)
  | inr h ↦ simp (h, insert_newest) (a.0, All-insert_newest P x ys p a.1)
]

All-le_trans :
    (b c : ℕ) (xs : List Instance)
    → b ≤ c
    → All (λ y. y.created_at ≤ b) xs
    → All (λ y. y.created_at ≤ c) xs
All-le_trans b c [] h a = tt
All-le_trans b c (x ∷ xs) h a = (omega (arith, a.0), All-le_trans b c xs h a.1)

insert_newest-IsSorted :
    (x : Instance) (xs : List Instance) → IsSorted xs → IsSorted (insert_newest x xs)
unfolding insert_newest
insert_newest-IsSorted x [] s = (tt, tt)
insert_newest-IsSorted x (y ∷ ys) s = elim (Bool-cases (leb y.created_at x.created_at)) [
  | inl h ↦
      simp (h, insert_newest)
        ((ground arith, All-le_trans y.created_at x.created_at ys (ground arith) s.0), s)
  | inr h ↦
      simp (h, insert_newest)
        (All-insert_newest _ x ys (ground arith) s.0, insert_newest-IsSorted x ys s.1)
]

pub sort_newest-IsSorted : (xs : List Instance) → IsSorted (sort_newest xs)
unfolding sort_newest
sort_newest-IsSorted [] = tt
sort_newest-IsSorted (x ∷ xs) = insert_newest-IsSorted x (sort_newest xs) (sort_newest-IsSorted xs)

-- How often an id stands in a list.
unfoldable pub count_id : ℕ → List Instance → ℕ
count_id a [] = 0
count_id a (x ∷ xs) = (if x.id == a then 1 else 0) + count_id a xs

count_id-insert_newest :
    (a : ℕ) (x : Instance) (xs : List Instance)
    → count_id a (insert_newest x xs) ≡ (if x.id == a then 1 else 0) + count_id a xs
unfolding insert_newest count_id
count_id-insert_newest a x [] = omega arith
count_id-insert_newest a x (y ∷ ys) = ground (arith, count_id-insert_newest a x ys)

count_id-sort_newest : (a : ℕ) (xs : List Instance) → count_id a (sort_newest xs) ≡ count_id a xs
unfolding sort_newest count_id
count_id-sort_newest a [] = omega arith
count_id-sort_newest a (x ∷ xs) =
    omega (arith, count_id-insert_newest a x (sort_newest xs), count_id-sort_newest a xs)

active-insert_newest :
    (x : Instance) (xs : List Instance)
    → active_instance_count (insert_newest x xs) ≡ active_instance_count (x ∷ xs)
unfolding insert_newest active_instance_count
active-insert_newest x [] = omega arith
active-insert_newest x (y ∷ ys) = ground (arith, active-insert_newest x ys)

active-sort_newest :
    (xs : List Instance) → active_instance_count (sort_newest xs) ≡ active_instance_count xs
unfolding sort_newest active_instance_count
active-sort_newest [] = omega arith
active-sort_newest (x ∷ xs) =
    omega (arith, active-insert_newest x (sort_newest xs), active-sort_newest xs)

-- What the loop passes over.
pub spare : ℕ → List Instance → List Instance
spare excess [] = []
spare zero (inst ∷ insts) = inst ∷ insts
spare (suc excess) (inst ∷ insts) =
    let spared = spare excess insts in
    let passed = inst ∷ spare (suc excess) insts in
    if is_active_instance inst then spared else passed

-- The instances that stay when a deployment is scaled down.
pub left_over : List Instance → ℕ → List Instance
left_over insts desired =
    if leb (active_instance_count insts) desired
    then sort_newest insts
    else spare (active_instance_count (sort_newest insts) - desired) (sort_newest insts)

length-pick :
    (excess : ℕ) (xs : List Instance)
    → length (pick excess xs) ≡ min excess (active_instance_count xs)
unfolding pick active_instance_count
length-pick excess [] = omega arith
length-pick zero (x ∷ xs) = omega arith
length-pick (suc n) (x ∷ xs) = ground (arith, length-pick n xs, length-pick (suc n) xs)

pick_active :
    (excess : ℕ) (xs : List Instance) → All (λ x. is_active_instance x ≡ true) (pick excess xs)
unfolding pick
pick_active excess [] = tt
pick_active zero (x ∷ xs) = tt
pick_active (suc n) (x ∷ xs) = elim (Bool-cases (is_active_instance x)) [
  | inl h ↦ simp (h, pick) (refl, pick_active n xs)
  | inr h ↦ simp (h, pick) (pick_active (suc n) xs)
]

count_id-split :
    (a excess : ℕ) (xs : List Instance)
    → count_id a (pick excess xs) + count_id a (spare excess xs) ≡ count_id a xs
unfolding pick spare count_id
count_id-split a excess [] = omega arith
count_id-split a zero (x ∷ xs) = omega arith
count_id-split a (suc n) (x ∷ xs) =
    ground (arith, count_id-split a n xs, count_id-split a (suc n) xs)

active-spare :
    (excess : ℕ) (xs : List Instance)
    → active_instance_count (spare excess xs) ≡ active_instance_count xs - excess
unfolding spare active_instance_count
active-spare excess [] = omega arith
active-spare zero (x ∷ xs) = omega arith
active-spare (suc n) (x ∷ xs) = ground (arith, active-spare n xs, active-spare (suc n) xs)

All-spare :
    (P : Instance → Type 0) (excess : ℕ) (xs : List Instance) → All P xs → All P (spare excess xs)
unfolding spare
All-spare P excess [] a = tt
All-spare P zero (x ∷ xs) a = a
All-spare P (suc n) (x ∷ xs) a = elim (Bool-cases (is_active_instance x)) [
  | inl h ↦ simp (h, spare) (All-spare P n xs a.1)
  | inr h ↦ simp (h, spare) (a.0, All-spare P (suc n) xs a.1)
]

-- An instance that stays and is active is no newer than any that goes.
abbrev pub IsOlder : List Instance → Instance → Type 0
IsOlder gone y = is_active_instance y ≡ true → All (λ x. y.created_at ≤ x.created_at) gone

IsOlder-cons :
    (x : Instance) (gone stay : List Instance)
    → All (λ y. y.created_at ≤ x.created_at) stay
    → All (IsOlder gone) stay
    → All (IsOlder (x ∷ gone)) stay
IsOlder-cons x gone [] a o = tt
IsOlder-cons x gone (y ∷ ys) a o = (λ h. (a.0, o.0 h), IsOlder-cons x gone ys a.1 o.1)

IsOlder-nil : (xs : List Instance) → All (IsOlder []) xs
IsOlder-nil [] = tt
IsOlder-nil (x ∷ xs) = (λ h. tt, IsOlder-nil xs)

pick-spare :
    (excess : ℕ) (xs : List Instance)
    → IsSorted xs
    → All (IsOlder (pick excess xs)) (spare excess xs)
unfolding pick spare
pick-spare excess [] s = tt
pick-spare zero (x ∷ xs) s = IsOlder-nil (x ∷ xs)
pick-spare (suc n) (x ∷ xs) s = elim (Bool-cases (is_active_instance x)) [
  | inl h ↦
      simp (h, pick, spare)
        (IsOlder-cons x (pick n xs) (spare n xs) (All-spare _ n xs s.0) (pick-spare n xs s.1))
  | inr h ↦ simp (h, pick, spare) (λ k. cc, pick-spare (suc n) xs s.1)
]

pub record IsScaled (insts : List Instance) (desired : ℕ) (gone stay : List Instance) : Type 0 where
  pub split : (a : ℕ) → count_id a gone + count_id a stay ≡ count_id a insts
  pub all_active : All (λ x. is_active_instance x ≡ true) gone
  pub number : length gone ≡ active_instance_count insts - desired
  pub remaining : active_instance_count stay ≡ min (active_instance_count insts) desired
  pub oldest_stay : All (IsOlder gone) stay

-- Scaling down cleans up as many instances as are active beyond the desired count, active ones alone;
-- each instance goes or stays, as many active ones stay as are desired or, if that is fewer, as there
-- were, and no active one that stays is newer than one that goes.
pub scale_down_instances-IsScaled :
    (insts : List Instance) (desired : ℕ)
    → IsScaled insts desired (scale_down_instances insts desired) (left_over insts desired)
unfolding scale_down_instances left_over
scale_down_instances-IsScaled insts desired =
    let sorted = sort_newest insts in
    let n = active_instance_count sorted - desired in
    elim (Bool-cases (leb (active_instance_count insts) desired)) [
      | inl h ↦
          simp (h, scale_down_instances, left_over)
            (record {
              split = λ a. unfold count_id in omega (arith, count_id-sort_newest a insts);
              all_active = tt;
              number = ground arith;
              remaining = ground (arith, active-sort_newest insts);
              oldest_stay = IsOlder-nil sorted;
            })
      | inr h ↦
          simp (h, scale_down_instances, left_over)
            (record {
              split = λ a. omega (arith, count_id-split a n sorted, count_id-sort_newest a insts);
              all_active = pick_active n sorted;
              number = ground (arith, length-pick n sorted, active-sort_newest insts);
              remaining = ground (arith, active-spare n sorted, active-sort_newest insts);
              oldest_stay = pick-spare n sorted (sort_newest-IsSorted insts);
            })
    ]
