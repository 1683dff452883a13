-- ===== src/Fleet/Counts.antt =====
-- internal/deploy/deploy_scaling.go: instances are promoted and created until there are enough.
use kindling.Base.{
  ap, ◌∙◌, ℕ, zero, suc, ◌+◌, ◌-◌, ◌≡◌, ◌≤◌, ◌<◌, refl, true, false, ==_refl, Option, none, some,
  List, [], ◌∷◌, ◌++◌, length, All, arith, Bool-cases, inl, inr, ltb,
}
use Prim.Native.Nat.{min, max}
use kindling.Fleet.{
  active, Instance, is_active_instance, is_warm_pool_instance, active_instance_count,
  count_provisionable_instances, take_warm, warm_pool_promotion_candidates, has_id, promote,
  activate_warm_pool_instances, grow, ensure_instance_count_up, warm_pool_of,
}

length-take_warm :
    (deficit : ℕ) (insts : List Instance)
    → length (take_warm deficit insts) ≡ min deficit (length (warm_pool_of insts))
unfolding take_warm warm_pool_of
length-take_warm zero [] = omega arith
length-take_warm (suc d) [] = omega arith
length-take_warm zero (inst ∷ insts) = omega arith
length-take_warm (suc d) (inst ∷ insts) =
    ground (arith, length-take_warm d insts, length-take_warm (suc d) insts)

-- Every candidate is among the chosen.
abbrev Covers : List ℕ → List ℕ → Type 0
Covers chosen xs = All (λ x. has_id x chosen ≡ true) xs

active-promote :
    (chosen : List ℕ) (insts : List Instance)
    → active_instance_count insts ≤ active_instance_count (promote chosen insts)
unfolding promote active_instance_count is_active_instance
active-promote chosen [] = omega arith
active-promote chosen (inst ∷ insts) = ground (arith, active-promote chosen insts)

-- A warm instance is not active.
warm_differs :
    (inst : Instance) → is_warm_pool_instance inst ≡ true → is_active_instance inst ≡ false
unfolding is_active_instance is_warm_pool_instance
warm_differs inst h = ground arith

promote-take_warm :
    (chosen : List ℕ) (deficit : ℕ) (insts : List Instance)
    → Covers chosen (take_warm deficit insts)
    → active_instance_count insts + length (take_warm deficit insts)
      ≤ active_instance_count (promote chosen insts)
unfolding take_warm promote active_instance_count is_active_instance
promote-take_warm chosen d [] c = omega arith
promote-take_warm chosen zero (inst ∷ insts) c = ground (arith, active-promote chosen insts)
promote-take_warm chosen (suc d) (inst ∷ insts) c = elim (Bool-cases (is_warm_pool_instance inst)) [
  | inl warm ↦
      let (own, rest) : Covers chosen (inst.id ∷ take_warm d insts) = simp (warm, take_warm) at c in
      simp (warm, take_warm)
        (ground (arith, own, warm_differs inst warm, promote-take_warm chosen d insts rest))
  | inr other ↦
      let rest : Covers chosen (take_warm (suc d) insts) = simp (other, take_warm) at c in
      simp (other, take_warm) (ground (arith, promote-take_warm chosen (suc d) insts rest))
]

All-has_id :
    (chosen xs : List ℕ)
    → ((x : ℕ) → has_id x xs ≡ true → has_id x chosen ≡ true)
    → Covers chosen xs
unfolding has_id
All-has_id chosen [] f = tt
All-has_id chosen (x ∷ xs) f =
    (f x (ground (arith, ==_refl x)), All-has_id chosen xs λ y h. f y (ground arith))

provisionable-promote :
    (chosen : List ℕ) (insts : List Instance)
    → count_provisionable_instances insts ≤ count_provisionable_instances (promote chosen insts)
unfolding count_provisionable_instances promote is_active_instance is_warm_pool_instance
provisionable-promote chosen [] = omega arith
provisionable-promote chosen (inst ∷ insts) = ground (arith, provisionable-promote chosen insts)

-- Promoting warm instances: as many candidates are chosen as are missing and as there are, and
-- afterwards at least as many instances are active as desired, or all that were active or warm; no
-- instance is lost.
activate_lem :
    (insts : List Instance) (desired : ℕ)
    → let missing = desired - active_instance_count insts in
      let warm = length (warm_pool_of insts) in
      let after = activate_warm_pool_instances insts desired in
      (length (warm_pool_promotion_candidates insts desired) ≡ min missing warm)
      × (active_instance_count insts + min missing warm ≤ active_instance_count after)
      × (count_provisionable_instances insts ≤ count_provisionable_instances after)
unfolding activate_warm_pool_instances warm_pool_promotion_candidates
activate_lem insts desired =
    let missing = desired - active_instance_count insts in
    let chosen = take_warm missing insts in
    let l = length-take_warm missing insts in
    let p = promote-take_warm chosen missing insts (All-has_id chosen chosen λ x h. h) in
    (l, omega arith, provisionable-promote chosen insts)

count_provisionable-append :
    (xs ys : List Instance)
    → count_provisionable_instances (xs ++ ys)
      ≡ count_provisionable_instances xs + count_provisionable_instances ys
unfolding count_provisionable_instances
count_provisionable-append [] ys = omega arith
count_provisionable-append (x ∷ xs) ys = omega (arith, count_provisionable-append xs ys)

-- What growing leaves: the old rows with new ones behind.
abbrev pub Grown : List Instance → ℕ → Option (List Instance) → Type 0
Grown rows desired none = ⊥
Grown rows desired (some out) =
    (count_provisionable_instances out ≡ max desired (count_provisionable_instances rows))
    × (added : List Instance) × (out ≡ rows ++ added)

count_provisionable_new :
    (new : ℕ → Instance)
    → ((n : ℕ) → (new n).role ≡ active)
    → (n : ℕ) → count_provisionable_instances (new n ∷ []) ≡ 1
unfolding count_provisionable_instances is_active_instance
count_provisionable_new new h n = ground (arith, h n)

append_assoc : (xs ys zs : List Instance) → (xs ++ ys) ++ zs ≡ xs ++ (ys ++ zs)
append_assoc [] ys zs = refl
append_assoc (x ∷ xs) ys zs = ap (λ l. x ∷ l) (append_assoc xs ys zs)

append-nil : (xs : List Instance) → xs ≡ xs ++ []
append-nil [] = refl
append-nil (x ∷ xs) = ap (λ l. x ∷ l) (append-nil xs)

Grown-step :
    (rows : List Instance) (inst : Instance) (desired : ℕ) (r : Option (List Instance))
    → count_provisionable_instances (inst ∷ []) ≡ 1
    → count_provisionable_instances rows < desired
    → Grown (rows ++ inst ∷ []) desired r
    → Grown rows desired r
Grown-step rows inst desired none own h g = elim g [ ]
Grown-step rows inst desired (some out) own h (n, added, e) = (
  omega (arith, count_provisionable-append rows (inst ∷ [])),
  inst ∷ added,
  e ∙ append_assoc rows (inst ∷ []) added,
)

module _ (new : ℕ → Instance) (fresh : (n : ℕ) → (new n).role ≡ active) (desired : ℕ) where
  grow-Grown :
      (fuel : ℕ) (rows : List Instance)
      → desired - count_provisionable_instances rows < fuel
      → Grown rows desired (grow fuel new rows desired)
  unfolding grow
  grow-Grown zero rows h = absurd (omega arith)
  grow-Grown (suc fuel) rows h =
      elim (Bool-cases (ltb (count_provisionable_instances rows) desired)) [
        | inl less ↦
            let own = count_provisionable_new new fresh (length rows) in
            let few : count_provisionable_instances rows < desired = ground arith in
            simp (less, grow)
              (Grown-step rows (new (length rows)) desired _ own few (
                grow-Grown fuel (rows ++ new (length rows) ∷ [])
                  (omega (arith, count_provisionable-append rows (new (length rows) ∷ [])))))
        | inr enough ↦ simp (enough, grow) (ground arith, [], append-nil rows)
      ]

  -- As long as new rows are active, the loop of `ensureInstanceCountUp` ends: it leaves the old rows
  -- as they are and adds new ones behind until as many count as desired, none if enough did before.
  pub ensure_instance_count_up-Grown :
      (rows : List Instance) → Grown rows desired (ensure_instance_count_up new rows desired)
  unfolding ensure_instance_count_up
  ensure_instance_count_up-Grown rows = grow-Grown (suc desired) rows (omega arith)
