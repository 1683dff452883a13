-- ===== src/Fleet/Retiring.antt =====
-- internal/deploy/deploy_evacuation.go: instances leave a draining server only when enough others are
-- ready.
use kindling.Base.{
  ℕ, ◌≤◌, ◌≡◌, refl, ◌∙◌, ==_refl, ltb, Bool, true, false, not, ◌&&◌, List, [], ◌∷◌, arith,
  Bool-cases, inl, inr, All, ◌⊎◌,
}
use kindling.Fleet.{Instance, is_active_instance}
use kindling.Fleet.Victims.{count_id}
use kindling.Fleet.Evacuation.{
  StatusMap, on_draining, count_if, Probe, is_ready, count_ready_off_draining_servers, Cleaned,
  clean_row, to_remove, delete_instances, remove_instances_on_draining_servers,
}
use kindling.Fleet.Tally.{at_id, count_if-disjoint}

abbrev deletion : Bool → Cleaned
deletion gone = record { gone = gone; pooled = false }

-- A deletion leaves a test's count where no row of the id satisfies it.
count_if-delete :
    (p : Instance → Bool) (gone : Bool) (id : ℕ) (xs : List Instance)
    → count_if (at_id p id) xs ≡ 0
    → count_if p (clean_row (deletion gone) id xs) ≡ count_if p xs
unfolding clean_row
count_if-delete p gone id [] h = refl
count_if-delete p true id (x ∷ xs) h = let e = count_if-delete p true id xs in ground arith
count_if-delete p false id (x ∷ xs) h = let e = count_if-delete p false id xs in ground arith

-- No deletion adds to a count.
count_if-delete_le :
    (p : Instance → Bool) (gone : Bool) (id : ℕ) (xs : List Instance)
    → count_if p (clean_row (deletion gone) id xs) ≤ count_if p xs
unfolding clean_row
count_if-delete_le p gone id [] = omega arith
count_if-delete_le p true id (x ∷ xs) = let e = count_if-delete_le p true id xs in ground arith
count_if-delete_le p false id (x ∷ xs) = let e = count_if-delete_le p false id xs in ground arith

-- None of the instances to delete has the id of a row that satisfies the test.
abbrev IsApart : (Instance → Bool) → List Instance → Instance → Type 0
IsApart p xs v = count_if (at_id p v.id) xs ≡ 0

All-IsApart :
    (p : Instance → Bool) (gone : Bool) (id : ℕ) (xs vs : List Instance)
    → All (IsApart p xs) vs
    → All (IsApart p (clean_row (deletion gone) id xs)) vs
All-IsApart p gone id xs [] h = tt
All-IsApart p gone id xs (v ∷ vs) (d, h) =
    let le = count_if-delete_le (at_id p v.id) gone id xs in
    (omega arith, All-IsApart p gone id xs vs h)

count_if-delete_instances :
    (p : Instance → Bool) (deletes : ℕ → Bool) (vs xs : List Instance)
    → All (IsApart p xs) vs
    → count_if p (delete_instances deletes vs xs) ≡ count_if p xs
unfolding delete_instances
count_if-delete_instances p deletes [] xs h = refl
count_if-delete_instances p deletes (v ∷ vs) xs (d, h) =
    count_if-delete_instances p deletes vs (clean_row (deletion (deletes v.id)) v.id xs)
      (All-IsApart p (deletes v.id) v.id xs vs h)
    ∙ count_if-delete p (deletes v.id) v.id xs d

module _ (probe : Probe) (map : StatusMap) where
  abbrev leaves : Instance → Bool
  leaves x = is_active_instance x && on_draining map x

  abbrev serves : Instance → Bool
  serves x = is_ready probe x && not (on_draining map x)

  apart : (x : Instance) → leaves x && serves x ≡ false
  apart x = elim (Bool-cases (on_draining map x)) [
    | inl d ↦ simp d (ground arith)
    | inr d ↦ simp d (ground arith)
  ]

  -- Each that is to be removed has its id for itself.
  to_remove-IsApart :
      (xs ys : List Instance)
      → ((id : ℕ) → count_id id xs ≤ 1)
      → ((id : ℕ) → count_if (at_id leaves id) ys ≤ count_if (at_id leaves id) xs)
      → All (IsApart serves xs) (to_remove map ys)
  unfolding to_remove
  to_remove-IsApart xs [] once h = tt
  to_remove-IsApart xs (y ∷ ys) once h = elim (Bool-cases (leaves y)) [
    | inr e ↦ simp e (to_remove-IsApart xs ys once (λ id. (let q = h id in ground arith)))
    | inl e ↦
        let there : 1 ≤ count_if (at_id leaves y.id) (y ∷ ys) =
          simp (e, ==_refl y.id) (omega arith) in
        let q = h y.id in
        let o = once y.id in
        let d = count_if-disjoint leaves serves y.id xs apart in
        simp e (omega arith, to_remove-IsApart xs ys once (λ id. (let q' = h id in ground arith)))
  ]

  -- Where each id stands once, the instances that are ready on other servers all stay, and the rows
  -- change only if these are as many as desired.
  pub remove_instances_lem :
      (deletes : ℕ → Bool) (xs : List Instance) (desired : ℕ)
      → ((id : ℕ) → count_id id xs ≤ 1)
      → (let ys = remove_instances_on_draining_servers probe deletes map xs desired in
          (count_ready_off_draining_servers probe map ys
            ≡ count_ready_off_draining_servers probe map xs)
          × ((ys ≡ xs) ⊎ (desired ≤ count_ready_off_draining_servers probe map ys)))
  unfolding remove_instances_on_draining_servers count_ready_off_draining_servers
  remove_instances_lem deletes xs desired once =
      let n = count_if serves xs in
      elim (Bool-cases (ltb n desired)) [
        | inl h ↦ simp h (refl, inl refl)
        | inr h ↦
            let e =
              count_if-delete_instances serves deletes (to_remove map xs) xs
                (to_remove-IsApart xs xs once (λ id. omega arith)) in
            simp h (e, inr (ground arith))
      ]
