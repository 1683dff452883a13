-- ===== src/Fleet/Tally.antt =====
-- Counting instances: how many satisfy a test, before and after sorting and cleaning up.
use kindling.Base.{
  subst, ℕ, ◌+◌, ◌≤◌, ◌<◌, ◌≡◌, refl, sym, ◌==◌, ==_refl, Bool, true, false, not, ◌&&◌, ◌||◌, none,
  some, some-inj, none≢some, List, [], ◌∷◌, arith, Bool-cases, inl, inr,
}
use kindling.Fleet.{Instance, is_active_instance, active_instance_count, insert_newest, sort_newest}
use kindling.Fleet.Victims.{count_id}
use kindling.Fleet.Evacuation.{count_if, Cleaned, clean_row, StatusMap, on_draining, first_free}

-- The test together with an id.
abbrev pub at_id : (Instance → Bool) → ℕ → Instance → Bool
at_id p id inst = p inst && inst.id == id

abbrev pub is_free : StatusMap → Instance → Bool
is_free map inst = is_active_instance inst && not (on_draining map inst)

count_if-insert_newest :
    (p : Instance → Bool) (x : Instance) (xs : List Instance)
    → count_if p (insert_newest x xs) ≡ count_if p (x ∷ xs)
unfolding insert_newest
count_if-insert_newest p x [] = refl
count_if-insert_newest p x (y ∷ ys) = let e = count_if-insert_newest p x ys in ground arith

pub count_if-sort_newest :
    (p : Instance → Bool) (xs : List Instance) → count_if p (sort_newest xs) ≡ count_if p xs
unfolding sort_newest
count_if-sort_newest p [] = refl
count_if-sort_newest p (x ∷ xs) =
    let e = count_if-insert_newest p x (sort_newest xs) in
    let f = count_if-sort_newest p xs in ground arith

pub count_if-active :
    (xs : List Instance) → count_if is_active_instance xs ≡ active_instance_count xs
unfolding active_instance_count
count_if-active [] = refl
count_if-active (x ∷ xs) = let e = count_if-active xs in ground arith

-- What two disjoint tests count together with an id is at most the number of rows with it.
pub count_if-disjoint :
    (p q : Instance → Bool) (id : ℕ) (xs : List Instance)
    → ((x : Instance) → p x && q x ≡ false)
    → count_if (at_id p id) xs + count_if (at_id q id) xs ≤ count_id id xs
unfolding count_id
count_if-disjoint p q id [] h = omega arith
count_if-disjoint p q id (x ∷ xs) h =
    let e = count_if-disjoint p q id xs h in let d = h x in ground arith

-- Each active instance is free or on a draining server.
pub count_if-split :
    (map : StatusMap) (xs : List Instance)
    → count_if (is_free map) xs + count_if (λ x. (is_active_instance x && on_draining map x)) xs
      ≡ count_if is_active_instance xs
count_if-split map [] = refl
count_if-split map (x ∷ xs) =
    let e = count_if-split map xs in
    elim (Bool-cases (is_active_instance x)) [
      | inl a ↦ elim (Bool-cases (on_draining map x)) [
        | inl d ↦ simp (a, d) (omega arith)
        | inr d ↦ simp (a, d) (omega arith)
      ]
      | inr a ↦ simp a (omega arith)
    ]

pub first_free-none :
    (map : StatusMap) (xs : List Instance)
    → first_free map xs ≡ none
    → count_if (is_free map) xs ≡ 0
unfolding first_free
first_free-none map [] h = refl
first_free-none map (x ∷ xs) h = elim (Bool-cases (is_free map x)) [
  | inl e ↦ absurd (none≢some (sym (simp e at h)))
  | inr e ↦ simp e (first_free-none map xs (simp e at h))
]

pub first_free-some :
    (map : StatusMap) (xs : List Instance) (v : Instance)
    → first_free map xs ≡ some v
    → (is_free map v ≡ true) × (0 < count_if (at_id (is_free map) v.id) xs)
unfolding first_free
first_free-some map [] v h = absurd (none≢some h)
first_free-some map (x ∷ xs) v h = elim (Bool-cases (is_free map x)) [
  | inl e ↦
      let same = some-inj (simp e at h) in
      (
        subst (λ y. is_free map y ≡ true) same e,
        subst (λ y. 0 < count_if (at_id (is_free map) y.id) (x ∷ xs)) same
            (simp (e, ==_refl x.id) (omega arith)),
      )
  | inr e ↦ let (f, n) = first_free-some map xs v (simp e at h) in (f, simp e n)
]

-- Cleaning up takes the rows of the id out of what a test of active instances counts.
pub count_if-clean_row :
    (c : Cleaned) (id : ℕ) (g : Instance → Bool) (xs : List Instance)
    → c.gone || c.pooled ≡ true
    → count_if (λ x. (is_active_instance x && g x)) (clean_row c id xs)
        + count_if (at_id (λ x. (is_active_instance x && g x)) id) xs
      ≡ count_if (λ x. (is_active_instance x && g x)) xs
unfolding clean_row is_active_instance
count_if-clean_row c id g [] h = refl
count_if-clean_row c id g (x ∷ xs) h = let e = count_if-clean_row c id g xs h in ground arith

pub count_id-clean_row :
    (c : Cleaned) (id a : ℕ) (xs : List Instance) → count_id a (clean_row c id xs) ≤ count_id a xs
unfolding clean_row count_id
count_id-clean_row c id a [] = omega arith
count_id-clean_row c id a (x ∷ xs) = let e = count_id-clean_row c id a xs in ground arith
