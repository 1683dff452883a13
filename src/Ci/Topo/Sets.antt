-- ===== src/Ci/Topo/Sets.antt =====
-- internal/ci/compile.go: the sets and the sorted lists that `topoSortJobs` uses.
use kindling.Base.{
  inr, inl, Bool-cases, ◌↔◌, ℕ, ◌+◌, ◌≤◌, ◌<◌, ◌≡◌, refl, true, false, List, [], ◌∷◌, ◌++◌, arith,
  Text, text_leb, text_eq_iff, All, length, some, if◌then◌else◌,
}
use kindling.Ci.{Graph, has, lookup, delete, insert_sorted, sort_strings}
use kindling.Ci.Topo.{IsOrdered, HasNeeds}

pub has_self : (x : Text) (ys : List Text) → has x (x ∷ ys) ≡ true
unfolding has
has_self x ys = ground (arith, text_eq_iff x x)

pub has-cons : (x y : Text) (ys : List Text) → has x ys ≡ true → has x (y ∷ ys) ≡ true
unfolding has
has-cons x y ys h = ground arith

delete_absent : (x : Text) (ys : List Text) → has x ys ≡ false → delete x ys ≡ ys
unfolding has delete
delete_absent x [] h = refl
delete_absent x (y ∷ ys) h = ground (arith, delete_absent x ys)

pub delete_entered : (x : Text) (ys : List Text) → has x ys ≡ false → delete x (x ∷ ys) ≡ ys
unfolding delete
delete_entered x ys h = ground (arith, text_eq_iff x x, delete_absent x ys h)

All-insert_sorted :
    (P : Text → Type 0) (x : Text) (ys : List Text) → (P x × All P ys) ↔ All P (insert_sorted x ys)
unfolding insert_sorted
All-insert_sorted P x [] = (λ h. h, λ h. h)
All-insert_sorted P x (y ∷ ys) = elim (Bool-cases (text_leb x y)) [
  | inl e ↦ rw e (λ h. h, λ h. h)
  | inr e ↦ rw e (
    λ h. (h.1.0, (All-insert_sorted P x ys).0 (h.0, h.1.1)),
    λ h. let rest = (All-insert_sorted P x ys).1 h.1 in (rest.0, (h.0, rest.1)),
  )
]

pub All-sort_strings : (P : Text → Type 0) (xs : List Text) → All P xs ↔ All P (sort_strings xs)
unfolding sort_strings
All-sort_strings P [] = (λ h. h, λ h. h)
All-sort_strings P (x ∷ xs) = (
  λ h. (All-insert_sorted P x (sort_strings xs)).0 (h.0, (All-sort_strings P xs).0 h.1),
  λ h.
      let rest = (All-insert_sorted P x (sort_strings xs)).1 h in
      (rest.0, (All-sort_strings P xs).1 rest.1),
)

-- Every member has what every member of the list has.
pub All-has : (P : Text → Type 0) (xs : List Text) → ((x : Text) → has x xs ≡ true → P x) → All P xs
unfolding has
All-has P [] h = tt
All-has P (x ∷ xs) h = (h x (has_self x xs), All-has P xs (λ y k. h y (has-cons y x xs k)))

-- How many jobs are not in a set.
abbrev pub count_outside : List Text → Graph → ℕ
count_outside set [] = 0
count_outside set ((j, needs) ∷ jobs) = (if has j set then 0 else 1) + count_outside set jobs

pub count_outside-le : (set : List Text) (jobs : Graph) → count_outside set jobs ≤ length jobs
count_outside-le set [] = omega arith
count_outside-le set (p ∷ jobs) = ground (arith, count_outside-le set jobs)

count_outside_mono :
    (x : Text) (set : List Text) (jobs : Graph)
    → count_outside (x ∷ set) jobs ≤ count_outside set jobs
unfolding has
count_outside_mono x set [] = omega arith
count_outside_mono x set ((j, needs) ∷ jobs) = ground (arith, count_outside_mono x set jobs)

pub count_outside-enter :
    (x : Text) (set : List Text) (jobs : Graph) {needs : List Text}
    → lookup x jobs ≡ some needs
    → has x set ≡ false
    → count_outside (x ∷ set) jobs < count_outside set jobs
unfolding has lookup
count_outside-enter x set [] e h = cc
count_outside-enter x set ((j, others) ∷ jobs) {needs} e h = ground (
  arith,
  text_eq_iff x j,
  text_eq_iff j x,
  count_outside_mono x set jobs,
  count_outside-enter x set jobs {needs = needs},
)

-- The jobs that were seen once the list has been read.
abbrev pub onto : List Text → List Text → List Text
onto [] seen = seen
onto (x ∷ xs) seen = onto xs (x ∷ seen)

-- A job goes behind an ordered list when its needs are there and it is not.
pub IsOrdered-append :
    (jobs : Graph) (xs seen : List Text) (x : Text)
    → IsOrdered jobs seen xs
    → has x (onto xs seen) ≡ false
    → HasNeeds jobs (onto xs seen) x
    → IsOrdered jobs seen (xs ++ x ∷ [])
IsOrdered-append jobs [] seen x o h n = (h, n, tt)
IsOrdered-append jobs (y ∷ ys) seen x o h n =
    (o.0, o.1, IsOrdered-append jobs ys (y ∷ seen) x o.2 h n)

pub onto-append : (xs seen : List Text) (x : Text) → onto (xs ++ x ∷ []) seen ≡ x ∷ onto xs seen
onto-append [] seen x = refl
onto-append (y ∷ ys) seen x = onto-append ys (y ∷ seen) x
