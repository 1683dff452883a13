-- ===== src/Ci/Topo/Order.antt =====
-- internal/ci/compile.go, `topoSortJobs`: its result on every graph.
use kindling.Base.{
  ◌≢◌, suc, ◌≡◌, refl, true, List, [], ◌∷◌, arith, Text, All, some, none, inl, inr, ◌||◌, length,
}
use kindling.Ci.{
  job_not_found, cycle_detected, Graph, Error, Result, ok, err, ◌>>=◌, Search, start, has, lookup,
  visit, roots_or_all, topo_sort_jobs,
}
use kindling.Ci.Topo.{Reaches, direct, onward, IsOrdered, IsNeeded}
use kindling.Ci.Topo.Sets.{All-has, count_outside-le, onto}
use kindling.Ci.Topo.Visit.{IsSound, Explains, Visited, Leads, visit_each-Visited, visit-IsVisitor}

has-onto :
    (x : Text) (xs seen : List Text) → has x (onto xs seen) ≡ true → has x xs || has x seen ≡ true
unfolding has
has-onto x [] seen h = h
has-onto x (y ∷ ys) seen h = ground (arith, has-onto x ys (y ∷ seen) h)

has-onto_nil : (x : Text) (xs : List Text) → has x (onto xs []) ≡ true → has x xs ≡ true
has-onto_nil x xs h = let either = has-onto x xs [] h in unfold has in ground arith

has-nil : (x : Text) → ¬ (has x [] ≡ true)
unfolding has
has-nil x h = cc

-- The needs of a needed job are needed.
IsNeeded-closed :
    (jobs : Graph) (roots : List Text) (x : Text) (needs : List Text)
    → lookup x jobs ≡ some needs
    → IsNeeded jobs roots x
    → All (IsNeeded jobs roots) needs
IsNeeded-closed jobs roots x needs e n = All-has (IsNeeded jobs roots) needs λ d m. elim n [
  | inl root ↦ inr (x, root, direct needs e m)
  | inr (r, root, path) ↦ inr (r, root, onward path (direct needs e m))
]

start-IsSound : (jobs : Graph) (P : Text → Type 0) → IsSound jobs P start
unfolding has
start-IsSound jobs P = record { ordered = tt; mirrored = refl; apart = λ x h. refl; wanted = tt }

-- A list that holds what it should: each needed job once, behind its needs, and the roots.
pub record IsPlan (jobs : Graph) (roots out : List Text) : Type 0 where
  pub ordered : IsOrdered jobs [] out
  pub needed : All (IsNeeded jobs roots) out
  pub complete : All (λ r. has r out ≡ true) roots

abbrev pub Planned : Graph → List Text → Result (List Text) → Type 0
Planned jobs roots (ok out) = IsPlan jobs roots out
Planned jobs roots (err e) = Explains jobs (IsNeeded jobs roots) e

planned :
    (jobs : Graph) (roots : List Text) (r : Result Search)
    → Visited jobs (IsNeeded jobs roots) roots start r
    → Planned jobs roots (r >>= λ s. ok s.out)
planned jobs roots (err e) v = v
planned jobs roots (ok s) v =
    let sound = v.0.sound in
    record { ordered = sound.ordered; needed = sound.wanted; complete = in_out roots v.1 }
  where
    in_out :
        (xs : List Text) → All (λ x. has x s.visited ≡ true) xs → All (λ x. has x s.out ≡ true) xs
    in_out [] a = tt
    in_out (x ∷ xs) a = (has-onto_nil x s.out (rw v.0.sound.mirrored a.0), in_out xs a.1)

roots-IsNeeded : (jobs : Graph) (roots : List Text) → All (IsNeeded jobs roots) roots
roots-IsNeeded jobs roots = All-has (IsNeeded jobs roots) roots (λ x h. inl h)

-- On every graph and all roots the sort returns: either a list in which each job stands once, behind
-- all of its needs, which holds the roots, and which holds only roots and their direct and indirect
-- needs; or the error of a cycle at a job that does need itself, or of a missing job that is such a
-- root or need and is not in the graph. It never runs out of fuel.
pub topo_sort_jobs-Planned :
    (jobs : Graph) (roots : List Text)
    → Planned jobs (roots_or_all jobs roots) (topo_sort_jobs jobs roots)
unfolding topo_sort_jobs
topo_sort_jobs-Planned jobs roots =
    let rs = roots_or_all jobs roots in
    let P = IsNeeded jobs rs in
    planned jobs rs _ (
      visit_each-Visited jobs P (suc (length jobs)) (visit (suc (length jobs)) jobs)
        (visit-IsVisitor jobs P (IsNeeded-closed jobs rs) (suc (length jobs))) rs start
        (start-IsSound jobs P) (roots-IsNeeded jobs rs)
        (All-has (Leads jobs []) rs (λ x h y k. absurd (has-nil y k)))
        (omega (arith, count_outside-le [] jobs)))

-- If no job needs itself, directly or not, and every root and every need is a job, the sort succeeds.
pub topo_sort_jobs-ok :
    (jobs : Graph) (roots : List Text)
    → ((x : Text) → ¬ Reaches jobs x x)
    → ((x : Text) → IsNeeded jobs (roots_or_all jobs roots) x → lookup x jobs ≢ none)
    → (out : List Text) × (topo_sort_jobs jobs roots ≡ ok out)
      × IsPlan jobs (roots_or_all jobs roots) out
topo_sort_jobs-ok jobs roots acyclic complete =
    must (topo_sort_jobs jobs roots) refl (topo_sort_jobs-Planned jobs roots)
  where
    must :
        (r : Result (List Text))
        → topo_sort_jobs jobs roots ≡ r
        → Planned jobs (roots_or_all jobs roots) r
        → (out : List Text) × (topo_sort_jobs jobs roots ≡ ok out)
          × IsPlan jobs (roots_or_all jobs roots) out
    must (ok out) e p = (out, e, p)
    must (err x) e p = absurd (impossible x p)
      where
        impossible : (x : Error) → Explains jobs (IsNeeded jobs (roots_or_all jobs roots)) x → ⊥
        impossible (cycle_detected y) p = acyclic y p
        impossible (job_not_found y) p = complete y p.1 p.0
        impossible _ p = p
