-- ===== src/Ci/Topo.antt =====
-- internal/ci/compile.go, `topoSortJobs`: the graph of the jobs.
pub mod Sets
pub mod Visit
pub mod Order
use kindling.Base.{◌⊎◌, ◌≡◌, true, false, ◌≢◌, List, [], ◌∷◌, Text, some, none, Option, All}
use kindling.Ci.{Graph, has, lookup, Error, cycle_detected, job_not_found}

-- The second job is a need of the first, directly or not.
pub data Reaches (jobs : Graph) : Text → Text → Type 0 where
  direct :
      {x y : Text} (needs : List Text)
      → lookup x jobs ≡ some needs
      → has y needs ≡ true
      → Reaches jobs x y
  onward : {x y z : Text} → Reaches jobs x y → Reaches jobs y z → Reaches jobs x z

-- The job is a root, or a need of one.
abbrev pub IsNeeded : Graph → List Text → Text → Type 0
IsNeeded jobs roots x =
    (has x roots ≡ true) ⊎ ((r : Text) × (has r roots ≡ true) × Reaches jobs r x)

-- The needs of a job are in a set; the job exists.
abbrev pub HasNeeds : Graph → List Text → Text → Type 0
HasNeeds jobs seen x =
    (needs : List Text) × (lookup x jobs ≡ some needs) × All (λ d. has d seen ≡ true) needs

-- Each job stands once, behind all of its needs; `seen` are the jobs before the list.
abbrev pub IsOrdered : Graph → List Text → List Text → Type 0
IsOrdered jobs seen [] = Unit {0}
IsOrdered jobs seen (x ∷ xs) =
    (has x seen ≡ false) × HasNeeds jobs seen x × IsOrdered jobs (x ∷ seen) xs
