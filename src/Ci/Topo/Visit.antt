-- ===== src/Ci/Topo/Visit.antt =====
-- internal/ci/compile.go, `topoSortJobs`: what one call of `visit` guarantees.
use kindling.Base.{
  ℕ, zero, suc, ◌<◌, ◌≡◌, refl, sym, subst, ap, ◌∙◌, true, false, List, [], ◌∷◌, ◌++◌, arith, Text,
  text_eq, text_eq_iff, All, some, none, Bool-cases, Option-cases, inl, inr,
}
use kindling.Ci.{
  Graph, Error, Result, ok, err, ◌>>=◌, cycle_detected, job_not_found, Search, has, lookup, delete,
  sort_strings, visit_each, leave, enter, visit,
}
use kindling.Ci.Topo.{Reaches, direct, onward, IsOrdered}
use kindling.Ci.Topo.Sets.{
  has_self, has-cons, delete_entered, All-sort_strings, All-has, count_outside, count_outside-enter,
  onto, IsOrdered-append, onto-append,
}

-- The state between two calls: `out` is ordered, `visited` holds the same jobs, and no job that is
-- still open has been visited.
pub record IsSound (jobs : Graph) (P : Text → Type 0) (s : Search) : Type 0 where
  pub ordered : IsOrdered jobs [] s.out
  pub mirrored : onto s.out [] ≡ s.visited
  pub apart : (x : Text) → has x s.temp ≡ true → has x s.visited ≡ false
  pub wanted : All P s.out

-- What an error of the search means.
abbrev pub Explains : Graph → (Text → Type 0) → Error → Type 0
Explains jobs P (cycle_detected x) = Reaches jobs x x
Explains jobs P (job_not_found x) = (lookup x jobs ≡ none) × P x
Explains jobs P _ = ⊥

-- The state after a visit that succeeded.
pub record IsAfter (jobs : Graph) (P : Text → Type 0) (s t : Search) : Type 0 where
  pub sound : IsSound jobs P t
  pub grown : (x : Text) → has x s.visited ≡ true → has x t.visited ≡ true
  pub restored : t.temp ≡ s.temp

abbrev pub Visited : Graph → (Text → Type 0) → List Text → Search → Result Search → Type 0
Visited jobs P ids s (ok t) = IsAfter jobs P s t × All (λ x. has x t.visited ≡ true) ids
Visited jobs P ids s (err e) = Explains jobs P e

-- Every open job leads to this one.
abbrev pub Leads : Graph → List Text → Text → Type 0
Leads jobs temp id = (y : Text) → has y temp ≡ true → Reaches jobs y id

All-map : (P Q : Text → Type 0) → ((x : Text) → P x → Q x) → (xs : List Text) → All P xs → All Q xs
All-map P Q f [] a = tt
All-map P Q f (x ∷ xs) a = (f x a.0, All-map P Q f xs a.1)

module _ (jobs : Graph) (P : Text → Type 0) where
  -- One call of `visit` in a sound state, in which the open jobs lead to the visited one and are so
  -- many that `room` jobs at most are still to be opened.
  abbrev pub IsVisitor : ℕ → (Text → Search → Result Search) → Type 0
  IsVisitor room v =
      (id : Text) (s : Search)
      → IsSound jobs P s
      → P id
      → Leads jobs s.temp id
      → count_outside s.temp jobs < room
      → Visited jobs P (id ∷ []) s (v id s)

  then_each :
      (ids : List Text) (id : Text) (s : Search) (r : Result Search)
      (v : Text → Search → Result Search)
      → Visited jobs P (id ∷ []) s r
      → ((t : Search) → IsAfter jobs P s t → Visited jobs P ids t (visit_each v ids t))
      → Visited jobs P (id ∷ ids) s (r >>= visit_each v ids)
  then_each ids id s (err e) v h k = h
  then_each ids id s (ok t) v h k = join (visit_each v ids t) (k t h.0)
    where
      join : (q : Result Search) → Visited jobs P ids t q → Visited jobs P (id ∷ ids) s q
      join (err e) m = m
      join (ok u) m = (
        record {
          sound = m.0.sound;
          grown = λ x g. m.0.grown x (h.0.grown x g);
          restored = m.0.restored ∙ h.0.restored;
        },
        (m.0.grown id h.1.0, m.1),
      )

  pub visit_each-Visited :
      (room : ℕ) (v : Text → Search → Result Search)
      → IsVisitor room v
      → (ids : List Text) (s : Search) → IsSound jobs P s
      → All P ids
      → All (Leads jobs s.temp) ids
      → count_outside s.temp jobs < room
      → Visited jobs P ids s (visit_each v ids s)
  unfolding visit_each
  visit_each-Visited room v h [] s i p l m =
      (record { sound = i; grown = λ x g. g; restored = refl }, tt)
  visit_each-Visited room v h (id ∷ ids) s i p l m =
      then_each ids id s (v id s) v (h id s i p.0 l.0 m) (λ t after.
        visit_each-Visited room v h ids t after.sound p.1
          (subst (λ temp. All (Leads jobs temp) ids) (sym after.restored) l.1)
          (subst (λ temp. count_outside temp jobs < room) (sym after.restored) m))

  enter-IsSound :
      (id : Text) (s : Search)
      → IsSound jobs P s
      → has id s.visited ≡ false
      → IsSound jobs P (enter id s)
  unfolding enter has
  enter-IsSound id s i h = record {
    ordered = i.ordered;
    mirrored = i.mirrored;
    apart = λ x k. ground (arith, i.apart x, text_eq_iff id x);
    wanted = i.wanted;
  }

  All-snoc : (xs : List Text) (x : Text) → All P xs → P x → All P (xs ++ x ∷ [])
  All-snoc [] x a p = (p, tt)
  All-snoc (y ∷ ys) x a p = (a.0, All-snoc ys x a.1 p)

  module _ (id : Text) (s t : Search) (h : has id s.temp ≡ false) (sound : IsSound jobs P t)
      (open_now : t.temp ≡ id ∷ s.temp) where
    closed_now : delete id t.temp ≡ s.temp
    closed_now = rw open_now (delete_entered id s.temp h)

    unvisited : has id t.visited ≡ false
    unvisited = sound.apart id (rw open_now (has_self id s.temp))

    still_apart : (x : Text) → has x s.temp ≡ true → has x (id ∷ t.visited) ≡ false
    still_apart x k =
        let below = sound.apart x (rw open_now (has-cons x id s.temp k)) in
        unfold has in ground (arith, text_eq_iff id x)

    -- The end of a call: the needs of the job are visited, and the job is still open.
    leave-Visited :
        (needs : List Text)
        → P id
        → lookup id jobs ≡ some needs
        → ((x : Text) → has x s.visited ≡ true → has x t.visited ≡ true)
        → All (λ d. has d t.visited ≡ true) needs
        → Visited jobs P (id ∷ []) s (ok (leave id t))
    unfolding leave
    leave-Visited needs p e grown all = (
      record {
        sound = record {
          ordered =
              IsOrdered-append jobs t.out [] id sound.ordered (rw sound.mirrored unvisited)
                (rw sound.mirrored (needs, e, all));
          mirrored = onto-append t.out [] id ∙ ap (λ v. id ∷ v) sound.mirrored;
          apart = λ x k. still_apart x (rw closed_now at k);
          wanted = All-snoc t.out id sound.wanted p;
        };
        grown = λ x g. has-cons x id t.visited (grown x g);
        restored = closed_now;
      },
      (has_self id t.visited, tt),
    )

  Leads-needs :
      (id : Text) (needs temp : List Text)
      → lookup id jobs ≡ some needs
      → Leads jobs temp id
      → All (Leads jobs (id ∷ temp)) needs
  Leads-needs id needs temp e l = All-has (Leads jobs (id ∷ temp)) needs λ d m y k.
      elim (Bool-cases (text_eq id y)) [
        | inl same ↦ subst (λ z. Reaches jobs z d) ((text_eq_iff id y).0 same) (direct needs e m)
        | inr other ↦ onward (l y (unfold has in ground arith)) (direct needs e m)
      ]

  enter-Leads :
      (id : Text) (needs : List Text) (s : Search)
      → lookup id jobs ≡ some needs
      → Leads jobs s.temp id
      → All (Leads jobs (enter id s).temp) needs
  unfolding enter
  enter-Leads id needs s e l = Leads-needs id needs s.temp e l

  enter_room :
      (id : Text) (needs : List Text) (s : Search) (fuel : ℕ)
      → lookup id jobs ≡ some needs
      → has id s.temp ≡ false
      → count_outside s.temp jobs < suc fuel
      → count_outside (enter id s).temp jobs < fuel
  unfolding enter
  enter_room id needs s fuel e h m =
      omega (arith, count_outside-enter id s.temp jobs {needs = needs} e h)

  opened :
      (id : Text) (needs : List Text) (s : Search) (r : Result Search)
      → P id
      → lookup id jobs ≡ some needs
      → has id s.temp ≡ false
      → Visited jobs P (sort_strings needs) (enter id s) r
      → Visited jobs P (id ∷ []) s (r >>= λ t. ok (leave id t))
  unfolding enter
  opened id needs s (err x) p e h v = v
  opened id needs s (ok t) p e h v =
      leave-Visited id s t h v.0.sound v.0.restored needs p e v.0.grown
        ((All-sort_strings (λ d. has d t.visited ≡ true) needs).1 v.1)

  module _
      (closed : (x : Text) (needs : List Text)
        → lookup x jobs ≡ some needs
        → P x
        → All P needs) where
    -- With enough fuel for the jobs that are not open yet, a visit succeeds, or its error is
    -- explained by the graph: it never runs out of fuel.
    pub visit-IsVisitor : (fuel : ℕ) → IsVisitor fuel (visit fuel jobs)
    unfolding visit
    visit-IsVisitor zero id s i p l m = absurd (omega arith)
    visit-IsVisitor (suc fuel) id s i p l m = elim (Bool-cases (has id s.visited)) [
      | inl old ↦ rw old (record { sound = i; grown = λ x g. g; restored = refl }, (old, tt))
      | inr new ↦ elim (Bool-cases (has id s.temp)) [
        | inl cycle ↦ rw (new, cycle) (l id cycle)
        | inr fresh ↦ elim (Option-cases (lookup id jobs)) [
          | inl missing ↦ rw (new, fresh, missing) (missing, p)
          | inr (needs, e) ↦
              rw (new, fresh, e)
                (opened id needs s _ p e fresh (
                  visit_each-Visited fuel (visit fuel jobs) (visit-IsVisitor fuel)
                    (sort_strings needs) (enter id s) (enter-IsSound id s i new)
                    ((All-sort_strings P needs).0 (closed id needs e p))
                    ((All-sort_strings (Leads jobs (enter id s).temp) needs).0
                      (enter-Leads id needs s e l))
                    (enter_room id needs s fuel e fresh m)))
        ]
      ]
    ]
