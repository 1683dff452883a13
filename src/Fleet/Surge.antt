-- ===== src/Fleet/Surge.antt =====
-- internal/deploy/deploy_evacuation.go: scaling down while servers drain.
use kindling.Base.{
  fun_ext, ℕ, suc, zero, ◌≤◌, ◌<◌, ◌≡◌, refl, sym, ap, ◌∙◌, leb, true, false, not, ◌&&◌, ◌||◌,
  Option, none, some, some-inj, none≢some, List, [], ◌∷◌, Text, codes, arith, Bool-cases,
  Option-cases, inl, inr, if◌then◌else◌, min,
}
use kindling.Fleet.{Instance, is_active_instance, active_instance_count, sort_newest}
use kindling.Fleet.Victims.{count_id}
use kindling.Fleet.Evacuation.{
  StatusMap, server_status_by_ids, on_draining, count_if, count_instances_on_draining_servers,
  Cleaned, cleanup_instance, clean_row, first_free, find_victim, Rounds, Outcome, done, round_map,
  scale_down_excess,
}
use kindling.Fleet.Tally.{
  at_id, is_free, count_if-sort_newest, count_if-active, count_if-disjoint, count_if-split,
  first_free-none, first_free-some, count_if-clean_row, count_id-clean_row,
}

-- The status that the database answers for a server.
abbrev pub status_of : StatusMap → ℕ → Text
status_of draining s = if draining s then codes "draining" else codes "active"

status_known :
    (draining : StatusMap) (find : ℕ → Option Text) (xs : List Instance)
    → ((s : ℕ) → find s ≡ some (status_of draining s))
    → server_status_by_ids find xs ≡ some draining
unfolding server_status_by_ids
status_known draining find [] h = ap some (
    fun_ext (λ s. elim (Bool-cases (draining s)) [
      | inl d ↦ simp (h s, d) refl
      | inr d ↦ simp (h s, d) refl
    ]))
status_known draining find (x ∷ xs) h =
    let e = status_known draining find xs h in
    elim (Bool-cases (is_active_instance x)) [
      | inr a ↦ simp a e
      | inl a ↦ elim (Option-cases x.server_id) [
        | inl n ↦ simp (a, n) e
        | inr (s, n) ↦ simp (a, n, h s) e
      ]
    ]

abbrev IsMap : StatusMap → Option StatusMap → Type 0
IsMap draining map = (m : StatusMap) → map ≡ some m → m ≡ draining

round_map_lem :
    (draining : StatusMap) (find : ℕ → Option Text) (map : Option StatusMap) (xs : List Instance)
    → ((s : ℕ) → find s ≡ some (status_of draining s))
    → IsMap draining map
    → round_map find map xs ≡ some draining
round_map_lem draining find none xs h m = status_known draining find xs h
round_map_lem draining find (some map) xs h m = ap some (m map refl)

-- With more active instances than stand on draining servers, the victim is one of the others.
victim_lem :
    (draining : StatusMap) (xs : List Instance)
    → count_instances_on_draining_servers draining xs < active_instance_count xs
    → (v : Instance) × (find_victim draining (sort_newest xs) ≡ some v)
      × (0 < count_if (at_id (is_free draining) v.id) xs)
unfolding find_victim count_instances_on_draining_servers
victim_lem draining xs h = elim (Option-cases (first_free draining (sort_newest xs))) [
  | inl n ↦
      let a = first_free-none draining (sort_newest xs) n in
      let b = count_if-sort_newest (is_free draining) xs in
      let c = count_if-split draining xs in let d = count_if-active xs in absurd (omega arith)
  | inr (v, n) ↦
      let (f, m) = first_free-some draining (sort_newest xs) v n in
      let e = count_if-sort_newest (at_id (is_free draining) v.id) xs in
      (v, simp (n, find_victim) refl, omega arith)
]

free_or_draining :
    (draining : StatusMap) (x : Instance)
    → is_free draining x && (is_active_instance x && on_draining draining x) ≡ false
free_or_draining draining x = elim (Bool-cases (on_draining draining x)) [
  | inl d ↦ elim (Bool-cases (is_active_instance x)) [
    | inl a ↦ simp (d, a) refl
    | inr a ↦ simp (d, a) refl
  ]
  | inr d ↦ elim (Bool-cases (is_active_instance x)) [
    | inl a ↦ simp (d, a) refl
    | inr a ↦ simp (d, a) refl
  ]
]

-- Cleaning up the victim takes one active instance away, and none on a draining server.
clean_lem :
    (draining : StatusMap) (c : Cleaned) (id : ℕ) (xs : List Instance)
    → c.gone || c.pooled ≡ true
    → count_id id xs ≤ 1
    → 0 < count_if (at_id (is_free draining) id) xs
    → (suc (active_instance_count (clean_row c id xs)) ≡ active_instance_count xs)
      × (count_instances_on_draining_servers draining (clean_row c id xs)
          ≡ count_instances_on_draining_servers draining xs)
unfolding count_instances_on_draining_servers
clean_lem draining c id xs h once n =
    let ys = clean_row c id xs in
    let drains = λ (x : Instance). is_active_instance x && on_draining draining x in
    let a = count_if-disjoint (is_free draining) drains id xs (free_or_draining draining) in
    let b = count_if-clean_row c id (λ x. not (on_draining draining x)) xs h in
    let d = count_if-clean_row c id (on_draining draining) xs h in
    let e = count_if-split draining xs in
    let f = count_if-split draining ys in
    let g = count_if-active xs in let i = count_if-active ys in (omega arith, omega arith)

module _ (rounds : Rounds) (draining : StatusMap) (target : ℕ)
    (known : (k s : ℕ) → rounds.find_server k s ≡ some (status_of draining s))
    (cleans : (k : ℕ) (v : Instance)
      → (cleanup_instance (rounds.cleanup k v) v).gone
          || (cleanup_instance (rounds.cleanup k v) v).pooled
        ≡ true)
    (lists : (k : ℕ) → rounds.lists k ≡ true) where
  -- As many active instances as there were, or as wanted if that is less, and those on draining servers
  -- are all there.
  abbrev IsScaled : List Instance → Outcome → Type 0
  IsScaled xs o =
      (ys : List Instance) × (o ≡ done ys)
      × (active_instance_count ys ≡ min (active_instance_count xs) target)
      × (count_instances_on_draining_servers draining ys
          ≡ count_instances_on_draining_servers draining xs)

  -- One round, and the rest of the loop.
  after :
      (xs ys : List Instance) (o rest : Outcome)
      → target < active_instance_count xs
      → (suc (active_instance_count ys) ≡ active_instance_count xs)
        × (count_instances_on_draining_servers draining ys
            ≡ count_instances_on_draining_servers draining xs)
      → o ≡ rest
      → IsScaled ys rest
      → IsScaled xs o
  after xs ys o rest more (fewer, same) e (zs, d, counts, kept) =
      (zs, e ∙ d, omega arith, kept ∙ same)

  scale_down_excess-IsScaled :
      (fuel k : ℕ) (map : Option StatusMap) (xs : List Instance)
      → active_instance_count xs < fuel
      → IsMap draining map
      → ((id : ℕ) → count_id id xs ≤ 1)
      → count_instances_on_draining_servers draining xs ≤ target
      → IsScaled xs (scale_down_excess fuel rounds k map xs target)
  unfolding scale_down_excess
  scale_down_excess-IsScaled zero k map xs f m once surge = absurd (omega arith)
  scale_down_excess-IsScaled (suc fuel) k map xs f m once surge =
      elim (Bool-cases (leb (active_instance_count xs) target)) [
        | inl h ↦ (xs, simp (h, scale_down_excess) refl, ground arith, refl)
        | inr h ↦
            let more : target < active_instance_count xs = ground arith in
            let (v, found, n) = victim_lem draining xs (omega arith) in
            let c = cleanup_instance (rounds.cleanup k v) v in
            let ys = clean_row c v.id xs in
            let step = clean_lem draining c v.id xs (cleans k v) (once v.id) n in
            let once' : (id : ℕ) → count_id id ys ≤ 1 = (λ id.
              (let less = count_id-clean_row c v.id id xs in let o = once id in omega arith)) in
            let rest =
              scale_down_excess-IsScaled fuel (suc k) none ys (omega (arith, step.0))
                (λ m' q. absurd (none≢some q)) once' (omega (arith, step.1)) in
            after xs ys _ _ more step
              (simp
                (
                  h,
                  round_map_lem draining (rounds.find_server k) map xs (known k) m,
                  found,
                  lists k,
                  scale_down_excess,
                )
                refl)
              rest
      ]

  -- While servers drain, with a target of at least the active instances on them, the loop ends: it
  -- leaves as many active instances as there were, or the target if that is less, and keeps all that are
  -- on draining servers. This is so where the statuses of the servers stand during the call, each lookup
  -- succeeds, and each clean-up takes its instance away or puts it into the warm pool.
  pub scale_down_excess_lem :
      (xs : List Instance)
      → ((id : ℕ) → count_id id xs ≤ 1)
      → count_instances_on_draining_servers draining xs ≤ target
      → IsScaled xs (
          scale_down_excess
            (suc (active_instance_count xs))
            rounds
            0
            (server_status_by_ids (rounds.find_server 0) xs)
            xs
            target)
  scale_down_excess_lem xs once surge =
      scale_down_excess-IsScaled (suc (active_instance_count xs)) 0
        (server_status_by_ids (rounds.find_server 0) xs) xs (omega arith)
        (λ m q. some-inj (sym q ∙ status_known draining (rounds.find_server 0) xs (known 0))) once
        surge
