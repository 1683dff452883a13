-- ===== src/Dns/Grants.antt =====
-- internal/workerdns/resolver.go: who is answered, and with what.
use kindling.Base.{
  suc, ℕ, ◌≡◌, refl, sym, ap, subst, ◌∙◌, ◌==◌, ==_iff, ◌<◌, true, false, some, List, [], ◌∷◌, Text,
  codes, text_eq, text_eq_iff, count, ◌⊎◌, inl, inr, Bool-cases, Option-cases, arith, if◌then◌else◌,
  some-inj, false≢true, none≢some, ℤ,
}
use kindling.Dns.{Platform, InternalName, normalize_label, parse_internal_name}
use kindling.Dns.Resolver.{
  Rcode, LookupStore, CallerIdentity, EndpointCandidate, Address, QueryType, type_a, type_any,
  type_aaaa, type_other, Resolution, refused, match_candidates, zero_candidate,
  select_endpoint_candidate, parse_preview_env_slug, find_env, resolve_deployment, ipv4, answer,
  answer_ipv4, resolve_candidate, resolve, server_failure, name_error,
}

-- The candidates whose project has the name.
abbrev pub named : Platform → Text → List EndpointCandidate → List EndpointCandidate
named p project [] = []
named p project (c ∷ cs) =
    let rest = named p project cs in
    if text_eq (normalize_label p c.project_name) project then c ∷ rest else rest

module _ (p : Platform) (project : Text) where
  match_many :
      (cs : List EndpointCandidate) (m : EndpointCandidate) (n : ℕ)
      → 1 < n
      → (match_candidates p project cs m n).1 == 1 ≡ false
  unfolding match_candidates
  match_many [] m n h = ground arith
  match_many (c ∷ cs) m n h =
      elim (Bool-cases (text_eq (normalize_label p c.project_name) project)) [
        | inl e ↦ simp e (match_many cs c (suc n) (omega arith))
        | inr e ↦ simp e (match_many cs m n h)
      ]

  match_one :
      (cs : List EndpointCandidate) (m : EndpointCandidate)
      → (match_candidates p project cs m 1).1 == 1 ≡ true
      → (named p project cs ≡ []) × ((match_candidates p project cs m 1).0 ≡ m)
  unfolding match_candidates
  match_one [] m h = (refl, refl)
  match_one (c ∷ cs) m h = elim (Bool-cases (text_eq (normalize_label p c.project_name) project)) [
    | inl e ↦ absurd (false≢true (sym (match_many cs c 2 (omega arith)) ∙ (simp e at h)))
    | inr e ↦ simp e (match_one cs m (simp e at h))
  ]

  match_first :
      (cs : List EndpointCandidate)
      → (match_candidates p project cs zero_candidate 0).1 == 1 ≡ true
      → named p project cs ≡ (match_candidates p project cs zero_candidate 0).0 ∷ []
  unfolding match_candidates
  match_first [] h = absurd (false≢true h)
  match_first (c ∷ cs) h = elim (Bool-cases (text_eq (normalize_label p c.project_name) project)) [
    | inl e ↦ let (none_left, same) = match_one cs c (simp e at h) in simp (e, none_left, same) refl
    | inr e ↦ simp e (match_first cs (simp e at h))
  ]

  select-named :
      (cs : List EndpointCandidate) (c : EndpointCandidate)
      → select_endpoint_candidate p cs project ≡ some c
      → named p project cs ≡ c ∷ []
  unfolding select_endpoint_candidate
  select-named cs c h =
      elim (Bool-cases ((match_candidates p project cs zero_candidate 0).1 == 1)) [
        | inl e ↦
            match_first cs e
            ∙ ap (λ x. x ∷ []) (some-inj (simp (e, select_endpoint_candidate) at h))
        | inr e ↦ absurd (none≢some (simp (e, select_endpoint_candidate) at h))
      ]

-- The deployment that the caller may ask for: that of production, or that of its own preview
-- environment, if this belongs to the candidate's project and has the number of the name.
abbrev pub IsDeployment : LookupStore → CallerIdentity → EndpointCandidate → Text → ℕ → Type 0
IsDeployment store caller candidate env d =
    ((env ≡ codes "prod")
      × (store.latest_running_production_deployment candidate.service_id ≡ some (some d)))
    ⊎ ((number : ℤ) × (envs : List ℕ) × (parse_preview_env_slug env ≡ some number)
        × (caller.has_preview_environment ≡ true)
        × (store.preview_environments_by_project_and_pr candidate.project_id number ≡ some envs)
        × (0 < count caller.preview_environment_id envs)
        × (store.latest_running_preview_deployment candidate.service_id
              caller.preview_environment_id
            ≡ some (some d)))

find_env_lem :
    (id : ℕ) (envs : List ℕ)
    → find_env id envs == 0 ≡ false
    → (find_env id envs ≡ id) × (0 < count id envs)
unfolding find_env
find_env_lem id [] h = absurd (false≢true (sym h))
find_env_lem id (env ∷ envs) h = elim (Bool-cases (env == id)) [
  | inl e ↦ (simp e ((==_iff env id).0 e), simp e (omega arith))
  | inr e ↦ let (q, r) = find_env_lem id envs (simp e at h) in (simp e q, simp e (omega arith))
]

-- A deployment is found only as `IsDeployment` says.
resolve_deployment-IsDeployment :
    (store : LookupStore) (caller : CallerIdentity) (candidate : EndpointCandidate) (env : Text)
    (d : ℕ)
    → resolve_deployment store caller candidate env ≡ some (some d)
    → IsDeployment store caller candidate env d
unfolding resolve_deployment
resolve_deployment-IsDeployment store caller candidate env d h =
    elim (Bool-cases (text_eq env (codes "prod"))) [
      | inl e ↦ inl ((text_eq_iff env (codes "prod")).0 e, simp (e, resolve_deployment) at h)
      | inr e ↦ elim (Option-cases (parse_preview_env_slug env)) [
        | inl k ↦ absurd (none≢some (some-inj (simp (e, k, resolve_deployment) at h)))
        | inr (number, k) ↦ elim (Bool-cases caller.has_preview_environment) [
          | inr f ↦ absurd (none≢some (some-inj (simp (e, k, f, resolve_deployment) at h)))
          | inl f ↦
              elim (Option-cases
                (store.preview_environments_by_project_and_pr candidate.project_id number)) [
                  | inl l ↦ absurd (none≢some (simp (e, k, f, l, resolve_deployment) at h))
                  | inr (envs, l) ↦
                      elim (Bool-cases (find_env caller.preview_environment_id envs == 0)) [
                        | inl z ↦
                            absurd
                              (none≢some (some-inj (simp (e, k, f, l, z, resolve_deployment) at h)))
                        | inr z ↦
                            let (same, found) = find_env_lem caller.preview_environment_id envs z in
                            let z' = subst (λ x. x == 0 ≡ false) same z in
                            inr (
                              number,
                              envs,
                              k,
                              f,
                              l,
                              found,
                              simp (e, k, f, l, same, z', resolve_deployment) at h,
                            )
                      ]
                ]
        ]
      ]
    ]

answer_ipv4_lem : (ips : List Address) → (answer_ipv4 ips).answers ≡ ips
unfolding answer_ipv4
answer_ipv4_lem [] = refl
answer_ipv4_lem (ip ∷ ips) = refl

[]≢∷ : {ip : Address} {rest : List Address} → ¬ ([] ≡ ip ∷ rest)
[]≢∷ e = cc

answer_lem :
    (q : QueryType) (ips : List Address) (ip : Address) (rest : List Address)
    → (answer q ips).answers ≡ ip ∷ rest
    → (answer q ips).answers ≡ ipv4 ips
unfolding answer
answer_lem type_a [] ip rest h = absurd ([]≢∷ h)
answer_lem type_any [] ip rest h = absurd ([]≢∷ h)
answer_lem type_aaaa [] ip rest h = absurd ([]≢∷ h)
answer_lem type_other [] ip rest h = absurd ([]≢∷ h)
answer_lem type_aaaa (i ∷ ips) ip rest h = absurd ([]≢∷ h)
answer_lem type_other (i ∷ ips) ip rest h = absurd ([]≢∷ h)
answer_lem type_a (i ∷ ips) ip rest h = answer_ipv4_lem (ipv4 (i ∷ ips))
answer_lem type_any (i ∷ ips) ip rest h = answer_ipv4_lem (ipv4 (i ∷ ips))

-- The caller is of the candidate's organisation and of the environment of the name, and the answers are
-- the IPv4 addresses of the running instances of a deployment that it may ask for.
abbrev pub IsGranted :
    LookupStore → InternalName → CallerIdentity → EndpointCandidate → Resolution → Type 0
IsGranted store target caller candidate r =
    (caller.organization_id ≡ candidate.organization_id)
    × (caller.env_slug ≡ target.environment)
    × ((d : ℕ) × (ips : List Address) × IsDeployment store caller candidate target.environment d
        × (store.running_backend_ips d ≡ some ips)
        × (r.answers ≡ ipv4 ips))

resolve_candidate-IsGranted :
    (store : LookupStore) (target : InternalName) (q : QueryType) (caller : CallerIdentity)
    (candidate : EndpointCandidate) (r : Resolution) (ip : Address) (rest : List Address)
    → resolve_candidate store target q caller candidate ≡ some r
    → r.answers ≡ ip ∷ rest
    → IsGranted store target caller candidate r
unfolding resolve_candidate
resolve_candidate-IsGranted store target q caller candidate r ip rest h e =
    let refuses : (code : Rcode)
        → some (refused code) ≡ some r
        → IsGranted store target caller candidate r =
      λ code k. absurd ([]≢∷ (ap (λ x. x.answers) (some-inj k) ∙ e)) in
    elim (Bool-cases (caller.organization_id == candidate.organization_id)) [
      | inr o ↦ refuses name_error (simp (o, resolve_candidate) at h)
      | inl o ↦ elim (Bool-cases (text_eq caller.env_slug target.environment)) [
        | inr t ↦ refuses name_error (simp (o, t, resolve_candidate) at h)
        | inl t ↦
            elim (Option-cases (resolve_deployment store caller candidate target.environment)) [
              | inl k ↦ absurd (none≢some (simp (o, t, k, resolve_candidate) at h))
              | inr (found, k) ↦ elim (Option-cases found) [
                | inl n ↦ refuses server_failure (simp (o, t, k, n, resolve_candidate) at h)
                | inr (d, n) ↦ elim (Option-cases (store.running_backend_ips d)) [
                  | inl m ↦ absurd (none≢some (simp (o, t, k, n, m, resolve_candidate) at h))
                  | inr (ips, m) ↦
                      let same : answer q ips ≡ r =
                        some-inj (simp (o, t, k, n, m, resolve_candidate) at h) in
                      (
                        (==_iff caller.organization_id candidate.organization_id).0 o,
                        (text_eq_iff caller.env_slug target.environment).0 t,
                        (
                          d,
                          ips,
                          resolve_deployment-IsDeployment store caller candidate target.environment
                              d (k ∙ ap some n),
                          m,
                          sym (ap (λ x. x.answers) same)
                              ∙ answer_lem q ips ip rest (ap (λ x. x.answers) same ∙ e),
                        ),
                      )
                ]
              ]
            ]
      ]
    ]

-- A query is answered with addresses only if the parser takes its name for an internal one, which it does
-- of every name that ends in the internal domain, also where no dot stands before the domain; if the
-- machine that asks is known, exactly one endpoint of the name has a project of the name, this endpoint
-- is of the caller's organisation, the name is of the caller's environment, and the addresses are the
-- IPv4 ones of the running instances of the production deployment, or of the deployment of the caller's
-- own preview environment in the endpoint's project.
pub resolve-IsGranted :
    (p : Platform) (store : LookupStore) (source : Address) (qname : Text) (q : QueryType)
    (r : Resolution) (ip : Address) (rest : List Address)
    → resolve p store source qname q ≡ some r
    → r.answers ≡ ip ∷ rest
    → (let target = (parse_internal_name p qname).0 in
        ((parse_internal_name p qname).1 ≡ true)
        × ((caller : CallerIdentity) × (candidates : List EndpointCandidate)
            × (candidate : EndpointCandidate) × (store.caller_by_ip source ≡ some (some caller))
            × (store.endpoint_candidates target.endpoint target.service target.organization
                ≡ some candidates)
            × (named p target.project candidates ≡ candidate ∷ [])
            × IsGranted store target caller candidate r))
unfolding resolve
resolve-IsGranted p store source qname q r ip rest h e =
    let target = (parse_internal_name p qname).0 in
    elim (Bool-cases (parse_internal_name p qname).1) [
      | inr o ↦ absurd ([]≢∷ (ap (λ x. x.answers) (some-inj (simp (o, resolve) at h)) ∙ e))
      | inl o ↦ elim (Option-cases (store.caller_by_ip source)) [
        | inl k ↦ absurd (none≢some (simp (o, k, resolve) at h))
        | inr (found, k) ↦ elim (Option-cases found) [
          | inl n ↦
              absurd ([]≢∷ (ap (λ x. x.answers) (some-inj (simp (o, k, n, resolve) at h)) ∙ e))
          | inr (caller, n) ↦
              elim (Option-cases
                (store.endpoint_candidates target.endpoint target.service target.organization)) [
                  | inl m ↦ absurd (none≢some (simp (o, k, n, m, resolve) at h))
                  | inr (cs, m) ↦
                      elim (Option-cases (select_endpoint_candidate p cs target.project)) [
                        | inl c ↦ absurd (
                            []≢∷ (
                              ap (λ x. x.answers) (some-inj (simp (o, k, n, m, c, resolve) at h))
                              ∙ e))
                        | inr (candidate, c) ↦ (
                          o,
                          (
                            caller,
                            cs,
                            candidate,
                            k ∙ ap some n,
                            m,
                            select-named p target.project cs candidate c,
                            resolve_candidate-IsGranted store target q caller candidate r ip rest
                                (simp (o, k, n, m, c, resolve) at h) e,
                          ),
                        )
                      ]
                ]
        ]
      ]
    ]
