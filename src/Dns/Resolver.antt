-- ===== src/Dns/Resolver.antt =====
-- internal/workerdns/resolver.go: `Resolve` over a store.
--
-- A lookup of the store answers `none` where it fails. Identifiers are numbers; 0 is the nil UUID.
use kindling.Base.{
  negsuc, pos, ltb, ◌^◌, ◌%◌, ◌-◌, leb, ◌*◌, is_empty, ℤ, ℕ, suc, ◌==◌, ◌+◌, Bool, true, false, not,
  ◌&&◌, ◌||◌, Option, none, some, List, [], ◌∷◌, Text, text_eq, codes, if◌then◌else◌,
}
use kindling.Dns.{Platform, InternalName, normalize_label, parse_internal_name}

pub record CallerIdentity : Type 0 where
  pub organization_id : ℕ
  pub project_id : ℕ
  pub env_slug : Text
  pub preview_environment_id : ℕ
  pub has_preview_environment : Bool

pub record EndpointCandidate : Type 0 where
  pub service_id : ℕ
  pub project_id : ℕ
  pub organization_id : ℕ
  pub project_name : Text

pub record Address : Type 0 where
  pub value : ℕ
  pub is4 : Bool

-- `lookupStore`.
pub record LookupStore : Type 0 where
  pub caller_by_ip : Address → Option (Option CallerIdentity)
  pub endpoint_candidates : Text → Text → Text → Option (List EndpointCandidate)
  pub preview_environments_by_project_and_pr : ℕ → ℤ → Option (List ℕ)
  pub latest_running_production_deployment : ℕ → Option (Option ℕ)
  pub latest_running_preview_deployment : ℕ → ℕ → Option (Option ℕ)
  pub running_backend_ips : ℕ → Option (List Address)

pub data Rcode : Type 0 where
  success name_error server_failure : Rcode

pub data QueryType : Type 0 where
  type_a type_any type_aaaa type_other : QueryType

pub record Resolution : Type 0 where
  pub handled : Bool
  pub rcode : Rcode
  pub answers : List Address

abbrev pub refused : Rcode → Resolution
refused code = record { handled = true; rcode = code; answers = [] }

abbrev pub zero_candidate : EndpointCandidate
zero_candidate = record { service_id = 0; project_id = 0; organization_id = 0; project_name = [] }

-- The loop: the last candidate whose project has the name, and how many have it.
unfoldable pub match_candidates :
    Platform → Text → List EndpointCandidate → EndpointCandidate → ℕ → EndpointCandidate × ℕ
match_candidates p project [] matched n = (matched, n)
match_candidates p project (c ∷ cs) matched n =
    let hit = match_candidates p project cs c (suc n) in
    let miss = match_candidates p project cs matched n in
    if text_eq (normalize_label p c.project_name) project then hit else miss

unfoldable pub select_endpoint_candidate :
    Platform → List EndpointCandidate → Text → Option EndpointCandidate
select_endpoint_candidate p candidates project =
    let (matched, n) = match_candidates p project candidates zero_candidate 0 in
    if n == 1 then some matched else none

-- The digits of `strconv.Atoi`.
pub digits : ℕ → Text → Option ℕ
digits n [] = some n
digits n (c ∷ s) =
    let rest = digits (n * 10 + (c - 48)) s in if leb 48 c && leb c 57 then rest else none

-- `strconv.Atoi` on what is positive: an optional sign, digits, and a value of 63 bits.
pub atoi_positive : Text → Option ℕ
atoi_positive [] = none
atoi_positive (c ∷ s) =
    let digit_text = if c == 43 then s else c ∷ s in
    if is_empty digit_text then none else (elim (digits 0 digit_text) [
      | none ↦ none
      | some n ↦ if n == 0 || leb (2 ^ 63) n then none else some n
    ])

-- `int32(n)`.
pub to_int32 : ℕ → ℤ
to_int32 n = let r = n % 2 ^ 32 in if ltb r (2 ^ 31) then pos r else negsuc (2 ^ 32 - r - 1)

pub parse_preview_env_slug : Text → Option ℤ
parse_preview_env_slug (a ∷ b ∷ c ∷ raw) =
    if a == 112 && b == 114 && c == 45
    then (elim (atoi_positive raw) [ none ↦ none | some n ↦ some (to_int32 n) ])
    else none
parse_preview_env_slug short = none

-- The loop over the preview environments.
unfoldable pub find_env : ℕ → List ℕ → ℕ
find_env id [] = 0
find_env id (env ∷ envs) = if env == id then env else find_env id envs

unfoldable pub resolve_deployment :
    LookupStore → CallerIdentity → EndpointCandidate → Text → Option (Option ℕ)
resolve_deployment store caller candidate env =
    if text_eq env (codes "prod")
    then store.latest_running_production_deployment candidate.service_id
    else (elim (parse_preview_env_slug env) [
      | none ↦ some none
      | some number ↦
          if not caller.has_preview_environment
          then some none
          else (elim (store.preview_environments_by_project_and_pr candidate.project_id number) [
            | none ↦ none
            | some envs ↦
                let id = find_env caller.preview_environment_id envs in
                if id == 0
                then some none
                else store.latest_running_preview_deployment candidate.service_id id
          ])
    ])

unfoldable pub ipv4 : List Address → List Address
ipv4 [] = []
ipv4 (ip ∷ ips) = let rest = ipv4 ips in if ip.is4 then ip ∷ rest else rest

unfoldable pub answer_ipv4 : List Address → Resolution
answer_ipv4 [] = refused server_failure
answer_ipv4 (ip ∷ ips) = record { handled = true; rcode = success; answers = ip ∷ ips }

-- The answer from the addresses of the deployment's instances.
unfoldable pub answer : QueryType → List Address → Resolution
answer type_aaaa [] = refused server_failure
answer type_other [] = refused server_failure
answer type_a [] = refused server_failure
answer type_any [] = refused server_failure
answer type_aaaa (ip ∷ ips) = refused success
answer type_other (ip ∷ ips) = refused success
answer type_a (ip ∷ ips) = answer_ipv4 (ipv4 (ip ∷ ips))
answer type_any (ip ∷ ips) = answer_ipv4 (ipv4 (ip ∷ ips))

unfoldable pub resolve_candidate :
    LookupStore → InternalName → QueryType → CallerIdentity → EndpointCandidate → Option Resolution
resolve_candidate store target qtype caller candidate =
    if not (caller.organization_id == candidate.organization_id)
    then some (refused name_error)
    else if not (text_eq caller.env_slug target.environment)
    then some (refused name_error)
    else (elim (resolve_deployment store caller candidate target.environment) [
      | none ↦ none
      | some none ↦ some (refused server_failure)
      | some (some deployment) ↦ elim (store.running_backend_ips deployment) [
        | none ↦ none
        | some ips ↦ some (answer qtype ips)
      ]
    ])

unfoldable pub resolve : Platform → LookupStore → Address → Text → QueryType → Option Resolution
resolve p store source qname qtype =
    let (target, ok) = parse_internal_name p qname in
    if not ok
    then some (record { handled = false; rcode = success; answers = [] })
    else (elim (store.caller_by_ip source) [
      | none ↦ none
      | some none ↦ some (refused name_error)
      | some (some caller) ↦
          elim (store.endpoint_candidates target.endpoint target.service target.organization) [
            | none ↦ none
            | some candidates ↦ elim (select_endpoint_candidate p candidates target.project) [
              | none ↦ some (refused name_error)
              | some candidate ↦ resolve_candidate store target qtype caller candidate
            ]
          ]
    ])
