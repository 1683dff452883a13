-- ===== src/Dns/Examples.antt =====
-- The private names on a platform of ASCII, and a query that is answered.
use kindling.Base.{
  ◌≡◌, refl, true, false, none, some, List, [], ◌∷◌, ◌++◌, Text, codes, if◌then◌else◌, leb, ◌&&◌,
  ◌||◌, ◌+◌, arith, is_space, trim_space, trim_left, trim_right, is_blank,
}
use kindling.Dns.{
  Platform, IsPlatform, ends_in_dot, write_label, trim_hyphens, normalize_label, private_dns_name,
  parse_internal_name, split, has_suffix, strip_dot, parts_name,
}
use kindling.Dns.Names.{parse-private_dns_name}
use kindling.Dns.Resolver.{
  LookupStore, CallerIdentity, EndpointCandidate, Address, type_a, Resolution, success,
  match_candidates, select_endpoint_candidate, resolve_deployment, resolve_candidate, resolve,
  answer, answer_ipv4, ipv4,
}
use kindling.Dns.Grants.{IsGranted, named, resolve-IsGranted}

abbrev platform : Platform
platform = record {
  is_letter = λ c. ((leb 65 c && leb c 90) || (leb 97 c && leb c 122));
  is_digit = λ c. (leb 48 c && leb c 57);
  to_lower = λ c. (if leb 65 c && leb c 90 then c + 32 else c);
  fqdn = λ s. (if ends_in_dot s then s else s ++ 46 ∷ []);
}

platform-IsPlatform : IsPlatform platform
unfolding is_space
platform-IsPlatform = record {
  not_space = λ c h. ground arith;
  not_dot = λ c h. ground arith;
  lower_twice = λ c. ground arith;
  lower_ascii = λ c h. ground arith;
  fqdn_lem = λ s h. simp h refl;
}

parse-private_dns_name_example :
    parse_internal_name platform (
      private_dns_name platform
        (codes "Web")
        (codes "api")
        (codes " Payments  API ")
        (codes "prod")
        (codes "default"))
    ≡ (
      record {
        endpoint = normalize_label platform (codes "Web");
        service = normalize_label platform (codes "api");
        project = normalize_label platform (codes " Payments  API ");
        environment = normalize_label platform (codes "prod");
        organization = normalize_label platform (codes "default");
      },
      true,
    )
unfolding normalize_label write_label trim_hyphens trim_space trim_left trim_right is_space
parse-private_dns_name_example =
    parse-private_dns_name platform platform-IsPlatform (codes "Web") (codes "api")
      (codes " Payments  API ") (codes "prod") (codes "default") refl refl refl refl refl

label_test : normalize_label platform (codes " Payments  API_") ≡ codes "payments-api"
unfolding normalize_label write_label trim_hyphens trim_space trim_left trim_right is_space
label_test = refl

-- The suffix is tested without the dot before it.
foreign_domain_test :
    parse_internal_name platform (codes "web.api.shop.prod.acme.notkindling.internal") ≡ (
      record {
        endpoint = codes "web";
        service = codes "api";
        project = codes "shop";
        environment = codes "prod";
        organization = codes "acme";
      },
      true,
    )
unfolding parse_internal_name parts_name has_suffix strip_dot split trim_space trim_left trim_right
    is_space ends_in_dot is_blank
foreign_domain_test = refl

abbrev caller : CallerIdentity
caller = record {
  organization_id = 1;
  project_id = 2;
  env_slug = codes "prod";
  preview_environment_id = 0;
  has_preview_environment = false;
}

abbrev shop : EndpointCandidate
shop = record { service_id = 5; project_id = 2; organization_id = 1; project_name = codes "Shop" }

abbrev backend : Address
backend = record { value = 42; is4 = true }

abbrev store : LookupStore
store = record {
  caller_by_ip = λ ip. some (some caller);
  endpoint_candidates = λ e s o. some (record shop { project_name = codes "Depot" } ∷ shop ∷ []);
  preview_environments_by_project_and_pr = λ project number. some [];
  latest_running_production_deployment = λ service. some (some 9);
  latest_running_preview_deployment = λ service env. some none;
  running_backend_ips = λ d. some (backend ∷ []);
}

abbrev shop_name : Text
shop_name = codes "web.api.shop.prod.acme.kindling.internal."

abbrev resolution : Resolution
resolution = record { handled = true; rcode = success; answers = backend ∷ [] }

resolve-IsGranted_example :
    (let target = (parse_internal_name platform shop_name).0 in
      ((parse_internal_name platform shop_name).1 ≡ true)
      × ((who : CallerIdentity) × (candidates : List EndpointCandidate)
          × (candidate : EndpointCandidate) × (store.caller_by_ip backend ≡ some (some who))
          × (store.endpoint_candidates target.endpoint target.service target.organization
              ≡ some candidates)
          × (named platform target.project candidates ≡ candidate ∷ [])
          × IsGranted store target who candidate resolution))
unfolding resolve parse_internal_name parts_name has_suffix strip_dot split trim_space trim_left
    trim_right is_space ends_in_dot is_blank select_endpoint_candidate match_candidates
    normalize_label write_label trim_hyphens resolve_candidate resolve_deployment answer answer_ipv4
    ipv4
resolve-IsGranted_example =
    resolve-IsGranted platform store backend shop_name type_a resolution backend [] refl refl
