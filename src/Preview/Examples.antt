-- ===== src/Preview/Examples.antt =====
-- internal/preview: runs of the model and applications of the theorems.
use kindling.Base.{
  false, [], none, ◌∷◌, some, ◌==◌, ◌⊎◌, Option, not, ℕ, ◌≡◌, refl, true, leb, ◌+◌, ◌&&◌, Text,
  codes, if◌then◌else◌, arith,
}
use kindling.Preview.Cleanup.{
  Deployment, World, Calls, run_cleanup_once, cleanup_environment_now, due_for_cleanup, has,
}
use kindling.Preview.Cleaned.{Linked, Released, run_cleanup_once-Released}
use kindling.Preview.Expired.{has_environment, run_cleanup_once-due}
use kindling.Preview.Naming.{
  is_slug, slug_project_name, production_service_hostname, stable_hostname, immutable_hostname,
}
use kindling.Preview.Slugs.{slug_project_name-slug, IsLabel}

abbrev ascii_lower : ℕ → ℕ
ascii_lower c = if leb 65 c && leb c 90 then c + 32 else c

-- `TestProductionServiceHostname` and `TestPreviewHostnamesIncludeServiceSlug`.
production :
    production_service_hostname ascii_lower
      (codes "web-api")
      (codes "Acme Console")
      (codes "apps.kindling.test")
    ≡ codes "web-api-acme-console.apps.kindling.test"
unfolding production_service_hostname
production = refl

stable :
    stable_hostname ascii_lower 42
      (codes "web-api")
      (codes "Acme Console")
      (codes "preview.kindling.test")
    ≡ codes "pr-42-web-api-acme-console.preview.kindling.test"
unfolding stable_hostname
stable = refl

immutable :
    immutable_hostname ascii_lower
      (codes "abc12345")
      42
      (codes "web-api")
      (codes "Acme Console")
      (codes "preview.kindling.test")
    ≡ codes "abc1234-pr42-web-api-acme-console.preview.kindling.test"
unfolding immutable_hostname
immutable = refl

abbrev long_name : Text
long_name = codes "  --An Extraordinarily  Long_Project Name!, really so?"

long_name-slug :
    slug_project_name ascii_lower long_name ≡ codes "an-extraordinarily-long-project-name-rea"
unfolding slug_project_name
long_name-slug = refl

ascii_lower-slug : (c : ℕ) → is_slug c ≡ true → ascii_lower c ≡ c
ascii_lower-slug c h = ground arith

slug_project_name-slug_example :
    IsLabel (slug_project_name ascii_lower long_name)
    × (slug_project_name ascii_lower (slug_project_name ascii_lower long_name)
        ≡ slug_project_name ascii_lower long_name)
slug_project_name-slug_example = slug_project_name-slug ascii_lower long_name ascii_lower-slug

-- Two environments that are due, and the first cannot be deleted.
abbrev calls : Calls
calls = record {
  connects = true;
  locks = true;
  lists_due = true;
  lists = λ e. true;
  marks = λ e. true;
  deletes = λ e. e == 2;
  scheduler = true;
  now = 100;
}

abbrev preview_of : ℕ → Deployment
preview_of env = record {
  environment = some env;
  preview = true;
  failed = false;
  stopped = false;
  deleted = false;
}

abbrev rows : ℕ → Option Deployment
rows n = if n == 7 then some (preview_of 1) else if n == 8 then some (preview_of 2) else none

abbrev world : World
world = record {
  deployments = rows;
  ids = 7 ∷ 8 ∷ [];
  environments =
      record { id = 1; expires_at = some 50 }
      ∷ record { id = 2; expires_at = some 100 }
      ∷ record { id = 3; expires_at = none }
      ∷ [];
  scheduled = [];
}

left :
    (run_cleanup_once calls world).environments
    ≡ record { id = 1; expires_at = some 50 } ∷ record { id = 3; expires_at = none } ∷ []
unfolding run_cleanup_once cleanup_environment_now
left = refl

scheduled : (run_cleanup_once calls world).scheduled ≡ 7 ∷ 8 ∷ []
unfolding run_cleanup_once cleanup_environment_now
scheduled = refl

run_cleanup_once-Released_example :
    Linked 2 8 (run_cleanup_once calls world) ⊎ Released 8 (run_cleanup_once calls world)
run_cleanup_once-Released_example =
    run_cleanup_once-Released calls world 2 8 refl refl (preview_of 2, refl, refl, refl)

run_cleanup_once-due_example :
    has_environment 2 (run_cleanup_once calls world).environments
    ≡ has_environment 2 world.environments && not (has 2 (due_for_cleanup 100 world.environments))
run_cleanup_once-due_example =
    run_cleanup_once-due calls world 2 (refl, refl, refl) (refl, refl, refl)
