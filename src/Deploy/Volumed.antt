-- ===== src/Deploy/Volumed.antt =====
-- internal/deploy: the build and the volume of a pass leave an open circuit open.
use kindling.Base.{
  ℕ, Bool, true, false, not, ◌&&◌, ◌||◌, Option, none, some, Bool-cases, Option-cases, inl, inr,
}
use kindling.Scaling.{is_some}
use kindling.Volumes.{Volume}
use kindling.Deploy.{DeploymentRow, BuildRow, World, Env, Site}
use kindling.Deploy.Store.{◌>>=◌, pure, kept}
use kindling.Deploy.Resume.{call}
use kindling.Deploy.Placement.{
  VolumeResult, ready, unreachable, refused, is_active_server, mark_project_volume_unavailable,
  make_available, check_pinned_server, assign_volume_server, ensure_project_volume_server,
  is_unavailable,
}
use kindling.Deploy.Reconcile.{
  after_stop, update_deployment, check_build, ensure_build, release_volume, with_volume,
  resolve_project_volume, is_preview, read_build,
}
use kindling.Deploy.Halted.{Halted, Safe, Safe-bind, call-Safe, update-Safe}
use kindling.Deploy.{Env}

check_build-Safe :
    (e : Env) (id : ℕ) (dep : DeploymentRow) (build : Option BuildRow) (w : World)
    → Halted id w
    → Safe id (check_build e dep build w)
unfolding check_build
check_build-Safe e id dep none w h = h
check_build-Safe e id dep (some build) w h = elim (Bool-cases build.failed) [
  | inl f ↦
      simp (f, check_build)
        (Safe-bind id (update_deployment e Site.fail_build (λ d. record d { failed = true }))
          (λ _. pure {A = Option DeploymentRow} none) w
          (update-Safe e Site.fail_build id (λ d. record d { failed = true }) w h.0 h.1 h)
          (λ _ w' k. k))
  | inr f ↦ elim (Bool-cases (is_some build.image_id)) [
    | inl i ↦ simp (f, i, check_build) h
    | inr i ↦ simp (f, i, check_build) h
  ]
]

pub ensure_build-Safe :
    (e : Env) (id : ℕ) (dep : DeploymentRow) (w : World)
    → Halted id w
    → Safe id (ensure_build e dep w)
unfolding ensure_build
ensure_build-Safe e id dep w h = elim (Option-cases dep.build_id) [
  | inr (b, n) ↦
      simp (n, ensure_build) (check_build-Safe e id dep (read_build e Site.find_build b) w h)
  | inl n ↦
      let set =
        update_deployment e Site.set_build (λ d. record d { build_id = some e.fresh_build }) in
      simp (n, ensure_build)
        (Safe-bind id (call e Site.create_build)
          (λ _. (set >>= λ _. pure {A = Option DeploymentRow} none)) w
          (call-Safe e Site.create_build id w h)
          (λ _ w' k.
            Safe-bind id set (λ _. pure {A = Option DeploymentRow} none) w'
              (update-Safe e Site.set_build id (λ d. record d { build_id = some e.fresh_build }) w'
                k.0 k.1 k)
              (λ _ w'' q. q)))
]

mark-Halted :
    (e : Env) (id : ℕ) (w : World) → Halted id w → Halted id (mark_project_volume_unavailable e w).1
unfolding mark_project_volume_unavailable
mark-Halted e id w h = elim (Bool-cases (e.fails Site.find_unavailable)) [
  | inl f ↦ simp (f, mark_project_volume_unavailable) h
  | inr f ↦ elim (Option-cases (kept w.volume)) [
    | inl n ↦ simp (f, n, mark_project_volume_unavailable) h
    | inr (u, n) ↦ elim (Bool-cases (e.fails Site.write_unavailable)) [
      | inl g ↦ simp (f, n, g, mark_project_volume_unavailable) h
      | inr g ↦ simp (f, n, g, mark_project_volume_unavailable) h
    ]
  ]
]

ensure-Halted :
    (e : Env) (id : ℕ) (v : Volume) (w : World)
    → Halted id w
    → Halted id (ensure_project_volume_server e v w).1
unfolding ensure_project_volume_server check_pinned_server make_available assign_volume_server
ensure-Halted e id v w h = elim (Option-cases v.server_id) [
  | inr (s, n) ↦ elim (Bool-cases (is_active_server (e.server s))) [
    | inr a ↦ simp (n, a, ensure_project_volume_server, check_pinned_server) (mark-Halted e id w h)
    | inl a ↦ elim (Bool-cases (e.supports_hypervisor s)) [
      | inr b ↦
          simp (n, a, b, ensure_project_volume_server, check_pinned_server) (mark-Halted e id w h)
      | inl b ↦
          elim (Bool-cases (
            is_unavailable v.status
            && not (is_some v.attached_vm_id)
            && not (e.fails Site.set_available))) [
              | inl c ↦
                  simp
                    (n, a, b, c, ensure_project_volume_server, check_pinned_server, make_available)
                    h
              | inr c ↦
                  simp
                    (n, a, b, c, ensure_project_volume_server, check_pinned_server, make_available)
                    h
            ]
    ]
  ]
  | inl n ↦ elim (Option-cases e.volume_server) [
    | inl m ↦ simp (n, m, ensure_project_volume_server) (mark-Halted e id w h)
    | inr (s, m) ↦ elim (Bool-cases (e.fails Site.assign_volume_server)) [
      | inl f ↦ simp (n, m, f, ensure_project_volume_server, assign_volume_server) h
      | inr f ↦ elim (Bool-cases (e.fails Site.set_available)) [
        | inl g ↦ simp (n, m, f, g, ensure_project_volume_server, assign_volume_server) h
        | inr g ↦ simp (n, m, f, g, ensure_project_volume_server, assign_volume_server) h
      ]
    ]
  ]
]

stops_old-Safe : (id : ℕ) (old : Option Bool) (w : World) → Halted id w → Safe id (after_stop old w)
unfolding after_stop
stops_old-Safe id none w h = h
stops_old-Safe id (some true) w h = h
stops_old-Safe id (some false) w h = h

with_volume-Safe :
    (e : Env) (id : ℕ) (dep : DeploymentRow) (r : VolumeResult) (w : World)
    → Halted id w
    → Safe id (with_volume e dep r w)
unfolding with_volume release_volume
with_volume-Safe e id dep unreachable w h = h
with_volume-Safe e id dep refused w h = h
with_volume-Safe e id dep (ready v) w h = elim (Bool-cases (is_preview dep.kind || dep.running)) [
  | inl k ↦ simp (k, release_volume) h
  | inr k ↦ simp (k, release_volume) (stops_old-Safe id e.stops_old w h)
]

pub resolve-Safe :
    (e : Env) (id : ℕ) (dep : DeploymentRow) (v : Option Volume) (w : World)
    → Halted id w
    → Safe id (resolve_project_volume e dep v w)
unfolding resolve_project_volume
resolve-Safe e id dep none w h = h
resolve-Safe e id dep (some v) w h =
    let o = ensure_project_volume_server e v w in
    with_volume-Safe e id dep o.0 o.1 (ensure-Halted e id v w h)
