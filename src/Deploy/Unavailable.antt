-- ===== src/Deploy/Unavailable.antt =====
-- internal/deploy/project_volumes.go, `ensureProjectVolumeServer`: where a volume may be used.
use kindling.Base.{
  ℕ, ◌≡◌, refl, sym, true, not, ◌&&◌, Option, none, some, subst, Bool-cases, Option-cases, inl, inr,
}
use kindling.Scaling.{is_some}
use kindling.Volumes.{Volume, unavailable}
use kindling.Deploy.{World, Env, Site}
use kindling.Deploy.Store.{kept, detach_vm}
use kindling.Deploy.Placement.{
  VolumeResult, ready, unreachable, refused, is_active_server, mark_project_volume_unavailable,
  make_available, check_pinned_server, assign_volume_server, ensure_project_volume_server,
  is_unavailable,
}

-- The volume is on a server that can use it, its own one or else the one chosen for it.
abbrev pub Usable : Env → Option ℕ → ℕ → Type 0
Usable e none s = e.volume_server ≡ some s
Usable e (some t) s =
    (t ≡ s) × (is_active_server (e.server t) ≡ true) × (e.supports_hypervisor t ≡ true)

-- What the volume is after each answer.
abbrev pub Answered : Env → Volume → World → VolumeResult × World → Type 0
Answered e v w (ready u, w') =
    (s : ℕ) × Usable e v.server_id s
    × (u.server_id ≡ some s)
    × (w'.volume ≡ some u)
    × (u.attached_vm_id ≡ v.attached_vm_id)
Answered e v w (unreachable, w') =
    (u : Volume) × (w'.volume ≡ some u)
    × (u.status ≡ unavailable)
    × (u.attached_vm_id ≡ none)
    × (w'.vms ≡ w.vms)
    × (w'.alive ≡ w.alive)
Answered e v w (refused, w') = (w'.vms ≡ w.vms) × (w'.alive ≡ w.alive)

mark-Answered :
    (e : Env) (v : Volume) (w : World) → Answered e v w (mark_project_volume_unavailable e w)
unfolding mark_project_volume_unavailable
mark-Answered e v w = elim (Bool-cases (e.fails Site.find_unavailable)) [
  | inl f ↦ simp (f, mark_project_volume_unavailable) (refl, refl)
  | inr f ↦ elim (Option-cases (kept w.volume)) [
    | inl n ↦ simp (f, n, mark_project_volume_unavailable) (refl, refl)
    | inr (u, n) ↦ elim (Bool-cases (e.fails Site.write_unavailable)) [
      | inl g ↦ simp (f, n, g, mark_project_volume_unavailable) (refl, refl)
      | inr g ↦ elim (Option-cases u.attached_vm_id) [
        | inl a ↦
            simp (f, n, g, a, mark_project_volume_unavailable)
              (detach_vm unavailable u, refl, refl, refl, refl, refl)
        | inr (vm, a) ↦
            simp (f, n, g, a, mark_project_volume_unavailable)
              (detach_vm unavailable u, refl, refl, refl, refl, refl)
      ]
    ]
  ]
]

module _ (e : Env) (v : Volume) (s : ℕ) (w : World) (usable : Usable e v.server_id s) where
  available-Answered :
      v.server_id ≡ some s → w.volume ≡ some v → Answered e v w (make_available e v w)
  unfolding make_available
  available-Answered h k =
      elim (Bool-cases (
        is_unavailable v.status
        && not (is_some v.attached_vm_id)
        && not (e.fails Site.set_available))) [
          | inl f ↦ simp (f, make_available) (s, usable, h, refl, refl)
          | inr f ↦ simp (f, make_available) (s, usable, h, k, refl)
        ]

  assign-Answered : Answered e v w (assign_volume_server e v s w)
  unfolding assign_volume_server
  assign-Answered = elim (Bool-cases (e.fails Site.assign_volume_server)) [
    | inl f ↦ simp (f, assign_volume_server) (refl, refl)
    | inr f ↦ elim (Bool-cases (e.fails Site.set_available)) [
      | inl g ↦ simp (f, g, assign_volume_server) (refl, refl)
      | inr g ↦ simp (f, g, assign_volume_server) (s, usable, refl, refl, refl)
    ]
  ]

pinned-Answered :
    (e : Env) (v : Volume) (s : ℕ) (w : World)
    → v.server_id ≡ some s
    → w.volume ≡ some v
    → Answered e v w (check_pinned_server e v s w)
unfolding check_pinned_server
pinned-Answered e v s w h k = elim (Bool-cases (is_active_server (e.server s))) [
  | inr a ↦ simp (a, check_pinned_server) (mark-Answered e v w)
  | inl a ↦ elim (Bool-cases (e.supports_hypervisor s)) [
    | inr b ↦ simp (a, b, check_pinned_server) (mark-Answered e v w)
    | inl b ↦
        simp (a, b, check_pinned_server)
          (available-Answered e v s w (subst (λ o. Usable e o s) (sym h) (refl, a, b)) h k)
  ]
]

-- Whatever fails: if the volume may be used, it is on a server, the one that it has, which is then
-- active and a hypervisor, or else the one chosen for it, and it is attached to what it was; if it is
-- unavailable, it is marked so and attached to no machine, while no machine's row and nothing that runs
-- has changed; and an error changes neither of these.
pub ensure_project_volume_server-Answered :
    (e : Env) (v : Volume) (w : World)
    → w.volume ≡ some v
    → Answered e v w (ensure_project_volume_server e v w)
unfolding ensure_project_volume_server
ensure_project_volume_server-Answered e v w k = elim (Option-cases v.server_id) [
  | inr (s, h) ↦
      subst (Answered e v w) (sym (simp (h, ensure_project_volume_server) refl))
        (pinned-Answered e v s w h k)
  | inl h ↦ elim (Option-cases e.volume_server) [
    | inl n ↦
        subst (Answered e v w) (sym (simp (h, n, ensure_project_volume_server) refl))
          (mark-Answered e v w)
    | inr (s, n) ↦
        subst (Answered e v w) (sym (simp (h, n, ensure_project_volume_server) refl))
          (assign-Answered e v s w (subst (λ o. Usable e o s) (sym h) n))
  ]
]
