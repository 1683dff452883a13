-- ===== src/Volumes/Accepted.antt =====
-- internal/rpc/project_volume_ops.go: an accepted request leaves the volume placed for `Reconcile`.
use kindling.Base.{
  false≢true, some-inj, is_blank, ℕ, ◌≡◌, refl, sym, ap, ◌∙◌, subst, true, false, Option, some,
  Text, Bool-cases, Option-cases, inl, inr, trim_space, codes, text_eq, ◌==◌,
}
use kindling.Volumes.{
  VolumeStatus, Kind, backup, restore, move, repair, Request, World, Uuids, create_operation,
  update_volume, create_backup, find_backup,
}
use kindling.Volumes.Requests.{
  Site, Refusal, enqueue_operation, post_backup, post_restore, post_move, post_repair,
  ready_for_operation, restore_backup, move_volume, select_target_server,
}
use kindling.Volumes.Handler.{find_row}
use kindling.Volumes.Pinned.{IsPlaced, Serves}

-- The documented law of `uuid.Parse` and `String`: what is printed is parsed again, is not
-- empty, and has no space around.
pub record IsLawful (u : Uuids) : Type 0 where
  pub parse-text : (id : ℕ) → u.parse (u.text id) ≡ some id
  pub trim_text : (id : ℕ) → trim_space (u.text id) ≡ u.text id
  pub text_full : (id : ℕ) → is_blank (u.text id) ≡ false

restore≢move : ¬ (restore ≡ move)
restore≢move e = cc

backup≢restore : ¬ (backup ≡ restore)
backup≢restore e = cc

repair≢restore : ¬ (repair ≡ restore)
repair≢restore e = cc

module _ (site : Site) (u : Uuids) where
  refused : (w : World) (r : World × Option Refusal) → r.0 ≡ w → IsPlaced u w → IsPlaced u r.0
  refused w r e p = subst (IsPlaced u) (sym e) p

  enqueue_operation-IsPlaced :
      (server : Option ℕ) (kind : Kind) (req : Request) (status : VolumeStatus) (w : World)
      → Serves u kind (some req) server
      → IsPlaced u w
      → IsPlaced u (enqueue_operation site server kind req status w).0
  unfolding enqueue_operation
  enqueue_operation-IsPlaced server kind req status w serves p =
      elim (Bool-cases (site.fails create_operation)) [
        | inl h ↦ simp (h, enqueue_operation) p
        | inr h ↦ elim (Bool-cases (site.fails update_volume)) [
          | inl k ↦ simp (h, k, enqueue_operation) (p.0, serves)
          | inr k ↦ simp (h, k, enqueue_operation) (p.0, serves)
        ]
      ]

  serves :
      (kind : Kind) (req : Request) (server : Option ℕ)
      → req.delete_after ≡ false
      → text_eq req.stage (codes "download") ≡ false
      → ((t : ℕ)
          → kind ≡ restore
          → u.parse (trim_space req.target_server_id) ≡ some t
          → server ≡ some t)
      → Serves u kind (some req) server
  serves kind req server stays up to = record {
    keeps = λ r e. (sym (ap (λ q. q.delete_after) (some-inj e)) ∙ stays);
    restores =
        λ r t k e q. to t k (ap (λ q. u.parse (trim_space q.target_server_id)) (some-inj e) ∙ q);
    downloads = λ r t _ e down q.
        absurd
          (false≢true (sym up ∙ ap (λ q. text_eq q.stage (codes "download")) (some-inj e) ∙ down));
  }

  pub post_backup-IsPlaced : (w : World) → IsPlaced u w → IsPlaced u (post_backup site u w).0
  unfolding post_backup
  post_backup-IsPlaced w p = elim (Option-cases (ready_for_operation site w)) [
    | inr (refusal, h) ↦ simp (h, post_backup) p
    | inl h ↦ elim (Option-cases w.vol.server_id) [
      | inl k ↦ refused w (post_backup site u w) (simp (h, k, post_backup) refl) p
      | inr (server, k) ↦ elim (Bool-cases site.store_configured) [
        | inr c ↦ refused w (post_backup site u w) (simp (h, k, c, post_backup) refl) p
        | inl c ↦ elim (Bool-cases (site.fails create_backup)) [
          | inl f ↦ refused w (post_backup site u w) (simp (h, k, c, f, post_backup) refl) p
          | inr f ↦
              simp (h, k, c, f, post_backup)
                (enqueue_operation-IsPlaced (some server) backup _ _ _
                  (serves backup _ (some server) refl refl (λ t e. absurd (backup≢restore e))) p)
        ]
      ]
    ]
  ]

  pub post_repair-IsPlaced : (w : World) → IsPlaced u w → IsPlaced u (post_repair site u w).0
  unfolding post_repair
  post_repair-IsPlaced w p = elim (Option-cases (ready_for_operation site w)) [
    | inr (refusal, h) ↦ simp (h, post_repair) p
    | inl h ↦ elim (Option-cases w.vol.server_id) [
      | inl k ↦ refused w (post_repair site u w) (simp (h, k, post_repair) refl) p
      | inr (server, k) ↦
          simp (h, k, post_repair)
            (enqueue_operation-IsPlaced (some server) repair _ _ _
              (serves repair _ (some server) refl refl (λ t e. absurd (repair≢restore e))) p)
    ]
  ]

  module _ (law : IsLawful u) where
    restore_backup-IsPlaced :
        (backup_id target : Text) (w : World)
        → IsPlaced u w
        → IsPlaced u (restore_backup site u backup_id target w).0
    unfolding restore_backup
    restore_backup-IsPlaced backup_id target w p =
        elim (Option-cases (u.parse (trim_space backup_id))) [
          | inl h ↦ simp (h, restore_backup) p
          | inr (id, h) ↦ elim (Bool-cases (site.fails find_backup)) [
            | inl f ↦ simp (h, f, restore_backup) p
            | inr f ↦ elim (Option-cases (find_row id w.backups)) [
              | inl r ↦ simp (h, f, r, restore_backup) p
              | inr (row, r) ↦
                  elim (Option-cases
                    (select_target_server site u (trim_space target) w.vol.server_id true)) [
                      | inl s ↦ simp (h, f, r, s, restore_backup) p
                      | inr (server, s) ↦
                          simp (h, f, r, s, restore_backup)
                            (enqueue_operation-IsPlaced (some server) restore _ _ _
                              (serves restore _ (some server) refl refl (λ t _ q.
                                (sym (ap u.parse (law.trim_text server) ∙ law.parse-text server)
                                  ∙ q)))
                              p)
                    ]
            ]
          ]
        ]

    pub post_restore-IsPlaced :
        (body : Option (Text × Text)) (w : World)
        → IsPlaced u w
        → IsPlaced u (post_restore site u body w).0
    unfolding post_restore
    post_restore-IsPlaced body w p = elim (Option-cases (ready_for_operation site w)) [
      | inr (refusal, h) ↦ simp (h, post_restore) p
      | inl h ↦ elim (Bool-cases site.store_configured) [
        | inr c ↦ simp (h, c, post_restore) p
        | inl c ↦ elim (Option-cases body) [
          | inl b ↦ simp (h, c, b, post_restore) p
          | inr ((backup_id, target), b) ↦
              simp (h, c, b, post_restore) (restore_backup-IsPlaced backup_id target w p)
        ]
      ]
    ]

  move_volume-IsPlaced :
      (target : Text) (source : ℕ) (w : World)
      → IsPlaced u w
      → IsPlaced u (move_volume site u target source w).0
  unfolding move_volume
  move_volume-IsPlaced target source w p =
      elim (Option-cases (select_target_server site u (trim_space target) (some source) false)) [
        | inl h ↦ simp (h, move_volume) p
        | inr (server, h) ↦ elim (Bool-cases (server == source)) [
          | inl k ↦ simp (h, k, move_volume) p
          | inr k ↦
              simp (h, k, move_volume)
                (enqueue_operation-IsPlaced (some source) move _ _ _
                  (serves move _ (some source) refl refl (λ t e. absurd (restore≢move (sym e)))) p)
        ]
      ]

  pub post_move-IsPlaced :
      (body : Option Text) (w : World) → IsPlaced u w → IsPlaced u (post_move site u body w).0
  unfolding post_move
  post_move-IsPlaced body w p = elim (Option-cases (ready_for_operation site w)) [
    | inr (refusal, h) ↦ simp (h, post_move) p
    | inl h ↦ elim (Option-cases w.vol.server_id) [
      | inl k ↦ refused w (post_move site u body w) (simp (h, k, post_move) refl) p
      | inr (source, k) ↦ elim (Bool-cases site.store_configured) [
        | inr c ↦ refused w (post_move site u body w) (simp (h, k, c, post_move) refl) p
        | inl c ↦ elim (Option-cases body) [
          | inl b ↦ refused w (post_move site u body w) (simp (h, k, c, b, post_move) refl) p
          | inr (target, b) ↦ simp (h, k, c, b, post_move) (move_volume-IsPlaced target source w p)
        ]
      ]
    ]
  ]
