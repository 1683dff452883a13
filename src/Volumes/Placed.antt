-- ===== src/Volumes/Placed.antt =====
-- internal/volumeops/handler.go: restoring, moving and repairing keep the volume where its file is.
use kindling.Base.{
  some-inj, arith, ℕ, ◌≡◌, refl, sym, subst, ap, ◌∙◌, Bool, true, false, not, ◌&&◌, ◌||◌, Option,
  none, some, Text, text_eq, codes, is_blank, trim_space, put, inl, inr, Bool-cases, Option-cases,
}
use kindling.Volumes.{
  restore, move, Request, World, Answers, Uuids, degraded, missing, corrupt, update_operation,
  assign_server,
}
use kindling.Volumes.Handler.{set_object, is_attached, local_volume_health}
use kindling.Volumes.Backups.{find_backup_row}
use kindling.Volumes.Runs.{
  pin_volume, restore_file, run_restore, move_upload, move_download, move_stage, move_to,
  run_repair, is_succeeded,
}
use kindling.Volumes.Pinned.{HasFile, IsPlaced, fail_rows-IsPlaced, complete_operation-IsPlaced}

-- The operation is this server's.
abbrev pub IsHere : ℕ → Option ℕ → Type 0
IsHere self server = (t : ℕ) → server ≡ some t → t ≡ self

HasFile-put :
    (self : ℕ) (server : Option ℕ) (f : ℕ → Bool)
    → HasFile server f
    → HasFile server (put self true f)
HasFile-put self server f (s, e, h) = (s, e, ground arith)

put_lem : (self : ℕ) (f : ℕ → Bool) → put self true f self ≡ true
put_lem self f = ground arith

move≢restore : ¬ (move ≡ restore)
move≢restore e = cc

module _ (u : Uuids) (a : Answers) (self : ℕ) where
  pin_volume-IsPlaced :
      (target : ℕ) (w : World)
      → IsPlaced u w
      → w.has_file target ≡ true
      → IsPlaced u (pin_volume a target w).0
  unfolding pin_volume
  pin_volume-IsPlaced target w p has = elim (Bool-cases (a.fails assign_server)) [
    | inl h ↦ simp (h, pin_volume) (fail_rows-IsPlaced u a (some degraded) w p)
    | inr h ↦
        simp (h, pin_volume)
          (complete_operation-IsPlaced u a
            (record w { vol = record w.vol { server_id = some target } })
            ((target, refl, has), p.1))
  ]

  -- The file comes to `self`, which is the target.
  arrive :
      (w : World) (objects : Text → Bool) (target : ℕ)
      → target ≡ self
      → IsPlaced u w
      → IsPlaced u
          (pin_volume a target
            (record w { has_file = put self true w.has_file; has_object = objects })).0
  arrive w objects target e p =
      pin_volume-IsPlaced target
        (record w { has_file = put self true w.has_file; has_object = objects })
        (HasFile-put self w.vol.server_id w.has_file p.0, p.1)
        (subst (λ t. put self true w.has_file t ≡ true) (sym e) (put_lem self w.has_file))

  restore_file-IsPlaced :
      (key : Text) (target : ℕ) (w : World)
      → target ≡ self
      → IsPlaced u w
      → IsPlaced u (restore_file self a key target w).0
  unfolding restore_file
  restore_file-IsPlaced key target w e p = elim (Bool-cases (is_blank key || not a.downloads)) [
    | inl h ↦ simp (h, restore_file) (fail_rows-IsPlaced u a (some degraded) w p)
    | inr h ↦ simp (h, restore_file) (arrive w w.has_object target e p)
  ]

  pub run_restore-IsPlaced :
      (req : Request) (w : World)
      → w.op.kind ≡ restore
      → w.op.request ≡ some req
      → IsHere self w.op.server_id
      → IsPlaced u w
      → IsPlaced u (run_restore self a u req w).0
  unfolding run_restore
  run_restore-IsPlaced req w kd rq here p = elim (Bool-cases (is_attached w.vol)) [
    | inl h ↦ simp (h, run_restore) (fail_rows-IsPlaced u a none w p)
    | inr h ↦ elim (Option-cases (u.parse (trim_space req.target_server_id))) [
      | inl k ↦ simp (h, k, run_restore) (fail_rows-IsPlaced u a none w p)
      | inr (target, k) ↦ elim (Option-cases (find_backup_row a u req w)) [
        | inl f ↦ simp (h, k, f, run_restore) (fail_rows-IsPlaced u a none w p)
        | inr ((id, row), f) ↦
            elim (Bool-cases (not (is_succeeded row.status) || is_blank row.storage_key)) [
              | inl b ↦ simp (h, k, f, b, run_restore) (fail_rows-IsPlaced u a none w p)
              | inr b ↦
                  simp (h, k, f, b, run_restore)
                    (restore_file-IsPlaced row.storage_key target w
                      (here target (p.1.restores req target kd rq k)) p)
            ]
      ]
    ]
  ]

  pub run_repair-IsPlaced : (w : World) → IsPlaced u w → IsPlaced u (run_repair self a w).0
  unfolding run_repair
  run_repair-IsPlaced w p = elim (Bool-cases (is_attached w.vol)) [
    | inl h ↦ simp (h, run_repair) (fail_rows-IsPlaced u a none w p)
    | inr h ↦ elim (Bool-cases (not (w.has_file self) && not a.stat_fails)) [
      | inl k ↦ simp (h, k, run_repair) (fail_rows-IsPlaced u a (some missing) w p)
      | inr k ↦ elim (Bool-cases a.check_succeeds) [
        | inr c ↦ simp (h, k, c, run_repair) (fail_rows-IsPlaced u a (some corrupt) w p)
        | inl c ↦ simp (h, k, c, run_repair) (complete_operation-IsPlaced u a w p)
      ]
    ]
  ]

  move_upload-IsPlaced :
      (req : Request) (target : ℕ) (w : World)
      → w.op.kind ≡ move
      → req.delete_after ≡ false
      → u.parse (trim_space req.target_server_id) ≡ some target
      → IsPlaced u w
      → IsPlaced u (move_upload self a u req target w).0
  unfolding move_upload
  move_upload-IsPlaced req target w kd stays parsed p =
      elim (Bool-cases (local_volume_health a (w.has_file self)).1) [
        | inl h ↦ simp (h, move_upload) (fail_rows-IsPlaced u a _ w p)
        | inr h ↦ elim (Bool-cases a.uploads) [
          | inr k ↦ simp (h, k, move_upload) (fail_rows-IsPlaced u a (some degraded) w p)
          | inl k ↦ elim (Bool-cases (a.fails update_operation)) [
            | inl f ↦ simp (h, k, f, move_upload) p
            | inr f ↦
                simp (h, k, f, move_upload)
                  (
                    p.0,
                    record {
                      keeps = λ r e. (sym (ap (λ q. q.delete_after) (some-inj e)) ∙ stays);
                      restores = λ r t e. absurd (move≢restore (sym kd ∙ e));
                      downloads = λ r t _ e _ q.
                          (sym parsed
                            ∙ ap (λ q. u.parse (trim_space q.target_server_id)) (some-inj e)
                            ∙ q);
                    },
                  )
          ]
        ]
      ]

  move_download-IsPlaced :
      (req : Request) (target : ℕ) (w : World)
      → target ≡ self
      → IsPlaced u w
      → IsPlaced u (move_download self a req target w).0
  unfolding move_download
  move_download-IsPlaced req target w e p =
      let w1 = record w { has_file = put self true w.has_file } in
      elim (Bool-cases (is_blank req.storage_key || not a.downloads)) [
        | inl h ↦ simp (h, move_download) (fail_rows-IsPlaced u a (some degraded) w p)
        | inr h ↦ elim (Bool-cases (a.deletes_object req.storage_key)) [
          | inr k ↦
              simp (h, k, move_download)
                (fail_rows-IsPlaced u a (some degraded) w1
                  (HasFile-put self w.vol.server_id w.has_file p.0, p.1))
          | inl k ↦
              simp (h, k, move_download)
                (arrive w (set_object req.storage_key false w.has_object) target e p)
        ]
      ]

  pub move_to-IsPlaced :
      (req : Request) (w : World)
      → w.op.kind ≡ move
      → req.delete_after ≡ false
      → ((t : ℕ)
          → text_eq req.stage (codes "download") ≡ true
          → u.parse (trim_space req.target_server_id) ≡ some t
          → t ≡ self)
      → IsPlaced u w
      → IsPlaced u (move_to self a u req w).0
  unfolding move_to move_stage
  move_to-IsPlaced req w kd stays here p =
      elim (Option-cases (u.parse (trim_space req.target_server_id))) [
        | inl k ↦ simp (k, move_to) (fail_rows-IsPlaced u a none w p)
        | inr (target, k) ↦
            elim (Bool-cases
              (text_eq (trim_space req.source_server_id) (u.text target) || not a.store_ready)) [
                | inl h ↦ simp (k, h, move_to) (fail_rows-IsPlaced u a none w p)
                | inr h ↦ elim (Bool-cases (text_eq req.stage (codes "upload"))) [
                  | inl up ↦
                      simp (k, h, up, move_to, move_stage)
                        (move_upload-IsPlaced req target w kd stays k p)
                  | inr up ↦ elim (Bool-cases (text_eq req.stage (codes "download"))) [
                    | inl down ↦
                        simp (k, h, up, down, move_to, move_stage)
                          (move_download-IsPlaced req target w (here target down k) p)
                    | inr down ↦
                        simp (k, h, up, down, move_to, move_stage) (fail_rows-IsPlaced u a none w p)
                  ]
                ]
              ]
      ]
