-- ===== src/Volumes/Pinned.antt =====
-- internal/volumeops/handler.go: the server that a volume is pinned to has its file.
use kindling.Base.{
  suc, ◌⊎◌, ℕ, zero, ◌≡◌, refl, Bool, true, false, ◌||◌, Option, none, some, text_eq, codes,
  trim_space, inl, inr, Bool-cases, Option-cases,
}
use kindling.Volumes.{
  backup_object_key, update_backup_succeeded, update_backup_running, update_backup_failed,
  list_backups, find_backup, Kind, restore, move, Request, running, succeeded, Health, World,
  Answers, Uuids, degraded, Backup, update_operation, update_volume,
}
use kindling.Volumes.Handler.{
  local_volume_health, set_backup, set_object, complete_operation, fail_rows, fail_backup, find_row,
  trim_backups, is_attached,
}
use kindling.Volumes.Backups.{
  find_backup_row, run_backup, start_backup, upload_backup, fail_with_backup,
}

-- The volume is pinned to a server, which has its file.
abbrev pub HasFile : Option ℕ → (ℕ → Bool) → Type 0
HasFile server has_file = (s : ℕ) × (server ≡ some s) × (has_file s ≡ true)

-- The operation leaves the file, and brings it to its own server only.
pub record Serves (u : Uuids) (kind : Kind) (request : Option Request) (server : Option ℕ)
    : Type 0 where
  pub keeps : (req : Request) → request ≡ some req → req.delete_after ≡ false
  pub restores :
      (req : Request) (t : ℕ)
      → kind ≡ restore
      → request ≡ some req
      → u.parse (trim_space req.target_server_id) ≡ some t
      → server ≡ some t
  pub downloads :
      (req : Request) (t : ℕ)
      → kind ≡ move
      → request ≡ some req
      → text_eq req.stage (codes "download") ≡ true
      → u.parse (trim_space req.target_server_id) ≡ some t
      → server ≡ some t

abbrev pub IsPlaced : Uuids → World → Type 0
IsPlaced u w = HasFile w.vol.server_id w.has_file × Serves u w.op.kind w.op.request w.op.server_id

Count-cases : (n : ℕ) → (n ≡ 0) ⊎ ((m : ℕ) × (n ≡ suc m))
Count-cases zero = inl refl
Count-cases (suc m) = inr (m, refl)

module _ (u : Uuids) (a : Answers) where
  pub fail_rows-IsPlaced :
      (health : Option Health) (w : World) → IsPlaced u w → IsPlaced u (fail_rows a health w).0
  unfolding fail_rows
  fail_rows-IsPlaced health w p = elim (Bool-cases (a.fails update_operation)) [
    | inl h ↦ simp (h, fail_rows) p
    | inr h ↦ elim (Bool-cases (a.fails update_volume)) [
      | inl k ↦ simp (h, k, fail_rows) p
      | inr k ↦ simp (h, k, fail_rows) p
    ]
  ]

  pub complete_operation-IsPlaced :
      (w : World) → IsPlaced u w → IsPlaced u (complete_operation a w).0
  unfolding complete_operation
  complete_operation-IsPlaced w p = elim (Bool-cases (a.fails update_operation)) [
    | inl h ↦ simp (h, complete_operation) p
    | inr h ↦ elim (Bool-cases (a.fails update_volume)) [
      | inl k ↦ simp (h, k, complete_operation) p
      | inr k ↦ simp (h, k, complete_operation) p
    ]
  ]

  fail_backup-IsPlaced :
      (id : Option ℕ) (w : World) → IsPlaced u w → IsPlaced u (fail_backup a id w)
  unfolding fail_backup
  fail_backup-IsPlaced none w p = p
  fail_backup-IsPlaced (some id) w p = elim (Option-cases (find_row id w.backups)) [
    | inl k ↦ simp (k, fail_backup) p
    | inr (b, k) ↦ elim (Bool-cases (a.fails find_backup || a.fails update_backup_failed)) [
      | inl h ↦ simp (k, h, fail_backup) p
      | inr h ↦ simp (k, h, fail_backup) p
    ]
  ]

  fail_with_backup-IsPlaced :
      (health : Option Health) (id : Option ℕ) (w : World)
      → IsPlaced u w
      → IsPlaced u (fail_with_backup a health id w).0
  fail_with_backup-IsPlaced health id w p =
      fail_rows-IsPlaced health (fail_backup a id w) (fail_backup-IsPlaced id w p)

  trim_backups-IsPlaced : (w : World) → IsPlaced u w → IsPlaced u (trim_backups a w).0
  unfolding trim_backups
  trim_backups-IsPlaced w p = elim (Count-cases w.vol.backup_retention_count) [
    | inl k ↦ simp (k, trim_backups) p
    | inr (n, k) ↦ elim (Bool-cases (a.fails list_backups)) [
      | inl h ↦ simp (k, h, trim_backups) p
      | inr h ↦ simp (k, h, trim_backups) p
    ]
  ]

  module _ (self : ℕ) (req : Request) (stays : req.delete_after ≡ false) where
    upload_backup-IsPlaced :
        (id : ℕ) (w : World) → IsPlaced u w → IsPlaced u (upload_backup self a u req id w).0
    unfolding upload_backup
    upload_backup-IsPlaced id w p =
        let raw = u.parse req.backup_id in
        let w1 = record w { has_object = set_object (backup_object_key u id) true w.has_object } in
        let w2 = record w1 {
          backups = set_backup id succeeded (backup_object_key u id) w1.backups;
        } in
        elim (Bool-cases a.uploads) [
          | inr h ↦ simp (h, upload_backup) (fail_with_backup-IsPlaced (some degraded) raw w p)
          | inl h ↦ elim (Bool-cases (a.fails update_backup_succeeded)) [
            | inl k ↦
                simp (h, k, upload_backup) (fail_with_backup-IsPlaced (some degraded) raw w1 p)
            | inr k ↦ elim (Bool-cases (trim_backups a w2).1) [
              | inr t ↦
                  simp (h, k, t, upload_backup)
                    (fail_with_backup-IsPlaced (some degraded) raw (trim_backups a w2).0
                      (trim_backups-IsPlaced w2 p))
              | inl t ↦
                  simp (h, k, t, stays, upload_backup)
                    (complete_operation-IsPlaced (trim_backups a w2).0 (trim_backups-IsPlaced w2 p))
            ]
          ]
        ]

    start_backup-IsPlaced :
        (id : ℕ) (row : Backup) (w : World)
        → IsPlaced u w
        → IsPlaced u (start_backup self a u req id row w).0
    unfolding start_backup
    start_backup-IsPlaced id row w p =
        let w1 = record w { backups = set_backup id running row.storage_key w.backups } in
        elim (Bool-cases (a.fails update_backup_running)) [
          | inl h ↦ simp (h, start_backup) (fail_rows-IsPlaced none w p)
          | inr h ↦ elim (Bool-cases (local_volume_health a (w.has_file self)).1) [
            | inl k ↦
                simp (h, k, start_backup) (fail_with_backup-IsPlaced _ (u.parse req.backup_id) w1 p)
            | inr k ↦ simp (h, k, start_backup) (upload_backup-IsPlaced id w1 p)
          ]
        ]

    pub run_backup-IsPlaced : (w : World) → IsPlaced u w → IsPlaced u (run_backup self a u req w).0
    unfolding run_backup
    run_backup-IsPlaced w p = elim (Bool-cases (is_attached w.vol)) [
      | inl h ↦ simp (h, run_backup) (fail_rows-IsPlaced none w p)
      | inr h ↦ elim (Option-cases w.vol.server_id) [
        | inl k ↦ simp (h, k, run_backup) (fail_rows-IsPlaced none w p)
        | inr (s, k) ↦ elim (Option-cases (find_backup_row a u req w)) [
          | inl f ↦ simp (h, k, f, run_backup) (fail_rows-IsPlaced none w p)
          | inr ((id, row), f) ↦ simp (h, k, f, run_backup) (start_backup-IsPlaced id row w p)
        ]
      ]
    ]
