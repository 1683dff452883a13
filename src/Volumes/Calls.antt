-- ===== src/Volumes/Calls.antt =====
-- internal/volumeops/handler.go: `Reconcile` keeps the volume where its file is; any number of its calls.
use kindling.Base.{
  some-inj, none≢some, arith, ℕ, ◌≡◌, refl, true, false, not, ◌||◌, Option, none, some, [], ◌∷◌,
  List, text_eq, codes, is_blank, ◌==◌, inl, inr, Bool-cases,
}
use kindling.Volumes.{
  Operation, Kind, backup, restore, move, repair, Request, Status, pending, running, succeeded,
  failed, Volume, World, Answers, Uuids, update_running,
}
use kindling.Volumes.Handler.{is_attached, is_stale_running, operation_server_healthy}
use kindling.Volumes.Runs.{
  move_defaults, run_move, run_kind, run_operation, is_elsewhere, is_terminal, reconcile,
}
use kindling.Volumes.Pinned.{IsPlaced, fail_rows-IsPlaced, run_backup-IsPlaced}
use kindling.Volumes.Placed.{IsHere, run_restore-IsPlaced, run_repair-IsPlaced, move_to-IsPlaced}

upload≢download : ¬ (text_eq (codes "upload") (codes "download") ≡ true)
upload≢download e = cc

same : {x y self : ℕ} → not (x == self) ≡ false → x ≡ y → y ≡ self
same h e = ground arith

module _ (u : Uuids) (a : Answers) (self : ℕ) where
  -- A blank stage is none of a download.
  default_stage :
      (vol : Volume) (req : Request)
      → text_eq (move_defaults u vol req).stage (codes "download") ≡ true
      → text_eq req.stage (codes "download") ≡ true
  unfolding move_defaults
  default_stage vol req e = elim (Bool-cases (is_blank req.stage)) [
    | inl h ↦ absurd (upload≢download ((simp (h, move_defaults) at e)))
    | inr h ↦ (simp (h, move_defaults) at e)
  ]

  run_kind-IsPlaced :
      (w : World)
      → IsHere self w.op.server_id
      → IsPlaced u w
      → IsPlaced u (run_kind self a u w.op.kind w.op.request w).0
  unfolding run_kind run_move move_defaults
  run_kind-IsPlaced w here p = run w.op.kind w.op.request refl refl
    where
      run :
          (k : Kind) (r : Option Request)
          → w.op.kind ≡ k
          → w.op.request ≡ r
          → IsPlaced u (run_kind self a u k r w).0
      run repair r k e = run_repair-IsPlaced u a self w p
      run backup none k e = fail_rows-IsPlaced u a none w p
      run restore none k e = fail_rows-IsPlaced u a none w p
      run move none k e = fail_rows-IsPlaced u a none w p
      run backup (some req) k e = run_backup-IsPlaced u a self req (p.1.keeps req e) w p
      run restore (some req) k e = run_restore-IsPlaced u a self req w k e here p
      run move (some req) k e = elim (Bool-cases (is_attached w.vol)) [
        | inl h ↦ simp (h, run_kind, run_move) (fail_rows-IsPlaced u a none w p)
        | inr h ↦
            simp (h, run_kind, run_move)
              (move_to-IsPlaced u a self (move_defaults u w.vol req) w k (p.1.keeps req e)
                (λ t down q. here t (p.1.downloads req t k e (default_stage w.vol req down) q)) p)
      ]

  is_here :
      (server : Option ℕ) (op : Operation)
      → op.server_id ≡ server
      → is_elsewhere self op ≡ false
      → IsHere self server
  unfolding is_elsewhere
  is_here none op e h t q = absurd (none≢some q)
  is_here (some s) op e h t q = same (simp (e, is_elsewhere) at h) (some-inj q)

  run_operation-IsPlaced :
      (s : Status) (w : World)
      → IsHere self w.op.server_id
      → IsPlaced u w
      → IsPlaced u (run_operation self a u s w).0
  unfolding run_operation
  run_operation-IsPlaced running w here p = run_kind-IsPlaced w here p
  run_operation-IsPlaced succeeded w here p = run_kind-IsPlaced w here p
  run_operation-IsPlaced failed w here p = run_kind-IsPlaced w here p
  run_operation-IsPlaced pending w here p = elim (Bool-cases (a.fails update_running)) [
    | inl h ↦ simp (h, run_operation) p
    | inr h ↦
        simp (h, run_operation)
          (run_kind-IsPlaced
            (record w { op = record w.op { status = running; started_at = some a.now } }) here p)
  ]

  -- A call of `Reconcile` on any server keeps the volume pinned to a server with its file.
  pub reconcile-IsPlaced : (w : World) → IsPlaced u w → IsPlaced u (reconcile self a u w).0
  unfolding reconcile
  reconcile-IsPlaced w p = elim (Bool-cases (is_terminal w.op.status || w.vol.deleted)) [
    | inl h ↦ simp (h, reconcile) p
    | inr h ↦ elim (Bool-cases (is_stale_running a w.op)) [
      | inl k ↦ simp (h, k, reconcile) (fail_rows-IsPlaced u a none w p)
      | inr k ↦ elim (Bool-cases (is_elsewhere self w.op)) [
        | inl e ↦ elim (Bool-cases (operation_server_healthy a)) [
          | inl g ↦ simp (h, k, e, g, reconcile) p
          | inr g ↦ simp (h, k, e, g, reconcile) (fail_rows-IsPlaced u a none w p)
        ]
        | inr e ↦
            simp (h, k, e, reconcile)
              (run_operation-IsPlaced w.op.status w (is_here w.op.server_id w.op refl e) p)
      ]
    ]
  ]

-- The calls on the servers, with what the environment answers to each.
unfoldable pub run_calls : Uuids → List (ℕ × Answers) → World → World
run_calls u [] w = w
run_calls u ((self, a) ∷ calls) w = run_calls u calls (reconcile self a u w).0
