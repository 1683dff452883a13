-- ===== src/Volumes/Attached.antt =====
-- internal/volumeops/handler.go: volumes that a virtual machine holds, and calls after the end.
use kindling.Base.{
  subst, ℕ, ◌≡◌, refl, sym, ap, ◌∙◌, true, false, ◌||◌, Option, none, some, List, [], ◌∷◌,
  Bool-cases, inl, inr, ◌⊎◌,
}
use kindling.Volumes.{
  Statement, detached, unavailable, Kind, backup, restore, move, repair, Request, Status, pending,
  running, succeeded, failed, Health, Volume, World, Answers, Uuids, update_operation,
  update_volume, update_running,
}
use kindling.Volumes.Handler.{
  fail_rows, is_attached, is_stale_running, operation_server_healthy, complete_operation,
  with_op_status, next_health, next_status,
}
use kindling.Volumes.Runs.{
  run_restore, run_move, run_repair, run_kind, run_operation, is_elsewhere, is_terminal, reconcile,
}
use kindling.Volumes.Backups.{run_backup, fail_operation}
use kindling.Volumes.Calls.{run_calls}

-- The files, the objects and the backups are the same, and the volume stays where it is.
abbrev pub KeepsData : World → World → Type 0
KeepsData w w' =
    (w'.has_file ≡ w.has_file)
    × (w'.has_object ≡ w.has_object)
    × (w'.backups ≡ w.backups)
    × (w'.vol.server_id ≡ w.vol.server_id)
    × (w'.vol.attached_vm_id ≡ w.vol.attached_vm_id)

next_status-cases : (h : Health) → (next_status h ≡ detached) ⊎ (next_status h ≡ unavailable)
unfolding next_status
next_status-cases Health.unknown = inl refl
next_status-cases Health.healthy = inl refl
next_status-cases Health.degraded = inl refl
next_status-cases Health.missing = inr refl
next_status-cases Health.corrupt = inr refl

module _ (u : Uuids) (self : ℕ) (a : Answers) where
  fail_rows-KeepsData : (health : Option Health) (w : World) → KeepsData w (fail_rows a health w).0
  unfolding fail_rows
  fail_rows-KeepsData health w = elim (Bool-cases (a.fails update_operation)) [
    | inl h ↦ simp (h, fail_rows) (refl, refl, refl, refl, refl)
    | inr h ↦ elim (Bool-cases (a.fails update_volume)) [
      | inl k ↦ simp (h, k, fail_rows) (refl, refl, refl, refl, refl)
      | inr k ↦ simp (h, k, fail_rows) (refl, refl, refl, refl, refl)
    ]
  ]

  run_kind_attached :
      (k : Kind) (r : Option Request) (w : World)
      → is_attached w.vol ≡ true
      → run_kind self a u k r w ≡ fail_operation a none w
  unfolding run_kind run_backup run_restore run_move run_repair
  run_kind_attached repair r w h = simp (h, run_kind, run_repair) refl
  run_kind_attached backup none w h = refl
  run_kind_attached restore none w h = refl
  run_kind_attached move none w h = refl
  run_kind_attached backup (some req) w h = simp (h, run_kind, run_backup) refl
  run_kind_attached restore (some req) w h = simp (h, run_kind, run_restore) refl
  run_kind_attached move (some req) w h = simp (h, run_kind, run_move) refl

  run_operation_attached :
      (s : Status) (w : World)
      → is_attached w.vol ≡ true
      → KeepsData w (run_operation self a u s w).0
  unfolding run_operation
  run_operation_attached running w h =
      subst (λ r. KeepsData w r.0) (sym (run_kind_attached w.op.kind w.op.request w h))
        (fail_rows-KeepsData none w)
  run_operation_attached succeeded w h =
      subst (λ r. KeepsData w r.0) (sym (run_kind_attached w.op.kind w.op.request w h))
        (fail_rows-KeepsData none w)
  run_operation_attached failed w h =
      subst (λ r. KeepsData w r.0) (sym (run_kind_attached w.op.kind w.op.request w h))
        (fail_rows-KeepsData none w)
  run_operation_attached pending w h =
      let w1 = record w { op = record w.op { status = running; started_at = some a.now } } in
      elim (Bool-cases (a.fails update_running)) [
        | inl k ↦ simp (k, run_operation) (refl, refl, refl, refl, refl)
        | inr k ↦
            simp (k, run_operation)
              (subst (λ r. KeepsData w r.0) (sym (run_kind_attached w.op.kind w.op.request w1 h))
                (fail_rows-KeepsData none w1))
      ]

  reconcile_attached : (w : World) → is_attached w.vol ≡ true → KeepsData w (reconcile self a u w).0
  unfolding reconcile
  reconcile_attached w att = elim (Bool-cases (is_terminal w.op.status || w.vol.deleted)) [
    | inl h ↦ simp (h, reconcile) (refl, refl, refl, refl, refl)
    | inr h ↦ elim (Bool-cases (is_stale_running a w.op)) [
      | inl k ↦ simp (h, k, reconcile) (fail_rows-KeepsData none w)
      | inr k ↦ elim (Bool-cases (is_elsewhere self w.op)) [
        | inl e ↦ elim (Bool-cases (operation_server_healthy a)) [
          | inl g ↦ simp (h, k, e, g, reconcile) (refl, refl, refl, refl, refl)
          | inr g ↦ simp (h, k, e, g, reconcile) (fail_rows-KeepsData none w)
        ]
        | inr e ↦ simp (h, k, e, reconcile) (run_operation_attached w.op.status w att)
      ]
    ]
  ]

KeepsData-trans : (x y z : World) → KeepsData x y → KeepsData y z → KeepsData x z
KeepsData-trans x y z (a, b, c, d, e) (f, g, h, i, j) = (f ∙ a, g ∙ b, h ∙ c, i ∙ d, j ∙ e)

vm_attached : (vol : Volume) (vm : ℕ) → vol.attached_vm_id ≡ some vm → is_attached vol ≡ true
vm_attached vol vm h = simp h refl

-- While a virtual machine holds the volume, no call of `Reconcile` touches its file, its backups or
-- their objects, or moves it.
pub run_calls_attached :
    (u : Uuids) (calls : List (ℕ × Answers)) (w : World) (vm : ℕ)
    → w.vol.attached_vm_id ≡ some vm
    → KeepsData w (run_calls u calls w)
unfolding run_calls
run_calls_attached u [] w vm h = (refl, refl, refl, refl, refl)
run_calls_attached u ((self, a) ∷ calls) w vm h =
    let first = reconcile_attached u self a w (vm_attached w.vol vm h) in
    KeepsData-trans w (reconcile self a u w).0 (run_calls u calls (reconcile self a u w).0) first
      (run_calls_attached u calls (reconcile self a u w).0 vm (first.4 ∙ h))

-- A pending operation of the server on a volume that a virtual machine holds fails when no statement
-- does; the status of the volume then says that it is detached or unavailable, and it is still held.
pub reconcile_held :
    (u : Uuids) (self : ℕ) (a : Answers) (w : World) (vm : ℕ)
    → w.vol.attached_vm_id ≡ some vm
    → w.vol.deleted ≡ false
    → w.op.status ≡ pending
    → is_elsewhere self w.op ≡ false
    → ((s : Statement) → a.fails s ≡ false)
    → (let w' = (reconcile self a u w).0 in
        (w'.op.status ≡ failed)
        × ((w'.vol.status ≡ detached) ⊎ (w'.vol.status ≡ unavailable))
        × (w'.vol.attached_vm_id ≡ some vm))
unfolding reconcile run_operation fail_rows is_stale_running is_terminal
reconcile_held u self a w vm held live pend here runs =
    let w1 = record w { op = record w.op { status = running; started_at = some a.now } } in
    let e : reconcile self a u w ≡ run_kind self a u w.op.kind w.op.request w1 =
      simp
        (
          live,
          pend,
          here,
          runs update_running,
          reconcile,
          run_operation,
          is_stale_running,
          is_terminal,
        )
        refl in
    subst
      (λ r.
        (r.0.op.status ≡ failed)
        × ((r.0.vol.status ≡ detached) ⊎ (r.0.vol.status ≡ unavailable))
        × (r.0.vol.attached_vm_id ≡ some vm))
      (sym (e ∙ run_kind_attached u self a w.op.kind w.op.request w1 (vm_attached w.vol vm held)))
      (simp (runs update_operation, runs update_volume, fail_rows)
        (refl, next_status-cases (next_health none w.vol.health), held))

reconcile_terminal :
    (u : Uuids) (self : ℕ) (a : Answers) (w : World)
    → is_terminal w.op.status ≡ true
    → (reconcile self a u w).0 ≡ w
unfolding reconcile
reconcile_terminal u self a w h = simp (h, reconcile) refl

-- After the end of the operation no call of `Reconcile` changes anything.
run_calls_terminal :
    (u : Uuids) (calls : List (ℕ × Answers)) (w : World)
    → is_terminal w.op.status ≡ true
    → run_calls u calls w ≡ w
unfolding run_calls
run_calls_terminal u [] w h = refl
run_calls_terminal u ((self, a) ∷ calls) w h =
    ap (run_calls u calls) (reconcile_terminal u self a w h) ∙ run_calls_terminal u calls w h

-- Where the operation's row is written and the volume's is not, the call answers an error, and no later
-- call brings the volume out of its status.
pub unfinished :
    (u : Uuids) (a : Answers) (w : World) (health : Option Health) (calls : List (ℕ × Answers))
    → a.fails update_operation ≡ false
    → a.fails update_volume ≡ true
    → ((complete_operation a w).1 ≡ false)
      × (run_calls u calls (complete_operation a w).0 ≡ with_op_status succeeded w)
      × ((fail_rows a health w).1 ≡ false)
      × (run_calls u calls (fail_rows a health w).0 ≡ with_op_status failed w)
unfolding complete_operation fail_rows is_terminal
unfinished u a w health calls ok bad = (
  simp (ok, bad, complete_operation) refl,
  simp (ok, bad, complete_operation) (run_calls_terminal u calls (with_op_status succeeded w) refl),
  simp (ok, bad, fail_rows) refl,
  simp (ok, bad, fail_rows) (run_calls_terminal u calls (with_op_status failed w) refl),
)
