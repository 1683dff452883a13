-- ===== src/Volumes/Moved.antt =====
-- internal/rpc/project_volume_ops.go and internal/volumeops/handler.go: a move from the request to its
-- end on the target server.
use kindling.Base.{
  put, arith, ℕ, ◌≡◌, refl, sym, ap, ◌∙◌, subst, Bool, true, false, none, some, Text, trim_space,
  text_eq_iff, ◌==◌,
}
use kindling.Volumes.{
  move_object_key, detached, running, Volume, restoring, succeeded, healthy, World, Uuids, Answers,
  Statement,
}
use kindling.Volumes.Requests.{Site, post_move, ready_for_operation, select_target_server}
use kindling.Volumes.Handler.{is_attached, set_object}
use kindling.Volumes.Runs.{move_to, reconcile}
use kindling.Volumes.Accepted.{IsLawful}
use kindling.Volumes.Moving.{
  Works, move_request, sent_request, requested, uploaded, post_move-accepted, reconcile_pending,
  move_to_source, move_to_target, defaults_source, defaults_target,
}

-- The operation has succeeded and the volume is pinned to the target, which has its file; it is free
-- and healthy, the object of the move is deleted, and the backups are the same.
abbrev pub IsMoved : Uuids → ℕ → World → World → Type 0
IsMoved u target w w' =
    (w'.op.status ≡ succeeded)
    × (w'.vol.server_id ≡ some target)
    × (w'.has_file target ≡ true)
    × (w'.vol.status ≡ detached)
    × (w'.vol.health ≡ healthy)
    × (w'.has_object (move_object_key u) ≡ false)
    × (w'.backups ≡ w.backups)

put_lem : (k : ℕ) (f : ℕ → Bool) → put k true f k ≡ true
put_lem k f = ground arith

set_object_lem : (key : Text) (f : Text → Bool) → set_object key false f key ≡ false
set_object_lem key f = simp ((text_eq_iff key key).1 refl) refl

free_volume :
    (vol : Volume)
    → vol.attached_vm_id ≡ none
    → is_attached (record vol { status = restoring }) ≡ false
free_volume vol free = simp free refl

-- A request to move that finds another worker, then a call of `Reconcile` on the server that has the
-- volume and one on that worker, where nothing fails, move the volume.
pub move_lem :
    (site : Site) (u : Uuids) (w : World) (body : Text) (source target : ℕ) (here there : Answers)
    → IsLawful u
    → ready_for_operation site w ≡ none
    → w.vol.server_id ≡ some source
    → w.vol.attached_vm_id ≡ none
    → w.vol.deleted ≡ false
    → w.has_file source ≡ true
    → site.store_configured ≡ true
    → ((s : Statement) → site.fails s ≡ false)
    → select_target_server site u (trim_space body) (some source) false ≡ some target
    → target == source ≡ false
    → Works here
    → Works there
    → IsMoved u target w
        (reconcile target there u (reconcile source here u (post_move site u (some body) w).0).0).0
move_lem site u w body source target here there law ready pinned free live file store ok picked
      other runs_here runs_there =
    let w1 = requested u source target w in
    let w2 = uploaded u here source target w in
    let att = free_volume w.vol free in
    let taken : World → Answers → World =
      λ x a. record x { op = record x.op { status = running; started_at = some a.now } } in
    let e1 = post_move-accepted site u w body source target ready pinned store picked other ok in
    let e2 : (reconcile source here u w1).0 ≡ w2 =
      ap (λ r. r.0)
        (reconcile_pending u law here runs_here source target other source
            (move_request u source target) w1 live refl refl refl refl free att
          ∙ ap (λ r. move_to source here u r (taken w1 here))
              (defaults_source u law here runs_here source target other w1.vol)
          ∙ move_to_source u law here runs_here source target other (taken w1 here) file) in
    let e3 =
      reconcile_pending u law there runs_there source target other target
        (sent_request u source target) w2 live refl refl refl refl free att
      ∙ ap (λ r. move_to target there u r (taken w2 there))
          (defaults_target u law there runs_there source target other w2.vol)
      ∙ move_to_target u law there runs_there source target other (taken w2 there) in
    subst (λ x. IsMoved u target w (reconcile target there u x).0)
      (sym (ap (λ r. (reconcile source here u r.0).0) e1 ∙ e2))
      (subst (λ r. IsMoved u target w r.0) (sym e3)
        (
          refl,
          refl,
          put_lem target w.has_file,
          refl,
          refl,
          set_object_lem (move_object_key u) w2.has_object,
          refl,
        ))
