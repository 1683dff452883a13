-- ===== src/Volumes/Moving.antt =====
-- internal/rpc/project_volume_ops.go and internal/volumeops/handler.go: the stages of a move where
-- nothing fails.
use kindling.Base.{
  is_space, trim_right, trim_left, some-inj, put, arith, ==_refl, ℕ, ◌≡◌, refl, sym, ap, ◌∙◌, true,
  false, none, some, Text, Bool-cases, inl, inr, trim_space, codes, text_eq, text_eq_iff, ◌==◌,
  is_blank,
}
use kindling.Volumes.{
  move_object_key, assign_server, detached, running, Volume, update_operation, restoring, pending,
  succeeded, healthy, move, Request, World, Uuids, Answers, Statement, create_operation,
  update_volume, update_running,
}
use kindling.Volumes.Requests.{
  Site, enqueue_operation, post_move, ready_for_operation, move_volume, select_target_server,
  empty_request,
}
use kindling.Volumes.Handler.{
  with_op_status, is_attached, set_object, is_stale_running, local_volume_health,
  complete_operation, with_volume,
}
use kindling.Volumes.Runs.{
  pin_volume, move_upload, move_download, move_defaults, move_stage, move_to, run_move, run_kind,
  run_operation, is_elsewhere, is_terminal, reconcile,
}
use kindling.Volumes.Accepted.{IsLawful}

-- Nothing that the server calls fails.
pub record Works (a : Answers) : Type 0 where
  pub statements : (s : Statement) → a.fails s ≡ false
  pub store : a.store_ready ≡ true
  pub uploads : a.uploads ≡ true
  pub downloads : a.downloads ≡ true
  pub deletes : (key : Text) → a.deletes_object key ≡ true
  pub stat : a.stat_fails ≡ false
  pub info : a.info_succeeds ≡ true

abbrev pub move_request : Uuids → ℕ → ℕ → Request
move_request u source target = record empty_request {
  target_server_id = u.text target;
  source_server_id = u.text source;
  stage = codes "upload";
}

-- The request as it stands between the servers.
abbrev pub sent_request : Uuids → ℕ → ℕ → Request
sent_request u source target = record (move_request u source target) {
  stage = codes "download";
  storage_key = (move_object_key u);
}

-- The world after the request, after the source and after the target.
abbrev pub requested : Uuids → ℕ → ℕ → World → World
requested u source target w = with_volume restoring w.vol.health (record w {
  op = record {
    server_id = some source;
    kind = move;
    status = pending;
    request = some (move_request u source target);
    started_at = none;
  };
})

pub post_move-accepted :
    (site : Site) (u : Uuids) (w : World) (body : Text) (source target : ℕ)
    → ready_for_operation site w ≡ none
    → w.vol.server_id ≡ some source
    → site.store_configured ≡ true
    → select_target_server site u (trim_space body) (some source) false ≡ some target
    → target == source ≡ false
    → ((s : Statement) → site.fails s ≡ false)
    → post_move site u (some body) w ≡ (requested u source target w, none)
unfolding post_move move_volume enqueue_operation
post_move-accepted site u w body source target ready pinned store picked other ok =
    simp
      (
        ready,
        pinned,
        store,
        picked,
        other,
        ok create_operation,
        ok update_volume,
        post_move,
        move_volume,
        enqueue_operation,
      )
      refl

abbrev pub uploaded : Uuids → Answers → ℕ → ℕ → World → World
uploaded u a source target w =
    let w1 = requested u source target w in
    record w1 {
      has_object = set_object (move_object_key u) true w.has_object;
      op = record {
        server_id = some target;
        kind = move;
        status = pending;
        request = some (sent_request u source target);
        started_at = some a.now;
      };
    }

key_full : (u : Uuids) → is_blank (move_object_key u) ≡ false
unfolding is_blank trim_space trim_left trim_right is_space
key_full u = refl

module _ (u : Uuids) (law : IsLawful u) where
  parse-trim_text : (id : ℕ) → u.parse (trim_space (u.text id)) ≡ some id
  parse-trim_text id = ap u.parse (law.trim_text id) ∙ law.parse-text id

  other_text :
      (source target : ℕ)
      → target == source ≡ false
      → text_eq (trim_space (u.text source)) (u.text target) ≡ false
  other_text source target h =
      elim (Bool-cases (text_eq (trim_space (u.text source)) (u.text target))) [
        | inr e ↦ e
        | inl e ↦
            let same : u.text source ≡ u.text target =
              sym (law.trim_text source) ∙ (text_eq_iff _ _).0 e in
            let q =
              some-inj (sym (law.parse-text source) ∙ ap u.parse same ∙ law.parse-text target) in
            ground arith
      ]

  module _ (a : Answers) (works : Works a) (source target : ℕ)
      (other : target == source ≡ false) where
    pub defaults_source :
        (vol : Volume)
        → move_defaults u vol (move_request u source target) ≡ move_request u source target
    unfolding move_defaults is_blank trim_space
    defaults_source vol = simp (law.text_full source, move_defaults) refl

    pub defaults_target :
        (vol : Volume)
        → move_defaults u vol (sent_request u source target) ≡ sent_request u source target
    unfolding move_defaults is_blank trim_space
    defaults_target vol = simp (law.text_full source, move_defaults) refl

    -- The operation is taken up by its server.
    pub reconcile_pending :
        (self : ℕ) (req : Request) (w : World)
        → w.vol.deleted ≡ false
        → w.op.server_id ≡ some self
        → w.op.kind ≡ move
        → w.op.status ≡ pending
        → w.op.request ≡ some req
        → w.vol.attached_vm_id ≡ none
        → is_attached w.vol ≡ false
        → reconcile self a u w
          ≡ move_to self a u
              (move_defaults u w.vol req)
              (record w { op = record w.op { status = running; started_at = some a.now } })
    unfolding reconcile is_terminal is_stale_running is_elsewhere run_operation run_kind run_move
    reconcile_pending self req w live server kd pend rq free att =
        simp
          (
            live,
            server,
            kd,
            pend,
            rq,
            att,
            ==_refl self,
            works.statements update_running,
            reconcile,
            is_terminal,
            is_stale_running,
            is_elsewhere,
            run_operation,
            run_kind,
            run_move,
          )
          refl

    pub move_to_source :
        (w : World)
        → w.has_file source ≡ true
        → move_to source a u (move_request u source target) w ≡ (
          record w {
            has_object = set_object (move_object_key u) true w.has_object;
            op = record w.op {
              server_id = some target;
              status = pending;
              request = some (sent_request u source target);
            };
          },
          true,
        )
    unfolding move_to move_stage move_upload local_volume_health is_blank trim_space
    move_to_source w file =
        simp
          (
            parse-trim_text target,
            other_text source target other,
            works.store,
            file,
            works.uploads,
            works.stat,
            works.info,
            works.statements update_operation,
            move_to,
            move_stage,
            move_upload,
            local_volume_health,
          )
          refl

    pub move_to_target :
        (w : World)
        → move_to target a u (sent_request u source target) w ≡ (
          with_volume detached healthy (
              with_op_status succeeded (record w {
                has_file = put target true w.has_file;
                has_object = set_object (move_object_key u) false w.has_object;
                vol = record w.vol { server_id = some target };
              })),
          true,
        )
    unfolding move_to move_stage move_download pin_volume complete_operation
    move_to_target w =
        simp
          (
            parse-trim_text target,
            other_text source target other,
            works.store,
            works.downloads,
            key_full u,
            works.deletes (move_object_key u),
            works.statements assign_server,
            works.statements update_operation,
            works.statements update_volume,
            move_to,
            move_stage,
            move_download,
            pin_volume,
            complete_operation,
          )
          refl
