-- ===== src/Volumes/Examples.antt =====
-- Runs of the volume operations on concrete worlds.
use kindling.Base.{
  All, ◌⊎◌, min, none≢some, if◌then◌else◌, trim_right, is_blank, trim_left, ℕ, ◌≡◌, refl, true,
  false, Option, none, some, List, [], ◌∷◌, Text, codes, trim_space, Bool-cases, inl, inr, ◌==◌,
  is_space,
}
use kindling.Volumes.{
  unavailable, failed, repair, detached, attached, succeeded, pending, backup, healthy, Operation,
  Volume, Backup, World, update_volume, Answers, Uuids,
}
use kindling.Volumes.Requests.{
  post_move, select_target_server, is_transitional, ready_for_operation, Site,
}
use kindling.Volumes.Events.{backs_up, run_events-IsPlaced, Event, moves, reconciles, run_events}
use kindling.Volumes.Accepted.{IsLawful}
use kindling.Volumes.Moving.{Works}
use kindling.Volumes.Runs.{reconcile, is_elsewhere, is_terminal}
use kindling.Volumes.Handler.{
  complete_operation, fail_rows, trim_backups, trim_rows, with_op_status,
}
use kindling.Volumes.Calls.{run_calls}
use kindling.Volumes.Moved.{IsMoved, move_lem}
use kindling.Volumes.Attached.{KeepsData, run_calls_attached, reconcile_held, unfinished}
use kindling.Volumes.Retention.{newest, oldest, count_succeeded, IsGone, trim_backups_lem}
use kindling.Volumes.Pinned.{IsPlaced}

-- Printed between two signs.
abbrev parse : Text → Option ℕ
parse (a ∷ id ∷ b ∷ []) = if a == 35 then some id else none
parse [] = none
parse (a ∷ []) = none
parse (a ∷ id ∷ []) = none
parse (a ∷ id ∷ b ∷ c ∷ t) = none

abbrev uuids : Uuids
uuids = record {
  parse = parse;
  text = λ id. (35 ∷ id ∷ 35 ∷ []);
  volume_id = 11;
  operation_id = 12;
}

trim_lem : (id : ℕ) → trim_space (35 ∷ id ∷ 35 ∷ []) ≡ 35 ∷ id ∷ 35 ∷ []
unfolding trim_space trim_left trim_right is_space
trim_lem id = elim (Bool-cases (is_space id)) [ inl h ↦ simp h refl | inr h ↦ simp h refl ]

uuids-IsLawful : IsLawful uuids
unfolding is_blank trim_space
uuids-IsLawful = record { parse-text = λ id. refl; trim_text = trim_lem; text_full = λ id. refl }

abbrev site : Site
site = record {
  fails = λ s. false;
  store_configured = true;
  other_volume_backup = λ id. false;
  workers = some (1 ∷ 2 ∷ []);
  new_backup = 9;
}

abbrev answers : Answers
answers = record {
  now = 100;
  fails = λ s. false;
  server_status = some (codes "active");
  components = some [];
  store_ready = true;
  uploads = true;
  downloads = true;
  deletes_object = λ key. true;
  stat_fails = false;
  info_succeeds = true;
  check_succeeds = true;
  removes = true;
}

-- The second update of a row fails.
abbrev failing : Answers
failing = record answers { fails = λ s. (elim s [ update_volume ↦ true | _ ↦ false ]) }

answers-Works : Works answers
answers-Works = record {
  statements = λ s. refl;
  store = refl;
  uploads = refl;
  downloads = refl;
  deletes = λ key. refl;
  stat = refl;
  info = refl;
}

abbrev ended : Operation
ended = record {
  server_id = some 1;
  kind = backup;
  status = succeeded;
  request = none;
  started_at = some 5;
}

abbrev volume : Volume
volume = record {
  server_id = some 1;
  attached_vm_id = none;
  status = detached;
  health = healthy;
  backup_retention_count = 1;
  deleted = false;
}

abbrev backup_rows : List Backup
backup_rows =
    record { id = 3; status = succeeded; storage_key = codes "c" }
    ∷ record { id = 2; status = failed; storage_key = codes "b" }
    ∷ record { id = 1; status = succeeded; storage_key = codes "a" }
    ∷ []

abbrev world : World
world = record {
  op = ended;
  vol = volume;
  backups = backup_rows;
  has_object = λ key. true;
  has_file = λ s. (s == 1);
}

-- A virtual machine holds the volume, and a repair waits.
abbrev held_world : World
held_world = record world {
  vol = record volume { attached_vm_id = some 7; status = attached };
  op = record ended { kind = repair; status = pending; started_at = none };
}

world-IsPlaced : IsPlaced uuids world
world-IsPlaced = (
  (1, refl, refl),
  record {
    keeps = λ req e. absurd (none≢some e);
    restores = λ req t k e. absurd (none≢some e);
    downloads = λ req t k e. absurd (none≢some e);
  },
)

abbrev events : List Event
events =
    moves site (some [])
    ∷ reconciles 1 answers
    ∷ reconciles 1 answers
    ∷ reconciles 2 failing
    ∷ backs_up site
    ∷ reconciles 2 answers
    ∷ []

run_events-IsPlaced_example : IsPlaced uuids (run_events uuids events world)
run_events-IsPlaced_example = run_events-IsPlaced uuids uuids-IsLawful events world world-IsPlaced

move_lem_example :
    IsMoved uuids 2 world
      (reconcile 2 answers uuids
        (reconcile 1 answers uuids (post_move site uuids (some []) world).0).0).0
unfolding ready_for_operation is_transitional is_terminal select_target_server trim_space trim_left
    trim_right
move_lem_example =
    move_lem site uuids world [] 1 2 answers answers uuids-IsLawful refl refl refl refl refl refl
      (λ s. refl) refl refl answers-Works answers-Works

run_calls_attached_example :
    KeepsData held_world (run_calls uuids ((1, answers) ∷ (2, failing) ∷ []) held_world)
run_calls_attached_example =
    run_calls_attached uuids ((1, answers) ∷ (2, failing) ∷ []) held_world 7 refl

reconcile_held_example :
    (let w = (reconcile 1 answers uuids held_world).0 in
      (w.op.status ≡ failed)
      × ((w.vol.status ≡ detached) ⊎ (w.vol.status ≡ unavailable))
      × (w.vol.attached_vm_id ≡ some 7))
unfolding is_elsewhere
reconcile_held_example = reconcile_held uuids 1 answers held_world 7 refl refl refl refl (λ s. refl)

unfinished_example :
    ((complete_operation failing held_world).1 ≡ false)
    × (run_calls uuids ((1, answers) ∷ []) (complete_operation failing held_world).0
        ≡ with_op_status succeeded held_world)
    × ((fail_rows failing none held_world).1 ≡ false)
    × (run_calls uuids ((1, answers) ∷ []) (fail_rows failing none held_world).0
        ≡ with_op_status failed held_world)
unfinished_example = unfinished uuids failing held_world none ((1, answers) ∷ []) refl refl

trim_backups_lem_example :
    (let w = (trim_backups answers world).0 in
      (w.backups ≡ newest 1 backup_rows)
      × (count_succeeded w.backups ≡ min 1 (count_succeeded backup_rows))
      × All (IsGone w.has_object) (oldest 1 backup_rows)
      × ((key : Text) → w.has_object key ≡ true → true ≡ true))
unfolding trim_backups trim_rows trim_space trim_left trim_right is_space
trim_backups_lem_example = trim_backups_lem answers world 0 refl refl
