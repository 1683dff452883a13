-- ===== src/Migration/Attached.antt =====
-- internal/migrationreconcile/reconcile.go: the instance and its virtual machines.
use kindling.Base.{
  ==_refl, Bool-cases, ap, ℕ, ◌≡◌, refl, ◌∙◌, Bool, false, Option, none, some, List, [], ◌∷◌, ◌⊎◌,
  inl, inr, arith, ◌==◌, ==_iff,
}
use kindling.Migration.{update_received, update_failed, completed, Vm, World, Answers}
use kindling.Migration.Handler.{
  choose_shared_rootfs_ref, fail_with, send_returns, swap_vm, Event, reconciles, returns, step, run,
}
use kindling.Migration.Moves.{
  Change, stays, fails, prepares, sends, times_out, falls_back, stops, completes, evacuates,
  reconcile-Change,
}

-- The row of the instance names a machine whose row is not deleted and is on the instance's server: the
-- source machine, or one on the destination; on the destination once the migration is completed.
pub record IsAttached (w : World) : Type 0 where
  pub vm : Vm
  pub attached : w.vms w.instance_row.vm_id ≡ some vm
  pub live : vm.deleted ≡ false
  pub placed : vm.server_id ≡ w.instance_row.server_id
  pub home :
      (w.instance_row.vm_id ≡ w.migration.source_vm)
      ⊎ (w.instance_row.server_id ≡ w.migration.destination_server)
  pub moved :
      w.migration.state ≡ completed → w.instance_row.server_id ≡ w.migration.destination_server

-- `uuid.New` gives an id that no machine has.
abbrev pub IsFresh : World → Event → Type 0
IsFresh w (reconciles self a) = w.vms a.new_vm_id ≡ none
IsFresh w (returns a sent) = Unit {0}

abbrev pub AreFresh : World → List Event → Type 0
AreFresh w [] = Unit {0}
AreFresh w (e ∷ es) = IsFresh w e × AreFresh (step w e) es

-- What an operation that leaves the machines alone has to show.
unmoved :
    {w w' : World}
    → IsAttached w
    → w'.vms ≡ w.vms
    → w'.instance_row ≡ w.instance_row
    → w'.migration.source_vm ≡ w.migration.source_vm
    → w'.migration.destination_server ≡ w.migration.destination_server
    → (w'.migration.state ≡ completed → w.migration.state ≡ completed)
    → IsAttached w'
unmoved {w} v vms row source destination state = record {
  vm = v.vm;
  attached = simp row (ap (λ f. f w.instance_row.vm_id) vms ∙ v.attached);
  live = v.live;
  placed = simp row v.placed;
  home = simp (row, source, destination) v.home;
  moved = λ e. simp (row, destination) (v.moved (state e));
}

fresh_differs :
    (vms : ℕ → Option Vm) (new source : ℕ) {vm : Vm}
    → vms new ≡ none
    → vms source ≡ some vm
    → source == new ≡ false
fresh_differs vms new source h k = ground (arith, ==_iff source new, ap vms)

Change-IsAttached :
    (self : ℕ) (a : Answers) (w w' : World)
    → Change self a w w'
    → w.vms a.new_vm_id ≡ none
    → IsAttached w
    → IsAttached w'
unfolding swap_vm
Change-IsAttached self a w _ stays h v = v
Change-IsAttached self a w _ (fails t code) h v = unmoved v refl refl refl refl λ e. cc
Change-IsAttached self a w _ (prepares s d addr) h v = unmoved v refl refl refl refl λ e. cc
Change-IsAttached self a w _ (sends s d) h v = unmoved v refl refl refl refl λ e. cc
Change-IsAttached self a w _ (times_out s o t (inl e)) h v = unmoved v refl refl refl refl λ f. cc
Change-IsAttached self a w _ (times_out s o t (inr e)) h v = unmoved v refl refl refl refl λ f. cc
Change-IsAttached self a w _ (falls_back s d code) h v = unmoved v refl refl refl refl λ e. cc
Change-IsAttached self a w _ (stops s d) h v = unmoved v refl refl refl refl λ e. e
Change-IsAttached self a w _ (evacuates s) h v = unmoved v refl refl refl refl λ e. e
Change-IsAttached self a w _ (completes s d source k url ref ip port) h v =
    let other = fresh_differs w.vms a.new_vm_id w.migration.source_vm h k in
    record {
      vm = record {
        server_id = w.migration.destination_server;
        shared_rootfs_ref = choose_shared_rootfs_ref ref source.shared_rootfs_ref;
        ip_address = ip;
        port = port;
        deleted = false;
      };
      attached = simp (other, ==_refl a.new_vm_id) refl;
      live = refl;
      placed = refl;
      home = inr refl;
      moved = λ e. refl;
    }

send_returns-IsAttached :
    (a : Answers) (sent : Bool) (w : World) → IsAttached w → IsAttached (send_returns a sent w).0
unfolding send_returns fail_with
send_returns-IsAttached a sent w v = elim (Bool-cases w.in_flight) [
  | inr f ↦ simp (f, send_returns) v
  | inl f ↦ elim (Bool-cases sent) [
    | inr n ↦ elim (Bool-cases (a.fails update_failed)) [
      | inl h ↦ simp (f, n, h, send_returns, fail_with) (unmoved v refl refl refl refl λ e. e)
      | inr h ↦ simp (f, n, h, send_returns, fail_with) (unmoved v refl refl refl refl λ e. cc)
    ]
    | inl n ↦ elim (Bool-cases (a.fails update_received)) [
      | inl h ↦ simp (f, n, h, send_returns) (unmoved v refl refl refl refl λ e. e)
      | inr h ↦ simp (f, n, h, send_returns) (unmoved v refl refl refl refl λ e. cc)
    ]
  ]
]

step-IsAttached : (w : World) (e : Event) → IsFresh w e → IsAttached w → IsAttached (step w e)
unfolding step
step-IsAttached w (reconciles self a) h v =
    Change-IsAttached self a w _ (reconcile-Change self a w) h v
step-IsAttached w (returns a sent) h v = send_returns-IsAttached a sent w v

-- Of the rows in the database: if the row of an instance names a machine whose row is not deleted and is
-- on the instance's server, it does so at every later moment of the migration, whatever the servers, the
-- runtime and the database answer and in whichever order, as long as the ids of new machines are new.
-- The machine is the source machine or one of the destination, and one of the destination when the
-- migration is completed. Whether a runtime runs the machine is not said.
pub run-IsAttached :
    (w : World) (es : List Event) → AreFresh w es → IsAttached w → IsAttached (run w es)
unfolding run
run-IsAttached w [] h v = v
run-IsAttached w (e ∷ es) h v = run-IsAttached (step w e) es h.1 (step-IsAttached w e h.0 v)
