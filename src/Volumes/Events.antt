-- ===== src/Volumes/Events.antt =====
-- internal/volumeops/handler.go with internal/rpc/project_volume_ops.go: requests and calls of
-- `Reconcile` in any order.
use kindling.Base.{ℕ, Option, List, [], ◌∷◌, Text}
use kindling.Volumes.{World, Uuids}
use kindling.Volumes.Requests.{Site, post_backup, post_restore, post_move, post_repair}
use kindling.Volumes.Runs.{reconcile}
use kindling.Volumes.Calls.{reconcile-IsPlaced}
use kindling.Volumes.{Answers}
use kindling.Volumes.Pinned.{IsPlaced}
use kindling.Volumes.Accepted.{
  IsLawful, post_backup-IsPlaced, post_repair-IsPlaced, post_restore-IsPlaced, post_move-IsPlaced,
}

-- What happens to a volume: a request, or a call of `Reconcile` on a server.
pub data Event : Type 0 where
  backs_up : Site → Event
  restores : Site → Option (Text × Text) → Event
  moves : Site → Option Text → Event
  repairs : Site → Event
  reconciles : ℕ → Answers → Event

pub run_event : Uuids → Event → World → World
run_event u (backs_up site) w = (post_backup site u w).0
run_event u (restores site body) w = (post_restore site u body w).0
run_event u (moves site body) w = (post_move site u body w).0
run_event u (repairs site) w = (post_repair site u w).0
run_event u (reconciles self a) w = (reconcile self a u w).0

run_event-IsPlaced :
    (u : Uuids) → IsLawful u → (e : Event) (w : World) → IsPlaced u w → IsPlaced u (run_event u e w)
unfolding run_event
run_event-IsPlaced u law (backs_up site) w p = post_backup-IsPlaced site u w p
run_event-IsPlaced u law (restores site body) w p = post_restore-IsPlaced site u law body w p
run_event-IsPlaced u law (moves site body) w p = post_move-IsPlaced site u body w p
run_event-IsPlaced u law (repairs site) w p = post_repair-IsPlaced site u w p
run_event-IsPlaced u law (reconciles self a) w p = reconcile-IsPlaced u a self w p

pub run_events : Uuids → List Event → World → World
run_events u [] w = w
run_events u (e ∷ events) w = run_events u events (run_event u e w)

-- A volume that is pinned to a server with its file, while no operation that deletes it is under way and a
-- restore or a download under way is handed to the server that it names: the volume stays pinned, to this or another server, and the server that it is pinned to has its file, whatever
-- requests for a backup, a restore, a move or a repair come, whichever servers call `Reconcile`, and
-- whatever fails in them. The request that deletes the volume is not among these.
pub run_events-IsPlaced :
    (u : Uuids)
    → IsLawful u
    → (events : List Event) (w : World) → IsPlaced u w
    → IsPlaced u (run_events u events w)
unfolding run_events
run_events-IsPlaced u law [] w p = p
run_events-IsPlaced u law (e ∷ events) w p =
    run_events-IsPlaced u law events (run_event u e w) (run_event-IsPlaced u law e w p)
