-- ===== src/Lib.antt =====
-- Kindling (a self-hosted platform that builds and runs applications in micro virtual machines):
-- the core logic of its control plane.
--
-- Each file models one part, and the files below it prove what holds of that part:
--
-- - Base: the numbers, texts and lists that the parts share. The program's int32 and int are the
--   integers of Base.Int, its times numbers of nanoseconds.
-- - Scheduler: internal/reconciler/reconciler.go. `set_schedule`, `dispatch_due`, `take_work` and
--   `finish` are the critical sections of Schedule, dispatchDue and worker; `run` is any sequence
--   of them.
-- - Scaling: internal/rpc/project_crud.go (the instance counts of createProject and patchProject)
--   and internal/deploy/deploy.go (effectiveReplicaCount and its helpers).
-- - Autoscale: internal/autoscale/autoscale.go. ComputeDesiredInstanceCount and the slow and the
--   fast sweep; float64 and the database are parameters, and a deployment is scheduled only with a
--   reconciler and a valid id. It reads the projects and services of Scaling.
-- - RateLimit: internal/ratelimit/ratelimit.go. Allow, cleanup and the two middlewares.
-- - Ci: internal/ci/compile.go. topoSortJobs, resolveJobOrder and Compile. The depth-first search
--   `visit` runs on fuel of one more than the number of jobs; that this is enough is part of the
--   theorem on it.
-- - Overlay: internal/wgmesh/ip.go, OverlayIP, with its 32-bit and byte arithmetic written out.
-- - Drain: `drain_old_deployments` is drainOldDeployments of internal/deploy/deploy_instance.go
--   with its query of internal/database/queries.sql, and `reconcile_server` is Reconcile of
--   internal/serverreconcile/reconcile.go, which uses the scheduler of Scheduler.
-- - Fleet: internal/deploy/deploy_scaling.go and internal/deploy/lifecycle.go. The instances of
--   one deployment: counting, promoting and pruning the warm pool, creating missing instances, and
--   choosing those to clean up. The loop that creates instances runs on fuel of one more than the
--   desired count; its theorem shows that this is enough.
-- - Migration: internal/migrationreconcile/reconcile.go. `reconcile` is Reconcile on one server;
--   Migration.Handler has the whole handler, in which SendMigration is a step of its own
--   (`send_returns`), and `run` is any interleaving of the servers.
-- - Volumes: internal/volumeops/handler.go, and the requests of
--   internal/rpc/project_volume_ops.go. `reconcile` is Reconcile on one server; `run_events` runs
--   requests and calls of it in any order. The package uuid, the store, the files and the failures
--   of the database are parameters; `IsLawful` is what the code relies on of the package uuid.
-- - Dns: internal/shared/netnames/netnames.go and internal/workerdns/resolver.go.
--   `private_dns_name` is what the dashboard shows, `parse_internal_name` what the server reads,
--   and `resolve` is Resolve over a store of lookups.
-- - Secrets: internal/config/crypto.go and internal/config/project_secrets.go. AES-GCM and base64
--   are a `Crypto`, with the laws in `IsCrypto`.
-- - Fleet.Evacuation: internal/deploy/deploy_evacuation.go and cleanupInstance of
--   internal/deploy/deploy_instance.go. The loop of scaleDownExcess runs on fuel of one more than
--   the active instances; its theorem shows that this is enough. The pruning of the warm pool that
--   follows the loop is `prune_warm_pool_instances` of Fleet; volumes are detached and servers
--   notified outside the model.
-- - Deploy: internal/deploy/deploy_instance.go, deploy_health.go, deploy_build.go,
--   project_volumes.go and runtime_address.go, and internal/deploy/deploy.go without the steps on
--   lists of instances that Fleet has. An action (Deploy.Store) ends with a value or an error and
--   keeps what it has written. `reconcile_one_instance` is reconcileOneInstance on one server;
--   `prepare_deployment` is ReconcileDeployment until it calls reconcileInstances, and
--   `finish_instances` the end of reconcileInstances. A call may fail at each `Site`; the runtime
--   and the probes answer in an `Env`. `run_parts` runs preparations, passes over instances and
--   promotions, of one or several reconciliations, where a `Part` carries the row of the
--   deployment that its reconciliation has read.
-- - Preview: internal/preview/naming.go (Preview.Naming) and RunCleanupOnce of
--   internal/preview/cleanup.go with the statements it makes (Preview.Cleanup). Texts are lists of
--   code points, and the slugs are ASCII, so that lengths in bytes are lengths of lists;
--   `strings.ToLower` of one code point is a parameter. Which calls fail is in `Calls`, by
--   environment.
--
-- Not modelled: the processes and command lines (cmd/), the HTTP transport, the generated database
-- queries, the hypervisors and container runtimes, the web front end, the creation and the
-- deletion of volumes, the scaling of idle previews and the set-up of the overlay network. Most of
-- these are input and output around the core. Log lines, tracing and the cancellation of contexts
-- are left out everywhere.
pub mod Autoscale
pub mod Base
pub mod Ci
pub mod Deploy
pub mod Dns
pub mod Drain
pub mod Fleet
pub mod Migration
pub mod Overlay
pub mod Preview
pub mod RateLimit
pub mod Scaling
pub mod Scheduler
pub mod Secrets
pub mod Volumes
